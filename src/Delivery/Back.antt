-- ===== src/Delivery/Back.antt =====
-- The way back: from the chat log through a process of the server and two processes of the client
-- onto the screen of another user.
use papaya_chat.ChatLog.Failures.{some_fails}
use papaya_chat.ClientRequest.Failures.{read_chatlog_send_client_returned}
use papaya_chat.Base.{
  false, arith, take-all, length-append, codes, ℕ, ◌+◌, ◌≤◌, ◌≡◌, ap, subst, sym, ◌∙◌, List, [],
  ◌∷◌, ◌++◌, some, true, Bytes, length, take,
}
use papaya_chat.Config.{buf_size}
use papaya_chat.Posix.{Kernel, run, returned, running, malloc, read, Block, Call}
use papaya_chat.Posix.Monitor.{written, received, taken}
use papaya_chat.Posix.Together.{Shared, By, all_events}
use papaya_chat.Posix.Group.{Group, Steps}
use papaya_chat.Posix.Group.Alone.{own}
use papaya_chat.ChatLog.Transfer.{ReadsLog}
use papaya_chat.ClientRequest.{read_chatlog_send_client}
use papaya_chat.ClientRequest.Message.{message_for-line, no_nul-line, no_nul, message_for}
use papaya_chat.ClientRequest.Multicast.{wake-piece}
use papaya_chat.Messages.{handle_read_socket}
use papaya_chat.Messages.Relay.{Relays, handle_read_socket-Relays}
use papaya_chat.Screen.{print_messages_from_server}
use papaya_chat.Screen.Shown.{shown_in, print_messages_from_server-c_str}

module _ {S T U : Type 0} (k : Shared S) (child : Kernel T) (user : Kernel U)
    (j client_fd chatlog_fd server_fd pipe_fd window max_y : ℕ) (file : S → Bytes) (at : S → ℕ)
    (log : ReadsLog (own k j) chatlog_fd file at)
    (appends : (i : ℕ) (c : Call) (s : S)
      → let (r, s') = k.answer i c s in file s' ≡ file s ++ taken chatlog_fd c r) where
  returned_lem :
      (rounds : ℕ) (t : T)
      → let r = run child (handle_read_socket rounds server_fd pipe_fd) t in
        r.outcome ≡ running → written pipe_fd r.trace ≡ received server_fd r.trace
  returned_lem rounds t e =
      let r = run child (handle_read_socket rounds server_fd pipe_fd) t in
      (subst (λ o. Relays server_fd pipe_fd o r.trace) e
        (handle_read_socket-Relays child server_fd pipe_fd rounds t).0).0

  -- While steps of the group lead from `g` to `e`, the processes write lines to the chat log, together
  -- at most 4096 bytes, with no NUL and a newline at the end. If a sending process that had sent
  -- the whole chat log of `g` then goes through a wake-up in which no call fails, the receiving child
  -- of its client still runs and has read from the socket what the sender wrote in it, and the front
  -- end is given from the pipe, in one read, what the child wrote there, and it returns: then what it
  -- shows on the screen is what the processes wrote, byte for byte.
  pub read_chatlog_send_client-shown :
      (g e : Group (Unit {0}) S) (h : List By) (rounds : ℕ) (t : T) (u : U) (b : Block) (c : ℕ)
      (text : Bytes)
      → Steps k g h e
      → written chatlog_fd (all_events h) ≡ c ∷ (text ++ codes "\n")
      → no_nul (c ∷ text) ≡ true
      → length text + 2 ≤ buf_size
      → let sent =
          run
            (own k j)
            (read_chatlog_send_client client_fd chatlog_fd (length (file g.state)))
            e.state in
        let passed = run child (handle_read_socket rounds server_fd pipe_fd) t in
        let shown = run user (print_messages_from_server window pipe_fd max_y) u in
        some_fails false sent.trace ≡ false
        → passed.outcome ≡ running
        → received server_fd passed.trace ≡ written client_fd sent.trace
        → (user.answer (malloc buf_size) u).0 ≡ some b
        → (user.answer (read pipe_fd buf_size) (user.answer (malloc buf_size) u).1).0
          ≡ some (written pipe_fd passed.trace)
        → shown.outcome ≡ returned tt
        → shown_in window shown.trace ≡ written chatlog_fd (all_events h)
  read_chatlog_send_client-shown g e h rounds t u b c text steps line clean fits well runs carried
        block given returns =
      let whole : take buf_size (written chatlog_fd (all_events h)) ≡ c ∷ (text ++ codes "\n") =
        ap (take buf_size) line
        ∙ take-all buf_size _ (omega (arith, length-append text (codes "\n"))) in
      let clean' : no_nul (written chatlog_fd (all_events h)) ≡ true =
        rw line (no_nul-line (c ∷ text) clean) in
      let (next, goes_on) =
        read_chatlog_send_client_returned (own k j) client_fd chatlog_fd (length (file g.state))
          e.state well in
      let sent =
        (wake-piece k j client_fd chatlog_fd file at log appends g e h next steps clean'
          goes_on).1 in
      let passed = returned_lem rounds t runs in
      print_messages_from_server-c_str user window max_y pipe_fd u b c text [] block
        (given
          ∙ ap some (passed ∙ carried ∙ sent ∙ ap message_for whole ∙ message_for-line c text 10))
        clean returns
      ∙ sym line
