-- ===== src/Delivery.antt =====
-- The way of a message: from the keys of one user through two processes of the client and a process
-- of the server into the chat log.
pub mod Back
use papaya_chat.Base.{ℕ, ◌≤◌, ◌≡◌, subst, ◌∙◌, false, true, Bytes, length, ◌==◌}
use papaya_chat.Posix.{Kernel, run, returned, running, ended, exit_now}
use papaya_chat.Posix.Monitor.{written, received}
use papaya_chat.ClientRequest.{receive_messages}
use papaya_chat.ClientRequest.Message.{no_nul}
use papaya_chat.ClientRequest.Receive.{Closes, effect, receive_messages-Closes}
use papaya_chat.Messages.{handle_send_socket}
use papaya_chat.Messages.Relay.{Relays, handle_send_socket-Relays}
use papaya_chat.Screen.{Chat, key_loop, max_message_sent}
use papaya_chat.Screen.Editor.{keys, AllPlain, sent_by_all}
use papaya_chat.Screen.Window.{LineWindow}
use papaya_chat.Screen.Session.{key_loop-sent_by_all}

module _ {S T U : Type 0} (user : Kernel S) (child : Kernel T) (server : Kernel U) (c : Chat)
    (pipe_fd server_fd client_fd chatlog_fd child_pid : ℕ) where
  stored_lem :
      (rounds : ℕ) (s : U)
      → let r = run server (receive_messages rounds client_fd chatlog_fd child_pid) s in
        r.outcome ≡ ended (exit_now 0) → written chatlog_fd r.trace ≡ received client_fd r.trace
  stored_lem rounds s e =
      let r = run server (receive_messages rounds client_fd chatlog_fd child_pid) s in
      (subst (λ o. Closes o (effect server client_fd chatlog_fd child_pid r.trace)) e
        (receive_messages-Closes server client_fd chatlog_fd child_pid rounds s)).0

  relayed_lem :
      (rounds : ℕ) (s : T)
      → let r = run child (handle_send_socket rounds server_fd pipe_fd) s in
        r.outcome ≡ running → written server_fd r.trace ≡ received pipe_fd r.trace
  relayed_lem rounds s e =
      let r = run child (handle_send_socket rounds server_fd pipe_fd) s in
      (subst (λ o. Relays pipe_fd server_fd o r.trace) e
        (handle_send_socket-Relays child server_fd pipe_fd rounds s).0).0

  -- If the front end left its loop, the sending child still runs and has read from its pipe what the
  -- front end wrote to it, and the receiving process of the server has ended with EXIT_SUCCESS and
  -- has read from its socket what the child wrote to it: then this process has appended to the chat
  -- log what the line editor makes of the keys that were typed, if they are plain.
  pub key_loop-receive_messages :
      (width : ℕ) (line : S → Bytes) (cursor : S → ℕ)
      → LineWindow user c.chat_window width line cursor
      → 8 ≤ width
      → (c.chat_window == c.text_window) ≡ false
      → (rounds rounds' rounds'' : ℕ) (s : S) (t : T) (u : U) → cursor s ≡ length (line s)
      → no_nul c.username ≡ true
      → no_nul (line s) ≡ true
      → let typed = run user (key_loop rounds c) s in
        let relayed = run child (handle_send_socket rounds' server_fd pipe_fd) t in
        let stored = run server (receive_messages rounds'' client_fd chatlog_fd child_pid) u in
        typed.outcome ≡ returned tt
        → relayed.outcome ≡ running
        → stored.outcome ≡ ended (exit_now 0)
        → received pipe_fd relayed.trace ≡ written c.send_fd typed.trace
        → received client_fd stored.trace ≡ written server_fd relayed.trace
        → AllPlain (keys c.chat_window typed.trace)
        → written chatlog_fd stored.trace
          ≡ sent_by_all
              (max_message_sent width)
              c.username
              (line s)
              (keys c.chat_window typed.trace)
  key_loop-receive_messages width line cursor window wide other rounds rounds' rounds'' s t u at n
        n' left runs closed piped sent plain =
      stored_lem rounds'' u closed
      ∙ sent
      ∙ relayed_lem rounds' t runs
      ∙ piped
      ∙ key_loop-sent_by_all user width c line cursor window wide other rounds s at n n' left plain
