-- ===== src/ClientRequest/Multicast.antt =====
-- The signal between the processes of the clients: what is in the chat log when a sending process
-- that waits is woken, and what it sends then.
use papaya_chat.ChatLog.Failures.{some_fails}
use papaya_chat.ClientRequest.Failures.{read_chatlog_send_client_returned}
use papaya_chat.ClientRequest.Session.{no_nul-take}
use papaya_chat.Base.{
  false, subst, drop-append_length, ℕ, suc, ◌+◌, ◌≡◌, ◌≢◌, refl, ap, ◌∙◌, List, [], ◌∷◌, ◌++◌, true,
  Bytes, length, take, drop,
}
use papaya_chat.Config.{buf_size}
use papaya_chat.Posix.{Call, ◌>>=◌, Prog, run, returned, Event, sigusr1}
use papaya_chat.Posix.Monitor.{written, signals, taken}
use papaya_chat.Posix.Together.{Shared, By, by, local, all_events}
use papaya_chat.Posix.Group.{all_strikes, Group, Steps, woken_by, Steps-woken_by, Steps-log}
use papaya_chat.Posix.Group.Alone.{own, run-Steps}
use papaya_chat.ChatLog.Transfer.{ReadsLog}
use papaya_chat.ClientRequest.{read_chatlog_send_client, send_loop}
use papaya_chat.ClientRequest.Message.{no_nul, message_for}
use papaya_chat.ClientRequest.Send.{read_chatlog_send_client-piece}
use papaya_chat.ClientRequest.Wakeups.{read_chatlog_send_client-Live}

-- A sending process after pause(2) has returned.
pub awake : ℕ → ℕ → ℕ → ℕ → Prog (Unit {0})
awake rounds client_fd chatlog_fd offset = do
  next ← read_chatlog_send_client client_fd chatlog_fd offset
  send_loop rounds client_fd chatlog_fd next

woken_by-awake :
    (us : List (Unit {0})) (rounds client_fd chatlog_fd offset : ℕ)
    → woken_by us (awake rounds client_fd chatlog_fd offset)
      ≡ awake rounds client_fd chatlog_fd offset
unfolding awake read_chatlog_send_client
woken_by-awake [] rounds client_fd chatlog_fd offset = refl
woken_by-awake (u ∷ us) rounds client_fd chatlog_fd offset =
    woken_by-awake us rounds client_fd chatlog_fd offset

woken_by-send_loop :
    (us : List (Unit {0})) (rounds client_fd chatlog_fd offset : ℕ)
    → us ≢ []
    → woken_by us (send_loop (suc rounds) client_fd chatlog_fd offset)
      ≡ awake rounds client_fd chatlog_fd offset
unfolding send_loop awake
woken_by-send_loop [] rounds client_fd chatlog_fd offset n = absurd (n refl)
woken_by-send_loop (u ∷ us) rounds client_fd chatlog_fd offset n =
    woken_by-awake us rounds client_fd chatlog_fd offset

module _ {S : Type 0} (k : Shared S) (j client_fd chatlog_fd : ℕ) where
  module _ (file : S → Bytes) (at : S → ℕ) (log : ReadsLog (own k j) chatlog_fd file at)
      (appends : (i : ℕ) (c : Call) (s : S)
        → let (r, s') = k.answer i c s in file s' ≡ file s ++ taken chatlog_fd c r) where
    -- What the process sends in a wake-up after steps of the group.
    pub wake-piece :
        (g e : Group (Unit {0}) S) (h : List By) (next : ℕ)
        → Steps k g h e
        → no_nul (written chatlog_fd (all_events h)) ≡ true
        → let r =
            run
              (own k j)
              (read_chatlog_send_client client_fd chatlog_fd (length (file g.state)))
              e.state in
          r.outcome ≡ returned next
          → let piece = take buf_size (written chatlog_fd (all_events h)) in
            (next ≡ length (file g.state) + length piece)
            × (written client_fd r.trace ≡ message_for piece)
    wake-piece g e h next steps clean goes_on =
        let fresh = written chatlog_fd (all_events h) in
        let new : drop (length (file g.state)) (file e.state) ≡ fresh =
          ap (drop (length (file g.state))) (Steps-log chatlog_fd file appends steps)
          ∙ drop-append_length (file g.state) fresh in
        subst
          (λ l.
            (next ≡ length (file g.state) + length (take buf_size l))
            × (written client_fd
                  (run (own k j)
                    (read_chatlog_send_client client_fd chatlog_fd (length (file g.state)))
                    e.state).trace
                ≡ message_for (take buf_size l)))
          new
          (read_chatlog_send_client-piece (own k j) client_fd chatlog_fd file at log e.state
            (length (file g.state)) next (rw new (no_nul-take buf_size fresh clean)) goes_on)

    -- On a kernel that appends what is written to the chat log, and that reads it as `ReadsLog`
    -- says: let a sending process wait that has sent the whole chat log. When other processes have
    -- then made calls, at least one SIGUSR1 to the group among them and no SIGTERM to this process,
    -- and it goes on before any other process and none of its calls fails, it sends what was
    -- written in the meantime, by whichever process: the first 4096 bytes of it, if no byte of it
    -- is NUL, and with the last one replaced by a NUL. Then it waits again, with an offset after
    -- those bytes.
    pub send_loop-multicast :
        (g e : Group (Unit {0}) S) (h : List By) (rounds : ℕ)
        → g.processes j ≡ send_loop (suc rounds) client_fd chatlog_fd (length (file g.state))
        → Steps k g h e
        → all_strikes j (all_events h) ≡ []
        → local j h ≡ []
        → signals 0 sigusr1 (all_events h) ≢ []
        → no_nul (written chatlog_fd (all_events h)) ≡ true
        → some_fails false
            (run
              (own k j)
              (read_chatlog_send_client client_fd chatlog_fd (length (file g.state)))
              e.state).trace
          ≡ false
        → let piece = take buf_size (written chatlog_fd (all_events h)) in
          (t : List Event) × (d : Group (Unit {0}) S) × Steps k e (by j t) d
          × (written client_fd t ≡ message_for piece)
          × (d.processes j
              ≡ send_loop rounds client_fd chatlog_fd (length (file g.state) + length piece))
    unfolding awake
    send_loop-multicast g e h rounds waits steps alive silent signalled clean well =
        let offset = length (file g.state) in
        let up : e.processes j ≡ awake rounds client_fd chatlog_fd offset =
          Steps-woken_by j steps alive silent
          ∙ ap (woken_by (signals 0 sigusr1 (all_events h))) waits
          ∙ woken_by-send_loop _ rounds client_fd chatlog_fd offset signalled in
        let wake = read_chatlog_send_client client_fd chatlog_fd offset in
        let r = run (own k j) wake e.state in
        let (next, goes_on) =
          read_chatlog_send_client_returned (own k j) client_fd chatlog_fd offset e.state well in
        let (moved, sent) = wake-piece g e h next steps clean goes_on in
        let (d, run_on, went) =
          run-Steps k j wake (send_loop rounds client_fd chatlog_fd) e next
            (read_chatlog_send_client-Live client_fd chatlog_fd offset) up goes_on in
        (r.trace, d, run_on, sent, went.self ∙ ap (send_loop rounds client_fd chatlog_fd) moved)
