-- ===== src/ClientRequest/Gone.antt =====
-- The end of a connection: no process of the client is left.
use papaya_chat.Base.{ℕ, ◌≡◌, sym, subst, ap, ◌∙◌, List, [], ◌∷◌, append-nil, false, ◌==◌}
use papaya_chat.Posix.{ends, Exit, exit_now, ended, run, sigterm}
use papaya_chat.Posix.Monitor.{signals, written, received}
use papaya_chat.Posix.Live.{calm}
use papaya_chat.Posix.Only.{Only, Only-weaken}
use papaya_chat.Posix.Together.{Shared, By, local, all_events, alone, afters}
use papaya_chat.Posix.Group.{Group, Steps, all_strikes, moves, calm-moves}
use papaya_chat.Posix.Group.Ended.{Steps-struck, Steps-alone}
use papaya_chat.ClientRequest.{receive_messages}
use papaya_chat.ClientRequest.Calm.{receive_messages-Calm}
use papaya_chat.ClientRequest.Receive.{Closes, effect, receive_messages-Closes}

module _ {S : Type 0} (k : Shared S) (i j client_fd chatlog_fd rounds : ℕ) where
  -- The calls of a receiving process that has ended with EXIT_SUCCESS.
  closed_lem :
      {g e : Group (Unit {0}) S} {h : List By}
      → Steps k g h e
      → all_strikes i (all_events h) ≡ []
      → g.processes i ≡ receive_messages rounds client_fd chatlog_fd j
      → e.processes i ≡ ends (exit_now 0)
      → (written chatlog_fd (local i h) ≡ received client_fd (local i h))
        × (signals j sigterm (local i h) ≡ tt ∷ [])
  closed_lem {g = g} {e = e} {h = h} steps alive role over =
      let p = receive_messages rounds client_fd chatlog_fd j in
      let only : Only moves (g.processes i) =
        subst (λ q. Only moves q) (sym role)
          (Only-weaken calm moves p calm-moves
            (receive_messages-Calm client_fd chatlog_fd j rounds)) in
      let (replies, same) = Steps-alone i g.state steps only alive in
      let whole : run (alone k i) p (replies, g.state)
          ≡ record { trace = local i h; outcome = ended (exit_now 0); final = ([], g.state) } =
        ap (λ q. run (alone k i) q (replies, g.state)) (sym role)
        ∙ same
        ∙ ap (λ q. afters (local i h) (run (alone k i) q ([], g.state))) over
        ∙ ap (λ es. record { trace = es; outcome = ended (exit_now 0); final = ([], g.state) })
            (append-nil (local i h)) in
      subst (λ r. Closes r.outcome (effect (alone k i) client_fd chatlog_fd j r.trace)) whole
        (receive_messages-Closes (alone k i) client_fd chatlog_fd j rounds (replies, g.state))

  -- In every interleaving of the processes of the group: if a receiving process to which no SIGTERM
  -- is sent has ended with EXIT_SUCCESS, then it has appended to the chat log the bytes that it read
  -- from its client, and the sending process whose pid it was given has ended too: no process of the
  -- client is left.
  pub receive_messages-gone :
      {g e : Group (Unit {0}) S} {h : List By}
      → Steps k g h e
      → (j == i) ≡ false
      → all_strikes i (all_events h) ≡ []
      → g.processes i ≡ receive_messages rounds client_fd chatlog_fd j
      → e.processes i ≡ ends (exit_now 0)
      → (written chatlog_fd (local i h) ≡ received client_fd (local i h))
        × ((y : Exit) × (e.processes j ≡ ends y))
  receive_messages-gone {h = h} steps other alive role over =
      let (stored, killed) = closed_lem steps alive role over in
      (stored, Steps-struck i j steps other (λ none. cc (killed, none)))
