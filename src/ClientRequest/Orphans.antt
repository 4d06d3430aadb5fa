-- ===== src/ClientRequest/Orphans.antt =====
-- The receiving process, however it ends: does it end the sending process?
use papaya_chat.Base.{
  ℕ, zero, suc, ◌≡◌, refl, ap, ap₂, List, [], ◌∷◌, ◌++◌, Option, none, some, Bool, true, false,
  ◌||◌, Bytes, append_assoc, sym, ◌∙◌, ◌==◌, if◌then◌else◌, arith,
}
use papaya_chat.Posix.{
  Call, Reply, Prog, Kernel, Event, Outcome, returned, ended, running, Run, run, exit_now, ends,
  ◌>>◌, malloc, read, kill, sigterm, Block,
}
use papaya_chat.Posix.Monitor.{signal_eq}
use papaya_chat.Posix.Runs.{run-bind, continue}
use papaya_chat.Config.{buf_size}
use papaya_chat.ChatLog.{exclusive_write}
use papaya_chat.ClientRequest.{
  again, done, handle_read, receive_into, receive_round, receive_loop, receive_messages, kill_child,
}

-- The calls of kill(2) that send SIGTERM to a process, whether they succeed or not.
abbrev pub attempt : ℕ → Call → List (Unit {0})
attempt pid (kill pid' s) =
    if pid == pid' then (if signal_eq sigterm s then tt ∷ [] else []) else []
attempt pid c = []

abbrev pub attempts : ℕ → List Event → List (Unit {0})
attempts pid [] = []
attempts pid (e ∷ es) = attempt pid e.asked ++ attempts pid es

-- Did a call of malloc(3) fail?
abbrev pub starves : (c : Call) → Reply c → Bool
starves (malloc n) none = true
starves (malloc n) (some b) = false
starves c r = false

abbrev pub starved : List Event → Bool
starved [] = false
starved (e ∷ es) = starves e.asked e.reply || starved es

attempts-append :
    (pid : ℕ) (t u : List Event) → attempts pid (t ++ u) ≡ attempts pid t ++ attempts pid u
attempts-append pid [] u = refl
attempts-append pid (e ∷ es) u =
    ap (λ l. attempt pid e.asked ++ l) (attempts-append pid es u)
    ∙ sym (append_assoc (attempt pid e.asked) (attempts pid es) (attempts pid u))

starved-append : (t u : List Event) → starved t ≡ false → starved (t ++ u) ≡ starved u
starved-append [] u h = refl
starved-append (e ∷ es) u h = ground (arith, starved-append es u)

-- Nothing has gone wrong, and the other process is left alone.
abbrev pub IsQuiet : ℕ → List Event → Type 0
IsQuiet pid t = (attempts pid t ≡ []) × (starved t ≡ false)

-- SIGTERM was sent once, or malloc(3) has failed and it was not.
abbrev pub IsSettled : ℕ → List Event → Type 0
IsSettled pid t = attempts pid t ≡ (if starved t then [] else tt ∷ [])

-- How the receiver may come out.
abbrev pub Settles : {A : Type 0} → ℕ → Outcome A → List Event → Type 0
Settles pid (returned a) t = ⊥
Settles pid running t = IsQuiet pid t
Settles pid (ended x) t = IsSettled pid t

module _ {S : Type 0} (k : Kernel S) (client_fd chatlog_fd child_pid : ℕ) where
  abbrev GoesOn : {A : Type 0} → Outcome A → List Event → Type 0
  GoesOn (returned a) t = IsQuiet child_pid t
  GoesOn running t = IsQuiet child_pid t
  GoesOn (ended x) t = IsSettled child_pid t

  IsQuiet-append :
      (t u : List Event) → IsQuiet child_pid t → IsQuiet child_pid u → IsQuiet child_pid (t ++ u)
  IsQuiet-append t u h g =
      (attempts-append child_pid t u ∙ ap₂ ◌++◌ h.0 g.0, starved-append t u h.1 ∙ g.1)

  IsSettled-append :
      (t u : List Event)
      → IsQuiet child_pid t
      → IsSettled child_pid u
      → IsSettled child_pid (t ++ u)
  IsSettled-append t u h g =
      attempts-append child_pid t u
      ∙ ap₂ ◌++◌ h.0 g
      ∙ ap (λ b. if b then [] else tt ∷ []) (sym (starved-append t u h.1))

  GoesOn-append :
      {A : Type 0} (t : List Event) (o : Outcome A) (u : List Event)
      → IsQuiet child_pid t
      → GoesOn o u
      → GoesOn o (t ++ u)
  GoesOn-append t (returned a) u h g = IsQuiet-append t u h g
  GoesOn-append t running u h g = IsQuiet-append t u h g
  GoesOn-append t (ended x) u h g = IsSettled-append t u h g

  handle_read-GoesOn :
      (s : S) (buf : ℕ) (o : Option Bytes)
      → let r = run k (handle_read chatlog_fd child_pid buf o) s in GoesOn r.outcome r.trace
  unfolding handle_read exclusive_write kill_child
  handle_read-GoesOn s buf none = ground arith
  handle_read-GoesOn s buf (some []) = ground arith
  handle_read-GoesOn s buf (some (b ∷ bytes)) = ground arith

  -- The call of malloc comes before the rest of the round.
  receive_into-GoesOn :
      (s : S) (o : Option Block)
      → let r = run k (receive_into client_fd chatlog_fd child_pid o) s in
        GoesOn r.outcome (record { asked = malloc buf_size; reply = o } ∷ r.trace)
  unfolding receive_into
  receive_into-GoesOn s none = refl
  receive_into-GoesOn s (some b) =
      let (bytes, s') = k.answer (read client_fd buf_size) s in
      let r = run k (handle_read chatlog_fd child_pid b.addr bytes) s' in
      GoesOn-append
        (record { asked = malloc buf_size; reply = some b }
          ∷ record { asked = read client_fd buf_size; reply = bytes }
          ∷ [])
        r.outcome r.trace (refl, refl) (handle_read-GoesOn s' b.addr bytes)

  receive_round-GoesOn :
      (s : S)
      → let r = run k (receive_round client_fd chatlog_fd child_pid) s in GoesOn r.outcome r.trace
  unfolding receive_round
  receive_round-GoesOn s =
      receive_into-GoesOn (k.answer (malloc buf_size) s).1 (k.answer (malloc buf_size) s).0

  continue-GoesOn :
      {A B : Type 0} (o : Outcome A) (t : List Event) (s : S) (f : A → S → Run B S)
      → GoesOn o t
      → ((a : A) → GoesOn (f a s).outcome (f a s).trace)
      → let r = continue o t s f in GoesOn r.outcome r.trace
  continue-GoesOn (returned a) t s f h g = GoesOn-append t (f a s).outcome (f a s).trace h (g a)
  continue-GoesOn running t s f h g = h
  continue-GoesOn (ended e) t s f h g = h

  receive_loop-GoesOn :
      (rounds : ℕ) (s : S)
      → let r = run k (receive_loop rounds client_fd chatlog_fd child_pid) s in
        GoesOn r.outcome r.trace
  unfolding receive_loop
  receive_loop-GoesOn zero s = (refl, refl)
  receive_loop-GoesOn (suc n) s =
      rw (run-bind k (receive_round client_fd chatlog_fd child_pid) _ s) (
        continue-GoesOn _ _ _ _ (receive_round-GoesOn s)
          elim [ again ↦ receive_loop-GoesOn n _ | done ↦ (refl, refl) ])

  abbrev close_part : Prog (Unit {0})
  close_part = kill_child child_pid >> ends (exit_now 0)

  close_part-Settles : (s : S) → let r = run k close_part s in Settles child_pid r.outcome r.trace
  unfolding kill_child
  close_part-Settles s = ground arith

  Settles-append :
      {A : Type 0} (t : List Event) (o : Outcome A) (u : List Event)
      → IsQuiet child_pid t
      → Settles child_pid o u
      → Settles child_pid o (t ++ u)
  Settles-append t (returned a) u h g = g
  Settles-append t running u h g = IsQuiet-append t u h g
  Settles-append t (ended x) u h g = IsSettled-append t u h g

  closing-Settles :
      (o : Outcome (Unit {0})) (t : List Event) (s : S)
      → GoesOn o t
      → let r = continue o t s (λ _. run k close_part) in Settles child_pid r.outcome r.trace
  closing-Settles (returned a) t s h =
      let r = run k close_part s in Settles-append t r.outcome r.trace h (close_part-Settles s)
  closing-Settles running t s h = h
  closing-Settles (ended x) t s h = h

  -- Whatever the kernel replies: the receiver does not return, and while it runs it has sent no
  -- SIGTERM to the sending process. However it ends, be it at the end of the connection or after an
  -- error of read(2), of the chat log or of kill(2), it has called kill(2) with SIGTERM for the
  -- sending process exactly once, but for one case: where malloc fails, it ends without that call.
  pub receive_messages-Settles :
      (rounds : ℕ) (s : S)
      → let r = run k (receive_messages rounds client_fd chatlog_fd child_pid) s in
        Settles child_pid r.outcome r.trace
  unfolding receive_messages
  receive_messages-Settles rounds s =
      rw (run-bind k (receive_loop rounds client_fd chatlog_fd child_pid) _ s)
        (closing-Settles _ _ _ (receive_loop-GoesOn rounds s))
