-- ===== src/ClientRequest/Receive.antt =====
-- The receiving process: what reaches the chat log, and that the sending process is ended with it.
use papaya_chat.Base.{
  ℕ, zero, suc, ◌≡◌, refl, ap₂, List, [], ◌∷◌, ◌++◌, Option, none, some, Bytes, append-nil, sym,
  ◌∙◌, arith,
}
use papaya_chat.Posix.{
  Prog, Kernel, Event, Outcome, returned, ended, running, Run, run, Exit, exit, exit_now, abort,
  undefined, exec, ends, ◌>>◌, read, malloc, sigterm, Block,
}
use papaya_chat.Posix.Monitor.{written, received, signals}
use papaya_chat.Posix.Runs.{run-bind, continue, written-append, received-append, signals-append}
use papaya_chat.Config.{buf_size}
use papaya_chat.ChatLog.{exclusive_write}
use papaya_chat.ChatLog.Locks.{take-length}
use papaya_chat.ClientRequest.{
  again, done, handle_read, receive_into, receive_round, receive_loop, receive_messages, kill_child,
}

-- What a part of a run of the receiver did: the bytes that it put into the chat log, those that it
-- got from the client, and the signals that it sent to the other process.
pub record Effect : Type 0 where
  pub stored : Bytes
  pub got : Bytes
  pub killed : List (Unit {0})

-- All that came is stored, and the other process still runs.
abbrev pub IsStored : Effect → Type 0
IsStored e = (e.stored ≡ e.got) × (e.killed ≡ [])

-- _exit(EXIT_SUCCESS) ends the receiver only at the end of its connection.
abbrev pub IsFailure : Exit → Type 0
IsFailure (exit_now zero) = ⊥
IsFailure _ = Unit

-- How a part that does not close the connection may come out.
abbrev pub Stores : {A : Type 0} → Outcome A → Effect → Type 0
Stores (returned a) e = IsStored e
Stores running e = IsStored e
Stores (ended x) e = IsFailure x

join : Effect → Effect → Effect
join d e = record {
  stored = d.stored ++ e.stored;
  got = d.got ++ e.got;
  killed = d.killed ++ e.killed;
}

IsStored-join : (d e : Effect) → IsStored d → IsStored e → IsStored (join d e)
unfolding join
IsStored-join d e h g = (ap₂ ◌++◌ h.0 g.0, ap₂ ◌++◌ h.1 g.1)

Stores-join :
    {A : Type 0} (o : Outcome A) (d e : Effect) → IsStored d → Stores o e → Stores o (join d e)
Stores-join (returned a) d e h g = IsStored-join d e h g
Stores-join running d e h g = IsStored-join d e h g
Stores-join (ended x) d e h g = g

-- How the whole receiver may come out.
abbrev pub Closes : Outcome (Unit {0}) → Effect → Type 0
Closes (returned a) e = ⊥
Closes running e = IsStored e
Closes (ended (exit_now zero)) e = (e.stored ≡ e.got) × (e.killed ≡ tt ∷ [])
Closes (ended _) e = Unit

failure-Closes : (x : Exit) (e : Effect) → IsFailure x → Closes (ended x) e
failure-Closes (exit_now zero) e h = absurd h
failure-Closes (exit_now (suc n)) e h = tt
failure-Closes (exit n) e h = tt
failure-Closes abort e h = tt
failure-Closes undefined e h = tt
failure-Closes (exec p) e h = tt

-- A part that only kills the other process and ends this one.
abbrev KillsOnly : Outcome (Unit {0}) → Effect → Type 0
KillsOnly (ended (exit_now zero)) e = (e.stored ≡ []) × (e.got ≡ []) × (e.killed ≡ tt ∷ [])
KillsOnly (ended _) e = Unit
KillsOnly _ e = ⊥

KillsOnly-join :
    (o : Outcome (Unit {0})) (d e : Effect) → IsStored d → KillsOnly o e → Closes o (join d e)
unfolding join
KillsOnly-join (returned a) d e h g = g
KillsOnly-join running d e h g = absurd g
KillsOnly-join (ended (exit_now zero)) d e h g = (ap₂ ◌++◌ h.0 (g.0 ∙ sym g.1), ap₂ ◌++◌ h.1 g.2)
KillsOnly-join (ended (exit_now (suc n))) d e h g = tt
KillsOnly-join (ended (exit n)) d e h g = tt
KillsOnly-join (ended abort) d e h g = tt
KillsOnly-join (ended undefined) d e h g = tt
KillsOnly-join (ended (exec p)) d e h g = tt

module _ {S : Type 0} (k : Kernel S) (client_fd chatlog_fd child_pid : ℕ) where
  abbrev pub effect : List Event → Effect
  effect t = record {
    stored = written chatlog_fd t;
    got = received client_fd t;
    killed = signals child_pid sigterm t;
  }

  effect-append : (t u : List Event) → effect (t ++ u) ≡ join (effect t) (effect u)
  unfolding join
  effect-append t u = λ i. record {
    stored = written-append chatlog_fd t u i;
    got = received-append client_fd t u i;
    killed = signals-append child_pid sigterm t u i;
  }

  -- The read event comes before the rest of the round.
  abbrev with_read : Option Bytes → List Event → List Event
  with_read o t = record { asked = read client_fd buf_size; reply = o } ∷ t

  handle_read-Stores :
      (s : S) (buf : ℕ) (o : Option Bytes)
      → let r = run k (handle_read chatlog_fd child_pid buf o) s in
        Stores r.outcome (effect (with_read o r.trace))
  unfolding handle_read exclusive_write
  handle_read-Stores s buf none = ground arith
  handle_read-Stores s buf (some []) = ground arith
  handle_read-Stores s buf (some (b ∷ bytes)) =
      ground (arith, take-length (b ∷ bytes), append-nil (b ∷ bytes))

  receive_into-Stores :
      (s : S) (o : Option Block)
      → let r = run k (receive_into client_fd chatlog_fd child_pid o) s in
        Stores r.outcome (effect r.trace)
  unfolding receive_into
  receive_into-Stores s none = tt
  receive_into-Stores s (some b) = handle_read-Stores _ b.addr _

  receive_round-Stores :
      (s : S)
      → let r = run k (receive_round client_fd chatlog_fd child_pid) s in
        Stores r.outcome (effect r.trace)
  unfolding receive_round
  receive_round-Stores s =
      receive_into-Stores (k.answer (malloc buf_size) s).1 (k.answer (malloc buf_size) s).0

  -- A part that stores, and then more parts that store.
  continue-Stores :
      {A B : Type 0} (o : Outcome A) (t : List Event) (s : S) (f : A → S → Run B S)
      → Stores o (effect t)
      → ((a : A) → Stores (f a s).outcome (effect (f a s).trace))
      → let r = continue o t s f in Stores r.outcome (effect r.trace)
  continue-Stores (returned a) t s f h g =
      rw (effect-append t (f a s).trace)
        (Stores-join (f a s).outcome (effect t) (effect (f a s).trace) h (g a))
  continue-Stores running t s f h g = h
  continue-Stores (ended e) t s f h g = h

  receive_loop-Stores :
      (rounds : ℕ) (s : S)
      → let r = run k (receive_loop rounds client_fd chatlog_fd child_pid) s in
        Stores r.outcome (effect r.trace)
  unfolding receive_loop
  receive_loop-Stores zero s = (refl, refl)
  receive_loop-Stores (suc n) s =
      rw (run-bind k (receive_round client_fd chatlog_fd child_pid) _ s) (
        continue-Stores _ _ _ _ (receive_round-Stores s)
          elim [ again ↦ receive_loop-Stores n _ | done ↦ (refl, refl) ])

  -- The end of the receiver.
  abbrev close_part : Prog (Unit {0})
  close_part = kill_child child_pid >> ends (exit_now 0)

  close_part-KillsOnly :
      (s : S) → let r = run k close_part s in KillsOnly r.outcome (effect r.trace)
  unfolding kill_child
  close_part-KillsOnly s = ground arith

  closing-Closes :
      (o : Outcome (Unit {0})) (t : List Event) (s : S)
      → Stores o (effect t)
      → let r = continue o t s (λ _. run k close_part) in Closes r.outcome (effect r.trace)
  closing-Closes (returned a) t s h =
      rw (effect-append t (run k close_part s).trace)
        (KillsOnly-join (run k close_part s).outcome (effect t) _ h (close_part-KillsOnly s))
  closing-Closes running t s h = h
  closing-Closes (ended x) t s h = failure-Closes x (effect t) h

  -- Whatever the kernel replies: as long as the receiver runs, and when it ends with EXIT_SUCCESS,
  -- the chat log has been appended exactly the bytes that the client sent, in their order. It ends
  -- with EXIT_SUCCESS only after it has sent SIGTERM once to the sending process, and while it runs
  -- it has sent none. It does not return.
  pub receive_messages-Closes :
      (rounds : ℕ) (s : S)
      → let r = run k (receive_messages rounds client_fd chatlog_fd child_pid) s in
        Closes r.outcome (effect r.trace)
  unfolding receive_messages
  receive_messages-Closes rounds s =
      rw (run-bind k (receive_loop rounds client_fd chatlog_fd child_pid) _ s)
        (closing-Closes _ _ _ (receive_loop-Stores rounds s))
