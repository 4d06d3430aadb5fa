-- ===== src/ClientRequest/Pieces.antt =====
-- The receiving process, one call of write(2) to the chat log for each call of read(2).
use papaya_chat.Base.{
  ℕ, zero, suc, ◌≡◌, refl, ap, ap₂, List, [], ◌∷◌, ◌++◌, Option, none, some, Bytes, append_assoc,
  sym, ◌∙◌, arith,
}
use papaya_chat.Posix.{
  Call, Reply, Prog, Kernel, Event, Outcome, returned, ended, running, Run, run, Exit, exit,
  exit_now, abort, undefined, exec, ends, ◌>>◌, read, malloc, Block,
}
use papaya_chat.Posix.Monitor.{taken, given}
use papaya_chat.Posix.Runs.{run-bind, continue}
use papaya_chat.Config.{buf_size}
use papaya_chat.ChatLog.{exclusive_write}
use papaya_chat.ChatLog.Locks.{take-length}
use papaya_chat.ClientRequest.{
  again, done, handle_read, receive_into, receive_round, receive_loop, receive_messages, kill_child,
}
use papaya_chat.ClientRequest.Receive.{IsFailure}

-- The bytes that one call moved, if it moved any.
abbrev pub piece : Bytes → List Bytes
piece [] = []
piece (b ∷ bytes) = (b ∷ bytes) ∷ []

-- The bytes that the calls moved, call by call.
abbrev pub pieces : ((c : Call) → Reply c → Bytes) → List Event → List Bytes
pieces moved [] = []
pieces moved (e ∷ es) = piece (moved e.asked e.reply) ++ pieces moved es

pieces-append :
    (moved : (c : Call) → Reply c → Bytes) (t u : List Event)
    → pieces moved (t ++ u) ≡ pieces moved t ++ pieces moved u
pieces-append moved [] u = refl
pieces-append moved (e ∷ es) u =
    ap (λ l. piece (moved e.asked e.reply) ++ l) (pieces-append moved es u)
    ∙ sym (append_assoc (piece (moved e.asked e.reply)) (pieces moved es) (pieces moved u))

-- What was written to the chat log is what was read from the client, piece for piece.
abbrev pub IsCopied : ℕ → ℕ → List Event → Type 0
IsCopied client_fd chatlog_fd t = pieces (taken chatlog_fd) t ≡ pieces (given client_fd) t

-- `IsCopied`, but for an end with a failure.
abbrev pub Copies : {A : Type 0} → ℕ → ℕ → Outcome A → List Event → Type 0
Copies client_fd chatlog_fd (returned a) t = IsCopied client_fd chatlog_fd t
Copies client_fd chatlog_fd running t = IsCopied client_fd chatlog_fd t
Copies client_fd chatlog_fd (ended (exit_now zero)) t = IsCopied client_fd chatlog_fd t
Copies client_fd chatlog_fd (ended _) t = Unit

module _ {S : Type 0} (k : Kernel S) (client_fd chatlog_fd child_pid : ℕ) where
  -- How a part that does not close the connection may come out.
  abbrev GoesOn : {A : Type 0} → Outcome A → List Event → Type 0
  GoesOn (returned a) t = IsCopied client_fd chatlog_fd t
  GoesOn running t = IsCopied client_fd chatlog_fd t
  GoesOn (ended x) t = IsFailure x

  IsCopied-append :
      (t u : List Event)
      → IsCopied client_fd chatlog_fd t
      → IsCopied client_fd chatlog_fd u
      → IsCopied client_fd chatlog_fd (t ++ u)
  IsCopied-append t u h g =
      pieces-append (taken chatlog_fd) t u
      ∙ ap₂ ◌++◌ h g
      ∙ sym (pieces-append (given client_fd) t u)

  handle_read-GoesOn :
      (s : S) (buf : ℕ) (o : Option Bytes)
      → let r = run k (handle_read chatlog_fd child_pid buf o) s in
        GoesOn r.outcome (record { asked = read client_fd buf_size; reply = o } ∷ r.trace)
  unfolding handle_read exclusive_write
  handle_read-GoesOn s buf none = ground arith
  handle_read-GoesOn s buf (some []) = ground arith
  handle_read-GoesOn s buf (some (b ∷ bytes)) = ground (arith, take-length (b ∷ bytes))

  receive_into-GoesOn :
      (s : S) (o : Option Block)
      → let r = run k (receive_into client_fd chatlog_fd child_pid o) s in GoesOn r.outcome r.trace
  unfolding receive_into
  receive_into-GoesOn s none = tt
  receive_into-GoesOn s (some b) = handle_read-GoesOn _ b.addr _

  GoesOn-append :
      {A : Type 0} (t : List Event) (o : Outcome A) (u : List Event)
      → IsCopied client_fd chatlog_fd t
      → GoesOn o u
      → GoesOn o (t ++ u)
  GoesOn-append t (returned a) u h g = IsCopied-append t u h g
  GoesOn-append t running u h g = IsCopied-append t u h g
  GoesOn-append t (ended x) u h g = g

  receive_round-GoesOn :
      (s : S)
      → let r = run k (receive_round client_fd chatlog_fd child_pid) s in GoesOn r.outcome r.trace
  unfolding receive_round
  receive_round-GoesOn s =
      let (o, s') = k.answer (malloc buf_size) s in
      let r = run k (receive_into client_fd chatlog_fd child_pid o) s' in
      GoesOn-append (record { asked = malloc buf_size; reply = o } ∷ []) r.outcome r.trace refl
        (receive_into-GoesOn s' o)

  continue-GoesOn :
      {A B : Type 0} (o : Outcome A) (t : List Event) (s : S) (f : A → S → Run B S)
      → GoesOn o t
      → ((a : A) → GoesOn (f a s).outcome (f a s).trace)
      → let r = continue o t s f in GoesOn r.outcome r.trace
  continue-GoesOn (returned a) t s f h g = GoesOn-append t (f a s).outcome (f a s).trace h (g a)
  continue-GoesOn running t s f h g = h
  continue-GoesOn (ended e) t s f h g = h

  receive_loop-GoesOn :
      (rounds : ℕ) (s : S)
      → let r = run k (receive_loop rounds client_fd chatlog_fd child_pid) s in
        GoesOn r.outcome r.trace
  unfolding receive_loop
  receive_loop-GoesOn zero s = refl
  receive_loop-GoesOn (suc n) s =
      rw (run-bind k (receive_round client_fd chatlog_fd child_pid) _ s) (
        continue-GoesOn _ _ _ _ (receive_round-GoesOn s)
          elim [ again ↦ receive_loop-GoesOn n _ | done ↦ refl ])

  abbrev close_part : Prog (Unit {0})
  close_part = kill_child child_pid >> ends (exit_now 0)

  -- The end of the receiver moves no bytes.
  close_part_moves_nothing :
      (s : S) → let r = run k close_part s in IsCopied client_fd chatlog_fd r.trace
  unfolding kill_child
  close_part_moves_nothing s = ground arith

  IsCopied-Copies :
      {A : Type 0} (o : Outcome A) (t : List Event)
      → IsCopied client_fd chatlog_fd t
      → Copies client_fd chatlog_fd o t
  IsCopied-Copies (returned a) t h = h
  IsCopied-Copies running t h = h
  IsCopied-Copies (ended (exit_now zero)) t h = h
  IsCopied-Copies (ended (exit_now (suc n))) t h = tt
  IsCopied-Copies (ended (exit n)) t h = tt
  IsCopied-Copies (ended abort) t h = tt
  IsCopied-Copies (ended undefined) t h = tt
  IsCopied-Copies (ended (exec p)) t h = tt

  IsFailure-Copies :
      (x : Exit) (t : List Event)
      → IsFailure x
      → Copies {A = Unit {0}} client_fd chatlog_fd (ended x) t
  IsFailure-Copies (exit_now zero) t h = absurd h
  IsFailure-Copies (exit_now (suc n)) t h = tt
  IsFailure-Copies (exit n) t h = tt
  IsFailure-Copies abort t h = tt
  IsFailure-Copies undefined t h = tt
  IsFailure-Copies (exec p) t h = tt

  closing-Copies :
      (o : Outcome (Unit {0})) (t : List Event) (s : S)
      → GoesOn o t
      → let r = continue o t s (λ _. run k close_part) in
        Copies client_fd chatlog_fd r.outcome r.trace
  closing-Copies (returned a) t s h =
      IsCopied-Copies (run k close_part s).outcome (t ++ (run k close_part s).trace)
        (IsCopied-append t (run k close_part s).trace h (close_part_moves_nothing s))
  closing-Copies running t s h = h
  closing-Copies (ended x) t s h = IsFailure-Copies x t h

  -- Whatever the kernel replies: while the receiver runs, and when it ends with EXIT_SUCCESS, it has
  -- made one write to the chat log for each read that gave bytes, with the same bytes.
  pub receive_messages-Copies :
      (rounds : ℕ) (s : S)
      → let r = run k (receive_messages rounds client_fd chatlog_fd child_pid) s in
        Copies client_fd chatlog_fd r.outcome r.trace
  unfolding receive_messages
  receive_messages-Copies rounds s =
      rw (run-bind k (receive_loop rounds client_fd chatlog_fd child_pid) _ s)
        (closing-Copies _ _ _ (receive_loop-GoesOn rounds s))
