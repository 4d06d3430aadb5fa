-- ===== src/ClientRequest/Ends.antt =====
-- The receiving process ends when its client has gone.
use papaya_chat.Base.{
  ℕ, zero, suc, ◌<◌, ◌≡◌, refl, ◌∙◌, ◌⊎◌, inl, inr, List, [], ◌∷◌, some, Bool, true, false, Bytes,
  arith, length,
}
use papaya_chat.Config.{buf_size}
use papaya_chat.Posix.{
  Kernel, Call, Block, run, returned, ended, exit_now, malloc, read, write, flock, kill, free,
  syslog, lock_ex, lock_un, sigusr1, sigterm, LockOp, Signal, log_debug,
}
use papaya_chat.Posix.Runs.{run-bind}
use papaya_chat.ChatLog.{exclusive_write}
use papaya_chat.ClientRequest.{
  again, done, handle_read, receive_into, receive_round, receive_loop, receive_messages, kill_child,
}

abbrev pub is_read : Call → Bool
is_read (read fd n) = true
is_read _ = false

-- A kernel on which nothing fails, and whose client sends what is in the queue and then goes.
pub record ServesQueue {S : Type 0} (k : Kernel S) (client_fd chatlog_fd : ℕ)
    (queue : S → List Bytes) : Type 0 where
  pub next :
      (s : S) (b : Bytes) (rest : List Bytes)
      → queue s ≡ b ∷ rest
      → ((k.answer (read client_fd buf_size) s).0 ≡ some b)
        × (queue (k.answer (read client_fd buf_size) s).1 ≡ rest)
  pub eof : (s : S) → queue s ≡ [] → (k.answer (read client_fd buf_size) s).0 ≡ some []
  pub allocates : (s : S) (n : ℕ) → (b : Block) × ((k.answer (malloc n) s).0 ≡ some b)
  pub writes : (s : S) (bs : Bytes) → (k.answer (write chatlog_fd bs) s).0 ≡ some (length bs)
  pub locks : (s : S) (op : LockOp) → (k.answer (flock chatlog_fd op) s).0 ≡ true
  pub kills : (s : S) (pid : ℕ) (sig : Signal) → (k.answer (kill pid sig) s).0 ≡ true
  pub keeps : (s : S) (c : Call) → is_read c ≡ false → queue (k.answer c s).1 ≡ queue s

List-cases : (l : List Bytes) → (l ≡ []) ⊎ ((b : Bytes) × (rest : List Bytes) × (l ≡ b ∷ rest))
List-cases [] = inl refl
List-cases (b ∷ rest) = inr (b, rest, refl)

shorter :
    {l : List Bytes} {b : Bytes} {rest : List Bytes} {n : ℕ}
    → l ≡ b ∷ rest
    → length l < suc n
    → length rest < n
shorter e h = ground arith

module _ {S : Type 0} (k : Kernel S) (client_fd chatlog_fd child_pid : ℕ) (queue : S → List Bytes)
    (serves : ServesQueue k client_fd chatlog_fd queue) where
  -- A message is stored, and the round comes again.
  handle_read-again :
      (s : S) (buf b : ℕ) (bytes : Bytes)
      → let r = run k (handle_read chatlog_fd child_pid buf (some (b ∷ bytes))) s in
        (r.outcome ≡ returned again) × (queue r.final ≡ queue s)
  unfolding handle_read exclusive_write
  handle_read-again s buf b bytes =
      let s₁ = (k.answer (syslog log_debug "%ld Bytes received from client.") s).1 in
      let s₂ = (k.answer (flock chatlog_fd lock_ex) s₁).1 in
      let s₃ = (k.answer (write chatlog_fd (b ∷ bytes)) s₂).1 in
      let s₄ = (k.answer (kill 0 sigusr1) s₃).1 in
      let s₅ = (k.answer (flock chatlog_fd lock_un) s₄).1 in
      ground (
        arith,
        serves.locks s₁ lock_ex,
        serves.writes s₂ (b ∷ bytes),
        serves.kills s₃ 0 sigusr1,
        serves.locks s₄ lock_un,
        serves.keeps s (syslog log_debug "%ld Bytes received from client.") refl,
        serves.keeps s₁ (flock chatlog_fd lock_ex) refl,
        serves.keeps s₂ (write chatlog_fd (b ∷ bytes)) refl,
        serves.keeps s₃ (kill 0 sigusr1) refl,
        serves.keeps s₄ (flock chatlog_fd lock_un) refl,
        serves.keeps s₅ (free buf) refl,
      )

  handle_read-done :
      (s : S) (buf : ℕ)
      → (run k (handle_read chatlog_fd child_pid buf (some [])) s).outcome ≡ returned done
  unfolding handle_read
  handle_read-done s buf = refl

  handle_read_next :
      (s : S) (buf : ℕ) (bytes : Bytes)
      → let r = run k (handle_read chatlog_fd child_pid buf (some bytes)) s in
        (r.outcome ≡ returned done) ⊎ ((r.outcome ≡ returned again) × (queue r.final ≡ queue s))
  handle_read_next s buf [] = inl (handle_read-done s buf)
  handle_read_next s buf (b ∷ bytes) = inr (handle_read-again s buf b bytes)

  -- A round, by what is in the queue.
  receive_round-done :
      (s : S)
      → queue s ≡ []
      → (run k (receive_round client_fd chatlog_fd child_pid) s).outcome ≡ returned done
  unfolding receive_round receive_into
  receive_round-done s e =
      let s₁ = (k.answer (malloc buf_size) s).1 in
      let (b, given) = serves.allocates s buf_size in
      rw (given, serves.eof s₁ (serves.keeps s (malloc buf_size) refl ∙ e))
        (handle_read-done (k.answer (read client_fd buf_size) s₁).1 b.addr)

  receive_round_next :
      (s : S) (bytes : Bytes) (rest : List Bytes)
      → queue s ≡ bytes ∷ rest
      → let r = run k (receive_round client_fd chatlog_fd child_pid) s in
        (r.outcome ≡ returned done) ⊎ ((r.outcome ≡ returned again) × (queue r.final ≡ rest))
  unfolding receive_round receive_into
  receive_round_next s bytes rest e =
      let s₁ = (k.answer (malloc buf_size) s).1 in
      let (b, given) = serves.allocates s buf_size in
      let came = serves.next s₁ bytes rest (serves.keeps s (malloc buf_size) refl ∙ e) in
      rw (given, came.0, ← came.1)
        (handle_read_next (k.answer (read client_fd buf_size) s₁).1 b.addr bytes)

  receive_loop_returns :
      (rounds : ℕ) (s : S)
      → length (queue s) < rounds
      → (run k (receive_loop rounds client_fd chatlog_fd child_pid) s).outcome ≡ returned tt
  unfolding receive_loop
  receive_loop_returns zero s lt = elim lt [ ]
  receive_loop_returns (suc n) s lt =
      rw (run-bind k (receive_round client_fd chatlog_fd child_pid) _ s)
        (elim (List-cases (queue s)) [
          | inl e ↦ rw (receive_round-done s e) refl
          | inr (b, rest, e) ↦ elim (receive_round_next s b rest e) [
            | inl last ↦ rw last refl
            | inr (more, left) ↦
                rw more (receive_loop_returns n _ (rw left (omega (arith, shorter e lt))))
          ]
        ])

  -- On a kernel where no call fails, and for a client that sends what is in the queue and then
  -- closes the connection: the receiver ends with EXIT_SUCCESS, within one round more than the queue
  -- is long.
  pub receive_messages_ends :
      (rounds : ℕ) (s : S)
      → length (queue s) < rounds
      → (run k (receive_messages rounds client_fd chatlog_fd child_pid) s).outcome
        ≡ ended (exit_now 0)
  unfolding receive_messages kill_child
  receive_messages_ends rounds s lt =
      let r = run k (receive_loop rounds client_fd chatlog_fd child_pid) s in
      rw (run-bind k (receive_loop rounds client_fd chatlog_fd child_pid) _ s) (
        rw (receive_loop_returns rounds s lt)
          (ground (arith, serves.kills r.final child_pid sigterm)))
