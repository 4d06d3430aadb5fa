-- ===== src/Messages/Relay.antt =====
-- The relays pass on every byte, in order.
use papaya_chat.Base.{
  ℕ, zero, suc, ◌≡◌, ◌≢◌, refl, ap, ap₂, sym, ◌∙◌, List, [], ◌∷◌, ◌++◌, Option, none, some, Bytes,
  append-nil, arith, String, inl, inr, Bool-cases,
}
use papaya_chat.Config.{buf_size}
use papaya_chat.Posix.{
  Kernel, run, Run, Outcome, returned, ended, running, Event, Block, malloc, free, write, read,
}
use papaya_chat.Posix.Monitor.{written, received, heap}
use papaya_chat.Posix.Runs.{run-bind, continue, written-append, received-append, heap-append}
use papaya_chat.ChatLog.Locks.{take-length}
use papaya_chat.Errors.{stop_with}
use papaya_chat.Errors.Ends.{IsError, Stops, stop_with-Stops}
use papaya_chat.ChatLog.{wrote}
use papaya_chat.Messages.{
  send_into, send_read, send_round, handle_send_socket, receive_into, receive_read, receive_round,
  handle_read_socket,
}

-- As long as it goes on, what was read on `from` was written on `to`, and no block is held; it
-- ends only with an error.
abbrev pub Relays : ℕ → ℕ → Outcome (Unit {0}) → List Event → Type 0
Relays from to (ended x) t = IsError x
Relays from to (returned r) t = (written to t ≡ received from t) × (heap [] t ≡ [])
Relays from to running t = (written to t ≡ received from t) × (heap [] t ≡ [])

stop-Relays : (from to : ℕ) (o : Outcome (Unit {0})) (t : List Event) → Stops o → Relays from to o t
stop-Relays from to (ended x) t h = h
stop-Relays from to (returned r) t h = elim h [ ]
stop-Relays from to running t h = elim h [ ]

-- A round that goes on, and what follows it.
continue-Relays :
    {S : Type 0} (from to : ℕ) (o : Outcome (Unit {0})) (t : List Event) (s : S)
    (f : Unit {0} → S → Run (Unit {0}) S)
    → Relays from to o t
    → Relays from to (f tt s).outcome (f tt s).trace
    → Relays from to (continue o t s f).outcome (continue o t s f).trace
continue-Relays from to (ended x) t s f h g = h
continue-Relays from to running t s f h g = h
continue-Relays from to (returned r) t s f h g = go (f tt s).outcome (f tt s).trace g
  where
    go : (o : Outcome (Unit {0})) (u : List Event) → Relays from to o u → Relays from to o (t ++ u)
    go (ended x) u e = e
    go running u e = (
      written-append to t u ∙ ap₂ ◌++◌ h.0 e.0 ∙ sym (received-append from t u),
      heap-append [] t u ∙ ap (λ held. heap held u) h.1 ∙ e.1,
    )
    go (returned q) u e = (
      written-append to t u ∙ ap₂ ◌++◌ h.0 e.0 ∙ sym (received-append from t u),
      heap-append [] t u ∙ ap (λ held. heap held u) h.1 ∙ e.1,
    )

continue-ne-returned :
    {S : Type 0} (o : Outcome (Unit {0})) (t : List Event) (s : S)
    (f : Unit {0} → S → Run (Unit {0}) S)
    → (f tt s).outcome ≢ returned tt
    → (continue o t s f).outcome ≢ returned tt
continue-ne-returned (ended x) t s f h e = cc
continue-ne-returned running t s f h e = cc
continue-ne-returned (returned r) t s f h e = h e

module _ {S : Type 0} (k : Kernel S) (server_fd pipe_fd : ℕ) where
  abbrev stopped :
      (s : S) (message : String) → Stops (run k (stop_with {A = Unit {0}} message) s).outcome
  stopped s message = stop_with-Stops (Unit {0}) k s message

  -- The events of a round before the data is passed on.
  abbrev with_read : ℕ → Block → Option Bytes → List Event → List Event
  with_read fd b o t =
      record { asked = malloc buf_size; reply = some b }
      ∷ record { asked = read fd buf_size; reply = o }
      ∷ t

  send_read-Relays :
      (s : S) (b : Block) (o : Option Bytes)
      → let r = run k (send_read server_fd b.addr o) s in
        Relays pipe_fd server_fd r.outcome (with_read pipe_fd b o r.trace)
  unfolding send_read
  send_read-Relays s b none =
      stop-Relays pipe_fd server_fd _ _
        (stopped (k.answer (free b.addr) s).1 "read - handleSendSocket()")
  send_read-Relays s b (some []) =
      stop-Relays pipe_fd server_fd _ _
        (stopped (k.answer (free b.addr) s).1 "pipe closed - handleSendSocket()")
  send_read-Relays s b (some (c ∷ bytes)) =
      let (sent, s₁) = k.answer (write server_fd (c ∷ bytes)) s in
      elim (Bool-cases (wrote (c ∷ bytes) sent)) [
        | inl e ↦ ground (arith, take-length (c ∷ bytes), append-nil (c ∷ bytes))
        | inr e ↦ rw e (
            stop-Relays pipe_fd server_fd _ _
              (stopped (k.answer (free b.addr) s₁).1 "write handleSendSocket()"))
      ]

  send_into-Relays :
      (s : S) (o : Option Block)
      → let r = run k (send_into server_fd pipe_fd o) s in
        Relays pipe_fd server_fd r.outcome (record { asked = malloc buf_size; reply = o } ∷ r.trace)
  unfolding send_into
  send_into-Relays s none =
      stop-Relays pipe_fd server_fd _ _ (stopped s "malloc failed. @handleSendSocket()")
  send_into-Relays s (some b) =
      send_read-Relays (k.answer (read pipe_fd buf_size) s).1 b
        (k.answer (read pipe_fd buf_size) s).0

  send_round-Relays :
      (s : S)
      → let r = run k (send_round server_fd pipe_fd) s in Relays pipe_fd server_fd r.outcome r.trace
  unfolding send_round
  send_round-Relays s =
      send_into-Relays (k.answer (malloc buf_size) s).1 (k.answer (malloc buf_size) s).0

  -- Whatever the kernel replies: as long as the child that sends runs, it has written to the socket
  -- exactly the bytes that it read from the pipe, in their order, and holds no buffer between two
  -- rounds. It ends only with an error, and it does not return.
  pub handle_send_socket-Relays :
      (rounds : ℕ) (s : S)
      → let r = run k (handle_send_socket rounds server_fd pipe_fd) s in
        Relays pipe_fd server_fd r.outcome r.trace × (r.outcome ≢ returned tt)
  unfolding handle_send_socket
  handle_send_socket-Relays zero s = ((refl, refl), λ e. cc)
  handle_send_socket-Relays (suc n) s =
      let r = run k (send_round server_fd pipe_fd) s in
      let rest = handle_send_socket-Relays n r.final in
      rw (run-bind k (send_round server_fd pipe_fd) (λ _. handle_send_socket n server_fd pipe_fd) s)
        (
          continue-Relays pipe_fd server_fd r.outcome r.trace r.final _ (send_round-Relays s)
              rest.0,
          continue-ne-returned r.outcome r.trace r.final _ rest.1,
        )

  receive_read-Relays :
      (s : S) (b : Block) (o : Option Bytes)
      → let r = run k (receive_read pipe_fd b.addr o) s in
        Relays server_fd pipe_fd r.outcome (with_read server_fd b o r.trace)
  unfolding receive_read
  receive_read-Relays s b none =
      stop-Relays server_fd pipe_fd _ _
        (stopped (k.answer (free b.addr) s).1 "read from server @handleReadSocket()")
  receive_read-Relays s b (some []) = stop-Relays server_fd pipe_fd _ _ (
      stopped (k.answer (free b.addr) s).1
        "connection to server lost! read() from socket return 0 == EOF :@handleReadSocket()")
  receive_read-Relays s b (some (c ∷ bytes)) =
      let (sent, s₁) = k.answer (write pipe_fd (c ∷ bytes)) s in
      elim (Bool-cases (wrote (c ∷ bytes) sent)) [
        | inl e ↦ ground (arith, take-length (c ∷ bytes), append-nil (c ∷ bytes))
        | inr e ↦
            rw e
              (stop-Relays server_fd pipe_fd _ _ (stopped s₁ "write to pipe @handleReadSocket()"))
      ]

  receive_into-Relays :
      (s : S) (o : Option Block)
      → let r = run k (receive_into server_fd pipe_fd o) s in
        Relays server_fd pipe_fd r.outcome (record { asked = malloc buf_size; reply = o } ∷ r.trace)
  unfolding receive_into
  receive_into-Relays s none =
      stop-Relays server_fd pipe_fd _ _ (stopped s "malloc() failed. @handleReadSocket()")
  receive_into-Relays s (some b) =
      receive_read-Relays (k.answer (read server_fd buf_size) s).1 b
        (k.answer (read server_fd buf_size) s).0

  receive_round-Relays :
      (s : S)
      → let r = run k (receive_round server_fd pipe_fd) s in
        Relays server_fd pipe_fd r.outcome r.trace
  unfolding receive_round
  receive_round-Relays s =
      receive_into-Relays (k.answer (malloc buf_size) s).1 (k.answer (malloc buf_size) s).0

  -- Whatever the kernel replies: as long as the child that receives runs, it has written to the
  -- pipe exactly the bytes that it read from the socket, in their order, and holds no buffer
  -- between two rounds. It ends only with an error, and it does not return.
  pub handle_read_socket-Relays :
      (rounds : ℕ) (s : S)
      → let r = run k (handle_read_socket rounds server_fd pipe_fd) s in
        Relays server_fd pipe_fd r.outcome r.trace × (r.outcome ≢ returned tt)
  unfolding handle_read_socket
  handle_read_socket-Relays zero s = ((refl, refl), λ e. cc)
  handle_read_socket-Relays (suc n) s =
      let r = run k (receive_round server_fd pipe_fd) s in
      let rest = handle_read_socket-Relays n r.final in
      rw
        (run-bind k (receive_round server_fd pipe_fd) (λ _. handle_read_socket n server_fd pipe_fd)
          s)
        (
          continue-Relays server_fd pipe_fd r.outcome r.trace r.final _ (receive_round-Relays s)
              rest.0,
          continue-ne-returned r.outcome r.trace r.final _ rest.1,
        )
