-- ===== src/Server/Connections.antt =====
-- The descriptors of the accept loop.
use papaya_chat.Base.{
  ℕ, zero, suc, ◌≡◌, ◌≢◌, refl, ◌⊎◌, inl, inr, List, [], ◌∷◌, Option, none, some, arith,
}
use papaya_chat.Posix.{
  Kernel, run, Run, Outcome, returned, ended, running, exit, Event, Forked, fork_failed, in_child,
  in_parent, fork, accept,
}
use papaya_chat.Posix.Monitor.{sockets, socket_step}
use papaya_chat.Posix.Runs.{run-bind, continue, sockets-append}
use papaya_chat.Server.{Serving, after_fork, handle_connection, accept_loop}

-- The loop goes on, or has ended with EXIT_FAILURE, and no connection is open.
abbrev pub HoldsNone : Outcome (Unit {0}) → List ℕ → Type 0
HoldsNone (returned r) open_fds = ⊥
HoldsNone running open_fds = open_fds ≡ []
HoldsNone (ended (exit (suc zero))) open_fds = open_fds ≡ []
HoldsNone (ended _) open_fds = ⊥

module _ {S : Type 0} (k : Kernel S) (parent : (s : S) → (k.answer fork s).0 ≢ in_child) where
  -- A round, after the event `e`, and what follows it.
  continue-HoldsNone :
      (e : Event) (o : Outcome (Unit {0})) (t : List Event) (s : S)
      (f : Unit {0} → S → Run (Unit {0}) S)
      → sockets [] (e ∷ t) ≡ []
      → (o ≡ returned tt) ⊎ (o ≡ ended (exit 1))
      → HoldsNone (f tt s).outcome (sockets [] (f tt s).trace)
      → HoldsNone (continue o t s f).outcome (sockets [] (e ∷ (continue o t s f).trace))
  continue-HoldsNone e (returned r) t s f h c g =
      rw (sockets-append [] (e ∷ t) (f tt s).trace) (rw h g)
  continue-HoldsNone e running t s f h c g = absurd (elim c [ inl p ↦ cc | inr p ↦ cc ])
  continue-HoldsNone e (ended (exit (suc zero))) t s f h c g = h
  continue-HoldsNone e (ended x) t s f h c g = absurd (elim c [ inl p ↦ cc | inr p ↦ cc ])

  -- After fork(2) in the parent: the connection is closed.
  after_fork-sockets :
      (rounds : ℕ) (v : Serving) (client_fd : ℕ) (forked : Forked) (s : S)
      → forked ≢ in_child
      → let r = run k (after_fork rounds v client_fd forked) s in
        (r.outcome ≡ returned tt) × (sockets (client_fd ∷ []) r.trace ≡ [])
  unfolding after_fork
  after_fork-sockets rounds v client_fd fork_failed s h = ground arith
  after_fork-sockets rounds v client_fd in_child s h = absurd (h refl)
  after_fork-sockets rounds v client_fd (in_parent pid) s h = ground arith

  handle_connection-sockets :
      (rounds : ℕ) (v : Serving) (o : Option ℕ) (s : S)
      → let r = run k (handle_connection rounds v o) s in
        ((r.outcome ≡ returned tt) ⊎ (r.outcome ≡ ended (exit 1)))
        × (sockets (socket_step (accept v.listen_fd) o []) r.trace ≡ [])
  unfolding handle_connection
  handle_connection-sockets rounds v none s = (inr refl, refl)
  handle_connection-sockets rounds v (some fd) s =
      let done =
        after_fork-sockets rounds v fd (k.answer fork s).0 (k.answer fork s).1 (parent s) in
      (inl done.0, done.1)

  -- In the process where fork(2) never gives 0: however many connections the accept loop has taken,
  -- each of their descriptors is closed again, whether fork succeeded or failed. The loop does not
  -- return, and it ends only with EXIT_FAILURE.
  pub accept_loop-HoldsNone :
      (rounds : ℕ) (v : Serving) (s : S)
      → let r = run k (accept_loop rounds v) s in HoldsNone r.outcome (sockets [] r.trace)
  unfolding accept_loop
  accept_loop-HoldsNone zero v s = refl
  accept_loop-HoldsNone (suc n) v s =
      let (client_fd, s₁) = k.answer (accept v.listen_fd) s in
      let r = run k (handle_connection n v client_fd) s₁ in
      let round = handle_connection-sockets n v client_fd s₁ in
      let e : Event = record { asked = accept v.listen_fd; reply = client_fd } in
      rw (run-bind k (handle_connection n v client_fd) (λ _. accept_loop n v) s₁) (
        continue-HoldsNone e r.outcome r.trace r.final (λ _. run k (accept_loop n v)) round.1
          round.0 (accept_loop-HoldsNone n v r.final))
