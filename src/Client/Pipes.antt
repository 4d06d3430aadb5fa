-- ===== src/Client/Pipes.antt =====
-- The ends of the two pipes in the child processes of the client.
use papaya_chat.Base.{ℕ, ◌≡◌, refl, ap, sym, ◌∙◌, subst, [], ◌∷◌, Option, none, some, not, Bytes}
use papaya_chat.Posix.{
  ends, Kernel, run, Forked, fork_failed, in_child, in_parent, Block, pipe, fork, close,
  fcntl_getfl, exit_now,
}
use papaya_chat.Posix.Monitor.{remove}
use papaya_chat.Posix.Only.{Only, if-Only}
use papaya_chat.Messages.{handle_send_socket, handle_read_socket}
use papaya_chat.Signals.{Status, success, one, failure}
use papaya_chat.Client.{
  set_nonblock, receive_pipe, first_child, second_child, send_pipe, start_processes,
}
use papaya_chat.Client.Ends.{
  Pipes, pipe_step, pipes, keeps_pipes, Holds, Holds-bind, Holds-Only, remove_second, remove_head,
  stop_with-Only, send_loop-Only, receive_loop-Only, parent-Holds,
}

-- After the first fork(2) in the parent, and after the second fork(2).
abbrev one_child : ℕ → ℕ → ℕ → Pipes
one_child pid r₁ w₁ = record {
  forks = in_parent pid ∷ [];
  reads = r₁ ∷ [];
  writes = w₁ ∷ [];
  open_ends = w₁ ∷ [];
}

abbrev two_forks : ℕ → Forked → ℕ → ℕ → ℕ → ℕ → Pipes
two_forks pid f r₁ w₁ r₂ w₂ = record {
  forks = in_parent pid ∷ f ∷ [];
  reads = r₁ ∷ r₂ ∷ [];
  writes = w₁ ∷ w₂ ∷ [];
  open_ends = r₂ ∷ w₂ ∷ w₁ ∷ [];
}

abbrev pub no_pipes : Pipes
no_pipes = record { forks = []; reads = []; writes = []; open_ends = [] }

set_nonblock-Only : (fd : ℕ) (flags : Option ℕ) → Only keeps_pipes (set_nonblock fd flags)
unfolding set_nonblock
set_nonblock-Only fd none = stop_with-Only (Unit {0}) _
set_nonblock-Only fd (some flags) =
    (refl, λ set. if-Only keeps_pipes (not set) _ _ (stop_with-Only (Unit {0}) _) tt)

module _ {S : Type 0} (k : Kernel S) (rounds server_fd : ℕ) (block : Block) (username : Bytes) where
  second_child-Holds :
      (pid r₁ w₁ r₂ w₂ : ℕ) (f : Forked) (s : S)
      → Holds (
          pipes
            (two_forks pid f r₁ w₁ r₂ w₂)
            (run k (second_child rounds server_fd w₁ r₂ w₂ block username f) s).trace)
  unfolding second_child
  second_child-Holds pid r₁ w₁ r₂ w₂ fork_failed s =
      Holds-Only k (second_child rounds server_fd w₁ r₂ w₂ block username fork_failed) s
        (two_forks pid fork_failed r₁ w₁ r₂ w₂) (stop_with-Only (Unit {0}) _) tt
  second_child-Holds pid r₁ w₁ r₂ w₂ in_child s =
      let own : remove w₁ (remove r₂ (r₂ ∷ w₂ ∷ w₁ ∷ [])) ≡ w₂ ∷ [] =
        ap (remove w₁) (remove_head r₂ (w₂ ∷ w₁ ∷ [])) ∙ remove_second w₂ w₁ in
      Holds-bind k (handle_read_socket rounds server_fd w₂) (λ _. ends (exit_now 0)) _
        (record (two_forks pid in_child r₁ w₁ r₂ w₂) {
          open_ends = remove w₁ (remove r₂ (r₂ ∷ w₂ ∷ w₁ ∷ []));
        })
        (receive_loop-Only rounds server_fd w₂) own (λ _ _. own)
  second_child-Holds pid r₁ w₁ r₂ w₂ (in_parent pid') s =
      parent-Holds
        (run k (second_child rounds server_fd w₁ r₂ w₂ block username (in_parent pid')) s).trace
        (two_forks pid (in_parent pid') r₁ w₁ r₂ w₂) pid pid' [] refl

  -- After the second pipe.
  receive_pipe-Holds :
      (pid r₁ w₁ : ℕ) (o : Option (ℕ × ℕ)) (s : S)
      → Holds (
          pipes
            (pipe_step pipe o (one_child pid r₁ w₁))
            (run k (receive_pipe rounds server_fd w₁ block username o) s).trace)
  unfolding receive_pipe
  receive_pipe-Holds pid r₁ w₁ none s =
      Holds-Only k (receive_pipe rounds server_fd w₁ block username none) s (one_child pid r₁ w₁)
        (stop_with-Only (Unit {0}) _) tt
  receive_pipe-Holds pid r₁ w₁ (some (r₂, w₂)) s =
      let (flags, s₁) = k.answer (fcntl_getfl r₂) s in
      Holds-bind k (set_nonblock r₂ flags) _ s₁
        (pipe_step pipe (some (r₂, w₂)) (one_child pid r₁ w₁)) (set_nonblock-Only r₂ flags) tt
        (λ _ s₂. let (f, s₃) = k.answer fork s₂ in second_child-Holds pid r₁ w₁ r₂ w₂ f s₃)

  -- After the first fork(2).
  first_child-Holds :
      (r₁ w₁ : ℕ) (f : Forked) (s : S)
      → Holds (
          pipes
            (record { forks = f ∷ []; reads = r₁ ∷ []; writes = w₁ ∷ []; open_ends = r₁ ∷ w₁ ∷ [] })
            (run k (first_child rounds server_fd r₁ w₁ block username f) s).trace)
  unfolding first_child
  first_child-Holds r₁ w₁ fork_failed s =
      Holds-Only k (first_child rounds server_fd r₁ w₁ block username fork_failed) s
        (record {
          forks = fork_failed ∷ [];
          reads = r₁ ∷ [];
          writes = w₁ ∷ [];
          open_ends = r₁ ∷ w₁ ∷ [];
        })
        (stop_with-Only (Unit {0}) _) tt
  first_child-Holds r₁ w₁ in_child s =
      let own = remove_second r₁ w₁ in
      Holds-bind k (handle_send_socket rounds server_fd r₁) (λ _. ends (exit_now 0)) _
        (record {
          forks = in_child ∷ [];
          reads = r₁ ∷ [];
          writes = w₁ ∷ [];
          open_ends = remove w₁ (r₁ ∷ w₁ ∷ []);
        })
        (send_loop-Only rounds server_fd r₁) own (λ _ _. own)
  first_child-Holds r₁ w₁ (in_parent pid) s =
      let s₁ = (k.answer (close r₁) s).1 in
      let (o, s₂) = k.answer pipe s₁ in
      subst
        (λ open_ends. Holds (
          pipes
            (pipe_step pipe o (record {
              forks = in_parent pid ∷ [];
              reads = r₁ ∷ [];
              writes = w₁ ∷ [];
              open_ends = open_ends;
            }))
            (run k (receive_pipe rounds server_fd w₁ block username o) s₂).trace))
        (sym (remove_head r₁ (w₁ ∷ []))) (receive_pipe-Holds pid r₁ w₁ o s₂)

  send_pipe-Holds :
      (o : Option (ℕ × ℕ)) (s : S)
      → Holds (
          pipes
            (pipe_step pipe o no_pipes)
            (run k (send_pipe rounds server_fd block username o) s).trace)
  unfolding send_pipe
  send_pipe-Holds none s =
      Holds-Only k (send_pipe rounds server_fd block username none) s no_pipes
        (stop_with-Only (Unit {0}) _) tt
  send_pipe-Holds (some (r₁, w₁)) s = let (f, s₁) = k.answer fork s in first_child-Holds r₁ w₁ f s₁

  -- Whatever the kernel replies and however long the children run: of the four ends of the pipes the
  -- child that sends has open only the one that it reads, and the child that receives only the one
  -- that it writes to.
  pub start_processes-Holds :
      (status : Status) (s : S)
      → Holds
          (pipes no_pipes (run k (start_processes rounds server_fd block username status) s).trace)
  unfolding start_processes
  start_processes-Holds failure s =
      Holds-Only k (start_processes rounds server_fd block username failure) s no_pipes
        (stop_with-Only (Unit {0}) _) tt
  start_processes-Holds success s = send_pipe-Holds (k.answer pipe s).0 (k.answer pipe s).1
  start_processes-Holds one s = send_pipe-Holds (k.answer pipe s).0 (k.answer pipe s).1
