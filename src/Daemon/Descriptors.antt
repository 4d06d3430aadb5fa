-- ===== src/Daemon/Descriptors.antt =====
-- The descriptors of the daemon.
use papaya_chat.Base.{
  String, ℕ, zero, suc, ◌+◌, ◌≤◌, ◌<◌, ◌≡◌, refl, List, [], ◌∷◌, Option, none, some, Bool, true,
  false, ◌&&◌, ◌++◌, leb, ltb, ◌==◌, if◌then◌else◌, arith,
}
use papaya_chat.Posix.{
  Prog, ◌>>=◌, ◌>>◌, Kernel, run, Run, Outcome, returned, ended, running, Event, Call, Reply, close,
  open_file, dup2, Forked, fork_failed, in_child, in_parent, setsid, fork, sysconf_open_max,
}
use papaya_chat.Posix.Runs.{run-bind, continue}
use papaya_chat.Daemon.{
  has_flag, daemon_flag_no_reopen_std_fds, daemon_flag_no_close_files, daemon_creation,
  configure_daemon, set_umask, change_directory, close_files, close_from, max_fd, reopen_std_fds,
  first_fork, second_fork,
}

-- The files that the descriptors of a process refer to, by the calls that it makes.
abbrev pub Table : Type 0
Table = ℕ → Option String

abbrev pub update : Table → ℕ → Option String → Table
update f fd v i = if i == fd then v else f i

abbrev pub table_step : (c : Call) → Reply c → Table → Table
table_step (close fd) r f = update f fd none
table_step (open_file path mode) (some fd) f = update f fd (some path)
table_step (open_file path mode) none f = f
table_step (dup2 from to) (some fd) f = update f to (f from)
table_step (dup2 from to) none f = f
table_step _ r f = f

abbrev pub table : Table → List Event → Table
table f [] = f
table f (e ∷ es) = table (table_step e.asked e.reply f) es

table-append : (f : Table) (t u : List Event) → table f (t ++ u) ≡ table (table f t) u
table-append f [] u = refl
table-append f (e ∷ t) u = table-append (table_step e.asked e.reply f) t u

-- Standard input, output and error are /dev/null, and no other descriptor below `limit` is open.
pub record IsDaemonTable (limit : ℕ) (f : Table) : Type 0 where
  pub input : f 0 ≡ some "/dev/null"
  pub output : f 1 ≡ some "/dev/null"
  pub error : f 2 ≡ some "/dev/null"
  pub others : (fd : ℕ) → 3 ≤ fd → fd < limit → f fd ≡ none

-- What is closed before the standard descriptors are opened.
abbrev Closed : ℕ → Table → Type 0
Closed limit f = (fd : ℕ) → 3 ≤ fd → fd < limit → f fd ≡ none

module _ {S : Type 0} (k : Kernel S) where
  close_from-table :
      (left fd i : ℕ) (f : Table) (s : S)
      → ((run k (close_from left fd) s).outcome ≡ returned tt)
        × (table f (run k (close_from left fd) s).trace i
            ≡ (if leb fd i && ltb i (fd + left) then none else f i))
  unfolding close_from
  close_from-table zero fd i f s = ground arith
  close_from-table (suc left) fd i f s =
      ground (arith, close_from-table left (fd + 1) i (update f fd none) (k.answer (close fd) s).1)

  reopen_std_fds-IsDaemonTable :
      (flags limit : ℕ) (f : Table) (s : S)
      → has_flag flags daemon_flag_no_reopen_std_fds ≡ false
      → Closed limit f
      → (run k (reopen_std_fds flags) s).outcome ≡ returned true
      → IsDaemonTable limit (table f (run k (reopen_std_fds flags) s).trace)
  unfolding reopen_std_fds
  reopen_std_fds-IsDaemonTable flags limit f s e c h = record {
    input = ground arith;
    output = ground arith;
    error = ground arith;
    others = λ fd p q. ground (arith, c fd p q);
  }

  module _ (flags : ℕ) (limit : Option ℕ)
      (open_max : (s : S) → (k.answer sysconf_open_max s).0 ≡ limit)
      (closes : has_flag flags daemon_flag_no_close_files ≡ false)
      (reopens : has_flag flags daemon_flag_no_reopen_std_fds ≡ false) where
    -- A part that ends in a daemon's table.
    abbrev Ends : Run Bool S → Type 0
    Ends r =
        (f : Table) → r.outcome ≡ returned true → IsDaemonTable (max_fd limit) (table f r.trace)

    close_files-Closed :
        (f : Table) (s : S)
        → ((run k (close_files flags) s).outcome ≡ returned tt)
          × Closed (max_fd limit) (table f (run k (close_files flags) s).trace)
    unfolding close_files
    close_files-Closed f s =
        let s' = (k.answer sysconf_open_max s).1 in
        (
          ground (arith, open_max s, close_from-table (max_fd limit) 0 0 f s'),
          λ fd p q. ground (arith, open_max s, close_from-table (max_fd limit) 0 fd f s'),
        )

    continue-Ends :
        {A : Type 0} (o : Outcome A) (t : List Event) (s : S) (g : A → S → Run Bool S)
        → ((a : A) (f : Table)
            → (g a s).outcome ≡ returned true
            → IsDaemonTable (max_fd limit) (table (table f t) (g a s).trace))
        → Ends (continue o t s g)
    continue-Ends (returned a) t s g h f e = rw (table-append f t (g a s).trace) (h a f e)
    continue-Ends (ended x) t s g h f e = cc
    continue-Ends running t s g h f e = cc

    Ends-bind :
        {A : Type 0} (m : Prog A) (n : Prog Bool) (s : S)
        → ((s' : S) → Ends (run k n s'))
        → Ends (run k (m >>= λ _. n) s)
    Ends-bind m n s h = rw (run-bind k m (λ _. n) s) (
        continue-Ends (run k m s).outcome (run k m s).trace (run k m s).final (λ _. run k n)
          (λ a f. h (run k m s).final (table f (run k m s).trace)))

    close_and_reopen-Ends :
        (s : S) → Ends (run k (close_files flags >>= λ _. reopen_std_fds flags) s)
    close_and_reopen-Ends s =
        let r = run k (close_files flags) s in
        rw (run-bind k (close_files flags) (λ _. reopen_std_fds flags) s) (
          continue-Ends r.outcome r.trace r.final (λ _. run k (reopen_std_fds flags))
            (λ a f.
              reopen_std_fds-IsDaemonTable flags (max_fd limit) (table f r.trace) r.final reopens
                (close_files-Closed f s).1))

    configure_daemon-Ends : (s : S) → Ends (run k (configure_daemon flags) s)
    unfolding configure_daemon
    configure_daemon-Ends s =
        Ends-bind (set_umask flags)
          (change_directory flags >> (close_files flags >> reopen_std_fds flags)) s
          λ s₁.
            Ends-bind (change_directory flags) (close_files flags >> reopen_std_fds flags) s₁
              λ s₂. close_and_reopen-Ends s₂

    second_fork-Ends : (forked : Forked) (s : S) → Ends (run k (second_fork flags forked) s)
    unfolding second_fork
    second_fork-Ends fork_failed s f h = cc
    second_fork-Ends in_child s f h = configure_daemon-Ends s f h
    second_fork-Ends (in_parent pid) s f h = cc

    first_fork-Ends : (forked : Forked) (s : S) → Ends (run k (first_fork flags forked) s)
    unfolding first_fork
    first_fork-Ends fork_failed s f h = cc
    first_fork-Ends (in_parent pid) s f h = cc
    first_fork-Ends in_child s f h =
        let (leads, s₁) = k.answer setsid s in
        let (forked, s₂) = k.answer fork s₁ in ground (arith, second_fork-Ends forked s₂ f)

    -- Where `daemonCreation` returns 0, which only the daemon itself sees, sysconf gives the same
    -- limit at any time, and the flags leave out neither the closing of the files nor the reopening
    -- of the standard descriptors: standard input, output and error are /dev/null, and every other
    -- descriptor below the limit (that of sysconf, or 8192) is closed, whatever was open before.
    pub daemon_creation-IsDaemonTable :
        (s : S) (f : Table)
        → (run k (daemon_creation flags) s).outcome ≡ returned true
        → IsDaemonTable (max_fd limit) (table f (run k (daemon_creation flags) s).trace)
    unfolding daemon_creation
    daemon_creation-IsDaemonTable s f h =
        first_fork-Ends (k.answer fork s).0 (k.answer fork s).1 f h
