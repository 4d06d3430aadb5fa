-- ===== src/Daemon/Accepts.antt =====
-- A process accepts no connection while it becomes a daemon.
use papaya_chat.Base.{ℕ, zero, suc, ◌+◌, refl, true, false, not}
use papaya_chat.Posix.{return, Forked, fork_failed, in_child, in_parent}
use papaya_chat.Posix.Ready.{AcceptsNone, may}
use papaya_chat.Posix.Only.{Only-bind, if-Only}
use papaya_chat.Daemon.{
  close_from, close_files, max_fd, reopen_std_fds, is_fd, set_umask, change_directory,
  configure_daemon, second_fork, first_fork, daemon_creation, has_flag, daemon_flag_no_close_files,
  daemon_flag_no_reopen_std_fds, daemon_flag_no_umask0, daemon_flag_no_chdir,
}

close_from-AcceptsNone : (left fd : ℕ) → AcceptsNone (close_from left fd)
unfolding close_from
close_from-AcceptsNone zero fd = tt
close_from-AcceptsNone (suc left) fd = (refl, λ r. close_from-AcceptsNone left (fd + 1))

close_files-AcceptsNone : (flags : ℕ) → AcceptsNone (close_files flags)
unfolding close_files
close_files-AcceptsNone flags =
    if-Only (may false false) (has_flag flags daemon_flag_no_close_files) _ _ tt
      (refl, λ limit. close_from-AcceptsNone (max_fd limit) 0)

reopen_std_fds-AcceptsNone : (flags : ℕ) → AcceptsNone (reopen_std_fds flags)
unfolding reopen_std_fds
reopen_std_fds-AcceptsNone flags =
    if-Only (may false false) (has_flag flags daemon_flag_no_reopen_std_fds) _ _ tt (
      refl,
      λ _. (
        refl,
        λ fd. if-Only (may false false) (not (is_fd 0 fd)) _ _ tt (
          refl,
          λ out. if-Only (may false false) (not (is_fd 1 out)) _ _ tt (
            refl,
            λ error.
                if-Only (may false false) (not (is_fd 2 error)) (return false) (return true) tt tt,
          ),
        ),
      ),
    )

configure_daemon-AcceptsNone : (flags : ℕ) → AcceptsNone (configure_daemon flags)
unfolding configure_daemon set_umask change_directory
configure_daemon-AcceptsNone flags =
    Only-bind (may false false) (set_umask flags) _
      (if-Only (may false false) (has_flag flags daemon_flag_no_umask0) _ _ tt (refl, λ _. tt))
      (λ _.
        Only-bind (may false false) (change_directory flags) _
          (if-Only (may false false) (has_flag flags daemon_flag_no_chdir) _ _ tt (refl, λ _. tt))
          (λ _.
            Only-bind (may false false) (close_files flags) _ (close_files-AcceptsNone flags)
              (λ _. reopen_std_fds-AcceptsNone flags)))

second_fork-AcceptsNone : (flags : ℕ) (f : Forked) → AcceptsNone (second_fork flags f)
unfolding second_fork
second_fork-AcceptsNone flags fork_failed = tt
second_fork-AcceptsNone flags in_child = configure_daemon-AcceptsNone flags
second_fork-AcceptsNone flags (in_parent pid) = tt

first_fork-AcceptsNone : (flags : ℕ) (f : Forked) → AcceptsNone (first_fork flags f)
unfolding first_fork
first_fork-AcceptsNone flags fork_failed = tt
first_fork-AcceptsNone flags in_child = (
  refl,
  λ leads.
      if-Only (may false false) (not leads) _ _ tt (refl, λ f. second_fork-AcceptsNone flags f),
)
first_fork-AcceptsNone flags (in_parent pid) = tt

pub daemon_creation-AcceptsNone : (flags : ℕ) → AcceptsNone (daemon_creation flags)
unfolding daemon_creation
daemon_creation-AcceptsNone flags = (refl, λ f. first_fork-AcceptsNone flags f)
