-- ===== src/Daemon.antt =====
-- daemonCreation.c: a process that becomes a daemon. True is the result 0, false is -1.
pub mod Descriptors
pub mod Accepts
use papaya_chat.Base.{
  String, ℕ, zero, suc, ◌+◌, ◌/◌, ◌%◌, Option, none, some, Bool, true, false, not, ◌==◌,
  if◌then◌else◌,
}
use papaya_chat.Posix.{
  Prog, return, ends, spent, call, sys, ◌>>=◌, ◌>>◌, exit_now, Forked, fork_failed, in_child,
  in_parent, fork, setsid, umask, chdir, sysconf_open_max, close, open_file, dup2,
}

abbrev pub daemon_flag_no_chdir : ℕ
daemon_flag_no_chdir = 0o1

abbrev pub daemon_flag_no_close_files : ℕ
daemon_flag_no_close_files = 0o2

abbrev pub daemon_flag_no_reopen_std_fds : ℕ
daemon_flag_no_reopen_std_fds = 0o4

abbrev pub daemon_flag_no_umask0 : ℕ
daemon_flag_no_umask0 = 0o10

abbrev pub daemon_flag_max_close : ℕ
daemon_flag_max_close = 8192

-- flags & flag, for a flag of one bit
abbrev pub has_flag : ℕ → ℕ → Bool
has_flag flags flag = flags / flag % 2 == 1

-- S_IXUSR | S_IXGRP | S_IRWXO
abbrev umask_flags : ℕ
umask_flags = 0o117

-- `for (fd = 0; fd < maxfd; fd++) close(fd);`, from `fd` on, for the rounds that are left.
unfoldable pub close_from : ℕ → ℕ → Prog (Unit {0})
close_from zero fd = return tt
close_from (suc left) fd = do sys (close fd); close_from left (fd + 1)

-- The limit that sysconf(3) gives, or the guess.
abbrev pub max_fd : Option ℕ → ℕ
max_fd none = daemon_flag_max_close
max_fd (some n) = n

close_files : ℕ → Prog (Unit {0})
close_files flags =
    if has_flag flags daemon_flag_no_close_files
    then return tt
    else do limit ← sys sysconf_open_max; close_from (max_fd limit) 0

-- Is the result of open(2) or dup2(2) this descriptor?
abbrev is_fd : ℕ → Option ℕ → Bool
is_fd fd none = false
is_fd fd (some n) = n == fd

reopen_std_fds : ℕ → Prog Bool
reopen_std_fds flags = if has_flag flags daemon_flag_no_reopen_std_fds then return true else do
  sys (close 0)
  fd ← sys (open_file "/dev/null" 0)
  if not (is_fd 0 fd) then return false else do
    out ← sys (dup2 0 1)
    if not (is_fd 1 out)
        then return false
        else do error ← sys (dup2 0 2); if not (is_fd 2 error) then return false else return true

set_umask : ℕ → Prog (Unit {0})
set_umask flags =
    if has_flag flags daemon_flag_no_umask0 then return tt else sys (umask umask_flags)

change_directory : ℕ → Prog (Unit {0})
change_directory flags = if has_flag flags daemon_flag_no_chdir then return tt else sys (chdir "/")

unfoldable pub configure_daemon : ℕ → Prog Bool
unfolding set_umask change_directory close_files reopen_std_fds
configure_daemon flags = do
  set_umask flags
  change_directory flags
  close_files flags
  reopen_std_fds flags

-- The second fork(2): the session leader ends, its child is the daemon.
second_fork : ℕ → Forked → Prog Bool
second_fork flags fork_failed = return false
second_fork flags in_child = configure_daemon flags
second_fork flags (in_parent pid) = ends (exit_now 0)

first_fork : ℕ → Forked → Prog Bool
unfolding second_fork
first_fork flags fork_failed = return false
first_fork flags (in_parent pid) = ends (exit_now 0)
first_fork flags in_child = do
  leads ← sys setsid
  if not leads then return false else do forked ← sys fork; second_fork flags forked

unfoldable pub daemon_creation : ℕ → Prog Bool
unfolding first_fork
daemon_creation flags = do forked ← sys fork; first_fork flags forked
