-- ===== src/Signals.antt =====
-- signalHandling.c: dispositions of signals, and the handlers.
--
-- The handlers that the kernel calls are programs too.
pub mod Reaping
pub mod Dispositions
use papaya_chat.Base.{ℕ, zero, suc, Bool, true, false, not, none, some, if◌then◌else◌}
use papaya_chat.Posix.{
  Prog, return, ends, spent, sys, ◌>>=◌, ◌>>◌, exit_now, sa_restart, no_flags, unset, sig_ign,
  catch_sigchld, handler_sigusr1, timeout_handler, sigchld, sigusr1, sigterm, sigalrm, sigemptyset,
  sigaddset, sigaction, kill, waitpid_any, diagnose,
}

-- The results of the functions that configure dispositions: 0, 1 and -1.
pub data Status : Type 0 where
  success one failure : Status

-- `while (waitpid(-1, NULL, WNOHANG) > 0) continue;` A result of 0 or -1 ends the loop. The result
-- is the value that the last call leaves in errno.
reap : ℕ → Prog ℕ
reap zero = spent
reap (suc rounds) = do
  waited ← sys waitpid_any
  elim waited.result [
    | none ↦ return waited.errno
    | some zero ↦ return waited.errno
    | some (suc p) ↦ reap rounds
  ]

-- With the value of errno when the signal comes. The result is its value after the handler.
unfoldable pub catch_sigchld_handler : ℕ → ℕ → Prog ℕ
unfolding reap
catch_sigchld_handler rounds errno = do
  let saved_errno = errno
  changed_errno ← reap rounds
  return saved_errno

-- `errMsg` prints and returns.
unfoldable pub kill_child_processes : Prog (Unit {0})
kill_child_processes = do
  killed ← sys (kill 0 sigterm)
  if not killed then sys (diagnose "Failed to kill processes in Process Group!") else return tt

unfoldable pub configure_signal_disposition : Prog Status
configure_signal_disposition = do
  ignored ← sys (sigaction sigusr1 sig_ign unset)
  if not ignored then return failure else do
    emptied ← sys sigemptyset
    if not emptied then return one else do
      added ← sys (sigaddset sigusr1)
      if not added then return one else do
        installed ← sys (sigaction sigchld catch_sigchld sa_restart)
        if not installed then return failure else return success

-- The handler sets `flag_activated`, which nothing reads.
abbrev pub handler_sigusr1_sets : ℕ → ℕ
handler_sigusr1_sets flag_activated = 1

-- With the value that `flag_activated` is given.
unfoldable pub activate_sigusr1 : Prog Bool
activate_sigusr1 = do
  emptied ← sys sigemptyset
  if not emptied then return false else do
    installed ← sys (sigaction sigusr1 handler_sigusr1 no_flags)
    if not installed then return false else return true

unfoldable pub timeout_handler_run : Prog (Unit {0})
timeout_handler_run = ends (exit_now 0)

-- The result of sigemptyset is not looked at.
unfoldable pub configure_timeout : Prog Bool
configure_timeout = do
  sys sigemptyset
  installed ← sys (sigaction sigalrm timeout_handler no_flags)
  if not installed then return false else return true
