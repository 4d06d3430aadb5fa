-- ===== src/Profiling.antt =====
-- profiling/C_Server/C_Server.c and signalHandling.c: a server that prints what it reads.
--
-- What printf makes of a number is the parameter `decimal`. error_handling.c, inet_sockets.c and
-- `catchSIGCHLD` are copies: the functions that are called do what those of the chat server do.
pub mod Printed
mod Sockets
use papaya_chat.Base.{
  codes, ℕ, zero, suc, List, [], ◌∷◌, ◌++◌, Option, none, some, Bool, true, false, not, Bytes,
  length, if◌then◌else◌,
}
use papaya_chat.Config.{buf_size}
use papaya_chat.CString.{c_str, overwrite}
use papaya_chat.Posix.{
  Prog, return, ends, spent, call, sys, ◌>>=◌, ◌>>◌, exit_now, Block, Forked, fork_failed, in_child,
  in_parent, sa_restart, catch_sigchld, sigchld, read, close, malloc, free, fork, accept, print,
  sigemptyset, sigaction,
}
use papaya_chat.Errors.{stop_with}
use papaya_chat.Signals.{Status, success, one, failure}
use papaya_chat.Sockets.{Passive, server_listen}

-- BACKLOG_QUEUE
abbrev pub backlog_queue : ℕ
backlog_queue = 200

unfoldable pub configure_signal_disposition : Prog Status
configure_signal_disposition = do
  emptied ← sys sigemptyset
  if not emptied then return one else do
    installed ← sys (sigaction sigchld catch_sigchld sa_restart)
    if not installed then return failure else return success

-- What the block `buf` holds after read(2), and what printf prints of it.
abbrev pub shown : Bytes → Bytes → Bytes
shown bytes buf = c_str (overwrite bytes buf)

module _ (decimal : ℕ → Bytes) where
  -- After read(2) into the block at `addr`, which held `buf`; `next` goes on with what it holds then.
  pub show_read : ℕ → Bytes → (Bytes → Prog (Unit {0})) → Option Bytes → Prog (Unit {0})
  show_read addr buf next none = stop_with "read() failed."
  show_read addr buf next (some []) = do
    sys (print (codes "Received EOF from client!\n"))
    sys (free addr)
    ends (exit_now 0)
  show_read addr buf next (some (b ∷ bytes)) = do
    sys (print (decimal (length (b ∷ bytes)) ++ codes " Bytes received from client."))
    sys (print (shown (b ∷ bytes) buf))
    next (overwrite (b ∷ bytes) buf)

  -- The loop of `receiveMessages`, with what its block holds.
  pub receive_loop : ℕ → ℕ → ℕ → Bytes → Prog (Unit {0})
  unfolding show_read
  receive_loop zero client_fd addr buf = spent
  receive_loop (suc rounds) client_fd addr buf = do
    bytes ← sys (read client_fd buf_size)
    show_read addr buf (receive_loop rounds client_fd addr) bytes

  -- After malloc.
  pub receive_into : ℕ → ℕ → Option Block → Prog (Unit {0})
  unfolding receive_loop
  receive_into rounds client_fd none = stop_with "malloc failed."
  receive_into rounds client_fd (some buf) = receive_loop rounds client_fd buf.addr buf.junk

  unfoldable pub receive_messages : ℕ → ℕ → Prog (Unit {0})
  unfolding receive_into
  receive_messages rounds client_fd = do
    buf ← sys (malloc buf_size)
    receive_into rounds client_fd buf

  -- After fork(2).
  pub after_fork : ℕ → ℕ → ℕ → Forked → Prog (Unit {0})
  unfolding receive_messages
  after_fork rounds listen_fd client_fd fork_failed =
      stop_with "[ERROR] Error fork() call. Can't create child."
  after_fork rounds listen_fd client_fd in_child = do
    sys (print (codes "[DEBUG] Child process initialized (handling client connection)\n"))
    sys (close listen_fd)
    receive_messages rounds client_fd
    sys (print (codes "[DEBUG] Child process terminated.\n"))
    ends (exit_now 0)
  after_fork rounds listen_fd client_fd (in_parent pid) = sys (close client_fd)

  -- After accept(2).
  pub handle_connection : ℕ → ℕ → Option ℕ → Prog (Unit {0})
  unfolding after_fork
  handle_connection rounds listen_fd none = stop_with "[ERROR] Failure in accept()"
  handle_connection rounds listen_fd (some client_fd) = do
    forked ← sys fork
    after_fork rounds listen_fd client_fd forked

  pub accept_loop : ℕ → ℕ → Prog (Unit {0})
  unfolding handle_connection
  accept_loop zero listen_fd = spent
  accept_loop (suc rounds) listen_fd = do
    client_fd ← sys (accept listen_fd)
    handle_connection rounds listen_fd client_fd
    accept_loop rounds listen_fd

  pub serve : ℕ → Option Passive → Prog (Unit {0})
  unfolding accept_loop
  serve rounds none = stop_with "[ERROR] Could not create server listening socket"
  serve rounds (some p) = do
    sys (print (codes "[DEBUG] Server is listening on incomming connections.\n"))
    accept_loop rounds p.fd

  -- Only -1 is taken for an error.
  pub start : ℕ → Status → Prog (Unit {0})
  unfolding serve
  start rounds failure = stop_with "[ERROR] Error: configureSignalDisposition()"
  start rounds _ = do passive ← server_listen (codes "50000") backlog_queue; serve rounds passive

  pub main : ℕ → Prog (Unit {0})
  unfolding start
  main rounds = do status ← configure_signal_disposition; start rounds status
