-- ===== src/Server.antt =====
-- concurrent_server.c: the daemon. It accepts connections, and a child process for each
-- authenticates the client and serves it.
pub mod Auth
pub mod Accept
pub mod Connections
pub mod Start
pub mod Dispositions
use papaya_chat.Base.{
  String, codes, ℕ, zero, suc, ◌+◌, List, [], ◌∷◌, Option, none, some, Bool, true, false, not,
  Bytes, if◌then◌else◌,
}
use papaya_chat.Config.{pathname_term_async_safe, key_length, max_line_length, backlog_queue}
use papaya_chat.CString.{strncmp_eq, overwrite}
use papaya_chat.Posix.{
  Prog, return, ends, spent, call, sys, ◌>>=◌, ◌>>◌, exit, exit_now, exec, Block, Forked,
  fork_failed, in_child, in_parent, log_err, log_info, log_debug, term_handler, unset, sigterm,
  read, close, malloc, free, fork, diagnose, alarm, accept, sigfillset, sigaction, syslog, openlog,
}
use papaya_chat.Errors.{stop_with}
use papaya_chat.ConfigParser.{Reading, parse_config_file}
use papaya_chat.ChatLog.{open_chat_log_file}
use papaya_chat.Signals.{
  Status, success, one, failure, configure_signal_disposition, configure_timeout,
}
use papaya_chat.Daemon.{daemon_creation, daemon_flag_no_chdir}
use papaya_chat.Sockets.{Passive, server_listen}
use papaya_chat.ClientRequest.{fail_with, handle_request}

-- execv(3) replaces the process, or fails and the handler ends it: the reply says which.
pub term_handler_run : Bool → Prog (Unit {0})
term_handler_run replaced =
    if replaced then ends (exec pathname_term_async_safe) else ends (exit_now 1)

unfoldable pub configure_term_handler : Prog Bool
configure_term_handler = do
  filled ← sys sigfillset
  if not filled then return false else do
    installed ← sys (sigaction sigterm term_handler unset)
    if not installed then return false else return true

-- configure_syslog.c; its options and facility are those of this one call of openlog(3).
abbrev pub configure_syslog : String → Prog (Unit {0})
configure_syslog identity_string = sys (openlog identity_string)

-- `syslog(LOG_ERR, …); exit(EXIT_FAILURE);`
abbrev pub exit_with : {A : Type 0} → String → Prog A
exit_with message = sys (syslog log_err message) >> ends (exit 1)

-- The string that `port_parsed` holds; `junk` is what the fresh block held before.
unfoldable pub get_config_values : Bytes → Prog Bytes
get_config_values junk = do
  parsed ← parse_config_file (codes "/etc/papayachat/server.config") (codes "PORT") junk
  if not parsed.success
      then exit_with "parseConfigFile for port failed: %s"
      else return parsed.return_value

unfoldable pub get_key : Bytes → Prog Bytes
get_key junk = do
  parsed ← parse_config_file (codes "/etc/papayachat/key") (codes "KEY") junk
  if not parsed.success
      then exit_with "parseConfigFile for key failed: %s"
      else return parsed.return_value

-- After read(2) of the key; true is the result 0, false is -1.
check_key : Bytes → Block → Option Bytes → Prog Bool
check_key key buf none = fail_with "key auth read() failed: %s"
check_key key buf (some []) = do
  sys (syslog log_debug "Received EOF from client during authentication!")
  ends (exit_now 1)
check_key key buf (some (b ∷ received)) = do
  sys (alarm 0)
  sys (syslog log_debug "Key received from client...")
  if strncmp_eq key_length (overwrite (b ∷ received) buf.junk) key
      then (do
        sys (syslog log_debug "[OK] Key received is valid.")
        sys (free buf.addr)
        return true)
      else (do
        sys (syslog log_debug "[FAIL] Key received is NOT valid.")
        sys (free buf.addr)
        return false)

-- After malloc. The handler of SIGALRM, if the second runs out, is `timeout_handler_run`.
await_key : ℕ → Bytes → Option Block → Prog Bool
unfolding check_key
await_key client_fd key none = fail_with "malloc failed: %s"
await_key client_fd key (some buf) = do
  sys (alarm 1)
  received ← sys (read client_fd key_length)
  check_key key buf received

pub auth_client : ℕ → Bytes → Prog Bool
unfolding await_key
auth_client client_fd key = do
  configured ← configure_timeout
  if not configured
      then fail_with "timeout configuration during auth failed: %s"
      else do buf ← sys (malloc key_length); await_key client_fd key buf

-- The child process; `rounds` bounds the loops that it is followed for.
pub child : ℕ → ℕ → ℕ → ℕ → Bytes → ℕ → Prog (Unit {0})
child rounds listen_fd client_fd chatlog_fd key key_addr = do
  configure_syslog "papayaChat(child)"
  sys (syslog log_debug "Child process initialized (handling client connection)")
  valid ← auth_client client_fd key
  if not valid
      then (do
        sys (close client_fd)
        sys (syslog log_info "Auth failed. Client dropped! Terminating child process...")
        ends (exit_now 0))
      else (do
        sys (close listen_fd)
        sys (free key_addr)
        handle_request rounds client_fd chatlog_fd
        sys (syslog log_info "Child process terminated.")
        ends (exit_now 0))

-- What the processes of the server share: descriptors, and the key with its address.
pub record Serving : Type 0 where
  pub listen_fd : ℕ
  pub chatlog_fd : ℕ
  pub key : Bytes
  pub key_addr : ℕ

-- After fork(2): one round of the accept loop for the parent, the whole rest for the child.
after_fork : ℕ → Serving → ℕ → Forked → Prog (Unit {0})
after_fork rounds v client_fd fork_failed = do
  sys (syslog log_err "Error fork() call. Can't create child (%s)")
  sys (close client_fd)
after_fork rounds v client_fd in_child =
    child rounds v.listen_fd client_fd v.chatlog_fd v.key v.key_addr
after_fork rounds v client_fd (in_parent pid) = sys (close client_fd)

-- After accept(2).
handle_connection : ℕ → Serving → Option ℕ → Prog (Unit {0})
unfolding after_fork
handle_connection rounds v none = exit_with "Failure in accept(): %s"
handle_connection rounds v (some client_fd) = do
  forked ← sys fork
  after_fork rounds v client_fd forked

pub accept_loop : ℕ → Serving → Prog (Unit {0})
accept_loop zero v = spent
accept_loop (suc rounds) v = do
  client_fd ← sys (accept v.listen_fd)
  handle_connection rounds v client_fd
  accept_loop rounds v

-- `main`, from the listening socket on.
serve : ℕ → ℕ → Block → Bytes → Option Passive → Prog (Unit {0})
serve rounds chatlog_fd key_block key none =
    exit_with "Could not create server listening socket (%s)"
serve rounds chatlog_fd key_block key (some p) = do
  sys (syslog log_debug "Server is listening on incomming connections.")
  accept_loop rounds
      (record { listen_fd = p.fd; chatlog_fd = chatlog_fd; key = key; key_addr = key_block.addr })

-- After the second malloc.
load_key : ℕ → ℕ → Block → Bytes → Option Block → Prog (Unit {0})
unfolding serve
load_key rounds chatlog_fd port_block port none = exit_with "malloc key failed: %s"
load_key rounds chatlog_fd port_block port (some key_block) = do
  key ← get_key key_block.junk
  passive ← server_listen port backlog_queue
  sys (free port_block.addr)
  serve rounds chatlog_fd key_block key passive

-- After the first malloc.
load_port : ℕ → ℕ → Option Block → Prog (Unit {0})
unfolding load_key
load_port rounds chatlog_fd none = exit_with "malloc port_parsed failed: %s"
load_port rounds chatlog_fd (some port_block) = do
  port ← get_config_values port_block.junk
  key_block ← sys (malloc key_length)
  load_key rounds chatlog_fd port_block port key_block

open_log : ℕ → Option ℕ → Prog (Unit {0})
unfolding load_port
open_log rounds none = exit_with "Error: open (create) chat log file: %s"
open_log rounds (some chatlog_fd) = do
  port_block ← sys (malloc (max_line_length + 10))
  load_port rounds chatlog_fd port_block

-- Only -1 is taken for an error.
is_failure : Status → Bool
is_failure failure = true
is_failure one = false
is_failure success = false

pub main : ℕ → Prog (Unit {0})
unfolding open_log is_failure stop_with
main rounds = do
  daemon ← daemon_creation daemon_flag_no_chdir
  if not daemon then stop_with "daemonCreation" else do
    configure_syslog "papayaChat(parent)"
    status ← configure_signal_disposition
    if is_failure status then exit_with "Error: configureSignalDisposition(): %s" else do
      configured ← configure_term_handler
      if not configured
          then exit_with "Error: sigaction(SIGTERM) or sigfillset(): %s"
          else do chatlog_fd ← open_chat_log_file; open_log rounds chatlog_fd
