-- ===== src/ClientRequest.antt =====
-- clientRequest.c: the two processes that serve a client. One receives its messages and appends
-- them to the chat log; the other sends it what was appended. Each loop takes the number of rounds
-- that it is followed for.
pub mod Receive
pub mod Pieces
pub mod Orphans
pub mod Room
pub mod Message
pub mod Send
pub mod Wakeups
pub mod Multicast
pub mod LostSignal
pub mod Failures
pub mod Leak
pub mod Calm
pub mod Installs
pub mod Gone
pub mod Session
pub mod Ends
pub mod Fallthrough
use papaya_chat.Base.{
  String, codes, ℕ, zero, suc, ◌+◌, ◌-◌, List, [], ◌∷◌, ◌++◌, Option, none, some, Bool, true, false,
  not, Bytes, length, take, drop, replicate, ◌==◌, if◌then◌else◌,
}
use papaya_chat.Config.{buf_size}
use papaya_chat.CString.{snprintf_s, overwrite}
use papaya_chat.Posix.{
  Prog, return, ends, spent, call, sys, ◌>>=◌, ◌>>◌, exit_now, Block, Forked, fork_failed, in_child,
  in_parent, log_err, log_debug, sigterm, read, write, malloc, free, fork, kill, pause, syslog,
}
use papaya_chat.ChatLog.{wrote, exclusive_write, shared_read, messages_from_first_client_connection}
use papaya_chat.Signals.{activate_sigusr1}

-- `syslog(LOG_ERR, …); _exit(EXIT_FAILURE);` The text of errno is left out.
abbrev pub fail_with : {A : Type 0} → String → Prog A
fail_with message = sys (syslog log_err message) >> ends (exit_now 1)

-- sizeof counts the terminating NUL.
abbrev pub greeting_message : Bytes
greeting_message =
    codes "\n                  ...papayaChat...\n\npapayaChat is licensed under GNU AGPLv3.\n"
    ++ codes "The code is hosted at: www.github.com/erodrigufer/papayaChat\n"
    ++ codes "--------------------------------------------------------------\n"
    ++ codes "* Press DOWN ARROW to leave the chat\n\n"
    ++ (0 ∷ [])

unfoldable pub intro_message : ℕ → Prog (Unit {0})
intro_message client_fd = do
  sent ← sys (write client_fd greeting_message)
  if not (wrote greeting_message sent) then fail_with "write() failed: %s" else return tt

-- What the block `stringClient` holds after snprintf(stringClient, bytesRead, "%s", string_buf),
-- with `string_buf` cleared before the bytes were read into it. The format can give no error.
abbrev pub string_client : Bytes → Bytes → Bytes
string_client bytes junk =
    overwrite (snprintf_s (length bytes) (overwrite bytes (replicate buf_size 0)) ++ 0 ∷ []) junk

-- After the second malloc.
unfoldable pub send_string : ℕ → ℕ → ℕ → Bytes → Option Block → Prog ℕ
send_string client_fd offset string_buf bytes none = do
  sys (syslog log_err "malloc failed: %s")
  sys (free string_buf)
  ends (exit_now 1)
send_string client_fd offset string_buf bytes (some block) = do
  let message = take (length bytes) (string_client bytes block.junk)
  sent ← sys (write client_fd message)
  if not (wrote message sent)
      then (do
        sys (syslog log_err "write() failed: %s")
        sys (free string_buf)
        sys (free block.addr)
        ends (exit_now 1))
      else (do sys (free string_buf); sys (free block.addr); return (offset + length bytes))

-- After `sharedRead`.
unfoldable pub send_read : ℕ → ℕ → ℕ → Option Bytes → Prog ℕ
unfolding send_string
send_read client_fd offset string_buf none = do
  sys (syslog log_err "sharedRead() failed: %s")
  sys (free string_buf)
  ends (exit_now 1)
send_read client_fd offset string_buf (some []) = do sys (free string_buf); return offset
send_read client_fd offset string_buf (some (b ∷ bytes)) = do
  block ← sys (malloc (length (b ∷ bytes)))
  send_string client_fd offset string_buf (b ∷ bytes) block

-- After the first malloc.
read_into : ℕ → ℕ → ℕ → Option Block → Prog ℕ
read_into client_fd chatlog_fd offset none = fail_with "malloc failed: %s"
read_into client_fd chatlog_fd offset (some string_buf) = do
  bytes ← shared_read chatlog_fd buf_size offset
  send_read client_fd offset string_buf.addr bytes

unfoldable pub read_chatlog_send_client : ℕ → ℕ → ℕ → Prog ℕ
unfolding read_into send_read
read_chatlog_send_client client_fd chatlog_fd offset = do
  string_buf ← sys (malloc buf_size)
  read_into client_fd chatlog_fd offset string_buf

-- The loop of `sendNewMessages`; it has no exit of its own.
unfoldable pub send_loop : ℕ → ℕ → ℕ → ℕ → Prog (Unit {0})
send_loop zero client_fd chatlog_fd offset = spent
send_loop (suc rounds) client_fd chatlog_fd offset = do
  sys pause
  next ← read_chatlog_send_client client_fd chatlog_fd offset
  send_loop rounds client_fd chatlog_fd next

start_sending : ℕ → ℕ → ℕ → Option ℕ → Prog (Unit {0})
start_sending rounds client_fd chatlog_fd none =
    fail_with "messagesFromFirstClientConnection failed: %s"
start_sending rounds client_fd chatlog_fd (some offset) =
    send_loop rounds client_fd chatlog_fd offset

-- After `activateSIGUSR1`.
send_activated : ℕ → ℕ → ℕ → Bool → Prog (Unit {0})
send_activated rounds client_fd chatlog_fd activated =
    if not activated then fail_with "activateSIGUSR1() failed: %s" else do
      offset ← messages_from_first_client_connection chatlog_fd client_fd
      start_sending rounds client_fd chatlog_fd offset

pub send_new_messages : ℕ → ℕ → ℕ → Prog (Unit {0})
send_new_messages rounds client_fd chatlog_fd = do
  activated ← activate_sigusr1
  send_activated rounds client_fd chatlog_fd activated

unfoldable pub kill_child : ℕ → Prog (Unit {0})
kill_child child_pid = do
  killed ← sys (kill child_pid sigterm)
  if not killed
      then fail_with "kill child process failed: %s"
      else sys (syslog log_debug "Killed child process PID: %d.")

-- How a round of `receiveMessages` ends.
pub data Round : Type 0 where
  again done : Round

-- After read(2) from the client.
unfoldable pub handle_read : ℕ → ℕ → ℕ → Option Bytes → Prog Round
unfolding kill_child
handle_read chatlog_fd child_pid buf none = do
  sys (free buf)
  sys (syslog log_err "read() failed: %s")
  kill_child child_pid
  ends (exit_now 1)
handle_read chatlog_fd child_pid buf (some []) = do
  sys (free buf)
  sys (syslog log_debug "Received EOF from client!")
  return done
handle_read chatlog_fd child_pid buf (some (b ∷ bytes)) = do
  sys (syslog log_debug "%ld Bytes received from client.")
  stored ← exclusive_write chatlog_fd (b ∷ bytes)
  if not stored
      then (do
        sys (syslog log_err "exclusiveWrite() failed: %s")
        sys (free buf)
        kill_child child_pid
        ends (exit_now 1))
      else (do sys (free buf); return again)

-- After malloc.
unfoldable pub receive_into : ℕ → ℕ → ℕ → Option Block → Prog Round
unfolding handle_read
receive_into client_fd chatlog_fd child_pid none = fail_with "malloc failed: %s"
receive_into client_fd chatlog_fd child_pid (some buf) = do
  bytes ← sys (read client_fd buf_size)
  handle_read chatlog_fd child_pid buf.addr bytes

unfoldable pub receive_round : ℕ → ℕ → ℕ → Prog Round
unfolding receive_into
receive_round client_fd chatlog_fd child_pid = do
  buf ← sys (malloc buf_size)
  receive_into client_fd chatlog_fd child_pid buf

unfoldable pub receive_loop : ℕ → ℕ → ℕ → ℕ → Prog (Unit {0})
receive_loop zero client_fd chatlog_fd child_pid = spent
receive_loop (suc rounds) client_fd chatlog_fd child_pid = do
  round ← receive_round client_fd chatlog_fd child_pid
  elim round [ again ↦ receive_loop rounds client_fd chatlog_fd child_pid | done ↦ return tt ]

unfoldable pub receive_messages : ℕ → ℕ → ℕ → ℕ → Prog (Unit {0})
receive_messages rounds client_fd chatlog_fd child_pid = do
  receive_loop rounds client_fd chatlog_fd child_pid
  kill_child child_pid
  ends (exit_now 0)

-- After fork(2). The case of the child falls through to that of the parent, with the pid 0.
serve_as : ℕ → ℕ → ℕ → Forked → Prog (Unit {0})
serve_as rounds client_fd chatlog_fd fork_failed =
    fail_with "Error fork() call. Can't create child (%s)"
serve_as rounds client_fd chatlog_fd in_child = do
  send_new_messages rounds client_fd chatlog_fd
  receive_messages rounds client_fd chatlog_fd 0
serve_as rounds client_fd chatlog_fd (in_parent pid) =
    receive_messages rounds client_fd chatlog_fd pid

pub handle_request : ℕ → ℕ → ℕ → Prog (Unit {0})
unfolding serve_as
handle_request rounds client_fd chatlog_fd = do
  forked ← sys fork
  serve_as rounds client_fd chatlog_fd forked
