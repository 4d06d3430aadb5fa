-- ===== src/Messages.antt =====
-- handleMessages.c: the client's two child processes, which pass bytes between the socket and the
-- pipes, and the front end's ends of the pipes. Each loop takes the number of rounds that it is
-- followed for.
pub mod Relay
use papaya_chat.Base.{
  ℕ, zero, suc, List, [], ◌∷◌, Option, none, some, Bool, true, false, not, Bytes, if◌then◌else◌,
}
use papaya_chat.Config.{buf_size}
use papaya_chat.CString.{c_str}
use papaya_chat.Posix.{
  Prog, return, ends, spent, call, sys, ◌>>=◌, ◌>>◌, Block, read, write, malloc, free,
}
use papaya_chat.ChatLog.{wrote}
use papaya_chat.Errors.{stop_with}

unfoldable pub send_message_to_pipe : ℕ → Bytes → Prog (Unit {0})
send_message_to_pipe pipe_fd message = do
  sent ← sys (write pipe_fd (c_str message))
  if not (wrote (c_str message) sent) then stop_with "write sendMessageToPipe()" else return tt

-- After read(2) from the pipe.
unfoldable pub send_read : ℕ → ℕ → Option Bytes → Prog (Unit {0})
send_read server_fd string_buf none = do
  sys (free string_buf)
  stop_with "read - handleSendSocket()"
send_read server_fd string_buf (some []) = do
  sys (free string_buf)
  stop_with "pipe closed - handleSendSocket()"
send_read server_fd string_buf (some (b ∷ bytes)) = do
  sent ← sys (write server_fd (b ∷ bytes))
  if not (wrote (b ∷ bytes) sent)
      then (do sys (free string_buf); stop_with "write handleSendSocket()")
      else sys (free string_buf)

unfoldable pub send_into : ℕ → ℕ → Option Block → Prog (Unit {0})
unfolding send_read
send_into server_fd pipe_fd none = stop_with "malloc failed. @handleSendSocket()"
send_into server_fd pipe_fd (some string_buf) = do
  bytes ← sys (read pipe_fd buf_size)
  send_read server_fd string_buf.addr bytes

unfoldable pub send_round : ℕ → ℕ → Prog (Unit {0})
unfolding send_into
send_round server_fd pipe_fd = do
  string_buf ← sys (malloc buf_size)
  send_into server_fd pipe_fd string_buf

unfoldable pub handle_send_socket : ℕ → ℕ → ℕ → Prog (Unit {0})
handle_send_socket zero server_fd pipe_fd = spent
handle_send_socket (suc rounds) server_fd pipe_fd = do
  send_round server_fd pipe_fd
  handle_send_socket rounds server_fd pipe_fd

-- The bytes read, or the result -1.
unfoldable pub fetch_message : ℕ → Prog (Option Bytes)
fetch_message pipe_fd = sys (read pipe_fd buf_size)

-- After read(2) from the socket. Where write fails the buffer is not freed.
unfoldable pub receive_read : ℕ → ℕ → Option Bytes → Prog (Unit {0})
receive_read pipe_fd string_buf none = do
  sys (free string_buf)
  stop_with "read from server @handleReadSocket()"
receive_read pipe_fd string_buf (some []) = do
  sys (free string_buf)
  stop_with "connection to server lost! read() from socket return 0 == EOF :@handleReadSocket()"
receive_read pipe_fd string_buf (some (b ∷ bytes)) = do
  sent ← sys (write pipe_fd (b ∷ bytes))
  if not (wrote (b ∷ bytes) sent)
      then stop_with "write to pipe @handleReadSocket()"
      else sys (free string_buf)

unfoldable pub receive_into : ℕ → ℕ → Option Block → Prog (Unit {0})
unfolding receive_read
receive_into server_fd pipe_fd none = stop_with "malloc() failed. @handleReadSocket()"
receive_into server_fd pipe_fd (some string_buf) = do
  bytes ← sys (read server_fd buf_size)
  receive_read pipe_fd string_buf.addr bytes

unfoldable pub receive_round : ℕ → ℕ → Prog (Unit {0})
unfolding receive_into
receive_round server_fd pipe_fd = do
  string_buf ← sys (malloc buf_size)
  receive_into server_fd pipe_fd string_buf

unfoldable pub handle_read_socket : ℕ → ℕ → ℕ → Prog (Unit {0})
handle_read_socket zero server_fd pipe_fd = spent
handle_read_socket (suc rounds) server_fd pipe_fd = do
  receive_round server_fd pipe_fd
  handle_read_socket rounds server_fd pipe_fd
