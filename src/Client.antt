-- ===== src/Client.antt =====
-- frontEnd.c, `main`: the configuration, the connection, the two child processes and the screen.
pub mod Ends
pub mod Pipes
use papaya_chat.Base.{
  String, ℕ, ◌+◌, ◌/◌, [], ◌∷◌, ◌++◌, Option, none, some, not, Bytes, pos, ◌-ℤ◌, if◌then◌else◌,
}
use papaya_chat.Config.{max_line_length, key_length}
use papaya_chat.CString.{overwrite}
use papaya_chat.Posix.{
  Prog, return, ends, sys, ◌>>=◌, ◌>>◌, exit, exit_now, Block, malloc, free, Forked, fork_failed,
  in_child, in_parent, fork, close, pipe, fcntl_getfl, fcntl_set_nonblock,
  atexit_kill_child_processes, mvprintw, attron_instructions, attroff_instructions, refresh, endwin,
  lines, cols, wmove,
}
use papaya_chat.Errors.{stop_with}
use papaya_chat.Signals.{Status, failure, configure_signal_disposition}
use papaya_chat.Sockets.{establish_connection}
use papaya_chat.Messages.{handle_send_socket, handle_read_socket}
use papaya_chat.FrontEnd.{get_config_values, send_auth_key}
use papaya_chat.Screen.{screen, key_loop}
use papaya_chat.Screen.Layout.{configure_ncurses, configure_text_window, configure_chat_window}

-- `char * b = malloc(n); if(b == NULL) errExit(…);`
pub block_or_stop : String → Option Block → Prog Block
block_or_stop message none = stop_with message
block_or_stop message (some b) = return b

unfoldable pub allocate : ℕ → String → Prog Block
unfolding block_or_stop
allocate size message = do block ← sys (malloc size); block_or_stop message block

-- The screen of the parent process, from `configureNcurses()` on.
pub run_screen : ℕ → ℕ → ℕ → Block → Bytes → Prog (Unit {0})
run_screen rounds send_fd receive_fd username_block username = do
  configure_ncurses
  registered ← sys atexit_kill_child_processes
  if not registered then stop_with "atexit" else do
    columns ← screen cols
    screen (mvprintw (pos 0) (pos (columns / 2) -ℤ pos 5) "papayaChat\n")
    screen attron_instructions
    screen (mvprintw (pos 1) (pos 0) ">>Press ARROW_DOWN to exit chat<<\n")
    screen attroff_instructions
    screen refresh
    rows ← screen lines
    let y_start_chat_window = pos rows -ℤ pos 4
    rows' ← screen lines
    chat_window ← configure_chat_window y_start_chat_window (pos 1)
    text_window ← configure_text_window (pos 3) (pos 1) (y_start_chat_window -ℤ pos 2)
    screen (wmove text_window (pos 0) (pos 0))
    key_loop rounds (record {
      chat_window = chat_window;
      text_window = text_window;
      send_fd = send_fd;
      receive_fd = receive_fd;
      username = username;
      max_y = rows' / 2;
    })
    screen endwin
    sys (free username_block.addr)
    ends (exit 0)

-- After the second fork.
unfoldable pub second_child : ℕ → ℕ → ℕ → ℕ → ℕ → Block → Bytes → Forked → Prog (Unit {0})
second_child rounds server_fd send_fd read_end write_end username_block username fork_failed =
    stop_with "fork(), 2. Child [receive] could not be created."
second_child rounds server_fd send_fd read_end write_end username_block username in_child = do
  sys (close read_end)
  sys (close send_fd)
  handle_read_socket rounds server_fd write_end
  ends (exit_now 0)
second_child rounds server_fd send_fd read_end write_end username_block username (in_parent pid) =
    do sys (close write_end); run_screen rounds send_fd read_end username_block username

-- After fcntl(F_GETFL).
unfoldable pub set_nonblock : ℕ → Option ℕ → Prog (Unit {0})
set_nonblock fd none = stop_with "fcntl F_GETFL"
set_nonblock fd (some flags) = do
  set ← sys (fcntl_set_nonblock fd flags)
  if not set then stop_with "fcntl O_NONBLOCK" else return tt

-- After the second pipe.
unfoldable pub receive_pipe : ℕ → ℕ → ℕ → Block → Bytes → Option (ℕ × ℕ) → Prog (Unit {0})
receive_pipe rounds server_fd send_fd username_block username none =
    stop_with "pipe receive from server"
receive_pipe rounds server_fd send_fd username_block username (some (read_end, write_end)) = do
  flags ← sys (fcntl_getfl read_end)
  set_nonblock read_end flags
  forked ← sys fork
  second_child rounds server_fd send_fd read_end write_end username_block username forked

-- After the first fork.
unfoldable pub first_child : ℕ → ℕ → ℕ → ℕ → Block → Bytes → Forked → Prog (Unit {0})
first_child rounds server_fd read_end write_end username_block username fork_failed =
    stop_with "fork(), 1. Child [send] could not be created."
first_child rounds server_fd read_end write_end username_block username in_child = do
  sys (close write_end)
  handle_send_socket rounds server_fd read_end
  ends (exit_now 0)
first_child rounds server_fd read_end write_end username_block username (in_parent pid) = do
  sys (close read_end)
  ends_of_pipe ← sys pipe
  receive_pipe rounds server_fd write_end username_block username ends_of_pipe

-- After the first pipe.
unfoldable pub send_pipe : ℕ → ℕ → Block → Bytes → Option (ℕ × ℕ) → Prog (Unit {0})
send_pipe rounds server_fd username_block username none = stop_with "pipe send to server"
send_pipe rounds server_fd username_block username (some (read_end, write_end)) = do
  forked ← sys fork
  first_child rounds server_fd read_end write_end username_block username forked

-- Only -1 is taken for an error.
unfoldable pub start_processes : ℕ → ℕ → Block → Bytes → Status → Prog (Unit {0})
start_processes rounds server_fd username_block username failure =
    stop_with "sigaction failed, at configureSignalDisposition"
start_processes rounds server_fd username_block username _ = do
  ends_of_pipe ← sys pipe
  send_pipe rounds server_fd username_block username ends_of_pipe

-- The memory at `key` after `parseConfigFile`: the string, a NUL, and what was there before.
abbrev pub key_memory : Bytes → Block → Bytes
key_memory key block = overwrite (key ++ 0 ∷ []) block.junk

pub main : ℕ → Prog (Unit {0})
main rounds = do
  username_block ← allocate (max_line_length + 10) "malloc username_parsed failed"
  port_block ← allocate (max_line_length + 10) "malloc port_parsed failed"
  host_block ← allocate (max_line_length + 10) "malloc host_parsed failed"
  key_block ← allocate key_length "malloc key failed"
  parsed ← get_config_values (record {
    username = username_block.junk;
    port = port_block.junk;
    host = host_block.junk;
    key = key_block.junk;
  })
  server_fd ← establish_connection (some parsed.host) parsed.port
  send_auth_key server_fd (key_memory parsed.key key_block)
  sys (free key_block.addr)
  sys (free host_block.addr)
  sys (free port_block.addr)
  status ← configure_signal_disposition
  start_processes rounds server_fd username_block parsed.username status
