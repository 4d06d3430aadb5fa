-- ===== src/Screen.antt =====
-- frontEnd.c, on the ncurses screen: windows, the line that is typed, and the messages that came.
pub mod Layout
pub mod Editor
pub mod Window
pub mod Fetching
pub mod Newline
pub mod Keys
pub mod Turns
pub mod Session
pub mod Shown
pub mod Works
pub mod Typed
use papaya_chat.Base.{
  codes, ℕ, zero, suc, ◌+◌, ◌-◌, ◌*◌, ◌/◌, List, [], ◌∷◌, ◌++◌, Option, none, some, Bool, true,
  false, not, Bytes, ℤ, pos, negsuc, ◌-ℤ◌, ltb, ◌==◌, if◌then◌else◌,
}
use papaya_chat.Config.{buf_size}
use papaya_chat.CString.{c_str, overwrite}
use papaya_chat.Posix.{
  Prog, return, ends, spent, call, sys, ◌>>=◌, ◌>>◌, Block, malloc, free, curses, CursesCall,
  CursesReply, Key, character, key_down, key_backspace, initscr, start_color, init_instructions,
  cbreak, noecho, endwin, lines, cols, newwin, keypad, nodelay, wrefresh, wclear, wdelch, wdeleteln,
  wgetch, whline, getcurx, getcury, wmove, waddch, wprintw, mvwinnstr,
}
use papaya_chat.Errors.{stop_with}
use papaya_chat.Messages.{send_message_to_pipe, fetch_message}

abbrev pub screen : (q : CursesCall) → Prog (CursesReply q)
screen q = sys (curses q)

-- Below the last line, the window is cleared and the cursor goes back to the origin.
unfoldable pub wrap_text : ℕ → ℕ → Option ℕ → Prog (Unit {0})
wrap_text window max_y none = stop_with "y_cursor @printMessagesFromServer"
wrap_text window max_y (some y_cursor) =
    if ltb max_y y_cursor
    then (do
      cleared ← screen (wclear window)
      if not cleared then stop_with "wclear" else do
        moved ← screen (wmove window (pos 0) (pos 0))
        if not moved then stop_with "wmove" else return tt)
    else return tt

-- The block `string_buf` after `fetchMessage`.
unfoldable pub show_message : ℕ → ℕ → Block → Option Bytes → Prog (Unit {0})
unfolding wrap_text
show_message window max_y string_buf none = return tt
show_message window max_y string_buf (some []) = return tt
show_message window max_y string_buf (some (b ∷ bytes)) = do
  y_cursor ← screen (getcury window)
  wrap_text window max_y y_cursor
  screen (wprintw window (c_str (overwrite (b ∷ bytes) string_buf.junk) ++ codes "\n"))
  screen (wrefresh window)

-- After malloc.
unfoldable pub fetch_and_show : ℕ → ℕ → ℕ → Option Block → Prog (Unit {0})
unfolding show_message
fetch_and_show window pipe_fd max_y none = stop_with "malloc failed. @printMessagesFromServer"
fetch_and_show window pipe_fd max_y (some string_buf) = do
  received ← fetch_message pipe_fd
  show_message window max_y string_buf received
  sys (free string_buf.addr)

unfoldable pub print_messages_from_server : ℕ → ℕ → ℕ → Prog (Unit {0})
unfolding fetch_and_show
print_messages_from_server window pipe_fd max_y_position = do
  string_buf ← sys (malloc buf_size)
  fetch_and_show window pipe_fd max_y_position string_buf

-- The line is sent: the window is cleared for the next one.
unfoldable pub clear_line : ℕ → Prog (Unit {0})
clear_line chat_window = do
  deleted ← screen (wdeleteln chat_window)
  if not deleted then (do screen endwin; stop_with "delete line failed, after newline.") else (do
    moved ← screen (wmove chat_window (pos 0) (pos 0))
    if not moved
        then (do screen endwin; stop_with "move cursor to origin failed, after newline.")
        else return tt)

-- After the second malloc; `text` is what the first block, cleared before, holds.
unfoldable pub send_line : ℕ → ℕ → Bytes → ℕ → Bytes → Option Block → Prog (Unit {0})
unfolding clear_line
send_line chat_window pipe_fd username_input message text none =
    stop_with "malloc failed. handleNewline()"
send_line chat_window pipe_fd username_input message text (some username) = do
  send_message_to_pipe pipe_fd (c_str username_input ++ (c_str text ++ codes "\n"))
  sys (free message)
  sys (free username.addr)
  clear_line chat_window

-- After mvwinnstr.
unfoldable pub append_line : ℕ → ℕ → Bytes → ℕ → Option Bytes → Prog (Unit {0})
unfolding send_line
append_line chat_window pipe_fd username_input message none = do
  sys (free message)
  screen endwin
  stop_with "mvwinnstr [chatWindow]"
append_line chat_window pipe_fd username_input message (some text) = do
  username ← sys (malloc buf_size)
  send_line chat_window pipe_fd username_input message text username

-- After getcurx.
unfoldable pub read_line : ℕ → ℕ → Bytes → ℕ → Option ℕ → Prog (Unit {0})
unfolding append_line
read_line chat_window pipe_fd username_input message none =
    stop_with "getting x cursor position @handleNewline"
read_line chat_window pipe_fd username_input message (some x_cursor) = do
  text ← screen (mvwinnstr chat_window (pos 0) (pos 0) x_cursor)
  append_line chat_window pipe_fd username_input message text

-- After the first malloc.
unfoldable pub take_line : ℕ → ℕ → Bytes → Option Block → Prog (Unit {0})
unfolding read_line
take_line chat_window pipe_fd username_input none = stop_with "malloc failed. handleNewline()"
take_line chat_window pipe_fd username_input (some message) = do
  x_cursor ← screen (getcurx chat_window)
  read_line chat_window pipe_fd username_input message.addr x_cursor

unfoldable pub handle_newline : ℕ → ℕ → Bytes → Prog (Unit {0})
unfolding take_line
handle_newline chat_window pipe_fd username_input = do
  message ← sys (malloc buf_size)
  take_line chat_window pipe_fd username_input message

-- A coordinate, where ERR is -1.
abbrev pub coordinate : Option ℕ → ℤ
coordinate none = negsuc 0
coordinate (some n) = pos n

-- At the left border?
abbrev pub at_border : Option ℕ → Bool
at_border none = false
at_border (some x) = x == 0

unfoldable pub handle_backspace : ℕ → Prog (Unit {0})
handle_backspace chat_window = do
  x_position ← screen (getcurx chat_window)
  if at_border x_position then return tt else do
    y_position ← screen (getcury chat_window)
    screen (wmove chat_window (coordinate y_position) (coordinate x_position -ℤ pos 1))
    screen (wdelch chat_window)

-- `x_cursor < (maxMessageSize -1)`. A cursor of -1 is the result too, which stands for no room.
abbrev pub has_room : ℕ → Option ℕ → Bool
has_room max_message_size none = false
has_room max_message_size (some x_cursor) = ltb (x_cursor + 1) max_message_size

-- getyx reads both coordinates; y is not used. The result is whether it is other than -1.
unfoldable pub check_max_message_length : ℕ → ℕ → Prog Bool
check_max_message_length chat_window max_message_size = do
  y_cursor ← screen (getcury chat_window)
  x_cursor ← screen (getcurx chat_window)
  return (has_room max_message_size x_cursor)

-- MAX_MESSAGE_SENT
abbrev pub max_message_sent : ℕ → ℕ
max_message_sent columns = columns * 3 / 4

-- The body of the loop, for a key that is neither newline nor backspace.
unfoldable pub add_key : ℕ → Key → Prog (Unit {0})
add_key chat_window key = do
  columns ← screen cols
  room ← check_max_message_length chat_window (max_message_sent columns)
  if not room then return tt else do screen (waddch chat_window key); screen (wrefresh chat_window)

-- What the loop of `main` works with.
pub record Chat : Type 0 where
  pub chat_window : ℕ
  pub text_window : ℕ
  pub send_fd : ℕ
  pub receive_fd : ℕ
  pub username : Bytes
  pub max_y : ℕ

-- Whether the loop goes on.
pub data Turn : Type 0 where
  more leave : Turn

unfoldable pub fetch : Chat → Prog (Unit {0})
fetch c = print_messages_from_server c.text_window c.receive_fd c.max_y

-- After wgetch; `none` is ERR, where no key was pressed.
unfoldable pub handle_key : Chat → Option Key → Prog Turn
unfolding fetch
handle_key c none = do fetch c; return more
handle_key c (some (character k)) =
    if k == b'\n'
    then (do handle_newline c.chat_window c.send_fd c.username; return more)
    else (do add_key c.chat_window (character k); fetch c; return more)
handle_key c (some key_backspace) = do handle_backspace c.chat_window; return more
handle_key c (some key_down) = do add_key c.chat_window key_down; fetch c; return leave

-- The loop; without KEY_DOWN it goes on.
unfoldable pub key_loop : ℕ → Chat → Prog (Unit {0})
key_loop zero c = spent
key_loop (suc rounds) c = do
  key ← screen (wgetch c.chat_window)
  turn ← handle_key c key
  elim turn [ more ↦ key_loop rounds c | leave ↦ return tt ]
