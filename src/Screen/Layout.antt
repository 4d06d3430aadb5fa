-- ===== src/Screen/Layout.antt =====
-- frontEnd.c: the windows of the screen.
use papaya_chat.Base.{ℕ, Option, none, some, not, ℤ, pos, ◌-ℤ◌, if◌then◌else◌}
use papaya_chat.Posix.{
  Prog, return, ◌>>=◌, ◌>>◌, initscr, start_color, init_instructions, cbreak, noecho, lines, cols,
  newwin, keypad, nodelay, wrefresh, whline,
}
use papaya_chat.Errors.{stop_with}
use papaya_chat.Screen.{screen}

-- stdscr
abbrev pub std_window : ℕ
std_window = 0

unfoldable pub configure_ncurses : Prog (Unit {0})
configure_ncurses = do
  screen initscr
  screen start_color
  screen init_instructions
  screen cbreak
  screen (keypad std_window)
  screen noecho

-- The window, or the end of the process.
pub window_or_stop : Option ℕ → Prog ℕ
window_or_stop none = stop_with "newwin [textWindow]"
window_or_stop (some window) = return window

unfoldable pub configure_text_window : ℤ → ℤ → ℤ → Prog ℕ
unfolding window_or_stop
configure_text_window y_start x_start y_start_delimiter = do
  columns ← screen cols
  window ← screen (newwin (y_start_delimiter -ℤ pos 1) (pos columns -ℤ pos 2) y_start x_start)
  window_or_stop window

pub configure_keys : Option ℕ → Prog ℕ
configure_keys none = stop_with "newwin [chatWindow]"
configure_keys (some window) = do
  screen (keypad window)
  set ← screen (nodelay window)
  if not set then stop_with "nodelay[chatWindow]" else return window

unfoldable pub configure_chat_window : ℤ → ℤ → Prog ℕ
unfolding configure_keys
configure_chat_window y_start x_start = do
  rows ← screen lines
  columns ← screen cols
  window ← screen (newwin (pos rows -ℤ y_start) (pos columns -ℤ pos 2) y_start x_start)
  configure_keys window

pub draw_delimiter : Option ℕ → Prog ℕ
draw_delimiter none = stop_with "newwin [delimiterWindow]"
draw_delimiter (some window) = do
  columns ← screen cols
  drawn ← screen (whline window b'_' (pos columns -ℤ pos 2))
  if not drawn then stop_with "hline chatWindow" else do screen (wrefresh window); return window

-- Nothing calls it.
unfoldable pub configure_delimiter_window : ℤ → ℤ → ℤ → Prog ℕ
unfolding draw_delimiter
configure_delimiter_window y_start x_start height = do
  columns ← screen cols
  window ← screen (newwin height (pos columns) y_start x_start)
  draw_delimiter window
