-- ===== src/Posix/Curses.antt =====
-- The calls of the ncurses library that the front end makes, with their replies.
use Prim.Native.String.{String}
use papaya_chat.Base.{ℕ, Option, Bool, Bytes, ℤ}

-- What wgetch(3) reads.
pub data Key : Type 0 where
  character : ℕ → Key
  key_down key_backspace : Key

-- A window is a number; 0 is `stdscr`.
pub data CursesCall : Type 0 where
  initscr start_color init_instructions cbreak noecho refresh endwin : CursesCall
  attron_instructions attroff_instructions : CursesCall
  lines cols : CursesCall
  mvprintw : ℤ → ℤ → String → CursesCall
  newwin : ℤ → ℤ → ℤ → ℤ → CursesCall
  keypad nodelay wrefresh wclear wdelch wdeleteln wgetch : ℕ → CursesCall
  whline : ℕ → ℕ → ℤ → CursesCall
  getcurx getcury : ℕ → CursesCall
  wmove : ℕ → ℤ → ℤ → CursesCall
  waddch : ℕ → Key → CursesCall
  wprintw : ℕ → Bytes → CursesCall
  mvwinnstr : ℕ → ℤ → ℤ → ℕ → CursesCall

-- `none` and `false` are the result ERR (of `newwin`, the null pointer). `lines` and `cols` read
-- the variables LINES and COLS. Results that the code does not look at are left out.
abbrev pub CursesReply : CursesCall → Type 0
CursesReply initscr = Unit {0}
CursesReply start_color = Unit {0}
CursesReply init_instructions = Unit {0}
CursesReply cbreak = Unit {0}
CursesReply noecho = Unit {0}
CursesReply refresh = Unit {0}
CursesReply endwin = Unit {0}
CursesReply attron_instructions = Unit {0}
CursesReply attroff_instructions = Unit {0}
CursesReply lines = ℕ
CursesReply cols = ℕ
CursesReply (mvprintw _ _ _) = Unit {0}
CursesReply (newwin _ _ _ _) = Option ℕ
CursesReply (keypad _) = Unit {0}
CursesReply (nodelay _) = Bool
CursesReply (wrefresh _) = Unit {0}
CursesReply (wclear _) = Bool
CursesReply (wdelch _) = Unit {0}
CursesReply (wdeleteln _) = Bool
CursesReply (wgetch _) = Option Key
CursesReply (whline _ _ _) = Bool
CursesReply (getcurx _) = Option ℕ
CursesReply (getcury _) = Option ℕ
CursesReply (wmove _ _ _) = Bool
CursesReply (waddch _ _) = Unit {0}
CursesReply (wprintw _ _) = Unit {0}
CursesReply (mvwinnstr _ _ _ _) = Option Bytes
