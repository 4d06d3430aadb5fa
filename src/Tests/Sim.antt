-- ===== src/Tests/Sim.antt =====
-- A kernel to run the model on: one log file, behind descriptor 3, and messages that come in on
-- every other descriptor. While the process waits for a signal, another client writes.
use papaya_chat.Base.{
  codes, zero, suc, ℕ, ◌≡◌, refl, sym, append-nil, Bool-cases, inl, inr, List, [], ◌∷◌, ◌++◌,
  Option, none, some, Bool, true, false, Bytes, length, take, drop, ◌==◌, if◌then◌else◌, arith,
}
use papaya_chat.Posix.{
  Waited, Kernel, Call, Reply, in_child, in_parent, read, write, lseek_set, lseek_end, flock, close,
  open_file, dup2, fopen, fclose, malloc, free, fork, setsid, umask, chdir, sysconf_open_max, kill,
  waitpid_any, pause, alarm, sigfillset, sigemptyset, sigaddset, sigaction, getaddrinfo,
  freeaddrinfo, socket, connect, set_reuse_addr, bind, listen, accept, openlog, syslog, diagnose,
  getenv, fflush_stdout, fflush_stderr, fputs_stderr, print, pipe, fcntl_getfl, fcntl_set_nonblock,
  atexit_kill_child_processes, getnameinfo, curses, CursesCall, CursesReply, initscr, start_color,
  init_instructions, cbreak, noecho, refresh, endwin, attron_instructions, attroff_instructions,
  lines, cols, mvprintw, newwin, keypad, nodelay, wrefresh, wclear, wdelch, wdeleteln, wgetch,
  whline, getcurx, getcury, wmove, waddch, wprintw, mvwinnstr,
}
use papaya_chat.ChatLog.Transfer.{ReadsLog}
use papaya_chat.ClientRequest.Session.{Grows}
use papaya_chat.Signals.Reaping.{Collects}
use papaya_chat.ClientRequest.Ends.{ServesQueue, is_read}

pub record Sim : Type 0 where
  pub log : Bytes
  pub at : ℕ
  pub input : List Bytes
  pub config : Bytes
  pub junk : Bytes
  pub kills : Bool
  pub children : ℕ

abbrev next_input : List Bytes → Sim → Option Bytes × Sim
next_input [] s = (some [], s)
next_input (b ∷ rest) s = (some b, record s { input = rest })

-- A screen that nobody types on.
abbrev pub on_screen : (q : CursesCall) → CursesReply q
on_screen lines = 24
on_screen cols = 80
on_screen (newwin h w y x) = some 1
on_screen (nodelay w) = true
on_screen (wclear w) = true
on_screen (wdeleteln w) = true
on_screen (wgetch w) = none
on_screen (whline w c n) = true
on_screen (getcurx w) = some 0
on_screen (getcury w) = some 0
on_screen (wmove w y x) = true
on_screen (mvwinnstr w y x n) = some []
on_screen initscr = tt
on_screen start_color = tt
on_screen init_instructions = tt
on_screen cbreak = tt
on_screen noecho = tt
on_screen refresh = tt
on_screen endwin = tt
on_screen attron_instructions = tt
on_screen attroff_instructions = tt
on_screen (mvprintw y x t) = tt
on_screen (keypad w) = tt
on_screen (wrefresh w) = tt
on_screen (wdelch w) = tt
on_screen (waddch w k) = tt
on_screen (wprintw w bs) = tt

-- ECHILD of Linux.
abbrev echild : ℕ
echild = 10

-- Every connection is refused, so that no address serves.
abbrev pub reply_of : (c : Call) → Sim → Reply c × Sim
reply_of (read fd n) s =
    if fd == 3 then (some (take n (drop s.at s.log)), s) else next_input s.input s
reply_of (write fd bs) s = (some (length bs), if fd == 3 then record s { log = s.log ++ bs } else s)
reply_of (lseek_set fd o) s = (true, record s { at = o })
reply_of (lseek_end fd) s = (some (length s.log), s)
reply_of (flock fd op) s = (true, s)
reply_of (close fd) s = (tt, s)
reply_of (open_file path mode) s = (some 0, s)
reply_of (dup2 a b) s = (some b, s)
reply_of (fopen path) s = (some (record { handle = 9; content = s.config }), s)
reply_of (fclose h) s = (tt, s)
reply_of (malloc n) s = (some (record { addr = 1; junk = s.junk }), s)
reply_of (free a) s = (tt, s)
reply_of fork s = (in_child, s)
reply_of setsid s = (true, s)
reply_of (umask m) s = (tt, s)
reply_of (chdir d) s = (tt, s)
reply_of sysconf_open_max s = (some 5, s)
reply_of (kill pid sig) s = (s.kills, s)
reply_of waitpid_any s = (record { result = none; errno = echild }, s)
reply_of pause s = (tt, record s { log = s.log ++ codes "eva: hi\n" })
reply_of (alarm n) s = (tt, s)
reply_of sigfillset s = (true, s)
reply_of sigemptyset s = (true, s)
reply_of (sigaddset x) s = (true, s)
reply_of (sigaction x h f) s = (true, s)
reply_of (getaddrinfo h p x) s =
    (some (record { family = 2; socktype = 1; protocol = 6; addr = 0; addrlen = 16 } ∷ []), s)
reply_of freeaddrinfo s = (tt, s)
reply_of (socket a) s = (some 6, s)
reply_of (connect fd a) s = (false, s)
reply_of (set_reuse_addr fd) s = (true, s)
reply_of (bind fd a) s = (true, s)
reply_of (listen fd n) s = (false, s)
reply_of (accept fd) s = (some 4, s)
reply_of (openlog x) s = (tt, s)
reply_of (syslog p x) s = (tt, s)
reply_of (diagnose x) s = (tt, s)
reply_of (getenv x) s = (none, s)
reply_of fflush_stdout s = (tt, s)
reply_of fflush_stderr s = (tt, s)
reply_of (fputs_stderr x) s = (tt, s)
reply_of (print x) s = (tt, s)
reply_of pipe s = (some (7, 8), s)
reply_of (fcntl_getfl fd) s = (some 0, s)
reply_of (fcntl_set_nonblock fd flags) s = (true, s)
reply_of atexit_kill_child_processes s = (true, s)
reply_of (getnameinfo a n) s = (some (codes "localhost", codes "7722"), s)
reply_of (curses q) s = (on_screen q, s)

abbrev pub sim : Kernel Sim
sim = record { answer = reply_of }

-- Children that have ended are collected one by one.
abbrev collect : ℕ → Sim → Waited × Sim
collect zero s = (record { result = none; errno = echild }, s)
collect (suc n) s = (record { result = some 77; errno = echild }, record s { children = n })

collect-input : (n : ℕ) (s : Sim) → (collect n s).1.input ≡ s.input
collect-input zero s = refl
collect-input (suc n) s = refl

-- The same, seen from the parent of each fork, and with signals that can always be sent.
abbrev parent_reply_of : (c : Call) → Sim → Reply c × Sim
parent_reply_of fork s = (in_parent 77, s)
parent_reply_of (kill pid sig) s = (true, s)
parent_reply_of waitpid_any s = collect s.children s
parent_reply_of c s = reply_of c s

abbrev pub parent_sim : Kernel Sim
parent_sim = record { answer = parent_reply_of }

pub sim-ReadsLog : ReadsLog sim 3 (λ s. s.log) (λ s. s.at)
sim-ReadsLog = record {
  end_is = λ s n e. ground arith;
  moves = λ s o e. refl;
  reads = λ s n bs e. ground arith;
  keeps_lock = λ s. refl;
  keeps_end = λ s. refl;
  keeps_set = λ s o. refl;
  keeps_malloc = λ s n. (refl, refl);
}

pub next_input-log : (i : List Bytes) (s : Sim) → (next_input i s).1.log ≡ s.log
next_input-log [] s = refl
next_input-log (b ∷ rest) s = refl

pub sim-Grows : Grows sim (λ s. s.log)
sim-Grows (write fd bs) s = elim (Bool-cases (fd == 3)) [
  | inl e ↦ (bs, rw e refl)
  | inr e ↦ ([], rw e (sym (append-nil s.log)))
]
sim-Grows (read fd n) s = ([], ground (arith, next_input-log s.input s, append-nil s.log))
sim-Grows pause s = (codes "eva: hi\n", refl)
sim-Grows c s = ([], sym (append-nil s.log))

parent_sim-keeps :
    (s : Sim) (c : Call) → is_read c ≡ false → (parent_sim.answer c s).1.input ≡ s.input
parent_sim-keeps s (read fd n) e = cc
parent_sim-keeps s (write fd bs) e = ground arith
parent_sim-keeps s waitpid_any e = collect-input s.children s
parent_sim-keeps s c e = refl

pub parent_sim-ServesQueue : ServesQueue parent_sim 4 3 (λ s. s.input)
parent_sim-ServesQueue = record {
  next = λ s b rest e. rw e (refl, refl);
  eof = λ s e. rw e refl;
  allocates = λ s n. (record { addr = 1; junk = s.junk }, refl);
  writes = λ s bs. refl;
  locks = λ s op. refl;
  kills = λ s pid sig. refl;
  keeps = parent_sim-keeps;
}

pub parent_sim-Collects : Collects parent_sim (λ s. s.children)
parent_sim-Collects = record {
  one = λ s n e. (76, rw e refl, rw e refl);
  none_left = λ s e. (rw e (inl refl), rw e refl);
}
