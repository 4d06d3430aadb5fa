-- ===== src/Posix/Calls.antt =====
-- The calls that the C files make, with their replies.
use Prim.Native.String.{String}
use papaya_chat.Posix.Curses.{CursesCall, CursesReply}
use papaya_chat.Base.{ℕ, List, Option, Bool, Bytes}

-- flock(2): shared, exclusive, unlock.
pub data LockOp : Type 0 where
  lock_sh lock_ex lock_un : LockOp

pub data Signal : Type 0 where
  sigchld sigusr1 sigterm sigalrm : Signal

-- What a signal does to the process: SIG_IGN, or one of the handlers of the C files.
pub data Handler : Type 0 where
  sig_ign catch_sigchld handler_sigusr1 timeout_handler term_handler : Handler

-- `sa_flags`: SA_RESTART, 0, or a field that was never assigned.
pub data Flags : Type 0 where
  sa_restart no_flags unset : Flags

pub data Priority : Type 0 where
  log_err log_info log_debug : Priority

-- A block of the heap: where it is, and what it holds before it is written to.
pub record Block : Type 0 where
  pub addr : ℕ
  pub junk : Bytes

-- A stream of stdio: its handle, and the bytes that reads deliver up to the end or an error.
pub record Stream : Type 0 where
  pub handle : ℕ
  pub content : Bytes

pub data Forked : Type 0 where
  fork_failed in_child : Forked
  in_parent : ℕ → Forked

-- A result of waitpid(2), with the value of errno after the call.
pub record Waited : Type 0 where
  pub result : Option ℕ
  pub errno : ℕ

-- A result of getaddrinfo(3), by the numbers that socket(2), bind(2) and connect(2) are given.
pub record AddrInfo : Type 0 where
  pub family : ℕ
  pub socktype : ℕ
  pub protocol : ℕ
  pub addr : ℕ
  pub addrlen : ℕ

-- The criteria that getaddrinfo(3) is given.
pub record Hints : Type 0 where
  pub family : ℕ
  pub socktype : ℕ
  pub passive : Bool

pub data Call : Type 0 where
  -- files and sockets, by descriptor
  read : ℕ → ℕ → Call
  write : ℕ → Bytes → Call
  lseek_set : ℕ → ℕ → Call
  lseek_end : ℕ → Call
  flock : ℕ → LockOp → Call
  close : ℕ → Call
  open_file : String → ℕ → Call
  dup2 : ℕ → ℕ → Call
  -- streams and the heap
  fopen : Bytes → Call
  fclose : ℕ → Call
  malloc : ℕ → Call
  free : ℕ → Call
  -- processes and signals
  fork : Call
  setsid : Call
  umask : ℕ → Call
  chdir : String → Call
  sysconf_open_max : Call
  kill : ℕ → Signal → Call
  waitpid_any : Call
  pause : Call
  alarm : ℕ → Call
  sigfillset sigemptyset : Call
  sigaddset : Signal → Call
  sigaction : Signal → Handler → Flags → Call
  -- the network
  getaddrinfo : Option Bytes → Bytes → Hints → Call
  freeaddrinfo : Call
  socket : AddrInfo → Call
  connect : ℕ → AddrInfo → Call
  set_reuse_addr : ℕ → Call
  bind : ℕ → AddrInfo → Call
  listen : ℕ → ℕ → Call
  accept : ℕ → Call
  -- the system log, and the diagnostics that `errExit` prints before it ends the process
  openlog : String → Call
  syslog : Priority → String → Call
  diagnose : String → Call
  -- the environment, and the standard streams
  getenv : String → Call
  fflush_stdout fflush_stderr : Call
  fputs_stderr : Bytes → Call
  print : Bytes → Call
  -- pipes, the flags of a descriptor, and a handler of exit(3)
  pipe : Call
  fcntl_getfl : ℕ → Call
  fcntl_set_nonblock : ℕ → ℕ → Call
  atexit_kill_child_processes : Call
  -- the name of a socket's peer: host and service
  getnameinfo : ℕ → ℕ → Call
  -- the screen
  curses : CursesCall → Call

-- `none` and `false` are the result -1 (of `malloc` and `fopen`, the null pointer).
abbrev pub Reply : Call → Type 0
Reply (read _ _) = Option Bytes
Reply (write _ _) = Option ℕ
Reply (lseek_set _ _) = Bool
Reply (lseek_end _) = Option ℕ
Reply (flock _ _) = Bool
Reply (close _) = Unit {0}
Reply (open_file _ _) = Option ℕ
Reply (dup2 _ _) = Option ℕ
Reply (fopen _) = Option Stream
Reply (fclose _) = Unit {0}
Reply (malloc _) = Option Block
Reply (free _) = Unit {0}
Reply fork = Forked
Reply setsid = Bool
Reply (umask _) = Unit {0}
Reply (chdir _) = Unit {0}
Reply sysconf_open_max = Option ℕ
Reply (kill _ _) = Bool
Reply waitpid_any = Waited
Reply pause = Unit {0}
Reply (alarm _) = Unit {0}
Reply sigfillset = Bool
Reply sigemptyset = Bool
Reply (sigaddset _) = Bool
Reply (sigaction _ _ _) = Bool
Reply (getaddrinfo _ _ _) = Option (List AddrInfo)
Reply freeaddrinfo = Unit {0}
Reply (socket _) = Option ℕ
Reply (connect _ _) = Bool
Reply (set_reuse_addr _) = Bool
Reply (bind _ _) = Bool
Reply (listen _ _) = Bool
Reply (accept _) = Option ℕ
Reply (openlog _) = Unit {0}
Reply (syslog _ _) = Unit {0}
Reply (diagnose _) = Unit {0}
Reply (getenv _) = Option Bytes
Reply fflush_stdout = Unit {0}
Reply fflush_stderr = Unit {0}
Reply (fputs_stderr _) = Unit {0}
Reply (print _) = Unit {0}
Reply pipe = Option (ℕ × ℕ)
Reply (fcntl_getfl _) = Option ℕ
Reply (fcntl_set_nonblock _ _) = Bool
Reply atexit_kill_child_processes = Bool
Reply (getnameinfo _ _) = Option (Bytes × Bytes)
Reply (curses q) = CursesReply q
