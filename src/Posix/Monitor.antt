-- ===== src/Posix/Monitor.antt =====
-- What a trace of calls shows: the resources that are held after it, and the data that moved.
use papaya_chat.Base.{
  ℕ, List, [], ◌∷◌, ◌++◌, none, some, Bool, true, false, Bytes, take, ◌==◌, if◌then◌else◌,
}
use papaya_chat.Posix.{
  Call, Reply, Event, LockOp, Signal, read, write, flock, close, fopen, fclose, malloc, free,
  socket, accept, listen, kill,
}

abbrev pub remove : ℕ → List ℕ → List ℕ
remove a [] = []
remove a (b ∷ bs) = if a == b then bs else b ∷ remove a bs

-- The blocks of the heap that are held.
abbrev pub heap_step : (c : Call) → Reply c → List ℕ → List ℕ
heap_step (malloc _) (some b) held = b.addr ∷ held
heap_step (malloc _) none held = held
heap_step (free a) r held = remove a held
heap_step _ r held = held

abbrev pub heap : List ℕ → List Event → List ℕ
heap held [] = held
heap held (e ∷ es) = heap (heap_step e.asked e.reply held) es

-- The streams that are open.
abbrev pub stream_step : (c : Call) → Reply c → List ℕ → List ℕ
stream_step (fopen _) (some f) held = f.handle ∷ held
stream_step (fopen _) none held = held
stream_step (fclose a) r held = remove a held
stream_step _ r held = held

abbrev pub streams : List ℕ → List Event → List ℕ
streams held [] = held
streams held (e ∷ es) = streams (stream_step e.asked e.reply held) es

-- The descriptors of sockets that are open.
abbrev pub socket_step : (c : Call) → Reply c → List ℕ → List ℕ
socket_step (socket _) (some fd) held = fd ∷ held
socket_step (socket _) none held = held
socket_step (accept _) (some fd) held = fd ∷ held
socket_step (accept _) none held = held
socket_step (close fd) r held = remove fd held
socket_step _ r held = held

abbrev pub sockets : List ℕ → List Event → List ℕ
sockets held [] = held
sockets held (e ∷ es) = sockets (socket_step e.asked e.reply held) es

-- The descriptors on which listen(2) failed.
abbrev pub deaf_step : (c : Call) → Reply c → List ℕ
deaf_step (listen fd _) false = fd ∷ []
deaf_step (listen fd _) true = []
deaf_step _ r = []

abbrev pub deaf : List Event → List ℕ
deaf [] = []
deaf (e ∷ es) = deaf_step e.asked e.reply ++ deaf es

-- The lock that the process took last on a descriptor, by the calls that succeeded.
abbrev pub lock_step : ℕ → (c : Call) → Reply c → LockOp → LockOp
lock_step fd (flock fd' op) true held = if fd == fd' then op else held
lock_step fd (flock fd' op) false held = held
lock_step fd _ r held = held

abbrev pub lock_of : ℕ → LockOp → List Event → LockOp
lock_of fd held [] = held
lock_of fd held (e ∷ es) = lock_of fd (lock_step fd e.asked e.reply held) es

-- The bytes that write(2) took on a descriptor, in order.
abbrev pub taken : ℕ → (c : Call) → Reply c → Bytes
taken fd (write fd' bs) (some n) = if fd == fd' then take n bs else []
taken fd (write fd' bs) none = []
taken fd _ r = []

abbrev pub written : ℕ → List Event → Bytes
written fd [] = []
written fd (e ∷ es) = taken fd e.asked e.reply ++ written fd es

-- The bytes that read(2) gave on a descriptor, in order.
abbrev pub given : ℕ → (c : Call) → Reply c → Bytes
given fd (read fd' n) (some bs) = if fd == fd' then bs else []
given fd (read fd' n) none = []
given fd _ r = []

abbrev pub received : ℕ → List Event → Bytes
received fd [] = []
received fd (e ∷ es) = given fd e.asked e.reply ++ received fd es

-- How often a signal was sent to a process, or to the group (0).
abbrev pub signal_eq : Signal → Signal → Bool
signal_eq Signal.sigchld Signal.sigchld = true
signal_eq Signal.sigusr1 Signal.sigusr1 = true
signal_eq Signal.sigterm Signal.sigterm = true
signal_eq Signal.sigalrm Signal.sigalrm = true
signal_eq _ _ = false

abbrev pub sends : ℕ → Signal → (c : Call) → Reply c → List (Unit {0})
sends pid s (kill pid' s') true =
    if pid == pid' then (if signal_eq s s' then tt ∷ [] else []) else []
sends pid s (kill pid' s') false = []
sends pid s _ r = []

abbrev pub signals : ℕ → Signal → List Event → List (Unit {0})
signals pid s [] = []
signals pid s (e ∷ es) = sends pid s e.asked e.reply ++ signals pid s es
