-- ===== src/Posix.antt =====
-- The system calls of the C files, as the nodes of a program tree.
--
-- A C function that makes system calls is a tree: each node is one call, with a branch for each
-- reply. The kernel and the C allocator are not part of the repository: they are the parameter
-- `Kernel`, a function from calls to replies over a state of its own, on which nothing is assumed
-- unless a theorem names it.
mod Calls
mod Curses
pub mod Monitor
pub mod Runs
pub mod Live
pub mod Only
pub mod Together
pub mod Group
pub mod Ready
pub mod Disposition
pub use Calls.*
pub use Curses.*
use papaya_chat.Base.{ℕ, zero, suc, List, [], ◌∷◌}
use Prim.Native.String.{String}

-- How a process ends: by exit(3), by _exit(2), by abort(3), or replaced by another program. After
-- `undefined` the C standard says nothing of it.
pub data Exit : Type 0 where
  exit exit_now : ℕ → Exit
  abort undefined : Exit
  exec : String → Exit

-- `spent` is a loop that was given no more rounds: the process still runs.
pub data Prog (A : Type 0) : Type 0 where
  return : A → Prog A
  ends : Exit → Prog A
  spent : Prog A
  call : (c : Call) → (Reply c → Prog A) → Prog A

infixl 5 ◌>>=◌ ◌>>◌
abbrev pub ◌>>=◌ : {A B : Type 0} → Prog A → (A → Prog B) → Prog B
return a >>= f = f a
ends e >>= f = ends e
spent >>= f = spent
call c k >>= f = call c (λ r. k r >>= f)

abbrev pub ◌>>◌ : {A B : Type 0} → Prog A → Prog B → Prog B
m >> n = m >>= λ _. n

-- A call whose reply is the result.
abbrev pub sys : (c : Call) → Prog (Reply c)
sys c = call c return

pub record Event : Type 0 where
  pub asked : Call
  pub reply : Reply asked

pub data Outcome (A : Type 0) : Type 0 where
  returned : A → Outcome A
  ended : Exit → Outcome A
  running : Outcome A

pub record Run (A S : Type 0) : Type 0 where
  pub trace : List Event
  pub outcome : Outcome A
  pub final : S

pub record Kernel (S : Type 0) : Type 0 where
  pub answer : (c : Call) → S → Reply c × S

abbrev pub after : {A S : Type 0} → Event → Run A S → Run A S
after e r = record r { trace = e ∷ r.trace }

-- What one process does under a kernel: its calls with their replies, and how it comes out.
abbrev pub run : {A S : Type 0} → Kernel S → Prog A → S → Run A S
run k (return a) s = record { trace = []; outcome = returned a; final = s }
run k (ends e) s = record { trace = []; outcome = ended e; final = s }
run k spent s = record { trace = []; outcome = running; final = s }
run k (call c f) s =
    let (r, s') = k.answer c s in after (record { asked = c; reply = r }) (run k (f r) s')
