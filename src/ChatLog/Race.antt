-- ===== src/ChatLog/Race.antt =====
-- Two readers of the chat log whose descriptors are one open file description.
use papaya_chat.Base.{
  ℕ, ◌≡◌, refl, ap, ap₂, ◌∙◌, List, [], ◌∷◌, Option, none, some, Bool, true, not, Bytes, take, drop,
  ◌==◌, if◌then◌else◌,
}
use papaya_chat.Posix.{
  Prog, return, call, sys, ◌>>=◌, Call, Reply, LockOp, lock_sh, lock_un, flock, lseek_set, read,
}
use papaya_chat.Posix.Together.{Shared, together, turn, replace}
use papaya_chat.ChatLog.{shared_read, unlock_after_read}

-- After fork(2) the processes share the lock and the offset of the descriptor: flock(2) never makes
-- one of them wait for another, and lseek(2) of the one moves the other.
pub record OneOffset {S : Type 0} (k : Shared S) (fd : ℕ) (file : S → Bytes) (at : S → ℕ)
    : Type 0 where
  pub locks :
      (i : ℕ) (op : LockOp) (s : S)
      → let (r, s') = k.answer i (flock fd op) s in (r ≡ true) × (file s' ≡ file s) × (at s' ≡ at s)
  pub seeks :
      (i o : ℕ) (s : S)
      → let (r, s') = k.answer i (lseek_set fd o) s in (r ≡ true) × (file s' ≡ file s) × (at s' ≡ o)
  pub reads :
      (i n : ℕ) (s : S) → (k.answer i (read fd n) s).0 ≡ some (take n (drop (at s) (file s)))

abbrev pub two_readers : ℕ → ℕ → ℕ → ℕ → ℕ → Prog (Option Bytes)
two_readers fd n a b i = if i == 0 then shared_read fd n a else shared_read fd n b

-- A call of process `i`, at the head of a schedule.
step :
    {A S : Type 0} (k : Shared S) (i : ℕ) (schedule : List ℕ) (processes : ℕ → Prog A) (s : S)
    (c : Call) (f : Reply c → Prog A)
    → processes i ≡ call c f
    → let (r, s') = k.answer i c s in
      (together k (i ∷ schedule) processes s).processes 0
      ≡ (together k schedule (replace i (f r) processes) s').processes 0
step k i schedule processes s c f e =
    ap
      (λ p.
        let t = turn k i p s in
        (together k schedule (replace i t.rest processes) t.state).processes 0)
      e

-- Where two readers share one offset and no lock makes them wait: if the second one sets the offset
-- between the lseek(2) and the read(2) of the first, then the first returns what stands at the
-- offset that the second asked for.
pub shared_read-race :
    {S : Type 0} (k : Shared S) (fd n a b : ℕ) (file : S → Bytes) (at : S → ℕ)
    → OneOffset k fd file at
    → (s : S)
    → (together k (0 ∷ 0 ∷ 1 ∷ 1 ∷ 0 ∷ 0 ∷ []) (two_readers fd n a b) s).processes 0
      ≡ return (some (take n (drop b (file s))))
unfolding shared_read unlock_after_read
shared_read-race k fd n a b file at one s =
    let s₁ = (k.answer 0 (flock fd lock_sh) s).1 in
    let s₂ = (k.answer 0 (lseek_set fd a) s₁).1 in
    let s₃ = (k.answer 1 (flock fd lock_sh) s₂).1 in
    let s₄ = (k.answer 1 (lseek_set fd b) s₃).1 in
    let (l₁, f₁, _) = one.locks 0 lock_sh s in
    let (l₂, f₂, _) = one.seeks 0 a s₁ in
    let (l₃, f₃, _) = one.locks 1 lock_sh s₂ in
    let (l₄, f₄, o₄) = one.seeks 1 b s₃ in
    let s₅ = (k.answer 0 (read fd n) s₄).1 in
    let same : file s₄ ≡ file s = f₄ ∙ f₃ ∙ f₂ ∙ f₁ in
    let text = take n (drop b (file s)) in
    let got : (k.answer 0 (read fd n) s₄).0 ≡ some text =
      one.reads 0 n s₄ ∙ ap₂ (λ o l. some (take n (drop o l))) o₄ same in
    let read_at : Bool → Prog (Option Bytes) =
      λ moved. if not moved then return none else (sys (read fd n) >>= unlock_after_read fd) in
    let seek_at : ℕ → Bool → Prog (Option Bytes) =
      λ o locked. if not locked then return none else (sys (lseek_set fd o) >>= read_at) in
    let give : Bool → Prog (Option Bytes) =
      λ unlocked. if not unlocked then return none else return (some text) in
    let p₁ = replace 0 (seek_at a (k.answer 0 (flock fd lock_sh) s).0) (two_readers fd n a b) in
    let p₂ = replace 0 (read_at (k.answer 0 (lseek_set fd a) s₁).0) p₁ in
    let p₃ = replace 1 (seek_at b (k.answer 1 (flock fd lock_sh) s₂).0) p₂ in
    let p₄ = replace 1 (read_at (k.answer 1 (lseek_set fd b) s₃).0) p₃ in
    let p₅ = replace 0 (unlock_after_read fd (k.answer 0 (read fd n) s₄).0) p₄ in
    step k 0 (0 ∷ 1 ∷ 1 ∷ 0 ∷ 0 ∷ []) (two_readers fd n a b) s (flock fd lock_sh) (seek_at a) refl
    ∙ step k 0 (1 ∷ 1 ∷ 0 ∷ 0 ∷ []) p₁ s₁ (lseek_set fd a) read_at (ap (seek_at a) l₁)
    ∙ step k 1 (1 ∷ 0 ∷ 0 ∷ []) p₂ s₂ (flock fd lock_sh) (seek_at b) refl
    ∙ step k 1 (0 ∷ 0 ∷ []) p₃ s₃ (lseek_set fd b) read_at (ap (seek_at b) l₃)
    ∙ step k 0 (0 ∷ []) p₄ s₄ (read fd n) (unlock_after_read fd) (ap read_at l₂)
    ∙ step k 0 [] p₅ s₅ (flock fd lock_un) give (ap (unlock_after_read fd) got)
    ∙ ap give (one.locks 0 lock_un s₅).0
