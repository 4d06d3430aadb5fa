-- ===== src/Posix/Together.antt =====
-- Several processes under one kernel: a schedule says which process makes the next call.
pub mod Log
use papaya_chat.Base.{
  ℕ, ◌≡◌, refl, sym, ap, subst, ◌∙◌, List, [], ◌∷◌, ◌++◌, append_assoc, append-nil, true, false,
  Bytes, ◌==◌, if◌then◌else◌, inl, inr, Bool-cases, ==_iff, arith,
}
use papaya_chat.Posix.{
  Prog, return, ends, spent, call, Call, Reply, Event, Kernel, run, Run, Outcome, ended, Exit,
}
use papaya_chat.Posix.Monitor.{written, taken}
use papaya_chat.Posix.Runs.{written-append}

-- The reply may depend on who asks.
pub record Shared (S : Type 0) : Type 0 where
  pub answer : ℕ → (c : Call) → S → Reply c × S

-- One call of a process, if it has one to make.
pub record Turn (A S : Type 0) : Type 0 where
  pub made : List Event
  pub rest : Prog A
  pub state : S

abbrev pub turn : {A S : Type 0} → Shared S → ℕ → Prog A → S → Turn A S
turn k i (call c f) s =
    let (r, s') = k.answer i c s in
    record { made = record { asked = c; reply = r } ∷ []; rest = f r; state = s' }
turn k i p s = record { made = []; rest = p; state = s }

pub record By : Type 0 where
  pub who : ℕ
  pub event : Event

abbrev pub by : ℕ → List Event → List By
by i [] = []
by i (e ∷ es) = record { who = i; event = e } ∷ by i es

abbrev pub replace : {A : Type 0} → ℕ → Prog A → (ℕ → Prog A) → ℕ → Prog A
replace i p processes j = if j == i then p else processes j

pub record Together (A S : Type 0) : Type 0 where
  pub history : List By
  pub processes : ℕ → Prog A
  pub final : S

abbrev pub together : {A S : Type 0} → Shared S → List ℕ → (ℕ → Prog A) → S → Together A S
together k [] processes s = record { history = []; processes = processes; final = s }
together k (i ∷ schedule) processes s =
    let t = turn k i (processes i) s in
    let r = together k schedule (replace i t.rest processes) t.state in
    record r { history = by i t.made ++ r.history }

-- The calls of one process, and those of all.
abbrev pub local : ℕ → List By → List Event
local i [] = []
local i (b ∷ bs) = if i == b.who then b.event ∷ local i bs else local i bs

abbrev pub all_events : List By → List Event
all_events [] = []
all_events (b ∷ bs) = b.event ∷ all_events bs

pub local-by_self :
    (i : ℕ) (es : List Event) (h : List By) → local i (by i es ++ h) ≡ es ++ local i h
local-by_self i [] h = refl
local-by_self i (e ∷ es) h =
    let same : (i == i) ≡ true = ground arith in rw same (ap (◌∷◌ e) (local-by_self i es h))

pub local-by_other :
    (i j : ℕ) (es : List Event) (h : List By)
    → (i == j) ≡ false
    → local i (by j es ++ h) ≡ local i h
local-by_other i j [] h e = refl
local-by_other i j (x ∷ es) h e = rw e (local-by_other i j es h e)

pub all_events-by :
    (i : ℕ) (es : List Event) (h : List By) → all_events (by i es ++ h) ≡ es ++ all_events h
all_events-by i [] h = refl
all_events-by i (e ∷ es) h = ap (◌∷◌ e) (all_events-by i es h)

local-none : (i j : ℕ) (xs : List Event) → (i == j) ≡ false → local i (by j xs) ≡ []
local-none i j [] e = refl
local-none i j (x ∷ xs) e = rw e (local-none i j xs e)

module _ (i j : ℕ) (es xs : List Event) where
  pub local-first : (i == j) ≡ false → local i (by i es ++ by j xs) ≡ es
  local-first e =
      local-by_self i es (by j xs) ∙ ap (λ l. es ++ l) (local-none i j xs e) ∙ append-nil es

  pub local-second : (j == i) ≡ false → local j (by i es ++ by j xs) ≡ xs
  local-second e =
      local-by_other j i es (by j xs) e
      ∙ ap (local j) (sym (append-nil (by j xs)))
      ∙ local-by_self j xs []
      ∙ append-nil xs

-- The replies that one process was given, whatever the others did in between; then the kernel's own.
abbrev pub Replies : Type 0
Replies = (c : Call) → Reply c

abbrev alone_answer :
    {S : Type 0} → Shared S → ℕ → (c : Call) → List Replies × S → Reply c × (List Replies × S)
alone_answer k i c ([], s) = let (r, s') = k.answer i c s in (r, ([], s'))
alone_answer k i c (reply ∷ replies, s) = (reply c, (replies, s))

abbrev pub alone : {S : Type 0} → Shared S → ℕ → Kernel (List Replies × S)
alone k i = record { answer = λ c p. alone_answer k i c p }

abbrev pub afters : {A S : Type 0} → List Event → Run A S → Run A S
afters es r = record r { trace = es ++ r.trace }

turn-alone :
    {A S : Type 0} (k : Shared S) (i : ℕ) (p : Prog A) (s t : S) (replies : List Replies)
    → let now = turn k i p s in
      (before : List Replies) × (run (alone k i) p (before, t)
        ≡ afters now.made (run (alone k i) now.rest (replies, t)))
turn-alone k i (call c f) s t replies = ((λ c. (k.answer i c s).0) ∷ replies, refl)
turn-alone k i (return a) s t replies = (replies, refl)
turn-alone k i (ends x) s t replies = (replies, refl)
turn-alone k i spent s t replies = (replies, refl)

-- A history in which process `i` did what it does alone.
abbrev IsAlone : {A S : Type 0} → Shared S → ℕ → Prog A → S → Together A S → Type 0
IsAlone k i p t r =
    (replies : List Replies) × (run (alone k i) p (replies, t)
      ≡ afters (local i r.history) (run (alone k i) (r.processes i) ([], t)))

own_turn :
    {A S : Type 0} (k : Shared S) (schedule : List ℕ) (processes : ℕ → Prog A) (s t : S) (i : ℕ)
    → let now = turn k i (processes i) s in
      let later = replace i now.rest processes in
      IsAlone k i (later i) t (together k schedule later now.state)
      → IsAlone k i (processes i) t (together k (i ∷ schedule) processes s)
own_turn k schedule processes s t i (replies, same) =
    let now = turn k i (processes i) s in
    let r = together k schedule (replace i now.rest processes) now.state in
    let self : (i == i) ≡ true = ground arith in
    let rest_is : run (alone k i) now.rest (replies, t)
        ≡ afters (local i r.history) (run (alone k i) (r.processes i) ([], t)) =
      subst
        (λ b.
          run (alone k i) (if b then now.rest else processes i) (replies, t)
          ≡ afters (local i r.history) (run (alone k i) (r.processes i) ([], t)))
        self same in
    let (before, first) = turn-alone k i (processes i) s t replies in
    (
      before,
      first
          ∙ ap (afters now.made) rest_is
          ∙ ap (λ es. record (run (alone k i) (r.processes i) ([], t)) { trace = es })
              (sym (
                  append_assoc now.made (local i r.history)
                    (run (alone k i) (r.processes i) ([], t)).trace)
                ∙ ap (λ es. es ++ (run (alone k i) (r.processes i) ([], t)).trace)
                    (sym (local-by_self i now.made r.history))),
    )

other_turn :
    {A S : Type 0} (k : Shared S) (j : ℕ) (schedule : List ℕ) (processes : ℕ → Prog A) (s t : S)
    (i : ℕ)
    → (i == j) ≡ false
    → let now = turn k j (processes j) s in
      let later = replace j now.rest processes in
      IsAlone k i (later i) t (together k schedule later now.state)
      → IsAlone k i (processes i) t (together k (j ∷ schedule) processes s)
other_turn k j schedule processes s t i e (replies, same) =
    let now = turn k j (processes j) s in
    let r = together k schedule (replace j now.rest processes) now.state in
    let same' =
      subst
        (λ b.
          run (alone k i) (if b then now.rest else processes i) (replies, t)
          ≡ afters (local i r.history) (run (alone k i) (r.processes i) ([], t)))
        e same in
    (
      replies,
      same'
          ∙ ap (λ es. afters es (run (alone k i) (r.processes i) ([], t)))
              (sym (local-by_other i j now.made r.history e)),
    )

-- What one process does among the others is a run of it alone, under the kernel that gives it the
-- replies that it was given.
pub together-IsAlone :
    {A S : Type 0} (k : Shared S) (schedule : List ℕ) (processes : ℕ → Prog A) (s t : S) (i : ℕ)
    → IsAlone k i (processes i) t (together k schedule processes s)
together-IsAlone k [] processes s t i = ([], refl)
together-IsAlone k (j ∷ schedule) processes s t i = elim (Bool-cases (i == j)) [
  | inl e ↦
      subst (λ j. IsAlone k i (processes i) t (together k (j ∷ schedule) processes s))
        ((==_iff i j).0 e)
        (own_turn k schedule processes s t i (
          together-IsAlone k schedule (replace i (turn k i (processes i) s).rest processes)
            (turn k i (processes i) s).state t i))
  | inr e ↦ other_turn k j schedule processes s t i e (
      together-IsAlone k schedule (replace j (turn k j (processes j) s).rest processes)
        (turn k j (processes j) s).state t i)
]

-- A property of every run of a process alone holds of what it did among the others, once it ended.
pub together-ended :
    {A S : Type 0} (k : Shared S) (schedule : List ℕ) (processes : ℕ → Prog A) (s : S) (i : ℕ)
    (x : Exit) (P : Outcome A → List Event → Type 0)
    → ((replies : List Replies)
        → let r = run (alone k i) (processes i) (replies, s) in P r.outcome r.trace)
    → let r = together k schedule processes s in
      r.processes i ≡ ends x → P (ended x) (local i r.history)
together-ended k schedule processes s i x P always e =
    let r = together k schedule processes s in
    let (replies, same) = together-IsAlone k schedule processes s s i in
    let last : run (alone k i) (processes i) (replies, s)
        ≡ record { trace = local i r.history; outcome = ended x; final = ([], s) } =
      same
      ∙ ap (λ p. afters (local i r.history) (run (alone k i) p ([], s))) e
      ∙ ap (λ es. record { trace = es; outcome = ended x; final = ([], s) })
          (append-nil (local i r.history)) in
    subst (λ o. P o.outcome o.trace) last (always replies)
