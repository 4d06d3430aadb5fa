-- ===== src/Posix/Group.antt =====
-- The processes of one process group as a step relation: any process that does not wait makes its
-- next call. One that waits in pause(2) goes on when SIGUSR1 is sent to the group. Where the signal
-- finds a process elsewhere its handler returns, and the process is where it was; whether a call that
-- it interrupts then fails is the kernel's reply. SIGTERM ends a process. The number of a process is
-- its pid.
pub mod Alone
pub mod Ended
use papaya_chat.Base.{
  ap₂, ℕ, ◌≡◌, refl, sym, ap, subst, ◌∙◌, List, [], ◌∷◌, ◌++◌, append_assoc, append-nil, Bool, true,
  false, Bytes, ◌==◌, if◌then◌else◌, arith, inl, inr, Bool-cases, ◌⊎◌, ==_iff,
}
use papaya_chat.Posix.{
  Signal, sigchld, sigalrm, sigterm, Exit, Prog, return, ends, spent, call, ◌>>=◌, Call, Reply,
  Event, Kernel, run, Run, Outcome, returned, sigusr1, pause, kill,
}
use papaya_chat.Posix.Monitor.{signal_eq, sends, signals, written, taken}
use papaya_chat.Posix.Live.{plain, calm}
use papaya_chat.Posix.Runs.{signals-append, written-append}
use papaya_chat.Posix.Together.{Shared, By, by, local, all_events}

pub record Group (A S : Type 0) : Type 0 where
  pub processes : ℕ → Prog A
  pub state : S

abbrev pub moves : Call → Bool
moves pause = false
moves c = true

pub calm-moves : (c : Call) → calm c ≡ true → moves c ≡ true
calm-moves pause e = cc
calm-moves c e = refl

append-nil_left : (us vs : List (Unit {0})) → us ++ vs ≡ [] → us ≡ []
append-nil_left [] vs h = refl
append-nil_left (u ∷ us) vs h = cc

append-nil_right : (us vs : List (Unit {0})) → us ++ vs ≡ [] → vs ≡ []
append-nil_right [] vs h = h
append-nil_right (u ∷ us) vs h = cc

-- One signal, and several, at a process.
abbrev pub woken : {A : Type 0} → Prog A → Prog A
woken (call pause f) = f tt
woken p = p

abbrev pub woken_by : {A : Type 0} → List (Unit {0}) → Prog A → Prog A
woken_by [] p = p
woken_by (u ∷ us) p = woken_by us (woken p)

-- SIGTERM ends a process by its handler; a process that has ended stays as it is.
abbrev pub struck : {A : Type 0} → Exit → List (Unit {0}) → Prog A → Prog A
struck x [] p = p
struck x (u ∷ us) (ends y) = ends y
struck x (u ∷ us) p = ends x

-- The signals SIGTERM of a call that reach process `j`, and those of a list of calls.
abbrev pub strikes : ℕ → (c : Call) → Reply c → List (Unit {0})
strikes j c r = sends 0 sigterm c r ++ sends j sigterm c r

abbrev pub all_strikes : ℕ → List Event → List (Unit {0})
all_strikes j [] = []
all_strikes j (e ∷ es) = strikes j e.asked e.reply ++ all_strikes j es

sends-other :
    (x y : Signal) (j pid : ℕ) (r : Bool) → signal_eq x y ≡ false → sends j x (kill pid y) r ≡ []
sends-other x y j pid true e = elim (Bool-cases (j == pid)) [
  | inl e' ↦ rw (e', e) refl
  | inr e' ↦ rw e' refl
]
sends-other x y j pid false e = refl

pub plain-strikes : (j : ℕ) (c : Call) (r : Reply c) → plain c ≡ true → strikes j c r ≡ []
plain-strikes j (kill pid sigterm) r e = cc
plain-strikes j (kill pid sigusr1) r e =
    ap₂ ◌++◌ (sends-other sigterm sigusr1 0 pid r refl) (sends-other sigterm sigusr1 j pid r refl)
plain-strikes j (kill pid sigchld) r e =
    ap₂ ◌++◌ (sends-other sigterm sigchld 0 pid r refl) (sends-other sigterm sigchld j pid r refl)
plain-strikes j (kill pid sigalrm) r e =
    ap₂ ◌++◌ (sends-other sigterm sigalrm 0 pid r refl) (sends-other sigterm sigalrm j pid r refl)
plain-strikes j c r e = refl

-- The group after process `i` was given the reply `r`; `x` is how SIGTERM ends a process.
abbrev pub moved :
    {A S : Type 0} → Group A S → ℕ → (c : Call) → Reply c → Exit → Prog A → S → Group A S
moved g i c r x rest s = record {
  processes = λ j.
      struck x (strikes j c r)
        (if j == i then rest else woken_by (sends 0 sigusr1 c r) (g.processes j));
  state = s;
}

pub data Step {A S : Type 0} (k : Shared S) (g : Group A S) : By → Group A S → Type 0 where
  makes :
      (i : ℕ) (c : Call) (f : Reply c → Prog A) (x : Exit)
      → g.processes i ≡ call c f
      → moves c ≡ true
      → Step k g
          (record { who = i; event = record { asked = c; reply = (k.answer i c g.state).0 } })
          (moved g i c
            (k.answer i c g.state).0
            x
            (f (k.answer i c g.state).0)
            (k.answer i c g.state).1)

pub data Steps {A S : Type 0} (k : Shared S) : Group A S → List By → Group A S → Type 0 where
  stop : (g : Group A S) → Steps k g [] g
  later :
      {g m e : Group A S} {b : By} {h : List By}
      → Step k g b m
      → Steps k m h e
      → Steps k g (b ∷ h) e

pub Steps-append :
    {A S : Type 0} {k : Shared S} {g m e : Group A S} {h l : List By}
    → Steps k g h m
    → Steps k m l e
    → Steps k g (h ++ l) e
Steps-append (stop g) t = t
Steps-append (later st r) t = later st (Steps-append r t)

pub woken_by-append :
    {A : Type 0} (us vs : List (Unit {0})) (p : Prog A)
    → woken_by (us ++ vs) p ≡ woken_by vs (woken_by us p)
woken_by-append [] vs p = refl
woken_by-append (u ∷ us) vs p = woken_by-append us vs (woken p)

module _ {A S : Type 0} (g : Group A S) (i : ℕ) (c : Call) (r : Reply c) (x : Exit) (rest : Prog A)
    (s : S) where
  pub moved_at :
      (j : ℕ) → (j == i) ≡ true → strikes j c r ≡ [] → (moved g i c r x rest s).processes j ≡ rest
  moved_at j e e' = rw (e, e') refl

  pub moved_self : strikes i c r ≡ [] → (moved g i c r x rest s).processes i ≡ rest
  moved_self e' = moved_at i (ground arith) e'

  pub moved_other :
      (j : ℕ)
      → (j == i) ≡ false
      → strikes j c r ≡ []
      → (moved g i c r x rest s).processes j ≡ woken_by (sends 0 sigusr1 c r) (g.processes j)
  moved_other j e e' = rw (e, e') refl

pub all_strikes-head :
    (j : ℕ) (e : Event) (es : List Event)
    → all_strikes j (e ∷ es) ≡ []
    → strikes j e.asked e.reply ≡ []
all_strikes-head j e es h = append-nil_left (strikes j e.asked e.reply) (all_strikes j es) h

pub all_strikes-tail :
    (j : ℕ) (e : Event) (es : List Event) → all_strikes j (e ∷ es) ≡ [] → all_strikes j es ≡ []
all_strikes-tail j e es h = append-nil_right (strikes j e.asked e.reply) (all_strikes j es) h

-- A process that made no call is where the signals have brought it.
pub Steps-woken_by :
    {A S : Type 0} {k : Shared S} {g e : Group A S} {h : List By} (j : ℕ)
    → Steps k g h e
    → all_strikes j (all_events h) ≡ []
    → local j h ≡ []
    → e.processes j ≡ woken_by (signals 0 sigusr1 (all_events h)) (g.processes j)
Steps-woken_by j (stop g) n q = refl
Steps-woken_by {k = k} {g = g} j (later {h = h} (makes i c f x p w) t) n q =
    let (r, s) = k.answer i c g.state in
    let ev : Event = record { asked = c; reply = r } in
    let others : (j == i) ≡ false = ground arith in
    let still : local j h ≡ [] = ground arith in
    Steps-woken_by j t (all_strikes-tail j ev (all_events h) n) still
    ∙ ap (woken_by (signals 0 sigusr1 (all_events h)))
        (moved_other g i c r x (f r) s j others (all_strikes-head j ev (all_events h) n))
    ∙ sym (woken_by-append (sends 0 sigusr1 c r) (signals 0 sigusr1 (all_events h)) (g.processes j))

-- While every write(2) to a file appends what it takes and nothing else changes the file, it holds
-- what all the processes wrote, in the order of the calls.
pub Steps-log :
    {A S : Type 0} {k : Shared S} {g e : Group A S} {h : List By} (fd : ℕ) (log : S → Bytes)
    → ((i : ℕ) (c : Call) (s : S) → let (r, s') = k.answer i c s in log s' ≡ log s ++ taken fd c r)
    → Steps k g h e
    → log e.state ≡ log g.state ++ written fd (all_events h)
Steps-log fd log appends (stop g) = sym (append-nil (log g.state))
Steps-log {k = k} {g = g} fd log appends (later {h = h} (makes i c f x p w) t) =
    let (r, s) = k.answer i c g.state in
    Steps-log fd log appends t
    ∙ ap (λ l. l ++ written fd (all_events h)) (appends i c g.state)
    ∙ append_assoc (log g.state) (taken fd c r) (written fd (all_events h))
