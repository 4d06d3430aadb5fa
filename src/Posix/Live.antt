-- ===== src/Posix/Live.antt =====
-- Programs that come to an end by themselves, without waiting in pause(2), that leave the
-- dispositions of signals as they are and send no SIGTERM.
use papaya_chat.Base.{◌≡◌, ◌≢◌, refl, Bool, true, false, not, if◌then◌else◌}
use papaya_chat.Posix.{
  Prog, return, ends, spent, call, ◌>>=◌, Call, Reply, Kernel, run, running, pause, sigaction, kill,
  sigterm,
}
use papaya_chat.Posix.Only.{Only}

abbrev pub plain : Call → Bool
plain pause = false
plain (sigaction x h f) = false
plain (kill pid sigterm) = false
plain c = true

-- The same but for SIGTERM.
abbrev pub calm : Call → Bool
calm pause = false
calm (sigaction x h f) = false
calm c = true

pub plain-calm : (c : Call) → plain c ≡ true → calm c ≡ true
plain-calm pause e = cc
plain-calm (sigaction x h f) e = cc
plain-calm c e = refl

abbrev pub Live : {A : Type 0} → Prog A → Type 0
Live (return a) = Unit
Live (ends e) = Unit
Live spent = ⊥
Live (call c f) = (plain c ≡ true) × ((r : Reply c) → Live (f r))

pub Live-bind :
    {A B : Type 0} (m : Prog A) (f : A → Prog B) → Live m → ((a : A) → Live (f a)) → Live (m >>= f)
Live-bind (return a) f h g = g a
Live-bind (ends e) f h g = tt
Live-bind spent f h g = absurd h
Live-bind (call c m) f h g = (h.0, λ r. Live-bind (m r) f (h.1 r) g)

pub run-Live :
    {A S : Type 0} (k : Kernel S) (p : Prog A) (s : S) → Live p → (run k p s).outcome ≢ running
run-Live k (return a) s h = λ e. cc
run-Live k (ends x) s h = λ e. cc
run-Live k spent s h = absurd h
run-Live k (call c f) s h = run-Live k (f (k.answer c s).0) (k.answer c s).1 (h.1 (k.answer c s).0)

pub Live-Only :
    {A : Type 0} (kind : Call → Bool) (p : Prog A)
    → ((c : Call) → plain c ≡ true → kind c ≡ true)
    → Live p
    → Only kind p
Live-Only kind (return a) g h = tt
Live-Only kind (ends x) g h = tt
Live-Only kind spent g h = tt
Live-Only kind (call c f) g h = (g c h.0, λ r. Live-Only kind (f r) g (h.1 r))

pub if_not-Live :
    {A : Type 0} (b : Bool) (p q : Prog A) → Live p → Live q → Live (if not b then p else q)
if_not-Live true p q h g = g
if_not-Live false p q h g = h
