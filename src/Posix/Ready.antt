-- ===== src/Posix/Ready.antt =====
-- The dispositions that a process has when it accepts a connection.
use papaya_chat.Base.{◌≡◌, refl, List, [], ◌∷◌, Bool, true, false, ◌&&◌, ◌||◌, arith}
use papaya_chat.Posix.{
  Prog, return, ends, spent, call, ◌>>=◌, Call, Reply, Event, Kernel, run, accept, sigaction,
  sigusr1, sigterm, sig_ign, term_handler,
}
use papaya_chat.Posix.Only.{Only}

-- Calls that make the process ignore SIGUSR1, and that give SIGTERM its handler.
abbrev pub ignores : (c : Call) → Reply c → Bool
ignores (sigaction sigusr1 sig_ign flags) r = r
ignores _ r = false

abbrev pub handles : (c : Call) → Reply c → Bool
handles (sigaction sigterm term_handler flags) r = r
handles _ r = false

-- accept(2) comes only after both.
abbrev pub may : Bool → Bool → Call → Bool
may ignored handled (accept fd) = ignored && handled
may ignored handled c = true

abbrev pub accepts_ready : Bool → Bool → List Event → Bool
accepts_ready ignored handled [] = true
accepts_ready ignored handled (e ∷ es) =
    may ignored handled e.asked
    && accepts_ready (ignores e.asked e.reply || ignored) (handles e.asked e.reply || handled) es

-- The same of a program, whatever the replies.
abbrev pub Ready : {A : Type 0} → Bool → Bool → Prog A → Type 0
Ready ignored handled (return a) = Unit
Ready ignored handled (ends x) = Unit
Ready ignored handled spent = Unit
Ready ignored handled (call c f) =
    (may ignored handled c ≡ true)
    × ((r : Reply c) → Ready (ignores c r || ignored) (handles c r || handled) (f r))

-- A program that accepts nothing.
abbrev pub AcceptsNone : {A : Type 0} → Prog A → Type 0
AcceptsNone p = Only (may false false) p

may-ready :
    (ignored handled : Bool) (c : Call) → may false false c ≡ true → may ignored handled c ≡ true
may-ready i h (accept fd) e = cc
may-ready i h c e = refl

pub Ready-bind :
    {A B : Type 0} (m : Prog A) (f : A → Prog B)
    → AcceptsNone m
    → ((ignored handled : Bool) (a : A) → Ready ignored handled (f a))
    → (ignored handled : Bool) → Ready ignored handled (m >>= f)
Ready-bind (return a) f h g i j = g i j a
Ready-bind (ends x) f h g i j = tt
Ready-bind spent f h g i j = tt
Ready-bind (call c m) f h g i j = (may-ready i j c h.0, λ r. Ready-bind (m r) f (h.1 r) g _ _)

may-both : (c : Call) → may true true c ≡ true
may-both (accept fd) = refl
may-both c = refl

or-true : (b : Bool) → (b || true) ≡ true
or-true b = ground arith

-- After both, everything may follow.
pub Ready-true : {A : Type 0} (p : Prog A) → Ready true true p
Ready-true (return a) = tt
Ready-true (ends x) = tt
Ready-true spent = tt
Ready-true (call c f) =
    (may-both c, λ r. rw (or-true (ignores c r), or-true (handles c r)) (Ready-true (f r)))

pub run-Ready :
    {A S : Type 0} (k : Kernel S) (p : Prog A) (s : S) (ignored handled : Bool)
    → Ready ignored handled p
    → accepts_ready ignored handled (run k p s).trace ≡ true
run-Ready k (return a) s i j h = refl
run-Ready k (ends x) s i j h = refl
run-Ready k spent s i j h = refl
run-Ready k (call c f) s i j h =
    let (r, s') = k.answer c s in rw h.0 (run-Ready k (f r) s' _ _ (h.1 r))
