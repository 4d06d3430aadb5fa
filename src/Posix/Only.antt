-- ===== src/Posix/Only.antt =====
-- Programs that make only calls of one kind, whatever the replies.
use papaya_chat.Base.{◌≡◌, List, [], ◌∷◌, ◌++◌, Bool, true, false, if◌then◌else◌}
use papaya_chat.Posix.{Prog, return, ends, spent, call, ◌>>=◌, Call, Reply, Event, Kernel, run}

abbrev pub Only : {A : Type 0} → (Call → Bool) → Prog A → Type 0
Only kind (return a) = Unit
Only kind (ends e) = Unit
Only kind spent = Unit
Only kind (call c f) = (kind c ≡ true) × ((r : Reply c) → Only kind (f r))

pub Only-bind :
    {A B : Type 0} (kind : Call → Bool) (m : Prog A) (f : A → Prog B)
    → Only kind m
    → ((a : A) → Only kind (f a))
    → Only kind (m >>= f)
Only-bind kind (return a) f h g = g a
Only-bind kind (ends e) f h g = tt
Only-bind kind spent f h g = tt
Only-bind kind (call c m) f h g = (h.0, λ r. Only-bind kind (m r) f (h.1 r) g)

pub Only-weaken :
    {A : Type 0} (kind kind' : Call → Bool) (p : Prog A)
    → ((c : Call) → kind c ≡ true → kind' c ≡ true)
    → Only kind p
    → Only kind' p
Only-weaken kind kind' (return a) g h = tt
Only-weaken kind kind' (ends x) g h = tt
Only-weaken kind kind' spent g h = tt
Only-weaken kind kind' (call c f) g h = (g c h.0, λ r. Only-weaken kind kind' (f r) g (h.1 r))

pub if-Only :
    {A : Type 0} (kind : Call → Bool) (b : Bool) (p q : Prog A)
    → Only kind p
    → Only kind q
    → Only kind (if b then p else q)
if-Only kind true p q h g = h
if-Only kind false p q h g = g

-- The same of a trace.
abbrev pub Each : (Call → Bool) → List Event → Type 0
Each kind [] = Unit
Each kind (e ∷ es) = (kind e.asked ≡ true) × Each kind es

pub run-Only :
    {A S : Type 0} (kind : Call → Bool) (k : Kernel S) (p : Prog A) (s : S)
    → Only kind p
    → Each kind (run k p s).trace
run-Only kind k (return a) s h = tt
run-Only kind k (ends x) s h = tt
run-Only kind k spent s h = tt
run-Only kind k (call c f) s h =
    let (r, s') = k.answer c s in (h.0, run-Only kind k (f r) s' (h.1 r))

pub Each-append :
    (kind : Call → Bool) (before after : List Event)
    → Each kind (before ++ after)
    → Each kind before
Each-append kind [] after h = tt
Each-append kind (e ∷ before) after h = (h.0, Each-append kind before after h.1)
