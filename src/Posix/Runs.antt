-- ===== src/Posix/Runs.antt =====
-- The run of a composition, by the runs of its parts.
use papaya_chat.Base.{ℕ, ◌≡◌, refl, ap, List, [], ◌∷◌, ◌++◌, append_assoc, sym, subst, ◌∙◌}
use papaya_chat.Posix.{
  Prog, return, ends, spent, call, ◌>>=◌, Kernel, Event, Outcome, returned, ended, running, Run,
  run, after, Signal,
}
use papaya_chat.Posix.Monitor.{
  written, taken, received, given, signals, sends, heap, heap_step, sockets, socket_step,
}

-- What follows a first part that came out as `o`, with trace `t`, in state `s`.
abbrev pub continue : {A B S : Type 0} → Outcome A → List Event → S → (A → S → Run B S) → Run B S
continue (returned a) t s f = record (f a s) { trace = t ++ (f a s).trace }
continue (ended e) t s f = record { trace = t; outcome = ended e; final = s }
continue running t s f = record { trace = t; outcome = running; final = s }

continue-after :
    {A B S : Type 0} (o : Outcome A) (e : Event) (t : List Event) (s : S) (f : A → S → Run B S)
    → after e (continue o t s f) ≡ continue o (e ∷ t) s f
continue-after (returned a) e t s f = refl
continue-after (ended x) e t s f = refl
continue-after running e t s f = refl

pub run-bind :
    {A B S : Type 0} (k : Kernel S) (m : Prog A) (f : A → Prog B) (s : S)
    → let r = run k m s in run k (m >>= f) s ≡ continue r.outcome r.trace r.final (λ a. run k (f a))
run-bind k (return a) f s = refl
run-bind k (ends e) f s = refl
run-bind k spent f s = refl
run-bind k (call c g) f s =
    let (r, s') = k.answer c s in
    ap (after (record { asked = c; reply = r })) (run-bind k (g r) f s')
    ∙ continue-after (run k (g r) s').outcome (record { asked = c; reply = r })
        (run k (g r) s').trace (run k (g r) s').final (λ a. run k (f a))

pub written-append :
    (fd : ℕ) (t u : List Event) → written fd (t ++ u) ≡ written fd t ++ written fd u
written-append fd [] u = refl
written-append fd (e ∷ t) u =
    ap (◌++◌ (taken fd e.asked e.reply)) (written-append fd t u)
    ∙ sym (append_assoc (taken fd e.asked e.reply) (written fd t) (written fd u))

pub received-append :
    (fd : ℕ) (t u : List Event) → received fd (t ++ u) ≡ received fd t ++ received fd u
received-append fd [] u = refl
received-append fd (e ∷ t) u =
    ap (◌++◌ (given fd e.asked e.reply)) (received-append fd t u)
    ∙ sym (append_assoc (given fd e.asked e.reply) (received fd t) (received fd u))

pub signals-append :
    (pid : ℕ) (sg : Signal) (t u : List Event)
    → signals pid sg (t ++ u) ≡ signals pid sg t ++ signals pid sg u
signals-append pid sg [] u = refl
signals-append pid sg (e ∷ t) u =
    ap (◌++◌ (sends pid sg e.asked e.reply)) (signals-append pid sg t u)
    ∙ sym (append_assoc (sends pid sg e.asked e.reply) (signals pid sg t) (signals pid sg u))

pub heap-append : (held : List ℕ) (t u : List Event) → heap held (t ++ u) ≡ heap (heap held t) u
heap-append held [] u = refl
heap-append held (e ∷ t) u = heap-append (heap_step e.asked e.reply held) t u

pub sockets-append :
    (held : List ℕ) (t u : List Event) → sockets held (t ++ u) ≡ sockets (sockets held t) u
sockets-append held [] u = refl
sockets-append held (e ∷ t) u = sockets-append (socket_step e.asked e.reply held) t u

continue-returned :
    {A B S : Type 0} (o : Outcome A) (t : List Event) (s : S) (f : A → S → Run B S) (b : B)
    (P : Run B S → Type 0)
    → ((a : A)
        → o ≡ returned a
        → (f a s).outcome ≡ returned b
        → P (record (f a s) { trace = t ++ (f a s).trace }))
    → (continue o t s f).outcome ≡ returned b
    → P (continue o t s f)
continue-returned (returned a) t s f b P g h = g a refl h
continue-returned (ended x) t s f b P g h = cc
continue-returned running t s f b P g h = cc

-- If a composition returns, so did its first part.
pub bind-returned :
    {A B S : Type 0} (k : Kernel S) (m : Prog A) (f : A → Prog B) (s : S) (b : B)
    (P : Run B S → Type 0)
    → ((a : A)
        → let first = run k m s in
          let rest = run k (f a) first.final in
          first.outcome ≡ returned a
          → rest.outcome ≡ returned b
          → P (record rest { trace = first.trace ++ rest.trace }))
    → (run k (m >>= f) s).outcome ≡ returned b
    → P (run k (m >>= f) s)
bind-returned k m f s b P g =
    let r = run k m s in
    subst (λ x. x.outcome ≡ returned b → P x) (sym (run-bind k m f s))
      (continue-returned r.outcome r.trace r.final _ b P g)
