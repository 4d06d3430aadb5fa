-- ===== src/Posix/Group/Alone.antt =====
-- One process of a group that goes on while the others make no call.
use papaya_chat.Base.{ℕ, ◌≡◌, refl, sym, ap, ◌∙◌, List, false, ◌==◌}
use papaya_chat.Posix.{
  exit_now, Prog, return, ends, spent, call, ◌>>=◌, Event, Kernel, run, returned, sigusr1,
}
use papaya_chat.Posix.Monitor.{sends, signals}
use papaya_chat.Posix.Live.{plain-calm, Live}
use papaya_chat.Posix.Together.{Shared, by}
use papaya_chat.Posix.Group.{
  plain-strikes, calm-moves, Group, woken_by, moved, makes, Steps, stop, later, moved_self,
  moved_other, woken_by-append,
}

-- The kernel as one of the processes meets it.
abbrev pub own : {S : Type 0} → Shared S → ℕ → Kernel S
own k i = record { answer = λ c s. k.answer i c s }

-- A group in which process `i` has gone on to `p`, and each other has had the signals of `t`.
pub record WentOn {A S : Type 0} (g : Group A S) (i : ℕ) (p : Prog A) (s : S) (t : List Event)
    (e : Group A S) : Type 0 where
  pub self : e.processes i ≡ p
  pub other :
      (j : ℕ) → (j == i) ≡ false → e.processes j ≡ woken_by (signals 0 sigusr1 t) (g.processes j)
  pub state : e.state ≡ s

-- A function that never waits, and sends no SIGTERM, may run to its end while the other processes make no call.
pub run-Steps :
    {A B S : Type 0} (k : Shared S) (i : ℕ) (m : Prog B) (f : B → Prog A) (g : Group A S) (b : B)
    → Live m
    → g.processes i ≡ m >>= f
    → let r = run (own k i) m g.state in
      r.outcome ≡ returned b
      → (e : Group A S) × Steps k g (by i r.trace) e × WentOn g i (f b) r.final r.trace e
run-Steps k i (return a) f g b w p h =
    let same : a ≡ b = cc in
    (g, stop g, record { self = p ∙ ap f same; other = λ j o. refl; state = refl })
run-Steps k i (ends x) f g b w p h = cc
run-Steps k i spent f g b w p h = absurd w
run-Steps k i (call c m) f g b w p h =
    let (r, s) = k.answer i c g.state in
    let g' = moved g i c r (exit_now 0) (m r >>= f) s in
    let (e, steps, went) =
      run-Steps k i (m r) f g' b (w.1 r)
        (moved_self g i c r (exit_now 0) (m r >>= f) s (plain-strikes i c r w.0)) h in
    (
      e,
      later (makes i c (λ r. m r >>= f) (exit_now 0) p (calm-moves c (plain-calm c w.0))) steps,
      record {
        self = went.self;
        other = λ j o.
            went.other j o
            ∙ ap (woken_by (signals 0 sigusr1 (run (own k i) (m r) s).trace))
                (moved_other g i c r (exit_now 0) (m r >>= f) s j o (plain-strikes j c r w.0))
            ∙ sym (woken_by-append (sends 0 sigusr1 c r) _ (g.processes j));
        state = went.state;
      },
    )
