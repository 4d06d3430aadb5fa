-- ===== src/Posix/Group/Ended.antt =====
-- Processes of a group that have ended, and what a process that never waits did among the others.
use papaya_chat.Base.{
  ℕ, ◌≡◌, ◌≢◌, refl, sym, ap, subst, ◌∙◌, List, [], ◌∷◌, ◌++◌, false, ◌==◌, ==_iff, inl, inr,
  Bool-cases, ◌⊎◌,
}
use papaya_chat.Posix.{
  Prog, return, ends, spent, call, Event, Exit, run, after, pause, sigterm, sigusr1,
}
use papaya_chat.Posix.Monitor.{sends, signals}
use papaya_chat.Posix.Only.{Only}
use papaya_chat.Posix.Together.{Shared, By, local, all_events, Replies, alone, afters}
use papaya_chat.Posix.Group.{
  moves, Group, woken, woken_by, struck, strikes, all_strikes, all_strikes-head, all_strikes-tail,
  moved, makes, Steps, stop, later, moved_at, moved_other,
}

woken_by-ends :
    {A : Type 0} (us : List (Unit {0})) (y : Exit) → let p : Prog A = ends y in woken_by us p ≡ p
woken_by-ends [] y = refl
woken_by-ends (u ∷ us) y = woken_by-ends us y

struck-ends :
    {A : Type 0} (x y : Exit) (us : List (Unit {0})) → let p : Prog A = ends y in struck x us p ≡ p
struck-ends x y [] = refl
struck-ends x y (u ∷ us) = refl

-- A process that has ended makes no call, and no signal reaches it.
pub Steps-ends :
    {A S : Type 0} {k : Shared S} {g e : Group A S} {h : List By} (j : ℕ) (y : Exit)
    → Steps k g h e
    → g.processes j ≡ ends y
    → e.processes j ≡ ends y
Steps-ends j y (stop g) q = q
Steps-ends {k = k} {g = g} j y (later {h = h} (makes i c f x p w) t) q =
    let (r, s) = k.answer i c g.state in
    elim (Bool-cases (j == i)) [
      | inl e ↦
          let same : g.processes j ≡ g.processes i = ap g.processes ((==_iff j i).0 e) in
          absurd (cc (same, p, q))
      | inr e ↦ Steps-ends j y t (
          rw e (
            ap (λ p. struck x (strikes j c r) (woken_by (sends 0 sigusr1 c r) p)) q
            ∙ ap (struck x (strikes j c r)) (woken_by-ends (sends 0 sigusr1 c r) y)
            ∙ struck-ends x y (strikes j c r)))
    ]

struck-some :
    {A : Type 0} (x : Exit) (us : List (Unit {0})) (p : Prog A)
    → us ≢ []
    → (y : Exit) × (struck x us p ≡ ends y)
struck-some x [] p n = absurd (n refl)
struck-some x (u ∷ us) (ends y) n = (y, refl)
struck-some x (u ∷ us) (return a) n = (x, refl)
struck-some x (u ∷ us) spent n = (x, refl)
struck-some x (u ∷ us) (call c f) n = (x, refl)

some-right : (us vs : List (Unit {0})) → vs ≢ [] → us ++ vs ≢ []
some-right [] vs n e = n e
some-right (u ∷ us) vs n e = cc

none-cases : (us : List (Unit {0})) → (us ≡ []) ⊎ (us ≢ [])
none-cases [] = inl refl
none-cases (u ∷ us) = inr (λ e. cc)

-- A process to which another one sent SIGTERM has ended.
pub Steps-struck :
    {A S : Type 0} {k : Shared S} {g e : Group A S} {h : List By} (i j : ℕ)
    → Steps k g h e
    → (j == i) ≡ false
    → signals j sigterm (local i h) ≢ []
    → (y : Exit) × (e.processes j ≡ ends y)
Steps-struck i j (stop g) o n = absurd (n refl)
Steps-struck {k = k} {g = g} i j (later {h = h} (makes i' c f x p w) t) o n =
    let (r, s) = k.answer i' c g.state in
    elim (Bool-cases (i == i')) [
      | inl e ↦ elim (none-cases (sends j sigterm c r)) [
        | inl none ↦ Steps-struck i j t o (λ q. n (rw (e, none) q))
        | inr some ↦
            let away : (j == i') ≡ false = subst (λ i. (j == i) ≡ false) ((==_iff i i').0 e) o in
            let (y, hit) =
              struck-some x (strikes j c r) (woken_by (sends 0 sigusr1 c r) (g.processes j))
                (some-right (sends 0 sigterm c r) (sends j sigterm c r) some) in
            (y, Steps-ends j y t (rw away hit))
      ]
      | inr e ↦ Steps-struck i j t o (λ q. n (rw e q))
    ]

woken-Only : {A : Type 0} (p : Prog A) → Only moves p → woken p ≡ p
woken-Only (return a) h = refl
woken-Only (ends x) h = refl
woken-Only spent h = refl
woken-Only (call pause f) h = cc
woken-Only (call c f) h = refl

woken_by-Only : {A : Type 0} (us : List (Unit {0})) (p : Prog A) → Only moves p → woken_by us p ≡ p
woken_by-Only [] p h = refl
woken_by-Only (u ∷ us) p h = ap (woken_by us) (woken-Only p h) ∙ woken_by-Only us p h

-- What a process that never waits did among the others, if nobody sent it SIGTERM, is a run of it
-- alone, with the replies that it was given.
pub Steps-alone :
    {A S : Type 0} {k : Shared S} {g e : Group A S} {h : List By} (i : ℕ) (s₀ : S)
    → Steps k g h e
    → Only moves (g.processes i)
    → all_strikes i (all_events h) ≡ []
    → (replies : List Replies) × (run (alone k i) (g.processes i) (replies, s₀)
        ≡ afters (local i h) (run (alone k i) (e.processes i) ([], s₀)))
Steps-alone i s₀ (stop g) only n = ([], refl)
Steps-alone {k = k} {g = g} i s₀ (later {h = h} (makes i' c f x p w) t) only n =
    let (r, s) = k.answer i' c g.state in
    let ev : Event = record { asked = c; reply = r } in
    let m = moved g i' c r x (f r) s in
    let head = all_strikes-head i ev (all_events h) n in
    let tail = all_strikes-tail i ev (all_events h) n in
    elim (Bool-cases (i == i')) [
      | inl e ↦
          let here : g.processes i ≡ call c f = ap g.processes ((==_iff i i').0 e) ∙ p in
          let only' : Only moves (call c f) = subst (λ q. Only moves q) here only in
          let now : m.processes i ≡ f r = moved_at g i' c r x (f r) s i e head in
          let (replies, same) =
            Steps-alone i s₀ t (subst (λ q. Only moves q) (sym now) (only'.1 r)) tail in
          let before : List Replies = (λ c. (k.answer i' c g.state).0) ∷ replies in
          (
            before,
            rw e (
                ap (λ q. run (alone k i) q (before, s₀)) here
                ∙ ap (after ev) (ap (λ q. run (alone k i) q (replies, s₀)) (sym now) ∙ same)),
          )
      | inr e ↦
          let now : m.processes i ≡ g.processes i =
            moved_other g i' c r x (f r) s i e head
            ∙ woken_by-Only (sends 0 sigusr1 c r) (g.processes i) only in
          let (replies, same) =
            Steps-alone i s₀ t (subst (λ q. Only moves q) (sym now) only) tail in
          (replies, rw e (ap (λ q. run (alone k i) q (replies, s₀)) (sym now) ∙ same))
    ]
