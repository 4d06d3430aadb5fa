-- ===== src/Posix/Together/Log.antt =====
-- What several processes together wrote to one descriptor.
use papaya_chat.Base.{ℕ, ◌≡◌, sym, ap, ◌∙◌, List, [], ◌∷◌, ◌++◌, append_assoc, append-nil, Bytes}
use papaya_chat.Posix.{Prog, return, ends, spent, call, Call}
use papaya_chat.Posix.Monitor.{written, taken}
use papaya_chat.Posix.Runs.{written-append}
use papaya_chat.Posix.Together.{Shared, turn, together, replace, all_events, all_events-by}

turn-log :
    {A S : Type 0} (k : Shared S) (fd : ℕ) (log : S → Bytes)
    → ((i : ℕ) (c : Call) (s : S) → let (r, s') = k.answer i c s in log s' ≡ log s ++ taken fd c r)
    → (i : ℕ) (p : Prog A) (s : S)
    → let now = turn k i p s in log now.state ≡ log s ++ written fd now.made
turn-log k fd log appends i (call c f) s =
    appends i c s ∙ ap (λ l. log s ++ l) (sym (append-nil (taken fd c (k.answer i c s).0)))
turn-log k fd log appends i (return a) s = sym (append-nil (log s))
turn-log k fd log appends i (ends x) s = sym (append-nil (log s))
turn-log k fd log appends i spent s = sym (append-nil (log s))

-- The bytes that all processes together wrote to a descriptor are in the order of the calls.
pub together-log :
    {A S : Type 0} (k : Shared S) (fd : ℕ) (log : S → Bytes)
    → ((i : ℕ) (c : Call) (s : S) → let (r, s') = k.answer i c s in log s' ≡ log s ++ taken fd c r)
    → (schedule : List ℕ) (processes : ℕ → Prog A) (s : S)
    → let r = together k schedule processes s in
      log r.final ≡ log s ++ written fd (all_events r.history)
together-log k fd log appends [] processes s = sym (append-nil (log s))
together-log k fd log appends (j ∷ schedule) processes s =
    let now = turn k j (processes j) s in
    let r = together k schedule (replace j now.rest processes) now.state in
    together-log k fd log appends schedule (replace j now.rest processes) now.state
    ∙ ap (λ l. l ++ written fd (all_events r.history)) (turn-log k fd log appends j (processes j) s)
    ∙ append_assoc (log s) (written fd now.made) (written fd (all_events r.history))
    ∙ ap (λ l. log s ++ l)
        (sym (written-append fd now.made (all_events r.history))
          ∙ ap (written fd) (sym (all_events-by j now.made r.history)))
