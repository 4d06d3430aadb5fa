-- ===== src/Screen/Window.antt =====
-- The window that the user types in, as ncurses documents it, and the programs that leave it alone.
use papaya_chat.Base.{
  ℕ, suc, ◌+◌, ◌≤◌, ◌≡◌, refl, ◌∙◌, [], ◌∷◌, ◌++◌, some, Bool, true, false, not, Bytes, length,
  take, drop, pos, ◌==◌, arith,
}
use papaya_chat.Posix.{
  Prog, return, ends, spent, call, Call, Reply, Kernel, run, Run, curses, character, write, waddch,
  wmove, wdelch, wdeleteln, mvwinnstr, wgetch, wclear, wprintw, getcurx, getcury, cols,
}
use papaya_chat.Posix.Only.{Only}
use papaya_chat.Posix.Monitor.{written, taken}
use papaya_chat.Screen.Editor.{is_printable, keys, pressed}

-- Does the call change what stands in window `w`, or its cursor?
abbrev pub touches : ℕ → Call → Bool
touches w (curses (waddch w' key)) = w == w'
touches w (curses (wmove w' y x)) = w == w'
touches w (curses (wdelch w')) = w == w'
touches w (curses (wdeleteln w')) = w == w'
touches w (curses (wclear w')) = w == w'
touches w (curses (wprintw w' bytes)) = w == w'
touches w (curses (mvwinnstr w' y x n)) = w == w'
touches w _ = false

-- One line of text in window `w` of a screen of `width` columns: the characters typed, and the
-- column of the cursor, which stands in the first row.
pub record LineWindow {S : Type 0} (k : Kernel S) (w width : ℕ) (line : S → Bytes) (cursor : S → ℕ)
    : Type 0 where
  pub columns : (s : S) → (k.answer (curses cols) s).0 ≡ width
  pub at_column : (s : S) → (k.answer (curses (getcurx w)) s).0 ≡ some (cursor s)
  pub at_row : (s : S) → (k.answer (curses (getcury w)) s).0 ≡ some 0
  pub moves :
      (s : S) (x : ℕ)
      → let s' = (k.answer (curses (wmove w (pos 0) (pos x))) s).1 in
        (line s' ≡ line s) × (cursor s' ≡ x)
  -- The window has two columns less than the screen; the cursor stays on the line.
  pub adds :
      (s : S) (c : ℕ)
      → is_printable c ≡ true
      → cursor s ≡ length (line s)
      → length (line s) + 4 ≤ width
      → let s' = (k.answer (curses (waddch w (character c))) s).1 in
        (line s' ≡ line s ++ c ∷ []) × (cursor s' ≡ cursor s + 1)
  pub deletes :
      (s : S)
      → let s' = (k.answer (curses (wdelch w)) s).1 in
        (line s' ≡ take (cursor s) (line s) ++ drop (suc (cursor s)) (line s))
        × (cursor s' ≡ cursor s)
  pub reads :
      (s : S) (n : ℕ)
      → let (text, s') = k.answer (curses (mvwinnstr w (pos 0) (pos 0) n)) s in
        (text ≡ some (take n (line s))) × (line s' ≡ line s)
  pub clears : (s : S) → line (k.answer (curses (wdeleteln w)) s).1 ≡ []
  pub keeps :
      (s : S) (c : Call)
      → touches w c ≡ false
      → (line (k.answer c s).1 ≡ line s) × (cursor (k.answer c s).1 ≡ cursor s)

-- A part of the editor that came out with the line, the cursor behind it, and what it sent, and that
-- took no key.
abbrev pub Acts : {A S : Type 0} → ℕ → ℕ → (S → Bytes) → (S → ℕ) → Run A S → Bytes → Bytes → Type 0
Acts w fd line cursor r line' sent =
    (line r.final ≡ line')
    × (cursor r.final ≡ length line')
    × (written fd r.trace ≡ sent)
    × (keys w r.trace ≡ [])

-- A call that leaves the window alone, writes nothing and takes no key.
abbrev pub is_quiet : ℕ → Call → Bool
is_quiet w (write fd bytes) = false
is_quiet w (curses (wgetch w')) = false
is_quiet w c = not (touches w c)

abbrev pub Quiet : {A : Type 0} → ℕ → Prog A → Type 0
Quiet w p = Only (is_quiet w) p

-- What a quiet call is.
is_quiet_lem :
    (w fd : ℕ) (c : Call) (r : Reply c)
    → is_quiet w c ≡ true
    → (touches w c ≡ false) × (taken fd c r ≡ []) × (pressed w c r ≡ [])
is_quiet_lem w fd (write fd' bytes) r h = cc
is_quiet_lem w fd (curses (wgetch w')) r h = cc
is_quiet_lem w fd (curses (waddch w' key)) r h = (ground arith, refl, refl)
is_quiet_lem w fd c r h = (ground arith, refl, refl)

module _ {S : Type 0} (k : Kernel S) (w width : ℕ) (line : S → Bytes) (cursor : S → ℕ)
    (window : LineWindow k w width line cursor) where
  pub run-Quiet :
      {A : Type 0} (fd : ℕ) (p : Prog A) (s : S)
      → Quiet w p
      → let r = run k p s in
        (line r.final ≡ line s)
        × (cursor r.final ≡ cursor s)
        × (written fd r.trace ≡ [])
        × (keys w r.trace ≡ [])
  run-Quiet fd (return a) s h = (refl, refl, refl, refl)
  run-Quiet fd (ends e) s h = (refl, refl, refl, refl)
  run-Quiet fd spent s h = (refl, refl, refl, refl)
  run-Quiet fd (call c f) s h =
      let (r, s') = k.answer c s in
      let (alone, nothing, no_key) = is_quiet_lem w fd c r h.0 in
      let (same, still, rest, keyless) = run-Quiet fd (f r) s' (h.1 r) in
      let (kept, stood) = window.keeps s c alone in
      (same ∙ kept, still ∙ stood, rw (nothing, rest) refl, rw (no_key, keyless) refl)
