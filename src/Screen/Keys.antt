-- ===== src/Screen/Keys.antt =====
-- What each key does to the line, on the window that `LineWindow` describes.
use papaya_chat.Base.{
  ℕ, zero, suc, ◌+◌, ◌-◌, ◌*◌, ◌/◌, ◌≤◌, ◌≡◌, refl, ap, ap₂, sym, ◌∙◌, [], ◌∷◌, ◌++◌, Option, none,
  some, Bool, true, false, not, Bytes, length, take, drop, pos, ◌-ℤ◌, ltb, ltb→lt, if◌then◌else◌,
  arith, length-append, length-take, subst,
}
use native.Mathlib.Numerals.{unary_clauses}
use papaya_chat.Posix.{
  return, ◌>>=◌, ◌>>◌, Kernel, run, returned, curses, character, waddch, wmove, wdelch, wrefresh,
  getcurx, getcury, cols,
}
use papaya_chat.Screen.{
  handle_backspace, add_key, check_max_message_length, max_message_sent, has_room, screen,
  at_border, coordinate,
}
use papaya_chat.Screen.Editor.{is_printable}
use papaya_chat.Screen.Window.{Acts, LineWindow}

-- The room that MAX_MESSAGE_SENT leaves ends before the border of the window.
room-fits : (n width : ℕ) → 8 ≤ width → ltb (n + 1) (max_message_sent width) ≡ true → n + 4 ≤ width
room-fits n width wide h = let below = ltb→lt (n + 1) (width * 3 / 4) h in omega (arith, below)

take-drop_last :
    (a : Bytes) → take (length a - 1) a ++ drop (suc (length a - 1)) a ≡ take (length a - 1) a
take-drop_last [] = refl
take-drop_last (x ∷ []) = refl
take-drop_last (x ∷ y ∷ a) =
    simp unary_clauses (ap (◌∷◌ x) (simp unary_clauses at (take-drop_last (y ∷ a))))

take-none : (a : Bytes) → 0 ≡ length a → take (length a - 1) a ≡ a
take-none [] e = refl
take-none (x ∷ a) e = cc

module _ {S : Type 0} (k : Kernel S) (w width fd : ℕ) (line : S → Bytes) (cursor : S → ℕ)
    (window : LineWindow k w width line cursor) (wide : 8 ≤ width) where
  add_if-Acts :
      (s : S) (c : ℕ) (room : Bool)
      → is_printable c ≡ true
      → cursor s ≡ length (line s)
      → (room ≡ true → length (line s) + 4 ≤ width)
      → let r =
          run k
            (if not room
              then return tt
              else (do screen (waddch w (character c)); screen (wrefresh w)))
            s in
        (r.outcome ≡ returned tt)
        × Acts w fd line cursor r (if room then line s ++ c ∷ [] else line s) []
  add_if-Acts s c false plain at fits = (refl, (refl, at, refl, refl))
  add_if-Acts s c true plain at fits =
      let s₁ = (k.answer (curses (waddch w (character c))) s).1 in
      let (added, moved) = window.adds s c plain at (fits refl) in
      let (kept, stood) = window.keeps s₁ (curses (wrefresh w)) refl in
      (
        refl,
        (
          kept ∙ added,
          stood ∙ moved ∙ ap (λ n. n + 1) at ∙ sym (length-append (line s) (c ∷ [])),
          refl,
          refl,
        ),
      )

  -- A character is added while there is room.
  pub add_key-Acts :
      (s : S) (c : ℕ)
      → is_printable c ≡ true
      → cursor s ≡ length (line s)
      → let r = run k (add_key w (character c)) s in
        (r.outcome ≡ returned tt)
        × Acts w fd line cursor r
            (if ltb (length (line s) + 1) (max_message_sent width)
              then line s ++ c ∷ []
              else line s)
            []
  unfolding add_key check_max_message_length
  add_key-Acts s c plain at =
      let (columns, s₁) = k.answer (curses cols) s in
      let (y, s₂) = k.answer (curses (getcury w)) s₁ in
      let (x, s₃) = k.answer (curses (getcurx w)) s₂ in
      let (kept₁, stood₁) = window.keeps s (curses cols) refl in
      let (kept₂, stood₂) = window.keeps s₁ (curses (getcury w)) refl in
      let (kept₃, stood₃) = window.keeps s₂ (curses (getcurx w)) refl in
      let same : line s₃ ≡ line s = kept₃ ∙ kept₂ ∙ kept₁ in
      let there : cursor s₂ ≡ length (line s) = stood₂ ∙ stood₁ ∙ at in
      let max = max_message_sent width in
      let room : has_room (max_message_sent columns) x ≡ ltb (length (line s) + 1) max =
        ap₂ (λ m o. has_room (max_message_sent m) o) (window.columns s)
          (window.at_column s₂ ∙ ap some there) in
      subst
        (λ b.
          let r = run k (add_key w (character c)) s in
          (r.outcome ≡ returned tt)
          × Acts w fd line cursor r (if b then line s ++ c ∷ [] else line s) [])
        room
        (subst
          (λ l.
            let r = run k (add_key w (character c)) s in
            (r.outcome ≡ returned tt)
            × Acts w fd line cursor r
                (if has_room (max_message_sent columns) x then l ++ c ∷ [] else l) [])
          same
          (add_if-Acts s₃ c (has_room (max_message_sent columns) x) plain
            (stood₃ ∙ there ∙ ap length (sym same))
            (λ e. rw same (room-fits (length (line s)) width wide (sym room ∙ e)))))

  -- To the left, where the character under the cursor is deleted.
  back-Acts :
      (s : S) (m : ℕ)
      → length (line s) ≡ suc m
      → let r =
          run k
            (do
              y ← screen (getcury w)
              screen (wmove w (coordinate y) (coordinate (some (suc m)) -ℤ pos 1))
              screen (wdelch w))
            s in
        (r.outcome ≡ returned tt) × Acts w fd line cursor r (take (length (line s) - 1) (line s)) []
  back-Acts s m size =
      let (y, s₁) = k.answer (curses (getcury w)) s in
      let (kept, stood) = window.keeps s (curses (getcury w)) refl in
      let (kept', at') = window.moves s₁ m in
      let left : (pos (suc m) -ℤ pos 1) ≡ pos m = ground arith in
      let row : coordinate y ≡ pos 0 = ap coordinate (window.at_row s) in
      let s₂ = (k.answer (curses (wmove w (coordinate y) (pos (suc m) -ℤ pos 1))) s₁).1 in
      let there : (line s₂ ≡ line s) × (cursor s₂ ≡ m) = rw (row, left) (kept' ∙ kept, at') in
      let (deleted, still) = window.deletes s₂ in
      let last : m ≡ length (line s) - 1 = omega (arith, size) in
      (
        refl,
        (
          deleted
              ∙ ap₂ (λ n l. take n l ++ drop (suc n) l) (there.1 ∙ last) there.0
              ∙ take-drop_last (line s),
          still ∙ there.1 ∙ omega (arith, size, length-take (length (line s) - 1) (line s)),
          refl,
          refl,
        ),
      )

  back_from-Acts :
      (s : S) (o : Option ℕ)
      → o ≡ some (length (line s))
      → cursor s ≡ length (line s)
      → let r =
          run k
            (if at_border o then return tt else (do
              y ← screen (getcury w)
              screen (wmove w (coordinate y) (coordinate o -ℤ pos 1))
              screen (wdelch w)))
            s in
        (r.outcome ≡ returned tt) × Acts w fd line cursor r (take (length (line s) - 1) (line s)) []
  back_from-Acts s none e at = cc
  back_from-Acts s (some zero) e at =
      let size : 0 ≡ length (line s) = cc in
      let same : take (length (line s) - 1) (line s) ≡ line s = take-none (line s) size in
      rw same (refl, (refl, at, refl, refl))
  back_from-Acts s (some (suc m)) e at =
      let away : at_border (some (suc m)) ≡ false = ground arith in
      let size : length (line s) ≡ suc m = cc in rw away (back-Acts s m size)

  pub handle_backspace-Acts :
      (s : S)
      → cursor s ≡ length (line s)
      → let r = run k (handle_backspace w) s in
        (r.outcome ≡ returned tt) × Acts w fd line cursor r (take (length (line s) - 1) (line s)) []
  unfolding handle_backspace
  handle_backspace-Acts s at =
      let (x, s₁) = k.answer (curses (getcurx w)) s in
      let (kept, stood) = window.keeps s (curses (getcurx w)) refl in
      subst
        (λ l.
          let r = run k (handle_backspace w) s in
          (r.outcome ≡ returned tt) × Acts w fd line cursor r (take (length l - 1) l) [])
        kept
        (back_from-Acts s₁ x
          (window.at_column s ∙ ap some at ∙ ap (λ l. some (length l)) (sym kept))
          (stood ∙ at ∙ ap length (sym kept)))
