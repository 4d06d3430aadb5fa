-- ===== src/Screen/Works.antt =====
-- The front end where no call fails: each part of a turn comes to its end.
use papaya_chat.Base.{
  ℕ, ◌≡◌, refl, ap, ap₂, sym, ◌∙◌, List, [], ◌∷◌, ◌++◌, Option, none, some, Bool, true, false, not,
  Bytes, ◌==◌, ltb, if◌then◌else◌, subst,
}
use papaya_chat.Posix.{
  Prog, return, ends, spent, call, ◌>>=◌, Call, Reply, Kernel, run, returned, curses, Key,
  character, key_down, key_backspace, Block, write, malloc, wgetch, wclear, wmove, wdeleteln,
  getcurx, getcury, mvwinnstr,
}
use papaya_chat.ChatLog.{wrote}
use papaya_chat.Messages.{send_message_to_pipe, fetch_message}
use papaya_chat.Screen.{
  Chat, Turn, more, leave, handle_key, handle_newline, take_line, read_line, append_line, send_line,
  clear_line, add_key, check_max_message_length, handle_backspace, fetch,
  print_messages_from_server, fetch_and_show, show_message, wrap_text, at_border, has_room,
  max_message_sent,
}
use papaya_chat.Screen.Editor.{keys, pressed}

-- The results that the front end does not take for an error.
abbrev pub succeeded : (c : Call) → Reply c → Bool
succeeded (write fd bytes) o = wrote bytes o
succeeded (malloc n) (some b) = true
succeeded (malloc n) none = false
succeeded (curses (getcurx w)) (some x) = true
succeeded (curses (getcurx w)) none = false
succeeded (curses (getcury w)) (some y) = true
succeeded (curses (getcury w)) none = false
succeeded (curses (mvwinnstr w y x n)) (some bytes) = true
succeeded (curses (mvwinnstr w y x n)) none = false
succeeded (curses (wclear w)) r = r
succeeded (curses (wmove w y x)) r = r
succeeded (curses (wdeleteln w)) r = r
succeeded c r = true

abbrev pub takes_key : Call → Bool
takes_key (curses (wgetch w)) = true
takes_key c = false

-- Nothing fails, and the keys that are typed in window `w` are read one by one.
pub record Works {S : Type 0} (k : Kernel S) (w : ℕ) (typed : S → List Key) : Type 0 where
  pub succeeds : (s : S) (c : Call) → succeeded c (k.answer c s).0 ≡ true
  pub next :
      (s : S) (key : Key) (rest : List Key)
      → typed s ≡ key ∷ rest
      → let (r, s') = k.answer (curses (wgetch w)) s in (r ≡ some key) × (typed s' ≡ rest)
  pub keeps : (s : S) (c : Call) → takes_key c ≡ false → typed (k.answer c s).1 ≡ typed s

-- A program that returns `a` where nothing fails, and takes no key.
abbrev pub Finishes : {A : Type 0} → A → Prog A → Type 0
Finishes a (return b) = b ≡ a
Finishes a (ends x) = ⊥
Finishes a spent = ⊥
Finishes a (call c f) =
    (takes_key c ≡ false) × ((r : Reply c) → succeeded c r ≡ true → Finishes a (f r))

pub Finishes-bind :
    {A B : Type 0} (a : A) (b : B) (m : Prog A) (f : A → Prog B)
    → Finishes a m
    → Finishes b (f a)
    → Finishes b (m >>= f)
Finishes-bind a b (return x) f h g = subst (λ y. Finishes b (f y)) (sym h) g
Finishes-bind a b (ends x) f h g = absurd h
Finishes-bind a b spent f h g = absurd h
Finishes-bind a b (call c m) f h g = (h.0, λ r e. Finishes-bind a b (m r) f (h.1 r e) g)

pressed-takes_key : (w : ℕ) (c : Call) (r : Reply c) → takes_key c ≡ false → pressed w c r ≡ []
pressed-takes_key w (curses (wgetch w')) r e = cc
pressed-takes_key w c r e = refl

pub run-Finishes :
    {A S : Type 0} (k : Kernel S) (w : ℕ) (typed : S → List Key) (works : Works k w typed) (a : A)
    (p : Prog A) (s : S)
    → Finishes a p
    → let r = run k p s in
      (r.outcome ≡ returned a) × (typed r.final ≡ typed s) × (keys w r.trace ≡ [])
run-Finishes k w typed works a (return b) s h = (ap returned h, refl, refl)
run-Finishes k w typed works a (ends x) s h = absurd h
run-Finishes k w typed works a spent s h = absurd h
run-Finishes k w typed works a (call c f) s h =
    let (r, s') = k.answer c s in
    let (returns, same, keyless) =
      run-Finishes k w typed works a (f r) s' (h.1 r (works.succeeds s c)) in
    (returns, same ∙ works.keeps s c h.0, ap₂ (λ x y. x ++ y) (pressed-takes_key w c r h.0) keyless)

no : {P : Type 0} → false ≡ true → P
no e = absurd (subst (λ b. if b then ⊥ else Unit) e tt)

if-Finishes :
    {A : Type 0} (a : A) (b : Bool) (p q : Prog A)
    → Finishes a p
    → Finishes a q
    → Finishes a (if b then p else q)
if-Finishes a true p q h g = h
if-Finishes a false p q h g = g

wrap_text-Finishes : (window max_y y : ℕ) → Finishes tt (wrap_text window max_y (some y))
unfolding wrap_text
wrap_text-Finishes window max_y y =
    if-Finishes tt (ltb max_y y) _ _ (refl, λ r e. rw e (refl, λ r' e'. rw e' refl)) refl

show_message-Finishes :
    (window max_y : ℕ) (b : Block) (o : Option Bytes) → Finishes tt (show_message window max_y b o)
unfolding show_message
show_message-Finishes window max_y b none = refl
show_message-Finishes window max_y b (some []) = refl
show_message-Finishes window max_y b (some (c ∷ bytes)) = (
  refl,
  elim [
    | none ↦ λ e. no e
    | some y ↦ λ e.
        Finishes-bind tt tt (wrap_text window max_y (some y)) _ (wrap_text-Finishes window max_y y)
          (refl, λ _ _. (refl, λ _ _. refl))
  ],
)

fetch-Finishes : (c : Chat) → Finishes tt (fetch c)
unfolding fetch print_messages_from_server fetch_and_show fetch_message
fetch-Finishes c = (
  refl,
  elim [
    | none ↦ λ e. no e
    | some b ↦ λ e. (
      refl,
      λ o _.
          Finishes-bind tt tt (show_message c.text_window c.max_y b o) _
            (show_message-Finishes c.text_window c.max_y b o) (refl, λ _ _. refl),
    )
  ],
)

clear_line-Finishes : (window : ℕ) → Finishes tt (clear_line window)
unfolding clear_line
clear_line-Finishes window = (refl, λ r e. rw e (refl, λ r' e'. rw e' refl))

handle_newline-Finishes :
    (window fd : ℕ) (username : Bytes) → Finishes tt (handle_newline window fd username)
unfolding handle_newline take_line read_line append_line send_line send_message_to_pipe
handle_newline-Finishes window fd username = (
  refl,
  elim [
    | none ↦ λ e. no e
    | some message ↦ λ e. (
      refl,
      elim [
        | none ↦ λ e. no e
        | some x ↦ λ e. (
          refl,
          elim [
            | none ↦ λ e. no e
            | some text ↦ λ e. (
              refl,
              elim [
                | none ↦ λ e. no e
                | some name ↦ λ e.
                    (refl, λ sent e. rw e (refl, λ _ _. (refl, λ _ _. clear_line-Finishes window)))
              ],
            )
          ],
        )
      ],
    )
  ],
)

handle_backspace-Finishes : (window : ℕ) → Finishes tt (handle_backspace window)
unfolding handle_backspace
handle_backspace-Finishes window = (
  refl,
  λ x _. if-Finishes tt (at_border x) _ _ refl (refl, λ _ _. (refl, λ _ _. (refl, λ _ _. refl))),
)

add_key-Finishes : (window : ℕ) (key : Key) → Finishes tt (add_key window key)
unfolding add_key check_max_message_length
add_key-Finishes window key = (
  refl,
  λ columns _. (
    refl,
    λ _ _. (
      refl,
      λ x _.
          if-Finishes tt (not (has_room (max_message_sent columns) x)) _ _ refl
            (refl, λ _ _. (refl, λ _ _. refl)),
    ),
  ),
)

-- Whether the loop goes on after a key.
abbrev pub turn_of : Key → Turn
turn_of key_down = leave
turn_of _ = more

pub handle_key-Finishes : (c : Chat) (key : Key) → Finishes (turn_of key) (handle_key c (some key))
unfolding handle_key
handle_key-Finishes c (character x) =
    if-Finishes more (x == b'\n') _ _
      (Finishes-bind tt more (handle_newline c.chat_window c.send_fd c.username) _
        (handle_newline-Finishes c.chat_window c.send_fd c.username) refl)
      (Finishes-bind tt more (add_key c.chat_window (character x)) _
        (add_key-Finishes c.chat_window (character x))
        (Finishes-bind tt more (fetch c) _ (fetch-Finishes c) refl))
handle_key-Finishes c key_backspace =
    Finishes-bind tt more (handle_backspace c.chat_window) _
      (handle_backspace-Finishes c.chat_window) refl
handle_key-Finishes c key_down =
    Finishes-bind tt leave (add_key c.chat_window key_down) _
      (add_key-Finishes c.chat_window key_down)
      (Finishes-bind tt leave (fetch c) _ (fetch-Finishes c) refl)
