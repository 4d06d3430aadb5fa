-- ===== src/Screen/Turns.antt =====
-- One turn of the key loop: what it does to the line, and what it sends.
use papaya_chat.Base.{
  ℕ, zero, suc, ◌+◌, ◌-◌, ◌≤◌, ◌≡◌, refl, ap, ap₂, sym, ◌∙◌, List, [], ◌∷◌, ◌++◌, append_assoc,
  some, true, false, Bytes, length, take, ◌==◌, ltb, arith, inl, inr, Bool-cases, append-nil,
}
use papaya_chat.Posix.{
  Prog, return, ◌>>◌, Event, Kernel, run, Run, returned, curses, character, Key, key_backspace,
  key_down, wgetch, cols, getcurx, getcury,
}
use papaya_chat.Posix.Only.{Only-bind}
use papaya_chat.Posix.Monitor.{written}
use papaya_chat.Posix.Runs.{run-bind, bind-returned, written-append}
use papaya_chat.ClientRequest.Message.{no_nul}
use papaya_chat.Screen.{
  Chat, Turn, more, leave, handle_key, handle_newline, handle_backspace, add_key,
  check_max_message_length, max_message_sent, has_room, fetch,
}
use papaya_chat.Screen.Editor.{is_printable, keys, pressed, line_after, sent_by, IsPlain}
use papaya_chat.Screen.Window.{Acts, LineWindow, Quiet, is_quiet, run-Quiet}
use papaya_chat.Screen.Newline.{no_nul-append, handle_newline-Acts}
use papaya_chat.Screen.Keys.{add_key-Acts, handle_backspace-Acts}
use papaya_chat.Screen.Fetching.{fetch-Quiet}

pub keys-append : (w : ℕ) (t u : List Event) → keys w (t ++ u) ≡ keys w t ++ keys w u
keys-append w [] u = refl
keys-append w (e ∷ t) u =
    ap (◌++◌ (pressed w e.asked e.reply)) (keys-append w t u)
    ∙ sym (append_assoc (pressed w e.asked e.reply) (keys w t) (keys w u))

pub pressed_self : (w : ℕ) (key : Key) → pressed w (curses (wgetch w)) (some key) ≡ key ∷ []
pressed_self w key = let same : (w == w) ≡ true = ground arith in rw same refl

no_nul-[] : no_nul [] ≡ true
unfolding no_nul
no_nul-[] = refl

no_nul-take : (n : ℕ) (a : Bytes) → no_nul a ≡ true → no_nul (take n a) ≡ true
unfolding no_nul
no_nul-take zero a g = refl
no_nul-take (suc n) [] g = refl
no_nul-take (suc n) (x ∷ a) g = ground (arith, no_nul-take n a)

is_printable-plain : (c : ℕ) → (c == b'\n') ≡ false → IsPlain (character c) → is_printable c ≡ true
is_printable-plain c other plain = ground arith

-- A printable character is no NUL.
no_nul-printable : (c : ℕ) → (c == b'\n') ≡ false → IsPlain (character c) → no_nul (c ∷ []) ≡ true
unfolding no_nul
no_nul-printable c other plain = ground arith

-- The line has no NUL after a key if it had none before.
pub no_nul-line_after :
    (max : ℕ) (line : Bytes) (key : Key)
    → IsPlain key
    → no_nul line ≡ true
    → no_nul (line_after max line key) ≡ true
no_nul-line_after max line (character c) plain g = elim (Bool-cases (c == b'\n')) [
  | inl e ↦ rw e no_nul-[]
  | inr e ↦ elim (Bool-cases (ltb (length line + 1) max)) [
    | inl room ↦ rw (e, room) (no_nul-append line (c ∷ []) g (no_nul-printable c e plain))
    | inr full ↦ rw (e, full) g
  ]
]
no_nul-line_after max line key_backspace plain g = no_nul-take (length line - 1) line g
no_nul-line_after max line key_down plain g = g

module _ {S : Type 0} (k : Kernel S) (width : ℕ) (c : Chat) (line : S → Bytes) (cursor : S → ℕ)
    (window : LineWindow k c.chat_window width line cursor) (wide : 8 ≤ width)
    (other : (c.chat_window == c.text_window) ≡ false) where
  -- Something that leaves the line alone, after something that returned.
  Acts-Quiet :
      (s : S) (m : Prog (Unit {0})) (q : Prog Turn) (line' sent : Bytes)
      → (run k m s).outcome ≡ returned tt
      → Acts c.chat_window c.send_fd line cursor (run k m s) line' sent
      → Quiet c.chat_window q
      → Acts c.chat_window c.send_fd line cursor (run k (m >> q) s) line' sent
  Acts-Quiet s m q line' sent returns acts quiet =
      let first = run k m s in
      let rest = run k q first.final in
      let (same, still, nothing, no_key) =
        run-Quiet k c.chat_window width line cursor window c.send_fd q first.final quiet in
      let (line_is, cursor_is, wrote_is, keyless) = acts in
      rw (run-bind k m (λ _. q) s, returns)
        (
          same ∙ line_is,
          still ∙ cursor_is,
          written-append c.send_fd first.trace rest.trace
              ∙ ap₂ (λ a b. a ++ b) wrote_is nothing
              ∙ append-nil sent,
          keys-append c.chat_window first.trace rest.trace ∙ ap₂ (λ a b. a ++ b) keyless no_key,
        )

  add_down :
      (s : S)
      → let r = run k (add_key c.chat_window key_down) s in
        (r.outcome ≡ returned tt)
        × (written c.send_fd r.trace ≡ [])
        × (keys c.chat_window r.trace ≡ [])
  unfolding add_key check_max_message_length
  add_down s =
      let (columns, s₁) = k.answer (curses cols) s in
      let (y, s₂) = k.answer (curses (getcury c.chat_window)) s₁ in
      let (x, s₃) = k.answer (curses (getcurx c.chat_window)) s₂ in
      elim (Bool-cases (has_room (max_message_sent columns) x)) [
        | inl e ↦ rw e (refl, refl, refl)
        | inr e ↦ rw e (refl, refl, refl)
      ]

  -- What a turn does with a line that has the cursor behind it.
  unfoldable pub Turns : Run Turn S → Turn → Bytes → Bytes → Type 0
  Turns r more line' sent = Acts c.chat_window c.send_fd line cursor r line' sent
  Turns r leave line' sent = (written c.send_fd r.trace ≡ sent) × (keys c.chat_window r.trace ≡ [])

  more-Turns :
      (r : Run Turn S) (t : Turn) (line' sent : Bytes)
      → returned more ≡ returned t
      → Acts c.chat_window c.send_fd line cursor r line' sent
      → Turns r t line' sent
  unfolding Turns
  more-Turns r more line' sent e acts = acts
  more-Turns r leave line' sent e acts = cc

  leave-Turns :
      (r : Run Turn S) (t : Turn) (line' sent : Bytes)
      → returned leave ≡ returned t
      → (written c.send_fd r.trace ≡ sent) × (keys c.chat_window r.trace ≡ [])
      → Turns r t line' sent
  unfolding Turns
  leave-Turns r more line' sent e acts = cc
  leave-Turns r leave line' sent e acts = acts

  -- A turn in two parts and an end: what the first part and the turn returned.
  parts :
      (s : S) (m q : Prog (Unit {0})) (u t : Turn)
      → (run k (m >> (q >> return u)) s).outcome ≡ returned t
      → ((run k m s).outcome ≡ returned tt) × (returned u ≡ returned t)
  parts s m q u t h = (
    bind-returned k m (λ _. q >> return u) s t (λ _. (run k m s).outcome ≡ returned tt) (λ a e _. e)
        h,
    bind-returned k m (λ _. q >> return u) s t (λ _. returned u ≡ returned t)
        (λ _ _ h'.
          bind-returned k q (λ _. return u) (run k m s).final t (λ _. returned u ≡ returned t)
            (λ _ _ e. e) h')
        h,
  )

  -- A turn that ends with what leaves the line alone.
  pub turn-Quiet :
      (s : S) (m q : Prog (Unit {0})) (t : Turn) (line' sent : Bytes)
      → Quiet c.chat_window q
      → ((run k m s).outcome ≡ returned tt
          → Acts c.chat_window c.send_fd line cursor (run k m s) line' sent)
      → (run k (m >> (q >> return more)) s).outcome ≡ returned t
      → Turns (run k (m >> (q >> return more)) s) t line' sent
  turn-Quiet s m q t line' sent quiet acts h =
      let (returns, goes_on) = parts s m q more t h in
      more-Turns _ t line' sent goes_on (
        Acts-Quiet s m (q >> return more) line' sent returns (acts returns)
          (Only-bind (is_quiet c.chat_window) q _ quiet (λ _. tt)))

  turn-down :
      (s : S) (t : Turn) (line' : Bytes)
      → let p = add_key c.chat_window key_down >> (fetch c >> return leave) in
        (run k p s).outcome ≡ returned t → Turns (run k p s) t line' []
  turn-down s t line' h =
      let m = add_key c.chat_window key_down in
      let q = fetch c >> return leave in
      let first = run k m s in
      let rest = run k q first.final in
      let (returns, nothing, no_key) = add_down s in
      let quiet =
        Only-bind (is_quiet c.chat_window) (fetch c) (λ _. return leave)
          (fetch-Quiet c.chat_window c other) (λ _. tt) in
      let rest_is =
        run-Quiet k c.chat_window width line cursor window c.send_fd q first.final quiet in
      leave-Turns _ t line' [] (parts s m (fetch c) leave t h).1 (
        rw (run-bind k m (λ _. q) s, returns)
          (
            written-append c.send_fd first.trace rest.trace ∙ ap₂ (λ a b. a ++ b) nothing rest_is.2,
            keys-append c.chat_window first.trace rest.trace ∙ ap₂ (λ a b. a ++ b) no_key rest_is.3,
          ))

  pub handle_key-Turns :
      (s : S) (key : Key) (t : Turn)
      → cursor s ≡ length (line s)
      → no_nul c.username ≡ true
      → no_nul (line s) ≡ true
      → IsPlain key
      → let r = run k (handle_key c (some key)) s in
        r.outcome ≡ returned t
        → Turns r t
            (line_after (max_message_sent width) (line s) key)
            (sent_by c.username (line s) key)
  unfolding handle_key
  handle_key-Turns s (character x) t at n n' plain = elim (Bool-cases (x == b'\n')) [
    | inl e ↦ rw e (
        turn-Quiet s (handle_newline c.chat_window c.send_fd c.username) (return tt) t _ _ tt (
          handle_newline-Acts k c.chat_window width c.send_fd line cursor window s c.username at n
            n'))
    | inr e ↦ rw e (
        turn-Quiet s (add_key c.chat_window (character x)) (fetch c) t _ _
          (fetch-Quiet c.chat_window c other)
          (λ _.
            (add_key-Acts k c.chat_window width c.send_fd line cursor window wide s x
              (is_printable-plain x e plain) at).1))
  ]
  handle_key-Turns s key_backspace t at n n' plain =
      turn-Quiet s (handle_backspace c.chat_window) (return tt) t _ _ tt (λ _.
        (handle_backspace-Acts k c.chat_window width c.send_fd line cursor window wide s at).1)
  handle_key-Turns s key_down t at n n' plain = turn-down s t (line s)
