-- ===== src/Screen/Session.antt =====
-- The key loop of the front end against the line editor.
use papaya_chat.Base.{
  ℕ, zero, suc, ◌≤◌, ◌≡◌, refl, ap, ap₂, sym, ◌∙◌, List, [], ◌∷◌, ◌++◌, Option, none, some, true,
  false, Bytes, length, ◌==◌, subst,
}
use papaya_chat.Posix.{return, Event, Kernel, run, Run, returned, curses, Key, wgetch}
use papaya_chat.Posix.Monitor.{written}
use papaya_chat.Posix.Runs.{bind-returned, written-append}
use papaya_chat.ClientRequest.Message.{no_nul}
use papaya_chat.Screen.{Chat, Turn, more, leave, handle_key, max_message_sent, fetch, key_loop}
use papaya_chat.Screen.Editor.{keys, line_after, sent_by, sent_by_all, IsPlain, AllPlain}
use papaya_chat.Screen.Window.{LineWindow}
use papaya_chat.Screen.Turns.{
  Turns, turn-Quiet, handle_key-Turns, keys-append, pressed_self, no_nul-line_after,
}
use papaya_chat.Screen.Fetching.{fetch-Quiet}

module _ {S : Type 0} (k : Kernel S) (width : ℕ) (c : Chat) (line : S → Bytes) (cursor : S → ℕ)
    (window : LineWindow k c.chat_window width line cursor) (wide : 8 ≤ width)
    (other : (c.chat_window == c.text_window) ≡ false) where
  Sends : Bytes → List Event → Type 0
  Sends text trace =
      AllPlain (keys c.chat_window trace)
      → written c.send_fd trace
        ≡ sent_by_all (max_message_sent width) c.username text (keys c.chat_window trace)

  got : Option Key → Event
  got o = record { asked = curses (wgetch c.chat_window); reply = o }

  -- After a key: its turn, with the trace `first`, and the rest of the loop.
  key-Sends :
      (text : Bytes) (key : Key) (first rest : List Event)
      → (IsPlain key
          → (written c.send_fd first ≡ sent_by c.username text key)
            × (keys c.chat_window first ≡ [])
            × Sends (line_after (max_message_sent width) text key) rest)
      → Sends text (got (some key) ∷ (first ++ rest))
  unfolding Sends got
  key-Sends text key first rest turn plain =
      let keys_are : keys c.chat_window (got (some key) ∷ (first ++ rest))
          ≡ key ∷ (keys c.chat_window first ++ keys c.chat_window rest) =
        ap₂ (λ a b. a ++ b) (pressed_self c.chat_window key)
          (keys-append c.chat_window first rest) in
      let plain' = subst AllPlain keys_are plain in
      let (wrote_is, keyless, later) = turn plain'.0 in
      let keys_are' = keys_are ∙ ap (λ ks. key ∷ (ks ++ keys c.chat_window rest)) keyless in
      written-append c.send_fd first rest
      ∙ ap₂ (λ a b. a ++ b) wrote_is (later (subst AllPlain keys_are' plain).1)
      ∙ ap (sent_by_all (max_message_sent width) c.username text) (sym keys_are')

  none-Sends :
      (text : Bytes) (first rest : List Event)
      → written c.send_fd first ≡ []
      → keys c.chat_window first ≡ []
      → Sends text rest
      → Sends text (got none ∷ (first ++ rest))
  unfolding Sends got
  none-Sends text first rest nothing keyless later =
      rw
        (
          written-append c.send_fd first rest,
          keys-append c.chat_window first rest,
          nothing,
          keyless,
        )
        later

  -- What the rest of the loop is after a turn.
  Continues : Turn → S → List Event → Type 0
  Continues more s rest = cursor s ≡ length (line s) → no_nul (line s) ≡ true → Sends (line s) rest
  Continues leave s rest = rest ≡ []

  later-Sends :
      (r : Run Turn S) (t : Turn) (rest : List Event) (text sent : Bytes)
      → Turns k width c line cursor window wide other r t text sent
      → no_nul text ≡ true
      → Continues t r.final rest
      → (written c.send_fd r.trace ≡ sent) × (keys c.chat_window r.trace ≡ []) × Sends text rest
  unfolding Turns Continues Sends
  later-Sends r more rest text sent (line_is, cursor_is, wrote_is, keyless) n' later = (
    wrote_is,
    keyless,
    subst (λ l. Sends l rest) line_is
        (later (cursor_is ∙ ap length (sym line_is))
          (subst (λ l. no_nul l ≡ true) (sym line_is) n')),
  )
  later-Sends r leave rest text sent (wrote_is, keyless) n' none_left =
      (wrote_is, keyless, subst (Sends text) (sym none_left) (λ _. refl))

  turn-Sends :
      (s : S) (o : Option Key) (t : Turn) (rest : List Event)
      → cursor s ≡ length (line s)
      → no_nul c.username ≡ true
      → no_nul (line s) ≡ true
      → let r = run k (handle_key c o) s in
        r.outcome ≡ returned t
        → Continues t r.final rest
        → Sends (line s) (got o ∷ (r.trace ++ rest))
  unfolding handle_key
  turn-Sends s none t rest at n n' h later =
      let r = run k (handle_key c none) s in
      let turn =
        turn-Quiet k width c line cursor window wide other s (return tt) (fetch c) t (line s) []
          (fetch-Quiet c.chat_window c other) (λ _. (refl, at, refl, refl)) h in
      let (nothing, keyless, sends) = later-Sends r t rest (line s) [] turn n' later in
      none-Sends (line s) r.trace rest nothing keyless sends
  turn-Sends s (some key) t rest at n n' h later =
      let r = run k (handle_key c (some key)) s in
      key-Sends (line s) key r.trace rest (λ plain.
        later-Sends r t rest (line_after (max_message_sent width) (line s) key)
          (sent_by c.username (line s) key)
          (handle_key-Turns k width c line cursor window wide other s key t at n n' plain h)
          (no_nul-line_after (max_message_sent width) (line s) key plain n') later)

  continues :
      (rounds : ℕ) (s : S) (t : Turn)
      → no_nul c.username ≡ true
      → ((s : S)
          → cursor s ≡ length (line s)
          → no_nul (line s) ≡ true
          → (run k (key_loop rounds c) s).outcome ≡ returned tt
          → Sends (line s) (run k (key_loop rounds c) s).trace)
      → let r = run k (elim t [ more ↦ key_loop rounds c | leave ↦ return tt ]) s in
        r.outcome ≡ returned tt → Continues t s r.trace
  unfolding Continues
  continues rounds s more n sends h = λ at n'. sends s at n' h
  continues rounds s leave n sends h = refl

  -- If the loop of the front end returns, which it does after KEY_DOWN, and the keys that it read
  -- from the window are plain, then what it has written to the pipe is what the line editor makes
  -- of these keys: each line that was ended with a newline, in order, behind the name.
  pub key_loop-sent_by_all :
      (rounds : ℕ) (s : S)
      → cursor s ≡ length (line s)
      → no_nul c.username ≡ true
      → no_nul (line s) ≡ true
      → let r = run k (key_loop rounds c) s in
        r.outcome ≡ returned tt
        → AllPlain (keys c.chat_window r.trace)
        → written c.send_fd r.trace
          ≡ sent_by_all (max_message_sent width) c.username (line s) (keys c.chat_window r.trace)
  unfolding key_loop Sends got
  key_loop-sent_by_all zero s at n n' h = cc
  key_loop-sent_by_all (suc rounds) s at n n' h =
      let (o, s₁) = k.answer (curses (wgetch c.chat_window)) s in
      let (kept, stood) = window.keeps s (curses (wgetch c.chat_window)) refl in
      let at₁ : cursor s₁ ≡ length (line s₁) = stood ∙ at ∙ ap length (sym kept) in
      let n₁ : no_nul (line s₁) ≡ true = subst (λ l. no_nul l ≡ true) (sym kept) n' in
      subst (λ l. Sends l (run k (key_loop (suc rounds) c) s).trace) kept
        (bind-returned k (handle_key c o) _ s₁ tt (λ r. Sends (line s₁) (got o ∷ r.trace))
          (λ t h h'. turn-Sends s₁ o t _ at₁ n n₁ h (
            continues rounds (run k (handle_key c o) s₁).final t n
              (λ s at n'. key_loop-sent_by_all rounds s at n n') h'))
          h)
