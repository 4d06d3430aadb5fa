-- ===== src/Screen/Typed.antt =====
-- The key loop on the keys of one session, up to KEY_DOWN.
use papaya_chat.Base.{
  ℕ, zero, suc, ◌≤◌, ◌≡◌, refl, ap, ap₂, sym, ◌∙◌, List, [], ◌∷◌, ◌++◌, some, true, false, Bytes,
  length, arith, ◌==◌, subst,
}
use papaya_chat.Posix.{return, Kernel, run, returned, curses, Key, key_down, wgetch}
use papaya_chat.Posix.Monitor.{written}
use papaya_chat.Posix.Runs.{run-bind}
use papaya_chat.ClientRequest.Message.{no_nul}
use papaya_chat.Screen.{Chat, Turn, more, leave, handle_key, key_loop, max_message_sent}
use papaya_chat.Screen.Editor.{keys, AllPlain, sent_by_all, sent_by, line_after}
use papaya_chat.Screen.Window.{LineWindow}
use papaya_chat.Screen.Turns.{keys-append, pressed_self}
use papaya_chat.Screen.Session.{key_loop-sent_by_all}
use papaya_chat.Screen.Works.{Works, turn_of, run-Finishes, handle_key-Finishes}

-- No KEY_DOWN among the keys.
abbrev pub AllMore : List Key → Type 0
AllMore [] = Unit
AllMore (key ∷ ks) = (turn_of key ≡ more) × AllMore ks

AllPlain-append : (ks : List Key) → AllPlain ks → AllPlain (ks ++ key_down ∷ [])
AllPlain-append [] h = (tt, tt)
AllPlain-append (key ∷ ks) h = (h.0, AllPlain-append ks h.1)

sent_by_all-append :
    (max : ℕ) (username line : Bytes) (ks : List Key)
    → sent_by_all max username line (ks ++ key_down ∷ []) ≡ sent_by_all max username line ks
sent_by_all-append max username line [] = refl
sent_by_all-append max username line (key ∷ ks) =
    ap (λ l. sent_by username line key ++ l)
      (sent_by_all-append max username (line_after max line key) ks)

module _ {S : Type 0} (k : Kernel S) (c : Chat) (typed : S → List Key)
    (works : Works k c.chat_window typed) where
  -- A round: the key, its turn and what follows.
  round_lem :
      (rounds : ℕ) (s : S) (key : Key) (rest : List Key) (t : Turn)
      → typed s ≡ key ∷ rest
      → turn_of key ≡ t
      → ((s' : S)
          → typed s' ≡ rest
          → let r = run k (elim t [ more ↦ key_loop rounds c | leave ↦ return tt ]) s' in
            (r.outcome ≡ returned tt) × (keys c.chat_window r.trace ≡ rest))
      → let r = run k (key_loop (suc rounds) c) s in
        (r.outcome ≡ returned tt) × (keys c.chat_window r.trace ≡ key ∷ rest)
  unfolding key_loop
  round_lem rounds s key rest t e turn later =
      let s₁ = (k.answer (curses (wgetch c.chat_window)) s).1 in
      let (reply, popped) = works.next s key rest e in
      let first = run k (handle_key c (some key)) s₁ in
      let (returns, same, keyless) =
        run-Finishes k c.chat_window typed works (turn_of key) (handle_key c (some key)) s₁
          (handle_key-Finishes c key) in
      let (returns', keys_are) = later first.final (same ∙ popped) in
      rw
        (
          reply,
          run-bind k (handle_key c (some key))
              (λ turn. elim turn [ more ↦ key_loop rounds c | leave ↦ return tt ]) s₁,
          returns,
          turn,
        )
        (
          returns',
          ap₂ (λ a b. a ++ b) (pressed_self c.chat_window key)
              (keys-append c.chat_window first.trace _ ∙ ap₂ (λ a b. a ++ b) keyless keys_are),
        )

  -- Enough rounds: one for each key.
  key_loop-returns :
      (ks : List Key) (rounds : ℕ) (s : S)
      → AllMore ks
      → length ks ≤ rounds
      → typed s ≡ ks ++ key_down ∷ []
      → let r = run k (key_loop (suc rounds) c) s in
        (r.outcome ≡ returned tt) × (keys c.chat_window r.trace ≡ ks ++ key_down ∷ [])
  key_loop-returns [] rounds s m h e =
      round_lem rounds s key_down [] leave e refl (λ s' _. (refl, refl))
  key_loop-returns (key ∷ ks) zero s m h e = absurd (omega arith)
  key_loop-returns (key ∷ ks) (suc rounds) s m h e =
      round_lem (suc rounds) s key (ks ++ key_down ∷ []) more e m.0
        (λ s' e'. key_loop-returns ks rounds s' m.1 (omega arith) e')

-- Where no call fails and the keys that are typed are plain and end with KEY_DOWN: with one round for
-- each key the loop returns, it has read all the keys, and it has written to the pipe what the line
-- editor makes of them.
pub key_loop-returned :
    {S : Type 0} (k : Kernel S) (width : ℕ) (c : Chat) (line : S → Bytes) (cursor : S → ℕ)
    (typed : S → List Key)
    → Works k c.chat_window typed
    → LineWindow k c.chat_window width line cursor
    → 8 ≤ width
    → (c.chat_window == c.text_window) ≡ false
    → (ks : List Key) (rounds : ℕ) (s : S) → AllMore ks
    → AllPlain ks
    → length ks ≤ rounds
    → typed s ≡ ks ++ key_down ∷ []
    → cursor s ≡ length (line s)
    → no_nul c.username ≡ true
    → no_nul (line s) ≡ true
    → let r = run k (key_loop (suc rounds) c) s in
      (r.outcome ≡ returned tt)
      × (keys c.chat_window r.trace ≡ ks ++ key_down ∷ [])
      × (written c.send_fd r.trace ≡ sent_by_all (max_message_sent width) c.username (line s) ks)
key_loop-returned k width c line cursor typed works window wide other ks rounds s m plain h e at n
      n' =
    let (returns, read_is) = key_loop-returns k c typed works ks rounds s m h e in
    (
      returns,
      read_is,
      key_loop-sent_by_all k width c line cursor window wide other (suc rounds) s at n n' returns
            (subst AllPlain (sym read_is) (AllPlain-append ks plain))
          ∙ ap (sent_by_all (max_message_sent width) c.username (line s)) read_is
          ∙ sent_by_all-append (max_message_sent width) c.username (line s) ks,
    )
