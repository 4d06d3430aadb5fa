-- ===== src/Screen/Shown.antt =====
-- What the front end shows of what it fetched.
use papaya_chat.Base.{
  String, codes, ℕ, ◌≡◌, ◌≢◌, refl, ap, ap₂, sym, ◌∙◌, List, [], ◌∷◌, ◌++◌, append_assoc,
  append-nil, Option, none, some, true, Bytes, pos, ◌==◌, ltb, if◌then◌else◌, arith, inl, inr,
  Bool-cases, length, drop,
}
use papaya_chat.Config.{buf_size}
use papaya_chat.CString.{c_str, overwrite}
use papaya_chat.Posix.{
  Call, Reply, Event, Kernel, run, returned, curses, Block, read, malloc, wprintw, wclear, wmove,
  getcury,
}
use papaya_chat.Posix.Runs.{bind-returned}
use papaya_chat.ClientRequest.Message.{no_nul, c_str-append_nul}
use papaya_chat.Errors.{stop_with}
use papaya_chat.Errors.Ends.{stop_with-ne}
use papaya_chat.Messages.{fetch_message}
use papaya_chat.Screen.{print_messages_from_server, fetch_and_show, show_message, wrap_text}
use papaya_chat.Screen.Newline.{guard}

-- The text that was printed in a window.
abbrev pub printed : ℕ → (c : Call) → Reply c → Bytes
printed w (curses (wprintw w' bytes)) r = if w == w' then bytes else []
printed w _ r = []

abbrev pub shown_in : ℕ → List Event → Bytes
shown_in w [] = []
shown_in w (e ∷ es) = printed w e.asked e.reply ++ shown_in w es

shown_in-append : (w : ℕ) (t u : List Event) → shown_in w (t ++ u) ≡ shown_in w t ++ shown_in w u
shown_in-append w [] u = refl
shown_in-append w (e ∷ t) u =
    ap (◌++◌ (printed w e.asked e.reply)) (shown_in-append w t u)
    ∙ sym (append_assoc (printed w e.asked e.reply) (shown_in w t) (shown_in w u))

module _ {S : Type 0} (k : Kernel S) (window max_y pipe_fd : ℕ) where
  stops : (s : S) (message : String) → (run k (stop_with message) s).outcome ≢ returned tt
  stops s message = stop_with-ne (Unit {0}) k s message tt

  wrap_text-shown :
      (s : S) (o : Option ℕ)
      → let r = run k (wrap_text window max_y o) s in
        r.outcome ≡ returned tt → shown_in window r.trace ≡ []
  unfolding wrap_text
  wrap_text-shown s none = λ h. absurd (stops s _ h)
  wrap_text-shown s (some y) = elim (Bool-cases (ltb max_y y)) [
    | inl e ↦
        (let (cleared, s₁) = k.answer (curses (wclear window)) s in
          let (moved, s₂) = k.answer (curses (wmove window (pos 0) (pos 0))) s₁ in
          rw e (
            guard k s₁ cleared _ _ tt (λ r. shown_in window r.trace ≡ []) (stops s₁ "wclear")
              (λ _.
                guard k s₂ moved _ _ tt (λ r. shown_in window r.trace ≡ []) (stops s₂ "wmove")
                  (λ _ _. refl))))
    | inr e ↦ rw e (λ _. refl)
  ]

  show_message-shown :
      (s : S) (b : Block) (c : ℕ) (bytes : Bytes)
      → let r = run k (show_message window max_y b (some (c ∷ bytes))) s in
        r.outcome ≡ returned tt
        → shown_in window r.trace ≡ c_str (overwrite (c ∷ bytes) b.junk) ++ codes "\n"
  unfolding show_message
  show_message-shown s b c bytes =
      let (y, s₁) = k.answer (curses (getcury window)) s in
      let text = c_str (overwrite (c ∷ bytes) b.junk) ++ codes "\n" in
      let same : (window == window) ≡ true = ground arith in
      bind-returned k (wrap_text window max_y y) _ s₁ tt (λ r. shown_in window r.trace ≡ text)
        (λ u returns _.
          shown_in-append window (run k (wrap_text window max_y y) s₁).trace _
          ∙ ap₂ (λ a b. a ++ b) (wrap_text-shown s₁ y returns) (rw same (append-nil text)))

  fetch_and_show-shown :
      (s : S) (b : Block) (c : ℕ) (bytes : Bytes)
      → (k.answer (read pipe_fd buf_size) s).0 ≡ some (c ∷ bytes)
      → let r = run k (fetch_and_show window pipe_fd max_y (some b)) s in
        r.outcome ≡ returned tt
        → shown_in window r.trace ≡ c_str (overwrite (c ∷ bytes) b.junk) ++ codes "\n"
  unfolding fetch_and_show fetch_message
  fetch_and_show-shown s b c bytes e =
      let s₁ = (k.answer (read pipe_fd buf_size) s).1 in
      let text = c_str (overwrite (c ∷ bytes) b.junk) ++ codes "\n" in
      rw e (
        bind-returned k (show_message window max_y b (some (c ∷ bytes))) _ s₁ tt
          (λ r. shown_in window r.trace ≡ text)
          (λ u returns _.
            shown_in-append window (run k (show_message window max_y b (some (c ∷ bytes))) s₁).trace
              _
            ∙ append-nil _
            ∙ show_message-shown s₁ b c bytes returns))

  -- If malloc gives a block, one read from the pipe gives a text without a NUL, a NUL and more, and
  -- the function returns, then what it shows is the text alone: what came behind the NUL is lost.
  pub print_messages_from_server-c_str :
      (s : S) (b : Block) (c : ℕ) (text rest : Bytes)
      → (k.answer (malloc buf_size) s).0 ≡ some b
      → (k.answer (read pipe_fd buf_size) (k.answer (malloc buf_size) s).1).0
        ≡ some (c ∷ (text ++ 0 ∷ rest))
      → no_nul (c ∷ text) ≡ true
      → let r = run k (print_messages_from_server window pipe_fd max_y) s in
        r.outcome ≡ returned tt → shown_in window r.trace ≡ c ∷ (text ++ codes "\n")
  unfolding print_messages_from_server
  print_messages_from_server-c_str s b c text rest e e' n =
      let s₁ = (k.answer (malloc buf_size) s).1 in
      let bytes = text ++ 0 ∷ rest in
      let one : c_str (overwrite (c ∷ bytes) b.junk) ≡ c ∷ text =
        ap c_str (append_assoc (c ∷ text) (0 ∷ rest) (drop (length (c ∷ bytes)) b.junk))
        ∙ c_str-append_nul (c ∷ text) (rest ++ drop (length (c ∷ bytes)) b.junk) n in
      rw e (λ h. fetch_and_show-shown s₁ b c bytes e' h ∙ ap (λ l. l ++ codes "\n") one)
