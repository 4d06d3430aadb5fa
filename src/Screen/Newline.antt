-- ===== src/Screen/Newline.antt =====
-- handleNewline on the window that `LineWindow` describes.
use papaya_chat.Base.{
  String, codes, ℕ, ◌≡◌, ◌≢◌, refl, ap, sym, ◌∙◌, List, [], ◌∷◌, ◌++◌, Option, none, some, Bool,
  true, false, not, Bytes, length, take, pos, if◌then◌else◌, arith, append-nil, subst,
}
use papaya_chat.Config.{buf_size}
use papaya_chat.CString.{c_str}
use papaya_chat.Posix.{
  Prog, return, sys, ◌>>=◌, ◌>>◌, Event, Kernel, run, Run, Outcome, returned, ended, running, after,
  curses, Block, write, malloc, free, wmove, wdeleteln, endwin, mvwinnstr, getcurx,
}
use papaya_chat.Posix.Monitor.{taken}
use papaya_chat.Posix.Runs.{run-bind, continue}
use papaya_chat.ChatLog.{wrote}
use papaya_chat.ChatLog.Locks.{take-length}
use papaya_chat.ClientRequest.Message.{no_nul}
use papaya_chat.Errors.{stop_with}
use papaya_chat.Errors.Ends.{Stops, stop_with-Stops, stop_with-ne}
use papaya_chat.Messages.{send_message_to_pipe}
use papaya_chat.Screen.{clear_line, send_line, append_line, read_line, take_line, handle_newline}
use papaya_chat.Screen.Window.{Acts, LineWindow}

c_str-no_nul : (text : Bytes) → no_nul text ≡ true → c_str text ≡ text
unfolding c_str no_nul
c_str-no_nul [] g = refl
c_str-no_nul (x ∷ text) g = ground (arith, c_str-no_nul text)

pub no_nul-append : (a b : Bytes) → no_nul a ≡ true → no_nul b ≡ true → no_nul (a ++ b) ≡ true
unfolding no_nul
no_nul-append [] b g h = h
no_nul-append (x ∷ a) b g h = ground (arith, no_nul-append a b)

newline-no_nul : no_nul (codes "\n") ≡ true
unfolding no_nul
newline-no_nul = refl

-- After a test that ends the process where it fails.
pub guard :
    {A S : Type 0} (k : Kernel S) (s : S) (b : Bool) (p q : Prog A) (a : A) (P : Run A S → Type 0)
    → ((run k p s).outcome ≢ returned a)
    → (b ≡ true → (run k q s).outcome ≡ returned a → P (run k q s))
    → (run k (if not b then p else q) s).outcome ≡ returned a
    → P (run k (if not b then p else q) s)
guard k s true p q a P never g h = g refl h
guard k s false p q a P never g h = absurd (never h)

guard-bind :
    {A B S : Type 0} (k : Kernel S) (s : S) (b : Bool) (p q : Prog A) (f : A → Prog B) (a : B)
    (P : Run B S → Type 0)
    → ((run k (p >>= f) s).outcome ≢ returned a)
    → (b ≡ true → (run k (q >>= f) s).outcome ≡ returned a → P (run k (q >>= f) s))
    → (run k ((if not b then p else q) >>= f) s).outcome ≡ returned a
    → P (run k ((if not b then p else q) >>= f) s)
guard-bind k s true p q f a P never g h = g refl h
guard-bind k s false p q f a P never g h = absurd (never h)

taken-wrote : (fd : ℕ) (m : Bytes) (o : Option ℕ) → wrote m o ≡ true → taken fd (write fd m) o ≡ m
taken-wrote fd m none e = cc
taken-wrote fd m (some n) e = ground (arith, e, take-length m)

continue-ended :
    {A B S : Type 0} (o : Outcome A) (t : List Event) (s : S) (f : A → S → Run B S) (b : B)
    → Stops o
    → (continue o t s f).outcome ≢ returned b
continue-ended (returned a) t s f b h = absurd h
continue-ended (ended x) t s f b h = λ e. cc
continue-ended running t s f b h = absurd h

module _ {S : Type 0} (k : Kernel S) (w width fd : ℕ) (line : S → Bytes) (cursor : S → ℕ)
    (window : LineWindow k w width line cursor) where
  stops : (s : S) (message : String) → (run k (stop_with message) s).outcome ≢ returned tt
  stops s message = stop_with-ne (Unit {0}) k s message tt

  stops-bind :
      {B : Type 0} (s : S) (message : String) (f : Unit {0} → Prog B) (b : B)
      → (run k (stop_with message >>= f) s).outcome ≢ returned b
  stops-bind s message f b =
      let r = run k (stop_with {A = Unit {0}} message) s in
      rw (run-bind k (stop_with message) f s)
        (continue-ended r.outcome r.trace r.final _ b (stop_with-Stops (Unit {0}) k s message))

  clear_line-Acts :
      (s : S)
      → let r = run k (clear_line w) s in r.outcome ≡ returned tt → Acts w fd line cursor r [] []
  unfolding clear_line
  clear_line-Acts s =
      let (deleted, s₁) = k.answer (curses (wdeleteln w)) s in
      let (moved, s₂) = k.answer (curses (wmove w (pos 0) (pos 0))) s₁ in
      let to_origin = window.moves s₁ 0 in
      guard k s₁ deleted _ _ tt (λ r. Acts w fd line cursor r [] [])
        (stops (k.answer (curses endwin) s₁).1 "delete line failed, after newline.")
        (λ _.
          guard k s₂ moved _ _ tt (λ r. Acts w fd line cursor r [] [])
            (stops (k.answer (curses endwin) s₂).1 "move cursor to origin failed, after newline.")
            (λ _ _. (to_origin.0 ∙ window.clears s, to_origin.1, refl, refl)))

  -- A write, and then the end of the line.
  sent-Acts :
      (s : S) (m : Bytes) (message username : ℕ)
      → let r =
          run k
            (do
              sys (write fd m) >>= λ sent.
                  if not (wrote m sent) then stop_with "write sendMessageToPipe()" else return tt
              sys (free message)
              sys (free username)
              clear_line w)
            s in
        r.outcome ≡ returned tt → Acts w fd line cursor r [] m
  sent-Acts s m message username =
      let (sent, s₁) = k.answer (write fd m) s in
      let s₂ = (k.answer (free message) s₁).1 in
      let s₃ = (k.answer (free username) s₂).1 in
      guard-bind k s₁ (wrote m sent) _ _ _ tt
        (λ r. Acts w fd line cursor (after (record { asked = write fd m; reply = sent }) r) [] m)
        (stops-bind s₁ "write sendMessageToPipe()" _ tt)
        (λ e h.
          let (none_left, at_origin, quiet, keyless) = clear_line-Acts s₃ h in
          (none_left, at_origin, rw (taken-wrote fd m sent e, quiet) (append-nil m), keyless))

  -- The line goes to the pipe behind the name.
  send_line-Acts :
      (s : S) (username text : Bytes) (message : ℕ) (b : Option Block)
      → no_nul username ≡ true
      → no_nul text ≡ true
      → let r = run k (send_line w fd username message text b) s in
        r.outcome ≡ returned tt → Acts w fd line cursor r [] (username ++ (text ++ codes "\n"))
  unfolding send_line send_message_to_pipe
  send_line-Acts s username text message none n n' h = absurd (stops s _ h)
  send_line-Acts s username text message (some b) n n' h =
      let sent_text = username ++ (text ++ codes "\n") in
      let whole : c_str (c_str username ++ (c_str text ++ codes "\n")) ≡ sent_text =
        rw (c_str-no_nul username n, c_str-no_nul text n')
          (c_str-no_nul sent_text
            (no_nul-append username _ n (no_nul-append text _ n' newline-no_nul))) in
      let r = run k (send_line w fd username message text (some b)) s in
      subst (λ m. Acts w fd line cursor r [] m) whole (sent-Acts s _ message b.addr h)

  append_line-Acts :
      (s : S) (username text : Bytes) (message : ℕ) (o : Option Bytes)
      → no_nul username ≡ true
      → no_nul text ≡ true
      → o ≡ some text
      → let r = run k (append_line w fd username message o) s in
        r.outcome ≡ returned tt → Acts w fd line cursor r [] (username ++ (text ++ codes "\n"))
  unfolding append_line
  append_line-Acts s username text message none n n' e h = cc
  append_line-Acts s username text message (some text') n n' e h =
      let e' : text' ≡ text = cc in
      let (username_block, s₁) = k.answer (malloc buf_size) s in
      subst
        (λ m.
          Acts w fd line cursor (run k (append_line w fd username message (some text')) s) []
            (username ++ (m ++ codes "\n")))
        e'
        (send_line-Acts s₁ username text' message username_block n
          (subst (λ m. no_nul m ≡ true) (sym e') n') h)

  read_line-Acts :
      (s : S) (username : Bytes) (message : ℕ) (o : Option ℕ)
      → no_nul username ≡ true
      → no_nul (line s) ≡ true
      → o ≡ some (length (line s))
      → let r = run k (read_line w fd username message o) s in
        r.outcome ≡ returned tt → Acts w fd line cursor r [] (username ++ (line s ++ codes "\n"))
  unfolding read_line
  read_line-Acts s username message none n n' e h = cc
  read_line-Acts s username message (some x) n n' e h =
      let e' : x ≡ length (line s) = cc in
      let (text, s₁) = k.answer (curses (mvwinnstr w (pos 0) (pos 0) x)) s in
      append_line-Acts s₁ username (line s) message text n n'
        ((window.reads s x).0
          ∙ ap (λ j. some (take j (line s))) e'
          ∙ ap some (take-length (line s)))
        h

  take_line-Acts :
      (s : S) (username : Bytes) (o : Option Block)
      → cursor s ≡ length (line s)
      → no_nul username ≡ true
      → no_nul (line s) ≡ true
      → let r = run k (take_line w fd username o) s in
        r.outcome ≡ returned tt → Acts w fd line cursor r [] (username ++ (line s ++ codes "\n"))
  unfolding take_line
  take_line-Acts s username none at n n' h = absurd (stops s _ h)
  take_line-Acts s username (some message) at n n' h =
      let (x, s₁) = k.answer (curses (getcurx w)) s in
      let (kept, stood) = window.keeps s (curses (getcurx w)) refl in
      subst
        (λ l.
          Acts w fd line cursor (run k (take_line w fd username (some message)) s) []
            (username ++ (l ++ codes "\n")))
        kept
        (read_line-Acts s₁ username message.addr x n (subst (λ l. no_nul l ≡ true) (sym kept) n')
          (window.at_column s ∙ ap some at ∙ ap (λ l. some (length l)) (sym kept)) h)

  -- If handleNewline returns, with the cursor behind the line, it has written to the pipe the name,
  -- the line and a newline, and the line is empty.
  pub handle_newline-Acts :
      (s : S) (username : Bytes)
      → cursor s ≡ length (line s)
      → no_nul username ≡ true
      → no_nul (line s) ≡ true
      → let r = run k (handle_newline w fd username) s in
        r.outcome ≡ returned tt → Acts w fd line cursor r [] (username ++ (line s ++ codes "\n"))
  unfolding handle_newline
  handle_newline-Acts s username at n n' h =
      let (message, s₁) = k.answer (malloc buf_size) s in
      let (kept, stood) = window.keeps s (malloc buf_size) refl in
      subst
        (λ l.
          Acts w fd line cursor (run k (handle_newline w fd username) s) []
            (username ++ (l ++ codes "\n")))
        kept
        (take_line-Acts s₁ username message (stood ∙ at ∙ ap length (sym kept)) n
          (subst (λ l. no_nul l ≡ true) (sym kept) n') h)
