-- ===== src/Profiling/Printed.antt =====
-- What the profiling server prints, and what it leaves behind.
use papaya_chat.Base.{
  String, ℕ, zero, suc, ◌≤◌, ◌≡◌, refl, ap, ◌∙◌, List, [], ◌∷◌, ◌++◌, Option, none, some, true,
  Bytes, length, drop, arith, ◌==◌,
}
use papaya_chat.CString.{c_str, overwrite}
use papaya_chat.Posix.{
  Kernel, run, Outcome, returned, ended, running, exit_now, read, malloc, Block, Prog,
}
use papaya_chat.Posix.Monitor.{heap}
use papaya_chat.Config.{buf_size}
use papaya_chat.ClientRequest.Message.{no_nul}
use papaya_chat.Errors.{stop_with}
use papaya_chat.Errors.Ends.{Stops, stop_with-Stops}
use papaya_chat.Profiling.{shown, show_read, receive_loop, receive_into, receive_messages}

drop-append_short : (n : ℕ) (a b : Bytes) → n ≤ length a → drop n (a ++ b) ≡ drop n a ++ b
drop-append_short zero a b h = refl
drop-append_short (suc n) [] b h = absurd (omega arith)
drop-append_short (suc n) (x ∷ a) b h = drop-append_short n a b (omega arith)

c_str-append : (a b : Bytes) → no_nul a ≡ true → c_str (a ++ b) ≡ a ++ c_str b
unfolding c_str no_nul
c_str-append [] b g = refl
c_str-append (x ∷ a) b g = ground (arith, c_str-append a b)

no_nul-drop : (n : ℕ) (a : Bytes) → no_nul a ≡ true → no_nul (drop n a) ≡ true
unfolding no_nul
no_nul-drop zero a g = g
no_nul-drop (suc n) [] g = refl
no_nul-drop (suc n) (x ∷ a) g = ground (arith, no_nul-drop n a)

-- If neither of two messages has a NUL and the second is not longer than the first, then the second
-- is printed with the end of the first behind it, and then with what the block held before both, up
-- to a NUL.
shown-overwrite :
    (long short junk : Bytes)
    → no_nul long ≡ true
    → no_nul short ≡ true
    → length short ≤ length long
    → shown short (overwrite long junk)
      ≡ short ++ (drop (length short) long ++ c_str (drop (length long) junk))
shown-overwrite long short junk n n' h =
    c_str-append short _ n'
    ∙ ap (λ l. short ++ c_str l) (drop-append_short (length short) long _ h)
    ∙ ap (λ l. short ++ l)
        (c_str-append (drop (length short) long) _ (no_nul-drop (length short) long n))

-- How the process of a connection may come out, with the blocks that it holds.
abbrev Frees : ℕ → Outcome (Unit {0}) → List ℕ → Type 0
Frees addr (returned a) held = ⊥
Frees addr running held = held ≡ addr ∷ []
Frees addr (ended (exit_now zero)) held = held ≡ []
Frees addr (ended _) held = Unit

stops-Frees : (addr : ℕ) (o : Outcome (Unit {0})) (held : List ℕ) → Stops o → Frees addr o held
stops-Frees addr (returned a) held h = h
stops-Frees addr running held h = absurd h
stops-Frees addr (ended (exit_now n)) held h = absurd h
stops-Frees addr (ended x) held h = tt

module _ {S : Type 0} (k : Kernel S) (decimal : ℕ → Bytes) (client_fd : ℕ) where
  stopped :
      (addr : ℕ) (held : List ℕ) (s : S) (message : String)
      → let r = run k (stop_with message) s in Frees addr r.outcome held
  stopped addr held s message = stops-Frees addr _ held (stop_with-Stops (Unit {0}) k s message)

  show_read-Frees :
      (addr : ℕ) (buf : Bytes) (next : Bytes → Prog (Unit {0})) (o : Option Bytes) (s : S)
      → ((buf' : Bytes) (s : S)
          → let r = run k (next buf') s in Frees addr r.outcome (heap (addr ∷ []) r.trace))
      → let r = run k (show_read decimal addr buf next o) s in
        Frees addr r.outcome (heap (addr ∷ []) r.trace)
  unfolding show_read
  show_read-Frees addr buf next none s later = stopped addr _ s "read() failed."
  show_read-Frees addr buf next (some []) s later =
      let same : (addr == addr) ≡ true = ground arith in rw same refl
  show_read-Frees addr buf next (some (b ∷ bytes)) s later = later _ _

  receive_loop-Frees :
      (rounds addr : ℕ) (buf : Bytes) (s : S)
      → let r = run k (receive_loop decimal rounds client_fd addr buf) s in
        Frees addr r.outcome (heap (addr ∷ []) r.trace)
  unfolding receive_loop
  receive_loop-Frees zero addr buf s = refl
  receive_loop-Frees (suc n) addr buf s =
      let (o, s₁) = k.answer (read client_fd buf_size) s in
      show_read-Frees addr buf (receive_loop decimal n client_fd addr) o s₁
        (λ buf' s'. receive_loop-Frees n addr buf' s')

  -- Whatever the kernel replies, if malloc gave a block: the process of a connection holds just this
  -- block as long as it runs, and none when it ends with EXIT_SUCCESS; it does not return.
  receive_messages-Frees :
      (rounds : ℕ) (s : S) (b : Block)
      → (k.answer (malloc buf_size) s).0 ≡ some b
      → let r = run k (receive_messages decimal rounds client_fd) s in
        Frees b.addr r.outcome (heap [] r.trace)
  unfolding receive_messages receive_into
  receive_messages-Frees rounds s b e =
      rw e (receive_loop-Frees rounds b.addr b.junk (k.answer (malloc buf_size) s).1)
