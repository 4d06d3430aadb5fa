-- ===== src/FrontEnd/Sizes.antt =====
-- The sizes of the strings that the client parses.
use papaya_chat.Base.{
  ◌≡◌, true, not, if◌then◌else◌, ◌<◌, ℕ, List, Option, none, some, Bytes, String, codes, length,
  length-append, ◌++◌, arith, Bool-cases, inl, inr,
}
use papaya_chat.Posix.{
  Prog, return, sys, ◌>>◌, ◌>>=◌, Kernel, Event, run, Run, Outcome, returned, ended, running, Block,
  free, malloc, getenv, fopen,
}
use papaya_chat.Posix.Runs.{run-bind, continue}
use papaya_chat.ConfigParser.{Reading, parse_config_file}
use papaya_chat.ConfigParser.Bounds.{
  Fits, OpensShort, OpensShort-large, ReturnsFit, parse_config_file-ReturnsFit,
}
use papaya_chat.Errors.{stop_with}
use papaya_chat.Errors.Ends.{Stops, stop_with-Stops}
use papaya_chat.FrontEnd.{Strings, parse_or_stop, parse_strings, home_strings, get_config_values}

-- It returns with a result that satisfies `P`, or ends the process.
abbrev pub Gives : {A : Type 0} → (A → Type 0) → Outcome A → Type 0
Gives P (returned a) = P a
Gives P (ended x) = Unit
Gives P running = ⊥

continue-Gives :
    {A B S : Type 0} (P : A → Type 0) (Q : B → Type 0) (o : Outcome A) (t : List Event) (s : S)
    (f : A → S → Run B S)
    → Gives P o
    → ((a : A) (s' : S) → P a → Gives Q (f a s').outcome)
    → Gives Q (continue o t s f).outcome
continue-Gives P Q (returned a) t s f h g = g a s h
continue-Gives P Q (ended x) t s f h g = tt
continue-Gives P Q running t s f h g = h

Gives-bind :
    {A B S : Type 0} (k : Kernel S) (P : A → Type 0) (Q : B → Type 0) (m : Prog A) (f : A → Prog B)
    (s : S)
    → Gives P (run k m s).outcome
    → ((a : A) (s' : S) → P a → Gives Q (run k (f a) s').outcome)
    → Gives Q (run k (m >>= f) s).outcome
Gives-bind k P Q m f s h g =
    rw (run-bind k m f s)
      (continue-Gives P Q (run k m s).outcome (run k m s).trace (run k m s).final _ h g)

Stops-Gives : {A : Type 0} (P : A → Type 0) (o : Outcome A) → Stops o → Gives P o
Stops-Gives P (returned a) h = absurd h
Stops-Gives P (ended x) h = tt
Stops-Gives P running h = h

ReturnsFit-Gives :
    (size : ℕ) (value : Bytes) (o : Outcome Reading)
    → ReturnsFit size value o
    → Gives (λ r. Fits size value r.success r.return_value) o
ReturnsFit-Gives size value (returned r) h = h
ReturnsFit-Gives size value (ended x) h = tt
ReturnsFit-Gives size value running h = h

-- With its NUL, it fits a block of `size` bytes.
abbrev pub IsWithin : ℕ → Bytes → Type 0
IsWithin size value = length value < size

-- The user name has ": " behind it.
pub record FitBlocks (size : ℕ) (v : Strings) : Type 0 where
  pub username : IsWithin 512 v.username
  pub port : IsWithin 510 v.port
  pub host : IsWithin 510 v.host
  pub key : IsWithin size v.key

module _ {S : Type 0} (k : Kernel S) where
  parsed_or_stop-Gives :
      (size : ℕ) (value : Bytes) (message : String) (r : Reading) (s : S)
      → Fits size value r.success r.return_value
      → Gives
          (IsWithin size)
          (run k (if not r.success then stop_with message else return r.return_value) s).outcome
  parsed_or_stop-Gives size value message r s h = elim (Bool-cases r.success) [
    | inl e ↦ rw e (success-within h e)
    | inr e ↦ rw e (Stops-Gives (IsWithin size) _ (stop_with-Stops Bytes k s message))
  ]
    where
      success-within :
          Fits size value r.success r.return_value → r.success ≡ true → IsWithin size r.return_value
      success-within (inl small) e = small
      success-within (inr (failed, kept)) e = cc

  parse_or_stop-Gives :
      (size : ℕ) (pathname value : Bytes) (parameter message : String) (s : S)
      → OpensShort size (k.answer (fopen pathname) s).0
      → Gives (IsWithin size) (run k (parse_or_stop pathname parameter value message) s).outcome
  unfolding parse_or_stop
  parse_or_stop-Gives size pathname value parameter message s h =
      Gives-bind k (λ r. Fits size value r.success r.return_value) (IsWithin size)
        (parse_config_file pathname (codes parameter) value) _ s
        (ReturnsFit-Gives size value _
          (parse_config_file-ReturnsFit k s size pathname (codes parameter) value h))
        (parsed_or_stop-Gives size value message)

  -- Every file has lines that are short enough for a block of 510 bytes.
  parse_any-Gives :
      (pathname value : Bytes) (parameter message : String) (s : S)
      → Gives (IsWithin 510) (run k (parse_or_stop pathname parameter value message) s).outcome
  parse_any-Gives pathname value parameter message s =
      parse_or_stop-Gives 510 pathname value parameter message s
        (OpensShort-large 510 (k.answer (fopen pathname) s).0 (omega arith))

module _ {S : Type 0} (k : Kernel S) (size : ℕ)
    (short : (pathname : Bytes) (s : S) → OpensShort size (k.answer (fopen pathname) s).0) where
  parse_strings-Gives :
      (block : ℕ) (before : Strings) (home : Option Bytes) (s : S)
      → Gives (FitBlocks size) (run k (parse_strings block before home) s).outcome
  unfolding parse_strings
  parse_strings-Gives block before none s = tt
  parse_strings-Gives block before (some home) s =
      let path = home ++ codes "/.papayachat/client.config" in
      let parse : String → Bytes → String → Prog Bytes =
        λ parameter value. parse_or_stop path parameter value in
      let finish : Bytes → Bytes → Bytes → Bytes → Prog Strings = λ u p o y.
        sys (free block)
        >> return (record { username = u ++ codes ": "; port = p; host = o; key = y }) in
      let keyed : Bytes → Bytes → Bytes → Prog Strings =
        λ u p o. parse "KEY" before.key "parseConfigFile for key failed" >>= finish u p o in
      let hosted : Bytes → Bytes → Prog Strings =
        λ u p. parse "HOST" before.host "parseConfigFile for host failed" >>= keyed u p in
      let ported : Bytes → Prog Strings =
        λ u. parse "PORT" before.port "parseConfigFile for port failed" >>= hosted u in
      let step : (P : Bytes → Type 0) (m : Prog Bytes) (f : Bytes → Prog Strings) (s : S)
          → Gives P (run k m s).outcome
          → ((v : Bytes) (s' : S) → P v → Gives (FitBlocks size) (run k (f v) s').outcome)
          → Gives (FitBlocks size) (run k (m >>= f) s).outcome =
        λ P. Gives-bind k P (FitBlocks size) in
      step (IsWithin 510) (parse "USERNAME" before.username "parseConfigFile for username failed")
        ported s
        (parse_any-Gives k path before.username "USERNAME" "parseConfigFile for username failed" s)
        λ u s₁ hu.
          step (IsWithin 510) (parse "PORT" before.port "parseConfigFile for port failed")
            (hosted u) s₁
            (parse_any-Gives k path before.port "PORT" "parseConfigFile for port failed" s₁)
            λ p s₂ hp.
              step (IsWithin 510) (parse "HOST" before.host "parseConfigFile for host failed")
                (keyed u p) s₂
                (parse_any-Gives k path before.host "HOST" "parseConfigFile for host failed" s₂)
                λ o s₃ ho.
                  step (IsWithin size) (parse "KEY" before.key "parseConfigFile for key failed")
                    (finish u p o) s₃
                    (parse_or_stop-Gives k size path before.key "KEY"
                      "parseConfigFile for key failed" s₃ (short path s₃))
                    λ y s₄ hy. record {
                      username = omega (arith, length-append u (codes ": "), hu);
                      port = hp;
                      host = ho;
                      key = hy;
                    }

  home_strings-Gives :
      (before : Strings) (o : Option Block) (s : S)
      → Gives (FitBlocks size) (run k (home_strings before o) s).outcome
  unfolding home_strings
  home_strings-Gives before none s =
      Stops-Gives (FitBlocks size) _ (stop_with-Stops Strings k s "malloc failed")
  home_strings-Gives before (some b) s =
      parse_strings-Gives b.addr before (k.answer (getenv "HOME") s).0
        (k.answer (getenv "HOME") s).1

  -- Whatever the four blocks held before, and whatever the kernel replies, but that no file that it
  -- opens has a line of more than `size` + 1 characters (which is no condition if 510 <= size):
  -- `getConfigValues` of the client returns or ends the process. When it returns, the key has fewer
  -- than `size` characters, so that for size 128 it fits its block of KEY_LENGTH bytes with the NUL.
  -- The user name with its ": " has at most 511 characters and port and host at most 509 for every
  -- file, so that they fit their blocks of MAX_LINE_LENGTH + 10 bytes.
  pub get_config_values-Gives :
      (before : Strings) (s : S)
      → Gives (FitBlocks size) (run k (get_config_values before) s).outcome
  unfolding get_config_values
  get_config_values-Gives before s =
      home_strings-Gives before (k.answer (malloc 1024) s).0 (k.answer (malloc 1024) s).1
