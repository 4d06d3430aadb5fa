-- ===== src/ConfigParser/Bounds.antt =====
-- The parser always returns, gives back what it took, and which buffers its values fit.
use papaya_chat.Base.{
  subst, ◌⊎◌, inl, inr, Bool, true, false, ◌∙◌, ◌+◌, ℕ, zero, suc, ◌≤◌, ◌<◌, ◌≡◌, refl, List, [],
  ◌∷◌, Option, none, some, Bytes, length, arith,
}
use papaya_chat.Config.{max_line_length}
use papaya_chat.CString.{fgets, sscanf_two, c_str, line_of}
use papaya_chat.CString.Sizes.{after_line-lt, sscanf_two-second}
use papaya_chat.Posix.{Kernel, run, Outcome, returned, Block, Stream, fopen, malloc}
use papaya_chat.Posix.Monitor.{heap, heap_step, streams, stream_step}
use papaya_chat.ConfigParser.Lines.{HasShortLines, HasShortLines-line, HasShortLines-rest}
use papaya_chat.ConfigParser.{
  Line, found, next_line, end_of_file, parse_line, compare_line, Reading, parse_lines, close_config,
  parse_stream, open_config, parse_config_file,
}

-- The string fits its buffer with the NUL, or it is what was there before, after a failure.
abbrev pub Fits : ℕ → Bytes → Bool → Bytes → Type 0
Fits size value success return_value =
    (length return_value < size) ⊎ ((success ≡ false) × (return_value ≡ value))

abbrev is_found : Line → Bool
is_found found = true
is_found next_line = false
is_found end_of_file = false

module _ (size : ℕ) (parameter value : Bytes) where
  compare_line-Fits :
      (rest line : Bytes) (ws : List Bytes)
      → sscanf_two line ≡ ws
      → length line ≤ size + 1
      → let p = compare_line parameter value rest ws in
        Fits size value (is_found p.result) p.return_value
  unfolding compare_line
  compare_line-Fits rest line [] e h = inr (refl, refl)
  compare_line-Fits rest line (a ∷ []) e h = inr (refl, refl)
  compare_line-Fits rest line (a ∷ b ∷ []) e h = inl (omega (arith, sscanf_two-second line a b e))
  compare_line-Fits rest line (a ∷ b ∷ c ∷ ws) e h = inr (refl, refl)

  parse_line-Fits :
      (stream : Bytes)
      → HasShortLines size stream
      → let p = parse_line stream parameter value in
        Fits size value (is_found p.result) p.return_value
  unfolding parse_line fgets
  parse_line-Fits [] h = inr (refl, refl)
  parse_line-Fits (c ∷ cs) h =
      compare_line-Fits _ (c_str (line_of 511 (c ∷ cs))) _ refl (HasShortLines-line size (c ∷ cs) h)

compare_line-rest :
    (parameter value rest : Bytes) (ws : List Bytes)
    → (compare_line parameter value rest ws).rest ≡ rest
unfolding compare_line
compare_line-rest parameter value rest [] = refl
compare_line-rest parameter value rest (a ∷ []) = refl
compare_line-rest parameter value rest (a ∷ b ∷ []) = refl
compare_line-rest parameter value rest (a ∷ b ∷ c ∷ ws) = refl

parse_line_shrinks :
    (parameter value : Bytes) (c : ℕ) (cs : Bytes)
    → length (parse_line (c ∷ cs) parameter value).rest ≤ length cs
unfolding parse_line fgets
parse_line_shrinks parameter value c cs =
    rw (compare_line-rest parameter value _ (sscanf_two (c_str (line_of 511 (c ∷ cs)))))
      (after_line-lt 511 c cs (omega arith))

parse_line-nil :
    (parameter value : Bytes)
    → parse_line [] parameter value
      ≡ record { result = end_of_file; rest = []; return_value = value }
unfolding parse_line fgets
parse_line-nil parameter value = refl

parse_line-HasShortLines :
    (size : ℕ) (parameter value stream : Bytes)
    → HasShortLines size stream
    → HasShortLines size (parse_line stream parameter value).rest
unfolding parse_line fgets
parse_line-HasShortLines size parameter value [] h = h
parse_line-HasShortLines size parameter value (c ∷ cs) h =
    rw (compare_line-rest parameter value _ (sscanf_two (c_str (line_of 511 (c ∷ cs)))))
      (HasShortLines-rest size (c ∷ cs) h)

Line-cases : (l : Line) → (l ≡ found) ⊎ ((l ≡ next_line) ⊎ (l ≡ end_of_file))
Line-cases found = inl refl
Line-cases next_line = inr (inl refl)
Line-cases end_of_file = inr (inr refl)

-- The loop has ended, and its string fits.
abbrev EndsFit : ℕ → Bytes → Option Reading → Type 0
EndsFit size value none = ⊥
EndsFit size value (some r) = Fits size value r.success r.return_value

-- After a line that was not the one, the string may be the one that this line left.
EndsFit-later :
    (size : ℕ) (value value' : Bytes) (o : Option Reading)
    → Fits size value false value'
    → EndsFit size value' o
    → EndsFit size value o
EndsFit-later size value value' none h g = g
EndsFit-later size value value' (some r) h (inl small) = inl small
EndsFit-later size value value' (some r) (inl small) (inr (failed, kept)) = inl (rw kept small)
EndsFit-later size value value' (some r) (inr (_, same)) (inr (failed, kept)) =
    inr (failed, kept ∙ same)

parse_lines-EndsFit :
    (size rounds : ℕ) (stream parameter value : Bytes)
    → HasShortLines size stream
    → length stream < rounds
    → EndsFit size value (parse_lines rounds stream parameter value)
unfolding parse_lines
parse_lines-EndsFit size zero stream parameter value h lt = elim lt [ ]
parse_lines-EndsFit size (suc n) [] parameter value h lt =
    ground (arith, parse_line-nil parameter value)
parse_lines-EndsFit size (suc n) (c ∷ cs) parameter value h lt =
    let p = parse_line (c ∷ cs) parameter value in
    let later =
      parse_lines-EndsFit size n p.rest parameter p.return_value
        (parse_line-HasShortLines size parameter value (c ∷ cs) h)
        (omega (arith, parse_line_shrinks parameter value c cs)) in
    let fits = parse_line-Fits size parameter value (c ∷ cs) h in
    let known : (l : Line) → p.result ≡ l → Fits size value (is_found l) p.return_value =
      λ l e. subst (λ l. Fits size value (is_found l) p.return_value) e fits in
    elim (Line-cases p.result) [
      | inl e ↦ ground (arith, e, known found e)
      | inr (inl e) ↦ ground (
        arith,
        e,
        EndsFit-later size value p.return_value (parse_lines n p.rest parameter p.return_value)
            (known next_line e) later,
      )
      | inr (inr e) ↦ ground (arith, e, known end_of_file e)
    ]

-- What a run of `parseConfigFile` comes to: it returns, and the string fits.
abbrev pub ReturnsFit : ℕ → Bytes → Outcome Reading → Type 0
ReturnsFit size value (returned r) = Fits size value r.success r.return_value
ReturnsFit size value _ = ⊥

-- The file, if it can be opened, has short lines.
abbrev pub OpensShort : ℕ → Option Stream → Type 0
OpensShort size none = Unit
OpensShort size (some fs) = HasShortLines size fs.content

pub OpensShort-large : (size : ℕ) (o : Option Stream) → 510 ≤ size → OpensShort size o
OpensShort-large size none h = tt
OpensShort-large size (some fs) h = inl h

close_config-ReturnsFit :
    {S : Type 0} (k : Kernel S) (s : S) (size : ℕ) (value : Bytes) (buffer handle : ℕ)
    (o : Option Reading)
    → EndsFit size value o
    → ReturnsFit size value (run k (close_config buffer handle o) s).outcome
unfolding close_config
close_config-ReturnsFit k s size value buffer handle none h = h
close_config-ReturnsFit k s size value buffer handle (some r) h = h

parse_stream-ReturnsFit :
    {S : Type 0} (k : Kernel S) (s : S) (size : ℕ) (parameter value : Bytes) (fs : Stream)
    (b : Option Block)
    → HasShortLines size fs.content
    → ReturnsFit size value (run k (parse_stream parameter value fs b) s).outcome
unfolding parse_stream
parse_stream-ReturnsFit k s size parameter value fs none h = inr (refl, refl)
parse_stream-ReturnsFit k s size parameter value fs (some b) h =
    close_config-ReturnsFit k s size value b.addr fs.handle _ (
      parse_lines-EndsFit size (suc (length fs.content)) fs.content parameter value h (omega arith))

open_config-ReturnsFit :
    {S : Type 0} (k : Kernel S) (s : S) (size : ℕ) (parameter value : Bytes) (o : Option Stream)
    → OpensShort size o
    → ReturnsFit size value (run k (open_config parameter value o) s).outcome
unfolding open_config
open_config-ReturnsFit k s size parameter value none h = inr (refl, refl)
open_config-ReturnsFit k s size parameter value (some fs) h =
    parse_stream-ReturnsFit k _ size parameter value fs _ h

-- Whatever the kernel replies, for a buffer of `size` bytes with 510 <= size, or with no line of the
-- file longer than size + 1 characters (its newline included): `parseConfigFile` returns, and then
-- the string fits the buffer with its NUL, or the result is -1 and the buffer holds the string that
-- was there before. So the string fits MAX_LINE_LENGTH + 10 bytes for every file, and KEY_LENGTH (128)
-- bytes for a file without a line of more than 129 characters.
pub parse_config_file-ReturnsFit :
    {S : Type 0} (k : Kernel S) (s : S) (size : ℕ) (pathname parameter value : Bytes)
    → OpensShort size (k.answer (fopen pathname) s).0
    → ReturnsFit size value (run k (parse_config_file pathname parameter value) s).outcome
unfolding parse_config_file
parse_config_file-ReturnsFit k s size pathname parameter value h =
    open_config-ReturnsFit k _ size parameter value _ h

-- The streams that a run leaves open, by the replies of fopen and malloc.
abbrev pub left_open : Option Stream → Option Block → List ℕ
left_open none b = []
left_open (some fs) none = fs.handle ∷ []
left_open (some fs) (some b) = []

close_config-gives_back :
    {S : Type 0} (k : Kernel S) (s : S) (value : Bytes) (b handle : ℕ) (o : Option Reading)
    → EndsFit 510 value o
    → let t = (run k (close_config b handle o) s).trace in
      (heap (b ∷ []) t ≡ []) × (streams (handle ∷ []) t ≡ [])
unfolding close_config
close_config-gives_back k s value b handle none h = elim h [ ]
close_config-gives_back k s value b handle (some r) h = (ground arith, ground arith)

parse_stream-left_open :
    {S : Type 0} (k : Kernel S) (s : S) (parameter value : Bytes) (fs : Stream) (o : Option Block)
    → let t = (run k (parse_stream parameter value fs o) s).trace in
      (heap (heap_step (malloc max_line_length) o []) t ≡ [])
      × (streams (fs.handle ∷ []) t ≡ left_open (some fs) o)
unfolding parse_stream
parse_stream-left_open k s parameter value fs none = (refl, refl)
parse_stream-left_open k s parameter value fs (some b) =
    close_config-gives_back k s value b.addr fs.handle
      (parse_lines (suc (length fs.content)) fs.content parameter value)
      (parse_lines-EndsFit 510 (suc (length fs.content)) fs.content parameter value
        (inl (omega arith)) (omega arith))

open_config-left_open :
    {S : Type 0} (k : Kernel S) (s : S) (parameter value pathname : Bytes) (o : Option Stream)
    → let t = (run k (open_config parameter value o) s).trace in
      (heap [] t ≡ [])
      × (streams (stream_step (fopen pathname) o []) t
          ≡ left_open o (k.answer (malloc max_line_length) s).0)
unfolding open_config
open_config-left_open k s parameter value pathname none = (refl, refl)
open_config-left_open k s parameter value pathname (some fs) =
    parse_stream-left_open k _ parameter value fs _

-- Whatever the kernel replies and the file holds: `parseConfigFile` frees its buffer and closes its
-- stream before it returns, but for one case: where the stream was opened and malloc fails, the
-- stream is left open.
pub parse_config_file-left_open :
    {S : Type 0} (k : Kernel S) (s : S) (pathname parameter value : Bytes)
    → let t = (run k (parse_config_file pathname parameter value) s).trace in
      let (opened, s') = k.answer (fopen pathname) s in
      (heap [] t ≡ []) × (streams [] t ≡ left_open opened (k.answer (malloc max_line_length) s').0)
unfolding parse_config_file
parse_config_file-left_open k s pathname parameter value =
    open_config-left_open k _ parameter value pathname _
