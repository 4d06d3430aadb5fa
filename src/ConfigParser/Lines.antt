-- ===== src/ConfigParser/Lines.antt =====
-- The lines of a configuration file, as fgets(3) reads them into a buffer of 512 bytes.
use papaya_chat.Base.{
  ℕ, zero, suc, ◌+◌, ◌≤◌, [], ◌∷◌, Bytes, length, ◌⊎◌, inl, inr, leb, ◌==◌, if◌then◌else◌, arith,
}
use papaya_chat.CString.{c_str, line_of, after_line}
use papaya_chat.CString.Sizes.{length-line_of-le, length-c_str-le}

-- The most characters between two newlines (or an end), each newline counted with its line; `run`
-- characters of the first line stand before.
unfoldable pub longest_line : ℕ → Bytes → ℕ
longest_line run [] = run
longest_line run (c ∷ cs) =
    let rest = longest_line 0 cs in
    let longer = longest_line (run + 1) cs in
    if c == b'\n' then (if leb rest (run + 1) then run + 1 else rest) else longer

longest_line_run :
    (run more : ℕ) (s : Bytes) → run ≤ more → longest_line run s ≤ longest_line more s
unfolding longest_line
longest_line_run run more [] h = h
longest_line_run run more (c ∷ cs) h =
    ground (arith, longest_line_run (run + 1) (more + 1) cs (omega arith))

run-longest_line : (run : ℕ) (s : Bytes) → run ≤ longest_line run s
unfolding longest_line
run-longest_line run [] = omega arith
run-longest_line run (c ∷ cs) = ground (arith, run-longest_line (run + 1) cs)

-- What fgets(3) delivers is a part of a line, and what it leaves has no longer lines.
length-line_of-longest : (n run : ℕ) (s : Bytes) → length (line_of n s) + run ≤ longest_line run s
unfolding longest_line line_of
length-line_of-longest zero run s = omega (arith, run-longest_line run s)
length-line_of-longest (suc n) run [] = omega arith
length-line_of-longest (suc n) run (c ∷ cs) = ground (arith, length-line_of-longest n (run + 1) cs)

longest_line-after_line :
    (n run : ℕ) (s : Bytes) → longest_line 0 (after_line n s) ≤ longest_line run s
unfolding longest_line after_line
longest_line-after_line zero run s = longest_line_run 0 run s (omega arith)
longest_line-after_line (suc n) run [] = omega arith
longest_line-after_line (suc n) run (c ∷ cs) =
    ground (arith, longest_line-after_line n (run + 1) cs)

-- A line gives values for a buffer of `size` bytes if it has at most `size + 1` characters: a name has
-- one at least, and a white space stands between. No more than 511 are read at a time.
abbrev pub HasShortLines : ℕ → Bytes → Type 0
HasShortLines size content = (510 ≤ size) ⊎ (longest_line 0 content ≤ size + 1)

pub HasShortLines-line :
    (size : ℕ) (s : Bytes) → HasShortLines size s → length (c_str (line_of 511 s)) ≤ size + 1
HasShortLines-line size s (inl large) =
    omega (arith, length-c_str-le (line_of 511 s), length-line_of-le 511 s)
HasShortLines-line size s (inr short) =
    omega (arith, length-c_str-le (line_of 511 s), length-line_of-longest 511 0 s)

pub HasShortLines-rest :
    (size : ℕ) (s : Bytes) → HasShortLines size s → HasShortLines size (after_line 511 s)
HasShortLines-rest size s (inl large) = inl large
HasShortLines-rest size s (inr short) = inr (omega (arith, longest_line-after_line 511 0 s))
