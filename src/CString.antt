-- ===== src/CString.antt =====
-- What the C files use of <string.h> and <stdio.h>, over lists of bytes.
--
-- A string is the list of its characters before the terminating NUL. Where an argument is a block
-- of memory, reading stops at a NUL, and the end of the list stands for one.
pub mod Words
pub mod Sizes
use papaya_chat.Base.{
  ℕ, zero, suc, ◌-◌, List, [], ◌∷◌, ◌++◌, Option, none, some, Bool, true, false, ◌&&◌, ◌||◌, Bytes,
  length, take, drop, leb, ◌==◌, if◌then◌else◌,
}

-- The string that starts at a block of memory.
unfoldable pub c_str : Bytes → Bytes
c_str [] = []
c_str (c ∷ cs) = if c == 0 then [] else c ∷ c_str cs

unfoldable pub strlen : Bytes → ℕ
unfolding c_str
strlen s = length (c_str s)

-- strncmp(a, b, n) == 0
unfoldable pub strncmp_eq : ℕ → Bytes → Bytes → Bool
strncmp_eq zero a b = true
strncmp_eq (suc n) [] [] = true
strncmp_eq (suc n) [] (y ∷ b) = y == 0
strncmp_eq (suc n) (x ∷ a) [] = x == 0
strncmp_eq (suc n) (x ∷ a) (y ∷ b) = x == y && (x == 0 || strncmp_eq n a b)

-- snprintf(dst, n, "%s", src): the string that dst then holds, if n is not 0.
unfoldable pub snprintf_s : ℕ → Bytes → Bytes
unfolding c_str
snprintf_s n src = take (n - 1) (c_str src)

-- A block of memory after its first bytes were overwritten.
abbrev pub overwrite : Bytes → Bytes → Bytes
overwrite new block = new ++ drop (length new) block

-- isspace(3) in the C locale.
abbrev pub is_space : ℕ → Bool
is_space c = c == b' ' || leb b'\t' c && leb c b'\r'

-- sscanf(3): white space before a word, the word, and what follows it.
unfoldable pub skip_space : Bytes → Bytes
skip_space [] = []
skip_space (c ∷ cs) = if is_space c then skip_space cs else c ∷ cs

unfoldable pub word_of : Bytes → Bytes
word_of [] = []
word_of (c ∷ cs) = if is_space c then [] else c ∷ word_of cs

unfoldable pub after_word : Bytes → Bytes
after_word [] = []
after_word (c ∷ cs) = if is_space c then c ∷ cs else after_word cs

-- sscanf(s, "%s %s", …): the conversions made, at most two.
conversions : Bytes → Bytes → List Bytes
conversions [] w = []
conversions (c ∷ cs) [] = (c ∷ cs) ∷ []
conversions (c ∷ cs) (d ∷ ds) = (c ∷ cs) ∷ (d ∷ ds) ∷ []

unfoldable pub sscanf_two : Bytes → List Bytes
unfolding skip_space word_of after_word conversions
sscanf_two s =
    let first = skip_space s in
    conversions (word_of first) (word_of (skip_space (after_word first)))

-- fgets(buffer, n, stream): the bytes read, at most n - 1 and none after a newline.
unfoldable pub line_of : ℕ → Bytes → Bytes
line_of zero s = []
line_of (suc n) [] = []
line_of (suc n) (c ∷ cs) = if c == b'\n' then c ∷ [] else c ∷ line_of n cs

unfoldable pub after_line : ℕ → Bytes → Bytes
after_line zero s = s
after_line (suc n) [] = []
after_line (suc n) (c ∷ cs) = if c == b'\n' then cs else after_line n cs

-- With the bytes left in the stream; `none` is the null pointer, at the end of the stream.
unfoldable pub fgets : ℕ → Bytes → Option (Bytes × Bytes)
unfolding line_of after_line
fgets n [] = none
fgets n (c ∷ cs) = some (line_of (n - 1) (c ∷ cs), after_line (n - 1) (c ∷ cs))
