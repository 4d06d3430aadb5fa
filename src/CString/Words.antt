-- ===== src/CString/Words.antt =====
-- Words and lines: what sscanf(3), fgets(3) and strncmp(3) make of text that was printed.
use papaya_chat.Base.{
  ℕ, zero, suc, ◌+◌, ◌-◌, ◌≤◌, ◌<◌, ◌≡◌, refl, ◌↔◌, [], ◌∷◌, ◌++◌, some, Bool, true, false, not,
  ◌&&◌, Bytes, length, arith, ◌==◌,
}
use papaya_chat.CString.{
  c_str, strncmp_eq, is_space, skip_space, word_of, after_word, sscanf_two, conversions, line_of,
  after_line, fgets,
}

-- A character that may stand in a word: no white space, and no NUL.
abbrev pub is_graphic : ℕ → Bool
is_graphic c = not (is_space c) && not (c == 0)

unfoldable pub all_graphic : Bytes → Bool
all_graphic [] = true
all_graphic (c ∷ cs) = is_graphic c && all_graphic cs

-- A word is not empty.
unfoldable pub is_word : Bytes → Bool
unfolding all_graphic
is_word [] = false
is_word (c ∷ cs) = all_graphic (c ∷ cs)

unfoldable pub same : Bytes → Bytes → Bool
same [] [] = true
same [] (y ∷ b) = false
same (x ∷ a) [] = false
same (x ∷ a) (y ∷ b) = x == y && same a b

pub same_iff : (a b : Bytes) → (same a b ≡ true) ↔ (a ≡ b)
unfolding same
same_iff [] [] = ground arith
same_iff [] (y ∷ b) = ground arith
same_iff (x ∷ a) [] = ground arith
same_iff (x ∷ a) (y ∷ b) = ground (arith, same_iff a b)

-- strncmp(3) tells words apart, if it looks far enough.
pub strncmp_eq-same :
    (n : ℕ) (a b : Bytes)
    → length a < n
    → all_graphic a ≡ true
    → all_graphic b ≡ true
    → strncmp_eq n a b ≡ same a b
unfolding strncmp_eq same all_graphic
strncmp_eq-same zero a b h g g' = elim h [ ]
strncmp_eq-same (suc n) [] [] h g g' = refl
strncmp_eq-same (suc n) [] (y ∷ b) h g g' = ground arith
strncmp_eq-same (suc n) (x ∷ a) [] h g g' = ground arith
strncmp_eq-same (suc n) (x ∷ a) (y ∷ b) h g g' = ground (arith, strncmp_eq-same n a b)

c_str-append_graphic : (w rest : Bytes) → all_graphic w ≡ true → c_str (w ++ rest) ≡ w ++ c_str rest
unfolding c_str all_graphic
c_str-append_graphic [] rest g = refl
c_str-append_graphic (c ∷ w) rest g = ground (arith, c_str-append_graphic w rest)

word_of-append :
    (w rest : Bytes) (c : ℕ)
    → all_graphic w ≡ true
    → is_space c ≡ true
    → (word_of (w ++ c ∷ rest) ≡ w) × (after_word (w ++ c ∷ rest) ≡ c ∷ rest)
unfolding word_of after_word all_graphic
word_of-append [] rest c g s = ground arith
word_of-append (x ∷ w) rest c g s = ground (arith, word_of-append w rest c)

skip_space-word : (w rest : Bytes) → is_word w ≡ true → skip_space (w ++ rest) ≡ w ++ rest
unfolding skip_space is_word all_graphic
skip_space-word [] rest g = ground arith
skip_space-word (x ∷ w) rest g = ground arith

line_of-append :
    (n : ℕ) (w rest : Bytes)
    → all_graphic w ≡ true
    → length w ≤ n
    → (line_of n (w ++ rest) ≡ w ++ line_of (n - length w) rest)
      × (after_line n (w ++ rest) ≡ after_line (n - length w) rest)
unfolding line_of after_line all_graphic
line_of-append zero [] rest g h = (refl, refl)
line_of-append zero (x ∷ w) rest g h = elim h [ ]
line_of-append (suc n) [] rest g h = ground arith
line_of-append (suc n) (x ∷ w) rest g h = ground (arith, line_of-append n w rest)

-- The text that fprintf(f, "%s %s\n", name, value) appends.
unfoldable pub pair_line : Bytes → Bytes → Bytes → Bytes
pair_line name value rest = name ++ (b' ' ∷ (value ++ (b'\n' ∷ rest)))

pub all_graphic_of_word : (w : Bytes) → is_word w ≡ true → all_graphic w ≡ true
unfolding is_word
all_graphic_of_word [] g = refl
all_graphic_of_word (c ∷ w) g = g

fgets-some :
    (n : ℕ) (w rest : Bytes)
    → is_word w ≡ true
    → fgets n (w ++ rest) ≡ some (line_of (n - 1) (w ++ rest), after_line (n - 1) (w ++ rest))
unfolding fgets is_word
fgets-some n [] rest g = ground arith
fgets-some n (c ∷ w) rest g = refl

line_of-suc :
    (n : ℕ) (c : ℕ) (rest : Bytes)
    → 0 < n
    → (c == b'\n') ≡ false
    → (line_of n (c ∷ rest) ≡ c ∷ line_of (n - 1) rest)
      × (after_line n (c ∷ rest) ≡ after_line (n - 1) rest)
unfolding line_of after_line
line_of-suc zero c rest h e = elim h [ ]
line_of-suc (suc n) c rest h e = ground arith

line_of-newline :
    (n : ℕ) (rest : Bytes)
    → 0 < n
    → (line_of n (b'\n' ∷ rest) ≡ b'\n' ∷ []) × (after_line n (b'\n' ∷ rest) ≡ rest)
unfolding line_of after_line
line_of-newline zero rest h = elim h [ ]
line_of-newline (suc n) rest h = (refl, refl)

conversions-words :
    (v w : Bytes) → is_word v ≡ true → is_word w ≡ true → conversions v w ≡ v ∷ w ∷ []
unfolding conversions is_word
conversions-words [] w g g' = cc
conversions-words (c ∷ v) [] g g' = cc
conversions-words (c ∷ v) (d ∷ w) g g' = refl

-- The tests on the separators.
c_str-separator : (c : ℕ) (rest : Bytes) → (c == 0) ≡ false → c_str (c ∷ rest) ≡ c ∷ c_str rest
unfolding c_str
c_str-separator c rest e = ground arith

c_str-nil : c_str [] ≡ []
unfolding c_str
c_str-nil = refl

skip_space-space :
    (c : ℕ) (rest : Bytes) → is_space c ≡ true → skip_space (c ∷ rest) ≡ skip_space rest
unfolding skip_space
skip_space-space c rest e = ground arith

pub c_str-pair_line :
    (name value : Bytes)
    → is_word name ≡ true
    → is_word value ≡ true
    → c_str (pair_line name value []) ≡ pair_line name value []
unfolding pair_line
c_str-pair_line name value g g' = ground (
  arith,
  all_graphic_of_word name g,
  all_graphic_of_word value g',
  c_str-append_graphic name (b' ' ∷ (value ++ (b'\n' ∷ []))),
  c_str-separator b' ' (value ++ (b'\n' ∷ [])),
  c_str-append_graphic value (b'\n' ∷ []),
  c_str-separator b'\n' [],
  c_str-nil,
)

module _ (name value rest : Bytes) (g : is_word name ≡ true) (g' : is_word value ≡ true) where
  pub fgets-pair_line :
      (n : ℕ)
      → length name + length value + 3 ≤ n
      → fgets n (pair_line name value rest) ≡ some (pair_line name value [], rest)
  unfolding pair_line
  fgets-pair_line n h = ground (
    arith,
    all_graphic_of_word name g,
    all_graphic_of_word value g',
    fgets-some n name (b' ' ∷ (value ++ (b'\n' ∷ rest))) g,
    line_of-append (n - 1) name (b' ' ∷ (value ++ (b'\n' ∷ rest))),
    line_of-suc (n - 1 - length name) b' ' (value ++ (b'\n' ∷ rest)),
    line_of-append (n - 1 - length name - 1) value (b'\n' ∷ rest),
    line_of-newline (n - 1 - length name - 1 - length value) rest,
  )

pub sscanf_two-pair_line :
    (name value : Bytes)
    → is_word name ≡ true
    → is_word value ≡ true
    → sscanf_two (c_str (pair_line name value [])) ≡ name ∷ value ∷ []
unfolding sscanf_two pair_line
sscanf_two-pair_line name value g g' = ground (
  arith,
  c_str-pair_line name value g g',
  all_graphic_of_word name g,
  all_graphic_of_word value g',
  skip_space-word name (b' ' ∷ (value ++ (b'\n' ∷ []))) g,
  word_of-append name (value ++ (b'\n' ∷ [])) b' ',
  skip_space-space b' ' (value ++ (b'\n' ∷ [])),
  skip_space-word value (b'\n' ∷ []) g',
  word_of-append value [] b'\n',
  conversions-words name value g g',
)
