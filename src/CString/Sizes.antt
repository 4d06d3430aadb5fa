-- ===== src/CString/Sizes.antt =====
-- Sizes of what sscanf(3) and fgets(3) deliver.
use papaya_chat.Base.{
  ℕ, zero, suc, ◌+◌, ◌-◌, ◌≤◌, ◌<◌, ◌≡◌, refl, ◌⊎◌, inl, inr, [], ◌∷◌, true, Bytes, length, arith,
  Bool-cases,
}
use papaya_chat.CString.{
  c_str, is_space, skip_space, word_of, after_word, conversions, sscanf_two, line_of, after_line,
}

pub after_line-lt :
    (n : ℕ) (c : ℕ) (cs : Bytes) → 0 < n → length (after_line n (c ∷ cs)) ≤ length cs
unfolding after_line
after_line-lt zero c cs h = elim h [ ]
after_line-lt (suc zero) c [] h = ground arith
after_line-lt (suc zero) c (d ∷ ds) h = ground arith
after_line-lt (suc (suc n)) c [] h = ground arith
after_line-lt (suc (suc n)) c (d ∷ ds) h = ground (arith, after_line-lt (suc n) d ds)

pub length-line_of-le : (n : ℕ) (s : Bytes) → length (line_of n s) ≤ n
unfolding line_of
length-line_of-le zero s = omega arith
length-line_of-le (suc n) [] = omega arith
length-line_of-le (suc n) (c ∷ cs) = ground (arith, length-line_of-le n cs)

pub length-c_str-le : (s : Bytes) → length (c_str s) ≤ length s
unfolding c_str
length-c_str-le [] = omega arith
length-c_str-le (c ∷ cs) = ground (arith, length-c_str-le cs)

length-skip_space-le : (s : Bytes) → length (skip_space s) ≤ length s
unfolding skip_space
length-skip_space-le [] = omega arith
length-skip_space-le (c ∷ cs) = ground (arith, length-skip_space-le cs)

-- A word and what follows it make up the text.
length-word_of : (s : Bytes) → length (word_of s) + length (after_word s) ≡ length s
unfolding word_of after_word
length-word_of [] = omega arith
length-word_of (c ∷ cs) = ground (arith, length-word_of cs)

after_word_starts :
    (s : Bytes)
    → (after_word s ≡ [])
      ⊎ ((c : ℕ) × (rest : Bytes) × (after_word s ≡ c ∷ rest) × (is_space c ≡ true))
unfolding after_word
after_word_starts [] = inl refl
after_word_starts (c ∷ cs) = elim (Bool-cases (is_space c)) [
  | inl e ↦ rw e (inr (c, cs, refl, e))
  | inr e ↦ rw e (after_word_starts cs)
]

skip_space_lt :
    (c : ℕ) (rest : Bytes) → is_space c ≡ true → length (skip_space (c ∷ rest)) ≤ length rest
unfolding skip_space
skip_space_lt c rest e = ground (arith, length-skip_space-le rest)

-- Between two words stands a white space.
second_word-le :
    (s : Bytes) → length (word_of (skip_space (after_word s))) ≤ length (after_word s) - 1
second_word-le s = elim (after_word_starts s) [
  | inl e ↦ rw e (omega (arith, length-word_of (skip_space []), length-skip_space-le []))
  | inr (c, rest, e, sp) ↦
      rw e (omega (arith, length-word_of (skip_space (c ∷ rest)), skip_space_lt c rest sp))
]

conversions-two :
    (v w a b : Bytes) → conversions v w ≡ a ∷ b ∷ [] → (0 < length a) × (a ≡ v) × (b ≡ w)
unfolding conversions
conversions-two [] w a b e = cc
conversions-two (c ∷ v) [] a b e = cc
conversions-two (c ∷ v) (d ∷ w) a b e = ground arith

pub sscanf_two-second : (s a b : Bytes) → sscanf_two s ≡ a ∷ b ∷ [] → length b + 2 ≤ length s
unfolding sscanf_two
sscanf_two-second s a b e = ground (
  arith,
  conversions-two (word_of (skip_space s)) (word_of (skip_space (after_word (skip_space s)))) a b e,
  second_word-le (skip_space s),
  length-word_of (skip_space s),
  length-skip_space-le s,
)
