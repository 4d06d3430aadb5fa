-- ===== src/ChatLog/Tail.antt =====
-- Which part of the chat log a new client is sent, against a description that names no index.
use papaya_chat.Base.{
  ℕ, zero, suc, ◌+◌, ◌-◌, ◌≤◌, ◌<◌, ◌≡◌, refl, List, [], ◌∷◌, Bytes, drop, leb, ◌==◌, arith,
  if◌then◌else◌, inl, inr, Bool-cases, ◌∙◌, sym,
}
use papaya_chat.ChatLog.{
  lines_send_back_to_client, count_newlines, first_newline, start_of_text, text_to_send,
}

pub newlines : Bytes → ℕ
newlines [] = 0
newlines (c ∷ cs) = (if c == b'\n' then 1 else 0) + newlines cs

-- The longest ending of the text that has at most `k` newlines.
pub last_lines : ℕ → Bytes → Bytes
last_lines k [] = []
last_lines k (c ∷ cs) = if leb (newlines (c ∷ cs)) k then c ∷ cs else last_lines k cs

pub last_lines-nil : (k : ℕ) → last_lines k [] ≡ []
unfolding last_lines
last_lines-nil k = refl

-- The text after its first `n` newlines.
skip : ℕ → Bytes → Bytes
skip zero t = t
skip (suc n) [] = []
skip (suc n) (c ∷ cs) = skip (if c == b'\n' then n else suc n) cs

skip-cons :
    (n c : ℕ) (cs : Bytes) → 0 < n → skip n (c ∷ cs) ≡ skip (if c == b'\n' then n - 1 else n) cs
unfolding skip
skip-cons zero c cs h = elim h [ ]
skip-cons (suc n) c cs h = let e : suc n - 1 ≡ n = omega arith in rw e refl

skip-zero : (t : Bytes) → skip 0 t ≡ t
unfolding skip
skip-zero t = refl

count_newlines_lem : (t : Bytes) (n : ℕ) → count_newlines t n ≡ n + newlines t
unfolding count_newlines newlines
count_newlines_lem [] n = omega arith
count_newlines_lem (c ∷ cs) n =
    ground (arith, count_newlines_lem cs (if c == b'\n' then n + 1 else n))

drop-cons : {A : Type 0} (n : ℕ) (a : A) (l : List A) → 0 < n → drop n (a ∷ l) ≡ drop (n - 1) l
drop-cons zero a l h = elim h [ ]
drop-cons (suc n) a l h = let e : suc n - 1 ≡ n = omega arith in rw e refl

drop-one : {A : Type 0} (n : ℕ) (l : List A) → n ≡ 0 → drop n l ≡ l
drop-one n l e = rw e refl

pub drop-drop : {A : Type 0} (m n : ℕ) (l : List A) → drop n (drop m l) ≡ drop (m + n) l
drop-drop zero n l = let e : 0 + n ≡ n = omega arith in rw e refl
drop-drop (suc m) zero [] = let e : suc m + 0 ≡ suc m = omega arith in rw e refl
drop-drop (suc m) (suc n) [] = let e : suc m + suc n ≡ suc (m + suc n) = omega arith in rw e refl
drop-drop (suc m) n (a ∷ l) =
    let e : suc m + n ≡ suc (m + n) = omega arith in rw e (drop-drop m n l)

last_lines-all : (k : ℕ) (t : Bytes) → newlines t ≤ k → last_lines k t ≡ t
unfolding last_lines
last_lines-all k [] h = refl
last_lines-all k (c ∷ cs) h = ground arith

last_lines-skip : (k : ℕ) (t : Bytes) → k < newlines t → last_lines k t ≡ skip (newlines t - k) t
unfolding last_lines newlines
last_lines-skip k [] h = elim h [ ]
last_lines-skip k (c ∷ cs) h = ground (
  arith,
  skip-cons (newlines (c ∷ cs) - k) c cs,
  skip-zero cs,
  last_lines-all k cs,
  last_lines-skip k cs,
)

skip-skip : (n : ℕ) (t : Bytes) → skip n (skip 1 t) ≡ skip (suc n) t
unfolding skip
skip-skip zero [] = refl
skip-skip (suc n) [] = refl
skip-skip n (c ∷ cs) = ground (arith, skip-skip n cs)

newlines-skip : (t : Bytes) → newlines (skip 1 t) ≡ newlines t - 1
unfolding newlines skip
newlines-skip [] = omega arith
newlines-skip (c ∷ cs) = ground (arith, newlines-skip cs)

first_newline-skip :
    (t : Bytes) (i : ℕ)
    → 0 < newlines t
    → (i ≤ first_newline t i) × (drop (first_newline t i - i) t ≡ skip 1 t)
unfolding first_newline newlines
first_newline-skip [] i h = elim h [ ]
first_newline-skip (c ∷ cs) i h = elim (Bool-cases (c == b'\n')) [
  | inl e ↦ ground (
    arith,
    skip-cons 1 c cs,
    skip-zero cs,
    drop-cons (i + 1 - i) c cs,
    drop-one (i + 1 - i - 1) cs,
  )
  | inr e ↦ ground (
    arith,
    skip-cons 1 c cs,
    drop-cons (first_newline cs (i + 1) - i) c cs,
    first_newline-skip cs (i + 1),
  )
]

start_of_text_none :
    (t : Bytes) (i seen target start : ℕ)
    → target ≤ seen
    → start_of_text t i seen target start ≡ start
unfolding start_of_text
start_of_text_none [] i seen target start h = refl
start_of_text_none (c ∷ cs) i seen target start h =
    ground
      (arith, start_of_text_none cs (i + 1) (if c == b'\n' then seen + 1 else seen) target start)

start_of_text-skip :
    (t : Bytes) (i seen target start : ℕ)
    → seen < target
    → target ≤ seen + newlines t
    → (i ≤ start_of_text t i seen target start)
      × (drop (start_of_text t i seen target start - i) t ≡ skip (target - seen) t)
unfolding start_of_text newlines
start_of_text-skip [] i seen target start h g = absurd (omega arith)
start_of_text-skip (c ∷ cs) i seen target start h g = ground (
  arith,
  skip-cons (target - seen) c cs,
  skip-zero cs,
  drop-cons (i + 1 - i) c cs,
  drop-one (i + 1 - i - 1) cs,
  drop-cons (start_of_text cs (i + 1) (if c == b'\n' then seen + 1 else seen) target start - i) c
      cs,
  start_of_text-skip cs (i + 1) (if c == b'\n' then seen + 1 else seen) target start,
)

-- Above the limit, the index that the two loops find is that of the text after the surplus lines.
text_to_send-skip :
    (t : Bytes)
    → lines_send_back_to_client < newlines t
    → text_to_send t ≡ skip (newlines t - lines_send_back_to_client) t
unfolding text_to_send
text_to_send-skip t h = elim (Bool-cases (newlines t == 8)) [
  | inl e ↦ ground (
    arith,
    count_newlines_lem t 0,
    first_newline-skip t 0,
    start_of_text_none (drop (first_newline t 0) t) (first_newline t 0) 0 (newlines t - 1 - 7)
        (first_newline t 0),
  )
  | inr e ↦ ground (
    arith,
    count_newlines_lem t 0,
    first_newline-skip t 0,
    newlines-skip t,
    start_of_text-skip (drop (first_newline t 0) t) (first_newline t 0) 0 (newlines t - 1 - 7)
        (first_newline t 0),
    drop-drop (first_newline t 0)
        (start_of_text (drop (first_newline t 0) t) (first_newline t 0) 0 (newlines t - 1 - 7)
            (first_newline t 0)
          - first_newline t 0)
        t,
    skip-skip (newlines t - 1 - 7) t,
  )
]

text_to_send-all : (t : Bytes) → newlines t ≤ lines_send_back_to_client → text_to_send t ≡ t
unfolding text_to_send
text_to_send-all t h = ground (arith, count_newlines_lem t 0)

-- The text that a new client is sent is the longest ending of the text that was read that has at
-- most seven newlines: whole lines, and all of it if it has no more.
pub text_to_send-last_lines : (t : Bytes) → text_to_send t ≡ last_lines lines_send_back_to_client t
text_to_send-last_lines t = elim (Bool-cases (leb (newlines t) 7)) [
  | inl e ↦ text_to_send-all t (ground arith) ∙ sym (last_lines-all 7 t (ground arith))
  | inr e ↦ text_to_send-skip t (ground arith) ∙ sym (last_lines-skip 7 t (ground arith))
]
