-- ===== src/ClientRequest/Message.antt =====
-- The message for a piece of the chat log: what the second buffer of `readChatlogSendClient` holds.
use papaya_chat.Base.{
  take-all, codes, ℕ, zero, suc, ◌+◌, ◌-◌, ◌≡◌, refl, ap, ◌∙◌, [], ◌∷◌, ◌++◌, Bool, true, Bytes,
  length, take, drop, replicate, arith, append_assoc, length-append, ◌==◌, not, ◌&&◌,
}
use papaya_chat.Config.{buf_size}
use papaya_chat.CString.{snprintf_s, overwrite, c_str}
use papaya_chat.ClientRequest.{string_client}

-- No NUL among the bytes.
unfoldable pub no_nul : Bytes → Bool
no_nul [] = true
no_nul (c ∷ cs) = not (c == 0) && no_nul cs

-- All but the last byte.
pub init : Bytes → Bytes
init [] = []
init (c ∷ []) = []
init (c ∷ d ∷ cs) = c ∷ init (d ∷ cs)

c_str-zeros : (j m : ℕ) → c_str (drop j (replicate m 0)) ≡ []
unfolding c_str
c_str-zeros zero zero = refl
c_str-zeros zero (suc m) = refl
c_str-zeros (suc j) zero = refl
c_str-zeros (suc j) (suc m) = c_str-zeros j m

c_str-append_zeros :
    (text : Bytes) (j m : ℕ) → no_nul text ≡ true → c_str (text ++ drop j (replicate m 0)) ≡ text
unfolding c_str no_nul
c_str-append_zeros [] j m g = c_str-zeros j m
c_str-append_zeros (x ∷ text) j m g = ground (arith, c_str-append_zeros text j m)

-- A NUL ends the string.
pub c_str-append_nul : (text rest : Bytes) → no_nul text ≡ true → c_str (text ++ 0 ∷ rest) ≡ text
unfolding c_str no_nul
c_str-append_nul [] rest g = refl
c_str-append_nul (x ∷ text) rest g = ground (arith, c_str-append_nul text rest)

pub take-init : (c : ℕ) (cs : Bytes) → take (length cs) (c ∷ cs) ≡ init (c ∷ cs)
unfolding init
take-init c [] = refl
take-init c (d ∷ cs) = ap (◌∷◌ c) (take-init d cs)

take-append : (a rest : Bytes) (n : ℕ) → length a ≡ n → take n (a ++ rest) ≡ a
take-append [] rest zero e = refl
take-append [] rest (suc n) e = absurd (omega arith)
take-append (x ∷ a) rest zero e = absurd (omega arith)
take-append (x ∷ a) rest (suc n) e = ap (◌∷◌ x) (take-append a rest n (omega arith))

length-init : (c : ℕ) (cs : Bytes) → length (init (c ∷ cs)) ≡ length cs
unfolding init
length-init c [] = refl
length-init c (d ∷ cs) = ap suc (length-init d cs)

-- The message that is sent for bytes without a NUL: the last byte has become a NUL.
pub message-init :
    (b : ℕ) (bytes junk : Bytes)
    → no_nul (b ∷ bytes) ≡ true
    → take (length (b ∷ bytes)) (string_client (b ∷ bytes) junk) ≡ init (b ∷ bytes) ++ 0 ∷ []
unfolding snprintf_s
message-init b bytes junk g =
    let text = overwrite (b ∷ bytes) (replicate buf_size 0) in
    let cut : take (suc (length bytes) - 1) (c_str text) ≡ init (b ∷ bytes) =
      (let e : suc (length bytes) - 1 ≡ length bytes = omega arith in
        rw (e, c_str-append_zeros (b ∷ bytes) (length (b ∷ bytes)) buf_size g)
          (take-init b bytes)) in
    rw cut (
      take-append (init (b ∷ bytes) ++ 0 ∷ []) _ (suc (length bytes))
        (omega (arith, length-append (init (b ∷ bytes)) (0 ∷ []), length-init b bytes)))

take-take_append :
    (a rest : Bytes) (m n : ℕ) → length a ≡ m → take (m + n) (a ++ rest) ≡ a ++ take n rest
take-take_append [] rest zero n e = let e' : 0 + n ≡ n = omega arith in rw e' refl
take-take_append [] rest (suc m) n e = absurd (omega arith)
take-take_append (x ∷ a) rest zero n e = absurd (omega arith)
take-take_append (x ∷ a) rest (suc m) n e =
    let e' : suc m + n ≡ suc (m + n) = omega arith in
    rw e' (ap (◌∷◌ x) (take-take_append a rest m n (omega arith)))

-- With a first NUL among the bytes, what is sent behind it is not the chat log's: it is what the
-- block of the second malloc held before.
pub message_leaks :
    (text post junk : Bytes)
    → no_nul text ≡ true
    → take (length (text ++ 0 ∷ post)) (string_client (text ++ 0 ∷ post) junk)
      ≡ text ++ 0 ∷ take (length post) (drop (length text + 1) junk)
unfolding snprintf_s
message_leaks text post junk g =
    let buffer = overwrite (text ++ 0 ∷ post) (replicate buf_size 0) in
    let whole : length (text ++ 0 ∷ post) ≡ (length text + 1) + length post =
      omega (arith, length-append text (0 ∷ post)) in
    let cut : take (length (text ++ 0 ∷ post) - 1) (c_str buffer) ≡ text =
      rw (append_assoc text (0 ∷ post) (drop (length (text ++ 0 ∷ post)) (replicate buf_size 0))) (
        rw
          (c_str-append_nul text (post ++ drop (length (text ++ 0 ∷ post)) (replicate buf_size 0))
            g)
          (take-all (length (text ++ 0 ∷ post) - 1) text (omega (arith, whole)))) in
    let size : length (text ++ 0 ∷ []) ≡ length text + 1 = length-append text (0 ∷ []) in
    rw (cut, whole)
      (take-take_append (text ++ 0 ∷ []) _ (length text + 1) (length post) size
        ∙ append_assoc text (0 ∷ []) _
        ∙ ap (λ n. text ++ 0 ∷ take (length post) (drop n junk)) size)

-- The message for a piece of the chat log.
unfoldable pub message_for : Bytes → Bytes
message_for [] = []
message_for (b ∷ bytes) = init (b ∷ bytes) ++ 0 ∷ []

-- The message for a line: the NUL stands where its end was.
pub message_for-line :
    (c : ℕ) (text : Bytes) (n : ℕ) → message_for (c ∷ (text ++ n ∷ [])) ≡ c ∷ (text ++ 0 ∷ [])
unfolding message_for init
message_for-line c [] n = refl
message_for-line c (d ∷ text) n = ap (◌∷◌ c) (message_for-line d text n)

pub no_nul-line : (text : Bytes) → no_nul text ≡ true → no_nul (text ++ codes "\n") ≡ true
unfolding no_nul
no_nul-line [] h = refl
no_nul-line (c ∷ text) h = ground (arith, no_nul-line text)
