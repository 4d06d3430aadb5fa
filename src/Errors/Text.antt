-- ===== src/Errors/Text.antt =====
-- The text of a diagnostic.
use papaya_chat.Base.{
  codes, ℕ, zero, suc, ◌-◌, ◌≤◌, ◌≡◌, refl, ap, ◌∙◌, [], ◌∷◌, ◌++◌, Bool, Bytes, take, arith,
}
use papaya_chat.Errors.{error_buf_size, error_text, output_text}

take-append-take : (n m : ℕ) (a b : Bytes) → n ≤ m → take n (take m a ++ b) ≡ take n (a ++ b)
take-append-take zero m a b h = refl
take-append-take (suc n) zero a b h = elim h [ ]
take-append-take (suc n) (suc m) [] b h = refl
take-append-take (suc n) (suc m) (x ∷ a) b h = ap (◌∷◌ x) (take-append-take n m a b (omega arith))

-- Two texts that begin alike up to some place stay so behind a common beginning.
take-append_cong :
    (n : ℕ) (a b c : Bytes)
    → ((m : ℕ) → m ≤ n → take m b ≡ take m c)
    → take n (a ++ b) ≡ take n (a ++ c)
take-append_cong n [] b c h = h n (omega arith)
take-append_cong zero (x ∷ a) b c h = refl
take-append_cong (suc n) (x ∷ a) b c h =
    ap (◌∷◌ x) (take-append_cong n a b c (λ m p. h m (omega arith)))

module _ (ename : ℕ → Bytes) (max_ename : ℕ) (strerror : ℕ → Bytes) where
  -- The diagnostic is the first 499 characters of the whole text, whatever the sizes of its parts:
  -- cutting the error text and the message to 499 characters first makes no difference.
  pub output_text-take :
      (use_err : Bool) (err : ℕ) (message : Bytes)
      → output_text ename max_ename strerror use_err err message
        ≡ take (error_buf_size - 1) (
            codes "ERROR"
            ++ (error_text ename max_ename strerror use_err err
                ++ (codes " " ++ (message ++ codes "\n"))))
  unfolding output_text
  output_text-take use_err err message = take-append_cong 499 (codes "ERROR") _ _ λ m p.
      take-append-take m 499 (error_text ename max_ename strerror use_err err) _ p
      ∙ take-append_cong m (error_text ename max_ename strerror use_err err) _ _ λ m' p'.
        take-append_cong m' (codes " ") _ _
          λ m'' p''. take-append-take m'' 499 message (codes "\n") (omega arith)
