-- ===== src/Sha256/Lists.antt =====
-- `put`, `take` and `drop` on buffers in parts.
use lufira_os.Base.{
  ℕ, zero, suc, ◌+◌, ◌≤◌, ◌≡◌, refl, ap, subst, List, [], ◌∷◌, ◌++◌, length, take, drop, arith,
}
use lufira_os.Sha256.{put}

module _ {ℓ} {A : Type ℓ} where
  pub take-drop : (n : ℕ) (xs : List A) → take n xs ++ drop n xs ≡ xs
  take-drop zero xs = refl
  take-drop (suc n) [] = refl
  take-drop (suc n) (x ∷ xs) = ap (λ ys. x ∷ ys) (take-drop n xs)

  pub take_append : (xs ys : List A) → take (length xs) (xs ++ ys) ≡ xs
  take_append [] ys = refl
  take_append (x ∷ xs) ys = ap (λ zs. x ∷ zs) (take_append xs ys)

  pub drop_append : (xs ys : List A) (n : ℕ) → drop (length xs + n) (xs ++ ys) ≡ drop n ys
  drop_append [] ys n = let z : 0 + n ≡ n = omega arith in rw z refl
  drop_append (x ∷ xs) ys n =
      let z : length (x ∷ xs) + n ≡ suc (length xs + n) = omega arith in rw z (drop_append xs ys n)

  pub drop_all : (n : ℕ) (xs : List A) → length xs ≤ n → drop n xs ≡ []
  drop_all zero [] h = refl
  drop_all (suc n) [] h = refl
  drop_all zero (x ∷ xs) h = absurd (omega arith)
  drop_all (suc n) (x ∷ xs) h = drop_all n xs (omega arith)

-- A write behind a prefix of the buffer keeps the prefix and drops what it covers.
pub put_after :
    (front rest bytes : List ℕ) (n : ℕ)
    → length front ≡ n
    → put (front ++ rest) n bytes ≡ (front ++ bytes) ++ drop (length bytes) rest
unfolding put
put_after front rest bytes n e =
    subst (λ m. put (front ++ rest) m bytes ≡ (front ++ bytes) ++ drop (length bytes) rest) e
      (rw (take_append front rest, drop_append front rest (length bytes)) refl)
