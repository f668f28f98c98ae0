-- ===== src/Strings/Compare.antt =====
-- What a result of zero says of the strings compared.
use lufira_os.Base.{
  ℕ, zero, suc, ◌-◌, ◌<◌, ◌≡◌, refl, sym, ap, ◌∙◌, ◌↔◌, true, List, [], ◌∷◌, take, All, arith, leb,
  ◌==◌, Bool-cases, inl, inr,
}
use lufira_os.Strings.{pos, negsuc, minus, memcmp, strcmp, strncmp}

-- No byte is NUL.
abbrev pub IsString : List ℕ → Type 0
IsString s = All (λ x. 0 < x) s

minus-zero : (a b : ℕ) → minus a b ≡ pos 0 → a ≡ b
minus-zero a b h = elim (Bool-cases (leb b a)) [
  | inl e ↦ let d : pos (a - b) ≡ pos 0 = rw e at h in let z : a - b ≡ 0 = cc in ground arith
  | inr e ↦ let d : negsuc (b - a - 1) ≡ pos 0 = rw e at h in absurd cc
]

pub minus_self : (a : ℕ) → minus a a ≡ pos 0
minus_self a =
    let e : leb a a ≡ true = ground arith in let z : a - a ≡ 0 = omega arith in rw (e, z) refl

pub strcmp_self : (s : List ℕ) → strcmp s s ≡ pos 0
unfolding strcmp
strcmp_self [] = refl
strcmp_self (x ∷ xs) = let e : (x == x) ≡ true = ground arith in rw e (strcmp_self xs)

pub strcmp_equal : (s t : List ℕ) → IsString s → IsString t → strcmp s t ≡ pos 0 → s ≡ t
unfolding strcmp
strcmp_equal [] [] p q h = refl
strcmp_equal [] (y ∷ ys) p q h = absurd (omega (arith, minus-zero 0 y h, q.0))
strcmp_equal (x ∷ xs) [] p q h = absurd (omega (arith, minus-zero x 0 h, p.0))
strcmp_equal (x ∷ xs) (y ∷ ys) p q h = elim (Bool-cases (x == y)) [
  | inl e ↦
      let x_is_y : x ≡ y = ground arith in
      let tails : xs ≡ ys = strcmp_equal xs ys p.1 q.1 (rw e at h) in cc
  | inr e ↦
      let d : minus x y ≡ pos 0 = rw e at h in
      let x_is_y : x ≡ y = minus-zero x y d in absurd (ground arith)
]

-- On strings without NUL bytes, `strcmp` returns 0 exactly for equal strings.
pub strcmp_lem : (s t : List ℕ) → IsString s → IsString t → (strcmp s t ≡ pos 0) ↔ (s ≡ t)
strcmp_lem s t p q = (strcmp_equal s t p q, λ e. ap (strcmp s) (sym e) ∙ strcmp_self s)

strncmp_equal :
    (n : ℕ) (s t : List ℕ) → IsString s → IsString t → strncmp s t n ≡ pos 0 → take n s ≡ take n t
unfolding strncmp
strncmp_equal zero s t p q h = refl
strncmp_equal (suc zero) [] [] p q h = refl
strncmp_equal (suc zero) [] (y ∷ ys) p q h = absurd (omega (arith, minus-zero 0 y h, q.0))
strncmp_equal (suc zero) (x ∷ xs) [] p q h = absurd (omega (arith, minus-zero x 0 h, p.0))
strncmp_equal (suc zero) (x ∷ xs) (y ∷ ys) p q h = ap (λ z. z ∷ []) (minus-zero x y h)
strncmp_equal (suc (suc n)) [] [] p q h = refl
strncmp_equal (suc (suc n)) [] (y ∷ ys) p q h = absurd (omega (arith, minus-zero 0 y h, q.0))
strncmp_equal (suc (suc n)) (x ∷ xs) [] p q h = absurd (omega (arith, minus-zero x 0 h, p.0))
strncmp_equal (suc (suc n)) (x ∷ xs) (y ∷ ys) p q h = elim (Bool-cases (x == y)) [
  | inl e ↦
      let x_is_y : x ≡ y = ground arith in
      let tails : take (suc n) xs ≡ take (suc n) ys =
        strncmp_equal (suc n) xs ys p.1 q.1 (rw e at h) in
      cc
  | inr e ↦
      let d : minus x y ≡ pos 0 = rw e at h in
      let x_is_y : x ≡ y = minus-zero x y d in absurd (ground arith)
]

strncmp-take : (n : ℕ) (s t : List ℕ) → take n s ≡ take n t → strncmp s t n ≡ pos 0
unfolding strncmp
strncmp-take zero s t h = refl
strncmp-take (suc zero) [] [] h = refl
strncmp-take (suc zero) [] (y ∷ ys) h = absurd cc
strncmp-take (suc zero) (x ∷ xs) [] h = absurd cc
strncmp-take (suc zero) (x ∷ xs) (y ∷ ys) h = let e : x ≡ y = cc in rw e (minus_self y)
strncmp-take (suc (suc n)) [] [] h = minus_self 0
strncmp-take (suc (suc n)) [] (y ∷ ys) h = absurd cc
strncmp-take (suc (suc n)) (x ∷ xs) [] h = absurd cc
strncmp-take (suc (suc n)) (x ∷ xs) (y ∷ ys) h =
    let e : x ≡ y = cc in
    let tails : take (suc n) xs ≡ take (suc n) ys = cc in
    let same : (x == y) ≡ true = ground arith in rw same (strncmp-take (suc n) xs ys tails)

-- On strings without NUL bytes, `strncmp` returns 0 exactly when the first `n` bytes agree, a string
-- that is shorter standing for itself.
pub strncmp_lem :
    (s t : List ℕ) (n : ℕ)
    → IsString s
    → IsString t
    → (strncmp s t n ≡ pos 0) ↔ (take n s ≡ take n t)
strncmp_lem s t n p q = (strncmp_equal n s t p q, strncmp-take n s t)

pub memcmp_self : (n : ℕ) (a : List ℕ) → memcmp n a a ≡ pos 0
unfolding memcmp
memcmp_self zero a = refl
memcmp_self (suc n) [] = refl
memcmp_self (suc n) (x ∷ xs) = let e : (x == x) ≡ true = ground arith in rw e (memcmp_self n xs)
