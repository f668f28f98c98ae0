-- ===== src/Sha256/Constants.antt =====
-- The constants of FIPS 180-4 by what that standard says they are, sections 4.2.2 and 5.3.3.
use lufira_os.Base.{
  ℕ, zero, suc, ◌+◌, ◌*◌, ◌^◌, ◌≡◌, refl, Bool, true, false, ◌&&◌, ◌||◌, List, [], ◌∷◌, take, leb,
  ltb,
}
use lufira_os.Sha256.{Words, Context, sha256_init, constants}

abbrev pub primes : List ℕ
primes =
    2 ∷ 3 ∷ 5 ∷ 7 ∷ 11 ∷ 13 ∷ 17 ∷ 19 ∷ 23 ∷ 29 ∷ 31 ∷ 37 ∷ 41 ∷ 43 ∷ 47 ∷ 53 ∷ 59 ∷ 61 ∷ 67 ∷ 71
    ∷ 73 ∷ 79 ∷ 83 ∷ 89 ∷ 97 ∷ 101 ∷ 103 ∷ 107 ∷ 109 ∷ 113 ∷ 127 ∷ 131 ∷ 137 ∷ 139 ∷ 149 ∷ 151 ∷ 157
    ∷ 163 ∷ 167 ∷ 173 ∷ 179 ∷ 181 ∷ 191 ∷ 193 ∷ 197 ∷ 199 ∷ 211 ∷ 223 ∷ 227 ∷ 229 ∷ 233 ∷ 239 ∷ 241
    ∷ 251 ∷ 257 ∷ 263 ∷ 269 ∷ 271 ∷ 277 ∷ 281 ∷ 283 ∷ 293 ∷ 307 ∷ 311 ∷ []

-- Is `k` the first 32 bits of the fractional part of the `n`-th root of `p`, whose whole part is below
-- `bound`?
pub is_root_fraction : (n p k bound : ℕ) → Bool
is_root_fraction n p k zero = false
is_root_fraction n p k (suc whole) =
    let root = whole * 2 ^ 32 + k in
    ltb k (2 ^ 32) && leb (root ^ n) (p * (2 ^ 32) ^ n) && ltb (p * (2 ^ 32) ^ n) ((root + 1) ^ n)
    || is_root_fraction n p k whole

pub are_root_fractions : (n : ℕ) → (ps ks : List ℕ) → Bool
are_root_fractions n [] [] = true
are_root_fractions n [] (k ∷ ks) = false
are_root_fractions n (p ∷ ps) [] = false
are_root_fractions n (p ∷ ps) (k ∷ ks) = is_root_fraction n p k 8 && are_root_fractions n ps ks

abbrev pub words_of : Words → List ℕ
words_of s = s.a ∷ s.b ∷ s.c ∷ s.d ∷ s.e ∷ s.f ∷ s.g ∷ s.h ∷ []

pub constants_cube_roots : are_root_fractions 3 primes constants ≡ true
unfolding are_root_fractions is_root_fraction
constants_cube_roots = refl

pub sha256_init_square_roots :
    (ctx : Context) → are_root_fractions 2 (take 8 primes) (words_of (sha256_init ctx).state) ≡ true
unfolding are_root_fractions is_root_fraction sha256_init
sha256_init_square_roots ctx = refl
