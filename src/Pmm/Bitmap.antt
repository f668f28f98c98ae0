-- ===== src/Pmm/Bitmap.antt =====
-- The bitmap of pmm.c: what each bit is after a bit, or a run of bits, is set or cleared.
use lufira_os.Base.{
  ℕ, zero, suc, ◌+◌, ◌*◌, ◌/◌, ◌%◌, ◌≤◌, ◌<◌, ◌≡◌, refl, ap, Bool, not, ◌&&◌, ◌||◌, List, [], ◌∷◌,
  arith, length, get_or, set, length-set, get_or-set_self, get_or-set_ne, All, All-set, All-get_or,
  ltb, leb, ◌==◌, dec_lt, ℕ_discrete,
}
use lufira_os.Base.Bits.{bit_test, set_bit, clear_bit, bit_test-set_bit, bit_test-clear_bit}
use lufira_os.Pmm.{bitmap_set, bitmap_clear, bitmap_test, set_pages, clear_pages}

-- Every entry is a byte.
abbrev pub IsBytes : List ℕ → Type 0
IsBytes bm = All (λ (x : ℕ). x < 256) bm

byte_at : (bm : List ℕ) (i : ℕ) → IsBytes bm → get_or bm i 0 < 256
byte_at bm i h = All-get_or (λ (x : ℕ). x < 256) bm i 0 h (omega arith)

module _ (bm : List ℕ) (bytes : IsBytes bm) (p : ℕ) where
  pub bitmap_set-IsBytes : IsBytes (bitmap_set bm p)
  unfolding bitmap_set
  bitmap_set-IsBytes =
      All-set (λ (x : ℕ). x < 256) bm (p / 8) _ bytes
        (bit_test-set_bit (get_or bm (p / 8) 0) (p % 8) 0 (byte_at bm (p / 8) bytes) (omega arith)
          (omega arith)).1

  pub bitmap_clear-IsBytes : IsBytes (bitmap_clear bm p)
  unfolding bitmap_clear
  bitmap_clear-IsBytes =
      All-set (λ (x : ℕ). x < 256) bm (p / 8) _ bytes
        (bit_test-clear_bit (get_or bm (p / 8) 0) (p % 8) 0 (byte_at bm (p / 8) bytes) (omega arith)
          (omega arith)).1

pub length-bitmap_set : (bm : List ℕ) (p : ℕ) → length (bitmap_set bm p) ≡ length bm
unfolding bitmap_set
length-bitmap_set bm p = length-set bm (p / 8) _

pub length-bitmap_clear : (bm : List ℕ) (p : ℕ) → length (bitmap_clear bm p) ≡ length bm
unfolding bitmap_clear
length-bitmap_clear bm p = length-set bm (p / 8) _

-- Setting a page's bit sets that bit and no other.
pub bitmap_test-bitmap_set :
    (bm : List ℕ) (p q : ℕ)
    → IsBytes bm
    → p < 8 * length bm
    → bitmap_test (bitmap_set bm p) q ≡ (q == p || bitmap_test bm q)
unfolding bitmap_test bitmap_set
bitmap_test-bitmap_set bm p q h lt = elim (ℕ_discrete (p / 8) (q / 8)) [
  | yes e ↦ ground (
    arith,
    ap (λ t. bit_test (get_or (set bm (p / 8) (set_bit (get_or bm (p / 8) 0) (p % 8))) t 0) (q % 8))
        e,
    get_or-set_self bm (p / 8) (set_bit (get_or bm (p / 8) 0) (p % 8)) 0 (omega arith),
    bit_test-set_bit (get_or bm (p / 8) 0) (p % 8) (q % 8) (byte_at bm (p / 8) h) (omega arith)
        (omega arith),
  )
  | no n ↦
      ground (arith, get_or-set_ne bm (p / 8) (q / 8) (set_bit (get_or bm (p / 8) 0) (p % 8)) 0 n)
]

-- Clearing a page's bit clears that bit and no other.
pub bitmap_test-bitmap_clear :
    (bm : List ℕ) (p q : ℕ)
    → IsBytes bm
    → p < 8 * length bm
    → bitmap_test (bitmap_clear bm p) q ≡ (not (q == p) && bitmap_test bm q)
unfolding bitmap_test bitmap_clear
bitmap_test-bitmap_clear bm p q h lt = elim (ℕ_discrete (p / 8) (q / 8)) [
  | yes e ↦ ground (
    arith,
    ap
        (λ t.
          bit_test (get_or (set bm (p / 8) (clear_bit (get_or bm (p / 8) 0) (p % 8))) t 0) (q % 8))
        e,
    get_or-set_self bm (p / 8) (clear_bit (get_or bm (p / 8) 0) (p % 8)) 0 (omega arith),
    bit_test-clear_bit (get_or bm (p / 8) 0) (p % 8) (q % 8) (byte_at bm (p / 8) h) (omega arith)
        (omega arith),
  )
  | no n ↦
      ground (arith, get_or-set_ne bm (p / 8) (q / 8) (clear_bit (get_or bm (p / 8) 0) (p % 8)) 0 n)
]

-- A page lies in the run of `n` pages from `i` on.
abbrev pub within : ℕ → ℕ → ℕ → Bool
within n i q = leb i q && ltb q (i + n)

pub set_pages-IsBytes : (bm : List ℕ) (n i : ℕ) → IsBytes bm → IsBytes (set_pages bm n i)
unfolding set_pages
set_pages-IsBytes bm zero i h = h
set_pages-IsBytes bm (suc n) i h =
    set_pages-IsBytes (bitmap_set bm i) n (i + 1) (bitmap_set-IsBytes bm h i)

pub clear_pages-IsBytes : (bm : List ℕ) (n i : ℕ) → IsBytes bm → IsBytes (clear_pages bm n i)
unfolding clear_pages
clear_pages-IsBytes bm zero i h = h
clear_pages-IsBytes bm (suc n) i h =
    clear_pages-IsBytes (bitmap_clear bm i) n (i + 1) (bitmap_clear-IsBytes bm h i)

pub length-set_pages : (bm : List ℕ) (n i : ℕ) → length (set_pages bm n i) ≡ length bm
unfolding set_pages
length-set_pages bm zero i = refl
length-set_pages bm (suc n) i =
    omega (arith, length-set_pages (bitmap_set bm i) n (i + 1), length-bitmap_set bm i)

pub length-clear_pages : (bm : List ℕ) (n i : ℕ) → length (clear_pages bm n i) ≡ length bm
unfolding clear_pages
length-clear_pages bm zero i = refl
length-clear_pages bm (suc n) i =
    omega (arith, length-clear_pages (bitmap_clear bm i) n (i + 1), length-bitmap_clear bm i)

-- Out of range, a write changes no entry and a read gives 0.
set_out {ℓ} : {A : Type ℓ} (xs : List A) (i : ℕ) (v : A) → length xs ≤ i → set xs i v ≡ xs
set_out [] i v h = refl
set_out (x ∷ xs) zero v h = absurd (omega arith)
set_out (x ∷ xs) (suc i) v h = ap (◌∷◌ x) (set_out xs i v (omega arith))

bitmap_set_out : (bm : List ℕ) (p : ℕ) → 8 * length bm ≤ p → bitmap_set bm p ≡ bm
unfolding bitmap_set
bitmap_set_out bm p h = set_out bm (p / 8) _ (omega arith)

bitmap_clear_out : (bm : List ℕ) (p : ℕ) → 8 * length bm ≤ p → bitmap_clear bm p ≡ bm
unfolding bitmap_clear
bitmap_clear_out bm p h = set_out bm (p / 8) _ (omega arith)

-- In range, whether or not the page written is in range too.
set_anywhere :
    (bm : List ℕ) (p q : ℕ)
    → IsBytes bm
    → q < 8 * length bm
    → bitmap_test (bitmap_set bm p) q ≡ (q == p || bitmap_test bm q)
set_anywhere bm p q h lt = elim (dec_lt p (8 * length bm)) [
  | yes y ↦ bitmap_test-bitmap_set bm p q h y
  | no n ↦ ground (arith, bitmap_set_out bm p (omega arith))
]

clear_anywhere :
    (bm : List ℕ) (p q : ℕ)
    → IsBytes bm
    → q < 8 * length bm
    → bitmap_test (bitmap_clear bm p) q ≡ (not (q == p) && bitmap_test bm q)
clear_anywhere bm p q h lt = elim (dec_lt p (8 * length bm)) [
  | yes y ↦ bitmap_test-bitmap_clear bm p q h y
  | no n ↦ ground (arith, bitmap_clear_out bm p (omega arith))
]

-- After a run is set, the set pages are those of the run and those set before.
pub bitmap_test-set_pages :
    (bm : List ℕ) (n i q : ℕ)
    → IsBytes bm
    → q < 8 * length bm
    → bitmap_test (set_pages bm n i) q ≡ (within n i q || bitmap_test bm q)
unfolding set_pages
bitmap_test-set_pages bm zero i q h lt = ground arith
bitmap_test-set_pages bm (suc n) i q h lt = ground (
  arith,
  bitmap_test-set_pages (bitmap_set bm i) n (i + 1) q (bitmap_set-IsBytes bm h i),
  length-bitmap_set bm i,
  set_anywhere bm i q h lt,
)

-- After a run is cleared, the set pages are those set before and outside the run.
pub bitmap_test-clear_pages :
    (bm : List ℕ) (n i q : ℕ)
    → IsBytes bm
    → q < 8 * length bm
    → bitmap_test (clear_pages bm n i) q ≡ (not (within n i q) && bitmap_test bm q)
unfolding clear_pages
bitmap_test-clear_pages bm zero i q h lt = ground arith
bitmap_test-clear_pages bm (suc n) i q h lt = ground (
  arith,
  bitmap_test-clear_pages (bitmap_clear bm i) n (i + 1) q (bitmap_clear-IsBytes bm h i),
  length-bitmap_clear bm i,
  clear_anywhere bm i q h lt,
)
