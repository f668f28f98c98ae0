-- ===== src/Pmm/Count.antt =====
-- The number of set bits: how it changes when one bit is set or cleared.
use lufira_os.Base.{
  ℕ, zero, suc, ◌+◌, ◌*◌, ◌≤◌, ◌<◌, ◌≡◌, refl, ap₂, ap, true, false, ◌||◌, List, arith, length,
  ◌==◌, if◌then◌else◌, Bool-cases, inl, inr,
}
use lufira_os.Pmm.{bitmap_set, bitmap_clear, bitmap_test, set_pages, count_used}
use lufira_os.Pmm.Bitmap.{
  IsBytes, bitmap_test-bitmap_set, bitmap_test-bitmap_clear, bitmap_set-IsBytes, length-bitmap_set,
}

pub count_used-le : (bm : List ℕ) (n i : ℕ) → count_used bm n i ≤ n
unfolding count_used
count_used-le bm zero i = omega arith
count_used-le bm (suc n) i = ground (arith, count_used-le bm n (i + 1))

-- Two bitmaps that agree on the pages from `i` on have as many set there.
count_used_ext :
    (bm bm' : List ℕ) (n i : ℕ)
    → ((q : ℕ) → i ≤ q → q < i + n → bitmap_test bm q ≡ bitmap_test bm' q)
    → count_used bm n i ≡ count_used bm' n i
unfolding count_used
count_used_ext bm bm' zero i h = refl
count_used_ext bm bm' (suc n) i h =
    ap₂ ◌+◌ (ap (λ b. if b then 1 else 0) (h i (omega arith) (omega arith)))
      (count_used_ext bm bm' n (i + 1) (λ q lo hi. h q (omega arith) (omega arith)))

-- One more set page makes the count one more.
pub count_used_more :
    (bm bm' : List ℕ) (p n i : ℕ)
    → i ≤ p
    → p < i + n
    → bitmap_test bm p ≡ false
    → ((q : ℕ) → i ≤ q → q < i + n → bitmap_test bm' q ≡ (q == p || bitmap_test bm q))
    → count_used bm' n i ≡ count_used bm n i + 1
unfolding count_used
count_used_more bm bm' p zero i lo hi f h = absurd (omega arith)
count_used_more bm bm' p (suc n) i lo hi f h = elim (Bool-cases (i == p)) [
  | inl e ↦ ground (
    arith,
    h i (omega arith) (omega arith),
    ap (bitmap_test bm) (let e' : i ≡ p = ground arith in e'),
    count_used_ext bm' bm n (i + 1) (λ q l u. ground (arith, h q (omega arith) (omega arith))),
  )
  | inr e ↦ ground (
    arith,
    h i (omega arith) (omega arith),
    count_used_more bm bm' p n (i + 1) (ground arith) (omega arith) f
        (λ q l u. h q (omega arith) (omega arith)),
  )
]

module _ (bm : List ℕ) (bytes : IsBytes bm) (p total : ℕ) (lt : p < total)
    (room : total ≤ 8 * length bm) where
  pub count_used-bitmap_set :
      bitmap_test bm p ≡ false → count_used (bitmap_set bm p) total 0 ≡ count_used bm total 0 + 1
  count_used-bitmap_set f =
      count_used_more bm (bitmap_set bm p) p total 0 (omega arith) (omega arith) f
        (λ q lo hi. bitmap_test-bitmap_set bm p q bytes (omega arith))

  pub count_used-bitmap_clear :
      bitmap_test bm p ≡ true → count_used (bitmap_clear bm p) total 0 + 1 ≡ count_used bm total 0
  count_used-bitmap_clear t = ground (
    arith,
    count_used_more (bitmap_clear bm p) bm p total 0 (omega arith) (omega arith)
        (ground (arith, bitmap_test-bitmap_clear bm p p bytes (omega arith)))
        (λ q lo hi.
          ground (arith, ap (bitmap_test bm), bitmap_test-bitmap_clear bm p q bytes (omega arith))),
  )

-- A run of clear pages that is set adds its length.
pub count_used-set_pages :
    (bm : List ℕ) (n i total : ℕ)
    → IsBytes bm
    → total ≤ 8 * length bm
    → i + n ≤ total
    → ((q : ℕ) → i ≤ q → q < i + n → bitmap_test bm q ≡ false)
    → count_used (set_pages bm n i) total 0 ≡ count_used bm total 0 + n
unfolding set_pages
count_used-set_pages bm zero i total b room fit h = omega arith
count_used-set_pages bm (suc n) i total b room fit h = omega (
  arith,
  count_used-set_pages (bitmap_set bm i) n (i + 1) total (bitmap_set-IsBytes bm b i)
      (omega (arith, length-bitmap_set bm i)) (omega arith)
      (λ q lo hi.
        ground
          (arith, bitmap_test-bitmap_set bm i q b (omega arith), h q (omega arith) (omega arith))),
  count_used-bitmap_set bm b i total (omega arith) room (h i (omega arith) (omega arith)),
)
