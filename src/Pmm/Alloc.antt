-- ===== src/Pmm/Alloc.antt =====
-- `pmm_alloc_page`: what it returns, and when it fails.
use lufira_os.Base.{
  ℕ, ◌-◌, ◌<◌, ◌≡◌, refl, true, false, Option, none, some, ◌⊎◌, inl, inr, arith, ltb, Bool-cases,
}
use lufira_os.Pmm.{Pmm, bitmap_test, find_clear, take_page, alloc_page}
use lufira_os.Pmm.Search.{Found, find_clear-Found}
use lufira_os.Pmm.Inv.{IsValid, Takes, take_page-Takes}

-- Every page is in use.
abbrev pub IsFull : Pmm → Type 0
IsFull s = (q : ℕ) → q < s.total_pages → bitmap_test s.bitmap q ≡ true

-- The outcome of an allocation: a page taken, or failure with nothing changed and no page free.
abbrev pub Outcome : Pmm → Pmm × ℕ → Type 0
Outcome s r = ((p : ℕ) × Takes s r p) ⊎ ((r ≡ (s, 0)) × IsFull s)

second_pass : (s : Pmm) → Pmm × ℕ
second_pass s = elim (find_clear s.bitmap (s.next_free_page - 512) 512) [
  | some i ↦ take_page s i
  | none ↦ (s, 0)
]

-- The second pass, after a first pass that found all pages from the watermark on set.
second_pass-Outcome :
    (s : Pmm)
    → IsValid s
    → Found s.bitmap (s.total_pages - s.next_free_page) s.next_free_page none
    → (r : Option ℕ) → r ≡ find_clear s.bitmap (s.next_free_page - 512) 512
    → Found s.bitmap (s.next_free_page - 512) 512 r
    → Outcome s (second_pass s)
unfolding second_pass
second_pass-Outcome s v first none e f =
    rw (← e, second_pass)
      (inr (
        refl,
        λ q lt. elim (Bool-cases (ltb q 512)) [
          | inl low ↦ v.low q (ground arith) lt
          | inr high ↦ elim (Bool-cases (ltb q s.next_free_page)) [
            | inl mid ↦ f q (ground arith) (ground (arith, v.above_low))
            | inr top ↦ first q (ground arith) (ground arith)
          ]
        ],
      ))
second_pass-Outcome s v first (some p) e f =
    rw (← e, second_pass)
      (inl (p, take_page-Takes s p v f.0 (omega (arith, f.1, v.in_range, v.above_low)) f.2))

first_pass-Outcome :
    (s : Pmm)
    → IsValid s
    → (r : Option ℕ) → r ≡ find_clear s.bitmap (s.total_pages - s.next_free_page) s.next_free_page
    → Found s.bitmap (s.total_pages - s.next_free_page) s.next_free_page r
    → Outcome s (alloc_page s)
unfolding alloc_page second_pass
first_pass-Outcome s v none e f =
    rw (← e, alloc_page)
      (second_pass-Outcome s v f _ refl (find_clear-Found s.bitmap (s.next_free_page - 512) 512))
first_pass-Outcome s v (some p) e f =
    rw (← e, alloc_page)
      (inl
        (p, take_page-Takes s p v (omega (arith, f.0, v.above_low)) (omega (arith, f.0, f.1)) f.2))

-- From a valid state `pmm_alloc_page` either takes one page that was free, at or above page 512,
-- returns its address, sets its bit and no other, counts it and leaves a valid state; or it
-- returns 0, changes nothing, and every page is in use.
pub alloc_page-Outcome : (s : Pmm) → IsValid s → Outcome s (alloc_page s)
alloc_page-Outcome s v =
    first_pass-Outcome s v _ refl
      (find_clear-Found s.bitmap (s.total_pages - s.next_free_page) s.next_free_page)

-- As long as one page is free, the address is not 0.
pub alloc_page-ne-zero :
    (s : Pmm) (p : ℕ)
    → IsValid s
    → p < s.total_pages
    → bitmap_test s.bitmap p ≡ false
    → 0 < (alloc_page s).1
alloc_page-ne-zero s p v lt f = go (alloc_page-Outcome s v)
  where
    go : Outcome s (alloc_page s) → 0 < (alloc_page s).1
    go (inl (q, t)) = omega (arith, t.address, t.above)
    go (inr (e, full)) = absurd (let c : true ≡ false = ground (arith, full p lt) in cc)
