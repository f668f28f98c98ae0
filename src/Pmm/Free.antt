-- ===== src/Pmm/Free.antt =====
-- `pmm_free_page`, alone and after an allocation.
use lufira_os.Base.{
  ℕ, ◌+◌, ◌/◌, ◌≤◌, ◌<◌, ◌≡◌, refl, true, false, not, ◌&&◌, ◌⊎◌, inl, inr, arith, ◌==◌, leb,
  Bool-cases, ap,
}
use lufira_os.Pmm.{Pmm, page_size, bitmap_test, bitmap_clear, free_page, count_used, alloc_page}
use lufira_os.Pmm.Bitmap.{bitmap_test-bitmap_clear, bitmap_clear-IsBytes, length-bitmap_clear}
use lufira_os.Pmm.Count.{count_used-bitmap_clear}
use lufira_os.Pmm.Inv.{IsValid, Takes, used-le-total}
use lufira_os.Pmm.Alloc.{Outcome, alloc_page-Outcome}

-- Page `p` is given back.
pub record Gives (s s' : Pmm) (p : ℕ) : Type 0 where
  pub bits :
      (q : ℕ)
      → q < s.total_pages
      → bitmap_test s'.bitmap q ≡ (not (q == p) && bitmap_test s.bitmap q)
  pub used : s'.used_pages + 1 ≡ s.used_pages
  pub total : s'.total_pages ≡ s.total_pages
  pub watermark : s'.next_free_page ≡ s.next_free_page
  pub valid : IsValid s'

-- A page number that is out of range, or whose page is free already, changes nothing.
pub free_page_idle :
    (s : Pmm) (phys : ℕ)
    → (s.total_pages ≤ phys / page_size) ⊎ (bitmap_test s.bitmap (phys / page_size) ≡ false)
    → free_page s phys ≡ s
unfolding free_page
free_page_idle s phys (inl h) =
    let e : leb s.total_pages (phys / page_size) ≡ true = ground arith in rw e
free_page_idle s phys (inr f) =
    rw f (elim (Bool-cases (leb s.total_pages (phys / page_size))) [ inl e ↦ rw e | inr e ↦ rw e ])

-- Freeing an address in a used page, at or above page 512, of a valid state clears that page's bit
-- and no other, takes one off the count, keeps the watermark and leaves a valid state.
pub free_page-Gives :
    (s : Pmm) (phys : ℕ)
    → IsValid s
    → 512 ≤ phys / page_size
    → phys / page_size < s.total_pages
    → bitmap_test s.bitmap (phys / page_size) ≡ true
    → Gives s (free_page s phys) (phys / page_size)
unfolding free_page
free_page-Gives s phys v lo hi t =
    let e : leb s.total_pages (phys / page_size) ≡ false = ground arith in
    rw (e, t)
      (record {
        bits = bits;
        used = omega (arith, v.small, used-le-total v, v.counted, one_less);
        total = refl;
        watermark = refl;
        valid = record {
          bytes = bitmap_clear-IsBytes s.bitmap v.bytes (phys / page_size);
          room = omega (arith, v.room, length-bitmap_clear s.bitmap (phys / page_size));
          small = v.small;
          low = λ q l h. ground (arith, bits q h, v.low q l h);
          above_low = v.above_low;
          in_range = v.in_range;
          counted = omega (arith, v.small, used-le-total v, v.counted, one_less);
        };
      })
  where
    bits :
        (q : ℕ)
        → q < s.total_pages
        → bitmap_test (bitmap_clear s.bitmap (phys / page_size)) q
          ≡ (not (q == phys / page_size) && bitmap_test s.bitmap q)
    bits q lt =
        bitmap_test-bitmap_clear s.bitmap (phys / page_size) q v.bytes (omega (arith, v.room))

    one_less :
        count_used (bitmap_clear s.bitmap (phys / page_size)) s.total_pages 0 + 1
        ≡ count_used s.bitmap s.total_pages 0
    one_less = count_used-bitmap_clear s.bitmap v.bytes (phys / page_size) s.total_pages hi v.room t

-- After a successful allocation from a valid state, freeing the returned address makes every bit of
-- the bitmap and the count what they were, and a second free of the same address changes nothing.
pub free_page-alloc_page :
    (s : Pmm)
    → IsValid s
    → 0 < (alloc_page s).1
    → let (s', phys) = alloc_page s in
      ((q : ℕ)
        → q < s.total_pages
        → bitmap_test (free_page s' phys).bitmap q ≡ bitmap_test s.bitmap q)
      × ((free_page s' phys).used_pages ≡ s.used_pages)
      × (free_page (free_page s' phys) phys ≡ free_page s' phys)
free_page-alloc_page s v pos = go (alloc_page-Outcome s v)
  where
    taken : (p : ℕ) → Takes s (alloc_page s) p → ((alloc_page s).1 / page_size ≡ p)
    taken p t = omega (arith, t.address)

    go :
        Outcome s (alloc_page s)
        → let (s', phys) = alloc_page s in
          ((q : ℕ)
            → q < s.total_pages
            → bitmap_test (free_page s' phys).bitmap q ≡ bitmap_test s.bitmap q)
          × ((free_page s' phys).used_pages ≡ s.used_pages)
          × (free_page (free_page s' phys) phys ≡ free_page s' phys)
    go (inr (e, full)) = absurd (let z : (alloc_page s).1 ≡ 0 = ap (λ r. r.1) e in omega arith)
    go (inl (p, t)) =
        let g : Gives (alloc_page s).0 (free_page (alloc_page s).0 (alloc_page s).1)
            ((alloc_page s).1 / page_size) =
          free_page-Gives (alloc_page s).0 (alloc_page s).1 t.valid
            (omega (arith, taken p t, t.above)) (omega (arith, taken p t, t.below, t.total))
            (rw (taken p t) (ground (arith, t.bits p t.below))) in
        (
          λ q lt.
              let same : ◌≡◌ {A = ℕ} ((alloc_page s).1 / page_size) p = taken p t in
              let b = rw same at (g.bits q (omega (arith, t.total))) in
              ground
                (arith, b, t.bits q lt, t.was_free, λ (e : q ≡ p). ap (bitmap_test s.bitmap) e),
          omega (arith, g.used, t.used),
          free_page_idle _ _ (
              inr (
                ground (
                  arith,
                  g.bits ((alloc_page s).1 / page_size)
                      (omega (arith, t.total, taken p t, t.below)),
                ))),
        )
