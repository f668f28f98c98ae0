-- ===== src/Pmm/Contiguous.antt =====
-- `pmm_alloc_contiguous_pages`: a run of pages, or none is left.
use lufira_os.Base.{
  ℕ, ◌+◌, ◌*◌, ◌≤◌, ◌<◌, ◌≡◌, refl, Bool, true, false, Option, none, some, ◌||◌, ◌⊎◌, inl, inr,
  arith, ◌==◌, Bool-cases, ltb,
}
use lufira_os.Pmm.{Pmm, page_size, bitmap_test, find_run, set_pages, alloc_contiguous_pages}
use lufira_os.Pmm.Bitmap.{within, set_pages-IsBytes, length-set_pages, bitmap_test-set_pages}
use lufira_os.Pmm.Search.{ClearRun, FoundRun, find_run-FoundRun}
use lufira_os.Pmm.Count.{count_used-set_pages}
use lufira_os.Pmm.Inv.{IsValid, used-le-total}

-- The `count` pages from `p` on are taken from `s`.
pub record TakesRun (s : Pmm) (count : ℕ) (r : Pmm × ℕ) (p : ℕ) : Type 0 where
  pub address : r.1 ≡ p * page_size
  pub above : 512 ≤ p
  pub below : p + count ≤ s.total_pages
  pub was_free : ClearRun s.bitmap count p
  pub bits :
      (q : ℕ)
      → q < s.total_pages
      → bitmap_test (r.0).bitmap q ≡ (within count p q || bitmap_test s.bitmap q)
  pub used : (r.0).used_pages ≡ s.used_pages + count
  pub watermark : (r.0).next_free_page ≡ s.next_free_page
  pub valid : IsValid r.0

abbrev pub RunOutcome : Pmm → ℕ → Pmm × ℕ → Type 0
RunOutcome s count r =
    ((p : ℕ) × TakesRun s count r p)
    ⊎ ((r ≡ (s, 0)) × ((p : ℕ) → p + count ≤ s.total_pages → ¬ ClearRun s.bitmap count p))

not_low : {b : Bool} → b ≡ true → b ≡ false → ⊥
not_low p q = cc

module _ (s : Pmm) (count : ℕ) (v : IsValid s) (pos : 0 < count) where
  by_result :
      (r : Option ℕ)
      → r ≡ find_run s.bitmap count s.total_pages 0 0 0
      → FoundRun s.bitmap count s.total_pages r
      → RunOutcome s count (alloc_contiguous_pages s count)
  unfolding alloc_contiguous_pages
  by_result none e f =
      let z : (count == 0) ≡ false = ground arith in
      rw (z, ← e, alloc_contiguous_pages) (inr (refl, f))
  by_result (some p) e f =
      let z : (count == 0) ≡ false = ground arith in
      rw (z, ← e, alloc_contiguous_pages)
        (inl (
          p,
          record {
            address = omega (arith, v.small, f.0);
            above = above;
            below = f.0;
            was_free = f.1;
            bits = bits;
            used = omega (arith, v.small, used-le-total v, f.0);
            watermark = refl;
            valid = record {
              bytes = set_pages-IsBytes s.bitmap count p v.bytes;
              room = omega (arith, v.room, length-set_pages s.bitmap count p);
              small = v.small;
              low = λ q lo hi. ground (arith, bits q hi, v.low q lo hi);
              above_low = v.above_low;
              in_range = v.in_range;
              counted = omega (
                arith,
                v.small,
                v.counted,
                used-le-total v,
                f.0,
                count_used-set_pages s.bitmap count p s.total_pages v.bytes v.room f.0 f.1,
              );
            };
          },
        ))
    where
      above : 512 ≤ p
      above = elim (Bool-cases (ltb p 512)) [
        | inl lt ↦ absurd (
            not_low (v.low p (ground arith) (omega (arith, f.0)))
              (f.1 p (omega arith) (omega arith)))
        | inr ge ↦ ground arith
      ]

      bits :
          (q : ℕ)
          → q < s.total_pages
          → bitmap_test (set_pages s.bitmap count p) q
            ≡ (within count p q || bitmap_test s.bitmap q)
      bits q lt = bitmap_test-set_pages s.bitmap count p q v.bytes (omega (arith, v.room))

  -- From a valid state, for a positive count, `pmm_alloc_contiguous_pages` either takes a run of
  -- `count` pages that were all free, none of them below page 512, returns the address of the first,
  -- sets their bits and no others, counts them, keeps the watermark and leaves a valid state; or it
  -- returns 0, changes nothing, and no run of `count` free pages exists.
  pub alloc_contiguous_pages-RunOutcome : RunOutcome s count (alloc_contiguous_pages s count)
  alloc_contiguous_pages-RunOutcome =
      by_result _ refl (find_run-FoundRun s.bitmap count s.total_pages pos)
