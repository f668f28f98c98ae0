-- ===== src/Pmm/Inv.antt =====
-- The invariant of the page allocator, and the step that takes one page.
use lufira_os.Base.{
  ℕ, ◌+◌, ◌*◌, ◌^◌, ◌≤◌, ◌<◌, ◌≡◌, refl, true, false, ◌||◌, ◌⊎◌, inl, arith, length, ◌==◌,
}
use lufira_os.Pmm.{Pmm, page_size, bitmap_set, bitmap_test, take_page, count_used}
use lufira_os.Pmm.Bitmap.{IsBytes, bitmap_set-IsBytes, length-bitmap_set, bitmap_test-bitmap_set}
use lufira_os.Pmm.Count.{count_used-bitmap_set, count_used-le}

-- The bitmap holds bytes and covers all pages, the page count is that of a 64-bit address space,
-- pages 0..511 are never free, the watermark is in range, and `used_pages` counts the set bits.
pub record IsValid (s : Pmm) : Type 0 where
  pub bytes : IsBytes s.bitmap
  pub room : s.total_pages ≤ 8 * length s.bitmap
  pub small : s.total_pages ≤ 2 ^ 52
  pub low : (q : ℕ) → q < 512 → q < s.total_pages → bitmap_test s.bitmap q ≡ true
  pub above_low : 512 ≤ s.next_free_page
  pub in_range : (s.next_free_page ≤ s.total_pages) ⊎ (s.next_free_page ≡ 512)
  pub counted : s.used_pages ≡ count_used s.bitmap s.total_pages 0

-- `used_pages` never exceeds `total_pages`, so that no sum or difference here wraps.
pub used-le-total : {s : Pmm} → IsValid s → s.used_pages ≤ s.total_pages
used-le-total {s} v = omega (arith, v.counted, count_used-le s.bitmap s.total_pages 0)

-- The state in which page `p` is taken from `s`, and its address.
pub record Takes (s : Pmm) (r : Pmm × ℕ) (p : ℕ) : Type 0 where
  pub address : r.1 ≡ p * page_size
  pub above : 512 ≤ p
  pub below : p < s.total_pages
  pub was_free : bitmap_test s.bitmap p ≡ false
  pub bits :
      (q : ℕ) → q < s.total_pages → bitmap_test (r.0).bitmap q ≡ (q == p || bitmap_test s.bitmap q)
  pub used : (r.0).used_pages ≡ s.used_pages + 1
  pub total : (r.0).total_pages ≡ s.total_pages
  pub valid : IsValid r.0

pub take_page-Takes :
    (s : Pmm) (p : ℕ)
    → IsValid s
    → 512 ≤ p
    → p < s.total_pages
    → bitmap_test s.bitmap p ≡ false
    → Takes s (take_page s p) p
unfolding take_page
take_page-Takes s p v above below f = record {
  address = omega (arith, v.small);
  above = above;
  below = below;
  was_free = f;
  bits = bits;
  used = omega (arith, v.small, used-le-total v);
  total = refl;
  valid = record {
    bytes = bitmap_set-IsBytes s.bitmap v.bytes p;
    room = omega (arith, v.room, length-bitmap_set s.bitmap p);
    small = v.small;
    low = λ q lo hi. ground (arith, bits q hi, v.low q lo hi);
    above_low = omega arith;
    in_range = inl (omega arith);
    counted = omega (
      arith,
      v.small,
      v.counted,
      used-le-total v,
      count_used-bitmap_set s.bitmap v.bytes p s.total_pages below v.room f,
    );
  };
}
  where
    bits :
        (q : ℕ)
        → q < s.total_pages
        → bitmap_test (bitmap_set s.bitmap p) q ≡ (q == p || bitmap_test s.bitmap q)
    bits q lt = bitmap_test-bitmap_set s.bitmap p q v.bytes (omega (arith, v.room))
