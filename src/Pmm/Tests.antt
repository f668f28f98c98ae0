-- ===== src/Pmm/Tests.antt =====
-- Tests of the page allocator on a machine with 520 pages, whose kernel is page 513.
use lufira_os.Base.{
  ℕ, ◌*◌, ◌/◌, ◌<◌, ◌≡◌, refl, true, false, inl, none, some, List, [], ◌∷◌, ◌++◌, replicate, arith,
}
use lufira_os.Base.Bits.{holds_to, holds_to-lt}
use lufira_os.Pmm.{
  Pmm, Descriptor, Layout, page_size, bitmap_set, bitmap_clear, bitmap_test, set_pages, clear_pages,
  find_clear, take_page, alloc_page, find_run, alloc_contiguous_pages, free_page, max_phys,
  choose_block, free_conventional, reserve, count_used, total_of, bitmap_size_of, init,
}
use lufira_os.Pmm.Inv.{IsValid}
use lufira_os.Pmm.Alloc.{Outcome, alloc_page-Outcome, alloc_page-ne-zero}
use lufira_os.Pmm.Contiguous.{RunOutcome, alloc_contiguous_pages-RunOutcome}
use lufira_os.Pmm.Free.{Gives, free_page-Gives, free_page-alloc_page}
use lufira_os.Pmm.Init.{Built, init-Built}

abbrev memory_map : List Descriptor
memory_map =
    record { type = 7; physical_start = 0; virtual_start = 0; number_of_pages = 513; attribute = 0 }
    ∷ record {
      type = 2;
      physical_start = 513 * 4096;
      virtual_start = 0;
      number_of_pages = 1;
      attribute = 0;
    }
    ∷ record {
      type = 7;
      physical_start = 514 * 4096;
      virtual_start = 0;
      number_of_pages = 6;
      attribute = 0;
    }
    ∷ []

abbrev layout : Layout
layout = record {
  kernel_base = 513 * 4096;
  kernel_size = 4096;
  reserved_base = 0;
  reserved_size = 0;
}

abbrev booted : Pmm
booted = record {
  bitmap = replicate 64 255 ++ (2 ∷ []);
  total_pages = 520;
  used_pages = 513;
  next_free_page = 512;
}

-- The last page is free and the watermark is above it.
abbrev wrapped : Pmm
wrapped = record booted { next_free_page = 520 }

booted_by_init : init memory_map layout ≡ some booted
unfolding init max_phys choose_block free_conventional reserve count_used set_pages clear_pages
    bitmap_set bitmap_clear bitmap_test
booted_by_init = refl

low_table : holds_to (bitmap_test booted.bitmap) 512 ≡ true
unfolding holds_to bitmap_test
low_table = refl

booted-IsValid : IsValid booted
unfolding count_used bitmap_test
booted-IsValid = record {
  bytes = omega arith;
  room = omega arith;
  small = omega arith;
  low = λ q lo hi. holds_to-lt (bitmap_test booted.bitmap) 512 low_table q lo;
  above_low = omega arith;
  in_range = inl (omega arith);
  counted = refl;
}

wrapped-IsValid : IsValid wrapped
unfolding count_used bitmap_test
wrapped-IsValid = record {
  bytes = omega arith;
  room = omega arith;
  small = omega arith;
  low = λ q lo hi. holds_to-lt (bitmap_test booted.bitmap) 512 low_table q lo;
  above_low = omega arith;
  in_range = inl (omega arith);
  counted = refl;
}

alloc_from_low_end : (alloc_page wrapped).1 ≡ 512 * 4096
unfolding alloc_page find_clear take_page bitmap_test
alloc_from_low_end = refl

run_past_kernel : (alloc_contiguous_pages booted 3).1 ≡ 514 * 4096
unfolding alloc_contiguous_pages find_run bitmap_test
run_past_kernel = refl

alloc_page-Outcome_example : Outcome wrapped (alloc_page wrapped)
alloc_page-Outcome_example = alloc_page-Outcome wrapped wrapped-IsValid

page_519_free : bitmap_test booted.bitmap 519 ≡ false
unfolding bitmap_test
page_519_free = refl

one_page_left : 0 < (alloc_page wrapped).1
one_page_left = alloc_page-ne-zero wrapped 519 wrapped-IsValid (omega arith) page_519_free

alloc_contiguous_pages-RunOutcome_example : RunOutcome booted 3 (alloc_contiguous_pages booted 3)
alloc_contiguous_pages-RunOutcome_example =
    alloc_contiguous_pages-RunOutcome booted 3 booted-IsValid (omega arith)

page_513_used : bitmap_test booted.bitmap (513 * 4096 / page_size) ≡ true
unfolding bitmap_test
page_513_used = refl

free_page-Gives_example : Gives booted (free_page booted (513 * 4096)) 513
free_page-Gives_example =
    free_page-Gives booted (513 * 4096) booted-IsValid (omega arith) (omega arith) page_513_used

free_page-alloc_page_example :
    let (s', phys) = alloc_page wrapped in
    ((q : ℕ) → q < 520 → bitmap_test (free_page s' phys).bitmap q ≡ bitmap_test wrapped.bitmap q)
    × ((free_page s' phys).used_pages ≡ 513)
    × (free_page (free_page s' phys) phys ≡ free_page s' phys)
free_page-alloc_page_example = free_page-alloc_page wrapped wrapped-IsValid one_page_left

init-Built_example :
    (phys : ℕ) × (choose_block
        (bitmap_size_of (total_of memory_map))
        (513 * 4096)
        (514 * 4096)
        memory_map
        0
        none
      ≡ some phys)
    × Built memory_map layout booted phys
init-Built_example = init-Built memory_map layout booted booted_by_init
