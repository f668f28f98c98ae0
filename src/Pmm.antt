-- ===== src/Pmm.antt =====
-- The physical memory manager, kernel/system/mm/pmm.c: a bitmap with one bit for each 4 KiB page
-- (a set bit is a page in use), the number of used pages, and the page where the next search starts.
-- `pmm_lock` and `pmm_unlock` turn interrupts off and on again, so that a call is one step.
pub mod Bitmap
pub mod Search
pub mod Count
pub mod Inv
pub mod Alloc
pub mod Contiguous
pub mod Free
pub mod Init
mod Tests
use lufira_os.Base.{
  ℕ, zero, suc, ◌+◌, ◌-◌, ◌*◌, ◌/◌, ◌%◌, ◌^◌, Bool, true, false, not, ◌&&◌, ◌||◌, Option, none,
  some, List, [], ◌∷◌, length, get_or, set, replicate, ltb, leb, ◌==◌, if◌then◌else◌,
}
use lufira_os.Base.Bits.{bit_test, set_bit, clear_bit}

abbrev pub page_size : ℕ
page_size = 4096

-- `uint64_t` values
abbrev pub u64 : ℕ
u64 = 2 ^ 64

pub record Pmm : Type 0 where
  pub bitmap : List ℕ
  pub total_pages : ℕ
  pub used_pages : ℕ
  pub next_free_page : ℕ

-- A page behind the bitmap is not stored, where the code would write behind it; `IsValid` rules it out.
pub bitmap_set : List ℕ → ℕ → List ℕ
bitmap_set bm page = set bm (page / 8) (set_bit (get_or bm (page / 8) 0) (page % 8))

pub bitmap_clear : List ℕ → ℕ → List ℕ
bitmap_clear bm page = set bm (page / 8) (clear_bit (get_or bm (page / 8) 0) (page % 8))

pub bitmap_test : List ℕ → ℕ → Bool
bitmap_test bm page = bit_test (get_or bm (page / 8) 0) (page % 8)

-- The loops `for (p = 0; p < n; p++) bitmap_set(i + p)` and the same with `bitmap_clear`.
pub set_pages : List ℕ → ℕ → ℕ → List ℕ
set_pages bm zero i = bm
set_pages bm (suc n) i = set_pages (bitmap_set bm i) n (i + 1)

pub clear_pages : List ℕ → ℕ → ℕ → List ℕ
clear_pages bm zero i = bm
clear_pages bm (suc n) i = clear_pages (bitmap_clear bm i) n (i + 1)

-- The search of `pmm_alloc_page`: the first clear bit among the `n` pages from `i` on.
pub find_clear : List ℕ → ℕ → ℕ → Option ℕ
find_clear bm zero i = none
find_clear bm (suc n) i =
    let rest = find_clear bm n (i + 1) in if bitmap_test bm i then rest else some i

-- What `pmm_alloc_page` does with the page that it has found.
pub take_page : Pmm → ℕ → Pmm × ℕ
take_page s i = (
  record s {
    bitmap = bitmap_set s.bitmap i;
    used_pages = (s.used_pages + 1) % u64;
    next_free_page = i + 1;
  },
  i * page_size % u64,
)

-- `pmm_alloc_page`: from the watermark up, then from page 512 to the watermark; 0 is failure.
pub alloc_page : Pmm → Pmm × ℕ
alloc_page s = elim (find_clear s.bitmap (s.total_pages - s.next_free_page) s.next_free_page) [
  | some i ↦ take_page s i
  | none ↦ elim (find_clear s.bitmap (s.next_free_page - 512) 512) [
    | some i ↦ take_page s i
    | none ↦ (s, 0)
  ]
]

-- The search of `pmm_alloc_contiguous_pages`: `n` pages from `i` on are still to be looked at, and
-- the last `run_len` pages, from `run_start` on, are clear.
pub find_run : List ℕ → ℕ → ℕ → ℕ → ℕ → ℕ → Option ℕ
find_run bm count zero i run_start run_len = none
find_run bm count (suc n) i run_start run_len =
    let start = if run_len == 0 then i else run_start in
    let longer = find_run bm count n (i + 1) start (run_len + 1) in
    let broken = find_run bm count n (i + 1) run_start 0 in
    if bitmap_test bm i then broken else (if run_len + 1 == count then some start else longer)

-- `pmm_alloc_contiguous_pages`: the bits are set and counted, and the watermark stays.
pub alloc_contiguous_pages : Pmm → ℕ → Pmm × ℕ
alloc_contiguous_pages s count =
    if count == 0 then (s, 0) else elim (find_run s.bitmap count s.total_pages 0 0 0) [
      | none ↦ (s, 0)
      | some start ↦ (
        record s {
          bitmap = set_pages s.bitmap count start;
          used_pages = (s.used_pages + count) % u64;
        },
        start * page_size % u64,
      )
    ]

-- `pmm_free_page`
pub free_page : Pmm → ℕ → Pmm
free_page s phys =
    let page = phys / page_size in
    if leb s.total_pages page
    then s
    else (if bitmap_test s.bitmap page
        then record s {
          bitmap = bitmap_clear s.bitmap page;
          used_pages = (s.used_pages + u64 - 1) % u64;
        }
        else s)

-- `pmm_get_total_pages` and `pmm_get_used_pages`
pub get_total_pages : Pmm → ℕ
get_total_pages s = s.total_pages

pub get_used_pages : Pmm → ℕ
get_used_pages s = s.used_pages

-- `EFI_MEMORY_DESCRIPTOR`
pub record Descriptor : Type 0 where
  pub type : ℕ
  pub physical_start : ℕ
  pub virtual_start : ℕ
  pub number_of_pages : ℕ
  pub attribute : ℕ

abbrev pub conventional : ℕ
conventional = 7

abbrev pub block_size : Descriptor → ℕ
block_size d = d.number_of_pages * page_size % u64

abbrev pub block_end : Descriptor → ℕ
block_end d = (d.physical_start + block_size d) % u64

-- The first loop of `pmm_init`: the highest end of conventional memory.
pub max_phys : List Descriptor → ℕ → ℕ
max_phys [] top = top
max_phys (d ∷ ds) top =
    max_phys ds (if d.type == conventional && ltb top (block_end d) then block_end d else top)

-- The second loop: the largest conventional block that holds the bitmap and does not meet the
-- kernel image. `found` is `bitmap_found` with `bitmap_phys`.
pub choose_block : (size kernel_base kernel_end : ℕ) → List Descriptor → ℕ → Option ℕ → Option ℕ
choose_block size kb ke [] best found = found
choose_block size kb ke (d ∷ ds) best found =
    let clear_of_kernel = leb (block_end d) kb || leb ke d.physical_start in
    let take_it =
      d.type == conventional
      && (clear_of_kernel && (leb size (block_size d) && ltb best (block_size d))) in
    choose_block size kb ke ds (if take_it then block_size d else best)
      (if take_it then some d.physical_start else found)

-- The loop that clears the bits of conventional memory.
pub free_conventional : List ℕ → List Descriptor → List ℕ
free_conventional bm [] = bm
free_conventional bm (d ∷ ds) =
    free_conventional
      (if d.type == conventional
        then clear_pages bm d.number_of_pages (d.physical_start / page_size)
        else bm)
      ds

-- The loop that counts the set bits.
pub count_used : List ℕ → ℕ → ℕ → ℕ
count_used bm zero i = 0
count_used bm (suc n) i = (if bitmap_test bm i then 1 else 0) + count_used bm n (i + 1)

-- `(size + PAGE_SIZE - 1) / PAGE_SIZE`
abbrev pub pages_of : ℕ → ℕ
pages_of size = (size + page_size - 1) / page_size

pub record Layout : Type 0 where
  pub kernel_base : ℕ
  pub kernel_size : ℕ
  pub reserved_base : ℕ
  pub reserved_size : ℕ

-- The bitmap after every reservation of `pmm_init`, in the order of the source.
pub reserve : List ℕ → Layout → (bitmap_phys bitmap_size : ℕ) → List ℕ
reserve bm l bitmap_phys bitmap_size =
    let low = set_pages (set_pages bm 256 0) 512 0 in
    let own = set_pages low (pages_of bitmap_size) (bitmap_phys / page_size) in
    let kernel = set_pages own (pages_of l.kernel_size) (l.kernel_base / page_size) in
    if l.reserved_base == 0 || l.reserved_size == 0
    then kernel
    else set_pages kernel (pages_of l.reserved_size) (l.reserved_base / page_size)

abbrev pub total_of : List Descriptor → ℕ
total_of ds = let top = max_phys ds 0 in top / page_size + (if top % page_size == 0 then 0 else 1)

abbrev pub bitmap_size_of : ℕ → ℕ
bitmap_size_of total = (total + 8 - 1) / 8

-- `pmm_init` over the descriptors of the memory map; `none` is the halt with "Cannot find memory
-- for bitmap".
pub init : List Descriptor → Layout → Option Pmm
init ds l =
    let total = total_of ds in
    let size = bitmap_size_of total in
    elim (choose_block size l.kernel_base ((l.kernel_base + l.kernel_size) % u64) ds 0 none) [
      | none ↦ none
      | some phys ↦
          let all_used = set_pages (replicate size 0) total 0 in
          let bm = reserve (free_conventional all_used ds) l phys size in
          some (record {
            bitmap = bm;
            total_pages = total;
            used_pages = count_used bm total 0;
            next_free_page = 512;
          })
    ]
