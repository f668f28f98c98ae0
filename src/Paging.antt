-- ===== src/Paging.antt =====
-- Page tables, kernel/system/mm/paging.c. A table is known by its physical address, and memory is a
-- function from a table and an index to the entry: `phys_to_virt` reaches all of it. Entries are
-- natural numbers below 2 ^ 64. `invlpg` is left out, and so is the building of the kernel's tables.
pub mod Access
pub mod Walk
pub mod Rule
pub mod Unmap
pub mod Map
pub mod Mapped
mod Tests
use lufira_os.Base.{
  ℕ, zero, suc, ◌+◌, ◌-◌, ◌*◌, ◌/◌, ◌%◌, ◌^◌, Bool, true, false, not, ◌&&◌, ◌||◌, Option, none,
  some, ltb, ◌==◌, if◌then◌else◌,
}
use lufira_os.Pmm.{Pmm, alloc_page, free_page}
use lufira_os.Shm.{Registry, shm_find_region_by_page, shm_release}

abbrev pub Tables : Type 0
Tables = ℕ → ℕ → ℕ

abbrev pub page_size : ℕ
page_size = 4096

-- The bits `PAGE_PRESENT`, `PAGE_WRITE`, `PAGE_USER`, `PAGE_HUGE`, `PAGE_IDENTITY_SHARED`,
-- `PAGE_MMAP_SHARED` and `PAGE_MMIO_NOFREE` of an entry.
pub is_present : ℕ → Bool
is_present e = e % 2 == 1

pub is_writable : ℕ → Bool
is_writable e = e / 2 % 2 == 1

pub is_user : ℕ → Bool
is_user e = e / 4 % 2 == 1

pub is_huge : ℕ → Bool
is_huge e = e / 128 % 2 == 1

pub is_identity_shared : ℕ → Bool
is_identity_shared e = e / 512 % 2 == 1

pub is_mmap_shared : ℕ → Bool
is_mmap_shared e = e / 1024 % 2 == 1

pub is_mmio_nofree : ℕ → Bool
is_mmio_nofree e = e / 2048 % 2 == 1

-- An entry `& 0x000FFFFFFFFFF000`
pub frame : ℕ → ℕ
frame e = e / 4096 % 2 ^ 40 * 4096

-- `PML4_INDEX`, `PDPT_INDEX`, `PD_INDEX` and `PT_INDEX`
pub pml4_index : ℕ → ℕ
pml4_index v = v / 2 ^ 39 % 512

pub pdpt_index : ℕ → ℕ
pdpt_index v = v / 2 ^ 30 % 512

pub pd_index : ℕ → ℕ
pd_index v = v / 2 ^ 21 % 512

pub pt_index : ℕ → ℕ
pt_index v = v / 2 ^ 12 % 512

-- `paddr_to_entry`
pub paddr_to_entry : (phys flags : ℕ) → ℕ
paddr_to_entry phys flags = frame phys + flags % 4096

-- The entries that a walk from the table `pml4` reads, down to the page directory's and to the last.
pub pml4_entry : Tables → (pml4 virt : ℕ) → ℕ
pml4_entry mem pml4 virt = mem pml4 (pml4_index virt)

pub pdpt_entry : Tables → (pml4 virt : ℕ) → ℕ
pdpt_entry mem pml4 virt = mem (frame (pml4_entry mem pml4 virt)) (pdpt_index virt)

pub pd_entry : Tables → (pml4 virt : ℕ) → ℕ
pd_entry mem pml4 virt = mem (frame (pdpt_entry mem pml4 virt)) (pd_index virt)

pub pt_entry : Tables → (pml4 virt : ℕ) → ℕ
pt_entry mem pml4 virt = mem (frame (pd_entry mem pml4 virt)) (pt_index virt)

-- `get_physical_address_in_pml4`
pub get_physical_address_in_pml4 : Tables → (pml4 virt : ℕ) → ℕ
get_physical_address_in_pml4 mem pml4 virt =
    let pde = pd_entry mem pml4 virt in
    let pte = pt_entry mem pml4 virt in
    if not (is_present (pml4_entry mem pml4 virt))
    then 0
    else if not (is_present (pdpt_entry mem pml4 virt))
    then 0
    else if not (is_present pde)
    then 0
    else if is_huge pde
    then frame pde + virt % 2 ^ 21
    else if not (is_present pte)
    then 0
    else frame pte + virt % 4096

-- `is_user_accessible`
pub is_user_accessible : Tables → (pml4 virt : ℕ) → (need_write : Bool) → Bool
is_user_accessible mem pml4 virt need_write =
    let pml4e = pml4_entry mem pml4 virt in
    let pdpte = pdpt_entry mem pml4 virt in
    let pde = pd_entry mem pml4 virt in
    let pte = pt_entry mem pml4 virt in
    if not (is_present pml4e) || not (is_user pml4e)
    then false
    else if not (is_present pdpte) || not (is_user pdpte)
    then false
    else if not (is_present pde)
    then false
    else if is_huge pde
    then if not (is_user pde)
      then false
      else if need_write && not (is_writable pde)
      then false
      else true
    else if not (is_user pde)
    then false
    else if not (is_present pte) || not (is_user pte)
    then false
    else if need_write && not (is_writable pte)
    then false
    else true

-- The loop of `is_user_range_valid`, over `fuel` pages at most.
pub check_pages :
    (fuel : ℕ) → Tables → (pml4 : ℕ) → (need_write : Bool) → (page last_page : ℕ) → Bool
check_pages zero mem pml4 need_write page last_page = false
check_pages (suc fuel) mem pml4 need_write page last_page =
    let rest = check_pages fuel mem pml4 need_write ((page + 4096) % 2 ^ 64) last_page in
    if not (is_user_accessible mem pml4 page need_write)
    then false
    else if page == last_page
    then true
    else rest

-- `is_user_range_valid`
pub is_user_range_valid : Tables → (pml4 addr len : ℕ) → (need_write : Bool) → Bool
is_user_range_valid mem pml4 addr len need_write =
    let end = (addr + len + 2 ^ 64 - 1) % 2 ^ 64 in
    if len == 0
    then true
    else if ltb end addr
    then false
    else check_pages (len / 4096 + 2) mem pml4 need_write (addr / 4096 * 4096) (end / 4096 * 4096)

-- A store into an entry.
pub store : Tables → (table index value : ℕ) → Tables
store mem table index value t i = if t == table && i == index then value else mem t i

-- The state of memory: the tables, the free pages and the shared regions.
pub record Space : Type 0 where
  pub mem : Tables
  pub pmm : Pmm
  pub regions : Registry

-- Who gets the page of an entry that is taken out.
pub release_frame : Space → (entry : ℕ) → Space
release_frame s e =
    let phys = frame e in
    let plain : Space = record s { pmm = free_page s.pmm phys } in
    let shared : Space = elim (shm_find_region_by_page s.regions phys) [
      | none ↦ plain
      | some id ↦
          let (regions, pmm) = shm_release s.regions s.pmm id in
          record s { regions = regions; pmm = pmm }
    ] in
    if phys == 0
    then s
    else if is_mmio_nofree e
    then s
    else if is_mmap_shared e
    then shared
    else plain

-- `unmap_page`, with `get_current_pml4()` as `pml4`.
pub unmap_page : Space → (pml4 virt : ℕ) → Space
unmap_page s pml4 virt =
    let pde = pd_entry s.mem pml4 virt in
    let pte = pt_entry s.mem pml4 virt in
    let released = release_frame s pte in
    let cleared : Space = record released {
      mem = store released.mem (frame pde) (pt_index virt) 0;
    } in
    if not (is_present (pml4_entry s.mem pml4 virt))
    then s
    else if not (is_present (pdpt_entry s.mem pml4 virt))
    then s
    else if not (is_present pde)
    then s
    else if is_huge pde
    then s
    else cleared

-- An entry with its user bit set, and a table of zeros.
abbrev pub add_user : ℕ → ℕ
add_user e = if is_user e then e else e + 4

abbrev pub clear_table : Tables → ℕ → Tables
clear_table mem table t i = if t == table then 0 else mem t i

-- `get_or_create_table`, with `create`: the space and the table's address, 0 for NULL.
pub get_or_create_table : Space → (parent index : ℕ) → Space × ℕ
get_or_create_table s parent index =
    let entry = s.mem parent index in
    let (pmm, phys) = alloc_page s.pmm in
    let created : Space = record s {
      pmm = pmm;
      mem = clear_table (store s.mem parent index (paddr_to_entry phys 7)) phys;
    } in
    if is_present entry
    then (record s { mem = store s.mem parent index (add_user entry) }, frame (add_user entry))
    else if phys == 0
    then (record s { pmm = pmm }, 0)
    else (created, phys)

-- A huge page is split into a table of 512 pages, marked as shared with the kernel's map.
pub split_entry : (pde index : ℕ) → ℕ
split_entry pde index =
    let flags = pde % 4096 - (if is_huge pde then 128 else 0) in
    paddr_to_entry (frame pde + index * 4096)
      (if is_identity_shared flags then flags else flags + 512)

pub split_huge : Space → (pd index : ℕ) → Space × Bool
split_huge s pd index =
    let pde = s.mem pd index in
    let flags = pde % 4096 - (if is_huge pde then 128 else 0) in
    let (pmm, pt) = alloc_page s.pmm in
    let filled : Tables = λ t i. if t == pt && ltb i 512 then split_entry pde i else s.mem t i in
    if not (is_present pde && is_huge pde)
    then (s, true)
    else if pt == 0
    then (record s { pmm = pmm }, false)
    else (record s { pmm = pmm; mem = store filled pd index (paddr_to_entry pt flags) }, true)

-- The last entry that `map_page_in_pml4` writes.
pub leaf : (phys flags : ℕ) → ℕ
leaf phys flags = frame phys + (flags % 4096 / 2 * 2 + 1)

-- `map_page_in_pml4`: the space and whether 0 is returned.
pub map_page_in_pml4 : Space → (pml4 virt phys flags : ℕ) → Space × Bool
map_page_in_pml4 s pml4 virt phys flags =
    let (s1, pdpt) = get_or_create_table s pml4 (pml4_index virt) in
    let (s2, pd) = get_or_create_table s1 pdpt (pdpt_index virt) in
    let (s3, split) = split_huge s2 pd (pd_index virt) in
    let (s4, pt) = get_or_create_table s3 pd (pd_index virt) in
    let mapped : Space = record s4 { mem = store s4.mem pt (pt_index virt) (leaf phys flags) } in
    if pdpt == 0
    then (s1, false)
    else if pd == 0
    then (s2, false)
    else if not split
    then (s3, false)
    else if pt == 0
    then (s4, false)
    else (mapped, true)
