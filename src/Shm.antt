-- ===== src/Shm.antt =====
-- The registry of shared memory regions, kernel/system/mm/shm.c: sixteen slots, each with the pages
-- of a region and a count of references, one for each page that a process maps.
-- `kmalloc` for the copy of the page list may fail: its answer is an argument. `pmm_free_page` is
-- that of the page allocator.
pub mod Refs
pub mod Release
mod Tests
use lufira_os.Base.{
  ℕ, zero, suc, ◌+◌, ◌-◌, ◌*◌, ◌^◌, Bool, true, false, not, ◌&&◌, ◌||◌, Option, none, some, List,
  [], ◌∷◌, length, get_or, set, take, replicate, ltb, leb, ◌==◌, if◌then◌else◌,
}
use lufira_os.Pmm.{Pmm, free_page}

abbrev pub max_regions : ℕ
max_regions = 16

abbrev pub max_region_pages : ℕ
max_region_pages = 4096

-- `shared_region_t`; `pages` is the array behind the pointer, empty for NULL. `refcount` is an `int`
-- there and does not overflow here: 2 ^ 31 mappings of one region do not fit into the processes.
pub record Region : Type 0 where
  pub in_use : Bool
  pub refcount : ℕ
  pub num_pages : ℕ
  pub pages : List ℕ

abbrev pub no_region : Region
no_region = record { in_use = false; refcount = 0; num_pages = 0; pages = [] }

abbrev pub Registry : Type 0
Registry = List Region

-- `shm_init`
pub shm_init : Registry
shm_init = replicate max_regions no_region

-- The first slot from `i` on that is not in use.
pub free_slot : Registry → ℕ → Option ℕ
free_slot [] i = none
free_slot (r ∷ rs) i = let rest = free_slot rs (i + 1) in if r.in_use then rest else some i

-- `shm_create`: the registry and the slot, `none` for -1. `granted` says that `kmalloc` succeeds.
pub shm_create : Bool → Registry → List ℕ → ℕ → Registry × Option ℕ
shm_create granted g pages num_pages =
    if num_pages == 0 || ltb max_region_pages num_pages then (g, none) else elim (free_slot g 0) [
      | none ↦ (g, none)
      | some slot ↦
          if granted
          then (
            set g slot (record {
              in_use = true;
              refcount = num_pages;
              num_pages = num_pages;
              pages = take num_pages pages;
            }),
            some slot,
          )
          else (g, none)
    ]

-- `id < 0 || id >= MAX_SHARED_REGIONS || !g_regions[id].in_use`, at an `id` that is not negative
pub is_bad : Registry → ℕ → Bool
is_bad g id = leb max_regions id || not (get_or g id no_region).in_use

-- `shm_add_ref`
pub shm_add_ref : Registry → ℕ → Registry
shm_add_ref g id =
    let r = get_or g id no_region in
    if is_bad g id then g else set g id (record r { refcount = r.refcount + 1 })

-- The loop that gives the pages back.
pub free_pages : Pmm → List ℕ → Pmm
free_pages m [] = m
free_pages m (p ∷ ps) = free_pages (free_page m p) ps

-- `shm_release`: the last reference gives the pages back and empties the slot. `refcount--` runs at
-- a positive count in a valid registry; below, it stops at 0 as `refcount > 0` fails there too.
pub shm_release : Registry → Pmm → ℕ → Registry × Pmm
shm_release g m id =
    let r = get_or g id no_region in
    let last : Registry × Pmm = (
      set g id (record { in_use = false; refcount = r.refcount - 1; num_pages = 0; pages = [] }),
      free_pages m (take r.num_pages r.pages),
    ) in
    if is_bad g id
    then (g, m)
    else (if ltb 0 (r.refcount - 1)
        then (set g id (record r { refcount = r.refcount - 1 }), m)
        else last)

-- `shm_get_pages`: what goes to `pages_out` and to `*num_pages_out`, `none` for -1.
pub shm_get_pages : Registry → ℕ → ℕ → Option (List ℕ × ℕ)
shm_get_pages g id max_pages =
    let r = get_or g id no_region in
    let n = if ltb max_pages r.num_pages then max_pages else r.num_pages in
    if is_bad g id then none else some (take n r.pages, r.num_pages)

-- `shm_get_num_pages`
pub shm_get_num_pages : Registry → ℕ → ℕ
shm_get_num_pages g id = if is_bad g id then 0 else (get_or g id no_region).num_pages

-- The inner loop of `shm_find_region_by_page`.
pub has_page : List ℕ → ℕ → Bool
has_page [] phys = false
has_page (p ∷ ps) phys = p == phys || has_page ps phys

-- `shm_find_region_by_page` from slot `i` on, `none` for -1.
pub find_region : Registry → ℕ → ℕ → Option ℕ
find_region [] i phys = none
find_region (r ∷ rs) i phys =
    let rest = find_region rs (i + 1) phys in
    if r.in_use && has_page (take r.num_pages r.pages) phys then some i else rest

pub shm_find_region_by_page : Registry → ℕ → Option ℕ
shm_find_region_by_page g phys = find_region g 0 phys
