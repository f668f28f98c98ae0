-- ===== src/Shm/Tests.antt =====
-- Tests of the shared memory registry.
use lufira_os.Base.{
  ℕ, ◌+◌, ◌<◌, ◌≡◌, refl, true, false, ◌⊎◌, none, some, List, [], ◌∷◌, set, get_or, take, arith,
  All-set,
}
use lufira_os.Pmm.{Pmm}
use lufira_os.Shm.{
  Region, Registry, no_region, shm_init, shm_create, free_pages, shm_add_ref, has_page, find_region,
  shm_find_region_by_page,
}
use lufira_os.Shm.Refs.{IsValid, RegionIsValid, shm_init-IsValid, Registered, shm_create-Registered}
use lufira_os.Shm.Release.{
  releases, Updated, Freed, less, releases_kept, releases_all, shm_add_ref-Updated,
}

abbrev three_pages : List ℕ
three_pages = 0x200000 ∷ 0x201000 ∷ 0x205000 ∷ []

abbrev three : Region
three = record { in_use = true; refcount = 3; num_pages = 3; pages = three_pages }

-- Slot 0 holds a region of three pages.
abbrev shared : Registry
shared = set shm_init 0 three

abbrev memory : Pmm
memory = record { bitmap = []; total_pages = 0; used_pages = 0; next_free_page = 512 }

shared-IsValid : IsValid shared
unfolding shm_init
shared-IsValid = record {
  slots = refl;
  regions = All-set RegionIsValid shm_init 0 three (shm_init-IsValid).regions (λ e. omega arith);
}

found_again : shm_find_region_by_page shared 0x205000 ≡ some 0
unfolding shm_find_region_by_page find_region has_page shm_init
found_again = refl

shm_create-Registered_example :
    ((slot : ℕ) × ((shm_create true shm_init three_pages 3).1 ≡ some slot)
      × Registered shm_init (shm_create true shm_init three_pages 3).0 three_pages 3 slot)
    ⊎ ((shm_create true shm_init three_pages 3 ≡ (shm_init, none))
        × ((true ≡ false) ⊎ ((k : ℕ) → k < 16 → (get_or shm_init k no_region).in_use ≡ true)))
shm_create-Registered_example =
    shm_create-Registered shm_init three_pages 3 shm_init-IsValid (omega arith) (omega arith)
      (omega arith) true

three_in_use : (get_or shared 0 no_region).in_use ≡ true
unfolding shm_init
three_in_use = refl

three_references : (get_or shared 0 no_region).refcount ≡ 3
unfolding shm_init
three_references = refl

releases_kept_example :
    ((releases 2 shared memory 0).1 ≡ memory)
    × Updated shared (releases 2 shared memory 0).0 0 (less (get_or shared 0 no_region) 2)
releases_kept_example =
    releases_kept 2 shared memory 0 shared-IsValid (omega arith) three_in_use
      (omega (arith, three_references))

releases_all_example :
    let r = get_or shared 0 no_region in
    ((releases 3 shared memory 0).1 ≡ free_pages memory (take r.num_pages r.pages))
    × Freed memory (take r.num_pages r.pages) (releases 3 shared memory 0).1
    × Updated shared (releases 3 shared memory 0).0 0 no_region
releases_all_example =
    releases_all 3 shared memory 0 shared-IsValid (omega arith) three_in_use three_references

shm_add_ref-Updated_example :
    Updated shared
      (shm_add_ref shared 0)
      0
      (record (get_or shared 0 no_region) { refcount = (get_or shared 0 no_region).refcount + 1 })
shm_add_ref-Updated_example = shm_add_ref-Updated shared 0 shared-IsValid (omega arith) three_in_use
