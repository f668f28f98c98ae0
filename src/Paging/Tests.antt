-- ===== src/Paging/Tests.antt =====
-- Runs of the page tables at concrete inputs.
use lufira_os.Base.{ℕ, ◌+◌, ◌%◌, ◌^◌, ◌≤◌, ◌<◌, ◌≡◌, ◌↔◌, refl, true, not, ◌&&◌, [], arith}
use lufira_os.Pmm.{Pmm}
use lufira_os.Paging.{
  Tables, Space, is_present, is_huge, is_user, is_writable, frame, pml4_index, pdpt_index, pd_index,
  pt_index, pml4_entry, pdpt_entry, pd_entry, pt_entry, store, get_or_create_table, release_frame,
  unmap_page, map_page_in_pml4, get_physical_address_in_pml4, is_user_accessible,
  is_user_range_valid,
}
use lufira_os.Paging.Access.{is_user_range_valid_lem}
use lufira_os.Paging.Unmap.{Apart, Released, unmap_page_lem}
use lufira_os.Paging.Mapped.{Way, map_page_in_pml4-get_physical_address_in_pml4}

-- Tables at 4096, 8192, 12288 and 16384 for the first addresses; the page at 20480 is mapped to 0.
abbrev no_tables : Tables
no_tables t i = 0

tables : Tables
tables =
    store (store (store (store no_tables 4096 0 8199) 8192 0 12295) 12288 0 16391) 16384 0 20487

abbrev pmm : Pmm
pmm = record { bitmap = []; total_pages = 0; used_pages = 0; next_free_page = 0 }

abbrev space : Space
space = record { mem = tables; pmm = pmm; regions = [] }

is_user_range_valid_lem_example : (is_user_range_valid tables 4096 100 5000 true ≡ true) ↔ (
    (100 + 5000 ≤ 2 ^ 64)
    × ((k : ℕ) → k < 5000 → is_user_accessible tables 4096 (100 + k) true ≡ true))
is_user_range_valid_lem_example =
    is_user_range_valid_lem tables 4096 100 5000 true (λ e. omega (arith, e)) (omega arith)
      (omega arith)

accessible_test : is_user_accessible tables 4096 5 true ≡ true
unfolding is_user_accessible tables store is_present is_huge is_user is_writable frame pml4_index
    pdpt_index pd_index pt_index pml4_entry pdpt_entry pd_entry pt_entry
accessible_test = refl

apart : Apart tables 4096 5
unfolding tables store frame pml4_index pdpt_index pd_index pml4_entry pdpt_entry pd_entry
apart = record {
  from_pml4 = λ e. omega (arith, e);
  from_pdpt = λ e. omega (arith, e);
  from_pd = λ e. omega (arith, e);
}

unmap_page_lem_example :
    (get_physical_address_in_pml4 (unmap_page space 4096 5).mem 4096 5 ≡ 0)
    × ((unmap_page space 4096 5).pmm ≡ (release_frame space (pt_entry tables 4096 5)).pmm)
    × ((unmap_page space 4096 5).regions ≡ (release_frame space (pt_entry tables 4096 5)).regions)
    × ((unmap_page space 4096 5).mem ≡ store tables (frame (pd_entry tables 4096 5)) (pt_index 5) 0)
    × Released space
        (pt_entry tables 4096 5)
        (unmap_page space 4096 5).pmm
        (unmap_page space 4096 5).regions
unfolding tables store is_present is_huge frame pml4_index pdpt_index pd_index pml4_entry pdpt_entry
    pd_entry
unmap_page_lem_example = unmap_page_lem space 4096 5 apart refl refl refl refl

way : Way space 4096 5
unfolding get_or_create_table tables store is_present is_huge is_user frame pml4_index pdpt_index
    pd_index
way = record {
  pdpt_there = λ e. omega (arith, e);
  pd_there = λ e. omega (arith, e);
  pt_there = λ e. omega (arith, e);
  pdpt_page = refl;
  pd_page = refl;
  pt_page = refl;
  pml4_pdpt = λ e. omega (arith, e);
  pml4_pd = λ e. omega (arith, e);
  pml4_pt = λ e. omega (arith, e);
  pdpt_pd = λ e. omega (arith, e);
  pdpt_pt = λ e. omega (arith, e);
  pd_pt = λ e. omega (arith, e);
  small = refl;
}

map_page_in_pml4-get_physical_address_in_pml4_example :
    ((map_page_in_pml4 space 4096 5 24576 7).1 ≡ true)
    × (get_physical_address_in_pml4 (map_page_in_pml4 space 4096 5 24576 7).0.mem 4096 5
        ≡ frame 24576 + 5 % 4096)
    × (is_user_accessible (map_page_in_pml4 space 4096 5 24576 7).0.mem 4096 5 true
        ≡ (is_user 7 && not (true && not (is_writable 7))))
map_page_in_pml4-get_physical_address_in_pml4_example =
    map_page_in_pml4-get_physical_address_in_pml4 space 4096 5 24576 7 true way
