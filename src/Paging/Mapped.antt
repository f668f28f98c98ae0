-- ===== src/Paging/Mapped.antt =====
-- An address that `map_page_in_pml4` maps translates to the page that it was mapped to.
use lufira_os.Base.{
  ℕ, ◌+◌, ◌*◌, ◌/◌, ◌%◌, ◌^◌, ◌≡◌, ◌≢◌, refl, ap, ◌∙◌, Bool, true, false, not, ◌&&◌, ◌==◌,
  if◌then◌else◌, arith,
}
use lufira_os.Process.Table.{==_ne}
use lufira_os.Paging.{
  Tables, Space, is_present, is_huge, is_user, is_writable, frame, pml4_index, pdpt_index, pd_index,
  pt_index, pml4_entry, pdpt_entry, pd_entry, pt_entry, store, get_or_create_table, split_huge,
  leaf, map_page_in_pml4, get_physical_address_in_pml4, is_user_accessible,
}
use lufira_os.Paging.Unmap.{
  store_same, store_other_table, pml4_entry_lem, pdpt_entry_lem, pd_entry_lem, pt_entry_lem,
}
use lufira_os.Paging.Map.{Enters, entered, stays_small, untouched}

-- The spaces and tables on the way down.
abbrev pub pdpt_of : Space → (pml4 virt : ℕ) → Space × ℕ
pdpt_of s pml4 virt = get_or_create_table s pml4 (pml4_index virt)

abbrev pub pd_of : Space → (pml4 virt : ℕ) → Space × ℕ
pd_of s pml4 virt = let r = pdpt_of s pml4 virt in get_or_create_table r.0 r.1 (pdpt_index virt)

abbrev pub pt_of : Space → (pml4 virt : ℕ) → Space × ℕ
pt_of s pml4 virt = let r = pd_of s pml4 virt in get_or_create_table r.0 r.1 (pd_index virt)

-- Each table of the way is found or made, is at the start of a page, and the tables differ; there is
-- no huge page on the way.
pub record Way (s : Space) (pml4 virt : ℕ) : Type 0 where
  pub pdpt_there : (pdpt_of s pml4 virt).1 ≢ 0
  pub pd_there : (pd_of s pml4 virt).1 ≢ 0
  pub pt_there : (pt_of s pml4 virt).1 ≢ 0
  pub pdpt_page : frame (pdpt_of s pml4 virt).1 ≡ (pdpt_of s pml4 virt).1
  pub pd_page : frame (pd_of s pml4 virt).1 ≡ (pd_of s pml4 virt).1
  pub pt_page : frame (pt_of s pml4 virt).1 ≡ (pt_of s pml4 virt).1
  pub pml4_pdpt : pml4 ≢ (pdpt_of s pml4 virt).1
  pub pml4_pd : pml4 ≢ (pd_of s pml4 virt).1
  pub pml4_pt : pml4 ≢ (pt_of s pml4 virt).1
  pub pdpt_pd : (pdpt_of s pml4 virt).1 ≢ (pd_of s pml4 virt).1
  pub pdpt_pt : (pdpt_of s pml4 virt).1 ≢ (pt_of s pml4 virt).1
  pub pd_pt : (pd_of s pml4 virt).1 ≢ (pt_of s pml4 virt).1
  pub small :
      let r = pd_of s pml4 virt in
      (is_present (r.0.mem r.1 (pd_index virt)) && is_huge (r.0.mem r.1 (pd_index virt))) ≡ false

no_split :
    (s : Space) (pd index : ℕ)
    → (is_present (s.mem pd index) && is_huge (s.mem pd index)) ≡ false
    → split_huge s pd index ≡ (s, true)
unfolding split_huge
no_split s pd index h = rw (split_huge, h) refl

-- The memory after a mapping.
final : Space → (pml4 virt phys flags : ℕ) → Tables
final s pml4 virt phys flags =
    store (pt_of s pml4 virt).0.mem (pt_of s pml4 virt).1 (pt_index virt) (leaf phys flags)

map_done :
    (s : Space) (pml4 virt phys flags : ℕ)
    → Way s pml4 virt
    → ((map_page_in_pml4 s pml4 virt phys flags).1 ≡ true)
      × ((map_page_in_pml4 s pml4 virt phys flags).0.mem ≡ final s pml4 virt phys flags)
unfolding map_page_in_pml4 final
map_done s pml4 virt phys flags w =
    let split = no_split (pd_of s pml4 virt).0 (pd_of s pml4 virt).1 (pd_index virt) w.small in
    rw
      (
        map_page_in_pml4,
        ==_ne (pdpt_of s pml4 virt).1 0 w.pdpt_there,
        ==_ne (pd_of s pml4 virt).1 0 w.pd_there,
        split,
        ==_ne (pt_of s pml4 virt).1 0 w.pt_there,
      )
      (refl, refl)

-- The four entries that the walk reads afterwards.
pub record Mapped (mem : Tables) (pml4 virt entry : ℕ) : Type 0 where
  pub upper_pml4 :
      (is_present (pml4_entry mem pml4 virt) ≡ true) × (is_user (pml4_entry mem pml4 virt) ≡ true)
  pub upper_pdpt :
      (is_present (pdpt_entry mem pml4 virt) ≡ true) × (is_user (pdpt_entry mem pml4 virt) ≡ true)
  pub upper_pd :
      (is_present (pd_entry mem pml4 virt) ≡ true) × (is_user (pd_entry mem pml4 virt) ≡ true)
  pub small : is_huge (pd_entry mem pml4 virt) ≡ false
  pub last : pt_entry mem pml4 virt ≡ entry

entry_bits : (v e table : ℕ) → v ≡ e → Enters e table → (is_present v ≡ true) × (is_user v ≡ true)
entry_bits v e table h r = (ap is_present h ∙ r.present, ap is_user h ∙ r.user)

final-Mapped :
    (s : Space) (pml4 virt phys flags : ℕ)
    → Way s pml4 virt
    → Mapped (final s pml4 virt phys flags) pml4 virt (leaf phys flags)
unfolding final
final-Mapped s pml4 virt phys flags w =
    let i1 = pml4_index virt in
    let i2 = pdpt_index virt in
    let i3 = pd_index virt in
    let i4 = pt_index virt in
    let r1 = pdpt_of s pml4 virt in
    let r2 = pd_of s pml4 virt in
    let r3 = pt_of s pml4 virt in
    let m = final s pml4 virt phys flags in
    let n1 = entered s pml4 i1 w.pdpt_there w.pml4_pdpt w.pdpt_page in
    let n2 = entered r1.0 r1.1 i2 w.pd_there w.pdpt_pd w.pd_page in
    let n3 = entered r2.0 r2.1 i3 w.pt_there w.pd_pt w.pt_page in
    let v1 : pml4_entry m pml4 virt ≡ r1.0.mem pml4 i1 =
      pml4_entry_lem m pml4 virt
      ∙ store_other_table r3.0.mem r3.1 i4 (leaf phys flags) pml4 i1 w.pml4_pt
      ∙ untouched r2.0 r2.1 i3 pml4 i1 w.pt_there w.pml4_pd w.pml4_pt
      ∙ untouched r1.0 r1.1 i2 pml4 i1 w.pd_there w.pml4_pdpt w.pml4_pd in
    let t1 : frame (pml4_entry m pml4 virt) ≡ r1.1 = ap frame v1 ∙ n1.target in
    let v2 : pdpt_entry m pml4 virt ≡ r2.0.mem r1.1 i2 =
      pdpt_entry_lem m pml4 virt
      ∙ ap (λ t. m t i2) t1
      ∙ store_other_table r3.0.mem r3.1 i4 (leaf phys flags) r1.1 i2 w.pdpt_pt
      ∙ untouched r2.0 r2.1 i3 r1.1 i2 w.pt_there w.pdpt_pd w.pdpt_pt in
    let t2 : frame (pdpt_entry m pml4 virt) ≡ r2.1 = ap frame v2 ∙ n2.target in
    let v3 : pd_entry m pml4 virt ≡ r3.0.mem r2.1 i3 =
      pd_entry_lem m pml4 virt
      ∙ ap (λ t. m t i3) t2
      ∙ store_other_table r3.0.mem r3.1 i4 (leaf phys flags) r2.1 i3 w.pd_pt in
    let t3 : frame (pd_entry m pml4 virt) ≡ r3.1 = ap frame v3 ∙ n3.target in
    record {
      upper_pml4 = entry_bits (pml4_entry m pml4 virt) (r1.0.mem pml4 i1) r1.1 v1 n1;
      upper_pdpt = entry_bits (pdpt_entry m pml4 virt) (r2.0.mem r1.1 i2) r2.1 v2 n2;
      upper_pd = entry_bits (pd_entry m pml4 virt) (r3.0.mem r2.1 i3) r3.1 v3 n3;
      small = ap is_huge v3 ∙ stays_small r2.0 r2.1 i3 w.pt_there w.pd_pt w.small;
      last =
          pt_entry_lem m pml4 virt
          ∙ ap (λ t. m t i4) t3
          ∙ store_same r3.0.mem r3.1 i4 (leaf phys flags);
    }

leaf_bits :
    (phys flags : ℕ)
    → (is_present (leaf phys flags) ≡ true)
      × (frame (leaf phys flags) ≡ frame phys)
      × (is_user (leaf phys flags) ≡ is_user flags)
      × (is_writable (leaf phys flags) ≡ is_writable flags)
unfolding leaf is_present is_user is_writable frame
leaf_bits phys flags =
    let a : (phys / 4096 % 2 ^ 40 * 4096 + (flags % 4096 / 2 * 2 + 1)) % 2 ≡ 1 = omega arith in
    let b : (phys / 4096 % 2 ^ 40 * 4096 + (flags % 4096 / 2 * 2 + 1)) / 4096 % 2 ^ 40 * 4096
        ≡ phys / 4096 % 2 ^ 40 * 4096 =
      omega arith in
    let c : (phys / 4096 % 2 ^ 40 * 4096 + (flags % 4096 / 2 * 2 + 1)) / 4 % 2 ≡ flags / 4 % 2 =
      omega arith in
    let d : (phys / 4096 % 2 ^ 40 * 4096 + (flags % 4096 / 2 * 2 + 1)) / 2 % 2 ≡ flags / 2 % 2 =
      omega arith in
    (ap (λ n. n == 1) a, b, ap (λ n. n == 1) c, ap (λ n. n == 1) d)

translated :
    (mem : Tables) (pml4 virt phys flags : ℕ)
    → Mapped mem pml4 virt (leaf phys flags)
    → get_physical_address_in_pml4 mem pml4 virt ≡ frame phys + virt % 4096
unfolding get_physical_address_in_pml4
translated mem pml4 virt phys flags h =
    let (a, b, c, d) = leaf_bits phys flags in
    rw
      (
        h.upper_pml4.0,
        h.upper_pdpt.0,
        h.upper_pd.0,
        h.small,
        ap is_present h.last ∙ a,
        ap frame h.last ∙ b,
      )
      refl

as_and : (u n : Bool) → (if not u then false else if n then false else true) ≡ (u && not n)
as_and true true = refl
as_and true false = refl
as_and false n = refl

allowed :
    (mem : Tables) (pml4 virt phys flags : ℕ) (need_write : Bool)
    → Mapped mem pml4 virt (leaf phys flags)
    → is_user_accessible mem pml4 virt need_write
      ≡ (is_user flags && not (need_write && not (is_writable flags)))
unfolding is_user_accessible
allowed mem pml4 virt phys flags need_write h =
    let (a, b, c, d) = leaf_bits phys flags in
    let tests : is_user_accessible mem pml4 virt need_write ≡ (
        if not (is_user flags)
        then false
        else if need_write && not (is_writable flags)
        then false
        else true) =
      rw
        (
          is_user_accessible,
          h.upper_pml4.0,
          h.upper_pml4.1,
          h.upper_pdpt.0,
          h.upper_pdpt.1,
          h.upper_pd.0,
          h.small,
          h.upper_pd.1,
          ap is_present h.last ∙ a,
          ap is_user h.last ∙ c,
          ap is_writable h.last ∙ d,
        )
        refl in
    tests ∙ as_and (is_user flags) (need_write && not (is_writable flags))

-- `map_page_in_pml4` of an address to the page `phys`, when every table of the way is found or
-- made, the tables are different pages, and no huge page is in the way: 0 is returned, the address
-- translates to its place in the page, and a program may access it exactly as far as the flags say.
pub map_page_in_pml4-get_physical_address_in_pml4 :
    (s : Space) (pml4 virt phys flags : ℕ) (need_write : Bool)
    → Way s pml4 virt
    → ((map_page_in_pml4 s pml4 virt phys flags).1 ≡ true)
      × (get_physical_address_in_pml4 (map_page_in_pml4 s pml4 virt phys flags).0.mem pml4 virt
          ≡ frame phys + virt % 4096)
      × (is_user_accessible (map_page_in_pml4 s pml4 virt phys flags).0.mem pml4 virt need_write
          ≡ (is_user flags && not (need_write && not (is_writable flags))))
map_page_in_pml4-get_physical_address_in_pml4 s pml4 virt phys flags need_write w =
    let (done, memory) = map_done s pml4 virt phys flags w in
    let mapped = final-Mapped s pml4 virt phys flags w in
    let m = final s pml4 virt phys flags in
    (
      done,
      ap (λ m. get_physical_address_in_pml4 m pml4 virt) memory
          ∙ translated m pml4 virt phys flags mapped,
      ap (λ m. is_user_accessible m pml4 virt need_write) memory
          ∙ allowed m pml4 virt phys flags need_write mapped,
    )
