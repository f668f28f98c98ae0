-- ===== src/Paging/Unmap.antt =====
-- An address that is unmapped is not mapped any more, and the others are as they were.
use lufira_os.Base.{
  ℕ, ◌≡◌, ◌≢◌, refl, sym, ap, ◌∙◌, true, false, ◌==◌, subst, none, some, ◌⊎◌, Bool-cases,
  Option-cases, inl, inr,
}
use lufira_os.Process.Table.{==_self, ==_ne, ==_eq, ==_not}
use lufira_os.Pmm.{Pmm, free_page}
use lufira_os.Shm.{Registry, shm_find_region_by_page, shm_release}
use lufira_os.Paging.{
  Tables, Space, is_present, is_huge, is_mmio_nofree, is_mmap_shared, frame, pml4_index, pdpt_index,
  pd_index, pt_index, pml4_entry, pdpt_entry, pd_entry, pt_entry, store,
  get_physical_address_in_pml4, release_frame, unmap_page,
}

pub store_same : (mem : Tables) (t i v : ℕ) → store mem t i v t i ≡ v
unfolding store
store_same mem t i v = rw (==_self t, ==_self i) refl

pub store_other_table :
    (mem : Tables) (t i v t' i' : ℕ) → t' ≢ t → store mem t i v t' i' ≡ mem t' i'
unfolding store
store_other_table mem t i v t' i' ne = rw (==_ne t' t ne) refl

mem-release_frame : (s : Space) (e : ℕ) → (release_frame s e).mem ≡ s.mem
unfolding release_frame
mem-release_frame s e = elim (Bool-cases (frame e == 0)) [
  | inl z ↦ rw (release_frame, z) refl
  | inr z ↦ elim (Bool-cases (is_mmio_nofree e)) [
    | inl m ↦ rw (release_frame, z, m) refl
    | inr m ↦ elim (Bool-cases (is_mmap_shared e)) [
      | inr h ↦ rw (release_frame, z, m, h) refl
      | inl h ↦ elim (Option-cases (shm_find_region_by_page s.regions (frame e))) [
        | inl r ↦ rw (release_frame, z, m, h, r) refl
        | inr (id, r) ↦ rw (release_frame, z, m, h, r) refl
      ]
    ]
  ]
]

pub pml4_entry_lem :
    (mem : Tables) (pml4 virt : ℕ) → pml4_entry mem pml4 virt ≡ mem pml4 (pml4_index virt)
unfolding pml4_entry
pml4_entry_lem mem pml4 virt = refl

pub pdpt_entry_lem :
    (mem : Tables) (pml4 virt : ℕ)
    → pdpt_entry mem pml4 virt ≡ mem (frame (pml4_entry mem pml4 virt)) (pdpt_index virt)
unfolding pdpt_entry
pdpt_entry_lem mem pml4 virt = refl

pub pd_entry_lem :
    (mem : Tables) (pml4 virt : ℕ)
    → pd_entry mem pml4 virt ≡ mem (frame (pdpt_entry mem pml4 virt)) (pd_index virt)
unfolding pd_entry
pd_entry_lem mem pml4 virt = refl

pub pt_entry_lem :
    (mem : Tables) (pml4 virt : ℕ)
    → pt_entry mem pml4 virt ≡ mem (frame (pd_entry mem pml4 virt)) (pt_index virt)
unfolding pt_entry
pt_entry_lem mem pml4 virt = refl

-- The last table of the walk is none of the tables above it.
pub record Apart (mem : Tables) (pml4 virt : ℕ) : Type 0 where
  pub from_pml4 : pml4 ≢ frame (pd_entry mem pml4 virt)
  pub from_pdpt : frame (pml4_entry mem pml4 virt) ≢ frame (pd_entry mem pml4 virt)
  pub from_pd : frame (pdpt_entry mem pml4 virt) ≢ frame (pd_entry mem pml4 virt)

-- A store into the last table does not change the entries above.
upper_entries :
    (mem : Tables) (pml4 virt i v : ℕ)
    → Apart mem pml4 virt
    → (pml4_entry (store mem (frame (pd_entry mem pml4 virt)) i v) pml4 virt
        ≡ pml4_entry mem pml4 virt)
      × (pdpt_entry (store mem (frame (pd_entry mem pml4 virt)) i v) pml4 virt
          ≡ pdpt_entry mem pml4 virt)
      × (pd_entry (store mem (frame (pd_entry mem pml4 virt)) i v) pml4 virt
          ≡ pd_entry mem pml4 virt)
upper_entries mem pml4 virt i v a =
    let pt = frame (pd_entry mem pml4 virt) in
    let after = store mem pt i v in
    let e1 : pml4_entry after pml4 virt ≡ pml4_entry mem pml4 virt =
      pml4_entry_lem after pml4 virt
      ∙ store_other_table mem pt i v pml4 (pml4_index virt) a.from_pml4
      ∙ sym (pml4_entry_lem mem pml4 virt) in
    let e2 : pdpt_entry after pml4 virt ≡ pdpt_entry mem pml4 virt =
      pdpt_entry_lem after pml4 virt
      ∙ ap (λ e. after (frame e) (pdpt_index virt)) e1
      ∙ store_other_table mem pt i v (frame (pml4_entry mem pml4 virt)) (pdpt_index virt)
          a.from_pdpt
      ∙ sym (pdpt_entry_lem mem pml4 virt) in
    (
      e1,
      e2,
      pd_entry_lem after pml4 virt
          ∙ ap (λ e. after (frame e) (pd_index virt)) e2
          ∙ store_other_table mem pt i v (frame (pdpt_entry mem pml4 virt)) (pd_index virt)
              a.from_pd
          ∙ sym (pd_entry_lem mem pml4 virt),
    )

unmapped :
    (s : Space) (pml4 virt : ℕ)
    → is_present (pml4_entry s.mem pml4 virt) ≡ true
    → is_present (pdpt_entry s.mem pml4 virt) ≡ true
    → is_present (pd_entry s.mem pml4 virt) ≡ true
    → is_huge (pd_entry s.mem pml4 virt) ≡ false
    → unmap_page s pml4 virt ≡ (
        let released = release_frame s (pt_entry s.mem pml4 virt) in
        record released {
          mem = store released.mem (frame (pd_entry s.mem pml4 virt)) (pt_index virt) 0;
        })
unfolding unmap_page
unmapped s pml4 virt a b c d = rw (unmap_page, a, b, c, d) refl

zero_absent : is_present 0 ≡ false
unfolding is_present
zero_absent = refl

absent_page :
    (mem : Tables) (pml4 virt : ℕ)
    → pt_entry mem pml4 virt ≡ 0
    → is_huge (pd_entry mem pml4 virt) ≡ false
    → get_physical_address_in_pml4 mem pml4 virt ≡ 0
unfolding get_physical_address_in_pml4
absent_page mem pml4 virt e g = elim (Bool-cases (is_present (pml4_entry mem pml4 virt))) [
  | inr a ↦ rw a refl
  | inl a ↦ elim (Bool-cases (is_present (pdpt_entry mem pml4 virt))) [
    | inr b ↦ rw (a, b) refl
    | inl b ↦ elim (Bool-cases (is_present (pd_entry mem pml4 virt))) [
      | inr c ↦ rw (a, b, c) refl
      | inl c ↦ rw (a, b, c, g, ap is_present e ∙ zero_absent) refl
    ]
  ]
]

-- Who gets the page of an entry: nobody, when the entry has no page or is of a device; the shared
-- region that it belongs to loses a reference, when the entry is of shared memory; otherwise the page
-- is free again.
pub data Released (s : Space) (e : ℕ) : Pmm → Registry → Type 0 where
  to_nobody : (frame e ≡ 0) ⊎ (is_mmio_nofree e ≡ true) → Released s e s.pmm s.regions
  to_region :
      (id : ℕ)
      → frame e ≢ 0
      → is_mmio_nofree e ≡ false
      → is_mmap_shared e ≡ true
      → shm_find_region_by_page s.regions (frame e) ≡ some id
      → Released s e (shm_release s.regions s.pmm id).1 (shm_release s.regions s.pmm id).0
  to_pmm :
      frame e ≢ 0
      → is_mmio_nofree e ≡ false
      → (is_mmap_shared e ≡ false) ⊎ (shm_find_region_by_page s.regions (frame e) ≡ none)
      → Released s e (free_page s.pmm (frame e)) s.regions

release_frame-Released :
    (s : Space) (e : ℕ) → Released s e (release_frame s e).pmm (release_frame s e).regions
unfolding release_frame
release_frame-Released s e = elim (Bool-cases (frame e == 0)) [
  | inl z ↦ rw (release_frame, z) (to_nobody (inl (==_eq (frame e) 0 z)))
  | inr z ↦ elim (Bool-cases (is_mmio_nofree e)) [
    | inl n ↦ rw (release_frame, z, n) (to_nobody (inr n))
    | inr n ↦ elim (Bool-cases (is_mmap_shared e)) [
      | inr m ↦ rw (release_frame, z, n, m) (to_pmm (==_not (frame e) 0 z) n (inl m))
      | inl m ↦ elim (Option-cases (shm_find_region_by_page s.regions (frame e))) [
        | inl f ↦ rw (release_frame, z, n, m, f) (to_pmm (==_not (frame e) 0 z) n (inr f))
        | inr (id, f) ↦ rw (release_frame, z, n, m, f) (to_region id (==_not (frame e) 0 z) n m f)
      ]
    ]
  ]
]

-- `unmap_page` of an address whose walk reaches a page table, apart from the tables above it: the
-- address translates to 0 afterwards; the page in its entry goes to `release_frame`, which gives it to
-- nobody when there is none or it is a device's, takes a reference from its shared region, or frees it;
-- and memory is the old one but for the entry of the address, which is 0.
pub unmap_page_lem :
    (s : Space) (pml4 virt : ℕ)
    → Apart s.mem pml4 virt
    → is_present (pml4_entry s.mem pml4 virt) ≡ true
    → is_present (pdpt_entry s.mem pml4 virt) ≡ true
    → is_present (pd_entry s.mem pml4 virt) ≡ true
    → is_huge (pd_entry s.mem pml4 virt) ≡ false
    → (get_physical_address_in_pml4 (unmap_page s pml4 virt).mem pml4 virt ≡ 0)
      × ((unmap_page s pml4 virt).pmm ≡ (release_frame s (pt_entry s.mem pml4 virt)).pmm)
      × ((unmap_page s pml4 virt).regions ≡ (release_frame s (pt_entry s.mem pml4 virt)).regions)
      × ((unmap_page s pml4 virt).mem
          ≡ store s.mem (frame (pd_entry s.mem pml4 virt)) (pt_index virt) 0)
      × Released s
          (pt_entry s.mem pml4 virt)
          (unmap_page s pml4 virt).pmm
          (unmap_page s pml4 virt).regions
unmap_page_lem s pml4 virt a p1 p2 p3 g =
    let pt = frame (pd_entry s.mem pml4 virt) in
    let after = store s.mem pt (pt_index virt) 0 in
    let done = unmapped s pml4 virt p1 p2 p3 g in
    let memory : (unmap_page s pml4 virt).mem ≡ after =
      ap (λ (x : Space). x.mem) done
      ∙ ap (λ m. store m pt (pt_index virt) 0) (mem-release_frame s (pt_entry s.mem pml4 virt)) in
    let (e1, e2, e3) = upper_entries s.mem pml4 virt (pt_index virt) 0 a in
    let last : pt_entry after pml4 virt ≡ 0 =
      pt_entry_lem after pml4 virt
      ∙ ap (λ e. after (frame e) (pt_index virt)) e3
      ∙ store_same s.mem pt (pt_index virt) 0 in
    (
      ap (λ m. get_physical_address_in_pml4 m pml4 virt) memory
          ∙ absent_page after pml4 virt last (ap is_huge e3 ∙ g),
      ap (λ (x : Space). x.pmm) done,
      ap (λ (x : Space). x.regions) done,
      memory,
      subst (λ (x : Space). Released s (pt_entry s.mem pml4 virt) x.pmm x.regions) (sym done)
          (release_frame-Released s (pt_entry s.mem pml4 virt)),
    )
