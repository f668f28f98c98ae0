-- ===== src/Paging/Map.antt =====
-- An address that is mapped translates to the page that it was mapped to.
use lufira_os.Base.{
  ℕ, ◌+◌, ◌*◌, ◌/◌, ◌%◌, ◌^◌, ◌≡◌, ◌≢◌, refl, sym, ap, subst, ◌∙◌, true, false, ◌&&◌, ◌==◌,
  Bool-cases, inl, inr, arith,
}
use lufira_os.Pmm.{alloc_page}
use lufira_os.Process.Table.{==_ne, ==_not}
use lufira_os.Paging.{
  Tables, Space, is_present, is_huge, is_user, frame, store, paddr_to_entry, add_user, clear_table,
  get_or_create_table,
}
use lufira_os.Paging.Unmap.{store_same, store_other_table}

-- The bits of an entry that a table is entered by.
pub record Enters (e table : ℕ) : Type 0 where
  pub present : is_present e ≡ true
  pub user : is_user e ≡ true
  pub target : frame e ≡ table

add_user-Enters : (e : ℕ) → is_present e ≡ true → Enters (add_user e) (frame (add_user e))
unfolding is_present is_user
add_user-Enters e p = elim (Bool-cases (is_user e)) [
  | inl u ↦ record { present = rw u p; user = rw u u; target = refl }
  | inr u ↦
      let odd : (e + 4) % 2 ≡ e % 2 = omega arith in
      let clear : e / 4 % 2 ≢ 1 = ==_not (e / 4 % 2) 1 u in
      let set : ((e + 4) / 4 % 2 == 1) ≡ true = ground arith in
      record { present = rw u (ap (λ n. n == 1) odd ∙ p); user = rw u set; target = refl }
]

is_huge-add_user : (e : ℕ) → is_huge (add_user e) ≡ is_huge e
unfolding is_huge is_user
is_huge-add_user e = elim (Bool-cases (is_user e)) [
  | inl u ↦ rw u refl
  | inr u ↦
      let clear : e / 4 % 2 ≢ 1 = ==_not (e / 4 % 2) 1 u in
      let same : (e + 4) / 128 % 2 ≡ e / 128 % 2 = omega arith in rw u (ap (λ n. n == 1) same)
]

new_entry-Enters : (phys : ℕ) → frame phys ≡ phys → Enters (paddr_to_entry phys 7) phys
unfolding is_present is_user paddr_to_entry frame
new_entry-Enters phys h =
    let odd : (phys / 4096 % 2 ^ 40 * 4096 + 7) % 2 ≡ 1 = omega arith in
    let bit : (phys / 4096 % 2 ^ 40 * 4096 + 7) / 4 % 2 ≡ 1 = omega arith in
    let page : (phys / 4096 % 2 ^ 40 * 4096 + 7) / 4096 % 2 ^ 40 * 4096
        ≡ phys / 4096 % 2 ^ 40 * 4096 =
      omega arith in
    record { present = ap (λ n. n == 1) odd; user = ap (λ n. n == 1) bit; target = page ∙ h }

new_entry_small : (phys : ℕ) → is_huge (paddr_to_entry phys 7) ≡ false
unfolding is_huge paddr_to_entry frame
new_entry_small phys =
    let bit : (phys / 4096 % 2 ^ 40 * 4096 + 7) / 128 % 2 ≡ 0 = omega arith in ap (λ n. n == 1) bit

existing :
    (s : Space) (parent index : ℕ)
    → is_present (s.mem parent index) ≡ true
    → get_or_create_table s parent index ≡ (
      record s { mem = store s.mem parent index (add_user (s.mem parent index)) },
      frame (add_user (s.mem parent index)),
    )
unfolding get_or_create_table
existing s parent index p = rw (get_or_create_table, p) refl

created :
    (s : Space) (parent index : ℕ)
    → is_present (s.mem parent index) ≡ false
    → (get_or_create_table s parent index).1 ≢ 0
    → ((get_or_create_table s parent index).1 ≡ (alloc_page s.pmm).1)
      × ((get_or_create_table s parent index).0.mem
          ≡ clear_table
              (store s.mem parent index (paddr_to_entry (alloc_page s.pmm).1 7))
              (alloc_page s.pmm).1)
unfolding get_or_create_table
created s parent index p nz = elim (Bool-cases ((alloc_page s.pmm).1 == 0)) [
  | inl z ↦
      let none_left : (get_or_create_table s parent index).1 ≡ 0 =
        rw (get_or_create_table, p, z) refl in
      absurd (nz none_left)
  | inr z ↦ (rw (get_or_create_table, p, z) refl, rw (get_or_create_table, p, z) refl)
]

clear_other : (mem : Tables) (table t i : ℕ) → t ≢ table → clear_table mem table t i ≡ mem t i
clear_other mem table t i ne = rw (==_ne t table ne) refl

pub entered :
    (s : Space) (parent index : ℕ)
    → (get_or_create_table s parent index).1 ≢ 0
    → parent ≢ (get_or_create_table s parent index).1
    → frame (get_or_create_table s parent index).1 ≡ (get_or_create_table s parent index).1
    → Enters
        ((get_or_create_table s parent index).0.mem parent index)
        (get_or_create_table s parent index).1
entered s parent index nz apart aligned = elim (Bool-cases (is_present (s.mem parent index))) [
  | inl p ↦
      let e = s.mem parent index in
      let run = existing s parent index p in
      let entry =
        ap (λ (x : Space × ℕ). x.0.mem parent index) run
        ∙ store_same s.mem parent index (add_user e) in
      let table = ap (λ (x : Space × ℕ). x.1) run in
      subst (λ v. Enters v (get_or_create_table s parent index).1) (sym entry)
        (subst (Enters (add_user e)) (sym table) (add_user-Enters e p))
  | inr p ↦
      let (table, memory) = created s parent index p nz in
      let phys = (alloc_page s.pmm).1 in
      let entry =
        ap (λ m. m parent index) memory
        ∙ clear_other (store s.mem parent index (paddr_to_entry phys 7)) phys parent index
            (λ h. apart (h ∙ sym table))
        ∙ store_same s.mem parent index (paddr_to_entry phys 7) in
      subst (λ v. Enters v (get_or_create_table s parent index).1) (sym entry)
        (subst (Enters (paddr_to_entry phys 7)) (sym table)
          (new_entry-Enters phys (ap frame (sym table) ∙ aligned ∙ table)))
]

pub stays_small :
    (s : Space) (parent index : ℕ)
    → (get_or_create_table s parent index).1 ≢ 0
    → parent ≢ (get_or_create_table s parent index).1
    → (is_present (s.mem parent index) && is_huge (s.mem parent index)) ≡ false
    → is_huge ((get_or_create_table s parent index).0.mem parent index) ≡ false
stays_small s parent index nz apart small = elim (Bool-cases (is_present (s.mem parent index))) [
  | inl p ↦
      let e = s.mem parent index in
      let entry =
        ap (λ (x : Space × ℕ). x.0.mem parent index) (existing s parent index p)
        ∙ store_same s.mem parent index (add_user e) in
      ap is_huge entry ∙ is_huge-add_user e ∙ (rw p at small)
  | inr p ↦
      let (table, memory) = created s parent index p nz in
      let phys = (alloc_page s.pmm).1 in
      let entry =
        ap (λ m. m parent index) memory
        ∙ clear_other (store s.mem parent index (paddr_to_entry phys 7)) phys parent index
            (λ h. apart (h ∙ sym table))
        ∙ store_same s.mem parent index (paddr_to_entry phys 7) in
      ap is_huge entry ∙ new_entry_small phys
]

pub untouched :
    (s : Space) (parent index t i : ℕ)
    → (get_or_create_table s parent index).1 ≢ 0
    → t ≢ parent
    → t ≢ (get_or_create_table s parent index).1
    → (get_or_create_table s parent index).0.mem t i ≡ s.mem t i
untouched s parent index t i nz np nt = elim (Bool-cases (is_present (s.mem parent index))) [
  | inl p ↦
      ap (λ (x : Space × ℕ). x.0.mem t i) (existing s parent index p)
      ∙ store_other_table s.mem parent index (add_user (s.mem parent index)) t i np
  | inr p ↦
      let (table, memory) = created s parent index p nz in
      let phys = (alloc_page s.pmm).1 in
      ap (λ m. m t i) memory
      ∙ clear_other (store s.mem parent index (paddr_to_entry phys 7)) phys t i
          (λ h. nt (h ∙ sym table))
      ∙ store_other_table s.mem parent index (paddr_to_entry phys 7) t i np
]
