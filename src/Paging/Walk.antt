-- ===== src/Paging/Walk.antt =====
-- The translation of an address, and the processor's rule for a program's access.
use lufira_os.Base.{
  ℕ, ◌+◌, ◌%◌, ◌^◌, ◌≡◌, refl, subst, Bool, true, false, not, ◌&&◌, ◌||◌, if◌then◌else◌, Bool-cases,
  inl, inr,
}
use lufira_os.Paging.{
  Tables, is_present, is_user, is_huge, is_writable, frame, pml4_entry, pdpt_entry, pd_entry,
  pt_entry, get_physical_address_in_pml4, is_user_accessible,
}

-- The address is mapped to `phys`; `user` tells whether every level has its user bit, and `write`
-- whether the last entry has its write bit.
pub data Maps (mem : Tables) (pml4 virt : ℕ) : (phys : ℕ) → (user write : Bool) → Type 0 where
  huge_page :
      is_present (pml4_entry mem pml4 virt) ≡ true
      → is_present (pdpt_entry mem pml4 virt) ≡ true
      → is_present (pd_entry mem pml4 virt) ≡ true
      → is_huge (pd_entry mem pml4 virt) ≡ true
      → Maps mem pml4 virt
          (frame (pd_entry mem pml4 virt) + virt % 2 ^ 21)
          (is_user (pml4_entry mem pml4 virt)
            && (is_user (pdpt_entry mem pml4 virt) && is_user (pd_entry mem pml4 virt)))
          (is_writable (pd_entry mem pml4 virt))
  small_page :
      is_present (pml4_entry mem pml4 virt) ≡ true
      → is_present (pdpt_entry mem pml4 virt) ≡ true
      → is_present (pd_entry mem pml4 virt) ≡ true
      → is_huge (pd_entry mem pml4 virt) ≡ false
      → is_present (pt_entry mem pml4 virt) ≡ true
      → Maps mem pml4 virt
          (frame (pt_entry mem pml4 virt) + virt % 4096)
          (is_user (pml4_entry mem pml4 virt)
            && (is_user (pdpt_entry mem pml4 virt)
                && (is_user (pd_entry mem pml4 virt) && is_user (pt_entry mem pml4 virt))))
          (is_writable (pt_entry mem pml4 virt))

-- `get_physical_address_in_pml4` gives the address that the processor would use.
pub get_physical_address_in_pml4-Maps :
    (mem : Tables) (pml4 virt phys : ℕ) (user write : Bool)
    → Maps mem pml4 virt phys user write
    → get_physical_address_in_pml4 mem pml4 virt ≡ phys
unfolding get_physical_address_in_pml4
get_physical_address_in_pml4-Maps mem pml4 virt _ _ _ (huge_page a b c d) = rw (a, b, c, d) refl
get_physical_address_in_pml4-Maps mem pml4 virt _ _ _ (small_page a b c d e) =
    rw (a, b, c, d, e) refl

-- The tests of `is_user_accessible`, by the bits of the four entries.
unfoldable pub Allowed : Tables → (pml4 virt : ℕ) → Bool → Type 0
Allowed mem pml4 virt need_write =
    (phys : ℕ) × (write : Bool) × Maps mem pml4 virt phys true write
    × ((need_write && not write) ≡ false)

allow :
    (mem : Tables) (pml4 virt phys : ℕ) (user write need_write : Bool)
    → Maps mem pml4 virt phys user write
    → user ≡ true
    → (need_write && not write) ≡ false
    → Allowed mem pml4 virt need_write
unfolding Allowed
allow mem pml4 virt phys user write need_write m u w =
    (phys, write, subst (λ b. Maps mem pml4 virt phys b write) u m, w)

guard_one : (a r : Bool) → (if not a then false else r) ≡ true → (a ≡ true) × (r ≡ true)
guard_one true r h = (refl, h)
guard_one false r h = absurd cc

guard_two :
    (a b r : Bool)
    → (if not a || not b then false else r) ≡ true
    → (a ≡ true) × (b ≡ true) × (r ≡ true)
guard_two true true r h = (refl, refl, h)
guard_two true false r h = absurd cc
guard_two false b r h = absurd cc

guard_last : (n : Bool) → (if n then false else true) ≡ true → n ≡ false
guard_last true h = absurd cc
guard_last false h = refl

-- What is left to test once the page directory's entry is known to be present.
last_tests : Tables → (pml4 virt : ℕ) → Bool → Bool
last_tests mem pml4 virt need_write =
    let pde = pd_entry mem pml4 virt in
    let pte = pt_entry mem pml4 virt in
    if is_huge pde
    then if not (is_user pde)
      then false
      else if need_write && not (is_writable pde)
      then false
      else true
    else if not (is_user pde)
    then false
    else if not (is_present pte) || not (is_user pte)
    then false
    else if need_write && not (is_writable pte)
    then false
    else true

pub accessible-Allowed :
    (mem : Tables) (pml4 virt : ℕ) (need_write : Bool)
    → is_user_accessible mem pml4 virt need_write ≡ true
    → Allowed mem pml4 virt need_write
unfolding is_user_accessible last_tests
accessible-Allowed mem pml4 virt need_write h =
    let e1 = pml4_entry mem pml4 virt in
    let e2 = pdpt_entry mem pml4 virt in
    let e3 = pd_entry mem pml4 virt in
    let e4 = pt_entry mem pml4 virt in
    let tests = last_tests mem pml4 virt need_write in
    let (p1, u1, h1) =
      guard_two (is_present e1) (is_user e1)
        (if not (is_present e2) || not (is_user e2)
          then false
          else if not (is_present e3)
          then false
          else tests)
        h in
    let (p2, u2, h2) =
      guard_two (is_present e2) (is_user e2) (if not (is_present e3) then false else tests) h1 in
    let (p3, h3) = guard_one (is_present e3) tests h2 in
    elim (Bool-cases (is_huge e3)) [
      | inl g ↦
          let (u3, h4) =
            guard_one (is_user e3) (if need_write && not (is_writable e3) then false else true)
              (rw g at h3) in
          let user : (is_user e1 && (is_user e2 && is_user e3)) ≡ true = rw (u1, u2, u3) refl in
          allow mem pml4 virt (frame e3 + virt % 2 ^ 21) (is_user e1 && (is_user e2 && is_user e3))
            (is_writable e3) need_write (huge_page p1 p2 p3 g) user
            (guard_last (need_write && not (is_writable e3)) h4)
      | inr g ↦
          let (u3, h4) =
            guard_one (is_user e3)
              (if not (is_present e4) || not (is_user e4)
                then false
                else if need_write && not (is_writable e4)
                then false
                else true)
              (rw g at h3) in
          let (p4, u4, h5) =
            guard_two (is_present e4) (is_user e4)
              (if need_write && not (is_writable e4) then false else true) h4 in
          let user : (is_user e1 && (is_user e2 && (is_user e3 && is_user e4))) ≡ true =
            rw (u1, u2, u3, u4) refl in
          allow mem pml4 virt (frame e4 + virt % 4096)
            (is_user e1 && (is_user e2 && (is_user e3 && is_user e4))) (is_writable e4) need_write
            (small_page p1 p2 p3 g p4) user (guard_last (need_write && not (is_writable e4)) h5)
    ]

pub and_both : (a b : Bool) → (a && b) ≡ true → (a ≡ true) × (b ≡ true)
and_both true b h = (refl, h)
and_both false b h = absurd cc

pub accessible_mapped :
    (mem : Tables) (pml4 virt phys : ℕ) (user write need_write : Bool)
    → Maps mem pml4 virt phys user write
    → user ≡ true
    → (need_write && not write) ≡ false
    → is_user_accessible mem pml4 virt need_write ≡ true
unfolding is_user_accessible
accessible_mapped mem pml4 virt _ _ _ need_write (huge_page p1 p2 p3 g) u w =
    let e1 = pml4_entry mem pml4 virt in
    let e2 = pdpt_entry mem pml4 virt in
    let e3 = pd_entry mem pml4 virt in
    let (u1, u') = and_both (is_user e1) (is_user e2 && is_user e3) u in
    let (u2, u3) = and_both (is_user e2) (is_user e3) u' in rw (p1, u1, p2, u2, p3, g, u3, w) refl
accessible_mapped mem pml4 virt _ _ _ need_write (small_page p1 p2 p3 g p4) u w =
    let e1 = pml4_entry mem pml4 virt in
    let e2 = pdpt_entry mem pml4 virt in
    let e3 = pd_entry mem pml4 virt in
    let e4 = pt_entry mem pml4 virt in
    let (u1, u') = and_both (is_user e1) (is_user e2 && (is_user e3 && is_user e4)) u in
    let (u2, u'') = and_both (is_user e2) (is_user e3 && is_user e4) u' in
    let (u3, u4) = and_both (is_user e3) (is_user e4) u'' in
    rw (p1, u1, p2, u2, p3, g, u3, p4, u4, w) refl
