-- ===== src/Paging/Access.antt =====
-- What a program may touch: a range that `is_user_range_valid` accepts is accessible byte for byte.
use lufira_os.Base.{
  ℕ, zero, suc, ◌+◌, ◌-◌, ◌*◌, ◌/◌, ◌%◌, ◌^◌, ◌≤◌, ◌<◌, ◌≡◌, ◌≢◌, ◌↔◌, refl, sym, ap, ap₂, ◌∙◌,
  Bool, true, false, ltb, ◌==◌, Bool-cases, inl, inr, arith,
}
use lufira_os.Paging.{
  Tables, pml4_index, pdpt_index, pd_index, pt_index, pml4_entry, pdpt_entry, pd_entry, pt_entry,
  frame, is_user_accessible, check_pages, is_user_range_valid,
}

-- A page is accessible from each of its addresses.
index_page :
    (v : ℕ)
    → (pml4_index (v / 4096 * 4096) ≡ pml4_index v)
      × (pdpt_index (v / 4096 * 4096) ≡ pdpt_index v)
      × (pd_index (v / 4096 * 4096) ≡ pd_index v)
      × (pt_index (v / 4096 * 4096) ≡ pt_index v)
unfolding pml4_index pdpt_index pd_index pt_index
index_page v = (omega arith, omega arith, omega arith, omega arith)

entry_page :
    (mem : Tables) (pml4 v : ℕ)
    → (pml4_entry mem pml4 (v / 4096 * 4096) ≡ pml4_entry mem pml4 v)
      × (pdpt_entry mem pml4 (v / 4096 * 4096) ≡ pdpt_entry mem pml4 v)
      × (pd_entry mem pml4 (v / 4096 * 4096) ≡ pd_entry mem pml4 v)
      × (pt_entry mem pml4 (v / 4096 * 4096) ≡ pt_entry mem pml4 v)
unfolding pml4_entry pdpt_entry pd_entry pt_entry
entry_page mem pml4 v =
    let (i1, i2, i3, i4) = index_page v in
    let next : ℕ → ℕ → ℕ = λ e i. mem (frame e) i in
    let e1 = ap (mem pml4) i1 in
    let e2 = ap₂ next e1 i2 in let e3 = ap₂ next e2 i3 in (e1, e2, e3, ap₂ next e3 i4)

pub is_user_accessible_page :
    (mem : Tables) (pml4 v : ℕ) (need_write : Bool)
    → is_user_accessible mem pml4 (v / 4096 * 4096) need_write
      ≡ is_user_accessible mem pml4 v need_write
unfolding is_user_accessible
is_user_accessible_page mem pml4 v need_write =
    let (e1, e2, e3, e4) = entry_page mem pml4 v in rw (e1, e2, e3, e4) refl

step :
    (mem : Tables) (pml4 : ℕ) (need_write : Bool) (p j : ℕ)
    → is_user_accessible mem pml4 ((p + suc j) * 4096) need_write ≡ true
    → is_user_accessible mem pml4 ((p + 1 + j) * 4096) need_write ≡ true
step mem pml4 need_write p j h =
    let same : (p + 1 + j) * 4096 ≡ (p + suc j) * 4096 = omega arith in
    ap (λ x. is_user_accessible mem pml4 x need_write) same ∙ h

-- The loop from page `p` to page `p + m`.
check_pages_all :
    (fuel m p : ℕ) (mem : Tables) (pml4 : ℕ) (need_write : Bool)
    → (p + m) * 4096 < 2 ^ 64
    → m < fuel
    → ((j : ℕ) → j ≤ m → is_user_accessible mem pml4 ((p + j) * 4096) need_write ≡ true)
    → check_pages fuel mem pml4 need_write (p * 4096) ((p + m) * 4096) ≡ true
unfolding check_pages
check_pages_all zero m p mem pml4 need_write top lt all = absurd (omega arith)
check_pages_all (suc fuel) zero p mem pml4 need_write top lt all =
    let here = all 0 (omega arith) in
    let same : (p + 0) * 4096 ≡ p * 4096 = omega arith in
    let end : (p * 4096 == (p + 0) * 4096) ≡ true = ground arith in
    rw (ap (λ x. is_user_accessible mem pml4 x need_write) (sym same) ∙ here, end) refl
check_pages_all (suc fuel) (suc m) p mem pml4 need_write top lt all =
    let here = all 0 (omega arith) in
    let same : (p + 0) * 4096 ≡ p * 4096 = omega arith in
    let more : (p * 4096 == (p + suc m) * 4096) ≡ false = ground arith in
    let next : (p * 4096 + 4096) % 2 ^ 64 ≡ (p + 1) * 4096 = omega (arith, top) in
    let last : (p + 1 + m) * 4096 ≡ (p + suc m) * 4096 = omega arith in
    let rest =
      check_pages_all fuel m (p + 1) mem pml4 need_write (omega (arith, top)) (omega arith)
        (λ j le. step mem pml4 need_write p j (all (suc j) (omega arith))) in
    rw (ap (λ x. is_user_accessible mem pml4 x need_write) (sym same) ∙ here, more)
      (ap₂ (λ x y. check_pages fuel mem pml4 need_write x y) next (sym last) ∙ rest)

first_page :
    (fuel page last : ℕ) (mem : Tables) (pml4 : ℕ) (need_write : Bool)
    → check_pages (suc fuel) mem pml4 need_write page last ≡ true
    → is_user_accessible mem pml4 page need_write ≡ true
unfolding check_pages
first_page fuel page last mem pml4 need_write h =
    elim (Bool-cases (is_user_accessible mem pml4 page need_write)) [
      | inl e ↦ e
      | inr e ↦ let bad : false ≡ true = rw e at h in absurd cc
    ]

check_pages_sound :
    (fuel m p : ℕ) (mem : Tables) (pml4 : ℕ) (need_write : Bool)
    → (p + m) * 4096 < 2 ^ 64
    → check_pages fuel mem pml4 need_write (p * 4096) ((p + m) * 4096) ≡ true
    → (j : ℕ) → j ≤ m
    → is_user_accessible mem pml4 ((p + j) * 4096) need_write ≡ true
unfolding check_pages
check_pages_sound zero m p mem pml4 need_write top h j le = absurd cc
check_pages_sound (suc fuel) m p mem pml4 need_write top h zero le =
    let same : (p + 0) * 4096 ≡ p * 4096 = omega arith in
    ap (λ x. is_user_accessible mem pml4 x need_write) same
    ∙ first_page fuel (p * 4096) ((p + m) * 4096) mem pml4 need_write h
check_pages_sound (suc fuel) zero p mem pml4 need_write top h (suc j) le = absurd (omega arith)
check_pages_sound (suc fuel) (suc m) p mem pml4 need_write top h (suc j) le =
    let here = first_page fuel (p * 4096) ((p + suc m) * 4096) mem pml4 need_write h in
    let more : (p * 4096 == (p + suc m) * 4096) ≡ false = ground arith in
    let next : (p * 4096 + 4096) % 2 ^ 64 ≡ (p + 1) * 4096 = omega (arith, top) in
    let last : (p + 1 + m) * 4096 ≡ (p + suc m) * 4096 = omega arith in
    let rest : check_pages fuel mem pml4 need_write ((p * 4096 + 4096) % 2 ^ 64)
          ((p + suc m) * 4096)
        ≡ true =
      rw (here, more) at h in
    let same : (p + suc j) * 4096 ≡ (p + 1 + j) * 4096 = omega arith in
    ap (λ x. is_user_accessible mem pml4 x need_write) same
    ∙ check_pages_sound fuel m (p + 1) mem pml4 need_write (omega (arith, top))
        (ap₂ (λ x y. check_pages fuel mem pml4 need_write x y) (sym next) last ∙ rest) j
        (omega arith)

range_checked :
    (mem : Tables) (pml4 addr len : ℕ) (need_write : Bool)
    → len ≢ 0
    → addr < 2 ^ 64
    → addr + len ≤ 2 ^ 64
    → is_user_range_valid mem pml4 addr len need_write
      ≡ check_pages
          (len / 4096 + 2)
          mem
          pml4
          need_write
          (addr / 4096 * 4096)
          ((addr + len - 1) / 4096 * 4096)
unfolding is_user_range_valid
range_checked mem pml4 addr len need_write nz small fits =
    let end : (addr + len + 2 ^ 64 - 1) % 2 ^ 64 ≡ addr + len - 1 = omega arith in
    let some_length : (len == 0) ≡ false = ground arith in
    let forward : ltb (addr + len - 1) addr ≡ false = ground arith in
    rw (some_length, end, forward) refl

range_wraps :
    (mem : Tables) (pml4 addr len : ℕ) (need_write : Bool)
    → len ≢ 0
    → addr < 2 ^ 64
    → len < 2 ^ 64
    → 2 ^ 64 < addr + len
    → is_user_range_valid mem pml4 addr len need_write ≡ false
unfolding is_user_range_valid
range_wraps mem pml4 addr len need_write nz small short wraps =
    let end : (addr + len + 2 ^ 64 - 1) % 2 ^ 64 ≡ addr + len - 1 - 2 ^ 64 = omega arith in
    let some_length : (len == 0) ≡ false = ground arith in
    let back : ltb (addr + len - 1 - 2 ^ 64) addr ≡ true = ground arith in
    rw (some_length, end, back) refl

no_wrap :
    (mem : Tables) (pml4 addr len : ℕ) (need_write : Bool)
    → len ≢ 0
    → addr < 2 ^ 64
    → len < 2 ^ 64
    → is_user_range_valid mem pml4 addr len need_write ≡ true
    → addr + len ≤ 2 ^ 64
no_wrap mem pml4 addr len need_write nz small short h =
    elim (Bool-cases (ltb (2 ^ 64) (addr + len))) [
      | inl e ↦
          let refused = range_wraps mem pml4 addr len need_write nz small short (ground arith) in
          let bad : false ≡ true = sym refused ∙ h in absurd cc
      | inr e ↦ ground arith
    ]

-- The pages of a range, as the loop visits them.
range_pages :
    (mem : Tables) (pml4 addr len : ℕ) (need_write : Bool)
    → len ≢ 0
    → addr < 2 ^ 64
    → addr + len ≤ 2 ^ 64
    → is_user_range_valid mem pml4 addr len need_write
      ≡ check_pages
          (len / 4096 + 2)
          mem
          pml4
          need_write
          (addr / 4096 * 4096)
          ((addr / 4096 + ((addr + len - 1) / 4096 - addr / 4096)) * 4096)
range_pages mem pml4 addr len need_write nz small fits =
    let last : (addr + len - 1) / 4096 * 4096
        ≡ (addr / 4096 + ((addr + len - 1) / 4096 - addr / 4096)) * 4096 =
      omega arith in
    range_checked mem pml4 addr len need_write nz small fits
    ∙ ap (check_pages (len / 4096 + 2) mem pml4 need_write (addr / 4096 * 4096)) last

byte_of_page :
    (mem : Tables) (pml4 addr len k : ℕ) (need_write : Bool)
    → len ≢ 0
    → addr < 2 ^ 64
    → addr + len ≤ 2 ^ 64
    → is_user_range_valid mem pml4 addr len need_write ≡ true
    → k < len
    → is_user_accessible mem pml4 (addr + k) need_write ≡ true
byte_of_page mem pml4 addr len k need_write nz small fits h lt =
    let p = addr / 4096 in
    let j = (addr + k) / 4096 - addr / 4096 in
    let page : (addr + k) / 4096 * 4096 ≡ (p + j) * 4096 = omega arith in
    sym (is_user_accessible_page mem pml4 (addr + k) need_write)
    ∙ ap (λ x. is_user_accessible mem pml4 x need_write) page
    ∙ check_pages_sound (len / 4096 + 2) ((addr + len - 1) / 4096 - addr / 4096) p mem pml4
        need_write (omega arith) (sym (range_pages mem pml4 addr len need_write nz small fits) ∙ h)
        j (omega arith)

-- Each page of the range holds an address of the range.
page_of_byte :
    (mem : Tables) (pml4 addr len j : ℕ) (need_write : Bool)
    → len ≢ 0
    → ((k : ℕ) → k < len → is_user_accessible mem pml4 (addr + k) need_write ≡ true)
    → j ≤ (addr + len - 1) / 4096 - addr / 4096
    → is_user_accessible mem pml4 ((addr / 4096 + j) * 4096) need_write ≡ true
page_of_byte mem pml4 addr len zero need_write nz all le =
    let page : (addr / 4096 + 0) * 4096 ≡ (addr + 0) / 4096 * 4096 = omega arith in
    ap (λ x. is_user_accessible mem pml4 x need_write) page
    ∙ is_user_accessible_page mem pml4 (addr + 0) need_write
    ∙ all 0 (omega arith)
page_of_byte mem pml4 addr len (suc j) need_write nz all le =
    let k = (addr / 4096 + suc j) * 4096 - addr in
    let page : (addr / 4096 + suc j) * 4096 ≡ addr + k = omega arith in
    ap (λ x. is_user_accessible mem pml4 x need_write) page ∙ all k (omega arith)

-- A range of `len` bytes from `addr` on, `len` not 0 and both below 2 ^ 64: `is_user_range_valid`
-- accepts it exactly when it does not wrap around and `is_user_accessible` holds of each of its
-- addresses.
pub is_user_range_valid_lem :
    (mem : Tables) (pml4 addr len : ℕ) (need_write : Bool)
    → len ≢ 0
    → addr < 2 ^ 64
    → len < 2 ^ 64
    → (is_user_range_valid mem pml4 addr len need_write ≡ true) ↔ (
        (addr + len ≤ 2 ^ 64)
        × ((k : ℕ) → k < len → is_user_accessible mem pml4 (addr + k) need_write ≡ true))
is_user_range_valid_lem mem pml4 addr len need_write nz small short = (
  λ h.
      let fits : addr + len ≤ 2 ^ 64 = no_wrap mem pml4 addr len need_write nz small short h in
      (fits, λ k lt. byte_of_page mem pml4 addr len k need_write nz small fits h lt),
  λ (fits, all).
      range_pages mem pml4 addr len need_write nz small fits
      ∙ check_pages_all (len / 4096 + 2) ((addr + len - 1) / 4096 - addr / 4096) (addr / 4096) mem
          pml4 need_write (omega arith) (omega arith)
          (λ j le. page_of_byte mem pml4 addr len j need_write nz all le),
)
