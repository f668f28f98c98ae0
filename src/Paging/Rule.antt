-- ===== src/Paging/Rule.antt =====
-- The processor's rule for a program's access, compared with `is_user_accessible`.
use lufira_os.Base.{ℕ, ◌≡◌, Bool, true, if◌then◌else◌, List, [], ◌∷◌, All}
use lufira_os.Paging.{
  Tables, is_present, is_user, is_huge, is_writable, pml4_entry, pdpt_entry, pd_entry, pt_entry,
}

-- The entries that the processor reads for the address, from the top, and the last one of them.
pub walk : Tables → (pml4 virt : ℕ) → List ℕ
walk mem pml4 virt =
    pml4_entry mem pml4 virt
    ∷ pdpt_entry mem pml4 virt
    ∷ pd_entry mem pml4 virt
    ∷ (if is_huge (pd_entry mem pml4 virt) then [] else pt_entry mem pml4 virt ∷ [])

pub last_entry : Tables → (pml4 virt : ℕ) → ℕ
last_entry mem pml4 virt =
    if is_huge (pd_entry mem pml4 virt) then pd_entry mem pml4 virt else pt_entry mem pml4 virt

-- The processor's rule for a program's access: each entry is present and has its user bit, and for a
-- write each has its write bit.
pub Permits : Tables → (pml4 virt : ℕ) → (write : Bool) → Type 0
Permits mem pml4 virt write =
    All
      (λ (e : ℕ).
        (is_present e ≡ true) × (is_user e ≡ true) × (write ≡ true → is_writable e ≡ true))
      (walk mem pml4 virt)
