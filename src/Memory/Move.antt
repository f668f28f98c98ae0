-- ===== src/Memory/Move.antt =====
-- `memmove` copies right also where source and destination overlap.
use lufira_os.Base.{
  ℕ, zero, suc, ◌+◌, ◌-◌, ◌≤◌, ◌<◌, ◌≡◌, refl, ◌∙◌, true, false, ◌⊎◌, inl, inr, arith, ltb, ◌==◌,
  Bool-cases,
}
use lufira_os.Memory.{Bytes, store, copy_forward, copy_back, memmove}

store_same : (m : Bytes) (a v x : ℕ) → x ≡ a → store m a v x ≡ v
unfolding store
store_same m a v x h = let e : (x == a) ≡ true = ground arith in rw e refl

store_other : (m : Bytes) (a v x : ℕ) → (x < a) ⊎ (a < x) → store m a v x ≡ m x
unfolding store
store_other m a v x (inl h) = let e : (x == a) ≡ false = ground arith in rw e refl
store_other m a v x (inr h) = let e : (x == a) ≡ false = ground arith in rw e refl

-- The bytes outside of the `n` from `d` on are those of `m`, the others come from `s`.
pub Copied : Bytes → Bytes → (d s n : ℕ) → Type 0
Copied m m' d s n =
    ((k : ℕ) → k < n → m' (d + k) ≡ m (s + k)) × ((x : ℕ) → (x < d) ⊎ (d + n ≤ x) → m' x ≡ m x)

copy_forward-Copied : (n : ℕ) (m : Bytes) (d s : ℕ) → d < s → Copied m (copy_forward n m d s) d s n
unfolding copy_forward Copied
copy_forward-Copied zero m d s lt = (λ k h. absurd (omega arith), λ x h. refl)
copy_forward-Copied (suc n) m d s lt =
    let m₁ : Bytes = store m d (m s) in
    let (inside, outside) = copy_forward-Copied n m₁ (d + 1) (s + 1) (omega arith) in
    (
      λ k h. elim (Bool-cases (k == 0)) [
        | inl e ↦
            let z : k ≡ 0 = ground arith in
            let at_d : d + k ≡ d = omega (arith, z) in
            let at_s : s + k ≡ s = omega (arith, z) in
            rw (at_d, at_s) (outside d (inl (omega arith)) ∙ store_same m d (m s) d refl)
        | inr e ↦
            let pos : 0 < k = ground arith in
            let at_d : d + 1 + (k - 1) ≡ d + k = omega (arith, pos) in
            let at_s : s + 1 + (k - 1) ≡ s + k = omega (arith, pos) in
            (rw (at_d, at_s) at (inside (k - 1) (omega (arith, pos))))
            ∙ store_other m d (m s) (s + k) (inr (omega arith))
      ],
      λ x h. elim h [
        | inl low ↦ outside x (inl (omega arith)) ∙ store_other m d (m s) x (inl low)
        | inr high ↦ outside x (inr (omega arith)) ∙ store_other m d (m s) x (inr (omega arith))
      ],
    )

copy_back-Copied : (n : ℕ) (m : Bytes) (d s : ℕ) → s < d → Copied m (copy_back n m d s) d s n
unfolding copy_back Copied
copy_back-Copied zero m d s lt = (λ k h. absurd (omega arith), λ x h. refl)
copy_back-Copied (suc n) m d s lt =
    let m₁ : Bytes = store m (d + n) (m (s + n)) in
    let (inside, outside) = copy_back-Copied n m₁ d s lt in
    (
      λ k h. elim (Bool-cases (ltb k n)) [
        | inl e ↦
            let less : k < n = ground arith in
            inside k less ∙ store_other m (d + n) (m (s + n)) (s + k) (inl (omega arith))
        | inr e ↦
            let last : k ≡ n = ground arith in
            rw last
              (outside (d + n) (inr (omega arith)) ∙ store_same m (d + n) (m (s + n)) (d + n) refl)
      ],
      λ x h. elim h [
        | inl low ↦ outside x (inl low) ∙ store_other m (d + n) (m (s + n)) x (inl (omega arith))
        | inr high ↦
            outside x (inr (omega arith)) ∙ store_other m (d + n) (m (s + n)) x (inr (omega arith))
      ],
    )

-- After `memmove` the `n` bytes from `d` on are those that stood from `s` on before, and all others
-- are as before, however the two ranges overlap.
pub memmove-Copied : (m : Bytes) (d s n : ℕ) → Copied m (memmove m d s n) d s n
unfolding memmove Copied
memmove-Copied m d s n = elim (Bool-cases (d == s)) [
  | inl e ↦ let z : d ≡ s = ground arith in rw (e, z) (λ k h. refl, λ x h. refl)
  | inr e ↦ elim (Bool-cases (n == 0)) [
    | inl f ↦
        let z : n ≡ 0 = ground arith in rw (e, f) (λ k h. absurd (omega (arith, z, h)), λ x h. refl)
    | inr f ↦ elim (Bool-cases (ltb d s)) [
      | inl g ↦ rw (e, f, g) (copy_forward-Copied n m d s (ground arith))
      | inr g ↦ rw (e, f, g) (copy_back-Copied n m d s (ground arith))
    ]
  ]
]
