-- ===== src/Sha256/Stream.antt =====
-- `sha256_update` compared with taking in one byte after another.
use lufira_os.Base.{
  ℕ, zero, suc, ◌+◌, ◌%◌, ◌≤◌, ◌<◌, ◌≡◌, refl, sym, ap, subst, ◌∙◌, Bool, true, false, List, [],
  ◌∷◌, ◌++◌, append-nil, append_assoc, length, take, drop, length-append, length-take, length-drop,
  arith, ◌==◌, leb, if◌then◌else◌, Bool-cases, inl, inr,
}
use lufira_os.Sha256.{Words, compress, block_size, whole_blocks}
use lufira_os.Sha256.Lists.{take-drop}

-- The state and the bytes that wait for a whole block.
abbrev pub Pending : Type 0
Pending = Words × List ℕ

pub absorb : Pending → ℕ → Pending
absorb (s, p) x =
    let p' = p ++ (x ∷ []) in if length p' == block_size then (compress s p', []) else (s, p')

pub absorb_all : Pending → List ℕ → Pending
absorb_all v [] = v
absorb_all v (x ∷ xs) = absorb_all (absorb v x) xs

pub absorb_all-append :
    (v : Pending) (xs ys : List ℕ) → absorb_all v (xs ++ ys) ≡ absorb_all (absorb_all v xs) ys
unfolding absorb_all
absorb_all-append v [] ys = refl
absorb_all-append v (x ∷ xs) ys = absorb_all-append (absorb v x) xs ys

-- Bytes that do not fill the block are kept.
pub absorb_all_part :
    (s : Words) (p xs : List ℕ)
    → length p + length xs < block_size
    → absorb_all (s, p) xs ≡ (s, p ++ xs)
unfolding absorb_all absorb
absorb_all_part s p [] h = ap (λ q. (s, q)) (sym (append-nil p))
absorb_all_part s p (x ∷ xs) h =
    let n : length (p ++ (x ∷ [])) ≡ length p + 1 = length-append p (x ∷ []) in
    let e : (length (p ++ (x ∷ [])) == block_size) ≡ false = ground arith in
    rw e (
      absorb_all_part s (p ++ (x ∷ [])) xs (omega (arith, n))
      ∙ ap (λ q. (s, q)) (append_assoc p (x ∷ []) xs))

-- Bytes that fill the block exactly are compressed with those before.
pub absorb_all_whole :
    (s : Words) (p xs : List ℕ)
    → length p < block_size
    → length p + length xs ≡ block_size
    → absorb_all (s, p) xs ≡ (compress s (p ++ xs), [])
unfolding absorb_all absorb
absorb_all_whole s p [] lt h = absurd (omega arith)
absorb_all_whole s p (x ∷ []) lt h =
    let n : length (p ++ (x ∷ [])) ≡ length p + 1 = length-append p (x ∷ []) in
    let e : (length (p ++ (x ∷ [])) == block_size) ≡ true = ground arith in rw e refl
absorb_all_whole s p (x ∷ y ∷ ys) lt h =
    let n : length (p ++ (x ∷ [])) ≡ length p + 1 = length-append p (x ∷ []) in
    let e : (length (p ++ (x ∷ [])) == block_size) ≡ false = ground arith in
    rw e (
      absorb_all_whole s (p ++ (x ∷ [])) (y ∷ ys) (omega (arith, n)) (omega (arith, n))
      ∙ ap (λ q. (compress s q, [])) (append_assoc p (x ∷ []) (y ∷ ys)))

-- With fuel for every block, the loop over whole blocks takes in all bytes but the last ones, which
-- do not fill a block.
pub whole_blocks_lem :
    (n : ℕ) (s : Words) (p : List ℕ)
    → length p ≤ n
    → (absorb_all (s, []) p ≡ whole_blocks n s p) × (length (whole_blocks n s p).1 < block_size)
unfolding whole_blocks
whole_blocks_lem zero s [] h = (absorb_all_part s [] [] (omega arith), omega arith)
whole_blocks_lem zero s (x ∷ p) h = absurd (omega arith)
whole_blocks_lem (suc n) s p h = elim (Bool-cases (leb block_size (length p))) [
  | inr e ↦ rw e (absorb_all_part s [] p (ground arith), ground arith)
  | inl e ↦
      let many : block_size ≤ length p = ground arith in
      let ih =
        whole_blocks_lem n (compress s (take block_size p)) (drop block_size p)
          (omega (arith, length-drop block_size p)) in
      let first : absorb_all (s, []) (take block_size p) ≡ (compress s (take block_size p), []) =
        absorb_all_whole s [] (take block_size p) (omega arith)
          (omega (arith, length-take block_size p)) in
      rw e (
        ap (absorb_all (s, [])) (sym (take-drop block_size p))
            ∙ absorb_all-append (s, []) (take block_size p) (drop block_size p)
            ∙ ap (λ v. absorb_all v (drop block_size p)) first
            ∙ ih.0,
        ih.1,
      )
]

-- As many bytes wait as the division by 64 leaves.
pub length-absorb_all :
    (s : Words) (p xs : List ℕ)
    → length p < block_size
    → length (absorb_all (s, p) xs).1 ≡ (length p + length xs) % block_size
unfolding absorb_all absorb
length-absorb_all s p [] h = omega (arith, h)
length-absorb_all s p (x ∷ xs) h =
    let p' : List ℕ = p ++ (x ∷ []) in
    let n : length p' ≡ length p + 1 = length-append p (x ∷ []) in
    let by_test : Bool → Type 0 = λ b.
      length (absorb_all (if b then (compress s p', []) else (s, p')) xs).1
      ≡ (length p + length (x ∷ xs)) % block_size in
    elim (Bool-cases (length p' == block_size)) [
      | inl e ↦
          let full : length p' ≡ block_size = ground arith in
          subst by_test (sym e)
            (length-absorb_all (compress s p') [] xs (omega arith) ∙ omega (arith, n, full))
      | inr e ↦
          let part : length p' < block_size = ground arith in
          subst by_test (sym e)
            (length-absorb_all s p' xs part ∙ ap (λ m. m % block_size) (omega (arith, n)))
    ]
