-- ===== src/Heap/Store.antt =====
-- Reading a header back after a store.
use lufira_os.Base.{ℕ, ◌≡◌, ◌≢◌, true, false, arith, ◌==◌, Bool-cases, ◌⊎◌, inl, inr}
use lufira_os.Heap.{Header, Memory, write, set_prev}

module _ (mem : Memory) (p : ℕ) where
  pub write_self : (h : Header) → write mem p h p ≡ h
  unfolding write
  write_self h = let e : (p == p) ≡ true = ground arith in rw e

  pub write_ne : (q : ℕ) (h : Header) → p ≢ q → write mem p h q ≡ mem q
  unfolding write
  write_ne q h n = let e : (p == q) ≡ false = ground arith in rw e

  pub set_prev_zero : (v : ℕ) → p ≡ 0 → set_prev mem p v ≡ mem
  unfolding set_prev
  set_prev_zero v z = let e : (p == 0) ≡ true = ground arith in rw e

  pub set_prev_self : (v : ℕ) → p ≢ 0 → set_prev mem p v p ≡ record (mem p) { prev = v }
  unfolding set_prev
  set_prev_self v n = let e : (p == 0) ≡ false = ground arith in rw e (write_self _)

  pub set_prev_ne : (v q : ℕ) → p ≢ q → set_prev mem p v q ≡ mem q
  unfolding set_prev
  set_prev_ne v q n = elim (Bool-cases (p == 0)) [ inl z ↦ rw z | inr z ↦ rw z (write_ne q _ n) ]

  pub set_prev_other : (v q : ℕ) → (p ≡ 0) ⊎ (p ≢ q) → set_prev mem p v q ≡ mem q
  set_prev_other v q (inl z) = rw (set_prev_zero v z)
  set_prev_other v q (inr n) = set_prev_ne v q n
