-- ===== src/Users/FreeIds.antt =====
-- `users_next_free_uid` ends: each uid that is taken uses up an entry of the table.
use lufira_os.Base.{
  ℕ, zero, suc, ◌+◌, ◌%◌, ◌^◌, ◌≤◌, ◌<◌, ◌≡◌, ◌≢◌, refl, ap, ◌∙◌, Bool, true, false, none, some,
  List, [], ◌∷◌, length, arith, leb, ◌==◌, ◌&&◌, if◌then◌else◌, Bool-cases, Option-cases, inl, inr,
}
use lufira_os.Users.{User, users_lookup_by_uid, next_uid, users_next_free_uid, max_users}

-- How many entries in use have `c` or a higher uid.
above : List User → ℕ → ℕ
above [] c = 0
above (u ∷ us) c = (if u.in_use && leb c u.uid then 1 else 0) + above us c

one_or_none : (b : Bool) → (if b then 1 else 0) ≤ 1
one_or_none true = omega arith
one_or_none false = omega arith

above-le : (us : List User) (c : ℕ) → above us c ≤ length us
unfolding above
above-le [] c = omega arith
above-le (u ∷ us) c = omega (arith, above-le us c, one_or_none (u.in_use && leb c u.uid))

-- An entry counts less or as much from the next uid on.
entry_mono :
    (b : Bool) (c uid : ℕ)
    → (if b && leb (c + 1) uid then 1 else 0) ≤ (if b && leb c uid then 1 else 0)
entry_mono false c uid = omega arith
entry_mono true c uid = elim (Bool-cases (leb (c + 1) uid)) [
  | inl e ↦ let f : leb c uid ≡ true = ground arith in rw (e, f) (omega arith)
  | inr e ↦ rw e (omega arith)
]

above_mono : (us : List User) (c : ℕ) → above us (c + 1) ≤ above us c
unfolding above
above_mono [] c = omega arith
above_mono (u ∷ us) c = omega (arith, above_mono us c, entry_mono u.in_use c u.uid)

above-found :
    (us : List User) (c : ℕ) (v : User)
    → users_lookup_by_uid us c ≡ some v
    → above us (c + 1) + 1 ≤ above us c
unfolding above users_lookup_by_uid
above-found [] c v h = absurd cc
above-found (u ∷ us) c v h = elim (Bool-cases (u.in_use && u.uid == c)) [
  | inl e ↦
      let used : u.in_use ≡ true = ground arith in
      let same : u.uid ≡ c = ground arith in
      let f : leb (c + 1) u.uid ≡ false = ground arith in
      let g : leb c u.uid ≡ true = ground arith in rw (used, f, g) (omega (arith, above_mono us c))
  | inr e ↦
      let later : users_lookup_by_uid us c ≡ some v = rw e at h in
      omega (arith, above-found us c v later, entry_mono u.in_use c u.uid)
]

-- What a search from `c` finds: the lowest uid that is free.
pub record FreeFrom (us : List User) (c found : ℕ) : Type 0 where
  pub free : users_lookup_by_uid us found ≡ none
  pub from : c ≤ found
  pub lowest : (k : ℕ) → c ≤ k → k < found → users_lookup_by_uid us k ≢ none

next_uid_taken :
    (n : ℕ) (us : List User) (c : ℕ) (v : User)
    → users_lookup_by_uid us c ≡ some v
    → c + 1 < 2 ^ 32
    → next_uid (suc n) us c ≡ next_uid n us (c + 1)
unfolding next_uid
next_uid_taken n us c v e small =
    let z : (c + 1) % 2 ^ 32 ≡ c + 1 = omega (arith, small) in rw (next_uid, e, z) refl

next_uid-FreeFrom :
    (n : ℕ) (us : List User) (c : ℕ)
    → above us c < n
    → c + n < 2 ^ 32
    → (found : ℕ) × (next_uid n us c ≡ some found) × FreeFrom us c found × (found < c + n)
unfolding next_uid
next_uid-FreeFrom zero us c few small = absurd (omega arith)
next_uid-FreeFrom (suc n) us c few small = elim (Option-cases (users_lookup_by_uid us c)) [
  | inl e ↦ (
    c,
    rw (next_uid, e) refl,
    record { free = e; from = omega arith; lowest = λ k a b. absurd (omega arith) },
    omega arith,
  )
  | inr (v, e) ↦
      let (found, is_found, f, bound) =
        next_uid-FreeFrom n us (c + 1) (omega (arith, few, above-found us c v e)) (omega arith) in
      (
        found,
        next_uid_taken n us c v e (omega (arith, small)) ∙ is_found,
        record {
          free = f.free;
          from = omega (arith, f.from);
          lowest = λ k a b. elim (Bool-cases (k == c)) [
            | inl same ↦ λ h.
                let k_is_c : k ≡ c = ground arith in
                let taken : users_lookup_by_uid us k ≡ some v =
                  ap (users_lookup_by_uid us) k_is_c ∙ e in
                absurd cc
            | inr other ↦ f.lowest k (ground arith) b
          ];
        },
        omega (arith, bound),
      )
]

-- On a table of at most 32 entries the search for a free uid ends within 33 tries: it returns the
-- lowest uid from 1000 on that no user in use has, and that is at most 1032.
pub users_next_free_uid-FreeFrom :
    (us : List User)
    → length us ≤ max_users
    → (found : ℕ) × (users_next_free_uid us ≡ some found) × FreeFrom us 1000 found × (found < 1033)
unfolding users_next_free_uid
users_next_free_uid-FreeFrom us h =
    next_uid-FreeFrom 33 us 1000 (omega (arith, h, above-le us 1000)) (omega arith)
