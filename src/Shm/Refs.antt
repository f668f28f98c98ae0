-- ===== src/Shm/Refs.antt =====
-- A region's life in shm.c: created with one reference for each page, kept while a reference is left,
-- and given back with the last one.
use lufira_os.Base.{
  ℕ, zero, suc, ◌+◌, ◌-◌, ◌≤◌, ◌<◌, ◌≡◌, ◌≢◌, refl, ap, sym, Bool, true, false, ◌||◌, ◌⊎◌, inl, inr,
  Option, none, some, List, [], ◌∷◌, arith, length, length-set, get_or, get_or-set_self,
  get_or-set_ne, set, take, All, All-set, All-replicate, subst, All-get_or, length-take, ltb, ◌==◌,
  if◌then◌else◌, Bool-cases,
}
use lufira_os.Shm.{
  Region, Registry, max_regions, max_region_pages, no_region, shm_init, free_slot, shm_create,
}

-- A region in use has a reference and pages, no more than the limit and all of them listed.
abbrev pub RegionIsValid : Region → Type 0
RegionIsValid r =
    r.in_use ≡ true
    → (0 < r.refcount)
      × (0 < r.num_pages)
      × (r.num_pages ≤ max_region_pages)
      × (r.num_pages ≤ length r.pages)

pub record IsValid (g : Registry) : Type 0 where
  pub slots : length g ≡ max_regions
  pub regions : All RegionIsValid g

pub shm_init-IsValid : IsValid shm_init
unfolding shm_init
shm_init-IsValid = record {
  slots = refl;
  regions = All-replicate RegionIsValid 16 no_region (λ e. cc);
}

pub region_at : (g : Registry) (id : ℕ) → IsValid g → RegionIsValid (get_or g id no_region)
region_at g id v = All-get_or RegionIsValid g id no_region v.regions (λ e. cc)

take_all {ℓ} : {A : Type ℓ} (n : ℕ) (xs : List A) → length xs ≤ n → take n xs ≡ xs
take_all zero [] h = refl
take_all zero (x ∷ xs) h = absurd (omega arith)
take_all (suc n) [] h = refl
take_all (suc n) (x ∷ xs) h = ap (◌∷◌ x) (take_all n xs (omega arith))

-- Where `free_slot` points, if anywhere.
abbrev SlotFound : Registry → ℕ → Option ℕ → Type 0
SlotFound g i none = (k : ℕ) → k < length g → (get_or g k no_region).in_use ≡ true
SlotFound g i (some s) =
    (i ≤ s) × (s < i + length g) × ((get_or g (s - i) no_region).in_use ≡ false)

SlotFound-cons :
    (r : Region) (rs : Registry) (i : ℕ) (o : Option ℕ)
    → r.in_use ≡ true
    → SlotFound rs (i + 1) o
    → SlotFound (r ∷ rs) i o
SlotFound-cons r rs i none u f = full
  where
    full : (k : ℕ) → k < suc (length rs) → (get_or (r ∷ rs) k no_region).in_use ≡ true
    full zero h = u
    full (suc k) h = f k (omega arith)
SlotFound-cons r rs i (some s) u f =
    let e : s - i ≡ suc (s - (i + 1)) = omega (arith, f.0) in
    (omega (arith, f.0), omega (arith, f.1), rw e (f.2))

free_slot-SlotFound : (g : Registry) (i : ℕ) → SlotFound g i (free_slot g i)
unfolding free_slot
free_slot-SlotFound [] i = λ k h. absurd (omega arith)
free_slot-SlotFound (r ∷ rs) i = elim (Bool-cases r.in_use) [
  | inl u ↦
      subst (SlotFound (r ∷ rs) i) (sym (ap (λ b. if b then free_slot rs (i + 1) else some i) u))
        (SlotFound-cons r rs i (free_slot rs (i + 1)) u (free_slot-SlotFound rs (i + 1)))
  | inr u ↦
      let z : i - i ≡ 0 = omega arith in
      subst (SlotFound (r ∷ rs) i) (sym (ap (λ b. if b then free_slot rs (i + 1) else some i) u))
        (omega arith, omega arith, rw z u)
]

-- A region that `shm_create` has just registered in `slot`.
pub record Registered (g g' : Registry) (pages : List ℕ) (num_pages slot : ℕ) : Type 0 where
  pub was_free : (get_or g slot no_region).in_use ≡ false
  pub in_range : slot < max_regions
  pub region : get_or g' slot no_region ≡ record {
    in_use = true;
    refcount = num_pages;
    num_pages = num_pages;
    pages = take num_pages pages;
  }
  pub others : (k : ℕ) → slot ≢ k → get_or g' k no_region ≡ get_or g k no_region
  pub valid : IsValid g'

module _ (g : Registry) (pages : List ℕ) (num_pages : ℕ) (v : IsValid g)
    (given : num_pages ≤ length pages) (some_pages : 0 < num_pages)
    (limit : num_pages ≤ max_region_pages) where
  abbrev fresh : Region
  fresh = record {
    in_use = true;
    refcount = num_pages;
    num_pages = num_pages;
    pages = take num_pages pages;
  }

  set-Registered :
      (slot : ℕ)
      → slot < length g
      → (get_or g slot no_region).in_use ≡ false
      → Registered g (set g slot fresh) pages num_pages slot
  set-Registered slot lt free = record {
    was_free = free;
    in_range = omega (arith, v.slots);
    region = get_or-set_self g slot fresh no_region lt;
    others = λ k n. get_or-set_ne g slot k fresh no_region n;
    valid = record {
      slots = omega (arith, v.slots, length-set {0} g slot fresh);
      regions =
          All-set RegionIsValid g slot fresh v.regions
            (λ e. (some_pages, some_pages, limit, omega (arith, length-take {0} num_pages pages)));
    };
  }

  -- For a list of 1 to 4096 pages `shm_create` either registers it in a slot that was free, with one
  -- reference for each page, no other slot changed and the registry still valid; or returns -1 with
  -- nothing changed, and then `kmalloc` failed or every slot is in use.
  pub shm_create-Registered :
      (granted : Bool)
      → ((slot : ℕ) × ((shm_create granted g pages num_pages).1 ≡ some slot)
          × Registered g (shm_create granted g pages num_pages).0 pages num_pages slot)
        ⊎ ((shm_create granted g pages num_pages ≡ (g, none))
            × ((granted ≡ false)
                ⊎ ((k : ℕ) → k < max_regions → (get_or g k no_region).in_use ≡ true)))
  unfolding shm_create
  shm_create-Registered granted = by_slot granted (free_slot g 0) refl (free_slot-SlotFound g 0)
    where
      right_size : (num_pages == 0 || ltb max_region_pages num_pages) ≡ false
      right_size = ground arith

      by_slot :
          (granted : Bool) (o : Option ℕ)
          → o ≡ free_slot g 0
          → SlotFound g 0 o
          → ((slot : ℕ) × ((shm_create granted g pages num_pages).1 ≡ some slot)
              × Registered g (shm_create granted g pages num_pages).0 pages num_pages slot)
            ⊎ ((shm_create granted g pages num_pages ≡ (g, none))
                × ((granted ≡ false)
                    ⊎ ((k : ℕ) → k < max_regions → (get_or g k no_region).in_use ≡ true)))
      by_slot granted none e f =
          inr (rw (shm_create, right_size, ← e), inr (λ k h. f k (omega (arith, v.slots))))
      by_slot false (some s) e f = inr (rw (shm_create, right_size, ← e), inl refl)
      by_slot true (some s) e f =
          let z : s - 0 ≡ s = omega arith in
          inl (
            s,
            rw (shm_create, right_size, ← e),
            rw (shm_create, right_size, ← e)
                (set-Registered s (omega (arith, f.1)) (rw z at (f.2))),
          )
