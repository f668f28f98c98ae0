-- ===== src/Shm/Release.antt =====
-- References to a region of shm.c: what each `shm_release` does until the last one.
use lufira_os.Base.{
  ℕ, zero, suc, ◌+◌, ◌-◌, ◌<◌, ◌≡◌, ◌≢◌, refl, sym, ap, subst, ◌∙◌, true, false, List, [], ◌∷◌,
  arith, length-set, get_or, get_or-set_self, get_or-set_ne, set, take, All-set, ltb,
}
use lufira_os.Pmm.{Pmm, free_page}
use lufira_os.Shm.{
  Region, Registry, max_regions, no_region, is_bad, shm_add_ref, free_pages, shm_release,
}
use lufira_os.Shm.Refs.{IsValid, RegionIsValid, region_at}

-- `n` calls of `shm_release` for one region.
pub releases : ℕ → Registry → Pmm → ℕ → Registry × Pmm
releases zero g m id = (g, m)
releases (suc n) g m id = let (g', m') = shm_release g m id in releases n g' m' id

-- Slot `id` holds `r`, and every other slot is what it is in `g`.
pub record Updated (g g' : Registry) (id : ℕ) (r : Region) : Type 0 where
  pub slot : get_or g' id no_region ≡ r
  pub others : (k : ℕ) → id ≢ k → get_or g' k no_region ≡ get_or g k no_region
  pub valid : IsValid g'

Updated-trans :
    {g g' g'' : Registry} {id : ℕ} {r r' : Region}
    → Updated g g' id r
    → Updated g' g'' id r'
    → Updated g g'' id r'
Updated-trans a b = record {
  slot = b.slot;
  others = λ k n. b.others k n ∙ a.others k n;
  valid = b.valid;
}

-- A region with `n` references fewer.
abbrev pub less : Region → ℕ → Region
less r n = record r { refcount = r.refcount - n }

less_zero : (r : Region) → r ≡ less r 0
less_zero r = ap (λ k. record r { refcount = k }) (omega arith)

less-less : (r r' : Region) (n : ℕ) → r' ≡ less r 1 → less r' n ≡ less r (suc n)
less-less r r' n e = ap (λ x. less x n) e ∙ ap (λ k. record r { refcount = k }) (omega arith)

module _ (g : Registry) (id : ℕ) (v : IsValid g) (lt : id < max_regions) where
  set-Updated : (r : Region) → RegionIsValid r → Updated g (set g id r) id r
  set-Updated r h = record {
    slot = get_or-set_self g id r no_region (omega (arith, v.slots));
    others = λ k n. get_or-set_ne g id k r no_region n;
    valid = record {
      slots = omega (arith, v.slots, length-set {0} g id r);
      regions = All-set RegionIsValid g id r v.regions h;
    };
  }

  module _ (used : (get_or g id no_region).in_use ≡ true) where
    good : is_bad g id ≡ false
    unfolding is_bad
    good = ground arith

    -- On a valid registry `shm_add_ref` adds one reference to a region in use; no other slot changes
    -- and the registry stays valid.
    pub shm_add_ref-Updated :
        Updated g
          (shm_add_ref g id)
          id
          (record (get_or g id no_region) { refcount = (get_or g id no_region).refcount + 1 })
    unfolding shm_add_ref
    shm_add_ref-Updated =
        rw good (set-Updated _ (λ e. let h = region_at g id v used in (omega arith, h.1, h.2, h.3)))

    -- A release that is not the last takes one reference off.
    release_kept :
        (m : Pmm)
        → 1 < (get_or g id no_region).refcount
        → shm_release g m id ≡ (set g id (less (get_or g id no_region) 1), m)
    unfolding shm_release
    release_kept m h =
        let t : ltb 0 ((get_or g id no_region).refcount - 1) ≡ true = ground arith in rw (good, t)

    kept-Updated :
        1 < (get_or g id no_region).refcount
        → Updated g (set g id (less (get_or g id no_region) 1)) id (less (get_or g id no_region) 1)
    kept-Updated h =
        set-Updated _ (λ e. let w = region_at g id v used in (omega arith, w.1, w.2, w.3))

    -- The last one gives the pages back and empties the slot.
    release_last :
        (m : Pmm)
        → (get_or g id no_region).refcount ≡ 1
        → let r = get_or g id no_region in
          shm_release g m id ≡ (
            set g id (record { in_use = false; refcount = 0; num_pages = 0; pages = [] }),
            free_pages m (take r.num_pages r.pages),
          )
    unfolding shm_release
    release_last m h =
        let z : (get_or g id no_region).refcount - 1 ≡ 0 = omega arith in rw (good, z)

-- As long as fewer releases of a region in use of a valid registry come than it has references, no
-- page is given back: the region keeps its pages, with so many references fewer, no other slot
-- changes and the registry stays valid.
pub releases_kept :
    (n : ℕ) (g : Registry) (m : Pmm) (id : ℕ)
    → IsValid g
    → id < max_regions
    → (get_or g id no_region).in_use ≡ true
    → n < (get_or g id no_region).refcount
    → ((releases n g m id).1 ≡ m)
      × Updated g (releases n g m id).0 id (less (get_or g id no_region) n)
unfolding releases
releases_kept zero g m id v lt used h =
    (refl, record { slot = less_zero (get_or g id no_region); others = λ k n. refl; valid = v })
releases_kept (suc n) g m id v lt used h =
    let u = kept-Updated g id v lt used (omega arith) in
    let ih =
      releases_kept n (set g id (less (get_or g id no_region) 1)) m id u.valid lt
        (ap (λ (r : Region). r.in_use) u.slot ∙ used)
        (omega (arith, ap (λ (r : Region). r.refcount) u.slot)) in
    rw (releases, release_kept g id v lt used m (omega arith))
      (
        ih.0,
        Updated-trans u
            (subst (Updated _ _ id) (less-less (get_or g id no_region) _ n u.slot) (ih.1)),
      )

-- Each of the pages goes to `free_page`, one after the other.
pub data Freed : Pmm → List ℕ → Pmm → Type 0 where
  all_freed : {m : Pmm} → Freed m [] m
  frees :
      {m after : Pmm} {p : ℕ} {ps : List ℕ}
      → Freed (free_page m p) ps after
      → Freed m (p ∷ ps) after

free_pages-Freed : (m : Pmm) (ps : List ℕ) → Freed m ps (free_pages m ps)
unfolding free_pages
free_pages-Freed m [] = all_freed
free_pages-Freed m (p ∷ ps) = frees (free_pages-Freed (free_page m p) ps)

releases_to_last :
    (n : ℕ) (g : Registry) (m : Pmm) (id : ℕ)
    → IsValid g
    → id < max_regions
    → (get_or g id no_region).in_use ≡ true
    → (get_or g id no_region).refcount ≡ n
    → let r = get_or g id no_region in
      ((releases n g m id).1 ≡ free_pages m (take r.num_pages r.pages))
      × Updated g (releases n g m id).0 id no_region
unfolding releases
releases_to_last zero g m id v lt used h = absurd (omega (arith, region_at g id v used))
releases_to_last (suc zero) g m id v lt used h =
    rw (releases, release_last g id v lt used m h) (refl, set-Updated g id v lt no_region (λ e. cc))
releases_to_last (suc (suc n)) g m id v lt used h =
    let u = kept-Updated g id v lt used (omega arith) in
    let ih =
      releases_to_last (suc n) (set g id (less (get_or g id no_region) 1)) m id u.valid lt
        (ap (λ (r : Region). r.in_use) u.slot ∙ used)
        (omega (arith, ap (λ (r : Region). r.refcount) u.slot)) in
    rw (releases, release_kept g id v lt used m (omega arith))
      (
        ih.0 ∙ ap (λ (r : Region). free_pages m (take r.num_pages r.pages)) u.slot,
        Updated-trans u (ih.1),
      )

-- With as many releases of a region in use of a valid registry as it has references its pages are
-- given back, each one to `pmm_free_page` once and in their order, the slot is free again, no other
-- slot changes and the registry stays valid.
pub releases_all :
    (n : ℕ) (g : Registry) (m : Pmm) (id : ℕ)
    → IsValid g
    → id < max_regions
    → (get_or g id no_region).in_use ≡ true
    → (get_or g id no_region).refcount ≡ n
    → let r = get_or g id no_region in
      ((releases n g m id).1 ≡ free_pages m (take r.num_pages r.pages))
      × Freed m (take r.num_pages r.pages) (releases n g m id).1
      × Updated g (releases n g m id).0 id no_region
releases_all n g m id v lt used h =
    let r = get_or g id no_region in
    let (given, updated) = releases_to_last n g m id v lt used h in
    (
      given,
      subst (Freed m (take r.num_pages r.pages)) (sym given)
          (free_pages-Freed m (take r.num_pages r.pages)),
      updated,
    )
