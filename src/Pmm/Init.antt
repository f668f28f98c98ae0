-- ===== src/Pmm/Init.antt =====
-- `pmm_init`: the state that it builds, and which pages are free in it.
use lufira_os.Base.{
  ℕ, ◌+◌, ◌*◌, ◌/◌, ◌%◌, ◌^◌, ◌≤◌, ◌<◌, ◌≡◌, refl, ap, ◌∙◌, Bool, false, not, ◌&&◌, ◌||◌, inl, inr,
  Option, none, some, List, [], ◌∷◌, arith, length, replicate, length-replicate, All-replicate,
  ◌==◌, ltb, lt→ltb, subst, Bool-cases, Option-cases,
}
use mathlib.Core.Option.{some-injective}
use lufira_os.Pmm.{
  Pmm, Descriptor, Layout, page_size, u64, conventional, pages_of, total_of, bitmap_size_of,
  bitmap_test, set_pages, clear_pages, max_phys, choose_block, free_conventional, count_used,
  reserve, init,
}
use lufira_os.Pmm.Bitmap.{
  IsBytes, within, set_pages-IsBytes, clear_pages-IsBytes, length-set_pages, length-clear_pages,
  bitmap_test-set_pages, bitmap_test-clear_pages,
}
use lufira_os.Pmm.Inv.{IsValid}

max_phys-lt : (ds : List Descriptor) (top : ℕ) → top < u64 → max_phys ds top < u64
unfolding max_phys
max_phys-lt [] top h = h
max_phys-lt (d ∷ ds) top h = max_phys-lt ds _ (ground arith)

total_of-le : (ds : List Descriptor) → total_of ds ≤ 2 ^ 52
total_of-le ds = ground (arith, max_phys-lt ds 0)

-- A descriptor of conventional memory has page `q` among its pages.
abbrev pub covers : List Descriptor → ℕ → Bool
covers [] q = false
covers (d ∷ ds) q =
    (d.type == conventional && within d.number_of_pages (d.physical_start / page_size) q)
    || covers ds q

free_conventional-IsBytes :
    (bm : List ℕ) (ds : List Descriptor) → IsBytes bm → IsBytes (free_conventional bm ds)
unfolding free_conventional
free_conventional-IsBytes bm [] h = h
free_conventional-IsBytes bm (d ∷ ds) h = elim (Bool-cases (d.type == conventional)) [
  | inl e ↦ rw e (
      free_conventional-IsBytes (clear_pages bm d.number_of_pages (d.physical_start / page_size)) ds
        (clear_pages-IsBytes bm d.number_of_pages (d.physical_start / page_size) h))
  | inr e ↦ rw e (free_conventional-IsBytes bm ds h)
]

length-free_conventional :
    (bm : List ℕ) (ds : List Descriptor) → length (free_conventional bm ds) ≡ length bm
unfolding free_conventional
length-free_conventional bm [] = refl
length-free_conventional bm (d ∷ ds) = elim (Bool-cases (d.type == conventional)) [
  | inl e ↦ rw e (
      omega (
        arith,
        length-free_conventional (clear_pages bm d.number_of_pages (d.physical_start / page_size))
            ds,
        length-clear_pages bm d.number_of_pages (d.physical_start / page_size),
      ))
  | inr e ↦ rw e (length-free_conventional bm ds)
]

bitmap_test-free_conventional :
    (bm : List ℕ) (ds : List Descriptor) (q : ℕ)
    → IsBytes bm
    → q < 8 * length bm
    → bitmap_test (free_conventional bm ds) q ≡ (not (covers ds q) && bitmap_test bm q)
unfolding free_conventional
bitmap_test-free_conventional bm [] q h lt = refl
bitmap_test-free_conventional bm (d ∷ ds) q h lt =
    let start : ℕ = d.physical_start / page_size in
    let cleared : List ℕ = clear_pages bm d.number_of_pages start in
    elim (Bool-cases (d.type == conventional)) [
      | inl e ↦ rw e (
          ground (
            arith,
            bitmap_test-free_conventional cleared ds q
                (clear_pages-IsBytes bm d.number_of_pages start h),
            length-clear_pages bm d.number_of_pages start,
            bitmap_test-clear_pages bm d.number_of_pages start q h lt,
          ))
      | inr e ↦ rw e (bitmap_test-free_conventional bm ds q h lt)
    ]

reorder_three : (k o low b : Bool) → (k || (o || (low || b))) ≡ ((low || (o || (k || false))) || b)
reorder_three k o low b = ground arith

reorder_four :
    (r k o low b : Bool) → (r || (k || (o || (low || b)))) ≡ ((low || (o || (k || r))) || b)
reorder_four r k o low b = ground arith

-- The pages that `pmm_init` reserves: the first 512, the bitmap's own, the kernel's, and those of
-- the extra region, if there is one.
abbrev pub reserved : Layout → (bitmap_phys bitmap_size : ℕ) → ℕ → Bool
reserved l phys size q =
    ltb q 512
    || (within (pages_of size) (phys / page_size) q
        || (within (pages_of l.kernel_size) (l.kernel_base / page_size) q
            || (not (l.reserved_base == 0 || l.reserved_size == 0)
                && within (pages_of l.reserved_size) (l.reserved_base / page_size) q)))

module _ (bm : List ℕ) (l : Layout) (phys size : ℕ) (h : IsBytes bm) where
  low_bm : List ℕ
  low_bm = set_pages (set_pages bm 256 0) 512 0

  own_bm : List ℕ
  own_bm = set_pages low_bm (pages_of size) (phys / page_size)

  kernel_bm : List ℕ
  kernel_bm = set_pages own_bm (pages_of l.kernel_size) (l.kernel_base / page_size)

  low-IsBytes : IsBytes low_bm
  unfolding low_bm
  low-IsBytes = set_pages-IsBytes (set_pages bm 256 0) 512 0 (set_pages-IsBytes bm 256 0 h)

  own-IsBytes : IsBytes own_bm
  unfolding own_bm
  own-IsBytes = set_pages-IsBytes low_bm (pages_of size) (phys / page_size) low-IsBytes

  kernel-IsBytes : IsBytes kernel_bm
  unfolding kernel_bm
  kernel-IsBytes =
      set_pages-IsBytes own_bm (pages_of l.kernel_size) (l.kernel_base / page_size) own-IsBytes

  length-own : length own_bm ≡ length bm
  unfolding own_bm low_bm
  length-own =
      length-set_pages low_bm (pages_of size) (phys / page_size)
      ∙ (length-set_pages (set_pages bm 256 0) 512 0 ∙ length-set_pages bm 256 0)

  length-kernel : length kernel_bm ≡ length bm
  unfolding kernel_bm
  length-kernel =
      length-set_pages own_bm (pages_of l.kernel_size) (l.kernel_base / page_size) ∙ length-own

  reserve-IsBytes : IsBytes (reserve bm l phys size)
  unfolding reserve kernel_bm own_bm low_bm
  reserve-IsBytes = elim (Bool-cases (l.reserved_base == 0 || l.reserved_size == 0)) [
    | inl e ↦ rw e kernel-IsBytes
    | inr e ↦ rw e (
        set_pages-IsBytes kernel_bm (pages_of l.reserved_size) (l.reserved_base / page_size)
          kernel-IsBytes)
  ]

  length-reserve : length (reserve bm l phys size) ≡ length bm
  unfolding reserve kernel_bm own_bm low_bm
  length-reserve = elim (Bool-cases (l.reserved_base == 0 || l.reserved_size == 0)) [
    | inl e ↦ rw e length-kernel
    | inr e ↦ rw e (
        length-set_pages kernel_bm (pages_of l.reserved_size) (l.reserved_base / page_size)
        ∙ length-kernel)
  ]

  test-kernel :
      (q : ℕ)
      → q < 8 * length bm
      → bitmap_test kernel_bm q ≡ (
          within (pages_of l.kernel_size) (l.kernel_base / page_size) q
          || (within (pages_of size) (phys / page_size) q || (ltb q 512 || bitmap_test bm q)))
  unfolding kernel_bm own_bm low_bm
  test-kernel q lt =
      let a = length-set_pages bm 256 0 in
      let b = length-set_pages (set_pages bm 256 0) 512 0 in
      rw
        (
          bitmap_test-set_pages own_bm (pages_of l.kernel_size) (l.kernel_base / page_size) q
              own-IsBytes (omega (arith, length-own)),
          bitmap_test-set_pages low_bm (pages_of size) (phys / page_size) q low-IsBytes
              (omega arith),
          bitmap_test-set_pages (set_pages bm 256 0) 512 0 q (set_pages-IsBytes bm 256 0 h)
              (omega arith),
          bitmap_test-set_pages bm 256 0 q h lt,
        )
        (ground arith)

  own_run : ℕ → Bool
  own_run q = within (pages_of size) (phys / page_size) q

  kernel_run : ℕ → Bool
  kernel_run q = within (pages_of l.kernel_size) (l.kernel_base / page_size) q

  extra_run : ℕ → Bool
  extra_run q = within (pages_of l.reserved_size) (l.reserved_base / page_size) q

  three :
      (q : ℕ)
      → (kernel_run q || (own_run q || (ltb q 512 || bitmap_test bm q)))
        ≡ ((ltb q 512 || (own_run q || (kernel_run q || false))) || bitmap_test bm q)
  three q = reorder_three (kernel_run q) (own_run q) (ltb q 512) (bitmap_test bm q)

  four :
      (q : ℕ)
      → (extra_run q || (kernel_run q || (own_run q || (ltb q 512 || bitmap_test bm q))))
        ≡ ((ltb q 512 || (own_run q || (kernel_run q || extra_run q))) || bitmap_test bm q)
  four q = reorder_four (extra_run q) (kernel_run q) (own_run q) (ltb q 512) (bitmap_test bm q)

  bitmap_test-reserve :
      (q : ℕ)
      → q < 8 * length bm
      → bitmap_test (reserve bm l phys size) q ≡ (reserved l phys size q || bitmap_test bm q)
  unfolding reserve kernel_bm own_bm low_bm own_run kernel_run extra_run
  bitmap_test-reserve q lt = elim (Bool-cases (l.reserved_base == 0 || l.reserved_size == 0)) [
    | inl e ↦ rw e (test-kernel q lt ∙ three q)
    | inr e ↦ rw e (
        bitmap_test-set_pages kernel_bm (pages_of l.reserved_size) (l.reserved_base / page_size) q
          kernel-IsBytes (omega (arith, length-kernel))
        ∙ (ap (◌||◌ (within (pages_of l.reserved_size) (l.reserved_base / page_size) q))
              (test-kernel q lt)
            ∙ four q))
  ]

-- The bitmap before the reservations.
abbrev after_map : List Descriptor → List ℕ
after_map ds =
    free_conventional (set_pages (replicate (bitmap_size_of (total_of ds)) 0) (total_of ds) 0) ds

module _ (ds : List Descriptor) where
  zeros-IsBytes : (n : ℕ) → IsBytes (replicate n 0)
  zeros-IsBytes n = All-replicate (λ (x : ℕ). x < 256) n 0 (omega arith)

  all_used-IsBytes : (n total : ℕ) → IsBytes (set_pages (replicate n 0) total 0)
  all_used-IsBytes n total = set_pages-IsBytes (replicate n 0) total 0 (zeros-IsBytes n)

  length-all_used : (n total : ℕ) → length (set_pages (replicate n 0) total 0) ≡ n
  length-all_used n total = length-set_pages (replicate n 0) total 0 ∙ length-replicate n 0

  after_map-IsBytes : IsBytes (after_map ds)
  after_map-IsBytes =
      free_conventional-IsBytes _ ds (all_used-IsBytes (bitmap_size_of (total_of ds)) (total_of ds))

  length-after_map : length (after_map ds) ≡ bitmap_size_of (total_of ds)
  length-after_map =
      length-free_conventional _ ds ∙ length-all_used (bitmap_size_of (total_of ds)) (total_of ds)

  test-after_map : (q : ℕ) → q < total_of ds → bitmap_test (after_map ds) q ≡ not (covers ds q)
  test-after_map q lt =
      let n : ℕ = bitmap_size_of (total_of ds) in
      let a = length-all_used n (total_of ds) in
      rw
        (
          bitmap_test-free_conventional (set_pages (replicate n 0) (total_of ds) 0) ds q
              (all_used-IsBytes n (total_of ds)) (omega arith),
          bitmap_test-set_pages (replicate n 0) (total_of ds) 0 q (zeros-IsBytes n)
              (omega (arith, length-replicate {A = ℕ} n 0)),
        )
        (ground arith)

-- What `pmm_init` has built, with the bitmap placed at `phys`.
pub record Built (ds : List Descriptor) (l : Layout) (s : Pmm) (phys : ℕ) : Type 0 where
  pub total : s.total_pages ≡ total_of ds
  pub bits :
      (q : ℕ)
      → q < s.total_pages
      → bitmap_test s.bitmap q
        ≡ (reserved l phys (bitmap_size_of (total_of ds)) q || not (covers ds q))
  pub valid : IsValid s

module _ (ds : List Descriptor) (l : Layout) (phys : ℕ) where
  -- The state of `pmm_init` once the bitmap's place is chosen.
  abbrev built_at : Pmm
  built_at =
      let bm = reserve (after_map ds) l phys (bitmap_size_of (total_of ds)) in
      record {
        bitmap = bm;
        total_pages = total_of ds;
        used_pages = count_used bm (total_of ds) 0;
        next_free_page = 512;
      }

  room : total_of ds ≤ 8 * length (after_map ds)
  room = omega (arith, length-after_map ds)

  built_bits :
      (q : ℕ)
      → q < total_of ds
      → bitmap_test built_at.bitmap q
        ≡ (reserved l phys (bitmap_size_of (total_of ds)) q || not (covers ds q))
  built_bits q lt =
      bitmap_test-reserve (after_map ds) l phys (bitmap_size_of (total_of ds))
        (after_map-IsBytes ds) q (omega (arith, room))
      ∙ ap (◌||◌ (reserved l phys (bitmap_size_of (total_of ds)) q)) (test-after_map ds q lt)

  built_at-Built : Built ds l built_at phys
  built_at-Built = record {
    total = refl;
    bits = built_bits;
    valid = record {
      bytes =
          reserve-IsBytes (after_map ds) l phys (bitmap_size_of (total_of ds))
            (after_map-IsBytes ds);
      room = omega (
        arith,
        room,
        length-reserve (after_map ds) l phys (bitmap_size_of (total_of ds)) (after_map-IsBytes ds),
      );
      small = total_of-le ds;
      low = λ q lo hi. let e = lt→ltb q 512 lo in built_bits q hi ∙ rw e;
      above_low = omega arith;
      in_range = inr refl;
      counted = refl;
    };
  }

-- When `pmm_init` does not halt, its state is valid, and a page is free exactly when conventional
-- memory covers it and it is none of the first 512 pages, of the bitmap's own pages, of the kernel's
-- and of the extra region's; the bitmap lies where `choose_block` placed it.
pub init-Built :
    (ds : List Descriptor) (l : Layout) (s : Pmm)
    → init ds l ≡ some s
    → (phys : ℕ) × (choose_block
          (bitmap_size_of (total_of ds))
          l.kernel_base
          ((l.kernel_base + l.kernel_size) % u64)
          ds
          0
          none
        ≡ some phys)
      × Built ds l s phys
unfolding init
init-Built ds l s h = elim (Option-cases (place ds l)) [
  | inl e ↦ absurd (let c = rw (e, init) at h in cc)
  | inr (phys, e) ↦ (
    phys,
    e,
    subst (λ t. Built ds l t phys) (some-injective _ _ (rw (e, init) at h))
        (built_at-Built ds l phys),
  )
]
  where
    place : List Descriptor → Layout → Option ℕ
    place ds l =
        choose_block (bitmap_size_of (total_of ds)) l.kernel_base
          ((l.kernel_base + l.kernel_size) % u64) ds 0 none
