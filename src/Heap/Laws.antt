-- ===== src/Heap/Laws.antt =====
-- What `kmalloc`, `kfree` and `heap_get_stats` do to a heap that represents a list of blocks.
use lufira_os.Base.{
  ℕ, zero, suc, ◌+◌, ◌-◌, ◌*◌, ◌^◌, ◌≤◌, ◌<◌, ◌≡◌, ◌≢◌, refl, ap, sym, subst, ◌∙◌, true, false,
  ◌||◌, not, Option, some, List, [], ◌∷◌, ◌⊎◌, inl, inr, arith, length, ◌==◌, Bool-cases, All,
}
use lufira_os.Heap.{
  Heap, Memory, header_size, u32, total_size, kmalloc, kfree, take_block, find_free_block,
  stats_from, heap_get_stats, heap_init,
}
use mathlib.Core.Option.{some-injective}
use lufira_os.Heap.Store.{write_self}
use lufira_os.Heap.Chain.{Block, link, Chain, Chain-length}
use lufira_os.Heap.Alloc.{
  first_fit, fit_addr, find_free_block_lem, link-first_fit, first_fit-Carved,
}
use lufira_os.Heap.Free.{block_at, release, link-release, release_whole, block_at-header, kfree_mem}
use lufira_os.Heap.Blocks.{
  used_bytes, free_bytes, IsCoalesced, HasHeaders, fit_addr-zero, block_at-fit_addr,
  block_at-first_fit, release-first_fit, first_fit-IsCoalesced, release-IsCoalesced,
}

-- An initialised heap whose memory up to `end` is the list `bs`, with no free block behind another.
pub record Represents (h : Heap) (end : ℕ) (bs : List Block) : Type 0 where
  pub ready : h.initialized ≡ true
  pub not_null : 0 < h.heap_start
  pub bounded : end < h.heap_start + u32
  pub inhabited : 0 < length bs
  pub chain : Chain h.mem 0 h.heap_start end bs
  pub coalesced : IsCoalesced bs

pub Chain-HasHeaders :
    (mem : Memory) (prev p end : ℕ) (bs : List Block) → Chain mem prev p end bs → HasHeaders bs
Chain-HasHeaders mem prev p end [] c = tt
Chain-HasHeaders mem prev p end (b ∷ bs) c = (c.1, Chain-HasHeaders mem p (p + b.size) end bs c.2)

link_inhabited : (p : ℕ) (bs : List Block) → 0 < length bs → link p bs ≡ p
link_inhabited p [] h = absurd (omega arith)
link_inhabited p (b ∷ bs) h = refl

inhabited_of_link : (bs : List Block) → link 1 bs ≡ 1 → 0 < length bs
inhabited_of_link [] h = absurd (omega arith)
inhabited_of_link (b ∷ bs) h = omega arith

-- What a successful `kmalloc` of `size` bytes gives: the first free block that fits, used from now
-- on, with room for the request behind its header, and all blocks used before where they were.
pub record Grants (h : Heap) (end size : ℕ) (bs : List Block) (r : Heap × ℕ) : Type 0 where
  pub after : Represents r.0 end (first_fit (total_size size) bs)
  pub same_start : (r.0).heap_start ≡ h.heap_start
  pub pointer : r.1 ≡ fit_addr (total_size size) h.heap_start bs + header_size
  pub block : Block
  pub found :
      block_at
        (fit_addr (total_size size) h.heap_start bs)
        h.heap_start
        (first_fit (total_size size) bs)
      ≡ some block
  pub in_use : block.used ≡ true
  pub enough : size + header_size ≤ block.size
  pub others :
      (x : ℕ) (b : Block)
      → block_at x h.heap_start bs ≡ some b
      → b.used ≡ true
      → block_at x h.heap_start (first_fit (total_size size) bs) ≡ some b

total_size-le : (size : ℕ) → size ≤ 2 ^ 63 → size + header_size ≤ total_size size
unfolding total_size
total_size-le size h = omega arith

module _ (fuel : ℕ) (h : Heap) (end : ℕ) (bs : List Block) (v : Represents h end bs)
    (fuel_enough : end < h.heap_start + header_size * fuel) where
  finds : (n : ℕ) → find_free_block fuel h.mem h.heap_start n ≡ some (fit_addr n h.heap_start bs)
  finds n =
      let e = link_inhabited h.heap_start bs v.inhabited in
      ap (λ p. find_free_block fuel h.mem p n) (sym e)
      ∙ find_free_block_lem fuel n h.mem 0 h.heap_start end bs v.not_null
          (omega (arith, Chain-length h.mem 0 h.heap_start end bs v.chain)) v.chain

  module _ (size : ℕ) (positive : 0 < size) (limit : size ≤ 2 ^ 63) where
    started : (not h.initialized || size == 0) ≡ false
    started = ground (arith, v.ready)

    large : header_size ≤ total_size size
    large = omega (arith, total_size-le size limit)

    refused : fit_addr (total_size size) h.heap_start bs ≡ 0 → kmalloc fuel h size ≡ some (h, 0)
    unfolding kmalloc
    refused z = rw (started, finds (total_size size), z)

    granted :
        fit_addr (total_size size) h.heap_start bs ≢ 0
        → kmalloc fuel h size
          ≡ some (
            record h {
              mem = take_block h.mem (fit_addr (total_size size) h.heap_start bs) (total_size size);
            },
            fit_addr (total_size size) h.heap_start bs + header_size,
          )
    unfolding kmalloc
    granted z =
        let t : (fit_addr (total_size size) h.heap_start bs == 0) ≡ false = ground arith in
        rw (started, finds (total_size size), t)

    granted-Grants :
        fit_addr (total_size size) h.heap_start bs ≢ 0
        → Grants h end size bs (
          record h {
            mem = take_block h.mem (fit_addr (total_size size) h.heap_start bs) (total_size size);
          },
          fit_addr (total_size size) h.heap_start bs + header_size,
        )
    granted-Grants z =
        let hs = Chain-HasHeaders h.mem 0 h.heap_start end bs v.chain in
        let (b, e, u, le) = block_at-fit_addr (total_size size) h.heap_start bs hs z in
        record {
          after = record {
            ready = v.ready;
            not_null = v.not_null;
            bounded = v.bounded;
            inhabited =
                inhabited_of_link (first_fit (total_size size) bs)
                  (link-first_fit (total_size size) 1 bs ∙ link_inhabited 1 bs v.inhabited);
            chain =
                (first_fit-Carved (total_size size) h.mem 0 h.heap_start end bs v.not_null large
                  v.bounded z v.chain).0;
            coalesced = first_fit-IsCoalesced (total_size size) bs v.coalesced;
          };
          same_start = refl;
          pointer = refl;
          block = b;
          found = e;
          in_use = u;
          enough = omega (arith, total_size-le size limit);
          others =
              λ x d e' u'. block_at-first_fit x (total_size size) h.heap_start bs d hs u' large e';
        }

    -- On a heap that represents `bs`, with fuel for every block that the region can hold, `kmalloc`
    -- of 1 to 2^63 bytes returns: NULL with the heap unchanged, and then each free block is smaller
    -- than the rounded request with its header; or the first free block that fits, used from
    -- now on, with room for the request behind its header. Blocks used before stay where they are,
    -- the heap represents the new list, and no free block follows another.
    pub kmalloc-Grants :
        ((kmalloc fuel h size ≡ some (h, 0))
          × All (λ (b : Block). b.used ≡ false → b.size < total_size size) bs)
        ⊎ ((r : Heap × ℕ) × (kmalloc fuel h size ≡ some r) × Grants h end size bs r)
    kmalloc-Grants = elim (Bool-cases (fit_addr (total_size size) h.heap_start bs == 0)) [
      | inl z ↦
          let z' : fit_addr (total_size size) h.heap_start bs ≡ 0 = ground arith in
          inl (refused z', fit_addr-zero (total_size size) h.heap_start bs v.not_null z')
      | inr z ↦
          let z' : fit_addr (total_size size) h.heap_start bs ≢ 0 = ground arith in
          inr (_, granted z', granted-Grants z')
    ]

    -- `kfree` of the pointer that `kmalloc` has just returned restores the list of blocks.
    freed_again :
        fit_addr (total_size size) h.heap_start bs ≢ 0
        → release
            (fit_addr (total_size size) h.heap_start bs)
            h.heap_start
            (first_fit (total_size size) bs)
          ≡ bs
    freed_again z =
        release-first_fit (total_size size) h.heap_start bs v.not_null
          (Chain-HasHeaders h.mem 0 h.heap_start end bs v.chain) v.coalesced z

module _ (h : Heap) (end : ℕ) (bs : List Block) (v : Represents h end bs) (x : ℕ) (b : Block)
    (at : block_at x h.heap_start bs ≡ some b) where
  at_block : x + header_size - header_size ≡ x
  at_block = omega arith

  pointer_ne : (x + header_size == 0) ≡ false
  pointer_ne = ground arith

  -- `kfree` of the pointer to a used block frees that block and joins it with its free neighbours:
  -- the heap then represents the released list, in which again no free block follows another. `kfree`
  -- of the pointer to a free block, such as a second `kfree`, changes nothing.
  pub kfree-Represents :
      ((b.used ≡ true)
        × ((kfree h (x + header_size)).heap_start ≡ h.heap_start)
        × Represents (kfree h (x + header_size)) end (release x h.heap_start bs))
      ⊎ ((b.used ≡ false) × (kfree h (x + header_size) ≡ h))
  unfolding kfree
  kfree-Represents =
      let m = (block_at-header x h.mem 0 h.heap_start end bs b at v.chain).0 in
      elim (Bool-cases b.used) [
        | inl u ↦
            let t : ((h.mem x).magic == 0xDEADBEE2) ≡ true = rw (m, u) in
            let e : kfree h (x + header_size) ≡ record h { mem = kfree_mem h.mem x } =
              rw (kfree, pointer_ne, at_block, t) in
            inl (
              u,
              ap (λ (g : Heap). g.heap_start) e,
              subst (λ g. Represents g end (release x h.heap_start bs)) (sym e)
                  (record {
                    ready = v.ready;
                    not_null = v.not_null;
                    bounded = v.bounded;
                    inhabited =
                        inhabited_of_link (release x h.heap_start bs)
                          (link-release x 1 h.heap_start bs ∙ link_inhabited 1 bs v.inhabited);
                    chain =
                        release_whole x h.mem h.heap_start end bs b v.not_null v.bounded at v.chain;
                    coalesced = release-IsCoalesced x h.heap_start bs v.coalesced;
                  }),
            )
        | inr u ↦
            let t : ((h.mem x).magic == 0xDEADBEE2) ≡ false = rw (m, u) in
            inr (u, rw (pointer_ne, at_block, t))
      ]

-- The heap after `kfree` of a block that is known to be used.
used_case :
    (h : Heap) (end : ℕ) (bs : List Block) (x : ℕ) (b : Block)
    → Represents h end bs
    → block_at x h.heap_start bs ≡ some b
    → b.used ≡ true
    → Represents (kfree h (x + header_size)) end (release x h.heap_start bs)
used_case h end bs x b v at u = go (kfree-Represents h end bs v x b at)
  where
    go :
        ((b.used ≡ true)
            × ((kfree h (x + header_size)).heap_start ≡ h.heap_start)
            × Represents (kfree h (x + header_size)) end (release x h.heap_start bs))
          ⊎ ((b.used ≡ false) × (kfree h (x + header_size) ≡ h))
        → Represents (kfree h (x + header_size)) end (release x h.heap_start bs)
    go (inl a) = a.2
    go (inr a) = absurd (let c = sym u ∙ a.0 in cc)

-- `kfree` of the pointer that a successful `kmalloc` has just returned gives a heap that represents
-- the list of blocks from before the `kmalloc`.
pub kfree-kmalloc :
    (fuel : ℕ) (h : Heap) (end : ℕ) (bs : List Block) (size : ℕ) (h' : Heap) (ptr : ℕ)
    → Represents h end bs
    → end < h.heap_start + header_size * fuel
    → 0 < size
    → size ≤ 2 ^ 63
    → kmalloc fuel h size ≡ some (h', ptr)
    → ptr ≢ 0
    → Represents (kfree h' ptr) end bs
kfree-kmalloc fuel h end bs size h' ptr v enough pos limit e ne =
    elim (Bool-cases (fit_addr (total_size size) h.heap_start bs == 0)) [
      | inl z ↦
          let r =
            some-injective _ _
              (sym (refused fuel h end bs v enough size pos limit (ground arith)) ∙ e) in
          absurd (ne (sym (ap (λ (t : Heap × ℕ). t.1) r)))
      | inr z ↦
          let z' : fit_addr (total_size size) h.heap_start bs ≢ 0 = ground arith in
          let r = some-injective _ _ (sym (granted fuel h end bs v enough size pos limit z') ∙ e) in
          let g = granted-Grants fuel h end bs v enough size pos limit z' in
          let done =
            used_case _ end (first_fit (total_size size) bs)
              (fit_addr (total_size size) h.heap_start bs) g.block g.after g.found g.in_use in
          subst (λ (t : Heap × ℕ). Represents (kfree t.0 t.1) end bs) r
            (rw (freed_again fuel h end bs v enough size pos limit z') at done)
    ]

pair_eq : {a b c d : ℕ} → a ≡ c → b ≡ d → ◌≡◌ {A = Option (ℕ × ℕ)} (some (a, b)) (some (c, d))
pair_eq p q = λ i. some (p i, q i)

-- The loop of `heap_get_stats` over a chain.
stats_from_lem :
    (fuel : ℕ) (mem : Memory) (prev p end used free : ℕ) (bs : List Block)
    → 0 < p
    → length bs < fuel
    → Chain mem prev p end bs
    → stats_from fuel mem (link p bs) used free ≡ some (used + used_bytes bs, free + free_bytes bs)
unfolding stats_from
stats_from_lem zero mem prev p end used free bs pos h c = absurd (omega arith)
stats_from_lem (suc fuel) mem prev p end used free [] pos h c = pair_eq (omega arith) (omega arith)
stats_from_lem (suc fuel) mem prev p end used free (b ∷ bs) pos h c =
    let z : (p == 0) ≡ false = ground arith in
    elim (Bool-cases b.used) [
      | inl u ↦
          rw (c.0, z, u)
            (stats_from_lem fuel mem p (p + b.size) end (used + b.size) free bs (omega arith)
                (omega arith) c.2
              ∙ pair_eq (omega arith) (omega arith))
      | inr u ↦
          rw (c.0, z, u)
            (stats_from_lem fuel mem p (p + b.size) end used (free + b.size) bs (omega arith)
                (omega arith) c.2
              ∙ pair_eq (omega arith) (omega arith))
    ]

bytes_total :
    (mem : Memory) (prev p end : ℕ) (bs : List Block)
    → Chain mem prev p end bs
    → p + (used_bytes bs + free_bytes bs) ≡ end
bytes_total mem prev p end [] c = omega arith
bytes_total mem prev p end (b ∷ bs) c =
    let rest = bytes_total mem p (p + b.size) end bs c.2 in ground arith

-- On a heap that represents `bs`, with fuel for every block that the region can hold,
-- `heap_get_stats` returns the bytes of the used and of the free blocks, and the two add up to the
-- size of the region.
pub heap_get_stats_lem :
    (fuel : ℕ) (h : Heap) (end : ℕ) (bs : List Block)
    → Represents h end bs
    → end < h.heap_start + header_size * fuel
    → (heap_get_stats fuel h ≡ some (used_bytes bs, free_bytes bs))
      × (h.heap_start + (used_bytes bs + free_bytes bs) ≡ end)
unfolding heap_get_stats
heap_get_stats_lem fuel h end bs v enough = (
  ap (λ p. stats_from fuel h.mem p 0 0) (sym (link_inhabited h.heap_start bs v.inhabited))
      ∙ (stats_from_lem fuel h.mem 0 h.heap_start end 0 0 bs v.not_null
            (omega (arith, Chain-length h.mem 0 h.heap_start end bs v.chain)) v.chain
          ∙ pair_eq (omega arith) (omega arith)),
  bytes_total h.mem 0 h.heap_start end bs v.chain,
)

-- `heap_init` on a region that does not start at 0, of at least one header and less than 2^32 bytes,
-- makes a heap that represents one free block of the region's size.
pub heap_init-Represents :
    (mem : Memory) (start size : ℕ)
    → 0 < start
    → header_size ≤ size
    → size < u32
    → Represents
        (heap_init mem start size)
        (start + size)
        (record { size = size; used = false } ∷ [])
unfolding heap_init
heap_init-Represents mem start size pos large small = record {
  ready = refl;
  not_null = pos;
  bounded = omega arith;
  inhabited = omega arith;
  chain = (write_self mem start _, large, refl);
  coalesced = (λ e. refl, tt);
}
