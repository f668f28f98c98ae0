-- ===== src/Heap/Free.antt =====
-- `kfree` on the list of blocks: the block becomes free and joins its free neighbours.
use lufira_os.Base.{
  ℕ, ◌+◌, ◌%◌, ◌≤◌, ◌<◌, ◌≡◌, ◌≢◌, refl, ap, sym, subst, ◌∙◌, true, false, ◌&&◌, not, Option, none,
  some, List, [], ◌∷◌, inl, inr, arith, ◌==◌, if◌then◌else◌, Bool-cases,
}
use mathlib.Core.Option.{some-injective}
use lufira_os.Heap.Store.{write_self, write_ne, set_prev_self, set_prev_ne, set_prev_other}
use lufira_os.Heap.{
  Header, Memory, magic_free, u32, write, set_prev, set_magic, join_blocks, merge_next, merge_prev,
  merge_blocks,
}
use lufira_os.Heap.Chain.{
  Block, magic_of, link, header_of, Chain, Chain-le, Chain-prev, link-elsewhere,
}
use lufira_os.Heap.Alloc.{Carved, Carved-at, set_magic_at}

-- A block with the free block behind it, if there is one.
abbrev pub absorb : Block → List Block → List Block
absorb b [] = b ∷ []
absorb b (n ∷ ns) =
    if n.used then b ∷ n ∷ ns else record { size = b.size + n.size; used = b.used } ∷ ns

-- The block at address `x` of the list that starts at `p`.
unfoldable pub block_at : ℕ → ℕ → List Block → Option Block
block_at x p [] = none
block_at x p (b ∷ bs) = if p == x then some b else block_at x (p + b.size) bs

-- The list after the block at `x` is freed.
unfoldable pub release : ℕ → ℕ → List Block → List Block
release x p [] = []
release x p (b ∷ bs) =
    let rest = release x (p + b.size) bs in
    if p == x
    then absorb (record { size = b.size; used = false }) bs
    else (if p + b.size == x && not b.used then absorb b rest else b ∷ rest)

-- Two blocks at `p` become one.
module _ (mem : Memory) (prev p end : ℕ) (a b : Block) (bs : List Block) (pos : 0 < p)
    (small : end < p + u32) (c : Chain mem prev p end (a ∷ b ∷ bs)) where
  joined_size : a.size + b.size < u32
  joined_size = omega (arith, Chain-le mem (p + a.size) (p + a.size + b.size) end bs c.2.2)

  both : Block
  both = record { size = a.size + b.size; used = a.used }

  past : link (p + a.size + b.size) bs ≢ p
  past = ground (arith, c.1)

  join_first : join_blocks mem p (p + a.size) ≡ write mem p (header_of prev p both bs)
  unfolding join_blocks both
  join_first =
      let e : (a.size + b.size) % u32 ≡ a.size + b.size = omega (arith, joined_size) in
      let e' : p + a.size + b.size ≡ p + (a.size + b.size) = omega arith in rw (c.0, c.2.0, e, e')

  joined : Memory
  joined = set_prev (join_blocks mem p (p + a.size)) (link (p + a.size + b.size) bs) p

  joined_ne : (q : ℕ) → p ≢ q → p + a.size + b.size ≢ q → joined q ≡ mem q
  unfolding joined
  joined_ne q n n' =
      rw
        (
          set_prev_other (join_blocks mem p (p + a.size)) (link (p + a.size + b.size) bs) p q
              (link-elsewhere (p + a.size + b.size) q bs n'),
          join_first,
        )
        (write_ne mem p q _ n)

  joined_first : joined p ≡ header_of prev p both bs
  unfolding joined
  joined_first =
      rw
        (
          set_prev_ne (join_blocks mem p (p + a.size)) (link (p + a.size + b.size) bs) p p past,
          join_first,
        )
        (write_self mem p _)

  joined_next :
      link (p + a.size + b.size) bs ≢ 0
      → joined (link (p + a.size + b.size) bs)
        ≡ record (mem (link (p + a.size + b.size) bs)) { prev = p }
  unfolding joined
  joined_next z = rw (
    set_prev_self (join_blocks mem p (p + a.size)) (link (p + a.size + b.size) bs) p z,
    join_first,
    write_ne mem p (link (p + a.size + b.size) bs) (header_of prev p both bs) (λ e. past (sym e)),
  )

  joined-Carved : Carved mem joined prev p end (both ∷ bs)
  unfolding both
  joined-Carved =
      let e : p + (a.size + b.size) ≡ p + a.size + b.size = omega arith in
      (
        (
          joined_first,
          omega (arith, c.1),
          rw e (
              Chain-prev mem joined (p + a.size) p (p + a.size + b.size) end bs
                (λ q h. joined_ne q (omega (arith, c.1)) (omega arith)) (omega arith) joined_next
                c.2.2),
        ),
        λ q h. joined_ne q (omega arith) (omega arith),
      )

  next_of_first : (join_blocks mem p (p + a.size) p).next ≡ link (p + a.size + b.size) bs
  unfolding join_blocks
  next_of_first = rw (write_self mem p _, c.2.0)

  not_last : not (p + a.size == 0) ≡ true
  not_last = ground arith

  -- Either half of `merge_blocks` does this where its test passes.
  merge_next_free : b.used ≡ false → merge_next mem p ≡ joined
  unfolding merge_next joined
  merge_next_free f =
      let t : (not ((mem p).next == 0) && (mem (mem p).next).magic == magic_free) ≡ true =
        rw (c.0, c.2.0, f, not_last) in
      let e : (mem p).next ≡ p + a.size = rw (c.0) in rw (t, e, next_of_first)

  merge_next_used : b.used ≡ true → merge_next mem p ≡ mem
  unfolding merge_next
  merge_next_used f =
      let t : (not ((mem p).next == 0) && (mem (mem p).next).magic == magic_free) ≡ false =
        rw (c.0, c.2.0, f, not_last) in
      rw t

  prev_alive : not (p == 0) ≡ true
  prev_alive = ground arith

  merge_prev_free : a.used ≡ false → merge_prev mem (p + a.size) ≡ joined
  unfolding merge_prev joined
  merge_prev_free f =
      let t : (not ((mem (p + a.size)).prev == 0)
            && (mem (mem (p + a.size)).prev).magic == magic_free)
          ≡ true =
        rw (c.2.0, c.0, f, prev_alive) in
      let e : (mem (p + a.size)).prev ≡ p = rw (c.2.0) in
      let k : join_blocks mem p (p + a.size) (p + a.size) ≡ mem (p + a.size) =
        rw join_first (write_ne mem p (p + a.size) _ (omega (arith, c.1))) in
      rw (t, e, k, c.2.0)

  merge_prev_used : a.used ≡ true → merge_prev mem (p + a.size) ≡ mem
  unfolding merge_prev
  merge_prev_used f =
      let t : (not ((mem (p + a.size)).prev == 0)
            && (mem (mem (p + a.size)).prev).magic == magic_free)
          ≡ false =
        rw (c.2.0, c.0, f, prev_alive) in
      rw t

-- The first half of `merge_blocks`.
merge_next-Carved :
    (mem : Memory) (prev p end : ℕ) (b : Block) (bs : List Block)
    → 0 < p
    → end < p + u32
    → Chain mem prev p end (b ∷ bs)
    → Carved mem (merge_next mem p) prev p end (absorb b bs)
unfolding both merge_next
merge_next-Carved mem prev p end b [] pos small c =
    Carved-at mem mem (merge_next mem p) prev p end (b ∷ []) (b ∷ []) still refl (c, λ q h. refl)
  where
    still : merge_next mem p ≡ mem
    still = rw (merge_next, c.0)
merge_next-Carved mem prev p end b (n ∷ ns) pos small c = elim (Bool-cases n.used) [
  | inl u ↦
      Carved-at mem mem (merge_next mem p) prev p end (b ∷ n ∷ ns) (absorb b (n ∷ ns))
        (merge_next_used mem prev p end b n ns pos small c u) (rw u) (c, λ q h. refl)
  | inr u ↦
      Carved-at mem (joined mem prev p end b n ns pos small c) (merge_next mem p) prev p end
        (record { size = b.size + n.size; used = b.used } ∷ ns) (absorb b (n ∷ ns))
        (merge_next_free mem prev p end b n ns pos small c u) (rw u)
        (joined-Carved mem prev p end b n ns pos small c)
]

-- The second half, at the block behind `a`.
merge_prev-Carved :
    (mem : Memory) (prev p end : ℕ) (a b : Block) (bs : List Block)
    → 0 < p
    → end < p + u32
    → b.used ≡ false
    → Chain mem prev p end (a ∷ b ∷ bs)
    → Carved mem
        (merge_prev mem (p + a.size))
        prev
        p
        end
        (if not a.used then absorb a (b ∷ bs) else a ∷ b ∷ bs)
unfolding both
merge_prev-Carved mem prev p end a b bs pos small f c = elim (Bool-cases a.used) [
  | inl u ↦
      Carved-at mem mem (merge_prev mem (p + a.size)) prev p end (a ∷ b ∷ bs) _
        (merge_prev_used mem prev p end a b bs pos small c u) (rw u) (c, λ q h. refl)
  | inr u ↦
      Carved-at mem (joined mem prev p end a b bs pos small c) (merge_prev mem (p + a.size)) prev p
        end (record { size = a.size + b.size; used = a.used } ∷ bs) _
        (merge_prev_free mem prev p end a b bs pos small c u) (rw (u, f))
        (joined-Carved mem prev p end a b bs pos small c)
]

-- What `kfree` does to the memory, past its tests.
abbrev pub kfree_mem : Memory → ℕ → Memory
kfree_mem mem x = merge_blocks (set_magic mem x magic_free) x

-- Up to the first half of `merge_blocks`, at a block's own address.
abbrev half_freed : Memory → ℕ → Memory
half_freed mem x = merge_next (set_magic mem x magic_free) x

half_freed-Carved :
    (mem : Memory) (prev p end : ℕ) (b : Block) (bs : List Block)
    → 0 < p
    → end < p + u32
    → Chain mem prev p end (b ∷ bs)
    → Carved mem (half_freed mem p) prev p end (absorb (record { size = b.size; used = false }) bs)
half_freed-Carved mem prev p end b bs pos small c =
    let m = set_magic_at mem prev p end magic_free b false bs refl c in
    let n =
      merge_next-Carved (set_magic mem p magic_free) prev p end
        (record { size = b.size; used = false }) bs pos small m.0 in
    (n.0, λ q h. n.1 q h ∙ m.1 q h)

-- Lists that `absorb` returns have a first block: its size, and whether it is free.
absorb_shape :
    (b : Block) (bs : List Block)
    → (s : ℕ) × (ns : List Block) × (absorb b bs ≡ record { size = s; used = b.used } ∷ ns)
absorb_shape b [] = (b.size, [], refl)
absorb_shape b (n ∷ ns) = elim (Bool-cases n.used) [
  | inl u ↦ (b.size, n ∷ ns, rw u)
  | inr u ↦ (b.size + n.size, ns, rw u)
]

merge_prev_none : (mem : Memory) (x : ℕ) → (mem x).prev ≡ 0 → merge_prev mem x ≡ mem
unfolding merge_prev
merge_prev_none mem x e = rw e

-- A freed first block stays where it is: there is no block before it.
first_freed :
    (mem : Memory) (p end : ℕ) (b : Block) (bs : List Block)
    → 0 < p
    → end < p + u32
    → Chain mem 0 p end (b ∷ bs)
    → Carved mem (kfree_mem mem p) 0 p end (absorb (record { size = b.size; used = false }) bs)
unfolding merge_blocks
first_freed mem p end b bs pos small c =
    let half = half_freed-Carved mem 0 p end b bs pos small c in
    let (size, rest, e) = absorb_shape (record { size = b.size; used = false }) bs in
    let shaped = subst (Chain (half_freed mem p) 0 p end) e half.0 in
    Carved-at mem (half_freed mem p) (kfree_mem mem p) 0 p end
      (absorb (record { size = b.size; used = false }) bs) _
      (merge_prev_none (half_freed mem p) p (rw (shaped.0))) refl half

-- A freed block behind `a`.
second_freed :
    (mem : Memory) (prev p end : ℕ) (a b : Block) (bs : List Block)
    → 0 < p
    → end < p + u32
    → Chain mem prev p end (a ∷ b ∷ bs)
    → Carved mem (kfree_mem mem (p + a.size)) prev p end (
        let rest = absorb (record { size = b.size; used = false }) bs in
        if not a.used then absorb a rest else a ∷ rest)
unfolding merge_blocks
second_freed mem prev p end a b bs pos small c =
    let x : ℕ = p + a.size in
    let half = half_freed-Carved mem p x end b bs (omega arith) (omega arith) c.2 in
    let (size, rest, e) = absorb_shape (record { size = b.size; used = false }) bs in
    let shaped = subst (Chain (half_freed mem x) p x end) e half.0 in
    let whole : Chain (half_freed mem x) prev p end
        (a ∷ record { size = size; used = false } ∷ rest) =
      (half.1 p (omega (arith, c.1)) ∙ c.0, c.1, shaped) in
    let done =
      merge_prev-Carved (half_freed mem x) prev p end a (record { size = size; used = false }) rest
        pos small refl whole in
    Carved-at mem (kfree_mem mem x) (kfree_mem mem x) prev p end
      (if not a.used
        then absorb a (record { size = size; used = false } ∷ rest)
        else a ∷ record { size = size; used = false } ∷ rest)
      _ refl (ap (λ (r : List Block). if not a.used then absorb a r else a ∷ r) e)
      (done.0, λ q h. done.1 q h ∙ half.1 q (omega (arith, c.1)))

link-absorb : (q : ℕ) (b : Block) (bs : List Block) → link q (absorb b bs) ≡ q
link-absorb q b bs = let (size, rest, e) = absorb_shape b bs in rw e

pub link-release : (x q p : ℕ) (bs : List Block) → link q (release x p bs) ≡ link q bs
unfolding release
link-release x q p [] = refl
link-release x q p (b ∷ bs) = elim (Bool-cases (p == x)) [
  | inl e ↦ rw e (link-absorb q (record { size = b.size; used = false }) bs)
  | inr e ↦ rw e (elim (Bool-cases (p + b.size == x && not b.used)) [
    | inl e' ↦ rw e' (link-absorb q b (release x (p + b.size) bs))
    | inr e' ↦ rw e'
  ])
]

-- A block that is not the first of the list.
release-Carved :
    (x : ℕ) (mem : Memory) (prev p end : ℕ) (bs : List Block) (b : Block)
    → 0 < p
    → end < p + u32
    → p ≢ x
    → block_at x p bs ≡ some b
    → Chain mem prev p end bs
    → Carved mem (kfree_mem mem x) prev p end (release x p bs)
unfolding release block_at
release-Carved x mem prev p end [] b pos small n e c = cc
release-Carved x mem prev p end (a ∷ []) b pos small n e c =
    let t : (p == x) ≡ false = ground arith in cc (rw t at e)
release-Carved x mem prev p end (a ∷ d ∷ ds) b pos small n e c =
    let t : (p == x) ≡ false = ground arith in
    elim (Bool-cases (p + a.size == x)) [
      | inl here ↦
          let x_is : p + a.size ≡ x = ground arith in
          Carved-at mem (kfree_mem mem (p + a.size)) (kfree_mem mem x) prev p end _ _
            (ap (kfree_mem mem) (sym x_is)) (rw (t, here))
            (second_freed mem prev p end a d ds pos small c)
      | inr later ↦
          let ih =
            release-Carved x mem p (p + a.size) end (d ∷ ds) b (omega arith) (omega arith)
              (ground arith) (rw t at e) c.2 in
          Carved-at mem (kfree_mem mem x) (kfree_mem mem x) prev p end
            (a ∷ release x (p + a.size) (d ∷ ds)) _ refl (rw (t, later))
            (
              (
                ih.1 p (omega (arith, c.1))
                    ∙ (c.0 ∙ rw (link-release x (p + a.size) (p + a.size) (d ∷ ds))),
                c.1,
                ih.0,
              ),
              λ q h. ih.1 q (omega arith),
            )
    ]

-- Any block of a whole heap.
pub release_whole :
    (x : ℕ) (mem : Memory) (p end : ℕ) (bs : List Block) (b : Block)
    → 0 < p
    → end < p + u32
    → block_at x p bs ≡ some b
    → Chain mem 0 p end bs
    → Chain (kfree_mem mem x) 0 p end (release x p bs)
unfolding release block_at
release_whole x mem p end [] b pos small e c = cc
release_whole x mem p end (a ∷ bs) b pos small e c = elim (Bool-cases (p == x)) [
  | inl here ↦
      let x_is : p ≡ x = ground arith in
      (Carved-at mem (kfree_mem mem p) (kfree_mem mem x) 0 p end _ _ (ap (kfree_mem mem) (sym x_is))
        (rw here) (first_freed mem p end a bs pos small c)).0
  | inr later ↦ (release-Carved x mem 0 p end (a ∷ bs) b pos small (ground arith) e c).0
]

-- The header of a block of the list.
pub block_at-header :
    (x : ℕ) (mem : Memory) (prev p end : ℕ) (bs : List Block) (b : Block)
    → block_at x p bs ≡ some b
    → Chain mem prev p end bs
    → ((mem x).magic ≡ magic_of b.used) × (p ≤ x) × (x + b.size ≤ end)
unfolding block_at
block_at-header x mem prev p end [] b e c = cc
block_at-header x mem prev p end (a ∷ bs) b e c = elim (Bool-cases (p == x)) [
  | inl here ↦
      let x_is : p ≡ x = ground arith in
      let a_is : a ≡ b = some-injective _ _ (rw here at e) in
      let le = Chain-le mem p (p + a.size) end bs c.2 in
      (
        ap (λ q. (mem q).magic) (sym x_is)
            ∙ (ap (λ (h : Header). h.magic) c.0 ∙ ap (λ (d : Block). magic_of d.used) a_is),
        omega arith,
        omega (arith, ap (λ (d : Block). d.size) a_is),
      )
  | inr later ↦
      let ih = block_at-header x mem p (p + a.size) end bs b (rw later at e) c.2 in
      (ih.0, omega (arith, ih.1), ih.2)
]
