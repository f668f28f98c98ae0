-- ===== src/Heap/Alloc.antt =====
-- `kmalloc` on the list of blocks: first fit, and the block that is carved.
use lufira_os.Base.{
  ℕ, zero, suc, ◌+◌, ◌-◌, ◌%◌, ◌≤◌, ◌<◌, ◌≡◌, ◌≢◌, refl, sym, subst, ◌∙◌, Bool, true, false, ◌&&◌,
  not, some, List, [], ◌∷◌, inl, inr, arith, length, leb, if◌then◌else◌, Bool-cases,
}
use lufira_os.Heap.{
  Memory, magic_free, magic_used, header_size, u32, write, set_prev, set_magic, find_free_block,
  cut_block, split_block, take_block,
}
use lufira_os.Heap.Store.{write_self, write_ne, set_prev_self, set_prev_ne, set_prev_other}
use lufira_os.Heap.Chain.{
  Block, magic_of, link, header_of, Chain, Chain-le, Chain-frame, Chain-prev, link-elsewhere,
}

abbrev pub fits : ℕ → Block → Bool
fits n b = not b.used && leb n b.size

-- The block that is handed out, and the free rest where that is large enough to stand alone.
abbrev pub carve : ℕ → Block → List Block → List Block
carve n b bs =
    if leb (n + header_size + 32) b.size
    then record { size = n; used = true } ∷ record { size = b.size - n; used = false } ∷ bs
    else record { size = b.size; used = true } ∷ bs

-- The list after the first free block of `n` bytes or more is taken.
unfoldable pub first_fit : ℕ → List Block → List Block
first_fit n [] = []
first_fit n (b ∷ bs) = if fits n b then carve n b bs else b ∷ first_fit n bs

-- The address of that block, the list starting at `p`; 0 if there is none.
unfoldable pub fit_addr : ℕ → ℕ → List Block → ℕ
fit_addr n p [] = 0
fit_addr n p (b ∷ bs) = if fits n b then p else fit_addr n (p + b.size) bs

-- `find_free_block` finds it, whenever the fuel exceeds the number of blocks.
pub find_free_block_lem :
    (fuel n : ℕ) (mem : Memory) (prev p end : ℕ) (bs : List Block)
    → 0 < p
    → length bs < fuel
    → Chain mem prev p end bs
    → find_free_block fuel mem (link p bs) n ≡ some (fit_addr n p bs)
unfolding find_free_block fit_addr
find_free_block_lem zero n mem prev p end bs z h c = absurd (omega arith)
find_free_block_lem (suc fuel) n mem prev p end [] z h c = refl
find_free_block_lem (suc fuel) n mem prev p end (b ∷ bs) z h c =
    let rest =
      find_free_block_lem fuel n mem p (p + b.size) end bs (omega arith) (omega arith) c.2 in
    elim (Bool-cases b.used) [
      | inl u ↦ rw (c.0) (ground (arith, rest))
      | inr u ↦ rw (c.0) (ground (arith, rest))
    ]

-- Where a block of `n` bytes and a rest fit, `cut_block` carves the block at `p` in two.
module _ (n : ℕ) (mem : Memory) (prev p end : ℕ) (b : Block) (bs : List Block) (pos : 0 < p)
    (large : header_size ≤ n) (room : n + header_size + 32 ≤ b.size) (small : end < p + u32)
    (c : Chain mem prev p end (b ∷ bs)) where
  size-le : p + b.size ≤ end
  size-le = Chain-le mem p (p + b.size) end bs c.2

  -- The memory of `cut_block` before its last store.
  mem₁ : Memory
  mem₁ =
      write mem (p + n)
        (record { magic = magic_free; size = b.size - n; next = link (p + b.size) bs; prev = p })

  mem₂ : Memory
  mem₂ = set_prev mem₁ (link (p + b.size) bs) (p + n)

  past : link (p + b.size) bs ≢ p
  past = ground arith

  past_new : link (p + b.size) bs ≢ p + n
  past_new = ground arith

  mem₁_first : mem₁ p ≡ header_of prev p b bs
  unfolding mem₁
  mem₁_first = write_ne mem (p + n) p _ (omega arith) ∙ c.0

  mem₂_first : mem₂ p ≡ header_of prev p b bs
  unfolding mem₂
  mem₂_first = set_prev_ne mem₁ _ (p + n) p past ∙ mem₁_first

  cut_lem :
      cut_block mem p n
      ≡ write mem₂ p (record { magic = magic_of b.used; size = n; next = p + n; prev = prev })
  unfolding cut_block mem₁ mem₂
  cut_lem = let e : n % u32 ≡ n = omega (arith, size-le) in rw (c.0, mem₁_first, mem₂_first, e)

  -- The first of the two headers, the second, and what is unchanged.
  cut_first :
      cut_block mem p n p ≡ record { magic = magic_of b.used; size = n; next = p + n; prev = prev }
  cut_first = rw cut_lem (write_self mem₂ p _)

  cut_second :
      cut_block mem p n (p + n)
      ≡ header_of p (p + n) (record { size = b.size - n; used = false }) bs
  unfolding mem₂ mem₁
  cut_second =
      let e : p + n + (b.size - n) ≡ p + b.size = omega arith in
      rw
        (
          cut_lem,
          write_ne mem₂ p (p + n) _ (omega arith),
          set_prev_ne mem₁ _ (p + n) (p + n) past_new,
          e,
        )
        (write_self mem (p + n) _)

  cut_ne : (q : ℕ) → p ≢ q → p + n ≢ q → p + b.size ≢ q → cut_block mem p n q ≡ mem q
  unfolding mem₂ mem₁
  cut_ne q a a' a'' =
      rw
        (
          cut_lem,
          write_ne mem₂ p q _ a,
          set_prev_other mem₁ _ (p + n) q (link-elsewhere (p + b.size) q bs a''),
        )
        (write_ne mem (p + n) q _ a')

  cut_next :
      link (p + b.size) bs ≢ 0
      → cut_block mem p n (link (p + b.size) bs)
        ≡ record (mem (link (p + b.size) bs)) { prev = p + n }
  unfolding mem₂ mem₁
  cut_next z = rw (
    cut_lem,
    write_ne mem₂ p (link (p + b.size) bs) _ (λ e. past (sym e)),
    set_prev_self mem₁ (link (p + b.size) bs) (p + n) z,
    write_ne mem (p + n) (link (p + b.size) bs) _ (λ e. past_new (sym e)),
  )

  -- The blocks behind.
  cut_rest : Chain (cut_block mem p n) (p + n) (p + b.size) end bs
  cut_rest =
      Chain-prev mem (cut_block mem p n) p (p + n) (p + b.size) end bs
        (λ q h. cut_ne q (omega arith) (omega arith) (omega arith)) (omega arith) cut_next c.2

  cut_parts : List Block
  cut_parts = record { size = n; used = b.used } ∷ record { size = b.size - n; used = false } ∷ bs

  cut-Chain : Chain (cut_block mem p n) prev p end cut_parts
  unfolding cut_parts
  cut-Chain =
      let e : p + n + (b.size - n) ≡ p + b.size = omega arith in
      (cut_first, large, (cut_second, omega arith, rw e cut_rest))

-- The block that was found becomes the first of the carved list, and nothing below it changes.
abbrev pub Carved : Memory → Memory → (prev p end : ℕ) → List Block → Type 0
Carved mem mem' prev p end bs = Chain mem' prev p end bs × ((q : ℕ) → q < p → mem' q ≡ mem q)

pub Carved-at :
    (mem mem' mem'' : Memory) (prev p end : ℕ) (bs bs' : List Block)
    → mem'' ≡ mem'
    → bs' ≡ bs
    → Carved mem mem' prev p end bs
    → Carved mem mem'' prev p end bs'
Carved-at mem mem' mem'' prev p end bs bs' e e' c =
    subst (λ m. Carved mem m prev p end bs') (sym e)
      (subst (λ l. Carved mem mem' prev p end l) (sym e') c)

pub set_magic_at :
    (mem : Memory) (prev p end m : ℕ) (b : Block) (u : Bool) (bs : List Block)
    → m ≡ magic_of u
    → Chain mem prev p end (b ∷ bs)
    → Carved mem (set_magic mem p m) prev p end (record { size = b.size; used = u } ∷ bs)
set_magic_at mem prev p end m b u bs e c = (
  (
    write_self mem p _ ∙ rw (c.0, e),
    c.1,
    Chain-frame mem _ p (p + b.size) end bs (λ q h. write_ne mem p q _ (omega (arith, c.1))) c.2,
  ),
  λ q h. write_ne mem p q _ (omega arith),
)

take_block-Carved :
    (n : ℕ) (mem : Memory) (prev p end : ℕ) (b : Block) (bs : List Block)
    → 0 < p
    → header_size ≤ n
    → end < p + u32
    → fits n b ≡ true
    → Chain mem prev p end (b ∷ bs)
    → Carved mem (take_block mem p n) prev p end (carve n b bs)
unfolding take_block split_block cut_parts
take_block-Carved n mem prev p end b bs pos large small f c =
    elim (Bool-cases (leb (n + header_size + 32) b.size)) [
      | inl room ↦
          let r : n + header_size + 32 ≤ b.size = ground arith in
          let cut =
            set_magic_at (cut_block mem p n) prev p end magic_used
              (record { size = n; used = b.used }) true
              (record { size = b.size - n; used = false } ∷ bs) refl
              (cut-Chain n mem prev p end b bs pos large r small c) in
          let room' : leb (n + header_size + 32) (mem p).size ≡ true = rw (c.0) room in
          rw (room', room)
            (
              cut.0,
              λ q h.
                  cut.1 q h
                  ∙ cut_ne n mem prev p end b bs pos large r small c q (omega arith) (omega arith)
                      (omega arith),
            )
      | inr no_room ↦ rw (c.0, no_room) (set_magic_at mem prev p end magic_used b true bs refl c)
    ]

pub link-first_fit : (n q : ℕ) (bs : List Block) → link q (first_fit n bs) ≡ link q bs
unfolding first_fit
link-first_fit n q [] = refl
link-first_fit n q (b ∷ bs) = ground arith

-- The whole list, from a found block on.
pub first_fit-Carved :
    (n : ℕ) (mem : Memory) (prev p end : ℕ) (bs : List Block)
    → 0 < p
    → header_size ≤ n
    → end < p + u32
    → fit_addr n p bs ≢ 0
    → Chain mem prev p end bs
    → Carved mem (take_block mem (fit_addr n p bs) n) prev p end (first_fit n bs)
unfolding fit_addr first_fit
first_fit-Carved n mem prev p end [] pos large small f c = absurd (f refl)
first_fit-Carved n mem prev p end (b ∷ bs) pos large small f c = elim (Bool-cases (fits n b)) [
  | inl y ↦ rw y (take_block-Carved n mem prev p end b bs pos large small y c)
  | inr no_fit ↦
      let f' = rw no_fit at f in
      let mem' = take_block mem (fit_addr n (p + b.size) bs) n in
      let ih =
        first_fit-Carved n mem p (p + b.size) end bs (omega arith) large (omega arith) f' c.2 in
      rw no_fit (
        (ih.1 p (omega (arith, c.1)) ∙ rw (c.0, link-first_fit n (p + b.size) bs), c.1, ih.0),
        λ q h. ih.1 q (omega arith),
      )
]
