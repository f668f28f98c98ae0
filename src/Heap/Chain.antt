-- ===== src/Heap/Chain.antt =====
-- The heap as a list of blocks in address order, and the memory that represents such a list.
use lufira_os.Base.{
  ℕ, ◌+◌, ◌*◌, ◌≤◌, ◌<◌, ◌≡◌, ◌≢◌, refl, ◌∙◌, Bool, true, false, List, [], ◌∷◌, ◌⊎◌, inl, inr,
  arith, length,
}
use lufira_os.Heap.{Header, Memory, magic_free, magic_used, header_size}

pub record Block : Type 0 where
  pub size : ℕ
  pub used : Bool

abbrev pub magic_of : Bool → ℕ
magic_of true = magic_used
magic_of false = magic_free

-- The pointer to a block at `p`, if one follows.
abbrev pub link : ℕ → List Block → ℕ
link p [] = 0
link p (b ∷ bs) = p

-- The header of block `b` at `p`, after the block at `prev` and before `bs`.
abbrev pub header_of : (prev p : ℕ) → Block → List Block → Header
header_of prev p b bs = record {
  magic = magic_of b.used;
  size = b.size;
  next = link (p + b.size) bs;
  prev = prev;
}

-- The blocks `bs` tile the memory from `p` up to `end`, and their headers are linked both ways.
abbrev pub Chain : Memory → (prev p end : ℕ) → List Block → Type 0
Chain mem prev p end [] = p ≡ end
Chain mem prev p end (b ∷ bs) =
    (mem p ≡ header_of prev p b bs) × (header_size ≤ b.size) × Chain mem p (p + b.size) end bs

pub Chain-le : (mem : Memory) (prev p end : ℕ) (bs : List Block) → Chain mem prev p end bs → p ≤ end
Chain-le mem prev p end [] c = omega arith
Chain-le mem prev p end (b ∷ bs) c = omega (arith, Chain-le mem p (p + b.size) end bs c.2)

-- Every block takes a header's room at least, so a region holds only so many.
pub Chain-length :
    (mem : Memory) (prev p end : ℕ) (bs : List Block)
    → Chain mem prev p end bs
    → p + header_size * length bs ≤ end
Chain-length mem prev p end [] c = omega arith
Chain-length mem prev p end (b ∷ bs) c =
    omega (arith, c.1, Chain-length mem p (p + b.size) end bs c.2)

-- Stores below a chain leave it alone.
abbrev pub AgreeFrom : ℕ → Memory → Memory → Type 0
AgreeFrom p mem mem' = (q : ℕ) → p ≤ q → mem' q ≡ mem q

pub Chain-frame :
    (mem mem' : Memory) (prev p end : ℕ) (bs : List Block)
    → AgreeFrom p mem mem'
    → Chain mem prev p end bs
    → Chain mem' prev p end bs
Chain-frame mem mem' prev p end [] a c = c
Chain-frame mem mem' prev p end (b ∷ bs) a c = (
  a p (omega arith) ∙ c.0,
  c.1,
  Chain-frame mem mem' p (p + b.size) end bs (λ q h. a q (omega arith)) c.2,
)

-- The chain whose first block is told of another previous block.
pub Chain-prev :
    (mem mem' : Memory) (prev prev' p end : ℕ) (bs : List Block)
    → AgreeFrom (p + 1) mem mem'
    → 0 < p
    → (link p bs ≢ 0 → mem' (link p bs) ≡ record (mem (link p bs)) { prev = prev' })
    → Chain mem prev p end bs
    → Chain mem' prev' p end bs
Chain-prev mem mem' prev prev' p end [] a pos e c = c
Chain-prev mem mem' prev prev' p end (b ∷ bs) a pos e c = (
  e (omega arith) ∙ rw (c.0),
  c.1,
  Chain-frame mem mem' p (p + b.size) end bs (λ q h. a q (omega (arith, c.1))) c.2,
)

pub link-cases : (p : ℕ) (bs : List Block) → (link p bs ≡ 0) ⊎ (link p bs ≡ p)
link-cases p [] = inl refl
link-cases p (b ∷ bs) = inr refl

pub link-elsewhere : (p q : ℕ) (bs : List Block) → p ≢ q → (link p bs ≡ 0) ⊎ (link p bs ≢ q)
link-elsewhere p q [] n = inl refl
link-elsewhere p q (b ∷ bs) n = inr n
