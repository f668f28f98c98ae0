-- ===== src/Heap/Blocks.antt =====
-- Laws of the block lists alone: what first fit finds and keeps, and that releasing undoes it.
use mathlib.Core.Option.{some-injective}
use lufira_os.Base.{
  ℕ, ◌+◌, ◌-◌, ◌≤◌, ◌<◌, ◌≡◌, ◌≢◌, refl, ap, sym, ◌∙◌, Bool, true, false, ◌&&◌, not, none, some,
  List, [], ◌∷◌, inl, inr, arith, leb, ◌==◌, if◌then◌else◌, Bool-cases, All,
}
use lufira_os.Heap.{header_size}
use lufira_os.Heap.Chain.{Block}
use lufira_os.Heap.Alloc.{fits, carve, first_fit, fit_addr}
use lufira_os.Heap.Free.{absorb, block_at, release}

-- The bytes of the used and of the free blocks.
abbrev pub used_bytes : List Block → ℕ
used_bytes [] = 0
used_bytes (b ∷ bs) = (if b.used then b.size else 0) + used_bytes bs

abbrev pub free_bytes : List Block → ℕ
free_bytes [] = 0
free_bytes (b ∷ bs) = (if b.used then 0 else b.size) + free_bytes bs

-- No free block follows a free block.
abbrev pub starts_free : List Block → Bool
starts_free [] = false
starts_free (b ∷ bs) = not b.used

abbrev pub IsCoalesced : List Block → Type 0
IsCoalesced [] = Unit {0}
IsCoalesced (b ∷ bs) = ((b.used ≡ false → starts_free bs ≡ false) × IsCoalesced bs)

-- Every block has room for its header.
abbrev pub HasHeaders : List Block → Type 0
HasHeaders bs = All (λ (b : Block). header_size ≤ b.size) bs

-- First fit fails only where no free block is large enough.
pub fit_addr-zero :
    (n p : ℕ) (bs : List Block)
    → 0 < p
    → fit_addr n p bs ≡ 0
    → All (λ (b : Block). b.used ≡ false → b.size < n) bs
unfolding fit_addr
fit_addr-zero n p [] pos e = tt
fit_addr-zero n p (b ∷ bs) pos e = elim (Bool-cases (fits n b)) [
  | inl y ↦ absurd (omega (arith, rw y at e))
  | inr n' ↦ (λ u. ground arith, fit_addr-zero n (p + b.size) bs (omega arith) (rw n' at e))
]

pub fit_addr-le : (n p : ℕ) (bs : List Block) → fit_addr n p bs ≢ 0 → p ≤ fit_addr n p bs
unfolding fit_addr
fit_addr-le n p [] h = absurd (h refl)
fit_addr-le n p (b ∷ bs) h = elim (Bool-cases (fits n b)) [
  | inl y ↦ rw y (omega arith)
  | inr n' ↦ rw n' (omega (arith, fit_addr-le n (p + b.size) bs (rw n' at h)))
]

-- The block that is handed out: used, of the size that was asked for at least.
pub block_at-fit_addr :
    (n p : ℕ) (bs : List Block)
    → HasHeaders bs
    → fit_addr n p bs ≢ 0
    → (b : Block) × (block_at (fit_addr n p bs) p (first_fit n bs) ≡ some b)
      × (b.used ≡ true)
      × (n ≤ b.size)
unfolding block_at fit_addr first_fit
block_at-fit_addr n p [] hs h = absurd (h refl)
block_at-fit_addr n p (b ∷ bs) hs h = elim (Bool-cases (fits n b)) [
  | inl y ↦ elim (Bool-cases (leb (n + header_size + 32) b.size)) [
    | inl l ↦ (record { size = n; used = true }, rw (y, l) (ground arith), refl, omega arith)
    | inr l ↦ (record { size = b.size; used = true }, rw (y, l) (ground arith), refl, ground arith)
  ]
  | inr n' ↦
      let (d, e, u, s) = block_at-fit_addr n (p + b.size) bs hs.1 (rw n' at h) in
      let t : (p == fit_addr n (p + b.size) bs) ≡ false =
        ground (arith, fit_addr-le n (p + b.size) bs (rw n' at h)) in
      (d, rw (n', t) e, u, s)
]

-- Nothing is found below the list.
block_at_below : (x p : ℕ) (bs : List Block) → x < p → block_at x p bs ≡ none
unfolding block_at
block_at_below x p [] h = refl
block_at_below x p (b ∷ bs) h =
    let t : (p == x) ≡ false = ground arith in rw t (block_at_below x (p + b.size) bs (omega arith))

behind_carved :
    (x n p : ℕ) (d : Block) (ds : List Block) (b : Block)
    → fits n d ≡ true
    → header_size ≤ d.size
    → header_size ≤ n
    → (p == x) ≡ false
    → block_at x (p + d.size) ds ≡ some b
    → block_at x p (carve n d ds) ≡ some b
unfolding block_at
behind_carved x n p d ds b y hd large later e =
    elim (Bool-cases (leb (n + header_size + 32) d.size)) [
      | inl l ↦ elim (Bool-cases (p + n == x)) [
        | inl mid ↦
            let gone = block_at_below x (p + d.size) ds (ground arith) in
            absurd (let c = sym e ∙ gone in cc)
        | inr mid ↦
            let q : p + n + (d.size - n) ≡ p + d.size = ground arith in rw (l, later, mid, q) e
      ]
      | inr l ↦ rw (l, later) e
    ]

-- A used block stays where it is when another is handed out.
pub block_at-first_fit :
    (x n p : ℕ) (bs : List Block) (b : Block)
    → HasHeaders bs
    → b.used ≡ true
    → header_size ≤ n
    → block_at x p bs ≡ some b
    → block_at x p (first_fit n bs) ≡ some b
unfolding block_at first_fit
block_at-first_fit x n p [] b hs u large e = cc
block_at-first_fit x n p (d ∷ ds) b hs u large e = elim (Bool-cases (p == x)) [
  | inl here ↦
      let d_is : d ≡ b = some-injective _ _ (rw here at e) in
      let busy : fits n d ≡ false = ground (arith, ap (λ (t : Block). t.used) d_is) in
      rw (busy, here) (ap some d_is)
  | inr later ↦
      let e' = rw later at e in
      elim (Bool-cases (fits n d)) [
        | inl y ↦ rw y (behind_carved x n p d ds b y hs.0 large later e')
        | inr n' ↦ rw (n', later) (block_at-first_fit x n (p + d.size) ds b hs.1 u large e')
      ]
]

absorb_used : (b : Block) (bs : List Block) → starts_free bs ≡ false → absorb b bs ≡ b ∷ bs
absorb_used b [] f = refl
absorb_used b (n ∷ ns) f = let u : n.used ≡ true = ground arith in rw u

-- The block that is handed out first was free.
fit_first :
    (n p : ℕ) (bs : List Block)
    → 0 < p
    → HasHeaders bs
    → fit_addr n p bs ≡ p
    → starts_free bs ≡ true
unfolding fit_addr
fit_first n p [] pos hs e = absurd (omega arith)
fit_first n p (b ∷ bs) pos hs e = elim (Bool-cases (fits n b)) [
  | inl y ↦ ground arith
  | inr n' ↦
      let e' = rw n' at e in
      absurd (omega (arith, hs.0, fit_addr-le n (p + b.size) bs (omega (arith, hs.0))))
]

release_carved :
    (n p : ℕ) (b : Block) (bs : List Block)
    → fits n b ≡ true
    → starts_free bs ≡ false
    → release p p (carve n b bs) ≡ b ∷ bs
unfolding release
release_carved n p b bs y co =
    let t : (p == p) ≡ true = ground arith in
    let u : b.used ≡ false = ground arith in
    elim (Bool-cases (leb (n + header_size + 32) b.size)) [
      | inl l ↦
          let e : n + (b.size - n) ≡ b.size = ground arith in
          rw (l, t, e) (ap (λ v. record { size = b.size; used = v } ∷ bs) (sym u))
      | inr l ↦
          rw (l, t)
            (absorb_used (record { size = b.size; used = false }) bs co
              ∙ ap (λ v. record { size = b.size; used = v } ∷ bs) (sym u))
    ]

not_both :
    (q f : ℕ) (used next_free : Bool)
    → (f ≡ q → next_free ≡ true)
    → (used ≡ false → next_free ≡ false)
    → (q == f && not used) ≡ false
not_both q f true s a b = ground arith
not_both q f false true a b = absurd (let c = b refl in cc)
not_both q f false false a b = elim (Bool-cases (q == f)) [
  | inl e ↦ absurd (let c = a (ground arith) in cc)
  | inr e ↦ ground arith
]

-- In a coalesced heap, freeing the block that was just handed out restores the list.
pub release-first_fit :
    (n p : ℕ) (bs : List Block)
    → 0 < p
    → HasHeaders bs
    → IsCoalesced bs
    → fit_addr n p bs ≢ 0
    → release (fit_addr n p bs) p (first_fit n bs) ≡ bs
unfolding release first_fit fit_addr
release-first_fit n p [] pos hs co h = refl
release-first_fit n p (b ∷ bs) pos hs co h = elim (Bool-cases (fits n b)) [
  | inl y ↦ rw y (release_carved n p b bs y (co.0 (ground arith)))
  | inr n' ↦
      let h' = rw n' at h in
      let q : ℕ = p + b.size in
      let t : (p == fit_addr n q bs) ≡ false = ground (arith, hs.0, fit_addr-le n q bs h') in
      let not_next : (q == fit_addr n q bs && not b.used) ≡ false =
        not_both q (fit_addr n q bs) b.used (starts_free bs)
          (λ e. fit_first n q bs (omega arith) hs.1 e) co.0 in
      rw (n', t, not_next) (ap (◌∷◌ b) (release-first_fit n q bs (omega arith) hs.1 co.1 h'))
]

-- Both operations keep the heap coalesced.
starts_free-first_fit :
    (n : ℕ) (bs : List Block) → starts_free bs ≡ false → starts_free (first_fit n bs) ≡ false
unfolding first_fit
starts_free-first_fit n [] h = refl
starts_free-first_fit n (b ∷ bs) h = let t : fits n b ≡ false = ground arith in rw t h

pub first_fit-IsCoalesced :
    (n : ℕ) (bs : List Block) → IsCoalesced bs → IsCoalesced (first_fit n bs)
unfolding first_fit
first_fit-IsCoalesced n [] c = c
first_fit-IsCoalesced n (b ∷ bs) c = elim (Bool-cases (fits n b)) [
  | inl y ↦
      let f = c.0 (ground arith) in
      elim (Bool-cases (leb (n + header_size + 32) b.size)) [
        | inl l ↦ rw (y, l) (λ e. cc, (λ e. f, c.1))
        | inr l ↦ rw (y, l) (λ e. cc, c.1)
      ]
  | inr n' ↦ rw n' (λ u. starts_free-first_fit n bs (c.0 u), first_fit-IsCoalesced n bs c.1)
]

absorb-IsCoalesced :
    (b : Block) (bs : List Block) → b.used ≡ false → IsCoalesced bs → IsCoalesced (absorb b bs)
absorb-IsCoalesced b [] u c = (λ e. refl, tt)
absorb-IsCoalesced b (n ∷ ns) u c = elim (Bool-cases n.used) [
  | inl v ↦ rw v (λ e. refl, (λ e. cc, c.1))
  | inr v ↦ rw v (λ e. c.0 v, c.1)
]

starts_free-release :
    (x q : ℕ) (bs : List Block)
    → (q == x) ≡ false
    → starts_free bs ≡ false
    → starts_free (release x q bs) ≡ false
unfolding release
starts_free-release x q [] ne f = refl
starts_free-release x q (n ∷ ns) ne f =
    let t : (q + n.size == x && not n.used) ≡ false = ground arith in rw (ne, t) f

pub release-IsCoalesced :
    (x p : ℕ) (bs : List Block) → IsCoalesced bs → IsCoalesced (release x p bs)
unfolding release
release-IsCoalesced x p [] c = c
release-IsCoalesced x p (b ∷ bs) c = elim (Bool-cases (p == x)) [
  | inl here ↦ rw here (absorb-IsCoalesced (record { size = b.size; used = false }) bs refl c.1)
  | inr later ↦ elim (Bool-cases (p + b.size == x && not b.used)) [
    | inl next ↦
        rw (later, next)
          (absorb-IsCoalesced b (release x (p + b.size) bs) (ground arith)
            (release-IsCoalesced x (p + b.size) bs c.1))
    | inr far ↦
        rw (later, far)
          (
            λ u. starts_free-release x (p + b.size) bs (ground arith) (c.0 u),
            release-IsCoalesced x (p + b.size) bs c.1,
          )
  ]
]
