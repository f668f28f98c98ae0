-- ===== src/Pmm/Search.antt =====
-- The two searches of pmm.c: what a found page or run is, and what it means that none is found.
use lufira_os.Base.{
  ℕ, zero, suc, ◌+◌, ◌-◌, ◌≤◌, ◌<◌, ◌≡◌, ◌≢◌, Bool, true, false, Option, none, some, List, arith,
  ◌==◌, if◌then◌else◌, leb, Bool-cases, inl, inr,
}
use lufira_os.Pmm.{bitmap_test, find_clear, find_run}

-- What `find_clear` promises of the `n` pages from `i` on: the first clear one, or all are set.
abbrev pub Found : List ℕ → ℕ → ℕ → Option ℕ → Type 0
Found bm n i (some p) =
    (i ≤ p)
    × (p < i + n)
    × (bitmap_test bm p ≡ false)
    × ((q : ℕ) → i ≤ q → q < p → bitmap_test bm q ≡ true)
Found bm n i none = (q : ℕ) → i ≤ q → q < i + n → bitmap_test bm q ≡ true

-- From the rest of the run to the whole run, where the first page is set.
Found-cons :
    (bm : List ℕ) (n i : ℕ) (r : Option ℕ)
    → bitmap_test bm i ≡ true
    → Found bm n (i + 1) r
    → Found bm (suc n) i r
Found-cons bm n i none t f = λ q lo hi. elim (Bool-cases (i == q)) [
  | inl e ↦ ground arith
  | inr e ↦ f q (ground arith) (omega arith)
]
Found-cons bm n i (some p) t f = (
  omega arith,
  omega arith,
  f.2,
  λ q lo hi. elim (Bool-cases (i == q)) [ inl e ↦ ground arith | inr e ↦ f.3 q (ground arith) hi ],
)

pub find_clear-Found : (bm : List ℕ) (n i : ℕ) → Found bm n i (find_clear bm n i)
unfolding find_clear
find_clear-Found bm zero i = λ q lo hi. absurd (omega arith)
find_clear-Found bm (suc n) i = elim (Bool-cases (bitmap_test bm i)) [
  | inl t ↦ rw t (Found-cons bm n i (find_clear bm n (i + 1)) t (find_clear-Found bm n (i + 1)))
  | inr f ↦ rw f (omega arith, omega arith, f, λ q lo hi. absurd (omega arith))
]

-- The `count` pages from `p` on are clear.
abbrev pub ClearRun : List ℕ → ℕ → ℕ → Type 0
ClearRun bm count p = (q : ℕ) → p ≤ q → q < p + count → bitmap_test bm q ≡ false

-- What `find_run` promises over the pages below `top`: a clear run of `count` pages, or there is
-- no such run.
abbrev pub FoundRun : List ℕ → ℕ → ℕ → Option ℕ → Type 0
FoundRun bm count top (some p) = (p + count ≤ top) × ClearRun bm count p
FoundRun bm count top none = (p : ℕ) → p + count ≤ top → ¬ ClearRun bm count p

-- The loop's invariant at page `i`: the last `len` pages, from `start` on, are clear, the page
-- before them is set, and no clear run of `count` pages ends at or before `i`.
record Running (bm : List ℕ) (count i start len : ℕ) : Type 0 where
  short : len < count
  fits : len ≤ i
  ends : 0 < len → start + len ≡ i
  clear : (q : ℕ) → i ≤ q + len → q < i → bitmap_test bm q ≡ false
  edge : len < i → bitmap_test bm (i - len - 1) ≡ true
  none_yet : (p : ℕ) → p + count ≤ i → ¬ ClearRun bm count p

contradiction : {b : Bool} → b ≡ true → b ≡ false → ⊥
contradiction p q = cc

module _ (bm : List ℕ) (count i start len : ℕ) (v : Running bm count i start len) where
  -- A set page ends the run.
  Running-set : bitmap_test bm i ≡ true → Running bm count (i + 1) start 0
  Running-set t = record {
    short = omega (arith, v.short);
    fits = omega arith;
    ends = λ h. absurd (omega arith);
    clear = λ q lo hi. absurd (omega arith);
    edge = λ h. let e : i + 1 - 0 - 1 ≡ i = omega arith in rw e t;
    none_yet = λ p h run. elim (Bool-cases (leb (p + count) i)) [
      | inl le ↦ v.none_yet p (ground arith) run
      | inr gt ↦ contradiction t (run i (ground (arith, v.short)) (ground arith))
    ];
  }

  -- A clear page makes it longer by one, if it is still too short.
  Running-clear :
      bitmap_test bm i ≡ false
      → len + 1 ≢ count
      → Running bm count (i + 1) (if len == 0 then i else start) (len + 1)
  Running-clear f ne = record {
    short = omega (arith, v.short);
    fits = omega (arith, v.fits);
    ends = λ h. ground (arith, v.ends);
    clear = λ q lo hi. elim (Bool-cases (q == i)) [
      | inl e ↦ ground arith
      | inr e ↦ v.clear q (omega arith) (ground arith)
    ];
    edge = λ h.
        let e : i + 1 - (len + 1) - 1 ≡ i - len - 1 = omega arith in rw e (v.edge (omega arith));
    none_yet = λ p h run. elim (Bool-cases (leb (p + count) i)) [
      | inl le ↦ v.none_yet p (ground arith) run
      | inr gt ↦
          contradiction (v.edge (ground (arith, v.short)))
            (run (i - len - 1) (ground (arith, v.short)) (ground (arith, v.short)))
    ];
  }

  -- The run that is long enough.
  Running_found :
      (n : ℕ)
      → bitmap_test bm i ≡ false
      → len + 1 ≡ count
      → FoundRun bm count (i + suc n) (some (if len == 0 then i else start))
  Running_found n f e = (
    ground (arith, v.ends),
    λ q lo hi. elim (Bool-cases (q == i)) [
      | inl e' ↦ ground arith
      | inr e' ↦ v.clear q (ground (arith, v.ends)) (ground (arith, v.ends))
    ],
  )

find_run_from :
    (bm : List ℕ) (count n i start len top : ℕ)
    → i + n ≡ top
    → Running bm count i start len
    → FoundRun bm count top (find_run bm count n i start len)
unfolding find_run
find_run_from bm count zero i start len top e v = λ p h. v.none_yet p (omega arith)
find_run_from bm count (suc n) i start len top e v = elim (Bool-cases (bitmap_test bm i)) [
  | inl t ↦ rw t (
      find_run_from bm count n (i + 1) start 0 top (omega arith)
        (Running-set bm count i start len v t))
  | inr f ↦ elim (Bool-cases (len + 1 == count)) [
    | inl l ↦ rw (f, l, ← e) (Running_found bm count i start len v n f (ground arith))
    | inr l ↦
        rw (f, l)
          (find_run_from bm count n (i + 1) (if len == 0 then i else start) (len + 1) top
            (omega arith) (Running-clear bm count i start len v f (ground arith)))
  ]
]

pub find_run-FoundRun :
    (bm : List ℕ) (count top : ℕ) → 0 < count → FoundRun bm count top (find_run bm count top 0 0 0)
find_run-FoundRun bm count top h = find_run_from bm count top 0 0 0 top (omega arith) (record {
  short = h;
  fits = omega arith;
  ends = λ z. absurd (omega arith);
  clear = λ q lo hi. absurd (omega arith);
  edge = λ z. absurd (omega arith);
  none_yet = λ p le run. absurd (omega arith);
})
