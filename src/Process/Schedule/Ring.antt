-- ===== src/Process/Schedule/Ring.antt =====
-- Turning the ring of processes: the process that is chosen comes last, and those behind it first.
use lufira_os.Base.{
  ℕ, ◌≡◌, ◌≢◌, refl, sym, ap, ap₂, subst, ◌∙◌, some, List, [], ◌∷◌, ◌++◌, append_assoc, append-nil,
  ◌==◌, Bool-cases, inl, inr, ◌⊎◌, All,
}
use lufira_os.Process.{Process, find}
use lufira_os.Process.Table.{==_self, ==_ne, Absent, Unique}
use lufira_os.Process.Schedule.{behind, up_to}

-- A process in two lists joined stands in one of them.
pub split_append :
    (xs ys b1 b2 : List Process) (q : Process)
    → xs ++ ys ≡ b1 ++ (q ∷ b2)
    → ((r : List Process) × (xs ≡ b1 ++ (q ∷ r)) × (b2 ≡ r ++ ys))
      ⊎ ((l : List Process) × (ys ≡ l ++ (q ∷ b2)) × (b1 ≡ xs ++ l))
split_append [] ys b1 b2 q e = inr (b1, e, refl)
split_append (x ∷ xs) ys [] b2 q e =
    let head : x ≡ q = cc in
    let tail : xs ++ ys ≡ b2 = cc in inl (xs, ap (λ p. p ∷ xs) head, sym tail)
split_append (x ∷ xs) ys (b ∷ b1) b2 q e =
    let head : x ≡ b = cc in
    let tail : xs ++ ys ≡ b1 ++ (q ∷ b2) = cc in
    elim (split_append xs ys b1 b2 q tail) [
      | inl (r, f, g) ↦ inl (r, ap₂ (λ p ps. p ∷ ps) head f, g)
      | inr (l, f, g) ↦ inr (l, f, ap₂ (λ p ps. p ∷ ps) (sym head) g)
    ]

pub All-append {κ} :
    (P : Process → Type κ) (xs ys : List Process) → All P (xs ++ ys) → All P xs × All P ys
All-append P [] ys a = (tt, a)
All-append P (x ∷ xs) ys a = let (h, t) = All-append P xs ys a.1 in ((a.0, h), t)

pub All-join {κ} :
    (P : Process → Type κ) (xs ys : List Process) → All P xs → All P ys → All P (xs ++ ys)
All-join P [] ys a b = b
All-join P (x ∷ xs) ys a b = (a.0, All-join P xs ys a.1 b)

-- Of a list without a pid twice: the pid of a process is absent before it and behind it.
pub Unique-split :
    (xs ys : List Process) (q : Process)
    → Unique (xs ++ (q ∷ ys))
    → Absent q.pid xs × Absent q.pid ys
Unique-split [] ys q u = (tt, u.0)
Unique-split (x ∷ xs) ys q u =
    let (before, after) = Unique-split xs ys q u.1 in
    let (_, here) = All-append (λ (p : Process). p.pid ≢ x.pid) xs (q ∷ ys) u.0 in
    ((λ h. here.0 (sym h), before), after)

pub Unique-append : (xs ys : List Process) → Unique (xs ++ ys) → Unique xs × Unique ys
Unique-append [] ys u = (tt, u)
Unique-append (x ∷ xs) ys u =
    let (a, b) = Unique-append xs ys u.1 in
    let (away, _) = All-append (λ (p : Process). p.pid ≢ x.pid) xs ys u.0 in ((away, a), b)

Unique-insert :
    (xs ys : List Process) (q : Process)
    → Unique (xs ++ ys)
    → Absent q.pid (xs ++ ys)
    → Unique (xs ++ (q ∷ ys))
Unique-insert [] ys q u a = (a, u)
Unique-insert (x ∷ xs) ys q u a =
    let (l, r) = All-append (λ (p : Process). p.pid ≢ x.pid) xs ys u.0 in
    (
      All-join (λ (p : Process). p.pid ≢ x.pid) xs (q ∷ ys) l (λ h. a.0 (sym h), r),
      Unique-insert xs ys q u.1 a.1,
    )

pub Unique-swap : (xs ys : List Process) → Unique (xs ++ ys) → Unique (ys ++ xs)
Unique-swap [] ys u = subst Unique (sym (append-nil ys)) u
Unique-swap (x ∷ xs) ys u =
    let (l, r) = All-append (λ (p : Process). p.pid ≢ x.pid) xs ys u.0 in
    Unique-insert ys xs x (Unique-swap xs ys u.1)
      (All-join (λ (p : Process). p.pid ≢ x.pid) ys xs r l)

behind_split :
    (xs ys : List Process) (q : Process) → Absent q.pid xs → behind q.pid (xs ++ (q ∷ ys)) ≡ ys
unfolding behind
behind_split [] ys q a = rw (==_self q.pid) refl
behind_split (x ∷ xs) ys q a = rw (==_ne x.pid q.pid a.0) (behind_split xs ys q a.1)

up_to_split :
    (xs ys : List Process) (q : Process)
    → Absent q.pid xs
    → up_to q.pid (xs ++ (q ∷ ys)) ≡ xs ++ (q ∷ [])
unfolding up_to
up_to_split [] ys q a = rw (==_self q.pid) refl
up_to_split (x ∷ xs) ys q a = rw (==_ne x.pid q.pid a.0) (ap (λ r. x ∷ r) (up_to_split xs ys q a.1))

-- The list around a process of it.
pub around :
    (ps : List Process) (pid : ℕ) (c : Process)
    → find ps pid ≡ some c
    → (xs ys : List Process) × (ps ≡ xs ++ (c ∷ ys))
unfolding find
around [] pid c h = absurd cc
around (p ∷ ps) pid c h = elim (Bool-cases (p.pid == pid)) [
  | inl e ↦
      let found : some p ≡ some c = rw e at h in
      let same : p ≡ c = cc in ([], ps, ap (λ r. r ∷ ps) same)
  | inr e ↦ let (xs, ys, f) = around ps pid c (rw e at h) in (p ∷ xs, ys, ap (λ r. p ∷ r) f)
]

-- The ring seen from a process `q` of the list.
unfoldable pub ring_from : List Process → ℕ → List Process
ring_from ps pid = behind pid ps ++ up_to pid ps

pub ring_from_split :
    (xs ys : List Process) (q : Process)
    → Absent q.pid xs
    → ring_from (xs ++ (q ∷ ys)) q.pid ≡ ys ++ (xs ++ (q ∷ []))
unfolding ring_from
ring_from_split xs ys q a = rw (behind_split xs ys q a, up_to_split xs ys q a) refl

pub Unique-ring_from :
    (ps : List Process) (c : Process)
    → Unique ps
    → find ps c.pid ≡ some c
    → Unique (ring_from ps c.pid)
Unique-ring_from ps c u h =
    let (xs, ys, e) = around ps c.pid c h in
    let u' : Unique (xs ++ (c ∷ ys)) = subst Unique e u in
    let joined : xs ++ (c ∷ ys) ≡ xs ++ (c ∷ []) ++ ys = sym (append_assoc xs (c ∷ []) ys) in
    subst (λ qs. Unique (ring_from qs c.pid)) (sym e)
      (subst Unique (sym (ring_from_split xs ys c (Unique-split xs ys c u').0))
        (Unique-swap (xs ++ (c ∷ [])) ys (subst Unique joined u')))

-- When `q` follows `b1` in the ring of `c` and is not `c`, then the ring of `q` starts with what
-- follows `q`, and `b1` and `q` come last.
pub turn :
    (ps b1 b2 : List Process) (c q : Process)
    → Unique ps
    → find ps c.pid ≡ some c
    → ring_from ps c.pid ≡ b1 ++ (q ∷ b2)
    → q.pid ≢ c.pid
    → ring_from ps q.pid ≡ b2 ++ (b1 ++ (q ∷ []))
turn ps b1 b2 c q u h e ne =
    let (xs, ys, f) = around ps c.pid c h in
    let u' : Unique (xs ++ (c ∷ ys)) = subst Unique f u in
    let e' : ys ++ (xs ++ (c ∷ [])) ≡ b1 ++ (q ∷ b2) =
      sym (ring_from_split xs ys c (Unique-split xs ys c u').0)
      ∙ ap (λ qs. ring_from qs c.pid) (sym f)
      ∙ e in
    elim (split_append ys (xs ++ (c ∷ [])) b1 b2 q e') [
      | inl (r, g, k) ↦
          let list : ps ≡ xs ++ (c ∷ b1) ++ (q ∷ r) =
            f ∙ ap (λ l. xs ++ (c ∷ l)) g ∙ sym (append_assoc xs (c ∷ b1) (q ∷ r)) in
          ap (λ l. ring_from l q.pid) list
          ∙ ring_from_split (xs ++ (c ∷ b1)) r q
              (Unique-split (xs ++ (c ∷ b1)) r q (subst Unique list u)).0
          ∙ ap (λ l. r ++ l) (append_assoc xs (c ∷ b1) (q ∷ []))
          ∙ sym (
              ap (λ l. l ++ (b1 ++ (q ∷ []))) k
              ∙ append_assoc r (xs ++ (c ∷ [])) (b1 ++ (q ∷ []))
              ∙ ap (λ l. r ++ l) (append_assoc xs (c ∷ []) (b1 ++ (q ∷ []))))
      | inr (l, g, k) ↦ elim (split_append xs (c ∷ []) l b2 q g) [
        | inl (r, g', k') ↦
            let list : ps ≡ l ++ (q ∷ (r ++ (c ∷ ys))) =
              f ∙ ap (λ m. m ++ (c ∷ ys)) g' ∙ append_assoc l (q ∷ r) (c ∷ ys) in
            ap (λ m. ring_from m q.pid) list
            ∙ ring_from_split l (r ++ (c ∷ ys)) q
                (Unique-split l (r ++ (c ∷ ys)) q (subst Unique list u)).0
            ∙ append_assoc r (c ∷ ys) (l ++ (q ∷ []))
            ∙ sym (
                ap₂ (λ a b. a ++ (b ++ (q ∷ []))) k' k
                ∙ append_assoc r (c ∷ []) (ys ++ l ++ (q ∷ []))
                ∙ ap (λ m. r ++ (c ∷ m)) (append_assoc ys l (q ∷ [])))
        | inr ([], g', k') ↦
            let same : c ≡ q = cc in absurd (ne (ap (λ (p : Process). p.pid) (sym same)))
        | inr (x ∷ [], g', k') ↦ absurd cc
        | inr (x ∷ y ∷ m, g', k') ↦ absurd cc
      ]
    ]
