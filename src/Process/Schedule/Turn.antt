-- ===== src/Process/Schedule/Turn.antt =====
-- The ring of processes under stores, and which processes are in it.
use lufira_os.Base.{
  ℕ, ◌≡◌, ◌≢◌, refl, sym, ap, ap₂, subst, ◌∙◌, none, some, List, [], ◌∷◌, ◌++◌, append_assoc, ◌==◌,
  if◌then◌else◌, Bool-cases, Option-cases, inl, inr, ◌⊎◌,
}
use lufira_os.Process.{Process, find, update}
use lufira_os.Process.Table.{==_ne, ==_not, KeepsPid, Absent, Unique}
use lufira_os.Process.Schedule.{behind, up_to}
use lufira_os.Process.Schedule.Ring.{
  All-join, ring_from, split_append, Unique-ring_from, Unique-split, around, ring_from_split,
  All-append,
}

-- Stores act on a ring as they act on the list.
pub update-append :
    (pid : ℕ) (f : Process → Process) (xs ys : List Process)
    → update pid f (xs ++ ys) ≡ update pid f xs ++ update pid f ys
unfolding update
update-append pid f [] ys = refl
update-append pid f (x ∷ xs) ys =
    ap (λ r. (if x.pid == pid then f x else x) ∷ r) (update-append pid f xs ys)

pub pid-update :
    (p : Process) (pid : ℕ) (f : Process → Process)
    → KeepsPid f
    → (if p.pid == pid then f p else p).pid ≡ p.pid
pid-update p pid f k = elim (Bool-cases (p.pid == pid)) [ inl e ↦ rw e (k p) | inr e ↦ rw e refl ]

behind-update :
    (at pid : ℕ) (f : Process → Process) (ps : List Process)
    → KeepsPid f
    → behind at (update pid f ps) ≡ update pid f (behind at ps)
unfolding behind update
behind-update at pid f [] k = refl
behind-update at pid f (p ∷ ps) k = elim (Bool-cases (p.pid == at)) [
  | inl e ↦ rw (pid-update p pid f k, e) refl
  | inr e ↦ rw (pid-update p pid f k, e) (behind-update at pid f ps k)
]

up_to-update :
    (at pid : ℕ) (f : Process → Process) (ps : List Process)
    → KeepsPid f
    → up_to at (update pid f ps) ≡ update pid f (up_to at ps)
unfolding up_to update
up_to-update at pid f [] k = refl
up_to-update at pid f (p ∷ ps) k = elim (Bool-cases (p.pid == at)) [
  | inl e ↦ rw (pid-update p pid f k, e) refl
  | inr e ↦
      rw (pid-update p pid f k, e)
        (ap (λ r. (if p.pid == pid then f p else p) ∷ r) (up_to-update at pid f ps k))
]

pub ring_from-update :
    (at pid : ℕ) (f : Process → Process) (ps : List Process)
    → KeepsPid f
    → ring_from (update pid f ps) at ≡ update pid f (ring_from ps at)
unfolding ring_from
ring_from-update at pid f ps k =
    ap₂ (λ a b. a ++ b) (behind-update at pid f ps k) (up_to-update at pid f ps k)
    ∙ sym (update-append pid f (behind at ps) (up_to at ps))

pub update-cons_other :
    (pid : ℕ) (f : Process → Process) (p : Process) (ps : List Process)
    → p.pid ≢ pid
    → update pid f (p ∷ ps) ≡ p ∷ update pid f ps
unfolding update
update-cons_other pid f p ps ne = rw (==_ne p.pid pid ne) refl

-- The last of the ring is the process it is seen from.
ring_last :
    (ps : List Process) (c : Process)
    → Unique ps
    → find ps c.pid ≡ some c
    → (l : List Process) × (ring_from ps c.pid ≡ l ++ (c ∷ []))
ring_last ps c u h =
    let (xs, ys, e) = around ps c.pid c h in
    let away : Absent c.pid xs = (Unique-split xs ys c (subst Unique e u)).0 in
    (
      ys ++ xs,
      ap (λ qs. ring_from qs c.pid) e
          ∙ ring_from_split xs ys c away
          ∙ sym (append_assoc ys xs (c ∷ [])),
    )

Absent-behind : (ps : List Process) (at pid : ℕ) → Absent pid ps → Absent pid (behind at ps)
unfolding behind
Absent-behind [] at pid a = tt
Absent-behind (p ∷ ps) at pid a = elim (Bool-cases (p.pid == at)) [
  | inl e ↦ rw e (a.1)
  | inr e ↦ rw e (Absent-behind ps at pid a.1)
]

Absent-up_to : (ps : List Process) (at pid : ℕ) → Absent pid ps → Absent pid (up_to at ps)
unfolding up_to
Absent-up_to [] at pid a = tt
Absent-up_to (p ∷ ps) at pid a = elim (Bool-cases (p.pid == at)) [
  | inl e ↦ rw e (a.0, tt)
  | inr e ↦ rw e (a.0, Absent-up_to ps at pid a.1)
]

Absent-find : (ps : List Process) (pid : ℕ) → find ps pid ≡ none → Absent pid ps
unfolding find
Absent-find [] pid h = tt
Absent-find (p ∷ ps) pid h = elim (Bool-cases (p.pid == pid)) [
  | inl e ↦ let bad : some p ≡ none = rw e at h in absurd cc
  | inr e ↦ (==_not p.pid pid e, Absent-find ps pid (rw e at h))
]

pub found_or_Absent :
    (ps : List Process) (pid : ℕ) → ((p : Process) × (find ps pid ≡ some p)) ⊎ Absent pid ps
found_or_Absent ps pid = elim (Option-cases (find ps pid)) [
  | inl h ↦ inr (Absent-find ps pid h)
  | inr (p, h) ↦ inl (p, h)
]

-- Each process of the ring is in the list.
pub find-ring_from :
    (ps b1 b2 : List Process) (at : ℕ) (q : Process)
    → ring_from ps at ≡ b1 ++ (q ∷ b2)
    → (q' : Process) × (find ps q.pid ≡ some q')
unfolding ring_from
find-ring_from ps b1 b2 at q e = elim (found_or_Absent ps q.pid) [
  | inl f ↦ f
  | inr a ↦
      let all : Absent q.pid (ring_from ps at) =
        All-join (λ (p : Process). p.pid ≢ q.pid) (behind at ps) (up_to at ps)
          (Absent-behind ps at q.pid a) (Absent-up_to ps at q.pid a) in
      let here =
        (All-append (λ (p : Process). p.pid ≢ q.pid) b1 (q ∷ b2) (subst (Absent q.pid) e all)).1 in
      absurd (here.0 refl)
]

-- A process with another behind it in the ring is not the one the ring is seen from.
pub ring_from_not_last :
    (ps b1 b2 : List Process) (c q p : Process)
    → Unique ps
    → find ps c.pid ≡ some c
    → ring_from ps c.pid ≡ b1 ++ (q ∷ p ∷ b2)
    → q.pid ≢ c.pid
ring_from_not_last ps b1 b2 c q p u h e =
    let (l, f) = ring_last ps c u h in
    let u' : Unique (l ++ (c ∷ [])) = subst Unique f (Unique-ring_from ps c u h) in
    let away : Absent c.pid l = (Unique-split l [] c u').0 in
    elim (split_append l (c ∷ []) b1 (p ∷ b2) q (sym f ∙ e)) [
      | inl (r, g, k) ↦
          (All-append (λ (x : Process). x.pid ≢ c.pid) b1 (q ∷ r) (subst (Absent c.pid) g away)).1.0
      | inr ([], g, k) ↦ absurd cc
      | inr (x ∷ [], g, k) ↦ absurd cc
      | inr (x ∷ y ∷ m, g, k) ↦ absurd cc
    ]
