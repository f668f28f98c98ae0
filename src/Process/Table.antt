-- ===== src/Process/Table.antt =====
-- The process list: stores and lookups, and lists without a pid twice.
use lufira_os.Base.{
  ℕ, suc, ◌+◌, ◌≡◌, ◌≢◌, refl, sym, ap, ◌∙◌, true, false, none, some, List, [], ◌∷◌, ◌==◌,
  Bool-cases, ◌⊎◌, inl, inr, arith, length, All,
}
use lufira_os.Process.{Process, find, update, remove}

pub ==_self : (n : ℕ) → (n == n) ≡ true
==_self n = ground arith

pub ==_eq : (m n : ℕ) → (m == n) ≡ true → m ≡ n
==_eq m n h = ground arith

pub ==_ne : (m n : ℕ) → m ≢ n → (m == n) ≡ false
==_ne m n h = ground arith

pub ==_not : (m n : ℕ) → (m == n) ≡ false → m ≢ n
==_not m n h e = ground arith

-- A store that keeps the pid.
abbrev pub KeepsPid : (Process → Process) → Type 0
KeepsPid f = (p : Process) → (f p).pid ≡ p.pid

pub find-cons_other :
    (p : Process) (ps : List Process) (pid : ℕ) → p.pid ≢ pid → find (p ∷ ps) pid ≡ find ps pid
unfolding find
find-cons_other p ps pid h = rw (==_ne p.pid pid h) refl

pub find-cons_same :
    (p : Process) (ps : List Process) (pid : ℕ) → p.pid ≡ pid → find (p ∷ ps) pid ≡ some p
unfolding find
find-cons_same p ps pid h = let e : (p.pid == pid) ≡ true = ground arith in rw e refl

pub pid-find : (ps : List Process) (pid : ℕ) (p : Process) → find ps pid ≡ some p → p.pid ≡ pid
unfolding find
pid-find [] pid p h = absurd cc
pid-find (q ∷ ps) pid p h = elim (Bool-cases (q.pid == pid)) [
  | inl e ↦
      let found : some q ≡ some p = rw e at h in
      let same : q ≡ p = cc in ap (λ (r : Process). r.pid) (sym same) ∙ ==_eq q.pid pid e
  | inr e ↦ pid-find ps pid p (rw e at h)
]

pub find-update_same :
    (ps : List Process) (pid : ℕ) (f : Process → Process) (p : Process)
    → KeepsPid f
    → find ps pid ≡ some p
    → find (update pid f ps) pid ≡ some (f p)
unfolding update find
find-update_same [] pid f p k h = absurd cc
find-update_same (q ∷ ps) pid f p k h = elim (Bool-cases (q.pid == pid)) [
  | inl e ↦
      let found : some q ≡ some p = rw e at h in
      let same : q ≡ p = cc in
      let e' : ((f q).pid == pid) ≡ true = ap (λ n. n == pid) (k q) ∙ e in
      rw (e, e') (ap (λ r. some (f r)) same)
  | inr e ↦ rw (e, e) (find-update_same ps pid f p k (rw e at h))
]

pub find-update_other :
    (ps : List Process) (pid other : ℕ) (f : Process → Process)
    → KeepsPid f
    → other ≢ pid
    → find (update pid f ps) other ≡ find ps other
unfolding update find
find-update_other [] pid other f k ne = refl
find-update_other (q ∷ ps) pid other f k ne = elim (Bool-cases (q.pid == pid)) [
  | inl e ↦
      let here : q.pid ≡ pid = ==_eq q.pid pid e in
      let away : (q.pid == other) ≡ false = ==_ne q.pid other (λ h. ne (sym h ∙ here)) in
      let away' : ((f q).pid == other) ≡ false = ap (λ n. n == other) (k q) ∙ away in
      rw (e, away, away') (find-update_other ps pid other f k ne)
  | inr e ↦ elim (Bool-cases (q.pid == other)) [
    | inl o ↦ rw (e, o) refl
    | inr o ↦ rw (e, o) (find-update_other ps pid other f k ne)
  ]
]

-- A process that is found after a store was there before.
pub find-update_back :
    (ps : List Process) (pid x : ℕ) (f : Process → Process) (q : Process)
    → KeepsPid f
    → find (update pid f ps) x ≡ some q
    → (p : Process) × (find ps x ≡ some p) × ((q ≡ p) ⊎ (q ≡ f p))
unfolding update find
find-update_back [] pid x f q k h = absurd cc
find-update_back (p ∷ ps) pid x f q k h = elim (Bool-cases (p.pid == pid)) [
  | inl e ↦ elim (Bool-cases (p.pid == x)) [
    | inl o ↦
        let o' : ((f p).pid == x) ≡ true = ap (λ n. n == x) (k p) ∙ o in
        let found : some (f p) ≡ some q = rw (e, o') at h in (p, rw o refl, inr cc)
    | inr o ↦
        let o' : ((f p).pid == x) ≡ false = ap (λ n. n == x) (k p) ∙ o in
        let (r, g, c) = find-update_back ps pid x f q k (rw (e, o') at h) in (r, rw o g, c)
  ]
  | inr e ↦ elim (Bool-cases (p.pid == x)) [
    | inl o ↦ let found : some p ≡ some q = rw (e, o) at h in (p, rw o refl, inl cc)
    | inr o ↦ let (r, g, c) = find-update_back ps pid x f q k (rw (e, o) at h) in (r, rw o g, c)
  ]
]

pub find-remove_same : (ps : List Process) (pid : ℕ) → find (remove pid ps) pid ≡ none
unfolding find remove
find-remove_same [] pid = refl
find-remove_same (q ∷ ps) pid = elim (Bool-cases (q.pid == pid)) [
  | inl e ↦ rw e (find-remove_same ps pid)
  | inr e ↦ rw (e, e) (find-remove_same ps pid)
]

pub find-remove_other :
    (ps : List Process) (pid other : ℕ) → other ≢ pid → find (remove pid ps) other ≡ find ps other
unfolding find remove
find-remove_other [] pid other ne = refl
find-remove_other (q ∷ ps) pid other ne = elim (Bool-cases (q.pid == pid)) [
  | inl e ↦
      let here : q.pid ≡ pid = ==_eq q.pid pid e in
      let away : (q.pid == other) ≡ false = ==_ne q.pid other (λ h. ne (sym h ∙ here)) in
      rw (e, away) (find-remove_other ps pid other ne)
  | inr e ↦ elim (Bool-cases (q.pid == other)) [
    | inl o ↦ rw (e, o) refl
    | inr o ↦ rw (e, o) (find-remove_other ps pid other ne)
  ]
]

-- No pid stands twice.
abbrev pub Absent : ℕ → List Process → Type 0
Absent pid ps = All (λ (p : Process). p.pid ≢ pid) ps

abbrev pub Unique : List Process → Type 0
Unique [] = Unit
Unique (p ∷ ps) = Absent p.pid ps × Unique ps

pub Absent-update :
    (ps : List Process) (pid other : ℕ) (f : Process → Process)
    → KeepsPid f
    → Absent other ps
    → Absent other (update pid f ps)
unfolding update
Absent-update [] pid other f k a = tt
Absent-update (q ∷ ps) pid other f k a = elim (Bool-cases (q.pid == pid)) [
  | inl e ↦ rw e (λ h. a.0 (sym (k q) ∙ h), Absent-update ps pid other f k a.1)
  | inr e ↦ rw e (a.0, Absent-update ps pid other f k a.1)
]

pub Unique-update :
    (ps : List Process) (pid : ℕ) (f : Process → Process)
    → KeepsPid f
    → Unique ps
    → Unique (update pid f ps)
unfolding update
Unique-update [] pid f k u = tt
Unique-update (q ∷ ps) pid f k u = elim (Bool-cases (q.pid == pid)) [
  | inl e ↦
      let away = Absent-update ps pid q.pid f k u.0 in
      rw e (rw (sym (k q)) at away, Unique-update ps pid f k u.1)
  | inr e ↦ rw e (Absent-update ps pid q.pid f k u.0, Unique-update ps pid f k u.1)
]

pub Absent-remove :
    (ps : List Process) (pid other : ℕ) → Absent other ps → Absent other (remove pid ps)
unfolding remove
Absent-remove [] pid other a = tt
Absent-remove (q ∷ ps) pid other a = elim (Bool-cases (q.pid == pid)) [
  | inl e ↦ rw e (Absent-remove ps pid other a.1)
  | inr e ↦ rw e (a.0, Absent-remove ps pid other a.1)
]

pub Unique-remove : (ps : List Process) (pid : ℕ) → Unique ps → Unique (remove pid ps)
unfolding remove
Unique-remove [] pid u = tt
Unique-remove (q ∷ ps) pid u = elim (Bool-cases (q.pid == pid)) [
  | inl e ↦ rw e (Unique-remove ps pid u.1)
  | inr e ↦ rw e (Absent-remove ps pid q.pid u.0, Unique-remove ps pid u.1)
]

pub remove-Absent : (ps : List Process) (pid : ℕ) → Absent pid ps → remove pid ps ≡ ps
unfolding remove
remove-Absent [] pid a = refl
remove-Absent (q ∷ ps) pid a = rw (==_ne q.pid pid a.0) (ap (λ r. q ∷ r) (remove-Absent ps pid a.1))

pub length-update :
    (ps : List Process) (pid : ℕ) (f : Process → Process) → length (update pid f ps) ≡ length ps
unfolding update
length-update [] pid f = refl
length-update (q ∷ ps) pid f = ap suc (length-update ps pid f)

-- A list without a pid twice loses exactly one process.
pub length-remove :
    (ps : List Process) (pid : ℕ) (p : Process)
    → Unique ps
    → find ps pid ≡ some p
    → length (remove pid ps) + 1 ≡ length ps
unfolding remove find
length-remove [] pid p u h = absurd cc
length-remove (q ∷ ps) pid p u h = elim (Bool-cases (q.pid == pid)) [
  | inl e ↦
      let here : q.pid ≡ pid = ==_eq q.pid pid e in
      rw e (ap (λ xs. length xs + 1) (remove-Absent ps pid (rw here at (u.0))) ∙ omega arith)
  | inr e ↦ rw e (omega (arith, length-remove ps pid p u.1 (rw e at h)))
]
