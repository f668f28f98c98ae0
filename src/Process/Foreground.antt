-- ===== src/Process/Foreground.antt =====
-- The process in the foreground: `process_set_foreground` of kernel/system/process/process.c.
use lufira_os.Base.{
  ℕ, zero, suc, ◌<◌, ◌≡◌, ◌≢◌, refl, sym, subst, ◌∙◌, Bool, true, false, none, some, List, ◌==◌,
  if◌then◌else◌, Bool-cases, Option-cases, ◌⊎◌, inl, inr, arith,
}
use lufira_os.Process.{Process, System, find, max_processes}
use lufira_os.Process.Table.{==_self, ==_eq, ==_ne, ==_not}

-- The loop, in `fuel` steps at most: does the chain of parents from `walk_pid` on meet the caller?
pub climb : (fuel : ℕ) → List Process → (caller_pid walk_pid : ℕ) → Bool
climb zero ps caller_pid walk_pid = false
climb (suc fuel) ps caller_pid walk_pid =
    let above = λ (p : Process). climb fuel ps caller_pid p.ppid in
    let further : Bool = elim (find ps walk_pid) [ none ↦ false | some p ↦ above p ] in
    if walk_pid == 0 then false else if walk_pid == caller_pid then true else further

-- `process_set_foreground`: the state and whether it returns 0.
pub process_set_foreground : System → (caller_pid target_pid : ℕ) → System × Bool
process_set_foreground s caller_pid target_pid =
    let chosen : System = record s { foreground_pid = target_pid } in
    if target_pid == 0
    then (record s { foreground_pid = 0 }, true)
    else elim (find s.procs target_pid) [
      | none ↦ (s, false)
      | some target ↦
          if climb max_processes s.procs caller_pid target.ppid then (chosen, true) else (s, false)
    ]

-- The process `ancestor` is met after so many steps up from the pid `from`, itself not counted.
pub data Descends (ps : List Process) (ancestor : ℕ) : (from steps : ℕ) → Type 0 where
  here : ancestor ≢ 0 → Descends ps ancestor ancestor 0
  up :
      (from steps : ℕ) (p : Process)
      → from ≢ 0
      → find ps from ≡ some p
      → Descends ps ancestor p.ppid steps
      → Descends ps ancestor from (suc steps)

climb-Descends :
    (fuel : ℕ) (ps : List Process) (caller walk : ℕ)
    → climb fuel ps caller walk ≡ true
    → (steps : ℕ) × (steps < fuel) × Descends ps caller walk steps
unfolding climb
climb-Descends zero ps caller walk h = absurd cc
climb-Descends (suc fuel) ps caller walk h = elim (Bool-cases (walk == 0)) [
  | inl z ↦ let bad : false ≡ true = rw z at h in absurd cc
  | inr z ↦ elim (Bool-cases (walk == caller)) [
    | inl e ↦
        let same : walk ≡ caller = ==_eq walk caller e in
        (
          0,
          omega arith,
          subst (λ n. Descends ps caller n 0) (sym same) (here (λ o. ==_not walk 0 z (same ∙ o))),
        )
    | inr e ↦ elim (Option-cases (find ps walk)) [
      | inl f ↦ let bad : false ≡ true = rw (z, e, f) at h in absurd cc
      | inr (p, f) ↦
          let (steps, less, d) = climb-Descends fuel ps caller p.ppid (rw (z, e, f) at h) in
          (suc steps, omega (arith, less), up walk steps p (==_not walk 0 z) f d)
    ]
  ]
]

-- The loop finds an ancestor that is near enough.
Descends-climb :
    (ps : List Process) (caller walk steps : ℕ)
    → Descends ps caller walk steps
    → (fuel : ℕ) → steps < fuel
    → climb fuel ps caller walk ≡ true
unfolding climb
Descends-climb ps caller _ _ (here nz) zero lt = absurd (omega arith)
Descends-climb ps caller _ _ (here nz) (suc fuel) lt = rw (==_ne caller 0 nz, ==_self caller) refl
Descends-climb ps caller _ _ (up from steps p nz f d) zero lt = absurd (omega arith)
Descends-climb ps caller _ _ (up from steps p nz f d) (suc fuel) lt =
    let higher = Descends-climb ps caller p.ppid steps d fuel (omega arith) in
    elim (Bool-cases (from == caller)) [
      | inl e ↦ rw (==_ne from 0 nz, e) refl
      | inr e ↦ rw (==_ne from 0 nz, e, f) higher
    ]

not_both : {b : Bool} → b ≡ true → b ≡ false → ⊥
not_both h k = cc

set_foreground-climb :
    (s : System) (caller target : ℕ) (p : Process)
    → target ≢ 0
    → find s.procs target ≡ some p
    → process_set_foreground s caller target ≡ (
        if climb max_processes s.procs caller p.ppid
        then (record s { foreground_pid = target }, true)
        else (s, false))
unfolding process_set_foreground
set_foreground-climb s caller target p nz h = rw (process_set_foreground, ==_ne target 0 nz, h) refl

-- For a process of the list other than pid 0: `process_set_foreground` returns 0 exactly when the
-- caller is its parent or an ancestor at most 31 parents further up; then it is in the foreground,
-- and else nothing changes.
pub process_set_foreground_lem :
    (s : System) (caller target : ℕ) (p : Process)
    → target ≢ 0
    → find s.procs target ≡ some p
    → ((process_set_foreground s caller target ≡ (record s { foreground_pid = target }, true))
        × ((steps : ℕ) × (steps < 32) × Descends s.procs caller p.ppid steps))
      ⊎ ((process_set_foreground s caller target ≡ (s, false))
          × ((steps : ℕ) → steps < 32 → Descends s.procs caller p.ppid steps → ⊥))
process_set_foreground_lem s caller target p nz h =
    let code = set_foreground-climb s caller target p nz h in
    elim (Bool-cases (climb max_processes s.procs caller p.ppid)) [
      | inl e ↦
          let set : (if climb max_processes s.procs caller p.ppid
                then (record s { foreground_pid = target }, true)
                else (s, false))
              ≡ (record s { foreground_pid = target }, true) =
            rw e refl in
          inl (code ∙ set, climb-Descends max_processes s.procs caller p.ppid e)
      | inr e ↦
          let set : (if climb max_processes s.procs caller p.ppid
                then (record s { foreground_pid = target }, true)
                else (s, false))
              ≡ (s, false) =
            rw e refl in
          inr (
            code ∙ set,
            λ steps lt d.
                absurd (not_both (Descends-climb s.procs caller p.ppid steps d max_processes lt) e),
          )
    ]
