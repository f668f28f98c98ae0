-- ===== src/Process/Invariant/Reap.antt =====
-- `process_reap`: what it takes out of the list and what it leaves.
use lufira_os.Base.{
  ℕ, ◌+◌, ◌-◌, ◌≤◌, ◌<◌, ◌≡◌, ◌≢◌, refl, sym, ap, subst, ◌∙◌, Bool, true, false, not, ◌&&◌, some,
  List, [], ◌∷◌, ◌==◌, Bool-cases, inl, inr, arith, length, All,
}
use lufira_os.Process.{Process, System, find, is_terminated, wait_any_pid}
use lufira_os.Process.Table.{==_ne, ==_eq, ==_not, Absent, Unique}
use lufira_os.Process.Life.{
  reap, process_reap, is_child, scan, childless, refused, wait_turn, process_wait,
}
use lufira_os.Process.Invariant.{IsSound}

-- Does `process_reap` take the process out?
pub is_reapable : Process → Bool
is_reapable p = is_terminated p.state && not (p.pid == 0)

reap-gone :
    (p : Process) (ps : List Process) (n : ℕ)
    → is_reapable p ≡ true
    → reap (p ∷ ps) n ≡ reap ps (n - 1)
unfolding reap is_reapable
reap-gone p ps n e = rw (reap, e) refl

reap-kept :
    (p : Process) (ps : List Process) (n : ℕ)
    → is_reapable p ≡ false
    → reap (p ∷ ps) n ≡ (p ∷ (reap ps n).0, (reap ps n).1)
unfolding reap is_reapable
reap-kept p ps n e = rw (reap, e) refl

reap-All {κ} : (P : Process → Type κ) (ps : List Process) (n : ℕ) → All P ps → All P (reap ps n).0
unfolding reap
reap-All P [] n a = tt
reap-All P (p ∷ ps) n a = elim (Bool-cases (is_reapable p)) [
  | inl e ↦ rw (reap-gone p ps n e) (reap-All P ps (n - 1) a.1)
  | inr e ↦ rw (reap-kept p ps n e) (a.0, reap-All P ps n a.1)
]

reap-Unique : (ps : List Process) (n : ℕ) → Unique ps → Unique (reap ps n).0
unfolding reap
reap-Unique [] n u = tt
reap-Unique (p ∷ ps) n u = elim (Bool-cases (is_reapable p)) [
  | inl e ↦ rw (reap-gone p ps n e) (reap-Unique ps (n - 1) u.1)
  | inr e ↦
      rw (reap-kept p ps n e)
        (reap-All (λ (q : Process). q.pid ≢ p.pid) ps n u.0, reap-Unique ps n u.1)
]

reap-bound : (ps : List Process) (n : ℕ) → (reap ps n).1 ≤ n
unfolding reap
reap-bound [] n = omega arith
reap-bound (p ∷ ps) n = elim (Bool-cases (is_reapable p)) [
  | inl e ↦ rw (reap-gone p ps n e) (omega (arith, reap-bound ps (n - 1)))
  | inr e ↦ rw (reap-kept p ps n e) (reap-bound ps n)
]

-- The count falls by one for each process that goes.
reap-count :
    (ps : List Process) (n m : ℕ) → n ≡ length ps + m → (reap ps n).1 ≡ length (reap ps n).0 + m
unfolding reap
reap-count [] n m e = omega (arith, e)
reap-count (p ∷ ps) n m e = elim (Bool-cases (is_reapable p)) [
  | inl r ↦ rw (reap-gone p ps n r) (reap-count ps (n - 1) m (omega (arith, e)))
  | inr r ↦ rw (reap-kept p ps n r) (omega (arith, reap-count ps n (m + 1) (omega (arith, e))))
]

and_false : (b : Bool) → (b && false) ≡ false
and_false true = refl
and_false false = refl

pub IsSound-process_reap : (s : System) → IsSound s → IsSound (process_reap s)
unfolding process_reap is_reapable
IsSound-process_reap s h =
    let count = s.process_count in
    let stays : is_reapable h.idle ≡ false =
      ap (λ n. is_terminated h.idle.state && not (n == 0)) h.zero_pid
      ∙ and_false (is_terminated h.idle.state) in
    let pair : reap s.procs count ≡ (h.idle ∷ (reap h.rest count).0, (reap h.rest count).1) =
      ap (λ l. reap l count) h.split ∙ reap-kept h.idle h.rest count stays in
    let left : (reap s.procs count).1 ≡ (reap h.rest count).1 =
      ap (λ (x : List Process × ℕ). x.1) pair in
    let counted = reap-count h.rest count 0 (omega (arith, h.counted)) in
    record {
      idle = h.idle;
      rest = (reap h.rest count).0;
      split = ap (λ (x : List Process × ℕ). x.0) pair;
      zero_pid = h.zero_pid;
      no_parent = h.no_parent;
      unique = reap-Unique s.procs count h.unique;
      counted = omega (arith, left, counted);
      bounded = omega (arith, left, reap-bound h.rest count, h.bounded);
      below = reap-All (λ (q : Process). q.pid < s.next_pid) s.procs count h.below;
    }

-- A pid that stands in a list without a pid twice: it goes when its process is terminated.
reap-Absent :
    (ps : List Process) (pid n : ℕ) (c : Process)
    → Unique ps
    → pid ≢ 0
    → find ps pid ≡ some c
    → is_terminated c.state ≡ true
    → Absent pid (reap ps n).0
unfolding find is_reapable
reap-Absent [] pid n c u nz h t = absurd cc
reap-Absent (p ∷ ps) pid n c u nz h t = elim (Bool-cases (p.pid == pid)) [
  | inl e ↦
      let found : some p ≡ some c = rw e at h in
      let same : p ≡ c = cc in
      let here : p.pid ≡ pid = ==_eq p.pid pid e in
      let ended : is_terminated p.state ≡ true =
        ap (λ (q : Process). is_terminated q.state) same ∙ t in
      let goes : is_reapable p ≡ true = rw (ended, ==_ne p.pid 0 (λ o. nz (sym here ∙ o))) refl in
      rw (reap-gone p ps n goes) (
        subst (λ m. Absent m (reap ps (n - 1)).0) here
          (reap-All (λ (q : Process). q.pid ≢ p.pid) ps (n - 1) u.0))
  | inr e ↦ elim (Bool-cases (is_reapable p)) [
    | inl r ↦ rw (reap-gone p ps n r) (reap-Absent ps pid (n - 1) c u.1 nz (rw e at h) t)
    | inr r ↦
        rw (reap-kept p ps n r) (==_not p.pid pid e, reap-Absent ps pid n c u.1 nz (rw e at h) t)
  ]
]

pub find-reap_other :
    (ps : List Process) (pid n : ℕ) (q : Process)
    → find ps pid ≡ some q
    → is_reapable q ≡ false
    → find (reap ps n).0 pid ≡ some q
unfolding find
find-reap_other [] pid n q h k = absurd cc
find-reap_other (p ∷ ps) pid n q h k = elim (Bool-cases (p.pid == pid)) [
  | inl e ↦
      let found : some p ≡ some q = rw e at h in
      let same : p ≡ q = cc in rw (reap-kept p ps n (ap is_reapable same ∙ k), e) found
  | inr e ↦ elim (Bool-cases (is_reapable p)) [
    | inl r ↦ rw (reap-gone p ps n r) (find-reap_other ps pid (n - 1) q (rw e at h) k)
    | inr r ↦ rw (reap-kept p ps n r, e) (find-reap_other ps pid n q (rw e at h) k)
  ]
]

scan-childless :
    (ps : List Process) (caller pid : ℕ)
    → pid ≢ wait_any_pid
    → Absent pid ps
    → scan caller pid ps ≡ childless
unfolding scan is_child
scan-childless [] caller pid na a = refl
scan-childless (p ∷ ps) caller pid na a = elim (Bool-cases (p.ppid == caller)) [
  | inl e ↦
      rw (e, ==_ne pid wait_any_pid na, ==_ne p.pid pid a.0) (scan-childless ps caller pid na a.1)
  | inr e ↦ rw e (scan-childless ps caller pid na a.1)
]

-- In a sound state a child has ended. When `process_reap` runs before its parent calls
-- `process_wait` for its pid, neither 0 nor `WAIT_ANY_PID`, then `process_wait` returns -1 at once.
pub process_reap-process_wait :
    (s : System) (c : Process)
    → IsSound s
    → find s.procs c.pid ≡ some c
    → is_terminated c.state ≡ true
    → c.pid ≢ 0
    → c.pid ≢ wait_any_pid
    → process_wait (process_reap s) c.pid ≡ (process_reap s, refused)
unfolding process_wait process_reap wait_turn
process_reap-process_wait s c h e t nz na =
    let absent = reap-Absent s.procs c.pid s.process_count c h.unique nz e t in
    let none_left = scan-childless (reap s.procs s.process_count).0 s.current c.pid na absent in
    rw (process_wait, wait_turn, ==_ne c.pid 0 nz, none_left) refl
