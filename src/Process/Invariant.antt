-- ===== src/Process/Invariant.antt =====
-- What always holds of the process list: `idle_process` stands first, no pid stands twice, and
-- `process_count` counts the others.
pub mod Stores
pub mod Steps
pub mod Always
pub mod Reap
pub mod Reach
pub mod Runs
use lufira_os.Base.{
  ℕ, zero, suc, ◌+◌, ◌-◌, ◌%◌, ◌^◌, ◌≤◌, ◌<◌, ◌≡◌, ◌≢◌, refl, sym, ap, subst, ◌∙◌, Bool, true,
  false, not, ◌&&◌, Option, none, some, List, [], ◌∷◌, ◌++◌, ◌==◌, if◌then◌else◌, Bool-cases, inl,
  inr, arith, length, length-append, All,
}
use lufira_os.Process.{Process, System, find, update, remove, is_terminated}
use lufira_os.Process.Table.{
  ==_ne, ==_not, KeepsPid, Absent, Unique, Absent-update, Absent-remove, Unique-update,
  Unique-remove, length-update, length-remove,
}
use lufira_os.Process.Schedule.Ring.{All-append, All-join, Unique-swap}

-- A list of processes with `count` processes after `idle_process`, and pids below `next`.
pub record Sound (ps : List Process) (count next : ℕ) : Type 0 where
  pub idle : Process
  pub rest : List Process
  pub split : ps ≡ idle ∷ rest
  pub zero_pid : idle.pid ≡ 0
  pub no_parent : idle.ppid ≡ 0
  pub unique : Unique ps
  pub counted : length rest ≡ count
  pub bounded : count ≤ 32
  pub below : All (λ (p : Process). p.pid < next) ps

abbrev pub IsSound : System → Type 0
IsSound s = Sound s.procs s.process_count s.next_pid

-- A store that keeps who the process is.
abbrev pub KeepsIds : (Process → Process) → Type 0
KeepsIds f = (p : Process) → ((f p).pid ≡ p.pid) × ((f p).ppid ≡ p.ppid)

All-update :
    (P : ℕ → Type 0) (pid : ℕ) (f : Process → Process) (ps : List Process)
    → KeepsIds f
    → All (λ (p : Process). P p.pid) ps
    → All (λ (p : Process). P p.pid) (update pid f ps)
unfolding update
All-update P pid f [] k a = tt
All-update P pid f (p ∷ ps) k a = elim (Bool-cases (p.pid == pid)) [
  | inl e ↦ rw e (subst P (sym (k p).0) a.0, All-update P pid f ps k a.1)
  | inr e ↦ rw e (a.0, All-update P pid f ps k a.1)
]

update-ids :
    (pid : ℕ) (f : Process → Process) (p : Process)
    → KeepsIds f
    → ((if p.pid == pid then f p else p).pid ≡ p.pid)
      × ((if p.pid == pid then f p else p).ppid ≡ p.ppid)
update-ids pid f p k = elim (Bool-cases (p.pid == pid)) [
  | inl e ↦ rw e (k p)
  | inr e ↦ rw e (refl, refl)
]

pub Sound-update :
    (ps : List Process) (count next pid : ℕ) (f : Process → Process)
    → KeepsIds f
    → Sound ps count next
    → Sound (update pid f ps) count next
unfolding update
Sound-update ps count next pid f k s =
    let (pid_kept, ppid_kept) = update-ids pid f s.idle k in
    record {
      idle = if s.idle.pid == pid then f s.idle else s.idle;
      rest = update pid f s.rest;
      split = ap (update pid f) s.split;
      zero_pid = pid_kept ∙ s.zero_pid;
      no_parent = ppid_kept ∙ s.no_parent;
      unique = Unique-update ps pid f (λ p. (k p).0) s.unique;
      counted = length-update s.rest pid f ∙ s.counted;
      bounded = s.bounded;
      below = All-update (λ n. n < next) pid f ps k s.below;
    }

All-remove {κ} :
    (P : Process → Type κ) (ps : List Process) (pid : ℕ) → All P ps → All P (remove pid ps)
unfolding remove
All-remove P [] pid a = tt
All-remove P (p ∷ ps) pid a = elim (Bool-cases (p.pid == pid)) [
  | inl e ↦ rw e (All-remove P ps pid a.1)
  | inr e ↦ rw e (a.0, All-remove P ps pid a.1)
]

remove-cons_other :
    (p : Process) (ps : List Process) (pid : ℕ)
    → p.pid ≢ pid
    → remove pid (p ∷ ps) ≡ p ∷ remove pid ps
unfolding remove
remove-cons_other p ps pid h = rw (==_ne p.pid pid h) refl

find-cons :
    (p : Process) (ps : List Process) (pid : ℕ) → p.pid ≢ pid → find (p ∷ ps) pid ≡ find ps pid
unfolding find
find-cons p ps pid h = rw (==_ne p.pid pid h) refl

pub Sound-remove :
    (ps : List Process) (count next pid : ℕ) (p : Process)
    → pid ≢ 0
    → find ps pid ≡ some p
    → Sound ps count next
    → Sound (remove pid ps) (count - 1) next
Sound-remove ps count next pid p nz h s =
    let apart : s.idle.pid ≢ pid = λ e. nz (sym e ∙ s.zero_pid) in
    let u : Unique (s.idle ∷ s.rest) = subst Unique s.split s.unique in
    let there : find s.rest pid ≡ some p =
      sym (find-cons s.idle s.rest pid apart) ∙ ap (λ l. find l pid) (sym s.split) ∙ h in
    let fewer : length (remove pid s.rest) + 1 ≡ length s.rest =
      length-remove s.rest pid p u.1 there in
    record {
      idle = s.idle;
      rest = remove pid s.rest;
      split = ap (remove pid) s.split ∙ remove-cons_other s.idle s.rest pid apart;
      zero_pid = s.zero_pid;
      no_parent = s.no_parent;
      unique = Unique-remove ps pid s.unique;
      counted = omega (arith, fewer, s.counted);
      bounded = omega (arith, s.bounded);
      below = All-remove (λ (q : Process). q.pid < next) ps pid s.below;
    }

Absent-below :
    (ps : List Process) (next : ℕ) → All (λ (p : Process). p.pid < next) ps → Absent next ps
Absent-below [] next a = tt
Absent-below (p ∷ ps) next a = (λ e. absurd (omega (arith, e, a.0)), Absent-below ps next a.1)

All-weaken :
    (ps : List Process) (m n : ℕ)
    → m ≤ n
    → All (λ (p : Process). p.pid < m) ps
    → All (λ (p : Process). p.pid < n) ps
All-weaken [] m n h a = tt
All-weaken (p ∷ ps) m n h a = (omega (arith, h, a.0), All-weaken ps m n h a.1)

pub Sound-append :
    (ps : List Process) (count next : ℕ) (p : Process)
    → p.pid ≡ next
    → count < 32
    → Sound ps count next
    → Sound (ps ++ (p ∷ [])) (count + 1) (next + 1)
Sound-append ps count next p e lt s =
    let absent : Absent p.pid ps =
      subst (λ n. Absent n ps) (sym e) (Absent-below ps next s.below) in
    record {
      idle = s.idle;
      rest = s.rest ++ (p ∷ []);
      split = ap (λ l. l ++ (p ∷ [])) s.split;
      zero_pid = s.zero_pid;
      no_parent = s.no_parent;
      unique = Unique-swap (p ∷ []) ps (absent, s.unique);
      counted = length-append s.rest (p ∷ []) ∙ ap (λ n. n + 1) s.counted;
      bounded = omega (arith, lt);
      below =
          All-join (λ (q : Process). q.pid < next + 1) ps (p ∷ [])
            (All-weaken ps next (next + 1) (omega arith) s.below) (omega (arith, e), tt);
    }

pub Sound-numbered :
    (ps : List Process) (count next : ℕ) → Sound ps count next → Sound ps count (next + 1)
Sound-numbered ps count next s = record {
  idle = s.idle;
  rest = s.rest;
  split = s.split;
  zero_pid = s.zero_pid;
  no_parent = s.no_parent;
  unique = s.unique;
  counted = s.counted;
  bounded = s.bounded;
  below = All-weaken ps next (next + 1) (omega arith) s.below;
}
