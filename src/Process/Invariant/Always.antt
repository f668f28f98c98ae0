-- ===== src/Process/Invariant/Always.antt =====
-- The states that the process list can reach, and what holds of each.
use lufira_os.Base.{
  ℕ, ◌≡◌, ◌≢◌, refl, sym, ap, subst, ◌∙◌, true, false, ◌||◌, some, List, [], ◌∷◌, ◌==◌, Bool-cases,
  Option-cases, ◌⊎◌, inl, inr, All,
}
use lufira_os.Mailbox.{ready, blocked, stopped}
use lufira_os.Process.{
  Process, System, find, update, set_state, is_terminated, is_stopped, wait_any_pid,
}
use lufira_os.Process.Table.{==_eq, ==_ne, ==_not, Absent, Unique, find-cons_same, find-cons_other}
use lufira_os.Process.Life.{
  is_child, scan, Scan, zombie, alive, childless, with_child, wait_turn, wait_target, process_wait,
  process_wait_resumed,
}
use lufira_os.Process.Signal.{
  is_catchable, is_caught, hold_signal, sigkill, sigstop, sigcont, default_action, process_signal,
}
use lufira_os.Process.Invariant.{IsSound, Sound}
use lufira_os.Process.Invariant.Stores.{IsSound-store, IsSound-schedule, KeepsSound}
use lufira_os.Process.Invariant.Steps.{IsSound-remove, IsSound-terminate}

IsSound-default_action :
    (spawner : System → System) (s : System) (p : Process) (sig : ℕ)
    → KeepsSound spawner
    → IsSound s
    → IsSound (default_action spawner s p sig).0
unfolding default_action
IsSound-default_action spawner s p sig k h =
    let halted : System = record s { procs = update p.pid (set_state stopped) s.procs } in
    let sound : IsSound halted = IsSound-store s p.pid (set_state stopped) (λ q. (refl, refl)) h in
    elim (Bool-cases (is_catchable sig || sig == sigkill)) [
      | inl e ↦ rw (default_action, e) (IsSound-terminate spawner s p sig k h)
      | inr e ↦ elim (Bool-cases (sig == sigstop)) [
        | inl st ↦ elim (Bool-cases (is_terminated p.state)) [
          | inl d ↦ rw (default_action, e, st, d) h
          | inr d ↦ elim (Bool-cases (p.pid == s.current)) [
            | inl c ↦ rw (default_action, e, st, d, c) (IsSound-schedule halted sound)
            | inr c ↦ rw (default_action, e, st, d, c) sound
          ]
        ]
        | inr st ↦ elim (Bool-cases (sig == sigcont)) [
          | inl co ↦ elim (Bool-cases (is_stopped p.state)) [
            | inl d ↦
                rw (default_action, e, st, co, d)
                  (IsSound-store s p.pid (set_state ready) (λ q. (refl, refl)) h)
            | inr d ↦ rw (default_action, e, st, co, d) h
          ]
          | inr co ↦ rw (default_action, e, st, co) h
        ]
      ]
    ]

pub IsSound-process_signal :
    (spawner : System → System) (s : System) (pid sig : ℕ)
    → KeepsSound spawner
    → IsSound s
    → IsSound (process_signal spawner s pid sig).0
unfolding process_signal
IsSound-process_signal spawner s pid sig k h = elim (Option-cases (find s.procs pid)) [
  | inl e ↦ rw (process_signal, e) h
  | inr (p, e) ↦ elim (Bool-cases (p.pid == 0)) [
    | inl z ↦ rw (process_signal, e, z) h
    | inr z ↦ elim (Bool-cases (is_caught p sig)) [
      | inl c ↦
          rw (process_signal, e, z, c) (IsSound-store s pid (hold_signal sig) (λ q. (refl, refl)) h)
      | inr c ↦ rw (process_signal, e, z, c) (IsSound-default_action spawner s p sig k h)
    ]
  ]
]

-- A zombie that the scan finds is in the list, and it is a child of the caller.
with_child-zombie : (r : Scan) (z : Process) → with_child r ≡ zombie z → r ≡ zombie z
with_child-zombie (zombie p) z h = h
with_child-zombie alive z h = absurd cc
with_child-zombie childless z h = absurd cc

found_later :
    (p : Process) (ps : List Process) (z : Process) (caller : ℕ)
    → (z.ppid ≡ caller) × ((q : Process) × (find ps z.pid ≡ some q))
    → (z.ppid ≡ caller) × ((q : Process) × (find (p ∷ ps) z.pid ≡ some q))
found_later p ps z caller (own, (q, f)) = elim (Bool-cases (p.pid == z.pid)) [
  | inl e ↦ (own, (p, find-cons_same p ps z.pid (==_eq p.pid z.pid e)))
  | inr e ↦ (own, (q, find-cons_other p ps z.pid (==_not p.pid z.pid e) ∙ f))
]

is_child-ppid :
    (caller target : ℕ) (p : Process) → is_child caller target p ≡ true → p.ppid ≡ caller
unfolding is_child
is_child-ppid caller target p h = elim (Bool-cases (p.ppid == caller)) [
  | inl e ↦ ==_eq p.ppid caller e
  | inr e ↦ let bad : false ≡ true = rw (is_child, e) at h in absurd cc
]

scan-child :
    (ps : List Process) (caller target : ℕ) (z : Process)
    → scan caller target ps ≡ zombie z
    → (z.ppid ≡ caller) × ((p : Process) × (find ps z.pid ≡ some p))
unfolding scan is_child find
scan-child [] caller target z h = absurd cc
scan-child (p ∷ ps) caller target z h = elim (Bool-cases (is_child caller target p)) [
  | inr e ↦ found_later p ps z caller (scan-child ps caller target z (rw (is_child, e) at h))
  | inl e ↦ elim (Bool-cases (is_terminated p.state)) [
    | inr t ↦ found_later p ps z caller (
        scan-child ps caller target z
          (with_child-zombie (scan caller target ps) z (rw (is_child, e, t) at h)))
    | inl t ↦
        let found : zombie p ≡ zombie z = rw (is_child, e, t) at h in
        let same : p ≡ z = cc in
        (
          ap (λ (q : Process). q.ppid) (sym same) ∙ is_child-ppid caller target p e,
          (p, find-cons_same p ps z.pid (ap (λ (q : Process). q.pid) same)),
        )
  ]
]

scan-All {κ} :
    (P : Process → Type κ) (ps : List Process) (caller target : ℕ) (z : Process)
    → All P ps
    → scan caller target ps ≡ zombie z
    → P z
unfolding scan
scan-All P [] caller target z a h = absurd cc
scan-All P (p ∷ ps) caller target z a h = elim (Bool-cases (is_child caller target p)) [
  | inr e ↦ scan-All P ps caller target z a.1 (rw e at h)
  | inl e ↦ elim (Bool-cases (is_terminated p.state)) [
    | inr t ↦
        scan-All P ps caller target z a.1
          (with_child-zombie (scan caller target ps) z (rw (e, t) at h))
    | inl t ↦
        let found : zombie p ≡ zombie z = rw (e, t) at h in
        let same : p ≡ z = cc in subst P same a.0
  ]
]

-- `idle_process` is nobody's child.
idle_alone : (ps : List Process) → Absent 0 ps → All (λ (p : Process). p.pid ≡ 0 → p.ppid ≡ 0) ps
idle_alone [] a = tt
idle_alone (p ∷ ps) a = (λ e. absurd (a.0 e), idle_alone ps a.1)

Sound-idle :
    (ps : List Process) (count next : ℕ)
    → Sound ps count next
    → All (λ (p : Process). p.pid ≡ 0 → p.ppid ≡ 0) ps
Sound-idle ps count next s =
    let u : Unique (s.idle ∷ s.rest) = subst Unique s.split s.unique in
    let rest_absent : Absent 0 s.rest = subst (λ n. Absent n s.rest) s.zero_pid u.0 in
    subst (λ l. All (λ (p : Process). p.pid ≡ 0 → p.ppid ≡ 0) l) (sym s.split)
      (λ e. s.no_parent, idle_alone s.rest rest_absent)

scan_cases : (r : Scan) → ((z : Process) × (r ≡ zombie z)) ⊎ ((r ≡ alive) ⊎ (r ≡ childless))
scan_cases (zombie z) = inl (z, refl)
scan_cases alive = inr (inl refl)
scan_cases childless = inr (inr refl)

scan-is_child :
    (ps : List Process) (caller target : ℕ) (z : Process)
    → scan caller target ps ≡ zombie z
    → is_child caller target z ≡ true
unfolding scan
scan-is_child [] caller target z h = absurd cc
scan-is_child (p ∷ ps) caller target z h = elim (Bool-cases (is_child caller target p)) [
  | inr e ↦ scan-is_child ps caller target z (rw e at h)
  | inl e ↦ elim (Bool-cases (is_terminated p.state)) [
    | inr t ↦
        scan-is_child ps caller target z
          (with_child-zombie (scan caller target ps) z (rw (e, t) at h))
    | inl t ↦
        let found : zombie p ≡ zombie z = rw (e, t) at h in
        let same : p ≡ z = cc in subst (λ q. is_child caller target q ≡ true) same e
  ]
]

is_child-pid :
    (caller target : ℕ) (p : Process)
    → target ≢ wait_any_pid
    → is_child caller target p ≡ true
    → p.pid ≡ target
unfolding is_child
is_child-pid caller target p na h = elim (Bool-cases (p.pid == target)) [
  | inl e ↦ ==_eq p.pid target e
  | inr e ↦ elim (Bool-cases (p.ppid == caller)) [
    | inl o ↦
        let bad : false ≡ true = rw (is_child, o, ==_ne target wait_any_pid na, e) at h in absurd cc
    | inr o ↦ let bad : false ≡ true = rw (is_child, o) at h in absurd cc
  ]
]

-- `idle_process` waits for a definite process only.
abbrev pub MayWait : System → (pid : ℕ) → Type 0
MayWait s pid = (s.current ≢ 0) ⊎ ((pid ≢ 0) × (pid ≢ wait_any_pid))

MayWait-wait_target : (s : System) (pid : ℕ) → MayWait s pid → MayWait s (wait_target pid)
MayWait-wait_target s pid (inl nz) = inl nz
MayWait-wait_target s pid (inr (nz, na)) = inr (rw (==_ne pid 0 nz) (nz, na))

zombie_pid :
    (s : System) (target : ℕ) (z : Process)
    → MayWait s target
    → IsSound s
    → scan s.current target s.procs ≡ zombie z
    → z.pid ≢ 0
zombie_pid s target z (inl nz) h e =
    let (own, (p, found)) = scan-child s.procs s.current target z e in
    let idle =
      scan-All (λ (p : Process). p.pid ≡ 0 → p.ppid ≡ 0) s.procs s.current target z
        (Sound-idle s.procs s.process_count s.next_pid h) e in
    λ o. nz (sym own ∙ idle o)
zombie_pid s target z (inr (nz, na)) h e =
    let its = is_child-pid s.current target z na (scan-is_child s.procs s.current target z e) in
    λ o. nz (sym its ∙ o)

IsSound-wait_turn :
    (s : System) (target : ℕ) → MayWait s target → IsSound s → IsSound (wait_turn s target).0
unfolding wait_turn
IsSound-wait_turn s target nz h = elim (scan_cases (scan s.current target s.procs)) [
  | inl (z, e) ↦
      let (own, (p, found)) = scan-child s.procs s.current target z e in
      rw (wait_turn, e) (IsSound-remove s z.pid p (zombie_pid s target z nz h e) found h)
  | inr (inl e) ↦
      let parked : System = record s {
        procs =
            update s.current (λ p. record p { wait_target_pid = target; state = blocked }) s.procs;
      } in
      rw (wait_turn, e)
        (IsSound-schedule parked (
          IsSound-store s s.current (λ p. record p { wait_target_pid = target; state = blocked })
            (λ p. (refl, refl)) h))
  | inr (inr e) ↦ rw (wait_turn, e) h
]

pub IsSound-process_wait :
    (s : System) (pid : ℕ) → MayWait s pid → IsSound s → IsSound (process_wait s pid).0
unfolding process_wait
IsSound-process_wait s pid nz h =
    IsSound-wait_turn s (wait_target pid) (MayWait-wait_target s pid nz) h

pub IsSound-process_wait_resumed :
    (s : System) (pid : ℕ) → MayWait s pid → IsSound s → IsSound (process_wait_resumed s pid).0
unfolding process_wait_resumed
IsSound-process_wait_resumed s pid nz h =
    let woken : System = record s {
      procs = update s.current (λ p. record p { wait_target_pid = 0 }) s.procs;
    } in
    IsSound-wait_turn woken (wait_target pid) (MayWait-wait_target s pid nz)
      (IsSound-store s s.current (λ p. record p { wait_target_pid = 0 }) (λ p. (refl, refl)) h)
