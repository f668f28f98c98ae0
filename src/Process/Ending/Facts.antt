-- ===== src/Process/Ending/Facts.antt =====
-- What the end of a process stores in the process, and what it leaves of the others.
use lufira_os.Base.{
  ℕ, ◌≡◌, ◌≢◌, ◌⊎◌, inl, inr, refl, sym, ap, subst, ◌∙◌, Option, none, some, List, ◌==◌, leb,
  Bool-cases, Option-cases,
}
use lufira_os.Mailbox.{max_slots, push, ready}
use lufira_os.Process.{Process, System, find, update, set_state}
use lufira_os.Process.Table.{==_not, find-update_other}
use lufira_os.Process.Ending.{
  exit_notice, wake_waiter, notify_wm, release_foreground, release_wm, release_netd, release_soundd,
  release,
}

-- Nobody waits on the window manager's mailbox but the window manager.
abbrev pub OwnWaiter : System → Type 0
OwnWaiter s =
    (q : Process)
    → find s.procs s.wm_pid ≡ some q
    → (q.mailbox.waiter ≡ none) ⊎ (q.mailbox.waiter ≡ some s.wm_pid)

-- The current process and the registrations of a state.
pub record Registers : Type 0 where
  pub current : ℕ
  pub foreground : ℕ
  pub wm : ℕ
  pub netd : ℕ
  pub soundd : ℕ

unfoldable pub registers : System → Registers
registers s = record {
  current = s.current;
  foreground = s.foreground_pid;
  wm = s.wm_pid;
  netd = s.netd_pid;
  soundd = s.soundd_pid;
}

-- What `shell_spawner_fn` keeps: it adds a process at most.
pub record Spawns (spawner : System → System) : Type 0 where
  pub keeps :
      (s : System) (pid : ℕ) (p : Process)
      → find s.procs pid ≡ some p
      → find (spawner s).procs pid ≡ some p
  pub kept : (s : System) → registers (spawner s) ≡ registers s

find-wake_waiter :
    (w : Option ℕ) (ps : List Process) (wm other : ℕ)
    → (w ≡ none) ⊎ (w ≡ some wm)
    → other ≢ wm
    → find (wake_waiter w ps) other ≡ find ps other
unfolding wake_waiter
find-wake_waiter none ps wm other h ne = refl
find-wake_waiter (some x) ps wm other (inl h) ne = absurd cc
find-wake_waiter (some x) ps wm other (inr h) ne =
    let same : x ≡ wm = cc in
    find-update_other ps x other (set_state ready) (λ p. refl) (λ e. ne (e ∙ same))

find-notify_wm :
    (s : System) (pid other : ℕ)
    → OwnWaiter s
    → other ≢ s.wm_pid
    → find (notify_wm s pid).procs other ≡ find s.procs other
unfolding notify_wm
find-notify_wm s pid other own ne = elim (Option-cases (find s.procs s.wm_pid)) [
  | inl h ↦ rw (notify_wm, h) refl
  | inr (q, h) ↦ elim (Bool-cases (leb max_slots q.mailbox.count)) [
    | inl e ↦ rw (notify_wm, h, e) refl
    | inr e ↦
        let note : Process → Process =
          λ p. record p { mailbox = push p.mailbox 0 (exit_notice pid) 92 } in
        let woken =
          find-wake_waiter q.mailbox.waiter (update s.wm_pid note s.procs) s.wm_pid other (own q h)
            ne in
        rw (notify_wm, h, e) (woken ∙ find-update_other s.procs s.wm_pid other note (λ p. refl) ne)
  ]
]

find-release_wm :
    (s : System) (pid other : ℕ)
    → OwnWaiter s
    → other ≢ s.wm_pid
    → find (release_wm s pid).procs other ≡ find s.procs other
unfolding release_wm
find-release_wm s pid other own ne = elim (Bool-cases (pid == s.wm_pid)) [
  | inl e ↦ rw (release_wm, e) refl
  | inr e ↦ elim (Bool-cases (s.wm_pid == 0)) [
    | inl z ↦ rw (release_wm, e, z) refl
    | inr z ↦ rw (release_wm, e, z) (find-notify_wm s pid other own ne)
  ]
]

find-release_wm_self :
    (s : System) (pid : ℕ) → OwnWaiter s → find (release_wm s pid).procs pid ≡ find s.procs pid
unfolding release_wm
find-release_wm_self s pid own = elim (Bool-cases (pid == s.wm_pid)) [
  | inl e ↦ rw (release_wm, e) refl
  | inr e ↦ find-release_wm s pid pid own (==_not pid s.wm_pid e)
]

procs-release_netd : (s : System) (pid : ℕ) → (release_netd s pid).procs ≡ s.procs
unfolding release_netd
procs-release_netd s pid = elim (Bool-cases (pid == s.netd_pid)) [
  | inl e ↦ rw (release_netd, e) refl
  | inr e ↦ rw (release_netd, e) refl
]

procs-release_soundd : (s : System) (pid : ℕ) → (release_soundd s pid).procs ≡ s.procs
unfolding release_soundd
procs-release_soundd s pid = elim (Bool-cases (pid == s.soundd_pid)) [
  | inl e ↦ rw (release_soundd, e) refl
  | inr e ↦ rw (release_soundd, e) refl
]

procs-release_foreground :
    (s : System) (pid : ℕ)
    → ((release_foreground s pid).procs ≡ s.procs) × ((release_foreground s pid).wm_pid ≡ s.wm_pid)
unfolding release_foreground
procs-release_foreground s pid = elim (Bool-cases (pid == s.foreground_pid)) [
  | inl e ↦ rw (release_foreground, e) (refl, refl)
  | inr e ↦ rw (release_foreground, e) (refl, refl)
]

OwnWaiter-keep :
    (s t : System) → t.procs ≡ s.procs → t.wm_pid ≡ s.wm_pid → OwnWaiter s → OwnWaiter t
OwnWaiter-keep s t ep ew own q h =
    let here : find s.procs s.wm_pid ≡ some q =
      ap (λ x. find x s.wm_pid) (sym ep) ∙ ap (find t.procs) (sym ew) ∙ h in
    subst (λ w. (q.mailbox.waiter ≡ none) ⊎ (q.mailbox.waiter ≡ some w)) (sym ew) (own q here)

release_procs :
    (s : System) (pid : ℕ)
    → (release s pid).procs ≡ (release_wm (release_foreground s pid) pid).procs
unfolding release
release_procs s pid =
    let t = release_wm (release_foreground s pid) pid in
    procs-release_soundd (release_netd t pid) pid ∙ procs-release_netd t pid

pub find-release :
    (s : System) (pid other : ℕ)
    → OwnWaiter s
    → other ≢ s.wm_pid
    → find (release s pid).procs other ≡ find s.procs other
find-release s pid other own ne =
    let (ep, ew) = procs-release_foreground s pid in
    let f = release_foreground s pid in
    ap (λ x. find x other) (release_procs s pid)
    ∙ find-release_wm f pid other (OwnWaiter-keep s f ep ew own) (λ h. ne (h ∙ ew))
    ∙ ap (λ x. find x other) ep

pub find-release_self :
    (s : System) (pid : ℕ) → OwnWaiter s → find (release s pid).procs pid ≡ find s.procs pid
find-release_self s pid own =
    let (ep, ew) = procs-release_foreground s pid in
    let f = release_foreground s pid in
    ap (λ x. find x pid) (release_procs s pid)
    ∙ find-release_wm_self f pid (OwnWaiter-keep s f ep ew own)
    ∙ ap (λ x. find x pid) ep
