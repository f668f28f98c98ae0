-- ===== src/Process/Ending/Finish.antt =====
-- The process that ends, its parent and the registrations, when the end is done.
use lufira_os.Base.{
  ℕ, ◌≡◌, ◌≢◌, ◌⊎◌, inl, inr, refl, sym, ap, subst, ◌∙◌, Bool, true, false, ◌&&◌, ◌||◌, Option,
  none, some, List, [], ◌∷◌, ◌==◌, if◌then◌else◌, Bool-cases, Option-cases,
}
use lufira_os.Mailbox.{Mailbox, ready, blocked, terminated}
use lufira_os.Process.{Process, System, find, update, wait_any_pid, is_blocked}
use lufira_os.Process.Table.{
  ==_self, ==_eq, ==_ne, find-update_same, find-update_other, find-update_back, pid-find,
}
use lufira_os.Process.Ending.{
  first, waits_for, find_waiting_parent, wake_waiting_parent, release, mark_terminated, finish,
}
use lufira_os.Process.Ending.Facts.{OwnWaiter, Spawns, find-release, find-release_self}

-- The process as its end leaves it.
abbrev pub ended : Process → (code : ℕ) → Process
ended p code = record p { exit_code = code; state = terminated }

OwnWaiter-mark_terminated :
    (s : System) (pid code : ℕ) → OwnWaiter s → OwnWaiter (mark_terminated s pid code)
unfolding mark_terminated
OwnWaiter-mark_terminated s pid code own q h =
    let (p, there, change) =
      find-update_back s.procs pid s.wm_pid (λ p. record p { exit_code = code; state = terminated })
        q (λ p. refl) h in
    let same : q.mailbox ≡ p.mailbox = elim change [
      | inl e ↦ ap (λ (r : Process). r.mailbox) e
      | inr e ↦ ap (λ (r : Process). r.mailbox) e
    ] in
    subst (λ (m : Mailbox). (m.waiter ≡ none) ⊎ (m.waiter ≡ some s.wm_pid)) (sym same) (own p there)

-- The state when the parent is looked for.
before_wake : (spawner : System → System) → System → Process → ℕ → System
before_wake spawner s p code =
    let released = release (mark_terminated s p.pid code) p.pid in
    let respawned = spawner released in if p.is_shell then respawned else released

find-respawn :
    (spawner : System → System) (b : Bool) (s : System) (pid : ℕ) (p : Process)
    → Spawns spawner
    → find s.procs pid ≡ some p
    → find (if b then spawner s else s).procs pid ≡ some p
find-respawn spawner true s pid p sp h = sp.keeps s pid p h
find-respawn spawner false s pid p sp h = h

find-before_wake_self :
    (spawner : System → System) (s : System) (p : Process) (code : ℕ)
    → Spawns spawner
    → OwnWaiter s
    → find s.procs p.pid ≡ some p
    → find (before_wake spawner s p code).procs p.pid ≡ some (ended p code)
unfolding before_wake mark_terminated
find-before_wake_self spawner s p code sp own h =
    let marked = mark_terminated s p.pid code in
    find-respawn spawner p.is_shell (release marked p.pid) p.pid (ended p code) sp (
      find-release_self marked p.pid (OwnWaiter-mark_terminated s p.pid code own)
      ∙ find-update_same s.procs p.pid (λ q. record q { exit_code = code; state = terminated }) p
          (λ q. refl) h)

find-before_wake :
    (spawner : System → System) (s : System) (p : Process) (code other : ℕ) (q : Process)
    → Spawns spawner
    → OwnWaiter s
    → other ≢ p.pid
    → other ≢ s.wm_pid
    → find s.procs other ≡ some q
    → find (before_wake spawner s p code).procs other ≡ some q
unfolding before_wake mark_terminated
find-before_wake spawner s p code other q sp own ne nw h =
    let marked = mark_terminated s p.pid code in
    find-respawn spawner p.is_shell (release marked p.pid) other q sp (
      find-release marked p.pid other (OwnWaiter-mark_terminated s p.pid code own) nw
      ∙ find-update_other s.procs p.pid other
          (λ q. record q { exit_code = code; state = terminated }) (λ q. refl) ne
      ∙ h)

-- The parent that waits is the first in the list that passes the test.
&&-first : (a b : Bool) → (a && b) ≡ true → a ≡ true
&&-first true b h = refl
&&-first false b h = absurd cc

&&-second : (a b : Bool) → (a && b) ≡ true → b ≡ true
&&-second true b h = h
&&-second false b h = absurd cc

not_waiting : (c p : Process) → (p.pid == c.ppid) ≡ false → waits_for c p ≡ false
unfolding waits_for
not_waiting c p e = rw e refl

first-waits_for :
    (ps : List Process) (c w : Process)
    → find ps c.ppid ≡ some w
    → waits_for c w ≡ true
    → first (waits_for c) ps ≡ some w
unfolding find first
first-waits_for [] c w h t = absurd cc
first-waits_for (p ∷ ps) c w h t = elim (Bool-cases (p.pid == c.ppid)) [
  | inl e ↦
      let found : some p ≡ some w = rw e at h in
      let same : p ≡ w = cc in
      let t' : waits_for c p ≡ true = ap (waits_for c) same ∙ t in rw t' found
  | inr e ↦ rw (not_waiting c p e) (first-waits_for ps c w (rw e at h) t)
]

wake-parent :
    (s : System) (c w : Process)
    → c.ppid ≢ 0
    → find s.procs c.ppid ≡ some w
    → waits_for c w ≡ true
    → wake_waiting_parent s c ≡ (
      record s {
        procs = update c.ppid (λ p. record p { wait_target_pid = 0; state = ready }) s.procs;
      },
      some c.ppid,
    )
unfolding wake_waiting_parent find_waiting_parent
wake-parent s c w nz h t =
    let parent : w.pid ≡ c.ppid = pid-find s.procs c.ppid w h in
    rw
      (
        wake_waiting_parent,
        find_waiting_parent,
        ==_ne c.ppid 0 nz,
        first-waits_for s.procs c w h t,
        parent,
      )
      refl

first-passes :
    (t : Process → Bool) (ps : List Process) (w : Process) → first t ps ≡ some w → t w ≡ true
unfolding first
first-passes t [] w h = absurd cc
first-passes t (p ∷ ps) w h = elim (Bool-cases (t p)) [
  | inl e ↦ let found : some p ≡ some w = rw e at h in let same : p ≡ w = cc in ap t (sym same) ∙ e
  | inr e ↦ first-passes t ps w (rw e at h)
]

waits_for-pid : (c w : Process) → waits_for c w ≡ true → w.pid ≡ c.ppid
unfolding waits_for
waits_for-pid c w h = ==_eq w.pid c.ppid (
    &&-first (w.pid == c.ppid) (is_blocked w.state) (
      &&-first (w.pid == c.ppid && is_blocked w.state)
        (w.wait_target_pid == c.pid || w.wait_target_pid == wait_any_pid) h))

-- The wake-up leaves every process alone but the parent.
find-wake :
    (s : System) (c : Process) (other : ℕ)
    → other ≢ c.ppid
    → find (wake_waiting_parent s c).0.procs other ≡ find s.procs other
unfolding wake_waiting_parent find_waiting_parent
find-wake s c other ne = elim (Bool-cases (c.ppid == 0)) [
  | inl z ↦ rw (wake_waiting_parent, find_waiting_parent, z) refl
  | inr z ↦ elim (Option-cases (first (waits_for c) s.procs)) [
    | inl e ↦ rw (wake_waiting_parent, find_waiting_parent, z, e) refl
    | inr (w, e) ↦
        let parent : w.pid ≡ c.ppid = waits_for-pid c w (first-passes (waits_for c) s.procs w e) in
        rw (wake_waiting_parent, find_waiting_parent, z, e)
          (find-update_other s.procs w.pid other
            (λ p. record p { wait_target_pid = 0; state = ready }) (λ p. refl)
            (λ h. ne (h ∙ parent)))
  ]
]

pub waits_for-exact :
    (c w : Process)
    → w.pid ≡ c.ppid
    → w.state ≡ blocked
    → w.wait_target_pid ≡ c.pid
    → waits_for c w ≡ true
unfolding waits_for
waits_for-exact c w e b t =
    let own : (w.pid == c.ppid) ≡ true = ap (λ n. n == c.ppid) e ∙ ==_self c.ppid in
    let target : (w.wait_target_pid == c.pid) ≡ true = ap (λ n. n == c.pid) t ∙ ==_self c.pid in
    rw (own, b, target) refl

finish_lem :
    (spawner : System → System) (s : System) (p : Process) (code : ℕ)
    → finish spawner s p code ≡ wake_waiting_parent (before_wake spawner s p code) p
unfolding finish before_wake
finish_lem spawner s p code = refl

-- The process that ends has its exit code, and its state is terminated.
pub find-finish :
    (spawner : System → System) (s : System) (p : Process) (code : ℕ)
    → Spawns spawner
    → OwnWaiter s
    → find s.procs p.pid ≡ some p
    → p.pid ≢ p.ppid
    → find (finish spawner s p code).0.procs p.pid ≡ some (ended p code)
find-finish spawner s p code sp own h ne =
    ap (λ (x : System × Option ℕ). find x.0.procs p.pid) (finish_lem spawner s p code)
    ∙ find-wake (before_wake spawner s p code) p p.pid ne
    ∙ find-before_wake_self spawner s p code sp own h

-- The parent that waits for it is woken.
pub finish-parent :
    (spawner : System → System) (s : System) (p w : Process) (code : ℕ)
    → Spawns spawner
    → OwnWaiter s
    → find s.procs p.ppid ≡ some w
    → waits_for p w ≡ true
    → p.ppid ≢ 0
    → p.ppid ≢ p.pid
    → p.ppid ≢ s.wm_pid
    → ((finish spawner s p code).1 ≡ some p.ppid)
      × (find (finish spawner s p code).0.procs p.ppid
          ≡ some (record w { wait_target_pid = 0; state = ready }))
finish-parent spawner s p w code sp own h t nz ne nw =
    let b = before_wake spawner s p code in
    let there = find-before_wake spawner s p code p.ppid w sp own ne nw h in
    let woken = finish_lem spawner s p code ∙ wake-parent b p w nz there t in
    (
      ap (λ (x : System × Option ℕ). x.1) woken,
      ap (λ (x : System × Option ℕ). find x.0.procs p.ppid) woken
          ∙ find-update_same b.procs p.ppid (λ q. record q { wait_target_pid = 0; state = ready }) w
              (λ q. refl) there,
    )
