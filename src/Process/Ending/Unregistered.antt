-- ===== src/Process/Ending/Unregistered.antt =====
-- A process that has ended is not registered any more: not in the foreground, nor as a server.
use lufira_os.Base.{
  ℕ, ◌≡◌, inl, inr, refl, ap, ◌∙◌, Bool, true, false, ◌==◌, leb, if◌then◌else◌, Bool-cases,
  Option-cases,
}
use lufira_os.Mailbox.{max_slots}
use lufira_os.Process.{Process, System, find}
use lufira_os.Process.Ending.{
  find_waiting_parent, wake_waiting_parent, notify_wm, release_foreground, release_wm, release_netd,
  release_soundd, release, mark_terminated, finish,
}
use lufira_os.Process.Ending.Facts.{Registers, registers, Spawns}

abbrev pub clear : (pid n : ℕ) → ℕ
clear pid n = if pid == n then 0 else n

pub clear_all : ℕ → Registers → Registers
clear_all pid r = record {
  current = r.current;
  foreground = clear pid r.foreground;
  wm = clear pid r.wm;
  netd = clear pid r.netd;
  soundd = clear pid r.soundd;
}

registers-notify_wm : (s : System) (pid : ℕ) → registers (notify_wm s pid) ≡ registers s
unfolding registers notify_wm
registers-notify_wm s pid = elim (Option-cases (find s.procs s.wm_pid)) [
  | inl h ↦ rw (notify_wm, h) refl
  | inr (q, h) ↦ elim (Bool-cases (leb max_slots q.mailbox.count)) [
    | inl e ↦ rw (notify_wm, h, e) refl
    | inr e ↦ rw (notify_wm, h, e) refl
  ]
]

registers-wake : (s : System) (c : Process) → registers (wake_waiting_parent s c).0 ≡ registers s
unfolding registers wake_waiting_parent
registers-wake s c = elim (Option-cases (find_waiting_parent s.procs c)) [
  | inl h ↦ rw (wake_waiting_parent, h) refl
  | inr (q, h) ↦ rw (wake_waiting_parent, h) refl
]

registers-foreground :
    (s : System) (pid : ℕ)
    → registers (release_foreground s pid)
      ≡ (let r = registers s in record r { foreground = clear pid r.foreground })
unfolding registers release_foreground
registers-foreground s pid = elim (Bool-cases (pid == s.foreground_pid)) [
  | inl e ↦ rw (release_foreground, e) refl
  | inr e ↦ rw (release_foreground, e) refl
]

registers-netd :
    (s : System) (pid : ℕ)
    → registers (release_netd s pid) ≡ (let r = registers s in record r { netd = clear pid r.netd })
unfolding registers release_netd
registers-netd s pid = elim (Bool-cases (pid == s.netd_pid)) [
  | inl e ↦ rw (release_netd, e) refl
  | inr e ↦ rw (release_netd, e) refl
]

registers-soundd :
    (s : System) (pid : ℕ)
    → registers (release_soundd s pid)
      ≡ (let r = registers s in record r { soundd = clear pid r.soundd })
unfolding registers release_soundd
registers-soundd s pid = elim (Bool-cases (pid == s.soundd_pid)) [
  | inl e ↦ rw (release_soundd, e) refl
  | inr e ↦ rw (release_soundd, e) refl
]

registers-wm :
    (s : System) (pid : ℕ)
    → registers (release_wm s pid) ≡ (let r = registers s in record r { wm = clear pid r.wm })
unfolding registers release_wm
registers-wm s pid = elim (Bool-cases (pid == s.wm_pid)) [
  | inl e ↦ rw (release_wm, e) refl
  | inr e ↦ elim (Bool-cases (s.wm_pid == 0)) [
    | inl z ↦ rw (release_wm, e, z) refl
    | inr z ↦
        let told : release_wm s pid ≡ notify_wm s pid = rw (release_wm, e, z) refl in
        let other : registers s ≡ (let r = registers s in record r { wm = clear pid r.wm }) =
          rw e refl in
        ap registers told ∙ registers-notify_wm s pid ∙ other
  ]
]

registers-release : (s : System) (pid : ℕ) → registers (release s pid) ≡ clear_all pid (registers s)
unfolding release clear_all
registers-release s pid =
    let f = release_foreground s pid in
    let w = release_wm f pid in
    let n = release_netd w pid in
    registers-soundd n pid
    ∙ ap (λ (r : Registers). record r { soundd = clear pid r.soundd }) (registers-netd w pid)
    ∙ ap (λ (r : Registers). record r { netd = clear pid r.netd; soundd = clear pid r.soundd })
        (registers-wm f pid)
    ∙ ap
        (λ (r : Registers). record r {
          wm = clear pid r.wm;
          netd = clear pid r.netd;
          soundd = clear pid r.soundd;
        })
        (registers-foreground s pid)

registers-mark : (s : System) (pid code : ℕ) → registers (mark_terminated s pid code) ≡ registers s
unfolding registers mark_terminated
registers-mark s pid code = refl

registers-respawn :
    (spawner : System → System) (b : Bool) (s : System)
    → Spawns spawner
    → registers (if b then spawner s else s) ≡ registers s
registers-respawn spawner true s sp = sp.kept s
registers-respawn spawner false s sp = refl

-- The end of a process clears its registrations, and no others.
pub registers-finish :
    (spawner : System → System) (s : System) (p : Process) (code : ℕ)
    → Spawns spawner
    → registers (finish spawner s p code).0 ≡ clear_all p.pid (registers s)
unfolding finish
registers-finish spawner s p code sp =
    let marked = mark_terminated s p.pid code in
    let released = release marked p.pid in
    let respawned = if p.is_shell then spawner released else released in
    registers-wake respawned p
    ∙ registers-respawn spawner p.is_shell released sp
    ∙ registers-release marked p.pid
    ∙ ap (clear_all p.pid) (registers-mark s p.pid code)
