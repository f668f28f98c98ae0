-- ===== src/Process/Ending.antt =====
-- The end of a process in kernel/system/process/process.c: what `process_exit` and
-- `terminate_process_by_signal` share. `spawner` is `respawn_shell_if_needed` of a shell: a call of
-- `shell_spawner_fn` when there is one.
pub mod Facts
pub mod Finish
pub mod Unregistered
use lufira_os.Base.{
  ℕ, zero, suc, ◌+◌, ◌*◌, ◌/◌, ◌%◌, ◌^◌, Bool, true, false, not, ◌&&◌, ◌||◌, Option, none, some,
  List, [], ◌∷◌, ◌++◌, replicate, leb, ◌==◌, if◌then◌else◌,
}
use lufira_os.Mailbox.{Mailbox, push, max_slots, ready, terminated}
use lufira_os.Process.{
  Process, System, Effect, driver_release, console_redraw, sound_ring_clear, find, update,
  set_state, is_blocked, wait_any_pid,
}

-- The first process of the list that passes a test.
pub first : (Process → Bool) → List Process → Option Process
first t [] = none
first t (p ∷ ps) = let rest = first t ps in if t p then some p else rest

-- The test in the loop of `find_waiting_parent`.
pub waits_for : (child : Process) → Process → Bool
waits_for child p =
    p.pid == child.ppid
    && is_blocked p.state
    && (p.wait_target_pid == child.pid || p.wait_target_pid == wait_any_pid)

pub find_waiting_parent : List Process → Process → Option Process
find_waiting_parent ps child = if child.ppid == 0 then none else first (waits_for child) ps

-- `wake_waiting_parent`: the parent it woke, if there is one.
unfoldable pub wake_waiting_parent : System → Process → System × Option ℕ
wake_waiting_parent s child = elim (find_waiting_parent s.procs child) [
  | none ↦ (s, none)
  | some w ↦ (
    record s {
      procs = update w.pid (λ p. record p { wait_target_pid = 0; state = ready }) s.procs;
    },
    some w.pid,
  )
]

-- The bytes of the `wm_request_t` that tells the window manager of the end of `pid`: the opcode
-- `WM_NOTIFY_PROCESS_EXIT`, `a[0]`, and zeros.
pub exit_notice : ℕ → List ℕ
exit_notice pid =
    102
    ∷ 0
    ∷ 0
    ∷ 0
    ∷ pid % 2 ^ 8
    ∷ pid / 2 ^ 8 % 2 ^ 8
    ∷ pid / 2 ^ 16 % 2 ^ 8
    ∷ pid / 2 ^ 24 % 2 ^ 8
    ∷ replicate 84 0

-- The waiter of a mailbox is ready.
unfoldable pub wake_waiter : Option ℕ → List Process → List Process
wake_waiter none ps = ps
wake_waiter (some w) ps = update w (set_state ready) ps

-- `mailbox_send` of the notice by the kernel, whose sender pid is 0.
unfoldable pub notify_wm : System → (pid : ℕ) → System
notify_wm s pid = elim (find s.procs s.wm_pid) [
  | none ↦ s
  | some wm ↦ if leb max_slots wm.mailbox.count then s else record s {
    procs = wake_waiter wm.mailbox.waiter (
        update s.wm_pid (λ p. record p { mailbox = push p.mailbox 0 (exit_notice pid) 92 })
          s.procs);
  }
]

-- The registrations that name the process are taken back, and the window manager is told.
unfoldable pub release_foreground : System → (pid : ℕ) → System
release_foreground s pid = if pid == s.foreground_pid then record s { foreground_pid = 0 } else s

unfoldable pub release_wm : System → (pid : ℕ) → System
release_wm s pid =
    if pid == s.wm_pid
    then record s { wm_pid = 0; log = console_redraw ∷ s.log }
    else if not (s.wm_pid == 0)
    then notify_wm s pid
    else s

unfoldable pub release_netd : System → (pid : ℕ) → System
release_netd s pid = if pid == s.netd_pid then record s { netd_pid = 0 } else s

unfoldable pub release_soundd : System → (pid : ℕ) → System
release_soundd s pid =
    if pid == s.soundd_pid then record s { soundd_pid = 0; log = sound_ring_clear ∷ s.log } else s

unfoldable pub release : System → (pid : ℕ) → System
release s pid = release_soundd (release_netd (release_wm (release_foreground s pid) pid) pid) pid

-- The process is marked as terminated, and its drivers are released.
unfoldable pub mark_terminated : System → (pid code : ℕ) → System
mark_terminated s pid code = record s {
  procs = update pid (λ p. record p { exit_code = code; state = terminated }) s.procs;
  log = driver_release pid ∷ s.log;
}

-- From `exit_code` to `wake_waiting_parent`, of the process `p`.
unfoldable pub finish :
    (spawner : System → System) → System → Process → (code : ℕ) → System × Option ℕ
finish spawner s p code =
    let released = release (mark_terminated s p.pid code) p.pid in
    let respawned = spawner released in
    wake_waiting_parent (if p.is_shell then respawned else released) p
