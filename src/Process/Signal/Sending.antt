-- ===== src/Process/Signal/Sending.antt =====
-- What signals do to a process that does not run.
use lufira_os.Base.{ℕ, ◌+◌, ◌≡◌, ◌≢◌, refl, ap, ◌∙◌, Bool, true, false, some}
use lufira_os.Mailbox.{ready, stopped}
use lufira_os.Process.{Process, System, find, update, set_state, is_terminated, is_stopped}
use lufira_os.Process.Table.{==_ne, find-update_same}
use lufira_os.Process.Ending.{finish}
use lufira_os.Process.Ending.Facts.{OwnWaiter, Spawns, registers}
use lufira_os.Process.Ending.Finish.{ended, find-finish}
use lufira_os.Process.Ending.Unregistered.{clear_all, registers-finish}
use lufira_os.Process.Signal.{
  is_caught, is_catchable, sigkill, sigstop, sigcont, default_action, terminate_process_by_signal,
  process_signal, process_kill,
}

terminate_other :
    (spawner : System → System) (s : System) (p : Process) (sig : ℕ)
    → p.pid ≢ s.current
    → is_terminated p.state ≡ false
    → terminate_process_by_signal spawner s p sig ≡ (finish spawner s p (128 + sig)).0
unfolding terminate_process_by_signal
terminate_other spawner s p sig nc nt = rw (nt, ==_ne p.pid s.current nc) refl

kill_uncaught : (p : Process) → is_caught p sigkill ≡ false
unfolding is_caught is_catchable
kill_uncaught p = refl

process_signal-default :
    (spawner : System → System) (s : System) (p : Process) (sig : ℕ)
    → find s.procs p.pid ≡ some p
    → p.pid ≢ 0
    → is_caught p sig ≡ false
    → process_signal spawner s p.pid sig ≡ default_action spawner s p sig
unfolding process_signal
process_signal-default spawner s p sig h nz nc = rw (process_signal, h, ==_ne p.pid 0 nz, nc) refl

process_kill-terminate :
    (spawner : System → System) (s : System) (p : Process)
    → find s.procs p.pid ≡ some p
    → p.pid ≢ 0
    → process_kill spawner s p.pid ≡ (terminate_process_by_signal spawner s p sigkill, true)
unfolding process_kill default_action is_catchable
process_kill-terminate spawner s p h nz =
    process_signal-default spawner s p sigkill h nz (kill_uncaught p)

-- `process_kill` of a process that is not idle, not the current one, not its own parent and not yet
-- terminated returns 0, whatever handlers it has: the process is terminated, its exit code is 137,
-- no registration names it any more, and the other registrations and the current process are kept.
-- The starter of the shell only adds a process, and only the window manager waits on its mailbox.
pub process_kill_lem :
    (spawner : System → System) (s : System) (p : Process)
    → Spawns spawner
    → OwnWaiter s
    → find s.procs p.pid ≡ some p
    → p.pid ≢ 0
    → p.pid ≢ p.ppid
    → p.pid ≢ s.current
    → is_terminated p.state ≡ false
    → ((process_kill spawner s p.pid).1 ≡ true)
      × (find (process_kill spawner s p.pid).0.procs p.pid ≡ some (ended p 137))
      × (registers (process_kill spawner s p.pid).0 ≡ clear_all p.pid (registers s))
process_kill_lem spawner s p sp own h nz np nc nt =
    let killed = process_kill-terminate spawner s p h nz in
    let over : (process_kill spawner s p.pid).0 ≡ (finish spawner s p 137).0 =
      ap (λ (x : System × Bool). x.0) killed ∙ terminate_other spawner s p sigkill nc nt in
    (
      ap (λ (x : System × Bool). x.1) killed,
      ap (λ (x : System). find x.procs p.pid) over ∙ find-finish spawner s p 137 sp own h np,
      ap registers over ∙ registers-finish spawner s p 137 sp,
    )

uncaught_stop : (p : Process) → (is_caught p sigstop ≡ false) × (is_caught p sigcont ≡ false)
unfolding is_caught is_catchable
uncaught_stop p = (refl, refl)

process_signal-stop :
    (spawner : System → System) (s : System) (p : Process)
    → find s.procs p.pid ≡ some p
    → p.pid ≢ 0
    → p.pid ≢ s.current
    → is_terminated p.state ≡ false
    → process_signal spawner s p.pid sigstop
      ≡ (record s { procs = update p.pid (set_state stopped) s.procs }, true)
unfolding default_action is_catchable
process_signal-stop spawner s p h nz nc nt =
    let acted : default_action spawner s p sigstop
        ≡ (record s { procs = update p.pid (set_state stopped) s.procs }, true) =
      rw (default_action, nt, ==_ne p.pid s.current nc) refl in
    process_signal-default spawner s p sigstop h nz (uncaught_stop p).0 ∙ acted

process_signal-cont :
    (spawner : System → System) (s : System) (p : Process)
    → find s.procs p.pid ≡ some p
    → p.pid ≢ 0
    → is_stopped p.state ≡ true
    → process_signal spawner s p.pid sigcont
      ≡ (record s { procs = update p.pid (set_state ready) s.procs }, true)
unfolding default_action is_catchable
process_signal-cont spawner s p h nz st =
    let acted : default_action spawner s p sigcont
        ≡ (record s { procs = update p.pid (set_state ready) s.procs }, true) =
      rw (default_action, st) refl in
    process_signal-default spawner s p sigcont h nz (uncaught_stop p).1 ∙ acted

-- `SIGSTOP` and then `SIGCONT` to a process that is neither idle nor the current one nor
-- terminated: both return 0, it is stopped in between, and in the end it is ready, also when it was
-- blocked or asleep before.
pub process_signal-stop_cont :
    (spawner : System → System) (s : System) (p : Process)
    → find s.procs p.pid ≡ some p
    → p.pid ≢ 0
    → p.pid ≢ s.current
    → is_terminated p.state ≡ false
    → (t : System) × (process_signal spawner s p.pid sigstop ≡ (t, true))
      × (find t.procs p.pid ≡ some (set_state stopped p))
      × ((process_signal spawner t p.pid sigcont).1 ≡ true)
      × (find (process_signal spawner t p.pid sigcont).0.procs p.pid ≡ some (set_state ready p))
process_signal-stop_cont spawner s p h nz nc nt =
    let t : System = record s { procs = update p.pid (set_state stopped) s.procs } in
    let there : find t.procs p.pid ≡ some (set_state stopped p) =
      find-update_same s.procs p.pid (set_state stopped) p (λ q. refl) h in
    let on = process_signal-cont spawner t (set_state stopped p) there nz refl in
    (
      t,
      process_signal-stop spawner s p h nz nc nt,
      there,
      ap (λ (x : System × Bool). x.1) on,
      ap (λ (x : System × Bool). find x.0.procs p.pid) on
          ∙ find-update_same t.procs p.pid (set_state ready) (set_state stopped p) (λ q. refl)
              there,
    )
