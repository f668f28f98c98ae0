-- ===== src/Process/Tick/Order.antt =====
-- A tick keeps the process list in order.
use lufira_os.Base.{
  ℕ, ◌+◌, ◌-◌, ◌%◌, ◌^◌, ◌≡◌, ◌≢◌, refl, true, Bool, ◌&&◌, List, [], ◌∷◌, map, ◌==◌, leb,
  if◌then◌else◌, Bool-cases, Option-cases, inl, inr,
}
use lufira_os.Process.{Process, System, find, update, is_sleeping, wait_any_pid}
use lufira_os.Process.Table.{==_not}
use lufira_os.Process.Signal.{process_signal, sigint, sigalrm}
use lufira_os.Process.Life.{process_reap}
use lufira_os.Process.Invariant.{IsSound, KeepsIds}
use lufira_os.Process.Invariant.Stores.{KeepsSound, IsSound-store, IsSound-schedule}
use lufira_os.Process.Invariant.Always.{IsSound-process_signal, IsSound-process_wait}
use lufira_os.Process.Invariant.Reap.{IsSound-process_reap}
use lufira_os.Process.Tick.{
  Clock, wake_sleeper, is_alarmed, visit, is_last_visit, visit_all, after_visits, timer_irq_handler,
  is_left, shell_handle_ctrl_c, tick_clock, count_tick, visited_all,
}

wake_sleeper-KeepsIds : (ticks : ℕ) → KeepsIds (wake_sleeper ticks)
unfolding wake_sleeper
wake_sleeper-KeepsIds ticks p = elim (Bool-cases (is_sleeping p.state && leb p.wakeup_tick ticks)) [
  | inl e ↦ rw e (refl, refl)
  | inr e ↦ rw e (refl, refl)
]

IsSound-visit :
    (spawner : System → System) (ticks : ℕ) (s : System) (p : Process)
    → KeepsSound spawner
    → IsSound s
    → IsSound (visit spawner ticks s p)
unfolding visit
IsSound-visit spawner ticks s p k h =
    let clear : Process → Process = λ q. record (wake_sleeper ticks q) { alarm_tick = 0 } in
    let cleared : System = record s { procs = update p.pid clear s.procs } in
    let sound : IsSound cleared =
      IsSound-store s p.pid clear (λ q. wake_sleeper-KeepsIds ticks q) h in
    elim (Bool-cases (is_alarmed ticks p)) [
      | inl e ↦ rw (visit, e) (IsSound-process_signal spawner cleared p.pid sigalrm k sound)
      | inr e ↦
          rw (visit, e) (IsSound-store s p.pid (wake_sleeper ticks) (wake_sleeper-KeepsIds ticks) h)
    ]

IsSound-visit_all :
    (spawner : System → System) (ticks : ℕ) (pids : List ℕ) (s : System)
    → KeepsSound spawner
    → IsSound s
    → IsSound (visit_all spawner ticks pids s).0
unfolding visit_all
IsSound-visit_all spawner ticks [] s k h = h
IsSound-visit_all spawner ticks (pid ∷ pids) s k h = elim (Option-cases (find s.procs pid)) [
  | inl e ↦ rw (visit_all, e) (IsSound-visit_all spawner ticks pids s k h)
  | inr (p, e) ↦
      let sound = IsSound-visit spawner ticks s p k h in
      elim (Bool-cases (is_last_visit ticks s p)) [
        | inl l ↦ rw (visit_all, e, l) sound
        | inr l ↦
            rw (visit_all, e, l)
              (IsSound-visit_all spawner ticks pids (visit spawner ticks s p) k sound)
      ]
]

-- Ctrl+C, where `foreground_pid` is not `WAIT_ANY_PID`.
pub IsSound-shell_handle_ctrl_c :
    (spawner : System → System) (s : System)
    → KeepsSound spawner
    → s.foreground_pid ≢ wait_any_pid
    → IsSound s
    → IsSound (shell_handle_ctrl_c spawner s).0
unfolding shell_handle_ctrl_c
IsSound-shell_handle_ctrl_c spawner s k na h =
    let pid = s.foreground_pid in
    let signalled = process_signal spawner s pid sigint in
    let sound : IsSound signalled.0 = IsSound-process_signal spawner s pid sigint k h in
    elim (Bool-cases (pid == 0)) [
      | inl z ↦ rw (shell_handle_ctrl_c, z) h
      | inr z ↦ elim (Bool-cases (is_left s pid sigint)) [
        | inl l ↦ rw (shell_handle_ctrl_c, z, l) sound
        | inr l ↦
            rw (shell_handle_ctrl_c, z, l)
              (IsSound-process_wait signalled.0 pid (inr (==_not pid 0 z, na)) sound)
      ]
    ]

IsSound-after_visits :
    (spawner : System → System) (ctrl_c : Bool) (clock : Clock) (cs : ℕ) (s : System)
    → KeepsSound spawner
    → (ctrl_c ≡ true → (process_reap s).foreground_pid ≢ wait_any_pid)
    → IsSound s
    → IsSound (after_visits spawner ctrl_c clock cs s).0
unfolding after_visits
IsSound-after_visits spawner ctrl_c clock cs s k na h =
    let interrupted =
      if ctrl_c then shell_handle_ctrl_c spawner (process_reap s) else (process_reap s, true) in
    let sound : IsSound interrupted.0 = handled (IsSound-process_reap s h) in
    elim (Bool-cases (interrupted.1 && cs == 0x33)) [
      | inr e ↦ rw (after_visits, e) sound
      | inl e ↦ elim (Bool-cases ((clock.preempt_countdown + 2 ^ 32 - 1) % 2 ^ 32 == 0)) [
        | inl z ↦ rw (after_visits, e, z) (IsSound-schedule interrupted.0 sound)
        | inr z ↦ rw (after_visits, e, z) sound
      ]
    ]
  where
    handled :
        IsSound (process_reap s)
        → IsSound
            (if ctrl_c
              then shell_handle_ctrl_c spawner (process_reap s)
              else (process_reap s, true)).0
    handled r = elim (Bool-cases ctrl_c) [
      | inl e ↦ rw e (IsSound-shell_handle_ctrl_c spawner (process_reap s) k (na e) r)
      | inr e ↦ rw e r
    ]

-- A tick; when Ctrl+C is handled in it, `foreground_pid` is not `WAIT_ANY_PID`.
pub IsSound-timer_irq_handler :
    (spawner : System → System) (ctrl_c : Bool) (cs : ℕ) (s : System) (clock : Clock)
    → KeepsSound spawner
    → (ctrl_c ≡ true → (process_reap (visited_all spawner s clock).0).foreground_pid ≢ wait_any_pid)
    → IsSound s
    → IsSound (timer_irq_handler spawner ctrl_c cs (s, clock)).0
unfolding timer_irq_handler
IsSound-timer_irq_handler spawner ctrl_c cs s clock k na h =
    let counted = count_tick s in
    let sound : IsSound counted =
      IsSound-store s s.current (λ p. record p { cpu_ticks = (p.cpu_ticks + 1) % 2 ^ 64 })
        (λ p. (refl, refl)) h in
    let ticked = tick_clock s clock in
    let visited = visited_all spawner s clock in
    let kept : IsSound visited.0 =
      IsSound-visit_all spawner ticked.pit_ticks (map (λ (p : Process). p.pid) counted.procs)
        counted k sound in
    elim (Bool-cases visited.1) [
      | inl e ↦ rw (timer_irq_handler, e) kept
      | inr e ↦
          rw (timer_irq_handler, e)
            (IsSound-after_visits spawner ctrl_c ticked cs visited.0 k na kept)
    ]
