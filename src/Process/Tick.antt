-- ===== src/Process/Tick.antt =====
-- The timer of kernel/system/timer/pit.c: `timer_irq_handler`. The cursor, the screen and the USB
-- polls of a tick do not touch processes and are left out. `shell_handle_ctrl_c` is here too.
pub mod Order
pub mod Wakes
use lufira_os.Base.{
  ℕ, zero, suc, ◌+◌, ◌-◌, ◌%◌, ◌^◌, Bool, true, false, not, ◌&&◌, ◌||◌, Option, none, some, List,
  [], ◌∷◌, map, leb, ◌==◌, if◌then◌else◌,
}
use lufira_os.Mailbox.{ready}
use lufira_os.Process.{
  Process, System, find, update, set_state, is_sleeping, is_terminated, process_is_idle,
}
use lufira_os.Process.Schedule.{schedule}
use lufira_os.Process.Life.{Turn, reaped, refused, waits, process_wait, process_reap}
use lufira_os.Process.Signal.{process_signal, is_caught, sigint, sigalrm}

-- `pit_ticks`, `g_total_ticks`, `g_idle_ticks` and `preempt_countdown`
pub record Clock : Type 0 where
  pub pit_ticks : ℕ
  pub total_ticks : ℕ
  pub idle_ticks : ℕ
  pub preempt_countdown : ℕ

-- `PREEMPT_TIMESLICE_TICKS`
abbrev pub preempt_timeslice_ticks : ℕ
preempt_timeslice_ticks = 5

-- The body of the loop over the processes, for one of them: a sleeper that is due is ready, and an
-- alarm that is due is `SIGALRM`.
unfoldable pub wake_sleeper : (ticks : ℕ) → Process → Process
wake_sleeper ticks p =
    if is_sleeping p.state && leb p.wakeup_tick ticks then set_state ready p else p

unfoldable pub is_alarmed : (ticks : ℕ) → Process → Bool
is_alarmed ticks p = not (p.alarm_tick == 0) && leb p.alarm_tick ticks

unfoldable pub visit : (spawner : System → System) → (ticks : ℕ) → System → Process → System
visit spawner ticks s p =
    let woken : System = record s { procs = update p.pid (wake_sleeper ticks) s.procs } in
    let cleared : System = record s {
      procs = update p.pid (λ q. record (wake_sleeper ticks q) { alarm_tick = 0 }) s.procs;
    } in
    let (signalled, _) = process_signal spawner cleared p.pid sigalrm in
    if is_alarmed ticks p then signalled else woken

-- Does the signal end the process that the timer interrupted, so that the handler does not go on?
unfoldable pub is_last_visit : (ticks : ℕ) → System → Process → Bool
is_last_visit ticks s p =
    is_alarmed ticks p
    && p.pid == s.current
    && not (p.pid == 0)
    && not (is_caught p sigalrm)
    && not (is_terminated p.state)

-- The loop, over the pids of `process_list`: the state and whether the handler ends there.
unfoldable pub visit_all :
    (spawner : System → System) → (ticks : ℕ) → List ℕ → System → System × Bool
visit_all spawner ticks [] s = (s, false)
visit_all spawner ticks (pid ∷ pids) s =
    let next : System × Bool = elim (find s.procs pid) [
      | none ↦ (s, false)
      | some p ↦ (visit spawner ticks s p, is_last_visit ticks s p)
    ] in
    let rest = visit_all spawner ticks pids next.0 in if next.1 then next else rest

-- Is `pid` the current process, which `process_signal` ends, so that it does not return?
pub is_left : System → (pid sig : ℕ) → Bool
is_left s pid sig = elim (find s.procs pid) [
  | none ↦ false
  | some p ↦
      p.pid == s.current && not (p.pid == 0) && not (is_caught p sig) && not (is_terminated p.state)
]

-- Does the caller of `process_wait` block?
pub is_parked : Turn → Bool
is_parked (reaped pid code) = false
is_parked refused = false
is_parked waits = true

-- `shell_handle_ctrl_c` of kernel/shell/shell.c, without the shell's input line: the state and whether
-- it returns at once. Where its `process_wait` blocks, it goes on with `process_wait_resumed`.
pub shell_handle_ctrl_c : (spawner : System → System) → System → System × Bool
shell_handle_ctrl_c spawner s =
    let pid = s.foreground_pid in
    let (signalled, _) = process_signal spawner s pid sigint in
    let (waited, result) = process_wait signalled pid in
    if pid == 0
    then (s, true)
    else if is_left s pid sigint
    then (signalled, false)
    else (waited, not (is_parked result))

-- `timer_irq_handler`, with the code segment of the program that it interrupted; `ctrl_c` tells
-- whether `shell_ctrl_c_pending` is set.
pub after_visits :
    (spawner : System → System) → (ctrl_c : Bool) → Clock → (cs : ℕ) → System → System × Clock
after_visits spawner ctrl_c clock cs s =
    let reaped : System = process_reap s in
    let (interrupted, returns) =
      if ctrl_c then shell_handle_ctrl_c spawner reaped else (reaped, true) in
    let left = (clock.preempt_countdown + 2 ^ 32 - 1) % 2 ^ 32 in
    let preempted : System × Clock =
      if left == 0
      then (schedule interrupted, record clock { preempt_countdown = preempt_timeslice_ticks })
      else (interrupted, record clock { preempt_countdown = left }) in
    if returns && cs == 0x33 then preempted else (interrupted, clock)

abbrev pub tick_clock : System → Clock → Clock
tick_clock s clock = record clock {
  pit_ticks = (clock.pit_ticks + 1) % 2 ^ 64;
  total_ticks = (clock.total_ticks + 1) % 2 ^ 64;
  idle_ticks = if process_is_idle s then (clock.idle_ticks + 1) % 2 ^ 64 else clock.idle_ticks;
}

abbrev pub count_tick : System → System
count_tick s = record s {
  procs = update s.current (λ p. record p { cpu_ticks = (p.cpu_ticks + 1) % 2 ^ 64 }) s.procs;
}

-- A tick up to the end of the loop over the processes.
abbrev pub visited_all : (spawner : System → System) → System → Clock → System × Bool
visited_all spawner s clock =
    visit_all spawner (tick_clock s clock).pit_ticks
      (map (λ (p : Process). p.pid) (count_tick s).procs) (count_tick s)

pub timer_irq_handler :
    (spawner : System → System) → (ctrl_c : Bool) → (cs : ℕ) → System × Clock → System × Clock
timer_irq_handler spawner ctrl_c cs (s, clock) =
    let ticked = tick_clock s clock in
    let (visited, ends) = visited_all spawner s clock in
    let rest = after_visits spawner ctrl_c ticked cs visited in
    if ends then (visited, ticked) else rest
