-- ===== src/Process/Invariant/Reach.antt =====
-- The steps of the process list, and the states reached by them.
use lufira_os.Base.{ℕ, ◌+◌, ◌^◌, ◌<◌, ◌≡◌, ◌≢◌, Bool, true, Option, some, List}
use lufira_os.Process.{Process, System, find, update, wait_any_pid}
use lufira_os.Process.Schedule.{schedule, process_sleep}
use lufira_os.Process.Life.{
  Grant, process_create, process_discard, process_exit, process_wait, process_wait_resumed,
  process_reap, process_init,
}
use lufira_os.Process.Signal.{process_signal}
use lufira_os.Process.Tick.{Clock, visited_all, timer_irq_handler}
use lufira_os.Process.Tick.Order.{IsSound-timer_irq_handler}
use lufira_os.Process.Invariant.{IsSound, KeepsIds}
use lufira_os.Process.Invariant.Stores.{
  IsSound-store, IsSound-schedule, IsSound-process_sleep, KeepsSound,
}
use lufira_os.Process.Invariant.Steps.{
  IsSound-process_init, IsSound-process_create, IsSound-process_discard, IsSound-process_exit,
}
use lufira_os.Process.Invariant.Always.{
  MayWait, IsSound-process_signal, IsSound-process_wait, IsSound-process_wait_resumed,
}
use lufira_os.Process.Invariant.Reap.{IsSound-process_reap}

-- One step: a call of the process manager, a tick of the timer with or without Ctrl+C, a new
-- foreground process or server, or a store of another part of the kernel into a process that keeps its
-- pids. `next_pid` has not wrapped around,
-- `idle_process` waits for a definite process only, as for Ctrl+C, and `foreground_pid` is not
-- `WAIT_ANY_PID` when Ctrl+C is handled.
pub data Step (spawner : System → System) : System → System → Type 0 where
  creates :
      (s : System) (name : List ℕ) (entry : ℕ) (g : Grant)
      → s.next_pid + 1 < 2 ^ 32
      → Step spawner s (process_create s name entry g).0
  discards :
      (s : System) (pid : ℕ) (p : Process)
      → pid ≢ 0
      → find s.procs pid ≡ some p
      → Step spawner s (process_discard s pid)
  schedules : (s : System) → Step spawner s (schedule s)
  sleeps :
      (s : System) (ticks milliseconds : ℕ) → Step spawner s (process_sleep s ticks milliseconds)
  exits : (s t : System) (code : ℕ) → process_exit spawner s code ≡ some t → Step spawner s t
  signals : (s : System) (pid sig : ℕ) → Step spawner s (process_signal spawner s pid sig).0
  waits : (s : System) (pid : ℕ) → MayWait s pid → Step spawner s (process_wait s pid).0
  resumes : (s : System) (pid : ℕ) → MayWait s pid → Step spawner s (process_wait_resumed s pid).0
  reaps : (s : System) → Step spawner s (process_reap s)
  ticks_on :
      (s : System) (ctrl_c : Bool) (cs : ℕ) (clock : Clock)
      → (ctrl_c ≡ true
          → (process_reap (visited_all spawner s clock).0).foreground_pid ≢ wait_any_pid)
      → Step spawner s (timer_irq_handler spawner ctrl_c cs (s, clock)).0
  stores :
      (s : System) (pid : ℕ) (f : Process → Process)
      → KeepsIds f
      → Step spawner s (record s { procs = update pid f s.procs })
  names_foreground : (s : System) (pid : ℕ) → Step spawner s (record s { foreground_pid = pid })
  names_servers :
      (s : System) (wm netd soundd : ℕ)
      → Step spawner s (record s { wm_pid = wm; netd_pid = netd; soundd_pid = soundd })

pub data Reachable (spawner : System → System) : System → Type 0 where
  starts :
      (page_table : ℕ) (block : Option Process) (fpu : Bool) (s : System)
      → process_init page_table block fpu ≡ some s
      → Reachable spawner s
  goes : {s t : System} → Reachable spawner s → Step spawner s t → Reachable spawner t

pub Step-IsSound :
    (spawner : System → System) (s t : System)
    → KeepsSound spawner
    → Step spawner s t
    → IsSound s
    → IsSound t
Step-IsSound spawner _ _ k (creates s name entry g small) h =
    IsSound-process_create s name entry g small h
Step-IsSound spawner _ _ k (discards s pid p nz e) h = IsSound-process_discard s pid p nz e h
Step-IsSound spawner _ _ k (schedules s) h = IsSound-schedule s h
Step-IsSound spawner _ _ k (sleeps s ticks milliseconds) h =
    IsSound-process_sleep s ticks milliseconds h
Step-IsSound spawner _ _ k (exits s t code e) h = IsSound-process_exit spawner s t code k e h
Step-IsSound spawner _ _ k (signals s pid sig) h = IsSound-process_signal spawner s pid sig k h
Step-IsSound spawner _ _ k (waits s pid nz) h = IsSound-process_wait s pid nz h
Step-IsSound spawner _ _ k (resumes s pid nz) h = IsSound-process_wait_resumed s pid nz h
Step-IsSound spawner _ _ k (reaps s) h = IsSound-process_reap s h
Step-IsSound spawner _ _ k (ticks_on s ctrl_c cs clock na) h =
    IsSound-timer_irq_handler spawner ctrl_c cs s clock k na h
Step-IsSound spawner _ _ k (stores s pid f keep) h = IsSound-store s pid f keep h
Step-IsSound spawner _ _ k (names_foreground s pid) h = h
Step-IsSound spawner _ _ k (names_servers s wm netd soundd) h = h

-- In every state that is reached from a `process_init` that succeeds, the process list starts with
-- `idle_process`, no pid stands twice and every pid is below `next_pid`, `process_count` is the number
-- of the other processes, and it is at most 32. The steps are `process_create`, `process_discard`,
-- `schedule`, `process_sleep`, `process_exit`, `process_signal`, `process_wait`, `process_reap`, ticks
-- of the timer with or without Ctrl+C, new values of the foreground's and the servers' pids, and stores
-- that keep a process's pid and parent. The conditions: what starts a shell (`spawner`) keeps the
-- invariant; `next_pid` does not wrap around; only a listed process but `idle_process` is discarded;
-- `idle_process` waits only for a definite pid, neither 0 nor `WAIT_ANY_PID`; and `foreground_pid` is
-- not `WAIT_ANY_PID` when Ctrl+C is handled.
pub Reachable-IsSound :
    (spawner : System → System) (t : System) → KeepsSound spawner → Reachable spawner t → IsSound t
Reachable-IsSound spawner t k (starts page_table block fpu _ e) =
    IsSound-process_init page_table block fpu t e
Reachable-IsSound spawner t k (goes {s = s} r st) =
    Step-IsSound spawner s t k st (Reachable-IsSound spawner s k r)
