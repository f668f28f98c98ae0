-- ===== src/Process/Schedule.antt =====
-- The scheduler of kernel/system/process/process.c: `schedule` and `switch_to_process`.
pub mod Switch
pub mod Ring
pub mod Turn
pub mod Fair
use lufira_os.Base.{
  ℕ, zero, suc, ◌+◌, ◌-◌, ◌/◌, Bool, true, false, not, ◌&&◌, ◌||◌, Option, none, some, List, [],
  ◌∷◌, ◌++◌, ◌==◌, if◌then◌else◌,
}
use lufira_os.Mailbox.{ready, running, sleeping}
use lufira_os.Process.{Process, System, find, update, is_ready, is_running, set_state}

-- The processes behind `pid` in the list, and those up to it and with it.
pub behind : ℕ → List Process → List Process
behind pid [] = []
behind pid (p ∷ ps) = let rest = behind pid ps in if p.pid == pid then ps else rest

pub up_to : ℕ → List Process → List Process
up_to pid [] = []
up_to pid (p ∷ ps) = let rest = up_to pid ps in if p.pid == pid then p ∷ [] else p ∷ rest

-- The ring from `current_process->next` on, around to `current_process`.
unfoldable pub ring : System → List Process
ring s = behind s.current s.procs ++ up_to s.current s.procs

-- Can `schedule` choose the process? `idle_process` has pid 0.
unfoldable pub is_candidate : Process → Bool
is_candidate p = is_ready p.state && not (p.pid == 0)

-- The loop of `schedule`: the first process that can be chosen, in `tries` steps at most.
pub pick : (tries : ℕ) → List Process → Option Process
pick zero ps = none
pick (suc n) [] = none
pick (suc n) (p ∷ ps) = let later = pick n ps in if is_candidate p then some p else later

abbrev pub max_tries : ℕ
max_tries = 100

-- `switch_to_process`; a process that ran is ready again.
unfoldable pub switch_to_process : System → ℕ → System
switch_to_process s pid =
    let put_away =
      update s.current (λ p. if is_running p.state then set_state ready p else p) s.procs in
    record s {
      procs = update pid (λ p. record p { state = running; first_run = false }) put_away;
      current = pid;
    }

-- `schedule` when no process can be chosen: a running process goes on, and else it is idle's turn.
unfoldable pub no_candidate : System → System
no_candidate s = elim (find s.procs s.current) [
  | none ↦ s
  | some p ↦ if is_running p.state || s.current == 0 then s else switch_to_process s 0
]

-- `schedule`
unfoldable pub schedule : System → System
schedule s = elim (pick max_tries (ring s)) [
  | none ↦ no_candidate s
  | some p ↦ if p.pid == s.current then s else switch_to_process s p.pid
]

-- `process_sleep`, for a delay that is not 0; `ticks` is `pit_get_ticks()`.
unfoldable pub process_sleep : System → (ticks milliseconds : ℕ) → System
process_sleep s ticks milliseconds =
    let asleep : System = record s {
      procs =
          update s.current
            (λ p. record p { wakeup_tick = ticks + (milliseconds + 9) / 10; state = sleeping })
            s.procs;
    } in
    if milliseconds == 0 then s else schedule asleep
