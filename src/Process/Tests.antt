-- ===== src/Process/Tests.antt =====
-- Runs of the process manager at concrete inputs.
use lufira_os.Base.{
  ◌+◌, List, map, ℕ, suc, ◌-◌, ◌^◌, ◌<◌, ◌≡◌, refl, sym, ap, true, false, Option, none, some, [],
  ◌∷◌, ◌++◌, ◌==◌, if◌then◌else◌, ◌⊎◌, inl, arith,
}
use lufira_os.Mailbox.{sleeping, Mailbox, State, ready, running, blocked, terminated}
use lufira_os.Process.{Process, System, Context, no_context, find, update}
use lufira_os.Process.Schedule.{switch_to_process, is_candidate}
use lufira_os.Process.Invariant.Stores.{KeepsSound}
use lufira_os.Process.Ending.Facts.{OwnWaiter, Spawns, registers}
use lufira_os.Process.Ending.Finish.{ended}
use lufira_os.Process.Ending.Unregistered.{clear_all}
use lufira_os.Process.Life.{
  reap, process_remove_from_list, scan, is_child, wait_turn, Grant, process_init, first_system,
  idle_process, process_exit, reaped, refused, process_wait, process_wait_resumed, process_reap,
}
use lufira_os.Process.Life.Waiting.{process_exit-process_wait_resumed}
use lufira_os.Process.Schedule.Fair.{schedule_times}
use lufira_os.Process.Signal.{
  is_caught, is_catchable, process_signal, dispatch, save_frame, Frame, is_deliverable,
  process_deliver_pending_signal, process_sigreturn, syscall_handler, process_kill,
}
use lufira_os.Process.Signal.Delivery.{
  process_deliver_pending_signal-process_sigreturn, syscall_handler-sigreturn_rax,
}
use lufira_os.Process.Signal.Sending.{process_kill_lem}
use lufira_os.Process.Signal.Catching.{process_signal-process_deliver_pending_signal}
use lufira_os.Process.Tick.{
  wake_sleeper, Clock, visit_all, visit, is_last_visit, is_alarmed, visited_all, timer_irq_handler,
}
use lufira_os.Process.Tick.Wakes.{Pointwise, Woken, visit_all-Woken}
use lufira_os.Process.Fork.{process_fork}
use lufira_os.Process.Fork.Child.{Possible, IsChild, process_fork_lem}
use lufira_os.Process.Foreground.{Descends, process_set_foreground, process_set_foreground_lem}
use lufira_os.Process.Invariant.{IsSound}
use lufira_os.Process.Invariant.Reap.{process_reap-process_wait}
use lufira_os.Process.Invariant.Reach.{starts, goes, ticks_on, names_foreground, Reachable-IsSound}
use lufira_os.Process.Invariant.Runs.{schedule-runs}

abbrev mailbox : Mailbox
mailbox = record { slots = []; head = 0; tail = 0; count = 0; waiter = none }

abbrev plain : (pid ppid : ℕ) → State → Process
plain pid ppid state = record {
  pid = pid;
  ppid = ppid;
  name = [];
  state = state;
  wakeup_tick = 0;
  exit_code = 0;
  wait_target_pid = 0;
  context = no_context;
  stack_base = 0;
  stack_size = 0;
  ring0_stack = 0;
  page_table = 0;
  mmap_regions = [];
  next_mmap_addr = 0;
  mmap_free_ranges = [];
  cwd_path = [];
  cwd_inode = 1;
  uid = 0;
  gid = 0;
  is_shell = false;
  signal_handlers = 0 ∷ 0 ∷ 4096 ∷ [];
  pending_signal = 0;
  in_signal_handler = false;
  saved_signal_context = no_context;
  sig_stack_top = 8192;
  alarm_tick = 0;
  first_run = false;
  cpu_ticks = 0;
  mailbox = mailbox;
}

-- The idle process, a shell with pid 1 that waits for its child 2, and the child, which runs.
abbrev waiting_shell : Process
waiting_shell = record (plain 1 0 blocked) { wait_target_pid = 2 }

abbrev three : System
three = record {
  procs = plain 0 0 ready ∷ waiting_shell ∷ plain 2 1 running ∷ [];
  current = 2;
  foreground_pid = 2;
  wm_pid = 0;
  netd_pid = 0;
  soundd_pid = 0;
  next_pid = 3;
  process_count = 2;
  log = [];
}

no_spawner : System → System
no_spawner s = s

no_spawner-Spawns : Spawns no_spawner
unfolding no_spawner
no_spawner-Spawns = record { keeps = λ s pid p h. h; kept = λ s. refl }

three-OwnWaiter : OwnWaiter three
unfolding find
three-OwnWaiter q h =
    let same : plain 0 0 ready ≡ q = cc in inl (ap (λ (p : Process). p.mailbox.waiter) (sym same))

process_exit-process_wait_resumed_example :
    (t : System) × (process_exit no_spawner three 7 ≡ some t)
    × (t.current ≡ 1)
    × ((process_wait_resumed t 2).1 ≡ reaped 2 7)
    × (find (process_wait_resumed t 2).0.procs 2 ≡ none)
unfolding find
process_exit-process_wait_resumed_example =
    process_exit-process_wait_resumed no_spawner three (plain 2 1 running) waiting_shell 7
      no_spawner-Spawns three-OwnWaiter refl refl refl refl (λ e. omega (arith, e))
      (λ e. omega (arith, e)) (λ e. omega (arith, e)) (λ e. omega (arith, e))
      (λ e. omega (arith, e))

-- The same with a second process that is ready, and the shell ready too.
abbrev busy : System
busy = record three {
  procs = plain 0 0 ready ∷ plain 1 0 ready ∷ plain 2 1 running ∷ plain 3 1 ready ∷ [];
  next_pid = 4;
  process_count = 3;
}

busy-IsSound : IsSound busy
busy-IsSound = record {
  idle = plain 0 0 ready;
  rest = plain 1 0 ready ∷ plain 2 1 running ∷ plain 3 1 ready ∷ [];
  split = refl;
  zero_pid = refl;
  no_parent = refl;
  unique = (
    (λ e. omega (arith, e), (λ e. omega (arith, e), (λ e. omega (arith, e), tt))),
    ((λ e. omega (arith, e), (λ e. omega (arith, e), tt)), ((λ e. omega (arith, e), tt), (tt, tt))),
  );
  counted = refl;
  bounded = omega arith;
  below = (omega arith, (omega arith, (omega arith, (omega arith, tt))));
}

schedule-runs_example : (n : ℕ) × (n < 4) × ((schedule_times (suc n) busy).current ≡ 1)
unfolding find is_candidate
schedule-runs_example =
    schedule-runs busy (plain 2 1 running) (plain 1 0 ready) busy-IsSound refl refl refl
      (λ e. omega (arith, e))

busy-OwnWaiter : OwnWaiter busy
unfolding find
busy-OwnWaiter q h =
    let same : plain 0 0 ready ≡ q = cc in inl (ap (λ (p : Process). p.mailbox.waiter) (sym same))

process_kill_lem_example :
    ((process_kill no_spawner busy 3).1 ≡ true)
    × (find (process_kill no_spawner busy 3).0.procs 3 ≡ some (ended (plain 3 1 ready) 137))
    × (registers (process_kill no_spawner busy 3).0 ≡ clear_all 3 (registers busy))
unfolding find
process_kill_lem_example =
    process_kill_lem no_spawner busy (plain 3 1 ready) no_spawner-Spawns busy-OwnWaiter refl
      (λ e. omega (arith, e)) (λ e. omega (arith, e)) (λ e. omega (arith, e)) refl

no_spawner-KeepsSound : KeepsSound no_spawner
unfolding no_spawner
no_spawner-KeepsSound s h = h

abbrev booted : System
booted = first_system 7 (plain 5 5 blocked)

started : process_init 7 (some (plain 5 5 blocked)) true ≡ some booted
unfolding process_init
started = refl

abbrev clock : Clock
clock = record { pit_ticks = 8; total_ticks = 8; idle_ticks = 8; preempt_countdown = 1 }

-- A pid is in the foreground when Ctrl+C is pressed.
abbrev watched : System
watched = record booted { foreground_pid = 3 }

still_watched : (process_reap (visited_all no_spawner watched clock).0).foreground_pid ≡ 3
unfolding process_reap reap visit_all visit is_last_visit is_alarmed first_system idle_process find
    update wake_sleeper
still_watched = refl

Reachable-IsSound_example : IsSound (timer_irq_handler no_spawner true 0x33 (watched, clock)).0
Reachable-IsSound_example =
    Reachable-IsSound no_spawner (timer_irq_handler no_spawner true 0x33 (watched, clock)).0
      no_spawner-KeepsSound
      (goes
        (goes (starts 7 (some (plain 5 5 blocked)) true booted started) (names_foreground booted 3))
        (ticks_on watched true 0x33 clock (λ e. λ x. omega (arith, x, still_watched))))

-- A frame of a program that makes the system call 5, and the process when `SIGINT` is pending.
abbrev frame : Frame
frame = record {
  r9 = 1;
  r8 = 2;
  r10 = 3;
  rdx = 4;
  rsi = 5;
  rdi = 6;
  rax = 5;
  r15 = 8;
  r14 = 9;
  r13 = 10;
  r12 = 11;
  rbp = 12;
  rbx = 13;
  rflags = 0x202;
  rip = 1000;
  align_pad = 0;
  user_rsp = 2000;
}

abbrev interrupted : Process
interrupted = record (plain 2 1 running) { pending_signal = 2 }

abbrev pending : System
pending = record three { procs = plain 0 0 ready ∷ interrupted ∷ [] }

abbrev saved : Context
saved = record no_context {
  rax = 5;
  rbx = 13;
  rdx = 4;
  rsi = 5;
  rdi = 6;
  rbp = 12;
  r8 = 2;
  r9 = 1;
  r10 = 3;
  r12 = 11;
  r13 = 10;
  r14 = 9;
  r15 = 8;
  rsp = 2000;
  rip = 1000;
  rflags = 0x202;
}

abbrev handling : Process
handling = record (plain 2 1 running) { in_signal_handler = true; saved_signal_context = saved }

abbrev handled : System
handled = record three { procs = plain 0 0 ready ∷ handling ∷ [] }

abbrev handler_frame : Frame
handler_frame = record frame { rax = 47; rip = 4100; rdi = 0; user_rsp = 8000 }

process_deliver_pending_signal-process_sigreturn_example :
    ((process_sigreturn handled handler_frame).1 ≡ record frame { rax = 47; align_pad = 0 })
    × ((process_sigreturn handled handler_frame).2 ≡ 5)
unfolding find is_deliverable process_deliver_pending_signal save_frame update
process_deliver_pending_signal-process_sigreturn_example =
    process_deliver_pending_signal-process_sigreturn pending handled frame handler_frame interrupted
      handling handling refl refl refl refl refl

-- The system call 5 returns 99.
call : System → Frame → System × ℕ
call s f = (s, 99)

no_fork : System → Frame → System × ℕ
no_fork s f = (s, 0)

table : ℕ → Option (System → Frame → System × ℕ)
table n = if n == 5 then some call else none

syscall_handler-sigreturn_rax_example :
    (syscall_handler no_fork table handled handler_frame 47).2 ≡ 5
unfolding find is_deliverable process_deliver_pending_signal save_frame update table call
    syscall_handler dispatch
syscall_handler-sigreturn_rax_example =
    syscall_handler-sigreturn_rax no_fork table pending handled frame handler_frame call interrupted
      handling handling refl (λ e. omega (arith, e)) (λ e. omega (arith, e)) refl refl refl refl
      refl

-- A child with pid 2 has ended, and `process_reap` runs before its parent asks for it.
abbrev dead_child : System
dead_child = record three {
  procs = plain 0 0 ready ∷ plain 1 0 running ∷ plain 2 1 terminated ∷ [];
  current = 1;
}

dead_child-IsSound : IsSound dead_child
dead_child-IsSound = record {
  idle = plain 0 0 ready;
  rest = plain 1 0 running ∷ plain 2 1 terminated ∷ [];
  split = refl;
  zero_pid = refl;
  no_parent = refl;
  unique = (
    (λ e. omega (arith, e), (λ e. omega (arith, e), tt)),
    ((λ e. omega (arith, e), tt), (tt, tt)),
  );
  counted = refl;
  bounded = omega arith;
  below = (omega arith, (omega arith, (omega arith, tt)));
}

process_reap-process_wait_example :
    process_wait (process_reap dead_child) 2 ≡ (process_reap dead_child, refused)
unfolding find
process_reap-process_wait_example =
    process_reap-process_wait dead_child (plain 2 1 terminated) dead_child-IsSound refl refl
      (λ e. omega (arith, e)) (λ e. omega (arith, e))

process_wait_test : (process_wait dead_child 2).1 ≡ reaped 2 0
unfolding process_wait wait_turn scan is_child process_remove_from_list
process_wait_test = refl

-- The shell chooses its grandchild for the foreground.
abbrev family : System
family = record three {
  procs = plain 0 0 ready ∷ plain 1 0 running ∷ plain 2 1 ready ∷ plain 3 2 ready ∷ [];
  next_pid = 4;
}

process_set_foreground_lem_example :
    ((process_set_foreground family 1 3 ≡ (record family { foreground_pid = 3 }, true))
      × ((steps : ℕ) × (steps < 32) × Descends family.procs 1 2 steps))
    ⊎ ((process_set_foreground family 1 3 ≡ (family, false))
        × ((steps : ℕ) → steps < 32 → Descends family.procs 1 2 steps → ⊥))
unfolding find
process_set_foreground_lem_example =
    process_set_foreground_lem family 1 3 (plain 3 2 ready) (λ e. omega (arith, e)) refl

abbrev grant : Grant
grant = record {
  block = true;
  page_table = 1;
  ring0_stack = 2;
  stack_base = 3;
  sig_stack_top = 4;
  fpu = true;
  stale_wakeup_tick = 0;
  stale_context = no_context;
  stale_mailbox = mailbox;
}

process_fork_lem_example :
    (Possible family grant 9
      × ((child : Process) × IsChild (plain 2 1 ready) frame 9 4 grant child
          × (process_fork family frame grant 9 ≡ (
            record family {
              next_pid = 5;
              procs = family.procs ++ (child ∷ []);
              process_count = family.process_count + 1;
            },
            4,
          ))))
    ⊎ (¬ (Possible family grant 9)
        × ((process_fork family frame grant 9).1 ≡ 2 ^ 64 - 1)
        × ((process_fork family frame grant 9).0.procs ≡ family.procs)
        × ((process_fork family frame grant 9).0.process_count ≡ family.process_count)
        × ((process_fork family frame grant 9).0.current ≡ family.current))
unfolding find
process_fork_lem_example = process_fork_lem family frame grant 9 (plain 2 1 ready) refl (
  λ e. omega (arith, e),
  (λ e. omega (arith, e), (λ e. omega (arith, e), (λ e. omega (arith, e), tt))),
)

process_signal-process_deliver_pending_signal_example :
    ((process_signal no_spawner busy 3 2).1 ≡ true)
    × ((process_deliver_pending_signal
          (switch_to_process (process_signal no_spawner busy 3 2).0 3)
          frame).1
        ≡ record frame { rip = 4096; user_rsp = 8192; rdi = 2 })
unfolding find is_caught is_catchable
process_signal-process_deliver_pending_signal_example =
    process_signal-process_deliver_pending_signal no_spawner busy (plain 3 1 ready) 2 frame refl
      (λ e. omega (arith, e)) refl (λ e. omega (arith, e))

-- At tick 50, one sleeper is due since tick 40 and another one is not before tick 60.
abbrev dozing : System
dozing = record busy {
  procs =
      plain 0 0 ready
      ∷ record (plain 1 0 sleeping) { wakeup_tick = 40 }
      ∷ record (plain 2 1 sleeping) { wakeup_tick = 60 }
      ∷ plain 3 1 ready
      ∷ [];
}

visit_all-Woken_example :
    (ps : List Process) × Pointwise (Woken 50) dozing.procs ps
    × (visit_all no_spawner 50 (map (λ (p : Process). p.pid) dozing.procs) dozing
        ≡ (record dozing { procs = ps }, false))
visit_all-Woken_example =
    visit_all-Woken no_spawner 50 dozing busy-IsSound.unique (refl, (refl, (refl, (refl, tt))))
