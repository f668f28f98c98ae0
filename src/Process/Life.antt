-- ===== src/Process/Life.antt =====
-- The life of a process in kernel/system/process/process.c: `process_init`, `process_create`,
-- `process_exit`, `process_wait`, `process_commit_exec`, `process_fork` and `process_reap`.
pub mod Waiting
use lufira_os.Base.{
  ℕ, zero, suc, ◌+◌, ◌-◌, ◌*◌, ◌%◌, ◌^◌, Bool, true, false, not, ◌&&◌, ◌||◌, Option, none, some,
  List, [], ◌∷◌, ◌++◌, replicate, take, leb, ◌==◌, if◌then◌else◌,
}
use lufira_os.Mailbox.{Mailbox, mailbox_init, ready, blocked, terminated}
use lufira_os.Process.{
  Process, System, Context, no_context, MmapRegion, FreeRange, find, update, remove, set_state,
  is_terminated, max_processes, wait_any_pid, mmap_area_start,
}
use lufira_os.Process.Ending.{finish}
use lufira_os.Process.Schedule.{schedule, switch_to_process}

abbrev pub no_region : MmapRegion
no_region = record { addr = 0; size = 0; shared_id = some 0 }

abbrev pub no_range : FreeRange
no_range = record { addr = 0; size = 0 }

-- `process_init`, in the kernel's address space `page_table`; `name` is "idle" and `stale` is the
-- block that `kmalloc` gives, with what it held before.
unfoldable pub idle_process : (page_table : ℕ) → (stale : Process) → Process
idle_process page_table stale = record stale {
  pid = 0;
  ppid = 0;
  exit_code = 0;
  wait_target_pid = 0;
  state = ready;
  stack_base = 0;
  stack_size = 0;
  ring0_stack = 0;
  is_shell = false;
  first_run = false;
  next_mmap_addr = mmap_area_start;
  mmap_regions = replicate 32 no_region;
  mmap_free_ranges = replicate 32 no_range;
  signal_handlers = replicate 32 0;
  pending_signal = 0;
  in_signal_handler = false;
  alarm_tick = 0;
  sig_stack_top = 0;
  cwd_inode = 1;
  cwd_path = 47 ∷ [];
  uid = 0;
  gid = 0;
  cpu_ticks = 0;
  name = 105 ∷ 100 ∷ 108 ∷ 101 ∷ [];
  page_table = page_table;
}

unfoldable pub first_system : (page_table : ℕ) → (stale : Process) → System
first_system page_table stale = record {
  procs = idle_process page_table stale ∷ [];
  current = 0;
  foreground_pid = 0;
  wm_pid = 0;
  netd_pid = 0;
  soundd_pid = 0;
  next_pid = 1;
  process_count = 0;
  log = [];
}

-- `none` is both returns that leave the kernel without a process: no block, or no FPU area for it.
unfoldable pub process_init :
    (page_table : ℕ) → (block : Option Process) → (fpu : Bool) → Option System
process_init page_table none fpu = none
process_init page_table (some stale) fpu =
    if fpu then some (first_system page_table stale) else none

-- What the rest of the kernel grants to a new process: a block for `process_t` and the addresses,
-- 0 when there is no memory. Where no code writes, the block holds what it held before.
pub record Grant : Type 0 where
  pub block : Bool
  pub page_table : ℕ
  pub ring0_stack : ℕ
  pub stack_base : ℕ
  pub sig_stack_top : ℕ
  pub fpu : Bool
  pub stale_wakeup_tick : ℕ
  pub stale_context : Context
  pub stale_mailbox : Mailbox

-- The process that `process_create` builds; `entry` 0 is `NULL`.
unfoldable pub new_process : System → (name : List ℕ) → (entry : ℕ) → Grant → Process
new_process s name entry g =
    let parent = find s.procs s.current in
    let rsp = (g.stack_base + 2 ^ 64 - 24) % 2 ^ 64 in
    record {
      pid = s.next_pid;
      ppid = elim parent [ none ↦ 0 | some p ↦ p.pid ];
      name = take 31 name;
      state = ready;
      wakeup_tick = g.stale_wakeup_tick;
      exit_code = 0;
      wait_target_pid = 0;
      context = record no_context { rsp = rsp; rip = entry; rflags = 0x202; cr3 = g.page_table };
      stack_base = g.stack_base;
      stack_size = 16384;
      ring0_stack = g.ring0_stack;
      page_table = g.page_table;
      mmap_regions = replicate 32 no_region;
      next_mmap_addr = mmap_area_start;
      mmap_free_ranges = replicate 32 no_range;
      cwd_path = 47 ∷ [];
      cwd_inode = 1;
      uid = elim parent [ none ↦ 0 | some p ↦ p.uid ];
      gid = elim parent [ none ↦ 0 | some p ↦ p.gid ];
      is_shell = false;
      signal_handlers = replicate 32 0;
      pending_signal = 0;
      in_signal_handler = false;
      saved_signal_context = g.stale_context;
      sig_stack_top = g.sig_stack_top;
      alarm_tick = 0;
      first_run = entry == 0;
      cpu_ticks = 0;
      mailbox = mailbox_init g.stale_mailbox;
    }

-- `process_create`: the pid of the new process. A pid is used up as soon as the block is there.
unfoldable pub process_create : System → (name : List ℕ) → (entry : ℕ) → Grant → System × Option ℕ
process_create s name entry g =
    let p = new_process s name entry g in
    let numbered : System = record s { next_pid = (s.next_pid + 1) % 2 ^ 32 } in
    if leb max_processes s.process_count
    then (s, none)
    else if not g.block
    then (s, none)
    else if g.page_table == 0
    then (numbered, none)
    else if g.ring0_stack == 0
    then (numbered, none)
    else if g.stack_base == 0
    then (numbered, none)
    else if not g.fpu
    then (numbered, none)
    else (
      record numbered { procs = s.procs ++ (p ∷ []); process_count = s.process_count + 1 },
      some p.pid,
    )

-- `process_remove_from_list`
unfoldable pub process_remove_from_list : System → (pid : ℕ) → System
process_remove_from_list s pid = record s {
  procs = remove pid s.procs;
  process_count = s.process_count - 1;
}

-- `process_discard`
unfoldable pub process_discard : System → (pid : ℕ) → System
process_discard s pid =
    process_remove_from_list (record s { procs = update pid (set_state terminated) s.procs }) pid

-- `process_exit` of the current process: the state in which another process goes on. It does not
-- return; without a current process it stops the machine.
unfoldable pub process_exit : (spawner : System → System) → System → (code : ℕ) → Option System
process_exit spawner s code = elim (find s.procs s.current) [
  | none ↦ none
  | some p ↦
      let (finished, waiter) = finish spawner s p code in
      elim waiter [ none ↦ some (schedule finished) | some w ↦ some (switch_to_process finished w) ]
]

-- The scan of `process_wait`.
pub data Scan : Type 0 where
  zombie : Process → Scan
  alive : Scan
  childless : Scan

unfoldable pub is_child : (caller target : ℕ) → Process → Bool
is_child caller target p = p.ppid == caller && (target == wait_any_pid || p.pid == target)

abbrev pub with_child : Scan → Scan
with_child (zombie p) = zombie p
with_child alive = alive
with_child childless = alive

unfoldable pub scan : (caller target : ℕ) → List Process → Scan
scan caller target [] = childless
scan caller target (p ∷ ps) =
    let rest = scan caller target ps in
    if is_child caller target p
    then if is_terminated p.state then zombie p else with_child rest
    else rest

-- One turn of the loop of `process_wait`: it returns a child's pid and exit code, or -1, or the
-- caller blocks and another process goes on.
pub data Turn : Type 0 where
  reaped : (pid code : ℕ) → Turn
  refused : Turn
  waits : Turn

unfoldable pub wait_turn : System → (target : ℕ) → System × Turn
wait_turn s target = elim (scan s.current target s.procs) [
  | zombie z ↦ (process_remove_from_list s z.pid, reaped z.pid z.exit_code)
  | childless ↦ (s, refused)
  | alive ↦
      let parked : System = record s {
        procs =
            update s.current (λ p. record p { wait_target_pid = target; state = blocked }) s.procs;
      } in
      (schedule parked, waits)
]

abbrev pub wait_target : ℕ → ℕ
wait_target pid = if pid == 0 then wait_any_pid else pid

-- `process_wait(pid)` up to its first `schedule()`, and from a `schedule()` on.
unfoldable pub process_wait : System → (pid : ℕ) → System × Turn
process_wait s pid = wait_turn s (wait_target pid)

unfoldable pub process_wait_resumed : System → (pid : ℕ) → System × Turn
process_wait_resumed s pid =
    let woken : System = record s {
      procs = update s.current (λ p. record p { wait_target_pid = 0 }) s.procs;
    } in
    wait_turn woken (wait_target pid)

-- `process_commit_exec`, with the signal stack that memory was found for, or 0.
pub process_commit_exec :
    System → (pid : ℕ) → (new_pml4 new_stack sig_stack_top : ℕ) → (name : List ℕ) → System
process_commit_exec s pid new_pml4 new_stack sig_stack_top name = record s {
  procs =
      update pid
        (λ p. record p {
          page_table = new_pml4;
          stack_base = new_stack;
          stack_size = 128 * 1024;
          sig_stack_top = sig_stack_top;
          next_mmap_addr = mmap_area_start;
          mmap_regions = replicate 32 no_region;
          mmap_free_ranges = replicate 32 no_range;
          signal_handlers = replicate 32 0;
          pending_signal = 0;
          in_signal_handler = false;
          alarm_tick = 0;
          name = take 31 name;
        })
        s.procs;
}

-- `process_reap`: the terminated processes but `idle_process`, which stands first in the list and
-- is never terminated, are taken out, and the count falls by one for each.
unfoldable pub reap : List Process → (count : ℕ) → List Process × ℕ
reap [] count = ([], count)
reap (p ∷ ps) count =
    let gone = reap ps (count - 1) in
    let (rest, left) = reap ps count in
    if is_terminated p.state && not (p.pid == 0) then gone else (p ∷ rest, left)

unfoldable pub process_reap : System → System
process_reap s =
    let (kept, left) = reap s.procs s.process_count in
    record s { procs = kept; process_count = left }
