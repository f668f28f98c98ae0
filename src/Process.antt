-- ===== src/Process.antt =====
-- Processes, kernel/system/process/process.c: the ring of processes as a list that starts at
-- `process_list`, a process known by its pid. The process with pid 0 is `idle_process`. Memory for
-- a process (its tables, stacks and FPU area) is granted or refused by an argument; its open files
-- are left out. The parts below run with interrupts off, so that each is one step.
pub mod Table
mod Tests
pub mod Schedule
pub mod Ending
pub mod Life
pub mod Signal
pub mod Invariant
pub mod Fork
pub mod Foreground
pub mod Tick
use lufira_os.Base.{
  ℕ, zero, suc, ◌+◌, ◌-◌, ◌*◌, ◌%◌, ◌^◌, Bool, true, false, not, ◌&&◌, ◌||◌, Option, none, some,
  List, [], ◌∷◌, ◌++◌, replicate, take, ltb, leb, ◌==◌, if◌then◌else◌,
}
use lufira_os.Mailbox.{
  Mailbox, no_msg, State, ready, running, blocked, sleeping, terminated, stopped,
}

-- `MAX_PROCESSES` and `WAIT_ANY_PID`
abbrev pub max_processes : ℕ
max_processes = 32

abbrev pub wait_any_pid : ℕ
wait_any_pid = 2 ^ 32 - 1

abbrev pub mmap_area_start : ℕ
mmap_area_start = 0x0000600000000000

-- `process_context_t`, without the fields that no code here reads.
pub record Context : Type 0 where
  pub rax : ℕ
  pub rbx : ℕ
  pub rdx : ℕ
  pub rsi : ℕ
  pub rdi : ℕ
  pub rbp : ℕ
  pub r8 : ℕ
  pub r9 : ℕ
  pub r10 : ℕ
  pub r12 : ℕ
  pub r13 : ℕ
  pub r14 : ℕ
  pub r15 : ℕ
  pub rsp : ℕ
  pub rip : ℕ
  pub rflags : ℕ
  pub cr3 : ℕ

abbrev pub no_context : Context
no_context = record {
  rax = 0;
  rbx = 0;
  rdx = 0;
  rsi = 0;
  rdi = 0;
  rbp = 0;
  r8 = 0;
  r9 = 0;
  r10 = 0;
  r12 = 0;
  r13 = 0;
  r14 = 0;
  r15 = 0;
  rsp = 0;
  rip = 0;
  rflags = 0;
  cr3 = 0;
}

-- `mmap_region_t`; `length` 0 is a free slot, and no `shared_id` is -1.
pub record MmapRegion : Type 0 where
  pub addr : ℕ
  pub size : ℕ
  pub shared_id : Option ℕ

-- `mmap_free_range_t`
pub record FreeRange : Type 0 where
  pub addr : ℕ
  pub size : ℕ

-- `process_t`
pub record Process : Type 0 where
  pub pid : ℕ
  pub ppid : ℕ
  pub name : List ℕ
  pub state : State
  pub wakeup_tick : ℕ
  pub exit_code : ℕ
  pub wait_target_pid : ℕ
  pub context : Context
  pub stack_base : ℕ
  pub stack_size : ℕ
  pub ring0_stack : ℕ
  pub page_table : ℕ
  pub mmap_regions : List MmapRegion
  pub next_mmap_addr : ℕ
  pub mmap_free_ranges : List FreeRange
  pub cwd_path : List ℕ
  pub cwd_inode : ℕ
  pub uid : ℕ
  pub gid : ℕ
  pub is_shell : Bool
  pub signal_handlers : List ℕ
  pub pending_signal : ℕ
  pub in_signal_handler : Bool
  pub saved_signal_context : Context
  pub sig_stack_top : ℕ
  pub alarm_tick : ℕ
  pub first_run : Bool
  pub cpu_ticks : ℕ
  pub mailbox : Mailbox

-- What the end of a process asks of other parts of the kernel.
pub data Effect : Type 0 where
  driver_release : (pid : ℕ) → Effect
  console_redraw : Effect
  sound_ring_clear : Effect

-- The globals: `process_list`, `current_process`, the pids of the foreground process and of the
-- servers, `next_pid`, `process_count`, and the effects so far, the latest first.
pub record System : Type 0 where
  pub procs : List Process
  pub current : ℕ
  pub foreground_pid : ℕ
  pub wm_pid : ℕ
  pub netd_pid : ℕ
  pub soundd_pid : ℕ
  pub next_pid : ℕ
  pub process_count : ℕ
  pub log : List Effect

-- `process_find_by_pid`
pub find : List Process → ℕ → Option Process
find [] pid = none
find (p ∷ ps) pid = let rest = find ps pid in if p.pid == pid then some p else rest

-- A store into the process `pid`.
pub update : ℕ → (Process → Process) → List Process → List Process
update pid f [] = []
update pid f (p ∷ ps) = (if p.pid == pid then f p else p) ∷ update pid f ps

-- The list without the process `pid`.
pub remove : ℕ → List Process → List Process
remove pid [] = []
remove pid (p ∷ ps) = let rest = remove pid ps in if p.pid == pid then rest else p ∷ rest

abbrev pub set_state : State → Process → Process
set_state st p = record p { state = st }

abbrev pub is_ready : State → Bool
is_ready ready = true
is_ready _ = false

abbrev pub is_running : State → Bool
is_running running = true
is_running _ = false

abbrev pub is_blocked : State → Bool
is_blocked blocked = true
is_blocked _ = false

abbrev pub is_sleeping : State → Bool
is_sleeping sleeping = true
is_sleeping _ = false

abbrev pub is_terminated : State → Bool
is_terminated terminated = true
is_terminated _ = false

abbrev pub is_stopped : State → Bool
is_stopped stopped = true
is_stopped _ = false

-- `process_is_idle`
pub process_is_idle : System → Bool
process_is_idle s = s.current == 0

-- `process_get_foreground` and the like.
pub process_get_foreground : System → ℕ
process_get_foreground s = s.foreground_pid

pub process_get_wm_pid : System → ℕ
process_get_wm_pid s = s.wm_pid

pub process_get_netd_pid : System → ℕ
process_get_netd_pid s = s.netd_pid

pub process_get_soundd_pid : System → ℕ
process_get_soundd_pid s = s.soundd_pid

-- The registrations of the servers: the state after it and whether 0 is returned.
pub process_wm_register : System → ℕ → System × Bool
process_wm_register s pid = if s.wm_pid == 0 then (record s { wm_pid = pid }, true) else (s, false)

pub process_wm_unregister : System → ℕ → System × Bool
process_wm_unregister s pid =
    if s.wm_pid == pid then (record s { wm_pid = 0 }, true) else (s, false)

pub process_netd_register : System → ℕ → System × Bool
process_netd_register s pid =
    if s.netd_pid == 0 then (record s { netd_pid = pid }, true) else (s, false)

pub process_netd_unregister : System → ℕ → System × Bool
process_netd_unregister s pid =
    if s.netd_pid == pid then (record s { netd_pid = 0 }, true) else (s, false)

pub process_soundd_register : System → ℕ → System × Bool
process_soundd_register s pid =
    if s.soundd_pid == 0 then (record s { soundd_pid = pid }, true) else (s, false)

pub process_soundd_unregister : System → ℕ → System × Bool
process_soundd_unregister s pid =
    if s.soundd_pid == pid then (record s { soundd_pid = 0 }, true) else (s, false)

-- An entry of `process_pslist`
pub record PsEntry : Type 0 where
  pub pid : ℕ
  pub ppid : ℕ
  pub name : List ℕ
  pub state : State
  pub uid : ℕ
  pub cpu_ticks : ℕ

pub process_pslist : List Process → (max_count : ℕ) → List PsEntry
process_pslist ps zero = []
process_pslist [] (suc n) = []
process_pslist (p ∷ ps) (suc n) =
    record {
      pid = p.pid;
      ppid = p.ppid;
      name = p.name;
      state = p.state;
      uid = p.uid;
      cpu_ticks = p.cpu_ticks;
    }
    ∷ process_pslist ps n
