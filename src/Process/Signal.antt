-- ===== src/Process/Signal.antt =====
-- Signals in kernel/system/process/process.c: `process_signal` and what it calls, and the delivery to
-- a handler by `process_deliver_pending_signal` and `process_sigreturn`.
pub mod Delivery
pub mod Sending
pub mod Catching
use lufira_os.Base.{
  ℕ, zero, suc, ◌+◌, ◌-◌, ◌*◌, ◌%◌, ◌^◌, Bool, true, false, not, ◌&&◌, ◌||◌, Option, none, some,
  List, [], ◌∷◌, ◌++◌, get_or, leb, ◌==◌, if◌then◌else◌,
}
use lufira_os.Mailbox.{ready, blocked, sleeping, terminated, stopped}
use lufira_os.Process.{
  Process, System, Context, find, update, set_state, is_terminated, is_blocked, is_sleeping,
  is_stopped,
}
use lufira_os.Process.Ending.{finish}
use lufira_os.Process.Schedule.{schedule, switch_to_process}

-- `SIGINT`, `SIGKILL`, `SIGALRM`, `SIGTERM`, `SIGCONT` and `SIGSTOP`
abbrev pub sigint : ℕ
sigint = 2

abbrev pub sigkill : ℕ
sigkill = 9

abbrev pub sigalrm : ℕ
sigalrm = 14

abbrev pub sigterm : ℕ
sigterm = 15

abbrev pub sigcont : ℕ
sigcont = 18

abbrev pub sigstop : ℕ
sigstop = 19

-- `terminate_process_by_signal` of the process `p`; of the current process it does not return, and
-- another process goes on.
unfoldable pub terminate_process_by_signal :
    (spawner : System → System) → System → Process → (sig : ℕ) → System
terminate_process_by_signal spawner s p sig =
    let (finished, waiter) = finish spawner s p (128 + sig) in
    let next : System = elim waiter [
      | none ↦ schedule finished
      | some w ↦ switch_to_process finished w
    ] in
    if is_terminated p.state then s else if p.pid == s.current then next else finished

-- Signals that a handler can catch, and whether one does.
unfoldable pub is_catchable : ℕ → Bool
is_catchable sig = sig == sigint || sig == sigterm || sig == sigalrm

unfoldable pub is_caught : Process → ℕ → Bool
is_caught p sig =
    is_catchable sig && not (get_or p.signal_handlers sig 0 == 0) && not p.in_signal_handler

abbrev pub hold_signal : ℕ → Process → Process
hold_signal sig p = record p {
  pending_signal = sig;
  state = if is_blocked p.state || is_sleeping p.state then ready else p.state;
}

-- The `switch` of `process_signal`: the state and whether it returns 0.
unfoldable pub default_action :
    (spawner : System → System) → System → Process → (sig : ℕ) → System × Bool
default_action spawner s p sig =
    let halted : System = record s { procs = update p.pid (set_state stopped) s.procs } in
    let continued : System = record s { procs = update p.pid (set_state ready) s.procs } in
    if is_catchable sig || sig == sigkill
    then (terminate_process_by_signal spawner s p sig, true)
    else if sig == sigstop
    then (
      if is_terminated p.state then s else if p.pid == s.current then schedule halted else halted,
      true,
    )
    else if sig == sigcont
    then (if is_stopped p.state then continued else s, true)
    else (s, false)

-- `process_signal`: the state and whether it returns 0 and not -1.
unfoldable pub process_signal : (spawner : System → System) → System → (pid sig : ℕ) → System × Bool
process_signal spawner s pid sig = elim (find s.procs pid) [
  | none ↦ (s, false)
  | some p ↦
      if p.pid == 0
      then (s, false)
      else if is_caught p sig
      then (record s { procs = update pid (hold_signal sig) s.procs }, true)
      else default_action spawner s p sig
]

-- `process_kill`
pub process_kill : (spawner : System → System) → System → (pid : ℕ) → System × Bool
process_kill spawner s pid = process_signal spawner s pid sigkill

-- `syscall_frame_t`
pub record Frame : Type 0 where
  pub r9 : ℕ
  pub r8 : ℕ
  pub r10 : ℕ
  pub rdx : ℕ
  pub rsi : ℕ
  pub rdi : ℕ
  pub rax : ℕ
  pub r15 : ℕ
  pub r14 : ℕ
  pub r13 : ℕ
  pub r12 : ℕ
  pub rbp : ℕ
  pub rbx : ℕ
  pub rflags : ℕ
  pub rip : ℕ
  pub align_pad : ℕ
  pub user_rsp : ℕ

-- The frame as it is kept while a handler runs.
unfoldable pub save_frame : Frame → Context → Context
save_frame f c = record c {
  rax = f.rax;
  rbx = f.rbx;
  rdx = f.rdx;
  rsi = f.rsi;
  rdi = f.rdi;
  rbp = f.rbp;
  r8 = f.r8;
  r9 = f.r9;
  r10 = f.r10;
  r12 = f.r12;
  r13 = f.r13;
  r14 = f.r14;
  r15 = f.r15;
  rsp = f.user_rsp;
  rip = f.rip;
  rflags = f.rflags;
}

pub restore_frame : Context → Frame → Frame
restore_frame c f = record f {
  rbx = c.rbx;
  rdx = c.rdx;
  rsi = c.rsi;
  rdi = c.rdi;
  rbp = c.rbp;
  r8 = c.r8;
  r9 = c.r9;
  r10 = c.r10;
  r12 = c.r12;
  r13 = c.r13;
  r14 = c.r14;
  r15 = c.r15;
  rflags = c.rflags;
  rip = c.rip;
  user_rsp = c.rsp;
}

-- Does `process_deliver_pending_signal` deliver?
unfoldable pub is_deliverable : Process → Bool
is_deliverable p =
    not (p.pending_signal == 0)
    && not (get_or p.signal_handlers p.pending_signal 0 == 0)
    && not p.in_signal_handler
    && not (p.sig_stack_top == 0)

-- `process_deliver_pending_signal` for a frame.
unfoldable pub process_deliver_pending_signal : System → Frame → System × Frame
process_deliver_pending_signal s f = elim (find s.procs s.current) [
  | none ↦ (s, f)
  | some p ↦
      if is_deliverable p
      then (
        record s {
          procs =
              update s.current
                (λ q. record q {
                  pending_signal = 0;
                  in_signal_handler = true;
                  saved_signal_context = save_frame f q.saved_signal_context;
                })
                s.procs;
        },
        record f {
          rip = get_or p.signal_handlers p.pending_signal 0;
          user_rsp = p.sig_stack_top;
          rdi = p.pending_signal;
        },
      )
      else (s, f)
]

-- `process_sigreturn` for a frame: the state, the frame, and the value that it returns; it is the
-- value of RAX in the program.
pub process_sigreturn : System → Frame → System × Frame × ℕ
process_sigreturn s f = elim (find s.procs s.current) [
  | none ↦ (s, f, 2 ^ 64 - 1)
  | some p ↦ (
    record s { procs = update s.current (λ q. record q { in_signal_handler = false }) s.procs },
    restore_frame p.saved_signal_context f,
    p.saved_signal_context.rax,
  )
]

-- `syscall_handler` of kernel/system/syscall/syscall.c, up to the delivery of a signal; `fork` is
-- `process_fork`, and `table` is `syscall_table`, `none` for an empty slot and from 256 on.
unfoldable pub dispatch :
    (fork : System → Frame → System × ℕ)
    → (table : ℕ → Option (System → Frame → System × ℕ)) → System
    → Frame
    → (syscall_num : ℕ) → System × Frame × ℕ
dispatch fork table s f num =
    let (forked, pid) = fork s f in
    let called : System × Frame × ℕ = elim (table num) [
      | none ↦ (s, f, 2 ^ 64 - 1)
      | some call ↦ let (s', result) = call s f in (s', f, result)
    ] in
    if num == 12 then (forked, f, pid) else if num == 47 then process_sigreturn s f else called

-- `syscall_handler`: the state, the frame and the value for RAX.
unfoldable pub syscall_handler :
    (fork : System → Frame → System × ℕ)
    → (table : ℕ → Option (System → Frame → System × ℕ)) → System
    → Frame
    → (syscall_num : ℕ) → System × Frame × ℕ
syscall_handler fork table s f num =
    let (s', f', result) = dispatch fork table s f num in
    let (s'', f'') = process_deliver_pending_signal s' f' in (s'', f'', result)
