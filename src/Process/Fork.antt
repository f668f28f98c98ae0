-- ===== src/Process/Fork.antt =====
-- `process_fork` of kernel/system/process/process.c; the open files and the FPU state are left out.
pub mod Child
use lufira_os.Base.{
  ℕ, ◌+◌, ◌-◌, ◌%◌, ◌^◌, ◌≡◌, ◌≢◌, refl, ap, ◌∙◌, true, false, Option, none, some, List, [], ◌∷◌,
  ◌++◌, ◌==◌, leb, if◌then◌else◌, Bool-cases, ◌⊎◌, inl, inr, arith, take, ◌<◌,
}
use lufira_os.Mailbox.{ready, terminated, mailbox_init}
use lufira_os.Process.{Process, System, no_context, find, update, remove, set_state, max_processes}
use lufira_os.Process.Table.{==_self, ==_ne, ==_not, Absent}
use lufira_os.Process.Life.{
  Grant, new_process, process_create, process_discard, process_remove_from_list,
}
use lufira_os.Process.Signal.{Frame}

-- What the child takes from its parent, and from the frame of the system call.
pub inherit : (parent : Process) → Frame → (new_pml4 : ℕ) → (child : Process) → Process
inherit parent f new_pml4 child = record child {
  page_table = new_pml4;
  stack_base = parent.stack_base;
  stack_size = parent.stack_size;
  next_mmap_addr = parent.next_mmap_addr;
  mmap_regions = parent.mmap_regions;
  mmap_free_ranges = parent.mmap_free_ranges;
  signal_handlers = parent.signal_handlers;
  pending_signal = 0;
  in_signal_handler = false;
  alarm_tick = 0;
  sig_stack_top = parent.sig_stack_top;
  cwd_inode = parent.cwd_inode;
  cwd_path = parent.cwd_path;
  uid = parent.uid;
  gid = parent.gid;
  cpu_ticks = 0;
  context = record no_context {
    rip = f.rip;
    rsp = f.user_rsp;
    rflags = f.rflags;
    rbx = f.rbx;
    rbp = f.rbp;
    r12 = f.r12;
    r13 = f.r13;
    r14 = f.r14;
    r15 = f.r15;
    rax = 0;
    cr3 = new_pml4;
  };
  state = ready;
}

-- `process_fork` of the current process: the state and the child's pid, or 2 ^ 64 - 1. `new_pml4` is
-- what `clone_address_space_deep` returns, 0 when there is no memory.
pub complete_fork : (parent : Process) → Frame → (new_pml4 : ℕ) → System × Option ℕ → System × ℕ
complete_fork parent f new_pml4 (created, none) = (created, 2 ^ 64 - 1)
complete_fork parent f new_pml4 (created, some pid) =
    if new_pml4 == 0
    then (process_discard created pid, 2 ^ 64 - 1)
    else (record created { procs = update pid (inherit parent f new_pml4) created.procs }, pid)

pub process_fork : System → Frame → Grant → (new_pml4 : ℕ) → System × ℕ
process_fork s f g new_pml4 = elim (find s.procs s.current) [
  | none ↦ (s, 2 ^ 64 - 1)
  | some parent ↦ complete_fork parent f new_pml4 (process_create s parent.name 0 g)
]

-- The state after `process_create` has added its process.
pub created_state : System → (name : List ℕ) → (entry : ℕ) → Grant → System
created_state s name entry g = record s {
  next_pid = (s.next_pid + 1) % 2 ^ 32;
  procs = s.procs ++ (new_process s name entry g ∷ []);
  process_count = s.process_count + 1;
}

-- `process_create` adds its process at the end when there is room and memory for it, and otherwise
-- adds none.
pub process_create_cases :
    (s : System) (name : List ℕ) (entry : ℕ) (g : Grant)
    → (((s.process_count < 32)
          × (g.block ≡ true)
          × (g.page_table ≢ 0)
          × (g.ring0_stack ≢ 0)
          × (g.stack_base ≢ 0)
          × (g.fpu ≡ true))
        × (process_create s name entry g ≡ (created_state s name entry g, some s.next_pid)))
      ⊎ ((s.process_count < 32
            → g.block ≡ true
            → g.page_table ≢ 0
            → g.ring0_stack ≢ 0
            → g.stack_base ≢ 0
            → g.fpu ≡ true
            → ⊥)
          × ((process_create s name entry g).1 ≡ none)
          × ((process_create s name entry g).0.procs ≡ s.procs)
          × ((process_create s name entry g).0.process_count ≡ s.process_count)
          × ((process_create s name entry g).0.current ≡ s.current))
unfolding process_create created_state new_process
process_create_cases s name entry g = elim (Bool-cases (leb max_processes s.process_count)) [
  | inl e ↦ inr (rw (process_create, e) (λ a b c d k l. ground arith, refl, refl, refl, refl))
  | inr e ↦ elim (Bool-cases (g.block)) [
    | inr b ↦ inr (rw (process_create, e, b) (λ m n c d k l. cc, refl, refl, refl, refl))
    | inl b ↦ elim (Bool-cases (g.page_table == 0)) [
      | inl t ↦
          inr (rw (process_create, e, b, t) (λ m n c d k l. ground arith, refl, refl, refl, refl))
      | inr t ↦ elim (Bool-cases (g.ring0_stack == 0)) [
        | inl r ↦
            inr (
              rw (process_create, e, b, t, r) (λ m n c d k l. ground arith, refl, refl, refl, refl))
        | inr r ↦ elim (Bool-cases (g.stack_base == 0)) [
          | inl k ↦ inr (
              rw (process_create, e, b, t, r, k)
                (λ m n c d o l. ground arith, refl, refl, refl, refl))
          | inr k ↦ elim (Bool-cases (g.fpu)) [
            | inr f ↦
                inr (
                  rw (process_create, e, b, t, r, k, f) (λ m n c d o l. cc, refl, refl, refl, refl))
            | inl f ↦ inl (
              (
                ground arith,
                b,
                ==_not g.page_table 0 t,
                ==_not g.ring0_stack 0 r,
                ==_not g.stack_base 0 k,
                f,
              ),
              rw (process_create, e, b, t, r, k, f) refl,
            )
          ]
        ]
      ]
    ]
  ]
]

pub update-Absent :
    (pid : ℕ) (f : Process → Process) (ps : List Process) → Absent pid ps → update pid f ps ≡ ps
unfolding update
update-Absent pid f [] a = refl
update-Absent pid f (p ∷ ps) a =
    rw (==_ne p.pid pid a.0) (ap (λ r. p ∷ r) (update-Absent pid f ps a.1))

update-last :
    (pid : ℕ) (f : Process → Process) (ps : List Process) (p : Process)
    → Absent pid ps
    → p.pid ≡ pid
    → update pid f (ps ++ (p ∷ [])) ≡ ps ++ (f p ∷ [])
unfolding update
update-last pid f [] p a e =
    let same : (p.pid == pid) ≡ true = ap (λ n. n == pid) e ∙ ==_self pid in rw same refl
update-last pid f (q ∷ ps) p a e =
    rw (==_ne q.pid pid a.0) (ap (λ r. q ∷ r) (update-last pid f ps p a.1 e))

pub remove-last :
    (pid : ℕ) (ps : List Process) (p : Process)
    → Absent pid ps
    → p.pid ≡ pid
    → remove pid (ps ++ (p ∷ [])) ≡ ps
unfolding remove
remove-last pid [] p a e =
    let same : (p.pid == pid) ≡ true = ap (λ n. n == pid) e ∙ ==_self pid in rw same refl
remove-last pid (q ∷ ps) p a e =
    rw (==_ne q.pid pid a.0) (ap (λ r. q ∷ r) (remove-last pid ps p a.1 e))

pub new_process-pid :
    (s : System) (name : List ℕ) (entry : ℕ) (g : Grant)
    → (new_process s name entry g).pid ≡ s.next_pid
unfolding new_process
new_process-pid s name entry g = refl

pub complete_fork-none :
    (parent : Process) (f : Frame) (new_pml4 : ℕ) (r : System × Option ℕ)
    → r.1 ≡ none
    → complete_fork parent f new_pml4 r ≡ (r.0, 2 ^ 64 - 1)
unfolding complete_fork
complete_fork-none parent f new_pml4 (created, none) e = refl
complete_fork-none parent f new_pml4 (created, some pid) e = absurd cc

pub complete_fork-discard :
    (parent : Process) (f : Frame) (new_pml4 pid : ℕ) (created : System)
    → (new_pml4 == 0) ≡ true
    → complete_fork parent f new_pml4 (created, some pid)
      ≡ (process_discard created pid, 2 ^ 64 - 1)
unfolding complete_fork
complete_fork-discard parent f new_pml4 pid created z = rw z refl

pub complete_fork-done :
    (parent : Process) (f : Frame) (new_pml4 pid : ℕ) (created : System)
    → (new_pml4 == 0) ≡ false
    → complete_fork parent f new_pml4 (created, some pid)
      ≡ (record created { procs = update pid (inherit parent f new_pml4) created.procs }, pid)
unfolding complete_fork
complete_fork-done parent f new_pml4 pid created z = rw z refl

pub process_fork_runs :
    (s : System) (f : Frame) (g : Grant) (new_pml4 : ℕ) (parent : Process)
    → find s.procs s.current ≡ some parent
    → process_fork s f g new_pml4
      ≡ complete_fork parent f new_pml4 (process_create s parent.name 0 g)
unfolding process_fork
process_fork_runs s f g new_pml4 parent h = rw (process_fork, h) refl
