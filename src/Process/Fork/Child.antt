-- ===== src/Process/Fork/Child.antt =====
-- What `process_fork` does, and what its child has.
use lufira_os.Base.{
  ℕ, ◌+◌, ◌-◌, ◌%◌, ◌^◌, ◌≡◌, ◌≢◌, refl, ap, ◌∙◌, true, false, none, some, List, [], ◌∷◌, ◌++◌,
  ◌==◌, Bool-cases, ◌⊎◌, inl, inr, arith, take, ◌<◌,
}
use lufira_os.Mailbox.{ready, terminated, mailbox_init}
use lufira_os.Process.{Process, System, find, remove, set_state}
use lufira_os.Process.Table.{==_not, Absent}
use lufira_os.Process.Life.{
  Grant, new_process, process_create, process_discard, process_remove_from_list,
}
use lufira_os.Process.Signal.{Frame}
use lufira_os.Process.Fork.{
  inherit, complete_fork, process_fork, created_state, process_create_cases, update-last,
  remove-last, new_process-pid, complete_fork-none, complete_fork-discard, complete_fork-done,
  process_fork_runs,
}

-- The child of a fork of `parent`, whose system call has the frame `f`.
pub record IsChild (parent : Process) (f : Frame) (new_pml4 pid : ℕ) (g : Grant) (child : Process)
    : Type 0 where
  pub its_pid : child.pid ≡ pid
  pub its_parent : child.ppid ≡ parent.pid
  pub its_name : child.name ≡ take 31 parent.name
  pub runs_next : child.state ≡ ready
  pub returns_zero : child.context.rax ≡ 0
  pub goes_on :
      (child.context.rip ≡ f.rip)
      × (child.context.rsp ≡ f.user_rsp)
      × (child.context.rflags ≡ f.rflags)
  pub keeps_registers :
      (child.context.rbx ≡ f.rbx)
      × (child.context.rbp ≡ f.rbp)
      × (child.context.r12 ≡ f.r12)
      × (child.context.r13 ≡ f.r13)
      × (child.context.r14 ≡ f.r14)
      × (child.context.r15 ≡ f.r15)
  pub clears_others :
      (child.context.rdx ≡ 0)
      × (child.context.rsi ≡ 0)
      × (child.context.rdi ≡ 0)
      × (child.context.r8 ≡ 0)
      × (child.context.r9 ≡ 0)
      × (child.context.r10 ≡ 0)
  pub enters_ring3 : (child.first_run ≡ true) × (child.is_shell ≡ false)
  pub own_memory : (child.page_table ≡ new_pml4) × (child.context.cr3 ≡ new_pml4)
  pub same_stack : (child.stack_base ≡ parent.stack_base) × (child.stack_size ≡ parent.stack_size)
  pub own_kernel_stack : child.ring0_stack ≡ g.ring0_stack
  pub same_areas :
      (child.mmap_regions ≡ parent.mmap_regions)
      × (child.mmap_free_ranges ≡ parent.mmap_free_ranges)
      × (child.next_mmap_addr ≡ parent.next_mmap_addr)
  pub same_directory : (child.cwd_path ≡ parent.cwd_path) × (child.cwd_inode ≡ parent.cwd_inode)
  pub same_user : (child.uid ≡ parent.uid) × (child.gid ≡ parent.gid)
  pub same_handlers :
      (child.signal_handlers ≡ parent.signal_handlers)
      × (child.sig_stack_top ≡ parent.sig_stack_top)
  pub no_signal :
      (child.pending_signal ≡ 0) × (child.in_signal_handler ≡ false) × (child.alarm_tick ≡ 0)
  pub nothing_used : child.cpu_ticks ≡ 0
  pub waits_for_none : child.wait_target_pid ≡ 0
  pub no_messages : (child.mailbox.count ≡ 0) × (child.mailbox.waiter ≡ none)

-- There is room for one more process, and memory for all that it needs.
pub record Possible (s : System) (g : Grant) (new_pml4 : ℕ) : Type 0 where
  pub room : s.process_count < 32
  pub block : g.block ≡ true
  pub tables : g.page_table ≢ 0
  pub kernel_stack : g.ring0_stack ≢ 0
  pub stack : g.stack_base ≢ 0
  pub fpu : g.fpu ≡ true
  pub copied : new_pml4 ≢ 0

inherit-IsChild :
    (s : System) (f : Frame) (g : Grant) (new_pml4 : ℕ) (parent : Process)
    → find s.procs s.current ≡ some parent
    → IsChild parent f new_pml4 s.next_pid g
        (inherit parent f new_pml4 (new_process s parent.name 0 g))
unfolding inherit new_process mailbox_init
inherit-IsChild s f g new_pml4 parent h = record {
  its_pid = refl;
  its_parent = rw (new_process, h) refl;
  its_name = refl;
  runs_next = refl;
  returns_zero = refl;
  goes_on = (refl, refl, refl);
  keeps_registers = (refl, refl, refl, refl, refl, refl);
  clears_others = (refl, refl, refl, refl, refl, refl);
  enters_ring3 = (refl, refl);
  own_memory = (refl, refl);
  same_stack = (refl, refl);
  own_kernel_stack = refl;
  same_areas = (refl, refl, refl);
  same_directory = (refl, refl);
  same_user = (refl, refl);
  same_handlers = (refl, refl);
  no_signal = (refl, refl, refl);
  nothing_used = refl;
  waits_for_none = refl;
  no_messages = (refl, refl);
}

-- A fork of the current process `parent`, while no process has the pid `next_pid`. When there is room
-- for one more process and memory for all that it needs, the address space copied among it, it
-- returns `next_pid`, the count is one more, and the list is the old one with the child at its end:
-- `IsChild` says what the child has, 0 in RAX, no pending signal and an empty mailbox among it. In all
-- other cases it returns 2 ^ 64 - 1, and the list, the count and the current process are the old ones.
pub process_fork_lem :
    (s : System) (f : Frame) (g : Grant) (new_pml4 : ℕ) (parent : Process)
    → find s.procs s.current ≡ some parent
    → Absent s.next_pid s.procs
    → (Possible s g new_pml4
        × ((child : Process) × IsChild parent f new_pml4 s.next_pid g child
            × (process_fork s f g new_pml4 ≡ (
              record s {
                next_pid = (s.next_pid + 1) % 2 ^ 32;
                procs = s.procs ++ (child ∷ []);
                process_count = s.process_count + 1;
              },
              s.next_pid,
            ))))
      ⊎ (¬ (Possible s g new_pml4)
          × ((process_fork s f g new_pml4).1 ≡ 2 ^ 64 - 1)
          × ((process_fork s f g new_pml4).0.procs ≡ s.procs)
          × ((process_fork s f g new_pml4).0.process_count ≡ s.process_count)
          × ((process_fork s f g new_pml4).0.current ≡ s.current))
unfolding process_discard process_remove_from_list created_state
process_fork_lem s f g new_pml4 parent h a =
    let start = process_fork_runs s f g new_pml4 parent h in
    let child = new_process s parent.name 0 g in
    let created = created_state s parent.name 0 g in
    let pid : child.pid ≡ s.next_pid = new_process-pid s parent.name 0 g in
    elim (process_create_cases s parent.name 0 g) [
      | inr (lacks, e, ps, count, cur) ↦
          let failed =
            start ∙ complete_fork-none parent f new_pml4 (process_create s parent.name 0 g) e in
          inr (
            λ p. lacks p.room p.block p.tables p.kernel_stack p.stack p.fpu,
            ap (λ (x : System × ℕ). x.1) failed,
            ap (λ (x : System × ℕ). x.0.procs) failed ∙ ps,
            ap (λ (x : System × ℕ). x.0.process_count) failed ∙ count,
            ap (λ (x : System × ℕ). x.0.current) failed ∙ cur,
          )
      | inl (made, e) ↦ elim (Bool-cases (new_pml4 == 0)) [
        | inl z ↦
            let failed =
              start
              ∙ ap (complete_fork parent f new_pml4) e
              ∙ complete_fork-discard parent f new_pml4 s.next_pid created z in
            let less : s.process_count + 1 - 1 ≡ s.process_count = omega arith in
            inr (
              λ p. let c = p.copied in ground arith,
              ap (λ (x : System × ℕ). x.1) failed,
              ap (λ (x : System × ℕ). x.0.procs) failed
                  ∙ ap (remove s.next_pid)
                      (update-last s.next_pid (set_state terminated) s.procs child a pid)
                  ∙ remove-last s.next_pid s.procs (set_state terminated child) a pid,
              ap (λ (x : System × ℕ). x.0.process_count) failed ∙ less,
              ap (λ (x : System × ℕ). x.0.current) failed,
            )
        | inr z ↦
            let done =
              start
              ∙ ap (complete_fork parent f new_pml4) e
              ∙ complete_fork-done parent f new_pml4 s.next_pid created z in
            inl (
              record {
                room = made.0;
                block = made.1;
                tables = made.2;
                kernel_stack = made.3;
                stack = made.4;
                fpu = made.5;
                copied = ==_not new_pml4 0 z;
              },
              (
                inherit parent f new_pml4 child,
                inherit-IsChild s f g new_pml4 parent h,
                done
                    ∙ ap (λ (ps : List Process). (record created { procs = ps }, s.next_pid))
                        (update-last s.next_pid (inherit parent f new_pml4) s.procs child a pid),
              ),
            )
      ]
    ]
