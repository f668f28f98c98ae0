-- ===== src/Process/Signal/Catching.antt =====
-- A signal that a program catches: from `process_signal` to the program's handler.
use lufira_os.Base.{
  ℕ, ◌≡◌, ◌≢◌, refl, sym, ap, ◌∙◌, Bool, true, false, some, get_or, ◌==◌, Bool-cases, inl, inr,
}
use lufira_os.Process.{Process, System, find, update}
use lufira_os.Process.Table.{==_ne, find-update_same}
use lufira_os.Process.Schedule.{switch_to_process}
use lufira_os.Process.Schedule.Switch.{switch-current, activated, find-switch_to}
use lufira_os.Process.Signal.{
  Frame, is_catchable, is_caught, hold_signal, process_signal, is_deliverable,
  process_deliver_pending_signal,
}

process_signal_caught :
    (spawner : System → System) (s : System) (p : Process) (sig : ℕ)
    → find s.procs p.pid ≡ some p
    → p.pid ≢ 0
    → is_caught p sig ≡ true
    → process_signal spawner s p.pid sig
      ≡ (record s { procs = update p.pid (hold_signal sig) s.procs }, true)
unfolding process_signal
process_signal_caught spawner s p sig h nz c = rw (process_signal, h, ==_ne p.pid 0 nz, c) refl

not_zero : (sig : ℕ) → is_catchable sig ≡ true → sig ≢ 0
unfolding is_catchable
not_zero sig h z =
    let bad : is_catchable 0 ≡ true = ap is_catchable (sym z) ∙ h in
    let no : is_catchable 0 ≡ false = refl in let both : true ≡ false = sym bad ∙ no in absurd cc

-- A process that catches a signal can have it delivered, once it is held.
caught-is_deliverable :
    (p q : Process) (sig : ℕ)
    → is_caught p sig ≡ true
    → p.sig_stack_top ≢ 0
    → q.pending_signal ≡ sig
    → q.signal_handlers ≡ p.signal_handlers
    → q.in_signal_handler ≡ p.in_signal_handler
    → q.sig_stack_top ≡ p.sig_stack_top
    → is_deliverable q ≡ true
unfolding is_caught is_deliverable is_catchable
caught-is_deliverable p q sig c top e1 e2 e3 e4 = elim (Bool-cases (is_catchable sig)) [
  | inr a ↦ let bad : false ≡ true = rw (is_caught, a) at c in absurd cc
  | inl a ↦ elim (Bool-cases (get_or p.signal_handlers sig 0 == 0)) [
    | inl b ↦ let bad : false ≡ true = rw (is_caught, a, b) at c in absurd cc
    | inr b ↦ elim (Bool-cases (p.in_signal_handler)) [
      | inl d ↦ let bad : false ≡ true = rw (is_caught, a, b, d) at c in absurd cc
      | inr d ↦
          let some_signal : (sig == 0) ≡ false = ==_ne sig 0 (λ z. not_zero sig a z) in
          rw (is_deliverable, e1, e2, e3, e4, some_signal, b, d, ==_ne p.sig_stack_top 0 top) refl
    ]
  ]
]

delivered-frame :
    (s : System) (f : Frame) (q : Process)
    → find s.procs s.current ≡ some q
    → is_deliverable q ≡ true
    → (process_deliver_pending_signal s f).1 ≡ record f {
      rip = get_or q.signal_handlers q.pending_signal 0;
      user_rsp = q.sig_stack_top;
      rdi = q.pending_signal;
    }
unfolding process_deliver_pending_signal
delivered-frame s f q r d = rw (process_deliver_pending_signal, r, d) refl

-- A process that is not idle has a handler for a signal that can be caught, does not run a handler
-- now, and has a stack for it: `process_signal` returns 0, and when the process is switched to and
-- its system call with the frame `f` ends, it goes on in the handler, on that stack, with the
-- number of the signal as the argument.
pub process_signal-process_deliver_pending_signal :
    (spawner : System → System) (s : System) (p : Process) (sig : ℕ) (f : Frame)
    → find s.procs p.pid ≡ some p
    → p.pid ≢ 0
    → is_caught p sig ≡ true
    → p.sig_stack_top ≢ 0
    → ((process_signal spawner s p.pid sig).1 ≡ true)
      × ((process_deliver_pending_signal
            (switch_to_process (process_signal spawner s p.pid sig).0 p.pid)
            f).1
          ≡ record f {
            rip = get_or p.signal_handlers sig 0;
            user_rsp = p.sig_stack_top;
            rdi = sig;
          })
process_signal-process_deliver_pending_signal spawner s p sig f h nz c top =
    let sent = process_signal_caught spawner s p sig h nz c in
    let held : System = record s { procs = update p.pid (hold_signal sig) s.procs } in
    let there : find held.procs p.pid ≡ some (hold_signal sig p) =
      find-update_same s.procs p.pid (hold_signal sig) p (λ q. refl) h in
    let t = switch_to_process held p.pid in
    let runs : find t.procs t.current ≡ some (activated (hold_signal sig p)) =
      ap (find t.procs) (switch-current held p.pid)
      ∙ find-switch_to held p.pid (hold_signal sig p) there in
    (
      ap (λ (x : System × Bool). x.1) sent,
      ap (λ (x : System × Bool). (process_deliver_pending_signal (switch_to_process x.0 p.pid) f).1)
            sent
          ∙ delivered-frame t f (activated (hold_signal sig p)) runs (
              caught-is_deliverable p (activated (hold_signal sig p)) sig c top refl refl refl
                refl),
    )
