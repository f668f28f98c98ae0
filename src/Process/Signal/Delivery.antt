-- ===== src/Process/Signal/Delivery.antt =====
-- A program that a handler interrupted goes on where it was.
use lufira_os.Base.{ℕ, ◌≡◌, ◌≢◌, refl, sym, ap, subst, ◌∙◌, true, Option, some}
use lufira_os.Process.{Process, System, Context, find}
use lufira_os.Process.Table.{==_ne, find-update_same}
use lufira_os.Process.Signal.{
  Frame, save_frame, restore_frame, is_deliverable, process_deliver_pending_signal,
  process_sigreturn, dispatch, syscall_handler,
}

-- The current process is `p`.
abbrev pub Runs : System → Process → Type 0
Runs s p = find s.procs s.current ≡ some p

restore_frame-save_frame :
    (f g : Frame) (c : Context)
    → restore_frame (save_frame f c) g ≡ record f { rax = g.rax; align_pad = g.align_pad }
unfolding restore_frame save_frame
restore_frame-save_frame f g c = refl

-- What is in the process that a signal was delivered to.
deliver_lem :
    (s : System) (f : Frame) (p : Process)
    → Runs s p
    → is_deliverable p ≡ true
    → Runs (process_deliver_pending_signal s f).0 (record p {
      pending_signal = 0;
      in_signal_handler = true;
      saved_signal_context = save_frame f p.saved_signal_context;
    })
unfolding process_deliver_pending_signal
deliver_lem s f p r d =
    rw (process_deliver_pending_signal, r, d)
      (find-update_same s.procs s.current
        (λ q. record q {
          pending_signal = 0;
          in_signal_handler = true;
          saved_signal_context = save_frame f q.saved_signal_context;
        })
        p (λ q. refl) r)

delivered : Frame → Process → Process
delivered f p = record p {
  pending_signal = 0;
  in_signal_handler = true;
  saved_signal_context = save_frame f p.saved_signal_context;
}

sigreturn-frame :
    (s : System) (g : Frame) (p : Process)
    → Runs s p
    → (process_sigreturn s g).1 ≡ restore_frame p.saved_signal_context g
unfolding process_sigreturn
sigreturn-frame s g p r = rw (process_sigreturn, r) refl

sigreturn-rax :
    (s : System) (g : Frame) (p : Process)
    → Runs s p
    → (process_sigreturn s g).2 ≡ p.saved_signal_context.rax
unfolding process_sigreturn
sigreturn-rax s g p r = rw (process_sigreturn, r) refl

saved_of : (p q : Process) → some p ≡ some q → p.saved_signal_context ≡ q.saved_signal_context
saved_of p q e = let same : p ≡ q = cc in ap (λ (r : Process). r.saved_signal_context) same

saved-delivered :
    (f : Frame) (p : Process)
    → (delivered f p).saved_signal_context ≡ save_frame f p.saved_signal_context
unfolding delivered
saved-delivered f p = refl

rax-save_frame : (f : Frame) (c : Context) → (save_frame f c).rax ≡ f.rax
unfolding save_frame
rax-save_frame f c = refl

kept_context :
    (s : System) (f : Frame) (p p' q : Process)
    → Runs s p
    → is_deliverable p ≡ true
    → Runs (process_deliver_pending_signal s f).0 p'
    → q.saved_signal_context ≡ p'.saved_signal_context
    → q.saved_signal_context ≡ save_frame f p.saved_signal_context
unfolding delivered
kept_context s f p p' q r d r' k =
    k ∙ saved_of p' (delivered f p) (sym r' ∙ deliver_lem s f p r d) ∙ saved-delivered f p

-- A signal is delivered to the program of the frame `f`, and later `process_sigreturn` runs, with
-- any frame `g`, in a state `s'` whose current process still has the context saved then: `g` gets
-- every register of `f` but RAX and the padding, which it keeps, and the value for RAX is `f`'s.
pub process_deliver_pending_signal-process_sigreturn :
    (s s' : System) (f g : Frame) (p p' q : Process)
    → Runs s p
    → is_deliverable p ≡ true
    → Runs (process_deliver_pending_signal s f).0 p'
    → Runs s' q
    → q.saved_signal_context ≡ p'.saved_signal_context
    → ((process_sigreturn s' g).1 ≡ record f { rax = g.rax; align_pad = g.align_pad })
      × ((process_sigreturn s' g).2 ≡ f.rax)
process_deliver_pending_signal-process_sigreturn s s' f g p p' q r d r' rq k =
    let kept = kept_context s f p p' q r d r' k in
    (
      sigreturn-frame s' g q rq
          ∙ ap (λ (c : Context). restore_frame c g) kept
          ∙ restore_frame-save_frame f g p.saved_signal_context,
      sigreturn-rax s' g q rq
          ∙ ap (λ (c : Context). c.rax) kept
          ∙ rax-save_frame f p.saved_signal_context,
    )

syscall_handler-process_sigreturn :
    (fork : System → Frame → System × ℕ) (table : ℕ → Option (System → Frame → System × ℕ))
    (s : System) (g : Frame)
    → (syscall_handler fork table s g 47).2 ≡ (process_sigreturn s g).2
unfolding syscall_handler dispatch
syscall_handler-process_sigreturn fork table s g = refl

syscall_handler-table :
    (fork : System → Frame → System × ℕ) (table : ℕ → Option (System → Frame → System × ℕ))
    (s : System) (f : Frame) (num : ℕ) (call : System → Frame → System × ℕ)
    → table num ≡ some call
    → num ≢ 12
    → num ≢ 47
    → syscall_handler fork table s f num ≡ (
      (process_deliver_pending_signal (call s f).0 f).0,
      (process_deliver_pending_signal (call s f).0 f).1,
      (call s f).1,
    )
unfolding syscall_handler dispatch
syscall_handler-table fork table s f num call e n12 n47 =
    rw (==_ne num 12 n12, ==_ne num 47 n47, e) refl

-- A system call that stands in the table, and is not `SYS_FORK` or `SYS_SIGRETURN`, is made with its
-- number in RAX; it ends with a signal delivered. When the handler makes `SYS_SIGRETURN` in a state
-- `s'` whose current process still has the context saved then, the program goes on with the number
-- of the system call in RAX, whatever the system call returned.
pub syscall_handler-sigreturn_rax :
    (fork : System → Frame → System × ℕ) (table : ℕ → Option (System → Frame → System × ℕ))
    (s s' : System) (f g : Frame) (call : System → Frame → System × ℕ) (p p' q : Process)
    → table f.rax ≡ some call
    → f.rax ≢ 12
    → f.rax ≢ 47
    → Runs (call s f).0 p
    → is_deliverable p ≡ true
    → Runs (syscall_handler fork table s f f.rax).0 p'
    → Runs s' q
    → q.saved_signal_context ≡ p'.saved_signal_context
    → (syscall_handler fork table s' g 47).2 ≡ f.rax
syscall_handler-sigreturn_rax fork table s s' f g call p p' q e n12 n47 r d r' rq k =
    let ran = syscall_handler-table fork table s f f.rax call e n12 n47 in
    let there : Runs (process_deliver_pending_signal (call s f).0 f).0 p' =
      subst (λ (x : System × Frame × ℕ). Runs x.0 p') ran r' in
    syscall_handler-process_sigreturn fork table s' g
    ∙ (process_deliver_pending_signal-process_sigreturn (call s f).0 s' f g p p' q r d there rq k).1
