-- ===== src/Process/Schedule/Switch.antt =====
-- What `switch_to_process` stores in the processes.
use lufira_os.Base.{
  ℕ, ◌≡◌, ◌≢◌, refl, sym, ap, ◌∙◌, false, some, ◌==◌, if◌then◌else◌, Bool-cases, inl, inr,
}
use lufira_os.Mailbox.{ready, running}
use lufira_os.Process.{Process, System, find, update, is_running, set_state}
use lufira_os.Process.Table.{==_eq, ==_not, KeepsPid, find-update_same, find-update_other}
use lufira_os.Process.Schedule.{switch_to_process}

pub put_away-KeepsPid : KeepsPid (λ p. if is_running p.state then set_state ready p else p)
put_away-KeepsPid p = elim (Bool-cases (is_running p.state)) [
  | inl e ↦ rw e refl
  | inr e ↦ rw e refl
]

pub activate-KeepsPid : KeepsPid (λ p. record p { state = running; first_run = false })
activate-KeepsPid p = refl

pub switch-current : (s : System) (pid : ℕ) → (switch_to_process s pid).current ≡ pid
unfolding switch_to_process
switch-current s pid = refl

-- The process that goes on.
abbrev pub activated : Process → Process
activated p = record p { state = running; first_run = false }

activated-put_away :
    (p : Process) → activated (if is_running p.state then set_state ready p else p) ≡ activated p
activated-put_away p = elim (Bool-cases (is_running p.state)) [
  | inl e ↦ rw e refl
  | inr e ↦ rw e refl
]

pub find-switch_other :
    (s : System) (to other : ℕ)
    → other ≢ to
    → other ≢ s.current
    → find (switch_to_process s to).procs other ≡ find s.procs other
unfolding switch_to_process
find-switch_other s to other nt nc =
    let away : Process → Process = λ p. if is_running p.state then set_state ready p else p in
    find-update_other (update s.current away s.procs) to other
      (λ p. record p { state = running; first_run = false }) activate-KeepsPid nt
    ∙ find-update_other s.procs s.current other away put_away-KeepsPid nc

-- The process that was left, when it did not run.
pub find-switch_left :
    (s : System) (to : ℕ) (p : Process)
    → s.current ≢ to
    → find s.procs s.current ≡ some p
    → is_running p.state ≡ false
    → find (switch_to_process s to).procs s.current ≡ some p
unfolding switch_to_process
find-switch_left s to p nt h n =
    let away : Process → Process = λ p. if is_running p.state then set_state ready p else p in
    let kept : away p ≡ p = rw n refl in
    find-update_other (update s.current away s.procs) to s.current
      (λ p. record p { state = running; first_run = false }) activate-KeepsPid nt
    ∙ find-update_same s.procs s.current away p put_away-KeepsPid h
    ∙ ap some kept

pub find-switch_to :
    (s : System) (to : ℕ) (q : Process)
    → find s.procs to ≡ some q
    → find (switch_to_process s to).procs to ≡ some (activated q)
unfolding switch_to_process
find-switch_to s to q h =
    let away : Process → Process = λ p. if is_running p.state then set_state ready p else p in
    let on : Process → Process = λ p. record p { state = running; first_run = false } in
    let put_away = update s.current away s.procs in
    elim (Bool-cases (to == s.current)) [
      | inl e ↦
          let here : s.current ≡ to = sym (==_eq to s.current e) in
          let there : find put_away to ≡ some (away q) =
            ap (λ n. find (update n away s.procs) to) here
            ∙ find-update_same s.procs to away q put_away-KeepsPid h in
          find-update_same put_away to on (away q) activate-KeepsPid there
          ∙ ap some (activated-put_away q)
      | inr e ↦ find-update_same put_away to on q activate-KeepsPid (
          find-update_other s.procs s.current to away put_away-KeepsPid (==_not to s.current e) ∙ h)
    ]
