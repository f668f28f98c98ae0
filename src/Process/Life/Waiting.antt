-- ===== src/Process/Life/Waiting.antt =====
-- A parent that waits for a child gets the child's exit code.
use lufira_os.Base.{
  ℕ, ◌≡◌, ◌≢◌, inl, inr, refl, sym, ap, ◌∙◌, true, false, none, some, List, [], ◌∷◌, ◌==◌,
  Bool-cases,
}
use lufira_os.Mailbox.{State, ready, running, blocked, sleeping, terminated, stopped}
use lufira_os.Process.{Process, System, find, update, is_running, is_terminated, wait_any_pid}
use lufira_os.Process.Table.{
  ==_self, ==_eq, ==_ne, ==_not, find-update_other, find-remove_same, pid-find,
}
use lufira_os.Process.Schedule.{switch_to_process}
use lufira_os.Process.Schedule.Switch.{switch-current, find-switch_other, find-switch_left}
use lufira_os.Process.Ending.{finish}
use lufira_os.Process.Ending.Facts.{OwnWaiter, Spawns}
use lufira_os.Process.Ending.Finish.{waits_for-exact, ended, find-finish, finish-parent}
use lufira_os.Process.Life.{
  process_exit, zombie, is_child, scan, Turn, reaped, wait_turn, wait_target, process_wait_resumed,
  process_remove_from_list,
}

-- A child that has ended is found by the scan for its pid.
scan-zombie :
    (ps : List Process) (caller pid : ℕ) (c : Process)
    → pid ≢ wait_any_pid
    → find ps pid ≡ some c
    → c.ppid ≡ caller
    → is_terminated c.state ≡ true
    → scan caller pid ps ≡ zombie c
unfolding scan is_child find
scan-zombie [] caller pid c na h e t = absurd cc
scan-zombie (p ∷ ps) caller pid c na h e t = elim (Bool-cases (p.pid == pid)) [
  | inl o ↦
      let found : some p ≡ some c = rw o at h in
      let same : p ≡ c = cc in
      let own : (p.ppid == caller) ≡ true =
        ap (λ (q : Process). q.ppid == caller) same ∙ ap (λ n. n == caller) e ∙ ==_self caller in
      let done : is_terminated p.state ≡ true =
        ap (λ (q : Process). is_terminated q.state) same ∙ t in
      rw (own, ==_ne pid wait_any_pid na, o, done) (ap zombie same)
  | inr o ↦ elim (Bool-cases (p.ppid == caller)) [
    | inl own ↦
        rw (own, ==_ne pid wait_any_pid na, o) (scan-zombie ps caller pid c na (rw o at h) e t)
    | inr own ↦ rw own (scan-zombie ps caller pid c na (rw o at h) e t)
  ]
]

wait_turn-reaped :
    (s : System) (pid : ℕ) (c : Process)
    → pid ≢ wait_any_pid
    → find s.procs pid ≡ some c
    → c.ppid ≡ s.current
    → is_terminated c.state ≡ true
    → wait_turn s pid ≡ (process_remove_from_list s c.pid, reaped c.pid c.exit_code)
unfolding wait_turn
wait_turn-reaped s pid c na h e t =
    rw (wait_turn, scan-zombie s.procs s.current pid c na h e t) refl

wait_target-pid : (pid : ℕ) → pid ≢ 0 → wait_target pid ≡ pid
wait_target-pid pid h = rw (==_ne pid 0 h) refl

not_running : (st : State) → is_terminated st ≡ true → is_running st ≡ false
not_running terminated h = refl
not_running ready h = absurd cc
not_running running h = absurd cc
not_running blocked h = absurd cc
not_running sleeping h = absurd cc
not_running stopped h = absurd cc

-- The caller's scan when it goes on after the child `c` has ended.
process_wait_resumed-reaped :
    (s : System) (c : Process)
    → c.pid ≢ 0
    → c.pid ≢ wait_any_pid
    → c.pid ≢ s.current
    → find s.procs c.pid ≡ some c
    → c.ppid ≡ s.current
    → is_terminated c.state ≡ true
    → ((process_wait_resumed s c.pid).1 ≡ reaped c.pid c.exit_code)
      × (find (process_wait_resumed s c.pid).0.procs c.pid ≡ none)
unfolding process_wait_resumed process_remove_from_list
process_wait_resumed-reaped s c nz na nc h e t =
    let woken : System = record s {
      procs = update s.current (λ p. record p { wait_target_pid = 0 }) s.procs;
    } in
    let there : find woken.procs c.pid ≡ some c =
      find-update_other s.procs s.current c.pid (λ p. record p { wait_target_pid = 0 }) (λ p. refl)
        nc
      ∙ h in
    let turn =
      ap (wait_turn woken) (wait_target-pid c.pid nz)
      ∙ wait_turn-reaped woken c.pid c na there e t in
    (
      ap (λ (x : System × Turn). x.1) turn,
      ap (λ (x : System × Turn). find x.0.procs c.pid) turn ∙ find-remove_same woken.procs c.pid,
    )

process_exit-woken :
    (spawner : System → System) (s : System) (c : Process) (code parent : ℕ)
    → find s.procs s.current ≡ some c
    → (finish spawner s c code).1 ≡ some parent
    → process_exit spawner s code ≡ some (switch_to_process (finish spawner s c code).0 parent)
unfolding process_exit
process_exit-woken spawner s c code parent h e = rw (process_exit, h, e) refl

ended-terminated : (c : Process) (code : ℕ) → is_terminated (ended c code).state ≡ true
ended-terminated c code = refl

-- A process that does not run stays as it is when another goes on.
find-switch_ended :
    (s : System) (to pid : ℕ) (p : Process)
    → pid ≢ to
    → is_terminated p.state ≡ true
    → find s.procs pid ≡ some p
    → find (switch_to_process s to).procs pid ≡ some p
find-switch_ended s to pid p ne d h = elim (Bool-cases (pid == s.current)) [
  | inl e ↦
      let here : pid ≡ s.current = ==_eq pid s.current e in
      ap (find (switch_to_process s to).procs) here
      ∙ find-switch_left s to p (λ g. ne (here ∙ g)) (ap (find s.procs) (sym here) ∙ h)
          (not_running p.state d)
  | inr e ↦ find-switch_other s to pid ne (==_not pid s.current e) ∙ h
]

-- When the current process `c` exits with a code, and its parent `w` is blocked in `process_wait`
-- for `c`, then the parent goes on; `process_wait` gives it the pid of `c` and the code, and `c` is
-- no longer in the list. The parent is neither idle nor `c` nor the window manager, and the pid of
-- `c` is neither 0 nor `WAIT_ANY_PID`; only the window manager waits on its mailbox.
pub process_exit-process_wait_resumed :
    (spawner : System → System) (s : System) (c w : Process) (code : ℕ)
    → Spawns spawner
    → OwnWaiter s
    → find s.procs s.current ≡ some c
    → find s.procs c.ppid ≡ some w
    → w.state ≡ blocked
    → w.wait_target_pid ≡ c.pid
    → c.ppid ≢ 0
    → c.ppid ≢ c.pid
    → c.ppid ≢ s.wm_pid
    → c.pid ≢ 0
    → c.pid ≢ wait_any_pid
    → (t : System) × (process_exit spawner s code ≡ some t)
      × (t.current ≡ c.ppid)
      × ((process_wait_resumed t c.pid).1 ≡ reaped c.pid code)
      × (find (process_wait_resumed t c.pid).0.procs c.pid ≡ none)
process_exit-process_wait_resumed spawner s c w code sp own hc hw b target nz ne nw cz ca =
    let here : find s.procs c.pid ≡ some c =
      ap (find s.procs) (pid-find s.procs s.current c hc) ∙ hc in
    let finished = (finish spawner s c code).0 in
    let (woken, parent) =
      finish-parent spawner s c w code sp own hw
        (waits_for-exact c w (pid-find s.procs c.ppid w hw) b target) nz ne nw in
    let t = switch_to_process finished c.ppid in
    let dead : find t.procs c.pid ≡ some (ended c code) =
      find-switch_ended finished c.ppid c.pid (ended c code) (λ h. ne (sym h))
        (ended-terminated c code) (find-finish spawner s c code sp own here (λ h. ne (sym h))) in
    let (result, gone) =
      process_wait_resumed-reaped t (ended c code) cz ca
        (λ h. ne (sym (h ∙ switch-current finished c.ppid))) dead
        (sym (switch-current finished c.ppid)) (ended-terminated c code) in
    (
      t,
      process_exit-woken spawner s c code c.ppid hc woken,
      switch-current finished c.ppid,
      result,
      gone,
    )
