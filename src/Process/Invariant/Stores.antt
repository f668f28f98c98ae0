-- ===== src/Process/Invariant/Stores.antt =====
-- The operations of the process list keep what always holds of it.
use lufira_os.Base.{
  ℕ, ◌+◌, ◌/◌, refl, Bool, true, false, ◌||◌, Option, none, some, List, ◌==◌, leb, if◌then◌else◌,
  Bool-cases, Option-cases, inl, inr,
}
use lufira_os.Mailbox.{ready, running, sleeping, terminated, max_slots, push}
use lufira_os.Process.{Process, System, find, update, set_state, is_running}
use lufira_os.Process.Schedule.{
  pick, max_tries, ring, switch_to_process, no_candidate, schedule, process_sleep,
}
use lufira_os.Process.Ending.{
  find_waiting_parent, wake_waiting_parent, exit_notice, wake_waiter, notify_wm, release_foreground,
  release_wm, release_netd, release_soundd, release, mark_terminated, finish,
}
use lufira_os.Process.Invariant.{IsSound, Sound, KeepsIds, Sound-update}

put_away-KeepsIds : KeepsIds (λ p. if is_running p.state then set_state ready p else p)
put_away-KeepsIds p = elim (Bool-cases (is_running p.state)) [
  | inl e ↦ rw e (refl, refl)
  | inr e ↦ rw e (refl, refl)
]

pub IsSound-store :
    (s : System) (pid : ℕ) (f : Process → Process)
    → KeepsIds f
    → IsSound s
    → IsSound (record s { procs = update pid f s.procs })
IsSound-store s pid f k h = Sound-update s.procs s.process_count s.next_pid pid f k h

pub IsSound-switch_to_process :
    (s : System) (pid : ℕ) → IsSound s → IsSound (switch_to_process s pid)
unfolding switch_to_process
IsSound-switch_to_process s pid h =
    let away : Process → Process = λ p. if is_running p.state then set_state ready p else p in
    Sound-update (update s.current away s.procs) s.process_count s.next_pid pid
      (λ p. record p { state = running; first_run = false }) (λ p. (refl, refl))
      (Sound-update s.procs s.process_count s.next_pid s.current away put_away-KeepsIds h)

IsSound-no_candidate : (s : System) → IsSound s → IsSound (no_candidate s)
unfolding no_candidate
IsSound-no_candidate s h = elim (Option-cases (find s.procs s.current)) [
  | inl e ↦ rw (no_candidate, e) h
  | inr (p, e) ↦ elim (Bool-cases (is_running p.state || s.current == 0)) [
    | inl b ↦ rw (no_candidate, e, b) h
    | inr b ↦ rw (no_candidate, e, b) (IsSound-switch_to_process s 0 h)
  ]
]

pub IsSound-schedule : (s : System) → IsSound s → IsSound (schedule s)
unfolding schedule
IsSound-schedule s h = elim (Option-cases (pick max_tries (ring s))) [
  | inl e ↦ rw (schedule, e) (IsSound-no_candidate s h)
  | inr (p, e) ↦ elim (Bool-cases (p.pid == s.current)) [
    | inl b ↦ rw (schedule, e, b) h
    | inr b ↦ rw (schedule, e, b) (IsSound-switch_to_process s p.pid h)
  ]
]

pub IsSound-process_sleep :
    (s : System) (ticks milliseconds : ℕ) → IsSound s → IsSound (process_sleep s ticks milliseconds)
unfolding process_sleep
IsSound-process_sleep s ticks milliseconds h = elim (Bool-cases (milliseconds == 0)) [
  | inl e ↦ rw (process_sleep, e) h
  | inr e ↦
      rw (process_sleep, e)
        (IsSound-schedule
          (record s {
            procs =
                update s.current
                  (λ p. record p {
                    wakeup_tick = ticks + (milliseconds + 9) / 10;
                    state = sleeping;
                  })
                  s.procs;
          })
          (IsSound-store s s.current
            (λ p. record p { wakeup_tick = ticks + (milliseconds + 9) / 10; state = sleeping })
            (λ p. (refl, refl)) h))
]

IsSound-wake : (s : System) (c : Process) → IsSound s → IsSound (wake_waiting_parent s c).0
unfolding wake_waiting_parent
IsSound-wake s c h = elim (Option-cases (find_waiting_parent s.procs c)) [
  | inl e ↦ rw (wake_waiting_parent, e) h
  | inr (w, e) ↦
      rw (wake_waiting_parent, e)
        (IsSound-store s w.pid (λ p. record p { wait_target_pid = 0; state = ready })
          (λ p. (refl, refl)) h)
]

Sound-wake_waiter :
    (w : Option ℕ) (ps : List Process) (count next : ℕ)
    → Sound ps count next
    → Sound (wake_waiter w ps) count next
unfolding wake_waiter
Sound-wake_waiter none ps count next h = h
Sound-wake_waiter (some w) ps count next h =
    Sound-update ps count next w (set_state ready) (λ p. (refl, refl)) h

IsSound-notify_wm : (s : System) (pid : ℕ) → IsSound s → IsSound (notify_wm s pid)
unfolding notify_wm
IsSound-notify_wm s pid h = elim (Option-cases (find s.procs s.wm_pid)) [
  | inl e ↦ rw (notify_wm, e) h
  | inr (q, e) ↦ elim (Bool-cases (leb max_slots q.mailbox.count)) [
    | inl b ↦ rw (notify_wm, e, b) h
    | inr b ↦
        let note : Process → Process =
          λ p. record p { mailbox = push p.mailbox 0 (exit_notice pid) 92 } in
        rw (notify_wm, e, b)
          (Sound-wake_waiter q.mailbox.waiter (update s.wm_pid note s.procs) s.process_count
            s.next_pid (IsSound-store s s.wm_pid note (λ p. (refl, refl)) h))
  ]
]

IsSound-release_wm : (s : System) (pid : ℕ) → IsSound s → IsSound (release_wm s pid)
unfolding release_wm
IsSound-release_wm s pid h = elim (Bool-cases (pid == s.wm_pid)) [
  | inl e ↦ rw (release_wm, e) h
  | inr e ↦ elim (Bool-cases (s.wm_pid == 0)) [
    | inl z ↦ rw (release_wm, e, z) h
    | inr z ↦ rw (release_wm, e, z) (IsSound-notify_wm s pid h)
  ]
]

IsSound-release_foreground : (s : System) (pid : ℕ) → IsSound s → IsSound (release_foreground s pid)
unfolding release_foreground
IsSound-release_foreground s pid h = elim (Bool-cases (pid == s.foreground_pid)) [
  | inl e ↦ rw (release_foreground, e) h
  | inr e ↦ rw (release_foreground, e) h
]

IsSound-release_netd : (s : System) (pid : ℕ) → IsSound s → IsSound (release_netd s pid)
unfolding release_netd
IsSound-release_netd s pid h = elim (Bool-cases (pid == s.netd_pid)) [
  | inl e ↦ rw (release_netd, e) h
  | inr e ↦ rw (release_netd, e) h
]

IsSound-release_soundd : (s : System) (pid : ℕ) → IsSound s → IsSound (release_soundd s pid)
unfolding release_soundd
IsSound-release_soundd s pid h = elim (Bool-cases (pid == s.soundd_pid)) [
  | inl e ↦ rw (release_soundd, e) h
  | inr e ↦ rw (release_soundd, e) h
]

-- What starts a shell keeps the list in order.
abbrev pub KeepsSound : (System → System) → Type 0
KeepsSound spawner = (s : System) → IsSound s → IsSound (spawner s)

IsSound-respawn :
    (spawner : System → System) (b : Bool) (s : System)
    → KeepsSound spawner
    → IsSound s
    → IsSound (if b then spawner s else s)
IsSound-respawn spawner true s k h = k s h
IsSound-respawn spawner false s k h = h

pub IsSound-finish :
    (spawner : System → System) (s : System) (p : Process) (code : ℕ)
    → KeepsSound spawner
    → IsSound s
    → IsSound (finish spawner s p code).0
unfolding finish release mark_terminated
IsSound-finish spawner s p code k h =
    let marked = mark_terminated s p.pid code in
    let f = release_foreground marked p.pid in
    let w = release_wm f p.pid in
    let n = release_netd w p.pid in
    let released = release_soundd n p.pid in
    let respawned = if p.is_shell then spawner released else released in
    IsSound-wake respawned p (
      IsSound-respawn spawner p.is_shell released k (
        IsSound-release_soundd n p.pid (
          IsSound-release_netd w p.pid (
            IsSound-release_wm f p.pid (
              IsSound-release_foreground marked p.pid (
                IsSound-store s p.pid (λ q. record q { exit_code = code; state = terminated })
                  (λ q. (refl, refl)) h))))))
