-- ===== src/Process/Invariant/Steps.antt =====
-- The process list at any time after `process_init`.
use lufira_os.Base.{
  Option, some, Bool, true, false, ℕ, ◌+◌, ◌%◌, ◌^◌, ◌<◌, ◌≡◌, ◌≢◌, refl, sym, subst, none, some,
  List, [], ◌∷◌, ◌++◌, ◌==◌, leb, Bool-cases, Option-cases, inl, inr, arith,
}
use lufira_os.Mailbox.{terminated}
use lufira_os.Process.{Process, System, find, update, set_state, is_terminated, max_processes}
use lufira_os.Process.Table.{find-update_same}
use lufira_os.Process.Schedule.{switch_to_process, schedule}
use lufira_os.Process.Ending.{finish}
use lufira_os.Process.Life.{
  Grant, new_process, process_create, process_remove_from_list, process_discard, process_exit,
  idle_process, first_system, process_init,
}
use lufira_os.Process.Signal.{terminate_process_by_signal}
use lufira_os.Process.Invariant.{IsSound, Sound, Sound-remove, Sound-append, Sound-numbered}
use lufira_os.Process.Invariant.Stores.{
  IsSound-store, IsSound-switch_to_process, IsSound-schedule, KeepsSound, IsSound-finish,
}

IsSound-first_system : (page_table : ℕ) (stale : Process) → IsSound (first_system page_table stale)
unfolding first_system idle_process
IsSound-first_system page_table stale = record {
  idle = idle_process page_table stale;
  rest = [];
  split = refl;
  zero_pid = refl;
  no_parent = refl;
  unique = (tt, tt);
  counted = refl;
  bounded = omega arith;
  below = (omega arith, tt);
}

pub IsSound-process_init :
    (page_table : ℕ) (block : Option Process) (fpu : Bool) (s : System)
    → process_init page_table block fpu ≡ some s
    → IsSound s
unfolding process_init
IsSound-process_init page_table none fpu s e = absurd cc
IsSound-process_init page_table (some stale) true s e =
    let same : first_system page_table stale ≡ s = cc in
    subst IsSound same (IsSound-first_system page_table stale)
IsSound-process_init page_table (some stale) false s e = absurd cc

-- `next_pid` has not wrapped around.
pub IsSound-process_create :
    (s : System) (name : List ℕ) (entry : ℕ) (g : Grant)
    → s.next_pid + 1 < 2 ^ 32
    → IsSound s
    → IsSound (process_create s name entry g).0
unfolding process_create new_process
IsSound-process_create s name entry g small h =
    let wrapped : (s.next_pid + 1) % 2 ^ 32 ≡ s.next_pid + 1 = omega (arith, small) in
    let numbered : Sound s.procs s.process_count ((s.next_pid + 1) % 2 ^ 32) =
      subst (Sound s.procs s.process_count) (sym wrapped)
        (Sound-numbered s.procs s.process_count s.next_pid h) in
    elim (Bool-cases (leb max_processes s.process_count)) [
      | inl e ↦ rw (process_create, e) h
      | inr e ↦ elim (Bool-cases (g.block)) [
        | inr b ↦ rw (process_create, e, b) h
        | inl b ↦ elim (Bool-cases (g.page_table == 0)) [
          | inl t ↦ rw (process_create, e, b, t) numbered
          | inr t ↦ elim (Bool-cases (g.ring0_stack == 0)) [
            | inl r ↦ rw (process_create, e, b, t, r) numbered
            | inr r ↦ elim (Bool-cases (g.stack_base == 0)) [
              | inl k ↦ rw (process_create, e, b, t, r, k) numbered
              | inr k ↦ elim (Bool-cases (g.fpu)) [
                | inr f ↦ rw (process_create, e, b, t, r, k, f) numbered
                | inl f ↦
                    let room : s.process_count < 32 = ground arith in
                    rw (process_create, e, b, t, r, k, f)
                      (subst
                        (Sound (s.procs ++ (new_process s name entry g ∷ [])) (s.process_count + 1))
                        (sym wrapped)
                        (Sound-append s.procs s.process_count s.next_pid
                          (new_process s name entry g) refl room h))
              ]
            ]
          ]
        ]
      ]
    ]

pub IsSound-remove :
    (s : System) (pid : ℕ) (p : Process)
    → pid ≢ 0
    → find s.procs pid ≡ some p
    → IsSound s
    → IsSound (process_remove_from_list s pid)
unfolding process_remove_from_list
IsSound-remove s pid p nz e h = Sound-remove s.procs s.process_count s.next_pid pid p nz e h

pub IsSound-process_discard :
    (s : System) (pid : ℕ) (p : Process)
    → pid ≢ 0
    → find s.procs pid ≡ some p
    → IsSound s
    → IsSound (process_discard s pid)
unfolding process_discard
IsSound-process_discard s pid p nz e h =
    let marked : System = record s { procs = update pid (set_state terminated) s.procs } in
    IsSound-remove marked pid (set_state terminated p) nz
      (find-update_same s.procs pid (set_state terminated) p (λ q. refl) e)
      (IsSound-store s pid (set_state terminated) (λ q. (refl, refl)) h)

pub IsSound-process_exit :
    (spawner : System → System) (s t : System) (code : ℕ)
    → KeepsSound spawner
    → process_exit spawner s code ≡ some t
    → IsSound s
    → IsSound t
unfolding process_exit
IsSound-process_exit spawner s t code k e h = elim (Option-cases (find s.procs s.current)) [
  | inl f ↦ let bad : none ≡ some t = rw (process_exit, f) at e in absurd cc
  | inr (p, f) ↦
      let finished = finish spawner s p code in
      let sound : IsSound finished.0 = IsSound-finish spawner s p code k h in
      elim (Option-cases finished.1) [
        | inl w ↦
            let gone : some (schedule finished.0) ≡ some t = rw (process_exit, f, w) at e in
            let same : schedule finished.0 ≡ t = cc in
            subst IsSound same (IsSound-schedule finished.0 sound)
        | inr (parent, w) ↦
            let gone : some (switch_to_process finished.0 parent) ≡ some t =
              rw (process_exit, f, w) at e in
            let same : switch_to_process finished.0 parent ≡ t = cc in
            subst IsSound same (IsSound-switch_to_process finished.0 parent sound)
      ]
]

pub IsSound-terminate :
    (spawner : System → System) (s : System) (p : Process) (sig : ℕ)
    → KeepsSound spawner
    → IsSound s
    → IsSound (terminate_process_by_signal spawner s p sig)
unfolding terminate_process_by_signal
IsSound-terminate spawner s p sig k h =
    let finished = finish spawner s p (128 + sig) in
    let sound : IsSound finished.0 = IsSound-finish spawner s p (128 + sig) k h in
    elim (Bool-cases (is_terminated p.state)) [
      | inl e ↦ rw (terminate_process_by_signal, e) h
      | inr e ↦ elim (Bool-cases (p.pid == s.current)) [
        | inr c ↦ rw (terminate_process_by_signal, e, c) sound
        | inl c ↦ elim (Option-cases finished.1) [
          | inl w ↦ rw (terminate_process_by_signal, e, c, w) (IsSound-schedule finished.0 sound)
          | inr (parent, w) ↦
              rw (terminate_process_by_signal, e, c, w)
                (IsSound-switch_to_process finished.0 parent sound)
        ]
      ]
    ]
