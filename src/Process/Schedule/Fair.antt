-- ===== src/Process/Schedule/Fair.antt =====
-- Round robin: a process that can be chosen is not passed over for ever.
use lufira_os.Base.{
  ℕ, zero, suc, ◌+◌, ◌<◌, ◌≡◌, ◌≢◌, refl, sym, ap, subst, ◌∙◌, true, false, some, List, [], ◌∷◌,
  ◌++◌, append_assoc, ◌==◌, if◌then◌else◌, Bool-cases, inl, inr, ◌⊎◌, arith, length, length-append,
}
use lufira_os.Mailbox.{ready, running}
use lufira_os.Process.{Process, System, find, update, is_running, set_state}
use lufira_os.Process.Table.{
  ==_eq, ==_ne, length-update, KeepsPid, Unique, Unique-update, find-update_same, find-update_other,
  pid-find,
}
use lufira_os.Process.Schedule.{ring, is_candidate, pick, max_tries, switch_to_process, schedule}
use lufira_os.Process.Schedule.Switch.{put_away-KeepsPid, activate-KeepsPid, switch-current}
use lufira_os.Process.Schedule.Turn.{
  update-append, ring_from-update, find-ring_from, ring_from_not_last, update-cons_other,
}
use lufira_os.Process.Schedule.Ring.{ring_from, turn, Unique-ring_from, Unique-split, All-append}

-- The first process that can be chosen stands at or before any other.
pick_first :
    (n : ℕ) (before after : List Process) (p : Process)
    → length before < n
    → is_candidate p ≡ true
    → (pick n (before ++ (p ∷ after)) ≡ some p)
      ⊎ ((b1 : List Process) × (q : Process) × (b2 : List Process) × (before ≡ b1 ++ (q ∷ b2))
          × (pick n (before ++ (p ∷ after)) ≡ some q))
unfolding pick
pick_first zero before after p lt c = absurd (omega arith)
pick_first (suc n) [] after p lt c = inl (rw c refl)
pick_first (suc n) (x ∷ before) after p lt c = elim (Bool-cases (is_candidate x)) [
  | inl e ↦ inr ([], x, before, refl, rw e refl)
  | inr e ↦ elim (pick_first n before after p (omega arith) c) [
    | inl f ↦ inl (rw e f)
    | inr (b1, q, b2, split, f) ↦ inr (x ∷ b1, q, b2, ap (λ r. x ∷ r) split, rw e f)
  ]
]

-- The process `pid` can be chosen, and `k` processes stand before it in the ring.
pub record Awaits (s : System) (pid k : ℕ) : Type 0 where
  pub before : List Process
  pub after : List Process
  pub process : Process
  pub split : ring s ≡ before ++ (process ∷ after)
  pub named : process.pid ≡ pid
  pub candidate : is_candidate process ≡ true
  pub count : length before ≡ k

-- The list has no pid twice, and the current process is in it.
pub record IsRing (s : System) : Type 0 where
  pub unique : Unique s.procs
  pub process : Process
  pub present : find s.procs s.current ≡ some process

pub switch_to_process-IsRing :
    (s : System) (pid : ℕ) (q : Process)
    → IsRing s
    → find s.procs pid ≡ some q
    → IsRing (switch_to_process s pid)
unfolding switch_to_process
switch_to_process-IsRing s pid q r h =
    let away : Process → Process = λ p. if is_running p.state then set_state ready p else p in
    let on : Process → Process = λ p. record p { state = running; first_run = false } in
    let k : KeepsPid away = put_away-KeepsPid in
    let put_away = update s.current away s.procs in
    let (q', h') : (q' : Process) × (find put_away pid ≡ some q') =
      elim (Bool-cases (pid == s.current)) [
        | inl e ↦
            let here : pid ≡ s.current = ==_eq pid s.current e in
            (away q, rw here (find-update_same s.procs s.current away q k (rw here at h)))
        | inr e ↦ (q, find-update_other s.procs s.current pid away k (ground arith) ∙ h)
      ] in
    record {
      unique =
          Unique-update put_away pid on activate-KeepsPid
            (Unique-update s.procs s.current away k r.unique);
      process = on q';
      present = find-update_same put_away pid on q' activate-KeepsPid h';
    }

-- What `switch_to_process` stores in the processes of a list.
switched : (from to : ℕ) → List Process → List Process
switched from to ps =
    update to (λ p. record p { state = running; first_run = false })
      (update from (λ p. if is_running p.state then set_state ready p else p) ps)

length-switched : (from to : ℕ) (ps : List Process) → length (switched from to ps) ≡ length ps
unfolding switched
length-switched from to ps =
    length-update (update from (λ p. if is_running p.state then set_state ready p else p) ps) to
      (λ p. record p { state = running; first_run = false })
    ∙ length-update ps from (λ p. if is_running p.state then set_state ready p else p)

-- It leaves a process alone that is neither of the two.
switched-split :
    (from to : ℕ) (xs ys : List Process) (p : Process)
    → p.pid ≢ from
    → p.pid ≢ to
    → switched from to (xs ++ (p ∷ ys)) ≡ switched from to xs ++ (p ∷ switched from to ys)
unfolding switched
switched-split from to xs ys p nf nt =
    let away : Process → Process = λ p. if is_running p.state then set_state ready p else p in
    let on : Process → Process = λ p. record p { state = running; first_run = false } in
    ap (update to on) (
      update-append from away xs (p ∷ ys)
      ∙ ap (λ l. update from away xs ++ l) (update-cons_other from away p ys nf))
    ∙ update-append to on (update from away xs) (p ∷ update from away ys)
    ∙ ap (λ l. update to on (update from away xs) ++ l)
        (update-cons_other to on p (update from away ys) nt)

ring-switch_to_process :
    (s : System) (to : ℕ)
    → ring (switch_to_process s to) ≡ switched s.current to (ring_from s.procs to)
unfolding ring switch_to_process switched ring_from
ring-switch_to_process s to =
    let away : Process → Process = λ p. if is_running p.state then set_state ready p else p in
    let on : Process → Process = λ p. record p { state = running; first_run = false } in
    ring_from-update to to on (update s.current away s.procs) activate-KeepsPid
    ∙ ap (update to on) (ring_from-update to s.current away s.procs put_away-KeepsPid)

schedule_chosen :
    (s : System) (q : Process)
    → pick max_tries (ring s) ≡ some q
    → q.pid ≢ s.current
    → schedule s ≡ switch_to_process s q.pid
unfolding schedule
schedule_chosen s q f ne = rw (schedule, f, ==_ne q.pid s.current ne) refl

-- When `q` is chosen, the processes behind it in the ring come first in the next one.
switch_to_process-Awaits :
    (s : System) (pid : ℕ) (b1 b2 after : List Process) (q p : Process)
    → IsRing s
    → ring s ≡ b1 ++ (q ∷ (b2 ++ (p ∷ after)))
    → p.pid ≡ pid
    → is_candidate p ≡ true
    → pid ≢ s.current
    → q.pid ≢ s.current
    → (Awaits (switch_to_process s q.pid) pid (length b2)) × (pid ≢ q.pid)
unfolding ring ring_from
switch_to_process-Awaits s pid b1 b2 after q p r e named cand ne nq =
    let c = r.process in
    let cp : c.pid ≡ s.current = pid-find s.procs s.current c r.present in
    let here : find s.procs c.pid ≡ some c = ap (find s.procs) cp ∙ r.present in
    let e' : ring_from s.procs c.pid ≡ b1 ++ (q ∷ (b2 ++ (p ∷ after))) =
      ap (ring_from s.procs) cp ∙ e in
    let u : Unique (b1 ++ (q ∷ (b2 ++ (p ∷ after)))) =
      subst Unique e' (Unique-ring_from s.procs c r.unique here) in
    let away = (Unique-split b1 (b2 ++ (p ∷ after)) q u).1 in
    let differ : p.pid ≢ q.pid =
      (All-append (λ (x : Process). x.pid ≢ q.pid) b2 (p ∷ after) away).1.0 in
    let turned : ring_from s.procs q.pid ≡ b2 ++ (p ∷ (after ++ (b1 ++ (q ∷ [])))) =
      turn s.procs b1 (b2 ++ (p ∷ after)) c q r.unique here e' (λ h. nq (h ∙ cp))
      ∙ append_assoc b2 (p ∷ after) (b1 ++ (q ∷ [])) in
    (
      record {
        before = switched s.current q.pid b2;
        after = switched s.current q.pid (after ++ (b1 ++ (q ∷ [])));
        process = p;
        split =
            ring-switch_to_process s q.pid
            ∙ ap (switched s.current q.pid) turned
            ∙ switched-split s.current q.pid b2 (after ++ (b1 ++ (q ∷ []))) p
                (λ h. ne (sym named ∙ h)) differ;
        named = named;
        candidate = cand;
        count = length-switched s.current q.pid b2;
      },
      λ h. differ (named ∙ h),
    )

list_cases : (l : List Process) → (l ≡ []) ⊎ ((x : Process) × (m : List Process) × (l ≡ x ∷ m))
list_cases [] = inl refl
list_cases (x ∷ m) = inr (x, m, refl)

-- The process chosen before another in the ring is not the current one.
chosen_not_current :
    (s : System) (b1 b2 after : List Process) (q p : Process)
    → IsRing s
    → ring s ≡ b1 ++ (q ∷ (b2 ++ (p ∷ after)))
    → q.pid ≢ s.current
unfolding ring ring_from
chosen_not_current s b1 b2 after q p r e =
    let c = r.process in
    let cp : c.pid ≡ s.current = pid-find s.procs s.current c r.present in
    let here : find s.procs c.pid ≡ some c = ap (find s.procs) cp ∙ r.present in
    let e' : ring_from s.procs c.pid ≡ b1 ++ (q ∷ (b2 ++ (p ∷ after))) =
      ap (ring_from s.procs) cp ∙ e in
    elim (list_cases b2) [
      | inl n ↦
          let e2 : ring_from s.procs c.pid ≡ b1 ++ (q ∷ p ∷ after) =
            e' ∙ ap (λ l. b1 ++ (q ∷ (l ++ (p ∷ after)))) n in
          λ h. ring_from_not_last s.procs b1 after c q p r.unique here e2 (h ∙ sym cp)
      | inr (x, l, n) ↦
          let e2 : ring_from s.procs c.pid ≡ b1 ++ (q ∷ x ∷ (l ++ (p ∷ after))) =
            e' ∙ ap (λ m. b1 ++ (q ∷ (m ++ (p ∷ after)))) n in
          λ h. ring_from_not_last s.procs b1 (l ++ (p ∷ after)) c q x r.unique here e2 (h ∙ sym cp)
    ]

-- One call of the scheduler runs the process that waits, or brings it nearer.
pub data Nearer (s : System) (pid k : ℕ) : Type 0 where
  runs : s.current ≡ pid → Nearer s pid k
  waits : (k' : ℕ) → k' < k → IsRing s → Awaits s pid k' → pid ≢ s.current → Nearer s pid k

pub schedule-Nearer :
    (s : System) (pid k : ℕ)
    → IsRing s
    → Awaits s pid k
    → pid ≢ s.current
    → k < 100
    → Nearer (schedule s) pid k
unfolding ring ring_from
schedule-Nearer s pid k r w ne lt =
    let p = w.process in
    let first = pick_first max_tries w.before w.after p (rw (w.count) lt) w.candidate in
    elim first [
      | inl f ↦
          let chosen =
            schedule_chosen s p (ap (pick max_tries) (w.split) ∙ f) (λ h. ne (sym (w.named) ∙ h)) in
          runs (ap (λ (t : System). t.current) chosen ∙ switch-current s p.pid ∙ w.named)
      | inr (b1, q, b2, e, f) ↦
          let e' : ring s ≡ b1 ++ (q ∷ (b2 ++ (p ∷ w.after))) =
            w.split ∙ ap (λ l. l ++ (p ∷ w.after)) e ∙ append_assoc b1 (q ∷ b2) (p ∷ w.after) in
          let nq = chosen_not_current s b1 b2 w.after q p r e' in
          let chosen : schedule s ≡ switch_to_process s q.pid =
            schedule_chosen s q (ap (pick max_tries) (w.split) ∙ f) nq in
          let (a, nc) =
            switch_to_process-Awaits s pid b1 b2 w.after q p r e' w.named w.candidate ne nq in
          let (q', found) = find-ring_from s.procs b1 (b2 ++ (p ∷ w.after)) s.current q e' in
          let fewer : length b2 < k =
            omega (arith, w.count, ap length e, length-append b1 (q ∷ b2)) in
          subst (λ t. Nearer t pid k) (sym chosen)
            (waits (length b2) fewer (switch_to_process-IsRing s q.pid q' r found) a
              (λ h. nc (h ∙ switch-current s q.pid)))
    ]

-- `n` calls of the scheduler.
pub schedule_times : ℕ → System → System
schedule_times zero s = s
schedule_times (suc n) s = schedule_times n (schedule s)

fair_within :
    (m : ℕ) (s : System) (pid k : ℕ)
    → k < m
    → IsRing s
    → Awaits s pid k
    → pid ≢ s.current
    → k < 100
    → (n : ℕ) × (n < k + 1) × ((schedule_times (suc n) s).current ≡ pid)
unfolding schedule_times
fair_within zero s pid k km r w ne lt = absurd (omega arith)
fair_within (suc m) s pid k km r w ne lt = elim (schedule-Nearer s pid k r w ne lt) [
  | runs e ↦ (0, omega arith, e)
  | waits k' less r' w' ne' ↦
      let (n, few, e) = fair_within m (schedule s) pid k' (omega arith) r' w' ne' (omega arith) in
      (suc n, omega arith, e)
]

-- In a list without a pid twice that holds the current process, a process that can be chosen and
-- is not current, with `k` < 100 processes before it in the ring, runs after at most `k` + 1 calls
-- of `schedule`.
pub schedule-fair :
    (s : System) (pid k : ℕ)
    → IsRing s
    → Awaits s pid k
    → pid ≢ s.current
    → k < 100
    → (n : ℕ) × (n < k + 1) × ((schedule_times (suc n) s).current ≡ pid)
schedule-fair s pid k r w ne lt = fair_within (k + 1) s pid k (omega arith) r w ne lt
