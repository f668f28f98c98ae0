-- ===== src/Process/Tick/Wakes.antt =====
-- A tick wakes the sleepers that are due.
use lufira_os.Base.{
  ℕ, ◌≡◌, refl, sym, ap, ap₂, subst, ◌∙◌, false, ◌&&◌, some, List, [], ◌∷◌, ◌++◌, append_assoc, map,
  leb, Bool-cases, inl, inr, All, ◌≤◌, ◌<◌, ◌≢◌, arith, true,
}
use lufira_os.Mailbox.{State, ready, running, blocked, sleeping, terminated, stopped}
use lufira_os.Process.{Process, System, find, update, is_sleeping}
use lufira_os.Process.Table.{==_self, Absent, Unique, find-cons_same, find-cons_other}
use lufira_os.Process.Schedule.Ring.{Unique-split}
use lufira_os.Process.Schedule.Turn.{update-append}
use lufira_os.Process.Fork.{update-Absent}
use lufira_os.Process.Tick.{wake_sleeper, is_alarmed, visit, is_last_visit, visit_all}

pid-wake_sleeper : (ticks : ℕ) (p : Process) → (wake_sleeper ticks p).pid ≡ p.pid
unfolding wake_sleeper
pid-wake_sleeper ticks p = elim (Bool-cases (is_sleeping p.state && leb p.wakeup_tick ticks)) [
  | inl e ↦ rw e refl
  | inr e ↦ rw e refl
]

Absent-map :
    (ticks pid : ℕ) (ps : List Process) → Absent pid ps → Absent pid (map (wake_sleeper ticks) ps)
Absent-map ticks pid [] a = tt
Absent-map ticks pid (p ∷ ps) a =
    (λ h. a.0 (sym (pid-wake_sleeper ticks p) ∙ h), Absent-map ticks pid ps a.1)

map-append :
    (f : Process → Process) (xs ys : List Process) → map f (xs ++ ys) ≡ map f xs ++ map f ys
map-append f [] ys = refl
map-append f (x ∷ xs) ys = ap (λ r. f x ∷ r) (map-append f xs ys)

find_behind :
    (xs ys : List Process) (p : Process) → Absent p.pid xs → find (xs ++ (p ∷ ys)) p.pid ≡ some p
find_behind [] ys p a = find-cons_same p ys p.pid refl
find_behind (x ∷ xs) ys p a = find-cons_other x (xs ++ (p ∷ ys)) p.pid a.0 ∙ find_behind xs ys p a.1

update_behind :
    (f : Process → Process) (xs ys : List Process) (p : Process)
    → Absent p.pid xs
    → Absent p.pid ys
    → update p.pid f (xs ++ (p ∷ ys)) ≡ xs ++ (f p ∷ ys)
unfolding update
update_behind f xs ys p ax ay =
    let here : update p.pid f (p ∷ ys) ≡ f p ∷ ys =
      rw (==_self p.pid) (ap (λ r. f p ∷ r) (update-Absent p.pid f ys ay)) in
    update-append p.pid f xs (p ∷ ys) ∙ ap₂ (λ a b. a ++ b) (update-Absent p.pid f xs ax) here

not_alarmed : (ticks : ℕ) (p : Process) → p.alarm_tick ≡ 0 → is_alarmed ticks p ≡ false
unfolding is_alarmed
not_alarmed ticks p h = rw h refl

visit-plain :
    (spawner : System → System) (ticks : ℕ) (s : System) (p : Process)
    → p.alarm_tick ≡ 0
    → (visit spawner ticks s p ≡ record s { procs = update p.pid (wake_sleeper ticks) s.procs })
      × (is_last_visit ticks s p ≡ false)
unfolding visit is_last_visit
visit-plain spawner ticks s p h =
    (rw (visit, not_alarmed ticks p h) refl, rw (is_last_visit, not_alarmed ticks p h) refl)

visit_all-cons :
    (spawner : System → System) (ticks pid : ℕ) (pids : List ℕ) (s : System) (p : Process)
    → find s.procs pid ≡ some p
    → p.alarm_tick ≡ 0
    → visit_all spawner ticks (pid ∷ pids) s
      ≡ visit_all spawner ticks pids
          (record s { procs = update p.pid (wake_sleeper ticks) s.procs })
unfolding visit_all
visit_all-cons spawner ticks pid pids s p f h =
    let (run, last) = visit-plain spawner ticks s p h in
    let next : visit_all spawner ticks (pid ∷ pids) s
        ≡ visit_all spawner ticks pids (visit spawner ticks s p) =
      rw (visit_all, f, last) refl in
    next ∙ ap (visit_all spawner ticks pids) run

-- The processes `xs` have been visited, and `ys` not yet.
visit_rest :
    (spawner : System → System) (ticks : ℕ) (s : System) (xs ys : List Process)
    → Unique (xs ++ ys)
    → All (λ (p : Process). p.alarm_tick ≡ 0) ys
    → visit_all spawner ticks
        (map (λ (p : Process). p.pid) ys)
        (record s { procs = map (wake_sleeper ticks) xs ++ ys })
      ≡ (record s { procs = map (wake_sleeper ticks) (xs ++ ys) }, false)
unfolding visit_all
visit_rest spawner ticks s xs [] u a =
    let same : map (wake_sleeper ticks) xs ++ [] ≡ map (wake_sleeper ticks) (xs ++ []) =
      sym (map-append (wake_sleeper ticks) xs []) in
    ap (λ (ps : List Process). (record s { procs = ps }, false)) same
visit_rest spawner ticks s xs (y ∷ ys) u a =
    let w = wake_sleeper ticks in
    let (ax, ay) = Unique-split xs ys y u in
    let seen = Absent-map ticks y.pid xs ax in
    let there = find_behind (map w xs) ys y seen in
    let joined : xs ++ (y ∷ []) ++ ys ≡ xs ++ (y ∷ ys) = append_assoc xs (y ∷ []) ys in
    let moved : update y.pid w (map w xs ++ (y ∷ ys)) ≡ map w (xs ++ (y ∷ [])) ++ ys =
      update_behind w (map w xs) ys y seen ay
      ∙ sym (append_assoc (map w xs) (w y ∷ []) ys)
      ∙ ap (λ l. l ++ ys) (sym (map-append w xs (y ∷ []))) in
    visit_all-cons spawner ticks y.pid (map (λ (p : Process). p.pid) ys)
      (record s { procs = map w xs ++ (y ∷ ys) }) y there a.0
    ∙ ap
        (λ (ps : List Process).
          visit_all spawner ticks (map (λ (p : Process). p.pid) ys) (record s { procs = ps }))
        moved
    ∙ visit_rest spawner ticks s (xs ++ (y ∷ [])) ys (subst Unique (sym joined) u) a.1
    ∙ ap (λ (ps : List Process). (record s { procs = map w ps }, false)) joined

visit_all-map :
    (spawner : System → System) (ticks : ℕ) (s : System)
    → Unique s.procs
    → All (λ (p : Process). p.alarm_tick ≡ 0) s.procs
    → visit_all spawner ticks (map (λ (p : Process). p.pid) s.procs) s
      ≡ (record s { procs = map (wake_sleeper ticks) s.procs }, false)
visit_all-map spawner ticks s u a = visit_rest spawner ticks s [] s.procs u a

-- What a tick makes of a process: a sleeper is ready at its tick and from then on, and nothing else
-- changes.
pub data Woken (ticks : ℕ) (p : Process) : Process → Type 0 where
  due : p.state ≡ sleeping → p.wakeup_tick ≤ ticks → Woken ticks p (record p { state = ready })
  early : p.state ≡ sleeping → ticks < p.wakeup_tick → Woken ticks p p
  awake : p.state ≢ sleeping → Woken ticks p p

-- Two lists of the same length, related element by element.
pub data Pointwise (R : Process → Process → Type 0) : List Process → List Process → Type 0 where
  both_empty : Pointwise R [] []
  paired :
      {p q : Process} {ps qs : List Process}
      → R p q
      → Pointwise R ps qs
      → Pointwise R (p ∷ ps) (q ∷ qs)

state_cases :
    (x : State) → (is_sleeping x ≡ false → x ≢ sleeping) × (is_sleeping x ≡ true → x ≡ sleeping)
state_cases ready = (λ e. λ f. cc, λ e. absurd cc)
state_cases running = (λ e. λ f. cc, λ e. absurd cc)
state_cases blocked = (λ e. λ f. cc, λ e. absurd cc)
state_cases sleeping = (λ e. absurd cc, λ e. refl)
state_cases terminated = (λ e. λ f. cc, λ e. absurd cc)
state_cases stopped = (λ e. λ f. cc, λ e. absurd cc)

wake_sleeper-Woken : (ticks : ℕ) (p : Process) → Woken ticks p (wake_sleeper ticks p)
unfolding wake_sleeper
wake_sleeper-Woken ticks p = elim (Bool-cases (is_sleeping p.state)) [
  | inl e ↦ elim (Bool-cases (leb p.wakeup_tick ticks)) [
    | inl l ↦ rw (wake_sleeper, e, l) (due ((state_cases p.state).1 e) (ground arith))
    | inr l ↦ rw (wake_sleeper, e, l) (early ((state_cases p.state).1 e) (ground arith))
  ]
  | inr e ↦ rw (wake_sleeper, e) (awake ((state_cases p.state).0 e))
]

map-Pointwise :
    (ticks : ℕ) (ps : List Process) → Pointwise (Woken ticks) ps (map (wake_sleeper ticks) ps)
map-Pointwise ticks [] = both_empty
map-Pointwise ticks (p ∷ ps) = paired (wake_sleeper-Woken ticks p) (map-Pointwise ticks ps)

-- The scan of the timer over a list without a pid twice, while no alarm is set: each process that
-- sleeps and whose `wakeup_tick` has come is ready afterwards and otherwise as it was, every other
-- process is as it was, the processes stand in the same order, nothing else of the state changes, and
-- the handler goes on.
pub visit_all-Woken :
    (spawner : System → System) (ticks : ℕ) (s : System)
    → Unique s.procs
    → All (λ (p : Process). p.alarm_tick ≡ 0) s.procs
    → (ps : List Process) × Pointwise (Woken ticks) s.procs ps
      × (visit_all spawner ticks (map (λ (p : Process). p.pid) s.procs) s
          ≡ (record s { procs = ps }, false))
visit_all-Woken spawner ticks s u a = (
  map (wake_sleeper ticks) s.procs,
  map-Pointwise ticks s.procs,
  visit_all-map spawner ticks s u a,
)
