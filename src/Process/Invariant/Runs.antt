-- ===== src/Process/Invariant/Runs.antt =====
-- Every process that can be chosen runs soon.
use lufira_os.Base.{
  ℕ, suc, ◌+◌, ◌<◌, ◌≡◌, ◌≢◌, refl, sym, ap, subst, ◌∙◌, true, some, List, [], ◌∷◌, ◌++◌,
  append_assoc, inl, inr, arith, length, length-append,
}
use lufira_os.Process.{Process, System, find}
use lufira_os.Process.Table.{Absent, Unique, pid-find}
use lufira_os.Process.Schedule.{is_candidate, ring}
use lufira_os.Process.Schedule.Ring.{ring_from, ring_from_split, around, split_append, Unique-split}
use lufira_os.Process.Schedule.Fair.{Awaits, IsRing, schedule_times, schedule-fair}
use lufira_os.Process.Invariant.{IsSound}

-- The place of a process in a list that is joined of two.
split_at :
    (xs ys l r : List Process) (p c : Process)
    → xs ++ (c ∷ ys) ≡ l ++ (p ∷ r)
    → p.pid ≢ c.pid
    → (b : List Process) × (a : List Process) × (ys ++ (xs ++ (c ∷ [])) ≡ b ++ (p ∷ a))
split_at xs ys l r p c e ne = elim (split_append xs (c ∷ ys) l r p e) [
  | inl (m, f, g) ↦ (
    ys ++ l,
    m ++ (c ∷ []),
    ap (λ q. ys ++ (q ++ (c ∷ []))) f
        ∙ ap (λ q. ys ++ q) (append_assoc l (p ∷ m) (c ∷ []))
        ∙ sym (append_assoc ys l (p ∷ (m ++ (c ∷ [])))),
  )
  | inr ([], f, g) ↦ let same : c ≡ p = cc in absurd (ne (ap (λ (q : Process). q.pid) (sym same)))
  | inr (x ∷ m, f, g) ↦
      let tail : ys ≡ m ++ (p ∷ r) = cc in
      (
        m,
        r ++ (xs ++ (c ∷ [])),
        ap (λ q. q ++ (xs ++ (c ∷ []))) tail ∙ append_assoc m (p ∷ r) (xs ++ (c ∷ [])),
      )
]

length_turned :
    (xs ys : List Process) (c : Process) → length (ys ++ (xs ++ (c ∷ []))) ≡ length (xs ++ (c ∷ ys))
length_turned xs ys c =
    let a = length-append ys (xs ++ (c ∷ [])) in
    let b = length-append xs (c ∷ []) in
    let d = length-append xs (c ∷ ys) in
    let one : length (c ∷ []) ≡ 1 = refl in
    let more : length (c ∷ ys) ≡ suc (length ys) = refl in omega (arith, a, b, d, one, more)

-- A process that can be chosen stands somewhere in the ring.
pub find-Awaits :
    (s : System) (c p : Process)
    → IsSound s
    → find s.procs s.current ≡ some c
    → find s.procs p.pid ≡ some p
    → is_candidate p ≡ true
    → p.pid ≢ s.current
    → (k : ℕ) × (k < s.process_count + 1) × Awaits s p.pid k
unfolding ring ring_from
find-Awaits s c p h hc hp cand ne =
    let cp : c.pid ≡ s.current = pid-find s.procs s.current c hc in
    let (xs, ys, e) = around s.procs s.current c hc in
    let (l, r, f) = around s.procs p.pid p hp in
    let (b, a, g) = split_at xs ys l r p c (sym e ∙ f) (λ o. ne (o ∙ cp)) in
    let away : Absent c.pid xs = (Unique-split xs ys c (subst Unique e h.unique)).0 in
    let seen : ring s ≡ ys ++ (xs ++ (c ∷ [])) =
      ap (ring_from s.procs) (sym cp)
      ∙ ap (λ q. ring_from q c.pid) e
      ∙ ring_from_split xs ys c away in
    let size = ap length (sym g) ∙ length_turned xs ys c ∙ ap length (sym e) ∙ ap length h.split in
    let parts = length-append b (p ∷ a) in
    let more : length (p ∷ a) ≡ suc (length a) = refl in
    let all : length (h.idle ∷ h.rest) ≡ suc (length h.rest) = refl in
    (
      length b,
      omega (arith, size, parts, more, all, h.counted),
      record {
        before = b;
        after = a;
        process = p;
        split = seen ∙ g;
        named = refl;
        candidate = cand;
        count = refl;
      },
    )

-- In a sound state whose current process is in the list, a process that is ready, neither idle nor
-- the current one, runs after at most `process_count` + 1 calls of `schedule`, whichever processes
-- are chosen before it.
pub schedule-runs :
    (s : System) (c p : Process)
    → IsSound s
    → find s.procs s.current ≡ some c
    → find s.procs p.pid ≡ some p
    → is_candidate p ≡ true
    → p.pid ≢ s.current
    → (n : ℕ) × (n < s.process_count + 1) × ((schedule_times (suc n) s).current ≡ p.pid)
schedule-runs s c p h hc hp cand ne =
    let (k, few, w) = find-Awaits s c p h hc hp cand ne in
    let r : IsRing s = record { unique = h.unique; process = c; present = hc } in
    let (n, less, e) = schedule-fair s p.pid k r w ne (omega (arith, few, h.bounded)) in
    (n, omega (arith, less, few), e)
