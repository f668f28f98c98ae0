-- ===== src/Mailbox/Timing.antt =====
-- A call of `mailbox_recv` with a limit, while nobody sends.
use lufira_os.Base.{
  ℕ, zero, suc, ◌+◌, ◌*◌, ◌≤◌, ◌<◌, ◌≡◌, true, false, none, inl, inr, arith, Bool-cases, leb,
  replicate,
}
use lufira_os.Mailbox.{
  Process, limited, looking, napping, returned, goes_on, pop, turn, go_on, step, run,
}

module _ (p : Process) (ms : ℕ) (empty : pop p.mailbox ≡ none) where
  turn_late : (n : ℕ) → ms ≤ n → turn p (limited ms) n ≡ (p, returned none)
  unfolding turn
  turn_late n h = let t : leb ms n ≡ true = ground arith in rw (empty, turn, t)

  turn_early : (n : ℕ) → n < ms → turn p (limited ms) n ≡ (p, napping (n + 10))
  unfolding turn
  turn_early n h = let t : leb ms n ≡ false = ground arith in rw (empty, turn, t)

  times_out :
      (k n : ℕ)
      → ms ≤ n + 10 * k
      → (j : ℕ) × (j ≤ 2 * k + 1)
        × (run (limited ms) (p, looking n) (replicate j goes_on) ≡ (p, returned none))
  unfolding run step go_on
  times_out zero n h = (1, omega arith, turn_late n (omega arith))
  times_out (suc k) n h = elim (Bool-cases (leb ms n)) [
    | inl l ↦ (1, omega arith, turn_late n (ground arith))
    | inr l ↦
        let (j, le, e) = times_out k (n + 10) (omega arith) in
        (suc (suc j), omega arith, rw (run, turn_early n (ground arith)) e)
  ]

  -- While no message comes, a call of `mailbox_recv` with a limit of `ms` milliseconds returns -1
  -- after at most `ms / 10 + 1` naps of 10 milliseconds, and leaves the process as it was.
  pub recv_times_out :
      (k : ℕ)
      → ms ≤ 10 * k
      → (j : ℕ) × (j ≤ 2 * k + 1)
        × (run (limited ms) (p, looking 0) (replicate j goes_on) ≡ (p, returned none))
  recv_times_out k h = times_out k 0 (omega arith)
