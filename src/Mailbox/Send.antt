-- ===== src/Mailbox/Send.antt =====
-- `mailbox_send` in the process list: its results, and what it does to which process.
use mathlib.Core.Option.{some-injective}
use lufira_os.Base.{
  ℕ, ◌≤◌, ◌<◌, ◌≡◌, ◌≢◌, refl, ap, sym, subst, ◌∙◌, true, false, Option, none, some, List, [], ◌∷◌,
  ◌⊎◌, inl, inr, arith, Bool-cases, leb, ltb, ◌==◌, if◌then◌else◌,
}
use lufira_os.Mailbox.{
  Process, ready, max_slots, max_payload, find_by_pid, update_process, push, mailbox_send,
  SendResult, sent, bad, full, deliver, wake,
}

abbrev map_option : (Process → Process) → Option Process → Option Process
map_option f none = none
map_option f (some p) = some (f p)

-- A store into one process is seen in that process alone.
find-update :
    (ps : List Process) (pid q : ℕ) (f : Process → Process)
    → ((p : Process) → (f p).pid ≡ p.pid)
    → find_by_pid (update_process ps pid f) q
      ≡ (if pid == q then map_option f (find_by_pid ps q) else find_by_pid ps q)
unfolding find_by_pid update_process
find-update [] pid q f h = ground arith
find-update (p ∷ ps) pid q f h = ground (arith, h p, find-update ps pid q f h)

-- The waiter of a process's mailbox is that process or nobody.
abbrev pub OwnWaiter : Process → Type 0
OwnWaiter p = (p.mailbox.waiter ≡ none) ⊎ (p.mailbox.waiter ≡ some p.pid)

found_pid : (ps : List Process) (q : ℕ) (p : Process) → find_by_pid ps q ≡ some p → p.pid ≡ q
unfolding find_by_pid
found_pid [] q p e = cc
found_pid (x ∷ xs) q p e = elim (Bool-cases (x.pid == q)) [
  | inl y ↦ ground (arith, some-injective x p (rw y at e))
  | inr n ↦ found_pid xs q p (rw n at e)
]

module _ (ps : List Process) (dest sender : ℕ) (bytes : List ℕ) (len : ℕ) where
  -- A message that is too long, or for a pid that is not in the list, is refused with -1, and nothing
  -- changes.
  pub mailbox_send_bad :
      (max_payload < len) ⊎ (find_by_pid ps dest ≡ none)
      → mailbox_send ps dest sender bytes len ≡ (ps, bad)
  unfolding mailbox_send
  mailbox_send_bad (inl h) = let t : ltb max_payload len ≡ true = ground arith in rw t
  mailbox_send_bad (inr h) =
      rw h (elim (Bool-cases (ltb max_payload len)) [ inl t ↦ rw t | inr t ↦ rw t ])

  module _ (p : Process) (small : len ≤ max_payload) (found : find_by_pid ps dest ≡ some p)
      (own : OwnWaiter p) where
    fits : ltb max_payload len ≡ false
    fits = ground arith

    pid_is : p.pid ≡ dest
    pid_is = found_pid ps dest p found

    abbrev store : Process → Process
    store q = record q { mailbox = push q.mailbox sender bytes len }

    abbrev stored : List Process
    stored = update_process ps dest store

    stored_dest : find_by_pid stored dest ≡ some (store p)
    stored_dest =
        let t : (dest == dest) ≡ true = ground arith in
        find-update ps dest dest store (λ q. refl) ∙ rw (t, found)

    stored_other : (q : ℕ) → dest ≢ q → find_by_pid stored q ≡ find_by_pid ps q
    stored_other q n =
        let t : (dest == q) ≡ false = ground arith in find-update ps dest q store (λ r. refl) ∙ rw t

    abbrev Delivered : List Process → Type 0
    Delivered qs =
        (find_by_pid qs dest ≡ some (deliver p sender bytes len))
        × ((q : ℕ) → dest ≢ q → find_by_pid qs q ≡ find_by_pid ps q)

    wake-Delivered :
        (w : Option ℕ)
        → p.mailbox.waiter ≡ w
        → (w ≡ none) ⊎ (w ≡ some p.pid)
        → Delivered (wake w stored)
    unfolding deliver
    wake-Delivered none e o = (stored_dest ∙ ap some (ground (arith, e)), stored_other)
    wake-Delivered (some w) e (inl o) = absurd (cc)
    wake-Delivered (some w) e (inr o) =
        let w_is : w ≡ dest = some-injective _ _ o ∙ pid_is in
        let t : (w == dest) ≡ true = ground arith in
        (
          find-update stored w dest (λ r. record r { state = ready }) (λ r. refl)
              ∙ (rw (t, stored_dest) (ap some (ground (arith, e)))),
          λ q n.
              let t' : (w == q) ≡ false = ground arith in
              find-update stored w q (λ r. record r { state = ready }) (λ r. refl)
              ∙ rw t' (stored_other q n),
        )

    -- A message of at most 96 bytes for a process in the list, whose mailbox nobody but that process
    -- waits on, is refused with -2 and nothing changes if 32 messages wait; otherwise the result
    -- is 0, the process has the message and is ready if it waited, and no other process changes.
    pub mailbox_send-deliver :
        ((max_slots ≤ p.mailbox.count) × (mailbox_send ps dest sender bytes len ≡ (ps, full)))
        ⊎ ((p.mailbox.count < max_slots)
            × ((mailbox_send ps dest sender bytes len).1 ≡ sent)
            × (find_by_pid (mailbox_send ps dest sender bytes len).0 dest
                ≡ some (deliver p sender bytes len))
            × ((q : ℕ)
                → dest ≢ q
                → find_by_pid (mailbox_send ps dest sender bytes len).0 q ≡ find_by_pid ps q))
    unfolding mailbox_send
    mailbox_send-deliver = elim (Bool-cases (leb max_slots p.mailbox.count)) [
      | inl f ↦ inl (ground arith, rw (fits, found, f))
      | inr f ↦
          let d = wake-Delivered p.mailbox.waiter refl own in
          let e : mailbox_send ps dest sender bytes len ≡ (wake p.mailbox.waiter stored, sent) =
            rw (mailbox_send, fits, found, f) in
          inr (
            ground arith,
            ap (λ (r : List Process × SendResult). r.1) e,
            subst
                (λ (r : List Process × SendResult).
                  find_by_pid r.0 dest ≡ some (deliver p sender bytes len))
                (sym e) d.0,
            subst
                (λ (r : List Process × SendResult).
                  (q : ℕ) → dest ≢ q → find_by_pid r.0 q ≡ find_by_pid ps q)
                (sym e) d.1,
          )
    ]
