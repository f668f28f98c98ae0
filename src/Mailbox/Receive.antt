-- ===== src/Mailbox/Receive.antt =====
-- `mailbox_recv` against senders, in any interleaving: no message is lost or reordered, no wakeup is
-- lost, and a call with a limit ends.
use lufira_os.Base.{
  ℕ, ◌≤◌, ◌<◌, ◌≡◌, refl, ap, sym, subst, ◌∙◌, true, none, some, List, [], ◌∷◌, ◌++◌, inl, inr,
  arith, Bool-cases, Option-cases, length, take, leb, ltb, if◌then◌else◌, append-nil, append_assoc,
}
use lufira_os.Mailbox.{
  Process, State, ready, running, blocked, sleeping, terminated, stopped, Timeout, poll, limited,
  forever, Call, looking, napping, waiting, returned, Event, goes_on, arrives, Receiver, max_slots,
  max_payload, push, pop, turn, go_on, accepts, step, run, deliver,
}
use lufira_os.Mailbox.Queue.{view, contents, IsValid, contents-push, contents-pop}

-- A process that is blocked in `mailbox_recv` has no message and is its mailbox's waiter, so that the
-- next message makes it ready.
abbrev pub IsAwake : Receiver → Type 0
IsAwake (p, looking n) = Unit {0}
IsAwake (p, napping n) = Unit {0}
IsAwake (p, waiting n) = p.state ≡ blocked → (p.mailbox.count ≡ 0) × (p.mailbox.waiter ≡ some p.pid)
IsAwake (p, returned r) = Unit {0}

turn-IsAwake : (p : Process) (timeout : Timeout) (n : ℕ) → IsAwake (turn p timeout n)
unfolding turn pop
turn-IsAwake p poll n = elim (Bool-cases (ltb 0 p.mailbox.count)) [
  | inl y ↦ rw (y, turn) tt
  | inr z ↦ rw (z, turn) tt
]
turn-IsAwake p (limited ms) n = elim (Bool-cases (ltb 0 p.mailbox.count)) [
  | inl y ↦ rw (y, turn) tt
  | inr z ↦ elim (Bool-cases (leb ms n)) [ inl l ↦ rw (z, turn, l) tt | inr l ↦ rw (z, turn, l) tt ]
]
turn-IsAwake p forever n = elim (Bool-cases (ltb 0 p.mailbox.count)) [
  | inl y ↦ rw (y, turn) tt
  | inr z ↦ rw (z, turn) (λ e. (ground arith, refl))
]

deliver-IsAwake :
    (p : Process) (c : Call) (sender : ℕ) (bytes : List ℕ) (len : ℕ)
    → IsAwake (p, c)
    → IsAwake (deliver p sender bytes len, c)
unfolding deliver
deliver-IsAwake p (looking n) sender bytes len h = tt
deliver-IsAwake p (napping n) sender bytes len h = tt
deliver-IsAwake p (waiting n) sender bytes len h = λ e.
    absurd (elim (Option-cases p.mailbox.waiter) [
      | inl w ↦ let (z, o) = h (rw w at e) in let c = sym w ∙ o in cc
      | inr (q, w) ↦ let c = rw w at e in cc
    ])
deliver-IsAwake p (returned r) sender bytes len h = tt

still :
    (p : Process) (n : ℕ) (s : State)
    → IsAwake (p, waiting n)
    → IsAwake (elim s [ blocked ↦ (p, waiting n) | _ ↦ (p, looking n) ])
still p n ready h = tt
still p n running h = tt
still p n blocked h = h
still p n sleeping h = tt
still p n terminated h = tt
still p n stopped h = tt

step-IsAwake :
    (timeout : Timeout) (s : Receiver) (e : Event) → IsAwake s → IsAwake (step timeout s e)
unfolding step go_on
step-IsAwake timeout (p, looking n) goes_on h = turn-IsAwake p timeout n
step-IsAwake timeout (p, napping n) goes_on h = tt
step-IsAwake timeout (p, waiting n) goes_on h = still p n p.state h
step-IsAwake timeout (p, returned r) goes_on h = tt
step-IsAwake timeout (p, c) (arrives sender bytes len) h = elim (Bool-cases (accepts p len)) [
  | inl y ↦ rw (step, y) (deliver-IsAwake p c sender bytes len h)
  | inr y ↦ rw (step, y) h
]

-- From a state in which the process is not blocked with a message in its mailbox, nor blocked without
-- being the waiter that the next message makes ready, no sequence of turns of `mailbox_recv` and of
-- messages leads to one where it is.
pub run-IsAwake :
    (timeout : Timeout) (s : Receiver) (es : List Event) → IsAwake s → IsAwake (run timeout s es)
unfolding run
run-IsAwake timeout s [] h = h
run-IsAwake timeout s (e ∷ es) h =
    run-IsAwake timeout (step timeout s e) es (step-IsAwake timeout s e h)

-- The messages that senders were told they had sent, and those that a call returns when it goes on.
abbrev pub sent_at : Receiver → Event → List (ℕ × List ℕ)
sent_at s goes_on = []
sent_at s (arrives sender bytes len) = if accepts s.0 len then (sender, take len bytes) ∷ [] else []

abbrev pub answer : Call → List (ℕ × List ℕ)
answer (looking n) = []
answer (napping n) = []
answer (waiting n) = []
answer (returned none) = []
answer (returned (some m)) = view m ∷ []

abbrev pub got_at : Timeout → Receiver → Event → List (ℕ × List ℕ)
got_at timeout s goes_on = answer (step timeout s goes_on).1
got_at timeout s (arrives sender bytes len) = []

pub all_sent : Timeout → Receiver → List Event → List (ℕ × List ℕ)
all_sent timeout s [] = []
all_sent timeout s (e ∷ es) = sent_at s e ++ all_sent timeout (step timeout s e) es

unfoldable pub all_got : Timeout → Receiver → List Event → List (ℕ × List ℕ)
all_got timeout s [] = []
all_got timeout s (e ∷ es) = got_at timeout s e ++ all_got timeout (step timeout s e) es

-- The sender's buffer holds the bytes that it sends.
abbrev pub Given : List Event → Type 0
Given [] = Unit {0}
Given (goes_on ∷ es) = Given es
Given (arrives sender bytes len ∷ es) = (len ≤ length bytes) × Given es

abbrev Kept : Timeout → Receiver → Event → Type 0
Kept timeout s e =
    (contents (s.0).mailbox ++ sent_at s e
      ≡ got_at timeout s e ++ contents ((step timeout s e).0).mailbox)
    × IsValid ((step timeout s e).0).mailbox

-- A turn that finds no message leaves the messages alone, and returns none.
turn_idle :
    (timeout : Timeout) (p : Process) (n : ℕ)
    → IsValid p.mailbox
    → pop p.mailbox ≡ none
    → (contents ((turn p timeout n).0).mailbox ≡ contents p.mailbox)
      × IsValid ((turn p timeout n).0).mailbox
      × (answer (turn p timeout n).1 ≡ [])
unfolding turn
turn_idle poll p n v e = rw (e, turn) (refl, v, refl)
turn_idle (limited ms) p n v e = elim (Bool-cases (leb ms n)) [
  | inl l ↦ rw (e, turn, l) (refl, v, refl)
  | inr l ↦ rw (e, turn, l) (refl, v, refl)
]
turn_idle forever p n v e =
    rw (e, turn)
      (
        refl,
        record {
          slots = v.slots;
          payloads = v.payloads;
          head = v.head;
          tail = v.tail;
          count = v.count;
        },
        refl,
      )

turn-Kept :
    (timeout : Timeout) (p : Process) (n : ℕ)
    → IsValid p.mailbox
    → Kept timeout (p, looking n) goes_on
unfolding step go_on turn
turn-Kept timeout p n v = elim (contents-pop p.mailbox v) [
  | inl (none_left, e) ↦
      let idle = turn_idle timeout p n v e in
      (
        append-nil (contents p.mailbox)
            ∙ (sym idle.0 ∙ ap (λ l. l ++ contents ((turn p timeout n).0).mailbox) (sym idle.2)),
        idle.1,
      )
  | inr (m, mb, e, first, v') ↦
      let t : turn p timeout n ≡ (record p { mailbox = mb }, returned (some m)) = rw (turn, e) in
      (
        append-nil (contents p.mailbox)
            ∙ (first ∙ ap (λ (r : Receiver). answer r.1 ++ contents (r.0).mailbox) (sym t)),
        subst (λ (r : Receiver). IsValid (r.0).mailbox) (sym t) v',
      )
]

accepts_parts :
    (p : Process) (len : ℕ)
    → accepts p len ≡ true
    → (len ≤ max_payload) × (p.mailbox.count < max_slots)
unfolding accepts
accepts_parts p len h = ground arith

step-Kept :
    (timeout : Timeout) (s : Receiver) (e : Event)
    → IsValid (s.0).mailbox
    → Given (e ∷ [])
    → Kept timeout s e
unfolding step go_on
step-Kept timeout (p, looking n) goes_on v g = turn-Kept timeout p n v
step-Kept timeout (p, napping n) goes_on v g = (append-nil (contents p.mailbox), v)
step-Kept timeout (p, waiting n) goes_on v g = same_state p.state
  where
    same_state :
        (s : State)
        → (contents p.mailbox ++ []
            ≡ answer
                (elim s as (λ x. Process × Call) [
                  | blocked ↦ (p, waiting n)
                  | _ ↦ (p, looking n)
                ]).1
              ++ contents
                  ((elim s as (λ x. Process × Call) [
                    | blocked ↦ (p, waiting n)
                    | _ ↦ (p, looking n)
                  ]).0
                    ).mailbox)
          × IsValid
              ((elim s as (λ x. Process × Call) [ blocked ↦ (p, waiting n) | _ ↦ (p, looking n) ]).0
                ).mailbox
    same_state ready = (append-nil (contents p.mailbox), v)
    same_state running = (append-nil (contents p.mailbox), v)
    same_state blocked = (append-nil (contents p.mailbox), v)
    same_state sleeping = (append-nil (contents p.mailbox), v)
    same_state terminated = (append-nil (contents p.mailbox), v)
    same_state stopped = (append-nil (contents p.mailbox), v)
step-Kept timeout (p, returned r) goes_on v g = (append-nil (contents p.mailbox), v)
step-Kept timeout (p, c) (arrives sender bytes len) v g = elim (Bool-cases (accepts p len)) [
  | inl y ↦
      let (small, room) = accepts_parts p len y in
      let put = contents-push p.mailbox v sender bytes len room small g.0 in
      rw (step, y) (put_in put)
  | inr y ↦ rw (step, y) (append-nil (contents p.mailbox), v)
]
  where
    put_in :
        (contents (push p.mailbox sender bytes len)
            ≡ contents p.mailbox ++ (sender, take len bytes) ∷ [])
          × IsValid (push p.mailbox sender bytes len)
        → (contents p.mailbox ++ (sender, take len bytes) ∷ []
            ≡ contents (deliver p sender bytes len).mailbox)
          × IsValid (deliver p sender bytes len).mailbox
    put_in put = unfold deliver in (sym put.0, put.1)

regroup {ℓ} :
    {A : Type ℓ} (a x b y xs ys c : List A)
    → a ++ x ≡ y ++ b
    → b ++ xs ≡ ys ++ c
    → a ++ (x ++ xs) ≡ (y ++ ys) ++ c
regroup a x b y xs ys c p q =
    sym (append_assoc a x xs)
    ∙ (ap (λ l. l ++ xs) p ∙ (append_assoc y b xs ∙ (ap (◌++◌ y) q ∙ sym (append_assoc y ys c))))

Given-head : (e : Event) (es : List Event) → Given (e ∷ es) → Given (e ∷ []) × Given es
Given-head goes_on es g = (tt, g)
Given-head (arrives sender bytes len) es g = ((g.0, tt), g.1)

-- From a valid mailbox, however turns of `mailbox_recv` and messages of senders, whose buffers hold the
-- bytes that they send, follow one another: what waits at the start followed by what senders were told
-- they had sent is what the calls returned to the receiver, in that order, followed by what waits at
-- the end; and the mailbox stays valid.
pub run_fifo :
    (timeout : Timeout) (s : Receiver) (es : List Event)
    → IsValid (s.0).mailbox
    → Given es
    → (contents (s.0).mailbox ++ all_sent timeout s es
        ≡ all_got timeout s es ++ contents ((run timeout s es).0).mailbox)
      × IsValid ((run timeout s es).0).mailbox
unfolding run all_sent all_got
run_fifo timeout s [] v g = (append-nil (contents (s.0).mailbox), v)
run_fifo timeout s (e ∷ es) v g =
    let (first, rest) = Given-head e es g in
    let kept = step-Kept timeout s e v first in
    let ih = run_fifo timeout (step timeout s e) es kept.1 rest in
    (
      regroup (contents (s.0).mailbox) (sent_at s e) (contents ((step timeout s e).0).mailbox)
          (got_at timeout s e) (all_sent timeout (step timeout s e) es)
          (all_got timeout (step timeout s e) es) _ kept.0 ih.0,
      ih.1,
    )
