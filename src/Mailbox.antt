-- ===== src/Mailbox.antt =====
-- Messages between processes, kernel/system/ipc/mailbox.c: each process has a ring of 32 slots.
-- `mailbox_lock` and `mailbox_unlock` turn interrupts off and on again, so that what stands between
-- them is one step. A process is known by its pid, which is unique in the process list.
pub mod Queue
pub mod Send
pub mod Receive
pub mod Timing
mod Tests
use lufira_os.Base.{
  ℕ, zero, suc, ◌+◌, ◌-◌, ◌*◌, ◌%◌, ◌^◌, Bool, true, false, not, ◌&&◌, ◌||◌, Option, none, some,
  List, [], ◌∷◌, ◌++◌, length, get_or, set, take, drop, replicate, ltb, leb, ◌==◌, if◌then◌else◌,
}

-- `MAX_IPC_MAILBOX_SLOTS` and `MAX_IPC_MSG_PAYLOAD`
abbrev pub max_slots : ℕ
max_slots = 32

abbrev pub max_payload : ℕ
max_payload = 96

-- `ipc_msg_t`
pub record Msg : Type 0 where
  pub sender_pid : ℕ
  pub len : ℕ
  pub payload : List ℕ

abbrev pub no_msg : Msg
no_msg = record { sender_pid = 0; len = 0; payload = replicate max_payload 0 }

-- `ipc_mailbox_t`; the waiter is the pid of the process that waits.
pub record Mailbox : Type 0 where
  pub slots : List Msg
  pub head : ℕ
  pub tail : ℕ
  pub count : ℕ
  pub waiter : Option ℕ

-- `process_state_t`
pub data State : Type 0 where
  ready running blocked sleeping terminated stopped : State

-- The part of `process_t` that messages are about.
pub record Process : Type 0 where
  pub pid : ℕ
  pub state : State
  pub mailbox : Mailbox

-- `mailbox_init`: the slots keep what they hold.
unfoldable pub mailbox_init : Mailbox → Mailbox
mailbox_init mb = record mb { head = 0; tail = 0; count = 0; waiter = none }

-- `process_find_by_pid`
pub find_by_pid : List Process → ℕ → Option Process
find_by_pid [] pid = none
find_by_pid (p ∷ ps) pid = if p.pid == pid then some p else find_by_pid ps pid

-- A store into the process `pid`.
pub update_process : List Process → ℕ → (Process → Process) → List Process
update_process [] pid f = []
update_process (p ∷ ps) pid f = if p.pid == pid then f p ∷ ps else p ∷ update_process ps pid f

-- The slot that `mailbox_send` fills: `memcpy` of `len` bytes leaves the rest of the payload.
abbrev pub fill_slot : Msg → ℕ → List ℕ → ℕ → Msg
fill_slot old sender bytes len = record {
  sender_pid = sender;
  len = len;
  payload = take len bytes ++ drop len old.payload;
}

-- What `mailbox_send` does under the lock when the ring is not full.
pub push : Mailbox → ℕ → List ℕ → ℕ → Mailbox
push mb sender bytes len = record {
  slots = set mb.slots mb.tail (fill_slot (get_or mb.slots mb.tail no_msg) sender bytes len);
  head = mb.head;
  tail = (mb.tail + 1) % max_slots;
  count = mb.count + 1;
  waiter = none;
}

-- The results of `mailbox_send`: 0, -1 and -2.
pub data SendResult : Type 0 where
  sent : SendResult
  bad : SendResult
  full : SendResult

abbrev pub wake : Option ℕ → List Process → List Process
wake none ps = ps
wake (some w) ps = update_process ps w (λ p. record p { state = ready })

-- `mailbox_send`: `bytes` is the sender's buffer, of at least `len` bytes.
pub mailbox_send : List Process → (dest sender : ℕ) → List ℕ → ℕ → List Process × SendResult
mailbox_send ps dest sender bytes len =
    if ltb max_payload len then (ps, bad) else elim (find_by_pid ps dest) [
      | none ↦ (ps, bad)
      | some p ↦ if leb max_slots p.mailbox.count then (ps, full) else (
        wake p.mailbox.waiter
            (update_process ps dest (λ q. record q { mailbox = push q.mailbox sender bytes len })),
        sent,
      )
    ]

-- What `mailbox_recv` does under the lock: the message at the head, if there is one.
pub pop : Mailbox → Option (Msg × Mailbox)
pop mb =
    if ltb 0 mb.count
    then some (
      get_or mb.slots mb.head no_msg,
      record mb { head = (mb.head + 1) % max_slots; count = mb.count - 1 },
    )
    else none

-- `timeout_ms`
pub data Timeout : Type 0 where
  poll : Timeout
  limited : ℕ → Timeout
  forever : Timeout

-- The state of a call of `mailbox_recv`: it is at the top of its loop with so many milliseconds gone,
-- in `process_sleep(10)`, blocked in `schedule()`, or it has returned.
pub data Call : Type 0 where
  looking : ℕ → Call
  napping : ℕ → Call
  waiting : ℕ → Call
  returned : Option Msg → Call

-- One turn of the loop of `mailbox_recv` in the process `p`, from the top until it sleeps, blocks or
-- returns; 0 comes with the message, -1 is `none`. The loop is entered only in a process and with a
-- place for the message: without `current_process` or `out` the call returns -1 and does nothing.
pub turn : Process → Timeout → ℕ → Process × Call
turn p timeout elapsed = elim (pop p.mailbox) [
  | some (m, mb) ↦ (record p { mailbox = mb }, returned (some m))
  | none ↦ elim timeout [
    | poll ↦ (p, returned none)
    | limited ms ↦ if leb ms elapsed then (p, returned none) else (p, napping (elapsed + 10))
    | forever ↦ (
      record p { mailbox = record (p.mailbox) { waiter = some p.pid }; state = blocked },
      waiting elapsed,
    )
  ]
]

-- What a successful `mailbox_send` to the process does to it, where the waiter is the process itself.
pub deliver : Process → ℕ → List ℕ → ℕ → Process
deliver p sender bytes len = record p {
  mailbox = push p.mailbox sender bytes len;
  state = elim p.mailbox.waiter [ none ↦ p.state | some w ↦ ready ];
}

-- What happens to a process that receives: it goes on with its call, or somebody sends to it.
pub data Event : Type 0 where
  goes_on : Event
  arrives : (sender : ℕ) → List ℕ → (len : ℕ) → Event

abbrev pub Receiver : Type 0
Receiver = Process × Call

-- Going on: a turn of the loop, the end of a nap, the return from `schedule()` once the process is no
-- longer blocked, or the next call of `mailbox_recv` after one has returned.
pub go_on : Process → Call → Timeout → Receiver
go_on p (looking n) timeout = turn p timeout n
go_on p (napping n) timeout = (p, looking n)
go_on p (waiting n) timeout = elim p.state [ blocked ↦ (p, waiting n) | _ ↦ (p, looking n) ]
go_on p (returned r) timeout = (p, looking 0)

pub accepts : Process → ℕ → Bool
accepts p len = leb len max_payload && ltb p.mailbox.count max_slots

pub step : Timeout → Receiver → Event → Receiver
step timeout (p, c) goes_on = go_on p c timeout
step timeout (p, c) (arrives sender bytes len) =
    if accepts p len then (deliver p sender bytes len, c) else (p, c)

pub run : Timeout → Receiver → List Event → Receiver
run timeout s [] = s
run timeout s (e ∷ es) = run timeout (step timeout s e) es
