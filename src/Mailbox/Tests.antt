-- ===== src/Mailbox/Tests.antt =====
-- Tests of the mailbox, on a ring whose next slot is the last one.
use lufira_os.Base.{
  ℕ, ◌+◌, ◌*◌, ◌≤◌, ◌<◌, ◌≡◌, ◌≢◌, refl, ◌⊎◌, inl, none, some, List, [], ◌∷◌, ◌++◌, replicate,
  arith,
}
use lufira_os.Mailbox.{
  blocked, waiting, Process, Mailbox, Msg, no_msg, running, forever, limited, looking, returned,
  goes_on, arrives, max_slots, push, pop, turn, go_on, accepts, step, run, deliver, mailbox_send,
  sent, bad, full, find_by_pid, Event,
}
use lufira_os.Mailbox.Queue.{view, contents, IsValid, contents-push, contents-pop}
use lufira_os.Mailbox.Send.{mailbox_send-deliver, mailbox_send_bad}
use lufira_os.Mailbox.Receive.{IsAwake, run-IsAwake, all_sent, all_got, run_fifo}
use lufira_os.Mailbox.Timing.{recv_times_out}

abbrev empty_ring : Mailbox
empty_ring = record { slots = replicate 32 no_msg; head = 31; tail = 31; count = 0; waiter = none }

abbrev reader : Process
reader = record { pid = 7; state = running; mailbox = empty_ring }

empty_ring-IsValid : IsValid empty_ring
empty_ring-IsValid = omega arith

-- The reader blocks, two messages come, and it reads both across the end of the ring.
abbrev history : List Event
history =
    goes_on
    ∷ goes_on
    ∷ arrives 3 (65 ∷ 66 ∷ []) 2
    ∷ arrives 4 (67 ∷ []) 1
    ∷ goes_on
    ∷ goes_on
    ∷ goes_on
    ∷ goes_on
    ∷ []

reads_both : all_got forever (reader, looking 0) history ≡ (3, 65 ∷ 66 ∷ []) ∷ (4, 67 ∷ []) ∷ []
unfolding all_got step go_on turn pop deliver push accepts
reads_both = refl

contents-push_example :
    (contents (push empty_ring 3 (65 ∷ 66 ∷ []) 2) ≡ contents empty_ring ++ (3, 65 ∷ 66 ∷ []) ∷ [])
    × IsValid (push empty_ring 3 (65 ∷ 66 ∷ []) 2)
contents-push_example =
    contents-push empty_ring empty_ring-IsValid 3 (65 ∷ 66 ∷ []) 2 (omega arith) (omega arith)
      (omega arith)

contents-pop_example :
    ((contents empty_ring ≡ []) × (pop empty_ring ≡ none))
    ⊎ ((m : Msg) × (mb' : Mailbox) × (pop empty_ring ≡ some (m, mb'))
        × (contents empty_ring ≡ view m ∷ contents mb')
        × IsValid mb')
contents-pop_example = contents-pop empty_ring empty_ring-IsValid

abbrev processes : List Process
processes = record { pid = 3; state = running; mailbox = empty_ring } ∷ reader ∷ []

reader_found : find_by_pid processes 7 ≡ some reader
unfolding find_by_pid
reader_found = refl

mailbox_send-deliver_example :
    ((max_slots ≤ 0) × (mailbox_send processes 7 3 (65 ∷ []) 1 ≡ (processes, full)))
    ⊎ ((0 < max_slots)
        × ((mailbox_send processes 7 3 (65 ∷ []) 1).1 ≡ sent)
        × (find_by_pid (mailbox_send processes 7 3 (65 ∷ []) 1).0 7
            ≡ some (deliver reader 3 (65 ∷ []) 1))
        × ((q : ℕ)
            → 7 ≢ q
            → find_by_pid (mailbox_send processes 7 3 (65 ∷ []) 1).0 q ≡ find_by_pid processes q))
mailbox_send-deliver_example =
    mailbox_send-deliver processes 7 3 (65 ∷ []) 1 reader (omega arith) reader_found (inl refl)

mailbox_send_bad_example : mailbox_send processes 7 3 [] 97 ≡ (processes, bad)
mailbox_send_bad_example = mailbox_send_bad processes 7 3 [] 97 (inl (omega arith))

-- The reader finds no message and blocks.
run-IsAwake_example : IsAwake (run forever (reader, looking 0) (goes_on ∷ []))
run-IsAwake_example = run-IsAwake forever (reader, looking 0) (goes_on ∷ []) tt

blocked_test : run forever (reader, looking 0) (goes_on ∷ []) ≡ (
  record reader { mailbox = record (reader.mailbox) { waiter = some reader.pid }; state = blocked },
  waiting 0,
)
unfolding run step go_on turn pop
blocked_test = refl

run_fifo_example :
    (contents empty_ring ++ all_sent forever (reader, looking 0) history
      ≡ all_got forever (reader, looking 0) history
        ++ contents ((run forever (reader, looking 0) history).0).mailbox)
    × IsValid ((run forever (reader, looking 0) history).0).mailbox
run_fifo_example = run_fifo forever (reader, looking 0) history empty_ring-IsValid (omega arith)

nothing_waits : pop empty_ring ≡ none
unfolding pop
nothing_waits = refl

recv_times_out_example :
    (j : ℕ) × (j ≤ 2 * 3 + 1)
    × (run (limited 25) (reader, looking 0) (replicate j goes_on) ≡ (reader, returned none))
recv_times_out_example = recv_times_out reader 25 nothing_waits 3 (omega arith)
