-- ===== src/Input/Tests.antt =====
-- Tests of the input layer, on a ring whose next byte is the last of the array.
use lufira_os.Base.{
  ◌<◌, ◌≡◌, refl, true, false, none, some, [], ◌∷◌, ◌++◌, ◌⊎◌, replicate, take, drop, arith,
}
use lufira_os.Input.{
  Console, Keyboard, Env, buf_size, got, blocks, nothing, console_input_push, console_input_read,
  input_keyboard_event_ex, forward, move,
}
use lufira_os.Input.Ring.{
  contents, IsValid, bytes_from, contents-console_input_push, contents-console_input_read,
}
use lufira_os.Input.Keys.{input_keyboard_event_ex_twice}

abbrev ring : Console
ring = record { buf = replicate 254 0 ++ (65 ∷ 66 ∷ []); head = 0; count = 2; waiter = some 4 }

ring-IsValid : IsValid ring
ring-IsValid = record { size = refl; head = omega arith; count = omega arith }

two_wait : contents ring ≡ 65 ∷ 66 ∷ []
unfolding bytes_from
two_wait = refl

contents-console_input_push_example :
    IsValid (console_input_push ring 67).0
    × (((ring.count ≡ buf_size) × (console_input_push ring 67 ≡ (ring, none)))
        ⊎ ((ring.count < buf_size)
            × (contents (console_input_push ring 67).0 ≡ contents ring ++ (67 ∷ []))
            × ((console_input_push ring 67).1 ≡ ring.waiter)
            × ((console_input_push ring 67).0.waiter ≡ none)))
contents-console_input_push_example = contents-console_input_push ring ring-IsValid 67

contents-console_input_read_example :
    IsValid (console_input_read ring 4 1).0
    × (((contents ring ≡ [])
          × ((console_input_read ring 4 1).1 ≡ blocks)
          × ((console_input_read ring 4 1).0.waiter ≡ some 4))
        ⊎ ((0 < ring.count)
            × ((console_input_read ring 4 1).1 ≡ got (take 1 (contents ring)))
            × (contents (console_input_read ring 4 1).0 ≡ drop 1 (contents ring))))
contents-console_input_read_example =
    contents-console_input_read ring ring-IsValid 4 1 (omega arith)

abbrev quiet : Keyboard
quiet = record {
  console = ring;
  last_key = 0;
  last_pressed = none;
  last_key_tick = 0;
  ctrl_c_pending = false;
}

abbrev env : Env
env = record { now = 7; wm_pid = 0; ctrl = false; scrolled = false }

input_keyboard_event_ex_twice_example :
    input_keyboard_event_ex env (input_keyboard_event_ex env quiet 97 true).0 97 true
    ≡ ((input_keyboard_event_ex env quiet 97 true).0, nothing)
input_keyboard_event_ex_twice_example =
    input_keyboard_event_ex_twice env quiet 97 true (omega arith) (omega arith)

at_the_edge : move 640 638 (forward 5) ≡ 639
unfolding move
at_the_edge = refl
