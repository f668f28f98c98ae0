-- ===== src/Input/Keys.antt =====
-- One key press that comes from two keyboards, and where keys go.
use lufira_os.Base.{
  ℕ, ◌+◌, ◌-◌, ◌%◌, ◌^◌, ◌<◌, ◌≡◌, refl, ap, Bool, true, false, ◌&&◌, some, arith, ltb, lt→ltb,
  ◌==◌, if◌then◌else◌, Bool-cases, inl, inr,
}
use lufira_os.Input.{
  Keyboard, Env, Action, nothing, same, is_duplicate, input_keyboard_event_ex, console_input_push,
  is_text, after_ring,
}

same_self : (b : Bool) → same b b ≡ true
same_self true = refl
same_self false = refl

-- The event is the last one.
abbrev Remembers : Env → ℕ → Bool → Keyboard → Type 0
Remembers env key pressed k =
    (k.last_key ≡ key) × (k.last_pressed ≡ some pressed) × (k.last_key_tick ≡ env.now)

after_ring-Remembers :
    (env : Env) (k : Keyboard) (key : ℕ) (pressed : Bool)
    → Remembers env key pressed k
    → Remembers env key pressed (after_ring env k key).0
unfolding after_ring
after_ring-Remembers env k key pressed h = elim (Bool-cases (key == 3 && env.ctrl)) [
  | inl u ↦ rw u h
  | inr u ↦ elim (Bool-cases (key == 4 && env.ctrl)) [
    | inl d ↦ rw (u, d) h
    | inr d ↦ elim (Bool-cases (key == 5)) [ inl c ↦ rw (u, d, c) h | inr c ↦ rw (u, d, c) h ]
  ]
]

if-Remembers :
    (env : Env) (k k' : Keyboard) (key : ℕ) (pressed b : Bool)
    → Remembers env key pressed k
    → Remembers env key pressed k'
    → Remembers env key pressed (if b then k else k')
if-Remembers env k k' key pressed true h h' = h
if-Remembers env k k' key pressed false h h' = h'

either-Remembers :
    (env : Env) (x y : Keyboard × Action) (key : ℕ) (pressed b : Bool)
    → Remembers env key pressed x.0
    → Remembers env key pressed y.0
    → Remembers env key pressed (if b then x else y).0
either-Remembers env x y key pressed true h h' = h
either-Remembers env x y key pressed false h h' = h'

-- A state that remembers the event takes it for a duplicate.
repeated :
    (env : Env) (k : Keyboard) (key : ℕ) (pressed : Bool)
    → env.now < 2 ^ 64
    → 0 < key
    → k.last_key ≡ key
    → k.last_pressed ≡ some pressed
    → k.last_key_tick ≡ env.now
    → input_keyboard_event_ex env k key pressed ≡ (k, nothing)
unfolding input_keyboard_event_ex is_duplicate
repeated env k key pressed small pos a b c =
    let some_key : (key == 0) ≡ false = ground arith in
    let same_key : (key == k.last_key) ≡ true = ground arith in
    let no_ticks : ltb ((env.now + 2 ^ 64 - k.last_key_tick) % 2 ^ 64) 1 ≡ true =
      lt→ltb _ _ (omega (arith, c, small)) in
    let kept : record k { last_key = key; last_pressed = some pressed; last_key_tick = env.now }
        ≡ k =
      cc in
    let twice : is_duplicate env k key pressed ≡ true =
      rw (is_duplicate, same_key, b, same_self pressed, no_ticks) refl in
    rw (some_key, twice) (ap (λ x. (x, nothing)) kept)

input_keyboard_event_ex-Remembers :
    (env : Env) (k : Keyboard) (key : ℕ) (pressed : Bool)
    → 0 < key
    → Remembers env key pressed (input_keyboard_event_ex env k key pressed).0
unfolding input_keyboard_event_ex
input_keyboard_event_ex-Remembers env k key pressed pos =
    let some_key : (key == 0) ≡ false = ground arith in
    let noted : Keyboard = record k {
      last_key = key;
      last_pressed = some pressed;
      last_key_tick = env.now;
    } in
    let pushed : Keyboard = record noted {
      console = (console_input_push k.console (key % 256)).0;
    } in
    let e : Remembers env key pressed noted = (refl, refl, refl) in
    elim (Bool-cases (is_duplicate env k key pressed)) [
      | inl d ↦ rw (some_key, d) e
      | inr d ↦ elim (Bool-cases (env.wm_pid == 0)) [
        | inr w ↦ rw (some_key, d, w) e
        | inl w ↦
            let text = after_ring env (if is_text env key then pushed else noted) key in
            let seen =
              after_ring-Remembers env (if is_text env key then pushed else noted) key pressed
                (if-Remembers env pushed noted key pressed (is_text env key) e e) in
            rw (some_key, d, w)
              (either-Remembers env text (noted, nothing) key pressed pressed seen e)
      ]
    ]

-- The same event once more in the same tick, as it comes when both keyboards report one key, does
-- nothing and leaves the state as it is: whatever the tick below 2^64, the window manager and Ctrl.
pub input_keyboard_event_ex_twice :
    (env : Env) (k : Keyboard) (key : ℕ) (pressed : Bool)
    → env.now < 2 ^ 64
    → 0 < key
    → let k' = (input_keyboard_event_ex env k key pressed).0 in
      input_keyboard_event_ex env k' key pressed ≡ (k', nothing)
input_keyboard_event_ex_twice env k key pressed small pos =
    by_state (input_keyboard_event_ex env k key pressed).0
      (input_keyboard_event_ex-Remembers env k key pressed pos)
  where
    by_state :
        (k' : Keyboard)
        → Remembers env key pressed k'
        → input_keyboard_event_ex env k' key pressed ≡ (k', nothing)
    by_state k' (a, b, c) = repeated env k' key pressed small pos a b c
