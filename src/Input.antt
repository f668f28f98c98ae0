-- ===== src/Input.antt =====
-- The input layer, kernel/drivers/input/input.c: the ring of bytes that /dev/console reads, the
-- handling of keys from both keyboards, and the mouse. What an event asks of other parts is an
-- `Action`; the tick, the window manager's pid and the state of Ctrl are arguments.
pub mod Ring
pub mod Keys
mod Tests
use lufira_os.Base.{
  ℕ, zero, suc, ◌+◌, ◌-◌, ◌%◌, ◌^◌, Bool, true, false, not, ◌&&◌, ◌||◌, Option, none, some, List,
  [], ◌∷◌, get_or, set, ltb, leb, ◌==◌, if◌then◌else◌,
}

abbrev pub buf_size : ℕ
buf_size = 256

-- `console_input_buf`, `console_input_head`, `console_input_count` and the pid of
-- `console_input_waiter`.
pub record Console : Type 0 where
  pub buf : List ℕ
  pub head : ℕ
  pub count : ℕ
  pub waiter : Option ℕ

-- `console_input_push`: the console after it and the process that becomes ready.
pub console_input_push : Console → ℕ → Console × Option ℕ
console_input_push c byte = if leb buf_size c.count then (c, none) else (
  record {
    buf = set c.buf c.head byte;
    head = (c.head + 1) % buf_size;
    count = c.count + 1;
    waiter = none;
  },
  c.waiter,
)

pub console_input_has_data : Console → Bool
console_input_has_data c = ltb 0 c.count

-- The loop of `console_input_read`: the bytes read, from index `i` on, and the count that is left.
pub read_bytes : (max : ℕ) → List ℕ → (i count : ℕ) → List ℕ × ℕ
read_bytes zero buf i count = ([], count)
read_bytes (suc m) buf i zero = ([], zero)
read_bytes (suc m) buf i (suc k) =
    let (bytes, left) = read_bytes m buf (i + 1) k in (get_or buf (i % buf_size) 0 ∷ bytes, left)

pub data ReadResult : Type 0 where
  got : List ℕ → ReadResult
  blocks : ReadResult

-- A turn of `console_input_read` of the process `pid`: it blocks as the waiter, or reads.
pub console_input_read : Console → (pid max : ℕ) → Console × ReadResult
console_input_read c pid max =
    let start = (c.head + buf_size - c.count) % buf_size in
    let (bytes, left) = read_bytes max c.buf start c.count in
    if max == 0
    then (c, got [])
    else (if c.count == 0
        then (record c { waiter = some pid }, blocks)
        else (record c { count = left }, got bytes))

-- What an event asks of the console and of the window manager.
pub data Action : Type 0 where
  nothing scroll_up scroll_down scroll_to_bottom : Action
  key_to_wm : (wm_pid key : ℕ) → (pressed : Bool) → Action

-- The state of the keyboard's side; `last_pressed` is `none` before the first event.
pub record Keyboard : Type 0 where
  pub console : Console
  pub last_key : ℕ
  pub last_pressed : Option Bool
  pub last_key_tick : ℕ
  pub ctrl_c_pending : Bool

-- The tick, `process_get_wm_pid()`, `keyboard_ctrl_pressed()` and `console_is_scrolled()`.
pub record Env : Type 0 where
  pub now : ℕ
  pub wm_pid : ℕ
  pub ctrl : Bool
  pub scrolled : Bool

abbrev pub same : Bool → Bool → Bool
same true b = b
same false b = not b

-- `is_duplicate`, with `KEY_DEBOUNCE_TICKS` of 1
pub is_duplicate : Env → Keyboard → ℕ → Bool → Bool
is_duplicate env k key pressed =
    key == k.last_key
    && elim k.last_pressed [ none ↦ false | some p ↦ same p pressed ]
    && ltb ((env.now + 2 ^ 64 - k.last_key_tick) % 2 ^ 64) 1

-- Does the key go into the ring? 1 to 4 are the arrows (3 up, 4 down), 5 is Ctrl+C.
pub is_text : Env → ℕ → Bool
is_text env key = if key == 3 || key == 4 then not env.ctrl else not (key == 5)

-- What follows after the ring: scrolling and Ctrl+C.
pub after_ring : Env → Keyboard → ℕ → Keyboard × Action
after_ring env k key =
    if key == 3 && env.ctrl
    then (k, scroll_up)
    else (if key == 4 && env.ctrl
        then (k, scroll_down)
        else (if key == 5
            then (
              record k { ctrl_c_pending = true },
              if env.scrolled then scroll_to_bottom else nothing,
            )
            else (k, nothing)))

-- `input_keyboard_event_ex`
pub input_keyboard_event_ex : Env → Keyboard → ℕ → Bool → Keyboard × Action
input_keyboard_event_ex env k key pressed =
    let noted : Keyboard = record k {
      last_key = key;
      last_pressed = some pressed;
      last_key_tick = env.now;
    } in
    let pushed : Keyboard = record noted {
      console = (console_input_push k.console (key % 256)).0;
    } in
    let text = after_ring env (if is_text env key then pushed else noted) key in
    if key == 0
    then (k, nothing)
    else (if is_duplicate env k key pressed
        then (noted, nothing)
        else (if not (env.wm_pid == 0)
            then (noted, key_to_wm env.wm_pid key pressed)
            else (if pressed then text else (noted, nothing))))

-- `input_keyboard_event`
pub input_keyboard_event : Env → Keyboard → ℕ → Keyboard × Action
input_keyboard_event env k key = input_keyboard_event_ex env k key true

-- A signed distance.
pub data Motion : Type 0 where
  forward back : ℕ → Motion

-- One coordinate of `input_mouse_event`, for sums within an `int`: below 0 it is 0, and with a screen
-- it is below the screen's size.
pub move : (size : ℕ) → ℕ → Motion → ℕ
move size x m =
    let x' : ℕ = elim m [ forward d ↦ x + d | back d ↦ x - d ] in
    if not (size == 0) && leb size x' then size - 1 else x'

-- `mouse_x`, `mouse_y` and `mouse_buttons`
pub record Mouse : Type 0 where
  pub mouse_x : ℕ
  pub mouse_y : ℕ
  pub mouse_buttons : ℕ

-- `input_mouse_event`: the state after it, and the request for the window manager: its pid and the
-- state that the request carries.
pub input_mouse_event :
    (width height wm_pid : ℕ)
    → Mouse
    → (dx dy : Motion) → (buttons : ℕ) → Mouse × Option (ℕ × Mouse)
input_mouse_event width height wm_pid mouse dx dy buttons =
    let moved : Mouse = record {
      mouse_x = move width mouse.mouse_x dx;
      mouse_y = move height mouse.mouse_y dy;
      mouse_buttons = buttons % 256;
    } in
    (moved, if wm_pid == 0 then none else some (wm_pid, moved))

pub input_mouse_get_x : Mouse → ℕ
input_mouse_get_x mouse = mouse.mouse_x

pub input_mouse_get_y : Mouse → ℕ
input_mouse_get_y mouse = mouse.mouse_y

pub input_mouse_get_buttons : Mouse → ℕ
input_mouse_get_buttons mouse = mouse.mouse_buttons
