-- ===== src/Keyboard/Keys.antt =====
-- The key state of ps2_keyboard_handler.c, its `parse` functions, and the functions tied to keys in
-- ps2_keyboard_key_functions.c. What other parts of the kernel do is an event: `keycode_handler` with the key that the
-- C++ side turns into a key code, `set_leds`, and the moves of the terminal.
pub mod Laws
use maple_kernel.Base.{
  ℕ, zero, suc, ◌+◌, ◌-◌, Bool, true, false, ◌&&◌, ◌||◌, not, List, [], ◌∷◌, ◌++◌, Option, none,
  some, ltb, ◌==◌, if◌then◌else◌, update, for_range,
}
use maple_kernel.Keyboard.Decode.{Parse, nothing, key, extended_key, print_screen, pause}

-- Lengths of the two arrays of key states.
abbrev pub scancode_len : ℕ
scancode_len = 0x58 + 1

abbrev pub extended_scancode_len : ℕ
extended_scancode_len = 0x6d + 1

pub record LedState : Type 0 where
  pub caps_lock : Bool
  pub number_lock : Bool
  pub scroll_lock : Bool

-- The functions that a key can be tied to.
pub data KeyFunction : Type 0 where
  nop pressed_caps_lock pressed_num_lock pressed_scroll_lock pressed_a : KeyFunction
  pressed_up pressed_down pressed_left pressed_right pressed_r pressed_f : KeyFunction

pub record KeyState : Type 0 where
  pub led_keys : LedState
  pub is_key_pressed : ℕ → Bool
  pub is_print_screen_pressed : Bool
  pub key_functions : ℕ → KeyFunction
  pub is_key_tied_to_function : ℕ → Bool
  pub is_extended_key_pressed : ℕ → Bool
  pub extended_key_functions : ℕ → KeyFunction
  pub is_extended_key_tied_to_function : ℕ → Bool

pub record KeyModifierState : Type 0 where
  pub left_shift : Bool
  pub right_shift : Bool
  pub left_ctrl : Bool
  pub right_ctrl : Bool
  pub left_meta : Bool
  pub right_meta : Bool
  pub menu_app : Bool
  pub alt : Bool
  pub altgr : Bool
  pub capslock : Bool
  pub scroll_lock : Bool

pub data Event : Type 0 where
  keycode_handler : Parse → KeyModifierState → Bool → Bool → Event
  set_leds : LedState → Event
  terminal_arrow_up terminal_arrow_down terminal_arrow_left terminal_arrow_right : Event
  terminal_ctrl_r terminal_ctrl_f : Event
  eoi : ℕ → Event

pub set_key_function : ℕ → KeyFunction → KeyState → KeyState
set_key_function code f k = record k {
  key_functions = update k.key_functions code f;
  is_key_tied_to_function = update k.is_key_tied_to_function code true;
}

pub set_extended_key_function : ℕ → KeyFunction → KeyState → KeyState
set_extended_key_function code f k = record k {
  extended_key_functions = update k.extended_key_functions code f;
  is_extended_key_tied_to_function = update k.is_extended_key_tied_to_function code true;
}

-- One round of the loop of `setup_keyboard_extra`.
pub untie : ℕ → KeyState → KeyState
untie i k = record k {
  key_functions = update k.key_functions i nop;
  is_key_tied_to_function = update k.is_key_tied_to_function i false;
  extended_key_functions = update k.extended_key_functions i nop;
  is_extended_key_tied_to_function = update k.is_extended_key_tied_to_function i false;
}

abbrev pub all_off : LedState
all_off = record { caps_lock = false; number_lock = false; scroll_lock = false }

-- The codes are those of scancode.h and extended_scancode.h, which the assertions of the setters
-- accept. The start of the C++ side is not modelled.
pub setup_keyboard_extra : KeyState → KeyState × List Event
setup_keyboard_extra k₀ =
    let k₁ = for_range 256 0 untie k₀ in
    let k₂ = set_key_function 0x3a pressed_caps_lock k₁ in
    let k₃ = set_key_function 0x45 pressed_num_lock k₂ in
    let k₄ = set_key_function 0x46 pressed_scroll_lock k₃ in
    let k₅ = set_key_function 0x1e pressed_a k₄ in
    let k₆ = set_extended_key_function 0x48 pressed_up k₅ in
    let k₇ = set_extended_key_function 0x50 pressed_down k₆ in
    let k₈ = set_extended_key_function 0x4b pressed_left k₇ in
    let k₉ = set_extended_key_function 0x4d pressed_right k₈ in
    let k₁₀ = set_key_function 0x13 pressed_r k₉ in
    let k₁₁ = set_key_function 0x21 pressed_f k₁₀ in
    (record k₁₁ { led_keys = all_off }, set_leds all_off ∷ [])

pub is_shift_held : KeyState → Bool
is_shift_held k = k.is_key_pressed 0x2a || k.is_key_pressed 0x36

pub is_ctrl_held : KeyState → Bool
is_ctrl_held k = k.is_key_pressed 0x1d || k.is_extended_key_pressed 0x1d

pub is_alt_held : KeyState → Bool
is_alt_held k = k.is_key_pressed 0x38

pub is_altgr_held : KeyState → Bool
is_altgr_held k = k.is_extended_key_pressed 0x38

pub is_capslock_on : KeyState → Bool
is_capslock_on k = k.led_keys.caps_lock

pub is_caps : KeyState → Bool
is_caps k = is_shift_held k || is_capslock_on k

pub get_current_mod_state : KeyState → KeyModifierState
get_current_mod_state k = record {
  left_shift = k.is_key_pressed 0x2a;
  right_shift = k.is_key_pressed 0x36;
  left_ctrl = k.is_key_pressed 0x1d;
  right_ctrl = k.is_extended_key_pressed 0x1d;
  left_meta = k.is_extended_key_pressed 0x5b;
  right_meta = k.is_extended_key_pressed 0x5c;
  menu_app = k.is_extended_key_pressed 0x5d;
  alt = k.is_key_pressed 0x38;
  altgr = k.is_extended_key_pressed 0x38;
  capslock = k.is_key_pressed 0x3a;
  scroll_lock = k.is_key_pressed 0x46;
}

-- The body of each function in ps2_keyboard_key_functions.c.
pub run_key_function : KeyFunction → KeyState → KeyState × List Event
run_key_function nop k = (k, [])
run_key_function pressed_caps_lock k =
    let leds = k.led_keys in
    let leds' = record leds { caps_lock = not leds.caps_lock } in
    (record k { led_keys = leds' }, set_leds leds' ∷ [])
run_key_function pressed_num_lock k =
    let leds = k.led_keys in
    let leds' = record leds { number_lock = not leds.number_lock } in
    (record k { led_keys = leds' }, set_leds leds' ∷ [])
run_key_function pressed_scroll_lock k =
    let leds = k.led_keys in
    let leds' = record leds { scroll_lock = not leds.scroll_lock } in
    (record k { led_keys = leds' }, set_leds leds' ∷ [])
run_key_function pressed_a k = (k, [])
run_key_function pressed_up k = (k, terminal_arrow_up ∷ [])
run_key_function pressed_down k = (k, terminal_arrow_down ∷ [])
run_key_function pressed_left k = (k, terminal_arrow_left ∷ [])
run_key_function pressed_right k = (k, terminal_arrow_right ∷ [])
run_key_function pressed_r k = (k, (if is_ctrl_held k then terminal_ctrl_r ∷ [] else []))
run_key_function pressed_f k = (k, (if is_ctrl_held k then terminal_ctrl_f ∷ [] else []))

-- The call of the function tied to a key that is pressed, where there is one.
pub run_tied : Bool → KeyFunction → KeyState → KeyState × List Event
run_tied tied f k = if tied then run_key_function f k else (k, [])

-- `none` is an access past the end of `is_key_pressed`.
pub parse_scan_code : ℕ → Bool → KeyState → Option (KeyState × List Event)
parse_scan_code code pressed k =
    let after = run_tied (k.is_key_tied_to_function code) (k.key_functions code) k in
    let k' = after.0 in
    let first_press = not (k'.is_key_pressed code) in
    let down = record k' { is_key_pressed = update k'.is_key_pressed code true } in
    let up = record k { is_key_pressed = update k.is_key_pressed code false } in
    if ltb code scancode_len
    then some (
        if pressed
        then (
          down,
          after.1
              ++ keycode_handler (key code true) (get_current_mod_state k') first_press true ∷ [],
        )
        else (up, keycode_handler (key code false) (get_current_mod_state up) false false ∷ []))
    else none

pub parse_extended_scan_code : ℕ → Bool → KeyState → Option (KeyState × List Event)
parse_extended_scan_code code pressed k =
    let tied = k.is_extended_key_tied_to_function code in
    let after = run_tied tied (k.extended_key_functions code) k in
    let k' = after.0 in
    let first_press = not (k'.is_extended_key_pressed code) in
    let down = record k' {
      is_extended_key_pressed = update k'.is_extended_key_pressed code true;
    } in
    let up = record k { is_extended_key_pressed = update k.is_extended_key_pressed code false } in
    if ltb code extended_scancode_len
    then some (
        if pressed
        then (
          down,
          after.1
              ++ keycode_handler (extended_key code true) (get_current_mod_state k') first_press
                  true
                ∷ [],
        )
        else (
          up,
          keycode_handler (extended_key code false) (get_current_mod_state up) false false ∷ [],
        ))
    else none

pub parse_print_screen : Bool → KeyState → KeyState × List Event
parse_print_screen pressed k = (
  record k { is_print_screen_pressed = pressed },
  keycode_handler (print_screen pressed) (get_current_mod_state k)
        (if pressed then not k.is_print_screen_pressed else false) pressed
      ∷ [],
)

pub parse_pause_pressed : KeyState → KeyState × List Event
parse_pause_pressed k = (k, keycode_handler pause (get_current_mod_state k) true true ∷ [])

pub parse : Parse → KeyState → Option (KeyState × List Event)
parse nothing k = some (k, [])
parse (key code pressed) k = parse_scan_code code pressed k
parse (extended_key code pressed) k = parse_extended_scan_code code pressed k
parse (print_screen pressed) k = some (parse_print_screen pressed k)
parse pause k = some (parse_pause_pressed k)
