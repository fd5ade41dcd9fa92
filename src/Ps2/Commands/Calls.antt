-- ===== src/Ps2/Commands/Calls.antt =====
-- Any command to a keyboard.
use maple_kernel.Base.{ℕ}
use maple_kernel.Ps2.{Hardware, Trace}
use maple_kernel.Ps2.Rules.{Keeps, left_behind}
use maple_kernel.Ps2.Polite.{IsPolite}
use maple_kernel.Ps2.Commands.{
  set_specific_key_to_typematic_autorepeat_only, set_specific_key_to_make_release,
  set_specific_key_to_make_only, set_all_keycode_to_typematic_autorepeat_make_release, Command,
  LedState, set_leds, set_scan_code_set, set_typematic, echo_keyboard, get_scan_code_set,
  enable_scanning, disable_scanning, set_default_parameters, set_all_keycode_to_make_release,
  set_all_keycode_to_make_only, resend_last_byte, reset_and_self_test,
}
use maple_kernel.Ps2.Commands.Polite.{
  set_specific_key_to_typematic_autorepeat_only-IsPolite, set_specific_key_to_make_release-IsPolite,
  set_specific_key_to_make_only-IsPolite,
  set_all_keycode_to_typematic_autorepeat_make_release-IsPolite, set_leds-IsPolite,
  set_scan_code_set-IsPolite, set_typematic-IsPolite, echo_keyboard-IsPolite,
  get_scan_code_set-IsPolite, enable_scanning-IsPolite, disable_scanning-IsPolite,
  set_default_parameters-IsPolite, set_all_keycode_to_make_release-IsPolite,
  set_all_keycode_to_make_only-IsPolite, resend_last_byte-IsPolite, reset_and_self_test-IsPolite,
}

-- A command of the keyboard with its arguments.
pub data KeyboardCall : Type 0 where
  leds_call : LedState → KeyboardCall
  scan_code_set_call typematic_call autorepeat_key_call make_release_key_call : ℕ → KeyboardCall
  make_only_key_call : ℕ → KeyboardCall
  echo_call get_scan_code_set_call enable_call disable_call default_call make_release_call :
      KeyboardCall
  make_only_call autorepeat_call resend_call reset_call : KeyboardCall

-- The accesses after a call, whatever it returned.
abbrev pub trace_after : {A : Type 0} → Command A → Hardware → Trace → Trace
trace_after m device t = (m device t).1

abbrev pub after_call : KeyboardCall → ℕ → Hardware → Trace → Trace
after_call (leds_call leds) port = trace_after (set_leds port leds)
after_call (scan_code_set_call set) port = trace_after (set_scan_code_set port set)
after_call (typematic_call rate) port = trace_after (set_typematic port rate)
after_call (autorepeat_key_call key) port =
    trace_after (set_specific_key_to_typematic_autorepeat_only port key)
after_call (make_release_key_call key) port =
    trace_after (set_specific_key_to_make_release port key)
after_call (make_only_key_call key) port = trace_after (set_specific_key_to_make_only port key)
after_call echo_call port = trace_after (echo_keyboard port)
after_call get_scan_code_set_call port = trace_after (get_scan_code_set port)
after_call enable_call port = trace_after (enable_scanning port)
after_call disable_call port = trace_after (disable_scanning port)
after_call default_call port = trace_after (set_default_parameters port)
after_call make_release_call port = trace_after (set_all_keycode_to_make_release port)
after_call make_only_call port = trace_after (set_all_keycode_to_make_only port)
after_call autorepeat_call port =
    trace_after (set_all_keycode_to_typematic_autorepeat_make_release port)
after_call resend_call port = trace_after (resend_last_byte port)
after_call reset_call port = trace_after (reset_and_self_test port)

kept :
    (n : ℕ) {A : Type 0} (m : Command A)
    → Keeps (IsPolite n) m
    → (device : Hardware) (t : Trace) → IsPolite n t
    → IsPolite n (m device t).1
kept n m h device t p = left_behind (IsPolite n) (m device t) (h.at device t p)

-- Whatever the hardware answers, each of the commands to a keyboard, on either port or on none, keeps
-- to the protocol on every path, errors included: where there was no unguarded write and at most `n`
-- unguarded reads before, it is so afterwards.
pub keyboard_call-IsPolite :
    (c : KeyboardCall) (port n : ℕ) (device : Hardware) (t : Trace)
    → IsPolite n t
    → IsPolite n (after_call c port device t)
keyboard_call-IsPolite (leds_call leds) port n =
    kept n (set_leds port leds) (set_leds-IsPolite n port leds)
keyboard_call-IsPolite (scan_code_set_call set) port n =
    kept n (set_scan_code_set port set) (set_scan_code_set-IsPolite n port set)
keyboard_call-IsPolite (typematic_call rate) port n =
    kept n (set_typematic port rate) (set_typematic-IsPolite n port rate)
keyboard_call-IsPolite (autorepeat_key_call key) port n =
    kept n (set_specific_key_to_typematic_autorepeat_only port key)
      (set_specific_key_to_typematic_autorepeat_only-IsPolite n port key)
keyboard_call-IsPolite (make_release_key_call key) port n =
    kept n (set_specific_key_to_make_release port key)
      (set_specific_key_to_make_release-IsPolite n port key)
keyboard_call-IsPolite (make_only_key_call key) port n =
    kept n (set_specific_key_to_make_only port key)
      (set_specific_key_to_make_only-IsPolite n port key)
keyboard_call-IsPolite echo_call port n =
    kept n (echo_keyboard port) (echo_keyboard-IsPolite n port)
keyboard_call-IsPolite get_scan_code_set_call port n =
    kept n (get_scan_code_set port) (get_scan_code_set-IsPolite n port)
keyboard_call-IsPolite enable_call port n =
    kept n (enable_scanning port) (enable_scanning-IsPolite n port)
keyboard_call-IsPolite disable_call port n =
    kept n (disable_scanning port) (disable_scanning-IsPolite n port)
keyboard_call-IsPolite default_call port n =
    kept n (set_default_parameters port) (set_default_parameters-IsPolite n port)
keyboard_call-IsPolite make_release_call port n =
    kept n (set_all_keycode_to_make_release port) (set_all_keycode_to_make_release-IsPolite n port)
keyboard_call-IsPolite make_only_call port n =
    kept n (set_all_keycode_to_make_only port) (set_all_keycode_to_make_only-IsPolite n port)
keyboard_call-IsPolite autorepeat_call port n =
    kept n (set_all_keycode_to_typematic_autorepeat_make_release port)
      (set_all_keycode_to_typematic_autorepeat_make_release-IsPolite n port)
keyboard_call-IsPolite resend_call port n =
    kept n (resend_last_byte port) (resend_last_byte-IsPolite n port)
keyboard_call-IsPolite reset_call port n =
    kept n (reset_and_self_test port) (reset_and_self_test-IsPolite n port)
