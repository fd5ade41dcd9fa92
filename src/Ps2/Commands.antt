-- ===== src/Ps2/Commands.antt =====
-- drivers/ps2/keyboard/ps2_keyboard.c: the commands to a keyboard. `port` is `kps.active_port`.
pub mod Polite
pub mod Calls
use maple_kernel.Base.{
  ℕ, zero, suc, ◌+◌, ◌-◌, ◌*◌, ◌%◌, ◌^◌, Bool, true, false, not, ◌&&◌, ◌||◌, ltb, leb, ◌==◌,
  if◌then◌else◌,
}
use maple_kernel.Ps2.{Io, Result, ok, err, ⊤, pure, raise, ◌>>=◌, ◌>>◌, map_err, attempt}
use maple_kernel.Ps2.Registers.{ErrorCode, bit_value}
use maple_kernel.Ps2.Controller.{
  send_command_or_data_to_ps2_port, wait_till_ready_for_response, ps2_recieve_raw_response,
}

-- `enum ps2_keyboard_error_code`, without the value for no error.
pub data KeyboardError : Type 0 where
  invalid_command could_not_send_command could_not_recieve_response resend_too_much : KeyboardError
  non_ack_response response_was_not_echo invalid_scancode self_test_failed : KeyboardError

-- `ps2_keyboard_verified_response` with an error: the code and the response. `aborted` is an
-- assertion that fails, or `abort_msg`.
pub data Failure : Type 0 where
  failed : KeyboardError → ℕ → Failure
  aborted : Failure

abbrev pub Command : Type 0 → Type 0
Command A = Io Failure A

-- `ret.response = -1`.
abbrev pub no_response : ℕ
no_response = 2 ^ 32 - 1

abbrev pub krb_self_test_passed : ℕ
krb_self_test_passed = 0xaa

abbrev pub krb_echo_response : ℕ
krb_echo_response = 0xee

abbrev pub krb_command_acknowledged : ℕ
krb_command_acknowledged = 0xfa

abbrev pub krb_resend : ℕ
krb_resend = 0xfe

pub validate_keyboard_command : ℕ → Bool
validate_keyboard_command cmd =
    (leb 0xed cmd && leb cmd 0xee) || (cmd == 0xf0 || (leb 0xf2 cmd && leb cmd 0xff))

-- The loop of `send_data_to_ps2_keyboard`, with `left` attempts to go.
pub send_data_up_to : ℕ → ℕ → ℕ → Command ℕ
send_data_up_to zero port byte = raise (failed resend_too_much no_response)
send_data_up_to (suc left) port byte =
    let again = send_data_up_to left port byte in
    do
      map_err (λ _. failed could_not_send_command no_response)
          (send_command_or_data_to_ps2_port port byte)
      map_err (λ _. failed could_not_recieve_response no_response) wait_till_ready_for_response
      response ←
          map_err (λ _. failed could_not_recieve_response no_response) ps2_recieve_raw_response
      if response == krb_resend
          then again
          else if response == krb_command_acknowledged
          then pure response
          else raise (failed non_ack_response response)

pub send_data_to_ps2_keyboard : ℕ → ℕ → Command ℕ
send_data_to_ps2_keyboard port byte = send_data_up_to 3 port byte

pub send_command_to_ps2_keyboard : ℕ → ℕ → Command ℕ
send_command_to_ps2_keyboard port command =
    if not (validate_keyboard_command command)
    then raise (failed invalid_command 0)
    else send_data_to_ps2_keyboard port command

-- A failure whose response is `-1`, and what came with it is not kept.
pub drop_response : Failure → Failure
drop_response (failed e response) = failed e no_response
drop_response aborted = aborted

-- A response that comes after the acknowledgement.
pub receive_value : Command ℕ
receive_value = do
  map_err (λ _. failed could_not_recieve_response no_response) wait_till_ready_for_response
  map_err (λ _. failed could_not_recieve_response no_response) ps2_recieve_raw_response

pub send_getter_subcommand_to_ps2_keyboard : ℕ → ℕ → Command ℕ
send_getter_subcommand_to_ps2_keyboard port subcommand = do
  _ ← map_err drop_response (send_data_to_ps2_keyboard port subcommand)
  receive_value

-- A command, and its data.
abbrev pub plain_command : ℕ → ℕ → Command ⊤
plain_command port command = send_command_to_ps2_keyboard port command >>= λ _. pure tt

abbrev pub setter_command : ℕ → ℕ → ℕ → Command ⊤
setter_command port command subcommand = do
  _ ← send_command_to_ps2_keyboard port command
  _ ← send_data_to_ps2_keyboard port subcommand
  pure tt

-- The bits of `kcb_led_state_t`.
pub record LedState : Type 0 where
  pub scroll_lock : Bool
  pub number_lock : Bool
  pub caps_lock : Bool
  pub reserved : ℕ

pub set_leds : ℕ → LedState → Command ⊤
set_leds port leds = setter_command port 0xed (
    bit_value leds.scroll_lock
    + bit_value leds.number_lock * 2
    + bit_value leds.caps_lock * 4
    + leds.reserved % 2 ^ 5 * 8)

-- An acknowledgement counts as an echo here.
pub after_echo : Result Failure ℕ → Command ⊤
after_echo (ok response) = pure tt
after_echo (err (failed non_ack_response response)) =
    if not (response == krb_echo_response)
    then raise (failed response_was_not_echo response)
    else pure tt
after_echo (err e) = raise e

pub echo_keyboard : ℕ → Command ⊤
echo_keyboard port = attempt (send_command_to_ps2_keyboard port 0xee) >>= after_echo

-- The scan code set that is active afterwards.
pub set_scan_code_set : ℕ → ℕ → Command ℕ
set_scan_code_set port scan_code_set =
    if scan_code_set == 0 || ltb 3 scan_code_set
    then raise aborted
    else setter_command port 0xf0 scan_code_set >> pure scan_code_set

pub get_scan_code_set : ℕ → Command ℕ
get_scan_code_set port = do
  _ ← map_err drop_response (send_command_to_ps2_keyboard port 0xf0)
  scan_code_set ← send_getter_subcommand_to_ps2_keyboard port 0
  if scan_code_set == 0 || ltb 3 scan_code_set
      then raise (failed invalid_scancode no_response)
      else pure scan_code_set

pub set_typematic : ℕ → ℕ → Command ⊤
set_typematic port rate_and_delay = setter_command port 0xf3 rate_and_delay

pub enable_scanning : ℕ → Command ⊤
enable_scanning port = plain_command port 0xf4

-- The source sends the command that enables.
pub disable_scanning : ℕ → Command ⊤
disable_scanning port = plain_command port 0xf4

pub set_default_parameters : ℕ → Command ⊤
set_default_parameters port = plain_command port 0xf6

pub set_all_keycode_to_make_release : ℕ → Command ⊤
set_all_keycode_to_make_release port = plain_command port 0xf8

-- The assertion that the scan code set is 3, with the response of a failure too.
pub assert_third_set : Result Failure ℕ → Command ⊤
assert_third_set (ok response) = if response == 3 then pure tt else raise aborted
assert_third_set (err e) = raise aborted

pub set_all_keycode_to_make_only : ℕ → Command ⊤
set_all_keycode_to_make_only port = do
  got ← attempt (get_scan_code_set port)
  assert_third_set got
  plain_command port 0xf9

pub set_all_keycode_to_typematic_autorepeat_make_release : ℕ → Command ⊤
set_all_keycode_to_typematic_autorepeat_make_release port = plain_command port 0xfa

pub set_specific_key_to_typematic_autorepeat_only : ℕ → ℕ → Command ⊤
set_specific_key_to_typematic_autorepeat_only port key_scancode =
    setter_command port 0xfb key_scancode

pub set_specific_key_to_make_release : ℕ → ℕ → Command ⊤
set_specific_key_to_make_release port key_scancode = setter_command port 0xfc key_scancode

pub set_specific_key_to_make_only : ℕ → ℕ → Command ⊤
set_specific_key_to_make_only port key_scancode = setter_command port 0xfd key_scancode

pub resend_last_byte : ℕ → Command ℕ
resend_last_byte port = map_err drop_response (send_command_to_ps2_keyboard port 0xfe)

pub reset_and_self_test : ℕ → Command ℕ
reset_and_self_test port = do
  _ ← map_err drop_response (send_command_to_ps2_keyboard port 0xff)
  response ← receive_value
  if not (response == krb_self_test_passed)
      then raise (failed self_test_failed response)
      else pure response
