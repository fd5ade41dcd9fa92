-- ===== src/Ps2/Commands/Polite.antt =====
-- The commands of ps2_keyboard.c, and the protocol of `Ps2.Polite`.
use maple_kernel.Base.{ℕ, zero, suc, ◌==◌, if◌then◌else◌}
use maple_kernel.Ps2.{raise, pure, Result, ok, err, ◌>>=◌, ◌>>◌, map_err, attempt}
use maple_kernel.Ps2.Rules.{
  Keeps-raise, Keeps-pure, Keeps, keeps_rules, Ensures-bind, Ensures-if, Ensures-map_err,
  Ensures-attempt,
}
use maple_kernel.Ps2.Registers.{ErrorCode}
use maple_kernel.Ps2.Polite.{IsPolite}
use maple_kernel.Ps2.Controller.{wait_till_ready_for_response, ps2_recieve_raw_response}
use maple_kernel.Ps2.Controller.Waits.{
  wait_till_ready_for_response-Offers, ps2_recieve_raw_response-Offers,
}
use maple_kernel.Ps2.Controller.Polite.{send_command_or_data_to_ps2_port-IsPolite}
use maple_kernel.Ps2.Commands.{
  krb_resend, krb_command_acknowledged, Command, Failure, failed, aborted, invalid_command,
  could_not_send_command, could_not_recieve_response, resend_too_much, non_ack_response,
  response_was_not_echo, invalid_scancode, self_test_failed, LedState, send_data_up_to,
  send_data_to_ps2_keyboard, send_command_to_ps2_keyboard, receive_value,
  send_getter_subcommand_to_ps2_keyboard, after_echo, assert_third_set, set_leds, echo_keyboard,
  set_scan_code_set, get_scan_code_set, set_typematic, enable_scanning, disable_scanning,
  set_default_parameters, set_all_keycode_to_make_release, set_all_keycode_to_make_only,
  set_all_keycode_to_typematic_autorepeat_make_release,
  set_specific_key_to_typematic_autorepeat_only, set_specific_key_to_make_release,
  set_specific_key_to_make_only, resend_last_byte, reset_and_self_test,
}

module _ (n : ℕ) where
  answer_when_ready :
      {A : Type 0} (f : ErrorCode → Failure) (k : ℕ → Command A)
      → ((a : ℕ) → Keeps (IsPolite n) (k a))
      → Keeps
          (IsPolite n)
          (map_err f wait_till_ready_for_response >> (map_err f ps2_recieve_raw_response >>= k))
  answer_when_ready f k h =
      Ensures-bind _ _ (Ensures-map_err f _ (wait_till_ready_for_response-Offers n))
        λ _. Ensures-bind _ _ (Ensures-map_err f _ (ps2_recieve_raw_response-Offers n)) h

  pub judged-IsPolite :
      (response : ℕ) (again : Command ℕ)
      → Keeps (IsPolite n) again
      → Keeps (IsPolite n) (
          if response == krb_resend
          then again
          else if response == krb_command_acknowledged
          then pure response
          else raise (failed non_ack_response response))
  judged-IsPolite response again h =
      let judged : Command ℕ =
        if response == krb_command_acknowledged
        then pure response
        else raise (failed non_ack_response response) in
      Ensures-if (response == krb_resend) again judged h (
        Ensures-if (response == krb_command_acknowledged) (pure response)
          (raise (failed non_ack_response response)) (Keeps-pure (IsPolite n) response)
          (Keeps-raise (IsPolite n) (failed non_ack_response response)))

  pub send_data_up_to-IsPolite :
      (left port byte : ℕ) → Keeps (IsPolite n) (send_data_up_to left port byte)
  unfolding send_data_up_to
  send_data_up_to-IsPolite zero port byte = search keeps_rules
  send_data_up_to-IsPolite (suc left) port byte =
      let again = send_data_up_to-IsPolite left port byte in
      Ensures-bind _ _ (Ensures-map_err _ _ (send_command_or_data_to_ps2_port-IsPolite n port byte))
        λ _.
          answer_when_ready _ _
            λ response. judged-IsPolite response (send_data_up_to left port byte) again

  pub receive_value-IsPolite : Keeps (IsPolite n) receive_value
  unfolding receive_value
  receive_value-IsPolite =
      Ensures-bind _ _ (Ensures-map_err _ _ (wait_till_ready_for_response-Offers n))
        λ _. Ensures-map_err _ _ (ps2_recieve_raw_response-Offers n)

  pub send_data_to_ps2_keyboard-IsPolite :
      (port byte : ℕ) → Keeps (IsPolite n) (send_data_to_ps2_keyboard port byte)
  unfolding send_data_to_ps2_keyboard
  send_data_to_ps2_keyboard-IsPolite port byte = send_data_up_to-IsPolite 3 port byte

  pub send_command_to_ps2_keyboard-IsPolite :
      (port byte : ℕ) → Keeps (IsPolite n) (send_command_to_ps2_keyboard port byte)
  unfolding send_command_to_ps2_keyboard
  send_command_to_ps2_keyboard-IsPolite port byte =
      search (keeps_rules, send_data_to_ps2_keyboard-IsPolite)

  pub send_getter_subcommand_to_ps2_keyboard-IsPolite :
      (port byte : ℕ) → Keeps (IsPolite n) (send_getter_subcommand_to_ps2_keyboard port byte)
  unfolding send_getter_subcommand_to_ps2_keyboard
  send_getter_subcommand_to_ps2_keyboard-IsPolite port byte =
      search (keeps_rules, send_data_to_ps2_keyboard-IsPolite, receive_value-IsPolite)

  Keeps-attempt :
      {A : Type 0} (m : Command A)
      → Keeps (IsPolite n) m
      → Keeps (IsPolite n) (attempt {F = Failure} m)
  Keeps-attempt m h = Ensures-attempt (λ _. IsPolite n) m h

  pub after_echo-IsPolite : (r : Result Failure ℕ) → Keeps (IsPolite n) (after_echo r)
  unfolding after_echo
  after_echo-IsPolite (ok r) = search keeps_rules
  after_echo-IsPolite (err aborted) = search keeps_rules
  after_echo-IsPolite (err (failed invalid_command r)) = search keeps_rules
  after_echo-IsPolite (err (failed could_not_send_command r)) = search keeps_rules
  after_echo-IsPolite (err (failed could_not_recieve_response r)) = search keeps_rules
  after_echo-IsPolite (err (failed resend_too_much r)) = search keeps_rules
  after_echo-IsPolite (err (failed non_ack_response r)) = search keeps_rules
  after_echo-IsPolite (err (failed response_was_not_echo r)) = search keeps_rules
  after_echo-IsPolite (err (failed invalid_scancode r)) = search keeps_rules
  after_echo-IsPolite (err (failed self_test_failed r)) = search keeps_rules

  pub assert_third_set-IsPolite : (r : Result Failure ℕ) → Keeps (IsPolite n) (assert_third_set r)
  unfolding assert_third_set
  assert_third_set-IsPolite (ok response) = search keeps_rules
  assert_third_set-IsPolite (err e) = search keeps_rules

  ruleset command_rules = (
    keeps_rules, Keeps-attempt, after_echo-IsPolite, assert_third_set-IsPolite,
    send_data_to_ps2_keyboard-IsPolite, send_command_to_ps2_keyboard-IsPolite,
    send_getter_subcommand_to_ps2_keyboard-IsPolite, receive_value-IsPolite,
  )

  pub set_leds-IsPolite : (port : ℕ) (leds : LedState) → Keeps (IsPolite n) (set_leds port leds)
  unfolding set_leds
  set_leds-IsPolite port leds = search command_rules depth 20

  pub echo_keyboard-IsPolite : (port : ℕ) → Keeps (IsPolite n) (echo_keyboard port)
  unfolding echo_keyboard
  echo_keyboard-IsPolite port = search command_rules depth 20

  pub set_scan_code_set-IsPolite :
      (port : ℕ) (set : ℕ) → Keeps (IsPolite n) (set_scan_code_set port set)
  unfolding set_scan_code_set
  set_scan_code_set-IsPolite port set = search command_rules depth 20

  pub get_scan_code_set-IsPolite : (port : ℕ) → Keeps (IsPolite n) (get_scan_code_set port)
  unfolding get_scan_code_set
  get_scan_code_set-IsPolite port = search command_rules depth 20

  pub set_typematic-IsPolite : (port : ℕ) (rate : ℕ) → Keeps (IsPolite n) (set_typematic port rate)
  unfolding set_typematic
  set_typematic-IsPolite port rate = search command_rules depth 20

  pub enable_scanning-IsPolite : (port : ℕ) → Keeps (IsPolite n) (enable_scanning port)
  unfolding enable_scanning
  enable_scanning-IsPolite port = search command_rules depth 20

  pub disable_scanning-IsPolite : (port : ℕ) → Keeps (IsPolite n) (disable_scanning port)
  unfolding disable_scanning
  disable_scanning-IsPolite port = search command_rules depth 20

  pub set_default_parameters-IsPolite :
      (port : ℕ) → Keeps (IsPolite n) (set_default_parameters port)
  unfolding set_default_parameters
  set_default_parameters-IsPolite port = search command_rules depth 20

  pub set_all_keycode_to_make_release-IsPolite :
      (port : ℕ) → Keeps (IsPolite n) (set_all_keycode_to_make_release port)
  unfolding set_all_keycode_to_make_release
  set_all_keycode_to_make_release-IsPolite port = search command_rules depth 20

  pub set_all_keycode_to_make_only-IsPolite :
      (port : ℕ) → Keeps (IsPolite n) (set_all_keycode_to_make_only port)
  unfolding set_all_keycode_to_make_only
  set_all_keycode_to_make_only-IsPolite port =
      search (command_rules, get_scan_code_set-IsPolite) depth 20

  pub set_all_keycode_to_typematic_autorepeat_make_release-IsPolite :
      (port : ℕ) → Keeps (IsPolite n) (set_all_keycode_to_typematic_autorepeat_make_release port)
  unfolding set_all_keycode_to_typematic_autorepeat_make_release
  set_all_keycode_to_typematic_autorepeat_make_release-IsPolite port = search command_rules depth 20

  pub set_specific_key_to_typematic_autorepeat_only-IsPolite :
      (port : ℕ) (key : ℕ)
      → Keeps (IsPolite n) (set_specific_key_to_typematic_autorepeat_only port key)
  unfolding set_specific_key_to_typematic_autorepeat_only
  set_specific_key_to_typematic_autorepeat_only-IsPolite port key = search command_rules depth 20

  pub set_specific_key_to_make_release-IsPolite :
      (port : ℕ) (key : ℕ) → Keeps (IsPolite n) (set_specific_key_to_make_release port key)
  unfolding set_specific_key_to_make_release
  set_specific_key_to_make_release-IsPolite port key = search command_rules depth 20

  pub set_specific_key_to_make_only-IsPolite :
      (port : ℕ) (key : ℕ) → Keeps (IsPolite n) (set_specific_key_to_make_only port key)
  unfolding set_specific_key_to_make_only
  set_specific_key_to_make_only-IsPolite port key = search command_rules depth 20

  pub resend_last_byte-IsPolite : (port : ℕ) → Keeps (IsPolite n) (resend_last_byte port)
  unfolding resend_last_byte
  resend_last_byte-IsPolite port = search command_rules depth 20

  pub reset_and_self_test-IsPolite : (port : ℕ) → Keeps (IsPolite n) (reset_and_self_test port)
  unfolding reset_and_self_test
  reset_and_self_test-IsPolite port = search command_rules depth 20
