-- ===== src/Ps2/Generic.antt =====
-- ps2_controller.c: the table of responses, and the way to send any command by it.
pub mod Specific
use maple_kernel.Base.{ℕ, Bool, true, false, not, ◌&&◌, ◌||◌, leb, ◌==◌, if◌then◌else◌}
use maple_kernel.Ps2.{Io, ⊤, pure, raise, ◌>>=◌, ◌>>◌, map_err}
use maple_kernel.Ps2.CommandByte
use maple_kernel.Ps2.Registers.{
  ErrorCode, no_error, invalid_test_port_response, invalid_test_controller_response,
  a20_line_not_set, verify_configuration_byte_response, verify_test_port_response,
  verify_test_controller_response, verify_controller_output_port_response, ResponseType,
  not_a_command, none_response, unknown, controller_configuration_byte, test_port, test_controller,
  controller_output_port,
}
use maple_kernel.Ps2.Controller.{
  send_command_to_ps2_controller, wait_till_ready_for_response, ps2_recieve_raw_response,
}

abbrev pub in_range : ℕ → ℕ → ℕ → Bool
in_range command first last = leb first command && leb command last

pub command_to_response_type : ℕ → ResponseType
command_to_response_type command =
    if command == CommandByte.read_byte_0
    then controller_configuration_byte
    else if in_range command CommandByte.read_byte_n_start CommandByte.read_byte_n_end
    then unknown
    else if in_range command CommandByte.write_next_to_byte_0 CommandByte.write_next_to_byte_n_end
    then none_response
    else if in_range command CommandByte.disable_second_ps2_port CommandByte.enable_second_ps2_port
    then none_response
    else if command == CommandByte.test_second_ps2_port
    then test_port
    else if command == CommandByte.test_ps2_controller
    then test_controller
    else if command == CommandByte.test_first_ps2_port
    then test_port
    else if command == CommandByte.diagnostic_dump
    then unknown
    else if in_range command CommandByte.disable_first_ps2_port CommandByte.enable_first_ps2_port
    then none_response
    else if command == CommandByte.read_controller_input_port
    then unknown
    else if in_range command CommandByte.copy_low_input_to_status
        CommandByte.copy_high_input_to_status
    then none_response
    else if command == CommandByte.read_controller_output_port
    then controller_output_port
    else if in_range command CommandByte.write_next_byte_to_controller_output_port
        CommandByte.write_next_byte_to_second_ps2_input_buffer
    then none_response
    else if in_range command CommandByte.pulse_output_line_low_start
        CommandByte.pulse_output_line_low_end
    then none_response
    else not_a_command

-- `___ps2_typeless_return`: the tag, the byte of the union, and the error.
pub record Tagged : Type 0 where
  pub type : ResponseType
  pub value : ℕ
  pub err : ErrorCode

-- An error that was returned before there was a response, or an assertion that failed.
pub data Stop : Type 0 where
  failed : ErrorCode → Stop
  assertion : Stop

-- The `switch` on the type, for a byte that was read.
pub judge : ResponseType → ℕ → Tagged
judge test_port raw = record {
  type = test_port;
  value = raw;
  err = if not (verify_test_port_response raw) then invalid_test_port_response else no_error;
}
judge test_controller raw = record {
  type = test_controller;
  value = raw;
  err =
      if not (verify_test_controller_response raw)
      then invalid_test_controller_response
      else no_error;
}
judge controller_configuration_byte raw = record {
  type = controller_configuration_byte;
  value = raw;
  err = verify_configuration_byte_response raw;
}
judge controller_output_port raw = record {
  type = controller_output_port;
  value = raw;
  err = if not (verify_controller_output_port_response raw) then a20_line_not_set else no_error;
}
judge response_type raw = record { type = response_type; value = raw; err = no_error }

pub recieve_generic_verified_response : ResponseType → Io Stop Tagged
recieve_generic_verified_response not_a_command = raise assertion
recieve_generic_verified_response none_response = raise assertion
recieve_generic_verified_response response_type = do
  raw_response ← map_err failed ps2_recieve_raw_response
  pure (judge response_type raw_response)

-- After the first assertion. A command without a response ends when it is sent.
pub send_and_recieve : ResponseType → ℕ → Io Stop Tagged
send_and_recieve not_a_command command = raise assertion
send_and_recieve none_response command = do
  map_err failed (send_command_to_ps2_controller command)
  pure (record { type = none_response; value = 0; err = no_error })
send_and_recieve response_type command = do
  map_err failed (send_command_to_ps2_controller command)
  map_err failed wait_till_ready_for_response
  recieve_generic_verified_response response_type

pub send_command_and_recieve_response : ℕ → Io Stop Tagged
send_command_and_recieve_response command =
    send_and_recieve (command_to_response_type command) command
