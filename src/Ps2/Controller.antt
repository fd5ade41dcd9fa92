-- ===== src/Ps2/Controller.antt =====
-- ps2_controller.c: waiting for the controller, commands with and without a response, and the
-- steps that are one command or two.
pub mod Progress
pub mod Waits
pub mod Polite
pub mod Fake
use maple_kernel.Base.{
  ℕ, zero, suc, ◌+◌, Bool, true, false, not, ltb, ◌==◌, if◌then◌else◌, Option, none, some,
}
use maple_kernel.Ps2.{Io, ⊤, pure, raise, ◌>>=◌, ◌>>◌, inb, outb}
use maple_kernel.Ps2.CommandByte
use maple_kernel.Ps2.Registers.{
  ps2_data_port, ps2_status_port, ps2_command_port, ErrorCode, no_error, wait_max_itt_in,
  wait_max_itt_out, status_parity, status_timeout, invalid_port_number, invalid_test_port_response,
  invalid_test_controller_response, a20_line_not_set, input_buffer_full, output_buffer_full,
  verify_status_parity, verify_status_timeout, verify_configuration_byte_response,
  verify_test_port_response, verify_test_controller_response,
  verify_controller_output_port_response, ConfigurationByte, raw_of, Verified,
}

abbrev pub max_ps2_wait_loop : ℕ
max_ps2_wait_loop = 1000

abbrev pub Action : Type 0 → Type 0
Action A = Io ErrorCode A

unfoldable pub io_wait : Action ⊤
io_wait = outb 0x80 0

unfoldable pub read_ps2_status : Action ℕ
read_ps2_status = inb ps2_status_port

unfoldable pub ps2_recieve_raw_response : Action ℕ
ps2_recieve_raw_response = inb ps2_data_port

-- The loops of the two waits, with `left` rounds to go.
unfoldable pub poll_for_more_input : ℕ → Action ⊤
poll_for_more_input zero = raise wait_max_itt_in
poll_for_more_input (suc left) =
    let again = poll_for_more_input left in
    do
      io_wait
      status ← read_ps2_status
      if not (input_buffer_full status)
          then (if not (verify_status_parity status)
              then raise status_parity
              else if not (verify_status_timeout status)
              then raise status_timeout
              else pure tt)
          else again

unfoldable pub wait_till_ready_for_more_input : Action ⊤
wait_till_ready_for_more_input = poll_for_more_input max_ps2_wait_loop

unfoldable pub poll_for_response : ℕ → Action ⊤
poll_for_response zero = raise wait_max_itt_out
poll_for_response (suc left) =
    let again = poll_for_response left in
    do io_wait; status ← read_ps2_status; if output_buffer_full status then pure tt else again

unfoldable pub wait_till_ready_for_response : Action ⊤
wait_till_ready_for_response = poll_for_response max_ps2_wait_loop

unfoldable pub send_command_to_ps2_controller : ℕ → Action ⊤
send_command_to_ps2_controller command = do
  wait_till_ready_for_more_input
  outb ps2_command_port command

unfoldable pub send_command_none_response : ℕ → Action ⊤
send_command_none_response command = send_command_to_ps2_controller command

-- The `err` of the result is not set when all goes well.
unfoldable pub send_command_unknown_response : ℕ → Action (ℕ × Option ErrorCode)
send_command_unknown_response command = do
  send_command_to_ps2_controller command
  wait_till_ready_for_response
  raw_response ← ps2_recieve_raw_response
  pure (raw_response, none)

unfoldable pub send_command_configuration_byte_response : ℕ → Action Verified
send_command_configuration_byte_response command = do
  send_command_to_ps2_controller command
  wait_till_ready_for_response
  raw_response ← ps2_recieve_raw_response
  pure (record { response = raw_response; err = verify_configuration_byte_response raw_response })

unfoldable pub send_command_test_port_response : ℕ → Action Verified
send_command_test_port_response command = do
  send_command_to_ps2_controller command
  wait_till_ready_for_response
  raw_response ← ps2_recieve_raw_response
  pure (record {
    response = raw_response;
    err =
        if not (verify_test_port_response raw_response)
        then invalid_test_port_response
        else no_error;
  })

unfoldable pub send_command_test_controller_response : ℕ → Action Verified
send_command_test_controller_response command = do
  send_command_to_ps2_controller command
  wait_till_ready_for_response
  raw_response ← ps2_recieve_raw_response
  pure (record {
    response = raw_response;
    err =
        if not (verify_test_controller_response raw_response)
        then invalid_test_controller_response
        else no_error;
  })

unfoldable pub send_command_test_controller_output_port_response : ℕ → Action Verified
send_command_test_controller_output_port_response command = do
  send_command_to_ps2_controller command
  wait_till_ready_for_response
  raw_response ← ps2_recieve_raw_response
  pure (record {
    response = raw_response;
    err =
        if not (verify_controller_output_port_response raw_response)
        then a20_line_not_set
        else no_error;
  })

unfoldable pub ps2_get_configuration_byte : Action Verified
ps2_get_configuration_byte = send_command_configuration_byte_response CommandByte.read_byte_0

unfoldable pub write_next_to_byte_0_of_interal_ram : Action ⊤
write_next_to_byte_0_of_interal_ram = send_command_none_response CommandByte.write_next_to_byte_0

unfoldable pub ps2_set_configuration_byte : ConfigurationByte → Action ⊤
ps2_set_configuration_byte config_byte = do
  write_next_to_byte_0_of_interal_ram
  wait_till_ready_for_more_input
  outb ps2_data_port (raw_of config_byte)

unfoldable pub ps2_disable_first_ps2_port : Action ⊤
ps2_disable_first_ps2_port = send_command_to_ps2_controller CommandByte.disable_first_ps2_port

unfoldable pub ps2_disable_second_ps2_port : Action ⊤
ps2_disable_second_ps2_port = send_command_to_ps2_controller CommandByte.disable_second_ps2_port

unfoldable pub ps2_enable_first_ps2_port : Action ⊤
ps2_enable_first_ps2_port = send_command_to_ps2_controller CommandByte.enable_first_ps2_port

unfoldable pub ps2_enable_second_ps2_port : Action ⊤
ps2_enable_second_ps2_port = send_command_to_ps2_controller CommandByte.enable_second_ps2_port

unfoldable pub ps2_test_first_ps2_port : Action Verified
ps2_test_first_ps2_port = send_command_test_port_response CommandByte.test_first_ps2_port

unfoldable pub ps2_test_second_ps2_port : Action Verified
ps2_test_second_ps2_port = send_command_test_port_response CommandByte.test_second_ps2_port

unfoldable pub ps2_perform_controller_self_test : Action Verified
ps2_perform_controller_self_test =
    send_command_test_controller_response CommandByte.test_ps2_controller

pub ps2_copy_input_port_to_status : Action ⊤
ps2_copy_input_port_to_status = do
  send_command_none_response CommandByte.copy_high_input_to_status
  send_command_none_response CommandByte.copy_low_input_to_status

pub ps2_read_controller_input_port : Action (ℕ × Option ErrorCode)
ps2_read_controller_input_port =
    send_command_unknown_response CommandByte.read_controller_input_port

pub ps2_read_controller_output_port : Action Verified
ps2_read_controller_output_port =
    send_command_test_controller_output_port_response CommandByte.read_controller_output_port

pub ps2_write_next_byte_to_controller_output_port : Action ⊤
ps2_write_next_byte_to_controller_output_port =
    send_command_none_response CommandByte.write_next_byte_to_controller_output_port

-- The argument is the byte of the output port's bits. The source waits for the other buffer here.
pub ps2_set_controller_output_port : ℕ → Action ⊤
ps2_set_controller_output_port output_port = do
  ps2_write_next_byte_to_controller_output_port
  wait_till_ready_for_response
  outb ps2_data_port output_port

pub fake_ps2_keyboard_byte : ℕ → Action ⊤
fake_ps2_keyboard_byte byte = do
  send_command_none_response CommandByte.write_next_byte_to_first_ps2_output_buffer
  outb ps2_data_port byte

pub fake_ps2_mouse_byte : ℕ → Action ⊤
fake_ps2_mouse_byte byte = do
  send_command_none_response CommandByte.write_next_byte_to_second_ps2_output_buffer
  outb ps2_data_port byte

unfoldable pub send_command_to_first_ps2_port : ℕ → Action ⊤
send_command_to_first_ps2_port byte = do wait_till_ready_for_more_input; outb ps2_data_port byte

unfoldable pub send_command_to_second_ps2_port : ℕ → Action ⊤
send_command_to_second_ps2_port byte = do
  wait_till_ready_for_more_input
  outb ps2_command_port CommandByte.write_next_byte_to_second_ps2_input_buffer
  wait_till_ready_for_more_input
  outb ps2_data_port byte

unfoldable pub send_command_or_data_to_ps2_port : ℕ → ℕ → Action ⊤
send_command_or_data_to_ps2_port port_number byte =
    if port_number == 1
    then send_command_to_first_ps2_port byte
    else if port_number == 2
    then send_command_to_second_ps2_port byte
    else raise invalid_port_number
