-- ===== src/Ps2/Tests.antt =====
-- Runs of the driver on devices that answer by a script.
use maple_kernel.Base.{
  ℕ, zero, suc, ◌+◌, ◌<◌, ◌≡◌, refl, true, false, List, [], ◌∷◌, ◌==◌, if◌then◌else◌, some, arith,
}
use maple_kernel.Ps2.{Hardware, Trace, read_port, write_port, ok}
use maple_kernel.Ps2.Registers.{
  input_buffer_full, output_buffer_full, parity_error, timeout_error, bits_of, raw_of, no_error,
  ps2_data_port, verify_status_parity, verify_status_timeout,
}
use maple_kernel.Ps2.Controller.{
  fake_ps2_keyboard_byte, fake_ps2_mouse_byte, io_wait, read_ps2_status, ps2_recieve_raw_response,
  poll_for_more_input, wait_till_ready_for_more_input, poll_for_response,
  wait_till_ready_for_response, send_command_to_ps2_controller, send_command_none_response,
  send_command_configuration_byte_response, send_command_test_port_response,
  send_command_test_controller_response, ps2_get_configuration_byte,
  write_next_to_byte_0_of_interal_ram, ps2_set_configuration_byte, ps2_disable_first_ps2_port,
  ps2_disable_second_ps2_port, ps2_enable_first_ps2_port, ps2_enable_second_ps2_port,
  ps2_test_first_ps2_port, ps2_test_second_ps2_port, ps2_perform_controller_self_test,
  send_command_to_first_ps2_port, send_command_to_second_ps2_port, send_command_or_data_to_ps2_port,
}
use maple_kernel.Ps2.Setup.{
  begin_setup, flush_output_buffer, configure_first_port, self_test,
  disable_second_in_configuration, find_second_port, test_ports, enable_ports, reset_devices,
  finish_setup,
}
use maple_kernel.Ps2.Device.{
  len3_device, len4_device, after_third, identify_device, reset_port_and_get_device_type,
}
use maple_kernel.Ps2.{pure, raise, ◌>>=◌, inb, outb, map_err, attempt}
use maple_kernel.Ps2.Registers.{
  verify_configuration_byte_response, verify_test_port_response, verify_test_controller_response,
}
use maple_kernel.Ps2.Commands.Calls.{leds_call, after_call, keyboard_call-IsPolite}
use maple_kernel.Ps2.Generic.{send_command_and_recieve_response, command_to_response_type}
use maple_kernel.Ps2.Generic.Specific.{specific, send_command_and_recieve_response-specific}
use maple_kernel.Ps2.Polite.{IsPolite, unguarded_writes}
use maple_kernel.Ps2.Device.{mf2_keyboard_1, standard_mouse}
use maple_kernel.Ps2.Controller.Fake.{fake_bytes-unguarded, one_if_ok}
use maple_kernel.Ps2.Controller.Progress.{
  rounds, status_in_round, verdict, wait_till_ready_for_more_input-free,
}
use maple_kernel.Ps2.Setup.{setup_ps2_controller, no_init_error}
use maple_kernel.Ps2.Setup.Polite.{setup_ps2_controller-IsPolite}
use maple_kernel.Ps2.Setup.Report.{end_fits, setup_ps2_controller-Reports}

data_reads : Trace → ℕ
data_reads [] = 0
data_reads (read_port p v ∷ t) = if p == ps2_data_port then 1 + data_reads t else data_reads t
data_reads (write_port p v ∷ t) = data_reads t

nth : List ℕ → ℕ → ℕ
nth [] n = 0
nth (x ∷ xs) zero = x
nth (x ∷ xs) (suc n) = nth xs n

-- The flush, the configuration, the self-test, the two configurations of step 7, the tests of the
-- ports, the configuration of step 9, and the answers of a keyboard and of a mouse to a reset.
answers : List ℕ
answers =
    0 ∷ 0x04 ∷ 0x55 ∷ 0x04 ∷ 0x04 ∷ 0 ∷ 0 ∷ 0x04 ∷ 0xfa ∷ 0xaa ∷ 0xab ∷ 0x83 ∷ 0xfa ∷ 0xaa ∷ 0x00
    ∷ []

-- A device that is always ready for both directions.
abbrev pub pc : Hardware
unfolding answers nth data_reads
pc t port = if port == ps2_data_port then nth answers (data_reads t) else 0x01

pc_setup :
    (setup_ps2_controller true pc []).0
    ≡ ok (record {
      internal_err = some no_error;
      ps2_state_err = no_init_error;
      port_one_device_type = some mf2_keyboard_1;
      port_two_device_type = some standard_mouse;
    })
unfolding pure raise ◌>>=◌ inb outb map_err attempt io_wait read_ps2_status ps2_recieve_raw_response
    poll_for_more_input wait_till_ready_for_more_input poll_for_response
    wait_till_ready_for_response send_command_to_ps2_controller send_command_none_response
    send_command_configuration_byte_response send_command_test_port_response
    send_command_test_controller_response ps2_get_configuration_byte
    write_next_to_byte_0_of_interal_ram ps2_set_configuration_byte ps2_disable_first_ps2_port
    ps2_disable_second_ps2_port ps2_enable_first_ps2_port ps2_enable_second_ps2_port
    ps2_test_first_ps2_port ps2_test_second_ps2_port ps2_perform_controller_self_test
    send_command_to_first_ps2_port send_command_to_second_ps2_port send_command_or_data_to_ps2_port
    len3_device len4_device after_third identify_device reset_port_and_get_device_type begin_setup
    flush_output_buffer configure_first_port self_test disable_second_in_configuration
    find_second_port test_ports enable_ports reset_devices finish_setup setup_ps2_controller
    verify_configuration_byte_response verify_test_port_response verify_test_controller_response
    raw_of bits_of verify_status_parity verify_status_timeout pc
pc_setup = refl

setup_ps2_controller-IsPolite_example : IsPolite 1 (setup_ps2_controller true pc []).1
setup_ps2_controller-IsPolite_example = setup_ps2_controller-IsPolite true pc [] (refl, omega arith)

setup_ps2_controller-Reports_example : end_fits (setup_ps2_controller true pc []).0 ≡ true
setup_ps2_controller-Reports_example = setup_ps2_controller-Reports true pc []

-- A device that is not ready in the first round of a wait, and ready from then on.
abbrev slow : ℕ → Hardware
slow at_first (write_port p v ∷ []) port = at_first
slow at_first t port = 0x01

slow_input : (j : ℕ) → j < 1 → input_buffer_full (status_in_round (slow 0x02) j []) ≡ true
slow_input zero h = refl
slow_input (suc j) h = absurd (omega (arith, h))

slow_output : (j : ℕ) → j < 1 → output_buffer_full (status_in_round (slow 0x00) j []) ≡ false
slow_output zero h = refl
slow_output (suc j) h = absurd (omega (arith, h))

wait_till_ready_for_more_input-free_example : wait_till_ready_for_more_input (slow 0x02) [] ≡ (
  verdict
      (parity_error (status_in_round (slow 0x02) 1 []))
      (timeout_error (status_in_round (slow 0x02) 1 [])),
  rounds (slow 0x02) 2 [],
)
wait_till_ready_for_more_input-free_example =
    wait_till_ready_for_more_input-free (slow 0x02) 1 [] (omega arith) slow_input refl

fake_bytes-unguarded_example :
    (unguarded_writes (fake_ps2_keyboard_byte 0x1c pc []).1
      ≡ one_if_ok (fake_ps2_keyboard_byte 0x1c pc []).0)
    × (unguarded_writes (fake_ps2_mouse_byte 0x1c pc []).1
        ≡ one_if_ok (fake_ps2_mouse_byte 0x1c pc []).0)
fake_bytes-unguarded_example = fake_bytes-unguarded 0x1c pc [] (refl, omega arith)

keyboard_call-IsPolite_example : IsPolite 0 (
    after_call
      (leds_call
        (record { scroll_lock = false; number_lock = true; caps_lock = false; reserved = 0 }))
      1
      pc
      [])
keyboard_call-IsPolite_example =
    keyboard_call-IsPolite
      (leds_call
        (record { scroll_lock = false; number_lock = true; caps_lock = false; reserved = 0 }))
      1 0 pc [] (refl, omega arith)

send_command_and_recieve_response-specific_example :
    send_command_and_recieve_response 0xaa pc []
    ≡ specific (command_to_response_type 0xaa) 0xaa pc []
send_command_and_recieve_response-specific_example =
    send_command_and_recieve_response-specific 0xaa pc []
