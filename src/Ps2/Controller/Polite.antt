-- ===== src/Ps2/Controller/Polite.antt =====
-- The commands of ps2_controller.c, and the protocol of `Ps2.Polite`.
use maple_kernel.Base.{ℕ}
use maple_kernel.Ps2.Rules.{
  Ensures, Keeps, keeps_rules, Ensures-pure, Ensures-raise, Ensures-if, Ensures-bind,
  Ensures-map_err, Ensures-attempt, Ensures-weaken,
}
use maple_kernel.Ps2.Registers.{ConfigurationByte}
use maple_kernel.Ps2.Polite.{IsPolite}
use maple_kernel.Ps2.Controller.Waits.{write_when_ready, write_when_ready_then, read_when_ready}
use maple_kernel.Ps2.Controller.{
  send_command_to_ps2_controller, send_command_none_response,
  send_command_configuration_byte_response, send_command_test_port_response,
  send_command_test_controller_response, send_command_test_controller_output_port_response,
  send_command_unknown_response, ps2_get_configuration_byte, write_next_to_byte_0_of_interal_ram,
  ps2_set_configuration_byte, ps2_disable_first_ps2_port, ps2_disable_second_ps2_port,
  ps2_enable_first_ps2_port, ps2_enable_second_ps2_port, ps2_test_first_ps2_port,
  ps2_test_second_ps2_port, ps2_perform_controller_self_test, ps2_copy_input_port_to_status,
  ps2_read_controller_input_port, ps2_read_controller_output_port, send_command_to_first_ps2_port,
  send_command_to_second_ps2_port, send_command_or_data_to_ps2_port,
}

module _ (n : ℕ) where
  pub send_command_to_ps2_controller-IsPolite :
      (c : ℕ) → Keeps (IsPolite n) (send_command_to_ps2_controller c)
  unfolding send_command_to_ps2_controller
  send_command_to_ps2_controller-IsPolite c = write_when_ready n _ _

  pub send_command_none_response-IsPolite :
      (c : ℕ) → Keeps (IsPolite n) (send_command_none_response c)
  unfolding send_command_none_response
  send_command_none_response-IsPolite c = send_command_to_ps2_controller-IsPolite c

  pub ruleset driver_rules = (
    keeps_rules, write_when_ready, write_when_ready_then, read_when_ready,
    send_command_to_ps2_controller-IsPolite, send_command_none_response-IsPolite,
  )

  pub send_command_configuration_byte_response-IsPolite :
      (c : ℕ) → Keeps (IsPolite n) (send_command_configuration_byte_response c)
  unfolding send_command_configuration_byte_response
  send_command_configuration_byte_response-IsPolite c = search driver_rules

  pub send_command_test_port_response-IsPolite :
      (c : ℕ) → Keeps (IsPolite n) (send_command_test_port_response c)
  unfolding send_command_test_port_response
  send_command_test_port_response-IsPolite c = search driver_rules

  pub send_command_test_controller_response-IsPolite :
      (c : ℕ) → Keeps (IsPolite n) (send_command_test_controller_response c)
  unfolding send_command_test_controller_response
  send_command_test_controller_response-IsPolite c = search driver_rules

  pub send_command_test_controller_output_port_response-IsPolite :
      (c : ℕ) → Keeps (IsPolite n) (send_command_test_controller_output_port_response c)
  unfolding send_command_test_controller_output_port_response
  send_command_test_controller_output_port_response-IsPolite c = search driver_rules

  pub send_command_unknown_response-IsPolite :
      (c : ℕ) → Keeps (IsPolite n) (send_command_unknown_response c)
  unfolding send_command_unknown_response
  send_command_unknown_response-IsPolite c = search driver_rules

  pub ps2_get_configuration_byte-IsPolite : Keeps (IsPolite n) ps2_get_configuration_byte
  unfolding ps2_get_configuration_byte
  ps2_get_configuration_byte-IsPolite =
      search (driver_rules, send_command_configuration_byte_response-IsPolite)

  pub write_next_to_byte_0_of_interal_ram-IsPolite :
      Keeps (IsPolite n) write_next_to_byte_0_of_interal_ram
  unfolding write_next_to_byte_0_of_interal_ram
  write_next_to_byte_0_of_interal_ram-IsPolite = search (driver_rules)

  pub ps2_set_configuration_byte-IsPolite :
      (c : ConfigurationByte) → Keeps (IsPolite n) (ps2_set_configuration_byte c)
  unfolding ps2_set_configuration_byte
  ps2_set_configuration_byte-IsPolite c =
      search (driver_rules, write_next_to_byte_0_of_interal_ram-IsPolite)

  pub ps2_disable_first_ps2_port-IsPolite : Keeps (IsPolite n) ps2_disable_first_ps2_port
  unfolding ps2_disable_first_ps2_port
  ps2_disable_first_ps2_port-IsPolite = search (driver_rules)

  pub ps2_disable_second_ps2_port-IsPolite : Keeps (IsPolite n) ps2_disable_second_ps2_port
  unfolding ps2_disable_second_ps2_port
  ps2_disable_second_ps2_port-IsPolite = search (driver_rules)

  pub ps2_enable_first_ps2_port-IsPolite : Keeps (IsPolite n) ps2_enable_first_ps2_port
  unfolding ps2_enable_first_ps2_port
  ps2_enable_first_ps2_port-IsPolite = search (driver_rules)

  pub ps2_enable_second_ps2_port-IsPolite : Keeps (IsPolite n) ps2_enable_second_ps2_port
  unfolding ps2_enable_second_ps2_port
  ps2_enable_second_ps2_port-IsPolite = search (driver_rules)

  pub ps2_test_first_ps2_port-IsPolite : Keeps (IsPolite n) ps2_test_first_ps2_port
  unfolding ps2_test_first_ps2_port
  ps2_test_first_ps2_port-IsPolite = search (driver_rules, send_command_test_port_response-IsPolite)

  pub ps2_test_second_ps2_port-IsPolite : Keeps (IsPolite n) ps2_test_second_ps2_port
  unfolding ps2_test_second_ps2_port
  ps2_test_second_ps2_port-IsPolite =
      search (driver_rules, send_command_test_port_response-IsPolite)

  pub ps2_perform_controller_self_test-IsPolite :
      Keeps (IsPolite n) ps2_perform_controller_self_test
  unfolding ps2_perform_controller_self_test
  ps2_perform_controller_self_test-IsPolite =
      search (driver_rules, send_command_test_controller_response-IsPolite)

  pub ps2_copy_input_port_to_status-IsPolite : Keeps (IsPolite n) ps2_copy_input_port_to_status
  unfolding ps2_copy_input_port_to_status
  ps2_copy_input_port_to_status-IsPolite = search (driver_rules)

  pub ps2_read_controller_input_port-IsPolite : Keeps (IsPolite n) ps2_read_controller_input_port
  unfolding ps2_read_controller_input_port
  ps2_read_controller_input_port-IsPolite =
      search (driver_rules, send_command_unknown_response-IsPolite)

  pub ps2_read_controller_output_port-IsPolite : Keeps (IsPolite n) ps2_read_controller_output_port
  unfolding ps2_read_controller_output_port
  ps2_read_controller_output_port-IsPolite =
      search (driver_rules, send_command_test_controller_output_port_response-IsPolite)

  pub send_command_to_first_ps2_port-IsPolite :
      (v : ℕ) → Keeps (IsPolite n) (send_command_to_first_ps2_port v)
  unfolding send_command_to_first_ps2_port
  send_command_to_first_ps2_port-IsPolite v = search (driver_rules)

  pub send_command_to_second_ps2_port-IsPolite :
      (v : ℕ) → Keeps (IsPolite n) (send_command_to_second_ps2_port v)
  unfolding send_command_to_second_ps2_port
  send_command_to_second_ps2_port-IsPolite v = search (driver_rules)

  pub send_command_or_data_to_ps2_port-IsPolite :
      (port v : ℕ) → Keeps (IsPolite n) (send_command_or_data_to_ps2_port port v)
  unfolding send_command_or_data_to_ps2_port
  send_command_or_data_to_ps2_port-IsPolite port v = search (
    driver_rules, send_command_to_first_ps2_port-IsPolite, send_command_to_second_ps2_port-IsPolite,
  )
