-- ===== src/Ps2/Setup/Polite.antt =====
-- `setup_ps2_controller` and the protocol of `Ps2.Polite`, step by step.
use maple_kernel.Base.{ℕ, suc, ◌≤◌, arith, Bool, true, false, if◌then◌else◌}
use maple_kernel.Ps2.{Hardware, Trace, inb}
use maple_kernel.Ps2.Rules.{Ensures, Keeps, keeps_rules, Ensures-bind, Ensures-weaken, left_behind}
use maple_kernel.Ps2.Polite.{IsPolite, output_ready, unguarded_reads}
use maple_kernel.Ps2.Controller.Polite.{
  ps2_get_configuration_byte-IsPolite, ps2_set_configuration_byte-IsPolite,
  ps2_disable_first_ps2_port-IsPolite, ps2_disable_second_ps2_port-IsPolite,
  ps2_enable_first_ps2_port-IsPolite, ps2_enable_second_ps2_port-IsPolite,
  ps2_test_first_ps2_port-IsPolite, ps2_test_second_ps2_port-IsPolite,
  ps2_perform_controller_self_test-IsPolite,
}
use maple_kernel.Ps2.Device.{DeviceSuperType, unknown, keyboard, mouse}
use maple_kernel.Ps2.Device.Polite.{reset_port_and_get_device_type-IsPolite}
use maple_kernel.Ps2.Setup.{
  abort_if_unknown, begin_setup, flush_output_buffer, configure_first_port, self_test,
  disable_second_in_configuration, find_second_port, test_ports, enable_ports, reset_devices,
  finish_setup, setup_ps2_controller,
}

module _ (n : ℕ) where
  abort_if_unknown-IsPolite : (k : DeviceSuperType) → Keeps (IsPolite n) (abort_if_unknown k)
  abort_if_unknown-IsPolite unknown = search keeps_rules
  abort_if_unknown-IsPolite keyboard = search keeps_rules
  abort_if_unknown-IsPolite mouse = search keeps_rules

  ruleset step_rules = (
    keeps_rules, abort_if_unknown-IsPolite, reset_port_and_get_device_type-IsPolite,
    ps2_get_configuration_byte-IsPolite, ps2_set_configuration_byte-IsPolite,
    ps2_disable_first_ps2_port-IsPolite, ps2_disable_second_ps2_port-IsPolite,
    ps2_enable_first_ps2_port-IsPolite, ps2_enable_second_ps2_port-IsPolite,
    ps2_test_first_ps2_port-IsPolite, ps2_test_second_ps2_port-IsPolite,
    ps2_perform_controller_self_test-IsPolite,
  )

  begin_setup-IsPolite : Keeps (IsPolite n) begin_setup
  unfolding begin_setup
  begin_setup-IsPolite = search (step_rules) depth 30

  configure_first_port-IsPolite : (qemu : Bool) → Keeps (IsPolite n) (configure_first_port qemu)
  unfolding configure_first_port
  configure_first_port-IsPolite qemu = search (step_rules) depth 30

  self_test-IsPolite : Keeps (IsPolite n) self_test
  unfolding self_test
  self_test-IsPolite = search (step_rules) depth 30

  disable_second_in_configuration-IsPolite : Keeps (IsPolite n) disable_second_in_configuration
  unfolding disable_second_in_configuration
  disable_second_in_configuration-IsPolite = search (step_rules) depth 30

  find_second_port-IsPolite : Keeps (IsPolite n) find_second_port
  unfolding find_second_port
  find_second_port-IsPolite = search (step_rules, disable_second_in_configuration-IsPolite) depth 30

  test_ports-IsPolite : Keeps (IsPolite n) test_ports
  unfolding test_ports
  test_ports-IsPolite = search (step_rules) depth 30

  enable_ports-IsPolite : Keeps (IsPolite n) enable_ports
  unfolding enable_ports
  enable_ports-IsPolite = search (step_rules) depth 30

  reset_devices-IsPolite : (b : Bool) → Keeps (IsPolite n) (reset_devices b)
  unfolding reset_devices
  reset_devices-IsPolite b = search (step_rules) depth 30

  finish_setup-IsPolite : (qemu : Bool) → Keeps (IsPolite n) (finish_setup qemu)
  unfolding finish_setup
  finish_setup-IsPolite qemu =
      search
        (
          keeps_rules, configure_first_port-IsPolite, self_test-IsPolite, find_second_port-IsPolite,
          test_ports-IsPolite, enable_ports-IsPolite, reset_devices-IsPolite,
        )
        depth 30

one_more :
    (offered : Bool) (t : Trace)
    → unguarded_reads t ≤ 0
    → (if offered then unguarded_reads t else suc (unguarded_reads t)) ≤ 1
one_more true t h = omega (arith, h)
one_more false t h = omega (arith, h)

flush_output_buffer-IsPolite :
    Ensures (IsPolite 0) flush_output_buffer (λ _. IsPolite 1) (λ _. IsPolite 1)
unfolding flush_output_buffer inb
flush_output_buffer-IsPolite = record { at = λ d t p. (p.0, one_more (output_ready t) t p.1) }

setup_ps2_controller-Ensures :
    (qemu : Bool)
    → Ensures (IsPolite 0) (setup_ps2_controller qemu) (λ _. IsPolite 1) (λ _. IsPolite 1)
unfolding setup_ps2_controller
setup_ps2_controller-Ensures qemu =
    Ensures-bind _ _
      (Ensures-weaken (begin_setup-IsPolite 0) (λ a t p. p) (λ e t p. (p.0, omega (arith, p.1))))
      λ _. Ensures-bind _ _ flush_output_buffer-IsPolite λ _. finish_setup-IsPolite 1 qemu

-- Whatever the hardware answers, with QEMU defined or not: if no byte was written to the
-- controller and none read from its data port against the protocol before `setup_ps2_controller`
-- starts, then when it ends, on every path, still none was written against the protocol, and at
-- most one was read from the data port without the status saying that it is there.
pub setup_ps2_controller-IsPolite :
    (qemu : Bool) (device : Hardware) (t : Trace)
    → IsPolite 0 t
    → IsPolite 1 (setup_ps2_controller qemu device t).1
setup_ps2_controller-IsPolite qemu device t p =
    left_behind (IsPolite 1) (setup_ps2_controller qemu device t)
      ((setup_ps2_controller-Ensures qemu).at device t p)
