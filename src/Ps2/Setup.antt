-- ===== src/Ps2/Setup.antt =====
-- `setup_ps2_controller` of ps2_controller.c, one function for each of its steps. The messages of
-- the error paths are left out.
pub mod Polite
pub mod Report
use maple_kernel.Base.{
  ℕ, ◌+◌, Bool, true, false, not, ◌&&◌, ◌==◌, if◌then◌else◌, Option, none, some,
}
use maple_kernel.Ps2.{Io, ⊤, pure, raise, ◌>>=◌, ◌>>◌, inb, map_err}
use maple_kernel.Ps2.Registers.{
  ps2_data_port, ErrorCode, no_error, configuration_byte_post_is_zero, is_error, bits_of, Verified,
}
use maple_kernel.Ps2.Controller.{
  Action, ps2_get_configuration_byte, ps2_set_configuration_byte, ps2_disable_first_ps2_port,
  ps2_disable_second_ps2_port, ps2_enable_first_ps2_port, ps2_enable_second_ps2_port,
  ps2_test_first_ps2_port, ps2_test_second_ps2_port, ps2_perform_controller_self_test,
}
use maple_kernel.Ps2.Device.{
  DeviceType, DeviceSuperType, unknown, keyboard, mouse, DeviceFound,
  reset_port_and_get_device_type,
}

pub data InitError : Type 0 where
  no_init_error no_second_port could_not_init usb_error ps2_controller_does_not_exist : InitError
  controller_self_test_failed first_port_self_test_failed second_port_self_test_failed : InitError
  could_not_reset_device1 could_not_reset_device2 two_keyboard two_mouse : InitError

-- `struct ps2_initialize_device_state`; `none` is a field that is not set.
pub record InitState : Type 0 where
  pub internal_err : Option ErrorCode
  pub ps2_state_err : InitError
  pub port_one_device_type : Option DeviceType
  pub port_two_device_type : Option DeviceType

-- An early end: a `return` with the state, or `abort_msg`.
pub data Stop : Type 0 where
  returned : InitState → Stop
  aborted : Stop

abbrev pub Step : Type 0 → Type 0
Step A = Io Stop A

abbrev pub failed : InitError → Option ErrorCode → Stop
failed e internal = returned (record {
  internal_err = internal;
  ps2_state_err = e;
  port_one_device_type = none;
  port_two_device_type = none;
})

-- A part that ends the set-up with `could_not_init` and its error.
abbrev pub or_could_not_init : {A : Type 0} → Action A → Step A
or_could_not_init m = map_err (λ e. failed could_not_init (some e)) m

abbrev pub stop_on_error : Verified → Step ⊤
stop_on_error vr = if is_error vr.err then raise (failed could_not_init (some vr.err)) else pure tt

abbrev pub stop_unless : Bool → InitError → Step ⊤
stop_unless passed e = if not passed then raise (failed e none) else pure tt

-- usb_controller.c and acpi.c: 0 is no error.
abbrev pub initialize_usb_controllers : ℕ
initialize_usb_controllers = 0

abbrev pub disable_legacy_usb_support : ℕ
disable_legacy_usb_support = 0

abbrev pub does_ps2_controller_exist : Bool
does_ps2_controller_exist = true

-- Steps 1 to 4.
unfoldable pub begin_setup : Step ⊤
begin_setup = do
  stop_unless (initialize_usb_controllers == 0) usb_error
  stop_unless (disable_legacy_usb_support == 0) usb_error
  stop_unless does_ps2_controller_exist ps2_controller_does_not_exist
  or_could_not_init ps2_disable_first_ps2_port
  or_could_not_init ps2_disable_second_ps2_port

unfoldable pub flush_output_buffer : Step ℕ
flush_output_buffer = inb ps2_data_port

abbrev pub is_post_warning : ErrorCode → Bool
is_post_warning configuration_byte_post_is_zero = true
is_post_warning _ = false

-- Step 5. `qemu` is whether QEMU is defined in the build.
unfoldable pub configure_first_port : Bool → Step ⊤
configure_first_port qemu = do
  vr ← or_could_not_init ps2_get_configuration_byte
  if is_error vr.err && not (qemu && is_post_warning vr.err)
      then raise (failed could_not_init (some vr.err))
      else pure tt
  let bits = bits_of vr.response
  or_could_not_init (
      ps2_set_configuration_byte (record bits {
        system_flag_passed_post_one = if qemu then true else bits.system_flag_passed_post_one;
        first_ps2_port_enabled = false;
        first_ps2_port_translation_enabled = false;
        first_ps2_port_clock_disabled = false;
      }))

-- Step 6.
unfoldable pub self_test : Step ⊤
self_test = do
  vr ← or_could_not_init ps2_perform_controller_self_test
  stop_on_error vr
  stop_unless (vr.response == 0x55) controller_self_test_failed

-- The second half of step 7, where the second port is supported.
unfoldable pub disable_second_in_configuration : Step ⊤
disable_second_in_configuration = do
  vr ← or_could_not_init ps2_get_configuration_byte
  stop_on_error vr
  or_could_not_init (
      ps2_set_configuration_byte (record (bits_of vr.response) {
        second_ps2_port_clock_disabled = false;
        second_ps2_port_enabled = false;
      }))

-- Step 7: whether there is a second port.
unfoldable pub find_second_port : Step Bool
find_second_port = do
  or_could_not_init ps2_enable_second_ps2_port
  vr ← or_could_not_init ps2_get_configuration_byte
  stop_on_error vr
  let second_port_supported = not (bits_of vr.response).second_ps2_port_clock_disabled
  or_could_not_init ps2_disable_second_ps2_port
  if second_port_supported then disable_second_in_configuration else pure tt
  pure second_port_supported

-- Step 8.
unfoldable pub test_ports : Step ⊤
test_ports = do
  first ← or_could_not_init ps2_test_first_ps2_port
  stop_on_error first
  stop_unless (first.response == 0x00) first_port_self_test_failed
  second ← or_could_not_init ps2_test_second_ps2_port
  stop_on_error second
  stop_unless (second.response == 0x00) second_port_self_test_failed

-- Step 9.
unfoldable pub enable_ports : Step ⊤
enable_ports = do
  or_could_not_init ps2_enable_first_ps2_port
  or_could_not_init ps2_enable_second_ps2_port
  vr ← or_could_not_init ps2_get_configuration_byte
  stop_on_error vr
  or_could_not_init (
      ps2_set_configuration_byte (record (bits_of vr.response) {
        first_ps2_port_enabled = true;
        second_ps2_port_enabled = true;
      }))

-- The `switch` on what kind of device was found: which of the two counters goes up.
abbrev pub keyboard_count : DeviceSuperType → ℕ
keyboard_count keyboard = 1
keyboard_count _ = 0

abbrev pub mouse_count : DeviceSuperType → ℕ
mouse_count mouse = 1
mouse_count _ = 0

abbrev pub abort_if_unknown : DeviceSuperType → Step ⊤
abort_if_unknown unknown = raise aborted
abort_if_unknown keyboard = pure tt
abort_if_unknown mouse = pure tt

abbrev pub init_result : DeviceFound → DeviceFound → InitError
init_result one two =
    if keyboard_count one.mouse_or_keyboard + keyboard_count two.mouse_or_keyboard == 2
    then two_keyboard
    else if mouse_count one.mouse_or_keyboard + mouse_count two.mouse_or_keyboard == 2
    then two_mouse
    else no_init_error

-- Step 10.
unfoldable pub reset_devices : Bool → Step InitState
reset_devices second_port_supported = do
  one ← map_err (λ e. failed could_not_reset_device1 (some e)) (reset_port_and_get_device_type 1)
  abort_if_unknown one.mouse_or_keyboard
  if not second_port_supported
      then pure (record {
        internal_err = some no_error;
        ps2_state_err = no_second_port;
        port_one_device_type = some one.device_type;
        port_two_device_type = none;
      })
      else (do
        two ←
            map_err
              (λ e. returned (record {
                internal_err = some e;
                ps2_state_err = could_not_reset_device2;
                port_one_device_type = some one.device_type;
                port_two_device_type = none;
              }))
              (reset_port_and_get_device_type 2)
        abort_if_unknown two.mouse_or_keyboard
        pure (record {
          internal_err = some no_error;
          ps2_state_err = init_result one two;
          port_one_device_type = some one.device_type;
          port_two_device_type = some two.device_type;
        }))

-- Steps 5 to 10, after the buffer was flushed.
unfoldable pub finish_setup : Bool → Step InitState
finish_setup qemu = do
  configure_first_port qemu
  self_test
  second_port_supported ← find_second_port
  test_ports
  enable_ports
  reset_devices second_port_supported

unfoldable pub setup_ps2_controller : Bool → Step InitState
setup_ps2_controller qemu = do begin_setup; _ ← flush_output_buffer; finish_setup qemu
