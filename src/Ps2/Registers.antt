-- ===== src/Ps2/Registers.antt =====
-- ps2_controller.h and ps2_controller_public.h: the ports, the error codes, and the registers as
-- bytes and as records of bits.
pub mod Laws
use maple_kernel.Base.{
  ℕ, ◌+◌, ◌*◌, ◌/◌, ◌%◌, ◌^◌, Bool, true, false, not, ◌&&◌, ◌||◌, leb, ◌==◌, if◌then◌else◌,
}

abbrev pub ps2_data_port : ℕ
ps2_data_port = 0x60

abbrev pub ps2_status_port : ℕ
ps2_status_port = 0x64

abbrev pub ps2_command_port : ℕ
ps2_command_port = 0x64

abbrev pub device_command_acknoledged : ℕ
device_command_acknoledged = 0xfa

abbrev pub device_command_self_test_passed : ℕ
device_command_self_test_passed = 0xaa

-- `enum ps2_controller_error_code`. The header gives `device_rep3_invalid` and `device_rep4_invalid` the same number.
pub data ErrorCode : Type 0 where
  no_error invalid_port_number wait_max_itt_in wait_max_itt_out : ErrorCode
  invalid_test_port_response invalid_test_controller_response invalid_configuration_byte : ErrorCode
  status_parity status_timeout : ErrorCode
  device_command_failed_to_acknowledge device_command_failed_self_test : ErrorCode
  device_rep3_invalid device_rep4_invalid : ErrorCode
  a20_line_not_set configuration_byte_post_is_zero n_is_zero : ErrorCode

-- `if (err)`.
abbrev pub is_error : ErrorCode → Bool
is_error no_error = false
is_error _ = true

-- A bit field of one bit, in a byte.
abbrev pub bit : ℕ → ℕ → Bool
bit v k = v / 2 ^ k % 2 == 1

abbrev pub bit_value : Bool → ℕ
bit_value true = 1
bit_value false = 0

-- The bits of the status register that the driver reads.
abbrev pub output_buffer_full : ℕ → Bool
output_buffer_full status = bit status 0

abbrev pub input_buffer_full : ℕ → Bool
input_buffer_full status = bit status 1

abbrev pub timeout_error : ℕ → Bool
timeout_error status = bit status 6

abbrev pub parity_error : ℕ → Bool
parity_error status = bit status 7

unfoldable pub verify_status_parity : ℕ → Bool
verify_status_parity status = not (parity_error status)

unfoldable pub verify_status_timeout : ℕ → Bool
verify_status_timeout status = not (timeout_error status)

pub record ConfigurationByte : Type 0 where
  pub first_ps2_port_enabled : Bool
  pub second_ps2_port_enabled : Bool
  pub system_flag_passed_post_one : Bool
  pub zero1 : Bool
  pub first_ps2_port_clock_disabled : Bool
  pub second_ps2_port_clock_disabled : Bool
  pub first_ps2_port_translation_enabled : Bool
  pub zero2 : Bool

-- The two views of `union ps2_configuration_byte_uts`.
unfoldable pub bits_of : ℕ → ConfigurationByte
bits_of v = record {
  first_ps2_port_enabled = bit v 0;
  second_ps2_port_enabled = bit v 1;
  system_flag_passed_post_one = bit v 2;
  zero1 = bit v 3;
  first_ps2_port_clock_disabled = bit v 4;
  second_ps2_port_clock_disabled = bit v 5;
  first_ps2_port_translation_enabled = bit v 6;
  zero2 = bit v 7;
}

unfoldable pub raw_of : ConfigurationByte → ℕ
raw_of c =
    bit_value c.first_ps2_port_enabled
    + bit_value c.second_ps2_port_enabled * 2
    + bit_value c.system_flag_passed_post_one * 4
    + bit_value c.zero1 * 8
    + bit_value c.first_ps2_port_clock_disabled * 16
    + bit_value c.second_ps2_port_clock_disabled * 32
    + bit_value c.first_ps2_port_translation_enabled * 64
    + bit_value c.zero2 * 128

-- The source tests `zero1` twice.
unfoldable pub verify_configuration_byte_response : ℕ → ErrorCode
verify_configuration_byte_response configuration_byte =
    let bits = bits_of configuration_byte in
    if bits.zero1 || bits.zero1
    then invalid_configuration_byte
    else if not bits.system_flag_passed_post_one
    then configuration_byte_post_is_zero
    else no_error

unfoldable pub verify_test_port_response : ℕ → Bool
verify_test_port_response response = leb 0x00 response && leb response 0x04

unfoldable pub verify_test_controller_response : ℕ → Bool
verify_test_controller_response response = response == 0x55 || response == 0xfc

-- The A20 gate is bit 1 of the output port.
pub verify_controller_output_port_response : ℕ → Bool
verify_controller_output_port_response output_port = not (bit output_port 1)

-- `enum PS2_ResponseType`.
pub data ResponseType : Type 0 where
  not_a_command none_response unknown controller_configuration_byte : ResponseType
  test_port test_controller controller_output_port : ResponseType

-- The structs of a response and an error.
pub record Verified : Type 0 where
  pub response : ℕ
  pub err : ErrorCode
