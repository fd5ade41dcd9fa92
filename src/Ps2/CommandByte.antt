-- ===== src/Ps2/CommandByte.antt =====
-- `enum PS2_CommandByte` of ps2_controller.h: what the driver writes to the command port.
use maple_kernel.Base.{ℕ}

abbrev pub read_byte_0 : ℕ
read_byte_0 = 0x20

abbrev pub read_byte_n_start : ℕ
read_byte_n_start = 0x21

abbrev pub read_byte_n_end : ℕ
read_byte_n_end = 0x3f

abbrev pub write_next_to_byte_0 : ℕ
write_next_to_byte_0 = 0x60

abbrev pub write_next_to_byte_n_end : ℕ
write_next_to_byte_n_end = 0x7f

abbrev pub disable_second_ps2_port : ℕ
disable_second_ps2_port = 0xa7

abbrev pub enable_second_ps2_port : ℕ
enable_second_ps2_port = 0xa8

abbrev pub test_second_ps2_port : ℕ
test_second_ps2_port = 0xa9

abbrev pub test_ps2_controller : ℕ
test_ps2_controller = 0xaa

abbrev pub test_first_ps2_port : ℕ
test_first_ps2_port = 0xab

abbrev pub diagnostic_dump : ℕ
diagnostic_dump = 0xac

abbrev pub disable_first_ps2_port : ℕ
disable_first_ps2_port = 0xad

abbrev pub enable_first_ps2_port : ℕ
enable_first_ps2_port = 0xae

abbrev pub read_controller_input_port : ℕ
read_controller_input_port = 0xc0

abbrev pub copy_low_input_to_status : ℕ
copy_low_input_to_status = 0xc1

abbrev pub copy_high_input_to_status : ℕ
copy_high_input_to_status = 0xc2

abbrev pub read_controller_output_port : ℕ
read_controller_output_port = 0xd0

abbrev pub write_next_byte_to_controller_output_port : ℕ
write_next_byte_to_controller_output_port = 0xd1

abbrev pub write_next_byte_to_first_ps2_output_buffer : ℕ
write_next_byte_to_first_ps2_output_buffer = 0xd2

abbrev pub write_next_byte_to_second_ps2_output_buffer : ℕ
write_next_byte_to_second_ps2_output_buffer = 0xd3

abbrev pub write_next_byte_to_second_ps2_input_buffer : ℕ
write_next_byte_to_second_ps2_input_buffer = 0xd4

abbrev pub pulse_output_line_low_start : ℕ
pulse_output_line_low_start = 0xf0

abbrev pub pulse_output_line_low_end : ℕ
pulse_output_line_low_end = 0xff

-- Sent to a device, not to the controller.
abbrev pub reset_device : ℕ
reset_device = 0xff
