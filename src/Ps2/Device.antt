-- ===== src/Ps2/Device.antt =====
-- What is plugged in: the types of devices of ps2_controller_public.h, and
-- `reset_port_and_get_device_type` of ps2_controller.c.
pub mod Polite
pub mod Kind
use maple_kernel.Base.{ℕ, Bool, true, false, not, ◌==◌, if◌then◌else◌}
use maple_kernel.Ps2.{Io, Result, ok, err, ⊤, pure, raise, ◌>>=◌, ◌>>◌, attempt}
use maple_kernel.Ps2.CommandByte
use maple_kernel.Ps2.Registers.{
  ErrorCode, device_command_failed_to_acknowledge, device_command_failed_self_test,
  device_rep3_invalid, device_rep4_invalid, device_command_acknoledged,
  device_command_self_test_passed,
}
use maple_kernel.Ps2.Controller.{
  Action, wait_till_ready_for_response, ps2_recieve_raw_response, send_command_or_data_to_ps2_port,
}

pub data DeviceType : Type 0 where
  ancient_at_keyboard standard_mouse mouse_with_scroll_wheel mouse_with_5_button : DeviceType
  mf2_keyboard_1 mf2_keyboard_2 short_keyboard key_122_host_connected key_122 : DeviceType
  japanese_g_keyboard japanese_p_keyboard japanese_a_keyboard ncd_sun_layout_keyboard : DeviceType

pub data DeviceSuperType : Type 0 where
  unknown keyboard mouse : DeviceSuperType

-- Every type that has a name is in one of the two lists of the source.
unfoldable pub get_device_super_type : DeviceType → DeviceSuperType
get_device_super_type ancient_at_keyboard = keyboard
get_device_super_type mf2_keyboard_1 = keyboard
get_device_super_type mf2_keyboard_2 = keyboard
get_device_super_type short_keyboard = keyboard
get_device_super_type key_122_host_connected = keyboard
get_device_super_type key_122 = keyboard
get_device_super_type japanese_g_keyboard = keyboard
get_device_super_type japanese_p_keyboard = keyboard
get_device_super_type japanese_a_keyboard = keyboard
get_device_super_type ncd_sun_layout_keyboard = keyboard
get_device_super_type standard_mouse = mouse
get_device_super_type mouse_with_scroll_wheel = mouse
get_device_super_type mouse_with_5_button = mouse

-- The result of a reset without an error.
pub record DeviceFound : Type 0 where
  pub device_type : DeviceType
  pub mouse_or_keyboard : DeviceSuperType

abbrev pub found : DeviceType → DeviceSuperType → Action DeviceFound
found type super_type = pure (record { device_type = type; mouse_or_keyboard = super_type })

-- The third byte of an answer of three.
unfoldable pub len3_device : ℕ → Action DeviceFound
len3_device rep3 =
    if rep3 == 0x00
    then found standard_mouse mouse
    else if rep3 == 0x03
    then found mouse_with_scroll_wheel mouse
    else if rep3 == 0x04
    then found mouse_with_5_button mouse
    else raise device_rep3_invalid

-- The fourth byte of an answer of four, for a keyboard that is translated or not.
unfoldable pub len4_device : ℕ → Action DeviceFound
len4_device rep4 =
    if rep4 == 0x83
    then found mf2_keyboard_1 keyboard
    else if rep4 == 0x41
    then found mf2_keyboard_1 keyboard
    else if rep4 == 0xc1
    then found mf2_keyboard_2 keyboard
    else if rep4 == 0x84
    then found short_keyboard keyboard
    else if rep4 == 0x54
    then found short_keyboard keyboard
    else if rep4 == 0x85
    then found key_122_host_connected keyboard
    else if rep4 == 0x86
    then found key_122 keyboard
    else if rep4 == 0x90
    then found japanese_g_keyboard keyboard
    else if rep4 == 0x91
    then found japanese_p_keyboard keyboard
    else if rep4 == 0x92
    then found japanese_a_keyboard keyboard
    else if rep4 == 0xa1
    then found ncd_sun_layout_keyboard keyboard
    else raise device_rep4_invalid

-- The bytes that say which device it is, after the wait for the third one. If that does not come, it
-- is an ancient keyboard.
unfoldable pub after_third : Result ErrorCode ⊤ → Action DeviceFound
after_third (err _) = found ancient_at_keyboard keyboard
after_third (ok _) = do
  rep3 ← ps2_recieve_raw_response
  if not (rep3 == 0xab)
      then len3_device rep3
      else (do wait_till_ready_for_response; rep4 ← ps2_recieve_raw_response; len4_device rep4)

unfoldable pub identify_device : Action DeviceFound
identify_device = attempt wait_till_ready_for_response >>= after_third

unfoldable pub reset_port_and_get_device_type : ℕ → Action DeviceFound
reset_port_and_get_device_type portnumber = do
  send_command_or_data_to_ps2_port portnumber CommandByte.reset_device
  wait_till_ready_for_response
  rep1 ← ps2_recieve_raw_response
  if not (rep1 == device_command_acknoledged)
      then raise device_command_failed_to_acknowledge
      else (do
        wait_till_ready_for_response
        rep2 ← ps2_recieve_raw_response
        if not (rep2 == device_command_self_test_passed)
            then raise device_command_failed_self_test
            else identify_device)
