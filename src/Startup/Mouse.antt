-- ===== src/Startup/Mouse.antt =====
-- `quick_enable_mouse` of drivers/ps2/mouse/ps2_mouse.cpp, which the start-up calls.
use maple_kernel.Base.{Bool, true, false}
use maple_kernel.Ps2.{Result, ok, err, Hardware, Trace, Io, ⊤, pure, ◌>>=◌, ◌>>◌, attempt}
use maple_kernel.Ps2.Registers.{ErrorCode}
use maple_kernel.Ps2.Controller.{
  send_command_to_second_ps2_port, wait_till_ready_for_response, ps2_recieve_raw_response,
}

-- An error is its `abort_msg`. The error of the sending is not looked at, and the last assertion is an
-- assignment, which holds. What it sets in `g_mouse_prop` is not modelled.
pub quick_enable_mouse : Io ErrorCode ⊤
quick_enable_mouse = do
  _ ← attempt {F = ErrorCode} (send_command_to_second_ps2_port 0xf4)
  wait_till_ready_for_response
  _ ← ps2_recieve_raw_response
  pure tt

is_ok : Result ErrorCode ⊤ → Bool
is_ok (ok a) = true
is_ok (err e) = false

-- Whether `quick_enable_mouse` returns.
pub mouse_answers : Hardware → Trace → Bool
unfolding is_ok
mouse_answers device t = is_ok (quick_enable_mouse device t).0
