-- ===== src/Ps2/Setup/Report.antt =====
-- The result of `setup_ps2_controller`, and the devices that it names.
use maple_kernel.Base.{sym, ℕ, ◌≡◌, refl, Bool, true, false, if◌then◌else◌, Option, none, some}
use maple_kernel.Ps2.{Hardware, Trace, Result, ok, err, ⊤, pure, raise, ◌>>=◌, ◌>>◌, map_err, inb}
use maple_kernel.Ps2.Rules.{
  Outcome, Ensures, Ensures-pure, Ensures-raise, Ensures-if, Ensures-bind, Ensures-map_err,
  Ensures-weaken,
}
use maple_kernel.Ps2.Registers.{ErrorCode, no_error}
use maple_kernel.Ps2.Controller.{Action}
use maple_kernel.Ps2.Device.{
  DeviceType, DeviceSuperType, DeviceFound, get_device_super_type, unknown, keyboard, mouse,
  reset_port_and_get_device_type,
}
use maple_kernel.Ps2.Device.Kind.{
  IsOfKind, IsKnown, unknown-IsKnown, found-IsKnown, reset_port_and_get_device_type-IsOfKind,
}
use maple_kernel.Ps2.Setup.{
  InitError, InitState, Stop, Step, returned, aborted, no_init_error, no_second_port,
  could_not_reset_device2, two_keyboard, two_mouse, abort_if_unknown, init_result, begin_setup,
  flush_output_buffer, configure_first_port, self_test, disable_second_in_configuration,
  find_second_port, test_ports, enable_ports, reset_devices, finish_setup, setup_ps2_controller,
}

-- The devices that go with an error code: their types where the code says that they were found.
abbrev pub devices_fit : InitError → Option DeviceSuperType → Option DeviceSuperType → Bool
devices_fit no_init_error (some keyboard) (some mouse) = true
devices_fit no_init_error (some mouse) (some keyboard) = true
devices_fit two_keyboard (some keyboard) (some keyboard) = true
devices_fit two_mouse (some mouse) (some mouse) = true
devices_fit no_second_port (some k) none = true
devices_fit could_not_reset_device2 (some k) none = true
devices_fit no_init_error _ _ = false
devices_fit two_keyboard _ _ = false
devices_fit two_mouse _ _ = false
devices_fit no_second_port _ _ = false
devices_fit could_not_reset_device2 _ _ = false
devices_fit e none none = true
devices_fit e _ _ = false

abbrev pub kind_of : Option DeviceType → Option DeviceSuperType
kind_of none = none
kind_of (some d) = some (get_device_super_type d)

-- The state's error code and its two types fit, and the set-up did not abort.
abbrev pub state_fits : InitState → Bool
state_fits s =
    devices_fit s.ps2_state_err (kind_of s.port_one_device_type) (kind_of s.port_two_device_type)

abbrev pub stop_fits : Stop → Bool
stop_fits (returned s) = state_fits s
stop_fits aborted = false

-- A step that returns a value with `Q`, or stops with a state that fits.
Reports : {A : Type 0} → Step A → (A → Type 0) → Type 0
Reports m Q = Ensures (λ _. ⊤) m (λ a _. Q a) (λ stop _. stop_fits stop ≡ true)

Reports-pure : {A : Type 0} (a : A) → Reports (pure a) (λ _. ⊤)
unfolding Reports
Reports-pure a = Ensures-pure a (λ t p. tt)

Reports-raise :
    {A : Type 0} (stop : Stop) (Q : A → Type 0) → stop_fits stop ≡ true → Reports (raise stop) Q
unfolding Reports
Reports-raise stop Q e = Ensures-raise stop (λ t p. e)

module _ {A B : Type 0} where
  Reports-bind :
      (m : Step A) (f : A → Step B) (Q : B → Type 0)
      → Reports m (λ _. ⊤)
      → ((a : A) → Reports (f a) Q)
      → Reports (m >>= f) Q
  unfolding Reports
  Reports-bind m f Q hm hf = Ensures-bind m f hm hf

Reports-if :
    {A : Type 0} (b : Bool) (m n : Step A) (Q : A → Type 0)
    → Reports m Q
    → Reports n Q
    → Reports (if b then m else n) Q
unfolding Reports
Reports-if b m n Q hm hn = Ensures-if b m n hm hn

-- The error of the controller does not matter, only the one of the set-up.
any-Outcome :
    {A : Type 0} (f : ErrorCode → Stop)
    → ((e : ErrorCode) → stop_fits (f e) ≡ true)
    → (o : Result ErrorCode A × Trace) → Outcome (λ a t. ⊤) (λ e t. stop_fits (f e) ≡ true) o
any-Outcome f h (ok a, t) = tt
any-Outcome f h (err e, t) = h e

Reports-map_err :
    {A : Type 0} (f : ErrorCode → Stop) (m : Action A)
    → ((e : ErrorCode) → stop_fits (f e) ≡ true)
    → Reports (map_err f m) (λ _. ⊤)
unfolding Reports
Reports-map_err f m h = Ensures-map_err f m (record { at = λ d t p. any-Outcome f h (m d t) })

ruleset report_rules = (Reports-pure, Reports-raise, Reports-bind, Reports-if, Reports-map_err)

begin_setup-Reports : Reports begin_setup (λ _. ⊤)
unfolding begin_setup
begin_setup-Reports = search report_rules depth 30

configure_first_port-Reports : (qemu : Bool) → Reports (configure_first_port qemu) (λ _. ⊤)
unfolding configure_first_port
configure_first_port-Reports qemu = search report_rules depth 30

self_test-Reports : Reports self_test (λ _. ⊤)
unfolding self_test
self_test-Reports = search report_rules depth 30

disable_second_in_configuration-Reports : Reports disable_second_in_configuration (λ _. ⊤)
unfolding disable_second_in_configuration
disable_second_in_configuration-Reports = search report_rules depth 30

find_second_port-Reports : Reports find_second_port (λ _. ⊤)
unfolding find_second_port
find_second_port-Reports = search (report_rules, disable_second_in_configuration-Reports) depth 30

test_ports-Reports : Reports test_ports (λ _. ⊤)
unfolding test_ports
test_ports-Reports = search report_rules depth 30

enable_ports-Reports : Reports enable_ports (λ _. ⊤)
unfolding enable_ports
enable_ports-Reports = search report_rules depth 30

abort_if_unknown-Reports : (k : DeviceSuperType) → IsKnown k → Reports (abort_if_unknown k) (λ _. ⊤)
abort_if_unknown-Reports unknown h = absurd (unknown-IsKnown h)
abort_if_unknown-Reports keyboard h = Reports-pure tt
abort_if_unknown-Reports mouse h = Reports-pure tt

kinds_fit :
    (one two : DeviceSuperType) (d e : DeviceType)
    → IsKnown one
    → IsKnown two
    → devices_fit
        (init_result
          (record { device_type = d; mouse_or_keyboard = one })
          (record { device_type = e; mouse_or_keyboard = two }))
        (some one)
        (some two)
      ≡ true
kinds_fit unknown two d e h g = absurd (unknown-IsKnown h)
kinds_fit keyboard unknown d e h g = absurd (unknown-IsKnown g)
kinds_fit mouse unknown d e h g = absurd (unknown-IsKnown g)
kinds_fit keyboard keyboard d e h g = refl
kinds_fit keyboard mouse d e h g = refl
kinds_fit mouse keyboard d e h g = refl
kinds_fit mouse mouse d e h g = refl

found_fit :
    (one two : DeviceFound)
    → IsOfKind one
    → IsOfKind two
    → devices_fit
        (init_result one two)
        (some (get_device_super_type one.device_type))
        (some (get_device_super_type two.device_type))
      ≡ true
found_fit one two h g =
    rw (sym h, sym g)
      (kinds_fit one.mouse_or_keyboard two.mouse_or_keyboard one.device_type two.device_type
        (found-IsKnown one h) (found-IsKnown two g))

reset-Reports :
    (f : ErrorCode → Stop)
    → ((e : ErrorCode) → stop_fits (f e) ≡ true)
    → (port : ℕ) → Reports (map_err f (reset_port_and_get_device_type port)) IsOfKind
unfolding Reports
reset-Reports f h port =
    Ensures-map_err f _
      (Ensures-weaken (reset_port_and_get_device_type-IsOfKind port) (λ a t k. k) (λ e t k. h e))

-- What follows a found device may use its kind.
given :
    {A : Type 0} {X : Type 0} (m : Step A) (Q : A → Type 0)
    → (X → Reports m Q)
    → Ensures (λ _. X) m (λ a _. Q a) (λ stop _. stop_fits stop ≡ true)
unfolding Reports
given m Q h = record { at = λ d t x. (h x).at d t tt }

-- The two resets of step 10.
abbrev FitsState : InitState → Type 0
FitsState s = state_fits s ≡ true

second_device-Reports :
    (one two : DeviceFound)
    → IsOfKind one
    → IsOfKind two
    → Reports
        (abort_if_unknown two.mouse_or_keyboard
          >> pure (record {
            internal_err = some no_error;
            ps2_state_err = init_result one two;
            port_one_device_type = some one.device_type;
            port_two_device_type = some two.device_type;
          }))
        FitsState
unfolding Reports
second_device-Reports one two h g =
    Ensures-bind _ _ (abort_if_unknown-Reports _ (found-IsKnown two g))
      λ _. Ensures-pure _ (λ t p. found_fit one two h g)

reset_devices-Reports : (second : Bool) → Reports (reset_devices second) FitsState
unfolding reset_devices Reports
reset_devices-Reports second = Ensures-bind _ _ (reset-Reports _ (λ e. refl) 1) λ one.
    given _ _ λ h. Ensures-bind _ _ (abort_if_unknown-Reports _ (found-IsKnown one h)) λ _.
      Ensures-if _ _ _ (Ensures-pure _ (λ t p. refl)) (
        Ensures-bind _ _ (reset-Reports _ (λ e. refl) 2)
          λ two. given _ _ λ g. second_device-Reports one two h g)

flush_output_buffer-Reports : Reports flush_output_buffer (λ _. ⊤)
unfolding flush_output_buffer inb Reports
flush_output_buffer-Reports = record { at = λ d t p. tt }

finish_setup-Reports : (qemu : Bool) → Reports (finish_setup qemu) FitsState
unfolding finish_setup
finish_setup-Reports qemu =
    search
      (
        report_rules, configure_first_port-Reports, self_test-Reports, find_second_port-Reports,
        test_ports-Reports, enable_ports-Reports, reset_devices-Reports,
      )
      depth 30

setup_ps2_controller-Ensures : (qemu : Bool) → Reports (setup_ps2_controller qemu) FitsState
unfolding setup_ps2_controller
setup_ps2_controller-Ensures qemu =
    search (report_rules, begin_setup-Reports, flush_output_buffer-Reports, finish_setup-Reports)
      depth 30

-- The end of the set-up as one value: it returned, or it stopped early.
abbrev pub end_fits : Result Stop InitState → Bool
end_fits (ok s) = state_fits s
end_fits (err stop) = stop_fits stop

end-Outcome :
    (o : Result Stop InitState × Trace)
    → Outcome (λ s _. FitsState s) (λ stop _. stop_fits stop ≡ true) o
    → end_fits o.0 ≡ true
end-Outcome (ok s, t) h = h
end-Outcome (err stop, t) h = h

-- Whatever the hardware answers: `setup_ps2_controller` does not reach `abort_msg`, and its error
-- code and the two device types that it returns fit. With no error there are a keyboard and a mouse,
-- with `two_keyboard` two keyboards, with `two_mouse` two mice, with `no_second_port` or
-- `could_not_reset_device2` a device on the first port alone, and with any other error no device.
pub setup_ps2_controller-Reports :
    (qemu : Bool) (device : Hardware) (t : Trace)
    → end_fits (setup_ps2_controller qemu device t).0 ≡ true
unfolding Reports
setup_ps2_controller-Reports qemu device t =
    end-Outcome (setup_ps2_controller qemu device t)
      ((setup_ps2_controller-Ensures qemu).at device t tt)
