-- ===== src/Startup.antt =====
-- drivers/ps2/ps2.c and cpu/idt/idt_ps2.c: from the result of the controller's set-up to the gates
-- of the keyboard and the mouse. `none` is `abort_msg`, an assertion that fails, or a read of a
-- field that is not set. Calls of other parts are recorded in order.
pub mod Mouse
pub mod Laws
pub mod Tests
use maple_kernel.Base.{
  ℕ, ◌+◌, Bool, true, false, not, ◌&&◌, ◌||◌, Option, none, some, List, [], ◌∷◌, ◌++◌, ◌==◌,
  if◌then◌else◌, update,
}
use maple_kernel.Idt.{Idt, gt32_ig32, idt_set_descriptor, ◌>>=◌, set_up}
use maple_kernel.Ps2.{Result, ok, err, Hardware, Trace}
use maple_kernel.Startup.Mouse.{mouse_answers}
use maple_kernel.Ps2.Device.{
  DeviceType, DeviceSuperType, unknown, keyboard, mouse, get_device_super_type,
}
use maple_kernel.Ps2.Setup.{
  InitError, no_init_error, no_second_port, could_not_init, usb_error,
  ps2_controller_does_not_exist, controller_self_test_failed, first_port_self_test_failed,
  second_port_self_test_failed, could_not_reset_device1, could_not_reset_device2, two_keyboard,
  two_mouse, InitState, Stop, returned, aborted, setup_ps2_controller,
}

abbrev pub ps2_port1_interrupt_vector : ℕ
ps2_port1_interrupt_vector = 32 + 1

abbrev pub ps2_port2_interrupt_vector : ℕ
ps2_port2_interrupt_vector = 32 + 12

-- The addresses of the handlers.
pub record Code : Type 0 where
  pub bad_interrupt_handler : ℕ
  pub keyboard_interrupt_handler_port1 : ℕ
  pub keyboard_interrupt_handler_port2 : ℕ
  pub mouse_interrupt_handler_port1 : ℕ
  pub mouse_interrupt_handler_port2 : ℕ

pub keyboard_interrupt_handlers : Code → ℕ → ℕ
keyboard_interrupt_handlers c port =
    if port == 0
    then c.bad_interrupt_handler
    else if port == 1
    then c.keyboard_interrupt_handler_port1
    else c.keyboard_interrupt_handler_port2

pub mouse_interrupt_handlers : Code → ℕ → ℕ
mouse_interrupt_handlers c port =
    if port == 0
    then c.bad_interrupt_handler
    else if port == 1
    then c.mouse_interrupt_handler_port1
    else c.mouse_interrupt_handler_port2

-- `bad_port` for port 0.
pub interrupt_vector_of_port : (bad_port port : ℕ) → ℕ
interrupt_vector_of_port bad_port port =
    if port == 0
    then bad_port
    else if port == 1
    then ps2_port1_interrupt_vector
    else ps2_port2_interrupt_vector

-- `struct idt_init_ps2_fields`; the types of the devices are not used.
pub data InitFields : Type 0 where
  one_keyboard_one_mouse : (keyboard_port mouse_port : ℕ) → InitFields
  both_keyboard : InitFields
  both_mouse : InitFields
  one_keyboard : InitFields
  one_mouse : InitFields
  no_ps2_device : InitFields

pub idt_init_ps2 : (bad_port : ℕ) → Code → InitFields → Idt → Option Idt
idt_init_ps2 bad_port c (one_keyboard_one_mouse k m) idt =
    if not (m == 1 || m == 2)
    then none
    else if not (k == 1 || k == 2)
    then none
    else if k == m
    then none
    else set_up (interrupt_vector_of_port bad_port k) (keyboard_interrupt_handlers c k) idt
      >>= set_up (interrupt_vector_of_port bad_port m) (mouse_interrupt_handlers c m)
idt_init_ps2 bad_port c both_keyboard idt =
    set_up ps2_port1_interrupt_vector c.keyboard_interrupt_handler_port1 idt
    >>= set_up ps2_port2_interrupt_vector c.keyboard_interrupt_handler_port2
idt_init_ps2 bad_port c both_mouse idt =
    set_up ps2_port1_interrupt_vector c.mouse_interrupt_handler_port1 idt
    >>= set_up ps2_port2_interrupt_vector c.mouse_interrupt_handler_port2
idt_init_ps2 bad_port c one_keyboard idt =
    idt_set_descriptor ps2_port1_interrupt_vector c.keyboard_interrupt_handler_port1 gt32_ig32 0
      true idt
idt_init_ps2 bad_port c one_mouse idt =
    idt_set_descriptor ps2_port1_interrupt_vector c.mouse_interrupt_handler_port1 gt32_ig32 0 true
      idt
idt_init_ps2 bad_port c no_ps2_device idt = some idt

pub idt_init_ps2_quick : Code → Idt → Option Idt
idt_init_ps2_quick c idt =
    set_up 33 c.keyboard_interrupt_handler_port1 idt >>= set_up 44 c.mouse_interrupt_handler_port2

pub data Status : Type 0 where
  has_keyboard_and_mouse has_two_keyboard has_two_mouse one_port_only no_port : Status
  unrecognized_device1 unrecognized_device2 : Status

-- The calls of other parts.
pub data Call : Type 0 where
  set_dual_keyboard_port set_dual_mouse_port : Call
  pic_remap initialize_irqs : Call
  set_single_keyboard_port set_single_mouse_port irq_clear_mask : ℕ → Call

pub record Outcome : Type 0 where
  pub status : Status
  pub idt : Idt
  pub calls : List Call

-- The end that the four functions share; the second port's line stands behind that of the bridge.
with_gates : (status : Status) (first : List Call) (lines : List Call) → Option Idt → Option Outcome
with_gates status first lines none = none
with_gates status first lines (some idt) =
    some
      (record { status = status; idt = idt; calls = first ++ pic_remap ∷ initialize_irqs ∷ lines })

abbrev both_lines : List Call
both_lines = irq_clear_mask 1 ∷ irq_clear_mask 2 ∷ irq_clear_mask 12 ∷ []

abbrev only : Status → Idt → Option Outcome
only status idt = some (record { status = status; idt = idt; calls = [] })

-- By the super types of the two devices; `answers` says whether `quick_enable_mouse` returns.
pub by_super_types :
    (bad_port : ℕ)
    → Code
    → (answers : Bool) → DeviceSuperType
    → DeviceSuperType
    → Idt
    → Option Outcome
unfolding with_gates
by_super_types bad_port c answers unknown unknown idt = none
by_super_types bad_port c answers unknown other idt = only unrecognized_device1 idt
by_super_types bad_port c answers other unknown idt = only unrecognized_device2 idt
by_super_types bad_port c answers keyboard mouse idt =
    if not answers
    then none
    else with_gates has_keyboard_and_mouse
        (set_single_keyboard_port 1 ∷ set_single_mouse_port 2 ∷ []) both_lines
        (idt_init_ps2 bad_port c (one_keyboard_one_mouse 1 2) idt)
by_super_types bad_port c answers mouse keyboard idt =
    if not answers
    then none
    else with_gates has_keyboard_and_mouse
        (set_single_keyboard_port 2 ∷ set_single_mouse_port 1 ∷ []) both_lines
        (idt_init_ps2 bad_port c (one_keyboard_one_mouse 2 1) idt)
by_super_types bad_port c answers keyboard keyboard idt = none
by_super_types bad_port c answers mouse mouse idt = none

pub handle_one_keyboard_one_mouse :
    (bad_port : ℕ)
    → Code
    → (answers : Bool) → Option DeviceType
    → Option DeviceType
    → Idt
    → Option Outcome
handle_one_keyboard_one_mouse bad_port c answers (some d) (some e) idt =
    by_super_types bad_port c answers (get_device_super_type d) (get_device_super_type e) idt
handle_one_keyboard_one_mouse bad_port c answers d e idt = none

pub one_port_by_super_type : (bad_port : ℕ) → Code → DeviceSuperType → Idt → Option Outcome
unfolding with_gates
one_port_by_super_type bad_port c unknown idt = only unrecognized_device1 idt
one_port_by_super_type bad_port c keyboard idt =
    with_gates one_port_only (set_single_keyboard_port 1 ∷ []) (irq_clear_mask 1 ∷ [])
      (idt_init_ps2 bad_port c one_keyboard idt)
one_port_by_super_type bad_port c mouse idt =
    with_gates one_port_only (set_single_mouse_port 1 ∷ []) (irq_clear_mask 1 ∷ [])
      (idt_init_ps2 bad_port c one_mouse idt)

pub handle_one_port_only : (bad_port : ℕ) → Code → Option DeviceType → Idt → Option Outcome
handle_one_port_only bad_port c none idt = none
handle_one_port_only bad_port c (some d) idt =
    one_port_by_super_type bad_port c (get_device_super_type d) idt

pub handle_two_keyboard : (bad_port : ℕ) → Code → Idt → Option Outcome
unfolding with_gates
handle_two_keyboard bad_port c idt =
    with_gates has_two_keyboard (set_dual_keyboard_port ∷ []) both_lines
      (idt_init_ps2 bad_port c both_keyboard idt)

pub handle_two_mouse : (bad_port : ℕ) → Code → Idt → Option Outcome
unfolding with_gates
handle_two_mouse bad_port c idt =
    with_gates has_two_mouse (set_dual_mouse_port ∷ []) both_lines
      (idt_init_ps2 bad_port c both_mouse idt)

-- The switch of `handle_ps2_setup`.
pub handle_state :
    (bad_port : ℕ) → Code → (answers : Bool) → InitError → InitState → Idt → Option Outcome
handle_state bad_port c answers no_init_error s idt =
    handle_one_keyboard_one_mouse bad_port c answers s.port_one_device_type s.port_two_device_type
      idt
handle_state bad_port c answers two_keyboard s idt = handle_two_keyboard bad_port c idt
handle_state bad_port c answers two_mouse s idt = handle_two_mouse bad_port c idt
handle_state bad_port c answers no_second_port s idt =
    handle_one_port_only bad_port c s.port_one_device_type idt
handle_state bad_port c answers e s idt = only no_port idt

-- What `setup_ps2_controller` ended with.
pub handle_end :
    (bad_port : ℕ) → Code → (answers : Bool) → Result Stop InitState → Idt → Option Outcome
handle_end bad_port c answers (ok s) idt = handle_state bad_port c answers s.ps2_state_err s idt
handle_end bad_port c answers (err (returned s)) idt =
    handle_state bad_port c answers s.ps2_state_err s idt
handle_end bad_port c answers (err aborted) idt = none

pub handle_ps2_setup : (qemu : Bool) (bad_port : ℕ) → Code → Hardware → Trace → Idt → Option Outcome
handle_ps2_setup qemu bad_port c device t idt =
    let (result, after) = setup_ps2_controller qemu device t in
    handle_end bad_port c (mouse_answers device after) result idt
