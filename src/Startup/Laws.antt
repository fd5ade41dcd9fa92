-- ===== src/Startup/Laws.antt =====
-- What the start-up of ps2.c leaves in the interrupt table.
use maple_kernel.Base.{
  ℕ, ◌≡◌, refl, ap, arith, Bool, true, false, Option, none, some, List, [], ◌∷◌, ◌++◌, ◌≢◌, ◌==◌,
  ◌⊎◌, ◌&&◌, not, inl, inr, if◌then◌else◌,
}
use maple_kernel.Ps2.{Result, ok, err, Hardware, Trace}
use maple_kernel.Ps2.Registers.{ErrorCode}
use maple_kernel.Ps2.Device.{
  DeviceType, DeviceSuperType, unknown, keyboard, mouse, get_device_super_type,
}
use maple_kernel.Ps2.Setup.{
  InitError, no_init_error, no_second_port, could_not_init, usb_error,
  ps2_controller_does_not_exist, controller_self_test_failed, first_port_self_test_failed,
  second_port_self_test_failed, could_not_reset_device1, could_not_reset_device2, two_keyboard,
  two_mouse, InitState, Stop, returned, aborted, setup_ps2_controller,
}
use maple_kernel.Ps2.Setup.Report.{devices_fit, kind_of, end_fits, setup_ps2_controller-Reports}
use maple_kernel.Idt.{Entry, Idt, set_up, ◌>>=◌}
use maple_kernel.Idt.Laws.{gate_of, marked, written, set_up-written, descriptor-written}
use maple_kernel.Startup.Mouse.{mouse_answers}
use maple_kernel.Startup.{
  Status, no_port, Call, set_single_keyboard_port, set_single_mouse_port, set_dual_keyboard_port,
  set_dual_mouse_port, irq_clear_mask, pic_remap, initialize_irqs, has_keyboard_and_mouse,
  has_two_keyboard, has_two_mouse, one_port_only, with_gates, both_lines, only, Code, idt_init_ps2,
  keyboard_interrupt_handlers, mouse_interrupt_handlers, interrupt_vector_of_port, Outcome,
  by_super_types, handle_one_keyboard_one_mouse, one_port_by_super_type, handle_one_port_only,
  handle_two_keyboard, handle_two_mouse, handle_state, handle_end, handle_ps2_setup,
}

-- The handlers of the devices on the two ports, by what each device is.
abbrev pub first_handler : Code → DeviceSuperType → ℕ
first_handler c keyboard = c.keyboard_interrupt_handler_port1
first_handler c mouse = c.mouse_interrupt_handler_port1
first_handler c unknown = c.bad_interrupt_handler

abbrev pub second_handler : Code → DeviceSuperType → ℕ
second_handler c keyboard = c.keyboard_interrupt_handler_port2
second_handler c mouse = c.mouse_interrupt_handler_port2
second_handler c unknown = c.bad_interrupt_handler

-- The devices that are started, with their ports.
pub data Devices : Type 0 where
  nobody : Devices
  one : DeviceSuperType → Devices
  two : DeviceSuperType → DeviceSuperType → Devices

abbrev pub devices_of : Option DeviceSuperType → Option DeviceSuperType → Devices
devices_of (some k) (some l) = two k l
devices_of (some k) none = one k
devices_of none l = nobody

-- A port whose second device could not be reset is not started.
abbrev pub started : InitError → Option DeviceSuperType → Option DeviceSuperType → Devices
started could_not_reset_device2 k l = nobody
started e k l = devices_of k l

-- The entry of a vector where the devices are served.
abbrev pub served : Code → Devices → ℕ → Entry → Entry
served c nobody v old = old
served c (one k) v old = if v == 33 then gate_of (first_handler c k) else old
served c (two k l) v old =
    if v == 33
    then gate_of (first_handler c k)
    else if v == 44
    then gate_of (second_handler c l)
    else old

-- One of the two is a mouse, and it is the only one.
abbrev pub is_mixed : Devices → Bool
is_mixed (two keyboard mouse) = true
is_mixed (two mouse keyboard) = true
is_mixed _ = false

-- A start with these devices: it aborts where `quick_enable_mouse` does not return beside a keyboard, and
-- else it comes to an end, with the gates of the devices.
Starts : Code → Devices → (answers : Bool) → Idt → Option Outcome → Type 0
Starts c d answers idt result =
    (((is_mixed d && not answers) ≡ true) × (result ≡ none))
    ⊎ (((is_mixed d && not answers) ≡ false)
        × ((o : Outcome) × (result ≡ some o)
            × ((v : ℕ) → o.idt.entry v ≡ served c d v (idt.entry v))))

other_order :
    (v : ℕ) (g h old : Entry)
    → (if v == 44 then h else if v == 33 then g else old)
      ≡ (if v == 33 then g else if v == 44 then h else old)
other_order v g h old = ground arith

-- What a fit of an error code with the kinds of devices leaves.
no_first : (l : Option DeviceSuperType) → devices_fit no_init_error none l ≡ true → ⊥
no_first none h = cc
no_first (some l) h = cc

no_second : (k : DeviceSuperType) → devices_fit no_init_error (some k) none ≡ true → ⊥
no_second keyboard h = cc
no_second mouse h = cc
no_second unknown h = cc

no_port_fits : (l : Option DeviceSuperType) → devices_fit no_second_port none l ≡ true → ⊥
no_port_fits none h = cc
no_port_fits (some l) h = cc

keyboards_fit :
    (P : Devices → Type 0)
    → P (two keyboard keyboard)
    → (k l : Option DeviceSuperType) → devices_fit two_keyboard k l ≡ true
    → P (devices_of k l)
keyboards_fit P p (some keyboard) (some keyboard) h = p
keyboards_fit P p k l h = absurd (cc)

mice_fit :
    (P : Devices → Type 0)
    → P (two mouse mouse)
    → (k l : Option DeviceSuperType) → devices_fit two_mouse k l ≡ true
    → P (devices_of k l)
mice_fit P p (some mouse) (some mouse) h = p
mice_fit P p k l h = absurd (cc)

-- The errors that leave no device.
abbrev is_quiet : InitError → Bool
is_quiet no_init_error = false
is_quiet two_keyboard = false
is_quiet two_mouse = false
is_quiet no_second_port = false
is_quiet could_not_reset_device2 = false
is_quiet _ = true

quiet_fits :
    (e : InitError)
    → is_quiet e ≡ true
    → (k l : Option DeviceSuperType) → devices_fit e k l ≡ true
    → k ≡ none
quiet_fits no_init_error quiet k l h = absurd (cc)
quiet_fits e quiet none l h = refl
quiet_fits e quiet (some k) l h = absurd (cc)

known : (d : DeviceType) → get_device_super_type d ≢ unknown
unfolding get_device_super_type
known DeviceType.ancient_at_keyboard e = cc
known DeviceType.standard_mouse e = cc
known DeviceType.mouse_with_scroll_wheel e = cc
known DeviceType.mouse_with_5_button e = cc
known DeviceType.mf2_keyboard_1 e = cc
known DeviceType.mf2_keyboard_2 e = cc
known DeviceType.short_keyboard e = cc
known DeviceType.key_122_host_connected e = cc
known DeviceType.key_122 e = cc
known DeviceType.japanese_g_keyboard e = cc
known DeviceType.japanese_p_keyboard e = cc
known DeviceType.japanese_a_keyboard e = cc
known DeviceType.ncd_sun_layout_keyboard e = cc

module _ (c : Code) (idt : Idt) where
  with_gates-Starts :
      (answers : Bool) (d : Devices) (status : Status) (first lines : List Call) (r : Option Idt)
      (after : Idt)
      → (is_mixed d && not answers) ≡ false
      → r ≡ some after
      → ((v : ℕ) → after.entry v ≡ served c d v (idt.entry v))
      → Starts c d answers idt (with_gates status first lines r)
  unfolding Starts with_gates
  with_gates-Starts answers d status first lines r after goes_on e entries = inr (
    goes_on,
    (
      record { status = status; idt = after; calls = first ++ pic_remap ∷ initialize_irqs ∷ lines },
      ap (with_gates status first lines) e,
      entries,
    ),
  )

  mixed-Starts :
      (answers : Bool) (d : Devices) (status : Status) (first lines : List Call) (r : Option Idt)
      (after : Idt)
      → is_mixed d ≡ true
      → r ≡ some after
      → ((v : ℕ) → after.entry v ≡ served c d v (idt.entry v))
      → Starts c d answers idt (if not answers then none else with_gates status first lines r)
  unfolding Starts
  mixed-Starts false d status first lines r after mixed e entries = inl (rw (mixed) refl, refl)
  mixed-Starts true d status first lines r after mixed e entries =
      with_gates-Starts true d status first lines r after (rw (mixed) refl) e entries

  two_gates :
      (v₁ h₁ v₂ h₂ : ℕ)
      → (set_up v₁ h₁ idt >>= set_up v₂ h₂)
        ≡ some (marked v₂ (written v₂ h₂ (marked v₁ (written v₁ h₁ idt))))
  two_gates v₁ h₁ v₂ h₂ =
      rw (set_up-written v₁ h₁ idt) (set_up-written v₂ h₂ (marked v₁ (written v₁ h₁ idt)))

  only-Starts : (answers : Bool) (status : Status) → Starts c nobody answers idt (only status idt)
  unfolding Starts
  only-Starts answers status =
      inr (refl, (record { status = status; idt = idt; calls = [] }, refl, λ v. refl))

  module _ (bad_port : ℕ) (answers : Bool) where
    both-Starts :
        (k l : DeviceSuperType)
        → devices_fit no_init_error (some k) (some l) ≡ true
        → Starts c (two k l) answers idt (by_super_types bad_port c answers k l idt)
    unfolding by_super_types idt_init_ps2 interrupt_vector_of_port keyboard_interrupt_handlers
        mouse_interrupt_handlers
    both-Starts keyboard mouse h =
        mixed-Starts answers (two keyboard mouse) has_keyboard_and_mouse
          (set_single_keyboard_port 1 ∷ set_single_mouse_port 2 ∷ []) both_lines _ _ refl
          (two_gates 33 c.keyboard_interrupt_handler_port1 44 c.mouse_interrupt_handler_port2)
          (λ v.
            other_order v (gate_of c.keyboard_interrupt_handler_port1)
              (gate_of c.mouse_interrupt_handler_port2) (idt.entry v))
    both-Starts mouse keyboard h =
        mixed-Starts answers (two mouse keyboard) has_keyboard_and_mouse
          (set_single_keyboard_port 2 ∷ set_single_mouse_port 1 ∷ []) both_lines _ _ refl
          (two_gates 44 c.keyboard_interrupt_handler_port2 33 c.mouse_interrupt_handler_port1)
          (λ v. refl)
    both-Starts keyboard keyboard h = absurd (cc)
    both-Starts mouse mouse h = absurd (cc)
    both-Starts unknown l h = absurd (cc)
    both-Starts keyboard unknown h = absurd (cc)
    both-Starts mouse unknown h = absurd (cc)

    one-Starts :
        (k : DeviceSuperType)
        → k ≢ unknown
        → Starts c (one k) answers idt (one_port_by_super_type bad_port c k idt)
    unfolding one_port_by_super_type idt_init_ps2
    one-Starts keyboard ne =
        with_gates-Starts answers (one keyboard) one_port_only (set_single_keyboard_port 1 ∷ [])
          (irq_clear_mask 1 ∷ []) _ _ refl
          (descriptor-written 33 c.keyboard_interrupt_handler_port1 idt) (λ v. refl)
    one-Starts mouse ne =
        with_gates-Starts answers (one mouse) one_port_only (set_single_mouse_port 1 ∷ [])
          (irq_clear_mask 1 ∷ []) _ _ refl
          (descriptor-written 33 c.mouse_interrupt_handler_port1 idt) (λ v. refl)
    one-Starts unknown ne = absurd (ne refl)

    keyboards-Starts :
        Starts c (two keyboard keyboard) answers idt (handle_two_keyboard bad_port c idt)
    unfolding handle_two_keyboard idt_init_ps2
    keyboards-Starts =
        with_gates-Starts answers (two keyboard keyboard) has_two_keyboard
          (set_dual_keyboard_port ∷ []) both_lines _ _ refl
          (two_gates 33 c.keyboard_interrupt_handler_port1 44 c.keyboard_interrupt_handler_port2)
          (λ v.
            other_order v (gate_of c.keyboard_interrupt_handler_port1)
              (gate_of c.keyboard_interrupt_handler_port2) (idt.entry v))

    mice-Starts : Starts c (two mouse mouse) answers idt (handle_two_mouse bad_port c idt)
    unfolding handle_two_mouse idt_init_ps2
    mice-Starts =
        with_gates-Starts answers (two mouse mouse) has_two_mouse (set_dual_mouse_port ∷ [])
          both_lines _ _ refl
          (two_gates 33 c.mouse_interrupt_handler_port1 44 c.mouse_interrupt_handler_port2)
          (λ v.
            other_order v (gate_of c.mouse_interrupt_handler_port1)
              (gate_of c.mouse_interrupt_handler_port2) (idt.entry v))

    -- Where an error says that there is no device.
    quiet-Starts :
        (e : InitError) (k l : Option DeviceSuperType) (status : Status)
        → k ≡ none
        → Starts c (started e k l) answers idt (only status idt)
    quiet-Starts could_not_reset_device2 k l status none_there = only-Starts answers status
    quiet-Starts e none l status none_there = only-Starts answers status
    quiet-Starts e (some k) l status none_there = absurd (cc)

    state-Starts :
        (e : InitError) (internal : Option ErrorCode) (p q : Option DeviceType)
        → devices_fit e (kind_of p) (kind_of q) ≡ true
        → Starts c (started e (kind_of p) (kind_of q)) answers idt (
            handle_state bad_port c answers e
              (record {
                internal_err = internal;
                ps2_state_err = e;
                port_one_device_type = p;
                port_two_device_type = q;
              })
              idt)
    unfolding handle_state handle_one_keyboard_one_mouse handle_one_port_only
    state-Starts no_init_error internal (some d) (some f) h =
        both-Starts (get_device_super_type d) (get_device_super_type f) h
    state-Starts no_init_error internal none q h = absurd (no_first (kind_of q) h)
    state-Starts no_init_error internal (some d) none h =
        absurd (no_second (get_device_super_type d) h)
    state-Starts two_keyboard internal p q h =
        keyboards_fit (λ d. Starts c d answers idt (handle_two_keyboard bad_port c idt))
          keyboards-Starts (kind_of p) (kind_of q) h
    state-Starts two_mouse internal p q h =
        mice_fit (λ d. Starts c d answers idt (handle_two_mouse bad_port c idt)) mice-Starts
          (kind_of p) (kind_of q) h
    state-Starts no_second_port internal (some d) none h =
        one-Starts (get_device_super_type d) (known d)
    state-Starts no_second_port internal (some d) (some f) h = absurd (cc)
    state-Starts no_second_port internal none q h = absurd (no_port_fits (kind_of q) h)
    state-Starts could_not_reset_device2 internal p q h = only-Starts answers no_port
    state-Starts could_not_init internal p q h =
        quiet-Starts could_not_init (kind_of p) (kind_of q) no_port
          (quiet_fits could_not_init refl (kind_of p) (kind_of q) h)
    state-Starts usb_error internal p q h =
        quiet-Starts usb_error (kind_of p) (kind_of q) no_port
          (quiet_fits usb_error refl (kind_of p) (kind_of q) h)
    state-Starts ps2_controller_does_not_exist internal p q h =
        quiet-Starts ps2_controller_does_not_exist (kind_of p) (kind_of q) no_port
          (quiet_fits ps2_controller_does_not_exist refl (kind_of p) (kind_of q) h)
    state-Starts controller_self_test_failed internal p q h =
        quiet-Starts controller_self_test_failed (kind_of p) (kind_of q) no_port
          (quiet_fits controller_self_test_failed refl (kind_of p) (kind_of q) h)
    state-Starts first_port_self_test_failed internal p q h =
        quiet-Starts first_port_self_test_failed (kind_of p) (kind_of q) no_port
          (quiet_fits first_port_self_test_failed refl (kind_of p) (kind_of q) h)
    state-Starts second_port_self_test_failed internal p q h =
        quiet-Starts second_port_self_test_failed (kind_of p) (kind_of q) no_port
          (quiet_fits second_port_self_test_failed refl (kind_of p) (kind_of q) h)
    state-Starts could_not_reset_device1 internal p q h =
        quiet-Starts could_not_reset_device1 (kind_of p) (kind_of q) no_port
          (quiet_fits could_not_reset_device1 refl (kind_of p) (kind_of q) h)

-- The devices that the end of the set-up tells of.
abbrev pub started_by : Result Stop InitState → Devices
started_by (ok s) =
    started s.ps2_state_err (kind_of s.port_one_device_type) (kind_of s.port_two_device_type)
started_by (err (returned s)) =
    started s.ps2_state_err (kind_of s.port_one_device_type) (kind_of s.port_two_device_type)
started_by (err aborted) = nobody

end-Starts :
    (bad_port : ℕ) (c : Code) (answers : Bool) (idt : Idt) (r : Result Stop InitState)
    → end_fits r ≡ true
    → Starts c (started_by r) answers idt (handle_end bad_port c answers r idt)
unfolding handle_end
end-Starts bad_port c answers idt (ok s) h =
    state-Starts c idt bad_port answers s.ps2_state_err s.internal_err s.port_one_device_type
      s.port_two_device_type h
end-Starts bad_port c answers idt (err (returned s)) h =
    state-Starts c idt bad_port answers s.ps2_state_err s.internal_err s.port_one_device_type
      s.port_two_device_type h
end-Starts bad_port c answers idt (err aborted) h = absurd (cc)

-- The devices that the set-up finds, and whether `quick_enable_mouse` then aborts.
abbrev pub devices_found : (qemu : Bool) → Hardware → Trace → Devices
devices_found qemu device t = started_by (setup_ps2_controller qemu device t).0

abbrev pub mouse_is_silent : (qemu : Bool) → Hardware → Trace → Bool
mouse_is_silent qemu device t =
    is_mixed (devices_found qemu device t)
    && not (mouse_answers device (setup_ps2_controller qemu device t).1)

-- Whatever the hardware answers: `handle_ps2_setup` aborts exactly where the set-up finds one keyboard
-- and one mouse, and the wait of `quick_enable_mouse` for a response then ends in an error. Otherwise
-- it comes to its end, and no assertion fails. With a device on each port, the gate of vector 33 is then that of the handler for
-- what is on the first port, and the gate of vector 44 that of the handler for what is on the second;
-- with one port in use, the gate of vector 33 is that of the device there; all other entries are as
-- they were. A first device is not started if the second could not be reset.
pub handle_ps2_setup_lem :
    (qemu : Bool) (bad_port : ℕ) (c : Code) (device : Hardware) (t : Trace) (idt : Idt)
    → ((mouse_is_silent qemu device t ≡ true)
        × (handle_ps2_setup qemu bad_port c device t idt ≡ none))
      ⊎ ((mouse_is_silent qemu device t ≡ false)
          × ((o : Outcome) × (handle_ps2_setup qemu bad_port c device t idt ≡ some o)
              × ((v : ℕ) → o.idt.entry v ≡ served c (devices_found qemu device t) v (idt.entry v))))
unfolding handle_ps2_setup Starts
handle_ps2_setup_lem qemu bad_port c device t idt =
    end-Starts bad_port c (mouse_answers device (setup_ps2_controller qemu device t).1) idt
      (setup_ps2_controller qemu device t).0 (setup_ps2_controller-Reports qemu device t)
