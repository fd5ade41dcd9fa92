-- ===== src/Startup/Tests.antt =====
-- A start-up with a keyboard on the first port and a mouse on the second.
use maple_kernel.Base.{ℕ, ◌≡◌, ◌⊎◌, none, true, some, [], false}
use maple_kernel.Ps2.Tests.{pc}
use maple_kernel.Idt.{Idt}
use maple_kernel.Startup.{Code, Outcome, handle_ps2_setup}
use maple_kernel.Startup.Laws.{served, devices_found, mouse_is_silent, handle_ps2_setup_lem}

abbrev handlers : Code
handlers = record {
  bad_interrupt_handler = 0x100000;
  keyboard_interrupt_handler_port1 = 0x100010;
  keyboard_interrupt_handler_port2 = 0x100020;
  mouse_interrupt_handler_port1 = 0x100030;
  mouse_interrupt_handler_port2 = 0x100040;
}

abbrev blank : Idt
blank = record {
  entry = λ v. record {
    isr_offset_low = 0;
    kernel_cs = record { rpl = 0; ti = 0; index = 0 };
    reserved = 0;
    gate_type = 0;
    bit_44_is_zero = 0;
    dpl = 0;
    present = false;
    isr_offset_high = 0;
  };
  limit = 2047;
  vectors = λ v. false;
}

handle_ps2_setup_lem_example :
    ((mouse_is_silent true pc [] ≡ true) × (handle_ps2_setup true 0 handlers pc [] blank ≡ none))
    ⊎ ((mouse_is_silent true pc [] ≡ false)
        × ((o : Outcome) × (handle_ps2_setup true 0 handlers pc [] blank ≡ some o)
            × ((v : ℕ)
                → o.idt.entry v ≡ served handlers (devices_found true pc []) v (blank.entry v))))
handle_ps2_setup_lem_example = handle_ps2_setup_lem true 0 handlers pc [] blank
