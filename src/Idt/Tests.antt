-- ===== src/Idt/Tests.antt =====
-- The interrupt table on concrete handlers.
use maple_kernel.Base.{◌≡◌, ◌⊎◌, ◌==◌, refl, arith, true, false, none, some, update, if◌then◌else◌}
use maple_kernel.Idt.{Idt, Handlers, idt_init, enable_idt_entry, disable_idt_entry}
use maple_kernel.Idt.Laws.{address_of}
use maple_kernel.Idt.Init.{handler_of, has_gate, is_marked, idt_init_lem, enable-idt_init}

abbrev blank : Idt
blank = record {
  entry = λ v. record {
    isr_offset_low = 0;
    kernel_cs = record { rpl = 0; ti = 0; index = 0 };
    reserved = 0;
    gate_type = 0;
    bit_44_is_zero = 0;
    dpl = 0;
    present = false;
    isr_offset_high = 0;
  };
  limit = 0;
  vectors = λ v. false;
}

abbrev handlers : Handlers
handlers = record {
  isr_stub_table = λ v. 0x100000;
  past_isr_stub_table = 0x5589;
  interrupt_5_handler = 0x100005;
  interrupt_8_handler = 0x100008;
  interrupt_11_handler = 0x10000b;
  interrupt_13_handler = 0x10000d;
  interrupt_56_handler = 0x100038;
  interrupt_57_handler = 0x100039;
  apic_wait_interrupt_handler_asm = 0x10003a;
}

idt_init_lem_example :
    (after : Idt) × (idt_init false handlers blank ≡ some after)
    × (((has_gate false 13 ≡ true)
          × (address_of (after.entry 13)
              ≡ (if 13 == 49 then handlers.past_isr_stub_table else handler_of handlers 13))
          × ((after.entry 13).present ≡ true)
          × ((after.entry 13).gate_type ≡ 0xe))
        ⊎ ((has_gate false 13 ≡ false) × (after.entry 13 ≡ blank.entry 13)))
idt_init_lem_example = idt_init_lem false handlers blank 13 (omega arith) (omega arith)

enable-idt_init_example :
    (after : Idt) × (idt_init false handlers blank ≡ some after)
    × (enable_idt_entry 58 after ≡ (
        if is_marked false 58
        then some (record after {
          entry = update after.entry 58 (record (after.entry 58) { present = true });
        })
        else none))
    × (disable_idt_entry 58 after
        ≡ some (record after {
          entry = update after.entry 58 (record (after.entry 58) { present = false });
        }))
enable-idt_init_example = enable-idt_init false handlers blank 58 (omega arith) refl
