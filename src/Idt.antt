-- ===== src/Idt.antt =====
-- cpu/idt/idt.c with the gate of cpu/idt/idt.h: the interrupt table. `none` is an assertion that
-- fails. The addresses of the handlers, which are written in assembly, are parameters.
pub mod Laws
pub mod Init
pub mod Tests
use maple_kernel.Base.{
  ℕ, zero, suc, ◌+◌, ◌-◌, ◌*◌, ◌/◌, ◌%◌, ◌^◌, bit_and, Bool, true, false, not, ◌&&◌, ◌||◌, Option,
  none, some, leb, ltb, ◌==◌, if◌then◌else◌, u8, u32, update,
}

abbrev pub idt_max_vector_count : ℕ
idt_max_vector_count = 256

abbrev pub gt32_ig32 : ℕ
gt32_ig32 = 0xe

pub is_valid_gate_type32 : ℕ → Bool
is_valid_gate_type32 gt = gt == 0x5 || (gt == 0x6 || (gt == 0x7 || (gt == 0xe || gt == 0xf)))

pub record SegmentSelector : Type 0 where
  pub rpl : ℕ
  pub ti : ℕ
  pub index : ℕ

-- `idt32_entry_t`
pub record Entry : Type 0 where
  pub isr_offset_low : ℕ
  pub kernel_cs : SegmentSelector
  pub reserved : ℕ
  pub gate_type : ℕ
  pub bit_44_is_zero : ℕ
  pub dpl : ℕ
  pub present : Bool
  pub isr_offset_high : ℕ

-- The static variables.
pub record Idt : Type 0 where
  pub entry : ℕ → Entry
  pub limit : ℕ
  pub vectors : ℕ → Bool

-- The fields of 4 and 2 bits keep the low bits of what is stored.
pub idt_set_descriptor : (vector isr gate_type dpl : ℕ) (present : Bool) → Idt → Option Idt
idt_set_descriptor vector isr gate_type dpl present idt =
    if not (is_valid_gate_type32 gate_type)
    then none
    else some (record idt {
      entry = update idt.entry vector (record {
        isr_offset_low = bit_and (u32 isr) 0xFFFF;
        kernel_cs = record { rpl = 0; ti = 0; index = 2 };
        reserved = 0;
        gate_type = gate_type % 2 ^ 4;
        bit_44_is_zero = 0;
        dpl = dpl % 2 ^ 2;
        present = present;
        isr_offset_high = u32 isr / 2 ^ 16;
      });
    })

infixl 5 ◌>>=◌
abbrev pub ◌>>=◌ : Option Idt → (Idt → Option Idt) → Option Idt
none >>= f = none
some idt >>= f = f idt

-- `idt_set_descriptor(vector, isr, GT32_IG32, 0, true); vectors[vector] = true;`
pub set_up : (vector isr : ℕ) → Idt → Option Idt
set_up vector isr idt = idt_set_descriptor vector isr gt32_ig32 0 true idt >>= λ idt.
    some (record idt { vectors = update idt.vectors vector true })

-- `isr_stub_table` has 49 entries. Behind it is another word of the memory.
pub record Handlers : Type 0 where
  pub isr_stub_table : ℕ → ℕ
  pub past_isr_stub_table : ℕ
  pub interrupt_5_handler : ℕ
  pub interrupt_8_handler : ℕ
  pub interrupt_11_handler : ℕ
  pub interrupt_13_handler : ℕ
  pub interrupt_56_handler : ℕ
  pub interrupt_57_handler : ℕ
  pub apic_wait_interrupt_handler_asm : ℕ

abbrev pub isr_stub_count : ℕ
isr_stub_count = 49

-- `isr_stub_table[vector]`, also for the vector 49, which is one past the end.
abbrev pub isr_stub : Handlers → ℕ → ℕ
isr_stub h vector =
    if ltb vector isr_stub_count then h.isr_stub_table vector else h.past_isr_stub_table

-- The two loops of `idt_init`, from `vector` on; `skips` is the vector that `continue` or the `if`
-- leaves out.
pub init_range : (isr_stub_table : ℕ → ℕ) (skips : ℕ → Bool) (left vector : ℕ) → Idt → Option Idt
init_range isr_stub_table skips zero vector idt = some idt
init_range isr_stub_table skips (suc left) vector idt =
    (if skips vector then some idt else set_up vector (isr_stub_table vector) idt)
    >>= init_range isr_stub_table skips left (vector + 1)

-- `debug` says whether DEBUG is defined.
pub idt_init : (debug : Bool) → Handlers → Idt → Option Idt
idt_init debug h idt = do
  idt ← some (record idt { limit = (8 * idt_max_vector_count - 1) % 2 ^ 16 })
  idt ← init_range (isr_stub h) (λ vector. debug && (vector == 3)) 32 0 idt
  idt ← init_range (isr_stub h) (λ vector. vector == 34) 18 32 idt
  idt ← set_up 5 h.interrupt_5_handler idt
  idt ← set_up 8 h.interrupt_8_handler idt
  idt ← set_up 11 h.interrupt_11_handler idt
  idt ← set_up 13 h.interrupt_13_handler idt
  idt ← set_up 56 h.interrupt_56_handler idt
  idt ← set_up 57 h.interrupt_57_handler idt
  idt ← idt_set_descriptor 58 h.apic_wait_interrupt_handler_asm gt32_ig32 0 true idt
  some (record idt { vectors = update idt.vectors 57 true })

-- The index of the entry that the pointer returned is at.
pub get_idt_entry : (entry_index : ℕ) → Idt → Option ℕ
get_idt_entry entry_index idt =
    let idt_entry_index_max = u8 (idt.limit / 8) in
    if not (leb entry_index idt_entry_index_max) then none else some entry_index

set_present : Bool → Idt → Option ℕ → Option Idt
set_present present idt none = none
set_present present idt (some i) =
    some (record idt { entry = update idt.entry i (record (idt.entry i) { present = present }) })

pub enable_idt_entry : (entry_index : ℕ) → Idt → Option Idt
unfolding set_present
enable_idt_entry entry_index idt =
    if not (idt.vectors entry_index)
    then none
    else set_present true idt (get_idt_entry entry_index idt)

pub disable_idt_entry : (entry_index : ℕ) → Idt → Option Idt
unfolding set_present
disable_idt_entry entry_index idt = set_present false idt (get_idt_entry entry_index idt)
