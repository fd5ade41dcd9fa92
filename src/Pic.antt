-- ===== src/Pic.antt =====
-- cpu/pic/pic.c: the start and the masks of the two 8259 interrupt controllers. The ports are a device
-- that the functions take, with what `__inb` and `__outb` do to it.
pub mod Masks
pub mod Remap
pub mod Tests
use maple_kernel.Base.{
  ◌*◌, ℕ, ◌+◌, ◌-◌, ◌%◌, ◌^◌, bit_and, bit_or, u8, u32, ltb, ◌==◌, if◌then◌else◌, for_range,
}

abbrev pub pic1_command : ℕ
pic1_command = 0x20

abbrev pub pic1_data : ℕ
pic1_data = 0x21

abbrev pub pic2_command : ℕ
pic2_command = 0xa0

abbrev pub pic2_data : ℕ
pic2_data = 0xa1

abbrev pub pic_eoi : ℕ
pic_eoi = 0x20

abbrev pub unused_port : ℕ
unused_port = 0x80

abbrev pub icw1_icw4 : ℕ
icw1_icw4 = 0x01

abbrev pub icw1_init : ℕ
icw1_init = 0x10

abbrev pub icw4_8086 : ℕ
icw4_8086 = 0x01

abbrev pub cascade_irq : ℕ
cascade_irq = 2

-- The ports of a device in a state of type `D`.
pub record Ports (D : Type 0) : Type 0 where
  pub inb : ℕ → D → ℕ
  pub outb : ℕ → ℕ → D → D

module _ {D : Type 0} (ports : Ports D) where
  pub io_wait : D → D
  io_wait d = ports.outb unused_port 0 d

  -- `outb` takes a `uint8_t`.
  pub pic_remap : ℕ → ℕ → D → D
  pic_remap offset1 offset2 d =
      let d₁ = io_wait (ports.outb pic1_command (bit_or icw1_init icw1_icw4) d) in
      let d₂ = io_wait (ports.outb pic2_command (bit_or icw1_init icw1_icw4) d₁) in
      let d₃ = io_wait (ports.outb pic1_data (u8 offset1) d₂) in
      let d₄ = io_wait (ports.outb pic2_data (u8 offset2) d₃) in
      let d₅ = io_wait (ports.outb pic1_data (1 * 2 ^ cascade_irq) d₄) in
      let d₆ = io_wait (ports.outb pic2_data 2 d₅) in
      let d₇ = io_wait (ports.outb pic1_data icw4_8086 d₆) in
      let d₈ = io_wait (ports.outb pic2_data icw4_8086 d₇) in
      ports.outb pic2_data 0 (ports.outb pic1_data 0 d₈)

  pub pic_send_eoi : ℕ → D → D
  pic_send_eoi irq d =
      let d' = if ltb irq 8 then d else ports.outb pic2_command pic_eoi d in
      ports.outb pic1_command pic_eoi d'

  pub irq_set_mask : ℕ → D → D
  irq_set_mask irq_line d =
      let port = if ltb irq_line 8 then pic1_data else pic2_data in
      let line = if ltb irq_line 8 then irq_line else irq_line - 8 in
      ports.outb port (u8 (bit_or (ports.inb port d) (u32 (2 ^ (line % 32))))) d

  pub irq_clear_mask : ℕ → D → D
  irq_clear_mask irq_line d =
      let port = if ltb irq_line 8 then pic1_data else pic2_data in
      let line = if ltb irq_line 8 then irq_line else irq_line - 8 in
      ports.outb port (u8 (bit_and (ports.inb port d) (2 ^ 32 - 1 - u32 (2 ^ (line % 32))))) d

  pub disable_pic : D → D
  disable_pic d = io_wait (ports.outb pic2_data 0xff (ports.outb pic1_data 0xff (irq_set_mask 0 d)))

  pub initialize_irqs : D → D
  initialize_irqs d = for_range 16 0 (λ i d'. irq_set_mask i d') d
