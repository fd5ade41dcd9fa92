-- ===== src/Pic/Remap.antt =====
-- `PIC_remap` of pic.c against the documented start-up of an 8259 controller.
use maple_kernel.Base.{ℕ, ◌/◌, ◌%◌, ◌^◌, ◌≡◌, refl, ◌∙◌, ◌==◌, if◌then◌else◌, u8}
use maple_kernel.Pic.{
  Ports, pic1_command, pic1_data, pic2_command, pic2_data, io_wait, pic_remap, unused_port,
}

-- What one controller holds. `waits_for` is the number of the initialization word that the next write
-- to the data port is, or 0 where such a write is the mask.
pub record Chip : Type 0 where
  pub waits_for : ℕ
  pub offset : ℕ
  pub cascade : ℕ
  pub mode : ℕ
  pub mask : ℕ

-- A command with bit 4 is the first of four initialization words.
pub command : ℕ → Chip → Chip
command v chip = if v / 2 ^ 4 % 2 == 1 then record chip { waits_for = 2; mask = 0 } else chip

pub write : ℕ → Chip → Chip
write v chip =
    if chip.waits_for == 2
    then record chip { waits_for = 3; offset = v }
    else if chip.waits_for == 3
    then record chip { waits_for = 4; cascade = v }
    else if chip.waits_for == 4
    then record chip { waits_for = 0; mode = v }
    else record chip { mask = v }

module _ {D : Type 0} (ports : Ports D) where
  -- The ports are those of two such controllers.
  pub record IsPair (chip1 chip2 : D → Chip) : Type 0 where
    pub command1 : (v : ℕ) (d : D) → chip1 (ports.outb pic1_command v d) ≡ command v (chip1 d)
    pub data1 : (v : ℕ) (d : D) → chip1 (ports.outb pic1_data v d) ≡ write v (chip1 d)
    pub command2 : (v : ℕ) (d : D) → chip2 (ports.outb pic2_command v d) ≡ command v (chip2 d)
    pub data2 : (v : ℕ) (d : D) → chip2 (ports.outb pic2_data v d) ≡ write v (chip2 d)
    pub apart_command1 : (v : ℕ) (d : D) → chip2 (ports.outb pic1_command v d) ≡ chip2 d
    pub apart_data1 : (v : ℕ) (d : D) → chip2 (ports.outb pic1_data v d) ≡ chip2 d
    pub apart_command2 : (v : ℕ) (d : D) → chip1 (ports.outb pic2_command v d) ≡ chip1 d
    pub apart_data2 : (v : ℕ) (d : D) → chip1 (ports.outb pic2_data v d) ≡ chip1 d
    pub apart_unused1 : (v : ℕ) (d : D) → chip1 (ports.outb unused_port v d) ≡ chip1 d
    pub apart_unused2 : (v : ℕ) (d : D) → chip2 (ports.outb unused_port v d) ≡ chip2 d

  first_trace :
      (chip1 chip2 : D → Chip) (pair : IsPair chip1 chip2) (offset1 offset2 : ℕ) (d : D)
      → chip1 (pic_remap ports offset1 offset2 d)
        ≡ write 0 (write 1 (write 4 (write (u8 offset1) (command 17 (chip1 d)))))
  unfolding pic_remap io_wait
  first_trace chip1 chip2 pair offset1 offset2 d =
      rw
        (
          pair.apart_data2, pair.data1, pair.apart_unused1, pair.apart_data2, pair.apart_unused1,
          pair.data1, pair.apart_unused1, pair.apart_data2, pair.apart_unused1, pair.data1,
          pair.apart_unused1, pair.apart_data2, pair.apart_unused1, pair.data1, pair.apart_unused1,
          pair.apart_command2, pair.apart_unused1, pair.command1,
        )
        refl

  second_trace :
      (chip1 chip2 : D → Chip) (pair : IsPair chip1 chip2) (offset1 offset2 : ℕ) (d : D)
      → chip2 (pic_remap ports offset1 offset2 d)
        ≡ write 0 (write 1 (write 2 (write (u8 offset2) (command 17 (chip2 d)))))
  unfolding pic_remap io_wait
  second_trace chip1 chip2 pair offset1 offset2 d =
      rw
        (
          pair.data2, pair.apart_data1, pair.apart_unused2, pair.data2, pair.apart_unused2,
          pair.apart_data1, pair.apart_unused2, pair.data2, pair.apart_unused2, pair.apart_data1,
          pair.apart_unused2, pair.data2, pair.apart_unused2, pair.apart_data1, pair.apart_unused2,
          pair.command2, pair.apart_unused2, pair.apart_command1,
        )
        refl

  started :
      (line offset : ℕ) (chip : Chip)
      → write 0 (write 1 (write line (write offset (command 17 chip))))
        ≡ record { waits_for = 0; offset = offset; cascade = line; mode = 1; mask = 0 }
  unfolding command write
  started line offset chip = refl

  -- With two such controllers in any state, also in the middle of a start: `PIC_remap` leaves both
  -- started, with the low bytes of the two offsets, the cascade on line 2, in 8086 mode, and no line
  -- masked.
  pub pic_remap_lem :
      (chip1 chip2 : D → Chip) (pair : IsPair chip1 chip2) (offset1 offset2 : ℕ) (d : D)
      → (chip1 (pic_remap ports offset1 offset2 d)
          ≡ record { waits_for = 0; offset = u8 offset1; cascade = 4; mode = 1; mask = 0 })
        × (chip2 (pic_remap ports offset1 offset2 d)
            ≡ record { waits_for = 0; offset = u8 offset2; cascade = 2; mode = 1; mask = 0 })
  pic_remap_lem chip1 chip2 pair offset1 offset2 d = (
    first_trace chip1 chip2 pair offset1 offset2 d ∙ started 4 (u8 offset1) (chip1 d),
    second_trace chip1 chip2 pair offset1 offset2 d ∙ started 2 (u8 offset2) (chip2 d),
  )
