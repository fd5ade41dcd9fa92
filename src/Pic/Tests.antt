-- ===== src/Pic/Tests.antt =====
-- A device whose data ports remember what was written, and instances of the laws.
use maple_kernel.Base.{ℕ, ◌≡◌, refl, arith, ◌==◌, if◌then◌else◌, update}
use maple_kernel.Pic.{Ports, irq_set_mask, irq_clear_mask}
use maple_kernel.Pic.Masks.{IsPic, masked, irq_masks_lem}

abbrev latches : Ports (ℕ → ℕ)
latches = record { inb = λ port d. d port; outb = λ port v d. update d port v }

latches-IsPic : IsPic (ℕ → ℕ) latches
latches-IsPic = record {
  read_back_1 = λ v d h. refl;
  read_back_2 = λ v d h. refl;
  keeps_1 = λ v d. refl;
  keeps_2 = λ v d. refl;
}

abbrev open_lines : ℕ → ℕ
open_lines port = 0

set_test : irq_set_mask latches 12 open_lines 0xa1 ≡ 0x10
unfolding irq_set_mask
set_test = refl

irq_masks_lem_example :
    (masked latches 12 (irq_set_mask latches 12 open_lines)
      ≡ (if 12 == 12 then 1 else masked latches 12 open_lines))
    × (masked latches 12 (irq_clear_mask latches 12 open_lines)
        ≡ (if 12 == 12 then 0 else masked latches 12 open_lines))
irq_masks_lem_example =
    irq_masks_lem latches latches-IsPic 12 12 open_lines (omega arith) (omega arith)
