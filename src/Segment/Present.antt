-- ===== src/Segment/Present.antt =====
-- `getPresent`, `setPresent`, `getLongMode` and `setLongMode`, whose macros name no bit of a word.
use maple_kernel.Base.{ℕ, ◌%◌, ◌≡◌, arith}
use maple_kernel.Bits.{set_bits}
use maple_kernel.Segment.{SegmentDescriptor, get_present, set_present, get_long_mode, set_long_mode}
use maple_kernel.Bits.Laws.{get_bits-eq}
use maple_kernel.Bits.Wrap.{same_bit, same_write}
use maple_kernel.Segment.Laws.{IsDescriptor}

-- For a descriptor of two 32-bit words on the 80386, `getPresent` and `getLongMode` both read bit 0
-- of the upper word, the lowest bit of the middle byte of the base, and both setters write that bit,
-- where the present bit is 15 and the long-mode bit 21.
pub present-long_mode_bit :
    (sd : SegmentDescriptor) (v : ℕ)
    → IsDescriptor sd
    → (get_present sd ≡ sd.higher % 2)
      × (get_long_mode sd ≡ sd.higher % 2)
      × ((set_present sd v).higher ≡ set_bits sd.higher v 0 0)
      × ((set_long_mode sd v).higher ≡ set_bits sd.higher v 0 0)
unfolding get_present get_long_mode set_present set_long_mode
present-long_mode_bit sd v d = (
  omega (
    arith,
    (same_bit sd.higher).0,
    get_bits-eq {e = 0} {s = 0} sd.higher (omega arith) d.higher_fits,
  ),
  omega (
    arith,
    (same_bit sd.higher).1,
    get_bits-eq {e = 0} {s = 0} sd.higher (omega arith) d.higher_fits,
  ),
  (same_write sd.higher v).0,
  (same_write sd.higher v).1,
)
