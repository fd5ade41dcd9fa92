-- ===== src/Segment/BaseAddress.antt =====
-- `setBaseAddress` and `getBaseAddress`: a base of 32 bits in three pieces.
use maple_kernel.Base.{ℕ, ◌/◌, ◌%◌, ◌^◌, ◌<◌, ◌≡◌, refl, sym, ◌∙◌, inl, inr, arith}
use maple_kernel.Bits.{get_bits, set_bits}
use maple_kernel.Bits.Field.{IsField}
use maple_kernel.Bits.Laws.{get_bits-eq, set_bits-lt, get_bits-set_bits, get_bits-set_bits_other}
use maple_kernel.Segment.{
  SegmentDescriptor, get_segment_limit, get_base_address, set_base_address, get_present,
}
use maple_kernel.Segment.Fields.{Flag, first, last, read, first-IsField, read-eq}
use maple_kernel.Segment.Laws.{
  IsDescriptor, get_bits-small, limit-eq, base-eq, flag_beside, present-eq,
}

-- The two words after `setBaseAddress`.
abbrev base_set : SegmentDescriptor → ℕ → SegmentDescriptor
base_set sd x = record sd {
  lower = set_bits sd.lower (get_bits x 15 0) 31 16;
  higher = set_bits (set_bits sd.higher (get_bits x 23 16) 7 0) (get_bits x 31 24) 31 24;
}

module _ (sd : SegmentDescriptor) (x : ℕ) (d : IsDescriptor sd) (hx : x < 2 ^ 32) where
  mid_fits : set_bits sd.higher (get_bits x 23 16) 7 0 < 2 ^ 32
  mid_fits = set_bits-lt sd.higher (get_bits x 23 16) 7 0 d.higher_fits

  base_set-IsDescriptor : IsDescriptor (base_set sd x)
  base_set-IsDescriptor = record {
    lower_fits = set_bits-lt sd.lower (get_bits x 15 0) 31 16 d.lower_fits;
    higher_fits =
        set_bits-lt (set_bits sd.higher (get_bits x 23 16) 7 0) (get_bits x 31 24) 31 24 mid_fits;
  }

  -- A field between the two pieces of the upper word is not touched.
  between :
      (e s : ℕ)
      → IsField e s
      → 7 < s
      → e < 24
      → get_bits (base_set sd x).higher e s ≡ get_bits sd.higher e s
  between e s g lo hi =
      get_bits-set_bits_other {e = 31} {s = 24} {e' = e} {s' = s}
        (set_bits sd.higher (get_bits x 23 16) 7 0) (get_bits x 31 24) (omega arith) g (inr hi)
        mid_fits (get_bits-small x 31 24 hx (omega arith))
      ∙ get_bits-set_bits_other {e = 7} {s = 0} {e' = e} {s' = s} sd.higher (get_bits x 23 16)
          (omega arith) g (inl lo) d.higher_fits (get_bits-small x 23 16 hx (omega arith))

  high_piece : get_bits (base_set sd x).higher 31 24 ≡ get_bits x 31 24
  high_piece =
      get_bits-set_bits {e = 31} {s = 24} (set_bits sd.higher (get_bits x 23 16) 7 0)
        (get_bits x 31 24) (omega arith) mid_fits (get_bits-small x 31 24 hx (omega arith))

  middle_piece : get_bits (base_set sd x).higher 7 0 ≡ get_bits x 23 16
  middle_piece =
      get_bits-set_bits_other {e = 31} {s = 24} {e' = 7} {s' = 0}
        (set_bits sd.higher (get_bits x 23 16) 7 0) (get_bits x 31 24) (omega arith) (omega arith)
        (inr (omega arith)) mid_fits (get_bits-small x 31 24 hx (omega arith))
      ∙ get_bits-set_bits {e = 7} {s = 0} sd.higher (get_bits x 23 16) (omega arith) d.higher_fits
          (get_bits-small x 23 16 hx (omega arith))

  low_piece : get_bits (base_set sd x).lower 31 16 ≡ get_bits x 15 0
  low_piece =
      get_bits-set_bits {e = 31} {s = 16} sd.lower (get_bits x 15 0) (omega arith) d.lower_fits
        (get_bits-small x 15 0 hx (omega arith))

-- For a descriptor of two 32-bit words and a 32-bit base: what `setBaseAddress` writes,
-- `getBaseAddress` reads, and the limit and the six flags type, S, DPL, AVL, D/B and G read as before.
-- `getPresent` then reads bit 16 of the base.
pub get_base_address-set :
    (sd : SegmentDescriptor) (x : ℕ) (f : Flag)
    → IsDescriptor sd
    → x < 2 ^ 32
    → (get_base_address (set_base_address sd x) ≡ x)
      × (get_segment_limit (set_base_address sd x) ≡ get_segment_limit sd)
      × (read f (set_base_address sd x) ≡ read f sd)
      × (get_present (set_base_address sd x) ≡ x / 2 ^ 16 % 2)
unfolding set_base_address
get_base_address-set sd x f d hx =
    let d' = base_set-IsDescriptor sd x d hx in
    (
      base-eq (base_set sd x) d'
          ∙ rw (high_piece sd x d hx, middle_piece sd x d hx, low_piece sd x d hx)
              (omega (
                arith,
                get_bits-eq {e = 31} {s = 24} x (omega arith) hx,
                get_bits-eq {e = 23} {s = 16} x (omega arith) hx,
                get_bits-eq {e = 15} {s = 0} x (omega arith) hx,
              )),
      limit-eq (base_set sd x) d'
          ∙ rw
              (
                limit-eq sd d,
                between sd x d hx 19 16 (omega arith) (omega arith) (omega arith),
                get_bits-set_bits_other {e = 31} {s = 16} {e' = 15} {s' = 0} sd.lower
                    (get_bits x 15 0) (omega arith) (omega arith) (inr (omega arith)) d.lower_fits
                    (get_bits-small x 15 0 hx (omega arith)),
              )
              refl,
      read-eq (base_set sd x) d'.higher_fits f
          ∙ between sd x d hx (last f) (first f) (first-IsField f) (flag_beside f).1.1
              (flag_beside f).1.0
          ∙ sym (read-eq sd d.higher_fits f),
      present-eq (base_set sd x)
          ∙ omega (
            arith,
            middle_piece sd x d hx,
            get_bits-eq {e = 0} {s = 0} (base_set sd x).higher (omega arith) d'.higher_fits,
            get_bits-eq {e = 7} {s = 0} (base_set sd x).higher (omega arith) d'.higher_fits,
            get_bits-eq {e = 23} {s = 16} x (omega arith) hx,
          ),
    )
