-- ===== src/Segment/Limit.antt =====
-- `setSegmentLimit` and `getSegmentLimit`: a limit of 20 bits in two pieces.
use maple_kernel.Base.{ℕ, ◌^◌, ◌<◌, ◌≡◌, ◌⊎◌, refl, sym, ◌∙◌, inl, inr, arith}
use maple_kernel.Bits.{get_bits}
use maple_kernel.Bits.Field.{IsField}
use maple_kernel.Bits.Laws.{get_bits-eq, set_bits-lt, get_bits-set_bits, get_bits-set_bits_other}
use maple_kernel.Segment.{
  SegmentDescriptor, set_higher, set_lower, get_segment_limit, set_segment_limit, get_base_address,
}
use maple_kernel.Segment.Fields.{Flag, first, last, read, first-IsField, read-eq}
use maple_kernel.Segment.Laws.{IsDescriptor, get_bits-small, limit-eq, base-eq, flag_outside_limit}

-- The two words after `setSegmentLimit`.
abbrev limit_set : SegmentDescriptor → ℕ → SegmentDescriptor
limit_set sd x = set_lower (set_higher sd (get_bits x 19 16) 19 16) (get_bits x 15 0) 15 0

-- For a descriptor of two 32-bit words and a limit of 20 bits: what `setSegmentLimit` writes,
-- `getSegmentLimit` reads, and the base and every flag read as before.
pub get_segment_limit-set :
    (sd : SegmentDescriptor) (x : ℕ) (f : Flag)
    → IsDescriptor sd
    → x < 2 ^ 20
    → (get_segment_limit (set_segment_limit sd x) ≡ x)
      × (get_base_address (set_segment_limit sd x) ≡ get_base_address sd)
      × (read f (set_segment_limit sd x) ≡ read f sd)
unfolding set_segment_limit
get_segment_limit-set sd x f d hx =
    let h = get_bits-small x 19 16 (omega arith) (omega arith) in
    let l = get_bits-small x 15 0 (omega arith) (omega arith) in
    let d' : IsDescriptor (limit_set sd x) = record {
      lower_fits = set_bits-lt sd.lower (get_bits x 15 0) 15 0 d.lower_fits;
      higher_fits = set_bits-lt sd.higher (get_bits x 19 16) 19 16 d.higher_fits;
    } in
    let up = λ (e s : ℕ) (g : IsField e s) (apart : (19 < s) ⊎ (e < 16)).
      get_bits-set_bits_other {e = 19} {s = 16} sd.higher (get_bits x 19 16) (omega arith) g apart
        d.higher_fits h in
    (
      limit-eq (limit_set sd x) d'
          ∙ rw
              (
                get_bits-set_bits {e = 19} {s = 16} sd.higher (get_bits x 19 16) (omega arith)
                    d.higher_fits h,
                get_bits-set_bits {e = 15} {s = 0} sd.lower (get_bits x 15 0) (omega arith)
                    d.lower_fits l,
              )
              (omega (
                arith,
                get_bits-eq {e = 19} {s = 16} x (omega arith) (omega arith),
                get_bits-eq {e = 15} {s = 0} x (omega arith) (omega arith),
              )),
      base-eq (limit_set sd x) d'
          ∙ rw
              (
                base-eq sd d,
                up 31 24 (omega arith) (inl (omega arith)),
                up 7 0 (omega arith) (inr (omega arith)),
                get_bits-set_bits_other {e = 15} {s = 0} {e' = 31} {s' = 16} sd.lower
                    (get_bits x 15 0) (omega arith) (omega arith) (inl (omega arith)) d.lower_fits
                    l,
              )
              refl,
      read-eq (limit_set sd x) d'.higher_fits f
          ∙ up (last f) (first f) (first-IsField f) (flag_outside_limit f)
          ∙ sym (read-eq sd d.higher_fits f),
    )
