-- ===== src/Segment/Laws.antt =====
-- The fields of a descriptor are independent cells: a read gives what was last written.
use maple_kernel.Base.{
  ℕ, ◌+◌, ◌-◌, ◌*◌, ◌^◌, ◌<◌, ◌≡◌, ◌⊎◌, refl, ap, inl, inr, bit_or, u8, u32, arith,
}
use maple_kernel.Base.Digit.{bit_or-shl, bit_or_comm}
use native.Mathlib.Nat.{one-le-pow}
use maple_kernel.Bits.{get_bits}
use maple_kernel.Bits.Field.{IsField}
use maple_kernel.Bits.Laws.{get_bits-eq, set_bits-lt, get_bits-set_bits, get_bits-set_bits_other}
use maple_kernel.Bits.Wrap.{same_bit}
use maple_kernel.Segment.{
  SegmentDescriptor, set_higher, set_lower, get_segment_limit, get_base_address, get_present,
}
use maple_kernel.Segment.Fields.{
  Flag, type_field, s_field, dpl_field, avl_field, db_field, g_field, first, last, read, write,
  first-IsField, same_or_apart, read-eq, write-eq,
}

-- Both words fit 32 bits.
pub record IsDescriptor (sd : SegmentDescriptor) : Type 0 where
  pub lower_fits : sd.lower < 2 ^ 32
  pub higher_fits : sd.higher < 2 ^ 32

-- A field value fits the width of its field.
abbrev pub FitsFlag : Flag → ℕ → Type 0
FitsFlag f v = v < 2 ^ (last f - first f + 1)

pub get_bits-small : (x e s : ℕ) → x < 2 ^ 32 → IsField e s → get_bits x e s < 2 ^ (e - s + 1)
get_bits-small x e s hx f = omega (arith, get_bits-eq x f hx, one-le-pow (e - s + 1) 2)

pub limit-eq :
    (sd : SegmentDescriptor)
    → IsDescriptor sd
    → get_segment_limit sd ≡ get_bits sd.higher 19 16 * 2 ^ 16 + get_bits sd.lower 15 0
unfolding get_segment_limit
limit-eq sd d =
    let high = get_bits-small sd.higher 19 16 d.higher_fits (omega arith) in
    let low = get_bits-small sd.lower 15 0 d.lower_fits (omega arith) in
    let cut : u32 (get_bits sd.higher 19 16 * 2 ^ 16) ≡ get_bits sd.higher 19 16 * 2 ^ 16 =
      omega arith in
    rw cut (bit_or-shl 16 (get_bits sd.higher 19 16) (get_bits sd.lower 15 0) low)

bit_or_bytes :
    (hi mid lo : ℕ)
    → hi < 2 ^ 8
    → mid < 2 ^ 8
    → lo < 2 ^ 16
    → bit_or (bit_or lo (u32 (mid * 2 ^ 16))) (u32 (hi * 2 ^ 24))
      ≡ hi * 2 ^ 24 + (mid * 2 ^ 16 + lo)
bit_or_bytes hi mid lo hh hm hl =
    let cut_hi : u32 (hi * 2 ^ 24) ≡ hi * 2 ^ 24 = omega arith in
    let cut_mid : u32 (mid * 2 ^ 16) ≡ mid * 2 ^ 16 = omega arith in
    let low : mid * 2 ^ 16 + lo < 2 ^ 24 = omega arith in
    rw
      (
        cut_hi,
        cut_mid,
        bit_or_comm lo (mid * 2 ^ 16),
        bit_or-shl 16 mid lo hl,
        bit_or_comm (mid * 2 ^ 16 + lo) (hi * 2 ^ 24),
      )
      (bit_or-shl 24 hi (mid * 2 ^ 16 + lo) low)

pub base-eq :
    (sd : SegmentDescriptor)
    → IsDescriptor sd
    → get_base_address sd
      ≡ get_bits sd.higher 31 24 * 2 ^ 24
        + (get_bits sd.higher 7 0 * 2 ^ 16 + get_bits sd.lower 31 16)
unfolding get_base_address
base-eq sd d =
    bit_or_bytes _ _ _ (get_bits-small sd.higher 31 24 d.higher_fits (omega arith))
      (get_bits-small sd.higher 7 0 d.higher_fits (omega arith))
      (get_bits-small sd.lower 31 16 d.lower_fits (omega arith))

set_higher-IsDescriptor :
    (sd : SegmentDescriptor) (v e s : ℕ) → IsDescriptor sd → IsDescriptor (set_higher sd v e s)
set_higher-IsDescriptor sd v e s d = record {
  lower_fits = d.lower_fits;
  higher_fits = set_bits-lt sd.higher v e s d.higher_fits;
}

set_lower-IsDescriptor :
    (sd : SegmentDescriptor) (v e s : ℕ) → IsDescriptor sd → IsDescriptor (set_lower sd v e s)
set_lower-IsDescriptor sd v e s d = record {
  lower_fits = set_bits-lt sd.lower v e s d.lower_fits;
  higher_fits = d.higher_fits;
}

-- A flag shares no digit with the limit and the base in the upper word.
pub flag_beside : (f : Flag) → ((last f < 16) ⊎ (19 < first f)) × ((last f < 24) × (7 < first f))
flag_beside type_field = omega arith
flag_beside s_field = omega arith
flag_beside dpl_field = omega arith
flag_beside avl_field = omega arith
flag_beside db_field = omega arith
flag_beside g_field = omega arith

-- Writing a flag leaves the limit and the base as they were.
write-limit_base :
    (sd : SegmentDescriptor) (f : Flag) (v : ℕ)
    → IsDescriptor sd
    → FitsFlag f v
    → (get_segment_limit (write f v sd) ≡ get_segment_limit sd)
      × (get_base_address (write f v sd) ≡ get_base_address sd)
write-limit_base sd f v d fits =
    let d' = set_higher-IsDescriptor sd v (last f) (first f) d in
    let keeps = λ (e s : ℕ) (g : IsField e s) (apart : (last f < s) ⊎ (e < first f)).
      get_bits-set_bits_other sd.higher v (first-IsField f) g apart d.higher_fits fits in
    rw
      (
        write-eq sd d.higher_fits f v fits,
        limit-eq (set_higher sd v (last f) (first f)) d',
        base-eq (set_higher sd v (last f) (first f)) d',
        limit-eq sd d,
        base-eq sd d,
        keeps 19 16 (omega arith) (flag_beside f).0,
        keeps 31 24 (omega arith) (inl (omega (arith, (flag_beside f).1))),
        keeps 7 0 (omega arith) (inr (omega (arith, (flag_beside f).1))),
      )
      (refl, refl)

-- The bit that `getPresent` reads.
pub present-eq : (sd : SegmentDescriptor) → get_present sd ≡ u8 (get_bits sd.higher 0 0)
unfolding get_present
present-eq sd = ap u8 (same_bit sd.higher).0

-- It is below all six flags.
write-present :
    (sd : SegmentDescriptor) (f : Flag) (v : ℕ)
    → IsDescriptor sd
    → FitsFlag f v
    → get_present (write f v sd) ≡ get_present sd
write-present sd f v d fits =
    rw
      (
        write-eq sd d.higher_fits f v fits,
        present-eq (set_higher sd v (last f) (first f)),
        present-eq sd,
        get_bits-set_bits_other {e = last f} {s = first f} {e' = 0} {s' = 0} sd.higher v
            (first-IsField f) (omega arith) (inr (omega (arith, (flag_beside f).1))) d.higher_fits
            fits,
      )
      refl

read-write_self :
    (sd : SegmentDescriptor) (f : Flag) (v : ℕ)
    → IsDescriptor sd
    → FitsFlag f v
    → read f (write f v sd) ≡ v
read-write_self sd f v d fits =
    let d' = set_higher-IsDescriptor sd v (last f) (first f) d in
    rw
      (
        write-eq sd d.higher_fits f v fits,
        read-eq (set_higher sd v (last f) (first f)) d'.higher_fits f,
      )
      (get_bits-set_bits sd.higher v (first-IsField f) d.higher_fits fits)

read-write_ne :
    (sd : SegmentDescriptor) (f g : Flag) (v : ℕ)
    → IsDescriptor sd
    → FitsFlag f v
    → (f ≡ g) ⊎ (read g (write f v sd) ≡ read g sd)
read-write_ne sd f g v d fits = elim (same_or_apart f g) [
  | inl same ↦ inl same
  | inr apart ↦
      let d' = set_higher-IsDescriptor sd v (last f) (first f) d in
      inr (
        rw
          (
            write-eq sd d.higher_fits f v fits,
            read-eq (set_higher sd v (last f) (first f)) d'.higher_fits g,
            read-eq sd d.higher_fits g,
          )
          (get_bits-set_bits_other sd.higher v (first-IsField f) (first-IsField g) apart
            d.higher_fits fits))
]

pub flag_outside_limit : (f : Flag) → (19 < first f) ⊎ (last f < 16)
flag_outside_limit f = elim (flag_beside f).0 [ inl a ↦ inr a | inr b ↦ inl b ]

-- For a descriptor of two 32-bit words, the six flags type, S, DPL, AVL, D/B and G, and a value that
-- fits the one written: a read of it gives the value, and the five others, the limit and the base
-- read as before, and so does `getPresent`. (The setters of the present and the long-mode bit are not
-- among the writes.)
pub read-write :
    (sd : SegmentDescriptor) (f g : Flag) (v : ℕ)
    → IsDescriptor sd
    → FitsFlag f v
    → (read f (write f v sd) ≡ v)
      × ((f ≡ g) ⊎ (read g (write f v sd) ≡ read g sd))
      × (get_segment_limit (write f v sd) ≡ get_segment_limit sd)
      × (get_base_address (write f v sd) ≡ get_base_address sd)
      × (get_present (write f v sd) ≡ get_present sd)
read-write sd f g v d fits = (
  read-write_self sd f v d fits,
  read-write_ne sd f g v d fits,
  (write-limit_base sd f v d fits).0,
  (write-limit_base sd f v d fits).1,
  write-present sd f v d fits,
)
