-- ===== src/Segment/Fields.antt =====
-- The one-piece fields of the upper word, by name: the getter, the setter and the place of each.
use maple_kernel.Base.{ℕ, ◌+◌, ◌-◌, ◌%◌, ◌^◌, ◌≤◌, ◌<◌, ◌≡◌, refl, ◌⊎◌, inl, inr, u8, arith}
use native.Mathlib.Nat.{one-le-pow, pow-le-pow_right}
use maple_kernel.Bits.{get_bits, set_bits}
use maple_kernel.Bits.Field.{IsField}
use maple_kernel.Bits.Laws.{get_bits-eq}
use maple_kernel.Segment.{
  SegmentDescriptor, get_type, set_type, get_descriptor_type_s, set_descriptor_type_s,
  get_priviledge_dpl, set_priviledge_dpl, get_avl, set_avl, get_default_operation_size,
  set_default_operation_size, get_granularity, set_granularity,
}

pub data Flag : Type 0 where
  type_field s_field dpl_field avl_field db_field g_field : Flag

abbrev pub first : Flag → ℕ
first type_field = 8
first s_field = 12
first dpl_field = 13
first avl_field = 20
first db_field = 22
first g_field = 23

abbrev pub last : Flag → ℕ
last type_field = 11
last s_field = 12
last dpl_field = 14
last avl_field = 20
last db_field = 22
last g_field = 23

abbrev pub read : Flag → SegmentDescriptor → ℕ
read type_field = get_type
read s_field = get_descriptor_type_s
read dpl_field = get_priviledge_dpl
read avl_field = get_avl
read db_field = get_default_operation_size
read g_field = get_granularity

abbrev pub write : Flag → ℕ → SegmentDescriptor → SegmentDescriptor
write type_field v sd = set_type sd v
write s_field v sd = set_descriptor_type_s sd v
write dpl_field v sd = set_priviledge_dpl sd v
write avl_field v sd = set_avl sd v
write db_field v sd = set_default_operation_size sd v
write g_field v sd = set_granularity sd v

pub first-IsField : (f : Flag) → IsField (last f) (first f)
first-IsField type_field = omega arith
first-IsField s_field = omega arith
first-IsField dpl_field = omega arith
first-IsField avl_field = omega arith
first-IsField db_field = omega arith
first-IsField g_field = omega arith

-- Two fields are the same or lie apart.
pub same_or_apart : (f g : Flag) → (f ≡ g) ⊎ ((last f < first g) ⊎ (last g < first f))
same_or_apart type_field type_field = inl refl
same_or_apart type_field s_field = inr (inl (omega arith))
same_or_apart type_field dpl_field = inr (inl (omega arith))
same_or_apart type_field avl_field = inr (inl (omega arith))
same_or_apart type_field db_field = inr (inl (omega arith))
same_or_apart type_field g_field = inr (inl (omega arith))
same_or_apart s_field type_field = inr (inr (omega arith))
same_or_apart s_field s_field = inl refl
same_or_apart s_field dpl_field = inr (inl (omega arith))
same_or_apart s_field avl_field = inr (inl (omega arith))
same_or_apart s_field db_field = inr (inl (omega arith))
same_or_apart s_field g_field = inr (inl (omega arith))
same_or_apart dpl_field type_field = inr (inr (omega arith))
same_or_apart dpl_field s_field = inr (inr (omega arith))
same_or_apart dpl_field dpl_field = inl refl
same_or_apart dpl_field avl_field = inr (inl (omega arith))
same_or_apart dpl_field db_field = inr (inl (omega arith))
same_or_apart dpl_field g_field = inr (inl (omega arith))
same_or_apart avl_field type_field = inr (inr (omega arith))
same_or_apart avl_field s_field = inr (inr (omega arith))
same_or_apart avl_field dpl_field = inr (inr (omega arith))
same_or_apart avl_field avl_field = inl refl
same_or_apart avl_field db_field = inr (inl (omega arith))
same_or_apart avl_field g_field = inr (inl (omega arith))
same_or_apart db_field type_field = inr (inr (omega arith))
same_or_apart db_field s_field = inr (inr (omega arith))
same_or_apart db_field dpl_field = inr (inr (omega arith))
same_or_apart db_field avl_field = inr (inr (omega arith))
same_or_apart db_field db_field = inl refl
same_or_apart db_field g_field = inr (inl (omega arith))
same_or_apart g_field type_field = inr (inr (omega arith))
same_or_apart g_field s_field = inr (inr (omega arith))
same_or_apart g_field dpl_field = inr (inr (omega arith))
same_or_apart g_field avl_field = inr (inr (omega arith))
same_or_apart g_field db_field = inr (inr (omega arith))
same_or_apart g_field g_field = inl refl

module _ (sd : SegmentDescriptor) (fits : sd.higher < 2 ^ 32) where
  cast_small :
      (e s : ℕ) → IsField e s → e - s < 8 → u8 (get_bits sd.higher e s) ≡ get_bits sd.higher e s
  cast_small e s f short =
      let width : e - s + 1 ≤ 8 = omega arith in
      omega (
        arith,
        get_bits-eq sd.higher f fits,
        pow-le-pow_right {n = 2} (omega arith) width,
        one-le-pow (e - s + 1) 2,
      )

  pub read-eq : (f : Flag) → read f sd ≡ get_bits sd.higher (last f) (first f)
  unfolding get_type get_descriptor_type_s get_priviledge_dpl get_avl get_default_operation_size
      get_granularity
  read-eq type_field = omega (arith, get_bits-eq {e = 11} {s = 8} sd.higher (omega arith) fits)
  read-eq s_field = cast_small 12 12 (omega arith) (omega arith)
  read-eq dpl_field = cast_small 14 13 (omega arith) (omega arith)
  read-eq avl_field = cast_small 20 20 (omega arith) (omega arith)
  read-eq db_field = cast_small 22 22 (omega arith) (omega arith)
  read-eq g_field = cast_small 23 23 (omega arith) (omega arith)

  pub write-eq :
      (f : Flag) (v : ℕ)
      → v < 2 ^ (last f - first f + 1)
      → write f v sd ≡ record sd { higher = set_bits sd.higher v (last f) (first f) }
  unfolding set_type set_descriptor_type_s set_priviledge_dpl set_avl set_default_operation_size
      set_granularity
  write-eq type_field v h = let same : v % 2 ^ 4 ≡ v = omega arith in rw same
  write-eq s_field v h = refl
  write-eq dpl_field v h = refl
  write-eq avl_field v h = refl
  write-eq db_field v h = refl
  write-eq g_field v h = refl
