-- ===== src/Segment.antt =====
-- cpu/gdt/f3_segment_descriptor_internals.c: reading and writing the fields of a segment
-- descriptor. The prints of the setters go to the terminal and are left out. The header
-- f3_segment_descriptor_internals.h gives PRESENT and LONG_MODE twice, as the constants 15 and 21
-- and, below them, as the macros `1 << 7` and `1 << 5`; the functions see the macros.
pub mod Tests
pub mod Fields
pub mod Laws
pub mod Limit
pub mod BaseAddress
pub mod Present
use maple_kernel.Base.{ℕ, ◌*◌, ◌/◌, ◌%◌, ◌^◌, bit_or, u8, u32}
use maple_kernel.Bits.{get_bits, set_bits, shl32}

pub record SegmentDescriptor : Type 0 where
  pub lower : ℕ
  pub higher : ℕ

abbrev pub type_start : ℕ
type_start = 8

abbrev pub type_end : ℕ
type_end = 11

abbrev pub descriptor_type_s : ℕ
descriptor_type_s = 12

abbrev pub dpl_start : ℕ
dpl_start = 13

abbrev pub dpl_end : ℕ
dpl_end = 14

-- The macros.
abbrev pub present : ℕ
present = 1 * 2 ^ 7

abbrev pub long_mode : ℕ
long_mode = 1 * 2 ^ 5

abbrev pub segment_limit_start_2 : ℕ
segment_limit_start_2 = 16

abbrev pub segment_limit_end_2 : ℕ
segment_limit_end_2 = 19

abbrev pub segment_limit_start_1 : ℕ
segment_limit_start_1 = 0

abbrev pub segment_limit_end_1 : ℕ
segment_limit_end_1 = 15

abbrev pub avl_bit : ℕ
avl_bit = 20

abbrev pub default_operation_size : ℕ
default_operation_size = 22

abbrev pub granularity_bit : ℕ
granularity_bit = 23

-- `setBitsModify` on the upper and on the lower word.
abbrev pub set_higher : SegmentDescriptor → ℕ → ℕ → ℕ → SegmentDescriptor
set_higher sd v e s = record sd { higher = set_bits sd.higher v e s }

abbrev pub set_lower : SegmentDescriptor → ℕ → ℕ → ℕ → SegmentDescriptor
set_lower sd v e s = record sd { lower = set_bits sd.lower v e s }

-- The type is the bit field 8 to 11 of the upper word; a store into it keeps four bits.
pub get_type : SegmentDescriptor → ℕ
get_type sd = sd.higher / 2 ^ 8 % 2 ^ 4

pub set_type : SegmentDescriptor → ℕ → SegmentDescriptor
set_type sd t = set_higher sd (t % 2 ^ 4) type_end type_start

pub get_descriptor_type_s : SegmentDescriptor → ℕ
get_descriptor_type_s sd = u8 (get_bits sd.higher descriptor_type_s descriptor_type_s)

pub set_descriptor_type_s : SegmentDescriptor → ℕ → SegmentDescriptor
set_descriptor_type_s sd v = set_higher sd v descriptor_type_s descriptor_type_s

pub get_priviledge_dpl : SegmentDescriptor → ℕ
get_priviledge_dpl sd = u8 (get_bits sd.higher dpl_end dpl_start)

pub set_priviledge_dpl : SegmentDescriptor → ℕ → SegmentDescriptor
set_priviledge_dpl sd v = set_higher sd v dpl_end dpl_start

pub get_present : SegmentDescriptor → ℕ
get_present sd = u8 (get_bits sd.higher present present)

pub set_present : SegmentDescriptor → ℕ → SegmentDescriptor
set_present sd v = set_higher sd v present present

pub get_segment_limit : SegmentDescriptor → ℕ
get_segment_limit sd =
    let limit_19_16 = get_bits sd.higher segment_limit_end_2 segment_limit_start_2 in
    let limit_15_0 = get_bits sd.lower segment_limit_end_1 segment_limit_start_1 in
    bit_or (u32 (limit_19_16 * 2 ^ 16)) limit_15_0

pub set_segment_limit : SegmentDescriptor → ℕ → SegmentDescriptor
set_segment_limit sd limit =
    let higher_19_16 = get_bits limit segment_limit_end_2 segment_limit_start_2 in
    let lower_15_0 = get_bits limit segment_limit_end_1 segment_limit_start_1 in
    let sd' = set_higher sd higher_19_16 segment_limit_end_2 segment_limit_start_2 in
    set_lower sd' lower_15_0 segment_limit_end_1 segment_limit_start_1

pub get_avl : SegmentDescriptor → ℕ
get_avl sd = u8 (get_bits sd.higher avl_bit avl_bit)

pub set_avl : SegmentDescriptor → ℕ → SegmentDescriptor
set_avl sd v = set_higher sd v avl_bit avl_bit

pub get_long_mode : SegmentDescriptor → ℕ
get_long_mode sd = u8 (get_bits sd.higher long_mode long_mode)

pub set_long_mode : SegmentDescriptor → ℕ → SegmentDescriptor
set_long_mode sd v = set_higher sd v long_mode long_mode

pub get_default_operation_size : SegmentDescriptor → ℕ
get_default_operation_size sd =
    u8 (get_bits sd.higher default_operation_size default_operation_size)

pub set_default_operation_size : SegmentDescriptor → ℕ → SegmentDescriptor
set_default_operation_size sd v = set_higher sd v default_operation_size default_operation_size

pub get_granularity : SegmentDescriptor → ℕ
get_granularity sd = u8 (get_bits sd.higher granularity_bit granularity_bit)

pub set_granularity : SegmentDescriptor → ℕ → SegmentDescriptor
set_granularity sd v = set_higher sd v granularity_bit granularity_bit

pub get_base_address : SegmentDescriptor → ℕ
get_base_address sd =
    let base_0_15 = get_bits sd.lower 31 16 in
    let base_16_23 = get_bits sd.higher 7 0 in
    let base_24_31 = get_bits sd.higher 31 24 in
    bit_or (bit_or base_0_15 (u32 (base_16_23 * 2 ^ 16))) (u32 (base_24_31 * 2 ^ 24))

pub set_base_address : SegmentDescriptor → ℕ → SegmentDescriptor
set_base_address sd base =
    let higher_31_24 = get_bits base 31 24 in
    let higher_7_0 = get_bits base 23 16 in
    let lower_31_16 = get_bits base 15 0 in
    let sd₁ = set_lower sd lower_31_16 31 16 in
    let sd₂ = set_higher sd₁ higher_7_0 7 0 in set_higher sd₂ higher_31_24 31 24
