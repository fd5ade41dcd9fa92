-- ===== src/Segment/Tests.antt =====
-- A flat code segment, and instances of the laws of descriptors.
use maple_kernel.Base.{◌/◌, ◌%◌, ◌^◌, ◌≡◌, ◌⊎◌, arith}
use maple_kernel.Bits.{set_bits}
use maple_kernel.Segment.{
  SegmentDescriptor, get_base_address, set_base_address, get_segment_limit, get_present,
  set_present, get_long_mode, set_long_mode,
}
use maple_kernel.Segment.Fields.{type_field, dpl_field, read, write}
use maple_kernel.Segment.Laws.{IsDescriptor, read-write}
use maple_kernel.Segment.BaseAddress.{get_base_address-set}
use maple_kernel.Segment.Present.{present-long_mode_bit}

abbrev flat_code : SegmentDescriptor
flat_code = record { lower = 0x0000ffff; higher = 0x00cf9a00 }

flat_code-IsDescriptor : IsDescriptor flat_code
flat_code-IsDescriptor = record { lower_fits = omega arith; higher_fits = omega arith }

get_base_address-set_example :
    (get_base_address (set_base_address flat_code 0x12345678) ≡ 0x12345678)
    × (get_segment_limit (set_base_address flat_code 0x12345678) ≡ get_segment_limit flat_code)
    × (read dpl_field (set_base_address flat_code 0x12345678) ≡ read dpl_field flat_code)
    × (get_present (set_base_address flat_code 0x12345678) ≡ 0x12345678 / 2 ^ 16 % 2)
get_base_address-set_example =
    get_base_address-set flat_code 0x12345678 dpl_field flat_code-IsDescriptor (omega arith)

read-write_example :
    (read dpl_field (write dpl_field 3 flat_code) ≡ 3)
    × ((dpl_field ≡ type_field)
        ⊎ (read type_field (write dpl_field 3 flat_code) ≡ read type_field flat_code))
    × (get_segment_limit (write dpl_field 3 flat_code) ≡ get_segment_limit flat_code)
    × (get_base_address (write dpl_field 3 flat_code) ≡ get_base_address flat_code)
    × (get_present (write dpl_field 3 flat_code) ≡ get_present flat_code)
read-write_example =
    read-write flat_code dpl_field type_field 3 flat_code-IsDescriptor (omega arith)

present-long_mode_bit_example :
    (get_present flat_code ≡ flat_code.higher % 2)
    × (get_long_mode flat_code ≡ flat_code.higher % 2)
    × ((set_present flat_code 1).higher ≡ set_bits flat_code.higher 1 0 0)
    × ((set_long_mode flat_code 1).higher ≡ set_bits flat_code.higher 1 0 0)
present-long_mode_bit_example = present-long_mode_bit flat_code 1 flat_code-IsDescriptor
