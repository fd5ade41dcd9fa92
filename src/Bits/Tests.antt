-- ===== src/Bits/Tests.antt =====
-- Tests of the field operations, and instances of their laws.
use maple_kernel.Base.{◌≡◌, refl, arith}
use maple_kernel.Bits.{shl32, shr32, generate_mask, generate_anti_mask, get_bits, set_bits}
use maple_kernel.Bits.Field.{IsField}

mask_test : generate_mask 11 8 ≡ 0xf00
unfolding generate_mask shl32
mask_test = refl

set_bits_test : set_bits 0xffffffff 0x5 11 8 ≡ 0xfffff5ff
unfolding set_bits generate_anti_mask generate_mask shl32
set_bits_test = refl

get_bits_test : get_bits 0x12345678 15 8 ≡ 0x56
unfolding get_bits generate_mask shl32 shr32
get_bits_test = refl

byte : IsField 15 8
byte = record { ordered = omega arith; fits = omega arith }

high_byte : IsField 31 24
high_byte = record { ordered = omega arith; fits = omega arith }
