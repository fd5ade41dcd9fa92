-- ===== src/Bits.antt =====
-- cpu/gdt/f1_binary_operation.c: reading and writing a field of bits in a 32-bit word.
-- `f1_binary_operation.c` is compiled apart from its callers for the 80386, whose shifts read their
-- count modulo 32; C leaves a count from 32 on undefined.
pub mod Tests
pub mod Field
pub mod Laws
pub mod Wrap
use maple_kernel.Base.{
  ℕ, ◌+◌, ◌-◌, ◌*◌, ◌/◌, ◌%◌, ◌^◌, bit_and, bit_or, u8, u32, leb, ltb, if◌then◌else◌,
}

pub shl32 : ℕ → ℕ → ℕ
shl32 x k = u32 (x * 2 ^ (k % 32))

pub shr32 : ℕ → ℕ → ℕ
shr32 x k = x / 2 ^ (k % 32)

-- `width` is a `uint8_t`, so its subtraction wraps.
pub generate_mask : ℕ → ℕ → ℕ
generate_mask end_big start_small =
    let width = u8 (end_big + 2 ^ 8 - start_small + 1) in
    let mask = if leb 32 width then 2 ^ 32 - 1 else 2 ^ width - 1 in shl32 mask start_small

pub generate_anti_mask : ℕ → ℕ → ℕ
generate_anti_mask end_big start_small = 2 ^ 32 - 1 - generate_mask end_big start_small

pub get_bits : ℕ → ℕ → ℕ → ℕ
get_bits value end_big start_small =
    let value_left = bit_and value (generate_mask end_big start_small) in
    shr32 value_left start_small

-- The message that goes to the terminal on the error path is left out.
pub get_bits2 : ℕ → ℕ → ℕ → ℕ
get_bits2 value end_big start_small =
    if ltb end_big start_small
    then 2 ^ 32 - 1
    else bit_and (shr32 value start_small) (u32 (shl32 1 (end_big - start_small + 1) + 2 ^ 32 - 1))

pub set_bits : ℕ → ℕ → ℕ → ℕ → ℕ
set_bits a_dest b_value end_big start_small =
    let b_shifted = shl32 b_value start_small in
    let a_reverse_mask = generate_anti_mask end_big start_small in
    bit_or (bit_and a_dest a_reverse_mask) b_shifted
