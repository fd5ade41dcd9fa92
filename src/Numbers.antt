-- ===== src/Numbers.antt =====
-- stdio/string_helper.c: decimal numbers as strings. Memory is a function from address to byte.
pub mod Reverse
pub mod Decimal
pub mod Read
pub mod Tests
use maple_kernel.Base.{
  ℕ, zero, suc, ◌+◌, ◌-◌, ◌*◌, ◌/◌, ◌%◌, ◌^◌, Bool, true, false, not, ◌&&◌, ltb, leb, ◌==◌,
  if◌then◌else◌, Option, none, some, u8, u32, update,
}

abbrev pub Memory : Type 0
Memory = ℕ → ℕ

-- The loop of `strlen`, which has no bound: `none` is a run that has not ended after `fuel` rounds.
pub strlen_from : ℕ → ℕ → ℕ → Memory → Option ℕ
strlen_from zero len str mem = none
strlen_from (suc fuel) len str mem =
    let longer = strlen_from fuel (len + 1) str mem in
    if not (mem (str + len) == 0) then longer else some len

pub strlen : ℕ → ℕ → Memory → Option ℕ
strlen fuel str mem = strlen_from fuel 0 str mem

-- The digits, the lowest first. A value has fewer digits than `value` itself says.
pub write_digits : ℕ → ℕ → ℕ → ℕ → Memory → ℕ × Memory
write_digits zero value pos buffer mem = (pos, mem)
write_digits (suc fuel) value pos buffer mem =
    let rest =
      write_digits fuel (value / 10) (pos + 1) buffer
        (update mem (buffer + pos) (0x30 + value % 10)) in
    if ltb 0 value then rest else (pos, mem)

-- The string between two indices, in the other order.
pub reverse_between : ℕ → ℕ → ℕ → ℕ → Memory → Memory
reverse_between zero start end buffer mem = mem
reverse_between (suc fuel) start end buffer mem =
    let swapped =
      update (update mem (buffer + start) (mem (buffer + end))) (buffer + end)
        (mem (buffer + start)) in
    let rest = reverse_between fuel (start + 1) (end - 1) buffer swapped in
    if ltb start end then rest else mem

-- The length, and the memory with the string.
pub uitoa : ℕ → ℕ → Memory → ℕ × Memory
uitoa value buffer mem =
    if value == 0
    then (1, update (update mem buffer 0x30) (buffer + 1) 0)
    else (let (pos, written) = write_digits value value 0 buffer mem in
        (pos, reverse_between pos 0 (pos - 1) buffer (update written (buffer + pos) 0)))

pub is_digit : ℕ → Bool
is_digit c = leb 0x30 c && leb c 0x39

abbrev pub char_to_uint_invalid : ℕ
char_to_uint_invalid = 11

pub char_to_uint : ℕ → ℕ
char_to_uint c = if not (is_digit c) then char_to_uint_invalid else u8 (c + 2 ^ 8 - 0x30)

-- The loop of `string_to_uint`, from the last digit down to a byte that is 0.
pub read_digits : ℕ → ℕ → ℕ → ℕ → Memory → Option ℕ
read_digits zero power sum str mem = none
read_digits (suc fuel) power sum str mem =
    let digit = char_to_uint (mem str) in
    let rest =
      read_digits fuel (u32 (power * 10)) (u32 (sum + u32 (digit * power))) (u32 (str + 2 ^ 32 - 1))
        mem in
    if not (mem str == 0)
    then (if digit == char_to_uint_invalid then some (2 ^ 32 - 1) else rest)
    else some sum

string_to_uint_from : ℕ → ℕ → Memory → Option ℕ → Option ℕ
string_to_uint_from fuel str mem none = none
string_to_uint_from fuel str mem (some len) =
    read_digits fuel 1 0 (u32 (str + u8 len + 2 ^ 32 - 1)) mem

pub string_to_uint : ℕ → ℕ → Memory → Option ℕ
string_to_uint fuel str mem = string_to_uint_from fuel str mem (strlen fuel str mem)
