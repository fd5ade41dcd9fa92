-- ===== src/Format.antt =====
-- stdio/bit_hex_string.c, and `uint_to_hex` of stdio/string_helper.c: numbers as hexadecimal and
-- binary digits on the terminal. What goes to the terminal is a list of characters; `none` is an
-- assertion that fails, or a string that does not end within its array.
pub mod Sizes
pub mod Hex
pub mod PrintHex
pub mod Binary
pub mod PrintBinary
pub mod Tests
use maple_kernel.Base.{
  ℕ, zero, suc, ◌+◌, ◌-◌, ◌*◌, ◌/◌, ◌%◌, ◌^◌, bit_and, Bool, true, false, not, ◌&&◌, ltb, leb, ◌==◌,
  if◌then◌else◌, Option, none, some, List, [], ◌∷◌, ◌++◌, u8, u32, update,
}
use mathlib.Core.Option
use maple_kernel.Numbers.{Memory}

-- The loop of `binary_size`; a number has fewer binary digits than the number itself says.
pub size_from : (fuel binary_number bits : ℕ) → ℕ
size_from zero binary_number bits = bits
size_from (suc fuel) binary_number bits =
    let rest = size_from fuel (binary_number / 2) (bits + 1) in
    if ltb 0 binary_number then rest else bits

pub binary_size : ℕ → ℕ
binary_size binary_number =
    if binary_number == 0 then 1 else u8 (size_from binary_number binary_number 0)

pub hex_size : ℕ → ℕ
hex_size number =
    if not (binary_size number % 4 == 0)
    then u8 (binary_size number / 4 + 1)
    else u8 (binary_size number / 4)

-- `max` on `uint8_t`.
pub max8 : ℕ → ℕ → ℕ
max8 a b = if ltb b a then a else b

-- The characters of the string literal, and the entry at an index.
abbrev pub lowercase : List ℕ
lowercase =
    b'0' ∷ b'1' ∷ b'2' ∷ b'3' ∷ b'4' ∷ b'5' ∷ b'6' ∷ b'7' ∷ b'8' ∷ b'9' ∷ b'a' ∷ b'b' ∷ b'c' ∷ b'd'
    ∷ b'e' ∷ b'f' ∷ []

abbrev pub uppercase : List ℕ
uppercase =
    b'0' ∷ b'1' ∷ b'2' ∷ b'3' ∷ b'4' ∷ b'5' ∷ b'6' ∷ b'7' ∷ b'8' ∷ b'9' ∷ b'A' ∷ b'B' ∷ b'C' ∷ b'D'
    ∷ b'E' ∷ b'F' ∷ []

pub char_at : List ℕ → ℕ → ℕ
char_at [] i = 0
char_at (c ∷ cs) zero = c
char_at (c ∷ cs) (suc i) = char_at cs i

-- The loop of `uint_to_hex` over the nibbles, from `temp[i - 1]` down to `temp[0]`.
pub fill : (i value : ℕ) (digits : List ℕ) (temp : ℕ → ℕ) → (ℕ → ℕ)
fill zero value digits temp = temp
fill (suc i) value digits temp =
    fill i (value / 2 ^ 4) digits (update temp i (char_at digits (bit_and value 0xF)))

-- `while (temp[i] == '0') i++`
pub skip_zeros : (fuel i : ℕ) (temp : ℕ → ℕ) → ℕ
skip_zeros zero i temp = i
skip_zeros (suc fuel) i temp =
    let rest = skip_zeros fuel (i + 1) temp in if temp i == b'0' then rest else i

-- `while (temp[i] != '\0') buffer[j++] = temp[i++]`
pub copy_digits : (fuel i j buffer : ℕ) (temp : ℕ → ℕ) → Memory → ℕ × Memory
copy_digits zero i j buffer temp mem = (j, mem)
copy_digits (suc fuel) i j buffer temp mem =
    let rest = copy_digits fuel (i + 1) (j + 1) buffer temp (update mem (buffer + j) (temp i)) in
    if not (temp i == 0) then rest else (j, mem)

-- The length, and the memory with the string. `temp` has 9 entries, which bounds both loops.
pub uint_to_hex : (value buffer : ℕ) (upper : Bool) (temp : ℕ → ℕ) → Memory → ℕ × Memory
uint_to_hex value buffer upper temp mem =
    if value == 0
    then (1, update (update mem buffer b'0') (buffer + 1) 0)
    else (let filled = fill 8 value (if upper then uppercase else lowercase) (update temp 8 0) in
        let (j, written) = copy_digits 9 (skip_zeros 9 0 filled) 0 buffer filled mem in
        (j, update written (buffer + j) 0))

-- The loop over the leading leading, and the one over the digits.
pub leading_zeros : (left i number_of_hex_char_to_print : ℕ) → List ℕ
leading_zeros zero i m = []
leading_zeros (suc left) i m =
    b'0'
    ∷ ((if u8 (m + 2 ^ 8 - (i + 1)) % 4 == 0 then b' ' ∷ [] else [])
        ++ leading_zeros left (i + 1) m)

pub hex_digits :
    (left i number_of_hex_char_to_print number_of_leading_zeros len output_array : ℕ)
    → Memory
    → List ℕ
hex_digits zero i m leading len output_array mem = []
hex_digits (suc left) i m leading len output_array mem =
    let j = u8 (u8 (m + 2 ^ 8 - i) + 2 ^ 8 - leading) in
    mem (output_array + i)
    ∷ ((if (ltb 0 j && ((j - 1) % 4 == 0)) && not (i == len - 1) then b' ' ∷ [] else [])
        ++ hex_digits left (i + 1) m leading len output_array mem)

-- `output_array` and `temp` are arrays on the stack, with whatever is there.
pub print_hex_f :
    (hex_number number_of_hex output_array : ℕ) (temp : ℕ → ℕ) → Memory → Option (List ℕ)
print_hex_f hex_number number_of_hex output_array temp mem =
    let m = max8 (hex_size hex_number) number_of_hex in
    let (len, written) = uint_to_hex hex_number output_array false temp mem in
    let leading = if ltb m len then 0 else u8 (m + 2 ^ 8 - len) in
    if not (leb number_of_hex 16)
    then none
    else if not (hex_size hex_number == len)
    then none
    else some (
        b'0'
        ∷ b'x'
        ∷ (leading_zeros leading 0 m ++ hex_digits len 0 m leading len output_array written))

-- The loop of `getSpacelessBitString` from `bit_index` on.
pub bits_from : (left bit_index a output : ℕ) → Memory → Memory
bits_from zero bit_index a output mem = mem
bits_from (suc left) bit_index a output mem =
    bits_from left (bit_index + 1) a output
      (update mem (output + (32 - 1 - bit_index)) (b'0' + bit_and (a / 2 ^ bit_index) 1))

pub get_spaceless_bit_string : (a output : ℕ) → Memory → Memory
get_spaceless_bit_string a output mem = bits_from 32 0 a output (update mem (output + 32) 0)

-- The loop of `addSpacesEvery4bits`, with `left` characters to go.
pub spaces_from : (left bit_index print_index spaceless_bits output : ℕ) → Memory → Memory
spaces_from zero bit_index print_index spaceless_bits output mem = mem
spaces_from (suc left) bit_index print_index spaceless_bits output mem =
    let space = (print_index + 1) % 5 == 0 in
    spaces_from left (if space then bit_index else bit_index + 1) (print_index + 1) spaceless_bits
      output
      (update mem (output + print_index) (if space then b' ' else mem (spaceless_bits + bit_index)))

pub add_spaces_every4bits : (spaceless_bits output : ℕ) → Memory → Memory
add_spaces_every4bits spaceless_bits output mem =
    update (spaces_from 39 0 0 spaceless_bits output mem) (output + 39) 0

-- The characters that `terminal_writestring` sends: up to the 0 that ends the string.
pub writestring : (fuel str : ℕ) → Memory → Option (List ℕ)
writestring zero str mem = none
writestring (suc fuel) str mem =
    let rest = writestring fuel (str + 1) mem in
    if mem str == 0 then some [] else Option.map (λ cs. mem str ∷ cs) rest

pub first_index : ℕ → ℕ
first_index number_of_bits =
    if leb 32 number_of_bits
    then 0
    else (let first = u8 (39 + 2 ^ 8 - (number_of_bits + number_of_bits / 4)) in
        if number_of_bits % 4 == 0 then u8 (first + 1) else first)

-- `spaceless` and `spaced` are the two arrays on the stack, of 33 and 40 characters.
pub print_binary_var_no_newline :
    (binary_number number_of_bits spaceless spaced : ℕ) → Memory → Option (List ℕ)
print_binary_var_no_newline binary_number number_of_bits spaceless spaced mem =
    let bits = max8 (binary_size binary_number) (u8 number_of_bits) in
    let written =
      add_spaces_every4bits spaceless spaced
        (get_spaceless_bit_string binary_number spaceless mem) in
    writestring (40 - first_index bits) (spaced + first_index bits) written
