-- ===== src/Format/Tests.antt =====
-- Numbers printed.
use maple_kernel.Base.{ℕ, ◌≡◌, u8, refl, arith, inl, none, some, [], ◌∷◌, leb, if◌then◌else◌, false}
use maple_kernel.Format.{
  hex_size, max8, print_hex_f, print_binary_var_no_newline, binary_size, size_from, char_at,
}
use maple_kernel.Format.Sizes.{nibble, IsSize}
use maple_kernel.Format.Hex.{hex_char}
use maple_kernel.Format.PrintHex.{grouped, print_hex_f_lem}
use maple_kernel.Format.Binary.{bit_char}
use maple_kernel.Format.PrintBinary.{shown_bits, print_binary_lem}

abbrev empty : ℕ → ℕ
empty a = 0

print_hex_f_lem_example : print_hex_f 0x1abcd 6 100 empty empty ≡ (
    if leb 6 16
    then some (
        b'0'
        ∷ b'x'
        ∷ grouped
            (λ p. hex_char false (nibble p 0x1abcd))
            (if leb 6 (hex_size 0x1abcd) then hex_size 0x1abcd else 6))
    else none)
print_hex_f_lem_example = print_hex_f_lem 0x1abcd 6 100 empty empty (omega arith)

-- 0x01 abcd
print_hex_f_text :
    grouped (λ p. hex_char false (nibble p 0x1abcd)) (max8 (hex_size 0x1abcd) 6)
    ≡ b'0' ∷ b'1' ∷ b' ' ∷ b'a' ∷ b'b' ∷ b'c' ∷ b'd' ∷ []
unfolding max8 hex_size binary_size size_from char_at
print_hex_f_text = refl

print_binary_lem_example :
    (n : ℕ) × IsSize n 0b10011
    × (print_binary_var_no_newline 0b10011 0 100 200 empty
        ≡ some (grouped (bit_char 0b10011) (shown_bits n (u8 0))))
print_binary_lem_example =
    print_binary_lem 0b10011 0 100 200 empty (omega arith) (inl (omega arith))

-- 1 0011
print_binary_text :
    grouped (bit_char 0b10011) (shown_bits (binary_size 0b10011) 0)
    ≡ b'1' ∷ b' ' ∷ b'0' ∷ b'0' ∷ b'1' ∷ b'1' ∷ []
unfolding max8 binary_size size_from
print_binary_text = refl
