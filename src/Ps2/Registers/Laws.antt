-- ===== src/Ps2/Registers/Laws.antt =====
-- The two views of the configuration byte.
use maple_kernel.Base.{ℕ, ◌*◌, ◌+◌, ◌<◌, ◌≡◌, ◌^◌, arith, Bool, true, false, ◌%◌, ◌/◌}
use maple_kernel.Ps2.Registers.{ConfigurationByte, bits_of, raw_of, bit, bit_value}

bit_value-bit : (v k : ℕ) → bit_value (bit v k) ≡ v / 2 ^ k % 2
bit_value-bit v k = ground arith

bit_value-lt : (b : Bool) → bit_value b < 2
bit_value-lt true = omega arith
bit_value-lt false = omega arith

bit-eq : (v k : ℕ) (b : Bool) → v / 2 ^ k % 2 ≡ bit_value b → bit v k ≡ b
bit-eq v k true h = ground arith
bit-eq v k false h = ground arith

-- A byte is that of its bits.
pub raw_of-bits_of : (v : ℕ) → v < 2 ^ 8 → raw_of (bits_of v) ≡ v
unfolding raw_of bits_of
raw_of-bits_of v h = omega (
  arith,
  bit_value-bit v 0,
  bit_value-bit v 1,
  bit_value-bit v 2,
  bit_value-bit v 3,
  bit_value-bit v 4,
  bit_value-bit v 5,
  bit_value-bit v 6,
  bit_value-bit v 7,
)

-- Eight digits and the number that they write.
abbrev number : (b₀ b₁ b₂ b₃ b₄ b₅ b₆ b₇ : ℕ) → ℕ
number b₀ b₁ b₂ b₃ b₄ b₅ b₆ b₇ =
    b₀ + b₁ * 2 + b₂ * 4 + b₃ * 8 + b₄ * 16 + b₅ * 32 + b₆ * 64 + b₇ * 128

number_digits :
    (b₀ b₁ b₂ b₃ b₄ b₅ b₆ b₇ : ℕ)
    → b₀ < 2
    → b₁ < 2
    → b₂ < 2
    → b₃ < 2
    → b₄ < 2
    → b₅ < 2
    → b₆ < 2
    → b₇ < 2
    → let v = number b₀ b₁ b₂ b₃ b₄ b₅ b₆ b₇ in
      (v / 2 ^ 0 % 2 ≡ b₀)
      × (v / 2 ^ 1 % 2 ≡ b₁)
      × (v / 2 ^ 2 % 2 ≡ b₂)
      × (v / 2 ^ 3 % 2 ≡ b₃)
      × (v / 2 ^ 4 % 2 ≡ b₄)
      × (v / 2 ^ 5 % 2 ≡ b₅)
      × (v / 2 ^ 6 % 2 ≡ b₆)
      × (v / 2 ^ 7 % 2 ≡ b₇)
number_digits b₀ b₁ b₂ b₃ b₄ b₅ b₆ b₇ h₀ h₁ h₂ h₃ h₄ h₅ h₆ h₇ = (
  omega arith,
  omega arith,
  omega arith,
  omega arith,
  omega arith,
  omega arith,
  omega arith,
  omega arith,
)

-- Bits are those of their byte.
pub bits_of-raw_of : (c : ConfigurationByte) → bits_of (raw_of c) ≡ c
unfolding raw_of bits_of
bits_of-raw_of c =
    let digits =
      number_digits (bit_value c.first_ps2_port_enabled) (bit_value c.second_ps2_port_enabled)
        (bit_value c.system_flag_passed_post_one) (bit_value c.zero1)
        (bit_value c.first_ps2_port_clock_disabled) (bit_value c.second_ps2_port_clock_disabled)
        (bit_value c.first_ps2_port_translation_enabled) (bit_value c.zero2)
        (bit_value-lt c.first_ps2_port_enabled) (bit_value-lt c.second_ps2_port_enabled)
        (bit_value-lt c.system_flag_passed_post_one) (bit_value-lt c.zero1)
        (bit_value-lt c.first_ps2_port_clock_disabled)
        (bit_value-lt c.second_ps2_port_clock_disabled)
        (bit_value-lt c.first_ps2_port_translation_enabled) (bit_value-lt c.zero2) in
    λ i. record {
      first_ps2_port_enabled = bit-eq (raw_of c) 0 c.first_ps2_port_enabled digits.0 i;
      second_ps2_port_enabled = bit-eq (raw_of c) 1 c.second_ps2_port_enabled digits.1 i;
      system_flag_passed_post_one = bit-eq (raw_of c) 2 c.system_flag_passed_post_one digits.2 i;
      zero1 = bit-eq (raw_of c) 3 c.zero1 digits.3 i;
      first_ps2_port_clock_disabled =
          bit-eq (raw_of c) 4 c.first_ps2_port_clock_disabled digits.4 i;
      second_ps2_port_clock_disabled =
          bit-eq (raw_of c) 5 c.second_ps2_port_clock_disabled digits.5 i;
      first_ps2_port_translation_enabled =
          bit-eq (raw_of c) 6 c.first_ps2_port_translation_enabled digits.6 i;
      zero2 = bit-eq (raw_of c) 7 c.zero2 digits.7 i;
    }
