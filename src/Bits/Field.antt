-- ===== src/Bits/Field.antt =====
-- What the field operations do to each binary digit, and from that the laws of a field.
use maple_kernel.Base.{
  ℕ, ◌+◌, ◌-◌, ◌*◌, ◌/◌, ◌%◌, ◌^◌, bit_and, ◌≤◌, ◌<◌, ◌≡◌, inl, inr, ◌&&◌, arith, u8, u32, leb,
  leb→le, Bool-cases, if◌then◌else◌,
}
use maple_kernel.Base.Digit.{
  digit, digit-lt, digit-bit_and, digit-bit_or, digit-shl, digit-shr, digit-mod, digit-ones,
  digit-not, digit-ge,
}
use maple_kernel.Bits.{shl32, shr32, generate_mask, generate_anti_mask, get_bits, set_bits}

-- The fields of a 32-bit word.
pub record IsField (e s : ℕ) : Type 0 where
  pub ordered : s ≤ e
  pub fits : e < 32

small_count : (k : ℕ) → k < 32 → k % 32 ≡ k
small_count k h = omega arith

pub shl32-eq : (x k : ℕ) → k < 32 → shl32 x k ≡ u32 (x * 2 ^ k)
unfolding shl32
shl32-eq x k h = rw (small_count k h)

pub shr32-eq : (x k : ℕ) → k < 32 → shr32 x k ≡ x / 2 ^ k
unfolding shr32
shr32-eq x k h = rw (small_count k h)

generate_mask-lt : (e s : ℕ) → generate_mask e s < 2 ^ 32
unfolding generate_mask shl32
generate_mask-lt e s = omega arith

generate_mask-eq : {e s : ℕ} → IsField e s → generate_mask e s ≡ u32 ((2 ^ (e - s + 1) - 1) * 2 ^ s)
unfolding generate_mask
generate_mask-eq {e} {s} f =
    let width : u8 (e + 2 ^ 8 - s + 1) ≡ e - s + 1 = omega arith in
    elim (Bool-cases (leb 32 (e - s + 1))) [
      | inl wide ↦
          full (omega (arith, leb→le 32 (e - s + 1) wide))
            (omega (arith, leb→le 32 (e - s + 1) wide))
      | inr narrow ↦ rw (width, narrow, shl32-eq (2 ^ (e - s + 1) - 1) s (omega arith))
    ]
  where
    full : e ≡ 31 → s ≡ 0 → generate_mask e s ≡ u32 ((2 ^ (e - s + 1) - 1) * 2 ^ s)
    full p q = rw (p, q, shl32-eq (2 ^ 32 - 1) 0 (omega arith))

-- The mask of a field has a one exactly at the digits of the field.
pub digit-generate_mask :
    {e s : ℕ}
    → IsField e s
    → (k : ℕ) → digit (generate_mask e s) k ≡ (if leb s k && leb k e then 1 else 0)
digit-generate_mask {e} {s} f k = rw (generate_mask-eq f) (
    ground (
      arith,
      digit-mod 32 ((2 ^ (e - s + 1) - 1) * 2 ^ s) k,
      digit-shl (2 ^ (e - s + 1) - 1) s k,
      digit-ones (e - s + 1) (k - s),
    ))

pub digit-get_bits :
    {e s : ℕ} (v : ℕ)
    → IsField e s
    → (k : ℕ) → digit (get_bits v e s) k ≡ (if leb k (e - s) then digit v (s + k) else 0)
unfolding get_bits
digit-get_bits {e} {s} v f k =
    rw (shr32-eq (bit_and v (generate_mask e s)) s (omega arith), digit-shr, digit-bit_and)
      (ground (arith, digit-generate_mask f (s + k), digit-lt v (s + k)))

pub digit-set_bits :
    {e s : ℕ} (a b : ℕ)
    → IsField e s
    → b < 2 ^ (e - s + 1)
    → (k : ℕ) → k < 32
    → digit (set_bits a b e s) k ≡ (if leb s k && leb k e then digit b (k - s) else digit a k)
unfolding set_bits generate_anti_mask
digit-set_bits {e} {s} a b f hb k hk =
    rw (digit-bit_or, digit-bit_and, shl32-eq b s (omega arith))
      (ground (
        arith,
        digit-not 32 (generate_mask e s) k (generate_mask-lt e s),
        digit-generate_mask f k,
        digit-mod 32 (b * 2 ^ s) k,
        digit-shl b s k,
        digit-ge (e - s + 1) b (k - s),
        digit-lt a k,
        digit-lt b (k - s),
      ))
