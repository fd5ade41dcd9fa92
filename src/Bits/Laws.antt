-- ===== src/Bits/Laws.antt =====
-- What a caller relies on: writing a field and reading it back, and reading another field.
use maple_kernel.Base.{
  inl, inr, Bool-cases, ltb→lt, ℕ, ◌+◌, ◌-◌, ◌/◌, ◌%◌, ◌^◌, ◌≤◌, ◌<◌, bit_and, ◌≡◌, ap, ◌⊎◌, arith,
  u32, ltb, false,
}
use native.Mathlib.Nat.{one-le-pow, pow-le-pow_right}
use maple_kernel.Base.Digit.{
  digit, digit-lt, digit-ge, digit_ext, digit-bit_and, digit-ones, digit-shr, digit-mod, bit_and-le,
  bit_or-lt,
}
use maple_kernel.Bits.{
  shl32, shr32, generate_mask, generate_anti_mask, get_bits, get_bits2, set_bits,
}
use maple_kernel.Bits.Field.{IsField, shr32-eq, shl32-eq, digit-get_bits, digit-set_bits}

div-pow-le : (x s : ℕ) → x / 2 ^ s ≤ x
div-pow-le x s = omega (arith, one-le-pow s 2)

mod-pow-le : (x w : ℕ) → x % 2 ^ w ≤ x
mod-pow-le x w = omega arith

get_bits-lt : (v : ℕ) → v < 2 ^ 32 → (e s : ℕ) → get_bits v e s < 2 ^ 32
unfolding get_bits shr32
get_bits-lt v hv e s =
    omega
      (arith, bit_and-le v (generate_mask e s), div-pow-le (bit_and v (generate_mask e s)) (s % 32))

-- For a field of a 32-bit word, `getBits` is the number that its digits write:
-- the word without its low `s` digits, cut to `e - s + 1` digits.
pub get_bits-eq :
    {e s : ℕ} (v : ℕ) → IsField e s → v < 2 ^ 32 → get_bits v e s ≡ v / 2 ^ s % 2 ^ (e - s + 1)
get_bits-eq {e} {s} v f hv =
    digit_ext 32 _ _ (get_bits-lt v hv e s)
      (omega (arith, div-pow-le v s, mod-pow-le (v / 2 ^ s) (e - s + 1)))
      λ k hk.
        ground (arith, digit-get_bits v f k, digit-mod (e - s + 1) (v / 2 ^ s) k, digit-shr v s k)

-- `setBits` keeps to 32 bits.
pub set_bits-lt : (a b e s : ℕ) → a < 2 ^ 32 → set_bits a b e s < 2 ^ 32
unfolding set_bits shl32
set_bits-lt a b e s ha =
    bit_or-lt 32 _ _ (omega (arith, bit_and-le a (generate_anti_mask e s))) (omega arith)

field_value-lt : {e s b : ℕ} → IsField e s → b < 2 ^ (e - s + 1) → b < 2 ^ 32
field_value-lt {e} {s} f hb =
    let width : e - s + 1 ≤ 32 = omega arith in
    omega (arith, pow-le-pow_right {n = 2} (omega arith) width)

-- For a field of a 32-bit word: writing a value that fits the field and reading the field gives the
-- value.
pub get_bits-set_bits :
    {e s : ℕ} (a b : ℕ)
    → IsField e s
    → a < 2 ^ 32
    → b < 2 ^ (e - s + 1)
    → get_bits (set_bits a b e s) e s ≡ b
get_bits-set_bits {e} {s} a b f ha hb =
    digit_ext 32 _ _ (get_bits-lt _ (set_bits-lt a b e s ha) e s) (field_value-lt f hb) λ k hk.
      let back : s + k - s ≡ k = omega arith in
      ground (
        arith,
        digit-get_bits (set_bits a b e s) f k,
        digit-set_bits a b f hb (s + k),
        ap (digit b) back,
        digit-ge (e - s + 1) b k hb,
      )

-- For two fields of a 32-bit word that lie apart: writing a value that fits the one leaves the other
-- as it was.
pub get_bits-set_bits_other :
    {e s e' s' : ℕ} (a b : ℕ)
    → IsField e s
    → IsField e' s'
    → (e < s') ⊎ (e' < s)
    → a < 2 ^ 32
    → b < 2 ^ (e - s + 1)
    → get_bits (set_bits a b e s) e' s' ≡ get_bits a e' s'
get_bits-set_bits_other {e} {s} {e'} {s'} a b f f' apart ha hb =
    digit_ext 32 _ _ (get_bits-lt _ (set_bits-lt a b e s ha) e' s') (get_bits-lt a ha e' s') λ k hk.
      ground (
        arith,
        digit-get_bits (set_bits a b e s) f' k,
        digit-get_bits a f' k,
        digit-set_bits a b f hb (s' + k),
      )

short_mask : (w : ℕ) → w < 32 → u32 (shl32 1 w + 2 ^ 32 - 1) ≡ 2 ^ w - 1
short_mask w h =
    let half : w ≤ 31 = omega arith in
    omega (arith, shl32-eq 1 w h, one-le-pow w 2, pow-le-pow_right {n = 2} (omega arith) half)

-- `getBits2` reads a field shorter than the word as `getBits` does.
get_bits2-eq :
    {e s : ℕ} (v : ℕ) → IsField e s → e - s < 31 → v < 2 ^ 32 → get_bits2 v e s ≡ get_bits v e s
unfolding get_bits2
get_bits2-eq {e} {s} v f short hv =
    let in_order : ltb e s ≡ false = ground arith in
    rw (in_order, short_mask (e - s + 1) (omega arith), shr32-eq v s (omega arith))
      (digit_ext 32 _ _
        (omega (arith, div-pow-le v s, bit_and-le (v / 2 ^ s) (2 ^ (e - s + 1) - 1)))
        (get_bits-lt v hv e s)
        λ k hk. ground (
          arith,
          digit-get_bits v f k,
          digit-bit_and (v / 2 ^ s) (2 ^ (e - s + 1) - 1) k,
          digit-ones (e - s + 1) k,
          digit-shr v s k,
          digit-lt v (s + k),
        ))

-- For a field of a 32-bit word, `getBits` is the number that its digits write: the word without its
-- low `s` digits, cut to `e - s + 1` digits. `getBits2` reads a field shorter than the word as
-- `getBits` does.
pub get_bits-get_bits2 :
    {e s : ℕ} (v : ℕ)
    → IsField e s
    → v < 2 ^ 32
    → (get_bits v e s ≡ v / 2 ^ s % 2 ^ (e - s + 1))
      × ((get_bits2 v e s ≡ get_bits v e s) ⊎ (31 ≤ e - s))
get_bits-get_bits2 {e} {s} v f hv = (
  get_bits-eq v f hv,
  elim (Bool-cases (ltb (e - s) 31)) [
    | inl h ↦ inl (get_bits2-eq v f (ltb→lt (e - s) 31 h) hv)
    | inr h ↦ inr (ground (arith, h))
  ],
)
