-- ===== src/Numbers/Read.antt =====
-- `string_to_uint` on a string of digits.
use maple_kernel.Base.{
  ℕ, zero, suc, ◌+◌, ◌-◌, ◌*◌, ◌/◌, ◌%◌, ◌^◌, ◌<◌, ◌≤◌, ◌≡◌, refl, ap, ◌∙◌, arith, true, false,
  ◌==◌, some, u32, inl, inr, Bool-cases,
}
use native.Mathlib.Nat.{mul-add, mul_left_comm, mul_comm, mul-suc, mul_assoc}
use maple_kernel.Numbers.{
  Memory, strlen_from, strlen, uitoa, is_digit, char_to_uint, char_to_uint_invalid, read_digits,
  string_to_uint_from, string_to_uint,
}
use maple_kernel.Numbers.Decimal.{Holds, uitoa-Prints}

-- The digit that a character is.
char_to_uint_digit : (v : ℕ) → char_to_uint (0x30 + v % 10) ≡ v % 10
unfolding char_to_uint is_digit
char_to_uint_digit v = ground arith

power_split : (p v : ℕ) → p * v ≡ 10 * (p * (v / 10)) + p * (v % 10)
power_split p v = omega (
  arith,
  ap (λ (t : ℕ). p * t) (let parts : v ≡ 10 * (v / 10) + v % 10 = omega arith in parts),
  mul-add p (10 * (v / 10)) (v % 10),
  mul_left_comm p 10 (v / 10),
)

-- One digit moves from the rest to the sum; the power may wrap around once nothing is left.
next_sum :
    (sum p d q total : ℕ)
    → sum + (10 * (p * q) + p * d) ≡ total
    → total < 2 ^ 32
    → u32 (sum + u32 (d * p)) + u32 (p * 10) * q ≡ total
next_sum sum p d zero total split bound = omega (arith, split, bound, mul_comm d p)
next_sum sum p d (suc q) total split bound =
    let small : u32 (p * 10) ≡ p * 10 = omega (arith, split, bound, mul-suc p q) in
    omega (
      arith,
      split,
      bound,
      mul_comm d p,
      ap (λ (t : ℕ). t * suc q) small,
      mul_assoc p 10 (suc q),
      mul_left_comm p 10 (suc q),
    )

read_end :
    (fuel power sum str : ℕ) (mem : Memory)
    → mem str ≡ 0
    → read_digits (suc fuel) power sum str mem ≡ some sum
unfolding read_digits
read_end fuel power sum str mem e =
    let stop : (mem str == 0) ≡ true = ground (arith, e) in rw (stop) refl

read_digit :
    (fuel power sum str d : ℕ) (mem : Memory)
    → mem str ≡ 0x30 + d % 10
    → read_digits (suc fuel) power sum str mem
      ≡ read_digits fuel
          (u32 (power * 10))
          (u32 (sum + u32 (d % 10 * power)))
          (u32 (str + 2 ^ 32 - 1))
          mem
unfolding read_digits
read_digit fuel power sum str d mem e =
    let onward : (mem str == 0) ≡ false = ground (arith, e) in
    let value : char_to_uint (mem str) ≡ d % 10 = ap char_to_uint e ∙ char_to_uint_digit d in
    let valid : (d % 10 == char_to_uint_invalid) ≡ false = ground arith in
    rw (onward, value, valid) refl

-- The sum so far, and the rest of the number at the power reached, make the number.
read_digits_lem :
    (len value power sum a fuel : ℕ) (mem : Memory) (total : ℕ)
    → Holds len value a mem
    → len < fuel
    → 0 < a
    → a + len < 2 ^ 32
    → mem (a - 1) ≡ 0
    → sum + power * value ≡ total
    → total < 2 ^ 32
    → read_digits fuel power sum (a + len - 1) mem ≡ some total
read_digits_lem len value power sum a zero mem total holds enough ha room stop split bound =
    absurd (omega (arith, enough))
read_digits_lem zero value power sum a (suc fuel) mem total holds enough ha room stop split bound =
    read_end fuel power sum (a + 0 - 1) mem (ap mem (omega arith) ∙ stop)
    ∙ ap some (omega (arith, split, ap (λ (t : ℕ). power * t) holds))
read_digits_lem (suc len) value power sum a (suc fuel) mem total holds enough ha room stop split
      bound =
    read_digit fuel power sum (a + suc len - 1) value mem (ap mem (omega arith) ∙ holds.0)
    ∙ ap (λ str. read_digits fuel (u32 (power * 10)) (u32 (sum + u32 (value % 10 * power))) str mem)
        (omega (arith, ha, room))
    ∙ read_digits_lem len (value / 10) (u32 (power * 10)) (u32 (sum + u32 (value % 10 * power))) a
        fuel mem total holds.1 (omega (arith, enough)) ha (omega (arith, room)) stop
        (next_sum sum power (value % 10) (value / 10) total
          (omega (arith, split, power_split power value)) bound)
        bound

Holds-filled :
    (len value a : ℕ) (mem : Memory)
    → Holds len value a mem
    → (i : ℕ) → i < len
    → (mem (a + i) == 0) ≡ false
Holds-filled zero value a mem holds i h = absurd (omega (arith, h))
Holds-filled (suc len) value a mem holds i h = elim (Bool-cases (i == len)) [
  | inl e ↦
      let last : mem (a + i) ≡ 0x30 + value % 10 =
        ap (λ k. mem (a + k)) (ground (arith, e)) ∙ holds.0 in
      ground (arith, last)
  | inr e ↦ Holds-filled len (value / 10) a mem holds.1 i (ground (arith, e, h))
]

-- The length that `strlen` finds.
strlen_from_lem :
    (fuel len left at a : ℕ) (mem : Memory)
    → ((i : ℕ) → i < len → (mem (a + i) == 0) ≡ false)
    → at + left ≡ len
    → left < fuel
    → mem (a + len) ≡ 0
    → strlen_from fuel at a mem ≡ some len
unfolding strlen_from
strlen_from_lem zero len left at a mem filled split enough ended = absurd (omega (arith, enough))
strlen_from_lem (suc fuel) len zero at a mem filled split enough ended =
    let stop : (mem (a + at) == 0) ≡ true =
      let here : mem (a + at) ≡ 0 = ap (λ k. mem (a + k)) (omega (arith, split)) ∙ ended in
      ground (arith, here) in
    rw (stop) (ap some (omega (arith, split)))
strlen_from_lem (suc fuel) len (suc left) at a mem filled split enough ended =
    rw (filled at (omega (arith, split))) (
      strlen_from_lem fuel len left (at + 1) a mem filled (omega (arith, split))
        (omega (arith, enough)) ended)

read_back :
    (fuel value a len : ℕ) (mem : Memory)
    → Holds len value a mem
    → len ≤ 10
    → 10 < fuel
    → 0 < a
    → a + 10 < 2 ^ 32
    → mem (a - 1) ≡ 0
    → mem (a + len) ≡ 0
    → value < 2 ^ 32
    → string_to_uint fuel a mem ≡ some value
unfolding string_to_uint string_to_uint_from strlen
read_back fuel value a len mem holds short enough ha room stop ended bound =
    let found =
      strlen_from_lem fuel len len 0 a mem (Holds-filled len value a mem holds) (omega arith)
        (omega (arith, short, enough)) ended in
    rw (found) (
      ap (λ str. read_digits fuel 1 0 str mem) (omega (arith, short, ha, room))
      ∙ read_digits_lem len value 1 0 a fuel mem value holds (omega (arith, short, enough)) ha
          (omega (arith, short, room)) stop (omega arith) bound)

-- What `uitoa` writes for a 32-bit value, `string_to_uint` reads back, where the byte before the
-- buffer is 0, the buffer does not reach the end of the addresses, and the loops may take more than
-- 10 rounds.
pub string_to_uint-uitoa :
    (fuel value buffer : ℕ) (mem : Memory)
    → value < 2 ^ 32
    → 10 < fuel
    → 0 < buffer
    → buffer + 10 < 2 ^ 32
    → mem (buffer - 1) ≡ 0
    → string_to_uint fuel buffer (uitoa value buffer mem).1 ≡ some value
string_to_uint-uitoa fuel value buffer mem hv enough ha room stop =
    let printed = uitoa-Prints value buffer mem hv in
    read_back fuel value buffer (uitoa value buffer mem).0 (uitoa value buffer mem).1 printed.holds
      printed.short enough ha room (printed.kept (buffer - 1) (omega (arith, ha)) ∙ stop)
      printed.ended hv
