-- ===== src/Base/Digit.antt =====
-- The binary digits of a number, and what `&`, `|`, shifts and complements do to each digit.
use maple_kernel.Base.Tests.{ltb, ◌==◌, if◌then◌else◌}
use maple_kernel.Base.Step.{bit_or_step, bit_and_step}
use Prim.Native.Nat.{
  ℕ, zero, suc, ◌+◌, ◌-◌, ◌*◌, ◌/◌, ◌%◌, ◌^◌, ◌≤◌, ◌<◌, min, max, bit_and, bit_or, bit_and-bitwise,
  bit_or-bitwise,
}
use mathlib.Core.Path.{◌≡◌, refl, sym, ap, ◌∙◌}
use native.Mathlib.Nat.{
  le_refl, le-add_right, le-add_left, pow-le-pow_right, pow-suc, pow-succ', mul-one, sub-zero,
  zero-add, one-le-pow, div-div-eq-div-mul, div-mul-le_self, mod-eq-sub-div-mul,
}
use native.Mathlib.Omega.{arith}

bit_and-le_fuel : (n a b : ℕ) → a ≤ n → bit_and a b ≤ a
bit_and-le_fuel zero zero b h = omega (arith, bit_and-bitwise 0 b)
bit_and-le_fuel zero (suc a) b h = absurd (omega arith)
bit_and-le_fuel (suc n) zero b h = omega (arith, bit_and-bitwise 0 b)
bit_and-le_fuel (suc n) (suc a) b h =
    omega (arith, bit_and_step (suc a) b, bit_and-le_fuel n (suc a / 2) (b / 2) (omega arith))

pub bit_and-le : (a b : ℕ) → bit_and a b ≤ a
bit_and-le a b = bit_and-le_fuel a a b (le_refl a)

pub bit_or-lt : (w a b : ℕ) → a < 2 ^ w → b < 2 ^ w → bit_or a b < 2 ^ w
bit_or-lt zero a b ha hb =
    let no_a : a ≡ 0 = omega arith in
    let no_b : b ≡ 0 = omega arith in rw (no_a, no_b) (omega arith)
bit_or-lt (suc w) a b ha hb = omega (
  arith,
  pow-suc 2 w,
  bit_or_step a b,
  bit_or-lt w (a / 2) (b / 2) (omega (arith, pow-suc 2 w)) (omega (arith, pow-suc 2 w)),
)

twice_pow : (x s : ℕ) → x * 2 ^ suc s ≡ 2 * (x * 2 ^ s)
twice_pow x s = omega (arith, ap (λ (t : ℕ). x * t) (pow-suc 2 s))

bit_or-zero_fuel : (n a : ℕ) → a ≤ n → bit_or a 0 ≡ a
bit_or-zero_fuel zero zero h = omega (arith, bit_or-bitwise 0 0)
bit_or-zero_fuel zero (suc a) h = absurd (omega arith)
bit_or-zero_fuel (suc n) zero h = omega (arith, bit_or-bitwise 0 0)
bit_or-zero_fuel (suc n) (suc a) h =
    omega (arith, bit_or_step (suc a) 0, bit_or-zero_fuel n (suc a / 2) (omega arith))

pub bit_or-zero : (a : ℕ) → bit_or a 0 ≡ a
bit_or-zero a = bit_or-zero_fuel a a (le_refl a)

-- `|` of two numbers that share no digit is their sum.
pub bit_or-shl : (k q r : ℕ) → r < 2 ^ k → bit_or (q * 2 ^ k) r ≡ q * 2 ^ k + r
bit_or-shl zero q r h =
    let nothing : r ≡ 0 = omega arith in
    let same : q * 2 ^ 0 ≡ q = omega arith in rw (nothing, same, bit_or-zero q) (omega arith)
bit_or-shl (suc k) q r h =
    let half : q * 2 ^ suc k / 2 ≡ q * 2 ^ k = omega (arith, twice_pow q k) in
    rw (bit_or_step (q * 2 ^ suc k) r, half)
      (omega
        (arith, pow-suc 2 k, twice_pow q k, bit_or-shl k q (r / 2) (omega (arith, pow-suc 2 k))))

-- The digit of weight `2 ^ k`, by recursion on `k`.
abbrev pub digit : ℕ → ℕ → ℕ
digit x zero = x % 2
digit x (suc k) = digit (x / 2) k

pub digit-lt : (x k : ℕ) → digit x k < 2
digit-lt x zero = omega arith
digit-lt x (suc k) = digit-lt (x / 2) k

pub digit-bit_and : (a b k : ℕ) → digit (bit_and a b) k ≡ min (digit a k) (digit b k)
digit-bit_and a b zero = omega (arith, bit_and_step a b)
digit-bit_and a b (suc k) =
    let half : bit_and a b / 2 ≡ bit_and (a / 2) (b / 2) = omega (arith, bit_and_step a b) in
    rw half (digit-bit_and (a / 2) (b / 2) k)

pub digit-bit_or : (a b k : ℕ) → digit (bit_or a b) k ≡ max (digit a k) (digit b k)
digit-bit_or a b zero = omega (arith, bit_or_step a b)
digit-bit_or a b (suc k) =
    let half : bit_or a b / 2 ≡ bit_or (a / 2) (b / 2) = omega (arith, bit_or_step a b) in
    rw half (digit-bit_or (a / 2) (b / 2) k)

pub digit-zero : (k : ℕ) → digit 0 k ≡ 0
digit-zero zero = refl
digit-zero (suc k) = digit-zero k

-- A number of `w` digits has no digit from `w` on.
pub digit-ge : (w x k : ℕ) → x < 2 ^ w → w ≤ k → digit x k ≡ 0
digit-ge zero x k hx hk = let none_left : x ≡ 0 = omega arith in rw none_left (digit-zero k)
digit-ge (suc w) x zero hx hk = absurd (omega arith)
digit-ge (suc w) x (suc k) hx hk = digit-ge w (x / 2) k (omega (arith, pow-suc 2 w)) (omega arith)

-- Two numbers of `w` digits are equal if their digits are.
pub digit_ext :
    (w x y : ℕ) → x < 2 ^ w → y < 2 ^ w → ((k : ℕ) → k < w → digit x k ≡ digit y k) → x ≡ y
digit_ext zero x y hx hy same = omega arith
digit_ext (suc w) x y hx hy same = omega (
  arith,
  same 0 (omega arith),
  digit_ext w (x / 2) (y / 2) (omega (arith, pow-suc 2 w)) (omega (arith, pow-suc 2 w))
      (λ k h. same (suc k) (omega arith)),
)

self-lt-pow : (n : ℕ) → n < 2 ^ n
self-lt-pow zero = omega arith
self-lt-pow (suc n) = omega (arith, pow-suc 2 n, self-lt-pow n)

pub bit_or_comm : (a b : ℕ) → bit_or a b ≡ bit_or b a
bit_or_comm a b =
    digit_ext (a + b) _ _ (bit_or-lt (a + b) a b ha hb) (bit_or-lt (a + b) b a hb ha)
      λ k h. omega (arith, digit-bit_or a b k, digit-bit_or b a k)
  where
    ha : a < 2 ^ (a + b)
    ha = omega (arith, self-lt-pow a, pow-le-pow_right {n = 2} (omega arith) (le-add_right a b))

    hb : b < 2 ^ (a + b)
    hb = omega (arith, self-lt-pow b, pow-le-pow_right {n = 2} (omega arith) (le-add_left b a))

-- A left shift.
pub digit-shl : (x s k : ℕ) → digit (x * 2 ^ s) k ≡ (if ltb k s then 0 else digit x (k - s))
digit-shl x zero k =
    ground (arith, ap (λ (t : ℕ). digit t k) (mul-one x), ap (λ (t : ℕ). digit x t) (sub-zero k))
digit-shl x (suc s) zero = ground (arith, twice_pow x s)
digit-shl x (suc s) (suc k) =
    let half : x * 2 ^ suc s / 2 ≡ x * 2 ^ s = omega (arith, twice_pow x s) in
    let less : suc k - suc s ≡ k - s = omega arith in
    rw (half, less) (digit-shl x s k ∙ ground arith)

pub half_shift : (x s : ℕ) → x / 2 ^ suc s ≡ x / 2 / 2 ^ s
half_shift x s = ap (λ (t : ℕ). x / t) (pow-succ' 2 s) ∙ sym (div-div-eq-div-mul x 2 (2 ^ s))

-- A right shift.
pub digit-shr : (x s k : ℕ) → digit (x / 2 ^ s) k ≡ digit x (s + k)
digit-shr x zero k = let same : x / 2 ^ 0 ≡ x = omega arith in rw (same, zero-add)
digit-shr x (suc s) k =
    let more : suc s + k ≡ suc (s + k) = omega arith in
    rw (half_shift x s, more) (digit-shr (x / 2) s k)

mod_split : (w x : ℕ) → x % 2 ^ suc w ≡ 2 * (x / 2 % 2 ^ w) + x % 2
mod_split w x = omega (
  arith,
  half_shift x w,
  mod-eq-sub-div-mul x (2 ^ suc w),
  mod-eq-sub-div-mul (x / 2) (2 ^ w),
  div-mul-le_self (x / 2) (2 ^ w),
  ap (λ (t : ℕ). t * 2 ^ suc w) (half_shift x w),
  twice_pow (x / 2 / 2 ^ w) w,
)

-- A cast to `w` digits.
pub digit-mod : (w x k : ℕ) → digit (x % 2 ^ w) k ≡ (if ltb k w then digit x k else 0)
digit-mod zero x k = ground (arith, digit-zero k, ap (λ (t : ℕ). digit t k) (mod_one x))
  where
    mod_one : (y : ℕ) → y % 2 ^ 0 ≡ 0
    mod_one y = omega arith
digit-mod (suc w) x zero = ground (arith, mod_split w x)
digit-mod (suc w) x (suc k) =
    let half : x % 2 ^ suc w / 2 ≡ x / 2 % 2 ^ w = omega (arith, mod_split w x) in
    rw half (digit-mod w (x / 2) k ∙ ground arith)

-- The number whose `w` low digits are all one.
pub digit-ones : (w k : ℕ) → digit (2 ^ w - 1) k ≡ (if ltb k w then 1 else 0)
digit-ones zero k = ground (arith, digit-zero k)
digit-ones (suc w) zero = ground (arith, pow-suc 2 w, one-le-pow w 2)
digit-ones (suc w) (suc k) =
    let half : (2 ^ suc w - 1) / 2 ≡ 2 ^ w - 1 = omega (arith, pow-suc 2 w, one-le-pow w 2) in
    rw half (digit-ones w k ∙ ground arith)

-- The complement within `w` digits.
pub digit-not : (w x k : ℕ) → x < 2 ^ w → k < w → digit (2 ^ w - 1 - x) k ≡ 1 - digit x k
digit-not zero x k hx hk = absurd (omega arith)
digit-not (suc w) x zero hx hk = omega (arith, pow-suc 2 w)
digit-not (suc w) x (suc k) hx hk =
    let half : (2 ^ suc w - 1 - x) / 2 ≡ 2 ^ w - 1 - x / 2 = omega (arith, pow-suc 2 w) in
    rw half (digit-not w (x / 2) k (omega (arith, pow-suc 2 w)) (omega arith))

-- A single one: the digit `i` of `2 ^ k`, and `&` with it.
digit-one : (k : ℕ) → digit 1 k ≡ (if k == 0 then 1 else 0)
digit-one zero = refl
digit-one (suc k) = digit-zero k ∙ ground arith

pub digit-pow : (k i : ℕ) → digit (2 ^ k) i ≡ (if i == k then 1 else 0)
digit-pow k i =
    let whole : 2 ^ k ≡ 1 * 2 ^ k = omega arith in
    rw whole (digit-shl 1 k i ∙ ground (arith, digit-one (i - k)))

pub bit_and-zero : (x : ℕ) → bit_and x 0 ≡ 0
bit_and-zero x =
    digit_ext x _ _ (omega (arith, bit_and-le x 0, self-lt-pow x)) (omega (arith, self-lt-pow x))
      λ k h. omega (arith, digit-bit_and x 0 k, digit-zero k)

pub bit_and-pow : (k x : ℕ) → bit_and x (2 ^ k) ≡ digit x k * 2 ^ k
bit_and-pow zero x = omega (arith, bit_and_step x 1, bit_and-zero (x / 2))
bit_and-pow (suc k) x =
    let half : 2 ^ suc k / 2 ≡ 2 ^ k = omega (arith, pow-suc 2 k) in
    rw (bit_and_step x (2 ^ suc k), half)
      (omega (arith, pow-suc 2 k, twice_pow (digit (x / 2) k) k, bit_and-pow k (x / 2)))

-- `&` with a mask of `k` low ones.
pub bit_and-ones : (k x : ℕ) → bit_and x (2 ^ k - 1) ≡ x % 2 ^ k
bit_and-ones k x =
    digit_ext x _ _ (omega (arith, bit_and-le x (2 ^ k - 1), self-lt-pow x))
      (omega (arith, self-lt-pow x))
      λ i h.
        ground (arith, digit-bit_and x (2 ^ k - 1) i, digit-ones k i, digit-mod k x i, digit-lt x i)

-- `&` with a mask of `w` ones above `k` zeros.
pub bit_and-high :
    (w k x : ℕ) → x < 2 ^ (k + w) → bit_and x ((2 ^ w - 1) * 2 ^ k) ≡ x / 2 ^ k * 2 ^ k
bit_and-high w k x hx =
    digit_ext (k + w) _ _ (omega (arith, bit_and-le x ((2 ^ w - 1) * 2 ^ k)))
      (omega (arith, div-mul-le_self x (2 ^ k)))
      λ i h.
        let back : k + (i - k) ≡ max k i = omega arith in
        ground (
          arith,
          digit-bit_and x ((2 ^ w - 1) * 2 ^ k) i,
          digit-shl (2 ^ w - 1) k i,
          digit-ones w (i - k),
          digit-shl (x / 2 ^ k) k i,
          digit-shr x k (i - k),
          digit-lt x i,
        )
