-- ===== src/Format/Sizes.antt =====
-- How many digits a number has: `binary_size` and `hexSize` of bit_hex_string.c.
use maple_kernel.Base.{
  ℕ, zero, suc, ◌+◌, ◌/◌, ◌%◌, ◌^◌, ◌≤◌, ◌<◌, ◌≡◌, ◌⊎◌, ◌-◌, refl, sym, subst, arith, false, ltb,
  ◌==◌, ltb→lt, Bool-cases, inl, inr, u8,
}
use native.Mathlib.Nat.{le_refl, pow-suc}
use maple_kernel.Format.{size_from, binary_size, hex_size}

-- The hexadecimal digit at place `k`.
abbrev pub nibble : ℕ → ℕ → ℕ
nibble zero v = v % 16
nibble (suc k) v = nibble k (v / 16)

-- `v` has exactly `n` binary digits, and hexadecimal digits.
abbrev pub HasBits : ℕ → ℕ → Type 0
HasBits zero v = v ≡ 0
HasBits (suc n) v = (0 < v) × HasBits n (v / 2)

abbrev pub HasNibbles : ℕ → ℕ → Type 0
HasNibbles zero v = v ≡ 0
HasNibbles (suc n) v = (0 < v) × HasNibbles n (v / 16)

size_from-HasBits :
    (fuel v bits : ℕ) → v ≤ fuel → (n : ℕ) × (size_from fuel v bits ≡ bits + n) × HasBits n v
unfolding size_from
size_from-HasBits zero v bits h = (0, omega arith, omega (arith, h))
size_from-HasBits (suc fuel) v bits h = elim (Bool-cases (ltb 0 v)) [
  | inl e ↦
      let rest = size_from-HasBits fuel (v / 2) (bits + 1) (omega (arith, h)) in
      (suc rest.0, rw (e) (omega (arith, rest.1)), (ltb→lt 0 v e, rest.2))
  | inr e ↦ (0, rw (e) (omega arith), ground (arith, e))
]

HasBits-short : (k n v : ℕ) → HasBits n v → v < 2 ^ k → n ≤ k
HasBits-short k zero v exact h = omega arith
HasBits-short zero (suc n) v exact h = absurd (omega (arith, exact.0, h))
HasBits-short (suc k) (suc n) v exact h =
    omega (arith, HasBits-short k n (v / 2) exact.1 (omega (arith, h, pow-suc 2 k)))

pub binary_size-HasBits :
    (v : ℕ) → 0 < v → v < 2 ^ 32 → HasBits (binary_size v) v × (binary_size v ≤ 32)
unfolding binary_size
binary_size-HasBits v h hv =
    let (n, same, exact) = size_from-HasBits v v 0 (le_refl v) in
    let short = HasBits-short 32 n v exact hv in
    let value : u8 (size_from v v 0) ≡ n = omega (arith, same, short) in
    let not_zero : (v == 0) ≡ false = ground (arith, h) in rw (not_zero, value) (exact, short)

-- Four binary digits make a hexadecimal one.
abbrev quarter : ℕ → ℕ
quarter n = (n + 3) / 4

HasNibbles-quarter : (n v : ℕ) → HasBits n v → HasNibbles (quarter n) v
HasNibbles-quarter zero v exact = exact
HasNibbles-quarter (suc zero) v exact = (exact.0, omega (arith, exact.1))
HasNibbles-quarter (suc (suc zero)) v exact = (exact.0, omega (arith, exact.1.1))
HasNibbles-quarter (suc (suc (suc zero))) v exact = (exact.0, omega (arith, exact.1.1.1))
HasNibbles-quarter (suc (suc (suc (suc n)))) v exact =
    let count : quarter (suc (suc (suc (suc n)))) ≡ suc (quarter n) = omega arith in
    let quotient : v / 2 / 2 / 2 / 2 ≡ v / 16 = omega arith in
    subst (λ c. HasNibbles c v) (sym count)
      (exact.0, HasNibbles-quarter n (v / 16) (subst (HasBits n) quotient exact.1.1.1.1))

hex_size-quarter : (v : ℕ) → binary_size v ≤ 32 → hex_size v ≡ quarter (binary_size v)
unfolding hex_size
hex_size-quarter v h = ground (arith, h)

HasBits-positive : (n w : ℕ) → 0 < w → HasBits n w → 0 < n
HasBits-positive zero w hw e = omega (arith, hw, e)
HasBits-positive (suc n) w hw e = omega arith

pub hex_size-HasNibbles :
    (v : ℕ) → 0 < v → v < 2 ^ 32 → HasNibbles (hex_size v) v × (0 < hex_size v) × (hex_size v ≤ 8)
hex_size-HasNibbles v h hv =
    let (exact, short) = binary_size-HasBits v h hv in
    let size = hex_size-quarter v short in
    (
      subst (λ c. HasNibbles c v) (sym size) (HasNibbles-quarter (binary_size v) v exact),
      omega (arith, size, HasBits-positive (binary_size v) v h exact),
      omega (arith, size, short),
    )

pub hex_size-zero : hex_size 0 ≡ 1
unfolding hex_size binary_size
hex_size-zero = refl

pub hex_size-bounds : (v : ℕ) → v < 2 ^ 32 → (0 < hex_size v) × (hex_size v ≤ 8)
hex_size-bounds zero h = (omega (arith, hex_size-zero), omega (arith, hex_size-zero))
hex_size-bounds (suc v) h =
    let (exact, positive, short) = hex_size-HasNibbles (suc v) (omega arith) h in (positive, short)

pub binary_size-bounds : (v : ℕ) → v < 2 ^ 32 → (0 < binary_size v) × (binary_size v ≤ 32)
unfolding binary_size
binary_size-bounds zero h = (omega arith, omega arith)
binary_size-bounds (suc v) h =
    let (exact, short) = binary_size-HasBits (suc v) (omega arith) h in
    (HasBits-positive (binary_size (suc v)) (suc v) (omega arith) exact, short)

HasBits-lt : (n v : ℕ) → HasBits n v → v < 2 ^ n
HasBits-lt zero v h = omega (arith, h)
HasBits-lt (suc n) v h = let half = HasBits-lt n (v / 2) h.1 in omega (arith, half)

HasBits-le : (n v : ℕ) → HasBits (suc n) v → 2 ^ n ≤ v
HasBits-le zero v h = omega (arith, h.0)
HasBits-le (suc n) v h = let half = HasBits-le n (v / 2) h.1 in omega (arith, half)

-- `n` is the number of binary digits that `v` is written with: the least positive one that is enough.
abbrev pub IsSize : ℕ → ℕ → Type 0
IsSize n v = (v < 2 ^ n) × ((n ≡ 1) ⊎ ((1 < n) × (2 ^ (n - 1) ≤ v)))

HasBits-IsSize : (n v : ℕ) → 0 < v → HasBits n v → IsSize n v
HasBits-IsSize zero v h exact = absurd (omega (arith, h, exact))
HasBits-IsSize (suc zero) v h exact = (HasBits-lt 1 v exact, inl refl)
HasBits-IsSize (suc (suc n)) v h exact =
    let less : suc (suc n) - 1 ≡ suc n = omega arith in
    (HasBits-lt (suc (suc n)) v exact, inr (omega arith, rw (less) (HasBits-le (suc n) v exact)))

pub binary_size-IsSize : (v : ℕ) → v < 2 ^ 32 → IsSize (binary_size v) v
unfolding binary_size
binary_size-IsSize zero h = (omega arith, inl refl)
binary_size-IsSize (suc v) h =
    HasBits-IsSize (binary_size (suc v)) (suc v) (omega arith)
      (binary_size-HasBits (suc v) (omega arith) h).0
