-- ===== src/Base/Step.antt =====
-- The lowest binary digit of `&` and `|`, from the meaning of the native operations: `digits` goes
-- through a number digit by digit, on a count of the digits that may be left.
use Prim.Native.Nat.{
  ℕ, zero, suc, ◌+◌, ◌-◌, ◌*◌, ◌/◌, ◌%◌, ◌≤◌, min, max, bit_and, bit_or, digits, bitwise,
  bit_and-bitwise, bit_or-bitwise,
}
use mathlib.Core.Path.{◌≡◌, refl, sym, ap, ◌∙◌}
use native.Mathlib.Omega.{arith}

module _ (rest : ℕ → ℕ) (op : ℕ → ℕ → ℕ) where
  -- A count that covers the number can be raised by one, and so by any amount.
  digits-one_more :
      (x y count : ℕ) → x ≤ count → digits rest op (suc count) x y ≡ digits rest op count x y
  digits-one_more zero y zero covers = refl
  digits-one_more (suc x) y zero covers = absurd (omega arith)
  digits-one_more zero y (suc count) covers = refl
  digits-one_more (suc x) y (suc count) covers =
      ap (λ (t : ℕ). t * 2 + op (suc x % 2) (y % 2))
        (digits-one_more (suc x / 2) (y / 2) count (omega arith))

  digits-spare : (spare x y : ℕ) → digits rest op (spare + x) x y ≡ digits rest op x x y
  digits-spare zero x y = let same : zero + x ≡ x = omega arith in rw same refl
  digits-spare (suc spare) x y =
      let next : suc spare + x ≡ suc (spare + x) = omega arith in
      rw next (digits-one_more x y (spare + x) (omega arith) ∙ digits-spare spare x y)

  bitwise-step :
      ((y : ℕ) → rest y ≡ rest (y / 2) * 2 + op 0 (y % 2))
      → (x y : ℕ) → bitwise rest op x y ≡ bitwise rest op (x / 2) (y / 2) * 2 + op (x % 2) (y % 2)
  bitwise-step at_end zero y = at_end y
  bitwise-step at_end (suc x) y =
      let split : x ≡ (x - suc x / 2) + suc x / 2 = omega arith in
      let half : digits rest op x (suc x / 2) (y / 2) ≡ bitwise rest op (suc x / 2) (y / 2) =
        ap (λ n. digits rest op n (suc x / 2) (y / 2)) split
        ∙ digits-spare (x - suc x / 2) (suc x / 2) (y / 2) in
      ap (λ (t : ℕ). t * 2 + op (suc x % 2) (y % 2)) half

pub bit_or_step : (a b : ℕ) → bit_or a b ≡ bit_or (a / 2) (b / 2) * 2 + max (a % 2) (b % 2)
bit_or_step a b =
    bit_or-bitwise a b
    ∙ bitwise-step (λ y. y) max (λ y. omega arith) a b
    ∙ ap (λ (t : ℕ). t * 2 + max (a % 2) (b % 2)) (sym (bit_or-bitwise (a / 2) (b / 2)))

pub bit_and_step : (a b : ℕ) → bit_and a b ≡ bit_and (a / 2) (b / 2) * 2 + min (a % 2) (b % 2)
bit_and_step a b =
    bit_and-bitwise a b
    ∙ bitwise-step (λ y. 0) min (λ y. omega arith) a b
    ∙ ap (λ (t : ℕ). t * 2 + min (a % 2) (b % 2)) (sym (bit_and-bitwise (a / 2) (b / 2)))
