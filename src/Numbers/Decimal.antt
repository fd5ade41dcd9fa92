-- ===== src/Numbers/Decimal.antt =====
-- `uitoa` and the decimal digits of a number.
use maple_kernel.Base.{
  ℕ, zero, suc, ◌+◌, ◌-◌, ◌/◌, ◌%◌, ◌^◌, ◌<◌, ◌≤◌, ◌≡◌, refl, ap, subst, ◌∙◌, arith, false, ltb,
  ltb→lt, ◌==◌, update, update_self, update_ne, inl, inr, Bool-cases,
}
use native.Mathlib.Nat.{le_refl, pow-suc}
use maple_kernel.Numbers.{Memory, write_digits, reverse_between, uitoa}
use maple_kernel.Numbers.Reverse.{reverse_outside, reverse_inside}

-- The digit at place `i`.
abbrev pub digit : ℕ → ℕ → ℕ
digit zero v = v % 10
digit (suc i) v = digit i (v / 10)

-- `v` has exactly `n` digits.
abbrev pub HasLength : ℕ → ℕ → Type 0
HasLength zero v = v ≡ 0
HasLength (suc n) v = (0 < v) × HasLength n (v / 10)

-- The memory from `a` on holds `len` digits that write `v`, the highest first.
abbrev pub Holds : ℕ → ℕ → ℕ → Memory → Type 0
Holds zero v a mem = v ≡ 0
Holds (suc len) v a mem = (mem (a + len) ≡ 0x30 + v % 10) × Holds len (v / 10) a mem

-- What the first loop leaves.
pub record Written (buffer pos value : ℕ) (before : Memory) (after : ℕ × Memory) : Type 0 where
  pub count : ℕ
  pub ends : after.0 ≡ pos + count
  pub exact : HasLength count value
  pub digits : (i : ℕ) → i < count → after.1 (buffer + pos + i) ≡ 0x30 + digit i value
  pub below : (a : ℕ) → a < buffer + pos → after.1 a ≡ before a

digits_next :
    (count value at : ℕ) (after : Memory)
    → after at ≡ 0x30 + value % 10
    → ((i : ℕ) → i < count → after (at + 1 + i) ≡ 0x30 + digit i (value / 10))
    → (i : ℕ) → i < suc count
    → after (at + i) ≡ 0x30 + digit i value
digits_next count value at after first rest zero h = ap after (omega arith) ∙ first
digits_next count value at after first rest (suc i) h =
    ap after (omega arith) ∙ rest i (omega (arith, h))

one_more :
    (fuel value pos buffer : ℕ) (mem : Memory)
    → 0 < value
    → Written buffer (pos + 1) (value / 10) (update mem (buffer + pos) (0x30 + value % 10)) (
        write_digits fuel
          (value / 10)
          (pos + 1)
          buffer
          (update mem (buffer + pos) (0x30 + value % 10)))
    → Written buffer pos value mem (
        write_digits fuel
          (value / 10)
          (pos + 1)
          buffer
          (update mem (buffer + pos) (0x30 + value % 10)))
one_more fuel value pos buffer mem h rest = record {
  count = suc rest.count;
  ends = omega (arith, rest.ends);
  exact = (h, rest.exact);
  digits = λ i l.
      digits_next rest.count value (buffer + pos)
        (write_digits fuel (value / 10) (pos + 1) buffer
          (update mem (buffer + pos) (0x30 + value % 10))).1
        (rest.below (buffer + pos) (omega arith)
          ∙ update_self mem (buffer + pos) (0x30 + value % 10))
        (λ k hk.
          ap
            (write_digits fuel (value / 10) (pos + 1) buffer
              (update mem (buffer + pos) (0x30 + value % 10))).1
            (omega arith)
          ∙ rest.digits k hk)
        i l;
  below = λ a l.
      rest.below a (omega (arith, l))
      ∙ update_ne mem (buffer + pos) (0x30 + value % 10) a (omega (arith, l));
}

write_digits-Written :
    (fuel value pos buffer : ℕ) (mem : Memory)
    → value ≤ fuel
    → Written buffer pos value mem (write_digits fuel value pos buffer mem)
unfolding write_digits
write_digits-Written zero value pos buffer mem h = record {
  count = 0;
  ends = omega arith;
  exact = omega arith;
  digits = λ i l. absurd (omega (arith, l));
  below = λ a l. refl;
}
write_digits-Written (suc fuel) value pos buffer mem h =
    let rest =
      write_digits-Written fuel (value / 10) (pos + 1) buffer
        (update mem (buffer + pos) (0x30 + value % 10)) (omega arith) in
    elim (Bool-cases (ltb 0 value)) [
      | inl e ↦ rw (e) (one_more fuel value pos buffer mem (ltb→lt 0 value e) rest)
      | inr e ↦ rw (e) (record {
        count = 0;
        ends = omega arith;
        exact = ground (arith, e);
        digits = λ i l. absurd (omega (arith, l));
        below = λ a l. refl;
      })
    ]

-- Digits that stand from the highest to the lowest.
in_order :
    (len value a : ℕ) (mem : Memory)
    → HasLength len value
    → ((i : ℕ) → i < len → mem (a + (len - 1 - i)) ≡ 0x30 + digit i value)
    → Holds len value a mem
in_order zero value a mem exact digits = exact
in_order (suc len) value a mem exact digits = (
  ap (λ i. mem (a + i)) (omega arith) ∙ digits 0 (omega arith),
  in_order len (value / 10) a mem exact.1
      (λ i h. ap (λ k. mem (a + k)) (omega (arith, h)) ∙ digits (suc i) (omega (arith, h))),
)

HasLength-positive : (len value : ℕ) → 0 < value → HasLength len value → 0 < len
HasLength-positive zero value h exact = omega (arith, h, exact)
HasLength-positive (suc len) value h exact = omega arith

-- The string of a number: its digits, and a 0 behind them.
pub record Prints (value buffer : ℕ) (before : Memory) (after : ℕ × Memory) : Type 0 where
  pub holds : Holds after.0 value buffer after.1
  pub short : after.0 ≤ 10
  pub ended : after.1 (buffer + after.0) ≡ 0
  pub kept : (a : ℕ) → a < buffer → after.1 a ≡ before a

HasLength-short : (k len value : ℕ) → HasLength len value → value < 10 ^ k → len ≤ k
HasLength-short k zero value exact h = omega arith
HasLength-short zero (suc len) value exact h = absurd (omega (arith, exact.0, h))
HasLength-short (suc k) (suc len) value exact h =
    omega (arith, HasLength-short k len (value / 10) exact.1 (omega (arith, h, pow-suc 10 k)))

reversed :
    (value buffer : ℕ) (mem : Memory) (after : ℕ × Memory)
    → 0 < value
    → value < 2 ^ 32
    → Written buffer 0 value mem after
    → Prints value buffer mem (
      after.0,
      reverse_between after.0 0 (after.0 - 1) buffer (update after.1 (buffer + after.0) 0),
    )
reversed value buffer mem after h hv w =
    let some_digits : 0 < after.0 =
      omega (arith, HasLength-positive w.count value h w.exact, w.ends) in
    record {
      holds =
          in_order after.0 value buffer _
            (subst (λ n. HasLength n value) (omega (arith, w.ends)) w.exact)
            (λ i l.
              reverse_inside after.0 0 (after.0 - 1) buffer (update after.1 (buffer + after.0) 0)
                (after.0 - 1 - i) (omega arith) (omega arith) (omega arith)
              ∙ update_ne after.1 (buffer + after.0) 0
                  (buffer + (0 + (after.0 - 1) - (after.0 - 1 - i))) (omega (arith, l))
              ∙ ap after.1 (omega (arith, l))
              ∙ w.digits i (omega (arith, l, w.ends)));
      short = omega (arith, w.ends, HasLength-short 10 w.count value w.exact (omega (arith, hv)));
      ended =
          reverse_outside after.0 0 (after.0 - 1) buffer (update after.1 (buffer + after.0) 0)
            (buffer + after.0) (inr (omega (arith, some_digits)))
          ∙ update_self after.1 (buffer + after.0) 0;
      kept = λ a l.
          reverse_outside after.0 0 (after.0 - 1) buffer (update after.1 (buffer + after.0) 0) a
            (inl (omega (arith, l)))
          ∙ update_ne after.1 (buffer + after.0) 0 a (omega (arith, l))
          ∙ w.below a (omega (arith, l));
    }

zero_printed :
    (buffer : ℕ) (mem : Memory)
    → Prints 0 buffer mem (1, update (update mem buffer 0x30) (buffer + 1) 0)
zero_printed buffer mem = record {
  holds = (
    update_ne (update mem buffer 0x30) (buffer + 1) 0 (buffer + 0) (omega arith)
        ∙ ap (update mem buffer 0x30) (omega arith)
        ∙ update_self mem buffer 0x30,
    omega arith,
  );
  short = omega arith;
  ended = update_self (update mem buffer 0x30) (buffer + 1) 0;
  kept = λ a l.
      update_ne (update mem buffer 0x30) (buffer + 1) 0 a (omega (arith, l))
      ∙ update_ne mem buffer 0x30 a (omega (arith, l));
}

-- `uitoa` of a 32-bit value writes at most 10 digits, which are those of the value, from the highest
-- to the lowest, and a 0 behind them, and changes nothing before the buffer.
pub uitoa-Prints :
    (value buffer : ℕ) (mem : Memory)
    → value < 2 ^ 32
    → Prints value buffer mem (uitoa value buffer mem)
unfolding uitoa
uitoa-Prints zero buffer mem hv = zero_printed buffer mem
uitoa-Prints (suc value) buffer mem hv =
    let not_zero : (suc value == 0) ≡ false = ground arith in
    rw (not_zero) (
      reversed (suc value) buffer mem (write_digits (suc value) (suc value) 0 buffer mem)
        (omega arith) hv
        (write_digits-Written (suc value) (suc value) 0 buffer mem (le_refl (suc value))))
