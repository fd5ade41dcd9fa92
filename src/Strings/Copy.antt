-- ===== src/Strings/Copy.antt =====
-- What `memcpy` and `memset` leave in memory.
use maple_kernel.Base.{
  ℕ, ◌+◌, ◌-◌, ◌≤◌, ◌%◌, ◌^◌, ◌≡◌, ◌⊎◌, inl, inr, arith, ltb, leb, ◌&&◌, if◌then◌else◌, ◌==◌,
  update, for_range_inv, u8, Bool-cases,
}
use maple_kernel.Strings.{memcpy, memset}

-- For source and destination that do not overlap, `memcpy` makes the `n` bytes of the destination
-- those of the source, and changes no other byte.
pub memcpy_lem :
    (dest src n : ℕ) (m : ℕ → ℕ) (a : ℕ)
    → (dest + n ≤ src) ⊎ (src + n ≤ dest)
    → memcpy dest src n m a ≡ (if leb dest a && ltb a (dest + n) then m (src + (a - dest)) else m a)
unfolding memcpy
memcpy_lem dest src n m a apart =
    for_range_inv
      (λ (k : ℕ) (mem : ℕ → ℕ).
        (b : ℕ) → mem b ≡ (if leb dest b && ltb b (dest + k) then m (src + (b - dest)) else m b))
      (λ i mem. update mem (dest + i) (mem (src + i))) n 0 n m (omega arith)
      (λ k mem lo hi h b. elim (Bool-cases (b == dest + k)) [
        | inl written ↦
            let at : b ≡ dest + k = ground arith in
            rw at (elim apart [
              | inl before ↦ ground (arith, h (src + k))
              | inr behind ↦ ground (arith, h (src + k))
            ])
        | inr other ↦ ground (arith, h b)
      ])
      (λ b. ground arith) a

-- `memset` makes the `n` bytes from `dest` on the low byte of `value`, and changes no other byte.
pub memset_lem :
    (dest value n : ℕ) (m : ℕ → ℕ) (a : ℕ)
    → memset dest value n m a ≡ (if leb dest a && ltb a (dest + n) then value % 2 ^ 8 else m a)
unfolding memset
memset_lem dest value n m a =
    for_range_inv
      (λ (k : ℕ) (mem : ℕ → ℕ).
        mem a ≡ (if leb dest a && ltb a (dest + k) then value % 2 ^ 8 else m a))
      (λ i mem. update mem (dest + i) (u8 value)) n 0 n m (omega arith)
      (λ k mem lo hi h. ground (arith, h)) (ground arith)
