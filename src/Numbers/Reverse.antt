-- ===== src/Numbers/Reverse.antt =====
-- The loop that turns a string around.
use maple_kernel.Base.{
  ℕ, zero, suc, ◌+◌, ◌-◌, ◌<◌, ◌≤◌, ◌≡◌, ◌≢◌, ◌⊎◌, refl, ap, ◌∙◌, arith, ltb, ltb→lt, ◌==◌, update,
  inl, inr, Bool-cases,
}
use maple_kernel.Numbers.{Memory, reverse_between}

swap : ℕ → ℕ → ℕ → Memory → Memory
swap start end buffer mem =
    update (update mem (buffer + start) (mem (buffer + end))) (buffer + end) (mem (buffer + start))

swap_other :
    (start end buffer : ℕ) (mem : Memory) (a : ℕ)
    → a ≢ buffer + start
    → a ≢ buffer + end
    → swap start end buffer mem a ≡ mem a
unfolding swap
swap_other start end buffer mem a hs he = ground arith

swap_end :
    (start end buffer : ℕ) (mem : Memory)
    → swap start end buffer mem (buffer + end) ≡ mem (buffer + start)
unfolding swap
swap_end start end buffer mem = ground arith

swap_start :
    (start end buffer : ℕ) (mem : Memory)
    → start < end
    → swap start end buffer mem (buffer + start) ≡ mem (buffer + end)
unfolding swap
swap_start start end buffer mem h = ground arith

pub reverse_outside :
    (fuel start end buffer : ℕ) (mem : Memory) (a : ℕ)
    → (a < buffer + start) ⊎ (buffer + end < a)
    → reverse_between fuel start end buffer mem a ≡ mem a
unfolding reverse_between swap
reverse_outside zero start end buffer mem a h = refl
reverse_outside (suc fuel) start end buffer mem a h =
    let onward = reverse_outside fuel (start + 1) (end - 1) buffer (swap start end buffer mem) a in
    elim (Bool-cases (ltb start end)) [
      | inl e ↦ rw (e) (
          onward (ground (arith, e, h))
          ∙ swap_other start end buffer mem a (ground (arith, e, h)) (ground (arith, e, h)))
      | inr e ↦ rw (e) refl
    ]

-- The three places that an index may have in a round that swaps.
swapped_inside :
    (fuel start end buffer : ℕ) (mem : Memory) (j : ℕ)
    → end ≤ start + suc fuel
    → start ≤ j
    → j ≤ end
    → start < end
    → (end - 1 ≤ start + 1 + fuel
        → start + 1 ≤ j
        → j ≤ end - 1
        → reverse_between fuel (start + 1) (end - 1) buffer (swap start end buffer mem) (buffer + j)
          ≡ swap start end buffer mem (buffer + (start + 1 + (end - 1) - j)))
    → reverse_between fuel (start + 1) (end - 1) buffer (swap start end buffer mem) (buffer + j)
      ≡ mem (buffer + (start + end - j))
swapped_inside fuel start end buffer mem j h hs he hse onward = elim (Bool-cases (j == start)) [
  | inl e ↦
      let at : j ≡ start = ground (arith, e) in
      reverse_outside fuel (start + 1) (end - 1) buffer (swap start end buffer mem) (buffer + j)
        (inl (omega (arith, at)))
      ∙ ap (λ i. swap start end buffer mem (buffer + i)) at
      ∙ swap_start start end buffer mem hse
      ∙ ap (λ i. mem (buffer + i)) (omega (arith, at))
  | inr e ↦ elim (Bool-cases (j == end)) [
    | inl f ↦
        let at : j ≡ end = ground (arith, f) in
        reverse_outside fuel (start + 1) (end - 1) buffer (swap start end buffer mem) (buffer + j)
          (inr (omega (arith, at, hse)))
        ∙ ap (λ i. swap start end buffer mem (buffer + i)) at
        ∙ swap_end start end buffer mem
        ∙ ap (λ i. mem (buffer + i)) (omega (arith, at))
    | inr f ↦
        onward (omega (arith, h)) (ground (arith, e)) (ground (arith, f))
        ∙ swap_other start end buffer mem (buffer + (start + 1 + (end - 1) - j))
            (ground (arith, e, f)) (ground (arith, e, f))
        ∙ ap (λ i. mem (buffer + i)) (omega (arith, hse, hs, he))
  ]
]

pub reverse_inside :
    (fuel start end buffer : ℕ) (mem : Memory) (j : ℕ)
    → end ≤ start + fuel
    → start ≤ j
    → j ≤ end
    → reverse_between fuel start end buffer mem (buffer + j) ≡ mem (buffer + (start + end - j))
unfolding reverse_between swap
reverse_inside zero start end buffer mem j h hs he = ap (λ i. mem (buffer + i)) (omega arith)
reverse_inside (suc fuel) start end buffer mem j h hs he = elim (Bool-cases (ltb start end)) [
  | inl e ↦ rw (e) (
      swapped_inside fuel start end buffer mem j h hs he (ltb→lt start end e)
        (reverse_inside fuel (start + 1) (end - 1) buffer (swap start end buffer mem) j))
  | inr e ↦ rw (e) (ap (λ i. mem (buffer + i)) (ground (arith, e)))
]
