-- ===== src/Pic/Masks.antt =====
-- Which lines are masked after each function.
use maple_kernel.Base.{
  ℕ, ◌-◌, ◌%◌, ◌^◌, ◌≤◌, ◌<◌, ◌≡◌, bit_and, bit_or, arith, u8, u32, ltb, ◌==◌, if◌then◌else◌,
  for_range_inv, Bool-cases, inl, inr, refl, ◌∙◌,
}
use native.Mathlib.Nat.{pow-le-pow_right}
use maple_kernel.Base.Digit.{
  digit, digit-lt, digit-bit_and, digit-bit_or, digit-mod, digit-not, digit-pow, digit-ones,
}
use maple_kernel.Pic.{
  Ports, unused_port, io_wait, pic1_data, pic2_data, irq_set_mask, irq_clear_mask, disable_pic,
  initialize_irqs,
}

-- What the data ports of two 8259 controllers do: a read gives the mask that was last written, and
-- a write to one leaves the mask of the other.
pub record IsPic (D : Type 0) (ports : Ports D) : Type 0 where
  pub read_back_1 : (v : ℕ) (d : D) → v < 2 ^ 8 → ports.inb pic1_data (ports.outb pic1_data v d) ≡ v
  pub read_back_2 : (v : ℕ) (d : D) → v < 2 ^ 8 → ports.inb pic2_data (ports.outb pic2_data v d) ≡ v
  pub keeps_1 :
      (v : ℕ) (d : D) → ports.inb pic1_data (ports.outb pic2_data v d) ≡ ports.inb pic1_data d
  pub keeps_2 :
      (v : ℕ) (d : D) → ports.inb pic2_data (ports.outb pic1_data v d) ≡ ports.inb pic2_data d

-- 1 for a line that is masked.
abbrev pub masked : {D : Type 0} → Ports D → ℕ → D → ℕ
masked ports k d =
    if ltb k 8 then digit (ports.inb pic1_data d) k else digit (ports.inb pic2_data d) (k - 8)

line_bit : (k : ℕ) → k < 8 → u32 (2 ^ (k % 32)) ≡ 2 ^ k
line_bit k h =
    let less : k ≤ 7 = omega arith in
    let same : k % 32 ≡ k = omega arith in
    rw same (omega (arith, pow-le-pow_right {n = 2} (omega arith) less))

-- A mask with one digit set, and with one digit cleared.
digit-set :
    (x i k : ℕ)
    → i < 8
    → k < 8
    → digit (u8 (bit_or x (u32 (2 ^ (i % 32))))) k ≡ (if k == i then 1 else digit x k)
digit-set x i k hi hk = rw (line_bit i hi) (
    ground (
      arith,
      digit-mod 8 (bit_or x (2 ^ i)) k,
      digit-bit_or x (2 ^ i) k,
      digit-pow i k,
      digit-lt x k,
    ))

digit-clear :
    (x i k : ℕ)
    → i < 8
    → k < 8
    → digit (u8 (bit_and x (2 ^ 32 - 1 - u32 (2 ^ (i % 32))))) k ≡ (if k == i then 0 else digit x k)
digit-clear x i k hi hk =
    let less : i ≤ 7 = omega arith in
    rw (line_bit i hi) (
      ground (
        arith,
        digit-mod 8 (bit_and x (2 ^ 32 - 1 - 2 ^ i)) k,
        digit-bit_and x (2 ^ 32 - 1 - 2 ^ i) k,
        digit-not 32 (2 ^ i) k (omega (arith, pow-le-pow_right {n = 2} (omega arith) less)),
        digit-pow i k,
        digit-lt x k,
      ))

mod_small : (x : ℕ) → u8 x < 2 ^ 8
mod_small x = omega arith

module _ {D : Type 0} (ports : Ports D) (pic : IsPic D ports) where
  -- A write to one mask, as the states of all lines see it.
  write_1-masked :
      (v k : ℕ) (d : D)
      → v < 2 ^ 8
      → masked ports k (ports.outb pic1_data v d)
        ≡ (if ltb k 8 then digit v k else masked ports k d)
  write_1-masked v k d h = ground (arith, pic.read_back_1 v d h, pic.keeps_2 v d)

  write_2-masked :
      (v k : ℕ) (d : D)
      → v < 2 ^ 8
      → masked ports k (ports.outb pic2_data v d)
        ≡ (if ltb k 8 then masked ports k d else digit v (k - 8))
  write_2-masked v k d h = ground (arith, pic.read_back_2 v d h, pic.keeps_1 v d)

  -- For a line below 16 and ports that behave as those of the two controllers, `IRQ_set_mask` masks
  -- the line and leaves the other 15 lines as they were.
  irq_set_mask_lem :
      (line k : ℕ) (d : D)
      → line < 16
      → k < 16
      → masked ports k (irq_set_mask ports line d) ≡ (if k == line then 1 else masked ports k d)
  unfolding irq_set_mask
  irq_set_mask_lem line k d hl hk = elim (Bool-cases (ltb line 8)) [
    | inl first ↦
        let v = u8 (bit_or (ports.inb pic1_data d) (u32 (2 ^ (line % 32)))) in
        let written : irq_set_mask ports line d ≡ ports.outb pic1_data v d =
          rw (irq_set_mask, first) refl in
        rw (written, write_1-masked v k d (mod_small _))
          (ground (arith, digit-set (ports.inb pic1_data d) line k (ground arith)))
    | inr second ↦
        let v = u8 (bit_or (ports.inb pic2_data d) (u32 (2 ^ ((line - 8) % 32)))) in
        let written : irq_set_mask ports line d ≡ ports.outb pic2_data v d =
          rw (irq_set_mask, second) refl in
        rw (written, write_2-masked v k d (mod_small _))
          (ground (arith, digit-set (ports.inb pic2_data d) (line - 8) (k - 8) (ground arith)))
  ]

  -- For a line below 16 and ports that behave as those of the two controllers, `IRQ_clear_mask`
  -- unmasks the line and leaves the other 15 lines as they were.
  irq_clear_mask_lem :
      (line k : ℕ) (d : D)
      → line < 16
      → k < 16
      → masked ports k (irq_clear_mask ports line d) ≡ (if k == line then 0 else masked ports k d)
  unfolding irq_clear_mask
  irq_clear_mask_lem line k d hl hk = elim (Bool-cases (ltb line 8)) [
    | inl first ↦
        let v = u8 (bit_and (ports.inb pic1_data d) (2 ^ 32 - 1 - u32 (2 ^ (line % 32)))) in
        let written : irq_clear_mask ports line d ≡ ports.outb pic1_data v d =
          rw (irq_clear_mask, first) refl in
        rw (written, write_1-masked v k d (mod_small _))
          (ground (arith, digit-clear (ports.inb pic1_data d) line k (ground arith)))
    | inr second ↦
        let v = u8 (bit_and (ports.inb pic2_data d) (2 ^ 32 - 1 - u32 (2 ^ ((line - 8) % 32)))) in
        let written : irq_clear_mask ports line d ≡ ports.outb pic2_data v d =
          rw (irq_clear_mask, second) refl in
        rw (written, write_2-masked v k d (mod_small _))
          (ground (arith, digit-clear (ports.inb pic2_data d) (line - 8) (k - 8) (ground arith)))
  ]

  -- For lines below 16 and ports that behave as those of the two controllers, `IRQ_set_mask` masks the
  -- line that it is given, `IRQ_clear_mask` unmasks it, and both leave the other 15 lines as they
  -- were.
  pub irq_masks_lem :
      (line k : ℕ) (d : D)
      → line < 16
      → k < 16
      → (masked ports k (irq_set_mask ports line d) ≡ (if k == line then 1 else masked ports k d))
        × (masked ports k (irq_clear_mask ports line d)
            ≡ (if k == line then 0 else masked ports k d))
  irq_masks_lem line k d hl hk =
      (irq_set_mask_lem line k d hl hk, irq_clear_mask_lem line k d hl hk)

  -- With ports that behave as those of the two controllers, and where a write to the unused port
  -- leaves the masks, all 16 lines are masked after `initialize_irqs`, and also after `disable_pic`.
  pub all-masked :
      (k : ℕ) (d : D)
      → k < 16
      → ((v : ℕ) (d' : D) → masked ports k (ports.outb unused_port v d') ≡ masked ports k d')
      → (masked ports k (initialize_irqs ports d) ≡ 1) × (masked ports k (disable_pic ports d) ≡ 1)
  unfolding initialize_irqs disable_pic io_wait
  all-masked k d hk unused = (
    for_range_inv
          (λ (j : ℕ) (d' : D). masked ports k d' ≡ (if ltb k j then 1 else masked ports k d))
          (λ i d'. irq_set_mask ports i d') 16 0 16 d (omega arith)
          (λ j d' lo hi h. irq_set_mask_lem j k d' hi hk ∙ ground (arith, h)) (ground arith)
        ∙ ground arith,
    unused 0 (ports.outb pic2_data 0xff (ports.outb pic1_data 0xff (irq_set_mask ports 0 d)))
        ∙ write_2-masked 0xff k (ports.outb pic1_data 0xff (irq_set_mask ports 0 d)) (omega arith)
        ∙ ground (
          arith,
          write_1-masked 0xff k (irq_set_mask ports 0 d) (omega arith),
          digit-ones 8 k,
          digit-ones 8 (k - 8),
        ),
  )
