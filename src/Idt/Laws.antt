-- ===== src/Idt/Laws.antt =====
-- What `idt_init` of idt.c leaves in the interrupt table.
use maple_kernel.Base.{
  ℕ, zero, suc, ◌+◌, ◌*◌, ◌/◌, ◌^◌, ◌≡◌, inl, inr, refl, sym, ap, ◌∙◌, arith, bit_and, Bool, true,
  false, not, ◌&&◌, ◌||◌, some, ltb, leb, ◌==◌, if◌then◌else◌, Bool-cases, u32, update,
}
use maple_kernel.Idt.{
  Entry, Idt, is_valid_gate_type32, idt_set_descriptor, set_up, init_range, gt32_ig32,
}

-- What a present gate of a 32-bit interrupt, for the kernel only, holds.
abbrev pub gate_of : ℕ → Entry
gate_of isr = record {
  isr_offset_low = bit_and (u32 isr) 0xFFFF;
  kernel_cs = record { rpl = 0; ti = 0; index = 2 };
  reserved = 0;
  gate_type = 0xe;
  bit_44_is_zero = 0;
  dpl = 0;
  present = true;
  isr_offset_high = u32 isr / 2 ^ 16;
}

-- The address in a gate, as the processor puts it together.
abbrev pub address_of : Entry → ℕ
address_of g = g.isr_offset_high * 2 ^ 16 + g.isr_offset_low

abbrev pub written : ℕ → ℕ → Idt → Idt
written vector isr idt = record idt { entry = update idt.entry vector (gate_of isr) }

abbrev pub marked : ℕ → Idt → Idt
marked vector idt = record idt { vectors = update idt.vectors vector true }

pub descriptor-written :
    (vector isr : ℕ) (idt : Idt)
    → idt_set_descriptor vector isr gt32_ig32 0 true idt ≡ some (written vector isr idt)
unfolding idt_set_descriptor is_valid_gate_type32
descriptor-written vector isr idt = refl

pub set_up-written :
    (vector isr : ℕ) (idt : Idt)
    → set_up vector isr idt ≡ some (marked vector (written vector isr idt))
unfolding set_up idt_set_descriptor is_valid_gate_type32
set_up-written vector isr idt = refl

-- What a loop leaves: the entries and marks of the vectors from `vector` to `vector + left` that it
-- does not skip.
module _ (stub : ℕ → ℕ) (skips : ℕ → Bool) where
  abbrev pub covers : ℕ → ℕ → ℕ → Bool
  covers vector left v = (leb vector v && ltb v (vector + left)) && not (skips v)

  pub record Filled (left vector : ℕ) (before after : Idt) : Type 0 where
    pub kept : after.limit ≡ before.limit
    pub entries :
        (v : ℕ)
        → after.entry v ≡ (if covers vector left v then gate_of (stub v) else before.entry v)
    pub marks : (v : ℕ) → after.vectors v ≡ (covers vector left v || before.vectors v)

  -- One vector more at the front of the range.
  covers-front :
      (vector left v : ℕ)
      → covers vector (suc left) v
        ≡ (if v == vector then not (skips v) else covers (vector + 1) left v)
  covers-front vector left v = elim (Bool-cases (v == vector)) [
    | inl e ↦ rw (e) (ground (arith, e))
    | inr e ↦ rw (e) (ground (arith, e))
  ]

  skipped-Filled :
      (left vector : ℕ) (before after : Idt)
      → skips vector ≡ true
      → Filled left (vector + 1) before after
      → Filled (suc left) vector before after
  skipped-Filled left vector before after skip rest = record {
    kept = rest.kept;
    entries =
        λ v. rest.entries v ∙ ap (λ c. if c then gate_of (stub v) else before.entry v) (same v);
    marks = λ v. rest.marks v ∙ ap (λ c. c || before.vectors v) (same v);
  }
    where
      same : (v : ℕ) → covers (vector + 1) left v ≡ covers vector (suc left) v
      same v = sym (
          covers-front vector left v ∙ (elim (Bool-cases (v == vector)) [
            | inl e ↦
                let at : v ≡ vector = ground (arith, e) in
                rw (e, ap skips at ∙ skip) (ground (arith, at))
            | inr e ↦ rw (e) refl
          ]))

  taken-Filled :
      (left vector : ℕ) (before after : Idt)
      → skips vector ≡ false
      → Filled left (vector + 1) (marked vector (written vector (stub vector) before)) after
      → Filled (suc left) vector before after
  taken-Filled left vector before after skip rest = record {
    kept = rest.kept;
    entries = λ v. rest.entries v ∙ (elim (Bool-cases (v == vector)) [
      | inl e ↦
          ap
            (λ c.
              if c then gate_of (stub v) else update before.entry vector (gate_of (stub vector)) v)
            (behind v e)
          ∙ rw (e) (ap (λ k. gate_of (stub k)) (sym (same v e)))
          ∙ sym (ap (λ c. if c then gate_of (stub v) else before.entry v) (there v e))
      | inr e ↦ rw (covers-front vector left v, e) refl
    ]);
    marks = λ v. rest.marks v ∙ (elim (Bool-cases (v == vector)) [
      | inl e ↦
          ap (λ c. c || update before.vectors vector true v) (behind v e)
          ∙ rw (e) refl
          ∙ sym (ap (λ c. c || before.vectors v) (there v e))
      | inr e ↦ rw (covers-front vector left v, e) refl
    ]);
  }
    where
      same : (v : ℕ) → (v == vector) ≡ true → v ≡ vector
      same v e = ground (arith, e)

      behind : (v : ℕ) → (v == vector) ≡ true → covers (vector + 1) left v ≡ false
      behind v e = let early : leb (vector + 1) v ≡ false = ground (arith, e) in rw (early) refl

      there : (v : ℕ) → (v == vector) ≡ true → covers vector (suc left) v ≡ true
      there v e = covers-front vector left v ∙ rw (e, ap skips (same v e) ∙ skip) refl

  pub init_range-Filled :
      (left vector : ℕ) (idt : Idt)
      → (after : Idt) × (init_range stub skips left vector idt ≡ some after)
        × Filled left vector idt after
  unfolding init_range
  init_range-Filled zero vector idt =
      (idt, refl, record { kept = refl; entries = λ v. ground arith; marks = λ v. ground arith })
  init_range-Filled (suc left) vector idt = elim (Bool-cases (skips vector)) [
    | inl e ↦
        let (after, runs, filled) = init_range-Filled left (vector + 1) idt in
        (after, rw (e) runs, skipped-Filled left vector idt after e filled)
    | inr e ↦
        let next = marked vector (written vector (stub vector) idt) in
        let (after, runs, filled) = init_range-Filled left (vector + 1) next in
        (
          after,
          rw (e, set_up-written vector (stub vector) idt) runs,
          taken-Filled left vector idt after e filled,
        )
  ]
