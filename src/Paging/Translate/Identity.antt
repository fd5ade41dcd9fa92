-- ===== src/Paging/Translate/Identity.antt =====
-- `init_paging`: the first 4 MB are mapped to themselves, and nothing else is mapped.
use maple_kernel.Base.{
  ℕ, ◌+◌, ◌*◌, ◌/◌, ◌%◌, ◌^◌, ◌≤◌, ◌<◌, ◌≡◌, inl, inr, ◌∙◌, arith, bit_or, ◌==◌, if◌then◌else◌,
  update, for_range_inv, Bool-cases, ltb,
}
use maple_kernel.Base.Digit.{bit_or-zero}
use maple_kernel.Base.Step.{bit_or_step}
use maple_kernel.Paging.{page_size}
use maple_kernel.Paging.Translate.{page_present, page_rw, init_paging, virt_to_phys}
use maple_kernel.Paging.Translate.Laws.{IsWords, entry_of, frame, virt_to_phys-eq, IsMapped}

-- An entry with the flags "present" and "writable" over an aligned address.
flagged : (a : ℕ) → a % 4 ≡ 0 → bit_or (bit_or a 1) 2 ≡ a + 3
flagged a h =
    let low : bit_or a 1 ≡ a + 1 = omega (arith, bit_or_step a 1, bit_or-zero (a / 2)) in
    rw low (
      omega
        (arith, bit_or_step (a + 1) 2, bit_or_step ((a + 1) / 2) 1, bit_or-zero ((a + 1) / 2 / 2)))

-- Before paging is set up no entry of the directory is present, and the page table is aligned.
pub record IsStart (table : ℕ) (directory ram : ℕ → ℕ) : Type 0 where
  pub aligned : table % 2 ^ 12 ≡ 0
  pub table_fits : table + 2 ^ 12 ≤ 2 ^ 32
  pub nothing_present : (i : ℕ) → directory i ≡ 0
  pub words : (a : ℕ) → ram a < 2 ^ 32

module _ (table : ℕ) (directory ram : ℕ → ℕ) (st : IsStart table directory ram) where
  abbrev fill : ℕ → (ℕ → ℕ) → ℕ → ℕ
  fill i m = update m (table + 4 * i) (bit_or (bit_or (i * page_size) page_present) page_rw)

  entry_value : (i : ℕ) → bit_or (bit_or (i * page_size) 1) 2 ≡ i * page_size + 3
  entry_value i = flagged (i * page_size) (omega arith)

  table_filled :
      (k : ℕ) → k < 1024 → (init_paging table directory ram).ram (table + 4 * k) ≡ k * page_size + 3
  unfolding init_paging
  table_filled k hk = ground (
    arith,
    for_range_inv
        (λ (j : ℕ) (m : ℕ → ℕ).
          m (table + 4 * k) ≡ (if ltb k j then k * page_size + 3 else ram (table + 4 * k)))
        fill 1024 0 1024 ram (omega arith) (λ j m lo hi e. ground (arith, entry_value j))
        (ground arith),
  )

  directory_at :
      (i : ℕ) → (init_paging table directory ram).directory i ≡ (if i == 0 then table + 3 else 0)
  unfolding init_paging
  directory_at i = ground (arith, flagged table (omega (arith, st.aligned)), st.nothing_present i)

  pub init_paging-IsWords :
      IsWords (init_paging table directory ram).directory (init_paging table directory ram).ram
  unfolding init_paging
  init_paging-IsWords = record {
    directory_words = λ i. ground (arith, directory_at i, st.table_fits);
    ram_words =
        for_range_inv (λ (j : ℕ) (m : ℕ → ℕ). (a : ℕ) → m a < 2 ^ 32) fill 1024 0 1024 ram
          (omega arith) (λ j m lo hi e a. ground (arith, e a, entry_value j)) st.words;
  }

  frame_of_table : frame (table + 3) ≡ table
  frame_of_table = omega (arith, st.aligned)

  entry_at :
      (k : ℕ)
      → k < 1024
      → entry_of (init_paging table directory ram).ram (table + 3) k ≡ k * page_size + 3
  unfolding init_paging
  entry_at k hk = rw frame_of_table (table_filled k hk)

  -- After `init_paging`, from an empty directory and with an aligned page table, an address of the
  -- first 4 MB is its own physical address, and for any other 32-bit address `virt_to_phys` gives 0.
  pub virt_to_phys-init_paging :
      (virt : ℕ)
      → virt < 2 ^ 32
      → virt_to_phys
          (init_paging table directory ram).directory
          (init_paging table directory ram).ram
          virt
        ≡ (if ltb virt (2 ^ 22) then virt else 0)
  virt_to_phys-init_paging virt hv = elim (Bool-cases (virt / 2 ^ 22 % 2 ^ 10 == 0)) [
    | inl low ↦
        let first : virt / 2 ^ 22 % 2 ^ 10 ≡ 0 = ground arith in
        let entry : (init_paging table directory ram).directory 0 ≡ table + 3 =
          ground (arith, directory_at 0) in
        virt_to_phys-eq (init_paging table directory ram).directory
          (init_paging table directory ram).ram init_paging-IsWords virt
        ∙ rw (first, entry, entry_at (virt / 2 ^ 12 % 2 ^ 10) (omega arith))
            (ground (arith, st.aligned))
    | inr high ↦
        let absent : (init_paging table directory ram).directory (virt / 2 ^ 22 % 2 ^ 10) ≡ 0 =
          ground (arith, directory_at (virt / 2 ^ 22 % 2 ^ 10)) in
        virt_to_phys-eq (init_paging table directory ram).directory
          (init_paging table directory ram).ram init_paging-IsWords virt
        ∙ rw absent (ground arith)
  ]

  -- Only frames of the first 4 MB are mapped.
  pub unmapped-init_paging :
      (virt phys : ℕ)
      → 2 ^ 22 ≤ phys
      → ¬ IsMapped
          (init_paging table directory ram).directory
          (init_paging table directory ram).ram
          virt
          (frame phys)
  unmapped-init_paging virt phys h m =
      let first : virt / 2 ^ 22 % 2 ^ 10 ≡ 0 =
        ground (arith, directory_at (virt / 2 ^ 22 % 2 ^ 10), m.in_directory) in
      let entry : (init_paging table directory ram).directory (virt / 2 ^ 22 % 2 ^ 10) ≡ table + 3 =
        ground (arith, directory_at (virt / 2 ^ 22 % 2 ^ 10)) in
      let same = rw (entry, entry_at (virt / 2 ^ 12 % 2 ^ 10) (omega arith)) at m.frame_eq in
      omega (arith, same)
