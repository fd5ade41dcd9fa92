-- ===== src/Paging/Translate.antt =====
-- The page tables of other/virtual_memory.c: `init_paging`, `virt_to_phys` and `phys_to_virt`.
-- `ram` is the memory as the kernel's pointers see it, from the address of a word to the word.
pub mod Laws
pub mod Scan
pub mod Identity
pub mod Tests
use maple_kernel.Base.{
  ℕ, zero, suc, ◌+◌, ◌-◌, ◌*◌, ◌/◌, ◌%◌, ◌^◌, ◌≤◌, ◌<◌, ◌≡◌, Option, none, some, arith, bit_and,
  bit_or, u32, ◌==◌, if◌then◌else◌, update, for_range,
}
use maple_kernel.Paging.{page_size}

abbrev pub page_present : ℕ
page_present = 0x1

abbrev pub page_rw : ℕ
page_rw = 0x2

-- Where `first_page_table` lies is up to the linker. CR3 and CR0 are not modelled.
pub init_paging : ℕ → (ℕ → ℕ) → (ℕ → ℕ) → record { directory : ℕ → ℕ; ram : ℕ → ℕ }
init_paging first_page_table directory ram = record {
  directory = update directory 0 (bit_or (bit_or first_page_table page_present) page_rw);
  ram =
      for_range 1024 0
        (λ i m.
          update m (first_page_table + 4 * i)
            (bit_or (bit_or (i * page_size) page_present) page_rw))
        ram;
}

module _ (directory ram : ℕ → ℕ) where
  -- `pt[pt_index]` for the table that a directory entry points to.
  pub table_entry : ℕ → ℕ → ℕ
  table_entry pd_entry pt_index = ram (bit_and pd_entry 0xfffff000 + 4 * pt_index)

  pub virt_to_phys : ℕ → ℕ
  virt_to_phys virt_addr =
      let pd_index = bit_and (virt_addr / 2 ^ 22) 0x3ff in
      let pt_index = bit_and (virt_addr / 2 ^ 12) 0x3ff in
      let offset = bit_and virt_addr 0xfff in
      let pd_entry = directory pd_index in
      let pt_entry = table_entry pd_entry pt_index in
      if bit_and pd_entry page_present == 0
      then 0
      else if bit_and pt_entry page_present == 0
      then 0
      else u32 (bit_and pt_entry 0xfffff000 + offset)

  -- The two loops of `phys_to_virt`; `none` where a scan ends without a `return`.
  pub scan_table : ℕ → ℕ → ℕ → ℕ → ℕ → Option ℕ
  scan_table phys_addr pd_index pd_entry zero pt_index = none
  scan_table phys_addr pd_index pd_entry (suc left) pt_index =
      let pt_entry = table_entry pd_entry pt_index in
      let rest = scan_table phys_addr pd_index pd_entry left (pt_index + 1) in
      let virt_addr =
        bit_or (bit_or (u32 (pd_index * 2 ^ 22)) (u32 (pt_index * 2 ^ 12)))
          (bit_and phys_addr 0xfff) in
      if bit_and pt_entry page_present == 0
      then rest
      else if bit_and pt_entry 0xfffff000 == bit_and phys_addr 0xfffff000
      then some virt_addr
      else rest

  pub scan_directory : ℕ → ℕ → ℕ → Option ℕ
  scan_directory phys_addr zero pd_index = none
  scan_directory phys_addr (suc left) pd_index =
      let pd_entry = directory pd_index in
      let rest = scan_directory phys_addr left (pd_index + 1) in
      if bit_and pd_entry page_present == 0
      then rest
      else elim (scan_table phys_addr pd_index pd_entry 1024 0) [ none ↦ rest | some v ↦ some v ]

  pub phys_to_virt : ℕ → ℕ
  phys_to_virt phys_addr = elim (scan_directory phys_addr 1024 0) [ none ↦ 0 | some v ↦ v ]
