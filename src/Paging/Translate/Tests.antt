-- ===== src/Paging/Translate/Tests.antt =====
-- One page table by which the translations are tried, and instances of their laws.
use maple_kernel.Base.{
  ℕ, ◌+◌, ◌*◌, ◌/◌, ◌%◌, ◌^◌, ◌≡◌, ◌⊎◌, refl, arith, ltb, if◌then◌else◌, update,
}
use maple_kernel.Paging.Translate.{
  virt_to_phys, phys_to_virt, init_paging, scan_table, scan_directory, table_entry,
}
use maple_kernel.Paging.Translate.Laws.{IsMapped, IsWords, frame}
use maple_kernel.Paging.Translate.Scan.{virt_to_phys-phys_to_virt}
use maple_kernel.Paging.Translate.Identity.{IsStart, virt_to_phys-init_paging}

-- One table at address 0 that maps the first 4 MB to themselves.
abbrev pub one_directory : ℕ → ℕ
one_directory = update (λ i. 0) 0 1

abbrev pub one_table : ℕ → ℕ
one_table a = (a / 4 % 2 ^ 20) * 2 ^ 12 + 1

pub phys_to_virt_test : phys_to_virt one_directory one_table 0x1234 ≡ 0x1234
unfolding phys_to_virt scan_directory scan_table table_entry
phys_to_virt_test = refl

pub one_table-IsWords : IsWords one_directory one_table
one_table-IsWords = record { directory_words = λ i. ground arith; ram_words = λ a. omega arith }

virt_to_phys_test : virt_to_phys one_directory one_table 0x1234 ≡ 0x1234
unfolding virt_to_phys table_entry
virt_to_phys_test = refl

virt_to_phys-phys_to_virt_example :
    (IsMapped one_directory one_table (phys_to_virt one_directory one_table 0x1234) (frame 0x1234)
      × (virt_to_phys one_directory one_table (phys_to_virt one_directory one_table 0x1234)
          ≡ 0x1234))
    ⊎ ((phys_to_virt one_directory one_table 0x1234 ≡ 0)
        × ((virt : ℕ) → ¬ IsMapped one_directory one_table virt (frame 0x1234)))
virt_to_phys-phys_to_virt_example =
    virt_to_phys-phys_to_virt one_directory one_table one_table-IsWords 0x1234 (omega arith)

-- Before paging, with the page table at 0x8000.
pub start : IsStart 0x8000 (λ i. 0) (λ a. 0)
start = record {
  aligned = omega arith;
  table_fits = omega arith;
  nothing_present = λ i. refl;
  words = λ a. omega arith;
}

virt_to_phys-init_paging_example :
    virt_to_phys
      (init_paging 0x8000 (λ i. 0) (λ a. 0)).directory
      (init_paging 0x8000 (λ i. 0) (λ a. 0)).ram
      0x12345
    ≡ (if ltb 0x12345 (2 ^ 22) then 0x12345 else 0)
virt_to_phys-init_paging_example =
    virt_to_phys-init_paging 0x8000 (λ i. 0) (λ a. 0) start 0x12345 (omega arith)

pub phys_to_virt_page : phys_to_virt one_directory one_table 0x1000 ≡ 0x1000
unfolding phys_to_virt scan_directory scan_table table_entry
phys_to_virt_page = refl

pub one_table-IsMapped : IsMapped one_directory one_table 0x1000 (frame 0x1000)
one_table-IsMapped = record { in_directory = refl; in_table = refl; frame_eq = refl }

-- A word stored at 0x1000 lies outside the table.
pub virt_to_phys_header :
    (word : ℕ)
    → virt_to_phys one_directory (update one_table 0x1000 word) 0x1000
      ≡ virt_to_phys one_directory one_table 0x1000
unfolding virt_to_phys table_entry
virt_to_phys_header word = refl
