-- ===== src/Paging/Translate/Laws.antt =====
-- What the translations of other/virtual_memory.c compute, and how they go together.
use maple_kernel.Base.{
  ℕ, ◌+◌, ◌*◌, ◌/◌, ◌%◌, ◌^◌, ◌<◌, ◌≡◌, arith, bit_and, bit_or, u32, ◌==◌, if◌then◌else◌,
}
use maple_kernel.Base.Digit.{bit_and-ones, bit_and-high, bit_or-shl}
use maple_kernel.Paging.Translate.{table_entry, virt_to_phys}

-- Every entry is a 32-bit word.
pub record IsWords (directory ram : ℕ → ℕ) : Type 0 where
  pub directory_words : (i : ℕ) → directory i < 2 ^ 32
  pub ram_words : (a : ℕ) → ram a < 2 ^ 32

abbrev pub frame : ℕ → ℕ
frame x = x / 2 ^ 12 * 2 ^ 12

pub frame_mask : (x : ℕ) → x < 2 ^ 32 → bit_and x 0xfffff000 ≡ frame x
frame_mask x h = bit_and-high 20 12 x h

-- The entry of the table at index `pt` of a directory entry.
abbrev pub entry_of : (ℕ → ℕ) → ℕ → ℕ → ℕ
entry_of ram pd_entry pt = ram (frame pd_entry + 4 * pt)

virt_parts :
    (virt : ℕ)
    → (bit_and (virt / 2 ^ 22) 0x3ff ≡ virt / 2 ^ 22 % 2 ^ 10)
      × (bit_and (virt / 2 ^ 12) 0x3ff ≡ virt / 2 ^ 12 % 2 ^ 10)
      × (bit_and virt 0xfff ≡ virt % 2 ^ 12)
virt_parts virt =
    (bit_and-ones 10 (virt / 2 ^ 22), bit_and-ones 10 (virt / 2 ^ 12), bit_and-ones 12 virt)

pub present_bit : (x : ℕ) → bit_and x 1 ≡ x % 2
present_bit x = bit_and-ones 1 x

-- The address that `phys_to_virt` puts together.
pub address_eq :
    (pd pt o : ℕ)
    → pd < 2 ^ 10
    → pt < 2 ^ 10
    → o < 2 ^ 12
    → bit_or (bit_or (u32 (pd * 2 ^ 22)) (u32 (pt * 2 ^ 12))) o ≡ (pd * 2 ^ 10 + pt) * 2 ^ 12 + o
address_eq pd pt o hd ht ho =
    let cut_pd : u32 (pd * 2 ^ 22) ≡ pd * 2 ^ 22 = omega arith in
    let cut_pt : u32 (pt * 2 ^ 12) ≡ pt * 2 ^ 12 = omega arith in
    let low : pt * 2 ^ 12 < 2 ^ 22 = omega arith in
    let whole : pd * 2 ^ 22 + pt * 2 ^ 12 ≡ (pd * 2 ^ 10 + pt) * 2 ^ 12 = omega arith in
    rw (cut_pd, cut_pt, bit_or-shl 22 pd (pt * 2 ^ 12) low, whole)
      (bit_or-shl 12 (pd * 2 ^ 10 + pt) o ho)

-- Both entries of an address are present, and the second names the frame.
pub record IsMapped (directory ram : ℕ → ℕ) (virt frame_at : ℕ) : Type 0 where
  pub in_directory : directory (virt / 2 ^ 22 % 2 ^ 10) % 2 ≡ 1
  pub in_table : entry_of ram (directory (virt / 2 ^ 22 % 2 ^ 10)) (virt / 2 ^ 12 % 2 ^ 10) % 2 ≡ 1
  pub frame_eq :
      frame (entry_of ram (directory (virt / 2 ^ 22 % 2 ^ 10)) (virt / 2 ^ 12 % 2 ^ 10)) ≡ frame_at

module _ (directory ram : ℕ → ℕ) (w : IsWords directory ram) where
  pub table_entry-eq :
      (pd pt : ℕ) → table_entry directory ram (directory pd) pt ≡ entry_of ram (directory pd) pt
  unfolding table_entry
  table_entry-eq pd pt = rw (frame_mask (directory pd) (w.directory_words pd))

  -- `virt_to_phys` with its masks read as divisions.
  pub virt_to_phys-eq :
      (virt : ℕ)
      → let pd_entry = directory (virt / 2 ^ 22 % 2 ^ 10) in
        let pt_entry = entry_of ram pd_entry (virt / 2 ^ 12 % 2 ^ 10) in
        virt_to_phys directory ram virt ≡ (
          if pd_entry % 2 == 0
          then 0
          else if pt_entry % 2 == 0
          then 0
          else frame pt_entry + virt % 2 ^ 12)
  unfolding virt_to_phys
  virt_to_phys-eq virt =
      let pd = virt / 2 ^ 22 % 2 ^ 10 in
      let pt = virt / 2 ^ 12 % 2 ^ 10 in
      let entry = entry_of ram (directory pd) pt in
      let whole : u32 (frame entry + virt % 2 ^ 12) ≡ frame entry + virt % 2 ^ 12 =
        omega (arith, w.ram_words (frame (directory pd) + 4 * pt)) in
      rw (
        (virt_parts virt).0,
        (virt_parts virt).1,
        (virt_parts virt).2,
        table_entry-eq pd pt,
        present_bit (directory pd),
        present_bit entry,
        frame_mask entry (w.ram_words (frame (directory pd) + 4 * pt)),
        whole,
      )

  -- Of a mapped address `virt_to_phys` is the frame and the offset.
  pub virt_to_phys_mapped :
      (virt frame_at : ℕ)
      → IsMapped directory ram virt frame_at
      → virt_to_phys directory ram virt ≡ frame_at + virt % 2 ^ 12
  virt_to_phys_mapped virt frame_at m =
      ground (arith, virt_to_phys-eq virt, m.in_directory, m.in_table, m.frame_eq)
