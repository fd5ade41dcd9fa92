-- ===== src/Paging/Translate/Scan.antt =====
-- `phys_to_virt`: what its two loops find, and that `virt_to_phys` leads back.
use maple_kernel.Base.{
  ℕ, zero, suc, ◌+◌, ◌*◌, ◌/◌, ◌%◌, ◌^◌, ◌≤◌, ◌<◌, ◌≡◌, ◌≢◌, ◌⊎◌, inl, inr, true, false, ◌∙◌,
  Option, none, some, arith, ◌==◌, if◌then◌else◌, Bool-cases, Option-cases, subst,
}
use maple_kernel.Base.Digit.{bit_and-ones}
use maple_kernel.Paging.Translate.Laws.{
  IsWords, frame, frame_mask, entry_of, present_bit, address_eq, IsMapped, table_entry-eq,
  virt_to_phys_mapped,
}
use maple_kernel.Paging.Translate.{virt_to_phys, scan_table, scan_directory, phys_to_virt}

module _ (directory ram : ℕ → ℕ) (w : IsWords directory ram) where
  scan_table-suc :
      (phys pd left pt : ℕ)
      → phys < 2 ^ 32
      → pd < 2 ^ 10
      → pt < 2 ^ 10
      → scan_table directory ram phys pd (directory pd) (suc left) pt ≡ (
          if entry_of ram (directory pd) pt % 2 == 0
          then scan_table directory ram phys pd (directory pd) left (pt + 1)
          else if frame (entry_of ram (directory pd) pt) == frame phys
          then some ((pd * 2 ^ 10 + pt) * 2 ^ 12 + phys % 2 ^ 12)
          else scan_table directory ram phys pd (directory pd) left (pt + 1))
  unfolding scan_table
  scan_table-suc phys pd left pt hp hpd hpt =
      let entry = entry_of ram (directory pd) pt in
      rw (
        table_entry-eq directory ram w pd pt,
        present_bit entry,
        frame_mask entry (w.ram_words (frame (directory pd) + 4 * pt)),
        frame_mask phys hp,
        bit_and-ones 12 phys,
        address_eq pd pt (phys % 2 ^ 12) hpd hpt (omega arith),
      )

  -- The address that the scan returns is mapped by the entries that the scan has read.
  returned_IsMapped :
      (phys pd pt o : ℕ)
      → pd < 2 ^ 10
      → pt < 2 ^ 10
      → o < 2 ^ 12
      → directory pd % 2 ≡ 1
      → entry_of ram (directory pd) pt % 2 ≡ 1
      → frame (entry_of ram (directory pd) pt) ≡ frame phys
      → IsMapped directory ram ((pd * 2 ^ 10 + pt) * 2 ^ 12 + o) (frame phys)
  returned_IsMapped phys pd pt o hpd hpt ho on on' same =
      let pd_back : ((pd * 2 ^ 10 + pt) * 2 ^ 12 + o) / 2 ^ 22 % 2 ^ 10 ≡ pd = omega arith in
      let pt_back : ((pd * 2 ^ 10 + pt) * 2 ^ 12 + o) / 2 ^ 12 % 2 ^ 10 ≡ pt = omega arith in
      record {
        in_directory = rw pd_back on;
        in_table = rw (pd_back, pt_back) on';
        frame_eq = rw (pd_back, pt_back) same;
      }

  -- A scan of the rest of one table finds an address that the table maps to the frame of `phys`,
  -- or the rest of the table maps none.
  abbrev TableScan : ℕ → ℕ → ℕ → Option ℕ → Type 0
  TableScan phys pd pt (some v) =
      IsMapped directory ram v (frame phys) × (v % 2 ^ 12 ≡ phys % 2 ^ 12) × (v < 2 ^ 32)
  TableScan phys pd pt none =
      (k : ℕ)
      → pt ≤ k
      → k < 2 ^ 10
      → entry_of ram (directory pd) k % 2 ≡ 1
      → frame (entry_of ram (directory pd) k) ≢ frame phys

  TableScan-skip :
      (phys pd pt : ℕ) (r : Option ℕ)
      → TableScan phys pd (pt + 1) r
      → (entry_of ram (directory pd) pt % 2 ≡ 1
          → frame (entry_of ram (directory pd) pt) ≢ frame phys)
      → TableScan phys pd pt r
  TableScan-skip phys pd pt (some v) t other = t
  TableScan-skip phys pd pt none t other = λ k lo hi on same. elim (Bool-cases (k == pt)) [
    | inl here ↦ let at : k ≡ pt = ground arith in other (rw (← at) on) (rw (← at) same)
    | inr later ↦ t k (ground arith) hi on same
  ]

  scan_table-TableScan :
      (phys pd left pt : ℕ)
      → phys < 2 ^ 32
      → pd < 2 ^ 10
      → pt + left ≡ 2 ^ 10
      → directory pd % 2 ≡ 1
      → TableScan phys pd pt (scan_table directory ram phys pd (directory pd) left pt)
  unfolding scan_table
  scan_table-TableScan phys pd zero pt hp hpd e on = λ k lo hi. absurd (omega arith)
  scan_table-TableScan phys pd (suc left) pt hp hpd e on =
      let rest = scan_table-TableScan phys pd left (pt + 1) hp hpd (omega arith) on in
      rw (scan_table-suc phys pd left pt hp hpd (omega arith))
        (elim (Bool-cases (entry_of ram (directory pd) pt % 2 == 0)) [
          | inl off ↦ rw off (TableScan-skip phys pd pt _ rest (λ on'. absurd (ground arith)))
          | inr on' ↦
              rw on' (elim (Bool-cases (frame (entry_of ram (directory pd) pt) == frame phys)) [
                | inl same ↦ rw same (
                  returned_IsMapped phys pd pt (phys % 2 ^ 12) hpd (omega arith) (omega arith) on
                      (ground arith) (ground arith),
                  omega arith,
                  omega arith,
                )
                | inr other ↦ rw other (TableScan-skip phys pd pt _ rest (λ _. ground arith))
              ])
        ])

  -- A scan of the rest of the directory finds a mapped address, or no table of the rest maps one.
  abbrev DirectoryScan : ℕ → ℕ → Option ℕ → Type 0
  DirectoryScan phys pd (some v) =
      IsMapped directory ram v (frame phys) × (v % 2 ^ 12 ≡ phys % 2 ^ 12) × (v < 2 ^ 32)
  DirectoryScan phys pd none =
      (i k : ℕ)
      → pd ≤ i
      → i < 2 ^ 10
      → k < 2 ^ 10
      → directory i % 2 ≡ 1
      → entry_of ram (directory i) k % 2 ≡ 1
      → frame (entry_of ram (directory i) k) ≢ frame phys

  DirectoryScan-skip :
      (phys pd : ℕ) (r : Option ℕ)
      → DirectoryScan phys (pd + 1) r
      → ((k : ℕ)
          → k < 2 ^ 10
          → directory pd % 2 ≡ 1
          → entry_of ram (directory pd) k % 2 ≡ 1
          → frame (entry_of ram (directory pd) k) ≢ frame phys)
      → DirectoryScan phys pd r
  DirectoryScan-skip phys pd (some v) t other = t
  DirectoryScan-skip phys pd none t other = λ i k lo hi hk on on' same.
      elim (Bool-cases (i == pd)) [
        | inl here ↦
            let at : i ≡ pd = ground arith in
            other k hk (rw (← at) on) (rw (← at) on') (rw (← at) same)
        | inr later ↦ t i k (ground arith) hi hk on on' same
      ]

  scan_directory-found :
      (phys pd left v : ℕ)
      → directory pd % 2 ≡ 1
      → scan_table directory ram phys pd (directory pd) 1024 0 ≡ some v
      → scan_directory directory ram phys (suc left) pd ≡ some v
  unfolding scan_directory
  scan_directory-found phys pd left v on e =
      let is_on : (directory pd % 2 == 0) ≡ false = ground arith in
      rw (present_bit (directory pd), is_on, e)

  scan_directory-next :
      (phys pd left : ℕ)
      → (directory pd % 2 ≡ 0) ⊎ (scan_table directory ram phys pd (directory pd) 1024 0 ≡ none)
      → scan_directory directory ram phys (suc left) pd
        ≡ scan_directory directory ram phys left (pd + 1)
  unfolding scan_directory
  scan_directory-next phys pd left (inl off) =
      let is_off : (directory pd % 2 == 0) ≡ true = ground arith in
      rw (present_bit (directory pd), is_off)
  scan_directory-next phys pd left (inr e) = elim (Bool-cases (directory pd % 2 == 0)) [
    | inl off ↦ rw (present_bit (directory pd), off)
    | inr on ↦ rw (present_bit (directory pd), on, e)
  ]

  scan_directory-DirectoryScan :
      (phys left pd : ℕ)
      → phys < 2 ^ 32
      → pd + left ≡ 2 ^ 10
      → DirectoryScan phys pd (scan_directory directory ram phys left pd)
  unfolding scan_directory
  scan_directory-DirectoryScan phys zero pd hp e = λ i k lo hi. absurd (omega arith)
  scan_directory-DirectoryScan phys (suc left) pd hp e =
      let rest = scan_directory-DirectoryScan phys left (pd + 1) hp (omega arith) in
      elim (Bool-cases (directory pd % 2 == 0)) [
        | inl off ↦
            rw (scan_directory-next phys pd left (inl (ground arith)))
              (DirectoryScan-skip phys pd _ rest (λ k hk on. absurd (ground arith)))
        | inr on ↦ elim (Option-cases (scan_table directory ram phys pd (directory pd) 1024 0)) [
          | inl nothing ↦
              let table : TableScan phys pd 0 none = subst (TableScan phys pd 0) nothing (
                scan_table-TableScan phys pd 1024 0 hp (omega arith) (omega arith)
                  (ground arith)) in
              rw (scan_directory-next phys pd left (inr nothing))
                (DirectoryScan-skip phys pd _ rest (λ k hk _. table k (omega arith) hk))
          | inr (v, found) ↦ rw (scan_directory-found phys pd left v (ground arith) found) (
              subst (TableScan phys pd 0) found
                (scan_table-TableScan phys pd 1024 0 hp (omega arith) (omega arith) (ground arith)))
        ]
      ]

  scanned :
      (phys : ℕ)
      → phys < 2 ^ 32
      → scan_directory directory ram phys 1024 0 ≡ none
      → DirectoryScan phys 0 none
  scanned phys hp nothing =
      subst (DirectoryScan phys 0) nothing
        (scan_directory-DirectoryScan phys 1024 0 hp (omega arith))

  -- For a 32-bit address and entries that are 32-bit words: either `phys_to_virt` returns an address
  -- that is mapped to the frame and that `virt_to_phys` takes back to the physical address, or it
  -- returns NULL and no address is mapped to the frame.
  pub virt_to_phys-phys_to_virt :
      (phys : ℕ)
      → phys < 2 ^ 32
      → (IsMapped directory ram (phys_to_virt directory ram phys) (frame phys)
          × (virt_to_phys directory ram (phys_to_virt directory ram phys) ≡ phys))
        ⊎ ((phys_to_virt directory ram phys ≡ 0)
            × ((virt : ℕ) → ¬ IsMapped directory ram virt (frame phys)))
  unfolding phys_to_virt
  virt_to_phys-phys_to_virt phys hp =
      elim (Option-cases (scan_directory directory ram phys 1024 0)) [
        | inl nothing ↦ inr (
          rw (nothing, phys_to_virt),
          λ virt m.
              scanned phys hp nothing (virt / 2 ^ 22 % 2 ^ 10) (virt / 2 ^ 12 % 2 ^ 10)
                (omega arith) (omega arith) (omega arith) m.in_directory m.in_table m.frame_eq,
        )
        | inr (v, found) ↦
            let scan =
              subst (DirectoryScan phys 0) found
                (scan_directory-DirectoryScan phys 1024 0 hp (omega arith)) in
            let back : phys_to_virt directory ram phys ≡ v = rw (found, phys_to_virt) in
            rw back (
              inl (
                scan.0,
                virt_to_phys_mapped directory ram w v (frame phys) scan.0 ∙ ground (arith, scan.1),
              ))
      ]
