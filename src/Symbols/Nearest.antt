-- ===== src/Symbols/Nearest.antt =====
-- `find_nearest_symbol` of symbols.c.
use maple_kernel.Base.{
  ℕ, ◌+◌, ◌-◌, ◌≤◌, ◌<◌, ◌≡◌, ◌≢◌, inl, inr, refl, sym, subst, arith, Bool, false, not, ◌&&◌, ltb,
  leb, ltb→lt, ◌==◌, if◌then◌else◌, none, some, Bool-cases, u32, for_range, for_range_inv,
}
use maple_kernel.Symbols.{Elf32Sym, Table, Best, ready, nearer, find_nearest_symbol}

module _ (symbol : ℕ → Elf32Sym) (strtab address : ℕ) where
  -- A symbol that may be the nearest: not behind the address, and not without a value.
  abbrev pub Before : ℕ → Type 0
  Before i = (0 < (symbol i).value) × ((symbol i).value ≤ address)

  -- Of the first `n` symbols, the first of those that have the highest value.
  pub data Nearest (n : ℕ) (best : Best) : Type 0 where
    nothing :
        best.best_name ≡ 0 → best.best_addr ≡ 0 → ((j : ℕ) → j < n → Before j → ⊥) → Nearest n best
    found :
        (i : ℕ)
        → i < n
        → Before i
        → best.best_name ≡ u32 (strtab + (symbol i).name)
        → best.best_addr ≡ (symbol i).value
        → ((j : ℕ) → j < n → Before j → (symbol j).value ≤ (symbol i).value)
        → ((j : ℕ) → j < i → Before j → (symbol j).value < (symbol i).value)
        → Nearest n best

  taken-Nearest :
      (i : ℕ) (best : Best)
      → Before i
      → best.best_addr < (symbol i).value
      → Nearest i best
      → Nearest
          (i + 1)
          (record { best_name = u32 (strtab + (symbol i).name); best_addr = (symbol i).value })
  taken-Nearest i best before higher (nothing name addr none_before) =
      found i (omega arith) before refl refl
        (λ j h b. elim (Bool-cases (j == i)) [
          | inl e ↦
              let at : j ≡ i = ground (arith, e) in
              subst (λ k. (symbol j).value ≤ (symbol k).value) at (omega arith)
          | inr e ↦ absurd (none_before j (ground (arith, e, h)) b)
        ])
        (λ j h b. absurd (none_before j h b))
  taken-Nearest i best before higher (found k hk bk name addr above first) =
      found i (omega arith) before refl refl
        (λ j h b. elim (Bool-cases (j == i)) [
          | inl e ↦
              let at : j ≡ i = ground (arith, e) in
              subst (λ k. (symbol j).value ≤ (symbol k).value) at (omega arith)
          | inr e ↦
              let h' : j < i = ground (arith, e, h) in omega (arith, above j h' b, addr, higher)
        ])
        (λ j h b. omega (arith, above j h b, addr, higher))

  kept-Nearest :
      (i : ℕ) (best : Best)
      → (Before i → (symbol i).value ≤ best.best_addr)
      → Nearest i best
      → Nearest (i + 1) best
  kept-Nearest i best low (nothing name addr none_before) = nothing name addr (λ j h b.
      elim (Bool-cases (j == i)) [
        | inl e ↦
            let at : j ≡ i = ground (arith, e) in
            let b' : Before i = subst Before at b in absurd (omega (arith, low b', b'.0, addr))
        | inr e ↦ none_before j (ground (arith, e, h)) b
      ])
  kept-Nearest i best low (found k hk bk name addr above first) =
      found k (omega (arith, hk)) bk name addr
        (λ j h b. elim (Bool-cases (j == i)) [
          | inl e ↦
              let at : j ≡ i = ground (arith, e) in
              let b' : Before i = subst Before at b in
              subst (λ t. (symbol t).value ≤ (symbol k).value) (sym at)
                (omega (arith, low b', addr))
          | inr e ↦ above j (ground (arith, e, h)) b
        ])
        first

  nearer-Nearest :
      (i : ℕ) (best : Best) → Nearest i best → Nearest (i + 1) (nearer symbol strtab address i best)
  unfolding nearer
  nearer-Nearest i best so_far =
      elim (Bool-cases (not ((symbol i).value == 0) && leb (symbol i).value address)) [
        | inl e ↦ elim (Bool-cases (ltb best.best_addr (symbol i).value)) [
          | inl f ↦
              rw (e, f)
                (taken-Nearest i best (ground (arith, e), ground (arith, e))
                  (ltb→lt best.best_addr (symbol i).value f) so_far)
          | inr f ↦ rw (e, f) (kept-Nearest i best (λ b. ground (arith, f)) so_far)
        ]
        | inr e ↦ rw (e) (kept-Nearest i best (λ b. ground (arith, e, b)) so_far)
      ]

  loop-Nearest :
      (count : ℕ)
      → Nearest count (
          for_range count 0
            (nearer symbol strtab address)
            (record { best_name = 0; best_addr = 0 }))
  loop-Nearest count =
      for_range_inv Nearest (nearer symbol strtab address) count 0 count _ (omega arith)
        (λ at now reached before. nearer-Nearest at now)
        (nothing refl refl (λ j h b. absurd (omega (arith, h))))

ready-loaded : (start end : ℕ) (t : Table) → t.elf_symtab ≢ 0 → ready start end t ≡ some t
unfolding ready
ready-loaded start end t loaded =
    let there : (t.elf_symtab == 0) ≡ false = ground (arith, loaded) in rw (there) refl

-- With a table that has an address, as the linker gives it: `find_nearest_symbol` returns the name of
-- a symbol whose value is not 0 and not above the address, with no higher value among such symbols,
-- and the first of them with this value; and, if asked for and the name's address is not 0, the
-- distance of the address from it. Without such a symbol it returns the null pointer and writes no
-- distance.
pub find_nearest_symbol_lem :
    (symbol : ℕ → Elf32Sym) (start end : ℕ) (t : Table) (address : ℕ) (wants_offset : Bool)
    → t.elf_symtab ≢ 0
    → (best : Best) × (find_nearest_symbol symbol start end t address wants_offset
        ≡ some (
          best.best_name,
          if not (best.best_name == 0) && wants_offset
              then some (address - best.best_addr)
              else none,
        ))
      × Nearest symbol t.elf_strtab address t.elf_symcount best
unfolding find_nearest_symbol
find_nearest_symbol_lem symbol start end t address wants_offset loaded = (
  for_range t.elf_symcount 0 (nearer symbol t.elf_strtab address)
      (record { best_name = 0; best_addr = 0 }),
  rw (ready-loaded start end t loaded, find_nearest_symbol) refl,
  loop-Nearest symbol t.elf_strtab address t.elf_symcount,
)
