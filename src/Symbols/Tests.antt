-- ===== src/Symbols/Tests.antt =====
-- Searches in concrete tables and strings.
use maple_kernel.Base.{
  ℕ, zero, suc, ◌+◌, ◌-◌, ◌<◌, ◌≢◌, ◌≡◌, refl, arith, true, not, ◌&&◌, ◌==◌, if◌then◌else◌, none,
  some,
}
use maple_kernel.Symbols.{Elf32Sym, Table, Best, find_nearest_symbol, find_string_offset}
use maple_kernel.Symbols.Nearest.{Nearest, find_nearest_symbol_lem}
use maple_kernel.Symbols.Search.{IsString, Found, find_string_offset_lem}

-- Symbols at 100, 300 and 200.
abbrev symbols : ℕ → Elf32Sym
symbols zero = record { name = 1; value = 100 }
symbols (suc zero) = record { name = 5; value = 300 }
symbols (suc (suc i)) = record { name = 9; value = 200 }

abbrev table : Table
table = record { elf_symtab = 4096; elf_strtab = 8192; elf_symcount = 3 }

find_nearest_symbol_lem_example :
    (best : Best) × (find_nearest_symbol symbols 4096 4144 table 250 true
      ≡ some (
        best.best_name,
        if not (best.best_name == 0) && true then some (250 - best.best_addr) else none,
      ))
    × Nearest symbols 8192 250 3 best
find_nearest_symbol_lem_example =
    find_nearest_symbol_lem symbols 4096 4144 table 250 true (omega arith)

-- "abab" at 10, and "ba" at 20.
abbrev texts : ℕ → ℕ
texts a =
    if a == 10
    then b'a'
    else if a == 11
    then b'b'
    else if a == 12
    then b'a'
    else if a == 13
    then b'b'
    else if a == 20
    then b'b'
    else if a == 21
    then b'a'
    else 0

texts-IsString : IsString 20 2 texts
texts-IsString = record { inside = ba; ended = refl }
  where
    ba : (k : ℕ) → k < 2 → texts (20 + k) ≢ 0
    ba zero h = omega arith
    ba (suc zero) h = omega arith
    ba (suc (suc k)) h = absurd (omega (arith, h))

find_string_offset_lem_example : Found 10 20 2 texts 0 3 (find_string_offset 10 4 20 texts)
find_string_offset_lem_example =
    find_string_offset_lem 10 4 20 2 texts (omega arith) (omega arith) (omega arith) texts-IsString
      (omega arith)
