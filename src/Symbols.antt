-- ===== src/Symbols.antt =====
-- kernel/symbols.c: the table of the kernel's symbols, and the searches in it; and
-- `find_string_offset` of stdlib/stdlib.c. The linker gives the table and its bounds.
pub mod Nearest
pub mod Search
pub mod Tests
use maple_kernel.Base.{
  ℕ, zero, suc, ◌+◌, ◌-◌, ◌/◌, ◌%◌, ◌^◌, Bool, true, false, not, ◌&&◌, ◌||◌, Option, none, some,
  ltb, leb, ◌==◌, if◌then◌else◌, u32, for_range,
}

-- The fields of `Elf32_Sym` that are read.
pub record Elf32Sym : Type 0 where
  pub name : ℕ
  pub value : ℕ

-- The static variables; a pointer is a number, and the null pointer 0.
pub record Table : Type 0 where
  pub elf_symtab : ℕ
  pub elf_strtab : ℕ
  pub elf_symcount : ℕ

-- `none` is a call of `abort`.
pub init_elf_symbols : (ksymtab_start ksymtab_end : ℕ) → Table → Option Table
init_elf_symbols ksymtab_start ksymtab_end t =
    if not ((ksymtab_end - ksymtab_start) % 16 == 0)
    then none
    else some (record t { elf_symcount = (ksymtab_end - ksymtab_start) / 16 })

-- The test at the start of each search.
pub ready : (ksymtab_start ksymtab_end : ℕ) → Table → Option Table
ready ksymtab_start ksymtab_end t =
    if t.elf_symtab == 0 then init_elf_symbols ksymtab_start ksymtab_end t else some t

pub record Best : Type 0 where
  pub best_name : ℕ
  pub best_addr : ℕ

-- A round of the loop of `find_nearest_symbol`.
pub nearer : (sym : ℕ → Elf32Sym) (elf_strtab address i : ℕ) → Best → Best
nearer sym elf_strtab address i best =
    let sym_addr = (sym i).value in
    if not (sym_addr == 0) && leb sym_addr address
    then (if ltb best.best_addr sym_addr
        then record { best_name = u32 (elf_strtab + (sym i).name); best_addr = sym_addr }
        else best)
    else best

nearest_in : (sym : ℕ → Elf32Sym) (address : ℕ) (wants_offset : Bool) → Table → ℕ × Option ℕ
nearest_in sym address wants_offset t =
    let best =
      for_range t.elf_symcount 0 (nearer sym t.elf_strtab address)
        (record { best_name = 0; best_addr = 0 }) in
    (
      best.best_name,
      if not (best.best_name == 0) && wants_offset then some (address - best.best_addr) else none,
    )

-- The name, and what is written to `*offset`, if that is asked for.
pub find_nearest_symbol :
    (sym : ℕ → Elf32Sym) (ksymtab_start ksymtab_end : ℕ)
    → Table
    → (address : ℕ) (wants_offset : Bool) → Option (ℕ × Option ℕ)
unfolding nearest_in
find_nearest_symbol sym ksymtab_start ksymtab_end t address wants_offset =
    elim (ready ksymtab_start ksymtab_end t) [
      | none ↦ none
      | some t' ↦ some (nearest_in sym address wants_offset t')
    ]

-- The loop of `find_symbol_name` at `i`, with `left` symbols to go.
pub name_from : (sym : ℕ → Elf32Sym) (left i elf_strtab address : ℕ) → ℕ
name_from sym zero i elf_strtab address = 0
name_from sym (suc left) i elf_strtab address =
    let rest = name_from sym left (i + 1) elf_strtab address in
    if (sym i).value == address then u32 (elf_strtab + (sym i).name) else rest

pub find_symbol_name :
    (sym : ℕ → Elf32Sym) (ksymtab_start ksymtab_end : ℕ) → Table → (address : ℕ) → Option ℕ
find_symbol_name sym ksymtab_start ksymtab_end t address =
    elim (ready ksymtab_start ksymtab_end t) [
      | none ↦ none
      | some t' ↦ some (name_from sym t'.elf_symcount 0 t'.elf_strtab address)
    ]

-- The first loop of `find_string_offset`: the length of the needle, or `none` from 4097 bytes on. It
-- ends by itself after 4097 rounds.
pub needle_length : (left p needle_len : ℕ) → (ℕ → ℕ) → Option ℕ
needle_length zero p needle_len mem = none
needle_length (suc left) p needle_len mem =
    let rest = needle_length left (p + 1) (needle_len + 1) mem in
    if mem p == 0 then some needle_len else if ltb 4096 (needle_len + 1) then none else rest

-- Whether the needle is at an offset, from byte `j` on.
pub matches_from : (left j at needle : ℕ) → (ℕ → ℕ) → Bool
matches_from zero j at needle mem = true
matches_from (suc left) j at needle mem =
    let rest = matches_from left (j + 1) at needle mem in
    if not (mem (at + j) == mem (needle + j)) then false else rest

-- The outer loop at offset `i`, with `left` offsets to go; `none` is -1.
pub offset_from : (left i haystack needle needle_len : ℕ) → (ℕ → ℕ) → Option ℕ
offset_from zero i haystack needle needle_len mem = none
offset_from (suc left) i haystack needle needle_len mem =
    let rest = offset_from left (i + 1) haystack needle needle_len mem in
    if matches_from needle_len 0 (haystack + i) needle mem then some i else rest

search_for : (haystack haystack_len needle : ℕ) → (ℕ → ℕ) → Option ℕ → Option ℕ
search_for haystack haystack_len needle mem none = none
search_for haystack haystack_len needle mem (some needle_len) =
    if needle_len == 0
    then some 0
    else offset_from (haystack_len + 1 - needle_len) 0 haystack needle needle_len mem

-- `haystack_len` is an `int` that is not negative; a negative one is refused as 0 is.
pub find_string_offset : (haystack haystack_len needle : ℕ) → (ℕ → ℕ) → Option ℕ
unfolding search_for
find_string_offset haystack haystack_len needle mem =
    if haystack == 0 || (needle == 0 || haystack_len == 0)
    then none
    else search_for haystack haystack_len needle mem (needle_length 4097 needle 0 mem)
