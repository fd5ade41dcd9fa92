-- ===== src/Format/PrintBinary.antt =====
-- `print_binary_var_no_newline` of bit_hex_string.c.
use maple_kernel.Base.{
  ℕ, zero, suc, ◌+◌, ◌-◌, ◌/◌, ◌%◌, ◌^◌, ◌<◌, ◌≡◌, refl, ap, ap₂, ◌∙◌, arith, true, false, not, leb,
  ◌==◌, ◌&&◌, if◌then◌else◌, Bool-cases, inl, inr, u8, some, List, [], ◌∷◌, ◌++◌,
}
use maple_kernel.Numbers.{Memory}
use maple_kernel.Format.{
  binary_size, max8, get_spaceless_bit_string, add_spaces_every4bits, writestring, first_index,
  print_binary_var_no_newline,
}
use maple_kernel.Format.Sizes.{binary_size-bounds, IsSize, binary_size-IsSize}
use maple_kernel.Format.PrintHex.{grouped}
use maple_kernel.Format.Binary.{
  bit_char, spaceless_entry, Apart, spaced_char, spaced_entry, spaced_end,
}

writestring-char :
    (n str c : ℕ) (mem : Memory) (cs : List ℕ)
    → mem str ≡ c
    → 0 < c
    → writestring n (str + 1) mem ≡ some cs
    → writestring (suc n) str mem ≡ some (c ∷ cs)
unfolding writestring
writestring-char n str c mem cs here positive rest =
    let more : (c == 0) ≡ false = ground (arith, positive) in rw (here, more, rest) refl

-- The string from the place where the `p` lowest digits begin.
module _ (char : ℕ → ℕ) (output : ℕ) (mem : Memory)
    (chars : (q : ℕ) → q < 39 → mem (output + q) ≡ spaced_char char q)
    (ended : mem (output + 39) ≡ 0) (positive : (k : ℕ) → 0 < char k) where
  digit_there : (p q : ℕ) → q + suc p + p / 4 ≡ 39 → mem (output + q) ≡ char (31 - p)
  digit_there p q place =
      chars q (omega (arith, place))
      ∙ (let no_space : ((q + 1) % 5 == 0) ≡ false = ground (arith, place) in
          rw (no_space) (ap char (omega (arith, place))))

  space_there :
      (p q : ℕ)
      → q + suc p + p / 4 ≡ 39
      → ((p % 4 == 0) && not (p == 0)) ≡ true
      → mem (output + q + 1) ≡ b' '
  space_there p q place gap =
      ap mem (let z : output + q + 1 ≡ output + (q + 1) = omega arith in z)
      ∙ chars (q + 1) (ground (arith, place, gap))
      ∙ (let space : ((q + 1 + 1) % 5 == 0) ≡ true = ground (arith, place, gap) in rw (space) refl)

  writestring-grouped :
      (p q n : ℕ)
      → q + p + (p - 1) / 4 ≡ 39
      → q + n ≡ 40
      → writestring n (output + q) mem ≡ some (grouped (λ k. char (31 - k)) p)
  unfolding writestring
  writestring-grouped zero q zero place fuel = absurd (omega (arith, place, fuel))
  writestring-grouped zero q (suc n) place fuel =
      let at : q ≡ 39 = omega (arith, place) in
      let last : (mem (output + q) == 0) ≡ true =
        ap (λ t. mem (output + t) == 0) at ∙ ap (λ c. c == 0) ended in
      rw (last) refl
  writestring-grouped (suc p) q zero place fuel = absurd (omega (arith, place, fuel))
  writestring-grouped (suc p) q (suc zero) place fuel = absurd (omega (arith, place, fuel))
  writestring-grouped (suc p) q (suc (suc n)) place fuel =
      elim (Bool-cases ((p % 4 == 0) && not (p == 0))) [
        | inl gap ↦
            let rest =
              writestring-grouped p (q + 2) n (ground (arith, place, gap)) (omega (arith, fuel)) in
            let moved : output + q + 1 + 1 ≡ output + (q + 2) = omega arith in
            rw (gap) (
              writestring-char (suc n) (output + q) (char (31 - p)) mem _
                (digit_there p q (omega (arith, place))) (positive (31 - p))
                (writestring-char n (output + q + 1) b' ' mem _
                  (space_there p q (omega (arith, place)) gap) (omega arith)
                  (ap (λ t. writestring n t mem) moved ∙ rest)))
        | inr gap ↦
            let rest =
              writestring-grouped p (q + 1) (suc n) (ground (arith, place, gap))
                (omega (arith, fuel)) in
            let moved : output + q + 1 ≡ output + (q + 1) = omega arith in
            rw (gap) (
              writestring-char (suc n) (output + q) (char (31 - p)) mem _
                (digit_there p q (omega (arith, place))) (positive (31 - p))
                (ap (λ t. writestring (suc n) t mem) moved ∙ rest))
      ]

grouped-same : (c d : ℕ → ℕ) (n : ℕ) → ((k : ℕ) → k < n → c k ≡ d k) → grouped c n ≡ grouped d n
grouped-same c d zero same = refl
grouped-same c d (suc n) same =
    ap₂ (λ x xs. x ∷ ((if (n % 4 == 0) && not (n == 0) then b' ' ∷ [] else []) ++ xs))
      (same n (omega arith)) (grouped-same c d n (λ k h. same k (omega (arith, h))))

-- How many digits are printed of a value with `n`.
abbrev pub shown_bits : ℕ → ℕ → ℕ
shown_bits n asked = let bits = if leb asked n then n else asked in if leb 32 bits then 32 else bits

max8-shown :
    (n asked : ℕ)
    → (let bits = max8 n asked in if leb 32 bits then 32 else bits) ≡ shown_bits n asked
unfolding max8
max8-shown n asked = ground arith

first_index-place :
    (bits : ℕ)
    → 0 < bits
    → (let shown = if leb 32 bits then 32 else bits in
        first_index bits + shown + (shown - 1) / 4 ≡ 39)
unfolding first_index
first_index-place bits h = elim (Bool-cases (leb 32 bits)) [
  | inl e ↦ rw (e) (omega arith)
  | inr e ↦ rw (e) (ground (arith, e, h))
]

printed :
    (v number_of_bits spaceless spaced : ℕ) (mem : Memory)
    → v < 2 ^ 32
    → Apart spaceless spaced
    → print_binary_var_no_newline v number_of_bits spaceless spaced mem ≡ (
        let bits = max8 (binary_size v) (u8 number_of_bits) in
        some (grouped (bit_char v) (if leb 32 bits then 32 else bits)))
unfolding print_binary_var_no_newline max8
printed v number_of_bits spaceless spaced mem hv apart =
    let bits = max8 (binary_size v) (u8 number_of_bits) in
    let some_bits : 0 < bits = ground (arith, (binary_size-bounds v hv).0) in
    let place = first_index-place bits some_bits in
    let char = λ (k : ℕ). bit_char v (31 - k) in
    let written = get_spaceless_bit_string v spaceless mem in
    writestring-grouped char spaced (add_spaces_every4bits spaceless spaced written)
      (λ q h.
        spaced_entry char spaceless spaced apart written q
          (λ k hk. spaceless_entry v spaceless mem k hk) h)
      (spaced_end char spaceless spaced apart written) (λ k. omega arith)
      (if leb 32 bits then 32 else bits) (first_index bits) (40 - first_index bits) place
      (omega (arith, place))
    ∙ ap some (
        grouped-same (λ (k : ℕ). char (31 - k)) (bit_char v) (if leb 32 bits then 32 else bits)
          (λ k h. ap (bit_char v) (let z : 31 - (31 - k) ≡ k = ground (arith, h) in z)))

-- `print_binary_var_no_newline` of a 32-bit value, where its two arrays do not overlap, whatever they
-- hold: it prints the binary digits of the value, all `n` that it is written with, and with leading
-- zeros up to the number of bits asked for, taken modulo 256, and to 32 at most, in groups of four from
-- the lowest digit up, with a space between the groups. The string ends within its array.
pub print_binary_lem :
    (v number_of_bits spaceless spaced : ℕ) (mem : Memory)
    → v < 2 ^ 32
    → Apart spaceless spaced
    → (n : ℕ) × IsSize n v
      × (print_binary_var_no_newline v number_of_bits spaceless spaced mem
          ≡ some (grouped (bit_char v) (shown_bits n (u8 number_of_bits))))
print_binary_lem v number_of_bits spaceless spaced mem hv apart = (
  binary_size v,
  binary_size-IsSize v hv,
  printed v number_of_bits spaceless spaced mem hv apart
      ∙ ap (λ k. some (grouped (bit_char v) k)) (max8-shown (binary_size v) (u8 number_of_bits)),
)
