-- ===== src/Format/PrintHex.antt =====
-- `print_hex_f` of bit_hex_string.c.
use maple_kernel.Base.{
  ℕ, zero, suc, ◌+◌, ◌-◌, ◌%◌, ◌^◌, ◌≤◌, ◌<◌, ◌≡◌, refl, ap, ap₂, sym, subst, ◌∙◌, arith, Bool,
  true, false, not, ltb, leb, ◌==◌, ◌&&◌, if◌then◌else◌, Bool-cases, inl, inr, u8, none, some, List,
  [], ◌∷◌, ◌++◌,
}
use maple_kernel.Numbers.{Memory}
use maple_kernel.Format.{hex_size, max8, uint_to_hex, leading_zeros, hex_digits, print_hex_f}
use maple_kernel.Format.Sizes.{nibble, hex_size-bounds, hex_size-HasNibbles}
use maple_kernel.Format.Hex.{
  hex_char, hex_char-zero, nibble-above, nibble-none, IsHex, uint_to_hex-IsHex,
}

-- The characters of the places below `n`, the highest first, in groups of four places from the
-- lowest up, with a space between the groups.
abbrev pub grouped : (ℕ → ℕ) → ℕ → List ℕ
grouped char zero = []
grouped char (suc p) =
    char p ∷ ((if (p % 4 == 0) && not (p == 0) then b' ' ∷ [] else []) ++ grouped char p)

leading_zeros-grouped :
    (char : ℕ → ℕ) (left i m size : ℕ)
    → 0 < size
    → i + left + size ≡ m
    → m ≤ 16
    → ((k : ℕ) → size ≤ k → char k ≡ b'0')
    → leading_zeros left i m ++ grouped char size ≡ grouped char (left + size)
unfolding leading_zeros
leading_zeros-grouped char zero i m size some_digit total bound above =
    ap (grouped char) (let z : size ≡ 0 + size = omega arith in z)
leading_zeros-grouped char (suc left) i m size some_digit total bound above =
    let rest =
      leading_zeros-grouped char left (i + 1) m size some_digit (omega (arith, total)) bound
        above in
    let more : suc (left + size) ≡ suc left + size = omega arith in
    let test : (u8 (m + 2 ^ 8 - (i + 1)) % 4 == 0)
        ≡ (((left + size) % 4 == 0) && not (left + size == 0)) =
      ground (arith, total, bound, some_digit) in
    subst (λ n. leading_zeros (suc left) i m ++ grouped char size ≡ grouped char n) more
      (one_more char (leading_zeros left (i + 1) m) (grouped char size) (left + size)
        (u8 (m + 2 ^ 8 - (i + 1)) % 4 == 0) (above (left + size) (omega arith)) test rest)
  where
    one_more :
        (c : ℕ → ℕ) (front back : List ℕ) (p : ℕ) (space : Bool)
        → c p ≡ b'0'
        → space ≡ ((p % 4 == 0) && not (p == 0))
        → front ++ back ≡ grouped c p
        → (b'0' ∷ ((if space then b' ' ∷ [] else []) ++ front)) ++ back ≡ grouped c (suc p)
    one_more c front back p true digit same rest =
        rw (sym same) (ap₂ (λ x xs. x ∷ b' ' ∷ xs) (sym digit) rest)
    one_more c front back p false digit same rest =
        rw (sym same) (ap₂ (λ x xs. x ∷ xs) (sym digit) rest)

hex_digits-grouped :
    (char : ℕ → ℕ) (left i m lead len array : ℕ) (mem : Memory)
    → i + left ≡ len
    → lead + len ≡ m
    → m ≤ 16
    → ((k : ℕ) → k < len → mem (array + k) ≡ char (len - 1 - k))
    → hex_digits left i m lead len array mem ≡ grouped char left
unfolding hex_digits
hex_digits-grouped char zero i m lead len array mem total parts bound chars = refl
hex_digits-grouped char (suc left) i m lead len array mem total parts bound chars =
    let rest =
      hex_digits-grouped char left (i + 1) m lead len array mem (omega (arith, total)) parts bound
        chars in
    let j : u8 (u8 (m + 2 ^ 8 - i) + 2 ^ 8 - lead) ≡ suc left =
      omega (arith, total, parts, bound) in
    let test : ((ltb 0 (suc left) && ((suc left - 1) % 4 == 0)) && not (i == len - 1))
        ≡ ((left % 4 == 0) && not (left == 0)) =
      ground (arith, total) in
    let digit : mem (array + i) ≡ char left =
      chars i (omega (arith, total)) ∙ ap char (omega (arith, total)) in
    rw (j, test, digit, rest) refl

nibble-size : (v k : ℕ) → v < 2 ^ 32 → hex_size v ≤ k → nibble k v ≡ 0
nibble-size zero k hv h = nibble-none k
nibble-size (suc v) k hv h =
    nibble-above (hex_size (suc v)) (suc v) k (hex_size-HasNibbles (suc v) (omega arith) hv).0 h

printed :
    (v pad array : ℕ) (after : ℕ × Memory)
    → v < 2 ^ 32
    → pad ≤ 16
    → IsHex false v array (hex_size v) after
    → leading_zeros (u8 (max8 (hex_size v) pad + 2 ^ 8 - after.0)) 0 (max8 (hex_size v) pad)
        ++ hex_digits after.0 0
            (max8 (hex_size v) pad)
            (u8 (max8 (hex_size v) pad + 2 ^ 8 - after.0))
            after.0
            array
            after.1
      ≡ grouped (λ p. hex_char false (nibble p v)) (max8 (hex_size v) pad)
unfolding max8
printed v pad array after hv hp written =
    let (positive, short) = hex_size-bounds v hv in
    let char = λ (p : ℕ). hex_char false (nibble p v) in
    let m = max8 (hex_size v) pad in
    let lead = u8 (m + 2 ^ 8 - after.0) in
    let bound : m ≤ 16 = ground (arith, hp, short) in
    let parts : lead + after.0 ≡ m = ground (arith, hp, short, written.length) in
    let places : lead + hex_size v ≡ m = omega (arith, parts, written.length) in
    ap (λ xs. leading_zeros lead 0 m ++ xs)
      (hex_digits-grouped char after.0 0 m lead after.0 array after.1 (omega arith) parts bound
        (λ k h.
          written.chars k (omega (arith, h, written.length))
          ∙ ap (λ n. char (n - 1 - k)) (sym written.length)))
    ∙ ap (λ n. leading_zeros lead 0 m ++ grouped char n) written.length
    ∙ leading_zeros-grouped char lead 0 m (hex_size v) positive (omega (arith, places)) bound
        (λ k h. ap (hex_char false) (nibble-size v k hv h) ∙ ground (arith, hex_char-zero false))
    ∙ ap (grouped char) places

max8-fits : (a b n : ℕ) → n ≡ a → ltb (max8 a b) n ≡ false
unfolding max8
max8-fits a b n same = ground arith

max8-larger : (a b : ℕ) → max8 a b ≡ (if leb b a then a else b)
unfolding max8
max8-larger a b = ground arith

in_groups :
    (v pad array : ℕ) (temp : ℕ → ℕ) (mem : Memory)
    → v < 2 ^ 32
    → print_hex_f v pad array temp mem ≡ (
        if leb pad 16
        then some (b'0' ∷ b'x' ∷ grouped (λ p. hex_char false (nibble p v)) (max8 (hex_size v) pad))
        else none)
unfolding print_hex_f
in_groups v pad array temp mem hv =
    let written = uint_to_hex-IsHex false v array temp mem hv in
    elim (Bool-cases (leb pad 16)) [
      | inl e ↦
          let after = uint_to_hex v array false temp mem in
          let same : (hex_size v == after.0) ≡ true = ground (arith, written.length) in
          let fits : ltb (max8 (hex_size v) pad) after.0 ≡ false =
            max8-fits (hex_size v) pad after.0 written.length in
          rw (e, same, fits)
            (ap (λ xs. some (b'0' ∷ b'x' ∷ xs))
              (printed v pad array after hv (ground (arith, e)) written))
      | inr e ↦ rw (e) refl
    ]

-- `print_hex_f` of a 32-bit value, whatever the arrays on its stack hold. Where it is asked for more
-- than 16 digits, its first assertion fails. Otherwise neither assertion fails, and it prints 0x and
-- the hexadecimal digits of the value, with leading zeros up to the number of digits asked for, in
-- groups of four from the lowest digit up, with a space between the groups.
pub print_hex_f_lem :
    (v pad array : ℕ) (temp : ℕ → ℕ) (mem : Memory)
    → v < 2 ^ 32
    → print_hex_f v pad array temp mem ≡ (
        if leb pad 16
        then some (
            b'0'
            ∷ b'x'
            ∷ grouped
                (λ p. hex_char false (nibble p v))
                (if leb pad (hex_size v) then hex_size v else pad))
        else none)
print_hex_f_lem v pad array temp mem hv =
    in_groups v pad array temp mem hv
    ∙ ap
        (λ n.
          if leb pad 16
          then some (b'0' ∷ b'x' ∷ grouped (λ p. hex_char false (nibble p v)) n)
          else none)
        (max8-larger (hex_size v) pad)
