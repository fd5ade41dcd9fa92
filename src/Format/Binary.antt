-- ===== src/Format/Binary.antt =====
-- The bit strings of bit_hex_string.c, and `print_binary_var_no_newline`.
use maple_kernel.Base.{
  ℕ, zero, suc, ◌+◌, ◌-◌, ◌/◌, ◌%◌, ◌^◌, ◌≤◌, ◌<◌, ◌≡◌, ◌≢◌, ◌⊎◌, refl, ap, sym, ◌∙◌, arith, ◌==◌,
  if◌then◌else◌, Bool-cases, inl, inr, bit_and, update, update_self, update_ne,
}
use maple_kernel.Base.Digit.{digit, digit-shr, bit_and-ones}
use maple_kernel.Numbers.{Memory}
use maple_kernel.Format.{bits_from, get_spaceless_bit_string, spaces_from, add_spaces_every4bits}

-- The character of the binary digit at place `k`.
abbrev pub bit_char : ℕ → ℕ → ℕ
bit_char a k = b'0' + digit a k

low_bit : (a k : ℕ) → bit_and (a / 2 ^ k) 1 ≡ digit a k
low_bit a k =
    bit_and-ones 1 (a / 2 ^ k)
    ∙ digit-shr a k 0
    ∙ ap (digit a) (let z : k + 0 ≡ k = omega arith in z)

bits_kept :
    (left index a output : ℕ) (mem : Memory) (x : ℕ)
    → ((i : ℕ) → index ≤ i → i < index + left → x ≢ output + (32 - 1 - i))
    → bits_from left index a output mem x ≡ mem x
unfolding bits_from
bits_kept zero index a output mem x away = refl
bits_kept (suc left) index a output mem x away =
    bits_kept left (index + 1) a output _ x (λ i h l. away i (omega (arith, h)) (omega (arith, l)))
    ∙ update_ne mem (output + (32 - 1 - index)) (b'0' + bit_and (a / 2 ^ index) 1) x
        (away index (omega arith) (omega arith))

bits_entry :
    (left index a output : ℕ) (mem : Memory) (k : ℕ)
    → index ≤ k
    → k < index + left
    → index + left ≡ 32
    → bits_from left index a output mem (output + (31 - k)) ≡ bit_char a k
unfolding bits_from
bits_entry zero index a output mem k from to total = absurd (omega (arith, from, to))
bits_entry (suc left) index a output mem k from to total =
    let value = b'0' + bit_and (a / 2 ^ index) 1 in
    let next = update mem (output + (32 - 1 - index)) value in
    elim (Bool-cases (k == index)) [
      | inl e ↦
          let at : k ≡ index = ground (arith, e) in
          bits_kept left (index + 1) a output next (output + (31 - k))
            (λ i h l. omega (arith, at, h, l, total))
          ∙ ap next (let z : output + (31 - k) ≡ output + (32 - 1 - index) = omega (arith, at) in z)
          ∙ update_self mem (output + (32 - 1 - index)) value
          ∙ ap (λ d. b'0' + d) (low_bit a index)
          ∙ ap (bit_char a) (sym at)
      | inr e ↦
          bits_entry left (index + 1) a output next k (ground (arith, e, from)) (omega (arith, to))
            (omega (arith, total))
    ]

pub spaceless_entry :
    (a output : ℕ) (mem : Memory) (k : ℕ)
    → k < 32
    → get_spaceless_bit_string a output mem (output + k) ≡ bit_char a (31 - k)
unfolding get_spaceless_bit_string
spaceless_entry a output mem k h =
    ap (bits_from 32 0 a output (update mem (output + 32) 0))
      (let z : output + k ≡ output + (31 - (31 - k)) = omega (arith, h) in z)
    ∙ bits_entry 32 0 a output (update mem (output + 32) 0) (31 - k) (omega arith) (omega arith)
        (omega arith)

-- Two arrays, of 33 and 40 characters, that do not overlap.
abbrev pub Apart : ℕ → ℕ → Type 0
Apart spaceless spaced = (spaceless + 33 ≤ spaced) ⊎ (spaced + 40 ≤ spaceless)

abbrev pub spaced_char : (ℕ → ℕ) → ℕ → ℕ
spaced_char char q = if (q + 1) % 5 == 0 then b' ' else char (q - q / 5)

spaces_kept :
    (left bit_index print_index spaceless output : ℕ) (mem : Memory) (x : ℕ)
    → x < output + print_index
    → spaces_from left bit_index print_index spaceless output mem x ≡ mem x
unfolding spaces_from
spaces_kept zero bit_index print_index spaceless output mem x h = refl
spaces_kept (suc left) bit_index print_index spaceless output mem x h =
    spaces_kept left (if (print_index + 1) % 5 == 0 then bit_index else bit_index + 1)
      (print_index + 1) spaceless output _ x (omega (arith, h))
    ∙ update_ne mem (output + print_index) _ x (omega (arith, h))

module _ (char : ℕ → ℕ) (spaceless output : ℕ) (apart : Apart spaceless output) where
  spaces_entry :
      (left print_index : ℕ) (mem : Memory) (q : ℕ)
      → print_index + left ≡ 39
      → ((k : ℕ) → k < 32 → mem (spaceless + k) ≡ char k)
      → print_index ≤ q
      → q < 39
      → spaces_from left
          (print_index - print_index / 5)
          print_index
          spaceless
          output
          mem
          (output + q)
        ≡ spaced_char char q
  unfolding spaces_from
  spaces_entry zero print_index mem q total chars from to = absurd (omega (arith, total, from, to))
  spaces_entry (suc left) print_index mem q total chars from to =
      let space = (print_index + 1) % 5 == 0 in
      let bit_index = print_index - print_index / 5 in
      let value = if space then b' ' else mem (spaceless + bit_index) in
      let next = update mem (output + print_index) value in
      let onward : (if space then bit_index else bit_index + 1)
          ≡ print_index + 1 - (print_index + 1) / 5 =
        ground arith in
      let same : value ≡ spaced_char char print_index =
        ap (λ c. if space then b' ' else c) (chars bit_index (omega (arith, total))) in
      elim (Bool-cases (q == print_index)) [
        | inl e ↦
            let at : q ≡ print_index = ground (arith, e) in
            spaces_kept left (if space then bit_index else bit_index + 1) (print_index + 1)
              spaceless output next (output + q) (omega (arith, at))
            ∙ ap next (ap (λ t. output + t) at)
            ∙ update_self mem (output + print_index) value
            ∙ same
            ∙ ap (spaced_char char) (sym at)
        | inr e ↦
            ap (λ b. spaces_from left b (print_index + 1) spaceless output next (output + q)) onward
            ∙ spaces_entry left (print_index + 1) next q (omega (arith, total))
                (λ k h.
                  update_ne mem (output + print_index) value (spaceless + k)
                    (away print_index k (omega (arith, total)) h)
                  ∙ chars k h)
                (ground (arith, e, from)) to
      ]
    where
      away : (i k : ℕ) → i < 39 → k < 32 → spaceless + k ≢ output + i
      away i k hi hk = ground (arith, apart)

  pub spaced_entry :
      (mem : Memory) (q : ℕ)
      → ((k : ℕ) → k < 32 → mem (spaceless + k) ≡ char k)
      → q < 39
      → add_spaces_every4bits spaceless output mem (output + q) ≡ spaced_char char q
  unfolding add_spaces_every4bits
  spaced_entry mem q chars h =
      update_ne (spaces_from 39 0 0 spaceless output mem) (output + 39) 0 (output + q)
        (omega (arith, h))
      ∙ spaces_entry 39 0 mem q (omega arith) chars (omega arith) h

  pub spaced_end : (mem : Memory) → add_spaces_every4bits spaceless output mem (output + 39) ≡ 0
  unfolding add_spaces_every4bits
  spaced_end mem = update_self (spaces_from 39 0 0 spaceless output mem) (output + 39) 0
