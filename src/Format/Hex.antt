-- ===== src/Format/Hex.antt =====
-- `uint_to_hex` of string_helper.c and `print_hex_f` of bit_hex_string.c.
use maple_kernel.Base.{
  All, length, [], ◌∷◌, ℕ, zero, suc, ◌+◌, ◌-◌, ◌/◌, ◌^◌, ◌≤◌, ◌<◌, ◌≡◌, ◌≢◌, refl, ap, sym, subst,
  ◌∙◌, arith, Bool, true, false, ltb, ◌==◌, ltb→lt, if◌then◌else◌, Bool-cases, inl, inr, bit_and,
  update, update_self, update_ne, List,
}
use maple_kernel.Base.Digit.{bit_and-ones}
use maple_kernel.Numbers.{Memory}
use maple_kernel.Format.{
  lowercase, uppercase, char_at, fill, skip_zeros, copy_digits, uint_to_hex, hex_size,
}
use maple_kernel.Format.Sizes.{nibble, HasNibbles, hex_size-HasNibbles, hex_size-zero}

-- The character of a hexadecimal digit.
abbrev pub letters : Bool → List ℕ
letters upper = if upper then uppercase else lowercase

abbrev pub hex_char : Bool → ℕ → ℕ
hex_char upper d = char_at (letters upper) d

char_at-All {ℓ} :
    (P : ℕ → Type ℓ) (cs : List ℕ) (i : ℕ) → All P cs → i < length cs → P (char_at cs i)
unfolding char_at
char_at-All P [] i each h = absurd (omega (arith, h))
char_at-All P (c ∷ cs) zero each h = each.0
char_at-All P (c ∷ cs) (suc i) each h = char_at-All P cs i each.1 (omega (arith, h))

-- Of the entries of the two literals only the first is '0', and none ends a string.
abbrev IsDigitChar : ℕ → Type 0
IsDigitChar c = ((c == b'0') ≡ false) × ((c == 0) ≡ false)

entry-IsDigitChar : (upper : Bool) (d : ℕ) → d < 15 → IsDigitChar (hex_char upper (suc d))
unfolding char_at
entry-IsDigitChar true d h =
    char_at-All IsDigitChar
      (b'1' ∷ b'2' ∷ b'3' ∷ b'4' ∷ b'5' ∷ b'6' ∷ b'7' ∷ b'8' ∷ b'9' ∷ b'A' ∷ b'B' ∷ b'C' ∷ b'D'
        ∷ b'E' ∷ b'F' ∷ [])
      d (ground arith) (omega (arith, h))
entry-IsDigitChar false d h =
    char_at-All IsDigitChar
      (b'1' ∷ b'2' ∷ b'3' ∷ b'4' ∷ b'5' ∷ b'6' ∷ b'7' ∷ b'8' ∷ b'9' ∷ b'a' ∷ b'b' ∷ b'c' ∷ b'd'
        ∷ b'e' ∷ b'f' ∷ [])
      d (ground arith) (omega (arith, h))

module _ (digits : List ℕ) where
  fill_outside : (i value : ℕ) (temp : ℕ → ℕ) (k : ℕ) → i ≤ k → fill i value digits temp k ≡ temp k
  unfolding fill
  fill_outside zero value temp k h = refl
  fill_outside (suc i) value temp k h =
      fill_outside i (value / 16) (update temp i (char_at digits (bit_and value 0xF))) k
        (omega (arith, h))
      ∙ update_ne temp i (char_at digits (bit_and value 0xF)) k (omega (arith, h))

  pub fill_entry :
      (i value : ℕ) (temp : ℕ → ℕ) (k : ℕ)
      → k < i
      → fill i value digits temp k ≡ char_at digits (nibble (i - 1 - k) value)
  unfolding fill
  fill_entry zero value temp k h = absurd (omega (arith, h))
  fill_entry (suc i) value temp k h =
      let next = update temp i (char_at digits (bit_and value 0xF)) in
      elim (Bool-cases (k == i)) [
        | inl e ↦
            let at : k ≡ i = ground (arith, e) in
            fill_outside i (value / 16) next k (omega (arith, at))
            ∙ ap next at
            ∙ update_self temp i (char_at digits (bit_and value 0xF))
            ∙ ap (char_at digits) (bit_and-ones 4 value)
            ∙ ap (λ j. char_at digits (nibble j value))
                (let z : 0 ≡ suc i - 1 - k = omega (arith, at) in z)
        | inr e ↦
            let below : k < i = ground (arith, e, h) in
            fill_entry i (value / 16) next k below
            ∙ ap (λ j. char_at digits (nibble j value))
                (let z : suc (i - 1 - k) ≡ suc i - 1 - k = omega (arith, below) in z)
      ]

pub hex_char-zero : (upper : Bool) → (hex_char upper 0 == b'0') ≡ true
unfolding char_at
hex_char-zero true = refl
hex_char-zero false = refl

hex_char-digit : (upper : Bool) (d : ℕ) → d < 16 → d ≢ 0 → (hex_char upper d == b'0') ≡ false
hex_char-digit upper zero h ne = absurd (ne refl)
hex_char-digit upper (suc d) h ne = (entry-IsDigitChar upper d (omega (arith, h))).0

hex_char-end : (upper : Bool) (d : ℕ) → d < 16 → (hex_char upper d == 0) ≡ false
unfolding char_at
hex_char-end true zero h = refl
hex_char-end false zero h = refl
hex_char-end upper (suc d) h = (entry-IsDigitChar upper d (omega (arith, h))).1

nibble-lt : (k v : ℕ) → nibble k v < 16
nibble-lt zero v = omega arith
nibble-lt (suc k) v = nibble-lt k (v / 16)

pub nibble-none : (k : ℕ) → nibble k 0 ≡ 0
nibble-none zero = refl
nibble-none (suc k) = nibble-none k

pub nibble-above : (len v k : ℕ) → HasNibbles len v → len ≤ k → nibble k v ≡ 0
nibble-above zero v k exact h = ap (nibble k) exact ∙ nibble-none k
nibble-above (suc len) v zero exact h = absurd (omega (arith, h))
nibble-above (suc len) v (suc k) exact h = nibble-above len (v / 16) k exact.1 (omega (arith, h))

nibble-top : (len v : ℕ) → HasNibbles (suc len) v → nibble len v ≢ 0
nibble-top zero v exact = omega (arith, exact.0, exact.1)
nibble-top (suc len) v exact = nibble-top len (v / 16) exact.1

-- What the loops of `uint_to_hex` find in `temp`.
module _ (upper : Bool) (v : ℕ) (temp : ℕ → ℕ) (len : ℕ) (exact : HasNibbles (suc len) v)
    (short : suc len ≤ 8) where
  filled : ℕ → ℕ
  filled = fill 8 v (letters upper) (update temp 8 0)

  filled_entry : (k : ℕ) → k < 8 → filled k ≡ hex_char upper (nibble (7 - k) v)
  unfolding filled
  filled_entry k h = fill_entry (letters upper) 8 v (update temp 8 0) k h

  filled_end : filled 8 ≡ 0
  unfolding filled
  filled_end =
      fill_outside (letters upper) 8 v (update temp 8 0) 8 (omega arith) ∙ update_self temp 8 0

  filled_zero : (k : ℕ) → k < 7 - len → (filled k == b'0') ≡ true
  filled_zero k h =
      let none_there = nibble-above (suc len) v (7 - k) exact (omega (arith, h)) in
      ap (λ c. c == b'0') (filled_entry k (omega (arith, h)) ∙ ap (hex_char upper) none_there)
      ∙ hex_char-zero upper

  filled_first : (filled (7 - len) == b'0') ≡ false
  filled_first =
      let place : 7 - (7 - len) ≡ len = omega (arith, short) in
      ap (λ c. c == b'0')
        (filled_entry (7 - len) (omega arith) ∙ ap (λ k. hex_char upper (nibble k v)) place)
      ∙ hex_char-digit upper (nibble len v) (nibble-lt len v) (nibble-top len v exact)

  skip_zeros_lem :
      (fuel i : ℕ) → i ≤ 7 - len → 7 - len < i + fuel → skip_zeros fuel i filled ≡ 7 - len
  unfolding skip_zeros
  skip_zeros_lem zero i h enough = absurd (omega (arith, h, enough))
  skip_zeros_lem (suc fuel) i h enough = elim (Bool-cases (ltb i (7 - len))) [
    | inl e ↦
        rw (filled_zero i (ltb→lt i (7 - len) e))
          (skip_zeros_lem fuel (i + 1) (ground (arith, e)) (omega (arith, enough)))
    | inr e ↦
        let at : i ≡ 7 - len = ground (arith, e, h) in
        rw (ap (λ k. filled k == b'0') at ∙ filled_first) at
  ]

  record Copied (n i j buffer : ℕ) (before : Memory) (after : ℕ × Memory) : Type 0 where
    ends : after.0 ≡ j + n
    chars : (k : ℕ) → k < n → after.1 (buffer + j + k) ≡ filled (i + k)
    below : (a : ℕ) → a < buffer + j → after.1 a ≡ before a

  filled_char : (i : ℕ) → i < 8 → (filled i == 0) ≡ false
  filled_char i h =
      ap (λ c. c == 0) (filled_entry i h)
      ∙ hex_char-end upper (nibble (7 - i) v) (nibble-lt (7 - i) v)

  copy-Copied :
      (fuel n i j buffer : ℕ) (mem : Memory)
      → i + n ≡ 8
      → n < fuel
      → Copied n i j buffer mem (copy_digits fuel i j buffer filled mem)
  unfolding copy_digits
  copy-Copied zero n i j buffer mem total enough = absurd (omega (arith, enough))
  copy-Copied (suc fuel) zero i j buffer mem total enough =
      let done : (filled i == 0) ≡ true =
        ap (λ k. filled k == 0) (let at : i ≡ 8 = omega (arith, total) in at)
        ∙ ap (λ c. c == 0) filled_end in
      rw (done) (record {
        ends = omega arith;
        chars = λ k h. absurd (omega (arith, h));
        below = λ a h. refl;
      })
  copy-Copied (suc fuel) (suc n) i j buffer mem total enough =
      let next = update mem (buffer + j) (filled i) in
      let rest =
        copy-Copied fuel n (i + 1) (j + 1) buffer next (omega (arith, total))
          (omega (arith, enough)) in
      rw (filled_char i (omega (arith, total))) (record {
        ends = omega (arith, rest.ends);
        chars = λ k h.
            copied_next (copy_digits fuel (i + 1) (j + 1) buffer filled next).1 n i (buffer + j)
              (rest.below (buffer + j) (omega arith) ∙ update_self mem (buffer + j) (filled i))
              (λ m hm.
                ap (copy_digits fuel (i + 1) (j + 1) buffer filled next).1 (omega arith)
                ∙ rest.chars m hm)
              k h;
        below = λ a h.
            rest.below a (omega (arith, h))
            ∙ update_ne mem (buffer + j) (filled i) a (omega (arith, h));
      })
    where
      copied_next :
          (after : Memory) (n i at : ℕ)
          → after at ≡ filled i
          → ((k : ℕ) → k < n → after (at + 1 + k) ≡ filled (i + 1 + k))
          → (k : ℕ) → k < suc n
          → after (at + k) ≡ filled (i + k)
      copied_next after n i at first rest zero h =
          ap after (omega arith) ∙ first ∙ ap filled (omega arith)
      copied_next after n i at first rest (suc k) h =
          ap after (omega arith) ∙ rest k (omega (arith, h)) ∙ ap filled (omega arith)

-- The string of a number in hexadecimal digits: its length, its characters, and the 0 behind them.
pub record IsHex (upper : Bool) (v buffer size : ℕ) (after : ℕ × Memory) : Type 0 where
  pub length : after.0 ≡ size
  pub chars : (k : ℕ) → k < size → after.1 (buffer + k) ≡ hex_char upper (nibble (size - 1 - k) v)
  pub ended : after.1 (buffer + size) ≡ 0

copied-IsHex :
    (upper : Bool) (v buffer len from : ℕ) (temp : ℕ → ℕ) (mem : Memory)
    (exact : HasNibbles (suc len) v) (short : suc len ≤ 8)
    → from ≡ 7 - len
    → let (j, written) =
        copy_digits 9 from 0 buffer (fill 8 v (letters upper) (update temp 8 0)) mem in
      IsHex upper v buffer (suc len) (j, update written (buffer + j) 0)
unfolding filled
copied-IsHex upper v buffer len from temp mem exact short starts =
    let run = copy_digits 9 from 0 buffer (fill 8 v (letters upper) (update temp 8 0)) mem in
    let copied =
      copy-Copied upper v temp len exact short 9 (suc len) from 0 buffer mem
        (omega (arith, starts, short)) (omega (arith, short)) in
    let whole : run.0 ≡ suc len = omega (arith, copied.ends) in
    record {
      length = whole;
      chars = λ k h.
          update_ne run.1 (buffer + run.0) 0 (buffer + k) (omega (arith, whole, h))
          ∙ ap run.1 (let z : buffer + k ≡ buffer + 0 + k = omega arith in z)
          ∙ copied.chars k h
          ∙ filled_entry upper v temp len exact short (from + k) (omega (arith, starts, short, h))
          ∙ ap (λ i. hex_char upper (nibble i v))
              (let z : 7 - (from + k) ≡ suc len - 1 - k = omega (arith, starts, short, h) in z);
      ended =
          ap (update run.1 (buffer + run.0) 0)
            (let z : buffer + suc len ≡ buffer + run.0 = omega (arith, whole) in z)
          ∙ update_self run.1 (buffer + run.0) 0;
    }

positive-IsHex :
    (upper : Bool) (v buffer size : ℕ) (temp : ℕ → ℕ) (mem : Memory)
    → 0 < v
    → HasNibbles size v
    → size ≤ 8
    → IsHex upper v buffer size (uint_to_hex v buffer upper temp mem)
unfolding uint_to_hex filled
positive-IsHex upper v buffer zero temp mem h exact short = absurd (omega (arith, h, exact))
positive-IsHex upper v buffer (suc len) temp mem h exact short =
    let not_zero : (v == 0) ≡ false = ground (arith, h) in
    rw (not_zero) (
      copied-IsHex upper v buffer len (skip_zeros 9 0 (fill 8 v (letters upper) (update temp 8 0)))
        temp mem exact short
        (skip_zeros_lem upper v temp len exact short 9 0 (omega arith) (omega (arith, short))))

zero-IsHex :
    (upper : Bool) (buffer : ℕ) (temp : ℕ → ℕ) (mem : Memory)
    → IsHex upper 0 buffer 1 (uint_to_hex 0 buffer upper temp mem)
unfolding uint_to_hex
zero-IsHex upper buffer temp mem = record {
  length = refl;
  chars = λ k h.
      update_ne (update mem buffer b'0') (buffer + 1) 0 (buffer + k) (omega (arith, h))
      ∙ ap (update mem buffer b'0') (let z : buffer + k ≡ buffer = omega (arith, h) in z)
      ∙ update_self mem buffer b'0'
      ∙ sym (ground (arith, hex_char-zero upper))
      ∙ ap (λ i. hex_char upper (nibble i 0)) (let z : 0 ≡ 1 - 1 - k = omega (arith, h) in z);
  ended = update_self (update mem buffer b'0') (buffer + 1) 0;
}

-- `uint_to_hex` of a 32-bit value writes as many characters as `hexSize` says, the hexadecimal digits
-- of the value from the highest to the lowest, in either case of letters, and a 0 behind them.
pub uint_to_hex-IsHex :
    (upper : Bool) (v buffer : ℕ) (temp : ℕ → ℕ) (mem : Memory)
    → v < 2 ^ 32
    → IsHex upper v buffer (hex_size v) (uint_to_hex v buffer upper temp mem)
uint_to_hex-IsHex upper zero buffer temp mem h =
    subst (λ n. IsHex upper 0 buffer n (uint_to_hex 0 buffer upper temp mem)) (sym hex_size-zero)
      (zero-IsHex upper buffer temp mem)
uint_to_hex-IsHex upper (suc v) buffer temp mem h =
    let (exact, positive, short) = hex_size-HasNibbles (suc v) (omega arith) h in
    positive-IsHex upper (suc v) buffer (hex_size (suc v)) temp mem (omega arith) exact short
