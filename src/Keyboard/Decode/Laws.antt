-- ===== src/Keyboard/Decode/Laws.antt =====
-- The decoder gives back the keys whose bytes it is sent.
use maple_kernel.Base.{
  ℕ, ◌+◌, ◌≤◌, ◌<◌, ◌≡◌, ◌≢◌, refl, true, false, List, [], ◌∷◌, ◌++◌, none, some, arith, All,
}
use maple_kernel.Keyboard.Decode.{
  Sequence, Parse, nothing, key, extended_key, print_screen, pause, decode_two, decode_four,
  decode_pause, decode, decode_all, pause_pressed_sequence,
}

-- Between two keys.
abbrev pub idle : Sequence
idle = record {
  previous_extended_signal = false;
  four_long_sequence = false;
  six_long_sequence = false;
  current_sequence_length = 0;
}

-- The bytes that the keyboard sends for a key.
abbrev pub encode : Parse → List ℕ
encode nothing = []
encode (key c true) = c ∷ []
encode (key c false) = (c + 0x80) ∷ []
encode (extended_key c true) = 0xe0 ∷ c ∷ []
encode (extended_key c false) = 0xe0 ∷ (c + 0x80) ∷ []
encode (print_screen true) = 0xe0 ∷ 0x2a ∷ 0xe0 ∷ 0x37 ∷ []
encode (print_screen false) = 0xe0 ∷ 0xb7 ∷ 0xe0 ∷ 0xaa ∷ []
encode pause = pause_pressed_sequence

abbrev pub encode_all : List Parse → List ℕ
encode_all [] = []
encode_all (p ∷ ps) = encode p ++ encode_all ps

-- Codes of ordinary keys, and of extended keys that do not begin another sequence.
abbrev pub IsKey : Parse → Type 0
IsKey nothing = ⊥
IsKey (key c b) = (0 < c) × (c < 0x59)
IsKey (extended_key c b) =
    (0x10 ≤ c) × (c < 0x6e) × (c ≢ 0x2a) × (c ≢ 0x37) × (c ≢ 0x60) × (c ≢ 0x61)
IsKey (print_screen b) = Unit
IsKey pause = ⊥

-- One byte of a run.
pub decode_all-nil : (s : Sequence) → decode_all s [] ≡ some (s, [])
unfolding decode_all
decode_all-nil s = refl

pub decode_all-cons :
    (s : Sequence) (b : ℕ) (bs : List ℕ)
    → decode_all s (b ∷ bs) ≡ elim (decode s b) [
      | none ↦ none
      | some (s', p) ↦ elim (decode_all s' bs) [
        | none ↦ none
        | some (t, ps) ↦ some (t, elim p [ nothing ↦ ps | other ↦ other ∷ ps ])
      ]
    ]
unfolding decode_all
decode_all-cons s b bs = refl

decode_one :
    (p : Parse) (bs : List ℕ) (t : Sequence) (ps : List Parse)
    → IsKey p
    → decode_all idle bs ≡ some (t, ps)
    → decode_all idle (encode p ++ bs) ≡ some (t, p ∷ ps)
unfolding decode_all decode decode_pause decode_two decode_four
decode_one nothing bs t ps v h = absurd v
decode_one (key c true) bs t ps v h = ground (arith, h)
decode_one (key c false) bs t ps v h = ground (arith, h)
decode_one (extended_key c true) bs t ps v h = ground (arith, h)
decode_one (extended_key c false) bs t ps v h = ground (arith, h)
decode_one (print_screen true) bs t ps v h = rw h
decode_one (print_screen false) bs t ps v h = rw h
decode_one pause bs t ps v h = absurd v

-- The decoder reads back the keys that were sent: for every list of ordinary keys, of extended
-- keys and of print-screen keys, pressed or released, their bytes decode to exactly these keys in
-- order, and the decoder is idle again.
pub decode_all-encode_all :
    (ps : List Parse) → All IsKey ps → decode_all idle (encode_all ps) ≡ some (idle, ps)
decode_all-encode_all [] v = unfold decode_all in refl
decode_all-encode_all (p ∷ ps) v =
    decode_one p (encode_all ps) idle ps v.0 (decode_all-encode_all ps v.1)
