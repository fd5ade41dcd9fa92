-- ===== src/Keyboard/Decode.antt =====
-- The byte sequences of `keyboard_handler_scs1`: its static variables for one port, and the call
-- that each byte leads to.
pub mod Laws
pub mod Pause
pub mod Tests
use maple_kernel.Base.{
  ℕ, zero, suc, ◌+◌, ◌-◌, Bool, true, false, ◌&&◌, ◌||◌, not, List, [], ◌∷◌, Option, none, some, u8,
  ltb, leb, ◌==◌, if◌then◌else◌, get_elem?,
}

pub record Sequence : Type 0 where
  pub previous_extended_signal : Bool
  pub four_long_sequence : Bool
  pub six_long_sequence : Bool
  pub current_sequence_length : ℕ

-- The call of a `parse` function; `nothing` where the handler only updates its variables.
pub data Parse : Type 0 where
  nothing : Parse
  key : ℕ → Bool → Parse
  extended_key : ℕ → Bool → Parse
  print_screen : Bool → Parse
  pause : Parse

abbrev pub print_screen_pressed_sequence : List ℕ
print_screen_pressed_sequence = 0xe0 ∷ 0x2a ∷ 0xe0 ∷ 0x37 ∷ []

abbrev pub print_screen_released_sequence : List ℕ
print_screen_released_sequence = 0xe0 ∷ 0xb7 ∷ 0xe0 ∷ 0xaa ∷ []

abbrev pub pause_pressed_sequence : List ℕ
pause_pressed_sequence = 0xe1 ∷ 0x1d ∷ 0x45 ∷ 0xe1 ∷ 0x9d ∷ 0xc5 ∷ []

abbrev pub psps1 : ℕ
psps1 = 0x2a

abbrev pub psrs1 : ℕ
psrs1 = 0xb7

abbrev pub extended_release_start : ℕ
extended_release_start = 0x90

abbrev pub release_start : ℕ
release_start = 0x81

abbrev pub release_offset : ℕ
release_offset = 0x80

-- The end of the handler: one byte, or the second of two.
pub decode_two : Sequence → ℕ → Sequence × Parse
decode_two s scancode =
    let s' = record s { previous_extended_signal = scancode == 0xe0 } in
    if s.previous_extended_signal
    then if leb extended_release_start scancode
      then (s', extended_key (scancode - release_offset) false)
      else (s', extended_key scancode true)
    else if leb release_start scancode
    then (s', key (scancode - release_offset) false)
    else (s', key scancode true)

-- Inside a sequence of four, where `at` is what the arrays hold at the place reached.
pub decode_four : Sequence → ℕ → ℕ → ℕ → Sequence × Parse
decode_four s scancode pressed_at released_at =
    let i = s.current_sequence_length in
    let s' = record s { previous_extended_signal = false } in
    let over = record s' { current_sequence_length = 0; four_long_sequence = false } in
    let onward = record s' { current_sequence_length = u8 (i + 1) } in
    if scancode == pressed_at
    then if i == 3 then (over, print_screen true) else (onward, nothing)
    else if scancode == released_at
    then if i == 3 then (over, print_screen false) else (onward, nothing)
    else (over, nothing)

-- Inside a sequence of six.
pub decode_six : Sequence → ℕ → ℕ → Sequence × Parse
decode_six s scancode pause_at =
    let i = s.current_sequence_length in
    let s' = record s { previous_extended_signal = false } in
    if scancode == pause_at
    then if i == 5
      then (record s' { current_sequence_length = 0 }, pause)
      else (record s' { current_sequence_length = u8 (i + 1) }, nothing)
    else decode_two s' scancode

-- A byte that neither begins nor continues a sequence of two or of four.
pub decode_pause : Sequence → ℕ → Option (Sequence × Parse)
decode_pause s scancode =
    if scancode == 0xe1
    then some (
      record s {
        six_long_sequence = true;
        current_sequence_length = u8 (s.current_sequence_length + 1);
        previous_extended_signal = false;
      },
      nothing,
    )
    else if s.six_long_sequence
    then elim (get_elem? pause_pressed_sequence s.current_sequence_length) [
      | none ↦ none
      | some c ↦ some (decode_six s scancode c)
    ]
    else some (decode_two s scancode)

-- `none` is a read past the end of one of the three arrays.
pub decode : Sequence → ℕ → Option (Sequence × Parse)
decode s scancode =
    if (scancode == 0xe0) && (not s.four_long_sequence && not s.six_long_sequence)
    then some (record s { previous_extended_signal = true }, nothing)
    else if (s.previous_extended_signal && not s.four_long_sequence)
        && (scancode == psps1 || scancode == psrs1)
    then some (
      record s {
        four_long_sequence = true;
        current_sequence_length = 2;
        previous_extended_signal = false;
      },
      nothing,
    )
    else if s.four_long_sequence
    then elim (get_elem? print_screen_pressed_sequence s.current_sequence_length) [
      | none ↦ none
      | some p ↦ elim (get_elem? print_screen_released_sequence s.current_sequence_length) [
        | none ↦ none
        | some r ↦ some (decode_four s scancode p r)
      ]
    ]
    else decode_pause s scancode

-- The calls that a run of bytes leads to, in order.
pub decode_all : Sequence → List ℕ → Option (Sequence × List Parse)
decode_all s [] = some (s, [])
decode_all s (b ∷ bs) = elim (decode s b) [
  | none ↦ none
  | some (s', p) ↦ elim (decode_all s' bs) [
    | none ↦ none
    | some (t, ps) ↦ some (t, elim p [ nothing ↦ ps | other ↦ other ∷ ps ])
  ]
]
