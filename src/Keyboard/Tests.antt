-- ===== src/Keyboard/Tests.antt =====
-- A key state, runs of bytes, and instances of the laws of the handler.
use maple_kernel.Base.{◌≡◌, refl, true, false, List, [], ◌∷◌, none, some, arith, All}
use maple_kernel.Keyboard.{Keyboard, handle_all}
use maple_kernel.Keyboard.Decode.{Parse, key, extended_key, print_screen, pause, decode_all}
use maple_kernel.Keyboard.Decode.Laws.{idle, IsKey, encode_all, decode_all-encode_all}
use maple_kernel.Keyboard.Decode.Tests.{after_pause_test}
use maple_kernel.Keyboard.Decode.Pause.{
  NotExtended, decode_all-after_pause, decode_all-repeated_pause,
}
use maple_kernel.Keyboard.Keys.{KeyState, Event, nop, all_off, parse}
use maple_kernel.Keyboard.Keys.Laws.{Follows, parse_lem}
use maple_kernel.Keyboard.Handler.{Tracks, handle_all_lem}

abbrev no_keys : KeyState
no_keys = record {
  led_keys = all_off;
  is_key_pressed = λ c. false;
  is_print_screen_pressed = false;
  key_functions = λ c. nop;
  is_key_tied_to_function = λ c. false;
  is_extended_key_pressed = λ c. false;
  extended_key_functions = λ c. nop;
  is_extended_key_tied_to_function = λ c. false;
}

abbrev at_rest : Keyboard
at_rest = record { ports = λ n. idle; keys = no_keys }

-- `a` and the left arrow are pressed, `a` is released, and print screen is pressed.
abbrev typed : List Parse
typed = key 0x1e true ∷ extended_key 0x4b true ∷ key 0x1e false ∷ print_screen true ∷ []

typed-IsKey : All IsKey typed
typed-IsKey = (
  (omega arith, omega arith),
  (
    (omega arith, omega arith, omega arith, omega arith, omega arith, omega arith),
    ((omega arith, omega arith), (tt, tt)),
  ),
)

decode_all-encode_all_example : decode_all idle (encode_all typed) ≡ some (idle, typed)
decode_all-encode_all_example = decode_all-encode_all typed typed-IsKey

parse_lem_example :
    (k' : KeyState) × (es : List Event) × (parse (key 0x1e true) no_keys ≡ some (k', es))
    × Follows (key 0x1e true) no_keys k'
parse_lem_example = parse_lem (key 0x1e true) no_keys (omega arith, omega arith)

handle_all_lem_example :
    (k' : Keyboard) × (es : List Event) × (handle_all (encode_all typed) 1 at_rest ≡ some (k', es))
    × (k'.ports 1 ≡ idle)
    × Tracks typed no_keys k'.keys
handle_all_lem_example = handle_all_lem typed at_rest typed-IsKey refl

-- The left arrow after the pause key: its two bytes are read as two ordinary keys.
decode_all-after_pause_example : All NotExtended (pause ∷ key 0x60 false ∷ key 0x4b true ∷ [])
decode_all-after_pause_example =
    decode_all-after_pause (0xe0 ∷ 0x4b ∷ []) _ (pause ∷ key 0x60 false ∷ key 0x4b true ∷ [])
      after_pause_test

decode_all-repeated_pause_example :
    decode_all idle (0xe1 ∷ 0xe1 ∷ 0xe1 ∷ 0xe1 ∷ 0xe1 ∷ 0xe1 ∷ 0x1d ∷ []) ≡ none
decode_all-repeated_pause_example = decode_all-repeated_pause 0x1d (omega arith) (omega arith)
