-- ===== src/Keyboard/Decode/Tests.antt =====
-- Runs of bytes through the decoder.
use maple_kernel.Base.{◌≡◌, ◌++◌, refl, true, false, [], ◌∷◌, some}
use maple_kernel.Keyboard.Decode.{
  key, extended_key, pause, pause_pressed_sequence, decode_two, decode_six, decode_pause, decode,
  decode_all,
}
use maple_kernel.Keyboard.Decode.Laws.{idle}
use maple_kernel.Keyboard.Decode.Pause.{after_pause}

left_arrow_test :
    decode_all idle (0xe0 ∷ 0x4b ∷ 0xe0 ∷ 0xcb ∷ [])
    ≡ some (idle, extended_key 0x4b true ∷ extended_key 0x4b false ∷ [])
unfolding decode_all decode decode_pause decode_two
left_arrow_test = refl

-- The same key once the pause key has been pressed.
pub after_pause_test :
    decode_all idle (pause_pressed_sequence ++ 0xe0 ∷ 0x4b ∷ [])
    ≡ some (after_pause, pause ∷ key 0x60 false ∷ key 0x4b true ∷ [])
unfolding decode_all decode decode_pause decode_six decode_two
after_pause_test = refl
