-- ===== src/Keyboard/Decode/Pause.antt =====
-- The pause key, after which the decoder is never idle again.
use maple_kernel.Base.{
  ℕ, ◌≡◌, ◌≢◌, refl, Bool, true, false, ◌&&◌, ◌||◌, not, List, [], ◌∷◌, ◌++◌, Option, none, some,
  arith, leb, ◌==◌, if◌then◌else◌, get_elem?, All, inl, inr, Option-cases, Bool-cases, subst,
}
use maple_kernel.Keyboard.Decode.{
  Sequence, Parse, nothing, key, extended_key, print_screen, pause, decode_two, decode_four,
  decode_six, decode_pause, decode, decode_all, pause_pressed_sequence, release_start, psps1, psrs1,
  print_screen_pressed_sequence, print_screen_released_sequence,
}
use maple_kernel.Keyboard.Decode.Laws.{idle}

-- Not the call for an extended key.
abbrev pub NotExtended : Parse → Type 0
NotExtended (extended_key c b) = ⊥
NotExtended nothing = Unit
NotExtended (key c b) = Unit
NotExtended (print_screen b) = Unit
NotExtended pause = Unit

abbrev pub after_pause : Sequence
after_pause = record idle { six_long_sequence = true }

-- The six bytes of the pause key are one call, and leave `six_long_sequence` set.
pub decode_all-pause : decode_all idle pause_pressed_sequence ≡ some (after_pause, pause ∷ [])
unfolding decode_all decode decode_pause decode_six
decode_all-pause = refl

-- What a step leaves: the flag stays, and no extended key is reported.
abbrev Stuck : Option (Sequence × Parse) → Type 0
Stuck none = Unit
Stuck (some (s, p)) = (s.six_long_sequence ≡ true) × NotExtended p

decode_two-Stuck :
    (s : Sequence) (b : ℕ)
    → s.six_long_sequence ≡ true
    → s.previous_extended_signal ≡ false
    → Stuck (some (decode_two s b))
unfolding decode_two
decode_two-Stuck s b six previous = elim (Bool-cases (leb release_start b)) [
  | inl e ↦ rw (previous, e) (six, tt)
  | inr e ↦ rw (previous, e) (six, tt)
]

decode_six-Stuck :
    (s : Sequence) (b c : ℕ) → s.six_long_sequence ≡ true → Stuck (some (decode_six s b c))
unfolding decode_six
decode_six-Stuck s b c six = elim (Bool-cases (b == c)) [
  | inl e ↦ elim (Bool-cases (s.current_sequence_length == 5)) [
    | inl f ↦ rw (e, f) (six, tt)
    | inr f ↦ rw (e, f) (six, tt)
  ]
  | inr e ↦ rw e (decode_two-Stuck (record s { previous_extended_signal = false }) b six refl)
]

decode_four-Stuck :
    (s : Sequence) (b p r : ℕ) → s.six_long_sequence ≡ true → Stuck (some (decode_four s b p r))
unfolding decode_four
decode_four-Stuck s b p r six = elim (Bool-cases (b == p)) [
  | inl e ↦ elim (Bool-cases (s.current_sequence_length == 3)) [
    | inl f ↦ rw (e, f) (six, tt)
    | inr f ↦ rw (e, f) (six, tt)
  ]
  | inr e ↦ elim (Bool-cases (b == r)) [
    | inl g ↦ elim (Bool-cases (s.current_sequence_length == 3)) [
      | inl f ↦ rw (e, g, f) (six, tt)
      | inr f ↦ rw (e, g, f) (six, tt)
    ]
    | inr g ↦ rw (e, g) (six, tt)
  ]
]

decode_pause-Stuck : (s : Sequence) (b : ℕ) → s.six_long_sequence ≡ true → Stuck (decode_pause s b)
unfolding decode_pause
decode_pause-Stuck s b six = elim (Bool-cases (b == 0xe1)) [
  | inl e ↦ rw e (refl, tt)
  | inr e ↦ elim (Option-cases (get_elem? pause_pressed_sequence s.current_sequence_length)) [
    | inl none_there ↦ rw (e, six, none_there) tt
    | inr (c, there) ↦ rw (e, six, there) (decode_six-Stuck s b c six)
  ]
]

-- A test, and a read of an array, leave what each of their outcomes leaves.
if-Stuck :
    (c : Bool) (x y : Option (Sequence × Parse)) → Stuck x → Stuck y → Stuck (if c then x else y)
if-Stuck true x y hx hy = hx
if-Stuck false x y hx hy = hy

read-Stuck :
    (o : Option ℕ) (f : ℕ → Option (Sequence × Parse))
    → ((c : ℕ) → Stuck (f c))
    → Stuck (elim o [ none ↦ none | some c ↦ f c ])
read-Stuck none f h = tt
read-Stuck (some c) f h = h c

decode-Stuck : (s : Sequence) (b : ℕ) → s.six_long_sequence ≡ true → Stuck (decode s b)
unfolding decode
decode-Stuck s b six =
    if-Stuck ((b == 0xe0) && (not s.four_long_sequence && not s.six_long_sequence)) _ _ (six, tt)
      (if-Stuck
        ((s.previous_extended_signal && not s.four_long_sequence) && (b == psps1 || b == psrs1)) _ _
        (six, tt)
        (if-Stuck s.four_long_sequence _ _
          (read-Stuck (get_elem? print_screen_pressed_sequence s.current_sequence_length) _ (λ p.
            read-Stuck (get_elem? print_screen_released_sequence s.current_sequence_length) _
              (λ r. decode_four-Stuck s b p r six)))
          (decode_pause-Stuck s b six)))

-- Along a whole run.
abbrev Quiet : Option (Sequence × List Parse) → Type 0
Quiet none = Unit
Quiet (some (t, ps)) = (t.six_long_sequence ≡ true) × All NotExtended ps

prepend-Quiet :
    (p : Parse) (o : Option (Sequence × List Parse))
    → NotExtended p
    → Quiet o
    → Quiet (elim o [
      | none ↦ none
      | some (t, ps) ↦ some (t, elim p [ nothing ↦ ps | other ↦ other ∷ ps ])
    ])
prepend-Quiet p none hp h = tt
prepend-Quiet nothing (some (t, ps)) hp h = h
prepend-Quiet (key c b) (some (t, ps)) hp h = (h.0, (tt, h.1))
prepend-Quiet (extended_key c b) (some (t, ps)) hp h = absurd hp
prepend-Quiet (print_screen b) (some (t, ps)) hp h = (h.0, (tt, h.1))
prepend-Quiet pause (some (t, ps)) hp h = (h.0, (tt, h.1))

step-Quiet :
    (o : Option (Sequence × Parse)) (bs : List ℕ)
    → Stuck o
    → ((s : Sequence) → s.six_long_sequence ≡ true → Quiet (decode_all s bs))
    → Quiet (elim o [
      | none ↦ none
      | some (s', p) ↦ elim (decode_all s' bs) [
        | none ↦ none
        | some (t, ps) ↦ some (t, elim p [ nothing ↦ ps | other ↦ other ∷ ps ])
      ]
    ])
step-Quiet none bs h ih = tt
step-Quiet (some (s, p)) bs h ih = prepend-Quiet p (decode_all s bs) h.1 (ih s h.0)

decode_all-Quiet :
    (s : Sequence) (bs : List ℕ) → s.six_long_sequence ≡ true → Quiet (decode_all s bs)
unfolding decode_all
decode_all-Quiet s [] six = (six, tt)
decode_all-Quiet s (b ∷ bs) six =
    step-Quiet (decode s b) bs (decode-Stuck s b six) (λ s'. decode_all-Quiet s' bs)

starts-Stuck : Stuck (decode idle 0xe1)
unfolding decode decode_pause
starts-Stuck = (refl, tt)

pause-Quiet : (bs : List ℕ) → Quiet (decode_all idle (pause_pressed_sequence ++ bs))
unfolding decode_all
pause-Quiet bs =
    let rest : List ℕ = 0x1d ∷ 0x45 ∷ 0xe1 ∷ 0x9d ∷ 0xc5 ∷ bs in
    step-Quiet (decode idle 0xe1) rest starts-Stuck (λ s. decode_all-Quiet s rest)

-- Once the pause key has been pressed between two keys, no later bytes lead to
-- `parse_extended_scan_code`: if the six bytes of the pause key and then any bytes are decoded from
-- the idle state, the calls they lead to hold no extended key.
pub decode_all-after_pause :
    (bs : List ℕ) (t : Sequence) (ps : List Parse)
    → decode_all idle (pause_pressed_sequence ++ bs) ≡ some (t, ps)
    → All NotExtended ps
decode_all-after_pause bs t ps h =
    let quiet : Quiet (some (t, ps)) = subst Quiet h (pause-Quiet bs) in quiet.1

-- After six bytes 0xE1 from the idle state, any byte but 0xE0 and 0xE1 leads to a read past the end
-- of `pause_pressed_sequence`.
pub decode_all-repeated_pause :
    (b : ℕ)
    → b ≢ 0xe0
    → b ≢ 0xe1
    → decode_all idle (0xe1 ∷ 0xe1 ∷ 0xe1 ∷ 0xe1 ∷ 0xe1 ∷ 0xe1 ∷ b ∷ []) ≡ none
unfolding decode_all decode decode_pause
decode_all-repeated_pause b not_e0 not_e1 = ground arith
