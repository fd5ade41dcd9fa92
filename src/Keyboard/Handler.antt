-- ===== src/Keyboard/Handler.antt =====
-- The handler as a whole: bytes in, key states out.
use maple_kernel.Base.{
  ℕ, ◌≡◌, refl, ap, ◌∙◌, Bool, List, [], ◌∷◌, ◌++◌, Option, none, some, All, update, subst,
}
use maple_kernel.Keyboard.Decode.{
  Sequence, Parse, nothing, key, extended_key, print_screen, pause, decode, decode_all,
}
use maple_kernel.Keyboard.Decode.Laws.{
  IsKey, idle, encode_all, decode_all-nil, decode_all-cons, decode_all-encode_all,
}
use maple_kernel.Keyboard.Keys.{KeyState, Event, eoi}
use maple_kernel.Keyboard.Keys.Laws.{held, held_extended, Parses, parse-nothing, parse_lem}
use maple_kernel.Keyboard.{Keyboard, dispatch, keyboard_handler_scs1, prepend_events, handle_all}

-- What a run of calls makes of a key.
abbrev pub held_all : List Parse → ℕ → Bool → Bool
held_all [] c old = old
held_all (p ∷ ps) c old = held_all ps c (held p c old)

abbrev pub held_extended_all : List Parse → ℕ → Bool → Bool
held_extended_all [] c old = old
held_extended_all (p ∷ ps) c old = held_extended_all ps c (held_extended p c old)

-- The states of the keys of `k'` are those of `k` after the calls.
abbrev pub Tracks : List Parse → KeyState → KeyState → Type 0
Tracks ps k k' =
    ((c : ℕ) → k'.is_key_pressed c ≡ held_all ps c (k.is_key_pressed c))
    × ((c : ℕ)
        → k'.is_extended_key_pressed c ≡ held_extended_all ps c (k.is_extended_key_pressed c))

-- The run returns, with the decoder at `t` and the keys as `ps` says.
abbrev pub Handles : Keyboard → List Parse → Sequence → Option (Keyboard × List Event) → Type 0
Handles k ps t result =
    (k' : Keyboard) × (es : List Event) × (result ≡ some (k', es))
    × (k'.ports 1 ≡ t)
    × Tracks ps k.keys k'.keys

-- What follows the decoding of one byte.
abbrev rest : Option (Sequence × Parse) → List ℕ → Keyboard → Option (Keyboard × List Event)
rest o bs k = elim (dispatch o 1 k) [
  | none ↦ none
  | some (k', es) ↦ prepend_events es (handle_all bs 1 k')
]

rest-Handles :
    (s : Sequence) (p : Parse) (bs : List ℕ) (k : Keyboard) (ps : List Parse) (t : Sequence)
    → Parses p k.keys
    → ((k' : Keyboard) → k'.ports 1 ≡ s → Handles k' ps t (handle_all bs 1 k'))
    → Handles k (p ∷ ps) t (rest (some (s, p)) bs k)
unfolding dispatch
rest-Handles s p bs k ps t (keys, es, returns, follows) ih =
    let k₁ : Keyboard = record { ports = update k.ports 1 s; keys = keys } in
    let (k₂, es₂, runs, port, later) = ih k₁ refl in
    (
      k₂,
      (es ++ eoi 1 ∷ []) ++ es₂,
      rw (rest, dispatch, returns, runs) refl,
      port,
      (
        λ c. later.0 c ∙ ap (held_all ps c) (follows.keys c),
        λ c. later.1 c ∙ ap (held_extended_all ps c) (follows.extended_keys c),
      ),
    )

-- The run of the handler agrees with what the decoder makes of the bytes, when that is all keys.
abbrev Agrees : Keyboard → Option (Sequence × List Parse) → Option (Keyboard × List Event) → Type 0
Agrees k none result = Unit
Agrees k (some (t, ps)) result = All IsKey ps → Handles k ps t result

step-Agrees :
    (s : Sequence) (p : Parse) (bs : List ℕ) (k : Keyboard) (o : Option (Sequence × List Parse))
    → ((k' : Keyboard) → k'.ports 1 ≡ s → Agrees k' o (handle_all bs 1 k'))
    → Agrees k
        (elim o [
          | none ↦ none
          | some (t, ps) ↦ some (t, elim p [ nothing ↦ ps | other ↦ other ∷ ps ])
        ])
        (rest (some (s, p)) bs k)
step-Agrees s p bs k none ih = tt
step-Agrees s nothing bs k (some (t, ps)) ih =
    λ v. rest-Handles s nothing bs k ps t (parse-nothing k.keys) (λ k' e. ih k' e v)
step-Agrees s (key c b) bs k (some (t, ps)) ih =
    λ v. rest-Handles s (key c b) bs k ps t (parse_lem (key c b) k.keys v.0) (λ k' e. ih k' e v.1)
step-Agrees s (extended_key c b) bs k (some (t, ps)) ih = λ v.
    rest-Handles s (extended_key c b) bs k ps t (parse_lem (extended_key c b) k.keys v.0)
      (λ k' e. ih k' e v.1)
step-Agrees s (print_screen b) bs k (some (t, ps)) ih = λ v.
    rest-Handles s (print_screen b) bs k ps t (parse_lem (print_screen b) k.keys v.0)
      (λ k' e. ih k' e v.1)
step-Agrees s pause bs k (some (t, ps)) ih = λ v. absurd v.0

rest-Agrees :
    (o : Option (Sequence × Parse)) (bs : List ℕ) (k : Keyboard)
    → ((k' : Keyboard) → Agrees k' (decode_all (k'.ports 1) bs) (handle_all bs 1 k'))
    → Agrees k
        (elim o [
          | none ↦ none
          | some (s', p) ↦ elim (decode_all s' bs) [
            | none ↦ none
            | some (t, ps) ↦ some (t, elim p [ nothing ↦ ps | other ↦ other ∷ ps ])
          ]
        ])
        (rest o bs k)
rest-Agrees none bs k ih = tt
rest-Agrees (some (s, p)) bs k ih =
    step-Agrees s p bs k (decode_all s bs)
      (λ k' e. subst (λ s'. Agrees k' (decode_all s' bs) (handle_all bs 1 k')) e (ih k'))

handle_all-Agrees :
    (bs : List ℕ) (k : Keyboard) → Agrees k (decode_all (k.ports 1) bs) (handle_all bs 1 k)
unfolding handle_all keyboard_handler_scs1
handle_all-Agrees [] k =
    rw (decode_all-nil (k.ports 1)) (λ v. (k, [], refl, refl, (λ c. refl, λ c. refl)))
handle_all-Agrees (b ∷ bs) k =
    rw (decode_all-cons (k.ports 1) b bs)
      (rest-Agrees (decode (k.ports 1) b) bs k (handle_all-Agrees bs))

-- Bytes in, key states out: while the decoder of port 1 is idle, let the keyboard send the bytes of
-- any list of ordinary, extended and print-screen keys, pressed or released. Then the handler
-- returns for every byte, the decoder is idle again, and each ordinary or extended key is pressed
-- exactly if it was and was not released since, or was pressed last.
pub handle_all_lem :
    (ps : List Parse) (k : Keyboard)
    → All IsKey ps
    → k.ports 1 ≡ idle
    → (k' : Keyboard) × (es : List Event) × (handle_all (encode_all ps) 1 k ≡ some (k', es))
      × (k'.ports 1 ≡ idle)
      × Tracks ps k.keys k'.keys
handle_all_lem ps k v is_idle =
    let decoded : decode_all (k.ports 1) (encode_all ps) ≡ some (idle, ps) =
      rw is_idle (decode_all-encode_all ps v) in
    subst (λ o. Agrees k o (handle_all (encode_all ps) 1 k)) decoded
      (handle_all-Agrees (encode_all ps) k) v
