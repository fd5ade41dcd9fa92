-- ===== src/Keyboard/Keys/Laws.antt =====
-- What a recognised key leaves in the key state.
use maple_kernel.Base.{
  ℕ, ◌<◌, ◌≡◌, refl, ap, Bool, true, false, not, List, [], ◌∷◌, ◌++◌, some, lt→ltb, ◌==◌,
  if◌then◌else◌, update,
}
use maple_kernel.Keyboard.Decode.{Parse, nothing, key, extended_key, print_screen, pause}
use maple_kernel.Keyboard.Decode.Laws.{IsKey}
use maple_kernel.Keyboard.Keys.{
  KeyFunction, nop, KeyState, Event, run_key_function, get_current_mod_state, keycode_handler,
  run_tied, parse_scan_code, parse_extended_scan_code, parse_print_screen, parse,
}

-- What one call makes of a key: pressed, released, or as it was.
abbrev pub held : Parse → ℕ → Bool → Bool
held (key code b) c old = if c == code then b else old
held nothing c old = old
held (extended_key code b) c old = old
held (print_screen b) c old = old
held pause c old = old

abbrev pub held_extended : Parse → ℕ → Bool → Bool
held_extended (extended_key code b) c old = if c == code then b else old
held_extended nothing c old = old
held_extended (key code b) c old = old
held_extended (print_screen b) c old = old
held_extended pause c old = old

abbrev pub held_print_screen : Parse → Bool → Bool
held_print_screen (print_screen b) old = b
held_print_screen nothing old = old
held_print_screen (extended_key code b) old = old
held_print_screen (key code b) old = old
held_print_screen pause old = old

-- The key states of `k'` are those of `k`, but for what `p` says.
pub record Follows (p : Parse) (k k' : KeyState) : Type 0 where
  pub keys : (c : ℕ) → k'.is_key_pressed c ≡ held p c (k.is_key_pressed c)
  pub extended_keys :
      (c : ℕ) → k'.is_extended_key_pressed c ≡ held_extended p c (k.is_extended_key_pressed c)
  pub print_screen_key : k'.is_print_screen_pressed ≡ held_print_screen p k.is_print_screen_pressed

-- A function tied to a key leaves the key states alone.
run_key_function-keys :
    (f : KeyFunction) (k : KeyState) → Follows nothing k ((run_key_function f k).0)
unfolding run_key_function
run_key_function-keys nop k = record {
  keys = λ c. refl;
  extended_keys = λ c. refl;
  print_screen_key = refl;
}
run_key_function-keys _ k = record {
  keys = λ c. refl;
  extended_keys = λ c. refl;
  print_screen_key = refl;
}

run_tied-keys :
    (tied : Bool) (f : KeyFunction) (k : KeyState) → Follows nothing k ((run_tied tied f k).0)
unfolding run_tied
run_tied-keys true f k = run_key_function-keys f k
run_tied-keys false f k = record {
  keys = λ c. refl;
  extended_keys = λ c. refl;
  print_screen_key = refl;
}

-- A call of a `parse` function returns, and leaves the key states as said.
abbrev pub Parses : Parse → KeyState → Type 0
Parses p k = (k' : KeyState) × (es : List Event) × (parse p k ≡ some (k', es)) × Follows p k k'

parse_scan_code-Parses : (code : ℕ) (b : Bool) (k : KeyState) → code < 0x59 → Parses (key code b) k
unfolding parse parse_scan_code
parse_scan_code-Parses code true k h =
    let after = run_tied (k.is_key_tied_to_function code) (k.key_functions code) k in
    let k' = after.0 in
    let same = run_tied-keys (k.is_key_tied_to_function code) (k.key_functions code) k in
    (
      (record k' { is_key_pressed = update k'.is_key_pressed code true }),
      after.1
          ++ keycode_handler (key code true) (get_current_mod_state k')
              (not (k'.is_key_pressed code)) true
            ∷ [],
      rw (lt→ltb code 0x59 h) refl,
      record {
        keys = λ c. ap (λ old. if c == code then true else old) (same.keys c);
        extended_keys = same.extended_keys;
        print_screen_key = same.print_screen_key;
      },
    )
parse_scan_code-Parses code false k h =
    let up = record k { is_key_pressed = update k.is_key_pressed code false } in
    (
      up,
      keycode_handler (key code false) (get_current_mod_state up) false false ∷ [],
      rw (lt→ltb code 0x59 h) refl,
      record { keys = λ c. refl; extended_keys = λ c. refl; print_screen_key = refl },
    )

parse_extended_scan_code-Parses :
    (code : ℕ) (b : Bool) (k : KeyState) → code < 0x6e → Parses (extended_key code b) k
unfolding parse parse_extended_scan_code
parse_extended_scan_code-Parses code true k h =
    let tied = k.is_extended_key_tied_to_function code in
    let after = run_tied tied (k.extended_key_functions code) k in
    let k' = after.0 in
    let same = run_tied-keys tied (k.extended_key_functions code) k in
    (
      (record k' { is_extended_key_pressed = update k'.is_extended_key_pressed code true }),
      after.1
          ++ keycode_handler (extended_key code true) (get_current_mod_state k')
              (not (k'.is_extended_key_pressed code)) true
            ∷ [],
      rw (lt→ltb code 0x6e h) refl,
      record {
        keys = same.keys;
        extended_keys = λ c. ap (λ old. if c == code then true else old) (same.extended_keys c);
        print_screen_key = same.print_screen_key;
      },
    )
parse_extended_scan_code-Parses code false k h =
    let up = record k { is_extended_key_pressed = update k.is_extended_key_pressed code false } in
    (
      up,
      keycode_handler (extended_key code false) (get_current_mod_state up) false false ∷ [],
      rw (lt→ltb code 0x6e h) refl,
      record { keys = λ c. refl; extended_keys = λ c. refl; print_screen_key = refl },
    )

pub parse-nothing : (k : KeyState) → Parses nothing k
unfolding parse
parse-nothing k =
    (k, [], refl, record { keys = λ c. refl; extended_keys = λ c. refl; print_screen_key = refl })

-- For every key whose code the keyboard can send, the call that handles it returns: no access is
-- out of bounds. Afterwards the key is pressed or released as the call says, and every other key,
-- ordinary, extended or print screen, is as it was.
pub parse_lem :
    (p : Parse) (k : KeyState)
    → IsKey p
    → (k' : KeyState) × (es : List Event) × (parse p k ≡ some (k', es)) × Follows p k k'
unfolding parse parse_print_screen
parse_lem nothing k v = absurd v
parse_lem (key code b) k v = parse_scan_code-Parses code b k v.1
parse_lem (extended_key code b) k v = parse_extended_scan_code-Parses code b k v.1
parse_lem (print_screen b) k v =
    (_, _, refl, record { keys = λ c. refl; extended_keys = λ c. refl; print_screen_key = refl })
parse_lem pause k v = absurd v
