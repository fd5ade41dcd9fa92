-- ===== src/Keyboard.antt =====
-- drivers/ps2/keyboard/ps2_keyboard_handler.c: the interrupt handler of the keyboard in scan code
-- set 1. `Decode` is the recognition of byte sequences, `Keys` what a recognised key does, and this
-- file joins the two as `keyboard_handler_scs1` does.
pub mod Decode
pub mod Keys
pub mod Handler
pub mod Tests
use maple_kernel.Base.{ℕ, List, [], ◌∷◌, ◌++◌, Option, none, some, ltb, ◌==◌, if◌then◌else◌, update}
use maple_kernel.Keyboard.Decode.{Sequence, Parse, decode}
use maple_kernel.Keyboard.Keys.{KeyState, Event, eoi, parse}

-- The static variables of the handler are arrays of two, by port number.
pub record Keyboard : Type 0 where
  pub ports : ℕ → Sequence
  pub keys : KeyState

abbrev pub ps2_port1_irq : ℕ
ps2_port1_irq = 1

abbrev pub ps2_port2_irq : ℕ
ps2_port2_irq = 12

-- The call that a byte leads to, and the `send_eoi` with which every branch ends.
pub dispatch : Option (Sequence × Parse) → ℕ → Keyboard → Option (Keyboard × List Event)
dispatch none port_number k = none
dispatch (some (s, p)) port_number k =
    let keyboard_irq = if port_number == 1 then ps2_port1_irq else ps2_port2_irq in
    elim (parse p k.keys) [
      | none ↦ none
      | some (keys, es) ↦ some (
        record { ports = update k.ports port_number s; keys = keys },
        es ++ eoi keyboard_irq ∷ [],
      )
    ]

-- `none` is an access past the end of an array: those of the ports have two elements.
pub keyboard_handler_scs1 : ℕ → ℕ → Keyboard → Option (Keyboard × List Event)
keyboard_handler_scs1 scancode port_number k =
    if ltb port_number 2
    then dispatch (decode (k.ports port_number) scancode) port_number k
    else none

abbrev pub prepend_events :
    List Event → Option (Keyboard × List Event) → Option (Keyboard × List Event)
prepend_events es none = none
prepend_events es (some (k, es')) = some (k, es ++ es')

-- The interrupts of a run of bytes.
pub handle_all : List ℕ → ℕ → Keyboard → Option (Keyboard × List Event)
handle_all [] port_number k = some (k, [])
handle_all (b ∷ bs) port_number k = elim (keyboard_handler_scs1 b port_number k) [
  | none ↦ none
  | some (k', es) ↦ prepend_events es (handle_all bs port_number k')
]
