-- ===== src/Ps2.antt =====
-- drivers/ps2/controller: the driver of the PS/2 controller. This file is what all of it stands on:
-- the ports of the machine (intrinsics.h), and functions that read and write them and may return
-- early with an error.
pub mod Registers
pub mod CommandByte
pub mod Controller
pub mod Device
pub mod Setup
pub mod Commands
pub mod Generic
pub mod Tests
pub mod Rules
pub mod Polite
use maple_kernel.Base.{ℕ, ◌%◌, ◌^◌, Bool, true, false, List, [], ◌∷◌, u8}

-- One access of a port: its number and the byte.
pub data Event : Type 0 where
  read_port : ℕ → ℕ → Event
  write_port : ℕ → ℕ → Event

-- The accesses so far, the last one first.
abbrev pub Trace : Type 0
Trace = List Event

-- The hardware: the byte that it answers to a read of a port, which may depend on all that came
-- before.
abbrev pub Hardware : Type 0
Hardware = Trace → ℕ → ℕ

pub data Result (E A : Type 0) : Type 0 where
  ok : A → Result E A
  err : E → Result E A

-- What was written stays written when an error is returned.
abbrev pub Io : Type 0 → Type 0 → Type 0
Io E A = Hardware → Trace → Result E A × Trace

abbrev pub ⊤ : Type 0
⊤ = Unit {0}

unfoldable pub pure : {E A : Type 0} → A → Io E A
pure a device t = (ok a, t)

unfoldable pub raise : {E A : Type 0} → E → Io E A
raise e device t = (err e, t)

infixl 5 ◌>>=◌ ◌>>◌
unfoldable pub ◌>>=◌ : {E A B : Type 0} → Io E A → (A → Io E B) → Io E B
◌>>=◌ m f device t =
    let (r, t') = m device t in elim r [ ok a ↦ f a device t' | err e ↦ (err e, t') ]

abbrev pub ◌>>◌ : {E B : Type 0} → Io E ⊤ → Io E B → Io E B
m >> k = m >>= λ _. k

-- `__inb` and `__outb`.
unfoldable pub inb : {E : Type 0} → ℕ → Io E ℕ
inb port device t = let v = u8 (device t port) in (ok v, read_port port v ∷ t)

unfoldable pub outb : {E : Type 0} → ℕ → ℕ → Io E ⊤
outb port v device t = (ok tt, write_port port v ∷ t)

-- A caller that turns the errors of a function into its own.
unfoldable pub map_err : {E F A : Type 0} → (E → F) → Io E A → Io F A
map_err f m device t = let (r, t') = m device t in (elim r [ ok a ↦ ok a | err e ↦ err (f e) ], t')

-- A caller that goes on after an error.
unfoldable pub attempt : {E F A : Type 0} → Io E A → Io F (Result E A)
attempt m device t = let (r, t') = m device t in (ok r, t')
