-- ===== src/Ps2/Controller/Fake.antt =====
-- `fake_ps2_keyboard_byte` and `fake_ps2_mouse_byte` do not wait before their second byte.
use maple_kernel.Base.{ℕ, suc, ◌≡◌, ap, arith, Bool, true, false, if◌then◌else◌}
use maple_kernel.Ps2.{Hardware, Trace, Result, ok, err, ⊤, ◌>>◌, outb}
use maple_kernel.Ps2.Rules.{Outcome, Ensures, Ensures-bind, Ensures-weaken}
use maple_kernel.Ps2.Registers.{ErrorCode, ps2_data_port, ps2_command_port}
use maple_kernel.Ps2.Polite.{input_ready, unguarded_writes, IsPolite}
use maple_kernel.Ps2.Controller.Waits.{taken_when_ready}
use maple_kernel.Ps2.Controller.{
  fake_ps2_keyboard_byte, fake_ps2_mouse_byte, send_command_none_response,
  send_command_to_ps2_controller,
}

abbrev pub one_if_ok : Result ErrorCode ⊤ → ℕ
one_if_ok (ok _) = 1
one_if_ok (err _) = 0

one_more :
    (invited : Bool) (t : Trace)
    → invited ≡ false
    → unguarded_writes t ≡ 0
    → (if invited then unguarded_writes t else suc (unguarded_writes t)) ≡ 1
one_more true t e h = absurd (ground arith)
one_more false t e h = ap suc h

outb_at_once :
    (v : ℕ)
    → Ensures
        (λ t. IsPolite 0 t × (input_ready t ≡ false))
        (outb {E = ErrorCode} ps2_data_port v)
        (λ _ t. unguarded_writes t ≡ 1)
        (λ _ t. unguarded_writes t ≡ 0)
unfolding outb
outb_at_once v = record { at = λ d t p. one_more (input_ready t) t p.1 p.0.0 }

command_then :
    (c v : ℕ)
    → Ensures
        (IsPolite 0)
        (send_command_none_response c >> outb ps2_data_port v)
        (λ _ t. unguarded_writes t ≡ 1)
        (λ _ t. unguarded_writes t ≡ 0)
unfolding send_command_none_response send_command_to_ps2_controller
command_then c v =
    Ensures-bind _ _
      (Ensures-weaken (taken_when_ready 0 ps2_command_port c) (λ a t p. p) (λ e t p. p.0))
      λ _. outb_at_once v

counted :
    (o : Result ErrorCode ⊤ × Trace)
    → Outcome (λ _ t. unguarded_writes t ≡ 1) (λ _ t. unguarded_writes t ≡ 0) o
    → unguarded_writes o.1 ≡ one_if_ok o.0
counted (ok a, t) h = h
counted (err e, t) h = h

-- Whatever the hardware answers: if the protocol was kept so far, `fake_ps2_keyboard_byte` breaks it
-- by exactly one write when it succeeds, and by none when it returns an error; likewise
-- `fake_ps2_mouse_byte`.
pub fake_bytes-unguarded :
    (byte : ℕ) (device : Hardware) (t : Trace)
    → IsPolite 0 t
    → (unguarded_writes (fake_ps2_keyboard_byte byte device t).1
        ≡ one_if_ok (fake_ps2_keyboard_byte byte device t).0)
      × (unguarded_writes (fake_ps2_mouse_byte byte device t).1
          ≡ one_if_ok (fake_ps2_mouse_byte byte device t).0)
unfolding fake_ps2_keyboard_byte fake_ps2_mouse_byte
fake_bytes-unguarded byte device t p = (
  counted (fake_ps2_keyboard_byte byte device t) ((command_then _ byte).at device t p),
  counted (fake_ps2_mouse_byte byte device t) ((command_then _ byte).at device t p),
)
