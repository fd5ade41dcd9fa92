-- ===== src/Ps2/Controller/Waits.antt =====
-- The two waits of ps2_controller.c, and an access of a port after one.
use maple_kernel.Base.{
  ℕ, zero, suc, ◌≤◌, ◌≡◌, refl, arith, Bool, true, false, not, ◌&&◌, ◌||◌, ◌==◌, if◌then◌else◌,
}
use maple_kernel.Ps2.{Trace, ⊤, pure, raise, ◌>>=◌, ◌>>◌, inb, outb}
use maple_kernel.Ps2.Rules.{Ensures, Keeps, Ensures-pure, Ensures-raise, Ensures-bind}
use maple_kernel.Ps2.Registers.{
  ErrorCode, status_parity, status_timeout, input_buffer_full, output_buffer_full, parity_error,
  timeout_error, verify_status_parity, verify_status_timeout,
}
use maple_kernel.Ps2.Polite.{input_ready, output_ready, unguarded_writes, unguarded_reads, IsPolite}
use maple_kernel.Ps2.Controller.{
  max_ps2_wait_loop, Action, io_wait, read_ps2_status, ps2_recieve_raw_response,
  poll_for_more_input, poll_for_response, wait_till_ready_for_more_input,
  wait_till_ready_for_response,
}

-- What the last status said.
abbrev pub Invites : ℕ → Trace → Type 0
Invites n t = IsPolite n t × (input_ready t ≡ true)

abbrev pub Offers : ℕ → Trace → Type 0
Offers n t = IsPolite n t × (output_ready t ≡ true)

module _ (n : ℕ) where
  io_wait-IsPolite : Keeps (IsPolite n) io_wait
  unfolding io_wait outb
  io_wait-IsPolite = record { at = λ d t p. p }

  -- The two questions about the last access have the answers that the status register gave.
  Answered : ℕ → Trace → Type 0
  Answered status t =
      IsPolite n t
      × (input_ready t ≡ (
          not (input_buffer_full status)
          && (not (parity_error status) && not (timeout_error status))))
      × (output_ready t ≡ output_buffer_full status)

  read_ps2_status-Answered :
      {R : ErrorCode → Trace → Type 0} → Ensures (IsPolite n) read_ps2_status Answered R
  unfolding read_ps2_status inb Answered
  read_ps2_status-Answered {R} = record { at = λ d t p. (p, refl, refl) }

  -- The tests of the loop, for what the three bits of the status may be.
  Bits : Bool → Bool → Bool → Trace → Type 0
  Bits full parity timeout t =
      IsPolite n t × (input_ready t ≡ (not full && (not parity && not timeout)))

  tests-Invites :
      (full parity timeout : Bool) (again : Action ⊤)
      → Ensures (IsPolite n) again (λ _. Invites n) (λ _. IsPolite n)
      → Ensures
          (Bits full parity timeout)
          (if not full
            then (if not (not parity)
                then raise status_parity
                else if not (not timeout)
                then raise status_timeout
                else pure tt)
            else again)
          (λ _. Invites n)
          (λ _. IsPolite n)
  unfolding Bits
  tests-Invites true parity timeout again h = record { at = λ d t p. h.at d t p.0 }
  tests-Invites false true timeout again h = Ensures-raise _ (λ t p. p.0)
  tests-Invites false false true again h = Ensures-raise _ (λ t p. p.0)
  tests-Invites false false false again h = Ensures-pure _ (λ t p. p)

  poll_for_more_input-Invites :
      (left : ℕ)
      → Ensures (IsPolite n) (poll_for_more_input left) (λ _. Invites n) (λ _. IsPolite n)
  unfolding poll_for_more_input verify_status_parity verify_status_timeout Answered Bits
  poll_for_more_input-Invites zero = Ensures-raise _ (λ t p. p)
  poll_for_more_input-Invites (suc left) =
      let again = poll_for_more_input-Invites left in
      Ensures-bind _ _ io_wait-IsPolite λ _. Ensures-bind _ _ read_ps2_status-Answered λ status.
        record {
          at = λ d t p.
              (tests-Invites (input_buffer_full status) (parity_error status) (timeout_error status)
                  _ again).at
                d t (p.0, p.1);
        }

  full-Offers :
      (full : Bool) (again : Action ⊤)
      → Ensures (IsPolite n) again (λ _. Offers n) (λ _. IsPolite n)
      → Ensures
          (λ t. IsPolite n t × (output_ready t ≡ full))
          (if full then pure tt else again)
          (λ _. Offers n)
          (λ _. IsPolite n)
  full-Offers true again h = Ensures-pure _ (λ t p. p)
  full-Offers false again h = record { at = λ d t p. h.at d t p.0 }

  poll_for_response-Offers :
      (left : ℕ) → Ensures (IsPolite n) (poll_for_response left) (λ _. Offers n) (λ _. IsPolite n)
  unfolding poll_for_response Answered
  poll_for_response-Offers zero = Ensures-raise _ (λ t p. p)
  poll_for_response-Offers (suc left) =
      let again = poll_for_response-Offers left in
      Ensures-bind _ _ io_wait-IsPolite λ _. Ensures-bind _ _ read_ps2_status-Answered λ status.
        record { at = λ d t p. (full-Offers (output_buffer_full status) _ again).at d t (p.0, p.2) }

  wait_till_ready_for_more_input-Invites :
      Ensures (IsPolite n) wait_till_ready_for_more_input (λ _. Invites n) (λ _. IsPolite n)
  unfolding wait_till_ready_for_more_input
  wait_till_ready_for_more_input-Invites = poll_for_more_input-Invites max_ps2_wait_loop

  pub wait_till_ready_for_response-Offers :
      Ensures (IsPolite n) wait_till_ready_for_response (λ _. Offers n) (λ _. IsPolite n)
  unfolding wait_till_ready_for_response
  wait_till_ready_for_response-Offers = poll_for_response-Offers max_ps2_wait_loop

  allowed_write :
      (other invited : Bool) (t : Trace)
      → invited ≡ true
      → unguarded_writes t ≡ 0
      → (if other || invited then unguarded_writes t else suc (unguarded_writes t)) ≡ 0
  allowed_write true invited t e h = h
  allowed_write false true t e h = h
  allowed_write false false t e h = absurd (ground arith)

  allowed_read :
      (offered : Bool) (t : Trace)
      → offered ≡ true
      → unguarded_reads t ≤ n
      → (if offered then unguarded_reads t else suc (unguarded_reads t)) ≤ n
  allowed_read true t e h = h
  allowed_read false t e h = absurd (ground arith)

  -- An access after such a wait.
  outb-Invites :
      (port v : ℕ) {R : ErrorCode → Trace → Type 0}
      → Ensures (Invites n) (outb port v) (λ _. IsPolite n) R
  unfolding outb
  outb-Invites port v {R} = record {
    at = λ d t p. (allowed_write (port == 0x80) (input_ready t) t p.1 p.0.0, p.0.1);
  }

  pub ps2_recieve_raw_response-Offers :
      {R : ErrorCode → Trace → Type 0}
      → Ensures (Offers n) ps2_recieve_raw_response (λ _. IsPolite n) R
  unfolding ps2_recieve_raw_response inb
  ps2_recieve_raw_response-Offers {R} = record {
    at = λ d t p. (p.0.0, allowed_read (output_ready t) t p.1 p.0.1);
  }

  -- Right after a write there is no invitation to the next one.
  outb-Taken :
      (port v : ℕ) {R : ErrorCode → Trace → Type 0}
      → Ensures (Invites n) (outb port v) (λ _ t. IsPolite n t × (input_ready t ≡ false)) R
  unfolding outb
  outb-Taken port v {R} = record {
    at = λ d t p. ((allowed_write (port == 0x80) (input_ready t) t p.1 p.0.0, p.0.1), refl);
  }

  pub taken_when_ready :
      (port v : ℕ)
      → Ensures
          (IsPolite n)
          (wait_till_ready_for_more_input >> outb port v)
          (λ _ t. IsPolite n t × (input_ready t ≡ false))
          (λ _. IsPolite n)
  taken_when_ready port v =
      Ensures-bind _ _ wait_till_ready_for_more_input-Invites λ _. outb-Taken port v

  -- A write or a read after such a wait, as the commands do it.
  pub write_when_ready :
      (port v : ℕ) → Keeps (IsPolite n) (wait_till_ready_for_more_input >> outb port v)
  write_when_ready port v =
      Ensures-bind _ _ wait_till_ready_for_more_input-Invites λ _. outb-Invites port v

  pub write_when_ready_then :
      {A : Type 0} (port v : ℕ) (k : Action A)
      → Keeps (IsPolite n) k
      → Keeps (IsPolite n) (wait_till_ready_for_more_input >> (outb port v >> k))
  write_when_ready_then port v k h =
      Ensures-bind _ _ wait_till_ready_for_more_input-Invites
        λ _. Ensures-bind _ _ (outb-Invites port v) λ _. h

  pub read_when_ready :
      {A : Type 0} (f : ℕ → Action A)
      → ((a : ℕ) → Keeps (IsPolite n) (f a))
      → Keeps (IsPolite n) (wait_till_ready_for_response >> (ps2_recieve_raw_response >>= f))
  read_when_ready f h =
      Ensures-bind _ _ wait_till_ready_for_response-Offers
        λ _. Ensures-bind _ _ ps2_recieve_raw_response-Offers h
