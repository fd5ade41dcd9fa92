-- ===== src/Ps2/Controller/Progress.antt =====
-- How long the two waits of ps2_controller.c take.
use maple_kernel.Base.{
  ℕ, zero, suc, ◌<◌, ◌≡◌, refl, ◌∙◌, arith, Bool, true, false, not, if◌then◌else◌, ◌∷◌, u8,
}
use maple_kernel.Ps2.{
  Hardware, Trace, Result, read_port, write_port, ok, err, Io, ⊤, pure, raise, ◌>>=◌, inb, outb,
}
use maple_kernel.Ps2.Registers.{
  ErrorCode, ps2_status_port, wait_max_itt_in, wait_max_itt_out, status_parity, status_timeout,
  input_buffer_full, output_buffer_full, parity_error, timeout_error, verify_status_parity,
  verify_status_timeout,
}
use maple_kernel.Ps2.Controller.{
  io_wait, read_ps2_status, poll_for_more_input, poll_for_response, wait_till_ready_for_more_input,
  wait_till_ready_for_response,
}

-- The status that the device gives after the access of port 0x80 that fills the time.
abbrev pub next_status : Hardware → Trace → ℕ
next_status device t = u8 (device (write_port 0x80 0 ∷ t) ps2_status_port)

abbrev pub next_round : Hardware → Trace → Trace
next_round device t = read_port ps2_status_port (next_status device t) ∷ write_port 0x80 0 ∷ t

-- The trace after so many rounds of waiting, and the status that round `k` reads.
abbrev pub rounds : Hardware → ℕ → Trace → Trace
rounds device zero t = t
rounds device (suc k) t = rounds device k (next_round device t)

abbrev pub status_in_round : Hardware → ℕ → Trace → ℕ
status_in_round device k t = next_status device (rounds device k t)

-- What the error bits of the status make of the end of a wait.
abbrev pub verdict : Bool → Bool → Result ErrorCode ⊤
verdict true timeout = err status_parity
verdict false true = err status_timeout
verdict false false = ok tt

module _ (device : Hardware) where
  more_input_busy :
      (full parity timeout : Bool) (again : Io ErrorCode ⊤) (t : Trace)
      → full ≡ true
      → (if not full
            then (if not (not parity)
                then raise status_parity
                else if not (not timeout)
                then raise status_timeout
                else pure tt)
            else again)
          device t
        ≡ again device t
  more_input_busy true parity timeout again t e = refl
  more_input_busy false parity timeout again t e = absurd (ground arith)

  more_input_free :
      (full parity timeout : Bool) (again : Io ErrorCode ⊤) (t : Trace)
      → full ≡ false
      → (if not full
            then (if not (not parity)
                then raise status_parity
                else if not (not timeout)
                then raise status_timeout
                else pure tt)
            else again)
          device t
        ≡ (verdict parity timeout, t)
  unfolding pure raise
  more_input_free true parity timeout again t e = absurd (ground arith)
  more_input_free false true timeout again t e = refl
  more_input_free false false true again t e = refl
  more_input_free false false false again t e = refl

  poll_for_more_input-free :
      (left k : ℕ) (t : Trace)
      → k < left
      → ((j : ℕ) → j < k → input_buffer_full (status_in_round device j t) ≡ true)
      → input_buffer_full (status_in_round device k t) ≡ false
      → poll_for_more_input left device t ≡ (
        verdict
            (parity_error (status_in_round device k t))
            (timeout_error (status_in_round device k t)),
        rounds device (suc k) t,
      )
  unfolding poll_for_more_input io_wait read_ps2_status inb outb ◌>>=◌ verify_status_parity
      verify_status_timeout
  poll_for_more_input-free zero k t h busy free = absurd (omega (arith, h))
  poll_for_more_input-free (suc left) zero t h busy free =
      more_input_free _ _ _ (poll_for_more_input left) (next_round device t) free
  poll_for_more_input-free (suc left) (suc k) t h busy free =
      more_input_busy _ (parity_error (next_status device t)) (timeout_error (next_status device t))
        (poll_for_more_input left) (next_round device t) (busy 0 (omega arith))
      ∙ poll_for_more_input-free left k (next_round device t) (omega (arith, h))
          (λ j hj. busy (suc j) (omega (arith, hj))) free

  poll_for_more_input-busy :
      (left : ℕ) (t : Trace)
      → ((j : ℕ) → j < left → input_buffer_full (status_in_round device j t) ≡ true)
      → poll_for_more_input left device t ≡ (err wait_max_itt_in, rounds device left t)
  unfolding poll_for_more_input io_wait read_ps2_status inb outb ◌>>=◌ raise verify_status_parity
      verify_status_timeout
  poll_for_more_input-busy zero t busy = refl
  poll_for_more_input-busy (suc left) t busy =
      more_input_busy _ (parity_error (next_status device t)) (timeout_error (next_status device t))
        (poll_for_more_input left) (next_round device t) (busy 0 (omega arith))
      ∙ poll_for_more_input-busy left (next_round device t)
          (λ j hj. busy (suc j) (omega (arith, hj)))

  response_there :
      (full : Bool) (again : Io ErrorCode ⊤) (t : Trace)
      → full ≡ true
      → (if full then pure tt else again) device t ≡ (ok tt, t)
  unfolding pure
  response_there true again t e = refl
  response_there false again t e = absurd (ground arith)

  response_awaited :
      (full : Bool) (again : Io ErrorCode ⊤) (t : Trace)
      → full ≡ false
      → (if full then pure tt else again) device t ≡ again device t
  response_awaited true again t e = absurd (ground arith)
  response_awaited false again t e = refl

  poll_for_response-there :
      (left k : ℕ) (t : Trace)
      → k < left
      → ((j : ℕ) → j < k → output_buffer_full (status_in_round device j t) ≡ false)
      → output_buffer_full (status_in_round device k t) ≡ true
      → poll_for_response left device t ≡ (ok tt, rounds device (suc k) t)
  unfolding poll_for_response io_wait read_ps2_status inb outb ◌>>=◌
  poll_for_response-there zero k t h empty full = absurd (omega (arith, h))
  poll_for_response-there (suc left) zero t h empty full =
      response_there _ (poll_for_response left) (next_round device t) full
  poll_for_response-there (suc left) (suc k) t h empty full =
      response_awaited _ (poll_for_response left) (next_round device t) (empty 0 (omega arith))
      ∙ poll_for_response-there left k (next_round device t) (omega (arith, h))
          (λ j hj. empty (suc j) (omega (arith, hj))) full

  poll_for_response-absent :
      (left : ℕ) (t : Trace)
      → ((j : ℕ) → j < left → output_buffer_full (status_in_round device j t) ≡ false)
      → poll_for_response left device t ≡ (err wait_max_itt_out, rounds device left t)
  unfolding poll_for_response io_wait read_ps2_status inb outb ◌>>=◌ raise
  poll_for_response-absent zero t empty = refl
  poll_for_response-absent (suc left) t empty =
      response_awaited _ (poll_for_response left) (next_round device t) (empty 0 (omega arith))
      ∙ poll_for_response-absent left (next_round device t)
          (λ j hj. empty (suc j) (omega (arith, hj)))

-- For a device that reports a full input buffer in the rounds before `k` and an empty one in round
-- `k < 1000`, `wait_till_ready_for_more_input` ends after that round: with the parity or the timeout
-- error if its status has one, else with success.
pub wait_till_ready_for_more_input-free :
    (device : Hardware) (k : ℕ) (t : Trace)
    → k < 1000
    → ((j : ℕ) → j < k → input_buffer_full (status_in_round device j t) ≡ true)
    → input_buffer_full (status_in_round device k t) ≡ false
    → wait_till_ready_for_more_input device t ≡ (
      verdict
          (parity_error (status_in_round device k t))
          (timeout_error (status_in_round device k t)),
      rounds device (suc k) t,
    )
unfolding wait_till_ready_for_more_input
wait_till_ready_for_more_input-free device k t = poll_for_more_input-free device 1000 k t

-- For a device that reports a full input buffer in every one of 1000 rounds,
-- `wait_till_ready_for_more_input` ends after them with `wait_max_itt_in`.
pub wait_till_ready_for_more_input-busy :
    (device : Hardware) (t : Trace)
    → ((j : ℕ) → j < 1000 → input_buffer_full (status_in_round device j t) ≡ true)
    → wait_till_ready_for_more_input device t ≡ (err wait_max_itt_in, rounds device 1000 t)
unfolding wait_till_ready_for_more_input
wait_till_ready_for_more_input-busy device t = poll_for_more_input-busy device 1000 t

-- For a device whose output buffer is empty in the rounds before `k` and full in round `k < 1000`,
-- `wait_till_ready_for_response` succeeds after that round.
pub wait_till_ready_for_response-there :
    (device : Hardware) (k : ℕ) (t : Trace)
    → k < 1000
    → ((j : ℕ) → j < k → output_buffer_full (status_in_round device j t) ≡ false)
    → output_buffer_full (status_in_round device k t) ≡ true
    → wait_till_ready_for_response device t ≡ (ok tt, rounds device (suc k) t)
unfolding wait_till_ready_for_response
wait_till_ready_for_response-there device k t = poll_for_response-there device 1000 k t

-- For a device whose output buffer is empty in every one of 1000 rounds,
-- `wait_till_ready_for_response` ends after them with `wait_max_itt_out`.
pub wait_till_ready_for_response-absent :
    (device : Hardware) (t : Trace)
    → ((j : ℕ) → j < 1000 → output_buffer_full (status_in_round device j t) ≡ false)
    → wait_till_ready_for_response device t ≡ (err wait_max_itt_out, rounds device 1000 t)
unfolding wait_till_ready_for_response
wait_till_ready_for_response-absent device t = poll_for_response-absent device 1000 t
