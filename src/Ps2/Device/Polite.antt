-- ===== src/Ps2/Device/Polite.antt =====
-- `reset_port_and_get_device_type` and the protocol of `Ps2.Polite`.
use maple_kernel.Base.{ℕ}
use maple_kernel.Ps2.{Trace, Result, ok, err, ⊤}
use maple_kernel.Ps2.Rules.{Ensures, Keeps, Ensures-bind, Ensures-attempt}
use maple_kernel.Ps2.Registers.{ErrorCode}
use maple_kernel.Ps2.Polite.{IsPolite}
use maple_kernel.Ps2.Controller.Waits.{
  Offers, wait_till_ready_for_response-Offers, ps2_recieve_raw_response-Offers,
}
use maple_kernel.Ps2.Controller.Polite.{driver_rules, send_command_or_data_to_ps2_port-IsPolite}
use maple_kernel.Ps2.Device.{
  len3_device, len4_device, after_third, identify_device, reset_port_and_get_device_type,
}

module _ (n : ℕ) where
  len3_device-IsPolite : (rep3 : ℕ) → Keeps (IsPolite n) (len3_device rep3)
  unfolding len3_device
  len3_device-IsPolite rep3 = search driver_rules depth 20

  len4_device-IsPolite : (rep4 : ℕ) → Keeps (IsPolite n) (len4_device rep4)
  unfolding len4_device
  len4_device-IsPolite rep4 = search driver_rules depth 20

  -- Where the first wait stands: a byte is there, or none came.
  Third : Result ErrorCode ⊤ → Trace → Type 0
  Third (ok _) = Offers n
  Third (err _) = IsPolite n

  after_third-IsPolite :
      (third : Result ErrorCode ⊤)
      → Ensures (Third third) (after_third third) (λ _. IsPolite n) (λ _. IsPolite n)
  unfolding after_third Third
  after_third-IsPolite (ok _) =
      Ensures-bind _ _ (ps2_recieve_raw_response-Offers n)
        λ rep3. search (driver_rules, len3_device-IsPolite, len4_device-IsPolite) depth 20
  after_third-IsPolite (err _) = search driver_rules depth 20

  identify_device-IsPolite : Keeps (IsPolite n) identify_device
  unfolding identify_device Third
  identify_device-IsPolite =
      Ensures-bind _ _ (Ensures-attempt Third _ (wait_till_ready_for_response-Offers n))
        after_third-IsPolite

  pub reset_port_and_get_device_type-IsPolite :
      (port : ℕ) → Keeps (IsPolite n) (reset_port_and_get_device_type port)
  unfolding reset_port_and_get_device_type
  reset_port_and_get_device_type-IsPolite port =
      search (driver_rules, send_command_or_data_to_ps2_port-IsPolite, identify_device-IsPolite)
        depth 20
