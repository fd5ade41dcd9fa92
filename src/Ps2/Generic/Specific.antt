-- ===== src/Ps2/Generic/Specific.antt =====
-- The generic way to send a command, and the functions that are made for one type of response.
use maple_kernel.Base.{[], Option, none, some, ℕ, ◌≡◌, refl}
use maple_kernel.Ps2.{Hardware, Trace, Result, ok, err, Io, pure, raise, ◌>>=◌, ◌>>◌, map_err}
use maple_kernel.Ps2.Registers.{
  ErrorCode, no_error, ResponseType, not_a_command, none_response, unknown,
  controller_configuration_byte, test_port, test_controller, controller_output_port, Verified,
}
use maple_kernel.Ps2.Controller.{
  send_command_to_ps2_controller, wait_till_ready_for_response, ps2_recieve_raw_response,
  send_command_none_response, send_command_unknown_response,
  send_command_configuration_byte_response, send_command_test_port_response,
  send_command_test_controller_response, send_command_test_controller_output_port_response,
}
use maple_kernel.Ps2.Generic.{
  Tagged, Stop, failed, assertion, judge, recieve_generic_verified_response, send_and_recieve,
  send_command_and_recieve_response, command_to_response_type,
}

-- A verified response with its tag.
abbrev pub tagged : ResponseType → Verified → Tagged
tagged response_type v = record { type = response_type; value = v.response; err = v.err }

-- An error field that is not set, as no error.
abbrev pub set_or_no_error : Option ErrorCode → ErrorCode
set_or_no_error none = no_error
set_or_no_error (some e) = e

-- The function of the driver that is made for a type of response. The one for an unknown response
-- leaves its error field unset where the command and the answer went through.
abbrev pub specific : ResponseType → ℕ → Io Stop Tagged
specific not_a_command command = raise assertion
specific none_response command = map_err failed (send_command_none_response command) >>= λ _.
    pure (record { type = none_response; value = 0; err = no_error })
specific unknown command = map_err failed (send_command_unknown_response command) >>= λ v.
    pure (record { type = unknown; value = v.0; err = set_or_no_error v.1 })
specific controller_configuration_byte command =
    map_err failed (send_command_configuration_byte_response command) >>= λ v.
    pure (tagged controller_configuration_byte v)
specific test_port command =
    map_err failed (send_command_test_port_response command) >>= λ v. pure (tagged test_port v)
specific test_controller command =
    map_err failed (send_command_test_controller_response command) >>= λ v.
    pure (tagged test_controller v)
specific controller_output_port command =
    map_err failed (send_command_test_controller_output_port_response command) >>= λ v.
    pure (tagged controller_output_port v)

-- One step of a chain, whose errors become those of the caller at once, or at the end of the chain.
chain-Outcome :
    {A B C : Type 0} (device : Hardware) (k : A → Io Stop B) (k' : A → Io ErrorCode C)
    (h : C → Io Stop B) (o : Result ErrorCode A × Trace)
    → ((a : A) (t : Trace) → k a device t ≡ (map_err failed (k' a) >>= h) device t)
    → (map_err failed (λ _ _. o) >>= k) device []
      ≡ (map_err failed ((λ _ _. o) >>= k') >>= h) device []
unfolding ◌>>=◌ map_err
chain-Outcome device k k' h (ok a, t) e = e a t
chain-Outcome device k k' h (err e, t) f = refl

chain :
    {A B C : Type 0} (device : Hardware) (m : Io ErrorCode A) (k : A → Io Stop B)
    (k' : A → Io ErrorCode C) (h : C → Io Stop B) (t : Trace)
    → ((a : A) (u : Trace) → k a device u ≡ (map_err failed (k' a) >>= h) device u)
    → (map_err failed m >>= k) device t ≡ (map_err failed (m >>= k') >>= h) device t
unfolding ◌>>=◌ map_err
chain device m k k' h t e = chain-Outcome device k k' h (m device t) e

last_step :
    {C : Type 0} (c : C) (g : C → Tagged) (device : Hardware) (u : Trace)
    → pure {E = Stop} (g c) device u ≡ (map_err failed (pure c) >>= λ x. pure (g x)) device u
unfolding ◌>>=◌ map_err pure
last_step c g device u = refl

-- The three steps of a command with a response.
with_response :
    {C : Type 0} (command : ℕ) (answer : ℕ → C) (g : C → Tagged) (device : Hardware) (t : Trace)
    → (map_err failed (send_command_to_ps2_controller command)
          >> (map_err failed wait_till_ready_for_response
              >> (map_err failed ps2_recieve_raw_response >>= λ raw. pure (g (answer raw)))))
        device t
      ≡ (map_err failed (
              send_command_to_ps2_controller command
              >> (wait_till_ready_for_response
                  >> (ps2_recieve_raw_response >>= λ raw. pure (answer raw))))
            >>= λ c. pure (g c))
          device t
with_response command answer g device t =
    chain device (send_command_to_ps2_controller command) _ _ _ t λ _ u.
      chain device wait_till_ready_for_response _ _ _ u λ _ v.
        chain device ps2_recieve_raw_response _ _ _ v λ raw w. last_step (answer raw) g device w

send_and_recieve-specific :
    (type : ResponseType) (command : ℕ) (device : Hardware) (t : Trace)
    → send_and_recieve type command device t ≡ specific type command device t
unfolding send_and_recieve recieve_generic_verified_response judge send_command_none_response
    send_command_unknown_response send_command_configuration_byte_response
    send_command_test_port_response send_command_test_controller_response
    send_command_test_controller_output_port_response
send_and_recieve-specific not_a_command command device t = refl
send_and_recieve-specific none_response command device t = refl
send_and_recieve-specific unknown command device t =
    with_response command (λ raw. (raw, none))
      (λ v. record { type = unknown; value = v.0; err = set_or_no_error v.1 }) device t
send_and_recieve-specific controller_configuration_byte command device t =
    with_response command _ (tagged controller_configuration_byte) device t
send_and_recieve-specific test_port command device t =
    with_response command _ (tagged test_port) device t
send_and_recieve-specific test_controller command device t =
    with_response command _ (tagged test_controller) device t
send_and_recieve-specific controller_output_port command device t =
    with_response command _ (tagged controller_output_port) device t

-- For any command and whatever the hardware answers, `send_command_and_recieve_response` makes the
-- accesses and returns the response, the error and the tag of the one function that is made for the
-- type that the table gives the command. For the unknown type that function leaves its error unset
-- where a response comes, and `send_command_and_recieve_response` returns that there is no error.
-- For a byte that the table does not know it fails in its assertion without an access.
pub send_command_and_recieve_response-specific :
    (command : ℕ) (device : Hardware) (t : Trace)
    → send_command_and_recieve_response command device t
      ≡ specific (command_to_response_type command) command device t
unfolding send_command_and_recieve_response
send_command_and_recieve_response-specific command =
    send_and_recieve-specific (command_to_response_type command) command
