-- ===== src/Base/Loop.antt =====
-- A counted loop of C, `for (k = first; k < first + rounds; k++) state = round k state`, and the
-- rule for what holds at its end.
use Prim.Native.Nat.{ℕ, zero, suc, ◌+◌, ◌≤◌, ◌<◌}
use mathlib.Core.Path.{◌≡◌, subst}
use native.Mathlib.Omega.{arith}

unfoldable pub for_range {ℓ} :
    {State : Type ℓ} (rounds first : ℕ) → (ℕ → State → State) → State → State
for_range zero first round state = state
for_range (suc left) first round state = for_range left (first + 1) round (round first state)

-- A round only has to keep `Inv` at the indices that the loop reaches.
pub for_range_inv {ℓ κ} :
    {State : Type ℓ} (Inv : ℕ → State → Type κ) (round : ℕ → State → State) (rounds first past : ℕ)
    (state : State)
    → first + rounds ≡ past
    → ((at : ℕ) (now : State) → first ≤ at → at < past → Inv at now → Inv (at + 1) (round at now))
    → Inv first state
    → Inv past (for_range rounds first round state)
unfolding for_range
for_range_inv Inv round zero first past state ends keeps holds =
    let over : first ≡ past = omega arith in subst (λ at. Inv at state) over holds
for_range_inv Inv round (suc left) first past state ends keeps holds =
    let onward = keeps first state (omega arith) (omega arith) holds in
    for_range_inv Inv round left (first + 1) past (round first state) (omega arith)
      (λ at now reached before. keeps at now (omega (arith, reached)) before) onward
