-- ===== src/Bits/Wrap.antt =====
-- Fields whose place is not in a word: the shifts of the 80386 read their counts modulo 32.
use maple_kernel.Base.{ℕ, ◌≡◌, refl}
use maple_kernel.Bits.{get_bits, set_bits, generate_mask, generate_anti_mask, shl32, shr32}

-- A count of 128 or of 32 shifts by nothing.
pub same_bit : (x : ℕ) → (get_bits x 128 128 ≡ get_bits x 0 0) × (get_bits x 32 32 ≡ get_bits x 0 0)
unfolding get_bits generate_mask shl32 shr32
same_bit x = (refl, refl)

pub same_write :
    (x v : ℕ) → (set_bits x v 128 128 ≡ set_bits x v 0 0) × (set_bits x v 32 32 ≡ set_bits x v 0 0)
unfolding set_bits generate_anti_mask generate_mask shl32
same_write x v = (refl, refl)
