-- ===== src/Lock/Spin/Tests.antt =====
-- Runs of the spin lock of atomic.h.
use maple_kernel.Base.{ℕ, ◌≡◌, refl, List, [], ◌∷◌, true}
use maple_kernel.Lock.Spin.{
  Choice, lock, proceed, exchanges, simple_spin_lock, begin, move, step, run, free, is_inside,
}
use maple_kernel.Lock.Spin.Safety.{spin_exclusion}

-- Of two contexts that try the spin lock at once, the first gets in.
abbrev raced : List (ℕ × Choice)
raced = (0, lock) ∷ (1, lock) ∷ (0, proceed) ∷ (1, proceed) ∷ (0, proceed) ∷ (1, proceed) ∷ []

raced_inside : is_inside ((run raced free).pc 0) ≡ true
unfolding run step move begin simple_spin_lock exchanges
raced_inside = refl

spin_exclusion_example : (◌≡◌ {A = ℕ} 0 0) × ((run raced free).word ≡ 1)
spin_exclusion_example = spin_exclusion raced 0 0 raced_inside raced_inside
