-- ===== src/Lock/Spin.antt =====
-- stdlib/atomic.h: `spin_trylock`, `simple_spin_lock` and `simple_spin_unlock`, for contexts that
-- interleave at each atomic access, and that call `simple_spin_unlock` only while they hold the lock.
pub mod Safety
pub mod Tests
use maple_kernel.Base.{
  ℕ, zero, suc, ◌^◌, ◌≡◌, ◌≢◌, ◌⊎◌, inl, inr, refl, ap, sym, ◌∙◌, arith, Bool, true, false, not,
  ◌==◌, if◌then◌else◌, List, [], ◌∷◌, update, update_self, update_ne, Bool-cases, ==_iff, subst,
}

-- Where a context stands: outside, in the loop that only reads before the first exchange, before an
-- exchange, in the loop that only reads after one that failed, or inside the lock.
pub data Pc : Type 0 where
  outside : Pc
  reading : Pc
  exchanging : Pc
  rereading : Pc
  inside : Pc

-- A context outside calls one of the functions that lock, one inside the one that unlocks, and any
-- other goes on. At `fail` a weak exchange fails although the word is 0.
pub data Choice : Type 0 where
  trylock : Choice
  lock : Choice
  unlock : Choice
  proceed : Choice
  fail : Choice

-- The weak exchange of 0 for 1.
pub exchanges : Choice → (word : ℕ) → Bool
exchanges fail word = false
exchanges choice word = word == 0

pub spin_trylock : Choice → (word : ℕ) → ℕ × Pc
spin_trylock choice word = if exchanges choice word then (1, inside) else (word, outside)

pub simple_spin_lock : Choice → (word : ℕ) → Pc → ℕ × Pc
simple_spin_lock choice word reading = (word, if not (word == 0) then reading else exchanging)
simple_spin_lock choice word exchanging =
    if exchanges choice word then (1, inside) else (word, rereading)
simple_spin_lock choice word rereading = (word, if not (word == 0) then rereading else exchanging)
simple_spin_lock choice word pc = (word, pc)

pub simple_spin_unlock : ℕ × Pc
simple_spin_unlock = (0, outside)

-- What a context does that is in none of the functions: outside, and inside.
pub begin : Choice → (word : ℕ) → ℕ × Pc
begin trylock word = spin_trylock trylock word
begin fail word = spin_trylock fail word
begin lock word = (word, reading)
begin unlock word = (word, outside)
begin proceed word = (word, outside)

pub finish : Choice → (word : ℕ) → ℕ × Pc
finish unlock word = simple_spin_unlock
finish choice word = (word, inside)

-- One step of a context.
pub move : Choice → (word : ℕ) → Pc → ℕ × Pc
move choice word outside = begin choice word
move choice word inside = finish choice word
move choice word pc = simple_spin_lock choice word pc

pub record System : Type 0 where
  pub word : ℕ
  pub pc : ℕ → Pc

pub step : ℕ → Choice → System → System
step context choice s =
    let after = move choice s.word (s.pc context) in
    record { word = after.0; pc = update s.pc context after.1 }

pub run : List (ℕ × Choice) → System → System
run [] s = s
run ((context, choice) ∷ schedule) s = run schedule (step context choice s)

abbrev pub free : System
free = record { word = 0; pc = λ context. outside }

abbrev pub is_inside : Pc → Bool
is_inside inside = true
is_inside _ = false
