-- ===== src/Lock.antt =====
-- cpu/multicore/multicore.c: the lock that a core can take again while it holds it; and the spin
-- lock of stdlib/atomic.h. Memory is sequentially consistent here, so the memory orders are left
-- out. A context is one run of code on a core: a core has several where an interrupt handler runs
-- over other code. Contexts interleave at each atomic access.
pub mod Word
pub mod Invariant
pub mod Moves
pub mod Safety
pub mod Alone
pub mod Calls
pub mod Waiting
pub mod Progress
pub mod Spin
pub mod Tests
use maple_kernel.Base.{
  ℕ, zero, suc, ◌+◌, ◌-◌, ◌*◌, ◌/◌, ◌^◌, Bool, true, false, ◌&&◌, ◌||◌, not, Option, none, some,
  List, [], ◌∷◌, bit_and, bit_or, u32, ltb, ◌==◌, if◌then◌else◌, update,
}

abbrev pub lock_flag : ℕ
lock_flag = 1 * 2 ^ 31

abbrev pub recursion_shift : ℕ
recursion_shift = 16

abbrev pub recursion_mask : ℕ
recursion_mask = 0x7FFF * 2 ^ 16

abbrev pub owner_mask : ℕ
owner_mask = 0xFFFF

-- The local variables that a round of each loop takes from `expected`.
pub is_locked : ℕ → Bool
is_locked expected = not (bit_and expected lock_flag == 0)

pub owner : ℕ → ℕ
owner expected = bit_and expected owner_mask

pub recursion : ℕ → ℕ
recursion expected = bit_and expected recursion_mask / 2 ^ 16

-- The body of the loop of `reentrant_trylock` up to the exchange: `desired`, or `none` where it
-- returns false.
pub trylock_desired : (cpu_id expected : ℕ) → Option ℕ
trylock_desired cpu_id expected =
    if is_locked expected && (owner expected == cpu_id)
    then (if recursion expected == 0x7FFF then none else some (u32 (expected + 1 * 2 ^ 16)))
    else if not (is_locked expected)
    then some (bit_or (bit_or lock_flag cpu_id) (1 * 2 ^ 16))
    else none

-- The test that `reentrant_lock` makes before and in its fast path.
pub might_own : (cpu_id word : ℕ) → Bool
might_own cpu_id word = bit_and word (bit_or lock_flag owner_mask) == bit_or lock_flag cpu_id

-- The body of the loop of the fast path up to the exchange; `none` where it breaks.
pub fast_desired : (expected : ℕ) → Option ℕ
fast_desired expected =
    if recursion expected == 0x7FFF then none else some (u32 (expected + 1 * 2 ^ 16))

-- The body of the loop of `reentrant_unlock` up to the exchange; `none` where it returns early.
pub unlock_desired : (cpu_id expected : ℕ) → Option ℕ
unlock_desired cpu_id expected =
    if not (is_locked expected) || not (owner expected == cpu_id)
    then none
    else if ltb 1 (recursion expected)
    then some (u32 (expected + 2 ^ 32 - 1 * 2 ^ 16))
    else some 0

-- Where a context stands: between two atomic accesses, with the local variables that are live there.
pub data Pc : Type 0 where
  -- outside of the three functions; whether the call before took the lock
  idle : (acquired : Bool) → Pc
  -- in `reentrant_trylock`, before the exchange, called by `reentrant_lock` or not
  trying : (by_lock : Bool) (expected : ℕ) → Pc
  -- in `reentrant_lock`: before the exchange of the fast path, before the call of
  -- `reentrant_trylock`, and before the load of the loop that only reads
  fast : (expected : ℕ) → Pc
  calling : Pc
  spinning : Pc
  -- in `reentrant_unlock`, before the exchange
  releasing : (expected : ℕ) → Pc

-- What happens next: an idle context calls one of the functions, and any other goes on. At `fail` a
-- weak exchange fails although the word is the one expected.
pub data Choice : Type 0 where
  trylock : Choice
  lock : Choice
  unlock : Choice
  proceed : Choice
  fail : Choice

-- What a step is for the lock: it takes it once, gives it back once, or neither.
pub data Effect : Type 0 where
  keeps : Effect
  takes : Effect
  gives : Effect

pub record Outcome : Type 0 where
  pub word : ℕ
  pub pc : Pc
  pub effect : Effect

abbrev stay : ℕ → Pc → Outcome
stay word pc = record { word = word; pc = pc; effect = keeps }

-- `__atomic_compare_exchange_n`: whether it succeeds. The word at a failure goes to `expected`.
pub exchanges : (weak : Bool) → Choice → (word expected : ℕ) → Bool
exchanges true fail word expected = false
exchanges weak choice word expected = word == expected

-- A return of false from `reentrant_trylock`.
pub refused : Bool → Pc
refused true = spinning
refused false = idle false

-- `reentrant_lock` where the test of its fast path has been made.
pub after_test : (cpu_id word : ℕ) → Pc
after_test cpu_id word = if might_own cpu_id word then fast word else calling

-- The load at the start of each function.
pub begin : (cpu_id : ℕ) → Choice → (word : ℕ) (acquired : Bool) → Outcome
begin cpu_id trylock word a = stay word (trying false word)
begin cpu_id lock word a = stay word (after_test cpu_id word)
begin cpu_id unlock word a = stay word (releasing word)
begin cpu_id proceed word a = stay word (idle a)
begin cpu_id fail word a = stay word (idle a)

-- One step of a context on the core `cpu_id`: up to its next access of the word, and that access.
pub move : (cpu_id : ℕ) → Choice → (word : ℕ) → Pc → Outcome
move cpu_id choice word (idle a) = begin cpu_id choice word a
move cpu_id choice word (trying by_lock expected) = elim (trylock_desired cpu_id expected) [
  | none ↦ stay word (refused by_lock)
  | some desired ↦
      if exchanges true choice word expected
      then record { word = desired; pc = idle true; effect = takes }
      else stay word (trying by_lock word)
]
move cpu_id choice word (fast expected) = elim (fast_desired expected) [
  | none ↦ stay word calling
  | some desired ↦
      if exchanges true choice word expected
      then record { word = desired; pc = idle true; effect = takes }
      else stay word (after_test cpu_id word)
]
move cpu_id choice word calling = stay word (trying true word)
move cpu_id choice word spinning = stay word (if is_locked word then spinning else calling)
move cpu_id choice word (releasing expected) = elim (unlock_desired cpu_id expected) [
  | none ↦ stay word (idle false)
  | some desired ↦
      if exchanges false choice word expected
      then record { word = desired; pc = idle false; effect = gives }
      else stay word (releasing word)
]

-- The lock, how often each core holds it (by its id), and where each context stands.
pub record System : Type 0 where
  pub word : ℕ
  pub held : ℕ → ℕ
  pub pc : ℕ → Pc

pub count_effect : (cpu_id : ℕ) → Effect → (ℕ → ℕ) → (ℕ → ℕ)
count_effect cpu_id keeps held = held
count_effect cpu_id takes held = update held cpu_id (held cpu_id + 1)
count_effect cpu_id gives held = update held cpu_id (held cpu_id - 1)

-- The contexts of a machine. `apic_get_core_id` gives the id of the core that a context is on.
module _ (apic_get_core_id : ℕ → ℕ) where
  abbrev pub cpu_id : ℕ → ℕ
  cpu_id context = bit_and (apic_get_core_id context) owner_mask

  pub step : ℕ → Choice → System → System
  step context choice s =
      let after = move (cpu_id context) choice s.word (s.pc context) in
      record {
        word = after.word;
        held = count_effect (cpu_id context) after.effect s.held;
        pc = update s.pc context after.pc;
      }

  -- A run of the contexts, interleaved as the list says.
  pub run : List (ℕ × Choice) → System → System
  run [] s = s
  run ((context, choice) ∷ schedule) s = run schedule (step context choice s)

-- No core holds the lock, and no context is in one of the functions.
abbrev pub free : System
free = record { word = 0; held = λ cpu. 0; pc = λ context. idle false }
