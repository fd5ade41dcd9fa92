-- ===== src/Lock/Tests.antt =====
-- Runs of the locks of multicore.c and atomic.h on concrete inputs.
use maple_kernel.Base.{ℕ, zero, suc, ◌≡◌, ◌≢◌, refl, arith, List, [], ◌∷◌, true, false, none, some}
use maple_kernel.Lock.{
  idle, spinning, Choice, trylock, lock, unlock, proceed, fail, exchanges, refused, after_test,
  begin, move, is_locked, owner, recursion, might_own, trylock_desired, fast_desired,
  unlock_desired, System, count_effect, cpu_id, step, run, free,
}
use maple_kernel.Lock.Word.{locked}
use maple_kernel.Lock.Invariant.{Holder, encode, IsValid, depth_of, Follows}
use maple_kernel.Lock.Safety.{run-Follows, mutual_exclusion}
use maple_kernel.Lock.Alone.{fails, solo}
use maple_kernel.Lock.Calls.{taken, given, answer, calls_lem}
use maple_kernel.Lock.Waiting.{lock-waits}
use maple_kernel.Lock.Progress.{IsLocking, proceeds, lock-progress}

-- Contexts 0 and 2 are on core 5, context 1 on core 6.
abbrev ids : ℕ → ℕ
ids zero = 5
ids (suc zero) = 6
ids (suc (suc n)) = 5

-- Core 5 takes the lock at the second try of a weak exchange; core 6 waits; an interrupt on core 5
-- takes it again.
abbrev contended : List (ℕ × Choice)
contended =
    (0, trylock)
    ∷ (0, fail)
    ∷ (0, proceed)
    ∷ (1, lock)
    ∷ (1, proceed)
    ∷ (1, proceed)
    ∷ (2, lock)
    ∷ (2, proceed)
    ∷ []

contended_state :
    ((run ids contended free).word ≡ locked 5 2)
    × ((run ids contended free).held 5 ≡ 2)
    × ((run ids contended free).pc 1 ≡ spinning)
unfolding run step move begin exchanges refused after_test is_locked owner recursion might_own
    trylock_desired fast_desired unlock_desired count_effect
contended_state = (refl, refl, refl)

run-Follows_example :
    (now : Holder) × Follows ids none now
    × IsValid now
    × ((run ids contended free).word ≡ encode now)
    × ((core : ℕ) → (run ids contended free).held core ≡ depth_of now core)
run-Follows_example = run-Follows ids contended

mutual_exclusion_example : ◌≡◌ {A = ℕ} 5 5
mutual_exclusion_example =
    mutual_exclusion ids contended 5 5 (omega (arith, contended_state.1))
      (omega (arith, contended_state.1))

-- Core 5 holds the lock once; context 1 of core 6 has called `reentrant_lock`; core 5 gives it back.
abbrev given_back : List (ℕ × Choice)
given_back =
    (0, trylock)
    ∷ (0, proceed)
    ∷ (1, lock)
    ∷ (1, proceed)
    ∷ (1, proceed)
    ∷ (0, unlock)
    ∷ (0, proceed)
    ∷ []

given_back_state :
    ((run ids given_back free).word ≡ 0) × ((run ids given_back free).pc 1 ≡ spinning)
unfolding run step move begin exchanges refused after_test is_locked owner recursion might_own
    trylock_desired fast_desired unlock_desired count_effect
given_back_state = (refl, refl)

given_back_place : IsLocking ((run ids given_back free).pc 1)
unfolding run step move begin exchanges refused after_test is_locked owner recursion might_own
    trylock_desired fast_desired unlock_desired count_effect
given_back_place = tt

lock-progress_example :
    ((run ids (solo 1 (proceeds 4)) (run ids given_back free)).word ≡ locked (cpu_id ids 1) 1)
    × ((run ids (solo 1 (proceeds 4)) (run ids given_back free)).pc 1 ≡ idle true)
lock-progress_example = lock-progress ids given_back 1 given_back_state.0 given_back_place

-- A lock that core 5 holds 3 times, and one that it holds as often as it can.
abbrev held_by_5 : ℕ → System
held_by_5 depth = record { word = locked 5 depth; held = λ core. 0; pc = λ context. idle false }

calls_lem_example :
    (((run ids (solo 2 (trylock ∷ fails 2 (proceed ∷ []))) (held_by_5 3)).word
        ≡ (answer (some (5, 3)) (taken (cpu_id ids 2) (some (5, 3)))).0)
      × ((run ids (solo 2 (trylock ∷ fails 2 (proceed ∷ []))) (held_by_5 3)).pc 2
          ≡ (answer (some (5, 3)) (taken (cpu_id ids 2) (some (5, 3)))).1))
    × (((run ids (solo 2 (unlock ∷ proceed ∷ [])) (held_by_5 3)).word
          ≡ encode (given (cpu_id ids 2) (some (5, 3))))
        × ((run ids (solo 2 (unlock ∷ proceed ∷ [])) (held_by_5 3)).pc 2 ≡ idle false))
calls_lem_example =
    calls_lem ids 2 (some (5, 3)) 2 (held_by_5 3) false (omega arith, omega arith, omega arith) refl
      refl

lock-waits_example :
    ((run ids (solo 0 (lock ∷ proceed ∷ fail ∷ proceed ∷ [])) (held_by_5 0x7FFF)).word
      ≡ locked 5 0x7FFF)
    × ((run ids (solo 0 (lock ∷ proceed ∷ fail ∷ proceed ∷ [])) (held_by_5 0x7FFF)).pc 0
        ≢ idle true)
lock-waits_example =
    lock-waits ids 0 (some (5, 0x7FFF)) (held_by_5 0x7FFF) false true
      (proceed ∷ fail ∷ proceed ∷ []) (omega arith, omega arith, omega arith) refl refl refl
