-- ===== src/Lock/Calls.antt =====
-- The functions of multicore.c, each called while no other context moves.
use maple_kernel.Base.{
  ℕ, zero, suc, ◌+◌, ◌-◌, ◌^◌, ◌<◌, ◌≡◌, refl, ◌∙◌, arith, ltb, ◌==◌, ◌&&◌, Bool, true, false, not,
  if◌then◌else◌, Option, none, some, [], ◌∷◌, ap₂, Bool-cases, inl, inr, Option-cases,
}
use mathlib.Core.Option
use maple_kernel.Lock.{
  trylock_desired, Pc, idle, trying, releasing, fail, trylock, unlock, proceed, refused, begin,
  move, System, cpu_id, run,
}
use maple_kernel.Lock.Word.{locked, trylock_free, trylock_locked, unlock_locked, unlock_free}
use maple_kernel.Lock.Invariant.{Holder, encode, IsValid, cpu_id-lt}
use maple_kernel.Lock.Alone.{
  solo, alone, alone-next, trying-wins, trying-loses, trying-fails, idle-rests, fails,
  releasing-wins, releasing-returns, ends,
}

-- What a call does that is not disturbed, for the abstract lock.
abbrev pub taken : ℕ → Holder → Option Holder
taken cpu none = some (some (cpu, 1))
taken cpu (some (owner, depth)) =
    if (owner == cpu) && not (depth == 0x7FFF) then some (some (owner, depth + 1)) else none

abbrev pub given : ℕ → Holder → Holder
given cpu none = none
given cpu (some (owner, depth)) =
    if owner == cpu
    then (if ltb 1 depth then some (owner, depth - 1) else none)
    else some (owner, depth)

abbrev pub answer : Holder → Option Holder → ℕ × Pc
answer h none = (encode h, idle false)
answer h (some now) = (encode now, idle true)

-- What the abstract lock says is what the words say.
pub trylock-taken :
    (cpu : ℕ) (h : Holder)
    → cpu < 2 ^ 16
    → IsValid h
    → trylock_desired cpu (encode h) ≡ Option.map encode (taken cpu h)
trylock-taken cpu none hc v = trylock_free cpu hc
trylock-taken cpu (some (c, d)) hc v = elim (Bool-cases ((c == cpu) && not (d == 0x7FFF))) [
  | inl e ↦ trylock_locked cpu c d v.0 v.2 ∙ rw (e) refl
  | inr e ↦ trylock_locked cpu c d v.0 v.2 ∙ rw (e) refl
]

trying-ends :
    (cpu w n : ℕ)
    → trylock_desired cpu w ≡ none
    → alone cpu (fails n (proceed ∷ [])) w (trying false w) ≡ (w, idle false)
unfolding alone refused
trying-ends cpu w zero e =
    alone-next cpu w proceed (trying false w) [] (trying-loses cpu w false w proceed e)
trying-ends cpu w (suc n) e =
    alone-next cpu w fail (trying false w) (fails n (proceed ∷ []))
      (trying-loses cpu w false w fail e)
    ∙ idle-rests cpu w n false

trylock-alone :
    (cpu : ℕ) (h : Holder) (n : ℕ) (a : Bool)
    → cpu < 2 ^ 16
    → IsValid h
    → alone cpu (trylock ∷ fails n (proceed ∷ [])) (encode h) (idle a) ≡ answer h (taken cpu h)
unfolding alone begin move
trylock-alone cpu h n a hc v = elim (Option-cases (taken cpu h)) [
  | inl e ↦ rw (e) (trying-ends cpu (encode h) n (trylock-taken cpu h hc v ∙ rw (e) refl))
  | inr (now, e) ↦
      let wins : trylock_desired cpu (encode h) ≡ some (encode now) =
        trylock-taken cpu h hc v ∙ rw (e) refl in
      rw (e) (
        trying-fails cpu (encode h) n false (encode now) (proceed ∷ []) wins
        ∙ alone-next cpu (encode h) proceed (trying false (encode h)) []
            (trying-wins cpu (encode h) false (encode now) wins))
]

unlock-alone :
    (cpu : ℕ) (h : Holder) (a : Bool)
    → IsValid h
    → alone cpu (unlock ∷ proceed ∷ []) (encode h) (idle a) ≡ (encode (given cpu h), idle false)
unfolding alone begin move
unlock-alone cpu none a v =
    alone-next cpu 0 proceed (releasing 0) [] (releasing-returns cpu 0 0 proceed (unlock_free cpu))
unlock-alone cpu (some (c, d)) a v = elim (Bool-cases (c == cpu)) [
  | inl e ↦
      alone-next cpu (locked c d) proceed (releasing (locked c d)) [] (
        releasing-wins cpu (locked c d) (if ltb 1 d then locked c (d - 1) else 0)
          (unlock_locked cpu c d v.0 v.2 v.1 ∙ rw (e) refl))
      ∙ ground (arith, e)
  | inr e ↦
      alone-next cpu (locked c d) proceed (releasing (locked c d)) [] (
        releasing-returns cpu (locked c d) (locked c d) proceed
          (unlock_locked cpu c d v.0 v.2 v.1 ∙ rw (e) refl))
      ∙ rw (e) refl
]

-- For a lock in any state, and a context that is in none of the three functions and that no other
-- disturbs: `reentrant_trylock` takes the lock and returns true if it is free, or if the context's
-- core holds it less than 32767 times; otherwise it returns false and leaves the word as it was. It
-- does so also where its weak exchange fails `n` times without cause, and then no more.
-- `reentrant_unlock` gives back one level where the core holds the lock, and frees it at the last;
-- where it does not hold it, the word stays as it was.
pub calls_lem :
    (id : ℕ → ℕ) (context : ℕ) (h : Holder) (n : ℕ) (s : System) (a : Bool)
    → IsValid h
    → s.word ≡ encode h
    → s.pc context ≡ idle a
    → (((run id (solo context (trylock ∷ fails n (proceed ∷ []))) s).word
          ≡ (answer h (taken (cpu_id id context) h)).0)
        × ((run id (solo context (trylock ∷ fails n (proceed ∷ []))) s).pc context
            ≡ (answer h (taken (cpu_id id context) h)).1))
      × (((run id (solo context (unlock ∷ proceed ∷ [])) s).word
            ≡ encode (given (cpu_id id context) h))
          × ((run id (solo context (unlock ∷ proceed ∷ [])) s).pc context ≡ idle false))
calls_lem id context h n s a v word pc = (
  ends id context (trylock ∷ fails n (proceed ∷ [])) s (
      ap₂ (alone (cpu_id id context) (trylock ∷ fails n (proceed ∷ []))) word pc
      ∙ trylock-alone (cpu_id id context) h n a (cpu_id-lt id context) v),
  ends id context (unlock ∷ proceed ∷ []) s (
      ap₂ (alone (cpu_id id context) (unlock ∷ proceed ∷ [])) word pc
      ∙ unlock-alone (cpu_id id context) h a v),
)
