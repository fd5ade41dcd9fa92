-- ===== src/Lock/Progress.antt =====
-- `reentrant_lock` of multicore.c on a lock that has become free.
use maple_kernel.Base.{
  ℕ, zero, suc, ◌^◌, ◌<◌, ◌≡◌, refl, ap, ◌∙◌, arith, ◌==◌, Bool, true, false, List, [], ◌∷◌,
  Bool-cases, inl, inr, Option-cases,
}
use maple_kernel.Lock.{
  trylock_desired, fast_desired, might_own, is_locked, Pc, idle, trying, fast, calling, spinning,
  releasing, Choice, proceed, refused, after_test, begin, move, cpu_id, run, free,
}
use maple_kernel.Lock.Word.{locked, trylock_free, might_own-free}
use maple_kernel.Lock.Invariant.{IsFresh, cpu_id-lt}
use maple_kernel.Lock.Safety.{run-IsFresh}
use maple_kernel.Lock.Alone.{
  solo, alone, alone-next, trying-wins, trying-loses, trying-stale, fast-breaks, fast-stale, ends,
}

-- A context anywhere in `reentrant_lock`, on a free lock.
abbrev pub IsLocking : Pc → Type 0
IsLocking (trying true expected) = Unit
IsLocking (fast expected) = Unit
IsLocking calling = Unit
IsLocking spinning = Unit
IsLocking _ = ⊥

abbrev pub proceeds : ℕ → List Choice
proceeds zero = []
proceeds (suc n) = proceed ∷ proceeds n

module _ (cpu : ℕ) (hc : cpu < 2 ^ 16) where
  abbrev Takes : ℕ → Pc → Type 0
  Takes n pc = alone cpu (proceeds n) 0 pc ≡ (locked cpu 1, idle true)

  idle-stays : (n w : ℕ) (a : Bool) → alone cpu (proceeds n) w (idle a) ≡ (w, idle a)
  unfolding alone move begin
  idle-stays zero w a = refl
  idle-stays (suc n) w a = idle-stays n w a

  trying_fresh-Takes : (n : ℕ) (by_lock : Bool) → Takes (suc n) (trying by_lock 0)
  trying_fresh-Takes n by_lock =
      alone-next cpu 0 proceed (trying by_lock 0) (proceeds n)
        (trying-wins cpu 0 by_lock (locked cpu 1) (trylock_free cpu hc))
      ∙ idle-stays n (locked cpu 1) true

  calling-Takes : (n : ℕ) → Takes (suc (suc n)) calling
  unfolding alone move
  calling-Takes n = trying_fresh-Takes n true

  spinning-Takes : (n : ℕ) → Takes (suc (suc (suc n))) spinning
  unfolding alone move is_locked
  spinning-Takes n = calling-Takes n

  trying-Takes : (n expected : ℕ) → Takes (suc (suc (suc (suc n)))) (trying true expected)
  unfolding refused
  trying-Takes n expected = elim (Option-cases (trylock_desired cpu expected)) [
    | inl e ↦
        alone-next cpu 0 proceed (trying true expected) (proceeds (suc (suc (suc n))))
          (trying-loses cpu 0 true expected proceed e)
        ∙ spinning-Takes n
    | inr (desired, e) ↦ elim (Bool-cases (0 == expected)) [
      | inl same ↦
          ap (λ x. (alone cpu (proceeds (suc (suc (suc (suc n))))) 0 (trying true x)))
            (ground (arith, same))
          ∙ trying_fresh-Takes (suc (suc (suc n))) true
      | inr stale ↦
          alone-next cpu 0 proceed (trying true expected) (proceeds (suc (suc (suc n))))
            (trying-stale cpu 0 true expected desired e stale)
          ∙ trying_fresh-Takes (suc (suc n)) true
    ]
  ]

  tested-Takes : (n : ℕ) → Takes (suc (suc n)) (after_test cpu 0)
  unfolding after_test
  tested-Takes n = rw (might_own-free cpu hc) (calling-Takes n)

  -- A fast path that succeeds on a free lock would need the free word as `expected`.
  fast-Takes :
      (n expected : ℕ) → might_own cpu expected ≡ true → Takes (suc (suc (suc n))) (fast expected)
  fast-Takes n expected own = elim (Option-cases (fast_desired expected)) [
    | inl e ↦
        alone-next cpu 0 proceed (fast expected) (proceeds (suc (suc n)))
          (fast-breaks cpu 0 expected proceed e)
        ∙ calling-Takes n
    | inr (desired, e) ↦ elim (Bool-cases (0 == expected)) [
      | inl same ↦ absurd (
          cc (
            might_own-free cpu hc,
            own,
            ap (might_own cpu) (let at : expected ≡ 0 = ground (arith, same) in at),
          ))
      | inr stale ↦
          alone-next cpu 0 proceed (fast expected) (proceeds (suc (suc n)))
            (fast-stale cpu 0 expected desired e stale)
          ∙ tested-Takes n
    ]
  ]

  pub locking-Takes : (pc : Pc) → IsFresh cpu pc → IsLocking pc → Takes 4 pc
  locking-Takes (trying true expected) f l = trying-Takes 0 expected
  locking-Takes (trying false expected) f l = absurd l
  locking-Takes (fast expected) f l = fast-Takes 1 expected f
  locking-Takes calling f l = calling-Takes 2
  locking-Takes spinning f l = spinning-Takes 1
  locking-Takes (idle a) f l = absurd l
  locking-Takes (releasing expected) f l = absurd l

-- After any interleaving from a free lock: if the lock is free again and a context is anywhere in
-- `reentrant_lock`, with whatever it has read before, then four steps of it, with no other context in
-- between and no weak exchange that fails without a reason, take the lock for its core and return.
pub lock-progress :
    (id : ℕ → ℕ) (schedule : List (ℕ × Choice)) (context : ℕ)
    → (run id schedule free).word ≡ 0
    → IsLocking ((run id schedule free).pc context)
    → let s = run id schedule free in
      ((run id (solo context (proceeds 4)) s).word ≡ locked (cpu_id id context) 1)
      × ((run id (solo context (proceeds 4)) s).pc context ≡ idle true)
lock-progress id schedule context word place =
    let s = run id schedule free in
    let cpu = cpu_id id context in
    ends id context (proceeds 4) s (
      ap (λ w. alone cpu (proceeds 4) w (s.pc context)) word
      ∙ locking-Takes cpu (cpu_id-lt id context) (s.pc context) (run-IsFresh id schedule context)
          place)
