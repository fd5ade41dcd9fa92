-- ===== src/Lock/Waiting.antt =====
-- `reentrant_lock` of multicore.c on a lock that it cannot take.
use maple_kernel.Base.{
  ℕ, ◌^◌, ◌<◌, ◌≡◌, ◌≢◌, refl, ap, sym, ◌∙◌, arith, Bool, true, false, none, some, List, [], ◌∷◌,
  ap₂, Bool-cases, inl, inr, subst,
}
use maple_kernel.Lock.{
  trylock_desired, fast_desired, might_own, is_locked, Pc, idle, trying, fast, calling, spinning,
  releasing, Choice, lock, refused, after_test, begin, move, System, cpu_id, run,
}
use maple_kernel.Lock.Word.{fast_locked, might_own-locked, might_own-free}
use maple_kernel.Lock.Invariant.{Holder, encode, IsValid, cpu_id-lt}
use maple_kernel.Lock.Alone.{solo, alone, trying-loses, fast-breaks, ends}
use maple_kernel.Lock.Calls.{taken, trylock-taken}

-- A context in `reentrant_lock`, for a lock that it cannot take.
abbrev Waits : ℕ → Holder → Pc → Type 0
Waits cpu h (trying true expected) = expected ≡ encode h
Waits cpu h (fast expected) = (expected ≡ encode h) × (might_own cpu expected ≡ true)
Waits cpu h calling = Unit
Waits cpu h spinning = Unit
Waits cpu h _ = ⊥

fast-none :
    (cpu : ℕ) (h : Holder)
    → cpu < 2 ^ 16
    → IsValid h
    → taken cpu h ≡ none
    → might_own cpu (encode h) ≡ true
    → fast_desired (encode h) ≡ none
fast-none cpu none hc v e own = absurd (cc (might_own-free cpu hc))
fast-none cpu (some (c, d)) hc v e own =
    ground (arith, fast_locked cpu c d v.0 v.2, might_own-locked cpu c d v.0 v.2 hc)

module _ (cpu : ℕ) (h : Holder) (hc : cpu < 2 ^ 16) (v : IsValid h) (e : taken cpu h ≡ none) where
  move-Waits :
      (choice : Choice) (pc : Pc)
      → Waits cpu h pc
      → ((move cpu choice (encode h) pc).word ≡ encode h)
        × Waits cpu h (move cpu choice (encode h) pc).pc
  unfolding move refused
  move-Waits choice calling w = (refl, refl)
  move-Waits choice spinning w = elim (Bool-cases (is_locked (encode h))) [
    | inl l ↦ rw (l) (refl, tt)
    | inr l ↦ rw (l) (refl, tt)
  ]
  move-Waits choice (trying true expected) w =
      rw
        (trying-loses cpu (encode h) true expected choice
          (ap (trylock_desired cpu) w ∙ trylock-taken cpu h hc v ∙ rw (e) refl))
        (refl, tt)
  move-Waits choice (fast expected) w =
      rw
        (fast-breaks cpu (encode h) expected choice
          (ap fast_desired w.0 ∙ fast-none cpu h hc v e (ap (might_own cpu) (sym w.0) ∙ w.1)))
        (refl, tt)
  move-Waits choice (idle a) w = absurd w
  move-Waits choice (trying false expected) w = absurd w
  move-Waits choice (releasing expected) w = absurd w

  alone-Waits :
      (choices : List Choice) (w : ℕ) (pc : Pc)
      → w ≡ encode h
      → Waits cpu h pc
      → ((alone cpu choices w pc).0 ≡ encode h) × Waits cpu h (alone cpu choices w pc).1
  unfolding alone
  alone-Waits [] w pc same waits = (same, waits)
  alone-Waits (choice ∷ choices) w pc same waits =
      let one : ((move cpu choice w pc).word ≡ encode h) × Waits cpu h (move cpu choice w pc).pc =
        subst
          (λ x. ((move cpu choice x pc).word ≡ encode h) × Waits cpu h (move cpu choice x pc).pc)
          (sym same) (move-Waits choice pc waits) in
      alone-Waits choices (move cpu choice w pc).word (move cpu choice w pc).pc one.0 one.1

  after_test-Waits : Waits cpu h (after_test cpu (encode h))
  unfolding after_test
  after_test-Waits = elim (Bool-cases (might_own cpu (encode h))) [
    | inl l ↦ rw (l) (refl, l)
    | inr l ↦ rw (l) tt
  ]

Waits-not_idle : (cpu : ℕ) (h : Holder) (pc : Pc) → Waits cpu h pc → (a : Bool) → pc ≢ idle a
Waits-not_idle cpu h (idle b) w a = absurd w
Waits-not_idle cpu h (trying by_lock expected) w a = cc
Waits-not_idle cpu h (fast expected) w a = cc
Waits-not_idle cpu h calling w a = cc
Waits-not_idle cpu h spinning w a = cc
Waits-not_idle cpu h (releasing expected) w a = absurd w

-- For a context that is in none of the three functions, and a lock that it cannot take: one that
-- another core holds, or that its own core holds 32767 times already. While no other context moves,
-- its call of `reentrant_lock` does not return, however many steps it makes, and changes nothing.
pub lock-waits :
    (id : ℕ → ℕ) (context : ℕ) (h : Holder) (s : System) (a b : Bool) (choices : List Choice)
    → IsValid h
    → s.word ≡ encode h
    → s.pc context ≡ idle a
    → taken (cpu_id id context) h ≡ none
    → ((run id (solo context (lock ∷ choices)) s).word ≡ s.word)
      × ((run id (solo context (lock ∷ choices)) s).pc context ≢ idle b)
unfolding alone move begin
lock-waits id context h s a b choices v word pc refuses =
    let cpu = cpu_id id context in
    let hc = cpu_id-lt id context in
    let began : alone cpu (lock ∷ choices) s.word (s.pc context)
        ≡ alone cpu choices (encode h) (after_test cpu (encode h)) =
      ap₂ (alone cpu (lock ∷ choices)) word pc in
    let ended = ends id context (lock ∷ choices) s began in
    let waits =
      alone-Waits cpu h hc v refuses choices (encode h) (after_test cpu (encode h)) refl
        (after_test-Waits cpu h hc v refuses) in
    (
      ended.0 ∙ waits.0 ∙ sym word,
      λ e.
          Waits-not_idle cpu h (alone cpu choices (encode h) (after_test cpu (encode h))).1 waits.1
            b (sym ended.1 ∙ e),
    )
