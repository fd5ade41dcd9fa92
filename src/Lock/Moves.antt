-- ===== src/Lock/Moves.antt =====
-- The steps of multicore.c against what its lock promises.
use maple_kernel.Base.{
  ℕ, ◌+◌, ◌-◌, ◌^◌, ◌<◌, ◌≡◌, refl, ap, sym, ◌∙◌, arith, Bool, true, false, ltb, if◌then◌else◌,
  none, some, Bool-cases, inl, inr, subst, Option-cases,
}
use maple_kernel.Lock.{
  trylock_desired, fast_desired, unlock_desired, might_own, Pc, idle, trying, fast, calling,
  spinning, releasing, Choice, trylock, lock, unlock, proceed, fail, Effect, keeps, takes, gives,
  exchanges, refused, begin, is_locked, after_test, move,
}
use maple_kernel.Lock.Word.{
  locked, trylock_free, trylock_locked, fast_locked, unlock_locked, might_own-locked,
  might_own-free, unlock_free,
}
use maple_kernel.Lock.Invariant.{
  Holder, encode, IsValid, Grants, nothing, first, again, less, last, IsFresh, Stepped,
}

unmoved :
    (cpu : ℕ) (h : Holder) (w : ℕ) (pc : Pc)
    → w ≡ encode h
    → IsValid h
    → IsFresh cpu pc
    → Stepped cpu h (record { word = w; pc = pc; effect = keeps })
unmoved cpu h w pc e v f = record { now = h; granted = nothing; valid = v; word = e; fresh = f }

after_test-IsFresh : (cpu w : ℕ) → IsFresh cpu (after_test cpu w)
unfolding after_test
after_test-IsFresh cpu w = elim (Bool-cases (might_own cpu w)) [
  | inl e ↦ rw (e) e
  | inr e ↦ rw (e) tt
]

refused-IsFresh : (cpu : ℕ) (by_lock : Bool) → IsFresh cpu (refused by_lock)
unfolding refused
refused-IsFresh cpu true = tt
refused-IsFresh cpu false = tt

again_here : (cpu c d : ℕ) → c ≡ cpu → d < 0x7FFF → Grants cpu takes (some (c, d)) (some (c, d + 1))
again_here cpu c d e h =
    subst (λ o. Grants cpu takes (some (o, d)) (some (o, d + 1))) (sym e) (again h)

less_here : (cpu c d : ℕ) → c ≡ cpu → 1 < d → Grants cpu gives (some (c, d)) (some (c, d - 1))
less_here cpu c d e h =
    subst (λ o. Grants cpu gives (some (o, d)) (some (o, d - 1))) (sym e) (less h)

last_here : (cpu c d : ℕ) → c ≡ cpu → d ≡ 1 → Grants cpu gives (some (c, d)) none
last_here cpu c d e h =
    subst (λ o. Grants cpu gives (some (o, d)) none) (sym e)
      (subst (λ k. Grants cpu gives (some (cpu, k)) none) (sym h) last)

-- The exchanges that succeed.
deeper :
    (cpu c d desired : ℕ)
    → IsValid (some (c, d))
    → c ≡ cpu
    → d < 0x7FFF
    → desired ≡ locked c (d + 1)
    → Stepped cpu (some (c, d)) (record { word = desired; pc = idle true; effect = takes })
deeper cpu c d desired v e h w = record {
  now = some (c, d + 1);
  granted = again_here cpu c d e h;
  valid = (v.0, omega arith, omega arith);
  word = w;
  fresh = tt;
}

trylock-taken :
    (cpu desired : ℕ) (h : Holder)
    → cpu < 2 ^ 16
    → IsValid h
    → trylock_desired cpu (encode h) ≡ some desired
    → Stepped cpu h (record { word = desired; pc = idle true; effect = takes })
trylock-taken cpu desired none hc v e = record {
  now = some (cpu, 1);
  granted = first;
  valid = (hc, omega arith, omega arith);
  word = cc (trylock_free cpu hc);
  fresh = tt;
}
trylock-taken cpu desired (some (c, d)) hc v e =
    deeper cpu c d desired v (ground (arith, trylock_locked cpu c d v.0 v.2))
      (ground (arith, trylock_locked cpu c d v.0 v.2))
      (ground (arith, trylock_locked cpu c d v.0 v.2))

fast-taken :
    (cpu desired : ℕ) (h : Holder)
    → cpu < 2 ^ 16
    → IsValid h
    → might_own cpu (encode h) ≡ true
    → fast_desired (encode h) ≡ some desired
    → Stepped cpu h (record { word = desired; pc = idle true; effect = takes })
fast-taken cpu desired none hc v own e = absurd (cc (might_own-free cpu hc))
fast-taken cpu desired (some (c, d)) hc v own e =
    deeper cpu c d desired v (ground (arith, might_own-locked cpu c d v.0 v.2 hc))
      (ground (arith, fast_locked cpu c d v.0 v.2)) (ground (arith, fast_locked cpu c d v.0 v.2))

unlock-given :
    (cpu desired : ℕ) (h : Holder)
    → IsValid h
    → unlock_desired cpu (encode h) ≡ some desired
    → Stepped cpu h (record { word = desired; pc = idle false; effect = gives })
unlock-given cpu desired none v e = absurd (cc (unlock_free cpu))
unlock-given cpu desired (some (c, d)) v e = elim (Bool-cases (ltb 1 d)) [
  | inl more ↦ record {
    now = some (c, d - 1);
    granted =
        less_here cpu c d (ground (arith, unlock_locked cpu c d v.0 v.2 v.1))
          (ground (arith, more));
    valid = (v.0, ground (arith, more), omega arith);
    word = ground (arith, more, unlock_locked cpu c d v.0 v.2 v.1);
    fresh = tt;
  }
  | inr one ↦ record {
    now = none;
    granted =
        last_here cpu c d (ground (arith, unlock_locked cpu c d v.0 v.2 v.1)) (ground (arith, one));
    valid = tt;
    word = ground (arith, one, unlock_locked cpu c d v.0 v.2 v.1);
    fresh = tt;
  }
]

exchanged : (weak : Bool) (choice : Choice) (w e : ℕ) → exchanges weak choice w e ≡ true → e ≡ w
unfolding exchanges
exchanged true fail w e h = cc
exchanged true trylock w e h = ground arith
exchanged true lock w e h = ground arith
exchanged true unlock w e h = ground arith
exchanged true proceed w e h = ground arith
exchanged false choice w e h = ground arith

-- An exchange, of `desired` for the `expected` that it was computed from.
attempt :
    (cpu : ℕ) (h : Holder) (w expected desired : ℕ) (test : Bool) (effect : Effect) (won lost : Pc)
    → w ≡ encode h
    → IsValid h
    → IsFresh cpu lost
    → (test ≡ true → expected ≡ w)
    → (expected ≡ w → Stepped cpu h (record { word = desired; pc = won; effect = effect }))
    → Stepped cpu h (
        if test
        then record { word = desired; pc = won; effect = effect }
        else record { word = w; pc = lost; effect = keeps })
attempt cpu h w expected desired true effect won lost e v f same wins = wins (same refl)
attempt cpu h w expected desired false effect won lost e v f same wins = unmoved cpu h w lost e v f

begin-Stepped :
    (cpu : ℕ) (h : Holder) (choice : Choice) (w : ℕ) (a : Bool)
    → w ≡ encode h
    → IsValid h
    → Stepped cpu h (begin cpu choice w a)
unfolding begin
begin-Stepped cpu h trylock w a e v = unmoved cpu h w (trying false w) e v tt
begin-Stepped cpu h lock w a e v = unmoved cpu h w (after_test cpu w) e v (after_test-IsFresh cpu w)
begin-Stepped cpu h unlock w a e v = unmoved cpu h w (releasing w) e v tt
begin-Stepped cpu h proceed w a e v = unmoved cpu h w (idle a) e v tt
begin-Stepped cpu h fail w a e v = unmoved cpu h w (idle a) e v tt

-- Every step is one that the lock may make.
pub move-Stepped :
    (cpu : ℕ) (h : Holder) (choice : Choice) (w : ℕ) (pc : Pc)
    → cpu < 2 ^ 16
    → w ≡ encode h
    → IsValid h
    → IsFresh cpu pc
    → Stepped cpu h (move cpu choice w pc)
unfolding move
move-Stepped cpu h choice w (idle a) hc e v f = begin-Stepped cpu h choice w a e v
move-Stepped cpu h choice w calling hc e v f = unmoved cpu h w (trying true w) e v tt
move-Stepped cpu h choice w spinning hc e v f = elim (Bool-cases (is_locked w)) [
  | inl l ↦ rw (l) (unmoved cpu h w spinning e v tt)
  | inr l ↦ rw (l) (unmoved cpu h w calling e v tt)
]
move-Stepped cpu h choice w (trying by_lock expected) hc e v f =
    elim (Option-cases (trylock_desired cpu expected)) [
      | inl r ↦ rw (r, move) (unmoved cpu h w (refused by_lock) e v (refused-IsFresh cpu by_lock))
      | inr (desired, r) ↦
          rw (r, move)
            (attempt cpu h w expected desired (exchanges true choice w expected) takes (idle true)
              (trying by_lock w) e v tt (exchanged true choice w expected)
              (λ same.
                trylock-taken cpu desired h hc v (ap (trylock_desired cpu) (sym e ∙ sym same) ∙ r)))
    ]
move-Stepped cpu h choice w (fast expected) hc e v f = elim (Option-cases (fast_desired expected)) [
  | inl r ↦ rw (r, move) (unmoved cpu h w calling e v tt)
  | inr (desired, r) ↦
      rw (r, move)
        (attempt cpu h w expected desired (exchanges true choice w expected) takes (idle true)
          (after_test cpu w) e v (after_test-IsFresh cpu w) (exchanged true choice w expected)
          (λ same.
            fast-taken cpu desired h hc v (ap (might_own cpu) (sym e ∙ sym same) ∙ f)
              (ap fast_desired (sym e ∙ sym same) ∙ r)))
]
move-Stepped cpu h choice w (releasing expected) hc e v f =
    elim (Option-cases (unlock_desired cpu expected)) [
      | inl r ↦ rw (r, move) (unmoved cpu h w (idle false) e v tt)
      | inr (desired, r) ↦
          rw (r, move)
            (attempt cpu h w expected desired (exchanges false choice w expected) gives (idle false)
              (releasing w) e v tt (exchanged false choice w expected)
              (λ same.
                unlock-given cpu desired h v (ap (unlock_desired cpu) (sym e ∙ sym same) ∙ r)))
    ]
