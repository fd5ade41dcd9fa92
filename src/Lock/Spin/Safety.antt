-- ===== src/Lock/Spin/Safety.antt =====
-- stdlib/atomic.h: who may be inside the spin lock.
use maple_kernel.Base.{
  ℕ, ◌≡◌, ◌≢◌, inl, inr, refl, ap, sym, ◌∙◌, arith, true, false, not, ◌==◌, if◌then◌else◌, List, [],
  ◌∷◌, update, update_self, update_ne, Bool-cases,
}
use maple_kernel.Lock.Spin.{
  Pc, outside, reading, exchanging, rereading, inside, Choice, trylock, lock, unlock, proceed, fail,
  exchanges, spin_trylock, simple_spin_lock, simple_spin_unlock, begin, finish, move, System, step,
  run, free, is_inside,
}

-- The lock is free and nobody is inside, or it is taken and one context is.
pub data Inv (s : System) : Type 0 where
  unlocked : s.word ≡ 0 → ((t : ℕ) → is_inside (s.pc t) ≡ false) → Inv s
  locked :
      (holder : ℕ)
      → s.word ≡ 1
      → is_inside (s.pc holder) ≡ true
      → ((t : ℕ) → t ≢ holder → is_inside (s.pc t) ≡ false)
      → Inv s

-- What a step may do: leave the word and stay on its side of the lock, go inside where the word is 0,
-- or come out.
data Goes (w : ℕ) (pc : Pc) : ℕ × Pc → Type 0 where
  stays : {next : Pc} → is_inside next ≡ is_inside pc → Goes w pc (w, next)
  enters : w ≡ 0 → Goes w pc (1, inside)
  leaves : is_inside pc ≡ true → Goes w pc (0, outside)

exchange-Goes :
    (choice : Choice) (w : ℕ) (pc next : Pc)
    → is_inside next ≡ is_inside pc
    → Goes w pc (if exchanges choice w then (1, inside) else (w, next))
unfolding exchanges
exchange-Goes fail w pc next same = stays same
exchange-Goes trylock w pc next same = elim (Bool-cases (w == 0)) [
  | inl e ↦ rw (e) (enters (ground (arith, e)))
  | inr e ↦ rw (e) (stays same)
]
exchange-Goes lock w pc next same = elim (Bool-cases (w == 0)) [
  | inl e ↦ rw (e) (enters (ground (arith, e)))
  | inr e ↦ rw (e) (stays same)
]
exchange-Goes unlock w pc next same = elim (Bool-cases (w == 0)) [
  | inl e ↦ rw (e) (enters (ground (arith, e)))
  | inr e ↦ rw (e) (stays same)
]
exchange-Goes proceed w pc next same = elim (Bool-cases (w == 0)) [
  | inl e ↦ rw (e) (enters (ground (arith, e)))
  | inr e ↦ rw (e) (stays same)
]

read-outside :
    (w : ℕ) (pc : Pc)
    → is_inside pc ≡ false
    → is_inside (if not (w == 0) then pc else exchanging) ≡ false
read-outside w pc h = ground arith

lock-Goes : (choice : Choice) (w : ℕ) (pc : Pc) → Goes w pc (simple_spin_lock choice w pc)
unfolding simple_spin_lock
lock-Goes choice w outside = stays refl
lock-Goes choice w reading = stays (read-outside w reading refl)
lock-Goes choice w exchanging = exchange-Goes choice w exchanging rereading refl
lock-Goes choice w rereading = stays (read-outside w rereading refl)
lock-Goes choice w inside = stays refl

begin-Goes : (choice : Choice) (w : ℕ) → Goes w outside (begin choice w)
unfolding begin spin_trylock
begin-Goes trylock w = exchange-Goes trylock w outside outside refl
begin-Goes fail w = exchange-Goes fail w outside outside refl
begin-Goes lock w = stays refl
begin-Goes unlock w = stays refl
begin-Goes proceed w = stays refl

finish-Goes : (choice : Choice) (w : ℕ) → Goes w inside (finish choice w)
unfolding finish simple_spin_unlock
finish-Goes unlock w = leaves refl
finish-Goes trylock w = stays refl
finish-Goes lock w = stays refl
finish-Goes proceed w = stays refl
finish-Goes fail w = stays refl

move-Goes : (choice : Choice) (w : ℕ) (pc : Pc) → Goes w pc (move choice w pc)
unfolding move
move-Goes choice w outside = begin-Goes choice w
move-Goes choice w inside = finish-Goes choice w
move-Goes choice w reading = lock-Goes choice w reading
move-Goes choice w exchanging = lock-Goes choice w exchanging
move-Goes choice w rereading = lock-Goes choice w rereading

module _ (pc : ℕ → Pc) (context : ℕ) where
  -- A context that stays on its side of the lock changes no side.
  same_sides :
      (next : Pc)
      → is_inside next ≡ is_inside (pc context)
      → (t : ℕ) → is_inside (update pc context next t) ≡ is_inside (pc t)
  same_sides next same t = elim (Bool-cases (t == context)) [
    | inl e ↦
        let at : t ≡ context = ground (arith, e) in
        rw (e) (same ∙ ap (λ (c : ℕ). is_inside (pc c)) (sym at))
    | inr e ↦ rw (e) refl
  ]

  kept-Inv :
      (w : ℕ) (next : Pc)
      → is_inside next ≡ is_inside (pc context)
      → Inv (record { word = w; pc = pc })
      → Inv (record { word = w; pc = update pc context next })
  kept-Inv w next same (unlocked e none_in) = unlocked e (λ t. same_sides next same t ∙ none_in t)
  kept-Inv w next same (locked holder e held others) =
      locked holder e (same_sides next same holder ∙ held)
        (λ t ne. same_sides next same t ∙ others t ne)

  entered-Inv :
      (w : ℕ)
      → w ≡ 0
      → Inv (record { word = w; pc = pc })
      → Inv (record { word = 1; pc = update pc context inside })
  entered-Inv w empty (unlocked e none_in) =
      locked context refl (ap is_inside (update_self pc context inside))
        (λ t ne. ap is_inside (update_ne pc context inside t ne) ∙ none_in t)
  entered-Inv w empty (locked holder e held others) = absurd (omega (arith, e, empty))

  left-Inv :
      (w : ℕ)
      → is_inside (pc context) ≡ true
      → Inv (record { word = w; pc = pc })
      → Inv (record { word = 0; pc = update pc context outside })
  left-Inv w was_in (unlocked e none_in) = absurd (cc (none_in context))
  left-Inv w was_in (locked holder e held others) = unlocked refl (λ t.
      elim (Bool-cases (t == context)) [
        | inl same ↦ rw (same) refl
        | inr away ↦ rw (away) (
            others t (λ at. elim (Bool-cases (context == holder)) [
              | inl here ↦ ground (arith, at, here, away)
              | inr other ↦ cc (others context (ground (arith, other)))
            ]))
      ])

  step-Inv :
      (w : ℕ) (after : ℕ × Pc)
      → Goes w (pc context) after
      → Inv (record { word = w; pc = pc })
      → Inv (record { word = after.0; pc = update pc context after.1 })
  step-Inv w _ (stays {next} same) inv = kept-Inv w next same inv
  step-Inv w _ (enters e) inv = entered-Inv w e inv
  step-Inv w _ (leaves e) inv = left-Inv w e inv

run-Inv : (schedule : List (ℕ × Choice)) (s : System) → Inv s → Inv (run schedule s)
unfolding run step
run-Inv [] s inv = inv
run-Inv ((context, choice) ∷ schedule) s inv = run-Inv schedule (step context choice s) (
    step-Inv s.pc context s.word (move choice s.word (s.pc context))
      (move-Goes choice s.word (s.pc context)) inv)

inside-one :
    (s : System) (a b : ℕ)
    → is_inside (s.pc a) ≡ true
    → is_inside (s.pc b) ≡ true
    → Inv s
    → (a ≡ b) × (s.word ≡ 1)
inside-one s a b ha hb (unlocked e none_in) = absurd (cc (none_in a))
inside-one s a b ha hb (locked holder e held others) =
    let only = λ (t : ℕ) (h : is_inside (s.pc t) ≡ true).
      let at : t ≡ holder = elim (Bool-cases (t == holder)) [
        | inl same ↦ ground (arith, same)
        | inr away ↦ absurd (cc (others t (ground (arith, away))))
      ] in
      at in
    (only a ha ∙ sym (only b hb), e)

-- From a free lock, after any calls of the three functions by any contexts, interleaved in any way,
-- with weak exchanges that fail without a reason, where a context unlocks only while it is inside:
-- two contexts that are inside are the same, and while one is, the word is 1.
pub spin_exclusion :
    (schedule : List (ℕ × Choice)) (a b : ℕ)
    → is_inside ((run schedule free).pc a) ≡ true
    → is_inside ((run schedule free).pc b) ≡ true
    → (a ≡ b) × ((run schedule free).word ≡ 1)
spin_exclusion schedule a b ha hb =
    inside-one (run schedule free) a b ha hb (run-Inv schedule free (unlocked refl (λ t. refl)))
