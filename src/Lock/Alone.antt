-- ===== src/Lock/Alone.antt =====
-- multicore.c: the steps of one context while no other moves.
use maple_kernel.Base.{
  ℕ, zero, suc, ◌≡◌, refl, ap, ◌∙◌, arith, ◌==◌, Bool, true, false, none, some, List, [], ◌∷◌,
  update, update_self,
}
use maple_kernel.Lock.{
  trylock_desired, fast_desired, unlock_desired, Pc, idle, trying, fast, calling, releasing, Choice,
  proceed, fail, begin, keeps, takes, gives, Outcome, exchanges, refused, after_test, move, System,
  cpu_id, step, run,
}

-- The steps of one context.
abbrev pub solo : ℕ → List Choice → List (ℕ × Choice)
solo context [] = []
solo context (choice ∷ choices) = (context, choice) ∷ solo context choices

-- The word and the place of the one context that moves.
unfoldable pub alone : (cpu : ℕ) → List Choice → ℕ → Pc → ℕ × Pc
alone cpu [] w pc = (w, pc)
alone cpu (choice ∷ choices) w pc =
    let after = move cpu choice w pc in alone cpu choices after.word after.pc

pub run-solo :
    (id : ℕ → ℕ) (context : ℕ) (choices : List Choice) (s : System)
    → ((run id (solo context choices) s).word
        ≡ (alone (cpu_id id context) choices s.word (s.pc context)).0)
      × ((run id (solo context choices) s).pc context
          ≡ (alone (cpu_id id context) choices s.word (s.pc context)).1)
unfolding run alone step
run-solo id context [] s = (refl, refl)
run-solo id context (choice ∷ choices) s =
    let after = move (cpu_id id context) choice s.word (s.pc context) in
    let here : update s.pc context after.pc context ≡ after.pc =
      update_self s.pc context after.pc in
    let rest = run-solo id context choices (step id context choice s) in
    (
      rest.0 ∙ ap (λ p. (alone (cpu_id id context) choices after.word p).0) here,
      rest.1 ∙ ap (λ p. (alone (cpu_id id context) choices after.word p).1) here,
    )

exchange_same : (weak : Bool) (w : ℕ) → exchanges weak proceed w w ≡ true
unfolding exchanges
exchange_same true w = ground arith
exchange_same false w = ground arith

-- Single steps, at a choice that lets an exchange succeed.
module _ (cpu w : ℕ) where
  pub alone-next :
      (choice : Choice) (pc : Pc) {after : Outcome} (choices : List Choice)
      → move cpu choice w pc ≡ after
      → alone cpu (choice ∷ choices) w pc ≡ alone cpu choices after.word after.pc
  unfolding alone
  alone-next choice pc choices e = ap (λ (o : Outcome). alone cpu choices o.word o.pc) e

  pub trying-wins :
      (by_lock : Bool) (desired : ℕ)
      → trylock_desired cpu w ≡ some desired
      → move cpu proceed w (trying by_lock w)
        ≡ record { word = desired; pc = idle true; effect = takes }
  unfolding move
  trying-wins by_lock desired e = rw (e, move) (rw (exchange_same true w) refl)

  pub trying-loses :
      (by_lock : Bool) (expected : ℕ) (choice : Choice)
      → trylock_desired cpu expected ≡ none
      → move cpu choice w (trying by_lock expected)
        ≡ record { word = w; pc = refused by_lock; effect = keeps }
  unfolding move
  trying-loses by_lock expected choice e = rw (e, move) refl

  pub trying-stale :
      (by_lock : Bool) (expected desired : ℕ)
      → trylock_desired cpu expected ≡ some desired
      → (w == expected) ≡ false
      → move cpu proceed w (trying by_lock expected)
        ≡ record { word = w; pc = trying by_lock w; effect = keeps }
  unfolding move exchanges
  trying-stale by_lock expected desired e stale = rw (e, move) (rw (stale) refl)

  pub fast-wins :
      (desired : ℕ)
      → fast_desired w ≡ some desired
      → move cpu proceed w (fast w) ≡ record { word = desired; pc = idle true; effect = takes }
  unfolding move
  fast-wins desired e = rw (e, move) (rw (exchange_same true w) refl)

  pub fast-breaks :
      (expected : ℕ) (choice : Choice)
      → fast_desired expected ≡ none
      → move cpu choice w (fast expected) ≡ record { word = w; pc = calling; effect = keeps }
  unfolding move
  fast-breaks expected choice e = rw (e, move) refl

  pub fast-stale :
      (expected desired : ℕ)
      → fast_desired expected ≡ some desired
      → (w == expected) ≡ false
      → move cpu proceed w (fast expected)
        ≡ record { word = w; pc = after_test cpu w; effect = keeps }
  unfolding move exchanges
  fast-stale expected desired e stale = rw (e, move) (rw (stale) refl)

  pub releasing-wins :
      (desired : ℕ)
      → unlock_desired cpu w ≡ some desired
      → move cpu proceed w (releasing w)
        ≡ record { word = desired; pc = idle false; effect = gives }
  unfolding move
  releasing-wins desired e = rw (e, move) (rw (exchange_same false w) refl)

  pub releasing-returns :
      (expected : ℕ) (choice : Choice)
      → unlock_desired cpu expected ≡ none
      → move cpu choice w (releasing expected)
        ≡ record { word = w; pc = idle false; effect = keeps }
  unfolding move
  releasing-returns expected choice e = rw (e, move) refl

-- `n` weak exchanges that fail, and then the choices.
abbrev pub fails : ℕ → List Choice → List Choice
fails zero choices = choices
fails (suc n) choices = fail ∷ fails n choices

module _ (cpu w : ℕ) where
  -- An exchange that only fails is tried again.
  pub trying-fails :
      (n : ℕ) (by_lock : Bool) (desired : ℕ) (choices : List Choice)
      → trylock_desired cpu w ≡ some desired
      → alone cpu (fails n choices) w (trying by_lock w) ≡ alone cpu choices w (trying by_lock w)
  unfolding alone move exchanges
  trying-fails zero by_lock desired choices e = refl
  trying-fails (suc n) by_lock desired choices e =
      alone-next cpu w fail (trying by_lock w)
        {after = record { word = w; pc = trying by_lock w; effect = keeps }} (fails n choices)
        (rw (e, move) refl)
      ∙ trying-fails n by_lock desired choices e

  pub fast-fails :
      (n desired : ℕ) (choices : List Choice)
      → fast_desired w ≡ some desired
      → after_test cpu w ≡ fast w
      → alone cpu (fails n choices) w (fast w) ≡ alone cpu choices w (fast w)
  unfolding alone move exchanges
  fast-fails zero desired choices e again = refl
  fast-fails (suc n) desired choices e again =
      alone-next cpu w fail (fast w) {after = record { word = w; pc = fast w; effect = keeps }}
        (fails n choices) (rw (e, move, again) refl)
      ∙ fast-fails n desired choices e again

  -- Outside of the functions there is no exchange.
  pub idle-rests : (n : ℕ) (a : Bool) → alone cpu (fails n (proceed ∷ [])) w (idle a) ≡ (w, idle a)
  unfolding alone move begin
  idle-rests zero a = refl
  idle-rests (suc n) a = idle-rests n a

-- Where a context stands after its steps.
pub ends :
    (id : ℕ → ℕ) (context : ℕ) (choices : List Choice) (s : System) {result : ℕ × Pc}
    → alone (cpu_id id context) choices s.word (s.pc context) ≡ result
    → ((run id (solo context choices) s).word ≡ result.0)
      × ((run id (solo context choices) s).pc context ≡ result.1)
ends id context choices s e =
    let (word, pc) = run-solo id context choices s in (word ∙ ap (λ r. r.0) e, pc ∙ ap (λ r. r.1) e)
