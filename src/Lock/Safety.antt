-- ===== src/Lock/Safety.antt =====
-- What holds of the lock of multicore.c after any interleaving of its contexts.
use maple_kernel.Base.{
  ℕ, ◌<◌, ◌≡◌, inl, inr, refl, sym, arith, ◌==◌, none, some, List, [], ◌∷◌, update, Bool-cases,
  subst, ==_iff,
}
use maple_kernel.Lock.{Pc, Choice, move, System, cpu_id, step, run, free}
use maple_kernel.Lock.Moves.{move-Stepped}
use maple_kernel.Lock.Invariant.{
  Holder, encode, IsValid, depth_of, Grants, IsFresh, Inv, Follows, start, later, cpu_id-lt,
  count-depth,
}

module _ (id : ℕ → ℕ) where
  update-IsFresh :
      (pc : ℕ → Pc) (context : ℕ) (new : Pc)
      → ((other : ℕ) → IsFresh (cpu_id id other) (pc other))
      → IsFresh (cpu_id id context) new
      → (other : ℕ) → IsFresh (cpu_id id other) (update pc context new other)
  update-IsFresh pc context new before now other = elim (Bool-cases (other == context)) [
    | inl e ↦ rw (e) (subst (λ c. IsFresh (cpu_id id c) new) (sym ((==_iff other context).0 e)) now)
    | inr e ↦ rw (e) (before other)
  ]

  step-Inv :
      (h : Holder) (s : System) (context : ℕ) (choice : Choice)
      → Inv id h s
      → (now : Holder) × Grants
          (cpu_id id context)
          (move (cpu_id id context) choice s.word (s.pc context)).effect
          h
          now
        × Inv id now (step id context choice s)
  unfolding step
  step-Inv h s context choice inv =
      let cpu = cpu_id id context in
      let done =
        move-Stepped cpu h choice s.word (s.pc context) (cpu_id-lt id context) inv.word inv.valid
          (inv.fresh context) in
      (
        done.now,
        done.granted,
        record {
          valid = done.valid;
          word = done.word;
          held = count-depth cpu s.held done.granted inv.held;
          fresh =
              update-IsFresh s.pc context (move cpu choice s.word (s.pc context)).pc inv.fresh
                done.fresh;
        },
      )

  run-Inv :
      (schedule : List (ℕ × Choice)) (h g : Holder) (s : System)
      → Follows id h g
      → Inv id g s
      → (now : Holder) × Follows id h now × Inv id now (run id schedule s)
  unfolding run
  run-Inv [] h g s so_far inv = (g, so_far, inv)
  run-Inv ((context, choice) ∷ schedule) h g s so_far inv =
      let one = step-Inv g s context choice inv in
      run-Inv schedule h one.0 (step id context choice s) (later context so_far one.1) one.2

  free-Inv : Inv id none free
  free-Inv = record { valid = tt; word = refl; held = λ core. refl; fresh = λ context. tt }

  pub run-IsFresh :
      (schedule : List (ℕ × Choice)) (context : ℕ)
      → IsFresh (cpu_id id context) ((run id schedule free).pc context)
  run-IsFresh schedule context = (run-Inv schedule none none free start free-Inv).2.fresh context

  -- Let contexts on any cores call `reentrant_trylock`, `reentrant_lock` and `reentrant_unlock` in any
  -- order, held or not, from a free lock, interleaved in any way, with weak exchanges that fail
  -- without a reason. Then the lock goes through states of the abstract lock, each step one that this
  -- grants: one core at a time takes it, from 1 to 32767 times deep, and only that core gives it
  -- back. At the end the word encodes the abstract state, and each core holds the lock as often as
  -- that state says.
  pub run-Follows :
      (schedule : List (ℕ × Choice))
      → (now : Holder) × Follows id none now
        × IsValid now
        × ((run id schedule free).word ≡ encode now)
        × ((core : ℕ) → (run id schedule free).held core ≡ depth_of now core)
  run-Follows schedule =
      let (now, path, inv) = run-Inv schedule none none free start free-Inv in
      (now, path, inv.valid, inv.word, inv.held)

depth-one : (h : Holder) (a b : ℕ) → 0 < depth_of h a → 0 < depth_of h b → a ≡ b
depth-one none a b ha hb = absurd (omega (arith, ha))
depth-one (some (cpu, depth)) a b ha hb = ground arith

-- From a free lock, after any calls of the three functions by contexts on any cores, interleaved in
-- any way: two cores that both hold the lock are the same core.
pub mutual_exclusion :
    (id : ℕ → ℕ) (schedule : List (ℕ × Choice)) (a b : ℕ)
    → 0 < (run id schedule free).held a
    → 0 < (run id schedule free).held b
    → a ≡ b
mutual_exclusion id schedule a b ha hb =
    let (now, path, valid, word, held) = run-Follows id schedule in
    depth-one now a b (omega (arith, held a, ha)) (omega (arith, held b, hb))
