-- ===== src/Lock/Invariant.antt =====
-- The lock of multicore.c as the few words say it: who holds it, and how often.
use maple_kernel.Base.{
  ℕ, ◌+◌, ◌-◌, ◌^◌, ◌<◌, ◌≡◌, arith, true, ◌==◌, if◌then◌else◌, Option, none, some,
}
use maple_kernel.Base.Digit.{bit_and-ones}
use maple_kernel.Lock.{
  might_own, Pc, fast, Effect, keeps, takes, gives, Outcome, System, count_effect, cpu_id,
}
use maple_kernel.Lock.Word.{locked}

-- The id of the core that holds the lock, and how often it does.
abbrev pub Holder : Type 0
Holder = Option (ℕ × ℕ)

abbrev pub encode : Holder → ℕ
encode none = 0
encode (some (cpu, depth)) = locked cpu depth

abbrev pub IsValid : Holder → Type 0
IsValid none = Unit
IsValid (some (cpu, depth)) = (cpu < 2 ^ 16) × (0 < depth) × (depth < 2 ^ 15)

abbrev pub depth_of : Holder → ℕ → ℕ
depth_of none core = 0
depth_of (some (cpu, depth)) core = if core == cpu then depth else 0

-- What the lock promises: one core at a time, which takes it up to 32767 times.
pub data Grants (cpu : ℕ) : Effect → Holder → Holder → Type 0 where
  nothing : {h : Holder} → Grants cpu keeps h h
  first : Grants cpu takes none (some (cpu, 1))
  again :
      {depth : ℕ} → depth < 0x7FFF → Grants cpu takes (some (cpu, depth)) (some (cpu, depth + 1))
  less : {depth : ℕ} → 1 < depth → Grants cpu gives (some (cpu, depth)) (some (cpu, depth - 1))
  last : Grants cpu gives (some (cpu, 1)) none

-- The fast path goes on only while the test has held.
abbrev pub IsFresh : ℕ → Pc → Type 0
IsFresh cpu (fast expected) = might_own cpu expected ≡ true
IsFresh cpu _ = Unit

-- What one step does, for a lock that `h` holds.
pub record Stepped (cpu : ℕ) (h : Holder) (after : Outcome) : Type 0 where
  pub now : Holder
  pub granted : Grants cpu after.effect h now
  pub valid : IsValid now
  pub word : after.word ≡ encode now
  pub fresh : IsFresh cpu after.pc

-- The state of all, for a lock that `h` holds.
module _ (id : ℕ → ℕ) where
  pub record Inv (h : Holder) (s : System) : Type 0 where
    pub valid : IsValid h
    pub word : s.word ≡ encode h
    pub held : (core : ℕ) → s.held core ≡ depth_of h core
    pub fresh : (context : ℕ) → IsFresh (cpu_id id context) (s.pc context)

  -- What the promise lets happen, step by step, on any core.
  pub data Follows (h : Holder) : Holder → Type 0 where
    start : Follows h h
    later :
        {g now : Holder} (context : ℕ) {effect : Effect}
        → Follows h g
        → Grants (cpu_id id context) effect g now
        → Follows h now

  pub cpu_id-lt : (context : ℕ) → cpu_id id context < 2 ^ 16
  cpu_id-lt context = omega (arith, bit_and-ones 16 (id context))

pub count-depth :
    (cpu : ℕ) {effect : Effect} {h now : Holder} (held : ℕ → ℕ)
    → Grants cpu effect h now
    → ((core : ℕ) → held core ≡ depth_of h core)
    → (core : ℕ) → count_effect cpu effect held core ≡ depth_of now core
unfolding count_effect
count-depth cpu held nothing same core = same core
count-depth cpu held first same core = ground (arith, same core, same cpu)
count-depth cpu held (again l) same core = ground (arith, same core, same cpu)
count-depth cpu held (less l) same core = ground (arith, same core, same cpu)
count-depth cpu held last same core = ground (arith, same core, same cpu)
