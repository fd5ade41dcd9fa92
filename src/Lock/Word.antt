-- ===== src/Lock/Word.antt =====
-- The fields of the word of the lock, as multicore.c takes them apart and puts them together.
use maple_kernel.Base.{
  ℕ, zero, suc, ◌+◌, ◌-◌, ◌*◌, ◌/◌, ◌%◌, ◌^◌, ◌<◌, ◌≡◌, refl, ap, ◌∙◌, arith, bit_and, bit_or, true,
  false, ◌==◌, not, if◌then◌else◌, none, some, ltb, ◌&&◌,
}
use native.Mathlib.Nat.{pow-suc}
use maple_kernel.Base.Step.{bit_and_step, bit_or_step}
use maple_kernel.Base.Digit.{bit_and-zero, bit_and-ones, bit_or-shl, half_shift}
use maple_kernel.Lock.{
  lock_flag, is_locked, owner, recursion, might_own, trylock_desired, fast_desired, unlock_desired,
}

-- `&` with a mask in two parts.
bit_and-split :
    (k x a r : ℕ)
    → r < 2 ^ k
    → bit_and x (a * 2 ^ k + r) ≡ bit_and (x / 2 ^ k) a * 2 ^ k + bit_and x r
bit_and-split zero x a r h =
    let nothing : r ≡ 0 = omega (arith, h) in
    let whole : a * 2 ^ 0 + 0 ≡ a = omega arith in
    let same : x / 2 ^ 0 ≡ x = omega arith in
    rw (nothing, whole, same, bit_and-zero x) (omega arith)
bit_and-split (suc k) x a r h =
    let half : (a * 2 ^ suc k + r) / 2 ≡ a * 2 ^ k + r / 2 =
      omega (arith, ap (λ (t : ℕ). a * t) (pow-suc 2 k)) in
    let low : (a * 2 ^ suc k + r) % 2 ≡ r % 2 =
      omega (arith, ap (λ (t : ℕ). a * t) (pow-suc 2 k)) in
    rw (bit_and_step x (a * 2 ^ suc k + r), half, low, half_shift x k)
      (omega (
        arith,
        bit_and-split k (x / 2) a (r / 2) (omega (arith, pow-suc 2 k, h)),
        bit_and_step x r,
        ap (λ (t : ℕ). bit_and (x / 2 / 2 ^ k) a * t) (pow-suc 2 k),
      ))

-- `|` with a number that has no low digits.
bit_or-high :
    (k a b r : ℕ) → r < 2 ^ k → bit_or (a * 2 ^ k + r) (b * 2 ^ k) ≡ bit_or a b * 2 ^ k + r
bit_or-high zero a b r h =
    let nothing : r ≡ 0 = omega (arith, h) in
    let left : a * 2 ^ 0 + 0 ≡ a = omega arith in
    let right : b * 2 ^ 0 ≡ b = omega arith in rw (nothing, left, right) (omega arith)
bit_or-high (suc k) a b r h =
    let half : (a * 2 ^ suc k + r) / 2 ≡ a * 2 ^ k + r / 2 =
      omega (arith, ap (λ (t : ℕ). a * t) (pow-suc 2 k)) in
    let low : (a * 2 ^ suc k + r) % 2 ≡ r % 2 =
      omega (arith, ap (λ (t : ℕ). a * t) (pow-suc 2 k)) in
    let half' : b * 2 ^ suc k / 2 ≡ b * 2 ^ k =
      omega (arith, ap (λ (t : ℕ). b * t) (pow-suc 2 k)) in
    let low' : b * 2 ^ suc k % 2 ≡ 0 = omega (arith, ap (λ (t : ℕ). b * t) (pow-suc 2 k)) in
    rw (bit_or_step (a * 2 ^ suc k + r) (b * 2 ^ suc k), half, low, half', low')
      (omega (
        arith,
        bit_or-high k a b (r / 2) (omega (arith, pow-suc 2 k, h)),
        ap (λ (t : ℕ). bit_or a b * t) (pow-suc 2 k),
      ))

-- The word of a lock that the core `cpu` holds `depth` times.
abbrev pub locked : (cpu depth : ℕ) → ℕ
locked cpu depth = 2 ^ 31 + depth * 2 ^ 16 + cpu

pub owner_eq : (w : ℕ) → owner w ≡ w % 2 ^ 16
unfolding owner
owner_eq w = bit_and-ones 16 w

pub recursion_eq : (w : ℕ) → recursion w ≡ w / 2 ^ 16 % 2 ^ 15
unfolding recursion
recursion_eq w =
    omega (
      arith,
      bit_and-split 16 w 0x7FFF 0 (omega arith),
      bit_and-zero w,
      bit_and-ones 15 (w / 2 ^ 16),
    )

flag_eq : (w : ℕ) → bit_and w lock_flag ≡ w / 2 ^ 31 % 2 * 2 ^ 31
flag_eq w =
    omega (arith, bit_and-split 31 w 1 0 (omega arith), bit_and-zero w, bit_and-ones 1 (w / 2 ^ 31))

pub is_locked_eq : (w : ℕ) → is_locked w ≡ not (w / 2 ^ 31 % 2 == 0)
unfolding is_locked
is_locked_eq w = ground (arith, flag_eq w)

-- The fields of a word that is put together.
fields :
    (cpu depth : ℕ)
    → cpu < 2 ^ 16
    → depth < 2 ^ 15
    → (is_locked (locked cpu depth) ≡ true)
      × (owner (locked cpu depth) ≡ cpu)
      × (recursion (locked cpu depth) ≡ depth)
fields cpu depth hc hd = (
  is_locked_eq (locked cpu depth) ∙ ground arith,
  owner_eq (locked cpu depth) ∙ omega arith,
  recursion_eq (locked cpu depth) ∙ omega arith,
)

pub fields_free : (is_locked 0 ≡ false) × (owner 0 ≡ 0) × (recursion 0 ≡ 0)
unfolding is_locked owner recursion
fields_free = (refl, refl, refl)

pub fresh_word :
    (cpu : ℕ) → cpu < 2 ^ 16 → bit_or (bit_or lock_flag cpu) (1 * 2 ^ 16) ≡ locked cpu 1
fresh_word cpu hc =
    rw (bit_or-shl 16 (2 ^ 15) cpu hc) (bit_or-high 16 (2 ^ 15) 1 cpu hc ∙ omega arith)

-- Both sides of the test of the fast path.
pub might_own_eq :
    (cpu word : ℕ)
    → cpu < 2 ^ 16
    → might_own cpu word ≡ (word / 2 ^ 16 / 2 ^ 15 % 2 * 2 ^ 31 + word % 2 ^ 16 == 2 ^ 31 + cpu)
unfolding might_own
might_own_eq cpu word hc =
    let masked : bit_and word (2 ^ 15 * 2 ^ 16 + 0xFFFF)
        ≡ word / 2 ^ 16 / 2 ^ 15 % 2 * 2 ^ 31 + word % 2 ^ 16 =
      omega (
        arith,
        bit_and-split 16 word (2 ^ 15) 0xFFFF (omega arith),
        bit_and-split 15 (word / 2 ^ 16) 1 0 (omega arith),
        bit_and-zero (word / 2 ^ 16),
        bit_and-ones 1 (word / 2 ^ 16 / 2 ^ 15),
        bit_and-ones 16 word,
      ) in
    rw (masked, bit_or-shl 16 (2 ^ 15) cpu hc) refl

pub trylock_free : (cpu : ℕ) → cpu < 2 ^ 16 → trylock_desired cpu 0 ≡ some (locked cpu 1)
unfolding trylock_desired
trylock_free cpu hc = rw (fields_free.0, fresh_word cpu hc) refl

module _ (cpu c d : ℕ) (hc : c < 2 ^ 16) (hd : d < 2 ^ 15) where
  pub trylock_locked :
      trylock_desired cpu (locked c d)
      ≡ (if (c == cpu) && not (d == 0x7FFF) then some (locked c (d + 1)) else none)
  unfolding trylock_desired
  trylock_locked =
      rw ((fields c d hc hd).0, (fields c d hc hd).1, (fields c d hc hd).2) (ground arith)

  pub fast_locked :
      fast_desired (locked c d) ≡ (if d == 0x7FFF then none else some (locked c (d + 1)))
  unfolding fast_desired
  fast_locked = rw ((fields c d hc hd).2) (ground arith)

  pub unlock_locked :
      0 < d
      → unlock_desired cpu (locked c d)
        ≡ (if c == cpu then some (if ltb 1 d then locked c (d - 1) else 0) else none)
  unfolding unlock_desired
  unlock_locked positive =
      rw ((fields c d hc hd).0, (fields c d hc hd).1, (fields c d hc hd).2) (ground arith)

  pub might_own-locked : cpu < 2 ^ 16 → might_own cpu (locked c d) ≡ (c == cpu)
  might_own-locked hcpu = might_own_eq cpu (locked c d) hcpu ∙ ground arith

pub might_own-free : (cpu : ℕ) → cpu < 2 ^ 16 → might_own cpu 0 ≡ false
might_own-free cpu hc = might_own_eq cpu 0 hc ∙ ground arith

pub unlock_free : (cpu : ℕ) → unlock_desired cpu 0 ≡ none
unfolding unlock_desired
unlock_free cpu = rw (fields_free.0) refl
