-- ===== src/Strings/Compare.antt =====
-- `strcmp` ends within the length of its first string, and finds the first difference.
use maple_kernel.Base.{
  ℕ, zero, suc, ◌+◌, ◌-◌, ◌<◌, ◌≡◌, ◌≢◌, inl, inr, refl, some, arith, ◌==◌, Bool-cases, ap, subst,
  false,
}
use maple_kernel.Strings.{strcmp, strncmp, strncmp_from, int_sub}

strcmp-strncmp_from :
    (fuel left len idx : ℕ) (m : ℕ → ℕ) (s1 s2 : ℕ)
    → m (s1 + idx + len) ≡ 0
    → len < fuel
    → len < left
    → strcmp fuel m (s1 + idx) (s2 + idx) ≡ some (strncmp_from left idx m s1 s2)
unfolding strcmp strncmp_from
strcmp-strncmp_from zero left len idx m s1 s2 ends f l = absurd (omega arith)
strcmp-strncmp_from (suc fuel) zero len idx m s1 s2 ends f l = absurd (omega arith)
strcmp-strncmp_from (suc fuel) (suc left) len idx m s1 s2 ends f l =
    elim (Bool-cases (m (s1 + idx) == 0)) [
      | inl over ↦ elim (Bool-cases (m (s1 + idx) == m (s2 + idx))) [
        | inl same ↦
            rw (over, same)
              (let same' : m (s1 + idx) ≡ m (s2 + idx) = ground arith in
                ap some (rw same' (omega arith)))
        | inr differ ↦ rw (over, differ) refl
      ]
      | inr more ↦ elim (Bool-cases (m (s1 + idx) == m (s2 + idx))) [
        | inl same ↦
            let not_here : len ≢ 0 = λ e. ground (arith, ends) in
            let next : s1 + (idx + 1) + (len - 1) ≡ s1 + idx + len = omega (arith, not_here) in
            let in_1 : s1 + idx + 1 ≡ s1 + (idx + 1) = omega arith in
            let in_2 : s2 + idx + 1 ≡ s2 + (idx + 1) = omega arith in
            rw (more, same, in_1, in_2)
              (strcmp-strncmp_from fuel left (len - 1) (idx + 1) m s1 s2 (rw next ends)
                (omega (arith, not_here)) (omega (arith, not_here)))
        | inr differ ↦ rw (more, differ) refl
      ]
    ]

-- Let the first string end at its byte `len`, and let `strcmp` have more than `len` rounds. Then it
-- ends, with the result that `strncmp` gives for every bound above `len`.
pub strcmp-strncmp :
    (fuel n len : ℕ) (m : ℕ → ℕ) (s1 s2 : ℕ)
    → m (s1 + len) ≡ 0
    → len < fuel
    → len < n
    → strcmp fuel m s1 s2 ≡ some (strncmp m s1 s2 n)
unfolding strncmp
strcmp-strncmp fuel n len m s1 s2 ends f l =
    let asked : (n == 0) ≡ false = ground arith in
    let at_1 : s1 + 0 ≡ s1 = omega arith in
    let at_2 : s2 + 0 ≡ s2 = omega arith in
    let compared = strcmp-strncmp_from fuel n len 0 m s1 s2 (rw at_1 ends) f l in
    rw asked (
      subst (λ a. strcmp fuel m a s2 ≡ some (strncmp_from n 0 m s1 s2)) at_1
        (subst (λ b. strcmp fuel m (s1 + 0) b ≡ some (strncmp_from n 0 m s1 s2)) at_2 compared))

-- The strings agree below `idx`, and no end is among those bytes.
pub record SameBelow (m : ℕ → ℕ) (s1 s2 idx : ℕ) : Type 0 where
  pub same : (j : ℕ) → j < idx → m (s1 + j) ≡ m (s2 + j)
  pub not_over : (j : ℕ) → j < idx → m (s1 + j) ≢ 0

-- `strncmp` finds the first byte that differs, or none before the end or the bound.
pub data Compared (m : ℕ → ℕ) (s1 s2 n result : ℕ) : Type 0 where
  differs :
      (k : ℕ)
      → k < n
      → SameBelow m s1 s2 k
      → m (s1 + k) ≢ m (s2 + k)
      → result ≡ int_sub (m (s1 + k)) (m (s2 + k))
      → Compared m s1 s2 n result
  ended :
      (k : ℕ)
      → k < n
      → SameBelow m s1 s2 k
      → m (s1 + k) ≡ 0
      → m (s2 + k) ≡ 0
      → result ≡ 0
      → Compared m s1 s2 n result
  bounded : SameBelow m s1 s2 n → result ≡ 0 → Compared m s1 s2 n result

SameBelow-next :
    (m : ℕ → ℕ) (s1 s2 idx : ℕ)
    → SameBelow m s1 s2 idx
    → m (s1 + idx) ≡ m (s2 + idx)
    → m (s1 + idx) ≢ 0
    → SameBelow m s1 s2 (idx + 1)
SameBelow-next m s1 s2 idx below agree more = record {
  same = λ j h. elim (Bool-cases (j == idx)) [
    | inl last ↦ let here : j ≡ idx = ground arith in rw here agree
    | inr other ↦ below.same j (ground arith)
  ];
  not_over = λ j h. elim (Bool-cases (j == idx)) [
    | inl last ↦ let here : j ≡ idx = ground arith in rw here more
    | inr other ↦ below.not_over j (ground arith)
  ];
}

strncmp_from_lem :
    (left idx n : ℕ) (m : ℕ → ℕ) (s1 s2 : ℕ)
    → idx + left ≡ n
    → SameBelow m s1 s2 idx
    → Compared m s1 s2 n (strncmp_from left idx m s1 s2)
unfolding strncmp_from
strncmp_from_lem zero idx n m s1 s2 e below =
    let all : idx ≡ n = omega arith in bounded (subst (SameBelow m s1 s2) all below) refl
strncmp_from_lem (suc left) idx n m s1 s2 e below =
    elim (Bool-cases (m (s1 + idx) == m (s2 + idx))) [
      | inr differ ↦ rw differ (differs idx (omega arith) below (ground arith) refl)
      | inl same ↦ elim (Bool-cases (m (s1 + idx) == 0)) [
        | inl over ↦
            rw (same, over) (ended idx (omega arith) below (ground arith) (ground arith) refl)
        | inr more ↦
            rw (same, more)
              (strncmp_from_lem left (idx + 1) n m s1 s2 (omega arith)
                (SameBelow-next m s1 s2 idx below (ground arith) (ground arith)))
      ]
    ]

-- `strncmp` gives the difference of the first bytes that differ, where these lie below the bound and
-- not behind the end of the strings; and 0 where the strings agree up to their end or up to the
-- bound.
pub strncmp_lem : (m : ℕ → ℕ) (s1 s2 n : ℕ) → Compared m s1 s2 n (strncmp m s1 s2 n)
unfolding strncmp
strncmp_lem m s1 s2 n = elim (Bool-cases (n == 0)) [
  | inl none_asked ↦
      rw none_asked
        (bounded (record { same = λ j h. ground arith; not_over = λ j h. ground arith }) refl)
  | inr asked ↦ rw asked (
      strncmp_from_lem n 0 n m s1 s2 (omega arith)
        (record { same = λ j h. absurd (omega arith); not_over = λ j h. absurd (omega arith) }))
]
