-- ===== src/Symbols/Search.antt =====
-- `find_string_offset` of stdlib.c.
use maple_kernel.Base.{
  ℕ, zero, suc, ◌+◌, ◌-◌, ◌≤◌, ◌<◌, ◌≡◌, ◌≢◌, inl, inr, refl, sym, ap, subst, ◌∙◌, arith, true,
  false, ◌||◌, ltb, ◌==◌, Option, none, some, Bool-cases,
}
use maple_kernel.Symbols.{needle_length, matches_from, offset_from, search_for, find_string_offset}

-- A string of `len` bytes, and the 0 that ends it.
pub record IsString (str len : ℕ) (mem : ℕ → ℕ) : Type 0 where
  pub inside : (k : ℕ) → k < len → mem (str + k) ≢ 0
  pub ended : mem (str + len) ≡ 0

needle_length_lem :
    (left p so_far len : ℕ) (mem : ℕ → ℕ)
    → IsString p len mem
    → so_far + len ≤ 4096
    → len < left
    → needle_length left p so_far mem ≡ some (so_far + len)
unfolding needle_length
needle_length_lem zero p so_far len mem string short enough = absurd (omega (arith, enough))
needle_length_lem (suc left) p so_far zero mem string short enough =
    let last : (mem p == 0) ≡ true =
      ap (λ a. mem a == 0) (let z : p ≡ p + 0 = omega arith in z) ∙ ap (λ c. c == 0) string.ended in
    rw (last) (ap some (omega arith))
needle_length_lem (suc left) p so_far (suc len) mem string short enough =
    let here : mem p ≢ 0 =
      subst (λ a. mem a ≢ 0) (let z : p + 0 ≡ p = omega arith in z)
        (string.inside 0 (omega arith)) in
    let more : (mem p == 0) ≡ false = ground (arith, here) in
    let small : ltb 4096 (so_far + 1) ≡ false = ground (arith, short) in
    let rest : IsString (p + 1) len mem = record {
      inside = λ k h.
          subst (λ a. mem a ≢ 0) (let z : p + suc k ≡ p + 1 + k = omega arith in z)
            (string.inside (suc k) (omega (arith, h)));
      ended = ap mem (let z : p + 1 + len ≡ p + suc len = omega arith in z) ∙ string.ended;
    } in
    rw (more, small)
      (needle_length_lem left (p + 1) (so_far + 1) len mem rest (omega (arith, short))
          (omega (arith, enough))
        ∙ ap some (omega arith))

-- The needle's bytes stand at `at`.
abbrev pub Occurs : (at needle len : ℕ) → (ℕ → ℕ) → Type 0
Occurs at needle len mem = (k : ℕ) → k < len → mem (at + k) ≡ mem (needle + k)

matches_true :
    (left j at needle : ℕ) (mem : ℕ → ℕ)
    → matches_from left j at needle mem ≡ true
    → (k : ℕ) → j ≤ k
    → k < j + left
    → mem (at + k) ≡ mem (needle + k)
unfolding matches_from
matches_true zero j at needle mem h k from to = absurd (omega (arith, from, to))
matches_true (suc left) j at needle mem h k from to =
    elim (Bool-cases (mem (at + j) == mem (needle + j))) [
      | inl e ↦ elim (Bool-cases (k == j)) [
        | inl same ↦
            let here : k ≡ j = ground (arith, same) in
            subst (λ i. mem (at + i) ≡ mem (needle + i)) (sym here) (ground (arith, e))
        | inr other ↦
            let onward : matches_from left (j + 1) at needle mem ≡ true = ground (arith, h, e) in
            matches_true left (j + 1) at needle mem onward k (ground (arith, from, other))
              (omega (arith, to))
      ]
      | inr e ↦ absurd (ground (arith, h, e))
    ]

matches_false :
    (left j at needle : ℕ) (mem : ℕ → ℕ)
    → ((k : ℕ) → j ≤ k → k < j + left → mem (at + k) ≡ mem (needle + k))
    → matches_from left j at needle mem ≡ true
unfolding matches_from
matches_false zero j at needle mem same = refl
matches_false (suc left) j at needle mem same =
    let here : (mem (at + j) == mem (needle + j)) ≡ true =
      ground (arith, same j (omega arith) (omega arith)) in
    rw (here) (
      matches_false left (j + 1) at needle mem
        (λ k h l. same k (omega (arith, h)) (omega (arith, l))))

-- What a search finds among the offsets from `from` up to, and without, `past`.
pub data Found (haystack needle len : ℕ) (mem : ℕ → ℕ) (from past : ℕ) (result : Option ℕ)
    : Type 0 where
  first :
      (at : ℕ)
      → result ≡ some at
      → from ≤ at
      → at < past
      → Occurs (haystack + at) needle len mem
      → ((i : ℕ) → from ≤ i → i < at → Occurs (haystack + i) needle len mem → ⊥)
      → Found haystack needle len mem from past result
  nowhere :
      result ≡ none
      → ((i : ℕ) → from ≤ i → i < past → Occurs (haystack + i) needle len mem → ⊥)
      → Found haystack needle len mem from past result

module _ (haystack needle len : ℕ) (mem : ℕ → ℕ) where
  matches-Occurs :
      (i : ℕ)
      → matches_from len 0 (haystack + i) needle mem ≡ true
      → Occurs (haystack + i) needle len mem
  matches-Occurs i h k l =
      matches_true len 0 (haystack + i) needle mem h k (omega arith) (omega (arith, l))

  misses-Occurs :
      (i : ℕ)
      → matches_from len 0 (haystack + i) needle mem ≡ false
      → Occurs (haystack + i) needle len mem
      → ⊥
  misses-Occurs i h occurs =
      cc (matches_false len 0 (haystack + i) needle mem (λ k a l. occurs k (omega (arith, l))), h)

  one_before :
      (i past : ℕ) (result : Option ℕ)
      → (Occurs (haystack + i) needle len mem → ⊥)
      → Found haystack needle len mem (i + 1) past result
      → Found haystack needle len mem i past result
  one_before i past result misses (first at e from to occurs none_before) =
      first at e (omega (arith, from)) to occurs (λ k h l. elim (Bool-cases (k == i)) [
        | inl same ↦
            let here : k ≡ i = ground (arith, same) in
            subst (λ t. Occurs (haystack + t) needle len mem → ⊥) (sym here) misses
        | inr other ↦ none_before k (ground (arith, h, other)) l
      ])
  one_before i past result misses (nowhere e none_there) = nowhere e (λ k h l.
      elim (Bool-cases (k == i)) [
        | inl same ↦
            let here : k ≡ i = ground (arith, same) in
            subst (λ t. Occurs (haystack + t) needle len mem → ⊥) (sym here) misses
        | inr other ↦ none_there k (ground (arith, h, other)) l
      ])

  offset-Found :
      (left i past : ℕ)
      → i + left ≡ past
      → Found haystack needle len mem i past (offset_from left i haystack needle len mem)
  unfolding offset_from
  offset-Found zero i past total = nowhere refl (λ k h l. absurd (omega (arith, h, l, total)))
  offset-Found (suc left) i past total =
      elim (Bool-cases (matches_from len 0 (haystack + i) needle mem)) [
        | inl e ↦ rw (e) (
            first i refl (omega arith) (omega (arith, total)) (matches-Occurs i e)
              (λ k h l. absurd (omega (arith, h, l))))
        | inr e ↦ rw (e) (
            one_before i past (offset_from left (i + 1) haystack needle len mem) (misses-Occurs i e)
              (offset-Found left (i + 1) past (omega (arith, total))))
      ]

searched :
    (haystack haystack_len needle len : ℕ) (mem : ℕ → ℕ)
    → 0 < haystack_len
    → Found haystack needle len mem 0
        (haystack_len + 1 - len)
        (search_for haystack haystack_len needle mem (some len))
unfolding search_for
searched haystack haystack_len needle zero mem hl =
    first 0 refl (omega arith) (omega (arith, hl)) (λ k h. absurd (omega (arith, h)))
      (λ i h l o. omega (arith, l))
searched haystack haystack_len needle (suc len) mem hl =
    let some_bytes : (suc len == 0) ≡ false = ground arith in
    rw (some_bytes) (
      offset-Found haystack needle (suc len) mem (haystack_len + 1 - suc len) 0
        (haystack_len + 1 - suc len) (omega arith))

-- For two pointers that are not null, a haystack of at least one byte and a needle of at most 4096:
-- `find_string_offset` returns the first offset at which the needle's bytes stand within the
-- haystack, and fails where they stand at none.
pub find_string_offset_lem :
    (haystack haystack_len needle len : ℕ) (mem : ℕ → ℕ)
    → haystack ≢ 0
    → needle ≢ 0
    → 0 < haystack_len
    → IsString needle len mem
    → len ≤ 4096
    → Found haystack needle len mem 0
        (haystack_len + 1 - len)
        (find_string_offset haystack haystack_len needle mem)
unfolding find_string_offset
find_string_offset_lem haystack haystack_len needle len mem hh hn hl string short =
    let given : (haystack == 0 || (needle == 0 || haystack_len == 0)) ≡ false =
      ground (arith, hh, hn, hl) in
    let measured : needle_length 4097 needle 0 mem ≡ some len =
      needle_length_lem 4097 needle 0 len mem string (omega (arith, short)) (omega (arith, short))
      ∙ ap some (omega arith) in
    rw (given, measured) (searched haystack haystack_len needle len mem hl)
