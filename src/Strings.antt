-- ===== src/Strings.antt =====
-- stdlib/string.c: `memcpy`, `memset`, `strcmp` and `strncmp`, as built without DEBUG. Memory is a
-- function from address to byte.
pub mod Copy
pub mod Compare
pub mod Tests
use maple_kernel.Base.{
  ℕ, zero, suc, ◌+◌, ◌-◌, ◌^◌, not, ◌&&◌, Option, none, some, u8, u32, ◌==◌, if◌then◌else◌, update,
  for_range,
}

pub memcpy : ℕ → ℕ → ℕ → (ℕ → ℕ) → (ℕ → ℕ)
memcpy dest src n m = for_range n 0 (λ i mem. update mem (dest + i) (mem (src + i))) m

pub memset : ℕ → ℕ → ℕ → (ℕ → ℕ) → (ℕ → ℕ)
memset dest value n m = let val = u8 value in for_range n 0 (λ i mem. update mem (dest + i) val) m

-- `(int)x - (int)y` as the bits of an `int`.
abbrev pub int_sub : ℕ → ℕ → ℕ
int_sub x y = u32 (x + 2 ^ 32 - y)

-- The loop of `strcmp` has no bound: `none` is a run that has not ended after `fuel` rounds.
pub strcmp : ℕ → (ℕ → ℕ) → ℕ → ℕ → Option ℕ
strcmp zero m us1 us2 = none
strcmp (suc fuel) m us1 us2 =
    let onward = strcmp fuel m (us1 + 1) (us2 + 1) in
    if not (m us1 == 0) && (m us1 == m us2) then onward else some (int_sub (m us1) (m us2))

-- The loop of `strncmp` at `idx`, with `left` bytes to go.
pub strncmp_from : ℕ → ℕ → (ℕ → ℕ) → ℕ → ℕ → ℕ
strncmp_from zero idx m us1 us2 = 0
strncmp_from (suc left) idx m us1 us2 =
    let onward = strncmp_from left (idx + 1) m us1 us2 in
    if not (m (us1 + idx) == m (us2 + idx))
    then int_sub (m (us1 + idx)) (m (us2 + idx))
    else if m (us1 + idx) == 0
    then 0
    else onward

pub strncmp : (ℕ → ℕ) → ℕ → ℕ → ℕ → ℕ
strncmp m s1 s2 len = if len == 0 then 0 else strncmp_from len 0 m s1 s2
