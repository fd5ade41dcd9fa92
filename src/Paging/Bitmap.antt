-- ===== src/Paging/Bitmap.antt =====
-- The abstract view of the bitmap, one digit for each page, and what the helpers do to it.
use maple_kernel.Base.{
  ℕ, ◌+◌, ◌-◌, ◌/◌, ◌%◌, ◌^◌, ◌≤◌, ◌<◌, ◌≡◌, bit_and, bit_or, arith, ltb, leb, ◌==◌, if◌then◌else◌,
  ◌&&◌, for_range_inv,
}
use native.Mathlib.Nat.{one-le-pow, pow-le-pow_right}
use maple_kernel.Base.Digit.{
  digit, digit-lt, digit-bit_and, digit-bit_or, digit-mod, digit-not, digit-pow, bit_and-pow,
}
use maple_kernel.Paging.{
  PageBitmap, set_page_present, clear_page_present, is_page_present, mark_pages,
}

-- 1 for a page in use, 0 for a free one.
abbrev pub used : PageBitmap → ℕ → ℕ
used bm i = digit (bm (i / 8)) (i % 8)

pub used-lt : (bm : PageBitmap) (i : ℕ) → used bm i < 2
used-lt bm i = digit-lt (bm (i / 8)) (i % 8)

pub used-set_page_present :
    (i : ℕ) (bm : PageBitmap) (j : ℕ)
    → used (set_page_present i bm) j ≡ (if j == i then 1 else used bm j)
unfolding set_page_present
used-set_page_present i bm j = ground (
  arith,
  digit-mod 8 (bit_or (bm (i / 8)) (2 ^ (i % 8))) (j % 8),
  digit-bit_or (bm (i / 8)) (2 ^ (i % 8)) (j % 8),
  digit-pow (i % 8) (j % 8),
  digit-lt (bm (i / 8)) (j % 8),
)

pow_small : (k : ℕ) → k < 8 → 2 ^ k < 2 ^ 32
pow_small k h =
    let less : k ≤ 7 = omega arith in omega (arith, pow-le-pow_right {n = 2} (omega arith) less)

pub used-clear_page_present :
    (i : ℕ) (bm : PageBitmap) (j : ℕ)
    → used (clear_page_present i bm) j ≡ (if j == i then 0 else used bm j)
unfolding clear_page_present
used-clear_page_present i bm j = ground (
  arith,
  digit-mod 8 (bit_and (bm (i / 8)) (2 ^ 32 - 1 - 2 ^ (i % 8))) (j % 8),
  digit-bit_and (bm (i / 8)) (2 ^ 32 - 1 - 2 ^ (i % 8)) (j % 8),
  digit-not 32 (2 ^ (i % 8)) (j % 8) (pow_small (i % 8) (omega arith)),
  digit-pow (i % 8) (j % 8),
  digit-lt (bm (i / 8)) (j % 8),
)

pub is_page_present_iff : (i : ℕ) (bm : PageBitmap) → (is_page_present i bm == 0) ≡ (used bm i == 0)
unfolding is_page_present
is_page_present_iff i bm =
    rw (bit_and-pow (i % 8) (bm (i / 8)))
      (ground (arith, one-le-pow (i % 8) 2, digit-lt (bm (i / 8)) (i % 8)))

-- A loop of `set_page_present` takes exactly its pages.
pub used-mark_pages :
    (start n : ℕ) (bm : PageBitmap) (j : ℕ)
    → used (mark_pages start n bm) j ≡ (if leb start j && ltb j (start + n) then 1 else used bm j)
unfolding mark_pages
used-mark_pages start n bm j =
    for_range_inv
      (λ (k : ℕ) (b : PageBitmap).
        used b j ≡ (if leb start j && ltb j (start + k) then 1 else used bm j))
      (λ k b. set_page_present (start + k) b) n 0 n bm (omega arith)
      (λ k b lo hi h. ground (arith, used-set_page_present (start + k) b j)) (ground arith)
