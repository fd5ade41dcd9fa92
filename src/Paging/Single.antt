-- ===== src/Paging/Single.antt =====
-- `alloc_page` and `free_page`: first fit for one page.
use maple_kernel.Base.{
  ℕ, zero, suc, ◌+◌, ◌*◌, ◌/◌, ◌≤◌, ◌<◌, ◌≡◌, refl, ◌⊎◌, inl, inr, arith, ◌==◌, if◌then◌else◌,
  Bool-cases,
}
use maple_kernel.Paging.{
  PageBitmap, page_size, num_pages, page_index, alloc_page_from, alloc_page, free_page,
}
use maple_kernel.Paging.Bitmap.{
  used, used-lt, used-set_page_present, used-clear_page_present, is_page_present_iff,
}

-- The pages from `lo` up to `hi` are all in use.
abbrev pub AllUsed : PageBitmap → ℕ → ℕ → Type 0
AllUsed bm lo hi = (j : ℕ) → lo ≤ j → j < hi → used bm j ≡ 1

-- `r` is the result of taking page `page`, the first free one from `lo` on.
pub record IsTaken (bm : PageBitmap) (lo hi page : ℕ) (r : ℕ × PageBitmap) : Type 0 where
  pub from_lo : lo ≤ page
  pub below_hi : page < hi
  pub was_free : used bm page ≡ 0
  pub first_fit : AllUsed bm lo page
  pub address : r.0 ≡ page * page_size
  pub pages : (j : ℕ) → used r.1 j ≡ (if j == page then 1 else used bm j)

alloc_page_from_lem :
    (left i : ℕ) (bm : PageBitmap)
    → i + left ≡ num_pages
    → ((page : ℕ) × IsTaken bm i num_pages page (alloc_page_from left i bm))
      ⊎ (AllUsed bm i num_pages × (alloc_page_from left i bm ≡ (0, bm)))
unfolding alloc_page_from
alloc_page_from_lem zero i bm e = inr ((λ j lo hi. absurd (omega arith)), refl)
alloc_page_from_lem (suc left) i bm e = elim (Bool-cases (used bm i == 0)) [
  | inl free ↦ inl (
    i,
    rw (is_page_present_iff i bm, free)
        (record {
          from_lo = omega arith;
          below_hi = omega arith;
          was_free = ground arith;
          first_fit = λ j lo hi. absurd (omega arith);
          address = omega arith;
          pages = used-set_page_present i bm;
        }),
  )
  | inr taken ↦
      rw (is_page_present_iff i bm, taken)
        (elim (alloc_page_from_lem left (i + 1) bm (omega arith)) [
          | inl (page, t) ↦ inl (
            page,
            record {
              from_lo = omega (arith, t.from_lo);
              below_hi = t.below_hi;
              was_free = t.was_free;
              first_fit = λ j lo hi. ground (arith, t.first_fit j, used-lt bm i, used-lt bm j);
              address = t.address;
              pages = t.pages;
            },
          )
          | inr (full, same) ↦
              inr ((λ j lo hi. ground (arith, full j, used-lt bm i, used-lt bm j)), same)
        ])
]

-- `alloc_page` takes the first free page: it returns its address and changes the state of no
-- other page. Where all pages are in use it returns 0 and changes nothing.
pub alloc_page_lem :
    (bm : PageBitmap)
    → ((page : ℕ) × IsTaken bm 0 num_pages page (alloc_page bm))
      ⊎ (AllUsed bm 0 num_pages × (alloc_page bm ≡ (0, bm)))
unfolding alloc_page
alloc_page_lem bm = alloc_page_from_lem num_pages 0 bm (omega arith)

-- `free_page` frees the page that holds the address, and no other.
pub used-free_page :
    (addr : ℕ) (bm : PageBitmap) (j : ℕ)
    → used (free_page addr bm) j ≡ (if j == addr / page_size then 0 else used bm j)
unfolding free_page page_index
used-free_page addr bm j = used-clear_page_present (addr / page_size) bm j

-- A page that was free before `alloc_page` took it: freeing the returned address gives every
-- page the state that it had before.
pub free_page-alloc_page :
    (bm : PageBitmap) (page : ℕ)
    → used bm page ≡ 0
    → page < num_pages
    → (j : ℕ) → used (free_page (alloc_page bm).0 (alloc_page bm).1) j ≡ used bm j
free_page-alloc_page bm page free small j = elim (alloc_page_lem bm) [
  | inl (p, t) ↦
      let back : (alloc_page bm).0 / page_size ≡ p = omega (arith, t.address) in
      ground (arith, used-free_page (alloc_page bm).0 (alloc_page bm).1 j, t.pages j, t.was_free)
  | inr (full, same) ↦ absurd (omega (arith, full page (omega arith) small))
]
