-- ===== src/Paging/Init.antt =====
-- `init_page_bitmap`: the state that the allocator starts from.
use maple_kernel.Base.{
  ℕ, ◌-◌, ◌*◌, ◌/◌, ◌%◌, ◌≤◌, ◌<◌, ◌≡◌, inl, inr, arith, Bool-cases, ltb→lt, ltb, if◌then◌else◌,
  update, for_range, for_range_inv,
}
use maple_kernel.Base.Digit.{digit-zero}
use maple_kernel.Paging.{
  PageBitmap, num_pages, bitmap_size, page_size, set_page_present, init_bitmap_loops,
  init_page_bitmap, alloc_n_pages,
}
use maple_kernel.Paging.Bitmap.{used, used-set_page_present}
use maple_kernel.Paging.Runs.{FreeRun, alloc_n_pages_lem}

zeroed :
    (bytes k : ℕ) (bm : PageBitmap) → k < bytes → for_range bytes 0 (λ i b. update b i 0) bm k ≡ 0
zeroed bytes k bm h = ground (arith, loop)
  where
    loop : for_range bytes 0 (λ i b. update b i 0) bm k ≡ (if ltb k bytes then 0 else bm k)
    loop =
        for_range_inv (λ (j : ℕ) (b : PageBitmap). b k ≡ (if ltb k j then 0 else bm k))
          (λ i b. update b i 0) bytes 0 bytes bm (omega arith) (λ j b lo hi e. ground arith)
          (ground arith)

loops-used :
    (bytes pages : ℕ) (bm : PageBitmap) (j : ℕ)
    → j / 8 < bytes
    → used (init_bitmap_loops bytes pages bm) j ≡ (if ltb j pages then 1 else 0)
unfolding init_bitmap_loops
loops-used bytes pages bm j h =
    for_range_inv (λ (k : ℕ) (b : PageBitmap). used b j ≡ (if ltb j k then 1 else 0))
      set_page_present pages 0 pages (for_range bytes 0 (λ i b. update b i 0) bm) (omega arith)
      (λ k b lo hi e. ground (arith, used-set_page_present k b j))
      (rw (zeroed bytes (j / 8) bm h) (ground (arith, digit-zero (j % 8))))

-- After `init_page_bitmap` the first 1024 pages, 4 MB, are in use and all others of the 4 GB are
-- free, whatever the bitmap held before.
pub used-init_page_bitmap :
    (bm : PageBitmap) (j : ℕ)
    → j < num_pages
    → used (init_page_bitmap bm) j ≡ (if ltb j 1024 then 1 else 0)
unfolding init_page_bitmap
used-init_page_bitmap bm j h = loops-used bitmap_size 1024 bm j (omega arith)

free_above : (n : ℕ) (bm : PageBitmap) → n ≤ num_pages - 1024 → FreeRun (init_page_bitmap bm) 1024 n
free_above n bm fits j lo hi = ground (arith, used-init_page_bitmap bm j)

-- From the initial state, a run of at least one page that fits above 4 MB is taken right there.
pub alloc_n_pages-init :
    (n : ℕ) (bm : PageBitmap)
    → 0 < n
    → n ≤ num_pages - 1024
    → (alloc_n_pages n (init_page_bitmap bm)).0 ≡ 1024 * page_size
alloc_n_pages-init n bm hn fits = elim (alloc_n_pages_lem n (init_page_bitmap bm) hn) [
  | inl (s, t) ↦
      let not_below : 1024 ≤ s =
        ground (arith, t.was_free s, t.in_memory, used-init_page_bitmap bm s) in
      elim (Bool-cases (ltb 1024 s)) [
        | inl above ↦ absurd (t.first_fit 1024 (ltb→lt 1024 s above) (free_above n bm fits))
        | inr here ↦ ground (arith, t.address)
      ]
  | inr (none_free, same) ↦ absurd (none_free 1024 (omega arith) (free_above n bm fits))
]
