-- ===== src/Paging/Tests.antt =====
-- Tests of the page allocator on small states, and instances of its laws.
use maple_kernel.Base.{ℕ, ◌+◌, ◌≤◌, ◌≡◌, ◌⊎◌, refl, arith, update, for_range}
use maple_kernel.Paging.{
  PageBitmap, num_pages, alloc_page, alloc_page_from, alloc_n_pages, alloc_n_from, is_page_present,
  mark_pages, set_page_present,
}
use maple_kernel.Paging.Runs.{IsTakenRun, FreeRun, alloc_n_pages_lem}

-- Page 0 is in use and all others are free.
abbrev pub first_used : PageBitmap
first_used = update (λ i. 0) 0 1

pub alloc_n_pages_test : (alloc_n_pages 2 first_used).0 ≡ 0x1000
unfolding alloc_n_pages alloc_n_from is_page_present
alloc_n_pages_test = refl

alloc_page_test : (alloc_page first_used).0 ≡ 0x1000
unfolding alloc_page alloc_page_from is_page_present
alloc_page_test = refl

second_test : (alloc_n_pages 3 (alloc_n_pages 2 first_used).1).0 ≡ 0x3000
unfolding alloc_n_pages alloc_n_from is_page_present mark_pages set_page_present for_range
second_test = refl

alloc_n_pages_lem_example :
    ((s : ℕ) × IsTakenRun first_used 2 s (alloc_n_pages 2 first_used))
    ⊎ (((s : ℕ) → s + 2 ≤ num_pages → ¬ FreeRun first_used s 2)
        × (alloc_n_pages 2 first_used ≡ (0, first_used)))
alloc_n_pages_lem_example = alloc_n_pages_lem 2 first_used (omega arith)
