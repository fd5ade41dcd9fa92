-- ===== src/Paging/Heap/Laws.antt =====
-- The heap against the allocator below it.
use maple_kernel.Base.{
  ℕ, ◌+◌, ◌-◌, ◌*◌, ◌%◌, ◌^◌, ◌≤◌, ◌<◌, ◌≡◌, ◌≢◌, inl, inr, refl, sym, ap, false, ◌∙◌, update_self,
  arith, u32, ltb, ◌||◌, ◌==◌, update, Bool-cases,
}
use maple_kernel.Paging.{
  PageBitmap, page_size, num_pages, alloc_n_pages, free_n_pages, init_page_bitmap,
}
use maple_kernel.Paging.Bitmap.{used}
use maple_kernel.Paging.Runs.{alloc_n_pages_lem, free_n_pages-alloc_n_pages}
use maple_kernel.Paging.Init.{alloc_n_pages-init}
use maple_kernel.Paging.Translate.{virt_to_phys, phys_to_virt, init_paging}
use maple_kernel.Paging.Translate.Laws.{IsMapped, IsWords, frame}
use maple_kernel.Paging.Translate.Scan.{virt_to_phys-phys_to_virt}
use maple_kernel.Paging.Translate.Identity.{IsStart, init_paging-IsWords, unmapped-init_paging}
use maple_kernel.Paging.Heap.{Memory, pages_needed, kmalloc, kfree}

pages_needed_bound :
    (size : ℕ)
    → 0 < size
    → size ≤ 2 ^ 32 - page_size
    → (0 < pages_needed size)
      × (size ≤ pages_needed size * page_size)
      × (pages_needed size < num_pages)
unfolding pages_needed
pages_needed_bound size h hs = (omega arith, omega arith, omega arith)

pages_needed_fits :
    (size : ℕ)
    → 0 < size
    → size ≤ 2 ^ 32 - 2 ^ 22
    → (0 < pages_needed size) × (pages_needed size ≤ num_pages - 1024)
unfolding pages_needed
pages_needed_fits size h hs = (omega arith, omega arith)

-- For a size from 1 to 2^32 - 4096, the header of 4 bytes and the block together are longer than the
-- pages that `kmalloc` asks for exactly if the size is a multiple of the page size or leaves less
-- than 4 bytes of its last page.
pub pages_needed_overrun :
    (size : ℕ)
    → 0 < size
    → size ≤ 2 ^ 32 - page_size
    → ltb (pages_needed size * page_size) (4 + size)
      ≡ (size % page_size == 0) || ltb page_size (size % page_size + 4)
unfolding pages_needed
pages_needed_overrun size h hs = elim (Bool-cases (size % page_size == 0)) [
  | inl none_left ↦ ground arith
  | inr rest ↦ ground arith
]

-- The call that hands out a block, and the call that takes one back.
kmalloc_block :
    (directory : ℕ → ℕ) (size phys virt : ℕ) (m : Memory)
    → 0 < size
    → (alloc_n_pages (pages_needed size) m.bitmap).0 ≡ phys
    → phys ≢ 0
    → phys_to_virt directory m.ram phys ≡ virt
    → kmalloc directory size m ≡ (
      u32 (virt + 4),
      record {
        bitmap = (alloc_n_pages (pages_needed size) m.bitmap).1;
        ram = update m.ram virt (pages_needed size);
      },
    )
unfolding kmalloc
kmalloc_block directory size phys virt m h e ne at =
    let asked : (size == 0) ≡ false = ground arith in
    let got : (phys == 0) ≡ false = ground arith in rw (e, at, asked, got)

kfree_block :
    (directory : ℕ → ℕ) (virt : ℕ) (m : Memory)
    → virt ≤ 2 ^ 32 - 8
    → kfree directory (virt + 4) m ≡ record {
      bitmap = free_n_pages (virt_to_phys directory m.ram virt) (m.ram virt) m.bitmap;
      ram = m.ram;
    }
unfolding kfree
kfree_block directory virt m h =
    let some_ptr : (virt + 4 == 0) ≡ false = ground arith in
    let header : u32 (virt + 4 + 2 ^ 32 - 4) ≡ virt = omega arith in rw (some_ptr, header)

-- After `init_page_bitmap` and `init_paging`, from an empty directory and with an aligned page table,
-- every request of 1 to 2^32 - 2^22 bytes gets the pointer 4, the word behind NULL, and its number of
-- pages is stored at address 0: the pages that are handed out lie above the 4 MB that are mapped.
pub kmalloc-init :
    (table : ℕ) (directory ram : ℕ → ℕ) (bm : PageBitmap) (size : ℕ)
    → IsStart table directory ram
    → 0 < size
    → size ≤ 2 ^ 32 - 2 ^ 22
    → let booted = init_paging table directory ram in
      let result =
        kmalloc booted.directory size (record { bitmap = init_page_bitmap bm; ram = booted.ram }) in
      (result.0 ≡ 4) × (result.1.ram 0 ≡ pages_needed size)
kmalloc-init table directory ram bm size st h hs =
    let booted = init_paging table directory ram in
    let bounds = pages_needed_fits size h hs in
    let above = alloc_n_pages-init (pages_needed size) bm bounds.0 bounds.1 in
    let null : phys_to_virt booted.directory booted.ram (1024 * page_size) ≡ 0 =
      elim (virt_to_phys-phys_to_virt booted.directory booted.ram
        (init_paging-IsWords table directory ram st) (1024 * page_size) (omega arith)) [
          | inl (mapped, back) ↦ absurd (
              unmapped-init_paging table directory ram st _ (1024 * page_size) (omega arith) mapped)
          | inr (null, none_mapped) ↦ null
        ] in
    rw
      (kmalloc_block booted.directory size (1024 * page_size) 0
        (record { bitmap = init_page_bitmap bm; ram = booted.ram }) h above (omega arith) null)
      (omega arith, refl)

-- `kfree` undoes `kmalloc`, for a size from 1 to 2^32 - 4096 and entries that are 32-bit words. Let
-- the pages that the request gets begin at an address other than 0 whose frame is mapped, let the
-- header lie at most at 2^32 - 8, and let storing it not change the physical address of its own
-- place: then freeing the returned pointer gives every page the state that it had before.
pub kfree-kmalloc :
    (directory : ℕ → ℕ) (size v phys virt : ℕ) (m : Memory)
    → IsWords directory m.ram
    → 0 < size
    → size ≤ 2 ^ 32 - page_size
    → (alloc_n_pages (pages_needed size) m.bitmap).0 ≡ phys
    → phys ≢ 0
    → phys_to_virt directory m.ram phys ≡ virt
    → IsMapped directory m.ram v (frame phys)
    → virt ≤ 2 ^ 32 - 8
    → virt_to_phys directory (update m.ram virt (pages_needed size)) virt
      ≡ virt_to_phys directory m.ram virt
    → (j : ℕ)
    → used (kfree directory (kmalloc directory size m).0 (kmalloc directory size m).1).bitmap j
      ≡ used m.bitmap j
kfree-kmalloc directory size v phys virt m w h hs e ne at mapped small kept j =
    elim (alloc_n_pages_lem (pages_needed size) m.bitmap (pages_needed_bound size h hs).0) [
      | inr (no_run, same) ↦ absurd (ne (sym e ∙ ap (λ (r : ℕ × PageBitmap). r.0) same))
      | inl (s, t) ↦
          let fits : phys < 2 ^ 32 =
            omega (arith, e, t.address, t.in_memory, (pages_needed_bound size h hs).0) in
          let back : virt_to_phys directory m.ram virt ≡ phys =
            elim (virt_to_phys-phys_to_virt directory m.ram w phys fits) [
              | inl (mapped', back) ↦ ap (virt_to_phys directory m.ram) (sym at) ∙ back
              | inr (null, none_mapped) ↦ absurd (none_mapped v mapped)
            ] in
          let no_wrap : u32 (virt + 4) ≡ virt + 4 = omega arith in
          let written : update m.ram virt (pages_needed size) virt ≡ pages_needed size =
            update_self m.ram virt (pages_needed size) in
          let freed =
            free_n_pages-alloc_n_pages (pages_needed size) m.bitmap (pages_needed_bound size h hs).0
              (λ z. ne (sym e ∙ z)) j in
          rw
            (
              kmalloc_block directory size phys virt m h e ne at,
              no_wrap,
              kfree_block directory virt
                  (record {
                    bitmap = (alloc_n_pages (pages_needed size) m.bitmap).1;
                    ram = update m.ram virt (pages_needed size);
                  })
                  small,
              kept,
              back,
              written,
              ← e,
            )
            freed
    ]
