-- ===== src/Paging/Heap/Tests.antt =====
-- The heap on a small state, and instances of its laws.
use maple_kernel.Base.{◌+◌, ◌*◌, ◌%◌, ◌≡◌, refl, ◌||◌, ◌==◌, ltb, arith}
use maple_kernel.Paging.{init_page_bitmap, page_size}
use maple_kernel.Paging.Bitmap.{used}
use maple_kernel.Paging.Tests.{first_used, alloc_n_pages_test}
use maple_kernel.Paging.Translate.{init_paging}
use maple_kernel.Paging.Translate.Tests.{
  one_directory, one_table, one_table-IsWords, phys_to_virt_page, virt_to_phys_header,
  one_table-IsMapped, start,
}
use maple_kernel.Paging.Heap.{Memory, kmalloc, kfree, pages_needed}
use maple_kernel.Paging.Heap.Laws.{pages_needed_overrun, kmalloc-init, kfree-kmalloc}

abbrev small : Memory
small = record { bitmap = first_used; ram = one_table }

pages_test : pages_needed 5000 ≡ 2
unfolding pages_needed
pages_test = refl

pages_needed_overrun_example :
    ltb (pages_needed 8190 * page_size) (4 + 8190)
    ≡ (8190 % page_size == 0) || ltb page_size (8190 % page_size + 4)
pages_needed_overrun_example = pages_needed_overrun 8190 (omega arith) (omega arith)

kmalloc-init_example :
    let booted = init_paging 0x8000 (λ i. 0) (λ a. 0) in
    let result =
      kmalloc booted.directory 100
        (record { bitmap = init_page_bitmap first_used; ram = booted.ram }) in
    (result.0 ≡ 4) × (result.1.ram 0 ≡ pages_needed 100)
kmalloc-init_example =
    kmalloc-init 0x8000 (λ i. 0) (λ a. 0) first_used 100 start (omega arith) (omega arith)

kfree-kmalloc_example :
    used
      (kfree one_directory
        (kmalloc one_directory 5000 small).0
        (kmalloc one_directory 5000 small).1).bitmap
      1
    ≡ used small.bitmap 1
kfree-kmalloc_example =
    kfree-kmalloc one_directory 5000 0x1000 0x1000 0x1000 small one_table-IsWords (omega arith)
      (omega arith) (rw pages_test alloc_n_pages_test) (omega arith) phys_to_virt_page
      one_table-IsMapped (omega arith) (virt_to_phys_header (pages_needed 5000)) 1
