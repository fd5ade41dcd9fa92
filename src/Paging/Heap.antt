-- ===== src/Paging/Heap.antt =====
-- `kmalloc` and `kfree` of other/virtual_memory.c.
pub mod Laws
pub mod Tests
use maple_kernel.Base.{ℕ, ◌+◌, ◌-◌, ◌*◌, ◌/◌, ◌%◌, ◌^◌, u32, ◌==◌, if◌then◌else◌, update}
use maple_kernel.Paging.{PageBitmap, page_size, alloc_n_pages, free_n_pages}
use maple_kernel.Paging.Translate.{virt_to_phys, phys_to_virt}

-- The memory that the two functions read and write; the directory is only read.
pub record Memory : Type 0 where
  pub bitmap : PageBitmap
  pub ram : ℕ → ℕ

pub pages_needed : ℕ → ℕ
pages_needed size = u32 (size + page_size - 1) / page_size

-- The header is one word, so `header + 1` is 4 bytes further. A store through NULL goes to
-- address 0. The result is the pointer and the memory after the call.
pub kmalloc : (ℕ → ℕ) → ℕ → Memory → ℕ × Memory
kmalloc directory size m =
    let pages = pages_needed size in
    let (phys_addr, taken) = alloc_n_pages pages m.bitmap in
    let virt_addr = phys_to_virt directory m.ram phys_addr in
    if size == 0
    then (0, m)
    else if phys_addr == 0
    then (0, record { bitmap = taken; ram = m.ram })
    else (u32 (virt_addr + 4), record { bitmap = taken; ram = update m.ram virt_addr pages })

pub kfree : (ℕ → ℕ) → ℕ → Memory → Memory
kfree directory ptr m =
    let header = u32 (ptr + 2 ^ 32 - 4) in
    let phys_addr = virt_to_phys directory m.ram header in
    if ptr == 0
    then m
    else record { bitmap = free_n_pages phys_addr (m.ram header) m.bitmap; ram = m.ram }
