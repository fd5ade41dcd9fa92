-- ===== src/Paging.antt =====
-- other/virtual_memory.c: the bitmap of physical pages, the page tables and the kernel heap.
-- An array is a function from index to content, and an address space one from address to word.
pub mod Bitmap
pub mod Single
pub mod Runs
pub mod Init
pub mod Translate
pub mod Heap
pub mod Tests
use maple_kernel.Base.{
  ℕ, zero, suc, ◌+◌, ◌-◌, ◌*◌, ◌/◌, ◌%◌, ◌^◌, ◌||◌, ◌&&◌, bit_and, bit_or, u8, u32, ltb, ◌==◌,
  if◌then◌else◌, update, for_range,
}

abbrev pub page_size : ℕ
page_size = 0x1000

abbrev pub num_pages : ℕ
num_pages = 2 ^ 20

abbrev pub bitmap_size : ℕ
bitmap_size = 2 ^ 17

-- `page_bitmap`: a byte for eight pages.
abbrev pub PageBitmap : Type 0
PageBitmap = ℕ → ℕ

pub page_index : ℕ → ℕ
page_index addr = addr / page_size

pub set_page_present : ℕ → PageBitmap → PageBitmap
set_page_present idx bm = update bm (idx / 8) (u8 (bit_or (bm (idx / 8)) (2 ^ (idx % 8))))

pub clear_page_present : ℕ → PageBitmap → PageBitmap
clear_page_present idx bm =
    update bm (idx / 8) (u8 (bit_and (bm (idx / 8)) (2 ^ 32 - 1 - 2 ^ (idx % 8))))

pub is_page_present : ℕ → PageBitmap → ℕ
is_page_present idx bm = bit_and (bm (idx / 8)) (2 ^ (idx % 8))

-- The sizes of the two loops are arguments, `BITMAP_SIZE` and 1024 below.
pub init_bitmap_loops : ℕ → ℕ → PageBitmap → PageBitmap
init_bitmap_loops bytes pages bm =
    for_range pages 0 set_page_present (for_range bytes 0 (λ i b. update b i 0) bm)

pub init_page_bitmap : PageBitmap → PageBitmap
init_page_bitmap bm = init_bitmap_loops bitmap_size 1024 bm

-- The loop of `alloc_page` at page `i`, with `left` pages to go.
pub alloc_page_from : ℕ → ℕ → PageBitmap → ℕ × PageBitmap
alloc_page_from zero i bm = (0, bm)
alloc_page_from (suc left) i bm =
    let rest = alloc_page_from left (i + 1) bm in
    if is_page_present i bm == 0 then (u32 (i * page_size), set_page_present i bm) else rest

pub alloc_page : PageBitmap → ℕ × PageBitmap
alloc_page bm = alloc_page_from num_pages 0 bm

pub free_page : ℕ → PageBitmap → PageBitmap
free_page phys_addr bm = clear_page_present (page_index phys_addr) bm

pub mark_pages : ℕ → ℕ → PageBitmap → PageBitmap
mark_pages start n bm = for_range n 0 (λ j b. set_page_present (start + j) b) bm

-- The loop of `alloc_n_pages` at page `i`.
pub alloc_n_from : ℕ → ℕ → ℕ → ℕ → ℕ → PageBitmap → ℕ × PageBitmap
alloc_n_from n zero i start count bm = (0, bm)
alloc_n_from n (suc left) i start count bm =
    let start' = if count == 0 then i else start in
    let longer = alloc_n_from n left (i + 1) start' (count + 1) bm in
    let again = alloc_n_from n left (i + 1) start 0 bm in
    if is_page_present i bm == 0
    then if count + 1 == n then (u32 (start' * page_size), mark_pages start' n bm) else longer
    else again

pub alloc_n_pages : ℕ → PageBitmap → ℕ × PageBitmap
alloc_n_pages n bm =
    if n == 0 || ltb num_pages n then (0, bm) else alloc_n_from n num_pages 0 0 0 bm

pub free_n_pages : ℕ → ℕ → PageBitmap → PageBitmap
free_n_pages phys_addr n bm =
    for_range n 0 (λ i b. clear_page_present (u32 (page_index phys_addr + i)) b) bm
