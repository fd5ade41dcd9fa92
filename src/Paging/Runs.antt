-- ===== src/Paging/Runs.antt =====
-- `alloc_n_pages` and `free_n_pages`: first fit for a run of pages.
use maple_kernel.Base.{
  ℕ, zero, suc, ◌+◌, ◌-◌, ◌*◌, ◌/◌, ◌≤◌, ◌<◌, ◌≡◌, ◌≢◌, refl, ◌⊎◌, inl, inr, arith, u32, ltb, leb,
  ◌==◌, if◌then◌else◌, ◌&&◌, Bool-cases, leb→le, ltb→lt, ap, for_range_inv, false,
}
use maple_kernel.Paging.{
  PageBitmap, page_size, num_pages, page_index, clear_page_present, mark_pages, alloc_n_from,
  alloc_n_pages, free_n_pages,
}
use maple_kernel.Paging.Bitmap.{
  used, used-lt, used-mark_pages, used-clear_page_present, is_page_present_iff,
}

-- The `n` pages from `s` on are all free.
abbrev pub FreeRun : PageBitmap → ℕ → ℕ → Type 0
FreeRun bm s n = (j : ℕ) → s ≤ j → j < s + n → used bm j ≡ 0

-- `r` is the result of taking the run of `n` pages at `s`, the first free one.
pub record IsTakenRun (bm : PageBitmap) (n s : ℕ) (r : ℕ × PageBitmap) : Type 0 where
  pub in_memory : s + n ≤ num_pages
  pub was_free : FreeRun bm s n
  pub first_fit : (t : ℕ) → t < s → ¬ FreeRun bm t n
  pub address : r.0 ≡ s * page_size
  pub pages : (j : ℕ) → used r.1 j ≡ (if leb s j && ltb j (s + n) then 1 else used bm j)

-- What the loop knows at page `i`: the `count` pages below `i` are free, the page before them is
-- not, and no run of `n` pages ends at or below `i`.
record AtPage (bm : PageBitmap) (n i start count : ℕ) : Type 0 where
  short : count < n
  within : count ≤ i
  starts : (0 < count) → start + count ≡ i
  free : (j : ℕ) → i ≤ j + count → j < i → used bm j ≡ 0
  before : (j : ℕ) → j + 1 + count ≡ i → used bm j ≡ 1
  no_run : (s : ℕ) → s + n ≤ i → ¬ FreeRun bm s n

module _ (bm : PageBitmap) (n : ℕ) where
  AtPage-free :
      (i start count : ℕ)
      → AtPage bm n i start count
      → used bm i ≡ 0
      → count + 1 ≢ n
      → AtPage bm n (i + 1) (if count == 0 then i else start) (count + 1)
  AtPage-free i start count a h more = record {
    short = omega (arith, a.short);
    within = omega (arith, a.within);
    starts = λ p. ground (arith, a.starts);
    free = λ j lo hi. ground (arith, a.free j, h);
    before = λ j e. a.before j (omega arith);
    no_run = λ s e run. elim (Bool-cases (leb (s + n) i)) [
      | inl old ↦ a.no_run s (leb→le (s + n) i old) run
      | inr new ↦
          let last : s + n ≡ i + 1 = ground arith in
          omega (
            arith,
            a.short,
            a.before (i - count - 1) (omega (arith, a.short)),
            run (i - count - 1) (omega (arith, a.short)) (omega (arith, a.short)),
          )
    ];
  }

  AtPage-used :
      (i start count : ℕ) → AtPage bm n i start count → used bm i ≡ 1 → AtPage bm n (i + 1) start 0
  AtPage-used i start count a h = record {
    short = omega (arith, a.short);
    within = omega arith;
    starts = λ p. absurd (omega arith);
    free = λ j lo hi. absurd (omega arith);
    before = λ j e. let same : j ≡ i = omega arith in rw same h;
    no_run = λ s e run. elim (Bool-cases (leb (s + n) i)) [
      | inl old ↦ a.no_run s (leb→le (s + n) i old) run
      | inr new ↦
          let last : s + n ≡ i + 1 = ground arith in
          omega (arith, a.short, run i (omega (arith, a.short)) (omega arith))
    ];
  }

  AtPage-done :
      (i start count : ℕ)
      → i < num_pages
      → AtPage bm n i start count
      → used bm i ≡ 0
      → count + 1 ≡ n
      → IsTakenRun bm n (i - count) (
        u32 ((if count == 0 then i else start) * page_size),
        mark_pages (if count == 0 then i else start) n bm,
      )
  AtPage-done i start count hi a h e =
      let place : (if count == 0 then i else start) ≡ i - count = ground (arith, a.starts) in
      rw place (record {
        in_memory = omega (arith, a.within);
        was_free = λ j lo hj. ground (arith, a.free j, h, a.within);
        first_fit = λ t less run. a.no_run t (omega (arith, a.within)) run;
        address = omega arith;
        pages = used-mark_pages (i - count) n bm;
      })

  alloc_n_from_lem :
      (left i start count : ℕ)
      → i + left ≡ num_pages
      → AtPage bm n i start count
      → ((s : ℕ) × IsTakenRun bm n s (alloc_n_from n left i start count bm))
        ⊎ (((s : ℕ) → s + n ≤ num_pages → ¬ FreeRun bm s n)
            × (alloc_n_from n left i start count bm ≡ (0, bm)))
  unfolding alloc_n_from
  alloc_n_from_lem zero i start count e a = inr ((λ s fits. a.no_run s (omega arith)), refl)
  alloc_n_from_lem (suc left) i start count e a = elim (Bool-cases (used bm i == 0)) [
    | inl free ↦
        rw (is_page_present_iff i bm, free)
          (elim (Bool-cases (count + 1 == n)) [
            | inl done ↦ rw done (
                inl (
                  i - count,
                  AtPage-done i start count (omega arith) a (ground arith) (ground arith),
                ))
            | inr more ↦ rw more (
                alloc_n_from_lem left (i + 1) (if count == 0 then i else start) (count + 1)
                  (omega arith) (AtPage-free i start count a (ground arith) (ground arith)))
          ])
    | inr taken ↦
        rw (is_page_present_iff i bm, taken)
          (alloc_n_from_lem left (i + 1) start 0 (omega arith)
            (AtPage-used i start count a (ground (arith, used-lt bm i))))
  ]

-- For every request of at least one page, `alloc_n_pages` takes the first free run of that length:
-- it returns the address of its first page and marks exactly its pages. Where no such run exists
-- it returns 0 and changes nothing.
pub alloc_n_pages_lem :
    (n : ℕ) (bm : PageBitmap)
    → 0 < n
    → ((s : ℕ) × IsTakenRun bm n s (alloc_n_pages n bm))
      ⊎ (((s : ℕ) → s + n ≤ num_pages → ¬ FreeRun bm s n) × (alloc_n_pages n bm ≡ (0, bm)))
unfolding alloc_n_pages
alloc_n_pages_lem n bm h =
    let some_pages : (n == 0) ≡ false = ground arith in
    elim (Bool-cases (ltb num_pages n)) [
      | inl large ↦
          rw (some_pages, large)
            (inr ((λ s fits. absurd (omega (arith, ltb→lt num_pages n large))), refl))
      | inr fits ↦ rw (some_pages, fits) (alloc_n_from_lem bm n num_pages 0 0 0 (omega arith) start)
    ]
  where
    start : AtPage bm n 0 0 0
    start = record {
      short = h;
      within = omega arith;
      starts = λ p. absurd (omega arith);
      free = λ j lo hi. absurd (omega arith);
      before = λ j e. absurd (omega arith);
      no_run = λ s e run. absurd (omega arith);
    }

-- A request whose result is not 0 has taken a run.
taken_run :
    (n : ℕ) (bm : PageBitmap)
    → 0 < n
    → (alloc_n_pages n bm).0 ≢ 0
    → (s : ℕ) × IsTakenRun bm n s (alloc_n_pages n bm)
taken_run n bm h ne = elim (alloc_n_pages_lem n bm h) [
  | inl taken ↦ taken
  | inr (no_run, fails) ↦ absurd (ne (ap (λ r. r.0) fails))
]

runs_apart :
    (n m s t : ℕ) (bm : PageBitmap)
    → 0 < n
    → 0 < m
    → IsTakenRun bm n s (alloc_n_pages n bm)
    → IsTakenRun (alloc_n_pages n bm).1 m t (alloc_n_pages m (alloc_n_pages n bm).1)
    → (s + n ≤ t) ⊎ (t + m ≤ s)
runs_apart n m s t bm hn hm a b = elim (Bool-cases (leb (s + n) t)) [
  | inl after ↦ inl (leb→le (s + n) t after)
  | inr meet ↦ elim (Bool-cases (leb (t + m) s)) [
    | inl before ↦ inr (leb→le (t + m) s before)
    | inr overlap ↦ absurd (elim (Bool-cases (leb s t)) [
      | inl first ↦ ground (arith, a.pages t, b.was_free t)
      | inr second ↦ ground (arith, a.pages s, b.was_free s)
    ])
  ]
]

-- Two requests in a row of at least one page each, whose results are not 0, get blocks of memory
-- apart from each other.
pub alloc_n_pages_disjoint :
    (n m : ℕ) (bm : PageBitmap)
    → 0 < n
    → 0 < m
    → (alloc_n_pages n bm).0 ≢ 0
    → (alloc_n_pages m (alloc_n_pages n bm).1).0 ≢ 0
    → ((alloc_n_pages n bm).0 + n * page_size ≤ (alloc_n_pages m (alloc_n_pages n bm).1).0)
      ⊎ ((alloc_n_pages m (alloc_n_pages n bm).1).0 + m * page_size ≤ (alloc_n_pages n bm).0)
alloc_n_pages_disjoint n m bm hn hm a b =
    let (s, first) = taken_run n bm hn a in
    let (t, second) = taken_run m (alloc_n_pages n bm).1 hm b in
    rw (first.address, second.address)
      (elim (runs_apart n m s t bm hn hm first second) [
        | inl after ↦ inl (omega arith)
        | inr before ↦ inr (omega arith)
      ])

-- `free_n_pages` frees exactly the pages of the run that begins in the page of the address, as
-- long as the run lies in memory.
pub used-free_n_pages :
    (addr n : ℕ) (bm : PageBitmap) (j : ℕ)
    → addr / page_size + n ≤ num_pages
    → used (free_n_pages addr n bm) j
      ≡ (if leb (addr / page_size) j && ltb j (addr / page_size + n) then 0 else used bm j)
unfolding free_n_pages page_index
used-free_n_pages addr n bm j fits =
    for_range_inv
      (λ (k : ℕ) (b : PageBitmap).
        used b j
        ≡ (if leb (addr / page_size) j && ltb j (addr / page_size + k) then 0 else used bm j))
      (λ i b. clear_page_present (u32 (addr / page_size + i)) b) n 0 n bm (omega arith)
      (λ k b lo hi h. ground (arith, used-clear_page_present (u32 (addr / page_size + k)) b j))
      (ground arith)

-- Freeing the run that `alloc_n_pages` took, for a request of at least one page whose result is
-- not 0, gives every page the state that it had before.
pub free_n_pages-alloc_n_pages :
    (n : ℕ) (bm : PageBitmap)
    → 0 < n
    → (alloc_n_pages n bm).0 ≢ 0
    → (j : ℕ) → used (free_n_pages (alloc_n_pages n bm).0 n (alloc_n_pages n bm).1) j ≡ used bm j
free_n_pages-alloc_n_pages n bm h ne j =
    let (s, t) = taken_run n bm h ne in
    let back : (alloc_n_pages n bm).0 / page_size ≡ s = omega (arith, t.address) in
    ground (
      arith,
      t.in_memory,
      used-free_n_pages (alloc_n_pages n bm).0 n (alloc_n_pages n bm).1 j,
      t.pages j,
      t.was_free j,
    )
