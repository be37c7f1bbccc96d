-- ===== src/Kernel/Frames/Init.antt =====
-- The state that pm_init_region leaves.
use prismatic_os.Base.{
  ℕ, zero, suc, ◌+◌, ◌*◌, ◌/◌, ◌%◌, ◌≤◌, ◌<◌, ◌≡◌, refl, ◌∙◌, ◌≢◌, inl, inr, true, false, not, some,
  arith, ltb, if◌then◌else◌, eq_false_of_ne, Bool-cases,
}
use prismatic_os.Base.Table.{checks, checks_lem}
use prismatic_os.Kernel.Frames.Scan.{count_used}
use prismatic_os.Kernel.Frames.{
  Frames, u64, page_size, page_align, bitmap_set_bit, bitmap_test_bit, test_mask, mark_pages,
  pm_init_region,
}
use prismatic_os.Kernel.Frames.Bits.{test-bitmap_set_bit}
use prismatic_os.Kernel.Frames.Alloc.{IsValid, marked-IsValid}

-- The first `i` pages are marked and no other.
abbrev pub MarksBelow : ℕ → Frames → Type 0
MarksBelow i s = (j : ℕ) → bitmap_test_bit s j ≡ ltb j i

-- `s` without its counter keeps its bits.
module _ (s : Frames) (u : ℕ) where
  test_used : (j : ℕ) → bitmap_test_bit (record s { used = u }) j ≡ bitmap_test_bit s j
  unfolding bitmap_test_bit
  test_used j = refl

record Marked (k t b : ℕ) (s : Frames) : Type 0 where
  valid : IsValid s
  total : s.total ≡ t
  base : s.base ≡ b
  marks : MarksBelow k s

abbrev min_of : ℕ → ℕ → ℕ
min_of a b = if ltb a b then a else b

next_mark :
    (k t b i : ℕ) (s : Frames)
    → i < t
    → Marked i t b s
    → Marked
        (i + 1)
        t
        b
        (record (bitmap_set_bit s i) { used = ((bitmap_set_bit s i).used + 1) % u64 })
next_mark k t b i s l m = record {
  valid =
      unfold bitmap_set_bit in
      marked-IsValid s m.valid i (omega (arith, m.total)) (ground (arith, m.marks i));
  total = unfold bitmap_set_bit in m.total;
  base = unfold bitmap_set_bit in m.base;
  marks = λ j. unfold bitmap_set_bit bitmap_test_bit in marks j;
}
  where
    marks : (j : ℕ) → bitmap_test_bit (bitmap_set_bit s i) j ≡ ltb j (i + 1)
    marks j = ground (arith, test-bitmap_set_bit s m.valid.bytes i j, m.marks j)

mark_pages_lem :
    (n i k t b : ℕ) (s : Frames)
    → i + n ≡ t
    → i ≤ k
    → Marked i t b s
    → Marked (min_of k t) t b (mark_pages n i k s)
unfolding mark_pages
mark_pages_lem zero i k t b s e le m = let same : min_of k t ≡ i = ground arith in rw same m
mark_pages_lem (suc n) i k t b s e le m = elim (Bool-cases (ltb i k)) [
  | inl more ↦
      let inside : ltb i s.total ≡ true = ground (arith, m.total) in
      rw (more, inside)
        (mark_pages_lem n (i + 1) k t b _ (omega arith) (ground arith)
          (next_mark k t b i s (omega arith) m))
  | inr done ↦ let same : min_of k t ≡ i = ground arith in rw (done, same) m
]

-- An empty bitmap marks nothing.
zero_table : checks 8 (λ k. not (test_mask 0 k)) ≡ true
unfolding checks test_mask
zero_table = refl

test_mask_zero : (k : ℕ) → k < 8 → test_mask 0 k ≡ false
test_mask_zero k h = ground (arith, checks_lem 8 (λ k. not (test_mask 0 k)) k zero_table h)

abbrev cleared : Frames → ℕ → ℕ → Frames
cleared s start size = record s { bitmap = λ i. 0; total = size / page_size; base = start }

test_cleared : (s : Frames) (start size j : ℕ) → bitmap_test_bit (cleared s start size) j ≡ false
unfolding bitmap_test_bit
test_cleared s start size j = test_mask_zero (j % 8) (omega arith)

count_cleared :
    (s : Frames) (start size n : ℕ) → count_used (bitmap_test_bit (cleared s start size)) n ≡ 0
unfolding count_used
count_cleared s start size zero = refl
count_cleared s start size (suc n) =
    ground (arith, test_cleared s start size n, count_cleared s start size n)

module _ (mem heap_end start size : ℕ) (s : Frames) where
  -- How many pages belong to the kernel, within the region.
  abbrev pub kernel_pages : ℕ
  kernel_pages = min_of (page_align heap_end / page_size) (size / page_size)

  -- The state after pm_init_region when kmalloc finds room for the bitmap.
  abbrev pub initialised : Frames
  initialised =
      mark_pages (size / page_size) 0 (page_align heap_end / page_size) (cleared s start size)

  initialised_lem :
      s.used ≡ 0 → start + size < u64 → Marked kernel_pages (size / page_size) start initialised
  initialised_lem fresh fits =
      mark_pages_lem (size / page_size) 0 (page_align heap_end / page_size) (size / page_size) start
        (cleared s start size) (omega arith) (omega arith)
        (record {
          valid = record {
            bytes = λ i. omega arith;
            counted = omega (arith, fresh, count_cleared s start size (size / page_size));
            fits = omega (arith, fits);
          };
          total = refl;
          base = refl;
          marks = λ j. ground (arith, test_cleared s start size j);
        })

  -- No page of the region that starts below the end of the kernel heap is free.
  abbrev pub CoversKernel : Frames → Type 0
  CoversKernel t =
      (j : ℕ) → j < t.total → t.base + j * page_size < heap_end → bitmap_test_bit t j ≡ true

  -- From a zero counter, with memory for the bitmap, a region that ends below 2 ^ 64 and a heap that
  -- ends a page below it at least, pm_init_region succeeds, and the state meets the invariant. Marked
  -- are exactly the first pages of the region, as many as there are from address 0 to the end of the
  -- kernel heap, or all of the region: so every page of the region that starts below the end of the
  -- kernel heap is marked.
  pub pm_init_region_lem :
      mem ≢ 0
      → s.used ≡ 0
      → start + size < u64
      → heap_end + page_size ≤ u64
      → (t : Frames) × (pm_init_region mem heap_end s start size ≡ some t)
        × IsValid t
        × (t.base ≡ start)
        × (t.total ≡ size / page_size)
        × MarksBelow kernel_pages t
        × CoversKernel t
  unfolding pm_init_region
  pm_init_region_lem ne fresh fits low =
      let m = initialised_lem fresh fits in
      (
        initialised,
        rw (eq_false_of_ne mem 0 ne),
        m.valid,
        m.base,
        m.total,
        m.marks,
        λ j l h. m.marks j ∙ (unfold page_align in ground (arith, m.base, m.total)),
      )
