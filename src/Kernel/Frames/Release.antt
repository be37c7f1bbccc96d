-- ===== src/Kernel/Frames/Release.antt =====
-- pm_free_page: which addresses it acts on, and that it undoes pm_alloc_page.
use prismatic_os.Base.{
  ℕ, ◌+◌, ◌-◌, ◌*◌, ◌/◌, ◌%◌, ◌≤◌, ◌<◌, ◌≡◌, ◌⊎◌, inl, inr, true, false, arith, ltb, ◌==◌,
  Bool-cases,
}
use prismatic_os.Kernel.Frames.{
  Frames, u64, page_size, bitmap_clear_bit, bitmap_test_bit, pm_free_page,
}
use prismatic_os.Kernel.Frames.Bits.{test-bitmap_clear_bit, bitmap_clear_bit-AreBytes}
use prismatic_os.Kernel.Frames.Scan.{count_used, count_used-le, count_used-add}
use prismatic_os.Kernel.Frames.Alloc.{IsValid, Allocated}

-- The page of an address, as pm_free_page computes it.
abbrev pub page_of : Frames → ℕ → ℕ
page_of s addr = ((addr + u64 - s.base) % u64) / page_size

module _ (s : Frames) (v : IsValid s) (p : ℕ) (l : p < s.total)
    (taken : bitmap_test_bit s p ≡ true) where
  cleared_count :
      count_used (bitmap_test_bit s) s.total
      ≡ count_used (bitmap_test_bit (bitmap_clear_bit s p)) s.total + 1
  cleared_count =
      count_used-add _ (bitmap_test_bit s) p s.total l
        (ground (arith, test-bitmap_clear_bit s v.bytes p p))
        (λ j. ground (arith, test-bitmap_clear_bit s v.bytes p j))

  cleared-IsValid : IsValid (record (bitmap_clear_bit s p) { used = (s.used + u64 - 1) % u64 })
  unfolding bitmap_clear_bit bitmap_test_bit
  cleared-IsValid = record {
    bytes = bitmap_clear_bit-AreBytes s v.bytes p;
    counted =
        omega (arith, cleared_count, v.counted, v.fits, count_used-le (bitmap_test_bit s) s.total);
    fits = v.fits;
  }

module _ (s : Frames) (v : IsValid s) where
  -- pm_free_page keeps the invariant, whatever address is freed.
  pub pm_free_page-IsValid : (addr : ℕ) → IsValid (pm_free_page s addr)
  unfolding pm_free_page
  pm_free_page-IsValid addr = elim (Bool-cases (ltb (page_of s addr) s.total)) [
    | inr out ↦ rw out v
    | inl l ↦ elim (Bool-cases (bitmap_test_bit s (page_of s addr))) [
      | inr free ↦ rw (l, free) v
      | inl taken ↦
          rw (l, taken)
            (unfold bitmap_clear_bit in cleared-IsValid s v (page_of s addr) (ground arith) taken)
    ]
  ]

  -- An address outside the managed memory is ignored: below the base the subtraction wraps to a
  -- page past the end.
  pub pm_free_page_outside :
      (addr : ℕ)
      → addr < u64
      → (addr < s.base) ⊎ (s.base + s.total * page_size ≤ addr)
      → pm_free_page s addr ≡ s
  unfolding pm_free_page
  pm_free_page_outside addr h out =
      let past : ltb (page_of s addr) s.total ≡ false = ground (arith, v.fits) in rw past

  -- A page that is free already is not counted twice.
  pub pm_free_page_twice :
      (addr : ℕ) → bitmap_test_bit s (page_of s addr) ≡ false → pm_free_page s addr ≡ s
  unfolding pm_free_page
  pm_free_page_twice addr free = ground arith

-- The page that an allocation took is the page of the address that it returned.
module _ (s t : Frames) (addr : ℕ) (v : IsValid s) (w : IsValid t) (a : Allocated s t addr) where
  page_of_allocated : page_of t addr ≡ a.page
  page_of_allocated = omega (arith, a.address, a.base, a.first.high, v.fits)

  -- From two states that meet the invariant, the second an allocation after the first: freeing the
  -- address that the allocation returned gives back the counter, the range and the mark of every
  -- page.
  pub pm_free_page-undo :
      ((pm_free_page t addr).used ≡ s.used)
      × ((pm_free_page t addr).total ≡ s.total)
      × ((pm_free_page t addr).base ≡ s.base)
      × ((j : ℕ) → bitmap_test_bit (pm_free_page t addr) j ≡ bitmap_test_bit s j)
  unfolding pm_free_page
  pm_free_page-undo =
      rw (page_of_allocated, inside, taken)
        (
          unfold bitmap_clear_bit in
              omega (arith, a.used, v.counted, v.fits, count_used-le (bitmap_test_bit s) s.total),
          unfold bitmap_clear_bit in a.total,
          unfold bitmap_clear_bit in a.base,
          λ j. unfold bitmap_clear_bit bitmap_test_bit in marks j,
        )
    where
      inside : ltb a.page t.total ≡ true
      inside = ground (arith, a.first.high, a.total)

      taken : bitmap_test_bit t a.page ≡ true
      taken = ground (arith, a.marks a.page)

      marks : (j : ℕ) → bitmap_test_bit (bitmap_clear_bit t a.page) j ≡ bitmap_test_bit s j
      marks j = elim (Bool-cases (a.page == j)) [
        | inl e ↦ ground (arith, test-bitmap_clear_bit t w.bytes a.page j, a.first.free)
        | inr e ↦ ground (arith, test-bitmap_clear_bit t w.bytes a.page j, a.marks j)
      ]
