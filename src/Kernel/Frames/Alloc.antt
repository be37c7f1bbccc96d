-- ===== src/Kernel/Frames/Alloc.antt =====
-- pm_alloc_page and pm_init_region: what they return, and the allocator's invariant.
use prismatic_os.Base.{
  ℕ, ◌+◌, ◌*◌, ◌%◌, ◌<◌, ◌≡◌, refl, ◌⊎◌, inl, inr, true, false, arith, ◌==◌, if◌then◌else◌,
}
use prismatic_os.Kernel.Frames.{
  Frames, u64, no_page, page_size, bitmap_set_bit, bitmap_test_bit, bitmap_find_free_page,
  pm_alloc_page,
}
use prismatic_os.Kernel.Frames.Bits.{AreBytes, test-bitmap_set_bit, bitmap_set_bit-AreBytes}
use prismatic_os.Kernel.Frames.Scan.{
  count_used, count_used-le, full-count_used, count_used-add, IsFirstFree,
  bitmap_find_free_page_lem,
}

-- The counter counts the pages that the bitmap marks, and the managed memory ends below 2 ^ 64.
pub record IsValid (s : Frames) : Type 0 where
  pub bytes : AreBytes s
  pub counted : s.used ≡ count_used (bitmap_test_bit s) s.total
  pub fits : s.base + s.total * page_size < u64

-- `t` is `s` with the page at `addr` taken: the first page that was free, and no other page changes.
pub record Allocated (s t : Frames) (addr : ℕ) : Type 0 where
  pub page : ℕ
  pub first : IsFirstFree s 0 s.total page
  pub address : addr ≡ s.base + page * page_size
  pub marks : (j : ℕ) → bitmap_test_bit t j ≡ (if page == j then true else bitmap_test_bit s j)
  pub used : t.used ≡ s.used + 1
  pub total : t.total ≡ s.total
  pub base : t.base ≡ s.base

-- Marking a free page of the range, with its counter.
module _ (s : Frames) (v : IsValid s) (p : ℕ) (l : p < s.total)
    (free : bitmap_test_bit s p ≡ false) where
  marked_count :
      count_used (bitmap_test_bit (bitmap_set_bit s p)) s.total
      ≡ count_used (bitmap_test_bit s) s.total + 1
  marked_count =
      count_used-add (bitmap_test_bit s) _ p s.total l free (test-bitmap_set_bit s v.bytes p)

  marked_used : (s.used + 1) % u64 ≡ s.used + 1
  marked_used = omega (arith, v.counted, v.fits, count_used-le (bitmap_test_bit s) s.total)

  pub marked-IsValid : IsValid (record (bitmap_set_bit s p) { used = (s.used + 1) % u64 })
  unfolding bitmap_set_bit bitmap_test_bit
  marked-IsValid = record {
    bytes = bitmap_set_bit-AreBytes s v.bytes p;
    counted = omega (arith, marked_used, marked_count, v.counted);
    fits = v.fits;
  }

module _ (s : Frames) (v : IsValid s) where
  page_ne : (p : ℕ) → IsFirstFree s 0 s.total p → (p == no_page) ≡ false
  page_ne p f = ground (arith, f.high, v.fits)

  -- In a state that meets the invariant: with a free page pm_alloc_page marks the first one and
  -- returns its address; with none it answers 0, every page is counted as used, and nothing
  -- changes.
  pub pm_alloc_page_lem :
      Allocated s (pm_alloc_page s).0 (pm_alloc_page s).1
      ⊎ (pm_alloc_page s ≡ (s, 0)) × (s.used ≡ s.total)
  unfolding pm_alloc_page
  pm_alloc_page_lem = elim (bitmap_find_free_page_lem s) [
    | inl f ↦ inl (
        rw (page_ne (bitmap_find_free_page s) f) (record {
          page = bitmap_find_free_page s;
          first = f;
          address = unfold bitmap_set_bit in omega (arith, f.high, v.fits);
          marks =
              unfold bitmap_set_bit bitmap_test_bit in
              test-bitmap_set_bit s v.bytes (bitmap_find_free_page s);
          used = unfold bitmap_set_bit in marked_used s v (bitmap_find_free_page s) f.high f.free;
          total = unfold bitmap_set_bit in refl;
          base = unfold bitmap_set_bit in refl;
        }))
    | inr (e, all_used) ↦ inr (
      ground (arith, e),
      omega (
        arith,
        v.counted,
        full-count_used (bitmap_test_bit s) s.total (λ j l. all_used j (omega arith) l),
      ),
    )
  ]

  -- A page is returned whenever the counter says that one is left.
  pub pm_alloc_page_some : s.used < s.total → Allocated s (pm_alloc_page s).0 (pm_alloc_page s).1
  pm_alloc_page_some h = elim pm_alloc_page_lem [ inl a ↦ a | inr (e, full) ↦ absurd (omega arith) ]

  -- pm_alloc_page keeps the invariant.
  pub pm_alloc_page-IsValid : IsValid (pm_alloc_page s).0
  unfolding pm_alloc_page
  pm_alloc_page-IsValid = elim (bitmap_find_free_page_lem s) [
    | inl f ↦
        rw (page_ne (bitmap_find_free_page s) f)
          (unfold bitmap_set_bit in marked-IsValid s v (bitmap_find_free_page s) f.high f.free)
    | inr (e, all_used) ↦ rw e v
  ]
