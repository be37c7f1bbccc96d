-- ===== src/Kernel/Frames/Tests.antt =====
-- Runs of the page allocator on a region of four pages, two of them in use.
use prismatic_os.Base.{ℕ, ◌/◌, ◌≡◌, refl, ◌⊎◌, some, arith, ◌==◌, if◌then◌else◌}
use prismatic_os.Kernel.Frames.{
  Frames, bitmap_test_bit, test_mask, bitmap_find_free_page, pm_init_region, pm_alloc_page,
  pm_free_page,
}
use prismatic_os.Kernel.Frames.Scan.{count_used}
use prismatic_os.Kernel.Frames.Init.{pm_init_region_lem, MarksBelow, kernel_pages, CoversKernel}
use prismatic_os.Kernel.Frames.Alloc.{
  IsValid, Allocated, pm_alloc_page_lem, pm_alloc_page_some, pm_alloc_page-IsValid,
}
use prismatic_os.Kernel.Frames.Release.{pm_free_page-undo}

abbrev two_used : Frames
two_used = record { bitmap = λ i. if i == 0 then 3 else 0; total = 4; used = 2; base = 4096 }

two_used-IsValid : IsValid two_used
unfolding count_used bitmap_test_bit test_mask
two_used-IsValid = record { bytes = λ i. ground arith; counted = refl; fits = omega arith }

two_used_next : (pm_alloc_page two_used).1 ≡ 12288
unfolding pm_alloc_page bitmap_find_free_page bitmap_test_bit test_mask
two_used_next = refl

pm_alloc_page_lem_example :
    Allocated two_used (pm_alloc_page two_used).0 (pm_alloc_page two_used).1
    ⊎ (pm_alloc_page two_used ≡ (two_used, 0)) × (two_used.used ≡ two_used.total)
pm_alloc_page_lem_example = pm_alloc_page_lem two_used two_used-IsValid

abbrev three_used : Frames
three_used = (pm_alloc_page two_used).0

pm_free_page-undo_example :
    ((pm_free_page three_used (pm_alloc_page two_used).1).used ≡ two_used.used)
    × ((pm_free_page three_used (pm_alloc_page two_used).1).total ≡ two_used.total)
    × ((pm_free_page three_used (pm_alloc_page two_used).1).base ≡ two_used.base)
    × ((j : ℕ)
        → bitmap_test_bit (pm_free_page three_used (pm_alloc_page two_used).1) j
          ≡ bitmap_test_bit two_used j)
pm_free_page-undo_example =
    pm_free_page-undo two_used three_used (pm_alloc_page two_used).1 two_used-IsValid
      (pm_alloc_page-IsValid two_used two_used-IsValid)
      (pm_alloc_page_some two_used two_used-IsValid (omega arith))

abbrev blank : Frames
blank = record { bitmap = λ i. 0; total = 0; used = 0; base = 0 }

-- The region of mm_init, and a kernel heap that ends at 5 MB.
pm_init_region_lem_example :
    (t : Frames) × (pm_init_region 64 5242880 blank 1048576 268435456 ≡ some t)
    × IsValid t
    × (t.base ≡ 1048576)
    × (t.total ≡ 268435456 / 4096)
    × MarksBelow (kernel_pages 64 5242880 1048576 268435456 blank) t
    × CoversKernel 64 5242880 1048576 268435456 blank t
pm_init_region_lem_example =
    pm_init_region_lem 64 5242880 1048576 268435456 blank (omega arith) refl (omega arith)
      (omega arith)
