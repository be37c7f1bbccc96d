-- ===== src/Kernel/Frames.antt =====
-- The physical page allocator of kernel/mm.c (the memory bitmap, pm_init_region, pm_alloc_page,
-- pm_free_page and mm_get_available_memory). The bitmap is a function from a byte's index to the
-- byte, the other static variables are fields. `uint64_t` arithmetic is modulo 2 ^ 64.
pub mod Bits
pub mod Scan
pub mod Init
pub mod Alloc
pub mod Release
mod Tests
use prismatic_os.Base.{
  ℕ, zero, suc, ◌+◌, ◌-◌, ◌*◌, ◌/◌, ◌%◌, ◌^◌, Bool, not, Option, none, some, ltb, ◌==◌, ◌!=◌, ◌&&◌,
  if◌then◌else◌, bit_and, bit_or,
}

abbrev pub page_size : ℕ
page_size = 4096

abbrev pub u64 : ℕ
u64 = 2 ^ 64

-- (uint64_t)-1
abbrev pub no_page : ℕ
no_page = 2 ^ 64 - 1

pub record Frames : Type 0 where
  pub bitmap : ℕ → ℕ
  pub total : ℕ
  pub used : ℕ
  pub base : ℕ

-- A byte of the bitmap with bit `k` set, cleared, and the test of bit `k`; `1 << k` is an int and
-- the byte is written back as a uint8_t.
unfoldable pub set_mask : ℕ → ℕ → ℕ
set_mask b k = bit_or b (2 ^ k) % 256

unfoldable pub clear_mask : ℕ → ℕ → ℕ
clear_mask b k = bit_and b (2 ^ 32 - 1 - 2 ^ k) % 256

unfoldable pub test_mask : ℕ → ℕ → Bool
test_mask b k = bit_and b (2 ^ k) != 0

unfoldable pub write_byte : (ℕ → ℕ) → ℕ → ℕ → ℕ → ℕ
write_byte m i v j = if i == j then v else m j

pub bitmap_set_bit : Frames → ℕ → Frames
bitmap_set_bit s bit = record s {
  bitmap = write_byte s.bitmap (bit / 8) (set_mask (s.bitmap (bit / 8)) (bit % 8));
}

pub bitmap_clear_bit : Frames → ℕ → Frames
bitmap_clear_bit s bit = record s {
  bitmap = write_byte s.bitmap (bit / 8) (clear_mask (s.bitmap (bit / 8)) (bit % 8));
}

pub bitmap_test_bit : Frames → ℕ → Bool
bitmap_test_bit s bit = test_mask (s.bitmap (bit / 8)) (bit % 8)

-- The loop of bitmap_find_free_page with `n` rounds left, from page `i`.
find_free_from : Frames → ℕ → ℕ → ℕ
find_free_from s zero i = no_page
find_free_from s (suc n) i =
    let rest = find_free_from s n (i + 1) in if not (bitmap_test_bit s i) then i else rest

pub bitmap_find_free_page : Frames → ℕ
unfolding find_free_from
bitmap_find_free_page s = find_free_from s s.total 0

-- `for (i = 0; i < kernel_pages && i < memory_total_pages; i++)`, with `n` rounds left.
pub mark_pages : ℕ → ℕ → ℕ → Frames → Frames
mark_pages zero i kernel_pages s = s
mark_pages (suc n) i kernel_pages s =
    let s' = bitmap_set_bit s i in
    let rest = mark_pages n (i + 1) kernel_pages (record s' { used = (s'.used + 1) % u64 }) in
    if ltb i kernel_pages && ltb i s.total then rest else s

-- PAGE_ALIGN on a uint64_t
pub page_align : ℕ → ℕ
page_align a = ((a + page_size - 1) % u64) / page_size * page_size

-- `mem` is the pointer that kmalloc returns for the bitmap, `heap_end` is kernel_heap_end.
-- `none` is the panic. The counter of used pages is not reset.
pub pm_init_region : (mem heap_end : ℕ) → Frames → ℕ → ℕ → Option Frames
unfolding mark_pages page_align
pm_init_region mem heap_end s start size =
    if mem == 0
    then none
    else some (
        mark_pages (size / page_size) 0 (page_align heap_end / page_size)
          (record s { bitmap = λ i. 0; total = size / page_size; base = start }))

pub pm_alloc_page : Frames → Frames × ℕ
pm_alloc_page s =
    let page = bitmap_find_free_page s in
    let s' = bitmap_set_bit s page in
    if page == no_page
    then (s, 0)
    else (record s' { used = (s'.used + 1) % u64 }, (s.base + page * page_size) % u64)

pub pm_free_page : Frames → ℕ → Frames
pm_free_page s addr =
    let page = ((addr + u64 - s.base) % u64) / page_size in
    let s' = bitmap_clear_bit s page in
    if ltb page s.total && bitmap_test_bit s page
    then record s' { used = (s'.used + u64 - 1) % u64 }
    else s

pub mm_get_available_memory : Frames → ℕ
mm_get_available_memory s = ((s.total + u64 - s.used) % u64 * page_size) % u64
