-- ===== src/Kernel/Heap.antt =====
-- kmalloc, kfree and krealloc of kernel/mm.c. The list of the blocks is a list of their headers, each
-- with its address, in the order of `next`; a header has 24 bytes and is taken to be written by these
-- functions only.
pub mod Alloc
pub mod Release
mod Tests
use prismatic_os.Base.{
  ℕ, ◌+◌, ◌-◌, ◌*◌, ◌/◌, ◌%◌, ◌^◌, Bool, true, false, not, ◌&&◌, Option, none, some, List, [], ◌∷◌,
  ltb, leb, ◌==◌, if◌then◌else◌,
}

abbrev pub header : ℕ
header = 24

-- struct heap_block, with its address.
pub record Block : Type 0 where
  pub at : ℕ
  pub size : ℕ
  pub used : Bool

-- heap_free_list, kernel_heap_current and kernel_heap_end.
pub record Heap : Type 0 where
  pub blocks : List Block
  pub current : ℕ
  pub limit : ℕ

-- (size + 7) & ~7
unfoldable pub align : ℕ → ℕ
align size = (size + 7) % 2 ^ 64 / 8 * 8

-- The block that is taken, and the rest of it as a block behind, where a header fits in.
unfoldable pub take_block : Block → ℕ → List Block → List Block
take_block b size rest =
    let needed = (size + header) % 2 ^ 64 in
    if ltb needed b.size
    then record b { used = true; size = size }
      ∷ record { at = b.at + header + size; size = b.size - needed; used = false }
      ∷ rest
    else record b { used = true } ∷ rest

abbrev pub keep_block : Block → Option (ℕ × List Block) → Option (ℕ × List Block)
keep_block b none = none
keep_block b (some (p, blocks)) = some (p, b ∷ blocks)

-- The walk over the list: the address of the first block that is free and large enough, and the list
-- in which it is taken.
unfoldable pub find_block : List Block → ℕ → Option (ℕ × List Block)
find_block [] size = none
find_block (b ∷ rest) size =
    let later = keep_block b (find_block rest size) in
    if not b.used && leb size b.size then some (b.at + header, take_block b size rest) else later

-- A new block at the end of the heap, in front of the list; 0 is NULL.
unfoldable pub extend : Heap → ℕ → ℕ × Heap
extend h size = if ltb h.limit ((h.current + size + header) % 2 ^ 64) then (0, h) else (
  h.current + header,
  record h {
    blocks = record { at = h.current; size = size; used = true } ∷ h.blocks;
    current = (h.current + size + header) % 2 ^ 64;
  },
)

abbrev pub found_or : Heap → ℕ → Option (ℕ × List Block) → ℕ × Heap
found_or h size none = extend h size
found_or h size (some (p, blocks)) = (p, record h { blocks = blocks })

pub kmalloc : Heap → ℕ → ℕ × Heap
kmalloc h size =
    if size == 0 then (0, h) else found_or h (align size) (find_block h.blocks (align size))

-- Try to merge with next block
abbrev pub merge_next : Block → List Block → List Block
merge_next b [] = b ∷ []
merge_next b (c ∷ rest) =
    if c.used then b ∷ c ∷ rest else record b { size = (b.size + c.size + header) % 2 ^ 64 } ∷ rest

-- The block in front of the pointer is looked up in the list, where kmalloc put it.
unfoldable pub free_block : List Block → ℕ → List Block
free_block [] p = []
free_block (b ∷ rest) p =
    let more = free_block rest p in
    if b.at + header == p then merge_next (record b { used = false }) rest else b ∷ more

pub kfree : Heap → ℕ → Heap
kfree h p = if p == 0 then h else record h { blocks = free_block h.blocks p }

-- block->size
unfoldable pub size_of : List Block → ℕ → ℕ
size_of [] p = 0
size_of (b ∷ rest) p = let more = size_of rest p in if b.at + header == p then b.size else more

-- The block is large enough, or there is a new one; the bytes that memcpy moves to it are not in the
-- model of the heap.
pub krealloc : Heap → ℕ → ℕ → ℕ × Heap
krealloc h p new_size =
    let (q, h') = kmalloc h new_size in
    if p == 0
    then (q, h')
    else if new_size == 0
    then (0, kfree h p)
    else if leb new_size (size_of h.blocks p)
    then (p, h)
    else if q == 0
    then (0, h')
    else (q, kfree h' p)
