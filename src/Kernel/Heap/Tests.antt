-- ===== src/Kernel/Heap/Tests.antt =====
-- Uses of the theorems about the heap on concrete inputs.
use prismatic_os.Base.{refl, inr, true, false, [], ◌∷◌, arith}
use prismatic_os.Kernel.Heap.{Block, Heap, find_block, kmalloc, kfree}
use prismatic_os.Kernel.Heap.Alloc.{IsValid, Allocated, kmalloc-Allocated}
use prismatic_os.Kernel.Heap.Release.{Overlap, kfree_overrun}

abbrev old_block : Block
old_block = record { at = 1000; size = 32; used = true }

-- A heap of two blocks, of which the newer one is free, and large enough to be cut in two.
abbrev two_blocks : Heap
two_blocks = record {
  blocks = record { at = 1056; size = 64; used = false } ∷ old_block ∷ [];
  current = 1144;
  limit = 2000;
}

two_blocks-IsValid : IsValid two_blocks
two_blocks-IsValid =
    (((inr (omega arith), tt), (tt, tt)), (omega arith, (omega arith, tt)), omega arith)

kmalloc-Allocated_example : Allocated two_blocks 20 (kmalloc two_blocks 20)
kmalloc-Allocated_example = kmalloc-Allocated two_blocks 20 two_blocks-IsValid (omega arith)

-- Both blocks were in use, and the older one was freed first.
abbrev newer : Block
newer = record { at = 1056; size = 64; used = true }

abbrev older : Block
older = record { at = 1000; size = 32; used = false }

abbrev half_freed : Heap
half_freed = record { blocks = newer ∷ older ∷ []; current = 1144; limit = 2000 }

-- The newer block is freed; then 200 and 120 bytes are asked for.
kfree_overrun_example :
    let (p, h1) = kmalloc (kfree half_freed 1080) 200 in
    let (q, h2) = kmalloc h1 120 in Overlap h2 q 120 p 200
unfolding find_block
kfree_overrun_example =
    kfree_overrun half_freed newer older [] 200 refl refl refl (omega arith) refl refl refl
      (omega arith) refl (omega arith) (omega arith)
