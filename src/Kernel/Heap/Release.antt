-- ===== src/Kernel/Heap/Release.antt =====
-- What kfree does to the block that stands first in the list, and what kmalloc makes of it.
use prismatic_os.Base.{
  ℕ, ◌+◌, ◌%◌, ◌^◌, ◌≤◌, ◌<◌, ◌≡◌, refl, ◌≢◌, true, false, inl, inr, none, List, ◌∷◌, arith, ltb,
  leb, ◌==◌, eq_refl,
}
use prismatic_os.Kernel.Heap.{
  header, Block, Heap, align, take_block, find_block, extend, free_block, kmalloc, kfree,
}
use prismatic_os.Kernel.Heap.Alloc.{Gives}

-- The size that kfree gives to a block in front of a free one.
abbrev pub merged : Block → Block → ℕ
merged b c = b.size + c.size + header

-- The first block is taken by a request of its own size.
take_whole :
    (h : Heap) (b d : Block) (rest : List Block) (size : ℕ)
    → h.blocks ≡ d ∷ b ∷ rest
    → d.used ≡ true
    → b.used ≡ false
    → b.size ≡ size
    → size ≢ 0
    → align size ≡ size
    → size + header < 2 ^ 64
    → kmalloc h size ≡ (b.at + header, record h { blocks = d ∷ record b { used = true } ∷ rest })
unfolding kmalloc find_block take_block
take_whole h b d rest size blocks used free e some_bytes aligned small =
    let asked : (size == 0) ≡ false = ground arith in
    let fits : leb size b.size ≡ true = ground arith in
    let whole : ltb ((size + header) % 2 ^ 64) b.size ≡ false = ground arith in
    rw (asked, aligned, blocks, used, free, fits, whole) refl

-- A request that no free block has room for is served at the end of the heap.
extend_heap :
    (h : Heap) (size : ℕ)
    → find_block h.blocks size ≡ none
    → size ≢ 0
    → align size ≡ size
    → h.current + size + header ≤ h.limit
    → h.limit < 2 ^ 64
    → kmalloc h size ≡ (
      h.current + header,
      record h {
        blocks = record { at = h.current; size = size; used = true } ∷ h.blocks;
        current = h.current + size + header;
      },
    )
unfolding kmalloc extend
extend_heap h size nothing some_bytes aligned room small =
    let asked : (size == 0) ≡ false = ground arith in
    let end : (h.current + size + header) % 2 ^ 64 ≡ h.current + size + header = omega arith in
    let inside : ltb h.limit (h.current + size + header) ≡ false = ground arith in
    rw (asked, aligned, nothing, end, inside) refl

align_lem : (size : ℕ) → size % 8 ≡ 0 → size + 7 < 2 ^ 64 → align size ≡ size
unfolding align
align_lem size e h = omega arith

module _ (h : Heap) (b c : Block) (rest : List Block) (size : ℕ) (blocks : h.blocks ≡ b ∷ c ∷ rest)
    (small : merged b c < 2 ^ 64) (free : c.used ≡ false) where
  abbrev after_kfree : Heap
  after_kfree = record h { blocks = record b { used = false; size = merged b c } ∷ rest }

  kfree-merged : kfree h (b.at + header) ≡ after_kfree
  unfolding kfree free_block
  kfree-merged =
      let some_pointer : (b.at + header == 0) ≡ false = ground arith in
      let sum : (b.size + c.size + header) % 2 ^ 64 ≡ merged b c = omega arith in
      rw (some_pointer, blocks, eq_refl (b.at + header), free, sum) refl

  too_small :
      find_block rest size ≡ none → merged b c < size → find_block after_kfree.blocks size ≡ none
  unfolding find_block
  too_small nothing more =
      let short : leb size (merged b c) ≡ false = ground arith in rw (short, nothing) refl

-- Two allocations that are in use, of which the second one begins inside the first.
abbrev pub Overlap : Heap → (q m p n : ℕ) → Type 0
Overlap h q m p n = Gives h.blocks q m × Gives h.blocks p n × (q < p) × (p < q + m)

-- The newest block, first in the list, ends where the part of the heap that is in use ends, and the next
-- block of the list is free and not empty. When kfree frees the newest block, then two calls of kmalloc
-- return blocks that are both in use and overlap: the first one for more than the two blocks and a
-- header, which no free block behind them has and for which there is room at the end of the heap, the
-- second one for exactly the two blocks and a header. Sizes are multiples of 8, as kmalloc makes them,
-- and the heap ends below 2^64.
pub kfree_overrun :
    (h : Heap) (b c : Block) (rest : List Block) (size : ℕ)
    → h.blocks ≡ b ∷ c ∷ rest
    → h.current ≡ b.at + header + b.size
    → c.used ≡ false
    → 0 < c.size
    → b.size % 8 ≡ 0
    → c.size % 8 ≡ 0
    → size % 8 ≡ 0
    → merged b c < size
    → find_block rest size ≡ none
    → h.current + size + header ≤ h.limit
    → h.limit < 2 ^ 64
    → let (p, h1) = kmalloc (kfree h (b.at + header)) size in
      let (q, h2) = kmalloc h1 (merged b c) in Overlap h2 q (merged b c) p size
kfree_overrun h b c rest size blocks top free some_size eb ec es more nothing room small =
    let after = after_kfree h b c rest size blocks (omega arith) free in
    let first : Block = record { at = h.current; size = size; used = true } in
    let h1 : Heap = record after {
      blocks = first ∷ after.blocks;
      current = h.current + size + header;
    } in
    let freed = kfree-merged h b c rest size blocks (omega arith) free in
    let p_is =
      extend_heap after size (too_small h b c rest size blocks (omega arith) free nothing more)
        (omega arith) (align_lem size es (omega arith)) room small in
    let q_is =
      take_whole h1 (record b { used = false; size = merged b c }) first rest (merged b c) refl refl
        refl refl (omega arith) (align_lem (merged b c) (omega arith) (omega arith))
        (omega arith) in
    rw (freed, p_is, q_is)
      (inr (inl (refl, refl, omega arith)), inl (refl, refl, omega arith), omega arith, omega arith)
