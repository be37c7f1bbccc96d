-- ===== src/Kernel/Heap/Alloc.antt =====
-- kmalloc gives memory that no other block has.
use prismatic_os.Base.{
  ℕ, ◌+◌, ◌-◌, ◌%◌, ◌^◌, ◌≤◌, ◌<◌, ◌≡◌, refl, ◌≢◌, ◌⊎◌, inl, inr, true, false, not, ◌&&◌, Option,
  none, some, List, [], ◌∷◌, arith, ltb, leb, ◌==◌, Bool-cases,
}
use prismatic_os.Libc.Str.Search.{All}
use prismatic_os.Kernel.Heap.{
  header, Block, Heap, align, take_block, keep_block, find_block, extend, found_or, kmalloc,
}

-- One block ends in front of the other.
abbrev pub Apart : Block → Block → Type 0
Apart b c = (b.at + header + b.size ≤ c.at) ⊎ (c.at + header + c.size ≤ b.at)

-- No two blocks share a byte, headers included.
abbrev pub AllApart : List Block → Type 0
AllApart [] = Unit
AllApart (b ∷ rest) = All (Apart b) rest × AllApart rest

abbrev pub Ends : ℕ → Block → Type 0
Ends current b = b.at + header + b.size ≤ current

-- Every block is below the end of what is in use.
abbrev pub IsValid : Heap → Type 0
IsValid h = AllApart h.blocks × All (Ends h.current) h.blocks × (h.current ≤ h.limit)

All-map :
    {P Q : Block → Type 0} → ((b : Block) → P b → Q b) → (xs : List Block) → All P xs → All Q xs
All-map f [] h = tt
All-map f (x ∷ xs) (hx, h) = (f x hx, All-map f xs h)

-- A block inside of another one is apart from what that one is apart from.
Apart-inside : (b d c : Block) → b.at ≤ d.at → d.at + d.size ≤ b.at + b.size → Apart b c → Apart d c
Apart-inside b d c low high (inl h) = inl (omega arith)
Apart-inside b d c low high (inr h) = inr (omega arith)

-- What is apart from all blocks of a list, and below the end, stays so when one of them is taken.
module _ (P : Block → Type 0)
    (inside : (b d : Block) → b.at ≤ d.at → d.at + d.size ≤ b.at + b.size → P b → P d) where
  take_block-All :
      (b : Block) (size : ℕ) (rest : List Block)
      → size + header < 2 ^ 64
      → size ≤ b.size
      → P b
      → All P rest
      → All P (take_block b size rest)
  unfolding take_block
  take_block-All b size rest small fits hb h =
      elim (Bool-cases (ltb ((size + header) % 2 ^ 64) b.size)) [
        | inl e ↦
            let l : size + header < b.size = ground (arith, e, small) in
            rw e (
              inside b _ (omega arith) (omega arith) hb,
              (inside b _ (omega arith) (omega arith) hb, h),
            )
        | inr e ↦ rw e (inside b _ (omega arith) (omega arith) hb, h)
      ]

  abbrev AllOf : Option (ℕ × List Block) → Type 0
  AllOf none = Unit
  AllOf (some (p, blocks)) = All P blocks

  find_block-All :
      (blocks : List Block) (size : ℕ)
      → size + header < 2 ^ 64
      → All P blocks
      → AllOf (find_block blocks size)
  unfolding find_block
  find_block-All [] size small h = tt
  find_block-All (b ∷ rest) size small (hb, h) = elim (Bool-cases (not b.used && leb size b.size)) [
    | inl e ↦ rw e (take_block-All b size rest small (ground (arith, e)) hb h)
    | inr e ↦ rw e (kept (find_block rest size) (find_block-All rest size small h))
  ]
    where
      kept : (r : Option (ℕ × List Block)) → AllOf r → AllOf (keep_block b r)
      kept none hr = tt
      kept (some (p, blocks)) hr = (hb, hr)

-- A block of the list has this address, is in use, and has room for `size` bytes.
abbrev pub Gives : List Block → ℕ → ℕ → Type 0
Gives [] p size = ⊥
Gives (b ∷ rest) p size =
    ((b.at + header ≡ p) × (b.used ≡ true) × (size ≤ b.size)) ⊎ Gives rest p size

-- The block with this address is not in use.
abbrev pub NotUsed : ℕ → Block → Type 0
NotUsed p b = b.used ≡ true → b.at + header ≢ p

abbrev Found : List Block → ℕ → Option (ℕ × List Block) → Type 0
Found old size none = Unit
Found old size (some (p, blocks)) = AllApart blocks × Gives blocks p size × All (NotUsed p) old

Apart-at : (b c : Block) (p : ℕ) → Apart b c → b.at + header ≡ p → NotUsed p c
Apart-at b c p (inl h) e used = λ z. omega arith
Apart-at b c p (inr h) e used = λ z. omega arith

take_block-AllApart :
    (b : Block) (size : ℕ) (rest : List Block)
    → size + header < 2 ^ 64
    → size ≤ b.size
    → AllApart (b ∷ rest)
    → AllApart (take_block b size rest)
unfolding take_block
take_block-AllApart b size rest small fits (h, hs) =
    let front : Block = record b { used = true; size = size } in
    let whole : Block = record b { used = true } in
    let behind : Block = record {
      at = b.at + header + size;
      size = b.size - (size + header) % 2 ^ 64;
      used = false;
    } in
    elim (Bool-cases (ltb ((size + header) % 2 ^ 64) b.size)) [
      | inl e ↦
          let l : size + header < b.size = ground (arith, e, small) in
          rw e (
            (
              inl (omega arith),
              All-map (λ c. Apart-inside b front c (omega arith) (omega arith)) rest h,
            ),
            (All-map (λ c. Apart-inside b behind c (omega arith) (omega arith)) rest h, hs),
          )
      | inr e ↦ rw e (All-map (λ c. Apart-inside b whole c (omega arith) (omega arith)) rest h, hs)
    ]

take_block-Gives :
    (b : Block) (size : ℕ) (rest : List Block)
    → size + header < 2 ^ 64
    → size ≤ b.size
    → Gives (take_block b size rest) (b.at + header) size
unfolding take_block
take_block-Gives b size rest small fits =
    elim (Bool-cases (ltb ((size + header) % 2 ^ 64) b.size)) [
      | inl e ↦ rw e (inl (refl, refl, omega arith))
      | inr e ↦ rw e (inl (refl, refl, fits))
    ]

Apart-inside_right :
    (x b d : Block) → b.at ≤ d.at → d.at + d.size ≤ b.at + b.size → Apart x b → Apart x d
Apart-inside_right x b d low high (inl h) = inl (omega arith)
Apart-inside_right x b d low high (inr h) = inr (omega arith)

Apart-Gives :
    (b : Block) (blocks : List Block) (p size : ℕ)
    → All (Apart b) blocks
    → Gives blocks p size
    → b.at + header ≢ p
Apart-Gives b [] p size h g = absurd g
Apart-Gives b (c ∷ rest) p size (inl x, h) (inl (e, used, fits)) = λ z. omega arith
Apart-Gives b (c ∷ rest) p size (inr x, h) (inl (e, used, fits)) = λ z. omega arith
Apart-Gives b (c ∷ rest) p size (hc, h) (inr g) = Apart-Gives b rest p size h g

find_block-Found :
    (blocks : List Block) (size : ℕ)
    → size + header < 2 ^ 64
    → AllApart blocks
    → Found blocks size (find_block blocks size)
unfolding find_block
find_block-Found [] size small h = tt
find_block-Found (b ∷ rest) size small (hb, h) = elim (Bool-cases (not b.used && leb size b.size)) [
  | inl e ↦
      let fits : size ≤ b.size = ground (arith, e) in
      let unused : b.used ≡ false = ground (arith, e) in
      rw e (
        take_block-AllApart b size rest small fits (hb, h),
        take_block-Gives b size rest small fits,
        (
          (λ used. absurd (ground (arith, used, unused))),
          All-map (λ c a. Apart-at b c (b.at + header) a refl) rest hb,
        ),
      )
  | inr e ↦ rw e (
      kept (find_block rest size) (find_block-Found rest size small h) (
        find_block-All (Apart b) (λ c d low high. Apart-inside_right b c d low high) rest size small
          hb))
]
  where
    kept :
        (r : Option (ℕ × List Block))
        → Found rest size r
        → AllOf (Apart b) (λ c d low high. Apart-inside_right b c d low high) r
        → Found (b ∷ rest) size (keep_block b r)
    kept none f a = tt
    kept (some (p, blocks)) (apart, gives, free) a =
        ((a, apart), inr gives, (λ used. Apart-Gives b blocks p size a gives, free))

-- What kmalloc promises of its result, where it is not NULL.
abbrev pub Allocated : Heap → ℕ → ℕ × Heap → Type 0
Allocated h size (p, h') =
    IsValid h'
    × (h'.limit ≡ h.limit)
    × ((p ≡ 0) ⊎ (Gives h'.blocks p size × All (NotUsed p) h.blocks))

below_NotUsed : (current : ℕ) (b : Block) → Ends current b → NotUsed (current + header) b
below_NotUsed current b h used e = omega arith

extend-Allocated :
    (h : Heap) (size : ℕ)
    → IsValid h
    → h.current + size + header < 2 ^ 64
    → Allocated h size (extend h size)
unfolding extend
extend-Allocated h size (apart, ends, low) room =
    let top : (h.current + size + header) % 2 ^ 64 ≡ h.current + size + header = omega arith in
    elim (Bool-cases (ltb h.limit ((h.current + size + header) % 2 ^ 64))) [
      | inl e ↦ rw e ((apart, ends, low), refl, inl refl)
      | inr e ↦
          let fits : h.current + size + header ≤ h.limit = ground (arith, e, top) in
          rw (e, top)
            (
              (
                (All-map (λ b x. inr x) h.blocks ends, apart),
                (omega arith, All-map (λ b x. omega (arith, x)) h.blocks ends),
                fits,
              ),
              refl,
              inr (
                inl (refl, refl, omega arith),
                All-map (λ b x. below_NotUsed h.current b x) h.blocks ends,
              ),
            )
    ]

Gives-mono :
    (blocks : List Block) (p size more : ℕ)
    → size ≤ more
    → Gives blocks p more
    → Gives blocks p size
Gives-mono [] p size more le g = g
Gives-mono (b ∷ rest) p size more le (inl (e, used, fits)) = inl (e, used, omega arith)
Gives-mono (b ∷ rest) p size more le (inr g) = inr (Gives-mono rest p size more le g)

Allocated-mono :
    (h : Heap) (size more : ℕ) (r : ℕ × Heap)
    → size ≤ more
    → Allocated h more r
    → Allocated h size r
Allocated-mono h size more (p, h') le (valid, same, inl z) = (valid, same, inl z)
Allocated-mono h size more (p, h') le (valid, same, inr (g, free)) =
    (valid, same, inr (Gives-mono h'.blocks p size more le g, free))

Ends-inside :
    (current : ℕ) (b d : Block)
    → b.at ≤ d.at
    → d.at + d.size ≤ b.at + b.size
    → Ends current b
    → Ends current d
Ends-inside current b d low high h = omega arith

found_or-Allocated :
    (h : Heap) (size : ℕ) (r : Option (ℕ × List Block))
    → IsValid h
    → h.current + size + header < 2 ^ 64
    → Found h.blocks size r
    → AllOf (Ends h.current) (Ends-inside h.current) r
    → Allocated h size (found_or h size r)
found_or-Allocated h size none valid room f ends = extend-Allocated h size valid room
found_or-Allocated h size (some (p, blocks)) (old, oldends, low) room (apart, gives, free) ends =
    ((apart, ends, low), refl, inr (gives, free))

align_bounds : (size : ℕ) → size + 7 < 2 ^ 64 → (size ≤ align size) × (align size ≤ size + 7)
unfolding align
align_bounds size h = (omega arith, omega arith)

-- The blocks of a heap in order stay apart, and within the heap, when one is allocated. The pointer
-- that is returned, unless it is NULL, is that of a block that was not in use, or not there, and that
-- has room for the bytes asked for. The sum of the heap and the request does not overflow.
pub kmalloc-Allocated :
    (h : Heap) (size : ℕ)
    → IsValid h
    → h.current + size + 32 < 2 ^ 64
    → Allocated h size (kmalloc h size)
unfolding kmalloc
kmalloc-Allocated h size (apart, ends, low) room = elim (Bool-cases (size == 0)) [
  | inl e ↦ rw e ((apart, ends, low), refl, inl refl)
  | inr e ↦
      let (least, most) = align_bounds size (omega arith) in
      rw e (
        Allocated-mono h size (align size)
          (found_or h (align size) (find_block h.blocks (align size))) least
          (found_or-Allocated h (align size) (find_block h.blocks (align size)) (apart, ends, low)
            (omega arith) (find_block-Found h.blocks (align size) (omega arith) apart)
            (find_block-All (Ends h.current) (Ends-inside h.current) h.blocks (align size)
              (omega arith) ends)))
]
