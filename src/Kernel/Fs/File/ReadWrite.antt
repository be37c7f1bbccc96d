-- ===== src/Kernel/Fs/File/ReadWrite.antt =====
-- What is written to a file in memory is read back, and the rest of the file stays.
use prismatic_os.Base.{
  ℕ, zero, suc, ◌+◌, ◌-◌, ◌%◌, ◌^◌, ◌≤◌, ◌<◌, ◌≡◌, refl, sym, ap, ◌∙◌, ◌⊎◌, inl, inr, true, false,
  Option, none, some, [], ◌++◌, arith, ltb, leb, ltb→lt, lt→ltb, Bool-cases, Option-cases, Bytes,
  length, get_elem?, take, drop, length-append, length-take, length-drop, take-append, drop-append,
  get_elem?-append_left, get_elem?-append_right, get_elem?-take, get_elem?-drop,
}
use mathlib.Core.Path.{subst}
use prismatic_os.Base.Int.{ℤ, negsuc, pos, to_signed}
use prismatic_os.Kernel.Fs.Node.{VfsNode}
use prismatic_os.Kernel.Fs.File.{tabulate, overlay, memfs_read, grown, memfs_write}

-- The size of a node is that of its buffer, and 0 where there is none.
abbrev pub Sized : Option Bytes → ℕ → Type 0
Sized none size = size ≡ 0
Sized (some bytes) size = size ≡ length bytes

abbrev pub HasSize : VfsNode → Type 0
HasSize node = Sized node.content node.size

abbrev pub bytes_in : Option Bytes → Bytes
bytes_in none = []
bytes_in (some bytes) = bytes

length-tabulate : (n i : ℕ) (f : ℕ → ℕ) → length (tabulate n i f) ≡ n
unfolding tabulate
length-tabulate zero i f = refl
length-tabulate (suc n) i f = ap suc (length-tabulate n (i + 1) f)

module _ (buffer src : Bytes) (offset : ℕ) (fits : offset + length src ≤ length buffer) where
  front : length (take offset buffer) ≡ offset
  front = omega (arith, length-take offset buffer)

  pub length-overlay : length (overlay buffer offset src) ≡ length buffer
  unfolding overlay
  length-overlay = omega (
    arith,
    length-append (take offset buffer) (src ++ drop (offset + length src) buffer),
    length-append src (drop (offset + length src) buffer),
    front,
    length-drop (offset + length src) buffer,
  )

  -- The bytes that were copied in.
  pub take-drop-overlay : take (length src) (drop offset (overlay buffer offset src)) ≡ src
  unfolding overlay
  take-drop-overlay =
      ap (take (length src)) (
        subst
          (λ k.
            drop k (take offset buffer ++ (src ++ drop (offset + length src) buffer))
            ≡ src ++ drop (offset + length src) buffer)
          front (drop-append (take offset buffer) (src ++ drop (offset + length src) buffer)))
      ∙ take-append src (drop (offset + length src) buffer)

  -- Every other byte.
  pub get_elem?-overlay :
      (i : ℕ)
      → (i < offset) ⊎ (offset + length src ≤ i)
      → get_elem? (overlay buffer offset src) i ≡ get_elem? buffer i
  unfolding overlay
  get_elem?-overlay i (inl h) =
      get_elem?-append_left (take offset buffer) _ i (omega (arith, front))
      ∙ get_elem?-take offset buffer i h
  get_elem?-overlay i (inr h) =
      get_elem?-append_right (take offset buffer) _ i (omega (arith, front))
      ∙ get_elem?-append_right src _ (i - length (take offset buffer)) (omega (arith, front))
      ∙ get_elem?-drop (offset + length src) buffer _
      ∙ ap (get_elem? buffer) (omega (arith, front))

-- The buffer of a file that grows, and what it keeps.
module _ (new_size : ℕ) (fresh : ℕ → ℕ) where
  fits_in :
      (bytes : Bytes)
      → length bytes ≤ new_size
      → 0 + length (take (length bytes) bytes) ≤ length (tabulate new_size 0 fresh)
  fits_in bytes h =
      omega (arith, length-take (length bytes) bytes, length-tabulate new_size 0 fresh)

  length-grown :
      (c : Option Bytes) (size : ℕ)
      → Sized c size
      → size ≤ new_size
      → length (grown c size new_size fresh) ≡ new_size
  length-grown none size v h = length-tabulate new_size 0 fresh
  length-grown (some bytes) size v h =
      subst (λ k. length (overlay (tabulate new_size 0 fresh) 0 (take k bytes)) ≡ new_size) (sym v)
        (length-overlay (tabulate new_size 0 fresh) (take (length bytes) bytes) 0
            (fits_in bytes (omega (arith)))
          ∙ length-tabulate new_size 0 fresh)

  get_elem?-grown :
      (c : Option Bytes) (size i : ℕ)
      → Sized c size
      → size ≤ new_size
      → i < size
      → get_elem? (grown c size new_size fresh) i ≡ get_elem? (bytes_in c) i
  unfolding overlay
  get_elem?-grown none size i v h l = ground (arith)
  get_elem?-grown (some bytes) size i v h l =
      get_elem?-append_left (take size bytes) _ i (omega (arith, length-take size bytes))
      ∙ get_elem?-take size bytes i l

-- A full read of a stored piece.
memfs_read-stored :
    (node : VfsNode) (bytes buf : Bytes) (offset : ℕ)
    → node.content ≡ some (overlay bytes offset buf)
    → node.size ≡ length bytes
    → 1 ≤ length buf
    → length buf < 2 ^ 31
    → offset + length buf ≤ length bytes
    → length bytes < 2 ^ 64
    → memfs_read node (length buf) offset ≡ (pos (length buf), buf)
unfolding memfs_read
memfs_read-stored node bytes buf offset c s one small fits wide =
    let inside : leb node.size offset ≡ false = ground (arith) in
    let whole : ltb node.size ((offset + length buf) % 2 ^ 64) ≡ false = ground (arith) in
    let positive : to_signed 32 (length buf) ≡ pos (length buf) = ground (arith) in
    rw (c, inside, whole, positive, take-drop-overlay bytes buf offset fits) refl

to_signed_small : (n : ℕ) → n < 2 ^ 31 → to_signed 32 n ≡ pos n
to_signed_small n h = ground (arith)

module _ (fresh : ℕ → ℕ) (node : VfsNode) (buf : Bytes) (offset : ℕ) (small : length buf < 2 ^ 31)
    (wide : offset + length buf < 2 ^ 64) where
  write-grows :
      ltb node.size (offset + length buf) ≡ true
      → memfs_write (some fresh) node buf offset ≡ (
        record node {
          content =
              some (overlay (grown node.content node.size (offset + length buf) fresh) offset buf);
          size = offset + length buf;
        },
        pos (length buf),
      )
  unfolding memfs_write
  write-grows g =
      let e : (offset + length buf) % 2 ^ 64 ≡ offset + length buf = omega (arith, wide) in
      rw (e, g, to_signed_small (length buf) small) refl

  write-stays :
      (bytes : Bytes)
      → node.content ≡ some bytes
      → ltb node.size (offset + length buf) ≡ false
      → memfs_write (some fresh) node buf offset
        ≡ (record node { content = some (overlay bytes offset buf) }, pos (length buf))
  unfolding memfs_write
  write-stays bytes c g =
      let e : (offset + length buf) % 2 ^ 64 ≡ offset + length buf = omega (arith, wide) in
      rw (e, g, to_signed_small (length buf) small, c) refl

-- The answer of a write, the sizes, what a read of the same piece gives, and the other bytes.
abbrev pub Written : VfsNode → Bytes → ℕ → VfsNode × ℤ → Type 0
Written node buf offset w =
    (w.1 ≡ pos (length buf))
    × HasSize w.0
    × (memfs_read w.0 (length buf) offset ≡ (pos (length buf), buf))
    × ((i : ℕ)
        → i < node.size
        → (i < offset) ⊎ (offset + length buf ≤ i)
        → get_elem? (bytes_in w.0.content) i ≡ get_elem? (bytes_in node.content) i)

-- A write at `offset` into a file whose size is that of its buffer, where memory can be had for the
-- growth, the piece is not empty and its length and end fit their types and the file's size fits:
-- the answer is the length, the size is again that of the buffer, a read at the same place gives the
-- piece back, and every byte of the old file outside the piece is unchanged.
pub memfs_write-memfs_read :
    (fresh : ℕ → ℕ) (node : VfsNode) (buf : Bytes) (offset : ℕ)
    → HasSize node
    → node.size < 2 ^ 64
    → 1 ≤ length buf
    → length buf < 2 ^ 31
    → offset + length buf < 2 ^ 64
    → Written node buf offset (memfs_write (some fresh) node buf offset)
memfs_write-memfs_read fresh node buf offset v bounded one small wide =
    elim (Bool-cases (ltb node.size (offset + length buf))) [
      | inl g ↦
          let end : ℕ = offset + length buf in
          let base : Bytes = grown node.content node.size end fresh in
          let h : node.size ≤ end = omega (arith, ltb→lt _ _ g) in
          let l : length base ≡ end = length-grown end fresh node.content node.size v h in
          let fits : offset + length buf ≤ length base = omega (arith, l) in
          subst (Written node buf offset) (sym (write-grows fresh node buf offset small wide g)) (
            refl,
            sym (length-overlay base buf offset fits ∙ l),
            memfs_read-stored _ base buf offset refl (sym l) one small fits (omega (arith, l)),
            λ i below apart.
                get_elem?-overlay base buf offset fits i apart
                ∙ get_elem?-grown end fresh node.content node.size i v h below,
          )
      | inr g ↦ elim (Option-cases node.content) [
        | inl c ↦ let empty : node.size ≡ 0 = subst (λ z. Sized z node.size) c v in ground (arith)
        | inr (bytes, c) ↦
            let s : node.size ≡ length bytes = subst (λ z. Sized z node.size) c v in
            let fits : offset + length buf ≤ length bytes = ground (arith) in
            subst (Written node buf offset)
              (sym (write-stays fresh node buf offset small wide bytes c g))
              (
                refl,
                s ∙ sym (length-overlay bytes buf offset fits),
                memfs_read-stored _ bytes buf offset refl s one small fits (omega (arith, s)),
                λ i below apart.
                    get_elem?-overlay bytes buf offset fits i apart
                    ∙ ap (λ z. get_elem? (bytes_in z) i) (sym c),
              )
      ]
    ]

-- Without memory for a file that must grow, the answer is -1 and the file is unchanged.
pub memfs_write_refused :
    (node : VfsNode) (buf : Bytes) (offset : ℕ)
    → node.size < (offset + length buf) % 2 ^ 64
    → memfs_write none node buf offset ≡ (node, negsuc 0)
unfolding memfs_write
memfs_write_refused node buf offset h = rw (lt→ltb _ _ h) refl
