-- ===== src/Kernel/Fs/File.antt =====
-- The in-memory files of kernel/fs.c: memfs_read and memfs_write. A buffer is the list of its bytes.
-- What kmalloc returns for a new buffer is an argument: `none`, or the bytes that stand there.
-- `ssize_t` is an int32_t, `size_t` and the offsets have 64 bits.
pub mod ReadWrite
use prismatic_os.Base.{
  ℕ, zero, suc, ◌+◌, ◌-◌, ◌%◌, ◌^◌, Option, none, some, [], ◌∷◌, ◌++◌, ltb, leb, if◌then◌else◌,
  Bytes, length, take, drop,
}
use prismatic_os.Base.Int.{ℤ, negsuc, pos, to_signed}
use prismatic_os.Kernel.Fs.Node.{VfsNode}

-- The first `n` bytes of a memory, from address `i`.
unfoldable pub tabulate : ℕ → ℕ → (ℕ → ℕ) → Bytes
tabulate zero i f = []
tabulate (suc n) i f = f i ∷ tabulate n (i + 1) f

-- memcpy(buffer + offset, src, length of src) within the buffer.
unfoldable pub overlay : Bytes → ℕ → Bytes → Bytes
overlay buffer offset src = take offset buffer ++ (src ++ drop (offset + length src) buffer)

-- The answer and the bytes that are copied into the caller's buffer.
pub memfs_read : VfsNode → (count offset : ℕ) → ℤ × Bytes
memfs_read node count offset = elim node.content [
  | none ↦ (negsuc 0, [])
  | some bytes ↦
      let wanted =
        if ltb node.size ((offset + count) % 2 ^ 64) then node.size - offset else count in
      if leb node.size offset
      then (pos 0, [])
      else (to_signed 32 wanted, take wanted (drop offset bytes))
]

-- The buffer that replaces the content when the file grows to `new_size`.
abbrev pub grown : Option Bytes → (size new_size : ℕ) → (ℕ → ℕ) → Bytes
grown none size new_size fresh = tabulate new_size 0 fresh
grown (some bytes) size new_size fresh = overlay (tabulate new_size 0 fresh) 0 (take size bytes)

-- The last copy of memfs_write; with no buffer there is nothing to copy.
abbrev pub copy_in : VfsNode → ℕ → Bytes → VfsNode
copy_in node offset buf = elim node.content [
  | none ↦ node
  | some bytes ↦ record node { content = some (overlay bytes offset buf) }
]

-- `buf` holds `count` bytes.
pub memfs_write : Option (ℕ → ℕ) → VfsNode → Bytes → (offset : ℕ) → VfsNode × ℤ
memfs_write room node buf offset =
    let new_size = (offset + length buf) % 2 ^ 64 in
    if ltb node.size new_size
    then elim room [
      | none ↦ (node, negsuc 0)
      | some fresh ↦ (
        copy_in
            (record node {
              content = some (grown node.content node.size new_size fresh);
              size = new_size;
            })
            offset buf,
        to_signed 32 (length buf),
      )
    ]
    else (copy_in node offset buf, to_signed 32 (length buf))

-- memfs_ioctl and memfs_close
pub memfs_ioctl : VfsNode → ℤ
memfs_ioctl node = negsuc 0

pub memfs_close : VfsNode → ℤ
memfs_close node = pos 0
