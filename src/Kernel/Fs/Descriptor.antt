-- ===== src/Kernel/Fs/Descriptor.antt =====
-- The file descriptors of kernel/fs.c: fd_table and the operations on it. An entry of the table holds
-- the cell its pointer leads to, which no other pointer reaches. `room` tells whether kmalloc finds
-- memory for a new cell.
pub mod Lowest
use prismatic_os.Base.{
  ℕ, zero, suc, ◌+◌, Bool, ◌&&◌, Option, none, some, ltb, ◌==◌, if◌then◌else◌, is_some,
}
use prismatic_os.Base.Int.{ℤ, pos, negsuc}
use prismatic_os.Kernel.Fs.Node.{Ptr, null}

pub record FileDescriptor : Type 0 where
  pub fd : ℕ
  pub file_object : Ptr
  pub flags : ℕ
  pub mode : ℕ
  pub offset : ℕ
  pub next : Ptr

abbrev pub FdTable : Type 0
FdTable = ℕ → Option FileDescriptor

abbrev pub fd_count : ℕ
fd_count = 256

unfoldable pub set_fd : FdTable → ℕ → Option FileDescriptor → FdTable
set_fd t i v a = if a == i then v else t a

abbrev pub new_descriptor : ℕ → FileDescriptor
new_descriptor i = record {
  fd = i;
  file_object = null;
  flags = 0;
  mode = 0;
  offset = 0;
  next = null;
}

-- The loop from `i` with `n` rounds left.
unfoldable pub fd_alloc_from : (n i : ℕ) → Bool → FdTable → FdTable × ℤ
fd_alloc_from zero i room t = (t, negsuc 0)
fd_alloc_from (suc n) i room t =
    let rest = fd_alloc_from n (i + 1) room t in
    if is_some (t i)
    then rest
    else if room
    then (set_fd t i (some (new_descriptor i)), pos i)
    else (t, negsuc 0)

pub fd_alloc : Bool → FdTable → FdTable × ℤ
fd_alloc room t = fd_alloc_from fd_count 0 room t

pub fd_free : ℤ → FdTable → FdTable
fd_free (negsuc n) t = t
fd_free (pos i) t = if ltb i fd_count && is_some (t i) then set_fd t i none else t

pub fd_get : FdTable → ℤ → Option FileDescriptor
fd_get t (negsuc n) = none
fd_get t (pos i) = if ltb i fd_count then t i else none

abbrev pub entry_index : ℤ → ℕ
entry_index (pos i) = i
entry_index (negsuc n) = 0

-- The rest of fd_set_entry, given what fd_get found.
abbrev pub set_found : FdTable → ℤ → Ptr → (flags mode : ℕ) → Option FileDescriptor → FdTable × ℤ
set_found t fd object flags mode none = (t, negsuc 0)
set_found t fd object flags mode (some entry) = (
  set_fd t (entry_index fd)
      (some (record entry { file_object = object; flags = flags; mode = mode; offset = 0 })),
  pos 0,
)

pub fd_set_entry : FdTable → ℤ → Ptr → (flags mode : ℕ) → FdTable × ℤ
fd_set_entry t fd object flags mode = set_found t fd object flags mode (fd_get t fd)
