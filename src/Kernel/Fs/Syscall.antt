-- ===== src/Kernel/Fs/Syscall.antt =====
-- The file system calls of kernel/fs.c on a state of nodes, descriptors and file objects. The
-- pointers that kmalloc returns are arguments, and NULL pointers of the caller are `none`. `flags` and
-- `mode` are not negative; `off_t` and `size_t` have 64 bits. A file object whose `ops` are not NULL
-- has the functions of memfs_file_ops.
use prismatic_os.Base.{
  ℕ, zero, suc, ◌+◌, ◌-◌, ◌%◌, ◌^◌, bit_and, bit_or, Bool, true, false, not, ◌&&◌, ◌||◌, Option,
  none, some, [], ◌∷◌, ltb, ◌==◌, ◌!=◌, if◌then◌else◌, is_some, Bytes,
}
use prismatic_os.Base.Int.{ℤ, pos, negsuc, to_signed, low_bits, positive}
use prismatic_os.Kernel.Fs.Node.{
  Ptr, null, FileOps, memfs_file_ops, Tree, VfsNode, set_node, is_dir, s_ifreg,
}
use prismatic_os.Kernel.Fs.File.{memfs_read, memfs_write}
use prismatic_os.Kernel.Fs.Path.{fs_lookup, fs_create}
use prismatic_os.Kernel.Fs.Descriptor.{
  FileDescriptor, FdTable, set_fd, entry_index, fd_alloc, fd_free, fd_get, fd_set_entry,
}

pub record FileObject : Type 0 where
  pub inode : ℕ
  pub mode : ℕ
  pub size : ℕ
  pub offset : ℕ
  pub ops : Option FileOps
  pub private_data : Ptr

pub record FileSys : Type 0 where
  pub tree : Tree
  pub table : FdTable
  pub objects : Ptr → FileObject
  pub open_objects : Ptr → Bool

unfoldable pub put_object : (Ptr → FileObject) → Ptr → FileObject → Ptr → FileObject
put_object m p v a = if a == p then v else m a

unfoldable pub mark_object : (Ptr → Bool) → Ptr → Bool → Ptr → Bool
mark_object m p v a = if a == p then v else m a

abbrev pub o_creat : ℕ
o_creat = 0o100

abbrev pub o_trunc : ℕ
o_trunc = 0o1000

-- The node that is opened, which is created if it is absent and O_CREAT is given.
pub open_node : ℕ → (node_mem : Ptr) → Tree → Bytes → (flags mode : ℕ) → Tree × Ptr
open_node fuel node_mem t path flags mode =
    let node = fs_lookup fuel t (some path) in
    if (node == null) && (bit_and flags o_creat != 0)
    then fs_create fuel node_mem t (some path) (bit_or s_ifreg (bit_and mode 0o777))
    else (t, node)

pub truncated : VfsNode → VfsNode
truncated node = elim node.content [
  | none ↦ node
  | some bytes ↦ record node { content = none; size = 0 }
]

-- What is done with a descriptor that fd_alloc returned: `object` is what kmalloc returns.
pub open_object : (object : Ptr) → FileSys → (node : Ptr) → ℤ → (flags mode : ℕ) → FileSys × ℤ
open_object object s node fd flags mode =
    let v = s.tree.nodes node in
    let new : FileObject = record {
      inode = v.inode;
      mode = v.mode;
      size = v.size;
      offset = 0;
      ops = v.ops;
      private_data = node;
    } in
    let filled = record s {
      objects = put_object s.objects object new;
      open_objects = mark_object s.open_objects object true;
    } in
    let (table, answer) = fd_set_entry s.table fd object flags mode in
    if object == null then (record s { table = fd_free fd s.table }, negsuc 0) else elim answer [
      | pos n ↦ (record filled { table = table }, fd)
      | negsuc n ↦ (
        record filled {
          table = fd_free fd s.table;
          open_objects = mark_object filled.open_objects object false;
        },
        negsuc 0,
      )
    ]

-- `room` tells whether kmalloc finds memory for the descriptor.
pub syscall_open :
    ℕ
    → (node_mem object : Ptr) → (room : Bool) → FileSys
    → Option Bytes
    → (flags mode : ℕ) → FileSys × ℤ
syscall_open fuel node_mem object room s none flags mode = (s, negsuc 0)
syscall_open fuel node_mem object room s (some path) flags mode =
    let (t, node) = open_node fuel node_mem s.tree path flags mode in
    let emptied =
      if bit_and flags o_trunc != 0 then set_node t node (truncated (t.nodes node)) else t in
    let (table, fd) = fd_alloc room s.table in
    if node == null
    then (record s { tree = t }, negsuc 0)
    else if is_dir (t.nodes node).mode
    then (record s { tree = t }, negsuc 0)
    else elim fd [
      | negsuc n ↦ (record s { tree = emptied; table = table }, negsuc 0)
      | pos n ↦
          open_object object (record s { tree = emptied; table = table }) node (pos n) flags mode
    ]

-- memfs_close does nothing.
pub syscall_close : FileSys → ℤ → FileSys × ℤ
syscall_close s fd = elim (fd_get s.table fd) [
  | none ↦ (s, negsuc 0)
  | some entry ↦
      let closed =
        if entry.file_object != null
        then mark_object s.open_objects entry.file_object false
        else s.open_objects in
      (record s { table = fd_free fd s.table; open_objects = closed }, pos 0)
]

-- The descriptor and its file object, where both are there.
pub opened : FileSys → ℤ → Option (FileDescriptor × FileObject)
opened s fd = elim (fd_get s.table fd) [
  | none ↦ none
  | some entry ↦
      if entry.file_object == null then none else some (entry, s.objects entry.file_object)
]

-- The file object and the descriptor after a move, where `object` has the new offset.
pub moved : FileSys → ℤ → FileDescriptor → FileObject → FileSys
moved s fd entry object = record s {
  objects = put_object s.objects entry.file_object object;
  table = set_fd s.table (entry_index fd) (some (record entry { offset = object.offset }));
}

-- The answer and the bytes that are read.
pub syscall_read : FileSys → ℤ → (count : ℕ) → FileSys × ℤ × Bytes
syscall_read s fd count = elim (opened s fd) [
  | none ↦ (s, negsuc 0, [])
  | some (entry, object) ↦ elim object.ops [
    | none ↦ (s, negsuc 0, [])
    | some memfs_file_ops ↦
        let (result, bytes) =
          if object.private_data == null
          then (negsuc 0, [])
          else memfs_read (s.tree.nodes object.private_data) count object.offset in
        let n = positive result in
        if n == 0 then (s, result, bytes) else (
          moved s fd entry (record object { offset = (object.offset + n) % 2 ^ 64 }),
          result,
          bytes,
        )
  ]
]

-- memfs_write on the node of a file object.
pub write_node : Option (ℕ → ℕ) → Tree → FileObject → Bytes → Tree × ℤ
write_node room t object buf =
    let (node, result) = memfs_write room (t.nodes object.private_data) buf object.offset in
    if object.private_data == null
    then (t, negsuc 0)
    else (set_node t object.private_data node, result)

pub syscall_write : Option (ℕ → ℕ) → FileSys → ℤ → Bytes → FileSys × ℤ
syscall_write room s fd buf = elim (opened s fd) [
  | none ↦ (s, negsuc 0)
  | some (entry, object) ↦ elim object.ops [
    | none ↦ (s, negsuc 0)
    | some memfs_file_ops ↦
        let (t, result) = write_node room s.tree object buf in
        let n = positive result in
        let offset = (object.offset + n) % 2 ^ 64 in
        let s' = record s { tree = t } in
        if n == 0
        then (s', result)
        else (moved s' fd entry (record object { offset = offset; size = offset }), result)
  ]
]

pub data Whence : Type 0 where
  seek_set seek_cur seek_end : Whence

abbrev pub seek_from : FileObject → Whence → ℕ
seek_from object seek_set = 0
seek_from object seek_cur = object.offset
seek_from object seek_end = object.size

-- The loop of syscall_lseek that writes zeros, with `n` rounds left; `true` when all were written.
pub zero_fill : (rooms : ℕ → Option (ℕ → ℕ)) → ℕ → Tree → FileObject → Tree × FileObject × Bool
zero_fill rooms zero t object = (t, object, true)
zero_fill rooms (suc n) t object =
    let (t', result) = write_node (rooms object.offset) t object (0 ∷ []) in
    let rest = zero_fill rooms n t' (record object { offset = (object.offset + 1) % 2 ^ 64 }) in
    if positive result == 1 then rest else (t', object, false)

-- `rooms` gives what kmalloc returns for the growth at each offset; any other whence is `none`.
pub syscall_lseek : (ℕ → Option (ℕ → ℕ)) → FileSys → ℤ → (offset : ℤ) → Option Whence → FileSys × ℤ
syscall_lseek rooms s fd offset none = (s, negsuc 0)
syscall_lseek rooms s fd offset (some whence) = elim (opened s fd) [
  | none ↦ (s, negsuc 0)
  | some (entry, object) ↦
      let new_offset = (seek_from object whence + low_bits 64 offset) % 2 ^ 64 in
      let (t, extended, done) =
        if ltb object.size new_offset && is_some object.ops
        then zero_fill rooms (new_offset - object.offset) s.tree object
        else (s.tree, object, true) in
      let s' = record s { tree = t } in
      if done
      then (moved s' fd entry (record extended { offset = new_offset }), to_signed 64 new_offset)
      else (record s' { objects = put_object s.objects entry.file_object extended }, negsuc 0)
]

-- The mode and the size that are written into the buffer; the times are 0 as in every node.
pub syscall_stat : ℕ → FileSys → Option Bytes → (has_buffer : Bool) → Option (ℕ × ℕ)
syscall_stat fuel s none has_buffer = none
syscall_stat fuel s (some path) has_buffer =
    let node = fs_lookup fuel s.tree (some path) in
    if not has_buffer || (node == null)
    then none
    else some ((s.tree.nodes node).mode, (s.tree.nodes node).size)
