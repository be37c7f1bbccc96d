-- ===== src/Kernel/Fs/Node.antt =====
-- The VFS nodes of kernel/fs.c in an explicit store. A name is the list of its bytes in front of the
-- NUL. What kmalloc returns is an argument. The clock and the inode number are 0, as in the source.
pub mod Children
use prismatic_os.Base.{
  ℕ, zero, suc, bit_and, Bool, true, false, ◌||◌, Option, none, ◌==◌, ◌!=◌, if◌then◌else◌, Bytes,
  take,
}
use prismatic_os.Base.Int.{ℤ, pos, negsuc}
use prismatic_os.Libc.Str.{strcmp}

abbrev pub Ptr : Type 0
Ptr = ℕ

abbrev pub null : Ptr
null = 0

-- The tables of file operations that the source defines.
pub data FileOps : Type 0 where
  memfs_file_ops : FileOps

pub record VfsNode : Type 0 where
  pub name : Bytes
  pub inode : ℕ
  pub mode : ℕ
  pub size : ℕ
  pub parent : Ptr
  pub children : Ptr
  pub next : Ptr
  pub ops : Option FileOps
  pub content : Option Bytes

-- `live` tells which nodes have not been freed; `content` is the buffer at `private_data`.
pub record Tree : Type 0 where
  pub nodes : Ptr → VfsNode
  pub live : Ptr → Bool
  pub vfs_root : Ptr

unfoldable pub put : (Ptr → VfsNode) → Ptr → VfsNode → Ptr → VfsNode
put m p v a = if a == p then v else m a

unfoldable pub mark : (Ptr → Bool) → Ptr → Bool → Ptr → Bool
mark m p v a = if a == p then v else m a

abbrev pub set_node : Tree → Ptr → VfsNode → Tree
set_node s p v = record s { nodes = put s.nodes p v }

abbrev pub s_ifdir : ℕ
s_ifdir = 0o040000

abbrev pub s_ifreg : ℕ
s_ifreg = 0o100000

unfoldable pub is_dir : ℕ → Bool
is_dir mode = bit_and mode s_ifdir != 0

-- A name of 255 bytes or more is cut off here; there the code has the overrun of strncpy.
pub vfs_create_node : (mem : Ptr) → Bytes → ℕ → Option FileOps → Tree → Tree × Ptr
vfs_create_node mem name mode ops s =
    let node : VfsNode = record {
      name = take 255 name;
      inode = 0;
      mode = mode;
      size = 0;
      parent = null;
      children = null;
      next = null;
      ops = ops;
      content = none;
    } in
    if mem == null
    then (s, null)
    else (record s { nodes = put s.nodes mem node; live = mark s.live mem true }, mem)

-- Frees the nodes of a chain of siblings and all below them. The fuel bounds the depth and the length.
unfoldable pub destroy_chain : ℕ → Tree → Ptr → Tree
destroy_chain zero s c = s
destroy_chain (suc n) s c =
    let below = destroy_chain n s (s.nodes c).children in
    let freed = record below { live = mark below.live c false } in
    let rest = destroy_chain n freed (s.nodes c).next in if c == null then s else rest

pub vfs_destroy_node : ℕ → Tree → Ptr → Tree
vfs_destroy_node fuel s p =
    let below = destroy_chain fuel s (s.nodes p).children in
    if p == null then s else record below { live = mark below.live p false }

pub vfs_add_child : Tree → (parent child : Ptr) → Tree × Ptr
vfs_add_child s parent child =
    let s1 = set_node s child (record (s.nodes child) { parent = parent }) in
    let s2 = set_node s1 child (record (s1.nodes child) { next = (s1.nodes parent).children }) in
    let s3 = set_node s2 parent (record (s2.nodes parent) { children = child }) in
    if (parent == null) || (child == null) then (s, null) else (s3, child)

abbrev pub is_zero : ℤ → Bool
is_zero (pos n) = n == 0
is_zero (negsuc n) = false

-- strcmp(a, b) == 0
abbrev pub same_name : Bytes → Bytes → Bool
same_name a b = is_zero (strcmp a b)

-- The walk over the siblings from `c`.
find_from : ℕ → Tree → Ptr → Bytes → Ptr
find_from zero s c name = null
find_from (suc n) s c name =
    let rest = find_from n s (s.nodes c).next name in
    if c == null then null else if same_name (s.nodes c).name name then c else rest

pub vfs_find_child : ℕ → Tree → Ptr → Bytes → Ptr
unfolding find_from
vfs_find_child fuel s parent name =
    if parent == null then null else find_from fuel s (s.nodes parent).children name

-- The walk of vfs_remove_child with `prev` behind `c`; the answer `true` is 0.
remove_from : ℕ → Tree → (parent prev c : Ptr) → Bytes → Tree × Bool
remove_from zero s parent prev c name = (s, false)
remove_from (suc n) s parent prev c name =
    let rest = remove_from n s parent c (s.nodes c).next name in
    let cut =
      if prev != null
      then set_node s prev (record (s.nodes prev) { next = (s.nodes c).next })
      else set_node s parent (record (s.nodes parent) { children = (s.nodes c).next }) in
    if c == null
    then (s, false)
    else if same_name (s.nodes c).name name
    then (vfs_destroy_node n cut c, true)
    else rest

pub vfs_remove_child : ℕ → Tree → Ptr → Bytes → Tree × Bool
unfolding remove_from
vfs_remove_child fuel s parent name =
    if parent == null
    then (s, false)
    else remove_from fuel s parent null (s.nodes parent).children name
