-- ===== src/Kernel/Fs/Path.antt =====
-- Paths in kernel/fs.c: fs_lookup, fs_create, fs_mkdir, fs_unlink and fs_rmdir. A path of 511 bytes
-- or more is cut off here; there the code has the overrun of strncpy. A NULL path is `none`, and the
-- fuel bounds the children of a directory.
use prismatic_os.Base.{
  ℕ, ◌-◌, bit_and, bit_or, Bool, not, ◌&&◌, ◌||◌, Option, none, some, List, [], ◌∷◌, ◌==◌, ◌!=◌,
  if◌then◌else◌, Bytes, length, take, drop,
}
use prismatic_os.Libc.Str.{head_byte, strrchr}
use prismatic_os.Libc.Strtok.{tokens}
use prismatic_os.Kernel.Fs.Node.{
  Ptr, null, memfs_file_ops, Tree, s_ifdir, is_dir, same_name, vfs_create_node, vfs_destroy_node,
  vfs_add_child, vfs_find_child,
}

-- The walk of fs_lookup along the tokens that are left.
pub walk : ℕ → Tree → Ptr → List Bytes → Ptr
walk fuel s current [] = current
walk fuel s current (token ∷ rest) =
    let same = walk fuel s current rest in
    let below = walk fuel s (vfs_find_child fuel s current token) rest in
    if current == null then null else if same_name token [] then same else below

abbrev pub path_copy : Bytes → Bytes
path_copy path = take 511 path

abbrev pub is_absolute : Bytes → Bool
is_absolute path = head_byte path == b'/'

pub fs_lookup : ℕ → Tree → Option Bytes → Ptr
fs_lookup fuel s none = null
fs_lookup fuel s (some path) =
    if is_absolute path
    then walk fuel s s.vfs_root (tokens 512 (b'/' ∷ []) (some (path_copy path)) none)
    else null

-- The directory and the file name, where the last slash is not the first byte.
pub split_path : Bytes → Option (Bytes × Bytes)
split_path path = elim (strrchr path b'/') [
  | none ↦ none
  | some slash ↦
      if length slash == length path
      then none
      else some (take (length path - length slash) path, drop 1 slash)
]

-- `mem` is what kmalloc returns for the node.
pub fs_create : ℕ → (mem : Ptr) → Tree → Option Bytes → (mode : ℕ) → Tree × Ptr
fs_create fuel mem s none mode = (s, null)
fs_create fuel mem s (some path) mode =
    let parts = if is_absolute path then split_path (path_copy path) else none in
    elim parts [
      | none ↦ (s, null)
      | some (dir_part, filename) ↦
          let parent = fs_lookup fuel s (some dir_part) in
          let (made, node) = vfs_create_node mem filename mode (some memfs_file_ops) s in
          let (added, child) = vfs_add_child made parent node in
          if (parent == null) || not (is_dir (s.nodes parent).mode)
          then (s, null)
          else if node == null
          then (made, null)
          else if child == null
          then (vfs_destroy_node fuel made node, null)
          else (added, node)
    ]

-- The answer `true` is 0, and `false` is -1.
pub fs_mkdir : ℕ → (mem : Ptr) → Tree → Option Bytes → (mode : ℕ) → Tree × Bool
fs_mkdir fuel mem s path mode =
    let (made, node) = fs_create fuel mem s path (bit_or s_ifdir (bit_and mode 0o777)) in
    (made, node != null)

-- Both leave the tree as it is.
pub fs_unlink : ℕ → Tree → Option Bytes → Bool
fs_unlink fuel s path =
    let node = fs_lookup fuel s path in not ((node == null) || is_dir (s.nodes node).mode)

pub fs_rmdir : ℕ → Tree → Option Bytes → Bool
fs_rmdir fuel s path =
    let node = fs_lookup fuel s path in
    not ((node == null) || not (is_dir (s.nodes node).mode)) && ((s.nodes node).children == null)
