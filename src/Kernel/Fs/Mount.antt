-- ===== src/Kernel/Fs/Mount.antt =====
-- Registration and mounting in kernel/fs.c. The list `filesystems` is a list of its entries, which no
-- other pointer reaches. The functions of an fs_ops_t come with the file system that registers, so they
-- are data of an entry: `mount` gives the node at the root, 0 for NULL; a call of `unmount` is left
-- to the file system and changes nothing here.
use prismatic_os.Base.{
  Bool, true, false, Option, none, some, List, [], ◌∷◌, ◌==◌, if◌then◌else◌, Bytes, take,
}
use prismatic_os.Kernel.Fs.Node.{Ptr, null, same_name}

pub record FsOps : Type 0 where
  pub mount : (device mountpoint : Bytes) → Ptr

pub record Filesystem : Type 0 where
  pub name : Bytes
  pub mountpoint : Bytes
  pub root : Ptr
  pub fs_ops : FsOps

-- `room` is what stands in the memory that kmalloc returns, of which the mount point and the root are
-- not initialised. A name of 31 bytes or more is cut off. The answer `true` is 0.
pub fs_register_filesystem :
    (room : Option (Bytes × Ptr)) → Bytes → FsOps → List Filesystem → List Filesystem × Bool
fs_register_filesystem none name ops all = (all, false)
fs_register_filesystem (some (mountpoint, root)) name ops all =
    (record { name = take 31 name; mountpoint = mountpoint; root = root; fs_ops = ops } ∷ all, true)

pub fs_mount : (fs_name device mountpoint : Bytes) → List Filesystem → List Filesystem × Bool
fs_mount fs_name device mountpoint [] = ([], false)
fs_mount fs_name device mountpoint (fs ∷ all) =
    let (rest, found) = fs_mount fs_name device mountpoint all in
    let mount_node = fs.fs_ops.mount device mountpoint in
    if same_name fs.name fs_name
    then (if mount_node == null
        then (fs ∷ all, false)
        else (record fs { mountpoint = take 255 mountpoint; root = mount_node } ∷ all, true))
    else (fs ∷ rest, found)

pub fs_unmount : Bytes → List Filesystem → List Filesystem × Bool
fs_unmount mountpoint [] = ([], false)
fs_unmount mountpoint (fs ∷ all) =
    let (rest, found) = fs_unmount mountpoint all in
    if same_name fs.mountpoint mountpoint
    then (record fs { mountpoint = []; root = null } ∷ all, true)
    else (fs ∷ rest, found)
