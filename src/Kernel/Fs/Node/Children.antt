-- ===== src/Kernel/Fs/Node/Children.antt =====
-- The children of a directory: what vfs_add_child puts in is what vfs_find_child finds.
use prismatic_os.Base.{ℕ, suc, ◌≡◌, refl, ◌≢◌, true, arith, eq_false_of_ne, Bytes}
use prismatic_os.Libc.Str.Order.{strcmp_self}
use prismatic_os.Kernel.Fs.Node.{
  Ptr, null, Tree, put, vfs_add_child, find_from, vfs_find_child, same_name,
}

module _ (s : Tree) (parent child : Ptr) (some_parent : parent ≢ null) (some_child : child ≢ null)
    (apart : parent ≢ child) where
  added_parent : ((vfs_add_child s parent child).0.nodes parent).children ≡ child
  unfolding vfs_add_child put
  added_parent =
      rw (eq_false_of_ne parent null some_parent, eq_false_of_ne child null some_child)
        (ground (arith))

  added_name : ((vfs_add_child s parent child).0.nodes child).name ≡ (s.nodes child).name
  unfolding vfs_add_child put
  added_name =
      rw (eq_false_of_ne parent null some_parent, eq_false_of_ne child null some_child)
        (ground (arith))

  added_next : ((vfs_add_child s parent child).0.nodes child).next ≡ (s.nodes parent).children
  unfolding vfs_add_child put
  added_next =
      rw (eq_false_of_ne parent null some_parent, eq_false_of_ne child null some_child)
        (ground (arith))

find_first :
    (n : ℕ) (s : Tree) (c : Ptr) (name : Bytes)
    → c ≢ null
    → same_name (s.nodes c).name name ≡ true
    → find_from (suc n) s c name ≡ c
unfolding find_from
find_first n s c name h e = rw (eq_false_of_ne c null h, e) refl

-- A child that is added to a directory, both nodes present and distinct, is what a search of the
-- directory for the child's name gives, and it stands before the children that were there.
pub vfs_find_child-add_child :
    (fuel : ℕ) (s : Tree) (parent child : Ptr)
    → parent ≢ null
    → child ≢ null
    → parent ≢ child
    → let t = (vfs_add_child s parent child).0 in
      (vfs_find_child (suc fuel) t parent (s.nodes child).name ≡ child)
      × ((t.nodes child).next ≡ (s.nodes parent).children)
unfolding vfs_find_child
vfs_find_child-add_child fuel s parent child hp hc apart =
    let t = (vfs_add_child s parent child).0 in
    let same : same_name (t.nodes child).name (s.nodes child).name ≡ true =
      rw (added_name s parent child hp hc apart, strcmp_self (s.nodes child).name) refl in
    (
      rw (eq_false_of_ne parent null hp, added_parent s parent child hp hc apart)
          (find_first fuel t child (s.nodes child).name hc same),
      added_next s parent child hp hc apart,
    )
