-- ===== src/Html/Dom/Siblings.antt =====
-- What the two changes of the tree do to each pointer of each node.
use prismatic_os.Base.{◌≡◌, ◌≢◌, false, ◌&&◌, arith, ◌==◌, ◌!=◌, if◌then◌else◌, eq_false_of_ne}
use prismatic_os.Base.Linked.{null}
use prismatic_os.Html.Dom.{
  Ptr, Nodes, update, set_parent, set_first, set_last, set_prev, set_next, unlink_ends,
  unlink_sides, clear_links, dom_node_remove_child, link_child,
}

module _ (nodes : Nodes) (p c : Ptr) where
  abbrev pub ends : Nodes
  ends = unlink_ends nodes p c

  ends_lem :
      (a : Ptr)
      → ((ends a).next_sibling ≡ (nodes a).next_sibling)
        × ((ends a).prev_sibling ≡ (nodes a).prev_sibling)
        × ((ends a).parent ≡ (nodes a).parent)
        × ((ends a).first_child ≡ (
            if (a == p) && ((nodes p).first_child == c)
            then (nodes c).next_sibling
            else (nodes a).first_child))
        × ((ends a).last_child ≡ (
            if (a == p) && ((nodes p).last_child == c)
            then (nodes c).prev_sibling
            else (nodes a).last_child))
  unfolding unlink_ends set_first set_last update
  ends_lem a = (ground arith, ground arith, ground arith, ground arith, ground arith)

module _ (nodes : Nodes) (c : Ptr) (nec : c ≢ null) (apart_prev : (nodes c).prev_sibling ≢ c)
    (apart_next : (nodes c).next_sibling ≢ c) where
  abbrev pub sides : Nodes
  sides = unlink_sides nodes c

  sides_lem :
      (a : Ptr)
      → a ≢ null
      → ((sides a).next_sibling ≡ (
          if a == (nodes c).prev_sibling then (nodes c).next_sibling else (nodes a).next_sibling))
        × ((sides a).prev_sibling ≡ (
            if a == (nodes c).next_sibling then (nodes c).prev_sibling else (nodes a).prev_sibling))
        × ((sides a).parent ≡ (nodes a).parent)
        × ((sides a).first_child ≡ (nodes a).first_child)
        × ((sides a).last_child ≡ (nodes a).last_child)
  unfolding unlink_sides set_prev set_next update
  sides_lem a ne = (ground arith, ground arith, ground arith, ground arith, ground arith)

clear_links_lem :
    (nodes : Nodes) (c a : Ptr)
    → ((clear_links nodes c a).next_sibling ≡ (if a == c then null else (nodes a).next_sibling))
      × ((clear_links nodes c a).prev_sibling ≡ (if a == c then null else (nodes a).prev_sibling))
      × ((clear_links nodes c a).parent ≡ (if a == c then null else (nodes a).parent))
      × ((clear_links nodes c a).first_child ≡ (nodes a).first_child)
      × ((clear_links nodes c a).last_child ≡ (nodes a).last_child)
unfolding clear_links set_parent set_prev set_next update
clear_links_lem nodes c a = (ground arith, ground arith, ground arith, ground arith, ground arith)

-- Removing a child that has this parent, where no node is its own sibling.
module _ (nodes : Nodes) (p c : Ptr) (nep : p ≢ null) (nec : c ≢ null) (own : (nodes c).parent ≡ p)
    (apart_prev : (nodes c).prev_sibling ≢ c) (apart_next : (nodes c).next_sibling ≢ c) where
  abbrev pub removed : Nodes
  removed = dom_node_remove_child nodes p c

  pub removed_lem :
      (a : Ptr)
      → a ≢ null
      → ((removed a).next_sibling ≡ (
          if a == c
          then null
          else if a == (nodes c).prev_sibling
          then (nodes c).next_sibling
          else (nodes a).next_sibling))
        × ((removed a).prev_sibling ≡ (
            if a == c
            then null
            else if a == (nodes c).next_sibling
            then (nodes c).prev_sibling
            else (nodes a).prev_sibling))
        × ((removed a).parent ≡ (if a == c then null else (nodes a).parent))
        × ((removed a).first_child ≡ (
            if (a == p) && ((nodes p).first_child == c)
            then (nodes c).next_sibling
            else (nodes a).first_child))
        × ((removed a).last_child ≡ (
            if (a == p) && ((nodes p).last_child == c)
            then (nodes c).prev_sibling
            else (nodes a).last_child))
  unfolding dom_node_remove_child
  removed_lem a ne =
      let e = ends_lem nodes p c in
      let ec = e c in
      let ea = e a in
      let s = unlink_ends nodes p c in
      let apart1 : (s c).prev_sibling ≢ c = ground arith in
      let apart2 : (s c).next_sibling ≢ c = ground arith in
      let sa = sides_lem s c nec apart1 apart2 a ne in
      let ca = clear_links_lem (unlink_sides s c) c a in
      rw (eq_false_of_ne p null nep, eq_false_of_ne c null nec, own_test)
        (ground arith, ground arith, ground arith, ground arith, ground arith)
    where
      own_test : ((nodes c).parent != p) ≡ false
      own_test = ground arith

module _ (nodes : Nodes) (p c : Ptr) where
  abbrev pub linked : Nodes
  linked = link_child nodes p c

  pub linked-next :
      (a : Ptr)
      → (linked a).next_sibling ≡ (
          if (a == (nodes p).last_child) && ((nodes p).first_child != null)
          then c
          else (nodes a).next_sibling)
  unfolding link_child set_parent set_first set_last set_prev set_next update
  linked-next a = ground arith

  pub linked-prev :
      (a : Ptr)
      → (linked a).prev_sibling ≡ (
          if (a == c) && ((nodes p).first_child != null)
          then (nodes p).last_child
          else (nodes a).prev_sibling)
  unfolding link_child set_parent set_first set_last set_prev set_next update
  linked-prev a = ground arith

  pub linked-parent : (a : Ptr) → (linked a).parent ≡ (if a == c then p else (nodes a).parent)
  unfolding link_child set_parent set_first set_last set_prev set_next update
  linked-parent a = ground arith

  pub linked-first :
      (a : Ptr)
      → (linked a).first_child
        ≡ (if (a == p) && ((nodes p).first_child == null) then c else (nodes a).first_child)
  unfolding link_child set_parent set_first set_last set_prev set_next update
  linked-first a = ground arith

  pub linked-last : (a : Ptr) → (linked a).last_child ≡ (if a == p then c else (nodes a).last_child)
  unfolding link_child set_parent set_first set_last set_prev set_next update
  linked-last a = ground arith

  pub linked-type : (a : Ptr) → (linked a).type ≡ (nodes a).type
  unfolding link_child set_parent set_first set_last set_prev set_next update
  linked-type a = ground arith

  pub linked-tag_name : (a : Ptr) → (linked a).tag_name ≡ (nodes a).tag_name
  unfolding link_child set_parent set_first set_last set_prev set_next update
  linked-tag_name a = ground arith
