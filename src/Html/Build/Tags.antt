-- ===== src/Html/Build/Tags.antt =====
-- A start tag and the end tag that matches it.
use prismatic_os.Base.{
  ℕ, suc, ◌≡◌, refl, ap, ◌∙◌, ◌≢◌, Bool, true, false, some, arith, ◌!=◌, eq_refl, eq_false_of_ne,
  Bytes,
}
use prismatic_os.Base.Linked.{null}
use prismatic_os.Html.Token.{Token}
use prismatic_os.Html.Dom.{
  Ptr, Nodes, update, element_node, link_child, dom_node_append_child, dom_node_is_element,
}
use prismatic_os.Html.Dom.Siblings.{linked-parent, linked-type, linked-tag_name}
use prismatic_os.Html.Dom.Append.{append_root}
use prismatic_os.Html.Dom.Shape.{element_of, dom_node_is_element_lem}
use prismatic_os.Html.Build.{
  Parser, html_is_void_element, html_handle_start_tag, find_open, move_to, html_handle_end_tag,
}
use prismatic_os.Html.Build.Place.{IsFresh, IsBuilding}
use prismatic_os.Html.Build.Family.{
  made, created, specials, shape, made_parent, enter_special_lem, leave_special_lem,
}

up_lem : {p : Ptr} → p ≢ null → (p != null) ≡ true
up_lem h = ground arith

module _ (same_name : Bytes → Bytes → Bool) (malloc : ℕ → Ptr) (fresh : IsFresh malloc) (k : ℕ)
    (s : Parser) (token : Token) (b : IsBuilding malloc s.document k s.nodes s.current_node)
    (ne : malloc k ≢ null) where
  abbrev placed : Nodes
  placed =
      dom_node_append_child (made same_name malloc fresh k s token b ne) s.current_node (malloc k)

  root : (made same_name malloc fresh k s token b ne (malloc k)).parent ≡ null
  root = ground (arith, made_parent same_name malloc fresh k s token b ne (malloc k))

  link : placed ≡ link_child (made same_name malloc fresh k s token b ne) s.current_node (malloc k)
  link =
      append_root (made same_name malloc fresh k s token b ne) s.current_node (malloc k) b.at_node
        ne root

  -- The new element in the tree.
  new_parent : (placed (malloc k)).parent ≡ s.current_node
  new_parent = rw link (
      ground (
        arith,
        linked-parent (made same_name malloc fresh k s token b ne) s.current_node (malloc k)
            (malloc k),
      ))

  created_lem :
      (created same_name malloc fresh k s token b ne (malloc k)) ≡ element_of (some token.tag_name)
  created_lem = unfold update in rw (eq_refl (malloc k)) refl

  new_type : (placed (malloc k)).type ≡ element_node
  new_type = rw link (
      linked-type (made same_name malloc fresh k s token b ne) s.current_node (malloc k) (malloc k)
      ∙ (shape same_name malloc fresh k s token b ne).type (malloc k)
      ∙ ap (λ y. y.type) created_lem)

  new_name : (placed (malloc k)).tag_name ≡ some token.tag_name
  new_name = rw link (
      linked-tag_name (made same_name malloc fresh k s token b ne) s.current_node (malloc k)
        (malloc k)
      ∙ (shape same_name malloc fresh k s token b ne).tag_name (malloc k)
      ∙ ap (λ y. y.tag_name) created_lem)

  -- The walk stops at the element at once.
  find_open-new :
      (n : ℕ) (t : Parser) (name : Bytes)
      → t.nodes ≡ placed
      → t.current_node ≡ malloc k
      → malloc k ≢ t.document
      → same_name token.tag_name name ≡ true
      → find_open same_name (suc n) t t.current_node name ≡ some s.current_node
  unfolding find_open
  find_open-new n t name nodes current nd same =
      let e : dom_node_is_element placed (malloc k) ≡ true =
        dom_node_is_element_lem placed (malloc k) ne new_type in
      let up : (s.current_node != null) ≡ true = up_lem b.at_node in
      rw
        (
          nodes,
          current,
          eq_false_of_ne (malloc k) null ne,
          eq_false_of_ne (malloc k) t.document nd,
          e,
          new_name,
          same,
          new_parent,
          up,
        )
        refl

  -- What the start tag leaves.
  abbrev opened : Parser
  opened = record (specials same_name malloc fresh k s token b ne) { current_node = malloc k }

  start_lem :
      token.self_closing ≡ false
      → html_is_void_element same_name token.tag_name ≡ false
      → html_handle_start_tag same_name s (malloc k) token ≡ opened
  unfolding html_handle_start_tag
  start_lem not_closed not_void = rw (eq_false_of_ne (malloc k) null ne, not_closed, not_void) refl

  -- A start tag that opens an element, and at once the end tag of its name: the parser stands where
  -- it stood, and the tree has the element as a child of the current node. The element is neither
  -- self-closing nor void, malloc gives an address for it, other than that of the document.
  pub html_handle_end_tag-html_handle_start_tag :
      (n : ℕ) (last : Token)
      → malloc k ≢ s.document
      → token.self_closing ≡ false
      → html_is_void_element same_name token.tag_name ≡ false
      → same_name token.tag_name last.tag_name ≡ true
      → let t =
          html_handle_end_tag same_name
            (suc n)
            (html_handle_start_tag same_name s (malloc k) token)
            last in
        (t.current_node ≡ s.current_node)
        × ((t.nodes (malloc k)).parent ≡ s.current_node)
        × ((t.nodes (malloc k)).tag_name ≡ some token.tag_name)
  unfolding html_handle_end_tag
  html_handle_end_tag-html_handle_start_tag n last nd not_closed not_void same =
      let kept =
        enter_special_lem same_name malloc fresh (record s { nodes = placed }) (malloc k)
          token.tag_name in
      let t = opened in
      let away : malloc k ≢ t.document = λ e. nd (e ∙ kept.document) in
      let walk = find_open-new n t last.tag_name kept.nodes refl away same in
      let left =
        leave_special_lem same_name malloc fresh (move_to t (some s.current_node)) last.tag_name in
      rw (start_lem not_closed not_void, walk, left.nodes, left.current_node, kept.nodes)
        (refl, new_parent, new_name)
