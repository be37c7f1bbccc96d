-- ===== src/Html/Dom.antt =====
-- The document tree of html/src/dom/dom.c. The memory is a function from addresses to nodes, with
-- NULL the address 0. A node's strings are lists of bytes, with `none` for NULL, and its arrays of
-- strings are lists. malloc is outside: a function that makes a node takes its address, 0 where
-- malloc fails.
pub mod Siblings
pub mod Family
pub mod Remove
pub mod Append
pub mod Contents
pub mod Shape
pub mod Events
pub mod Search
use prismatic_os.Base.{
  ℕ, zero, suc, ◌+◌, ◌%◌, ◌^◌, Bool, true, false, not, ◌&&◌, ◌||◌, Option, none, some, List, [],
  ◌∷◌, ◌++◌, ◌==◌, ◌!=◌, if◌then◌else◌, Bytes,
}
use prismatic_os.Base.Int.{ℤ, pos, negsuc}
use prismatic_os.Base.Linked.{null}
use prismatic_os.Libc.Str.{strcmp}
use prismatic_os.Html.Token.{Attr}

abbrev pub Ptr : Type 0
Ptr = ℕ

pub data NodeType : Type 0 where
  element_node text_node comment_node document_node document_fragment : NodeType

pub data EventType : Type 0 where
  click mousedown mouseup mousemove keydown keyup focus blur load resize change submit : EventType

-- `handler` and `user_data` are addresses.
pub record Listener : Type 0 where
  pub type : EventType
  pub handler : Ptr
  pub user_data : Ptr
  pub capture : Bool
  pub passive : Bool
  pub once : Bool

-- dom_node_t, with the field `data` of dom_text_t; `attrs` are attr_names and attr_values.
pub record Node : Type 0 where
  pub type : NodeType
  pub tag_name : Option Bytes
  pub id : Option Bytes
  pub class_names : List Bytes
  pub attrs : List Attr
  pub text_content : Option Bytes
  pub parent : Ptr
  pub first_child : Ptr
  pub last_child : Ptr
  pub prev_sibling : Ptr
  pub next_sibling : Ptr
  pub event_listeners : List Listener
  pub ref_count : ℕ
  pub content : Option Bytes

abbrev pub Nodes : Type 0
Nodes = Ptr → Node

unfoldable pub update : Nodes → Ptr → Node → Nodes
update nodes p node a = if a == p then node else nodes a

-- memset, then `type` and `ref_count`.
abbrev pub blank_node : NodeType → Node
blank_node type = record {
  type = type;
  tag_name = none;
  id = none;
  class_names = [];
  attrs = [];
  text_content = none;
  parent = null;
  first_child = null;
  last_child = null;
  prev_sibling = null;
  next_sibling = null;
  event_listeners = [];
  ref_count = 1;
  content = none;
}

-- The result is `p`, NULL where malloc fails.
pub dom_node_create : Nodes → Ptr → NodeType → Nodes
unfolding update
dom_node_create nodes p type = if p == null then nodes else update nodes p (blank_node type)

pub dom_element_create : Nodes → Ptr → Option Bytes → Nodes
unfolding update
dom_element_create nodes p tag_name =
    if p == null
    then nodes
    else update nodes p (record (blank_node element_node) { tag_name = tag_name })

pub dom_text_create : Nodes → Ptr → Option Bytes → Nodes
unfolding update
dom_text_create nodes p content =
    if p == null
    then nodes
    else update nodes p
        (record (blank_node text_node) { content = content; text_content = content })

pub dom_node_ref : Nodes → Ptr → Nodes
unfolding update
dom_node_ref nodes p =
    if p == null
    then nodes
    else update nodes p (record (nodes p) { ref_count = ((nodes p).ref_count + 1) % 2 ^ 32 })

unfoldable pub set_parent : Nodes → Ptr → Ptr → Nodes
unfolding update
set_parent nodes p q = update nodes p (record (nodes p) { parent = q })

unfoldable pub set_first : Nodes → Ptr → Ptr → Nodes
unfolding update
set_first nodes p q = update nodes p (record (nodes p) { first_child = q })

unfoldable pub set_last : Nodes → Ptr → Ptr → Nodes
unfolding update
set_last nodes p q = update nodes p (record (nodes p) { last_child = q })

unfoldable pub set_prev : Nodes → Ptr → Ptr → Nodes
unfolding update
set_prev nodes p q = update nodes p (record (nodes p) { prev_sibling = q })

unfoldable pub set_next : Nodes → Ptr → Ptr → Nodes
unfolding update
set_next nodes p q = update nodes p (record (nodes p) { next_sibling = q })

-- The parent's pointers to its first and to its last child skip the node.
unfoldable pub unlink_ends : Nodes → Ptr → Ptr → Nodes
unlink_ends nodes p c =
    let s =
      if (nodes p).first_child == c then set_first nodes p (nodes c).next_sibling else nodes in
    if (s p).last_child == c then set_last s p (s c).prev_sibling else s

-- The siblings' pointers skip the node.
unfoldable pub unlink_sides : Nodes → Ptr → Nodes
unlink_sides nodes c =
    let before = (nodes c).prev_sibling in
    let s = if before != null then set_next nodes before (nodes c).next_sibling else nodes in
    let after = (s c).next_sibling in
    if after != null then set_prev s after (s c).prev_sibling else s

unfoldable pub clear_links : Nodes → Ptr → Nodes
clear_links nodes c = set_next (set_prev (set_parent nodes c null) c null) c null

pub dom_node_remove_child : Nodes → Ptr → Ptr → Nodes
dom_node_remove_child nodes p c =
    if (p == null) || (c == null) || ((nodes c).parent != p)
    then nodes
    else clear_links (unlink_sides (unlink_ends nodes p c) c) c

-- The node becomes the last child.
unfoldable pub link_child : Nodes → Ptr → Ptr → Nodes
link_child nodes p c =
    let s = set_parent nodes c p in
    let t = set_next s (s p).last_child c in
    if (s p).first_child == null
    then set_last (set_first s p c) p c
    else set_last (set_prev t c (t p).last_child) p c

pub dom_node_append_child : Nodes → Ptr → Ptr → Nodes
unfolding link_child
dom_node_append_child nodes p c =
    let old = (nodes c).parent in
    let s = if old != null then dom_node_remove_child nodes old c else nodes in
    if (p == null) || (c == null) then nodes else link_child s p c

-- strcmp(s, t) == 0
abbrev pub is_zero : ℤ → Bool
is_zero (pos zero) = true
is_zero (pos (suc n)) = false
is_zero (negsuc n) = false

unfoldable pub same_string : Bytes → Bytes → Bool
same_string s t = is_zero (strcmp s t)

-- The loop over the attributes and what follows it.
unfoldable pub set_attr : List Attr → Bytes → Option Bytes → List Attr
set_attr [] name value = record { name = name; value = value } ∷ []
set_attr (a ∷ attrs) name value =
    let rest = set_attr attrs name value in
    if same_string a.name name then record a { value = value } ∷ attrs else a ∷ rest

pub dom_node_set_attribute : Nodes → Ptr → Option Bytes → Option Bytes → Nodes
dom_node_set_attribute nodes p none value = nodes
dom_node_set_attribute nodes p (some name) value =
    if p == null
    then nodes
    else update nodes p (record (nodes p) { attrs = set_attr (nodes p).attrs name value })

unfoldable pub find_attr : List Attr → Bytes → Option Bytes
find_attr [] name = none
find_attr (a ∷ attrs) name =
    let rest = find_attr attrs name in if same_string a.name name then a.value else rest

pub dom_node_get_attribute : Nodes → Ptr → Option Bytes → Option Bytes
dom_node_get_attribute nodes p none = none
dom_node_get_attribute nodes p (some name) =
    if p == null then none else find_attr (nodes p).attrs name

unfoldable pub has_class : List Bytes → Bytes → Bool
has_class [] name = false
has_class (c ∷ classes) name = same_string c name || has_class classes name

pub dom_node_has_class : Nodes → Ptr → Option Bytes → Bool
dom_node_has_class nodes p none = false
dom_node_has_class nodes p (some name) = not (p == null) && has_class (nodes p).class_names name

pub dom_node_add_class : Nodes → Ptr → Option Bytes → Nodes
dom_node_add_class nodes p none = nodes
dom_node_add_class nodes p (some name) =
    let classes = (nodes p).class_names in
    if (p == null) || has_class classes name
    then nodes
    else update nodes p (record (nodes p) { class_names = classes ++ (name ∷ []) })

abbrev pub is_element_type : NodeType → Bool
is_element_type element_node = true
is_element_type _ = false

abbrev pub is_text_type : NodeType → Bool
is_text_type text_node = true
is_text_type _ = false

abbrev pub is_document_type : NodeType → Bool
is_document_type document_node = true
is_document_type _ = false

unfoldable pub dom_node_is_element : Nodes → Ptr → Bool
dom_node_is_element nodes p = (p != null) && is_element_type (nodes p).type

pub dom_node_is_text : Nodes → Ptr → Bool
dom_node_is_text nodes p = (p != null) && is_text_type (nodes p).type

pub dom_node_is_document : Nodes → Ptr → Bool
dom_node_is_document nodes p = (p != null) && is_document_type (nodes p).type

pub dom_node_set_text_content : Nodes → Ptr → Option Bytes → Nodes
dom_node_set_text_content nodes p text =
    let node = record (nodes p) { text_content = text } in
    let full = if is_text_type (nodes p).type then record node { content = text } else node in
    if p == null then nodes else update nodes p full

pub dom_node_get_text_content : Nodes → Ptr → Option Bytes
dom_node_get_text_content nodes p =
    if p == null
    then none
    else if is_text_type (nodes p).type
    then (nodes p).content
    else (nodes p).text_content
