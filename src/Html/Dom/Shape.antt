-- ===== src/Html/Dom/Shape.antt =====
-- Changes that move no pointer of the tree: they leave the lists of children as they are.
use prismatic_os.Base.{
  ◌≡◌, refl, sym, ◌∙◌, ◌≢◌, inl, inr, Bool, true, false, ◌||◌, Option, some, List, [], arith, ◌==◌,
  ◌!=◌, if◌then◌else◌, eq_refl, eq_false_of_ne, Bool-cases, Bytes,
}
use mathlib.Core.Path.{subst}
use prismatic_os.Base.Linked.{null, Links-frame}
use prismatic_os.Html.Dom.{
  dom_node_is_element, Ptr, Node, Nodes, element_node, text_node, blank_node, dom_element_create,
  dom_text_create, update, dom_node_set_attribute, dom_node_add_class, has_class,
}
use prismatic_os.Html.Dom.Family.{next_of, prev_of, HasChildren, IsFamily}

-- What the tree and the names of two memories have in common.
pub record SameShape (s t : Nodes) : Type 0 where
  pub parent : (a : Ptr) → (t a).parent ≡ (s a).parent
  pub first_child : (a : Ptr) → (t a).first_child ≡ (s a).first_child
  pub last_child : (a : Ptr) → (t a).last_child ≡ (s a).last_child
  pub prev_sibling : (a : Ptr) → (t a).prev_sibling ≡ (s a).prev_sibling
  pub next_sibling : (a : Ptr) → (t a).next_sibling ≡ (s a).next_sibling
  pub type : (a : Ptr) → (t a).type ≡ (s a).type
  pub tag_name : (a : Ptr) → (t a).tag_name ≡ (s a).tag_name

pub SameShape-refl : (s : Nodes) → SameShape s s
SameShape-refl s = record {
  parent = λ a. refl;
  first_child = λ a. refl;
  last_child = λ a. refl;
  prev_sibling = λ a. refl;
  next_sibling = λ a. refl;
  type = λ a. refl;
  tag_name = λ a. refl;
}

pub SameShape-trans : (s t u : Nodes) → SameShape s t → SameShape t u → SameShape s u
SameShape-trans s t u f g = record {
  parent = λ a. g.parent a ∙ f.parent a;
  first_child = λ a. g.first_child a ∙ f.first_child a;
  last_child = λ a. g.last_child a ∙ f.last_child a;
  prev_sibling = λ a. g.prev_sibling a ∙ f.prev_sibling a;
  next_sibling = λ a. g.next_sibling a ∙ f.next_sibling a;
  type = λ a. g.type a ∙ f.type a;
  tag_name = λ a. g.tag_name a ∙ f.tag_name a;
}

-- A node is replaced by one with the same pointers and name.
abbrev SameNode : Node → Node → Type 0
SameNode x y =
    (y.parent ≡ x.parent)
    × (y.first_child ≡ x.first_child)
    × (y.last_child ≡ x.last_child)
    × (y.prev_sibling ≡ x.prev_sibling)
    × (y.next_sibling ≡ x.next_sibling)
    × (y.type ≡ x.type)
    × (y.tag_name ≡ x.tag_name)

pub update-SameShape :
    (s : Nodes) (p : Ptr) (y : Node) → SameNode (s p) y → SameShape s (update s p y)
unfolding update
update-SameShape s p y same = record {
  parent = λ a. (at a).0;
  first_child = λ a. (at a).1;
  last_child = λ a. (at a).2;
  prev_sibling = λ a. (at a).3;
  next_sibling = λ a. (at a).4;
  type = λ a. (at a).5;
  tag_name = λ a. (at a).6;
}
  where
    at : (a : Ptr) → SameNode (s a) (update s p y a)
    at a = elim (Bool-cases (a == p)) [
      | inl here ↦ let e : a ≡ p = ground arith in rw (e, eq_refl p) same
      | inr there ↦ rw there (refl, refl, refl, refl, refl, refl, refl)
    ]

if-SameShape : (b : Bool) (s t : Nodes) → SameShape s t → SameShape s (if b then s else t)
if-SameShape true s t h = SameShape-refl s
if-SameShape false s t h = h

pub set_attribute-SameShape :
    (s : Nodes) (p : Ptr) (name : Bytes) (value : Option Bytes)
    → SameShape s (dom_node_set_attribute s p (some name) value)
unfolding dom_node_set_attribute
set_attribute-SameShape s p name value =
    if-SameShape (p == null) s _ (update-SameShape s p _ (refl, refl, refl, refl, refl, refl, refl))

pub add_class-SameShape :
    (s : Nodes) (p : Ptr) (name : Bytes) → SameShape s (dom_node_add_class s p (some name))
unfolding dom_node_add_class
add_class-SameShape s p name =
    if-SameShape ((p == null) || has_class (s p).class_names name) s _
      (update-SameShape s p _ (refl, refl, refl, refl, refl, refl, refl))

-- The pointers of two nodes.
abbrev SamePlace : Node → Node → Type 0
SamePlace x y =
    (y.parent ≡ x.parent)
    × (y.first_child ≡ x.first_child)
    × (y.last_child ≡ x.last_child)
    × (y.prev_sibling ≡ x.prev_sibling)
    × (y.next_sibling ≡ x.next_sibling)

update_lem :
    (s : Nodes) (p : Ptr) (y : Node)
    → SamePlace (s p) y
    → (a : Ptr) → SamePlace (s a) (update s p y a)
unfolding update
update_lem s p y same a = elim (Bool-cases (a == p)) [
  | inl here ↦ let e : a ≡ p = ground arith in rw (e, eq_refl p) same
  | inr there ↦ rw there (refl, refl, refl, refl, refl)
]

SamePlace-IsFamily :
    (s t : Nodes) (children : Ptr → List Ptr)
    → ((a : Ptr) → SamePlace (s a) (t a))
    → IsFamily s children
    → IsFamily t children
SamePlace-IsFamily s t children h f = record {
  lists = λ p ne.
      rw ((h p).1, (h p).2)
        (
          Links-frame (next_of s) (prev_of s) (next_of t) (prev_of t) null (s p).first_child
              (children p) (λ a i. ((h a).4, (h a).3)) (f.lists p ne).0,
          (f.lists p ne).1,
        );
  parents = λ p c ne i. (h c).0 ∙ f.parents p c ne i;
  members = λ c ne o. rw ((h c).0) (f.members c ne (λ e. o ((h c).0 ∙ e)));
  roots = λ c ne o. rw ((h c).4, (h c).3) (f.roots c ne (sym ((h c).0) ∙ o));
}

pub SameShape-IsFamily :
    (s t : Nodes) (children : Ptr → List Ptr)
    → SameShape s t
    → IsFamily s children
    → IsFamily t children
SameShape-IsFamily s t children h =
    SamePlace-IsFamily s t children
      (λ a. (h.parent a, h.first_child a, h.last_child a, h.prev_sibling a, h.next_sibling a))

-- The address holds no node yet: nothing points there, and no pointer is set.
abbrev pub IsFree : Nodes → (Ptr → List Ptr) → Ptr → Type 0
IsFree s children p = ((s p).parent ≡ null) × (children p ≡ [])

-- A new node is the root of a tree of its own.
pub create-IsFamily :
    (s : Nodes) (children : Ptr → List Ptr) (p : Ptr) (y : Node)
    → p ≢ null
    → IsFree s children p
    → (y.parent ≡ null)
      × (y.first_child ≡ null)
      × (y.last_child ≡ null)
      × (y.prev_sibling ≡ null)
      × (y.next_sibling ≡ null)
    → IsFamily s children
    → IsFamily (update s p y) children
create-IsFamily s children p y ne (root, leaf) (y0, y1, y2, y3, y4) f =
    let own : HasChildren s p [] = subst (HasChildren s p) leaf (f.lists p ne) in
    let alone = f.roots p ne root in
    let at : (a : Ptr) → SamePlace (s a) (update s p y a) =
      update_lem s p y (
        y0 ∙ sym root,
        y1 ∙ sym (own.0),
        y2 ∙ sym (own.1),
        y3 ∙ sym (alone.1),
        y4 ∙ sym (alone.0),
      ) in
    SamePlace-IsFamily s (update s p y) children at f

abbrev pub element_of : Option Bytes → Node
element_of tag_name = record (blank_node element_node) { tag_name = tag_name }

abbrev pub text_of : Option Bytes → Node
text_of content = record (blank_node text_node) { content = content; text_content = content }

pub dom_element_create-update :
    (s : Nodes) (p : Ptr) (tag_name : Option Bytes)
    → p ≢ null
    → dom_element_create s p tag_name ≡ update s p (element_of tag_name)
unfolding dom_element_create
dom_element_create-update s p tag_name ne = rw (eq_false_of_ne p null ne) refl

pub dom_text_create-update :
    (s : Nodes) (p : Ptr) (content : Option Bytes)
    → p ≢ null
    → dom_text_create s p content ≡ update s p (text_of content)
unfolding dom_text_create
dom_text_create-update s p content ne = rw (eq_false_of_ne p null ne) refl

pub dom_node_is_element_lem :
    (nodes : Nodes) (p : Ptr)
    → p ≢ null
    → (nodes p).type ≡ element_node
    → dom_node_is_element nodes p ≡ true
unfolding dom_node_is_element
dom_node_is_element_lem nodes p ne e =
    let given : (p != null) ≡ true = ground arith in rw (given, e) refl
