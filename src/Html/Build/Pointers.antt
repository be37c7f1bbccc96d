-- ===== src/Html/Build/Pointers.antt =====
-- Filling an element with attributes and classes moves no pointer of the tree.
use prismatic_os.Base.{refl, Option, none, some, List, [], ◌∷◌, Bytes}
use prismatic_os.Html.Token.{Attr, Token}
use prismatic_os.Html.Dom.Shape.{
  SameShape, SameShape-refl, SameShape-trans, update-SameShape, set_attribute-SameShape,
  add_class-SameShape,
}
use prismatic_os.Html.Dom.{
  Ptr, Nodes, dom_element_create, dom_node_set_attribute, dom_node_get_attribute,
  dom_node_add_class,
}
use prismatic_os.Html.Build.{
  set_attributes, set_id, add_classes, make_element, id_name, class_name, class_tokens,
}

set_id-SameShape : (s : Nodes) (p : Ptr) (id : Option Bytes) → SameShape s (set_id s p id)
unfolding set_id
set_id-SameShape s p none = SameShape-refl s
set_id-SameShape s p (some id) = update-SameShape s p _ (refl, refl, refl, refl, refl, refl, refl)

set_attributes-SameShape :
    (s : Nodes) (p : Ptr) (attrs : List Attr) → SameShape s (set_attributes s p attrs)
unfolding set_attributes
set_attributes-SameShape s p [] = SameShape-refl s
set_attributes-SameShape s p (a ∷ attrs) =
    let t = dom_node_set_attribute s p (some a.name) a.value in
    SameShape-trans s t (set_attributes t p attrs) (set_attribute-SameShape s p a.name a.value)
      (set_attributes-SameShape t p attrs)

add_classes-SameShape :
    (s : Nodes) (p : Ptr) (classes : List Bytes) → SameShape s (add_classes s p classes)
unfolding add_classes
add_classes-SameShape s p [] = SameShape-refl s
add_classes-SameShape s p (c ∷ classes) =
    let t = dom_node_add_class s p (some c) in
    SameShape-trans s t (add_classes t p classes) (add_class-SameShape s p c)
      (add_classes-SameShape t p classes)

-- The pointers and the names of an element that is made are those of dom_element_create.
pub make_element-SameShape :
    (s : Nodes) (p : Ptr) (token : Token)
    → SameShape (dom_element_create s p (some token.tag_name)) (make_element s p token)
unfolding make_element
make_element-SameShape s p token =
    let s0 = dom_element_create s p (some token.tag_name) in
    let s1 = set_attributes s0 p token.attrs in
    let s2 = set_id s1 p (dom_node_get_attribute s1 p (some id_name)) in
    let classes = class_tokens (dom_node_get_attribute s2 p (some class_name)) in
    SameShape-trans s0 s2 (add_classes s2 p classes)
      (SameShape-trans s0 s1 s2 (set_attributes-SameShape s0 p token.attrs)
        (set_id-SameShape s1 p (dom_node_get_attribute s1 p (some id_name))))
      (add_classes-SameShape s2 p classes)
