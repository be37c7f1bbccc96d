-- ===== src/Html/Dom/Remove.antt =====
-- dom_node_remove_child takes the child out of the list of its parent.
use prismatic_os.Base.{
  ◌≡◌, sym, ap, ◌∙◌, ◌≢◌, ◌⊎◌, inl, inr, true, false, ◌&&◌, List, arith, ◌==◌, if◌then◌else◌,
  eq_false_of_ne, Bool-cases,
}
use mathlib.Core.Bool.{false≢true}
use mathlib.Core.Path.{subst}
use prismatic_os.Base.Linked.{null, has, erase, apart, Links-frame, Links-erase}
use prismatic_os.Base.LinkedEdit.{
  has-of_erase, has-erase_other, has-erase_self, erase_absent, last_of-erase,
}
use prismatic_os.Html.Dom.{Ptr, Nodes, dom_node_remove_child}
use prismatic_os.Html.Dom.Siblings.{removed_lem}
use prismatic_os.Html.Dom.Family.{
  next_of, prev_of, HasChildren, IsFamily, no_null, absent, nonnull, prev_in, next_in,
}

module _ (nodes : Nodes) (children : Ptr → List Ptr) (f : IsFamily nodes children) (p c : Ptr)
    (nep : p ≢ null) (nec : c ≢ null) (own : (nodes c).parent ≡ p) where
  abbrev rest_of : Nodes
  rest_of = dom_node_remove_child nodes p c

  inside : has c (children p) ≡ true
  inside = subst (λ q. has c (children q) ≡ true) own (f.members c nec (λ e. nep (sym own ∙ e)))

  apart_lem : (prev_of nodes c ≢ c) × (next_of nodes c ≢ c)
  apart_lem =
      apart (next_of nodes) (prev_of nodes) null (nodes p).first_child c (children p)
        (f.lists p nep).0 (no_null nodes children f p nep) inside

  next_lem :
      (a : Ptr)
      → a ≢ null
      → next_of rest_of a ≡ (
          if a == c
          then null
          else if a == prev_of nodes c
          then next_of nodes c
          else next_of nodes a)
  next_lem a ne = (removed_lem nodes p c nep nec own apart_lem.0 apart_lem.1 a ne).0

  prev_lem :
      (a : Ptr)
      → a ≢ null
      → prev_of rest_of a ≡ (
          if a == c
          then null
          else if a == next_of nodes c
          then prev_of nodes c
          else prev_of nodes a)
  prev_lem a ne = (removed_lem nodes p c nep nec own apart_lem.0 apart_lem.1 a ne).1

  parent_lem :
      (a : Ptr) → a ≢ null → (rest_of a).parent ≡ (if a == c then null else (nodes a).parent)
  parent_lem a ne = (removed_lem nodes p c nep nec own apart_lem.0 apart_lem.1 a ne).2

  first_lem :
      (a : Ptr)
      → a ≢ null
      → (rest_of a).first_child ≡ (
          if (a == p) && ((nodes p).first_child == c)
          then next_of nodes c
          else (nodes a).first_child)
  first_lem a ne = (removed_lem nodes p c nep nec own apart_lem.0 apart_lem.1 a ne).3

  last_lem :
      (a : Ptr)
      → a ≢ null
      → (rest_of a).last_child ≡ (
          if (a == p) && ((nodes p).last_child == c) then prev_of nodes c else (nodes a).last_child)
  last_lem a ne = (removed_lem nodes p c nep nec own apart_lem.0 apart_lem.1 a ne).4

  own_list : HasChildren rest_of p (erase c (children p))
  own_list =
      let l = f.lists p nep in
      let first : (rest_of p).first_child
          ≡ (if (nodes p).first_child == c then next_of nodes c else (nodes p).first_child) =
        ground (arith, first_lem p nep) in
      let last : (rest_of p).last_child
          ≡ (if (nodes p).last_child == c then prev_of nodes c else (nodes p).last_child) =
        ground (arith, last_lem p nep) in
      let others =
        Links-erase (next_of nodes) (prev_of nodes) (next_of rest_of) (prev_of rest_of) c
          apart_lem.0 apart_lem.1 next_lem prev_lem null (nodes p).first_child (children p) l.0
          (no_null nodes children f p nep) inside in
      let ends =
        last_of-erase (next_of nodes) (prev_of nodes) c null (nodes p).first_child (children p) l.0
          (λ e. nec (sym e)) in
      (rw first others, cc (last, l.1, ends))

  -- A node with another parent is no child of this one.
  away :
      (a b : Ptr)
      → a ≢ null
      → (nodes a).parent ≢ p
      → (b ≡ null) ⊎ (has b (children p) ≡ true)
      → (a == b) ≡ false
  away a b ne other (inl e) = eq_false_of_ne a b (λ z. ne (z ∙ e))
  away a b ne other (inr i) =
      eq_false_of_ne a b (λ z. other (ap (λ x. (nodes x).parent) z ∙ f.parents p b nep i))

  -- Another node's children keep their links.
  same_links :
      (q : Ptr)
      → q ≢ null
      → (q == p) ≡ false
      → (a : Ptr) → has a (children q) ≡ true
      → (next_of rest_of a ≡ next_of nodes a) × (prev_of rest_of a ≡ prev_of nodes a)
  same_links q neq other a h =
      let nea = nonnull nodes children f q a neq h in
      let pa : (nodes a).parent ≢ p = λ e. ground (arith, e, f.parents q a neq h) in
      let a1 = away a c nea pa (inr inside) in
      let a2 = away a (prev_of nodes c) nea pa (prev_in nodes children f p c nep inside) in
      let a3 = away a (next_of nodes c) nea pa (next_in nodes children f p c nep inside) in
      (ground (arith, next_lem a nea), ground (arith, prev_lem a nea))

  other_list :
      (q : Ptr) → q ≢ null → (q == p) ≡ false → HasChildren rest_of q (erase c (children q))
  other_list q neq other =
      let l = f.lists q neq in
      let out : has c (children q) ≡ false = absent nodes children f q c neq (λ e. ground arith) in
      let first : (rest_of q).first_child ≡ (nodes q).first_child =
        ground (arith, first_lem q neq) in
      let last : (rest_of q).last_child ≡ (nodes q).last_child = ground (arith, last_lem q neq) in
      rw (erase_absent c (children q) out, first, last)
        (
          Links-frame (next_of nodes) (prev_of nodes) (next_of rest_of) (prev_of rest_of) null
              (nodes q).first_child (children q) (same_links q neq other) l.0,
          l.1,
        )

  removed_lists : (q : Ptr) → q ≢ null → HasChildren rest_of q (erase c (children q))
  removed_lists q neq = elim (Bool-cases (q == p)) [
    | inl same ↦ let e : q ≡ p = ground arith in rw e own_list
    | inr other ↦ other_list q neq other
  ]

  gone : (q : Ptr) → q ≢ null → has c (erase c (children q)) ≡ false
  gone q neq =
      has-erase_self (next_of nodes) (prev_of nodes) c null (nodes q).first_child (children q)
        (f.lists q neq).0

  removed_parents :
      (q a : Ptr) → q ≢ null → has a (erase c (children q)) ≡ true → (rest_of a).parent ≡ q
  removed_parents q a neq h =
      let was = has-of_erase a c (children q) h in
      let other : (a == c) ≡ false = eq_false_of_ne a c (λ e.
        false≢true (sym (gone q neq) ∙ (ap (λ z. has z (erase c (children q))) (sym e) ∙ h))) in
      ground (arith, parent_lem a (nonnull nodes children f q a neq was), f.parents q a neq was)

  removed_members :
      (a : Ptr)
      → a ≢ null
      → (rest_of a).parent ≢ null
      → has a (erase c (children (rest_of a).parent)) ≡ true
  removed_members a ne h =
      let e = parent_lem a ne in
      let other : (a == c) ≡ false = ground (arith, e) in
      let same : (rest_of a).parent ≡ (nodes a).parent = ground (arith, e) in
      rw same
        (has-erase_other a c (children (nodes a).parent) other (f.members a ne (λ z. h (same ∙ z))))

  removed_roots :
      (a : Ptr)
      → a ≢ null
      → (rest_of a).parent ≡ null
      → (next_of rest_of a ≡ null) × (prev_of rest_of a ≡ null)
  removed_roots a ne h = elim (Bool-cases (a == c)) [
    | inl here ↦ (ground (arith, next_lem a ne), ground (arith, prev_lem a ne))
    | inr there ↦
        let root : (nodes a).parent ≡ null = ground (arith, parent_lem a ne) in
        let alone = f.roots a ne root in
        let pa : (nodes a).parent ≢ p = λ e. nep (sym e ∙ root) in
        let a2 = away a (prev_of nodes c) ne pa (prev_in nodes children f p c nep inside) in
        let a3 = away a (next_of nodes c) ne pa (next_in nodes children f p c nep inside) in
        (ground (arith, next_lem a ne), ground (arith, prev_lem a ne))
  ]

  -- Where every node has its list of children, linked both ways, removing a child of a node keeps this
  -- so: the child is out of its parent's list and has no parent, and every other list is as it was.
  pub dom_node_remove_child-IsFamily :
      IsFamily (dom_node_remove_child nodes p c) (λ q. erase c (children q))
      × ((dom_node_remove_child nodes p c c).parent ≡ null)
  dom_node_remove_child-IsFamily = (
    record {
      lists = removed_lists;
      parents = removed_parents;
      members = removed_members;
      roots = removed_roots;
    },
    ground (arith, parent_lem c nec),
  )
