-- ===== src/Html/Dom/Append.antt =====
-- dom_node_append_child puts the child behind the last child of its new parent.
use prismatic_os.Base.{
  ◌≡◌, refl, sym, ap, ◌∙◌, ◌≢◌, ◌⊎◌, inl, inr, true, false, ◌&&◌, List, [], ◌∷◌, ◌++◌, arith, ◌==◌,
  ◌!=◌, if◌then◌else◌, eq_refl, eq_false_of_ne, Bool-cases,
}
use prismatic_os.Html.Dom.Remove.{dom_node_remove_child-IsFamily}
use mathlib.Core.Path.{subst}
use prismatic_os.Base.Linked.{null, has, erase, Links, Links-frame, first_of, last_of}
use prismatic_os.Base.LinkedEdit.{
  has-append, last_of-append, erase_absent, has-last_of, Links-append,
}
use prismatic_os.Html.Dom.{Ptr, Nodes, link_child, dom_node_append_child, dom_node_remove_child}
use prismatic_os.Html.Dom.Siblings.{
  linked-next, linked-prev, linked-parent, linked-first, linked-last,
}
use prismatic_os.Html.Dom.Family.{
  next_of, prev_of, HasChildren, IsFamily, IsFamily-cong, no_null, absent, nonnull,
}

-- The lists of children, with `c` put behind those of `p`.
abbrev pub joined : (Ptr → List Ptr) → Ptr → Ptr → Ptr → List Ptr
joined children p c q = if q == p then children q ++ (c ∷ []) else children q

module _ (nodes : Nodes) (children : Ptr → List Ptr) (f : IsFamily nodes children) (p c : Ptr)
    (nep : p ≢ null) (nec : c ≢ null) (root : (nodes c).parent ≡ null) where
  abbrev grown : Nodes
  grown = link_child nodes p c

  out : (q : Ptr) → q ≢ null → has c (children q) ≡ false
  out q neq = absent nodes children f q c neq (λ e. neq (sym e ∙ root))

  last_in : (xs : List Ptr) → (last_of null xs ≡ null) ⊎ (has (last_of null xs) xs ≡ true)
  last_in [] = inl refl
  last_in (x ∷ xs) = inr (has-last_of xs x)

  last_child_in : ((nodes p).last_child ≡ null) ⊎ (has (nodes p).last_child (children p) ≡ true)
  last_child_in =
      subst (λ z. (z ≡ null) ⊎ (has z (children p) ≡ true)) (sym (f.lists p nep).1)
        (last_in (children p))

  -- The last child is no node with another parent.
  not_last : (a : Ptr) → a ≢ null → (nodes a).parent ≢ p → (a == (nodes p).last_child) ≡ false
  not_last a ne other = elim last_child_in [
    | inl e ↦ eq_false_of_ne a (nodes p).last_child (λ z. ne (z ∙ e))
    | inr i ↦
        eq_false_of_ne a (nodes p).last_child
          (λ z. other (ap (λ x. (nodes x).parent) z ∙ f.parents p (nodes p).last_child nep i))
  ]

  -- Either there is no child, or neither end is NULL.
  ends_null :
      (xs : List Ptr)
      → Links (next_of nodes) (prev_of nodes) null (nodes p).first_child xs
      → has null xs ≡ false
      → (((nodes p).first_child == null) ≡ false)
        ⊎ ((last_of null xs ≡ null) × ((nodes p).first_child ≡ null))
  ends_null [] l e = inr (refl, l)
  ends_null (x ∷ xs) l e = inl (ground (arith, l.0, l.1))

  own_ends :
      (((nodes p).first_child == null) ≡ false)
      ⊎ (((nodes p).last_child ≡ null) × ((nodes p).first_child ≡ null))
  own_ends =
      rw ((f.lists p nep).1)
        (ends_null (children p) (f.lists p nep).0 (no_null nodes children f p nep))

  first_child_lem :
      (xs : List Ptr)
      → Links (next_of nodes) (prev_of nodes) null (nodes p).first_child xs
      → (grown p).first_child
        ≡ (if (p == p) && ((nodes p).first_child == null) then c else (nodes p).first_child)
      → (grown p).first_child ≡ first_of c xs
  first_child_lem [] l e = ground arith
  first_child_lem (x ∷ xs) (e0, nex, backx, outx, l) e = ground (arith, e0)

  root_not_p : (nodes c).parent ≢ p
  root_not_p e = nep (sym e ∙ root)

  forth :
      (a : Ptr)
      → a ≢ null
      → next_of grown a
        ≡ (if a == c then null else if a == last_of null (children p) then c else next_of nodes a)
  forth a ne =
      let c1 = not_last c nec root_not_p in
      let alone = f.roots c nec root in
      let ends = own_ends in let last = (f.lists p nep).1 in ground (arith, linked-next nodes p c a)

  back :
      (a : Ptr)
      → a ≢ null
      → prev_of grown a ≡ (if a == c then last_of null (children p) else prev_of nodes a)
  back a ne =
      let alone = f.roots c nec root in
      let ends = own_ends in let last = (f.lists p nep).1 in ground (arith, linked-prev nodes p c a)

  own_list : HasChildren grown p (children p ++ (c ∷ []))
  own_list =
      let l = f.lists p nep in
      let first : (grown p).first_child ≡ first_of c (children p) =
        first_child_lem (children p) l.0 (linked-first nodes p c p) in
      let last : (grown p).last_child ≡ c = ground (arith, linked-last nodes p c p) in
      (
        rw first (
            Links-append (next_of nodes) (prev_of nodes) (next_of grown) (prev_of grown) c nec null
              (nodes p).first_child (children p) l.0 (no_null nodes children f p nep) (out p nep)
              (λ a ne i. forth a ne) (λ a ne i. back a ne)),
        last ∙ sym (last_of-append null c (children p)),
      )

  -- Another node's children keep their links.
  same_links :
      (q : Ptr)
      → q ≢ null
      → (q == p) ≡ false
      → (a : Ptr) → has a (children q) ≡ true
      → (next_of grown a ≡ next_of nodes a) × (prev_of grown a ≡ prev_of nodes a)
  same_links q neq other a h =
      let nea = nonnull nodes children f q a neq h in
      let pa : (nodes a).parent ≢ p = λ e. ground (arith, e, f.parents q a neq h) in
      let a1 : (a == c) ≡ false =
        eq_false_of_ne a c
          (λ e. neq (sym (f.parents q a neq h) ∙ ap (λ x. (nodes x).parent) e ∙ root)) in
      let a2 = not_last a nea pa in
      (ground (arith, linked-next nodes p c a), ground (arith, linked-prev nodes p c a))

  other_list : (q : Ptr) → q ≢ null → (q == p) ≡ false → HasChildren grown q (children q)
  other_list q neq other =
      let l = f.lists q neq in
      let first : (grown q).first_child ≡ (nodes q).first_child =
        ground (arith, linked-first nodes p c q) in
      let last : (grown q).last_child ≡ (nodes q).last_child =
        ground (arith, linked-last nodes p c q) in
      rw (first, last)
        (
          Links-frame (next_of nodes) (prev_of nodes) (next_of grown) (prev_of grown) null
              (nodes q).first_child (children q) (same_links q neq other) l.0,
          l.1,
        )

  joined_lists : (q : Ptr) → q ≢ null → HasChildren grown q (joined children p c q)
  joined_lists q neq = elim (Bool-cases (q == p)) [
    | inl same ↦ let e : q ≡ p = ground arith in rw (same, e) own_list
    | inr other ↦ rw other (other_list q neq other)
  ]

  joined_parents :
      (q a : Ptr) → q ≢ null → has a (joined children p c q) ≡ true → (grown a).parent ≡ q
  joined_parents q a neq h = elim (Bool-cases (has a (children q))) [
    | inl was ↦
        let own = f.parents q a neq was in
        let other : (a == c) ≡ false =
          eq_false_of_ne a c (λ e. neq (sym own ∙ ap (λ x. (nodes x).parent) e ∙ root)) in
        ground (arith, linked-parent nodes p c a)
    | inr new ↦ ground (arith, linked-parent nodes p c a, has-append a c (children q))
  ]

  joined_members :
      (a : Ptr)
      → a ≢ null
      → (grown a).parent ≢ null
      → has a (joined children p c (grown a).parent) ≡ true
  joined_members a ne h = elim (Bool-cases (a == c)) [
    | inl here ↦
        let e : (grown a).parent ≡ p = ground (arith, linked-parent nodes p c a) in
        rw e (rw (eq_refl p) (ground (arith, has-append a c (children p))))
    | inr there ↦
        let e : (grown a).parent ≡ (nodes a).parent = ground (arith, linked-parent nodes p c a) in
        rw e (
          ground
            (arith, has-append a c (children (nodes a).parent), f.members a ne (λ z. h (e ∙ z))))
  ]

  joined_roots :
      (a : Ptr)
      → a ≢ null
      → (grown a).parent ≡ null
      → (next_of grown a ≡ null) × (prev_of grown a ≡ null)
  joined_roots a ne h =
      let other : (a == c) ≡ false = ground (arith, linked-parent nodes p c a) in
      let was : (nodes a).parent ≡ null = ground (arith, linked-parent nodes p c a) in
      let alone = f.roots a ne was in
      let a2 = not_last a ne (λ e. nep (sym e ∙ was)) in
      (ground (arith, linked-next nodes p c a), ground (arith, linked-prev nodes p c a))

  pub link_child-IsFamily : IsFamily (link_child nodes p c) (joined children p c)
  link_child-IsFamily = record {
    lists = joined_lists;
    parents = joined_parents;
    members = joined_members;
    roots = joined_roots;
  }

-- Where every node has its list of children, linked both ways, appending a child that is not NULL to
-- a node that is not NULL keeps this so: wherever the child stood before, it is taken out of every list
-- and stands behind the other children of the new parent, and the other nodes keep their order.
pub dom_node_append_child-IsFamily :
    (nodes : Nodes) (children : Ptr → List Ptr) (p c : Ptr)
    → p ≢ null
    → c ≢ null
    → IsFamily nodes children
    → IsFamily (dom_node_append_child nodes p c) (joined (λ q. erase c (children q)) p c)
unfolding dom_node_append_child
dom_node_append_child-IsFamily nodes children p c nep nec f =
    elim (Bool-cases ((nodes c).parent != null)) [
      | inl owned ↦
          let ne : (nodes c).parent ≢ null = λ e. ground (arith, e, owned) in
          let (g, free) =
            dom_node_remove_child-IsFamily nodes children f (nodes c).parent c ne nec refl in
          rw (p0, c0, owned)
            (link_child-IsFamily (dom_node_remove_child nodes (nodes c).parent c)
              (λ q. erase c (children q)) g p c nep nec free)
      | inr root ↦
          let free : (nodes c).parent ≡ null = ground arith in
          let same : (q : Ptr) → q ≢ null → children q ≡ erase c (children q) = λ q neq. sym (
            erase_absent c (children q)
              (absent nodes children f q c neq (λ e. neq (sym e ∙ free)))) in
          rw (p0, c0, root)
            (link_child-IsFamily nodes (λ q. erase c (children q))
              (IsFamily-cong nodes children (λ q. erase c (children q)) same f) p c nep nec free)
    ]
  where
    p0 : (p == null) ≡ false
    p0 = eq_false_of_ne p null nep

    c0 : (c == null) ≡ false
    c0 = eq_false_of_ne c null nec

-- A node without a parent is only put behind the children.
pub append_root :
    (nodes : Nodes) (p c : Ptr)
    → p ≢ null
    → c ≢ null
    → (nodes c).parent ≡ null
    → dom_node_append_child nodes p c ≡ link_child nodes p c
unfolding dom_node_append_child
append_root nodes p c nep nec root =
    let r : ((nodes c).parent != null) ≡ false = ground arith in
    rw (eq_false_of_ne p null nep, eq_false_of_ne c null nec, r) refl
