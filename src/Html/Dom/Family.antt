-- ===== src/Html/Dom/Family.antt =====
-- Parents and children: every node has a list of children, linked both ways, and the changes of the
-- tree are changes of these lists. Nothing here excludes a node that is below itself.
use prismatic_os.Base.{◌≡◌, sym, ap, ◌∙◌, ◌≢◌, ◌⊎◌, inl, inr, true, false, List, Bool-cases}
use mathlib.Core.Path.{subst}
use prismatic_os.Base.Linked.{null, has, has-null, next-mem, prev-mem, Links, last_of}
use prismatic_os.Html.Dom.{Ptr, Nodes}

abbrev pub next_of : Nodes → Ptr → Ptr
next_of nodes a = (nodes a).next_sibling

abbrev pub prev_of : Nodes → Ptr → Ptr
prev_of nodes a = (nodes a).prev_sibling

-- The node's list of children is `xs`, from both ends.
abbrev pub HasChildren : Nodes → Ptr → List Ptr → Type 0
HasChildren nodes p xs =
    Links (next_of nodes) (prev_of nodes) null (nodes p).first_child xs
    × ((nodes p).last_child ≡ last_of null xs)

-- `children` gives the children of every node; they have it as their parent, a node with a parent is
-- one of its children, and a node without one has no siblings.
pub record IsFamily (nodes : Nodes) (children : Ptr → List Ptr) : Type 0 where
  pub lists : (p : Ptr) → p ≢ null → HasChildren nodes p (children p)
  pub parents : (p c : Ptr) → p ≢ null → has c (children p) ≡ true → (nodes c).parent ≡ p
  pub members :
      (c : Ptr) → c ≢ null → (nodes c).parent ≢ null → has c (children (nodes c).parent) ≡ true
  pub roots :
      (c : Ptr)
      → c ≢ null
      → (nodes c).parent ≡ null
      → (next_of nodes c ≡ null) × (prev_of nodes c ≡ null)

-- Only the lists of nodes count.
pub IsFamily-cong :
    (nodes : Nodes) (ch ch2 : Ptr → List Ptr)
    → ((q : Ptr) → q ≢ null → ch q ≡ ch2 q)
    → IsFamily nodes ch
    → IsFamily nodes ch2
IsFamily-cong nodes ch ch2 same f = record {
  lists = λ p ne. subst (λ xs. HasChildren nodes p xs) (same p ne) (f.lists p ne);
  parents = λ p c ne h. f.parents p c ne (ap (has c) (same p ne) ∙ h);
  members = λ c ne h. sym (ap (has c) (same (nodes c).parent h)) ∙ f.members c ne h;
  roots = f.roots;
}

module _ (nodes : Nodes) (children : Ptr → List Ptr) (f : IsFamily nodes children) where
  -- No list holds NULL.
  pub no_null : (p : Ptr) → p ≢ null → has null (children p) ≡ false
  no_null p ne =
      has-null (next_of nodes) (prev_of nodes) null (nodes p).first_child (children p)
        (f.lists p ne).0

  -- A node is in the list of its parent only.
  pub absent : (p c : Ptr) → p ≢ null → (nodes c).parent ≢ p → has c (children p) ≡ false
  absent p c ne other = elim (Bool-cases (has c (children p))) [
    | inl inside ↦ absurd (other (f.parents p c ne inside))
    | inr outside ↦ outside
  ]

  pub nonnull : (p a : Ptr) → p ≢ null → has a (children p) ≡ true → a ≢ null
  nonnull p a ne h e = cc (sym (no_null p ne) ∙ ap (λ z. has z (children p)) (sym e) ∙ h)

  -- The siblings of a child are NULL or children of the same node.
  pub prev_in :
      (p c : Ptr)
      → p ≢ null
      → has c (children p) ≡ true
      → (prev_of nodes c ≡ null) ⊎ (has (prev_of nodes c) (children p) ≡ true)
  prev_in p c ne h =
      elim (prev-mem (next_of nodes) (prev_of nodes) null (nodes p).first_child c (children p)
        (f.lists p ne).0 h) [ inl (e, back) ↦ inl back | inr (e, inside) ↦ inr inside ]

  pub next_in :
      (p c : Ptr)
      → p ≢ null
      → has c (children p) ≡ true
      → (next_of nodes c ≡ null) ⊎ (has (next_of nodes c) (children p) ≡ true)
  next_in p c ne h =
      elim (next-mem (next_of nodes) (prev_of nodes) null (nodes p).first_child c (children p)
        (f.lists p ne).0 h) [ inl e ↦ inl e | inr (inside, e) ↦ inr inside ]
