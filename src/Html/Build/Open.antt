-- ===== src/Html/Build/Open.antt =====
-- The walk of html_handle_end_tag from the current node towards the document.
use prismatic_os.Base.{
  ℕ, zero, suc, ◌≡◌, refl, ◌≢◌, ◌⊎◌, inl, inr, Bool, true, false, ◌&&◌, ◌||◌, Option, none, some,
  arith, ◌==◌, ◌!=◌, if◌then◌else◌, Bool-cases, is_some, Bytes,
}
use prismatic_os.Base.Linked.{null}
use prismatic_os.Html.Dom.{Ptr, Nodes, dom_node_is_element}
use prismatic_os.Html.Build.{Parser, has_name, find_open}

abbrev pub Holds : (Ptr → Type 0) → Option Ptr → Type 0
Holds P none = Unit
Holds P (some p) = P p

if-Holds :
    (P : Ptr → Type 0) (test : Bool) (x y : Option Ptr)
    → (test ≡ true → Holds P x)
    → (test ≡ false → Holds P y)
    → Holds P (if test then x else y)
if-Holds P true x y hx hy = hx refl
if-Holds P false x y hx hy = hy refl

-- The parents of the node lead to the document, in at most `n` steps and without a NULL before.
abbrev pub Below : ℕ → Nodes → Ptr → Ptr → Type 0
Below zero nodes document p = p ≡ document
Below (suc n) nodes document p =
    (p ≡ document) ⊎ ((p ≢ null) × Below n nodes document (nodes p).parent)

some_or :
    (test : Bool) (x : Ptr) (y : Option Ptr)
    → is_some y ≡ true
    → is_some (if test then some x else y) ≡ true
some_or true x y h = refl
some_or false x y h = h

module _ (same_name : Bytes → Bytes → Bool) (s : Parser) where
  -- What holds of the current node, and moves up from a node to its parent, holds of the node that
  -- the walk finds.
  module _ (P : Ptr → Type 0) (here : P s.current_node)
      (up : (p : Ptr)
        → p ≢ null
        → p ≢ s.document
        → (s.nodes p).parent ≢ null
        → P p
        → P (s.nodes p).parent) where
    found :
        (p : Ptr)
        → p ≢ null
        → p ≢ s.document
        → P p
        → (((s.nodes p).parent != null) ≡ true) ⊎ (((s.nodes p).parent != null) ≡ false)
        → P (if (s.nodes p).parent != null then (s.nodes p).parent else s.current_node)
    found p ne nd h (inl some_above) =
        rw some_above (up p ne nd (λ e. ground (arith, e, some_above)) h)
    found p ne nd h (inr top) = rw top here

    above :
        (p : Ptr)
        → p ≢ null
        → p ≢ s.document
        → P p
        → (((s.nodes p).parent != null) ≡ true) ⊎ (((s.nodes p).parent != null) ≡ false)
        → ((s.nodes p).parent ≡ null) ⊎ P (s.nodes p).parent
    above p ne nd h (inl some_above) = inr (up p ne nd (λ e. ground (arith, e, some_above)) h)
    above p ne nd h (inr top) = inl (ground arith)

    pub find_open-Holds :
        (n : ℕ) (p : Ptr) (name : Bytes)
        → (p ≡ null) ⊎ P p
        → Holds P (find_open same_name n s p name)
    unfolding find_open
    find_open-Holds zero p name h = tt
    find_open-Holds (suc n) p name h =
        if-Holds P ((p == null) || (p == s.document)) (some s.current_node) _ (λ e. here)
          (λ inside.
            let ne : p ≢ null = ground (arith, inside) in
            let nd : p ≢ s.document = ground (arith, inside) in
            let hp : P p = elim h [ inl e ↦ absurd (ne e) | inr x ↦ x ] in
            if-Holds P
              (dom_node_is_element s.nodes p && has_name same_name (s.nodes p).tag_name name) _
              (find_open same_name n s (s.nodes p).parent name)
              (λ e. found p ne nd hp (Bool-cases ((s.nodes p).parent != null)))
              (λ e.
                find_open-Holds n (s.nodes p).parent name
                  (above p ne nd hp (Bool-cases ((s.nodes p).parent != null)))))

  -- More fuel than the depth is enough for the walk to end.
  pub find_open-Below :
      (n : ℕ) (p : Ptr) (name : Bytes)
      → Below n s.nodes s.document p
      → is_some (find_open same_name (suc n) s p name) ≡ true
  unfolding find_open
  find_open-Below zero p name h = elim (Bool-cases ((p == null) || (p == s.document))) [
    | inl stop ↦ rw stop refl
    | inr on ↦ absurd (ground (arith, h, on))
  ]
  find_open-Below (suc n) p name h = elim (Bool-cases ((p == null) || (p == s.document))) [
    | inl stop ↦ rw stop refl
    | inr on ↦ rw on (elim h [
      | inl ends ↦ absurd (ground (arith, ends, on))
      | inr (ne, rest) ↦
          some_or (dom_node_is_element s.nodes p && has_name same_name (s.nodes p).tag_name name) _
            _ (find_open-Below n (s.nodes p).parent name rest)
    ])
  ]

pub Below-suc :
    (n : ℕ) (nodes : Nodes) (document p : Ptr)
    → Below n nodes document p
    → Below (suc n) nodes document p
Below-suc zero nodes document p h = inl h
Below-suc (suc n) nodes document p (inl ends) = inl ends
Below-suc (suc n) nodes document p (inr (ne, rest)) =
    inr (ne, Below-suc n nodes document (nodes p).parent rest)

-- The parent of a node that is not an end is not deeper.
pub Below-parent :
    (n : ℕ) (nodes : Nodes) (document p : Ptr)
    → p ≢ null
    → p ≢ document
    → Below n nodes document p
    → Below n nodes document (nodes p).parent
Below-parent zero nodes document p ne nd h = absurd (nd h)
Below-parent (suc n) nodes document p ne nd (inl ends) = absurd (nd ends)
Below-parent (suc n) nodes document p ne nd (inr (above, rest)) =
    Below-suc n nodes document (nodes p).parent rest
