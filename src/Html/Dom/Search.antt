-- ===== src/Html/Dom/Search.antt =====
-- dom_document_get_element_by_id of html/src/dom/dom.c.
use prismatic_os.Base.{
  ℕ, zero, suc, ◌≡◌, refl, ◌≢◌, inl, inr, Bool, true, false, ◌&&◌, Option, none, some, arith, ◌==◌,
  ◌!=◌, if◌then◌else◌, Bool-cases, Bytes,
}
use prismatic_os.Base.Linked.{null}
use prismatic_os.Html.Dom.{Ptr, Nodes, same_string, dom_node_is_element}

abbrev has_id : Option Bytes → Bytes → Bool
has_id none id = false
has_id (some own) id = same_string own id

-- Fuel is needed for the depth and for the number of children.
unfoldable mutual
  pub get_element_by_id_recursive : ℕ → Nodes → Ptr → Bytes → Ptr
  get_element_by_id_recursive zero nodes p id = null
  get_element_by_id_recursive (suc n) nodes p id =
      let below = get_element_among n nodes (nodes p).first_child id in
      if p == null
      then null
      else if dom_node_is_element nodes p && has_id (nodes p).id id
      then p
      else below

  -- The loop over the children, from the one at `child` on.
  pub get_element_among : ℕ → Nodes → Ptr → Bytes → Ptr
  get_element_among zero nodes child id = null
  get_element_among (suc n) nodes child id =
      let result = get_element_by_id_recursive n nodes child id in
      let more = get_element_among n nodes (nodes child).next_sibling id in
      if child == null then null else if result != null then result else more

pub dom_document_get_element_by_id : ℕ → Nodes → Ptr → Option Bytes → Ptr
dom_document_get_element_by_id n nodes document none = null
dom_document_get_element_by_id n nodes document (some id) =
    if document == null
    then null
    else get_element_by_id_recursive n nodes (nodes document).first_child id

-- NULL, or an element with that identifier.
abbrev pub IsFound : Nodes → Bytes → Ptr → Type 0
IsFound nodes id p =
    (p ≢ null) → (dom_node_is_element nodes p ≡ true) × (has_id (nodes p).id id ≡ true)

search_lem :
    (n : ℕ) (nodes : Nodes) (id : Bytes)
    → ((p : Ptr) → IsFound nodes id (get_element_by_id_recursive n nodes p id))
      × ((child : Ptr) → IsFound nodes id (get_element_among n nodes child id))
unfolding get_element_by_id_recursive
search_lem zero nodes id = (λ p ne. absurd (ne refl), λ child ne. absurd (ne refl))
search_lem (suc n) nodes id =
    let (own, among) = search_lem n nodes id in
    (
      λ p. elim (Bool-cases (p == null)) [
        | inl e ↦ rw e (λ ne. absurd (ne refl))
        | inr e ↦ elim (Bool-cases (dom_node_is_element nodes p && has_id (nodes p).id id)) [
          | inl found ↦ rw (e, found) (λ ne. (ground (arith, found), ground (arith, found)))
          | inr other ↦ rw (e, other) (among (nodes p).first_child)
        ]
      ],
      λ child. elim (Bool-cases (child == null)) [
        | inl e ↦ rw e (λ ne. absurd (ne refl))
        | inr e ↦ elim (Bool-cases (get_element_by_id_recursive n nodes child id != null)) [
          | inl found ↦ rw (e, found) (own child)
          | inr other ↦ rw (e, other) (among (nodes child).next_sibling)
        ]
      ],
    )

-- What dom_document_get_element_by_id finds is an element with that identifier.
pub dom_document_get_element_by_id-IsFound :
    (n : ℕ) (nodes : Nodes) (document : Ptr) (id : Bytes)
    → IsFound nodes id (dom_document_get_element_by_id n nodes document (some id))
unfolding dom_document_get_element_by_id
dom_document_get_element_by_id-IsFound n nodes document id = elim (Bool-cases (document == null)) [
  | inl e ↦ rw e (λ ne. absurd (ne refl))
  | inr e ↦ rw e ((search_lem n nodes id).0 (nodes document).first_child)
]

among_null : (n : ℕ) (nodes : Nodes) (id : Bytes) → get_element_among n nodes null id ≡ null
unfolding get_element_by_id_recursive
among_null zero nodes id = refl
among_null (suc n) nodes id = refl

-- The search goes down from the first child of the document only: where that has no children and is
-- not the element looked for, nothing is found, whatever stands beside it.
pub dom_document_get_element_by_id_leaf :
    (n : ℕ) (nodes : Nodes) (document : Ptr) (id : Bytes)
    → (nodes (nodes document).first_child).first_child ≡ null
    → (dom_node_is_element nodes (nodes document).first_child
        && has_id (nodes (nodes document).first_child).id id)
      ≡ false
    → dom_document_get_element_by_id n nodes document (some id) ≡ null
unfolding dom_document_get_element_by_id get_element_by_id_recursive
dom_document_get_element_by_id_leaf zero nodes document id leaf other = ground arith
dom_document_get_element_by_id_leaf (suc n) nodes document id leaf other =
    rw (other, leaf, among_null n nodes id) (ground arith)
