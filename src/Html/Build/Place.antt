-- ===== src/Html/Build/Place.antt =====
-- What holds while the tree is built, and how it lasts when a node is put under the current one and
-- when the parser moves up.
use prismatic_os.Base.{
  ℕ, zero, suc, ◌≤◌, ◌≡◌, refl, sym, ap, ◌∙◌, ◌≢◌, ◌⊎◌, inl, inr, Bool, Option, none, some, List,
  arith, ◌==◌, if◌then◌else◌, eq_false_of_ne, Bytes,
}
use mathlib.Core.Bool.{false≢true}
use prismatic_os.Base.Linked.{null, has, erase}
use prismatic_os.Html.Dom.{Ptr, Nodes, dom_node_append_child}
use prismatic_os.Html.Dom.Siblings.{linked-parent}
use prismatic_os.Html.Dom.Family.{IsFamily}
use prismatic_os.Html.Dom.Append.{joined, dom_node_append_child-IsFamily, append_root}
use prismatic_os.Html.Dom.Shape.{IsFree}
use prismatic_os.Html.Build.Open.{Holds, find_open-Holds, Below, Below-suc, Below-parent}
use prismatic_os.Html.Build.{Parser, find_open, move_to}

-- The addresses that malloc gives for different tokens are different.
abbrev pub IsFresh : (ℕ → Ptr) → Type 0
IsFresh malloc = (i j : ℕ) → malloc i ≢ null → malloc i ≡ malloc j → i ≡ j

-- The nodes are linked as parents and children, the parser stands at a node whose parents lead to the
-- document in at most `k` steps, and what malloc gives from number `k` on is free.
pub record IsBuilding (malloc : ℕ → Ptr) (document : Ptr) (k : ℕ) (nodes : Nodes) (current : Ptr)
    : Type 0 where
  pub children : Ptr → List Ptr
  pub family : IsFamily nodes children
  pub at_node : current ≢ null
  pub ahead :
      (i : ℕ) → k ≤ i → malloc i ≢ null → (malloc i ≢ current) × IsFree nodes children (malloc i)
  pub depth : Below k nodes document current

module _ (malloc : ℕ → Ptr) (fresh : IsFresh malloc) (document : Ptr) where
  pub IsBuilding-later :
      (k : ℕ) (nodes : Nodes) (current : Ptr)
      → IsBuilding malloc document k nodes current
      → IsBuilding malloc document (suc k) nodes current
  IsBuilding-later k nodes current b = record {
    children = b.children;
    family = b.family;
    at_node = b.at_node;
    ahead = λ i h ne. b.ahead i (omega arith) ne;
    depth = Below-suc k nodes document current b.depth;
  }

  -- A new node, filled without moving pointers, is put under the current node.
  module _ (k : ℕ) (nodes : Nodes) (current : Ptr) (b : IsBuilding malloc document k nodes current)
      (ne : malloc k ≢ null) (made : Nodes)
      (same_parents : (a : Ptr)
        → (made a).parent ≡ (if a == malloc k then null else (nodes a).parent))
      (g : IsFamily made (b.children)) where
    abbrev placed : Nodes
    placed = dom_node_append_child made current (malloc k)

    root : (made (malloc k)).parent ≡ null
    root = ground (arith, same_parents (malloc k))

    other : (i : ℕ) → suc k ≤ i → malloc i ≢ null → malloc i ≢ malloc k
    other i h nei e = let same = fresh i k nei e in absurd (omega arith)

    placed-IsFree :
        (i : ℕ)
        → suc k ≤ i
        → malloc i ≢ null
        → IsFree placed
            (joined (λ q. erase (malloc k) (b.children q)) current (malloc k))
            (malloc i)
    placed-IsFree i h nei =
        let (away, (rootless, leaf)) = b.ahead i (omega arith) nei in
        let ne1 = eq_false_of_ne (malloc i) (malloc k) (other i h nei) in
        let ne2 = eq_false_of_ne (malloc i) current away in
        (
          rw (append_root made current (malloc k) (b.at_node) ne root) (
              ground
                (arith, linked-parent made current (malloc k) (malloc i), same_parents (malloc i))),
          rw (ne2, leaf) (unfold erase in refl),
        )

    parent_lem :
        (a : Ptr) → (placed a).parent ≡ (if a == malloc k then current else (nodes a).parent)
    parent_lem a =
        rw (append_root made current (malloc k) (b.at_node) ne root)
          (ground (arith, linked-parent made current (malloc k) a, same_parents a))

    -- No node has a free address as its parent.
    childless : (a : Ptr) → a ≢ null → (nodes a).parent ≢ malloc k
    childless a nea e =
        let leaf = (b.ahead k (omega arith) ne).1.1 in
        let inside = b.family.members a nea (λ z. ne (sym e ∙ z)) in
        false≢true (ap (has a) (sym leaf ∙ ap (b.children) (sym e)) ∙ inside)

    Below-placed :
        (n : ℕ) (a : Ptr) → a ≢ malloc k → Below n nodes document a → Below n placed document a
    Below-placed zero a away h = h
    Below-placed (suc n) a away (inl ends) = inl ends
    Below-placed (suc n) a away (inr (nea, rest)) =
        let same : (placed a).parent ≡ (nodes a).parent = ground (arith, parent_lem a) in
        inr (nea, rw same (Below-placed n (nodes a).parent (childless a nea) rest))

    at_current : Below k placed document current
    at_current = Below-placed k current (λ e. (b.ahead k (omega arith) ne).0 (sym e)) b.depth

    at_new : Below (suc k) placed document (malloc k)
    at_new =
        let e : (placed (malloc k)).parent ≡ current = ground (arith, parent_lem (malloc k)) in
        inr (ne, rw e at_current)

    next_depth :
        (next : Ptr) → (next ≡ current) ⊎ (next ≡ malloc k) → Below (suc k) placed document next
    next_depth next (inl e) = rw e (Below-suc k placed document current at_current)
    next_depth next (inr e) = rw e at_new

    pub place :
        (next : Ptr)
        → (next ≡ current) ⊎ (next ≡ malloc k)
        → IsBuilding malloc document (suc k) placed next
    place next which = record {
      children = joined (λ q. erase (malloc k) (b.children q)) current (malloc k);
      family = dom_node_append_child-IsFamily made b.children current (malloc k) b.at_node ne g;
      at_node = elim which [ inl e ↦ λ z. b.at_node (sym e ∙ z) | inr e ↦ λ z. ne (sym e ∙ z) ];
      ahead = λ i h nei. (
        elim which [
          | inl e ↦ λ z. (b.ahead i (omega arith) nei).0 (z ∙ e)
          | inr e ↦ λ z. other i h nei (z ∙ e)
        ],
        placed-IsFree i h nei,
      );
      depth = next_depth next which;
    }

-- Where the end tag leads is no free address.
module _ (malloc : ℕ → Ptr) (same_name : Bytes → Bytes → Bool) (k : ℕ) (s : Parser)
    (b : IsBuilding malloc s.document k s.nodes s.current_node) where
  abbrev pub IsPlace : Ptr → Type 0
  IsPlace p =
      (p ≢ null) × Below k s.nodes s.document p × ((i : ℕ) → k ≤ i → malloc i ≢ null → malloc i ≢ p)

  above-IsPlace :
      (p : Ptr)
      → p ≢ null
      → p ≢ s.document
      → Below k s.nodes s.document p
      → (s.nodes p).parent ≢ null
      → IsPlace (s.nodes p).parent
  above-IsPlace p ne nd deep up = (
    up,
    Below-parent k s.nodes s.document p ne nd deep,
    λ i h nei e.
        let leaf = (b.ahead i h nei).1.1 in
        let inside = b.family.members p ne up in
        false≢true (ap (has p) (sym leaf ∙ ap (b.children) e) ∙ inside),
  )

  here : IsPlace s.current_node
  here = (b.at_node, b.depth, λ i h nei. (b.ahead i h nei).0)

  pub find_open_lem :
      (n : ℕ) (name : Bytes) → Holds IsPlace (find_open same_name n s s.current_node name)
  find_open_lem n name =
      find_open-Holds same_name s IsPlace here (λ p ne nd up h. above-IsPlace p ne nd h.1 up) n
        s.current_node name (inr here)

  pub after_end :
      (next : Option Ptr)
      → Holds IsPlace next
      → IsBuilding malloc
          (move_to s next).document
          k
          (move_to s next).nodes
          (move_to s next).current_node
  after_end none h = b
  after_end (some p) (ne, deep, away) = record {
    children = b.children;
    family = b.family;
    at_node = ne;
    ahead = λ i h nei. (away i h nei, (b.ahead i h nei).1);
    depth = deep;
  }
