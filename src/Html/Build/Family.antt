-- ===== src/Html/Build/Family.antt =====
-- The nodes that the tokens build are linked as parents and children at every step.
use prismatic_os.Base.{
  ℕ, suc, ◌+◌, ◌≡◌, refl, ◌∙◌, ◌≢◌, ◌⊎◌, inl, inr, Bool, true, false, not, ◌&&◌, ◌||◌, some, List,
  [], ◌∷◌, arith, ◌==◌, if◌then◌else◌, Bool-cases, is_some, Bytes, length,
}
use mathlib.Core.Path.{subst}
use prismatic_os.Base.Linked.{null}
use prismatic_os.Html.Token.{Token, TokenType, doctype, start_tag, end_tag, comment, text}
use prismatic_os.Html.Dom.{Ptr, Node, Nodes, update, dom_node_append_child}
use prismatic_os.Html.Dom.Family.{IsFamily}
use prismatic_os.Html.Dom.Shape.{
  dom_element_create-update, dom_text_create-update, element_of, text_of, create-IsFamily,
  SameShape, SameShape-IsFamily,
}
use prismatic_os.Html.Build.{
  html_name, head_name, body_name, script_name, style_name, Parser, make_element,
  html_is_void_element, enter_special, leave_special, html_handle_start_tag, find_open, move_to,
  html_handle_end_tag, html_handle_text, handle_type, html_build_dom_tree,
}
use prismatic_os.Html.Build.Pointers.{make_element-SameShape}
use prismatic_os.Html.Build.Open.{Below-suc, find_open-Below}
use prismatic_os.Html.Build.Place.{
  IsFresh, IsBuilding, IsBuilding-later, place, find_open_lem, after_end,
}

-- The nodes and the current node are the same.
pub record Keeps (s t : Parser) : Type 0 where
  pub nodes : t.nodes ≡ s.nodes
  pub current_node : t.current_node ≡ s.current_node
  pub document : t.document ≡ s.document

module _ (same_name : Bytes → Bytes → Bool) (malloc : ℕ → Ptr) (fresh : IsFresh malloc) where
  pub enter_special_lem :
      (s : Parser) (p : Ptr) (name : Bytes) → Keeps s (enter_special same_name s p name)
  unfolding enter_special
  enter_special_lem s p name = elim (Bool-cases (same_name name html_name)) [
    | inl here ↦ rw here (record { nodes = refl; current_node = refl; document = refl })
    | inr other ↦ rw other (elim (Bool-cases (same_name name head_name)) [
      | inl here ↦ rw here (record { nodes = refl; current_node = refl; document = refl })
      | inr other ↦ rw other (elim (Bool-cases (same_name name body_name)) [
        | inl here ↦ rw here (record { nodes = refl; current_node = refl; document = refl })
        | inr other ↦ rw other (elim (Bool-cases (same_name name script_name)) [
          | inl here ↦ rw here (record { nodes = refl; current_node = refl; document = refl })
          | inr other ↦ rw other (elim (Bool-cases (same_name name style_name)) [
            | inl here ↦ rw here (record { nodes = refl; current_node = refl; document = refl })
            | inr other ↦ rw other ((record { nodes = refl; current_node = refl; document = refl }))
          ])
        ])
      ])
    ])
  ]

  pub leave_special_lem : (s : Parser) (name : Bytes) → Keeps s (leave_special same_name s name)
  unfolding leave_special
  leave_special_lem s name = elim (Bool-cases (same_name name head_name)) [
    | inl here ↦ rw here (record { nodes = refl; current_node = refl; document = refl })
    | inr other ↦ rw other (elim (Bool-cases (same_name name body_name)) [
      | inl here ↦ rw here (record { nodes = refl; current_node = refl; document = refl })
      | inr other ↦ rw other (elim (Bool-cases (same_name name script_name)) [
        | inl here ↦ rw here (record { nodes = refl; current_node = refl; document = refl })
        | inr other ↦ rw other (elim (Bool-cases (same_name name style_name)) [
          | inl here ↦ rw here (record { nodes = refl; current_node = refl; document = refl })
          | inr other ↦ rw other ((record { nodes = refl; current_node = refl; document = refl }))
        ])
      ])
    ])
  ]

  pub update-parent :
      (nodes : Nodes) (p : Ptr) (y : Node)
      → y.parent ≡ null
      → (a : Ptr) → (update nodes p y a).parent ≡ (if a == p then null else (nodes a).parent)
  unfolding update
  update-parent nodes p y e a = elim (Bool-cases (a == p)) [
    | inl here ↦ rw here e
    | inr there ↦ rw there refl
  ]

  IsBuilding-cong :
      (k : ℕ) (s t : Parser)
      → Keeps s t
      → IsBuilding malloc s.document k s.nodes s.current_node
      → IsBuilding malloc t.document k t.nodes t.current_node
  IsBuilding-cong k s t same b = rw (same.nodes, same.current_node, same.document) b

  -- A start tag whose element has an address.
  module _ (k : ℕ) (s : Parser) (token : Token)
      (b : IsBuilding malloc s.document k s.nodes s.current_node) (ne : malloc k ≢ null) where
    abbrev pub made : Nodes
    made = make_element s.nodes (malloc k) token

    abbrev pub created : Nodes
    created = update s.nodes (malloc k) (element_of (some token.tag_name))

    pub shape : SameShape created made
    shape =
        subst (λ z. SameShape z made)
          (dom_element_create-update s.nodes (malloc k) (some token.tag_name) ne)
          (make_element-SameShape s.nodes (malloc k) token)

    pub made-IsFamily : IsFamily made b.children
    made-IsFamily = SameShape-IsFamily created made b.children shape (
        create-IsFamily s.nodes b.children (malloc k) (element_of (some token.tag_name)) ne
          (b.ahead k (omega arith) ne).1 (refl, refl, refl, refl, refl) b.family)

    pub made_parent :
        (a : Ptr) → (made a).parent ≡ (if a == malloc k then null else (s.nodes a).parent)
    made_parent a =
        shape.parent a ∙ update-parent s.nodes (malloc k) (element_of (some token.tag_name)) refl a

    element_lem :
        (next : Ptr)
        → (next ≡ s.current_node) ⊎ (next ≡ malloc k)
        → IsBuilding malloc s.document
            (suc k)
            (dom_node_append_child made s.current_node (malloc k))
            next
    element_lem next which =
        place malloc fresh s.document k s.nodes s.current_node b ne made made_parent made-IsFamily
          next which

    abbrev pub specials : Parser
    specials =
        enter_special same_name
          (record s { nodes = dom_node_append_child made s.current_node (malloc k) }) (malloc k)
          token.tag_name

    entered :
        (test : Bool)
        → let t = if test then record specials { current_node = malloc k } else specials in
          IsBuilding malloc t.document (suc k) t.nodes t.current_node
    entered test =
        let kept =
          enter_special_lem
            (record s { nodes = dom_node_append_child made s.current_node (malloc k) }) (malloc k)
            token.tag_name in
        by_test test kept.nodes kept.current_node kept.document
      where
        by_test :
            (test : Bool)
            → specials.nodes ≡ dom_node_append_child made s.current_node (malloc k)
            → specials.current_node ≡ s.current_node
            → specials.document ≡ s.document
            → let t = if test then record specials { current_node = malloc k } else specials in
              IsBuilding malloc t.document (suc k) t.nodes t.current_node
        by_test true nodes current document =
            rw (nodes, document) (element_lem (malloc k) (inr refl))
        by_test false nodes current document =
            rw (nodes, document) (element_lem specials.current_node (inl current))

  start_tag_lem :
      (k : ℕ) (s : Parser) (token : Token)
      → IsBuilding malloc s.document k s.nodes s.current_node
      → let t = html_handle_start_tag same_name s (malloc k) token in
        IsBuilding malloc t.document (suc k) t.nodes t.current_node
  unfolding html_handle_start_tag
  start_tag_lem k s token b = elim (Bool-cases (malloc k == null)) [
    | inl failed ↦ rw failed (IsBuilding-later malloc fresh s.document k s.nodes s.current_node b)
    | inr given ↦ rw given (
        entered k s token b (λ e. ground (arith, e, given))
          (not token.self_closing && not (html_is_void_element same_name token.tag_name)))
  ]

  end_tag_lem :
      (n k : ℕ) (s : Parser) (token : Token)
      → IsBuilding malloc s.document k s.nodes s.current_node
      → let t = html_handle_end_tag same_name n s token in
        IsBuilding malloc t.document (suc k) t.nodes t.current_node
  unfolding html_handle_end_tag
  end_tag_lem n k s token b =
      let next = find_open same_name n s s.current_node token.tag_name in
      let moved =
        after_end malloc same_name k s b next
          (find_open_lem malloc same_name k s b n token.tag_name) in
      let t = leave_special same_name (move_to s next) token.tag_name in
      IsBuilding-later malloc fresh t.document k t.nodes t.current_node (
        IsBuilding-cong k (move_to s next) t (leave_special_lem (move_to s next) token.tag_name)
          moved)

  text_lem :
      (k : ℕ) (s : Parser) (token : Token)
      → IsBuilding malloc s.document k s.nodes s.current_node
      → let t = html_handle_text s (malloc k) token in
        IsBuilding malloc t.document (suc k) t.nodes t.current_node
  unfolding html_handle_text
  text_lem k s token b = elim (Bool-cases ((length token.content == 0) || (malloc k == null))) [
    | inl skipped ↦ rw skipped (IsBuilding-later malloc fresh s.document k s.nodes s.current_node b)
    | inr given ↦
        let ne : malloc k ≢ null = λ e. ground (arith, e, given) in
        let y = text_of (some token.content) in
        let e = dom_text_create-update s.nodes (malloc k) (some token.content) ne in
        rw (given, e)
          (place malloc fresh s.document k s.nodes s.current_node b ne (update s.nodes (malloc k) y)
            (update-parent s.nodes (malloc k) y refl)
            (create-IsFamily s.nodes b.children (malloc k) y ne (b.ahead k (omega arith) ne).1
              (refl, refl, refl, refl, refl) b.family)
            s.current_node (inl refl))
  ]

  handle_lem :
      (type : TokenType) (k : ℕ) (s : Parser) (token : Token)
      → IsBuilding malloc s.document k s.nodes s.current_node
      → let t = handle_type same_name malloc type k s token in
        IsBuilding malloc t.document (suc k) t.nodes t.current_node
  handle_lem start_tag k s token b = start_tag_lem k s token b
  handle_lem end_tag k s token b = end_tag_lem (k + 2) k s token b
  handle_lem text k s token b = text_lem k s token b
  handle_lem comment k s token b =
      IsBuilding-later malloc fresh s.document k s.nodes s.current_node b
  handle_lem doctype k s token b =
      IsBuilding-later malloc fresh s.document k s.nodes s.current_node b

  -- Whatever the tokens are, matched or not, every node keeps its list of children, linked both ways,
  -- the parser stands at a node of the tree, never at NULL, and the addresses of the tokens to come are
  -- free. The addresses that malloc gives are different, and it may fail.
  pub html_build_dom_tree-IsBuilding :
      (tokens : List Token) (k : ℕ) (s : Parser)
      → IsBuilding malloc s.document k s.nodes s.current_node
      → let t = html_build_dom_tree same_name malloc k s tokens in
        IsBuilding malloc t.document (k + length tokens) t.nodes t.current_node
  unfolding html_build_dom_tree
  html_build_dom_tree-IsBuilding [] k s b =
      let e : k ≡ k + 0 = omega arith in
      subst (λ m. IsBuilding malloc s.document m s.nodes s.current_node) e b
  html_build_dom_tree-IsBuilding (token ∷ tokens) k s b =
      let more =
        html_build_dom_tree-IsBuilding tokens (suc k)
          (handle_type same_name malloc token.type k s token) (handle_lem token.type k s token b) in
      let t = html_build_dom_tree same_name malloc k s (token ∷ tokens) in
      let e : suc k + length tokens ≡ k + length (token ∷ tokens) = omega arith in
      subst (λ m. IsBuilding malloc t.document m t.nodes t.current_node) e more

  -- The walk of an end tag ends, after any tokens, from a parser that stands at its document among nodes
  -- that are linked as parents and children: the fuel that the model gives it, two more than the number
  -- of tokens before, is enough, so that it finds the new current node. The addresses that malloc gives
  -- are different and free.
  pub find_open-enough :
      (tokens : List Token) (s : Parser) (name : Bytes)
      → IsBuilding malloc s.document 0 s.nodes s.current_node
      → let t = html_build_dom_tree same_name malloc 0 s tokens in
        is_some (find_open same_name (length tokens + 2) t t.current_node name) ≡ true
  find_open-enough tokens s name b =
      let t = html_build_dom_tree same_name malloc 0 s tokens in
      let built = html_build_dom_tree-IsBuilding tokens 0 s b in
      let deep = Below-suc (0 + length tokens) t.nodes t.document t.current_node built.depth in
      let e : suc (suc (0 + length tokens)) ≡ length tokens + 2 = omega arith in
      subst (λ m. is_some (find_open same_name m t t.current_node name) ≡ true) e
        (find_open-Below same_name t (suc (0 + length tokens)) t.current_node name deep)
