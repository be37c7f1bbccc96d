-- ===== src/Html/Dom/Contents.antt =====
-- Attributes, classes and text content: what is set is read back, and nothing else changes.
use prismatic_os.Base.{
  zero, suc, ◌≡◌, refl, sym, ap, ◌∙◌, ◌≢◌, inl, inr, Bool, true, false, ◌&&◌, ◌||◌, Option, some,
  List, [], ◌∷◌, ◌++◌, arith, ◌==◌, if◌then◌else◌, eq_refl, eq_false_of_ne, Bool-cases, Bytes,
}
use mathlib.Core.Bool.{false≢true}
use prismatic_os.Base.Int.{ℤ, pos, negsuc}
use prismatic_os.Base.Linked.{null}
use prismatic_os.Libc.Str.{strcmp}
use prismatic_os.Libc.Str.Order.{NoNul}
use prismatic_os.Libc.Str.Order.{strcmp-eq, strcmp_self}
use prismatic_os.Libc.Str.Search.{All}
use prismatic_os.Html.Token.{Attr}
use prismatic_os.Html.Dom.{
  Ptr, Nodes, update, is_zero, same_string, set_attr, find_attr, has_class, is_text_type,
  dom_node_set_attribute, dom_node_get_attribute, dom_node_add_class, dom_node_has_class,
  dom_node_set_text_content, dom_node_get_text_content,
}

pub same_string→≡ : (s t : Bytes) → NoNul s → NoNul t → same_string s t ≡ true → s ≡ t
unfolding same_string
same_string→≡ s t hs ht e = strcmp-eq s t hs ht (zero_of (strcmp s t) e)
  where
    zero_of : (z : ℤ) → is_zero z ≡ true → z ≡ pos 0
    zero_of (pos zero) e = refl
    zero_of (pos (suc n)) e = absurd (ground arith)
    zero_of (negsuc n) e = absurd (ground arith)

pub same_string_self : (s : Bytes) → same_string s s ≡ true
unfolding same_string
same_string_self s = rw (strcmp_self s) refl

abbrev pub HasNames : List Attr → Type 0
HasNames attrs = All (λ a. NoNul a.name) attrs

-- Three strings: equal to the same one.
same_string_same :
    (s t u : Bytes) → NoNul s → NoNul t → same_string s t ≡ true → same_string s u ≡ same_string t u
same_string_same s t u hs ht e = ap (λ z. same_string z u) (same_string→≡ s t hs ht e)

find_attr-set_attr :
    (attrs : List Attr) (name other : Bytes) (value : Option Bytes)
    → HasNames attrs
    → NoNul name
    → NoNul other
    → find_attr (set_attr attrs name value) other
      ≡ (if same_string name other then value else find_attr attrs other)
unfolding find_attr set_attr
find_attr-set_attr [] name other value h hn ho = refl
find_attr-set_attr (a ∷ attrs) name other value (ha, h) hn ho =
    elim (Bool-cases (same_string a.name name)) [
      | inl here ↦
          rw (here, same_string_same a.name name other ha hn here)
            (same_again (same_string name other))
      | inr there ↦
          rw (there, find_attr-set_attr attrs name other value h hn ho)
            (swap (same_string a.name other) (same_string name other) (both there))
    ]
  where
    both :
        same_string a.name name ≡ false
        → (same_string a.name other && same_string name other) ≡ false
    both there = elim (Bool-cases (same_string a.name other)) [
      | inr differs ↦ rw differs refl
      | inl same ↦ elim (Bool-cases (same_string name other)) [
        | inr differs ↦ ground (arith, differs)
        | inl also ↦ absurd (
            false≢true
              (sym there ∙ (ap (same_string a.name) (same_string→≡ name other hn ho also) ∙ same)))
      ]
    ]

    same_again :
        (b : Bool)
        → (if b then value else find_attr attrs other)
          ≡ (if b then value else if b then a.value else find_attr attrs other)
    same_again true = refl
    same_again false = refl

    swap :
        (b d : Bool)
        → (b && d) ≡ false
        → (if b then a.value else if d then value else find_attr attrs other)
          ≡ (if d then value else if b then a.value else find_attr attrs other)
    swap true true e = absurd (false≢true (sym e))
    swap true false e = refl
    swap false d e = refl

-- What dom_node_set_attribute sets, dom_node_get_attribute reads: the new value under that name of
-- that node, which is not NULL, and under every other name, or of every other node, what was there.
-- Names have no NUL.
pub dom_node_get_attribute-dom_node_set_attribute :
    (nodes : Nodes) (p q : Ptr) (name other : Bytes) (value : Option Bytes)
    → p ≢ null
    → HasNames (nodes p).attrs
    → NoNul name
    → NoNul other
    → dom_node_get_attribute (dom_node_set_attribute nodes p (some name) value) q (some other) ≡ (
        if (q == p) && same_string name other
        then value
        else dom_node_get_attribute nodes q (some other))
unfolding dom_node_get_attribute dom_node_set_attribute update
dom_node_get_attribute-dom_node_set_attribute nodes p q name other value nep h hn ho =
    let found = find_attr-set_attr (nodes p).attrs name other value h hn ho in
    elim (Bool-cases (q == p)) [
      | inl here ↦
          let e : q ≡ p = ground arith in rw (e, eq_false_of_ne p null nep, eq_refl p) found
      | inr there ↦ rw (eq_false_of_ne p null nep, there) refl
    ]

has_class-append :
    (classes : List Bytes) (name other : Bytes)
    → has_class (classes ++ (name ∷ [])) other ≡ (same_string name other || has_class classes other)
unfolding has_class
has_class-append [] name other = refl
has_class-append (c ∷ classes) name other = ground (arith, has_class-append classes name other)

has_class_same :
    (classes : List Bytes) (name other : Bytes)
    → NoNul name
    → NoNul other
    → has_class classes name ≡ true
    → same_string name other ≡ true
    → has_class classes other ≡ true
unfolding has_class
has_class_same classes name other hn ho h e =
    ap (has_class classes) (sym (same_string→≡ name other hn ho e)) ∙ h

-- A class that dom_node_add_class adds is there, and every other class, and those of every other
-- node, are there as before. Class names have no NUL.
pub dom_node_has_class-dom_node_add_class :
    (nodes : Nodes) (p q : Ptr) (name other : Bytes)
    → p ≢ null
    → NoNul name
    → NoNul other
    → dom_node_has_class (dom_node_add_class nodes p (some name)) q (some other)
      ≡ (((q == p) && same_string name other) || dom_node_has_class nodes q (some other))
unfolding dom_node_has_class dom_node_add_class update
dom_node_has_class-dom_node_add_class nodes p q name other nep hn ho = elim (Bool-cases (q == p)) [
  | inr there ↦ elim (Bool-cases (has_class (nodes p).class_names name)) [
    | inl already ↦ rw (eq_false_of_ne p null nep, already, there) refl
    | inr new ↦ rw (eq_false_of_ne p null nep, new, there) refl
  ]
  | inl here ↦
      let e : q ≡ p = ground arith in
      elim (Bool-cases (has_class (nodes p).class_names name)) [
        | inl already ↦
            rw (e, eq_false_of_ne p null nep, already, eq_refl p)
              (absorb (same_string name other) (has_class (nodes p).class_names other)
                (has_class_same (nodes p).class_names name other hn ho already))
        | inr new ↦
            rw (e, eq_false_of_ne p null nep, new, eq_refl p)
              (has_class-append (nodes p).class_names name other)
      ]
]
  where
    absorb : (b d : Bool) → (b ≡ true → d ≡ true) → d ≡ (b || d)
    absorb true d h = h refl
    absorb false d h = refl

-- The text content that is set is read back, whatever the type of the node.
pub dom_node_get_text_content-dom_node_set_text_content :
    (nodes : Nodes) (p q : Ptr) (text : Option Bytes)
    → p ≢ null
    → dom_node_get_text_content (dom_node_set_text_content nodes p text) q
      ≡ (if q == p then text else dom_node_get_text_content nodes q)
unfolding dom_node_get_text_content dom_node_set_text_content update
dom_node_get_text_content-dom_node_set_text_content nodes p q text nep =
    elim (Bool-cases (q == p)) [
      | inr there ↦ rw (eq_false_of_ne p null nep, there) refl
      | inl here ↦
          let e : q ≡ p = ground arith in
          elim (Bool-cases (is_text_type (nodes p).type)) [
            | inl is_text ↦ rw (e, eq_false_of_ne p null nep, is_text, eq_refl p) (rw is_text refl)
            | inr other ↦ rw (e, eq_false_of_ne p null nep, other, eq_refl p) (rw other refl)
          ]
    ]
