-- ===== src/Html/Css/Rule.antt =====
-- The rules of html/include/css/css.h and their operations in html/src/css/css_parser.c. The lists of
-- rules, selectors and declarations, linked through `next`, are lists with the newest element first.
-- css_declaration_create is not in the repository: it is a parameter, none where it returns NULL.
pub mod Specificity
use prismatic_os.Base.{
  ℕ, ◌+◌, ◌%◌, ◌^◌, ◌≡◌, refl, Bool, true, false, Option, none, some, List, [], ◌∷◌, Bytes,
}
use prismatic_os.Html.Css.Token.{
  CssToken, ident, at_keyword, hash, colon, semicolon, left_brace, right_brace,
}

pub data SelectorType : Type 0 where
  element_selector id_selector class_selector attribute_selector : SelectorType
  pseudo_class_selector pseudo_element_selector universal_selector : SelectorType

-- The other fields of a selector are NULL or zero from css_selector_create on.
pub record Selector : Type 0 where
  pub type : SelectorType
  pub value : Option Bytes

abbrev pub css_selector_create : SelectorType → Option Bytes → Selector
css_selector_create type value = record { type = type; value = value }

-- A declaration's value is a css_value_t of the type CSS_VALUE_STRING: its string.
pub record Declaration : Type 0 where
  pub property : Option Bytes
  pub value : Option Bytes
  pub important : Bool

pub record Rule : Type 0 where
  pub selectors : List Selector
  pub declarations : List Declaration
  pub specificity : ℕ

abbrev specificity_of : SelectorType → ℕ
specificity_of id_selector = 1000
specificity_of class_selector = 100
specificity_of attribute_selector = 100
specificity_of pseudo_class_selector = 100
specificity_of element_selector = 10
specificity_of pseudo_element_selector = 10
specificity_of universal_selector = 0

-- The loop, from a sum on.
specificity_from : ℕ → List Selector → ℕ
specificity_from specificity [] = specificity
specificity_from specificity (s ∷ ss) =
    specificity_from ((specificity + specificity_of s.type) % 2 ^ 32) ss

pub css_selector_calculate_specificity : List Selector → ℕ
unfolding specificity_from
css_selector_calculate_specificity ss = specificity_from 0 ss

unfoldable pub css_rule_create : List Selector → Rule
unfolding css_selector_calculate_specificity
css_rule_create selectors = record {
  selectors = selectors;
  declarations = [];
  specificity = css_selector_calculate_specificity selectors;
}

abbrev pub css_rule_add_declaration : Rule → Declaration → Rule
css_rule_add_declaration rule d = record rule { declarations = d ∷ rule.declarations }

abbrev pub css_stylesheet_add_rule : List Rule → Rule → List Rule
css_stylesheet_add_rule sheet rule = rule ∷ sheet

abbrev pub add_selector : Rule → Selector → Rule
add_selector rule s = record rule { selectors = s ∷ rule.selectors }

-- The rule that css_parse_style_rule begins with.
unfoldable pub begin_rule : CssToken → Rule
begin_rule t = add_selector (css_rule_create []) (css_selector_create element_selector t.value)

abbrev pub is_at_keyword : CssToken → Bool
is_at_keyword t = elim t.type [ at_keyword ↦ true | _ ↦ false ]

abbrev pub is_selector : CssToken → Bool
is_selector t = elim t.type [ ident ↦ true | hash ↦ true | _ ↦ false ]

abbrev pub is_ident : CssToken → Bool
is_ident t = elim t.type [ ident ↦ true | _ ↦ false ]

abbrev pub is_colon : CssToken → Bool
is_colon t = elim t.type [ colon ↦ true | _ ↦ false ]

abbrev pub is_semicolon : CssToken → Bool
is_semicolon t = elim t.type [ semicolon ↦ true | _ ↦ false ]

abbrev pub is_open : CssToken → Bool
is_open t = elim t.type [ left_brace ↦ true | _ ↦ false ]

abbrev pub is_close : CssToken → Bool
is_close t = elim t.type [ right_brace ↦ true | _ ↦ false ]

pub begin_rule_lem :
    (t : CssToken)
    → begin_rule t ≡ record {
      selectors = record { type = element_selector; value = t.value } ∷ [];
      declarations = [];
      specificity = 0;
    }
unfolding begin_rule css_rule_create css_selector_calculate_specificity specificity_from
begin_rule_lem t = refl

module _ (css_declaration_create : Option Declaration) where
  unfoldable pub declare : Rule → Option Bytes → Option Bytes → Rule
  declare rule (some property) (some value) = elim css_declaration_create [
    | none ↦ rule
    | some d ↦
        css_rule_add_declaration rule (record d { property = some property; value = some value })
  ]
  declare rule property value = rule
