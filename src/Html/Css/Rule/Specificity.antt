-- ===== src/Html/Css/Rule/Specificity.antt =====
-- The specificity of a list of selectors, by counting.
use prismatic_os.Base.{ℕ, ◌+◌, ◌*◌, ◌%◌, ◌^◌, ◌<◌, ◌≡◌, refl, ◌∙◌, List, [], ◌∷◌, arith}
use prismatic_os.Html.Css.Rule.{
  SelectorType, element_selector, id_selector, class_selector, attribute_selector,
  pseudo_class_selector, pseudo_element_selector, universal_selector, Selector, specificity_of,
  specificity_from, css_selector_calculate_specificity,
}

-- How much a selector counts as an identifier, as a class and as an element.
abbrev pub is_id : SelectorType → ℕ
is_id id_selector = 1
is_id _ = 0

abbrev pub is_class : SelectorType → ℕ
is_class class_selector = 1
is_class attribute_selector = 1
is_class pseudo_class_selector = 1
is_class _ = 0

abbrev pub is_element : SelectorType → ℕ
is_element element_selector = 1
is_element pseudo_element_selector = 1
is_element _ = 0

abbrev pub count : (SelectorType → ℕ) → List Selector → ℕ
count f [] = 0
count f (s ∷ ss) = f s.type + count f ss

abbrev total : List Selector → ℕ
total ss = 1000 * count is_id ss + 100 * count is_class ss + 10 * count is_element ss

specificity_of_lem :
    (t : SelectorType) → specificity_of t ≡ 1000 * is_id t + 100 * is_class t + 10 * is_element t
specificity_of_lem element_selector = refl
specificity_of_lem id_selector = refl
specificity_of_lem class_selector = refl
specificity_of_lem attribute_selector = refl
specificity_of_lem pseudo_class_selector = refl
specificity_of_lem pseudo_element_selector = refl
specificity_of_lem universal_selector = refl

specificity_from_lem :
    (ss : List Selector) (n : ℕ) → specificity_from n ss % 2 ^ 32 ≡ (n + total ss) % 2 ^ 32
unfolding specificity_from
specificity_from_lem [] n = omega arith
specificity_from_lem (s ∷ ss) n =
    specificity_from_lem ss ((n + specificity_of s.type) % 2 ^ 32)
    ∙ omega (arith, specificity_of_lem s.type)

specificity-lt : (ss : List Selector) (n : ℕ) → n < 2 ^ 32 → specificity_from n ss < 2 ^ 32
unfolding specificity_from
specificity-lt [] n h = h
specificity-lt (s ∷ ss) n h = specificity-lt ss ((n + specificity_of s.type) % 2 ^ 32) (omega arith)

-- The specificity is 1000 for each identifier, 100 for each class, attribute and pseudo-class, and 10
-- for each element and pseudo-element, modulo 2 ^ 32.
pub css_selector_calculate_specificity_lem :
    (ss : List Selector)
    → css_selector_calculate_specificity ss
      ≡ (1000 * count is_id ss + 100 * count is_class ss + 10 * count is_element ss) % 2 ^ 32
unfolding css_selector_calculate_specificity
css_selector_calculate_specificity_lem ss =
    omega (arith, specificity_from_lem ss 0, specificity-lt ss 0 (omega arith))
