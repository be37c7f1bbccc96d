-- ===== src/Html/Css/Machine.antt =====
-- The language that the CSS parser reads, as a machine that takes the tokens one at a time: a
-- description of css_parser_parse without calls, loops or positions.
use prismatic_os.Base.{ℕ, zero, suc, ◌||◌, Option, none, some, List, [], ◌∷◌, if◌then◌else◌, Bytes}
use prismatic_os.Html.Css.Token.{CssToken}
use prismatic_os.Html.Css.Rule.{
  Declaration, Rule, begin_rule, declare, is_at_keyword, is_selector, is_ident, is_colon,
  is_semicolon, is_open, is_close,
}
use prismatic_os.Html.Css.Parse.{join}

-- Between rules; in the head of an at-rule; in its block, with more braces open; behind the first
-- token of a rule; in a rule's block; behind a property's name; and in its value.
pub data State : Type 0 where
  outside prelude crashed : State
  block : (more : ℕ) → State
  selecting body : Rule → State
  named : Rule → (property : CssToken) → State
  valued : Rule → (property : CssToken) → Option Bytes → State

abbrev pub close_block : ℕ → State
close_block zero = outside
close_block (suc more) = block more

module _ (css_declaration_create : Option Declaration) where
  abbrev pub step : State → List Rule → CssToken → State × List Rule
  step outside sheet t = (
    if is_at_keyword t
        then prelude
        else if is_selector t
        then selecting (begin_rule t)
        else outside,
    sheet,
  )
  step prelude sheet t =
      (if is_open t then block 0 else if is_semicolon t then outside else prelude, sheet)
  step (block more) sheet t = (
    if is_open t then block (suc more) else if is_close t then close_block more else block more,
    sheet,
  )
  step (selecting rule) sheet t = (if is_open t then body rule else selecting rule, sheet)
  step (body rule) sheet t =
      if is_close t
      then (outside, rule ∷ sheet)
      else (if is_ident t then named rule t else body rule, sheet)
  step (named rule property) sheet t =
      (if is_colon t then valued rule property none else body rule, sheet)
  step (valued rule property value) sheet t = (
    if is_semicolon t || is_close t
        then body (declare css_declaration_create rule property.value value)
        else elim t.value [ none ↦ crashed | some w ↦ valued rule property (some (join value w)) ],
    sheet,
  )
  step crashed sheet t = (crashed, sheet)

  -- The end of the text.
  abbrev pub finish : State → List Rule → Option (List Rule)
  finish outside sheet = some sheet
  finish prelude sheet = some sheet
  finish (block more) sheet = some sheet
  finish (selecting rule) sheet = some sheet
  finish (body rule) sheet = some (rule ∷ sheet)
  finish (named rule property) sheet = some (rule ∷ sheet)
  finish (valued rule property value) sheet =
      some (declare css_declaration_create rule property.value value ∷ sheet)
  finish crashed sheet = none

  abbrev pub run : State → List Rule → List CssToken → Option (List Rule)
  run state sheet [] = finish state sheet
  run state sheet (t ∷ ts) = let (state', sheet') = step state sheet t in run state' sheet' ts
