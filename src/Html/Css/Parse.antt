-- ===== src/Html/Css/Parse.antt =====
-- The parser of html/src/css/css_parser.c. A parser function takes the text that is left and returns
-- what is left behind it. The answer `none` stands for a call of strdup or strlen on the NULL pointer
-- that punctuation has as its value. `brace_depth` counts without bound, so fewer than 2^31 braces
-- stand open. Every round of a loop takes a token, so one more than the length of the text is fuel
-- enough.
pub mod Lengths
pub mod Loops
pub mod Refinement
use prismatic_os.Base.{
  ℕ, zero, suc, ◌-◌, Bool, true, false, ◌&&◌, ◌||◌, Option, none, some, List, [], ◌∷◌, ◌++◌, ◌==◌,
  if◌then◌else◌, Bytes, length,
}
use prismatic_os.Html.Css.Token.{CssToken, css_next_token}
use prismatic_os.Html.Css.Rule.{
  Declaration, Rule, css_stylesheet_add_rule, begin_rule, declare, is_at_keyword, is_selector,
  is_ident, is_colon, is_semicolon, is_open, is_close,
}

-- The value so far, with the text of one more token.
abbrev pub join : Option Bytes → Bytes → Bytes
join none w = w
join (some v) w = v ++ (b' ' ∷ w)

module _ (same_prefix : Bytes → Bytes → ℕ → Bool) (number_or_ident : Bytes → CssToken × Bytes) where
  abbrev next : Bytes → Option CssToken × Bytes
  next s = css_next_token same_prefix number_or_ident s

  -- The `;` or `{` that ends the head of an at-rule.
  unfoldable skip_prelude : ℕ → Bytes → Option CssToken × Bytes
  skip_prelude zero s = (none, s)
  skip_prelude (suc n) s =
      let (token, rest) = next s in
      let later = skip_prelude n rest in
      elim token [
        | none ↦ (none, rest)
        | some t ↦ if is_semicolon t || is_open t then (some t, rest) else later
      ]

  unfoldable skip_block : ℕ → (brace_depth : ℕ) → Bytes → Bytes
  skip_block zero brace_depth s = s
  skip_block (suc n) brace_depth s =
      let (token, rest) = next s in
      elim token [
        | none ↦ rest
        | some t ↦
            let depth =
              if is_open t
              then suc brace_depth
              else if is_close t
              then brace_depth - 1
              else brace_depth in
            let later = skip_block n depth rest in
            if is_close t && (depth == 0) then rest else later
      ]

  unfoldable css_parse_at_rule : Bytes → Bytes
  css_parse_at_rule s =
      let (token, rest) = skip_prelude (suc (length s)) s in
      elim token [
        | none ↦ rest
        | some t ↦ if is_open t then skip_block (suc (length rest)) 1 rest else rest
      ]

  unfoldable read_value : ℕ → Option Bytes → Bytes → Option (Option Bytes × Bytes)
  read_value zero value s = some (value, s)
  read_value (suc n) value s =
      let (token, rest) = next s in
      elim token [
        | none ↦ some (value, rest)
        | some t ↦
            let later : Option (Option Bytes × Bytes) = elim t.value [
              | none ↦ none
              | some w ↦ read_value n (some (join value w)) rest
            ] in
            if is_semicolon t || is_close t then some (value, rest) else later
      ]

  -- Whether there is a `{`.
  unfoldable skip_to_open : ℕ → Bytes → Bool × Bytes
  skip_to_open zero s = (false, s)
  skip_to_open (suc n) s =
      let (token, rest) = next s in
      let later = skip_to_open n rest in
      elim token [ none ↦ (false, rest) | some t ↦ if is_open t then (true, rest) else later ]

  module _ (css_declaration_create : Option Declaration) where
    unfoldable css_parse_declaration : Rule → CssToken → Bytes → Option (Rule × Bytes)
    css_parse_declaration rule property s =
        let (token, rest) = next s in
        elim token [
          | none ↦ some (rule, rest)
          | some t ↦
              if is_colon t
              then elim (read_value (suc (length rest)) none rest) [
                | none ↦ none
                | some (value, behind) ↦
                    some (declare css_declaration_create rule property.value value, behind)
              ]
              else some (rule, rest)
        ]

    unfoldable read_body : ℕ → Rule → Bytes → Option (Rule × Bytes)
    read_body zero rule s = some (rule, s)
    read_body (suc n) rule s =
        let (token, rest) = next s in
        elim token [
          | none ↦ some (rule, rest)
          | some t ↦
              let handled =
                if is_ident t then css_parse_declaration rule t rest else some (rule, rest) in
              let later : Option (Rule × Bytes) = elim handled [
                | none ↦ none
                | some (rule', behind) ↦ read_body n rule' behind
              ] in
              if is_close t then some (rule, rest) else later
        ]

    unfoldable css_parse_style_rule : List Rule → CssToken → Bytes → Option (List Rule × Bytes)
    css_parse_style_rule sheet first s =
        let (found, rest) = skip_to_open (suc (length s)) s in
        let parsed : Option (List Rule × Bytes) =
          elim (read_body (suc (length rest)) (begin_rule first) rest) [
            | none ↦ none
            | some (rule, behind) ↦ some (css_stylesheet_add_rule sheet rule, behind)
          ] in
        if found then parsed else some (sheet, rest)

    unfoldable css_parse_rule : List Rule → CssToken → Bytes → Option (List Rule × Bytes)
    css_parse_rule sheet first s =
        if is_at_keyword first
        then some (sheet, css_parse_at_rule s)
        else if is_selector first
        then css_parse_style_rule sheet first s
        else some (sheet, s)

    unfoldable parse_rules : ℕ → List Rule → Bytes → Option (List Rule)
    parse_rules zero sheet s = some sheet
    parse_rules (suc n) sheet s =
        let (token, rest) = next s in
        elim token [
          | none ↦ some sheet
          | some t ↦ elim (css_parse_rule sheet t rest) [
            | none ↦ none
            | some (sheet', behind) ↦ parse_rules n sheet' behind
          ]
        ]

    -- The rules of the stylesheet.
    pub css_parser_parse : Bytes → Option (List Rule)
    css_parser_parse css = parse_rules (suc (length css)) [] css
