-- ===== src/Html/Css/Parse/Refinement.antt =====
-- The recursive parser does what the machine does on the tokens of the text. `cmp`, `num` and
-- `new` stand for strncasecmp, css_parse_number_or_ident and css_declaration_create.
use prismatic_os.Base.{
  ℕ, zero, suc, ◌<◌, ◌≡◌, refl, sym, ◌∙◌, inl, inr, Bool, Option, none, some, List, [], ◌∷◌, arith,
  if◌then◌else◌, Bool-cases, Option-cases, Bytes, length,
}
use prismatic_os.Html.Css.Token.{CssToken}
use prismatic_os.Html.Css.Token.Progress.{MovesForward}
use prismatic_os.Html.Css.Token.Tokens.{css_tokens, next-shorter}
use prismatic_os.Html.Css.Rule.{
  Declaration, Rule, begin_rule, declare, is_at_keyword, is_selector, is_ident, is_colon, is_open,
  is_close,
}
use prismatic_os.Html.Css.Parse.{
  read_value, skip_to_open, css_parse_declaration, read_body, css_parse_style_rule, css_parse_rule,
  parse_rules, css_parser_parse,
}
use prismatic_os.Html.Css.Machine.{outside, selecting, body, named, run}
use prismatic_os.Html.Css.Parse.Lengths.{leaves, leaves-declaration, leaves-css_parse_rule}
use prismatic_os.Html.Css.Parse.Loops.{
  nx, run_on, run_token, run_on-next, run_on-none, run_on-end, at_rule-run, value-run, after_value,
}

module _ (cmp : Bytes → Bytes → ℕ → Bool) (num : Bytes → CssToken × Bytes)
    (new : Option Declaration) (fwd : MovesForward num) where
  abbrev after_rule : Option (List Rule × Bytes) → Option (List Rule)
  after_rule none = none
  after_rule (some (sheet, s)) = run_on cmp num new fwd outside sheet s

  abbrev after_declaration : List Rule → Option (Rule × Bytes) → Option (List Rule)
  after_declaration sheet none = none
  after_declaration sheet (some (rule, s)) = run_on cmp num new fwd (body rule) sheet s

  after_value-declaration :
      (sheet : List Rule) (rule : Rule) (property : CssToken) (o : Option (Option Bytes × Bytes))
      → after_value cmp num new fwd sheet rule property o
        ≡ after_declaration sheet (elim o [
          | none ↦ none
          | some (value, s) ↦ some (declare new rule property.value value, s)
        ])
  after_value-declaration sheet rule property none = refl
  after_value-declaration sheet rule property (some (value, s)) = refl

  declaration-run :
      (rule : Rule) (property : CssToken) (sheet : List Rule) (s : Bytes)
      → run_on cmp num new fwd (named rule property) sheet s
        ≡ after_declaration sheet (css_parse_declaration cmp num new rule property s)
  unfolding css_parse_declaration
  declaration-run rule property sheet s = elim (Option-cases (nx cmp num new fwd s).0) [
    | inl e ↦ rw (
      run_on-none cmp num new fwd (named rule property) sheet s e,
      css_parse_declaration,
      e,
      run_on-end cmp num new fwd (body rule) sheet s e,
    )
    | inr (t, e) ↦
        rw (run_on-next cmp num new fwd (named rule property) sheet s, css_parse_declaration, e)
          (elim (Bool-cases (is_colon t)) [
            | inl c ↦ rw c (
                value-run cmp num new fwd (suc (length (nx cmp num new fwd s).1)) rule property none
                  sheet (nx cmp num new fwd s).1 (omega arith)
                ∙ after_value-declaration sheet rule property (
                    read_value cmp num (suc (length (nx cmp num new fwd s).1)) none
                      (nx cmp num new fwd s).1))
            | inr c ↦ rw c
          ])
  ]

  abbrev after_body : List Rule → Option (Rule × Bytes) → Option (List Rule)
  after_body sheet none = none
  after_body sheet (some (rule, s)) = run_on cmp num new fwd outside (rule ∷ sheet) s

  read_on :
      (n : ℕ) (sheet : List Rule)
      → ((r : Rule) (u : Bytes)
          → length u < n
          → run_on cmp num new fwd (body r) sheet u
            ≡ after_body sheet (read_body cmp num new n r u))
      → (o : Option (Rule × Bytes)) → leaves o < n
      → after_declaration sheet o
        ≡ after_body sheet (elim o [ none ↦ none | some (r, u) ↦ read_body cmp num new n r u ])
  read_on n sheet later none h = refl
  read_on n sheet later (some (r, u)) h = later r u h

  body-run :
      (n : ℕ) (rule : Rule) (sheet : List Rule) (s : Bytes)
      → length s < n
      → run_on cmp num new fwd (body rule) sheet s
        ≡ after_body sheet (read_body cmp num new n rule s)
  unfolding read_body
  body-run zero rule sheet s h = absurd (omega arith)
  body-run (suc n) rule sheet s h = elim (Option-cases (nx cmp num new fwd s).0) [
    | inl e ↦ rw (
      run_on-none cmp num new fwd (body rule) sheet s e,
      read_body,
      e,
      run_on-end cmp num new fwd outside (rule ∷ sheet) s e,
    )
    | inr (t, e) ↦
        let shorter = next-shorter cmp num fwd s t e in
        let rest = (nx cmp num new fwd s).1 in
        let read = css_parse_declaration cmp num new rule t rest in
        rw (run_on-next cmp num new fwd (body rule) sheet s, read_body, e)
          (elim (Bool-cases (is_close t)) [
            | inl c ↦ rw c
            | inr c ↦ elim (Bool-cases (is_ident t)) [
              | inl i ↦
                  rw (c, i)
                    (declaration-run rule t sheet rest
                      ∙ read_on n sheet (λ r u. body-run n r sheet u) read
                          (omega (arith, shorter, leaves-declaration cmp num new fwd rule t rest)))
              | inr i ↦ rw (c, i) (body-run n rule sheet rest (omega (arith, shorter)))
            ]
          ])
  ]

  select-run :
      (n : ℕ) (rule : Rule) (sheet : List Rule) (s : Bytes)
      → length s < n
      → let (found, rest) = skip_to_open cmp num n s in
        run_on cmp num new fwd (selecting rule) sheet s ≡ (
          if found
          then run_on cmp num new fwd (body rule) sheet rest
          else run_on cmp num new fwd outside sheet rest)
  unfolding skip_to_open
  select-run zero rule sheet s h = absurd (omega arith)
  select-run (suc n) rule sheet s h = elim (Option-cases (nx cmp num new fwd s).0) [
    | inl e ↦ rw (
      run_on-none cmp num new fwd (selecting rule) sheet s e,
      skip_to_open,
      e,
      run_on-end cmp num new fwd outside sheet s e,
    )
    | inr (t, e) ↦
        let shorter = next-shorter cmp num fwd s t e in
        rw (run_on-next cmp num new fwd (selecting rule) sheet s, skip_to_open, e)
          (elim (Bool-cases (is_open t)) [
            | inl o ↦ rw o
            | inr o ↦
                rw o (select-run n rule sheet (nx cmp num new fwd s).1 (omega (arith, shorter)))
          ])
  ]

  after_body-rule :
      (sheet : List Rule) (o : Option (Rule × Bytes))
      → after_body sheet o
        ≡ after_rule (elim o [ none ↦ none | some (rule, s) ↦ some (rule ∷ sheet, s) ])
  after_body-rule sheet none = refl
  after_body-rule sheet (some (rule, s)) = refl

  style_rule-run :
      (sheet : List Rule) (t : CssToken) (s : Bytes)
      → run_on cmp num new fwd (selecting (begin_rule t)) sheet s
        ≡ after_rule (css_parse_style_rule cmp num new sheet t s)
  unfolding css_parse_style_rule
  style_rule-run sheet t s =
      let (found, rest) = skip_to_open cmp num (suc (length s)) s in
      select-run (suc (length s)) (begin_rule t) sheet s (omega arith) ∙ elim (Bool-cases found) [
        | inl e ↦ rw e (
            body-run (suc (length rest)) (begin_rule t) sheet rest (omega arith)
            ∙ after_body-rule sheet (read_body cmp num new (suc (length rest)) (begin_rule t) rest))
        | inr e ↦ rw e
      ]

  rule-run :
      (sheet : List Rule) (t : CssToken) (s : Bytes)
      → run_token cmp num new fwd outside sheet (some t) s
        ≡ after_rule (css_parse_rule cmp num new sheet t s)
  unfolding css_parse_rule
  rule-run sheet t s = elim (Bool-cases (is_at_keyword t)) [
    | inl a ↦ rw a (at_rule-run cmp num new fwd sheet s)
    | inr a ↦ elim (Bool-cases (is_selector t)) [
      | inl b ↦ rw (a, b) (style_rule-run sheet t s)
      | inr b ↦ rw (a, b)
    ]
  ]

  rules_on :
      (n : ℕ)
      → ((sheet : List Rule) (u : Bytes)
          → length u < n
          → run_on cmp num new fwd outside sheet u ≡ parse_rules cmp num new n sheet u)
      → (o : Option (List Rule × Bytes)) → leaves o < n
      → after_rule o ≡ elim o [ none ↦ none | some (sheet, u) ↦ parse_rules cmp num new n sheet u ]
  rules_on n later none h = refl
  rules_on n later (some (sheet, u)) h = later sheet u h

  rules-run :
      (n : ℕ) (sheet : List Rule) (s : Bytes)
      → length s < n
      → run_on cmp num new fwd outside sheet s ≡ parse_rules cmp num new n sheet s
  unfolding parse_rules
  rules-run zero sheet s h = absurd (omega arith)
  rules-run (suc n) sheet s h = elim (Option-cases (nx cmp num new fwd s).0) [
    | inl e ↦ rw (run_on-none cmp num new fwd outside sheet s e, parse_rules, e)
    | inr (t, e) ↦
        let shorter = next-shorter cmp num fwd s t e in
        let read = css_parse_rule cmp num new sheet t (nx cmp num new fwd s).1 in
        rw (run_on-next cmp num new fwd outside sheet s, parse_rules, e)
          (rule-run sheet t (nx cmp num new fwd s).1
            ∙ rules_on n (rules-run n) read (
                omega (
                  arith,
                  shorter,
                  leaves-css_parse_rule cmp num new fwd sheet t (nx cmp num new fwd s).1,
                )))
  ]

  -- The parser, with all its functions and loops, does on any text what the machine does that takes
  -- the text's tokens one at a time, if the tokens made at digits and hyphens take a byte at least.
  pub css_parser_parse-run :
      (css : Bytes) → css_parser_parse cmp num new css ≡ run new outside [] (css_tokens cmp num css)
  unfolding css_parser_parse
  css_parser_parse-run css = sym (rules-run (suc (length css)) [] css (omega arith))
