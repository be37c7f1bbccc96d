-- ===== src/Html/Css/RoundTrip.antt =====
-- A stylesheet that is written out is read back by the CSS parser.
use prismatic_os.Base.{
  ℕ, suc, ◌≡◌, refl, sym, ap, ◌∙◌, Bool, Option, none, some, List, [], ◌∷◌, ◌++◌, map, append-nil,
  append_assoc, Bytes,
}
use mathlib.Core.List.{reverse, reverse-cons}
use prismatic_os.Libc.Str.Search.{All}
use prismatic_os.Html.Token.RoundTrip.{ComparesCase}
use prismatic_os.Html.Css.Token.{CssToken, ident, semicolon, right_brace, word, punctuation}
use prismatic_os.Html.Css.Token.Progress.{MovesForward}
use prismatic_os.Html.Css.Rule.{Declaration, Rule, begin_rule, begin_rule_lem, declare}
use prismatic_os.Html.Css.Parse.{css_parser_parse}
use prismatic_os.Html.Css.Machine.{State, outside, prelude, block, body, valued, run}
use prismatic_os.Html.Css.Parse.Refinement.{css_parser_parse-run}
use prismatic_os.Html.Css.Print.{
  Word, ident_word, hash_word, string_word, DeclarationPiece, RulePiece, Piece, rule_piece,
  comment_piece, at_piece, print_sheet, word_token, declaration_tokens, declarations_tokens,
  rule_tokens, rules_tokens, block_tokens, sheet_tokens, IsPiece, text_of, joined, declaration_of,
  rule_of, rules_of,
}
use prismatic_os.Html.Css.Print.Tokens.{css_tokens-print_sheet}

module _ (blank : Declaration) where
  abbrev on : State → List Rule → List CssToken → Option (List Rule)
  on state sheet ts = run (some blank) state sheet ts

  value_run :
      (ws : List Word) (rule : Rule) (p : CssToken) (v : Bytes) (sheet : List Rule)
      (ts : List CssToken)
      → on (valued rule p (some v)) sheet (map word_token ws ++ (punctuation semicolon ∷ ts))
        ≡ on (body (declare (some blank) rule p.value (some (joined v ws)))) sheet ts
  value_run [] rule p v sheet ts = refl
  value_run (ident_word w ∷ ws) rule p v sheet ts = value_run ws rule p (v ++ (b' ' ∷ w)) sheet ts
  value_run (hash_word w ∷ ws) rule p v sheet ts = value_run ws rule p (v ++ (b' ' ∷ w)) sheet ts
  value_run (string_word w ∷ ws) rule p v sheet ts = value_run ws rule p (v ++ (b' ' ∷ w)) sheet ts

  abbrev add : Rule → DeclarationPiece → Rule
  add rule d = record rule { declarations = declaration_of blank d ∷ rule.declarations }

  declaration_run :
      (d : DeclarationPiece) (rule : Rule) (sheet : List Rule) (ts : List CssToken)
      → on (body rule) sheet (declaration_tokens d ts) ≡ on (body (add rule d)) sheet ts
  unfolding declare
  declaration_run d rule sheet ts = go d.first
    where
      go :
          (w : Word)
          → on
              (valued rule (word ident d.property) none)
              sheet
              (word_token w ∷ (map word_token d.more ++ (punctuation semicolon ∷ ts)))
            ≡ on
                (body
                  (declare (some blank) rule (some d.property) (some (joined (text_of w) d.more))))
                sheet
                ts
      go (ident_word w) = value_run d.more rule (word ident d.property) w sheet ts
      go (hash_word w) = value_run d.more rule (word ident d.property) w sheet ts
      go (string_word w) = value_run d.more rule (word ident d.property) w sheet ts

  abbrev add_all : Rule → List DeclarationPiece → Rule
  add_all rule [] = rule
  add_all rule (d ∷ ds) = add_all (add rule d) ds

  declarations_run :
      (ds : List DeclarationPiece) (rule : Rule) (sheet : List Rule) (ts : List CssToken)
      → on (body rule) sheet (declarations_tokens ds (punctuation right_brace ∷ ts))
        ≡ on outside (add_all rule ds ∷ sheet) ts
  declarations_run [] rule sheet ts = refl
  declarations_run (d ∷ ds) rule sheet ts =
      declaration_run d rule sheet (declarations_tokens ds (punctuation right_brace ∷ ts))
      ∙ declarations_run ds (add rule d) sheet ts

  add_all_lem :
      (ds : List DeclarationPiece) (rule : Rule)
      → add_all rule ds ≡ record rule {
        declarations = reverse (map (declaration_of blank) ds) ++ rule.declarations;
      }
  add_all_lem [] rule = refl
  add_all_lem (d ∷ ds) rule =
      let later = map (declaration_of blank) ds in
      add_all_lem ds (add rule d)
      ∙ ap (λ l. record rule { declarations = l })
          (sym (
            ap (λ l. l ++ rule.declarations) (reverse-cons (declaration_of blank d) later)
            ∙ append_assoc (reverse later) (declaration_of blank d ∷ []) rule.declarations))

  rule_run :
      (r : RulePiece) (sheet : List Rule) (ts : List CssToken)
      → on outside sheet (rule_tokens r ts) ≡ on outside (rule_of blank r ∷ sheet) ts
  rule_run r sheet ts =
      let first = word ident r.selector in
      declarations_run r.declarations (begin_rule first) sheet ts
      ∙ ap (λ rule. on outside (rule ∷ sheet) ts)
          (add_all_lem r.declarations (begin_rule first)
            ∙ rw (
              begin_rule_lem first,
              append-nil (reverse (map (declaration_of blank) r.declarations)),
            ))

  -- Inside the block of an at-rule nothing is read.
  words_skip :
      (ws : List Word) (more : ℕ) (sheet : List Rule) (ts : List CssToken)
      → on (block more) sheet (map word_token ws ++ ts) ≡ on (block more) sheet ts
  words_skip [] more sheet ts = refl
  words_skip (ident_word w ∷ ws) more sheet ts = words_skip ws more sheet ts
  words_skip (hash_word w ∷ ws) more sheet ts = words_skip ws more sheet ts
  words_skip (string_word w ∷ ws) more sheet ts = words_skip ws more sheet ts

  declarations_skip :
      (ds : List DeclarationPiece) (more : ℕ) (sheet : List Rule) (ts : List CssToken)
      → on (block more) sheet (declarations_tokens ds ts) ≡ on (block more) sheet ts
  declarations_skip [] more sheet ts = refl
  declarations_skip (d ∷ ds) more sheet ts =
      let behind = declarations_tokens ds ts in
      words_skip (d.first ∷ d.more) more sheet (punctuation semicolon ∷ behind)
      ∙ declarations_skip ds more sheet ts

  rules_skip :
      (rs : List RulePiece) (more : ℕ) (sheet : List Rule) (ts : List CssToken)
      → on (block more) sheet (rules_tokens rs ts) ≡ on (block more) sheet ts
  rules_skip [] more sheet ts = refl
  rules_skip (r ∷ rs) more sheet ts =
      declarations_skip r.declarations (suc more) sheet
        (punctuation right_brace ∷ rules_tokens rs ts)
      ∙ rules_skip rs more sheet ts

  names_skip :
      (ws : List Bytes) (sheet : List Rule) (ts : List CssToken)
      → on prelude sheet (map (word ident) ws ++ ts) ≡ on prelude sheet ts
  names_skip [] sheet ts = refl
  names_skip (w ∷ ws) sheet ts = names_skip ws sheet ts

  block_skip :
      (inner : Option (List RulePiece)) (sheet : List Rule) (ts : List CssToken)
      → on prelude sheet (block_tokens inner ts) ≡ on outside sheet ts
  block_skip none sheet ts = refl
  block_skip (some rs) sheet ts = rules_skip rs 0 sheet (punctuation right_brace ∷ ts)

  sheet_run :
      (ps : List Piece) (sheet : List Rule)
      → on outside sheet (sheet_tokens ps) ≡ some (reverse (rules_of blank ps) ++ sheet)
  sheet_run [] sheet = refl
  sheet_run (rule_piece r ∷ ps) sheet =
      rule_run r sheet (sheet_tokens ps)
      ∙ sheet_run ps (rule_of blank r ∷ sheet)
      ∙ ap some (
          sym (
            ap (λ l. l ++ sheet) (reverse-cons (rule_of blank r) (rules_of blank ps))
            ∙ append_assoc (reverse (rules_of blank ps)) (rule_of blank r ∷ []) sheet))
  sheet_run (comment_piece text ∷ ps) sheet = sheet_run ps sheet
  sheet_run (at_piece name words inner ∷ ps) sheet =
      names_skip words sheet (block_tokens inner (sheet_tokens ps))
      ∙ block_skip inner sheet (sheet_tokens ps)
      ∙ sheet_run ps sheet

-- A stylesheet of rules, comments and at-rules, with or without a block of rules, is written out and
-- parsed: the result is its rules with their declarations, both in reverse, each rule with its first
-- name as an element selector and with specificity 0, and each value with its words joined by blanks,
-- without the `#` of a colour and the quotes of a string. The names are identifiers that begin with a
-- letter or an underscore, css_declaration_create gives a declaration, strncasecmp compares up to
-- case, and the tokens made at digits and hyphens take a byte at least.
pub css_parser_parse-print_sheet :
    (same_prefix : Bytes → Bytes → ℕ → Bool) (number_or_ident : Bytes → CssToken × Bytes)
    (blank : Declaration) (ps : List Piece)
    → MovesForward number_or_ident
    → ComparesCase same_prefix
    → All IsPiece ps
    → css_parser_parse same_prefix number_or_ident (some blank) (print_sheet ps)
      ≡ some (reverse (rules_of blank ps))
css_parser_parse-print_sheet same_prefix number_or_ident blank ps forward same h =
    css_parser_parse-run same_prefix number_or_ident (some blank) forward (print_sheet ps)
    ∙ ap (run (some blank) outside [])
        (css_tokens-print_sheet same_prefix number_or_ident forward same ps h)
    ∙ sheet_run blank ps []
    ∙ ap some (append-nil (reverse (rules_of blank ps)))
