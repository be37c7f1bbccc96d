-- ===== src/Html/Css/Tests.antt =====
-- Uses of the theorems about the CSS parser on concrete inputs, with concrete functions for what the
-- repository does not have.
use prismatic_os.Base.{◌≡◌, refl, false, none, some, List, [], ◌∷◌, arith, Bytes, codes}
use mathlib.Core.List.{reverse}
use prismatic_os.Libc.Ctype.{isalnum, isxdigit}
use prismatic_os.Libc.Str.Search.{All}
use prismatic_os.Html.Tests.Compare.{equal_prefix, equal_prefix-ComparesCase}
use prismatic_os.Html.Css.Token.{CssToken, ident, eof, word, punctuation, is_ident_byte}
use prismatic_os.Html.Css.Token.Progress.{MovesForward}
use prismatic_os.Html.Css.Token.Tokens.{css_tokens}
use prismatic_os.Html.Css.Rule.{
  Declaration, Selector, element_selector, id_selector, class_selector,
}
use prismatic_os.Html.Css.Parse.{css_parser_parse}
use prismatic_os.Html.Css.Machine.{outside, run}
use prismatic_os.Html.Css.Parse.Refinement.{css_parser_parse-run}
use prismatic_os.Html.Css.Print.{
  ident_word, hash_word, string_word, RulePiece, Piece, rule_piece, comment_piece, at_piece,
  print_sheet, IsPiece, IsRule, rules_of,
}
use prismatic_os.Html.Css.RoundTrip.{css_parser_parse-print_sheet}
use prismatic_os.Libc.Strtol.{digit}
use prismatic_os.Html.Css.Value.{css_value_parse_color}
use prismatic_os.Html.Css.Value.Digits.{rgba, css_value_parse_color_lem}

-- One byte makes a token.
abbrev one_byte : Bytes → CssToken × Bytes
one_byte [] = (punctuation eof, [])
one_byte (c ∷ s) = (word ident (c ∷ []), s)

one_byte-MovesForward : MovesForward one_byte
one_byte-MovesForward c s = omega arith

abbrev blank : Declaration
blank = record { property = none; value = none; important = false }

abbrev paragraph : RulePiece
paragraph = record {
  selector = codes "p";
  declarations =
      (record { property = codes "color"; first = hash_word (codes "00ff7f"); more = [] })
      ∷ (record {
        property = codes "font-family";
        first = string_word (codes "A b");
        more = ident_word (codes "serif") ∷ [];
      })
      ∷ [];
}

abbrev sheet : List Piece
sheet =
    comment_piece (codes " page ")
    ∷ at_piece (codes "import") (codes "url_of_page" ∷ []) none
    ∷ rule_piece paragraph
    ∷ at_piece (codes "media") (codes "screen" ∷ []) (some (paragraph ∷ paragraph ∷ []))
    ∷ rule_piece (record { selector = codes "h1"; declarations = [] })
    ∷ []

paragraph-IsRule : IsRule paragraph
unfolding is_ident_byte isalnum isxdigit
paragraph-IsRule = (
  (refl, tt),
  (
    (
      (refl, (refl, (refl, (refl, (refl, tt))))),
      (refl, (refl, (refl, (refl, (refl, (refl, tt)))))),
      tt,
    ),
    (
      (
        (refl, (refl, (refl, (refl, (refl, (refl, (refl, (refl, (refl, (refl, (refl, tt))))))))))),
        ((refl, refl), ((refl, refl), ((refl, refl), tt))),
        ((refl, (refl, (refl, (refl, (refl, tt))))), tt),
      ),
      tt,
    ),
  ),
)

sheet-AllIsPiece : All IsPiece sheet
unfolding is_ident_byte isalnum
sheet-AllIsPiece = (
  (refl, (refl, (refl, (refl, (refl, (refl, tt)))))),
  (
    (
      (refl, (refl, (refl, (refl, (refl, (refl, tt)))))),
      (
        (refl, (refl, (refl, (refl, (refl, (refl, (refl, (refl, (refl, (refl, (refl, tt))))))))))),
        tt,
      ),
      tt,
    ),
    (
      paragraph-IsRule,
      (
        (
          (refl, (refl, (refl, (refl, (refl, tt))))),
          ((refl, (refl, (refl, (refl, (refl, (refl, tt)))))), tt),
          (paragraph-IsRule, (paragraph-IsRule, tt)),
        ),
        (((refl, (refl, tt)), tt), tt),
      ),
    ),
  ),
)

css_parser_parse-print_sheet_example :
    css_parser_parse equal_prefix one_byte (some blank) (print_sheet sheet)
    ≡ some (reverse (rules_of blank sheet))
css_parser_parse-print_sheet_example =
    css_parser_parse-print_sheet equal_prefix one_byte blank sheet one_byte-MovesForward
      equal_prefix-ComparesCase sheet-AllIsPiece

css_parser_parse-run_example :
    css_parser_parse equal_prefix one_byte (some blank) (codes "@media a{b{c:d}}e{f:g}h")
    ≡ run
        (some blank)
        outside
        []
        (css_tokens equal_prefix one_byte (codes "@media a{b{c:d}}e{f:g}h"))
css_parser_parse-run_example =
    css_parser_parse-run equal_prefix one_byte (some blank) one_byte-MovesForward
      (codes "@media a{b{c:d}}e{f:g}h")

css_value_parse_color_lem_example :
    (css_value_parse_color (codes "#1aB") ≡ rgba 17 170 187 255)
    × (css_value_parse_color (codes "#1aB2") ≡ rgba 17 170 187 34)
    × (css_value_parse_color (codes "#1aB2c3") ≡ rgba 26 178 195 255)
    × (css_value_parse_color (codes "#1aB2c3f0") ≡ rgba 26 178 195 240)
unfolding digit
css_value_parse_color_lem_example =
    css_value_parse_color_lem b'1' b'a' b'B' b'2' b'c' b'3' b'f' b'0' (1, refl, omega arith)
      (10, refl, omega arith) (11, refl, omega arith) (2, refl, omega arith) (12, refl, omega arith)
      (3, refl, omega arith) (15, refl, omega arith) (0, refl, omega arith)

abbrev selectors : List Selector
selectors =
    (record { type = id_selector; value = some (codes "x") })
    ∷ (record { type = class_selector; value = some (codes "y") })
    ∷ (record { type = element_selector; value = some (codes "p") })
    ∷ []
