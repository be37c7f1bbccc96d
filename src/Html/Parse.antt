-- ===== src/Html/Parse.antt =====
-- html_parser_parse of html/src/html/html_parser.c: the tokenizer and the tree together. The loop asks
-- for a token and handles it; the tokens do not depend on the tree, so they are read first here.
use prismatic_os.Base.{ℕ, suc, ◌+◌, ◌≡◌, ap, Bool, false, List, map, arith, Bytes, length}
use mathlib.Core.Path.{subst}
use prismatic_os.Libc.Ctype.{tolower}
use prismatic_os.Html.Token.{tokens}
use prismatic_os.Html.Token.Print.{Piece, token_of, print_pieces, IsDocument}
use prismatic_os.Html.Token.RoundTrip.{ComparesCase, tokens-print_pieces}
use prismatic_os.Html.Dom.{Ptr}
use prismatic_os.Html.Build.{Parser, html_build_dom_tree}
use prismatic_os.Html.Build.Place.{IsFresh, IsBuilding}
use prismatic_os.Html.Build.Family.{html_build_dom_tree-IsBuilding}

pub html_normalize_tag_name : Bytes → Bytes
html_normalize_tag_name name = map tolower name

-- The parser stands at the document, and outside every element.
abbrev pub reset_parser : Parser → Parser
reset_parser s = record s {
  current_node = s.document;
  in_head = false;
  in_body = false;
  in_script = false;
  in_style = false;
}

module _ (same_prefix : Bytes → Bytes → ℕ → Bool) (same_name : Bytes → Bytes → Bool)
    (malloc : ℕ → Ptr) where
  pub html_parser_parse : Parser → Bytes → Parser
  html_parser_parse s html =
      html_build_dom_tree same_name malloc 0 (reset_parser s)
        (tokens same_prefix (suc (length html)) html)

  -- Any text at all, parsed into a document from which every node has its list of children, keeps this
  -- so, and the parser stands at a node that is not NULL and from which the parents lead to the document
  -- in at most as many steps as there were tokens. The addresses that malloc gives are different and
  -- free, and it may fail.
  pub html_parser_parse-IsBuilding :
      IsFresh malloc
      → (s : Parser) (html : Bytes) → IsBuilding malloc s.document 0 s.nodes s.document
      → let t = html_parser_parse s html in
        IsBuilding malloc t.document
          (length (tokens same_prefix (suc (length html)) html))
          t.nodes
          t.current_node
  unfolding html_parser_parse
  html_parser_parse-IsBuilding fresh s html b =
      let t = html_parser_parse s html in
      let n = length (tokens same_prefix (suc (length html)) html) in
      let e : 0 + n ≡ n = omega arith in
      subst (λ m. IsBuilding malloc t.document m t.nodes t.current_node) e
        (html_build_dom_tree-IsBuilding same_name malloc fresh
          (tokens same_prefix (suc (length html)) html) 0 (reset_parser s) b)

  -- The text of a document gives the tree that its pieces give, one by one. strncasecmp is taken to be
  -- as documented.
  pub html_parser_parse-print_pieces :
      ComparesCase same_prefix
      → (s : Parser) (ps : List Piece) → IsDocument ps
      → html_parser_parse s (print_pieces ps)
        ≡ html_build_dom_tree same_name malloc 0 (reset_parser s) (map token_of ps)
  unfolding html_parser_parse
  html_parser_parse-print_pieces same s ps h =
      ap (html_build_dom_tree same_name malloc 0 (reset_parser s))
        (tokens-print_pieces same_prefix same ps (suc (length (print_pieces ps))) h (omega arith))
