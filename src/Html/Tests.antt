-- ===== src/Html/Tests.antt =====
-- Uses of the theorems on concrete inputs, with concrete functions for strcasecmp, strncasecmp and
-- malloc.
pub mod Compare
use prismatic_os.Base.{
  ℕ, suc, ◌+◌, ◌≡◌, refl, inr, true, false, ◌&&◌, none, some, List, [], ◌∷◌, map, arith, ◌==◌,
  if◌then◌else◌, is_some, Bytes, codes, length,
}
use mathlib.Core.Path.{subst}
use prismatic_os.Html.Tests.Compare.{
  same_bytes, equal_names, equal_prefix, equal_prefix-ComparesCase,
}
use prismatic_os.Base.Linked.{null, erase}
use prismatic_os.Libc.Ctype.{isupper, tolower, isspace, isalnum}
use prismatic_os.Html.Token.{
  Attr, Token, tokens, is_name_byte, is_attr_byte, is_text_byte, find_comment_end,
}
use prismatic_os.Html.Token.Print.{
  Piece, tag_piece, text_piece, comment_piece, doctype_piece, token_of, print_pieces, IsDocument,
}
use prismatic_os.Html.Token.Progress.{tokens-enough}
use prismatic_os.Html.Token.RoundTrip.{ComparesCase, tokens-print_pieces}
use prismatic_os.Html.Dom.{
  dom_node_is_element, text_node, document_node, Ptr, Nodes, element_node, blank_node, same_string,
  dom_node_append_child, dom_node_remove_child, dom_node_set_attribute, dom_node_get_attribute,
}
use prismatic_os.Html.Dom.Family.{IsFamily}
use prismatic_os.Html.Dom.Append.{joined, dom_node_append_child-IsFamily}
use prismatic_os.Html.Dom.Remove.{dom_node_remove_child-IsFamily}
use prismatic_os.Html.Build.{Parser}
use prismatic_os.Html.Build.Place.{IsFresh, IsBuilding}
use prismatic_os.Html.Parse.{html_parser_parse, html_parser_parse-IsBuilding}
use prismatic_os.Html.Build.{
  html_build_dom_tree, find_open, html_is_void_element, is_one_of, html_handle_end_tag,
  html_handle_start_tag,
}
use prismatic_os.Html.Build.Family.{find_open-enough}
use prismatic_os.Html.Build.Tags.{html_handle_end_tag-html_handle_start_tag}
use prismatic_os.Html.Dom.Contents.{dom_node_get_attribute-dom_node_set_attribute}
use prismatic_os.Html.Dom.{dom_node_is_element, text_node, document_node}
use prismatic_os.Html.Dom.Search.{
  dom_document_get_element_by_id, dom_document_get_element_by_id_leaf,
}

abbrev link_attrs : List Attr
link_attrs =
    (record { name = codes "href"; value = some (codes "a b") })
    ∷ (record { name = codes "checked"; value = none })
    ∷ []

abbrev page : List Piece
page =
    doctype_piece
    ∷ tag_piece false (codes "A") link_attrs false
    ∷ text_piece (codes "hi there")
    ∷ tag_piece true (codes "a") [] false
    ∷ comment_piece (codes "-")
    ∷ tag_piece false (codes "br") [] true
    ∷ []

page-IsDocument : IsDocument page
unfolding is_name_byte is_attr_byte is_text_byte isalnum isspace find_comment_end
page-IsDocument = (
  tt,
  refl,
  (
    (
      omega arith,
      (refl, tt),
      (
        (omega arith, (refl, (refl, (refl, (refl, tt)))), (refl, (refl, (refl, tt)))),
        ((omega arith, (refl, (refl, (refl, (refl, (refl, (refl, (refl, tt))))))), tt), tt),
      ),
    ),
    refl,
    (
      (refl, (refl, (refl, (refl, (refl, (refl, (refl, (refl, (refl, tt))))))))),
      refl,
      (
        (omega arith, (refl, tt), tt),
        refl,
        (refl, refl, ((omega arith, (refl, (refl, tt)), tt), tt, tt)),
      ),
    ),
  ),
)

tokens-print_pieces_example :
    tokens equal_prefix (suc (length (print_pieces page))) (print_pieces page) ≡ map token_of page
tokens-print_pieces_example =
    tokens-print_pieces equal_prefix equal_prefix-ComparesCase page
      (suc (length (print_pieces page))) page-IsDocument (omega arith)

tokens-enough_example : tokens equal_prefix 9 (codes "<p>x") ≡ tokens equal_prefix 5 (codes "<p>x")
tokens-enough_example = tokens-enough equal_prefix 9 5 (codes "<p>x") (omega arith) (omega arith)

-- No node has a parent or children yet.
abbrev empty_nodes : Nodes
empty_nodes a = blank_node element_node

abbrev no_children : Ptr → List Ptr
no_children p = []

empty_nodes-IsFamily : IsFamily empty_nodes no_children
empty_nodes-IsFamily = record {
  lists = λ p ne. (refl, refl);
  parents = λ p c ne h. absurd (ground (arith, h));
  members = λ c ne h. absurd (h refl);
  roots = λ c ne h. (refl, refl);
}

abbrev one_child : Nodes
one_child = dom_node_append_child empty_nodes 1 2

dom_node_append_child-IsFamily_example :
    IsFamily (dom_node_append_child empty_nodes 1 2) (joined (λ q. erase 2 (no_children q)) 1 2)
dom_node_append_child-IsFamily_example =
    dom_node_append_child-IsFamily empty_nodes no_children 1 2 (λ e. omega arith) (λ e. omega arith)
      empty_nodes-IsFamily

one_child-IsFamily : IsFamily one_child (joined (λ q. erase 2 (no_children q)) 1 2)
one_child-IsFamily =
    dom_node_append_child-IsFamily empty_nodes no_children 1 2 (λ e. omega arith) (λ e. omega arith)
      empty_nodes-IsFamily

one_child_parent : (one_child 2).parent ≡ 1
one_child_parent = one_child-IsFamily.parents 1 2 (λ e. omega arith) (unfold erase in refl)

dom_node_remove_child-IsFamily_example :
    IsFamily
      (dom_node_remove_child one_child 1 2)
      (λ q. erase 2 (joined (λ q. erase 2 (no_children q)) 1 2 q))
    × ((dom_node_remove_child one_child 1 2 2).parent ≡ null)
dom_node_remove_child-IsFamily_example =
    dom_node_remove_child-IsFamily one_child (joined (λ q. erase 2 (no_children q)) 1 2)
      one_child-IsFamily 1 2 (λ e. omega arith) (λ e. omega arith) one_child_parent

abbrev id_bytes : Bytes
id_bytes = codes "id"

dom_node_get_attribute-dom_node_set_attribute_example :
    dom_node_get_attribute
      (dom_node_set_attribute empty_nodes 1 (some id_bytes) (some (codes "x")))
      1
      (some id_bytes)
    ≡ (if (1 == 1) && same_string id_bytes id_bytes
        then some (codes "x")
        else dom_node_get_attribute empty_nodes 1 (some id_bytes))
dom_node_get_attribute-dom_node_set_attribute_example =
    dom_node_get_attribute-dom_node_set_attribute empty_nodes 1 1 id_bytes id_bytes
      (some (codes "x")) (λ e. omega arith) tt (omega arith, (omega arith, tt))
      (omega arith, (omega arith, tt))

-- Address 1 is the document; token `k` gets the address `k + 2`.
abbrev sequential : ℕ → Ptr
sequential k = k + 2

sequential-IsFresh : IsFresh sequential
sequential-IsFresh i j ne e = omega arith

abbrev start : Parser
start = record {
  nodes = empty_nodes;
  document = 1;
  current_node = 1;
  in_head = false;
  in_body = false;
  in_script = false;
  in_style = false;
  html_element = 0;
  head_element = 0;
  body_element = 0;
}

start-IsBuilding : IsBuilding sequential 1 0 empty_nodes 1
start-IsBuilding = record {
  children = no_children;
  family = empty_nodes-IsFamily;
  at_node = λ e. omega arith;
  ahead = λ i h ne. (λ e. omega arith, (refl, refl));
  depth = refl;
}

abbrev page_text : Bytes
page_text = codes "<P><b>x</b>"

html_parser_parse-IsBuilding_example :
    IsBuilding sequential
      (html_parser_parse equal_prefix equal_names sequential start page_text).document
      (length (tokens equal_prefix (suc (length page_text)) page_text))
      (html_parser_parse equal_prefix equal_names sequential start page_text).nodes
      (html_parser_parse equal_prefix equal_names sequential start page_text).current_node
html_parser_parse-IsBuilding_example =
    html_parser_parse-IsBuilding equal_prefix equal_names sequential sequential-IsFresh start
      page_text start-IsBuilding

abbrev page_tokens : List Token
page_tokens = map token_of page

find_open-enough_example :
    is_some (
      find_open equal_names
        (length page_tokens + 2)
        (html_build_dom_tree equal_names sequential 0 start page_tokens)
        (html_build_dom_tree equal_names sequential 0 start page_tokens).current_node
        (codes "a"))
    ≡ true
find_open-enough_example =
    find_open-enough equal_names sequential sequential-IsFresh page_tokens start (codes "a")
      start-IsBuilding

abbrev bold : Token
bold = token_of (tag_piece false (codes "b") [] false)

abbrev bold_end : Token
bold_end = token_of (tag_piece true (codes "B") [] false)

html_handle_end_tag-html_handle_start_tag_example :
    let t =
      html_handle_end_tag equal_names 2 (html_handle_start_tag equal_names start 2 bold) bold_end in
    (t.current_node ≡ 1) × ((t.nodes 2).parent ≡ 1) × ((t.nodes 2).tag_name ≡ some (codes "b"))
html_handle_end_tag-html_handle_start_tag_example =
    html_handle_end_tag-html_handle_start_tag equal_names sequential sequential-IsFresh 0 start bold
      start-IsBuilding (λ e. omega arith) 1 bold_end (λ e. omega arith) refl not_void same
  where
    not_void : html_is_void_element equal_names (codes "b") ≡ false
    not_void = unfold html_is_void_element is_one_of equal_names same_bytes tolower isupper in refl

    same : equal_names (codes "b") (codes "B") ≡ true
    same = unfold equal_names same_bytes tolower isupper in refl

-- A document whose first child is a text, with the element that is looked for beside it.
abbrev beside : Nodes
beside a =
    if a == 1
    then record (blank_node document_node) { first_child = 2; last_child = 3 }
    else if a == 2
    then record (blank_node text_node) { parent = 1; next_sibling = 3 }
    else record (blank_node element_node) { parent = 1; prev_sibling = 2; id = some id_bytes }
