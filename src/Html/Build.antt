-- ===== src/Html/Build.antt =====
-- The second half of html/src/html/html_parser.c: the tokens become a document tree. strcasecmp is
-- not in the repository: `same_name s t` stands for strcasecmp(s, t) == 0. html_document_create is
-- not either: the document is a node that is there at the start. malloc is outside: the allocation
-- for the token of number `k` gives the address `malloc k`, 0 where it fails.
pub mod Pointers
pub mod Open
pub mod Place
pub mod Family
pub mod Tags
use prismatic_os.Base.{
  ℕ, zero, suc, ◌+◌, Bool, true, false, not, ◌&&◌, ◌||◌, Option, none, some, List, [], ◌∷◌, map,
  ◌==◌, ◌!=◌, if◌then◌else◌, Bytes, codes, length,
}
use prismatic_os.Base.Linked.{null}
use prismatic_os.Libc.Strtok
use prismatic_os.Html.Token.{
  Attr, Token, TokenType, doctype, start_tag, end_tag, comment, text, html_parser_next_token,
}
use prismatic_os.Html.Dom.{
  Ptr, Node, Nodes, update, dom_element_create, dom_text_create, dom_node_set_attribute,
  dom_node_get_attribute, dom_node_add_class, dom_node_append_child, dom_node_is_element,
}

-- html_parser_t, with the nodes and the three elements that html_document_t keeps.
pub record Parser : Type 0 where
  pub nodes : Nodes
  pub document : Ptr
  pub current_node : Ptr
  pub in_head : Bool
  pub in_body : Bool
  pub in_script : Bool
  pub in_style : Bool
  pub html_element : Ptr
  pub head_element : Ptr
  pub body_element : Ptr

abbrev pub html_name : Bytes
html_name = codes "html"

abbrev pub head_name : Bytes
head_name = codes "head"

abbrev pub body_name : Bytes
body_name = codes "body"

abbrev pub script_name : Bytes
script_name = codes "script"

abbrev pub style_name : Bytes
style_name = codes "style"

abbrev id_name : Bytes
id_name = codes "id"

abbrev class_name : Bytes
class_name = codes "class"

-- Set attributes
unfoldable pub set_attributes : Nodes → Ptr → List Attr → Nodes
set_attributes nodes p [] = nodes
set_attributes nodes p (a ∷ attrs) =
    set_attributes (dom_node_set_attribute nodes p (some a.name) a.value) p attrs

-- Set ID
unfoldable pub set_id : Nodes → Ptr → Option Bytes → Nodes
set_id nodes p none = nodes
set_id nodes p (some id) = update nodes p (record (nodes p) { id = some id })

unfoldable pub add_classes : Nodes → Ptr → List Bytes → Nodes
add_classes nodes p [] = nodes
add_classes nodes p (c ∷ classes) = add_classes (dom_node_add_class nodes p (some c)) p classes

-- The space-separated class names; a name takes a byte of the text at least.
unfoldable pub class_tokens : Option Bytes → List Bytes
class_tokens none = []
class_tokens (some s) = Strtok.tokens (suc (length s)) (b' ' ∷ []) (some s) none

-- The element that a start tag makes, before it is in the tree.
unfoldable pub make_element : Nodes → Ptr → Token → Nodes
make_element nodes p token =
    let s = set_attributes (dom_element_create nodes p (some token.tag_name)) p token.attrs in
    let t = set_id s p (dom_node_get_attribute s p (some id_name)) in
    add_classes t p (class_tokens (dom_node_get_attribute t p (some class_name)))

abbrev void_elements : List Bytes
void_elements = map codes (
    "area" ∷ "base" ∷ "br" ∷ "col" ∷ "embed" ∷ "hr" ∷ "img" ∷ "input" ∷ "keygen" ∷ "link" ∷ "meta"
    ∷ "param" ∷ "source" ∷ "track" ∷ "wbr" ∷ [])

abbrev pub move_to : Parser → Option Ptr → Parser
move_to s none = s
move_to s (some p) = record s { current_node = p }

module _ (same_name : Bytes → Bytes → Bool) where
  unfoldable pub is_one_of : Bytes → List Bytes → Bool
  is_one_of name [] = false
  is_one_of name (x ∷ xs) = same_name name x || is_one_of name xs

  unfoldable pub html_is_void_element : Bytes → Bool
  html_is_void_element name = is_one_of name void_elements

  -- Handle special elements
  unfoldable pub enter_special : Parser → Ptr → Bytes → Parser
  enter_special s p name =
      if same_name name html_name
      then record s { html_element = p; in_body = false }
      else if same_name name head_name
      then record s { head_element = p; in_head = true }
      else if same_name name body_name
      then record s { body_element = p; in_body = true }
      else if same_name name script_name
      then record s { in_script = true }
      else if same_name name style_name
      then record s { in_style = true }
      else s

  pub html_handle_start_tag : Parser → Ptr → Token → Parser
  html_handle_start_tag s p token =
      let made = make_element s.nodes p token in
      let placed =
        enter_special (record s { nodes = dom_node_append_child made s.current_node p }) p
          token.tag_name in
      if p == null
      then s
      else if not token.self_closing && not (html_is_void_element token.tag_name)
      then record placed { current_node = p }
      else placed

  -- The name of the element; strcasecmp is never called with NULL, since elements of the parser
  -- have names.
  abbrev pub has_name : Option Bytes → Bytes → Bool
  has_name none name = false
  has_name (some own) name = same_name own name

  -- The walk from the current node to the document: the new current node, where a start tag matches.
  -- `none` is the end of the fuel, for which more than the depth of the node is enough.
  unfoldable pub find_open : ℕ → Parser → Ptr → Bytes → Option Ptr
  find_open zero s p name = none
  find_open (suc n) s p name =
      let node = s.nodes p in
      let above = find_open n s node.parent name in
      if (p == null) || (p == s.document)
      then some s.current_node
      else if dom_node_is_element s.nodes p && has_name node.tag_name name
      then some (if node.parent != null then node.parent else s.current_node)
      else above

  -- Handle special elements
  unfoldable pub leave_special : Parser → Bytes → Parser
  leave_special s name =
      if same_name name head_name
      then record s { in_head = false }
      else if same_name name body_name
      then record s { in_body = false }
      else if same_name name script_name
      then record s { in_script = false }
      else if same_name name style_name
      then record s { in_style = false }
      else s

  pub html_handle_end_tag : ℕ → Parser → Token → Parser
  html_handle_end_tag n s token =
      leave_special (move_to s (find_open n s s.current_node token.tag_name)) token.tag_name

pub html_handle_text : Parser → Ptr → Token → Parser
html_handle_text s p token =
    let made = dom_text_create s.nodes p (some token.content) in
    if (length token.content == 0) || (p == null)
    then s
    else record s { nodes = dom_node_append_child made s.current_node p }

module _ (same_name : Bytes → Bytes → Bool) (malloc : ℕ → Ptr) where
  abbrev pub handle_type : TokenType → ℕ → Parser → Token → Parser
  handle_type start_tag k s token = html_handle_start_tag same_name s (malloc k) token
  handle_type end_tag k s token = html_handle_end_tag same_name (k + 2) s token
  handle_type text k s token = html_handle_text s (malloc k) token
  handle_type comment k s token = s
  handle_type doctype k s token = s

  -- The loop of html_build_dom_tree, on the tokens that it reads; the token of number `k` comes
  -- first. A node is at most `k + 1` steps below the document.
  pub html_build_dom_tree : ℕ → Parser → List Token → Parser
  html_build_dom_tree k s [] = s
  html_build_dom_tree k s (token ∷ tokens) =
      html_build_dom_tree (suc k) (handle_type token.type k s token) tokens
