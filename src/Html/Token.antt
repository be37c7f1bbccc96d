-- ===== src/Html/Token.antt =====
-- The tokenizer of html/src/html/html_parser.c. The state of the parser is the text from `position`
-- on, so a position at the end is the empty list. A token's strings are lists of bytes; malloc is
-- taken to succeed, as the source takes it. strncasecmp is not in the repository: `same_prefix s t n`
-- stands for strncasecmp(s, t, n) == 0.
pub mod Progress
pub mod Print
pub mod Attributes
pub mod Tags
pub mod RoundTrip
use prismatic_os.Base.{
  ℕ, zero, suc, ◌-◌, Bool, true, false, not, ◌&&◌, ◌||◌, Option, none, some, List, [], ◌∷◌, ltb,
  ◌==◌, ◌!=◌, if◌then◌else◌, Bytes, length, drop,
}
use prismatic_os.Libc.Ctype.{isalnum, isspace}
use prismatic_os.Libc.Str.{head_byte}
use prismatic_os.Libc.Strtol.{tail}

-- HTML_TOKEN_EOF is never made.
pub data TokenType : Type 0 where
  doctype start_tag end_tag comment text : TokenType

-- The value of an attribute is NULL where the text has none.
pub record Attr : Type 0 where
  pub name : Bytes
  pub value : Option Bytes

-- `content` is the field `data`.
pub record Token : Type 0 where
  pub type : TokenType
  pub tag_name : Bytes
  pub self_closing : Bool
  pub attrs : List Attr
  pub content : Bytes

abbrev pub is_nil : Bytes → Bool
is_nil [] = true
is_nil (x ∷ s) = false

-- The bytes in front of the first one that fails the test, and what is left.
unfoldable pub span : (ℕ → Bool) → Bytes → Bytes × Bytes
span test [] = ([], [])
span test (x ∷ s) =
    let (front, rest) = span test s in if test x then (x ∷ front, rest) else ([], x ∷ s)

unfoldable pub is_name_byte : ℕ → Bool
is_name_byte c = isalnum c || (c == b'-') || (c == b'_')

unfoldable pub skip_space : Bytes → Bytes
skip_space [] = []
skip_space (x ∷ s) = let rest = skip_space s in if isspace x then rest else x ∷ s

-- The name, which is NULL where it would be empty, and what is left.
pub html_parse_tag_name : Bytes → Bytes × Bytes
html_parse_tag_name s = span is_name_byte s

unfoldable pub is_unquoted_byte : ℕ → Bool
is_unquoted_byte c = not (isspace c) && (c != b'>') && (c != b'/')

-- The quoted value, given what is left at the closing quote.
abbrev pub closed_value : Bytes → Bytes → Option Bytes × Bytes
closed_value value [] = (none, [])
closed_value value (quote ∷ after) = (some value, after)

-- The value behind the opening quote.
unfoldable pub quoted_value : ℕ → Bytes → Option Bytes × Bytes
quoted_value quote s = let (value, rest) = span (λ c. c != quote) s in closed_value value rest

unfoldable pub value_at : Bytes → Option Bytes × Bytes
value_at [] = (none, [])
value_at (c ∷ s) =
    let (value, rest) = span is_unquoted_byte (c ∷ s) in
    if (c == b'"') || (c == b'\'') then quoted_value c s else (some value, rest)

pub html_parse_attribute_value : Bytes → Option Bytes × Bytes
html_parse_attribute_value s = value_at (skip_space s)

unfoldable pub is_attr_byte : ℕ → Bool
is_attr_byte c = not (isspace c) && (c != b'=') && (c != b'>') && (c != b'/')

-- What follows the name of an attribute: `=` and a value, or nothing.
unfoldable pub attribute_tail : Bytes → Option Bytes × Bytes
attribute_tail s = if head_byte s == b'=' then html_parse_attribute_value (tail s) else (none, s)

-- The loop over the attributes; every round takes a byte of a name at least, so the length of the
-- text is fuel enough.
unfoldable pub html_parse_attributes : ℕ → Bytes → List Attr × Bytes
html_parse_attributes zero s = ([], s)
html_parse_attributes (suc n) s =
    let t = skip_space s in
    let (name, behind) = span is_attr_byte t in
    let (value, rest) = attribute_tail (skip_space behind) in
    let (more, last) = html_parse_attributes n rest in
    if is_nil name then ([], t) else (record { name = name; value = value } ∷ more, last)

-- The end of a tag, behind its attributes: whether it is self-closing and what is left, or NULL
-- where the `>` is missing.
unfoldable pub tag_end : Bytes → Option Bool × Bytes
tag_end s =
    let slash = head_byte s == b'/' in
    let t = if slash then tail s else s in
    if head_byte t == b'>' then (some slash, tail t) else (none, t)

abbrev pub closed_tag : TokenType → Bytes → List Attr → Option Bool → Option Token
closed_tag type name attrs none = none
closed_tag type name attrs (some slash) =
    some
      (record { type = type; tag_name = name; self_closing = slash; attrs = attrs; content = [] })

-- The text behind the `<`.
pub html_parse_tag : Bytes → Option Token × Bytes
html_parse_tag s =
    let is_end = head_byte s == b'/' in
    let (name, behind) = html_parse_tag_name (if is_end then tail s else s) in
    let (attrs, t) = html_parse_attributes (suc (length behind)) behind in
    let (closing, rest) = tag_end t in
    if is_nil name
    then (none, behind)
    else (closed_tag (if is_end then end_tag else start_tag) name attrs closing, rest)

abbrev pub plain_token : TokenType → Bytes → Token
plain_token type content = record {
  type = type;
  tag_name = [];
  self_closing = false;
  attrs = [];
  content = content;
}

unfoldable pub is_text_byte : ℕ → Bool
is_text_byte c = c != b'<'

-- The text is not empty and does not begin with `<`, so the token is not NULL.
pub html_parse_text : Bytes → Option Token × Bytes
html_parse_text s =
    let (content, rest) = span is_text_byte s in (some (plain_token text content), rest)

-- The bytes in front of `-->` and what stands behind it.
unfoldable pub find_comment_end : Bytes → Option (Bytes × Bytes)
find_comment_end [] = none
find_comment_end (a ∷ s) =
    let more = find_comment_end s in
    if (a == b'-') && (head_byte s == b'-') && (head_byte (tail s) == b'>')
    then some ([], tail (tail s))
    else elim more [ none ↦ none | some (front, rest) ↦ some (a ∷ front, rest) ]

abbrev pub comment_token : Bytes → Option (Bytes × Bytes) → Option Token × Bytes
comment_token s none = (none, drop (length s - 2) s)
comment_token s (some (content, rest)) = (some (plain_token comment content), rest)

-- The text behind `<!--`. Without an end the position is left two bytes from the end of the text.
pub html_parse_comment : Bytes → Option Token × Bytes
html_parse_comment s = comment_token s (find_comment_end s)

abbrev pub doctype_text : Bytes
doctype_text = b'<' ∷ b'!' ∷ b'D' ∷ b'O' ∷ b'C' ∷ b'T' ∷ b'Y' ∷ b'P' ∷ b'E' ∷ []

unfoldable pub starts_comment : Bytes → Bool
starts_comment s =
    (head_byte (tail s) == b'!')
    && (head_byte (tail (tail s)) == b'-')
    && (head_byte (tail (tail (tail s))) == b'-')

abbrev pub cons_token : Option Token → List Token → List Token
cons_token none more = []
cons_token (some t) more = t ∷ more

module _ (same_prefix : Bytes → Bytes → ℕ → Bool) where
  unfoldable pub starts_doctype : Bytes → Bool
  starts_doctype s = ltb 8 (length s) && same_prefix s doctype_text 9

  -- The token at a text that is not empty and does not begin with a blank.
  pub token_at : Bytes → Option Token × Bytes
  token_at s =
      if head_byte s == b'<'
      then (if starts_comment s
          then html_parse_comment (drop 4 s)
          else if starts_doctype s
          then (some (plain_token doctype []), tail (span (λ c. c != b'>') s).1)
          else html_parse_tag (tail s))
      else html_parse_text s

  abbrev pub first_token : Bytes → Option Token × Bytes
  first_token [] = (none, [])
  first_token (c ∷ t) = token_at (c ∷ t)

  pub html_parser_next_token : Bytes → Option Token × Bytes
  html_parser_next_token s = first_token (skip_space s)

  -- The loop of html_build_dom_tree as far as it asks for tokens: the tokens until the first NULL.
  pub tokens : ℕ → Bytes → List Token
  tokens zero s = []
  tokens (suc n) s =
      let (token, rest) = html_parser_next_token s in
      let more = tokens n rest in cons_token token more
