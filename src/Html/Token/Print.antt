-- ===== src/Html/Token/Print.antt =====
-- Documents as pieces, how they are written, and which of them can be read back.
use prismatic_os.Base.{
  ◌<◌, ◌≡◌, Bool, true, false, ◌&&◌, Option, none, some, List, [], ◌∷◌, ◌++◌, ◌!=◌, if◌then◌else◌,
  Bytes, length,
}
use prismatic_os.Libc.Ctype.{isspace}
use prismatic_os.Libc.Str.Search.{All}
use prismatic_os.Html.Token.{
  Attr, Token, doctype, start_tag, end_tag, comment, text, is_name_byte, is_attr_byte, is_text_byte,
  find_comment_end, plain_token, doctype_text,
}

pub data Piece : Type 0 where
  tag_piece : (is_end : Bool) → Bytes → List Attr → (self_closing : Bool) → Piece
  text_piece : Bytes → Piece
  comment_piece : Bytes → Piece
  doctype_piece : Piece

abbrev pub token_of : Piece → Token
token_of (tag_piece is_end name attrs slash) = record {
  type = if is_end then end_tag else start_tag;
  tag_name = name;
  self_closing = slash;
  attrs = attrs;
  content = [];
}
token_of (text_piece t) = plain_token text t
token_of (comment_piece t) = plain_token comment t
token_of doctype_piece = plain_token doctype []

-- Each printer puts its text in front of the rest.
abbrev pub print_slash : Bool → Bytes → Bytes
print_slash true rest = b'/' ∷ rest
print_slash false rest = rest

abbrev pub print_value : Option Bytes → Bytes → Bytes
print_value none rest = rest
print_value (some v) rest = b'=' ∷ b'"' ∷ (v ++ (b'"' ∷ rest))

abbrev pub print_attrs : List Attr → Bytes → Bytes
print_attrs [] rest = rest
print_attrs (a ∷ more) rest = b' ' ∷ (a.name ++ print_value a.value (print_attrs more rest))

abbrev pub print_piece : Piece → Bytes → Bytes
print_piece (tag_piece is_end name attrs slash) rest =
    b'<' ∷ print_slash is_end (name ++ print_attrs attrs (print_slash slash (b'>' ∷ rest)))
print_piece (text_piece t) rest = t ++ rest
print_piece (comment_piece t) rest = b'<' ∷ b'!' ∷ b'-' ∷ b'-' ∷ (t ++ (b'-' ∷ b'-' ∷ b'>' ∷ rest))
print_piece doctype_piece rest = doctype_text ++ (b'>' ∷ rest)

abbrev pub print_pieces : List Piece → Bytes
print_pieces [] = []
print_pieces (p ∷ ps) = print_piece p (print_pieces ps)

abbrev pub IsNonempty : Bytes → Type 0
IsNonempty s = 0 < length s

-- An attribute has a name, and its value has no double quote.
abbrev pub IsValue : Option Bytes → Type 0
IsValue none = Unit
IsValue (some v) = All (λ x. (x != b'"') ≡ true) v

abbrev pub IsAttr : Attr → Type 0
IsAttr a = IsNonempty a.name × All (λ x. is_attr_byte x ≡ true) a.name × IsValue a.value

-- A text begins with no blank, since blanks in front of a token are skipped.
abbrev pub StartsText : Bytes → Type 0
StartsText [] = ⊥
StartsText (x ∷ t) = isspace x ≡ false

abbrev pub IsPiece : Piece → Type 0
IsPiece (tag_piece is_end name attrs slash) =
    IsNonempty name × All (λ x. is_name_byte x ≡ true) name × All IsAttr attrs
IsPiece (text_piece t) = StartsText t × All (λ x. is_text_byte x ≡ true) t
IsPiece (comment_piece t) = find_comment_end t ≡ none
IsPiece doctype_piece = Unit

abbrev pub is_text : Piece → Bool
is_text (text_piece t) = true
is_text _ = false

-- Two texts in a row would be read as one.
abbrev pub Apart : Piece → List Piece → Type 0
Apart p [] = Unit
Apart p (q ∷ ps) = (is_text p && is_text q) ≡ false

abbrev pub IsDocument : List Piece → Type 0
IsDocument [] = Unit
IsDocument (p ∷ ps) = IsPiece p × Apart p ps × IsDocument ps
