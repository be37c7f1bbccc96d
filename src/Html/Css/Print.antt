-- ===== src/Html/Css/Print.antt =====
-- Stylesheets as pieces, how they are written, and what the CSS parser makes of them.
pub mod Tokens
use prismatic_os.Base.{
  ◌≡◌, true, false, ◌||◌, Option, none, some, List, [], ◌∷◌, ◌++◌, map, ◌==◌, Bytes,
}
use mathlib.Core.List.{reverse}
use prismatic_os.Libc.Ctype.{isalpha, isxdigit}
use prismatic_os.Libc.Str.Search.{All}
use prismatic_os.Html.Css.Token.{
  CssToken, ident, at_keyword, string, hash, colon, semicolon, left_brace, right_brace, word,
  punctuation, is_ident_byte,
}
use prismatic_os.Html.Css.Rule.{Declaration, Rule, element_selector}

-- A word of a value: an identifier, a colour with its `#`, or a quoted text.
pub data Word : Type 0 where
  ident_word hash_word string_word : Bytes → Word

pub record DeclarationPiece : Type 0 where
  pub property : Bytes
  pub first : Word
  pub more : List Word

pub record RulePiece : Type 0 where
  pub selector : Bytes
  pub declarations : List DeclarationPiece

-- An at-rule ends with a block of rules or with a semicolon.
pub data Piece : Type 0 where
  rule_piece : RulePiece → Piece
  comment_piece : Bytes → Piece
  at_piece : (name : Bytes) → (words : List Bytes) → Option (List RulePiece) → Piece

-- Each printer puts its text in front of the rest.
abbrev pub print_word : Word → Bytes → Bytes
print_word (ident_word w) rest = w ++ rest
print_word (hash_word w) rest = b'#' ∷ (w ++ rest)
print_word (string_word w) rest = b'"' ∷ (w ++ (b'"' ∷ rest))

abbrev pub print_more : List Word → Bytes → Bytes
print_more [] rest = rest
print_more (w ∷ ws) rest = b' ' ∷ print_word w (print_more ws rest)

abbrev pub print_declaration : DeclarationPiece → Bytes → Bytes
print_declaration d rest =
    d.property ++ (b':' ∷ b' ' ∷ print_word d.first (print_more d.more (b';' ∷ rest)))

abbrev pub print_declarations : List DeclarationPiece → Bytes → Bytes
print_declarations [] rest = rest
print_declarations (d ∷ ds) rest = b' ' ∷ print_declaration d (print_declarations ds rest)

abbrev pub print_rule : RulePiece → Bytes → Bytes
print_rule r rest =
    r.selector ++ (b' ' ∷ b'{' ∷ print_declarations r.declarations (b' ' ∷ b'}' ∷ rest))

abbrev pub print_rules : List RulePiece → Bytes → Bytes
print_rules [] rest = rest
print_rules (r ∷ rs) rest = b' ' ∷ print_rule r (print_rules rs rest)

abbrev pub print_names : List Bytes → Bytes → Bytes
print_names [] rest = rest
print_names (w ∷ ws) rest = b' ' ∷ (w ++ print_names ws rest)

abbrev pub print_block : Option (List RulePiece) → Bytes → Bytes
print_block none rest = b';' ∷ rest
print_block (some rs) rest = b' ' ∷ b'{' ∷ print_rules rs (b' ' ∷ b'}' ∷ rest)

abbrev pub print_piece : Piece → Bytes → Bytes
print_piece (rule_piece r) rest = print_rule r rest
print_piece (comment_piece text) rest = b'/' ∷ b'*' ∷ (text ++ (b'*' ∷ b'/' ∷ rest))
print_piece (at_piece name words inner) rest =
    b'@' ∷ (name ++ print_names words (print_block inner rest))

abbrev pub print_sheet : List Piece → Bytes
print_sheet [] = []
print_sheet (p ∷ ps) = print_piece p (print_sheet ps)

-- The tokens of a text, in front of the tokens of the rest.
abbrev pub word_token : Word → CssToken
word_token (ident_word w) = word ident w
word_token (hash_word w) = word hash w
word_token (string_word w) = word string w

abbrev pub declaration_tokens : DeclarationPiece → List CssToken → List CssToken
declaration_tokens d ts =
    word ident d.property
    ∷ punctuation colon
    ∷ word_token d.first
    ∷ (map word_token d.more ++ (punctuation semicolon ∷ ts))

abbrev pub declarations_tokens : List DeclarationPiece → List CssToken → List CssToken
declarations_tokens [] ts = ts
declarations_tokens (d ∷ ds) ts = declaration_tokens d (declarations_tokens ds ts)

abbrev pub rule_tokens : RulePiece → List CssToken → List CssToken
rule_tokens r ts =
    word ident r.selector
    ∷ punctuation left_brace
    ∷ declarations_tokens r.declarations (punctuation right_brace ∷ ts)

abbrev pub rules_tokens : List RulePiece → List CssToken → List CssToken
rules_tokens [] ts = ts
rules_tokens (r ∷ rs) ts = rule_tokens r (rules_tokens rs ts)

abbrev pub block_tokens : Option (List RulePiece) → List CssToken → List CssToken
block_tokens none ts = punctuation semicolon ∷ ts
block_tokens (some rs) ts = punctuation left_brace ∷ rules_tokens rs (punctuation right_brace ∷ ts)

abbrev pub piece_tokens : Piece → List CssToken → List CssToken
piece_tokens (rule_piece r) ts = rule_tokens r ts
piece_tokens (comment_piece text) ts = ts
piece_tokens (at_piece name words inner) ts =
    word at_keyword name ∷ (map (word ident) words ++ block_tokens inner ts)

abbrev pub sheet_tokens : List Piece → List CssToken
sheet_tokens [] = []
sheet_tokens (p ∷ ps) = piece_tokens p (sheet_tokens ps)

-- A hyphen in front is left to the function that the repository does not have.
abbrev pub IsIdent : Bytes → Type 0
IsIdent [] = ⊥
IsIdent (c ∷ w) = ((isalpha c || (c == b'_')) ≡ true) × All (λ x. is_ident_byte x ≡ true) w

abbrev pub IsHash : Bytes → Type 0
IsHash [] = ⊥
IsHash (c ∷ w) = (isxdigit c ≡ true) × All (λ x. isxdigit x ≡ true) w

abbrev pub IsWord : Word → Type 0
IsWord (ident_word w) = IsIdent w
IsWord (hash_word w) = IsHash w
IsWord (string_word w) = All (λ x. ((x == b'"') ≡ false) × ((x == b'\\') ≡ false)) w

abbrev pub IsDeclaration : DeclarationPiece → Type 0
IsDeclaration d = IsIdent d.property × IsWord d.first × All IsWord d.more

abbrev pub IsRule : RulePiece → Type 0
IsRule r = IsIdent r.selector × All IsDeclaration r.declarations

abbrev pub IsBlock : Option (List RulePiece) → Type 0
IsBlock none = Unit
IsBlock (some rs) = All IsRule rs

abbrev pub IsPiece : Piece → Type 0
IsPiece (rule_piece r) = IsRule r
IsPiece (comment_piece text) = All (λ x. (x == b'*') ≡ false) text
IsPiece (at_piece name words inner) = IsIdent name × All IsIdent words × IsBlock inner

-- The text that the parser takes from a word, which has neither the `#` nor the quotes.
abbrev pub text_of : Word → Bytes
text_of (ident_word w) = w
text_of (hash_word w) = w
text_of (string_word w) = w

abbrev pub joined : Bytes → List Word → Bytes
joined v [] = v
joined v (w ∷ ws) = joined (v ++ (b' ' ∷ text_of w)) ws

module _ (blank : Declaration) where
  abbrev pub declaration_of : DeclarationPiece → Declaration
  declaration_of d = record blank {
    property = some d.property;
    value = some (joined (text_of d.first) d.more);
  }

  abbrev pub rule_of : RulePiece → Rule
  rule_of r = record {
    selectors = record { type = element_selector; value = some r.selector } ∷ [];
    declarations = reverse (map declaration_of r.declarations);
    specificity = 0;
  }

  -- At-rules and comments leave no trace.
  abbrev pub rules_of : List Piece → List Rule
  rules_of [] = []
  rules_of (rule_piece r ∷ ps) = rule_of r ∷ rules_of ps
  rules_of (comment_piece text ∷ ps) = rules_of ps
  rules_of (at_piece name words inner ∷ ps) = rules_of ps
