-- ===== src/Html/Css/Token.antt =====
-- The tokenizer of html/src/css/css_parser.c. As for HTML, the state of the parser is the text from
-- `position` on, and a position at the end or behind it is the empty list; malloc is taken to
-- succeed, as the source takes it. `line` and `column` never change, and `offset` is the place in the
-- text, so that tokens stand without them. strncasecmp and css_parse_number_or_ident are not in the
-- repository: `same_prefix s t n` stands for strncasecmp(s, t, n) == 0, and `number_or_ident` is the
-- token made at a digit or a hyphen together with the text that is left.
pub mod Progress
pub mod Tokens
pub mod Words
use prismatic_os.Base.{
  ℕ, zero, suc, Bool, ◌&&◌, ◌||◌, Option, none, some, [], ◌∷◌, ◌++◌, ltb, ◌==◌, if◌then◌else◌,
  Bytes, length, drop,
}
use prismatic_os.Libc.Ctype.{isalpha, isalnum, isdigit, isxdigit, isspace}
use prismatic_os.Libc.Str.{head_byte}
use prismatic_os.Libc.Strtol.{tail}
use prismatic_os.Html.Token.{span, is_nil, skip_space, closed_value}

-- The types that no token is made with are kept.
pub data CssTokenType : Type 0 where
  ident at_keyword string hash number integer percentage dimension url bad_string bad_url :
      CssTokenType
  delim colon semicolon comma left_bracket right_bracket left_paren right_paren : CssTokenType
  left_brace right_brace include_match dash_match prefix_match suffix_match : CssTokenType
  substring_match column whitespace cdo cdc eof : CssTokenType

-- `length` is the length of the value. Punctuation has no value: the pointer is NULL.
pub record CssToken : Type 0 where
  pub type : CssTokenType
  pub value : Option Bytes

abbrev pub word : CssTokenType → Bytes → CssToken
word type value = record { type = type; value = some value }

abbrev pub punctuation : CssTokenType → CssToken
punctuation type = record { type = type; value = none }

unfoldable pub is_ident_start : ℕ → Bool
is_ident_start c = isalpha c || (c == b'-') || (c == b'_') || (c == b'\\')

unfoldable pub is_ident_byte : ℕ → Bool
is_ident_byte c = isalnum c || (c == b'-') || (c == b'_') || (c == b'\\')

abbrev pub some_first : Bytes × Bytes → Option Bytes × Bytes
some_first (front, rest) = (some front, rest)

-- Every byte that may begin an identifier may continue it.
unfoldable pub css_parse_ident : Bytes → Option Bytes × Bytes
css_parse_ident s =
    if is_ident_start (head_byte s) then some_first (span is_ident_byte s) else (none, s)

-- The bytes in front of the first one that is `stop`, and what is left. A byte behind a backslash
-- never stops.
unfoldable pub scan_until : ℕ → Bytes → Bytes × Bytes
scan_until stop [] = ([], [])
scan_until stop (x ∷ []) = if x == stop then ([], x ∷ []) else (x ∷ [], [])
scan_until stop (x ∷ y ∷ s) =
    let (front, rest) = scan_until stop (y ∷ s) in
    let (front', rest') = scan_until stop s in
    if x == stop
    then ([], x ∷ y ∷ s)
    else if x == b'\\'
    then (x ∷ y ∷ front', rest')
    else (x ∷ front, rest)

-- The text begins with the opening quote.
pub css_parse_string : ℕ → Bytes → Option Bytes × Bytes
css_parse_string quote s = let (value, rest) = scan_until quote (tail s) in closed_value value rest

-- The text is left at the `)`.
unfoldable pub unquoted_url : Bytes → Option Bytes × Bytes
unquoted_url s =
    let (value, rest) = scan_until b')' s in if is_nil rest then (none, []) else (some value, rest)

unfoldable pub close_url : Option Bytes → Bytes → Option Bytes × Bytes
close_url value s = if head_byte s == b')' then (value, tail s) else (none, s)

-- The text begins with `url(`, of which the code skips three bytes.
pub css_parse_url : Bytes → Option Bytes × Bytes
css_parse_url s =
    let t = skip_space (drop 3 s) in
    let quote = head_byte t in
    let (value, rest) =
      if (quote == b'"') || (quote == b'\'') then css_parse_string quote t else unquoted_url t in
    close_url value (skip_space rest)

-- What stands behind the next `*/`: nothing where there is none.
unfoldable pub after_comment : Bytes → Bytes
after_comment [] = []
after_comment (x ∷ s) =
    let rest = after_comment s in if (x == b'*') && (head_byte s == b'/') then tail s else rest

unfoldable pub starts_css_comment : Bytes → Bool
starts_css_comment s = (head_byte s == b'/') && (head_byte (tail s) == b'*')

-- Blanks and comments; every round takes a byte, so the length of the text is fuel enough.
unfoldable pub skip_blank : ℕ → Bytes → Bytes
skip_blank zero s = s
skip_blank (suc n) [] = []
skip_blank (suc n) (x ∷ s) =
    let behind = skip_blank n s in
    let after = skip_blank n (after_comment (tail s)) in
    if isspace x then behind else if starts_css_comment (x ∷ s) then after else x ∷ s

abbrev pub sign_part : Bytes → Bytes × Bytes
sign_part [] = ([], [])
sign_part (x ∷ s) = if (x == b'+') || (x == b'-') then (x ∷ [], s) else ([], x ∷ s)

abbrev pub fraction_part : Bytes → Bytes × Bytes
fraction_part [] = ([], [])
fraction_part (x ∷ s) =
    let (digits, rest) = span isdigit s in if x == b'.' then (x ∷ digits, rest) else ([], x ∷ s)

abbrev pub exponent_part : Bytes → Bytes × Bytes
exponent_part [] = ([], [])
exponent_part (x ∷ s) =
    let (sign, behind) = sign_part s in
    let (digits, rest) = span isdigit behind in
    if (x == b'e') || (x == b'E') then (x ∷ (sign ++ digits), rest) else ([], x ∷ s)

-- The number that atof or atoi gives is stored in a field that css_token_t does not have; the text
-- is the token's value.
unfoldable pub css_parse_number : Bytes → CssToken × Bytes
css_parse_number s =
    let (sign, t) = sign_part s in
    let (digits, u) = span isdigit t in
    let (fraction, v) = fraction_part u in
    let (exponent, rest) = exponent_part v in
    let type = if is_nil fraction && is_nil exponent then integer else number in
    (word type (sign ++ (digits ++ (fraction ++ exponent))), rest)

abbrev pub single_type : ℕ → Option CssTokenType
single_type c =
    if c == b':'
    then some colon
    else if c == b';'
    then some semicolon
    else if c == b','
    then some comma
    else if c == b'('
    then some left_paren
    else if c == b')'
    then some right_paren
    else if c == b'['
    then some left_bracket
    else if c == b']'
    then some right_bracket
    else if c == b'{'
    then some left_brace
    else if c == b'}'
    then some right_brace
    else none

abbrev pub pair_type : ℕ → ℕ → Option CssTokenType
pair_type c d =
    if (c == b'~') && (d == b'=')
    then some include_match
    else if (c == b'|') && (d == b'=')
    then some dash_match
    else if (c == b'|') && (d == b'|')
    then some column
    else if (c == b'^') && (d == b'=')
    then some prefix_match
    else if (c == b'$') && (d == b'=')
    then some suffix_match
    else if (c == b'*') && (d == b'=')
    then some substring_match
    else none

abbrev pub delimiter : ℕ → Bytes → CssToken × Bytes
delimiter c s = (word delim (c ∷ []), s)

-- Where no value could be read, the fallback steps over the byte where the reading stopped.
abbrev pub word_or_delim : CssTokenType → ℕ → Option Bytes × Bytes → CssToken × Bytes
word_or_delim type c (none, s) = delimiter c (tail s)
word_or_delim type c (some value, s) = (word type value, s)

abbrev pub hash_value : Bytes → Option Bytes × Bytes
hash_value s = if isxdigit (head_byte s) then some_first (span isxdigit s) else (none, s)

abbrev pub url_start : Bytes
url_start = b'u' ∷ b'r' ∷ b'l' ∷ b'(' ∷ []

abbrev pub punctuation_or : Option CssTokenType → Bytes → CssToken × Bytes → CssToken × Bytes
punctuation_or none s other = other
punctuation_or (some type) s other = (punctuation type, s)

module _ (same_prefix : Bytes → Bytes → ℕ → Bool) (number_or_ident : Bytes → CssToken × Bytes) where
  -- The token at `c ∷ s`, if no punctuation stands there.
  unfoldable pub word_at : ℕ → Bytes → CssToken × Bytes
  word_at c s =
      if c == b'@'
      then word_or_delim at_keyword c (css_parse_ident s)
      else if c == b'#'
      then word_or_delim hash c (hash_value s)
      else if c == b'.'
      then (if isdigit (head_byte s) then css_parse_number (c ∷ s) else delimiter c s)
      else if (c == b'-') || isdigit c
      then number_or_ident (c ∷ s)
      else if (c == b'"') || (c == b'\'')
      then word_or_delim string c (css_parse_string c (c ∷ s))
      else if (c == b'u') || (c == b'U')
      then (if ltb 3 (length (c ∷ s)) && same_prefix (c ∷ s) url_start 4
          then word_or_delim url c (css_parse_url (c ∷ s))
          else word_or_delim ident c (css_parse_ident (c ∷ s)))
      else if isalpha c || (c == b'_')
      then word_or_delim ident c (css_parse_ident (c ∷ s))
      else delimiter c s

  unfoldable pub css_token_at : ℕ → Bytes → CssToken × Bytes
  css_token_at c s =
      punctuation_or (single_type c) s
        (punctuation_or (pair_type c (head_byte s)) (tail s) (word_at c s))

  abbrev pub css_first_token : Bytes → Option CssToken × Bytes
  css_first_token [] = (none, [])
  css_first_token (c ∷ s) = let (token, rest) = css_token_at c s in (some token, rest)

  pub css_next_token : Bytes → Option CssToken × Bytes
  css_next_token s = css_first_token (skip_blank (length s) s)
