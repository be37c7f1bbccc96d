-- ===== src/Html/Token/Tags.antt =====
-- One tag, one comment or one text that is written out is read back.
use prismatic_os.Base.{
  ℕ, suc, ◌+◌, ◌≤◌, ◌≡◌, refl, ◌∙◌, ◌≢◌, inl, inr, Bool, true, false, ◌&&◌, Option, none, some,
  List, [], ◌∷◌, ◌++◌, arith, ◌==◌, if◌then◌else◌, Bool-cases, Bytes, length, length-append,
}
use prismatic_os.Libc.Ctype.{isalnum, tolower}
use prismatic_os.Libc.Str.{head_byte}
use prismatic_os.Libc.Str.Search.{All}
use prismatic_os.Libc.Strtol.{tail}
use prismatic_os.Html.Token.{
  Attr, Token, start_tag, end_tag, is_nil, span, is_name_byte, tag_end, closed_tag, html_parse_tag,
  html_parse_tag_name, html_parse_attributes, find_comment_end,
}
use prismatic_os.Html.Token.Print.{
  tag_piece, token_of, print_slash, print_value, print_attrs, IsNonempty, IsAttr,
}
use prismatic_os.Html.Token.Attributes.{Stops, tag_rest, span-append, attributes_lem, is_nil-false}

-- Behind the name of a tag.
after_name :
    (attrs : List Attr) (slash : Bool) (rest : Bytes)
    → Stops is_name_byte (print_attrs attrs (tag_rest slash rest))
unfolding tag_rest is_name_byte isalnum
after_name [] true rest = refl
after_name [] false rest = refl
after_name (a ∷ more) slash rest = refl

pub length-print_attrs :
    (attrs : List Attr) (rest : Bytes)
    → length attrs + length rest ≤ length (print_attrs attrs rest)
length-print_attrs [] rest = omega arith
length-print_attrs (a ∷ attrs) rest = omega (
  arith,
  length-print_attrs attrs rest,
  length-append a.name (print_value a.value (print_attrs attrs rest)),
  length-print_value a.value (print_attrs attrs rest),
)
  where
    length-print_value :
        (v : Option Bytes) (rest : Bytes) → length rest ≤ length (print_value v rest)
    length-print_value none rest = omega arith
    length-print_value (some v) rest = omega (arith, length-append v (b'"' ∷ rest))

tag_end-tag_rest :
    (slash : Bool) (rest : Bytes) → tag_end (tag_rest slash rest) ≡ (some slash, rest)
unfolding tag_end tag_rest
tag_end-tag_rest true rest = refl
tag_end-tag_rest false rest = refl

module _ (name : Bytes) (attrs : List Attr) (slash : Bool) (rest : Bytes) where
  abbrev pub behind_name : Bytes
  behind_name = print_attrs attrs (tag_rest slash rest)

  -- What is read behind the slash of an end tag.
  abbrev pub read_tag : Bool → Bytes → Option Token × Bytes
  read_tag is_end s =
      let (name, behind) = span is_name_byte s in
      let (attrs, t) = html_parse_attributes (suc (length behind)) behind in
      let (closing, rest) = tag_end t in
      if is_nil name
      then (none, behind)
      else (closed_tag (if is_end then end_tag else start_tag) name attrs closing, rest)

  pub html_parse_tag-read_tag :
      (is_end : Bool) (s : Bytes)
      → (head_byte s == b'/') ≡ false
      → html_parse_tag (print_slash is_end s) ≡ read_tag is_end s
  unfolding html_parse_tag html_parse_tag_name
  html_parse_tag-read_tag true s h = refl
  html_parse_tag-read_tag false s h = rw h refl

  pub read_tag_lem :
      (is_end : Bool)
      → IsNonempty name
      → All (λ x. is_name_byte x ≡ true) name
      → All IsAttr attrs
      → read_tag is_end (name ++ behind_name)
        ≡ (some (token_of (tag_piece is_end name attrs slash)), rest)
  read_tag_lem is_end ne bytes h =
      rw
        (
          span-append is_name_byte name behind_name bytes (after_name attrs slash rest),
          is_nil-false name ne,
          attributes_lem slash rest attrs (suc (length behind_name)) h
              (omega (arith, length-print_attrs attrs (tag_rest slash rest))),
          tag_end-tag_rest slash rest,
        )
        refl

pub name_start :
    (name rest : Bytes)
    → IsNonempty name
    → All (λ x. is_name_byte x ≡ true) name
    → ((head_byte (name ++ rest) == b'/') ≡ false)
      × ((head_byte (name ++ rest) == b'!') ≡ false)
      × (tolower (head_byte (name ++ rest)) ≢ b'!')
unfolding is_name_byte isalnum tolower
name_start [] rest ne h = absurd (omega arith)
name_start (x ∷ name) rest ne (hx, h) = ground arith

-- Whether the end of a comment stands at the front.
abbrev is_end_at : Bytes → Bool
is_end_at s =
    (head_byte s == b'-') && (head_byte (tail s) == b'-') && (head_byte (tail (tail s)) == b'>')

is_end_at-append :
    (a : ℕ) (t rest : Bytes)
    → find_comment_end (a ∷ t) ≡ none
    → is_end_at (a ∷ (t ++ (b'-' ∷ b'-' ∷ b'>' ∷ rest))) ≡ false
unfolding find_comment_end
is_end_at-append a [] rest h = ground arith
is_end_at-append a (b ∷ []) rest h = ground arith
is_end_at-append a (b ∷ c ∷ t) rest h = elim (Bool-cases (is_end_at (a ∷ b ∷ c ∷ t))) [
  | inl found ↦ absurd (ground (arith, found, h))
  | inr other ↦ other
]

-- The end of a comment is found behind a text that has none.
pub find_comment_end-append :
    (t rest : Bytes)
    → find_comment_end t ≡ none
    → find_comment_end (t ++ (b'-' ∷ b'-' ∷ b'>' ∷ rest)) ≡ some (t, rest)
unfolding find_comment_end
find_comment_end-append [] rest h = refl
find_comment_end-append (a ∷ t) rest h =
    let later : find_comment_end t ≡ none = ground (arith, h) in
    rw (is_end_at-append a t rest h, find_comment_end-append t rest later) refl

-- A tag that is written out is read back, from behind its `<`.
pub html_parse_tag_lem :
    (is_end : Bool) (name : Bytes) (attrs : List Attr) (slash : Bool) (rest : Bytes)
    → IsNonempty name
    → All (λ x. is_name_byte x ≡ true) name
    → All IsAttr attrs
    → html_parse_tag (print_slash is_end (name ++ print_attrs attrs (tag_rest slash rest)))
      ≡ (some (token_of (tag_piece is_end name attrs slash)), rest)
html_parse_tag_lem is_end name attrs slash rest ne bytes h =
    html_parse_tag-read_tag name attrs slash rest is_end
      (name ++ print_attrs attrs (tag_rest slash rest))
      (name_start name (print_attrs attrs (tag_rest slash rest)) ne bytes).0
    ∙ read_tag_lem name attrs slash rest is_end ne bytes h
