-- ===== src/Html/Token/RoundTrip.antt =====
-- A document that is written out is read back.
use prismatic_os.Base.{
  ℕ, zero, suc, ◌≤◌, ◌<◌, ◌≡◌, refl, ap, ◌∙◌, ◌≢◌, ◌↔◌, inl, inr, Bool, true, false, none, some,
  List, [], ◌∷◌, ◌++◌, map, arith, ◌==◌, Bool-cases, Bytes, length, take, length-append,
}
use prismatic_os.Libc.Ctype.{isspace, tolower}
use prismatic_os.Libc.Str.{head_byte}
use prismatic_os.Libc.Str.Search.{All}
use prismatic_os.Libc.Strtol.{tail}
use prismatic_os.Html.Token.{
  comment, doctype, text, span, skip_space, html_parse_tag, find_comment_end, html_parse_comment,
  comment_token, html_parse_text, is_text_byte, plain_token, doctype_text, starts_comment,
  starts_doctype, token_at, html_parser_next_token, tokens,
}
use prismatic_os.Html.Token.Print.{
  Piece, tag_piece, text_piece, comment_piece, doctype_piece, token_of, print_slash, print_attrs,
  print_piece, print_pieces, IsPiece, IsDocument, Apart, StartsText, is_text,
}
use prismatic_os.Html.Token.Attributes.{Stops, tag_rest, span-append}
use prismatic_os.Html.Token.Tags.{
  length-print_attrs, html_parse_tag_lem, find_comment_end-append, name_start,
}

-- What strncasecmp is documented to do, on strings without a zero byte: it finds no difference
-- where the first `n` bytes are the same up to their case.
abbrev pub ComparesCase : (Bytes → Bytes → ℕ → Bool) → Type 0
ComparesCase same_prefix =
    (s t : Bytes) (n : ℕ)
    → (same_prefix s t n ≡ true) ↔ (map tolower (take n s) ≡ map tolower (take n t))

second : Bytes → ℕ
second s = head_byte (tail s)

module _ (same_prefix : Bytes → Bytes → ℕ → Bool) (same : ComparesCase same_prefix) where
  -- The second byte tells a tag from a doctype.
  starts_doctype-tag :
      (c : ℕ) (s : Bytes)
      → tolower (head_byte s) ≢ b'!'
      → starts_doctype same_prefix (c ∷ s) ≡ false
  unfolding starts_doctype second tolower
  starts_doctype-tag c [] other = refl
  starts_doctype-tag c (x ∷ s) other = elim (Bool-cases (same_prefix (c ∷ x ∷ s) doctype_text 9)) [
    | inl prefix ↦ absurd (other (ap second ((same (c ∷ x ∷ s) doctype_text 9).0 prefix)))
    | inr differs ↦ rw differs (ground arith)
  ]

  doctype_lem : (rest : Bytes) → starts_doctype same_prefix (doctype_text ++ (b'>' ∷ rest)) ≡ true
  unfolding starts_doctype
  doctype_lem rest =
      rw ((same (doctype_text ++ (b'>' ∷ rest)) doctype_text 9).1 refl) (ground arith)

  html_parse_text_lem :
      (t rest : Bytes)
      → All (λ x. is_text_byte x ≡ true) t
      → Stops is_text_byte rest
      → html_parse_text (t ++ rest) ≡ (some (plain_token text t), rest)
  unfolding html_parse_text
  html_parse_text_lem t rest h stop = rw (span-append is_text_byte t rest h stop) refl

  token_at_tag :
      (s : Bytes)
      → (head_byte s == b'!') ≡ false
      → tolower (head_byte s) ≢ b'!'
      → token_at same_prefix (b'<' ∷ s) ≡ html_parse_tag s
  unfolding token_at starts_comment
  token_at_tag s h k = rw (h, starts_doctype-tag b'<' s k) refl

  slash_start :
      (is_end : Bool) (s : Bytes)
      → (head_byte s == b'!') ≡ false
      → tolower (head_byte s) ≢ b'!'
      → ((head_byte (print_slash is_end s) == b'!') ≡ false)
        × (tolower (head_byte (print_slash is_end s)) ≢ b'!')
  unfolding tolower
  slash_start true s h k = (refl, ground arith)
  slash_start false s h k = (h, k)

  token_at_text :
      (t rest : Bytes)
      → StartsText t
      → All (λ x. is_text_byte x ≡ true) t
      → Stops is_text_byte rest
      → token_at same_prefix (t ++ rest) ≡ (some (plain_token text t), rest)
  unfolding token_at is_text_byte
  token_at_text [] rest start h stop = absurd start
  token_at_text (x ∷ t) rest start (hx, h) stop =
      let other : (x == b'<') ≡ false = ground arith in
      rw other (html_parse_text_lem (x ∷ t) rest (hx, h) stop)

  html_parse_comment_lem :
      (t rest : Bytes)
      → find_comment_end t ≡ none
      → html_parse_comment (t ++ (b'-' ∷ b'-' ∷ b'>' ∷ rest)) ≡ (some (plain_token comment t), rest)
  unfolding html_parse_comment
  html_parse_comment_lem t rest h =
      ap (comment_token (t ++ (b'-' ∷ b'-' ∷ b'>' ∷ rest))) (find_comment_end-append t rest h)

  token_at_comment :
      (t rest : Bytes)
      → find_comment_end t ≡ none
      → token_at same_prefix (print_piece (comment_piece t) rest)
        ≡ (some (plain_token comment t), rest)
  unfolding token_at starts_comment
  token_at_comment t rest h = html_parse_comment_lem t rest h

  token_at_doctype :
      (rest : Bytes)
      → token_at same_prefix (print_piece doctype_piece rest)
        ≡ (some (plain_token doctype []), rest)
  unfolding token_at starts_comment span
  token_at_doctype rest = rw (doctype_lem rest) refl

  token_at_lem :
      (p : Piece) (rest : Bytes)
      → IsPiece p
      → (is_text p ≡ true → Stops is_text_byte rest)
      → token_at same_prefix (print_piece p rest) ≡ (some (token_of p), rest)
  unfolding tag_rest
  token_at_lem (tag_piece is_end name attrs slash) rest (ne, bytes, h) stop =
      let s = name ++ print_attrs attrs (tag_rest slash rest) in
      let (k0, k1, k2) = name_start name (print_attrs attrs (tag_rest slash rest)) ne bytes in
      let (h1, h2) = slash_start is_end s k1 k2 in
      token_at_tag (print_slash is_end s) h1 h2
      ∙ html_parse_tag_lem is_end name attrs slash rest ne bytes h
  token_at_lem (text_piece t) rest (start, h) stop = token_at_text t rest start h (stop refl)
  token_at_lem (comment_piece t) rest h stop = token_at_comment t rest h
  token_at_lem doctype_piece rest h stop = token_at_doctype rest

  first_token_lem :
      (p : Piece) (rest : Bytes)
      → IsPiece p
      → html_parser_next_token same_prefix (print_piece p rest)
        ≡ token_at same_prefix (print_piece p rest)
  unfolding html_parser_next_token skip_space isspace
  first_token_lem (tag_piece is_end name attrs slash) rest h = refl
  first_token_lem (text_piece []) rest (start, h) = absurd start
  first_token_lem (text_piece (x ∷ t)) rest (start, h) = rw start refl
  first_token_lem (comment_piece t) rest h = refl
  first_token_lem doctype_piece rest h = refl

  -- What stands behind a text is no text.
  Stops-text :
      (p : Piece) (ps : List Piece)
      → is_text p ≡ true
      → Apart p ps
      → Stops is_text_byte (print_pieces ps)
  unfolding is_text_byte
  Stops-text p [] e apart = tt
  Stops-text p (tag_piece is_end name attrs slash ∷ ps) e apart = refl
  Stops-text p (text_piece t ∷ ps) e apart = ground (arith, e, apart)
  Stops-text p (comment_piece t ∷ ps) e apart = refl
  Stops-text p (doctype_piece ∷ ps) e apart = refl

  length-slash : (slash : Bool) (rest : Bytes) → length rest ≤ length (print_slash slash rest)
  length-slash true rest = omega arith
  length-slash false rest = omega arith

  length-print_piece :
      (p : Piece) (rest : Bytes) → IsPiece p → length rest < length (print_piece p rest)
  length-print_piece (tag_piece is_end name attrs slash) rest h = omega (
    arith,
    length-slash is_end (name ++ print_attrs attrs (print_slash slash (b'>' ∷ rest))),
    length-append name (print_attrs attrs (print_slash slash (b'>' ∷ rest))),
    length-print_attrs attrs (print_slash slash (b'>' ∷ rest)),
    length-slash slash (b'>' ∷ rest),
  )
  length-print_piece (text_piece []) rest (start, h) = absurd start
  length-print_piece (text_piece (x ∷ t)) rest h = omega (arith, length-append t rest)
  length-print_piece (comment_piece t) rest h =
      omega (arith, length-append t (b'-' ∷ b'-' ∷ b'>' ∷ rest))
  length-print_piece doctype_piece rest h = omega arith

  -- A document of pieces, no two of them texts in a row, is written out and read back: with fuel above
  -- the length of the text the tokenizer gives the token of every piece in turn, for tags with
  -- attributes, texts, comments and doctypes. Names and values have only the bytes that the tokenizer
  -- allows in them, a text does not begin with a blank and has no `<`, and a comment has no `-->`.
  -- strncasecmp is taken to be as documented.
  pub tokens-print_pieces :
      (ps : List Piece) (n : ℕ)
      → IsDocument ps
      → length (print_pieces ps) < n
      → tokens same_prefix n (print_pieces ps) ≡ map token_of ps
  unfolding tokens
  tokens-print_pieces ps zero h l = absurd (omega arith)
  tokens-print_pieces [] (suc n) h l = unfold html_parser_next_token skip_space in refl
  tokens-print_pieces (p ∷ ps) (suc n) (h, apart, hs) l =
      let rest = print_pieces ps in
      let read = first_token_lem p rest h ∙ token_at_lem p rest h (λ e. Stops-text p ps e apart) in
      rw (read, tokens-print_pieces ps n hs (omega (arith, length-print_piece p rest h))) refl
