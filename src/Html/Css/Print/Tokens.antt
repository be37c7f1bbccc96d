-- ===== src/Html/Css/Print/Tokens.antt =====
-- The tokenizer of CSS reads back the tokens of a stylesheet that is written out.
use prismatic_os.Base.{
  ℕ, ◌≡◌, refl, sym, ap, ◌∙◌, Bool, false, Option, none, some, List, [], ◌∷◌, ◌++◌, map, ◌==◌,
  Bytes,
}
use prismatic_os.Libc.Ctype.{isalnum, isspace, isxdigit}
use prismatic_os.Libc.Str.Search.{All}
use prismatic_os.Html.Token.RoundTrip.{ComparesCase}
use prismatic_os.Html.Css.Token.{
  CssToken, ident, at_keyword, colon, semicolon, left_brace, right_brace, word, punctuation,
  is_ident_byte,
}
use prismatic_os.Html.Css.Token.Progress.{MovesForward}
use prismatic_os.Html.Css.Token.Tokens.{css_tokens, css_tokens-nil}
use prismatic_os.Html.Css.Token.Words.{
  tokens-space, tokens-comment, tokens-punctuation, tokens-ident, tokens-at_keyword, tokens-hash,
  tokens-string,
}
use prismatic_os.Html.Css.Print.{
  Word, ident_word, hash_word, string_word, DeclarationPiece, RulePiece, Piece, rule_piece,
  comment_piece, at_piece, print_word, print_more, print_declaration, print_declarations,
  print_rule, print_rules, print_names, print_block, print_piece, print_sheet, word_token,
  declaration_tokens, declarations_tokens, rule_tokens, rules_tokens, block_tokens, piece_tokens,
  sheet_tokens, IsIdent, IsWord, IsDeclaration, IsRule, IsBlock, IsPiece,
}

module _ (same_prefix : Bytes → Bytes → ℕ → Bool) (number_or_ident : Bytes → CssToken × Bytes)
    (forward : MovesForward number_or_ident) (same : ComparesCase same_prefix) where
  abbrev toks : Bytes → List CssToken
  toks s = css_tokens same_prefix number_or_ident s

  space : (s : Bytes) → toks (b' ' ∷ s) ≡ toks s
  space s = tokens-space same_prefix number_or_ident forward s

  -- What may stand behind a word.
  abbrev EndsWord : ℕ → Type 0
  EndsWord r = (is_ident_byte r ≡ false) × ((r == b'(') ≡ false) × (isxdigit r ≡ false)

  EndsWord-space : EndsWord b' '
  unfolding is_ident_byte isxdigit isalnum
  EndsWord-space = (refl, refl, refl)

  EndsWord-semicolon : EndsWord b';'
  unfolding is_ident_byte isxdigit isalnum
  EndsWord-semicolon = (refl, refl, refl)

  EndsWord-colon : EndsWord b':'
  unfolding is_ident_byte isxdigit isalnum
  EndsWord-colon = (refl, refl, refl)

  tokens-word :
      (w : Word) (r : ℕ) (rest : Bytes)
      → IsWord w
      → EndsWord r
      → toks (print_word w (r ∷ rest)) ≡ word_token w ∷ toks (r ∷ rest)
  tokens-word (ident_word w) r rest h (a, b, c) =
      tokens-ident same_prefix number_or_ident forward same w r rest h a b
  tokens-word (hash_word w) r rest h (a, b, c) =
      tokens-hash same_prefix number_or_ident forward same w r rest h c
  tokens-word (string_word w) r rest h e =
      tokens-string same_prefix number_or_ident forward same w (r ∷ rest) h

  tokens-colon : (s : Bytes) → toks (b':' ∷ s) ≡ punctuation colon ∷ toks s
  unfolding isspace
  tokens-colon s =
      tokens-punctuation same_prefix number_or_ident forward b':' colon s refl refl refl

  tokens-semicolon : (s : Bytes) → toks (b';' ∷ s) ≡ punctuation semicolon ∷ toks s
  unfolding isspace
  tokens-semicolon s =
      tokens-punctuation same_prefix number_or_ident forward b';' semicolon s refl refl refl

  tokens-open : (s : Bytes) → toks (b' ' ∷ b'{' ∷ s) ≡ punctuation left_brace ∷ toks s
  unfolding isspace
  tokens-open s =
      space (b'{' ∷ s)
      ∙ tokens-punctuation same_prefix number_or_ident forward b'{' left_brace s refl refl refl

  tokens-close : (s : Bytes) → toks (b' ' ∷ b'}' ∷ s) ≡ punctuation right_brace ∷ toks s
  unfolding isspace
  tokens-close s =
      space (b'}' ∷ s)
      ∙ tokens-punctuation same_prefix number_or_ident forward b'}' right_brace s refl refl refl

  tokens-words :
      (w : Word) (ws : List Word) (rest : Bytes)
      → IsWord w
      → All IsWord ws
      → toks (print_word w (print_more ws (b';' ∷ rest)))
        ≡ word_token w ∷ (map word_token ws ++ (punctuation semicolon ∷ toks rest))
  tokens-words w [] rest h k =
      tokens-word w b';' rest h EndsWord-semicolon
      ∙ ap (λ ts. word_token w ∷ ts) (tokens-semicolon rest)
  tokens-words w (v ∷ ws) rest h (hv, k) =
      let behind = print_word v (print_more ws (b';' ∷ rest)) in
      tokens-word w b' ' behind h EndsWord-space
      ∙ ap (λ ts. word_token w ∷ ts) (space behind ∙ tokens-words v ws rest hv k)

  tokens-declaration :
      (d : DeclarationPiece) (rest : Bytes)
      → IsDeclaration d
      → toks (print_declaration d rest) ≡ declaration_tokens d (toks rest)
  tokens-declaration d rest (hp, h, k) =
      let value = print_word d.first (print_more d.more (b';' ∷ rest)) in
      tokens-word (ident_word d.property) b':' (b' ' ∷ value) hp EndsWord-colon
      ∙ ap (λ ts. word ident d.property ∷ ts)
          (tokens-colon (b' ' ∷ value)
            ∙ ap (λ ts. punctuation colon ∷ ts)
                (space value ∙ tokens-words d.first d.more rest h k))

  tokens-declarations :
      (ds : List DeclarationPiece) (rest : Bytes)
      → All IsDeclaration ds
      → toks (print_declarations ds rest) ≡ declarations_tokens ds (toks rest)
  tokens-declarations [] rest h = refl
  tokens-declarations (d ∷ ds) rest (hd, h) =
      let behind = print_declarations ds rest in
      space (print_declaration d behind)
      ∙ tokens-declaration d behind hd
      ∙ ap (declaration_tokens d) (tokens-declarations ds rest h)

  tokens-rule :
      (r : RulePiece) (rest : Bytes)
      → IsRule r
      → toks (print_rule r rest) ≡ rule_tokens r (toks rest)
  tokens-rule r rest (hs, h) =
      let inner = print_declarations r.declarations (b' ' ∷ b'}' ∷ rest) in
      tokens-word (ident_word r.selector) b' ' (b'{' ∷ inner) hs EndsWord-space
      ∙ ap (λ ts. word ident r.selector ∷ ts)
          (tokens-open inner
            ∙ ap (λ ts. punctuation left_brace ∷ ts)
                (tokens-declarations r.declarations (b' ' ∷ b'}' ∷ rest) h
                  ∙ ap (declarations_tokens r.declarations) (tokens-close rest)))

  tokens-rules :
      (rs : List RulePiece) (rest : Bytes)
      → All IsRule rs
      → toks (print_rules rs rest) ≡ rules_tokens rs (toks rest)
  tokens-rules [] rest h = refl
  tokens-rules (r ∷ rs) rest (hr, h) =
      let behind = print_rules rs rest in
      space (print_rule r behind)
      ∙ tokens-rule r behind hr
      ∙ ap (rule_tokens r) (tokens-rules rs rest h)

  tokens-block :
      (inner : Option (List RulePiece)) (rest : Bytes)
      → IsBlock inner
      → toks (print_block inner rest) ≡ block_tokens inner (toks rest)
  tokens-block none rest h = tokens-semicolon rest
  tokens-block (some rs) rest h =
      tokens-open (print_rules rs (b' ' ∷ b'}' ∷ rest))
      ∙ ap (λ ts. punctuation left_brace ∷ ts)
          (tokens-rules rs (b' ' ∷ b'}' ∷ rest) h ∙ ap (rules_tokens rs) (tokens-close rest))

  -- What stands behind a name in an at-rule's head.
  head_end :
      (ws : List Bytes) (inner : Option (List RulePiece)) (rest : Bytes)
      → (r : ℕ) × (s : Bytes) × (print_names ws (print_block inner rest) ≡ r ∷ s) × EndsWord r
  head_end [] none rest = (_, _, refl, EndsWord-semicolon)
  head_end [] (some rs) rest = (_, _, refl, EndsWord-space)
  head_end (w ∷ ws) inner rest = (_, _, refl, EndsWord-space)

  tokens-names :
      (ws : List Bytes) (inner : Option (List RulePiece)) (rest : Bytes)
      → All IsIdent ws
      → IsBlock inner
      → toks (print_names ws (print_block inner rest))
        ≡ map (word ident) ws ++ block_tokens inner (toks rest)
  tokens-names [] inner rest h k = tokens-block inner rest k
  tokens-names (w ∷ ws) inner rest (hw, h) k =
      let (r, s, e, ends) = head_end ws inner rest in
      space (w ++ print_names ws (print_block inner rest))
      ∙ ap (λ t. toks (w ++ t)) e
      ∙ tokens-word (ident_word w) r s hw ends
      ∙ ap (λ ts. word ident w ∷ ts) (ap toks (sym e) ∙ tokens-names ws inner rest h k)

  tokens-piece :
      (p : Piece) (rest : Bytes)
      → IsPiece p
      → toks (print_piece p rest) ≡ piece_tokens p (toks rest)
  tokens-piece (rule_piece r) rest h = tokens-rule r rest h
  tokens-piece (comment_piece text) rest h =
      tokens-comment same_prefix number_or_ident forward text rest h
  tokens-piece (at_piece name words inner) rest (hn, h, k) =
      let (r, s, e, ends) = head_end words inner rest in
      ap (λ t. toks (b'@' ∷ (name ++ t))) e
      ∙ tokens-at_keyword same_prefix number_or_ident forward same name r s hn ends.0
      ∙ ap (λ ts. word at_keyword name ∷ ts) (ap toks (sym e) ∙ tokens-names words inner rest h k)

  pub css_tokens-print_sheet :
      (ps : List Piece) → All IsPiece ps → toks (print_sheet ps) ≡ sheet_tokens ps
  css_tokens-print_sheet [] h = css_tokens-nil same_prefix number_or_ident forward
  css_tokens-print_sheet (p ∷ ps) (hp, h) =
      tokens-piece p (print_sheet ps) hp ∙ ap (piece_tokens p) (css_tokens-print_sheet ps h)
