-- ===== src/Html/Css/Token/Words.antt =====
-- What the tokenizer of CSS reads where a word, a blank, a comment or punctuation is written.
use prismatic_os.Base.{
  ℕ, zero, suc, ◌≤◌, ◌≡◌, refl, sym, ap, ◌∙◌, ◌≢◌, inl, inr, Bool, true, false, ◌&&◌, ◌||◌, none,
  some, List, [], ◌∷◌, ◌++◌, map, arith, ltb, ◌==◌, eq_refl, Bool-cases, Bytes, length, get_or,
  take, length-append,
}
use prismatic_os.Libc.Ctype.{isalpha, isdigit, isalnum, isupper, isspace, isxdigit, tolower}
use prismatic_os.Libc.Str.{head_byte}
use prismatic_os.Libc.Str.Search.{All}
use prismatic_os.Libc.Strtol.{tail}
use prismatic_os.Html.Token.Attributes.{Stops, span-append}
use prismatic_os.Html.Token.RoundTrip.{ComparesCase}
use prismatic_os.Html.Css.Token.{
  CssToken, CssTokenType, ident, at_keyword, string, hash, word, punctuation, is_ident_start,
  is_ident_byte, css_parse_ident, scan_until, css_parse_string, after_comment, starts_css_comment,
  skip_blank, single_type, pair_type, url_start, word_at, css_token_at, css_first_token,
  css_next_token,
}
use prismatic_os.Html.Css.Token.Progress.{MovesForward, length-after_comment}
use prismatic_os.Html.Token.Progress.{length-tail}
use prismatic_os.Html.Css.Token.Tokens.{css_tokens, css_tokens-next, cons_some}
use prismatic_os.Html.Css.Print.{IsIdent, IsHash}

scan_until_stop :
    (stop : ℕ) (v rest : Bytes)
    → All (λ x. ((x == stop) ≡ false) × ((x == b'\\') ≡ false)) v
    → scan_until stop (v ++ (stop ∷ rest)) ≡ (v, stop ∷ rest)
unfolding scan_until
scan_until_stop stop [] [] h = rw (eq_refl stop)
scan_until_stop stop [] (y ∷ rest) h = rw (eq_refl stop)
scan_until_stop stop (x ∷ []) rest ((e, b), h) =
    let later = scan_until_stop stop [] rest h in rw (e, b, later)
scan_until_stop stop (x ∷ y ∷ v) rest ((e, b), h) =
    let later = scan_until_stop stop (y ∷ v) rest h in rw (e, b, later)

ident-span :
    (c : ℕ) (w rest : Bytes)
    → is_ident_start c ≡ true
    → All (λ x. is_ident_byte x ≡ true) w
    → Stops is_ident_byte rest
    → css_parse_ident (c ∷ (w ++ rest)) ≡ (some (c ∷ w), rest)
unfolding css_parse_ident
ident-span c w rest start h stop =
    let cont : is_ident_byte c ≡ true =
      unfold is_ident_start is_ident_byte isalnum in ground arith in
    rw (start, span-append is_ident_byte (c ∷ w) rest (cont, h) stop)

-- No identifier is the beginning of `url(`.
not-url :
    (w : Bytes) (r : ℕ) (rest : Bytes)
    → IsIdent w
    → is_ident_byte r ≡ false
    → (r == b'(') ≡ false
    → map tolower (take 4 (w ++ (r ∷ rest))) ≢ map tolower (take 4 url_start)
unfolding is_ident_byte isalnum isalpha isdigit tolower isupper
not-url [] r rest h stop paren e = h
not-url (a ∷ []) r rest h stop paren e =
    let second : tolower r ≡ b'r' = ap (λ s. get_or s 1 0) e in ground arith
not-url (a ∷ b ∷ []) r rest h stop paren e =
    let third : tolower r ≡ b'l' = ap (λ s. get_or s 2 0) e in ground arith
not-url (a ∷ b ∷ c ∷ []) r rest h stop paren e =
    let fourth : tolower r ≡ b'(' = ap (λ s. get_or s 3 0) e in ground arith
not-url (a ∷ b ∷ c ∷ x ∷ w) r rest (ha, h) stop paren e =
    let hx : is_ident_byte x ≡ true = h.1.1.0 in
    let fourth : tolower x ≡ b'(' = ap (λ s. get_or s 3 0) e in ground arith

skip_blank-enough :
    (n m : ℕ) (s : Bytes) → length s ≤ n → length s ≤ m → skip_blank n s ≡ skip_blank m s
unfolding skip_blank
skip_blank-enough zero zero [] h k = refl
skip_blank-enough zero (suc m) [] h k = refl
skip_blank-enough (suc n) zero [] h k = refl
skip_blank-enough (suc n) (suc m) [] h k = refl
skip_blank-enough zero m (x ∷ s) h k = absurd (omega arith)
skip_blank-enough (suc n) zero (x ∷ s) h k = absurd (omega arith)
skip_blank-enough (suc n) (suc m) (x ∷ s) h k =
    let after = after_comment (tail s) in
    rw (
      skip_blank-enough n m s (omega arith) (omega arith),
      skip_blank-enough n m after (omega (arith, length-after_comment (tail s), length-tail s))
          (omega (arith, length-after_comment (tail s), length-tail s)),
    )

after_comment_lem :
    (text rest : Bytes)
    → All (λ x. (x == b'*') ≡ false) text
    → after_comment (text ++ (b'*' ∷ b'/' ∷ rest)) ≡ rest
unfolding after_comment
after_comment_lem [] rest h = refl
after_comment_lem (x ∷ text) rest (e, h) = rw (e, after_comment_lem text rest h)

module _ (same_prefix : Bytes → Bytes → ℕ → Bool) (number_or_ident : Bytes → CssToken × Bytes)
    (forward : MovesForward number_or_ident) where
  abbrev toks : Bytes → List CssToken
  toks s = css_tokens same_prefix number_or_ident s

  next-at :
      (c : ℕ) (s : Bytes)
      → isspace c ≡ false
      → (c == b'/') ≡ false
      → css_next_token same_prefix number_or_ident (c ∷ s)
        ≡ css_first_token same_prefix number_or_ident (c ∷ s)
  unfolding css_next_token skip_blank starts_css_comment
  next-at c s blank slash = rw (blank, slash)

  -- The first token of a text that begins with neither a blank nor a comment.
  tokens-at :
      (c : ℕ) (s : Bytes)
      → isspace c ≡ false
      → (c == b'/') ≡ false
      → let (token, rest) = css_token_at same_prefix number_or_ident c s in
        toks (c ∷ s) ≡ token ∷ toks rest
  tokens-at c s blank slash =
      css_tokens-next same_prefix number_or_ident forward (c ∷ s)
      ∙ ap (λ r. cons_some r.0 (toks r.1)) (next-at c s blank slash)

  tokens-same :
      (s t : Bytes)
      → css_next_token same_prefix number_or_ident s ≡ css_next_token same_prefix number_or_ident t
      → toks s ≡ toks t
  tokens-same s t e =
      css_tokens-next same_prefix number_or_ident forward s
      ∙ ap (λ r. cons_some r.0 (toks r.1)) e
      ∙ sym (css_tokens-next same_prefix number_or_ident forward t)

  pub tokens-space : (s : Bytes) → toks (b' ' ∷ s) ≡ toks s
  tokens-space s = tokens-same (b' ' ∷ s) s (unfold css_next_token skip_blank isspace in refl)

  pub tokens-comment :
      (text rest : Bytes)
      → All (λ x. (x == b'*') ≡ false) text
      → toks (b'/' ∷ b'*' ∷ (text ++ (b'*' ∷ b'/' ∷ rest))) ≡ toks rest
  unfolding css_next_token skip_blank isspace starts_css_comment
  tokens-comment text rest h =
      let behind = text ++ (b'*' ∷ b'/' ∷ rest) in
      let n = suc (length behind) in
      tokens-same (b'/' ∷ b'*' ∷ behind) rest (
        ap (css_first_token same_prefix number_or_ident) (
          ap (skip_blank n) (after_comment_lem text rest h)
          ∙ skip_blank-enough n (length rest) rest
              (omega (arith, length-append text (b'*' ∷ b'/' ∷ rest))) (omega arith)))

  pub tokens-punctuation :
      (c : ℕ) (type : CssTokenType) (s : Bytes)
      → single_type c ≡ some type
      → isspace c ≡ false
      → (c == b'/') ≡ false
      → toks (c ∷ s) ≡ punctuation type ∷ toks s
  unfolding css_token_at
  tokens-punctuation c type s single blank slash = tokens-at c s blank slash ∙ rw single

  module _ (same : ComparesCase same_prefix) where
    no_url :
        (s : Bytes)
        → map tolower (take 4 s) ≢ map tolower (take 4 url_start)
        → (ltb 3 (length s) && same_prefix s url_start 4) ≡ false
    no_url s differs = elim (Bool-cases (same_prefix s url_start 4)) [
      | inl e ↦ absurd (differs ((same s url_start 4).0 e))
      | inr e ↦ rw e (ground arith)
    ]

    ident-at :
        (c : ℕ) (w : Bytes) (r : ℕ) (rest : Bytes)
        → IsIdent (c ∷ w)
        → is_ident_byte r ≡ false
        → (r == b'(') ≡ false
        → word_at same_prefix number_or_ident c (w ++ (r ∷ rest)) ≡ (word ident (c ∷ w), r ∷ rest)
    unfolding word_at
    ident-at c w r rest (hc, h) stop paren =
        let text = w ++ (r ∷ rest) in
        let not_at : (c == b'@') ≡ false = unfold isalpha in ground arith in
        let not_hash : (c == b'#') ≡ false = unfold isalpha in ground arith in
        let not_dot : (c == b'.') ≡ false = unfold isalpha in ground arith in
        let not_number : ((c == b'-') || isdigit c) ≡ false =
          unfold isalpha isdigit in ground arith in
        let not_quote : ((c == b'"') || (c == b'\'')) ≡ false = unfold isalpha in ground arith in
        let starts : is_ident_start c ≡ true = unfold is_ident_start in ground arith in
        let read = ident-span c w (r ∷ rest) starts h stop in
        rw (not_at, not_hash, not_dot, not_number, not_quote)
          (elim (Bool-cases ((c == b'u') || (c == b'U'))) [
            | inl u ↦ rw (u, no_url (c ∷ text) (not-url (c ∷ w) r rest (hc, h) stop paren), read)
            | inr u ↦ rw (u, hc, read)
          ])

    pub tokens-ident :
        (w : Bytes) (r : ℕ) (rest : Bytes)
        → IsIdent w
        → is_ident_byte r ≡ false
        → (r == b'(') ≡ false
        → toks (w ++ (r ∷ rest)) ≡ word ident w ∷ toks (r ∷ rest)
    unfolding css_token_at
    tokens-ident [] r rest h stop paren = absurd h
    tokens-ident (c ∷ w) r rest (hc, h) stop paren =
        let text = w ++ (r ∷ rest) in
        let blank : isspace c ≡ false = unfold isspace isalpha in ground arith in
        let slash : (c == b'/') ≡ false = unfold isalpha in ground arith in
        let single : single_type c ≡ none = unfold isalpha in ground arith in
        let pair : pair_type c (head_byte text) ≡ none = unfold isalpha in ground arith in
        tokens-at c text blank slash ∙ rw (single, pair, ident-at c w r rest (hc, h) stop paren)

    pub tokens-at_keyword :
        (w : Bytes) (r : ℕ) (rest : Bytes)
        → IsIdent w
        → is_ident_byte r ≡ false
        → toks (b'@' ∷ (w ++ (r ∷ rest))) ≡ word at_keyword w ∷ toks (r ∷ rest)
    unfolding css_token_at word_at isspace
    tokens-at_keyword [] r rest h stop = absurd h
    tokens-at_keyword (c ∷ w) r rest (hc, h) stop =
        let starts : is_ident_start c ≡ true = unfold is_ident_start in ground arith in
        tokens-at b'@' (c ∷ (w ++ (r ∷ rest))) refl refl
        ∙ rw (ident-span c w (r ∷ rest) starts h stop)

    pub tokens-hash :
        (w : Bytes) (r : ℕ) (rest : Bytes)
        → IsHash w
        → isxdigit r ≡ false
        → toks (b'#' ∷ (w ++ (r ∷ rest))) ≡ word hash w ∷ toks (r ∷ rest)
    unfolding css_token_at word_at isspace
    tokens-hash [] r rest h stop = absurd h
    tokens-hash (c ∷ w) r rest (hc, h) stop =
        tokens-at b'#' (c ∷ (w ++ (r ∷ rest))) refl refl
        ∙ rw (hc, span-append isxdigit (c ∷ w) (r ∷ rest) (hc, h) stop)

    pub tokens-string :
        (w rest : Bytes)
        → All (λ x. ((x == b'"') ≡ false) × ((x == b'\\') ≡ false)) w
        → toks (b'"' ∷ (w ++ (b'"' ∷ rest))) ≡ word string w ∷ toks rest
    unfolding css_token_at word_at isspace isdigit css_parse_string
    tokens-string w rest h =
        tokens-at b'"' (w ++ (b'"' ∷ rest)) refl refl ∙ rw (scan_until_stop b'"' w rest h)
