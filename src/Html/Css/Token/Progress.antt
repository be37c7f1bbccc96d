-- ===== src/Html/Css/Token/Progress.antt =====
-- The tokenizer of CSS moves forward, so that every loop over the tokens ends.
use prismatic_os.Base.{
  ℕ, zero, suc, ◌-◌, ◌≤◌, ◌≡◌, Bool, true, ◌||◌, Option, none, some, [], ◌∷◌, arith, ◌==◌,
  if◌then◌else◌, Bytes, length, drop, length-drop,
}
use mathlib.Core.Path.{subst}
use prismatic_os.Libc.Ctype.{isalnum, isdigit, isxdigit}
use prismatic_os.Libc.Str.{head_byte}
use prismatic_os.Libc.Strtol.{tail}
use prismatic_os.Html.Token.{span, skip_space}
use prismatic_os.Html.Token.Progress.{
  length-span, length-skip_space, length-tail, length-closed_value,
}
use prismatic_os.Html.Css.Token.{
  CssToken, CssTokenType, ident, at_keyword, string, hash, url, is_ident_start, is_ident_byte,
  css_parse_ident, scan_until, css_parse_string, unquoted_url, close_url, css_parse_url,
  after_comment, skip_blank, sign_part, fraction_part, exponent_part, css_parse_number,
  word_or_delim, hash_value, word_at, css_token_at, css_first_token, css_next_token, single_type,
  pair_type, punctuation_or,
}

length-css_parse_ident : (s : Bytes) → length (css_parse_ident s).1 ≤ length s
unfolding css_parse_ident
length-css_parse_ident s = ground (arith, length-span is_ident_byte s)

length-scan_until : (stop : ℕ) (s : Bytes) → length (scan_until stop s).1 ≤ length s
unfolding scan_until
length-scan_until stop [] = omega arith
length-scan_until stop (x ∷ []) = ground arith
length-scan_until stop (x ∷ y ∷ s) =
    ground (arith, length-scan_until stop (y ∷ s), length-scan_until stop s)

length-css_parse_string :
    (quote : ℕ) (s : Bytes) → length (css_parse_string quote s).1 ≤ length s - 1
unfolding css_parse_string
length-css_parse_string quote [] = unfold scan_until in omega arith
length-css_parse_string quote (x ∷ s) =
    let (value, rest) = scan_until quote s in
    omega (arith, length-scan_until quote s, length-closed_value value rest)

length-close_url : (value : Option Bytes) (s : Bytes) → length (close_url value s).1 ≤ length s
unfolding close_url
length-close_url value s = ground (arith, length-tail s)

length-css_parse_url : (s : Bytes) → length (css_parse_url s).1 ≤ length s - 3
unfolding css_parse_url unquoted_url
length-css_parse_url s =
    let t = skip_space (drop 3 s) in
    let quote = head_byte t in
    let (value, rest) =
      if (quote == b'"') || (quote == b'\'') then css_parse_string quote t else unquoted_url t in
    let body : length rest ≤ length t =
      ground (arith, length-css_parse_string quote t, length-scan_until b')' t) in
    omega (
      arith,
      body,
      length-drop 3 s,
      length-skip_space (drop 3 s),
      length-skip_space rest,
      length-close_url value (skip_space rest),
    )

pub length-after_comment : (s : Bytes) → length (after_comment s) ≤ length s
unfolding after_comment
length-after_comment [] = omega arith
length-after_comment (x ∷ s) = ground (arith, length-after_comment s, length-tail s)

length-skip_blank : (n : ℕ) (s : Bytes) → length (skip_blank n s) ≤ length s
unfolding skip_blank
length-skip_blank zero s = omega arith
length-skip_blank (suc n) [] = omega arith
length-skip_blank (suc n) (x ∷ s) = ground (
  arith,
  length-skip_blank n s,
  length-skip_blank n (after_comment (tail s)),
  length-after_comment (tail s),
  length-tail s,
)

length-sign_part : (s : Bytes) → length (sign_part s).1 ≤ length s
length-sign_part [] = omega arith
length-sign_part (x ∷ s) = ground arith

length-fraction_part : (s : Bytes) → length (fraction_part s).1 ≤ length s
length-fraction_part [] = omega arith
length-fraction_part (x ∷ s) = ground (arith, length-span isdigit s)

length-exponent_part : (s : Bytes) → length (exponent_part s).1 ≤ length s
length-exponent_part [] = omega arith
length-exponent_part (x ∷ s) =
    ground (arith, length-sign_part s, length-span isdigit (sign_part s).1)

-- A number that begins with a dot.
length-css_parse_number : (s : Bytes) → length (css_parse_number (b'.' ∷ s)).1 ≤ length s
unfolding css_parse_number span isdigit
length-css_parse_number s =
    omega (arith, length-span isdigit s, length-exponent_part (span isdigit s).1)

abbrev pub MovesForward : (Bytes → CssToken × Bytes) → Type 0
MovesForward number_or_ident = (c : ℕ) (s : Bytes) → length (number_or_ident (c ∷ s)).1 ≤ length s

length-word_or_delim :
    (type : CssTokenType) (c : ℕ) (r : Option Bytes × Bytes)
    → length (word_or_delim type c r).1 ≤ length r.1
length-word_or_delim type c (none, s) = length-tail s
length-word_or_delim type c (some value, s) = omega arith

-- An identifier that is read at its first byte.
length-ident_at :
    (type : CssTokenType) (c : ℕ) (s : Bytes)
    → length (word_or_delim type c (css_parse_ident (c ∷ s))).1 ≤ length s
unfolding css_parse_ident is_ident_start is_ident_byte isalnum span
length-ident_at type c s = ground (arith, length-span is_ident_byte s)

length-number_at :
    (c : ℕ) (s : Bytes) → (c == b'.') ≡ true → length (css_parse_number (c ∷ s)).1 ≤ length s
length-number_at c s h =
    subst (λ x. length (css_parse_number (x ∷ s)).1 ≤ length s)
      (let e : b'.' ≡ c = ground arith in e) (length-css_parse_number s)

length-hash_value : (s : Bytes) → length (hash_value s).1 ≤ length s
length-hash_value s = ground (arith, length-span isxdigit s)

length-punctuation_or :
    (type : Option CssTokenType) (s : Bytes) (other : CssToken × Bytes) (n : ℕ)
    → length s ≤ n
    → length other.1 ≤ n
    → length (punctuation_or type s other).1 ≤ n
length-punctuation_or none s other n hs ho = ho
length-punctuation_or (some type) s other n hs ho = hs

module _ (same_prefix : Bytes → Bytes → ℕ → Bool) (number_or_ident : Bytes → CssToken × Bytes)
    (forward : MovesForward number_or_ident) where
  length-word_at :
      (c : ℕ) (s : Bytes) → length (word_at same_prefix number_or_ident c s).1 ≤ length s
  unfolding word_at
  length-word_at c s = ground (
    arith,
    length-word_or_delim at_keyword c (css_parse_ident s),
    length-css_parse_ident s,
    length-word_or_delim hash c (hash_value s),
    length-hash_value s,
    length-number_at c s,
    forward c s,
    length-word_or_delim string c (css_parse_string c (c ∷ s)),
    length-css_parse_string c (c ∷ s),
    length-word_or_delim url c (css_parse_url (c ∷ s)),
    length-css_parse_url (c ∷ s),
    length-ident_at ident c s,
  )

  length-css_token_at :
      (c : ℕ) (s : Bytes) → length (css_token_at same_prefix number_or_ident c s).1 ≤ length s
  unfolding css_token_at
  length-css_token_at c s = length-punctuation_or (single_type c) s _ (length s) (omega arith) (
      length-punctuation_or (pair_type c (head_byte s)) (tail s) _ (length s) (length-tail s)
        (length-word_at c s))

  length-css_first_token :
      (s : Bytes) → length (css_first_token same_prefix number_or_ident s).1 ≤ length s - 1
  length-css_first_token [] = omega arith
  length-css_first_token (c ∷ s) = omega (arith, length-css_token_at c s)

  -- A call takes a byte of the text at least, unless the text is empty.
  pub length-css_next_token :
      (s : Bytes) → length (css_next_token same_prefix number_or_ident s).1 ≤ length s - 1
  unfolding css_next_token
  length-css_next_token s =
      omega
        (arith, length-css_first_token (skip_blank (length s) s), length-skip_blank (length s) s)
