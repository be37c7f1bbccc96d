-- ===== src/Html/Token/Progress.antt =====
-- The tokenizer moves forward: a token takes a byte of the text at least, so that the loop over the
-- tokens ends, and fuel above the length of the text is enough.
use prismatic_os.Base.{
  ℕ, zero, suc, ◌+◌, ◌-◌, ◌≤◌, ◌<◌, ◌≡◌, refl, ap, inl, inr, Bool, false, Option, none, some, [],
  ◌∷◌, arith, ◌==◌, ◌!=◌, if◌then◌else◌, Bool-cases, Bytes, length, drop, length-drop,
}
use prismatic_os.Libc.Str.{head_byte}
use prismatic_os.Libc.Strtol.{tail}
use prismatic_os.Html.Token.{
  span, skip_space, quoted_value, value_at, closed_value, is_unquoted_byte, is_name_byte,
  html_parse_attribute_value, is_nil, html_parse_tag_name, attribute_tail, html_parse_attributes,
  tag_end, html_parse_tag, html_parse_text, find_comment_end, is_text_byte, is_attr_byte,
  html_parse_comment, token_at, first_token, cons_token, html_parser_next_token, tokens,
}

pub length-span :
    (test : ℕ → Bool) (s : Bytes) → length (span test s).0 + length (span test s).1 ≡ length s
unfolding span
length-span test [] = refl
length-span test (x ∷ s) = ground (arith, length-span test s)

pub length-skip_space : (s : Bytes) → length (skip_space s) ≤ length s
unfolding skip_space
length-skip_space [] = omega arith
length-skip_space (x ∷ s) = ground (arith, length-skip_space s)

pub length-tail : (s : Bytes) → length (tail s) ≤ length s
length-tail [] = omega arith
length-tail (x ∷ s) = omega arith

pub length-closed_value : (value s : Bytes) → length (closed_value value s).1 ≤ length s
length-closed_value value [] = omega arith
length-closed_value value (x ∷ s) = omega arith

length-quoted : (quote : ℕ) (s : Bytes) → length (quoted_value quote s).1 ≤ length s
unfolding quoted_value
length-quoted quote s = omega (
  arith,
  length-span (λ c. c != quote) s,
  length-closed_value (span (λ c. c != quote) s).0 (span (λ c. c != quote) s).1,
)

length-value_at : (s : Bytes) → length (value_at s).1 ≤ length s
unfolding value_at
length-value_at [] = omega arith
length-value_at (c ∷ s) = ground (arith, length-quoted c s, length-span is_unquoted_byte (c ∷ s))

length-attribute_tail : (s : Bytes) → length (attribute_tail s).1 ≤ length s
unfolding attribute_tail html_parse_attribute_value
length-attribute_tail s =
    ground (arith, length-value_at (skip_space (tail s)), length-skip_space (tail s), length-tail s)

length-attributes : (n : ℕ) (s : Bytes) → length (html_parse_attributes n s).1 ≤ length s
unfolding html_parse_attributes
length-attributes zero s = omega arith
length-attributes (suc n) s =
    let t = skip_space s in
    let behind = (span is_attr_byte t).1 in
    ground (
      arith,
      length-skip_space s,
      length-span is_attr_byte t,
      length-skip_space behind,
      length-attribute_tail (skip_space behind),
      length-attributes n (attribute_tail (skip_space behind)).1,
    )

-- Fuel above the length of the text is enough for the attributes: more of it changes nothing.
pub html_parse_attributes-enough :
    (n m : ℕ) (s : Bytes)
    → length s < n
    → length s < m
    → html_parse_attributes n s ≡ html_parse_attributes m s
unfolding html_parse_attributes
html_parse_attributes-enough zero m s h k = absurd (omega arith)
html_parse_attributes-enough (suc n) zero s h k = absurd (omega arith)
html_parse_attributes-enough (suc n) (suc m) s h k =
    let t = skip_space s in
    let name = (span is_attr_byte t).0 in
    let behind = (span is_attr_byte t).1 in
    let rest = (attribute_tail (skip_space behind)).1 in
    elim (Bool-cases (is_nil name)) [
      | inl stop ↦ rw stop
      | inr more ↦
          let shorter : length rest < length s = omega (
            arith,
            length-skip_space s,
            length-span is_attr_byte t,
            length-skip_space behind,
            length-attribute_tail (skip_space behind),
            not-is_nil name more,
          ) in
          rw (more, html_parse_attributes-enough n m rest (omega arith) (omega arith))
    ]
  where
    not-is_nil : (name : Bytes) → is_nil name ≡ false → 0 < length name
    not-is_nil [] e = ground arith
    not-is_nil (x ∷ name) e = omega arith

length-tag_end : (s : Bytes) → length (tag_end s).1 ≤ length s
unfolding tag_end
length-tag_end s = ground (arith, length-tail s, length-tail (tail s))

length-html_parse_tag : (s : Bytes) → length (html_parse_tag s).1 ≤ length s
unfolding html_parse_tag html_parse_tag_name
length-html_parse_tag s =
    let t = if head_byte s == b'/' then tail s else s in
    let behind = (span is_name_byte t).1 in
    let attrs = html_parse_attributes (suc (length behind)) behind in
    ground (
      arith,
      length-tail s,
      length-span is_name_byte t,
      length-attributes (suc (length behind)) behind,
      length-tag_end attrs.1,
    )

abbrev LeavesAtMost : ℕ → Option (Bytes × Bytes) → Type 0
LeavesAtMost n none = Unit
LeavesAtMost n (some (front, rest)) = length rest ≤ n

length-find_comment_end : (s : Bytes) → LeavesAtMost (length s) (find_comment_end s)
unfolding find_comment_end
length-find_comment_end [] = tt
length-find_comment_end (a ∷ s) =
    ground (arith, length-find_comment_end s, length-tail s, length-tail (tail s))

length-html_parse_comment : (s : Bytes) → length (html_parse_comment s).1 ≤ length s
unfolding html_parse_comment
length-html_parse_comment s =
    ground (arith, length-find_comment_end s, length-drop (length s - 2) s)

module _ (same_prefix : Bytes → Bytes → ℕ → Bool) where
  length-token_at : (c : ℕ) (s : Bytes) → length (token_at same_prefix (c ∷ s)).1 ≤ length s
  unfolding token_at html_parse_text span is_text_byte
  length-token_at c s = ground (
    arith,
    length-html_parse_comment (drop 4 (c ∷ s)),
    length-drop 3 s,
    length-html_parse_tag s,
    length-span is_text_byte s,
    length-span (λ x. x != b'>') s,
    length-tail (span (λ x. x != b'>') (c ∷ s)).1,
  )

  length-first_token : (s : Bytes) → length (first_token same_prefix s).1 ≤ length s - 1
  length-first_token [] = omega arith
  length-first_token (c ∷ s) = omega (arith, length-token_at c s)

  -- A call takes a byte of the text at least, unless the text is empty.
  pub length-html_parser_next_token :
      (s : Bytes) → length (html_parser_next_token same_prefix s).1 ≤ length s - 1
  unfolding html_parser_next_token
  length-html_parser_next_token s =
      omega (arith, length-first_token (skip_space s), length-skip_space s)

  -- The loop over the tokens ends: with fuel above the length of the text, more fuel gives no more
  -- tokens.
  pub tokens-enough :
      (n m : ℕ) (s : Bytes)
      → length s < n
      → length s < m
      → tokens same_prefix n s ≡ tokens same_prefix m s
  unfolding tokens
  tokens-enough zero m s h k = absurd (omega arith)
  tokens-enough (suc n) zero s h k = absurd (omega arith)
  tokens-enough (suc n) (suc m) [] h k = unfold html_parser_next_token skip_space in refl
  tokens-enough (suc n) (suc m) (c ∷ s) h k =
      let shorter = length-html_parser_next_token (c ∷ s) in
      ap (cons_token (html_parser_next_token same_prefix (c ∷ s)).0) (
        tokens-enough n m (html_parser_next_token same_prefix (c ∷ s)).1 (omega (arith, shorter))
          (omega (arith, shorter)))
