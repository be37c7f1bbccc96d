-- ===== src/Html/Token/Attributes.antt =====
-- Attributes that are written out are read back.
use prismatic_os.Base.{
  ℕ, zero, suc, ◌<◌, ◌≡◌, refl, ap, ◌∙◌, inl, inr, Bool, true, false, Option, none, some, List, [],
  ◌∷◌, ◌++◌, arith, ◌==◌, ◌!=◌, Bool-cases, Bytes, length,
}
use prismatic_os.Libc.Ctype.{isspace}
use prismatic_os.Libc.Str.{head_byte}
use prismatic_os.Libc.Str.Search.{All}
use prismatic_os.Html.Token.{
  Attr, is_nil, span, skip_space, quoted_value, value_at, html_parse_attribute_value, is_attr_byte,
  attribute_tail, html_parse_attributes,
}
use prismatic_os.Html.Token.Print.{
  print_slash, print_value, print_attrs, IsNonempty, IsValue, IsAttr,
}

-- The rest begins with a byte that fails the test, or is empty.
abbrev pub Stops : (ℕ → Bool) → Bytes → Type 0
Stops test [] = Unit
Stops test (x ∷ s) = test x ≡ false

pub span_stop : (test : ℕ → Bool) (rest : Bytes) → Stops test rest → span test rest ≡ ([], rest)
unfolding span
span_stop test [] h = refl
span_stop test (x ∷ s) h = rw h

pub span-append :
    (test : ℕ → Bool) (front rest : Bytes)
    → All (λ x. test x ≡ true) front
    → Stops test rest
    → span test (front ++ rest) ≡ (front, rest)
unfolding span
span-append test [] rest h stop = span_stop test rest stop
span-append test (x ∷ front) rest (hx, h) stop = rw (hx, span-append test front rest h stop)

pub skip_space_stop : (s : Bytes) → Stops isspace s → skip_space s ≡ s
unfolding skip_space
skip_space_stop [] h = refl
skip_space_stop (x ∷ s) h = rw h

skip_space_twice : (s : Bytes) → skip_space (skip_space s) ≡ skip_space s
unfolding skip_space
skip_space_twice [] = refl
skip_space_twice (x ∷ s) = elim (Bool-cases (isspace x)) [
  | inl blank ↦ rw blank (skip_space_twice s)
  | inr stop ↦ rw stop (rw stop)
]

-- Blanks in front of the attributes do not matter.
attributes-skip_space :
    (n : ℕ) (s : Bytes)
    → html_parse_attributes (suc n) (skip_space s) ≡ html_parse_attributes (suc n) s
unfolding html_parse_attributes
attributes-skip_space n s = rw (skip_space_twice s) refl

-- The end of a tag is no part of a name.
unfoldable pub tag_rest : Bool → Bytes → Bytes
tag_rest slash rest = print_slash slash (b'>' ∷ rest)

quoted_value_lem :
    (v rest : Bytes)
    → All (λ x. (x != b'"') ≡ true) v
    → quoted_value b'"' (v ++ (b'"' ∷ rest)) ≡ (some v, rest)
unfolding quoted_value
quoted_value_lem v rest h = rw (span-append (λ x. x != b'"') v (b'"' ∷ rest) h refl) refl

after_value :
    (v : Option Bytes) (more : List Attr) (slash : Bool) (rest : Bytes)
    → Stops is_attr_byte (print_value v (print_attrs more (tag_rest slash rest)))
unfolding tag_rest is_attr_byte isspace
after_value none [] true rest = refl
after_value none [] false rest = refl
after_value none (a ∷ more) slash rest = refl
after_value (some v) more slash rest = refl

starts_name :
    (name rest : Bytes)
    → IsNonempty name
    → All (λ x. is_attr_byte x ≡ true) name
    → (Stops isspace (name ++ rest)) × ((head_byte (name ++ rest) == b'=') ≡ false)
unfolding is_attr_byte
starts_name [] rest ne h = absurd (omega arith)
starts_name (x ∷ name) rest ne (hx, h) = ground arith

attribute_tail-some :
    (v rest : Bytes)
    → All (λ x. (x != b'"') ≡ true) v
    → attribute_tail (print_value (some v) rest) ≡ (some v, rest)
unfolding attribute_tail html_parse_attribute_value skip_space isspace value_at
attribute_tail-some v rest h = quoted_value_lem v rest h

-- The text behind the last attribute, or behind a name, when its blanks are skipped.
no_equals :
    (more : List Attr) (slash : Bool) (rest : Bytes)
    → All IsAttr more
    → (head_byte (skip_space (print_attrs more (tag_rest slash rest))) == b'=') ≡ false
unfolding tag_rest skip_space isspace
no_equals [] true rest h = refl
no_equals [] false rest h = refl
no_equals (a ∷ more) slash rest ((ne, bytes, v), h) =
    let s = print_value a.value (print_attrs more (tag_rest slash rest)) in
    let (nonblank, other) = starts_name a.name s ne bytes in
    rw (skip_space_stop (a.name ++ s) nonblank) other

attributes_stop :
    (n : ℕ) (slash : Bool) (rest : Bytes)
    → html_parse_attributes (suc n) (tag_rest slash rest) ≡ ([], tag_rest slash rest)
unfolding html_parse_attributes tag_rest skip_space isspace span is_attr_byte
attributes_stop n true rest = refl
attributes_stop n false rest = refl

-- One round of the loop over the attributes.
attributes_step :
    (n : ℕ) (s name behind : Bytes)
    → span is_attr_byte (skip_space s) ≡ (name, behind)
    → is_nil name ≡ false
    → let (value, next) = attribute_tail (skip_space behind) in
      let (more, last) = html_parse_attributes n next in
      html_parse_attributes (suc n) s ≡ (record { name = name; value = value } ∷ more, last)
unfolding html_parse_attributes
attributes_step n s name behind e some_name = rw (e, some_name) refl

pub is_nil-false : (name : Bytes) → IsNonempty name → is_nil name ≡ false
is_nil-false [] h = absurd (omega arith)
is_nil-false (x ∷ name) h = refl

module _ (slash : Bool) (rest : Bytes) where
  abbrev body : List Attr → Bytes
  body more = print_attrs more (tag_rest slash rest)

  tail_body :
      (v : Option Bytes) (more : List Attr)
      → IsValue v
      → All IsAttr more
      → (n : ℕ)
      → let behind = skip_space (print_value v (body more)) in
        ((attribute_tail behind).0 ≡ v)
        × (html_parse_attributes (suc n) (attribute_tail behind).1
            ≡ html_parse_attributes (suc n) (body more))
  unfolding attribute_tail
  tail_body none more hv h n =
      rw (no_equals more slash rest h) (refl, attributes-skip_space n (body more))
  tail_body (some v) more hv h n =
      let e : skip_space (print_value (some v) (body more)) ≡ print_value (some v) (body more) =
        unfold skip_space isspace in refl in
      rw (e, attribute_tail-some v (body more) hv) (refl, refl)

  pub attributes_lem :
      (more : List Attr) (n : ℕ)
      → All IsAttr more
      → length more < n
      → html_parse_attributes n (body more) ≡ (more, tag_rest slash rest)
  attributes_lem more zero h l = absurd (omega arith)
  attributes_lem [] (suc n) h l = attributes_stop n slash rest
  attributes_lem (a ∷ more) (suc zero) h l = absurd (omega arith)
  attributes_lem (a ∷ more) (suc (suc n)) ((ne, bytes, v), h) l =
      let behind = print_value a.value (body more) in
      let (nonblank, other) = starts_name a.name behind ne bytes in
      let skipped : skip_space (b' ' ∷ (a.name ++ behind)) ≡ a.name ++ behind =
        unfold skip_space isspace in skip_space_stop (a.name ++ behind) nonblank in
      let cut =
        span-append is_attr_byte a.name behind bytes (after_value a.value more slash rest) in
      let (value, next) = tail_body a.value more v h n in
      attributes_step (suc n) (b' ' ∷ (a.name ++ behind)) a.name behind
        (ap (span is_attr_byte) skipped ∙ cut) (is_nil-false a.name ne)
      ∙ rw (value, next, attributes_lem more (suc n) h (omega arith)) refl
