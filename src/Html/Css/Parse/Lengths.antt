-- ===== src/Html/Css/Parse/Lengths.antt =====
-- No function of the CSS parser moves back in the text. `cmp`, `num` and
-- `new` stand for strncasecmp, css_parse_number_or_ident and css_declaration_create.
use prismatic_os.Base.{
  ℕ, zero, suc, ◌-◌, ◌≤◌, inl, inr, Bool, true, false, Option, none, some, List, ◌∷◌, arith,
  if◌then◌else◌, Option-cases, Bytes, length,
}
use prismatic_os.Html.Css.Token.{CssToken, css_next_token}
use prismatic_os.Html.Css.Token.Progress.{MovesForward, length-css_next_token}
use prismatic_os.Html.Css.Rule.{Declaration, Rule, begin_rule, is_ident, is_open, is_close}
use prismatic_os.Html.Css.Parse.{
  join, skip_prelude, skip_block, css_parse_at_rule, read_value, skip_to_open,
  css_parse_declaration, read_body, css_parse_style_rule, css_parse_rule,
}

-- The length of what is left.
abbrev pub leaves {ℓ} : {A : Type ℓ} → Option (A × Bytes) → ℕ
leaves none = 0
leaves (some (x, rest)) = length rest

leaves-bind {ℓ κ} :
    {A : Type ℓ} {B : Type κ} (o : Option (A × Bytes)) (f : A → Bytes → Option (B × Bytes)) (n : ℕ)
    → leaves o ≤ n
    → ((x : A) (u : Bytes) → leaves (f x u) ≤ length u)
    → leaves (elim o as (λ _. Option (B × Bytes)) [ none ↦ none | some (x, u) ↦ f x u ]) ≤ n
leaves-bind none f n h k = omega arith
leaves-bind (some (x, u)) f n h k = omega (arith, k x u)

leaves-if {ℓ} :
    {A : Type ℓ} (test : Bool) (x y : Option (A × Bytes)) (n : ℕ)
    → leaves x ≤ n
    → leaves y ≤ n
    → leaves (if test then x else y) ≤ n
leaves-if true x y n hx hy = hx
leaves-if false x y n hx hy = hy

module _ (cmp : Bytes → Bytes → ℕ → Bool) (num : Bytes → CssToken × Bytes)
    (new : Option Declaration) (fwd : MovesForward num) where
  abbrev nx : Bytes → Option CssToken × Bytes
  nx s = css_next_token cmp num s

  length-nx : (s : Bytes) → length (nx s).1 ≤ length s
  length-nx s = omega (arith, length-css_next_token cmp num fwd s)

  length-skip_prelude : (n : ℕ) (s : Bytes) → length (skip_prelude cmp num n s).1 ≤ length s
  unfolding skip_prelude
  length-skip_prelude zero s = omega arith
  length-skip_prelude (suc n) s = ground (arith, length-nx s, length-skip_prelude n (nx s).1)

  length-skip_to_open : (n : ℕ) (s : Bytes) → length (skip_to_open cmp num n s).1 ≤ length s
  unfolding skip_to_open
  length-skip_to_open zero s = omega arith
  length-skip_to_open (suc n) s = ground (arith, length-nx s, length-skip_to_open n (nx s).1)

  length-skip_block : (n depth : ℕ) (s : Bytes) → length (skip_block cmp num n depth s) ≤ length s
  unfolding skip_block
  length-skip_block zero depth s = omega arith
  length-skip_block (suc n) depth s = elim (Option-cases (nx s).0) [
    | inl e ↦ rw (skip_block, e) (length-nx s)
    | inr (t, e) ↦
        let d = if is_open t then suc depth else if is_close t then depth - 1 else depth in
        rw (skip_block, e) (ground (arith, length-nx s, length-skip_block n d (nx s).1))
  ]

  length-css_parse_at_rule : (s : Bytes) → length (css_parse_at_rule cmp num s) ≤ length s
  unfolding css_parse_at_rule
  length-css_parse_at_rule s =
      let (token, rest) = skip_prelude cmp num (suc (length s)) s in
      ground (
        arith,
        length-skip_prelude (suc (length s)) s,
        length-skip_block (suc (length rest)) 1 rest,
      )

  leaves-read_value :
      (n : ℕ) (value : Option Bytes) (s : Bytes) → leaves (read_value cmp num n value s) ≤ length s
  unfolding read_value
  leaves-read_value zero value s = omega arith
  leaves-read_value (suc n) value s = elim (Option-cases (nx s).0) [
    | inl e ↦ rw (read_value, e) (length-nx s)
    | inr (t, e) ↦ elim (Option-cases t.value) [
      | inl v ↦ rw (read_value, e, v) (ground (arith, length-nx s))
      | inr (w, v) ↦
          rw (read_value, e, v)
            (ground (arith, length-nx s, leaves-read_value n (some (join value w)) (nx s).1))
    ]
  ]

  pub leaves-declaration :
      (rule : Rule) (t : CssToken) (s : Bytes)
      → leaves (css_parse_declaration cmp num new rule t s) ≤ length s
  unfolding css_parse_declaration
  leaves-declaration rule t s =
      ground (arith, length-nx s, leaves-read_value (suc (length (nx s).1)) none (nx s).1)

  leaves-read_body :
      (n : ℕ) (rule : Rule) (s : Bytes) → leaves (read_body cmp num new n rule s) ≤ length s
  unfolding read_body
  leaves-read_body zero rule s = omega arith
  leaves-read_body (suc n) rule s = elim (Option-cases (nx s).0) [
    | inl e ↦ rw (read_body, e) (length-nx s)
    | inr (t, e) ↦
        let rest = (nx s).1 in
        let handled =
          if is_ident t then css_parse_declaration cmp num new rule t rest else some (rule, rest) in
        let handled_leaves : leaves handled ≤ length s =
          leaves-if (is_ident t) _ (some (rule, rest)) (length s)
            (omega (arith, length-nx s, leaves-declaration rule t rest)) (length-nx s) in
        rw (read_body, e)
          (leaves-if (is_close t) (some (rule, rest)) _ (length s) (length-nx s) (
            leaves-bind handled (read_body cmp num new n) (length s) handled_leaves
              (leaves-read_body n)))
  ]

  leaves-css_parse_style_rule :
      (sheet : List Rule) (t : CssToken) (s : Bytes)
      → leaves (css_parse_style_rule cmp num new sheet t s) ≤ length s
  unfolding css_parse_style_rule
  leaves-css_parse_style_rule sheet t s =
      let (found, rest) = skip_to_open cmp num (suc (length s)) s in
      let skipped = length-skip_to_open (suc (length s)) s in
      leaves-if found _ (some (sheet, rest)) (length s)
        (leaves-bind (read_body cmp num new (suc (length rest)) (begin_rule t) rest)
          (λ rule behind. some (rule ∷ sheet, behind)) (length s)
          (omega (arith, skipped, leaves-read_body (suc (length rest)) (begin_rule t) rest))
          (λ rule behind. omega arith))
        skipped

  pub leaves-css_parse_rule :
      (sheet : List Rule) (t : CssToken) (s : Bytes)
      → leaves (css_parse_rule cmp num new sheet t s) ≤ length s
  unfolding css_parse_rule
  leaves-css_parse_rule sheet t s =
      ground (arith, length-css_parse_at_rule s, leaves-css_parse_style_rule sheet t s)
