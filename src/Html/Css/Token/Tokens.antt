-- ===== src/Html/Css/Token/Tokens.antt =====
-- The tokens of a whole text.
use prismatic_os.Base.{
  ℕ, zero, suc, ◌<◌, ◌≡◌, refl, sym, ap, ◌∙◌, inl, inr, Bool, Option, none, some, List, [], ◌∷◌,
  arith, Option-cases, Bytes, length,
}
use prismatic_os.Html.Css.Token.{CssToken, css_first_token, css_next_token, skip_blank}
use prismatic_os.Html.Css.Token.Progress.{MovesForward, length-css_next_token}

abbrev pub cons_some : Option CssToken → List CssToken → List CssToken
cons_some none ts = []
cons_some (some t) ts = t ∷ ts

module _ (same_prefix : Bytes → Bytes → ℕ → Bool) (number_or_ident : Bytes → CssToken × Bytes) where
  unfoldable token_list : ℕ → Bytes → List CssToken
  token_list zero s = []
  token_list (suc n) s =
      let (token, rest) = css_next_token same_prefix number_or_ident s in
      let more = token_list n rest in cons_some token more

  -- All the tokens of the text.
  pub css_tokens : Bytes → List CssToken
  unfolding token_list
  css_tokens s = token_list (suc (length s)) s

  abbrev nx : Bytes → Option CssToken × Bytes
  nx s = css_next_token same_prefix number_or_ident s

  module _ (forward : MovesForward number_or_ident) where
    next-nil : nx [] ≡ (none, [])
    unfolding css_next_token skip_blank
    next-nil = refl

    pub next-shorter : (s : Bytes) (t : CssToken) → (nx s).0 ≡ some t → length (nx s).1 < length s
    next-shorter [] t e = absurd (none≢some (sym (ap (λ r. r.0) next-nil) ∙ e))
      where
        none≢some : none ≡ some t → ⊥
        none≢some h = ground arith
    next-shorter (c ∷ s) t e =
        omega (arith, length-css_next_token same_prefix number_or_ident forward (c ∷ s))

    token_list-enough :
        (n m : ℕ) (s : Bytes) → length s < n → length s < m → token_list n s ≡ token_list m s
    unfolding token_list
    token_list-enough zero m s h k = absurd (omega arith)
    token_list-enough (suc n) zero s h k = absurd (omega arith)
    token_list-enough (suc n) (suc m) s h k = elim (Option-cases (nx s).0) [
      | inl e ↦ rw e
      | inr (t, e) ↦
          let shorter = next-shorter s t e in
          rw (e, token_list-enough n m (nx s).1 (omega (arith, shorter)) (omega (arith, shorter)))
    ]

    -- The tokens of a text: the next one, and those of what it leaves.
    pub css_tokens-next : (s : Bytes) → css_tokens s ≡ cons_some (nx s).0 (css_tokens (nx s).1)
    unfolding css_tokens token_list
    css_tokens-next s = elim (Option-cases (nx s).0) [
      | inl e ↦ rw e
      | inr (t, e) ↦
          let shorter = next-shorter s t e in
          rw (
            e,
            token_list-enough (length s) (suc (length (nx s).1)) (nx s).1 (omega (arith, shorter))
                (omega (arith, shorter)),
          )
    ]

    first-end :
        (t : Bytes)
        → (css_first_token same_prefix number_or_ident t).0 ≡ none
        → (css_first_token same_prefix number_or_ident t).1 ≡ []
    first-end [] e = refl
    first-end (c ∷ t) e = ground arith

    -- Where there is no next token, nothing is left.
    pub next-end : (s : Bytes) → (nx s).0 ≡ none → (nx s).1 ≡ []
    unfolding css_next_token
    next-end s e = first-end (skip_blank (length s) s) e

    pub css_tokens-nil : css_tokens [] ≡ []
    unfolding css_tokens token_list
    css_tokens-nil = rw next-nil
