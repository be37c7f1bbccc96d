-- ===== src/Html/Css/Parse/Loops.antt =====
-- The loops of the CSS parser that skip tokens or join them do what the machine does. `cmp`, `num` and
-- `new` stand for strncasecmp, css_parse_number_or_ident and css_declaration_create.
use prismatic_os.Base.{
  ℕ, zero, suc, ◌-◌, ◌<◌, ◌≡◌, refl, ◌∙◌, inl, inr, Bool, false, ◌&&◌, ◌||◌, Option, none, some,
  List, [], ◌∷◌, arith, ◌==◌, if◌then◌else◌, Bool-cases, Option-cases, Bytes, length,
}
use prismatic_os.Html.Css.Token.{CssToken, css_next_token}
use prismatic_os.Html.Css.Token.Progress.{MovesForward}
use prismatic_os.Html.Css.Token.Tokens.{
  css_tokens, css_tokens-next, css_tokens-nil, next-shorter, next-end,
}
use prismatic_os.Html.Css.Rule.{Declaration, Rule, declare, is_semicolon, is_open, is_close}
use prismatic_os.Html.Css.Parse.{join, skip_prelude, skip_block, css_parse_at_rule, read_value}
use prismatic_os.Html.Css.Machine.{
  State, outside, prelude, crashed, block, body, valued, step, finish, run,
}

module _ (cmp : Bytes → Bytes → ℕ → Bool) (num : Bytes → CssToken × Bytes)
    (new : Option Declaration) (fwd : MovesForward num) where
  abbrev pub nx : Bytes → Option CssToken × Bytes
  nx s = css_next_token cmp num s

  -- The machine on the text that is left.
  abbrev pub run_on : State → List Rule → Bytes → Option (List Rule)
  run_on state sheet s = run new state sheet (css_tokens cmp num s)

  abbrev pub run_token : State → List Rule → Option CssToken → Bytes → Option (List Rule)
  run_token state sheet none s = finish new state sheet
  run_token state sheet (some t) s =
      let (state', sheet') = step new state sheet t in run_on state' sheet' s

  pub run_on-next :
      (state : State) (sheet : List Rule) (s : Bytes)
      → run_on state sheet s ≡ run_token state sheet (nx s).0 (nx s).1
  run_on-next state sheet s = elim (Option-cases (nx s).0) [
    | inl e ↦ rw (css_tokens-next cmp num fwd s, e)
    | inr (t, e) ↦ rw (css_tokens-next cmp num fwd s, e)
  ]

  -- A text without a next token is at its end.
  pub run_on-none :
      (state : State) (sheet : List Rule) (s : Bytes)
      → (nx s).0 ≡ none
      → run_on state sheet s ≡ finish new state sheet
  run_on-none state sheet s e = rw (css_tokens-next cmp num fwd s, e)

  pub run_on-end :
      (state : State) (sheet : List Rule) (s : Bytes)
      → (nx s).0 ≡ none
      → run_on state sheet (nx s).1 ≡ finish new state sheet
  run_on-end state sheet s e = rw (next-end cmp num fwd s e, css_tokens-nil cmp num fwd)

  abbrev after_prelude : List Rule → Option CssToken × Bytes → Option (List Rule)
  after_prelude sheet (none, s) = run_on outside sheet s
  after_prelude sheet (some t, s) = run_on (if is_open t then block 0 else outside) sheet s

  prelude-run :
      (n : ℕ) (sheet : List Rule) (s : Bytes)
      → length s < n
      → run_on prelude sheet s ≡ after_prelude sheet (skip_prelude cmp num n s)
  unfolding skip_prelude
  prelude-run zero sheet s h = absurd (omega arith)
  prelude-run (suc n) sheet s h = elim (Option-cases (nx s).0) [
    | inl e ↦ rw (run_on-none prelude sheet s e, skip_prelude, e, run_on-end outside sheet s e)
    | inr (t, e) ↦
        let shorter = next-shorter cmp num fwd s t e in
        let later = prelude-run n sheet (nx s).1 (omega (arith, shorter)) in
        rw (run_on-next prelude sheet s, skip_prelude, e)
          (elim (Bool-cases (is_open t)) [
            | inl o ↦ elim (Bool-cases (is_semicolon t)) [
              | inl c ↦ rw (o, c, o)
              | inr c ↦ rw (o, c, o)
            ]
            | inr o ↦ elim (Bool-cases (is_semicolon t)) [
              | inl c ↦ rw (o, c, o)
              | inr c ↦ rw (o, c) later
            ]
          ])
  ]

  not-zero : (n : ℕ) → (suc n == 0) ≡ false
  not-zero n = ground arith

  less : (n : ℕ) → suc (suc n) - 1 ≡ suc n
  less n = omega arith

  block-run :
      (n more : ℕ) (sheet : List Rule) (s : Bytes)
      → length s < n
      → run_on (block more) sheet s ≡ run_on outside sheet (skip_block cmp num n (suc more) s)
  unfolding skip_block
  block-run zero more sheet s h = absurd (omega arith)
  block-run (suc n) more sheet s h = elim (Option-cases (nx s).0) [
    | inl e ↦ rw (run_on-none (block more) sheet s e, skip_block, e, run_on-end outside sheet s e)
    | inr (t, e) ↦
        let shorter = next-shorter cmp num fwd s t e in
        rw (run_on-next (block more) sheet s, skip_block, e)
          (go more t (λ more'. block-run n more' sheet (nx s).1 (omega (arith, shorter))))
  ]
    where
      go :
          (more : ℕ) (t : CssToken)
          → ((more' : ℕ)
              → run_on (block more') sheet (nx s).1
                ≡ run_on outside sheet (skip_block cmp num n (suc more') (nx s).1))
          → let depth =
              if is_open t then suc (suc more) else if is_close t then suc more - 1 else suc more in
            run_token (block more) sheet (some t) (nx s).1
            ≡ run_on outside sheet (
                if is_close t && (depth == 0)
                then (nx s).1
                else skip_block cmp num n depth (nx s).1)
      go zero t later = elim (Bool-cases (is_open t)) [
        | inl o ↦ elim (Bool-cases (is_close t)) [
          | inl c ↦ rw (o, c) (later 1)
          | inr c ↦ rw (o, c) (later 1)
        ]
        | inr o ↦ elim (Bool-cases (is_close t)) [ inl c ↦ rw (o, c) | inr c ↦ rw (o, c) (later 0) ]
      ]
      go (suc more) t later = elim (Bool-cases (is_open t)) [
        | inl o ↦ elim (Bool-cases (is_close t)) [
          | inl c ↦ rw (o, c, not-zero (suc (suc more))) (later (suc (suc more)))
          | inr c ↦ rw (o, c) (later (suc (suc more)))
        ]
        | inr o ↦ elim (Bool-cases (is_close t)) [
          | inl c ↦ rw (o, c, less more, not-zero more) (later more)
          | inr c ↦ rw (o, c) (later (suc more))
        ]
      ]

  pub at_rule-run :
      (sheet : List Rule) (s : Bytes)
      → run_on prelude sheet s ≡ run_on outside sheet (css_parse_at_rule cmp num s)
  unfolding css_parse_at_rule
  at_rule-run sheet s =
      let r = skip_prelude cmp num (suc (length s)) s in
      prelude-run (suc (length s)) sheet s (omega arith) ∙ elim (Option-cases r.0) [
        | inl e ↦ rw (e, css_parse_at_rule)
        | inr (t, e) ↦
            rw (e, css_parse_at_rule)
              (elim (Bool-cases (is_open t)) [
                | inl o ↦ rw o (block-run (suc (length r.1)) 0 sheet r.1 (omega arith))
                | inr o ↦ rw o
              ])
      ]

  abbrev pub after_value :
      List Rule → Rule → CssToken → Option (Option Bytes × Bytes) → Option (List Rule)
  after_value sheet rule property none = none
  after_value sheet rule property (some (value, s)) =
      run_on (body (declare new rule property.value value)) sheet s

  crashed-run : (sheet : List Rule) (ts : List CssToken) → run new crashed sheet ts ≡ none
  crashed-run sheet [] = refl
  crashed-run sheet (t ∷ ts) = crashed-run sheet ts

  pub value-run :
      (n : ℕ) (rule : Rule) (property : CssToken) (value : Option Bytes) (sheet : List Rule)
      (s : Bytes)
      → length s < n
      → run_on (valued rule property value) sheet s
        ≡ after_value sheet rule property (read_value cmp num n value s)
  unfolding read_value
  value-run zero rule property value sheet s h = absurd (omega arith)
  value-run (suc n) rule property value sheet s h = elim (Option-cases (nx s).0) [
    | inl e ↦ rw (
      run_on-none (valued rule property value) sheet s e,
      read_value,
      e,
      run_on-end (body (declare new rule property.value value)) sheet s e,
    )
    | inr (t, e) ↦
        let shorter = next-shorter cmp num fwd s t e in
        rw (run_on-next (valued rule property value) sheet s, read_value, e)
          (go t (λ w.
            value-run n rule property (some (join value w)) sheet (nx s).1
              (omega (arith, shorter))))
  ]
    where
      go :
          (t : CssToken)
          → ((w : Bytes)
              → run_on (valued rule property (some (join value w))) sheet (nx s).1
                ≡ after_value sheet rule property
                    (read_value cmp num n (some (join value w)) (nx s).1))
          → run_token (valued rule property value) sheet (some t) (nx s).1
            ≡ after_value sheet rule property (
                if is_semicolon t || is_close t then some (value, (nx s).1) else elim t.value [
                  | none ↦ none
                  | some w ↦ read_value cmp num n (some (join value w)) (nx s).1
                ])
      go t later = elim (Bool-cases (is_semicolon t || is_close t)) [
        | inl c ↦ rw c
        | inr c ↦ elim (Option-cases t.value) [
          | inl v ↦ rw (c, v) (crashed-run sheet (css_tokens cmp num (nx s).1))
          | inr (w, v) ↦ rw (c, v) (later w)
        ]
      ]
