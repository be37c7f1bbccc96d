-- ===== src/Html/Css/Value/Digits.antt =====
-- The colour that hexadecimal digits spell.
use prismatic_os.Base.{ℕ, ◌+◌, ◌*◌, ◌%◌, ◌^◌, ◌<◌, ◌≡◌, refl, ◌∙◌, [], ◌∷◌, arith, Bytes, length}
use prismatic_os.Libc.Strtol.Digits.{InBase, AllDigits, number}
use prismatic_os.Libc.Strtol.Value.{strtoul-hex}
use prismatic_os.Html.Css.Value.{Color, hex_color, css_value_parse_color}

-- A colour of n digits that are read as a number below 2 ^ 32.
parse_color-hex :
    (c d : ℕ) (ds : Bytes) (digits : AllDigits 16 (c ∷ d ∷ ds))
    → number 16 0 (c ∷ d ∷ ds) digits < 2 ^ 32
    → css_value_parse_color (b'#' ∷ c ∷ d ∷ ds)
      ≡ hex_color (length (b'#' ∷ c ∷ d ∷ ds)) (number 16 0 (c ∷ d ∷ ds) digits)
unfolding css_value_parse_color
parse_color-hex c d ds digits fits =
    let small : number 16 0 (c ∷ d ∷ ds) digits % 2 ^ 32 ≡ number 16 0 (c ∷ d ∷ ds) digits =
      omega arith in
    rw (strtoul-hex c d ds digits (omega arith), small)

abbrev pub rgba : ℕ → ℕ → ℕ → ℕ → Color
rgba r g b a = record { r = r; g = g; b = b; a = a }

rgba-eq :
    {r r' g g' b b' a a' : ℕ} → r ≡ r' → g ≡ g' → b ≡ b' → a ≡ a' → rgba r g b a ≡ rgba r' g' b' a'
rgba-eq er eg eb ea = rw (er, eg, eb, ea)

-- A `#` with three or four hexadecimal digits gives each digit, doubled, as a channel; with six or
-- eight digits it gives each pair of them; the alpha channel is 255 where it is not written.
pub css_value_parse_color_lem :
    (c0 c1 c2 c3 c4 c5 c6 c7 : ℕ)
    → (h0 : InBase 16 c0) (h1 : InBase 16 c1) (h2 : InBase 16 c2) (h3 : InBase 16 c3)
    → (h4 : InBase 16 c4) (h5 : InBase 16 c5) (h6 : InBase 16 c6) (h7 : InBase 16 c7)
    → (css_value_parse_color (b'#' ∷ c0 ∷ c1 ∷ c2 ∷ [])
        ≡ rgba (17 * h0.0) (17 * h1.0) (17 * h2.0) 255)
      × (css_value_parse_color (b'#' ∷ c0 ∷ c1 ∷ c2 ∷ c3 ∷ [])
          ≡ rgba (17 * h0.0) (17 * h1.0) (17 * h2.0) (17 * h3.0))
      × (css_value_parse_color (b'#' ∷ c0 ∷ c1 ∷ c2 ∷ c3 ∷ c4 ∷ c5 ∷ [])
          ≡ rgba (16 * h0.0 + h1.0) (16 * h2.0 + h3.0) (16 * h4.0 + h5.0) 255)
      × (css_value_parse_color (b'#' ∷ c0 ∷ c1 ∷ c2 ∷ c3 ∷ c4 ∷ c5 ∷ c6 ∷ c7 ∷ [])
          ≡ rgba (16 * h0.0 + h1.0) (16 * h2.0 + h3.0) (16 * h4.0 + h5.0) (16 * h6.0 + h7.0))
unfolding number
css_value_parse_color_lem c0 c1 c2 c3 c4 c5 c6 c7 (d0, e0, l0) (d1, e1, l1) (d2, e2, l2)
      (d3, e3, l3) (d4, e4, l4) (d5, e5, l5) (d6, e6, l6) (d7, e7, l7) =
    (
      parse_color-hex c0 c1 (c2 ∷ []) ((d0, e0, l0), ((d1, e1, l1), ((d2, e2, l2), tt)))
            (omega arith)
          ∙ rgba-eq (omega arith) (omega arith) (omega arith) refl,
      parse_color-hex c0 c1 (c2 ∷ c3 ∷ [])
            ((d0, e0, l0), ((d1, e1, l1), ((d2, e2, l2), ((d3, e3, l3), tt)))) (omega arith)
          ∙ rgba-eq (omega arith) (omega arith) (omega arith) (omega arith),
      parse_color-hex c0 c1 (c2 ∷ c3 ∷ c4 ∷ c5 ∷ [])
            (
              (d0, e0, l0),
              ((d1, e1, l1), ((d2, e2, l2), ((d3, e3, l3), ((d4, e4, l4), ((d5, e5, l5), tt))))),
            )
            (omega arith)
          ∙ rgba-eq (omega arith) (omega arith) (omega arith) refl,
      parse_color-hex c0 c1 (c2 ∷ c3 ∷ c4 ∷ c5 ∷ c6 ∷ c7 ∷ [])
            (
              (d0, e0, l0),
              (
                (d1, e1, l1),
                (
                  (d2, e2, l2),
                  (
                    (d3, e3, l3),
                    ((d4, e4, l4), ((d5, e5, l5), ((d6, e6, l6), ((d7, e7, l7), tt)))),
                  ),
                ),
              ),
            )
            (omega arith)
          ∙ rgba-eq (omega arith) (omega arith) (omega arith) (omega arith),
    )
