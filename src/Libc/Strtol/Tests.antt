-- ===== src/Libc/Strtol/Tests.antt =====
-- Conversions of concrete texts.
use prismatic_os.Base.{◌^◌, ◌<◌, ◌≡◌, refl, true, [], ◌∷◌, arith}
use prismatic_os.Libc.Ctype.{isspace}
use prismatic_os.Libc.Strtol.{digit, strtol}
use prismatic_os.Libc.Strtol.Digits.{AllDigits, Ends, at_other, number}
use prismatic_os.Libc.Strtol.Value.{AllBlank, minus, spelled, clamp_signed, strtol_lem}

abbrev four_two : AllDigits 10 (b'4' ∷ b'2' ∷ [])
unfolding digit
four_two = ((4, refl, omega arith), ((2, refl, omega arith), tt))

Ends-blank : Ends 10 (b' ' ∷ [])
unfolding digit
Ends-blank = at_other b' ' [] refl

one_blank : AllBlank (b' ' ∷ [])
unfolding isspace
one_blank = (refl, tt)

strtol_lem_example :
    strtol (spelled (b' ' ∷ []) minus (b'4' ∷ b'2' ∷ []) (b' ' ∷ [])) 10
    ≡ (clamp_signed true (number 10 0 (b'4' ∷ b'2' ∷ []) four_two), b' ' ∷ [])
strtol_lem_example =
    strtol_lem 10 b'4' (b'2' ∷ []) (b' ' ∷ []) four_two Ends-blank (omega arith) (b' ' ∷ []) minus
      one_blank (omega arith) (omega arith)

four_two_small : number 10 0 (b'4' ∷ b'2' ∷ []) four_two < 2 ^ 31
unfolding number four_two
four_two_small = omega arith
