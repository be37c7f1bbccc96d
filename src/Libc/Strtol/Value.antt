-- ===== src/Libc/Strtol/Value.antt =====
-- What strtol and strtoul return for a text of blanks, a sign, digits and a rest.
use prismatic_os.Base.{
  ℕ, ◌+◌, ◌-◌, ◌*◌, ◌/◌, ◌%◌, ◌^◌, ◌≤◌, ◌<◌, ◌≡◌, refl, sym, ap, ◌∙◌, ◌≢◌, inl, inr, Bool, true,
  false, ◌||◌, some, [], ◌∷◌, ◌++◌, append-nil, arith, ltb, if◌then◌else◌, Bool-cases, Bytes,
}
use native.Mathlib.Nat.{mod-add-div'}
use prismatic_os.Base.Int.{ℤ, pos, negsuc, to_signed, neg_ℕ, low_bits}
use prismatic_os.Libc.Ctype.{isspace}
use prismatic_os.Libc.Strtol.{
  atoi, digit, untouched, converted, overflowed, scan_at, skip_space, read_sign, read_prefix,
  signed_limit, signed_result, convert_signed, strtol, convert_unsigned, strtoul,
}
use prismatic_os.Libc.Strtol.Digits.{
  InBase, AllDigits, Ends, at_nul, number, scan-number, scan-overflow,
}

abbrev pub AllBlank : Bytes → Type 0
AllBlank [] = Unit
AllBlank (x ∷ s) = (isspace x ≡ true) × AllBlank s

-- The sign that is written: none, + or -.
pub data Sign : Type 0 where
  no_sign plus minus : Sign

abbrev pub sign_text : Sign → Bytes
sign_text no_sign = []
sign_text plus = b'+' ∷ []
sign_text minus = b'-' ∷ []

abbrev pub is_minus : Sign → Bool
is_minus no_sign = false
is_minus plus = false
is_minus minus = true

-- The text in front of the rest. There is a digit, and the base is given.
abbrev pub spelled : Bytes → Sign → Bytes → Bytes → Bytes
spelled blanks sign ds rest = blanks ++ (sign_text sign ++ (ds ++ rest))

skip_space-append : (blanks t : Bytes) → AllBlank blanks → skip_space (blanks ++ t) ≡ skip_space t
unfolding skip_space
skip_space-append [] t h = refl
skip_space-append (x ∷ blanks) t (e, h) = rw e (skip_space-append blanks t h)

-- A digit is no blank and no sign.
digit_facts : (c d : ℕ) → digit c ≡ some d → (isspace c ≡ false) × (c ≢ b'-') × (c ≢ b'+') × (c ≢ 0)
unfolding digit isspace
digit_facts c d e = ground arith

module _ (c : ℕ) (t : Bytes) (d : ℕ) (e : digit c ≡ some d) where
  skip_space_stop :
      (sign : Sign) → skip_space (sign_text sign ++ (c ∷ t)) ≡ sign_text sign ++ (c ∷ t)
  unfolding skip_space
  skip_space_stop no_sign = ground (arith, digit_facts c d e)
  skip_space_stop plus = unfold isspace in refl
  skip_space_stop minus = unfold isspace in refl

  read_sign_lem : (sign : Sign) → read_sign (sign_text sign ++ (c ∷ t)) ≡ (is_minus sign, c ∷ t)
  unfolding read_sign
  read_sign_lem no_sign = ground (arith, digit_facts c d e)
  read_sign_lem plus = refl
  read_sign_lem minus = refl

-- The integer that is returned: the number with its sign, or the limit that it exceeds.
abbrev pub clamp_signed : Bool → ℕ → ℤ
clamp_signed true v = if ltb (2 ^ 63) v then negsuc (2 ^ 63 - 1) else neg_ℕ v
clamp_signed false v = if ltb (2 ^ 63 - 1) v then pos (2 ^ 63 - 1) else pos v

-- Reading the accumulator as a long.
signed_within :
    (neg : Bool) (v : ℕ) (t : Bytes)
    → v ≤ signed_limit neg
    → to_signed 64 (signed_result neg (scan_at t v converted)) ≡ clamp_signed neg v
signed_within true v t h = ground arith
signed_within false v t h = ground arith

signed_beyond :
    (neg : Bool) (v a : ℕ) (t : Bytes)
    → signed_limit neg < v
    → to_signed 64 (signed_result neg (scan_at t a overflowed)) ≡ clamp_signed neg v
signed_beyond true v a t h = ground arith
signed_beyond false v a t h = ground arith

signed_limit-lt : (neg : Bool) → signed_limit neg < 2 ^ 64
signed_limit-lt true = omega arith
signed_limit-lt false = omega arith

module _ (base c : ℕ) (ds rest : Bytes) (digits : AllDigits base (c ∷ ds)) (ends : Ends base rest)
    (low : 2 ≤ base) where
  convert_signed_lem :
      (neg : Bool) (nptr : Bytes)
      → base ≤ 36
      → convert_signed nptr neg base ((c ∷ ds) ++ rest)
        ≡ (clamp_signed neg (number base 0 (c ∷ ds) digits), rest)
  unfolding convert_signed
  convert_signed_lem neg nptr high =
      let limit = signed_limit neg in
      let base_fits : (ltb base 2 || ltb 36 base) ≡ false = ground arith in
      let hr : limit % base < base = omega arith in
      let split : limit ≡ limit / base * base + limit % base =
        omega (arith, mod-add-div' limit base) in
      rw base_fits (elim (Bool-cases (ltb limit (number base 0 (c ∷ ds) digits))) [
        | inl over ↦
            let (a, found) =
              scan-overflow base (limit / base) (limit % base) rest ends hr limit split
                (signed_limit-lt neg) (c ∷ ds) 0 untouched digits refl (omega arith)
                (ground arith) in
            rw found (ap (λ z. (z, rest)) (signed_beyond neg _ a rest (ground arith)))
        | inr within ↦
            let found =
              scan-number base (limit / base) (limit % base) rest ends hr limit split
                (signed_limit-lt neg) (c ∷ ds) 0 untouched digits refl (ground arith) in
            rw found (ap (λ z. (z, rest)) (signed_within neg _ rest (ground arith)))
      ])

  convert_unsigned_lem :
      (nptr : Bytes)
      → base ≤ 36
      → convert_unsigned nptr base ((c ∷ ds) ++ rest) ≡ (
        if ltb (2 ^ 64 - 1) (number base 0 (c ∷ ds) digits)
            then 2 ^ 64 - 1
            else number base 0 (c ∷ ds) digits,
        rest,
      )
  unfolding convert_unsigned
  convert_unsigned_lem nptr high =
      let limit : ℕ = 2 ^ 64 - 1 in
      let base_fits : (ltb base 2 || ltb 36 base) ≡ false = ground arith in
      let hr : limit % base < base = omega arith in
      let split : limit ≡ limit / base * base + limit % base =
        omega (arith, mod-add-div' limit base) in
      elim (Bool-cases (ltb limit (number base 0 (c ∷ ds) digits))) [
        | inl over ↦
            let (a, found) =
              scan-overflow base (limit / base) (limit % base) rest ends hr limit split
                (omega arith) (c ∷ ds) 0 untouched digits refl (omega arith) (ground arith) in
            rw (base_fits, found, over)
        | inr within ↦
            let found =
              scan-number base (limit / base) (limit % base) rest ends hr limit split (omega arith)
                (c ∷ ds) 0 untouched digits refl (ground arith) in
            rw (base_fits, found, within)
      ]

  module _ (blanks : Bytes) (sign : Sign) (blank : AllBlank blanks) where
    front :
        read_sign (skip_space (spelled blanks sign (c ∷ ds) rest))
        ≡ (is_minus sign, (c ∷ ds) ++ rest)
    front =
        let (d, e, l) = digits.0 in
        rw (skip_space-append blanks _ blank, skip_space_stop c (ds ++ rest) d e sign)
          (read_sign_lem c (ds ++ rest) d e sign)

    plain_prefix : base ≢ 16 → read_prefix base ((c ∷ ds) ++ rest) ≡ (base, (c ∷ ds) ++ rest)
    unfolding read_prefix
    plain_prefix h = ground arith

    -- On blanks, a sign, digits of the base and a rest that begins with no such digit, for a base
    -- from 2 to 36 other than 16, strtol returns the number with its sign, or the nearest long if
    -- the number does not fit, and points behind the digits.
    pub strtol_lem :
        base ≤ 36
        → base ≢ 16
        → strtol (spelled blanks sign (c ∷ ds) rest) base
          ≡ (clamp_signed (is_minus sign) (number base 0 (c ∷ ds) digits), rest)
    unfolding strtol
    strtol_lem high h = rw (front, plain_prefix h) (convert_signed_lem (is_minus sign) _ high)

    -- On the same texts and bases strtoul returns the number without its sign, or ULONG_MAX if that
    -- does not fit, and points behind the digits.
    pub strtoul_lem :
        base ≤ 36
        → base ≢ 16
        → strtoul (spelled blanks sign (c ∷ ds) rest) base ≡ (
          if ltb (2 ^ 64 - 1) (number base 0 (c ∷ ds) digits)
              then 2 ^ 64 - 1
              else number base 0 (c ∷ ds) digits,
          rest,
        )
    unfolding strtoul
    strtoul_lem high h = rw (front, plain_prefix h) (convert_unsigned_lem _ high)

-- A text that begins with two hexadecimal digits has no prefix 0x.
hex_prefix :
    (c d : ℕ) (t : Bytes) → InBase 16 c → InBase 16 d → read_prefix 16 (c ∷ d ∷ t) ≡ (16, c ∷ d ∷ t)
unfolding read_prefix digit
hex_prefix c d t (x, ex, lx) (y, ey, ly) = ground arith

-- Two hexadecimal digits or more, of a number that fits, to the end of the text.
pub strtoul-hex :
    (c d : ℕ) (ds : Bytes) (digits : AllDigits 16 (c ∷ d ∷ ds))
    → number 16 0 (c ∷ d ∷ ds) digits < 2 ^ 64
    → (strtoul (c ∷ d ∷ ds) 16).0 ≡ number 16 0 (c ∷ d ∷ ds) digits
unfolding strtoul
strtoul-hex c d ds digits fits =
    let (x, ex, lx) = digits.0 in
    let small : ltb (2 ^ 64 - 1) (number 16 0 (c ∷ d ∷ ds) digits) ≡ false = ground arith in
    let whole =
      convert_unsigned_lem 16 c (d ∷ ds) [] digits at_nul (omega arith) (c ∷ d ∷ ds)
        (omega arith) in
    rw
      (
        skip_space_stop c (d ∷ ds) x ex no_sign,
        read_sign_lem c (d ∷ ds) x ex no_sign,
        hex_prefix c d ds digits.0 digits.1.0,
      )
      (ap (λ r. r.0) (ap (convert_unsigned (c ∷ d ∷ ds) 16) (sym (append-nil (c ∷ d ∷ ds))) ∙ whole)
        ∙ rw small)

-- On blanks, a sign, decimal digits of a number below 2 ^ 31 and a rest that begins with no digit,
-- atoi returns the number with its sign.
pub atoi_lem :
    (c : ℕ) (ds rest : Bytes) (digits : AllDigits 10 (c ∷ ds))
    → Ends 10 rest
    → (blanks : Bytes) (sign : Sign) → AllBlank blanks
    → number 10 0 (c ∷ ds) digits < 2 ^ 31
    → atoi (spelled blanks sign (c ∷ ds) rest) ≡ (
        if is_minus sign
        then neg_ℕ (number 10 0 (c ∷ ds) digits)
        else pos (number 10 0 (c ∷ ds) digits))
unfolding atoi
atoi_lem c ds rest digits ends blanks sign blank fits =
    rw
      (strtol_lem 10 c ds rest digits ends (omega arith) blanks sign blank (omega arith)
        (omega arith))
      (narrow (is_minus sign) (number 10 0 (c ∷ ds) digits) fits)
  where
    narrow :
        (neg : Bool) (v : ℕ)
        → v < 2 ^ 31
        → to_signed 32 (low_bits 32 (clamp_signed neg v)) ≡ (if neg then neg_ℕ v else pos v)
    narrow true v h = ground arith
    narrow false v h = ground arith
