-- ===== src/Libc/Printf/Numbers.antt =====
-- A number that the conversion %d prints is read back by strtol.
use prismatic_os.Base.{
  ℕ, zero, suc, ◌+◌, ◌-◌, ◌*◌, ◌/◌, ◌%◌, ◌^◌, ◌≤◌, ◌<◌, ◌≡◌, refl, sym, ap, ◌∙◌, inl, inr, true,
  false, some, [], ◌∷◌, ◌++◌, append-nil, arith, ltb, leb, ◌==◌, ◌!=◌, if◌then◌else◌, Bool-cases,
  Bytes, length, replicate,
}
use prismatic_os.Base.Int.{ℤ, pos, negsuc, positive}
use prismatic_os.Libc.Ctype.{isdigit, isspace}
use prismatic_os.Libc.Strtol.{digit, strtol}
use prismatic_os.Libc.Strtol.Digits.{AllDigits, InBase, at_nul, number}
use prismatic_os.Libc.Strtol.Value.{
  AllBlank, Sign, no_sign, minus, sign_text, is_minus, clamp_signed, strtol_lem,
}
use prismatic_os.Libc.Printf.{int_digits, number_text, sign_of, array_text, padded, format_int}
use prismatic_os.Libc.Printf.Convert.{no_flags}

abbrev pow10 : ℕ → ℕ
pow10 zero = 1
pow10 (suc n) = 10 * pow10 n

digit_of : (d : ℕ) → d < 10 → digit (b'0' + d) ≡ some d
unfolding digit isdigit
digit_of d h = ground arith

-- The digits in the array spell the number in front of those behind.
int_digits_lem :
    (n v : ℕ) (behind : Bytes) (ds : AllDigits 10 behind)
    → v < pow10 n
    → (all : AllDigits 10 (int_digits n 10 v behind)) × (number 10 0 (int_digits n 10 v behind) all
        ≡ number 10 v behind ds)
unfolding int_digits
int_digits_lem zero v behind ds h =
    let z : 0 ≡ v = omega arith in (ds, ap (λ x. number 10 x behind ds) z)
int_digits_lem (suc n) v behind ds h = elim (Bool-cases (v == 0)) [
  | inl e ↦
      let z : 0 ≡ v = ground arith in rw (int_digits, e) (ds, ap (λ x. number 10 x behind ds) z)
  | inr e ↦
      let small : ltb (v % 10) 10 ≡ true = ground arith in
      let first : InBase 10 (b'0' + v % 10) =
        (v % 10, digit_of (v % 10) (omega arith), omega arith) in
      let (all, same) =
        int_digits_lem n (v / 10) ((b'0' + v % 10) ∷ behind) (first, ds) (omega arith) in
      let again : v / 10 * 10 + v % 10 ≡ v = omega arith in
      rw (int_digits, e, small)
        (all, same ∙ (unfold number in ap (λ x. number 10 x behind ds) again))
]

length-int_digits :
    (n k v : ℕ) (behind : Bytes)
    → v < pow10 k
    → length (int_digits n 10 v behind) ≤ k + length behind
unfolding int_digits
length-int_digits zero k v behind h = omega arith
length-int_digits (suc n) zero v behind h =
    let e : (v == 0) ≡ true = ground arith in rw (int_digits, e) (omega arith)
length-int_digits (suc n) (suc k) v behind h = elim (Bool-cases (v == 0)) [
  | inl e ↦ rw (int_digits, e) (omega arith)
  | inr e ↦
      let small : ltb (v % 10) 10 ≡ true = ground arith in
      rw (int_digits, e, small)
        (omega (arith, length-int_digits n k (v / 10) ((b'0' + v % 10) ∷ behind) (omega arith)))
]

-- The decimal text of a number.
abbrev decimal : ℕ → Bytes
decimal v = if v == 0 then b'0' ∷ [] else int_digits 64 10 v []

abbrev Spells : Bytes → ℕ → Type 0
Spells text v =
    (0 < length text) × (length text ≤ 20) × (all : AllDigits 10 text) × (number 10 0 text all ≡ v)

nonempty :
    (text : Bytes) (all : AllDigits 10 text) (v : ℕ)
    → number 10 0 text all ≡ v
    → (v == 0) ≡ false
    → 0 < length text
unfolding number
nonempty [] all v e h = absurd (ground arith)
nonempty (c ∷ text) all v e h = omega arith

decimal-Spells : (v : ℕ) → v < 2 ^ 63 → Spells (decimal v) v
decimal-Spells v h = elim (Bool-cases (v == 0)) [
  | inl e ↦
      let z : 0 ≡ v = ground arith in
      rw e (
        omega arith,
        omega arith,
        ((0, digit_of 0 (omega arith), omega arith), tt),
        (unfold number in z),
      )
  | inr e ↦
      let (all, same) = int_digits_lem 64 v [] tt (omega arith) in
      let base : number 10 v [] tt ≡ v = unfold number in refl in
      let spelled = same ∙ base in
      rw e (
        nonempty (int_digits 64 10 v []) all v spelled e,
        length-int_digits 64 20 v [] (omega arith),
        all,
        spelled,
      )
]

blanks : (n : ℕ) → AllBlank (replicate n b' ')
unfolding isspace
blanks zero = tt
blanks (suc n) = (refl, blanks n)

-- strtol reads what is printed.
strtol-Spells :
    (pad v : ℕ) (sign : Sign) (text : Bytes)
    → Spells text v
    → strtol (replicate pad b' ' ++ (sign_text sign ++ text)) 10
      ≡ (clamp_signed (is_minus sign) v, [])
strtol-Spells pad v sign [] (ne, short, all, e) = absurd (omega arith)
strtol-Spells pad v sign (c ∷ t) (ne, short, all, e) =
    ap (λ s. strtol (replicate pad b' ' ++ (sign_text sign ++ s)) 10) (sym (append-nil (c ∷ t)))
    ∙ strtol_lem 10 c t [] all at_nul (omega arith) (replicate pad b' ') sign (blanks pad)
        (omega arith) (omega arith)
    ∙ ap (λ x. (clamp_signed (is_minus sign) x, [])) e

-- The padded text of a number with its sign.
format_int-text :
    (value width : ℤ) (sign text : Bytes)
    → sign_of value 10 no_flags ≡ sign
    → number_text value 10 ≡ text
    → length (sign ++ text) ≤ 64
    → format_int [] value 10 width (negsuc 0) no_flags
      ≡ some (replicate (positive width - length (sign ++ text)) b' ' ++ (sign ++ text))
unfolding format_int array_text padded
format_int-text value width sign text es et h =
    let none_padded : 0 - length (sign ++ text) ≡ 0 = omega arith in
    let fits : leb (length (sign ++ text)) 64 ≡ true = ground arith in
    rw (es, et, none_padded, fits, append-nil (sign ++ text))

clamp-positive : (v : ℕ) → v < 2 ^ 63 → clamp_signed false v ≡ pos v
clamp-positive v h = ground arith

clamp-negative : (n : ℕ) → n < 2 ^ 63 → clamp_signed true (n + 1) ≡ negsuc n
clamp-negative n h = ground arith

-- The integers of 64 bits but the least.
abbrev pub Fits : ℤ → Type 0
Fits (pos v) = v < 2 ^ 63
Fits (negsuc n) = n < 2 ^ 63 - 1

-- An integer of 64 bits other than the least, printed in base 10 with any width and neither precision
-- nor flags, and with a NUL behind the array: strtol reads the text, whole, as the same integer.
pub strtol-format_int :
    (value width : ℤ)
    → Fits value
    → (text : Bytes) × (format_int [] value 10 width (negsuc 0) no_flags ≡ some text)
      × (strtol text 10 ≡ (value, []))
strtol-format_int (pos v) width h =
    let spells = decimal-Spells v h in
    let pad = positive width - length (decimal v) in
    (
      replicate pad b' ' ++ decimal v,
      format_int-text (pos v) width [] (decimal v) (unfold sign_of in refl)
          (unfold number_text in refl) (omega (arith, spells.1)),
      strtol-Spells pad v no_sign (decimal v) spells ∙ ap (λ x. (x, [])) (clamp-positive v h),
    )
strtol-format_int (negsuc n) width h =
    let spells = decimal-Spells (n + 1) (omega arith) in
    let pad = positive width - length (b'-' ∷ decimal (n + 1)) in
    let some_value : (n + 1 == 0) ≡ false = ground arith in
    let not_least : (n != 2 ^ 63 - 1) ≡ true = ground arith in
    (
      replicate pad b' ' ++ (b'-' ∷ decimal (n + 1)),
      format_int-text (negsuc n) width (b'-' ∷ []) (decimal (n + 1)) (unfold sign_of in refl)
          (unfold number_text in rw (not_least, some_value)) (omega (arith, spells.1)),
      strtol-Spells pad (n + 1) minus (decimal (n + 1)) spells
          ∙ ap (λ x. (x, [])) (clamp-negative n (omega arith)),
    )
