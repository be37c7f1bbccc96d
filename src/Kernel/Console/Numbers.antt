-- ===== src/Kernel/Console/Numbers.antt =====
-- The digits that console_print_uint and console_print_int print are those of the number.
use prismatic_os.Base.{
  ℕ, zero, suc, ◌+◌, ◌-◌, ◌*◌, ◌/◌, ◌%◌, ◌^◌, ◌≤◌, ◌<◌, ◌≡◌, refl, ap, ◌∙◌, ◌⊎◌, inl, inr, true,
  false, [], ◌∷◌, arith, ltb, ◌==◌, if◌then◌else◌, Bool-cases, Bytes, length,
}
use prismatic_os.Base.Int.{negsuc}
use prismatic_os.Kernel.Console.{
  Console, int_digit, uint_digit, digits, console_puts, console_print_uint, console_print_int,
}

-- The value of a digit, in either case.
unfoldable pub digit_value : ℕ → ℕ
digit_value c = if ltb c b'A' then c - b'0' else if ltb c b'a' then c - b'A' + 10 else c - b'a' + 10

abbrev pub value_of : ℕ → ℕ → Bytes → ℕ
value_of base sum [] = sum
value_of base sum (c ∷ str) = value_of base (sum * base + digit_value c) str

digit_value-uint_digit : (d : ℕ) → d < 16 → digit_value (uint_digit d) ≡ d
unfolding digit_value uint_digit
digit_value-uint_digit d h = ground arith

digit_value-int_digit : (d : ℕ) → d < 16 → digit_value (int_digit d) ≡ d
unfolding digit_value int_digit
digit_value-int_digit d h = ground arith

abbrev doubled : ℕ → ℕ
doubled zero = 1
doubled (suc n) = doubled n * 2

module _ (digit : ℕ → ℕ) (base : ℕ) (right : (d : ℕ) → d < 16 → digit_value (digit d) ≡ d)
    (split : (v : ℕ) → v / base * base + v % base ≡ v) (halves : (v : ℕ) → v / base * 2 ≤ v)
    (small : (v : ℕ) → v % base < 16) where
  value_of-digits :
      (n value : ℕ) (behind : Bytes)
      → value < doubled n
      → value_of base 0 (digits digit base n value behind) ≡ value_of base value behind
  unfolding digits
  value_of-digits zero value behind h = let e : value ≡ 0 = omega arith in rw e refl
  value_of-digits (suc n) value behind h = elim (Bool-cases (value == 0)) [
    | inl e ↦ let z : value ≡ 0 = ground arith in rw (e, z) refl
    | inr e ↦
        let rest = digit (value % base) ∷ behind in
        let smaller : value / base < doubled n = omega (arith, halves value) in
        let again : value / base * base + digit_value (digit (value % base)) ≡ value =
          ap (λ d. value / base * base + d) (right (value % base) (small value)) ∙ split value in
        rw e
          (value_of-digits n (value / base) rest smaller ∙ ap (λ v. value_of base v behind) again)
  ]

  length-digits :
      (n value : ℕ) (behind : Bytes) → length (digits digit base n value behind) ≤ n + length behind
  unfolding digits
  length-digits zero value behind = omega arith
  length-digits (suc n) value behind = elim (Bool-cases (value == 0)) [
    | inl e ↦ rw e (omega arith)
    | inr e ↦ rw e (omega (arith, length-digits n (value / base) (digit (value % base) ∷ behind)))
  ]

-- The text of a number.
abbrev pub text_of : (ℕ → ℕ) → ℕ → ℕ → Bytes
text_of digit base value = if value == 0 then b'0' ∷ [] else digits digit base 32 value []

abbrev pub IsText : ℕ → ℕ → Bytes → Type 0
IsText base value str = (value_of base 0 str ≡ value) × (length str ≤ 32)

text_of-IsText :
    (digit : ℕ → ℕ) (base value : ℕ)
    → ((d : ℕ) → d < 16 → digit_value (digit d) ≡ d)
    → (base ≡ 10) ⊎ (base ≡ 16)
    → value < 2 ^ 32
    → IsText base value (text_of digit base value)
unfolding digit_value
text_of-IsText digit base value right which h = elim (Bool-cases (value == 0)) [
  | inl e ↦ let z : value ≡ 0 = ground arith in rw (e, z) (omega arith, omega arith)
  | inr e ↦ rw e (elim which [
    | inl ten ↦ rw ten (
      value_of-digits digit 10 right (λ v. omega arith) (λ v. omega arith) (λ v. omega arith) 32
          value [] h,
      length-digits digit 10 right (λ v. omega arith) (λ v. omega arith) (λ v. omega arith) 32 value
          [],
    )
    | inr sixteen ↦ rw sixteen (
      value_of-digits digit 16 right (λ v. omega arith) (λ v. omega arith) (λ v. omega arith) 32
          value [] h,
      length-digits digit 16 right (λ v. omega arith) (λ v. omega arith) (λ v. omega arith) 32 value
          [],
    )
  ])
]

-- An unsigned number of 32 bits is printed as a text that reads as the number, in base 10 or 16, and
-- that fits the buffer of 32 characters.
pub console_print_uint_lem :
    (s : Console) (value base : ℕ)
    → (base ≡ 10) ⊎ (base ≡ 16)
    → value < 2 ^ 32
    → (console_print_uint s value base ≡ console_puts s (text_of uint_digit base value))
      × IsText base value (text_of uint_digit base value)
unfolding console_print_uint console_puts
console_print_uint_lem s value base which h = (
  same (Bool-cases (value == 0)),
  text_of-IsText uint_digit base value digit_value-uint_digit which h,
)
  where
    same :
        ((value == 0) ≡ true) ⊎ ((value == 0) ≡ false)
        → console_print_uint s value base ≡ console_puts s (text_of uint_digit base value)
    same (inl e) = rw e refl
    same (inr e) = rw e refl

-- A negative number, except -2^31, is printed in base 10 as a minus sign and the text of its
-- magnitude.
pub console_print_int_negative :
    (s : Console) (n : ℕ)
    → n + 1 < 2 ^ 31
    → (console_print_int s (negsuc n) 10 ≡ console_puts s (b'-' ∷ text_of int_digit 10 (n + 1)))
      × IsText 10 (n + 1) (text_of int_digit 10 (n + 1))
unfolding console_print_int console_puts
console_print_int_negative s n h =
    let e : (n + 1 == 0) ≡ false = ground arith in
    let most : (n == 2 ^ 31 - 1) ≡ false = ground arith in
    (
      rw (most, e) refl,
      text_of-IsText int_digit 10 (n + 1) digit_value-int_digit (inl refl) (omega arith),
    )
