-- ===== src/Libc/Strtol.antt =====
-- libc/src/stdlib/atoi.c: the conversions from text. `long` and `long long` have 64 bits. The pair of
-- `c` and `s` behind `c = *s++` is the list of the bytes from `c` on, which is empty when `c` is the
-- NUL; so it is also the string at `s - 1`. A `base` is not negative. A conversion returns the value
-- and the string that `*endptr` is set to.
pub mod Digits
pub mod Value
mod Tests
use prismatic_os.Base.{
  ℕ, ◌+◌, ◌-◌, ◌*◌, ◌/◌, ◌%◌, ◌^◌, Bool, true, false, ◌&&◌, ◌||◌, Option, none, some, [], ◌∷◌, ltb,
  leb, ◌==◌, if◌then◌else◌, Bytes,
}
use prismatic_os.Base.Int.{ℤ, pos, to_signed, low_bits}
use prismatic_os.Libc.Ctype.{isspace, isdigit, isalpha, isupper}
use prismatic_os.Libc.Str.{head_byte}

abbrev pub tail : Bytes → Bytes
tail [] = []
tail (x ∷ s) = s

-- `do { c = *s++; } while (isspace(c));`
pub skip_space : Bytes → Bytes
skip_space [] = []
skip_space (x ∷ s) = let rest = skip_space s in if isspace x then rest else x ∷ s

-- Whether there is a minus sign, and the text behind a sign.
pub read_sign : Bytes → Bool × Bytes
read_sign t =
    if head_byte t == b'-'
    then (true, tail t)
    else if head_byte t == b'+'
    then (false, tail t)
    else (false, t)

-- The base that is used, and the text behind a prefix 0x.
pub read_prefix : ℕ → Bytes → ℕ × Bytes
read_prefix base t =
    if ((base == 0) || (base == 16))
      && (head_byte t == b'0')
      && ((head_byte (tail t) == b'x') || (head_byte (tail t) == b'X'))
    then (16, tail (tail t))
    else if base == 0
    then (if head_byte t == b'0' then 8 else 10, t)
    else (base, t)

-- The value of a character as a digit, if it is a digit or a letter.
unfoldable pub digit : ℕ → Option ℕ
unfolding isdigit isalpha isupper
digit c =
    if isdigit c
    then some (c - b'0')
    else if isalpha c
    then some (c - (if isupper c then b'A' - 10 else b'a' - 10))
    else none

-- The variable `any`: 0, 1 and -1.
pub data Any : Type 0 where
  untouched : Any
  converted : Any
  overflowed : Any

abbrev pub is_overflowed : Any → Bool
is_overflowed overflowed = true
is_overflowed untouched = false
is_overflowed converted = false

pub record Scan : Type 0 where
  pub text : Bytes
  pub acc : ℕ
  pub any : Any

abbrev pub scan_at : Bytes → ℕ → Any → Scan
scan_at t acc any = record { text = t; acc = acc; any = any }

-- The loop over the digits.
pub scan : (base cutoff cutlim : ℕ) → Bytes → ℕ → Any → Scan
scan base cutoff cutlim [] acc any = scan_at [] acc any
scan base cutoff cutlim (c ∷ t) acc any = elim (digit c) [
  | none ↦ scan_at (c ∷ t) acc any
  | some d ↦ elim (leb base d) [
    | true ↦ scan_at (c ∷ t) acc any
    | false ↦ elim (is_overflowed any || ltb cutoff acc || ((acc == cutoff) && ltb cutlim d)) [
      | true ↦ scan base cutoff cutlim t acc overflowed
      | false ↦ scan base cutoff cutlim t ((acc * base + d) % 2 ^ 64) converted
    ]
  ]
]

-- `*endptr = any ? s - 1 : nptr`
abbrev pub end_of : Bytes → Scan → Bytes
end_of nptr r = elim r.any [ untouched ↦ nptr | converted ↦ r.text | overflowed ↦ r.text ]

-- -LONG_MIN or LONG_MAX
abbrev pub signed_limit : Bool → ℕ
signed_limit true = 2 ^ 63
signed_limit false = 2 ^ 63 - 1

-- The value behind the loop of a signed conversion, as an unsigned long.
abbrev pub signed_result : Bool → Scan → ℕ
signed_result neg r =
    if is_overflowed r.any
    then signed_limit neg
    else if neg
    then (2 ^ 64 - r.acc) % 2 ^ 64
    else r.acc

-- The end of strtol and strtoll, with the base checked and the limit split by it.
pub convert_signed : Bytes → Bool → ℕ → Bytes → ℤ × Bytes
convert_signed nptr neg base t =
    let r = scan base (signed_limit neg / base) (signed_limit neg % base) t 0 untouched in
    if ltb base 2 || ltb 36 base
    then (pos 0, nptr)
    else (to_signed 64 (signed_result neg r), end_of nptr r)

pub strtol : Bytes → ℕ → ℤ × Bytes
strtol nptr base =
    let (neg, t) = read_sign (skip_space nptr) in
    let (base', t') = read_prefix base t in convert_signed nptr neg base' t'

pub strtoll : Bytes → ℕ → ℤ × Bytes
strtoll nptr base =
    let (neg, t) = read_sign (skip_space nptr) in
    let (base', t') = read_prefix base t in convert_signed nptr neg base' t'

-- The end of strtoul and strtoull, which drop the sign.
pub convert_unsigned : Bytes → ℕ → Bytes → ℕ × Bytes
convert_unsigned nptr base t =
    let r = scan base ((2 ^ 64 - 1) / base) ((2 ^ 64 - 1) % base) t 0 untouched in
    if ltb base 2 || ltb 36 base
    then (0, nptr)
    else (if is_overflowed r.any then 2 ^ 64 - 1 else r.acc, end_of nptr r)

pub strtoul : Bytes → ℕ → ℕ × Bytes
strtoul nptr base =
    let (neg, t) = read_sign (skip_space nptr) in
    let (base', t') = read_prefix base t in convert_unsigned nptr base' t'

pub strtoull : Bytes → ℕ → ℕ × Bytes
strtoull nptr base =
    let (neg, t) = read_sign (skip_space nptr) in
    let (base', t') = read_prefix base t in convert_unsigned nptr base' t'

-- The conversion of a long to an int keeps the low 32 bits.
pub atoi : Bytes → ℤ
atoi nptr = to_signed 32 (low_bits 32 (strtol nptr 10).0)

pub atol : Bytes → ℤ
atol nptr = (strtol nptr 10).0

pub atoll : Bytes → ℤ
atoll nptr = (strtoll nptr 10).0
