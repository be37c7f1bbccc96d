-- ===== src/Libc/Printf/Convert.antt =====
-- The format of libc/src/stdio/printf.c, from the `%` to the conversion specifier, and what the
-- conversions print.
use prismatic_os.Base.{
  ℕ, ◌+◌, ◌-◌, ◌*◌, ◌%◌, ◌^◌, Bool, false, ◌||◌, Option, none, some, List, [], ◌∷◌, ◌==◌,
  if◌then◌else◌, Bytes, codes, length,
}
use prismatic_os.Base.Int.{ℤ, pos, negsuc, to_signed}
use prismatic_os.Libc.Str.{head_byte}
use prismatic_os.Libc.Strtol.{tail}
use prismatic_os.Libc.Ctype.{isdigit}
use prismatic_os.Libc.Printf.{Flags, format_int, format_string}

-- A word of 64 bits, or a string, whose pointer may be NULL.
pub data Arg : Type 0 where
  word_arg : ℕ → Arg
  string_arg : Option Bytes → Arg

unfoldable pub read_flags : Bytes → Flags → Flags × Bytes
read_flags [] flags = (flags, [])
read_flags (c ∷ s) flags =
    let flags' : Flags = record {
      plus = flags.plus || (c == b'+');
      space = flags.space || (c == b' ');
      left = flags.left || (c == b'-');
      zeros = flags.zeros || (c == b'0');
    } in
    let (last, rest) = read_flags s flags' in
    if (c == b'+') || (c == b' ') || (c == b'-') || (c == b'0')
    then (last, rest)
    else (flags, c ∷ s)

unfoldable pub read_number : ℕ → Bytes → ℕ × Bytes
read_number n [] = (n, [])
read_number n (c ∷ s) =
    let (m, rest) = read_number (n * 10 + (c - b'0')) s in
    if isdigit c then (m, rest) else (n, c ∷ s)

abbrev pub next_word : List Arg → Option (ℕ × List Arg)
next_word [] = none
next_word (word_arg w ∷ args) = some (w, args)
next_word (string_arg s ∷ args) = none

-- A number, or `*` for an argument.
unfoldable pub read_width : Bytes → List Arg → Option (ℤ × Bytes × List Arg)
read_width s args =
    let (n, rest) = read_number 0 s in
    let given : Option (ℤ × Bytes × List Arg) = elim (next_word args) [
      | none ↦ none
      | some (w, args') ↦ some (to_signed 32 w, tail s, args')
    ] in
    if head_byte s == b'*' then given else some (pos n, rest, args)

unfoldable pub read_precision : Bytes → List Arg → Option (ℤ × Bytes × List Arg)
read_precision s args =
    let given = read_width (tail s) args in
    if head_byte s == b'.' then given else some (negsuc 0, s, args)

pub data Length : Type 0 where
  no_length char_length short_length long_length long_long_length other_length : Length

-- The lengths j, z, t and L are read and not used.
unfoldable pub read_length : Bytes → Length × Bytes
read_length s =
    let c = head_byte s in
    let twice = head_byte (tail s) == c in
    if c == b'h'
    then (if twice then (char_length, tail (tail s)) else (short_length, tail s))
    else if c == b'l'
    then (if twice then (long_long_length, tail (tail s)) else (long_length, tail s))
    else if (c == b'j') || (c == b'z') || (c == b't') || (c == b'L')
    then (other_length, tail s)
    else (no_length, s)

abbrev pub bits_of : Length → ℕ
bits_of char_length = 8
bits_of short_length = 16
bits_of long_length = 64
bits_of long_long_length = 64
bits_of _ = 32

-- What a conversion hands to buffer_putc, what it adds to `count`, the arguments left and what is
-- stored.
pub record Converted : Type 0 where
  pub text : Bytes
  pub added : ℕ
  pub left_args : List Arg
  pub stored : List (ℕ × ℕ)

unfoldable pub convert_number :
    (behind : Bytes) → ℤ → (base : ℕ) → (width precision : ℤ) → Flags → List Arg → Option Converted
convert_number behind value base width precision flags args =
    elim (format_int behind value base width precision flags) [
      | none ↦ none
      | some text ↦ some (record { text = text; added = 1; left_args = args; stored = [] })
    ]

abbrev pub no_flags : Flags
no_flags = record { plus = false; space = false; left = false; zeros = false }

-- %p, where `count` grows by 2 for the whole.
unfoldable pub convert_pointer : (behind : Bytes) → ℕ → List Arg → Option Converted
convert_pointer behind w args =
    elim (format_int behind (to_signed 64 w) 16 (pos 0) (pos 0) no_flags) [
      | none ↦ none
      | some text ↦
          some (record { text = b'0' ∷ b'x' ∷ text; added = 2; left_args = args; stored = [] })
    ]

-- A conversion that takes a word.
unfoldable pub convert_word :
    (behind : Bytes)
    → ℕ
    → Length
    → (width precision : ℤ) → Flags
    → (count w : ℕ) → List Arg
    → Option Converted
convert_word behind c len width precision flags count w args =
    let unsigned = to_signed 64 (w % 2 ^ bits_of len) in
    if c == b'c'
    then some (record { text = (w % 256) ∷ []; added = 1; left_args = args; stored = [] })
    else if (c == b'd') || (c == b'i')
    then convert_number behind (to_signed (bits_of len) w) 10 width precision flags args
    else if c == b'u'
    then convert_number behind unsigned 10 width precision flags args
    else if (c == b'x') || (c == b'X')
    then convert_number behind unsigned 16 width precision flags args
    else if c == b'o'
    then convert_number behind unsigned 8 width precision flags args
    else if c == b'p'
    then convert_pointer behind w args
    else some (record {
      text = [];
      added = 0;
      left_args = args;
      stored = if w == 0 then [] else (w, count) ∷ [];
    })

unfoldable pub takes_word : ℕ → Bool
takes_word c =
    (c == b'c')
    || (c == b'd')
    || (c == b'i')
    || (c == b'u')
    || (c == b'x')
    || (c == b'X')
    || (c == b'o')
    || (c == b'p')
    || (c == b'n')

abbrev pub null_text : Bytes
null_text = codes "(null)"

-- `count` grows by the length of the whole string.
abbrev pub convert_string : (width precision : ℤ) → List Arg → Option Converted
convert_string width precision [] = none
convert_string width precision (word_arg w ∷ args) = none
convert_string width precision (string_arg none ∷ args) = some (record {
  text = format_string null_text width precision;
  added = length null_text;
  left_args = args;
  stored = [];
})
convert_string width precision (string_arg (some s) ∷ args) = some (record {
  text = format_string s width precision;
  added = length s;
  left_args = args;
  stored = [];
})

-- The switch over the conversion specifier `c`.
unfoldable pub convert :
    (behind : Bytes)
    → ℕ
    → Length
    → (width precision : ℤ) → Flags
    → (count : ℕ) → List Arg
    → Option Converted
convert behind c len width precision flags count args =
    let with_word : Option Converted = elim (next_word args) [
      | none ↦ none
      | some (w, args') ↦ convert_word behind c len width precision flags count w args'
    ] in
    if c == b'%'
    then some (record { text = b'%' ∷ []; added = 1; left_args = args; stored = [] })
    else if c == b's'
    then convert_string width precision args
    else if takes_word c
    then with_word
    else some (record { text = b'%' ∷ c ∷ []; added = 2; left_args = args; stored = [] })
