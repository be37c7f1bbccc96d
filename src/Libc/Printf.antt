-- ===== src/Libc/Printf.antt =====
-- Formatted output: libc/src/stdio/printf.c. What a function hands to buffer_putc does not depend on
-- the buffer, so it returns these bytes, and buffer_run hands them on. format_int reads its array
-- to the first NUL, which it does not write: `behind` stands for the bytes behind the array up to a
-- NUL. `none` stands for what C leaves undefined: a write in front of that array, reading behind
-- `behind` or behind the format, a missing argument. Widths and precisions in the format are below
-- 2^31. What %n stores stands between the bytes, in the order of the code, and goes to the same memory; the
-- format and the strings of the arguments are taken to lie elsewhere.
pub mod Convert
pub mod Format
pub mod Bounds
pub mod Numbers
pub mod Progress
mod Tests
use prismatic_os.Base.{
  ℕ, zero, suc, ◌+◌, ◌-◌, ◌/◌, ◌%◌, ◌^◌, Bool, true, false, ◌&&◌, Option, none, some, List, [], ◌∷◌,
  ◌++◌, ltb, leb, ◌==◌, ◌!=◌, if◌then◌else◌, Bytes, length, take, replicate,
}
use prismatic_os.Base.Int.{ℤ, pos, negsuc, to_signed, positive}
use prismatic_os.Libc.Mem.{Mem, store}
use prismatic_os.Libc.Str.{head_byte}
use prismatic_os.Libc.Strtol.{tail}
use prismatic_os.Libc.Ctype.{isdigit}

pub record Buffer : Type 0 where
  pub mem : Mem
  pub buffer : ℕ
  pub size : ℕ
  pub pos : ℕ

-- The buffer is in memory, `stream` is NULL.
unfoldable pub buffer_putc : Buffer → ℕ → Buffer
buffer_putc b c =
    if ltb b.pos b.size
    then record b { mem = store b.mem (b.buffer + b.pos) c; pos = b.pos + 1 }
    else b

-- What a function of printf does, in order: a byte for buffer_putc, or the int that %n stores.
pub data Output : Type 0 where
  put : ℕ → Output
  assign : (at value : ℕ) → Output

-- The four bytes of an int.
unfoldable pub store_int : Mem → (at value : ℕ) → Mem
store_int m p v a = if leb p a && ltb a (p + 4) then v / 256 ^ (a - p) % 256 else m a

unfoldable pub buffer_run : Buffer → List Output → Buffer
buffer_run b [] = b
buffer_run b (put c ∷ rest) = buffer_run (buffer_putc b c) rest
buffer_run b (assign p v ∷ rest) = buffer_run (record b { mem = store_int b.mem p v }) rest

pub record Flags : Type 0 where
  pub plus : Bool
  pub space : Bool
  pub left : Bool
  pub zeros : Bool

-- The digits of a positive number in front of the ones that the array has already.
unfoldable pub int_digits : ℕ → (base value : ℕ) → Bytes → Bytes
int_digits zero base value behind = behind
int_digits (suc n) base value behind =
    let d = value % base in
    let rest =
      int_digits n base (value / base) ((if ltb d 10 then b'0' + d else b'A' + d - 10) ∷ behind) in
    if value == 0 then behind else rest

-- The negation of the least long long is the number itself, and `while (value > 0)` does not run.
unfoldable pub number_text : ℤ → (base : ℕ) → Bytes
number_text (pos v) base = if v == 0 then b'0' ∷ [] else int_digits 64 base v []
number_text (negsuc n) base =
    if (base == 10) && (n != 2 ^ 63 - 1) then int_digits 64 base (n + 1) [] else []

unfoldable pub sign_of : ℤ → (base : ℕ) → Flags → Bytes
sign_of (pos v) base flags = if flags.plus then b'+' ∷ [] else if flags.space then b' ' ∷ [] else []
sign_of (negsuc n) base flags =
    if base == 10
    then b'-' ∷ []
    else if flags.plus
    then b'+' ∷ []
    else if flags.space
    then b' ' ∷ []
    else []

-- The number in the array: the zeros that the precision asks for come in front of the sign.
unfoldable pub array_text : ℤ → (base : ℕ) → (precision : ℤ) → Flags → Bytes
array_text value base precision flags =
    let text = sign_of value base flags ++ number_text value base in
    replicate (positive precision - length text) b'0' ++ text

-- With the flag `-` the loop over the width takes the bytes of the number, and the last loop the
-- rest.
unfoldable pub padded : (left : Bool) → (pad : ℕ) → Bytes → Option Bytes
padded true pad text = if leb pad (length text) then some text else none
padded false pad text = some (replicate pad b' ' ++ text)

unfoldable pub format_int :
    (behind : Bytes) → ℤ → (base : ℕ) → (width precision : ℤ) → Flags → Option Bytes
format_int behind value base width precision flags =
    let text = array_text value base precision flags in
    if leb (length text) 64
    then padded flags.left (positive width - length text) (text ++ behind)
    else none

-- A precision below 0 is none.
unfoldable pub cut_length : (len : ℕ) → (precision : ℤ) → ℕ
cut_length len (pos p) = if ltb p len then p else len
cut_length len (negsuc n) = len

unfoldable pub format_string : Bytes → (width precision : ℤ) → Bytes
format_string s width precision =
    let len = cut_length (length s) precision in replicate (positive width - len) b' ' ++ take len s
