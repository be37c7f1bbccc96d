-- ===== src/Kernel/Console.antt =====
-- The console of kernel/console.c: the memory from the first cell of the text screen on, of which the
-- screen is the first 2000 cells, the cursor and the colour. A cell has 16 bits, and the cursor's two
-- numbers have 8. `char` is signed, so a byte from 128 on is
-- negative and prints nothing.
pub mod Screen
pub mod Format
pub mod Scroll
pub mod Numbers
mod Tests
use prismatic_os.Base.{
  ℕ, zero, suc, ◌+◌, ◌-◌, ◌*◌, ◌/◌, ◌%◌, ◌^◌, bit_or, ◌&&◌, Option, none, some, List, [], ◌∷◌, ltb,
  leb, ◌==◌, if◌then◌else◌, Bytes,
}
use prismatic_os.Base.Int.{ℤ, pos, negsuc, to_signed}

abbrev pub width : ℕ
width = 80

abbrev pub height : ℕ
height = 25

pub record Console : Type 0 where
  pub buffer : ℕ → ℕ
  pub x : ℕ
  pub y : ℕ
  pub color : ℕ

pub vga_entry_color : ℕ → ℕ → ℕ
vga_entry_color fg bg = bit_or fg (bg * 2 ^ 4) % 2 ^ 8

pub vga_entry : ℕ → ℕ → ℕ
vga_entry uc color = bit_or uc (color * 2 ^ 8) % 2 ^ 16

unfoldable pub put_cell : (ℕ → ℕ) → ℕ → ℕ → ℕ → ℕ
put_cell buffer index entry j = if j == index then entry else buffer j

-- The `n` cells from `index` on are blank; a row of the loop follows on the one before.
unfoldable pub blank_cells : ℕ → ℕ → ℕ → (ℕ → ℕ) → ℕ → ℕ
blank_cells zero index entry buffer = buffer
blank_cells (suc n) index entry buffer =
    blank_cells n (index + 1) entry (put_cell buffer index entry)

pub console_clear : Console → Console
console_clear s = record s {
  buffer = blank_cells (height * width) 0 (vga_entry b' ' s.color) s.buffer;
  x = 0;
  y = 0;
}

pub console_set_color : Console → ℕ → ℕ → Console
console_set_color s fg bg = record s { color = vga_entry_color fg bg }

pub console_init : Console → Console
console_init s = console_set_color (console_clear s) 7 0

pub console_set_cursor : Console → ℕ → ℕ → Console
console_set_cursor s x y = if ltb x width && ltb y height then record s { x = x; y = y } else s

-- The `n` cells from `index` on get what stands one line below; the rows follow on one another.
unfoldable pub move_up : ℕ → ℕ → (ℕ → ℕ) → ℕ → ℕ
move_up zero index buffer = buffer
move_up (suc n) index buffer =
    move_up n (index + 1) (put_cell buffer index (buffer (index + width)))

pub console_scroll_up : Console → Console
console_scroll_up s =
    let moved = move_up ((height - 1) * width) 0 s.buffer in
    record s { buffer = blank_cells width ((height - 1) * width) (vga_entry b' ' s.color) moved }

-- The character itself.
unfoldable pub put_char : Console → ℕ → Console
put_char s c =
    if c == b'\n'
    then record s { x = 0; y = (s.y + 1) % 2 ^ 8 }
    else if c == b'\r'
    then record s { x = 0 }
    else if c == b'\t'
    then record s { x = ((s.x + 8) / 8 * 8) % 2 ^ 8 }
    else if leb b' ' c && ltb c 128
    then record s {
      buffer = put_cell s.buffer (s.y * width + s.x) (vga_entry c s.color);
      x = (s.x + 1) % 2 ^ 8;
    }
    else s

unfoldable pub wrap_line : Console → Console
wrap_line s = if leb width s.x then record s { x = 0; y = (s.y + 1) % 2 ^ 8 } else s

unfoldable pub wrap_screen : Console → Console
wrap_screen s = if leb height s.y then record (console_scroll_up s) { y = height - 1 } else s

pub console_putc : Console → ℕ → Console
console_putc s c = wrap_screen (wrap_line (put_char s c))

unfoldable pub console_puts : Console → Bytes → Console
console_puts s [] = s
console_puts s (c ∷ str) = console_puts (console_putc s c) str

-- The digits of a positive number, the last one first in the source's buffer and here behind the
-- ones that come later; the buffer has room for 32.
unfoldable pub int_digit : ℕ → ℕ
int_digit d = if ltb d 10 then b'0' + d else b'A' + d - 10

unfoldable pub uint_digit : ℕ → ℕ
uint_digit d = if ltb d 10 then b'0' + d else b'a' + (d - 10)

unfoldable pub digits : (ℕ → ℕ) → ℕ → ℕ → ℕ → Bytes → Bytes
digits digit base zero value behind = behind
digits digit base (suc n) value behind =
    let rest = digits digit base n (value / base) (digit (value % base) ∷ behind) in
    if value == 0 then behind else rest

pub console_print_uint : Console → ℕ → ℕ → Console
console_print_uint s value base =
    if value == 0 then console_putc s b'0' else console_puts s (digits uint_digit base 32 value [])

-- A negative value has no digits in a base other than 10. The negation of -2^31 is not defined in C,
-- and on the machine it is -2^31 again.
pub console_print_int : Console → ℤ → ℕ → Console
console_print_int s (pos value) base =
    if value == 0 then console_putc s b'0' else console_puts s (digits int_digit base 32 value [])
console_print_int s (negsuc n) base =
    if base == 10
    then console_puts (console_putc s b'-')
        (digits int_digit base 32 (if n == 2 ^ 31 - 1 then 0 else n + 1) [])
    else s

-- An argument is a word of 64 bits or a string.
pub data Arg : Type 0 where
  word : ℕ → Arg
  string : Bytes → Arg

abbrev pub State : Type 0
State = Console × List Arg

-- One word is taken; `none` where the next argument is none.
abbrev pub with_word : List Arg → (ℕ → Console) → Option State
with_word (word w ∷ args) print = some (print w, args)
with_word (string s ∷ args) print = none
with_word [] print = none

abbrev pub with_string : List Arg → (Bytes → Console) → Option State
with_string (string s ∷ args) print = some (print s, args)
with_string (word w ∷ args) print = none
with_string [] print = none

-- A conversion behind `%l`; an unknown one prints nothing.
unfoldable pub print_long : ℕ → Console → List Arg → Option State
print_long c s args =
    if c == b'd'
    then with_word args (λ w. console_print_int s (to_signed 32 w) 10)
    else if c == b'u'
    then with_word args (λ w. console_print_uint s (w % 2 ^ 32) 10)
    else if c == b'x'
    then with_word args (λ w. console_print_uint s (w % 2 ^ 32) 16)
    else some (s, args)

-- A conversion of one letter.
unfoldable pub print_arg : ℕ → Console → List Arg → Option State
print_arg c s args =
    if c == b'c'
    then with_word args (λ w. console_putc s (w % 2 ^ 8))
    else if c == b's'
    then with_string args (λ str. console_puts s str)
    else if c == b'd'
    then with_word args (λ w. console_print_int s (to_signed 32 w) 10)
    else if c == b'u'
    then with_word args (λ w. console_print_uint s (w % 2 ^ 32) 10)
    else if c == b'x'
    then with_word args (λ w. console_print_uint s (w % 2 ^ 32) 16)
    else if c == b'p'
    then with_word args
        (λ w. console_print_uint (console_puts s (b'0' ∷ b'x' ∷ [])) (w % 2 ^ 32) 16)
    else if c == b'%'
    then some (console_putc s b'%', args)
    else some (console_putc (console_putc s b'%') c, args)

-- Where the loop over the format stands: at a character of its own, behind `%`, or behind `%l`.
pub data Place : Type 0 where
  plain percent long : Place

-- `none` where an argument is missing, or where the format ends inside a conversion, behind which the
-- source reads on after the NUL.
unfoldable pub print_from : Place → Bytes → State → Option State
print_from plain [] st = some st
print_from percent [] st = none
print_from long [] st = none
print_from plain (c ∷ format) (s, args) =
    print_from (if c == b'%' then percent else plain) format
      (if c == b'%' then s else console_putc s c, args)
print_from percent (c ∷ format) (s, args) =
    elim (if c == b'l' then some (s, args) else print_arg c s args) [
      | none ↦ none
      | some st ↦ print_from (if c == b'l' then long else plain) format st
    ]
print_from long (c ∷ format) (s, args) = elim (print_long c s args) [
  | none ↦ none
  | some st ↦ print_from plain format st
]

pub console_printf : Console → Bytes → List Arg → Option State
console_printf s format args = print_from plain format (s, args)
