-- ===== src/Libc/Printf/Tests.antt =====
-- Uses of the theorems about formatted output on concrete inputs.
use prismatic_os.Base.{
  ◌-◌, ◌^◌, ◌≤◌, ◌≡◌, refl, inr, map, some, List, [], ◌∷◌, ◌++◌, arith, Bytes, codes,
}
use prismatic_os.Base.Int.{pos, negsuc}
use prismatic_os.Libc.Ctype.{isdigit}
use prismatic_os.Libc.Mem.{Mem}
use prismatic_os.Libc.Strtol.{strtol}
use prismatic_os.Libc.Printf.{
  put, assign, padded, format_int, array_text, sign_of, number_text, int_digits, format_string,
  cut_length,
}
use prismatic_os.Libc.Printf.Convert.{
  Arg, word_arg, string_arg, no_flags, read_flags, read_number, read_width, read_precision,
  read_length, convert, convert_word, convert_number, takes_word,
}
use prismatic_os.Libc.Printf.Format.{
  Printed, conversion_at, conversion, print_format, vprintf_internal, snprintf,
}
use prismatic_os.Libc.Printf.Bounds.{assigned, Stored, snprintf_lem, snprintf_overrun}
use prismatic_os.Libc.Printf.Numbers.{strtol-format_int}

abbrev format : Bytes
format = codes "%5d|%n%.2s%%"

abbrev args : List Arg
args = word_arg (2 ^ 64 - 42) ∷ word_arg 2000 ∷ string_arg (some (codes "abc")) ∷ []

abbrev result : Printed
result = record {
  output = map put (codes "  -42|") ++ (assign 2000 2 ∷ map put (codes "ab%"));
  count = 6;
  args = [];
}

vprintf_internal-result : vprintf_internal [] format args ≡ some result
unfolding vprintf_internal print_format conversion conversion_at read_flags read_width read_number
    read_precision read_length convert convert_word convert_number takes_word format_int array_text
    sign_of number_text int_digits padded format_string cut_length isdigit
vprintf_internal-result = refl

abbrev memory : Mem
memory a = 7

snprintf_lem_example :
    (t : Mem) × (snprintf [] memory 1000 6 format args ≡ some (t, 6))
    × Stored (assigned memory result.output) t 1000 (codes "  -42" ++ (0 ∷ []))
    × (6 ≤ 6)
snprintf_lem_example =
    snprintf_lem [] memory 1000 6 format args result (omega arith) (omega arith)
      vprintf_internal-result (inr (omega arith), tt)

snprintf_overrun_example :
    (t : Mem) × (snprintf [] memory 1000 0 format args ≡ some (t, 6))
    × Stored (assigned memory result.output) t 1000 (codes "  -42|ab%")
snprintf_overrun_example =
    snprintf_overrun [] memory 1000 format args result (omega arith) vprintf_internal-result
      (inr (omega arith), tt)

strtol-format_int_example :
    (text : Bytes) × (format_int [] (negsuc 41) 10 (pos 5) (negsuc 0) no_flags ≡ some text)
    × (strtol text 10 ≡ (negsuc 41, []))
strtol-format_int_example = strtol-format_int (negsuc 41) (pos 5) (omega arith)

abbrev start : Printed
start = record { output = []; count = 0; args = args }
