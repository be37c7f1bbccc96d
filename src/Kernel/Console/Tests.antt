-- ===== src/Kernel/Console/Tests.antt =====
-- Uses of the theorems about the console on concrete inputs.
use prismatic_os.Base.{◌≡◌, refl, inr, [], ◌∷◌, arith, codes}
use prismatic_os.Kernel.Console.{
  Console, uint_digit, word, string, console_puts, console_print_uint, console_printf,
}
use prismatic_os.Kernel.Console.Screen.{IsValid, StaysWithin}
use prismatic_os.Kernel.Console.Format.{console_printf-StaysWithin}
use prismatic_os.Kernel.Console.Numbers.{text_of, IsText, console_print_uint_lem}

-- The cursor is at the end of the third line.
abbrev screen : Console
screen = record { buffer = λ j. 1824; x = 79; y = 2; color = 7 }

screen-IsValid : IsValid screen
screen-IsValid = (omega arith, omega arith)

console_printf-StaysWithin_example :
    StaysWithin screen.buffer
      (console_printf screen (codes "pid %d: %s\n") (word 42 ∷ string (codes "init") ∷ []))
console_printf-StaysWithin_example =
    console_printf-StaysWithin screen (codes "pid %d: %s\n") (word 42 ∷ string (codes "init") ∷ [])
      screen-IsValid

console_print_uint_lem_example :
    (console_print_uint screen 48879 16 ≡ console_puts screen (text_of uint_digit 16 48879))
    × IsText 16 48879 (text_of uint_digit 16 48879)
console_print_uint_lem_example = console_print_uint_lem screen 48879 16 (inr refl) (omega arith)
