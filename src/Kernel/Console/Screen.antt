-- ===== src/Kernel/Console/Screen.antt =====
-- The cursor of the console and the memory behind the screen, for console_putc and what prints with it.
use prismatic_os.Base.{
  ℕ, zero, suc, ◌+◌, ◌*◌, ◌≤◌, ◌<◌, ◌≡◌, refl, ◌⊎◌, inl, inr, ◌&&◌, Option, none, some, List, [],
  ◌∷◌, arith, ltb, leb, ◌==◌, Bool-cases, Bytes, false,
}
use prismatic_os.Base.Int.{ℤ, pos, negsuc}
use prismatic_os.Kernel.Console.{
  put_cell, width, height, Console, vga_entry, blank_cells, move_up, console_scroll_up, put_char,
  wrap_line, wrap_screen, console_putc, console_puts, digits, uint_digit, int_digit,
  console_print_uint, console_print_int, Arg, word, string, State, with_word, with_string,
}

-- The first `n` cells may change.
abbrev pub AgreesFrom : ℕ → (ℕ → ℕ) → (ℕ → ℕ) → Type 0
AgreesFrom n m m' = (j : ℕ) → n ≤ j → m' j ≡ m j

put_cell-AgreesFrom :
    (n : ℕ) (m m' : ℕ → ℕ) (index entry : ℕ)
    → index < n
    → AgreesFrom n m m'
    → AgreesFrom n m (put_cell m' index entry)
unfolding put_cell
put_cell-AgreesFrom n m m' index entry h same j l =
    let away : (j == index) ≡ false = ground arith in rw away (same j l)

blank_cells-AgreesFrom :
    (k n index entry : ℕ) (m m' : ℕ → ℕ)
    → index + k ≤ n
    → AgreesFrom n m m'
    → AgreesFrom n m (blank_cells k index entry m')
unfolding blank_cells
blank_cells-AgreesFrom zero n index entry m m' h same = same
blank_cells-AgreesFrom (suc k) n index entry m m' h same =
    blank_cells-AgreesFrom k n (index + 1) entry m (put_cell m' index entry) (omega arith)
      (put_cell-AgreesFrom n m m' index entry (omega arith) same)

move_up-AgreesFrom :
    (k n index : ℕ) (m m' : ℕ → ℕ)
    → index + k ≤ n
    → AgreesFrom n m m'
    → AgreesFrom n m (move_up k index m')
unfolding move_up
move_up-AgreesFrom zero n index m m' h same = same
move_up-AgreesFrom (suc k) n index m m' h same =
    move_up-AgreesFrom k n (index + 1) m (put_cell m' index (m' (index + width))) (omega arith)
      (put_cell-AgreesFrom n m m' index (m' (index + width)) (omega arith) same)

-- The cursor is on the screen, which has 25 lines of 80 cells.
abbrev pub IsValid : Console → Type 0
IsValid s = (s.x < width) × (s.y < height)

-- The cursor is on the screen, and the memory behind the screen is as it was in `m`.
abbrev pub Within : (ℕ → ℕ) → Console → Type 0
Within m s = AgreesFrom 2000 m s.buffer × (s.x < width) × (s.y < height)

-- The cursor may stand behind the end of the line, or at the start of the line below the last.
abbrev IsNear : (ℕ → ℕ) → Console → Type 0
IsNear m s = AgreesFrom 2000 m s.buffer × (s.x ≤ 80) × (s.y ≤ 25) × ((s.y < 25) ⊎ (s.x ≡ 0))

module _ (m : ℕ → ℕ) where
  scroll-AgreesFrom :
      (s : Console) → AgreesFrom 2000 m s.buffer → AgreesFrom 2000 m (console_scroll_up s).buffer
  unfolding console_scroll_up
  scroll-AgreesFrom s h =
      blank_cells-AgreesFrom width 2000 1920 (vga_entry b' ' s.color) m (move_up 1920 0 s.buffer)
        (omega arith) (move_up-AgreesFrom 1920 2000 0 m s.buffer (omega arith) h)

  put_char-IsNear : (s : Console) (c : ℕ) → Within m s → IsNear m (put_char s c)
  unfolding put_char
  put_char-IsNear s c (l, hx, hy) = elim (Bool-cases (c == b'\n')) [
    | inl e ↦ rw e (l, omega arith, omega arith, inr refl)
    | inr e ↦ elim (Bool-cases (c == b'\r')) [
      | inl e1 ↦ rw (e, e1) (l, omega arith, omega arith, inl hy)
      | inr e1 ↦ elim (Bool-cases (c == b'\t')) [
        | inl e2 ↦ rw (e, e1, e2) (l, omega arith, omega arith, inl hy)
        | inr e2 ↦ elim (Bool-cases (leb b' ' c && ltb c 128)) [
          | inl e3 ↦
              rw (e, e1, e2, e3)
                (
                  put_cell-AgreesFrom 2000 m s.buffer (s.y * width + s.x) (vga_entry c s.color)
                      (omega arith) l,
                  omega arith,
                  omega arith,
                  inl hy,
                )
          | inr e3 ↦ rw (e, e1, e2, e3) (l, omega arith, omega arith, inl hy)
        ]
      ]
    ]
  ]

  wrap_line_lem :
      (s : Console)
      → IsNear m s
      → AgreesFrom 2000 m (wrap_line s).buffer × ((wrap_line s).x < 80) × ((wrap_line s).y ≤ 25)
  unfolding wrap_line
  wrap_line_lem s (l, hx, hy, h) = elim (Bool-cases (leb width s.x)) [
    | inl e ↦ rw e (l, omega arith, ground (arith, h, e))
    | inr e ↦ rw e (l, ground (arith, e), hy)
  ]

  wrap_screen-Within :
      (s : Console) → AgreesFrom 2000 m s.buffer → s.x < 80 → s.y ≤ 25 → Within m (wrap_screen s)
  unfolding wrap_screen
  wrap_screen-Within s l hx hy = elim (Bool-cases (leb height s.y)) [
    | inl e ↦ rw e (scroll-AgreesFrom s l, unfold console_scroll_up in hx, omega arith)
    | inr e ↦ rw e (l, hx, ground (arith, e))
  ]

  -- A character, of whatever code, keeps the cursor on the screen and every write inside of it.
  pub console_putc-Within : (s : Console) (c : ℕ) → Within m s → Within m (console_putc s c)
  unfolding console_putc
  console_putc-Within s c h =
      let (l, hx, hy) = wrap_line_lem (put_char s c) (put_char-IsNear s c h) in
      wrap_screen-Within (wrap_line (put_char s c)) l hx hy

  pub console_puts-Within : (s : Console) (str : Bytes) → Within m s → Within m (console_puts s str)
  unfolding console_puts
  console_puts-Within s [] h = h
  console_puts-Within s (c ∷ str) h =
      console_puts-Within (console_putc s c) str (console_putc-Within s c h)

  abbrev pub StaysWithin : Option State → Type 0
  StaysWithin none = Unit
  StaysWithin (some (s, args)) = Within m s

  pub print_uint-Within :
      (s : Console) (value base : ℕ) → Within m s → Within m (console_print_uint s value base)
  unfolding console_print_uint
  print_uint-Within s value base h = elim (Bool-cases (value == 0)) [
    | inl e ↦ rw e (console_putc-Within s b'0' h)
    | inr e ↦ rw e (console_puts-Within s (digits uint_digit base 32 value []) h)
  ]

  pub print_int-Within :
      (s : Console) (value : ℤ) (base : ℕ) → Within m s → Within m (console_print_int s value base)
  unfolding console_print_int
  print_int-Within s (pos value) base h = elim (Bool-cases (value == 0)) [
    | inl e ↦ rw e (console_putc-Within s b'0' h)
    | inr e ↦ rw e (console_puts-Within s (digits int_digit base 32 value []) h)
  ]
  print_int-Within s (negsuc n) base h = elim (Bool-cases (base == 10)) [
    | inl e ↦ rw e (console_puts-Within (console_putc s b'-') _ (console_putc-Within s b'-' h))
    | inr e ↦ rw e h
  ]

  pub with_word-StaysWithin :
      (args : List Arg) (print : ℕ → Console)
      → ((w : ℕ) → Within m (print w))
      → StaysWithin (with_word args print)
  with_word-StaysWithin [] print h = tt
  with_word-StaysWithin (word w ∷ args) print h = h w
  with_word-StaysWithin (string t ∷ args) print h = tt

  pub with_string-StaysWithin :
      (args : List Arg) (print : Bytes → Console)
      → ((t : Bytes) → Within m (print t))
      → StaysWithin (with_string args print)
  with_string-StaysWithin [] print h = tt
  with_string-StaysWithin (word w ∷ args) print h = tt
  with_string-StaysWithin (string t ∷ args) print h = h t
