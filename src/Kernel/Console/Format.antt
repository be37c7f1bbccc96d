-- ===== src/Kernel/Console/Format.antt =====
-- The cursor and the memory behind the screen, for console_printf.
use prismatic_os.Base.{
  ℕ, ◌%◌, ◌^◌, refl, inl, inr, Bool, true, false, Option, none, some, List, [], ◌∷◌, ◌==◌,
  if◌then◌else◌, Bool-cases, Bytes,
}
use prismatic_os.Base.Int.{to_signed}
use prismatic_os.Kernel.Console.{
  Console, console_putc, console_puts, Arg, State, print_long, print_arg, Place, plain, percent,
  long, print_from, console_printf,
}
use prismatic_os.Kernel.Console.Screen.{
  IsValid, Within, StaysWithin, console_putc-Within, console_puts-Within, print_uint-Within,
  print_int-Within, with_word-StaysWithin, with_string-StaysWithin,
}

module _ (m : ℕ → ℕ) where
  print_long-StaysWithin :
      (c : ℕ) (s : Console) (args : List Arg) → Within m s → StaysWithin m (print_long c s args)
  unfolding print_long
  print_long-StaysWithin c s args h = elim (Bool-cases (c == b'd')) [
    | inl e0 ↦
        rw e0 (with_word-StaysWithin m args _ (λ w. print_int-Within m s (to_signed 32 w) 10 h))
    | inr e0 ↦ elim (Bool-cases (c == b'u')) [
      | inl e1 ↦
          rw (e0, e1)
            (with_word-StaysWithin m args _ (λ w. print_uint-Within m s (w % 2 ^ 32) 10 h))
      | inr e1 ↦ elim (Bool-cases (c == b'x')) [
        | inl e2 ↦
            rw (e0, e1, e2)
              (with_word-StaysWithin m args _ (λ w. print_uint-Within m s (w % 2 ^ 32) 16 h))
        | inr e2 ↦ rw (e0, e1, e2) (h)
      ]
    ]
  ]

  print_arg-StaysWithin :
      (c : ℕ) (s : Console) (args : List Arg) → Within m s → StaysWithin m (print_arg c s args)
  unfolding print_arg
  print_arg-StaysWithin c s args h = elim (Bool-cases (c == b'c')) [
    | inl e0 ↦ rw e0 (with_word-StaysWithin m args _ (λ w. console_putc-Within m s (w % 2 ^ 8) h))
    | inr e0 ↦ elim (Bool-cases (c == b's')) [
      | inl e1 ↦ rw (e0, e1) (with_string-StaysWithin m args _ (λ t. console_puts-Within m s t h))
      | inr e1 ↦ elim (Bool-cases (c == b'd')) [
        | inl e2 ↦
            rw (e0, e1, e2)
              (with_word-StaysWithin m args _ (λ w. print_int-Within m s (to_signed 32 w) 10 h))
        | inr e2 ↦ elim (Bool-cases (c == b'u')) [
          | inl e3 ↦
              rw (e0, e1, e2, e3)
                (with_word-StaysWithin m args _ (λ w. print_uint-Within m s (w % 2 ^ 32) 10 h))
          | inr e3 ↦ elim (Bool-cases (c == b'x')) [
            | inl e4 ↦
                rw (e0, e1, e2, e3, e4)
                  (with_word-StaysWithin m args _ (λ w. print_uint-Within m s (w % 2 ^ 32) 16 h))
            | inr e4 ↦ elim (Bool-cases (c == b'p')) [
              | inl e5 ↦
                  rw (e0, e1, e2, e3, e4, e5)
                    (with_word-StaysWithin m args _ (λ w.
                      print_uint-Within m (console_puts s (b'0' ∷ b'x' ∷ [])) (w % 2 ^ 32) 16
                        (console_puts-Within m s (b'0' ∷ b'x' ∷ []) h)))
              | inr e5 ↦ elim (Bool-cases (c == b'%')) [
                | inl e6 ↦ rw (e0, e1, e2, e3, e4, e5, e6) (console_putc-Within m s b'%' h)
                | inr e6 ↦
                    rw (e0, e1, e2, e3, e4, e5, e6)
                      (console_putc-Within m (console_putc s b'%') c
                        (console_putc-Within m s b'%' h))
              ]
            ]
          ]
        ]
      ]
    ]
  ]

  on_result :
      (place : Place) (format : Bytes)
      → ((s : Console) (args : List Arg)
          → Within m s
          → StaysWithin m (print_from place format (s, args)))
      → (r : Option State) → StaysWithin m r
      → StaysWithin m (elim r [ none ↦ none | some st ↦ print_from place format st ])
  on_result place format go none hr = tt
  on_result place format go (some (t, rest)) hr = go t rest hr

  if-Within :
      (test : Bool) (s t : Console) → Within m s → Within m t → Within m (if test then s else t)
  if-Within true s t hs ht = hs
  if-Within false s t hs ht = ht

  if-StaysWithin :
      (test : Bool) (x y : Option State)
      → StaysWithin m x
      → StaysWithin m y
      → StaysWithin m (if test then x else y)
  if-StaysWithin true x y hx hy = hx
  if-StaysWithin false x y hx hy = hy

  print_from-StaysWithin :
      (place : Place) (format : Bytes) (s : Console) (args : List Arg)
      → Within m s
      → StaysWithin m (print_from place format (s, args))
  unfolding print_from
  print_from-StaysWithin plain [] s args h = h
  print_from-StaysWithin percent [] s args h = tt
  print_from-StaysWithin long [] s args h = tt
  print_from-StaysWithin plain (c ∷ format) s args h =
      print_from-StaysWithin (if c == b'%' then percent else plain) format
        (if c == b'%' then s else console_putc s c) args
        (if-Within (c == b'%') s (console_putc s c) h (console_putc-Within m s c h))
  print_from-StaysWithin percent (c ∷ format) s args h =
      let next = if c == b'l' then long else plain in
      on_result next format (print_from-StaysWithin next format)
        (if c == b'l' then some (s, args) else print_arg c s args)
        (if-StaysWithin (c == b'l') (some (s, args)) (print_arg c s args) h
          (print_arg-StaysWithin c s args h))
  print_from-StaysWithin long (c ∷ format) s args h =
      on_result plain format (print_from-StaysWithin plain format) (print_long c s args)
        (print_long-StaysWithin c s args h)

-- Whatever is printed, characters of any code, strings and numbers, from a cursor on the screen: where
-- console_printf ends as defined, the cursor is on the screen, and no cell outside of it is changed.
pub console_printf-StaysWithin :
    (s : Console) (format : Bytes) (args : List Arg)
    → IsValid s
    → StaysWithin s.buffer (console_printf s format args)
unfolding console_printf
console_printf-StaysWithin s format args h =
    print_from-StaysWithin s.buffer plain format s args (λ j l. refl, h.0, h.1)
