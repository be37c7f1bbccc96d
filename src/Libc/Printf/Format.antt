-- ===== src/Libc/Printf/Format.antt =====
-- vprintf_internal, sprintf and snprintf of libc/src/stdio/printf.c.
use prismatic_os.Base.{
  ℕ, zero, suc, ◌+◌, ◌-◌, ◌%◌, ◌^◌, ◌&&◌, Option, none, some, List, [], ◌∷◌, ◌++◌, map, ltb, ◌==◌,
  if◌then◌else◌, Bytes, length,
}
use prismatic_os.Base.Int.{ℤ}
use prismatic_os.Libc.Mem.{Mem, store}
use prismatic_os.Libc.Printf.{Buffer, Output, put, assign, buffer_run, Flags}
use prismatic_os.Libc.Printf.Convert.{
  Arg, no_flags, read_flags, read_width, read_precision, read_length, Converted, convert,
}

-- What was printed and stored so far, what vprintf_internal counts, and the arguments left.
pub record Printed : Type 0 where
  pub output : List Output
  pub count : ℕ
  pub args : List Arg

abbrev pub after_conversion : Printed → Converted → Printed
after_conversion p r = record {
  output = p.output ++ map put r.text ++ map (λ (at, value). assign at value) r.stored;
  count = p.count + r.added;
  args = r.left_args;
}

-- The conversion behind a `%`, and the format behind it. A format that ends here is read on.
unfoldable pub conversion_at :
    (behind : Bytes) → Flags → ℤ → ℤ → Bytes → List Arg → Printed → Option (Printed × Bytes)
conversion_at behind flags width precision s args p =
    let (len, rest) = read_length s in
    elim rest [
      | [] ↦ none
      | c ∷ format ↦ elim (convert behind c len width precision flags p.count args) [
        | none ↦ none
        | some r ↦ some (after_conversion p r, format)
      ]
    ]

unfoldable pub conversion : (behind : Bytes) → Bytes → Printed → Option (Printed × Bytes)
conversion behind s p =
    let (flags, t) = read_flags s no_flags in
    elim (read_width t p.args) [
      | none ↦ none
      | some (width, u, args) ↦ elim (read_precision u args) [
        | none ↦ none
        | some (precision, v, args') ↦ conversion_at behind flags width precision v args' p
      ]
    ]

-- The loop over the format; a round takes a byte of it at least.
unfoldable pub print_format : (behind : Bytes) → ℕ → Bytes → Printed → Option Printed
print_format behind n [] p = some p
print_format behind zero (c ∷ s) p = none
print_format behind (suc n) (c ∷ s) p =
    let plain = record p { output = p.output ++ (put c ∷ []); count = p.count + 1 } in
    let next : Option (Printed × Bytes) =
      if c == b'%' then conversion behind s p else some (plain, s) in
    elim next [ none ↦ none | some (p', rest) ↦ print_format behind n rest p' ]

unfoldable pub vprintf_internal : (behind : Bytes) → Bytes → List Arg → Option Printed
vprintf_internal behind format args =
    print_format behind (length format) format (record { output = []; count = 0; args = args })

-- The memory that is left, and the count that is returned.
abbrev pub printed {ℓ} : {A : Type ℓ} → (List Output → A) → Option Printed → Option (A × ℕ)
printed finish none = none
printed finish (some p) = some (finish p.output, p.count)

unfoldable pub sprintf_text : Mem → (str : ℕ) → List Output → Mem
sprintf_text mem str output =
    let b = buffer_run (record { mem = mem; buffer = str; size = 2 ^ 64 - 1; pos = 0 }) output in
    if ltb b.pos b.size then store b.mem (str + b.pos) 0 else b.mem

unfoldable pub sprintf : (behind : Bytes) → Mem → (str : ℕ) → Bytes → List Arg → Option (Mem × ℕ)
sprintf behind mem str format args =
    printed (sprintf_text mem str) (vprintf_internal behind format args)

unfoldable pub snprintf_text : Mem → (str size : ℕ) → List Output → Mem
snprintf_text mem str size output =
    let start : Buffer = record {
      mem = mem;
      buffer = str;
      size = (size + 2 ^ 64 - 1) % 2 ^ 64;
      pos = 0;
    } in
    let b = buffer_run start output in
    if ltb 0 size && ltb b.pos size
    then store b.mem (str + b.pos) 0
    else if ltb 0 size
    then store b.mem (str + (size - 1)) 0
    else b.mem

unfoldable pub snprintf :
    (behind : Bytes) → Mem → (str size : ℕ) → Bytes → List Arg → Option (Mem × ℕ)
snprintf behind mem str size format args =
    printed (snprintf_text mem str size) (vprintf_internal behind format args)
