-- ===== src/Libc/Printf/Bounds.antt =====
-- What sprintf and snprintf write to memory.
use prismatic_os.Base.{
  ℕ, zero, suc, ◌+◌, ◌-◌, ◌/◌, ◌%◌, ◌^◌, ◌≤◌, ◌<◌, ◌≡◌, refl, ap, ◌∙◌, ◌⊎◌, inl, inr, true, false,
  ◌&&◌, some, List, [], ◌∷◌, ◌++◌, arith, ltb, leb, ◌==◌, if◌then◌else◌, Bool-cases, Bytes, length,
  get_or, take, length-append, length-take,
}
use prismatic_os.Libc.Mem.{Mem, store}
use prismatic_os.Libc.Printf.{Buffer, Output, put, assign, store_int, buffer_putc, buffer_run}
use prismatic_os.Libc.Printf.Convert.{Arg}
use prismatic_os.Libc.Printf.Format.{Printed, vprintf_internal, snprintf_text, snprintf}

-- The text stands at `d`, and every other byte is as it was.
abbrev pub Stored : Mem → Mem → ℕ → Bytes → Type 0
Stored m t d text =
    (a : ℕ) → t a ≡ (if leb d a && ltb a (d + length text) then get_or text (a - d) 0 else m a)

Stored-none : (m : Mem) (d : ℕ) → Stored m m d []
Stored-none m d a = ground arith

Stored-cons :
    (m t : Mem) (d c : ℕ) (text : Bytes)
    → Stored (store m d c) t (d + 1) text
    → Stored m t d (c ∷ text)
unfolding store
Stored-cons m t d c text h a = elim (Bool-cases (a == d)) [
  | inl e ↦
      let here : a ≡ d = ground arith in
      let zero_at : a - d ≡ 0 = omega arith in
      let range : (leb d a && ltb a (d + length (c ∷ text))) ≡ true = ground arith in
      let out : (leb (d + 1) a && ltb a (d + 1 + length text)) ≡ false = ground arith in
      h a ∙ rw (range, zero_at, out, e)
  | inr e ↦ elim (Bool-cases (leb (d + 1) a && ltb a (d + 1 + length text))) [
    | inl f ↦
        let next : a - d ≡ suc (a - (d + 1)) = ground arith in
        let range : (leb d a && ltb a (d + length (c ∷ text))) ≡ true = ground arith in
        h a ∙ rw (f, range, next)
    | inr f ↦
        let range : (leb d a && ltb a (d + length (c ∷ text))) ≡ false = ground arith in
        h a ∙ rw (f, range, e)
  ]
]

-- The bytes of the output.
abbrev pub text_of : List Output → Bytes
text_of [] = []
text_of (put c ∷ rest) = c ∷ text_of rest
text_of (assign p v ∷ rest) = text_of rest

-- What the ints that %n stores make of the memory.
abbrev pub assigned : Mem → List Output → Mem
assigned m [] = m
assigned m (put c ∷ rest) = assigned m rest
assigned m (assign p v ∷ rest) = assigned (store_int m p v) rest

-- No int that %n stores has a byte from `low` up to `high`.
abbrev pub Apart : (low high : ℕ) → List Output → Type 0
Apart low high [] = Unit
Apart low high (put c ∷ rest) = Apart low high rest
Apart low high (assign p v ∷ rest) = ((p + 4 ≤ low) ⊎ (high ≤ p)) × Apart low high rest

module _ (low high : ℕ) where
  store_int-store :
      (m : Mem) (p v d c : ℕ)
      → (p + 4 ≤ low) ⊎ (high ≤ p)
      → low ≤ d
      → d < high
      → store_int (store m d c) p v ≡ store (store_int m p v) d c
  unfolding store store_int
  store_int-store m p v d c away l h i a =
      (let at_a : (if leb p a && ltb a (p + 4)
                then v / 256 ^ (a - p) % 256
                else (if a == d then c else m a))
              ≡ (if a == d
                  then c
                  else (if leb p a && ltb a (p + 4) then v / 256 ^ (a - p) % 256 else m a)) =
            elim (Bool-cases (a == d)) [
              | inl e ↦
                  let out : (leb p a && ltb a (p + 4)) ≡ false = ground (arith, away, e) in
                  rw (out, e)
              | inr e ↦ rw e
            ] in
          at_a)
        i

  assigned-store :
      (output : List Output) (m : Mem) (d c : ℕ)
      → Apart low high output
      → low ≤ d
      → d < high
      → assigned (store m d c) output ≡ store (assigned m output) d c
  assigned-store [] m d c away l h = refl
  assigned-store (put x ∷ rest) m d c away l h = assigned-store rest m d c away l h
  assigned-store (assign p v ∷ rest) m d c (here, away) l h =
      ap (λ t. assigned t rest) (store_int-store m p v d c here l h)
      ∙ assigned-store rest (store_int m p v) d c away l h

  -- buffer_run stores as much of the text as the buffer has room for, which is k bytes.
  buffer_run-Stored :
      (k : ℕ) (output : List Output) (b : Buffer)
      → b.size ≡ b.pos + k
      → Apart low high output
      → low ≤ b.buffer + b.pos
      → b.buffer + b.pos + length (take k (text_of output)) ≤ high
      → let w = buffer_run b output in
        Stored (assigned b.mem output) w.mem (b.buffer + b.pos) (take k (text_of output))
        × (w.pos ≡ b.pos + length (take k (text_of output)))
  unfolding buffer_run buffer_putc
  buffer_run-Stored zero [] b s away l h = (Stored-none b.mem (b.buffer + b.pos), omega arith)
  buffer_run-Stored (suc k) [] b s away l h = (Stored-none b.mem (b.buffer + b.pos), omega arith)
  buffer_run-Stored zero (assign p v ∷ rest) b s (here, away) l h =
      buffer_run-Stored zero rest (record b { mem = store_int b.mem p v }) s away l h
  buffer_run-Stored (suc k) (assign p v ∷ rest) b s (here, away) l h =
      buffer_run-Stored (suc k) rest (record b { mem = store_int b.mem p v }) s away l h
  buffer_run-Stored zero (put c ∷ rest) b s away l h =
      let full : ltb b.pos b.size ≡ false = ground arith in
      rw (buffer_run, full) (buffer_run-Stored zero rest b s away l h)
  buffer_run-Stored (suc k) (put c ∷ rest) b s away l h =
      let room : ltb b.pos b.size ≡ true = ground arith in
      let b' : Buffer = record b { mem = store b.mem (b.buffer + b.pos) c; pos = b.pos + 1 } in
      let (stored, at) =
        buffer_run-Stored k rest b' (omega arith) away (omega arith) (omega arith) in
      let further : b.buffer + (b.pos + 1) ≡ b.buffer + b.pos + 1 = omega arith in
      let apart = assigned-store rest b.mem (b.buffer + b.pos) c away l (omega arith) in
      rw (buffer_run, room)
        (
          Stored-cons (assigned b.mem rest) (buffer_run b' rest).mem (b.buffer + b.pos) c
              (take k (text_of rest)) (rw (further, apart) at stored),
          omega (arith, at),
        )

get_or-append : (xs ys : Bytes) (i : ℕ) → i < length xs → get_or (xs ++ ys) i 0 ≡ get_or xs i 0
get_or-append [] ys i h = absurd (omega arith)
get_or-append (x ∷ xs) ys zero h = refl
get_or-append (x ∷ xs) ys (suc i) h = get_or-append xs ys i (omega arith)

get_or-length : (xs : Bytes) → get_or (xs ++ (0 ∷ [])) (length xs) 0 ≡ 0
get_or-length [] = refl
get_or-length (x ∷ xs) = get_or-length xs

-- The text and the NUL behind it.
Stored-end :
    (m t : Mem) (d : ℕ) (text : Bytes)
    → Stored m t d text
    → Stored m (store t (d + length text) 0) d (text ++ (0 ∷ []))
unfolding store
Stored-end m t d text h a =
    let one_more = length-append text (0 ∷ []) in
    elim (Bool-cases (a == d + length text)) [
      | inl e ↦
          let last : a - d ≡ length text = ground arith in
          let range : (leb d a && ltb a (d + length (text ++ (0 ∷ [])))) ≡ true =
            ground (arith, one_more) in
          rw (e, range, last, get_or-length text)
      | inr e ↦ elim (Bool-cases (leb d a && ltb a (d + length text))) [
        | inl f ↦
            let within : a - d < length text = ground arith in
            let range : (leb d a && ltb a (d + length (text ++ (0 ∷ [])))) ≡ true =
              ground (arith, one_more) in
            rw (e, range) (h a ∙ rw (f, get_or-append text (0 ∷ []) (a - d) within))
        | inr f ↦
            let range : (leb d a && ltb a (d + length (text ++ (0 ∷ [])))) ≡ false =
              ground (arith, one_more) in
            rw (e, range) (h a ∙ rw f)
      ]
    ]

length-take-le : (n : ℕ) (xs : Bytes) → length (take n xs) ≤ n
length-take-le n xs = omega (arith, length-take n xs)

-- With room for the NUL, and where no int that a %n stores overlaps the buffer: snprintf stores the
-- first size - 1 bytes of its text and a NUL behind them, all of them below str + size, and every other
-- byte is what the ints of %n make of it.
pub snprintf_lem :
    (behind : Bytes) (mem : Mem) (str size : ℕ) (format : Bytes) (args : List Arg) (p : Printed)
    → 0 < size
    → size < 2 ^ 64
    → vprintf_internal behind format args ≡ some p
    → Apart str (str + size) p.output
    → let text = take (size - 1) (text_of p.output) ++ (0 ∷ []) in
      (t : Mem) × (snprintf behind mem str size format args ≡ some (t, p.count))
      × Stored (assigned mem p.output) t str text
      × (length text ≤ size)
unfolding snprintf snprintf_text
snprintf_lem behind mem str size format args p some_room small e away =
    let room : (size + 2 ^ 64 - 1) % 2 ^ 64 ≡ size - 1 = omega arith in
    let text = take (size - 1) (text_of p.output) in
    let start : Buffer = record { mem = mem; buffer = str; size = size - 1; pos = 0 } in
    let short = length-take-le (size - 1) (text_of p.output) in
    let (stored, at) =
      buffer_run-Stored str (str + size) (size - 1) p.output start (omega arith) away (omega arith)
        (omega (arith, short)) in
    let fits : (ltb 0 size && ltb (buffer_run start p.output).pos size) ≡ true =
      ground (arith, at, short) in
    let from : str + 0 ≡ str = omega arith in
    let end : str + (buffer_run start p.output).pos ≡ str + length text = omega (arith, at) in
    (
      store (buffer_run start p.output).mem (str + length text) 0,
      rw (e, room, fits, end),
      Stored-end (assigned mem p.output) (buffer_run start p.output).mem str text
          (rw from at stored),
      omega (arith, length-append text (0 ∷ []), short),
    )

-- With size 0 the room wraps around to 2^64 - 1 bytes: snprintf stores its whole text, without a NUL,
-- to a buffer of which it may write nothing, where no int that a %n stores overlaps that text.
pub snprintf_overrun :
    (behind : Bytes) (mem : Mem) (str : ℕ) (format : Bytes) (args : List Arg) (p : Printed)
    → length (text_of p.output) < 2 ^ 64
    → vprintf_internal behind format args ≡ some p
    → Apart str (str + length (text_of p.output)) p.output
    → (t : Mem) × (snprintf behind mem str 0 format args ≡ some (t, p.count))
      × Stored (assigned mem p.output) t str (text_of p.output)
unfolding snprintf snprintf_text
snprintf_overrun behind mem str format args p short e away =
    let text = text_of p.output in
    let start : Buffer = record { mem = mem; buffer = str; size = 2 ^ 64 - 1; pos = 0 } in
    let whole : take (2 ^ 64 - 1) text ≡ text = take_all (2 ^ 64 - 1) text (omega arith) in
    let (stored, at) =
      buffer_run-Stored str (str + length text) (2 ^ 64 - 1) p.output start (omega arith) away
        (omega arith) (rw whole (omega arith)) in
    let from : str + 0 ≡ str = omega arith in
    ((buffer_run start p.output).mem, rw e, rw (from, whole) at stored)
  where
    take_all : (n : ℕ) (xs : Bytes) → length xs ≤ n → take n xs ≡ xs
    take_all zero [] h = refl
    take_all zero (x ∷ xs) h = absurd (omega arith)
    take_all (suc n) [] h = refl
    take_all (suc n) (x ∷ xs) h = rw (take_all n xs (omega arith))
