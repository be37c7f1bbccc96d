-- ===== src/Libc/Strtol/Digits.antt =====
-- The loop over the digits computes the number that they spell, or notices that it is too large.
use prismatic_os.Base.{
  ℕ, ◌+◌, ◌*◌, ◌%◌, ◌^◌, ◌≤◌, ◌<◌, ◌≡◌, refl, ◌∙◌, inl, inr, Bool, true, false, ◌&&◌, ◌||◌, none,
  some, [], ◌∷◌, ◌++◌, arith, ltb, leb, ◌==◌, Bool-cases, Bytes,
}
use native.Mathlib.Nat.{mod-eq_of_lt}
use prismatic_os.Libc.Strtol.{digit, Any, converted, overflowed, is_overflowed, scan_at, scan}

-- A digit of the base, and its value.
abbrev pub InBase : ℕ → ℕ → Type 0
InBase base c = (d : ℕ) × (digit c ≡ some d) × (d < base)

abbrev pub AllDigits : ℕ → Bytes → Type 0
AllDigits base [] = Unit
AllDigits base (c ∷ t) = InBase base c × AllDigits base t

-- The text goes on with no digit of the base.
pub data Ends (base : ℕ) : Bytes → Type 0 where
  at_nul : Ends base []
  at_other : (c : ℕ) (t : Bytes) → digit c ≡ none → Ends base (c ∷ t)
  at_large : (c d : ℕ) (t : Bytes) → digit c ≡ some d → base ≤ d → Ends base (c ∷ t)

-- The number that digits spell behind `acc`, with no bound.
unfoldable pub number : (base acc : ℕ) (t : Bytes) → AllDigits base t → ℕ
number base acc [] _ = acc
number base acc (c ∷ t) ((d, _, _), ds) = number base (acc * base + d) t ds

mul_row : (a b c : ℕ) → a < b → a * c + c ≤ b * c
mul_row a b c h = grind arith

le-mul : (a b : ℕ) → 0 < b → a ≤ a * b
le-mul a b h = grind arith

pub number-le :
    (base acc : ℕ) (t : Bytes) (ds : AllDigits base t) → 0 < base → acc ≤ number base acc t ds
unfolding number
number-le base acc [] ds h = omega arith
number-le base acc (c ∷ t) ((d, e, l), ds) h =
    omega (arith, number-le base (acc * base + d) t ds h, le-mul acc base h)

-- The test of the loop, for a limit split by the base: does one more digit exceed the limit?
module _ (base q r acc d : ℕ) (hr : r < base) (hd : d < base) where
  over_limit : (ltb q acc || ((acc == q) && ltb r d)) ≡ ltb (q * base + r) (acc * base + d)
  over_limit = elim (Bool-cases (ltb q acc)) [
    | inl above ↦ ground (arith, mul_row q acc base)
    | inr not_above ↦ elim (Bool-cases (acc == q)) [
      | inl same ↦ let e : acc ≡ q = ground arith in rw e (ground arith)
      | inr below ↦ ground (arith, mul_row acc q base)
    ]
  ]

-- At the end of the digits the loop stops.
scan_stop :
    (base q r : ℕ) (t : Bytes) (acc : ℕ) (any : Any)
    → Ends base t
    → scan base q r t acc any ≡ scan_at t acc any
unfolding scan
scan_stop base q r _ acc any at_nul = refl
scan_stop base q r _ acc any (at_other c t e) = rw (e, scan)
scan_stop base q r _ acc any (at_large c d t e h) =
    let stop : leb base d ≡ true = ground arith in rw (e, scan, stop)

-- One round of the loop at a digit.
abbrev passes : (q r acc d : ℕ) → Any → Bool
passes q r acc d any = is_overflowed any || ltb q acc || ((acc == q) && ltb r d)

module _ (base q r acc c d : ℕ) (t : Bytes) (any : Any) (e : digit c ≡ some d) (l : d < base) where
  scan_within :
      passes q r acc d any ≡ false
      → scan base q r (c ∷ t) acc any ≡ scan base q r t ((acc * base + d) % 2 ^ 64) converted
  unfolding scan
  scan_within h = let more : leb base d ≡ false = ground arith in rw (e, scan, more, h)

  scan_beyond :
      passes q r acc d any ≡ true → scan base q r (c ∷ t) acc any ≡ scan base q r t acc overflowed
  unfolding scan
  scan_beyond h = let more : leb base d ≡ false = ground arith in rw (e, scan, more, h)

module _ (base q r : ℕ) (rest : Bytes) (ends : Ends base rest) where
  -- Once the limit is passed the loop only looks for the end.
  scan_overflowed :
      (t : Bytes) (acc : ℕ)
      → AllDigits base t
      → scan base q r (t ++ rest) acc overflowed ≡ scan_at rest acc overflowed
  scan_overflowed [] acc ds = scan_stop base q r rest acc overflowed ends
  scan_overflowed (c ∷ t) acc ((d, e, l), ds) =
      scan_beyond base q r acc c d (t ++ rest) overflowed e l refl ∙ scan_overflowed t acc ds

  -- The mark that the loop leaves when all is well.
  abbrev pub mark : Bytes → Any → Any
  mark [] any = any
  mark (c ∷ t) any = converted

  mark_converted : (t : Bytes) → mark t converted ≡ converted
  mark_converted [] = refl
  mark_converted (c ∷ t) = refl

  module _ (hr : r < base) (limit : ℕ) (split : limit ≡ q * base + r) (fits : limit < 2 ^ 64) where
    one_more :
        (acc d : ℕ) (any : Any)
        → d < base
        → is_overflowed any ≡ false
        → (is_overflowed any || ltb q acc || ((acc == q) && ltb r d)) ≡ ltb limit (acc * base + d)
    one_more acc d any hd fine = rw (fine, split) (over_limit base q r acc d hr hd)

    -- A number within the limit is computed exactly.
    pub scan-number :
        (t : Bytes) (acc : ℕ) (any : Any) (ds : AllDigits base t)
        → is_overflowed any ≡ false
        → number base acc t ds ≤ limit
        → scan base q r (t ++ rest) acc any ≡ scan_at rest (number base acc t ds) (mark t any)
    unfolding number
    scan-number [] acc any ds fine h = scan_stop base q r rest acc any ends
    scan-number (c ∷ t) acc any ((d, e, l), ds) fine h =
        let step = number-le base (acc * base + d) t ds (omega arith) in
        let below : passes q r acc d any ≡ false =
          one_more acc d any l fine ∙ ground (arith, step) in
        let exact : (acc * base + d) % 2 ^ 64 ≡ acc * base + d =
          mod-eq_of_lt (omega (arith, step)) in
        scan_within base q r acc c d (t ++ rest) any e l below
        ∙ rw exact (rw mark_converted at (scan-number t (acc * base + d) converted ds refl h))

    -- A larger one is noticed.
    pub scan-overflow :
        (t : Bytes) (acc : ℕ) (any : Any) (ds : AllDigits base t)
        → is_overflowed any ≡ false
        → acc ≤ limit
        → limit < number base acc t ds
        → (a : ℕ) × (scan base q r (t ++ rest) acc any ≡ scan_at rest a overflowed)
    unfolding number
    scan-overflow [] acc any ds fine le h = absurd (omega arith)
    scan-overflow (c ∷ t) acc any ((d, e, l), ds) fine le h =
        elim (Bool-cases (ltb limit (acc * base + d))) [
          | inl over ↦ (
            acc,
            scan_beyond base q r acc c d (t ++ rest) any e l (one_more acc d any l fine ∙ over)
                ∙ scan_overflowed t acc ds,
          )
          | inr within ↦
              let exact : (acc * base + d) % 2 ^ 64 ≡ acc * base + d =
                mod-eq_of_lt (ground arith) in
              let (a, found) =
                scan-overflow t (acc * base + d) converted ds refl (ground arith) h in
              (
                a,
                scan_within base q r acc c d (t ++ rest) any e l
                      (one_more acc d any l fine ∙ within)
                    ∙ rw exact found,
              )
        ]
