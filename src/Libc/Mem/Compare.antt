-- ===== src/Libc/Mem/Compare.antt =====
-- memcmp against a byte-by-byte description.
use prismatic_os.Base.{
  ℕ, zero, suc, ◌+◌, ◌-◌, ◌*◌, ◌/◌, ◌%◌, ◌≤◌, ◌<◌, ◌≡◌, refl, sym, ◌≢◌, ◌⊎◌, inl, inr, Option, none,
  some, arith, ◌!=◌, Bool-cases,
}
use mathlib.Core.Path.{subst}
use prismatic_os.Base.Int.{ℤ, pos, sub_ℕ}
use prismatic_os.Libc.Mem.{Mem, load_word, diff_bytes, or_zero, compare_words, memcmp}

-- Every cell of the memory holds a byte.
abbrev pub IsByteMem : Mem → Type 0
IsByteMem m = (a : ℕ) → m a < 256

-- The regions agree on the first `n` bytes.
abbrev pub SameBytes : Mem → ℕ → ℕ → ℕ → Type 0
SameBytes m p q n = (i : ℕ) → i < n → m (p + i) ≡ m (q + i)

-- The first `i` bytes agree and the next do not; `z` is the difference of the two.
pub record FirstDiff (m : Mem) (p q n : ℕ) (z : ℤ) : Type 0 where
  pub at_index : ℕ
  pub inside : at_index < n
  pub before : SameBytes m p q at_index
  pub differ : m (p + at_index) ≢ m (q + at_index)
  pub value : z ≡ sub_ℕ (m (p + at_index)) (m (q + at_index))

abbrev pub Outcome : Mem → ℕ → ℕ → ℕ → Option ℤ → Type 0
Outcome m p q n none = SameBytes m p q n
Outcome m p q n (some z) = FirstDiff m p q n z

-- A word is determined by its bytes.
load_word-eq : (m : Mem) (p q : ℕ) → SameBytes m p q 8 → load_word m p ≡ load_word m q
unfolding load_word
load_word-eq m p q same =
    let e : m p ≡ m q = ground (arith, same 0) in
    omega (arith, e, same 1, same 2, same 3, same 4, same 5, same 6, same 7)

-- Putting one pair of equal bytes in front.
SameBytes-suc :
    (m : Mem) (p q n : ℕ) → m p ≡ m q → SameBytes m (p + 1) (q + 1) n → SameBytes m p q (suc n)
SameBytes-suc m p q n e same zero h = ground arith
SameBytes-suc m p q n e same (suc i) h = ground (arith, same i (omega arith))

Outcome-suc :
    (m : Mem) (p q n : ℕ) (o : Option ℤ)
    → m p ≡ m q
    → Outcome m (p + 1) (q + 1) n o
    → Outcome m p q (suc n) o
Outcome-suc m p q n none e same = SameBytes-suc m p q n e same
Outcome-suc m p q n (some z) e d = record {
  at_index = suc d.at_index;
  inside = omega (arith, d.inside);
  before = SameBytes-suc m p q d.at_index e d.before;
  differ = λ c. d.differ (ground arith);
  value = ground (arith, d.value);
}

diff_bytes-Outcome : (n p q : ℕ) (m : Mem) → Outcome m p q n (diff_bytes n p q m)
unfolding diff_bytes
diff_bytes-Outcome zero p q m = λ i h. absurd (omega arith)
diff_bytes-Outcome (suc n) p q m = elim (Bool-cases (m p != m q)) [
  | inl differ ↦ rw differ (record {
    at_index = 0;
    inside = omega arith;
    before = λ i h. absurd (omega arith);
    differ = ground arith;
    value = ground arith;
  })
  | inr same ↦
      rw same (Outcome-suc m p q n _ (ground arith) (diff_bytes-Outcome n (p + 1) (q + 1) m))
]

-- The bytes of a word are determined by the word.
module _ (m : Mem) (p q : ℕ) (b : IsByteMem m) (e : load_word m p ≡ load_word m q) where
  bytes_03 :
      (m p ≡ m q) × (m (p + 1) ≡ m (q + 1)) × (m (p + 2) ≡ m (q + 2)) × (m (p + 3) ≡ m (q + 3))
  unfolding load_word
  bytes_03 =
      omega (arith, b p, b q, b (p + 1), b (q + 1), b (p + 2), b (q + 2), b (p + 3), b (q + 3))

  bytes_47 :
      (m (p + 4) ≡ m (q + 4))
      × (m (p + 5) ≡ m (q + 5))
      × (m (p + 6) ≡ m (q + 6))
      × (m (p + 7) ≡ m (q + 7))
  unfolding load_word
  bytes_47 = omega (
    arith,
    bytes_03,
    b (p + 4),
    b (q + 4),
    b (p + 5),
    b (q + 5),
    b (p + 6),
    b (q + 6),
    b (p + 7),
    b (q + 7),
  )

  load_word-inj : SameBytes m p q 8
  load_word-inj i h = ground (arith, bytes_03, bytes_47)

-- What a comparison of `n` bytes answers: zero if they agree, else the first difference.
abbrev pub Verdict : Mem → ℕ → ℕ → ℕ → ℤ → Type 0
Verdict m p q n z = (SameBytes m p q n × (z ≡ pos 0)) ⊎ FirstDiff m p q n z

SameBytes-append :
    (m : Mem) (p q k n : ℕ)
    → SameBytes m p q k
    → SameBytes m (p + k) (q + k) n
    → SameBytes m p q (k + n)
SameBytes-append m p q k n f g i h = ground (arith, f i, g (i - k))

Verdict-append :
    (m : Mem) (p q k n : ℕ) (z : ℤ)
    → SameBytes m p q k
    → Verdict m (p + k) (q + k) n z
    → Verdict m p q (k + n) z
Verdict-append m p q k n z same (inl (rest, e)) = inl (SameBytes-append m p q k n same rest, e)
Verdict-append m p q k n z same (inr d) = inr (record {
  at_index = k + d.at_index;
  inside = omega (arith, d.inside);
  before = SameBytes-append m p q k d.at_index same d.before;
  differ = λ c. d.differ (ground arith);
  value = ground (arith, d.value);
})

FirstDiff-widen :
    (m : Mem) (p q k n : ℕ) (z : ℤ) → k ≤ n → FirstDiff m p q k z → FirstDiff m p q n z
FirstDiff-widen m p q k n z h d = record {
  at_index = d.at_index;
  inside = omega (arith, d.inside);
  before = d.before;
  differ = d.differ;
  value = d.value;
}

Verdict-of_Outcome :
    (m : Mem) (p q n : ℕ) (o : Option ℤ) → Outcome m p q n o → Verdict m p q n (or_zero o)
unfolding or_zero
Verdict-of_Outcome m p q n none same = inl (same, refl)
Verdict-of_Outcome m p q n (some z) d = inr d

-- A round of the word loop in which the words differ.
word_differs :
    (m : Mem) (p q n : ℕ) (rest : ℤ)
    → IsByteMem m
    → load_word m p ≢ load_word m q
    → 8 ≤ n
    → (o : Option ℤ) → Outcome m p q 8 o
    → Verdict m p q n (elim o [ none ↦ rest | some z ↦ z ])
word_differs m p q n rest b ne h none same = absurd (ne (load_word-eq m p q same))
word_differs m p q n rest b ne h (some z) d = inr (FirstDiff-widen m p q 8 n z h d)

compare_words-Verdict :
    (k r p q : ℕ) (m : Mem) → IsByteMem m → Verdict m p q (8 * k + r) (compare_words k r p q m)
unfolding compare_words
compare_words-Verdict zero r p q m b =
    let e : 8 * 0 + r ≡ r = omega arith in
    rw e (Verdict-of_Outcome m p q r _ (diff_bytes-Outcome r p q m))
compare_words-Verdict (suc k) r p q m b = elim (Bool-cases (load_word m p != load_word m q)) [
  | inl differ ↦ rw differ (
      word_differs m p q (8 * suc k + r) _ b (ground arith) (omega arith) _
        (diff_bytes-Outcome 8 p q m))
  | inr same ↦
      let e : 8 * suc k + r ≡ 8 + (8 * k + r) = omega arith in
      rw (same, e)
        (Verdict-append m p q 8 (8 * k + r) _ (load_word-inj m p q b (ground arith))
          (compare_words-Verdict k r (p + 8) (q + 8) m b))
]

-- On a memory of bytes, memcmp answers 0 if the regions agree, and else the difference of the first
-- pair of bytes that differ.
pub memcmp-Verdict : (p q n : ℕ) (m : Mem) → IsByteMem m → Verdict m p q n (memcmp p q n m)
unfolding memcmp
memcmp-Verdict p q n m b =
    let e : n ≡ 8 * (n / 8) + n % 8 = omega arith in
    subst (λ k. Verdict m p q k (compare_words (n / 8) (n % 8) p q m)) (sym e)
      (compare_words-Verdict (n / 8) (n % 8) p q m b)
