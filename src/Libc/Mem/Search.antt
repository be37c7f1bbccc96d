-- ===== src/Libc/Mem/Search.antt =====
-- memchr and memrchr find the first and the last byte of a value.
use prismatic_os.Base.{
  ℕ, zero, suc, ◌+◌, ◌%◌, ◌<◌, ◌≡◌, refl, ◌≢◌, inl, inr, Option, none, some, arith, ◌==◌,
  Bool-cases,
}
use prismatic_os.Libc.Mem.{Mem, chr_from, memchr, rchr_from, memrchr}

-- No byte of the range equals `v`.
abbrev pub LacksByte : Mem → ℕ → ℕ → ℕ → Type 0
LacksByte m p n v = (i : ℕ) → i < n → m (p + i) ≢ v

-- `a` is the lowest, or the highest, address of the range that holds `v`.
pub record IsFirstAt (m : Mem) (p n v a : ℕ) : Type 0 where
  pub at_index : ℕ
  pub inside : at_index < n
  pub address : a ≡ p + at_index
  pub holds : m a ≡ v
  pub before : LacksByte m p at_index v

pub record IsLastAt (m : Mem) (p n v a : ℕ) : Type 0 where
  pub at_index : ℕ
  pub inside : at_index < n
  pub address : a ≡ p + at_index
  pub holds : m a ≡ v
  pub after : (i : ℕ) → at_index < i → i < n → m (p + i) ≢ v

abbrev pub Found : (ℕ → Type 0) → Type 0 → Option ℕ → Type 0
Found P N none = N
Found P N (some a) = P a

LacksByte-suc : (m : Mem) (p n v : ℕ) → m p ≢ v → LacksByte m (p + 1) n v → LacksByte m p (suc n) v
LacksByte-suc m p n v ne rest zero h = ground arith
LacksByte-suc m p n v ne rest (suc i) h = ground (arith, rest i (omega arith))

first-suc :
    (m : Mem) (p n v : ℕ) (o : Option ℕ)
    → m p ≢ v
    → Found (IsFirstAt m (p + 1) n v) (LacksByte m (p + 1) n v) o
    → Found (IsFirstAt m p (suc n) v) (LacksByte m p (suc n) v) o
first-suc m p n v none ne rest = LacksByte-suc m p n v ne rest
first-suc m p n v (some a) ne f = record {
  at_index = suc f.at_index;
  inside = omega (arith, f.inside);
  address = omega (arith, f.address);
  holds = f.holds;
  before = LacksByte-suc m p f.at_index v ne f.before;
}

chr_from_lem :
    (n p v : ℕ) (m : Mem) → Found (IsFirstAt m p n v) (LacksByte m p n v) (chr_from n p v m)
unfolding chr_from
chr_from_lem zero p v m = λ i h. absurd (omega arith)
chr_from_lem (suc n) p v m = elim (Bool-cases (m p == v)) [
  | inl here ↦ rw here (record {
    at_index = 0;
    inside = omega arith;
    address = omega arith;
    holds = ground arith;
    before = λ i h. absurd (omega arith);
  })
  | inr on ↦ rw on (first-suc m p n v _ (ground arith) (chr_from_lem n (p + 1) v m))
]

-- memchr finds the first byte of the range that equals the low byte of `c`, or there is none.
pub memchr_lem :
    (p c n : ℕ) (m : Mem)
    → Found (IsFirstAt m p n (c % 256)) (LacksByte m p n (c % 256)) (memchr p c n m)
unfolding memchr
memchr_lem p c n m = chr_from_lem n p (c % 256) m

last-suc :
    (m : Mem) (p n v : ℕ) (o : Option ℕ)
    → m (p + n) ≢ v
    → Found (IsLastAt m p n v) (LacksByte m p n v) o
    → Found (IsLastAt m p (suc n) v) (LacksByte m p (suc n) v) o
last-suc m p n v none ne rest =
    λ i h. elim (Bool-cases (i == n)) [ inl e ↦ ground arith | inr e ↦ rest i (ground arith) ]
last-suc m p n v (some a) ne f = record {
  at_index = f.at_index;
  inside = omega (arith, f.inside);
  address = f.address;
  holds = f.holds;
  after = λ i l h. elim (Bool-cases (i == n)) [
    | inl e ↦ ground arith
    | inr e ↦ f.after i l (ground arith)
  ];
}

rchr_from_lem :
    (n p v : ℕ) (m : Mem) → Found (IsLastAt m p n v) (LacksByte m p n v) (rchr_from n p v m)
unfolding rchr_from
rchr_from_lem zero p v m = λ i h. absurd (omega arith)
rchr_from_lem (suc n) p v m = elim (Bool-cases (m (p + n) == v)) [
  | inl here ↦ rw here (record {
    at_index = n;
    inside = omega arith;
    address = refl;
    holds = ground arith;
    after = λ i l h. absurd (omega arith);
  })
  | inr on ↦ rw on (last-suc m p n v _ (ground arith) (rchr_from_lem n p v m))
]

-- memrchr finds the last byte of the range that equals the low byte of `c`, or there is none.
pub memrchr_lem :
    (p c n : ℕ) (m : Mem)
    → Found (IsLastAt m p n (c % 256)) (LacksByte m p n (c % 256)) (memrchr p c n m)
unfolding memrchr
memrchr_lem p c n m = rchr_from_lem n p (c % 256) m
