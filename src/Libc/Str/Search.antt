-- ===== src/Libc/Str/Search.antt =====
-- strchr, strrchr, strpbrk, strcspn and strspn: what they find.
use prismatic_os.Base.{
  ℕ, ◌%◌, ◌≤◌, ◌<◌, ◌≡◌, refl, ap, ◌⊎◌, inl, inr, Bool, true, false, not, Option, none, some, List,
  [], ◌∷◌, ◌++◌, arith, Bool-cases, Bytes, length, take, drop,
}
use prismatic_os.Libc.Str.{
  char_eq, chr_loop, strchr, rchr_loop, strrchr, accepts, strpbrk, strcspn, strspn,
}

abbrev pub All {ℓ κ} : {A : Type ℓ} → (A → Type κ) → List A → Type κ
All P [] = Unit
All P (x ∷ xs) = P x × All P xs

-- `rest` is the suffix of `s` at the first byte that passes the test.
pub record AtFirst (test : ℕ → Bool) (s rest : Bytes) : Type 0 where
  pub prefix : Bytes
  pub found : ℕ
  pub suffix : Bytes
  pub split : s ≡ prefix ++ (found ∷ suffix)
  pub points : rest ≡ found ∷ suffix
  pub passes : test found ≡ true
  pub misses : All (λ x. test x ≡ false) prefix

abbrev pub Located : (ℕ → Bool) → Bytes → Option Bytes → Type 0
Located test s none = All (λ x. test x ≡ false) s
Located test s (some rest) = AtFirst test s rest

Located-cons :
    (test : ℕ → Bool) (x : ℕ) (s : Bytes) (o : Option Bytes)
    → test x ≡ false
    → Located test s o
    → Located test (x ∷ s) o
Located-cons test x s none e l = (e, l)
Located-cons test x s (some rest) e l = record {
  prefix = x ∷ l.prefix;
  found = l.found;
  suffix = l.suffix;
  split = ap (λ r. x ∷ r) l.split;
  points = l.points;
  passes = l.passes;
  misses = (e, l.misses);
}

Located_here : (test : ℕ → Bool) (x : ℕ) (s : Bytes) → test x ≡ true → AtFirst test (x ∷ s) (x ∷ s)
Located_here test x s e = record {
  prefix = [];
  found = x;
  suffix = s;
  split = refl;
  points = refl;
  passes = e;
  misses = tt;
}

chr_loop-Located : (s : Bytes) (c : ℕ) → Located (λ x. char_eq x c) s (chr_loop s c)
unfolding chr_loop
chr_loop-Located [] c = tt
chr_loop-Located (x ∷ s) c = elim (Bool-cases (char_eq x c)) [
  | inl e ↦ rw e (Located_here (λ y. char_eq y c) x s e)
  | inr e ↦ rw e (Located-cons (λ y. char_eq y c) x s _ e (chr_loop-Located s c))
]

-- strchr points at the first byte that equals the low byte of `c` as a signed char, or there is none.
pub strchr-Located : (s : Bytes) (c : ℕ) → Located (λ x. char_eq x (c % 256)) s (strchr s c)
unfolding strchr
strchr-Located s c = chr_loop-Located s (c % 256)

high_loop : (s : Bytes) (c : ℕ) → 128 ≤ c → chr_loop s c ≡ none
unfolding chr_loop
high_loop [] c h = refl
high_loop (x ∷ s) c h =
    let differ : char_eq x c ≡ false = unfold char_eq in ground arith in rw differ (high_loop s c h)

-- strchr finds no byte from 128 on, also where the string holds it.
pub strchr_high : (s : Bytes) (c : ℕ) → 128 ≤ c → c < 256 → strchr s c ≡ none
unfolding strchr
strchr_high s c h l = high_loop s (c % 256) (omega arith)

-- `rest` is the suffix of `s` at the last byte that passes the test.
pub record AtLast (test : ℕ → Bool) (s rest : Bytes) : Type 0 where
  pub prefix : Bytes
  pub found : ℕ
  pub suffix : Bytes
  pub split : s ≡ prefix ++ (found ∷ suffix)
  pub points : rest ≡ found ∷ suffix
  pub passes : test found ≡ true
  pub misses : All (λ x. test x ≡ false) suffix

-- The last match in `s`, or else `last`.
abbrev LastOr : (ℕ → Bool) → Bytes → Option Bytes → Option Bytes → Type 0
LastOr test s last o =
    (All (λ x. test x ≡ false) s × (o ≡ last))
    ⊎ ((rest : Bytes) × (o ≡ some rest) × AtLast test s rest)

LastOr-cons :
    (test : ℕ → Bool) (x : ℕ) (s rest : Bytes) → AtLast test s rest → AtLast test (x ∷ s) rest
LastOr-cons test x s rest l = record {
  prefix = x ∷ l.prefix;
  found = l.found;
  suffix = l.suffix;
  split = ap (λ r. x ∷ r) l.split;
  points = l.points;
  passes = l.passes;
  misses = l.misses;
}

rchr_loop-LastOr :
    (s : Bytes) (c : ℕ) (last : Option Bytes)
    → LastOr (λ x. char_eq x c) s last (rchr_loop s c last)
unfolding rchr_loop
rchr_loop-LastOr [] c last = inl (tt, refl)
rchr_loop-LastOr (x ∷ s) c last = elim (Bool-cases (char_eq x c)) [
  | inl e ↦ rw e (elim (rchr_loop-LastOr s c (some (x ∷ s))) [
    | inl (none_later, o) ↦ inr (
      x ∷ s,
      o,
      record {
        prefix = [];
        found = x;
        suffix = s;
        split = refl;
        points = refl;
        passes = e;
        misses = none_later;
      },
    )
    | inr (rest, o, l) ↦ inr (rest, o, LastOr-cons _ x s rest l)
  ])
  | inr e ↦ rw e (elim (rchr_loop-LastOr s c last) [
    | inl (none_later, o) ↦ inl ((refl, none_later), o)
    | inr (rest, o, l) ↦ inr (rest, o, LastOr-cons _ x s rest l)
  ])
]

-- strrchr points at the last byte that equals the low byte of `c` as a signed char, or there is none.
pub strrchr_lem :
    (s : Bytes) (c : ℕ)
    → (All (λ x. char_eq x (c % 256) ≡ false) s × (strrchr s c ≡ none))
      ⊎ ((rest : Bytes) × (strrchr s c ≡ some rest) × AtLast (λ x. char_eq x (c % 256)) s rest)
unfolding strrchr
strrchr_lem s c = rchr_loop-LastOr s (c % 256) none

-- strpbrk points at the first byte that is one of `accept`.
pub strpbrk-Located : (s accept : Bytes) → Located (accepts accept) s (strpbrk s accept)
unfolding strpbrk
strpbrk-Located [] accept = tt
strpbrk-Located (x ∷ s) accept = elim (Bool-cases (accepts accept x)) [
  | inl e ↦ rw e (Located_here (accepts accept) x s e)
  | inr e ↦ rw e (Located-cons (accepts accept) x s _ e (strpbrk-Located s accept))
]

-- What remains behind a prefix begins with a byte that does not pass, or is empty.
abbrev pub StopsAt : (ℕ → Bool) → Bytes → Type 0
StopsAt test [] = Unit
StopsAt test (x ∷ s) = test x ≡ true

-- strcspn is the length of the longest prefix with no byte of `reject`.
pub strcspn_lem :
    (s reject : Bytes)
    → All (λ x. accepts reject x ≡ false) (take (strcspn s reject) s)
      × StopsAt (accepts reject) (drop (strcspn s reject) s)
      × (strcspn s reject ≤ length s)
unfolding strcspn
strcspn_lem [] reject = (tt, tt, omega arith)
strcspn_lem (x ∷ s) reject = elim (Bool-cases (accepts reject x)) [
  | inl e ↦ rw e (tt, e, omega arith)
  | inr e ↦
      let (front, stops, short) = strcspn_lem s reject in rw e ((e, front), stops, omega arith)
]

-- strspn is the length of the longest prefix of bytes of `accept`.
pub strspn_lem :
    (s accept : Bytes)
    → All (λ x. accepts accept x ≡ true) (take (strspn s accept) s)
      × StopsAt (λ x. not (accepts accept x)) (drop (strspn s accept) s)
      × (strspn s accept ≤ length s)
unfolding strspn
strspn_lem [] accept = (tt, tt, omega arith)
strspn_lem (x ∷ s) accept = elim (Bool-cases (accepts accept x)) [
  | inr e ↦ rw e (tt, ground (arith, e), omega arith)
  | inl e ↦ let (front, stops, short) = strspn_lem s accept in rw e ((e, front), stops, omega arith)
]
