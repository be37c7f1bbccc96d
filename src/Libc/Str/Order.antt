-- ===== src/Libc/Str/Order.antt =====
-- strcmp and strncmp.
use prismatic_os.Base.{
  ℕ, zero, suc, ◌+◌, ◌-◌, ◌^◌, ◌<◌, ◌≡◌, refl, sym, ap, ◌↔◌, inl, inr, [], ◌∷◌, arith, ◌==◌,
  if◌then◌else◌, Bool-cases, Bytes, length, take,
}
use prismatic_os.Base.Int.{ℤ, pos, negsuc, sub_ℕ}
use prismatic_os.Libc.Str.{head_byte, size_max, strcmp, strncmp_loop, strncmp, strnlen}

-- No byte of the string is the NUL.
abbrev pub NoNul : Bytes → Type 0
NoNul [] = Unit
NoNul (x ∷ s) = (0 < x) × NoNul s

-- strcmp answers 0 for equal strings only.
pub strcmp-eq : (s t : Bytes) → NoNul s → NoNul t → strcmp s t ≡ pos 0 → s ≡ t
unfolding strcmp
strcmp-eq [] [] hs ht e = refl
strcmp-eq [] (y ∷ t) hs ht e = ground arith
strcmp-eq (x ∷ s) [] hs ht e = ground arith
strcmp-eq (x ∷ s) (y ∷ t) (hx, hs) (hy, ht) e = ground (arith, strcmp-eq s t hs ht)

pub strcmp_self : (s : Bytes) → strcmp s s ≡ pos 0
unfolding strcmp
strcmp_self [] = ground arith
strcmp_self (x ∷ s) = ground (arith, strcmp_self s)

-- strcmp answers 0 exactly for equal strings, where neither list holds a NUL.
pub strcmp_iff : (s t : Bytes) → NoNul s → NoNul t → (strcmp s t ≡ pos 0) ↔ (s ≡ t)
strcmp_iff s t hs ht = (strcmp-eq s t hs ht, λ e. rw e (strcmp_self t))

-- -z
pub negate : ℤ → ℤ
negate (pos n) = sub_ℕ 0 n
negate (negsuc n) = pos (suc n)

negate-sub_ℕ : (a b : ℕ) → negate (sub_ℕ a b) ≡ sub_ℕ b a
unfolding negate
negate-sub_ℕ a b = ground arith

-- Swapping the arguments of strcmp swaps the sign of the answer.
pub strcmp_swap : (s t : Bytes) → strcmp t s ≡ negate (strcmp s t)
unfolding strcmp
strcmp_swap [] [] = unfold negate in ground arith
strcmp_swap [] (y ∷ t) = sym (negate-sub_ℕ 0 y)
strcmp_swap (x ∷ s) [] = sym (negate-sub_ℕ x 0)
strcmp_swap (x ∷ s) (y ∷ t) = ground (arith, strcmp_swap s t, negate-sub_ℕ x y)

-- The order of the texts: `s` comes before `t` byte by byte, a prefix first.
pub data Before : Bytes → Bytes → Type 0 where
  shorter : (y : ℕ) (t : Bytes) → Before [] (y ∷ t)
  smaller : (x y : ℕ) (s t : Bytes) → x < y → Before (x ∷ s) (y ∷ t)
  later : (x : ℕ) (s t : Bytes) → Before s t → Before (x ∷ s) (x ∷ t)

-- A string that comes before another one, byte by byte and a prefix first, compares below it, where
-- the later one holds no NUL.
pub strcmp-Before : {s t : Bytes} → Before s t → NoNul t → (n : ℕ) × (strcmp s t ≡ negsuc n)
unfolding strcmp
strcmp-Before (shorter y t) (hy, ht) = (y - 1, ground arith)
strcmp-Before (smaller x y s t l) (hy, ht) = (y - x - 1, ground arith)
strcmp-Before (later x s t b) (hx, ht) = let (n, e) = strcmp-Before b ht in (n, ground (arith, e))

-- A negative answer says that the first string comes before the second.
pub Before-strcmp : (s t : Bytes) (n : ℕ) → strcmp s t ≡ negsuc n → Before s t
unfolding strcmp
Before-strcmp [] [] n e = ground arith
Before-strcmp [] (y ∷ t) n e = shorter y t
Before-strcmp (x ∷ s) [] n e = ground arith
Before-strcmp (x ∷ s) (y ∷ t) n e = elim (Bool-cases (x == y)) [
  | inl same ↦
      let q : x ≡ y = ground arith in rw q (later y s t (Before-strcmp s t n (rw same at e)))
  | inr differ ↦ smaller x y s t (ground arith)
]

-- The difference at which the loop of strncmp stops.
abbrev stop : ℕ × Bytes × Bytes → ℤ
stop (left, s, t) = if left == size_max then pos 0 else sub_ℕ (head_byte s) (head_byte t)

strncmp_loop_lem :
    (n : ℕ) (s t : Bytes)
    → n < size_max + 1
    → stop (strncmp_loop n s t) ≡ strcmp (take n s) (take n t)
unfolding strncmp_loop strcmp
strncmp_loop_lem zero s t h = ground arith
strncmp_loop_lem (suc n) [] [] h = ground arith
strncmp_loop_lem (suc n) [] (y ∷ t) h = ground arith
strncmp_loop_lem (suc n) (x ∷ s) [] h = ground arith
strncmp_loop_lem (suc n) (x ∷ s) (y ∷ t) h = ground (arith, strncmp_loop_lem n s t (omega arith))

-- strncmp compares the two strings cut off after `n` bytes, for every `n` that a size_t holds.
pub strncmp-take : (s t : Bytes) (n : ℕ) → n < 2 ^ 64 → strncmp s t n ≡ strcmp (take n s) (take n t)
unfolding strncmp
strncmp-take s t n h = strncmp_loop_lem n s t (omega arith)

-- strnlen is the length of the string, cut off at its argument.
pub strnlen-take : (s : Bytes) (n : ℕ) → strnlen s n ≡ length (take n s)
unfolding strnlen
strnlen-take s zero = refl
strnlen-take [] (suc n) = refl
strnlen-take (x ∷ s) (suc n) = ap suc (strnlen-take s n)
