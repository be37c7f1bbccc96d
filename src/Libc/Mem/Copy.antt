-- ===== src/Libc/Mem/Copy.antt =====
-- memcpy and memmove copy the source as it was before the call, and write nothing else.
use prismatic_os.Base.{
  ℕ, zero, suc, ◌+◌, ◌-◌, ◌*◌, ◌/◌, ◌%◌, ◌≤◌, ◌<◌, ◌≡◌, refl, sym, ◌⊎◌, inl, inr, ◌&&◌, ◌||◌, arith,
  ltb, leb, if◌then◌else◌, Bool-cases,
}
use mathlib.Core.Path.{subst}
use prismatic_os.Libc.Mem.{
  Mem, store, copy_word, copy_bytes, copy_words, align_rounds, copy_aligned, memcpy, copy_back,
  memmove,
}

-- `t` is `m` with the `n` bytes from `s`, as they are in `m`, at `d`.
abbrev pub Copied : Mem → Mem → ℕ → ℕ → ℕ → Type 0
Copied m t d s n = (a : ℕ) → t a ≡ (if leb d a && ltb a (d + n) then m (s + (a - d)) else m a)

-- A forward copy reads no byte that it wrote before.
abbrev pub Forward : ℕ → ℕ → ℕ → Type 0
Forward d s n = (d ≤ s) ⊎ (s + n ≤ d)

Copied-trans :
    (m t u : Mem) (d s k n : ℕ)
    → Forward d s (k + n)
    → Copied m t d s k
    → Copied t u (d + k) (s + k) n
    → Copied m u d s (k + n)
Copied-trans m t u d s k n f p q a = ground (arith, q a, p a, p (s + k + (a - (d + k))), f)

store-Copied : (m : Mem) (d s : ℕ) → Copied m (store m d (m s)) d s 1
unfolding store
store-Copied m d s a = ground arith

copy_word-Copied : (m : Mem) (d s : ℕ) → Copied m (copy_word m d s) d s 8
unfolding copy_word
copy_word-Copied m d s a = refl

-- Part of a forward copy is one.
Forward-prefix : (d s k n : ℕ) → k ≤ n → Forward d s n → Forward d s k
Forward-prefix d s k n h f = omega arith

Forward-suffix : (d s k n : ℕ) → Forward d s (k + n) → Forward (d + k) (s + k) n
Forward-suffix d s k n f = omega arith

copy_bytes-Copied : (n d s : ℕ) (m : Mem) → Forward d s n → Copied m (copy_bytes n d s m) d s n
unfolding copy_bytes
copy_bytes-Copied zero d s m f = λ a. ground arith
copy_bytes-Copied (suc n) d s m f =
    let e : 1 + n ≡ suc n = omega arith in
    subst (Copied m (copy_bytes n (d + 1) (s + 1) (store m d (m s))) d s) e (
      Copied-trans m _ _ d s 1 n (omega arith) (store-Copied m d s)
        (copy_bytes-Copied n (d + 1) (s + 1) (store m d (m s)) (omega arith)))

copy_words-Copied :
    (k d s : ℕ) (m : Mem) → Forward d s (8 * k) → Copied m (copy_words k d s m) d s (8 * k)
unfolding copy_words
copy_words-Copied zero d s m f = λ a. ground arith
copy_words-Copied (suc k) d s m f =
    let e : 8 * suc k ≡ 8 + 8 * k = omega arith in
    rw e (
      Copied-trans m _ _ d s 8 (8 * k) (omega arith) (copy_word-Copied m d s)
        (copy_words-Copied k (d + 8) (s + 8) (copy_word m d s) (omega arith)))

copy_aligned-Copied : (d s n : ℕ) (m : Mem) → Forward d s n → Copied m (copy_aligned d s n m) d s n
unfolding copy_aligned
copy_aligned-Copied d s n m f =
    let w = n / 8 in
    let e : n ≡ 8 * w + n % 8 = omega arith in
    subst (Copied m (copy_aligned d s n m) d s) (sym e) (
      Copied-trans m _ _ d s (8 * w) (n % 8) (omega arith) (copy_words-Copied w d s m (omega arith))
        (copy_bytes-Copied (n % 8) (d + 8 * w) (s + 8 * w) _ (omega arith)))

pub align_rounds-le : (d n : ℕ) → align_rounds d n ≤ n
unfolding align_rounds
align_rounds-le d zero = omega arith
align_rounds-le d (suc n) = ground (arith, align_rounds-le (d + 1) n)

-- memcpy gives the destination the bytes that the source held and changes no other byte, for every
-- length, if the regions do not overlap or the destination begins at or below the source.
pub memcpy-Copied : (d s n : ℕ) (m : Mem) → Forward d s n → Copied m (memcpy d s n m) d s n
unfolding memcpy
memcpy-Copied d s n m f = elim (Bool-cases (ltb n 8)) [
  | inl small ↦ rw small (copy_bytes-Copied n d s m f)
  | inr large ↦ rw large (whole (align_rounds d n) (align_rounds-le d n))
]
  where
    whole :
        (r : ℕ) → r ≤ n → Copied m (copy_aligned (d + r) (s + r) (n - r) (copy_bytes r d s m)) d s n
    whole r h =
        let e : n ≡ r + (n - r) = omega arith in
        subst (Copied m (copy_aligned (d + r) (s + r) (n - r) (copy_bytes r d s m)) d s) (sym e) (
          Copied-trans m _ _ d s r (n - r) (omega arith) (copy_bytes-Copied r d s m (omega arith))
            (copy_aligned-Copied (d + r) (s + r) (n - r) _ (omega arith)))

-- The backward loop is right when the destination begins above the source.
copy_back-Copied : (n d s : ℕ) (m : Mem) → s < d → Copied m (copy_back n d s m) d s n
unfolding copy_back store
copy_back-Copied zero d s m h a = ground arith
copy_back-Copied (suc n) d s m h a =
    ground (arith, copy_back-Copied n d s (store m (d + n) (m (s + n))) h a)

-- memmove gives the destination the bytes that the source held before the call and changes no other
-- byte, for every length and however the two regions overlap.
pub memmove-Copied : (d s n : ℕ) (m : Mem) → Copied m (memmove d s n m) d s n
unfolding memmove
memmove-Copied d s n m = elim (Bool-cases (leb d s || leb (s + n) d)) [
  | inl forward ↦ rw forward (memcpy-Copied d s n m (ground arith))
  | inr backward ↦ rw backward (copy_back-Copied n d s m (ground arith))
]
