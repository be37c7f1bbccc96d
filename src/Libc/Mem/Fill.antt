-- ===== src/Libc/Mem/Fill.antt =====
-- memset writes its byte over the whole range and nothing else.
use prismatic_os.Base.{
  ℕ, zero, suc, ◌+◌, ◌-◌, ◌*◌, ◌/◌, ◌%◌, ◌^◌, ◌<◌, ◌≡◌, refl, sym, inl, inr, true, ◌&&◌, arith, ltb,
  leb, ◌==◌, if◌then◌else◌, ==_iff, Bool-cases,
}
use mathlib.Core.Path.{subst}
use prismatic_os.Base.Table.{checks, checks_lem}
use prismatic_os.Libc.Mem.{
  Mem, store, value64, store_word, fill_bytes, fill_words, fill_aligned, align_rounds, memset,
}
use prismatic_os.Libc.Mem.Copy.{align_rounds-le}

-- `t` is `m` with `n` bytes from `p` set to `v`.
abbrev pub Filled : Mem → Mem → ℕ → ℕ → ℕ → Type 0
Filled m t p v n = (a : ℕ) → t a ≡ (if leb p a && ltb a (p + n) then v else m a)

Filled-trans :
    (m t u : Mem) (p v k n : ℕ) → Filled m t p v k → Filled t u (p + k) v n → Filled m u p v (k + n)
Filled-trans m t u p v k n f g a = ground (arith, f a, g a)

-- Every byte of the word is the value.
word_table : checks 256 (λ v. checks 8 (λ i. value64 v / 256 ^ i % 256 == v)) ≡ true
unfolding checks value64
word_table = refl

byte_of_value64 : (v i : ℕ) → v < 256 → i < 8 → value64 v / 256 ^ i % 256 ≡ v
byte_of_value64 v i hv hi = (==_iff _ v).0 (checks_lem 8 _ i (checks_lem 256 _ v word_table hv) hi)

module _ (v : ℕ) (hv : v < 256) where
  store_word-Filled : (m : Mem) (p : ℕ) → Filled m (store_word m p (value64 v)) p v 8
  unfolding store_word
  store_word-Filled m p a = elim (Bool-cases (leb p a && ltb a (p + 8))) [
    | inl e ↦ rw e (byte_of_value64 v (a - p) hv (ground arith))
    | inr e ↦ rw e
  ]

  pub fill_bytes-Filled : (n p : ℕ) (m : Mem) → Filled m (fill_bytes n p v m) p v n
  unfolding fill_bytes store
  fill_bytes-Filled zero p m a = ground arith
  fill_bytes-Filled (suc n) p m a = ground (arith, fill_bytes-Filled n (p + 1) (store m p v) a)

  fill_words-Filled : (k p : ℕ) (m : Mem) → Filled m (fill_words k p (value64 v) m) p v (8 * k)
  unfolding fill_words
  fill_words-Filled zero p m = λ a. ground arith
  fill_words-Filled (suc k) p m =
      let e : 8 * suc k ≡ 8 + 8 * k = omega arith in
      rw e (
        Filled-trans m _ _ p v 8 (8 * k) (store_word-Filled m p)
          (fill_words-Filled k (p + 8) (store_word m p (value64 v))))

  fill_aligned-Filled : (n p : ℕ) (m : Mem) → Filled m (fill_aligned p v n m) p v n
  unfolding fill_aligned
  fill_aligned-Filled n p m =
      let w = n / 8 in
      let e : n ≡ 8 * w + n % 8 = omega arith in
      subst (Filled m (fill_aligned p v n m) p v) (sym e) (
        Filled-trans m _ _ p v (8 * w) (n % 8) (fill_words-Filled w p m)
          (fill_bytes-Filled (n % 8) (p + 8 * w) _))

-- memset sets `n` bytes to the low byte of its argument, at any alignment, and changes no other.
pub memset-Filled : (p c n : ℕ) (m : Mem) → Filled m (memset p c n m) p (c % 256) n
unfolding memset
memset-Filled p c n m =
    let r = align_rounds p n in
    let v = c % 256 in
    let h : v < 256 = omega arith in
    let e : n ≡ r + (n - r) = omega (arith, align_rounds-le p n) in
    subst (Filled m (memset p c n m) p v) (sym e) (
      Filled-trans m _ _ p v r (n - r) (fill_bytes-Filled v h r p m)
        (fill_aligned-Filled v h (n - r) (p + r) _))
