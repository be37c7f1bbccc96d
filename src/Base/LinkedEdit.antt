-- ===== src/Base/LinkedEdit.antt =====
-- Lists with a node put behind the last one, or with a node taken out.
use prismatic_os.Base.{
  ℕ, ◌≡◌, refl, sym, ap, ◌∙◌, ◌≢◌, inl, inr, true, false, ◌||◌, List, [], ◌∷◌, ◌++◌, arith, ◌==◌,
  if◌then◌else◌, Bool-cases,
}
use mathlib.Core.Bool.{false≢true}
use prismatic_os.Base.Linked.{null, has, erase, Links, first_of, last_of}

pub has-append : (a c : ℕ) (ys : List ℕ) → has a (ys ++ (c ∷ [])) ≡ (has a ys || (a == c))
has-append a c [] = ground arith
has-append a c (y ∷ ys) = ground (arith, has-append a c ys)

pub last_of-append : (q c : ℕ) (xs : List ℕ) → last_of q (xs ++ (c ∷ [])) ≡ c
last_of-append q c [] = refl
last_of-append q c (x ∷ xs) = last_of-append x c xs

pub has-of_erase : (a c : ℕ) (xs : List ℕ) → has a (erase c xs) ≡ true → has a xs ≡ true
unfolding erase
has-of_erase a c [] h = h
has-of_erase a c (x ∷ xs) h = ground (arith, has-of_erase a c xs)

pub has-erase_other :
    (a c : ℕ) (xs : List ℕ) → (a == c) ≡ false → has a xs ≡ true → has a (erase c xs) ≡ true
unfolding erase
has-erase_other a c [] ne h = h
has-erase_other a c (x ∷ xs) ne h = ground (arith, has-erase_other a c xs)

pub erase_absent : (c : ℕ) (xs : List ℕ) → has c xs ≡ false → erase c xs ≡ xs
unfolding erase
erase_absent c [] h = refl
erase_absent c (x ∷ xs) h = ground (arith, erase_absent c xs)

pub has-last_of : (ys : List ℕ) (y : ℕ) → has (last_of y ys) (y ∷ ys) ≡ true
has-last_of [] y = ground arith
has-last_of (z ∷ ys) y = ground (arith, has-last_of ys z)

-- A node that is not in the list follows the last one.
module _ (next prev next2 prev2 : ℕ → ℕ) (c : ℕ) (ne : c ≢ null) where
  pub Links-append :
      (q p : ℕ) (xs : List ℕ)
      → Links next prev q p xs
      → has q xs ≡ false
      → has c xs ≡ false
      → ((a : ℕ)
          → a ≢ null
          → (has a xs || (a == c)) ≡ true
          → next2 a ≡ (if a == c then null else if a == last_of q xs then c else next a))
      → ((a : ℕ)
          → a ≢ null
          → (has a xs || (a == c)) ≡ true
          → prev2 a ≡ (if a == c then last_of q xs else prev a))
      → Links next2 prev2 q (first_of c xs) (xs ++ (c ∷ []))
  Links-append q p [] l outq out n v = ground (arith, n c ne, v c ne)
  Links-append q p (x ∷ xs) (e, nex, back, outx, rest) outq out n v =
      let after =
        Links-append x (next x) xs rest outx (ground arith) (λ a ne i. n a ne (ground arith))
          (λ a ne i. v a ne (ground arith)) in
      let forth : next2 x ≡ first_of c xs =
        follows xs rest outx (ground arith) (n x nex (ground arith)) in
      (refl, nex, ground (arith, v x nex), ground (arith, has-append x c xs), rw forth after)
    where
      follows :
          (ys : List ℕ)
          → Links next prev x (next x) ys
          → has x ys ≡ false
          → (x == c) ≡ false
          → next2 x ≡ (if x == c then null else if x == last_of x ys then c else next x)
          → next2 x ≡ first_of c ys
      follows [] l out other e = ground arith
      follows (y ∷ ys) (e0, ney, backy, outy, l) out other e =
          ground (arith, has-last_of ys y, last_of_ne)
        where
          last_of_ne : (x == last_of y ys) ≡ false
          last_of_ne = elim (Bool-cases (x == last_of y ys)) [
            | inl here ↦ absurd (
                false≢true (sym out ∙ (ap (λ z. has z (y ∷ ys)) (ground arith) ∙ has-last_of ys y)))
            | inr there ↦ there
          ]

module _ (next prev : ℕ → ℕ) (c : ℕ) where
  -- The node is not in the list that it is taken out of, since the nodes are all different.
  pub has-erase_self : (q p : ℕ) (xs : List ℕ) → Links next prev q p xs → has c (erase c xs) ≡ false
  unfolding erase
  has-erase_self q p [] l = refl
  has-erase_self q p (x ∷ xs) (e, ne, back, out, rest) =
      ground (arith, has-erase_self x (next x) xs rest)

  pub last_of-erase :
      (q p : ℕ) (xs : List ℕ)
      → Links next prev q p xs
      → q ≢ c
      → last_of q (erase c xs) ≡ (if last_of q xs == c then prev c else last_of q xs)
  unfolding erase
  last_of-erase q p [] l ne = ground arith
  last_of-erase q p (x ∷ []) (e, nex, back, out, rest) ne = ground arith
  last_of-erase q p (x ∷ y ∷ ys) (e, nex, back, out, rest) ne = elim (Bool-cases (x == c)) [
    | inl here ↦ rw here (ground (arith, last_of_ne))
    | inr there ↦ rw there (last_of-erase x (next x) (y ∷ ys) rest (ground arith))
  ]
    where
      last_of_ne : (last_of y ys == x) ≡ false
      last_of_ne = elim (Bool-cases (last_of y ys == x)) [
        | inl e ↦
            absurd
              (false≢true (sym out ∙ (ap (λ z. has z (y ∷ ys)) (ground arith) ∙ has-last_of ys y)))
        | inr e ↦ e
      ]
