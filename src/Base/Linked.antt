-- ===== src/Base/Linked.antt =====
-- Doubly linked lists: two functions, the next and the previous node of a node, of which 0 is none.
use prismatic_os.Base.{
  ℕ, ◌≡◌, refl, ◌∙◌, ◌≢◌, ◌⊎◌, inl, inr, Bool, true, false, ◌||◌, List, [], ◌∷◌, arith, ◌==◌,
  if◌then◌else◌, Bool-cases,
}
use mathlib.Core.Bool.{false≢true}
use mathlib.Core.Path.{subst}

abbrev pub null : ℕ
null = 0

abbrev pub has : ℕ → List ℕ → Bool
has a [] = false
has a (x ∷ xs) = (a == x) || has a xs

unfoldable pub erase : ℕ → List ℕ → List ℕ
erase t [] = []
erase t (x ∷ xs) = if x == t then xs else x ∷ erase t xs

-- From `p` the nodes `xs`, all different, follow one another by `next`, and back by `prev` to `q`.
abbrev pub Links : (ℕ → ℕ) → (ℕ → ℕ) → ℕ → ℕ → List ℕ → Type 0
Links next prev q p [] = p ≡ null
Links next prev q p (x ∷ xs) =
    (p ≡ x) × (x ≢ null) × ((prev x) ≡ q) × (has x xs ≡ false) × Links next prev x (next x) xs

-- The last of the nodes, or the one in front of them.
abbrev pub first_of : ℕ → List ℕ → ℕ
first_of c [] = c
first_of c (x ∷ xs) = x

abbrev pub last_of : ℕ → List ℕ → ℕ
last_of q [] = q
last_of q (x ∷ xs) = last_of x xs

-- A change that spares the links of a list leaves it as it is.
pub Links-frame :
    (next prev next2 prev2 : ℕ → ℕ) (q p : ℕ) (xs : List ℕ)
    → ((a : ℕ) → has a xs ≡ true → (next2 a ≡ (next a)) × (prev2 a ≡ (prev a)))
    → Links next prev q p xs
    → Links next2 prev2 q p xs
Links-frame next prev next2 prev2 q p [] same l = l
Links-frame next prev next2 prev2 q p (x ∷ xs) same (e, ne, back, out, rest) =
    let here = same x (ground arith) in
    (
      e,
      ne,
      ground (arith, here),
      out,
      rw (here.0)
          (Links-frame next prev next2 prev2 x (next x) xs (λ a i. same a (ground arith)) rest),
    )

pub has-null :
    (next prev : ℕ → ℕ) (q p : ℕ) (xs : List ℕ) → Links next prev q p xs → has null xs ≡ false
has-null next prev q p [] l = refl
has-null next prev q p (x ∷ xs) (e, ne, back, out, rest) =
    ground (arith, has-null next prev x (next x) xs rest)

pub has-erase : (a t : ℕ) (xs : List ℕ) → has a xs ≡ false → has a (erase t xs) ≡ false
unfolding erase
has-erase a t [] h = refl
has-erase a t (x ∷ xs) h = ground (arith, has-erase a t xs)

-- A member's successor is null or a member that is not in front.
pub next-mem :
    (next prev : ℕ → ℕ) (q p t : ℕ) (xs : List ℕ)
    → Links next prev q p xs
    → has t xs ≡ true
    → ((next t) ≡ null) ⊎ ((has (next t) xs ≡ true) × ((next t) ≢ p))
next-mem next prev q p t [] l m = absurd (false≢true m)
next-mem next prev q p t (x ∷ []) (e, ne, back, out, rest) m = ground arith
next-mem next prev q p t (x ∷ y ∷ ys) (e, ne, back, out, rest) m = elim (Bool-cases (t == x)) [
  | inl here ↦ ground (arith, rest.0)
  | inr there ↦ ground (arith, next-mem next prev x (next x) t (y ∷ ys) rest)
]

-- A member's predecessor is `q` for the first one, and else a member.
pub prev-mem :
    (next prev : ℕ → ℕ) (q p t : ℕ) (xs : List ℕ)
    → Links next prev q p xs
    → has t xs ≡ true
    → ((t ≡ p) × ((prev t) ≡ q)) ⊎ ((t ≢ p) × (has (prev t) xs ≡ true))
prev-mem next prev q p t [] l m = absurd (false≢true m)
prev-mem next prev q p t (x ∷ xs) (e, ne, back, out, rest) m = elim (Bool-cases (t == x)) [
  | inl here ↦ inl (ground arith)
  | inr there ↦ inr (ground (arith, prev-mem next prev x (next x) t xs rest))
]

-- No member is its own neighbour.
pub apart :
    (next prev : ℕ → ℕ) (q p t : ℕ) (xs : List ℕ)
    → Links next prev q p xs
    → has q xs ≡ false
    → has t xs ≡ true
    → ((prev t) ≢ t) × ((next t) ≢ t)
apart next prev q p t [] l out m = absurd (false≢true m)
apart next prev q p t (x ∷ xs) (e, ne, back, outx, rest) out m = elim (Bool-cases (t == x)) [
  | inl here ↦ ground (arith, head_next xs (next x) rest)
  | inr there ↦ apart next prev x (next x) t xs rest outx (ground arith)
]
  where
    head_next : (ys : List ℕ) (n : ℕ) → Links next prev x n ys → (n ≡ null) ⊎ (has n ys ≡ true)
    head_next [] n l = inl l
    head_next (y ∷ ys) n l = inr (ground (arith, l.0))

module _ (next prev next2 prev2 : ℕ → ℕ) (t : ℕ) (apart_prev : prev t ≢ t) (apart_next : next t ≢ t)
    (unlink-next : (a : ℕ)
      → a ≢ null
      → next2 a ≡ (if a == t then null else if a == prev t then next t else next a))
    (unlink-prev : (a : ℕ)
      → a ≢ null
      → prev2 a ≡ (if a == t then null else if a == next t then prev t else prev a)) where
  -- The thread in front is taken out.
  unlink-first :
      (q : ℕ) (xs : List ℕ)
      → t ≢ null
      → (prev t) ≡ q
      → has t xs ≡ false
      → has q xs ≡ false
      → Links next prev t (next t) xs
      → Links next2 prev2 q (next t) xs
  unlink-first q [] ne back out outq rest = rest
  unlink-first q (y ∷ ys) ne back out outq (e, ney, backy, outy, rest) =
      let n = unlink-next in
      let v = unlink-prev in
      let nexty : next2 y ≡ (next y) = ground (arith, n y) in
      (
        e,
        ney,
        ground (arith, v y),
        outy,
        rw nexty (
            Links-frame next prev next2 prev2 y (next y) ys
              (λ a i.
                let nea : a ≢ null = nonnull a i in
                (ground (arith, n a nea), ground (arith, v a nea)))
              rest),
      )
    where
      nonnull : (a : ℕ) → has a ys ≡ true → a ≢ null
      nonnull a i e0 = ground (arith, has-null next prev y (next y) ys rest)

  -- Wherever it stands in the list.
  pub Links-erase :
      (q p : ℕ) (xs : List ℕ)
      → Links next prev q p xs
      → has q xs ≡ false
      → has t xs ≡ true
      → Links next2 prev2 q (if p == t then (next t) else p) (erase t xs)
  unfolding erase
  Links-erase q p [] l out m = absurd (false≢true m)
  Links-erase q p (x ∷ xs) (e, ne, back, outx, rest) out m = elim (Bool-cases (x == t)) [
    | inl here ↦
        let ex : x ≡ t = ground arith in
        let pt : (p == t) ≡ true = ground arith in
        let net : t ≢ null = λ z. ne (ex ∙ z) in
        rw (pt, here)
          (unlink-first q xs net (ground arith) (ground arith) (ground arith)
            (subst (λ z. Links next prev z (next z) xs) ex rest))
    | inr there ↦
        let pt : (p == t) ≡ false = ground arith in
        let inside : has t xs ≡ true = ground arith in
        let succ = next-mem next prev x (next x) t xs rest inside in
        let pred = prev-mem next prev x (next x) t xs rest inside in
        let backx : prev2 x ≡ q = ground (arith, unlink-prev x ne, succ) in
        let nextx : next2 x ≡ (if (next x) == t then (next t) else (next x)) =
          ground (arith, unlink-next x ne, pred) in
        rw (pt, there)
          (
            e,
            ne,
            backx,
            has-erase x t xs outx,
            rw nextx (Links-erase x (next x) xs rest outx inside),
          )
  ]
