-- ===== src/Kernel/Frames/Scan.antt =====
-- The first-fit search of the bitmap, and counting its used pages.
use prismatic_os.Base.{
  ℕ, zero, suc, ◌+◌, ◌≤◌, ◌<◌, ◌≡◌, refl, ◌⊎◌, inl, inr, Bool, true, false, arith, ◌==◌,
  if◌then◌else◌, Bool-cases,
}
use prismatic_os.Kernel.Frames.{
  Frames, no_page, bitmap_test_bit, find_free_from, bitmap_find_free_page,
}

-- How many of the first `n` pages a test marks.
unfoldable pub count_used : (ℕ → Bool) → ℕ → ℕ
count_used f zero = 0
count_used f (suc n) = count_used f n + (if f n then 1 else 0)

pub count_used-le : (f : ℕ → Bool) (n : ℕ) → count_used f n ≤ n
unfolding count_used
count_used-le f zero = omega arith
count_used-le f (suc n) = ground (arith, count_used-le f n)

pub count_used-full : (f : ℕ → Bool) (n j : ℕ) → count_used f n ≡ n → j < n → f j ≡ true
unfolding count_used
count_used-full f zero j e h = absurd (omega arith)
count_used-full f (suc n) j e h = ground (arith, count_used-full f n j, count_used-le f n)

pub full-count_used : (f : ℕ → Bool) (n : ℕ) → ((j : ℕ) → j < n → f j ≡ true) → count_used f n ≡ n
unfolding count_used
full-count_used f zero h = refl
full-count_used f (suc n) h =
    ground (arith, full-count_used f n (λ j l. h j (omega arith)), h n (omega arith))

module _ (f g : ℕ → Bool) (p : ℕ) where
  pub count_used-same : (n : ℕ) → ((j : ℕ) → j < n → f j ≡ g j) → count_used f n ≡ count_used g n
  unfolding count_used
  count_used-same zero h = refl
  count_used-same (suc n) h =
      ground (arith, count_used-same n (λ j l. h j (omega arith)), h n (omega arith))

  -- Marking one page that was not marked adds one to the count.
  pub count_used-add :
      (n : ℕ)
      → p < n
      → f p ≡ false
      → ((j : ℕ) → g j ≡ (if p == j then true else f j))
      → count_used g n ≡ count_used f n + 1
  unfolding count_used
  count_used-add zero l e h = absurd (omega arith)
  count_used-add (suc n) l e h = elim (Bool-cases (p == n)) [
    | inl here ↦ ground (arith, h n, count_used-same n (λ j q. ground (arith, h j)))
    | inr there ↦ ground (arith, h n, count_used-add n (ground arith) e h)
  ]

-- What the search finds: the first page that is free, or that there is none.
pub record IsFirstFree (s : Frames) (lo hi p : ℕ) : Type 0 where
  pub low : lo ≤ p
  pub high : p < hi
  pub free : bitmap_test_bit s p ≡ false
  pub before : (j : ℕ) → lo ≤ j → j < p → bitmap_test_bit s j ≡ true

abbrev pub AllUsed : Frames → ℕ → ℕ → Type 0
AllUsed s lo hi = (j : ℕ) → lo ≤ j → j < hi → bitmap_test_bit s j ≡ true

widen :
    (s : Frames) (i hi p : ℕ)
    → bitmap_test_bit s i ≡ true
    → IsFirstFree s (i + 1) hi p
    → IsFirstFree s i hi p
widen s i hi p used f = record {
  low = omega arith;
  high = f.high;
  free = f.free;
  before = λ j a b. elim (Bool-cases (j == i)) [
    | inl e ↦ ground arith
    | inr e ↦ f.before j (ground arith) b
  ];
}

find_free_from_lem :
    (s : Frames) (n i hi : ℕ)
    → i + n ≡ hi
    → IsFirstFree s i hi (find_free_from s n i) ⊎ (find_free_from s n i ≡ no_page) × AllUsed s i hi
unfolding find_free_from
find_free_from_lem s zero i hi e = inr (refl, λ j a b. absurd (omega arith))
find_free_from_lem s (suc n) i hi e = elim (Bool-cases (bitmap_test_bit s i)) [
  | inr free ↦ inl (
      rw free (record {
        low = omega arith;
        high = omega arith;
        free = free;
        before = λ j a b. absurd (omega arith);
      }))
  | inl used ↦ rw used (elim (find_free_from_lem s n (i + 1) hi (omega arith)) [
    | inl found ↦ inl (widen s i hi _ used found)
    | inr (none_left, all_used) ↦ inr (
      none_left,
      λ j a b. elim (Bool-cases (j == i)) [
        | inl e ↦ ground arith
        | inr e ↦ all_used j (ground arith) b
      ],
    )
  ])
]

pub bitmap_find_free_page_lem :
    (s : Frames)
    → IsFirstFree s 0 s.total (bitmap_find_free_page s)
      ⊎ (bitmap_find_free_page s ≡ no_page) × AllUsed s 0 s.total
unfolding bitmap_find_free_page
bitmap_find_free_page_lem s = find_free_from_lem s s.total 0 s.total (omega arith)
