-- ===== src/Libc/Stdlib/Random.antt =====
-- The random numbers: their range, and that rand_r and rand give the same sequence.
use prismatic_os.Base.{ℕ, zero, suc, ◌%◌, ◌^◌, ◌≤◌, ◌≡◌, refl, sym, ◌∙◌, List, [], ◌∷◌, arith}
use prismatic_os.Libc.Stdlib.{lcg, output, rand, srand, rand_r}

abbrev pub rand_max : ℕ
rand_max = 32767

-- Only the low 31 bits of a state count, for the output and for the next state.
lcg_low : (a b : ℕ) → a % 2 ^ 31 ≡ b % 2 ^ 31 → lcg a % 2 ^ 31 ≡ lcg b % 2 ^ 31
unfolding lcg
lcg_low a b e = omega arith

output_low : (a b : ℕ) → a % 2 ^ 31 ≡ b % 2 ^ 31 → output a ≡ output b
unfolding output
output_low a b e = omega arith

-- The numbers of `n` calls.
pub rand_seq : ℕ → ℕ → List ℕ
rand_seq zero next = []
rand_seq (suc n) next = let (x, next') = rand next in x ∷ rand_seq n next'

pub rand_r_seq : ℕ → ℕ → List ℕ
rand_r_seq zero seed = []
rand_r_seq (suc n) seed = let (x, seed') = rand_r seed in x ∷ rand_r_seq n seed'

seq_low : (n a b : ℕ) → a % 2 ^ 31 ≡ b % 2 ^ 31 → rand_seq n a ≡ rand_r_seq n b
unfolding rand_seq rand_r_seq rand rand_r
seq_low zero a b e = refl
seq_low (suc n) a b e = cc (
  output_low (lcg a) (lcg b) (lcg_low a b e),
  seq_low n (lcg a) (lcg b % 2 ^ 32) (omega (arith, lcg_low a b e)),
)

-- After srand the calls of rand return what calls of rand_r return from the same seed, however
-- many, although rand_r keeps 32 bits of the state and rand keeps 64.
pub rand_seq-srand : (n seed : ℕ) → rand_seq n (srand seed) ≡ rand_r_seq n seed
unfolding srand
rand_seq-srand n seed = seq_low n (seed % 2 ^ 32) seed (omega arith)

-- States that agree in their low 31 bits give the same numbers for ever.
pub rand_seq-low : (n a b : ℕ) → a % 2 ^ 31 ≡ b % 2 ^ 31 → rand_seq n a ≡ rand_seq n b
rand_seq-low n a b e = seq_low n a b e ∙ sym (seq_low n b b refl)

-- Every number is at most RAND_MAX.
pub rand-le : (next : ℕ) → ((rand next).0 ≤ rand_max) × ((rand_r next).0 ≤ rand_max)
unfolding rand rand_r output
rand-le next = omega arith
