-- ===== src/Libc/Stdlib.antt =====
-- libc/src/stdlib/stdlib.c: the random numbers and the exit handlers. `unsigned long` has 64 bits.
pub mod Random
pub mod Exit
use prismatic_os.Base.{
  ℕ, zero, suc, ◌+◌, ◌*◌, ◌/◌, ◌%◌, ◌^◌, Bool, true, false, Option, none, some, List, [], ◌∷◌, ◌++◌,
  leb, if◌then◌else◌, get_or,
}

-- One step of the generator on an unsigned long.
pub lcg : ℕ → ℕ
lcg next = (next * 1103515245 + 12345) % 2 ^ 64

-- `(unsigned int)(next / 65536) % 32768`
pub output : ℕ → ℕ
output next = next / 65536 % 2 ^ 32 % 32768

-- The state is the static variable `next`.
pub rand : ℕ → ℕ × ℕ
rand next = (output (lcg next), lcg next)

-- `seed` is an unsigned int.
pub srand : ℕ → ℕ
srand seed = seed % 2 ^ 32

-- The result and the new `*seed`.
pub rand_r : ℕ → ℕ × ℕ
rand_r seed = (output (lcg seed), lcg seed % 2 ^ 32)

abbrev pub max_atexit_handlers : ℕ
max_atexit_handlers = 32

-- `H` is the type of the handlers, and `none` is NULL; the array holds `count` of them in front.
pub record AtexitData {ℓ} (H : Type ℓ) : Type ℓ where
  pub handlers : List (Option H)
  pub count : ℕ

module _ {ℓ} {H : Type ℓ} where
  -- The answer is whether the handler was accepted: 0 or -1.
  pub atexit : AtexitData H → Option H → AtexitData H × Bool
  atexit s f =
      if leb max_atexit_handlers s.count
      then (s, false)
      else (record { handlers = s.handlers ++ (f ∷ []); count = s.count + 1 }, true)

  pub at_quick_exit : AtexitData H → Option H → AtexitData H × Bool
  at_quick_exit s f = atexit s f

  -- The handlers that the loop from `i` - 1 down to 0 calls, in order.
  pub run_down : ℕ → List (Option H) → List H
  run_down zero hs = []
  run_down (suc i) hs =
      let rest = run_down i hs in elim (get_or hs i none) [ none ↦ rest | some f ↦ f ∷ rest ]

  -- What quick_exit calls before it ends the process.
  pub quick_exit : AtexitData H → List H
  quick_exit s = run_down s.count s.handlers
