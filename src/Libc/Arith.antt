-- ===== src/Libc/Arith.antt =====
-- libc/src/stdlib/stdlib.c: the absolute values, the divisions and the environment, of which no
-- variable is kept. The absolute value of the least integer and a division by 0 are undefined in C:
-- the first is not a value of the type here, and the second is `none`.
use prismatic_os.Base.{
  ℕ, suc, ◌/◌, ◌%◌, Bool, true, false, not, Option, none, some, ◌==◌, if◌then◌else◌, Bytes,
}
use prismatic_os.Base.Int.{ℤ, pos, negsuc, neg_ℕ}

unfoldable pub magnitude : ℤ → ℕ
magnitude (pos n) = n
magnitude (negsuc n) = suc n

unfoldable pub is_negative : ℤ → Bool
is_negative (pos n) = false
is_negative (negsuc n) = true

unfoldable pub with_sign : Bool → ℕ → ℤ
with_sign neg n = if neg then neg_ℕ n else pos n

pub abs : ℤ → ℤ
abs x = if is_negative x then pos (magnitude x) else x

pub labs : ℤ → ℤ
labs x = if is_negative x then pos (magnitude x) else x

pub llabs : ℤ → ℤ
llabs x = if is_negative x then pos (magnitude x) else x

pub record DivT : Type 0 where
  pub quot : ℤ
  pub rem : ℤ

-- The quotient of C is cut off towards 0, and the remainder has the sign of the numerator.
pub divide : ℤ → ℤ → Option DivT
divide numer denom =
    let opposite = if is_negative numer then not (is_negative denom) else is_negative denom in
    if magnitude denom == 0
    then none
    else some (record {
      quot = with_sign opposite (magnitude numer / magnitude denom);
      rem = with_sign (is_negative numer) (magnitude numer % magnitude denom);
    })

pub div : ℤ → ℤ → Option DivT
div numer denom = divide numer denom

pub ldiv : ℤ → ℤ → Option DivT
ldiv numer denom = divide numer denom

pub lldiv : ℤ → ℤ → Option DivT
lldiv numer denom = divide numer denom

pub getenv : Bytes → Option Bytes
getenv name = none

pub putenv : Bytes → ℤ
putenv string = pos 0

pub setenv : (name value : Bytes) → (overwrite : ℤ) → ℤ
setenv name value overwrite = pos 0

pub unsetenv : Bytes → ℤ
unsetenv name = pos 0

-- A NULL command is `none`.
pub system : Option Bytes → ℤ
system none = pos 1
system (some command) = pos 0
