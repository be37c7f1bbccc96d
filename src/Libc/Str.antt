-- ===== src/Libc/Str.antt =====
-- The string functions of libc/src/string/strlen.c that read. A `const char *` is the list of the
-- bytes from the pointer to the NUL that ends the string, so a pointer into a string is a suffix of
-- it; a string holds no NUL. `char` is signed, `size_t` has 64 bits.
pub mod Order
pub mod Search
use prismatic_os.Base.{
  ℕ, zero, suc, ◌-◌, ◌%◌, ◌^◌, Bool, true, false, ◌&&◌, Option, none, some, [], ◌∷◌, ltb, ◌==◌,
  if◌then◌else◌, Bytes, set,
}
use prismatic_os.Base.Int.{ℤ, pos, sub_ℕ}

-- *s as an unsigned char
abbrev pub head_byte : Bytes → ℕ
head_byte [] = 0
head_byte (x ∷ s) = x

abbrev pub size_max : ℕ
size_max = 2 ^ 64 - 1

pub strcmp : Bytes → Bytes → ℤ
strcmp [] t = sub_ℕ 0 (head_byte t)
strcmp (x ∷ s) [] = sub_ℕ x 0
strcmp (x ∷ s) (y ∷ t) = let rest = strcmp s t in if x == y then rest else sub_ℕ x y

-- The variables where the loop of strncmp stops; `n--` wraps at 0.
strncmp_loop : ℕ → Bytes → Bytes → ℕ × Bytes × Bytes
strncmp_loop zero s t = (size_max, s, t)
strncmp_loop (suc n) [] t = (n, [], t)
strncmp_loop (suc n) (x ∷ s) [] = (n, x ∷ s, [])
strncmp_loop (suc n) (x ∷ s) (y ∷ t) =
    let rest = strncmp_loop n s t in if x == y then rest else (n, x ∷ s, y ∷ t)

pub strncmp : Bytes → Bytes → ℕ → ℤ
unfolding strncmp_loop
strncmp s t n =
    let (left, s', t') = strncmp_loop n s t in
    if left == size_max then pos 0 else sub_ℕ (head_byte s') (head_byte t')

-- `*s == ch` for a signed char and an unsigned char: from 128 on the char is negative.
pub char_eq : ℕ → ℕ → Bool
char_eq x ch = ltb x 128 && (x == ch)

chr_loop : Bytes → ℕ → Option Bytes
unfolding char_eq
chr_loop [] ch = none
chr_loop (x ∷ s) ch = let rest = chr_loop s ch in if char_eq x ch then some (x ∷ s) else rest

pub strchr : Bytes → ℕ → Option Bytes
unfolding chr_loop
strchr s c = chr_loop s (c % 256)

-- `last` is the last match so far.
rchr_loop : Bytes → ℕ → Option Bytes → Option Bytes
unfolding char_eq
rchr_loop [] ch last = last
rchr_loop (x ∷ s) ch last = rchr_loop s ch (if char_eq x ch then some (x ∷ s) else last)

pub strrchr : Bytes → ℕ → Option Bytes
unfolding rchr_loop
strrchr s c = rchr_loop s (c % 256) none

-- The inner loop of strpbrk, strcspn and strspn: is the byte among those of a string?
unfoldable pub accepts : Bytes → ℕ → Bool
accepts [] x = false
accepts (a ∷ set) x = let rest = accepts set x in if x == a then true else rest

pub strpbrk : Bytes → Bytes → Option Bytes
strpbrk [] accept = none
strpbrk (x ∷ s) accept =
    let rest = strpbrk s accept in if accepts accept x then some (x ∷ s) else rest

unfoldable pub strcspn : Bytes → Bytes → ℕ
strcspn [] reject = 0
strcspn (x ∷ s) reject = let rest = strcspn s reject in if accepts reject x then 0 else suc rest

pub strspn : Bytes → Bytes → ℕ
strspn [] accept = 0
strspn (x ∷ s) accept = let rest = strspn s accept in if accepts accept x then suc rest else 0

pub strnlen : Bytes → ℕ → ℕ
strnlen s zero = 0
strnlen [] (suc n) = 0
strnlen (x ∷ s) (suc n) = suc (strnlen s n)
