-- ===== src/Base/Int.antt =====
-- Signed integers over the native numbers, and the int32_t that a bit pattern stands for.
use prismatic_os.Base.Tests.{leb, ltb, if◌then◌else◌}
use Prim.Native.Nat.{ℕ, ◌-◌, ◌^◌, ◌%◌}

-- `negsuc n` is -(n + 1).
pub data ℤ : Type 0 where
  pos : ℕ → ℤ
  negsuc : ℕ → ℤ

-- a - b, as an integer.
abbrev pub sub_ℕ : ℕ → ℕ → ℤ
sub_ℕ a b = if leb b a then pos (a - b) else negsuc (b - a - 1)

-- -n
abbrev pub neg_ℕ : ℕ → ℤ
neg_ℕ n = sub_ℕ 0 n

-- The conversion of an unsigned value to a signed type of `w` bits.
abbrev pub to_signed : ℕ → ℕ → ℤ
to_signed w n = let r = n % 2 ^ w in if ltb r (2 ^ (w - 1)) then pos r else negsuc (2 ^ w - 1 - r)

-- The low `w` bits of an integer, as in a conversion to an unsigned type.
abbrev pub low_bits : ℕ → ℤ → ℕ
low_bits w (pos n) = n % 2 ^ w
low_bits w (negsuc n) = 2 ^ w - 1 - n % 2 ^ w

-- The value of a positive integer, and 0 for the others.
abbrev pub positive : ℤ → ℕ
positive (pos n) = n
positive (negsuc n) = 0
