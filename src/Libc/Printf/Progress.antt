-- ===== src/Libc/Printf/Progress.antt =====
-- The loop over the format ends: a conversion takes a byte behind the `%` at least.
use prismatic_os.Base.{ℕ, Option, none, some, List, Bytes, length}
use prismatic_os.Base.Int.{ℤ}
use prismatic_os.Libc.Printf.Convert.{Arg}
use prismatic_os.Libc.Printf.Format.{Printed}

-- How much of the format is left behind a width or a precision.
abbrev left : Option (ℤ × Bytes × List Arg) → ℕ
left none = 0
left (some (v, s, args)) = length s

-- How much of the format is left behind a conversion.
abbrev behind_it : Option (Printed × Bytes) → ℕ
behind_it none = 0
behind_it (some (p, s)) = length s
