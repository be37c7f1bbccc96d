-- ===== src/Libc/Strtok.antt =====
-- strtok_r and strtok of libc/src/string/strlen.c. The string that `*saveptr` points to is a list of
-- bytes, or `none` for NULL; a call returns the token and the new `*saveptr`. The NUL that strtok_r
-- writes ends the token, and the caller has no other use of the bytes before `*saveptr`.
pub mod Words
use prismatic_os.Base.{
  ℕ, zero, suc, Option, none, some, List, [], ◌∷◌, ◌==◌, if◌then◌else◌, Bytes, take, drop,
}
use prismatic_os.Libc.Str.{strcspn}

-- `while (*token && strcspn(token, delim) == 0) token++;`
pub skip_delims : Bytes → Bytes → Bytes
skip_delims delim [] = []
skip_delims delim (x ∷ s) =
    let rest = skip_delims delim s in if strcspn (x ∷ s) delim == 0 then rest else x ∷ s

-- `*end` is NUL, or the delimiter behind the token.
abbrev pub save_end : Bytes → Option Bytes
save_end [] = none
save_end (x ∷ rest) = some rest

cut_token : Bytes → Bytes → Option Bytes × Option Bytes
cut_token delim [] = (none, none)
cut_token delim (x ∷ s) =
    let k = strcspn (x ∷ s) delim in (some (take k (x ∷ s)), save_end (drop k (x ∷ s)))

-- What is done with the string that `*saveptr` points to.
from_save : Bytes → Option Bytes → Option Bytes × Option Bytes
unfolding cut_token
from_save delim none = (none, none)
from_save delim (some []) = (none, some [])
from_save delim (some (x ∷ s)) = cut_token delim (skip_delims delim (x ∷ s))

pub strtok_r :
    (str : Option Bytes) (delim : Bytes) (save : Option Bytes) → Option Bytes × Option Bytes
unfolding from_save
strtok_r none delim save = from_save delim save
strtok_r (some s) delim save = from_save delim (some s)

-- The tokens that `strtok(s, delim)` and then `strtok(NULL, delim)` return until NULL, at most `n`.
pub tokens : ℕ → Bytes → Option Bytes → Option Bytes → List Bytes
tokens zero delim str save = []
tokens (suc n) delim str save =
    let (token, save') = strtok_r str delim save in
    let rest = tokens n delim none save' in elim token [ none ↦ [] | some t ↦ t ∷ rest ]
