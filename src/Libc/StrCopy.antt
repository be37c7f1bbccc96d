-- ===== src/Libc/StrCopy.antt =====
-- strcpy, strncpy, strcat and strncat of libc/src/string/strlen.c. The destination is memory; the source is the list
-- of its bytes in front of the NUL, and lies apart from the destination.
use prismatic_os.Base.{
  ℕ, zero, suc, ◌+◌, ◌-◌, ◌≤◌, ◌<◌, ◌≡◌, refl, ◌∙◌, ◌&&◌, [], ◌∷◌, arith, ltb, leb, ◌==◌,
  if◌then◌else◌, Bytes, length, get_or, take,
}
use prismatic_os.Libc.Mem.{Mem, store, fill_bytes}
use prismatic_os.Libc.Mem.Fill.{fill_bytes-Filled}
use prismatic_os.Libc.Str.{size_max}

-- `while ((*d++ = *src++));`
pub strcpy : ℕ → Bytes → Mem → Mem
strcpy d [] m = store m d 0
strcpy d (x ∷ s) m = strcpy (d + 1) s (store m d x)

-- `while (n-- && (*d++ = *src++));`: what `n`, `d` and the memory are behind it. A test of `n--` at 0
-- leaves `n` at SIZE_MAX.
strncpy_copy : ℕ → ℕ → Bytes → Mem → ℕ × ℕ × Mem
strncpy_copy zero d s m = (size_max, d, m)
strncpy_copy (suc n) d [] m = (n, d + 1, store m d 0)
strncpy_copy (suc n) d (x ∷ s) m = strncpy_copy n (d + 1) s (store m d x)

pub strncpy : ℕ → Bytes → ℕ → Mem → Mem
unfolding strncpy_copy
strncpy d s n m = let (left, d', m') = strncpy_copy n d s m in fill_bytes left d' 0 m'

-- `while (*d) d++;`: the end of the string at `d`; the fuel bounds its length.
pub end_from : ℕ → ℕ → Mem → ℕ
end_from zero d m = d
end_from (suc n) d m = let rest = end_from n (d + 1) m in if m d == 0 then d else rest

pub strcat : ℕ → (dest : ℕ) → Bytes → Mem → Mem
strcat fuel d s m = strcpy (end_from fuel d m) s m

-- `while (n-- && *src) *d++ = *src++;` and the NUL behind it.
append_some : ℕ → ℕ → Bytes → Mem → Mem
append_some zero d s m = store m d 0
append_some (suc n) d [] m = store m d 0
append_some (suc n) d (x ∷ s) m = append_some n (d + 1) s (store m d x)

pub strncat : ℕ → (dest : ℕ) → Bytes → ℕ → Mem → Mem
unfolding append_some
strncat fuel d s n m = append_some n (end_from fuel d m) s m

-- The copying loop of strncat is strcpy of the source cut off after `n` bytes.
append_some-take : (n d : ℕ) (s : Bytes) (m : Mem) → append_some n d s m ≡ strcpy d (take n s) m
unfolding append_some strcpy
append_some-take zero d s m = refl
append_some-take (suc n) d [] m = refl
append_some-take (suc n) d (x ∷ s) m = append_some-take n (d + 1) s (store m d x)

-- strncat is strcat of the source cut off after `n` bytes.
pub strncat-take :
    (fuel d n : ℕ) (s : Bytes) (m : Mem) → strncat fuel d s n m ≡ strcat fuel d (take n s) m
unfolding strncat strcat
strncat-take fuel d n s m = append_some-take n (end_from fuel d m) s m

-- `t` is `m` with the bytes of `s` at `d` and zeros behind them, `n` bytes in all.
abbrev pub CopiedText : Mem → Mem → ℕ → Bytes → ℕ → Type 0
CopiedText m t d s n =
    (a : ℕ) → t a ≡ (if leb d a && ltb a (d + n) then get_or s (a - d) 0 else m a)

get_or-suc : (x : ℕ) (s : Bytes) (i : ℕ) → 0 < i → get_or (x ∷ s) i 0 ≡ get_or s (i - 1) 0
get_or-suc x s zero h = absurd (omega arith)
get_or-suc x s (suc i) h = ground arith

get_or-zero : (x : ℕ) (s : Bytes) (i : ℕ) → i ≡ 0 → get_or (x ∷ s) i 0 ≡ x
get_or-zero x s zero h = refl
get_or-zero x s (suc i) h = absurd (omega arith)

-- strcpy copies the string with its NUL, and writes nothing else.
pub strcpy_lem : (d : ℕ) (s : Bytes) (m : Mem) → CopiedText m (strcpy d s m) d s (length s + 1)
unfolding strcpy store
strcpy_lem d [] m a = ground arith
strcpy_lem d (x ∷ s) m a =
    ground
      (arith, strcpy_lem (d + 1) s (store m d x) a, get_or-suc x s (a - d), get_or-zero x s (a - d))

-- A string shorter than `n` is copied by strncpy with zeros behind it, `n` bytes in all, and no
-- other byte changes.
pub strncpy_fits :
    (n d : ℕ) (s : Bytes) (m : Mem) → length s < n → CopiedText m (strncpy d s n m) d s n
unfolding strncpy store
strncpy_fits zero d s m h a = absurd (omega arith)
strncpy_fits (suc n) d [] m h a =
    ground (arith, fill_bytes-Filled 0 (omega arith) n (d + 1) (store m d 0) a)
strncpy_fits (suc n) d (x ∷ s) m h a = ground (
  arith,
  strncpy_fits n (d + 1) s (store m d x) (omega arith) a,
  get_or-suc x s (a - d),
  get_or-zero x s (a - d),
)

-- When the source has `n` bytes or more in front of its NUL, strncpy does not stop at the end of
-- the destination: the next SIZE_MAX bytes are zero.
pub strncpy_overrun :
    (n d : ℕ) (s : Bytes) (m : Mem)
    → n ≤ length s
    → (a : ℕ) → d + n ≤ a
    → a < d + n + size_max
    → strncpy d s n m a ≡ 0
unfolding strncpy
strncpy_overrun zero d s m h a low high =
    fill_bytes-Filled 0 (omega arith) size_max d m a ∙ ground arith
strncpy_overrun (suc n) d [] m h a low high = absurd (omega arith)
strncpy_overrun (suc n) d (x ∷ s) m h a low high =
    strncpy_overrun n (d + 1) s (store m d x) (omega arith) a (omega arith) (omega arith)
