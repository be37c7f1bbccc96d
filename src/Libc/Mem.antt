-- ===== src/Libc/Mem.antt =====
-- libc/src/string/memcpy.c over a memory that maps an address to its byte. An access of an
-- `unsigned long long` reads or writes eight bytes at once, the lowest address first; addresses do
-- not wrap around. A function returns the memory that it leaves.
pub mod Copy
pub mod Fill
pub mod Compare
pub mod Search
use prismatic_os.Base.{
  ℕ, zero, suc, ◌+◌, ◌-◌, ◌*◌, ◌/◌, ◌%◌, ◌^◌, bit_or, ◌&&◌, ◌||◌, Option, none, some, ltb, leb,
  ◌==◌, ◌!=◌, if◌then◌else◌,
}
use prismatic_os.Base.Int.{ℤ, pos, sub_ℕ}

abbrev pub Mem : Type 0
Mem = ℕ → ℕ

-- *d = v
unfoldable pub store : Mem → ℕ → ℕ → Mem
store m d v a = if a == d then v else m a

-- *(unsigned long long *)d = *(unsigned long long *)s: all eight bytes are read before one is written.
unfoldable pub copy_word : Mem → ℕ → ℕ → Mem
copy_word m d s a = if leb d a && ltb a (d + 8) then m (s + (a - d)) else m a

-- `while (n--) *d++ = *s++;`
unfoldable pub copy_bytes : ℕ → ℕ → ℕ → Mem → Mem
copy_bytes zero d s m = m
copy_bytes (suc n) d s m = copy_bytes n (d + 1) (s + 1) (store m d (m s))

-- The words of memcpy, `k` rounds of `while (n >= 8)`.
copy_words : ℕ → ℕ → ℕ → Mem → Mem
copy_words zero d s m = m
copy_words (suc k) d s m = copy_words k (d + 8) (s + 8) (copy_word m d s)

-- How many bytes bring `d` to a multiple of eight, at most `n`: the rounds of `while ((d & 7) && n)`.
pub align_rounds : ℕ → ℕ → ℕ
align_rounds d zero = 0
align_rounds d (suc n) = let rest = align_rounds (d + 1) n in if d % 8 == 0 then 0 else suc rest

-- The copy of the aligned part and of what is left.
copy_aligned : ℕ → ℕ → ℕ → Mem → Mem
unfolding copy_words
copy_aligned d s n m =
    let w = n / 8 in copy_bytes (n % 8) (d + 8 * w) (s + 8 * w) (copy_words w d s m)

pub memcpy : (dest src n : ℕ) → Mem → Mem
unfolding align_rounds copy_aligned
memcpy d s n m =
    let r = align_rounds d n in
    if ltb n 8
    then copy_bytes n d s m
    else copy_aligned (d + r) (s + r) (n - r) (copy_bytes r d s m)

-- `while (n--) *d-- = *s--;` from the last byte: `n` bytes are left.
copy_back : ℕ → ℕ → ℕ → Mem → Mem
copy_back zero d s m = m
copy_back (suc n) d s m = copy_back n d s (store m (d + n) (m (s + n)))

pub memmove : (dest src n : ℕ) → Mem → Mem
unfolding copy_back
memmove d s n m = if leb d s || leb (s + n) d then memcpy d s n m else copy_back n d s m

-- `value` repeated in the eight bytes of a word.
value64 : ℕ → ℕ
value64 v = bit_or (v * 2 ^ 56) (
    bit_or (v * 2 ^ 48) (
      bit_or (v * 2 ^ 40)
        (bit_or (v * 2 ^ 32) (bit_or (v * 2 ^ 24) (bit_or (v * 2 ^ 16) (bit_or (v * 2 ^ 8) v))))))

-- *(unsigned long long *)p = w
store_word : Mem → ℕ → ℕ → Mem
store_word m p w a = if leb p a && ltb a (p + 8) then w / 256 ^ (a - p) % 256 else m a

pub fill_bytes : ℕ → ℕ → ℕ → Mem → Mem
fill_bytes zero p v m = m
fill_bytes (suc n) p v m = fill_bytes n (p + 1) v (store m p v)

fill_words : ℕ → ℕ → ℕ → Mem → Mem
unfolding store_word
fill_words zero p w m = m
fill_words (suc k) p w m = fill_words k (p + 8) w (store_word m p w)

fill_aligned : ℕ → ℕ → ℕ → Mem → Mem
unfolding fill_bytes fill_words value64
fill_aligned p v n m =
    let w = n / 8 in fill_bytes (n % 8) (p + 8 * w) v (fill_words w p (value64 v) m)

-- `c` is an int given modulo 2 ^ 32; the value is its low byte.
pub memset : (s c n : ℕ) → Mem → Mem
unfolding align_rounds fill_aligned
memset p c n m =
    let v = c % 256 in
    let r = align_rounds p n in fill_aligned (p + r) v (n - r) (fill_bytes r p v m)

-- *(const unsigned long long *)p
load_word : Mem → ℕ → ℕ
load_word m p =
    m p
    + 2 ^ 8 * m (p + 1)
    + 2 ^ 16 * m (p + 2)
    + 2 ^ 24 * m (p + 3)
    + 2 ^ 32 * m (p + 4)
    + 2 ^ 40 * m (p + 5)
    + 2 ^ 48 * m (p + 6)
    + 2 ^ 56 * m (p + 7)

-- The first difference among the next `n` bytes, if there is one; the loop of the bytes that
-- remain, and with `n` = 8 the loop that finds the byte in which two words differ.
pub diff_bytes : ℕ → ℕ → ℕ → Mem → Option ℤ
diff_bytes zero p q m = none
diff_bytes (suc n) p q m =
    let rest = diff_bytes n (p + 1) (q + 1) m in
    if m p != m q then some (sub_ℕ (m p) (m q)) else rest

or_zero : Option ℤ → ℤ
or_zero none = pos 0
or_zero (some z) = z

-- `k` rounds of the word loop, then `r` bytes.
compare_words : ℕ → ℕ → ℕ → ℕ → Mem → ℤ
unfolding load_word or_zero
compare_words zero r p q m = or_zero (diff_bytes r p q m)
compare_words (suc k) r p q m =
    let rest = compare_words k r (p + 8) (q + 8) m in
    if load_word m p != load_word m q
    then elim (diff_bytes 8 p q m) [ none ↦ rest | some z ↦ z ]
    else rest

pub memcmp : (s1 s2 n : ℕ) → Mem → ℤ
unfolding compare_words
memcmp p q n m = compare_words (n / 8) (n % 8) p q m

-- The address of the first byte equal to `c` of `n` bytes.
chr_from : ℕ → ℕ → ℕ → Mem → Option ℕ
chr_from zero p v m = none
chr_from (suc n) p v m = let rest = chr_from n (p + 1) v m in if m p == v then some p else rest

pub memchr : (s c n : ℕ) → Mem → Option ℕ
unfolding chr_from
memchr p c n m = chr_from n p (c % 256) m

-- From the last byte down.
rchr_from : ℕ → ℕ → ℕ → Mem → Option ℕ
rchr_from zero p v m = none
rchr_from (suc n) p v m =
    let rest = rchr_from n p v m in if m (p + n) == v then some (p + n) else rest

pub memrchr : (s c n : ℕ) → Mem → Option ℕ
unfolding rchr_from
memrchr p c n m = rchr_from n p (c % 256) m
