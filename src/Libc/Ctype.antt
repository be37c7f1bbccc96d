-- ===== src/Libc/Ctype.antt =====
-- libc/src/ctype/ctype.c and the macros of libc/include/ctype.h, on character codes from 0 on.
use prismatic_os.Base.{
  ℕ, suc, ◌+◌, ◌-◌, ◌≡◌, Bool, true, false, ◌&&◌, ◌||◌, List, [], ◌∷◌, arith, leb, ◌==◌,
  if◌then◌else◌,
}

unfoldable pub isdigit : ℕ → Bool
isdigit c = leb b'0' c && leb c b'9'

unfoldable pub isupper : ℕ → Bool
isupper c = leb b'A' c && leb c b'Z'

unfoldable pub islower : ℕ → Bool
islower c = leb b'a' c && leb c b'z'

unfoldable pub isalpha : ℕ → Bool
isalpha c = (leb b'A' c && leb c b'Z') || (leb b'a' c && leb c b'z')

unfoldable pub isalnum : ℕ → Bool
unfolding isalpha isdigit
isalnum c = isalpha c || isdigit c

unfoldable pub isascii : ℕ → Bool
isascii c = leb c 127

unfoldable pub isblank : ℕ → Bool
isblank c = (c == b' ') || (c == 9)

unfoldable pub iscntrl : ℕ → Bool
iscntrl c = leb c 31 || (c == 127)

unfoldable pub isgraph : ℕ → Bool
isgraph c = leb 33 c && leb c 126

unfoldable pub isprint : ℕ → Bool
isprint c = leb 32 c && leb c 126

unfoldable pub ispunct : ℕ → Bool
ispunct c =
    (leb 33 c && leb c 47)
    || (leb 58 c && leb c 64)
    || (leb 91 c && leb c 96)
    || (leb 123 c && leb c 126)

-- ' ', '\f', '\n', '\r', '\t', '\v'
unfoldable pub isspace : ℕ → Bool
isspace c = (c == b' ') || (c == 12) || (c == 10) || (c == 13) || (c == 9) || (c == 11)

unfoldable pub isxdigit : ℕ → Bool
unfolding isdigit
isxdigit c = isdigit c || (leb b'A' c && leb c b'F') || (leb b'a' c && leb c b'f')

unfoldable pub tolower : ℕ → ℕ
unfolding isupper
tolower c = if isupper c then c + 32 else c

unfoldable pub toupper : ℕ → ℕ
unfolding islower
toupper c = if islower c then c - 32 else c

-- Every printing character is a space, a letter, a digit or punctuation, and only one of these.
abbrev pub count_true : List Bool → ℕ
count_true [] = 0
count_true (true ∷ bs) = suc (count_true bs)
count_true (false ∷ bs) = count_true bs

pub isprint_partition :
    (c : ℕ)
    → count_true ((c == b' ') ∷ isupper c ∷ islower c ∷ isdigit c ∷ ispunct c ∷ [])
      ≡ (if isprint c then 1 else 0)
unfolding isupper islower isdigit ispunct isprint
isprint_partition c = ground arith

-- An ASCII character is a control character or a printing one, never both.
pub isascii_partition : (c : ℕ) → isascii c ≡ (iscntrl c || isprint c)
unfolding isascii iscntrl isprint
isascii_partition c = ground arith

-- Changing the case changes letters only, and changing it back gives the letter.
pub case_lem :
    (c : ℕ)
    → (isupper c ≡ true → toupper (tolower c) ≡ c)
      × (islower c ≡ true → tolower (toupper c) ≡ c)
      × (isalpha c ≡ false → (tolower c ≡ c) × (toupper c ≡ c))
      × (isalpha (tolower c) ≡ isalpha c)
      × (tolower (tolower c) ≡ tolower c)
unfolding isupper islower isalpha tolower toupper
case_lem c = ground arith
