-- ===== src/Html/Tests/Compare.antt =====
-- Concrete functions for strcasecmp and strncasecmp.
use prismatic_os.Base.{
  ℕ, ◌≡◌, refl, ◌↔◌, Bool, true, false, ◌&&◌, [], ◌∷◌, map, arith, ◌==◌, Bytes, take,
}
use mathlib.Core.Path.{subst}
use prismatic_os.Libc.Ctype.{tolower}
use prismatic_os.Html.Token.RoundTrip.{ComparesCase}

unfoldable pub same_bytes : Bytes → Bytes → Bool
same_bytes [] [] = true
same_bytes [] (y ∷ t) = false
same_bytes (x ∷ s) [] = false
same_bytes (x ∷ s) (y ∷ t) = (x == y) && same_bytes s t

pub same_bytes_iff : (s t : Bytes) → (same_bytes s t ≡ true) ↔ (s ≡ t)
unfolding same_bytes
same_bytes_iff s t = (to s t, λ e. subst (λ z. same_bytes s z ≡ true) e (self s))
  where
    to : (s t : Bytes) → same_bytes s t ≡ true → s ≡ t
    to [] [] e = refl
    to [] (y ∷ t) e = absurd (ground arith)
    to (x ∷ s) [] e = absurd (ground arith)
    to (x ∷ s) (y ∷ t) e = cong_cons (ground arith) (to s t (ground arith))
      where
        cong_cons : x ≡ y → s ≡ t → (x ∷ s) ≡ (y ∷ t)
        cong_cons e d = rw (e, d) refl

    self : (s : Bytes) → same_bytes s s ≡ true
    self [] = refl
    self (x ∷ s) = ground (arith, self s)

-- strcasecmp(s, t) == 0 and strncasecmp(s, t, n) == 0
unfoldable pub equal_names : Bytes → Bytes → Bool
equal_names s t = same_bytes (map tolower s) (map tolower t)

unfoldable pub equal_prefix : Bytes → Bytes → ℕ → Bool
equal_prefix s t n = equal_names (take n s) (take n t)

pub equal_prefix-ComparesCase : ComparesCase equal_prefix
unfolding equal_prefix equal_names
equal_prefix-ComparesCase s t n = same_bytes_iff (map tolower (take n s)) (map tolower (take n t))
