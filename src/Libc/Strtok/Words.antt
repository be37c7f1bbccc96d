-- ===== src/Libc/Strtok/Words.antt =====
-- The tokens of repeated calls of strtok are the words between the delimiters.
use prismatic_os.Base.{
  ℕ, zero, suc, ◌≤◌, ◌<◌, ◌≡◌, refl, ap, ◌∙◌, inl, inr, false, Option, none, some, List, [], ◌∷◌,
  ◌++◌, append-nil, append_assoc, arith, ◌==◌, if◌then◌else◌, Bool-cases, Bytes, length, take, drop,
  length-drop,
}
use prismatic_os.Libc.Str.{accepts, strcspn}
use prismatic_os.Libc.Strtok.{skip_delims, save_end, cut_token, from_save, strtok_r, tokens}

-- A word that is not empty, in front of other words.
unfoldable pub add_word : Bytes → List Bytes → List Bytes
add_word [] ws = ws
add_word (x ∷ w) ws = (x ∷ w) ∷ ws

-- The words of a text, read byte by byte: `cur` is the word so far. Empty words are left out.
unfoldable pub words_from : Bytes → Bytes → Bytes → List Bytes
words_from delim cur [] = add_word cur []
words_from delim cur (x ∷ s) =
    if accepts delim x
    then add_word cur (words_from delim [] s)
    else words_from delim (cur ++ (x ∷ [])) s

pub words : Bytes → Bytes → List Bytes
words delim s = words_from delim [] s

strcspn-zero : (x : ℕ) (s delim : Bytes) → (strcspn (x ∷ s) delim == 0) ≡ accepts delim x
unfolding strcspn
strcspn-zero x s delim = ground arith

-- Delimiters in front of the text make no word.
words-skip : (delim s : Bytes) → words delim (skip_delims delim s) ≡ words delim s
unfolding words words_from skip_delims add_word
words-skip delim [] = refl
words-skip delim (x ∷ s) = elim (Bool-cases (accepts delim x)) [
  | inl e ↦ rw (strcspn-zero x s delim, e) (words-skip delim s)
  | inr e ↦ rw (strcspn-zero x s delim, e) (rw e)
]

-- The word up to the next delimiter is read into `cur`.
words_from-cut :
    (delim cur s : Bytes)
    → words_from delim cur s
      ≡ add_word
          (cur ++ take (strcspn s delim) s)
          (elim (save_end (drop (strcspn s delim) s)) [ none ↦ [] | some r ↦ words delim r ])
unfolding words words_from strcspn
words_from-cut delim cur [] = rw append-nil
words_from-cut delim cur (x ∷ s) = elim (Bool-cases (accepts delim x)) [
  | inl e ↦ rw (e, append-nil)
  | inr e ↦ rw e (words_from-cut delim (cur ++ (x ∷ [])) s ∙ rw append_assoc)
]

-- What is left behind a token, or nothing.
abbrev rest_words : Bytes → Option Bytes → List Bytes
rest_words delim none = []
rest_words delim (some r) = words delim r

-- The text at which skipping stops.
abbrev StartsWord : Bytes → Bytes → Type 0
StartsWord delim [] = Unit
StartsWord delim (x ∷ s) = accepts delim x ≡ false

skip-StartsWord : (delim s : Bytes) → StartsWord delim (skip_delims delim s)
unfolding skip_delims
skip-StartsWord delim [] = tt
skip-StartsWord delim (x ∷ s) = elim (Bool-cases (accepts delim x)) [
  | inl e ↦ rw (strcspn-zero x s delim, e) (skip-StartsWord delim s)
  | inr e ↦ rw (strcspn-zero x s delim, e) e
]

length-skip : (delim s : Bytes) → length (skip_delims delim s) ≤ length s
unfolding skip_delims
length-skip delim [] = omega arith
length-skip delim (x ∷ s) = ground (arith, length-skip delim s)

-- One round of the repeated calls, on a text that begins with a word.
abbrev round : ℕ → Bytes → Option Bytes × Option Bytes → List Bytes
round n delim (token, save) = elim token [ none ↦ [] | some t ↦ t ∷ tokens n delim none save ]

tokens-none : (n : ℕ) (delim : Bytes) → tokens n delim none none ≡ []
unfolding tokens strtok_r
tokens-none zero delim = refl
tokens-none (suc n) delim = refl

first_word :
    (delim : Bytes) (x : ℕ) (t : Bytes)
    → accepts delim x ≡ false
    → words delim (x ∷ t)
      ≡ (x ∷ take (strcspn t delim) t) ∷ rest_words delim (save_end (drop (strcspn t delim) t))
unfolding words words_from
first_word delim x t e = rw e (words_from-cut delim (x ∷ []) t ∙ unfold add_word in refl)

strcspn-suc :
    (x : ℕ) (t delim : Bytes)
    → accepts delim x ≡ false
    → strcspn (x ∷ t) delim ≡ suc (strcspn t delim)
unfolding strcspn
strcspn-suc x t delim e = rw e

module _ (n : ℕ) (delim : Bytes)
    (ih : (r : Bytes) → length r < n → tokens n delim none (some r) ≡ words delim r) where
  after_token :
      (r : Bytes) → length r ≤ n → tokens n delim none (save_end r) ≡ rest_words delim (save_end r)
  after_token [] h = tokens-none n delim
  after_token (x ∷ r) h = ih r (omega arith)

  cut-words :
      (t : Bytes)
      → StartsWord delim t
      → length t ≤ n
      → round n delim (cut_token delim t) ≡ words delim t
  unfolding cut_token
  cut-words [] starts h = unfold words words_from add_word in refl
  cut-words (x ∷ t) starts h =
      rw (strcspn-suc x t delim starts, first_word delim x t starts)
        (ap (λ r. (x ∷ take (strcspn t delim) t) ∷ r)
          (after_token (drop (strcspn t delim) t) (omega (arith, length-drop (strcspn t delim) t))))

  round-words :
      (s : Bytes) → length s ≤ n → round n delim (from_save delim (some s)) ≡ words delim s
  unfolding from_save
  round-words [] h = unfold words words_from add_word in refl
  round-words (x ∷ s) h =
      cut-words (skip_delims delim (x ∷ s)) (skip-StartsWord delim (x ∷ s))
        (omega (arith, length-skip delim (x ∷ s)))
      ∙ words-skip delim (x ∷ s)

tokens_saved :
    (n : ℕ) (delim s : Bytes) → length s < n → tokens n delim none (some s) ≡ words delim s
unfolding tokens strtok_r
tokens_saved zero delim s h = absurd (omega arith)
tokens_saved (suc n) delim s h = round-words n delim (tokens_saved n delim) s (omega arith)

-- With more calls allowed than the text has bytes, the tokens of strtok_r are the words between the
-- delimiters, in order and without the empty ones.
pub tokens-words :
    (n : ℕ) (delim s : Bytes) (save : Option Bytes)
    → length s < n
    → tokens n delim (some s) save ≡ words delim s
unfolding tokens strtok_r
tokens-words zero delim s save h = absurd (omega arith)
tokens-words (suc n) delim s save h = round-words n delim (tokens_saved n delim) s (omega arith)
