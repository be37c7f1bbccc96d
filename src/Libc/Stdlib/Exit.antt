-- ===== src/Libc/Stdlib/Exit.antt =====
-- The exit handlers run in the opposite order of their registration.
use prismatic_os.Base.{
  ℕ, zero, suc, ◌+◌, ◌≤◌, ◌≡◌, refl, sym, ap, ◌∙◌, inl, inr, false, Option, none, some, List, [],
  ◌∷◌, ◌++◌, map, append-nil, append_assoc, arith, leb, Option-cases, length, get_or,
}
use mathlib.Core.List.{reverse, reverse-append}
use prismatic_os.Libc.Stdlib.{AtexitData, max_atexit_handlers, atexit, run_down, quick_exit}

module _ {ℓ} {H : Type ℓ} where
  abbrev pub no_handlers : AtexitData H
  no_handlers = record { handlers = []; count = 0 }

  -- Registering handlers one after another, whatever the answers are.
  pub register : AtexitData H → List H → AtexitData H
  register s [] = s
  register s (f ∷ fs) = register (atexit s (some f)).0 fs

  run_down-cons :
      (n : ℕ) (f : H) (hs : List (Option H))
      → run_down (suc n) (some f ∷ hs) ≡ run_down n hs ++ (f ∷ [])
  unfolding run_down
  run_down-cons zero f hs = refl
  run_down-cons (suc n) f hs = elim (Option-cases (get_or hs n none)) [
    | inl e ↦ rw (e, run_down) (run_down-cons n f hs)
    | inr (g, e) ↦ rw (e, run_down) (ap (λ r. g ∷ r) (run_down-cons n f hs))
  ]

  run_down-reverse : (fs : List H) → run_down (length fs) (map some fs) ≡ reverse fs
  run_down-reverse [] = unfold run_down in refl
  run_down-reverse (f ∷ fs) =
      run_down-cons (length fs) f (map some fs)
      ∙ ap (λ r. r ++ (f ∷ [])) (run_down-reverse fs)
      ∙ sym (reverse-append (f ∷ []) fs)

  abbrev data_of : List (Option H) → ℕ → AtexitData H
  data_of hs n = record { handlers = hs; count = n }

  register_lem :
      (fs : List H) (hs : List (Option H)) (n : ℕ)
      → n + length fs ≤ max_atexit_handlers
      → register (data_of hs n) fs ≡ data_of (hs ++ map some fs) (n + length fs)
  unfolding register atexit
  register_lem [] hs n h = ground (arith, append-nil hs)
  register_lem (f ∷ fs) hs n h =
      let room : leb max_atexit_handlers n ≡ false = ground arith in
      rw room (
        register_lem fs (hs ++ (some f ∷ [])) (n + 1) (omega arith)
        ∙ ground (arith, append_assoc hs (some f ∷ []) (map some fs)))

  -- Up to 32 handlers are accepted, and quick_exit calls each of them once, the last one first.
  pub quick_exit-register :
      (fs : List H)
      → length fs ≤ max_atexit_handlers
      → quick_exit (register no_handlers fs) ≡ reverse fs
  unfolding quick_exit
  quick_exit-register fs h =
      let all : 0 + length fs ≡ length fs = omega arith in
      rw (register_lem fs [] 0 (omega arith), all) (run_down-reverse fs)

  -- A handler more than the array holds is refused and nothing changes.
  pub atexit_full :
      (s : AtexitData H) (f : Option H) → max_atexit_handlers ≤ s.count → atexit s f ≡ (s, false)
  unfolding atexit
  atexit_full s f h = ground arith
