-- ===== src/Kernel/Process/Signals.antt =====
-- Sets of signals as lists: those that have a handler, and what the others do to a process.
use prismatic_os.Base.{
  ℕ, suc, ◌+◌, ◌≤◌, ◌≡◌, refl, ap, ◌∙◌, inl, inr, Bool, true, false, ◌||◌, none, some, List, [],
  ◌∷◌, ◌++◌, map, arith, ◌==◌, ◌!=◌, if◌then◌else◌, Bool-cases, Option-cases, length, set,
}
use prismatic_os.Kernel.Thread.{Ptr, null}
use prismatic_os.Kernel.Process.{
  ProcState, proc_running, proc_sleeping, proc_terminated, proc_zombie, lowest_bit, is_sleeping,
}

-- The numbers of the signals whose bits are set, in ascending order; the first bit stands for `i`.
abbrev pub signals_from : ℕ → List Bool → List ℕ
signals_from i [] = []
signals_from i (true ∷ bs) = i ∷ signals_from (suc i) bs
signals_from i (false ∷ bs) = signals_from (suc i) bs

-- The signals with a handler, and what the others do to the state of the process.
abbrev pub caught : (ℕ → Ptr) → List ℕ → List ℕ
caught handlers [] = []
caught handlers (k ∷ ks) =
    let rest = caught handlers ks in if handlers k != null then k ∷ rest else rest

abbrev pub default_state : ProcState → ℕ → ProcState
default_state st k =
    if (k == 15) || (k == 2)
    then proc_zombie
    else if k == 9
    then proc_terminated
    else if k == 19
    then proc_sleeping
    else if k == 20
    then (if is_sleeping st then proc_running else st)
    else st

abbrev pub state_after : (ℕ → Ptr) → ProcState → List ℕ → ProcState
state_after handlers st [] = st
state_after handlers st (k ∷ ks) =
    state_after handlers (if handlers k != null then st else default_state st k) ks

pub lowest_bit-none : (i : ℕ) (bs : List Bool) → lowest_bit bs ≡ none → signals_from i bs ≡ []
unfolding lowest_bit
lowest_bit-none i [] e = refl
lowest_bit-none i (true ∷ bs) e = absurd (ground arith)
lowest_bit-none i (false ∷ bs) e = elim (Option-cases (lowest_bit bs)) [
  | inl f ↦ lowest_bit-none (suc i) bs f
  | inr (k, f) ↦ absurd (none≢some k ((rw f at e)))
]
  where
    none≢some : (k : ℕ) → some (suc k) ≡ none → ⊥
    none≢some k h = ground arith

pub lowest_bit-some :
    (i k : ℕ) (bs : List Bool)
    → lowest_bit bs ≡ some k
    → signals_from i bs ≡ (i + k) ∷ signals_from i (set bs k false)
unfolding lowest_bit
lowest_bit-some i k [] e = absurd (ground arith)
lowest_bit-some i k (true ∷ bs) e =
    let z : k ≡ 0 = ground arith in
    let same : i ≡ i + 0 = omega arith in rw z (ap (λ x. x ∷ signals_from (suc i) bs) same)
lowest_bit-some i k (false ∷ bs) e = elim (Option-cases (lowest_bit bs)) [
  | inl f ↦ absurd (none≢some k (rw f at e))
  | inr (j, f) ↦
      let z : k ≡ suc j = after j k (rw f at e) in
      let same : suc i + j ≡ i + suc j = omega arith in
      rw z
        (lowest_bit-some (suc i) j bs f ∙ ap (λ x. x ∷ signals_from (suc i) (set bs j false)) same)
]
  where
    none≢some : (k : ℕ) → none ≡ some k → ⊥
    none≢some k h = ground arith

    after : (j k : ℕ) → some (suc j) ≡ some k → k ≡ suc j
    after j k h = ground arith

pub caught-cons :
    (handlers : ℕ → Ptr) (k : ℕ) (ks : List ℕ)
    → caught handlers (k ∷ ks) ≡ caught handlers (k ∷ []) ++ caught handlers ks
caught-cons handlers k ks = elim (Bool-cases (handlers k != null)) [ inl e ↦ rw e | inr e ↦ rw e ]

pub map-append {ℓ κ} :
    {A : Type ℓ} {B : Type κ} (f : A → B) (xs ys : List A) → map f (xs ++ ys) ≡ map f xs ++ map f ys
map-append f [] ys = refl
map-append f (x ∷ xs) ys = rw (map-append f xs ys)

pub length-signals_from : (i : ℕ) (bs : List Bool) → length (signals_from i bs) ≤ length bs
length-signals_from i [] = omega arith
length-signals_from i (true ∷ bs) = omega (arith, length-signals_from (suc i) bs)
length-signals_from i (false ∷ bs) = omega (arith, length-signals_from (suc i) bs)
