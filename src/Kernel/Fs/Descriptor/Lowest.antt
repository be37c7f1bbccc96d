-- ===== src/Kernel/Fs/Descriptor/Lowest.antt =====
-- fd_alloc hands out the lowest free descriptor, and what the table holds afterwards.
use prismatic_os.Base.{
  ℕ, zero, suc, ◌+◌, ◌-◌, ◌≤◌, ◌<◌, ◌≡◌, refl, ap, ◌∙◌, ◌≢◌, ◌⊎◌, inl, inr, Bool, true, false,
  Option, some, arith, if◌then◌else◌, lt→ltb, eq_refl, Bool-cases, is_some,
}
use prismatic_os.Base.Int.{ℤ, pos, negsuc}
use prismatic_os.Kernel.Fs.Descriptor.{
  FileDescriptor, FdTable, set_fd, new_descriptor, fd_alloc_from, fd_alloc, fd_free, fd_get,
  set_found, fd_set_entry,
}

-- Every descriptor in [lo, hi) is in use.
abbrev pub AllOpen : FdTable → ℕ → ℕ → Type 0
AllOpen t lo hi = (j : ℕ) → lo ≤ j → j < hi → is_some (t j) ≡ true

-- Descriptor `i` is the lowest free one of [lo, hi).
pub record IsLowestFree (t : FdTable) (lo hi i : ℕ) : Type 0 where
  pub low : lo ≤ i
  pub high : i < hi
  pub free : is_some (t i) ≡ false
  pub taken : (j : ℕ) → lo ≤ j → j < i → is_some (t j) ≡ true

abbrev pub Outcome : Bool → FdTable → ℕ → ℕ → FdTable × ℤ → Type 0
Outcome room t lo hi r =
    ((i : ℕ) × (IsLowestFree t lo hi i)
      × (r ≡ (if room then (set_fd t i (some (new_descriptor i)), pos i) else (t, negsuc 0))))
    ⊎ (AllOpen t lo hi × (r ≡ (t, negsuc 0)))

module _ (room : Bool) (t : FdTable) where
  alloc_step_open :
      (n i : ℕ)
      → is_some (t i) ≡ true
      → fd_alloc_from (suc n) i room t ≡ fd_alloc_from n (i + 1) room t
  unfolding fd_alloc_from
  alloc_step_open n i h = rw (h) refl

  alloc_step_free :
      (n i : ℕ)
      → is_some (t i) ≡ false
      → fd_alloc_from (suc n) i room t
        ≡ (if room then (set_fd t i (some (new_descriptor i)), pos i) else (t, negsuc 0))
  unfolding fd_alloc_from
  alloc_step_free n i h = rw (h) refl

  extend_open :
      (n i j : ℕ)
      → is_some (t i) ≡ true
      → (i + 1 ≤ j → j < i + 1 + n → is_some (t j) ≡ true)
      → i ≤ j
      → j < i + suc n
      → is_some (t j) ≡ true
  extend_open n i j h rest lo hi = ground (arith)

  fd_alloc_from-Outcome : (n i : ℕ) → Outcome room t i (i + n) (fd_alloc_from n i room t)
  unfolding fd_alloc_from
  fd_alloc_from-Outcome zero i = inr ((λ j lo hi. absurd (omega (arith))), refl)
  fd_alloc_from-Outcome (suc n) i = elim (Bool-cases (is_some (t i))) [
    | inr h ↦ inl (
      i,
      record {
        low = omega (arith);
        high = omega (arith);
        free = h;
        taken = λ j lo hi. absurd (omega (arith));
      },
      alloc_step_free n i h,
    )
    | inl h ↦ elim (fd_alloc_from-Outcome n (i + 1)) [
      | inl (k, first, e) ↦ inl (
        k,
        record {
          low = omega (arith, first.low);
          high = omega (arith, first.high);
          free = first.free;
          taken = λ j lo hi.
              extend_open (k - i - 1) i j h (λ a b. first.taken j a (omega (arith, first.low))) lo
                (omega (arith, first.low));
        },
        alloc_step_open n i h ∙ e,
      )
      | inr (full, e) ↦
          inr ((λ j lo hi. extend_open n i j h (full j) lo hi), alloc_step_open n i h ∙ e)
    ]
  ]

-- fd_alloc takes the lowest free one of the 256 descriptors; where kmalloc has no memory, or where no
-- descriptor is free, it answers -1 and leaves the table as it was.
pub fd_alloc-Outcome : (room : Bool) (t : FdTable) → Outcome room t 0 256 (fd_alloc room t)
unfolding fd_alloc
fd_alloc-Outcome room t = fd_alloc_from-Outcome room t 256 0

set_fd_same : (t : FdTable) (i : ℕ) (v : Option FileDescriptor) → set_fd t i v i ≡ v
unfolding set_fd
set_fd_same t i v = rw (eq_refl i) refl

fd_get_open :
    (t : FdTable) (i : ℕ) (entry : FileDescriptor)
    → i < 256
    → t i ≡ some entry
    → fd_get t (pos i) ≡ some entry
unfolding fd_get
fd_get_open t i entry h e = rw (lt→ltb i 256 h) e

fd_set_entry_open :
    (t : FdTable) (i object flags mode : ℕ) (entry : FileDescriptor)
    → i < 256
    → t i ≡ some entry
    → fd_set_entry t (pos i) object flags mode ≡ (
      set_fd t i
          (some (record entry { file_object = object; flags = flags; mode = mode; offset = 0 })),
      pos 0,
    )
unfolding fd_set_entry
fd_set_entry_open t i object flags mode entry h e =
    ap (set_found t (pos i) object flags mode) (fd_get_open t i entry h e)

-- A descriptor that was handed out and is set: fd_get gives the entry that fd_set_entry stored, with
-- offset 0, the other descriptors are as before, and fd_free makes it absent again.
pub fd_set_entry-fd_get :
    (t : FdTable) (i j object flags mode : ℕ)
    → i < 256
    → is_some (t i) ≡ false
    → i ≢ j
    → let open_table = set_fd t i (some (new_descriptor i)) in
      let set = fd_set_entry open_table (pos i) object flags mode in
      (set.1 ≡ pos 0)
      × (fd_get set.0 (pos i)
          ≡ some (record (new_descriptor i) { file_object = object; flags = flags; mode = mode }))
      × (fd_get set.0 (pos j) ≡ fd_get t (pos j))
      × ((a : ℕ) → is_some (fd_free (pos i) set.0 a) ≡ is_some (t a))
unfolding fd_get fd_free set_fd
fd_set_entry-fd_get t i j object flags mode h free apart =
    let e =
      fd_set_entry_open (set_fd t i (some (new_descriptor i))) i object flags mode
        (new_descriptor i) h (set_fd_same t i _) in
    rw (e) (refl, ground (arith), ground (arith), λ a. ground (arith))
