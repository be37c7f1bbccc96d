-- ===== src/Kernel/Process/Links.antt =====
-- The fields of a process that changing the links of the lists leaves as they are.
use prismatic_os.Base.{
  ℕ, zero, suc, ◌≡◌, refl, sym, ap, ◌∙◌, inl, inr, Bool, true, false, arith, ◌==◌, ◌!=◌,
  if◌then◌else◌, Bool-cases,
}
use prismatic_os.Kernel.Thread.{Ptr, null}
use prismatic_os.Kernel.Process.{
  World, Procs, Process, write, set_next, set_prev, set_parent, set_children, process_remove_child,
  enlist, delist, destroy_children, process_destroy,
}

-- A field that a write leaves as it is.
write-keeps {ℓ} :
    {A : Type ℓ} (f : Process → A) (ps : Procs) (p : Ptr) (q : Process) (a : Ptr)
    → f q ≡ f (ps p)
    → f (write ps p q a) ≡ f (ps a)
unfolding write
write-keeps f ps p q a same = elim (Bool-cases (a == p)) [
  | inl e ↦ let here : a ≡ p = ground arith in rw e (same ∙ ap (λ x. f (ps x)) (sym here))
  | inr e ↦ rw e
]

-- The head of the list is written back only if there is one.
prev_if-keeps {ℓ} :
    {A : Type ℓ} (f : Process → A) (test : Bool) (ps : Procs) (p q a : Ptr)
    → ((b : Process) (x : Ptr) → f (record b { prev = x }) ≡ f b)
    → f ((if test then set_prev ps p q else ps) a) ≡ f (ps a)
unfolding set_prev
prev_if-keeps f true ps p q a keeps =
    write-keeps f ps p (record (ps p) { prev = q }) a (keeps (ps p) q)
prev_if-keeps f false ps p q a keeps = refl

module _ {ℓ} {A : Type ℓ} (f : Process → A)
    (keeps_next : (b : Process) (x : Ptr) → f (record b { next = x }) ≡ f b)
    (keeps_prev : (b : Process) (x : Ptr) → f (record b { prev = x }) ≡ f b) where
  pub enlist-keeps : (ps : Procs) (p first a : Ptr) → f (enlist ps p first a) ≡ f (ps a)
  unfolding enlist set_next set_prev
  enlist-keeps ps p first a =
      let ps1 = set_next ps p first in
      let ps2 = if first != null then set_prev ps1 first p else ps1 in
      write-keeps f ps2 p (record (ps2 p) { prev = null }) a (keeps_prev (ps2 p) null)
      ∙ prev_if-keeps f (first != null) ps1 first p a keeps_prev
      ∙ write-keeps f ps p (record (ps p) { next = first }) a (keeps_next (ps p) first)

-- Either of two stores.
if-keeps {ℓ} :
    {A : Type ℓ} (f : Process → A) (test : Bool) (xs ys : Procs) (a : Ptr) (v : A)
    → f (xs a) ≡ v
    → f (ys a) ≡ v
    → f ((if test then xs else ys) a) ≡ v
if-keeps f true xs ys a v x y = x
if-keeps f false xs ys a v x y = y

module _ {ℓ} {A : Type ℓ} (f : Process → A)
    (keeps_next : (b : Process) (x : Ptr) → f (record b { next = x }) ≡ f b)
    (keeps_prev : (b : Process) (x : Ptr) → f (record b { prev = x }) ≡ f b)
    (keeps_parent : (b : Process) (x : Ptr) → f (record b { parent = x }) ≡ f b)
    (keeps_children : (b : Process) (x : Ptr) → f (record b { children = x }) ≡ f b) where
  next-keeps : (ps : Procs) (p q a : Ptr) → f (set_next ps p q a) ≡ f (ps a)
  unfolding set_next
  next-keeps ps p q a = write-keeps f ps p (record (ps p) { next = q }) a (keeps_next (ps p) q)

  prev-keeps : (ps : Procs) (p q a : Ptr) → f (set_prev ps p q a) ≡ f (ps a)
  unfolding set_prev
  prev-keeps ps p q a = write-keeps f ps p (record (ps p) { prev = q }) a (keeps_prev (ps p) q)

  delist-keeps : (ps : Procs) (p a : Ptr) → f (delist ps p a) ≡ f (ps a)
  unfolding delist
  delist-keeps ps p a =
      let before = (ps p).prev in
      let ps1 = if before != null then set_next ps before (ps p).next else ps in
      let first : f (ps1 a) ≡ f (ps a) =
        if-keeps f (before != null) _ ps a (f (ps a)) (next-keeps ps before (ps p).next a) refl in
      prev_if-keeps f ((ps1 p).next != null) ps1 (ps1 p).next (ps1 p).prev a keeps_prev ∙ first

  pub remove_child-keeps :
      (ps : Procs) (parent child a : Ptr) → f (process_remove_child ps parent child a) ≡ f (ps a)
  unfolding process_remove_child set_parent set_children
  remove_child-keeps ps parent child a =
      let before = (ps child).prev in
      let next = (ps child).next in
      let ps1 = if before != null then set_next ps before next else set_children ps parent next in
      let ps2 =
        if (ps1 child).next != null then set_prev ps1 (ps1 child).next (ps1 child).prev else ps1 in
      let first : f (ps1 a) ≡ f (ps a) =
        if-keeps f (before != null) (set_next ps before next) (set_children ps parent next) a
          (f (ps a)) (next-keeps ps before next a)
          (write-keeps f ps parent (record (ps parent) { children = next }) a
            (keeps_children (ps parent) next)) in
      write-keeps f ps2 child (record (ps2 child) { parent = null }) a
        (keeps_parent (ps2 child) null)
      ∙ prev_if-keeps f ((ps1 child).next != null) ps1 (ps1 child).next (ps1 child).prev a
          keeps_prev
      ∙ first

  destroy_children-keeps :
      (destroy : World → Ptr → World)
      → ((w : World) (p a : Ptr) → f ((destroy w p).procs a) ≡ f (w.procs a))
      → (n : ℕ) (w : World) (child a : Ptr)
      → f ((destroy_children destroy n w child).procs a) ≡ f (w.procs a)
  unfolding destroy_children
  destroy_children-keeps destroy keeps zero w child a = refl
  destroy_children-keeps destroy keeps (suc n) w child a = elim (Bool-cases (child == null)) [
    | inl e ↦ rw e
    | inr e ↦ rw e (
        destroy_children-keeps destroy keeps n (destroy w child) (w.procs child).next a
        ∙ keeps w child a)
  ]

  pub process_destroy-keeps :
      (n : ℕ) (w : World) (p a : Ptr) → f ((process_destroy n w p).procs a) ≡ f (w.procs a)
  unfolding process_destroy
  process_destroy-keeps zero w p a = refl
  process_destroy-keeps (suc n) w p a = elim (Bool-cases (p == null)) [
    | inl e ↦ rw e
    | inr e ↦
        let ps1 = delist w.procs p in
        let parent = (ps1 p).parent in
        let ps2 = if parent != null then process_remove_child ps1 parent p else ps1 in
        let first = if (w.procs p).prev != null then w.sched.process_list else (w.procs p).next in
        let w1 : World = record w {
          procs = ps2;
          sched = record w.sched { process_list = first };
        } in
        let listed = delist-keeps w.procs p a in
        rw e (
          destroy_children-keeps (process_destroy n) (process_destroy-keeps n) n w1 (ps2 p).children
            a
          ∙ if-keeps f (parent != null) (process_remove_child ps1 parent p) ps1 a (f (w.procs a))
              (remove_child-keeps ps1 parent p a ∙ listed) listed)
  ]
