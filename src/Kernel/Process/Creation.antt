-- ===== src/Kernel/Process/Creation.antt =====
-- The list of processes when a process has a parent: the links of the list are those of the children.
use prismatic_os.Base.{
  ℕ, zero, suc, ◌≡◌, refl, ap, ◌∙◌, inl, inr, true, false, arith, ◌==◌, ◌!=◌, eq_refl,
  if◌then◌else◌, Bool-cases,
}
use prismatic_os.Kernel.Thread.{Ptr, null, ProcessLink, find_from, process_find_by_pid}
use prismatic_os.Kernel.Process.Links.{enlist-keeps}
use prismatic_os.Kernel.Process.{
  World, Procs, write, set_next, set_prev, set_parent, set_children, seen, new_process,
  process_add_child, enlist, process_create,
}

add_child-next :
    (ps : Procs) (parent child : Ptr)
    → (parent == child) ≡ false
    → (ps parent).children ≡ null
    → (process_add_child ps parent child child).next ≡ null
unfolding process_add_child set_children set_next set_prev set_parent write
add_child-next ps parent child apart childless =
    let self = eq_refl child in
    let apart' : (child == parent) ≡ false = ground arith in
    rw (self, apart, apart', childless, self) refl

add_child-pid :
    (ps : Procs) (parent child : Ptr)
    → (parent == child) ≡ false
    → (ps parent).children ≡ null
    → (process_add_child ps parent child child).pid ≡ (ps child).pid
unfolding process_add_child set_children set_next set_prev set_parent write
add_child-pid ps parent child apart childless =
    let self = eq_refl child in
    let apart' : (child == parent) ≡ false = ground arith in
    rw (self, apart, apart', childless, self) refl

find_from-null :
    (fuel : ℕ) (links : Ptr → ProcessLink) (pid : ℕ) → find_from fuel links null pid ≡ null
unfolding find_from
find_from-null zero links pid = refl
find_from-null (suc n) links pid = refl

-- A list of one.
find_from-alone :
    (fuel : ℕ) (links : Ptr → ProcessLink) (p : Ptr) (pid : ℕ)
    → (p == null) ≡ false
    → (links p).next ≡ null
    → find_from (suc fuel) links p pid ≡ (if (links p).pid == pid then p else null)
unfolding find_from
find_from-alone n links p pid real last = elim (Bool-cases ((links p).pid == pid)) [
  | inl e ↦ rw (real, e)
  | inr e ↦ rw (real, e, last) (find_from-null n links pid)
]

-- A process without children creates a process, on fresh memory, whatever processes there were: the list
-- of processes then begins and ends with the new one, so that process_find_by_pid finds it by its pid,
-- and answers NULL for every other pid.
pub process_create-process_find_by_pid :
    (fuel : ℕ) (w : World) (p space : Ptr) (pid : ℕ)
    → (w.sched.current_process == null) ≡ false
    → (w.procs w.sched.current_process).children ≡ null
    → (w.sched.current_process == p) ≡ false
    → (p == null) ≡ false
    → (space == null) ≡ false
    → let w' = (process_create w p space).0 in
      (w'.sched.process_list ≡ p)
      × ((w'.procs p).next ≡ null)
      × (process_find_by_pid (suc fuel) (seen w') pid ≡ (if w.next_pid == pid then p else null))
unfolding process_find_by_pid process_create
process_create-process_find_by_pid fuel w p space pid here childless apart real got =
    let current = w.sched.current_process in
    let there : (current != null) ≡ true = ground arith in
    let made = record (new_process w) { memory_space = space } in
    let ps = write w.procs p made in
    let listed = enlist ps p w.sched.process_list in
    let not_new : (ps current).children ≡ null = unfold write in rw apart childless in
    let no_children : (listed current).children ≡ null =
      enlist-keeps (λ q. q.children) (λ b x. refl) (λ b x. refl) ps p w.sched.process_list current
      ∙ not_new in
    let new_pid : (listed p).pid ≡ w.next_pid =
      enlist-keeps (λ q. q.pid) (λ b x. refl) (λ b x. refl) ps p w.sched.process_list p
      ∙ (unfold write in rw (eq_refl p)) in
    let placed = process_add_child listed current p in
    let last = add_child-next listed current p apart no_children in
    let pid_is : (placed p).pid ≡ w.next_pid =
      add_child-pid listed current p apart no_children ∙ new_pid in
    let links : Ptr → ProcessLink = λ a. record { pid = (placed a).pid; next = (placed a).next } in
    rw (real, got, there)
      (
        refl,
        rw there at last,
        rw there at (
            find_from-alone fuel links p pid real last
            ∙ ap (λ x. if x == pid then p else null) pid_is),
      )
