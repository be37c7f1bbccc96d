-- ===== src/Kernel/Process/Waiting.antt =====
-- Waiting for a child that has exited.
use prismatic_os.Base.{
  ℕ, suc, ◌-◌, ◌^◌, ◌≡◌, refl, ap, ◌∙◌, Bool, true, false, ◌||◌, some, List, ◌∷◌, ◌==◌,
}
use prismatic_os.Kernel.Thread.{Ptr, null}
use prismatic_os.Kernel.Process.{
  World, is_zombie, sleep_until, reap, wait_from, process_waitpid, process_remove_child,
  process_destroy,
}
use prismatic_os.Kernel.Process.Links.{remove_child-keeps, process_destroy-keeps}

-- What is read of the child behind its destruction.
reap-pid :
    (n : ℕ) (w : World) (child : Ptr)
    → (reap n w child).1 ≡ some ((w.procs child).pid, (w.procs child).exit_code)
unfolding reap
reap-pid n w child =
    let current = w.sched.current_process in
    let w1 : World = record w { procs = process_remove_child w.procs current child } in
    ap (λ x. some (x, (w.procs child).exit_code))
      (process_destroy-keeps (λ q. q.pid) (λ b x. refl) (λ b x. refl) (λ b x. refl) (λ b x. refl) n
          w1 child child
        ∙ remove_child-keeps (λ q. q.pid) (λ b x. refl) (λ b x. refl) (λ b x. refl) (λ b x. refl)
            w.procs current child child)

reap-freed :
    (n : ℕ) (w : World) (child : Ptr)
    → (child == null) ≡ false
    → (others : List Ptr) × ((reap (suc n) w child).0.freed ≡ child ∷ others)
unfolding reap process_destroy
reap-freed n w child real = rw real (_, refl)

-- Whether a process waits for a child of this pid.
abbrev waits_for : (pid child_pid : ℕ) → Bool
waits_for pid child_pid = (child_pid == pid) || (pid == 2 ^ 32 - 1)

-- A process that waits for its first child, by the child's pid or by -1, when that child is a zombie:
-- process_waitpid returns at once, with the child's pid and exit code, and the child is freed.
pub process_waitpid_lem :
    (others : World → World) (walk n : ℕ) (w : World) (pid : ℕ)
    → let child = (w.procs w.sched.current_process).children in
      (w.sched.current_process == null) ≡ false
      → (child == null) ≡ false
      → waits_for pid (w.procs child).pid ≡ true
      → is_zombie (w.procs child).state ≡ true
      → (w' : World) × (process_waitpid others walk (suc (suc n)) w pid
          ≡ some (w', some ((w.procs child).pid, (w.procs child).exit_code)))
        × (rest : List Ptr) × (w'.freed ≡ child ∷ rest)
unfolding process_waitpid wait_from sleep_until
process_waitpid_lem others walk n w pid here real meant zombie =
    let child = (w.procs w.sched.current_process).children in
    let (rest, freed) = reap-freed n w child real in
    (
      (reap (suc n) w child).0,
      rw (here, real, meant, zombie)
          (ap (λ r. some ((reap (suc n) w child).0, r)) (reap-pid (suc n) w child)),
      rest,
      freed,
    )
