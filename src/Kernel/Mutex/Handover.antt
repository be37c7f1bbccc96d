-- ===== src/Kernel/Mutex/Handover.antt =====
-- What happens to the threads that wait for a mutex.
use prismatic_os.Base.{
  ℕ, ◌≡◌, refl, sym, ap, ◌∙◌, ◌≢◌, true, false, not, some, List, ◌∷◌, arith, eq_false_of_ne,
}
use mathlib.Core.Path.{subst}
use prismatic_os.Kernel.Thread.{Ptr, null, Sched, set_next, thread_block, thread_unblock}
use prismatic_os.Base.Linked.{has}
use prismatic_os.Kernel.Thread.Queue.{IsQueue}
use prismatic_os.Kernel.Thread.Schedule.{
  thread_unblock-IsQueue, thread_block_unqueued, thread_block-current, schedule_idle,
}
use prismatic_os.Kernel.Mutex.{Mutex, current_tid, wait_for, mutex_lock, hand_over, mutex_unlock}

unlock_last :
    (s : Sched) (m : Mutex) (w : Ptr)
    → m.initialized ≡ true
    → m.owner ≡ current_tid s
    → m.lock_count ≡ 1
    → m.wait_queue ≡ w
    → w ≢ null
    → mutex_unlock s (some m) ≡ (
      thread_unblock s w,
      some (record m { owner = (s.threads w).tid; wait_queue = (s.threads w).next }),
      true,
    )
unfolding mutex_unlock hand_over
unlock_last s m w ok own once front ne = ground arith

-- The last unlock of the owner gives the mutex to the thread in front of the wait queue, which is
-- put in front of the ready queue.
pub mutex_unlock-hand_over :
    (s : Sched) (m : Mutex) (w : Ptr) (xs : List Ptr)
    → m.initialized ≡ true
    → m.owner ≡ current_tid s
    → m.lock_count ≡ 1
    → m.wait_queue ≡ w
    → w ≢ null
    → has w xs ≡ false
    → IsQueue s xs
    → ((mutex_unlock s (some m)).1
        ≡ some (record m { owner = (s.threads w).tid; wait_queue = (s.threads w).next }))
      × ((mutex_unlock s (some m)).2 ≡ true)
      × IsQueue (mutex_unlock s (some m)).0 (w ∷ xs)
mutex_unlock-hand_over s m w xs ok own once front ne out l =
    let last = unlock_last s m w ok own once front ne in
    (
      ap (λ r. r.1) last,
      ap (λ r. r.2) last,
      subst (λ z. IsQueue z (w ∷ xs)) (sym (ap (λ r. r.0) last))
          (thread_unblock-IsQueue s w xs ne out l),
    )

-- When the current thread has no links and the mutex belongs to another thread, mutex_lock empties
-- the ready queue: no other thread is scheduled, the one that has to wait stays current, and the
-- answer is 0.
pub mutex_lock_contended :
    (fuel : ℕ) (s : Sched) (m : Mutex)
    → m.initialized ≡ true
    → m.owner ≢ 0
    → m.owner ≢ current_tid s
    → s.current_thread ≢ null
    → (s.threads s.current_thread).next ≡ null
    → (s.threads s.current_thread).prev ≡ null
    → ((mutex_lock fuel s (some m)).0.ready_queue ≡ null)
      × ((mutex_lock fuel s (some m)).0.current_thread ≡ s.current_thread)
      × ((mutex_lock fuel s (some m)).2 ≡ true)
unfolding mutex_lock wait_for
mutex_lock_contended fuel s m ok taken other ne n p =
    let nobody = thread_block_unqueued s s.current_thread ne n p in
    let wakes : not m.initialized ≡ false = ground arith in
    let held = eq_false_of_ne m.owner 0 taken in
    let foreign = eq_false_of_ne m.owner (current_tid s) other in
    let s1 = thread_block s s.current_thread in
    let s2 = record s1 { threads = set_next s1.threads s1.current_thread m.wait_queue } in
    rw (wakes, held, foreign)
      (
        ap (λ z. z.ready_queue) (schedule_idle fuel s2 nobody) ∙ nobody,
        ap (λ z. z.current_thread) (schedule_idle fuel s2 nobody)
            ∙ thread_block-current s s.current_thread,
        refl,
      )
