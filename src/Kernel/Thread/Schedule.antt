-- ===== src/Kernel/Thread/Schedule.antt =====
-- What the scheduler runs next, and which threads stay queued.
use prismatic_os.Base.{
  ℕ, zero, suc, ◌-◌, ◌^◌, ◌<◌, ◌≡◌, refl, ap, ◌∙◌, ◌≢◌, true, false, ◌||◌, List, [], ◌∷◌, arith,
  ◌==◌, ◌!=◌, if◌then◌else◌, eq_false_of_ne,
}
use mathlib.Core.Path.{subst}
use prismatic_os.Kernel.Thread.{
  Ptr, null, Threads, ThreadState, running, ready, Sched, write, set_state, scheduler_remove_thread,
  switch_to, scheduler_schedule, scheduler_add_thread, thread_yield, thread_block, thread_unblock,
  release, thread_destroy, thread_exit, scheduler_tick,
}
use prismatic_os.Base.Linked.{has, erase}
use prismatic_os.Kernel.Thread.Queue.{Links, Links-frame, IsQueue}
use prismatic_os.Kernel.Thread.Unlink.{scheduler_remove_thread-IsQueue}
use prismatic_os.Kernel.Thread.Queue.{scheduler_add_thread-IsQueue}

-- A thread's state is no link.
pub set_state-Links :
    (th : Threads) (a : Ptr) (st : ThreadState) (q p : Ptr) (xs : List Ptr)
    → Links th q p xs
    → Links (set_state th a st) q p xs
set_state-Links th a st q p xs l =
    Links-frame th (set_state th a st) q p xs (λ b i. unfold set_state write in ground arith) l

erase_head : (x : Ptr) (xs : List Ptr) → erase x (x ∷ xs) ≡ xs
unfolding erase
erase_head x xs = ground arith

module _ (fuel : ℕ) (s : Sched) (x : Ptr) (xs : List Ptr) (l : IsQueue s (x ∷ xs)) where
  head_removed : IsQueue (scheduler_remove_thread s x) xs
  head_removed =
      subst (IsQueue (scheduler_remove_thread s x)) (erase_head x xs)
        (scheduler_remove_thread-IsQueue s x (x ∷ xs) l (ground arith)).0

  head_is_x : (s.ready_queue == null) ≡ false
  head_is_x = ground (arith, l.0, l.1)

  schedule-switch : scheduler_schedule fuel s ≡ switch_to fuel s x
  unfolding scheduler_schedule
  schedule-switch = rw head_is_x (ap (switch_to fuel s) l.0)

  after_switch :
      IsQueue (switch_to fuel s x) xs
      × ((switch_to fuel s x).current_thread ≡ x)
      × (((switch_to fuel s x).threads x).state ≡ running)
  unfolding switch_to
  after_switch = (
    set_state-Links (scheduler_remove_thread s x).threads x running null _ xs head_removed,
    refl,
    unfold set_state write in ground arith,
  )

  -- With threads ready, scheduler_schedule takes the one in front off the queue, which becomes the
  -- current thread and runs, and the others stay queued in order.
  pub scheduler_schedule_lem :
      IsQueue (scheduler_schedule fuel s) xs
      × ((scheduler_schedule fuel s).current_thread ≡ x)
      × (((scheduler_schedule fuel s).threads x).state ≡ running)
  scheduler_schedule_lem = rw schedule-switch after_switch

-- With threads ready, scheduler_schedule switches the context exactly when another thread was
-- current.
pub schedule-switches :
    (fuel : ℕ) (s : Sched) (x : Ptr) (xs : List Ptr)
    → IsQueue s (x ∷ xs)
    → (scheduler_schedule fuel s).switches ≡ (
        if (s.current_thread == null) || (s.current_thread == x)
        then s.switches
        else (s.current_thread, x) ∷ s.switches)
schedule-switches fuel s x xs l =
    rw (schedule-switch fuel s x xs l) (unfold switch_to scheduler_remove_thread in ground arith)

-- With no thread ready nothing changes.
pub schedule_idle : (fuel : ℕ) (s : Sched) → IsQueue s [] → scheduler_schedule fuel s ≡ s
unfolding scheduler_schedule
schedule_idle fuel s l = ground arith

-- A current thread that is not queued and yields is not put back into the queue: the next thread
-- runs and the queue is what was behind it.
pub thread_yield_lem :
    (fuel : ℕ) (s : Sched) (c x : Ptr) (xs : List Ptr)
    → s.current_thread ≡ c
    → c ≢ null
    → has c (x ∷ xs) ≡ false
    → IsQueue s (x ∷ xs)
    → IsQueue (thread_yield fuel s) xs
      × ((thread_yield fuel s).current_thread ≡ x)
      × (has c xs ≡ false)
unfolding thread_yield
thread_yield_lem fuel s c x xs e ne out l =
    let someone : (s.current_thread != null) ≡ true = ground arith in
    let t = record s { threads = set_state s.threads s.current_thread ready } in
    let (queue, current, runs) =
      scheduler_schedule_lem fuel t x xs
        (set_state-Links s.threads s.current_thread ready null s.ready_queue (x ∷ xs) l) in
    rw someone (queue, current, ground arith)

-- A thread that is not queued and is unblocked stands in front of the queue.
pub thread_unblock-IsQueue :
    (s : Sched) (t : Ptr) (xs : List Ptr)
    → t ≢ null
    → has t xs ≡ false
    → IsQueue s xs
    → IsQueue (thread_unblock s t) (t ∷ xs)
unfolding thread_unblock
thread_unblock-IsQueue s t xs ne out l =
    let marked = record s { threads = set_state s.threads t ready } in
    let added : scheduler_add_thread marked t ≡ thread_unblock s t = ground arith in
    subst (λ z. IsQueue z (t ∷ xs)) added
      (scheduler_add_thread-IsQueue marked t xs ne out
        (set_state-Links s.threads t ready null s.ready_queue xs l))

-- A thread with no links is taken for the head of the queue: removing it empties the queue.
unlinked_remove :
    (s : Sched) (t : Ptr)
    → t ≢ null
    → (s.threads t).next ≡ null
    → (s.threads t).prev ≡ null
    → (scheduler_remove_thread s t).ready_queue ≡ null
unfolding scheduler_remove_thread
unlinked_remove s t ne n p = ground arith

-- Blocking a thread that is not queued, such as the one that runs, loses every ready thread.
pub thread_block_unqueued :
    (s : Sched) (t : Ptr)
    → t ≢ null
    → (s.threads t).next ≡ null
    → (s.threads t).prev ≡ null
    → (thread_block s t).ready_queue ≡ null
unfolding thread_block
thread_block_unqueued s t ne n p =
    let nonnull = eq_false_of_ne t null ne in
    rw nonnull (
      unlinked_remove _ t ne (unfold set_state write in ground arith)
        (unfold set_state write in ground arith))

pub thread_block-current :
    (s : Sched) (t : Ptr) → (thread_block s t).current_thread ≡ s.current_thread
unfolding thread_block scheduler_remove_thread
thread_block-current s t = ground arith

-- When the current thread has no links, thread_exit empties the ready queue: nothing is scheduled,
-- and the thread that has been freed stays the current one.
pub thread_exit_unqueued :
    (fuel : ℕ) (s : Sched) (c : Ptr)
    → s.current_thread ≡ c
    → c ≢ null
    → (s.threads c).next ≡ null
    → (s.threads c).prev ≡ null
    → ((thread_exit fuel s).ready_queue ≡ null)
      × ((thread_exit fuel s).current_thread ≡ c)
      × ((thread_exit fuel s).allocated c ≡ false)
      × ((thread_exit fuel s).switches ≡ s.switches)
unfolding thread_exit scheduler_schedule thread_destroy scheduler_remove_thread set_state write
    release
thread_exit_unqueued fuel s c e ne n p = ground arith

-- `n` timer interrupts.
pub ticks : ℕ → ℕ → Sched → Sched
ticks fuel zero s = s
ticks fuel (suc n) s = ticks fuel n (scheduler_tick fuel s)

-- What the theorem below says of the states before and after some interrupts.
abbrev pub SameButSlice : ℕ → Ptr → Sched → Sched → Type 0
SameButSlice n c s t =
    (t.current_thread ≡ c)
    × ((t.threads c).time_slice ≡ (s.threads c).time_slice - n)
    × (t.ready_queue ≡ s.ready_queue)
    × (t.switches ≡ s.switches)

tick_within :
    (fuel : ℕ) (s : Sched) (c : Ptr)
    → s.current_thread ≡ c
    → c ≢ null
    → 1 < (s.threads c).time_slice
    → (s.threads c).time_slice < 2 ^ 64
    → SameButSlice 1 c s (scheduler_tick fuel s)
unfolding scheduler_tick write
tick_within fuel s c e ne h fits = ground arith

-- The current thread keeps the processor for as many timer interrupts as its time slice has
-- milliseconds left, less one: until then only its slice changes, and nothing is queued or
-- switched.
pub ticks_within :
    (fuel n : ℕ) (s : Sched) (c : Ptr)
    → s.current_thread ≡ c
    → c ≢ null
    → n < (s.threads c).time_slice
    → (s.threads c).time_slice < 2 ^ 64
    → SameButSlice n c s (ticks fuel n s)
unfolding ticks
ticks_within fuel zero s c e ne h fits = ground arith
ticks_within fuel (suc n) s c e ne h fits =
    let (cur, slice, queue, sw) = tick_within fuel s c e ne (omega arith) fits in
    let (cur', slice', queue', sw') =
      ticks_within fuel n (scheduler_tick fuel s) c cur ne (omega arith) (omega arith) in
    (cur', omega arith, queue' ∙ queue, sw' ∙ sw)

-- With one millisecond left the next interrupt renews the slice and yields.
pub tick_last :
    (fuel : ℕ) (s : Sched) (c : Ptr)
    → s.current_thread ≡ c
    → c ≢ null
    → (s.threads c).time_slice ≡ 1
    → scheduler_tick fuel s
      ≡ thread_yield fuel
          (record s { threads = write s.threads c (record (s.threads c) { time_slice = 10 }) })
unfolding scheduler_tick
tick_last fuel s c e ne h = ground arith
