-- ===== src/Kernel/Mutex.antt =====
-- The mutex functions of kernel/process.c. `none` is a NULL mutex; the answer `true` is 0, `false` is
-- -1. `lock_count` is a uint32_t. The current thread is not NULL where the code reads its `tid`.
pub mod Ownership
pub mod Handover
use prismatic_os.Base.{
  ℕ, zero, suc, ◌+◌, ◌-◌, ◌%◌, ◌^◌, Bool, true, false, not, Option, none, some, ◌==◌, ◌!=◌,
  if◌then◌else◌,
}
use prismatic_os.Kernel.Thread.{
  Ptr, null, Thread, Sched, set_next, thread_block, thread_unblock, scheduler_schedule,
}

pub record Mutex : Type 0 where
  pub owner : ℕ
  pub lock_count : ℕ
  pub wait_queue : Ptr
  pub initialized : Bool

abbrev pub current_tid : Sched → ℕ
current_tid s = (s.threads s.current_thread).tid

pub mutex_init : Option Mutex → Option Mutex × Bool
mutex_init none = (none, false)
mutex_init (some m) =
    (some (record { owner = 0; lock_count = 0; wait_queue = null; initialized = true }), true)

-- The thread that waits is blocked, put in front of the wait queue, and another one is scheduled.
pub wait_for : ℕ → Sched → Mutex → Sched × Mutex
wait_for fuel s m =
    let c = s.current_thread in
    let s1 = thread_block s c in
    let s2 = record s1 { threads = set_next s1.threads s1.current_thread m.wait_queue } in
    (scheduler_schedule fuel s2, record m { wait_queue = s1.current_thread })

pub mutex_lock : ℕ → Sched → Option Mutex → Sched × Option Mutex × Bool
mutex_lock fuel s none = (s, none, false)
mutex_lock fuel s (some m) =
    if not m.initialized
    then (s, some m, false)
    else if m.owner == 0
    then (s, some (record m { owner = current_tid s; lock_count = 1 }), true)
    else if m.owner == current_tid s
    then (s, some (record m { lock_count = (m.lock_count + 1) % 2 ^ 32 }), true)
    else (let (s', m') = wait_for fuel s m in (s', some m', true))

-- The lock is free: it goes to the thread in front of the wait queue, if there is one.
pub hand_over : Sched → Mutex → Sched × Mutex
hand_over s m =
    let w = m.wait_queue in
    if w == null then (s, record m { owner = 0 }) else (
      thread_unblock s w,
      record m { owner = (s.threads w).tid; lock_count = 1; wait_queue = (s.threads w).next },
    )

pub mutex_unlock : Sched → Option Mutex → Sched × Option Mutex × Bool
mutex_unlock s none = (s, none, false)
mutex_unlock s (some m) =
    let m1 = record m { lock_count = (m.lock_count + 2 ^ 32 - 1) % 2 ^ 32 } in
    if not m.initialized
    then (s, some m, false)
    else if m.owner != current_tid s
    then (s, some m, false)
    else if m1.lock_count == 0
    then (let (s', m') = hand_over s m1 in (s', some m', true))
    else (s, some m1, true)

pub mutex_trylock : Sched → Option Mutex → Option Mutex × Bool
mutex_trylock s none = (none, false)
mutex_trylock s (some m) =
    if not m.initialized
    then (some m, false)
    else if m.owner == 0
    then (some (record m { owner = current_tid s; lock_count = 1 }), true)
    else (some m, false)

-- The walk of mutex_destroy over the waiting threads, with fuel.
wake_all : ℕ → Sched → Ptr → Sched
wake_all zero s w = s
wake_all (suc n) s w =
    let rest = wake_all n (thread_unblock s w) (s.threads w).next in if w == null then s else rest

pub mutex_destroy : ℕ → Sched → Option Mutex → Sched × Option Mutex
unfolding wake_all
mutex_destroy fuel s none = (s, none)
mutex_destroy fuel s (some m) =
    (wake_all fuel s m.wait_queue, some (record m { initialized = false }))
