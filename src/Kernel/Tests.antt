-- ===== src/Kernel/Tests.antt =====
-- Runs of the scheduler, the mutexes and the file system on concrete states.
use prismatic_os.Base.{
  ℕ, ◌≡◌, refl, true, false, none, some, [], ◌∷◌, arith, ltb, ◌==◌, if◌then◌else◌, codes,
}
use prismatic_os.Kernel.Thread.{
  null, running, ready, Context, Thread, Threads, Sched, scheduler_remove_thread,
  scheduler_schedule, thread_exit,
}
use prismatic_os.Base.Linked.{erase}
use prismatic_os.Kernel.Thread.Queue.{IsQueue}
use prismatic_os.Kernel.Thread.Unlink.{scheduler_remove_thread-IsQueue}
use prismatic_os.Kernel.Thread.Schedule.{scheduler_schedule_lem, thread_exit_unqueued}
use prismatic_os.Kernel.Mutex.{Mutex, mutex_lock, mutex_unlock}
use prismatic_os.Kernel.Mutex.Ownership.{locks, unlocks, unlocks-locks}
use prismatic_os.Kernel.Mutex.Handover.{mutex_unlock-hand_over, mutex_lock_contended}
use prismatic_os.Kernel.Fs.Node.{VfsNode, Tree}
use prismatic_os.Kernel.Fs.File.{memfs_write}
use prismatic_os.Kernel.Fs.File.ReadWrite.{Written, memfs_write-memfs_read}
use prismatic_os.Kernel.Fs.Descriptor.{FdTable, set_fd, new_descriptor}

abbrev no_context : Context
no_context = record { rip = 0; rsp = 0; rbx = 0; rbp = 0; r12 = 0; r13 = 0; r14 = 0; r15 = 0 }

abbrev linked : (tid next prev : ℕ) → Thread
linked tid next prev = record {
  tid = tid;
  pid = 1;
  state = ready;
  stack_base = 0;
  stack_top = 0;
  context = no_context;
  priority = 0;
  time_slice = 10;
  next = next;
  prev = prev;
}

-- Threads 10 and 20 are ready, in this order, and thread 30 runs.
abbrev two_threads : Threads
two_threads a = if a == 10 then linked 1 20 0 else if a == 20 then linked 2 0 10 else linked 3 0 0

abbrev two_ready : Sched
two_ready = record {
  threads = two_threads;
  processes = λ p. record { pid = 0; next = 0 };
  process_list = 0;
  ready_queue = 10;
  current_thread = 30;
  current_process = 0;
  next_tid = 4;
  allocated = λ a. true;
  switches = [];
}

two_ready-IsQueue : IsQueue two_ready (10 ∷ 20 ∷ [])
two_ready-IsQueue = (refl, omega arith, refl, refl, (refl, omega arith, refl, refl, refl))

scheduler_remove_thread-IsQueue_example :
    IsQueue (scheduler_remove_thread two_ready 20) (erase 20 (10 ∷ 20 ∷ []))
    × (((scheduler_remove_thread two_ready 20).threads 20).next ≡ null)
    × (((scheduler_remove_thread two_ready 20).threads 20).prev ≡ null)
scheduler_remove_thread-IsQueue_example =
    scheduler_remove_thread-IsQueue two_ready 20 (10 ∷ 20 ∷ []) two_ready-IsQueue refl

scheduler_schedule_lem_example :
    IsQueue (scheduler_schedule 5 two_ready) (20 ∷ [])
    × ((scheduler_schedule 5 two_ready).current_thread ≡ 10)
    × (((scheduler_schedule 5 two_ready).threads 10).state ≡ running)
scheduler_schedule_lem_example = scheduler_schedule_lem 5 two_ready 10 (20 ∷ []) two_ready-IsQueue

thread_exit_unqueued_example :
    ((thread_exit 5 two_ready).ready_queue ≡ null)
    × ((thread_exit 5 two_ready).current_thread ≡ 30)
    × ((thread_exit 5 two_ready).allocated 30 ≡ false)
    × ((thread_exit 5 two_ready).switches ≡ two_ready.switches)
thread_exit_unqueued_example = thread_exit_unqueued 5 two_ready 30 refl (omega arith) refl refl

-- Thread 30 holds this mutex once, and thread 40 waits for it.
abbrev held : Mutex
held = record { owner = 3; lock_count = 1; wait_queue = 40; initialized = true }

abbrev free_mutex : Mutex
free_mutex = record { owner = 0; lock_count = 0; wait_queue = null; initialized = true }

-- Thread 10 holds this one.
abbrev foreign : Mutex
foreign = record { owner = 1; lock_count = 1; wait_queue = null; initialized = true }

unlocks-locks_example :
    (locks 5 7 two_ready (some held) ≡ (two_ready, some (record held { lock_count = 8 })))
    × (unlocks 7 two_ready (some (record held { lock_count = 8 })) ≡ (two_ready, some held))
unlocks-locks_example =
    unlocks-locks 5 two_ready 7 held refl refl (omega arith) (omega arith) (omega arith)

mutex_unlock-hand_over_example :
    ((mutex_unlock two_ready (some held)).1 ≡ some (record held { owner = 3; wait_queue = 0 }))
    × ((mutex_unlock two_ready (some held)).2 ≡ true)
    × IsQueue (mutex_unlock two_ready (some held)).0 (40 ∷ 10 ∷ 20 ∷ [])
mutex_unlock-hand_over_example =
    mutex_unlock-hand_over two_ready held 40 (10 ∷ 20 ∷ []) refl refl refl refl (omega arith) refl
      two_ready-IsQueue

mutex_lock_contended_example :
    ((mutex_lock 5 two_ready (some foreign)).0.ready_queue ≡ null)
    × ((mutex_lock 5 two_ready (some foreign)).0.current_thread ≡ 30)
    × ((mutex_lock 5 two_ready (some foreign)).2 ≡ true)
mutex_lock_contended_example =
    mutex_lock_contended 5 two_ready foreign refl (omega arith) (omega arith) (omega arith) refl
      refl

-- A file of four bytes.
abbrev four_bytes : VfsNode
four_bytes = record {
  name = codes "abcd";
  inode = 0;
  mode = 0;
  size = 4;
  parent = 0;
  children = 0;
  next = 0;
  ops = none;
  content = some (codes "abcd");
}

-- A write of three bytes at offset 3 makes it six bytes long.
memfs_write-memfs_read_example :
    Written four_bytes (codes "xyz") 3 (memfs_write (some (λ i. 7)) four_bytes (codes "xyz") 3)
memfs_write-memfs_read_example =
    memfs_write-memfs_read (λ i. 7) four_bytes (codes "xyz") 3 refl (omega arith) (omega arith)
      (omega arith) (omega arith)

abbrev one_node : Tree
one_node = record { nodes = λ p. four_bytes; live = λ p. true; vfs_root = 1 }

-- Descriptors 0 to 2 are in use.
abbrev three_open : FdTable
three_open i = if ltb i 3 then some (new_descriptor i) else none

abbrev four_open : FdTable
four_open = set_fd three_open 3 (some (new_descriptor 3))
