-- ===== src/Kernel/Thread.antt =====
-- The threads and the scheduler of kernel/process.c. Threads live at addresses in an explicit store,
-- so aliased links behave as in C; the static variables are the other fields. Freed memory keeps its
-- last contents. The walk over the process list takes fuel. Fields of a thread that no function here
-- reads are left out, and so is the switch of the address space, which is the processor's state.
pub mod Queue
pub mod Unlink
pub mod Schedule
use prismatic_os.Base.{
  ℕ, zero, suc, ◌+◌, ◌-◌, ◌%◌, ◌^◌, Bool, true, false, ◌&&◌, Option, none, some, List, ◌∷◌, ◌==◌,
  ◌!=◌, if◌then◌else◌,
}

abbrev pub Ptr : Type 0
Ptr = ℕ

abbrev pub null : Ptr
null = 0

pub data ThreadState : Type 0 where
  running ready blocked terminated : ThreadState

-- The registers that fork copies.
pub record Context : Type 0 where
  pub rip : ℕ
  pub rsp : ℕ
  pub rbx : ℕ
  pub rbp : ℕ
  pub r12 : ℕ
  pub r13 : ℕ
  pub r14 : ℕ
  pub r15 : ℕ

pub record Thread : Type 0 where
  pub tid : ℕ
  pub pid : ℕ
  pub state : ThreadState
  pub stack_base : Ptr
  pub stack_top : Ptr
  pub context : Context
  pub priority : ℕ
  pub time_slice : ℕ
  pub next : Ptr
  pub prev : Ptr

-- What the scheduler reads of a process.
pub record ProcessLink : Type 0 where
  pub pid : ℕ
  pub next : Ptr

abbrev pub Threads : Type 0
Threads = Ptr → Thread

-- `allocated` tells which addresses hold a thread or a stack that has not been freed, `switches` is
-- the list of the calls of context_switch, the last one first.
pub record Sched : Type 0 where
  pub threads : Threads
  pub processes : Ptr → ProcessLink
  pub process_list : Ptr
  pub ready_queue : Ptr
  pub current_thread : Ptr
  pub current_process : Ptr
  pub next_tid : ℕ
  pub allocated : Ptr → Bool
  pub switches : List (Ptr × Ptr)

unfoldable pub write : Threads → Ptr → Thread → Threads
write th p t a = if a == p then t else th a

-- thread->next = q and thread->prev = q
unfoldable pub set_next : Threads → Ptr → Ptr → Threads
unfolding write
set_next th p q = write th p (record (th p) { next = q })

unfoldable pub set_prev : Threads → Ptr → Ptr → Threads
unfolding write
set_prev th p q = write th p (record (th p) { prev = q })

unfoldable pub set_state : Threads → Ptr → ThreadState → Threads
unfolding write
set_state th p st = write th p (record (th p) { state = st })

pub scheduler_init : Sched → Sched
scheduler_init s = record s { ready_queue = null; current_thread = null }

pub scheduler_add_thread : Sched → Ptr → Sched
scheduler_add_thread s t =
    let linked = set_prev (set_next s.threads t s.ready_queue) t null in
    if t == null then s else record s {
      threads = if s.ready_queue != null then set_prev linked s.ready_queue t else linked;
      ready_queue = t;
    }

-- The links around a thread, and then its own, as scheduler_remove_thread leaves them.
unfoldable pub unlink : Threads → Ptr → Threads
unlink th t =
    let p = (th t).prev in
    let th1 = if p != null then set_next th p (th t).next else th in
    let n = (th1 t).next in
    let th2 = if n != null then set_prev th1 n (th1 t).prev else th1 in
    set_prev (set_next th2 t null) t null

pub scheduler_remove_thread : Sched → Ptr → Sched
scheduler_remove_thread s t = if t == null then s else record s {
  threads = unlink s.threads t;
  ready_queue = if (s.threads t).prev != null then s.ready_queue else (s.threads t).next;
}

-- The walk of process_find_by_pid with fuel.
unfoldable pub find_from : ℕ → (Ptr → ProcessLink) → Ptr → ℕ → Ptr
find_from zero ps p pid = null
find_from (suc n) ps p pid =
    let rest = find_from n ps (ps p).next pid in
    if p == null then null else if (ps p).pid == pid then p else rest

unfoldable pub process_find_by_pid : ℕ → Sched → ℕ → Ptr
unfolding find_from
process_find_by_pid fuel s pid = find_from fuel s.processes s.process_list pid

-- What scheduler_schedule does with the thread that it takes off the queue.
pub switch_to : ℕ → Sched → Ptr → Sched
switch_to fuel s next_thread =
    let s1 = scheduler_remove_thread s next_thread in
    let prev_thread = s1.current_thread in
    record s1 {
      current_thread = next_thread;
      current_process = process_find_by_pid fuel s1 (s1.threads next_thread).pid;
      threads = set_state s1.threads next_thread running;
      switches =
          if (prev_thread != null) && (prev_thread != next_thread)
          then (prev_thread, next_thread) ∷ s1.switches
          else s1.switches;
    }

-- With no thread ready the processor halts until the next interrupt and nothing changes.
pub scheduler_schedule : ℕ → Sched → Sched
scheduler_schedule fuel s = if s.ready_queue == null then s else switch_to fuel s s.ready_queue

pub scheduler_start : ℕ → Sched → Sched
scheduler_start fuel s = scheduler_schedule fuel s

pub thread_yield : ℕ → Sched → Sched
thread_yield fuel s = scheduler_schedule fuel (
    if s.current_thread != null
    then record s { threads = set_state s.threads s.current_thread ready }
    else s)

pub thread_sleep : ℕ → Sched → Sched
thread_sleep fuel s =
    if s.current_thread == null
    then s
    else scheduler_schedule fuel
        (record s { threads = set_state s.threads s.current_thread blocked })

pub thread_block : Sched → Ptr → Sched
thread_block s t =
    if t == null
    then s
    else scheduler_remove_thread (record s { threads = set_state s.threads t blocked }) t

pub thread_unblock : Sched → Ptr → Sched
thread_unblock s t =
    if t == null
    then s
    else scheduler_add_thread (record s { threads = set_state s.threads t ready }) t

-- `priority` is a uint8_t.
pub thread_set_priority : Sched → Ptr → ℕ → Sched
thread_set_priority s t priority = if t == null then s else record s {
  threads = write s.threads t (record (s.threads t) { priority = priority % 256 });
}

-- kfree
unfoldable pub release : (Ptr → Bool) → Ptr → Ptr → Bool
release live p a = if a == p then false else live a

unfoldable pub acquire : (Ptr → Bool) → Ptr → Ptr → Bool
acquire live p a = if a == p then true else live a

pub thread_destroy : Sched → Ptr → Sched
thread_destroy s t =
    let base = (s.threads t).stack_base in
    if t == null then s else record s {
      allocated = release (if base != null then release s.allocated base else s.allocated) t;
    }

pub thread_exit : ℕ → Sched → Sched
thread_exit fuel s =
    let c = s.current_thread in
    if c == null
    then s
    else scheduler_schedule fuel (
        thread_destroy
          (scheduler_remove_thread (record s { threads = set_state s.threads c terminated }) c) c)

-- `time_slice` is a uint64_t: `<= 0` holds at 0 only, and below 0 it wraps.
pub scheduler_tick : ℕ → Sched → Sched
scheduler_tick fuel s =
    let c = s.current_thread in
    let left = ((s.threads c).time_slice + 2 ^ 64 - 1) % 2 ^ 64 in
    if c == null
    then s
    else if left == 0
    then thread_yield fuel
        (record s { threads = write s.threads c (record (s.threads c) { time_slice = 10 }) })
    else record s { threads = write s.threads c (record (s.threads c) { time_slice = left }) }

-- `mem` and `stack` are what kmalloc returns for the thread and its stack; the stack has 64 KiB.
-- `entry` is the address of thread_entry_wrapper; the three words that are pushed are not modelled,
-- only the stack pointer below them.
pub thread_create :
    (mem stack entry : Ptr) → (owner : Option ℕ) → (start_routine : Ptr) → Sched → Sched × Ptr
thread_create mem stack entry none start_routine s = (s, null)
thread_create mem stack entry (some pid) start_routine s =
    let top = (stack + 0x10000) % 2 ^ 64 in
    let rsp = (top + 2 ^ 64 - 8) % 2 ^ 64 in
    let context : Context = record {
      rip = if start_routine != null then entry else 0;
      rsp = if start_routine != null then (rsp + 2 ^ 64 - 24) % 2 ^ 64 else rsp;
      rbx = 0;
      rbp = 0;
      r12 = 0;
      r13 = 0;
      r14 = 0;
      r15 = 0;
    } in
    let thread : Thread = record {
      tid = s.next_tid;
      pid = pid;
      state = ready;
      stack_base = stack;
      stack_top = top;
      context = context;
      priority = 5;
      time_slice = 10;
      next = null;
      prev = null;
    } in
    let counted = record s { next_tid = (s.next_tid + 1) % 2 ^ 32 } in
    if mem == null then (s, null) else if stack == null then (counted, null) else (
      record counted {
        threads = write s.threads mem thread;
        allocated = acquire (acquire s.allocated mem) stack;
      },
      mem,
    )
