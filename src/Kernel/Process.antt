-- ===== src/Kernel/Process.antt =====
-- Processes and signals of kernel/process.c. Processes live at addresses in a store, as threads do.
-- Their list and the current process are fields of the scheduler's state, which sees of a process its
-- pid and its link. kmalloc and mm_create_space return what an argument says. `freed` has the
-- processes given to kfree, the last one first, `calls` the calls of signal handlers, the first one
-- first: a handler is code of the process, and what it does to the world is a parameter;
-- mm_destroy_space changes nothing here. The bits of pending_signals are a list, the lowest one first. A signal number is not
-- negative. The descriptors, the times and the user of a process, which no function reads, are left
-- out.
pub mod Signals
pub mod Handling
pub mod Creation
pub mod Links
pub mod Waiting
mod Tests
use prismatic_os.Base.{
  ℕ, zero, suc, ◌+◌, ◌-◌, ◌*◌, ◌/◌, ◌%◌, ◌^◌, ◌≤◌, ◌<◌, bit_and, bit_or, bit_xor, ◌≡◌, refl, sym,
  ap, ◌∙◌, ◌≢◌, ◌↔◌, ◌⊎◌, inl, inr, Bool, true, false, not, ◌&&◌, ◌||◌, Option, none, some, List,
  [], ◌∷◌, ◌++◌, map, append-nil, append_assoc, arith, ltb, leb, ◌==◌, ◌!=◌, if◌then◌else◌, ltb→lt,
  lt→ltb, leb→le, ==_iff, eq_refl, eq_false_of_ne, Bool-cases, Option-cases, is_some, Bytes, codes,
  length, get_elem?, get_or, set, take, drop, replicate, length-append, length-set,
  take-append-drop, length-take, length-drop, length-replicate, take-length, take-append,
  drop-append, get_elem?-append_left, get_elem?-append_right, get_elem?-take, get_elem?-drop,
}
use prismatic_os.Kernel.Thread.{
  Ptr, null, Sched, ProcessLink, scheduler_schedule, thread_sleep, thread_create,
  scheduler_add_thread,
}

pub data ProcState : Type 0 where
  proc_running proc_sleeping proc_terminated proc_zombie : ProcState

pub record Process : Type 0 where
  pub pid : ℕ
  pub ppid : ℕ
  pub state : ProcState
  pub exit_code : ℕ
  pub memory_space : Ptr
  pub signal_handlers : ℕ → Ptr
  pub pending_signals : List Bool
  pub parent : Ptr
  pub children : Ptr
  pub next : Ptr
  pub prev : Ptr

abbrev pub Procs : Type 0
Procs = Ptr → Process

pub record World : Type 0 where
  pub procs : Procs
  pub sched : Sched
  pub next_pid : ℕ
  pub freed : List Ptr
  pub calls : List (Ptr × ℕ)

unfoldable pub write : Procs → Ptr → Process → Procs
write ps p q a = if a == p then q else ps a

unfoldable pub set_next : Procs → Ptr → Ptr → Procs
set_next ps p q = write ps p (record (ps p) { next = q })

unfoldable pub set_prev : Procs → Ptr → Ptr → Procs
set_prev ps p q = write ps p (record (ps p) { prev = q })

unfoldable pub set_parent : Procs → Ptr → Ptr → Procs
set_parent ps p q = write ps p (record (ps p) { parent = q })

unfoldable pub set_children : Procs → Ptr → Ptr → Procs
set_children ps p q = write ps p (record (ps p) { children = q })

-- The scheduler's view of the processes.
abbrev pub seen : World → Sched
seen w = record w.sched {
  processes = λ a. record { pid = (w.procs a).pid; next = (w.procs a).next };
}

-- A call of scheduler_schedule.
abbrev pub reschedule : ℕ → World → World
reschedule walk w = record w { sched = scheduler_schedule walk (seen w) }

pub process_init : World → World
process_init w = record w {
  sched = record w.sched {
    process_list = null;
    ready_queue = null;
    current_thread = null;
    current_process = null;
    next_tid = 1;
  };
  next_pid = 1;
}

unfoldable pub process_add_child : Procs → (parent child : Ptr) → Procs
process_add_child ps parent child =
    let ps1 = set_parent ps child parent in
    let ps2 = set_next ps1 child (ps1 parent).children in
    let first = (ps2 parent).children in
    let ps3 = if first != null then set_prev ps2 first child else ps2 in
    set_prev (set_children ps3 parent child) child null

unfoldable pub process_remove_child : Procs → (parent child : Ptr) → Procs
process_remove_child ps parent child =
    let before = (ps child).prev in
    let ps1 =
      if before != null
      then set_next ps before (ps child).next
      else set_children ps parent (ps child).next in
    let after = (ps1 child).next in
    let ps2 = if after != null then set_prev ps1 after (ps1 child).prev else ps1 in
    set_parent ps2 child null

-- The process that memset and the assignments make.
abbrev pub new_process : World → Process
new_process w = record {
  pid = w.next_pid;
  ppid = if w.sched.current_process != null then (w.procs w.sched.current_process).pid else 0;
  state = proc_running;
  exit_code = 0;
  memory_space = null;
  signal_handlers = λ signum. null;
  pending_signals = replicate 32 false;
  parent = null;
  children = null;
  next = null;
  prev = null;
}

-- The new process in front of the list.
unfoldable pub enlist : Procs → Ptr → Ptr → Procs
enlist ps p first =
    let ps1 = set_next ps p first in
    let ps2 = if first != null then set_prev ps1 first p else ps1 in set_prev ps2 p null

-- `p` is the answer of kmalloc and `space` that of mm_create_space.
unfoldable pub process_create : World → (p space : Ptr) → World × Ptr
process_create w p space =
    let w1 = record w {
      procs = write w.procs p (record (new_process w) { memory_space = space });
      next_pid = (w.next_pid + 1) % 2 ^ 32;
    } in
    let listed = enlist w1.procs p w.sched.process_list in
    let current = w.sched.current_process in
    let placed = if current != null then process_add_child listed current p else listed in
    if p == null
    then (w, null)
    else if space == null
    then (record w1 { freed = p ∷ w.freed }, null)
    else (record w1 { procs = placed; sched = record w.sched { process_list = p } }, p)

-- The links around a process in the list of processes.
unfoldable pub delist : Procs → Ptr → Procs
delist ps p =
    let before = (ps p).prev in
    let ps1 = if before != null then set_next ps before (ps p).next else ps in
    let after = (ps1 p).next in if after != null then set_prev ps1 after (ps1 p).prev else ps1

-- The loop over the children, given what destroys one.
unfoldable pub destroy_children : (World → Ptr → World) → ℕ → World → Ptr → World
destroy_children destroy zero w child = w
destroy_children destroy (suc n) w child =
    let next = (w.procs child).next in
    let rest = destroy_children destroy n (destroy w child) next in
    if child == null then w else rest

unfoldable pub process_destroy : ℕ → World → Ptr → World
process_destroy zero w p = w
process_destroy (suc n) w p =
    let first = if (w.procs p).prev != null then w.sched.process_list else (w.procs p).next in
    let ps1 = delist w.procs p in
    let parent = (ps1 p).parent in
    let ps2 = if parent != null then process_remove_child ps1 parent p else ps1 in
    let w1 = record w { procs = ps2; sched = record w.sched { process_list = first } } in
    let w2 = destroy_children (process_destroy n) n w1 (ps2 p).children in
    if p == null then w else record w2 { freed = p ∷ w2.freed }

unfoldable pub set_handlers : Procs → Ptr → (ℕ → Ptr) → Procs
set_handlers ps p handlers = write ps p (record (ps p) { signal_handlers = handlers })

-- `mem` and `stack` are what thread_create gets from kmalloc. The answer `none` is -1.
pub process_fork : ℕ → World → (p space mem stack : Ptr) → World × Option ℕ
process_fork n w p space mem stack =
    let (w1, child) = process_create w p space in
    let current = w1.sched.current_process in
    let w2 = record w1 { procs = set_handlers w1.procs child (w1.procs current).signal_handlers } in
    let (s, thread) = thread_create mem stack null (some (w2.procs child).pid) null w2.sched in
    let copied = record s {
      threads = λ a.
          if a == thread
          then record (s.threads a) { context = (s.threads s.current_thread).context }
          else s.threads a;
    } in
    if w.sched.current_process == null
    then (w, none)
    else if child == null
    then (w1, none)
    else if thread == null
    then (process_destroy n (record w2 { sched = s }) child, none)
    else (record w2 { sched = scheduler_add_thread copied thread }, some (w2.procs child).pid)

pub process_execve : World → World × Bool
process_execve w = (w, false)

-- The place of the lowest bit that is set, which is what __builtin_ctz counts.
unfoldable pub lowest_bit : List Bool → Option ℕ
lowest_bit [] = none
lowest_bit (true ∷ bs) = some 0
lowest_bit (false ∷ bs) = elim (lowest_bit bs) [ none ↦ none | some k ↦ some (suc k) ]

unfoldable pub set_pending : Procs → Ptr → ℕ → Bool → Procs
set_pending ps p k b =
    write ps p (record (ps p) { pending_signals = set (ps p).pending_signals k b })

unfoldable pub set_state : Procs → Ptr → ProcState → Procs
set_state ps p st = write ps p (record (ps p) { state = st })

abbrev pub is_running : ProcState → Bool
is_running proc_running = true
is_running _ = false

abbrev pub is_sleeping : ProcState → Bool
is_sleeping proc_sleeping = true
is_sleeping _ = false

-- The functions call each other: the first argument handles the pending signals of a process.
module _ (handle : World → Ptr → World) (walk : ℕ) where
  unfoldable pub send_signal_with : World → Ptr → (signum : ℕ) → World
  send_signal_with w p signum =
      let w1 = record w { procs = set_pending w.procs p (signum - 1) true } in
      if (p == null) || ltb signum 1 || ltb 31 signum
      then w
      else if is_running (w1.procs p).state
      then handle w1 p
      else w1

  unfoldable pub exit_with : World → Ptr → (status : ℕ) → World
  exit_with w p status =
      let w1 = record w {
        procs = write w.procs p (record (w.procs p) { state = proc_zombie; exit_code = status });
      } in
      let parent = (w1.procs p).parent in
      let w2 = if parent != null then send_signal_with w1 parent 17 else w1 in
      if p == null then w else if p == w2.sched.current_process then reschedule walk w2 else w2

  unfoldable pub default_action : World → Ptr → (signum : ℕ) → World
  default_action w p signum =
      if (signum == 15) || (signum == 2)
      then exit_with w p signum
      else if signum == 9
      then record w { procs = set_state w.procs p proc_terminated }
      else if signum == 19
      then record w { procs = set_state w.procs p proc_sleeping }
      else if signum == 20
      then (if is_sleeping (w.procs p).state
          then record w { procs = set_state w.procs p proc_running }
          else w)
      else w

  -- The handler is code of the program: what it does to the world is a parameter.
  unfoldable pub act : (World → Ptr → ℕ → World) → World → Ptr → (signum : ℕ) → World
  act handler w p signum =
      if (w.procs p).signal_handlers signum != null
      then handler (record w { calls = w.calls ++ ((p, signum) ∷ []) }) p signum
      else default_action w p signum

module _ (handler : World → Ptr → (signum : ℕ) → World) (walk : ℕ) where
  -- The loop; a round clears a bit.
  unfoldable pub process_handle_signals : ℕ → World → Ptr → World
  process_handle_signals zero w p = w
  process_handle_signals (suc n) w p =
      let handled : World = elim (lowest_bit (w.procs p).pending_signals) [
        | none ↦ w
        | some k ↦
            let w1 = record w { procs = set_pending w.procs p k false } in
            process_handle_signals n (act (process_handle_signals n) walk handler w1 p (suc k)) p
      ] in
      if p == null then w else handled

  pub process_send_signal : ℕ → World → Ptr → (signum : ℕ) → World
  process_send_signal n w p signum = send_signal_with (process_handle_signals n) walk w p signum

  pub process_exit : ℕ → World → Ptr → (status : ℕ) → World
  process_exit n w p status = exit_with (process_handle_signals n) walk w p status

abbrev pub is_zombie : ProcState → Bool
is_zombie proc_zombie = true
is_zombie _ = false

-- The loop that sleeps until the child is a zombie: `others` is what the other processes do until the
-- thread runs again. `none` where the fuel runs out.
unfoldable pub sleep_until :
    (others : World → World) → (walk : ℕ) → ℕ → World → (child : Ptr) → Option World
sleep_until others walk zero w child = none
sleep_until others walk (suc n) w child =
    let slept = others (record w { sched = thread_sleep walk (seen w) }) in
    let later = sleep_until others walk n slept child in
    if is_zombie (w.procs child).state then some w else later

-- The end of process_waitpid, with the pid read from memory that has been freed, and the status.
unfoldable pub reap : ℕ → World → (child : Ptr) → World × Option (ℕ × ℕ)
reap n w child =
    let status = (w.procs child).exit_code in
    let w1 = record w { procs = process_remove_child w.procs w.sched.current_process child } in
    let w2 = process_destroy n w1 child in (w2, some ((w2.procs child).pid, status))

-- The walk over the children; the pid 2^32 - 1 is -1 and stands for all of them.
unfoldable pub wait_from :
    (others : World → World)
    → (walk : ℕ) → ℕ
    → World
    → (child : Ptr) → (pid : ℕ) → Option (World × Option (ℕ × ℕ))
wait_from others walk zero w child pid = none
wait_from others walk (suc n) w child pid =
    let next = wait_from others walk n w (w.procs child).next pid in
    let waited : Option (World × Option (ℕ × ℕ)) = elim (sleep_until others walk n w child) [
      | none ↦ none
      | some w' ↦ some (reap n w' child)
    ] in
    if child == null
    then some (w, none)
    else if ((w.procs child).pid == pid) || (pid == 2 ^ 32 - 1)
    then waited
    else next

-- The pid and the status, or `none` for -1.
unfoldable pub process_waitpid :
    (others : World → World) → (walk : ℕ) → ℕ → World → (pid : ℕ) → Option (World × Option (ℕ × ℕ))
process_waitpid others walk n w pid =
    let current = w.sched.current_process in
    if current == null
    then some (w, none)
    else wait_from others walk n w (w.procs current).children pid
