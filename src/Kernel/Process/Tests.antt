-- ===== src/Kernel/Process/Tests.antt =====
-- Uses of the theorems about processes on concrete inputs.
use prismatic_os.Base.{
  ℕ, ◌-◌, ◌^◌, ◌≡◌, refl, true, false, some, List, [], ◌∷◌, ◌++◌, arith, ◌==◌, if◌then◌else◌,
  replicate,
}
use prismatic_os.Kernel.Thread.{Ptr, null, Thread, ready, process_find_by_pid}
use prismatic_os.Kernel.Process.{
  ProcState, proc_running, proc_sleeping, proc_zombie, Process, World, seen, process_create,
  process_send_signal, process_waitpid,
}
use prismatic_os.Kernel.Process.Waiting.{process_waitpid_lem}
use prismatic_os.Kernel.Process.Signals.{signals_from}
use prismatic_os.Kernel.Process.Handling.{
  Considerate, send_all, process_send_signal_lem, process_send_signal-asleep,
}
use prismatic_os.Kernel.Process.Creation.{process_create-process_find_by_pid}

abbrev no_thread : Thread
no_thread = record {
  tid = 1;
  pid = 1;
  state = ready;
  stack_base = 0;
  stack_top = 0;
  context = record { rip = 0; rsp = 0; rbx = 0; rbp = 0; r12 = 0; r13 = 0; r14 = 0; r15 = 0 };
  priority = 0;
  time_slice = 10;
  next = 0;
  prev = 0;
}

-- Signal 10 has a handler and signal 12 is pending.
abbrev some_process : ProcState → Process
some_process st = record {
  pid = 1;
  ppid = 0;
  state = st;
  exit_code = 0;
  memory_space = 500;
  signal_handlers = λ signum. if signum == 10 then 700 else 0;
  pending_signals = replicate 11 false ++ (true ∷ replicate 20 false);
  parent = 0;
  children = 0;
  next = 0;
  prev = 0;
}

-- Process 100 is the current one, and the only one.
abbrev one_process : ProcState → World
one_process st = record {
  procs = λ a. some_process st;
  sched = record {
    threads = λ a. no_thread;
    processes = λ a. record { pid = 0; next = 0 };
    process_list = 100;
    ready_queue = 0;
    current_thread = 0;
    current_process = 100;
    next_tid = 2;
    allocated = λ a. true;
    switches = [];
  };
  next_pid = 2;
  freed = [];
  calls = [];
}

-- A handler that ends every other process.
abbrev handler : World → Ptr → (signum : ℕ) → World
handler w p signum = record w {
  procs = λ a. if a == p then w.procs a else record (w.procs a) { state = proc_zombie };
}

handler-Considerate : Considerate handler 100
handler-Considerate w signum = (refl, refl)

process_send_signal_lem_example :
    let w' = process_send_signal handler 5 40 (one_process proc_running) 100 10 in
    (signals_from 1 (w'.procs 100).pending_signals ≡ [])
    × (w'.calls ≡ (100, 10) ∷ [])
    × ((w'.procs 100).state ≡ proc_running)
process_send_signal_lem_example =
    process_send_signal_lem handler 5 40 (one_process proc_running) 100 refl handler-Considerate 10
      refl refl refl (omega arith) (omega arith) (omega arith)

process_send_signal-asleep_example :
    let w' = send_all handler 5 40 (one_process proc_sleeping) 100 (20 ∷ 9 ∷ 10 ∷ []) in
    ((w'.procs 100).state ≡ proc_sleeping) × (w'.calls ≡ [])
process_send_signal-asleep_example =
    process_send_signal-asleep handler 5 40 100 (20 ∷ 9 ∷ 10 ∷ []) (one_process proc_sleeping) refl

process_create-process_find_by_pid_example :
    let w' = (process_create (one_process proc_running) 200 600).0 in
    (w'.sched.process_list ≡ 200)
    × ((w'.procs 200).next ≡ null)
    × (process_find_by_pid 9 (seen w') 1 ≡ null)
process_create-process_find_by_pid_example =
    process_create-process_find_by_pid 8 (one_process proc_running) 200 600 1 refl refl refl refl
      refl

-- Process 100 has the zombie 200 as its child.
abbrev parent_and_child : World
parent_and_child = record (one_process proc_running) {
  procs = λ a.
      if a == 100
      then record (some_process proc_running) { children = 200 }
      else record (some_process proc_zombie) { pid = 7; exit_code = 3; parent = 100 };
}

process_waitpid_lem_example :
    (w' : World) × (process_waitpid (λ w. w) 5 6 parent_and_child (2 ^ 32 - 1)
      ≡ some (w', some (7, 3)))
    × (rest : List Ptr) × (w'.freed ≡ 200 ∷ rest)
process_waitpid_lem_example =
    process_waitpid_lem (λ w. w) 5 4 parent_and_child (2 ^ 32 - 1) refl refl refl refl
