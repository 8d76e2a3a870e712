-- ===== src/Scheduler/Tests.antt =====
-- A shell that runs and two tasks that wait, the second of them in the kernel: tests, and instances
-- of the theorems.
use nwin_os.Common.{◌≡◌, refl, none, some, [], ◌∷◌, arith}
use nwin_os.Common.Map
use nwin_os.Common.Deque.{count, contains}
use nwin_os.Fd
use nwin_os.Task.{Task, kernel_mode, user_mode, heap_base, mmap_start}
use nwin_os.Tasks.{TaskManager, ready, empty, fetch_next_task, mark_ready}
use nwin_os.Tasks.Spec.{IsValid}
use nwin_os.Scheduler.{requeue_current, schedule}
use nwin_os.Scheduler.Dispatch.{Switches, schedule-Switches}
use nwin_os.Scheduler.Fair.{run_ticks, run_ticks_reaches}
use nwin_os.Scheduler.Reach.{stop, step, ticks, reachable-IsValid}

abbrev shell : Task
shell = record {
  id = 1;
  parent_id = none;
  rsp = 0x1_FF00;
  pml4_frame = 0x5000;
  stack_start = 0x1_0000;
  stack_end = 0x2_0000;
  privilege = user_mode;
  heap_start = heap_base;
  program_break = heap_base;
  mmap_base = mmap_start;
  fd_table = Fd.new;
}

abbrev editor : Task
editor = record shell {
  id = 2;
  parent_id = some 1;
  rsp = 0x3_FF00;
  pml4_frame = 0x7000;
  stack_start = 0x3_0000;
  stack_end = 0x4_0000;
}

abbrev reaper : Task
reaper = record shell {
  id = 3;
  rsp = 0x5_FF00;
  pml4_frame = 0x1000;
  stack_start = 0x5_0000;
  stack_end = 0x6_0000;
  privilege = kernel_mode;
}

abbrev busy : TaskManager
busy = record {
  ready_queue = 2 ∷ 3 ∷ [];
  task_registry = (1, shell) ∷ (2, editor) ∷ (3, reaper) ∷ [];
  task_states = (1, ready) ∷ (2, ready) ∷ (3, ready) ∷ [];
  current_task = some 1;
  ticks = 9;
}

busy-IsValid : IsValid busy
unfolding Map.get count
busy-IsValid = record {
  unique = λ id. ground arith;
  only_ready = λ id h. ground arith;
  not_lost = λ id h. ground arith;
  current_live = λ id h. ground arith;
  registered = λ id. ground arith;
}

-- The shell alone.
abbrev alone : TaskManager
alone = record busy {
  ready_queue = [];
  task_registry = (1, shell) ∷ [];
  task_states = (1, ready) ∷ [];
}

alone-IsValid : IsValid alone
unfolding Map.get count
alone-IsValid = record {
  unique = λ id. ground arith;
  only_ready = λ id h. ground arith;
  not_lost = λ id h. ground arith;
  current_live = λ id h. ground arith;
  registered = λ id. ground arith;
}

schedule-Switches_example : Switches busy 0x5000 2 (schedule busy 0x5000)
unfolding schedule requeue_current fetch_next_task mark_ready contains Map.get
schedule-Switches_example = schedule-Switches busy 0x5000 2 busy-IsValid (λ e. cc) refl

run_ticks_reaches_example : (run_ticks 2 (λ k. 0x5000) busy).current_task ≡ some 3
run_ticks_reaches_example = run_ticks_reaches (2 ∷ []) [] 3 (λ k. 0x5000) busy busy-IsValid refl

reachable-IsValid_example : IsValid (schedule empty 0).manager
reachable-IsValid_example =
    reachable-IsValid (schedule empty 0).manager (step (stop empty) (ticks empty 0))
