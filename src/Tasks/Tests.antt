-- ===== src/Tasks/Tests.antt =====
-- A shell that runs, an editor that waits in the queue, a server that is blocked, and its child that
-- has exited: tests, and instances of the theorems.
use nwin_os.Common.{◌≡◌, refl, true, Option, none, some, [], ◌∷◌, arith}
use nwin_os.Common.Map
use nwin_os.Common.Deque.{count, retain_ne}
use nwin_os.Fd
use nwin_os.Task.{Task, TaskId, user_mode, Surroundings, heap_base, mmap_start}
use nwin_os.Tasks.{
  TaskManager, ready, blocked, dead, set_task_state, spawn, wait_for_child, unblock_task,
  wake_parent, kill,
}
use nwin_os.Tasks.Spec.{state_of, queued, IsValid}
use nwin_os.Tasks.Kill.{Reaps, kill-IsValid, kill_wakes_parent}
use nwin_os.Tasks.Spawn.{Spawns, spawn-Spawns}

abbrev pub a_task : TaskId → Option TaskId → Task
a_task id parent_id = record {
  id = id;
  parent_id = parent_id;
  rsp = 0x1_FFC0;
  pml4_frame = 0x5000;
  stack_start = 0x1_0000;
  stack_end = 0x2_0000;
  privilege = user_mode;
  heap_start = heap_base;
  program_break = heap_base;
  mmap_base = mmap_start;
  fd_table = Fd.new;
}

abbrev pub busy : TaskManager
busy = record {
  ready_queue = 2 ∷ [];
  task_registry =
      (1, a_task 1 none)
      ∷ (2, a_task 2 (some 1))
      ∷ (3, a_task 3 (some 1))
      ∷ (4, a_task 4 (some 3))
      ∷ [];
  task_states = (1, ready) ∷ (2, ready) ∷ (3, blocked) ∷ (4, dead) ∷ [];
  current_task = some 1;
  ticks = 0;
}

pub busy-IsValid : IsValid busy
unfolding Map.get count
busy-IsValid = record {
  unique = λ id. ground arith;
  only_ready = λ id h. ground arith;
  not_lost = λ id h. ground arith;
  current_live = λ id h. ground arith;
  registered = λ id. ground arith;
}

abbrev pub surroundings : Surroundings
surroundings = record {
  next_id = 5;
  reserved = some 0x3_0000;
  user_data_selector = 0x18;
  user_code_selector = 0x20;
  trampoline = 0x1234;
  memory = λ q. 0;
}

kill-IsValid_example : IsValid (kill busy 4).1 × Reaps busy 4 (kill busy 4)
unfolding Map.get
kill-IsValid_example = kill-IsValid busy 4 busy-IsValid refl (λ e. cc)

kill_wakes_parent_example :
    (state_of (kill busy 4).1 3 ≡ some ready) × (queued (kill busy 4).1 3 ≡ 1)
unfolding Map.get
kill_wakes_parent_example =
    kill_wakes_parent busy 4 3 (a_task 4 (some 3)) busy-IsValid refl refl (λ e. omega arith) refl

spawn-Spawns_example :
    Spawns busy surroundings 0x6000 user_mode (spawn busy surroundings 0x40_0000 0x6000 user_mode)
unfolding Map.get
spawn-Spawns_example = spawn-Spawns busy surroundings 0x40_0000 0x6000 user_mode busy-IsValid refl

-- The shell waits for its editor and is parked; the reaper removes the dead child, and the server
-- that waited for it is ready.
waits_for_editor : (wait_for_child busy 2).0 ≡ true
unfolding wait_for_child Map.get
waits_for_editor = refl

server_queued : (kill busy 4).1.ready_queue ≡ 2 ∷ 3 ∷ []
unfolding kill wake_parent unblock_task set_task_state Map.get Map.insert retain_ne
server_queued = refl
