-- ===== src/Scheduler/Reach.antt =====
-- Every history of the task manager: the calls that the kernel makes of it, in any order, with timer
-- ticks between them.
use nwin_os.Common.{ℕ, ◌≡◌, ◌≢◌, refl, true, none, some, arith}
use nwin_os.Common.Map
use nwin_os.Common.Map.{is_some}
use nwin_os.Common.Deque.{count}
use nwin_os.Task.{TaskId, PrivilegeLevel, Surroundings}
use nwin_os.Tasks.{
  TaskManager, empty, spawn, spawn_dynamic, block_current_task, wait_for_child, exit_current_task,
  unblock_task, kill,
}
use nwin_os.Tasks.Spec.{state_of, IsValid}
use nwin_os.Tasks.Lifecycle.{
  block_current_task-IsValid, unblock_task-IsValid, exit_current_task-IsValid,
  wait_for_child-IsValid,
}
use nwin_os.Tasks.Kill.{kill-IsValid}
use nwin_os.Tasks.Spawn.{spawn-IsValid, spawn_dynamic-IsValid}
use nwin_os.Scheduler.{schedule}
use nwin_os.Scheduler.Laws.{schedule-IsValid}

-- The identifier counter never gives an identifier that is still in use, and `kill` is called only
-- by the reaper and on a task that is not the current one.
pub data Step : TaskManager → TaskManager → Type 0 where
  ticks : (tm : TaskManager) (cr3 : ℕ) → Step tm (schedule tm cr3).manager
  spawns :
      (tm : TaskManager) (s : Surroundings) (entry_point pml4_frame : ℕ)
      (privilege : PrivilegeLevel)
      → state_of tm s.next_id ≡ none
      → Step tm (spawn tm s entry_point pml4_frame privilege).1
  spawns_dynamic :
      (tm : TaskManager) (s : Surroundings) (entry_point target_pml4 user_stack_top : ℕ)
      → state_of tm s.next_id ≡ none
      → Step tm (spawn_dynamic tm s entry_point target_pml4 user_stack_top).1
  blocks : (tm : TaskManager) → Step tm (block_current_task tm)
  waits : (tm : TaskManager) (child : TaskId) → Step tm (wait_for_child tm child).1
  exits : (tm : TaskManager) → Step tm (exit_current_task tm)
  unblocks : (tm : TaskManager) (id : TaskId) → Step tm (unblock_task tm id)
  kills :
      (tm : TaskManager) (id : TaskId)
      → is_some (state_of tm id) ≡ true
      → tm.current_task ≢ some id
      → Step tm (kill tm id).1

pub data Steps : TaskManager → TaskManager → Type 0 where
  stop : (tm : TaskManager) → Steps tm tm
  step : {tm tm1 tm2 : TaskManager} → Steps tm tm1 → Step tm1 tm2 → Steps tm tm2

empty-IsValid : IsValid empty
unfolding empty Map.get count
empty-IsValid = record {
  unique = λ id. ground arith;
  only_ready = λ id h. ground arith;
  not_lost = λ id h. ground arith;
  current_live = λ id h. ground arith;
  registered = λ id. refl;
}

call-IsValid : {tm tm' : TaskManager} → Step tm tm' → IsValid tm → IsValid tm'
call-IsValid (ticks tm cr3) v = schedule-IsValid tm cr3 v
call-IsValid (spawns tm s entry_point pml4_frame privilege fresh) v =
    spawn-IsValid tm s entry_point pml4_frame privilege v fresh
call-IsValid (spawns_dynamic tm s entry_point target_pml4 user_stack_top fresh) v =
    spawn_dynamic-IsValid tm s entry_point target_pml4 user_stack_top v fresh
call-IsValid (blocks tm) v = block_current_task-IsValid tm v
call-IsValid (waits tm child) v = wait_for_child-IsValid tm child v
call-IsValid (exits tm) v = exit_current_task-IsValid tm v
call-IsValid (unblocks tm id) v = unblock_task-IsValid tm id v
call-IsValid (kills tm id known other) v = (kill-IsValid tm id v known other).0

keep-IsValid : {tm tm' : TaskManager} → Steps tm tm' → IsValid tm → IsValid tm'
keep-IsValid (stop tm) v = v
keep-IsValid (step h s) v = call-IsValid s (keep-IsValid h v)

-- After any history of spawning, blocking, waiting, waking, exiting, reaping and timer ticks that
-- starts from the empty manager, the invariant holds: each ready task waits in the queue exactly
-- once or is the current one, nothing else waits, the current task is ready or blocked, and a task
-- has a state exactly when it is registered. No ready task is ever lost.
pub reachable-IsValid : (tm : TaskManager) → Steps empty tm → IsValid tm
reachable-IsValid tm h = keep-IsValid h empty-IsValid
