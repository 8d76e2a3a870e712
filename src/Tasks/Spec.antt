-- ===== src/Tasks/Spec.antt =====
-- The invariant of the task manager, and what a change of one task's state does to it.
use nwin_os.Common.{ℕ, ◌+◌, ◌≤◌, ◌<◌, ◌≡◌, true, ◌⊎◌, Option, some, ◌==◌, if◌then◌else◌, arith}
use nwin_os.Common.Map
use nwin_os.Common.Map.{is_some, get-insert, get-remove}
use nwin_os.Common.Deque.{count, count-push_back, count-retain_ne}
use nwin_os.Task.{TaskId}
use nwin_os.Tasks.{
  TaskManager, TaskState, ready, blocked, dead, set_task_state, unwrap_or, is_ready,
}

abbrev pub state_of : TaskManager → TaskId → Option TaskState
state_of tm id = Map.get id tm.task_states

abbrev pub queued : TaskManager → TaskId → ℕ
queued tm id = count id tm.ready_queue

-- Each ready task waits in the queue exactly once or is the current one, nothing else waits, and
-- the current task is ready or blocked. A task has a state exactly when it is registered.
pub record IsValid (tm : TaskManager) : Type 0 where
  pub unique : (id : TaskId) → queued tm id ≤ 1
  pub only_ready : (id : TaskId) → 0 < queued tm id → state_of tm id ≡ some ready
  pub not_lost :
      (id : TaskId) → state_of tm id ≡ some ready → (0 < queued tm id) ⊎ (tm.current_task ≡ some id)
  pub current_live :
      (id : TaskId)
      → tm.current_task ≡ some id
      → (state_of tm id ≡ some ready) ⊎ (state_of tm id ≡ some blocked)
  pub registered : (id : TaskId) → is_some (state_of tm id) ≡ is_some (Map.get id tm.task_registry)

module _ (tm : TaskManager) (task_id : TaskId) (state : TaskState) where
  pub state-set_task_state :
      (id : TaskId)
      → state_of (set_task_state tm task_id state) id
        ≡ (if task_id == id then some state else state_of tm id)
  unfolding set_task_state
  state-set_task_state id = ground (arith, get-insert task_id id state tm.task_states)

  pub current-set_task_state : (set_task_state tm task_id state).current_task ≡ tm.current_task
  unfolding set_task_state
  current-set_task_state = ground arith

  pub registry-set_task_state : (set_task_state tm task_id state).task_registry ≡ tm.task_registry
  unfolding set_task_state
  registry-set_task_state = ground arith

  -- The queue gains the task when it becomes ready and loses it when it stops being so.
  pub queued-set_task_state :
      (id : TaskId)
      → queued (set_task_state tm task_id state) id ≡ (
          if task_id == id
          then (if is_ready state
              then (if is_ready (unwrap_or (state_of tm task_id) dead)
                  then queued tm id
                  else queued tm id + 1)
              else if is_ready (unwrap_or (state_of tm task_id) dead)
              then 0
              else queued tm id)
          else queued tm id)
  unfolding set_task_state
  queued-set_task_state id =
      ground (
        arith,
        count-push_back id task_id tm.ready_queue,
        count-retain_ne id task_id tm.ready_queue,
      )

module _ (tm : TaskManager) (v : IsValid tm) (task_id : TaskId) (state : TaskState) where
  pub set_unique : (id : TaskId) → queued (set_task_state tm task_id state) id ≤ 1
  set_unique id =
      ground (arith, queued-set_task_state tm task_id state id, v.unique id, v.only_ready task_id)

  pub set_only_ready :
      (id : TaskId)
      → 0 < queued (set_task_state tm task_id state) id
      → state_of (set_task_state tm task_id state) id ≡ some ready
  set_only_ready id = ground (
    arith,
    queued-set_task_state tm task_id state id,
    state-set_task_state tm task_id state id,
    v.only_ready id,
  )

  pub set_not_lost :
      (id : TaskId)
      → state_of (set_task_state tm task_id state) id ≡ some ready
      → (0 < queued (set_task_state tm task_id state) id)
        ⊎ ((set_task_state tm task_id state).current_task ≡ some id)
  set_not_lost id = ground (
    arith,
    queued-set_task_state tm task_id state id,
    state-set_task_state tm task_id state id,
    current-set_task_state tm task_id state,
    v.not_lost id,
  )

-- A known task may take any state, but the current one only those of a live task.
module _ (tm : TaskManager) (v : IsValid tm) (task_id : TaskId) (state : TaskState)
    (known : is_some (state_of tm task_id) ≡ true)
    (live : tm.current_task ≡ some task_id → (state ≡ ready) ⊎ (state ≡ blocked)) where
  set_current_live :
      (id : TaskId)
      → (set_task_state tm task_id state).current_task ≡ some id
      → (state_of (set_task_state tm task_id state) id ≡ some ready)
        ⊎ (state_of (set_task_state tm task_id state) id ≡ some blocked)
  set_current_live id = ground (
    arith,
    state-set_task_state tm task_id state id,
    current-set_task_state tm task_id state,
    v.current_live id,
  )

  set_registered :
      (id : TaskId)
      → is_some (state_of (set_task_state tm task_id state) id)
        ≡ is_some (Map.get id (set_task_state tm task_id state).task_registry)
  set_registered id = ground (
    arith,
    state-set_task_state tm task_id state id,
    registry-set_task_state tm task_id state,
    v.registered id,
  )

  pub set_task_state-IsValid : IsValid (set_task_state tm task_id state)
  set_task_state-IsValid = record {
    unique = set_unique tm v task_id state;
    only_ready = set_only_ready tm v task_id state;
    not_lost = set_not_lost tm v task_id state;
    current_live = set_current_live;
    registered = set_registered;
  }
