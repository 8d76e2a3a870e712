-- ===== src/Tasks.antt =====
-- src/task/task_manager.rs: the registry, the states, the ready queue and the current task, all
-- behind one lock that is held with interrupts off, so that each operation is one step.
--
-- `entry_point` and `pml4_frame` are addresses. A map is `Common.Map`, the queue `Common.Deque`; the
-- tick counter is an atomic u64 and wraps.
pub mod Spec
pub mod Lifecycle
pub mod Kill
pub mod Spawn
pub mod Tests
use nwin_os.Common.{
  ℕ, zero, suc, ◌+◌, ◌%◌, ◌^◌, Bool, true, false, not, ◌&&◌, ◌||◌, Option, none, some, List, [],
  ◌∷◌, ltb, ◌==◌, if◌then◌else◌, length,
}
use nwin_os.Common.Map
use nwin_os.Common.Map.{Map}
use nwin_os.Common.Deque.{Deque, push_back, pop_front, contains, retain_ne}
use nwin_os.Common.Outcome.{Result, ok, err}
use nwin_os.Error.{KernelError}
use nwin_os.Task
use nwin_os.Task.{Task, TaskId, PrivilegeLevel, user_mode, Surroundings}

pub data TaskState : Type 0 where
  ready running blocked dead : TaskState

abbrev pub is_ready : TaskState → Bool
is_ready ready = true
is_ready _ = false

abbrev pub is_running : TaskState → Bool
is_running running = true
is_running _ = false

abbrev pub is_blocked : TaskState → Bool
is_blocked blocked = true
is_blocked _ = false

abbrev pub is_dead : TaskState → Bool
is_dead dead = true
is_dead _ = false

abbrev pub unwrap_or {ℓ} : {A : Type ℓ} → Option A → A → A
unwrap_or none d = d
unwrap_or (some a) d = a

pub record TaskManager : Type 0 where
  pub ready_queue : Deque
  pub task_registry : Map Task
  pub task_states : Map TaskState
  pub current_task : Option TaskId
  pub ticks : ℕ

unfoldable pub empty : TaskManager
empty = record {
  ready_queue = [];
  task_registry = [];
  task_states = [];
  current_task = none;
  ticks = 0;
}

unfoldable pub mark_ready : TaskManager → TaskId → TaskManager
mark_ready tm id =
    if contains id tm.ready_queue
    then tm
    else record tm { ready_queue = push_back tm.ready_queue id }

unfoldable pub fetch_next_task : TaskManager → Option TaskId × TaskManager
fetch_next_task tm = elim (pop_front tm.ready_queue) [
  | none ↦ (none, tm)
  | some (id, rest) ↦ (some id, record tm { ready_queue = rest })
]

unfoldable pub set_task_state : TaskManager → TaskId → TaskState → TaskManager
set_task_state tm task_id state =
    let old_state = unwrap_or (Map.get task_id tm.task_states) dead in
    let tm' : TaskManager = record tm { task_states = Map.insert task_id state tm.task_states } in
    if is_ready state && not (is_ready old_state)
    then record tm' { ready_queue = push_back tm'.ready_queue task_id }
    else if not (is_ready state) && is_ready old_state
    then record tm' { ready_queue = retain_ne task_id tm'.ready_queue }
    else tm'

-- The task registered and made ready, as `spawn` and `spawn_dynamic` end.
abbrev register : TaskManager → Task → TaskManager
register tm t =
    set_task_state (record tm { task_registry = Map.insert t.id t tm.task_registry }) t.id ready

abbrev finish_spawn :
    TaskManager
    → Result Task KernelError × Surroundings
    → Result TaskId KernelError × TaskManager × Surroundings
finish_spawn tm (ok t, s) = (ok t.id, register tm t, s)
finish_spawn tm (err e, s) = (err e, tm, s)

unfoldable pub spawn :
    TaskManager
    → Surroundings
    → ℕ
    → ℕ
    → PrivilegeLevel
    → Result TaskId KernelError × TaskManager × Surroundings
spawn tm s entry_point pml4_frame privilege =
    finish_spawn tm (Task.new s entry_point pml4_frame privilege 0 tm.current_task)

unfoldable pub spawn_dynamic :
    TaskManager → Surroundings → ℕ → ℕ → ℕ → Result TaskId KernelError × TaskManager × Surroundings
spawn_dynamic tm s entry_point target_pml4 user_stack_top =
    finish_spawn tm (Task.new s entry_point target_pml4 user_mode user_stack_top tm.current_task)

unfoldable pub block_current_task : TaskManager → TaskManager
block_current_task tm = elim tm.current_task [ none ↦ tm | some id ↦ set_task_state tm id blocked ]

-- True if the parent was parked.
unfoldable pub wait_for_child : TaskManager → TaskId → Bool × TaskManager
unfolding block_current_task
wait_for_child tm child_id = elim (Map.get child_id tm.task_states) [
  | none ↦ (false, tm)
  | some state ↦ if not (is_dead state) then (true, block_current_task tm) else (false, tm)
]

unfoldable pub exit_current_task : TaskManager → TaskManager
exit_current_task tm = elim tm.current_task [
  | none ↦ tm
  | some id ↦ record (set_task_state tm id dead) { current_task = none }
]

unfoldable pub unblock_task : TaskManager → TaskId → TaskManager
unblock_task tm task_id = elim (Map.get task_id tm.task_states) [
  | none ↦ tm
  | some state ↦ if is_blocked state then set_task_state tm task_id ready else tm
]

-- The first half of `next_task`: a running current task becomes ready again.
unfoldable pub requeue_running : TaskManager → TaskManager
requeue_running tm = elim tm.current_task [
  | none ↦ tm
  | some prev_id ↦ elim (Map.get prev_id tm.task_states) [
    | none ↦ tm
    | some state ↦ if is_running state then set_task_state tm prev_id ready else tm
  ]
]

abbrev run_front : TaskManager → Option (TaskId × Deque) → Option TaskId × TaskManager
run_front tm none = (none, record tm { current_task = none })
run_front tm (some (next_id, rest)) = (
  some next_id,
  record tm {
    ready_queue = rest;
    task_states = Map.insert next_id running tm.task_states;
    current_task = some next_id;
  },
)

unfoldable pub next_task : TaskManager → Option TaskId × TaskManager
unfolding requeue_running
next_task tm = let tm' = requeue_running tm in run_front tm' (pop_front tm'.ready_queue)

unfoldable pub get_rsp : TaskManager → TaskId → Option ℕ
get_rsp tm task_id = elim (Map.get task_id tm.task_registry) [ none ↦ none | some t ↦ some t.rsp ]

unfoldable pub set_rsp : TaskManager → TaskId → ℕ → TaskManager
set_rsp tm task_id rsp = elim (Map.get task_id tm.task_registry) [
  | none ↦ tm
  | some t ↦ record tm {
    task_registry = Map.insert task_id (record t { rsp = rsp }) tm.task_registry;
  }
]

-- A blocked parent of the killed task is woken.
unfoldable pub wake_parent : TaskManager → TaskId → TaskManager
unfolding unblock_task
wake_parent tm task_id = elim (Map.get task_id tm.task_registry) [
  | none ↦ tm
  | some t ↦ elim t.parent_id [ none ↦ tm | some parent_id ↦ unblock_task tm parent_id ]
]

unfoldable pub kill : TaskManager → TaskId → Option Task × TaskManager
unfolding wake_parent
kill tm task_id =
    let tm' = wake_parent (set_task_state tm task_id dead) task_id in
    (
      Map.get task_id tm'.task_registry,
      record tm' {
        task_states = Map.remove task_id tm'.task_states;
        task_registry = Map.remove task_id tm'.task_registry;
      },
    )

pub record TaskManagerStats : Type 0 where
  pub total_tasks : ℕ
  pub ready_tasks : ℕ
  pub current : Option TaskId
  pub uptime : ℕ

pub stats : TaskManager → TaskManagerStats
stats tm = record {
  total_tasks = length tm.task_registry;
  ready_tasks = length tm.ready_queue;
  current = tm.current_task;
  uptime = tm.ticks;
}
