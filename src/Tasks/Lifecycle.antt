-- ===== src/Tasks/Lifecycle.antt =====
-- The operations of src/task/task_manager.rs on one task's life: spawn, block, wait, wake, exit and
-- kill. Each keeps the invariant, and does what it says to the task and to nothing else.
use nwin_os.Common.{
  ◌≡◌, ◌≢◌, refl, sym, subst, Bool, true, false, ◌⊎◌, inl, inr, Option, none, some, arith,
  Option-cases,
}
use nwin_os.Common.Map.{is_some}
use nwin_os.Task.{TaskId}
use nwin_os.Tasks.{
  TaskManager, TaskState, ready, running, blocked, dead, set_task_state, block_current_task,
  wait_for_child, exit_current_task, unblock_task,
}
use nwin_os.Tasks.Spec.{
  state_of, queued, IsValid, state-set_task_state, current-set_task_state, registry-set_task_state,
  queued-set_task_state, set_task_state-IsValid, set_unique, set_only_ready, set_not_lost,
}

live_known :
    (tm : TaskManager) (id : TaskId)
    → IsValid tm
    → tm.current_task ≡ some id
    → is_some (state_of tm id) ≡ true
live_known tm id v h = ground (arith, v.current_live id)

-- `block_current_task` by the current task.
pub block_idle : (tm : TaskManager) → tm.current_task ≡ none → block_current_task tm ≡ tm
unfolding block_current_task
block_idle tm h = ground arith

pub block_busy :
    (tm : TaskManager) (id : TaskId)
    → tm.current_task ≡ some id
    → block_current_task tm ≡ set_task_state tm id blocked
unfolding block_current_task
block_busy tm id h = ground arith

pub block_current_task-IsValid : (tm : TaskManager) → IsValid tm → IsValid (block_current_task tm)
block_current_task-IsValid tm v = elim (Option-cases tm.current_task) [
  | inl idle ↦ subst IsValid (sym (block_idle tm idle)) v
  | inr (id, e) ↦
      subst IsValid (sym (block_busy tm id e))
        (set_task_state-IsValid tm v id blocked (live_known tm id v e) (λ _. inr refl))
]

-- `unblock_task` by the task's state: only a blocked task changes.
pub unblock_other :
    (tm : TaskManager) (id : TaskId) → state_of tm id ≢ some blocked → unblock_task tm id ≡ tm
unfolding unblock_task
unblock_other tm id h = ground arith

pub unblock_blocked :
    (tm : TaskManager) (id : TaskId)
    → state_of tm id ≡ some blocked
    → unblock_task tm id ≡ set_task_state tm id ready
unfolding unblock_task
unblock_blocked tm id h = ground arith

pub blocked_or_not :
    (tm : TaskManager) (id : TaskId)
    → (state_of tm id ≡ some blocked) ⊎ (state_of tm id ≢ some blocked)
blocked_or_not tm id = go (state_of tm id)
  where
    go : (o : Option TaskState) → (o ≡ some blocked) ⊎ (o ≢ some blocked)
    go none = inr (λ e. cc)
    go (some ready) = inr (λ e. cc)
    go (some running) = inr (λ e. cc)
    go (some blocked) = inl refl
    go (some dead) = inr (λ e. cc)

pub unblock_task-IsValid :
    (tm : TaskManager) (id : TaskId) → IsValid tm → IsValid (unblock_task tm id)
unblock_task-IsValid tm id v = elim (blocked_or_not tm id) [
  | inl e ↦
      subst IsValid (sym (unblock_blocked tm id e))
        (set_task_state-IsValid tm v id ready (ground arith) (λ _. inl refl))
  | inr ne ↦ subst IsValid (sym (unblock_other tm id ne)) v
]

exit_idle : (tm : TaskManager) → tm.current_task ≡ none → exit_current_task tm ≡ tm
unfolding exit_current_task
exit_idle tm h = ground arith

exit_busy :
    (tm : TaskManager) (id : TaskId)
    → tm.current_task ≡ some id
    → exit_current_task tm ≡ record (set_task_state tm id dead) { current_task = none }
unfolding exit_current_task
exit_busy tm id h = ground arith

exited-IsValid :
    (tm : TaskManager) (id : TaskId)
    → IsValid tm
    → tm.current_task ≡ some id
    → IsValid (record (set_task_state tm id dead) { current_task = none })
exited-IsValid tm id v e = record {
  unique = set_unique tm v id dead;
  only_ready = set_only_ready tm v id dead;
  not_lost = λ j h. ground (
    arith,
    set_not_lost tm v id dead j h,
    current-set_task_state tm id dead,
    state-set_task_state tm id dead j,
    h,
  );
  current_live = λ j h. cc;
  registered = λ j. ground (
    arith,
    state-set_task_state tm id dead j,
    registry-set_task_state tm id dead,
    v.registered j,
    live_known tm id v e,
  );
}

pub exit_current_task-IsValid : (tm : TaskManager) → IsValid tm → IsValid (exit_current_task tm)
exit_current_task-IsValid tm v = elim (Option-cases tm.current_task) [
  | inl idle ↦ subst IsValid (sym (exit_idle tm idle)) v
  | inr (id, e) ↦ subst IsValid (sym (exit_busy tm id e)) (exited-IsValid tm id v e)
]

-- `tm'` is `tm` but for the state of `id` and its place in the queue.
abbrev pub OthersKept : TaskManager → TaskId → TaskManager → Type 0
OthersKept tm id tm' =
    (j : TaskId) → j ≢ id → (state_of tm' j ≡ state_of tm j) × (queued tm' j ≡ queued tm j)

-- When the current task exits the invariant is kept, the task is dead, no longer current and not
-- queued, and every other task keeps its state and its place in the queue.
pub exit_current_task_lem :
    (tm : TaskManager) (id : TaskId)
    → IsValid tm
    → tm.current_task ≡ some id
    → IsValid (exit_current_task tm)
      × (state_of (exit_current_task tm) id ≡ some dead)
      × ((exit_current_task tm).current_task ≡ none)
      × (queued (exit_current_task tm) id ≡ 0)
      × OthersKept tm id (exit_current_task tm)
exit_current_task_lem tm id v e = rw (exit_busy tm id e) (
  exited-IsValid tm id v e,
  ground (arith, state-set_task_state tm id dead id),
  refl,
  ground (arith, queued-set_task_state tm id dead id, v.only_ready id),
  λ j ne. (
    ground (arith, state-set_task_state tm id dead j),
    ground (arith, queued-set_task_state tm id dead j),
  ),
)

-- How `wait_for_child` answers.
pub wait_refused :
    (tm : TaskManager) (child : TaskId)
    → (state_of tm child ≡ none) ⊎ (state_of tm child ≡ some dead)
    → wait_for_child tm child ≡ (false, tm)
unfolding wait_for_child
wait_refused tm child (inl e) = ground arith
wait_refused tm child (inr e) = ground arith

pub wait_parked :
    (tm : TaskManager) (child : TaskId) (state : TaskState)
    → state_of tm child ≡ some state
    → state ≢ dead
    → wait_for_child tm child ≡ (true, block_current_task tm)
unfolding wait_for_child
wait_parked tm child state e ne = ground arith

dead_or_alive :
    (tm : TaskManager) (id : TaskId)
    → ((state_of tm id ≡ none) ⊎ (state_of tm id ≡ some dead))
      ⊎ ((state : TaskState) × (state_of tm id ≡ some state) × (state ≢ dead))
dead_or_alive tm id = go (state_of tm id) refl
  where
    go :
        (o : Option TaskState)
        → state_of tm id ≡ o
        → ((state_of tm id ≡ none) ⊎ (state_of tm id ≡ some dead))
          ⊎ ((state : TaskState) × (state_of tm id ≡ some state) × (state ≢ dead))
    go none e = inl (inl e)
    go (some dead) e = inl (inr e)
    go (some ready) e = inr (ready, e, λ h. cc)
    go (some running) e = inr (running, e, λ h. cc)
    go (some blocked) e = inr (blocked, e, λ h. cc)

pub wait_for_child-IsValid :
    (tm : TaskManager) (child : TaskId) → IsValid tm → IsValid (wait_for_child tm child).1
wait_for_child-IsValid tm child v = elim (dead_or_alive tm child) [
  | inl gone ↦ rw (wait_refused tm child gone) v
  | inr (state, e, ne) ↦ rw (wait_parked tm child state e ne) (block_current_task-IsValid tm v)
]

-- The two answers of `wait_for_child`.
abbrev pub Refuses : TaskManager → TaskId → Bool × TaskManager → Type 0
Refuses tm child r =
    ((state_of tm child ≡ none) ⊎ (state_of tm child ≡ some dead)) × (r ≡ (false, tm))

abbrev pub Parks : TaskManager → TaskId → TaskId → Bool × TaskManager → Type 0
Parks tm parent child r =
    ((state : TaskState) × (state_of tm child ≡ some state) × (state ≢ dead))
    × (r.0 ≡ true)
    × (state_of r.1 parent ≡ some blocked)
    × (queued r.1 parent ≡ 0)
    × OthersKept tm parent r.1

-- `wait_for_child` keeps the invariant. It parks the current task exactly when the child has a
-- state other than dead: then the parent is blocked and out of the queue, and nobody else changes;
-- otherwise it says false and changes nothing.
pub wait_for_child_lem :
    (tm : TaskManager) (parent child : TaskId)
    → IsValid tm
    → tm.current_task ≡ some parent
    → IsValid (wait_for_child tm child).1
      × (Refuses tm child (wait_for_child tm child)
          ⊎ Parks tm parent child (wait_for_child tm child))
wait_for_child_lem tm parent child v e = (
  wait_for_child-IsValid tm child v,
  elim (dead_or_alive tm child) [
    | inl gone ↦ inl (gone, wait_refused tm child gone)
    | inr (state, at, ne) ↦
        rw (wait_parked tm child state at ne, block_busy tm parent e)
          (inr (
            (state, at, ne),
            refl,
            ground (arith, state-set_task_state tm parent blocked parent),
            ground (arith, queued-set_task_state tm parent blocked parent, v.only_ready parent),
            λ j other. (
              ground (arith, state-set_task_state tm parent blocked j),
              ground (arith, queued-set_task_state tm parent blocked j),
            ),
          ))
  ],
)
