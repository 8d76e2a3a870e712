-- ===== src/Tasks/Kill.antt =====
-- `kill` of src/task/task_manager.rs, as the reaper thread of src/task/mod.rs uses it: on a dead
-- task, which is therefore not the current one.
use nwin_os.Common.{
  ◌≡◌, ◌≢◌, refl, sym, ◌∙◌, ap, subst, true, ◌⊎◌, inl, inr, Option, none, some, arith, Option-cases,
}
use nwin_os.Common.Map
use nwin_os.Common.Map.{is_some, get-insert, get-remove}
use nwin_os.Task.{Task, TaskId}
use nwin_os.Tasks.{
  TaskManager, ready, blocked, dead, set_task_state, unblock_task, wake_parent, kill,
}
use nwin_os.Tasks.Spec.{
  state_of, queued, IsValid, state-set_task_state, current-set_task_state, registry-set_task_state,
  queued-set_task_state, set_task_state-IsValid,
}
use nwin_os.Tasks.Lifecycle.{unblock_blocked, unblock_other, blocked_or_not}

-- `wake_parent` by the task's entry in the registry.
wake_orphan :
    (tm : TaskManager) (id : TaskId) → Map.get id tm.task_registry ≡ none → wake_parent tm id ≡ tm
unfolding wake_parent
wake_orphan tm id e = ground arith

wake_rootless :
    (tm : TaskManager) (id : TaskId) (t : Task)
    → Map.get id tm.task_registry ≡ some t
    → t.parent_id ≡ none
    → wake_parent tm id ≡ tm
unfolding wake_parent
wake_rootless tm id t e e' = ground arith

wake_child :
    (tm : TaskManager) (id parent : TaskId) (t : Task)
    → Map.get id tm.task_registry ≡ some t
    → t.parent_id ≡ some parent
    → wake_parent tm id ≡ unblock_task tm parent
unfolding wake_parent
wake_child tm id parent t e e' = ground arith

-- Either nothing happens, or a blocked parent is made ready.
wake_cases :
    (tm : TaskManager) (id : TaskId)
    → (wake_parent tm id ≡ tm)
      ⊎ ((parent : TaskId) × (state_of tm parent ≡ some blocked)
          × (wake_parent tm id ≡ set_task_state tm parent ready))
wake_cases tm id = elim (Option-cases (Map.get id tm.task_registry)) [
  | inl gone ↦ inl (wake_orphan tm id gone)
  | inr (t, e) ↦ elim (Option-cases t.parent_id) [
    | inl root ↦ inl (wake_rootless tm id t e root)
    | inr (parent, e') ↦ elim (blocked_or_not tm parent) [
      | inl b ↦ inr (parent, b, wake_child tm id parent t e e' ∙ unblock_blocked tm parent b)
      | inr nb ↦ inl (wake_child tm id parent t e e' ∙ unblock_other tm parent nb)
    ]
  ]
]

-- The state in which `kill` removes its task: still valid, the task dead and not queued.
record Killed (tm : TaskManager) (id : TaskId) (tm' : TaskManager) : Type 0 where
  valid : IsValid tm'
  is_dead_now : state_of tm' id ≡ some dead
  same_current : tm'.current_task ≡ tm.current_task
  same_registry : tm'.task_registry ≡ tm.task_registry

module _ (tm : TaskManager) (id : TaskId) (v : IsValid tm) (known : is_some (state_of tm id) ≡ true)
    (other : tm.current_task ≢ some id) where
  abbrev marked : TaskManager
  marked = set_task_state tm id dead

  marked-Killed : Killed tm id marked
  marked-Killed = record {
    valid = set_task_state-IsValid tm v id dead known (λ e. absurd (other e));
    is_dead_now = ground (arith, state-set_task_state tm id dead id);
    same_current = current-set_task_state tm id dead;
    same_registry = registry-set_task_state tm id dead;
  }

  woken-Killed : Killed tm id (wake_parent marked id)
  woken-Killed = elim (wake_cases marked id) [
    | inl same ↦ subst (Killed tm id) (sym same) marked-Killed
    | inr (parent, b, e) ↦ subst (Killed tm id) (sym e) (record {
      valid =
          set_task_state-IsValid marked marked-Killed.valid parent ready (ground arith)
            (λ _. inl refl);
      is_dead_now =
          ground (arith, state-set_task_state marked parent ready id, marked-Killed.is_dead_now, b);
      same_current = current-set_task_state marked parent ready ∙ marked-Killed.same_current;
      same_registry = registry-set_task_state marked parent ready ∙ marked-Killed.same_registry;
    })
  ]

abbrev without : TaskManager → TaskId → TaskManager
without w id = record w {
  task_states = Map.remove id w.task_states;
  task_registry = Map.remove id w.task_registry;
}

without-IsValid :
    (w : TaskManager) (id : TaskId) → IsValid w → state_of w id ≡ some dead → IsValid (without w id)
without-IsValid w id v d = record {
  unique = v.unique;
  only_ready = λ j h. ground (arith, get-remove id j w.task_states, v.only_ready j, d);
  not_lost = λ j h. ground (arith, get-remove id j w.task_states, v.not_lost j, d);
  current_live = λ j h. ground (arith, get-remove id j w.task_states, v.current_live j, d);
  registered = λ j.
      ground
        (arith, get-remove id j w.task_states, get-remove id j w.task_registry, v.registered j);
}

-- The task has left no trace, and its entry was handed out.
abbrev pub Reaps : TaskManager → TaskId → Option Task × TaskManager → Type 0
Reaps tm id (entry, tm') =
    (entry ≡ Map.get id tm.task_registry)
    × (state_of tm' id ≡ none)
    × (Map.get id tm'.task_registry ≡ none)
    × (queued tm' id ≡ 0)
    × (tm'.current_task ≡ tm.current_task)

-- Killing a known task that is not the current one keeps the invariant, returns its entry of the
-- registry and leaves no trace of it: no state, no entry, no place in the queue. The current task
-- stays.
pub kill-IsValid :
    (tm : TaskManager) (id : TaskId)
    → IsValid tm
    → is_some (state_of tm id) ≡ true
    → tm.current_task ≢ some id
    → IsValid (kill tm id).1 × Reaps tm id (kill tm id)
unfolding kill
kill-IsValid tm id v known other =
    let k = woken-Killed tm id v known other in
    let w = wake_parent (set_task_state tm id dead) id in
    (
      without-IsValid w id k.valid k.is_dead_now,
      (
        ap (Map.get id) k.same_registry,
        ground (arith, get-remove id id w.task_states),
        ground (arith, get-remove id id w.task_registry),
        ground (arith, k.valid.only_ready id, k.is_dead_now),
        k.same_current,
      ),
    )

-- A parent that is blocked when its child is killed becomes ready and waits in the queue once; this
-- is what ends its wait.
pub kill_wakes_parent :
    (tm : TaskManager) (id parent : TaskId) (t : Task)
    → IsValid tm
    → Map.get id tm.task_registry ≡ some t
    → t.parent_id ≡ some parent
    → parent ≢ id
    → state_of tm parent ≡ some blocked
    → (state_of (kill tm id).1 parent ≡ some ready) × (queued (kill tm id).1 parent ≡ 1)
unfolding kill
kill_wakes_parent tm id parent t v e e' ne b =
    let m = set_task_state tm id dead in
    let still : state_of m parent ≡ some blocked =
      ground (arith, state-set_task_state tm id dead parent) in
    let idle : queued m parent ≡ 0 =
      ground (arith, queued-set_task_state tm id dead parent, v.only_ready parent) in
    let w : wake_parent m id ≡ set_task_state m parent ready =
      wake_child m id parent t (ap (Map.get id) (registry-set_task_state tm id dead) ∙ e) e'
      ∙ unblock_blocked m parent still in
    rw w (
      ground (
        arith,
        get-remove id parent (set_task_state m parent ready).task_states,
        state-set_task_state m parent ready parent,
      ),
      ground (arith, queued-set_task_state m parent ready parent),
    )
