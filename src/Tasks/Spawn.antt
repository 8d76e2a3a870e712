-- ===== src/Tasks/Spawn.antt =====
-- `spawn` and `spawn_dynamic` of src/task/task_manager.rs.
use nwin_os.Common.{
  ℕ, ◌+◌, ◌≡◌, ◌≢◌, refl, sym, ◌∙◌, ap, subst, Option, none, some, ◌==◌, if◌then◌else◌, arith,
}
use nwin_os.Common.Map
use nwin_os.Common.Map.{is_some, get-insert, get-remove}
use nwin_os.Common.Outcome.{Result, ok, err}
use nwin_os.Error.{KernelError, task, stack_allocation}
use nwin_os.Task
use nwin_os.Task.{Task, TaskId, PrivilegeLevel, user_mode, Surroundings}
use nwin_os.Tasks.{TaskManager, ready, register, finish_spawn, spawn, spawn_dynamic}
use nwin_os.Tasks.Spec.{
  state_of, queued, IsValid, state-set_task_state, current-set_task_state, registry-set_task_state,
  queued-set_task_state,
}

-- A task that nobody knew is registered, ready and at the back of the queue.
pub record Registers (tm : TaskManager) (t : Task) (tm' : TaskManager) : Type 0 where
  pub valid : IsValid tm'
  pub now_ready : state_of tm' t.id ≡ some ready
  pub now_queued : queued tm' t.id ≡ 1
  pub entry : Map.get t.id tm'.task_registry ≡ some t
  pub same_current : tm'.current_task ≡ tm.current_task
  pub others :
      (j : TaskId)
      → j ≢ t.id
      → (state_of tm' j ≡ state_of tm j)
        × (queued tm' j ≡ queued tm j)
        × (Map.get j tm'.task_registry ≡ Map.get j tm.task_registry)

module _ (tm : TaskManager) (t : Task) (v : IsValid tm) (unknown : state_of tm t.id ≡ none) where
  abbrev entered : TaskManager
  entered = record tm { task_registry = Map.insert t.id t tm.task_registry }

  queue_at :
      (j : TaskId) → queued (register tm t) j ≡ (if t.id == j then queued tm j + 1 else queued tm j)
  queue_at j = ground (arith, queued-set_task_state entered t.id ready j, unknown)

  state_at :
      (j : TaskId) → state_of (register tm t) j ≡ (if t.id == j then some ready else state_of tm j)
  state_at j = state-set_task_state entered t.id ready j

  registry_at :
      (j : TaskId)
      → Map.get j (register tm t).task_registry
        ≡ (if t.id == j then some t else Map.get j tm.task_registry)
  registry_at j =
      ap (Map.get j) (registry-set_task_state entered t.id ready)
      ∙ get-insert t.id j t tm.task_registry

  unqueued : queued tm t.id ≡ 0
  unqueued = ground (arith, v.only_ready t.id, unknown)

  register-IsValid : IsValid (register tm t)
  register-IsValid = record {
    unique = λ j. ground (arith, queue_at j, v.unique j, unqueued);
    only_ready = λ j h. ground (arith, queue_at j, state_at j, v.only_ready j, h);
    not_lost = λ j h.
        ground (
          arith,
          queue_at j,
          state_at j,
          v.not_lost j,
          current-set_task_state entered t.id ready,
          h,
        );
    current_live = λ j h.
        ground (arith, state_at j, v.current_live j, current-set_task_state entered t.id ready, h);
    registered = λ j. ground (arith, state_at j, registry_at j, v.registered j);
  }

  register-Registers : Registers tm t (register tm t)
  register-Registers = record {
    valid = register-IsValid;
    now_ready = ground (arith, state_at t.id);
    now_queued = ground (arith, queue_at t.id, unqueued);
    entry = ground (arith, registry_at t.id);
    same_current = current-set_task_state entered t.id ready;
    others = λ j ne.
        (ground (arith, state_at j), ground (arith, queue_at j), ground (arith, registry_at j));
  }

-- The identity of a new task.
new_facts :
    (s s' : Surroundings) (entry_point pml4_frame user_stack_top : ℕ) (privilege : PrivilegeLevel)
    (parent_id : Option TaskId) (t : Task)
    → Task.new s entry_point pml4_frame privilege user_stack_top parent_id ≡ (ok t, s')
    → (t.id ≡ s.next_id)
      × (t.parent_id ≡ parent_id)
      × (t.privilege ≡ privilege)
      × (t.pml4_frame ≡ pml4_frame)
unfolding Task.new
new_facts s s' entry_point pml4_frame user_stack_top privilege parent_id t h =
    (ground arith, ground arith, ground arith, ground arith)

-- What both ways of spawning promise.
abbrev pub Spawns :
    TaskManager
    → Surroundings
    → ℕ
    → PrivilegeLevel
    → Result TaskId KernelError × TaskManager × Surroundings
    → Type 0
Spawns tm s pml4_frame privilege (err e, tm', s') =
    (e ≡ task stack_allocation) × (s.reserved ≡ none) × (tm' ≡ tm)
Spawns tm s pml4_frame privilege (ok id, tm', s') =
    (t : Task) × (id ≡ s.next_id)
    × (t.id ≡ id)
    × (t.parent_id ≡ tm.current_task)
    × (t.privilege ≡ privilege)
    × (t.pml4_frame ≡ pml4_frame)
    × Registers tm t tm'

new_error :
    (s s' : Surroundings) (entry_point pml4_frame user_stack_top : ℕ) (privilege : PrivilegeLevel)
    (parent_id : Option TaskId) (e : KernelError)
    → Task.new s entry_point pml4_frame privilege user_stack_top parent_id ≡ (err e, s')
    → (e ≡ task stack_allocation) × (s.reserved ≡ none)
unfolding Task.new
new_error s s' entry_point pml4_frame user_stack_top privilege parent_id e h =
    (ground arith, ground arith)

finish_spawn-Spawns :
    (tm : TaskManager) (s : Surroundings) (entry_point pml4_frame user_stack_top : ℕ)
    (privilege : PrivilegeLevel)
    → IsValid tm
    → state_of tm s.next_id ≡ none
    → Spawns tm s pml4_frame privilege (
        finish_spawn tm
          (Task.new s entry_point pml4_frame privilege user_stack_top tm.current_task))
finish_spawn-Spawns tm s entry_point pml4_frame user_stack_top privilege v fresh =
    go (Task.new s entry_point pml4_frame privilege user_stack_top tm.current_task) refl
  where
    go :
        (r : Result Task KernelError × Surroundings)
        → Task.new s entry_point pml4_frame privilege user_stack_top tm.current_task ≡ r
        → Spawns tm s pml4_frame privilege (finish_spawn tm r)
    go (err e, s') h =
        let f =
          new_error s s' entry_point pml4_frame user_stack_top privilege tm.current_task e h in
        (f.0, f.1, refl)
    go (ok t, s') h =
        let f =
          new_facts s s' entry_point pml4_frame user_stack_top privilege tm.current_task t h in
        (t, f.0, refl, f.1, f.2, f.3, register-Registers tm t v (rw f.0 fresh))

-- With an identifier that no task has, `spawn` either fails for want of a kernel stack and leaves
-- the manager as it was, or it returns that identifier: the new task is registered under it, a child
-- of the current task, ready and queued once, the invariant holds, and no other task changes.
pub spawn-Spawns :
    (tm : TaskManager) (s : Surroundings) (entry_point pml4_frame : ℕ) (privilege : PrivilegeLevel)
    → IsValid tm
    → state_of tm s.next_id ≡ none
    → Spawns tm s pml4_frame privilege (spawn tm s entry_point pml4_frame privilege)
unfolding spawn
spawn-Spawns tm s entry_point pml4_frame privilege v fresh =
    finish_spawn-Spawns tm s entry_point pml4_frame 0 privilege v fresh

-- `spawn_dynamic` promises the same of a user task.
pub spawn_dynamic-Spawns :
    (tm : TaskManager) (s : Surroundings) (entry_point target_pml4 user_stack_top : ℕ)
    → IsValid tm
    → state_of tm s.next_id ≡ none
    → Spawns tm s target_pml4 user_mode (spawn_dynamic tm s entry_point target_pml4 user_stack_top)
unfolding spawn_dynamic
spawn_dynamic-Spawns tm s entry_point target_pml4 user_stack_top v fresh =
    finish_spawn-Spawns tm s entry_point target_pml4 user_stack_top user_mode v fresh

Spawns-IsValid :
    (tm : TaskManager) (s : Surroundings) (pml4_frame : ℕ) (privilege : PrivilegeLevel)
    (r : Result TaskId KernelError × TaskManager × Surroundings)
    → IsValid tm
    → Spawns tm s pml4_frame privilege r
    → IsValid r.1
Spawns-IsValid tm s pml4_frame privilege (err e, tm', s') v h = subst IsValid (sym h.2) v
Spawns-IsValid tm s pml4_frame privilege (ok id, tm', s') v h = h.6.valid

pub spawn-IsValid :
    (tm : TaskManager) (s : Surroundings) (entry_point pml4_frame : ℕ) (privilege : PrivilegeLevel)
    → IsValid tm
    → state_of tm s.next_id ≡ none
    → IsValid (spawn tm s entry_point pml4_frame privilege).1
spawn-IsValid tm s entry_point pml4_frame privilege v fresh =
    Spawns-IsValid tm s pml4_frame privilege _ v
      (spawn-Spawns tm s entry_point pml4_frame privilege v fresh)

pub spawn_dynamic-IsValid :
    (tm : TaskManager) (s : Surroundings) (entry_point target_pml4 user_stack_top : ℕ)
    → IsValid tm
    → state_of tm s.next_id ≡ none
    → IsValid (spawn_dynamic tm s entry_point target_pml4 user_stack_top).1
spawn_dynamic-IsValid tm s entry_point target_pml4 user_stack_top v fresh =
    Spawns-IsValid tm s target_pml4 user_mode _ v
      (spawn_dynamic-Spawns tm s entry_point target_pml4 user_stack_top v fresh)
