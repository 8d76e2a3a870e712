-- ===== src/Scheduler.antt =====
-- src/task/scheduler.rs: the round-robin scheduler that the timer interrupt runs.
--
-- `schedule` is one step on the task manager, since interrupts are off. What it writes to the
-- machine is returned beside the new manager: the pointer pair of the context switch, the page
-- table register, the stack of the task-state segment and the stack of the system-call entry. The
-- end-of-interrupt command and the switch itself (`Task.context_switch`) are left to the caller.
pub mod Laws
pub mod Dispatch
pub mod Fair
pub mod Reach
mod Tests
use nwin_os.Common.{
  ℕ, suc, ◌+◌, ◌%◌, ◌^◌, Bool, true, false, not, ◌&&◌, ◌||◌, Option, none, some, List, [], ◌∷◌,
  ◌==◌, if◌then◌else◌,
}
use nwin_os.Common.Map
use nwin_os.Task.{Task, TaskId, PrivilegeLevel, user_mode, kernel_mode}
use nwin_os.Tasks.{
  TaskManager, TaskManagerStats, TaskState, ready, is_ready, is_running, unwrap_or, mark_ready,
  fetch_next_task, stats,
}

-- Where the outgoing stack pointer is stored: `BOOT_RSP`, or the `rsp` field of a task.
pub data OldRsp : Type 0 where
  boot_rsp : OldRsp
  task_rsp : TaskId → OldRsp

pub record Tick : Type 0 where
  pub manager : TaskManager
  pub switch_data : Option (OldRsp × ℕ)
  pub next_cr3 : Option ℕ
  pub tss_rsp0 : Option ℕ
  pub kernel_rsp : Option ℕ

-- A current task that is still runnable goes to the back of the queue.
unfoldable pub requeue_current : TaskManager → TaskManager
requeue_current tm = elim tm.current_task [
  | none ↦ tm
  | some current_id ↦
      let state = unwrap_or (Map.get current_id tm.task_states) ready in
      if is_running state || is_ready state then mark_ready tm current_id else tm
]

abbrev pub is_user : PrivilegeLevel → Bool
is_user user_mode = true
is_user kernel_mode = false

abbrev pub no_switch : TaskManager → Tick
no_switch tm = record {
  manager = tm;
  switch_data = none;
  next_cr3 = none;
  tss_rsp0 = none;
  kernel_rsp = none;
}

-- The registers that the next task needs, if it is registered.
abbrev pub load_next : TaskManager → OldRsp → Option Task → Tick
load_next tm old none = no_switch tm
load_next tm old (some next_task) = record {
  manager = tm;
  switch_data = some (old, next_task.rsp);
  next_cr3 = some next_task.pml4_frame;
  tss_rsp0 = if is_user next_task.privilege then some next_task.stack_end else none;
  kernel_rsp = none;
}

abbrev pub switch_from : TaskManager → Option TaskId → Option Task → Tick
switch_from tm none next_task = load_next tm boot_rsp next_task
switch_from tm (some current_id) next_task = elim (Map.get current_id tm.task_registry) [
  | none ↦ no_switch tm
  | some _ ↦ load_next tm (task_rsp current_id) next_task
]

abbrev pub is_current : Option TaskId → TaskId → Bool
is_current none id = false
is_current (some current_id) id = current_id == id

abbrev pub dispatch : TaskManager → Option TaskId → Option TaskId → Tick
dispatch tm current_id_opt none = no_switch tm
dispatch tm current_id_opt (some next_task_id) =
    if is_current current_id_opt next_task_id
    then no_switch tm
    else (let tm' : TaskManager = record tm { current_task = some next_task_id } in
        switch_from tm' current_id_opt (Map.get next_task_id tm'.task_registry))

abbrev pub stack_of : TaskManager → Option TaskId → Option ℕ
stack_of tm none = none
stack_of tm (some id) = elim (Map.get id tm.task_registry) [
  | none ↦ none
  | some t ↦ some t.stack_end
]

-- The register is written only if the frame differs from the current one.
abbrev pub changed : ℕ → Option ℕ → Option ℕ
changed current_cr3 none = none
changed current_cr3 (some pml4) = if current_cr3 == pml4 then none else some pml4

abbrev pub finish : ℕ → Tick → Tick
finish current_cr3 t = record t {
  next_cr3 = changed current_cr3 t.next_cr3;
  kernel_rsp = stack_of t.manager t.manager.current_task;
}

unfoldable pub schedule : TaskManager → ℕ → Tick
unfolding requeue_current
schedule tm current_cr3 =
    let tm1 : TaskManager = record tm { ticks = (tm.ticks + 1) % 2 ^ 64 } in
    let (next, tm2) = fetch_next_task (requeue_current tm1) in
    finish current_cr3 (dispatch tm2 tm.current_task next)

pub get_stats : TaskManager → TaskManagerStats
get_stats tm = stats tm
