-- ===== src/Scheduler/Dispatch.antt =====
-- What `schedule` writes to the machine when the current task changes and when it does not.
use nwin_os.Common.{
  ℕ, ◌≡◌, ◌≢◌, refl, sym, ◌∙◌, ap, true, false, inl, inr, Option, none, some, [], ◌∷◌, ◌==◌,
  if◌then◌else◌, arith, ==_refl, Option-cases,
}
use nwin_os.Common.Map
use nwin_os.Common.Map.{is_some}
use nwin_os.Common.Deque.{Deque}
use nwin_os.Task.{Task, TaskId}
use nwin_os.Tasks.{TaskManager, fetch_next_task}
use nwin_os.Tasks.Spec.{IsValid}
use nwin_os.Scheduler.{
  Tick, OldRsp, boot_rsp, task_rsp, requeue_current, switch_from, load_next, is_current, is_user,
  dispatch, stack_of, finish, schedule,
}
use nwin_os.Scheduler.Laws.{
  Requeued, front_ready, ticked, take_front, requeue-Requeued, manager-schedule, fetch_empty,
  fetch_front,
}

-- Where the stack pointer of the task that is left is kept.
abbrev pub outgoing : Option TaskId → OldRsp
outgoing none = boot_rsp
outgoing (some id) = task_rsp id

-- The registers of the task that is entered.
abbrev pub loads : TaskManager → OldRsp → Task → Tick
loads tm old next_task = load_next tm old (some next_task)

switch_known :
    (tm : TaskManager) (c : Option TaskId) (t : Task)
    → ((id : TaskId) → c ≡ some id → is_some (Map.get id tm.task_registry) ≡ true)
    → switch_from tm c (some t) ≡ loads tm (outgoing c) t
switch_known tm none t known = refl
switch_known tm (some id) t known = elim (Option-cases (Map.get id tm.task_registry)) [
  | inl e ↦ ground (arith, known id refl, e)
  | inr (o, e) ↦ rw (e, switch_from) refl
]

other_task : (c : Option TaskId) (next : TaskId) → c ≢ some next → is_current c next ≡ false
other_task none next ne = refl
other_task (some id) next ne = ground (arith, λ (e : id ≡ next). ne (ap some e))

dispatch_known :
    (tm : TaskManager) (c : Option TaskId) (next : TaskId) (t : Task)
    → c ≢ some next
    → Map.get next tm.task_registry ≡ some t
    → ((id : TaskId) → c ≡ some id → is_some (Map.get id tm.task_registry) ≡ true)
    → dispatch tm c (some next) ≡ loads (record tm { current_task = some next }) (outgoing c) t
dispatch_known tm c next t ne e known =
    rw (other_task c next ne, e) (switch_known (record tm { current_task = some next }) c t known)

-- What a tick that enters `next` promises.
pub record Switches (tm : TaskManager) (cr3 : ℕ) (next : TaskId) (t : Tick) : Type 0 where
  pub entered : Task
  pub registered : Map.get next tm.task_registry ≡ some entered
  pub saves : t.switch_data ≡ some (outgoing tm.current_task, entered.rsp)
  pub address_space :
      t.next_cr3 ≡ (if cr3 == entered.pml4_frame then none else some entered.pml4_frame)
  pub interrupt_stack :
      t.tss_rsp0 ≡ (if is_user entered.privilege then some entered.stack_end else none)
  pub syscall_stack : t.kernel_rsp ≡ some entered.stack_end

current_known :
    (tm : TaskManager)
    → IsValid tm
    → (id : TaskId) → tm.current_task ≡ some id
    → is_some (Map.get id tm.task_registry) ≡ true
current_known tm v id e = ground (arith, v.current_live id e, v.registered id)

loads-Switches :
    (tm r : TaskManager) (cr3 : ℕ) (next : TaskId) (t : Task)
    → r.task_registry ≡ tm.task_registry
    → r.current_task ≡ some next
    → Map.get next tm.task_registry ≡ some t
    → Switches tm cr3 next (finish cr3 (loads r (outgoing tm.current_task) t))
loads-Switches tm r cr3 next t same c e = record {
  entered = t;
  registered = e;
  saves = refl;
  address_space = refl;
  interrupt_stack = refl;
  syscall_stack = rw c (rw (same, e) refl);
}

-- `schedule` after the current task has been put back.
abbrev rest_of : TaskManager → TaskManager → ℕ → Tick
rest_of tm r cr3 = finish cr3 (dispatch (fetch_next_task r).1 tm.current_task (fetch_next_task r).0)

module _ (tm r : TaskManager) (cr3 : ℕ) (v : IsValid tm) (h : Requeued tm r) (next : TaskId)
    (changes : tm.current_task ≢ some next) where
  enter_front :
      (rest : Deque) → r.ready_queue ≡ next ∷ rest → Switches tm cr3 next (rest_of tm r cr3)
  enter_front rest e = elim (Option-cases (Map.get next tm.task_registry)) [
    | inl gone ↦ ground (arith, gone, v.registered next, front_ready tm r next rest h e)
    | inr (t, found) ↦ rw (fetch_front r next rest e) (
        rw
          (dispatch_known (record r { ready_queue = rest }) tm.current_task next t changes
            (rw h.same_registry found) (rw h.same_registry (current_known tm v)))
          (loads-Switches tm (record r { ready_queue = rest; current_task = some next }) cr3 next t
            h.same_registry refl found))
  ]

  enter_queue :
      (q : Deque)
      → r.ready_queue ≡ q
      → (take_front r q).current_task ≡ some next
      → Switches tm cr3 next (rest_of tm r cr3)
  enter_queue [] e c = absurd (changes (sym h.same_current ∙ c))
  enter_queue (front ∷ rest) e c = enter_front rest (ground (arith, e, c))

-- A tick after which another task is current has entered that task, which is registered: it asks
-- for a switch from the place where the old task's stack pointer is kept (`BOOT_RSP` if there was
-- none) to the stack pointer of the new one, writes CR3 exactly if the new task's page table is not
-- the loaded one, sets the interrupt stack exactly for a user task, and gives system calls the top
-- of the new task's kernel stack.
pub schedule-Switches :
    (tm : TaskManager) (cr3 : ℕ) (next : TaskId)
    → IsValid tm
    → tm.current_task ≢ some next
    → (schedule tm cr3).manager.current_task ≡ some next
    → Switches tm cr3 next (schedule tm cr3)
unfolding schedule
schedule-Switches tm cr3 next v changes c =
    let r = requeue_current (ticked tm) in
    enter_queue tm r cr3 v (requeue-Requeued tm v) next changes r.ready_queue refl
      (ap (λ (m : TaskManager). m.current_task) (sym (manager-schedule tm cr3 v)) ∙ c)

-- What a tick that enters no task leaves alone.
pub record Stays (tm : TaskManager) (t : Tick) : Type 0 where
  pub no_save : t.switch_data ≡ none
  pub no_address_space : t.next_cr3 ≡ none
  pub no_interrupt_stack : t.tss_rsp0 ≡ none
  pub syscall_stack : t.kernel_rsp ≡ stack_of tm tm.current_task

same_front :
    (tm : TaskManager) (c : Option TaskId) (next : TaskId)
    → c ≡ some next
    → is_current c next ≡ true
same_front tm c next e = rw e (==_refl next)

stack_same :
    (tm r : TaskManager)
    → r.task_registry ≡ tm.task_registry
    → (c : Option TaskId) → stack_of r c ≡ stack_of tm c
stack_same tm r e none = refl
stack_same tm r e (some id) = rw (e, stack_of) refl

module _ (tm r : TaskManager) (cr3 : ℕ) (h : Requeued tm r) where
  same_stack : stack_of r r.current_task ≡ stack_of tm tm.current_task
  same_stack = ap (stack_of r) h.same_current ∙ stack_same tm r h.same_registry tm.current_task

  stay_queue :
      (q : Deque)
      → r.ready_queue ≡ q
      → (take_front r q).current_task ≡ tm.current_task
      → Stays tm (rest_of tm r cr3)
  stay_queue [] e c = rw (fetch_empty r e) (record {
    no_save = refl;
    no_address_space = refl;
    no_interrupt_stack = refl;
    syscall_stack = same_stack;
  })
  stay_queue (front ∷ rest) e c = rw (fetch_front r front rest e) (
      rw (same_front tm tm.current_task front (sym c)) (record {
        no_save = refl;
        no_address_space = refl;
        no_interrupt_stack = refl;
        syscall_stack = same_stack;
      }))

-- A tick after which the same task is current, or none was and none is, asks for no switch and
-- writes neither CR3 nor the interrupt stack; system calls get the current task's kernel stack, and
-- keep the one they have if there is no current task.
pub schedule-Stays :
    (tm : TaskManager) (cr3 : ℕ)
    → IsValid tm
    → (schedule tm cr3).manager.current_task ≡ tm.current_task
    → Stays tm (schedule tm cr3)
unfolding schedule
schedule-Stays tm cr3 v c =
    let r = requeue_current (ticked tm) in
    stay_queue tm r cr3 (requeue-Requeued tm v) r.ready_queue refl
      (ap (λ (m : TaskManager). m.current_task) (sym (manager-schedule tm cr3 v)) ∙ c)
