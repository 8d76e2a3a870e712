-- ===== src/Faults/Contained.antt =====
-- What a fault of a user task in src/core/idt.rs does to that task, to the others and to memory.
use nwin_os.Common.{
  ℕ, ◌≡◌, ◌≢◌, refl, ◌∙◌, ap, Bool, true, false, ◌&&◌, inl, inr, some, [], ◌∷◌, Bool-cases, arith,
}
use nwin_os.Common.Map
use nwin_os.Common.Deque.{Deque}
use nwin_os.Error.{KernelError}
use nwin_os.Common.Outcome.{Outcome, returned, panicked}
use nwin_os.Frames.Laws
use nwin_os.Paging.{PageTables, Physical, resolve_cow_fault}
use nwin_os.Paging.Panics.{CowFails, resolve_cow_fault-CowFails}
use nwin_os.Paging.Cow.{Spares, resolve_cow_fault-Spares}
use nwin_os.Paging.Laws.{KeepsUsed}
use nwin_os.Task.{TaskId}
use nwin_os.Tasks.{TaskManager, dead, exit_current_task}
use nwin_os.Tasks.Spec.{state_of, IsValid}
use nwin_os.Tasks.Lifecycle.{exit_current_task_lem}
use nwin_os.Scheduler.{schedule, requeue_current}
use nwin_os.Scheduler.Laws.{
  ticked, take_front, requeue-Requeued, manager-schedule, schedule-IsValid,
}
use nwin_os.Faults.{
  Ending, resumed, terminated, halted, panicked_inside, after_cow, Fault, page, general_protection,
  divide, opcode, double, end_task, end_or_panic, from_user, is_user, is_present, is_write,
  page_fault_handler, general_protection_fault_handler, divide_error_handler,
  invalid_opcode_handler, handle,
}

take_front-states : (tm : TaskManager) (q : Deque) → (take_front tm q).task_states ≡ tm.task_states
take_front-states tm [] = refl
take_front-states tm (next ∷ rest) = refl

schedule-states :
    (tm : TaskManager) (cr3 : ℕ)
    → IsValid tm
    → (schedule tm cr3).manager.task_states ≡ tm.task_states
schedule-states tm cr3 v =
    ap (λ (m : TaskManager). m.task_states) (manager-schedule tm cr3 v)
    ∙ take_front-states (requeue_current (ticked tm)) _
    ∙ (requeue-Requeued tm v).same_states

-- The fault comes from user code.
abbrev pub is_user_fault : Fault → Bool
is_user_fault (page fault_addr error_code) = is_user error_code
is_user_fault (general_protection code_segment error_code) = from_user code_segment
is_user_fault (divide code_segment) = from_user code_segment
is_user_fault (opcode code_segment) = from_user code_segment
is_user_fault double = false

-- The task `id` is dead and no longer current; the others are as they were.
pub record Ends (tm : TaskManager) (id : TaskId) (tm' : TaskManager) : Type 0 where
  pub valid : IsValid tm'
  pub is_dead : state_of tm' id ≡ some dead
  pub not_current : tm'.current_task ≢ some id
  pub others : (j : TaskId) → j ≢ id → state_of tm' j ≡ state_of tm j

-- A write to a page that is present.
abbrev pub is_resolvable : Fault → Bool
is_resolvable (page fault_addr error_code) = is_present error_code && is_write error_code
is_resolvable _ = false

abbrev pub address : Fault → ℕ
address (page fault_addr error_code) = fault_addr
address _ = 0

-- What the copy-on-write handler may do in a fault.
abbrev pub Attempts :
    PageTables → Physical → (pml4 fault_addr : ℕ) → Outcome (Bool × Physical) → Type 0
Attempts pt p pml4 fault_addr panicked = CowFails pt p pml4 fault_addr
Attempts pt p pml4 fault_addr (returned (false, p')) = p' ≡ p
Attempts pt p pml4 fault_addr (returned (true, p')) = KeepsUsed p p'

module _ (pt : PageTables) (p : Physical) (pml4 fault_addr : ℕ) where
  Spares→Attempts :
      (o : Outcome (Bool × Physical))
      → Spares p o
      → (o ≡ panicked → CowFails pt p pml4 fault_addr)
      → Attempts pt p pml4 fault_addr o
  Spares→Attempts panicked s h = h refl
  Spares→Attempts (returned (false, p')) s h = s
  Spares→Attempts (returned (true, p')) s h = s

  resolve_cow_fault-Attempts :
      Laws.IsValid p.frames → Attempts pt p pml4 fault_addr (resolve_cow_fault pt p pml4 fault_addr)
  resolve_cow_fault-Attempts v =
      Spares→Attempts _ (resolve_cow_fault-Spares pt p pml4 fault_addr v)
        (resolve_cow_fault-CowFails pt p pml4 fault_addr)

-- How the kernel goes on after a fault of the task `id`, or that it does not.
abbrev pub Contains :
    PageTables → Physical → (cr3 : ℕ) → Fault → TaskManager → TaskId → Ending → Type 0
Contains pt p cr3 f tm id (resumed p') =
    (is_resolvable f ≡ true)
    × (resolve_cow_fault pt p cr3 (address f) ≡ returned (true, p'))
    × KeepsUsed p p'
Contains pt p cr3 f tm id (terminated error t p') = Ends tm id t.manager × (p' ≡ p)
Contains pt p cr3 f tm id (halted error) = ⊥
Contains pt p cr3 f tm id panicked_inside = (is_resolvable f ≡ true) × CowFails pt p cr3 (address f)

module _ (tm : TaskManager) (cr3 : ℕ) (id : TaskId) (v : IsValid tm) (c : tm.current_task ≡ some id)
    (pt : PageTables) (p : Physical) where
  end_task-Ends : Ends tm id (schedule (exit_current_task tm) cr3).manager
  end_task-Ends =
      let x = exit_current_task_lem tm id v c in
      let s = schedule-states (exit_current_task tm) cr3 x.0 in
      let w = schedule-IsValid (exit_current_task tm) cr3 x.0 in
      let d = ap (Map.get id) s ∙ x.1 in
      record {
        valid = w;
        is_dead = d;
        not_current = λ e. ground (arith, w.current_live id e, d);
        others = λ j ne. ap (Map.get j) s ∙ (x.4 j ne).0;
      }

  end_or_panic-Contains :
      (f : Fault) (u : Bool) (error : KernelError) (p' : Physical)
      → u ≡ true
      → p' ≡ p
      → Contains pt p cr3 f tm id (end_or_panic u error tm cr3 p')
  unfolding end_task
  end_or_panic-Contains f u error p' e same = rw e (end_task-Ends, same)

  after_cow-Contains :
      (fault_addr error_code : ℕ)
      → is_user error_code ≡ true
      → (is_present error_code && is_write error_code) ≡ true
      → (o : Outcome (Bool × Physical)) → resolve_cow_fault pt p cr3 fault_addr ≡ o
      → Attempts pt p cr3 fault_addr o
      → Contains pt p cr3
          (page fault_addr error_code)
          tm
          id
          (after_cow fault_addr error_code tm cr3 o)
  after_cow-Contains fault_addr error_code u r panicked e a = (r, a)
  after_cow-Contains fault_addr error_code u r (returned (true, p')) e a = (r, e, a)
  after_cow-Contains fault_addr error_code u r (returned (false, p')) e a =
      end_or_panic-Contains (page fault_addr error_code) (is_user error_code) _ p' u a

  -- A fault that the current task of a valid manager causes in user mode, with a valid frame allocator
  -- and any mapper. The handler never comes to a halt of its own. It goes back to the task only from a
  -- write to a present page, with the memory that the copy-on-write handler left, where no byte of a
  -- frame in use has changed. Where it does not go back, the task is dead and not current after the
  -- handler has scheduled, every other task has the state it had, the manager is valid, and frames,
  -- tables and bytes are as they were. The one way to panic is inside the copy-on-write handler, at a
  -- write to a present page: either the frame of the page has one owner and the mapper refuses to
  -- change the flags of the page, or the frame has several owners.
  pub handle-Contains :
      (f : Fault)
      → Laws.IsValid p.frames
      → is_user_fault f ≡ true
      → Contains pt p cr3 f tm id (handle pt f tm cr3 p)
  unfolding handle page_fault_handler general_protection_fault_handler divide_error_handler
      invalid_opcode_handler
  handle-Contains (page fault_addr error_code) w u =
      elim (Bool-cases (is_present error_code && is_write error_code)) [
        | inl r ↦ rw r (
            after_cow-Contains fault_addr error_code u r _ refl
              (resolve_cow_fault-Attempts pt p cr3 fault_addr w))
        | inr r ↦
            rw r
              (end_or_panic-Contains (page fault_addr error_code) (is_user error_code) _ p u refl)
      ]
  handle-Contains (general_protection code_segment error_code) w u =
      end_or_panic-Contains (general_protection code_segment error_code) (from_user code_segment) _
        p u refl
  handle-Contains (divide code_segment) w u =
      end_or_panic-Contains (divide code_segment) (from_user code_segment) _ p u refl
  handle-Contains (opcode code_segment) w u =
      end_or_panic-Contains (opcode code_segment) (from_user code_segment) _ p u refl
  handle-Contains double w u = ground (arith, u)
