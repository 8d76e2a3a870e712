-- ===== src/Scheduler/Fair.antt =====
-- The order in which `schedule` runs the tasks: round robin, so that no ready task waits for ever.
use nwin_os.Common.{
  ℕ, zero, suc, ◌≡◌, refl, sym, ◌∙◌, ap, true, false, inl, inr, some, [], ◌∷◌, ◌++◌, length, arith,
  append-nil, append_assoc, Option-cases, Bool-cases,
}
use nwin_os.Common.Deque.{Deque, contains, contains-count}
use nwin_os.Task.{TaskId}
use nwin_os.Tasks.{TaskManager, ready, mark_ready}
use nwin_os.Tasks.Spec.{state_of, queued, IsValid}
use nwin_os.Scheduler.{requeue_current, schedule}
use nwin_os.Scheduler.Laws.{
  ticked, ticked-IsValid, requeue_idle, requeue_ready, requeue_blocked, manager-schedule,
  schedule-IsValid,
}

pub queue-schedule :
    (tm : TaskManager) (cr3 : ℕ) (next : TaskId) (rest : Deque)
    → IsValid tm
    → (requeue_current (ticked tm)).ready_queue ≡ next ∷ rest
    → ((schedule tm cr3).manager.current_task ≡ some next)
      × ((schedule tm cr3).manager.ready_queue ≡ rest)
queue-schedule tm cr3 next rest v e = rw (manager-schedule tm cr3 v, e) (refl, refl)

mark_ready_new :
    (tm : TaskManager) (id : TaskId)
    → contains id tm.ready_queue ≡ false
    → (mark_ready tm id).ready_queue ≡ tm.ready_queue ++ (id ∷ [])
unfolding mark_ready
mark_ready_new tm id e = rw e refl

mark_ready_old :
    (tm : TaskManager) (id : TaskId) → contains id tm.ready_queue ≡ true → mark_ready tm id ≡ tm
unfolding mark_ready
mark_ready_old tm id e = rw e refl

abbrev queue : TaskManager → Deque
queue tm = tm.ready_queue

-- A tick rotates the queue: when the current task is ready and does not wait already, the front of
-- the queue becomes current and the task that ran goes to the back.
pub schedule_rotates :
    (tm : TaskManager) (cr3 : ℕ) (id next : TaskId) (rest : Deque)
    → IsValid tm
    → tm.current_task ≡ some id
    → state_of tm id ≡ some ready
    → queued tm id ≡ 0
    → tm.ready_queue ≡ next ∷ rest
    → ((schedule tm cr3).manager.current_task ≡ some next)
      × ((schedule tm cr3).manager.ready_queue ≡ rest ++ (id ∷ []))
schedule_rotates tm cr3 id next rest v c s z e = queue-schedule tm cr3 next (rest ++ (id ∷ [])) v (
    ap (λ (m : TaskManager). m.ready_queue) (requeue_ready (ticked tm) id c s)
    ∙ mark_ready_new (ticked tm) id (ground (arith, contains-count id tm.ready_queue, z))
    ∙ ap (λ q. q ++ (id ∷ [])) e)

-- The queue after the current task is put back is the old one with at most one task behind it.
mark_ready-extends :
    (tm : TaskManager) (id : TaskId)
    → (more : Deque) × ((mark_ready tm id).ready_queue ≡ tm.ready_queue ++ more)
mark_ready-extends tm id = elim (Bool-cases (contains id tm.ready_queue)) [
  | inl e ↦ ([], ap queue (mark_ready_old tm id e) ∙ sym (append-nil tm.ready_queue))
  | inr e ↦ (id ∷ [], mark_ready_new tm id e)
]

requeue-extends :
    (tm : TaskManager)
    → IsValid tm
    → (more : Deque) × ((requeue_current tm).ready_queue ≡ tm.ready_queue ++ more)
requeue-extends tm v = elim (Option-cases tm.current_task) [
  | inl idle ↦ ([], ap queue (requeue_idle tm idle) ∙ sym (append-nil tm.ready_queue))
  | inr (id, e) ↦ elim (v.current_live id e) [
    | inl r ↦ let m = mark_ready-extends tm id in (m.0, ap queue (requeue_ready tm id e r) ∙ m.1)
    | inr b ↦ ([], ap queue (requeue_blocked tm id e b) ∙ sym (append-nil tm.ready_queue))
  ]
]

-- `n` timer ticks; `cr3` is the address space that each of them finds loaded.
unfoldable pub run_ticks : ℕ → (ℕ → ℕ) → TaskManager → TaskManager
run_ticks zero cr3 tm = tm
run_ticks (suc n) cr3 tm = run_ticks n (λ k. cr3 (suc k)) (schedule tm (cr3 0)).manager

-- No ready task starves: a task behind `length ahead` others in the queue is current after
-- `length ahead + 1` timer ticks, whatever the other tasks are, provided that the ticks are all that
-- touches the manager.
pub run_ticks_reaches :
    (ahead behind : Deque) (id : TaskId) (cr3 : ℕ → ℕ) (tm : TaskManager)
    → IsValid tm
    → tm.ready_queue ≡ ahead ++ (id ∷ behind)
    → (run_ticks (suc (length ahead)) cr3 tm).current_task ≡ some id
unfolding run_ticks
run_ticks_reaches [] behind id cr3 tm v e =
    let m = requeue-extends (ticked tm) (ticked-IsValid tm v) in
    (queue-schedule tm (cr3 0) id (behind ++ m.0) v (m.1 ∙ ap (λ q. q ++ m.0) e)).0
run_ticks_reaches (front ∷ ahead) behind id cr3 tm v e =
    let m = requeue-extends (ticked tm) (ticked-IsValid tm v) in
    let q =
      (queue-schedule tm (cr3 0) front ((ahead ++ (id ∷ behind)) ++ m.0) v
        (m.1 ∙ ap (λ q. q ++ m.0) e)).1 in
    run_ticks_reaches ahead (behind ++ m.0) id (λ k. cr3 (suc k)) (schedule tm (cr3 0)).manager
      (schedule-IsValid tm (cr3 0) v) (q ∙ append_assoc ahead (id ∷ behind) m.0)
