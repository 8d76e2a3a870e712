-- ===== src/Scheduler/Laws.antt =====
-- Scheduling keeps the invariant of the task manager.
use nwin_os.Common.{
  ℕ, ◌+◌, ◌%◌, ◌^◌, ◌≤◌, ◌<◌, ◌≡◌, ◌≢◌, refl, sym, ◌∙◌, ap, subst, true, ◌&&◌, inl, inr, Option,
  none, some, [], ◌∷◌, ◌==◌, if◌then◌else◌, arith, Option-cases, Bool-cases,
}
use nwin_os.Common.Map
use nwin_os.Common.Map.{is_some}
use nwin_os.Common.Deque.{Deque, count, count-push_back, contains-count}
use nwin_os.Task.{Task, TaskId}
use nwin_os.Tasks.{TaskManager, ready, blocked, mark_ready, fetch_next_task}
use nwin_os.Tasks.Spec.{state_of, queued, IsValid}
use nwin_os.Scheduler.{
  OldRsp, boot_rsp, task_rsp, requeue_current, load_next, switch_from, is_current, dispatch,
  schedule,
}

-- `mark_ready` counts its task once and no other.
count-mark_ready :
    (tm : TaskManager) (id j : TaskId)
    → queued (mark_ready tm id) j ≡ (if (id == j) && (queued tm id == 0) then 1 else queued tm j)
unfolding mark_ready
count-mark_ready tm id j =
    ground (arith, contains-count id tm.ready_queue, count-push_back j id tm.ready_queue)

-- The queue once the current task has been put back: every ready task waits, exactly once.
pub record Requeued (tm tm1 : TaskManager) : Type 0 where
  pub same_states : tm1.task_states ≡ tm.task_states
  pub same_registry : tm1.task_registry ≡ tm.task_registry
  pub same_current : tm1.current_task ≡ tm.current_task
  pub unique : (id : TaskId) → queued tm1 id ≤ 1
  pub only_ready : (id : TaskId) → 0 < queued tm1 id → state_of tm id ≡ some ready
  pub all_ready : (id : TaskId) → state_of tm id ≡ some ready → 0 < queued tm1 id

pub requeue_idle : (tm : TaskManager) → tm.current_task ≡ none → requeue_current tm ≡ tm
unfolding requeue_current
requeue_idle tm e = ground arith

pub requeue_ready :
    (tm : TaskManager) (id : TaskId)
    → tm.current_task ≡ some id
    → state_of tm id ≡ some ready
    → requeue_current tm ≡ mark_ready tm id
unfolding requeue_current
requeue_ready tm id e s = ground arith

pub requeue_blocked :
    (tm : TaskManager) (id : TaskId)
    → tm.current_task ≡ some id
    → state_of tm id ≡ some blocked
    → requeue_current tm ≡ tm
unfolding requeue_current
requeue_blocked tm id e s = ground arith

unchanged-Requeued :
    (tm : TaskManager)
    → IsValid tm
    → ((id : TaskId) → tm.current_task ≡ some id → state_of tm id ≢ some ready)
    → Requeued tm tm
unchanged-Requeued tm v idle = record {
  same_states = refl;
  same_registry = refl;
  same_current = refl;
  unique = v.unique;
  only_ready = v.only_ready;
  all_ready = λ id h. ground (arith, v.not_lost id h, idle id);
}

keeps-mark_ready :
    (tm : TaskManager) (id : TaskId)
    → ((mark_ready tm id).task_states ≡ tm.task_states)
      × ((mark_ready tm id).task_registry ≡ tm.task_registry)
      × ((mark_ready tm id).current_task ≡ tm.current_task)
unfolding mark_ready
keeps-mark_ready tm id = (ground arith, ground arith, ground arith)

mark_ready-Requeued :
    (tm : TaskManager) (id : TaskId)
    → IsValid tm
    → tm.current_task ≡ some id
    → state_of tm id ≡ some ready
    → Requeued tm (mark_ready tm id)
mark_ready-Requeued tm id v e s = record {
  same_states = (keeps-mark_ready tm id).0;
  same_registry = (keeps-mark_ready tm id).1;
  same_current = (keeps-mark_ready tm id).2;
  unique = λ j. ground (arith, count-mark_ready tm id j, v.unique j);
  only_ready = λ j h. ground (arith, count-mark_ready tm id j, v.only_ready j, h);
  all_ready = λ j h. ground (arith, count-mark_ready tm id j, v.not_lost j h);
}

pub requeue_current-Requeued : (tm : TaskManager) → IsValid tm → Requeued tm (requeue_current tm)
requeue_current-Requeued tm v = elim (Option-cases tm.current_task) [
  | inl idle ↦
      subst (Requeued tm) (sym (requeue_idle tm idle)) (unchanged-Requeued tm v (λ id e. cc))
  | inr (id, e) ↦ elim (v.current_live id e) [
    | inl r ↦ subst (Requeued tm) (sym (requeue_ready tm id e r)) (mark_ready-Requeued tm id v e r)
    | inr b ↦
        subst (Requeued tm) (sym (requeue_blocked tm id e b))
          (unchanged-Requeued tm v (λ j e' r. cc))
  ]
]

abbrev pub ticked : TaskManager → TaskManager
ticked tm = record tm { ticks = (tm.ticks + 1) % 2 ^ 64 }

pub ticked-IsValid : (tm : TaskManager) → IsValid tm → IsValid (ticked tm)
ticked-IsValid tm v = record {
  unique = v.unique;
  only_ready = v.only_ready;
  not_lost = v.not_lost;
  current_live = v.current_live;
  registered = v.registered;
}

pub requeue-Requeued : (tm : TaskManager) → IsValid tm → Requeued tm (requeue_current (ticked tm))
requeue-Requeued tm v =
    let h = requeue_current-Requeued (ticked tm) (ticked-IsValid tm v) in
    record {
      same_states = h.same_states;
      same_registry = h.same_registry;
      same_current = h.same_current;
      unique = h.unique;
      only_ready = h.only_ready;
      all_ready = h.all_ready;
    }

-- The front of the queue becomes the current task.
abbrev pub take_front : TaskManager → Deque → TaskManager
take_front tm [] = tm
take_front tm (next ∷ rest) = record tm { ready_queue = rest; current_task = some next }

manager-load_next :
    (tm : TaskManager) (old : OldRsp) (t : Option Task) → (load_next tm old t).manager ≡ tm
manager-load_next tm old none = refl
manager-load_next tm old (some t) = refl

manager-switch_from :
    (tm : TaskManager) (c : Option TaskId) (t : Option Task) → (switch_from tm c t).manager ≡ tm
manager-switch_from tm none t = manager-load_next tm boot_rsp t
manager-switch_from tm (some c) t = elim (Option-cases (Map.get c tm.task_registry)) [
  | inl e ↦ rw (e, switch_from) refl
  | inr (o, e) ↦ rw (e, switch_from) (manager-load_next tm (task_rsp c) t)
]

same_task :
    (tm : TaskManager) (c : Option TaskId) (next : TaskId)
    → tm.current_task ≡ c
    → is_current c next ≡ true
    → tm ≡ record tm { current_task = some next }
same_task tm none next e h = ground (arith, h)
same_task tm (some c) next e h = ap (λ x. record tm { current_task = x }) (e ∙ ground (arith, h))

manager-dispatch :
    (tm : TaskManager) (next : TaskId)
    → (dispatch tm tm.current_task (some next)).manager ≡ record tm { current_task = some next }
manager-dispatch tm next = elim (Bool-cases (is_current tm.current_task next)) [
  | inl same ↦ rw same (same_task tm tm.current_task next refl same)
  | inr other ↦
      rw other (manager-switch_from (record tm { current_task = some next }) tm.current_task _)
]

pub fetch_empty : (r : TaskManager) → r.ready_queue ≡ [] → fetch_next_task r ≡ (none, r)
unfolding fetch_next_task
fetch_empty r e = rw e refl

pub fetch_front :
    (r : TaskManager) (next : TaskId) (rest : Deque)
    → r.ready_queue ≡ next ∷ rest
    → fetch_next_task r ≡ (some next, record r { ready_queue = rest })
unfolding fetch_next_task
fetch_front r next rest e = rw e refl

fetch_dispatch :
    (r : TaskManager) (q : Deque)
    → r.ready_queue ≡ q
    → (dispatch (fetch_next_task r).1 r.current_task (fetch_next_task r).0).manager ≡ take_front r q
fetch_dispatch r [] e = rw (fetch_empty r e) refl
fetch_dispatch r (next ∷ rest) e =
    rw (fetch_front r next rest e) (manager-dispatch (record r { ready_queue = rest }) next)

-- What a tick does to the manager: put the current task back, then take the front of the queue.
pub manager-schedule :
    (tm : TaskManager) (cr3 : ℕ)
    → IsValid tm
    → (schedule tm cr3).manager
      ≡ take_front (requeue_current (ticked tm)) (requeue_current (ticked tm)).ready_queue
unfolding schedule
manager-schedule tm cr3 v =
    let r = requeue_current (ticked tm) in
    let same = (requeue-Requeued tm v).same_current in
    subst
      (λ c.
        (dispatch (fetch_next_task r).1 c (fetch_next_task r).0).manager
        ≡ take_front r r.ready_queue)
      same (fetch_dispatch r r.ready_queue refl)

queued_front :
    (r : TaskManager) (next : TaskId) (rest : Deque) (id : TaskId)
    → r.ready_queue ≡ next ∷ rest
    → queued r id ≡ (if next == id then 1 else 0) + count id rest
unfolding count
queued_front r next rest id e = rw e refl

-- The front of the queue is a ready task.
pub front_ready :
    (tm r : TaskManager) (next : TaskId) (rest : Deque)
    → Requeued tm r
    → r.ready_queue ≡ next ∷ rest
    → state_of tm next ≡ some ready
front_ready tm r next rest h e = h.only_ready next (ground (arith, queued_front r next rest next e))

take_front-IsValid :
    (tm r : TaskManager) (q : Deque)
    → IsValid tm
    → Requeued tm r
    → r.ready_queue ≡ q
    → IsValid (take_front r q)
take_front-IsValid tm r [] v h e = record {
  unique = h.unique;
  only_ready = λ id l. ap (Map.get id) h.same_states ∙ h.only_ready id l;
  not_lost = λ id s. inl (h.all_ready id (ap (Map.get id) (sym h.same_states) ∙ s));
  current_live = λ id c. ground (arith, v.current_live id, h.same_current, h.same_states, c);
  registered = λ id. ground (arith, v.registered id, h.same_states, h.same_registry);
}
take_front-IsValid tm r (next ∷ rest) v h e =
    let split = λ (id : TaskId). queued_front r next rest id e in
    let is_front : state_of r next ≡ some ready =
      ap (Map.get next) h.same_states ∙ front_ready tm r next rest h e in
    record {
      unique = λ id. ground (arith, split id, h.unique id);
      only_ready =
          λ id l. ap (Map.get id) h.same_states ∙ h.only_ready id (ground (arith, split id, l));
      not_lost = λ id s.
          ground (arith, split id, h.all_ready id (ap (Map.get id) (sym h.same_states) ∙ s));
      current_live = λ id c. inl (ground (arith, c, is_front));
      registered = λ id. ground (arith, v.registered id, h.same_states, h.same_registry);
    }

-- A timer tick keeps the invariant of the task manager, whatever address space is loaded.
pub schedule-IsValid : (tm : TaskManager) (cr3 : ℕ) → IsValid tm → IsValid (schedule tm cr3).manager
schedule-IsValid tm cr3 v =
    subst IsValid (sym (manager-schedule tm cr3 v))
      (take_front-IsValid tm (requeue_current (ticked tm)) _ v (requeue-Requeued tm v) refl)
