-- ===== src/Sync/Wakeup.antt =====
-- What parking and waking do to the task manager, and whom a signal wakes.
use nwin_os.Common.{
  ◌+◌, ◌-◌, ◌%◌, ◌^◌, ◌<◌, ◌≡◌, ◌≢◌, refl, sym, ◌∙◌, true, false, ◌⊎◌, inl, inr, some, [], ◌∷◌,
  lt→ltb, ltb_above, ==_refl, dec_lt, arith, ℕ_discrete,
}
use nwin_os.Common.Deque.{Deque, push_back, count, count-push_back}
use nwin_os.Task.{TaskId}
use nwin_os.Tasks.{TaskManager, ready, blocked, block_current_task, unblock_task}
use nwin_os.Tasks.Spec.{
  state_of, queued, IsValid, state-set_task_state, current-set_task_state, queued-set_task_state,
}
use nwin_os.Tasks.Lifecycle.{
  block_busy, block_current_task-IsValid, unblock_blocked, unblock_other, unblock_task-IsValid,
  blocked_or_not,
}
use nwin_os.Sync.{
  Semaphore, compare_exchange, take_permit, park_current, wait_slow, wait_turn, wake_one,
  signal_add, signal_wake, signal, condvar_wait, notify_all,
}

-- Waking a blocked task makes it ready and queues it once; waking another changes nothing.
unblock-ready :
    (tm : TaskManager) (id : TaskId)
    → IsValid tm
    → state_of tm id ≡ some blocked
    → (state_of (unblock_task tm id) id ≡ some ready) × (queued (unblock_task tm id) id ≡ 1)
unblock-ready tm id v b = rw (unblock_blocked tm id b) (
  ground (arith, state-set_task_state tm id ready id),
  ground (arith, queued-set_task_state tm id ready id, v.only_ready id, b),
)

unblock_others :
    (tm : TaskManager) (id j : TaskId) → j ≢ id → state_of (unblock_task tm id) j ≡ state_of tm j
unblock_others tm id j ne = elim (blocked_or_not tm id) [
  | inl b ↦ rw (unblock_blocked tm id b) (ground (arith, state-set_task_state tm id ready j))
  | inr nb ↦ rw (unblock_other tm id nb) refl
]

park_current_busy :
    (waiting : Deque) (tm : TaskManager) (id : TaskId)
    → tm.current_task ≡ some id
    → park_current waiting tm ≡ (push_back waiting id, block_current_task tm)
unfolding park_current
park_current_busy waiting tm id e = rw e refl

wait_taken :
    (s : Semaphore) (tm : TaskManager)
    → 0 < s.count
    → wait_turn s tm ≡ (true, record s { count = s.count - 1 }, tm)
unfolding wait_turn take_permit compare_exchange
wait_taken s tm h = rw (lt→ltb 0 s.count h, ==_refl s.count) refl

wait_parked :
    (s : Semaphore) (tm : TaskManager) (id : TaskId)
    → s.count ≡ 0
    → tm.current_task ≡ some id
    → wait_turn s tm
      ≡ (false, record s { waiting_tasks = push_back s.waiting_tasks id }, block_current_task tm)
unfolding wait_turn wait_slow take_permit compare_exchange
wait_parked s tm id z e =
    rw (ltb_above 0 s.count (omega (arith, z)))
      (rw (park_current_busy s.waiting_tasks tm id e) refl)

blocks_current :
    (tm : TaskManager) (id : TaskId)
    → tm.current_task ≡ some id
    → (state_of (block_current_task tm) id ≡ some blocked)
      × ((block_current_task tm).current_task ≡ some id)
blocks_current tm id e = rw (block_busy tm id e) (
  ground (arith, state-set_task_state tm id blocked id),
  current-set_task_state tm id blocked ∙ e,
)

-- One uninterrupted turn of `wait` takes a permit if there is one and changes nothing else; if there
-- is none, it puts the current task behind the waiting ones and blocks it. The manager stays valid.
pub wait_turn_lem :
    (s : Semaphore) (tm : TaskManager) (id : TaskId)
    → IsValid tm
    → tm.current_task ≡ some id
    → ((0 < s.count) × (wait_turn s tm ≡ (true, record s { count = s.count - 1 }, tm)))
      ⊎ ((s.count ≡ 0)
          × (wait_turn s tm ≡ (
            false,
            record s { waiting_tasks = push_back s.waiting_tasks id },
            block_current_task tm,
          ))
          × (state_of (wait_turn s tm).2 id ≡ some blocked)
          × IsValid (wait_turn s tm).2)
wait_turn_lem s tm id v e = elim (dec_lt 0 s.count) [
  | yes h ↦ inl (h, wait_taken s tm h)
  | no h ↦
      let z : s.count ≡ 0 = omega (arith, h) in
      let parked = wait_parked s tm id z e in
      inr (
        z,
        parked,
        rw parked (blocks_current tm id e).0,
        rw parked (block_current_task-IsValid tm v),
      )
]

-- A signal wakes the task that has waited longest: if the front of the waiting tasks is blocked, it
-- is ready afterwards and in the run queue once, it waits no more, the counter is one higher (modulo
-- 2^32), and the manager stays valid.
pub signal_wakes :
    (s : Semaphore) (tm : TaskManager) (id : TaskId) (rest : Deque)
    → IsValid tm
    → s.waiting_tasks ≡ id ∷ rest
    → state_of tm id ≡ some blocked
    → ((signal s tm).0 ≡ record { count = (s.count + 1) % 2 ^ 32; waiting_tasks = rest })
      × (state_of (signal s tm).1 id ≡ some ready)
      × (queued (signal s tm).1 id ≡ 1)
      × IsValid (signal s tm).1
unfolding signal signal_add signal_wake wake_one
signal_wakes s tm id rest v e b =
    let woken = unblock-ready tm id v b in
    rw e (refl, woken.0, woken.1, unblock_task-IsValid tm id v)

-- A parked task that goes on before another is scheduled, because some interrupt ends its halt,
-- waits a second time if there is still no permit: its identifier then stands twice more among the
-- waiting tasks than before.
pub wait_turn_again :
    (s : Semaphore) (tm : TaskManager) (id : TaskId)
    → s.count ≡ 0
    → tm.current_task ≡ some id
    → count id (wait_turn (wait_turn s tm).1 (wait_turn s tm).2).1.waiting_tasks
      ≡ count id s.waiting_tasks + 2
wait_turn_again s tm id z e =
    let s1 : Semaphore = record s { waiting_tasks = push_back s.waiting_tasks id } in
    rw (wait_parked s tm id z e) (
      rw (wait_parked s1 (block_current_task tm) id z (blocks_current tm id e).1) (
        ground
          (arith, count-push_back id id s1.waiting_tasks, count-push_back id id s.waiting_tasks)))

-- A signal whose front entry is a task that is not blocked drops the entry and leaves the manager
-- unchanged, so it wakes nobody.
pub signal_stale :
    (s : Semaphore) (tm : TaskManager) (id : TaskId) (rest : Deque)
    → s.waiting_tasks ≡ id ∷ rest
    → state_of tm id ≢ some blocked
    → signal s tm ≡ (record { count = (s.count + 1) % 2 ^ 32; waiting_tasks = rest }, tm)
unfolding signal signal_add signal_wake wake_one
signal_stale s tm id rest e nb = rw e (rw (unblock_other tm id nb) refl)

keeps_ready :
    (waiting : Deque) (tm : TaskManager) (id : TaskId)
    → state_of tm id ≡ some ready
    → state_of (notify_all waiting tm).1 id ≡ some ready
unfolding notify_all
keeps_ready [] tm id r = r
keeps_ready (x ∷ waiting) tm id r = elim (blocked_or_not tm x) [
  | inl b ↦
      keeps_ready waiting (unblock_task tm x) id
        (rw (unblock_blocked tm x b) (ground (arith, state-set_task_state tm x ready id)))
  | inr nb ↦ keeps_ready waiting (unblock_task tm x) id (rw (unblock_other tm x nb) r)
]

notify_all-empty : (waiting : Deque) (tm : TaskManager) → (notify_all waiting tm).0 ≡ []
unfolding notify_all
notify_all-empty [] tm = refl
notify_all-empty (x ∷ waiting) tm = notify_all-empty waiting (unblock_task tm x)

notify_all-IsValid :
    (waiting : Deque) (tm : TaskManager) → IsValid tm → IsValid (notify_all waiting tm).1
unfolding notify_all
notify_all-IsValid [] tm v = v
notify_all-IsValid (x ∷ waiting) tm v =
    notify_all-IsValid waiting (unblock_task tm x) (unblock_task-IsValid tm x v)

notify_all-ready :
    (waiting : Deque) (tm : TaskManager) (id : TaskId)
    → IsValid tm
    → 0 < count id waiting
    → state_of tm id ≡ some blocked
    → state_of (notify_all waiting tm).1 id ≡ some ready
unfolding notify_all count
notify_all-ready [] tm id v h b = ground (arith, h)
notify_all-ready (x ∷ waiting) tm id v h b = elim (ℕ_discrete x id) [
  | yes same ↦ keeps_ready waiting (unblock_task tm x) id (rw same (unblock-ready tm id v b).0)
  | no other ↦
      notify_all-ready waiting (unblock_task tm x) id (unblock_task-IsValid tm x v)
        (ground (arith, h, other)) (unblock_others tm x id (λ e. other (sym e)) ∙ b)
]

-- `notify_all` wakes every blocked task that waits on the condition and empties the list; the
-- manager stays valid.
pub notify_all_wakes :
    (waiting : Deque) (tm : TaskManager) (id : TaskId)
    → IsValid tm
    → 0 < count id waiting
    → state_of tm id ≡ some blocked
    → ((notify_all waiting tm).0 ≡ [])
      × (state_of (notify_all waiting tm).1 id ≡ some ready)
      × IsValid (notify_all waiting tm).1
notify_all_wakes waiting tm id v h b = (
  notify_all-empty waiting tm,
  notify_all-ready waiting tm id v h b,
  notify_all-IsValid waiting tm v,
)

wake_one_others :
    (waiting : Deque) (tm : TaskManager) (j : TaskId)
    → count j waiting ≡ 0
    → state_of (wake_one waiting tm).1 j ≡ state_of tm j
unfolding wake_one count
wake_one_others [] tm j z = refl
wake_one_others (x ∷ rest) tm j z = unblock_others tm x j (λ e. ground (arith, z, e))

wake_one-IsValid :
    (waiting : Deque) (tm : TaskManager) → IsValid tm → IsValid (wake_one waiting tm).1
unfolding wake_one
wake_one-IsValid [] tm v = v
wake_one-IsValid (x ∷ rest) tm v = unblock_task-IsValid tm x v

-- `CondVar::wait` parks the current task on the condition and gives the mutex back: the task is
-- blocked and last on the condition's list, the mutex has one more permit (modulo 2^32), so the lock
-- is not held while the task is parked, and the manager stays valid. It is stated for a mutex whose
-- longest-waiting task, if there is one, is not the task itself.
pub condvar_wait_releases :
    (waiting : Deque) (mutex : Semaphore) (tm : TaskManager) (id : TaskId)
    → IsValid tm
    → tm.current_task ≡ some id
    → count id mutex.waiting_tasks ≡ 0
    → ((condvar_wait waiting mutex tm).0 ≡ push_back waiting id)
      × ((condvar_wait waiting mutex tm).1.count ≡ (mutex.count + 1) % 2 ^ 32)
      × (state_of (condvar_wait waiting mutex tm).2 id ≡ some blocked)
      × IsValid (condvar_wait waiting mutex tm).2
unfolding condvar_wait signal signal_add signal_wake
condvar_wait_releases waiting mutex tm id v e z =
    let tm1 = block_current_task tm in
    rw (park_current_busy waiting tm id e) (
      refl,
      refl,
      wake_one_others mutex.waiting_tasks tm1 id z ∙ (blocks_current tm id e).0,
      wake_one-IsValid mutex.waiting_tasks tm1 (block_current_task-IsValid tm v),
    )
