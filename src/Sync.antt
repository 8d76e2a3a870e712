-- ===== src/Sync.antt =====
-- src/core/sync.rs: semaphores, the mutex and the condition variable that park tasks.
--
-- An operation is cut where it can be interrupted. `wait` reads the counter, then either exchanges
-- it or, with interrupts off, tries again and parks the task; each of these is a step, and so are the
-- two halves of `signal`. What a mutex guards is not modelled: the guard is that a task holds it.
pub mod Exclusion
pub mod Wakeup
mod Tests
use nwin_os.Common.{
  ℕ, ◌+◌, ◌-◌, ◌%◌, ◌^◌, Bool, true, false, Option, none, some, List, [], ◌∷◌, ltb, ◌==◌,
  if◌then◌else◌, get_elem?, set,
}
use nwin_os.Common.Deque.{Deque, push_back, pop_front}
use nwin_os.Task.{TaskId}
use nwin_os.Tasks.{TaskManager, block_current_task, unblock_task}

pub record Semaphore : Type 0 where
  pub count : ℕ
  pub waiting_tasks : Deque

unfoldable pub new_semaphore : ℕ → Semaphore
new_semaphore initial_count = record { count = initial_count; waiting_tasks = [] }

unfoldable pub compare_exchange : Semaphore → ℕ → ℕ → Bool × Semaphore
compare_exchange s current new =
    if s.count == current then (true, record s { count = new }) else (false, s)

-- The exchange after a positive read: true if the permit is taken.
unfoldable pub take_permit : Semaphore → ℕ → Bool × Semaphore
unfolding compare_exchange
take_permit s current = compare_exchange s current (current - 1)

-- The current task goes to the end of the waiting tasks and is blocked.
unfoldable pub park_current : Deque → TaskManager → Deque × TaskManager
park_current waiting tm = elim tm.current_task [
  | none ↦ (waiting, tm)
  | some current_id ↦ (push_back waiting current_id, block_current_task tm)
]

abbrev park_on : Semaphore → Deque × TaskManager → Bool × Semaphore × TaskManager
park_on s (waiting, tm) = (false, record s { waiting_tasks = waiting }, tm)

-- `wait` with interrupts off: true if a permit was there after all, else the task is parked.
unfoldable pub wait_slow : Semaphore → TaskManager → Bool × Semaphore × TaskManager
unfolding take_permit park_current
wait_slow s tm =
    let (taken, s') = take_permit s s.count in
    if ltb 0 s.count
    then (if taken then (true, s', tm) else park_on s (park_current s.waiting_tasks tm))
    else park_on s (park_current s.waiting_tasks tm)

-- One turn of the loop of `wait` that nothing interrupts.
unfoldable pub wait_turn : Semaphore → TaskManager → Bool × Semaphore × TaskManager
unfolding take_permit wait_slow
wait_turn s tm =
    if ltb 0 s.count
    then (let (taken, s') = take_permit s s.count in (taken, s', tm))
    else wait_slow s tm

-- `count.fetch_add(1)`
unfoldable pub signal_add : Semaphore → Semaphore
signal_add s = record s { count = (s.count + 1) % 2 ^ 32 }

unfoldable pub wake_one : Deque → TaskManager → Deque × TaskManager
wake_one waiting tm = elim (pop_front waiting) [
  | none ↦ (waiting, tm)
  | some (task_id, rest) ↦ (rest, unblock_task tm task_id)
]

unfoldable pub signal_wake : Semaphore → TaskManager → Semaphore × TaskManager
unfolding wake_one
signal_wake s tm =
    let (waiting, tm') = wake_one s.waiting_tasks tm in (record s { waiting_tasks = waiting }, tm')

unfoldable pub signal : Semaphore → TaskManager → Semaphore × TaskManager
unfolding signal_add signal_wake
signal s tm = signal_wake (signal_add s) tm

unfoldable pub new_mutex : Semaphore
unfolding new_semaphore
new_mutex = new_semaphore 1

-- `CondVar::wait` up to the halt: parked on the condition, and the guard's mutex signalled.
unfoldable pub condvar_wait : Deque → Semaphore → TaskManager → Deque × Semaphore × TaskManager
unfolding park_current signal
condvar_wait waiting mutex tm =
    let (waiting', tm1) = park_current waiting tm in
    let (mutex', tm2) = signal mutex tm1 in (waiting', mutex', tm2)

unfoldable pub notify_one : Deque → TaskManager → Deque × TaskManager
unfolding wake_one
notify_one waiting tm = wake_one waiting tm

unfoldable pub notify_all : Deque → TaskManager → Deque × TaskManager
notify_all [] tm = ([], tm)
notify_all (task_id ∷ queue) tm = notify_all queue (unblock_task tm task_id)
