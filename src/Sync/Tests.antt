-- ===== src/Sync/Tests.antt =====
-- The shell and the editor on one mutex, with a server that is blocked: tests, and instances of the
-- theorems.
use nwin_os.Common.{◌+◌, ◌≤◌, ◌≡◌, refl, [], ◌∷◌}
use nwin_os.Tasks.Tests.{busy}
use nwin_os.Sync.{new_mutex, new_semaphore, take_permit, compare_exchange}
use nwin_os.Sync.Exclusion.{
  World, outside, loaded, holding, act, holders, History, start, then_runs, acts, fresh,
  mutual_exclusion,
}

-- The first of two tasks has locked the mutex.
abbrev after_lock : World
after_lock = record {
  mutex = record { count = 0; waiting_tasks = [] };
  tasks = busy;
  threads = holding ∷ outside ∷ [];
}

abbrev after_read : World
after_read = record { mutex = new_mutex; tasks = busy; threads = loaded 1 ∷ outside ∷ [] }

lock_steps : History (fresh 2 busy) after_lock
unfolding new_mutex new_semaphore act take_permit compare_exchange
lock_steps =
    then_runs
      (then_runs {w1 = fresh 2 busy} {w2 = after_read} (start (fresh 2 busy))
        (acts (fresh 2 busy) 0 outside refl))
      (acts after_read 0 (loaded 1) refl)

mutual_exclusion_example :
    (after_lock.mutex.count + holders after_lock.threads ≡ 1) × (holders after_lock.threads ≤ 1)
mutual_exclusion_example = mutual_exclusion 2 busy after_lock lock_steps
