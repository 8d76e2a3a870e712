-- ===== src/Syscalls/Current.antt =====
-- The current task, which the system calls of src/core/syscall.rs look up and change in place.
use nwin_os.Common.{◌≡◌, refl, ◌∙◌, ap, Option, none, some, arith}
use nwin_os.Common.Map.{get-insert}
use nwin_os.Task.{Task, TaskId}
use nwin_os.Tasks.{TaskManager}
use nwin_os.Tasks.Spec.{IsValid}
use nwin_os.Syscalls.{task_at, current, put_at, put_current}

task_at-put_at :
    (tm : TaskManager) (t t' : Task) (o : Option TaskId)
    → task_at tm o ≡ some t
    → task_at (put_at tm t' o) o ≡ some t'
task_at-put_at tm t t' none e = absurd (ground (arith, e))
task_at-put_at tm t t' (some id) e = ground (arith, get-insert id id t' tm.task_registry)

same_current :
    (tm : TaskManager) (t : Task) (o : Option TaskId)
    → (put_at tm t o).current_task ≡ tm.current_task
same_current tm t none = refl
same_current tm t (some id) = refl

pub current-put_current :
    (tm : TaskManager) (t t' : Task) → current tm ≡ some t → current (put_current tm t') ≡ some t'
unfolding current put_current
current-put_current tm t t' e =
    ap (task_at (put_at tm t' tm.current_task)) (same_current tm t' tm.current_task)
    ∙ task_at-put_at tm t t' tm.current_task e

-- A registered task may change without the manager losing its invariant.
put_at-IsValid :
    (tm : TaskManager) (t t' : Task) (o : Option TaskId)
    → task_at tm o ≡ some t
    → IsValid tm
    → IsValid (put_at tm t' o)
put_at-IsValid tm t t' none e v = v
put_at-IsValid tm t t' (some id) e v = record {
  unique = v.unique;
  only_ready = v.only_ready;
  not_lost = v.not_lost;
  current_live = v.current_live;
  registered = λ j. ground (arith, v.registered j, get-insert id j t' tm.task_registry, e);
}

pub put_current-IsValid :
    (tm : TaskManager) (t t' : Task)
    → current tm ≡ some t
    → IsValid tm
    → IsValid (put_current tm t')
unfolding current put_current
put_current-IsValid tm t t' e v = put_at-IsValid tm t t' tm.current_task e v
