-- ===== src/Sync/Exclusion.antt =====
-- Mutual exclusion: however the tasks that use one mutex are interrupted, at most one holds it.
use nwin_os.Common.{
  ℕ, zero, suc, ◌+◌, ◌-◌, ◌≤◌, ◌<◌, ◌≡◌, refl, Bool, true, false, some, List, [], ◌∷◌, ltb,
  if◌then◌else◌, get_elem?, set, replicate, lt→ltb, ltb_above, dec_lt, arith,
}
use nwin_os.Tasks.{TaskManager}
use nwin_os.Sync.{
  Semaphore, take_permit, compare_exchange, wait_slow, signal_add, signal_wake, new_mutex,
  new_semaphore,
}

-- Where a task is: outside, or at the start of a turn of the loop of `wait`; with the counter read;
-- with the mutex; or between the halves of `signal`.
pub data Pc : Type 0 where
  outside : Pc
  loaded : ℕ → Pc
  holding : Pc
  signalled : Pc

pub record World : Type 0 where
  pub mutex : Semaphore
  pub tasks : TaskManager
  pub threads : List Pc

abbrev is_holding : Pc → ℕ
is_holding holding = 1
is_holding _ = 0

-- how many hold the mutex
unfoldable pub holders : List Pc → ℕ
holders [] = 0
holders (pc ∷ ts) = is_holding pc + holders ts

-- What a task at `pc` does next. It calls `lock` when it is outside and drops the guard when it holds
-- it.
abbrev pub enter : Bool → Pc
enter true = holding
enter false = outside

unfoldable pub act : Semaphore → TaskManager → Pc → Pc × Semaphore × TaskManager
act s tm outside = (loaded s.count, s, tm)
act s tm (loaded current) =
    if ltb 0 current
    then (let (taken, s') = take_permit s current in (enter taken, s', tm))
    else (let (taken, s', tm') = wait_slow s tm in (enter taken, s', tm'))
act s tm holding = (signalled, signal_add s, tm)
act s tm signalled = let (s', tm') = signal_wake s tm in (outside, s', tm')

-- One step of some task, or any change of the task manager by the rest of the kernel.
pub data Runs : World → World → Type 0 where
  acts :
      (w : World) (i : ℕ) (pc : Pc)
      → get_elem? w.threads i ≡ some pc
      → Runs w (
          let (pc', s', tm') = act w.mutex w.tasks pc in
          record { mutex = s'; tasks = tm'; threads = set w.threads i pc' })
  elsewhere : (w : World) (tm : TaskManager) → Runs w (record w { tasks = tm })

pub data History : World → World → Type 0 where
  start : (w : World) → History w w
  then_runs : {w w1 w2 : World} → History w w1 → Runs w1 w2 → History w w2

holders-set :
    (ts : List Pc) (i : ℕ) (pc pc' : Pc)
    → get_elem? ts i ≡ some pc
    → holders (set ts i pc') + is_holding pc ≡ holders ts + is_holding pc'
unfolding holders
holders-set [] i pc pc' e = ground arith
holders-set (x ∷ ts) zero pc pc' e = let same : x ≡ pc = ground (arith, e) in rw same (omega arith)
holders-set (x ∷ ts) (suc i) pc pc' e = omega (arith, holders-set ts i pc pc' e)

holders_at :
    (ts : List Pc) (i : ℕ) (pc : Pc) → get_elem? ts i ≡ some pc → is_holding pc ≤ holders ts
unfolding holders
holders_at [] i pc e = ground arith
holders_at (x ∷ ts) zero pc e = let same : x ≡ pc = ground (arith, e) in rw same (omega arith)
holders_at (x ∷ ts) (suc i) pc e = omega (arith, holders_at ts i pc e)

-- What an attempt does to the counter.
take_permit-count :
    (s : Semaphore) (current others : ℕ)
    → 0 < current
    → s.count + others ≡ 1
    → (take_permit s current).1.count + (is_holding (enter (take_permit s current).0) + others) ≡ 1
unfolding take_permit compare_exchange
take_permit-count s current others h e = ground arith

wait_slow-count :
    (s : Semaphore) (tm : TaskManager) (others : ℕ)
    → s.count + others ≡ 1
    → (wait_slow s tm).1.count + (is_holding (enter (wait_slow s tm).0) + others) ≡ 1
unfolding wait_slow take_permit compare_exchange
wait_slow-count s tm others e = ground arith

signal_wake-count : (s : Semaphore) (tm : TaskManager) → (signal_wake s tm).0.count ≡ s.count
unfolding signal_wake
signal_wake-count s tm = refl

-- A step of one task moves the permit between the counter and the task.
act_keeps :
    (s : Semaphore) (tm : TaskManager) (pc : Pc) (others : ℕ)
    → s.count + (is_holding pc + others) ≡ 1
    → (act s tm pc).1.count + (is_holding (act s tm pc).0 + others) ≡ 1
unfolding act signal_add
act_keeps s tm outside others h = h
act_keeps s tm (loaded current) others h = elim (dec_lt 0 current) [
  | yes l ↦ rw (lt→ltb 0 current l) (take_permit-count s current others l (omega (arith, h)))
  | no l ↦
      rw (ltb_above 0 current (omega (arith, l))) (wait_slow-count s tm others (omega (arith, h)))
]
act_keeps s tm holding others h = omega (arith, h)
act_keeps s tm signalled others h = omega (arith, signal_wake-count s tm, h)

-- The permit is in the counter or with one task.
abbrev Conserved : World → Type 0
Conserved w = w.mutex.count + holders w.threads ≡ 1

one_run_conserves : {w w' : World} → Runs w w' → Conserved w → Conserved w'
one_run_conserves (elsewhere w tm) h = h
one_run_conserves (acts w i pc e) h =
    let others = holders w.threads - is_holding pc in
    let least : is_holding pc ≤ holders w.threads = holders_at w.threads i pc e in
    let kept = act_keeps w.mutex w.tasks pc others (omega (arith, h, least)) in
    omega (arith, kept, least, holders-set w.threads i pc (act w.mutex w.tasks pc).0 e)

all_runs_conserve : {w w' : World} → History w w' → Conserved w → Conserved w'
all_runs_conserve (start w) h = h
all_runs_conserve (then_runs hist r) h = one_run_conserves r (all_runs_conserve hist h)

holders-replicate : (n : ℕ) → holders (replicate n outside) ≡ 0
unfolding holders
holders-replicate zero = refl
holders-replicate (suc n) = omega (arith, holders-replicate n)

-- `n` tasks, none of which has touched the mutex yet.
abbrev pub fresh : ℕ → TaskManager → World
fresh n tm = record { mutex = new_mutex; tasks = tm; threads = replicate n outside }

-- Mutual exclusion: after any history of any number of tasks that lock and unlock one new mutex,
-- interrupted between any two steps and with any other changes of the task manager in between, the
-- tasks that hold it and the permits left in its counter are one together, so at most one task holds
-- it.
pub mutual_exclusion :
    (n : ℕ) (tm : TaskManager) (w : World)
    → History (fresh n tm) w
    → (w.mutex.count + holders w.threads ≡ 1) × (holders w.threads ≤ 1)
unfolding new_mutex new_semaphore
mutual_exclusion n tm w h =
    let c = all_runs_conserve h (omega (arith, holders-replicate n)) in (c, omega (arith, c))
