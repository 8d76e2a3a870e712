-- ===== src/Reaper.antt =====
-- How a dead task is taken away: `destroy_user_address_space` of src/mm/memory.rs, and one turn of the
-- reaper of src/task/mod.rs.
--
-- Tables are walked in memory, seen in 64-bit words by physical address. A release that the frame
-- allocator refuses is a panic.
pub mod Releases
pub mod Walk
pub mod Destroys
mod Tests
use nwin_os.Common.{
  ℕ, zero, suc, ◌+◌, ◌*◌, Bool, true, false, not, ◌&&◌, Option, none, some, List, [], ◌∷◌, ◌==◌,
  if◌then◌else◌,
}
use nwin_os.Common.Map.{Map}
use nwin_os.Common.Outcome.{Outcome, returned, panicked}
use nwin_os.Frames.{BitmapFrameAllocator, deallocate_frame}
use nwin_os.Scheduler.{is_user}
use nwin_os.Task.{Task, TaskId, Memory, store}
use nwin_os.Tasks.{TaskManager, TaskState, is_dead, kill}
use nwin_os.UserMemory.{user, huge, frame_of, read_entry}

pub record Space : Type 0 where
  pub memory : Memory
  pub frames : BitmapFrameAllocator

abbrev pub with_frames : Space → Outcome BitmapFrameAllocator → Outcome Space
with_frames s panicked = panicked
with_frames s (returned frames) = returned (record s { frames = frames })

-- `cow_deallocate_frame`
unfoldable pub release : ℕ → Space → Outcome Space
release phys_addr s = with_frames s (deallocate_frame s.frames phys_addr)

-- `set_unused`
abbrev pub set_unused : ℕ → ℕ → Outcome Space → Outcome Space
set_unused table index panicked = panicked
set_unused table index (returned s) =
    returned (record s { memory = store s.memory (table + index * 8) 0 })

abbrev pub release_entry : ℕ → ℕ → Outcome Space → Outcome Space
release_entry table index panicked = panicked
release_entry table index (returned s) =
    set_unused table index (release (frame_of (read_entry s.memory table index)) s)

abbrev pub and_go_on : (Space → Outcome Space) → Outcome Space → Outcome Space
and_go_on go_on panicked = panicked
and_go_on go_on (returned s) = go_on s

abbrev pub is_owned : ℕ → Bool
is_owned entry = not (entry == 0) && user entry

-- `n` entries of a table: what lies below an entry of the user's, then the entry itself.
unfoldable pub clear_table :
    (ℕ → Space → Outcome Space) → (table n index : ℕ) → Space → Outcome Space
clear_table below table zero index s = returned s
clear_table below table (suc n) index s =
    let entry = read_entry s.memory table index in
    let cleared =
      and_go_on (clear_table below table n (index + 1))
        (release_entry table index (below entry s)) in
    let kept = clear_table below table n (index + 1) s in if is_owned entry then cleared else kept

abbrev pub below_level1 : ℕ → Space → Outcome Space
below_level1 entry s = returned s

abbrev pub below_level2 : ℕ → Space → Outcome Space
below_level2 entry s =
    if huge entry then returned s else clear_table below_level1 (frame_of entry) 512 0 s

abbrev pub below_level3 : ℕ → Space → Outcome Space
below_level3 entry s =
    if huge entry then returned s else clear_table below_level2 (frame_of entry) 512 0 s

abbrev pub below_level4 : ℕ → Space → Outcome Space
below_level4 entry s = clear_table below_level3 (frame_of entry) 512 0 s

unfoldable pub destroy_user_address_space : ℕ → Space → Outcome Space
destroy_user_address_space pml4_frame s =
    and_go_on (release pml4_frame) (clear_table below_level4 pml4_frame 256 0 s)

-- The tasks whose state is dead, in the order of their identifiers.
unfoldable pub dead_tasks : Map TaskState → List TaskId
dead_tasks [] = []
dead_tasks ((id, state) ∷ states) =
    let rest = dead_tasks states in if is_dead state then id ∷ rest else rest

abbrev pub destroy_of : Option Task → Space → Outcome Space
destroy_of none s = returned s
destroy_of (some t) s =
    if is_user t.privilege then destroy_user_address_space t.pml4_frame s else returned s

abbrev pub and_purge :
    TaskManager
    → (Space → Outcome (TaskManager × Space))
    → Outcome Space
    → Outcome (TaskManager × Space)
and_purge tm go_on panicked = panicked
and_purge tm go_on (returned s) = go_on s

unfoldable pub purge : List TaskId → TaskManager → Space → Outcome (TaskManager × Space)
purge [] tm s = returned (tm, s)
purge (id ∷ ids) tm s =
    let (purged, tm') = kill tm id in and_purge tm' (purge ids tm') (destroy_of purged s)

-- One turn of the loop of the reaper, after a halt.
unfoldable pub reap : TaskManager → Space → Outcome (TaskManager × Space)
reap tm s = purge (dead_tasks tm.task_states) tm s
