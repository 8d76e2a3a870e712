-- ===== src/Syscalls.antt =====
-- src/core/syscall.rs: the dispatcher of the system calls. Files, Space and Exec model the calls on
-- descriptors, on the address space and `execve`; Dispatch the rest and the `match` on the number.
--
-- A call runs with interrupts off, so it is one step, except where it halts. The bytes of user memory
-- are those of the physical frames, at the addresses that the page tables give; a page fault in a
-- call is `panicked`. An open file is the number of its node.
pub mod Current
pub mod UserBytes
pub mod Files
pub mod Transfer
pub mod Writes
pub mod Space
pub mod Exec
pub mod Dispatch
pub mod Entry
mod Tests
use nwin_os.Common.{
  ℕ, zero, suc, ◌+◌, ◌-◌, ◌^◌, Bool, true, false, Option, none, some, List, [], ◌∷◌, leb, ltb, ◌==◌,
  if◌then◌else◌,
}
use nwin_os.Common.Dict.{Str}
use nwin_os.Common.Map
use nwin_os.Common.Outcome.{Outcome, returned, panicked}
use nwin_os.Error.{KernelError, to_errno}
use nwin_os.Keyboard.{Keys}
use nwin_os.Paging.{PageTables, Physical}
use nwin_os.Task.{Task, TaskId, Surroundings}
use nwin_os.Tasks.{TaskManager}
use nwin_os.UserMemory.{is_valid_user_memory}
use nwin_os.Vfs.{Node}

-- What a call sends to the display, and to a port.
pub data Output : Type 0 where
  text : Str → Output
  cleared : Output
  port_write : (port value : ℕ) → Output

pub record Kernel : Type 0 where
  pub tasks : TaskManager
  pub physical : Physical
  pub keys : Keys
  pub nodes : List Node
  pub screen : List Output
  pub surroundings : Surroundings

-- `-(n as i64) as u64`
abbrev pub negative : ℕ → ℕ
negative n = 2 ^ 64 - n

abbrev pub efault : ℕ
efault = negative 14

abbrev pub ebadf : ℕ
ebadf = negative 9

abbrev pub enoent : ℕ
enoent = negative 2

abbrev pub emfile : ℕ
emfile = negative 24

abbrev pub einval : ℕ
einval = negative 22

abbrev pub enomem : ℕ
enomem = negative 12

abbrev pub echild : ℕ
echild = negative 10

abbrev pub enosys : ℕ
enosys = negative 38

abbrev pub task_at : TaskManager → Option TaskId → Option Task
task_at tm none = none
task_at tm (some id) = Map.get id tm.task_registry

-- The current task, if it is registered.
unfoldable pub current : TaskManager → Option Task
current tm = task_at tm tm.current_task

abbrev pub put_at : TaskManager → Task → Option TaskId → TaskManager
put_at tm t none = tm
put_at tm t (some id) = record tm { task_registry = Map.insert id t tm.task_registry }

-- A change of the current task through `get_mut`.
unfoldable pub put_current : TaskManager → Task → TaskManager
put_current tm t = put_at tm t tm.current_task

-- A check that ran out of fuel; `is_valid_user_memory` never does.
abbrev pub or_false : Option Bool → Bool
or_false none = false
or_false (some b) = b

module _ (pt : PageTables) (cr3 : ℕ) where
  unfoldable pub is_valid : Kernel → ℕ → ℕ → Bool
  is_valid k ptr len = or_false (is_valid_user_memory k.physical.tables cr3 ptr len)

  abbrev pub and_byte : ℕ → Outcome (List ℕ) → Outcome (List ℕ)
  and_byte b panicked = panicked
  and_byte b (returned bs) = returned (b ∷ bs)

  -- An access to an address, which faults where the page tables give it no place.
  abbrev pub on_address {ℓ} : {A : Type ℓ} → Option ℕ → (ℕ → Outcome A) → Outcome A
  on_address none access = panicked
  on_address (some at) access = access at

  -- The `n` bytes of user memory from `ptr` on.
  unfoldable pub load : Physical → ℕ → ℕ → Outcome (List ℕ)
  load p ptr zero = returned []
  load p ptr (suc n) =
      let rest = load p (ptr + 1) n in
      on_address (pt.translate_addr p.tables cr3 ptr) (λ at. and_byte (p.bytes at) rest)

  -- A string of at most `n` bytes, up to its NUL.
  unfoldable pub load_string : Physical → ℕ → ℕ → Outcome (List ℕ)
  load_string p ptr zero = returned []
  load_string p ptr (suc n) =
      let rest = load_string p (ptr + 1) n in
      on_address (pt.translate_addr p.tables cr3 ptr)
        (λ at. if p.bytes at == 0 then returned [] else and_byte (p.bytes at) rest)

  abbrev pub put_byte : Physical → ℕ → ℕ → Physical
  put_byte p at b = record p { bytes = λ q. if at == q then b else p.bytes q }

  -- The bytes are copied to user memory from `ptr` on. A page that is present and not writable, where
  -- the write would raise a copy-on-write fault, is left out: every page that the kernel maps for a
  -- user is writable.
  unfoldable pub store_bytes : Physical → ℕ → List ℕ → Outcome Physical
  store_bytes p ptr [] = returned p
  store_bytes p ptr (b ∷ bs) =
      on_address (pt.translate_addr p.tables cr3 ptr)
        (λ at. store_bytes (put_byte p at b) (ptr + 1) bs)
