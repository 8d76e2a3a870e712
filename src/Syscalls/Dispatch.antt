-- ===== src/Syscalls/Dispatch.antt =====
-- The `match` on the number of a system call in src/core/syscall.rs, with the calls of a few lines:
-- wait4, exit, power off and clear screen.
--
-- A call that parks its task goes on when the scheduler switches back to it; `parks` holds the answer
-- it then gives. A call that never returns halts for ever.
pub mod Keeps
pub mod KeepsSpace
pub mod KeepsExec
pub mod Total
use nwin_os.Common.{ℕ, Bool, true, false, Option, none, some, List, [], ◌∷◌, ◌==◌, if◌then◌else◌}
use nwin_os.Common.Outcome.{Outcome, returned, panicked}
use nwin_os.Paging.{PageTables, Bytes}
use nwin_os.Scheduler.{Tick, schedule}
use nwin_os.Tasks.{TaskManager, wait_for_child, exit_current_task}
use nwin_os.Vfs.{Node, Driver, MountTable}
use nwin_os.Vfs.Tar.{TarContext}
use nwin_os.Syscalls.{Kernel, Output, cleared, port_write, echild, enosys}
use nwin_os.Syscalls.Files.{Answer, answer, waits, sys_read, sys_write, sys_open, sys_close}
use nwin_os.Syscalls.Space.{sys_mmap, sys_brk}
use nwin_os.Syscalls.Exec.{sys_execve}

pub record SyscallRegisters : Type 0 where
  pub rax : ℕ
  pub rdi : ℕ
  pub rsi : ℕ
  pub rdx : ℕ
  pub r10 : ℕ
  pub r8 : ℕ
  pub r9 : ℕ

pub data Ending : Type 0 where
  returns : SyscallRegisters → Kernel → Ending
  waits_for_key : Kernel → Ending
  parks : SyscallRegisters → Tick → Kernel → Ending
  never : Kernel → Ending

abbrev pub set_rax : SyscallRegisters → ℕ → SyscallRegisters
set_rax regs rax = record regs { rax = rax }

abbrev pub give : SyscallRegisters → Answer → Ending
give regs (answer rax k) = returns (set_rax regs rax) k
give regs (waits k) = waits_for_key k

abbrev pub given : SyscallRegisters → Outcome Answer → Outcome Ending
given regs panicked = panicked
given regs (returned a) = returned (give regs a)

abbrev pub ran : SyscallRegisters → Option (Outcome Answer) → Option (Outcome Ending)
ran regs none = none
ran regs (some r) = some (given regs r)

abbrev pub at_once : Ending → Option (Outcome Ending)
at_once e = some (returned e)

-- The parent parks if it has such a child, and `schedule` switches away.
abbrev pub park_or : Kernel → ℕ → SyscallRegisters → Bool × TaskManager → Ending
park_or k cr3 regs (true, tm) =
    parks (set_rax regs regs.rdi) (schedule tm cr3) (record k { tasks = (schedule tm cr3).manager })
park_or k cr3 regs (false, tm) = returns (set_rax regs echild) (record k { tasks = tm })

unfoldable pub sys_wait4 : Kernel → ℕ → SyscallRegisters → Ending
sys_wait4 k cr3 regs = park_or k cr3 regs (wait_for_child k.tasks regs.rdi)

unfoldable pub sys_exit : Kernel → Ending
sys_exit k = never (record k { tasks = exit_current_task k.tasks })

abbrev pub send : Kernel → Output → Kernel
send k o = record k { screen = o ∷ k.screen }

unfoldable pub power_off : Kernel → Ending
power_off k = never (send (send k (port_write 0xf4 0x10)) (port_write 0x604 0x2000))

unfoldable pub clear_framebuffer : Kernel → Answer
clear_framebuffer k = answer 0 (send k cleared)

unfoldable pub not_implemented : Kernel → Answer
not_implemented k = answer enosys k

-- The call that a number names.
pub data Call : Type 0 where
  read_file write_file open_file close_file map_memory move_break execute wait_child exit_task
        poweroff clear_screen unknown :
      Call

unfoldable pub call_of : ℕ → Call
call_of number =
    if number == 0
    then read_file
    else if number == 1
    then write_file
    else if number == 2
    then open_file
    else if number == 3
    then close_file
    else if number == 9
    then map_memory
    else if number == 12
    then move_break
    else if number == 59
    then execute
    else if number == 61
    then wait_child
    else if number == 60
    then exit_task
    else if number == 88
    then poweroff
    else if number == 500
    then clear_screen
    else unknown

module _ (pt : PageTables) (cr3 : ℕ) (driver : Driver) (mounts : MountTable) (vfs_root : Node)
    (initramfs : Option TarContext) (beyond : Bytes) where
  abbrev pub run_call :
      Call → List (Kernel → Kernel) → Kernel → SyscallRegisters → Option (Outcome Ending)
  run_call read_file halts k regs =
      some (given regs (sys_read pt cr3 driver halts k regs.rdi regs.rsi regs.rdx))
  run_call write_file halts k regs =
      some (given regs (sys_write pt cr3 k regs.rdi regs.rsi regs.rdx))
  run_call open_file halts k regs =
      some (given regs (sys_open pt cr3 driver mounts vfs_root k regs.rdi))
  run_call close_file halts k regs = at_once (give regs (sys_close k regs.rdi))
  run_call map_memory halts k regs = some (given regs (sys_mmap pt k regs.rdi regs.rsi regs.r10))
  run_call move_break halts k regs = some (given regs (sys_brk pt k regs.rdi))
  run_call execute halts k regs =
      ran regs (sys_execve pt cr3 initramfs beyond k regs.rdi regs.rsi regs.rdx)
  run_call wait_child halts k regs = at_once (sys_wait4 k cr3 regs)
  run_call exit_task halts k regs = at_once (sys_exit k)
  run_call poweroff halts k regs = at_once (power_off k)
  run_call clear_screen halts k regs = at_once (give regs (clear_framebuffer k))
  run_call unknown halts k regs = at_once (give regs (not_implemented k))

  -- `handle_syscall_rust`; `none` means that the fuel of a loop ran out.
  unfoldable pub handle_syscall_rust :
      List (Kernel → Kernel) → Kernel → SyscallRegisters → Option (Outcome Ending)
  handle_syscall_rust halts k regs = run_call (call_of regs.rax) halts k regs
