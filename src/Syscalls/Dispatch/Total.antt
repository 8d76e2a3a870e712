-- ===== src/Syscalls/Dispatch/Total.antt =====
-- The dispatcher of src/core/syscall.rs always ends, and keeps the invariant of the task manager.
use nwin_os.Common.{ℕ, ◌≡◌, refl, Bool, true, false, Option, none, some, List}
use nwin_os.Common.Outcome.{Outcome, returned, panicked}
use nwin_os.Paging.{PageTables, Bytes}
use nwin_os.Scheduler.Laws.{schedule-IsValid}
use nwin_os.Tasks.{TaskManager, wait_for_child}
use nwin_os.Tasks.Spec.{IsValid, state_of}
use nwin_os.Tasks.Lifecycle.{exit_current_task-IsValid, wait_for_child-IsValid}
use nwin_os.Vfs.{Node, Driver, MountTable}
use nwin_os.Vfs.Tar.{TarContext}
use nwin_os.Syscalls.{Kernel}
use nwin_os.Syscalls.Files.{Answer, answer, waits, sys_read, sys_write, sys_open, sys_close}
use nwin_os.Syscalls.Space.{sys_mmap, sys_brk}
use nwin_os.Syscalls.Exec.{sys_execve}
use nwin_os.Syscalls.Dispatch.{
  SyscallRegisters, Ending, returns, waits_for_key, parks, never, given, ran, park_or, sys_wait4,
  sys_exit, power_off, clear_framebuffer, not_implemented, Call, read_file, write_file, open_file,
  close_file, map_memory, move_break, execute, wait_child, exit_task, poweroff, clear_screen,
  unknown, call_of, run_call, handle_syscall_rust,
}
use nwin_os.Syscalls.Dispatch.Keeps.{
  LeavesValid, KeepValid, sys_read-LeavesValid, sys_write-LeavesValid, sys_open-LeavesValid,
  sys_close-LeavesValid,
}
use nwin_os.Syscalls.Dispatch.KeepsSpace.{sys_mmap-LeavesValid, sys_brk-LeavesValid}
use nwin_os.Syscalls.Dispatch.KeepsExec.{EndsValid, sys_execve-EndsValid}

-- Valid tasks, and every register but `rax` as it was.
abbrev pub Finishes : SyscallRegisters → Ending → Type 0
Finishes regs (returns regs' k) = IsValid k.tasks × (record regs' { rax = regs.rax } ≡ regs)
Finishes regs (waits_for_key k) = IsValid k.tasks
Finishes regs (parks regs' tick k) = IsValid k.tasks × (record regs' { rax = regs.rax } ≡ regs)
Finishes regs (never k) = IsValid k.tasks

abbrev pub Serves : SyscallRegisters → Option (Outcome Ending) → Type 0
Serves regs none = ⊥
Serves regs (some panicked) = Unit
Serves regs (some (returned e)) = Finishes regs e

given-Serves :
    (regs : SyscallRegisters) (o : Outcome Answer)
    → LeavesValid o
    → Serves regs (some (given regs o))
given-Serves regs panicked v = tt
given-Serves regs (returned (answer rax k)) v = (v, refl)
given-Serves regs (returned (waits k)) v = v

ran-Serves :
    (regs : SyscallRegisters) (o : Option (Outcome Answer)) → EndsValid o → Serves regs (ran regs o)
ran-Serves regs none v = elim v [ ]
ran-Serves regs (some r) v = given-Serves regs r v

park_or-Finishes :
    (k : Kernel) (cr3 : ℕ) (regs : SyscallRegisters) (r : Bool × TaskManager)
    → IsValid r.1
    → Finishes regs (park_or k cr3 regs r)
park_or-Finishes k cr3 regs (true, tm) v = (schedule-IsValid tm cr3 v, refl)
park_or-Finishes k cr3 regs (false, tm) v = (v, refl)

-- A system call, for any mapper, file nodes, mounts and initramfs, any course of the halts in which it
-- may wait that keeps the tasks valid, and an identifier for the next task that is not in use: the
-- loops of the kernel's code end, and unless the call panics it leaves the tasks in a valid state,
-- also where it waits, parks the task or never returns; where it returns, every register but `rax`
-- has its value from before.
pub handle_syscall_rust-Serves :
    (pt : PageTables) (cr3 : ℕ) (driver : Driver) (mounts : MountTable) (vfs_root : Node)
    (initramfs : Option TarContext) (beyond : Bytes) (halts : List (Kernel → Kernel)) (k : Kernel)
    (regs : SyscallRegisters)
    → KeepValid halts
    → IsValid k.tasks
    → state_of k.tasks k.surroundings.next_id ≡ none
    → Serves regs (handle_syscall_rust pt cr3 driver mounts vfs_root initramfs beyond halts k regs)
unfolding handle_syscall_rust sys_wait4 sys_exit power_off clear_framebuffer not_implemented
handle_syscall_rust-Serves pt cr3 driver mounts vfs_root initramfs beyond halts k regs h v fresh =
    run (call_of regs.rax)
  where
    run :
        (call : Call)
        → Serves regs (run_call pt cr3 driver mounts vfs_root initramfs beyond call halts k regs)
    run read_file =
        given-Serves regs (sys_read pt cr3 driver halts k regs.rdi regs.rsi regs.rdx)
          (sys_read-LeavesValid pt cr3 driver halts k regs.rdi regs.rsi regs.rdx h v)
    run write_file =
        given-Serves regs (sys_write pt cr3 k regs.rdi regs.rsi regs.rdx)
          (sys_write-LeavesValid pt cr3 k v regs.rdi regs.rsi regs.rdx)
    run open_file =
        given-Serves regs (sys_open pt cr3 driver mounts vfs_root k regs.rdi)
          (sys_open-LeavesValid pt cr3 k v driver mounts vfs_root regs.rdi)
    run close_file =
        given-Serves regs (returned (sys_close k regs.rdi))
          (sys_close-LeavesValid pt cr3 k v regs.rdi)
    run map_memory =
        given-Serves regs (sys_mmap pt k regs.rdi regs.rsi regs.r10)
          (sys_mmap-LeavesValid pt k v regs.rdi regs.rsi regs.r10)
    run move_break = given-Serves regs (sys_brk pt k regs.rdi) (sys_brk-LeavesValid pt k v regs.rdi)
    run execute =
        ran-Serves regs (sys_execve pt cr3 initramfs beyond k regs.rdi regs.rsi regs.rdx)
          (sys_execve-EndsValid pt cr3 initramfs beyond k v fresh regs.rdi regs.rsi regs.rdx)
    run wait_child =
        park_or-Finishes k cr3 regs (wait_for_child k.tasks regs.rdi)
          (wait_for_child-IsValid k.tasks regs.rdi v)
    run exit_task = exit_current_task-IsValid k.tasks v
    run poweroff = v
    run clear_screen = (v, refl)
    run unknown = (v, refl)
