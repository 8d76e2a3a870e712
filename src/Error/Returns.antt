-- ===== src/Error/Returns.antt =====
-- What reaches user space of a kernel error.
use nwin_os.Common.{ℕ, ◌^◌, ◌-◌, ◌≤◌, ◌<◌, ◌≡◌, ◌≢◌, refl, some, arith}
use nwin_os.Common.Int.{ℤ, as_u64}
use nwin_os.Error.{
  KernelError, memory, privilege, hardware, fs, task, system, MemoryError, PrivilegeError,
  HardwareError, FsError, TaskError, SystemError, ElfError, DriverError, block_write,
  elf_parse_failed, memory_to_errno, privilege_to_errno, hardware_to_errno, fs_to_errno,
  task_to_errno, system_to_errno, elf_to_errno, to_errno, from_elf, from_driver, source, AnyError,
  of_kernel, of_memory, of_privilege, of_hardware, of_fs, of_task, of_system, of_elf,
}

-- The value that `regs.rax` receives lies in the window of the last 38 u64 values.
abbrev pub IsErrorReturn : ℕ → Type 0
IsErrorReturn rax = (2 ^ 64 - 38 ≤ rax) × (rax < 2 ^ 64)

elf_window : (e : ElfError) → IsErrorReturn (as_u64 (elf_to_errno e))
unfolding elf_to_errno
elf_window e = ground arith

memory_window : (e : MemoryError) → IsErrorReturn (as_u64 (memory_to_errno e))
unfolding memory_to_errno
memory_window e = ground arith

privilege_window : (e : PrivilegeError) → IsErrorReturn (as_u64 (privilege_to_errno e))
unfolding privilege_to_errno
privilege_window e = ground arith

hardware_window : (e : HardwareError) → IsErrorReturn (as_u64 (hardware_to_errno e))
unfolding hardware_to_errno
hardware_window e = ground arith

fs_window : (e : FsError) → IsErrorReturn (as_u64 (fs_to_errno e))
unfolding fs_to_errno
fs_window e = ground arith

task_window : (e : TaskError) → IsErrorReturn (as_u64 (task_to_errno e))
unfolding task_to_errno
task_window e = ground arith

system_window : (e : SystemError) → IsErrorReturn (as_u64 (system_to_errno e))
unfolding system_to_errno
system_window e = ground arith

-- Every kernel error, cast to the 64-bit return register, lies in the last 38 values, so that user
-- space cannot take it for a descriptor, a length or a user address.
pub to_errno-IsErrorReturn : (e : KernelError) → IsErrorReturn (as_u64 (to_errno e))
unfolding to_errno
to_errno-IsErrorReturn (memory e) = memory_window e
to_errno-IsErrorReturn (privilege e) = privilege_window e
to_errno-IsErrorReturn (hardware e) = hardware_window e
to_errno-IsErrorReturn (fs e) = fs_window e
to_errno-IsErrorReturn (task e) = task_window e
to_errno-IsErrorReturn (system e) = system_window e

-- the error number of an error at any level of the tree
abbrev pub errno_of : AnyError → ℤ
errno_of (of_kernel e) = to_errno e
errno_of (of_memory e) = memory_to_errno e
errno_of (of_privilege e) = privilege_to_errno e
errno_of (of_hardware e) = hardware_to_errno e
errno_of (of_fs e) = fs_to_errno e
errno_of (of_task e) = task_to_errno e
errno_of (of_system e) = system_to_errno e
errno_of (of_elf e) = elf_to_errno e

-- An error and the cause that `source` names for it have the same error number, at every level of
-- the tree.
pub source_keeps_errno :
    (e : AnyError) {cause : AnyError} → source e ≡ some cause → errno_of e ≡ errno_of cause
unfolding source to_errno fs_to_errno system_to_errno
source_keeps_errno e h = ground arith

-- The two routes by which an ELF failure becomes a kernel error give one error number.
pub from_elf-errno :
    (e : ElfError)
    → (to_errno (from_elf e) ≡ elf_to_errno e)
      × (to_errno (system (elf_parse_failed e)) ≡ elf_to_errno e)
unfolding to_errno from_elf
from_elf-errno e = (refl, refl)

-- No failure of the block driver becomes `BlockWrite`, also when it was a write that failed.
pub from_driver-ne-block_write : (e : DriverError) → from_driver e ≢ block_write
unfolding from_driver
from_driver-ne-block_write e = ground arith
