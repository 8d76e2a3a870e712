-- ===== src/Error.antt =====
-- src/core/error.rs: the typed error tree of the kernel, its conversions, and the POSIX error
-- number that each error becomes at the Ring 3 boundary. `ElfError` is src/task/elf.rs's and
-- `DriverError` src/drivers/block/mod.rs's. The texts that `Display` prints are not modelled.
pub mod Returns
mod Tests
use nwin_os.Common.{
  ℕ, ◌+◌, ◌≡◌, refl, Bool, true, false, Option, none, some, List, [], ◌∷◌, if◌then◌else◌,
}
use nwin_os.Common.Int.{ℤ, neg}

pub data ElfError : Type 0 where
  too_small invalid_magic_number not_64_bit memory_mapping_failed : ElfError

pub data DriverError : Type 0 where
  io_failure device_not_found controller_missing timeout : DriverError
  unsupported_protocol buffer_too_small buffer_too_large no_dma_memory : DriverError

pub data MemoryError : Type 0 where
  page_fault : (addr flags : ℕ) → MemoryError
  out_of_frames invalid_mapping cow_resolution_failed hhdm_missing heap_oom : MemoryError

pub data PrivilegeError : Type 0 where
  general_protection_fault : (error_code : ℕ) (is_user : Bool) → PrivilegeError
  invalid_opcode : (is_user : Bool) → PrivilegeError
  divide_error : (is_user : Bool) → PrivilegeError
  double_fault permission_denied : PrivilegeError

pub data HardwareError : Type 0 where
  io_failure controller_missing unsupported_protocol device_not_found : HardwareError

pub data FsError : Type 0 where
  block_read block_write : FsError
  bad_magic : (expected found : ℕ) → FsError
  mbr_invalid gpt_only : FsError
  unknown_partition : ℕ → FsError
  vfs_entry_missing corrupted_directory no_space out_of_inodes out_of_blocks : FsError
  elf : ElfError → FsError

pub data TaskError : Type 0 where
  stack_allocation entry_missing privilege_mismatch task_creation_failure : TaskError

pub data SystemError : Type 0 where
  elf_parse_failed : ElfError → SystemError
  task_creation_failure : SystemError

pub data KernelError : Type 0 where
  memory : MemoryError → KernelError
  privilege : PrivilegeError → KernelError
  hardware : HardwareError → KernelError
  fs : FsError → KernelError
  task : TaskError → KernelError
  system : SystemError → KernelError

-- `Errno`, with the discriminants of the source.
pub data Errno : Type 0 where
  eperm enoent eio enxio enoexec ebadf enomem eacces efault eexist einval enospc enosys : Errno

abbrev pub discriminant : Errno → ℕ
discriminant eperm = 1
discriminant enoent = 2
discriminant eio = 5
discriminant enxio = 6
discriminant enoexec = 8
discriminant ebadf = 9
discriminant enomem = 12
discriminant eacces = 13
discriminant efault = 14
discriminant eexist = 17
discriminant einval = 22
discriminant enospc = 28
discriminant enosys = 38

unfoldable pub to_neg_i32 : Errno → ℤ
to_neg_i32 e = neg (discriminant e)

abbrev mt : Errno → ℤ
unfolding to_neg_i32
mt e = to_neg_i32 e

unfoldable pub memory_to_errno : MemoryError → ℤ
unfolding to_neg_i32 mt
memory_to_errno (page_fault addr flags) = mt efault
memory_to_errno out_of_frames = mt enomem
memory_to_errno heap_oom = mt enomem
memory_to_errno invalid_mapping = mt efault
memory_to_errno cow_resolution_failed = mt efault
memory_to_errno hhdm_missing = mt efault

unfoldable pub privilege_to_errno : PrivilegeError → ℤ
unfolding to_neg_i32 mt
privilege_to_errno (general_protection_fault error_code is_user) = mt efault
privilege_to_errno (invalid_opcode is_user) = if is_user then mt enosys else mt efault
privilege_to_errno (divide_error is_user) = mt efault
privilege_to_errno double_fault = mt efault
privilege_to_errno permission_denied = mt eacces

unfoldable pub hardware_to_errno : HardwareError → ℤ
unfolding to_neg_i32 mt
hardware_to_errno HardwareError.io_failure = mt eio
hardware_to_errno HardwareError.controller_missing = mt enxio
hardware_to_errno HardwareError.unsupported_protocol = mt enosys
hardware_to_errno HardwareError.device_not_found = mt enxio

unfoldable pub elf_to_errno : ElfError → ℤ
unfolding to_neg_i32 mt
elf_to_errno too_small = mt einval
elf_to_errno invalid_magic_number = mt enoexec
elf_to_errno not_64_bit = mt enoexec
elf_to_errno memory_mapping_failed = mt enomem

unfoldable pub fs_to_errno : FsError → ℤ
unfolding to_neg_i32 mt elf_to_errno
fs_to_errno block_read = mt eio
fs_to_errno block_write = mt eio
fs_to_errno (bad_magic expected found) = mt einval
fs_to_errno mbr_invalid = mt einval
fs_to_errno gpt_only = mt einval
fs_to_errno (unknown_partition t) = mt einval
fs_to_errno vfs_entry_missing = mt enoent
fs_to_errno out_of_inodes = mt enospc
fs_to_errno out_of_blocks = mt enospc
fs_to_errno corrupted_directory = mt eio
fs_to_errno no_space = mt enospc
fs_to_errno (elf inner) = elf_to_errno inner

unfoldable pub task_to_errno : TaskError → ℤ
unfolding to_neg_i32 mt
task_to_errno stack_allocation = mt enomem
task_to_errno entry_missing = mt einval
task_to_errno privilege_mismatch = mt eacces
task_to_errno TaskError.task_creation_failure = mt einval

unfoldable pub system_to_errno : SystemError → ℤ
unfolding to_neg_i32 mt elf_to_errno
system_to_errno (elf_parse_failed inner) = elf_to_errno inner
system_to_errno SystemError.task_creation_failure = mt einval

unfoldable pub to_errno : KernelError → ℤ
unfolding memory_to_errno privilege_to_errno hardware_to_errno fs_to_errno task_to_errno
    system_to_errno
to_errno (memory e) = memory_to_errno e
to_errno (privilege e) = privilege_to_errno e
to_errno (hardware e) = hardware_to_errno e
to_errno (fs e) = fs_to_errno e
to_errno (task e) = task_to_errno e
to_errno (system e) = system_to_errno e

-- `From<ElfError> for KernelError`; the other `From` impls are the constructors.
unfoldable pub from_elf : ElfError → KernelError
from_elf e = fs (elf e)

-- `From<DriverError> for FsError`
unfoldable pub from_driver : DriverError → FsError
from_driver DriverError.io_failure = block_read
from_driver timeout = block_read
from_driver buffer_too_small = corrupted_directory
from_driver buffer_too_large = corrupted_directory
from_driver no_dma_memory = out_of_blocks
from_driver DriverError.controller_missing = vfs_entry_missing
from_driver DriverError.device_not_found = vfs_entry_missing
from_driver DriverError.unsupported_protocol = vfs_entry_missing

-- `&dyn Error`: an error of the tree, at whichever level.
pub data AnyError : Type 0 where
  of_kernel : KernelError → AnyError
  of_memory : MemoryError → AnyError
  of_privilege : PrivilegeError → AnyError
  of_hardware : HardwareError → AnyError
  of_fs : FsError → AnyError
  of_task : TaskError → AnyError
  of_system : SystemError → AnyError
  of_elf : ElfError → AnyError

unfoldable pub fs_source : FsError → Option AnyError
fs_source (elf inner) = some (of_elf inner)
fs_source _ = none

unfoldable pub system_source : SystemError → Option AnyError
system_source (elf_parse_failed inner) = some (of_elf inner)
system_source SystemError.task_creation_failure = none

unfoldable pub kernel_source : KernelError → Option AnyError
kernel_source (memory e) = some (of_memory e)
kernel_source (privilege e) = some (of_privilege e)
kernel_source (hardware e) = some (of_hardware e)
kernel_source (fs e) = some (of_fs e)
kernel_source (task e) = some (of_task e)
kernel_source (system e) = some (of_system e)

-- The `source` method by dynamic dispatch; the leaves return `None`.
unfoldable pub source : AnyError → Option AnyError
unfolding kernel_source fs_source system_source
source (of_kernel e) = kernel_source e
source (of_fs e) = fs_source e
source (of_system e) = system_source e
source _ = none
