-- ===== src/Lib.antt =====
-- Verification library of NWIN OS, an x86-64 operating system kernel in Rust.
--
-- The kernel runs tasks on one processor. A timer interrupt calls the scheduler, which asks the task
-- manager for the next task and switches to it; tasks park on semaphores, mutexes and condition
-- variables, which block and wake them through the task manager; the keyboard interrupt feeds a ring
-- of keys and ends the current task on Ctrl+C; each task has a kernel stack, an address space made of
-- frames of the frame allocator, and a table of file descriptors; and every failure becomes one error
-- type, which a system call turns into a negative errno.
--
-- The files and what they model:
--   Common      what the kernel takes from Rust's core and alloc: comparisons, slices as lists with
--               native indices, bits of a byte, ordered maps, double-ended queues, results, panics
--   Error       src/core/error.rs: the error types, their conversions, `to_errno`, `source`
--   Frames      src/mm/memory.rs, `BitmapFrameAllocator`: bitmap, reference counts, the search from
--               the cached hint, contiguous runs; Frames/Startup is `init` over the memory map
--   Fd          src/fs/fd.rs: the descriptor table
--   Task        src/task/task.rs: `Task::new` with its first stack frame, `context_switch`,
--               `user_mode_trampoline`
--   Tasks       src/task/task_manager.rs: every operation of `TaskManager`
--   Scheduler   src/task/scheduler.rs: `schedule` as one step, and what it writes to the machine
--   Sync        src/core/sync.rs: `Semaphore`, `TaskMutex`, `CondVar`
--   UserMemory  src/core/syscall.rs, `is_valid_user_memory`, and src/mm/memory.rs, `is_user_page_mapped`
--   AddressSpace  src/mm/memory.rs, `SystemFrameAllocator` and `create_isolated_pml4`
--   Faults      src/core/idt.rs: the exception handlers
--   Mbr         src/fs/partition/mbr.rs: the partition table
--   Vfs         src/fs/vfs.rs: nodes, path resolution, mounts; Vfs/Tar is the initramfs reader
--   Paging      src/mm/memory.rs: `allocate_and_map_user_page`, `resolve_cow_fault`
--   Elf         src/task/elf.rs: `load_elf`
--   Syscalls    src/core/syscall.rs: the dispatcher with its calls, and its assembly
--   Fat         src/fs/fat: mounting, geometry, cluster chains, lookup and reading
--   Reaper      src/task/mod.rs, the reaper, and `destroy_user_address_space` of src/mm/memory.rs
--   Ext4        src/fs/ext4: the structures, and over a block device (Ext4/Device) the volume
--               (Ext4/Volume) and its nodes (Ext4/Node)
--   DiskManager  src/fs/manager.rs: `process_disk`
--   Keyboard    src/drivers/input/keyboard.rs: the key ring and `process_scancode`
--
-- State is passed explicitly: an operation takes the record of its component and returns the new one,
-- after the values that it returns. A definition has the name of the function it translates; a loop
-- or a nested block has a name of its own. Code that can panic returns an `Outcome`, fallible code a
-- `Result` or an `Option`. Integers are natural numbers with the wrap-around written out where the
-- code can wrap: the tick counter and the identifier counter modulo 2^64, a semaphore's counter modulo
-- 2^32. A map is an association list in the order of its keys.
--
-- Interrupts. The task manager is used with interrupts off behind one lock, so its operations are
-- steps, and a history of the manager is a list of such steps (Scheduler/Reach). Semaphore operations
-- are cut at every point at which an interrupt can come, and Sync/Exclusion quantifies over all
-- interleavings. A reader of the key ring can be stopped between its test and its read
-- (`pop_key_around`).
--
-- Memory and machine. Memory is a function from addresses to 64-bit words; the assembly is written
-- over it and over a record of the registers that it touches.
--
-- Fuel. These loops use fuel. The search for a contiguous run has `total_frames + 2`: its index grows by
-- at least one each turn and the loop ends when it passes `total_frames`. The check of a user's range
-- has two more than the pages between its ends, of which each turn checks one. The two walks of the
-- initramfs have one more than the blocks of 512 bytes in the archive; the copy of a segment of an
-- executable three more than its pages; a read of a file one more than its bytes; the walks over an ext4
-- directory one more than its bytes; and the calls for a FAT sector three, which FAT16 needs and no
-- number is enough for on FAT32. The theorems on them include that an answer is returned.
--
-- Parameters and hypotheses. The nodes of a mounted driver are given by the functions of the trait
-- `VNode`, the changes of page tables by the calls of the crate's mapper. Where a theorem needs more
-- of the mapper, it says so: that it maps the page it is given and takes none away, or that it
-- translates every address that the kernel's own walk finds mapped. What `copy_nonoverlapping` leaves
-- in its destination where the ranges overlap, which is undefined, is an argument. The memory map is
-- assumed to have usable entries that begin with a page, as the bootloader documents. The keyboard
-- decoder is a crate, given by two functions of which nothing is assumed. A block device is given by what a read and a
-- write make of its state; where a theorem needs it, it keeps what is written (`IsStorage`). The
-- bytes that the ext4 driver reads behind an inode or a buffer are arguments, and so are the heap's
-- answer to a stack reservation, the segment selectors and the addresses of code.
-- The identifier that `spawn` draws is assumed not to be in use, which holds until 2^64 tasks have been
-- made; `kill` is called by the reaper, on a task that is not the current one.
--
-- Not modelled: the heap (a crate), the start of the first tasks, the driver of the block devices, the
-- terminal, the display and the serial port, PCI, and the set-up of descriptor tables and interrupt
-- controllers: they are device registers and output. The texts of errors and the log are left out.
pub mod DiskManager
pub mod Common
pub mod Error
pub mod Ext4
pub mod Frames
pub mod Fd
pub mod Task
pub mod Tasks
pub mod Scheduler
pub mod Keyboard
pub mod Sync
pub mod UserMemory
pub mod AddressSpace
pub mod Faults
pub mod Mbr
pub mod Vfs
pub mod Paging
pub mod Elf
pub mod Syscalls
pub mod Fat
pub mod Reaper
