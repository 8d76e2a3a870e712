-- ===== src/Syscalls/Tests.antt =====
-- A shell that makes system calls on a machine whose user addresses are physical addresses: tests, and
-- instances of the theorems.
use nwin_os.Common.{
  ℕ, ◌+◌, ◌-◌, ◌≡◌, refl, true, false, not, none, some, List, [], ◌∷◌, ltb, ◌==◌, if◌then◌else◌,
  arith,
}
use nwin_os.Common.Map
use nwin_os.Frames.Tests.{fresh}
use nwin_os.Keyboard.{no_keys, push_key}
use nwin_os.Paging.{PageTables, Physical}
use nwin_os.Task.{Task, Memory, store, heap_base}
use nwin_os.Tasks.Tests.{busy, busy-IsValid, a_task, surroundings}
use nwin_os.Vfs.{Driver, Node, dir_vnode, no_child}
use nwin_os.Syscalls.{Kernel, current, enosys}
use nwin_os.Syscalls.Transfer.{ReadsInto, sys_read-ReadsInto}
use nwin_os.Syscalls.Files.{sys_read, sys_write}
use nwin_os.Syscalls.Writes.{Writes, sys_write-Writes}
use nwin_os.Syscalls.Space.{sys_brk, sys_mmap}
use nwin_os.Syscalls.Space.Heap.{Maps, Breaks, sys_brk-Breaks}
use nwin_os.Syscalls.Space.Area.{MapsArea, sys_mmap-MapsArea}
use nwin_os.Syscalls.Exec.{user_stack_base, argv_pointers}
use nwin_os.Syscalls.Exec.Stack.{words_size}
use nwin_os.Syscalls.Entry.{
  UserCpu, before_call, syscall_entry, answer_of, Returns, syscall_entry-Returns,
}
use nwin_os.Syscalls.Dispatch.{SyscallRegisters, handle_syscall_rust}
use nwin_os.Syscalls.Dispatch.Total.{Serves, handle_syscall_rust-Serves}

-- A page is mapped if the word at its address is not zero.
abbrev flat : PageTables
flat = record {
  translate_page = λ m pml4 page. not (m page == 0);
  translate_addr = λ m pml4 addr. if ltb addr user_stack_base then none else some addr;
  translate_flags = λ m pml4 addr. some 7;
  map_to = λ m a pml4 page frame flags. (true, store m page (frame + flags + 1), a);
  update_flags = λ m pml4 page flags. some m;
  unmap = λ m pml4 page. some (store m page 0);
  copied_over = λ b from to. b;
}

flat-Maps : Maps flat
flat-Maps = record {
  mapped = λ m a pml4 page frame flags e. ground arith;
  kept = λ m a pml4 page frame flags q e. ground (arith, e);
}

abbrev memory : Physical
memory = record { frames = fresh; tables = λ q. 0; bytes = λ q. 0 }

abbrev kernel : Kernel
kernel = record {
  tasks = busy;
  physical = memory;
  keys = no_keys;
  nodes = [];
  screen = [];
  surroundings = surroundings;
}

abbrev disk : Driver
disk = record {
  read = λ n offset buf_len. [];
  get_size = λ n. 0;
  is_dir = λ n. false;
  lookup = λ n name. none;
}

abbrev root : Node
root = dir_vnode no_child

-- Every page is mapped for the user, and every byte is an `a`.
abbrev identity : PageTables
identity = record flat { translate_addr = λ m pml4 addr. some addr }

abbrev full : Kernel
full = record kernel {
  physical = record { frames = fresh; tables = λ q. 0x5007; bytes = λ q. b'a' };
}

-- In the first halt of the loop a key of two bytes is struck.
abbrev strikes : List (Kernel → Kernel)
strikes = (λ k. record k { keys = push_key k.keys 233 }) ∷ []

sys_read-ReadsInto_example :
    ReadsInto identity 0x5000 strikes full 0x40_0000 8
      (sys_read identity 0x5000 disk strikes full 0 0x40_0000 8)
sys_read-ReadsInto_example =
    sys_read-ReadsInto identity 0x5000 disk strikes full 0 0x40_0000 8
      (λ n offset buf_len. omega arith)

sys_write-Writes_example :
    Writes identity 0x5000 full 0x40_0000 2 (sys_write identity 0x5000 full 1 0x40_0000 2)
sys_write-Writes_example =
    sys_write-Writes identity 0x5000 full 1 0x40_0000 2 (λ m a mapped. (a, refl)) (omega arith)
      (omega arith)

abbrev shell : Task
shell = a_task 1 none

shell_current : current busy ≡ some shell
unfolding current Map.get
shell_current = refl

sys_brk-Breaks_example :
    Breaks flat kernel shell (heap_base + 0x3000) (sys_brk flat kernel (heap_base + 0x3000))
sys_brk-Breaks_example =
    sys_brk-Breaks flat kernel shell (heap_base + 0x3000) flat-Maps shell_current

sys_mmap-MapsArea_example :
    MapsArea flat kernel shell 0 0x2001 0x22 (sys_mmap flat kernel 0 0x2001 0x22)
sys_mmap-MapsArea_example =
    sys_mmap-MapsArea flat kernel shell 0 0x2001 0x22 flat-Maps shell_current

-- Two arguments, `a` and `b`.
abbrev two_args : List ℕ
two_args = b'a' ∷ 0 ∷ b'b' ∷ 0 ∷ []

two_pointers : words_size two_args ≡ 40
unfolding argv_pointers
two_pointers = refl

abbrev exit_call : SyscallRegisters
exit_call = record { rax = 60; rdi = 0; rsi = 0; rdx = 0; r10 = 0; r8 = 0; r9 = 0 }

handle_syscall_rust-Serves_example :
    Serves exit_call
      (handle_syscall_rust flat 0x5000 disk [] root none (λ q. 0) [] kernel exit_call)
unfolding Map.get
handle_syscall_rust-Serves_example =
    handle_syscall_rust-Serves flat 0x5000 disk [] root none (λ q. 0) [] kernel exit_call tt
      busy-IsValid refl

abbrev caller : UserCpu
caller = record {
  rip = 0x40_1000;
  rsp = 0x7FFF_0000;
  rflags = 0x202;
  rax = 39;
  rdi = 1;
  rsi = 2;
  rdx = 3;
  r10 = 4;
  r8 = 5;
  r9 = 6;
  r11 = 0x202;
  rcx = 0x40_1002;
  r12 = 7;
}

-- A Rust side that answers as for an unknown call.
abbrev refuse : ℕ → Memory → Memory
refuse regs m = store m regs enosys

syscall_entry-Returns_example :
    Returns caller
      (syscall_entry 0x9000 refuse caller (λ q. 0)).0
      (answer_of 0x9000 refuse caller (λ q. 0))
    × (((before_call 0x9000 caller (λ q. 0)).1 (0x9000 - 80) ≡ 39)
        × ((before_call 0x9000 caller (λ q. 0)).1 (0x9000 - 72) ≡ 1)
        × ((before_call 0x9000 caller (λ q. 0)).1 (0x9000 - 64) ≡ 2)
        × ((before_call 0x9000 caller (λ q. 0)).1 (0x9000 - 56) ≡ 3)
        × ((before_call 0x9000 caller (λ q. 0)).1 (0x9000 - 48) ≡ 4)
        × ((before_call 0x9000 caller (λ q. 0)).1 (0x9000 - 40) ≡ 5)
        × ((before_call 0x9000 caller (λ q. 0)).1 (0x9000 - 32) ≡ 6))
syscall_entry-Returns_example =
    syscall_entry-Returns 0x9000 refuse caller (λ q. 0) (omega arith)
      (λ regs q m low high other. ground (arith, other))
