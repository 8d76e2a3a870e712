-- ===== src/Task.antt =====
-- src/task/task.rs: the task record, the construction of its first kernel stack, and the two pieces
-- of assembly that run on it, `context_switch` and `user_mode_trampoline`.
--
-- Memory is a function from addresses to 64-bit words. Words are written whole and at multiples of
-- 8 from one stack top, so they never overlap in part. The heap's answer to the stack reservation,
-- the segment selectors of the GDT, the addresses of code and the identifier counter are arguments.
pub mod Switch
pub mod Dispatch
mod Tests
use Prim.Native.Nat.{bit_or}
use nwin_os.Common.{
  ℕ, ◌+◌, ◌-◌, ◌*◌, ◌/◌, ◌%◌, ◌^◌, Bool, true, false, ◌||◌, ◌&&◌, not, Option, none, some, ltb, leb,
  ◌==◌, if◌then◌else◌,
}
use nwin_os.Common.Outcome.{Result, ok, err}
use nwin_os.Error.{KernelError, task, stack_allocation}
use nwin_os.Fd
use nwin_os.Fd.{FdTable}

abbrev pub TaskId : Type 0
TaskId = ℕ

pub data PrivilegeLevel : Type 0 where
  kernel_mode user_mode : PrivilegeLevel

pub record Task : Type 0 where
  pub id : TaskId
  pub parent_id : Option TaskId
  pub rsp : ℕ
  pub pml4_frame : ℕ
  pub stack_start : ℕ
  pub stack_end : ℕ
  pub privilege : PrivilegeLevel
  pub heap_start : ℕ
  pub program_break : ℕ
  pub mmap_base : ℕ
  pub fd_table : FdTable

abbrev pub Memory : Type 0
Memory = ℕ → ℕ

abbrev pub store : Memory → ℕ → ℕ → Memory
store m p v q = if p == q then v else m q

-- `rsp -= 8; *(rsp as *mut u64) = value`
abbrev pub push : ℕ → ℕ × Memory → ℕ × Memory
push value (rsp, m) = (rsp - 8, store m (rsp - 8) value)

abbrev pub stack_size : ℕ
stack_size = 65536

abbrev pub initial_flags : ℕ
initial_flags = 0x202

abbrev pub canary : ℕ
canary = 0xdead_c0de_dead_c0de

-- `TaskContext` written below `rsp`: its last field lies highest.
abbrev pub push_context : ℕ × Memory → ℕ × Memory
push_context s = push initial_flags (push 0 (push 0 (push 0 (push 0 (push 0 (push 0 s))))))

-- What `Task::new` takes from the rest of the kernel: the address of the reserved stack (`none` if
-- the heap has no room), the selectors of the GDT and the address of the trampoline.
pub record Surroundings : Type 0 where
  pub next_id : ℕ
  pub reserved : Option ℕ
  pub user_data_selector : ℕ
  pub user_code_selector : ℕ
  pub trampoline : ℕ
  pub memory : Memory

-- The stack of a new task below the aligned top.
unfoldable pub first_frame : Surroundings → PrivilegeLevel → ℕ → ℕ → ℕ → ℕ × Memory
first_frame s user_mode entry_point user_stack_top top = push_context (
    push s.trampoline (
      push entry_point (
        push (bit_or s.user_code_selector 3) (
          push initial_flags
            (push user_stack_top (push (bit_or s.user_data_selector 3) (top, s.memory)))))))
first_frame s kernel_mode entry_point user_stack_top top =
    push_context (push entry_point (push canary (top, s.memory)))

abbrev pub heap_base : ℕ
heap_base = 0x2_0000_0000

abbrev pub mmap_start : ℕ
mmap_start = 0x4000_0000_0000

-- The identifier is drawn first, and stays used if the reservation fails.
unfoldable pub new :
    Surroundings
    → ℕ
    → ℕ
    → PrivilegeLevel
    → ℕ
    → Option TaskId
    → Result Task KernelError × Surroundings
unfolding first_frame
new s entry_point pml4_frame privilege user_stack_top parent_id = elim s.reserved [
  | none ↦ (err (task stack_allocation), record s { next_id = (s.next_id + 1) % 2 ^ 64 })
  | some stack_start ↦
      let top = stack_start + stack_size in
      let (rsp, m) = first_frame s privilege entry_point user_stack_top (top - top % 16) in
      (
        ok (record {
          id = s.next_id;
          parent_id = parent_id;
          rsp = rsp;
          pml4_frame = pml4_frame;
          stack_start = stack_start;
          stack_end = top;
          privilege = privilege;
          heap_start = heap_base;
          program_break = heap_base;
          mmap_base = mmap_start;
          fd_table = Fd.new;
        }),
        record s { next_id = (s.next_id + 1) % 2 ^ 64; memory = m },
      )
]

unfoldable pub is_valid_rsp : Task → ℕ → Bool
is_valid_rsp t rsp = leb t.stack_start rsp && ltb rsp t.stack_end

-- The registers that the assembly touches.
pub record Cpu : Type 0 where
  pub rip : ℕ
  pub rsp : ℕ
  pub rflags : ℕ
  pub rbp : ℕ
  pub rbx : ℕ
  pub r12 : ℕ
  pub r13 : ℕ
  pub r14 : ℕ
  pub r15 : ℕ
  pub cs : ℕ
  pub ss : ℕ

-- The saves of `context_switch`, from `push r15` to `or qword ptr [rsp], 0x200`.
unfoldable pub save_context : Cpu → Memory → ℕ × Memory
save_context c m =
    push (bit_or c.rflags 0x200)
      (push c.rbp (push c.rbx (push c.r12 (push c.r13 (push c.r14 (push c.r15 (c.rsp, m)))))))

-- The restores of `context_switch`, from `mov rsp, rsi` to `ret`.
unfoldable pub load_context : Cpu → Memory → ℕ → Cpu
load_context c m p = record c {
  rflags = m p;
  rbp = m (p + 8);
  rbx = m (p + 16);
  r12 = m (p + 24);
  r13 = m (p + 32);
  r14 = m (p + 40);
  r15 = m (p + 48);
  rip = m (p + 56);
  rsp = p + 64;
}

-- Entered by `call`, so the return address lies at `rsp`. `none` is the trap of label 2.
unfoldable pub context_switch : ℕ → ℕ → Cpu → Memory → Option (Cpu × Memory)
unfolding save_context load_context
context_switch old_rsp new_rsp c m =
    if old_rsp == 0 || new_rsp == 0
    then none
    else (let (rsp, m') = save_context c m in
        let m'' = store m' old_rsp rsp in some (load_context c m'' new_rsp, m''))

-- `iretq` in 64-bit mode.
unfoldable pub user_mode_trampoline : Cpu → Memory → Cpu
user_mode_trampoline c m = record c {
  rip = m c.rsp;
  cs = m (c.rsp + 8);
  rflags = m (c.rsp + 16);
  rsp = m (c.rsp + 24);
  ss = m (c.rsp + 32);
}
