-- ===== src/Faults.antt =====
-- The exception handlers of src/core/idt.rs: page fault, general protection fault, divide error,
-- invalid opcode and double fault.
--
-- A handler resumes the interrupted code, ends the current task, halts the kernel with an error of its
-- own, or panics inside the copy-on-write handler; its messages are left out. Where it ends the current
-- task it goes on to schedule for ever; the first turn of that loop is modelled, since a switch leaves
-- it.
pub mod Contained
mod Tests
use Prim.Native.Nat.{bit_and}
use nwin_os.Common.{ℕ, Bool, true, false, not, ◌&&◌, ◌==◌, if◌then◌else◌}
use nwin_os.Error.{
  KernelError, memory, page_fault, privilege, general_protection_fault, divide_error,
  invalid_opcode, double_fault,
}
use nwin_os.Tasks.{TaskManager, exit_current_task}
use nwin_os.Common.Outcome.{Outcome, returned, panicked}
use nwin_os.Paging.{PageTables, Physical, resolve_cow_fault}
use nwin_os.Scheduler.{Tick, schedule}

-- Page tables, frames and bytes as the handler leaves them, where it goes on.
pub data Ending : Type 0 where
  resumed : Physical → Ending
  terminated : KernelError → Tick → Physical → Ending
  halted : KernelError → Ending
  panicked_inside : Ending

-- What the CPU reports: the error code and the address of a page fault, the code segment of the
-- interrupted code, and the page table that CR3 holds.
pub data Fault : Type 0 where
  page : (fault_addr error_code : ℕ) → Fault
  general_protection : (code_segment error_code : ℕ) → Fault
  divide : (code_segment : ℕ) → Fault
  opcode : (code_segment : ℕ) → Fault
  double : Fault

-- `exit_current_task`, then `schedule`
unfoldable pub end_task : KernelError → TaskManager → ℕ → Physical → Ending
end_task error tm cr3 p = terminated error (schedule (exit_current_task tm) cr3) p

abbrev pub end_or_panic : Bool → KernelError → TaskManager → ℕ → Physical → Ending
end_or_panic is_user error tm cr3 p = if is_user then end_task error tm cr3 p else halted error

abbrev pub from_user : ℕ → Bool
from_user code_segment = bit_and code_segment 3 == 3

abbrev pub is_present : ℕ → Bool
is_present error_code = not (bit_and error_code 1 == 0)

abbrev pub is_write : ℕ → Bool
is_write error_code = not (bit_and error_code 2 == 0)

abbrev pub is_user : ℕ → Bool
is_user error_code = not (bit_and error_code 4 == 0)

-- The fault that is left is the task's, or the kernel's own.
abbrev pub unresolved_page : (fault_addr error_code : ℕ) → TaskManager → ℕ → Physical → Ending
unresolved_page fault_addr error_code tm cr3 p =
    end_or_panic (is_user error_code) (memory (page_fault fault_addr error_code)) tm cr3 p

-- By the answer of the copy-on-write handler, or its panic.
abbrev pub after_cow :
    (fault_addr error_code : ℕ) → TaskManager → ℕ → Outcome (Bool × Physical) → Ending
after_cow fault_addr error_code tm cr3 panicked = panicked_inside
after_cow fault_addr error_code tm cr3 (returned (true, p)) = resumed p
after_cow fault_addr error_code tm cr3 (returned (false, p)) =
    unresolved_page fault_addr error_code tm cr3 p

module _ (pt : PageTables) where
  -- The tables that are changed are those of CR3.
  unfoldable pub page_fault_handler : ℕ → ℕ → TaskManager → ℕ → Physical → Ending
  page_fault_handler fault_addr error_code tm cr3 p =
      if is_present error_code && is_write error_code
      then after_cow fault_addr error_code tm cr3 (resolve_cow_fault pt p cr3 fault_addr)
      else unresolved_page fault_addr error_code tm cr3 p

unfoldable pub general_protection_fault_handler : ℕ → ℕ → TaskManager → ℕ → Physical → Ending
general_protection_fault_handler code_segment error_code tm cr3 p =
    end_or_panic (from_user code_segment)
      (privilege (general_protection_fault error_code (from_user code_segment))) tm cr3 p

unfoldable pub divide_error_handler : ℕ → TaskManager → ℕ → Physical → Ending
divide_error_handler code_segment tm cr3 p =
    end_or_panic (from_user code_segment) (privilege (divide_error (from_user code_segment))) tm cr3
      p

unfoldable pub invalid_opcode_handler : ℕ → TaskManager → ℕ → Physical → Ending
invalid_opcode_handler code_segment tm cr3 p =
    end_or_panic (from_user code_segment) (privilege (invalid_opcode (from_user code_segment))) tm
      cr3 p

unfoldable pub double_fault_handler : Ending
double_fault_handler = halted (privilege double_fault)

module _ (pt : PageTables) where
  -- The handler that the interrupt table names for a fault.
  unfoldable pub handle : Fault → TaskManager → ℕ → Physical → Ending
  unfolding page_fault_handler general_protection_fault_handler divide_error_handler
      invalid_opcode_handler double_fault_handler
  handle (page fault_addr error_code) tm cr3 p =
      page_fault_handler pt fault_addr error_code tm cr3 p
  handle (general_protection code_segment error_code) tm cr3 p =
      general_protection_fault_handler code_segment error_code tm cr3 p
  handle (divide code_segment) tm cr3 p = divide_error_handler code_segment tm cr3 p
  handle (opcode code_segment) tm cr3 p = invalid_opcode_handler code_segment tm cr3 p
  handle double tm cr3 p = double_fault_handler
