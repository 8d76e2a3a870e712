-- ===== src/Syscalls/Space.antt =====
-- The system calls on the address space of src/core/syscall.rs: mmap and brk.
--
-- The sums that overflow a machine word are panics, since the development profile checks them.
pub mod Heap
pub mod Area
use Prim.Native.Nat.{bit_and}
use nwin_os.Common.{
  ℕ, zero, suc, ◌+◌, ◌-◌, ◌*◌, ◌/◌, ◌^◌, min, Bool, true, false, not, ◌&&◌, ◌||◌, Option, none,
  some, leb, ltb, ◌==◌, if◌then◌else◌,
}
use nwin_os.Common.Outcome.{Outcome, returned, panicked, Result, ok, err}
use nwin_os.Error.{KernelError}
use nwin_os.Paging.{PageTables, Physical, allocate_and_map_user_page}
use nwin_os.Task.{Task}
use nwin_os.UserMemory.{user_top}
use nwin_os.Syscalls.{Kernel, einval, enomem, current, put_current}
use nwin_os.Syscalls.Files.{Answer, answer}

-- `(n + 0xFFF) & !0xFFF`, if the sum is a machine word.
abbrev pub page_end : ℕ → ℕ
page_end n = (n + 0xFFF) / 4096 * 4096

abbrev pub fits : ℕ → Bool
fits n = ltb (n + 0xFFF) (2 ^ 64)

abbrev pub heap_limit : ℕ
heap_limit = 0x7000_0000_0000

module _ (pt : PageTables) where
  abbrev pub then_map :
      (Physical → Bool × Physical) → Result Bool KernelError × Physical → Bool × Physical
  then_map go_on (ok mapped, p) = go_on p
  then_map go_on (err e, p) = (false, p)

  -- The loop that maps `pages` pages from an address on: true if it meets no error.
  unfoldable pub map_pages : Physical → (pml4 virt_addr pages : ℕ) → Bool × Physical
  map_pages p pml4 virt_addr zero = (true, p)
  map_pages p pml4 virt_addr (suc pages) =
      then_map (λ p'. map_pages p' pml4 (virt_addr + 4096) pages)
        (allocate_and_map_user_page pt p pml4 virt_addr)

  -- The error of a failed page is overwritten by the answer that stands for no memory.
  abbrev pub mapped_area :
      Kernel → Task → (addr start_addr alloc_size : ℕ) → Bool × Physical → Answer
  mapped_area k t addr start_addr alloc_size (false, p) = answer enomem (record k { physical = p })
  mapped_area k t addr start_addr alloc_size (true, p) =
      let t' : Task = if addr == 0 then record t { mmap_base = t.mmap_base + alloc_size } else t in
      answer start_addr (record k { physical = p; tasks = put_current k.tasks t' })

  abbrev pub map_area : Kernel → Task → (addr start_addr alloc_size : ℕ) → Answer
  map_area k t addr start_addr alloc_size =
      if leb 0x1000 start_addr && leb (min (start_addr + alloc_size) (2 ^ 64 - 1)) user_top
      then mapped_area k t addr start_addr alloc_size
          (map_pages k.physical t.pml4_frame start_addr (alloc_size / 4096))
      else answer enomem k

  abbrev pub mmap_task : Kernel → (addr len : ℕ) → Option Task → Outcome Answer
  mmap_task k addr len none = returned (answer enomem k)
  mmap_task k addr len (some t) =
      if fits len
      then returned (map_area k t addr (if addr == 0 then t.mmap_base else addr) (page_end len))
      else panicked

  unfoldable pub sys_mmap : Kernel → (addr len flags : ℕ) → Outcome Answer
  sys_mmap k addr len flags =
      if bit_and flags 0x20 == 0
      then returned (answer einval k)
      else mmap_task k addr len (current k.tasks)

  abbrev pub set_break : Kernel → Task → ℕ → Answer
  set_break k t requested_brk =
      answer requested_brk
        (record k { tasks = put_current k.tasks (record t { program_break = requested_brk }) })

  abbrev pub grown : Kernel → Task → ℕ → Bool × Physical → Answer
  grown k t requested_brk (false, p) = answer t.program_break (record k { physical = p })
  grown k t requested_brk (true, p) = set_break (record k { physical = p }) t requested_brk

  abbrev pub move_break : Kernel → Task → ℕ → Outcome Answer
  move_break k t requested_brk =
      let current_page_end = page_end t.program_break in
      let new_page_end = page_end requested_brk in
      let pages = (new_page_end - current_page_end) / 0x1000 in
      if not (fits t.program_break)
      then panicked
      else if ltb current_page_end new_page_end
      then returned
          (grown k t requested_brk (map_pages k.physical t.pml4_frame current_page_end pages))
      else returned (set_break k t requested_brk)

  abbrev pub brk_task : Kernel → ℕ → Option Task → Outcome Answer
  brk_task k requested_brk none = returned (answer 0 k)
  brk_task k requested_brk (some t) =
      if requested_brk == 0
      then returned (answer t.program_break k)
      else if ltb requested_brk t.heap_start || leb heap_limit requested_brk
      then returned (answer t.program_break k)
      else move_break k t requested_brk

  unfoldable pub sys_brk : Kernel → ℕ → Outcome Answer
  sys_brk k requested_brk = brk_task k requested_brk (current k.tasks)
