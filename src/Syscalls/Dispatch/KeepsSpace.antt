-- ===== src/Syscalls/Dispatch/KeepsSpace.antt =====
-- `mmap` and `brk` of src/core/syscall.rs keep the invariant of the task manager.
use Prim.Native.Nat.{bit_and}
use nwin_os.Common.{
  ℕ, ◌+◌, ◌≡◌, refl, Bool, true, false, ◌&&◌, ◌||◌, Option, none, some, min, ◌-◌, ◌^◌, ltb, leb,
  ◌==◌, if◌then◌else◌, Bool-cases, inl, inr,
}
use nwin_os.Common.Outcome.{returned}
use nwin_os.Paging.{PageTables, Physical}
use nwin_os.Task.{Task}
use nwin_os.Tasks.Spec.{IsValid}
use nwin_os.UserMemory.{user_top}
use nwin_os.Syscalls.{Kernel, current}
use nwin_os.Syscalls.Current.{put_current-IsValid}
use nwin_os.Syscalls.Space.{
  mapped_area, map_area, mmap_task, sys_mmap, grown, move_break, brk_task, sys_brk, fits, page_end,
  heap_limit,
}
use nwin_os.Syscalls.Dispatch.Keeps.{LeavesValid}

module _ (pt : PageTables) (k : Kernel) (v : IsValid k.tasks) where
  mapped_area-LeavesValid :
      (t : Task) (addr start_addr size : ℕ) (r : Bool × Physical)
      → current k.tasks ≡ some t
      → LeavesValid (returned (mapped_area pt k t addr start_addr size r))
  mapped_area-LeavesValid t addr start_addr size (false, p) c = v
  mapped_area-LeavesValid t addr start_addr size (true, p) c = put_current-IsValid k.tasks t _ c v

  mmap_task-LeavesValid :
      (addr len : ℕ) (o : Option Task)
      → current k.tasks ≡ o
      → LeavesValid (mmap_task pt k addr len o)
  mmap_task-LeavesValid addr len none c = v
  mmap_task-LeavesValid addr len (some t) c = elim (Bool-cases (fits len)) [
    | inr long ↦ rw long tt
    | inl short ↦ rw short (within (if addr == 0 then t.mmap_base else addr))
  ]
    where
      within : (at : ℕ) → LeavesValid (returned (map_area pt k t addr at (page_end len)))
      within at =
          elim (Bool-cases (leb 0x1000 at && leb (min (at + page_end len) (2 ^ 64 - 1)) user_top)) [
            | inl inside ↦ rw inside (mapped_area-LeavesValid t addr at (page_end len) _ c)
            | inr outside ↦ rw outside v
          ]

  pub sys_mmap-LeavesValid : (addr len flags : ℕ) → LeavesValid (sys_mmap pt k addr len flags)
  unfolding sys_mmap
  sys_mmap-LeavesValid addr len flags = elim (Bool-cases (bit_and flags 0x20 == 0)) [
    | inl file ↦ rw file v
    | inr anonymous ↦ rw anonymous (mmap_task-LeavesValid addr len (current k.tasks) refl)
  ]

  grown-LeavesValid :
      (t : Task) (requested_brk : ℕ) (r : Bool × Physical)
      → current k.tasks ≡ some t
      → LeavesValid (returned (grown pt k t requested_brk r))
  grown-LeavesValid t requested_brk (false, p) c = v
  grown-LeavesValid t requested_brk (true, p) c = put_current-IsValid k.tasks t _ c v

  move_break-LeavesValid :
      (t : Task) (requested_brk : ℕ)
      → current k.tasks ≡ some t
      → LeavesValid (move_break pt k t requested_brk)
  move_break-LeavesValid t requested_brk c = elim (Bool-cases (fits t.program_break)) [
    | inr overflow ↦ rw overflow tt
    | inl small ↦ elim (Bool-cases (ltb (page_end t.program_break) (page_end requested_brk))) [
      | inl more ↦ rw (small, more) (grown-LeavesValid t requested_brk _ c)
      | inr less ↦ rw (small, less) (put_current-IsValid k.tasks t _ c v)
    ]
  ]

  brk_task-LeavesValid :
      (requested_brk : ℕ) (o : Option Task)
      → current k.tasks ≡ o
      → LeavesValid (brk_task pt k requested_brk o)
  brk_task-LeavesValid requested_brk none c = v
  brk_task-LeavesValid requested_brk (some t) c = elim (Bool-cases (requested_brk == 0)) [
    | inl asks ↦ rw asks v
    | inr moves ↦
        elim (Bool-cases (ltb requested_brk t.heap_start || leb heap_limit requested_brk)) [
          | inl out ↦ rw (moves, out) v
          | inr inside ↦ rw (moves, inside) (move_break-LeavesValid t requested_brk c)
        ]
  ]

  pub sys_brk-LeavesValid : (requested_brk : ℕ) → LeavesValid (sys_brk pt k requested_brk)
  unfolding sys_brk
  sys_brk-LeavesValid requested_brk = brk_task-LeavesValid requested_brk (current k.tasks) refl
