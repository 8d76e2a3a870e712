-- ===== src/AddressSpace.antt =====
-- `create_isolated_pml4` of src/mm/memory.rs, with the frame allocator that it draws on: the first
-- table of a new task's address space. Memory is by physical address, as the higher-half window shows
-- it, in 64-bit words; clearing a frame is the documented behaviour of `write_bytes` and `zero`.
pub mod Isolation
mod Tests
use nwin_os.Common.{
  ℕ, zero, suc, ◌+◌, ◌*◌, Bool, true, false, not, ◌&&◌, Option, none, some, ltb, leb, ◌==◌,
  if◌then◌else◌,
}
use nwin_os.Frames.{BitmapFrameAllocator, allocate_frame}
use nwin_os.Task.{Memory, store}
use nwin_os.UserMemory.{user}

abbrev pub clear_frame : Memory → ℕ → Memory
clear_frame m frame q = if leb frame q && ltb q (frame + 4096) then 0 else m q

-- `SystemFrameAllocator::allocate_frame`
abbrev pub clear_new :
    Memory → Option ℕ × BitmapFrameAllocator → Option ℕ × BitmapFrameAllocator × Memory
clear_new m (none, a) = (none, a, m)
clear_new m (some frame, a) = (some frame, a, clear_frame m frame)

unfoldable pub system_allocate_frame :
    BitmapFrameAllocator → Memory → Option ℕ × BitmapFrameAllocator × Memory
system_allocate_frame a m = clear_new m (allocate_frame a)

-- The entries from `i` on that `keep` accepts are copied.
unfoldable pub copy_entries : (ℕ → Bool) → Memory → ℕ → ℕ → ℕ → ℕ → Memory
copy_entries keep m current new zero i = m
copy_entries keep m current new (suc n) i =
    let entry = m (current + i * 8) in
    copy_entries keep (if keep entry then store m (new + i * 8) entry else m) current new n (i + 1)

abbrev pub keep_kernel : ℕ → Bool
keep_kernel entry = not (entry == 0) && not (user entry)

abbrev pub fill :
    ℕ → Option ℕ × BitmapFrameAllocator × Memory → Option ℕ × BitmapFrameAllocator × Memory
fill current (none, a, m) = (none, a, m)
fill current (some new, a, m) = (
  some new,
  a,
  copy_entries keep_kernel (copy_entries (λ entry. true) (clear_frame m new) current new 256 256)
      current new 256 0,
)

unfoldable pub create_isolated_pml4 :
    BitmapFrameAllocator → Memory → ℕ → Option ℕ × BitmapFrameAllocator × Memory
unfolding system_allocate_frame
create_isolated_pml4 a m current = fill current (system_allocate_frame a m)
