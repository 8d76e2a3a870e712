-- ===== src/Paging.antt =====
-- The functions of src/mm/memory.rs that change page tables: `allocate_and_map_user_page`,
-- `translate_in_pml4` and `resolve_cow_fault`.
--
-- The tables are changed by the mapper of the crate `x86_64`, which is a parameter. A frame holds
-- either a table, seen in the words of `Memory`, or data, seen in bytes; both by physical address.
pub mod Laws
pub mod Cow
pub mod Panics
pub mod Resolves
pub mod Tests
use Prim.Native.Nat.{bit_or}
use nwin_os.Common.{
  ℕ, ◌+◌, ◌-◌, Bool, true, false, ◌&&◌, Option, none, some, ltb, leb, ◌==◌, if◌then◌else◌,
}
use nwin_os.Common.Outcome.{Outcome, returned, panicked, Result, ok, err}
use nwin_os.Error.{KernelError, memory, out_of_frames, invalid_mapping}
use nwin_os.Frames.{BitmapFrameAllocator, allocate_frame, deallocate_frame, get_ref_count}
use nwin_os.Task.{Memory}
use nwin_os.UserMemory.{page_start}

abbrev pub Bytes : Type 0
Bytes = ℕ → ℕ

-- What the kernel uses of `OffsetPageTable`: a table by the frame of its fourth level, an address, and
-- the flags of a mapping. `map_to` takes frames for new tables from the allocator, also if it fails.
-- `copied_over` is no part of it: `copy_nonoverlapping` between ranges that overlap is undefined
-- behaviour, and this is what the destination holds then.
pub record PageTables : Type 0 where
  pub translate_page : Memory → ℕ → ℕ → Bool
  pub translate_addr : Memory → ℕ → ℕ → Option ℕ
  pub translate_flags : Memory → ℕ → ℕ → Option ℕ
  pub map_to :
      Memory
      → BitmapFrameAllocator
      → (pml4 page frame flags : ℕ) → Bool × Memory × BitmapFrameAllocator
  pub update_flags : Memory → (pml4 page flags : ℕ) → Option Memory
  pub unmap : Memory → (pml4 page : ℕ) → Option Memory
  pub copied_over : Bytes → (from to : ℕ) → Bytes

-- What the functions change.
pub record Physical : Type 0 where
  pub frames : BitmapFrameAllocator
  pub tables : Memory
  pub bytes : Bytes

-- `write_bytes(frame, 0, 4096)`
abbrev pub clear_bytes : Bytes → ℕ → Bytes
clear_bytes b frame q = if leb frame q && ltb q (frame + 4096) then 0 else b q

-- `copy_nonoverlapping(from, to, 4096)`
abbrev pub copy_bytes : PageTables → Bytes → ℕ → ℕ → Bytes
copy_bytes pt b from to q =
    if leb to q && ltb q (to + 4096)
    then (if ltb from (to + 4096) && ltb to (from + 4096)
        then pt.copied_over b from to q
        else b (from + (q - to)))
    else b q

abbrev pub writable : ℕ
writable = 2

-- present, writable and the user's
abbrev pub user_flags : ℕ
user_flags = 7

module _ (pt : PageTables) where
  abbrev pub finish_map :
      Physical → ℕ → Bool × Memory × BitmapFrameAllocator → Result Bool KernelError × Physical
  finish_map p frame (false, tables, frames) =
      (err (memory invalid_mapping), record p { frames = frames; tables = tables })
  finish_map p frame (true, tables, frames) =
      (ok true, record { frames = frames; tables = tables; bytes = clear_bytes p.bytes frame })

  abbrev pub map_new :
      Physical → ℕ → ℕ → Option ℕ × BitmapFrameAllocator → Result Bool KernelError × Physical
  map_new p pml4 page (none, frames) = (err (memory out_of_frames), record p { frames = frames })
  map_new p pml4 page (some frame, frames) =
      finish_map p frame (pt.map_to p.tables frames pml4 page frame user_flags)

  -- True if a frame was mapped, false if the page had one.
  unfoldable pub allocate_and_map_user_page : Physical → ℕ → ℕ → Result Bool KernelError × Physical
  allocate_and_map_user_page p target_pml4 virtual_address =
      let page = page_start virtual_address in
      if pt.translate_page p.tables target_pml4 page
      then (ok false, p)
      else map_new p target_pml4 page (allocate_frame p.frames)

  unfoldable pub translate_in_pml4 : Physical → ℕ → ℕ → Option ℕ
  translate_in_pml4 p target_pml4 virtual_address =
      pt.translate_addr p.tables target_pml4 virtual_address

  abbrev pub make_writable : Physical → Option Memory → Outcome (Bool × Physical)
  make_writable p none = panicked
  make_writable p (some tables) = returned (true, record p { tables = tables })

  -- One reference to the old frame is given up.
  abbrev pub release_old : Physical → Outcome BitmapFrameAllocator → Outcome (Bool × Physical)
  release_old p panicked = panicked
  release_old p (returned frames) = returned (true, record p { frames = frames })

  abbrev pub remapped :
      Physical → ℕ → Bool × Memory × BitmapFrameAllocator → Outcome (Bool × Physical)
  remapped p phys_addr (false, tables, frames) = panicked
  remapped p phys_addr (true, tables, frames) =
      release_old (record p { frames = frames; tables = tables })
        (deallocate_frame frames phys_addr)

  abbrev pub remap :
      Physical
      → (pml4 page phys_addr new_frame flags : ℕ) → Option Memory
      → Outcome (Bool × Physical)
  remap p pml4 page phys_addr new_frame flags none = panicked
  remap p pml4 page phys_addr new_frame flags (some tables) =
      remapped p phys_addr (pt.map_to tables p.frames pml4 page new_frame (bit_or flags writable))

  -- The clone starts at the physical address of the fault.
  abbrev pub clone :
      Physical
      → (pml4 page phys_addr flags : ℕ) → Option ℕ × BitmapFrameAllocator
      → Outcome (Bool × Physical)
  clone p pml4 page phys_addr flags (none, frames) = returned (false, record p { frames = frames })
  clone p pml4 page phys_addr flags (some new_frame, frames) =
      let p' : Physical = record p {
        frames = frames;
        bytes = copy_bytes pt p.bytes phys_addr new_frame;
      } in
      remap p' pml4 page phys_addr new_frame flags (pt.unmap p'.tables pml4 page)

  abbrev pub resolve_mapped :
      Physical → (pml4 fault_addr phys_addr flags : ℕ) → Outcome (Bool × Physical)
  resolve_mapped p pml4 fault_addr phys_addr flags =
      let ref_count = get_ref_count p.frames phys_addr in
      let page = page_start fault_addr in
      if ref_count == 0
      then returned (false, p)
      else if ref_count == 1
      then make_writable p (pt.update_flags p.tables pml4 page (bit_or flags writable))
      else clone p pml4 page phys_addr flags (allocate_frame p.frames)

  -- The two `match` that return false where the fault's page is not mapped.
  abbrev pub resolve_flagged :
      Physical → (pml4 fault_addr phys_addr : ℕ) → Option ℕ → Outcome (Bool × Physical)
  resolve_flagged p pml4 fault_addr phys_addr none = returned (false, p)
  resolve_flagged p pml4 fault_addr phys_addr (some flags) =
      resolve_mapped p pml4 fault_addr phys_addr flags

  abbrev pub resolve_translated :
      Physical → (pml4 fault_addr : ℕ) → Option ℕ → Outcome (Bool × Physical)
  resolve_translated p pml4 fault_addr none = returned (false, p)
  resolve_translated p pml4 fault_addr (some phys_addr) =
      resolve_flagged p pml4 fault_addr phys_addr (pt.translate_flags p.tables pml4 fault_addr)

  unfoldable pub resolve_cow_fault : Physical → ℕ → ℕ → Outcome (Bool × Physical)
  resolve_cow_fault p pml4 fault_addr =
      resolve_translated p pml4 fault_addr (pt.translate_addr p.tables pml4 fault_addr)
