-- ===== src/Paging/Cow.antt =====
-- What `resolve_cow_fault` of src/mm/memory.rs may change.
use Prim.Native.Nat.{bit_or}
use nwin_os.Common.{
  ℕ, ◌≡◌, refl, ap, subst, Bool, true, false, ◌==◌, Option, none, some, inl, inr, Bool-cases,
}
use nwin_os.Common.Outcome.{Outcome, returned, panicked}
use nwin_os.Frames.{BitmapFrameAllocator, allocate_frame, deallocate_frame, get_ref_count}
use nwin_os.Frames.Laws.{IsValid}
use nwin_os.Frames.Search.{Allocates, allocate_frame-Allocates}
use nwin_os.Task.{Memory}
use nwin_os.UserMemory.{page_start}
use nwin_os.Paging.{
  PageTables, Physical, writable, copy_bytes, make_writable, release_old, remapped, remap, clone,
  resolve_mapped, resolve_flagged, resolve_translated, resolve_cow_fault,
}
use nwin_os.Paging.Laws.{KeepsUsed, copy_bytes-KeepsUsed}

-- What a fault may change, by its answer.
abbrev pub Spares : Physical → Outcome (Bool × Physical) → Type 0
Spares p panicked = Unit
Spares p (returned (false, p')) = p' ≡ p
Spares p (returned (true, p')) = KeepsUsed p p'

module _ (pt : PageTables) (p : Physical) (v : IsValid p.frames)
    (pml4 fault_addr phys_addr flags : ℕ) where
  release_old-Spares :
      (p' : Physical)
      → KeepsUsed p p'
      → (o : Outcome BitmapFrameAllocator) → Spares p (release_old pt p' o)
  release_old-Spares p' k panicked = tt
  release_old-Spares p' k (returned frames) = k

  remapped-Spares :
      (p' : Physical)
      → KeepsUsed p p'
      → (r : Bool × Memory × BitmapFrameAllocator) → Spares p (remapped pt p' phys_addr r)
  remapped-Spares p' k (false, tables, frames) = tt
  remapped-Spares p' k (true, tables, frames) =
      release_old-Spares (record p' { frames = frames; tables = tables }) k
        (deallocate_frame frames phys_addr)

  remap-Spares :
      (p' : Physical)
      → KeepsUsed p p'
      → (page new_frame : ℕ) → (o : Option Memory)
      → Spares p (remap pt p' pml4 page phys_addr new_frame flags o)
  remap-Spares p' k page new_frame none = tt
  remap-Spares p' k page new_frame (some tables) =
      remapped-Spares p' k (pt.map_to tables p'.frames pml4 page new_frame (bit_or flags writable))

  clone-Spares :
      (page : ℕ) (r : Option ℕ × BitmapFrameAllocator)
      → allocate_frame p.frames ≡ r
      → Spares p (clone pt p pml4 page phys_addr flags r)
  clone-Spares page (none, frames) e =
      ap (λ a. record p { frames = a })
        (subst (λ r. Allocates p.frames r) e (allocate_frame-Allocates p.frames v)).0
  clone-Spares page (some new_frame, frames) e =
      (let p' : Physical = record p {
        frames = frames;
        bytes = copy_bytes pt p.bytes phys_addr new_frame;
      } in
        remap-Spares p' (copy_bytes-KeepsUsed pt p frames phys_addr new_frame v e) page new_frame
          (pt.unmap p'.tables pml4 page))

  make_writable-Spares : (o : Option Memory) → Spares p (make_writable pt p o)
  make_writable-Spares none = tt
  make_writable-Spares (some tables) = λ q used. refl

  resolve_mapped-Spares : Spares p (resolve_mapped pt p pml4 fault_addr phys_addr flags)
  resolve_mapped-Spares = elim (Bool-cases (get_ref_count p.frames phys_addr == 0)) [
    | inl unowned ↦ rw unowned refl
    | inr owned ↦ elim (Bool-cases (get_ref_count p.frames phys_addr == 1)) [
      | inl sole ↦ rw (owned, sole) (make_writable-Spares _)
      | inr shared ↦ rw (owned, shared) (clone-Spares (page_start fault_addr) _ refl)
    ]
  ]

-- For any mapper and a valid allocator, a fault that is not resolved changes nothing, and one that is
-- resolved changes no byte of a frame in use, whatever an overlapping copy leaves in its destination.
pub resolve_cow_fault-Spares :
    (pt : PageTables) (p : Physical) (pml4 fault_addr : ℕ)
    → IsValid p.frames
    → Spares p (resolve_cow_fault pt p pml4 fault_addr)
unfolding resolve_cow_fault
resolve_cow_fault-Spares pt p pml4 fault_addr v =
    at_address (pt.translate_addr p.tables pml4 fault_addr)
  where
    at_flags :
        (phys_addr : ℕ) (flags : Option ℕ)
        → Spares p (resolve_flagged pt p pml4 fault_addr phys_addr flags)
    at_flags phys_addr none = refl
    at_flags phys_addr (some flags) = resolve_mapped-Spares pt p v pml4 fault_addr phys_addr flags

    at_address : (o : Option ℕ) → Spares p (resolve_translated pt p pml4 fault_addr o)
    at_address none = refl
    at_address (some phys_addr) = at_flags phys_addr (pt.translate_flags p.tables pml4 fault_addr)
