-- ===== src/Paging/Resolves.antt =====
-- The answers of `resolve_cow_fault` of src/mm/memory.rs, and what is behind each.
use Prim.Native.Nat.{bit_or}
use nwin_os.Common.{
  ℕ, ◌+◌, ◌/◌, ◌≤◌, ◌<◌, ◌≡◌, ◌==◌, refl, ap, subst, Bool, true, false, Option, none, some, ◌⊎◌,
  inl, inr, Bool-cases, arith,
}
use nwin_os.Common.Outcome.{Outcome, returned, panicked}
use nwin_os.Frames.{BitmapFrameAllocator, allocate_frame, deallocate_frame, get_ref_count, test_bit}
use nwin_os.Frames.Laws.{IsValid}
use nwin_os.Frames.Search.{Allocates, allocate_frame-Allocates}
use nwin_os.Frames.Counts.{Releases, deallocate_frame-Releases}
use nwin_os.Task.{Memory}
use nwin_os.UserMemory.{page_start}
use nwin_os.Paging.{
  PageTables, Physical, writable, copy_bytes, make_writable, release_old, remapped, remap, clone,
  resolve_mapped, resolve_flagged, resolve_translated, resolve_cow_fault,
}
use nwin_os.Paging.Laws.{KeepsUsed, copy_bytes-KeepsUsed, byte-copy_bytes}
use nwin_os.Paging.Panics.{CowFails}

-- The page got the flag that allows writes, and nothing else changed.
abbrev pub Unlocked :
    PageTables → Physical → (pml4 fault_addr phys_addr flags : ℕ) → Physical → Type 0
Unlocked pt p pml4 fault_addr phys_addr flags p' =
    (get_ref_count p.frames phys_addr ≡ 1)
    × (pt.update_flags p.tables pml4 (page_start fault_addr) (bit_or flags writable)
        ≡ some p'.tables)
    × (p'.frames ≡ p.frames)
    × (p'.bytes ≡ p.bytes)

-- The page got a frame of its own, that was free, with a copy of the bytes from the address of the
-- fault on; then the old frame lost one owner, and no byte of a frame in use has changed.
abbrev pub Cloned :
    PageTables → Physical → (pml4 fault_addr phys_addr flags : ℕ) → Physical → Type 0
Cloned pt p pml4 fault_addr phys_addr flags p' =
    (1 < get_ref_count p.frames phys_addr)
    × (new_frame : ℕ) × (taken : BitmapFrameAllocator) × (cleared : Memory)
    × (frames : BitmapFrameAllocator) × (allocate_frame p.frames ≡ (some new_frame, taken))
    × (pt.unmap p.tables pml4 (page_start fault_addr) ≡ some cleared)
    × (pt.map_to cleared taken pml4 (page_start fault_addr) new_frame (bit_or flags writable)
        ≡ (true, p'.tables, frames))
    × ((phys_addr + 4096 ≤ new_frame) ⊎ (new_frame + 4096 ≤ phys_addr)
        → (o : ℕ) → o < 4096
        → p'.bytes (new_frame + o) ≡ p.bytes (phys_addr + o))
    × (IsValid frames → Releases frames (phys_addr / 4096) (returned p'.frames))
    × KeepsUsed p p'

-- Why a fault is not resolved.
abbrev pub IsUnresolvable : PageTables → Physical → (pml4 fault_addr : ℕ) → Type 0
IsUnresolvable pt p pml4 fault_addr =
    (pt.translate_addr p.tables pml4 fault_addr ≡ none)
    ⊎ ((pt.translate_flags p.tables pml4 fault_addr ≡ none)
        ⊎ ((phys_addr : ℕ) × (pt.translate_addr p.tables pml4 fault_addr ≡ some phys_addr)
            × ((get_ref_count p.frames phys_addr ≡ 0)
                ⊎ ((1 < get_ref_count p.frames phys_addr)
                    × ((g : ℕ) → test_bit p.frames g ≡ true)))))

abbrev pub Resolves :
    PageTables → Physical → (pml4 fault_addr : ℕ) → Outcome (Bool × Physical) → Type 0
Resolves pt p pml4 fault_addr panicked = CowFails pt p pml4 fault_addr
Resolves pt p pml4 fault_addr (returned (false, p')) =
    (p' ≡ p) × IsUnresolvable pt p pml4 fault_addr
Resolves pt p pml4 fault_addr (returned (true, p')) =
    (phys_addr : ℕ) × (flags : ℕ) × (pt.translate_addr p.tables pml4 fault_addr ≡ some phys_addr)
    × (pt.translate_flags p.tables pml4 fault_addr ≡ some flags)
    × (Unlocked pt p pml4 fault_addr phys_addr flags p'
        ⊎ Cloned pt p pml4 fault_addr phys_addr flags p')

module _ (pt : PageTables) (p : Physical) (pml4 fault_addr : ℕ) where
  module _ (v : IsValid p.frames) (phys_addr flags : ℕ)
      (at : pt.translate_addr p.tables pml4 fault_addr ≡ some phys_addr)
      (with_flags : pt.translate_flags p.tables pml4 fault_addr ≡ some flags) where
    module _ (shared : 1 < get_ref_count p.frames phys_addr) where
      broken : CowFails pt p pml4 fault_addr
      broken = (phys_addr, flags, at, with_flags, inr shared)

      module _ (new_frame : ℕ) (taken : BitmapFrameAllocator)
          (e : allocate_frame p.frames ≡ (some new_frame, taken)) where
        abbrev copied : Physical
        copied = record p { frames = taken; bytes = copy_bytes pt p.bytes phys_addr new_frame }

        release_old-Resolves :
            (cleared tables : Memory) (frames : BitmapFrameAllocator)
            → pt.unmap p.tables pml4 (page_start fault_addr) ≡ some cleared
            → pt.map_to cleared taken pml4 (page_start fault_addr) new_frame (bit_or flags writable)
              ≡ (true, tables, frames)
            → (o : Outcome BitmapFrameAllocator) → deallocate_frame frames phys_addr ≡ o
            → Resolves pt p pml4 fault_addr
                (release_old pt (record copied { frames = frames; tables = tables }) o)
        release_old-Resolves cleared tables frames u m panicked d = broken
        release_old-Resolves cleared tables frames u m (returned frames') d = (
          phys_addr,
          flags,
          at,
          with_flags,
          inr (
            shared,
            new_frame,
            taken,
            cleared,
            frames,
            e,
            u,
            m,
            (λ apart o. byte-copy_bytes pt p.bytes phys_addr new_frame o apart),
            (λ w.
                subst (Releases frames (phys_addr / 4096)) d
                  (deallocate_frame-Releases frames phys_addr w)),
            copy_bytes-KeepsUsed pt p taken phys_addr new_frame v e,
          ),
        )

        remapped-Resolves :
            (cleared : Memory) (r : Bool × Memory × BitmapFrameAllocator)
            → pt.unmap p.tables pml4 (page_start fault_addr) ≡ some cleared
            → pt.map_to cleared taken pml4 (page_start fault_addr) new_frame (bit_or flags writable)
              ≡ r
            → Resolves pt p pml4 fault_addr (remapped pt copied phys_addr r)
        remapped-Resolves cleared (false, tables, frames) u m = broken
        remapped-Resolves cleared (true, tables, frames) u m =
            release_old-Resolves cleared tables frames u m _ refl

        remap-Resolves :
            (o : Option Memory)
            → pt.unmap p.tables pml4 (page_start fault_addr) ≡ o
            → Resolves pt p pml4 fault_addr
                (remap pt copied pml4 (page_start fault_addr) phys_addr new_frame flags o)
        remap-Resolves none u = broken
        remap-Resolves (some cleared) u = remapped-Resolves cleared _ u refl

      clone-Resolves :
          (r : Option ℕ × BitmapFrameAllocator)
          → allocate_frame p.frames ≡ r
          → Resolves pt p pml4 fault_addr
              (clone pt p pml4 (page_start fault_addr) phys_addr flags r)
      clone-Resolves (none, frames) e =
          let (same, busy) =
            subst (λ r. Allocates p.frames r) e (allocate_frame-Allocates p.frames v) in
          (ap (λ a. record p { frames = a }) same, inr (inr (phys_addr, at, inr (shared, busy))))
      clone-Resolves (some new_frame, taken) e = remap-Resolves new_frame taken e _ refl

    make_writable-Resolves :
        get_ref_count p.frames phys_addr ≡ 1
        → (o : Option Memory)
        → pt.update_flags p.tables pml4 (page_start fault_addr) (bit_or flags writable) ≡ o
        → Resolves pt p pml4 fault_addr (make_writable pt p o)
    make_writable-Resolves one none u = (phys_addr, flags, at, with_flags, inl (one, u))
    make_writable-Resolves one (some tables) u =
        (phys_addr, flags, at, with_flags, inl (one, u, refl, refl))

    resolve_mapped-Resolves :
        Resolves pt p pml4 fault_addr (resolve_mapped pt p pml4 fault_addr phys_addr flags)
    resolve_mapped-Resolves = elim (Bool-cases (get_ref_count p.frames phys_addr == 0)) [
      | inl unowned ↦ rw unowned (refl, inr (inr (phys_addr, at, inl (ground (arith, unowned)))))
      | inr owned ↦ elim (Bool-cases (get_ref_count p.frames phys_addr == 1)) [
        | inl sole ↦ rw (owned, sole) (make_writable-Resolves (ground (arith, sole)) _ refl)
        | inr shared ↦ rw (owned, shared) (clone-Resolves (ground (arith, owned, shared)) _ refl)
      ]
    ]

-- Every outcome of the copy-on-write handler on a valid allocator, for any mapper. Where it answers no,
-- nothing has changed, and the reason is that the page is not mapped, that its frame has no owner, or
-- that it has several and no frame is free. Where it answers yes, either the frame has one owner, and
-- only the flags of the page were changed, or it has several: then the page was unmapped and mapped,
-- with write access, to a frame that was free; the old frame lost one owner, if the mapper left the
-- allocator valid; no byte of a frame in use has changed; and the new frame holds, from its start, the
-- 4096 bytes from the physical address of the fault on, if these do not overlap it. Where it panics,
-- the page is mapped, and its frame has one owner and the mapper refused to change its flags, or
-- has several owners.
pub resolve_cow_fault-Resolves :
    (pt : PageTables) (p : Physical) (pml4 fault_addr : ℕ)
    → IsValid p.frames
    → Resolves pt p pml4 fault_addr (resolve_cow_fault pt p pml4 fault_addr)
unfolding resolve_cow_fault
resolve_cow_fault-Resolves pt p pml4 fault_addr v =
    at_address (pt.translate_addr p.tables pml4 fault_addr) refl
  where
    at_flags :
        (phys_addr : ℕ) (o : Option ℕ)
        → pt.translate_addr p.tables pml4 fault_addr ≡ some phys_addr
        → pt.translate_flags p.tables pml4 fault_addr ≡ o
        → Resolves pt p pml4 fault_addr (resolve_flagged pt p pml4 fault_addr phys_addr o)
    at_flags phys_addr none e e' = (refl, inr (inl e'))
    at_flags phys_addr (some flags) e e' =
        resolve_mapped-Resolves pt p pml4 fault_addr v phys_addr flags e e'

    at_address :
        (o : Option ℕ)
        → pt.translate_addr p.tables pml4 fault_addr ≡ o
        → Resolves pt p pml4 fault_addr (resolve_translated pt p pml4 fault_addr o)
    at_address none e = (refl, inl e)
    at_address (some phys_addr) e =
        at_flags phys_addr (pt.translate_flags p.tables pml4 fault_addr) e refl
