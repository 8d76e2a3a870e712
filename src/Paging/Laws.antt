-- ===== src/Paging/Laws.antt =====
-- What `allocate_frame` means for the bytes of memory, and `allocate_and_map_user_page` of
-- src/mm/memory.rs.
use nwin_os.Common.{
  ℕ, ◌+◌, ◌-◌, ◌*◌, ◌/◌, ◌≤◌, ◌<◌, ◌≡◌, ◌≢◌, refl, sym, ap, subst, Bool, true, false, ◌&&◌, Option,
  none, some, ◌⊎◌, inl, inr, leb, ltb, Bool-cases, arith,
}
use nwin_os.Common.Outcome.{Result, ok, err}
use nwin_os.Error.{KernelError, memory, out_of_frames, invalid_mapping}
use nwin_os.Frames.{BitmapFrameAllocator, allocate_frame, test_bit}
use nwin_os.Frames.Laws.{IsValid}
use nwin_os.Frames.Search.{Allocates, allocate_frame-Allocates}
use nwin_os.UserMemory.{page_start}
use nwin_os.Paging.{
  PageTables, Physical, Bytes, clear_bytes, copy_bytes, allocate_and_map_user_page, map_new,
  finish_map,
}
use nwin_os.Task.{Memory}

-- The bytes of frames in use are the same.
abbrev pub KeepsUsed : Physical → Physical → Type 0
KeepsUsed p p' = (q : ℕ) → test_bit p.frames (q / 4096) ≡ true → p'.bytes q ≡ p.bytes q

not_both : {b : Bool} → b ≡ true → b ≢ false
not_both h k = ground (arith, h, k)

-- The frame that is handed out is a whole one that was free.
pub free_frame :
    (a a' : BitmapFrameAllocator) (phys_addr : ℕ)
    → IsValid a
    → allocate_frame a ≡ (some phys_addr, a')
    → (f : ℕ) × (phys_addr ≡ f * 4096) × (test_bit a f ≡ false)
free_frame a a' phys_addr v e =
    let (f, at, takes, first) = subst (λ r. Allocates a r) e (allocate_frame-Allocates a v) in
    (f, at, takes.was_free)

pub out_of_frame : (q f : ℕ) → q / 4096 ≢ f → (leb (f * 4096) q && ltb q (f * 4096 + 4096)) ≡ false
out_of_frame q f ne = ground (arith, ne)

-- An address in a frame in use is outside of the frame that is handed out.
pub outside_new :
    (a a' : BitmapFrameAllocator) (phys_addr q : ℕ)
    → IsValid a
    → allocate_frame a ≡ (some phys_addr, a')
    → test_bit a (q / 4096) ≡ true
    → (leb phys_addr q && ltb q (phys_addr + 4096)) ≡ false
outside_new a a' phys_addr q v e used =
    let (f, at, free) = free_frame a a' phys_addr v e in
    rw at
      (out_of_frame q f (λ same. not_both used (subst (λ g. test_bit a g ≡ false) (sym same) free)))

pub clear_bytes-KeepsUsed :
    (p : Physical) (a' : BitmapFrameAllocator) (frame : ℕ)
    → IsValid p.frames
    → allocate_frame p.frames ≡ (some frame, a')
    → (q : ℕ) → test_bit p.frames (q / 4096) ≡ true
    → clear_bytes p.bytes frame q ≡ p.bytes q
clear_bytes-KeepsUsed p a' frame v e q used = rw (outside_new p.frames a' frame q v e used) refl

pub copy_bytes-KeepsUsed :
    (pt : PageTables) (p : Physical) (a' : BitmapFrameAllocator) (from frame : ℕ)
    → IsValid p.frames
    → allocate_frame p.frames ≡ (some frame, a')
    → (q : ℕ) → test_bit p.frames (q / 4096) ≡ true
    → copy_bytes pt p.bytes from frame q ≡ p.bytes q
copy_bytes-KeepsUsed pt p a' from frame v e q used =
    rw (outside_new p.frames a' frame q v e used) refl

pub byte-clear_bytes : (b : Bytes) (frame o : ℕ) → o < 4096 → clear_bytes b frame (frame + o) ≡ 0
byte-clear_bytes b frame o h = ground (arith, h)

pub byte-copy_bytes :
    (pt : PageTables) (b : Bytes) (from to o : ℕ)
    → (from + 4096 ≤ to) ⊎ (to + 4096 ≤ from)
    → o < 4096
    → copy_bytes pt b from to (to + o) ≡ b (from + o)
byte-copy_bytes pt b from to o apart h = rw (inside, disjoint, gone) refl
  where
    inside : (leb to (to + o) && ltb (to + o) (to + 4096)) ≡ true
    inside = ground (arith, h)

    disjoint : (ltb from (to + 4096) && ltb to (from + 4096)) ≡ false
    disjoint = ground (arith, apart)

    gone : to + o - to ≡ o
    gone = omega arith

-- What a call on one page answers and does.
abbrev pub Maps : PageTables → Physical → ℕ → ℕ → Result Bool KernelError × Physical → Type 0
Maps pt p pml4 page (ok false, p') = (pt.translate_page p.tables pml4 page ≡ true) × (p' ≡ p)
Maps pt p pml4 page (ok true, p') =
    (pt.translate_page p.tables pml4 page ≡ false)
    × (frame : ℕ) × (taken : BitmapFrameAllocator) × (allocate_frame p.frames ≡ (some frame, taken))
    × (pt.map_to p.tables taken pml4 page frame 7 ≡ (true, p'.tables, p'.frames))
    × ((o : ℕ) → o < 4096 → p'.bytes (frame + o) ≡ 0)
    × KeepsUsed p p'
Maps pt p pml4 page (err e, p') =
    (pt.translate_page p.tables pml4 page ≡ false)
    × (p'.bytes ≡ p.bytes)
    × (((e ≡ memory out_of_frames) × (p' ≡ p) × ((g : ℕ) → test_bit p.frames g ≡ true))
        ⊎ ((e ≡ memory invalid_mapping)
            × (frame : ℕ) × (taken : BitmapFrameAllocator) × (allocate_frame p.frames
                ≡ (some frame, taken))
            × (pt.map_to p.tables taken pml4 page frame 7 ≡ (false, p'.tables, p'.frames))))

module _ (pt : PageTables) (p : Physical) (v : IsValid p.frames) (pml4 page : ℕ)
    (unmapped : pt.translate_page p.tables pml4 page ≡ false) where
  finish_map-Maps :
      (frame : ℕ) (taken : BitmapFrameAllocator)
      → allocate_frame p.frames ≡ (some frame, taken)
      → (r : Bool × Memory × BitmapFrameAllocator) → pt.map_to p.tables taken pml4 page frame 7 ≡ r
      → Maps pt p pml4 page (finish_map pt p frame r)
  finish_map-Maps frame taken e (false, tables, frames) m =
      (unmapped, refl, inr (refl, frame, taken, e, m))
  finish_map-Maps frame taken e (true, tables, frames) m = (
    unmapped,
    frame,
    taken,
    e,
    m,
    byte-clear_bytes p.bytes frame,
    clear_bytes-KeepsUsed p taken frame v e,
  )

  map_new-Maps :
      (r : Option ℕ × BitmapFrameAllocator)
      → allocate_frame p.frames ≡ r
      → Maps pt p pml4 page (map_new pt p pml4 page r)
  map_new-Maps (none, frames) e =
      let (same, busy) =
        subst (λ r. Allocates p.frames r) e (allocate_frame-Allocates p.frames v) in
      (unmapped, refl, inl (refl, ap (λ a. record p { frames = a }) same, busy))
  map_new-Maps (some frame, taken) e = finish_map-Maps frame taken e _ refl

-- `allocate_and_map_user_page` on a valid allocator, for any mapper. Where the page is mapped already it
-- succeeds and changes nothing: the page keeps its frame, its bytes and its flags, though the comment
-- of the function promises a fresh zeroed page, and an invalid mapping where an entry is occupied.
-- Where every frame is busy the error is out of frames and nothing changes. Else a free frame is given
-- to the mapper with the flags present, writable and user. If the mapper takes it, the frame reads as
-- zeros and no byte of a frame in use changes. If not, the error is an invalid mapping whatever the
-- mapper's reason, the lack of a frame for a new table included; no byte changes, but the frame stays
-- allocated.
pub allocate_and_map_user_page-Maps :
    (pt : PageTables) (p : Physical) (pml4 addr : ℕ)
    → IsValid p.frames
    → Maps pt p pml4 (page_start addr) (allocate_and_map_user_page pt p pml4 addr)
unfolding allocate_and_map_user_page
allocate_and_map_user_page-Maps pt p pml4 addr v =
    elim (Bool-cases (pt.translate_page p.tables pml4 (page_start addr))) [
      | inl mapped ↦ rw mapped (mapped, refl)
      | inr unmapped ↦ rw unmapped (map_new-Maps pt p v pml4 (page_start addr) unmapped _ refl)
    ]
