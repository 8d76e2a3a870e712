-- ===== src/Syscalls/Space/Heap.antt =====
-- `sys_brk` and `sys_mmap` of src/core/syscall.rs give a task mapped pages within bounds.
use nwin_os.Common.{
  ℕ, zero, suc, ◌+◌, ◌-◌, ◌*◌, ◌/◌, ◌^◌, ◌≤◌, ◌<◌, ◌≡◌, refl, ap, subst, Bool, true, false, Option,
  none, some, ◌⊎◌, inl, inr, ltb, leb, ◌==◌, Bool-cases, arith, ◌||◌,
}
use nwin_os.Common.Outcome.{Outcome, returned, panicked, Result, ok, err}
use nwin_os.Error.{KernelError}
use nwin_os.Frames.{BitmapFrameAllocator, allocate_frame}
use nwin_os.Task.{Task, Memory}
use nwin_os.Paging.{PageTables, Physical, allocate_and_map_user_page, map_new, finish_map}
use nwin_os.UserMemory.{page_start}
use nwin_os.Syscalls.{Kernel, current}
use nwin_os.Syscalls.Current.{current-put_current}
use nwin_os.Syscalls.Files.{Answer, answer, waits}
use nwin_os.Syscalls.Space.{
  page_end, fits, then_map, map_pages, grown, heap_limit, move_break, brk_task, sys_brk,
}

-- What the mapper documents: it maps the page that it is given, and takes no page away.
pub record Maps (pt : PageTables) : Type 0 where
  pub mapped :
      (m : Memory) (a : BitmapFrameAllocator) (pml4 page frame flags : ℕ)
      → (pt.map_to m a pml4 page frame flags).0 ≡ true
      → pt.translate_page (pt.map_to m a pml4 page frame flags).1 pml4 page ≡ true
  pub kept :
      (m : Memory) (a : BitmapFrameAllocator) (pml4 page frame flags q : ℕ)
      → pt.translate_page m pml4 q ≡ true
      → pt.translate_page (pt.map_to m a pml4 page frame flags).1 pml4 q ≡ true

abbrev pub is_mapped : PageTables → Physical → ℕ → ℕ → Bool
is_mapped pt p pml4 addr = pt.translate_page p.tables pml4 (page_start addr)

-- `pages` pages are mapped, beginning with the one of an address.
abbrev pub AreMapped : PageTables → Physical → (pml4 virt_addr pages : ℕ) → Type 0
AreMapped pt p pml4 virt_addr pages =
    (i : ℕ) → i < pages → is_mapped pt p pml4 (virt_addr + i * 4096) ≡ true

abbrev pub KeepsPages : PageTables → ℕ → Physical → Physical → Type 0
KeepsPages pt pml4 p p' =
    (q : ℕ) → pt.translate_page p.tables pml4 q ≡ true → pt.translate_page p'.tables pml4 q ≡ true

abbrev MapsOne : PageTables → Physical → ℕ → ℕ → Result Bool KernelError × Physical → Type 0
MapsOne pt p pml4 page (ok b, p') =
    (pt.translate_page p'.tables pml4 page ≡ true) × KeepsPages pt pml4 p p'
MapsOne pt p pml4 page (err e, p') = KeepsPages pt pml4 p p'

abbrev pub MapsAll : PageTables → Physical → (pml4 virt_addr pages : ℕ) → Bool × Physical → Type 0
MapsAll pt p pml4 virt_addr pages (true, p') =
    AreMapped pt p' pml4 virt_addr pages × KeepsPages pt pml4 p p'
MapsAll pt p pml4 virt_addr pages (false, p') = KeepsPages pt pml4 p p'

module _ (pt : PageTables) (law : Maps pt) where
  finish_map-MapsOne :
      (p : Physical) (a : BitmapFrameAllocator) (pml4 page frame : ℕ)
      (r : Bool × Memory × BitmapFrameAllocator)
      → pt.map_to p.tables a pml4 page frame 7 ≡ r
      → MapsOne pt p pml4 page (finish_map pt p frame r)
  finish_map-MapsOne p a pml4 page frame (false, tables, frames) e = λ q present.
      subst (λ r. pt.translate_page r.1 pml4 q ≡ true) e
        (law.kept p.tables a pml4 page frame 7 q present)
  finish_map-MapsOne p a pml4 page frame (true, tables, frames) e = (
    subst (λ r. pt.translate_page r.1 pml4 page ≡ true) e
        (law.mapped p.tables a pml4 page frame 7 (ap (λ r. r.0) e)),
    λ q present.
        subst (λ r. pt.translate_page r.1 pml4 q ≡ true) e
          (law.kept p.tables a pml4 page frame 7 q present),
  )

  map_new-MapsOne :
      (p : Physical) (pml4 page : ℕ) (r : Option ℕ × BitmapFrameAllocator)
      → MapsOne pt p pml4 page (map_new pt p pml4 page r)
  map_new-MapsOne p pml4 page (none, frames) = λ q present. present
  map_new-MapsOne p pml4 page (some frame, frames) =
      finish_map-MapsOne p frames pml4 page frame _ refl

  allocate-MapsOne :
      (p : Physical) (pml4 addr : ℕ)
      → MapsOne pt p pml4 (page_start addr) (allocate_and_map_user_page pt p pml4 addr)
  unfolding allocate_and_map_user_page
  allocate-MapsOne p pml4 addr =
      elim (Bool-cases (pt.translate_page p.tables pml4 (page_start addr))) [
        | inl there ↦ rw there (there, λ q present. present)
        | inr absent ↦
            rw absent (map_new-MapsOne p pml4 (page_start addr) (allocate_frame p.frames))
      ]

  -- The first page stays mapped while the others are.
  and_first :
      (p p' : Physical) (pml4 virt_addr pages : ℕ) (r : Bool × Physical)
      → pt.translate_page p'.tables pml4 (page_start virt_addr) ≡ true
      → KeepsPages pt pml4 p p'
      → MapsAll pt p' pml4 (virt_addr + 4096) pages r
      → MapsAll pt p pml4 virt_addr (suc pages) r
  and_first p p' pml4 virt_addr pages (false, p'') first kept rest =
      λ q present. rest q (kept q present)
  and_first p p' pml4 virt_addr pages (true, p'') first kept (others, rest) =
      (at, λ q present. rest q (kept q present))
    where
      at : AreMapped pt p'' pml4 virt_addr (suc pages)
      at zero below =
          subst (λ a. is_mapped pt p'' pml4 a ≡ true) (omega arith)
            (rest (page_start virt_addr) first)
      at (suc i) below =
          subst (λ a. is_mapped pt p'' pml4 a ≡ true) (omega arith)
            (others i (omega (arith, below)))

  then_map-MapsAll :
      (p : Physical) (pml4 virt_addr pages : ℕ) (go_on : Physical → Bool × Physical)
      → ((p' : Physical) → MapsAll pt p' pml4 (virt_addr + 4096) pages (go_on p'))
      → (r : Result Bool KernelError × Physical) → MapsOne pt p pml4 (page_start virt_addr) r
      → MapsAll pt p pml4 virt_addr (suc pages) (then_map pt go_on r)
  then_map-MapsAll p pml4 virt_addr pages go_on rest (ok b, p') (first, kept) =
      and_first p p' pml4 virt_addr pages (go_on p') first kept (rest p')
  then_map-MapsAll p pml4 virt_addr pages go_on rest (err e, p') kept = kept

  pub map_pages-MapsAll :
      (p : Physical) (pml4 virt_addr pages : ℕ)
      → MapsAll pt p pml4 virt_addr pages (map_pages pt p pml4 virt_addr pages)
  unfolding map_pages
  map_pages-MapsAll p pml4 virt_addr zero =
      (λ i below. absurd (omega (arith, below)), λ q present. present)
  map_pages-MapsAll p pml4 virt_addr (suc pages) =
      then_map-MapsAll p pml4 virt_addr pages (λ p'. map_pages pt p' pml4 (virt_addr + 4096) pages)
        (λ p'. map_pages-MapsAll p' pml4 (virt_addr + 4096) pages) _
        (allocate-MapsOne p pml4 virt_addr)

-- What `sys_brk` does for a task `t`.
abbrev pub Breaks : PageTables → Kernel → Task → ℕ → Outcome Answer → Type 0
Breaks pt k t requested_brk panicked = 2 ^ 64 ≤ t.program_break + 0xFFF
Breaks pt k t requested_brk (returned (waits k')) = ⊥
Breaks pt k t requested_brk (returned (answer rax k')) =
    (t' : Task) × (current k'.tasks ≡ some t')
    × (rax ≡ t'.program_break)
    × KeepsPages pt t.pml4_frame k.physical k'.physical
    × ((t' ≡ t)
        ⊎ ((t' ≡ record t { program_break = requested_brk })
            × (t.heap_start ≤ requested_brk)
            × (requested_brk < heap_limit)
            × AreMapped pt k'.physical t.pml4_frame (page_end t.program_break)
                ((page_end requested_brk - page_end t.program_break) / 4096)))

module _ (pt : PageTables) (k : Kernel) (t : Task) (is_current : current k.tasks ≡ some t)
    (requested_brk : ℕ) where
  stays : Breaks pt k t requested_brk (returned (answer t.program_break k))
  stays = (t, is_current, refl, (λ q present. present), inl refl)

  abbrev moved : Task
  moved = record t { program_break = requested_brk }

  module _ (low : t.heap_start ≤ requested_brk) (high : requested_brk < heap_limit) where
    grown-Breaks :
        (r : Bool × Physical)
        → MapsAll pt k.physical t.pml4_frame
            (page_end t.program_break)
            ((page_end requested_brk - page_end t.program_break) / 4096)
            r
        → Breaks pt k t requested_brk (returned (grown pt k t requested_brk r))
    grown-Breaks (false, p) kept = (t, is_current, refl, kept, inl refl)
    grown-Breaks (true, p) (mapped, kept) = (
      moved,
      current-put_current k.tasks t moved is_current,
      refl,
      kept,
      inr (refl, low, high, mapped),
    )

    move_break-Breaks : Maps pt → Breaks pt k t requested_brk (move_break pt k t requested_brk)
    move_break-Breaks law = elim (Bool-cases (fits t.program_break)) [
      | inr overflow ↦ rw overflow (ground (arith, overflow))
      | inl ok_sum ↦ elim (Bool-cases (ltb (page_end t.program_break) (page_end requested_brk))) [
        | inl more ↦
            rw (ok_sum, more)
              (grown-Breaks _ (map_pages-MapsAll pt law k.physical t.pml4_frame _ _))
        | inr less ↦
            rw (ok_sum, less)
              (
                moved,
                current-put_current k.tasks t moved is_current,
                refl,
                (λ q present. present),
                inr (refl, low, high, λ i below. absurd (ground (arith, below, less))),
              )
      ]
    ]

-- `sys_brk` for the current task `t`, with a mapper that maps the page it is given and takes none away.
-- It panics only where rounding the old break up overflows a machine word. Else `rax` is the task's
-- break after the call, no page loses its mapping, and either the task is as before, or its break,
-- and nothing else of it, is now the requested one, which lies from the start of the heap to below
-- the limit, and every page from the end of the old heap to the end of the new one is mapped.
pub sys_brk-Breaks :
    (pt : PageTables) (k : Kernel) (t : Task) (requested_brk : ℕ)
    → Maps pt
    → current k.tasks ≡ some t
    → Breaks pt k t requested_brk (sys_brk pt k requested_brk)
unfolding sys_brk
sys_brk-Breaks pt k t requested_brk law is_current =
    rw is_current (by_request (Bool-cases (requested_brk == 0)))
  where
    in_bounds :
        (requested_brk == 0) ≡ false
        → ((ltb requested_brk t.heap_start || leb heap_limit requested_brk) ≡ true)
          ⊎ ((ltb requested_brk t.heap_start || leb heap_limit requested_brk) ≡ false)
        → Breaks pt k t requested_brk (brk_task pt k requested_brk (some t))
    in_bounds asked (inl out) = rw (asked, out) (stays pt k t is_current requested_brk)
    in_bounds asked (inr inside) =
        rw (asked, inside)
          (move_break-Breaks pt k t is_current requested_brk (ground (arith, inside))
            (ground (arith, inside)) law)

    by_request :
        ((requested_brk == 0) ≡ true) ⊎ ((requested_brk == 0) ≡ false)
        → Breaks pt k t requested_brk (brk_task pt k requested_brk (some t))
    by_request (inl zero_asked) = rw zero_asked (stays pt k t is_current requested_brk)
    by_request (inr asked) =
        in_bounds asked
          (Bool-cases (ltb requested_brk t.heap_start || leb heap_limit requested_brk))
