-- ===== src/Syscalls/Space/Area.antt =====
-- `sys_mmap` of src/core/syscall.rs gives a task a mapped area.
use Prim.Native.Nat.{bit_and}
use nwin_os.Common.{
  ℕ, ◌+◌, ◌-◌, ◌/◌, ◌*◌, ◌%◌, ◌^◌, ◌≤◌, ◌<◌, ◌≡◌, refl, subst, min, Bool, true, false, ◌&&◌, some,
  ◌⊎◌, inl, inr, leb, ◌==◌, if◌then◌else◌, Bool-cases, arith,
}
use nwin_os.Common.Outcome.{Outcome, returned, panicked}
use nwin_os.Task.{Task}
use nwin_os.Paging.{PageTables, Physical}
use nwin_os.UserMemory.{user_top, page_start}
use nwin_os.Syscalls.{Kernel, current, enomem, einval}
use nwin_os.Syscalls.Current.{current-put_current}
use nwin_os.Syscalls.Files.{Answer, answer, waits}
use nwin_os.Syscalls.Space.{page_end, fits, mapped_area, map_area, sys_mmap}
use nwin_os.Syscalls.Space.Heap.{Maps, AreMapped, is_mapped, KeepsPages, MapsAll, map_pages-MapsAll}

-- The task after an area of `size` bytes was taken from its cursor, or put at an address.
abbrev pub advanced : Task → (addr size : ℕ) → Task
advanced t addr size = if addr == 0 then record t { mmap_base = t.mmap_base + size } else t

abbrev pub start_of : Task → ℕ → ℕ
start_of t addr = if addr == 0 then t.mmap_base else addr

-- Every address from `start` on up to `top` lies in a page that is mapped.
abbrev pub IsMappedUpTo : PageTables → Physical → (pml4 start top : ℕ) → Type 0
IsMappedUpTo pt p pml4 start top = (q : ℕ) → start ≤ q → q < top → is_mapped pt p pml4 q ≡ true

-- Pages from the one of `virt_addr` on, as the bytes that they hold. The last of them may end before
-- the last byte of an area that does not begin with a page.
pages-IsMappedUpTo :
    (pt : PageTables) (p : Physical) (pml4 virt_addr size : ℕ)
    → size % 4096 ≡ 0
    → AreMapped pt p pml4 virt_addr (size / 4096)
    → IsMappedUpTo pt p pml4 virt_addr (page_start virt_addr + size)
pages-IsMappedUpTo pt p pml4 virt_addr size whole mapped q low high =
    subst (λ page. pt.translate_page p.tables pml4 page ≡ true) same
      (mapped ((q - page_start virt_addr) / 4096) (omega (arith, whole, low, high)))
  where
    same : page_start (virt_addr + (q - page_start virt_addr) / 4096 * 4096) ≡ page_start q
    same = omega (arith, low)

-- An area of `size` bytes for task `t`, or none.
abbrev pub GivesArea : PageTables → Kernel → Task → (addr size : ℕ) → Answer → Type 0
GivesArea pt k t addr size (waits k') = ⊥
GivesArea pt k t addr size (answer rax k') =
    KeepsPages pt t.pml4_frame k.physical k'.physical
    × (((rax ≡ enomem) × (k'.tasks ≡ k.tasks))
        ⊎ ((rax ≡ start_of t addr)
            × (current k'.tasks ≡ some (advanced t addr size))
            × (0x1000 ≤ rax)
            × (rax + size ≤ user_top)
            × IsMappedUpTo pt k'.physical t.pml4_frame rax (page_start rax + size)))

abbrev pub MapsArea : PageTables → Kernel → Task → (addr len flags : ℕ) → Outcome Answer → Type 0
MapsArea pt k t addr len flags panicked = 2 ^ 64 ≤ len + 0xFFF
MapsArea pt k t addr len flags (returned r) =
    ((bit_and flags 0x20 ≡ 0) × (r ≡ answer einval k))
    ⊎ ((len + 0xFFF < 2 ^ 64) × GivesArea pt k t addr (page_end len) r)

module _ (pt : PageTables) (law : Maps pt) (k : Kernel) (t : Task)
    (is_current : current k.tasks ≡ some t) (addr size : ℕ) (whole : size % 4096 ≡ 0) where
  mapped_area-GivesArea :
      0x1000 ≤ start_of t addr
      → start_of t addr + size ≤ user_top
      → (r : Bool × Physical) → MapsAll pt k.physical t.pml4_frame (start_of t addr) (size / 4096) r
      → GivesArea pt k t addr size (mapped_area pt k t addr (start_of t addr) size r)
  mapped_area-GivesArea low high (false, p) kept = (kept, inl (refl, refl))
  mapped_area-GivesArea low high (true, p) (mapped, kept) = (
    kept,
    inr (
      refl,
      current-put_current k.tasks t (advanced t addr size) is_current,
      low,
      high,
      pages-IsMappedUpTo pt p t.pml4_frame (start_of t addr) size whole mapped,
    ),
  )

  abbrev in_range : Bool
  in_range =
      leb 0x1000 (start_of t addr) && leb (min (start_of t addr + size) (2 ^ 64 - 1)) user_top

  map_area-GivesArea : GivesArea pt k t addr size (map_area pt k t addr (start_of t addr) size)
  map_area-GivesArea = elim (Bool-cases in_range) [
    | inl inside ↦ rw inside (
        mapped_area-GivesArea (at_least inside) (at_most inside) _
          (map_pages-MapsAll pt law k.physical t.pml4_frame (start_of t addr) (size / 4096)))
    | inr outside ↦ rw outside ((λ q present. present), inl (refl, refl))
  ]
    where
      at_least : in_range ≡ true → 0x1000 ≤ start_of t addr
      at_least h = ground (arith, h)

      at_most : in_range ≡ true → start_of t addr + size ≤ user_top
      at_most h = ground (arith, h)

-- `sys_mmap` for the current task `t`, with a mapper that maps the page it is given and takes none
-- away. It panics only where rounding the length up overflows a machine word. Without the flag for
-- anonymous memory the answer is EINVAL and nothing changes. Else no page loses its mapping, and either
-- the answer is ENOMEM and the tasks are as before, or it is the start of the area: the address asked
-- for, or the task's cursor, which then moves past the area. The area begins at 0x1000 or above, and
-- ends, with the length rounded up to whole pages, at the top of user space at most. Every byte from
-- its start on is mapped up to the start of its first page plus that length: the whole area if it
-- starts with a page. For an address that is not a multiple of 4096 this ends short of the area's end,
-- and nothing is said of the bytes after it.
pub sys_mmap-MapsArea :
    (pt : PageTables) (k : Kernel) (t : Task) (addr len flags : ℕ)
    → Maps pt
    → current k.tasks ≡ some t
    → MapsArea pt k t addr len flags (sys_mmap pt k addr len flags)
unfolding sys_mmap
sys_mmap-MapsArea pt k t addr len flags law is_current =
    elim (Bool-cases (bit_and flags 0x20 == 0)) [
      | inl not_anonymous ↦ rw not_anonymous (inl (ground (arith, not_anonymous), refl))
      | inr anonymous ↦ elim (Bool-cases (fits len)) [
        | inl short ↦
            rw (anonymous, is_current, short)
              (inr (
                ground (arith, short),
                map_area-GivesArea pt law k t is_current addr (page_end len) (omega arith),
              ))
        | inr long ↦ rw (anonymous, is_current, long) (ground (arith, long))
      ]
    ]
