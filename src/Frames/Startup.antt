-- ===== src/Frames/Startup.antt =====
-- `BitmapFrameAllocator::init` of src/mm/memory.rs, over the memory map that the bootloader hands
-- over. An entry's kind is one of the kinds that the code tells apart. The two `expect` calls and
-- an address sum past 2^64 (which the development profile checks) are panics. The higher-half
-- offset, which only places the two slices, is left out.
pub mod Laws
pub mod Exact
use nwin_os.Common.{
  ℕ, zero, suc, ◌+◌, ◌-◌, ◌*◌, ◌/◌, ◌%◌, ◌^◌, Bool, true, false, not, ◌&&◌, ◌||◌, Option, none,
  some, List, [], ◌∷◌, ltb, leb, if◌then◌else◌, replicate,
}
use nwin_os.Common.Outcome.{Outcome, returned, panicked}
use nwin_os.Frames.{BitmapFrameAllocator, frame_size, force_set_bit, force_free_bit, set_run}

-- `limine::memmap::MEMMAP_…`
pub data EntryKind : Type 0 where
  usable bootloader_reclaimable executable_and_modules framebuffer other_kind : EntryKind

pub record Entry : Type 0 where
  pub base : ℕ
  pub size : ℕ
  pub kind : EntryKind

abbrev pub is_usable : EntryKind → Bool
is_usable usable = true
is_usable _ = false

abbrev pub is_reachable : EntryKind → Bool
is_reachable other_kind = false
is_reachable _ = true

-- the loop that computes `max_addr`
unfoldable pub max_addr_from : ℕ → List Entry → ℕ
max_addr_from max_addr [] = max_addr
max_addr_from max_addr (e ∷ es) =
    max_addr_from
      (if is_reachable e.kind && ltb max_addr (e.base + e.size) then e.base + e.size else max_addr)
      es

-- A sum of the two loops over the map would not fit a u64.
unfoldable pub overflows : List Entry → Bool
overflows [] = false
overflows (e ∷ es) =
    (is_reachable e.kind && leb (2 ^ 64) (e.base + e.size))
    || (is_usable e.kind && leb (2 ^ 64) (e.base + frame_size))
    || overflows es

-- The first usable region that holds the metadata.
unfoldable pub metadata_region : ℕ → List Entry → Option ℕ
metadata_region needed [] = none
metadata_region needed (e ∷ es) =
    if is_usable e.kind && leb needed e.size then some e.base else metadata_region needed es

abbrev pub total_frames_of : List Entry → ℕ
total_frames_of es = (max_addr_from 0 es + frame_size - 1) / frame_size

abbrev pub raw_bitmap_size : ℕ → ℕ
raw_bitmap_size total_frames = (total_frames + 7) / 8

abbrev pub metadata_total_size : ℕ → ℕ
metadata_total_size total_frames = (raw_bitmap_size total_frames + 7) / 8 * 8 + total_frames * 2

abbrev pub start_frame : ℕ → ℕ
start_frame base = (base + frame_size - 1) / frame_size

unfoldable pub free_range : BitmapFrameAllocator → ℕ → ℕ → BitmapFrameAllocator
free_range a zero i = a
free_range a (suc n) i = free_range (force_free_bit a i) n (i + 1)

-- The frames of one entry of the map.
unfoldable pub free_entry : BitmapFrameAllocator → Entry → BitmapFrameAllocator
free_entry a e =
    if is_usable e.kind
    then free_range a ((e.base + e.size) / frame_size - start_frame e.base) (start_frame e.base)
    else a

unfoldable pub free_usable : BitmapFrameAllocator → List Entry → BitmapFrameAllocator
free_usable a [] = a
free_usable a (e ∷ es) = free_usable (free_entry a e) es

-- Every frame busy, with one owner.
abbrev pub all_reserved : BitmapFrameAllocator → ℕ → BitmapFrameAllocator
all_reserved self total_frames = record self {
  bitmap = replicate (raw_bitmap_size total_frames) 255;
  ref_counts = replicate total_frames 1;
  total_frames = total_frames;
}

abbrev pub metadata_frames : ℕ → ℕ
metadata_frames total_frames = (metadata_total_size total_frames + frame_size - 1) / frame_size

unfoldable pub set_up : BitmapFrameAllocator → List Entry → ℕ → BitmapFrameAllocator
set_up self es metadata_phys_addr =
    let total_frames = total_frames_of es in
    let a = free_usable (all_reserved self total_frames) es in
    let a' = set_run a (metadata_frames total_frames) (metadata_phys_addr / frame_size) in
    force_set_bit a' 0

unfoldable pub init : BitmapFrameAllocator → List Entry → Outcome BitmapFrameAllocator
unfolding set_up
init self es =
    if overflows es || leb (2 ^ 64) (max_addr_from 0 es + frame_size)
    then panicked
    else (elim (metadata_region (metadata_total_size (total_frames_of es)) es) [
      | none ↦ panicked
      | some metadata_phys_addr ↦ returned (set_up self es metadata_phys_addr)
    ])
