-- ===== src/Frames.antt =====
-- src/mm/memory.rs, `BitmapFrameAllocator`: the allocator of 4 KiB physical frames, one bit and one
-- reference count for each frame.
--
-- `allocate_frame` and the other operations return the new allocator beside their result; a failed
-- `assert!`, a `panic!` and an overflow of the `u16` counter (which the development profile that
-- scripts/build.bat builds checks) are `panicked`. The two slices are lists: they lie in memory
-- that `init` reserves, so no frame handed out contains them.
pub mod Bitmap
pub mod Laws
pub mod Search
pub mod Counts
pub mod Contiguous
pub mod Startup
pub mod Tests
use nwin_os.Common.{
  ℕ, zero, suc, ◌+◌, ◌-◌, ◌*◌, ◌/◌, ◌%◌, ◌^◌, ◌≡◌, Bool, true, false, not, ◌&&◌, ◌||◌, Option, none,
  some, List, [], ◌∷◌, ltb, leb, ◌==◌, if◌then◌else◌, get_or, set, length, replicate,
}
use nwin_os.Common.Outcome.{Outcome, returned, panicked}
use Bitmap.{bit_at, with_bit, without_bit}

abbrev pub frame_size : ℕ
frame_size = 4096

pub record BitmapFrameAllocator : Type 0 where
  pub bitmap : List ℕ
  pub ref_counts : List ℕ
  pub total_frames : ℕ
  pub last_free_frame_hint : ℕ

pub empty : BitmapFrameAllocator
empty = record { bitmap = []; ref_counts = []; total_frames = 0; last_free_frame_hint = 0 }

unfoldable pub force_set_bit : BitmapFrameAllocator → ℕ → BitmapFrameAllocator
force_set_bit a frame =
    if leb a.total_frames frame
    then a
    else record a { bitmap = with_bit a.bitmap frame; ref_counts = set a.ref_counts frame 1 }

unfoldable pub force_free_bit : BitmapFrameAllocator → ℕ → BitmapFrameAllocator
force_free_bit a frame =
    if leb a.total_frames frame
    then a
    else record a { bitmap = without_bit a.bitmap frame; ref_counts = set a.ref_counts frame 0 }

-- Frames out of range count as busy.
unfoldable pub test_bit : BitmapFrameAllocator → ℕ → Bool
test_bit a frame = if leb a.total_frames frame then true else bit_at a.bitmap frame

-- One `for i in i..i + n` loop of `allocate_frame`.
unfoldable pub allocate_in : BitmapFrameAllocator → ℕ → ℕ → Option (ℕ × BitmapFrameAllocator)
allocate_in a zero i = none
allocate_in a (suc n) i =
    let rest = allocate_in a n (i + 1) in
    if not (test_bit a i)
    then some (i * frame_size, record (force_set_bit a i) { last_free_frame_hint = i + 1 })
    else rest

abbrev or_else {ℓ} : {A : Type ℓ} → Option A → Option A → Option A
or_else none o = o
or_else (some x) o = some x

abbrev keep_on_none :
    BitmapFrameAllocator → Option (ℕ × BitmapFrameAllocator) → Option ℕ × BitmapFrameAllocator
keep_on_none a none = (none, a)
keep_on_none a (some (phys_addr, a')) = (some phys_addr, a')

unfoldable pub allocate_frame : BitmapFrameAllocator → Option ℕ × BitmapFrameAllocator
allocate_frame a = keep_on_none a (
    or_else (allocate_in a (a.total_frames - a.last_free_frame_hint) a.last_free_frame_hint)
      (allocate_in a a.last_free_frame_hint 0))

-- The frame goes back to the pool when its counter reaches zero.
release_at_zero : BitmapFrameAllocator → ℕ → BitmapFrameAllocator
release_at_zero a frame =
    if get_or a.ref_counts frame 0 == 0
    then record a {
      bitmap = without_bit a.bitmap frame;
      last_free_frame_hint =
          if ltb frame a.last_free_frame_hint then frame else a.last_free_frame_hint;
    }
    else a

unfoldable pub deallocate_frame : BitmapFrameAllocator → ℕ → Outcome BitmapFrameAllocator
unfolding release_at_zero
deallocate_frame a phys_addr =
    let frame = phys_addr / frame_size in
    if ltb frame a.total_frames
    then (if ltb 0 (get_or a.ref_counts frame 0)
        then returned (
            release_at_zero
              (record a { ref_counts = set a.ref_counts frame (get_or a.ref_counts frame 0 - 1) })
              frame)
        else panicked)
    else panicked

pub reference_frame : BitmapFrameAllocator → ℕ → Outcome BitmapFrameAllocator
reference_frame a phys_addr =
    let frame = phys_addr / frame_size in
    let count = get_or a.ref_counts frame 0 in
    if ltb frame a.total_frames && ltb 0 count && ltb (count + 1) (2 ^ 16)
    then returned (record a { ref_counts = set a.ref_counts frame (count + 1) })
    else panicked

unfoldable pub get_ref_count : BitmapFrameAllocator → ℕ → ℕ
get_ref_count a phys_addr =
    let frame = phys_addr / frame_size in
    if leb a.total_frames frame then 1 else get_or a.ref_counts frame 0

-- The free frames in a row from `frame`, at most `n`.
pub free_run : BitmapFrameAllocator → ℕ → ℕ → ℕ
free_run a zero frame = 0
free_run a (suc n) frame =
    let rest = free_run a n (frame + 1) in if test_bit a frame then 0 else suc rest

pub set_run : BitmapFrameAllocator → ℕ → ℕ → BitmapFrameAllocator
set_run a zero frame = a
set_run a (suc n) frame = set_run (force_set_bit a frame) n (frame + 1)

-- The `while` loop of `allocate_contiguous_frames`; `none` means that the fuel ran out.
pub contiguous_from : ℕ → BitmapFrameAllocator → ℕ → ℕ → Option (Option ℕ × BitmapFrameAllocator)
contiguous_from zero a count i = none
contiguous_from (suc fuel) a count i =
    let run = free_run a count i in
    let rest = contiguous_from fuel a count (i + (run + 1)) in
    if leb i (a.total_frames - count)
    then (if run == count then some (some (i * frame_size), set_run a count i) else rest)
    else some (none, a)

-- The loop moves forward by one frame at least, so `total_frames + 2` rounds are enough.
pub allocate_contiguous_frames : BitmapFrameAllocator → ℕ → Option (Option ℕ × BitmapFrameAllocator)
allocate_contiguous_frames a count =
    if count == 0 then some (none, a) else contiguous_from (a.total_frames + 2) a count 0
