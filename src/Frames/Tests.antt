-- ===== src/Frames/Tests.antt =====
-- The frame allocator on a machine with 16 frames of memory: tests, and instances of its theorems.
use nwin_os.Common.{true, ℕ, ◌≡◌, refl, subst, List, [], ◌∷◌, Option, none, some, replicate, arith}
use nwin_os.Common.Bits.{set_bit, clear_bit, has_bit}
use nwin_os.Common.Outcome.{returned}
use nwin_os.Frames.{
  BitmapFrameAllocator, empty, force_set_bit, force_free_bit, test_bit, allocate_in, allocate_frame,
  deallocate_frame, reference_frame, free_run, set_run, contiguous_from, allocate_contiguous_frames,
}
use nwin_os.Frames.Bitmap.{bit_at, with_bit, without_bit}
use nwin_os.Frames.Laws.{IsValid}
use nwin_os.Frames.Search.{Allocates, allocate_frame-Allocates}
use nwin_os.Frames.Counts.{
  Releases, References, deallocate_frame-Releases, reference_frame-References,
}
use nwin_os.Frames.Contiguous.{AllocatesRun, allocate_contiguous_frames-AllocatesRun}
use nwin_os.Frames.Startup.{
  Entry, usable, init, set_up, max_addr_from, overflows, metadata_region, free_range, free_entry,
  free_usable,
}
use nwin_os.Frames.Startup.Exact.{init-free_frames}

abbrev memory_map : List Entry
memory_map = record { base = 0; size = 65536; kind = usable } ∷ []

abbrev pub fresh : BitmapFrameAllocator
fresh = record {
  bitmap = 1 ∷ 0 ∷ [];
  ref_counts = 1 ∷ replicate 15 0;
  total_frames = 16;
  last_free_frame_hint = 0;
}

init-fresh : init empty memory_map ≡ returned fresh
unfolding init set_up max_addr_from overflows metadata_region free_range free_entry free_usable
    force_free_bit force_set_bit set_run with_bit without_bit set_bit clear_bit empty
init-fresh = refl

pub fresh-IsValid : IsValid fresh
fresh-IsValid = (init-free_frames memory_map fresh ((λ u. refl), tt) init-fresh).3

-- Frame 0 is never free.
pub fresh_first : test_bit fresh 0 ≡ true
unfolding test_bit bit_at has_bit
fresh_first = refl

abbrev one_taken : BitmapFrameAllocator
one_taken = record {
  bitmap = 3 ∷ 0 ∷ [];
  ref_counts = 1 ∷ 1 ∷ replicate 14 0;
  total_frames = 16;
  last_free_frame_hint = 2;
}

allocate-fresh : allocate_frame fresh ≡ (some 4096, one_taken)
unfolding allocate_frame allocate_in test_bit bit_at has_bit force_set_bit with_bit set_bit
allocate-fresh = refl

abbrev pub shared : BitmapFrameAllocator
shared = record one_taken { ref_counts = 1 ∷ 2 ∷ replicate 14 0 }

abbrev pub two_taken : BitmapFrameAllocator
two_taken = record {
  bitmap = 7 ∷ 0 ∷ [];
  ref_counts = 1 ∷ 2 ∷ 1 ∷ replicate 13 0;
  total_frames = 16;
  last_free_frame_hint = 3;
}

reference-one_taken : reference_frame one_taken 4096 ≡ returned shared
unfolding reference_frame
reference-one_taken = refl

pub allocate-shared : allocate_frame shared ≡ (some 8192, two_taken)
unfolding allocate_frame allocate_in test_bit bit_at has_bit force_set_bit with_bit set_bit
allocate-shared = refl

init-free_frames_example : IsValid fresh
init-free_frames_example = (init-free_frames memory_map fresh ((λ u. refl), tt) init-fresh).3

allocate_frame-Allocates_example : Allocates fresh (allocate_frame fresh)
allocate_frame-Allocates_example = allocate_frame-Allocates fresh fresh-IsValid

one_taken-IsValid : IsValid one_taken
one_taken-IsValid =
    (subst (Allocates fresh) allocate-fresh (allocate_frame-Allocates fresh fresh-IsValid)).2.valid

pub shared-IsValid : IsValid shared
shared-IsValid =
    (subst (References one_taken 1) reference-one_taken
      (reference_frame-References one_taken 4096 one_taken-IsValid)).2.valid

pub two_taken-IsValid : IsValid two_taken
two_taken-IsValid =
    (subst (Allocates shared) allocate-shared
      (allocate_frame-Allocates shared shared-IsValid)).2.valid

deallocate_frame-Releases_example : Releases one_taken 1 (deallocate_frame one_taken 4099)
deallocate_frame-Releases_example = deallocate_frame-Releases one_taken 4099 one_taken-IsValid

allocate_contiguous_frames-AllocatesRun_example :
    AllocatesRun one_taken 3 (allocate_contiguous_frames one_taken 3)
allocate_contiguous_frames-AllocatesRun_example =
    allocate_contiguous_frames-AllocatesRun one_taken 3 one_taken-IsValid (omega arith)

contiguous_run : Option ℕ
unfolding allocate_contiguous_frames contiguous_from free_run set_run test_bit bit_at has_bit
    force_set_bit with_bit set_bit
contiguous_run = elim (allocate_contiguous_frames one_taken 3) [ none ↦ none | some (p, a) ↦ p ]

contiguous_run_lem : contiguous_run ≡ some 8192
unfolding contiguous_run
contiguous_run_lem = refl
