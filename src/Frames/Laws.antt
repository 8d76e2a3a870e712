-- ===== src/Frames/Laws.antt =====
-- The invariant of the frame allocator: a frame is marked busy exactly when it has an owner, and
-- every index that the code computes lies inside its slice.
use nwin_os.Common.{
  ℕ, ◌+◌, ◌/◌, ◌^◌, ◌≤◌, ◌<◌, ◌≡◌, ◌∙◌, not, ◌&&◌, ◌||◌, List, ltb, leb, ◌==◌, if◌then◌else◌,
  get_or, set, length, length-set, get_or-set_self, get_or-set_ne, arith, ℕ_discrete, Bool-cases,
  inl, inr, dec_lt,
}
use nwin_os.Frames.Bitmap.{
  AreBytes, bit_at, with_bit, without_bit, length-with_bit, length-without_bit, with_bit-AreBytes,
  without_bit-AreBytes, bit_at-with_bit, bit_at-without_bit,
}
use nwin_os.Frames.{BitmapFrameAllocator, force_set_bit, force_free_bit, test_bit}

pub record IsValid (a : BitmapFrameAllocator) : Type 0 where
  pub bitmap_size : length a.bitmap ≡ (a.total_frames + 7) / 8
  pub bytes : AreBytes a.bitmap
  pub counts_size : length a.ref_counts ≡ a.total_frames
  pub hint_in : a.last_free_frame_hint ≤ a.total_frames
  pub agree : (f : ℕ) → f < a.total_frames → bit_at a.bitmap f ≡ ltb 0 (get_or a.ref_counts f 0)
  pub small : (f : ℕ) → get_or a.ref_counts f 0 < 2 ^ 16

pub get_or-set_if :
    (xs : List ℕ) (i j v : ℕ)
    → i < length xs
    → get_or (set xs i v) j 0 ≡ (if i == j then v else get_or xs j 0)
get_or-set_if xs i j v h = elim (ℕ_discrete i j) [
  | yes e ↦ ground (arith, get_or-set_self xs i v 0 h, e)
  | no ne ↦ ground (arith, get_or-set_ne xs i j v 0 ne)
]

module _ (a : BitmapFrameAllocator) (v : IsValid a) (f : ℕ) (inside : f < a.total_frames) where
  byte_inside : f / 8 < length a.bitmap
  byte_inside = omega (arith, v.bitmap_size)

  count_inside : f < length a.ref_counts
  count_inside = omega (arith, v.counts_size)

  -- A frame with an owner more or less, its bit as the counter says.
  marked-IsValid :
      (count hint : ℕ)
      → 0 < count
      → count < 2 ^ 16
      → hint ≤ a.total_frames
      → IsValid (record a {
        bitmap = with_bit a.bitmap f;
        ref_counts = set a.ref_counts f count;
        last_free_frame_hint = hint;
      })
  marked-IsValid count hint pos lt h = record {
    bitmap_size = length-with_bit a.bitmap f ∙ v.bitmap_size;
    bytes = with_bit-AreBytes a.bitmap v.bytes f byte_inside;
    counts_size = length-set a.ref_counts f count ∙ v.counts_size;
    hint_in = h;
    agree = λ g hg. ground (
      arith,
      bit_at-with_bit a.bitmap v.bytes f byte_inside g,
      get_or-set_if a.ref_counts f g count count_inside,
      v.agree g hg,
    );
    small = λ g. ground (arith, get_or-set_if a.ref_counts f g count count_inside, v.small g);
  }

  pub freed-IsValid :
      (hint : ℕ)
      → hint ≤ a.total_frames
      → IsValid (record a {
        bitmap = without_bit a.bitmap f;
        ref_counts = set a.ref_counts f 0;
        last_free_frame_hint = hint;
      })
  freed-IsValid hint h = record {
    bitmap_size = length-without_bit a.bitmap f ∙ v.bitmap_size;
    bytes = without_bit-AreBytes a.bitmap v.bytes f byte_inside;
    counts_size = length-set a.ref_counts f 0 ∙ v.counts_size;
    hint_in = h;
    agree = λ g hg. ground (
      arith,
      bit_at-without_bit a.bitmap v.bytes f byte_inside g,
      get_or-set_if a.ref_counts f g 0 count_inside,
      v.agree g hg,
    );
    small = λ g. ground (arith, get_or-set_if a.ref_counts f g 0 count_inside, v.small g);
  }

  -- A counter changes from one positive value to another, and the bit stays.
  pub recounted-IsValid :
      (count : ℕ)
      → 0 < get_or a.ref_counts f 0
      → 0 < count
      → count < 2 ^ 16
      → IsValid (record a { ref_counts = set a.ref_counts f count })
  recounted-IsValid count busy pos lt = record {
    bitmap_size = v.bitmap_size;
    bytes = v.bytes;
    counts_size = length-set a.ref_counts f count ∙ v.counts_size;
    hint_in = v.hint_in;
    agree = λ g hg. ground (arith, get_or-set_if a.ref_counts f g count count_inside, v.agree g hg);
    small = λ g. ground (arith, get_or-set_if a.ref_counts f g count count_inside, v.small g);
  }

  force_set_bit_inside :
      force_set_bit a f
      ≡ record a { bitmap = with_bit a.bitmap f; ref_counts = set a.ref_counts f 1 }
  unfolding force_set_bit
  force_set_bit_inside = ground arith

  pub force_set_bit_hint-IsValid :
      (hint : ℕ)
      → hint ≤ a.total_frames
      → IsValid (record (force_set_bit a f) { last_free_frame_hint = hint })
  force_set_bit_hint-IsValid hint h =
      rw force_set_bit_inside (marked-IsValid 1 hint (omega arith) (omega arith) h)

  pub test_bit-force_set_bit_inside :
      (g : ℕ) → test_bit (force_set_bit a f) g ≡ (f == g || test_bit a g)
  unfolding test_bit
  test_bit-force_set_bit_inside g =
      rw force_set_bit_inside (ground (arith, bit_at-with_bit a.bitmap v.bytes f byte_inside g))

  pub count-force_set_bit :
      (g : ℕ)
      → get_or (force_set_bit a f).ref_counts g 0 ≡ (if f == g then 1 else get_or a.ref_counts g 0)
  count-force_set_bit g = rw force_set_bit_inside (get_or-set_if a.ref_counts f g 1 count_inside)

pub total-force_set_bit :
    (a : BitmapFrameAllocator) (f : ℕ) → (force_set_bit a f).total_frames ≡ a.total_frames
unfolding force_set_bit
total-force_set_bit a f = ground arith

pub hint-force_set_bit :
    (a : BitmapFrameAllocator) (f : ℕ)
    → (force_set_bit a f).last_free_frame_hint ≡ a.last_free_frame_hint
unfolding force_set_bit
hint-force_set_bit a f = ground arith

-- Marking a frame busy, also one out of range, keeps the invariant.
pub force_set_bit-IsValid :
    (a : BitmapFrameAllocator) (f : ℕ) → IsValid a → IsValid (force_set_bit a f)
unfolding force_set_bit
force_set_bit-IsValid a f v = elim (Bool-cases (leb a.total_frames f)) [
  | inl out ↦ rw out v
  | inr inside ↦ rw inside (
      marked-IsValid a v f (ground arith) 1 a.last_free_frame_hint (omega arith) (omega arith)
        v.hint_in)
]

-- Marking a frame free keeps the invariant.
pub force_free_bit-IsValid :
    (a : BitmapFrameAllocator) (f : ℕ) → IsValid a → IsValid (force_free_bit a f)
unfolding force_free_bit
force_free_bit-IsValid a f v = elim (Bool-cases (leb a.total_frames f)) [
  | inl out ↦ rw out v
  | inr inside ↦ rw inside (freed-IsValid a v f (ground arith) a.last_free_frame_hint v.hint_in)
]

-- A frame is free exactly when it lies in the table and has no owner.
pub test_bit-counts :
    (a : BitmapFrameAllocator)
    → IsValid a
    → (f : ℕ) → test_bit a f ≡ (leb a.total_frames f || ltb 0 (get_or a.ref_counts f 0))
unfolding test_bit
test_bit-counts a v f = elim (Bool-cases (leb a.total_frames f)) [
  | inl out ↦ rw out
  | inr inside ↦ rw inside (v.agree f (ground arith))
]

pub total-force_free_bit :
    (a : BitmapFrameAllocator) (f : ℕ) → (force_free_bit a f).total_frames ≡ a.total_frames
unfolding force_free_bit
total-force_free_bit a f = ground arith

-- `force_set_bit` makes its frame busy and no other.
pub test_bit-force_set_bit :
    (a : BitmapFrameAllocator) (f g : ℕ)
    → IsValid a
    → g < a.total_frames
    → test_bit (force_set_bit a f) g ≡ (f == g || test_bit a g)
unfolding test_bit force_set_bit
test_bit-force_set_bit a f g v h = elim (dec_lt f a.total_frames) [
  | yes inside ↦ ground (arith, bit_at-with_bit a.bitmap v.bytes f (byte_inside a v f inside) g)
  | no outside ↦ ground arith
]

-- `force_free_bit` makes its frame free and no other.
pub test_bit-force_free_bit :
    (a : BitmapFrameAllocator) (f g : ℕ)
    → IsValid a
    → g < a.total_frames
    → test_bit (force_free_bit a f) g ≡ (not (f == g) && test_bit a g)
unfolding test_bit force_free_bit
test_bit-force_free_bit a f g v h = elim (dec_lt f a.total_frames) [
  | yes inside ↦ ground (arith, bit_at-without_bit a.bitmap v.bytes f (byte_inside a v f inside) g)
  | no outside ↦ ground arith
]
