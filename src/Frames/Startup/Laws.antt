-- ===== src/Frames/Startup/Laws.antt =====
-- The steps of `init` of src/mm/memory.rs: what each loop does to the busy bits.
use nwin_os.Common.{
  ℕ, zero, suc, ◌+◌, ◌-◌, ◌/◌, ◌%◌, ◌≤◌, ◌<◌, ◌≡◌, refl, ◌∙◌, Bool, true, false, not, ◌&&◌, ◌||◌,
  inl, inr, List, [], ◌∷◌, ltb, leb, get_or, arith, Bool-cases, length-replicate, get_or-replicate,
  replicate,
}
use nwin_os.Common.Bits.{has_bit_full}
use nwin_os.Frames.{
  BitmapFrameAllocator, frame_size, force_set_bit, force_free_bit, test_bit, set_run,
}
use nwin_os.Frames.Bitmap.{bit_at}
use nwin_os.Frames.Laws.{
  IsValid, force_set_bit-IsValid, force_free_bit-IsValid, total-force_set_bit,
  test_bit-force_set_bit, test_bit-force_free_bit, total-force_free_bit,
}
use nwin_os.Frames.Startup.{
  Entry, is_usable, raw_bitmap_size, start_frame, free_range, free_entry, free_usable, all_reserved,
}

get_or-replicate_lt : (n i a : ℕ) → a < 256 → get_or (replicate n a) i 0 < 256
get_or-replicate_lt zero i a h = omega arith
get_or-replicate_lt (suc n) zero a h = h
get_or-replicate_lt (suc n) (suc i) a h = get_or-replicate_lt n i a h

all_busy : (total f : ℕ) → f < total → bit_at (replicate (raw_bitmap_size total) 255) f ≡ true
unfolding bit_at
all_busy total f h =
    rw (get_or-replicate {A = ℕ} (raw_bitmap_size total) (f / 8) 255 0 (omega arith))
      (has_bit_full (f % 8) (omega arith))

pub all_reserved-IsValid :
    (self : BitmapFrameAllocator) (total : ℕ)
    → self.last_free_frame_hint ≤ total
    → IsValid (all_reserved self total)
all_reserved-IsValid self total h = record {
  bitmap_size = length-replicate (raw_bitmap_size total) 255;
  bytes = λ i. get_or-replicate_lt (raw_bitmap_size total) i 255 (omega arith);
  counts_size = length-replicate total 1;
  hint_in = h;
  agree = λ f hf. rw (all_busy total f hf, get_or-replicate {A = ℕ} total f 1 0 hf) refl;
  small = λ f. omega (arith, get_or-replicate_lt total f 1 (omega arith));
}

pub test_bit-all_reserved :
    (self : BitmapFrameAllocator) (total f : ℕ)
    → f < total
    → test_bit (all_reserved self total) f ≡ true
unfolding test_bit
test_bit-all_reserved self total f h = ground (arith, all_busy total f h)

-- `b` has the size of `a`, and of the frames in it those are busy that were and that `p` keeps.
pub record Clears (a : BitmapFrameAllocator) (p : ℕ → Bool) (b : BitmapFrameAllocator)
    : Type 0 where
  pub valid : IsValid b
  pub same_total : b.total_frames ≡ a.total_frames
  pub bits : (g : ℕ) → g < a.total_frames → test_bit b g ≡ (not (p g) && test_bit a g)

pub record Marks (a : BitmapFrameAllocator) (p : ℕ → Bool) (b : BitmapFrameAllocator) : Type 0 where
  pub valid : IsValid b
  pub same_total : b.total_frames ≡ a.total_frames
  pub bits : (g : ℕ) → g < a.total_frames → test_bit b g ≡ (p g || test_bit a g)

abbrev pub in_range : ℕ → ℕ → ℕ → Bool
in_range i n g = leb i g && ltb g (i + n)

free_range-Clears :
    (a : BitmapFrameAllocator) (n i : ℕ) → IsValid a → Clears a (in_range i n) (free_range a n i)
unfolding free_range
free_range-Clears a zero i v = record { valid = v; same_total = refl; bits = λ g h. ground arith }
free_range-Clears a (suc n) i v =
    let rest = free_range-Clears (force_free_bit a i) n (i + 1) (force_free_bit-IsValid a i v) in
    record {
      valid = rest.valid;
      same_total = rest.same_total ∙ total-force_free_bit a i;
      bits = λ g h. ground (
        arith,
        rest.bits g (omega (arith, total-force_free_bit a i)),
        test_bit-force_free_bit a i g v h,
      );
    }

pub set_run-Marks :
    (a : BitmapFrameAllocator) (n i : ℕ) → IsValid a → Marks a (in_range i n) (set_run a n i)
unfolding set_run
set_run-Marks a zero i v = record { valid = v; same_total = refl; bits = λ g h. ground arith }
set_run-Marks a (suc n) i v =
    let rest = set_run-Marks (force_set_bit a i) n (i + 1) (force_set_bit-IsValid a i v) in
    record {
      valid = rest.valid;
      same_total = rest.same_total ∙ total-force_set_bit a i;
      bits = λ g h. ground (
        arith,
        rest.bits g (omega (arith, total-force_set_bit a i)),
        test_bit-force_set_bit a i g v h,
      );
    }

-- The frames that an entry of the map, or one of its entries, frees.
abbrev pub frees : Entry → ℕ → Bool
frees e g =
    is_usable e.kind
    && in_range (start_frame e.base) ((e.base + e.size) / frame_size - start_frame e.base) g

abbrev pub any_frees : List Entry → ℕ → Bool
any_frees [] g = false
any_frees (e ∷ es) g = frees e g || any_frees es g

free_entry-Clears :
    (a : BitmapFrameAllocator) (e : Entry) → IsValid a → Clears a (frees e) (free_entry a e)
unfolding free_entry
free_entry-Clears a e v = elim (Bool-cases (is_usable e.kind)) [
  | inl u ↦
      let r =
        free_range-Clears a ((e.base + e.size) / frame_size - start_frame e.base)
          (start_frame e.base) v in
      rw u (record {
        valid = r.valid;
        same_total = r.same_total;
        bits = λ g h. ground (arith, r.bits g h);
      })
  | inr u ↦ rw u (record { valid = v; same_total = refl; bits = λ g h. ground arith })
]

regroup : (p q t : Bool) → (not q && (not p && t)) ≡ (not (p || q) && t)
regroup p q t = ground arith

pub free_usable-Clears :
    (a : BitmapFrameAllocator) (es : List Entry)
    → IsValid a
    → Clears a (any_frees es) (free_usable a es)
unfolding free_usable
free_usable-Clears a [] v = record { valid = v; same_total = refl; bits = λ g h. refl }
free_usable-Clears a (e ∷ es) v =
    let first = free_entry-Clears a e v in
    let rest = free_usable-Clears (free_entry a e) es first.valid in
    record {
      valid = rest.valid;
      same_total = rest.same_total ∙ first.same_total;
      bits = λ g h.
          rest.bits g (omega (arith, first.same_total))
          ∙ (rw (first.bits g h) (regroup (frees e g) (any_frees es g) (test_bit a g)));
    }
