-- ===== src/Frames/Startup/Exact.antt =====
-- `init` of src/mm/memory.rs as a whole: which frames it leaves free.
use nwin_os.Common.{
  ◌%◌, ◌&&◌, ℕ, ◌+◌, ◌*◌, ◌/◌, ◌^◌, ◌≤◌, ◌<◌, ◌≡◌, ◌≢◌, ◌↔◌, refl, ◌∙◌, Bool, true, false, not,
  ◌||◌, Option, none, some, ◌⊎◌, inl, inr, List, [], ◌∷◌, leb, ◌==◌, if◌then◌else◌, arith, dec_lt,
  Bool-cases,
}
use nwin_os.Common.Outcome.{returned, panicked}
use nwin_os.Frames.{BitmapFrameAllocator, frame_size, empty, test_bit, set_run}
use nwin_os.Frames.Search.{out_of_range}
use nwin_os.Frames.Laws.{
  IsValid, force_set_bit-IsValid, total-force_set_bit, test_bit-force_set_bit,
}
use nwin_os.Frames.Startup.{
  Entry, usable, EntryKind, is_usable, total_frames_of, metadata_total_size, metadata_frames,
  metadata_region, free_usable, all_reserved, set_up, init, overflows, max_addr_from,
}
use nwin_os.Frames.Startup.Laws.{
  Clears, Marks, in_range, frees, any_frees, all_reserved-IsValid, test_bit-all_reserved,
  set_run-Marks, free_usable-Clears,
}

-- Some usable entry of the map contains the whole frame `f`.
abbrev pub IsInUsable : List Entry → ℕ → Type 0
IsInUsable [] f = ⊥
IsInUsable (e ∷ es) f =
    ((e.kind ≡ usable)
      × (e.base ≤ f * frame_size)
      × (f * frame_size + frame_size ≤ e.base + e.size))
    ⊎ IsInUsable es f

is_usable_iff : (k : EntryKind) → (is_usable k ≡ true) ↔ (k ≡ usable)
is_usable_iff k = ground arith

any_frees→IsInUsable : (es : List Entry) (f : ℕ) → any_frees es f ≡ true → IsInUsable es f
any_frees→IsInUsable [] f h = cc
any_frees→IsInUsable (e ∷ es) f h = elim (Bool-cases (frees e f)) [
  | inl here ↦ inl ((is_usable_iff e.kind).0 (ground arith), ground arith, ground arith)
  | inr not_here ↦ inr (any_frees→IsInUsable es f (ground arith))
]

IsInUsable→any_frees : (es : List Entry) (f : ℕ) → IsInUsable es f → any_frees es f ≡ true
IsInUsable→any_frees [] f h = absurd h
IsInUsable→any_frees (e ∷ es) f (inl here) = ground (arith, (is_usable_iff e.kind).1 here.0)
IsInUsable→any_frees (e ∷ es) f (inr later) = ground (arith, IsInUsable→any_frees es f later)

-- The bytes of the metadata: one bit for each frame, in whole words of 64, and two bytes for each.
abbrev pub metadata_bytes : ℕ → ℕ
metadata_bytes total_frames = (total_frames + 63) / 64 * 8 + 2 * total_frames

-- No byte of frame `f` is one of the metadata's.
abbrev pub IsOffMetadata : ℕ → ℕ → ℕ → Type 0
IsOffMetadata total_frames metadata_phys_addr f =
    (f * frame_size + frame_size ≤ metadata_phys_addr)
    ⊎ (metadata_phys_addr + metadata_bytes total_frames ≤ f * frame_size)

-- Some usable entry of the map contains the `n` bytes from `addr` on.
abbrev pub HoldsBytes : List Entry → (addr n : ℕ) → Type 0
HoldsBytes [] addr n = ⊥
HoldsBytes (e ∷ es) addr n =
    ((e.kind ≡ usable) × (e.base ≤ addr) × (addr + n ≤ e.base + e.size)) ⊎ HoldsBytes es addr n

-- What the bootloader documents: usable memory begins with a frame.
abbrev pub IsAligned : List Entry → Type 0
IsAligned [] = Unit
IsAligned (e ∷ es) = (e.kind ≡ usable → e.base % frame_size ≡ 0) × IsAligned es

-- Where the metadata is put.
metadata_region_lem :
    (total m : ℕ) (es : List Entry)
    → IsAligned es
    → metadata_region (metadata_total_size total) es ≡ some m
    → (m % frame_size ≡ 0) × HoldsBytes es m (metadata_bytes total)
unfolding metadata_region
metadata_region_lem total m [] al h = cc
metadata_region_lem total m (e ∷ es) al h =
    elim (Bool-cases (is_usable e.kind && leb (metadata_total_size total) e.size)) [
      | inl here ↦
          let u = (is_usable_iff e.kind).0 (ground arith) in
          let at : e.base ≡ m = ground (arith, here, h) in
          (omega (arith, al.0 u, at), inl (u, omega (arith, at), ground (arith, here, at)))
      | inr not_here ↦
          let r = metadata_region_lem total m es al.1 (ground (arith, not_here, h)) in
          (r.0, inr r.1)
    ]

in_table : (a : BitmapFrameAllocator) (f : ℕ) → test_bit a f ≡ false → f < a.total_frames
in_table a f h = elim (dec_lt f a.total_frames) [
  | yes inside ↦ inside
  | no outside ↦ ground (arith, out_of_range a f (omega arith))
]

module _ (es : List Entry) (metadata_phys_addr : ℕ)
    (aligned : metadata_phys_addr % frame_size ≡ 0) where
  abbrev total : ℕ
  total = total_frames_of es

  abbrev metadata_start : ℕ
  metadata_start = metadata_phys_addr / frame_size

  abbrev cleared : BitmapFrameAllocator
  cleared = free_usable (all_reserved empty total) es

  hint-empty : empty.last_free_frame_hint ≤ total
  unfolding empty
  hint-empty = omega arith

  cleared-Clears : Clears (all_reserved empty total) (any_frees es) cleared
  cleared-Clears = free_usable-Clears _ es (all_reserved-IsValid empty total hint-empty)

  marked-Marks :
      Marks cleared
        (in_range metadata_start (metadata_frames total))
        (set_run cleared (metadata_frames total) metadata_start)
  marked-Marks = set_run-Marks cleared (metadata_frames total) metadata_start cleared-Clears.valid

  set_up-IsValid : IsValid (set_up empty es metadata_phys_addr)
  unfolding set_up
  set_up-IsValid = force_set_bit-IsValid _ 0 marked-Marks.valid

  total-set_up : (set_up empty es metadata_phys_addr).total_frames ≡ total
  unfolding set_up
  total-set_up =
      total-force_set_bit (set_run cleared (metadata_frames total) metadata_start) 0
      ∙ (marked-Marks.same_total ∙ cleared-Clears.same_total)

  test_bit-set_up :
      (f : ℕ)
      → f < total
      → test_bit (set_up empty es metadata_phys_addr) f
        ≡ (0 == f || (in_range metadata_start (metadata_frames total) f || not (any_frees es f)))
  unfolding set_up
  test_bit-set_up f h =
      test_bit-force_set_bit (set_run cleared (metadata_frames total) metadata_start) 0 f
        marked-Marks.valid (omega (arith, marked-Marks.same_total, cleared-Clears.same_total))
      ∙ ground (
        arith,
        marked-Marks.bits f (omega (arith, cleared-Clears.same_total)),
        cleared-Clears.bits f h,
        test_bit-all_reserved empty total f h,
      )

  -- Both directions of the characterisation of the free frames.
  free_iff :
      (f : ℕ)
      → (test_bit (set_up empty es metadata_phys_addr) f ≡ false)
        ↔ ((f < total) × (f ≢ 0) × IsOffMetadata total metadata_phys_addr f × IsInUsable es f)
  free_iff f = (there, back)
    where
      there :
          test_bit (set_up empty es metadata_phys_addr) f ≡ false
          → (f < total) × (f ≢ 0) × IsOffMetadata total metadata_phys_addr f × IsInUsable es f
      there h =
          let inside : f < total =
            omega (arith, in_table (set_up empty es metadata_phys_addr) f h, total-set_up) in
          let e = test_bit-set_up f inside in
          (
            inside,
            ground (arith, e, h),
            ground (arith, e, h),
            any_frees→IsInUsable es f (ground (arith, e, h)),
          )

      back :
          (f < total) × (f ≢ 0) × IsOffMetadata total metadata_phys_addr f × IsInUsable es f
          → test_bit (set_up empty es metadata_phys_addr) f ≡ false
      back p = ground (arith, test_bit-set_up f p.0, IsInUsable→any_frees es f p.3)

returned_injective : {A : Type 0} {x y : A} → returned x ≡ returned y → x ≡ y
returned_injective h = cc

-- What `init` does where it does not panic.
init_cases :
    (es : List Entry) (a : BitmapFrameAllocator)
    → init empty es ≡ returned a
    → (m : ℕ) × (metadata_region (metadata_total_size (total_frames_of es)) es ≡ some m)
      × (a ≡ set_up empty es m)
unfolding init
init_cases es a h = go _ _ refl refl h
  where
    go :
        (b : Bool) (o : Option ℕ)
        → (overflows es || leb (2 ^ 64) (max_addr_from 0 es + frame_size)) ≡ b
        → metadata_region (metadata_total_size (total_frames_of es)) es ≡ o
        → (if b
            then panicked
            else (elim o [ none ↦ panicked | some m ↦ returned (set_up empty es m) ]))
          ≡ returned a
        → (m : ℕ) × (metadata_region (metadata_total_size (total_frames_of es)) es ≡ some m)
          × (a ≡ set_up empty es m)
    go true o eb eo h' = cc
    go false none eb eo h' = cc
    go false (some m) eb eo h' = (m, eo, cc)

-- Where usable memory begins with whole frames: whenever `init` does not panic, it leaves a valid
-- allocator, and the metadata, a bit and a 16-bit count for each frame of the table, fits into the
-- usable entry that it chose. The free frames are exactly the frames of the table, other than frame 0,
-- that contain no byte of the metadata and lie wholly inside a usable entry of the memory map.
pub init-free_frames :
    (es : List Entry) (a : BitmapFrameAllocator)
    → IsAligned es
    → init empty es ≡ returned a
    → (m : ℕ) × (metadata_region (metadata_total_size (total_frames_of es)) es ≡ some m)
      × HoldsBytes es m (metadata_bytes (total_frames_of es))
      × IsValid a
      × ((f : ℕ)
          → (test_bit a f ≡ false) ↔ (
              (f < total_frames_of es)
              × (f ≢ 0)
              × IsOffMetadata (total_frames_of es) m f
              × IsInUsable es f))
init-free_frames es a al h =
    let (m, found, e) = init_cases es a h in
    let (aligned, held) = metadata_region_lem (total_frames_of es) m es al found in
    (m, found, held, rw e (set_up-IsValid es m aligned), rw e (free_iff es m aligned))
