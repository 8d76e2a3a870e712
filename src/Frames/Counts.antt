-- ===== src/Frames/Counts.antt =====
-- `deallocate_frame`, `reference_frame` and `get_ref_count` of src/mm/memory.rs: the counters
-- implement reference counting.
use nwin_os.Common.{
  ℕ, ◌+◌, ◌-◌, ◌*◌, ◌/◌, ◌^◌, ◌≤◌, ◌<◌, ◌≡◌, refl, true, false, some, ◌⊎◌, inl, inr, ltb, lt→ltb,
  ltb_above, subst, ◌==◌, if◌then◌else◌, length, get_or-set_self, get_or, set, arith, dec_lt,
}
use nwin_os.Common.Outcome.{Outcome, returned, panicked}
use nwin_os.Frames.{
  BitmapFrameAllocator, frame_size, release_at_zero, deallocate_frame, reference_frame,
  allocate_frame,
}
use nwin_os.Frames.Laws.{IsValid, freed-IsValid, recounted-IsValid, get_or-set_if, test_bit-counts}
use nwin_os.Frames.Search.{Takes, Allocates, allocate_frame-Allocates}

abbrev pub count_of : BitmapFrameAllocator → ℕ → ℕ
count_of a f = get_or a.ref_counts f 0

-- `a'` differs from `a` in the count of frame `f`, now `n`; the busy bits follow the counts.
pub record Recounts (a : BitmapFrameAllocator) (f n : ℕ) (a' : BitmapFrameAllocator) : Type 0 where
  pub valid : IsValid a'
  pub same_total : a'.total_frames ≡ a.total_frames
  pub counts : (g : ℕ) → count_of a' g ≡ (if f == g then n else count_of a g)

abbrev pub Releases : BitmapFrameAllocator → ℕ → Outcome BitmapFrameAllocator → Type 0
Releases a f (returned a') =
    (f < a.total_frames) × (0 < count_of a f) × Recounts a f (count_of a f - 1) a'
Releases a f panicked = (a.total_frames ≤ f) ⊎ (count_of a f ≡ 0)

module _ (a : BitmapFrameAllocator) (v : IsValid a) (f : ℕ) (inside : f < a.total_frames) where
  count_inside : f < length a.ref_counts
  count_inside = omega (arith, v.counts_size)

  zero_now : (n : ℕ) → n ≡ 0 → (get_or (set a.ref_counts f n) f 0 == 0) ≡ true
  zero_now n h = ground (arith, get_or-set_self a.ref_counts f n 0 count_inside)

  nonzero_now : (n : ℕ) → 0 < n → (get_or (set a.ref_counts f n) f 0 == 0) ≡ false
  nonzero_now n h = ground (arith, get_or-set_self a.ref_counts f n 0 count_inside)

  abbrev lowered : BitmapFrameAllocator
  lowered = record a { ref_counts = set a.ref_counts f (count_of a f - 1) }

  abbrev next_hint : ℕ
  next_hint = if ltb f a.last_free_frame_hint then f else a.last_free_frame_hint

  release_last : count_of a f ≡ 1 → Recounts a f (count_of a f - 1) (release_at_zero lowered f)
  unfolding release_at_zero
  release_last one =
      rw (one, zero_now 0 refl)
        (record {
          valid = freed-IsValid a v f inside next_hint (ground (arith, v.hint_in));
          same_total = refl;
          counts = λ g. get_or-set_if a.ref_counts f g 0 count_inside;
        })

  release_other : 1 < count_of a f → Recounts a f (count_of a f - 1) (release_at_zero lowered f)
  unfolding release_at_zero
  release_other more = rw (nonzero_now (count_of a f - 1) (omega arith)) (record {
    valid =
        recounted-IsValid a v f inside (count_of a f - 1) (omega arith) (omega arith)
          (omega (arith, v.small f));
    same_total = refl;
    counts = λ g. get_or-set_if a.ref_counts f g (count_of a f - 1) count_inside;
  })

  release_busy : 0 < count_of a f → Recounts a f (count_of a f - 1) (release_at_zero lowered f)
  release_busy busy = elim (dec_lt 1 (count_of a f)) [
    | yes more ↦ release_other more
    | no less ↦ release_last (omega arith)
  ]

-- On a valid allocator `deallocate_frame` lowers the count of the frame that holds the address by
-- one, makes the frame free exactly when the count reaches zero, keeps every other frame and the
-- invariant; it panics exactly when the frame is unknown or already has no owner.
pub deallocate_frame-Releases :
    (a : BitmapFrameAllocator) (phys_addr : ℕ)
    → IsValid a
    → Releases a (phys_addr / frame_size) (deallocate_frame a phys_addr)
unfolding deallocate_frame
deallocate_frame-Releases a phys_addr v = elim (dec_lt f a.total_frames) [
  | no out ↦ rw (ltb_above f a.total_frames (omega arith)) (inl (omega arith))
  | yes inside ↦ elim (dec_lt 0 (count_of a f)) [
    | no idle ↦
        rw (lt→ltb f a.total_frames inside, ltb_above 0 (count_of a f) (omega arith))
          (inr (omega arith))
    | yes busy ↦
        rw (lt→ltb f a.total_frames inside, lt→ltb 0 (count_of a f) busy)
          (inside, busy, release_busy a v f inside busy)
  ]
]
  where
    f : ℕ
    f = phys_addr / frame_size

abbrev pub References : BitmapFrameAllocator → ℕ → Outcome BitmapFrameAllocator → Type 0
References a f (returned a') =
    (f < a.total_frames) × (0 < count_of a f) × Recounts a f (count_of a f + 1) a'
References a f panicked = (a.total_frames ≤ f) ⊎ ((count_of a f ≡ 0) ⊎ (count_of a f ≡ 2 ^ 16 - 1))

-- On a valid allocator `reference_frame` gives the frame one more owner and changes nothing else;
-- it panics exactly when the frame is unknown, unowned, or has as many owners as a `u16` counts.
pub reference_frame-References :
    (a : BitmapFrameAllocator) (phys_addr : ℕ)
    → IsValid a
    → References a (phys_addr / frame_size) (reference_frame a phys_addr)
unfolding reference_frame
reference_frame-References a phys_addr v = elim (dec_lt f a.total_frames) [
  | no out ↦ rw (ltb_above f a.total_frames (omega arith)) (inl (omega arith))
  | yes inside ↦ elim (dec_lt 0 (count_of a f)) [
    | no idle ↦
        rw (lt→ltb f a.total_frames inside, ltb_above 0 (count_of a f) (omega arith))
          (inr (inl (omega arith)))
    | yes busy ↦ elim (dec_lt (count_of a f + 1) (2 ^ 16)) [
      | no full ↦
          rw
            (
              lt→ltb f a.total_frames inside,
              lt→ltb 0 (count_of a f) busy,
              ltb_above (count_of a f + 1) (2 ^ 16) (omega arith),
            )
            (inr (inr (omega (arith, v.small f))))
      | yes room ↦
          rw
            (
              lt→ltb f a.total_frames inside,
              lt→ltb 0 (count_of a f) busy,
              lt→ltb (count_of a f + 1) (2 ^ 16) room,
            )
            (
              inside,
              busy,
              record {
                valid = recounted-IsValid a v f inside (count_of a f + 1) busy (omega arith) room;
                same_total = refl;
                counts = λ g.
                    get_or-set_if a.ref_counts f g (count_of a f + 1) (count_inside a v f inside);
              },
            )
    ]
  ]
]
  where
    f : ℕ
    f = phys_addr / frame_size

-- Sharing a frame and dropping the share again leaves every count as it was.
pub reference-deallocate :
    (a b c : BitmapFrameAllocator) (phys_addr g : ℕ)
    → IsValid a
    → reference_frame a phys_addr ≡ returned b
    → deallocate_frame b phys_addr ≡ returned c
    → count_of c g ≡ count_of a g
reference-deallocate a b c phys_addr g v e e' =
    ground (arith, r.2.counts g, r.2.counts (phys_addr / frame_size), d.2.counts g)
  where
    r : References a (phys_addr / frame_size) (returned b)
    r = subst (References a (phys_addr / frame_size)) e (reference_frame-References a phys_addr v)

    d : Releases b (phys_addr / frame_size) (returned c)
    d =
        subst (Releases b (phys_addr / frame_size)) e'
          (deallocate_frame-Releases b phys_addr r.2.valid)

deallocate_frame-Releases_at :
    (a : BitmapFrameAllocator) (f : ℕ)
    → IsValid a
    → Releases a f (deallocate_frame a (f * frame_size))
deallocate_frame-Releases_at a f v =
    subst (λ g. Releases a g (deallocate_frame a (f * frame_size))) (omega arith)
      (deallocate_frame-Releases a (f * frame_size) v)

released :
    (a : BitmapFrameAllocator) (f : ℕ) (o : Outcome BitmapFrameAllocator)
    → Releases a f o
    → f < a.total_frames
    → 0 < count_of a f
    → (c : BitmapFrameAllocator) × (o ≡ returned c) × Recounts a f (count_of a f - 1) c
released a f (returned c) r inside busy = (c, refl, r.2)
released a f panicked (inl out) inside busy = absurd (omega arith)
released a f panicked (inr idle) inside busy = absurd (omega arith)

not_released :
    (a : BitmapFrameAllocator) (f : ℕ) (o : Outcome BitmapFrameAllocator)
    → Releases a f o
    → count_of a f ≡ 0
    → o ≡ panicked
not_released a f (returned c) r idle = absurd (omega arith)
not_released a f panicked r idle = refl

owned_once_released :
    (a b : BitmapFrameAllocator) (f : ℕ)
    → IsValid a
    → Takes a f b
    → (c : BitmapFrameAllocator) × (deallocate_frame b (f * frame_size) ≡ returned c)
      × ((g : ℕ) → count_of c g ≡ count_of a g)
      × (deallocate_frame c (f * frame_size) ≡ panicked)
owned_once_released a b f v t =
    let (c, e, r) =
      released b f _ (deallocate_frame-Releases_at b f t.valid)
        (omega (arith, t.inside, t.same_total)) (ground (arith, t.counts f)) in
    (
      c,
      e,
      (λ g. ground (arith, r.counts g, t.counts g, t.counts f, was_idle)),
      not_released c f _ (deallocate_frame-Releases_at c f r.valid)
          (ground (arith, r.counts f, t.counts f)),
    )
  where
    was_idle : count_of a f ≡ 0
    was_idle = ground (arith, t.was_free, test_bit-counts a v f, t.inside)

-- A frame that `allocate_frame` handed out can be released exactly once: the first
-- `deallocate_frame` succeeds and leaves every count as before the allocation, a second panics.
pub allocate-deallocate :
    (a b : BitmapFrameAllocator) (phys_addr : ℕ)
    → IsValid a
    → allocate_frame a ≡ (some phys_addr, b)
    → (c : BitmapFrameAllocator) × (deallocate_frame b phys_addr ≡ returned c)
      × ((g : ℕ) → count_of c g ≡ count_of a g)
      × (deallocate_frame c phys_addr ≡ panicked)
allocate-deallocate a b phys_addr v e =
    let (f, at, t, _) = subst (Allocates a) e (allocate_frame-Allocates a v) in
    rw at (owned_once_released a b f v t)
