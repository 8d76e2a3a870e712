-- ===== src/Frames/Search.antt =====
-- `allocate_frame` of src/mm/memory.rs: which frame it hands out, and when it fails.
use nwin_os.Common.{
  ℕ, zero, suc, ◌+◌, ◌-◌, ◌*◌, ◌≤◌, ◌<◌, ◌≡◌, refl, true, false, Option, none, some, ◌⊎◌, inl, inr,
  ◌==◌, if◌then◌else◌, get_or, arith, ℕ_discrete, dec_lt, Bool-cases,
}
use nwin_os.Frames.{
  BitmapFrameAllocator, frame_size, force_set_bit, test_bit, allocate_in, allocate_frame,
}
use nwin_os.Frames.Laws.{
  IsValid, force_set_bit_hint-IsValid, count-force_set_bit, total-force_set_bit,
}

-- Every frame from `i` up to `j` is busy.
abbrev pub IsBusy : BitmapFrameAllocator → ℕ → ℕ → Type 0
IsBusy a i j = (g : ℕ) → i ≤ g → g < j → test_bit a g ≡ true

abbrev taken : BitmapFrameAllocator → ℕ → BitmapFrameAllocator
taken a f = record (force_set_bit a f) { last_free_frame_hint = f + 1 }

record FirstFree (a : BitmapFrameAllocator) (i j f : ℕ) : Type 0 where
  from : i ≤ f
  below : f < j
  free : test_bit a f ≡ false
  skipped : IsBusy a i f

allocate_in_cases :
    (a : BitmapFrameAllocator) (n i : ℕ)
    → ((allocate_in a n i ≡ none) × IsBusy a i (i + n))
      ⊎ ((f : ℕ) × (allocate_in a n i ≡ some (f * frame_size, taken a f)) × FirstFree a i (i + n) f)
unfolding allocate_in
allocate_in_cases a zero i = inl (refl, λ g lo hi. absurd (omega arith))
allocate_in_cases a (suc n) i = elim (Bool-cases (test_bit a i)) [
  | inr free ↦ inr (
    i,
    rw free,
    record {
      from = omega arith;
      below = omega arith;
      free = free;
      skipped = λ g lo hi. absurd (omega arith);
    },
  )
  | inl busy ↦ elim (allocate_in_cases a n (i + 1)) [
    | inl (e, all) ↦ inl (
      rw busy e,
      λ g lo hi. elim (ℕ_discrete i g) [
        | yes same ↦ rw (← same) busy
        | no other ↦ all g (omega arith) (omega arith)
      ],
    )
    | inr (f, e, first) ↦ inr (
      f,
      rw busy e,
      record {
        from = omega (arith, first.from);
        below = omega (arith, first.below);
        free = first.free;
        skipped = λ g lo hi. elim (ℕ_discrete i g) [
          | yes same ↦ rw (← same) busy
          | no other ↦ first.skipped g (omega arith) hi
        ];
      },
    )
  ]
]

-- Frame `f` was free and is handed out: it has one owner, and no other frame changes.
pub record Takes (a : BitmapFrameAllocator) (f : ℕ) (a' : BitmapFrameAllocator) : Type 0 where
  pub inside : f < a.total_frames
  pub was_free : test_bit a f ≡ false
  pub valid : IsValid a'
  pub same_total : a'.total_frames ≡ a.total_frames
  pub counts : (g : ℕ) → get_or a'.ref_counts g 0 ≡ (if f == g then 1 else get_or a.ref_counts g 0)
  pub hint : a'.last_free_frame_hint ≡ f + 1

taken-Takes :
    (a : BitmapFrameAllocator) (f : ℕ)
    → IsValid a
    → f < a.total_frames
    → test_bit a f ≡ false
    → Takes a f (taken a f)
taken-Takes a f v h free = record {
  inside = h;
  was_free = free;
  valid = force_set_bit_hint-IsValid a v f h (f + 1) (omega arith);
  same_total = total-force_set_bit a f;
  counts = count-force_set_bit a v f h;
  hint = refl;
}

-- The frames between the hint and the one handed out, going round the end of the table, are busy.
abbrev pub NoneBefore : BitmapFrameAllocator → ℕ → Type 0
NoneBefore a f =
    ((a.last_free_frame_hint ≤ f) × IsBusy a a.last_free_frame_hint f)
    ⊎ ((f < a.last_free_frame_hint) × IsBusy a a.last_free_frame_hint a.total_frames × IsBusy a 0 f)

abbrev pub Allocates : BitmapFrameAllocator → Option ℕ × BitmapFrameAllocator → Type 0
Allocates a (none, a') = (a' ≡ a) × ((g : ℕ) → test_bit a g ≡ true)
Allocates a (some phys_addr, a') =
    (f : ℕ) × (phys_addr ≡ f * frame_size) × Takes a f a' × NoneBefore a f

pub out_of_range : (a : BitmapFrameAllocator) (g : ℕ) → a.total_frames ≤ g → test_bit a g ≡ true
unfolding test_bit
out_of_range a g h = ground arith

-- On a valid allocator `allocate_frame` hands out the first free frame from the hint on, going
-- round the end once: the frame was free, it then has one owner, no other count changes and the
-- invariant is kept. It fails only where every frame is busy, and then changes nothing.
pub allocate_frame-Allocates :
    (a : BitmapFrameAllocator) → IsValid a → Allocates a (allocate_frame a)
unfolding allocate_frame
allocate_frame-Allocates a v =
    elim (allocate_in_cases a (a.total_frames - a.last_free_frame_hint) a.last_free_frame_hint) [
      | inr (f, e, first) ↦ rw e (
        f,
        refl,
        taken-Takes a f v (omega (arith, first.below, v.hint_in)) first.free,
        inl (first.from, first.skipped),
      )
      | inl (e, upper) ↦ elim (allocate_in_cases a a.last_free_frame_hint 0) [
        | inr (f, e', first) ↦
            rw (e, e')
              (
                f,
                refl,
                taken-Takes a f v (omega (arith, first.below, v.hint_in)) first.free,
                inr (
                  omega (arith, first.below),
                  (λ g lo hi. upper g lo (omega (arith, v.hint_in))),
                  first.skipped,
                ),
              )
        | inl (e', lower) ↦
            rw (e, e')
              (
                refl,
                λ g. elim (dec_lt g a.last_free_frame_hint) [
                  | yes below ↦ lower g (omega arith) (omega arith)
                  | no above ↦ elim (dec_lt g a.total_frames) [
                    | yes inside ↦ upper g (omega arith) (omega arith)
                    | no outside ↦ out_of_range a g (omega arith)
                  ]
                ],
              )
      ]
    ]
