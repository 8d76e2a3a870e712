-- ===== src/Frames/Contiguous.antt =====
-- `allocate_contiguous_frames` of src/mm/memory.rs: first fit over runs of free frames.
use nwin_os.Common.{
  ℕ, zero, suc, ◌+◌, ◌-◌, ◌*◌, ◌≤◌, ◌<◌, ◌≡◌, refl, ◌∙◌, Bool, true, false, ◌&&◌, Option, none,
  some, inl, inr, ltb, leb, ◌==◌, if◌then◌else◌, get_or, arith, ℕ_discrete, dec_lt, dec_le,
  Bool-cases, subst, ==_iff, ==_ne,
}
use nwin_os.Frames.{
  BitmapFrameAllocator, frame_size, force_set_bit, test_bit, free_run, set_run, contiguous_from,
  allocate_contiguous_frames,
}
use nwin_os.Frames.Laws.{
  IsValid, force_set_bit-IsValid, count-force_set_bit, total-force_set_bit, hint-force_set_bit,
}
use nwin_os.Frames.Search.{out_of_range}

-- The `n` frames from `i` on are free.
abbrev pub IsFreeRun : BitmapFrameAllocator → ℕ → ℕ → Type 0
IsFreeRun a i n = (g : ℕ) → i ≤ g → g < i + n → test_bit a g ≡ false

record RunLength (a : BitmapFrameAllocator) (n i run : ℕ) : Type 0 where
  within : run ≤ n
  free : IsFreeRun a i run
  stopped : run < n → test_bit a (i + run) ≡ true

one_more :
    (a : BitmapFrameAllocator) (n i run : ℕ)
    → test_bit a i ≡ false
    → RunLength a n (i + 1) run
    → RunLength a (suc n) i (suc run)
one_more a n i run free rest = record {
  within = omega (arith, rest.within);
  free = λ g lo hi. elim (ℕ_discrete i g) [
    | yes same ↦ rw (← same) free
    | no other ↦ rest.free g (omega arith) (omega arith)
  ];
  stopped = λ h. subst (λ j. test_bit a j ≡ true) (omega arith) (rest.stopped (omega arith));
}

free_run_lem : (a : BitmapFrameAllocator) (n i : ℕ) → RunLength a n i (free_run a n i)
unfolding free_run
free_run_lem a zero i = record {
  within = omega arith;
  free = λ g lo hi. absurd (omega arith);
  stopped = λ h. absurd (omega arith);
}
free_run_lem a (suc n) i = elim (Bool-cases (test_bit a i)) [
  | inl busy ↦ rw busy (record {
    within = omega arith;
    free = λ g lo hi. absurd (omega arith);
    stopped = λ h. subst (λ j. test_bit a j ≡ true) (omega arith) busy;
  })
  | inr free ↦ rw free (one_more a n i _ free (free_run_lem a n (i + 1)))
]

-- The `n` frames from `i` on have one owner each, and no other frame changes.
pub record TakesRun (a : BitmapFrameAllocator) (i n : ℕ) (a' : BitmapFrameAllocator) : Type 0 where
  pub valid : IsValid a'
  pub same_total : a'.total_frames ≡ a.total_frames
  pub same_hint : a'.last_free_frame_hint ≡ a.last_free_frame_hint
  pub counts :
      (g : ℕ)
      → get_or a'.ref_counts g 0 ≡ (if leb i g && ltb g (i + n) then 1 else get_or a.ref_counts g 0)

set_run_lem :
    (a : BitmapFrameAllocator) (n i : ℕ)
    → IsValid a
    → i + n ≤ a.total_frames
    → TakesRun a i n (set_run a n i)
unfolding set_run
set_run_lem a zero i v h = record {
  valid = v;
  same_total = refl;
  same_hint = refl;
  counts = λ g. ground arith;
}
set_run_lem a (suc n) i v h =
    let rest =
      set_run_lem (force_set_bit a i) n (i + 1) (force_set_bit-IsValid a i v)
        (omega (arith, total-force_set_bit a i)) in
    record {
      valid = rest.valid;
      same_total = rest.same_total ∙ total-force_set_bit a i;
      same_hint = rest.same_hint ∙ hint-force_set_bit a i;
      counts = λ g. ground (arith, rest.counts g, count-force_set_bit a v i (omega arith) g);
    }

not_both : (b : Bool) → b ≡ true → b ≡ false → ⊥
not_both b p q = cc

-- No run of `count` free frames starts below `i`.
abbrev pub NoRunBelow : BitmapFrameAllocator → ℕ → ℕ → Type 0
NoRunBelow a count i = (j : ℕ) → j < i → ¬ IsFreeRun a j count

abbrev pub AllocatesRun :
    BitmapFrameAllocator → ℕ → Option (Option ℕ × BitmapFrameAllocator) → Type 0
AllocatesRun a count none = ⊥
AllocatesRun a count (some (none, a')) = (a' ≡ a) × ((j : ℕ) → ¬ IsFreeRun a j count)
AllocatesRun a count (some (some phys_addr, a')) =
    (i : ℕ) × (phys_addr ≡ i * frame_size)
    × IsFreeRun a i count
    × NoRunBelow a count i
    × TakesRun a i count a'

module _ (a : BitmapFrameAllocator) (count : ℕ) (pos : 0 < count) where
  -- A run that ends past the table is no free run.
  past_the_end : (j : ℕ) → a.total_frames < j + count → ¬ IsFreeRun a j count
  past_the_end j h run =
      not_both _ (out_of_range a (j + count - 1) (omega arith))
        (run (j + count - 1) (omega arith) (omega arith))

  fits : (i : ℕ) → IsFreeRun a i count → i + count ≤ a.total_frames
  fits i run = elim (dec_le (i + count) a.total_frames) [
    | yes h ↦ h
    | no h ↦ absurd (past_the_end i (omega arith) run)
  ]

  -- A busy frame at `i + run` rules out the runs that start from `i` up to it.
  skip :
      (i run : ℕ)
      → run < count
      → test_bit a (i + run) ≡ true
      → NoRunBelow a count i
      → NoRunBelow a count (i + (run + 1))
  skip i run short busy before j h free = elim (dec_lt j i) [
    | yes below ↦ before j below free
    | no above ↦ not_both _ busy (free (i + run) (omega arith) (omega arith))
  ]

  finished :
      (i : ℕ) → a.total_frames - count < i → NoRunBelow a count i → (j : ℕ) → ¬ IsFreeRun a j count
  finished i done before j free = elim (dec_lt j i) [
    | yes below ↦ before j below free
    | no above ↦ past_the_end j (omega arith) free
  ]

  contiguous_from-AllocatesRun :
      (fuel i : ℕ)
      → IsValid a
      → a.total_frames - count + 1 - i < fuel
      → NoRunBelow a count i
      → AllocatesRun a count (contiguous_from fuel a count i)
  unfolding contiguous_from
  contiguous_from-AllocatesRun zero i v enough before = absurd (omega arith)
  contiguous_from-AllocatesRun (suc fuel) i v enough before =
      elim (Bool-cases (leb i (a.total_frames - count))) [
        | inr past ↦ rw past (refl, finished i (ground arith) before)
        | inl inside ↦ elim (Bool-cases (free_run a count i == count)) [
          | inl whole ↦
              let run : IsFreeRun a i count =
                subst (IsFreeRun a i) ((==_iff _ _).0 whole) (free_run_lem a count i).free in
              rw (inside, whole) (i, refl, run, before, set_run_lem a count i v (fits i run))
          | inr short ↦
              let more : free_run a count i < count =
                ground (arith, (free_run_lem a count i).within) in
              rw (inside, short)
                (contiguous_from-AllocatesRun fuel (i + (free_run a count i + 1)) v (ground arith)
                  (skip i (free_run a count i) more ((free_run_lem a count i).stopped more) before))
        ]
      ]

-- On a valid allocator `allocate_contiguous_frames` for a positive count ends within its fuel. It
-- takes the lowest run of that many free frames: each gets one owner, no other frame and not the
-- hint change, and the invariant is kept. It fails only where no such run exists, and then changes
-- nothing.
pub allocate_contiguous_frames-AllocatesRun :
    (a : BitmapFrameAllocator) (count : ℕ)
    → IsValid a
    → 0 < count
    → AllocatesRun a count (allocate_contiguous_frames a count)
unfolding allocate_contiguous_frames
allocate_contiguous_frames-AllocatesRun a count v pos = rw (==_ne count 0 (omega arith)) (
    contiguous_from-AllocatesRun a count pos (a.total_frames + 2) 0 v (omega arith)
      (λ j h. absurd (omega arith)))
