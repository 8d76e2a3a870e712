-- ===== src/AddressSpace/Isolation.antt =====
-- What a new address space contains.
use nwin_os.Common.{
  ℕ, zero, suc, ◌+◌, ◌*◌, ◌≤◌, ◌<◌, ◌≡◌, ◌≢◌, refl, sym, ◌∙◌, Bool, true, ◌⊎◌, inl, inr, Option,
  none, some, if◌then◌else◌, ==_refl, ==_ne, Bool-cases, ℕ_discrete, arith,
}
use nwin_os.Frames.{BitmapFrameAllocator, allocate_frame, test_bit, frame_size}
use nwin_os.Frames.Laws.{IsValid}
use nwin_os.Frames.Search.{Allocates, allocate_frame-Allocates}
use nwin_os.Task.{Memory, store}
use nwin_os.AddressSpace.{
  clear_frame, clear_new, system_allocate_frame, copy_entries, keep_kernel, fill,
  create_isolated_pml4,
}

store_same : (m : Memory) (p v : ℕ) → store m p v p ≡ v
store_same m p v = rw (==_refl p) refl

store_other : (m : Memory) (p v q : ℕ) → p ≢ q → store m p v q ≡ m q
store_other m p v q ne = rw (==_ne p q ne) refl

-- One turn of the loop.
abbrev turn : (ℕ → Bool) → ℕ → ℕ → Memory → ℕ → Memory
turn keep current new m i =
    if keep (m (current + i * 8)) then store m (new + i * 8) (m (current + i * 8)) else m

module _ (keep : ℕ → Bool) (current new : ℕ)
    (apart : (current + 4096 ≤ new) ⊎ (new + 4096 ≤ current)) where
  -- It writes at most its own entry.
  turn_other : (m : Memory) (i q : ℕ) → new + i * 8 ≢ q → turn keep current new m i q ≡ m q
  turn_other m i q ne = elim (Bool-cases (keep (m (current + i * 8)))) [
    | inl k ↦ rw k (store_other m (new + i * 8) (m (current + i * 8)) q ne)
    | inr k ↦ rw k refl
  ]

  copy_other :
      (m : Memory) (n i q : ℕ)
      → (q < new + i * 8) ⊎ (new + (i + n) * 8 ≤ q)
      → copy_entries keep m current new n i q ≡ m q
  unfolding copy_entries
  copy_other m zero i q h = refl
  copy_other m (suc n) i q h =
      copy_other (turn keep current new m i) n (i + 1) q (ground (arith, h))
      ∙ turn_other m i q (λ e. ground (arith, h, e))

  turn_own :
      (m : Memory) (i : ℕ)
      → turn keep current new m i (new + i * 8)
        ≡ (if keep (m (current + i * 8)) then m (current + i * 8) else m (new + i * 8))
  turn_own m i = elim (Bool-cases (keep (m (current + i * 8)))) [
    | inl k ↦ rw k (store_same m (new + i * 8) (m (current + i * 8)))
    | inr k ↦ rw k refl
  ]

  copy_own :
      (m : Memory) (n i j : ℕ)
      → i + n ≤ 512
      → i ≤ j
      → j < i + n
      → copy_entries keep m current new n i (new + j * 8)
        ≡ (if keep (m (current + j * 8)) then m (current + j * 8) else m (new + j * 8))
  unfolding copy_entries
  copy_own m zero i j top l u = absurd (omega (arith, l, u))
  copy_own m (suc n) i j top l u = elim (ℕ_discrete i j) [
    | yes same ↦ rw (sym same) (
        copy_other (turn keep current new m i) n (i + 1) (new + i * 8) (inl (omega arith))
        ∙ turn_own m i)
    | no other ↦
        copy_own (turn keep current new m i) n (i + 1) j (omega (arith, top))
          (omega (arith, l, other)) (omega (arith, u))
        ∙ rw
            (
              turn_other m i (current + j * 8) (ground (arith, apart, top, l, u)),
              turn_other m i (new + j * 8) (λ e. omega (arith, e, other)),
            )
            refl
  ]

-- What the new table holds, and that nothing else is written.
pub record Isolated (m : Memory) (current new : ℕ) (m' : Memory) : Type 0 where
  pub kernel_half : (i : ℕ) → 256 ≤ i → i < 512 → m' (new + i * 8) ≡ m (current + i * 8)
  pub lower_half :
      (i : ℕ)
      → i < 256
      → m' (new + i * 8) ≡ (if keep_kernel (m (current + i * 8)) then m (current + i * 8) else 0)
  pub elsewhere : (q : ℕ) → (q < new) ⊎ (new + 4096 ≤ q) → m' q ≡ m q

cleared : (m : Memory) (new q : ℕ) → new ≤ q → q < new + 4096 → clear_frame m new q ≡ 0
cleared m new q l u = ground (arith, l, u)

not_cleared : (m : Memory) (new q : ℕ) → (q < new) ⊎ (new + 4096 ≤ q) → clear_frame m new q ≡ m q
not_cleared m new q h = ground (arith, h)

filled-Isolated :
    (m : Memory) (current new : ℕ)
    → (current + 4096 ≤ new) ⊎ (new + 4096 ≤ current)
    → Isolated m current new (
        copy_entries keep_kernel
          (copy_entries (λ entry. true) (clear_frame m new) current new 256 256)
          current
          new
          256
          0)
filled-Isolated m current new apart =
    let m1 = clear_frame m new in
    let m2 = copy_entries (λ entry. true) m1 current new 256 256 in
    let source =
      λ (i : ℕ) (h : i < 512). not_cleared m new (current + i * 8) (ground (arith, apart, h)) in
    record {
      kernel_half = λ i l u.
          copy_other keep_kernel current new apart m2 256 0 (new + i * 8) (inr (omega (arith, l)))
          ∙ copy_own (λ entry. true) current new apart m1 256 256 i (omega arith) l
              (omega (arith, u))
          ∙ source i u;
      lower_half = λ i u.
          let old : m2 (current + i * 8) ≡ m (current + i * 8) =
            copy_other (λ entry. true) current new apart m1 256 256 (current + i * 8)
              (ground (arith, apart, u))
            ∙ source i (omega (arith, u)) in
          let empty : m2 (new + i * 8) ≡ 0 =
            copy_other (λ entry. true) current new apart m1 256 256 (new + i * 8)
              (inl (omega (arith, u)))
            ∙ cleared m new (new + i * 8) (omega arith) (omega (arith, u)) in
          copy_own keep_kernel current new apart m2 256 0 i (omega arith) (omega arith) u
          ∙ rw (old, empty) refl;
      elsewhere = λ q h.
          copy_other keep_kernel current new apart m2 256 0 q (ground (arith, h))
          ∙ copy_other (λ entry. true) current new apart m1 256 256 q (ground (arith, h))
          ∙ not_cleared m new q h;
    }

-- The frame was clear before: it does not matter to what is promised.
cleared_before :
    (m : Memory) (current new : ℕ) (m' : Memory)
    → (current + 4096 ≤ new) ⊎ (new + 4096 ≤ current)
    → Isolated (clear_frame m new) current new m'
    → Isolated m current new m'
cleared_before m current new m' apart d =
    let source =
      λ (i : ℕ) (h : i < 512). not_cleared m new (current + i * 8) (ground (arith, apart, h)) in
    record {
      kernel_half = λ i l u. d.kernel_half i l u ∙ source i u;
      lower_half = λ i u. d.lower_half i u ∙ rw (source i (omega (arith, u))) refl;
      elsewhere = λ q h. d.elsewhere q h ∙ not_cleared m new q h;
    }

-- What `create_isolated_pml4` promises: no frame and nothing changed, or a new frame.
abbrev pub Isolates :
    BitmapFrameAllocator → Memory → ℕ → Option ℕ × BitmapFrameAllocator × Memory → Type 0
Isolates a m current (none, a', m') = (a' ≡ a) × (m' ≡ m)
Isolates a m current (some new, a', m') = IsValid a' × Isolated m current new m'

fill-Isolates :
    (a : BitmapFrameAllocator) (m : Memory) (c : ℕ)
    → test_bit a c ≡ true
    → (r : Option ℕ × BitmapFrameAllocator) → Allocates a r
    → Isolates a m (c * frame_size) (fill (c * frame_size) (clear_new m r))
fill-Isolates a m c busy (none, a') h = (h.0, refl)
fill-Isolates a m c busy (some new, a') (f, e, takes, first) =
    let other : f ≢ c = λ same. ground (arith, takes.was_free, busy, same) in
    let apart : (c * frame_size + 4096 ≤ new) ⊎ (new + 4096 ≤ c * frame_size) =
      ground (arith, e, other) in
    (
      takes.valid,
      cleared_before m (c * frame_size) new _ apart
          (filled-Isolated (clear_frame m new) (c * frame_size) new apart),
    )

-- On a valid allocator, with the current table in a frame that is in use, a new address space has the
-- upper half of the current table and, of the lower half, the entries that are in use and not the
-- user's, and zero for the others; no word outside the new frame changes. Without a free frame
-- nothing changes.
pub create_isolated_pml4-Isolates :
    (a : BitmapFrameAllocator) (m : Memory) (c : ℕ)
    → IsValid a
    → test_bit a c ≡ true
    → Isolates a m (c * frame_size) (create_isolated_pml4 a m (c * frame_size))
unfolding create_isolated_pml4 system_allocate_frame
create_isolated_pml4-Isolates a m c v busy =
    fill-Isolates a m c busy (allocate_frame a) (allocate_frame-Allocates a v)
