-- ===== src/Reaper/Releases.antt =====
-- `destroy_user_address_space` of src/mm/memory.rs and the reaper of src/task/mod.rs only give back.
use nwin_os.Common.{
  ℕ, ◌+◌, ◌*◌, ◌/◌, ◌≤◌, ◌≡◌, refl, ◌∙◌, ◌⊎◌, inl, inr, arith, true, false, ◌<◌, ap, subst,
  ℕ_discrete,
}
use nwin_os.Common.Outcome.{Outcome, returned, panicked}
use nwin_os.Frames.{BitmapFrameAllocator, deallocate_frame}
use nwin_os.Frames.Laws.{IsValid}
use nwin_os.Frames.Counts.{count_of, Releases, deallocate_frame-Releases}
use nwin_os.Task.{Memory}
use nwin_os.UserMemory.{huge, frame_of, read_entry}
use nwin_os.Reaper.{Space, with_frames, release, set_unused, release_entry, and_go_on, is_owned}

-- The levels of the tables that a walk reads, the first of them at the top.
pub data Level : Type 0 where
  level4 level3 level2 level1 : Level

abbrev pub entries : Level → ℕ
entries level4 = 256
entries _ = 512

-- The tables of the user half, in memory `m`: each but the first is named by an entry that is not zero
-- and has the user bit, and is no large page.
pub data UserTable (m : Memory) (pml4_frame : ℕ) : Level → ℕ → Type 0 where
  top : UserTable m pml4_frame level4 pml4_frame
  below4 :
      (index : ℕ)
      → index < 256
      → is_owned (read_entry m pml4_frame index) ≡ true
      → UserTable m pml4_frame level3 (frame_of (read_entry m pml4_frame index))
  below3 :
      (table index : ℕ)
      → UserTable m pml4_frame level3 table
      → index < 512
      → is_owned (read_entry m table index) ≡ true
      → huge (read_entry m table index) ≡ false
      → UserTable m pml4_frame level2 (frame_of (read_entry m table index))
  below2 :
      (table index : ℕ)
      → UserTable m pml4_frame level2 table
      → index < 512
      → is_owned (read_entry m table index) ≡ true
      → huge (read_entry m table index) ≡ false
      → UserTable m pml4_frame level1 (frame_of (read_entry m table index))

-- The word at `q` is an entry of such a table, not zero and with the user bit.
abbrev pub IsUserEntry : Memory → (pml4_frame q : ℕ) → Type 0
IsUserEntry m pml4_frame q =
    (level : Level) × (table : ℕ) × (index : ℕ) × UserTable m pml4_frame level table
    × (index < entries level)
    × (is_owned (read_entry m table index) ≡ true)
    × (table + index * 8 ≡ q)

abbrev pub owners : Space → (phys_addr : ℕ) → ℕ
owners s phys_addr = count_of s.frames (phys_addr / 4096)

-- The word of the entry is zero in the end.
abbrev pub ZeroAt : ℕ → Outcome Space → Type 0
ZeroAt q panicked = Unit
ZeroAt q (returned s') = s'.memory q ≡ 0

set_unused-ZeroAt :
    (table index : ℕ) (o : Outcome Space) → ZeroAt (table + index * 8) (set_unused table index o)
set_unused-ZeroAt table index panicked = tt
set_unused-ZeroAt table index (returned s) = ground arith

pub release_entry-ZeroAt :
    (table index : ℕ) (o : Outcome Space) → ZeroAt (table + index * 8) (release_entry table index o)
release_entry-ZeroAt table index panicked = tt
release_entry-ZeroAt table index (returned s) =
    set_unused-ZeroAt table index (release (frame_of (read_entry s.memory table index)) s)

module _ (P : ℕ → Type 0) where
  -- A word is as it was, or it is one of `P`, zero now, and the frame that it named has lost an owner.
  abbrev pub Cleared : Space → Space → ℕ → Type 0
  Cleared s s' q =
      (s'.memory q ≡ s.memory q)
      ⊎ ((s'.memory q ≡ 0)
          × P q
          × (owners s' (frame_of (s.memory q)) < owners s (frame_of (s.memory q))))

  pub record GivesBack (s s' : Space) : Type 0 where
    pub valid : IsValid s'.frames
    pub same_total : s'.frames.total_frames ≡ s.frames.total_frames
    pub fewer : (g : ℕ) → count_of s'.frames g ≤ count_of s.frames g
    pub words : (q : ℕ) → Cleared s s' q

  -- After some entries were given back, the release of a frame was asked for that the allocator does
  -- not have, or that has no owner left.
  abbrev pub Refuses : Space → Type 0
  Refuses s =
      (s' : Space) × GivesBack s s'
      × (f : ℕ) × ((s'.frames.total_frames ≤ f) ⊎ (count_of s'.frames f ≡ 0))

  abbrev pub OnlyGivesBack : Space → Outcome Space → Type 0
  OnlyGivesBack s panicked = Refuses s
  OnlyGivesBack s (returned s') = GivesBack s s'

  pub unchanged : (s : Space) → IsValid s.frames → GivesBack s s
  unchanged s v = record {
    valid = v;
    same_total = refl;
    fewer = λ g. omega arith;
    words = λ q. inl refl;
  }

  twice-Cleared :
      (s s' s'' : Space) (q : ℕ)
      → ((g : ℕ) → count_of s'.frames g ≤ count_of s.frames g)
      → ((g : ℕ) → count_of s''.frames g ≤ count_of s'.frames g)
      → Cleared s s' q
      → Cleared s' s'' q
      → Cleared s s'' q
  twice-Cleared s s' s'' q k k' (inl e) (inl e') = inl (e' ∙ e)
  twice-Cleared s s' s'' q k k' (inl e) (inr (z, spot, less)) =
      let less' : owners s'' (frame_of (s.memory q)) < owners s' (frame_of (s.memory q)) =
        subst (λ w. owners s'' (frame_of w) < owners s' (frame_of w)) e less in
      inr (z, spot, omega (arith, less', k (frame_of (s.memory q) / 4096)))
  twice-Cleared s s' s'' q k k' (inr (z, spot, less)) (inl e') =
      inr (e' ∙ z, spot, omega (arith, less, k' (frame_of (s.memory q) / 4096)))
  twice-Cleared s s' s'' q k k' (inr (z, spot, less)) (inr (z', spot', less')) =
      inr (z', spot, omega (arith, less, k' (frame_of (s.memory q) / 4096)))

  pub twice : (s s' s'' : Space) → GivesBack s s' → GivesBack s' s'' → GivesBack s s''
  twice s s' s'' h h' = record {
    valid = h'.valid;
    same_total = h'.same_total ∙ h.same_total;
    fewer = λ g. omega (arith, h.fewer g, h'.fewer g);
    words = λ q. twice-Cleared s s' s'' q h.fewer h'.fewer (h.words q) (h'.words q);
  }

  pub also :
      (s s' : Space) (o : Outcome Space) → GivesBack s s' → OnlyGivesBack s' o → OnlyGivesBack s o
  also s s' panicked h (s'', h', f, refused) = (s'', twice s s' s'' h h', f, refused)
  also s s' (returned s'') h h' = twice s s' s'' h h'

  -- A release takes one owner away and leaves memory alone.
  abbrev pub Released : (phys_addr : ℕ) → Space → Outcome Space → Type 0
  Released phys_addr s panicked = Refuses s
  Released phys_addr s (returned s') =
      GivesBack s s' × (owners s' phys_addr < owners s phys_addr) × (s'.memory ≡ s.memory)

  pub release-Released :
      (phys_addr : ℕ) (s : Space) → IsValid s.frames → Released phys_addr s (release phys_addr s)
  unfolding release
  release-Released phys_addr s v =
      from (deallocate_frame s.frames phys_addr) (deallocate_frame-Releases s.frames phys_addr v)
    where
      from :
          (o : Outcome BitmapFrameAllocator)
          → Releases s.frames (phys_addr / 4096) o
          → Released phys_addr s (with_frames s o)
      from panicked r = (s, unchanged s v, phys_addr / 4096, r)
      from (returned frames) (inside, busy, r) = (
        record {
          valid = r.valid;
          same_total = r.same_total;
          fewer = λ g. ground (arith, r.counts g);
          words = λ q. inl refl;
        },
        ground (arith, busy, r.counts (phys_addr / 4096)),
        refl,
      )

  set_unused-OnlyGivesBack :
      (s : Space) (table index : ℕ) (o : Outcome Space)
      → P (table + index * 8)
      → Released (frame_of (read_entry s.memory table index)) s o
      → OnlyGivesBack s (set_unused table index o)
  set_unused-OnlyGivesBack s table index panicked spot h = h
  set_unused-OnlyGivesBack s table index (returned s') spot (h, less, same) = record {
    valid = h.valid;
    same_total = h.same_total;
    fewer = h.fewer;
    words = λ q. elim (ℕ_discrete (table + index * 8) q) [
      | yes here ↦ inr (
        ground (arith, here),
        subst P here spot,
        subst (λ a. owners s' (frame_of (s.memory a)) < owners s (frame_of (s.memory a))) here less,
      )
      | no there ↦ inl (ground (arith, there, ap (λ (m : Memory). m q) same))
    ];
  }

  pub release_entry-OnlyGivesBack :
      (s : Space) (table index : ℕ) (o : Outcome Space)
      → P (table + index * 8)
      → OnlyGivesBack s o
      → OnlyGivesBack s (release_entry table index o)
  release_entry-OnlyGivesBack s table index panicked spot h = h
  release_entry-OnlyGivesBack s table index (returned s') spot h =
      let phys_addr = frame_of (read_entry s'.memory table index) in
      also s s' (set_unused table index (release phys_addr s')) h (
        set_unused-OnlyGivesBack s' table index (release phys_addr s') spot
          (release-Released phys_addr s' h.valid))

  pub stays_zero : (s s' : Space) (q : ℕ) → GivesBack s s' → s.memory q ≡ 0 → s'.memory q ≡ 0
  stays_zero s s' q h z = ground (arith, h.words q, z)

  pub then-OnlyGivesBack :
      (s : Space) (go_on : Space → Outcome Space) (o : Outcome Space)
      → ((s' : Space) → GivesBack s s' → OnlyGivesBack s' (go_on s'))
      → OnlyGivesBack s o
      → OnlyGivesBack s (and_go_on go_on o)
  then-OnlyGivesBack s go_on panicked all h = h
  then-OnlyGivesBack s go_on (returned s') all h = also s s' (go_on s') h (all s' h)
