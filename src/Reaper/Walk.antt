-- ===== src/Reaper/Walk.antt =====
-- The walk of `destroy_user_address_space` of src/mm/memory.rs over the tables of the user half.
use nwin_os.Common.{
  ℕ, zero, suc, ◌+◌, ◌*◌, ◌≤◌, ◌<◌, ◌≡◌, ◌≢◌, refl, sym, subst, ◌∙◌, Bool, true, false, ◌⊎◌, inl,
  inr, Bool-cases, ℕ_discrete, arith,
}
use nwin_os.Common.Outcome.{Outcome, returned, panicked}
use nwin_os.Frames.Laws.{IsValid}
use nwin_os.Task.{Memory}
use nwin_os.UserMemory.{huge, frame_of, read_entry}
use nwin_os.Reaper.{
  Space, release_entry, and_go_on, is_owned, clear_table, below_level1, below_level2, below_level3,
  below_level4,
}
use nwin_os.Reaper.Releases.{
  level3, level2, level1, UserTable, below4, below3, below2, IsUserEntry, GivesBack, OnlyGivesBack,
  ZeroAt, Cleared, unchanged, release_entry-OnlyGivesBack, release_entry-ZeroAt, stays_zero,
  then-OnlyGivesBack,
}

not_owned_zero : (w : ℕ) → is_owned w ≡ true → w ≢ 0
not_owned_zero w h z = ground (arith, h, z)

not_both : {b : Bool} → b ≡ true → b ≢ false
not_both h k = ground (arith, h, k)

module _ (m0 : Memory) (pml4_frame : ℕ) where
  abbrev P : ℕ → Type 0
  P = IsUserEntry m0 pml4_frame

  -- A word that is no longer the first one is zero.
  abbrev Since : Space → Type 0
  Since s = (q : ℕ) → (s.memory q ≡ m0 q) ⊎ (s.memory q ≡ 0)

  Since-GivesBack : (s s' : Space) → Since s → GivesBack P s s' → Since s'
  Since-GivesBack s s' since h q = from (since q) (h.words q)
    where
      from :
          (s.memory q ≡ m0 q) ⊎ (s.memory q ≡ 0)
          → Cleared P s s' q
          → (s'.memory q ≡ m0 q) ⊎ (s'.memory q ≡ 0)
      from (inl e) (inl e') = inl (e' ∙ e)
      from (inr z) (inl e') = inr (e' ∙ z)
      from b (inr z') = inr z'.0

  original : (s : Space) (q : ℕ) → Since s → is_owned (s.memory q) ≡ true → s.memory q ≡ m0 q
  original s q since h = elim (since q) [
    | inl same ↦ same
    | inr z ↦ absurd (not_owned_zero (s.memory q) h z)
  ]

  abbrev pub AllGiveBack : (Space → Outcome Space) → Type 0
  AllGiveBack f = (s : Space) → IsValid s.frames → Since s → OnlyGivesBack P s (f s)

  module _ (below : ℕ → Space → Outcome Space) (table limit : ℕ)
      (spot : (i : ℕ) → i < limit → is_owned (read_entry m0 table i) ≡ true → P (table + i * 8))
      (down : (i : ℕ)
        → i < limit
        → is_owned (read_entry m0 table i) ≡ true
        → AllGiveBack (below (read_entry m0 table i))) where
    -- One entry of the user's, with what lies below it.
    entry-OnlyGivesBack :
        (index : ℕ) (s : Space)
        → index < limit
        → IsValid s.frames
        → Since s
        → is_owned (read_entry s.memory table index) ≡ true
        → OnlyGivesBack P s (release_entry table index (below (read_entry s.memory table index) s))
    entry-OnlyGivesBack index s h v since owned =
        let same = original s (table + index * 8) since owned in
        let was_owned : is_owned (read_entry m0 table index) ≡ true =
          subst (λ w. is_owned w ≡ true) same owned in
        release_entry-OnlyGivesBack P s table index _ (spot index h was_owned)
          (subst (λ w. AllGiveBack (below w)) (sym same) (down index h was_owned) s v since)

    pub clear_table-AllGiveBack :
        (n index : ℕ) → index + n ≤ limit → AllGiveBack (clear_table below table n index)
    unfolding clear_table
    clear_table-AllGiveBack zero index h s v since = unchanged P s v
    clear_table-AllGiveBack (suc n) index h s v since =
        elim (Bool-cases (is_owned (read_entry s.memory table index))) [
          | inr kept ↦ rw kept (clear_table-AllGiveBack n (index + 1) (omega (arith, h)) s v since)
          | inl owned ↦ rw owned (
              then-OnlyGivesBack P s (clear_table below table n (index + 1)) _
                (λ s' g.
                  clear_table-AllGiveBack n (index + 1) (omega (arith, h)) s' g.valid
                    (Since-GivesBack s s' since g))
                (entry-OnlyGivesBack index s (omega (arith, h)) v since owned))
        ]

    keeps_zero :
        (s : Space) (q : ℕ) (o : Outcome Space) → s.memory q ≡ 0 → OnlyGivesBack P s o → ZeroAt q o
    keeps_zero s q panicked z g = tt
    keeps_zero s q (returned s') z g = stays_zero P s s' q g z

    abbrev pub ClearsFrom : (n index j : ℕ) → Space → Type 0
    ClearsFrom n index j s =
        is_owned (read_entry s.memory table j) ≡ true
        → ZeroAt (table + j * 8) (clear_table below table n index s)

    after_entry :
        (n index j : ℕ) (s : Space) (o : Outcome Space)
        → index + suc n ≤ limit
        → Since s
        → OnlyGivesBack P s o
        → (index ≡ j → ZeroAt (table + j * 8) o)
        → ((s' : Space) → IsValid s'.frames → Since s' → index ≢ j → ClearsFrom n (index + 1) j s')
        → is_owned (read_entry s.memory table j) ≡ true
        → ZeroAt (table + j * 8) (and_go_on (clear_table below table n (index + 1)) o)
    unfolding ClearsFrom
    after_entry n index j s panicked h since g now later owned = tt
    after_entry n index j s (returned s') h since g now later owned =
        let since' = Since-GivesBack s s' since g in
        let rest = clear_table-AllGiveBack n (index + 1) (omega (arith, h)) s' g.valid since' in
        elim (ℕ_discrete index j) [
          | yes here ↦ keeps_zero s' (table + j * 8) _ (now here) rest
          | no there ↦ elim (g.words (table + j * 8)) [
            | inl same ↦
                later s' g.valid since' there (subst (λ w. is_owned w ≡ true) (sym same) owned)
            | inr gone ↦ keeps_zero s' (table + j * 8) _ gone.0 rest
          ]
        ]

    pub clear_table_clears :
        (n index j : ℕ) (s : Space)
        → index + n ≤ limit
        → index ≤ j
        → j < index + n
        → IsValid s.frames
        → Since s
        → ClearsFrom n index j s
    unfolding clear_table ClearsFrom
    clear_table_clears zero index j s h lo hi v since owned = absurd (omega (arith, lo, hi))
    clear_table_clears (suc n) index j s h lo hi v since owned =
        elim (Bool-cases (is_owned (read_entry s.memory table index))) [
          | inr kept ↦ rw kept (
              clear_table_clears n (index + 1) j s (omega (arith, h))
                (omega (arith, lo, other kept)) (omega (arith, hi)) v since owned)
          | inl mine ↦ rw mine (
              after_entry n index j s _ h since
                (entry-OnlyGivesBack index s (omega (arith, h)) v since mine)
                (λ here.
                  subst
                    (λ i.
                      ZeroAt (table + i * 8)
                        (release_entry table index (below (read_entry s.memory table index) s)))
                    here
                    (release_entry-ZeroAt table index (below (read_entry s.memory table index) s)))
                (λ s' v' since' there.
                  clear_table_clears n (index + 1) j s' (omega (arith, h))
                    (omega (arith, lo, there)) (omega (arith, hi)) v' since')
                owned)
        ]
      where
        other : is_owned (read_entry s.memory table index) ≡ false → index ≢ j
        other kept same =
            not_both (subst (λ i. is_owned (read_entry s.memory table i) ≡ true) (sym same) owned)
              kept

  -- The tables of the levels, from the lowest on.
  level2-AllGiveBack :
      (table : ℕ)
      → UserTable m0 pml4_frame level2 table
      → (i : ℕ) → i < 512
      → is_owned (read_entry m0 table i) ≡ true
      → AllGiveBack (below_level2 (read_entry m0 table i))
  level2-AllGiveBack table t i h owned s v since =
      elim (Bool-cases (huge (read_entry m0 table i))) [
        | inl large ↦ rw large (unchanged P s v)
        | inr small ↦
            let t1 = below2 table i t h owned small in
            rw small (
              clear_table-AllGiveBack below_level1 (frame_of (read_entry m0 table i)) 512
                (λ j hj owned'. (level1, frame_of (read_entry m0 table i), j, t1, hj, owned', refl))
                (λ j hj owned' s' v' since'. unchanged P s' v') 512 0 (omega arith) s v since)
      ]

  level3-AllGiveBack :
      (table : ℕ)
      → UserTable m0 pml4_frame level3 table
      → (i : ℕ) → i < 512
      → is_owned (read_entry m0 table i) ≡ true
      → AllGiveBack (below_level3 (read_entry m0 table i))
  level3-AllGiveBack table t i h owned s v since =
      elim (Bool-cases (huge (read_entry m0 table i))) [
        | inl large ↦ rw large (unchanged P s v)
        | inr small ↦
            let t2 = below3 table i t h owned small in
            rw small (
              clear_table-AllGiveBack below_level2 (frame_of (read_entry m0 table i)) 512
                (λ j hj owned'. (level2, frame_of (read_entry m0 table i), j, t2, hj, owned', refl))
                (level2-AllGiveBack (frame_of (read_entry m0 table i)) t2) 512 0 (omega arith) s v
                since)
      ]

  pub level4-AllGiveBack :
      (i : ℕ)
      → i < 256
      → is_owned (read_entry m0 pml4_frame i) ≡ true
      → AllGiveBack (below_level4 (read_entry m0 pml4_frame i))
  level4-AllGiveBack i h owned =
      let t3 = below4 i h owned in
      clear_table-AllGiveBack below_level3 (frame_of (read_entry m0 pml4_frame i)) 512
        (λ j hj owned'. (level3, frame_of (read_entry m0 pml4_frame i), j, t3, hj, owned', refl))
        (level3-AllGiveBack (frame_of (read_entry m0 pml4_frame i)) t3) 512 0 (omega arith)
