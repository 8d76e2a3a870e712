-- ===== src/Ext4/Allocation/Reserves.antt =====
-- What `allocate_inode` and `allocate_block` do to the disk.
use nwin_os.Common.{
  ℕ, ◌+◌, ◌*◌, ◌/◌, ◌%◌, ◌^◌, ◌≤◌, ◌<◌, ◌≡◌, ◌≢◌, refl, sym, ap, ap₂, ◌∙◌, subst, ◌⊎◌, inl, inr,
  Bool, true, false, ◌||◌, Option, none, some, List, length, get_or, set, get_or-set_self,
  get_or-set_ne, ◌==◌, ==_ne, lt→ltb, arith, ℕ_discrete, dec_lt,
}
use nwin_os.Common.Bits.{has_bit, set_bit, has_bit-set_bit}
use nwin_os.Common.Outcome.{returned, panicked, ok, err}
use nwin_os.Error.{FsError, block_write}
use nwin_os.Mbr.{byte}
use nwin_os.Ext4.{Ext4BlockGroupDescriptor, group_descriptor_at}
use nwin_os.Ext4.Allocation.{is_used, FirstFree, find_free-FirstFree}
use nwin_os.Ext4.Device.{BlockDevice, IsStorage, Reply, after, stored}
use nwin_os.Ext4.Volume.{Ext4Volume, block_size, bgd_sector, find_free, reserve, allocate}

-- Setting bit `k` of byte `j` uses that bit, and frees or uses no other.
module _ (bitmap : List ℕ) (j k : ℕ) (inside : j < length bitmap) (bit : k < 8)
    (bytes : (i : ℕ) → get_or bitmap i 0 < 256) where
  marked : List ℕ
  marked = set bitmap j (set_bit (byte bitmap j) k)

  is_used-marked : (n : ℕ) → is_used marked n ≡ (j * 8 + k == n || is_used bitmap n)
  unfolding marked
  is_used-marked n = elim (ℕ_discrete j (n / 8)) [
    | yes here ↦
        ap (λ b. has_bit b (n % 8))
          (ap (λ i. byte (set bitmap j (set_bit (byte bitmap j) k)) i) (sym here)
            ∙ get_or-set_self bitmap j (set_bit (byte bitmap j) k) 0 inside)
        ∙ has_bit-set_bit (byte bitmap j) k (n % 8) (bytes j) bit (omega arith)
        ∙ ap₂ (λ p i. p || has_bit (byte bitmap i) (n % 8)) (same_bit here) here
    | no there ↦
        ap (λ b. has_bit b (n % 8))
          (get_or-set_ne bitmap j (n / 8) (set_bit (byte bitmap j) k) 0 there)
        ∙ ap (λ p. p || is_used bitmap n) (sym (==_ne (j * 8 + k) n (omega (arith, bit, there))))
  ]
    where
      same_bit : j ≡ n / 8 → (k == n % 8) ≡ (j * 8 + k == n)
      same_bit here = ground (arith, here, bit)

module _ {D : Type 0} (dev : BlockDevice D) where
  -- The bitmap of group 0, as it is on the disk: the sector that holds the beginning of it, which is
  -- not the one of the descriptors.
  pub record IsBitmap (bitmap_block : Ext4BlockGroupDescriptor → ℕ) (v : Ext4Volume) (d : D) (s : ℕ)
      (bitmap : List ℕ) : Type 0 where
    pub size : ℕ
    pub table : List ℕ
    pub sized : block_size v.super_block ≡ returned size
    pub table_read : dev.read_block d (bgd_sector v size) ≡ some table
    pub descriptor_fits : bgd_sector v size < 2 ^ 64
    pub sector_eq : v.start_lba + bitmap_block (group_descriptor_at table 0) * (size / 512) ≡ s
    pub sector_fits : s < 2 ^ 64
    pub bitmap_read : dev.read_block d s ≡ some bitmap
    pub apart : bgd_sector v size ≢ s

  module _ (bitmap_block : Ext4BlockGroupDescriptor → ℕ) (first : ℕ) (exhausted : FsError) where
    -- The lowest free number, marked as used: the disk is otherwise as it was.
    pub record Takes (v : Ext4Volume) (s : ℕ) (bitmap : List ℕ) (d : D) (n : ℕ) (d' : D)
        : Type 0 where
      pub index : ℕ
      pub number : n ≡ index + first
      pub index_lt : index < 4096
      pub was_free : is_used bitmap index ≡ false
      pub lowest : (m : ℕ) → m < index → is_used bitmap m ≡ true
      pub bitmap' : List ℕ
      pub is_bitmap : IsBitmap bitmap_block v d' s bitmap'
      pub now_used : (m : ℕ) → is_used bitmap' m ≡ (index == m || is_used bitmap m)
      pub others_kept : (t : ℕ) → t ≢ s → dev.read_block d' t ≡ dev.read_block d t

    -- How an allocation ends.
    abbrev pub Reserves : Ext4Volume → ℕ → List ℕ → D → Reply D ℕ → Type 0
    Reserves v s bitmap d panicked = ⊥
    Reserves v s bitmap d (returned (ok n, d')) = Takes v s bitmap d n d'
    Reserves v s bitmap d (returned (err e, d')) =
        (e ≡ exhausted × d' ≡ d × ((m : ℕ) → m < 4096 → is_used bitmap m ≡ true))
        ⊎ (e ≡ block_write)

    module _ (storage : IsStorage dev) (v : Ext4Volume) (s : ℕ) (bitmap : List ℕ) (d : D)
        (at : IsBitmap bitmap_block v d s bitmap) where
      bitmap_bytes : (i : ℕ) → get_or bitmap i 0 < 256
      bitmap_bytes = storage.block_bytes d s bitmap at.bitmap_read

      bitmap_sized : length bitmap ≡ 512
      bitmap_sized = storage.block_sized d s bitmap at.bitmap_read

      all_used :
          ((j k : ℕ) → j < length bitmap → k < 8 → has_bit (byte bitmap j) k ≡ true)
          → (m : ℕ) → m < 4096
          → is_used bitmap m ≡ true
      all_used all m h = all (m / 8) (m % 8) (omega (arith, h, bitmap_sized)) (omega arith)

      takes :
          (j k : ℕ) (d' : D)
          → FirstFree bitmap 0 (some (j, k))
          → dev.write_block d s (set bitmap j (set_bit (byte bitmap j) k)) ≡ (true, d')
          → Takes v s bitmap d (j * 8 + k + first) d'
      unfolding marked
      takes j k d' (j', place, inside, bit, free, all, low) w = record {
        index = j * 8 + k;
        number = refl;
        index_lt = omega (arith, here, inside, bit, bitmap_sized);
        was_free =
            ap₂ (λ i b. has_bit (byte bitmap i) b) (omega (arith, here, bit)) (omega (arith, bit))
            ∙ free;
        lowest = lower;
        bitmap' = marked bitmap j k inside_j bit bitmap_bytes;
        is_bitmap = record {
          size = at.size;
          table = at.table;
          sized = at.sized;
          table_read = kept (bgd_sector v at.size) at.apart ∙ at.table_read;
          descriptor_fits = at.descriptor_fits;
          sector_eq = at.sector_eq;
          sector_fits = at.sector_fits;
          bitmap_read = reread;
          apart = at.apart;
        };
        now_used = is_used-marked bitmap j k inside_j bit bitmap_bytes;
        others_kept = kept;
      }
        where
          here : j ≡ j'
          here = omega (arith, place)

          inside_j : j < length bitmap
          inside_j = omega (arith, here, inside)

          kept : (t : ℕ) → t ≢ s → dev.read_block d' t ≡ dev.read_block d t
          kept t ne =
              subst (λ r. dev.read_block r.1 t ≡ dev.read_block d t) w
                (storage.kept d s t (set bitmap j (set_bit (byte bitmap j) k)) ne)

          reread : dev.read_block d' s ≡ some (set bitmap j (set_bit (byte bitmap j) k))
          reread =
              subst (λ r. dev.read_block r.1 s ≡ some (set bitmap j (set_bit (byte bitmap j) k))) w
                (storage.written d s (set bitmap j (set_bit (byte bitmap j) k)) (ap (λ r. r.0) w))

          lower : (m : ℕ) → m < j * 8 + k → is_used bitmap m ≡ true
          lower m h = elim (ℕ_discrete j' (m / 8)) [
            | yes same ↦
                ap (λ i. has_bit (byte bitmap i) (m % 8)) (sym same)
                ∙ low (m % 8) (omega (arith, h, here, same))
            | no other ↦ all (m / 8) (m % 8) (omega (arith, h, here, other, bit)) (omega arith)
          ]

      stored-Reserves :
          (j k : ℕ) (r : Bool × D)
          → FirstFree bitmap 0 (some (j, k))
          → dev.write_block d s (set bitmap j (set_bit (byte bitmap j) k)) ≡ r
          → Reserves v s bitmap d (after (stored r) (λ u d'. returned (ok (j * 8 + k + first), d')))
      stored-Reserves j k (true, d') free w = takes j k d' free w
      stored-Reserves j k (false, d') free w = inr refl

      reserve-Reserves :
          (f : Option (ℕ × ℕ))
          → FirstFree bitmap 0 f
          → Reserves v s bitmap d (reserve dev s first exhausted bitmap f d)
      reserve-Reserves none all = inl (refl, refl, all_used all)
      reserve-Reserves (some (j, k)) free = stored-Reserves j k _ free refl

      -- On a device that keeps what is written, whose bitmap of group 0 is in sector `s`, an allocation
      -- does not panic. It takes the lowest number whose bit is clear in that sector, and sets its bit
      -- and no other bit of the disk; or it reports exhaustion, leaves the disk as it was, and all the
      -- 4096 bits are set; or the write fails.
      pub allocate-Reserves : Reserves v s bitmap d (allocate dev bitmap_block first exhausted v d)
      unfolding allocate
      allocate-Reserves =
          rw
            (
              at.sized,
              lt→ltb _ _ at.descriptor_fits,
              at.table_read,
              at.sector_eq,
              lt→ltb _ _ at.sector_fits,
              at.bitmap_read,
            )
            (reserve-Reserves (find_free bitmap 0) (find_free-FirstFree bitmap 0))

    -- Two allocations in turn that both succeed give different numbers.
    pub allocate_twice :
        (storage : IsStorage dev) (v : Ext4Volume) (s : ℕ) (bitmap : List ℕ) (d d' d'' : D)
        (n n' : ℕ)
        → IsBitmap bitmap_block v d s bitmap
        → allocate dev bitmap_block first exhausted v d ≡ returned (ok n, d')
        → allocate dev bitmap_block first exhausted v d' ≡ returned (ok n', d'')
        → n < n'
    allocate_twice storage v s bitmap d d' d'' n n' at e e' =
        let one : Takes v s bitmap d n d' =
          subst (Reserves v s bitmap d) e (allocate-Reserves storage v s bitmap d at) in
        let two : Takes v s one.bitmap' d' n' d'' =
          subst (Reserves v s one.bitmap' d') e'
            (allocate-Reserves storage v s one.bitmap' d' one.is_bitmap) in
        later one two
      where
        used_now :
            (one : Takes v s bitmap d n d') (m : ℕ) → m ≤ one.index → is_used one.bitmap' m ≡ true
        used_now one m h = elim (ℕ_discrete one.index m) [
          | yes same ↦ one.now_used m ∙ ground (arith, same)
          | no other ↦ one.now_used m ∙ ground (arith, one.lowest m (omega (arith, h, other)))
        ]

        true-false : (b : Bool) → b ≡ true → b ≡ false → ⊥
        true-false b t f = cc

        later : (one : Takes v s bitmap d n d') → Takes v s one.bitmap' d' n' d'' → n < n'
        later one two = elim (dec_lt one.index two.index) [
          | yes before ↦ omega (arith, before, one.number, two.number)
          | no behind ↦ absurd (
              true-false (is_used one.bitmap' two.index)
                (used_now one two.index (omega (arith, behind))) two.was_free)
        ]
