-- ===== src/Ext4/Inodes.antt =====
-- Inodes on the disk: what `write_inode` writes is what `read_inode` reads.
use nwin_os.Common.{
  ℕ, ◌+◌, ◌-◌, ◌*◌, ◌/◌, ◌%◌, ◌^◌, ◌≤◌, ◌<◌, ◌≡◌, ◌≢◌, refl, ap, ◌∙◌, Bool, true, false, Option,
  none, some, List, ◌++◌, take, drop, append_assoc, length, length-append, get_or, subst, ◌⊎◌, inl,
  inr, lt→ltb, arith,
}
use nwin_os.Common.Outcome.{returned, panicked, ok, err}
use nwin_os.Elf.{read_le}
use nwin_os.Error.{block_read, block_write}
use nwin_os.Ext4.{Ext4Inode, inode_bytes, inode_at, le, field, group_descriptor_at}
use nwin_os.Ext4.Device.{BlockDevice, IsStorage, Reply, stored}
use nwin_os.Ext4.Slices.{
  drop_front, take_front, drop-overwrite, get_or-overwrite_before, get_or-overwrite_after,
  two_bytes, four_bytes,
}
use nwin_os.Ext4.Volume.{
  Ext4Volume, block_size, is_out_of_range, divisor, bgd_sector, absolute_offset, overwrite, locate,
  read_inode, write_inode,
}

-- The numbers fit their fields.
pub record Fits (i : Ext4Inode) : Type 0 where
  pub mode_fits : i.i_mode < 2 ^ 16
  pub uid_fits : i.i_uid < 2 ^ 16
  pub size_lo_fits : i.i_size_lo < 2 ^ 32
  pub atime_fits : i.i_atime < 2 ^ 32
  pub ctime_fits : i.i_ctime < 2 ^ 32
  pub mtime_fits : i.i_mtime < 2 ^ 32
  pub dtime_fits : i.i_dtime < 2 ^ 32
  pub gid_fits : i.i_gid < 2 ^ 16
  pub links_count_fits : i.i_links_count < 2 ^ 16
  pub blocks_lo_fits : i.i_blocks_lo < 2 ^ 32
  pub flags_fits : i.i_flags < 2 ^ 32
  pub osd1_fits : i.i_osd1 < 2 ^ 32
  pub block_fits : length i.i_block ≡ 60
  pub generation_fits : i.i_generation < 2 ^ 32
  pub file_acl_lo_fits : i.i_file_acl_lo < 2 ^ 32
  pub size_hi_fits : i.i_size_hi < 2 ^ 32
  pub obso_faddr_fits : i.i_obso_faddr < 2 ^ 32

module _ (i : Ext4Inode) (fits : Fits i) where
  tail_bytes : List ℕ → List ℕ
  tail_bytes rest =
      le 4 i.i_generation
      ++ (le 4 i.i_file_acl_lo ++ (le 4 i.i_size_hi ++ (le 4 i.i_obso_faddr ++ rest)))

  numbers : List ℕ
  numbers =
      le 4 i.i_generation ++ (le 4 i.i_file_acl_lo ++ (le 4 i.i_size_hi ++ le 4 i.i_obso_faddr))

  block_of : (rest : List ℕ) → take 60 ((i.i_block ++ numbers) ++ rest) ≡ i.i_block
  block_of rest =
      ap (take 60) (append_assoc i.i_block numbers rest)
      ∙ take_front 60 i.i_block (numbers ++ rest) fits.block_fits

  tail_of : (rest : List ℕ) → drop 60 ((i.i_block ++ numbers) ++ rest) ≡ tail_bytes rest
  unfolding numbers tail_bytes
  tail_of rest =
      ap (drop 60) (append_assoc i.i_block numbers rest)
      ∙ drop_front 60 i.i_block (numbers ++ rest) fits.block_fits

  -- An inode at the front of a list of bytes.
  inode_at-front : (rest : List ℕ) → inode_at (inode_bytes i ++ rest) 0 ≡ i
  unfolding inode_at inode_bytes read_le numbers tail_bytes
  inode_at-front rest = λ t. record {
    i_mode = two_bytes i.i_mode fits.mode_fits t;
    i_uid = two_bytes i.i_uid fits.uid_fits t;
    i_size_lo = four_bytes i.i_size_lo fits.size_lo_fits t;
    i_atime = four_bytes i.i_atime fits.atime_fits t;
    i_ctime = four_bytes i.i_ctime fits.ctime_fits t;
    i_mtime = four_bytes i.i_mtime fits.mtime_fits t;
    i_dtime = four_bytes i.i_dtime fits.dtime_fits t;
    i_gid = two_bytes i.i_gid fits.gid_fits t;
    i_links_count = two_bytes i.i_links_count fits.links_count_fits t;
    i_blocks_lo = four_bytes i.i_blocks_lo fits.blocks_lo_fits t;
    i_flags = four_bytes i.i_flags fits.flags_fits t;
    i_osd1 = four_bytes i.i_osd1 fits.osd1_fits t;
    i_block = block_of rest t;
    i_generation =
        (ap (λ z. field z 0 4) (tail_of rest) ∙ four_bytes i.i_generation fits.generation_fits) t;
    i_file_acl_lo =
        (ap (λ z. field z 4 4) (tail_of rest) ∙ four_bytes i.i_file_acl_lo fits.file_acl_lo_fits) t;
    i_size_hi = (ap (λ z. field z 8 4) (tail_of rest) ∙ four_bytes i.i_size_hi fits.size_hi_fits) t;
    i_obso_faddr =
        (ap (λ z. field z 12 4) (tail_of rest) ∙ four_bytes i.i_obso_faddr fits.obso_faddr_fits) t;
  }

length-inode_bytes : (i : Ext4Inode) → Fits i → length (inode_bytes i) ≡ 116
unfolding inode_bytes
length-inode_bytes i fits = omega (
  arith,
  fits.block_fits,
  length-append i.i_block
      (le 4 i.i_generation ++ (le 4 i.i_file_acl_lo ++ (le 4 i.i_size_hi ++ le 4 i.i_obso_faddr))),
)

inode_at-overwrite :
    (i : Ext4Inode)
    → Fits i
    → (b : List ℕ) (o : ℕ) → o ≤ length b
    → inode_at (overwrite b o (inode_bytes i)) o ≡ i
unfolding inode_at
inode_at-overwrite i fits b o inside =
    ap (λ z. inode_at z 0) (drop-overwrite b o (inode_bytes i) inside) ∙ inode_at-front i fits _

module _ {D : Type 0} (dev : BlockDevice D) where
  -- Inode `n` lies in sector `s` from byte `o` on, by the descriptor of its group as it is on the
  -- disk, and that sector is not the one of the descriptors.
  pub record IsLocated (v : Ext4Volume) (n : ℕ) (d : D) (s o : ℕ) : Type 0 where
    pub size : ℕ
    pub per_group : ℕ
    pub table : List ℕ
    pub sized : block_size v.super_block ≡ returned size
    pub in_range : is_out_of_range v n ≡ false
    pub grouped : divisor v.super_block.s_inodes_per_group ≡ returned per_group
    pub table_read : dev.read_block d (bgd_sector v size) ≡ some table
    pub descriptor_fits : bgd_sector v size < 2 ^ 64
    pub offset_fits :
        absolute_offset v size
          (group_descriptor_at table ((n - 1) / per_group * 32 % 512)).bg_inode_table_lo
          ((n - 1) % per_group)
        < 2 ^ 64
    pub sector_fits : s < 2 ^ 64
    pub sector_eq :
        v.start_lba
          + absolute_offset v size
              (group_descriptor_at table ((n - 1) / per_group * 32 % 512)).bg_inode_table_lo
              ((n - 1) % per_group)
            / 512
        ≡ s
    pub place_eq :
        absolute_offset v size
            (group_descriptor_at table ((n - 1) / per_group * 32 % 512)).bg_inode_table_lo
            ((n - 1) % per_group)
          % 512
        ≡ o
    pub apart : bgd_sector v size ≢ s

  module _ (v : Ext4Volume) (n : ℕ) (s o : ℕ) where
    locate-returns : (d : D) → IsLocated v n d s o → locate dev v n d ≡ returned (ok (s, o), d)
    unfolding locate
    locate-returns d at =
        rw
          (
            at.in_range,
            at.sized,
            at.grouped,
            lt→ltb _ _ at.descriptor_fits,
            at.table_read,
            lt→ltb _ _ at.offset_fits,
            at.sector_eq,
            lt→ltb _ _ at.sector_fits,
            at.place_eq,
          )
          refl

    pub IsLocated-moved :
        (d d' : D) (at : IsLocated v n d s o)
        → dev.read_block d' (bgd_sector v at.size) ≡ dev.read_block d (bgd_sector v at.size)
        → IsLocated v n d' s o
    IsLocated-moved d d' at same = record {
      size = at.size;
      per_group = at.per_group;
      table = at.table;
      sized = at.sized;
      in_range = at.in_range;
      grouped = at.grouped;
      table_read = same ∙ at.table_read;
      descriptor_fits = at.descriptor_fits;
      offset_fits = at.offset_fits;
      sector_fits = at.sector_fits;
      sector_eq = at.sector_eq;
      place_eq = at.place_eq;
      apart = at.apart;
    }

    -- An inode that is located is read from its place.
    pub read_located :
        (d' : D) (b : List ℕ)
        → IsLocated v n d' s o
        → dev.read_block d' s ≡ some b
        → read_inode dev v n d' ≡ returned (ok (inode_at b o), d')
    unfolding read_inode
    read_located d' b at' e = rw (locate-returns d' at', e) refl

    place-lt : (d : D) → IsLocated v n d s o → o < 512
    place-lt d at = subst (λ p. p < 512) at.place_eq (omega arith)

  -- What writing inode `n` makes of the disk: the inode is read back, no other sector has changed, and
  -- no other byte of its own.
  pub record Saves (v : Ext4Volume) (n : ℕ) (i : Ext4Inode) (s o : ℕ) (d d' : D) : Type 0 where
    pub read_back : read_inode dev v n d' ≡ returned (ok i, d')
    pub still_located : IsLocated v n d' s o
    pub others_kept : (t : ℕ) → t ≢ s → dev.read_block d' t ≡ dev.read_block d t
    pub sector : List ℕ
    pub saved : List ℕ
    pub sector_read : dev.read_block d s ≡ some sector
    pub sector_reread : dev.read_block d' s ≡ some saved
    pub before_kept : (j : ℕ) → j < o → get_or saved j 0 ≡ get_or sector j 0
    pub after_kept : (j : ℕ) → get_or saved (o + 116 + j) 0 ≡ get_or sector (o + 116 + j) 0

  module _ (storage : IsStorage dev) (v : Ext4Volume) (n : ℕ) (i : Ext4Inode) (s o : ℕ) (d : D)
      (fits : Fits i) (at : IsLocated v n d s o) where
    write_located :
        (b : List ℕ)
        → dev.read_block d s ≡ some b
        → write_inode dev v n i d ≡ stored (dev.write_block d s (overwrite b o (inode_bytes i)))
    unfolding write_inode
    write_located b e = rw (locate-returns v n s o d at, e) refl

    saves :
        (b : List ℕ)
        → dev.read_block d s ≡ some b
        → (dev.write_block d s (overwrite b o (inode_bytes i))).0 ≡ true
        → Saves v n i s o d (dev.write_block d s (overwrite b o (inode_bytes i))).1
    saves b e done =
        let image = overwrite b o (inode_bytes i) in
        let d' = (dev.write_block d s image).1 in
        let kept : (t : ℕ) → t ≢ s → dev.read_block d' t ≡ dev.read_block d t =
          λ t ne. storage.kept d s t image ne in
        let inside : o ≤ length b =
          omega (arith, place-lt v n s o d at, storage.block_sized d s b e) in
        let again = IsLocated-moved v n s o d d' at (kept (bgd_sector v at.size) at.apart) in
        record {
          read_back =
              read_located v n s o d' image again (storage.written d s image done)
              ∙ ap (λ j. returned (ok j, d')) (inode_at-overwrite i fits b o inside);
          still_located = again;
          others_kept = kept;
          sector = b;
          saved = image;
          sector_read = e;
          sector_reread = storage.written d s image done;
          before_kept = get_or-overwrite_before b o (inode_bytes i) inside;
          after_kept = λ j.
              subst (λ k. get_or image (o + k + j) 0 ≡ get_or b (o + k + j) 0)
                (length-inode_bytes i fits) (get_or-overwrite_after b o (inode_bytes i) inside j);
        }

    -- How a write of the inode ends.
    abbrev pub Ends : Reply D Unit → Type 0
    Ends panicked = ⊥
    Ends (returned (err e, d')) = (e ≡ block_read × d' ≡ d) ⊎ (e ≡ block_write)
    Ends (returned (ok u, d')) = Saves v n i s o d d'

    Ends-written :
        (b : List ℕ)
        → dev.read_block d s ≡ some b
        → (r : Bool × D) → dev.write_block d s (overwrite b o (inode_bytes i)) ≡ r
        → Ends (stored r)
    Ends-written b e (true, d') w =
        subst (λ r. Saves v n i s o d r.1) w (saves b e (ap (λ r. r.0) w))
    Ends-written b e (false, d') w = inr refl

    Ends-read : (r : Option (List ℕ)) → dev.read_block d s ≡ r → Ends (write_inode dev v n i d)
    unfolding write_inode
    Ends-read none e = rw (locate-returns v n s o d at, e) (inl (refl, refl))
    Ends-read (some b) e = rw (write_located b e) (Ends-written b e _ refl)

    -- On a device that keeps what is written, writing an inode whose numbers fit their fields, and
    -- whose place is inside the volume, does not panic. Unless the device fails to read or to write,
    -- `read_inode` then gives that inode back, and neither another sector nor a byte of the sector
    -- outside the 116 of the inode has changed.
    pub write_inode-Saves : Ends (write_inode dev v n i d)
    write_inode-Saves = Ends-read (dev.read_block d s) refl
