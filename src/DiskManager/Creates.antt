-- ===== src/DiskManager/Creates.antt =====
-- The file that the manager creates on an ext4 volume is read back through its name.
use nwin_os.Common.{
  ℕ, ◌+◌, ◌*◌, ◌/◌, ◌^◌, ◌≤◌, ◌<◌, ◌≡◌, ◌≢◌, refl, sym, ap, ◌∙◌, subst, ◌⊎◌, inl, inr, true, false,
  some, List, [], ◌∷◌, ◌++◌, length, arith,
}
use nwin_os.Common.Dict.{same}
use nwin_os.Common.Outcome.{returned, panicked, ok, ok_or}
use nwin_os.Common.Utf8.{from_utf8, decode}
use nwin_os.Ext4.{Ext4Inode, inode_at, size_of}
use nwin_os.Ext4.Device.{BlockDevice, IsStorage, Reply}
use nwin_os.Ext4.Directory.{DirRecord, rec_len, block_bytes, FitsRecord, AreRecords}
use nwin_os.Ext4.Directory.Adds.{AreOthers}
use nwin_os.Ext4.Directory.OnDisk.{IsDirectory, Enters, add_entry-Enters}
use nwin_os.Ext4.Files.{IsFilled, IsFilled-reads, Fills, write_data_to_block-Fills}
use nwin_os.Ext4.Inodes.{Fits, IsLocated, Saves, Ends, write_inode-Saves, read_located}
use nwin_os.Ext4.Node.{Ext4Node, node_of, aligned, is_utf8, add_entry, lookup, read}
use nwin_os.Ext4.Sectors.{AreWritten-kept}
use nwin_os.Ext4.Volume.{
  bgd_sector, allocate_inode, allocate_block, write_data_to_block, build_file_inode, write_inode,
}
use nwin_os.DiskManager.{mi_texto, nombre_archivo, create_file}

build_file_inode-Fits :
    (file_size block : ℕ) → file_size < 2 ^ 32 → Fits (build_file_inode file_size block)
unfolding build_file_inode
build_file_inode-Fits file_size block h = record {
  mode_fits = omega arith;
  uid_fits = omega arith;
  size_lo_fits = h;
  atime_fits = omega arith;
  ctime_fits = omega arith;
  mtime_fits = omega arith;
  dtime_fits = omega arith;
  gid_fits = omega arith;
  links_count_fits = omega arith;
  blocks_lo_fits = omega arith;
  flags_fits = omega arith;
  osd1_fits = omega arith;
  block_fits = refl;
  generation_fits = omega arith;
  file_acl_lo_fits = omega arith;
  size_hi_fits = omega arith;
  obso_faddr_fits = omega arith;
}

size_of-build_file_inode :
    (file_size block : ℕ) → size_of (build_file_inode file_size block) ≡ file_size
unfolding build_file_inode
size_of-build_file_inode file_size block = omega arith

name_is_utf8 : is_utf8 (from_utf8 nombre_archivo) ≡ true
unfolding from_utf8 decode
name_is_utf8 = refl

abbrev inode_of : {D : Type 0} → Ext4Inode → Reply D Ext4Inode → Ext4Inode
inode_of i panicked = i
inode_of i (returned (r, d)) = ok_or r i

-- Two ranges of sectors that do not meet.
abbrev pub AreApart : (first second count : ℕ) → Type 0
AreApart first second count = (first + count ≤ second) ⊎ (second + count ≤ first)

module _ {D : Type 0} (dev : BlockDevice D) (storage : IsStorage dev) (past beyond : ℕ → ℕ)
    (root : Ext4Node) (base : ℕ) (d d1 d2 d3 d4 d5 : D) (n blk s o : ℕ) (rs : List DirRecord)
    (last : DirRecord) (reserved : allocate_inode dev root.volume d ≡ returned (ok n, d1))
    (reserved' : allocate_block dev root.volume d1 ≡ returned (ok blk, d2))
    (data_written : write_data_to_block dev root.volume blk mi_texto d2 ≡ returned (ok tt, d3))
    (inode_written : write_inode dev root.volume n (build_file_inode (length mi_texto) blk) d3
      ≡ returned (ok tt, d4))
    (entered : add_entry dev past beyond root nombre_archivo n d4 ≡ returned (ok tt, d5))
    (at : IsLocated dev root.volume n d3 s o)
    (dir : IsDirectory dev past root base (block_bytes (rs ++ (last ∷ []))) d4)
    (are : AreRecords rs) (fits : FitsRecord last) (others : AreOthers nombre_archivo rs)
    (other_last : same last.name nombre_archivo ≡ false)
    (room : aligned (8 + length last.name) + aligned (8 + length nombre_archivo) ≤ rec_len last)
    (numbered : 0 < n) (numbered' : n < 2 ^ 32) (block_numbered : blk < 2 ^ 32)
    (inode_outside : (s < base) ⊎ (base + root.size / 512 ≤ s))
    (table_outside : (bgd_sector root.volume root.size < base)
      ⊎ (base + root.size / 512 ≤ bgd_sector root.volume root.size))
    (data_outside : AreApart
      (root.volume.start_lba + blk * (root.size / 512))
      base
      (root.size / 512))
    (inode_beside : (s < root.volume.start_lba + blk * (root.size / 512))
      ⊎ (root.volume.start_lba + blk * (root.size / 512) + root.size / 512 ≤ s)) where
  data-IsFilled :
      IsFilled dev storage root.volume root.size blk mi_texto d2 dir.sized block_numbered d3
  data-IsFilled =
      (subst (Fills dev storage root.volume root.size blk mi_texto d2 dir.sized block_numbered)
        data_written
        (write_data_to_block-Fills dev storage root.volume root.size blk mi_texto d2 dir.sized
          block_numbered)).0

  file_fits : Fits (build_file_inode (length mi_texto) blk)
  file_fits = build_file_inode-Fits (length mi_texto) blk (omega arith)

  saved : Saves dev root.volume n (build_file_inode (length mi_texto) blk) s o d3 d4
  saved =
      subst
        (Ends dev storage root.volume n (build_file_inode (length mi_texto) blk) s o d3 file_fits
          at)
        inode_written
        (write_inode-Saves dev storage root.volume n (build_file_inode (length mi_texto) blk) s o d3
          file_fits at)

  same_inode : inode_at saved.saved o ≡ build_file_inode (length mi_texto) blk
  same_inode = ap (inode_of (build_file_inode (length mi_texto) blk)) (
      sym
        (read_located dev root.volume n s o d4 saved.saved saved.still_located saved.sector_reread)
      ∙ saved.read_back)

  enters :
      Enters dev storage past beyond root base d4 rs last nombre_archivo n dir are fits others
        other_last room
        (omega arith)
        name_is_utf8
        numbered
        numbered'
        s
        o
        saved.saved
        saved.still_located
        saved.sector_reread
        inode_outside
        table_outside
        (returned (ok tt, d5))
  enters =
      subst
        (Enters dev storage past beyond root base d4 rs last nombre_archivo n dir are fits others
          other_last room (omega arith) name_is_utf8 numbered numbered' s o saved.saved
          saved.still_located saved.sector_reread inode_outside table_outside)
        entered
        (add_entry-Enters dev storage past beyond root base d4 rs last nombre_archivo n dir are fits
          others other_last room (omega arith) name_is_utf8 numbered numbered' s o saved.saved
          saved.still_located saved.sector_reread inode_outside table_outside)

  found :
      lookup dev past beyond root d5 nombre_archivo
      ≡ some (returned (some (node_of root.volume n (build_file_inode (length mi_texto) blk))))
  found = enters.0 ∙ ap (λ i. some (returned (some (node_of root.volume n i)))) same_inode

  -- Neither the inode nor the directory is in the block of the data.
  untouched :
      (t : ℕ)
      → root.volume.start_lba + blk * (root.size / 512) ≤ t
      → t < root.volume.start_lba + blk * (root.size / 512) + root.size / 512
      → dev.read_block d5 t ≡ dev.read_block d3 t
  untouched t from below =
      enters.2 t (beside data_outside) ∙ saved.others_kept t (other inode_beside)
    where
      beside :
          AreApart (root.volume.start_lba + blk * (root.size / 512)) base (root.size / 512)
          → (t < base) ⊎ (base + root.size / 512 ≤ t)
      beside (inl before) = inl (omega (arith, before, below))
      beside (inr behind) = inr (omega (arith, behind, from))

      other :
          (s < root.volume.start_lba + blk * (root.size / 512))
            ⊎ (root.volume.start_lba + blk * (root.size / 512) + root.size / 512 ≤ s)
          → t ≢ s
      other (inl before) = omega (arith, before, from)
      other (inr behind) = omega (arith, behind, below)

  still-IsFilled :
      IsFilled dev storage root.volume root.size blk mi_texto d2 dir.sized block_numbered d5
  still-IsFilled = record {
    start_fits = data-IsFilled.start_fits;
    room = data-IsFilled.room;
    filled =
        AreWritten-kept dev (root.size / 512) (root.volume.start_lba + blk * (root.size / 512)) _ d3
          d5 untouched data-IsFilled.filled;
  }

  reread :
      read dev past
        (node_of root.volume n (build_file_inode (length mi_texto) blk))
        d5
        0
        (size_of (build_file_inode (length mi_texto) blk))
      ≡ some (returned mi_texto)
  reread =
      IsFilled-reads dev storage root.volume root.size blk mi_texto d2 dir.sized block_numbered d5
        past n (size_of (build_file_inode (length mi_texto) blk)) still-IsFilled
        (omega (arith, size_of-build_file_inode (length mi_texto) blk))

  -- Where the reservations and the writes succeed, on a device that keeps what is written, and where
  -- the root directory is one block of records with room for the entry and without one of its name,
  -- the place of the inode, the descriptors, the directory and the block of the data being apart, the
  -- file that is created on an ext4 volume is found under its name, and reading it gives the text that
  -- was written.
  pub create_file_reads_back :
      create_file dev past beyond root.volume root d ≡ some (returned (d5, mi_texto ∷ []))
  unfolding create_file
  create_file_reads_back =
      rw (reserved, reserved', data_written, inode_written, entered, found, reread) refl
