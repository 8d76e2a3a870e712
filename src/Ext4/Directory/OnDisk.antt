-- ===== src/Ext4/Directory/OnDisk.antt =====
-- `add_entry` and `lookup` on a directory on the disk.
use nwin_os.Common.{
  ℕ, zero, suc, ◌+◌, ◌-◌, ◌*◌, ◌/◌, ◌^◌, ◌≤◌, ◌<◌, ◌≡◌, refl, sym, ap, ◌∙◌, subst, ◌⊎◌, Bool, true,
  false, not, none, some, List, [], ◌∷◌, ◌++◌, append-nil, drop, length, length-append, lt→ltb,
  ◌==◌, if◌then◌else◌, arith,
}
use nwin_os.Common.Dict.{same}
use nwin_os.Common.Outcome.{returned, panicked, ok, err}
use nwin_os.Common.Utf8.{from_utf8}
use nwin_os.Error.{FsError, block_write, corrupted_directory}
use nwin_os.Ext4.{inode_at}
use nwin_os.Ext4.Device.{BlockDevice, IsStorage, Reply, Io, unless}
use nwin_os.Ext4.Directory.{DirRecord, rec_len, block_bytes, FitsRecord, AreRecords}
use nwin_os.Ext4.Directory.Adds.{AreOthers, linked_bytes}
use nwin_os.Ext4.Directory.Links.{Links, with_entry-Links, search_buffer, search_records}
use nwin_os.Ext4.Directory.Walks.{found_among, block_bytes-append, AreRecords-append}
use nwin_os.Ext4.Files.{value_of, read_whole, block_size-even}
use nwin_os.Ext4.Inodes.{IsLocated, IsLocated-moved, read_located}
use nwin_os.Ext4.Node.{
  Ext4Node, node_of, aligned, with_entry, is_utf8, search_bytes, read_sectors, add_entry, lookup,
  read,
}
use nwin_os.Ext4.Sectors.{AreWritten-le, AreWritten, AreKept, Writes, write_sectors-Writes}
use nwin_os.Ext4.Slices.{take_then_drop, length-drop_add}
use nwin_os.Ext4.Volume.{block_size, bgd_sector, read_inode, logical_to_physical_sector}

open_if :
    {D A : Type 0} (b : Bool)
    → b ≡ true
    → (e : FsError) (m : Io D A) (d : D) → unless (not b) e m d ≡ m d
open_if true h e m d = refl
open_if false h e m d = cc

module _ {D : Type 0} (dev : BlockDevice D) where
  -- The sectors of a block, put together.
  read_sectors-returns :
      (count sector : ℕ) (block : List ℕ) (d : D)
      → AreWritten dev count sector block d
      → length block ≡ 512 * count
      → read_sectors dev count sector d ≡ returned (ok block, d)
  unfolding read_sectors
  read_sectors-returns zero sector [] d there whole = refl
  read_sectors-returns zero sector (x ∷ block) d there whole = absurd (omega (arith, whole))
  read_sectors-returns (suc count) sector block d (fits, e, there) whole =
      rw
        (
          lt→ltb _ _ fits,
          e,
          read_sectors-returns count (suc sector) (drop 512 block) d there
              (omega (arith, whole, length-drop_add 512 block (omega (arith, whole)))),
        )
        (ap (λ b. returned (ok b, d)) (take_then_drop 512 block))

  -- A directory of one block: its node, the sector where the block begins, and the block.
  pub record IsDirectory (past : ℕ → ℕ) (node : Ext4Node) (base : ℕ) (block : List ℕ) (d : D)
      : Type 0 where
    pub is_directory : node.is_directory ≡ true
    pub sized : block_size node.volume.super_block ≡ returned node.size
    pub whole : length block ≡ node.size
    pub maps : logical_to_physical_sector past node.volume node.inode 0 ≡ returned (some base)
    pub there : AreWritten dev (node.size / 512) base block d

  module _ (past beyond : ℕ → ℕ) (node : Ext4Node) (base : ℕ) where
    sectors :
        (block : List ℕ) (d : D)
        → IsDirectory past node base block d
        → length block ≡ 512 * (node.size / 512)
    sectors block d dir = omega (arith, dir.whole, block_size-even node.volume node.size dir.sized)

    lookup-searches :
        (block name : List ℕ) (d : D)
        → IsDirectory past node base block d
        → 0 < length block
        → lookup dev past beyond node d name ≡ search_buffer dev node.volume d beyond block name
    unfolding lookup
    lookup-searches block name d dir some_bytes =
        ap
          (λ b.
            if not b
            then some (returned none)
            else search_bytes dev beyond node d name (read dev past node d 0 node.size))
          dir.is_directory
        ∙ ap (search_bytes dev beyond node d name) (
            read_whole dev past node d node.size base dir.maps block [] node.size dir.sized
              (sym dir.whole) (block_size-even node.volume node.size dir.sized)
              (omega (arith, dir.whole)) (omega (arith, dir.whole))
              (subst (λ b. AreWritten dev (node.size / 512) base b d) (sym (append-nil block))
                dir.there))
        ∙ rw (filled, padded, append-nil block) refl
      where
        filled : (length block == 0) ≡ false
        filled = ground (arith, some_bytes)

        padded : node.size - length block ≡ 0
        padded = omega (arith, dir.whole)

module _ {D : Type 0} (dev : BlockDevice D) (storage : IsStorage dev) (past beyond : ℕ → ℕ)
    (node : Ext4Node) (base : ℕ) (d : D) (rs : List DirRecord) (last : DirRecord) (name : List ℕ)
    (ino : ℕ) (dir : IsDirectory dev past node base (block_bytes (rs ++ (last ∷ []))) d)
    (are : AreRecords rs) (fits : FitsRecord last) (others : AreOthers name rs)
    (other_last : same last.name name ≡ false)
    (room : aligned (8 + length last.name) + aligned (8 + length name) ≤ rec_len last)
    (short : length name < 256) (utf8 : is_utf8 (from_utf8 name) ≡ true) (nonzero : 0 < ino)
    (numbered : ino < 2 ^ 32) (s o : ℕ) (b : List ℕ) (at : IsLocated dev node.volume ino d s o)
    (sector_read : dev.read_block d s ≡ some b)
    (inode_outside : (s < base) ⊎ (base + node.size / 512 ≤ s))
    (table_outside : (bgd_sector node.volume node.size < base)
      ⊎ (base + node.size / 512 ≤ bgd_sector node.volume node.size)) where
  -- How `add_entry` ends.
  abbrev pub Enters : Reply D Unit → Type 0
  Enters panicked = ⊥
  Enters (returned (err e, d')) = e ≡ block_write
  Enters (returned (ok u, d')) =
      (lookup dev past beyond node d' name
        ≡ some (returned (some (node_of node.volume ino (inode_at b o)))))
      × ((other : List ℕ)
          → same name other ≡ false
          → lookup dev past beyond node d' other
            ≡ found_among dev node.volume d' other (rs ++ (last ∷ [])))
      × AreKept dev (node.size / 512) base d d'

  same_size : node.size ≡ at.size
  same_size = ap value_of (sym dir.sized ∙ at.sized)

  read_after :
      (d' : D)
      → AreKept dev (node.size / 512) base d d'
      → read_inode dev node.volume ino d' ≡ returned (ok (inode_at b o), d')
  read_after d' kept =
      read_located dev node.volume ino s o d' b
        (IsLocated-moved dev node.volume ino s o d d' at (
          subst
            (λ n.
              dev.read_block d' (bgd_sector node.volume n)
              ≡ dev.read_block d (bgd_sector node.volume n))
            same_size (kept (bgd_sector node.volume node.size) table_outside)))
        (kept s inode_outside ∙ sector_read)

  links :
      (d' : D)
      → AreKept dev (node.size / 512) base d d'
      → Links dev node.volume d' beyond
          (block_bytes (rs ++ (last ∷ [])))
          (linked_bytes last name ino rs)
          name
          ino
          (inode_at b o)
  links d' kept =
      with_entry-Links dev node.volume d' beyond rs last name ino (inode_at b o) are fits others
        other_last room short utf8 nonzero numbered (read_after d' kept)

  some_bytes : 0 < length (block_bytes (rs ++ (last ∷ [])))
  some_bytes = omega (
    arith,
    ap length (block_bytes-append rs (last ∷ [])),
    length-append (block_bytes rs) (block_bytes (last ∷ [])),
  )

  ends_within :
      (count : ℕ)
      → count ≡ node.size / 512
      → AreWritten dev count base (block_bytes (rs ++ (last ∷ []))) d
      → base + count ≤ 2 ^ 64
  ends_within zero e there =
      absurd
        (omega (arith, e, some_bytes, dir.whole, block_size-even node.volume node.size dir.sized))
  ends_within (suc count) e there =
      AreWritten-le dev count base (block_bytes (rs ++ (last ∷ []))) d there

  Enters-written :
      (r : Reply D Unit)
      → Writes dev (node.size / 512) base (linked_bytes last name ino rs) d r
      → Enters r
  Enters-written panicked w =
      absurd (omega (arith, w, ends_within (node.size / 512) refl dir.there))
  Enters-written (returned (err e, d')) w = w
  Enters-written (returned (ok u, d')) (there, kept) =
      let linked = links d' kept in
      let now : IsDirectory dev past node base (linked_bytes last name ino rs) d' = record {
        is_directory = dir.is_directory;
        sized = dir.sized;
        whole = linked.same_length ∙ dir.whole;
        maps = dir.maps;
        there = there;
      } in
      let filled : 0 < length (linked_bytes last name ino rs) =
        omega (arith, some_bytes, linked.same_length) in
      (
        lookup-searches dev past beyond node base (linked_bytes last name ino rs) name d' now filled
            ∙ linked.is_found,
        (λ other ne.
            lookup-searches dev past beyond node base (linked_bytes last name ino rs) other d' now
              filled
            ∙ linked.others_found other ne
            ∙ search_records dev node.volume d' beyond (rs ++ (last ∷ []))
                (block_bytes (rs ++ (last ∷ []))) other refl
                (AreRecords-append rs (last ∷ []) are (fits, tt))),
        kept,
      )

  -- In a directory of one block on a device that keeps what is written, made of records of which the
  -- last has room for the new one and none has its name, take a name of less than 256 bytes of UTF-8
  -- and the number of an inode that lies, as the descriptors do, outside that block. Then `add_entry`
  -- does not panic and fails only where the device fails to write; where it succeeds, `lookup` finds
  -- the node of that inode under the name, under every other name it finds what the records held
  -- before, and no sector outside the block has changed.
  pub add_entry-Enters : Enters (add_entry dev past beyond node name ino d)
  unfolding add_entry
  add_entry-Enters =
      subst Enters (sym (open_if node.is_directory dir.is_directory corrupted_directory _ d)) (
        rw
          (
            dir.sized,
            dir.maps,
            read_sectors-returns dev (node.size / 512) base (block_bytes (rs ++ (last ∷ []))) d
                dir.there
                (sectors dev past beyond node base (block_bytes (rs ++ (last ∷ []))) d dir),
            made,
          )
          (Enters-written _ (
            write_sectors-Writes dev storage (node.size / 512) base (linked_bytes last name ino rs)
              d)))
    where
      made :
          with_entry beyond node.size (block_bytes (rs ++ (last ∷ []))) name ino
          ≡ returned (ok (linked_bytes last name ino rs))
      made =
          ap (λ n. with_entry beyond n (block_bytes (rs ++ (last ∷ []))) name ino) (sym dir.whole)
          ∙ (links d (λ t h. refl)).with_entry_gives
