-- ===== src/Ext4/Volume.antt =====
-- The volume of src/fs/ext4/volume.rs. Its messages to the serial line are left out.
--
-- Products and sums that overflow, a shift by the width or more and a division by zero are panics.
-- A request for heap memory is granted. The extents of an inode are read at its `i_block`, and past
-- its 60 bytes when the header says so: `past` gives the bytes that lie there, counted from `i_block`.
use nwin_os.Common.{
  ℕ, zero, suc, ◌+◌, ◌-◌, ◌*◌, ◌/◌, ◌%◌, ◌^◌, Bool, not, ◌&&◌, ◌||◌, Option, none, some, List, [],
  ◌∷◌, ◌++◌, take, drop, set, replicate, length, ltb, leb, ◌==◌, if◌then◌else◌,
}
use nwin_os.Common.Bits.{has_bit, set_bit}
use nwin_os.Common.Outcome.{Outcome, returned, panicked, Result}
use nwin_os.Elf.{read_le}
use nwin_os.Error.{FsError, bad_magic, corrupted_directory, out_of_inodes, out_of_blocks}
use nwin_os.Mbr.{byte}
use nwin_os.Ext4.{
  Ext4SuperBlock, super_block_at, Ext4BlockGroupDescriptor, group_descriptor_at, Ext4Inode,
  inode_bytes, inode_at, extent_header_bytes, extent_bytes,
}
use nwin_os.Ext4.Device.{BlockDevice, Io, ◌>>=◌, ◌>>◌, pure, fail, lift, unless, word, fetch, store}

pub record Ext4Volume : Type 0 where
  pub start_lba : ℕ
  pub super_block : Ext4SuperBlock

abbrev pub block_size : Ext4SuperBlock → Outcome ℕ
block_size s =
    if ltb s.s_log_block_size 64
    then returned (1024 * 2 ^ s.s_log_block_size % 2 ^ 64)
    else panicked

-- The block of the descriptors, by the size of a block.
abbrev pub bgd_block : ℕ → ℕ
bgd_block block_size = if block_size == 1024 then 2 else 1

abbrev pub bgd_sector : Ext4Volume → ℕ → ℕ
bgd_sector v block_size = v.start_lba + bgd_block block_size * (block_size / 512)

-- The bytes `bytes` copied into a buffer at `at`.
abbrev pub overwrite : List ℕ → ℕ → List ℕ → List ℕ
overwrite buffer at bytes = take at buffer ++ (bytes ++ drop (at + length bytes) buffer)

-- The lowest clear bit of a byte, of the `left` bits from `bit_index` on.
unfoldable pub free_bit : (byte left bit_index : ℕ) → Option ℕ
free_bit byte zero bit_index = none
free_bit byte (suc left) bit_index =
    let rest = free_bit byte left (suc bit_index) in
    if has_bit byte bit_index then rest else some bit_index

abbrev pub found_in : ℕ → Option ℕ → Option (ℕ × ℕ) → Option (ℕ × ℕ)
found_in byte_index none rest = rest
found_in byte_index (some bit_index) rest = some (byte_index, bit_index)

-- The loop over the bytes of a bitmap.
unfoldable pub find_free : List ℕ → (byte_index : ℕ) → Option (ℕ × ℕ)
find_free [] byte_index = none
find_free (b ∷ bitmap) byte_index =
    let rest = find_free bitmap (suc byte_index) in
    if b == 0xFF then rest else found_in byte_index (free_bit b 8 0) rest

-- Inodes have 256 bytes.
abbrev pub absolute_offset : Ext4Volume → (block_size inode_table index_in_group : ℕ) → ℕ
absolute_offset v block_size inode_table index_in_group =
    inode_table * block_size + index_in_group * 256

abbrev pub is_out_of_range : Ext4Volume → ℕ → Bool
is_out_of_range v inode_num = ltb inode_num 1 || ltb v.super_block.s_inodes_count inode_num

abbrev pub divisor : ℕ → Outcome ℕ
divisor n = if n == 0 then panicked else returned n

module _ {D : Type 0} (dev : BlockDevice D) where
  abbrev pub checked_volume : ℕ → Ext4SuperBlock → Io D Ext4Volume
  checked_volume start_lba s =
      unless (not (s.s_magic == 0xEF53)) (bad_magic 0xEF53 s.s_magic)
        (pure (record { start_lba = start_lba; super_block = s }))

  unfoldable pub mount : ℕ → Io D Ext4Volume
  mount start_lba = do
    first ← word (start_lba + 2)
    head ← fetch dev first
    second ← word (first + 1)
    tail ← fetch dev second
    checked_volume start_lba (super_block_at (head ++ tail))

  abbrev pub read_group_descriptor :
      Ext4Volume → (block_size group_index : ℕ) → Io D Ext4BlockGroupDescriptor
  read_group_descriptor v block_size group_index = do
    sector ← word (bgd_sector v block_size)
    buffer ← fetch dev sector
    pure (group_descriptor_at buffer (group_index * 32 % 512))

  abbrev pub reserve : (sector first : ℕ) → FsError → List ℕ → Option (ℕ × ℕ) → Io D ℕ
  reserve sector first exhausted bitmap none = fail exhausted
  reserve sector first exhausted bitmap (some (byte_index, bit_index)) = do
    store dev sector (set bitmap byte_index (set_bit (byte bitmap byte_index) bit_index))
    pure (byte_index * 8 + bit_index + first)

  -- What `allocate_inode` and `allocate_block` share: the first clear bit of the first sector of a
  -- bitmap of group 0 is set, and counted from `first`.
  unfoldable pub allocate :
      (Ext4BlockGroupDescriptor → ℕ) → (first : ℕ) → FsError → Ext4Volume → Io D ℕ
  allocate bitmap_block first exhausted v = do
    size ← lift (block_size v.super_block)
    bgd ← read_group_descriptor v size 0
    sector ← word (v.start_lba + bitmap_block bgd * (size / 512))
    bitmap ← fetch dev sector
    reserve sector first exhausted bitmap (find_free bitmap 0)

  abbrev pub allocate_inode : Ext4Volume → Io D ℕ
  allocate_inode v = allocate (λ bgd. bgd.bg_inode_bitmap_lo) 1 out_of_inodes v

  abbrev pub allocate_block : Ext4Volume → Io D ℕ
  allocate_block v = allocate (λ bgd. bgd.bg_block_bitmap_lo) 0 out_of_blocks v

  -- The sector of an inode, and its place there.
  unfoldable pub locate : Ext4Volume → ℕ → Io D (ℕ × ℕ)
  locate v inode_num = unless (is_out_of_range v inode_num) corrupted_directory (do
    size ← lift (block_size v.super_block)
    per_group ← lift (divisor v.super_block.s_inodes_per_group)
    bgd ← read_group_descriptor v size ((inode_num - 1) / per_group)
    absolute ← word (absolute_offset v size bgd.bg_inode_table_lo ((inode_num - 1) % per_group))
    sector ← word (v.start_lba + absolute / 512)
    pure (sector, absolute % 512))

  unfoldable pub read_inode : Ext4Volume → ℕ → Io D Ext4Inode
  read_inode v inode_num = do
    place ← locate v inode_num
    buffer ← fetch dev place.0
    pure (inode_at buffer place.1)

  unfoldable pub write_inode : Ext4Volume → ℕ → Ext4Inode → Io D Unit
  write_inode v inode_num inode = do
    place ← locate v inode_num
    buffer ← fetch dev place.0
    store dev place.0 (overwrite buffer place.1 (inode_bytes inode))

  -- The sectors of a block, written one after the other.
  unfoldable pub write_sectors : (count sector : ℕ) → List ℕ → Io D Unit
  write_sectors zero sector block = pure tt
  write_sectors (suc count) sector block = do
    at ← word sector
    store dev at (take 512 block)
    write_sectors count (suc sector) (drop 512 block)

  unfoldable pub write_data_to_block : Ext4Volume → ℕ → List ℕ → Io D Unit
  write_data_to_block v block_num contents = do
    size ← lift (block_size v.super_block)
    unless (ltb size (length contents)) corrupted_directory (do
      start ← word (v.start_lba + block_num * (size / 512))
      write_sectors (size / 512) start (contents ++ replicate (size - length contents) 0))

abbrev pub mi_texto : List ℕ
mi_texto =
    b'T' ∷ b'h' ∷ b'i' ∷ b's' ∷ b' ' ∷ b'f' ∷ b'i' ∷ b'l' ∷ b'e' ∷ b' ' ∷ b'w' ∷ b'a' ∷ b's' ∷ b' '
    ∷ b'c' ∷ b'r' ∷ b'e' ∷ b'a' ∷ b't' ∷ b'e' ∷ b'd' ∷ b' ' ∷ b'a' ∷ b'n' ∷ b'd' ∷ b' ' ∷ b'w'
    ∷ b'r' ∷ b'i' ∷ b't' ∷ b't' ∷ b'e' ∷ b'n' ∷ b' ' ∷ b'1' ∷ b'0' ∷ b'0' ∷ b'%' ∷ b' ' ∷ b'f'
    ∷ b'r' ∷ b'o' ∷ b'm' ∷ b' ' ∷ b'm' ∷ b'y' ∷ b' ' ∷ b'o' ∷ b'w' ∷ b'n' ∷ b' ' ∷ b'R' ∷ b'u'
    ∷ b's' ∷ b't' ∷ b' ' ∷ b'k' ∷ b'e' ∷ b'r' ∷ b'n' ∷ b'e' ∷ b'l' ∷ b'.' ∷ b' ' ∷ b'N' ∷ b'W'
    ∷ b'I' ∷ b'N' ∷ b' ' ∷ b'O' ∷ b'S' ∷ b' ' ∷ b'l' ∷ b'i' ∷ b'v' ∷ b'e' ∷ b's' ∷ b'!' ∷ []

-- The disk after an operation whose error is only printed.
abbrev pub disk_after : {D A : Type 0} → Outcome (Result A FsError × D) → Outcome D
disk_after panicked = panicked
disk_after (returned (r, d)) = returned d

-- What a call prints aside, it reserves an inode and a block, and writes the text to the block.
unfoldable pub debug_info : {D : Type 0} → BlockDevice D → Ext4Volume → D → Outcome D
debug_info dev v d = disk_after (
    (allocate_inode dev v >> allocate_block dev v >>= λ nuevo_bloque.
    write_data_to_block dev v nuevo_bloque mi_texto)
      d)

-- The bytes that lie at `i_block`.
abbrev pub block_byte : (ℕ → ℕ) → Ext4Inode → ℕ → ℕ
block_byte past inode at = if ltb at 60 then byte inode.i_block at else past at

abbrev pub target_sector : Ext4Volume → (block_size physical_block : ℕ) → Outcome (Option ℕ)
target_sector v block_size physical_block =
    let sector = v.start_lba + physical_block * (block_size / 512) in
    if ltb sector (2 ^ 64) then returned (some sector) else panicked

-- The loop over the extents, `left` of them from the byte `at` on. The end of an extent is a 32-bit
-- number, and it is computed only for an extent that does not begin after the block.
unfoldable pub find_extent :
    Ext4Volume → (block_size : ℕ) (bytes : ℕ → ℕ) (logical_block left at : ℕ) → Outcome (Option ℕ)
find_extent v block_size bytes logical_block zero at = returned none
find_extent v block_size bytes logical_block (suc left) at =
    let rest = find_extent v block_size bytes logical_block left (at + 12) in
    let start = read_le bytes at 4 in
    let len = read_le bytes (at + 4) 2 in
    let physical = read_le bytes (at + 6) 2 * 2 ^ 32 + read_le bytes (at + 8) 4 in
    if ltb logical_block start
    then rest
    else if leb (2 ^ 32) (start + len)
    then panicked
    else if ltb logical_block (start + len)
    then target_sector v block_size (physical + (logical_block - start))
    else rest

abbrev pub extents_of :
    Ext4Volume → (bytes : ℕ → ℕ) (logical_block : ℕ) → Outcome ℕ → Outcome (Option ℕ)
extents_of v bytes logical_block panicked = panicked
extents_of v bytes logical_block (returned block_size) =
    let found = find_extent v block_size bytes logical_block (read_le bytes 2 2) 12 in
    if read_le bytes 0 2 == 0xF30A && read_le bytes 6 2 == 0 then found else returned none

unfoldable pub logical_to_physical_sector :
    (past : ℕ → ℕ) → Ext4Volume → Ext4Inode → (logical_block : ℕ) → Outcome (Option ℕ)
logical_to_physical_sector past v inode logical_block =
    extents_of v (block_byte past inode) logical_block (block_size v.super_block)

unfoldable pub build_file_inode : (file_size physical_block : ℕ) → Ext4Inode
build_file_inode file_size physical_block = record {
  i_mode = 0x81A4;
  i_uid = 0;
  i_size_lo = file_size;
  i_atime = 0;
  i_ctime = 0;
  i_mtime = 0;
  i_dtime = 0;
  i_gid = 0;
  i_links_count = 1;
  i_blocks_lo = 8;
  i_flags = 0x80000;
  i_osd1 = 0;
  i_block =
      extent_header_bytes
        (record { eh_magic = 0xF30A; eh_entries = 1; eh_max = 4; eh_depth = 0; eh_generation = 0 })
      ++ (extent_bytes
            (record { ee_block = 0; ee_len = 1; ee_start_hi = 0; ee_start_lo = physical_block })
          ++ replicate 36 0);
  i_generation = 0;
  i_file_acl_lo = 0;
  i_size_hi = 0;
  i_obso_faddr = 0;
}
