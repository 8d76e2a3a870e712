-- ===== src/Ext4/Node.antt =====
-- The nodes of an ext4 volume: src/fs/ext4/mod.rs. A name is the list of its bytes.
--
-- Headers and extents are read through pointers, which do not stop at the end of what they point
-- into: `past` gives the bytes that lie behind the `i_block` of an inode, and `beyond` those behind
-- the buffer of a directory. Differences below zero, sums that overflow and divisions by zero are
-- panics. `none` in the place of an outcome means that a loop did not end within the fuel.
use nwin_os.Common.{
  ℕ, zero, suc, ◌+◌, ◌-◌, ◌*◌, ◌/◌, ◌%◌, ◌^◌, min, Bool, true, false, not, ◌&&◌, ◌||◌, Option, none,
  some, List, [], ◌∷◌, ◌++◌, take, drop, replicate, length, ltb, leb, ◌==◌, if◌then◌else◌,
}
use nwin_os.Common.Dict.{same}
use nwin_os.Common.Outcome.{Outcome, returned, panicked, Result, ok, err}
use nwin_os.Common.Utf8.{from_utf8}
use nwin_os.Elf.{read_le}
use nwin_os.Error.{FsError, corrupted_directory, no_space}
use nwin_os.Mbr.{byte}
use nwin_os.Ext4.{Ext4Inode, inode_at, is_directory, size_of, Ext4DirEntryHeader, le}
use nwin_os.Ext4.Device.{BlockDevice, Reply, Io, ◌>>=◌, pure, lift, unless, word, fetch}
use nwin_os.Ext4.Volume.{
  Ext4Volume, block_size, overwrite, read_inode, write_sectors, logical_to_physical_sector,
}

pub record Ext4Node : Type 0 where
  pub volume : Ext4Volume
  pub inode_num : ℕ
  pub inode : Ext4Inode
  pub is_directory : Bool
  pub size : ℕ

abbrev pub is_dir : Ext4Node → Bool
is_dir node = node.is_directory

abbrev pub get_size : Ext4Node → ℕ
get_size node = node.size

abbrev pub node_of : Ext4Volume → ℕ → Ext4Inode → Ext4Node
node_of v inode_num inode = record {
  volume = v;
  inode_num = inode_num;
  inode = inode;
  is_directory = is_directory inode;
  size = size_of inode;
}

-- The inode of zero bytes.
abbrev pub zeroed : Ext4Inode
zeroed = inode_at [] 0

abbrev pub root_of : {D : Type 0} → Ext4Volume → Reply D Ext4Inode → Outcome Ext4Node
root_of v panicked = panicked
root_of v (returned (ok inode, d)) = returned (node_of v 2 inode)
root_of v (returned (err e, d)) = returned (node_of v 2 zeroed)

-- The bytes at and behind a buffer.
abbrev pub byte_of : (ℕ → ℕ) → List ℕ → ℕ → ℕ
byte_of beyond buffer at = if ltb at (length buffer) then byte buffer at else beyond at

abbrev pub header_at : (ℕ → ℕ) → ℕ → Ext4DirEntryHeader
header_at bytes at = record {
  inode = read_le bytes at 4;
  rec_len = read_le bytes (at + 4) 2;
  name_len = bytes (at + 6);
  file_type = bytes (at + 7);
}

-- `(n + 3) & !3`
abbrev pub aligned : ℕ → ℕ
aligned n = (n + 3) / 4 * 4

-- The last record of a block, which ends where the block ends.
unfoldable pub find_last : ℕ → (size : ℕ) (bytes : ℕ → ℕ) (offset : ℕ) → Result ℕ FsError
find_last zero size bytes offset = err corrupted_directory
find_last (suc fuel) size bytes offset =
    let rec_len = (header_at bytes offset).rec_len in
    let rest = find_last fuel size bytes (offset + rec_len) in
    if offset + rec_len == size
    then ok offset
    else if leb size (offset + rec_len) || rec_len == 0
    then err corrupted_directory
    else rest

abbrev pub entry_bytes : (inode_num rec_len : ℕ) → List ℕ → List ℕ
entry_bytes inode_num rec_len name =
    le 4 inode_num ++ (le 2 rec_len ++ (length name % 256) ∷ 1 ∷ name)

-- The record at `offset` gives its padding to a new one.
abbrev pub split_record :
    (ℕ → ℕ) → List ℕ → (offset : ℕ) → List ℕ → (inode_num : ℕ) → Outcome (Result (List ℕ) FsError)
split_record bytes buffer offset name inode_num =
    let h = header_at bytes offset in
    let aligned_len = aligned (8 + h.name_len) in
    let space_left = h.rec_len - aligned_len in
    if ltb h.rec_len aligned_len
    then panicked
    else if ltb space_left (aligned (8 + length name))
    then returned (err no_space)
    else returned (
        ok (
          overwrite (overwrite buffer (offset + 4) (le 2 aligned_len)) (offset + aligned_len)
            (entry_bytes inode_num space_left name)))

abbrev pub split_last :
    (ℕ → ℕ)
    → List ℕ
    → Result ℕ FsError
    → List ℕ
    → (inode_num : ℕ) → Outcome (Result (List ℕ) FsError)
split_last bytes buffer (err e) name inode_num = returned (err e)
split_last bytes buffer (ok offset) name inode_num = split_record bytes buffer offset name inode_num

-- The fuel is enough: each record that is passed over ends inside the block.
unfoldable pub with_entry :
    (beyond : ℕ → ℕ) (size : ℕ)
    → List ℕ
    → List ℕ
    → (inode_num : ℕ) → Outcome (Result (List ℕ) FsError)
with_entry beyond size buffer name inode_num =
    let bytes = byte_of beyond buffer in
    split_last bytes buffer (find_last (suc size) size bytes 0) name inode_num

abbrev pub settle : {D A : Type 0} → Outcome (Result A FsError) → Io D A
settle panicked d = panicked
settle (returned r) d = returned (r, d)

abbrev pub some_or_corrupted : {D : Type 0} → Outcome (Option ℕ) → Io D ℕ
some_or_corrupted panicked d = panicked
some_or_corrupted (returned none) d = returned (err corrupted_directory, d)
some_or_corrupted (returned (some n)) d = returned (ok n, d)

-- Whether a slice is UTF-8, and the name.
abbrev pub is_utf8 : Option (List ℕ) → Bool
is_utf8 none = false
is_utf8 (some s) = true

abbrev pub is_named : List ℕ → List ℕ → Bool
is_named slice name = is_utf8 (from_utf8 slice) && same slice name

abbrev pub child_or :
    {D : Type 0}
    → Ext4Volume
    → ℕ
    → Reply D Ext4Inode
    → Option (Outcome (Option Ext4Node))
    → Option (Outcome (Option Ext4Node))
child_or v inode_num panicked rest = some panicked
child_or v inode_num (returned (ok inode, d)) rest =
    some (returned (some (node_of v inode_num inode)))
child_or v inode_num (returned (err e, d)) rest = rest

module _ {D : Type 0} (dev : BlockDevice D) where
  pub new_root : Ext4Volume → D → Outcome Ext4Node
  new_root v d = root_of v (read_inode dev v 2 d)

  unfoldable pub read_sectors : (count sector : ℕ) → Io D (List ℕ)
  read_sectors zero sector = pure []
  read_sectors (suc count) sector = do
    at ← word sector
    block ← fetch dev at
    rest ← read_sectors count (suc sector)
    pure (block ++ rest)

  unfoldable pub add_entry : (past beyond : ℕ → ℕ) → Ext4Node → List ℕ → (inode_num : ℕ) → Io D Unit
  add_entry past beyond node name inode_num = unless (not node.is_directory) corrupted_directory (do
    size ← lift (block_size node.volume.super_block)
    sector ← some_or_corrupted (logical_to_physical_sector past node.volume node.inode 0)
    buffer ← read_sectors (size / 512) sector
    changed ← settle (with_entry beyond size buffer name inode_num)
    write_sectors dev (size / 512) sector changed)

  abbrev pub prepend : List ℕ → Option (Outcome (List ℕ)) → Option (Outcome (List ℕ))
  prepend copied none = none
  prepend copied (some panicked) = some panicked
  prepend copied (some (returned rest)) = some (returned (copied ++ rest))

  abbrev pub copy_block :
      (at size : ℕ) → Option (List ℕ) → Option (Outcome (List ℕ)) → Option (Outcome (List ℕ))
  copy_block at size none rest = some (returned [])
  copy_block at size (some sector_buffer) rest = prepend (take size (drop at sector_buffer)) rest

  abbrev pub copy_sector :
      D
      → (sector_in_block at size : ℕ) → Outcome (Option ℕ)
      → Option (Outcome (List ℕ))
      → Option (Outcome (List ℕ))
  copy_sector d sector_in_block at size panicked rest = some panicked
  copy_sector d sector_in_block at size (returned none) rest = some (returned [])
  copy_sector d sector_in_block at size (returned (some base)) rest =
      if ltb (base + sector_in_block) (2 ^ 64)
      then copy_block at size (dev.read_block d (base + sector_in_block)) rest
      else some panicked

  abbrev pub chunk_size : (current_offset left : ℕ) → ℕ
  chunk_size current_offset left = min (512 - current_offset % 512) left

  -- The loop of `read`, with the bytes that are left to be read.
  unfoldable pub read_from :
      ℕ
      → (past : ℕ → ℕ) → Ext4Node
      → D
      → (block_size current_offset left : ℕ) → Option (Outcome (List ℕ))
  read_from zero past node d block_size current_offset left = none
  read_from (suc fuel) past node d block_size current_offset left =
      let size = chunk_size current_offset left in
      let rest = read_from fuel past node d block_size (current_offset + size) (left - size) in
      if left == 0
      then some (returned [])
      else copy_sector d (current_offset % block_size / 512) (current_offset % 512) size
          (logical_to_physical_sector past node.volume node.inode
            (current_offset / block_size % 2 ^ 32))
          rest

  abbrev pub read_sized :
      (past : ℕ → ℕ) → Ext4Node → D → (offset left : ℕ) → Outcome ℕ → Option (Outcome (List ℕ))
  read_sized past node d offset left panicked = some panicked
  read_sized past node d offset left (returned size) =
      if size == 0 then some panicked else read_from (suc left) past node d size offset left

  -- The bytes that are copied into a buffer of `buf_len` bytes.
  unfoldable pub read :
      (past : ℕ → ℕ) → Ext4Node → D → (offset buf_len : ℕ) → Option (Outcome (List ℕ))
  read past node d offset buf_len =
      if leb node.size offset || buf_len == 0
      then some (returned [])
      else read_sized past node d offset (min buf_len (node.size - offset))
          (block_size node.volume.super_block)

  -- The loop of `lookup` over the records of a directory.
  unfoldable pub search :
      ℕ
      → Ext4Volume
      → D
      → (bytes_read : ℕ) → (bytes : ℕ → ℕ) (buffer name : List ℕ) (local_offset : ℕ)
      → Option (Outcome (Option Ext4Node))
  search zero v d bytes_read bytes buffer name local_offset = none
  search (suc fuel) v d bytes_read bytes buffer name local_offset =
      let h = header_at bytes local_offset in
      let rest = search fuel v d bytes_read bytes buffer name (local_offset + h.rec_len) in
      if leb bytes_read local_offset || h.rec_len == 0
      then some (returned none)
      else if h.inode == 0
      then rest
      else if ltb bytes_read (local_offset + 8 + h.name_len)
      then some (returned none)
      else if is_named (take h.name_len (drop (local_offset + 8) buffer)) name
      then child_or v h.inode (read_inode dev v h.inode d) rest
      else rest

  -- The buffer has the size of the directory, and zeros where nothing was read.
  abbrev pub search_bytes :
      (beyond : ℕ → ℕ)
      → Ext4Node
      → D
      → List ℕ
      → Option (Outcome (List ℕ))
      → Option (Outcome (Option Ext4Node))
  search_bytes beyond node d name none = none
  search_bytes beyond node d name (some panicked) = some panicked
  search_bytes beyond node d name (some (returned copied)) =
      let buffer = copied ++ replicate (node.size - length copied) 0 in
      if length copied == 0
      then some (returned none)
      else search (suc (length copied)) node.volume d (length copied) (byte_of beyond buffer) buffer
          name 0

  unfoldable pub lookup :
      (past beyond : ℕ → ℕ) → Ext4Node → D → List ℕ → Option (Outcome (Option Ext4Node))
  lookup past beyond node d name =
      if not node.is_directory
      then some (returned none)
      else search_bytes beyond node d name (read past node d 0 node.size)
