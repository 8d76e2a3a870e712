-- ===== src/Ext4/Tests.antt =====
-- A small ext4 volume on a disk in memory: tests, and instances of the theorems.
use nwin_os.Common.{inl, ℕ, ◌≡◌, refl, true, false, some, List, [], ◌∷◌, ◌++◌, replicate, arith}
use nwin_os.Common.Outcome.{returned, ok}
use nwin_os.Elf.{read_le}
use nwin_os.Error.{out_of_inodes}
use nwin_os.Ext4.{le, Ext4Inode, group_descriptor_at}
use nwin_os.Ext4.Allocation.Reserves.{IsBitmap, Reserves, allocate-Reserves}
use nwin_os.Common.Dict.{same}
use nwin_os.Common.Utf8.{from_utf8, decode}
use nwin_os.Common.Bits.{has_bit, set_bit}
use nwin_os.Ext4.Directory.OnDisk.{IsDirectory, Enters, add_entry-Enters}
use nwin_os.Ext4.Files.{ReadsBack, write_data_to_block-ReadsBack}
use nwin_os.Ext4.Fills.{HasEnded, lookup_ends}
use nwin_os.Ext4.Inodes.{Fits, IsLocated, Ends, write_inode-Saves}
use nwin_os.Ext4.Node.{Ext4Node, lookup, add_entry, is_utf8}
use nwin_os.Ext4.Volume.{
  logical_to_physical_sector, find_extent, allocate, allocate_inode, find_free, free_bit,
  build_file_inode, write_inode, write_data_to_block,
}
use nwin_os.Ext4.Disk.{
  are_bytes, replaced, disk_device, disk_keeps, volume, disk, here, parent, records, dir_disk,
  dir_node, here-FitsRecord, parent-FitsRecord,
}

abbrev inode_bitmap : List ℕ
inode_bitmap = 0xFF ∷ 0x0F ∷ replicate 510 0

inode_bitmap_found :
    IsBitmap disk_device (λ bgd. bgd.bg_inode_bitmap_lo) volume disk 108 inode_bitmap
unfolding group_descriptor_at read_le are_bytes
inode_bitmap_found = record {
  size = 1024;
  table = le 4 3 ++ (le 4 4 ++ (le 4 5 ++ replicate 500 0));
  sized = refl;
  table_read = refl;
  descriptor_fits = omega arith;
  sector_eq = refl;
  sector_fits = omega arith;
  bitmap_read = refl;
  apart = omega arith;
}

-- The thirteenth inode is the first that is free.
allocate-Reserves_example :
    Reserves disk_device
      (λ bgd. bgd.bg_inode_bitmap_lo)
      1
      out_of_inodes
      volume
      108
      inode_bitmap
      disk
      (allocate_inode disk_device volume disk)
allocate-Reserves_example =
    allocate-Reserves disk_device (λ bgd. bgd.bg_inode_bitmap_lo) 1 out_of_inodes disk_keeps volume
      108 inode_bitmap disk inode_bitmap_found

abbrev inode_bitmap' : List ℕ
inode_bitmap' = 0xFF ∷ 0x1F ∷ replicate 510 0

-- The thirteenth inode is the first that is free.
thirteenth :
    allocate_inode disk_device volume disk ≡ returned (ok 13, replaced disk 108 inode_bitmap')
unfolding allocate find_free free_bit has_bit set_bit group_descriptor_at read_le are_bytes
thirteenth = refl

abbrev inode : Ext4Inode
inode = build_file_inode 3 40

inode_fits : Fits inode
unfolding build_file_inode
inode_fits = record {
  mode_fits = omega arith;
  uid_fits = omega arith;
  size_lo_fits = omega arith;
  atime_fits = omega arith;
  ctime_fits = omega arith;
  mtime_fits = omega arith;
  dtime_fits = omega arith;
  gid_fits = omega arith;
  links_count_fits = omega arith;
  blocks_lo_fits = omega arith;
  flags_fits = omega arith;
  osd1_fits = omega arith;
  block_fits = refl;
  generation_fits = omega arith;
  file_acl_lo_fits = omega arith;
  size_hi_fits = omega arith;
  obso_faddr_fits = omega arith;
}

fourteenth_is_located : IsLocated disk_device volume 14 disk 116 256
unfolding group_descriptor_at read_le are_bytes
fourteenth_is_located = record {
  size = 1024;
  per_group = 32;
  table = le 4 3 ++ (le 4 4 ++ (le 4 5 ++ replicate 500 0));
  sized = refl;
  in_range = refl;
  grouped = refl;
  table_read = refl;
  descriptor_fits = omega arith;
  offset_fits = omega arith;
  sector_fits = omega arith;
  sector_eq = refl;
  place_eq = refl;
  apart = omega arith;
}

write_inode-Saves_example :
    Ends disk_device disk_keeps volume 14 inode 116 256 disk inode_fits fourteenth_is_located
      (write_inode disk_device volume 14 inode disk)
write_inode-Saves_example =
    write_inode-Saves disk_device disk_keeps volume 14 inode 116 256 disk inode_fits
      fourteenth_is_located

abbrev text : List ℕ
text = b'a' ∷ b'b' ∷ b'c' ∷ []

write_data_to_block-ReadsBack_example :
    ReadsBack disk_device disk_keeps volume 1024 40 text disk refl
      (omega arith)
      (write_data_to_block disk_device volume 40 text disk)
write_data_to_block-ReadsBack_example =
    write_data_to_block-ReadsBack disk_device disk_keeps volume 1024 40 text disk refl (omega arith)

abbrev root : Ext4Node
root = record { volume = volume; inode_num = 2; inode = inode; is_directory = true; size = 1024 }

lookup_ends_example : HasEnded (lookup disk_device (λ at. 7) (λ at. 7) root disk text)
lookup_ends_example = lookup_ends disk_device (λ at. 7) (λ at. 7) root disk text

dir_node-IsDirectory : IsDirectory disk_device (λ at. 7) dir_node 200 records dir_disk
unfolding are_bytes build_file_inode logical_to_physical_sector find_extent read_le
dir_node-IsDirectory = record {
  is_directory = refl;
  sized = refl;
  whole = refl;
  maps = refl;
  there = (omega arith, refl, (omega arith, refl, tt));
}

located_beside : IsLocated disk_device volume 14 dir_disk 116 256
unfolding group_descriptor_at read_le are_bytes
located_beside = record {
  size = 1024;
  per_group = 32;
  table = le 4 3 ++ (le 4 4 ++ (le 4 5 ++ replicate 500 0));
  sized = refl;
  in_range = refl;
  grouped = refl;
  table_read = refl;
  descriptor_fits = omega arith;
  offset_fits = omega arith;
  sector_fits = omega arith;
  sector_eq = refl;
  place_eq = refl;
  apart = omega arith;
}

here_other : same here.name text ≡ false
unfolding same
here_other = refl

parent_other : same parent.name text ≡ false
unfolding same
parent_other = refl

text_is_utf8 : is_utf8 (from_utf8 text) ≡ true
unfolding from_utf8 decode
text_is_utf8 = refl

zeros_read : disk_device.read_block dir_disk 116 ≡ some (replicate 512 0)
unfolding are_bytes
zeros_read = refl

add_entry-Enters_example :
    Enters disk_device disk_keeps
      (λ at. 7)
      (λ at. 7)
      dir_node
      200
      dir_disk
      (here ∷ [])
      parent
      text
      14
      dir_node-IsDirectory
      (here-FitsRecord, tt)
      parent-FitsRecord
      (here_other, tt)
      parent_other
      (omega arith)
      (omega arith)
      text_is_utf8
      (omega arith)
      (omega arith)
      116
      256
      (replicate 512 0)
      located_beside
      zeros_read
      (inl (omega arith))
      (inl (omega arith))
      (add_entry disk_device (λ at. 7) (λ at. 7) dir_node text 14 dir_disk)
add_entry-Enters_example =
    add_entry-Enters disk_device disk_keeps (λ at. 7) (λ at. 7) dir_node 200 dir_disk (here ∷ [])
      parent text 14 dir_node-IsDirectory (here-FitsRecord, tt) parent-FitsRecord (here_other, tt)
      parent_other (omega arith) (omega arith) text_is_utf8 (omega arith) (omega arith) 116 256
      (replicate 512 0) located_beside zeros_read (inl (omega arith)) (inl (omega arith))
