-- ===== src/DiskManager/Runs.antt =====
-- The creation of a file on the disk in memory: an instance of the theorem.
use nwin_os.Common.{◌≡◌, refl, false, some, [], ◌∷◌, ◌++◌, inl, inr, replicate, arith, length}
use nwin_os.Common.Bits.{has_bit, set_bit}
use nwin_os.Common.Dict.{same}
use nwin_os.Common.Outcome.{returned, panicked, ok}
use nwin_os.Elf.{read_le}
use nwin_os.Ext4.{group_descriptor_at, inode_bytes, le}
use nwin_os.Ext4.Device.{Reply}
use nwin_os.Ext4.Directory.OnDisk.{IsDirectory}
use nwin_os.Ext4.Disk.{
  are_bytes, Disk, disk_device, disk_keeps, volume, here, parent, records, dir_disk, dir_node,
  here-FitsRecord, parent-FitsRecord,
}
use nwin_os.Ext4.Inodes.{IsLocated}
use nwin_os.Ext4.Node.{add_entry, read_sectors, find_last, with_entry}
use nwin_os.Ext4.Volume.{
  allocate, allocate_inode, allocate_block, find_free, free_bit, write_data_to_block, write_sectors,
  build_file_inode, write_inode, locate, logical_to_physical_sector, find_extent,
}
use nwin_os.DiskManager.{mi_texto, nombre_archivo, create_file}
use nwin_os.DiskManager.Creates.{create_file_reads_back}

abbrev disk_of : {A : Type 0} → Reply Disk A → Disk
disk_of panicked = dir_disk
disk_of (returned (r, d)) = d

abbrev disk1 : Disk
disk1 = disk_of (allocate_inode disk_device volume dir_disk)

abbrev disk2 : Disk
disk2 = disk_of (allocate_block disk_device volume disk1)

abbrev disk3 : Disk
disk3 = disk_of (write_data_to_block disk_device volume 0 mi_texto disk2)

abbrev disk4 : Disk
disk4 = disk_of (write_inode disk_device volume 13 (build_file_inode (length mi_texto) 0) disk3)

abbrev disk5 : Disk
disk5 = disk_of (add_entry disk_device (λ at. 7) (λ at. 7) dir_node nombre_archivo 13 disk4)

inode_reserved : allocate_inode disk_device volume dir_disk ≡ returned (ok 13, disk1)
unfolding are_bytes allocate group_descriptor_at read_le find_free free_bit has_bit set_bit
inode_reserved = refl

block_reserved : allocate_block disk_device volume disk1 ≡ returned (ok 0, disk2)
unfolding are_bytes allocate group_descriptor_at read_le find_free free_bit has_bit set_bit
block_reserved = refl

text_written : write_data_to_block disk_device volume 0 mi_texto disk2 ≡ returned (ok tt, disk3)
unfolding are_bytes allocate group_descriptor_at read_le find_free free_bit has_bit set_bit
    write_data_to_block write_sectors
text_written = refl

inode_written :
    write_inode disk_device volume 13 (build_file_inode (length mi_texto) 0) disk3
    ≡ returned (ok tt, disk4)
unfolding are_bytes allocate group_descriptor_at read_le find_free free_bit has_bit set_bit
    write_data_to_block write_sectors write_inode locate inode_bytes build_file_inode
inode_written = refl

name_entered :
    add_entry disk_device (λ at. 7) (λ at. 7) dir_node nombre_archivo 13 disk4
    ≡ returned (ok tt, disk5)
unfolding are_bytes allocate group_descriptor_at read_le find_free free_bit has_bit set_bit
    write_data_to_block write_sectors write_inode locate inode_bytes build_file_inode add_entry
    read_sectors find_last with_entry logical_to_physical_sector find_extent
name_entered = refl

thirteenth_is_located : IsLocated disk_device volume 13 disk3 116 0
unfolding are_bytes allocate group_descriptor_at read_le find_free free_bit has_bit set_bit
    write_data_to_block write_sectors
thirteenth_is_located = record {
  size = 1024;
  per_group = 32;
  table = le 4 3 ++ (le 4 4 ++ (le 4 5 ++ replicate 500 0));
  sized = refl;
  in_range = refl;
  grouped = refl;
  table_read = refl;
  descriptor_fits = omega arith;
  offset_fits = omega arith;
  sector_fits = omega arith;
  sector_eq = refl;
  place_eq = refl;
  apart = omega arith;
}

root-IsDirectory : IsDirectory disk_device (λ at. 7) dir_node 200 records disk4
unfolding are_bytes allocate group_descriptor_at read_le find_free free_bit has_bit set_bit
    write_data_to_block write_sectors write_inode locate inode_bytes build_file_inode
    logical_to_physical_sector find_extent
root-IsDirectory = record {
  is_directory = refl;
  sized = refl;
  whole = refl;
  maps = refl;
  there = (omega arith, refl, (omega arith, refl, tt));
}

here_other : same here.name nombre_archivo ≡ false
unfolding same
here_other = refl

parent_other : same parent.name nombre_archivo ≡ false
unfolding same
parent_other = refl

create_file_reads_back_example :
    create_file disk_device (λ at. 7) (λ at. 7) volume dir_node dir_disk
    ≡ some (returned (disk5, mi_texto ∷ []))
create_file_reads_back_example =
    create_file_reads_back disk_device disk_keeps (λ at. 7) (λ at. 7) dir_node 200 dir_disk disk1
      disk2 disk3 disk4 disk5 13 0 116 0 (here ∷ []) parent inode_reserved block_reserved
      text_written inode_written name_entered thirteenth_is_located root-IsDirectory
      (here-FitsRecord, tt) parent-FitsRecord (here_other, tt) parent_other (omega arith)
      (omega arith) (omega arith) (omega arith) (inl (omega arith)) (inl (omega arith))
      (inl (omega arith)) (inr (omega arith))
