-- ===== src/Ext4.antt =====
-- The ext4 driver: the structures on the disk of src/fs/ext4/super_block.rs, block_group.rs,
-- dir_entry.rs, extents.rs and inode.rs, and the block device of src/fs/mod.rs that it works on. The
-- operations of src/fs/ext4/volume.rs are in Ext4/Volume, those of src/fs/ext4/mod.rs in Ext4/Node.
--
-- A device is what its two functions make of its state; a block that is read does not change it. The
-- numbers of the structures are read from bytes, the lowest first.
pub mod Device
pub mod Disk
pub mod Volume
pub mod Node
pub mod Slices
pub mod Allocation
pub mod Inodes
pub mod Extents
pub mod Fills
pub mod Directory
pub mod Sectors
pub mod Files
mod Tests
use Prim.Native.Nat.{bit_and}
use nwin_os.Common.{
  ℕ, zero, suc, ◌+◌, ◌*◌, ◌/◌, ◌%◌, ◌^◌, Bool, List, [], ◌∷◌, ◌++◌, take, drop, ◌==◌,
}
use nwin_os.Elf.{read_le}
use nwin_os.Mbr.{byte}

abbrev pub field : List ℕ → ℕ → ℕ → ℕ
field buffer at n = read_le (byte buffer) at n

-- The `n` lowest bytes of a number.
abbrev pub le : ℕ → ℕ → List ℕ
le zero x = []
le (suc n) x = (x % 256) ∷ le n (x / 256)

pub record Ext4SuperBlock : Type 0 where
  pub s_inodes_count : ℕ
  pub s_blocks_count_lo : ℕ
  pub s_r_blocks_count_lo : ℕ
  pub s_free_blocks_count_lo : ℕ
  pub s_free_inodes_count : ℕ
  pub s_first_data_block : ℕ
  pub s_log_block_size : ℕ
  pub s_log_cluster_size : ℕ
  pub s_blocks_per_group : ℕ
  pub s_clusters_per_group : ℕ
  pub s_inodes_per_group : ℕ
  pub s_mtime : ℕ
  pub s_wtime : ℕ
  pub s_mnt_count : ℕ
  pub s_max_mnt_count : ℕ
  pub s_magic : ℕ
  pub s_state : ℕ
  pub s_errors : ℕ
  pub s_minor_rev_level : ℕ
  pub s_lastcheck : ℕ
  pub s_checkinterval : ℕ
  pub s_creator_os : ℕ
  pub s_rev_level : ℕ
  pub s_def_resuid : ℕ
  pub s_def_resgid : ℕ

unfoldable pub super_block_at : List ℕ → Ext4SuperBlock
super_block_at buffer = record {
  s_inodes_count = field buffer 0 4;
  s_blocks_count_lo = field buffer 4 4;
  s_r_blocks_count_lo = field buffer 8 4;
  s_free_blocks_count_lo = field buffer 12 4;
  s_free_inodes_count = field buffer 16 4;
  s_first_data_block = field buffer 20 4;
  s_log_block_size = field buffer 24 4;
  s_log_cluster_size = field buffer 28 4;
  s_blocks_per_group = field buffer 32 4;
  s_clusters_per_group = field buffer 36 4;
  s_inodes_per_group = field buffer 40 4;
  s_mtime = field buffer 44 4;
  s_wtime = field buffer 48 4;
  s_mnt_count = field buffer 52 2;
  s_max_mnt_count = field buffer 54 2;
  s_magic = field buffer 56 2;
  s_state = field buffer 58 2;
  s_errors = field buffer 60 2;
  s_minor_rev_level = field buffer 62 2;
  s_lastcheck = field buffer 64 4;
  s_checkinterval = field buffer 68 4;
  s_creator_os = field buffer 72 4;
  s_rev_level = field buffer 76 4;
  s_def_resuid = field buffer 80 2;
  s_def_resgid = field buffer 82 2;
}

pub record Ext4BlockGroupDescriptor : Type 0 where
  pub bg_block_bitmap_lo : ℕ
  pub bg_inode_bitmap_lo : ℕ
  pub bg_inode_table_lo : ℕ
  pub bg_free_blocks_count_lo : ℕ
  pub bg_free_inodes_count_lo : ℕ
  pub bg_used_dirs_count_lo : ℕ
  pub bg_flags : ℕ
  pub bg_exclude_bitmap_lo : ℕ
  pub bg_block_bitmap_csum_lo : ℕ
  pub bg_inode_bitmap_csum_lo : ℕ
  pub bg_itable_unused_lo : ℕ
  pub bg_checksum : ℕ

unfoldable pub group_descriptor_at : List ℕ → ℕ → Ext4BlockGroupDescriptor
group_descriptor_at buffer at = record {
  bg_block_bitmap_lo = field buffer at 4;
  bg_inode_bitmap_lo = field buffer (at + 4) 4;
  bg_inode_table_lo = field buffer (at + 8) 4;
  bg_free_blocks_count_lo = field buffer (at + 12) 2;
  bg_free_inodes_count_lo = field buffer (at + 14) 2;
  bg_used_dirs_count_lo = field buffer (at + 16) 2;
  bg_flags = field buffer (at + 18) 2;
  bg_exclude_bitmap_lo = field buffer (at + 20) 4;
  bg_block_bitmap_csum_lo = field buffer (at + 24) 2;
  bg_inode_bitmap_csum_lo = field buffer (at + 26) 2;
  bg_itable_unused_lo = field buffer (at + 28) 2;
  bg_checksum = field buffer (at + 30) 2;
}

pub record Ext4Inode : Type 0 where
  pub i_mode : ℕ
  pub i_uid : ℕ
  pub i_size_lo : ℕ
  pub i_atime : ℕ
  pub i_ctime : ℕ
  pub i_mtime : ℕ
  pub i_dtime : ℕ
  pub i_gid : ℕ
  pub i_links_count : ℕ
  pub i_blocks_lo : ℕ
  pub i_flags : ℕ
  pub i_osd1 : ℕ
  pub i_block : List ℕ
  pub i_generation : ℕ
  pub i_file_acl_lo : ℕ
  pub i_size_hi : ℕ
  pub i_obso_faddr : ℕ

-- The 116 bytes of an inode on the disk, and back.
unfoldable pub inode_bytes : Ext4Inode → List ℕ
inode_bytes i =
    le 2 i.i_mode
    ++ (le 2 i.i_uid
        ++ (le 4 i.i_size_lo
            ++ (le 4 i.i_atime
                ++ (le 4 i.i_ctime
                    ++ (le 4 i.i_mtime
                        ++ (le 4 i.i_dtime
                            ++ (le 2 i.i_gid
                                ++ (le 2 i.i_links_count
                                    ++ (le 4 i.i_blocks_lo
                                        ++ (le 4 i.i_flags
                                            ++ (le 4 i.i_osd1
                                                ++ (i.i_block
                                                    ++ (le 4 i.i_generation
                                                        ++ (le 4 i.i_file_acl_lo
                                                            ++ (le 4 i.i_size_hi
                                                            ++ le 4 i.i_obso_faddr)))))))))))))))

unfoldable pub inode_at : List ℕ → ℕ → Ext4Inode
inode_at buffer at =
    let head = drop at buffer in
    let tail = drop 100 head in
    record {
      i_mode = field head 0 2;
      i_uid = field head 2 2;
      i_size_lo = field head 4 4;
      i_atime = field head 8 4;
      i_ctime = field head 12 4;
      i_mtime = field head 16 4;
      i_dtime = field head 20 4;
      i_gid = field head 24 2;
      i_links_count = field head 26 2;
      i_blocks_lo = field head 28 4;
      i_flags = field head 32 4;
      i_osd1 = field head 36 4;
      i_block = take 60 (drop 40 head);
      i_generation = field tail 0 4;
      i_file_acl_lo = field tail 4 4;
      i_size_hi = field tail 8 4;
      i_obso_faddr = field tail 12 4;
    }

pub is_directory : Ext4Inode → Bool
is_directory i = bit_and i.i_mode 0xF000 == 0x4000

-- `size`, whose name the nodes have for their own.
abbrev pub size_of : Ext4Inode → ℕ
size_of i = i.i_size_hi * 2 ^ 32 + i.i_size_lo

pub record Ext4ExtentHeader : Type 0 where
  pub eh_magic : ℕ
  pub eh_entries : ℕ
  pub eh_max : ℕ
  pub eh_depth : ℕ
  pub eh_generation : ℕ

pub record Ext4Extent : Type 0 where
  pub ee_block : ℕ
  pub ee_len : ℕ
  pub ee_start_hi : ℕ
  pub ee_start_lo : ℕ

abbrev pub extent_header_bytes : Ext4ExtentHeader → List ℕ
extent_header_bytes h =
    le 2 h.eh_magic
    ++ (le 2 h.eh_entries ++ (le 2 h.eh_max ++ (le 2 h.eh_depth ++ le 4 h.eh_generation)))

abbrev pub extent_bytes : Ext4Extent → List ℕ
extent_bytes e = le 4 e.ee_block ++ (le 2 e.ee_len ++ (le 2 e.ee_start_hi ++ le 4 e.ee_start_lo))

-- What follows the eight bytes of the header is the name.
pub record Ext4DirEntryHeader : Type 0 where
  pub inode : ℕ
  pub rec_len : ℕ
  pub name_len : ℕ
  pub file_type : ℕ
