-- ===== src/Ext4/Extents.antt =====
-- Where the blocks of a file lie that the driver makes.
use nwin_os.Common.{ℕ, suc, ◌^◌, ◌<◌, ◌≡◌, ap, none, arith}
use nwin_os.Common.Outcome.{returned}
use nwin_os.Elf.{read_le}
use nwin_os.Ext4.Volume.{
  Ext4Volume, block_size, target_sector, find_extent, logical_to_physical_sector, build_file_inode,
}

-- The inode that is made for a block has its first block there, whatever lies behind it in memory,
-- and no other block.
pub build_file_inode_maps :
    (past : ℕ → ℕ) (v : Ext4Volume) (size file_size physical_block : ℕ)
    → block_size v.super_block ≡ returned size
    → physical_block < 2 ^ 32
    → (logical_to_physical_sector past v (build_file_inode file_size physical_block) 0
        ≡ target_sector v size physical_block)
      × ((b : ℕ)
          → logical_to_physical_sector past v (build_file_inode file_size physical_block) (suc b)
            ≡ returned none)
unfolding logical_to_physical_sector build_file_inode find_extent read_le
build_file_inode_maps past v size file_size physical_block e h =
    rw e (ap (target_sector v size) (omega (arith, h)), λ b. ground arith)
