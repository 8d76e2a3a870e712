-- ===== src/Fat/Tests.antt =====
-- A small FAT16 volume with one file: tests, and instances of the theorems.
use nwin_os.Common.{
  ℕ, ◌+◌, ◌-◌, ◌*◌, ◌≤◌, ◌<◌, ◌≡◌, refl, sym, ap, ◌∙◌, min, Option, none, some, List, [], false,
  replicate, length-replicate, length, arith,
}
use nwin_os.Common.Outcome.{returned}
use nwin_os.Fat.{
  Fat16BootSector, Fat32BootSector, fat32_at, FatVolume, fat16, fat32, root_dir_sector,
  first_data_sector, cluster_to_sector, sector_of, sector,
}
use nwin_os.Fat.Geometry.{fat32_never_ends, fat16_layout}
use nwin_os.Fat.Node.{FatNode, read}
use nwin_os.Fat.Node.Fills.{AreBlocks, ReadsAtMost, read-ReadsAtMost}

abbrev boot_sector : Fat16BootSector
boot_sector = record {
  jump_boot = [];
  oem_name = [];
  bytes_per_sector = 512;
  sectors_per_cluster = 4;
  reserved_sector_count = 1;
  table_count = 2;
  root_entry_count = 512;
  total_sectors_16 = 20000;
  media_type = 0xF8;
  table_size_16 = 32;
  sectors_per_track = 32;
  head_side_count = 64;
  hidden_sector_count = 0;
  total_sectors_32 = 0;
  drive_number = 0x80;
  reserved_1 = 0;
  boot_signature = 0x29;
  volume_id = 1;
  volume_label = [];
  fat_type_label = [];
}

abbrev volume : FatVolume
volume = record {
  device = λ n. some (replicate 512 n);
  start_lba = 2048;
  fat_type = fat16 boot_sector;
}

abbrev zeros : Fat32BootSector
zeros = fat32_at []

fat32_never_ends_example : sector_of 1000 volume (fat32 zeros) root_dir_sector ≡ none
fat32_never_ends_example = fat32_never_ends 1000 volume zeros root_dir_sector

fat16_layout_example :
    (root first : ℕ) × (at : ℕ → ℕ) × (sector volume root_dir_sector ≡ some (returned root))
    × (sector volume first_data_sector ≡ some (returned first))
    × ((c : ℕ) → 2 ≤ c → sector volume (cluster_to_sector c) ≡ some (returned (at c)))
    × (root ≡ 2048 + 1 + 2 * 32)
    × (512 * 32 ≤ (first - root) * 512)
    × (at 2 ≡ first)
    × ((c d : ℕ) → 2 ≤ c → c < d → at c + 4 ≤ at d)
fat16_layout_example = fat16_layout volume boot_sector refl (omega arith)

abbrev file : FatNode
file = record { volume = volume; start_cluster = 3; is_directory = false; size = 700 }

abbrev length_of : Option (List ℕ) → ℕ
length_of none = 0
length_of (some b) = length b

blocks : AreBlocks volume.device
blocks n b e = ap length_of (sym e) ∙ length-replicate 512 n

read-ReadsAtMost_example : ReadsAtMost (min 600 (700 - 100)) (read file 100 600)
read-ReadsAtMost_example = read-ReadsAtMost file boot_sector 100 600 refl blocks
