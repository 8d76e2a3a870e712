-- ===== src/Fat.antt =====
-- The FAT driver: src/fs/fat/bpb.rs and src/fs/fat/volume.rs, and in Fat/Node src/fs/fat/mod.rs.
--
-- The block device is what `read_block` makes of a block number, `none` if it fails. Sectors are
-- counted without a bound, since the first one of a partition is a 32-bit number. `none` in the place
-- of an outcome means that the calls did not end within the fuel.
pub mod Geometry
pub mod Node
pub mod Listing
mod Tests
use Prim.Native.Nat.{bit_and}
use nwin_os.Common.{
  ℕ, zero, suc, ◌+◌, ◌-◌, ◌*◌, ◌/◌, ◌%◌, ◌^◌, Bool, true, false, not, ◌&&◌, Option, none, some,
  List, [], ◌∷◌, take, drop, ltb, leb, ◌==◌, if◌then◌else◌,
}
use nwin_os.Common.Outcome.{Outcome, returned, panicked, Result, ok, err}
use nwin_os.Elf.{read_le}
use nwin_os.Error.{FsError, block_read, bad_magic}
use nwin_os.Mbr.{byte}

pub record Fat16BootSector : Type 0 where
  pub jump_boot : List ℕ
  pub oem_name : List ℕ
  pub bytes_per_sector : ℕ
  pub sectors_per_cluster : ℕ
  pub reserved_sector_count : ℕ
  pub table_count : ℕ
  pub root_entry_count : ℕ
  pub total_sectors_16 : ℕ
  pub media_type : ℕ
  pub table_size_16 : ℕ
  pub sectors_per_track : ℕ
  pub head_side_count : ℕ
  pub hidden_sector_count : ℕ
  pub total_sectors_32 : ℕ
  pub drive_number : ℕ
  pub reserved_1 : ℕ
  pub boot_signature : ℕ
  pub volume_id : ℕ
  pub volume_label : List ℕ
  pub fat_type_label : List ℕ

pub record Fat32BootSector : Type 0 where
  pub jump_boot : List ℕ
  pub oem_name : List ℕ
  pub bytes_per_sector : ℕ
  pub sectors_per_cluster : ℕ
  pub reserved_sector_count : ℕ
  pub table_count : ℕ
  pub root_entry_count : ℕ
  pub total_sectors_16 : ℕ
  pub media_type : ℕ
  pub table_size_16 : ℕ
  pub sectors_per_track : ℕ
  pub head_side_count : ℕ
  pub hidden_sector_count : ℕ
  pub total_sectors_32 : ℕ
  pub table_size_32 : ℕ
  pub extended_flags : ℕ
  pub fat_version : ℕ
  pub root_cluster : ℕ
  pub fat_info : ℕ
  pub backup_bs_sector : ℕ
  pub reserved_0 : List ℕ
  pub drive_number : ℕ
  pub reserved_1 : ℕ
  pub boot_signature : ℕ
  pub volume_id : ℕ
  pub volume_label : List ℕ
  pub fat_type_label : List ℕ

pub data FatType : Type 0 where
  fat16 : Fat16BootSector → FatType
  fat32 : Fat32BootSector → FatType

pub record FatVolume : Type 0 where
  pub device : ℕ → Option (List ℕ)
  pub start_lba : ℕ
  pub fat_type : FatType

abbrev pub bytes_at : List ℕ → ℕ → ℕ → List ℕ
bytes_at buffer at n = take n (drop at buffer)

abbrev pub field : List ℕ → ℕ → ℕ → ℕ
field buffer at n = read_le (byte buffer) at n

-- The bytes of the sector copied into the packed records.
unfoldable pub fat16_at : List ℕ → Fat16BootSector
fat16_at buffer = record {
  jump_boot = bytes_at buffer 0 3;
  oem_name = bytes_at buffer 3 8;
  bytes_per_sector = field buffer 11 2;
  sectors_per_cluster = field buffer 13 1;
  reserved_sector_count = field buffer 14 2;
  table_count = field buffer 16 1;
  root_entry_count = field buffer 17 2;
  total_sectors_16 = field buffer 19 2;
  media_type = field buffer 21 1;
  table_size_16 = field buffer 22 2;
  sectors_per_track = field buffer 24 2;
  head_side_count = field buffer 26 2;
  hidden_sector_count = field buffer 28 4;
  total_sectors_32 = field buffer 32 4;
  drive_number = field buffer 36 1;
  reserved_1 = field buffer 37 1;
  boot_signature = field buffer 38 1;
  volume_id = field buffer 39 4;
  volume_label = bytes_at buffer 43 11;
  fat_type_label = bytes_at buffer 54 8;
}

unfoldable pub fat32_at : List ℕ → Fat32BootSector
fat32_at buffer = record {
  jump_boot = bytes_at buffer 0 3;
  oem_name = bytes_at buffer 3 8;
  bytes_per_sector = field buffer 11 2;
  sectors_per_cluster = field buffer 13 1;
  reserved_sector_count = field buffer 14 2;
  table_count = field buffer 16 1;
  root_entry_count = field buffer 17 2;
  total_sectors_16 = field buffer 19 2;
  media_type = field buffer 21 1;
  table_size_16 = field buffer 22 2;
  sectors_per_track = field buffer 24 2;
  head_side_count = field buffer 26 2;
  hidden_sector_count = field buffer 28 4;
  total_sectors_32 = field buffer 32 4;
  table_size_32 = field buffer 36 4;
  extended_flags = field buffer 40 2;
  fat_version = field buffer 42 2;
  root_cluster = field buffer 44 4;
  fat_info = field buffer 48 2;
  backup_bs_sector = field buffer 50 2;
  reserved_0 = bytes_at buffer 52 12;
  drive_number = field buffer 64 1;
  reserved_1 = field buffer 65 1;
  boot_signature = field buffer 66 1;
  volume_id = field buffer 67 4;
  volume_label = bytes_at buffer 71 11;
  fat_type_label = bytes_at buffer 82 8;
}

-- The volume whose boot sector is in the buffer.
abbrev pub volume_at : (ℕ → Option (List ℕ)) → ℕ → List ℕ → Result FatVolume FsError
volume_at device start_lba buffer =
    if byte buffer 510 == 0x55 && byte buffer 511 == 0xAA
    then ok (record {
      device = device;
      start_lba = start_lba;
      fat_type =
          if field buffer 22 2 == 0 then fat32 (fat32_at buffer) else fat16 (fat16_at buffer);
    })
    else err (bad_magic 0xAA55 (field buffer 510 2))

abbrev pub mounted : (ℕ → Option (List ℕ)) → ℕ → Option (List ℕ) → Result FatVolume FsError
mounted device start_lba none = err block_read
mounted device start_lba (some buffer) = volume_at device start_lba buffer

unfoldable pub mount : (ℕ → Option (List ℕ)) → ℕ → Result FatVolume FsError
mount device start_lba = mounted device start_lba (device start_lba)

-- `root_dir_sector`, `first_data_sector` and `cluster_to_sector`, which call each other.
pub data Query : Type 0 where
  root_dir_sector first_data_sector : Query
  cluster_to_sector : ℕ → Query

abbrev pub Sector : Type 0
Sector = Option (Outcome ℕ)

abbrev pub and_sector : (ℕ → Outcome ℕ) → Sector → Sector
and_sector f none = none
and_sector f (some panicked) = some panicked
and_sector f (some (returned n)) = some (f n)

abbrev pub root_of : FatVolume → Fat16BootSector → ℕ
root_of v bs = v.start_lba + bs.reserved_sector_count + bs.table_count * bs.table_size_16

abbrev pub root_dir_sectors : Fat16BootSector → ℕ
root_dir_sectors bs = (bs.root_entry_count * 32 + (bs.bytes_per_sector - 1)) / bs.bytes_per_sector

abbrev pub sectors_per_cluster_of : FatType → ℕ
sectors_per_cluster_of (fat16 bs) = bs.sectors_per_cluster
sectors_per_cluster_of (fat32 bs) = bs.sectors_per_cluster

-- A cluster below 2 makes the difference overflow.
abbrev pub cluster_at : FatType → (cluster data_start : ℕ) → Outcome ℕ
cluster_at t cluster data_start =
    if ltb cluster 2
    then panicked
    else returned (data_start + (cluster - 2) * sectors_per_cluster_of t)

unfoldable pub sector_of : ℕ → FatVolume → FatType → Query → Sector
sector_of zero v t query = none
sector_of (suc fuel) v (fat16 bs) root_dir_sector = some (returned (root_of v bs))
sector_of (suc fuel) v (fat32 bs) root_dir_sector =
    sector_of fuel v (fat32 bs) (cluster_to_sector bs.root_cluster)
sector_of (suc fuel) v (fat16 bs) first_data_sector =
    let root = sector_of fuel v (fat16 bs) root_dir_sector in
    if bs.bytes_per_sector == 0
    then some panicked
    else and_sector (λ n. returned (n + root_dir_sectors bs)) root
sector_of (suc fuel) v (fat32 bs) first_data_sector = sector_of fuel v (fat32 bs) root_dir_sector
sector_of (suc fuel) v t (cluster_to_sector cluster) =
    and_sector (cluster_at t cluster) (sector_of fuel v t first_data_sector)

-- Three calls are enough for FAT16.
unfoldable pub sector : FatVolume → Query → Sector
sector v query = sector_of 3 v v.fat_type query

-- The entry of a cluster in the table: `width` bytes that are not all inside the sector panic.
abbrev pub table_entry : List ℕ → (byte_in_sector width : ℕ) → Outcome ℕ
table_entry buffer byte_in_sector width =
    if leb (byte_in_sector + width) 512
    then returned (field buffer byte_in_sector width)
    else panicked

abbrev pub chain_end : (mask : ℕ → ℕ) (last : ℕ) → Outcome ℕ → Outcome (Option ℕ)
chain_end mask last panicked = panicked
chain_end mask last (returned next) =
    returned (if leb last (mask next) then none else some (mask next))

abbrev pub next_in :
    (width : ℕ) (mask : ℕ → ℕ) (last byte_in_sector : ℕ) → Option (List ℕ) → Outcome (Option ℕ)
next_in width mask last byte_in_sector none = returned none
next_in width mask last byte_in_sector (some buffer) =
    chain_end mask last (table_entry buffer byte_in_sector width)

abbrev pub next_of :
    FatVolume
    → (reserved bytes_per_sector width : ℕ) (mask : ℕ → ℕ) (last cluster : ℕ) → Outcome (Option ℕ)
next_of v reserved bytes_per_sector width mask last cluster =
    if bytes_per_sector == 0
    then panicked
    else next_in width mask last (cluster * width % bytes_per_sector)
        (v.device (v.start_lba + reserved + cluster * width / bytes_per_sector))

unfoldable pub next_cluster_of : FatVolume → FatType → ℕ → Outcome (Option ℕ)
next_cluster_of v (fat16 bs) cluster =
    next_of v bs.reserved_sector_count bs.bytes_per_sector 2 (λ next. next) 0xFFF8 cluster
next_cluster_of v (fat32 bs) cluster =
    next_of v bs.reserved_sector_count bs.bytes_per_sector 4 (λ next. bit_and next 0x0FFF_FFFF)
      0x0FFF_FFF8 cluster

unfoldable pub next_cluster : FatVolume → ℕ → Outcome (Option ℕ)
next_cluster v cluster = next_cluster_of v v.fat_type cluster
