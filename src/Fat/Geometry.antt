-- ===== src/Fat/Geometry.antt =====
-- Where the sectors of a FAT volume lie: `root_dir_sector`, `first_data_sector` and
-- `cluster_to_sector` of src/fs/fat/volume.rs.
use native.Mathlib.Nat.{mod-add-div', mod-lt, mul-le-mul_right, suc-mul, zero-mul}
use nwin_os.Common.{
  ℕ, zero, suc, ◌+◌, ◌-◌, ◌*◌, ◌/◌, ◌≤◌, ◌<◌, ◌≡◌, refl, ap, subst, ◌∙◌, false, none, some, ltb,
  ◌==◌, arith,
}
use nwin_os.Common.Outcome.{Outcome, returned}
use nwin_os.Fat.{
  FatVolume, Fat16BootSector, Fat32BootSector, fat16, fat32, Query, root_dir_sector,
  first_data_sector, cluster_to_sector, and_sector, cluster_at, root_of, root_dir_sectors,
  sector_of, sector,
}

-- On a FAT32 volume none of the three calls ever ends, whatever number of calls is allowed: the root
-- directory's sector is that of its cluster, which is counted from the first data sector, which is
-- the root directory's sector.
pub fat32_never_ends :
    (fuel : ℕ) (v : FatVolume) (bs : Fat32BootSector) (query : Query)
    → sector_of fuel v (fat32 bs) query ≡ none
unfolding sector_of
fat32_never_ends zero v bs query = refl
fat32_never_ends (suc fuel) v bs root_dir_sector =
    fat32_never_ends fuel v bs (cluster_to_sector bs.root_cluster)
fat32_never_ends (suc fuel) v bs first_data_sector = fat32_never_ends fuel v bs root_dir_sector
fat32_never_ends (suc fuel) v bs (cluster_to_sector cluster) =
    ap (and_sector (cluster_at (fat32 bs) cluster)) (fat32_never_ends fuel v bs first_data_sector)

abbrev pub data_of : FatVolume → Fat16BootSector → ℕ
data_of v bs = root_of v bs + root_dir_sectors bs

abbrev pub cluster_of : FatVolume → Fat16BootSector → ℕ → ℕ
cluster_of v bs cluster = data_of v bs + (cluster - 2) * bs.sectors_per_cluster

module _ (v : FatVolume) (bs : Fat16BootSector) (given : 0 < bs.bytes_per_sector) (fuel : ℕ) where
  first_ends :
      sector_of (suc (suc fuel)) v (fat16 bs) first_data_sector ≡ some (returned (data_of v bs))
  unfolding sector_of
  first_ends = rw sized refl
    where
      sized : (bs.bytes_per_sector == 0) ≡ false
      sized = ground (arith, given)

  cluster_ends :
      (cluster : ℕ)
      → 2 ≤ cluster
      → sector_of (suc (suc (suc fuel))) v (fat16 bs) (cluster_to_sector cluster)
        ≡ some (returned (cluster_of v bs cluster))
  unfolding sector_of
  cluster_ends cluster h =
      ap (and_sector (cluster_at (fat16 bs) cluster)) first_ends ∙ rw numbered refl
    where
      numbered : ltb cluster 2 ≡ false
      numbered = ground (arith, h)

-- A cluster's sector is found, or its number is refused.
pub every_cluster_ends :
    (v : FatVolume) (bs : Fat16BootSector)
    → v.fat_type ≡ fat16 bs
    → 0 < bs.bytes_per_sector
    → (c : ℕ) → (r : Outcome ℕ) × (sector v (cluster_to_sector c) ≡ some r)
unfolding sector sector_of
every_cluster_ends v bs is_fat16 given c = rw is_fat16 (
  cluster_at (fat16 bs) c (data_of v bs),
  ap (and_sector (cluster_at (fat16 bs) c)) (first_ends v bs given 0),
)

-- Rounding up leaves room for all.
rounded_up : (n b : ℕ) → 0 < b → n ≤ (n + (b - 1)) / b * b
rounded_up n b h = omega (arith, mod-add-div' (n + (b - 1)) b, mod-lt (n + (b - 1)) h)

module _ (v : FatVolume) (bs : Fat16BootSector) where
  root_fits :
      0 < bs.bytes_per_sector
      → bs.root_entry_count * 32 ≤ (data_of v bs - root_of v bs) * bs.bytes_per_sector
  root_fits given =
      subst (λ n. bs.root_entry_count * 32 ≤ n * bs.bytes_per_sector) taken
        (rounded_up (bs.root_entry_count * 32) bs.bytes_per_sector given)
    where
      taken : root_dir_sectors bs ≡ data_of v bs - root_of v bs
      taken = omega arith

  later_cluster :
      (c d : ℕ) → 2 ≤ c → c < d → cluster_of v bs c + bs.sectors_per_cluster ≤ cluster_of v bs d
  later_cluster c d low less =
      omega (
        arith,
        mul-le-mul_right bs.sectors_per_cluster next,
        suc-mul (c - 2) bs.sectors_per_cluster,
      )
    where
      next : suc (c - 2) ≤ d - 2
      next = omega (arith, low, less)

  first_cluster : cluster_of v bs 2 ≡ data_of v bs
  first_cluster = omega (arith, zero-mul bs.sectors_per_cluster)

-- On a FAT16 volume whose sectors are not empty the calls end. The root directory comes first, after
-- the reserved sectors and the tables, and its entries fit below the first data sector; cluster 2
-- begins there; and each cluster lies wholly below every later one.
pub fat16_layout :
    (v : FatVolume) (bs : Fat16BootSector)
    → v.fat_type ≡ fat16 bs
    → 0 < bs.bytes_per_sector
    → (root first : ℕ) × (at : ℕ → ℕ) × (sector v root_dir_sector ≡ some (returned root))
      × (sector v first_data_sector ≡ some (returned first))
      × ((c : ℕ) → 2 ≤ c → sector v (cluster_to_sector c) ≡ some (returned (at c)))
      × (root ≡ v.start_lba + bs.reserved_sector_count + bs.table_count * bs.table_size_16)
      × (bs.root_entry_count * 32 ≤ (first - root) * bs.bytes_per_sector)
      × (at 2 ≡ first)
      × ((c d : ℕ) → 2 ≤ c → c < d → at c + bs.sectors_per_cluster ≤ at d)
unfolding sector sector_of
fat16_layout v bs is_fat16 given = (
  root_of v bs,
  data_of v bs,
  cluster_of v bs,
  rw is_fat16 root_ends,
  rw is_fat16 (first_ends v bs given 1),
  (λ c low. rw is_fat16 (cluster_ends v bs given 0 c low)),
  refl,
  root_fits v bs given,
  first_cluster v bs,
  later_cluster v bs,
)
  where
    root_ends : sector_of 3 v (fat16 bs) root_dir_sector ≡ some (returned (root_of v bs))
    root_ends = refl
