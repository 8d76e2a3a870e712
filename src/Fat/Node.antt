-- ===== src/Fat/Node.antt =====
-- The nodes of a FAT volume: src/fs/fat/mod.rs.
--
-- A block that is read has 512 bytes. Slices out of bounds, divisions by zero and differences below
-- zero are panics. `none` in the place of an outcome means that calls or a loop did not end within
-- the fuel; on a FAT32 volume a call for a sector never ends.
pub mod Fills
use Prim.Native.Nat.{bit_and}
use nwin_os.Common.{
  ℕ, zero, suc, ◌+◌, ◌-◌, ◌*◌, ◌/◌, ◌%◌, min, Bool, true, false, not, ◌&&◌, ◌||◌, Option, none,
  some, List, [], ◌∷◌, ◌++◌, take, drop, ltb, leb, ◌==◌, if◌then◌else◌, length,
}
use nwin_os.Common.Dict.{Str, same}
use nwin_os.Common.Outcome.{Outcome, returned, panicked}
use nwin_os.Mbr.{byte}
use nwin_os.Fat.{
  FatVolume, FatType, fat16, fat32, Query, root_dir_sector, cluster_to_sector, Sector, sector,
  sectors_per_cluster_of, next_cluster, bytes_at, field,
}

pub record FatNode : Type 0 where
  pub volume : FatVolume
  pub start_cluster : ℕ
  pub is_directory : Bool
  pub size : ℕ

pub new_root : FatVolume → FatNode
new_root volume = record { volume = volume; start_cluster = 0; is_directory = true; size = 0 }

abbrev pub is_dir : FatNode → Bool
is_dir node = node.is_directory

abbrev pub get_size : FatNode → ℕ
get_size node = node.size

-- What the driver uses of a directory entry.
pub record DirectoryEntry : Type 0 where
  pub name : List ℕ
  pub attributes : ℕ
  pub first_cluster_high : ℕ
  pub first_cluster_low : ℕ
  pub file_size : ℕ

abbrev pub directory_entry_at : List ℕ → ℕ → DirectoryEntry
directory_entry_at buffer at = record {
  name = bytes_at buffer at 11;
  attributes = field buffer (at + 11) 1;
  first_cluster_high = field buffer (at + 20) 2;
  first_cluster_low = field buffer (at + 26) 2;
  file_size = field buffer (at + 28) 4;
}

unfoldable pub without_spaces : List ℕ → Str
without_spaces [] = []
without_spaces (c ∷ s) = let rest = without_spaces s in if c == b' ' then rest else c ∷ rest

-- The 8.3 name without its padding.
unfoldable pub current_name : List ℕ → Str
current_name name =
    without_spaces (take 8 name)
    ++ (if byte name 8 == b' ' then [] else b'.' ∷ without_spaces (take 3 (drop 8 name)))

abbrev pub to_ascii_lowercase : ℕ → ℕ
to_ascii_lowercase c = if leb 0x41 c && leb c 0x5A then c + 0x20 else c

unfoldable pub eq_ignore_ascii_case : Str → Str → Bool
eq_ignore_ascii_case [] [] = true
eq_ignore_ascii_case [] (d ∷ t) = false
eq_ignore_ascii_case (c ∷ s) [] = false
eq_ignore_ascii_case (c ∷ s) (d ∷ t) =
    to_ascii_lowercase c == to_ascii_lowercase d && eq_ignore_ascii_case s t

-- Deleted entries, parts of long names and volume labels.
abbrev pub is_skipped : DirectoryEntry → Bool
is_skipped e = byte e.name 0 == 0xE5 || e.attributes == 0x0F || not (bit_and e.attributes 0x08 == 0)

abbrev pub node_of : FatVolume → DirectoryEntry → FatNode
node_of v e = record {
  volume = v;
  start_cluster = e.first_cluster_high * 65536 + e.first_cluster_low;
  is_directory = not (bit_and e.attributes 0x10 == 0);
  size = e.file_size;
}

-- The entries of a sector from the byte `at` on.
unfoldable pub search : FatVolume → List ℕ → Str → (entries at : ℕ) → Option FatNode
search v buffer name zero at = none
search v buffer name (suc entries) at =
    let e = directory_entry_at buffer at in
    let rest = search v buffer name entries (at + 32) in
    if byte e.name 0 == 0
    then none
    else if is_skipped e
    then rest
    else if eq_ignore_ascii_case (current_name e.name) name
    then some (node_of v e)
    else rest

abbrev pub search_block : FatVolume → Str → Option (List ℕ) → Option FatNode
search_block v name none = none
search_block v name (some buffer) = search v buffer name 16 0

abbrev pub search_sector : FatVolume → Str → Sector → Option (Outcome (Option FatNode))
search_sector v name none = none
search_sector v name (some panicked) = some panicked
search_sector v name (some (returned target_sector)) =
    some (returned (search_block v name (v.device target_sector)))

unfoldable pub lookup : FatNode → Str → Option (Outcome (Option FatNode))
lookup node name =
    if not node.is_directory
    then some (returned none)
    else search_sector node.volume name (
        sector node.volume (
          if node.start_cluster == 0
          then root_dir_sector
          else cluster_to_sector node.start_cluster))

abbrev pub bytes_per_sector_of : FatType → ℕ
bytes_per_sector_of (fat16 bs) = bs.bytes_per_sector
bytes_per_sector_of (fat32 bs) = bs.bytes_per_sector

module _ (v : FatVolume) (bytes_per_sector bytes_per_cluster : ℕ) where
  -- The cluster of an offset, if the chain is long enough.
  unfoldable pub skip : (clusters_to_skip : ℕ) → Outcome (Option ℕ) → Outcome (Option ℕ)
  skip zero c = c
  skip (suc n) panicked = panicked
  skip (suc n) (returned none) = returned none
  skip (suc n) (returned (some cluster)) = skip n (next_cluster v cluster)

  abbrev pub chunk_size : (offset_in_cluster left : ℕ) → ℕ
  chunk_size offset_in_cluster left =
      min (bytes_per_sector - offset_in_cluster % bytes_per_sector) left

  -- A turn gives its bytes and where the next one begins, if there is one.
  abbrev pub Turn : Type 0
  Turn = Outcome (List ℕ × Option (ℕ × ℕ))

  abbrev pub after_chunk : List ℕ → (offset_in_cluster : ℕ) → Outcome (Option ℕ) → Turn
  after_chunk copied offset_in_cluster panicked = panicked
  after_chunk copied offset_in_cluster (returned none) = returned (copied, none)
  after_chunk copied offset_in_cluster (returned (some cluster)) =
      returned (copied, some (cluster, offset_in_cluster))

  abbrev pub copy_block : (cluster offset_in_cluster left : ℕ) → Option (List ℕ) → Turn
  copy_block cluster offset_in_cluster left none = returned ([], none)
  copy_block cluster offset_in_cluster left (some sector_buffer) =
      let offset_in_sector = offset_in_cluster % bytes_per_sector in
      let size = chunk_size offset_in_cluster left in
      let copied = bytes_at sector_buffer offset_in_sector size in
      if ltb 512 (offset_in_sector + size)
      then panicked
      else if offset_in_cluster + size == bytes_per_cluster
      then after_chunk copied 0 (next_cluster v cluster)
      else returned (copied, some (cluster, offset_in_cluster + size))

  abbrev pub copy_sector : (cluster offset_in_cluster left : ℕ) → Sector → Option Turn
  copy_sector cluster offset_in_cluster left none = none
  copy_sector cluster offset_in_cluster left (some panicked) = some panicked
  copy_sector cluster offset_in_cluster left (some (returned n)) = some (
      copy_block cluster offset_in_cluster left
        (v.device (n + offset_in_cluster / bytes_per_sector)))

  abbrev pub prepend : List ℕ → Option (Outcome (List ℕ)) → Option (Outcome (List ℕ))
  prepend copied none = none
  prepend copied (some panicked) = some panicked
  prepend copied (some (returned rest)) = some (returned (copied ++ rest))

  abbrev pub then_read :
      (ℕ → ℕ → ℕ → Option (Outcome (List ℕ))) → ℕ → Option Turn → Option (Outcome (List ℕ))
  then_read go_on left none = none
  then_read go_on left (some panicked) = some panicked
  then_read go_on left (some (returned (copied, none))) = some (returned copied)
  then_read go_on left (some (returned (copied, some (cluster, offset_in_cluster)))) =
      prepend copied (go_on cluster offset_in_cluster (left - length copied))

  -- The loop of `read`, with the bytes that are left to be read.
  unfoldable pub read_from : ℕ → (cluster offset_in_cluster left : ℕ) → Option (Outcome (List ℕ))
  read_from zero cluster offset_in_cluster left = none
  read_from (suc fuel) cluster offset_in_cluster left =
      let rest =
        then_read (λ c o l. read_from fuel c o l) left
          (copy_sector cluster offset_in_cluster left (sector v (cluster_to_sector cluster))) in
      if left == 0 then some (returned []) else rest

  abbrev pub read_chain : (offset left : ℕ) → Outcome (Option ℕ) → Option (Outcome (List ℕ))
  read_chain offset left panicked = some panicked
  read_chain offset left (returned none) = some (returned [])
  read_chain offset left (returned (some cluster)) =
      read_from (suc left) cluster (offset % bytes_per_cluster) left

-- The bytes that are copied into a buffer of `buf_len` bytes.
unfoldable pub read : FatNode → (offset buf_len : ℕ) → Option (Outcome (List ℕ))
read node offset buf_len =
    let v = node.volume in
    let per_sector = bytes_per_sector_of v.fat_type in
    let per_cluster = per_sector * sectors_per_cluster_of v.fat_type in
    if node.is_directory || leb node.size offset || node.start_cluster == 0 || buf_len == 0
    then some (returned [])
    else if per_cluster == 0
    then some panicked
    else read_chain v per_sector per_cluster offset (min buf_len (node.size - offset))
        (skip v per_sector per_cluster (offset / per_cluster) (returned (some node.start_cluster)))
