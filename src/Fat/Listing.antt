-- ===== src/Fat/Listing.antt =====
-- What the driver prints of a FAT volume when it is found: `debug_info` and `list_root_dir` of
-- src/fs/fat/volume.rs. The lines of text are the items they are made from.
use Prim.Native.Nat.{bit_and}
use nwin_os.Common.{
  ℕ, zero, suc, ◌+◌, ◌*◌, not, Option, none, some, List, [], ◌∷◌, ◌==◌, if◌then◌else◌,
}
use nwin_os.Common.Dict.{Str}
use nwin_os.Common.Outcome.{Outcome, returned, panicked}
use nwin_os.Fat.{FatVolume, root_dir_sector, first_data_sector, Sector, sector, next_cluster}
use nwin_os.Fat.Node.{DirectoryEntry, directory_entry_at, current_name, is_skipped}
use nwin_os.Mbr.{byte}

pub data Listed : Type 0 where
  listed_dir : Str → (start_cluster : ℕ) → Listed
  listed_file : Str → (file_size start_cluster fragments : ℕ) → Listed

abbrev pub counted : ℕ → (ℕ → Outcome ℕ) → Outcome (Option ℕ) → Outcome ℕ
counted fragments go_on panicked = panicked
counted fragments go_on (returned none) = returned fragments
counted fragments go_on (returned (some next)) = go_on next

-- The length of a chain. The loop is left when it has counted more than 20000 fragments, which is
-- after 20000 turns.
unfoldable pub count_fragments : (turns : ℕ) → FatVolume → (current fragments : ℕ) → Outcome ℕ
count_fragments zero v current fragments = returned fragments
count_fragments (suc turns) v current fragments =
    counted fragments (λ next. count_fragments turns v next (suc fragments))
      (next_cluster v current)

abbrev pub listed_before : Outcome Listed → Outcome (List Listed) → Outcome (List Listed)
listed_before panicked rest = panicked
listed_before (returned item) panicked = panicked
listed_before (returned item) (returned items) = returned (item ∷ items)

abbrev pub as_file : DirectoryEntry → ℕ → Outcome ℕ → Outcome Listed
as_file e start_cluster panicked = panicked
as_file e start_cluster (returned fragments) =
    returned (listed_file (current_name e.name) e.file_size start_cluster fragments)

abbrev pub start_cluster_of : DirectoryEntry → ℕ
start_cluster_of e = e.first_cluster_high * 65536 + e.first_cluster_low

abbrev pub item_of : FatVolume → DirectoryEntry → Outcome Listed
item_of v e =
    if not (bit_and e.attributes 0x10 == 0)
    then returned (listed_dir (current_name e.name) (start_cluster_of e))
    else as_file e (start_cluster_of e) (count_fragments 20000 v (start_cluster_of e) 1)

-- The entries of a sector from the byte `at` on.
unfoldable pub list_entries : FatVolume → List ℕ → (entries at : ℕ) → Outcome (List Listed)
list_entries v buffer zero at = returned []
list_entries v buffer (suc entries) at =
    let e = directory_entry_at buffer at in
    let rest = list_entries v buffer entries (at + 32) in
    if byte e.name 0 == 0
    then returned []
    else if is_skipped e
    then rest
    else listed_before (item_of v e) rest

abbrev pub list_block : FatVolume → Option (List ℕ) → Outcome (List Listed)
list_block v none = returned []
list_block v (some buffer) = list_entries v buffer 16 0

abbrev pub list_sector : FatVolume → Sector → Option (Outcome (List Listed))
list_sector v none = none
list_sector v (some panicked) = some panicked
list_sector v (some (returned root_sector)) = some (list_block v (v.device root_sector))

unfoldable pub list_root_dir : FatVolume → Option (Outcome (List Listed))
list_root_dir v = list_sector v (sector v root_dir_sector)

abbrev pub both : Sector → Sector → Option (Outcome (ℕ × ℕ))
both none second = none
both (some panicked) second = some panicked
both (some (returned root)) none = none
both (some (returned root)) (some panicked) = some panicked
both (some (returned root)) (some (returned first)) = some (returned (root, first))

-- The two sectors that are printed.
unfoldable pub debug_info : FatVolume → Option (Outcome (ℕ × ℕ))
debug_info v = both (sector v root_dir_sector) (sector v first_data_sector)
