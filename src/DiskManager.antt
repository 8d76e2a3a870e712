-- ===== src/DiskManager.antt =====
-- The disk manager of src/fs/manager.rs: what it does with a disk that a driver has found. Its lines
-- on the serial port are left out, and so are the errors that it only prints.
--
-- The result is the disk as it is then and, for every file that was created, what was read of it
-- again. `none` in the place of an outcome means that a call of the FAT driver did not end. `past` and
-- `beyond` are the bytes behind an inode and behind a directory's buffer, as for the ext4 driver.
pub mod Creates
mod Runs
use nwin_os.Common.{
  ℕ, ◌+◌, Bool, true, false, Option, none, some, List, [], ◌∷◌, ◌++◌, length, if◌then◌else◌,
}
use nwin_os.Common.Outcome.{Outcome, returned, panicked, Result, ok, err}
use nwin_os.Error.{FsError}
use nwin_os.Ext4.Device.{BlockDevice, Reply}
use nwin_os.Ext4.Node.{Ext4Node, new_root, add_entry, lookup, read}
use nwin_os.Ext4.Volume.{
  Ext4Volume, mount, debug_info, allocate_inode, allocate_block, write_data_to_block,
  build_file_inode, write_inode,
}
use nwin_os.Fat.{FatVolume, mount as mount_fat}
use nwin_os.Fat.Listing.{list_root_dir, debug_info as debug_fat}
use nwin_os.Mbr.{PartitionEntry, Mbr, is_empty, is_fat, is_linux, is_gpt_protective, read_from}

abbrev pub mi_texto : List ℕ
mi_texto =
    b'H' ∷ b'e' ∷ b'l' ∷ b'l' ∷ b'o' ∷ b' ' ∷ b'W' ∷ b'o' ∷ b'r' ∷ b'l' ∷ b'd' ∷ b'!' ∷ b' ' ∷ b'T'
    ∷ b'h' ∷ b'i' ∷ b's' ∷ b' ' ∷ b'f' ∷ b'i' ∷ b'l' ∷ b'e' ∷ b' ' ∷ b'w' ∷ b'a' ∷ b's' ∷ b' '
    ∷ b'c' ∷ b'r' ∷ b'e' ∷ b'a' ∷ b't' ∷ b'e' ∷ b'd' ∷ b',' ∷ b' ' ∷ b'm' ∷ b'a' ∷ b'p' ∷ b'p'
    ∷ b'e' ∷ b'd' ∷ b' ' ∷ b'a' ∷ b'n' ∷ b'd' ∷ b' ' ∷ b'w' ∷ b'r' ∷ b'i' ∷ b't' ∷ b't' ∷ b'e'
    ∷ b'n' ∷ b' ' ∷ b'1' ∷ b'0' ∷ b'0' ∷ b'%' ∷ b' ' ∷ b'b' ∷ b'y' ∷ b' ' ∷ b'N' ∷ b'W' ∷ b'I'
    ∷ b'N' ∷ b' ' ∷ b'O' ∷ b'S' ∷ b'.' ∷ []

abbrev pub nombre_archivo : List ℕ
nombre_archivo =
    b'n' ∷ b'w' ∷ b'i' ∷ b'n' ∷ b'_' ∷ b'c' ∷ b'o' ∷ b'r' ∷ b'e' ∷ b'.' ∷ b't' ∷ b'x' ∷ b't' ∷ []

-- The disk, and what was read of the files.
abbrev pub Probe : Type 0 → Type 0
Probe D = Option (Outcome (D × List (List ℕ)))

module _ {D : Type 0} where
  abbrev pub unchanged : D → Probe D
  unchanged d = some (returned (d, []))

  abbrev pub read_of : D → Option (Outcome (List ℕ)) → Probe D
  read_of d none = none
  read_of d (some panicked) = some panicked
  read_of d (some (returned read_buf)) = some (returned (d, read_buf ∷ []))

  -- A call whose result is printed.
  abbrev pub and_print : {A : Type 0} → D → Option (Outcome A) → Probe D → Probe D
  and_print d none go_on = none
  and_print d (some panicked) go_on = some panicked
  and_print d (some (returned a)) go_on = go_on

  -- What follows an operation whose error is ignored.
  abbrev pub whatever : {A : Type 0} → Reply D A → (D → Probe D) → Probe D
  whatever panicked go_on = some panicked
  whatever (returned (r, d)) go_on = go_on d

  -- `if let Ok(a) = …`
  abbrev pub if_ok : {A : Type 0} → Reply D A → (A → D → Probe D) → Probe D
  if_ok panicked go_on = some panicked
  if_ok (returned (err e, d)) go_on = unchanged d
  if_ok (returned (ok a, d)) go_on = go_on a d

  abbrev pub after_outcome : {A : Type 0} → Outcome A → (A → Probe D) → Probe D
  after_outcome panicked go_on = some panicked
  after_outcome (returned a) go_on = go_on a

  abbrev pub with_file : D → Option (Outcome (Option Ext4Node)) → (Ext4Node → Probe D) → Probe D
  with_file d none go_on = none
  with_file d (some panicked) go_on = some panicked
  with_file d (some (returned none)) go_on = unchanged d
  with_file d (some (returned (some file))) go_on = go_on file

  abbrev pub also : List (List ℕ) → Probe D → Probe D
  also bs none = none
  also bs (some panicked) = some panicked
  also bs (some (returned (d, cs))) = some (returned (d, bs ++ cs))

  abbrev pub and_then : Probe D → (D → Probe D) → Probe D
  and_then none go_on = none
  and_then (some panicked) go_on = some panicked
  and_then (some (returned (d, read_bufs))) go_on = also read_bufs (go_on d)

module _ {D : Type 0} (dev : BlockDevice D) (past beyond : ℕ → ℕ) where
  abbrev pub inspect_fat : D → Result FatVolume FsError → Probe D
  inspect_fat d (err e) = unchanged d
  inspect_fat d (ok fat) =
      and_print d (debug_fat fat) (and_print d (list_root_dir fat) (unchanged d))

  -- The file is created, and read through its name.
  unfoldable pub create_file : Ext4Volume → Ext4Node → D → Probe D
  create_file shared_vol root_node d = if_ok (allocate_inode dev shared_vol d) (λ nuevo_inodo d1.
      if_ok (allocate_block dev shared_vol d1) (λ nuevo_bloque d2.
        whatever (write_data_to_block dev shared_vol nuevo_bloque mi_texto d2) (λ d3.
          whatever
            (write_inode dev shared_vol nuevo_inodo
              (build_file_inode (length mi_texto) nuevo_bloque) d3)
            (λ d4.
              whatever (add_entry dev past beyond root_node nombre_archivo nuevo_inodo d4) (λ d5.
                with_file d5 (lookup dev past beyond root_node d5 nombre_archivo)
                  (λ file_node. read_of d5 (read dev past file_node d5 0 file_node.size)))))))

  unfoldable pub mount_linux : (start_lba : ℕ) → D → Probe D
  mount_linux start_lba d = if_ok (mount dev start_lba d) (λ ext4_vol d1.
      after_outcome (debug_info dev ext4_vol d1) (λ d2.
        after_outcome (new_root dev ext4_vol d2) (λ root_node. create_file ext4_vol root_node d2)))

  unfoldable pub process_partition : PartitionEntry → D → Probe D
  process_partition part d =
      if is_empty part
      then unchanged d
      else if is_fat part
      then inspect_fat d (mount_fat (λ n. dev.read_block d n) part.start_lba)
      else if is_linux part
      then mount_linux part.start_lba d
      else unchanged d

  abbrev pub process_table : D → Result Mbr FsError → Probe D
  process_table d (err e) = unchanged d
  process_table d (ok mbr) =
      if is_gpt_protective mbr
      then unchanged d
      else and_then (process_partition mbr.partition0 d) (λ d1.
        and_then (process_partition mbr.partition1 d1)
          (λ d2. and_then (process_partition mbr.partition2 d2) (process_partition mbr.partition3)))

  unfoldable pub process_disk : D → Probe D
  process_disk d = process_table d (read_from (λ n. dev.read_block d n))
