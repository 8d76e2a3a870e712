-- ===== src/Mbr.antt =====
-- src/fs/partition/mbr.rs: the master boot record. The block device is an argument: what
-- `read_block` makes of a block number, `none` if it fails.
pub mod RoundTrip
mod Tests
use nwin_os.Common.{
  ℕ, ◌+◌, ◌*◌, Bool, true, false, not, ◌&&◌, ◌||◌, Option, none, some, List, ◌==◌, if◌then◌else◌,
  get_or,
}
use nwin_os.Common.Outcome.{Result, ok, err}
use nwin_os.Error.{FsError, block_read, bad_magic}

pub record PartitionEntry : Type 0 where
  pub bootable : ℕ
  pub start_chs : ℕ × ℕ × ℕ
  pub partition_type : ℕ
  pub end_chs : ℕ × ℕ × ℕ
  pub start_lba : ℕ
  pub total_sectors : ℕ

pub is_empty : PartitionEntry → Bool
is_empty e = e.partition_type == 0x00

pub is_fat : PartitionEntry → Bool
is_fat e =
    e.partition_type == 0x0B
    || e.partition_type == 0x0C
    || e.partition_type == 0x06
    || e.partition_type == 0x0E

unfoldable pub is_linux : PartitionEntry → Bool
is_linux e = e.partition_type == 0x83

pub record Mbr : Type 0 where
  pub partition0 : PartitionEntry
  pub partition1 : PartitionEntry
  pub partition2 : PartitionEntry
  pub partition3 : PartitionEntry

abbrev pub byte : List ℕ → ℕ → ℕ
byte buffer i = get_or buffer i 0

-- The native order of the machine: low byte first.
abbrev pub word32 : ℕ → ℕ → ℕ → ℕ → ℕ
word32 b0 b1 b2 b3 = b0 + 256 * b1 + 65536 * b2 + 16777216 * b3

-- The 16 bytes at `offset`, copied into the packed record.
abbrev pub entry_at : List ℕ → ℕ → PartitionEntry
entry_at buffer offset = record {
  bootable = byte buffer offset;
  start_chs = (byte buffer (offset + 1), byte buffer (offset + 2), byte buffer (offset + 3));
  partition_type = byte buffer (offset + 4);
  end_chs = (byte buffer (offset + 5), byte buffer (offset + 6), byte buffer (offset + 7));
  start_lba =
      word32 (byte buffer (offset + 8)) (byte buffer (offset + 9)) (byte buffer (offset + 10))
        (byte buffer (offset + 11));
  total_sectors =
      word32 (byte buffer (offset + 12)) (byte buffer (offset + 13)) (byte buffer (offset + 14))
        (byte buffer (offset + 15));
}

abbrev pub parse : List ℕ → Result Mbr FsError
parse buffer =
    if not (byte buffer 510 == 0x55) || not (byte buffer 511 == 0xAA)
    then err (bad_magic 0xAA55 (byte buffer 510 + 256 * byte buffer 511))
    else ok (record {
      partition0 = entry_at buffer 446;
      partition1 = entry_at buffer 462;
      partition2 = entry_at buffer 478;
      partition3 = entry_at buffer 494;
    })

unfoldable pub read_from : (ℕ → Option (List ℕ)) → Result Mbr FsError
read_from read_block = elim (read_block 0) [ none ↦ err block_read | some buffer ↦ parse buffer ]

pub is_gpt_protective : Mbr → Bool
is_gpt_protective m = not (is_empty m.partition0) && m.partition0.partition_type == 0xEE
