-- ===== src/Mbr/Tests.antt =====
-- A disk with one Linux partition: an instance of the theorem.
use nwin_os.Common.{ℕ, ◌≡◌, refl, Option, some, List, replicate, arith}
use nwin_os.Common.Outcome.{ok}
use nwin_os.Mbr.{PartitionEntry, Mbr, read_from}
use nwin_os.Mbr.RoundTrip.{Fits, sector, read_from-sector}

abbrev unused : PartitionEntry
unused = record {
  bootable = 0;
  start_chs = (0, 0, 0);
  partition_type = 0;
  end_chs = (0, 0, 0);
  start_lba = 0;
  total_sectors = 0;
}

abbrev linux : PartitionEntry
linux = record unused {
  bootable = 0x80;
  partition_type = 0x83;
  start_lba = 2048;
  total_sectors = 1048576;
}

abbrev layout : Mbr
layout = record {
  partition0 = linux;
  partition1 = unused;
  partition2 = unused;
  partition3 = unused;
}

abbrev disk : ℕ → Option (List ℕ)
disk block = some (sector (replicate 446 0) layout)

linux-Fits : Fits linux
linux-Fits = record { lba_fits = omega arith; sectors_fit = omega arith }

unused-Fits : Fits unused
unused-Fits = record { lba_fits = omega arith; sectors_fit = omega arith }

read_from-sector_example : read_from disk ≡ ok layout
read_from-sector_example =
    read_from-sector layout disk linux-Fits unused-Fits unused-Fits unused-Fits refl
