-- ===== src/Mbr/RoundTrip.antt =====
-- A boot record that is written out is read back.
use nwin_os.Common.{
  ℕ, ◌/◌, ◌%◌, ◌^◌, ◌<◌, ◌≡◌, ◌∙◌, Option, some, List, [], ◌∷◌, ◌++◌, replicate, ap₂, arith,
}
use nwin_os.Common.Outcome.{ok}
use nwin_os.Mbr.{PartitionEntry, Mbr, word32, read_from}

-- The layout of an entry on the disk.
abbrev pub entry_bytes : PartitionEntry → List ℕ → List ℕ
entry_bytes e rest =
    e.bootable
    ∷ e.start_chs.0
    ∷ e.start_chs.1
    ∷ e.start_chs.2
    ∷ e.partition_type
    ∷ e.end_chs.0
    ∷ e.end_chs.1
    ∷ e.end_chs.2
    ∷ (e.start_lba % 256)
    ∷ (e.start_lba / 256 % 256)
    ∷ (e.start_lba / 65536 % 256)
    ∷ (e.start_lba / 16777216 % 256)
    ∷ (e.total_sectors % 256)
    ∷ (e.total_sectors / 256 % 256)
    ∷ (e.total_sectors / 65536 % 256)
    ∷ (e.total_sectors / 16777216 % 256)
    ∷ rest

abbrev pub table : Mbr → List ℕ
table m = entry_bytes m.partition0 (
    entry_bytes m.partition1
      (entry_bytes m.partition2 (entry_bytes m.partition3 (0x55 ∷ 0xAA ∷ []))))

-- The boot code, the four entries and the signature.
abbrev pub sector : List ℕ → Mbr → List ℕ
sector code m = code ++ table m

pub record Fits (e : PartitionEntry) : Type 0 where
  pub lba_fits : e.start_lba < 2 ^ 32
  pub sectors_fit : e.total_sectors < 2 ^ 32

word32-bytes :
    (x : ℕ)
    → x < 2 ^ 32
    → word32 (x % 256) (x / 256 % 256) (x / 65536 % 256) (x / 16777216 % 256) ≡ x
word32-bytes x h = omega (arith, h)

-- The words of an entry, taken apart and put together.
abbrev reread : PartitionEntry → PartitionEntry
reread e = record e {
  start_lba =
      word32 (e.start_lba % 256) (e.start_lba / 256 % 256) (e.start_lba / 65536 % 256)
        (e.start_lba / 16777216 % 256);
  total_sectors =
      word32 (e.total_sectors % 256) (e.total_sectors / 256 % 256) (e.total_sectors / 65536 % 256)
        (e.total_sectors / 16777216 % 256);
}

reread_same : (e : PartitionEntry) → Fits e → reread e ≡ e
reread_same e f =
    ap₂ (λ a b. record e { start_lba = a; total_sectors = b }) (word32-bytes e.start_lba f.lba_fits)
      (word32-bytes e.total_sectors f.sectors_fit)

abbrev four : PartitionEntry → PartitionEntry → PartitionEntry → PartitionEntry → Mbr
four a b c d = record { partition0 = a; partition1 = b; partition2 = c; partition3 = d }

-- A record whose numbers fit 32 bits, written to the first block behind 446 zero bytes and with the
-- signature after it, is what `read_from` reads, entry by entry and field by field.
pub read_from-sector :
    (m : Mbr) (read_block : ℕ → Option (List ℕ))
    → Fits m.partition0
    → Fits m.partition1
    → Fits m.partition2
    → Fits m.partition3
    → read_block 0 ≡ some (sector (replicate 446 0) m)
    → read_from read_block ≡ ok m
unfolding read_from
read_from-sector m read_block f0 f1 f2 f3 e =
    rw (e, read_from)
      (ap₂ (λ a b. ok (four a b (reread m.partition2) (reread m.partition3)))
          (reread_same m.partition0 f0) (reread_same m.partition1 f1)
        ∙ ap₂ (λ c d. ok (four m.partition0 m.partition1 c d)) (reread_same m.partition2 f2)
            (reread_same m.partition3 f3))
