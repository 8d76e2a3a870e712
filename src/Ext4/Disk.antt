-- ===== src/Ext4/Disk.antt =====
-- A disk in memory with a small ext4 volume, which the tests use.
use nwin_os.Common.{
  ℕ, zero, suc, ◌<◌, ◌≡◌, ◌≢◌, refl, ap, subst, Bool, true, false, ◌&&◌, Option, none, some, List,
  [], ◌∷◌, ◌++◌, replicate, length, get_or, take, drop, ltb, ◌==◌, ==_refl, ==_ne, if◌then◌else◌,
  arith,
}
use nwin_os.Ext4.{Ext4SuperBlock, super_block_at, le}
use nwin_os.Ext4.Device.{BlockDevice, IsStorage}
use nwin_os.Ext4.Directory.{DirRecord, block_bytes, FitsRecord}
use nwin_os.Ext4.Node.{Ext4Node}
use nwin_os.Ext4.Volume.{Ext4Volume, build_file_inode}

unfoldable pub are_bytes : List ℕ → Bool
are_bytes [] = true
are_bytes (b ∷ bs) = ltb b 256 && are_bytes bs

are_bytes-lt : (bs : List ℕ) → are_bytes bs ≡ true → (i : ℕ) → get_or bs i 0 < 256
unfolding are_bytes
are_bytes-lt [] e i = omega arith
are_bytes-lt (b ∷ bs) e zero = ground (arith, e)
are_bytes-lt (b ∷ bs) e (suc i) = are_bytes-lt bs (ground (arith, e)) i

abbrev pub is_block : List ℕ → Bool
is_block b = length b == 512 && are_bytes b

abbrev pub Disk : Type 0
Disk = ℕ → List ℕ

abbrev pub replaced : Disk → ℕ → List ℕ → Disk
replaced d n b m = if m == n then b else d m

abbrev pub put : Bool → Disk → ℕ → List ℕ → Bool × Disk
put true d n b = (true, replaced d n b)
put false d n b = (false, d)

abbrev pub disk_device : BlockDevice Disk
disk_device = record {
  read_block = λ d n. if is_block (d n) then some (d n) else none;
  write_block = λ d n b. put (is_block b) d n b;
}

abbrev or_empty : Option (List ℕ) → List ℕ
or_empty none = []
or_empty (some b) = b

block_if :
    (c b : List ℕ) (t : Bool)
    → is_block c ≡ t
    → (if t then some c else none) ≡ some b
    → is_block b ≡ true
block_if c b true good e = subst (λ x. is_block x ≡ true) (ap or_empty e) good
block_if c b false bad e = cc

block_of : (d : Disk) (n : ℕ) (b : List ℕ) → disk_device.read_block d n ≡ some b → is_block b ≡ true
block_of d n b e = block_if (d n) b (is_block (d n)) refl e

reread_if :
    (d : Disk) (n : ℕ) (b : List ℕ) (t : Bool)
    → is_block b ≡ t
    → (put t d n b).0 ≡ true
    → disk_device.read_block (put t d n b).1 n ≡ some b
reread_if d n b true good done = rw (==_refl n, good) refl
reread_if d n b false bad done = cc

untouched_if :
    (d : Disk) (n m : ℕ) (b : List ℕ) (t : Bool)
    → m ≢ n
    → disk_device.read_block (put t d n b).1 m ≡ disk_device.read_block d m
untouched_if d n m b true ne = rw (==_ne m n ne) refl
untouched_if d n m b false ne = refl

pub disk_keeps : IsStorage disk_device
disk_keeps = record {
  block_sized = λ d n b e. ground (arith, block_of d n b e);
  block_bytes = λ d n b e. are_bytes-lt b (ground (arith, block_of d n b e));
  written = λ d n b done. reread_if d n b (is_block b) refl done;
  kept = λ d n m b ne. untouched_if d n m b (is_block b) ne;
}

abbrev pub super_block : Ext4SuperBlock
super_block = record (super_block_at []) {
  s_log_block_size = 0;
  s_inodes_count = 32;
  s_inodes_per_group = 32;
}

abbrev pub volume : Ext4Volume
volume = record { start_lba = 100; super_block = super_block }

-- The blocks of the descriptors, of the bitmaps and of the inodes: 2, 3, 4 and 5.
abbrev pub disk : Disk
disk n =
    if n == 104
    then le 4 3 ++ (le 4 4 ++ (le 4 5 ++ replicate 500 0))
    else if n == 108
    then 0xFF ∷ 0x0F ∷ replicate 510 0
    else replicate 512 0

abbrev pub here : DirRecord
here = record { inode = 2; file_type = 2; name = b'.' ∷ []; padding = replicate 3 0 }

abbrev pub parent : DirRecord
parent = record { inode = 2; file_type = 2; name = b'.' ∷ b'.' ∷ []; padding = replicate 1002 0 }

abbrev pub records : List ℕ
records = block_bytes (here ∷ parent ∷ [])

-- The root directory is in block 50, which begins in sector 200.
abbrev pub dir_disk : Disk
dir_disk n =
    if n == 200 then take 512 records else if n == 201 then take 512 (drop 512 records) else disk n

abbrev pub dir_node : Ext4Node
dir_node = record {
  volume = volume;
  inode_num = 2;
  inode = build_file_inode 1024 50;
  is_directory = true;
  size = 1024;
}

pub here-FitsRecord : FitsRecord here
here-FitsRecord = record { inode_fits = omega arith; rec_len_fits = omega arith }

pub parent-FitsRecord : FitsRecord parent
parent-FitsRecord = record { inode_fits = omega arith; rec_len_fits = omega arith }
