-- ===== src/Ext4/Files.antt =====
-- A file that the driver writes: what is put into a reserved block is what the node of its inode
-- reads.
use native.Mathlib.Nat.{mod-eq_of_lt, div-eq_of_lt, min-eq_left, min-eq_right, sub_self}
use nwin_os.Common.{
  ℕ, zero, suc, ◌+◌, ◌-◌, ◌*◌, ◌/◌, ◌%◌, ◌^◌, ◌≤◌, ◌<◌, ◌≡◌, refl, ap, ap₂, sym, ◌∙◌, subst, ◌⊎◌,
  inl, inr, min, Bool, true, false, ◌||◌, some, List, [], ◌∷◌, ◌++◌, append-nil, take, drop, length,
  replicate, ltb, leb, ◌==◌, if◌then◌else◌, lt→ltb, Bool-cases, dec_lt, arith,
}
use nwin_os.Common.Outcome.{Outcome, returned, panicked, ok, err}
use nwin_os.Error.{block_write, corrupted_directory}
use nwin_os.Ext4.Device.{BlockDevice, IsStorage, Reply}
use nwin_os.Ext4.Extents.{build_file_inode_maps}
use nwin_os.Ext4.Node.{Ext4Node, node_of, prepend, read_from, read}
use nwin_os.Ext4.Sectors.{AreWritten, AreKept, Writes, write_sectors-Writes}
use nwin_os.Ext4.Slices.{take_then_drop}
use nwin_os.Ext4.Volume.{
  Ext4Volume, block_size, target_sector, logical_to_physical_sector, build_file_inode,
  write_data_to_block,
}

module _ {ℓ} {A : Type ℓ} where
  take_inside :
      (n m : ℕ) (xs ys : List A) → n ≤ length xs → n ≤ m → take n (take m (xs ++ ys)) ≡ take n xs
  take_inside zero m xs ys h h' = refl
  take_inside (suc n) m [] ys h h' = elim h [ ]
  take_inside (suc n) zero (x ∷ xs) ys h h' = elim h' [ ]
  take_inside (suc n) (suc m) (x ∷ xs) ys h h' =
      ap (λ zs. x ∷ zs) (take_inside n m xs ys (omega (arith, h)) (omega (arith, h')))

  take_all : (n : ℕ) (xs : List A) → length xs ≤ n → take n xs ≡ xs
  take_all zero [] h = refl
  take_all zero (x ∷ xs) h = elim h [ ]
  take_all (suc n) [] h = refl
  take_all (suc n) (x ∷ xs) h = ap (λ zs. x ∷ zs) (take_all n xs (omega (arith, h)))

  drop_inside : (n : ℕ) (xs ys : List A) → n ≤ length xs → drop n (xs ++ ys) ≡ drop n xs ++ ys
  drop_inside zero xs ys h = refl
  drop_inside (suc n) [] ys h = elim h [ ]
  drop_inside (suc n) (x ∷ xs) ys h = drop_inside n xs ys (omega (arith, h))

  length_dropped : (n : ℕ) (xs : List A) → length (drop n xs) ≡ length xs - n
  length_dropped zero xs = omega arith
  length_dropped (suc n) [] = omega arith
  length_dropped (suc n) (x ∷ xs) = omega (arith, length_dropped n xs)

module _ {D : Type 0} (dev : BlockDevice D) (past : ℕ → ℕ) (node : Ext4Node) (d : D) (size base : ℕ)
    (maps : logical_to_physical_sector past node.volume node.inode 0 ≡ returned (some base)) where
  read_nothing :
      (fuel o : ℕ) → 0 < fuel → read_from dev fuel past node d size o 0 ≡ some (returned [])
  unfolding read_from
  read_nothing zero o h = elim h [ ]
  read_nothing (suc fuel) o h = refl

  -- A turn of the loop in a sector of the first block, from the beginning of the sector on.
  read_turn :
      (fuel o left : ℕ) (b : List ℕ)
      → 0 < left
      → o < size
      → o % 512 ≡ 0
      → base + o / 512 < 2 ^ 64
      → dev.read_block d (base + o / 512) ≡ some b
      → read_from dev (suc fuel) past node d size o left
        ≡ prepend dev
            (take (min 512 left) b)
            (read_from dev fuel past node d size (o + min 512 left) (left - min 512 left))
  unfolding read_from
  read_turn fuel o left b some_left inside aligned fits e =
      rw (nonzero, div-eq_of_lt inside, mod-eq_of_lt inside, aligned, maps, lt→ltb _ _ fits, e) refl
    where
      nonzero : (left == 0) ≡ false
      nonzero = ground (arith, some_left)

  sector_read :
      (o sector : ℕ) (b : List ℕ)
      → base + o / 512 ≡ sector
      → sector < 2 ^ 64
      → dev.read_block d sector ≡ some b
      → (base + o / 512 < 2 ^ 64) × (dev.read_block d (base + o / 512) ≡ some b)
  sector_read o sector b place fits e =
      (omega (arith, place, fits), ap (dev.read_block d) place ∙ e)

  -- The last turn.
  read_last :
      (fuel o : ℕ) (rest pad : List ℕ)
      → 0 < length rest
      → length rest ≤ 512
      → 0 < fuel
      → o % 512 ≡ 0
      → o + length rest ≤ size
      → base + o / 512 < 2 ^ 64
      → dev.read_block d (base + o / 512) ≡ some (take 512 (rest ++ pad))
      → read_from dev (suc fuel) past node d size o (length rest) ≡ some (returned rest)
  read_last fuel o rest pad some_left short enough aligned inside fits e =
      read_turn fuel o (length rest) _ some_left (omega (arith, some_left, inside)) aligned fits e
      ∙ ap
          (λ n.
            prepend dev (take n (take 512 (rest ++ pad)))
              (read_from dev fuel past node d size (o + n) (length rest - n)))
          (min-eq_right short)
      ∙ ap₂ (prepend dev)
          (take_inside (length rest) 512 rest pad (omega arith) short
            ∙ take_all (length rest) rest (omega arith))
          (ap (read_from dev fuel past node d size (o + length rest)) (sub_self (length rest))
            ∙ read_nothing fuel (o + length rest) enough)
      ∙ ap (λ bytes. some (returned bytes)) (append-nil rest)

  -- A turn that is not the last one.
  read_more :
      (fuel o : ℕ) (rest pad : List ℕ)
      → 512 < length rest
      → o % 512 ≡ 0
      → o + length rest ≤ size
      → base + o / 512 < 2 ^ 64
      → dev.read_block d (base + o / 512) ≡ some (take 512 (rest ++ pad))
      → read_from dev fuel past node d size (o + 512) (length (drop 512 rest))
        ≡ some (returned (drop 512 rest))
      → read_from dev (suc fuel) past node d size o (length rest) ≡ some (returned rest)
  read_more fuel o rest pad long aligned inside fits e go_on =
      read_turn fuel o (length rest) _ (omega (arith, long)) (omega (arith, long, inside)) aligned
        fits e
      ∙ ap
          (λ n.
            prepend dev (take n (take 512 (rest ++ pad)))
              (read_from dev fuel past node d size (o + n) (length rest - n)))
          (min-eq_left (omega (arith, long)))
      ∙ ap₂ (prepend dev) (take_inside 512 512 rest pad (omega (arith, long)) (omega arith)) (
          ap (read_from dev fuel past node d size (o + 512)) (sym (length_dropped 512 rest))
          ∙ go_on)
      ∙ ap (λ bytes. some (returned bytes)) (take_then_drop 512 rest)

  -- The rest of a file, from a sector of its block on.
  read_rest :
      (fuel o count sector : ℕ) (rest pad : List ℕ)
      → length rest < fuel
      → o % 512 ≡ 0
      → base + o / 512 ≡ sector
      → length rest ≤ 512 * count
      → o + length rest ≤ size
      → AreWritten dev count sector (rest ++ pad) d
      → read_from dev fuel past node d size o (length rest) ≡ some (returned rest)
  read_rest zero o count sector rest pad enough aligned place room inside there =
      absurd (omega (arith, enough))
  read_rest (suc fuel) o zero sector [] pad enough aligned place room inside there =
      read_nothing (suc fuel) o (omega arith)
  read_rest (suc fuel) o zero sector (x ∷ xs) pad enough aligned place room inside there =
      absurd (omega (arith, room))
  read_rest (suc fuel) o (suc count) sector rest pad enough aligned place room inside
        (fits, e, there) =
      let (fits', e') = sector_read o sector _ place fits e in
      elim (dec_lt 512 (length rest)) [
        | yes long ↦ read_more fuel o rest pad long aligned inside fits' e' (
            read_rest fuel (o + 512) count (suc sector) (drop 512 rest) pad
              (omega (arith, enough, long, length_dropped 512 rest)) (omega (arith, aligned))
              (omega (arith, place)) (omega (arith, room, long, length_dropped 512 rest))
              (omega (arith, inside, long, length_dropped 512 rest))
              (subst (λ b. AreWritten dev count (suc sector) b d)
                (drop_inside 512 rest pad (omega (arith, long))) there))
        | no short ↦ elim (dec_lt 0 (length rest)) [
          | yes some_left ↦
              read_last fuel o rest pad some_left (omega (arith, short))
                (omega (arith, enough, some_left)) aligned inside fits' e'
          | no empty ↦ nothing_left rest (omega (arith, empty))
        ]
      ]
    where
      nothing_left :
          (bytes : List ℕ)
          → length bytes ≡ 0
          → read_from dev (suc fuel) past node d size o (length bytes) ≡ some (returned bytes)
      nothing_left [] h = read_nothing (suc fuel) o (omega arith)
      nothing_left (x ∷ xs) h = absurd (omega (arith, h))

  -- A node whose bytes are in its first block.
  pub read_whole :
      (contents pad : List ℕ) (buf_len : ℕ)
      → block_size node.volume.super_block ≡ returned size
      → node.size ≡ length contents
      → size % 512 ≡ 0
      → length contents ≤ size
      → length contents ≤ buf_len
      → AreWritten dev (size / 512) base (contents ++ pad) d
      → read dev past node d 0 buf_len ≡ some (returned contents)
  unfolding read
  read_whole [] pad buf_len sized whole even room enough there = rw (whole) refl
  read_whole (x ∷ xs) pad buf_len sized whole even room enough there =
      rw (something, sized, nonzero, left_eq)
        (read_rest (suc (suc (length xs))) 0 (size / 512) base (x ∷ xs) pad (omega arith) refl
          (omega arith) (omega (arith, room, even)) (omega (arith, room)) there)
    where
      something : (leb node.size 0 || buf_len == 0) ≡ false
      something = ground (arith, whole, enough)

      nonzero : (size == 0) ≡ false
      nonzero = ground (arith, room)

      left_eq : min buf_len (node.size - 0) ≡ suc (length xs)
      left_eq = omega (arith, whole, enough)

abbrev pub value_of : Outcome ℕ → ℕ
value_of panicked = 0
value_of (returned n) = n

even_if :
    (b : Bool) (y size : ℕ)
    → (if b then returned (1024 * y % 2 ^ 64) else panicked) ≡ returned size
    → size % 512 ≡ 0
even_if true y size e = let same : 1024 * y % 2 ^ 64 ≡ size = ap value_of e in omega (arith, same)
even_if false y size e = cc

-- The size of a block is a number of sectors.
pub block_size-even :
    (v : Ext4Volume) (size : ℕ) → block_size v.super_block ≡ returned size → size % 512 ≡ 0
block_size-even v size e =
    even_if (ltb v.super_block.s_log_block_size 64) (2 ^ v.super_block.s_log_block_size) size e

module _ {D : Type 0} (dev : BlockDevice D) (storage : IsStorage dev) (v : Ext4Volume)
    (size block_num : ℕ) (contents : List ℕ) (d : D)
    (sized : block_size v.super_block ≡ returned size) (numbered : block_num < 2 ^ 32) where
  abbrev pub start : ℕ
  start = v.start_lba + block_num * (size / 512)

  -- The node of the inode that is made for the block.
  abbrev pub file_node : ℕ → Ext4Node
  file_node inode_num = node_of v inode_num (build_file_inode (length contents) block_num)

  -- The block holds the data, and zeros behind it.
  pub record IsFilled (d' : D) : Type 0 where
    pub start_fits : start < 2 ^ 64
    pub room : length contents ≤ size
    pub filled :
        AreWritten dev (size / 512) start (contents ++ replicate (size - length contents) 0) d'

  -- What is in the block is what the node reads.
  pub IsFilled-reads :
      (d' : D) (past : ℕ → ℕ) (inode_num buf_len : ℕ)
      → IsFilled d'
      → length contents ≤ buf_len
      → read dev past (file_node inode_num) d' 0 buf_len ≡ some (returned contents)
  unfolding build_file_inode
  IsFilled-reads d' past inode_num buf_len there enough =
      read_whole dev past (file_node inode_num) d' size start maps contents
        (replicate (size - length contents) 0) buf_len sized (omega arith)
        (block_size-even v size sized) there.room enough there.filled
    where
      here : target_sector v size block_num ≡ returned (some start)
      here = rw (lt→ltb _ _ there.start_fits) refl

      maps :
          logical_to_physical_sector past v (build_file_inode (length contents) block_num) 0
          ≡ returned (some start)
      maps = (build_file_inode_maps past v size (length contents) block_num sized numbered).0 ∙ here

  -- How writing the data ends.
  abbrev pub Fills : Reply D Unit → Type 0
  Fills panicked = 2 ^ 64 ≤ start + size / 512
  Fills (returned (err e, d')) =
      (e ≡ corrupted_directory × d' ≡ d × (size < length contents)) ⊎ (e ≡ block_write)
  Fills (returned (ok u, d')) = IsFilled d' × AreKept dev (size / 512) start d d'

  Fills-written :
      (r : Reply D Unit)
      → start < 2 ^ 64
      → length contents ≤ size
      → Writes dev (size / 512) start (contents ++ replicate (size - length contents) 0) d r
      → Fills r
  Fills-written panicked fits room w = omega (arith, w)
  Fills-written (returned (err e, d')) fits room w = inr w
  Fills-written (returned (ok u, d')) fits room (there, kept) =
      (record { start_fits = fits; room = room; filled = there }, kept)

  pub write_data_to_block-Fills : Fills (write_data_to_block dev v block_num contents d)
  unfolding write_data_to_block
  write_data_to_block-Fills = elim (Bool-cases (ltb size (length contents))) [
    | inl large ↦ rw (sized, large) (inl (refl, refl, ground (arith, large)))
    | inr small ↦ elim (Bool-cases (ltb start (2 ^ 64))) [
      | inl fits ↦
          rw (sized, small, fits)
            (Fills-written _ (ground (arith, fits)) (ground (arith, small)) (
              write_sectors-Writes dev storage (size / 512) start
                (contents ++ replicate (size - length contents) 0) d))
      | inr big ↦ rw (sized, small, big) (ground (arith, big))
    ]
  ]

  -- How writing a file ends.
  abbrev pub ReadsBack : Reply D Unit → Type 0
  ReadsBack panicked = 2 ^ 64 ≤ start + size / 512
  ReadsBack (returned (err e, d')) =
      (e ≡ corrupted_directory × d' ≡ d × (size < length contents)) ⊎ (e ≡ block_write)
  ReadsBack (returned (ok u, d')) =
      ((past : ℕ → ℕ) (inode_num buf_len : ℕ)
        → length contents ≤ buf_len
        → read dev past (file_node inode_num) d' 0 buf_len ≡ some (returned contents))
      × AreKept dev (size / 512) start d d'

  Fills-ReadsBack : (r : Reply D Unit) → Fills r → ReadsBack r
  Fills-ReadsBack panicked h = h
  Fills-ReadsBack (returned (err e, d')) h = h
  Fills-ReadsBack (returned (ok u, d')) (there, kept) =
      (λ past inode_num buf_len enough. IsFilled-reads d' past inode_num buf_len there enough, kept)

  -- Data that fits a block, written to a block by its number on a device that keeps what is written,
  -- is what the node of the inode made for its length and that block reads, from the beginning into
  -- a buffer that is large enough; no sector outside the block has changed. Data that is too large is
  -- refused and the disk left as it was. Otherwise the device failed to write, or the block does not
  -- end within the 64-bit sector numbers.
  pub write_data_to_block-ReadsBack : ReadsBack (write_data_to_block dev v block_num contents d)
  write_data_to_block-ReadsBack = Fills-ReadsBack _ write_data_to_block-Fills
