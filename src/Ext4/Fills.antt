-- ===== src/Ext4/Fills.antt =====
-- `Ext4Node::read` ends, within the buffer and the file.
use nwin_os.Common.{
  ℕ, zero, suc, ◌+◌, ◌-◌, ◌/◌, ◌%◌, ◌^◌, ◌≤◌, ◌<◌, min, Bool, true, false, not, ◌||◌, Option, none,
  some, List, [], ◌∷◌, take, drop, ltb, leb, ◌==◌, if◌then◌else◌, length, length-append, Bool-cases,
  inl, inr, arith,
}
use nwin_os.Common.Outcome.{Outcome, returned, panicked, ok, err}
use nwin_os.Ext4.{Ext4Inode}
use nwin_os.Ext4.Device.{BlockDevice, Reply}
use nwin_os.Ext4.Node.{
  Ext4Node, prepend, copy_block, copy_sector, chunk_size, read_from, read_sized, read, child_or,
  search, search_bytes, lookup, header_at, is_named,
}
use nwin_os.Ext4.Volume.{Ext4Volume, block_size, logical_to_physical_sector}
use nwin_os.Fat.Node.Fills.{ReadsAtMost}

length-take_most : (n : ℕ) (xs : List ℕ) → length (take n xs) ≤ n
length-take_most zero xs = omega arith
length-take_most (suc n) [] = omega arith
length-take_most (suc n) (x ∷ xs) = omega (arith, length-take_most n xs)

module _ {D : Type 0} (dev : BlockDevice D) where
  prepend-ReadsAtMost :
      (copied : List ℕ) (size left : ℕ) (rest : Option (Outcome (List ℕ)))
      → length copied ≤ size
      → size ≤ left
      → ReadsAtMost (left - size) rest
      → ReadsAtMost left (prepend dev copied rest)
  prepend-ReadsAtMost copied size left none h h' r = r
  prepend-ReadsAtMost copied size left (some panicked) h h' r = tt
  prepend-ReadsAtMost copied size left (some (returned bytes)) h h' r =
      omega (arith, h, h', r, length-append copied bytes)

  copy_block-ReadsAtMost :
      (at size left : ℕ) (b : Option (List ℕ)) (rest : Option (Outcome (List ℕ)))
      → size ≤ left
      → ReadsAtMost (left - size) rest
      → ReadsAtMost left (copy_block dev at size b rest)
  copy_block-ReadsAtMost at size left none rest h r = omega arith
  copy_block-ReadsAtMost at size left (some b) rest h r =
      prepend-ReadsAtMost (take size (drop at b)) size left rest (length-take_most size (drop at b))
        h r

  copy_sector-ReadsAtMost :
      (d : D) (sector_in_block at size left : ℕ) (base : Outcome (Option ℕ))
      (rest : Option (Outcome (List ℕ)))
      → size ≤ left
      → ReadsAtMost (left - size) rest
      → ReadsAtMost left (copy_sector dev d sector_in_block at size base rest)
  copy_sector-ReadsAtMost d i at size left panicked rest h r = tt
  copy_sector-ReadsAtMost d i at size left (returned none) rest h r = omega arith
  copy_sector-ReadsAtMost d i at size left (returned (some base)) rest h r =
      elim (Bool-cases (ltb (base + i) (2 ^ 64))) [
        | inl fits ↦
            rw fits (copy_block-ReadsAtMost at size left (dev.read_block d (base + i)) rest h r)
        | inr big ↦ rw big tt
      ]

  module _ (past : ℕ → ℕ) (node : Ext4Node) (d : D) where
    read_from-ReadsAtMost :
        (fuel size current_offset left : ℕ)
        → left < fuel
        → ReadsAtMost left (read_from dev fuel past node d size current_offset left)
    unfolding read_from
    read_from-ReadsAtMost zero size o left h = absurd (omega (arith, h))
    read_from-ReadsAtMost (suc fuel) size o left h = elim (Bool-cases (left == 0)) [
      | inl done ↦ rw done (omega arith)
      | inr more ↦ rw more (
          copy_sector-ReadsAtMost d (o % size / 512) (o % 512) (chunk_size dev o left) left
            (logical_to_physical_sector past node.volume node.inode (o / size % 2 ^ 32))
            (read_from dev fuel past node d size (o + chunk_size dev o left)
              (left - chunk_size dev o left))
            (omega arith)
            (read_from-ReadsAtMost fuel size (o + chunk_size dev o left)
              (left - chunk_size dev o left) (ground (arith, more, h))))
    ]

    read_sized-ReadsAtMost :
        (offset left : ℕ) (size : Outcome ℕ)
        → ReadsAtMost left (read_sized dev past node d offset left size)
    read_sized-ReadsAtMost offset left panicked = tt
    read_sized-ReadsAtMost offset left (returned size) = elim (Bool-cases (size == 0)) [
      | inl none_left ↦ rw none_left tt
      | inr some_left ↦
          rw some_left (read_from-ReadsAtMost (suc left) size offset left (omega arith))
    ]

    -- Reading a node ends, whatever the device and the extents hold, and unless it panics it gives no
    -- more bytes than the buffer has room for, and no more than the file has from the offset on.
    pub read_ends_within :
        (offset buf_len : ℕ)
        → ReadsAtMost (min buf_len (node.size - offset)) (read dev past node d offset buf_len)
    unfolding read
    read_ends_within offset buf_len = elim (Bool-cases (leb node.size offset || buf_len == 0)) [
      | inl nothing ↦ rw nothing (omega arith)
      | inr something ↦ rw something (
          read_sized-ReadsAtMost offset (min buf_len (node.size - offset))
            (block_size node.volume.super_block))
    ]

-- A loop whose fuel was enough.
abbrev pub HasEnded : {A : Type 0} → Option A → Type 0
HasEnded none = ⊥
HasEnded (some a) = Unit

child_or-HasEnded :
    {D : Type 0} (v : Ext4Volume) (n : ℕ) (r : Reply D Ext4Inode)
    (rest : Option (Outcome (Option Ext4Node)))
    → HasEnded rest
    → HasEnded (child_or v n r rest)
child_or-HasEnded v n panicked rest h = tt
child_or-HasEnded v n (returned (ok i, d)) rest h = tt
child_or-HasEnded v n (returned (err e, d)) rest h = h

if-HasEnded :
    {A : Type 0} (b : Bool) (x y : Option A)
    → HasEnded x
    → HasEnded y
    → HasEnded (if b then x else y)
if-HasEnded true x y h h' = h
if-HasEnded false x y h h' = h'

module _ {D : Type 0} (dev : BlockDevice D) where
  -- A record that is passed over has at least one byte.
  search-HasEnded :
      (fuel : ℕ) (v : Ext4Volume) (d : D) (bytes_read : ℕ) (bytes : ℕ → ℕ) (buffer name : List ℕ)
      (at : ℕ)
      → 0 < fuel
      → bytes_read < fuel + at
      → HasEnded (search dev fuel v d bytes_read bytes buffer name at)
  unfolding search
  search-HasEnded zero v d n bytes buffer name at some_fuel h = absurd (omega (arith, some_fuel))
  search-HasEnded (suc fuel) v d n bytes buffer name at some_fuel h =
      elim (Bool-cases (leb n at || (header_at bytes at).rec_len == 0)) [
        | inl done ↦ rw done tt
        | inr more ↦ rw more (
            let rest =
              search-HasEnded fuel v d n bytes buffer name (at + (header_at bytes at).rec_len)
                (ground (arith, more, h)) (ground (arith, more, h)) in
            if-HasEnded ((header_at bytes at).inode == 0) _ _ rest (
              if-HasEnded (ltb n (at + 8 + (header_at bytes at).name_len)) _ _ tt (
                if-HasEnded
                  (is_named (take (header_at bytes at).name_len (drop (at + 8) buffer)) name) _ _
                  (child_or-HasEnded v (header_at bytes at).inode _ _ rest) rest)))
      ]

  search_bytes-HasEnded :
      (beyond : ℕ → ℕ) (node : Ext4Node) (d : D) (name : List ℕ) (left : ℕ)
      (r : Option (Outcome (List ℕ)))
      → ReadsAtMost left r
      → HasEnded (search_bytes dev beyond node d name r)
  search_bytes-HasEnded beyond node d name left none h = h
  search_bytes-HasEnded beyond node d name left (some panicked) h = tt
  search_bytes-HasEnded beyond node d name left (some (returned copied)) h =
      if-HasEnded (length copied == 0) _ _ tt (
        search-HasEnded (suc (length copied)) node.volume d (length copied) _ _ name 0 (omega arith)
          (omega arith))

  -- Looking a name up in a node ends, whatever the device, the directory and the memory hold.
  pub lookup_ends :
      (past beyond : ℕ → ℕ) (node : Ext4Node) (d : D) (name : List ℕ)
      → HasEnded (lookup dev past beyond node d name)
  unfolding lookup
  lookup_ends past beyond node d name = if-HasEnded (not node.is_directory) _ _ tt (
      search_bytes-HasEnded beyond node d name (min node.size (node.size - 0))
        (read dev past node d 0 node.size) (read_ends_within dev past node d 0 node.size))
