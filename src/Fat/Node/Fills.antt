-- ===== src/Fat/Node/Fills.antt =====
-- `FatNode::read` of src/fs/fat/mod.rs ends on a FAT16 volume, within the buffer and the file.
use native.Mathlib.Nat.{mod-lt, zero-mul}
use nwin_os.Common.{
  ℕ, zero, suc, ◌+◌, ◌-◌, ◌*◌, ◌/◌, ◌%◌, ◌≤◌, ◌<◌, ◌≡◌, refl, sym, ap, subst, min, false, ◌||◌,
  Option, none, some, List, [], ◌∷◌, take, drop, ltb, leb, ◌==◌, length, length-append, Bool-cases,
  inl, inr, arith,
}
use nwin_os.Common.Outcome.{Outcome, returned, panicked}
use nwin_os.Fat.{
  FatVolume, Fat16BootSector, fat16, cluster_to_sector, Sector, sector, next_cluster, bytes_at,
  sectors_per_cluster_of,
}
use nwin_os.Fat.Geometry.{every_cluster_ends}
use nwin_os.Fat.Node.{
  FatNode, chunk_size, Turn, after_chunk, copy_block, copy_sector, prepend, then_read, read_from,
  read_chain, read, bytes_per_sector_of,
}

factor_positive : (a b : ℕ) → (a * b == 0) ≡ false → 0 < a
factor_positive zero b h = absurd (ground (arith, zero-mul b, h))
factor_positive (suc a) b h = omega arith

length-take : (n : ℕ) (xs : List ℕ) → length (take n xs) ≡ min n (length xs)
length-take zero xs = ground arith
length-take (suc n) [] = ground arith
length-take (suc n) (x ∷ xs) = ground (arith, length-take n xs)

length-drop : (n : ℕ) (xs : List ℕ) → length (drop n xs) ≡ length xs - n
length-drop zero xs = ground arith
length-drop (suc n) [] = ground arith
length-drop (suc n) (x ∷ xs) = ground (arith, length-drop n xs)

length-bytes_at :
    (buffer : List ℕ) (at n : ℕ) → at + n ≤ length buffer → length (bytes_at buffer at n) ≡ n
length-bytes_at buffer at n h =
    ground (arith, length-take n (drop at buffer), length-drop at buffer, h)

-- The blocks of a device have 512 bytes.
abbrev pub AreBlocks : (ℕ → Option (List ℕ)) → Type 0
AreBlocks device = (n : ℕ) (b : List ℕ) → device n ≡ some b → length b ≡ 512

-- A read that ends, with at most `left` bytes unless it panics.
abbrev pub ReadsAtMost : ℕ → Option (Outcome (List ℕ)) → Type 0
ReadsAtMost left none = ⊥
ReadsAtMost left (some panicked) = Unit
ReadsAtMost left (some (returned bytes)) = length bytes ≤ left

module _ (v : FatVolume) (blocks : AreBlocks v.device) (bps bpc : ℕ) (given : 0 < bps) where
  -- A turn after which the loop goes on copies something.
  abbrev TurnFits : ℕ → Option (Turn v bps bpc) → Type 0
  TurnFits left none = ⊥
  TurnFits left (some panicked) = Unit
  TurnFits left (some (returned (copied, none))) = length copied ≤ left
  TurnFits left (some (returned (copied, some next))) = (0 < length copied) × (length copied ≤ left)

  after_chunk-TurnFits :
      (copied : List ℕ) (o left : ℕ) (c : Outcome (Option ℕ))
      → 0 < length copied
      → length copied ≤ left
      → TurnFits left (some (after_chunk v bps bpc copied o c))
  after_chunk-TurnFits copied o left panicked some_copied fits = tt
  after_chunk-TurnFits copied o left (returned none) some_copied fits = fits
  after_chunk-TurnFits copied o left (returned (some cluster)) some_copied fits =
      (some_copied, fits)

  copy_block-TurnFits :
      (cluster o left : ℕ) (block : Option (List ℕ))
      → 0 < left
      → ((b : List ℕ) → block ≡ some b → length b ≡ 512)
      → TurnFits left (some (copy_block v bps bpc cluster o left block))
  copy_block-TurnFits cluster o left none more h = omega arith
  copy_block-TurnFits cluster o left (some b) more h =
      elim (Bool-cases (ltb 512 (o % bps + chunk_size v bps bpc o left))) [
        | inl over ↦ rw over tt
        | inr inside ↦ elim (Bool-cases (o + chunk_size v bps bpc o left == bpc)) [
          | inl last ↦
              rw (inside, last)
                (after_chunk-TurnFits (bytes_at b (o % bps) (chunk_size v bps bpc o left)) 0 left
                  (next_cluster v cluster) (positive inside) (small inside))
          | inr middle ↦ rw (inside, middle) (positive inside, small inside)
        ]
      ]
    where
      exact :
          ltb 512 (o % bps + chunk_size v bps bpc o left) ≡ false
          → length (bytes_at b (o % bps) (chunk_size v bps bpc o left))
            ≡ chunk_size v bps bpc o left
      exact inside =
          length-bytes_at b (o % bps) (chunk_size v bps bpc o left)
            (ground (arith, inside, h b refl))

      positive :
          ltb 512 (o % bps + chunk_size v bps bpc o left) ≡ false
          → 0 < length (bytes_at b (o % bps) (chunk_size v bps bpc o left))
      positive inside =
          subst (λ n. 0 < n) (sym (exact inside)) (ground (arith, more, mod-lt o given))

      small :
          ltb 512 (o % bps + chunk_size v bps bpc o left) ≡ false
          → length (bytes_at b (o % bps) (chunk_size v bps bpc o left)) ≤ left
      small inside = subst (λ n. n ≤ left) (sym (exact inside)) (ground arith)

  copy_sector-TurnFits :
      (cluster o left : ℕ) (s : Sector) (r : Outcome ℕ)
      → 0 < left
      → s ≡ some r
      → TurnFits left (copy_sector v bps bpc cluster o left s)
  copy_sector-TurnFits cluster o left none r more e = absurd (ground (arith, e))
  copy_sector-TurnFits cluster o left (some panicked) r more e = tt
  copy_sector-TurnFits cluster o left (some (returned n)) r more e =
      copy_block-TurnFits cluster o left (v.device (n + o / bps)) more (blocks (n + o / bps))

  prepend-ReadsAtMost :
      (copied : List ℕ) (left : ℕ) (rest : Option (Outcome (List ℕ)))
      → length copied ≤ left
      → ReadsAtMost (left - length copied) rest
      → ReadsAtMost left (prepend v bps bpc copied rest)
  prepend-ReadsAtMost copied left none fits r = r
  prepend-ReadsAtMost copied left (some panicked) fits r = tt
  prepend-ReadsAtMost copied left (some (returned bytes)) fits r =
      omega (arith, length-append copied bytes, fits, r)

  then_read-ReadsAtMost :
      (go_on : ℕ → ℕ → ℕ → Option (Outcome (List ℕ))) (left : ℕ) (t : Option (Turn v bps bpc))
      → ((c o l : ℕ) → l < left → ReadsAtMost l (go_on c o l))
      → TurnFits left t
      → ReadsAtMost left (then_read v bps bpc go_on left t)
  then_read-ReadsAtMost go_on left none h f = f
  then_read-ReadsAtMost go_on left (some panicked) h f = tt
  then_read-ReadsAtMost go_on left (some (returned (copied, none))) h f = f
  then_read-ReadsAtMost go_on left (some (returned (copied, some (c, o)))) h (some_copied, fits) =
      prepend-ReadsAtMost copied left (go_on c o (left - length copied)) fits
        (h c o (left - length copied) (omega (arith, some_copied, fits)))

  module _ (ends : (c : ℕ) → (r : Outcome ℕ) × (sector v (cluster_to_sector c) ≡ some r)) where
    read_from-ReadsAtMost :
        (fuel cluster o left : ℕ)
        → left < fuel
        → ReadsAtMost left (read_from v bps bpc fuel cluster o left)
    unfolding read_from
    read_from-ReadsAtMost zero cluster o left enough = absurd (omega (arith, enough))
    read_from-ReadsAtMost (suc fuel) cluster o left enough = elim (Bool-cases (left == 0)) [
      | inl done ↦ rw done (omega arith)
      | inr more ↦ rw more (
          then_read-ReadsAtMost (λ c o l. read_from v bps bpc fuel c o l) left
            (copy_sector v bps bpc cluster o left (sector v (cluster_to_sector cluster)))
            (λ c o l less. read_from-ReadsAtMost fuel c o l (omega (arith, less, enough)))
            (copy_sector-TurnFits cluster o left (sector v (cluster_to_sector cluster))
              (ends cluster).0 (ground (arith, more)) (ends cluster).1))
    ]

    read_chain-ReadsAtMost :
        (offset left : ℕ) (c : Outcome (Option ℕ))
        → ReadsAtMost left (read_chain v bps bpc offset left c)
    read_chain-ReadsAtMost offset left panicked = tt
    read_chain-ReadsAtMost offset left (returned none) = omega arith
    read_chain-ReadsAtMost offset left (returned (some cluster)) =
        read_from-ReadsAtMost (suc left) cluster (offset % bpc) left (omega arith)

-- On a FAT16 volume, over a device whose blocks have 512 bytes, reading a node ends, and unless it panics
-- it gives no more bytes than the buffer has room for, and no more than the file has from the offset
-- on.
pub read-ReadsAtMost :
    (node : FatNode) (bs : Fat16BootSector) (offset buf_len : ℕ)
    → node.volume.fat_type ≡ fat16 bs
    → AreBlocks node.volume.device
    → ReadsAtMost (min buf_len (node.size - offset)) (read node offset buf_len)
unfolding read
read-ReadsAtMost node bs offset buf_len is_fat16 blocks =
    elim (Bool-cases
      (node.is_directory || leb node.size offset || node.start_cluster == 0 || buf_len == 0)) [
        | inl nothing ↦ rw nothing (omega arith)
        | inr something ↦ elim (Bool-cases (per_cluster == 0)) [
          | inl empty ↦ rw (something, empty) tt
          | inr filled ↦
              rw (something, filled)
                (read_chain-ReadsAtMost node.volume blocks per_sector per_cluster (sized filled)
                  (every_cluster_ends node.volume bs is_fat16
                    (subst (λ n. 0 < n) same_size (sized filled)))
                  offset (min buf_len (node.size - offset)) _)
        ]
      ]
  where
    per_sector : ℕ
    per_sector = bytes_per_sector_of node.volume.fat_type

    per_cluster : ℕ
    per_cluster = per_sector * sectors_per_cluster_of node.volume.fat_type

    same_size : per_sector ≡ bs.bytes_per_sector
    same_size = ap bytes_per_sector_of is_fat16

    sized : (per_cluster == 0) ≡ false → 0 < per_sector
    sized filled = factor_positive per_sector (sectors_per_cluster_of node.volume.fat_type) filled
