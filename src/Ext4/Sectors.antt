-- ===== src/Ext4/Sectors.antt =====
-- The sectors of a block after they were written, one after the other.
use nwin_os.Common.{
  ℕ, zero, suc, ◌+◌, ◌^◌, ◌≤◌, ◌<◌, ◌≡◌, ◌≢◌, refl, ap, ◌∙◌, subst, ◌⊎◌, inl, inr, Bool, true,
  false, some, List, take, drop, ltb, Bool-cases, arith,
}
use nwin_os.Common.Outcome.{returned, panicked, ok, err}
use nwin_os.Error.{block_write}
use nwin_os.Ext4.Device.{BlockDevice, IsStorage, Reply, after, stored}
use nwin_os.Ext4.Volume.{write_sectors}

module _ {D : Type 0} (dev : BlockDevice D) where
  -- `count` sectors from `sector` on hold a block.
  abbrev pub AreWritten : (count sector : ℕ) → List ℕ → D → Type 0
  AreWritten zero sector block d = Unit
  AreWritten (suc count) sector block d =
      (sector < 2 ^ 64)
      × (dev.read_block d sector ≡ some (take 512 block))
      × AreWritten count (suc sector) (drop 512 block) d

  abbrev pub AreKept : (count sector : ℕ) → D → D → Type 0
  AreKept count sector d d' =
      (t : ℕ) → (t < sector) ⊎ (sector + count ≤ t) → dev.read_block d' t ≡ dev.read_block d t

  -- Sectors that have not changed hold what they held.
  pub AreWritten-kept :
      (count sector : ℕ) (block : List ℕ) (d d' : D)
      → ((t : ℕ) → sector ≤ t → t < sector + count → dev.read_block d' t ≡ dev.read_block d t)
      → AreWritten count sector block d
      → AreWritten count sector block d'
  AreWritten-kept zero sector block d d' same there = tt
  AreWritten-kept (suc count) sector block d d' same (fits, e, there) = (
    fits,
    same sector (omega arith) (omega arith) ∙ e,
    AreWritten-kept count (suc sector) (drop 512 block) d d'
        (λ t h h'. same t (omega (arith, h)) (omega (arith, h'))) there,
  )

  -- Sectors that were written end within the 64-bit numbers.
  pub AreWritten-le :
      (count sector : ℕ) (block : List ℕ) (d : D)
      → AreWritten (suc count) sector block d
      → sector + suc count ≤ 2 ^ 64
  AreWritten-le zero sector block d (fits, e, there) = omega (arith, fits)
  AreWritten-le (suc count) sector block d (fits, e, there) =
      omega (arith, AreWritten-le count (suc sector) (drop 512 block) d there)

  -- How writing the sectors ends.
  abbrev pub Writes : (count sector : ℕ) → List ℕ → D → Reply D Unit → Type 0
  Writes count sector block d panicked = 2 ^ 64 < sector + count
  Writes count sector block d (returned (err e, d')) = e ≡ block_write
  Writes count sector block d (returned (ok u, d')) =
      AreWritten count sector block d' × AreKept count sector d d'

  module _ (storage : IsStorage dev) where
    Writes-next :
        (count sector : ℕ) (block : List ℕ) (d d' : D) (r : Reply D Unit)
        → sector < 2 ^ 64
        → dev.write_block d sector (take 512 block) ≡ (true, d')
        → Writes count (suc sector) (drop 512 block) d' r
        → Writes (suc count) sector block d r
    Writes-next count sector block d d' panicked h w after_it = omega (arith, after_it)
    Writes-next count sector block d d' (returned (err e, d'')) h w after_it = after_it
    Writes-next count sector block d d' (returned (ok u, d'')) h w (there, kept) =
        ((h, kept sector (inl (omega arith)) ∙ here, there), untouched)
      where
        here : dev.read_block d' sector ≡ some (take 512 block)
        here =
            subst (λ r. dev.read_block r.1 sector ≡ some (take 512 block)) w
              (storage.written d sector (take 512 block) (ap (λ r. r.0) w))

        other : (t : ℕ) → t ≢ sector → dev.read_block d' t ≡ dev.read_block d t
        other t ne =
            subst (λ r. dev.read_block r.1 t ≡ dev.read_block d t) w
              (storage.kept d sector t (take 512 block) ne)

        untouched : AreKept (suc count) sector d d''
        untouched t (inl h') = kept t (inl (omega (arith, h'))) ∙ other t (omega (arith, h'))
        untouched t (inr h') = kept t (inr (omega (arith, h'))) ∙ other t (omega (arith, h'))

    stored-Writes :
        (count sector : ℕ) (block : List ℕ) (d : D) (r : Bool × D)
        → sector < 2 ^ 64
        → dev.write_block d sector (take 512 block) ≡ r
        → ((d' : D)
            → Writes count
                (suc sector)
                (drop 512 block)
                d'
                (write_sectors dev count (suc sector) (drop 512 block) d'))
        → Writes
            (suc count)
            sector
            block
            d
            (after (stored r) (λ u. write_sectors dev count (suc sector) (drop 512 block)))
    stored-Writes count sector block d (true, d') h w go_on =
        Writes-next count sector block d d'
          (write_sectors dev count (suc sector) (drop 512 block) d') h w (go_on d')
    stored-Writes count sector block d (false, d') h w go_on = refl

    pub write_sectors-Writes :
        (count sector : ℕ) (block : List ℕ) (d : D)
        → Writes count sector block d (write_sectors dev count sector block d)
    unfolding write_sectors
    write_sectors-Writes zero sector block d = (tt, λ t h. refl)
    write_sectors-Writes (suc count) sector block d = elim (Bool-cases (ltb sector (2 ^ 64))) [
      | inl fits ↦ rw fits (
          stored-Writes count sector block d (dev.write_block d sector (take 512 block))
            (ground (arith, fits)) refl (write_sectors-Writes count (suc sector) (drop 512 block)))
      | inr big ↦ rw big (ground (arith, big))
    ]
