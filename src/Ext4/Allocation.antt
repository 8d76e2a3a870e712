-- ===== src/Ext4/Allocation.antt =====
-- The allocation of inodes and of blocks: the first clear bit of the bitmap is set.
pub mod Reserves
use nwin_os.Common.{
  ℕ, zero, suc, ◌+◌, ◌-◌, ◌*◌, ◌/◌, ◌%◌, ◌^◌, ◌≤◌, ◌<◌, ◌≡◌, ◌≢◌, refl, sym, ap, ◌∙◌, subst, ◌⊎◌,
  inl, inr, Bool, true, false, ◌||◌, Option, none, some, List, [], ◌∷◌, length, get_or, set,
  get_or-set_self, get_or-set_ne, ◌==◌, ==_refl, ==_ne, Bool-cases, Option-cases, lt→ltb, arith,
  ℕ_discrete,
}
use nwin_os.Common.Bits.{has_bit, set_bit, has_bit-set_bit, has_bit_full}
use nwin_os.Common.Outcome.{Outcome, returned, panicked, Result, ok, err}
use nwin_os.Error.{FsError, block_read, block_write}
use nwin_os.Mbr.{byte}
use nwin_os.Ext4.{Ext4BlockGroupDescriptor, group_descriptor_at}
use nwin_os.Ext4.Device.{BlockDevice, IsStorage, Reply, after, fetched, stored}
use nwin_os.Ext4.Volume.{
  Ext4Volume, block_size, bgd_sector, free_bit, find_free, found_in, reserve, allocate,
}

-- Bit `n` of a bitmap.
abbrev pub is_used : List ℕ → ℕ → Bool
is_used bitmap n = has_bit (byte bitmap (n / 8)) (n % 8)

-- The lowest clear bit of a byte from a bit on.
abbrev FreeBit : (byte left k : ℕ) → Option ℕ → Type 0
FreeBit byte left k none = (j : ℕ) → k ≤ j → j < k + left → has_bit byte j ≡ true
FreeBit byte left k (some f) =
    (k ≤ f)
    × (f < k + left)
    × (has_bit byte f ≡ false)
    × ((j : ℕ) → k ≤ j → j < f → has_bit byte j ≡ true)

below_next :
    (byte k : ℕ)
    → has_bit byte k ≡ true
    → (f : ℕ) → ((j : ℕ) → suc k ≤ j → j < f → has_bit byte j ≡ true)
    → (j : ℕ) → k ≤ j
    → j < f
    → has_bit byte j ≡ true
below_next byte k used f all j h h' = elim (ℕ_discrete k j) [
  | yes same ↦ subst (λ x. has_bit byte x ≡ true) same used
  | no other ↦ all j (omega arith) h'
]

FreeBit-next :
    (byte left k : ℕ) (r : Option ℕ)
    → has_bit byte k ≡ true
    → FreeBit byte left (suc k) r
    → FreeBit byte (suc left) k r
FreeBit-next byte left k none used all =
    λ j h h'. below_next byte k used (k + suc left) (λ j a b. all j a (omega (arith, b))) j h h'
FreeBit-next byte left k (some f) used (from, below, free, all) =
    (omega (arith, from), omega (arith, below), free, below_next byte k used f all)

free_bit-FreeBit : (byte left k : ℕ) → FreeBit byte left k (free_bit byte left k)
unfolding free_bit
free_bit-FreeBit byte zero k = λ j h h'. absurd (omega (arith, h, h'))
free_bit-FreeBit byte (suc left) k = elim (Bool-cases (has_bit byte k)) [
  | inl used ↦ rw used (
      FreeBit-next byte left k (free_bit byte left (suc k)) used
        (free_bit-FreeBit byte left (suc k)))
  | inr free ↦ rw free (omega arith, omega arith, free, λ j h h'. absurd (omega (arith, h, h')))
]

-- The first clear bit of a bitmap.
abbrev pub FirstFree : List ℕ → (i : ℕ) → Option (ℕ × ℕ) → Type 0
FirstFree bitmap i none = (j k : ℕ) → j < length bitmap → k < 8 → has_bit (byte bitmap j) k ≡ true
FirstFree bitmap i (some (at, k)) =
    (j : ℕ) × (at ≡ i + j)
    × (j < length bitmap)
    × (k < 8)
    × (has_bit (byte bitmap j) k ≡ false)
    × ((j' k' : ℕ) → j' < j → k' < 8 → has_bit (byte bitmap j') k' ≡ true)
    × ((k' : ℕ) → k' < k → has_bit (byte bitmap j) k' ≡ true)

-- All the bits of the first byte are set.
IsFull : ℕ → Type 0
IsFull b = (k : ℕ) → k < 8 → has_bit b k ≡ true

FirstFree-next :
    (b : ℕ) (bitmap : List ℕ) (i : ℕ) (r : Option (ℕ × ℕ))
    → IsFull b
    → FirstFree bitmap (suc i) r
    → FirstFree (b ∷ bitmap) i r
unfolding IsFull
FirstFree-next b bitmap i none full all = λ j k h h'. used j k h h'
  where
    used : (j k : ℕ) → j < suc (length bitmap) → k < 8 → has_bit (byte (b ∷ bitmap) j) k ≡ true
    used zero k h h' = full k h'
    used (suc j) k h h' = all j k (omega (arith, h)) h'
FirstFree-next b bitmap i (some (at, k)) full (j, place, inside, bit, free, all, low) =
    (suc j, omega (arith, place), omega (arith, inside), bit, free, used, low)
  where
    used : (j' k' : ℕ) → j' < suc j → k' < 8 → has_bit (byte (b ∷ bitmap) j') k' ≡ true
    used zero k' h h' = full k' h'
    used (suc j') k' h h' = all j' k' (omega (arith, h)) h'

found-FirstFree :
    (b : ℕ) (bitmap : List ℕ) (i : ℕ) (k : Option ℕ) (r : Option (ℕ × ℕ))
    → FreeBit b 8 0 k
    → FirstFree bitmap (suc i) r
    → FirstFree (b ∷ bitmap) i (found_in i k r)
unfolding IsFull
found-FirstFree b bitmap i none r all rest =
    FirstFree-next b bitmap i r (λ k h. all k (omega arith) (omega (arith, h))) rest
found-FirstFree b bitmap i (some k) r (from, below, free, all) rest = (
  0,
  omega arith,
  omega arith,
  omega (arith, below),
  free,
  λ j' k' h. absurd (omega (arith, h)),
  λ k' h. all k' (omega arith) h,
)

pub find_free-FirstFree : (bitmap : List ℕ) (i : ℕ) → FirstFree bitmap i (find_free bitmap i)
unfolding find_free IsFull
find_free-FirstFree [] i = λ j k h h'. absurd (omega (arith, h))
find_free-FirstFree (b ∷ bitmap) i = elim (Bool-cases (b == 0xFF)) [
  | inl full ↦ rw full (
      FirstFree-next b bitmap i (find_free bitmap (suc i))
        (λ k h. subst (λ x. has_bit x k ≡ true) (all_ones full) (has_bit_full k h))
        (find_free-FirstFree bitmap (suc i)))
  | inr gap ↦ rw gap (
      found-FirstFree b bitmap i (free_bit b 8 0) (find_free bitmap (suc i))
        (free_bit-FreeBit b 8 0) (find_free-FirstFree bitmap (suc i)))
]
  where
    all_ones : (b == 0xFF) ≡ true → 255 ≡ b
    all_ones full = ground (arith, full)
