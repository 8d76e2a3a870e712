-- ===== src/Common/Bits.antt =====
-- Single bits of a byte: `|= 1 << k`, `&= !(1 << k)` and `& (1 << k) != 0`, with their laws,
-- checked over all bytes and positions.
use Prim.Native.Nat.{ℕ, zero, suc, ◌-◌, ◌^◌, ◌<◌, bit_and, bit_or}
use mathlib.Core.Path.{◌≡◌, refl}
use mathlib.Core.Bool.{Bool, true, false, not, ◌&&◌, ◌||◌}
use native.Mathlib.Omega.{arith}
use native.Mathlib.Decide.{ℕ_discrete}
use nwin_os.Common.Tests.{if◌then◌else◌, ◌==◌, ltb, ltb→lt}

-- `byte | (1 << bit)`
unfoldable pub set_bit : ℕ → ℕ → ℕ
set_bit byte bit = bit_or byte (2 ^ bit)

-- `byte & !(1 << bit)`, the complement taken in a u8
unfoldable pub clear_bit : ℕ → ℕ → ℕ
clear_bit byte bit = bit_and byte (255 - 2 ^ bit)

-- `(byte & (1 << bit)) != 0`
unfoldable pub has_bit : ℕ → ℕ → Bool
has_bit byte bit = not (bit_and byte (2 ^ bit) == 0)

-- The test `p` passes at each of `0 .. bound`.
passes : (ℕ → Bool) → ℕ → Bool
passes p zero = true
passes p (suc bound) = if p bound then passes p bound else false

passes_at : (p : ℕ → Bool) (bound : ℕ) → passes p bound ≡ true → (x : ℕ) → x < bound → p x ≡ true
unfolding passes
passes_at p zero all x h = elim h [ ]
passes_at p (suc bound) all x h = elim (ℕ_discrete x bound) [
  | yes last ↦ rw last (ground arith)
  | no earlier ↦ passes_at p bound (ground arith) x (omega arith)
]

abbrev same : Bool → Bool → Bool
same true b = b
same false b = not b

same→eq : (a b : Bool) → same a b ≡ true → a ≡ b
same→eq a b h = ground arith

-- What the three operations are to one another at a byte and two positions.
abbrev laws_hold : ℕ → ℕ → ℕ → Bool
laws_hold byte k j =
    ltb (set_bit byte k) 256
    && ltb (clear_bit byte k) 256
    && same (has_bit (set_bit byte k) j) (k == j || has_bit byte j)
    && same (has_bit (clear_bit byte k) j) (not (k == j) && has_bit byte j)

abbrev laws_for_byte : ℕ → ℕ → Bool
laws_for_byte j k = passes (λ byte. laws_hold byte k j) 256

abbrev laws_for_bit : ℕ → Bool
laws_for_bit j = passes (laws_for_byte j) 8

laws_table : passes laws_for_bit 8 ≡ true
unfolding passes set_bit clear_bit has_bit
laws_table = refl

module _ (byte k j : ℕ) (hb : byte < 256) (hk : k < 8) (hj : j < 8) where
  laws : laws_hold byte k j ≡ true
  laws =
      passes_at (λ byte. laws_hold byte k j) 256
        (passes_at (laws_for_byte j) 8 (passes_at laws_for_bit 8 laws_table j hj) k hk) byte hb

  pub has_bit-set_bit : has_bit (set_bit byte k) j ≡ (k == j || has_bit byte j)
  has_bit-set_bit = same→eq _ _ (ground (arith, laws))

  pub has_bit-clear_bit : has_bit (clear_bit byte k) j ≡ (not (k == j) && has_bit byte j)
  has_bit-clear_bit = same→eq _ _ (ground (arith, laws))

module _ (byte k : ℕ) (hb : byte < 256) (hk : k < 8) where
  pub set_bit-lt : set_bit byte k < 256
  set_bit-lt = ltb→lt (set_bit byte k) 256 (ground (arith, laws byte k k hb hk hk))

  pub clear_bit-lt : clear_bit byte k < 256
  clear_bit-lt = ltb→lt (clear_bit byte k) 256 (ground (arith, laws byte k k hb hk hk))

full_byte_table : passes (has_bit 255) 8 ≡ true
unfolding passes has_bit
full_byte_table = refl

-- 0xFF has every bit set.
pub has_bit_full : (k : ℕ) → k < 8 → has_bit 255 k ≡ true
has_bit_full = passes_at (has_bit 255) 8 full_byte_table
