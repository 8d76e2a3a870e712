-- ===== src/Frames/Bitmap.antt =====
-- The bitmap of src/mm/memory.rs: bit `frame % 8` of byte `frame / 8`.
use nwin_os.Common.{
  ℕ, ◌/◌, ◌%◌, ◌<◌, ◌≡◌, Bool, not, ◌&&◌, ◌||◌, List, ◌==◌, get_or, set, length, length-set,
  get_or-set_self, get_or-set_ne, arith, ℕ_discrete,
}
use nwin_os.Common.Bits.{
  set_bit, clear_bit, has_bit, has_bit-set_bit, has_bit-clear_bit, set_bit-lt, clear_bit-lt,
}

unfoldable pub bit_at : List ℕ → ℕ → Bool
bit_at bitmap frame = has_bit (get_or bitmap (frame / 8) 0) (frame % 8)

unfoldable pub with_bit : List ℕ → ℕ → List ℕ
with_bit bitmap frame = set bitmap (frame / 8) (set_bit (get_or bitmap (frame / 8) 0) (frame % 8))

unfoldable pub without_bit : List ℕ → ℕ → List ℕ
without_bit bitmap frame =
    set bitmap (frame / 8) (clear_bit (get_or bitmap (frame / 8) 0) (frame % 8))

abbrev pub AreBytes : List ℕ → Type 0
AreBytes bitmap = (i : ℕ) → get_or bitmap i 0 < 256

pub length-with_bit : (bitmap : List ℕ) (f : ℕ) → length (with_bit bitmap f) ≡ length bitmap
unfolding with_bit
length-with_bit bitmap f = length-set bitmap (f / 8) _

pub length-without_bit : (bitmap : List ℕ) (f : ℕ) → length (without_bit bitmap f) ≡ length bitmap
unfolding without_bit
length-without_bit bitmap f = length-set bitmap (f / 8) _

module _ (bitmap : List ℕ) (bytes : AreBytes bitmap) (f : ℕ) (inside : f / 8 < length bitmap) where
  set-AreBytes : (v : ℕ) → v < 256 → AreBytes (set bitmap (f / 8) v)
  set-AreBytes v hv i = elim (ℕ_discrete (f / 8) i) [
    | yes e ↦ ground (arith, get_or-set_self bitmap (f / 8) v 0, e)
    | no ne ↦ ground (arith, get_or-set_ne bitmap (f / 8) i v 0 ne, bytes i)
  ]

  pub with_bit-AreBytes : AreBytes (with_bit bitmap f)
  unfolding with_bit
  with_bit-AreBytes = set-AreBytes _ (set_bit-lt _ (f % 8) (bytes (f / 8)) (omega arith))

  pub without_bit-AreBytes : AreBytes (without_bit bitmap f)
  unfolding without_bit
  without_bit-AreBytes = set-AreBytes _ (clear_bit-lt _ (f % 8) (bytes (f / 8)) (omega arith))

  pub bit_at-with_bit : (g : ℕ) → bit_at (with_bit bitmap f) g ≡ (f == g || bit_at bitmap g)
  unfolding bit_at with_bit
  bit_at-with_bit g = elim (ℕ_discrete (f / 8) (g / 8)) [
    | yes e ↦ ground (
      arith,
      get_or-set_self bitmap (f / 8) (set_bit (get_or bitmap (f / 8) 0) (f % 8)) 0,
      has_bit-set_bit (get_or bitmap (f / 8) 0) (f % 8) (g % 8) (bytes (f / 8)) (omega arith)
          (omega arith),
    )
    | no ne ↦ ground (
      arith,
      get_or-set_ne bitmap (f / 8) (g / 8) (set_bit (get_or bitmap (f / 8) 0) (f % 8)) 0 ne,
    )
  ]

  pub bit_at-without_bit :
      (g : ℕ) → bit_at (without_bit bitmap f) g ≡ (not (f == g) && bit_at bitmap g)
  unfolding bit_at without_bit
  bit_at-without_bit g = elim (ℕ_discrete (f / 8) (g / 8)) [
    | yes e ↦ ground (
      arith,
      get_or-set_self bitmap (f / 8) (clear_bit (get_or bitmap (f / 8) 0) (f % 8)) 0,
      has_bit-clear_bit (get_or bitmap (f / 8) 0) (f % 8) (g % 8) (bytes (f / 8)) (omega arith)
          (omega arith),
    )
    | no ne ↦ ground (
      arith,
      get_or-set_ne bitmap (f / 8) (g / 8) (clear_bit (get_or bitmap (f / 8) 0) (f % 8)) 0 ne,
    )
  ]
