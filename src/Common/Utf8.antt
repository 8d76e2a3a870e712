-- ===== src/Common/Utf8.antt =====
-- Rust's UTF-8: `core::str::from_utf8` and `char::encode_utf8`.
use Prim.Native.Nat.{ℕ, ◌+◌, ◌-◌, ◌*◌, ◌/◌, ◌%◌}
use mathlib.Core.Bool.{Bool, ◌&&◌}
use mathlib.Core.Option.{Option, none, some}
use mathlib.Core.List.{List, [], ◌∷◌}
use nwin_os.Common.Tests.{◌==◌, ltb, leb, if◌then◌else◌}
use nwin_os.Common.Dict.{Str}

-- How many bytes a character still needs, the range of the next one, and what was read of it.
pub record Partial : Type 0 where
  needed : ℕ
  low : ℕ
  high : ℕ
  point : ℕ

abbrev between : ℕ → ℕ → ℕ → Bool
between a b x = leb a x && leb x b

abbrev lead : ℕ → ℕ → ℕ → ℕ → Option Partial
lead needed low high point =
    some (record { needed = needed; low = low; high = high; point = point })

abbrev idle : Partial
idle = record { needed = 0; low = 0; high = 0; point = 0 }

-- The first byte of a character.
abbrev start : ℕ → Option Partial
start b =
    if ltb b 0x80
    then lead 0 0 0 b
    else if between 0xC2 0xDF b
    then lead 1 0x80 0xBF (b - 0xC0)
    else if b == 0xE0
    then lead 2 0xA0 0xBF 0
    else if b == 0xED
    then lead 2 0x80 0x9F 13
    else if between 0xE1 0xEF b
    then lead 2 0x80 0xBF (b - 0xE0)
    else if b == 0xF0
    then lead 3 0x90 0xBF 0
    else if between 0xF1 0xF3 b
    then lead 3 0x80 0xBF (b - 0xF0)
    else if b == 0xF4
    then lead 3 0x80 0x8F 4
    else none

abbrev step : Partial → ℕ → Option Partial
step p b =
    if p.needed == 0
    then start b
    else if between p.low p.high b
    then lead (p.needed - 1) 0x80 0xBF (p.point * 64 + (b - 0x80))
    else none

unfoldable pub decode : Partial → List ℕ → Option Str
decode p [] = if p.needed == 0 then some [] else none
decode p (b ∷ bytes) = elim (step p b) [
  | none ↦ none
  | some q ↦ elim (decode q bytes) [
    | none ↦ none
    | some s ↦ some (if q.needed == 0 then q.point ∷ s else s)
  ]
]

unfoldable pub from_utf8 : List ℕ → Option Str
unfolding decode
from_utf8 bytes = decode idle bytes

unfoldable pub encode_utf8 : ℕ → List ℕ
encode_utf8 c =
    if ltb c 0x80
    then c ∷ []
    else if ltb c 0x800
    then (0xC0 + c / 64) ∷ (0x80 + c % 64) ∷ []
    else if ltb c 0x10000
    then (0xE0 + c / 4096) ∷ (0x80 + c / 64 % 64) ∷ (0x80 + c % 64) ∷ []
    else (0xF0 + c / 262144) ∷ (0x80 + c / 4096 % 64) ∷ (0x80 + c / 64 % 64) ∷ (0x80 + c % 64) ∷ []
