-- ===== src/Common/Deque.antt =====
-- Rust's `VecDeque` of task identifiers, front first.
use Prim.Native.Nat.{ℕ, ◌+◌}
use mathlib.Core.Path.{◌≡◌}
use mathlib.Core.Bool.{Bool, false, not, ◌||◌}
use mathlib.Core.Option.{Option, none, some}
use mathlib.Core.List.{List, [], ◌∷◌, ◌++◌}
use native.Mathlib.Omega.{arith}
use nwin_os.Common.Tests.{◌==◌, if◌then◌else◌}

abbrev pub Deque : Type 0
Deque = List ℕ

abbrev pub push_back : Deque → ℕ → Deque
push_back q id = q ++ (id ∷ [])

abbrev pub pop_front : Deque → Option (ℕ × Deque)
pop_front [] = none
pop_front (id ∷ q) = some (id, q)

unfoldable pub contains : ℕ → Deque → Bool
contains id [] = false
contains id (x ∷ q) = x == id || contains id q

-- `retain(|&x| x != id)`
unfoldable pub retain_ne : ℕ → Deque → Deque
retain_ne id [] = []
retain_ne id (x ∷ q) = let rest = retain_ne id q in if x == id then rest else x ∷ rest

-- how often an identifier is queued
unfoldable pub count : ℕ → Deque → ℕ
count id [] = 0
count id (x ∷ q) = (if x == id then 1 else 0) + count id q

pub count-push_back :
    (id j : ℕ) (q : Deque) → count id (push_back q j) ≡ count id q + (if j == id then 1 else 0)
unfolding count
count-push_back id j [] = ground arith
count-push_back id j (x ∷ q) = ground (arith, count-push_back id j q)

pub count-retain_ne :
    (id j : ℕ) (q : Deque) → count id (retain_ne j q) ≡ (if j == id then 0 else count id q)
unfolding count retain_ne
count-retain_ne id j [] = ground arith
count-retain_ne id j (x ∷ q) = ground (arith, count-retain_ne id j q)

pub contains-count : (id : ℕ) (q : Deque) → contains id q ≡ not (count id q == 0)
unfolding contains count
contains-count id [] = ground arith
contains-count id (x ∷ q) = ground (arith, contains-count id q)
