-- ===== src/Common/Dict.antt =====
-- Rust's `BTreeMap` with strings as keys, as an association list. A string is the list of its code
-- points.
use Prim.Native.Nat.{ℕ}
use mathlib.Core.Path.{◌≡◌, refl, ◌∙◌, ap, ap₂}
use mathlib.Core.Logic.{inl, inr}
use mathlib.Core.Bool.{Bool, true, false, ◌&&◌}
use mathlib.Core.Option.{Option, none, some}
use mathlib.Core.List.{List, [], ◌∷◌}
use native.Mathlib.Omega.{arith}
use nwin_os.Common.Tests.{◌==◌, if◌then◌else◌, Bool-cases}

abbrev pub Str : Type 0
Str = List ℕ

unfoldable pub same : Str → Str → Bool
same [] [] = true
same [] (y ∷ ys) = false
same (x ∷ xs) [] = false
same (x ∷ xs) (y ∷ ys) = x == y && same xs ys

pub same_refl : (s : Str) → same s s ≡ true
unfolding same
same_refl [] = refl
same_refl (x ∷ xs) = ground (arith, same_refl xs)

pub same→eq : (s t : Str) → same s t ≡ true → s ≡ t
unfolding same
same→eq [] [] h = refl
same→eq [] (y ∷ ys) h = ground (arith, h)
same→eq (x ∷ xs) [] h = ground (arith, h)
same→eq (x ∷ xs) (y ∷ ys) h =
    let first : x ≡ y = ground (arith, h) in
    ap₂ (λ a l. a ∷ l) first (same→eq xs ys (ground (arith, h)))

pub same_sym : (s t : Str) → same s t ≡ same t s
unfolding same
same_sym [] [] = refl
same_sym [] (y ∷ ys) = refl
same_sym (x ∷ xs) [] = refl
same_sym (x ∷ xs) (y ∷ ys) = ground (arith, same_sym xs ys)

abbrev pub Dict {ℓ} : Type ℓ → Type ℓ
Dict V = List (Str × V)

module _ {ℓ} {V : Type ℓ} where
  unfoldable pub get : Str → Dict V → Option V
  get k [] = none
  get k ((j, v) ∷ d) = if same j k then some v else get k d

  unfoldable pub insert : Str → V → Dict V → Dict V
  insert k v [] = (k, v) ∷ []
  insert k v ((j, w) ∷ d) =
      let rest = insert k v d in if same j k then (k, v) ∷ d else (j, w) ∷ rest

  unfoldable pub remove : Str → Dict V → Dict V
  remove k [] = []
  remove k ((j, w) ∷ d) = let rest = remove k d in if same j k then rest else (j, w) ∷ rest

  pub get-insert_self : (k : Str) (v : V) (d : Dict V) → get k (insert k v d) ≡ some v
  unfolding get insert
  get-insert_self k v [] = ground (arith, same_refl k)
  get-insert_self k v ((i, w) ∷ d) = ground (arith, get-insert_self k v d, same_refl k)

  pub get-insert_ne :
      (k j : Str) (v : V) (d : Dict V) → same k j ≡ false → get j (insert k v d) ≡ get j d
  unfolding get insert
  get-insert_ne k j v [] ne = ground (arith, ne)
  get-insert_ne k j v ((i, w) ∷ d) ne = elim (Bool-cases (same i k)) [
    | inl e ↦
        let f : same i j ≡ false = ap (λ z. same z j) (same→eq i k e) ∙ ne in
        ground (arith, e, f, ne)
    | inr e ↦ ground (arith, get-insert_ne k j v d ne, e)
  ]

  pub get-remove_self : (k : Str) (d : Dict V) → get k (remove k d) ≡ none
  unfolding get remove
  get-remove_self k [] = refl
  get-remove_self k ((i, w) ∷ d) = ground (arith, get-remove_self k d)

  pub get-remove_ne : (k j : Str) (d : Dict V) → same k j ≡ false → get j (remove k d) ≡ get j d
  unfolding get remove
  get-remove_ne k j [] ne = refl
  get-remove_ne k j ((i, w) ∷ d) ne = elim (Bool-cases (same i k)) [
    | inl e ↦
        let f : same i j ≡ false = ap (λ z. same z j) (same→eq i k e) ∙ ne in
        ground (arith, get-remove_ne k j d ne, e, f, ne)
    | inr e ↦ ground (arith, get-remove_ne k j d ne, e)
  ]
