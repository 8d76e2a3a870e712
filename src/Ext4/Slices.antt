-- ===== src/Ext4/Slices.antt =====
-- Laws of buffers: a copy into a buffer, and numbers that are written as bytes and read back.
use nwin_os.Common.{
  ℕ, zero, suc, ◌+◌, ◌*◌, ◌/◌, ◌%◌, ◌^◌, ◌≤◌, ◌<◌, ◌≡◌, refl, sym, ap, ap₂, ◌∙◌, List, [], ◌∷◌,
  ◌++◌, append_assoc, take, drop, length, get_or, arith,
}
use nwin_os.Ext4.Volume.{overwrite}

add_suc_left : (n i : ℕ) → suc n + i ≡ suc (n + i)
add_suc_left n i = omega arith

module _ {ℓ} {A : Type ℓ} where
  pub drop_front : (n : ℕ) (xs ys : List A) → length xs ≡ n → drop n (xs ++ ys) ≡ ys
  drop_front zero [] ys e = refl
  drop_front (suc n) [] ys e = absurd (omega (arith, e))
  drop_front zero (x ∷ xs) ys e = absurd (omega (arith, e))
  drop_front (suc n) (x ∷ xs) ys e = drop_front n xs ys (omega (arith, e))

  pub take_front : (n : ℕ) (xs ys : List A) → length xs ≡ n → take n (xs ++ ys) ≡ xs
  take_front zero [] ys e = refl
  take_front (suc n) [] ys e = absurd (omega (arith, e))
  take_front zero (x ∷ xs) ys e = absurd (omega (arith, e))
  take_front (suc n) (x ∷ xs) ys e = ap (λ zs. x ∷ zs) (take_front n xs ys (omega (arith, e)))

  pub length-take_eq : (n : ℕ) (xs : List A) → n ≤ length xs → length (take n xs) ≡ n
  length-take_eq zero xs h = refl
  length-take_eq (suc n) [] h = absurd (omega (arith, h))
  length-take_eq (suc n) (x ∷ xs) h = ap suc (length-take_eq n xs (omega (arith, h)))

  pub length-drop_add : (n : ℕ) (xs : List A) → n ≤ length xs → length (drop n xs) + n ≡ length xs
  length-drop_add zero xs h = omega arith
  length-drop_add (suc n) [] h = absurd (omega (arith, h))
  length-drop_add (suc n) (x ∷ xs) h = omega (arith, length-drop_add n xs (omega (arith, h)))

  pub get_or-append_left :
      (xs ys : List A) (i : ℕ) (a : A) → i < length xs → get_or (xs ++ ys) i a ≡ get_or xs i a
  get_or-append_left [] ys i a h = elim h [ ]
  get_or-append_left (x ∷ xs) ys zero a h = refl
  get_or-append_left (x ∷ xs) ys (suc i) a h = get_or-append_left xs ys i a (omega (arith, h))

  pub get_or-append_right :
      (xs ys : List A) (i : ℕ) (a : A) → get_or (xs ++ ys) (length xs + i) a ≡ get_or ys i a
  get_or-append_right [] ys i a = ap (λ n. get_or ys n a) (omega arith)
  get_or-append_right (x ∷ xs) ys i a =
      ap (λ n. get_or (x ∷ (xs ++ ys)) n a) (add_suc_left (length xs) i)
      ∙ get_or-append_right xs ys i a

  pub get_or-take :
      (n : ℕ) (xs : List A) (i : ℕ) (a : A) → i < n → get_or (take n xs) i a ≡ get_or xs i a
  get_or-take zero xs i a h = elim h [ ]
  get_or-take (suc n) [] i a h = refl
  get_or-take (suc n) (x ∷ xs) zero a h = refl
  get_or-take (suc n) (x ∷ xs) (suc i) a h = get_or-take n xs i a (omega (arith, h))

  pub get_or-drop :
      (n : ℕ) (xs : List A) (i : ℕ) (a : A) → get_or (drop n xs) i a ≡ get_or xs (n + i) a
  get_or-drop zero xs i a = ap (λ n. get_or xs n a) (omega arith)
  get_or-drop (suc n) [] i a = refl
  get_or-drop (suc n) (x ∷ xs) i a =
      get_or-drop n xs i a ∙ ap (λ m. get_or (x ∷ xs) m a) (sym (add_suc_left n i))

module _ {ℓ} {A : Type ℓ} where
  pub take_then_drop : (n : ℕ) (xs : List A) → take n xs ++ drop n xs ≡ xs
  take_then_drop zero xs = refl
  take_then_drop (suc n) [] = refl
  take_then_drop (suc n) (x ∷ xs) = ap (λ zs. x ∷ zs) (take_then_drop n xs)

  pub drop_behind : (p xs : List A) (k : ℕ) → drop (length p + k) (p ++ xs) ≡ drop k xs
  drop_behind [] xs k = ap (λ n. drop n xs) (omega arith)
  drop_behind (x ∷ p) xs k =
      ap (λ n. drop n (x ∷ (p ++ xs))) (add_suc_left (length p) k) ∙ drop_behind p xs k

  pub take_behind : (p xs : List A) (k : ℕ) → take (length p + k) (p ++ xs) ≡ p ++ take k xs
  take_behind [] xs k = ap (λ n. take n xs) (omega arith)
  take_behind (x ∷ p) xs k =
      ap (λ n. take n (x ∷ (p ++ xs))) (add_suc_left (length p) k)
      ∙ ap (λ ys. x ∷ ys) (take_behind p xs k)

-- A copy behind a prefix leaves the prefix.
pub overwrite-append :
    (p xs : List ℕ) (k : ℕ) (bytes : List ℕ)
    → overwrite (p ++ xs) (length p + k) bytes ≡ p ++ overwrite xs k bytes
overwrite-append p xs k bytes =
    ap₂ (λ a b. a ++ (bytes ++ b)) (take_behind p xs k)
      (ap (λ n. drop n (p ++ xs)) (omega arith) ∙ drop_behind p xs (k + length bytes))
    ∙ append_assoc p (take k xs) (bytes ++ drop (k + length bytes) xs)

module _ (b : List ℕ) (at : ℕ) (e : List ℕ) (inside : at ≤ length b) where
  pub drop-overwrite : drop at (overwrite b at e) ≡ e ++ drop (at + length e) b
  drop-overwrite = drop_front at (take at b) _ (length-take_eq at b inside)

  pub get_or-overwrite_before : (i : ℕ) → i < at → get_or (overwrite b at e) i 0 ≡ get_or b i 0
  get_or-overwrite_before i h =
      get_or-append_left (take at b) _ i 0 (omega (arith, h, length-take_eq at b inside))
      ∙ get_or-take at b i 0 h

  pub get_or-overwrite_after :
      (i : ℕ) → get_or (overwrite b at e) (at + length e + i) 0 ≡ get_or b (at + length e + i) 0
  get_or-overwrite_after i =
      ap (λ n. get_or (overwrite b at e) n 0) place
      ∙ get_or-append_right (take at b) _ (length e + i) 0
      ∙ get_or-append_right e _ i 0
      ∙ get_or-drop (at + length e) b i 0
    where
      place : at + length e + i ≡ length (take at b) + (length e + i)
      place = omega (arith, length-take_eq at b inside)

-- A number that fits two or four bytes, put together from them.
pub two_bytes : (x : ℕ) → x < 2 ^ 16 → x % 256 + 256 * (x / 256 % 256 + 256 * 0) ≡ x
two_bytes x h = omega (arith, h)

pub four_bytes :
    (x : ℕ)
    → x < 2 ^ 32
    → x % 256
        + 256
          * (x / 256 % 256
              + 256 * (x / 256 / 256 % 256 + 256 * (x / 256 / 256 / 256 % 256 + 256 * 0)))
      ≡ x
four_bytes x h = omega (arith, h)
