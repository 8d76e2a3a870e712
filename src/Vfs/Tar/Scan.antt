-- ===== src/Vfs/Tar/Scan.antt =====
-- What the loops of `find_file` and `build_vfs_tree_from_tar` do: both run over the same headers, and
-- the fuel is enough for every archive.
use nwin_os.Common.{
  ℕ, zero, suc, ◌+◌, ◌*◌, ◌≤◌, ◌<◌, ◌≡◌, ◌≢◌, refl, ap, true, false, inl, inr, Option, none, some,
  List, [], ◌∷◌, leb, ◌==◌, if◌then◌else◌, Bool-cases, dec_le, ℕ_discrete, ==_ne, arith,
}
use nwin_os.Common.Dict.{Str, same}
use nwin_os.Vfs.{Children}
use nwin_os.Vfs.Tar.{
  TarContext, slice, header_name, header_size, next_offset, find_from, register, build_from,
}

-- The headers of an archive, in order.
pub data Entries (tar : TarContext) : ℕ → List ℕ → Type 0 where
  at_end : (offset : ℕ) → tar.size < offset + 512 → Entries tar offset []
  at_mark : (offset : ℕ) → offset + 512 ≤ tar.size → tar.ptr offset ≡ 0 → Entries tar offset []
  at_file :
      (offset : ℕ) (rest : List ℕ)
      → offset + 512 ≤ tar.size
      → tar.ptr offset ≢ 0
      → Entries tar (next_offset offset (header_size tar offset)) rest
      → Entries tar offset (offset ∷ rest)

-- The first header with a name.
unfoldable pub first_named : TarContext → Str → List ℕ → Option (List ℕ)
first_named tar filename [] = none
first_named tar filename (offset ∷ rest) =
    let later = first_named tar filename rest in
    if same (header_name tar offset) filename
    then some (slice tar.ptr (offset + 512) (header_size tar offset))
    else later

unfoldable pub register_all : TarContext → List ℕ → Children → Children
register_all tar [] root = root
register_all tar (offset ∷ rest) root = register_all tar rest (register tar offset root)

-- With fuel for the rest of the archive, the headers are listed and both loops run over them.
pub record Scans (tar : TarContext) (fuel offset : ℕ) : Type 0 where
  pub entries : List ℕ
  pub listed : Entries tar offset entries
  pub found :
      (filename : Str)
      → find_from fuel tar filename offset ≡ some (first_named tar filename entries)
  pub built :
      (root : Children) → build_from fuel tar offset root ≡ some (register_all tar entries root)

scan_end :
    (tar : TarContext) (fuel offset : ℕ) → tar.size < offset + 512 → Scans tar (suc fuel) offset
unfolding find_from build_from first_named register_all
scan_end tar fuel offset h =
    let over : leb (offset + 512) tar.size ≡ false = ground (arith, h) in
    record {
      entries = [];
      listed = at_end offset h;
      found = λ filename. rw over refl;
      built = λ root. rw over refl;
    }

scan_mark :
    (tar : TarContext) (fuel offset : ℕ)
    → offset + 512 ≤ tar.size
    → tar.ptr offset ≡ 0
    → Scans tar (suc fuel) offset
unfolding find_from build_from first_named register_all
scan_mark tar fuel offset h z =
    let inside : leb (offset + 512) tar.size ≡ true = ground (arith, h) in
    record {
      entries = [];
      listed = at_mark offset h z;
      found = λ filename. rw (inside, z) refl;
      built = λ root. rw (inside, z) refl;
    }

scan_file :
    (tar : TarContext) (fuel offset : ℕ)
    → offset + 512 ≤ tar.size
    → tar.ptr offset ≢ 0
    → Scans tar fuel (next_offset offset (header_size tar offset))
    → Scans tar (suc fuel) offset
unfolding find_from build_from first_named register_all
scan_file tar fuel offset h z r =
    let inside : leb (offset + 512) tar.size ≡ true = ground (arith, h) in
    let named : (tar.ptr offset == 0) ≡ false = ==_ne (tar.ptr offset) 0 z in
    record {
      entries = offset ∷ r.entries;
      listed = at_file offset r.entries h z r.listed;
      found = λ filename.
          rw (inside, named)
            (elim (Bool-cases (same (header_name tar offset) filename)) [
              | inl e ↦ rw e refl
              | inr e ↦ rw e (r.found filename)
            ]);
      built = λ root. rw (inside, named) (r.built (register tar offset root));
    }

pub scan :
    (tar : TarContext) (fuel offset : ℕ)
    → tar.size < offset + suc fuel * 512
    → Scans tar (suc fuel) offset
scan tar zero offset h = scan_end tar zero offset (omega (arith, h))
scan tar (suc fuel) offset h = elim (dec_le (offset + 512) tar.size) [
  | no over ↦ scan_end tar (suc fuel) offset (omega (arith, over))
  | yes inside ↦ elim (ℕ_discrete (tar.ptr offset) 0) [
    | yes mark ↦ scan_mark tar (suc fuel) offset inside mark
    | no file ↦
        scan_file tar (suc fuel) offset inside file
          (scan tar fuel (next_offset offset (header_size tar offset)) (omega (arith, h)))
  ]
]

pub one_walk :
    (tar : TarContext) (offset : ℕ) (es es' : List ℕ)
    → Entries tar offset es
    → Entries tar offset es'
    → es ≡ es'
one_walk tar offset es es' (at_end _ h) (at_end _ h') = refl
one_walk tar offset es es' (at_end _ h) (at_mark _ h' z') = refl
one_walk tar offset es es' (at_end _ h) (at_file _ rest h' z' r') = absurd (omega (arith, h, h'))
one_walk tar offset es es' (at_mark _ h z) (at_end _ h') = refl
one_walk tar offset es es' (at_mark _ h z) (at_mark _ h' z') = refl
one_walk tar offset es es' (at_mark _ h z) (at_file _ rest h' z' r') = absurd (z' z)
one_walk tar offset es es' (at_file _ rest h z r) (at_end _ h') = absurd (omega (arith, h, h'))
one_walk tar offset es es' (at_file _ rest h z r) (at_mark _ h' z') = absurd (z z')
one_walk tar offset es es' (at_file _ rest h z r) (at_file _ rest' h' z' r') =
    ap (λ l. offset ∷ l) (one_walk tar _ rest rest' r r')
