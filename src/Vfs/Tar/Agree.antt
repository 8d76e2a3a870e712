-- ===== src/Vfs/Tar/Agree.antt =====
-- The two loops see the same files.
use nwin_os.Common.{
  ℕ, ◌+◌, ◌/◌, ◌≡◌, refl, sym, ◌∙◌, ap, Bool, true, false, not, ◌&&◌, inl, inr, Option, none, some,
  List, [], ◌∷◌, ltb, if◌then◌else◌, Bool-cases, arith,
}
use nwin_os.Common.Dict.{Str, same, same→eq, same_refl}
use nwin_os.Vfs.{Node, tar_vnode, Children, no_child, child, find_child, add, is_empty}
use nwin_os.Vfs.Tar.{
  TarContext, slice, header_name, header_size, find_file, trim_slashes, register,
  build_vfs_tree_from_tar,
}
use nwin_os.Vfs.Tar.Scan.{Entries, first_named, register_all, scan, one_walk}

-- The trees of children.
find-add_self :
    (name : Str) (node : Node) (root : Children) → find_child name (add name node root) ≡ some node
unfolding find_child add
find-add_self name node no_child = ground (arith, same_refl name)
find-add_self name node (child other old rest) =
    ground (arith, find-add_self name node rest, same_refl name)

find-add_ne :
    (name key : Str) (node : Node) (root : Children)
    → same name key ≡ false
    → find_child key (add name node root) ≡ find_child key root
unfolding find_child add
find-add_ne name key node no_child ne = ground (arith, ne)
find-add_ne name key node (child other old rest) ne = elim (Bool-cases (same other name)) [
  | inl e ↦
      let f : same other key ≡ false = ap (λ z. same z key) (same→eq other name e) ∙ ne in
      ground (arith, e, f, ne)
  | inr e ↦ ground (arith, find-add_ne name key node rest ne, e)
]

-- The header is registered under the name.
unfoldable pub registers_as : TarContext → Str → ℕ → Bool
registers_as tar filename offset =
    ltb 0 (header_size tar offset)
    && not (is_empty (header_name tar offset))
    && same (trim_slashes (header_name tar offset)) filename

abbrev pub has_name : TarContext → Str → ℕ → Bool
has_name tar filename offset = same (header_name tar offset) filename

unfoldable pub absent : TarContext → Str → List ℕ → Bool
absent tar filename [] = true
absent tar filename (offset ∷ rest) =
    not (registers_as tar filename offset)
    && not (has_name tar filename offset)
    && absent tar filename rest

-- At most one header comes to stand for the name in the tree, and it is the one that has it.
unfoldable pub is_unambiguous : TarContext → Str → List ℕ → Bool
is_unambiguous tar filename [] = true
is_unambiguous tar filename (offset ∷ rest) =
    let later = is_unambiguous tar filename rest in
    if registers_as tar filename offset
    then has_name tar filename offset && absent tar filename rest
    else not (has_name tar filename offset) && later

abbrev pub as_node : Option (List ℕ) → Option Node
as_node none = none
as_node (some contents) = some (tar_vnode contents)

register_other :
    (tar : TarContext) (filename : Str) (offset : ℕ) (root : Children)
    → registers_as tar filename offset ≡ false
    → find_child filename (register tar offset root) ≡ find_child filename root
unfolding register registers_as
register_other tar filename offset root h =
    elim (Bool-cases (ltb 0 (header_size tar offset) && not (is_empty (header_name tar offset)))) [
      | inl r ↦ rw r (find-add_ne _ filename _ root (ground (arith, h, r)))
      | inr r ↦ rw r refl
    ]

register_own :
    (tar : TarContext) (filename : Str) (offset : ℕ) (root : Children)
    → registers_as tar filename offset ≡ true
    → find_child filename (register tar offset root)
      ≡ some (tar_vnode (slice tar.ptr (offset + 512) (header_size tar offset)))
unfolding register registers_as
register_own tar filename offset root h =
    let r : (ltb 0 (header_size tar offset) && not (is_empty (header_name tar offset))) ≡ true =
      ground (arith, h) in
    let e : trim_slashes (header_name tar offset) ≡ filename = same→eq _ _ (ground (arith, h)) in
    rw (r, e) (find-add_self filename _ root)

absent_keeps :
    (tar : TarContext) (filename : Str) (es : List ℕ) (root : Children)
    → absent tar filename es ≡ true
    → (find_child filename (register_all tar es root) ≡ find_child filename root)
unfolding absent register_all
absent_keeps tar filename [] root h = refl
absent_keeps tar filename (offset ∷ es) root h =
    absent_keeps tar filename es (register tar offset root) (ground (arith, h))
    ∙ register_other tar filename offset root (ground (arith, h))

same_files :
    (tar : TarContext) (filename : Str) (es : List ℕ) (root : Children)
    → is_unambiguous tar filename es ≡ true
    → find_child filename root ≡ none
    → find_child filename (register_all tar es root) ≡ as_node (first_named tar filename es)
unfolding is_unambiguous register_all first_named
same_files tar filename [] root h z = z
same_files tar filename (offset ∷ es) root h z =
    elim (Bool-cases (registers_as tar filename offset)) [
      | inl r ↦
          let named : has_name tar filename offset ≡ true = ground (arith, h, r) in
          rw named (
            absent_keeps tar filename es (register tar offset root) (ground (arith, h, r))
            ∙ register_own tar filename offset root r)
      | inr r ↦
          let other : has_name tar filename offset ≡ false = ground (arith, h, r) in
          rw other (
            same_files tar filename es (register tar offset root) (ground (arith, h, r))
              (register_other tar filename offset root r ∙ z))
    ]

-- Both loops end, and they agree: if at most one header of the archive comes to stand for a name in
-- the tree that is built from nothing, and no header but that one has the name, then the child of
-- that name in the tree has the contents that `find_file` gives, and there is none if `find_file` gives
-- none.
pub find_file-build :
    (tar : TarContext) (filename : Str) (es : List ℕ)
    → Entries tar 0 es
    → is_unambiguous tar filename es ≡ true
    → (found : Option (List ℕ)) × (tree : Children) × (find_file (some tar) filename ≡ some found)
      × (build_vfs_tree_from_tar (some tar) no_child ≡ some tree)
      × (find_child filename tree ≡ as_node found)
unfolding find_file build_vfs_tree_from_tar find_child
find_file-build tar filename es listed h =
    let r = scan tar (tar.size / 512) 0 (omega arith) in
    let e = one_walk tar 0 es r.entries listed r.listed in
    (
      first_named tar filename r.entries,
      register_all tar r.entries no_child,
      r.found filename,
      r.built no_child,
      same_files tar filename r.entries no_child (rw (sym e) h) refl,
    )
