-- ===== src/Vfs/Tests.antt =====
-- An archive with one file, and a disk mounted on a directory of the tree: tests, and instances of the
-- theorems.
use nwin_os.Common.{
  ℕ, ◌≡◌, refl, true, Option, none, some, List, [], ◌∷◌, ◌==◌, leb, ltb, ◌&&◌, if◌then◌else◌, arith,
}
use nwin_os.Common.Dict
use nwin_os.Common.Dict.{Str, same}
use nwin_os.Common.Utf8.{from_utf8}
use nwin_os.Vfs.{
  Node, Driver, dir_vnode, driver_vnode, Children, no_child, child, find_child, resolve_path, mount,
  get_mount, unmount, components, split, keep_nonempty, resolve_from, enter, lookup, is_dir,
}
use nwin_os.Vfs.Paths.{are_names, no_slash, join}
use nwin_os.Vfs.Mounting.{mount_resolves}
use nwin_os.Vfs.Tar.{
  TarContext, slice, until_nul, trim_start, trim_end, octal_digits, from_octal, header_name,
  header_size, find_file, build_vfs_tree_from_tar, trim_slashes,
}
use nwin_os.Vfs.Tar.Scan.{Entries, at_end, at_file}
use nwin_os.Vfs.Tar.Agree.{is_unambiguous, registers_as, as_node, absent, find_file-build}

-- A file `a` of three bytes.
abbrev archive : TarContext
archive = record {
  size = 1024;
  ptr = λ q.
      if q == 0
      then b'a'
      else if q == 134
      then b'3'
      else if leb 124 q && ltb q 134
      then b'0'
      else if leb 512 q && ltb q 515
      then b'x'
      else 0;
}

size_read : header_size archive 0 ≡ 3
unfolding header_size slice from_utf8 trim_start trim_end from_octal octal_digits
size_read = refl

one_header : Entries archive 0 (0 ∷ [])
one_header =
    at_file 0 [] (omega arith) (λ e. omega (arith, e)) (at_end _ (omega (arith, size_read)))

find_file-build_example :
    (found : Option (List ℕ)) × (tree : Children) × (find_file (some archive) (b'a' ∷ [])
      ≡ some found)
    × (build_vfs_tree_from_tar (some archive) no_child ≡ some tree)
    × (find_child (b'a' ∷ []) tree ≡ as_node found)
unfolding is_unambiguous registers_as absent header_size header_name until_nul slice from_utf8
    trim_start trim_end from_octal octal_digits trim_slashes same
find_file-build_example = find_file-build archive (b'a' ∷ []) (0 ∷ []) one_header refl

-- The root has a directory `m`, on which the node 7 of a disk is mounted.
abbrev disk : Driver
disk = record {
  read = λ n offset buf_len. [];
  get_size = λ n. 0;
  is_dir = λ n. true;
  lookup = λ n name. none;
}

abbrev root : Node
root = dir_vnode (child (b'm' ∷ []) (dir_vnode no_child) no_child)

abbrev target : Str
target = b'/' ∷ b'm' ∷ b'/' ∷ b'd' ∷ []

mount_resolves_example :
    (resolve_path disk (mount [] target (driver_vnode 7)) root target ≡ some (driver_vnode 7))
    × (get_mount (unmount (mount [] target (driver_vnode 7)) target).1 target ≡ none)
unfolding join are_names no_slash resolve_path components split keep_nonempty resolve_from enter
    lookup is_dir find_child same Dict.get
mount_resolves_example =
    mount_resolves disk [] root (driver_vnode 7) (dir_vnode no_child) ((b'm' ∷ []) ∷ []) (b'd' ∷ [])
      target refl refl refl refl refl
