-- ===== src/Vfs/Tar.antt =====
-- The initramfs reader of src/fs/vfs.rs: `find_file` and `build_vfs_tree_from_tar`, each with its own
-- loop over the archive.
--
-- The archive is the function from offsets to bytes that the pointer `ptr` gives, and its size. Fuel
-- stands for the number of headers: each turn moves on by at least one block of 512 bytes.
pub mod Scan
pub mod Agree
use nwin_os.Common.{
  ℕ, zero, suc, ◌+◌, ◌-◌, ◌*◌, ◌/◌, ◌≤◌, ◌<◌, Bool, true, false, not, ◌&&◌, ◌||◌, Option, none,
  some, List, [], ◌∷◌, ltb, leb, ◌==◌, if◌then◌else◌, length,
}
use nwin_os.Common.Dict.{Str, same}
use nwin_os.Common.Utf8.{from_utf8}
use nwin_os.Vfs.{Node, tar_vnode, Children, no_child, add, is_empty, slash}

pub record TarContext : Type 0 where
  pub ptr : ℕ → ℕ
  pub size : ℕ

-- `n` bytes from `at` on.
unfoldable pub slice : (ℕ → ℕ) → ℕ → ℕ → List ℕ
slice ptr at zero = []
slice ptr at (suc n) = ptr at ∷ slice ptr (at + 1) n

-- The bytes before the first NUL.
unfoldable pub until_nul : List ℕ → List ℕ
until_nul [] = []
until_nul (c ∷ s) = let rest = until_nul s in if c == 0 then [] else c ∷ rest

abbrev pub unwrap_or : Option Str → Str → Str
unwrap_or none d = d
unwrap_or (some s) d = s

-- `char::is_whitespace`
abbrev pub is_whitespace : ℕ → Bool
is_whitespace c =
    (leb 9 c && leb c 13)
    || c == 0x20
    || c == 0x85
    || c == 0xA0
    || c == 0x1680
    || (leb 0x2000 c && leb c 0x200A)
    || c == 0x2028
    || c == 0x2029
    || c == 0x202F
    || c == 0x205F
    || c == 0x3000

unfoldable pub trim_start : Str → Str
trim_start [] = []
trim_start (c ∷ s) = let rest = trim_start s in if is_whitespace c then rest else c ∷ s

unfoldable pub trim_end : Str → Str
trim_end [] = []
trim_end (c ∷ s) =
    let rest = trim_end s in if is_empty rest && is_whitespace c then [] else c ∷ rest

-- The digits of `usize::from_str_radix(_, 8)`; eleven of them fit.
unfoldable pub octal_digits : ℕ → Str → Option ℕ
octal_digits value [] = some value
octal_digits value (c ∷ s) =
    let rest = octal_digits (value * 8 + (c - 0x30)) s in
    if leb 0x30 c && leb c 0x37 then rest else none

unfoldable pub from_octal : Str → Option ℕ
from_octal [] = none
from_octal (c ∷ s) =
    if c == 0x2b then (if is_empty s then none else octal_digits 0 s) else octal_digits 0 (c ∷ s)

abbrev pub or_zero : Option ℕ → ℕ
or_zero none = 0
or_zero (some n) = n

-- The name and the size in the header at `offset`.
unfoldable pub header_name : TarContext → ℕ → Str
header_name tar offset = unwrap_or (from_utf8 (until_nul (slice tar.ptr offset 100))) []

unfoldable pub header_size : TarContext → ℕ → ℕ
header_size tar offset = or_zero (
    from_octal
      (trim_start (trim_end (unwrap_or (from_utf8 (slice tar.ptr (offset + 124) 11)) (0x30 ∷ [])))))

abbrev pub next_offset : ℕ → ℕ → ℕ
next_offset offset file_size = offset + (512 + (file_size + 511) / 512 * 512)

-- The outcome of the loop: `none` if the fuel is used up.
unfoldable pub find_from : ℕ → TarContext → Str → ℕ → Option (Option (List ℕ))
find_from zero tar filename offset = none
find_from (suc fuel) tar filename offset =
    let file_size = header_size tar offset in
    let rest = find_from fuel tar filename (next_offset offset file_size) in
    if leb (offset + 512) tar.size
    then (if tar.ptr offset == 0
        then some none
        else if same (header_name tar offset) filename
        then some (some (slice tar.ptr (offset + 512) file_size))
        else rest)
    else some none

abbrev pub headers : TarContext → ℕ
headers tar = suc (tar.size / 512)

unfoldable pub find_file : Option TarContext → Str → Option (Option (List ℕ))
find_file none filename = some none
find_file (some tar) filename = find_from (headers tar) tar filename 0

-- `trim_start_matches('/')`
unfoldable pub trim_slashes : Str → Str
trim_slashes [] = []
trim_slashes (c ∷ s) = let rest = trim_slashes s in if c == slash then rest else c ∷ s

-- One file, if it is neither empty nor nameless.
unfoldable pub register : TarContext → ℕ → Children → Children
register tar offset root =
    let file_size = header_size tar offset in
    let name = header_name tar offset in
    if ltb 0 file_size && not (is_empty name)
    then add (trim_slashes name) (tar_vnode (slice tar.ptr (offset + 512) file_size)) root
    else root

unfoldable pub build_from : ℕ → TarContext → ℕ → Children → Option Children
build_from zero tar offset root = none
build_from (suc fuel) tar offset root =
    let rest =
      build_from fuel tar (next_offset offset (header_size tar offset))
        (register tar offset root) in
    if leb (offset + 512) tar.size
    then (if tar.ptr offset == 0 then some root else rest)
    else some root

unfoldable pub build_vfs_tree_from_tar : Option TarContext → Children → Option Children
build_vfs_tree_from_tar none root = some root
build_vfs_tree_from_tar (some tar) root = build_from (headers tar) tar 0 root
