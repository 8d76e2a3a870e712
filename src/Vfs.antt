-- ===== src/Vfs.antt =====
-- src/fs/vfs.rs: nodes, path resolution and the mount table. The initramfs reader is Vfs/Tar.
--
-- A string is the list of its code points. A node is one of the two that the file defines or a node
-- of a mounted driver, whose implementation of the trait `VNode` is a parameter. A node is shared by
-- reference, so the tree under the root is a value that `add` replaces.
pub mod Paths
pub mod Mounting
pub mod Tar
mod Tests
use nwin_os.Common.{
  ℕ, ◌+◌, ◌-◌, ◌≤◌, min, Bool, true, false, not, Option, none, some, List, [], ◌∷◌, ◌++◌, ltb, leb,
  ◌==◌, if◌then◌else◌, length, take, drop,
}
use nwin_os.Common.Dict
use nwin_os.Common.Dict.{Str, Dict, same}
use nwin_os.Common.Map.{is_some}

mutual
  pub data Node : Type 0 where
    tar_vnode : (contents : List ℕ) → Node
    dir_vnode : (children : Children) → Node
    driver_vnode : ℕ → Node

  pub data Children : Type 0 where
    no_child : Children
    child : Str → Node → Children → Children

-- The trait `VNode` as a driver implements it; `read` gives the bytes that it copies.
pub record Driver : Type 0 where
  pub read : ℕ → ℕ → ℕ → List ℕ
  pub get_size : ℕ → ℕ
  pub is_dir : ℕ → Bool
  pub lookup : ℕ → Str → Option ℕ

unfoldable pub find_child : Str → Children → Option Node
find_child name no_child = none
find_child name (child other node rest) =
    if same other name then some node else find_child name rest

-- `DirVNode::add`, on the children.
unfoldable pub add : Str → Node → Children → Children
add name node no_child = child name node no_child
add name node (child other old children) =
    let rest = add name node children in
    if same other name then child name node children else child other old rest

abbrev pub lift : Option ℕ → Option Node
lift none = none
lift (some n) = some (driver_vnode n)

module _ (driver : Driver) where
  unfoldable pub is_dir : Node → Bool
  is_dir (tar_vnode contents) = false
  is_dir (dir_vnode children) = true
  is_dir (driver_vnode n) = driver.is_dir n

  unfoldable pub lookup : Node → Str → Option Node
  lookup (tar_vnode contents) name = none
  lookup (dir_vnode children) name = find_child name children
  lookup (driver_vnode n) name = lift (driver.lookup n name)

  -- The bytes that are copied to a buffer of `length` bytes.
  unfoldable pub read : Node → ℕ → ℕ → List ℕ
  read (tar_vnode contents) offset buf_len =
      if leb (length contents) offset
      then []
      else take (min buf_len (length contents - offset)) (drop offset contents)
  read (dir_vnode children) offset buf_len = []
  read (driver_vnode n) offset buf_len = driver.read n offset buf_len

  unfoldable pub get_size : Node → ℕ
  get_size (tar_vnode contents) = length contents
  get_size (dir_vnode children) = 0
  get_size (driver_vnode n) = driver.get_size n

abbrev pub MountTable : Type 0
MountTable = Dict Node

abbrev pub mount : MountTable → Str → Node → MountTable
mount mounts path node = Dict.insert path node mounts

abbrev pub get_mount : MountTable → Str → Option Node
get_mount mounts path = Dict.get path mounts

unfoldable pub unmount : MountTable → Str → Bool × MountTable
unmount mounts path = (is_some (Dict.get path mounts), Dict.remove path mounts)

abbrev pub slash : ℕ
slash = 0x2f

-- `path.split('/')`: the first piece and the others.
unfoldable pub split : Str → Str × List Str
split [] = ([], [])
split (c ∷ path) =
    let (piece, pieces) = split path in
    if c == slash then ([], piece ∷ pieces) else (c ∷ piece, pieces)

abbrev pub is_empty : Str → Bool
is_empty [] = true
is_empty (c ∷ s) = false

-- `.filter(|p| !p.is_empty())`
unfoldable pub keep_nonempty : List Str → List Str
keep_nonempty [] = []
keep_nonempty (p ∷ ps) = let rest = keep_nonempty ps in if is_empty p then rest else p ∷ rest

unfoldable pub components : Str → List Str
unfolding split keep_nonempty
components path = let (piece, pieces) = split path in keep_nonempty (piece ∷ pieces)

abbrev pub or_else : Option Node → Node → Node
or_else none d = d
or_else (some node) d = node

module _ (driver : Driver) (mounts : MountTable) where
  -- One component: a mount on the exact path, else the child of a directory.
  unfoldable pub enter : Node → Str → Str → Option Node
  enter current current_path part = elim (get_mount mounts current_path) [
    | some mounted_node ↦ some mounted_node
    | none ↦ lookup driver current part
  ]

  unfoldable pub resolve_from : Node → Str → List Str → Option Node
  resolve_from current current_path [] = some current
  resolve_from current current_path (part ∷ parts) =
      if not (is_dir driver current)
      then none
      else (let current_path' = current_path ++ (slash ∷ part) in
          elim (enter current current_path' part) [
            | none ↦ none
            | some next_node ↦ resolve_from next_node current_path' parts
          ])

  unfoldable pub resolve_path : Node → Str → Option Node
  resolve_path vfs_root path =
      resolve_from (or_else (get_mount mounts (slash ∷ [])) vfs_root) [] (components path)

  -- `open_vnode`
  unfoldable pub open_vnode : Node → Str → Option Node
  unfolding resolve_path
  open_vnode vfs_root path = resolve_path vfs_root path
