-- ===== src/Fd.antt =====
-- src/fs/fd.rs: the file-descriptor table of a task. The shared reference to a file node
-- (`Arc<dyn VNode>`) is the number of the node; the table only stores and returns it. `get_mut`
-- lends a descriptor that the caller may overwrite: reading is `get`, overwriting `set_descriptor`.
pub mod Laws
mod Tests
use nwin_os.Common.{
  ℕ, ◌+◌, Bool, true, false, Option, none, some, List, [], ◌∷◌, ltb, if◌then◌else◌,
}
use nwin_os.Common.Map
use nwin_os.Common.Map.{Map, is_some}

pub data FileDescriptor : Type 0 where
  stdin stdout stderr : FileDescriptor
  regular_file : (vnode offset : ℕ) → FileDescriptor

pub record FdTable : Type 0 where
  pub descriptors : Map FileDescriptor
  pub next_fd : ℕ

unfoldable pub new : FdTable
unfolding Map.insert
new = record {
  descriptors = Map.insert 2 stderr (Map.insert 1 stdout (Map.insert 0 stdin []));
  next_fd = 3;
}

unfoldable pub get_mut : FdTable → ℕ → Option FileDescriptor
get_mut t fd = Map.get fd t.descriptors

-- `*t.get_mut(fd).unwrap() = d`
unfoldable pub set_descriptor : FdTable → ℕ → FileDescriptor → FdTable
set_descriptor t fd d = record t { descriptors = Map.insert fd d t.descriptors }

unfoldable pub insert : FdTable → FileDescriptor → ℕ × FdTable
insert t file = (
  t.next_fd,
  record t { descriptors = Map.insert t.next_fd file t.descriptors; next_fd = t.next_fd + 1 },
)

unfoldable pub close : FdTable → ℕ → Bool × FdTable
close t fd = if ltb fd 3 then (false, t) else (
  is_some (Map.get fd t.descriptors),
  record t { descriptors = Map.remove fd t.descriptors },
)

-- What a task does to its table: open a file, close a descriptor.
pub data FdCall : Type 0 where
  opens : FileDescriptor → FdCall
  closes : ℕ → FdCall

pub run : FdTable → List FdCall → FdTable
run t [] = t
run t (opens file ∷ calls) = run (insert t file).1 calls
run t (closes fd ∷ calls) = run (close t fd).1 calls
