-- ===== src/Syscalls/Files.antt =====
-- The system calls on descriptors of src/core/syscall.rs: read, write, open and close.
use nwin_os.Common.{
  ℕ, zero, suc, ◌+◌, min, not, Option, none, some, List, [], ◌∷◌, ◌++◌, ltb, if◌then◌else◌, length,
  take,
}
use nwin_os.Common.Dict.{Str}
use nwin_os.Common.Utf8.{from_utf8, encode_utf8}
use nwin_os.Common.Outcome.{Outcome, returned, panicked}
use nwin_os.Fd
use nwin_os.Fd.{FileDescriptor, stdin, stdout, stderr, regular_file}
use nwin_os.Keyboard.{Keys, pop_key}
use nwin_os.Paging.{PageTables, Physical}
use nwin_os.Task.{Task, TaskId}
use nwin_os.Vfs
use nwin_os.Vfs.{Node, Driver, MountTable, open_vnode}
use nwin_os.Vfs.Tar.{unwrap_or}
use nwin_os.Syscalls.{
  Kernel, Output, text, efault, ebadf, enoent, emfile, current, put_current, is_valid, load,
  load_string, store_bytes,
}

-- What `sys_read` finds under its descriptor.
pub data Found : Type 0 where
  from_stdin : Found
  bad : Found
  nothing : Found
  from_file : (t : Task) (vnode offset : ℕ) → Found

unfoldable pub on_descriptor : Task → Option FileDescriptor → Found
on_descriptor t none = bad
on_descriptor t (some stdin) = from_stdin
on_descriptor t (some stdout) = bad
on_descriptor t (some stderr) = bad
on_descriptor t (some (regular_file vnode offset)) = from_file t vnode offset

abbrev pub descriptor_of : Option Task → ℕ → Found
descriptor_of none fd = nothing
descriptor_of (some t) fd = on_descriptor t (Fd.get_mut t.fd_table fd)

unfoldable pub get_node : List Node → ℕ → Option Node
get_node [] n = none
get_node (node ∷ nodes) zero = some node
get_node (node ∷ nodes) (suc n) = get_node nodes n

-- The answer in `rax`, or a halt in which the call still waits for a key.
pub data Answer : Type 0 where
  answer : ℕ → Kernel → Answer
  waits : Kernel → Answer

abbrev pub set_offset : Task → (fd vnode offset : ℕ) → Task
set_offset t fd vnode offset = record t {
  fd_table = Fd.set_descriptor t.fd_table fd (regular_file vnode offset);
}

module _ (pt : PageTables) (cr3 : ℕ) (driver : Driver) where
  -- The descriptor's offset moves by the bytes read, `rax` is their number.
  abbrev pub after_read :
      Kernel → Task → (fd vnode offset count : ℕ) → Outcome Physical → Outcome Answer
  after_read k t fd vnode offset count panicked = panicked
  after_read k t fd vnode offset count (returned p) =
      let k' : Kernel = record k { physical = p } in
      returned (
        answer count (
          if ltb 0 count
          then record k' { tasks = put_current k.tasks (set_offset t fd vnode (offset + count)) }
          else k'))

  abbrev pub read_node :
      Kernel → Task → (fd vnode offset ptr len : ℕ) → Option Node → Outcome Answer
  read_node k t fd vnode offset ptr len none = returned (answer 0 k)
  read_node k t fd vnode offset ptr len (some node) =
      let data_read = Vfs.read driver node offset len in
      after_read k t fd vnode offset (length data_read)
        (store_bytes pt cr3 k.physical ptr data_read)

  abbrev pub after_key : Kernel → ℕ → Outcome Physical → Outcome Answer
  after_key k count panicked = panicked
  after_key k count (returned p) = returned (answer count (record k { physical = p }))

  -- The bytes of one key, as far as they fit.
  abbrev pub give_key : Kernel → (ptr len : ℕ) → ℕ → Outcome Answer
  give_key k ptr len c =
      let encoded = take (min (length (encode_utf8 c)) len) (encode_utf8 c) in
      after_key k (length encoded) (store_bytes pt cr3 k.physical ptr encoded)

  abbrev pub key_or : Outcome Answer → Kernel → (ptr len : ℕ) → Option ℕ × Keys → Outcome Answer
  key_or other k ptr len (none, keys) = other
  key_or other k ptr len (some c, keys) = give_key (record k { keys = keys }) ptr len c

  -- The loop on the keyboard, with what happens in each halt; it still waits after the last of them.
  unfoldable pub read_stdin : List (Kernel → Kernel) → Kernel → (ptr len : ℕ) → Outcome Answer
  read_stdin [] k ptr len = key_or (returned (waits k)) k ptr len (pop_key k.keys)
  read_stdin (halt ∷ halts) k ptr len =
      let rest = read_stdin halts (halt k) ptr len in key_or rest k ptr len (pop_key k.keys)

  abbrev pub read_found :
      List (Kernel → Kernel) → Kernel → (fd ptr len : ℕ) → Found → Outcome Answer
  read_found halts k fd ptr len nothing = returned (answer 0 k)
  read_found halts k fd ptr len bad = returned (answer ebadf k)
  read_found halts k fd ptr len from_stdin =
      let got = read_stdin halts k ptr len in if ltb 0 len then got else returned (answer 0 k)
  read_found halts k fd ptr len (from_file t vnode offset) =
      read_node k t fd vnode offset ptr len (get_node k.nodes vnode)

  unfoldable pub sys_read : List (Kernel → Kernel) → Kernel → (fd ptr len : ℕ) → Outcome Answer
  sys_read halts k fd ptr len =
      if not (is_valid pt cr3 k ptr len)
      then returned (answer efault k)
      else read_found halts k fd ptr len (descriptor_of (current k.tasks) fd)

abbrev pub print : Kernel → Output → Kernel
print k o = record k { screen = o ∷ k.screen }

-- `\x1b[31m{}\x1b[0m`
abbrev pub in_red : Str → Str
in_red s = 0x1b ∷ b'[' ∷ b'3' ∷ b'1' ∷ b'm' ∷ (s ++ (0x1b ∷ b'[' ∷ b'0' ∷ b'm' ∷ []))

-- Bytes that are not UTF-8 are not written.
abbrev pub write_text : Kernel → (Str → Str) → ℕ → Option Str → Outcome Answer
write_text k style len none = returned (answer 0 k)
write_text k style len (some s) = returned (answer len (print k (text (style s))))

abbrev pub write_bytes : Kernel → (Str → Str) → ℕ → Outcome (List ℕ) → Outcome Answer
write_bytes k style len panicked = panicked
write_bytes k style len (returned bytes) = write_text k style len (from_utf8 bytes)

abbrev pub or_empty : Option Str → Str
or_empty s = unwrap_or s []

module _ (pt : PageTables) (cr3 : ℕ) where
  abbrev pub write_descriptor : Kernel → (ptr len : ℕ) → Option FileDescriptor → Outcome Answer
  write_descriptor k ptr len none = returned (answer ebadf k)
  write_descriptor k ptr len (some stdin) = returned (answer ebadf k)
  write_descriptor k ptr len (some stdout) =
      write_bytes k (λ s. s) len (load pt cr3 k.physical ptr len)
  write_descriptor k ptr len (some stderr) =
      write_bytes k in_red len (load pt cr3 k.physical ptr len)
  write_descriptor k ptr len (some (regular_file vnode offset)) = returned (answer ebadf k)

  abbrev pub write_task : Kernel → (fd ptr len : ℕ) → Option Task → Outcome Answer
  write_task k fd ptr len none = returned (answer ebadf k)
  write_task k fd ptr len (some t) = write_descriptor k ptr len (Fd.get_mut t.fd_table fd)

  abbrev pub write_current : Kernel → (fd ptr len : ℕ) → Option TaskId → Outcome Answer
  write_current k fd ptr len none = returned (answer 0 k)
  write_current k fd ptr len (some id) = write_task k fd ptr len (current k.tasks)

  unfoldable pub sys_write : Kernel → (fd ptr len : ℕ) → Outcome Answer
  sys_write k fd ptr len =
      if not (is_valid pt cr3 k ptr len)
      then returned (answer efault k)
      else write_current k fd ptr len k.tasks.current_task

-- The node is entered in the list of open files and in the table of the task.
abbrev pub insert_file : Kernel → Node → Option Task → Answer
insert_file k node none = answer emfile k
insert_file k node (some t) =
    let (new_fd, fd_table) = Fd.insert t.fd_table (regular_file (length k.nodes) 0) in
    let k' : Kernel = record k {
      nodes = k.nodes ++ (node ∷ []);
      tasks = put_current k.tasks (record t { fd_table = fd_table });
    } in
    answer (if ltb 0 new_fd then new_fd else emfile) k'

abbrev pub open_found : Kernel → Option Node → Answer
open_found k none = answer enoent k
open_found k (some node) = insert_file k node (current k.tasks)

module _ (pt : PageTables) (cr3 : ℕ) (driver : Driver) (mounts : MountTable) (vfs_root : Node) where
  abbrev pub open_named : Kernel → Outcome (List ℕ) → Outcome Answer
  open_named k panicked = panicked
  open_named k (returned bytes) =
      returned (open_found k (open_vnode driver mounts vfs_root (or_empty (from_utf8 bytes))))

  unfoldable pub sys_open : Kernel → (filename_ptr : ℕ) → Outcome Answer
  sys_open k filename_ptr =
      if not (is_valid pt cr3 k filename_ptr 256)
      then returned (answer efault k)
      else open_named k (load_string pt cr3 k.physical filename_ptr 256)

abbrev pub close_in : Kernel → ℕ → Option Task → Answer
close_in k fd none = answer ebadf k
close_in k fd (some t) =
    let (closed, fd_table) = Fd.close t.fd_table fd in
    let k' : Kernel = record k { tasks = put_current k.tasks (record t { fd_table = fd_table }) } in
    answer (if closed then 0 else ebadf) k'

unfoldable pub sys_close : Kernel → ℕ → Answer
sys_close k fd = close_in k fd (current k.tasks)
