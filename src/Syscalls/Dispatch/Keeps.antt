-- ===== src/Syscalls/Dispatch/Keeps.antt =====
-- The calls on descriptors of src/core/syscall.rs keep the invariant of the task manager.
use nwin_os.Common.{ℕ, ◌+◌, ◌≡◌, refl, Option, none, some, List, [], ◌∷◌, ltb, Bool-cases, inl, inr}
use nwin_os.Common.Dict.{Str}
use nwin_os.Common.Outcome.{Outcome, returned, panicked}
use nwin_os.Fd
use nwin_os.Fd.{FileDescriptor, stdin, stdout, stderr, regular_file}
use nwin_os.Keyboard.{Keys, pop_key}
use nwin_os.Paging.{PageTables, Physical}
use nwin_os.Task.{Task, TaskId}
use nwin_os.Tasks.Spec.{IsValid}
use nwin_os.Vfs.{Node, Driver, MountTable}
use nwin_os.Syscalls.{Kernel, current, is_valid}
use nwin_os.Syscalls.Current.{put_current-IsValid}
use nwin_os.Syscalls.Files.{
  Answer, answer, waits, descriptor_of, on_descriptor, get_node, set_offset, after_read, read_node,
  after_key, key_or, read_stdin, read_found, sys_read, write_text, write_bytes, write_descriptor,
  write_task, write_current, sys_write, insert_file, open_found, open_named, sys_open, close_in,
  sys_close,
}

-- The invariant of the tasks in what a call leaves.
abbrev pub LeavesValid : Outcome Answer → Type 0
LeavesValid panicked = Unit
LeavesValid (returned (answer rax k)) = IsValid k.tasks
LeavesValid (returned (waits k)) = IsValid k.tasks

abbrev pub KeepsValid : (Kernel → Kernel) → Type 0
KeepsValid halt = (k : Kernel) → IsValid k.tasks → IsValid (halt k).tasks

abbrev pub KeepValid : List (Kernel → Kernel) → Type 0
KeepValid [] = Unit
KeepValid (halt ∷ halts) = KeepsValid halt × KeepValid halts

module _ (pt : PageTables) (cr3 : ℕ) (driver : Driver) where
  after_read-LeavesValid :
      (k : Kernel) (t : Task) (fd vnode offset n : ℕ) (o : Outcome Physical)
      → current k.tasks ≡ some t
      → IsValid k.tasks
      → LeavesValid (after_read pt cr3 driver k t fd vnode offset n o)
  after_read-LeavesValid k t fd vnode offset n panicked c v = tt
  after_read-LeavesValid k t fd vnode offset n (returned p) c v = elim (Bool-cases (ltb 0 n)) [
    | inl more ↦ rw more (put_current-IsValid k.tasks t (set_offset t fd vnode (offset + n)) c v)
    | inr at_end ↦ rw at_end v
  ]

  read_node-LeavesValid :
      (k : Kernel) (t : Task) (fd vnode offset ptr len : ℕ) (node : Option Node)
      → current k.tasks ≡ some t
      → IsValid k.tasks
      → LeavesValid (read_node pt cr3 driver k t fd vnode offset ptr len node)
  read_node-LeavesValid k t fd vnode offset ptr len none c v = v
  read_node-LeavesValid k t fd vnode offset ptr len (some node) c v =
      after_read-LeavesValid k t fd vnode offset _ _ c v

  after_key-LeavesValid :
      (k : Kernel) (n : ℕ) (o : Outcome Physical)
      → IsValid k.tasks
      → LeavesValid (after_key pt cr3 driver k n o)
  after_key-LeavesValid k n panicked v = tt
  after_key-LeavesValid k n (returned p) v = v

  key_or-LeavesValid :
      (other : Outcome Answer) (k : Kernel) (ptr len : ℕ) (popped : Option ℕ × Keys)
      → LeavesValid other
      → IsValid k.tasks
      → LeavesValid (key_or pt cr3 driver other k ptr len popped)
  key_or-LeavesValid other k ptr len (none, keys) h v = h
  key_or-LeavesValid other k ptr len (some c, keys) h v =
      after_key-LeavesValid (record k { keys = keys }) _ _ v

  read_stdin-LeavesValid :
      (halts : List (Kernel → Kernel)) (k : Kernel) (ptr len : ℕ)
      → KeepValid halts
      → IsValid k.tasks
      → LeavesValid (read_stdin pt cr3 driver halts k ptr len)
  unfolding read_stdin
  read_stdin-LeavesValid [] k ptr len h v = key_or-LeavesValid _ k ptr len (pop_key k.keys) v v
  read_stdin-LeavesValid (halt ∷ halts) k ptr len (keeps, h) v =
      key_or-LeavesValid _ k ptr len (pop_key k.keys)
        (read_stdin-LeavesValid halts (halt k) ptr len h (keeps k v)) v

  on_descriptor-LeavesValid :
      (halts : List (Kernel → Kernel)) (k : Kernel) (fd ptr len : ℕ) (t : Task)
      (d : Option FileDescriptor)
      → KeepValid halts
      → current k.tasks ≡ some t
      → IsValid k.tasks
      → LeavesValid (read_found pt cr3 driver halts k fd ptr len (on_descriptor t d))
  unfolding on_descriptor
  on_descriptor-LeavesValid halts k fd ptr len t none h c v = v
  on_descriptor-LeavesValid halts k fd ptr len t (some stdin) h c v =
      elim (Bool-cases (ltb 0 len)) [
        | inl room ↦ rw room (read_stdin-LeavesValid halts k ptr len h v)
        | inr full ↦ rw full v
      ]
  on_descriptor-LeavesValid halts k fd ptr len t (some stdout) h c v = v
  on_descriptor-LeavesValid halts k fd ptr len t (some stderr) h c v = v
  on_descriptor-LeavesValid halts k fd ptr len t (some (regular_file vnode offset)) h c v =
      read_node-LeavesValid k t fd vnode offset ptr len (get_node k.nodes vnode) c v

  read_task-LeavesValid :
      (halts : List (Kernel → Kernel)) (k : Kernel) (fd ptr len : ℕ) (o : Option Task)
      → KeepValid halts
      → current k.tasks ≡ o
      → IsValid k.tasks
      → LeavesValid (read_found pt cr3 driver halts k fd ptr len (descriptor_of o fd))
  read_task-LeavesValid halts k fd ptr len none h c v = v
  read_task-LeavesValid halts k fd ptr len (some t) h c v =
      on_descriptor-LeavesValid halts k fd ptr len t (Fd.get_mut t.fd_table fd) h c v

  pub sys_read-LeavesValid :
      (halts : List (Kernel → Kernel)) (k : Kernel) (fd ptr len : ℕ)
      → KeepValid halts
      → IsValid k.tasks
      → LeavesValid (sys_read pt cr3 driver halts k fd ptr len)
  unfolding sys_read
  sys_read-LeavesValid halts k fd ptr len h v = elim (Bool-cases (is_valid pt cr3 k ptr len)) [
    | inl valid ↦ rw valid (read_task-LeavesValid halts k fd ptr len _ h refl v)
    | inr invalid ↦ rw invalid v
  ]

write_text-LeavesValid :
    (k : Kernel) (style : Str → Str) (len : ℕ) (s : Option Str)
    → IsValid k.tasks
    → LeavesValid (write_text k style len s)
write_text-LeavesValid k style len none v = v
write_text-LeavesValid k style len (some s) v = v

write_bytes-LeavesValid :
    (k : Kernel) (style : Str → Str) (len : ℕ) (o : Outcome (List ℕ))
    → IsValid k.tasks
    → LeavesValid (write_bytes k style len o)
write_bytes-LeavesValid k style len panicked v = tt
write_bytes-LeavesValid k style len (returned bytes) v = write_text-LeavesValid k style len _ v

module _ (pt : PageTables) (cr3 : ℕ) (k : Kernel) (v : IsValid k.tasks) where
  write_descriptor-LeavesValid :
      (ptr len : ℕ) (d : Option FileDescriptor) → LeavesValid (write_descriptor pt cr3 k ptr len d)
  write_descriptor-LeavesValid ptr len none = v
  write_descriptor-LeavesValid ptr len (some stdin) = v
  write_descriptor-LeavesValid ptr len (some stdout) = write_bytes-LeavesValid k _ len _ v
  write_descriptor-LeavesValid ptr len (some stderr) = write_bytes-LeavesValid k _ len _ v
  write_descriptor-LeavesValid ptr len (some (regular_file vnode offset)) = v

  write_task-LeavesValid :
      (fd ptr len : ℕ) (o : Option Task) → LeavesValid (write_task pt cr3 k fd ptr len o)
  write_task-LeavesValid fd ptr len none = v
  write_task-LeavesValid fd ptr len (some t) =
      write_descriptor-LeavesValid ptr len (Fd.get_mut t.fd_table fd)

  write_current-LeavesValid :
      (fd ptr len : ℕ) (o : Option TaskId) → LeavesValid (write_current pt cr3 k fd ptr len o)
  write_current-LeavesValid fd ptr len none = v
  write_current-LeavesValid fd ptr len (some id) =
      write_task-LeavesValid fd ptr len (current k.tasks)

  pub sys_write-LeavesValid : (fd ptr len : ℕ) → LeavesValid (sys_write pt cr3 k fd ptr len)
  unfolding sys_write
  sys_write-LeavesValid fd ptr len = elim (Bool-cases (is_valid pt cr3 k ptr len)) [
    | inl valid ↦ rw valid (write_current-LeavesValid fd ptr len k.tasks.current_task)
    | inr invalid ↦ rw invalid v
  ]

  insert_file-LeavesValid :
      (node : Node) (o : Option Task)
      → current k.tasks ≡ o
      → LeavesValid (returned (insert_file k node o))
  insert_file-LeavesValid node none c = v
  insert_file-LeavesValid node (some t) c = put_current-IsValid k.tasks t _ c v

  open_found-LeavesValid : (node : Option Node) → LeavesValid (returned (open_found k node))
  open_found-LeavesValid none = v
  open_found-LeavesValid (some node) = insert_file-LeavesValid node (current k.tasks) refl

  close_in-LeavesValid :
      (fd : ℕ) (o : Option Task) → current k.tasks ≡ o → LeavesValid (returned (close_in k fd o))
  close_in-LeavesValid fd none c = v
  close_in-LeavesValid fd (some t) c = put_current-IsValid k.tasks t _ c v

  pub sys_close-LeavesValid : (fd : ℕ) → LeavesValid (returned (sys_close k fd))
  unfolding sys_close
  sys_close-LeavesValid fd = close_in-LeavesValid fd (current k.tasks) refl

  module _ (driver : Driver) (mounts : MountTable) (vfs_root : Node) where
    open_named-LeavesValid :
        (o : Outcome (List ℕ)) → LeavesValid (open_named pt cr3 driver mounts vfs_root k o)
    open_named-LeavesValid panicked = tt
    open_named-LeavesValid (returned bytes) = open_found-LeavesValid _

    pub sys_open-LeavesValid :
        (filename_ptr : ℕ) → LeavesValid (sys_open pt cr3 driver mounts vfs_root k filename_ptr)
    unfolding sys_open
    sys_open-LeavesValid filename_ptr = elim (Bool-cases (is_valid pt cr3 k filename_ptr 256)) [
      | inl valid ↦ rw valid (open_named-LeavesValid _)
      | inr invalid ↦ rw invalid v
    ]
