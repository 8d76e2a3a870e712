-- ===== src/Syscalls/Transfer.antt =====
-- What `sys_read` and `sys_write` of src/core/syscall.rs move between a task and the kernel.
use nwin_os.Common.{
  ℕ, zero, suc, ◌≤◌, ◌≡◌, refl, min, Option, none, some, List, [], ◌∷◌, ◌⊎◌, inl, inr, ltb, ◌-◌,
  length, take, drop, Bool-cases, arith,
}
use nwin_os.Common.Outcome.{Outcome, returned, panicked}
use nwin_os.Common.Utf8.{encode_utf8}
use nwin_os.Keyboard.{Keys, pop_key}
use nwin_os.Paging.{PageTables, Physical}
use nwin_os.Task.{Task}
use nwin_os.Vfs
use nwin_os.Vfs.{Node, Driver, tar_vnode, dir_vnode, driver_vnode}
use nwin_os.Syscalls.{Kernel, efault, ebadf, current, is_valid}
use nwin_os.Syscalls.UserBytes.{Confined, Confines, unchanged, store_bytes-Confines}
use nwin_os.Syscalls.Files.{
  Found, from_stdin, bad, nothing, from_file, descriptor_of, Answer, answer, waits, after_read,
  read_node, get_node, after_key, key_or, read_stdin, read_found, sys_read,
}

-- What a driver's `read` fills is no longer than the buffer.
abbrev pub FillsBuffer : Driver → Type 0
FillsBuffer driver = (n offset buf_len : ℕ) → length (driver.read n offset buf_len) ≤ buf_len

-- The kernel as it is after some of the halts.
pub data IsAfter : List (Kernel → Kernel) → Kernel → Kernel → Type 0 where
  at_once : (halts : List (Kernel → Kernel)) (k : Kernel) → IsAfter halts k k
  after_halt :
      (halt : Kernel → Kernel) (halts : List (Kernel → Kernel)) (k k' : Kernel)
      → IsAfter halts (halt k) k'
      → IsAfter (halt ∷ halts) k k'

-- A count of at most `len`, or one of two errors.
abbrev pub IsCount : ℕ → ℕ → Type 0
IsCount len rax = (rax ≤ len) ⊎ ((rax ≡ efault) ⊎ (rax ≡ ebadf))

module _ (pt : PageTables) (cr3 : ℕ) where
  abbrev pub ReadsInto : List (Kernel → Kernel) → Kernel → (ptr len : ℕ) → Outcome Answer → Type 0
  ReadsInto halts k ptr len panicked = Unit
  ReadsInto halts k ptr len (returned (waits k')) = IsAfter halts k k'
  ReadsInto halts k ptr len (returned (answer rax k')) =
      (before : Kernel) × IsAfter halts k before
      × IsCount len rax
      × Confined pt cr3 before.physical ptr len k'.physical

  no_change :
      (halts : List (Kernel → Kernel)) (k : Kernel) (ptr len rax : ℕ)
      → IsCount len rax
      → ReadsInto halts k ptr len (returned (answer rax k))
  no_change halts k ptr len rax c = (k, at_once halts k, c, unchanged pt cr3 k.physical ptr len)

length-take_le : (n : ℕ) (xs : List ℕ) → length (take n xs) ≤ n
length-take_le zero xs = omega arith
length-take_le (suc n) [] = omega arith
length-take_le (suc n) (x ∷ xs) = omega (arith, length-take_le n xs)

-- A node copies no more than the buffer holds.
length-read :
    (driver : Driver) (node : Node) (offset len : ℕ)
    → FillsBuffer driver
    → length (Vfs.read driver node offset len) ≤ len
unfolding Vfs.read
length-read driver (tar_vnode contents) offset len fills =
    ground (arith, length-take_le (min len (length contents - offset)) (drop offset contents))
length-read driver (dir_vnode children) offset len fills = omega arith
length-read driver (driver_vnode n) offset len fills = fills n offset len

module _ (pt : PageTables) (cr3 : ℕ) (driver : Driver) (fills : FillsBuffer driver) where
  wider :
      (p p' : Physical) (ptr n len : ℕ)
      → n ≤ len
      → Confined pt cr3 p ptr n p'
      → Confined pt cr3 p ptr len p'
  wider p p' ptr n len le c = record {
    same_tables = c.same_tables;
    same_frames = c.same_frames;
    outside = λ q free. c.outside q (λ a lo hi. free a lo (omega (arith, le, hi)));
  }

  after_read-ReadsInto :
      (halts : List (Kernel → Kernel)) (k : Kernel) (t : Task) (fd vnode offset ptr n len : ℕ)
      → n ≤ len
      → (o : Outcome Physical) → Confines pt cr3 k.physical ptr n o
      → ReadsInto pt cr3 halts k ptr len (after_read pt cr3 driver k t fd vnode offset n o)
  after_read-ReadsInto halts k t fd vnode offset ptr n len le panicked c = tt
  after_read-ReadsInto halts k t fd vnode offset ptr n len le (returned p) c =
      elim (Bool-cases (ltb 0 n)) [
        | inl some_read ↦
            rw some_read (k, at_once halts k, inl le, wider k.physical p ptr n len le c)
        | inr none_read ↦
            rw none_read (k, at_once halts k, inl le, wider k.physical p ptr n len le c)
      ]

  read_node-ReadsInto :
      (halts : List (Kernel → Kernel)) (k : Kernel) (t : Task) (fd vnode offset ptr len : ℕ)
      → (node : Option Node)
      → ReadsInto pt cr3 halts k ptr len (read_node pt cr3 driver k t fd vnode offset ptr len node)
  read_node-ReadsInto halts k t fd vnode offset ptr len none =
      no_change pt cr3 halts k ptr len 0 (inl (omega arith))
  read_node-ReadsInto halts k t fd vnode offset ptr len (some node) =
      after_read-ReadsInto halts k t fd vnode offset ptr _ len
        (length-read driver node offset len fills) _
        (store_bytes-Confines pt cr3 k.physical ptr (Vfs.read driver node offset len))

  after_key-ReadsInto :
      (halts : List (Kernel → Kernel)) (k : Kernel) (keys : Keys) (ptr n len : ℕ)
      → n ≤ len
      → (o : Outcome Physical) → Confines pt cr3 k.physical ptr n o
      → ReadsInto pt cr3 halts k ptr len (after_key pt cr3 driver (record k { keys = keys }) n o)
  after_key-ReadsInto halts k keys ptr n len le panicked c = tt
  after_key-ReadsInto halts k keys ptr n len le (returned p) c =
      (k, at_once halts k, inl le, wider k.physical p ptr n len le c)

  -- The other way of the loop is taken if no key is there.
  key_or-ReadsInto :
      (halts : List (Kernel → Kernel)) (k : Kernel) (ptr len : ℕ) (other : Outcome Answer)
      → ReadsInto pt cr3 halts k ptr len other
      → (popped : Option ℕ × Keys)
      → ReadsInto pt cr3 halts k ptr len (key_or pt cr3 driver other k ptr len popped)
  key_or-ReadsInto halts k ptr len other r (none, keys) = r
  key_or-ReadsInto halts k ptr len other r (some c, keys) =
      after_key-ReadsInto halts k keys ptr _ len
        (ground (arith, length-take_le (min (length (encode_utf8 c)) len) (encode_utf8 c))) _
        (store_bytes-Confines pt cr3 k.physical ptr
          (take (min (length (encode_utf8 c)) len) (encode_utf8 c)))

  later :
      (halt : Kernel → Kernel) (halts : List (Kernel → Kernel)) (k : Kernel) (ptr len : ℕ)
      (o : Outcome Answer)
      → ReadsInto pt cr3 halts (halt k) ptr len o
      → ReadsInto pt cr3 (halt ∷ halts) k ptr len o
  later halt halts k ptr len panicked r = tt
  later halt halts k ptr len (returned (waits k')) r = after_halt halt halts k k' r
  later halt halts k ptr len (returned (answer rax k')) (before, after, c, confined) =
      (before, after_halt halt halts k before after, c, confined)

  read_stdin-ReadsInto :
      (halts : List (Kernel → Kernel)) (k : Kernel) (ptr len : ℕ)
      → ReadsInto pt cr3 halts k ptr len (read_stdin pt cr3 driver halts k ptr len)
  unfolding read_stdin
  read_stdin-ReadsInto [] k ptr len =
      key_or-ReadsInto [] k ptr len (returned (waits k)) (at_once [] k) (pop_key k.keys)
  read_stdin-ReadsInto (halt ∷ halts) k ptr len =
      key_or-ReadsInto (halt ∷ halts) k ptr len _
        (later halt halts k ptr len _ (read_stdin-ReadsInto halts (halt k) ptr len))
        (pop_key k.keys)

  read_found-ReadsInto :
      (halts : List (Kernel → Kernel)) (k : Kernel) (fd ptr len : ℕ) (found : Found)
      → ReadsInto pt cr3 halts k ptr len (read_found pt cr3 driver halts k fd ptr len found)
  read_found-ReadsInto halts k fd ptr len nothing =
      no_change pt cr3 halts k ptr len 0 (inl (omega arith))
  read_found-ReadsInto halts k fd ptr len bad =
      no_change pt cr3 halts k ptr len ebadf (inr (inr refl))
  read_found-ReadsInto halts k fd ptr len from_stdin = elim (Bool-cases (ltb 0 len)) [
    | inl room ↦ rw room (read_stdin-ReadsInto halts k ptr len)
    | inr full ↦ rw full (no_change pt cr3 halts k ptr len 0 (inl (omega arith)))
  ]
  read_found-ReadsInto halts k fd ptr len (from_file t vnode offset) =
      read_node-ReadsInto halts k t fd vnode offset ptr len (get_node k.nodes vnode)

-- `sys_read`, for any mapper, any nodes whose drivers fill no more than the buffer, and any course of
-- the halts in which it waits for a key: if it answers, `rax` is at most `len` or one of the errors
-- EFAULT and EBADF, and against the kernel after some of the halts the call has changed no page
-- table, no frame count, and no byte but those at which the `len` addresses from `ptr` on lie; if it
-- waits, all that has happened is some of the halts.
pub sys_read-ReadsInto :
    (pt : PageTables) (cr3 : ℕ) (driver : Driver) (halts : List (Kernel → Kernel)) (k : Kernel)
    (fd ptr len : ℕ)
    → FillsBuffer driver
    → ReadsInto pt cr3 halts k ptr len (sys_read pt cr3 driver halts k fd ptr len)
unfolding sys_read
sys_read-ReadsInto pt cr3 driver halts k fd ptr len fills =
    elim (Bool-cases (is_valid pt cr3 k ptr len)) [
      | inl valid ↦ rw valid (
          read_found-ReadsInto pt cr3 driver fills halts k fd ptr len
            (descriptor_of (current k.tasks) fd))
      | inr invalid ↦ rw invalid (no_change pt cr3 halts k ptr len efault (inr (inl refl)))
    ]
