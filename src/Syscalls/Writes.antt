-- ===== src/Syscalls/Writes.antt =====
-- What `sys_write` of src/core/syscall.rs prints.
use nwin_os.Common.{
  ℕ, ◌^◌, ◌<◌, ◌≡◌, refl, sym, subst, Option, none, some, List, ◌⊎◌, inl, inr, Bool-cases, length,
}
use nwin_os.Common.Dict.{Str}
use nwin_os.Common.Outcome.{Outcome, returned, panicked}
use nwin_os.Common.Utf8.{from_utf8}
use nwin_os.Fd
use nwin_os.Fd.{FileDescriptor, stdin, stdout, stderr, regular_file}
use nwin_os.Paging.{PageTables}
use nwin_os.Task.{Task, TaskId}
use nwin_os.Syscalls.{Kernel, text, efault, ebadf, current, is_valid, load}
use nwin_os.Syscalls.UserBytes.{Walks, Translated, is_valid-Translated, load-Translated}
use nwin_os.Syscalls.Files.{
  Answer, answer, waits, print, in_red, write_text, write_bytes, write_descriptor, write_task,
  write_current, sys_write,
}

-- The bytes of the buffer, as text, went to the display, in red or not.
abbrev pub Prints : PageTables → ℕ → Kernel → (ptr len : ℕ) → Kernel → Type 0
Prints pt cr3 k ptr len k' =
    (bytes : List ℕ) × (s : Str) × (load pt cr3 k.physical ptr len ≡ returned bytes)
    × (length bytes ≡ len)
    × (from_utf8 bytes ≡ some s)
    × ((k' ≡ print k (text s)) ⊎ (k' ≡ print k (text (in_red s))))

abbrev pub Writes : PageTables → ℕ → Kernel → (ptr len : ℕ) → Outcome Answer → Type 0
Writes pt cr3 k ptr len panicked = ⊥
Writes pt cr3 k ptr len (returned (waits k')) = ⊥
Writes pt cr3 k ptr len (returned (answer rax k')) =
    ((k' ≡ k) × ((rax ≡ 0) ⊎ ((rax ≡ efault) ⊎ (rax ≡ ebadf))))
    ⊎ ((rax ≡ len) × Prints pt cr3 k ptr len k')

module _ (pt : PageTables) (cr3 : ℕ) (k : Kernel) (ptr len : ℕ)
    (there : Translated pt cr3 k.physical.tables ptr len) where
  abbrev IsStyle : (Str → Str) → Type 0
  IsStyle style =
      (s : Str)
      → (print k (text (style s)) ≡ print k (text s))
        ⊎ (print k (text (style s)) ≡ print k (text (in_red s)))

  write_text-Writes :
      (style : Str → Str) (bytes : List ℕ) (o : Option Str)
      → IsStyle style
      → load pt cr3 k.physical ptr len ≡ returned bytes
      → length bytes ≡ len
      → from_utf8 bytes ≡ o
      → Writes pt cr3 k ptr len (write_text k style len o)
  write_text-Writes style bytes none is_style e size d = inl (refl, inl refl)
  write_text-Writes style bytes (some s) is_style e size d =
      inr (refl, (bytes, s, e, size, d, is_style s))

  write_bytes-Writes :
      (style : Str → Str)
      → IsStyle style
      → Writes pt cr3 k ptr len (write_bytes k style len (load pt cr3 k.physical ptr len))
  write_bytes-Writes style is_style =
      let (bytes, e, size) = load-Translated pt cr3 k.physical ptr len there in
      subst (λ o. Writes pt cr3 k ptr len (write_bytes k style len o)) (sym e)
        (write_text-Writes style bytes (from_utf8 bytes) is_style e size refl)

  write_descriptor-Writes :
      (d : Option FileDescriptor) → Writes pt cr3 k ptr len (write_descriptor pt cr3 k ptr len d)
  write_descriptor-Writes none = inl (refl, inr (inr refl))
  write_descriptor-Writes (some stdin) = inl (refl, inr (inr refl))
  write_descriptor-Writes (some stdout) = write_bytes-Writes (λ s. s) (λ s. inl refl)
  write_descriptor-Writes (some stderr) = write_bytes-Writes in_red (λ s. inr refl)
  write_descriptor-Writes (some (regular_file vnode offset)) = inl (refl, inr (inr refl))

  write_task-Writes :
      (fd : ℕ) (o : Option Task) → Writes pt cr3 k ptr len (write_task pt cr3 k fd ptr len o)
  write_task-Writes fd none = inl (refl, inr (inr refl))
  write_task-Writes fd (some t) = write_descriptor-Writes (Fd.get_mut t.fd_table fd)

  write_current-Writes :
      (fd : ℕ) (o : Option TaskId) → Writes pt cr3 k ptr len (write_current pt cr3 k fd ptr len o)
  write_current-Writes fd none = inl (refl, inl refl)
  write_current-Writes fd (some id) = write_task-Writes fd (current k.tasks)

-- `sys_write`, if the crate translates each address of a page that the kernel's own walk finds mapped,
-- and the pointer and the length are machine words: the call answers, without a panic. Either nothing
-- changes and `rax` is 0, EFAULT or EBADF; or `rax` is `len` and all that changes is the display, on
-- which the `len` bytes of the buffer, which are UTF-8, are printed as they are or in red.
pub sys_write-Writes :
    (pt : PageTables) (cr3 : ℕ) (k : Kernel) (fd ptr len : ℕ)
    → Walks pt cr3
    → ptr < 2 ^ 64
    → len < 2 ^ 64
    → Writes pt cr3 k ptr len (sys_write pt cr3 k fd ptr len)
unfolding sys_write
sys_write-Writes pt cr3 k fd ptr len walks hp hl = elim (Bool-cases (is_valid pt cr3 k ptr len)) [
  | inr invalid ↦ rw invalid (inl (refl, inr (inl refl)))
  | inl valid ↦ rw valid (
      write_current-Writes pt cr3 k ptr len (is_valid-Translated pt cr3 walks k ptr len hp hl valid)
        fd k.tasks.current_task)
]
