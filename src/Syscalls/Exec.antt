-- ===== src/Syscalls/Exec.antt =====
-- The system call `execve` of src/core/syscall.rs, which starts a program in an address space of its
-- own; the caller goes on.
--
-- The bytes behind the end of an executable are an argument, since the loader may read them.
pub mod Words
pub mod Stack
use nwin_os.Common.{
  ℕ, zero, suc, ◌+◌, ◌-◌, ◌*◌, ◌/◌, ◌%◌, Bool, true, false, not, ◌&&◌, Option, none, some, List, [],
  ◌∷◌, ◌++◌, ltb, ◌==◌, if◌then◌else◌, length, get_or,
}
use nwin_os.Common.Dict.{Str}
use nwin_os.Common.Int.{as_u64}
use nwin_os.Common.Utf8.{from_utf8}
use nwin_os.Common.Outcome.{Outcome, returned, panicked, Result, ok, err}
use nwin_os.AddressSpace.{create_isolated_pml4}
use nwin_os.Elf.{load_elf}
use nwin_os.Error.{KernelError, ElfError, from_elf, to_errno}
use nwin_os.Frames.{BitmapFrameAllocator}
use nwin_os.Paging.{PageTables, Physical, Bytes, allocate_and_map_user_page}
use nwin_os.Task.{TaskId, Memory, Surroundings}
use nwin_os.Tasks.{TaskManager, spawn_dynamic}
use nwin_os.Vfs.Tar.{TarContext, find_file}
use nwin_os.Syscalls.{Kernel, efault, enoent, enomem, is_valid, load, load_string, store_bytes}
use nwin_os.Syscalls.Files.{Answer, answer, or_empty}

-- `syscall_return_err`
abbrev pub syscall_return_err : KernelError → ℕ
syscall_return_err kernel_err = as_u64 (to_errno kernel_err)

abbrev pub user_stack_base : ℕ
user_stack_base = 0x7FFF_F000_0000

-- The addresses of the arguments in a buffer that lies at `current_ptr`.
unfoldable pub argv_pointers : List ℕ → ℕ → Bool → List ℕ
argv_pointers [] current_ptr is_new_arg = []
argv_pointers (b ∷ args) current_ptr is_new_arg =
    let after_nul = argv_pointers args (current_ptr + 1) true in
    let inside = argv_pointers args (current_ptr + 1) false in
    if b == 0 then after_nul else if is_new_arg then current_ptr ∷ inside else inside

-- The bytes of a word, the lowest first.
unfoldable pub bytes_le : ℕ → ℕ → List ℕ
bytes_le zero value = []
bytes_le (suc n) value = value % 256 ∷ bytes_le n (value / 256)

module _ (pt : PageTables) (target_pml4 : ℕ) where
  -- A stack pointer and the memory, or a fault.
  abbrev pub stored : ℕ → Outcome Physical → Outcome (ℕ × Physical)
  stored user_stack_top panicked = panicked
  stored user_stack_top (returned p) = returned (user_stack_top, p)

  -- `user_stack_top -= 8; *(user_stack_top as *mut u64) = value`
  abbrev pub push : ℕ → Outcome (ℕ × Physical) → Outcome (ℕ × Physical)
  push value panicked = panicked
  push value (returned (user_stack_top, p)) =
      stored (user_stack_top - 8)
        (store_bytes pt target_pml4 p (user_stack_top - 8) (bytes_le 8 value))

  -- The pointers from the last to the first.
  unfoldable pub push_pointers : List ℕ → Outcome (ℕ × Physical) → Outcome (ℕ × Physical)
  push_pointers [] s = s
  push_pointers (ptr ∷ ptrs) s = push ptr (push_pointers ptrs s)

  abbrev pub align : Outcome (ℕ × Physical) → Outcome (ℕ × Physical)
  align panicked = panicked
  align (returned (user_stack_top, p)) = returned (user_stack_top / 16 * 16, p)

  -- The strings, two zero words, the pointers and their number, below the top of the stack page.
  unfoldable pub lay_out : Physical → List ℕ → Outcome (ℕ × Physical)
  lay_out p args_buf =
      let strings_base = user_stack_base + 0x1000 - length args_buf in
      let ptrs = argv_pointers args_buf strings_base true in
      push (length ptrs) (
        push_pointers ptrs (
          push 0 (
            push 0
              (align (stored strings_base (store_bytes pt target_pml4 p strings_base args_buf))))))

-- The executable as the pointer of its slice gives it.
abbrev pub seen_from : List ℕ → Bytes → Bytes
seen_from elf_slice beyond q = if ltb q (length elf_slice) then get_or elf_slice q 0 else beyond q

abbrev pub as_bytes : List ℕ → Option Str → List ℕ
as_bytes bytes none = []
as_bytes bytes (some s) = bytes

module _ (pt : PageTables) (cr3 : ℕ) (initramfs : Option TarContext) (beyond : Bytes) where
  abbrev pub finish_spawn : Kernel → Result TaskId KernelError × TaskManager × Surroundings → Answer
  finish_spawn k (ok id, tm, s) = answer id (record k { tasks = tm; surroundings = s })
  finish_spawn k (err kernel_err, tm, s) =
      answer (syscall_return_err kernel_err) (record k { tasks = tm; surroundings = s })

  abbrev pub start :
      Kernel → (target_pml4 : ℕ) → Result ℕ ElfError → Outcome (ℕ × Physical) → Outcome Answer
  start k target_pml4 load_result panicked = panicked
  start k target_pml4 (err e) (returned (user_stack_top, p)) =
      returned (answer (syscall_return_err (from_elf e)) (record k { physical = p }))
  start k target_pml4 (ok entry_point) (returned (user_stack_top, p)) = returned (
      finish_spawn (record k { physical = p })
        (spawn_dynamic k.tasks k.surroundings entry_point target_pml4 user_stack_top))

  abbrev pub with_stack :
      Kernel
      → (args_buf : List ℕ) (target_pml4 : ℕ) → Result ℕ ElfError
      → Result Bool KernelError × Physical
      → Outcome Answer
  with_stack k args_buf target_pml4 load_result (err kernel_err, p) =
      returned (answer (syscall_return_err kernel_err) (record k { physical = p }))
  with_stack k args_buf target_pml4 load_result (ok mapped, p) =
      start k target_pml4 load_result (lay_out pt target_pml4 p args_buf)

  -- A stack page is mapped whether or not the executable could be loaded.
  abbrev pub with_image :
      Kernel
      → (args_buf : List ℕ) (target_pml4 : ℕ) → Option (Outcome (Result ℕ ElfError × Physical))
      → Option (Outcome Answer)
  with_image k args_buf target_pml4 none = none
  with_image k args_buf target_pml4 (some panicked) = some panicked
  with_image k args_buf target_pml4 (some (returned (load_result, p))) = some (
      with_stack k args_buf target_pml4 load_result
        (allocate_and_map_user_page pt p target_pml4 user_stack_base))

  abbrev pub with_space :
      Kernel
      → (elf_slice args_buf : List ℕ) → Option ℕ × BitmapFrameAllocator × Memory
      → Option (Outcome Answer)
  with_space k elf_slice args_buf (none, frames, tables) = some (
      returned (
        answer enomem (record k {
          physical = record { frames = frames; tables = tables; bytes = k.physical.bytes };
        })))
  with_space k elf_slice args_buf (some target_pml4, frames, tables) =
      let p : Physical = record { frames = frames; tables = tables; bytes = k.physical.bytes } in
      with_image k args_buf target_pml4
        (load_elf pt (seen_from elf_slice beyond) (length elf_slice) p target_pml4)

  abbrev pub with_file :
      Kernel → (args_buf : List ℕ) → Option (Option (List ℕ)) → Option (Outcome Answer)
  with_file k args_buf none = none
  with_file k args_buf (some none) = some (returned (answer enoent k))
  with_file k args_buf (some (some elf_slice)) =
      with_space k elf_slice args_buf (create_isolated_pml4 k.physical.frames k.physical.tables cr3)

  abbrev pub with_args : Kernel → Str → Outcome (List ℕ) → Option (Outcome Answer)
  with_args k filename panicked = some panicked
  with_args k filename (returned args_buf) = with_file k args_buf (find_file initramfs filename)

  -- The arguments, or the name alone if there are none or too many.
  abbrev pub with_name :
      Kernel → (args_ptr args_len : ℕ) → Outcome (List ℕ) → Option (Outcome Answer)
  with_name k args_ptr args_len panicked = some panicked
  with_name k args_ptr args_len (returned bytes) = with_args k (or_empty (from_utf8 bytes)) (
      if ltb 0 args_len && ltb args_len 4096
      then load pt cr3 k.physical args_ptr args_len
      else returned (as_bytes bytes (from_utf8 bytes) ++ (0 ∷ [])))

  -- `none` means that the fuel of a loop ran out.
  unfoldable pub sys_execve :
      Kernel → (filename_ptr args_ptr args_len : ℕ) → Option (Outcome Answer)
  sys_execve k filename_ptr args_ptr args_len =
      if not (is_valid pt cr3 k filename_ptr 64)
      then some (returned (answer efault k))
      else if ltb 0 args_len && not (is_valid pt cr3 k args_ptr args_len)
      then some (returned (answer efault k))
      else with_name k args_ptr args_len (load_string pt cr3 k.physical filename_ptr 64)
