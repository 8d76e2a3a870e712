-- ===== src/Syscalls/Dispatch/KeepsExec.antt =====
-- `execve` of src/core/syscall.rs ends and keeps the invariant of the task manager.
use nwin_os.Common.{
  ℕ, ◌/◌, ◌≡◌, refl, Bool, ◌&&◌, not, Option, none, some, List, ltb, Bool-cases, inl, inr, arith,
  length,
}
use nwin_os.Common.Dict.{Str}
use nwin_os.Common.Outcome.{Outcome, returned, panicked, Result, ok, err}
use nwin_os.AddressSpace.{create_isolated_pml4}
use nwin_os.Elf.Copies.{Ends, load_elf-Ends}
use nwin_os.Error.{KernelError, ElfError}
use nwin_os.Frames.{BitmapFrameAllocator}
use nwin_os.Paging.{PageTables, Physical, Bytes}
use nwin_os.Task.{TaskId, Memory, Surroundings}
use nwin_os.Tasks.{TaskManager}
use nwin_os.Tasks.Spec.{IsValid, state_of}
use nwin_os.Tasks.Spawn.{spawn_dynamic-IsValid}
use nwin_os.Vfs.Tar.{TarContext, find_file}
use nwin_os.Vfs.Tar.Scan.{scan}
use nwin_os.Syscalls.{Kernel, is_valid}
use nwin_os.Syscalls.Files.{Answer}
use nwin_os.Syscalls.Exec.{
  lay_out, finish_spawn, start, with_stack, with_image, with_space, with_file, with_args, with_name,
  sys_execve,
}
use nwin_os.Syscalls.Dispatch.Keeps.{LeavesValid}

find_file-Ends :
    (initramfs : Option TarContext) (filename : Str) → Ends (find_file initramfs filename)
unfolding find_file
find_file-Ends none filename = (none, refl)
find_file-Ends (some tar) filename =
    let scanned = scan tar (tar.size / 512) 0 (omega arith) in (_, scanned.found filename)

-- The call ends, and leaves valid tasks.
abbrev pub EndsValid : Option (Outcome Answer) → Type 0
EndsValid none = ⊥
EndsValid (some r) = LeavesValid r

module _ (pt : PageTables) (cr3 : ℕ) (initramfs : Option TarContext) (beyond : Bytes) (k : Kernel)
    (v : IsValid k.tasks) (fresh : state_of k.tasks k.surroundings.next_id ≡ none) where
  finish_spawn-LeavesValid :
      (k' : Kernel) (r : Result TaskId KernelError × TaskManager × Surroundings)
      → IsValid r.1
      → LeavesValid (returned (finish_spawn pt cr3 initramfs beyond k' r))
  finish_spawn-LeavesValid k' (ok id, tm, s) valid = valid
  finish_spawn-LeavesValid k' (err e, tm, s) valid = valid

  start-LeavesValid :
      (target_pml4 : ℕ) (load_result : Result ℕ ElfError) (o : Outcome (ℕ × Physical))
      → LeavesValid (start pt cr3 initramfs beyond k target_pml4 load_result o)
  start-LeavesValid target_pml4 load_result panicked = tt
  start-LeavesValid target_pml4 (err e) (returned (top, p)) = v
  start-LeavesValid target_pml4 (ok entry_point) (returned (top, p)) =
      finish_spawn-LeavesValid (record k { physical = p }) _
        (spawn_dynamic-IsValid k.tasks k.surroundings entry_point target_pml4 top v fresh)

  with_stack-LeavesValid :
      (args_buf : List ℕ) (target_pml4 : ℕ) (load_result : Result ℕ ElfError)
      (r : Result Bool KernelError × Physical)
      → LeavesValid (with_stack pt cr3 initramfs beyond k args_buf target_pml4 load_result r)
  with_stack-LeavesValid args_buf target_pml4 load_result (err e, p) = v
  with_stack-LeavesValid args_buf target_pml4 load_result (ok mapped, p) =
      start-LeavesValid target_pml4 load_result (lay_out pt target_pml4 p args_buf)

  with_image-EndsValid :
      (args_buf : List ℕ) (target_pml4 : ℕ) (o : Option (Outcome (Result ℕ ElfError × Physical)))
      → Ends o
      → EndsValid (with_image pt cr3 initramfs beyond k args_buf target_pml4 o)
  with_image-EndsValid args_buf target_pml4 none (a, e) = absurd (ground (arith, e))
  with_image-EndsValid args_buf target_pml4 (some panicked) h = tt
  with_image-EndsValid args_buf target_pml4 (some (returned (load_result, p))) h =
      with_stack-LeavesValid args_buf target_pml4 load_result _

  with_space-EndsValid :
      (elf_slice args_buf : List ℕ) (r : Option ℕ × BitmapFrameAllocator × Memory)
      → EndsValid (with_space pt cr3 initramfs beyond k elf_slice args_buf r)
  with_space-EndsValid elf_slice args_buf (none, frames, tables) = v
  with_space-EndsValid elf_slice args_buf (some target_pml4, frames, tables) =
      with_image-EndsValid args_buf target_pml4 _
        (load_elf-Ends pt _ (length elf_slice) _ target_pml4)

  with_file-EndsValid :
      (args_buf : List ℕ) (o : Option (Option (List ℕ)))
      → Ends o
      → EndsValid (with_file pt cr3 initramfs beyond k args_buf o)
  with_file-EndsValid args_buf none (a, e) = absurd (ground (arith, e))
  with_file-EndsValid args_buf (some none) h = v
  with_file-EndsValid args_buf (some (some elf_slice)) h =
      with_space-EndsValid elf_slice args_buf
        (create_isolated_pml4 k.physical.frames k.physical.tables cr3)

  with_args-EndsValid :
      (filename : Str) (o : Outcome (List ℕ))
      → EndsValid (with_args pt cr3 initramfs beyond k filename o)
  with_args-EndsValid filename panicked = tt
  with_args-EndsValid filename (returned args_buf) =
      with_file-EndsValid args_buf (find_file initramfs filename)
        (find_file-Ends initramfs filename)

  with_name-EndsValid :
      (args_ptr args_len : ℕ) (o : Outcome (List ℕ))
      → EndsValid (with_name pt cr3 initramfs beyond k args_ptr args_len o)
  with_name-EndsValid args_ptr args_len panicked = tt
  with_name-EndsValid args_ptr args_len (returned bytes) = with_args-EndsValid _ _

  pub sys_execve-EndsValid :
      (filename_ptr args_ptr args_len : ℕ)
      → EndsValid (sys_execve pt cr3 initramfs beyond k filename_ptr args_ptr args_len)
  unfolding sys_execve
  sys_execve-EndsValid filename_ptr args_ptr args_len =
      elim (Bool-cases (is_valid pt cr3 k filename_ptr 64)) [
        | inr bad_name ↦ rw bad_name v
        | inl named ↦
            elim (Bool-cases (ltb 0 args_len && not (is_valid pt cr3 k args_ptr args_len))) [
              | inl bad_args ↦ rw (named, bad_args) v
              | inr good_args ↦ rw (named, good_args) (with_name-EndsValid args_ptr args_len _)
            ]
      ]
