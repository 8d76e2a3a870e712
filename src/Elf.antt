-- ===== src/Elf.antt =====
-- src/task/elf.rs: the loader of executables.
--
-- The executable is the function from offsets to bytes that its pointer gives, which goes on past the
-- end of the slice, and the length of the slice. Sums and products that overflow are panics, since
-- the development profile checks them, and so is an address that is not canonical. `none` means that
-- the fuel of the copy loop ran out.
pub mod Copies
use nwin_os.Common.{
  ℕ, zero, suc, ◌+◌, ◌-◌, ◌*◌, ◌/◌, ◌%◌, ◌^◌, min, Bool, true, false, not, ◌&&◌, ◌||◌, Option, none,
  some, leb, ltb, ◌==◌, if◌then◌else◌,
}
use nwin_os.Common.Outcome.{Outcome, returned, panicked, Result, ok, err}
use nwin_os.Error.{
  KernelError, ElfError, too_small, invalid_magic_number, not_64_bit, memory_mapping_failed,
}
use nwin_os.Paging.{PageTables, Physical, Bytes, allocate_and_map_user_page, translate_in_pml4}
use nwin_os.UserMemory.{page_start}

-- `n` bytes from `at` on, the lowest first.
unfoldable pub read_le : Bytes → ℕ → ℕ → ℕ
read_le elf at zero = 0
read_le elf at (suc n) = elf at + 256 * read_le elf (at + 1) n

abbrev pub u16_at : Bytes → ℕ → ℕ
u16_at elf at = read_le elf at 2

abbrev pub u32_at : Bytes → ℕ → ℕ
u32_at elf at = read_le elf at 4

abbrev pub u64_at : Bytes → ℕ → ℕ
u64_at elf at = read_le elf at 8

abbrev pub is_word : ℕ → Bool
is_word n = ltb n (2 ^ 64)

-- `VirtAddr::new` accepts only these.
abbrev pub is_canonical : ℕ → Bool
is_canonical addr = ltb addr (2 ^ 47) || leb (2 ^ 64 - 2 ^ 47) addr

-- Whether all went well, and the memory.
abbrev pub Progress : Type 0
Progress = Outcome (Bool × Physical)

abbrev pub spoil : Progress → Progress
spoil panicked = panicked
spoil (returned (mapping_success, p)) = returned (false, p)

abbrev pub spoil_unless : Bool → Progress → Progress
spoil_unless good r = if good then r else spoil r

abbrev pub spoil_later : Bool → Option Progress → Option Progress
spoil_later good none = none
spoil_later good (some r) = some (spoil_unless good r)

module _ (pt : PageTables) where
  abbrev pub and_then : (Physical → Progress) → Result Bool KernelError × Physical → Progress
  and_then go_on (ok mapped, p) = go_on p
  and_then go_on (err e, p) = spoil (go_on p)

  -- The loop over the pages of a segment, which goes on after an error.
  unfoldable pub map_range : Physical → (pml4 current_page pages : ℕ) → Progress
  map_range p pml4 current_page zero = returned (true, p)
  map_range p pml4 current_page (suc pages) =
      let rest =
        and_then (λ p'. map_range p' pml4 (current_page + 0x1000) pages)
          (allocate_and_map_user_page pt p pml4 current_page) in
      if is_canonical current_page then rest else panicked

  -- `copy_nonoverlapping` from the executable
  abbrev pub copy_in : Bytes → Bytes → (from to count : ℕ) → Bytes
  copy_in elf b from to count q =
      if leb to q && ltb q (to + count) then elf (from + (q - to)) else b q

  -- One turn of the copy: the bytes of one page, if it is mapped.
  abbrev pub copy_chunk :
      Bytes → Physical → (file_offset current_vaddr count : ℕ) → Option ℕ → Bool × Physical
  copy_chunk elf p file_offset current_vaddr count none = (false, p)
  copy_chunk elf p file_offset current_vaddr count (some phys_addr) = (
    true,
    record p { bytes = copy_in elf p.bytes file_offset (phys_addr + current_vaddr % 0x1000) count },
  )

  abbrev pub chunk : ℕ → ℕ → ℕ
  chunk remaining current_vaddr = min remaining (0x1000 - current_vaddr % 0x1000)

  abbrev pub copy_step :
      Bytes → Physical → (pml4 remaining file_offset current_vaddr : ℕ) → Bool × Physical
  copy_step elf p pml4 remaining file_offset current_vaddr =
      copy_chunk elf p file_offset current_vaddr (chunk remaining current_vaddr)
        (translate_in_pml4 pt p pml4 (page_start current_vaddr))

  abbrev pub step_fits : (remaining file_offset current_vaddr : ℕ) → Bool
  step_fits remaining file_offset current_vaddr =
      let count = chunk remaining current_vaddr in
      is_canonical (page_start current_vaddr)
      && is_word (current_vaddr + count)
      && is_word (file_offset + count)

  abbrev pub turn : (done fits : Bool) → Physical → Option Progress → Option Progress
  turn done fits p rest =
      if done then some (returned (true, p)) else if fits then rest else some panicked

  unfoldable pub copy_from :
      ℕ → Bytes → Physical → (pml4 remaining file_offset current_vaddr : ℕ) → Option Progress
  copy_from zero elf p pml4 remaining file_offset current_vaddr = none
  copy_from (suc fuel) elf p pml4 remaining file_offset current_vaddr =
      let count = chunk remaining current_vaddr in
      let (good, p') = copy_step elf p pml4 remaining file_offset current_vaddr in
      turn (remaining == 0) (step_fits remaining file_offset current_vaddr) p (
        spoil_later good (
          copy_from fuel elf p' pml4 (remaining - count) (file_offset + count)
            (current_vaddr + count)))

  -- The first turn ends at a page boundary, and each of the others but the last takes a page.
  abbrev pub turns : ℕ → ℕ
  turns remaining = suc (remaining / 0x1000 + 2)

  abbrev pub copy_mapped : Bytes → (pml4 p_offset p_vaddr p_filesz : ℕ) → Progress → Option Progress
  copy_mapped elf pml4 p_offset p_vaddr p_filesz panicked = some panicked
  copy_mapped elf pml4 p_offset p_vaddr p_filesz (returned (good, p)) =
      let copied = copy_from (turns p_filesz) elf p pml4 p_filesz p_offset p_vaddr in
      if ltb 0 p_filesz && not (p_vaddr == 0)
      then spoil_later good copied
      else some (returned (good, p))

  -- A segment whose program header is at `ph`.
  unfoldable pub load_segment : Bytes → Physical → (pml4 ph : ℕ) → Option Progress
  load_segment elf p pml4 ph =
      let p_vaddr = u64_at elf (ph + 0x10) in
      let p_memsz = u64_at elf (ph + 0x28) in
      let start_page = page_start p_vaddr in
      let pages = (page_start (p_vaddr + p_memsz + 0xFFF) - start_page) / 0x1000 in
      if not (u32_at elf ph == 1) || p_memsz == 0
      then some (returned (true, p))
      else if is_word (p_vaddr + p_memsz + 0xFFF)
      then copy_mapped elf pml4 (u64_at elf (ph + 0x08)) p_vaddr (u64_at elf (ph + 0x20))
          (map_range p pml4 start_page pages)
      else some panicked

  abbrev pub and_load : (Physical → Option Progress) → Option Progress → Option Progress
  and_load go_on none = none
  and_load go_on (some panicked) = some panicked
  and_load go_on (some (returned (good, p))) = spoil_later good (go_on p)

  -- The loop over the program headers, whose index and product are `u16`.
  unfoldable pub load_from :
      Bytes → Physical → (pml4 ph_offset ph_entry_size i entries : ℕ) → Option Progress
  load_from elf p pml4 ph_offset ph_entry_size i zero = some (returned (true, p))
  load_from elf p pml4 ph_offset ph_entry_size i (suc entries) =
      let ph = ph_offset + i * ph_entry_size in
      let rest =
        and_load (λ p'. load_from elf p' pml4 ph_offset ph_entry_size (i + 1) entries)
          (load_segment elf p pml4 ph) in
      if ltb (i * ph_entry_size) (2 ^ 16) && is_word ph then rest else some panicked

  abbrev pub conclude :
      Physical → ℕ → Option Progress → Option (Outcome (Result ℕ ElfError × Physical))
  conclude before entry_point none = none
  conclude before entry_point (some panicked) = some panicked
  conclude before entry_point (some (returned (true, p))) = some (returned (ok entry_point, p))
  conclude before entry_point (some (returned (false, p))) =
      some (returned (err memory_mapping_failed, p))

  abbrev pub has_magic : Bytes → Bool
  has_magic elf = elf 0 == 0x7F && elf 1 == b'E' && elf 2 == b'L' && elf 3 == b'F'

  unfoldable pub load_elf :
      Bytes → (len : ℕ) → Physical → ℕ → Option (Outcome (Result ℕ ElfError × Physical))
  load_elf elf len p target_pml4 =
      let loaded =
        load_from elf p target_pml4 (u64_at elf 0x20) (u16_at elf 0x36) 0 (u16_at elf 0x38) in
      if ltb len 64
      then some (returned (err too_small, p))
      else if not (has_magic elf)
      then some (returned (err invalid_magic_number, p))
      else if not (elf 4 == 2)
      then some (returned (err not_64_bit, p))
      else conclude p (u64_at elf 0x18) loaded
