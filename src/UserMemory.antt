-- ===== src/UserMemory.antt =====
-- How the kernel checks a user's pointer before it uses it: `is_user_page_mapped` of
-- src/mm/memory.rs, which walks the page tables, and `is_valid_user_memory` of src/core/syscall.rs,
-- which asks for every page of the range.
--
-- Memory is the function from physical addresses to 64-bit words that the higher-half window shows;
-- `p4_phys` is the page table that CR3 holds.
pub mod Pages
pub mod Walk
mod Tests
use Prim.Native.Nat.{bit_and}
use nwin_os.Common.{
  ℕ, zero, suc, ◌+◌, ◌-◌, ◌*◌, ◌/◌, ◌%◌, ◌^◌, min, Bool, true, false, not, Option, none, some, ltb,
  leb, ◌==◌, if◌then◌else◌,
}
use nwin_os.Task.{Memory}

abbrev pub present : ℕ → Bool
present entry = not (bit_and entry 1 == 0)

abbrev pub user : ℕ → Bool
user entry = not (bit_and entry 4 == 0)

abbrev pub huge : ℕ → Bool
huge entry = not (bit_and entry 128 == 0)

abbrev pub phys_mask : ℕ
phys_mask = 0x000F_FFFF_FFFF_F000

abbrev pub frame_of : ℕ → ℕ
frame_of entry = bit_and entry phys_mask

abbrev pub read_entry : Memory → ℕ → ℕ → ℕ
read_entry m phys_addr index = m (phys_addr + index * 8)

-- The nine bits of an address that index the table of a level.
abbrev pub level_index : ℕ → ℕ → ℕ
level_index level addr = addr / 2 ^ (12 + 9 * (level - 1)) % 512

abbrev pub check_level1 : Memory → ℕ → ℕ → Bool
check_level1 m p2_entry addr =
    let p1_entry = read_entry m (frame_of p2_entry) (level_index 1 addr) in
    if not (present p1_entry) then false else user p1_entry

abbrev pub check_level2 : Memory → ℕ → ℕ → Bool
check_level2 m p3_entry addr =
    let p2_entry = read_entry m (frame_of p3_entry) (level_index 2 addr) in
    if not (present p2_entry)
    then false
    else if huge p2_entry
    then user p2_entry
    else check_level1 m p2_entry addr

abbrev pub check_level3 : Memory → ℕ → ℕ → Bool
check_level3 m p4_entry addr =
    let p3_entry = read_entry m (frame_of p4_entry) (level_index 3 addr) in
    if not (present p3_entry)
    then false
    else if huge p3_entry
    then user p3_entry
    else check_level2 m p3_entry addr

unfoldable pub is_user_page_mapped : Memory → ℕ → ℕ → Bool
is_user_page_mapped m p4_phys addr =
    let p4_entry = read_entry m p4_phys (level_index 4 addr) in
    if not (present p4_entry) then false else check_level3 m p4_entry addr

-- The loop over the pages; `none` if the fuel is used up.
unfoldable pub check_pages : (ℕ → Bool) → ℕ → ℕ → ℕ → Option Bool
check_pages mapped zero current_page end_page = none
check_pages mapped (suc fuel) current_page end_page =
    let rest = check_pages mapped fuel (current_page + 4096) end_page in
    if leb current_page end_page
    then (if not (mapped current_page) then some false else rest)
    else some true

abbrev pub user_top : ℕ
user_top = 0x7FFF_FFFF_FFFF

abbrev pub page_start : ℕ → ℕ
page_start addr = addr / 4096 * 4096

unfoldable pub check_range : (ℕ → Bool) → ℕ → ℕ → Option Bool
check_range mapped ptr end =
    check_pages mapped ((end - 1) / 4096 - ptr / 4096 + 2) (page_start ptr) (page_start (end - 1))

-- The pages are checked by `mapped`.
unfoldable pub is_valid_range : (ℕ → Bool) → ℕ → ℕ → Option Bool
is_valid_range mapped ptr len =
    if ptr == 0
    then some false
    else if ltb (2 ^ 63 - 1) len
    then some false
    else if len == 0
    then some true
    else (let end = min (ptr + len) (2 ^ 64 - 1) in
        if ltb user_top end then some false else check_range mapped ptr end)

unfoldable pub is_valid_user_memory : Memory → ℕ → ℕ → ℕ → Option Bool
unfolding is_valid_range
is_valid_user_memory m p4_phys ptr len = is_valid_range (is_user_page_mapped m p4_phys) ptr len
