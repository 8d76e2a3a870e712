-- ===== src/UserMemory/Tests.antt =====
-- A page table in which everything is mapped for the user, and one in which nothing is: tests, and
-- instances of the theorems.
use nwin_os.Common.{◌≡◌, refl, true, false, some, arith}
use nwin_os.Task.{Memory}
use nwin_os.UserMemory.{
  is_user_page_mapped, is_valid_user_memory, is_valid_range, check_range, check_pages,
}
use nwin_os.UserMemory.Pages.{Decides, is_valid_user_memory-Decides}

-- Every entry is present and the user's.
abbrev open_memory : Memory
open_memory = λ q. 7

abbrev closed_memory : Memory
closed_memory = λ q. 0

is_valid_user_memory-Decides_example :
    Decides
      (is_user_page_mapped open_memory 0x1000)
      0x40_0FF0
      64
      (is_valid_user_memory open_memory 0x1000 0x40_0FF0 64)
is_valid_user_memory-Decides_example =
    is_valid_user_memory-Decides open_memory 0x1000 0x40_0FF0 64 (omega arith) (omega arith)

-- A range over a page boundary is accepted, and refused if nothing is mapped.
accepts : is_valid_user_memory open_memory 0x1000 0x40_0FF0 64 ≡ some true
unfolding is_valid_user_memory is_valid_range check_range check_pages is_user_page_mapped
accepts = refl

refuses : is_valid_user_memory closed_memory 0x1000 0x40_0FF0 64 ≡ some false
unfolding is_valid_user_memory is_valid_range check_range check_pages is_user_page_mapped
refuses = refl
