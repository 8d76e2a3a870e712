-- ===== src/AddressSpace/Tests.antt =====
-- An address space made from a table in frame 0 with one kernel entry and one of the user's.
use nwin_os.Common.{◌*◌, ◌==◌, if◌then◌else◌}
use nwin_os.Frames.{frame_size}
use nwin_os.Frames.Tests.{fresh, fresh-IsValid, fresh_first}
use nwin_os.Task.{Memory}
use nwin_os.AddressSpace.{create_isolated_pml4}
use nwin_os.AddressSpace.Isolation.{Isolates, create_isolated_pml4-Isolates}

-- Entry 1 is the user's, entry 2 and entry 511 the kernel's.
abbrev table : Memory
table q = if q == 8 then 0x5007 else if q == 16 then 0x6003 else if q == 4088 then 0x7003 else 0

create_isolated_pml4-Isolates_example :
    Isolates fresh table (0 * frame_size) (create_isolated_pml4 fresh table (0 * frame_size))
create_isolated_pml4-Isolates_example =
    create_isolated_pml4-Isolates fresh table 0 fresh-IsValid fresh_first
