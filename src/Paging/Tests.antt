-- ===== src/Paging/Tests.antt =====
-- A mapper that maps every page to frame 1, which two tasks share: instances of the theorems.
use nwin_os.Common.{◌+◌, ◌%◌, true, false, some}
use nwin_os.Frames.Tests.{shared, shared-IsValid}
use nwin_os.Task.{store}
use nwin_os.Paging.{PageTables, Physical, resolve_cow_fault, allocate_and_map_user_page}
use nwin_os.Paging.Laws.{Maps, allocate_and_map_user_page-Maps}
use nwin_os.Paging.Cow.{Spares, resolve_cow_fault-Spares}
use nwin_os.Paging.Resolves.{Resolves, resolve_cow_fault-Resolves}

abbrev pub mapper : PageTables
mapper = record {
  translate_page = λ m pml4 page. false;
  translate_addr = λ m pml4 addr. some (4096 + addr % 4096);
  translate_flags = λ m pml4 addr. some 5;
  map_to = λ m a pml4 page frame flags. (true, store m page (frame + flags), a);
  update_flags = λ m pml4 page flags. some m;
  unmap = λ m pml4 page. some (store m page 0);
  copied_over = λ b from to. b;
}

abbrev pub before : Physical
before = record { frames = shared; tables = λ q. 0; bytes = λ q. q % 256 }

allocate_and_map_user_page-Maps_example :
    Maps mapper before 0 8192 (allocate_and_map_user_page mapper before 0 9000)
allocate_and_map_user_page-Maps_example =
    allocate_and_map_user_page-Maps mapper before 0 9000 shared-IsValid

resolve_cow_fault-Spares_example : Spares before (resolve_cow_fault mapper before 0 9000)
resolve_cow_fault-Spares_example = resolve_cow_fault-Spares mapper before 0 9000 shared-IsValid

-- The fault is at the start of its page, in frame 1; the new frame is frame 2.
resolve_cow_fault-Resolves_example :
    Resolves mapper before 0 8192 (resolve_cow_fault mapper before 0 8192)
resolve_cow_fault-Resolves_example = resolve_cow_fault-Resolves mapper before 0 8192 shared-IsValid
