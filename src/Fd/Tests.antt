-- ===== src/Fd/Tests.antt =====
-- A test of the descriptor table.
use nwin_os.Common.{◌≡◌, refl, List, [], ◌∷◌}
use nwin_os.Fd.{regular_file, FdTable, new, insert, close, FdCall, opens, closes, run}

abbrev calls : List FdCall
calls = opens (regular_file 7 0) ∷ closes 3 ∷ closes 1 ∷ opens (regular_file 8 0) ∷ []

abbrev after_close : FdTable
after_close = record new { next_fd = 4 }

run-new : (run new calls).next_fd ≡ 5
unfolding run new insert close
run-new = refl
