-- ===== src/Reaper/Tests.antt =====
-- An address space of two tables: an instance of the theorem.
use nwin_os.Common.{◌==◌, if◌then◌else◌}
use nwin_os.Frames.Tests.{shared}
use nwin_os.Reaper.{Space}
use nwin_os.Reaper.Destroys.{Destroys}

-- The top table is in frame 1, which has two owners, and its first entry names frame 0, which has one.
abbrev before : Space
before = record { memory = λ q. if q == 0x1000 then 7 else 0; frames = shared }
