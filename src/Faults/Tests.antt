-- ===== src/Faults/Tests.antt =====
-- The shell writes to a present page whose frame two tasks share: an instance of the theorem.
use nwin_os.Common.{refl}
use nwin_os.Tasks.Tests.{busy, busy-IsValid}
use nwin_os.Frames.Tests.{shared-IsValid}
use nwin_os.Paging.Tests.{mapper, before}
use nwin_os.Faults.{page, handle}
use nwin_os.Faults.Contained.{Contains, handle-Contains}

handle-Contains_example :
    Contains mapper before 0x5000
      (page 9000 7)
      busy
      1
      (handle mapper (page 9000 7) busy 0x5000 before)
handle-Contains_example =
    handle-Contains busy 0x5000 1 busy-IsValid refl mapper before (page 9000 7) shared-IsValid refl
