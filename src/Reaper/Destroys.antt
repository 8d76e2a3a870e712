-- ===== src/Reaper/Destroys.antt =====
-- What `destroy_user_address_space` of src/mm/memory.rs takes away, and that it is all of the user half.
use nwin_os.Common.{ℕ, ◌<◌, ◌≡◌, true}
use nwin_os.Common.Outcome.{Outcome, returned, panicked}
use nwin_os.UserMemory.{read_entry}
use nwin_os.Reaper.{Space, is_owned, clear_table, below_level4}
use nwin_os.Reaper.Releases.{IsUserEntry, owners, GivesBack, Refuses}

-- What the destruction of an address space gives back, and what it leaves.
abbrev pub Destroys : (pml4_frame : ℕ) → Space → Outcome Space → Type 0
Destroys pml4_frame s panicked = Refuses (IsUserEntry s.memory pml4_frame) s
Destroys pml4_frame s (returned s') =
    GivesBack (IsUserEntry s.memory pml4_frame) s s'
    × (owners s' pml4_frame < owners s pml4_frame)
    × ((index : ℕ)
        → index < 256
        → is_owned (read_entry s.memory pml4_frame index) ≡ true
        → read_entry s'.memory pml4_frame index ≡ 0)

module _ (pml4_frame : ℕ) (s : Space) where
  abbrev cleared : Outcome Space
  cleared = clear_table below_level4 pml4_frame 256 0 s
