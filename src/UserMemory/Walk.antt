-- ===== src/UserMemory/Walk.antt =====
-- The unrolled walk against the walk by levels that the processor does.
use nwin_os.Common.{
  ℕ, zero, suc, ◌≡◌, Bool, false, not, ◌&&◌, ◌||◌, Option, none, some, ltb, ◌==◌, if◌then◌else◌,
  arith,
}
use nwin_os.Task.{Memory}
use nwin_os.UserMemory.{present, user, huge, frame_of, read_entry, level_index, is_user_page_mapped}

-- The entry that ends the walk from a table of a level: an entry of level 1, or a huge page of level
-- 2 or 3.
unfoldable pub leaf : Memory → ℕ → ℕ → ℕ → Option ℕ
leaf m addr zero table = none
leaf m addr (suc below) table =
    let entry = read_entry m table (level_index (suc below) addr) in
    let next = leaf m addr below (frame_of entry) in
    if not (present entry)
    then none
    else if below == 0 || (huge entry && ltb below 3)
    then some entry
    else next

abbrev pub is_user_leaf : Option ℕ → Bool
is_user_leaf none = false
is_user_leaf (some entry) = user entry

-- A page counts as mapped for the user exactly when the processor's walk of the four levels ends at a
-- present entry with the user bit, be it of a small page or of a huge one of level 2 or 3. The user
-- bits above that entry are not looked at.
pub is_user_page_mapped-leaf :
    (m : Memory) (p4_phys addr : ℕ)
    → is_user_page_mapped m p4_phys addr ≡ is_user_leaf (leaf m addr 4 p4_phys)
unfolding is_user_page_mapped leaf
is_user_page_mapped-leaf m p4_phys addr = ground arith
