-- ===== src/Task/Switch.antt =====
-- What a context switch lands on: the first frame of a new task, and the state of a task that was
-- switched away from.
use Prim.Native.Nat.{bit_or}
use nwin_os.Common.{
  ℕ, ◌+◌, ◌-◌, ◌*◌, ◌%◌, ◌≤◌, ◌<◌, ◌≡◌, ◌≢◌, true, ◌⊎◌, inl, inr, Option, some, arith, ==_ne,
}
use nwin_os.Common.Outcome.{ok}
use nwin_os.Task.{
  Task, TaskId, PrivilegeLevel, user_mode, Memory, store, stack_size, Surroundings, first_frame,
  new, is_valid_rsp, Cpu, save_context, load_context, context_switch, initial_flags,
}

abbrev top_of : ℕ → ℕ
top_of stack_start = stack_start + stack_size - (stack_start + stack_size) % 16

-- The task's saved stack pointer lies in its own stack, a whole number of words below the top.
pub new-is_valid_rsp :
    (s s' : Surroundings) (entry_point pml4_frame : ℕ) (privilege : PrivilegeLevel)
    (user_stack_top : ℕ) (parent_id : Option TaskId) (t : Task)
    → new s entry_point pml4_frame privilege user_stack_top parent_id ≡ (ok t, s')
    → is_valid_rsp t t.rsp ≡ true
unfolding new is_valid_rsp
new-is_valid_rsp s s' entry_point pml4_frame privilege user_stack_top parent_id t h = ground arith

-- The memory agrees on the `n` words from `p` on.
abbrev pub SameWords : Memory → Memory → ℕ → ℕ → Type 0
SameWords m m' p n = (k : ℕ) → k < n → m (p + 8 * k) ≡ m' (p + 8 * k)

module _ (s : Surroundings) (entry_point user_stack_top top : ℕ) (room : 104 ≤ top) where
  abbrev pub user_frame : ℕ × Memory
  user_frame = first_frame s user_mode entry_point user_stack_top top

  pub user_rsp : user_frame.0 ≡ top - 104
  unfolding first_frame
  user_rsp = omega arith

  pub user_words_low :
      (user_frame.1 (top - 104) ≡ initial_flags)
      × (user_frame.1 (top - 96) ≡ 0)
      × (user_frame.1 (top - 88) ≡ 0)
      × (user_frame.1 (top - 80) ≡ 0)
      × (user_frame.1 (top - 72) ≡ 0)
      × (user_frame.1 (top - 64) ≡ 0)
      × (user_frame.1 (top - 56) ≡ 0)
  unfolding first_frame
  user_words_low = (
    ground arith,
    ground arith,
    ground arith,
    ground arith,
    ground arith,
    ground arith,
    ground arith,
  )

  pub user_words_high :
      (user_frame.1 (top - 48) ≡ s.trampoline)
      × (user_frame.1 (top - 40) ≡ entry_point)
      × (user_frame.1 (top - 32) ≡ bit_or s.user_code_selector 3)
      × (user_frame.1 (top - 24) ≡ initial_flags)
      × (user_frame.1 (top - 16) ≡ user_stack_top)
      × (user_frame.1 (top - 8) ≡ bit_or s.user_data_selector 3)
  unfolding first_frame
  user_words_high =
      (ground arith, ground arith, ground arith, ground arith, ground arith, ground arith)

-- An address away from the saved registers and the stored pointer keeps its word.
untouched :
    (c : Cpu) (m : Memory) (old_rsp q : ℕ)
    → 64 ≤ c.rsp
    → (q + 56 < c.rsp) ⊎ (c.rsp ≤ q)
    → q ≢ old_rsp
    → store (save_context c m).1 old_rsp (save_context c m).0 q ≡ m q
unfolding save_context
untouched c m old_rsp q h (inl below) ne = ground arith
untouched c m old_rsp q h (inr above) ne = ground arith

pub saved_words :
    (c : Cpu) (m : Memory)
    → 64 ≤ c.rsp
    → let (p, m') = save_context c m in
      (p ≡ c.rsp - 56)
      × (m' p ≡ bit_or c.rflags 0x200)
      × (m' (p + 8) ≡ c.rbp)
      × (m' (p + 16) ≡ c.rbx)
      × (m' (p + 24) ≡ c.r12)
      × (m' (p + 32) ≡ c.r13)
      × (m' (p + 40) ≡ c.r14)
      × (m' (p + 48) ≡ c.r15)
      × (m' (p + 56) ≡ m c.rsp)
unfolding save_context
saved_words c m h = (
  omega arith,
  ground arith,
  ground arith,
  ground arith,
  ground arith,
  ground arith,
  ground arith,
  ground arith,
  ground arith,
)

-- The word at `q` lies apart from the `n` bytes from `p` on.
abbrev pub IsApart : ℕ → ℕ → ℕ → Type 0
IsApart p n q = (q + 8 ≤ p) ⊎ (p + n ≤ q)

-- The 56 bytes that a CPU saves below its stack pointer lie apart from the `n` bytes from `p` on.
abbrev pub SavesApart : Cpu → ℕ → ℕ → Type 0
SavesApart c p n = (64 ≤ c.rsp) × ((c.rsp ≤ p) ⊎ (p + n + 56 ≤ c.rsp))

-- What the new task finds at `p + 8 * k` is what the memory held before the switch.
pub found_word :
    (c : Cpu) (m : Memory) (old_rsp p n q : ℕ)
    → SavesApart c p n
    → IsApart p n old_rsp
    → p ≤ q
    → q + 8 ≤ p + n
    → store (save_context c m).1 old_rsp (save_context c m).0 q ≡ m q
found_word c m old_rsp p n q (h, inl low) o lo hi =
    untouched c m old_rsp q h (inr (omega arith)) (omega arith)
found_word c m old_rsp p n q (h, inr high) o lo hi =
    untouched c m old_rsp q h (inl (omega arith)) (omega arith)

pub switches :
    (c : Cpu) (m : Memory) (old_rsp p : ℕ)
    → old_rsp ≢ 0
    → p ≢ 0
    → let m' = store (save_context c m).1 old_rsp (save_context c m).0 in
      context_switch old_rsp p c m ≡ some (load_context c m' p, m')
unfolding context_switch
switches c m old_rsp p h h' = rw (==_ne old_rsp 0 h, ==_ne p 0 h')
