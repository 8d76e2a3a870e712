-- ===== src/Task/Dispatch.antt =====
-- The two ways in which a task gets the CPU: for the first time, and again.
use Prim.Native.Nat.{bit_or}
use nwin_os.Common.{
  ℕ, ◌+◌, ◌-◌, ◌%◌, ◌≤◌, ◌≡◌, ◌≢◌, refl, sym, ◌∙◌, ap, subst, Option, none, some, arith,
}
use nwin_os.Common.Outcome.{ok}
use nwin_os.Task.{
  Task, TaskId, user_mode, Memory, store, stack_size, Surroundings, first_frame, new, Cpu,
  save_context, load_context, context_switch, user_mode_trampoline, initial_flags,
}
use nwin_os.Task.Switch.{
  IsApart, SavesApart, found_word, switches, saved_words, user_words_low, user_words_high,
}

-- The CPU after the switch to the first frame of a user task, and after the `iretq` it leads to.
pub record Enters (s : Surroundings) (entry_point user_stack_top : ℕ) (c : Cpu) (m : Memory)
    : Type 0 where
  pub at_trampoline : c.rip ≡ s.trampoline
  pub entry : (user_mode_trampoline c m).rip ≡ entry_point
  pub code : (user_mode_trampoline c m).cs ≡ bit_or s.user_code_selector 3
  pub flags : (user_mode_trampoline c m).rflags ≡ initial_flags
  pub stack : (user_mode_trampoline c m).rsp ≡ user_stack_top
  pub stack_segment : (user_mode_trampoline c m).ss ≡ bit_or s.user_data_selector 3
  pub cleared : (c.rbp ≡ 0) × (c.rbx ≡ 0) × (c.r12 ≡ 0) × (c.r13 ≡ 0) × (c.r14 ≡ 0) × (c.r15 ≡ 0)

-- A store elsewhere.
store_apart : (m : Memory) (p v q : ℕ) → p ≢ q → store m p v q ≡ m q
store_apart m p v q h = ground arith

store_same : (m : Memory) (p v : ℕ) → store m p v p ≡ v
store_same m p v = ground arith

module _ (s : Surroundings) (entry_point user_stack_top top : ℕ) (room : 104 ≤ top) where
  abbrev frame : ℕ × Memory
  frame = first_frame s user_mode entry_point user_stack_top top

  module _ (c : Cpu) (m : Memory)
      (same : (q : ℕ) → top - 104 ≤ q → q + 8 ≤ top → m q ≡ frame.1 q) where
    -- The word `d` bytes below the top.
    word : (q d : ℕ) {v : ℕ} → q + d ≡ top → d ≤ 104 → 8 ≤ d → frame.1 (top - d) ≡ v → m q ≡ v
    word q d at le pos w = same q (omega arith) (omega arith) ∙ (ap frame.1 (omega arith) ∙ w)

    -- Loading a memory that still holds the frame enters the task.
    load-Enters : Enters s entry_point user_stack_top (load_context c m (top - 104)) m
    unfolding load_context user_mode_trampoline
    load-Enters =
        let high = user_words_high s entry_point user_stack_top top room in
        let low = user_words_low s entry_point user_stack_top top room in
        record {
          at_trampoline = word (top - 104 + 56) 48 (omega arith) (omega arith) (omega arith) high.0;
          entry = word (top - 104 + 64) 40 (omega arith) (omega arith) (omega arith) high.1;
          code = word (top - 104 + 64 + 8) 32 (omega arith) (omega arith) (omega arith) high.2;
          flags = word (top - 104 + 64 + 16) 24 (omega arith) (omega arith) (omega arith) high.3;
          stack = word (top - 104 + 64 + 24) 16 (omega arith) (omega arith) (omega arith) high.4;
          stack_segment =
              word (top - 104 + 64 + 32) 8 (omega arith) (omega arith) (omega arith) high.5;
          cleared = (
            word (top - 104 + 8) 96 (omega arith) (omega arith) (omega arith) low.1,
            word (top - 104 + 16) 88 (omega arith) (omega arith) (omega arith) low.2,
            word (top - 104 + 24) 80 (omega arith) (omega arith) (omega arith) low.3,
            word (top - 104 + 32) 72 (omega arith) (omega arith) (omega arith) low.4,
            word (top - 104 + 40) 64 (omega arith) (omega arith) (omega arith) low.5,
            word (top - 104 + 48) 56 (omega arith) (omega arith) (omega arith) low.6,
          );
        }

-- What `Task::new` returns for a user task.
new_user :
    (s s' : Surroundings) (entry_point pml4_frame user_stack_top : ℕ) (parent_id : Option TaskId)
    (t : Task)
    → new s entry_point pml4_frame user_mode user_stack_top parent_id ≡ (ok t, s')
    → (top : ℕ) × (104 ≤ top)
      × (t.rsp ≡ top - 104)
      × (s'.memory ≡ (first_frame s user_mode entry_point user_stack_top top).1)
unfolding new
new_user s s' entry_point pml4_frame user_stack_top parent_id t h = go s.reserved refl
  where
    go :
        (r : Option ℕ)
        → s.reserved ≡ r
        → (top : ℕ) × (104 ≤ top)
          × (t.rsp ≡ top - 104)
          × (s'.memory ≡ (first_frame s user_mode entry_point user_stack_top top).1)
    go none e = ground arith
    go (some base) e =
        (base + stack_size - (base + stack_size) % 16, omega arith, ground arith, ground arith)

-- A new user task is entered in Ring 3. The first `context_switch` to its saved stack pointer, from
-- any context that saves its registers elsewhere and while nobody has written to the new task's
-- frame, ends at the trampoline, whose `iretq` continues at the entry point on the user stack, with
-- the user selectors forced to privilege 3, interrupts enabled and the other registers zero.
pub first_dispatch-Enters :
    (s s' : Surroundings) (entry_point pml4_frame user_stack_top : ℕ) (parent_id : Option TaskId)
    (t : Task) (c : Cpu) (m : Memory) (old_rsp : ℕ)
    → new s entry_point pml4_frame user_mode user_stack_top parent_id ≡ (ok t, s')
    → ((q : ℕ) → t.rsp ≤ q → q + 8 ≤ t.rsp + 104 → m q ≡ s'.memory q)
    → SavesApart c t.rsp 104
    → IsApart t.rsp 104 old_rsp
    → old_rsp ≢ 0
    → t.rsp ≢ 0
    → (c' : Cpu) × (m' : Memory) × (context_switch old_rsp t.rsp c m ≡ some (c', m'))
      × Enters s entry_point user_stack_top c' m'
first_dispatch-Enters s s' entry_point pml4_frame user_stack_top parent_id t c m old_rsp h same away
      o nz nz' =
    let (top, room, at, held) = new_user s s' entry_point pml4_frame user_stack_top parent_id t h in
    let m' : Memory = store (save_context c m).1 old_rsp (save_context c m).0 in
    (
      load_context c m' t.rsp,
      m',
      switches c m old_rsp t.rsp nz nz',
      subst (λ p. Enters s entry_point user_stack_top (load_context c m' p) m') (sym at)
          (load-Enters s entry_point user_stack_top top room c m' (λ q lo hi.
            found_word c m old_rsp t.rsp 104 q away o (omega arith) (omega arith)
            ∙ (same q (omega arith) (omega arith) ∙ ap (λ (mem : Memory). mem q) held))),
    )

-- The state that a suspended task is given back.
pub record Resumes (a c : Cpu) (return_address : ℕ) : Type 0 where
  pub back : c.rip ≡ return_address
  pub stack : c.rsp ≡ a.rsp + 8
  pub flags : c.rflags ≡ bit_or a.rflags 0x200
  pub registers :
      (c.rbp ≡ a.rbp)
      × (c.rbx ≡ a.rbx)
      × (c.r12 ≡ a.r12)
      × (c.r13 ≡ a.r13)
      × (c.r14 ≡ a.r14)
      × (c.r15 ≡ a.r15)

-- What a switch that does not trap leaves in memory.
switched :
    (c c' : Cpu) (m m' : Memory) (old_rsp new_rsp : ℕ)
    → context_switch old_rsp new_rsp c m ≡ some (c', m')
    → m' ≡ store (save_context c m).1 old_rsp (save_context c m).0
unfolding context_switch
switched c c' m m' old_rsp new_rsp h = ground arith

module _ (a b : Cpu) (m n : Memory) (old_a old_b : ℕ) (room : 64 ≤ a.rsp)
    (o : IsApart (a.rsp - 56) 64 old_a)
    (same : (q : ℕ)
      → a.rsp - 56 ≤ q
      → q ≤ a.rsp
      → n q ≡ store (save_context a m).1 old_a (save_context a m).0 q)
    (away : SavesApart b (a.rsp - 56) 64) (o' : IsApart (a.rsp - 56) 64 old_b) where
  abbrev before_load : Memory
  before_load = store (save_context b n).1 old_b (save_context b n).0

  -- The word at offset `d` of the saved frame.
  kept :
      (q d : ℕ) {v : ℕ}
      → q ≡ a.rsp - 56 + d
      → d ≤ 56
      → (save_context a m).1 ((save_context a m).0 + d) ≡ v
      → before_load q ≡ v
  kept q d at le w =
      found_word b n old_b (a.rsp - 56) 64 q away o' (omega arith) (omega arith)
      ∙ (same q (omega arith) (omega arith)
          ∙ (store_apart (save_context a m).1 old_a (save_context a m).0 q (omega arith)
              ∙ (ap (save_context a m).1 (omega (arith, (saved_words a m room).0)) ∙ w)))

  load-Resumes : Resumes a (load_context b before_load (a.rsp - 56)) (m a.rsp)
  unfolding load_context
  load-Resumes =
      let w = saved_words a m room in
      let base = a.rsp - 56 in
      record {
        back = kept (base + 56) 56 refl (omega arith) w.8;
        stack = omega arith;
        flags =
            kept base 0 (omega arith) (omega arith) (ap (save_context a m).1 (omega arith) ∙ w.1);
        registers = (
          kept (base + 8) 8 refl (omega arith) w.2,
          kept (base + 16) 16 refl (omega arith) w.3,
          kept (base + 24) 24 refl (omega arith) w.4,
          kept (base + 32) 32 refl (omega arith) w.5,
          kept (base + 40) 40 refl (omega arith) w.6,
          kept (base + 48) 48 refl (omega arith) w.7,
        );
      }

-- A task that was switched away from resumes where it was. If `a` called `context_switch` and its
-- saved frame is left alone, then a later switch to the stack pointer that the first one stored
-- returns to `a`'s call, with its stack pointer past the return address, its callee-saved registers
-- as they were, and its flags with interrupts enabled.
pub context_switch-Resumes :
    (a b b' : Cpu) (m m' n : Memory) (old_a old_b new_rsp : ℕ)
    → context_switch old_a new_rsp a m ≡ some (b', m')
    → 64 ≤ a.rsp
    → IsApart (a.rsp - 56) 64 old_a
    → ((q : ℕ) → a.rsp - 56 ≤ q → q ≤ a.rsp → n q ≡ m' q)
    → SavesApart b (a.rsp - 56) 64
    → IsApart (a.rsp - 56) 64 old_b
    → old_b ≢ 0
    → (c : Cpu) × (n' : Memory) × (context_switch old_b (m' old_a) b n ≡ some (c, n'))
      × Resumes a c (m a.rsp)
context_switch-Resumes a b b' m m' n old_a old_b new_rsp h room o same away o' nz =
    let e = switched a b' m m' old_a new_rsp h in
    let at : m' old_a ≡ a.rsp - 56 =
      ap (λ (mem : Memory). mem old_a) e
      ∙ (store_same (save_context a m).1 old_a (save_context a m).0 ∙ (saved_words a m room).0) in
    let n' : Memory = store (save_context b n).1 old_b (save_context b n).0 in
    (
      load_context b n' (a.rsp - 56),
      n',
      subst (λ p. context_switch old_b p b n ≡ some (load_context b n' (a.rsp - 56), n')) (sym at)
          (switches b n old_b (a.rsp - 56) nz (omega arith)),
      load-Resumes a b m n old_a old_b room o
          (λ q lo hi. same q lo hi ∙ ap (λ (mem : Memory). mem q) e) away o',
    )
