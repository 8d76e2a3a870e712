-- ===== src/Task/Tests.antt =====
-- A first user task and a context switch between two stacks: tests, and instances of the theorems.
use nwin_os.Common.{◌≡◌, refl, none, some, inl, inr, arith}
use nwin_os.Common.Outcome.{ok}
use nwin_os.Fd
use nwin_os.Task.{
  Task, user_mode, Memory, store, Surroundings, first_frame, new, Cpu, save_context, load_context,
  context_switch, heap_base, mmap_start,
}
use nwin_os.Task.Dispatch.{Enters, Resumes, first_dispatch-Enters, context_switch-Resumes}

abbrev before : Surroundings
before = record {
  next_id = 2;
  reserved = some 0x10000;
  user_data_selector = 0x18;
  user_code_selector = 0x20;
  trampoline = 0x1234;
  memory = λ q. 0;
}

abbrev after : Surroundings
after = record before {
  next_id = 3;
  memory = (first_frame before user_mode 0x40_0000 0x80_1000 0x20000).1;
}

abbrev shell : Task
shell = record {
  id = 2;
  parent_id = none;
  rsp = 130968;
  pml4_frame = 0x5000;
  stack_start = 0x10000;
  stack_end = 0x20000;
  privilege = user_mode;
  heap_start = heap_base;
  program_break = heap_base;
  mmap_base = mmap_start;
  fd_table = Fd.new;
}

new-shell : new before 0x40_0000 0x5000 user_mode 0x80_1000 none ≡ (ok shell, after)
unfolding new first_frame
new-shell = refl

abbrev idle : Cpu
idle = record {
  rip = 7;
  rsp = 0x9000;
  rflags = 2;
  rbp = 11;
  rbx = 12;
  r12 = 13;
  r13 = 14;
  r14 = 15;
  r15 = 16;
  cs = 8;
  ss = 16;
}

abbrev other : Cpu
other = record idle { rsp = 0x30000; rbx = 99 }

first_dispatch-Enters_example :
    (c' : Cpu) × (m' : Memory) × (context_switch 0x500 130968 idle after.memory ≡ some (c', m'))
    × Enters before 0x40_0000 0x80_1000 c' m'
first_dispatch-Enters_example =
    first_dispatch-Enters before after 0x40_0000 0x5000 0x80_1000 none shell idle after.memory 0x500
      new-shell (λ q lo hi. refl) (omega arith, inl (omega arith)) (inl (omega arith)) (omega arith)
      (omega arith)

-- The idle context leaves for the shell and comes back.
abbrev away : Memory
away = store (save_context idle after.memory).1 0x500 (save_context idle after.memory).0

left : context_switch 0x500 130968 idle after.memory ≡ some (load_context idle away 130968, away)
unfolding context_switch
left = refl

context_switch-Resumes_example :
    (c : Cpu) × (n' : Memory) × (context_switch 0x600 (away 0x500) other away ≡ some (c, n'))
    × Resumes idle c (after.memory 0x9000)
context_switch-Resumes_example =
    context_switch-Resumes idle other (load_context idle away 130968) after.memory away away 0x500
      0x600 130968 left (omega arith) (inl (omega arith)) (λ q lo hi. refl)
      (omega arith, inr (omega arith)) (inl (omega arith)) (omega arith)
