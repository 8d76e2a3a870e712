-- ===== src/Syscalls/Entry.antt =====
-- `syscall_entry` of src/core/syscall.rs: the assembly round a system call.
--
-- `syscall` has put the address to return to into rcx and the flags into r11. The Rust side is the
-- function `handle` on memory, by the address of the saved registers; it keeps r12, as its calling
-- convention demands.
use nwin_os.Common.{ℕ, ◌+◌, ◌-◌, ◌≤◌, ◌<◌, ◌≡◌, ◌≢◌, ap, ◌∙◌, arith}
use nwin_os.Task.{Memory, push}

pub record UserCpu : Type 0 where
  pub rip : ℕ
  pub rsp : ℕ
  pub rflags : ℕ
  pub rax : ℕ
  pub rdi : ℕ
  pub rsi : ℕ
  pub rdx : ℕ
  pub r10 : ℕ
  pub r8 : ℕ
  pub r9 : ℕ
  pub r11 : ℕ
  pub rcx : ℕ
  pub r12 : ℕ

-- The pushes up to `push rax`, on the kernel's stack.
unfoldable pub save_registers : ℕ → UserCpu → Memory → ℕ × Memory
save_registers kernel_rsp c m = push c.rax (
    push c.rdi (
      push c.rsi (
        push c.rdx (
          push c.r10
            (push c.r8 (push c.r9 (push c.r11 (push c.rcx (push c.rsp (kernel_rsp, m))))))))))

-- `pop r12`, the pops from `pop rax` to `pop rsp`, and `sysretq`; `p` is where rax was pushed.
unfoldable pub load_registers : UserCpu → Memory → ℕ → UserCpu
load_registers c m p = record c {
  r12 = m (p - 8);
  rax = m p;
  rdi = m (p + 8);
  rsi = m (p + 16);
  rdx = m (p + 24);
  r10 = m (p + 32);
  r8 = m (p + 40);
  r9 = m (p + 48);
  r11 = m (p + 56);
  rcx = m (p + 64);
  rsp = m (p + 72);
  rip = m (p + 64);
  rflags = m (p + 56);
}

unfoldable pub before_call : ℕ → UserCpu → Memory → ℕ × Memory
unfolding save_registers
before_call kernel_rsp c m = push c.r12 (save_registers kernel_rsp c m)

unfoldable pub syscall_entry : ℕ → (ℕ → Memory → Memory) → UserCpu → Memory → UserCpu × Memory
unfolding before_call load_registers
syscall_entry kernel_rsp handle c m =
    let (rsp, m') = before_call kernel_rsp c m in
    let m'' = handle (rsp + 8) m' in (load_registers c m'' (rsp + 8), m'')

module _ (k : ℕ) (c : UserCpu) (m : Memory) (room : 88 ≤ k) where
  abbrev saved : Memory
  saved = (before_call k c m).1

  saved_at : (before_call k c m).0 + 8 ≡ k - 80
  unfolding before_call save_registers
  saved_at = omega arith

  -- The struct that the Rust side reads.
  arguments :
      (saved (k - 80) ≡ c.rax)
      × (saved (k - 72) ≡ c.rdi)
      × (saved (k - 64) ≡ c.rsi)
      × (saved (k - 56) ≡ c.rdx)
      × (saved (k - 48) ≡ c.r10)
      × (saved (k - 40) ≡ c.r8)
      × (saved (k - 32) ≡ c.r9)
  unfolding before_call save_registers
  arguments = (
    ground arith,
    ground arith,
    ground arith,
    ground arith,
    ground arith,
    ground arith,
    ground arith,
  )

  kept_words :
      (saved (k - 88) ≡ c.r12)
      × (saved (k - 24) ≡ c.r11)
      × (saved (k - 16) ≡ c.rcx)
      × (saved (k - 8) ≡ c.rsp)
  unfolding before_call save_registers
  kept_words = (ground arith, ground arith, ground arith, ground arith)

-- The Rust side changes nothing of what was pushed but the word of rax.
abbrev pub KeepsFrame : (ℕ → Memory → Memory) → Type 0
KeepsFrame handle =
    (regs q : ℕ) (m : Memory) → regs ≤ q + 8 → q < regs + 80 → q ≢ regs → handle regs m q ≡ m q

-- What the kernel has left in the place of rax.
abbrev pub answer_of : ℕ → (ℕ → Memory → Memory) → UserCpu → Memory → ℕ
answer_of k handle c m = handle (k - 80) (before_call k c m).1 (k - 80)

abbrev pub Returns : UserCpu → UserCpu → ℕ → Type 0
Returns c c' rax =
    (c'.rax ≡ rax)
    × (c'.rip ≡ c.rcx)
    × (c'.rflags ≡ c.r11)
    × (c'.rsp ≡ c.rsp)
    × (c'.rdi ≡ c.rdi)
    × (c'.rsi ≡ c.rsi)
    × (c'.rdx ≡ c.rdx)
    × (c'.r10 ≡ c.r10)
    × (c'.r8 ≡ c.r8)
    × (c'.r9 ≡ c.r9)
    × (c'.r12 ≡ c.r12)

-- A system call returns to its caller: on a kernel stack with room for eleven words, where the Rust side
-- changes none of the words pushed there but the one of rax, the caller goes on behind its `syscall` with its
-- stack pointer, its flags, its argument registers and r12 as they were, and with the answer in rax;
-- and the struct that the Rust side got held the caller's number and arguments.
pub syscall_entry-Returns :
    (k : ℕ) (handle : ℕ → Memory → Memory) (c : UserCpu) (m : Memory)
    → 88 ≤ k
    → KeepsFrame handle
    → Returns c (syscall_entry k handle c m).0 (answer_of k handle c m)
      × (((before_call k c m).1 (k - 80) ≡ c.rax)
          × ((before_call k c m).1 (k - 72) ≡ c.rdi)
          × ((before_call k c m).1 (k - 64) ≡ c.rsi)
          × ((before_call k c m).1 (k - 56) ≡ c.rdx)
          × ((before_call k c m).1 (k - 48) ≡ c.r10)
          × ((before_call k c m).1 (k - 40) ≡ c.r8)
          × ((before_call k c m).1 (k - 32) ≡ c.r9))
unfolding syscall_entry load_registers
syscall_entry-Returns k handle c m room keeps =
    let (rax, rdi, rsi, rdx, r10, r8, r9) = arguments k c m room in
    let (r12, r11, rcx, rsp) = kept_words k c m room in
    (
      (
        ap (λ p. handle p (before_call k c m).1 p) at,
        word 64 16 (omega arith) (omega arith) (omega arith) rcx,
        word 56 24 (omega arith) (omega arith) (omega arith) r11,
        word 72 8 (omega arith) (omega arith) (omega arith) rsp,
        word 8 72 (omega arith) (omega arith) (omega arith) rdi,
        word 16 64 (omega arith) (omega arith) (omega arith) rsi,
        word 24 56 (omega arith) (omega arith) (omega arith) rdx,
        word 32 48 (omega arith) (omega arith) (omega arith) r10,
        word 40 40 (omega arith) (omega arith) (omega arith) r8,
        word 48 32 (omega arith) (omega arith) (omega arith) r9,
        below r12,
      ),
      arguments k c m room,
    )
  where
    at : (before_call k c m).0 + 8 ≡ k - 80
    at = saved_at k c m room

    word :
        {v : ℕ}
        → (up down : ℕ) → up + down ≡ 80
        → 0 < up
        → 0 < down
        → (before_call k c m).1 (k - down) ≡ v
        → handle ((before_call k c m).0 + 8) (before_call k c m).1 ((before_call k c m).0 + 8 + up)
          ≡ v
    word up down sum some_up some_down e =
        keeps ((before_call k c m).0 + 8) ((before_call k c m).0 + 8 + up) (before_call k c m).1
          (omega arith) (omega (arith, sum, some_down)) (omega (arith, some_up))
        ∙ ap (before_call k c m).1 (omega (arith, at, sum, room))
        ∙ e

    below :
        {v : ℕ}
        → (before_call k c m).1 (k - 88) ≡ v
        → handle ((before_call k c m).0 + 8) (before_call k c m).1 ((before_call k c m).0 + 8 - 8)
          ≡ v
    below e =
        keeps ((before_call k c m).0 + 8) ((before_call k c m).0 + 8 - 8) (before_call k c m).1
          (omega arith) (omega arith) (omega arith)
        ∙ ap (before_call k c m).1 (omega (arith, at, room))
        ∙ e
