-- ===== src/Syscalls/Exec/Stack.antt =====
-- The first stack of a program that `execve` of src/core/syscall.rs starts: one page, on which the
-- arguments, their addresses and their number are written.
use nwin_os.Common.{
  ℕ, ◌+◌, ◌-◌, ◌*◌, ◌/◌, ◌≤◌, ◌<◌, ◌≡◌, true, none, List, [], ◌∷◌, ◌++◌, ◌⊎◌, length,
}
use nwin_os.Common.Outcome.{Outcome, returned, panicked}
use nwin_os.Paging.{PageTables, Physical}
use nwin_os.Syscalls.{load}
use nwin_os.Syscalls.UserBytes.{Confined}
use nwin_os.Syscalls.Exec.Words.{IsPage, Reads, words_bytes}
use nwin_os.Syscalls.Exec.{user_stack_base, argv_pointers}

abbrev pub pointers_of : List ℕ → List ℕ
pointers_of args_buf = argv_pointers args_buf (user_stack_base + 0x1000 - length args_buf) true

abbrev pub strings_base : List ℕ → ℕ
strings_base args_buf = user_stack_base + 0x1000 - length args_buf

-- The number of arguments, their addresses, and two zeros.
abbrev pub words_of : List ℕ → List ℕ
words_of args_buf = length (pointers_of args_buf) ∷ (pointers_of args_buf ++ (0 ∷ 0 ∷ []))

-- The top below the strings, and the room that the words take.
abbrev pub words_top : List ℕ → ℕ
words_top args_buf = (user_stack_base + 0x1000 - length args_buf) / 16 * 16

abbrev pub words_size : List ℕ → ℕ
words_size args_buf = 8 * (length (pointers_of args_buf) + 3)

module _ (pt : PageTables) (pml4 frame : ℕ) (p : Physical) (page : IsPage pt pml4 frame p.tables)
    (below : (a : ℕ)
      → a < user_stack_base
      → user_stack_base ≤ a + 8
      → pt.translate_addr p.tables pml4 a ≡ none)
    (args_buf : List ℕ) (short : length args_buf ≤ 0x1000) where
  -- The stack pointer is `top`, the words from there on are `ws`, and the strings are above them.
  abbrev OnPage : ℕ → List ℕ → Outcome (ℕ × Physical) → Type 0
  OnPage top ws s =
      (p' : Physical) × (s ≡ returned (top, p'))
      × Confined pt pml4 p user_stack_base 0x1000 p'
      × Reads pt pml4 frame p' top (words_bytes ws)
      × Reads pt pml4 frame p' (strings_base args_buf) args_buf

  -- After the words `ws` were written below the top: they fit, or the last one faulted.
  abbrev AfterWords : List ℕ → Outcome (ℕ × Physical) → Type 0
  AfterWords ws s =
      ((user_stack_base + 8 * length ws ≤ words_top args_buf)
        × OnPage (words_top args_buf - 8 * length ws) ws s)
      ⊎ ((words_top args_buf < user_stack_base + 8 * length ws) × (s ≡ panicked))

-- What `lay_out` leaves.
abbrev pub Fits : PageTables → (pml4 : ℕ) → Physical → List ℕ → Outcome (ℕ × Physical) → Type 0
Fits pt pml4 p args_buf panicked = words_top args_buf < user_stack_base + words_size args_buf
Fits pt pml4 p args_buf (returned (user_stack_top, p')) =
    (user_stack_base + words_size args_buf ≤ words_top args_buf)
    × (user_stack_top ≡ words_top args_buf - words_size args_buf)
    × (load pt pml4 p' user_stack_top (words_size args_buf)
        ≡ returned (words_bytes (words_of args_buf)))
    × (load pt pml4 p' (strings_base args_buf) (length args_buf) ≡ returned args_buf)
    × Confined pt pml4 p user_stack_base 0x1000 p'
