-- ===== src/Keyboard.antt =====
-- src/drivers/input/keyboard.rs: the ring of decoded keys between the keyboard interrupt and the
-- reader, and the interrupt's treatment of a key.
--
-- A key is its code point. The scancode decoder is a crate: it is a state and two functions, given as
-- parameters. The interrupt may come while a reader is in the middle of `pop_key`; `pop_key_around`
-- is that reader, with what the interrupt does between its test and its read.
pub mod Ring
pub mod Interrupt
mod Tests
use nwin_os.Common.{
  ℕ, ◌+◌, ◌%◌, Bool, not, Option, none, some, List, ltb, ◌==◌, if◌then◌else◌, get_or, set,
  replicate,
}
use nwin_os.Tasks.{TaskManager, exit_current_task}

abbrev pub buf_size : ℕ
buf_size = 256

pub record Keys : Type 0 where
  pub buffer : List ℕ
  pub head : ℕ
  pub tail : ℕ

unfoldable pub no_keys : Keys
no_keys = record { buffer = replicate buf_size 0; head = 0; tail = 0 }

unfoldable pub push_key : Keys → ℕ → Keys
push_key k c =
    let next_tail = (k.tail + 1) % buf_size in
    if not (next_tail == k.head)
    then record k { buffer = set k.buffer k.tail c; tail = next_tail }
    else k

-- `pop_key` with an interrupt after its test.
unfoldable pub pop_key_around : (Keys → Keys) → Keys → Option ℕ × Keys
pop_key_around interrupt k =
    if k.head == k.tail
    then (none, interrupt k)
    else (let k' = interrupt k in
        (some (get_or k'.buffer k.head 0), record k' { head = (k.head + 1) % buf_size }))

unfoldable pub pop_key : Keys → Option ℕ × Keys
unfolding pop_key_around
pop_key k = pop_key_around (λ k'. k') k

pub data KeyCode : Type 0 where
  return backspace arrow_up arrow_down arrow_right arrow_left : KeyCode
  other_key : ℕ → KeyCode

pub data DecodedKey : Type 0 where
  unicode : ℕ → DecodedKey
  raw_key : KeyCode → DecodedKey

-- `\x1b`, `[` and a letter
abbrev pub push_escape : Keys → ℕ → Keys
push_escape k letter = push_key (push_key (push_key k 0x1b) 0x5b) letter

unfoldable pub push_raw : Keys → KeyCode → Keys
push_raw k return = push_key k 0x0a
push_raw k backspace = push_key k 0x08
push_raw k arrow_up = push_escape k 0x41
push_raw k arrow_down = push_escape k 0x42
push_raw k arrow_right = push_escape k 0x43
push_raw k arrow_left = push_escape k 0x44
push_raw k (other_key n) = k

-- Ctrl+C ends the current task, but not the first one.
unfoldable pub interrupt_task : TaskManager → TaskManager
interrupt_task tm = elim tm.current_task [
  | none ↦ tm
  | some id ↦ if ltb 1 id then exit_current_task tm else tm
]

unfoldable pub handle_key : Keys → TaskManager → DecodedKey → Keys × TaskManager
unfolding interrupt_task push_raw
handle_key k tm (unicode character) =
    if character == 0x03 then (k, interrupt_task tm) else (push_key k character, tm)
handle_key k tm (raw_key key) = (push_raw k key, tm)

module _ {ℓ} {Decoder : Type ℓ} {KeyEvent : Type 0}
    (add_byte : Decoder → ℕ → Option KeyEvent × Decoder)
    (process_keyevent : Decoder → KeyEvent → Option DecodedKey × Decoder) where
  abbrev pub act_on :
      Keys → TaskManager → Option DecodedKey × Decoder → Keys × TaskManager × Decoder
  act_on k tm (none, d) = (k, tm, d)
  act_on k tm (some key, d) = let (k', tm') = handle_key k tm key in (k', tm', d)

  abbrev pub after_byte :
      Keys → TaskManager → Option KeyEvent × Decoder → Keys × TaskManager × Decoder
  after_byte k tm (none, d) = (k, tm, d)
  after_byte k tm (some event, d) = act_on k tm (process_keyevent d event)

  unfoldable pub process_scancode : Keys → TaskManager → Decoder → ℕ → Keys × TaskManager × Decoder
  process_scancode k tm d scancode = after_byte k tm (add_byte d scancode)
