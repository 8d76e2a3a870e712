-- ===== src/Keyboard/Interrupt.antt =====
-- What the keyboard interrupt leaves intact.
use nwin_os.Common.{
  ℕ, ◌≤◌, ◌<◌, ◌≡◌, refl, sym, subst, Option, none, some, ◌==◌, arith, dec_lt, Bool-cases,
  Option-cases, inl, inr,
}
use nwin_os.Task.{TaskId}
use nwin_os.Tasks.{TaskManager, exit_current_task}
use nwin_os.Tasks.Spec.{IsValid}
use nwin_os.Tasks.Lifecycle.{exit_current_task-IsValid}
use nwin_os.Keyboard.{
  Keys, push_key, KeyCode, return, backspace, arrow_up, arrow_down, arrow_right, arrow_left,
  other_key, DecodedKey, unicode, raw_key, push_escape, push_raw, interrupt_task, handle_key,
  act_on, after_byte, process_scancode,
}
use nwin_os.Keyboard.Ring
use nwin_os.Keyboard.Ring.{push_key-IsValid}

-- The ring and the manager stay valid, and a first task that runs goes on.
pub record Survives (tm : TaskManager) (k' : Keys) (tm' : TaskManager) : Type 0 where
  pub ring : Ring.IsValid k'
  pub tasks : IsValid tm'
  pub first_task : (id : TaskId) → tm.current_task ≡ some id → id ≤ 1 → tm' ≡ tm

push_escape-IsValid : (k : Keys) (letter : ℕ) → Ring.IsValid k → Ring.IsValid (push_escape k letter)
push_escape-IsValid k letter v =
    push_key-IsValid _ letter (push_key-IsValid _ 0x5b (push_key-IsValid k 0x1b v))

push_raw-IsValid : (k : Keys) (key : KeyCode) → Ring.IsValid k → Ring.IsValid (push_raw k key)
unfolding push_raw
push_raw-IsValid k return v = push_key-IsValid k 0x0a v
push_raw-IsValid k backspace v = push_key-IsValid k 0x08 v
push_raw-IsValid k arrow_up v = push_escape-IsValid k 0x41 v
push_raw-IsValid k arrow_down v = push_escape-IsValid k 0x42 v
push_raw-IsValid k arrow_right v = push_escape-IsValid k 0x43 v
push_raw-IsValid k arrow_left v = push_escape-IsValid k 0x44 v
push_raw-IsValid k (other_key n) v = v

interrupt_idle : (tm : TaskManager) → tm.current_task ≡ none → interrupt_task tm ≡ tm
unfolding interrupt_task
interrupt_idle tm e = ground arith

interrupt_first :
    (tm : TaskManager) (id : TaskId) → tm.current_task ≡ some id → id ≤ 1 → interrupt_task tm ≡ tm
unfolding interrupt_task
interrupt_first tm id e h = ground arith

interrupt_other :
    (tm : TaskManager) (id : TaskId)
    → tm.current_task ≡ some id
    → 1 < id
    → interrupt_task tm ≡ exit_current_task tm
unfolding interrupt_task
interrupt_other tm id e h = ground arith

interrupt_task-IsValid : (tm : TaskManager) → IsValid tm → IsValid (interrupt_task tm)
interrupt_task-IsValid tm v = elim (Option-cases tm.current_task) [
  | inl idle ↦ subst IsValid (sym (interrupt_idle tm idle)) v
  | inr (id, e) ↦ elim (dec_lt 1 id) [
    | yes h ↦ subst IsValid (sym (interrupt_other tm id e h)) (exit_current_task-IsValid tm v)
    | no h ↦ subst IsValid (sym (interrupt_first tm id e (omega arith))) v
  ]
]

unchanged : (k : Keys) (tm : TaskManager) → Ring.IsValid k → IsValid tm → Survives tm k tm
unchanged k tm r v = record { ring = r; tasks = v; first_task = λ id e h. refl }

handle_key-Survives :
    (k : Keys) (tm : TaskManager) (key : DecodedKey)
    → Ring.IsValid k
    → IsValid tm
    → Survives tm (handle_key k tm key).0 (handle_key k tm key).1
unfolding handle_key
handle_key-Survives k tm (unicode c) r v = elim (Bool-cases (c == 0x03)) [
  | inl e ↦ rw e (record {
    ring = r;
    tasks = interrupt_task-IsValid tm v;
    first_task = λ id. interrupt_first tm id;
  })
  | inr e ↦ rw e (unchanged (push_key k c) tm (push_key-IsValid k c r) v)
]
handle_key-Survives k tm (raw_key key) r v =
    unchanged (push_raw k key) tm (push_raw-IsValid k key r) v

module _ {ℓ} {Decoder : Type ℓ} {KeyEvent : Type 0}
    (add_byte : Decoder → ℕ → Option KeyEvent × Decoder)
    (process_keyevent : Decoder → KeyEvent → Option DecodedKey × Decoder) (k : Keys)
    (tm : TaskManager) (r : Ring.IsValid k) (v : IsValid tm) where
  act_on-Survives :
      (o : Option DecodedKey × Decoder)
      → Survives tm
          (act_on add_byte process_keyevent k tm o).0
          (act_on add_byte process_keyevent k tm o).1
  act_on-Survives (none, d) = unchanged k tm r v
  act_on-Survives (some key, d) = handle_key-Survives k tm key r v

  after_byte-Survives :
      (o : Option KeyEvent × Decoder)
      → Survives tm
          (after_byte add_byte process_keyevent k tm o).0
          (after_byte add_byte process_keyevent k tm o).1
  after_byte-Survives (none, d) = unchanged k tm r v
  after_byte-Survives (some event, d) = act_on-Survives (process_keyevent d event)

  -- Whatever the decoder makes of a scancode, the interrupt keeps the key ring and the task manager
  -- valid, and while a task numbered 0 or 1 is current it leaves the manager as it is: Ctrl+C never
  -- ends the first task.
  pub process_scancode-Survives :
      (d : Decoder) (scancode : ℕ)
      → Survives tm
          (process_scancode add_byte process_keyevent k tm d scancode).0
          (process_scancode add_byte process_keyevent k tm d scancode).1
  unfolding process_scancode
  process_scancode-Survives d scancode = after_byte-Survives (add_byte d scancode)
