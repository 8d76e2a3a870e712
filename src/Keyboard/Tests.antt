-- ===== src/Keyboard/Tests.antt =====
-- Two keys in the ring, an interrupt in the middle of a read, and Ctrl+C: tests, and instances of the
-- theorems.
use nwin_os.Common.{ℕ, ◌≡◌, Option, none, some, [], ◌∷◌, if◌then◌else◌, ◌==◌}
use nwin_os.Keyboard.{Keys, no_keys, push_key, DecodedKey, unicode, raw_key, arrow_up}
use nwin_os.Keyboard.Ring.{
  IsValid, no_keys-IsValid, push_key-IsValid, pushes, pops, answers, queue_answers, no_keys-answers,
}

-- `a` and `b` typed into the empty ring.
abbrev two_keys : Keys
two_keys = push_key (push_key no_keys 97) 98

two_keys-IsValid : IsValid two_keys
two_keys-IsValid = push_key-IsValid _ 98 (push_key-IsValid no_keys 97 no_keys-IsValid)

no_keys-answers_example :
    answers no_keys (pushes 97 ∷ pops ∷ pops ∷ []) ≡ queue_answers [] (pushes 97 ∷ pops ∷ pops ∷ [])
no_keys-answers_example = no_keys-answers (pushes 97 ∷ pops ∷ pops ∷ [])

-- A decoder without state: a scancode is its character, but 0 is no key and 1 the upward arrow.
abbrev add_byte : ℕ → ℕ → Option ℕ × ℕ
add_byte d scancode = (if scancode == 0 then none else some scancode, d)

abbrev process_keyevent : ℕ → ℕ → Option DecodedKey × ℕ
process_keyevent d event = (some (if event == 1 then raw_key arrow_up else unicode event), d)
