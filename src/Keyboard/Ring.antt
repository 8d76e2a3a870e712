-- ===== src/Keyboard/Ring.antt =====
-- The key ring as a queue of at most 255 keys.
use nwin_os.Common.{
  ℕ, zero, suc, ◌+◌, ◌-◌, ◌%◌, ◌<◌, ◌≡◌, ◌≢◌, refl, sym, ◌∙◌, ap, ap₂, true, false, Option, none,
  some, List, [], ◌∷◌, ◌++◌, ltb, ◌==◌, if◌then◌else◌, get_or, set, length, length-set,
  length-replicate, get_or-set_self, get_or-set_ne, lt→ltb, ltb_above, inl, inr, dec_lt, arith,
  Bool-cases,
}
use nwin_os.Keyboard.{Keys, no_keys, push_key, pop_key, pop_key_around, buf_size}

pub record IsValid (k : Keys) : Type 0 where
  pub size : length k.buffer ≡ 256
  pub head_in : k.head < 256
  pub tail_in : k.tail < 256

-- `n` slots of the ring from `at` on.
unfoldable pub slots : List ℕ → ℕ → ℕ → List ℕ
slots b at zero = []
slots b at (suc n) = get_or b at 0 ∷ slots b ((at + 1) % 256) n

abbrev pub held : Keys → ℕ
held k = (k.tail + 256 - k.head) % 256

-- The keys that wait, oldest first.
abbrev pub contents : Keys → List ℕ
contents k = slots k.buffer k.head (held k)

length-slots : (b : List ℕ) (at n : ℕ) → length (slots b at n) ≡ n
unfolding slots
length-slots b at zero = refl
length-slots b at (suc n) = ap suc (length-slots b ((at + 1) % 256) n)

slots-set :
    (b : List ℕ) (at t c n : ℕ)
    → length b ≡ 256
    → at < 256
    → n < 256
    → t ≡ (at + n) % 256
    → slots (set b t c) at (suc n) ≡ slots b at n ++ (c ∷ [])
unfolding slots
slots-set b at t c zero size ha hn e =
    let same : t ≡ at = omega (arith, e, ha) in
    rw same (ap (λ x. x ∷ []) (get_or-set_self b at c 0 (omega (arith, size, ha))))
slots-set b at t c (suc n) size ha hn e =
    ap₂ (λ x y. x ∷ y) (get_or-set_ne b t at c 0 (λ h. omega (arith, h, e, ha, hn)))
      (slots-set b ((at + 1) % 256) t c n size (omega arith) (omega (arith, hn)) (omega (arith, e)))

-- What the queue that the ring stands for does with a key.
abbrev pub push_bounded : List ℕ → ℕ → List ℕ
push_bounded q c = if ltb (length q) 255 then q ++ (c ∷ []) else q

abbrev pub pop_bounded : List ℕ → Option ℕ × List ℕ
pop_bounded [] = (none, [])
pop_bounded (c ∷ q) = (some c, q)

pub no_keys-IsValid : IsValid no_keys
unfolding no_keys
no_keys-IsValid = record {
  size = length-replicate {A = ℕ} 256 0;
  head_in = omega arith;
  tail_in = omega arith;
}

pub push_key-IsValid : (k : Keys) (c : ℕ) → IsValid k → IsValid (push_key k c)
unfolding push_key
push_key-IsValid k c v = elim (Bool-cases (((k.tail + 1) % buf_size) == k.head)) [
  | inl full ↦ rw full v
  | inr room ↦ rw room (record {
    size = length-set k.buffer k.tail c ∙ v.size;
    head_in = v.head_in;
    tail_in = omega arith;
  })
]

pub pop_key-IsValid : (k : Keys) → IsValid k → IsValid (pop_key k).1
unfolding pop_key pop_key_around
pop_key-IsValid k v = elim (Bool-cases (k.head == k.tail)) [
  | inl idle ↦ rw idle v
  | inr some_key ↦
      rw some_key (record { size = v.size; head_in = omega arith; tail_in = v.tail_in })
]

-- The keys behind the front one once another key has come.
abbrev pub push_before : ℕ → List ℕ → List ℕ
push_before c q = if ltb (length q) 254 then q ++ (c ∷ []) else q

pop_push_bounded :
    (x c : ℕ) (q : List ℕ) → pop_bounded (push_bounded (x ∷ q) c) ≡ (some x, push_before c q)
pop_push_bounded x c q = elim (dec_lt (length q) 254) [
  | yes h ↦ rw (lt→ltb (length q) 254 h, lt→ltb (suc (length q)) 255 (omega (arith, h))) refl
  | no h ↦
      rw
        (
          ltb_above (length q) 254 (omega (arith, h)),
          ltb_above (suc (length q)) 255 (omega (arith, h)),
        )
        refl
]

push_full : (q : List ℕ) (c : ℕ) → length q ≡ 255 → push_bounded q c ≡ q
push_full q c h = rw h refl

push_room : (q : List ℕ) (c : ℕ) → length q < 255 → push_bounded q c ≡ q ++ (c ∷ [])
push_room q c h = rw (lt→ltb (length q) 255 h) refl

module _ (k : Keys) (v : IsValid k) where
  held_full : (c : ℕ) → (((k.tail + 1) % buf_size) == k.head) ≡ true → length (contents k) ≡ 255
  held_full c full = length-slots k.buffer k.head (held k) ∙ ground (arith, v.head_in, v.tail_in)

  held_room : (c : ℕ) → (((k.tail + 1) % buf_size) == k.head) ≡ false → length (contents k) < 255
  held_room c room =
      rw (length-slots k.buffer k.head (held k)) (ground (arith, v.head_in, v.tail_in))

  -- `push_key` on the ring is a push on the queue: behind the others, or lost if 255 keys wait.
  pub contents-push_key : (c : ℕ) → contents (push_key k c) ≡ push_bounded (contents k) c
  unfolding push_key
  contents-push_key c = elim (Bool-cases (((k.tail + 1) % buf_size) == k.head)) [
    | inl full ↦ rw full (sym (push_full (contents k) c (held_full c full)))
    | inr room ↦
        let ne : (k.tail + 1) % 256 ≢ k.head = λ e. ground (arith, room, e) in
        let one_more : ((k.tail + 1) % 256 + 256 - k.head) % 256 ≡ suc (held k) =
          omega (arith, ne, v.head_in, v.tail_in) in
        rw room (
          ap (slots (set k.buffer k.tail c) k.head) one_more
          ∙ slots-set k.buffer k.head k.tail c (held k) v.size v.head_in (omega arith)
              (omega (arith, v.head_in, v.tail_in))
          ∙ sym (push_room (contents k) c (held_room c room)))
  ]

  contents_idle : (k.head == k.tail) ≡ true → contents k ≡ []
  unfolding slots
  contents_idle idle =
      let none_held : held k ≡ 0 = ground (arith, idle, v.head_in) in
      ap (slots k.buffer k.head) none_held

  contents_busy :
      (k.head == k.tail) ≡ false
      → contents k ≡ get_or k.buffer k.head 0 ∷ contents (record k { head = (k.head + 1) % 256 })
  unfolding slots
  contents_busy busy =
      let ne : k.head ≢ k.tail = λ e. ground (arith, busy, e) in
      let one_more : held k ≡ suc ((k.tail + 256 - (k.head + 1) % 256) % 256) =
        omega (arith, ne, v.head_in, v.tail_in) in
      ap (slots k.buffer k.head) one_more

  -- `pop_key` takes the front of the queue, and says `none` exactly when it is empty.
  pub contents-pop_key : ((pop_key k).0, contents (pop_key k).1) ≡ pop_bounded (contents k)
  unfolding pop_key pop_key_around
  contents-pop_key = elim (Bool-cases (k.head == k.tail)) [
    | inl idle ↦ rw idle (rw (contents_idle idle) refl)
    | inr busy ↦ rw busy (sym (ap pop_bounded (contents_busy busy)))
  ]

  -- An interrupt in the middle of a reader's `pop_key` that finds a key is as good as one before it.
  around_busy :
      (c : ℕ)
      → (k.head == k.tail) ≡ false
      → pop_key_around (λ x. push_key x c) k ≡ pop_key (push_key k c)
  unfolding pop_key pop_key_around push_key
  around_busy c busy = elim (Bool-cases (((k.tail + 1) % buf_size) == k.head)) [
    | inl full ↦ rw (full, busy) refl
    | inr room ↦
        let ne : (k.head == ((k.tail + 1) % buf_size)) ≡ false = ground (arith, room) in
        rw (busy, room) (rw ne refl)
  ]

  key_waits : (x : ℕ) (q : List ℕ) → contents k ≡ x ∷ q → (k.head == k.tail) ≡ false
  key_waits x q e = elim (Bool-cases (k.head == k.tail)) [
    | inl idle ↦ ground (arith, sym (contents_idle idle) ∙ e)
    | inr busy ↦ busy
  ]

-- If a key waits, a reader that the interrupt stops in the middle gets the key that was oldest
-- before, and the new key is behind the rest, or lost if 255 keys waited when it came.
pub contents-pop_key_around :
    (k : Keys) (c x : ℕ) (q : List ℕ)
    → IsValid k
    → contents k ≡ x ∷ q
    → ((pop_key_around (λ k'. push_key k' c) k).0 ≡ some x)
      × (contents (pop_key_around (λ k'. push_key k' c) k).1 ≡ push_before c q)
contents-pop_key_around k c x q v e =
    let path =
      contents-pop_key (push_key k c) (push_key-IsValid k c v)
      ∙ ap pop_bounded (contents-push_key k v c ∙ ap (λ l. push_bounded l c) e)
      ∙ pop_push_bounded x c q in
    rw (around_busy k v c (key_waits k v x q e))
      (ap (λ (r : Option ℕ × List ℕ). r.0) path, ap (λ (r : Option ℕ × List ℕ). r.1) path)

-- What the interrupt and the reader do with the ring.
pub data KeyCall : Type 0 where
  pushes : ℕ → KeyCall
  pops : KeyCall

pub answers : Keys → List KeyCall → List (Option ℕ)
answers k [] = []
answers k (pushes c ∷ calls) = answers (push_key k c) calls
answers k (pops ∷ calls) = (pop_key k).0 ∷ answers (pop_key k).1 calls

pub queue_answers : List ℕ → List KeyCall → List (Option ℕ)
queue_answers q [] = []
queue_answers q (pushes c ∷ calls) = queue_answers (push_bounded q c) calls
queue_answers q (pops ∷ calls) = (pop_bounded q).0 ∷ queue_answers (pop_bounded q).1 calls

answers-contents :
    (k : Keys) (calls : List KeyCall)
    → IsValid k
    → answers k calls ≡ queue_answers (contents k) calls
unfolding answers queue_answers
answers-contents k [] v = refl
answers-contents k (pushes c ∷ calls) v =
    answers-contents (push_key k c) calls (push_key-IsValid k c v)
    ∙ ap (λ q. queue_answers q calls) (contents-push_key k v c)
answers-contents k (pops ∷ calls) v =
    ap (λ l. (pop_key k).0 ∷ l) (answers-contents (pop_key k).1 calls (pop_key-IsValid k v))
    ∙ ap (λ (r : Option ℕ × List ℕ). r.0 ∷ queue_answers r.1 calls) (contents-pop_key k v)

-- Whatever keys come and whenever the reader asks, it gets from the ring what it would get from a
-- first-in, first-out queue that holds 255 keys and loses those that come when it is full.
pub no_keys-answers : (calls : List KeyCall) → answers no_keys calls ≡ queue_answers [] calls
unfolding no_keys slots
no_keys-answers calls = answers-contents no_keys calls no_keys-IsValid
