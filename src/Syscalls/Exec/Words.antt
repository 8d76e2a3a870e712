-- ===== src/Syscalls/Exec/Words.antt =====
-- Bytes that `execve` of src/core/syscall.rs has written to the page of a stack, and their reading.
use nwin_os.Common.{
  ℕ, zero, suc, ◌+◌, ◌-◌, ◌*◌, ◌/◌, ◌%◌, ◌≤◌, ◌<◌, ◌≡◌, ◌≢◌, refl, ap, sym, ◌∙◌, subst, some, List,
  [], ◌∷◌, ◌++◌, ◌⊎◌, inl, length, arith,
}
use nwin_os.Common.Outcome.{returned}
use nwin_os.Paging.{PageTables, Physical}
use nwin_os.Task.{Memory}
use nwin_os.Syscalls.{load, store_bytes, put_byte}
use nwin_os.Syscalls.UserBytes.{Confined, after_first_byte, unchanged}
use nwin_os.Syscalls.Exec.{user_stack_base, bytes_le}

pub length-bytes_le : (n value : ℕ) → length (bytes_le n value) ≡ n
unfolding bytes_le
length-bytes_le zero value = refl
length-bytes_le (suc n) value = ap suc (length-bytes_le n (value / 256))

pub bytes-word : (value : ℕ) → bytes_le 8 value ≡ (value % 256 ∷ bytes_le 7 (value / 256))
unfolding bytes_le
bytes-word value = refl

-- The bytes of 64-bit words, from the first on.
abbrev pub words_bytes : List ℕ → List ℕ
words_bytes [] = []
words_bytes (w ∷ ws) = bytes_le 8 w ++ words_bytes ws

pub length-append : (xs ys : List ℕ) → length (xs ++ ys) ≡ length xs + length ys
length-append [] ys = omega arith
length-append (x ∷ xs) ys = omega (arith, length-append xs ys)

pub length-words_bytes : (ws : List ℕ) → length (words_bytes ws) ≡ 8 * length ws
length-words_bytes [] = refl
length-words_bytes (w ∷ ws) =
    length-append (bytes_le 8 w) (words_bytes ws)
    ∙ omega (arith, length-bytes_le 8 w, length-words_bytes ws)

module _ (pt : PageTables) (pml4 frame : ℕ) where
  -- The page of the stack is mapped to a frame.
  abbrev pub IsPage : Memory → Type 0
  IsPage m =
      (o : ℕ) → o < 0x1000 → pt.translate_addr m pml4 (user_stack_base + o) ≡ some (frame + o)

  abbrev pub place : ℕ → ℕ
  place a = frame + (a - user_stack_base)

  at_place :
      (m : Memory) (a : ℕ)
      → IsPage m
      → user_stack_base ≤ a
      → a < user_stack_base + 0x1000
      → pt.translate_addr m pml4 a ≡ some (place a)
  at_place m a page lo hi =
      subst (λ x. pt.translate_addr m pml4 x ≡ some (place a)) back
        (page (a - user_stack_base) (omega (arith, lo, hi)))
    where
      back : user_stack_base + (a - user_stack_base) ≡ a
      back = omega (arith, lo)

  -- The bytes of memory at the places of the addresses from `at` on.
  abbrev pub Reads : Physical → ℕ → List ℕ → Type 0
  Reads p at [] = Unit
  Reads p at (b ∷ bs) = (p.bytes (place at) ≡ b) × Reads p (at + 1) bs

  pub still-Reads :
      (p p' : Physical) (at : ℕ) (bs : List ℕ)
      → ((a : ℕ) → at ≤ a → p'.bytes (place a) ≡ p.bytes (place a))
      → Reads p at bs
      → Reads p' at bs
  still-Reads p p' at [] same r = tt
  still-Reads p p' at (b ∷ bs) same r = (
    same at (omega arith) ∙ r.0,
    still-Reads p p' (at + 1) bs (λ a lo. same a (omega (arith, lo))) r.1,
  )

  pub append-Reads :
      (p : Physical) (at : ℕ) (xs ys : List ℕ)
      → Reads p at xs
      → Reads p (at + length xs) ys
      → Reads p at (xs ++ ys)
  append-Reads p at [] ys r r' = subst (λ q. Reads p q ys) (omega arith) r'
  append-Reads p at (x ∷ xs) ys r r' =
      (r.0, append-Reads p (at + 1) xs ys r.1 (subst (λ q. Reads p q ys) (omega arith) r'))

  -- What a confined copy leaves alone on the page.
  pub kept :
      (p p' : Physical) (ptr len a : ℕ)
      → IsPage p.tables
      → user_stack_base ≤ ptr
      → ptr + len ≤ user_stack_base + 0x1000
      → Confined pt pml4 p ptr len p'
      → user_stack_base ≤ a
      → (a < ptr) ⊎ (ptr + len ≤ a)
      → p'.bytes (place a) ≡ p.bytes (place a)
  kept p p' ptr len a page lo hi c la out = c.outside (place a) (λ x lx hx e. elsewhere x lx hx (
      some_same
        (sym (at_place p.tables x page (omega (arith, lo, lx)) (omega (arith, hi, hx))) ∙ e)))
    where
      some_same : {x y : ℕ} → some x ≡ some y → x ≡ y
      some_same h = cc

      elsewhere : (x : ℕ) → ptr ≤ x → x < ptr + len → place x ≢ place a
      elsewhere x lx hx same = absurd (omega (arith, lo, la, lx, hx, same, out))

  pub store_bytes-Reads :
      (p : Physical) (ptr : ℕ) (bytes : List ℕ)
      → IsPage p.tables
      → user_stack_base ≤ ptr
      → ptr + length bytes ≤ user_stack_base + 0x1000
      → (p' : Physical) × (store_bytes pt pml4 p ptr bytes ≡ returned p')
        × Confined pt pml4 p ptr (length bytes) p'
        × Reads p' ptr bytes
  unfolding store_bytes
  store_bytes-Reads p ptr [] page lo hi = (p, refl, unchanged pt pml4 p ptr 0, tt)
  store_bytes-Reads p ptr (b ∷ bs) page lo hi =
      let e = at_place p.tables ptr page lo (omega (arith, hi)) in
      let p1 : Physical = put_byte pt pml4 p (place ptr) b in
      let (p', stored, c, r) =
        store_bytes-Reads p1 (ptr + 1) bs page (omega (arith, lo)) (omega (arith, hi)) in
      (
        p',
        rw e stored,
        after_first_byte pt pml4 p p' ptr (length bs) (place ptr) b e c,
        (
          kept p1 p' (ptr + 1) (length bs) ptr page (omega (arith, lo)) (omega (arith, hi)) c lo
                (inl (omega arith))
              ∙ ground arith,
          r,
        ),
      )

  pub load-Reads :
      (p : Physical) (at : ℕ) (bs : List ℕ)
      → IsPage p.tables
      → user_stack_base ≤ at
      → at + length bs ≤ user_stack_base + 0x1000
      → Reads p at bs
      → load pt pml4 p at (length bs) ≡ returned bs
  unfolding load
  load-Reads p at [] page lo hi r = refl
  load-Reads p at (b ∷ bs) page lo hi r =
      rw
        (
          at_place p.tables at page lo (omega (arith, hi)),
          load-Reads p (at + 1) bs page (omega (arith, lo)) (omega (arith, hi)) r.1,
          r.0,
        )
        refl
