-- ===== src/Syscalls/UserBytes.antt =====
-- Copies between the kernel and user memory, after `is_valid_user_memory` of src/core/syscall.rs has
-- said yes.
use nwin_os.Common.{
  ℕ, zero, suc, ◌+◌, ◌^◌, ◌≤◌, ◌<◌, ◌≡◌, ◌≢◌, refl, ap, ◌∙◌, subst, true, Option, none, some, List,
  [], ◌∷◌, inl, inr, length, arith, ==_ne,
}
use nwin_os.Common.Outcome.{Outcome, returned, panicked}
use nwin_os.Paging.{PageTables, Physical}
use nwin_os.Task.{Memory}
use nwin_os.UserMemory.{is_user_page_mapped, page_start}
use nwin_os.UserMemory.Pages.{is_valid_user_memory-Decides}
use nwin_os.Syscalls.{Kernel, is_valid, on_address, load, store_bytes, put_byte}

-- The crate translates every address of a page that the kernel's own walk finds mapped.
abbrev pub Walks : PageTables → ℕ → Type 0
Walks pt cr3 =
    (m : Memory) (a : ℕ)
    → is_user_page_mapped m cr3 (page_start a) ≡ true
    → (at : ℕ) × (pt.translate_addr m cr3 a ≡ some at)

abbrev pub Translated : PageTables → ℕ → Memory → ℕ → ℕ → Type 0
Translated pt cr3 m ptr len =
    (a : ℕ) → ptr ≤ a → a < ptr + len → (at : ℕ) × (pt.translate_addr m cr3 a ≡ some at)

-- What a copy to `len` bytes from `ptr` on leaves as it was: the tables, the allocator, and every byte
-- to which no address of the range is translated.
pub record Confined (pt : PageTables) (cr3 : ℕ) (p : Physical) (ptr len : ℕ) (p' : Physical)
    : Type 0 where
  pub same_tables : p'.tables ≡ p.tables
  pub same_frames : p'.frames ≡ p.frames
  pub outside :
      (at : ℕ)
      → ((a : ℕ) → ptr ≤ a → a < ptr + len → pt.translate_addr p.tables cr3 a ≢ some at)
      → p'.bytes at ≡ p.bytes at

module _ (pt : PageTables) (cr3 : ℕ) where
  pub unchanged : (p : Physical) (ptr len : ℕ) → Confined pt cr3 p ptr len p
  unchanged p ptr len = record { same_tables = refl; same_frames = refl; outside = λ at free. refl }

  pub is_valid-Translated :
      Walks pt cr3
      → (k : Kernel) (ptr len : ℕ) → ptr < 2 ^ 64
      → len < 2 ^ 64
      → is_valid pt cr3 k ptr len ≡ true
      → Translated pt cr3 k.physical.tables ptr len
  unfolding is_valid
  is_valid-Translated walks k ptr len hp hl valid =
      elim (is_valid_user_memory-Decides k.physical.tables cr3 ptr len hp hl) [
        | inl (e, positive, inl zero_len) ↦ λ a lo hi. absurd (omega (arith, zero_len, lo, hi))
        | inl (e, positive, inr usable) ↦ λ a lo hi. walks k.physical.tables a (usable.1 a lo hi)
        | inr (e, r) ↦ λ a lo hi. absurd (ground (arith, e, valid))
      ]

  pub load-Translated :
      (p : Physical) (ptr n : ℕ)
      → Translated pt cr3 p.tables ptr n
      → (bytes : List ℕ) × (load pt cr3 p ptr n ≡ returned bytes) × (length bytes ≡ n)
  unfolding load
  load-Translated p ptr zero t = ([], refl, refl)
  load-Translated p ptr (suc n) t =
      let (at, e) = t ptr (omega arith) (omega arith) in
      let (bs, loaded, size) =
        load-Translated p (ptr + 1) n (λ a lo hi. t a (omega (arith, lo)) (omega (arith, hi))) in
      (p.bytes at ∷ bs, rw (e, loaded) refl, omega (arith, size))

  put_byte_elsewhere :
      (p : Physical) (at b q : ℕ) → at ≢ q → (put_byte pt cr3 p at b).bytes q ≡ p.bytes q
  put_byte_elsewhere p at b q ne = rw (==_ne at q ne) refl

  -- A byte is stored at the first address, and the others are confined to the rest of the range.
  pub after_first_byte :
      (p p' : Physical) (ptr len at b : ℕ)
      → pt.translate_addr p.tables cr3 ptr ≡ some at
      → Confined pt cr3 (put_byte pt cr3 p at b) (ptr + 1) len p'
      → Confined pt cr3 p ptr (suc len) p'
  after_first_byte p p' ptr len at b e c = record {
    same_tables = c.same_tables;
    same_frames = c.same_frames;
    outside = λ q free.
        c.outside q (λ a lo hi. free a (omega (arith, lo)) (omega (arith, hi)))
        ∙ put_byte_elsewhere p at b q
            (λ same. free ptr (omega arith) (omega arith) (e ∙ ap (λ x. some x) same));
  }

  abbrev pub Confines : Physical → ℕ → ℕ → Outcome Physical → Type 0
  Confines p ptr len panicked = Unit
  Confines p ptr len (returned p') = Confined pt cr3 p ptr len p'

  -- Every byte that is stored lies in the range.
  pub store_bytes-Confines :
      (p : Physical) (ptr : ℕ) (bytes : List ℕ)
      → Confines p ptr (length bytes) (store_bytes pt cr3 p ptr bytes)
  unfolding store_bytes
  store_bytes-Confines p ptr [] = unchanged p ptr 0
  store_bytes-Confines p ptr (b ∷ bs) =
      at_address (pt.translate_addr p.tables cr3 ptr) refl
        (λ at. store_bytes-Confines (put_byte pt cr3 p at b) (ptr + 1) bs)
    where
      rest :
          (at : ℕ)
          → pt.translate_addr p.tables cr3 ptr ≡ some at
          → (o : Outcome Physical) → Confines (put_byte pt cr3 p at b) (ptr + 1) (length bs) o
          → Confines p ptr (suc (length bs)) o
      rest at e panicked c = tt
      rest at e (returned p') c = after_first_byte p p' ptr (length bs) at b e c

      at_address :
          (o : Option ℕ)
          → pt.translate_addr p.tables cr3 ptr ≡ o
          → ((at : ℕ)
              → Confines
                  (put_byte pt cr3 p at b)
                  (ptr + 1)
                  (length bs)
                  (store_bytes pt cr3 (put_byte pt cr3 p at b) (ptr + 1) bs))
          → Confines p ptr
              (suc (length bs))
              (on_address pt cr3 o (λ at. store_bytes pt cr3 (put_byte pt cr3 p at b) (ptr + 1) bs))
      at_address none e c = tt
      at_address (some at) e c =
          rest at e (store_bytes pt cr3 (put_byte pt cr3 p at b) (ptr + 1) bs) (c at)

  pub store_bytes-Translated :
      (p : Physical) (ptr : ℕ) (bytes : List ℕ)
      → Translated pt cr3 p.tables ptr (length bytes)
      → (p' : Physical) × (store_bytes pt cr3 p ptr bytes ≡ returned p')
        × Confined pt cr3 p ptr (length bytes) p'
  unfolding store_bytes
  store_bytes-Translated p ptr [] t = (p, refl, unchanged p ptr 0)
  store_bytes-Translated p ptr (b ∷ bs) t =
      let (at, e) = t ptr (omega arith) (omega arith) in
      let (p', stored, c) =
        store_bytes-Translated (put_byte pt cr3 p at b) (ptr + 1) bs
          (λ a lo hi. t a (omega (arith, lo)) (omega (arith, hi))) in
      (p', rw e stored, after_first_byte p p' ptr (length bs) at b e c)

  -- A range inside another.
  pub widen :
      (p p' : Physical) (ptr len ptr' len' : ℕ)
      → ptr' ≤ ptr
      → ptr + len ≤ ptr' + len'
      → Confined pt cr3 p ptr len p'
      → Confined pt cr3 p ptr' len' p'
  widen p p' ptr len ptr' len' lo hi c = record {
    same_tables = c.same_tables;
    same_frames = c.same_frames;
    outside = λ q free.
        c.outside q (λ a low high. free a (omega (arith, lo, low)) (omega (arith, hi, high)));
  }

  pub copy_twice :
      (p p' p'' : Physical) (ptr len : ℕ)
      → Confined pt cr3 p ptr len p'
      → Confined pt cr3 p' ptr len p''
      → Confined pt cr3 p ptr len p''
  copy_twice p p' p'' ptr len c d = record {
    same_tables = d.same_tables ∙ c.same_tables;
    same_frames = d.same_frames ∙ c.same_frames;
    outside = λ q free.
        d.outside q (λ a low high e.
          free a low high (subst (λ m. pt.translate_addr m cr3 a ≡ some q) c.same_tables e))
        ∙ c.outside q free;
  }
