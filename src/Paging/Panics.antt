-- ===== src/Paging/Panics.antt =====
-- When `resolve_cow_fault` of src/mm/memory.rs comes to one of its `expect` calls.
use Prim.Native.Nat.{bit_or}
use nwin_os.Common.{
  ℕ, ◌<◌, ◌≡◌, ◌==◌, refl, subst, false, Option, none, some, ◌⊎◌, inl, inr, Bool-cases, arith,
  dec_lt, if◌then◌else◌,
}
use nwin_os.Common.Outcome.{returned, panicked}
use nwin_os.Frames.{allocate_frame, get_ref_count}
use nwin_os.Task.{Memory}
use nwin_os.UserMemory.{page_start}
use nwin_os.Paging.{
  PageTables, Physical, writable, make_writable, clone, resolve_mapped, resolve_flagged,
  resolve_translated, resolve_cow_fault,
}

-- The copy-on-write handler came to one of its `expect` calls: the page is mapped, and either its frame
-- has one owner and the mapper refuses to change the flags, or it has several.
abbrev pub CowFails : PageTables → Physical → (pml4 fault_addr : ℕ) → Type 0
CowFails pt p pml4 fault_addr =
    (phys_addr : ℕ) × (flags : ℕ) × (pt.translate_addr p.tables pml4 fault_addr ≡ some phys_addr)
    × (pt.translate_flags p.tables pml4 fault_addr ≡ some flags)
    × (((get_ref_count p.frames phys_addr ≡ 1)
          × (pt.update_flags p.tables pml4 (page_start fault_addr) (bit_or flags writable) ≡ none))
        ⊎ (1 < get_ref_count p.frames phys_addr))

module _ (pt : PageTables) (p : Physical) (pml4 fault_addr : ℕ) where
  refused : (o : Option Memory) → make_writable pt p o ≡ panicked → o ≡ none
  refused none h = refl
  refused (some tables) h = cc

  pub resolve_cow_fault-CowFails :
      resolve_cow_fault pt p pml4 fault_addr ≡ panicked → CowFails pt p pml4 fault_addr
  unfolding resolve_cow_fault
  resolve_cow_fault-CowFails = at_address _ refl
    where
      by_one :
          (phys_addr flags : ℕ)
          → get_ref_count p.frames phys_addr ≡ 1
          → resolve_mapped pt p pml4 fault_addr phys_addr flags ≡ panicked
          → make_writable pt p
              (pt.update_flags p.tables pml4 (page_start fault_addr) (bit_or flags writable))
            ≡ panicked
      by_one phys_addr flags one h =
          subst
            (λ n.
              (if n == 0
                then returned (false, p)
                else if n == 1
                then make_writable pt p
                    (pt.update_flags p.tables pml4 (page_start fault_addr) (bit_or flags writable))
                else clone pt p pml4 (page_start fault_addr) phys_addr flags
                    (allocate_frame p.frames))
              ≡ panicked)
            one h

      counted :
          (phys_addr flags : ℕ)
          → resolve_mapped pt p pml4 fault_addr phys_addr flags ≡ panicked
          → ((get_ref_count p.frames phys_addr ≡ 1)
              × (pt.update_flags p.tables pml4 (page_start fault_addr) (bit_or flags writable)
                  ≡ none))
            ⊎ (1 < get_ref_count p.frames phys_addr)
      counted phys_addr flags h = elim (dec_lt 1 (get_ref_count p.frames phys_addr)) [
        | yes shared ↦ inr shared
        | no few ↦ elim (Bool-cases (get_ref_count p.frames phys_addr == 0)) [
          | inl unowned ↦ ground (arith, unowned, h)
          | inr owned ↦
              let one : get_ref_count p.frames phys_addr ≡ 1 = ground (arith, few, owned) in
              inl (one, refused _ (by_one phys_addr flags one h))
        ]
      ]

      at_flags :
          (phys_addr : ℕ) (o : Option ℕ)
          → pt.translate_addr p.tables pml4 fault_addr ≡ some phys_addr
          → pt.translate_flags p.tables pml4 fault_addr ≡ o
          → resolve_flagged pt p pml4 fault_addr phys_addr o ≡ panicked
          → CowFails pt p pml4 fault_addr
      at_flags phys_addr none e e' h = cc
      at_flags phys_addr (some flags) e e' h = (phys_addr, flags, e, e', counted phys_addr flags h)

      at_address :
          (o : Option ℕ)
          → pt.translate_addr p.tables pml4 fault_addr ≡ o
          → resolve_translated pt p pml4 fault_addr o ≡ panicked
          → CowFails pt p pml4 fault_addr
      at_address none e h = cc
      at_address (some phys_addr) e h =
          at_flags phys_addr (pt.translate_flags p.tables pml4 fault_addr) e refl h
