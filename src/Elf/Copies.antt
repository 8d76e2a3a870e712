-- ===== src/Elf/Copies.antt =====
-- The loops of `load_elf` of src/task/elf.rs end.
use nwin_os.Common.{
  ℕ, zero, suc, ◌+◌, ◌-◌, ◌*◌, ◌/◌, ◌%◌, ◌^◌, ◌<◌, ◌≡◌, refl, min, Bool, true, false, not, ◌&&◌,
  ◌||◌, Option, none, some, ◌⊎◌, inl, inr, ltb, ◌==◌, Bool-cases, arith, dec_lt,
}
use nwin_os.Common.Outcome.{returned, panicked}
use nwin_os.Paging.{PageTables, Physical, Bytes}
use nwin_os.UserMemory.{page_start}
use nwin_os.Elf.{
  Progress, spoil_later, is_word, copy_step, step_fits, turn, copy_from, turns, copy_mapped,
  load_segment, and_load, load_from, conclude, load_elf, has_magic, u64_at, u32_at, u16_at,
  map_range,
}

abbrev pub Ends {ℓ} : {A : Type ℓ} → Option A → Type ℓ
Ends {A} o = (a : A) × (o ≡ some a)

spoil_later-Ends : (good : Bool) (o : Option Progress) → Ends o → Ends (spoil_later good o)
spoil_later-Ends good none (a, e) = absurd (ground (arith, e))
spoil_later-Ends good (some r) h = (_, refl)

abbrev next_count : ℕ → ℕ → ℕ
next_count remaining current_vaddr = min remaining (4096 - current_vaddr % 4096)

next_aligned :
    (remaining current_vaddr : ℕ)
    → ((current_vaddr + next_count remaining current_vaddr) % 4096 ≡ 0)
      ⊎ (remaining - next_count remaining current_vaddr ≡ 0)
next_aligned remaining current_vaddr = elim (dec_lt remaining (4096 - current_vaddr % 4096)) [
  | yes short ↦ inr (ground (arith, short))
  | no long ↦ inl (ground (arith, long))
]

module _ (pt : PageTables) where
  -- A loop that ends, or else takes a turn.
  turn-Ends :
      (done fits : Bool) (p : Physical) (o : Option Progress)
      → (done ≡ false → Ends o)
      → Ends (turn pt done fits p o)
  turn-Ends true fits p o h = (returned (true, p), refl)
  turn-Ends false true p o h = h refl
  turn-Ends false false p o h = (panicked, refl)

  -- A turn from any address, if the next one from where it stops ends.
  next-Ends :
      (fuel : ℕ) (elf : Bytes) (p : Physical) (pml4 remaining file_offset current_vaddr : ℕ)
      → ((remaining == 0) ≡ false
          → (p' : Physical)
          → Ends (
              copy_from pt fuel elf p' pml4
                (remaining - next_count remaining current_vaddr)
                (file_offset + next_count remaining current_vaddr)
                (current_vaddr + next_count remaining current_vaddr)))
      → Ends (copy_from pt (suc fuel) elf p pml4 remaining file_offset current_vaddr)
  unfolding copy_from
  next-Ends fuel elf p pml4 remaining file_offset current_vaddr h =
      let (good, p') = copy_step pt elf p pml4 remaining file_offset current_vaddr in
      turn-Ends (remaining == 0) (step_fits pt remaining file_offset current_vaddr) p
        (spoil_later good (
          copy_from pt fuel elf p' pml4 (remaining - next_count remaining current_vaddr)
            (file_offset + next_count remaining current_vaddr)
            (current_vaddr + next_count remaining current_vaddr)))
        (λ left. spoil_later-Ends good _ (h left p'))

  -- From a page boundary on, each turn takes a page or the rest.
  copy_aligned-Ends :
      (fuel : ℕ) (elf : Bytes) (p : Physical) (pml4 remaining file_offset current_vaddr : ℕ)
      → (current_vaddr % 4096 ≡ 0) ⊎ (remaining ≡ 0)
      → (remaining + 4095) / 4096 < fuel
      → Ends (copy_from pt fuel elf p pml4 remaining file_offset current_vaddr)
  unfolding copy_from
  copy_aligned-Ends zero elf p pml4 remaining file_offset current_vaddr aligned enough =
      absurd (omega (arith, enough))
  copy_aligned-Ends (suc fuel) elf p pml4 remaining file_offset current_vaddr aligned enough =
      next-Ends fuel elf p pml4 remaining file_offset current_vaddr (λ left p'.
        copy_aligned-Ends fuel elf p' pml4 _ _ _ (next_aligned remaining current_vaddr)
          (fewer left aligned))
    where
      fewer :
          (remaining == 0) ≡ false
          → (current_vaddr % 4096 ≡ 0) ⊎ (remaining ≡ 0)
          → (remaining - next_count remaining current_vaddr + 4095) / 4096 < fuel
      fewer left (inr done) = absurd (ground (arith, left, done))
      fewer left (inl start) = ground (arith, left, start, enough)

  copy_from-Ends :
      (elf : Bytes) (p : Physical) (pml4 remaining file_offset current_vaddr : ℕ)
      → Ends (copy_from pt (turns pt remaining) elf p pml4 remaining file_offset current_vaddr)
  copy_from-Ends elf p pml4 remaining file_offset current_vaddr =
      next-Ends (remaining / 4096 + 2) elf p pml4 remaining file_offset current_vaddr (λ left p'.
        copy_aligned-Ends (remaining / 4096 + 2) elf p' pml4 _ _ _
          (next_aligned remaining current_vaddr) (fewer left))
    where
      fewer :
          (remaining == 0) ≡ false
          → (remaining - next_count remaining current_vaddr + 4095) / 4096 < remaining / 4096 + 2
      fewer left = ground (arith, left)

  copy_mapped-Ends :
      (elf : Bytes) (pml4 p_offset p_vaddr p_filesz : ℕ) (r : Progress)
      → Ends (copy_mapped pt elf pml4 p_offset p_vaddr p_filesz r)
  copy_mapped-Ends elf pml4 p_offset p_vaddr p_filesz panicked = (panicked, refl)
  copy_mapped-Ends elf pml4 p_offset p_vaddr p_filesz (returned (good, p)) =
      elim (Bool-cases (ltb 0 p_filesz && not (p_vaddr == 0))) [
        | inl copied ↦
            rw copied
              (spoil_later-Ends good _ (copy_from-Ends elf p pml4 p_filesz p_offset p_vaddr))
        | inr empty ↦ rw empty (returned (good, p), refl)
      ]

  load_segment-Ends :
      (elf : Bytes) (p : Physical) (pml4 ph : ℕ) → Ends (load_segment pt elf p pml4 ph)
  unfolding load_segment
  load_segment-Ends elf p pml4 ph =
      elim (Bool-cases (not (u32_at elf ph == 1) || u64_at elf (ph + 0x28) == 0)) [
        | inl skipped ↦ rw skipped (returned (true, p), refl)
        | inr loaded ↦
            elim (Bool-cases (is_word (u64_at elf (ph + 0x10) + u64_at elf (ph + 0x28) + 0xFFF))) [
              | inl fits ↦
                  rw (loaded, fits)
                    (copy_mapped-Ends elf pml4 (u64_at elf (ph + 0x08)) (u64_at elf (ph + 0x10))
                      (u64_at elf (ph + 0x20))
                      (map_range pt p pml4 (page_start (u64_at elf (ph + 0x10))) (
                        (page_start (u64_at elf (ph + 0x10) + u64_at elf (ph + 0x28) + 0xFFF)
                          - page_start (u64_at elf (ph + 0x10)))
                        / 0x1000)))
              | inr overflow ↦ rw (loaded, overflow) (panicked, refl)
            ]
      ]

  and_load-Ends :
      (go_on : Physical → Option Progress) (o : Option Progress)
      → ((p : Physical) → Ends (go_on p))
      → Ends o
      → Ends (and_load pt go_on o)
  and_load-Ends go_on none h (a, e) = absurd (ground (arith, e))
  and_load-Ends go_on (some panicked) h e = (panicked, refl)
  and_load-Ends go_on (some (returned (good, p))) h e = spoil_later-Ends good (go_on p) (h p)

  load_from-Ends :
      (elf : Bytes) (p : Physical) (pml4 ph_offset ph_entry_size i entries : ℕ)
      → Ends (load_from pt elf p pml4 ph_offset ph_entry_size i entries)
  unfolding load_from
  load_from-Ends elf p pml4 ph_offset ph_entry_size i zero = (returned (true, p), refl)
  load_from-Ends elf p pml4 ph_offset ph_entry_size i (suc entries) =
      elim (Bool-cases
        (ltb (i * ph_entry_size) (2 ^ 16) && is_word (ph_offset + i * ph_entry_size))) [
          | inl fits ↦ rw fits (
              and_load-Ends (λ p'. load_from pt elf p' pml4 ph_offset ph_entry_size (i + 1) entries)
                _ (λ p'. load_from-Ends elf p' pml4 ph_offset ph_entry_size (i + 1) entries)
                (load_segment-Ends elf p pml4 (ph_offset + i * ph_entry_size)))
          | inr overflow ↦ rw overflow (panicked, refl)
        ]

  conclude-Ends :
      (p : Physical) (entry_point : ℕ) (o : Option Progress)
      → Ends o
      → Ends (conclude pt p entry_point o)
  conclude-Ends p entry_point none (a, e) = absurd (ground (arith, e))
  conclude-Ends p entry_point (some panicked) h = (panicked, refl)
  conclude-Ends p entry_point (some (returned (true, p'))) h = (_, refl)
  conclude-Ends p entry_point (some (returned (false, p'))) h = (_, refl)

  pub load_elf-Ends :
      (elf : Bytes) (len : ℕ) (p : Physical) (pml4 : ℕ) → Ends (load_elf pt elf len p pml4)
  unfolding load_elf
  load_elf-Ends elf len p pml4 = elim (Bool-cases (ltb len 64)) [
    | inl short ↦ rw short (_, refl)
    | inr long ↦ elim (Bool-cases (has_magic pt elf)) [
      | inr other ↦ rw (long, other) (_, refl)
      | inl magic ↦ elim (Bool-cases (elf 4 == 2)) [
        | inr narrow ↦ rw (long, magic, narrow) (_, refl)
        | inl wide ↦
            rw (long, magic, wide)
              (conclude-Ends p (u64_at elf 0x18) _
                (load_from-Ends elf p pml4 _ _ 0 (u16_at elf 0x38)))
      ]
    ]
  ]
