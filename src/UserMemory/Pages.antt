-- ===== src/UserMemory/Pages.antt =====
-- What the check of a range promises.
use nwin_os.Common.{
  ℕ, zero, suc, ◌+◌, ◌-◌, ◌*◌, ◌/◌, ◌^◌, ◌≤◌, ◌<◌, min, ◌≡◌, refl, Bool, true, false, ◌⊎◌, inl, inr,
  Option, some, leb, ltb_above, lt→ltb, ==_refl, ==_ne, dec_le, dec_lt, ℕ_discrete, Bool-cases,
  arith,
}
use nwin_os.Task.{Memory}
use nwin_os.UserMemory.{
  check_pages, check_range, is_valid_range, is_valid_user_memory, is_user_page_mapped, user_top,
  page_start,
}

leb-le : (a b : ℕ) → a ≤ b → leb a b ≡ true
leb-le a b h = ground arith

leb-gt : (a b : ℕ) → b < a → leb a b ≡ false
leb-gt a b h = ground arith

-- Pages `c` to `e`, by number, and the loop's answer.
abbrev AllMapped : (ℕ → Bool) → ℕ → ℕ → Type 0
AllMapped mapped c e = (p : ℕ) → c ≤ p → p ≤ e → mapped (p * 4096) ≡ true

abbrev SomeUnmapped : (ℕ → Bool) → ℕ → ℕ → Type 0
SomeUnmapped mapped c e = (p : ℕ) × (c ≤ p) × (p ≤ e) × (mapped (p * 4096) ≡ false)

abbrev Answer : (ℕ → Bool) → ℕ → ℕ → Option Bool → Type 0
Answer mapped c e r =
    ((r ≡ some true) × AllMapped mapped c e) ⊎ ((r ≡ some false) × SomeUnmapped mapped c e)

extend :
    (mapped : ℕ → Bool) (c e : ℕ) (r : Option Bool)
    → c ≤ e
    → mapped (c * 4096) ≡ true
    → Answer mapped (c + 1) e r
    → Answer mapped c e r
extend mapped c e r h m (inl (a, all)) = inl (
  a,
  λ p l u. elim (ℕ_discrete p c) [
    | yes same ↦ rw same m
    | no other ↦ all p (omega (arith, l, other)) u
  ],
)
extend mapped c e r h m (inr (a, (p, l, u, f))) = inr (a, (p, omega (arith, l), u, f))

check_pages-answers :
    (mapped : ℕ → Bool) (fuel c e : ℕ)
    → c ≤ e + 1
    → e + 1 < fuel + c
    → Answer mapped c e (check_pages mapped fuel (c * 4096) (e * 4096))
unfolding check_pages
check_pages-answers mapped zero c e le h = absurd (omega (arith, le, h))
check_pages-answers mapped (suc fuel) c e le h = elim (dec_le c e) [
  | no above ↦
      rw (leb-gt (c * 4096) (e * 4096) (omega (arith, above)))
        (inl (refl, λ p l u. absurd (omega (arith, above, l, u))))
  | yes below ↦ elim (Bool-cases (mapped (c * 4096))) [
    | inl m ↦
        let next : c * 4096 + 4096 ≡ (c + 1) * 4096 = omega arith in
        rw (leb-le (c * 4096) (e * 4096) (omega (arith, below)), m, next)
          (extend mapped c e _ below m
            (check_pages-answers mapped fuel (c + 1) e (omega (arith, below)) (omega (arith, h))))
    | inr f ↦
        rw (leb-le (c * 4096) (e * 4096) (omega (arith, below)), f)
          (inr (refl, (c, omega arith, below, f)))
  ]
]

-- Every byte of the range lies in the lower half and in a page that `mapped` accepts.
abbrev pub Usable : (ℕ → Bool) → ℕ → ℕ → Type 0
Usable mapped ptr len =
    (ptr + len ≤ user_top) × ((a : ℕ) → ptr ≤ a → a < ptr + len → mapped (page_start a) ≡ true)

-- What an answer of `is_valid_range` means.
abbrev pub Decides : (ℕ → Bool) → ℕ → ℕ → Option Bool → Type 0
Decides mapped ptr len r =
    ((r ≡ some true) × (0 < ptr) × ((len ≡ 0) ⊎ Usable mapped ptr len))
    ⊎ ((r ≡ some false) × ((ptr ≡ 0) ⊎ ((0 < len) × ¬ Usable mapped ptr len)))

module _ (mapped : ℕ → Bool) (ptr len : ℕ) (hp : 0 < ptr) (hl : 0 < len)
    (top : ptr + len ≤ user_top) where
  from_pages :
      (r : Option Bool)
      → Answer mapped (ptr / 4096) ((ptr + len - 1) / 4096) r
      → Decides mapped ptr len r
  from_pages r (inl (a, all)) =
      inl (a, hp, inr (top, λ b l u. all (b / 4096) (omega (arith, l)) (omega (arith, u))))
  from_pages r (inr (a, (p, l, u, f))) = inr (
    a,
    inr (
      hl,
      λ usable. elim (dec_le ptr (p * 4096)) [
        | yes starts_inside ↦
            clash (p * 4096) f (omega arith)
              (usable.1 (p * 4096) starts_inside (omega (arith, u, hl)))
        | no starts_before ↦
            clash ptr f (omega (arith, l, starts_before))
              (usable.1 ptr (omega arith) (omega (arith, hl)))
      ],
    ),
  )
    where
      clash :
          (b : ℕ)
          → mapped (p * 4096) ≡ false
          → page_start b ≡ p * 4096
          → mapped (page_start b) ≡ true
          → ⊥
      clash b f same m = ground (arith, f, same, m)

  check_range-Decides : Decides mapped ptr len (check_range mapped ptr (ptr + len))
  unfolding check_range
  check_range-Decides = from_pages _ (
      check_pages-answers mapped _ (ptr / 4096) ((ptr + len - 1) / 4096) (omega (arith, hl))
        (omega (arith, hl)))

-- The check always ends with an answer. It says yes exactly if the pointer is not null and either the
-- range is empty or it ends at 0x7FFFFFFFFFFF at most and the page of each of its bytes is mapped for
-- the user; it says no to a null pointer and to any other range. The pointer and the length are
-- machine words.
pub is_valid_user_memory-Decides :
    (m : Memory) (p4_phys ptr len : ℕ)
    → ptr < 2 ^ 64
    → len < 2 ^ 64
    → Decides (is_user_page_mapped m p4_phys) ptr len (is_valid_user_memory m p4_phys ptr len)
unfolding is_valid_user_memory is_valid_range
is_valid_user_memory-Decides m p4_phys ptr len hp hl = elim (ℕ_discrete ptr 0) [
  | yes null ↦ rw (null, ==_refl 0) (inr (refl, inl refl))
  | no given ↦ elim (dec_lt (2 ^ 63 - 1) len) [
    | yes long ↦
        rw (==_ne ptr 0 given, lt→ltb (2 ^ 63 - 1) len long)
          (inr (refl, inr (omega (arith, long), λ usable. omega (arith, usable.0, long))))
    | no short ↦ elim (ℕ_discrete len 0) [
      | yes none_asked ↦
          rw (==_ne ptr 0 given, none_asked) (inl (refl, omega (arith, given), inl refl))
      | no some_asked ↦ elim (dec_lt user_top (ptr + len)) [
        | yes beyond ↦
            rw
              (
                ==_ne ptr 0 given,
                ltb_above (2 ^ 63 - 1) len (omega (arith, short)),
                ==_ne len 0 some_asked,
                lt→ltb user_top (min (ptr + len) (2 ^ 64 - 1)) (omega (arith, beyond)),
              )
              (inr
                (refl, inr (omega (arith, some_asked), λ usable. omega (arith, usable.0, beyond))))
        | no inside ↦
            let whole : min (ptr + len) (2 ^ 64 - 1) ≡ ptr + len = omega (arith, inside) in
            rw
              (
                ==_ne ptr 0 given,
                ltb_above (2 ^ 63 - 1) len (omega (arith, short)),
                ==_ne len 0 some_asked,
                whole,
                ltb_above user_top (ptr + len) (omega (arith, inside)),
              )
              (check_range-Decides (is_user_page_mapped m p4_phys) ptr len (omega (arith, given))
                (omega (arith, some_asked)) (omega (arith, inside)))
      ]
    ]
  ]
]
