-- ===== src/Usercopy/Range.antt =====
-- The check of a range of user memory, against the translation of each of its addresses.
use tang_ping_os.Prelude.{
  ℕ, zero, suc, ◌+◌, ◌-◌, ◌/◌, ◌%◌, ◌^◌, ◌≤◌, ◌<◌, ◌≡◌, refl, sym, ap, ◌∙◌, ◌↔◌, inl, inr, Bool,
  true, false, ◌&&◌, Memory, ltb, ◌==◌, add64, is_some, arith, Bool-cases, Option-cases, ltb→lt,
  lt→ltb,
}
use tang_ping_os.Pmm.{page_size}
use tang_ping_os.Vmm.{translate_user_addr}
use tang_ping_os.Vmm.Walk.{translate_page, translate_user_addr-page}
use tang_ping_os.Usercopy.{min_u64, range_wraps, step_len, validate_from, validate_range}

pub min_u64_lem :
    (a b : ℕ) → (min_u64 a b ≤ a) × (min_u64 a b ≤ b) × (0 < a → 0 < b → 0 < min_u64 a b)
unfolding min_u64
min_u64_lem a b = (ground arith, ground arith, λ h k. ground arith)

-- How far a round gets.
pub step_len_lem :
    (addr left : ℕ)
    → (step_len addr left ≤ left)
      × (0 < left → 0 < step_len addr left)
      × (addr % page_size + step_len addr left ≤ page_size)
unfolding step_len min_u64
step_len_lem addr left = (ground arith, λ pos. ground arith, ground arith)

-- No address of the range [base, base + len) wraps around.
pub range_wraps_iff :
    (base len : ℕ)
    → base < 2 ^ 64
    → len < 2 ^ 64
    → (range_wraps base len ≡ false) ↔ (base + len ≤ 2 ^ 64)
unfolding range_wraps
range_wraps_iff base len b l = (λ e. ground arith, λ h. ground arith)

pub is_some-page :
    (m : Memory) (cr3 a : ℕ) (write : Bool)
    → is_some (translate_user_addr m cr3 a write)
      ≡ is_some (translate_page m cr3 (a / page_size) write)
is_some-page m cr3 a write =
    ap is_some (translate_user_addr-page m cr3 a write)
    ∙ elim (Option-cases (translate_page m cr3 (a / page_size) write)) [
      | inl e ↦ rw e refl
      | inr (p, e) ↦ rw e refl
    ]

-- The addresses that a round passes lie on one page, and are all translated if the first is.
pub translated_step :
    (m : Memory) (cr3 addr i left : ℕ) (write : Bool)
    → i < step_len addr left
    → is_some (translate_user_addr m cr3 (addr + i) write)
      ≡ is_some (translate_user_addr m cr3 addr write)
translated_step m cr3 addr i left write h =
    let page : (addr + i) / page_size ≡ addr / page_size =
      omega (arith, (step_len_lem addr left).2) in
    is_some-page m cr3 (addr + i) write
    ∙ ap (λ (p : ℕ). is_some (translate_page m cr3 p write)) page
    ∙ sym (is_some-page m cr3 addr write)

module _ (m : Memory) (cr3 base len : ℕ) (write : Bool) where
  -- From the offset `from` on, the addresses of the range are translated.
  abbrev pub AccessibleFrom : ℕ → Type 0
  AccessibleFrom from =
      (i : ℕ) → from ≤ i → i < len → is_some (translate_user_addr m cr3 (base + i) write) ≡ true

  -- The range lies in the address space and each of its addresses is translated.
  abbrev pub Accessible : Type 0
  Accessible = (base + len ≤ 2 ^ 64) × AccessibleFrom 0

  -- One round.
  pub AccessibleFrom-step :
      (from : ℕ)
      → from < len
      → is_some (translate_user_addr m cr3 (base + from) write) ≡ true
      → AccessibleFrom (from + step_len (base + from) (len - from))
      → AccessibleFrom from
  AccessibleFrom-step from lt here rest i ge lt' =
      elim (Bool-cases (ltb i (from + step_len (base + from) (len - from)))) [
        | inr far ↦ rest i (ground arith) lt'
        | inl near ↦
            let at : base + i ≡ base + from + (i - from) = omega arith in
            rw at (
              translated_step m cr3 (base + from) (i - from) (len - from) write (ground arith)
              ∙ here)
      ]

  pub no_wrap : (from : ℕ) → base + len ≤ 2 ^ 64 → from < len → add64 base from ≡ base + from
  no_wrap from h lt = omega arith

  pub validate_from_step :
      (fuel from : ℕ)
      → base + len ≤ 2 ^ 64
      → from < len
      → validate_from m cr3 base len (suc fuel) write from ≡ (
          is_some (translate_user_addr m cr3 (base + from) write)
          && validate_from m cr3 base len fuel write (from + step_len (base + from) (len - from)))
  unfolding validate_from
  validate_from_step fuel from top lt =
      rw (lt→ltb from len lt, no_wrap from top lt)
        (elim (Option-cases (translate_user_addr m cr3 (base + from) write)) [
          | inl missing ↦ rw missing refl
          | inr (phys, here) ↦ rw here (
              ap
                (λ (a : ℕ).
                  validate_from m cr3 base len fuel write (from + step_len a (len - from)))
                (no_wrap from top lt))
        ])

  validate_from_sound :
      (fuel from : ℕ)
      → len ≤ from + fuel
      → base + len ≤ 2 ^ 64
      → validate_from m cr3 base len fuel write from ≡ true
      → AccessibleFrom from
  validate_from_sound zero from h top e i ge lt = absurd (omega arith)
  validate_from_sound (suc fuel) from h top e i ge lt =
      let (short, moves, inside) = step_len_lem (base + from) (len - from) in
      let step = validate_from_step fuel from top (omega arith) in
      AccessibleFrom-step from (omega arith) (ground arith)
        (validate_from_sound fuel (from + step_len (base + from) (len - from))
          (omega (arith, moves (omega arith))) top (ground arith))
        i ge lt

  validate_from_complete :
      (fuel from : ℕ)
      → base + len ≤ 2 ^ 64
      → AccessibleFrom from
      → validate_from m cr3 base len fuel write from ≡ true
  unfolding validate_from
  validate_from_complete zero from top a = refl
  validate_from_complete (suc fuel) from top a = elim (Bool-cases (ltb from len)) [
    | inr end ↦ rw end refl
    | inl more ↦
        let next : ℕ = from + step_len (base + from) (len - from) in
        let rest = validate_from_complete fuel next top (λ i ge lt. a i (omega arith) lt) in
        validate_from_step fuel from top (ltb→lt from len more)
        ∙ rw (a from (omega arith) (ltb→lt from len more), rest) refl
  ]

  -- A range of user memory is accepted exactly if it does not wrap around and each of its bytes,
  -- not only the first of each page, may be accessed in that way.
  pub validate_range_iff :
      base < 2 ^ 64 → len < 2 ^ 64 → (validate_range m cr3 base len write ≡ true) ↔ Accessible
  unfolding validate_range
  validate_range_iff b l = elim (Bool-cases (len == 0)) [
    | inl empty ↦ (λ e. (ground arith, λ i ge lt. absurd (ground arith)), λ a. rw empty refl)
    | inr some_left ↦ elim (Bool-cases (range_wraps base len)) [
      | inl wraps ↦ (
        λ e. absurd (ground arith),
        λ a. absurd (ground (arith, (range_wraps_iff base len b l).1 a.0)),
      )
      | inr fits ↦
          let top = (range_wraps_iff base len b l).0 fits in
          (
            λ e. (top, validate_from_sound len 0 (omega arith) top (ground arith)),
            λ a. rw (some_left, fits) (validate_from_complete len 0 top a.1),
          )
    ]
  ]
