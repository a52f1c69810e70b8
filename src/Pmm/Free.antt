-- ===== src/Pmm/Free.antt =====
-- The number of free pages below an index, and what an allocation takes of it.
use tang_ping_os.Prelude.{
  ℕ, zero, suc, ◌+◌, ◌≤◌, ◌≡◌, refl, sym, ap, inl, inr, some, true, ltb, ◌==◌, if◌then◌else◌,
  Option-cases, arith,
}
use tang_ping_os.Pmm.{Pmm, Bitmap, test_bit, set_used, take_one, take_page, pick_page, alloc_page}
use tang_ping_os.Pmm.Scan.{AllUsed}

abbrev pub free_below : Bitmap → ℕ → ℕ
free_below b zero = 0
free_below b (suc n) = free_below b n + (if test_bit b n then 0 else 1)

pub free_below-AllUsed : (b : Bitmap) (n : ℕ) → AllUsed b 0 n → free_below b n ≡ 0
free_below-AllUsed b zero used = refl
free_below-AllUsed b (suc n) used = ground (
  arith,
  used n (omega arith) (omega arith),
  free_below-AllUsed b n (λ j ge lt. used j ge (omega arith)),
)

-- Taking one page makes one free page less at most.
free_below-taken :
    (b b' : Bitmap) (page n : ℕ)
    → ((j : ℕ) → test_bit b' j ≡ (if page == j then true else test_bit b j))
    → free_below b n ≤ free_below b' n + (if ltb page n then 1 else 0)
free_below-taken b b' page zero bits = omega arith
free_below-taken b b' page (suc n) bits = ground (arith, bits n, free_below-taken b b' page n bits)

pub free_below-le :
    (b b' : Bitmap) (page n : ℕ)
    → ((j : ℕ) → test_bit b' j ≡ (if page == j then true else test_bit b j))
    → free_below b n ≤ free_below b' n + 1
free_below-le b b' page n bits = ground (arith, free_below-taken b b' page n bits)

pub alloc_page-top :
    (s s' : Pmm) (phys : ℕ) → alloc_page s ≡ some (phys, s') → s'.max_page_index ≡ s.max_page_index
unfolding alloc_page take_page take_one set_used
alloc_page-top s s' phys e = elim (Option-cases (pick_page s)) [
  | inl e' ↦ ground arith
  | inr (page, e') ↦
      let same : take_page s page ≡ s' = ground arith in
      ap (λ (r : Pmm). r.max_page_index) (sym same)
]
