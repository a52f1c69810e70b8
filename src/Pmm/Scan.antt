-- ===== src/Pmm/Scan.antt =====
-- The searches through the bitmap.
use tang_ping_os.Prelude.{
  ℕ, zero, suc, ◌+◌, ◌≤◌, ◌<◌, ◌≡◌, inl, inr, none, some, true, false, Bool-cases, arith, ◌==◌, leb,
  add64, Option-cases, ◌^◌,
}
use tang_ping_os.Pmm.{Bitmap, test_bit, find_free, first_used, scan_run}

-- Every page from `from` on and below `to` is in use.
abbrev pub AllUsed : Bitmap → ℕ → ℕ → Type 0
AllUsed b from to = (j : ℕ) → from ≤ j → j < to → test_bit b j ≡ true

abbrev pub AllFree : Bitmap → ℕ → ℕ → Type 0
AllFree b from to = (j : ℕ) → from ≤ j → j < to → test_bit b j ≡ false

AllUsed-cons :
    (b : Bitmap) (from to : ℕ)
    → test_bit b from ≡ true
    → AllUsed b (from + 1) to
    → AllUsed b from to
AllUsed-cons b from to u all j h k = elim (Bool-cases (from == j)) [
  | inl e ↦ let at : from ≡ j = ground arith in rw (← at) u
  | inr e ↦ all j (ground arith) k
]

pub find_free-some :
    (left : ℕ) (b : Bitmap) (page q : ℕ)
    → find_free left b page ≡ some q
    → (page ≤ q) × (q < page + left) × (test_bit b q ≡ false) × AllUsed b page q
unfolding find_free
find_free-some zero b page q e = cc
find_free-some (suc left) b page q e = elim (Bool-cases (test_bit b page)) [
  | inr free ↦
      let at : page ≡ q = ground arith in
      (omega arith, omega arith, rw (← at) free, λ j h k. absurd (omega arith))
  | inl used ↦
      let later : find_free left b (page + 1) ≡ some q = ground arith in
      let (ge, lt, free, below) = find_free-some left b (page + 1) q later in
      (omega arith, omega arith, free, AllUsed-cons b page q used below)
]

pub find_free-none :
    (left : ℕ) (b : Bitmap) (page : ℕ) → find_free left b page ≡ none → AllUsed b page (page + left)
unfolding find_free
find_free-none zero b page e = λ j h k. absurd (omega arith)
find_free-none (suc left) b page e = elim (Bool-cases (test_bit b page)) [
  | inr free ↦ λ j h k. ground arith
  | inl used ↦
      let later : find_free left b (page + 1) ≡ none = ground arith in
      AllUsed-cons b page (page + suc left) used
        (λ j h k. find_free-none left b (page + 1) later j h (omega arith))
]

pub first_used-none :
    (left : ℕ) (b : Bitmap) (start i : ℕ)
    → first_used left b start i ≡ none
    → AllFree b (start + i) (start + i + left)
unfolding first_used
first_used-none zero b start i e j h k = absurd (omega arith)
first_used-none (suc left) b start i e j h k = elim (Bool-cases (test_bit b (start + i))) [
  | inl used ↦ ground arith
  | inr free ↦ elim (Bool-cases (start + i == j)) [
    | inl here ↦ let at : start + i ≡ j = ground arith in rw (← at) free
    | inr there ↦ first_used-none left b start (i + 1) (ground arith) j (ground arith) (omega arith)
  ]
]

pub first_used-some :
    (left : ℕ) (b : Bitmap) (start i q : ℕ)
    → first_used left b start i ≡ some q
    → (i ≤ q) × (q < i + left) × (test_bit b (start + q) ≡ true)
unfolding first_used
first_used-some zero b start i q e = cc
first_used-some (suc left) b start i q e = elim (Bool-cases (test_bit b (start + i))) [
  | inl used ↦ let at : i ≡ q = ground arith in (omega arith, omega arith, rw (← at) used)
  | inr free ↦
      let (ge, lt, used) = first_used-some left b start (i + 1) q (ground arith) in
      (omega arith, omega arith, used)
]

-- A run that is found is free and ends by the limit.
pub scan_run-some :
    (fuel : ℕ) (b : Bitmap) (start limit count q : ℕ)
    → start ≤ limit + 1
    → limit < 2 ^ 63
    → count < 2 ^ 63
    → scan_run fuel b start limit count ≡ some q
    → (q + count ≤ limit) × AllFree b q (q + count)
unfolding scan_run
scan_run-some zero b start limit count q ge l c e = cc
scan_run-some (suc fuel) b start limit count q ge l c e =
    elim (Bool-cases (leb (add64 start count) limit)) [
      | inr past ↦ ground arith
      | inl fits ↦
          let inside : start + count ≤ limit = ground arith in
          elim (Option-cases (first_used count b start 0)) [
            | inl free ↦
                let at : start ≡ q = ground arith in
                rw (← at) (
                  inside,
                  λ j h k. first_used-none count b start 0 free j (omega arith) (omega arith),
                )
            | inr (i, used) ↦
                let (_, lt, hit) = first_used-some count b start 0 i used in
                scan_run-some fuel b (start + i + 1) limit count q (omega arith) l c (ground arith)
          ]
    ]

-- If no run is found, every run of that length from `start` on and up to the limit has a page in
-- use.
pub scan_run-none :
    (fuel : ℕ) (b : Bitmap) (start limit count : ℕ)
    → limit < start + fuel
    → limit < 2 ^ 63
    → count < 2 ^ 63
    → scan_run fuel b start limit count ≡ none
    → (q : ℕ) → start ≤ q
    → q + count ≤ limit
    → 0 < count
    → ¬ AllFree b q (q + count)
unfolding scan_run
scan_run-none zero b start limit count enough l c e q ge le pos all = absurd (omega arith)
scan_run-none (suc fuel) b start limit count enough l c e q ge le pos all =
    elim (Bool-cases (leb (add64 start count) limit)) [
      | inr past ↦ absurd (ground arith)
      | inl fits ↦ elim (Option-cases (first_used count b start 0)) [
        | inl free ↦ ground arith
        | inr (i, used) ↦
            let (ge', lt, hit) = first_used-some count b start 0 i used in
            let rest : scan_run fuel b (start + i + 1) limit count ≡ none = ground arith in
            elim (Bool-cases (leb (start + i + 1) q)) [
              | inl beyond ↦
                  scan_run-none fuel b (start + i + 1) limit count (omega arith) l c rest q
                    (ground arith) le pos all
              | inr within ↦
                  let free : test_bit b (start + i) ≡ false =
                    all (start + i) (ground arith) (ground arith) in
                  cc
            ]
      ]
    ]
