-- ===== src/Pmm/Run.antt =====
-- Allocating a run of pages.
use tang_ping_os.Prelude.{
  ℕ, zero, suc, ◌+◌, ◌*◌, ◌^◌, ◌≤◌, ◌<◌, ◌≡◌, refl, ◌∙◌, ◌⊎◌, inl, inr, none, some, Bool, true,
  false, ◌&&◌, ltb, leb, ◌==◌, if◌then◌else◌, Option-cases, arith,
}
use tang_ping_os.Pmm.{Pmm, page_size, test_bit, take_one}
use tang_ping_os.Pmm.Scan.{AllFree}
use tang_ping_os.Pmm.{pick_run, take_run, scan_run, alloc_contiguous_pages}
use tang_ping_os.Pmm.Scan.{scan_run-some, scan_run-none}
use tang_ping_os.Pmm.Alloc.{IsValid, take_one_lem}

-- Whether the page lies in the run.
abbrev pub in_run : ℕ → ℕ → ℕ → Bool
in_run start count j = leb start j && ltb j (start + count)

-- Whether the address lies in the pages of the run.
abbrev pub in_pages : ℕ → ℕ → ℕ → Bool
in_pages start count a = leb (start * page_size) a && ltb a ((start + count) * page_size)

-- Taking a free run marks its pages and no others, and counts that many free pages less.
take_run_lem :
    (count : ℕ) (s : Pmm) (start : ℕ)
    → IsValid s
    → start + count ≤ s.max_page_index
    → AllFree s.bitmap start (start + count)
    → let s' = take_run count s start in
      IsValid s'
      × ((j : ℕ)
          → test_bit s'.bitmap j ≡ (if in_run start count j then true else test_bit s.bitmap j))
      × (s'.free_count + count ≡ s.free_count)
      × ((a : ℕ) → s'.memory a ≡ (if in_pages start count a then 0 else s.memory a))
      × (s'.max_page_index ≡ s.max_page_index)
unfolding take_run
take_run_lem zero s start v fits free = (v, λ j. ground arith, omega arith, λ a. ground arith, refl)
take_run_lem (suc count) s start v fits free =
    let here : test_bit s.bitmap start ≡ false = free start (omega arith) (omega arith) in
    let (v1, bits, counted, zeroed, top, hint) = take_one_lem s start v (omega arith) here in
    let s1 : Pmm = take_one s start in
    let rest : AllFree s1.bitmap (start + 1) (start + 1 + count) =
      λ j h k. ground (arith, bits j, free j) in
    let (v2, bits', counted', zeroed', top') =
      take_run_lem count s1 (start + 1) v1 (omega (arith, top)) rest in
    (
      v2,
      λ j. ground (arith, bits' j, bits j),
      omega (arith, counted, counted'),
      λ a. ground (arith, zeroed' a, zeroed a),
      top' ∙ top,
    )

-- What a successful allocation of `count` pages at `phys` does.
pub record RunAllocated (s : Pmm) (count phys : ℕ) (s' : Pmm) : Type 0 where
  pub start : ℕ
  pub address : phys ≡ start * page_size
  pub managed : start + count ≤ s.max_page_index
  pub were_free : AllFree s.bitmap start (start + count)
  pub bits :
      (j : ℕ) → test_bit s'.bitmap j ≡ (if in_run start count j then true else test_bit s.bitmap j)
  pub counted : s'.free_count + count ≡ s.free_count
  pub zeroed : (a : ℕ) → s'.memory a ≡ (if in_pages start count a then 0 else s.memory a)
  pub valid : IsValid s'

pick_run-some :
    (s : Pmm) (count start : ℕ)
    → IsValid s
    → count < 2 ^ 63
    → pick_run s count ≡ some start
    → (start + count ≤ s.max_page_index) × AllFree s.bitmap start (start + count)
unfolding pick_run
pick_run-some s count start v small e =
    elim (Option-cases
      (scan_run (s.max_page_index + 1) s.bitmap s.next_hint s.max_page_index count)) [
        | inr (q, found) ↦
            let at : q ≡ start = ground arith in
            let (le, free) =
              scan_run-some (s.max_page_index + 1) s.bitmap s.next_hint s.max_page_index count q
                (omega (arith, v.hint)) (omega (arith, v.managed)) small found in
            rw (← at) (le, free)
        | inl missed ↦
            let found : scan_run (s.next_hint + 1) s.bitmap 0 s.next_hint count ≡ some start =
              ground arith in
            let (le, free) =
              scan_run-some (s.next_hint + 1) s.bitmap 0 s.next_hint count start (omega arith)
                (omega (arith, v.managed, v.hint)) small found in
            (omega (arith, le, v.hint), free)
      ]

-- In a valid state, `pmm_alloc_contiguous_pages` of a count between 1 and 2^63 either panics, and
-- then every run of that length that lies wholly below the hint, or between the hint and the
-- highest page, has a page in use; or it returns the address of a run that was free, marks its
-- pages and no others as used, counts that many free pages less, fills those pages and nothing
-- else with zeros and leaves a valid state. Of runs across the hint nothing is said.
pub alloc_contiguous_pages_lem :
    (s : Pmm) (count : ℕ)
    → IsValid s
    → 0 < count
    → count < 2 ^ 63
    → ((alloc_contiguous_pages s count ≡ none)
        × ((q : ℕ) → q + count ≤ s.next_hint → ¬ AllFree s.bitmap q (q + count))
        × ((q : ℕ)
            → s.next_hint ≤ q
            → q + count ≤ s.max_page_index
            → ¬ AllFree s.bitmap q (q + count)))
      ⊎ ((phys : ℕ) × (s' : Pmm) × (alloc_contiguous_pages s count ≡ some (phys, s'))
          × RunAllocated s count phys s')
unfolding alloc_contiguous_pages pick_run
alloc_contiguous_pages_lem s count v pos small =
    let nonzero : (count == 0) ≡ false = ground arith in
    elim (Option-cases (pick_run s count)) [
      | inl e ↦
          let (upper, lower) = missed e in
          inl (
            ground arith,
            λ q le.
                scan_run-none (s.next_hint + 1) s.bitmap 0 s.next_hint count (omega arith)
                  (omega (arith, v.managed, v.hint)) small lower q (omega arith) le pos,
            λ q ge le.
                scan_run-none (s.max_page_index + 1) s.bitmap s.next_hint s.max_page_index count
                  (omega arith) (omega (arith, v.managed)) small upper q ge le pos,
          )
      | inr (start, e) ↦
          let (le, free) = pick_run-some s count start v small e in
          let (ok, bits, counted, zeroed, top) = take_run_lem count s start v le free in
          inr (
            start * page_size,
            record (take_run count s start) { next_hint = start + count },
            ground arith,
            record {
              start = start;
              address = refl;
              managed = le;
              were_free = free;
              bits = bits;
              counted = counted;
              zeroed = zeroed;
              valid = record {
                words = ok.words;
                slots = ok.slots;
                managed = ok.managed;
                hint = omega (arith, top, le);
                counted = ok.counted;
              };
            },
          )
    ]
  where
    missed :
        pick_run s count ≡ none
        → (scan_run (s.max_page_index + 1) s.bitmap s.next_hint s.max_page_index count ≡ none)
          × (scan_run (s.next_hint + 1) s.bitmap 0 s.next_hint count ≡ none)
    missed e =
        elim (Option-cases
          (scan_run (s.max_page_index + 1) s.bitmap s.next_hint s.max_page_index count)) [
            | inl n ↦ (n, ground arith)
            | inr (q, found) ↦ ground arith
          ]
