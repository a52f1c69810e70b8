-- ===== src/Pmm/Alloc.antt =====
-- The allocator's invariant, and what allocating and freeing one page do.
use tang_ping_os.Prelude.{
  ℕ, ◌+◌, ◌-◌, ◌*◌, ◌/◌, ◌%◌, ◌≤◌, ◌<◌, ◌≡◌, refl, ◌⊎◌, inl, inr, none, some, Bool, true, false,
  ◌&&◌, length, ltb, leb, ◌==◌, if◌then◌else◌, Bool-cases, Option-cases, arith,
}
use tang_ping_os.Pmm.{
  Pmm, page_size, max_pages, bitmap_words, test_bit, write_bit, set_used, set_free, zero_page,
  take_one, find_free, pick_page, take_page, alloc_page, free_page,
}
use tang_ping_os.Pmm.Bits.{
  WordsOk, capacity, clear_bits, clear_bits-le, free_bit, write_bit-WordsOk, length-write_bit,
  test_bit-write_bit, clear_bits-write_bit,
}
use tang_ping_os.Pmm.Scan.{AllUsed, find_free-some, find_free-none}

pub record IsValid (s : Pmm) : Type 0 where
  pub words : WordsOk s.bitmap
  pub slots : length s.bitmap ≡ bitmap_words
  pub managed : s.max_page_index ≤ max_pages
  pub hint : s.next_hint ≤ s.max_page_index
  pub counted : s.free_count ≡ clear_bits s.bitmap

-- The bitmap of `s'` is that of `s` with the bit of `page` written, and the count follows.
pub record Wrote (s : Pmm) (page : ℕ) (v : Bool) (s' : Pmm) : Type 0 where
  pub words : WordsOk s'.bitmap
  pub slots : length s'.bitmap ≡ bitmap_words
  pub counted : s'.free_count ≡ clear_bits s'.bitmap
  pub moved : s'.free_count + free_bit (test_bit s.bitmap page) ≡ s.free_count + free_bit v
  pub bits : (j : ℕ) → test_bit s'.bitmap j ≡ (if page == j then v else test_bit s.bitmap j)

write_bit-Wrote :
    (s s' : Pmm) (page : ℕ) (v : Bool)
    → IsValid s
    → page < max_pages
    → s'.bitmap ≡ write_bit s.bitmap page v
    → s'.free_count + free_bit (test_bit s.bitmap page) ≡ s.free_count + free_bit v
    → Wrote s page v s'
write_bit-Wrote s s' page v ok h same moved =
    let inside : page < capacity s.bitmap = omega (arith, ok.slots) in
    let clear = clear_bits-write_bit s.bitmap ok.words page inside v in
    record {
      words = rw same (write_bit-WordsOk s.bitmap ok.words page inside v);
      slots = rw same (omega (arith, length-write_bit s.bitmap ok.words page inside v, ok.slots));
      counted = rw same (omega (arith, clear, moved, ok.counted));
      moved = moved;
      bits = λ j. rw same (test_bit-write_bit s.bitmap ok.words page inside v j);
    }

module _ (s : Pmm) (page : ℕ) (v : IsValid s) (h : page < max_pages) where
  inside : page < capacity s.bitmap
  inside = omega (arith, v.slots)

  pub set_used-Wrote : Wrote s page true (set_used s page)
  unfolding set_used
  set_used-Wrote = write_bit-Wrote s (set_used s page) page true v h refl (
      ground (
        arith,
        clear_bits-write_bit s.bitmap v.words page inside true,
        clear_bits-le s.bitmap v.words,
        v.counted,
        v.slots,
      ))

  pub set_free-Wrote : Wrote s page false (set_free s page)
  unfolding set_free
  set_free-Wrote =
      write_bit-Wrote s (set_free s page) page false v h refl
        (ground (arith, clear_bits-le s.bitmap v.words, v.counted, v.slots))

-- What a successful allocation of the page at `phys` does.
pub record Allocated (s : Pmm) (phys : ℕ) (s' : Pmm) : Type 0 where
  pub page : ℕ
  pub address : phys ≡ page * page_size
  pub managed : page < s.max_page_index
  pub was_free : test_bit s.bitmap page ≡ false
  pub bits : (j : ℕ) → test_bit s'.bitmap j ≡ (if page == j then true else test_bit s.bitmap j)
  pub counted : s'.free_count + 1 ≡ s.free_count
  pub zeroed :
      (a : ℕ) → s'.memory a ≡ (if leb phys a && ltb a (phys + page_size) then 0 else s.memory a)
  pub valid : IsValid s'

pick_page-some :
    (s : Pmm) (page : ℕ)
    → IsValid s
    → pick_page s ≡ some page
    → (page < s.max_page_index) × (test_bit s.bitmap page ≡ false)
unfolding pick_page
pick_page-some s page v e =
    elim (Option-cases (find_free (s.max_page_index - s.next_hint) s.bitmap s.next_hint)) [
      | inr (q, found) ↦
          let (ge, lt, free, below) =
            find_free-some (s.max_page_index - s.next_hint) s.bitmap s.next_hint q found in
          let at : q ≡ page = ground arith in (omega (arith, v.hint), rw (← at) free)
      | inl missed ↦
          let found : find_free s.next_hint s.bitmap 0 ≡ some page = ground arith in
          let (ge, lt, free, below) = find_free-some s.next_hint s.bitmap 0 page found in
          (omega (arith, v.hint), free)
    ]

pick_page-none : (s : Pmm) → IsValid s → pick_page s ≡ none → AllUsed s.bitmap 0 s.max_page_index
unfolding pick_page
pick_page-none s v e j h k =
    elim (Option-cases (find_free (s.max_page_index - s.next_hint) s.bitmap s.next_hint)) [
      | inr (q, found) ↦ ground arith
      | inl missed ↦
          let missed' : find_free s.next_hint s.bitmap 0 ≡ none = ground arith in
          elim (Bool-cases (ltb j s.next_hint)) [
            | inl low ↦ find_free-none s.next_hint s.bitmap 0 missed' j h (ground arith)
            | inr high ↦
                find_free-none (s.max_page_index - s.next_hint) s.bitmap s.next_hint missed j
                  (ground arith) (omega (arith, v.hint))
          ]
    ]

-- Taking one page: a step of both allocations.
pub take_one_lem :
    (s : Pmm) (page : ℕ)
    → IsValid s
    → page < s.max_page_index
    → test_bit s.bitmap page ≡ false
    → let s' = take_one s page in
      IsValid s'
      × ((j : ℕ) → test_bit s'.bitmap j ≡ (if page == j then true else test_bit s.bitmap j))
      × (s'.free_count + 1 ≡ s.free_count)
      × ((a : ℕ)
          → s'.memory a ≡ (
              if leb (page * page_size) a && ltb a (page * page_size + page_size)
              then 0
              else s.memory a))
      × (s'.max_page_index ≡ s.max_page_index)
      × (s'.next_hint ≡ s.next_hint)
unfolding take_one zero_page set_used
take_one_lem s page v lt free =
    let w = set_used-Wrote s page v (omega (arith, v.managed)) in
    (
      record {
        words = w.words;
        slots = w.slots;
        managed = v.managed;
        hint = v.hint;
        counted = w.counted;
      },
      w.bits,
      let m = w.moved in ground arith,
      λ a. refl,
      refl,
      refl,
    )

take_page-Allocated :
    (s : Pmm) (page : ℕ)
    → IsValid s
    → page < s.max_page_index
    → test_bit s.bitmap page ≡ false
    → Allocated s (page * page_size) (take_page s page)
unfolding take_page
take_page-Allocated s page v lt free =
    let (ok, bits, counted, zeroed, top, hint) = take_one_lem s page v lt free in
    record {
      page = page;
      address = refl;
      managed = lt;
      was_free = free;
      bits = bits;
      counted = counted;
      zeroed = zeroed;
      valid = record {
        words = ok.words;
        slots = ok.slots;
        managed = ok.managed;
        hint = omega (arith, top);
        counted = ok.counted;
      };
    }

-- In a valid state, `pmm_alloc_page` panics only if every page below the highest is in use.
-- Otherwise it returns the address of a page that was free, marks that page and no other as used,
-- counts one free page less, fills the page and nothing else with zeros, and leaves a valid
-- state.
pub alloc_page_lem :
    (s : Pmm)
    → IsValid s
    → ((alloc_page s ≡ none) × AllUsed s.bitmap 0 s.max_page_index)
      ⊎ ((phys : ℕ) × (s' : Pmm) × (alloc_page s ≡ some (phys, s')) × Allocated s phys s')
unfolding alloc_page
alloc_page_lem s v = elim (Option-cases (pick_page s)) [
  | inl e ↦ inl (ground arith, pick_page-none s v e)
  | inr (page, e) ↦
      let (lt, free) = pick_page-some s page v e in
      inr (page * page_size, take_page s page, ground arith, take_page-Allocated s page v lt free)
]

-- In a valid state, `pmm_free_page` panics only on an address that is not a page's or is past the
-- highest page. Otherwise it marks that page and no other as free, counts one free page more if
-- it was in use, leaves memory alone and leaves a valid state.
pub free_page_lem :
    (s : Pmm) (phys : ℕ)
    → IsValid s
    → ((free_page s phys ≡ none) × ((phys % page_size ≡ 0) → s.max_page_index ≤ phys / page_size))
      ⊎ ((s' : Pmm) × (free_page s phys ≡ some s')
          × (phys % page_size ≡ 0)
          × (phys / page_size < s.max_page_index)
          × Wrote s (phys / page_size) false s'
          × ((a : ℕ) → s'.memory a ≡ s.memory a)
          × IsValid s')
unfolding free_page set_free
free_page_lem s phys v = elim (Bool-cases (phys % page_size == 0)) [
  | inr odd ↦ inl (ground arith, λ z. ground arith)
  | inl whole ↦ elim (Bool-cases (leb s.max_page_index (phys / page_size))) [
    | inl past ↦ inl (ground arith, λ z. ground arith)
    | inr within ↦
        let page : ℕ = phys / page_size in
        let s' : Pmm = record (set_free s page) {
          next_hint = if ltb page s.next_hint then page else s.next_hint;
        } in
        let lt : page < s.max_page_index = ground arith in
        let w = set_free-Wrote s page v (omega (arith, v.managed)) in
        inr (
          s',
          rw (whole, within) refl,
          ground arith,
          lt,
          record {
            words = w.words;
            slots = w.slots;
            counted = w.counted;
            moved = w.moved;
            bits = w.bits;
          },
          λ a. refl,
          record {
            words = w.words;
            slots = w.slots;
            managed = v.managed;
            hint = ground (arith, v.hint);
            counted = w.counted;
          },
        )
  ]
]
