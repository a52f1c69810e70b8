-- ===== src/Vmm/Level.antt =====
-- One level of a walk that maps a page: the table that the next level finds or makes.
use tang_ping_os.Prelude.{
  ℕ, ◌+◌, ◌*◌, ◌/◌, ◌^◌, ◌<◌, ◌≡◌, ◌⊎◌, refl, ap, ◌∙◌, inl, inr, none, some, true, false, ◌&&◌,
  List, ◌∷◌, read64-write64, has_bit, or64, ltb, leb, ◌==◌, if◌then◌else◌, arith, Bool-cases, ◌≤◌,
}
use tang_ping_os.Pmm.{Pmm, page_size, test_bit}
use tang_ping_os.Pmm.Alloc.{IsValid, alloc_page_lem}
use tang_ping_os.Pmm.Free.{free_below, free_below-AllUsed, free_below-le, alloc_page-top}
use tang_ping_os.Vmm.{present, user, read_entry, write_entry, next_level}
use tang_ping_os.Vmm.Path.{
  page_of, Pages, with_page, IsPath, SeenUsed, apart, write_entry-elsewhere, AllSmall, IsPath-agree,
  missing, missing-le, missing-agree, IsPath-fresh,
}
use tang_ping_os.Vmm.Entries.{IsLink, or64-table, table-IsLink, or64-IsLink}

-- The next table is the page `q`, and the state is `s'`.
pub record Next (s : Pmm) (seen : Pages) (p i : ℕ) (is : List ℕ) (q : ℕ) (s' : Pmm) : Type 0 where
  pub valid : IsValid s'
  pub used : SeenUsed s' (with_page p seen)
  pub path : IsPath s' (with_page p seen) q is
  pub link : IsLink (read_entry s'.memory (p * page_size) i)
  pub at : page_of (read_entry s'.memory (p * page_size) i) ≡ q
  pub top : s'.max_page_index ≡ s.max_page_index
  pub spent :
      (n : ℕ)
      → free_below s.bitmap n + missing s'.memory q is
        ≤ free_below s'.bitmap n + missing s.memory p (i ∷ is)
  pub kept : (a : ℕ) → seen (a / page_size) ≡ true → s'.memory a ≡ s.memory a

module _ (s : Pmm) (seen : Pages) (p i : ℕ) (is : List ℕ) (v : IsValid s)
    (seen_used : SeenUsed s seen) (small : i < 512) (small' : AllSmall is) where
  abbrev entry : ℕ
  entry = read_entry s.memory (p * page_size) i

  -- The table is there: its entry is opened for user space.
  Next-found :
      IsPath s seen p (i ∷ is)
      → has_bit entry present ≡ true
      → Next s seen p i is (page_of entry) (write_entry s (p * page_size) i (or64 entry (2 ^ user)))
  Next-found (u, n, next) found =
      let (word, w, g, path) = next found in
      let (link, addr, word') = or64-IsLink entry word found w g in
      let s' : Pmm = write_entry s (p * page_size) i (or64 entry (2 ^ user)) in
      let read : read_entry s'.memory (p * page_size) i ≡ or64 entry (2 ^ user) =
        read64-write64 s.memory (p * page_size + 8 * i) (or64 entry (2 ^ user)) word' in
      record {
        valid = record {
          words = v.words;
          slots = v.slots;
          managed = v.managed;
          hint = v.hint;
          counted = v.counted;
        };
        used = λ r h. elim (Bool-cases (r == p)) [
          | inl same ↦ let at : r ≡ p = ground arith in rw at u
          | inr other ↦ seen_used r (ground arith)
        ];
        path =
            IsPath-agree s s' (with_page p seen) (page_of entry) is small' refl
              (λ a h.
                write_entry-elsewhere s.memory p i (or64 entry (2 ^ user)) small a (ground arith))
              path;
        link = rw read link;
        at = rw read (omega (arith, addr));
        top = refl;
        spent = λ n'.
            let same =
              missing-agree s s' (with_page p seen) (page_of entry) is small'
                (λ a h.
                  write_entry-elsewhere s.memory p i (or64 entry (2 ^ user)) small a (ground arith))
                path in
            rw (same, found) (omega arith);
        kept = λ a h.
            write_entry-elsewhere s.memory p i (or64 entry (2 ^ user)) small a
              (apart seen (a / page_size) p h n);
      }

  fresh_unseen : (q : ℕ) → test_bit s.bitmap q ≡ false → seen q ≡ false
  fresh_unseen q free = elim (Bool-cases (seen q)) [
    | inr not_seen ↦ not_seen
    | inl was_seen ↦ absurd (ground (arith, seen_used q was_seen))
  ]

  -- The table is a new page.
  Next-created :
      (q : ℕ) (s1 : Pmm)
      → IsPath s seen p (i ∷ is)
      → test_bit s.bitmap q ≡ false
      → IsValid s1
      → ((r : ℕ) → test_bit s1.bitmap r ≡ (if q == r then true else test_bit s.bitmap r))
      → ((a : ℕ)
          → s1.memory a ≡ (
              if leb (q * page_size) a && ltb a (q * page_size + page_size) then 0 else s.memory a))
      → q < 2 ^ 40
      → s1.max_page_index ≡ s.max_page_index
      → has_bit entry present ≡ false
      → Next s seen p i is q (write_entry s1 (p * page_size) i (q * page_size + 7))
  Next-created q s1 (u, n, next) free valid bits zeroed top same_top absent =
      let s' : Pmm = write_entry s1 (p * page_size) i (q * page_size + 7) in
      let (link, addr) = table-IsLink q top in
      let read : read_entry s'.memory (p * page_size) i ≡ q * page_size + 7 =
        read64-write64 s1.memory (p * page_size + 8 * i) (q * page_size + 7) (omega arith) in
      let fresh = fresh_unseen q free in
      let other = apart (λ (r : ℕ). test_bit s.bitmap r) p q u free in
      record {
        valid = record {
          words = valid.words;
          slots = valid.slots;
          managed = valid.managed;
          hint = valid.hint;
          counted = valid.counted;
        };
        used = λ r h. elim (Bool-cases (r == p)) [
          | inl same ↦ let at : r ≡ p = ground arith in rw at (bits p ∙ ground (arith, u))
          | inr old ↦ bits r ∙ ground (arith, seen_used r (ground arith))
        ];
        path =
            IsPath-fresh s' (with_page p seen) q is (bits q ∙ ground arith) (ground arith) small'
              (λ a at.
                write_entry-elsewhere s1.memory p i (q * page_size + 7) small a (ground arith)
                ∙ zeroed a
                ∙ ground arith);
        link = rw read link;
        at = rw read (omega (arith, addr));
        top = same_top;
        spent = λ n'.
            rw absent (
              omega (arith, free_below-le s.bitmap s1.bitmap q n' bits, missing-le s'.memory q is));
        kept = λ a h.
            let far = apart seen (a / page_size) q h fresh in
            write_entry-elsewhere s1.memory p i (q * page_size + 7) small a
              (apart seen (a / page_size) p h n)
            ∙ zeroed a
            ∙ ground arith;
      }

  -- `vmm_next_level` for user space panics with fewer free pages than tables missing, or finds or makes the next table.
  pub next_level_lem :
      (flags : ℕ)
      → IsPath s seen p (i ∷ is)
      → has_bit flags user ≡ true
      → ((next_level s (p * page_size) i flags ≡ none)
          × (free_below s.bitmap s.max_page_index < missing s.memory p (i ∷ is)))
        ⊎ ((q : ℕ) × (s' : Pmm) × (next_level s (p * page_size) i flags ≡ some (q * page_size, s'))
            × Next s seen p i is q s')
  unfolding next_level
  next_level_lem flags path for_user = elim (Bool-cases (has_bit entry present)) [
    | inl found ↦
        let next = Next-found path found in
        inr (
          page_of entry,
          write_entry s (p * page_size) i (or64 entry (2 ^ user)),
          rw (found, for_user)
              (ap
                (λ (q : ℕ).
                  some (q * page_size, write_entry s (p * page_size) i (or64 entry (2 ^ user))))
                next.at),
          next,
        )
    | inr absent ↦ elim (alloc_page_lem s v) [
      | inl (panics, full) ↦ inl (
        rw (absent, panics) refl,
        rw absent (omega (arith, free_below-AllUsed s.bitmap s.max_page_index full)),
      )
      | inr (phys, s1, allocated, new) ↦
          let q : ℕ = new.page in
          let top : q < 2 ^ 40 = omega (arith, new.managed, v.managed) in
          let next =
            Next-created q s1 path new.was_free new.valid new.bits
              (λ a. new.zeroed a ∙ rw new.address refl) top (alloc_page-top s s1 phys allocated)
              absent in
          inr (
            q,
            write_entry s1 (p * page_size) i (q * page_size + 7),
            rw (absent, allocated, for_user, new.address, or64-table q top)
                (ap
                  (λ (r : ℕ).
                    some (r * page_size, write_entry s1 (p * page_size) i (q * page_size + 7)))
                  next.at),
            next,
          )
    ]
  ]
