-- ===== src/Vmm/Mapping.antt =====
-- Mapping a page, and the translation of its addresses afterwards.
use mathlib.Core.Option
use tang_ping_os.Prelude.{
  ℕ, ◌+◌, ◌*◌, ◌/◌, ◌%◌, ◌^◌, ◌<◌, ◌≡◌, ◌⊎◌, refl, sym, ap, ◌∙◌, inl, inr, Option, none, some, Bool,
  true, false, not, ◌&&◌, ◌||◌, List, [], ◌∷◌, ◌++◌, length-append, Memory, read64-write64, has_bit,
  length, leb, ◌==◌, if◌then◌else◌, arith, Option-cases,
}
use tang_ping_os.Pmm.{Pmm, page_size}
use tang_ping_os.Pmm.Alloc.{IsValid}
use tang_ping_os.Pmm.Free.{free_below}
use tang_ping_os.Vmm.{
  writable, user, addr_of, read_entry, write_entry, next_level, map_page_in, page_entry, pml4_index,
  pdpt_index, pd_index, pt_index, indices, walk_user, translate_user_addr, user_virt_max,
}
use tang_ping_os.Vmm.Walk.{page_indices, indices-page}
use tang_ping_os.Vmm.Entries.{IsLink, IsFlags, IsPage, page_entry_lem}
use tang_ping_os.Vmm.Path.{
  Pages, with_page, page_of, IsPath, SeenUsed, AllSmall, write_entry-elsewhere, read_entry-agree,
  apart, missing,
}
use tang_ping_os.Vmm.Level.{next_level_lem}

-- The levels that are left, and the entry `e` at the index `last` of the last table.
levels : Pmm → ℕ → List ℕ → ℕ → ℕ → ℕ → Option Pmm
levels s table [] last flags e = some (write_entry s table last e)
levels s table (i ∷ is) last flags e = elim (next_level s table i flags) [
  | none ↦ none
  | some (table', s') ↦ levels s' table' is last flags e
]

-- From the page `p` on, the entries lead to the entry `e`.
LeadsTo : Memory → ℕ → List ℕ → ℕ → ℕ → Type 0
LeadsTo m p [] last e = read_entry m (p * page_size) last ≡ e
LeadsTo m p (i ∷ is) last e =
    IsLink (read_entry m (p * page_size) i)
    × LeadsTo m (page_of (read_entry m (p * page_size) i)) is last e

levels_lem :
    (s : Pmm) (seen : Pages) (p : ℕ) (is : List ℕ) (last flags e : ℕ)
    → IsValid s
    → SeenUsed s seen
    → IsPath s seen p is
    → AllSmall is
    → last < 512
    → e < 2 ^ 64
    → has_bit flags user ≡ true
    → ((levels s (p * page_size) is last flags e ≡ none)
        × (free_below s.bitmap s.max_page_index < missing s.memory p is))
      ⊎ ((s' : Pmm) × (levels s (p * page_size) is last flags e ≡ some s')
          × LeadsTo s'.memory p is last e
          × ((a : ℕ) → seen (a / page_size) ≡ true → s'.memory a ≡ s.memory a))
unfolding levels LeadsTo
levels_lem s seen p [] last flags e v su (u, n) small sl word for_user = inr (
  write_entry s (p * page_size) last e,
  refl,
  read64-write64 s.memory (p * page_size + 8 * last) e word,
  λ a h. write_entry-elsewhere s.memory p last e sl a (apart seen (a / page_size) p h n),
)
levels_lem s seen p (i ∷ is) last flags e v su path (si, small) sl word for_user =
    elim (next_level_lem s seen p i is v su si small flags path for_user) [
      | inl (panics, few) ↦ inl (rw (levels, panics) refl, few)
      | inr (q, s1, step, next) ↦
          elim (levels_lem s1 (with_page p seen) q is last flags e next.valid next.used next.path
            small sl word for_user) [
              | inl (panics, few) ↦
                  let few' : free_below s1.bitmap s.max_page_index < missing s1.memory q is =
                    rw (← next.top) few in
                  inl (rw (levels, step) panics, omega (arith, few', next.spent s.max_page_index))
              | inr (s', done, leads, kept) ↦
                  let same : read_entry s'.memory (p * page_size) i
                      ≡ read_entry s1.memory (p * page_size) i =
                    read_entry-agree s1.memory s'.memory p i si (λ a at. kept a (ground arith)) in
                  inr (
                    s',
                    rw (levels, step) done,
                    rw same (next.link, rw next.at leads),
                    λ a h. kept a (ground arith) ∙ next.kept a h,
                  )
            ]
    ]

walk_user-LeadsTo :
    (m : Memory) (write : Bool) (virt p phys flags : ℕ) (is : List ℕ) (last e : ℕ)
    → LeadsTo m p is last e
    → IsPage e phys flags
    → has_bit flags user ≡ true
    → walk_user m write virt (is ++ (last ∷ [])) (p * page_size)
      ≡ (if write && not (has_bit flags writable) then none else some (phys + virt % page_size))
unfolding walk_user LeadsTo
walk_user-LeadsTo m write virt p phys flags [] last e leads page for_user =
    rw leads (ground (arith, page.is_present, page.same_user, page.same_writable, page.address))
walk_user-LeadsTo m write virt p phys flags (i ∷ is) last e (link, leads) page for_user =
    let more : (length (is ++ (last ∷ [])) == 0) ≡ false =
      ground (arith, length-append is (last ∷ [])) in
    let rest =
      walk_user-LeadsTo m write virt (page_of (read_entry m (p * page_size) i)) phys flags is last e
        leads page for_user in
    ground (arith, link.is_present, link.is_user, link.is_writable, link.not_huge)

-- The three calls of `vmm_next_level`, and the store after them.
map_page_in-levels :
    (s : Pmm) (cr3 virt phys flags : ℕ)
    → virt % page_size ≡ 0
    → phys % page_size ≡ 0
    → map_page_in s cr3 virt phys flags
      ≡ Option.map
          (λ (s' : Pmm). (true, s'))
          (levels s
            (addr_of cr3)
            (pml4_index virt ∷ pdpt_index virt ∷ pd_index virt ∷ [])
            (pt_index virt)
            flags
            (page_entry phys flags))
unfolding map_page_in levels
map_page_in-levels s cr3 virt phys flags whole whole' =
    let aligned : (not (virt % page_size == 0) || not (phys % page_size == 0)) ≡ false =
      ground arith in
    elim (Option-cases (next_level s (addr_of cr3) (pml4_index virt) flags)) [
      | inl e ↦ rw (aligned, levels, e) refl
      | inr ((pdpt, s1), e) ↦ elim (Option-cases (next_level s1 pdpt (pdpt_index virt) flags)) [
        | inl e1 ↦ rw (aligned, levels, e, e1) refl
        | inr ((pd, s2), e1) ↦ elim (Option-cases (next_level s2 pd (pd_index virt) flags)) [
          | inl e2 ↦ rw (aligned, levels, e, e1, e2) refl
          | inr ((pt, s3), e2) ↦ rw (aligned, levels, e, e1, e2) refl
        ]
      ]
    ]

same_indices :
    (virt i : ℕ) → virt % page_size ≡ 0 → i < page_size → indices (virt + i) ≡ indices virt
same_indices virt i whole lt =
    let page : (virt + i) / page_size ≡ virt / page_size = omega arith in
    indices-page (virt + i) ∙ ap page_indices page ∙ sym (indices-page virt)

-- Mapping a page of the user half to a physical page below 2^52, with flags for user space that
-- have no bit of an address, where the allocator is valid and the tables that are there are
-- different pages in use whose entries are words, writable and not huge: `vmm_map_page_in` panics,
-- and then fewer pages are free than tables are missing on the way to the page; or it succeeds, and from then on `vmm_translate_user_addr` takes every
-- address of the page to the address at the same offset in the physical page, for reading always,
-- and for writing exactly if the flags say so.
pub map_page_in-translates :
    (s : Pmm) (cr3 virt phys flags i : ℕ) (write : Bool)
    → IsValid s
    → IsPath s (λ r. false) (page_of cr3) (pml4_index virt ∷ pdpt_index virt ∷ pd_index virt ∷ [])
    → virt % page_size ≡ 0
    → virt < user_virt_max
    → phys % page_size ≡ 0
    → phys < 2 ^ 52
    → IsFlags flags
    → has_bit flags user ≡ true
    → i < page_size
    → ((map_page_in s cr3 virt phys flags ≡ none)
        × (free_below s.bitmap s.max_page_index
            < missing s.memory
                (page_of cr3)
                (pml4_index virt ∷ pdpt_index virt ∷ pd_index virt ∷ [])))
      ⊎ ((s' : Pmm) × (map_page_in s cr3 virt phys flags ≡ some (true, s'))
          × (translate_user_addr s'.memory cr3 (virt + i) write
              ≡ (if write && not (has_bit flags writable) then none else some (phys + i))))
unfolding translate_user_addr
map_page_in-translates s cr3 virt phys flags i write v path whole below whole' top ok for_user lt =
    let composed = map_page_in-levels s cr3 virt phys flags whole whole' in
    let at : phys / page_size * page_size ≡ phys = omega arith in
    let page : IsPage (page_entry phys flags) phys flags =
      rw (← at) (page_entry_lem (phys / page_size) flags (omega arith) ok) in
    elim (levels_lem s (λ r. false) (page_of cr3)
      (pml4_index virt ∷ pdpt_index virt ∷ pd_index virt ∷ []) (pt_index virt) flags
      (page_entry phys flags) v (λ r h. absurd (ground arith)) path
      (omega arith, (omega arith, (omega arith, tt))) (omega arith) page.is_word for_user) [
        | inl (panics, few) ↦ inl (composed ∙ rw panics refl, few)
        | inr (s', done, leads, kept) ↦
            let low : leb user_virt_max (virt + i) ≡ false = ground arith in
            let offset : (virt + i) % page_size ≡ i = omega arith in
            inr (
              s',
              composed ∙ rw done refl,
              rw (low, same_indices virt i whole lt)
                  (walk_user-LeadsTo s'.memory write (virt + i) (page_of cr3) phys flags
                      (pml4_index virt ∷ pdpt_index virt ∷ pd_index virt ∷ []) (pt_index virt)
                      (page_entry phys flags) leads page for_user
                    ∙ rw offset refl),
            )
      ]
