-- ===== src/Heap/Alloc.antt =====
-- What `kmalloc` promises: a map from addresses to sizes, whose regions never overlap.
use tang_ping_os.Prelude.{
  ℕ, zero, suc, ◌+◌, ◌-◌, ◌*◌, ◌/◌, ◌%◌, ◌≤◌, ◌<◌, ◌≡◌, refl, inl, inr, ◌⊎◌, none, some, true,
  false, List, [], ◌∷◌, ◌++◌, ltb, ◌==◌, if◌then◌else◌, add64, Bool-cases, Option-cases, arith,
}
use tang_ping_os.Heap.{
  Block, Heap, Mapper, page_size, heap_base, heap_size, header_size, heap_align, align_up, take_fit,
  map_from, ensure_mapped, extend, kmalloc, heap_magic,
}
use tang_ping_os.Heap.Shape.{
  Tiled, Separated, used_at, Tiled-le, Tiled-append, used_at_within, used_at_apart, used_at_aligned,
  Separated-append, used_at-append, used_at_past,
}
use tang_ping_os.Heap.Take.{Taken, take_fit_lem}
use tang_ping_os.Heap.Headers.{AllMagic, AllMagic-append, AllMagic-take_fit}

module _ {M : Type 0} where
  pub record IsValid (h : Heap M) : Type 0 where
    pub tiled : Tiled heap_base h.next h.blocks
    pub separated : Separated false h.blocks
    pub fits : h.next ≤ heap_base + heap_size
    pub aligned : h.next % heap_align ≡ 0
    pub mapped : h.next ≤ h.mapped_end
    pub magic : AllMagic h.blocks

  -- What a successful `kmalloc` of `size` bytes at `ptr` does.
  pub record Allocated (h : Heap M) (size ptr : ℕ) (h' : Heap M) : Type 0 where
    pub addr : ℕ
    pub behind_header : ptr ≡ addr + header_size
    pub aligned : ptr % heap_align ≡ 0
    pub got : ℕ
    pub large : size ≤ got
    pub inside : (heap_base ≤ addr) × (ptr + got ≤ h'.mapped_end)
    pub used : (a : ℕ) → used_at h'.blocks a ≡ (if addr == a then some got else used_at h.blocks a)
    pub was_free : used_at h.blocks addr ≡ none
    pub apart :
        (a k : ℕ)
        → used_at h.blocks a ≡ some k
        → (a + header_size + k ≤ addr) ⊎ (addr + header_size + got ≤ a)
    pub valid : IsValid h'

-- Every free block is too small.
abbrev pub NoneFits : ℕ → List Block → Type 0
NoneFits size [] = Unit
NoneFits size (b ∷ bs) = (b.free ≡ true → b.size < size) × NoneFits size bs

take_fit-none : (size : ℕ) (bs : List Block) → take_fit size bs ≡ none → NoneFits size bs
unfolding take_fit
take_fit-none size [] e = tt
take_fit-none size (b ∷ bs) e = elim (Option-cases (take_fit size bs)) [
  | inl e' ↦ (λ f. ground arith, take_fit-none size bs e')
  | inr (r, e') ↦ ground arith
]

module _ {M : Type 0} (mapper : Mapper M) where
  map_from_lem :
      (left : ℕ) (m m' : M) (from to : ℕ)
      → map_from mapper left m from ≡ some (m', to)
      → to ≡ from + left * page_size
  unfolding map_from
  map_from_lem zero m m' from to e = ground arith
  map_from_lem (suc left) m m' from to e = elim (Option-cases (mapper.map_new_page m from)) [
    | inl e' ↦ ground arith
    | inr (m1, e') ↦ ground (arith, map_from_lem left m1 m' (from + page_size) to)
  ]

  ensure_mapped_lem :
      (m m' : M) (from end to : ℕ)
      → ensure_mapped mapper m from end ≡ some (m', to)
      → (end ≤ to) × (from ≤ to)
  unfolding ensure_mapped
  ensure_mapped_lem m m' from end to e =
      let at = map_from_lem ((end - from + (page_size - 1)) / page_size) m m' from to e in
      (omega arith, omega arith)

  -- The region that a valid heap has for a block is apart from the others.
  used_apart :
      (h : Heap M) (bs : List Block) (addr got : ℕ)
      → Tiled heap_base h.next bs
      → ((a : ℕ) → used_at bs a ≡ (if addr == a then some got else used_at h.blocks a))
      → used_at h.blocks addr ≡ none
      → (a k : ℕ) → used_at h.blocks a ≡ some k
      → (a + header_size + k ≤ addr) ⊎ (addr + header_size + got ≤ a)
  used_apart h bs addr got t used free a k u =
      let here : used_at bs addr ≡ some got = ground (arith, used addr) in
      let apart : (addr == a) ≡ false = elim (Bool-cases (addr == a)) [
        | inl same ↦ let eq : addr ≡ a = ground arith in ground arith
        | inr other ↦ other
      ] in
      let there : used_at bs a ≡ some k = ground (arith, used a) in
      elim (Bool-cases (ltb a addr)) [
        | inl low ↦ inl (used_at_apart heap_base h.next bs a addr k got t there here (ground arith))
        | inr high ↦
            inr (used_at_apart heap_base h.next bs addr a got k t here there (ground arith))
      ]

  taken_lem :
      (h : Heap M) (size addr : ℕ) (bs : List Block)
      → IsValid h
      → size ≤ heap_size
      → Taken false heap_base h.next h.blocks (align_up size) addr bs
      → AllMagic bs
      → Allocated h size (addr + header_size) (record h { blocks = bs })
  taken_lem h size addr bs v small r magic =
      let here : used_at bs addr ≡ some r.got = ground (arith, r.used addr) in
      let within = used_at_within heap_base h.next bs addr r.got r.tiled here in
      let large = r.large in
      let below = v.mapped in
      record {
        addr = addr;
        behind_header = refl;
        aligned =
            let whole = used_at_aligned heap_base h.next bs addr r.got r.tiled (omega arith) here in
            omega arith;
        got = r.got;
        large = omega arith;
        inside = (within.0, omega arith);
        used = r.used;
        was_free = r.was_free;
        apart = used_apart h bs addr r.got r.tiled r.used r.was_free;
        valid = record {
          tiled = r.tiled;
          separated = r.separated;
          fits = v.fits;
          aligned = v.aligned;
          mapped = v.mapped;
          magic = magic;
        };
      }

  extended :
      (h : Heap M) (size : ℕ) (m : M) (to : ℕ)
      → IsValid h
      → 0 < size
      → size ≤ heap_size
      → h.next + header_size + align_up size ≤ heap_base + heap_size
      → h.next + header_size + align_up size ≤ to
      → Allocated h size (h.next + header_size) (record {
        blocks =
            h.blocks
            ++ (record { addr = h.next; size = align_up size; free = false; magic = heap_magic }
                ∷ []);
        next = h.next + header_size + align_up size;
        mapped_end = to;
        maps = m;
      })
  extended h size m to v pos small room mapped =
      let whole = v.aligned in
      let fits = v.fits in
      let block : Block = record {
        addr = h.next;
        size = align_up size;
        free = false;
        magic = heap_magic;
      } in
      let used = λ (a : ℕ). used_at-append heap_base h.blocks block a refl v.tiled in
      let past = Tiled-le heap_base h.next h.blocks v.tiled in
      record {
        addr = h.next;
        behind_header = refl;
        aligned = omega arith;
        got = align_up size;
        large = omega arith;
        inside = (past, omega arith);
        used = used;
        was_free = used_at_past heap_base h.next h.blocks h.next v.tiled (omega arith);
        apart = λ a k u. inl (used_at_within heap_base h.next h.blocks a k v.tiled u).1;
        valid = record {
          tiled =
              Tiled-append heap_base h.next (h.next + header_size + align_up size) h.blocks
                (block ∷ []) v.tiled (refl, omega arith, omega arith, refl);
          separated = Separated-append false h.blocks block refl v.separated;
          fits = room;
          aligned = omega arith;
          mapped = mapped;
          magic = AllMagic-append h.blocks block v.magic refl;
        };
      }

  extend_lem :
      (h h' : Heap M) (size addr : ℕ)
      → IsValid h
      → 0 < size
      → size ≤ heap_size
      → extend mapper h (align_up size) ≡ some (addr, h')
      → Allocated h size (addr + header_size) h'
  unfolding extend
  extend_lem h h' size addr v pos small e =
      let fits = v.fits in
      let whole = v.aligned in
      let block : Block = record {
        addr = h.next;
        size = align_up size;
        free = false;
        magic = heap_magic;
      } in
      let end : ℕ = h.next + header_size + align_up size in
      let start_eq : align_up h.next ≡ h.next = omega arith in
      let end_eq : align_up (add64 (add64 h.next header_size) (align_up size)) ≡ end =
        omega arith in
      elim (Bool-cases (ltb (heap_base + heap_size) end)) [
        | inl over ↦ ground arith
        | inr room ↦ elim (Option-cases (ensure_mapped mapper h.maps h.mapped_end end)) [
          | inl failed ↦ ground arith
          | inr ((m, to), mapped) ↦
              let bs : List Block = h.blocks ++ (block ∷ []) in
              let new : Heap M = record { blocks = bs; next = end; mapped_end = to; maps = m } in
              let done : extend mapper h (align_up size) ≡ some (h.next, new) =
                rw (extend, start_eq, end_eq, room, mapped) (ground arith) in
              let at : h.next ≡ addr = ground arith in
              let put : new ≡ h' = ground arith in
              rw (← at, ← put)
                (extended h size m to v pos small (ground arith)
                  (ensure_mapped_lem h.maps m h.mapped_end end to mapped).0)
        ]
      ]

  -- On a valid heap, a `kmalloc` of 1 byte to 16 MiB panics only if no free block is large enough
  -- and a new block would end past the heap or cannot be mapped. Otherwise it returns an address
  -- that is a multiple of 16, behind the header of a block of at least that size that was not in
  -- use, within what is mapped and apart from every block in use; the other blocks in use are as
  -- they were, and the heap stays valid: its blocks leave no gap and no two neighbours are free.
  pub kmalloc_lem :
      (h : Heap M) (size : ℕ)
      → IsValid h
      → 0 < size
      → size ≤ heap_size
      → ((kmalloc mapper h size ≡ none)
          × NoneFits (align_up size) h.blocks
          × (extend mapper h (align_up size) ≡ none))
        ⊎ ((ptr : ℕ) × (h' : Heap M) × (kmalloc mapper h size ≡ some (ptr, h'))
            × Allocated h size ptr h')
  unfolding kmalloc
  kmalloc_lem h size v pos small =
      let fits = v.fits in
      let nonzero : (size == 0) ≡ false = ground arith in
      elim (Option-cases (take_fit (align_up size) h.blocks)) [
        | inr ((addr, bs), e) ↦ inr (
          addr + header_size,
          record h { blocks = bs },
          rw (nonzero, e) refl,
          taken_lem h size addr bs v small
              (take_fit_lem false heap_base h.next (align_up size) h.blocks bs addr fits
                (omega arith) (omega arith) v.tiled v.separated e)
              (AllMagic-take_fit (align_up size) addr h.blocks bs v.magic e),
        )
        | inl e ↦ elim (Option-cases (extend mapper h (align_up size))) [
          | inl e' ↦ inl (rw (nonzero, e, e') refl, take_fit-none (align_up size) h.blocks e, e')
          | inr ((addr, h'), e') ↦ inr (
            addr + header_size,
            h',
            rw (nonzero, e, e') refl,
            extend_lem h h' size addr v pos small e',
          )
        ]
      ]
