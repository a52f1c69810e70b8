-- ===== src/Heap/Free.antt =====
-- What `kfree` promises: it gives back a block in use, and no other.
use tang_ping_os.Prelude.{
  ℕ, ◌<◌, ◌≡◌, inl, inr, ◌⊎◌, none, true, false, ◌==◌, ◌||◌, not, if◌then◌else◌, sub64, Bool-cases,
  arith, is_some,
}
use tang_ping_os.Heap.{Heap, heap_base, header_size, kfree, Header, panic, astray, freed}
use tang_ping_os.Heap.Shape.{used_at}
use tang_ping_os.Heap.Headers.{
  AllMagic-free_block, looks_used, is_block, free_block-outside, header_at-outside,
  header_at-inside,
}
use tang_ping_os.Heap.Release.{free_block_lem}
use tang_ping_os.Heap.Alloc.{IsValid}

-- On a valid heap, `kfree` of an address other than the null pointer frees the block there exactly if
-- it is in use: then that block is in use no more, every other block in use is as it was, and the
-- heap stays valid, the block being merged with its free neighbours. It panics where a free block
-- lies, and where no block lies and the bytes there do not pass for the
-- header of a block in use. It goes astray exactly where no block lies and those bytes do.
pub kfree_lem :
    {M : Type 0} (lies : ℕ → Header) (h : Heap M) (ptr : ℕ)
    → IsValid h
    → 0 < ptr
    → let addr = sub64 ptr header_size in
      ((kfree lies h ptr ≡ panic)
        × (used_at h.blocks addr ≡ none)
        × ((is_block h.blocks addr || not (looks_used (lies addr))) ≡ true))
      ⊎ (((kfree lies h ptr ≡ astray)
            × (is_block h.blocks addr ≡ false)
            × (looks_used (lies addr) ≡ true))
          ⊎ ((h' : Heap M) × (kfree lies h ptr ≡ freed h')
              × (is_some (used_at h.blocks addr) ≡ true)
              × ((a : ℕ) → used_at h'.blocks a ≡ (if addr == a then none else used_at h.blocks a))
              × IsValid h'))
unfolding kfree
kfree_lem lies h ptr v pos =
    let addr : ℕ = sub64 ptr header_size in
    let nonzero : (ptr == 0) ≡ false = ground arith in
    elim (Bool-cases (is_block h.blocks addr)) [
      | inr outside ↦
          let (there, unused) = header_at-outside lies h.blocks addr outside in
          let gone = free_block-outside h.blocks addr outside in
          elim (Bool-cases (looks_used (lies addr))) [
            | inl taken ↦ inr (inl (rw there (ground arith), outside, taken))
            | inr refused ↦ inl (rw there (ground arith), unused, ground arith)
          ]
      | inl inside ↦
          let header = header_at-inside lies h.blocks addr v.magic inside in
          elim (Bool-cases (is_some (used_at h.blocks addr))) [
            | inr free ↦ inl (ground arith, ground arith, ground arith)
            | inl used ↦
                let (bs, e, r) =
                  free_block_lem heap_base h.next h.blocks addr v.tiled v.separated used in
                inr (
                  inr (
                    record h { blocks = bs },
                    rw e (ground arith),
                    used,
                    r.used,
                    record {
                      tiled = r.tiled;
                      separated = r.separated;
                      fits = v.fits;
                      aligned = v.aligned;
                      mapped = v.mapped;
                      magic = AllMagic-free_block h.blocks bs addr v.magic e;
                    },
                  ))
          ]
    ]
