-- ===== src/Heap/Headers.antt =====
-- The headers of blocks: their magic number, and what is read at an address that is no block's.
use tang_ping_os.Prelude.{
  ℕ, ◌≡◌, refl, inl, inr, none, some, Bool, true, false, List, [], ◌∷◌, ◌==◌, ◌&&◌, ◌||◌, not, ◌++◌,
  leb, ltb, add64, Bool-cases, Option-cases, arith, is_some,
}
use tang_ping_os.Heap.{
  Block, Header, heap_magic, heap_align, header_size, header_at, take_fit, split_block, merge_next,
  merge_prev, free_after, free_block,
}
use tang_ping_os.Heap.Shape.{used_at}

-- Whether what `kfree` reads passes for the header of a block in use.
abbrev pub looks_used : Header → Bool
looks_used h = h.magic == heap_magic && not h.free

abbrev pub is_block : List Block → ℕ → Bool
is_block [] addr = false
is_block (b ∷ bs) addr = b.addr == addr || is_block bs addr

abbrev pub AllMagic : List Block → Type 0
AllMagic [] = Unit
AllMagic (b ∷ bs) = (b.magic ≡ heap_magic) × AllMagic bs

pub AllMagic-append :
    (bs : List Block) (b : Block) → AllMagic bs → b.magic ≡ heap_magic → AllMagic (bs ++ (b ∷ []))
AllMagic-append [] b a m = (m, tt)
AllMagic-append (c ∷ bs) b (m', a) m = (m', AllMagic-append bs b a m)

pub AllMagic-take_fit :
    (size addr : ℕ) (bs bs' : List Block)
    → AllMagic bs
    → take_fit size bs ≡ some (addr, bs')
    → AllMagic bs'
unfolding take_fit split_block
AllMagic-take_fit size addr [] bs' a e = ground arith
AllMagic-take_fit size addr (b ∷ bs) bs' (m, a) e = elim (Bool-cases (b.free && leb size b.size)) [
  | inl fits ↦ elim (Bool-cases (ltb b.size (add64 (add64 size header_size) heap_align))) [
    | inl whole ↦ let new : record b { free = false } ∷ bs ≡ bs' = ground arith in rw (← new) (m, a)
    | inr split ↦
        let new : split_block b size ++ bs ≡ bs' = ground arith in rw (← new, split) (m, (refl, a))
  ]
  | inr next ↦ elim (Option-cases (take_fit size bs)) [
    | inl e' ↦ ground arith
    | inr ((addr', l), e') ↦
        let new : b ∷ l ≡ bs' = ground arith in
        rw (← new) (m, AllMagic-take_fit size addr' bs l a e')
  ]
]

AllMagic-merge_next :
    (b : Block) (bs : List Block) → b.magic ≡ heap_magic → AllMagic bs → AllMagic (merge_next b bs)
unfolding merge_next
AllMagic-merge_next b [] m a = (m, tt)
AllMagic-merge_next b (n ∷ bs) m (m', a) = elim (Bool-cases n.free) [
  | inl free ↦ rw free (m, a)
  | inr held ↦ rw held (m, (m', a))
]

AllMagic-merge_prev :
    (p : Block) (bs : List Block) → p.magic ≡ heap_magic → AllMagic bs → AllMagic (merge_prev p bs)
unfolding merge_prev
AllMagic-merge_prev p [] m a = (m, tt)
AllMagic-merge_prev p (b ∷ bs) m (m', a) = elim (Bool-cases p.free) [
  | inl free ↦ rw free (m, a)
  | inr held ↦ rw held (m, (m', a))
]

AllMagic-free_after :
    (p : Block) (bs bs' : List Block) (addr : ℕ)
    → p.magic ≡ heap_magic
    → AllMagic bs
    → free_after p bs addr ≡ some bs'
    → AllMagic bs'
unfolding free_after
AllMagic-free_after p [] bs' addr m a e = ground arith
AllMagic-free_after p (b ∷ bs) bs' addr m (m', a) e = elim (Bool-cases (b.addr == addr)) [
  | inl here ↦
      let new : merge_prev p (merge_next (record b { free = true }) bs) ≡ bs' = ground arith in
      rw (← new) (
        AllMagic-merge_prev p (merge_next (record b { free = true }) bs) m
          (AllMagic-merge_next (record b { free = true }) bs m' a))
  | inr later ↦ elim (Option-cases (free_after b bs addr)) [
    | inl e' ↦ ground arith
    | inr (l, e') ↦
        let new : p ∷ l ≡ bs' = ground arith in
        rw (← new) (m, AllMagic-free_after b bs l addr m' a e')
  ]
]

pub AllMagic-free_block :
    (bs bs' : List Block) (addr : ℕ) → AllMagic bs → free_block bs addr ≡ some bs' → AllMagic bs'
unfolding free_block
AllMagic-free_block [] bs' addr a e = ground arith
AllMagic-free_block (b ∷ bs) bs' addr (m, a) e = elim (Bool-cases (b.addr == addr)) [
  | inl here ↦
      let new : merge_next (record b { free = true }) bs ≡ bs' = ground arith in
      rw (← new) (AllMagic-merge_next (record b { free = true }) bs m a)
  | inr later ↦
      let e' : free_after b bs addr ≡ some bs' = ground arith in
      AllMagic-free_after b bs bs' addr m a e'
]

-- At an address that is no block's.
free_after-outside :
    (p : Block) (bs : List Block) (addr : ℕ)
    → is_block bs addr ≡ false
    → free_after p bs addr ≡ none
unfolding free_after
free_after-outside p [] addr h = refl
free_after-outside p (b ∷ bs) addr h = ground (arith, free_after-outside b bs addr)

pub free_block-outside :
    (bs : List Block) (addr : ℕ) → is_block bs addr ≡ false → free_block bs addr ≡ none
unfolding free_block
free_block-outside [] addr h = refl
free_block-outside (b ∷ bs) addr h = ground (arith, free_after-outside b bs addr)

pub header_at-outside :
    (lies : ℕ → Header) (bs : List Block) (addr : ℕ)
    → is_block bs addr ≡ false
    → (header_at lies bs addr ≡ lies addr) × (used_at bs addr ≡ none)
unfolding header_at
header_at-outside lies [] addr h = (refl, refl)
header_at-outside lies (b ∷ bs) addr h =
    let rest = header_at-outside lies bs addr (ground arith) in
    let other : (b.addr == addr) ≡ false = ground arith in (rw other rest.0, rw other rest.1)

-- The header of a block tells whether it is in use.
pub header_at-inside :
    (lies : ℕ → Header) (bs : List Block) (addr : ℕ)
    → AllMagic bs
    → is_block bs addr ≡ true
    → looks_used (header_at lies bs addr) ≡ is_some (used_at bs addr)
unfolding header_at
header_at-inside lies [] addr a h = ground arith
header_at-inside lies (b ∷ bs) addr (m, a) h = elim (Bool-cases (b.addr == addr)) [
  | inl here ↦ rw here (ground arith)
  | inr later ↦ rw later (header_at-inside lies bs addr a (ground arith))
]
