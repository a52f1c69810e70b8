-- ===== src/Heap/Take.antt =====
-- Taking the first free block that is large enough.
use mathlib.Core.Path.{subst}
use tang_ping_os.Prelude.{
  ℕ, ◌+◌, ◌-◌, ◌%◌, ◌≤◌, ◌<◌, ◌≡◌, refl, inl, inr, none, some, Bool, true, ◌&&◌, List, [], ◌∷◌,
  ◌++◌, ltb, leb, ◌==◌, if◌then◌else◌, add64, Bool-cases, Option-cases, arith,
}
use tang_ping_os.Heap.{Block, header_size, heap_align, heap_size, split_block, take_fit}
use tang_ping_os.Heap.Shape.{Tiled, Separated, used_at, Tiled-le, used_at_below, Separated-weaken}

-- What taking a block of at least `size` bytes at `addr` makes of the blocks.
pub record Taken (p : Bool) (start end : ℕ) (bs : List Block) (size addr : ℕ) (bs' : List Block)
    : Type 0 where
  pub tiled : Tiled start end bs'
  pub separated : Separated p bs'
  pub got : ℕ
  pub large : size ≤ got
  pub used : (a : ℕ) → used_at bs' a ≡ (if addr == a then some got else used_at bs a)
  pub was_free : used_at bs addr ≡ none
  pub from : start ≤ addr

split-Taken :
    (p : Bool) (start end size : ℕ) (b : Block) (bs : List Block)
    → end ≤ start + heap_size
    → 0 < size
    → size % heap_align ≡ 0
    → Tiled start end (b ∷ bs)
    → Separated p (b ∷ bs)
    → b.free ≡ true
    → size ≤ b.size
    → Taken p start end (b ∷ bs) size b.addr (split_block b size ++ bs)
unfolding split_block
split-Taken p start end size b bs small pos whole t s free fits =
    let past = Tiled-le (start + header_size + b.size) end bs t.3 in
    elim (Bool-cases (ltb b.size (add64 (add64 size header_size) heap_align))) [
      | inl tight ↦ rw tight (record {
        tiled = t;
        separated = (ground arith, Separated-weaken b.free bs s.1);
        got = b.size;
        large = fits;
        used = λ a. ground arith;
        was_free = ground arith;
        from = omega (arith, t.0);
      })
      | inr wide ↦
          let room : size + header_size + heap_align ≤ b.size = ground arith in
          let rest : Tiled
              (start + header_size + size + header_size + (b.size - size - header_size)) end bs =
            subst (λ x. Tiled x end bs) (omega arith) t.3 in
          rw wide (record {
            tiled = (t.0, pos, whole, (omega (arith, t.0), omega arith, omega (arith, t.2), rest));
            separated = (ground arith, (refl, rw free at s.1));
            got = size;
            large = omega arith;
            used = λ a. ground (arith, used_at_below (start + header_size + b.size) end bs a);
            was_free = ground arith;
            from = omega (arith, t.0);
          })
    ]

pub take_fit_lem :
    (p : Bool) (start end size : ℕ) (bs bs' : List Block) (addr : ℕ)
    → end ≤ start + heap_size
    → 0 < size
    → size % heap_align ≡ 0
    → Tiled start end bs
    → Separated p bs
    → take_fit size bs ≡ some (addr, bs')
    → Taken p start end bs size addr bs'
unfolding take_fit
take_fit_lem p start end size [] bs' addr small pos whole t s e = ground arith
take_fit_lem p start end size (b ∷ bs) bs' addr small pos whole t s e =
    elim (Bool-cases (b.free && leb size b.size)) [
      | inl fits ↦
          let at : b.addr ≡ addr = ground arith in
          let new : split_block b size ++ bs ≡ bs' = ground arith in
          rw (← at, ← new)
            (split-Taken p start end size b bs small pos whole t s (ground arith) (ground arith))
      | inr no_fit ↦ elim (Option-cases (take_fit size bs)) [
        | inl e' ↦ ground arith
        | inr ((addr1, bs1), e') ↦
            let at : addr1 ≡ addr = ground arith in
            let new : b ∷ bs1 ≡ bs' = ground arith in
            let r =
              take_fit_lem b.free (start + header_size + b.size) end size bs bs1 addr1
                (omega (arith, small)) pos whole t.3 s.1 e' in
            let from = r.from in
            rw (← at, ← new)
              (record {
                tiled = (t.0, t.1, t.2, r.tiled);
                separated = (s.0, r.separated);
                got = r.got;
                large = r.large;
                used = λ a. ground (arith, r.used a);
                was_free = let was = r.was_free in ground arith;
                from = omega (arith, from);
              })
      ]
    ]
