-- ===== src/Heap/Release.antt =====
-- Giving a block back, and merging it with its free neighbours.
use mathlib.Core.Path.{subst}
use tang_ping_os.Prelude.{
  ℕ, ◌+◌, ◌≡◌, refl, inl, inr, none, some, Bool, true, false, List, [], ◌∷◌, ◌==◌, if◌then◌else◌,
  Bool-cases, Option-cases, arith, is_some,
}
use tang_ping_os.Heap.{Block, header_size, merge_next, merge_prev, free_after, free_block}
use tang_ping_os.Heap.Shape.{Tiled, Separated, used_at, Tiled-le, used_at_below}

-- What giving the block at `addr` back makes of the blocks.
pub record Released (p : Bool) (start end : ℕ) (bs : List Block) (addr : ℕ) (bs' : List Block)
    : Type 0 where
  pub tiled : Tiled start end bs'
  pub separated : Separated p bs'
  pub used : (a : ℕ) → used_at bs' a ≡ (if addr == a then none else used_at bs a)
  pub was_used : is_some (used_at bs addr) ≡ true

merge_next-Released :
    (start end : ℕ) (b : Block) (bs : List Block)
    → Tiled start end (b ∷ bs)
    → Separated false (b ∷ bs)
    → b.free ≡ false
    → Released false start end (b ∷ bs) b.addr (merge_next (record b { free = true }) bs)
unfolding merge_next
merge_next-Released start end b [] t s used = record {
  tiled = t;
  separated = (refl, tt);
  used = λ a. ground arith;
  was_used = ground arith;
}
merge_next-Released start end b (n ∷ bs) t s used = elim (Bool-cases n.free) [
  | inl free ↦
      let from : ℕ = start + header_size + b.size + header_size + n.size in
      let rest : Tiled (start + header_size + (b.size + (header_size + n.size))) end bs =
        subst (λ x. Tiled x end bs) (omega arith) t.3.3 in
      rw free (record {
        tiled = (t.0, omega (arith, t.1), omega (arith, t.2, t.3.2), rest);
        separated = (refl, rw free at s.1.1);
        used = λ a. ground (arith, used_at_below (from) end bs a);
        was_used = ground arith;
      })
  | inr held ↦ rw held (record {
    tiled = t;
    separated = (refl, (refl, rw held at s.1.1));
    used = λ a. ground (arith, t.0, t.3.0, t.1);
    was_used = ground arith;
  })
]

merge_prev-Released :
    (q : Bool) (start end : ℕ) (p b : Block) (bs cs : List Block)
    → Tiled start end (p ∷ b ∷ bs)
    → Separated q (p ∷ b ∷ bs)
    → Released false (start + header_size + p.size) end (b ∷ bs) b.addr cs
    → Released q start end (p ∷ b ∷ bs) b.addr (merge_prev p cs)
unfolding merge_prev
merge_prev-Released q start end p b bs [] t s r =
    let past = Tiled-le (start + header_size + p.size + header_size + b.size) end bs t.3.3 in
    let same = r.tiled in absurd (omega arith)
merge_prev-Released q start end p b bs (c ∷ cs) t s r =
    let tiled = r.tiled in
    let was = r.was_used in
    let gone = r.used b.addr in
    let here : c.addr ≡ b.addr = omega (arith, tiled.0, t.3.0) in
    let free : c.free ≡ true = ground arith in
    let from : ℕ = start + header_size + p.size + header_size + c.size in
    elim (Bool-cases p.free) [
      | inl merged ↦
          let rest : Tiled (start + header_size + (p.size + (header_size + c.size))) end cs =
            subst (λ x. Tiled x end cs) (omega arith) tiled.3 in
          let after : Separated true cs = rw free at r.separated.1 in
          rw merged (record {
            tiled = (t.0, omega (arith, t.1), omega (arith, t.2, tiled.2), rest);
            separated = (rw merged at s.0, after);
            used = λ a. ground (arith, r.used a, used_at_below from end cs a);
            was_used = ground arith;
          })
      | inr apart ↦
          let after : Separated c.free cs = r.separated.1 in
          rw apart (record {
            tiled = (t.0, t.1, t.2, tiled);
            separated = (rw apart at s.0, (refl, after));
            used = λ a.
                ground
                  (arith, r.used a, used_at_below (start + header_size + p.size) end (c ∷ cs) a);
            was_used = ground arith;
          })
    ]

free_after_lem :
    (q : Bool) (start end : ℕ) (p : Block) (bs bs' : List Block) (addr : ℕ)
    → Tiled start end (p ∷ bs)
    → Separated q (p ∷ bs)
    → free_after p bs addr ≡ some bs'
    → is_some (used_at bs addr) ≡ true
    → Released q start end (p ∷ bs) addr bs'
unfolding free_after
free_after_lem q start end p [] bs' addr t s e u = ground arith
free_after_lem q start end p (b ∷ bs) bs' addr t s e u = elim (Bool-cases (b.addr == addr)) [
  | inl here ↦ elim (Bool-cases b.free) [
    | inl twice ↦ ground arith
    | inr used ↦
        let at : b.addr ≡ addr = ground arith in
        let new : merge_prev p (merge_next (record b { free = true }) bs) ≡ bs' = ground arith in
        let after : Separated false (b ∷ bs) = (refl, s.1.1) in
        rw (← at, ← new)
          (merge_prev-Released q start end p b bs (merge_next (record b { free = true }) bs) t s
            (merge_next-Released (start + header_size + p.size) end b bs t.3 after used))
  ]
  | inr later ↦ elim (Option-cases (free_after b bs addr)) [
    | inl e' ↦ ground arith
    | inr (l, e') ↦
        let new : p ∷ l ≡ bs' = ground arith in
        let r =
          free_after_lem p.free (start + header_size + p.size) end b bs l addr t.3 s.1 e'
            (ground arith) in
        let was = r.was_used in
        rw (← new) (record {
          tiled = (t.0, t.1, t.2, r.tiled);
          separated = (s.0, r.separated);
          used = λ a.
              ground
                (arith, r.used a, used_at_below (start + header_size + p.size) end (b ∷ bs) addr);
          was_used = ground (arith, used_at_below (start + header_size + p.size) end (b ∷ bs) addr);
        })
  ]
]

free_after-none :
    (p : Block) (bs : List Block) (addr : ℕ) → free_after p bs addr ≡ none → used_at bs addr ≡ none
unfolding free_after
free_after-none p [] addr e = refl
free_after-none p (b ∷ bs) addr e = elim (Option-cases (free_after b bs addr)) [
  | inl e' ↦ ground (arith, free_after-none b bs addr e')
  | inr (l, e') ↦ ground arith
]

-- A block in use can be given back.
pub free_block_lem :
    (start end : ℕ) (bs : List Block) (addr : ℕ)
    → Tiled start end bs
    → Separated false bs
    → is_some (used_at bs addr) ≡ true
    → (bs' : List Block) × (free_block bs addr ≡ some bs') × Released false start end bs addr bs'
unfolding free_block
free_block_lem start end [] addr t s u = ground arith
free_block_lem start end (b ∷ bs) addr t s u = elim (Bool-cases (b.addr == addr)) [
  | inl here ↦
      let at : b.addr ≡ addr = ground arith in
      let new : List Block = merge_next (record b { free = true }) bs in
      let used : b.free ≡ false = ground arith in
      let released = merge_next-Released start end b bs t s used in
      (new, ground arith, subst (λ (x : ℕ). Released false start end (b ∷ bs) x new) at released)
  | inr later ↦ elim (Option-cases (free_after b bs addr)) [
    | inl e ↦ absurd (ground (arith, free_after-none b bs addr e))
    | inr (l, e) ↦
        (l, ground arith, free_after_lem false start end b bs l addr t s e (ground arith))
  ]
]
