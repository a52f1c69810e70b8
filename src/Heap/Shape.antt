-- ===== src/Heap/Shape.antt =====
-- The shape of the list of blocks: it tiles the heap, and no two neighbours are free.
use tang_ping_os.Prelude.{
  ℕ, ◌+◌, ◌%◌, ◌≤◌, ◌<◌, ◌≡◌, refl, Option, none, some, Bool, false, ◌&&◌, List, [], ◌∷◌, ◌++◌,
  ◌==◌, if◌then◌else◌, arith,
}
use tang_ping_os.Heap.{Block, header_size, heap_align}

-- The blocks lie behind one another from `start` to `end`, with no gap.
abbrev pub Tiled : ℕ → ℕ → List Block → Type 0
Tiled start end [] = start ≡ end
Tiled start end (b ∷ bs) =
    (b.addr ≡ start)
    × (0 < b.size)
    × (b.size % heap_align ≡ 0)
    × Tiled (start + header_size + b.size) end bs

-- No two neighbours are free, the block before the list included, which is free or not.
abbrev pub Separated : Bool → List Block → Type 0
Separated p [] = Unit
Separated p (b ∷ bs) = ((p && b.free) ≡ false) × Separated b.free bs

-- What the heap is for its clients: the blocks in use, each with its size.
abbrev pub used_at : List Block → ℕ → Option ℕ
used_at [] a = none
used_at (b ∷ bs) a = if b.addr == a then (if b.free then none else some b.size) else used_at bs a

pub Tiled-le : (start end : ℕ) (bs : List Block) → Tiled start end bs → start ≤ end
Tiled-le start end [] t = omega arith
Tiled-le start end (b ∷ bs) t = omega (arith, Tiled-le (start + header_size + b.size) end bs t.3)

pub used_at_below :
    (start end : ℕ) (bs : List Block) (a : ℕ) → Tiled start end bs → a < start → used_at bs a ≡ none
used_at_below start end [] a t h = refl
used_at_below start end (b ∷ bs) a t h =
    ground (arith, used_at_below (start + header_size + b.size) end bs a)

-- A block in use lies between the ends, and so do its bytes.
pub used_at_within :
    (start end : ℕ) (bs : List Block) (a k : ℕ)
    → Tiled start end bs
    → used_at bs a ≡ some k
    → (start ≤ a) × (a + header_size + k ≤ end)
used_at_within start end [] a k t u = ground arith
used_at_within start end (b ∷ bs) a k t u = ground (
  arith,
  Tiled-le (start + header_size + b.size) end bs,
  used_at_within (start + header_size + b.size) end bs a k,
)

-- Two different blocks in use do not overlap.
pub used_at_apart :
    (start end : ℕ) (bs : List Block) (a b k l : ℕ)
    → Tiled start end bs
    → used_at bs a ≡ some k
    → used_at bs b ≡ some l
    → a < b
    → a + header_size + k ≤ b
used_at_apart start end [] a b k l t u v h = ground arith
used_at_apart start end (c ∷ bs) a b k l t u v h = ground (
  arith,
  used_at_within (start + header_size + c.size) end bs b l,
  used_at_within (start + header_size + c.size) end bs a k,
  used_at_apart (start + header_size + c.size) end bs a b k l,
)

pub Tiled-append :
    (start mid end : ℕ) (bs cs : List Block)
    → Tiled start mid bs
    → Tiled mid end cs
    → Tiled start end (bs ++ cs)
Tiled-append start mid end [] cs t u = rw t u
Tiled-append start mid end (b ∷ bs) cs t u =
    (t.0, t.1, t.2, Tiled-append (start + header_size + b.size) mid end bs cs t.3 u)

-- A list that may follow a free block may follow any.
pub Separated-weaken : (p : Bool) (bs : List Block) → Separated p bs → Separated false bs
Separated-weaken p [] s = tt
Separated-weaken p (b ∷ bs) s = (refl, s.1)

pub used_at_aligned :
    (start end : ℕ) (bs : List Block) (a k : ℕ)
    → Tiled start end bs
    → start % heap_align ≡ 0
    → used_at bs a ≡ some k
    → a % heap_align ≡ 0
used_at_aligned start end [] a k t w u = ground arith
used_at_aligned start end (b ∷ bs) a k t w u =
    ground (arith, used_at_aligned (start + header_size + b.size) end bs a k)

pub Separated-append :
    (p : Bool) (bs : List Block) (c : Block)
    → c.free ≡ false
    → Separated p bs
    → Separated p (bs ++ (c ∷ []))
Separated-append p [] c h s = (ground arith, tt)
Separated-append p (b ∷ bs) c h s = (s.0, Separated-append b.free bs c h s.1)

-- A block at the end of the list.
pub used_at-append :
    (start : ℕ) (bs : List Block) (c : Block) (a : ℕ)
    → c.free ≡ false
    → Tiled start c.addr bs
    → used_at (bs ++ (c ∷ [])) a ≡ (if c.addr == a then some c.size else used_at bs a)
used_at-append start [] c a h t = ground arith
used_at-append start (b ∷ bs) c a h t =
    let past = Tiled-le (start + header_size + b.size) c.addr bs t.3 in
    let rest = used_at-append (start + header_size + b.size) bs c a h t.3 in ground arith

-- Nothing is in use from the end on.
pub used_at_past :
    (start end : ℕ) (bs : List Block) (a : ℕ) → Tiled start end bs → end ≤ a → used_at bs a ≡ none
used_at_past start end [] a t h = refl
used_at_past start end (b ∷ bs) a t h = ground (
  arith,
  Tiled-le (start + header_size + b.size) end bs,
  used_at_past (start + header_size + b.size) end bs a,
)
