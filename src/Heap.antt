-- ===== src/Heap.antt =====
-- kernel/memory.c: the kernel heap. The doubly linked list of `struct heap_block` is the list of its
-- blocks from `heap_head` to `heap_tail`, so that `prev` and `next` are a block's neighbours in it.
-- What lies in memory at an address that is no block's is a parameter of `kfree`, which reads it as
-- a header. `none` is a kernel panic.
pub mod Shape
pub mod Take
pub mod Headers
pub mod Release
pub mod Alloc
pub mod Free
mod Tests
use mathlib.Core.Option
use tang_ping_os.Prelude.{
  ℕ, zero, suc, ◌+◌, ◌-◌, ◌*◌, ◌/◌, Option, none, some, Bool, true, false, not, ◌&&◌, ◌||◌, List,
  [], ◌∷◌, ◌++◌, ltb, leb, ◌==◌, if◌then◌else◌, add64, sub64,
}

abbrev pub page_size : ℕ
page_size = 4096

abbrev pub heap_base : ℕ
heap_base = 0xffffffff90000000

abbrev pub heap_size : ℕ
heap_size = 16 * 1024 * 1024

abbrev pub heap_align : ℕ
heap_align = 16

abbrev pub heap_magic : ℕ
heap_magic = 0x54484541504d454d

-- `align_up(value, HEAP_ALIGN)`
abbrev pub align_up : ℕ → ℕ
align_up value = add64 value (heap_align - 1) / heap_align * heap_align

-- `heap_header_size`; a `struct heap_block` takes 40 bytes.
abbrev pub header_size : ℕ
header_size = align_up 40

-- `struct heap_block`
pub record Block : Type 0 where
  pub addr : ℕ
  pub size : ℕ
  pub free : Bool
  pub magic : ℕ

-- What `kfree` reads of a header.
pub record Header : Type 0 where
  pub magic : ℕ
  pub free : Bool

-- What the heap asks of the page tables: a new page, mapped at the address. `none` is a panic.
pub record Mapper (M : Type 0) : Type 0 where
  pub map_new_page : M → ℕ → Option M

pub record Heap (M : Type 0) : Type 0 where
  pub blocks : List Block
  pub next : ℕ
  pub mapped_end : ℕ
  pub maps : M

-- `heap_split_block` on a block that is then taken: what stands in its place.
pub split_block : Block → ℕ → List Block
split_block b size =
    if ltb b.size (add64 (add64 size header_size) heap_align)
    then record b { free = false } ∷ []
    else record b { size = size; free = false }
      ∷ record {
        addr = b.addr + header_size + size;
        size = b.size - size - header_size;
        free = true;
        magic = heap_magic;
      }
      ∷ []

-- The loop of `kmalloc`: the address of the first free block that is large enough, and the blocks
-- after it was taken.
pub take_fit : ℕ → List Block → Option (ℕ × List Block)
take_fit size [] = none
take_fit size (b ∷ bs) =
    let rest = Option.map (λ (r : ℕ × List Block). (r.0, b ∷ r.1)) (take_fit size bs) in
    if b.free && leb size b.size then some (b.addr, split_block b size ++ bs) else rest

-- The first half of `heap_coalesce`, on a block that is free.
pub merge_next : Block → List Block → List Block
merge_next b [] = b ∷ []
merge_next b (n ∷ bs) =
    if n.free then record b { size = b.size + (header_size + n.size) } ∷ bs else b ∷ n ∷ bs

-- The second half, on the block before and the list that begins with the block.
pub merge_prev : Block → List Block → List Block
merge_prev p [] = p ∷ []
merge_prev p (b ∷ bs) =
    if p.free then record p { size = p.size + (header_size + b.size) } ∷ bs else p ∷ b ∷ bs

-- The end of `kfree`, the block at `addr` marked as free and merged, among the blocks that follow the
-- block `p`; `none` if none of them has that address.
pub free_after : Block → List Block → ℕ → Option (List Block)
free_after p [] addr = none
free_after p (b ∷ bs) addr =
    let rest = Option.map (λ (l : List Block). p ∷ l) (free_after b bs addr) in
    if b.addr == addr then some (merge_prev p (merge_next (record b { free = true }) bs)) else rest

pub free_block : List Block → ℕ → Option (List Block)
free_block [] addr = none
free_block (b ∷ bs) addr =
    if b.addr == addr then some (merge_next (record b { free = true }) bs) else free_after b bs addr

-- What lies at an address: the header of a block, or what `lies` has there.
pub header_at : (ℕ → Header) → List Block → ℕ → Header
header_at lies [] addr = lies addr
header_at lies (b ∷ bs) addr =
    if b.addr == addr then record { magic = b.magic; free = b.free } else header_at lies bs addr

-- How `kfree` ends. It goes astray where it takes what is no block for one: the source then writes
-- to the addresses that it reads there.
pub data Freed (M : Type 0) : Type 0 where
  panic : Freed M
  astray : Freed M
  freed : Heap M → Freed M

module _ {M : Type 0} where
  -- The rounds of the loop of `heap_ensure_mapped` that are left.
  pub map_from : Mapper M → ℕ → M → ℕ → Option (M × ℕ)
  map_from mapper zero m mapped_end = some (m, mapped_end)
  map_from mapper (suc left) m mapped_end = elim (mapper.map_new_page m mapped_end) [
    | none ↦ none
    | some m' ↦ map_from mapper left m' (mapped_end + page_size)
  ]

  pub ensure_mapped : Mapper M → M → ℕ → ℕ → Option (M × ℕ)
  ensure_mapped mapper m mapped_end end =
      map_from mapper ((end - mapped_end + (page_size - 1)) / page_size) m mapped_end

  -- The end of `kmalloc`: a new block behind the others.
  pub extend : Mapper M → Heap M → ℕ → Option (ℕ × Heap M)
  extend mapper h size =
      let start = align_up h.next in
      let end = align_up (add64 (add64 start header_size) size) in
      if ltb (heap_base + heap_size) end
      then none
      else elim (ensure_mapped mapper h.maps h.mapped_end end) [
        | none ↦ none
        | some (m, mapped_end) ↦ some (
          start,
          record {
            blocks =
                h.blocks
                ++ (record { addr = start; size = size; free = false; magic = heap_magic } ∷ []);
            next = end;
            mapped_end = mapped_end;
            maps = m;
          },
        )
      ]

  -- The address that `kmalloc` returns, 0 for the null pointer.
  pub kmalloc : Mapper M → Heap M → ℕ → Option (ℕ × Heap M)
  kmalloc mapper h size =
      if size == 0 then some (0, h) else elim (take_fit (align_up size) h.blocks) [
        | some (addr, blocks') ↦ some (addr + header_size, record h { blocks = blocks' })
        | none ↦
            Option.map (λ (r : ℕ × Heap M). (r.0 + header_size, r.1))
              (extend mapper h (align_up size))
      ]

  pub kfree : (ℕ → Header) → Heap M → ℕ → Freed M
  kfree lies h ptr =
      let addr = sub64 ptr header_size in
      let header = header_at lies h.blocks addr in
      if ptr == 0
      then freed h
      else if not (header.magic == heap_magic) || header.free
      then panic
      else elim (free_block h.blocks addr) [
        | none ↦ astray
        | some bs ↦ freed (record h { blocks = bs })
      ]
