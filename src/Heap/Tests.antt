-- ===== src/Heap/Tests.antt =====
-- A heap of three blocks, the second of which is free, and the theorems on it.
use tang_ping_os.Prelude.{
  ℕ, ◌+◌, ◌≡◌, refl, ◌⊎◌, none, some, true, false, [], ◌∷◌, arith, ◌==◌, ◌||◌, not, if◌then◌else◌,
  sub64, is_some,
}
use tang_ping_os.Heap.{
  Heap, Mapper, heap_base, header_size, align_up, extend, kmalloc, kfree, take_fit, split_block,
  Header, heap_magic, header_at, free_block, free_after, panic, astray, freed,
}
use tang_ping_os.Heap.Shape.{used_at}
use tang_ping_os.Heap.Headers.{is_block, looks_used}
use tang_ping_os.Heap.Alloc.{IsValid, Allocated, NoneFits, kmalloc_lem}
use tang_ping_os.Heap.Free.{kfree_lem}

-- It counts the pages.
abbrev counter : Mapper ℕ
counter = record { map_new_page = λ m addr. some (m + 1) }

abbrev three : Heap ℕ
three = record {
  blocks =
      record { addr = heap_base; size = 112; free = false; magic = heap_magic }
      ∷ record { addr = heap_base + 160; size = 128; free = true; magic = heap_magic }
      ∷ record { addr = heap_base + 336; size = 16; free = false; magic = heap_magic }
      ∷ [];
  next = heap_base + 400;
  mapped_end = heap_base + 4096;
  maps = 1;
}

three-IsValid : IsValid three
three-IsValid = record {
  tiled = omega arith;
  separated = (refl, (refl, (refl, tt)));
  fits = omega arith;
  aligned = refl;
  mapped = omega arith;
  magic = (refl, (refl, (refl, tt)));
}

-- The free block is split.
kmalloc-three :
    kmalloc counter three 40
    ≡ some (
      heap_base + 208,
      record three {
        blocks =
            record { addr = heap_base; size = 112; free = false; magic = heap_magic }
            ∷ record { addr = heap_base + 160; size = 48; free = false; magic = heap_magic }
            ∷ record { addr = heap_base + 256; size = 32; free = true; magic = heap_magic }
            ∷ record { addr = heap_base + 336; size = 16; free = false; magic = heap_magic }
            ∷ [];
      },
    )
unfolding kmalloc take_fit split_block
kmalloc-three = refl

kmalloc_lem_example :
    ((kmalloc counter three 1000 ≡ none)
      × NoneFits (align_up 1000) three.blocks
      × (extend counter three (align_up 1000) ≡ none))
    ⊎ ((ptr : ℕ) × (h' : Heap ℕ) × (kmalloc counter three 1000 ≡ some (ptr, h'))
        × Allocated three 1000 ptr h')
kmalloc_lem_example = kmalloc_lem counter three 1000 three-IsValid (omega arith) (omega arith)

abbrev last : ℕ
last = heap_base + 384

-- The rest of memory is filled with zeros, but that a header of a block in use seems to lie at 96.
abbrev lies : ℕ → Header
lies a =
    if a == 96
    then record { magic = heap_magic; free = false }
    else record { magic = 0; free = false }

-- A pointer that `kmalloc` never returned is taken for one of its own.
kfree-lies : kfree lies three (96 + header_size) ≡ astray
unfolding kfree header_at free_block free_after
kfree-lies = refl

kfree-elsewhere : kfree lies three 1000 ≡ panic
unfolding kfree header_at
kfree-elsewhere = refl

kfree_lem_example :
    ((kfree lies three last ≡ panic)
      × (used_at three.blocks (sub64 last header_size) ≡ none)
      × ((is_block three.blocks (sub64 last header_size)
            || not (looks_used (lies (sub64 last header_size))))
          ≡ true))
    ⊎ (((kfree lies three last ≡ astray)
          × (is_block three.blocks (sub64 last header_size) ≡ false)
          × (looks_used (lies (sub64 last header_size)) ≡ true))
        ⊎ ((h' : Heap ℕ) × (kfree lies three last ≡ freed h')
            × (is_some (used_at three.blocks (sub64 last header_size)) ≡ true)
            × ((a : ℕ)
                → used_at h'.blocks a
                  ≡ (if sub64 last header_size == a then none else used_at three.blocks a))
            × IsValid h'))
kfree_lem_example = kfree_lem lies three last three-IsValid (omega arith)
