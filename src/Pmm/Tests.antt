-- ===== src/Pmm/Tests.antt =====
-- An allocator with three pages managed, of which the last two are free, and the theorems on it.
use tang_ping_os.Prelude.{ℕ, ◌+◌, ◌/◌, ◌%◌, ◌≤◌, ◌<◌, ◌≡◌, refl, ◌⊎◌, none, some, false, arith}
use tang_ping_os.Pmm.{
  Pmm, page_size, bitmap_words, alloc_page, free_page, alloc_contiguous_pages, set_free,
}
use tang_ping_os.Pmm.Scan.{AllUsed, AllFree}
use tang_ping_os.Pmm.Alloc.{IsValid, Allocated, Wrote, alloc_page_lem, free_page_lem}
use tang_ping_os.Pmm.Full.{full, full-IsValid, set_free-IsValid}
use tang_ping_os.Pmm.Run.{RunAllocated, alloc_contiguous_pages_lem}

abbrev all_used : Pmm
all_used = full bitmap_words 3 7

all_used-IsValid : IsValid all_used
all_used-IsValid = full-IsValid bitmap_words 3 7 refl (omega arith)

abbrev two_free : Pmm
two_free = set_free (set_free all_used 1) 2

two_free-IsValid : IsValid two_free
two_free-IsValid =
    set_free-IsValid (set_free all_used 1) 2
      (set_free-IsValid all_used 1 all_used-IsValid (omega arith)) (omega arith)

free_page_lem_example :
    ((free_page all_used 4096 ≡ none)
      × ((4096 % page_size ≡ 0) → all_used.max_page_index ≤ 4096 / page_size))
    ⊎ ((s' : Pmm) × (free_page all_used 4096 ≡ some s')
        × (4096 % page_size ≡ 0)
        × (4096 / page_size < all_used.max_page_index)
        × Wrote all_used (4096 / page_size) false s'
        × ((a : ℕ) → s'.memory a ≡ all_used.memory a)
        × IsValid s')
free_page_lem_example = free_page_lem all_used 4096 all_used-IsValid

alloc_page_lem_example :
    ((alloc_page two_free ≡ none) × AllUsed two_free.bitmap 0 two_free.max_page_index)
    ⊎ ((phys : ℕ) × (s' : Pmm) × (alloc_page two_free ≡ some (phys, s'))
        × Allocated two_free phys s')
alloc_page_lem_example = alloc_page_lem two_free two_free-IsValid

alloc_contiguous_pages_lem_example :
    ((alloc_contiguous_pages two_free 2 ≡ none)
      × ((q : ℕ) → q + 2 ≤ two_free.next_hint → ¬ AllFree two_free.bitmap q (q + 2))
      × ((q : ℕ)
          → two_free.next_hint ≤ q
          → q + 2 ≤ two_free.max_page_index
          → ¬ AllFree two_free.bitmap q (q + 2)))
    ⊎ ((phys : ℕ) × (s' : Pmm) × (alloc_contiguous_pages two_free 2 ≡ some (phys, s'))
        × RunAllocated two_free 2 phys s')
alloc_contiguous_pages_lem_example =
    alloc_contiguous_pages_lem two_free 2 two_free-IsValid (omega arith) (omega arith)
