-- ===== src/Pmm.antt =====
-- kernel/memory.c: the allocator of physical pages. A word of the bitmap is the list of its 64
-- bits, the lowest first; a bit is set while its page is in use. `none` is a kernel panic.
pub mod Bits
pub mod Scan
pub mod Alloc
pub mod Full
pub mod Free
pub mod Run
mod Tests
use tang_ping_os.Prelude.{
  ℕ, zero, suc, ◌+◌, ◌-◌, ◌*◌, ◌/◌, ◌%◌, Option, none, some, Bool, true, false, not, ◌&&◌, ◌||◌,
  List, [], ◌∷◌, length, get_or, set, replicate, ltb, leb, ◌==◌, if◌then◌else◌, add64, sub64,
}

abbrev pub page_size : ℕ
page_size = 4096

-- `PMM_MAX_PAGES`: 16 GiB of pages.
abbrev pub max_pages : ℕ
max_pages = 4194304

abbrev pub word_bits : ℕ
word_bits = 64

abbrev pub bitmap_words : ℕ
bitmap_words = max_pages / word_bits

abbrev pub Bitmap : Type 0
Bitmap = List (List Bool)

-- The static variables of the allocator, and the bytes of physical memory.
pub record Pmm : Type 0 where
  pub bitmap : Bitmap
  pub max_page_index : ℕ
  pub managed_count : ℕ
  pub free_count : ℕ
  pub next_hint : ℕ
  pub memory : ℕ → ℕ

-- `align_up(value, PAGE_SIZE)` and `align_down(value, PAGE_SIZE)`
abbrev pub align_up : ℕ → ℕ
align_up value = add64 value (page_size - 1) / page_size * page_size

abbrev pub align_down : ℕ → ℕ
align_down value = value / page_size * page_size

pub test_bit : Bitmap → ℕ → Bool
test_bit b page = get_or (get_or b (page / word_bits) []) (page % word_bits) true

pub write_bit : Bitmap → ℕ → Bool → Bitmap
write_bit b page v =
    set b (page / word_bits) (set (get_or b (page / word_bits) []) (page % word_bits) v)

pub set_used : Pmm → ℕ → Pmm
set_used s page = record s {
  free_count = if test_bit s.bitmap page then s.free_count else sub64 s.free_count 1;
  bitmap = write_bit s.bitmap page true;
}

pub set_free : Pmm → ℕ → Pmm
set_free s page = record s {
  free_count = if test_bit s.bitmap page then add64 s.free_count 1 else s.free_count;
  bitmap = write_bit s.bitmap page false;
}

-- `memset_local(phys_to_virt(phys), 0, PAGE_SIZE)`
pub zero_page : (ℕ → ℕ) → ℕ → ℕ → ℕ
zero_page memory phys a = if leb phys a && ltb a (phys + page_size) then 0 else memory a

-- The rounds of the loop of `pmm_mark_range_free` that are left, from the page `page` on.
pub mark_free_from : ℕ → Pmm → ℕ → Pmm
mark_free_from zero s page = s
mark_free_from (suc left) s page =
    mark_free_from left (if ltb page max_pages then set_free s page else s) (page + 1)

pub mark_range_free : Pmm → ℕ → ℕ → Pmm
mark_range_free s base len =
    let start = align_up base in
    let end = align_down (add64 base len) in
    mark_free_from ((end - start) / page_size) s (start / page_size)

-- The inner loop of `pmm_alloc_page`: the first free page of `left` pages from `page` on.
pub find_free : ℕ → Bitmap → ℕ → Option ℕ
find_free zero b page = none
find_free (suc left) b page =
    let rest = find_free left b (page + 1) in if not (test_bit b page) then some page else rest

-- The page that the two passes find.
pub pick_page : Pmm → Option ℕ
pick_page s = elim (find_free (s.max_page_index - s.next_hint) s.bitmap s.next_hint) [
  | some page ↦ some page
  | none ↦ find_free s.next_hint s.bitmap 0
]

-- The page is marked as used and filled with zeros.
pub take_one : Pmm → ℕ → Pmm
take_one s page =
    let s' = set_used s page in record s' { memory = zero_page s'.memory (page * page_size) }

pub take_page : Pmm → ℕ → Pmm
take_page s page = record (take_one s page) { next_hint = page + 1 }

pub alloc_page : Pmm → Option (ℕ × Pmm)
alloc_page s = elim (pick_page s) [
  | none ↦ none
  | some page ↦ some (page * page_size, take_page s page)
]

-- The loop over `i` in `pmm_alloc_contiguous_pages`: the offset of the first page in use among
-- the `left` pages that are still to be tested.
pub first_used : ℕ → Bitmap → ℕ → ℕ → Option ℕ
first_used zero b start i = none
first_used (suc left) b start i =
    let rest = first_used left b start (i + 1) in if test_bit b (start + i) then some i else rest

-- The loop over `start` up to `limit`; a page in use is skipped with all before it. Each round
-- raises `start`, so `limit + 1` rounds of fuel are enough.
pub scan_run : ℕ → Bitmap → ℕ → ℕ → ℕ → Option ℕ
scan_run zero b start limit count = none
scan_run (suc fuel) b start limit count =
    if leb (add64 start count) limit
    then elim (first_used count b start 0) [
      | none ↦ some start
      | some i ↦ scan_run fuel b (start + i + 1) limit count
    ]
    else none

-- The loop that takes the `left` pages from `page` on.
pub take_run : ℕ → Pmm → ℕ → Pmm
take_run zero s page = s
take_run (suc left) s page = take_run left (take_one s page) (page + 1)

pub pick_run : Pmm → ℕ → Option ℕ
pick_run s count =
    elim (scan_run (s.max_page_index + 1) s.bitmap s.next_hint s.max_page_index count) [
      | some start ↦ some start
      | none ↦ scan_run (s.next_hint + 1) s.bitmap 0 s.next_hint count
    ]

pub alloc_contiguous_pages : Pmm → ℕ → Option (ℕ × Pmm)
alloc_contiguous_pages s count = if count == 0 then some (0, s) else elim (pick_run s count) [
  | none ↦ none
  | some start ↦
      some (start * page_size, record (take_run count s start) { next_hint = start + count })
]

pub free_page : Pmm → ℕ → Option Pmm
free_page s phys =
    let page = phys / page_size in
    if not (phys % page_size == 0)
    then none
    else if leb s.max_page_index page
    then none
    else let s' = set_free s page in
      some (record s' { next_hint = if ltb page s'.next_hint then page else s'.next_hint })

-- An entry of the boot loader's memory map.
pub record MemoryEntry : Type 0 where
  pub base : ℕ
  pub len : ℕ
  pub usable : Bool

-- One round of the loop of `memory_init`.
pub add_entry : Pmm → MemoryEntry → Pmm
add_entry s e =
    let page_end = align_up (add64 e.base e.len) / page_size in
    let top = if ltb max_pages page_end then max_pages else page_end in
    let managed_start = align_down e.base / page_size in
    let managed =
      if ltb managed_start max_pages && ltb managed_start top then top - managed_start else 0 in
    let s1 = record s {
      max_page_index = if ltb s.max_page_index page_end then top else s.max_page_index;
      managed_count = add64 s.managed_count managed;
    } in
    if e.usable then mark_range_free s1 e.base e.len else s1

pub add_entries : Pmm → List MemoryEntry → Pmm
add_entries s [] = s
add_entries s (e ∷ es) = add_entries (add_entry s e) es

pub memory_init : Pmm → List MemoryEntry → Pmm
memory_init s es =
    add_entries
      (record s {
        free_count = 0;
        managed_count = 0;
        max_page_index = 0;
        next_hint = 0;
        bitmap = replicate bitmap_words (replicate word_bits true);
      })
      es

pub total_pages : Pmm → ℕ
total_pages s = s.managed_count

pub free_pages : Pmm → ℕ
free_pages s = s.free_count
