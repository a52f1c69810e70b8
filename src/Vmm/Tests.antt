-- ===== src/Vmm/Tests.antt =====
-- Runs of the page tables.
use tang_ping_os.Prelude.{
  ◌+◌, ◌<◌, ◌≡◌, ◌⊎◌, ◌∙◌, not, ◌&&◌, [], ◌∷◌, has_bit, arith, if◌then◌else◌, refl, none, some,
  true, false, Memory, write64, read_le, write_le, or_bits,
}
use tang_ping_os.Pmm.{Pmm, bitmap_words, set_free, test_bit}
use tang_ping_os.Pmm.Alloc.{IsValid}
use tang_ping_os.Pmm.Free.{free_below}
use tang_ping_os.Pmm.Full.{
  full, full-IsValid, test_bit-full, set_free-IsValid, test_bit-set_free, memory-set_free,
}
use tang_ping_os.Vmm.Path.{IsPath, IsPath-fresh, missing}
use tang_ping_os.Vmm.Mapping.{map_page_in-translates}
use tang_ping_os.Vmm.{
  combining_flags, uncached_flags, map_page_in, page_entry, writable, translate_user_addr,
  walk_user,
}

-- The page at 0x400000 is mapped to 0x5000 for user space, to be read.
abbrev tables : Memory
tables =
    write64 (write64 (write64 (write64 (λ a. 0) 0x1000 0x2007) 0x2000 0x3007) 0x3010 0x4007) 0x4000
      0x5005

translate-tables : translate_user_addr tables 0x1000 0x400012 false ≡ some 0x5012
unfolding translate_user_addr walk_user read_le write_le
translate-tables = refl

translate-read_only : translate_user_addr tables 0x1000 0x400012 true ≡ none
unfolding translate_user_addr walk_user read_le write_le
translate-read_only = refl

translate-kernel_half : translate_user_addr tables 0x1000 0x800000400012 false ≡ none
unfolding translate_user_addr
translate-kernel_half = refl

-- The cache bits of a mapping that is not to be cached, and of one with write combining.
page_entry-uncached : page_entry 0x9000 0x12 ≡ 0x9013
unfolding combining_flags uncached_flags or_bits
page_entry-uncached = refl

page_entry-combining : page_entry 0x9000 0x1a ≡ 0x900b
unfolding combining_flags uncached_flags or_bits
page_entry-combining = refl

-- Eight pages, of which those from 2 to 4 are free; the table of the highest level is page 1.
abbrev two : Pmm
two = set_free (full bitmap_words 8 0) 2

two-IsValid : IsValid two
two-IsValid =
    set_free-IsValid (full bitmap_words 8 0) 2 (full-IsValid bitmap_words 8 0 refl (omega arith))
      (omega arith)

abbrev three : Pmm
three = set_free two 3

three-IsValid : IsValid three
three-IsValid = set_free-IsValid two 3 two-IsValid (omega arith)

abbrev boot : Pmm
boot = set_free three 4

root_used : test_bit boot.bitmap 1 ≡ true
root_used =
    test_bit-set_free three 4 three-IsValid (omega arith) 1 refl
    ∙ test_bit-set_free two 3 two-IsValid (omega arith) 1 refl
    ∙ test_bit-set_free (full bitmap_words 8 0) 2 (full-IsValid bitmap_words 8 0 refl (omega arith))
        (omega arith) 1 refl
    ∙ test_bit-full bitmap_words 8 0 1

boot-IsPath : IsPath boot (λ r. false) 1 (0 ∷ 0 ∷ 2 ∷ [])
boot-IsPath =
    IsPath-fresh boot (λ r. false) 1 (0 ∷ 0 ∷ 2 ∷ []) root_used refl
      (omega arith, (omega arith, (omega arith, tt)))
      (λ a at.
        memory-set_free three 4 a
        ∙ memory-set_free two 3 a
        ∙ memory-set_free (full bitmap_words 8 0) 2 a)

map_page_in-translates_example :
    ((map_page_in boot 0x1000 0x400000 0x7000 6 ≡ none)
      × (free_below boot.bitmap boot.max_page_index < missing boot.memory 1 (0 ∷ 0 ∷ 2 ∷ [])))
    ⊎ ((s' : Pmm) × (map_page_in boot 0x1000 0x400000 0x7000 6 ≡ some (true, s'))
        × (translate_user_addr s'.memory 0x1000 (0x400000 + 18) true
            ≡ (if true && not (has_bit 6 writable) then none else some (0x7000 + 18))))
map_page_in-translates_example =
    map_page_in-translates boot 0x1000 0x400000 0x7000 6 18 true
      (set_free-IsValid three 4 three-IsValid (omega arith)) boot-IsPath (omega arith) (omega arith)
      (omega arith) (omega arith) (omega arith, omega arith) refl (omega arith)
