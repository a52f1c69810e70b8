-- ===== src/Usercopy/Tests.antt =====
-- The theorems on user memory, where one page is mapped.
use tang_ping_os.Prelude.{
  ◌+◌, ◌<◌, ◌≡◌, ◌↔◌, ◌⊎◌, true, false, ◌∷◌, ◌++◌, Text, Memory, write64, length, drop, replicate,
  arith,
}
use tang_ping_os.Usercopy.{validate_range, copy_from_user, copy_string_from_user}
use tang_ping_os.Usercopy.Range.{Accessible, validate_range_iff}
use tang_ping_os.Usercopy.Reading.{accepts, user_bytes, copy_from_user_lem}
use tang_ping_os.Usercopy.Texts.{IsText, copy_string_from_user_lem}

abbrev tables : Memory
tables =
    write64 (write64 (write64 (write64 (λ a. 0x41) 0x1000 0x2007) 0x2000 0x3007) 0x3010 0x4007)
      0x4000 0x5005

validate_range_iff_example :
    (validate_range tables 0x1000 0x400ff0 32 false ≡ true)
    ↔ Accessible tables 0x1000 0x400ff0 32 false
validate_range_iff_example =
    validate_range_iff tables 0x1000 0x400ff0 32 false (omega arith) (omega arith)

copy_from_user_lem_example :
    ((accepts tables 0x1000 0x400010 3 ≡ true)
      × (copy_from_user tables 0x1000 0x400010 3 (replicate 4 0)
          ≡ (true, user_bytes tables 0x1000 0x400010 3 ++ drop 3 (replicate 4 0))))
    ⊎ ((accepts tables 0x1000 0x400010 3 ≡ false)
        × ((copy_from_user tables 0x1000 0x400010 3 (replicate 4 0)).0 ≡ false)
        × (drop 3 (copy_from_user tables 0x1000 0x400010 3 (replicate 4 0)).1
            ≡ drop 3 (replicate 4 0)))
copy_from_user_lem_example =
    copy_from_user_lem tables 0x1000 0x400010 3 (replicate 4 0) (omega arith) (omega arith)
      (omega arith)

copy_string_from_user_lem_example :
    ((s : Text) × IsText tables 0x1000 0x400010 s
      × (length s < 4)
      × (copy_string_from_user tables 0x1000 0x400010 (replicate 4 0) 4
          ≡ (true, s ++ (0 ∷ drop (length s + 1) (replicate 4 0)))))
    ⊎ (¬ ((s : Text) × IsText tables 0x1000 0x400010 s × (length s < 4))
        × ((copy_string_from_user tables 0x1000 0x400010 (replicate 4 0) 4).0 ≡ false))
copy_string_from_user_lem_example =
    copy_string_from_user_lem tables 0x1000 0x400010 (replicate 4 0) 4 (omega arith) (omega arith)
      (omega arith)
