-- ===== src/Initrd/Scan.antt =====
-- The scan of the archive: it ends, and the files that it finds lie in the archive.
use tang_ping_os.Prelude.{
  some, ℕ, zero, suc, ◌+◌, ◌-◌, ◌*◌, ◌/◌, ◌%◌, ◌^◌, ◌≤◌, ◌<◌, ◌≡◌, refl, inl, inr, Bool, true,
  false, ◌&&◌, ◌||◌, List, [], ◌∷◌, ◌++◌, Text, length, length-append, length-take, get_or, take,
  drop, ltb, ◌==◌, add64, u64_mod, Bool-cases, arith,
}
use tang_ping_os.Initrd.{
  File, max_files, name_max, tar_block_size, size_len, size_field, prefix_len, prefix_field,
  name_len, octal_from, parse_octal, add_text, copy_tar_name, record_size, header_at, entry_size,
  has_entry, is_truncated, add_entry, scan, blocks, found, init, field_text, type_field,
}

-- The largest number that `n` more octal digits can be put behind.
abbrev limit : ℕ → ℕ
limit zero = 2 ^ 36
limit (suc n) = limit n / 8

limit-le : (n : ℕ) → limit n ≤ 2 ^ 36
limit-le zero = omega arith
limit-le (suc n) = omega (arith, limit-le n)

octal_from-lt :
    (n result : ℕ) (s : Text) → length s ≤ n → result < limit n → octal_from result s < 2 ^ 36
unfolding octal_from
octal_from-lt n result [] h lt = omega (arith, limit-le n)
octal_from-lt zero result (c ∷ s) h lt = absurd (omega arith)
octal_from-lt (suc n) result (c ∷ s) h lt =
    ground (arith, limit-le n, octal_from-lt n (add64 (result * 8 % u64_mod) (c - b'0')) s)

entry_size-lt : (image : List ℕ) (cursor : ℕ) → entry_size image cursor < 2 ^ 36
unfolding parse_octal
entry_size-lt image cursor =
    let field : Text = take size_len (drop size_field (header_at image cursor)) in
    octal_from-lt 12 0 field
      (omega (arith, length-take size_len (drop size_field (header_at image cursor)))) (omega arith)

-- Every round moves the cursor past the header and the bytes of the entry.
record_size-le :
    (image : List ℕ) (cursor : ℕ)
    → tar_block_size + entry_size image cursor ≤ record_size (entry_size image cursor)
unfolding record_size
record_size-le image cursor = omega (arith, entry_size-lt image cursor)

-- A round that goes on ends in the archive.
next_cursor-le :
    (image : List ℕ) (cursor : ℕ)
    → is_truncated image cursor ≡ false
    → cursor + record_size (entry_size image cursor) ≤ length image
unfolding is_truncated
next_cursor-le image cursor whole = ground arith

-- More rounds than the rest of the archive has blocks are enough, and more make no difference.
scan_ends :
    (fuel extra : ℕ) (image : List ℕ) (cursor : ℕ) (files : List File)
    → cursor ≤ length image
    → length image < cursor + fuel * tar_block_size
    → (result : List File) × (scan fuel image cursor files ≡ some result)
      × (scan (fuel + extra) image cursor files ≡ some result)
unfolding scan
scan_ends zero extra image cursor files le h = absurd (omega arith)
scan_ends (suc fuel) extra image cursor files le h =
    let more : suc fuel + extra ≡ suc (fuel + extra) = omega arith in
    elim (Bool-cases (has_entry image cursor)) [
      | inr end ↦ (files, rw end refl, rw (more, end) refl)
      | inl entry ↦ elim (Bool-cases (is_truncated image cursor)) [
        | inl cut ↦ (files, rw (entry, cut) refl, rw (more, entry, cut) refl)
        | inr whole ↦
            let (result, e, e') =
              scan_ends fuel extra image (cursor + record_size (entry_size image cursor))
                (add_entry image cursor files) (next_cursor-le image cursor whole)
                (omega (arith, record_size-le image cursor)) in
            (result, rw (entry, whole) e, rw (more, entry, whole) e')
      ]
    ]

-- The loop of `initrd_init` ends, for any bytes of the archive: within one round more than the
-- archive has blocks of 512 bytes it comes to its end, with the files of `init`, and further rounds
-- allowed to it change nothing.
pub scan-init :
    (extra : ℕ) (image : List ℕ)
    → (scan (blocks image + 1) image 0 [] ≡ some (init image))
      × (scan (blocks image + 1 + extra) image 0 [] ≡ some (init image))
unfolding init
scan-init extra image =
    let (result, e, e') =
      scan_ends (blocks image + 1) extra image 0 [] (omega arith) (omega arith) in
    (rw e refl, rw e e')

length-add_text : (out s : Text) → length out < name_max → length (add_text out s) < name_max
unfolding add_text
length-add_text out [] h = h
length-add_text out (c ∷ s) h =
    ground (arith, length-append out (c ∷ []), length-add_text (out ++ (c ∷ [])) s)

length-snoc :
    (out : Text) (c : ℕ)
    → ltb (length out + 1) name_max ≡ true
    → length (out ++ (c ∷ [])) < name_max
length-snoc out c h = ground (arith, length-append out (c ∷ []))

length-copy_tar_name : (header : List ℕ) → length (copy_tar_name header) < name_max
unfolding copy_tar_name
length-copy_tar_name header =
    let name : Text = field_text (take name_len header) in
    let prefix : Text = field_text (take prefix_len (drop prefix_field header)) in
    let copied : Text = add_text [] prefix in
    let bound = length-add_text [] prefix (omega arith) in
    elim (Bool-cases (get_or header prefix_field 0 == 0)) [
      | inl plain ↦ rw plain (length-add_text [] name (omega arith))
      | inr long ↦ rw long (elim (Bool-cases (ltb (length copied + 1) name_max)) [
        | inl room ↦
            rw room (length-add_text (copied ++ (b'/' ∷ [])) name (length-snoc copied b'/' room))
        | inr full ↦ rw full (length-add_text copied name bound)
      ])
    ]

-- The bytes of every file lie in the archive, behind a header, and its name fits its array.
abbrev pub AllInside : List ℕ → List File → Type 0
AllInside image [] = Unit
AllInside image (f ∷ fs) =
    (tar_block_size ≤ f.start)
    × (f.start + f.size ≤ length image)
    × (length f.name < name_max)
    × AllInside image fs

AllInside-append :
    (image : List ℕ) (fs : List File) (f : File)
    → AllInside image fs
    → tar_block_size ≤ f.start
    → f.start + f.size ≤ length image
    → length f.name < name_max
    → AllInside image (fs ++ (f ∷ []))
AllInside-append image [] f a s e n = (s, e, n, tt)
AllInside-append image (g ∷ fs) f a s e n = (a.0, a.1, a.2, AllInside-append image fs f a.3 s e n)

abbrev Inside : List ℕ → List File → Type 0
Inside image fs = AllInside image fs × (length fs ≤ max_files)

le_of_not_truncated : (a b n : ℕ) → (ltb n a || ltb n b) ≡ false → a ≤ n
le_of_not_truncated a b n h = ground arith

length-added :
    (files : List File) (f : File) (b : Bool)
    → (b && ltb (length files) max_files) ≡ true
    → length (files ++ (f ∷ [])) ≤ max_files
length-added files f b h = ground (arith, length-append files (f ∷ []))

add_entry-Inside :
    (image : List ℕ) (cursor : ℕ) (files : List File)
    → is_truncated image cursor ≡ false
    → Inside image files
    → Inside image (add_entry image cursor files)
unfolding add_entry is_truncated
add_entry-Inside image cursor files whole a =
    let type : ℕ = get_or (header_at image cursor) type_field 0 in
    let f : File = record {
      name = copy_tar_name (header_at image cursor);
      start = cursor + tar_block_size;
      size = entry_size image cursor;
    } in
    elim (Bool-cases ((type == 0 || type == b'0') && ltb (length files) max_files)) [
      | inr skipped ↦ rw skipped a
      | inl added ↦ rw added (
        AllInside-append image files f a.0 (omega arith)
            (le_of_not_truncated (cursor + tar_block_size + entry_size image cursor)
              (cursor + record_size (entry_size image cursor)) (length image) whole)
            (length-copy_tar_name (header_at image cursor)),
        length-added files f (type == 0 || type == b'0') added,
      )
    ]

scan-Inside :
    (fuel : ℕ) (image : List ℕ) (cursor : ℕ) (files : List File)
    → Inside image files
    → Inside image (found (scan fuel image cursor files))
unfolding scan
scan-Inside zero image cursor files a = (tt, omega arith)
scan-Inside (suc fuel) image cursor files a = elim (Bool-cases (has_entry image cursor)) [
  | inr end ↦ rw end a
  | inl more ↦ elim (Bool-cases (is_truncated image cursor)) [
    | inl cut ↦ rw (more, cut) a
    | inr whole ↦
        rw (more, whole)
          (scan-Inside fuel image (cursor + record_size (entry_size image cursor))
            (add_entry image cursor files) (add_entry-Inside image cursor files whole a))
  ]
]

-- Whatever bytes the archive holds, `initrd_init` keeps at most 32 files, whose data lies in the
-- archive behind a header, and whose names fit their arrays of 128 characters.
pub init-AllInside :
    (image : List ℕ) → AllInside image (init image) × (length (init image) ≤ max_files)
unfolding init
init-AllInside image = scan-Inside (blocks image + 1) image 0 [] (tt, omega arith)
