-- ===== src/Ramfs/Tests.antt =====
-- A table with one file, and the theorems on it.
use mathlib.Core.Option
use tang_ping_os.Prelude.{
  read_result, ℕ, zero, suc, ◌≡◌, refl, none, some, true, ◌&&◌, List, [], ◌∷◌, ◌++◌, Text, codes,
  chars_equal, length-replicate, get_elem?, drop, take, replicate, if◌then◌else◌, is_some, arith,
  copy_bytes, zero_bytes, copy_limited,
}
use tang_ping_os.Ramfs.{
  File, Files, write, truncate, unlink, read, list, init, max_files, file_max_size, path_valid,
  path_valid_from, cleared, find_or_create, find_file, create_file, free_slot, claim, copy_path,
  write_at,
}
use tang_ping_os.Ramfs.View.{view}
use tang_ping_os.Ramfs.Update.{FileOk, overwrite, resized}
use tang_ping_os.Ramfs.Inv.{IsValid, AllOk}
use tang_ping_os.Ramfs.Slot.{or_empty}
use tang_ping_os.Ramfs.Spec.{
  accepts_write, accepts_truncate, write_refines, truncate_refines, unlink_refines,
}
use tang_ping_os.Ramfs.Reading.{read_refines, entries, list-entries, init-IsValid}
use tang_ping_os.Ramfs.Roundtrip.{read-write}

abbrev old_file : File
old_file = record {
  in_use = true;
  name = codes "/old";
  bytes = replicate file_max_size 7;
  size = 9;
}

-- What the memory of the table may hold before it is initialised.
abbrev old_files : Files
old_files = replicate max_files old_file

AllOk-replicate : (n : ℕ) (f : File) → FileOk f → AllOk (replicate n f)
AllOk-replicate zero f ok = tt
AllOk-replicate (suc n) f ok = (ok, AllOk-replicate n f ok)

old_files-AllOk : AllOk old_files
old_files-AllOk =
    AllOk-replicate max_files old_file (omega (arith, length-replicate {A = ℕ} file_max_size 7))

init-IsValid_example :
    IsValid (init old_files) × ((path : Text) → view (init old_files) path ≡ none)
init-IsValid_example = init-IsValid old_files refl old_files-AllOk

abbrev message : List ℕ
message = codes "hi!"

abbrev note : Text
note = codes "/note"

abbrev fresh : Files
fresh = init old_files

abbrev with_note : Files
with_note = (write fresh note 4 message 3).1

write_refines_example :
    let (r, fs') = write fresh note 4 message 3 in
    let accepted = accepts_write fresh note 4 3 in
    (r ≡ (if accepted then some 3 else none))
    × ((q : Text)
        → view fs' q ≡ (
            if accepted && chars_equal note q
            then some (overwrite (or_empty (view fresh note)) 4 (take 3 message))
            else view fresh q))
    × IsValid fs'
write_refines_example = write_refines fresh init-IsValid_example.0 note 4 message 3 (omega arith)

with_note-IsValid : IsValid with_note
with_note-IsValid = (write_refines fresh init-IsValid_example.0 note 4 message 3 (omega arith)).2

-- The gap before the offset reads as zeros.
view-with_note : view with_note note ≡ some (0 ∷ 0 ∷ 0 ∷ 0 ∷ b'h' ∷ b'i' ∷ b'!' ∷ [])
unfolding write init path_valid path_valid_from find_or_create find_file create_file free_slot claim
    copy_path write_at copy_bytes zero_bytes cleared copy_limited chars_equal
view-with_note = refl

truncate_refines_example :
    let (r, fs') = truncate with_note note 6 in
    let accepted = accepts_truncate with_note note 6 in
    (r ≡ accepted)
    × ((q : Text)
        → view fs' q ≡ (
            if accepted && chars_equal note q
            then some (resized (or_empty (view with_note note)) 6)
            else view with_note q))
    × IsValid fs'
truncate_refines_example = truncate_refines with_note with_note-IsValid note 6

unlink_refines_example :
    let (r, fs') = unlink with_note note in
    (r ≡ (path_valid note && is_some (view with_note note)))
    × ((q : Text)
        → view fs' q ≡ (if path_valid note && chars_equal note q then none else view with_note q))
    × IsValid fs'
unlink_refines_example = unlink_refines with_note with_note-IsValid note

read_refines_example :
    read with_note note 5 (replicate 8 1) 8
    ≡ Option.map (λ bytes. read_result bytes 5 (replicate 8 1) 8) (view with_note note)
read_refines_example =
    read_refines with_note with_note-IsValid note 5 (replicate 8 1) 8 (omega arith)

list-entries_example :
    list with_note (codes "/") 0
    ≡ (if chars_equal (codes "/") (codes "/") then some (get_elem? (entries with_note) 0) else none)
list-entries_example = list-entries with_note (codes "/") 0

fresh-accepts : accepts_write fresh note 4 3 ≡ true
unfolding path_valid init
fresh-accepts = refl

read-write_example :
    read with_note note 4 (replicate 8 1) 3 ≡ some (3, message ++ drop 3 (replicate 8 1))
read-write_example =
    read-write fresh note 4 message (replicate 8 1) init-IsValid_example.0 fresh-accepts
      (omega arith)
