-- ===== src/Syscall/Tests.antt =====
-- An empty table of files behind a file system that cannot be written, and a page of user space with a path.
use tang_ping_os.Prelude.{
  pos, negsuc, ◌-◌, ◌^◌, ◌+◌, ℕ, ◌≡◌, refl, inl, zero, suc, ◌∷◌, replicate, length-replicate,
  chars_equal, none, some, true, false, [], ◌++◌, Text, Memory, codes, read_le, ◌==◌, if◌then◌else◌,
  arith,
}
use tang_ping_os.Vfs.{Filesystem, root}
use tang_ping_os.Ramfs
use tang_ping_os.Ramfs.{File, max_files, file_max_size, path_valid, path_valid_from}
use tang_ping_os.Ramfs.View.{view}
use tang_ping_os.Ramfs.Update.{overwrite}
use tang_ping_os.Ramfs.Inv.{IsValid, AllOk, Distinct}
use tang_ping_os.Ramfs.Slot.{or_empty}
use tang_ping_os.Ramfs.Spec.{accepts_write}
use tang_ping_os.Ramfs.Mount.{mount}
use tang_ping_os.Vmm.{walk_user, translate_user_addr}
use tang_ping_os.Usercopy.{
  min_u64, range_wraps, step_len, validate_from, validate_range, copy_string, copy_string_from_user,
}
use tang_ping_os.Usercopy.Reading.{user_bytes}
use tang_ping_os.Syscall.{path_of, text_in, write_file}
use tang_ping_os.Syscall.Descriptors.{int_of, signed_of}
use tang_ping_os.Syscall.Mounted.{vfs_files, write_file-overwrite}

abbrev slot : File
slot = record { in_use = false; name = []; bytes = replicate file_max_size 0; size = 0 }

abbrev table : Ramfs.Files
table = replicate max_files slot

slots-AllOk : (n : ℕ) → AllOk (replicate n slot)
slots-AllOk zero = tt
slots-AllOk (suc n) = (omega (arith, length-replicate {A = ℕ} file_max_size 0), slots-AllOk n)

slots-Distinct : (n : ℕ) → Distinct (replicate n slot)
slots-Distinct zero = tt
slots-Distinct (suc n) = (λ used. ground arith, slots-Distinct n)

table-IsValid : IsValid table
table-IsValid = record {
  slots = refl;
  files = slots-AllOk max_files;
  distinct = slots-Distinct max_files;
}

-- A file system that is mounted before the table and cannot be written.
abbrev read_only : Filesystem Ramfs.Files
read_only = record {
  name = codes "initrd";
  path = root;
  source = codes "limine-initrd";
  writable = false;
  backend = record {
    read = λ s path offset buffer len. (none, buffer);
    list = none;
    write = none;
    size = none;
    truncate = none;
    unlink = none;
  };
}

-- The page at 0x400000 lies at 0x5000, and begins with the path `/x`.
abbrev memory : Memory
memory a =
    if a == 0x1000
    then 7
    else if a == 0x1001
    then 0x20
    else if a == 0x2000
    then 7
    else if a == 0x2001
    then 0x30
    else if a == 0x3010
    then 7
    else if a == 0x3011
    then 0x40
    else if a == 0x4000
    then 5
    else if a == 0x4001
    then 0x50
    else if a == 0x5000
    then b'/'
    else if a == 0x5001
    then b'x'
    else 0

path_of-memory : path_of memory 0x1000 0x400000 ≡ some (codes "/x")
unfolding path_of text_in copy_string_from_user copy_string translate_user_addr walk_user read_le
path_of-memory = refl

valid : validate_range memory 0x1000 0x400000 3 false ≡ true
unfolding validate_range validate_from range_wraps step_len min_u64 translate_user_addr walk_user
    read_le
valid = refl

table-accepts : accepts_write table (codes "/x") 4 3 ≡ true
unfolding path_valid path_valid_from
table-accepts = refl

write_file-overwrite_example :
    (fs' : Ramfs.Files) × (write_file
        (vfs_files ((read_only ∷ []) ++ (mount ∷ [])))
        memory
        0x1000
        table
        0x400000
        4
        0x400000
        3
      ≡ (some 3, fs'))
    × ((q : Text)
        → view fs' q ≡ (
            if chars_equal (codes "/x") q
            then some (
                overwrite
                  (or_empty (view table (codes "/x")))
                  4
                  (user_bytes memory 0x1000 0x400000 3))
            else view table q))
    × IsValid fs'
write_file-overwrite_example =
    write_file-overwrite (read_only ∷ []) [] table (codes "/x") memory 0x1000 4 0x400000 3 0x400000
      table-IsValid (inl refl, tt) table-accepts path_of-memory valid (omega arith) (omega arith)
      (omega arith)

int_of-minus_one : int_of (2 ^ 64 - 1) ≡ negsuc 0
unfolding signed_of
int_of-minus_one = refl

int_of-truncates : int_of (2 ^ 32 + 3) ≡ pos 3
unfolding signed_of
int_of-truncates = refl
