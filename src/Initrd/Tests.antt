-- ===== src/Initrd/Tests.antt =====
-- Runs of the initial RAM disk.
use mathlib.Core.Option
use tang_ping_os.Prelude.{
  ℕ, ◌+◌, ◌≤◌, ◌≡◌, refl, some, List, [], ◌∷◌, ◌++◌, Text, codes, length, get_elem?, replicate,
  chars_equal, copy_limited,
}
use tang_ping_os.Vfs.Entry.{DirentType}
use tang_ping_os.Initrd.{
  File, max_files, dir_of, listed_child, list_from, path_child_for_dir, after_dir, normalize_path,
  skip_slashes, first_part, has_slash, has_entry, is_zero_block, is_truncated, parse_octal,
  octal_from, record_size, add_entry, copy_tar_name, add_text, field_text, blocks, scan, init,
  copy_user_path, find_file, file_size, list_dir,
}
use tang_ping_os.Initrd.Scan.{AllInside, scan-init, init-AllInside}
use tang_ping_os.Initrd.Listing.{dirent_of, children, has_name, Distinct, list_dir_lem}

-- An archive of one file `bin/hello`, of 5 bytes, and a zero block.
abbrev image : List ℕ
image =
    codes "bin/hello"
    ++ replicate 115 0
    ++ codes "00000000005"
    ++ replicate 21 0
    ++ codes "0"
    ++ replicate 355 0
    ++ codes "bytes"
    ++ replicate 507 0
    ++ replicate 512 0

abbrev hello : File
hello = record { name = codes "bin/hello"; start = 512; size = 5 }

init-image : init image ≡ hello ∷ []
unfolding init scan has_entry is_zero_block is_truncated parse_octal octal_from record_size
    add_entry copy_tar_name add_text field_text
init-image = refl

parse_octal-spaces : parse_octal (codes "0001750 rest") ≡ 1000
unfolding parse_octal octal_from
parse_octal-spaces = refl

abbrev files : List File
files =
    hello
    ∷ record { name = codes "bin/cat"; start = 2048; size = 7 }
    ∷ record { name = codes "motd"; start = 3072; size = 9 }
    ∷ []

list_dir-root :
    list_dir files (codes "/") 1
    ≡ some (record { name = codes "motd"; type = DirentType.file; size = 9 })
unfolding list_dir list_from path_child_for_dir after_dir normalize_path skip_slashes first_part
    listed_child chars_equal copy_limited has_slash
list_dir-root = refl

file_size-hello : file_size files (codes "/bin/hello") ≡ some 5
unfolding file_size find_file chars_equal copy_user_path copy_limited normalize_path skip_slashes
file_size-hello = refl

scan-init_example :
    (scan (blocks image + 1) image 0 [] ≡ some (init image))
    × (scan (blocks image + 1 + 4) image 0 [] ≡ some (init image))
scan-init_example = scan-init 4 image

init-AllInside_example : AllInside image (init image) × (length (init image) ≤ max_files)
init-AllInside_example = init-AllInside image

list_dir_lem_example :
    (list_dir files (codes "bin") 1
      ≡ Option.map dirent_of (get_elem? (children (dir_of (codes "bin")) [] files) 1))
    × Distinct (children (dir_of (codes "bin")) [] files)
    × ((name : Text)
        → has_name name (children (dir_of (codes "bin")) [] files)
          ≡ listed_child (dir_of (codes "bin")) files name)
list_dir_lem_example = list_dir_lem files (codes "bin") 1
