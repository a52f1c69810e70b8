-- ===== src/Initrd.antt =====
-- kernel/initrd.c: the read-only file system in the tar archive that the boot loader hands over.
-- The archive is the list of its bytes, and a pointer into it an offset; a text is the list of the
-- characters before its NUL. `none` is the result (uint64_t)-1. The tests for null pointers are left
-- out, and so is the registration with the virtual file system.
pub mod Scan
pub mod Listing
pub mod Reading
mod Tests
use mathlib.Core.Option
use tang_ping_os.Prelude.{
  ℕ, zero, suc, ◌+◌, ◌-◌, ◌*◌, ◌/◌, ◌%◌, Option, none, some, Bool, true, false, not, ◌&&◌, ◌||◌,
  List, [], ◌∷◌, ◌++◌, Text, codes, chars_equal, copy_limited, length, get_or, take, drop, ltb, leb,
  ◌==◌, if◌then◌else◌, add64, u64_mod, copy_bytes,
}
use tang_ping_os.Vfs.Entry.{Dirent, DirentType}

abbrev pub max_files : ℕ
max_files = 32

abbrev pub name_max : ℕ
name_max = 128

abbrev pub tar_block_size : ℕ
tar_block_size = 512

abbrev pub dirent_name_max : ℕ
dirent_name_max = 64

-- `struct initrd_file`; `start` is where `data` points.
pub record File : Type 0 where
  pub name : Text
  pub start : ℕ
  pub size : ℕ

-- The offsets and lengths of the fields of `struct tar_header` that are read.
abbrev pub name_len : ℕ
name_len = 100

abbrev pub size_field : ℕ
size_field = 124

abbrev pub size_len : ℕ
size_len = 12

abbrev pub type_field : ℕ
type_field = 156

abbrev pub prefix_field : ℕ
prefix_field = 345

abbrev pub prefix_len : ℕ
prefix_len = 155

-- `parse_octal` from `result` on: the characters of a field up to the first that is no octal digit.
pub octal_from : ℕ → Text → ℕ
octal_from result [] = result
octal_from result (c ∷ s) =
    let more = octal_from (add64 (result * 8 % u64_mod) (c - b'0')) s in
    if c == 0 || c == b' ' then result else if ltb c b'0' || ltb b'7' c then result else more

pub parse_octal : Text → ℕ
parse_octal s = octal_from 0 s

-- `is_zero_block` on the bytes of a block.
pub is_zero_block : List ℕ → Bool
is_zero_block [] = true
is_zero_block (b ∷ bs) = b == 0 && is_zero_block bs

-- The characters of a field before its NUL, if it has one.
pub field_text : List ℕ → Text
field_text [] = []
field_text (c ∷ s) = if c == 0 then [] else c ∷ field_text s

-- The two loops of `copy_tar_name`: characters are added while there is room.
pub add_text : Text → Text → Text
add_text out [] = out
add_text out (c ∷ s) = if leb name_max (length out + 1) then out else add_text (out ++ (c ∷ [])) s

pub copy_tar_name : List ℕ → Text
copy_tar_name header =
    let prefix = field_text (take prefix_len (drop prefix_field header)) in
    let name = field_text (take name_len header) in
    let copied = add_text [] prefix in
    let before = if ltb (length copied + 1) name_max then copied ++ (b'/' ∷ []) else copied in
    if get_or header prefix_field 0 == 0 then add_text [] name else add_text before name

-- `TAR_BLOCK_SIZE + ((size + TAR_BLOCK_SIZE - 1) & ~(TAR_BLOCK_SIZE - 1))`
pub record_size : ℕ → ℕ
record_size size =
    add64 tar_block_size (add64 size (tar_block_size - 1) / tar_block_size * tar_block_size)

abbrev pub header_at : List ℕ → ℕ → List ℕ
header_at image cursor = take tar_block_size (drop cursor image)

abbrev pub entry_size : List ℕ → ℕ → ℕ
entry_size image cursor = parse_octal (take size_len (drop size_field (header_at image cursor)))

-- Whether the loop of `initrd_init` reads an entry at the cursor.
pub has_entry : List ℕ → ℕ → Bool
has_entry image cursor =
    leb (cursor + tar_block_size) (length image) && not (is_zero_block (header_at image cursor))

pub is_truncated : List ℕ → ℕ → Bool
is_truncated image cursor =
    ltb (length image) (cursor + tar_block_size + entry_size image cursor)
    || ltb (length image) (cursor + record_size (entry_size image cursor))

-- The files after the entry at the cursor.
pub add_entry : List ℕ → ℕ → List File → List File
add_entry image cursor files =
    let type = get_or (header_at image cursor) type_field 0 in
    if (type == 0 || type == b'0') && ltb (length files) max_files
    then files
      ++ (record {
        name = copy_tar_name (header_at image cursor);
        start = cursor + tar_block_size;
        size = entry_size image cursor;
      }
          ∷ [])
    else files

-- The loop of `initrd_init`, which has no result when the rounds allowed to it are used up. A round
-- moves the cursor by a block at least, so one more than the blocks of the archive is enough fuel.
pub scan : ℕ → List ℕ → ℕ → List File → Option (List File)
scan zero image cursor files = none
scan (suc fuel) image cursor files =
    let next =
      scan fuel image (cursor + record_size (entry_size image cursor))
        (add_entry image cursor files) in
    if not (has_entry image cursor)
    then some files
    else if is_truncated image cursor
    then some files
    else next

abbrev pub blocks : List ℕ → ℕ
blocks image = length image / tar_block_size

abbrev pub found : Option (List File) → List File
found none = []
found (some files) = files

pub init : List ℕ → List File
init image = found (scan (blocks image + 1) image 0 [])

-- `struct limine_file`, the bytes it points to in place of their address.
pub record LimineFile : Type 0 where
  pub path : Option Text
  pub string : Option Text
  pub bytes : List ℕ

pub ends_with : Text → Text → Bool
ends_with s suffix =
    if ltb (length s) (length suffix)
    then false
    else chars_equal (drop (length s - length suffix) s) suffix

abbrev pub is_initrd : LimineFile → Bool
is_initrd m =
    (elim m.string [ none ↦ false | some s ↦ chars_equal s (codes "initrd") ])
    || (elim m.path [ none ↦ false | some s ↦ ends_with s (codes "/initrd.tar") ])

pub find_module : List LimineFile → Option LimineFile
find_module [] = none
find_module (m ∷ ms) = let rest = find_module ms in if is_initrd m then some m else rest

-- The files after `initrd_init` on the modules of the boot loader.
pub init_modules : List LimineFile → List File
init_modules modules = elim (find_module modules) [ none ↦ [] | some m ↦ init m.bytes ]

-- The loop of `normalize_path`, and `./` at the start of what it leaves.
pub skip_slashes : Text → Text
skip_slashes [] = []
skip_slashes (c ∷ s) = if c == b'/' then skip_slashes s else c ∷ s

pub normalize_path : Text → Text
normalize_path path =
    let s = skip_slashes path in
    if get_or s 0 0 == b'.' && get_or s 1 0 == b'/' then drop 2 s else s

pub copy_user_path : Text → Text
copy_user_path path = copy_limited name_max (normalize_path path)

-- The first file of a name, for which the loops of reading and of the size look.
pub find_file : List File → Text → Option File
find_file [] name = none
find_file (f ∷ fs) name = if chars_equal name f.name then some f else find_file fs name

-- The number of bytes read, and the buffer after.
pub read_file : List ℕ → List File → Text → ℕ → List ℕ → ℕ → Option (ℕ × List ℕ)
read_file image files path offset buffer buffer_len =
    Option.map
      (λ (f : File).
        let remaining = f.size - offset in
        let to_copy = if ltb remaining buffer_len then remaining else buffer_len in
        if leb f.size offset
        then (0, buffer)
        else (to_copy, copy_bytes to_copy buffer 0 image (f.start + offset)))
      (find_file files (copy_user_path path))

pub file_size : List File → Text → Option ℕ
file_size files path = Option.map (λ (f : File). f.size) (find_file files (copy_user_path path))

-- The characters of a path up to its first slash, and whether there is one.
pub first_part : Text → Text
first_part [] = []
first_part (c ∷ s) = if c == b'/' then [] else c ∷ first_part s

pub has_slash : Text → Bool
has_slash [] = false
has_slash (c ∷ s) = c == b'/' || has_slash s

-- `chars_equal_n(name, dir, length of dir)`, and what follows in the name.
pub after_dir : Text → Text → Option Text
after_dir name [] = some name
after_dir [] (d ∷ dir) = none
after_dir (c ∷ name) (d ∷ dir) = if c == d then after_dir name dir else none

-- `path_child_for_dir`: the child's name, and whether it is a directory.
pub path_child_for_dir : Text → Text → Option (Text × Bool)
path_child_for_dir name dir = elim (after_dir name dir) [
  | none ↦ none
  | some rest ↦
      let inside = length dir == 0 in
      let local = if inside then rest else drop 1 rest in
      if not inside && not (get_or rest 0 0 == b'/')
      then none
      else if length (first_part local) == 0
      then none
      else some (first_part local, has_slash local)
]

-- `listed_child_before` among the files given.
pub listed_child : Text → List File → Text → Bool
listed_child dir [] child = false
listed_child dir (f ∷ fs) child =
    let rest = listed_child dir fs child in
    elim (path_child_for_dir f.name dir) [
      | none ↦ rest
      | some (c, is_dir) ↦ if chars_equal c child then true else rest
    ]

-- The loop of `initrd_list_dir` over the files from `fs` on, behind the files `before`.
pub list_from : Text → List File → List File → ℕ → ℕ → Option Dirent
list_from dir before [] index seen = none
list_from dir before (f ∷ fs) index seen =
    let skip = list_from dir (before ++ (f ∷ [])) fs index seen in
    let next = list_from dir (before ++ (f ∷ [])) fs index (seen + 1) in
    elim (path_child_for_dir f.name dir) [
      | none ↦ skip
      | some (child, is_dir) ↦
          if listed_child dir before child
          then skip
          else if seen == index
          then some (record {
            name = copy_limited dirent_name_max child;
            type = if is_dir then DirentType.dir else DirentType.file;
            size = if is_dir then 0 else f.size;
          })
          else next
    ]

-- The directory that a path names, the root of the archive being the empty text.
abbrev pub dir_of : Text → Text
dir_of path = let d = normalize_path path in if get_or d 0 0 == b'.' && length d == 1 then [] else d

pub list_dir : List File → Text → ℕ → Option Dirent
list_dir files path index = list_from (dir_of path) [] files index 0
