-- ===== src/Ramfs.antt =====
-- kernel/ramfs.c: the writable file system in memory, a fixed table of files of at most 1024 bytes.
-- A path is a C string; `none` as a result is the source's `(uint64_t)-1`, `-1` or null pointer.
pub mod View
pub mod Update
pub mod Inv
pub mod Slot
pub mod Spec
pub mod Reading
pub mod Roundtrip
pub mod Mount
mod Tests
use mathlib.Core.Option
use tang_ping_os.Prelude.{
  ℕ, zero, suc, ◌+◌, ◌-◌, Option, none, some, Bool, true, false, not, ◌&&◌, ◌||◌, List, [], ◌∷◌,
  Text, codes, chars_equal, copy_limited, length, get_or, set, take, drop, replicate, ltb, leb,
  ◌==◌, if◌then◌else◌, min, copy_bytes, zero_bytes,
}
use tang_ping_os.Vfs.Entry.{Dirent, DirentType}

abbrev pub max_files : ℕ
max_files = 16

abbrev pub name_max : ℕ
name_max = 64

abbrev pub file_max_size : ℕ
file_max_size = 1024

abbrev pub dirent_name_max : ℕ
dirent_name_max = 64

-- `struct ramfs_file`; `bytes` is its array `data`.
pub record File : Type 0 where
  pub in_use : Bool
  pub name : Text
  pub bytes : List ℕ
  pub size : ℕ

-- The array `files`.
abbrev pub Files : Type 0
Files = List File

-- The loop of `ramfs_path_valid` from index `i` on.
unfoldable pub path_valid_from : ℕ → Text → Bool
path_valid_from i [] = true
path_valid_from i (c ∷ p) =
    let rest = path_valid_from (i + 1) p in
    if c == b'/' then false else if leb name_max (i + 1) then false else rest

unfoldable pub path_valid : Text → Bool
unfolding path_valid_from
path_valid [] = false
path_valid (c ∷ []) = false
path_valid (c ∷ d ∷ p) = c == b'/' && path_valid_from 1 (d ∷ p)

pub copy_path : Text → Text
unfolding copy_limited
copy_path src = copy_limited name_max src

pub copy_dirent_name : Text → Text
unfolding copy_limited
copy_dirent_name path =
    copy_limited dirent_name_max (if get_or path 0 0 == b'/' then drop 1 path else path)

abbrev pub is_file : File → Text → Bool
is_file f path = f.in_use && chars_equal f.name path

-- The index of the file that the loop returns a pointer to.
pub find_file : Files → Text → Option ℕ
find_file [] path = none
find_file (f ∷ fs) path = if is_file f path then some 0 else Option.map suc (find_file fs path)

-- The loop of `create_file`: the first free slot.
pub free_slot : Files → Option ℕ
free_slot [] = none
free_slot (f ∷ fs) = if not f.in_use then some 0 else Option.map suc (free_slot fs)

abbrev pub no_file : File
no_file = record { in_use = false; name = []; bytes = []; size = 0 }

-- What `create_file` makes of the slot that it takes. The old bytes stay in it.
pub claim : Text → File → File
unfolding copy_path
claim path f = record f { in_use = true; size = 0; name = copy_path path }

-- The index of the new file, and the table with its slot taken.
pub create_file : Files → Text → Option (ℕ × Files)
unfolding free_slot claim
create_file fs path =
    Option.map (λ i. (i, set fs i (claim path (get_or fs i no_file)))) (free_slot fs)

-- `find_file`, and `create_file` where it finds none: the common part of writes and truncations.
pub find_or_create : Files → Text → Option (ℕ × Files)
unfolding find_file create_file
find_or_create fs path = elim (find_file fs path) [
  | some i ↦ some (i, fs)
  | none ↦ create_file fs path
]

-- The rest of `ramfs_read` once it has its file: the number of bytes copied and the caller's buffer
-- after the copy.
pub read_from : File → ℕ → List ℕ → ℕ → ℕ × List ℕ
read_from f offset buffer buffer_len =
    let available = f.size - offset in
    let to_copy = if ltb buffer_len available then buffer_len else available in
    if leb f.size offset then (0, buffer) else (to_copy, copy_bytes to_copy buffer 0 f.bytes offset)

pub read : Files → Text → ℕ → List ℕ → ℕ → Option (ℕ × List ℕ)
read fs path offset buffer buffer_len =
    Option.map (λ i. read_from (get_or fs i no_file) offset buffer buffer_len) (find_file fs path)

-- The loop of `ramfs_list`.
pub list_from : Files → ℕ → ℕ → Option Dirent
list_from [] index seen = none
list_from (f ∷ fs) index seen =
    let skip = list_from fs index seen in
    let next = list_from fs index (seen + 1) in
    if not f.in_use
    then skip
    else if seen == index
    then some (record { name = copy_dirent_name f.name; type = DirentType.file; size = f.size })
    else next

-- `none` is -1, `some none` is 0 (no more entries) and `some (some e)` is 1 with `*out = e`.
pub list : Files → Text → ℕ → Option (Option Dirent)
unfolding list_from
list fs path index =
    if not (chars_equal path (codes "/")) then none else some (list_from fs index 0)

-- The body of `ramfs_write` once it has its file.
pub write_at : ℕ → List ℕ → ℕ → File → File
unfolding copy_bytes zero_bytes
write_at offset buffer buffer_len f =
    let padded =
      if ltb f.size offset then zero_bytes (offset - f.size) f.bytes f.size else f.bytes in
    let written = copy_bytes buffer_len padded offset buffer 0 in
    record f {
      bytes = written;
      size = if ltb f.size (offset + buffer_len) then offset + buffer_len else f.size;
    }

-- The number of bytes written, and the table after.
pub write : Files → Text → ℕ → List ℕ → ℕ → Option ℕ × Files
write fs path offset buffer buffer_len =
    if not (path_valid path) || ltb file_max_size offset || ltb (file_max_size - offset) buffer_len
    then (none, fs)
    else elim (find_or_create fs path) [
      | none ↦ (none, fs)
      | some (i, fs') ↦
          (some buffer_len, set fs' i (write_at offset buffer buffer_len (get_or fs' i no_file)))
    ]

pub size : Files → Text → Option ℕ
unfolding find_file
size fs path = Option.map (λ i. (get_or fs i no_file).size) (find_file fs path)

-- The body of `ramfs_truncate` once it has its file.
pub resize : ℕ → File → File
unfolding zero_bytes
resize n f = record f {
  bytes = if ltb f.size n then zero_bytes (n - f.size) f.bytes f.size else f.bytes;
  size = n;
}

-- `true` is the source's 0.
pub truncate : Files → Text → ℕ → Bool × Files
truncate fs path n =
    if not (path_valid path) || ltb file_max_size n
    then (false, fs)
    else elim (find_or_create fs path) [
      | none ↦ (false, fs)
      | some (i, fs') ↦ (true, set fs' i (resize n (get_or fs' i no_file)))
    ]

-- What `ramfs_unlink` leaves of a file, and `ramfs_init` of every slot.
pub cleared : File → File
cleared f = record f { in_use = false; size = 0; name = [] }

pub unlink : Files → Text → Bool × Files
unlink fs path = if not (path_valid path) then (false, fs) else elim (find_file fs path) [
  | none ↦ (false, fs)
  | some i ↦ (true, set fs i (cleared (get_or fs i no_file)))
]

-- The loop of `ramfs_init`.
pub init : Files → Files
unfolding cleared
init [] = []
init (f ∷ fs) = cleared f ∷ init fs
