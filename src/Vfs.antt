-- ===== src/Vfs.antt =====
-- kernel/vfs.c: the table of mounted file systems and the dispatch of each call to them by path.
-- `S` is the state that the mounted file systems keep; a callback that changes it returns it.
-- `none` is the source's `(uint64_t)-1` or -1, `true` its 0. Null pointers as arguments, which
-- every call answers with -1 at once, are left out: the callers in the kernel pass arrays.
pub mod Entry
pub mod Ops
pub mod Paths
pub mod Dispatch
mod Tests
use tang_ping_os.Prelude.{
  ℕ, zero, suc, ◌+◌, ◌-◌, ◌<◌, Option, none, some, Bool, true, false, not, ◌&&◌, ◌||◌, List, [],
  ◌∷◌, ◌++◌, Text, codes, chars_equal, copy_limited, length, get_or, take, drop, ltb, leb, ◌==◌,
  if◌then◌else◌, is_some,
}
use tang_ping_os.Vfs.Entry.{Dirent, DirentType}

abbrev pub max_filesystems : ℕ
max_filesystems = 8

abbrev pub max_dirents_per_fs : ℕ
max_dirents_per_fs = 64

abbrev pub mount_path_max : ℕ
mount_path_max = 64

abbrev pub mount_name_max : ℕ
mount_name_max = 32

abbrev pub root : Text
root = codes "/"

-- The function pointers of `struct vfs_filesystem` with their context. `list` returns `none` for
-- -1, `some none` for 0 and `some (some e)` for 1 with the entry `e`; `read` returns its result and
-- the buffer after.
pub record Backend (S : Type 0) : Type 0 where
  pub read : S → Text → ℕ → List ℕ → ℕ → Option ℕ × List ℕ
  pub list : Option (S → Text → ℕ → Option (Option Dirent))
  pub write : Option (S → Text → ℕ → List ℕ → ℕ → Option ℕ × S)
  pub size : Option (S → Text → Option ℕ)
  pub truncate : Option (S → Text → ℕ → Bool × S)
  pub unlink : Option (S → Text → Bool × S)

-- `struct vfs_filesystem`
pub record Filesystem (S : Type 0) : Type 0 where
  pub name : Text
  pub path : Text
  pub source : Text
  pub writable : Bool
  pub backend : Backend S

-- The rounds of the loop of `copy_mount_path` that cuts slashes off the end. Each round shortens
-- the text, so its length is enough fuel.
pub strip_slashes : ℕ → Text → Text
strip_slashes zero s = s
strip_slashes (suc fuel) s =
    let shorter = strip_slashes fuel (take (length s - 1) s) in
    if ltb 1 (length s) && get_or s (length s - 1) 0 == b'/' then shorter else s

pub copy_mount_path : Text → Text
copy_mount_path src =
    let copied = copy_limited mount_path_max (if length src == 0 then root else src) in
    strip_slashes (length copied) copied

-- The loop of `mount_path_matches`: every character of the mount's path is in the path.
pub begins_with : Text → Text → Bool
begins_with [] path = true
begins_with (c ∷ mount) [] = false
begins_with (c ∷ mount) (d ∷ path) = d == c && begins_with mount path

unfoldable pub mount_path_matches : Text → Text → Bool
mount_path_matches mount path =
    get_or path 0 0 == b'/'
    && (chars_equal mount root
        || (begins_with mount path
            && (get_or path (length mount) 0 == 0 || get_or path (length mount) 0 == b'/')))

unfoldable pub mount_local_path : Text → Text → Text
mount_local_path mount path =
    if chars_equal mount root
    then path
    else if get_or path (length mount) 0 == 0
    then root
    else drop (length mount) path

-- The loop of `mount_parent_entry` for the last slash behind the first character, at index `i`.
pub last_slash : ℕ → ℕ → Text → ℕ
last_slash i slash [] = slash
last_slash i slash (c ∷ s) = last_slash (i + 1) (if c == b'/' then i else slash) s

pub dir_entry : Text → Dirent
dir_entry name = record { name = copy_limited 64 name; type = DirentType.dir; size = 0 }

-- The entry that a mount shows in the directory above its mount point.
pub mount_parent_entry : Text → Text → Option Dirent
mount_parent_entry mount path =
    let slash = last_slash 1 0 (drop 1 mount) in
    let parent_len = if slash == 0 then 1 else slash in
    if chars_equal mount root
    then none
    else if not (length path == parent_len)
    then none
    else if parent_len == 1
    then (if chars_equal path root then some (dir_entry (drop 1 mount)) else none)
    else if chars_equal path (take parent_len mount)
    then some (dir_entry (drop (slash + 1) mount))
    else none

-- The inner loop of `vfs_list_dir` over one file system, with `left` of its 64 rounds left.
pub list_one : ℕ → (ℕ → Option (Option Dirent)) → ℕ → ℕ → ℕ → Option Dirent × ℕ
list_one zero entries local index seen = (none, seen)
list_one (suc left) entries local index seen =
    let rest = list_one left entries (local + 1) index (seen + 1) in
    elim (entries local) [
      | none ↦ (none, seen)
      | some r ↦ elim r [
        | none ↦ (none, seen)
        | some e ↦ if seen == index then (some e, seen) else rest
      ]
    ]

module _ {S : Type 0} where
  -- `vfs_register_fs_mount`
  pub register : List (Filesystem S) → Text → Text → Text → Backend S → Option (List (Filesystem S))
  register mounts name path source backend =
      if leb max_filesystems (length mounts)
      then none
      else some (
          mounts
          ++ (record {
            name = copy_limited mount_name_max name;
            path = copy_mount_path path;
            source = copy_limited mount_path_max source;
            writable = is_some backend.write;
            backend = backend;
          }
              ∷ []))

  -- The first loop of `vfs_list_dir`: the entry, or the count of entries passed.
  pub list_mount_points : List (Filesystem S) → Text → ℕ → ℕ → Option Dirent × ℕ
  list_mount_points [] path index seen = (none, seen)
  list_mount_points (fs ∷ mounts) path index seen = elim (mount_parent_entry fs.path path) [
    | none ↦ list_mount_points mounts path index seen
    | some e ↦
        let rest = list_mount_points mounts path index (seen + 1) in
        if seen == index then (some e, seen) else rest
  ]

  pub list_backends : List (Filesystem S) → S → Text → ℕ → ℕ → Option Dirent × ℕ
  list_backends [] s path index seen = (none, seen)
  list_backends (fs ∷ mounts) s path index seen = elim fs.backend.list [
    | none ↦ list_backends mounts s path index seen
    | some entries ↦
        let skip = list_backends mounts s path index seen in
        let (found, seen') =
          list_one max_dirents_per_fs (entries s (mount_local_path fs.path path)) 0 index seen in
        let next = list_backends mounts s path index seen' in
        if not (mount_path_matches fs.path path)
        then skip
        else elim found [ some e ↦ (some e, seen') | none ↦ next ]
  ]

  pub list_dir : List (Filesystem S) → S → Text → ℕ → Option Dirent
  list_dir mounts s path index =
      let (found, seen) = list_mount_points mounts path index 0 in
      elim found [ some e ↦ some e | none ↦ (list_backends mounts s path index seen).0 ]

  -- `vfs_read_file`: the result and the buffer after.
  pub read_file : List (Filesystem S) → S → Text → ℕ → List ℕ → ℕ → Option ℕ × List ℕ
  read_file [] s path offset buffer len = (none, buffer)
  read_file (fs ∷ mounts) s path offset buffer len =
      let skip = read_file mounts s path offset buffer len in
      let (r, buffer') = fs.backend.read s (mount_local_path fs.path path) offset buffer len in
      let next = read_file mounts s path offset buffer' len in
      if not (mount_path_matches fs.path path)
      then skip
      else elim r [ some n ↦ (some n, buffer') | none ↦ next ]

  pub file_exists : List (Filesystem S) → S → Text → Bool
  file_exists mounts s path = is_some (read_file mounts s path 0 [] 0).0

  unfoldable pub write_file : List (Filesystem S) → S → Text → ℕ → List ℕ → ℕ → Option ℕ × S
  write_file [] s path offset buffer len = (none, s)
  write_file (fs ∷ mounts) s path offset buffer len =
      let skip = write_file mounts s path offset buffer len in
      elim fs.backend.write [
        | none ↦ skip
        | some write ↦
            let (r, s') = write s (mount_local_path fs.path path) offset buffer len in
            let next = write_file mounts s' path offset buffer len in
            if not (mount_path_matches fs.path path)
            then skip
            else elim r [ some n ↦ (some n, s') | none ↦ next ]
      ]

  -- Whether the file system has the file: a read of no bytes succeeds.
  pub has_file : Filesystem S → S → Text → Bool
  has_file fs s local = is_some (fs.backend.read s local 0 [] 0).0

  pub write_existing_file : List (Filesystem S) → S → Text → ℕ → List ℕ → ℕ → Option ℕ × S
  write_existing_file [] s path offset buffer len = (none, s)
  write_existing_file (fs ∷ mounts) s path offset buffer len =
      let skip = write_existing_file mounts s path offset buffer len in
      elim fs.backend.write [
        | none ↦ skip
        | some write ↦
            let (r, s') = write s (mount_local_path fs.path path) offset buffer len in
            let next = write_existing_file mounts s' path offset buffer len in
            if not (mount_path_matches fs.path path)
            then skip
            else if not (has_file fs s (mount_local_path fs.path path))
            then skip
            else elim r [ some n ↦ (some n, s') | none ↦ next ]
      ]

  pub file_size : List (Filesystem S) → S → Text → Option ℕ
  file_size [] s path = none
  file_size (fs ∷ mounts) s path =
      let skip = file_size mounts s path in
      elim fs.backend.size [
        | none ↦ skip
        | some size ↦
            if not (mount_path_matches fs.path path)
            then skip
            else elim (size s (mount_local_path fs.path path)) [ some n ↦ some n | none ↦ skip ]
      ]

  pub truncate_file : List (Filesystem S) → S → Text → ℕ → Bool × S
  truncate_file [] s path n = (false, s)
  truncate_file (fs ∷ mounts) s path n =
      let skip = truncate_file mounts s path n in
      elim fs.backend.truncate [
        | none ↦ skip
        | some truncate ↦
            let (done, s') = truncate s (mount_local_path fs.path path) n in
            let next = truncate_file mounts s' path n in
            if not (mount_path_matches fs.path path)
            then skip
            else if done
            then (true, s')
            else next
      ]

  pub create_file : List (Filesystem S) → S → Text → Bool × S
  create_file mounts s path = truncate_file mounts s path 0

  pub unlink_file : List (Filesystem S) → S → Text → Bool × S
  unlink_file [] s path = (false, s)
  unlink_file (fs ∷ mounts) s path =
      let skip = unlink_file mounts s path in
      elim fs.backend.unlink [
        | none ↦ skip
        | some unlink ↦
            let (done, s') = unlink s (mount_local_path fs.path path) in
            let next = unlink_file mounts s' path in
            if not (mount_path_matches fs.path path)
            then skip
            else if done
            then (true, s')
            else next
      ]

-- `struct vfs_mount_info`
pub record MountInfo : Type 0 where
  pub name : Text
  pub path : Text
  pub source : Text
  pub writable : Bool

pub mount_info : {S : Type 0} → List (Filesystem S) → ℕ → Option MountInfo
mount_info [] i = none
mount_info (fs ∷ mounts) zero = some (record {
  name = copy_limited mount_name_max fs.name;
  path = copy_limited mount_path_max fs.path;
  source = copy_limited mount_path_max fs.source;
  writable = fs.writable;
})
mount_info (fs ∷ mounts) (suc i) = mount_info mounts i
