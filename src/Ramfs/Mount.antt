-- ===== src/Ramfs/Mount.antt =====
-- How `ramfs_init` mounts the table of files at the root, and which writes come to it.
use tang_ping_os.Prelude.{
  ℕ, ◌≡◌, ap, ◌∙◌, refl, inl, inr, ◌⊎◌, Option-cases, none, some, true, false, List, [], ◌∷◌, ◌++◌,
  Text, codes, chars_equal_refl, arith,
}
use tang_ping_os.Ramfs.{Files, read, list, write, size, truncate, unlink, path_valid}
use tang_ping_os.Vfs.{Filesystem, root, mount_path_matches, mount_local_path, write_file}

abbrev pub mount : Filesystem Files
mount = record {
  name = codes "ramfs";
  path = root;
  source = codes "memory";
  writable = true;
  backend = record {
    read = λ s path offset buffer len. elim (read s path offset buffer len) [
      | none ↦ (none, buffer)
      | some (n, buffer') ↦ (some n, buffer')
    ];
    list = some list;
    write = some write;
    size = some size;
    truncate = some truncate;
    unlink = some unlink;
  };
}

-- No file system takes a write to the path: it has no callback for writes, or lies elsewhere.
abbrev pub AllPass : Text → List (Filesystem Files) → Type 0
AllPass path [] = Unit
AllPass path (fs ∷ mounts) =
    ((fs.backend.write ≡ none) ⊎ (mount_path_matches fs.path path ≡ false)) × AllPass path mounts

path_valid-matches : (path : Text) → path_valid path ≡ true → mount_path_matches root path ≡ true
unfolding path_valid mount_path_matches
path_valid-matches [] h = ground arith
path_valid-matches (c ∷ []) h = ground arith
path_valid-matches (c ∷ d ∷ path) h = ground (arith, chars_equal_refl root)

local_root : (path : Text) → mount_local_path root path ≡ path
unfolding mount_local_path
local_root path = rw (chars_equal_refl root) refl

-- A write that the table takes comes to it if no file system mounted before takes it.
pub write_file-mount :
    (before after : List (Filesystem Files)) (s s' : Files) (path : Text) (offset : ℕ)
    (buffer : List ℕ) (len n : ℕ)
    → AllPass path before
    → path_valid path ≡ true
    → write s path offset buffer len ≡ (some n, s')
    → write_file (before ++ (mount ∷ after)) s path offset buffer len ≡ (some n, s')
unfolding write_file
write_file-mount [] after s s' path offset buffer len n r valid e =
    let matches = path_valid-matches path valid in
    let taken : write s (mount_local_path root path) offset buffer len ≡ (some n, s') =
      ap (λ (p : Text). write s p offset buffer len) (local_root path) ∙ e in
    ground arith
write_file-mount (fs ∷ before) after s s' path offset buffer len n (passes, r) valid e =
    let rest = write_file-mount before after s s' path offset buffer len n r valid e in
    elim passes [
      | inl no_write ↦ rw no_write rest
      | inr elsewhere ↦ elim (Option-cases fs.backend.write) [
        | inl no_write ↦ rw no_write rest
        | inr (w, has) ↦ rw (has, elsewhere) rest
      ]
    ]
