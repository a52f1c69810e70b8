-- ===== src/Vfs/Dispatch.antt =====
-- Which of the mounted file systems a write to an existing file goes to.
use tang_ping_os.Prelude.{
  ℕ, ◌≡◌, refl, inl, inr, Option, none, some, Bool, false, ◌&&◌, List, [], ◌∷◌, Text, if◌then◌else◌,
  Bool-cases, Option-cases, arith,
}
use tang_ping_os.Vfs.{
  Filesystem, mount_path_matches, mount_local_path, has_file, write_existing_file,
}

module _ {S : Type 0} where
  -- A write that fails leaves the file system as it was.
  abbrev pub RefusesCleanly : Filesystem S → Type 0
  RefusesCleanly fs =
      (write : S → Text → ℕ → List ℕ → ℕ → Option ℕ × S)
      → fs.backend.write ≡ some write
      → (s : S) (local : Text) (offset : ℕ) (buffer : List ℕ) (len : ℕ)
      → (write s local offset buffer len).0 ≡ none
      → (write s local offset buffer len).1 ≡ s

  abbrev pub AllRefuseCleanly : List (Filesystem S) → Type 0
  AllRefuseCleanly [] = Unit
  AllRefuseCleanly (fs ∷ mounts) = RefusesCleanly fs × AllRefuseCleanly mounts

  -- Whether a file system is asked at all: it is mounted over the path and has the file.
  abbrev pub holds : Filesystem S → S → Text → Bool
  holds fs s path = mount_path_matches fs.path path && has_file fs s (mount_local_path fs.path path)

  abbrev pub answered : Option ℕ × S → Option (ℕ × S)
  answered (r, s) = elim r [ none ↦ none | some n ↦ some (n, s) ]

  -- What one file system makes of the write, asked by itself.
  abbrev pub attempt : Filesystem S → S → Text → ℕ → List ℕ → ℕ → Option (ℕ × S)
  attempt fs s path offset buffer len =
      if holds fs s path
      then elim fs.backend.write [
        | none ↦ none
        | some write ↦ answered (write s (mount_local_path fs.path path) offset buffer len)
      ]
      else none

  -- The first file system that takes the write, in the order of registration.
  abbrev pub first_attempt : List (Filesystem S) → S → Text → ℕ → List ℕ → ℕ → Option (ℕ × S)
  first_attempt [] s path offset buffer len = none
  first_attempt (fs ∷ mounts) s path offset buffer len =
      let rest = first_attempt mounts s path offset buffer len in
      elim (attempt fs s path offset buffer len) [ none ↦ rest | some a ↦ some a ]

  abbrev pub NoneHolds : List (Filesystem S) → S → Text → Type 0
  NoneHolds [] s path = Unit
  NoneHolds (fs ∷ mounts) s path = (holds fs s path ≡ false) × NoneHolds mounts s path

  -- If a write that fails leaves each mounted file system as it was, `vfs_write_existing_file` does
  -- what the first file system that is mounted over the path, has the file and takes the write
  -- does by itself, in the order of registration; if none does, it returns -1 and changes nothing.
  pub write_existing_file_lem :
      (mounts : List (Filesystem S)) (s : S) (path : Text) (offset : ℕ) (buffer : List ℕ) (len : ℕ)
      → AllRefuseCleanly mounts
      → write_existing_file mounts s path offset buffer len
        ≡ elim (first_attempt mounts s path offset buffer len) [
          | none ↦ (none, s)
          | some (n, s') ↦ (some n, s')
        ]
  unfolding write_existing_file
  write_existing_file_lem [] s path offset buffer len h = refl
  write_existing_file_lem (fs ∷ mounts) s path offset buffer len h =
      let rest = write_existing_file_lem mounts s path offset buffer len h.1 in
      elim (Option-cases fs.backend.write) [
        | inl without ↦ ground arith
        | inr (write, has) ↦
            let local : Text = mount_local_path fs.path path in
            elim (Bool-cases (holds fs s path)) [
              | inr other ↦ ground arith
              | inl here ↦ elim (Option-cases (write s local offset buffer len).0) [
                | inl refused ↦
                    let same = h.0 write has s local offset buffer len refused in ground arith
                | inr (n, took) ↦ ground arith
              ]
            ]
      ]

  -- `vfs_write_existing_file` creates no file: if no file system that is mounted over the path has
  -- the file, it returns -1 and changes nothing, whatever the file systems do on a write.
  pub write_existing_file-absent :
      (mounts : List (Filesystem S)) (s : S) (path : Text) (offset : ℕ) (buffer : List ℕ) (len : ℕ)
      → NoneHolds mounts s path
      → write_existing_file mounts s path offset buffer len ≡ (none, s)
  unfolding write_existing_file
  write_existing_file-absent [] s path offset buffer len h = refl
  write_existing_file-absent (fs ∷ mounts) s path offset buffer len h =
      let rest = write_existing_file-absent mounts s path offset buffer len h.1 in
      elim (Option-cases fs.backend.write) [
        | inl without ↦ ground arith
        | inr (write, has) ↦ ground arith
      ]
