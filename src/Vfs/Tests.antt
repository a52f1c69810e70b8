-- ===== src/Vfs/Tests.antt =====
-- The path of a file below a mount point, two mounted file systems, and the theorems on them.
use tang_ping_os.Prelude.{
  ◌≡◌, refl, ◌↔◌, ◌<◌, true, ◌++◌, Text, codes, length, ◌==◌, if◌then◌else◌, arith,
}
use tang_ping_os.Vfs.{root, mount_path_matches, mount_local_path, copy_mount_path, mount_path_max}
use mathlib.Core.Option
use mathlib.Core.Path.{ap}
use mathlib.Core.Option.{Option, none, some}
use tang_ping_os.Prelude.{ℕ, ◌+◌, chars_equal, List, [], ◌∷◌}
use tang_ping_os.Vfs.{Filesystem, write_existing_file, has_file}
use tang_ping_os.Vfs.Dispatch.{
  RefusesCleanly, NoneHolds, first_attempt, write_existing_file_lem, write_existing_file-absent,
}
use tang_ping_os.Vfs.Paths.{
  AtBoundary, IsCanonical, mount_path_matches_iff, copy_mount_path-IsCanonical,
}

abbrev dev : Text
dev = codes "/dev"

abbrev dev_tty : Text
dev_tty = codes "/dev/tty"

mount_path_matches_iff_example :
    ((mount_path_matches dev dev_tty ≡ true)
      ↔ ((rest : Text) × (dev_tty ≡ dev ++ rest) × AtBoundary rest))
    × ((rest : Text)
        → dev_tty ≡ dev ++ rest
        → mount_local_path dev dev_tty ≡ (if length rest == 0 then root else rest))
mount_path_matches_iff_example =
    mount_path_matches_iff dev dev_tty (ground arith) refl (λ e. ground arith)

copy_mount_path-IsCanonical_example :
    IsCanonical (copy_mount_path (codes "/dev//"))
    × (length (copy_mount_path (codes "/dev//")) < mount_path_max)
copy_mount_path-IsCanonical_example = copy_mount_path-IsCanonical (codes "/dev//")

-- Two file systems at the root: the first has no file, the second counts the bytes written to it.
abbrev writes : ℕ → Text → ℕ → List ℕ → ℕ → Option ℕ × ℕ
writes s local offset buffer len = (some len, s + len)

abbrev mounted : (ℕ → Text → ℕ → List ℕ → ℕ → Option ℕ × List ℕ) → Filesystem ℕ
mounted read = record {
  name = codes "fs";
  path = root;
  source = [];
  writable = true;
  backend = record {
    read = read;
    list = none;
    write = some writes;
    size = none;
    truncate = none;
    unlink = none;
  };
}

abbrev empty_fs : Filesystem ℕ
empty_fs = mounted (λ s local offset buffer len. (none, buffer))

abbrev counting_fs : Filesystem ℕ
counting_fs = mounted (λ s local offset buffer len. (some 0, buffer))

mounted-RefusesCleanly :
    (read : ℕ → Text → ℕ → List ℕ → ℕ → Option ℕ × List ℕ) → RefusesCleanly (mounted read)
mounted-RefusesCleanly read write e s local offset buffer len refused =
    let same =
      ap
        (λ (o : Option (ℕ → Text → ℕ → List ℕ → ℕ → Option ℕ × ℕ)).
          Option.map (λ w. w s local offset buffer len) o)
        e in
    ground arith

abbrev both : List (Filesystem ℕ)
both = empty_fs ∷ counting_fs ∷ []

write_existing_file_lem_example :
    write_existing_file both 5 (codes "/f") 0 (1 ∷ 2 ∷ []) 2
    ≡ elim (first_attempt both 5 (codes "/f") 0 (1 ∷ 2 ∷ []) 2) [
      | none ↦ (none, 5)
      | some (n, s') ↦ (some n, s')
    ]
write_existing_file_lem_example = write_existing_file_lem both 5 (codes "/f") 0 (1 ∷ 2 ∷ []) 2 (
  mounted-RefusesCleanly (λ s local offset buffer len. (none, buffer)),
  (mounted-RefusesCleanly (λ s local offset buffer len. (some 0, buffer)), tt),
)

empty-NoneHolds : NoneHolds (empty_fs ∷ []) 5 (codes "/f")
unfolding has_file mount_path_matches mount_local_path chars_equal
empty-NoneHolds = (refl, tt)

write_existing_file-absent_example :
    write_existing_file (empty_fs ∷ []) 5 (codes "/f") 0 (1 ∷ 2 ∷ []) 2 ≡ (none, 5)
write_existing_file-absent_example =
    write_existing_file-absent (empty_fs ∷ []) 5 (codes "/f") 0 (1 ∷ 2 ∷ []) 2 empty-NoneHolds
