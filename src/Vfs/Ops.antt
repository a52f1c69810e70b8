-- ===== src/Vfs/Ops.antt =====
-- kernel/include/vfs.h: what a task's file descriptors ask of the virtual file system, over the
-- state `S` that the mounted file systems keep between them. `none` is `(uint64_t)-1`.
use tang_ping_os.Prelude.{ℕ, Option, Bool, List, Text}

pub record VfsOps (S : Type 0) : Type 0 where
  pub file_exists : S → Text → Bool
  pub create_file : S → Text → Bool × S
  pub truncate_file : S → Text → ℕ → Bool × S
  pub file_size : S → Text → Option ℕ
  pub read_file : S → Text → ℕ → List ℕ → ℕ → Option (ℕ × List ℕ)
  pub write_existing_file : S → Text → ℕ → List ℕ → ℕ → Option ℕ × S
