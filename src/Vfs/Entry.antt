-- ===== src/Vfs/Entry.antt =====
-- kernel/include/vfs.h: directory entries, as a file system lists them.
use tang_ping_os.Prelude.{ℕ, Text}

-- `VFS_DIRENT_TYPE_FILE`, `VFS_DIRENT_TYPE_DIR` and `VFS_DIRENT_TYPE_DEVICE`.
pub data DirentType : Type 0 where
  file dir device : DirentType

pub record Dirent : Type 0 where
  pub name : Text
  pub type : DirentType
  pub size : ℕ
