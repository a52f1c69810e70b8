-- ===== src/Initrd/Reading.antt =====
-- Reading a file of the archive.
use mathlib.Core.Option
use tang_ping_os.Prelude.{ℕ, List, take, drop}
use tang_ping_os.Initrd.{File}

-- The bytes of a file.
abbrev pub contents : List ℕ → File → List ℕ
contents image f = take f.size (drop f.start image)
