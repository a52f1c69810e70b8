-- ===== src/Ramfs/Roundtrip.antt =====
-- What is written is read back.
use tang_ping_os.Prelude.{
  ℕ, ◌+◌, ◌≤◌, ◌≡◌, refl, ◌∙◌, some, true, List, ◌++◌, Text, chars_equal_refl, length, length-take,
  length-drop, get_or-take, get_or-drop, take, drop, arith, list_ext, get_or_past,
  take_of_length-le,
}
use tang_ping_os.Ramfs.{Files, read, write}
use tang_ping_os.Ramfs.View.{view}
use tang_ping_os.Ramfs.Update.{overwrite, length-overwrite, get_or-overwrite}
use tang_ping_os.Ramfs.Inv.{IsValid}
use tang_ping_os.Ramfs.Slot.{or_empty}
use tang_ping_os.Ramfs.Spec.{accepts_write, write_refines}
use tang_ping_os.Ramfs.Reading.{read_refines}

-- The bytes just written stand in the file from their offset on.
slice-overwrite :
    (old : List ℕ) (offset : ℕ) (bytes : List ℕ)
    → take (length bytes) (drop offset (overwrite old offset bytes)) ≡ bytes
slice-overwrite old offset bytes =
    let new : List ℕ = overwrite old offset bytes in
    list_ext 0 (take (length bytes) (drop offset new)) bytes
      (ground (
        arith,
        length-take (length bytes) (drop offset new),
        length-drop offset new,
        length-overwrite old offset bytes,
      ))
      λ i. ground (
        arith,
        get_or-take (length bytes) (drop offset new) i 0,
        get_or-drop offset new i 0,
        get_or-overwrite old offset bytes (offset + i),
        get_or_past bytes i 0,
      )

-- On a valid table, after an accepted write of `n` bytes, a read of `n` bytes at the same offset
-- into a buffer of at least `n` bytes puts those bytes at the start of the buffer, leaves the
-- rest of it alone and returns `n`.
pub read-write :
    (fs : Files) (path : Text) (offset : ℕ) (bytes : List ℕ) (buffer : List ℕ)
    → IsValid fs
    → accepts_write fs path offset (length bytes) ≡ true
    → length bytes ≤ length buffer
    → read (write fs path offset bytes (length bytes)).1 path offset buffer (length bytes)
      ≡ some (length bytes, bytes ++ drop (length bytes) buffer)
read-write fs path offset bytes buffer v accepted fits =
    let n : ℕ = length bytes in
    let fs' : Files = (write fs path offset bytes n).1 in
    let (done, shown, v') = write_refines fs v path offset bytes n (omega arith) in
    let whole : take n bytes ≡ bytes = take_of_length-le n bytes (omega arith) in
    let new : List ℕ = overwrite (or_empty (view fs path)) offset bytes in
    let there : view fs' path ≡ some new =
      shown path ∙ rw (accepted, chars_equal_refl path, whole) refl in
    let got = slice-overwrite (or_empty (view fs path)) offset bytes in
    read_refines fs' v' path offset buffer n fits ∙ rw (there, got) refl
