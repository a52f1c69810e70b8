-- ===== src/Ramfs/Reading.antt =====
-- Reading, listing and initialising the table of files.
use mathlib.Core.Option
use tang_ping_os.Prelude.{
  ℕ, zero, suc, ◌+◌, ◌-◌, ◌≤◌, ◌≡◌, refl, inl, inr, none, some, List, [], ◌∷◌, Text, codes,
  chars_equal, ap, length, get_or, get_elem?, leb, if◌then◌else◌, min, arith, Option-cases,
  Bool-cases, copy_bytes, read_result, copy_bytes-read_result, ◌∙◌,
}
use tang_ping_os.Vfs.Entry.{Dirent, DirentType}
use tang_ping_os.Ramfs.{
  File, Files, no_file, max_files, find_file, copy_dirent_name, cleared, init, read, read_from,
  list, list_from, size,
}
use tang_ping_os.Ramfs.View.{contents, view, find_file-some, find_file-none}
use tang_ping_os.Ramfs.Update.{FileOk, length-contents}
use tang_ping_os.Ramfs.Inv.{AllOk, Distinct, IsValid, AllOk-get}

module _ (fs : Files) (v : IsValid fs) (path : Text) where
  -- `ramfs_size` returns the number of bytes that the path shows, or -1.
  pub size_lem : size fs path ≡ Option.map length (view fs path)
  unfolding size
  size_lem = elim (Option-cases (find_file fs path)) [
    | inl e ↦ ground (arith, find_file-none fs path e)
    | inr (i, e) ↦
        let (lt, used, named, shown) = find_file-some fs path i e in
        ground (arith, length-contents (get_or fs i no_file) (AllOk-get fs i lt v.files))
  ]

  read_copied :
      (f : File) (offset : ℕ) (buffer : List ℕ) (n k : ℕ)
      → FileOk f
      → n ≤ length buffer
      → k ≡ min n (f.size - offset)
      → (k, copy_bytes k buffer 0 f.bytes offset) ≡ read_result (contents f) offset buffer n
  read_copied f offset buffer n k ok h e =
      ap (λ (at : ℕ). (k, copy_bytes k buffer 0 f.bytes at)) (omega arith)
      ∙ copy_bytes-read_result f.bytes 0 f.size offset buffer n k (omega (arith, ok)) h e

  read_from_lem :
      (f : File) (offset : ℕ) (buffer : List ℕ) (n : ℕ)
      → FileOk f
      → n ≤ length buffer
      → read_from f offset buffer n ≡ read_result (contents f) offset buffer n
  unfolding read_from copy_bytes
  read_from_lem f offset buffer n ok h = elim (Bool-cases (leb f.size offset)) [
    | inl past ↦ rw past (read_copied f offset buffer n 0 ok h (ground arith))
    | inr more ↦ rw more (read_copied f offset buffer n _ ok h (ground arith))
  ]

  -- On a valid table, for a buffer of at least `n` bytes: `ramfs_read` copies the bytes that the
  -- path shows from `offset` on, as many as there are up to `n`, to the start of the buffer,
  -- leaves the rest of the buffer alone and returns their number; it returns -1 exactly if there
  -- is no file.
  pub read_refines :
      (offset : ℕ) (buffer : List ℕ) (n : ℕ)
      → n ≤ length buffer
      → read fs path offset buffer n
        ≡ Option.map (λ bytes. read_result bytes offset buffer n) (view fs path)
  unfolding read
  read_refines offset buffer n h = elim (Option-cases (find_file fs path)) [
    | inl e ↦ ground (arith, find_file-none fs path e)
    | inr (i, e) ↦
        let (lt, used, named, shown) = find_file-some fs path i e in
        let f : File = get_or fs i no_file in
        let from = read_from_lem f offset buffer n (AllOk-get fs i lt v.files) h in
        rw (e, shown) (ap some from)
  ]

-- The files in use, in the order of their slots.
abbrev pub entries : Files → List Dirent
entries [] = []
entries (f ∷ fs) =
    if f.in_use
    then record { name = copy_dirent_name f.name; type = DirentType.file; size = f.size }
      ∷ entries fs
    else entries fs

list_from-entries :
    (fs : Files) (seen k : ℕ) → list_from fs (seen + k) seen ≡ get_elem? (entries fs) k
unfolding list_from
list_from-entries [] seen k = refl
list_from-entries (f ∷ fs) seen zero = ground (arith, list_from-entries fs seen 0)
list_from-entries (f ∷ fs) seen (suc k) =
    let later : seen + suc k ≡ seen + 1 + k = omega arith in
    ground (arith, list_from-entries fs seen (suc k), later, list_from-entries fs (seen + 1) k)

-- `ramfs_list` of the root returns the entry of the file in use that stands at the index, and 0
-- from the number of files on; of any other path it returns -1.
pub list-entries :
    (fs : Files) (path : Text) (index : ℕ)
    → list fs path index
      ≡ (if chars_equal path (codes "/") then some (get_elem? (entries fs) index) else none)
unfolding list
list-entries fs path index = ground (arith, list_from-entries fs 0 index, zero-add index)
  where
    zero-add : (k : ℕ) → 0 + k ≡ k
    zero-add k = omega arith

init-AllOk : (fs : Files) → AllOk fs → AllOk (init fs)
unfolding init cleared
init-AllOk [] a = a
init-AllOk (f ∷ fs) a = (omega (arith, a.0), init-AllOk fs a.1)

init-view : (fs : Files) (path : Text) → view (init fs) path ≡ none
unfolding init cleared
init-view [] path = refl
init-view (f ∷ fs) path = init-view fs path

init-Distinct : (fs : Files) → Distinct (init fs)
unfolding init cleared
init-Distinct [] = tt
init-Distinct (f ∷ fs) = (λ h. ground arith, init-Distinct fs)

length-init : (fs : Files) → length (init fs) ≡ length fs
unfolding init
length-init [] = refl
length-init (f ∷ fs) = ap suc (length-init fs)

-- After `ramfs_init` the invariant holds, given arrays of the declared sizes, and no path has a
-- file.
pub init-IsValid :
    (fs : Files)
    → length fs ≡ max_files
    → AllOk fs
    → IsValid (init fs) × ((path : Text) → view (init fs) path ≡ none)
init-IsValid fs n a = (
  record {
    slots = omega (arith, length-init fs);
    files = init-AllOk fs a;
    distinct = init-Distinct fs;
  },
  init-view fs,
)
