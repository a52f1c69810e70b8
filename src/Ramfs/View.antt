-- ===== src/Ramfs/View.antt =====
-- What a client sees of the table of files: which paths have a file, and its bytes.
use tang_ping_os.Prelude.{
  ℕ, zero, suc, ◌+◌, ◌≤◌, ◌<◌, ◌≡◌, refl, inl, inr, Option, none, some, Bool, true, false, List, [],
  ◌∷◌, Text, chars_equal, chars_equal→eq, chars_equal_iff, length, get_or, set, take, if◌then◌else◌,
  arith, Option-cases, ◌⊎◌, take_of_length-le, copy_limited,
}
use tang_ping_os.Ramfs.{
  File, Files, is_file, no_file, find_file, free_slot, path_valid, path_valid_from, copy_path,
}

-- The bytes of a file.
abbrev pub contents : File → List ℕ
contents f = take f.size f.bytes

-- The file system as a finite map from paths to contents.
abbrev pub view : Files → Text → Option (List ℕ)
view [] path = none
view (f ∷ fs) path = if is_file f path then some (contents f) else view fs path

-- Whether some slot is free.
abbrev pub has_room : Files → Bool
has_room [] = false
has_room (f ∷ fs) = if f.in_use then has_room fs else true

-- A file that is found is in use, has the path as its name, and is the one that `view` shows.
pub find_file-some :
    (fs : Files) (path : Text) (i : ℕ)
    → find_file fs path ≡ some i
    → (i < length fs)
      × ((get_or fs i no_file).in_use ≡ true)
      × ((get_or fs i no_file).name ≡ path)
      × (view fs path ≡ some (contents (get_or fs i no_file)))
unfolding find_file
find_file-some [] path i h = ground arith
find_file-some (f ∷ fs) path zero h = elim (Option-cases (find_file fs path)) [
  | inl e ↦ ground (arith, chars_equal→eq f.name path)
  | inr (k, e) ↦ ground (arith, chars_equal→eq f.name path)
]
find_file-some (f ∷ fs) path (suc i) h = elim (Option-cases (find_file fs path)) [
  | inl e ↦ ground arith
  | inr (k, e) ↦ ground (arith, find_file-some fs path i)
]

pub find_file-none : (fs : Files) (path : Text) → find_file fs path ≡ none → view fs path ≡ none
unfolding find_file
find_file-none [] path h = refl
find_file-none (f ∷ fs) path h = elim (Option-cases (find_file fs path)) [
  | inl e ↦ ground (arith, find_file-none fs path)
  | inr (k, e) ↦ ground arith
]

-- Changing the file that was found, under its name, changes what its path shows and nothing else.
pub view-set_found :
    (fs : Files) (path : Text) (i : ℕ) (g : File) (q : Text)
    → find_file fs path ≡ some i
    → g.in_use ≡ true
    → g.name ≡ path
    → view (set fs i g) q ≡ (if chars_equal path q then some (contents g) else view fs q)
unfolding find_file
view-set_found [] path i g q h u n = ground arith
view-set_found (f ∷ fs) path zero g q h u n = elim (Option-cases (find_file fs path)) [
  | inl e ↦
      ground (arith, chars_equal→eq f.name path, chars_equal_iff f.name q, chars_equal_iff path q)
  | inr (k, e) ↦
      ground (arith, chars_equal→eq f.name path, chars_equal_iff f.name q, chars_equal_iff path q)
]
view-set_found (f ∷ fs) path (suc i) g q h u n = elim (Option-cases (find_file fs path)) [
  | inl e ↦ ground arith
  | inr (k, e) ↦ ground (
    arith,
    view-set_found fs path i g q,
    chars_equal_iff f.name path,
    chars_equal_iff f.name q,
    chars_equal_iff path q,
  )
]

pub free_slot-some :
    (fs : Files) (i : ℕ)
    → free_slot fs ≡ some i
    → (i < length fs) × ((get_or fs i no_file).in_use ≡ false) × (has_room fs ≡ true)
unfolding free_slot
free_slot-some [] i h = ground arith
free_slot-some (f ∷ fs) zero h = elim (Option-cases (free_slot fs)) [
  | inl e ↦ ground arith
  | inr (k, e) ↦ ground arith
]
free_slot-some (f ∷ fs) (suc i) h = elim (Option-cases (free_slot fs)) [
  | inl e ↦ ground arith
  | inr (k, e) ↦ ground (arith, free_slot-some fs i)
]

pub free_slot-none : (fs : Files) → free_slot fs ≡ none → has_room fs ≡ false
unfolding free_slot
free_slot-none [] h = refl
free_slot-none (f ∷ fs) h = elim (Option-cases (free_slot fs)) [
  | inl e ↦ ground (arith, free_slot-none fs)
  | inr (k, e) ↦ ground arith
]

-- A file put into the free slot, under a path that had none, is what the path shows then.
pub view-set_free :
    (fs : Files) (path : Text) (i : ℕ) (g : File) (q : Text)
    → free_slot fs ≡ some i
    → view fs path ≡ none
    → g.in_use ≡ true
    → g.name ≡ path
    → view (set fs i g) q ≡ (if chars_equal path q then some (contents g) else view fs q)
unfolding free_slot
view-set_free [] path i g q h e u n = ground arith
view-set_free (f ∷ fs) path zero g q h e u n = elim (Option-cases (free_slot fs)) [
  | inl e' ↦ ground (arith, chars_equal_iff g.name q, chars_equal_iff path q)
  | inr (k, e') ↦ ground (arith, chars_equal_iff g.name q, chars_equal_iff path q)
]
view-set_free (f ∷ fs) path (suc i) g q h e u n = elim (Option-cases (free_slot fs)) [
  | inl e' ↦ ground arith
  | inr (k, e') ↦ ground (
    arith,
    view-set_free fs path i g q,
    chars_equal_iff f.name path,
    chars_equal_iff f.name q,
    chars_equal_iff path q,
  )
]

-- A path of at most 63 characters is copied into a file's name whole.
path_valid_from-length :
    (i : ℕ) (p : Text) → path_valid_from i p ≡ true → (length p ≡ 0) ⊎ (i + length p ≤ 63)
unfolding path_valid_from
path_valid_from-length i [] h = inl refl
path_valid_from-length i (c ∷ p) h = ground (arith, path_valid_from-length (i + 1) p)

pub path_valid-copy_path : (p : Text) → path_valid p ≡ true → copy_path p ≡ p
unfolding path_valid copy_path copy_limited
path_valid-copy_path [] h = ground arith
path_valid-copy_path (c ∷ []) h = ground arith
path_valid-copy_path (c ∷ d ∷ p) h =
    take_of_length-le 63 (c ∷ d ∷ p) (ground (arith, path_valid_from-length 1 (d ∷ p)))
