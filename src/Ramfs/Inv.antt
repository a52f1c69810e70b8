-- ===== src/Ramfs/Inv.antt =====
-- The invariant of the table of files: its sizes, and that no two files in use share a name.
use tang_ping_os.Prelude.{
  ℕ, zero, suc, ◌<◌, ◌≡◌, inl, inr, none, some, true, [], ◌∷◌, Text, chars_equal, chars_equal→eq,
  chars_equal_iff, length, get_or, set, if◌then◌else◌, arith, Option-cases,
}
use tang_ping_os.Ramfs.{File, Files, no_file, max_files, find_file, free_slot, cleared}
use tang_ping_os.Ramfs.View.{view, view-set_found, view-set_free}
use tang_ping_os.Ramfs.Update.{FileOk}

abbrev pub AllOk : Files → Type 0
AllOk [] = Unit
AllOk (f ∷ fs) = FileOk f × AllOk fs

abbrev pub Distinct : Files → Type 0
Distinct [] = Unit
Distinct (f ∷ fs) = (f.in_use ≡ true → view fs f.name ≡ none) × Distinct fs

pub record IsValid (fs : Files) : Type 0 where
  pub slots : length fs ≡ max_files
  pub files : AllOk fs
  pub distinct : Distinct fs

pub AllOk-get : (fs : Files) (i : ℕ) → i < length fs → AllOk fs → FileOk (get_or fs i no_file)
AllOk-get [] i h a = absurd (omega arith)
AllOk-get (f ∷ fs) zero h a = a.0
AllOk-get (f ∷ fs) (suc i) h a = AllOk-get fs i (omega arith) a.1

pub AllOk-set : (fs : Files) (i : ℕ) (g : File) → AllOk fs → FileOk g → AllOk (set fs i g)
AllOk-set [] i g a o = a
AllOk-set (f ∷ fs) zero g a o = (o, a.1)
AllOk-set (f ∷ fs) (suc i) g a o = (a.0, AllOk-set fs i g a.1 o)

pub Distinct-set_found :
    (fs : Files) (path : Text) (i : ℕ) (g : File)
    → find_file fs path ≡ some i
    → g.in_use ≡ true
    → g.name ≡ path
    → Distinct fs
    → Distinct (set fs i g)
unfolding find_file
Distinct-set_found [] path i g h u n d = d
Distinct-set_found (f ∷ fs) path zero g h u n d = elim (Option-cases (find_file fs path)) [
  | inl e ↦ (λ _. ground (arith, chars_equal→eq f.name path, d.0), d.1)
  | inr (k, e) ↦ (λ _. ground (arith, chars_equal→eq f.name path, d.0), d.1)
]
Distinct-set_found (f ∷ fs) path (suc i) g h u n d = elim (Option-cases (find_file fs path)) [
  | inl e ↦ ground arith
  | inr (k, e) ↦ (
    λ used. ground (
      arith,
      view-set_found fs path i g f.name,
      chars_equal_iff f.name path,
      chars_equal_iff path f.name,
      d.0,
    ),
    Distinct-set_found fs path i g (ground arith) u n d.1,
  )
]

pub Distinct-set_free :
    (fs : Files) (path : Text) (i : ℕ) (g : File)
    → free_slot fs ≡ some i
    → view fs path ≡ none
    → g.in_use ≡ true
    → g.name ≡ path
    → Distinct fs
    → Distinct (set fs i g)
unfolding free_slot
Distinct-set_free [] path i g h e u n d = d
Distinct-set_free (f ∷ fs) path zero g h e u n d = elim (Option-cases (free_slot fs)) [
  | inl e' ↦ (λ _. ground arith, d.1)
  | inr (k, e') ↦ (λ _. ground arith, d.1)
]
Distinct-set_free (f ∷ fs) path (suc i) g h e u n d = elim (Option-cases (free_slot fs)) [
  | inl e' ↦ ground arith
  | inr (k, e') ↦ (
    λ used. ground (
      arith,
      view-set_free fs path i g f.name,
      chars_equal_iff f.name path,
      chars_equal_iff path f.name,
      d.0,
    ),
    Distinct-set_free fs path i g (ground arith) (ground arith) u n d.1,
  )
]

-- Taking a file out hides its path and no other.
pub view-set-cleared :
    (fs : Files) (path : Text) (i : ℕ) (q : Text)
    → find_file fs path ≡ some i
    → Distinct fs
    → view (set fs i (cleared (get_or fs i no_file))) q
      ≡ (if chars_equal path q then none else view fs q)
unfolding find_file cleared
view-set-cleared [] path i q h d = ground arith
view-set-cleared (f ∷ fs) path zero q h d = elim (Option-cases (find_file fs path)) [
  | inl e ↦
      ground
        (arith, chars_equal→eq f.name path, chars_equal_iff f.name q, chars_equal_iff path q, d.0)
  | inr (k, e) ↦
      ground
        (arith, chars_equal→eq f.name path, chars_equal_iff f.name q, chars_equal_iff path q, d.0)
]
view-set-cleared (f ∷ fs) path (suc i) q h d = elim (Option-cases (find_file fs path)) [
  | inl e ↦ ground arith
  | inr (k, e) ↦ ground (
    arith,
    view-set-cleared fs path i q,
    chars_equal_iff f.name path,
    chars_equal_iff f.name q,
    chars_equal_iff path q,
    d.1,
  )
]

pub Distinct-set-cleared :
    (fs : Files) (path : Text) (i : ℕ)
    → find_file fs path ≡ some i
    → Distinct fs
    → Distinct (set fs i (cleared (get_or fs i no_file)))
unfolding find_file cleared
Distinct-set-cleared [] path i h d = d
Distinct-set-cleared (f ∷ fs) path zero h d = (λ used. ground arith, d.1)
Distinct-set-cleared (f ∷ fs) path (suc i) h d = elim (Option-cases (find_file fs path)) [
  | inl e ↦ ground arith
  | inr (k, e) ↦ (
    λ used. ground (arith, view-set-cleared fs path i f.name, d.0, d.1),
    Distinct-set-cleared fs path i (ground arith) d.1,
  )
]
