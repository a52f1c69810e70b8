-- ===== src/Ramfs/Slot.antt =====
-- The slot that a write or a truncation gets, found or taken.
use tang_ping_os.Prelude.{
  ℕ, ◌≡◌, refl, inl, inr, Option, none, some, true, false, ◌||◌, List, [], Text, chars_equal, ◌⊎◌,
  set-set_self, length-set, get_or, get_or-set, set, if◌then◌else◌, is_some, arith, Option-cases,
}
use tang_ping_os.Ramfs.{
  File, Files, no_file, find_file, free_slot, claim, create_file, find_or_create, path_valid,
}
use tang_ping_os.Ramfs.View.{
  contents, view, has_room, find_file-some, find_file-none, view-set_found, free_slot-some,
  free_slot-none, view-set_free, path_valid-copy_path,
}
use tang_ping_os.Ramfs.Update.{FileOk}
use tang_ping_os.Ramfs.Inv.{IsValid, AllOk-get, AllOk-set, Distinct-set_found, Distinct-set_free}

-- The bytes of a file that may not exist yet.
abbrev pub or_empty : Option (List ℕ) → List ℕ
or_empty none = []
or_empty (some c) = c

-- What writing and truncating rely on: the slot that they get holds the file of the path, and
-- a file put there under the path is what the path shows.
pub record Slot (fs : Files) (path : Text) (i : ℕ) (fs' : Files) : Type 0 where
  pub used : (get_or fs' i no_file).in_use ≡ true
  pub named : (get_or fs' i no_file).name ≡ path
  pub ok : FileOk (get_or fs' i no_file)
  pub old : contents (get_or fs' i no_file) ≡ or_empty (view fs path)
  pub room : (is_some (view fs path) || has_room fs) ≡ true
  pub kept : (g : File) → g.in_use ≡ true → g.name ≡ path → FileOk g → IsValid (set fs' i g)
  pub shown :
      (g : File) (q : Text)
      → g.in_use ≡ true
      → g.name ≡ path
      → view (set fs' i g) q ≡ (if chars_equal path q then some (contents g) else view fs q)

module _ (fs : Files) (v : IsValid fs) (path : Text) where
  found-Slot : (i : ℕ) → find_file fs path ≡ some i → Slot fs path i fs
  found-Slot i e =
      let (lt, u, n, w) = find_file-some fs path i e in
      record {
        used = u;
        named = n;
        ok = AllOk-get fs i lt v.files;
        old = rw w refl;
        room = rw w refl;
        kept = λ g gu gn go. record {
          slots = omega (arith, length-set fs i g, v.slots);
          files = AllOk-set fs i g v.files go;
          distinct = Distinct-set_found fs path i g e gu gn v.distinct;
        };
        shown = λ g q gu gn. view-set_found fs path i g q e gu gn;
      }

  created-Slot :
      (i : ℕ)
      → path_valid path ≡ true
      → find_file fs path ≡ none
      → free_slot fs ≡ some i
      → Slot fs path i (set fs i (claim path (get_or fs i no_file)))
  unfolding claim
  created-Slot i pv e fr =
      let (lt, u, room) = free_slot-some fs i fr in
      let none_yet : view fs path ≡ none = find_file-none fs path e in
      let n = path_valid-copy_path path pv in
      let new : File = claim path (get_or fs i no_file) in
      let got : get_or (set fs i new) i no_file ≡ new =
        ground (arith, get_or-set fs i i new no_file) in
      record {
        used = rw got refl;
        named = rw got n;
        ok = rw got (ground (arith, AllOk-get fs i lt v.files));
        old = rw (got, none_yet) refl;
        room = rw (none_yet, room) refl;
        kept = λ g gu gn go. rw (set-set_self fs i new g) (record {
          slots = omega (arith, length-set fs i g, v.slots);
          files = AllOk-set fs i g v.files go;
          distinct = Distinct-set_free fs path i g fr none_yet gu gn v.distinct;
        });
        shown = λ g q gu gn.
            rw (set-set_self fs i new g) (view-set_free fs path i g q fr none_yet gu gn);
      }

  -- The slot that writing and truncating get, if there is one.
  pub find_or_create-cases :
      path_valid path ≡ true
      → ((find_or_create fs path ≡ none) × ((is_some (view fs path) || has_room fs) ≡ false))
        ⊎ ((r : ℕ × Files) × (find_or_create fs path ≡ some r) × Slot fs path r.0 r.1)
  unfolding find_or_create create_file
  find_or_create-cases pv = elim (Option-cases (find_file fs path)) [
    | inr (i, e) ↦ inr ((i, fs), ground arith, found-Slot i e)
    | inl e ↦ elim (Option-cases (free_slot fs)) [
      | inr (i, fr) ↦
          inr
            ((i, set fs i (claim path (get_or fs i no_file))), ground arith, created-Slot i pv e fr)
      | inl fr ↦ inl (ground arith, rw (find_file-none fs path e, free_slot-none fs fr) refl)
    ]
  ]
