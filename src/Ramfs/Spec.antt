-- ===== src/Ramfs/Spec.antt =====
-- The table of files implements a finite map from paths to byte sequences with room for 16 paths.
use tang_ping_os.Prelude.{
  ℕ, ◌+◌, ◌≤◌, ◌≡◌, inl, inr, none, some, Bool, true, ◌&&◌, ◌||◌, List, Text, chars_equal,
  chars_equal_iff, length, length-set, get_or, set, take, leb, if◌then◌else◌, is_some, arith,
  Option-cases, Bool-cases,
}
use tang_ping_os.Ramfs.{
  File, Files, no_file, find_file, path_valid, cleared, unlink, truncate, write, write_at, resize,
  file_max_size,
}
use tang_ping_os.Ramfs.View.{view, has_room, find_file-some, find_file-none}
use tang_ping_os.Ramfs.Update.{
  FileOk, overwrite, resized, write_at-FileOk, write_at-contents, resize-FileOk, resize-contents,
}
use tang_ping_os.Ramfs.Inv.{IsValid, AllOk-get, AllOk-set, Distinct-set-cleared, view-set-cleared}
use tang_ping_os.Ramfs.Slot.{or_empty, find_or_create-cases}

cleared-FileOk : (f : File) → FileOk f → FileOk (cleared f)
unfolding cleared
cleared-FileOk f ok = omega arith

-- What the code checks of a write before it looks for the file, and whether it gets one.
abbrev pub accepts_write : Files → Text → ℕ → ℕ → Bool
accepts_write fs path offset n =
    path_valid path && leb (offset + n) file_max_size && (is_some (view fs path) || has_room fs)

abbrev pub accepts_truncate : Files → Text → ℕ → Bool
accepts_truncate fs path n =
    path_valid path && leb n file_max_size && (is_some (view fs path) || has_room fs)

module _ (fs : Files) (v : IsValid fs) (path : Text) where
  -- On a valid table, for a buffer of at least `n` bytes: `ramfs_write` accepts a write exactly
  -- to a valid path, inside the 1024 bytes, and for a file that exists or for which there is
  -- room. Then it returns the number of bytes, the path shows its old bytes with the new ones
  -- over them and zeros in a gap, and every other path shows what it did. A write that is not
  -- accepted returns -1 and every path shows what it did. The table stays valid.
  pub write_refines :
      (offset : ℕ) (buffer : List ℕ) (n : ℕ)
      → n ≤ length buffer
      → let (r, fs') = write fs path offset buffer n in
        let accepted = accepts_write fs path offset n in
        (r ≡ (if accepted then some n else none))
        × ((q : Text)
            → view fs' q ≡ (
                if accepted && chars_equal path q
                then some (overwrite (or_empty (view fs path)) offset (take n buffer))
                else view fs q))
        × IsValid fs'
  unfolding write write_at
  write_refines offset buffer n h = elim (Bool-cases (path_valid path)) [
    | inr bad ↦ (
      ground arith,
      λ q. ground arith,
      let e : (write fs path offset buffer n).1 ≡ fs = ground arith in rw e v,
    )
    | inl pv ↦ elim (Bool-cases (leb (offset + n) file_max_size)) [
      | inr big ↦ (
        ground arith,
        λ q. ground arith,
        let e : (write fs path offset buffer n).1 ≡ fs = ground arith in rw e v,
      )
      | inl fits ↦ elim (find_or_create-cases fs v path pv) [
        | inl (e, full) ↦ (
          ground arith,
          λ q. ground arith,
          let e' : (write fs path offset buffer n).1 ≡ fs = ground arith in rw e' v,
        )
        | inr ((i, fs'), e, s) ↦
            let f : File = get_or fs' i no_file in
            let g : File = write_at offset buffer n f in
            let u : g.in_use ≡ true = s.used in
            let m : g.name ≡ path = s.named in
            let r : write fs path offset buffer n ≡ (some n, set fs' i g) = ground arith in
            let bytes = write_at-contents f s.ok offset buffer n (ground arith) h in
            rw r (
              ground (arith, s.room),
              λ q. ground (arith, s.room, s.shown g q u m, bytes, s.old),
              s.kept g u m (write_at-FileOk f s.ok offset buffer n (ground arith)),
            )
      ]
    ]
  ]

  -- On a valid table, `ramfs_truncate` succeeds exactly for a valid path, a size up to 1024, and
  -- a file that exists or for which there is room. Then the path shows its old bytes cut down or
  -- filled up with zeros to that size, and every other path shows what it did. Otherwise every
  -- path shows what it did. The table stays valid.
  pub truncate_refines :
      (n : ℕ)
      → let (r, fs') = truncate fs path n in
        let accepted = accepts_truncate fs path n in
        (r ≡ accepted)
        × ((q : Text)
            → view fs' q ≡ (
                if accepted && chars_equal path q
                then some (resized (or_empty (view fs path)) n)
                else view fs q))
        × IsValid fs'
  unfolding truncate resize
  truncate_refines n = elim (Bool-cases (path_valid path)) [
    | inr bad ↦ (
      ground arith,
      λ q. ground arith,
      let e : (truncate fs path n).1 ≡ fs = ground arith in rw e v,
    )
    | inl pv ↦ elim (Bool-cases (leb n file_max_size)) [
      | inr big ↦ (
        ground arith,
        λ q. ground arith,
        let e : (truncate fs path n).1 ≡ fs = ground arith in rw e v,
      )
      | inl fits ↦ elim (find_or_create-cases fs v path pv) [
        | inl (e, full) ↦ (
          ground arith,
          λ q. ground arith,
          let e' : (truncate fs path n).1 ≡ fs = ground arith in rw e' v,
        )
        | inr ((i, fs'), e, s) ↦
            let f : File = get_or fs' i no_file in
            let g : File = resize n f in
            let u : g.in_use ≡ true = s.used in
            let m : g.name ≡ path = s.named in
            let r : truncate fs path n ≡ (true, set fs' i g) = ground arith in
            let bytes = resize-contents f s.ok n (ground arith) in
            rw r (
              ground (arith, s.room),
              λ q. ground (arith, s.room, s.shown g q u m, bytes, s.old),
              s.kept g u m (resize-FileOk f s.ok n (ground arith)),
            )
      ]
    ]
  ]

  -- On a valid table, `ramfs_unlink` succeeds exactly for a valid path that has a file. A valid
  -- path has no file afterwards, and every other path shows what it did; an invalid path changes
  -- nothing that a path shows. The table stays valid.
  pub unlink_refines :
      let (r, fs') = unlink fs path in
      (r ≡ (path_valid path && is_some (view fs path)))
      × ((q : Text)
          → view fs' q ≡ (if path_valid path && chars_equal path q then none else view fs q))
      × IsValid fs'
  unfolding unlink
  unlink_refines = elim (Bool-cases (path_valid path)) [
    | inr bad ↦
        (ground arith, λ q. ground arith, let e : (unlink fs path).1 ≡ fs = ground arith in rw e v)
    | inl pv ↦ elim (Option-cases (find_file fs path)) [
      | inl e ↦
          let gone = find_file-none fs path e in
          (
            ground arith,
            λ q. ground (arith, chars_equal_iff path q),
            let e : (unlink fs path).1 ≡ fs = ground arith in rw e v,
          )
      | inr (i, e) ↦
          let (lt, used, named, shown) = find_file-some fs path i e in
          let g : File = cleared (get_or fs i no_file) in
          let r : unlink fs path ≡ (true, set fs i g) = ground arith in
          rw r (
            ground arith,
            λ q. ground (arith, view-set-cleared fs path i q e v.distinct),
            record {
              slots = omega (arith, length-set fs i g, v.slots);
              files =
                  AllOk-set fs i g v.files
                    (cleared-FileOk (get_or fs i no_file) (AllOk-get fs i lt v.files));
              distinct = Distinct-set-cleared fs path i e v.distinct;
            },
          )
    ]
  ]
