-- ===== src/Fd/Open.antt =====
-- Opening a file: which descriptor it gets, and that no open file leaks when it fails.
use tang_ping_os.Prelude.{
  zero, suc, not, ◌||◌, List, [], ◌∷◌, drop, ap, ℕ, ◌≡◌, refl, inl, inr, none, some, Bool, true,
  false, ◌&&◌, Text, if◌then◌else◌, arith, Option-cases, Bool-cases, pos, has_bit, is_some, ◌∙◌,
}
use tang_ping_os.Vfs.Ops.{VfsOps}
use tang_ping_os.Fd.{
  TaskFile, OpenFile, FdTable, FileType, no_open_file, free_open_slot, free_fd_from, set_open,
  allocate_open_file, fresh_open_file, tty, vfs, install, open_file, prepare, start_offset,
  is_tty_path, is_tty, first_file_fd,
}
use tang_ping_os.Fd.Count.{refs, free_open_slot-some}
use tang_ping_os.Fd.Refs.{IsCounted, fresh-IsPending}
use tang_ping_os.Fd.Close.{open_file_for_fd-aims}
use tang_ping_os.Fd.Install.{dropped-IsCounted, OpenResult, install_lem}

module _ {S : Type 0} (ops : VfsOps S) where
  install-some :
      (t : FdTable) (k offset : ℕ)
      → is_some (install ops t k offset).0 ≡ is_some (free_fd_from first_file_fd t.files)
  unfolding install
  install-some t k offset = elim (Option-cases (free_fd_from first_file_fd t.files)) [
    | inl e ↦ ground arith
    | inr (n, e) ↦ ground arith
  ]

  -- The three questions that opening asks before it looks for a slot.
  abbrev pub type_of : Text → FileType
  type_of path = if is_tty_path path then tty else vfs

  abbrev pub appends : Text → ℕ → Bool
  appends path flags = if is_tty (type_of path) then false else has_bit flags 2

  abbrev pub prepared : S → Text → ℕ → Bool × S
  prepared s path flags = prepare ops s path (if is_tty (type_of path) then 0 else flags)

  open_file_steps :
      (t : FdTable) (s : S) (path : Text) (flags : ℕ)
      → IsCounted t
      → let (r, t', s') = open_file ops t s path flags in
        let (ready, after) = prepared s path flags in
        IsCounted t'
        × OpenResult t r t'
        × (s' ≡ after)
        × (is_some r ≡ (
            ready
            && is_some (free_open_slot t.open_files)
            && is_some (start_offset ops after (type_of path) path (appends path flags))
            && is_some (free_fd_from first_file_fd t.files)))
  unfolding open_file allocate_open_file
  open_file_steps t s path flags v = elim (Bool-cases (prepared s path flags).0) [
    | inr refused ↦
        let done : open_file ops t s path flags ≡ (none, t, (prepared s path flags).1) =
          ground arith in
        rw (done, refused) (v, λ j. refl, refl, refl)
    | inl ready ↦ elim (Option-cases (free_open_slot t.open_files)) [
      | inl full ↦
          let done : open_file ops t s path flags ≡ (none, t, (prepared s path flags).1) =
            ground arith in
          rw (done, ready, full) (v, λ j. refl, refl, refl)
      | inr (k, slot) ↦ with_slot ready k slot
    ]
  ]
    where
      after : S
      after = (prepared s path flags).1

      with_slot :
          (prepared s path flags).0 ≡ true
          → (k : ℕ) → free_open_slot t.open_files ≡ some k
          → let (r, t', s') = open_file ops t s path flags in
            IsCounted t'
            × OpenResult t r t'
            × (s' ≡ after)
            × (is_some r ≡ (
                (prepared s path flags).0
                && is_some (free_open_slot t.open_files)
                && is_some (start_offset ops after (type_of path) path (appends path flags))
                && is_some (free_fd_from first_file_fd t.files)))
      with_slot ready k slot =
          let (lt, free, below) = free_open_slot-some t.open_files k slot in
          let t1 : FdTable =
            set_open t k (fresh_open_file (type_of path) path (appends path flags)) in
          let pending =
            fresh-IsPending t k (type_of path) path (appends path flags) v (omega (arith, v.slots))
              free in
          let none_yet : refs t.files k ≡ 0 = ground (arith, v.counted k, v.slots) in
          elim (Option-cases (start_offset ops after (type_of path) path (appends path flags))) [
            | inl unknown ↦
                let u : FdTable = set_open t1 k no_open_file in
                let done : open_file ops t s path flags ≡ (none, u, after) = ground arith in
                let counted = dropped-IsCounted t1 k pending none_yet in
                rw (done, ready, slot, unknown)
                  (
                    counted,
                    λ j.
                        rw
                          (
                            open_file_for_fd-aims u (pos j) counted,
                            open_file_for_fd-aims t (pos j) v,
                          )
                          refl,
                    refl,
                    refl,
                  )
            | inr (offset, known) ↦
                let (fd, u) = install ops t1 k offset in
                let done : open_file ops t s path flags ≡ (fd, u, after) = ground arith in
                let (counted, result) = install_lem ops t t1 k offset v refl pending none_yet in
                rw (done, ready, slot, known) (counted, result, refl, install-some t1 k offset)
          ]

-- Whether an open file is free, and whether a descriptor is.
abbrev pub any_slot : List OpenFile → Bool
any_slot [] = false
any_slot (o ∷ os) = not o.in_use || any_slot os

abbrev pub any_fd : List TaskFile → Bool
any_fd [] = false
any_fd (f ∷ fs) = not f.in_use || any_fd fs

free_open_slot-any : (os : List OpenFile) → is_some (free_open_slot os) ≡ any_slot os
unfolding free_open_slot
free_open_slot-any [] = refl
free_open_slot-any (o ∷ os) = elim (Option-cases (free_open_slot os)) [
  | inl e ↦ ground (arith, free_open_slot-any os)
  | inr (k, e) ↦ ground (arith, free_open_slot-any os)
]

free_fd_from-any : (n : ℕ) (fs : List TaskFile) → is_some (free_fd_from n fs) ≡ any_fd (drop n fs)
unfolding free_fd_from
free_fd_from-any zero [] = refl
free_fd_from-any (suc n) [] = refl
free_fd_from-any zero (f ∷ fs) = elim (Option-cases (free_fd_from 0 fs)) [
  | inl e ↦ ground (arith, free_fd_from-any 0 fs)
  | inr (k, e) ↦ ground (arith, free_fd_from-any 0 fs)
]
free_fd_from-any (suc n) (f ∷ fs) = elim (Option-cases (free_fd_from n fs)) [
  | inl e ↦ ground (arith, free_fd_from-any n fs)
  | inr (k, e) ↦ ground (arith, free_fd_from-any n fs)
]

-- The flags count for paths other than that of the terminal.
abbrev pub flag_set : Text → ℕ → ℕ → Bool
flag_set path flags k = not (is_tty_path path) && has_bit flags k

module _ {S : Type 0} (ops : VfsOps S) where
  -- What opening asks of the file systems: a file that is there is cut to nothing if the flags say
  -- so, and one that is not is created if the flags say so, and else refused.
  abbrev pub granted : S → Text → ℕ → Bool × S
  granted s path flags =
      if ops.file_exists s path
      then (if flag_set path flags 1 then ops.truncate_file s path 0 else (true, s))
      else if flag_set path flags 0
      then ops.create_file s path
      else (false, s)

  -- The size is known, where the file is opened for appending.
  abbrev pub size_known : S → Text → ℕ → Bool
  size_known s path flags = not (flag_set path flags 2) || is_some (ops.file_size s path)

  prepared-granted :
      (s : S) (path : Text) (flags : ℕ) → prepared ops s path flags ≡ granted s path flags
  unfolding prepare
  prepared-granted s path flags = elim (Bool-cases (is_tty_path path)) [
    | inl is_terminal ↦ ground arith
    | inr other ↦ ground arith
  ]

  start_offset-size_known :
      (s : S) (path : Text) (flags : ℕ)
      → is_some (start_offset ops s (type_of ops path) path (appends ops path flags))
        ≡ size_known s path flags
  unfolding start_offset
  start_offset-size_known s path flags = elim (Bool-cases (is_tty_path path)) [
    | inl is_terminal ↦ ground arith
    | inr other ↦ ground arith
  ]

  -- If every open file in use counts its descriptors: opening a file either leaves what every
  -- descriptor refers to as it was, or gives the lowest free descriptor from 3 on an open file
  -- that no other descriptor refers to, and leaves the other descriptors alone. It succeeds
  -- exactly if, first, the file is there and is cut to nothing where the flags say so, or it is
  -- not there and is created as the flags say, and neither of the two fails; an open file is free;
  -- the size is known where the file is opened for appending; and a descriptor from 3 on is free.
  -- The flags do not count for the terminal. In every case the counts stay right, so that a
  -- failure loses no open file, and the file systems are as that first step left them.
  pub open_file_lem :
      (t : FdTable) (s : S) (path : Text) (flags : ℕ)
      → IsCounted t
      → let (r, t', s') = open_file ops t s path flags in
        let (ready, after) = granted s path flags in
        IsCounted t'
        × OpenResult t r t'
        × (s' ≡ after)
        × (is_some r ≡ (
            ready
            && any_slot t.open_files
            && size_known after path flags
            && any_fd (drop first_file_fd t.files)))
  open_file_lem t s path flags v =
      let (counted, result, state, success) = open_file_steps ops t s path flags v in
      let first = prepared-granted s path flags in
      let after = (granted s path flags).1 in
      (
        counted,
        result,
        state ∙ ap (λ (r : Bool × S). r.1) first,
        success
            ∙ ap
                (λ (g : Bool × S).
                  g.0
                  && is_some (free_open_slot t.open_files)
                  && is_some (start_offset ops g.1 (type_of ops path) path (appends ops path flags))
                  && is_some (free_fd_from first_file_fd t.files))
                first
            ∙ rw
                (
                  free_open_slot-any t.open_files,
                  start_offset-size_known after path flags,
                  free_fd_from-any first_file_fd t.files,
                )
                refl,
      )
