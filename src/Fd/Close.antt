-- ===== src/Fd/Close.antt =====
-- Closing a descriptor, and what descriptors refer to under the invariant.
use tang_ping_os.Prelude.{
  ℕ, ◌<◌, ◌≡◌, refl, inl, inr, Option, none, some, true, false, ◌&&◌, length, get_or-set, set,
  if◌then◌else◌, ◌==◌, arith, Option-cases, ℤ, pos, is_some,
}
use tang_ping_os.Fd.{
  TaskFile, FdTable, no_file, target, max_fds, file_at, valid_fd, open_file_for_fd, close_fd_slot,
  close,
}
use tang_ping_os.Fd.Count.{points-le-refs}
use tang_ping_os.Fd.Refs.{IsCounted, target-lt, points_of_target, close_fd_slot-IsCounted}

-- Under the invariant a descriptor's open file is in use, so what `open_file_for_fd` returns
-- depends on the descriptors alone.
abbrev pub aims : FdTable → ℤ → Option ℕ
aims t fd = elim (valid_fd fd) [ none ↦ none | some n ↦ target (file_at t n) ]

pub open_file_for_fd-aims : (t : FdTable) (fd : ℤ) → IsCounted t → open_file_for_fd t fd ≡ aims t fd
unfolding open_file_for_fd
open_file_for_fd-aims t fd v = elim (Option-cases (valid_fd fd)) [
  | inl e ↦ ground arith
  | inr (n, e) ↦ elim (Option-cases (target (file_at t n))) [
    | inl e' ↦ ground arith
    | inr (k, e') ↦ ground (
      arith,
      points_of_target (file_at t n) k k,
      points-le-refs t.files n k,
      v.counted k,
      target-lt (file_at t n) k,
    )
  ]
]

pub files-close_fd_slot :
    (t : FdTable) (fd : ℤ) (n : ℕ)
    → valid_fd fd ≡ some n
    → (close_fd_slot t fd).files ≡ set t.files n no_file
unfolding close_fd_slot
files-close_fd_slot t fd n e = elim (Option-cases (target (file_at t n))) [
  | inl e' ↦ ground arith
  | inr (k, e') ↦ ground arith
]

-- Changing the descriptor `n` leaves alone what the others aim at.
pub aims-set :
    (t u : FdTable) (n : ℕ) (f : TaskFile) (j : ℕ)
    → n < max_fds
    → length t.files ≡ max_fds
    → u.files ≡ set t.files n f
    → aims u (pos j) ≡ (if n == j then target f else aims t (pos j))
aims-set t u n f j lt len e = rw e (ground (arith, get_or-set t.files n j f no_file))

-- If every open file in use counts its descriptors: closing a descriptor that is not negative
-- succeeds exactly if it refers to an open file. Afterwards it refers to none, every other
-- descriptor refers to the open file that it did, and the counts are right again. A close that
-- fails changes nothing.
pub close_lem :
    (t : FdTable) (n : ℕ)
    → IsCounted t
    → let (closed, t') = close t (pos n) in
      (closed ≡ is_some (open_file_for_fd t (pos n)))
      × ((j : ℕ)
          → open_file_for_fd t' (pos j)
            ≡ (if closed && n == j then none else open_file_for_fd t (pos j)))
      × IsCounted t'
      × (closed ≡ false → t' ≡ t)
unfolding close
close_lem t n v = elim (Option-cases (open_file_for_fd t (pos n))) [
  | inl e ↦
      let same : close t (pos n) ≡ (false, t) = rw (e, close) refl in
      rw (same, e) (refl, λ j. refl, v, λ _. refl)
  | inr (k, e) ↦
      let done : close t (pos n) ≡ (true, close_fd_slot t (pos n)) = rw (e, close) refl in
      let v' = close_fd_slot-IsCounted t (pos n) v in
      let in_range : valid_fd (pos n) ≡ some n =
        ground (arith, open_file_for_fd-aims t (pos n) v) in
      rw (done, e)
        (
          refl,
          λ j.
              rw
                (
                  open_file_for_fd-aims (close_fd_slot t (pos n)) (pos j) v',
                  open_file_for_fd-aims t (pos j) v,
                )
                (aims-set t (close_fd_slot t (pos n)) n no_file j (ground arith) v.fds
                  (files-close_fd_slot t (pos n) n in_range)),
          v',
          λ h. cc,
        )
]
