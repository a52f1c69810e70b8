-- ===== src/Fd/Install.antt =====
-- Giving an open file to the lowest free descriptor.
use tang_ping_os.Prelude.{
  ℕ, ◌≤◌, ◌<◌, ◌≡◌, refl, inl, inr, Option, none, some, true, false, length-set, get_or-set, set,
  if◌then◌else◌, ◌==◌, arith, Option-cases, Bool-cases, pos, ◌∙◌,
}
use tang_ping_os.Vfs.Ops.{VfsOps}
use tang_ping_os.Fd.{
  TaskFile, OpenFile, FdTable, no_open_file, target, free_fd_from, max_fds, max_open_files, file_at,
  open_at, set_open, open_file_for_fd, attach, install, first_file_fd,
}
use tang_ping_os.Fd.Count.{refs, free_fd_from-some}
use tang_ping_os.Fd.Refs.{IsCounted, IsPending, attach-IsCounted}
use tang_ping_os.Fd.Close.{open_file_for_fd-aims, aims-set}

-- Dropping a pending open file that has no descriptor yet gives a table that counts again.
pub dropped-IsCounted :
    (t : FdTable) (k : ℕ)
    → IsPending t k
    → refs t.files k ≡ 0
    → IsCounted (set_open t k no_open_file)
dropped-IsCounted t k p none_yet = record {
  fds = p.fds;
  slots = omega (arith, length-set t.open_files k no_open_file, p.slots);
  aimed = p.aimed;
  counted = λ j lt. elim (Bool-cases (k == j)) [
    | inl here ↦
        let at : k ≡ j = ground arith in
        rw (← at) (ground (arith, get_or-set t.open_files k k no_open_file no_open_file, p.slots))
    | inr there ↦
        ground
          (arith, get_or-set t.open_files k j no_open_file no_open_file, p.others j lt, p.slots)
  ];
}

-- Only the offset of the open file `k` is changed: it stays pending.
offset-IsPending :
    (t : FdTable) (k offset : ℕ)
    → IsPending t k
    → IsPending (set_open t k (record (open_at t k) { offset = offset })) k
offset-IsPending t k offset p =
    let o : OpenFile = record (open_at t k) { offset = offset } in
    let got : open_at (set_open t k o) k ≡ o =
      ground (arith, get_or-set t.open_files k k o no_open_file, p.slots, p.in_range) in
    record {
      fds = p.fds;
      slots = omega (arith, length-set t.open_files k o, p.slots);
      aimed = p.aimed;
      in_range = p.in_range;
      used = rw got p.used;
      here = rw got p.here;
      others = λ j jl ne.
          ground (arith, p.others j jl, get_or-set t.open_files k j o no_open_file, p.slots);
    }

-- What an opening may do to the descriptors: none, or the lowest free one from 3 on is given an
-- open file that no other descriptor has.
pub record Opened (t : FdTable) (n : ℕ) (t' : FdTable) : Type 0 where
  pub not_standard : first_file_fd ≤ n
  pub in_range : n < max_fds
  pub was_free : (file_at t n).in_use ≡ false
  pub lowest : (j : ℕ) → first_file_fd ≤ j → j < n → (file_at t j).in_use ≡ true
  pub slot : ℕ
  pub refers : open_file_for_fd t' (pos n) ≡ some slot
  pub unshared : refs t.files slot ≡ 0
  pub others : (j : ℕ) → (n == j) ≡ false → open_file_for_fd t' (pos j) ≡ open_file_for_fd t (pos j)

abbrev pub OpenResult : FdTable → Option ℕ → FdTable → Type 0
OpenResult t none t' = (j : ℕ) → open_file_for_fd t' (pos j) ≡ open_file_for_fd t (pos j)
OpenResult t (some n) t' = Opened t n t'

module _ {S : Type 0} (ops : VfsOps S) where
  pub install_lem :
      (t t1 : FdTable) (k offset : ℕ)
      → IsCounted t
      → t1.files ≡ t.files
      → IsPending t1 k
      → refs t1.files k ≡ 0
      → let (r, t') = install ops t1 k offset in IsCounted t' × OpenResult t r t'
  unfolding install attach
  install_lem t t1 k offset v same p none_yet =
      let o : OpenFile = record (open_at t1 k) { offset = offset } in
      let t2 : FdTable = set_open t1 k o in
      let p2 = offset-IsPending t1 k offset p in
      elim (Option-cases (free_fd_from first_file_fd t2.files)) [
        | inl full ↦
            let u : FdTable = set_open t2 k no_open_file in
            let done : install ops t1 k offset ≡ (none, u) = ground arith in
            let counted = dropped-IsCounted t2 k p2 none_yet in
            rw done (
              counted,
              λ j.
                  rw
                    (
                      open_file_for_fd-aims u (pos j) counted,
                      open_file_for_fd-aims t (pos j) v,
                      same,
                    )
                    refl,
            )
        | inr (n, found) ↦
            let (ge, lt, free, below) = free_fd_from-some first_file_fd t2.files n found in
            let lt' : n < max_fds = omega (arith, p2.fds) in
            let u : FdTable = attach t2 n k in
            let done : install ops t1 k offset ≡ (some n, u) = ground arith in
            let idle : target (file_at t2 n) ≡ none = ground arith in
            let counted = attach-IsCounted t2 n k p2 lt' idle in
            let others = attached t t1 t2 u n k v same refl lt' counted p.in_range refl in
            rw done (
              counted,
              record {
                not_standard = ge;
                in_range = lt';
                was_free = rw (← same) free;
                lowest = λ j a b. rw (← same) (below j a b);
                slot = k;
                refers = others n ∙ ground arith;
                unshared = rw (← same) none_yet;
                others = λ j ne. others j ∙ rw ne refl;
              },
            )
      ]
    where
      attached :
          (t t1 t2 u : FdTable) (n k : ℕ)
          → IsCounted t
          → t1.files ≡ t.files
          → t2.files ≡ t1.files
          → n < max_fds
          → IsCounted u
          → k < max_open_files
          → u.files ≡ set t2.files n (record { in_use = true; open_file_index = pos k })
          → (j : ℕ)
          → open_file_for_fd u (pos j) ≡ (if n == j then some k else open_file_for_fd t (pos j))
      attached t t1 t2 u n k v s s2 lt c lk e j =
          let f : TaskFile = record { in_use = true; open_file_index = pos k } in
          let e' : u.files ≡ set t.files n f = e ∙ rw (s2, s) refl in
          let aim : target f ≡ some k = ground arith in
          rw
            (
              open_file_for_fd-aims u (pos j) c,
              open_file_for_fd-aims t (pos j) v,
              aims-set t u n f j lt v.fds e',
              aim,
            )
            refl
