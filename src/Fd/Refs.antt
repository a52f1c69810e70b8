-- ===== src/Fd/Refs.antt =====
-- An open file is in use exactly while descriptors refer to it, and its reference count is their
-- number: closing and duplicating descriptors keep that.
use tang_ping_os.Prelude.{
  ℕ, ◌+◌, ◌-◌, ◌<◌, ◌≡◌, refl, inl, inr, none, some, Bool, true, false, Text, length, length-set,
  get_or-set, if◌then◌else◌, ◌==◌, ltb, arith, Option-cases, Bool-cases, ℤ, pos, negsuc, add64,
}
use tang_ping_os.Fd.{
  TaskFile, OpenFile, FdTable, FileType, no_file, no_open_file, target, max_fds, max_open_files,
  file_at, open_at, set_file, set_open, in_table, valid_fd, release, close_fd_slot, attach,
  fresh_open_file,
}
use tang_ping_os.Fd.Count.{points, refs, IsAimed, refs-le, refs-set, points-le-refs, IsAimed-set}

-- What holds of an open file to which `n` descriptors refer.
abbrev pub Counts : OpenFile → ℕ → Type 0
Counts o n = (o.ref_count ≡ n) × (o.in_use ≡ ltb 0 n)

pub record IsCounted (t : FdTable) : Type 0 where
  pub fds : length t.files ≡ max_fds
  pub slots : length t.open_files ≡ max_open_files
  pub aimed : IsAimed t.files
  pub counted : (k : ℕ) → k < max_open_files → Counts (open_at t k) (refs t.files k)

pub target-lt : (f : TaskFile) (k : ℕ) → target f ≡ some k → k < max_open_files
target-lt f k h = by_index f.open_file_index refl
  where
    by_index : (z : ℤ) → f.open_file_index ≡ z → k < max_open_files
    by_index (pos n) e =
        let h' : (if f.in_use then in_table (pos n) else none) ≡ some k = rw e at h in ground arith
    by_index (negsuc n) e =
        let h' : (if f.in_use then in_table (negsuc n) else none) ≡ some k = rw e at h in
        ground arith

pub valid_fd-lt : (fd : ℤ) (n : ℕ) → valid_fd fd ≡ some n → (n < max_fds) × (fd ≡ pos n)
valid_fd-lt (pos m) n h = ground arith
valid_fd-lt (negsuc m) n h = ground arith

-- A change of one descriptor and of the one open file that it concerns keeps the counts, if the
-- open file counts the change.
pub replace-IsCounted :
    (t : FdTable) (n k : ℕ) (f : TaskFile) (o : OpenFile)
    → n < max_fds
    → k < max_open_files
    → length t.files ≡ max_fds
    → length t.open_files ≡ max_open_files
    → IsAimed t.files
    → (f.in_use ≡ true → (k : ℕ) × (target f ≡ some k))
    → ((j : ℕ) → j < max_open_files → (k == j) ≡ false → Counts (open_at t j) (refs t.files j))
    → ((j : ℕ) → (k == j) ≡ false → points f j ≡ points (file_at t n) j)
    → Counts o (refs t.files k + points f k - points (file_at t n) k)
    → IsCounted (set_file (set_open t k o) n f)
replace-IsCounted t n k f o hn hk fl ol aimed aim others same now = record {
  fds = omega (arith, length-set t.files n f);
  slots = omega (arith, length-set t.open_files k o);
  aimed = IsAimed-set t.files n f aimed aim;
  counted = λ j lt. elim (Bool-cases (k == j)) [
    | inl here ↦
        let at : k ≡ j = ground arith in
        rw (← at) (
          ground (
            arith,
            get_or-set t.open_files k k o no_open_file,
            refs-set t.files n f k,
            points-le-refs t.files n k,
          ))
    | inr there ↦ ground (
      arith,
      get_or-set t.open_files k j o no_open_file,
      refs-set t.files n f j,
      others j lt,
      same j,
    )
  ];
}

-- A descriptor refers to the open file that it has, and to no other.
pub points_of_target :
    (f : TaskFile) (k j : ℕ) → target f ≡ some k → points f j ≡ (if k == j then 1 else 0)
points_of_target f k j h = rw (h, points) refl

pub points_of_no_target : (f : TaskFile) (j : ℕ) → target f ≡ none → points f j ≡ 0
points_of_no_target f j h = rw (h, points) refl

-- Resetting a descriptor and releasing what it referred to keeps the counts.
pub close_fd_slot-IsCounted : (t : FdTable) (fd : ℤ) → IsCounted t → IsCounted (close_fd_slot t fd)
unfolding close_fd_slot release
close_fd_slot-IsCounted t fd v = elim (Option-cases (valid_fd fd)) [
  | inl e ↦ let same : close_fd_slot t fd ≡ t = ground arith in rw same v
  | inr (n, e) ↦
      let (lt, eq) = valid_fd-lt fd n e in
      elim (Option-cases (target (file_at t n))) [
        | inl e' ↦
            let done : close_fd_slot t fd ≡ set_file t n no_file = ground arith in
            let none_of = λ (j : ℕ). points_of_no_target (file_at t n) j e' in
            rw done (record {
              fds = omega (arith, length-set t.files n no_file);
              slots = v.slots;
              aimed = IsAimed-set t.files n no_file v.aimed (λ u. cc);
              counted =
                  λ j jl. ground (arith, v.counted j jl, refs-set t.files n no_file j, none_of j);
            })
        | inr (k, e') ↦
            let done : close_fd_slot t fd
                ≡ set_file (set_open t k (release (open_at t k))) n no_file =
              ground arith in
            let at = target-lt (file_at t n) k e' in
            rw done (
              replace-IsCounted t n k no_file (release (open_at t k)) lt at v.fds v.slots v.aimed
                (λ u. cc) (λ j jl ne. v.counted j jl)
                (λ j ne. ground (arith, points_of_target (file_at t n) k j))
                (ground (
                  arith,
                  points_of_target (file_at t n) k k,
                  v.counted k,
                  points-le-refs t.files n k,
                )))
      ]
]

-- The open file `k` is in use and counts its descriptors, but may have none yet; all others count.
pub record IsPending (t : FdTable) (k : ℕ) : Type 0 where
  pub fds : length t.files ≡ max_fds
  pub slots : length t.open_files ≡ max_open_files
  pub aimed : IsAimed t.files
  pub in_range : k < max_open_files
  pub used : (open_at t k).in_use ≡ true
  pub here : (open_at t k).ref_count ≡ refs t.files k
  pub others :
      (j : ℕ) → j < max_open_files → (k == j) ≡ false → Counts (open_at t j) (refs t.files j)

pub attach-IsCounted :
    (t : FdTable) (n k : ℕ)
    → IsPending t k
    → n < max_fds
    → target (file_at t n) ≡ none
    → IsCounted (attach t n k)
unfolding attach
attach-IsCounted t n k p hn free =
    replace-IsCounted t n k (record { in_use = true; open_file_index = pos k })
      (record (open_at t k) { ref_count = add64 (open_at t k).ref_count 1 }) hn p.in_range p.fds
      p.slots p.aimed (λ u. (k, ground (arith, p.in_range))) p.others
      (λ j ne. ground (arith, points_of_no_target (file_at t n) j free))
      (ground (
        arith,
        points_of_no_target (file_at t n) k free,
        refs-le t.files k,
        p.here,
        p.used,
        p.fds,
        p.in_range,
      ))

-- A new open file in a free slot is pending.
pub fresh-IsPending :
    (t : FdTable) (k : ℕ) (type : FileType) (path : Text) (append : Bool)
    → IsCounted t
    → k < max_open_files
    → (open_at t k).in_use ≡ false
    → IsPending (set_open t k (fresh_open_file type path append)) k
unfolding fresh_open_file
fresh-IsPending t k type path append v lt free =
    let o : OpenFile = fresh_open_file type path append in
    let got : open_at (set_open t k o) k ≡ o =
      ground (arith, get_or-set t.open_files k k o no_open_file, v.slots) in
    record {
      fds = v.fds;
      slots = omega (arith, length-set t.open_files k o, v.slots);
      aimed = v.aimed;
      in_range = lt;
      used = rw got refl;
      here = rw got (ground (arith, v.counted k));
      others = λ j jl ne.
          ground (arith, v.counted j jl, get_or-set t.open_files k j o no_open_file, v.slots);
    }
