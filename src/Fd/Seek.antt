-- ===== src/Fd/Seek.antt =====
-- Moving the offset of an open file, and reading and writing through a descriptor.
use tang_ping_os.Prelude.{
  ℕ, suc, ◌+◌, ◌-◌, ◌<◌, ◌≡◌, refl, ◌≢◌, inl, inr, some, true, List, ◌↔◌, length-set, get_or-set,
  set-set_self, ◌==◌, arith, Option-cases, Bool-cases, ℤ, pos, negsuc, ap, ◌∙◌, ◌⊎◌,
}
use tang_ping_os.Vfs.Ops.{VfsOps}
use tang_ping_os.Fd.{
  OpenFile, FdTable, no_open_file, max_open_files, file_at, open_at, set_open, valid_fd,
  open_file_for_fd, is_vfs,
}
use tang_ping_os.Fd.Refs.{IsCounted, target-lt}
use tang_ping_os.Prelude.{u64_mod, ◌^◌}
use tang_ping_os.Fd.{seek, seek_base, seek_target, seek_failed}
use tang_ping_os.Fd.Close.{open_file_for_fd-aims}

-- A change of an open file that leaves its count and use alone keeps the counts.
pub set_open-IsCounted :
    (t : FdTable) (k : ℕ) (o : OpenFile)
    → k < max_open_files
    → o.ref_count ≡ (open_at t k).ref_count
    → o.in_use ≡ (open_at t k).in_use
    → IsCounted t
    → IsCounted (set_open t k o)
set_open-IsCounted t k o lk r u v = record {
  fds = v.fds;
  slots = omega (arith, length-set t.open_files k o, v.slots);
  aimed = v.aimed;
  counted = λ j lt. elim (Bool-cases (k == j)) [
    | inl here ↦
        let at : k ≡ j = ground arith in
        rw (← at)
          (ground (arith, get_or-set t.open_files k k o no_open_file, v.counted k lk, v.slots))
    | inr there ↦
        ground (arith, get_or-set t.open_files k j o no_open_file, v.counted j lt, v.slots)
  ];
}

-- `new` is `base` moved by `offset`, as integers.
abbrev pub Moves : ℕ → ℤ → ℕ → Type 0
Moves base (pos d) new = new ≡ base + d
Moves base (negsuc d) new = new + suc d ≡ base

abbrev pub int64_min : ℤ
int64_min = negsuc (2 ^ 63 - 1)

-- A seek from a 64-bit base by an `int64_t` goes to `new` exactly if that is the base moved by
-- the offset, is at least 0 and fits 64 bits, and the offset is not INT64_MIN, which is refused
-- from everywhere.
pub seek_target_iff :
    (base : ℕ) (offset : ℤ) (new : ℕ)
    → base < u64_mod
    → (seek_target base offset ≡ some new)
      ↔ (Moves base offset new × (new < u64_mod) × (offset ≢ int64_min))
unfolding seek_target
seek_target_iff base (pos d) new h = (
  λ e. (ground arith, ground arith, λ m. cc),
  λ m. let fits = m.1 in let moved = m.0 in ground arith,
)
seek_target_iff base (negsuc d) new h = (
  λ e. (ground arith, ground arith, λ m. ground arith),
  λ m.
      let fits = m.1 in
      let moved = m.0 in let ne : d ≢ 2 ^ 63 - 1 = λ e. m.2 (ap negsuc e) in ground arith,
)

-- The open file, the base and the new offset of a seek that moves the offset.
pub record Sought {S : Type 0} (ops : VfsOps S) (t : FdTable) (s : S) (fd : ℤ) (offset : ℤ)
    (whence k base new : ℕ) : Type 0 where
  pub refers : open_file_for_fd t fd ≡ some k
  pub is_file : is_vfs (open_at t k).type ≡ true
  pub from : seek_base ops s (open_at t k) whence ≡ some base
  pub to : seek_target base offset ≡ some new

module _ {S : Type 0} (ops : VfsOps S) (t : FdTable) (v : IsCounted t) where
  pub open_in_range : (fd : ℤ) (k : ℕ) → open_file_for_fd t fd ≡ some k → k < max_open_files
  open_in_range fd k e = elim (Option-cases (valid_fd fd)) [
    | inl none_valid ↦ ground (arith, open_file_for_fd-aims t fd v)
    | inr (n, valid) ↦ target-lt (file_at t n) k (ground (arith, open_file_for_fd-aims t fd v))
  ]

  -- Changing the open file of a descriptor, but not its count or use, changes what no descriptor
  -- refers to, and the descriptor finds the change.
  update_lem :
      (fd : ℤ) (k : ℕ) (o : OpenFile)
      → open_file_for_fd t fd ≡ some k
      → o.ref_count ≡ (open_at t k).ref_count
      → o.in_use ≡ (open_at t k).in_use
      → let t' = set_open t k o in
        IsCounted t'
        × ((fd : ℤ) → open_file_for_fd t' fd ≡ open_file_for_fd t fd)
        × (open_at t' k ≡ o)
  update_lem fd k o e r u =
      let lt = open_in_range fd k e in
      let v' = set_open-IsCounted t k o lt r u v in
      (
        v',
        λ fd'.
            rw (open_file_for_fd-aims (set_open t k o) fd' v', open_file_for_fd-aims t fd' v) refl,
        ground (arith, get_or-set t.open_files k k o no_open_file, v.slots),
      )

  seek_cur_self :
      (s : S) (fd : ℤ) (k new : ℕ) (u : FdTable)
      → open_file_for_fd u fd ≡ some k
      → is_vfs (open_at u k).type ≡ true
      → (open_at u k).offset ≡ new
      → new < u64_mod
      → set_open u k (record (open_at u k) { offset = new }) ≡ u
      → seek ops u s fd (pos 0) 1 ≡ (new, u)
  unfolding seek seek_base seek_target
  seek_cur_self s fd k new u e is_file at lt same =
      let plain : new + 0 ≡ new = omega arith in
      let offset_of : seek_target new (pos 0) ≡ some new = ground arith in
      rw (e, seek, is_file, at, offset_of) (ap (λ (w : FdTable). (new, w)) same)

  seek-cases :
      (s : S) (fd : ℤ) (offset : ℤ) (whence : ℕ)
      → ((seek ops t s fd offset whence ≡ (seek_failed, t))
          × ((k base new : ℕ) → ¬ Sought ops t s fd offset whence k base new))
        ⊎ ((k : ℕ) × (base : ℕ) × (new : ℕ) × Sought ops t s fd offset whence k base new
            × (seek ops t s fd offset whence
                ≡ (new, set_open t k (record (open_at t k) { offset = new }))))
  unfolding seek
  seek-cases s fd offset whence = elim (Option-cases (open_file_for_fd t fd)) [
    | inl e ↦ inl (ground arith, λ k' base new m. let r = m.refers in ground arith)
    | inr (k, e) ↦ elim (Bool-cases (is_vfs (open_at t k).type)) [
      | inr other ↦ inl (
        ground arith,
        λ k' base new m.
            let same : k ≡ k' = let r = m.refers in ground arith in
            let f : is_vfs (open_at t k).type ≡ true = rw same m.is_file in ground arith,
      )
      | inl is_file ↦ elim (Option-cases (seek_base ops s (open_at t k) whence)) [
        | inl e' ↦ inl (
          ground arith,
          λ k' base new m.
              let same : k ≡ k' = let r = m.refers in ground arith in
              let f : seek_base ops s (open_at t k) whence ≡ some base = rw same m.from in
              ground arith,
        )
        | inr (base, e') ↦ elim (Option-cases (seek_target base offset)) [
          | inl e'' ↦ inl (
            ground arith,
            λ k' base' new m.
                let same : k ≡ k' = let r = m.refers in ground arith in
                let f : seek_base ops s (open_at t k) whence ≡ some base' = rw same m.from in
                let same' : base ≡ base' = ground arith in
                let g : seek_target base offset ≡ some new = rw same' m.to in ground arith,
          )
          | inr (new, e'') ↦ inr (
            k,
            base,
            new,
            record { refers = e; is_file = is_file; from = e'; to = e'' },
            ground arith,
          )
        ]
      ]
    ]
  ]

  -- If every open file in use counts its descriptors, a seek keeps the counts and what every
  -- descriptor refers to. Either the descriptor has no open file of the file system, the base is
  -- not known or the offset cannot be moved so; then the seek returns (uint64_t)-1 and changes
  -- nothing. Or the open file has the new offset and nothing else in it changes; then the seek
  -- returns that offset, which is (uint64_t)-1 too if it is the largest, and a seek by 0 from the
  -- current offset returns it again and changes nothing. The base is assumed to fit 64 bits.
  pub seek_lem :
      (s : S) (fd : ℤ) (offset : ℤ) (whence : ℕ)
      → ((k base : ℕ) → seek_base ops s (open_at t k) whence ≡ some base → base < u64_mod)
      → let (r, t') = seek ops t s fd offset whence in
        IsCounted t'
        × ((j : ℤ) → open_file_for_fd t' j ≡ open_file_for_fd t j)
        × (((r ≡ seek_failed)
              × (t' ≡ t)
              × ((k base new : ℕ) → ¬ Sought ops t s fd offset whence k base new))
            ⊎ ((k : ℕ) × (base : ℕ) × Sought ops t s fd offset whence k base r
                × (open_at t' k ≡ record (open_at t k) { offset = r })
                × (seek ops t' s fd (pos 0) 1 ≡ (r, t'))))
  seek_lem s fd offset whence small = elim (seek-cases s fd offset whence) [
    | inl (done, never) ↦ rw done (v, λ j. refl, inl (refl, refl, never))
    | inr (k, base, new, m, done) ↦
        let o : OpenFile = record (open_at t k) { offset = new } in
        let (v', kept, got) = update_lem fd k o m.refers refl refl in
        let lt = ((seek_target_iff base offset new (small k base m.from)).0 m.to).1 in
        rw done (
          v',
          kept,
          inr (
            k,
            base,
            m,
            got,
            seek_cur_self s fd k new (set_open t k o) (kept fd ∙ m.refers) (rw got m.is_file)
                (rw got refl) lt
                (rw got (
                  ap (λ (os : List OpenFile). record { files = t.files; open_files = os })
                    (set-set_self t.open_files k o o))),
          ),
        )
  ]
