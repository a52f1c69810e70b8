-- ===== src/Fd/Dup.antt =====
-- `dup2`: two descriptors that share an open file.
use tang_ping_os.Prelude.{
  ℕ, ◌≤◌, ◌<◌, ◌≡◌, refl, inl, inr, none, some, true, false, codes, length, get_or-set, set,
  set_comm, set-set_self, if◌then◌else◌, ◌==◌, ltb, arith, Option-cases, Bool-cases, pos, add64,
  is_some, ap, ◌∙◌,
}
use tang_ping_os.Fd.{
  TaskFile, OpenFile, FdTable, no_file, no_open_file, target, free_open_slot, max_fds,
  max_open_files, file_at, open_at, set_open, open_file_for_fd, release, close_fd_slot, attach,
  allocate_open_file, fresh_open_file, dup_source, dup_from, dup2, fd_is_tty, tty, is_tty,
}
use tang_ping_os.Fd.Count.{points-le-refs, free_open_slot-some}
use tang_ping_os.Fd.Refs.{
  IsCounted, IsPending, target-lt, points_of_target, close_fd_slot-IsCounted, attach-IsCounted,
  fresh-IsPending,
}
use tang_ping_os.Fd.Close.{open_file_for_fd-aims, files-close_fd_slot, aims-set}

-- The open file that descriptor `old` refers to survives the closing of another descriptor.
source-survives :
    (t : FdTable) (old new k : ℕ)
    → IsCounted t
    → old < max_fds
    → new < max_fds
    → (old == new) ≡ false
    → target (file_at t old) ≡ some k
    → IsPending (close_fd_slot t (pos new)) k
source-survives t old new k v lo ln ne e =
    let t' : FdTable = close_fd_slot t (pos new) in
    let v' = close_fd_slot-IsCounted t (pos new) v in
    let files' = files-close_fd_slot t (pos new) new (ground arith) in
    let kept : target (file_at t' old) ≡ some k =
      rw files' (ground (arith, get_or-set t.files new old no_file no_file)) in
    let lt = target-lt (file_at t old) k e in
    record {
      fds = v'.fds;
      slots = v'.slots;
      aimed = v'.aimed;
      in_range = lt;
      used = ground (
        arith,
        v'.counted k,
        points_of_target (file_at t' old) k k,
        points-le-refs t'.files old k,
      );
      here = (v'.counted k lt).0;
      others = λ j jl _. v'.counted j jl;
    }

-- A free open file is untouched when a descriptor is closed: it is not the one released.
fresh-close_fd_slot :
    (t : FdTable) (new k : ℕ) (o : OpenFile)
    → IsCounted t
    → new < max_fds
    → k < max_open_files
    → (open_at t k).in_use ≡ false
    → (close_fd_slot (set_open t k o) (pos new) ≡ set_open (close_fd_slot t (pos new)) k o)
      × ((open_at (close_fd_slot t (pos new)) k).in_use ≡ false)
unfolding close_fd_slot
fresh-close_fd_slot t new k o v ln lk free = elim (Option-cases (target (file_at t new))) [
  | inl e ↦ (ground arith, ground arith)
  | inr (j, e) ↦
      let apart : (j == k) ≡ false =
        ground (
          arith,
          points_of_target (file_at t new) j k,
          points-le-refs t.files new k,
          v.counted k,
        ) in
      let apart' : (k == j) ≡ false = ground arith in
      let swapped = set_comm t.open_files k j o (release (open_at t j)) apart' in
      let same : open_at (set_open t k o) j ≡ open_at t j =
        ground (arith, get_or-set t.open_files k j o no_open_file, v.slots) in
      let lj = target-lt (file_at t new) j e in
      (
        ground (arith, swapped, same),
        ground (arith, get_or-set t.open_files j k (release (open_at t j)) no_open_file, v.slots),
      )
]

pub valid_of_open :
    (t : FdTable) (n k : ℕ)
    → IsCounted t
    → open_file_for_fd t (pos n) ≡ some k
    → (n < max_fds) × (target (file_at t n) ≡ some k)
valid_of_open t n k v e = ground (arith, open_file_for_fd-aims t (pos n) v)

-- What `attach` leaves after the descriptor was closed.
attached_lem :
    (t t' : FdTable) (new k : ℕ)
    → IsCounted t
    → new < max_fds
    → IsPending (close_fd_slot t' (pos new)) k
    → t'.files ≡ t.files
    → let u = attach (close_fd_slot t' (pos new)) new k in
      IsCounted u
      × ((j : ℕ)
          → open_file_for_fd u (pos j) ≡ (if new == j then some k else open_file_for_fd t (pos j)))
unfolding attach
attached_lem t t' new k v ln p same =
    let c : FdTable = close_fd_slot t' (pos new) in
    let files = files-close_fd_slot t' (pos new) new (ground arith) in
    let empty : target (file_at c new) ≡ none =
      ground (arith, get_or-set t.files new new no_file no_file, v.fds) in
    let counted = attach-IsCounted c new k p ln empty in
    let f : TaskFile = record { in_use = true; open_file_index = pos k } in
    let files' : (attach c new k).files ≡ set t.files new f =
      rw (files, same) (set-set_self t.files new no_file f) in
    let aim : target f ≡ some k = ground (arith, p.in_range) in
    (
      counted,
      λ j.
          rw
            (
              open_file_for_fd-aims (attach c new k) (pos j) counted,
              open_file_for_fd-aims t (pos j) v,
              aims-set t (attach c new k) new f j ln v.fds files',
              aim,
            )
            refl,
    )

-- If every open file in use counts its descriptors: duplicating a descriptor that refers to an
-- open file onto one below 11 returns the latter, which then refers to the same open file; every
-- other descriptor refers to what it did, and the counts are right again.
pub dup2_shares :
    (t : FdTable) (old new k : ℕ)
    → IsCounted t
    → open_file_for_fd t (pos old) ≡ some k
    → new < max_fds
    → let (r, t') = dup2 t (pos old) (pos new) in
      (r ≡ some new)
      × ((j : ℕ)
          → open_file_for_fd t' (pos j) ≡ (if new == j then some k else open_file_for_fd t (pos j)))
      × IsCounted t'
unfolding dup2 dup_from dup_source
dup2_shares t old new k v e ln =
    let (lo, aim) = valid_of_open t old k v e in
    elim (Bool-cases (old == new)) [
      | inl same ↦
          let stays : dup2 t (pos old) (pos new) ≡ (some new, t) = ground arith in
          let eq : old ≡ new = ground arith in rw stays (refl, λ j. ground arith, v)
      | inr ne ↦
          let t' : FdTable = attach (close_fd_slot t (pos new)) new k in
          let done : dup2 t (pos old) (pos new) ≡ (some new, t') = ground arith in
          let (counted, others) =
            attached_lem t t new k v ln (source-survives t old new k v lo ln ne aim) refl in
          rw done (refl, others, counted)
    ]

-- Of a descriptor with an open file `fd_is_tty` tells whether that is a terminal.
fd_is_tty_of_open :
    (t : FdTable) (n k : ℕ)
    → open_file_for_fd t (pos n) ≡ some k
    → fd_is_tty t (pos n) ≡ is_tty (open_at t k).type
unfolding fd_is_tty open_file_for_fd
fd_is_tty_of_open t n k e = elim (Bool-cases (ltb n max_fds)) [
  | inr out ↦ ground arith
  | inl inside ↦ elim (Option-cases (target (file_at t n))) [
    | inl e' ↦ ground arith
    | inr (j, e') ↦ ground arith
  ]
]

attach-type :
    (c : FdTable) (n k : ℕ)
    → k < length c.open_files
    → (open_at (attach c n k) k).type ≡ (open_at c k).type
unfolding attach
attach-type c n k lt = ground (
  arith,
  get_or-set c.open_files k k (record (open_at c k) { ref_count = add64 (open_at c k).ref_count 1 })
      no_open_file,
)

-- If every open file in use counts its descriptors: duplicating a standard descriptor that refers
-- to no open file onto another one below 11 opens the terminal for it, if one of the 8 open files
-- is free; every other descriptor refers to what it did. With no open file free the call returns
-- -1 and changes nothing. The counts stay right.
pub dup2_terminal :
    (t : FdTable) (old new : ℕ)
    → IsCounted t
    → open_file_for_fd t (pos old) ≡ none
    → old ≤ 2
    → (old == new) ≡ false
    → new < max_fds
    → let (r, t') = dup2 t (pos old) (pos new) in
      (r ≡ (if is_some (free_open_slot t.open_files) then some new else none))
      × (is_some r ≡ true → fd_is_tty t' (pos new) ≡ true)
      × ((j : ℕ) → (new == j) ≡ false → open_file_for_fd t' (pos j) ≡ open_file_for_fd t (pos j))
      × (r ≡ none → t' ≡ t)
      × IsCounted t'
unfolding dup2 dup_from dup_source allocate_open_file fresh_open_file
dup2_terminal t old new v e std ne ln = elim (Option-cases (free_open_slot t.open_files)) [
  | inl full ↦
      let stays : dup2 t (pos old) (pos new) ≡ (none, t) = ground arith in
      rw (stays, full) (refl, λ h. cc, λ j h. refl, λ _. refl, v)
  | inr (k, slot) ↦
      let (lt, free, below) = free_open_slot-some t.open_files k slot in
      let lk : k < max_open_files = omega (arith, v.slots) in
      let o : OpenFile = fresh_open_file tty (codes "/dev/tty") false in
      let t1 : FdTable = set_open t k o in
      let t' : FdTable = attach (close_fd_slot t1 (pos new)) new k in
      let done : dup2 t (pos old) (pos new) ≡ (some new, t') = ground arith in
      let (swap, free') = fresh-close_fd_slot t new k o v ln lk free in
      let pending : IsPending (close_fd_slot t1 (pos new)) k = rw swap (
        fresh-IsPending (close_fd_slot t (pos new)) k tty (codes "/dev/tty") false
          (close_fd_slot-IsCounted t (pos new) v) lk free') in
      let (counted, others) = attached_lem t t1 new k v ln pending refl in
      rw (done, slot)
        (
          refl,
          λ _. is_terminal k t' (others new ∙ here) (
              attach-type (close_fd_slot t1 (pos new)) new k (omega (arith, pending.slots, lk))
              ∙ rw swap (ap (λ (x : OpenFile). x.type) (got_fresh k o lk))),
          λ j h. others j ∙ rw h refl,
          λ h. cc,
          counted,
        )
]
  where
    here : {k : ℕ} → (if new == new then some k else open_file_for_fd t (pos new)) ≡ some k
    here = ground arith

    is_terminal :
        (k : ℕ) (t' : FdTable)
        → open_file_for_fd t' (pos new) ≡ some k
        → (open_at t' k).type ≡ tty
        → fd_is_tty t' (pos new) ≡ true
    is_terminal k t' e type = fd_is_tty_of_open t' new k e ∙ rw type refl

    got_fresh :
        (k : ℕ) (o : OpenFile)
        → k < max_open_files
        → open_at (set_open (close_fd_slot t (pos new)) k o) k ≡ o
    got_fresh k o lt =
        let c : FdTable = close_fd_slot t (pos new) in
        ground (
          arith,
          get_or-set c.open_files k k o no_open_file,
          (close_fd_slot-IsCounted t (pos new) v).slots,
        )
