-- ===== src/Fd.antt =====
-- kernel/scheduler.c: the file descriptors of the current task. A task has 11 descriptors, each of
-- which may refer to one of its 8 open files; an open file counts the descriptors that do.
-- The operations here are those of a current task that is neither null nor the boot task;
-- Scheduler.antt has the test for that. A descriptor is a C `int`; `none` is the result -1.
pub mod Count
pub mod Refs
pub mod Install
pub mod Open
pub mod Close
pub mod Dup
pub mod Seek
mod Tests
use mathlib.Core.Option
use tang_ping_os.Prelude.{
  ℕ, zero, suc, ◌+◌, ◌-◌, ◌^◌, Option, none, some, Bool, true, false, not, ◌&&◌, ◌||◌, List, [],
  ◌∷◌, Text, codes, chars_equal, copy_limited, length, get_or, set, replicate, ltb, leb, ◌==◌,
  if◌then◌else◌, is_some, add64, sub64, has_bit, u64_mod, ℤ, pos, negsuc,
}
use tang_ping_os.Vfs.Ops.{VfsOps}

abbrev pub max_fds : ℕ
max_fds = 11

abbrev pub max_open_files : ℕ
max_open_files = 8

abbrev pub first_file_fd : ℕ
first_file_fd = 3

abbrev pub path_max : ℕ
path_max = 128

-- `enum task_file_type`
pub data FileType : Type 0 where
  unset vfs tty : FileType

-- `struct task_file`: a descriptor.
pub record TaskFile : Type 0 where
  pub in_use : Bool
  pub open_file_index : ℤ

-- `struct task_open_file`
pub record OpenFile : Type 0 where
  pub in_use : Bool
  pub ref_count : ℕ
  pub type : FileType
  pub path : Text
  pub offset : ℕ
  pub append : Bool

-- The fields `files` and `open_files` of `struct task`.
pub record FdTable : Type 0 where
  pub files : List TaskFile
  pub open_files : List OpenFile

abbrev pub is_vfs : FileType → Bool
is_vfs vfs = true
is_vfs _ = false

abbrev pub is_tty : FileType → Bool
is_tty tty = true
is_tty _ = false

-- `reset_task_file`
abbrev pub no_file : TaskFile
no_file = record { in_use = false; open_file_index = negsuc 0 }

-- `reset_task_open_file`
abbrev pub no_open_file : OpenFile
no_open_file = record {
  in_use = false;
  ref_count = 0;
  type = unset;
  path = [];
  offset = 0;
  append = false;
}

-- The index that a task of zero bytes holds.
abbrev pub zero_index : ℤ
zero_index = pos 0

-- The index behind a valid descriptor.
abbrev pub valid_fd : ℤ → Option ℕ
valid_fd (pos n) = if ltb n max_fds then some n else none
valid_fd (negsuc n) = none

-- An `open_file_index` that is neither negative nor past the table.
abbrev pub in_table : ℤ → Option ℕ
in_table (pos n) = if ltb n max_open_files then some n else none
in_table (negsuc n) = none

-- The open file that a descriptor refers to, whether or not that is in use.
abbrev pub target : TaskFile → Option ℕ
target f = if f.in_use then in_table f.open_file_index else none

abbrev pub file_at : FdTable → ℕ → TaskFile
file_at t n = get_or t.files n no_file

abbrev pub open_at : FdTable → ℕ → OpenFile
open_at t k = get_or t.open_files k no_open_file

abbrev pub set_file : FdTable → ℕ → TaskFile → FdTable
set_file t n f = record t { files = set t.files n f }

abbrev pub set_open : FdTable → ℕ → OpenFile → FdTable
set_open t k o = record t { open_files = set t.open_files k o }

-- The index of the open file to which `current_open_file_for_fd` returns a pointer.
pub open_file_for_fd : FdTable → ℤ → Option ℕ
open_file_for_fd t fd = elim (valid_fd fd) [
  | none ↦ none
  | some n ↦ elim (target (file_at t n)) [
    | none ↦ none
    | some k ↦ if (open_at t k).in_use then some k else none
  ]
]

-- The loop of `allocate_current_open_file`.
pub free_open_slot : List OpenFile → Option ℕ
free_open_slot [] = none
free_open_slot (o ∷ os) = if o.in_use then Option.map suc (free_open_slot os) else some 0

pub fresh_open_file : FileType → Text → Bool → OpenFile
fresh_open_file type path append = record {
  in_use = true;
  ref_count = 0;
  type = type;
  path = copy_limited path_max path;
  offset = 0;
  append = append;
}

pub allocate_open_file : FdTable → FileType → Text → Bool → Option (ℕ × FdTable)
allocate_open_file t type path append =
    Option.map (λ k. (k, set_open t k (fresh_open_file type path append)))
      (free_open_slot t.open_files)

-- `close_current_fd_slot` on a valid descriptor: what becomes of the open file.
pub release : OpenFile → OpenFile
release o =
    if o.in_use && ltb 0 o.ref_count
    then (if o.ref_count - 1 == 0 then no_open_file else record o { ref_count = o.ref_count - 1 })
    else o

pub close_fd_slot : FdTable → ℤ → FdTable
close_fd_slot t fd = elim (valid_fd fd) [
  | none ↦ t
  | some n ↦ elim (target (file_at t n)) [
    | none ↦ set_file t n no_file
    | some k ↦ set_file (set_open t k (release (open_at t k))) n no_file
  ]
]

pub is_tty_path : Text → Bool
is_tty_path path = chars_equal path (codes "/dev/tty")

-- The loop of `scheduler_open_current_file` for a free descriptor, from index `n` on.
pub free_fd_from : ℕ → List TaskFile → Option ℕ
free_fd_from n [] = none
free_fd_from zero (f ∷ fs) = if f.in_use then Option.map suc (free_fd_from 0 fs) else some 0
free_fd_from (suc n) (f ∷ fs) = Option.map suc (free_fd_from n fs)

-- The descriptor is given the open file, which counts one reference more.
pub attach : FdTable → ℕ → ℕ → FdTable
attach t n k =
    let o = open_at t k in
    set_open (set_file t n (record { in_use = true; open_file_index = pos k })) k
      (record o { ref_count = add64 o.ref_count 1 })

-- The new offset from the base and the `int64_t` argument. `INT64_MIN` has no negation.
pub seek_target : ℕ → ℤ → Option ℕ
seek_target base (pos delta) = if ltb (u64_mod - 1 - base) delta then none else some (base + delta)
seek_target base (negsuc n) =
    if n == 2 ^ 63 - 1 then none else if ltb base (n + 1) then none else some (base - (n + 1))

-- (uint64_t)-1
abbrev pub seek_failed : ℕ
seek_failed = u64_mod - 1

module _ {S : Type 0} (ops : VfsOps S) where
  -- The first half of `scheduler_open_current_file`: the file is created or truncated as the flags
  -- say. `false` is the return of -1.
  pub prepare : S → Text → ℕ → Bool × S
  prepare s path flags =
      if not (ops.file_exists s path)
      then (if not (has_bit flags 0) then (false, s) else ops.create_file s path)
      else if has_bit flags 1
      then ops.truncate_file s path 0
      else (true, s)

  -- The second half, once the open file `k` is allocated: the offset of a file opened for appending.
  pub start_offset : S → FileType → Text → Bool → Option ℕ
  start_offset s type path append = if is_vfs type && append then ops.file_size s path else some 0

  pub install : FdTable → ℕ → ℕ → Option ℕ × FdTable
  install t k offset =
      let t' = set_open t k (record (open_at t k) { offset = offset }) in
      elim (free_fd_from first_file_fd t'.files) [
        | none ↦ (none, set_open t' k no_open_file)
        | some n ↦ (some n, attach t' n k)
      ]

  pub open_file : FdTable → S → Text → ℕ → Option ℕ × FdTable × S
  open_file t s path flags =
      let type = if is_tty_path path then tty else vfs in
      let append = if is_tty type then false else has_bit flags 2 in
      let flags' : ℕ = if is_tty type then 0 else flags in
      let (ready, s') = prepare s path flags' in
      if not ready then (none, t, s') else elim (allocate_open_file t type path append) [
        | none ↦ (none, t, s')
        | some (k, t') ↦ elim (start_offset s' type path append) [
          | none ↦ (none, set_open t' k no_open_file, s')
          | some offset ↦ let (fd, t'') = install t' k offset in (fd, t'', s')
        ]
      ]

  -- `scheduler_read_current_file`: the number of bytes read and the buffer after.
  pub read : FdTable → S → ℤ → List ℕ → ℕ → Option (ℕ × List ℕ) × FdTable
  read t s fd buffer len = elim (open_file_for_fd t fd) [
    | none ↦ (none, t)
    | some k ↦
        let o = open_at t k in
        if not (is_vfs o.type)
        then (none, t)
        else elim (ops.read_file s o.path o.offset buffer len) [
          | none ↦ (none, t)
          | some (n, buffer') ↦
              (some (n, buffer'), set_open t k (record o { offset = add64 o.offset n }))
        ]
  ]

  -- Where `scheduler_write_current_file` writes; `none` if the size of the file is not known.
  pub write_offset : S → OpenFile → Option ℕ
  write_offset s o = if o.append then ops.file_size s o.path else some o.offset

  -- `scheduler_write_current_file`
  pub write : FdTable → S → ℤ → List ℕ → ℕ → Option ℕ × FdTable × S
  write t s fd buffer len = elim (open_file_for_fd t fd) [
    | none ↦ (none, t, s)
    | some k ↦
        let o = open_at t k in
        if not (is_vfs o.type) then (none, t, s) else elim (write_offset s o) [
          | none ↦ (none, t, s)
          | some at ↦
              let (written, s') = ops.write_existing_file s o.path at buffer len in
              elim written [
                | none ↦ (none, t, s')
                | some n ↦ (some n, set_open t k (record o { offset = add64 at n }), s')
              ]
        ]
  ]

  -- `SEEK_SET`, `SEEK_CUR` and `SEEK_END` are 0, 1 and 2.
  pub seek_base : S → OpenFile → ℕ → Option ℕ
  seek_base s o whence =
      if whence == 0
      then some 0
      else if whence == 1
      then some o.offset
      else if whence == 2
      then ops.file_size s o.path
      else none

  -- `scheduler_seek_current_file`: the `uint64_t` that it returns. The largest offset is returned as
  -- a failure is.
  pub seek : FdTable → S → ℤ → ℤ → ℕ → ℕ × FdTable
  seek t s fd offset whence = elim (open_file_for_fd t fd) [
    | none ↦ (seek_failed, t)
    | some k ↦
        let o = open_at t k in
        if not (is_vfs o.type) then (seek_failed, t) else elim (seek_base s o whence) [
          | none ↦ (seek_failed, t)
          | some base ↦ elim (seek_target base offset) [
            | none ↦ (seek_failed, t)
            | some new ↦ (new, set_open t k (record o { offset = new }))
          ]
        ]
  ]

-- `scheduler_current_fd_is_tty`
pub fd_is_tty : FdTable → ℤ → Bool
fd_is_tty t fd = elim (valid_fd fd) [
  | none ↦ false
  | some n ↦
      if not (file_at t n).in_use && leb n 2
      then true
      else elim (open_file_for_fd t fd) [ none ↦ false | some k ↦ is_tty (open_at t k).type ]
]

-- `scheduler_close_current_file`; `true` is the source's 0.
pub close : FdTable → ℤ → Bool × FdTable
close t fd = elim (open_file_for_fd t fd) [
  | none ↦ (false, t)
  | some k ↦ (true, close_fd_slot t fd)
]

-- Where `scheduler_dup2_current_file` takes its open file from: the one of the descriptor, or for
-- an unused standard descriptor a new one of the terminal.
pub dup_source : FdTable → ℤ → Option (ℕ × FdTable)
dup_source t (negsuc n) = none
dup_source t (pos n) = elim (open_file_for_fd t (pos n)) [
  | some k ↦ some (k, t)
  | none ↦ if leb n 2 then allocate_open_file t tty (codes "/dev/tty") false else none
]

-- `scheduler_dup2_current_file` on two different valid descriptors.
pub dup_from : FdTable → ℤ → ℕ → Option ℕ × FdTable
dup_from t old_fd new_fd = elim (dup_source t old_fd) [
  | none ↦ (none, t)
  | some (k, t') ↦ (some new_fd, attach (close_fd_slot t' (pos new_fd)) new_fd k)
]

pub dup2 : FdTable → ℤ → ℤ → Option ℕ × FdTable
dup2 t old_fd new_fd = elim (valid_fd old_fd) [
  | none ↦ (none, t)
  | some old ↦ elim (valid_fd new_fd) [
    | none ↦ (none, t)
    | some new ↦
        if old == new
        then (
          (if fd_is_tty t old_fd || is_some (open_file_for_fd t old_fd) then some new else none),
          t,
        )
        else dup_from t old_fd new
  ]
]

-- `release_task_resources`: every descriptor and open file is reset.
pub reset_all : FdTable → FdTable
reset_all t = record {
  files = replicate (length t.files) no_file;
  open_files = replicate (length t.open_files) no_open_file;
}
