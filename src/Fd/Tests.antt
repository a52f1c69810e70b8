-- ===== src/Fd/Tests.antt =====
-- The descriptors of a new task, and the theorems on them. The file system is one file of a number
-- of bytes.
use tang_ping_os.Prelude.{
  drop, ◌⊎◌, ℕ, zero, suc, ◌<◌, ◌≡◌, refl, ◌≢◌, ◌↔◌, none, some, true, false, ◌&&◌, Text, codes,
  get_or-replicate, replicate, if◌then◌else◌, ◌==◌, is_some, arith, ℤ, pos, negsuc, u64_mod,
  chars_equal,
}
use tang_ping_os.Vfs.Ops.{VfsOps}
use tang_ping_os.Fd.{
  FdTable, max_fds, max_open_files, first_file_fd, no_open_file, open_file, open_file_for_fd, close,
  dup2, seek, seek_target, seek_base, seek_failed, open_at, fd_is_tty, free_open_slot, free_fd_from,
  start_offset, zero_index, prepare, is_tty_path, allocate_open_file, install, attach,
  fresh_open_file,
}
use tang_ping_os.Fd.Count.{IsAimed}
use tang_ping_os.Fd.Refs.{IsCounted}
use tang_ping_os.Fd.Close.{close_lem}
use tang_ping_os.Fd.Dup.{dup2_shares, dup2_terminal}
use tang_ping_os.Fd.Open.{open_file_lem, granted, size_known, any_slot, any_fd}
use tang_ping_os.Fd.Install.{OpenResult}
use tang_ping_os.Fd.Seek.{seek_lem, Sought, seek_target_iff, Moves, int64_min}

abbrev one_file : VfsOps ℕ
one_file = record {
  file_exists = λ s path. true;
  create_file = λ s path. (true, s);
  truncate_file = λ s path n. (true, n);
  file_size = λ s path. some s;
  read_file = λ s path offset buffer n. some (n, buffer);
  write_existing_file = λ s path offset bytes n. (some n, s);
}

abbrev new_task_fds : FdTable
new_task_fds = record {
  files = replicate max_fds (record { in_use = false; open_file_index = zero_index });
  open_files = replicate max_open_files no_open_file;
}

IsAimed-unused :
    (n : ℕ) → IsAimed (replicate n (record { in_use = false; open_file_index = zero_index }))
IsAimed-unused zero = tt
IsAimed-unused (suc n) = (λ h. cc, IsAimed-unused n)

new_task_fds-IsCounted : IsCounted new_task_fds
new_task_fds-IsCounted = record {
  fds = refl;
  slots = refl;
  aimed = IsAimed-unused max_fds;
  counted = λ k lt. ground (arith, get_or-replicate max_open_files k no_open_file);
}

abbrev data_file : Text
data_file = codes "/data"

-- One descriptor on a file of 100 bytes.
abbrev opened : FdTable
opened = (open_file one_file new_task_fds 100 data_file 0).1

open_file_lem_example :
    let (r, t', s') = open_file one_file new_task_fds 100 data_file 2 in
    let (ready, after) = granted one_file 100 data_file 2 in
    IsCounted t'
    × OpenResult new_task_fds r t'
    × (s' ≡ after)
    × (is_some r ≡ (
        ready
        && any_slot new_task_fds.open_files
        && size_known one_file after data_file 2
        && any_fd (drop first_file_fd new_task_fds.files)))
open_file_lem_example = open_file_lem one_file new_task_fds 100 data_file 2 new_task_fds-IsCounted

opened-IsCounted : IsCounted opened
opened-IsCounted = (open_file_lem one_file new_task_fds 100 data_file 0 new_task_fds-IsCounted).0

opened-slot : open_file_for_fd opened (pos 3) ≡ some 0
unfolding open_file open_file_for_fd prepare is_tty_path chars_equal allocate_open_file
    free_open_slot start_offset install free_fd_from attach fresh_open_file
opened-slot = refl

close_lem_example :
    let (closed, t') = close opened (pos 3) in
    (closed ≡ is_some (open_file_for_fd opened (pos 3)))
    × ((j : ℕ)
        → open_file_for_fd t' (pos j)
          ≡ (if closed && 3 == j then none else open_file_for_fd opened (pos j)))
    × IsCounted t'
    × (closed ≡ false → t' ≡ opened)
close_lem_example = close_lem opened 3 opened-IsCounted

dup2_shares_example :
    let (r, t') = dup2 opened (pos 3) (pos 1) in
    (r ≡ some 1)
    × ((j : ℕ)
        → open_file_for_fd t' (pos j)
          ≡ (if 1 == j then some 0 else open_file_for_fd opened (pos j)))
    × IsCounted t'
dup2_shares_example = dup2_shares opened 3 1 0 opened-IsCounted opened-slot (omega arith)

opened-free : open_file_for_fd opened (pos 1) ≡ none
unfolding open_file open_file_for_fd prepare is_tty_path chars_equal allocate_open_file
    free_open_slot start_offset install free_fd_from attach fresh_open_file
opened-free = refl

dup2_terminal_example :
    let (r, t') = dup2 opened (pos 1) (pos 5) in
    (r ≡ (if is_some (free_open_slot opened.open_files) then some 5 else none))
    × (is_some r ≡ true → fd_is_tty t' (pos 5) ≡ true)
    × ((j : ℕ) → (5 == j) ≡ false → open_file_for_fd t' (pos j) ≡ open_file_for_fd opened (pos j))
    × (r ≡ none → t' ≡ opened)
    × IsCounted t'
dup2_terminal_example =
    dup2_terminal opened 1 5 opened-IsCounted opened-free (omega arith) refl (omega arith)

base_of_end :
    (k base : ℕ) → seek_base one_file 100 (open_at opened k) 2 ≡ some base → base < u64_mod
unfolding seek_base
base_of_end k base e = ground arith

seek_lem_example :
    let (r, t') = seek one_file opened 100 (pos 3) (negsuc 9) 2 in
    IsCounted t'
    × ((j : ℤ) → open_file_for_fd t' j ≡ open_file_for_fd opened j)
    × (((r ≡ seek_failed)
          × (t' ≡ opened)
          × ((k base new : ℕ) → ¬ Sought one_file opened 100 (pos 3) (negsuc 9) 2 k base new))
        ⊎ ((k : ℕ) × (base : ℕ) × Sought one_file opened 100 (pos 3) (negsuc 9) 2 k base r
            × (open_at t' k ≡ record (open_at opened k) { offset = r })
            × (seek one_file t' 100 (pos 3) (pos 0) 1 ≡ (r, t'))))
seek_lem_example = seek_lem one_file opened opened-IsCounted 100 (pos 3) (negsuc 9) 2 base_of_end

seek_target_iff_example :
    (seek_target 100 (negsuc 9) ≡ some 90)
    ↔ (Moves 100 (negsuc 9) 90 × (90 < u64_mod) × (negsuc 9 ≢ int64_min))
seek_target_iff_example = seek_target_iff 100 (negsuc 9) 90 (omega arith)
