-- ===== src/Syscall/Descriptors.antt =====
-- kernel/syscall.c: the calls on file descriptors, over the descriptors of the current task. What is
-- written to the terminal is the list of its characters; what is read from it are the typed ones of Input.
use tang_ping_os.Prelude.{
  ℕ, zero, suc, ◌+◌, ◌-◌, ◌*◌, ◌%◌, ◌^◌, Option, none, some, Bool, true, false, not, ◌&&◌, List, [],
  ◌++◌, Memory, replicate, take, drop, length, ltb, ◌==◌, if◌then◌else◌, add64, ℤ, pos, negsuc,
}
use tang_ping_os.Vfs.Ops.{VfsOps}
use tang_ping_os.Fd
use tang_ping_os.Fd.{FdTable, fd_is_tty}
use tang_ping_os.Input
use tang_ping_os.Input.{Input}
use tang_ping_os.Usercopy.{min_u64, validate_range, copy_from_user, copy_to_user}
use tang_ping_os.Syscall.{chunk_size, path_of}

-- `SYSCALL_WRITE_CHUNK_SIZE`
abbrev pub write_chunk_size : ℕ
write_chunk_size = 128

-- (int)x and (int64_t)x for words of 32 and 64 bits
unfoldable pub signed_of : ℕ → ℕ → ℤ
signed_of half x = let v = x % (2 * half) in if ltb v half then pos v else negsuc (2 * half - 1 - v)

abbrev pub int_of : ℕ → ℤ
int_of x = signed_of (2 ^ 31) x

module _ (m : Memory) (cr3 : ℕ) where
  -- The loop of `syscall_write_buffer`: the result, and what was printed.
  pub print_chunks : ℕ → ℕ → ℕ → ℕ → List ℕ → List ℕ → Option ℕ × List ℕ
  print_chunks zero base len written buffer printed = (some len, printed)
  print_chunks (suc fuel) base len written buffer printed =
      let n = min_u64 write_chunk_size (len - written) in
      let copied = copy_from_user m cr3 (add64 base written) n buffer in
      let next = print_chunks fuel base len (written + n) copied.1 (printed ++ take n copied.1) in
      if not (ltb written len)
      then (some len, printed)
      else if not copied.0
      then (none, printed)
      else next

  pub write_buffer : ℕ → ℕ → Option ℕ × List ℕ
  write_buffer base len =
      if not (validate_range m cr3 base len false)
      then (none, [])
      else print_chunks len base len 0 (replicate write_chunk_size 0) []

  module _ {S : Type 0} (ops : VfsOps S) where
    -- The loop of `syscall_write`.
    pub write_chunks : ℕ → FdTable → S → ℕ → ℕ → ℕ → ℕ → List ℕ → Option ℕ × FdTable × S
    write_chunks zero t s fd base len written buffer = (some written, t, s)
    write_chunks (suc fuel) t s fd base len written buffer =
        let n = min_u64 write_chunk_size (len - written) in
        let copied = copy_from_user m cr3 (add64 base written) n buffer in
        let result = Fd.write ops t s (int_of fd) copied.1 n in
        let next = write_chunks fuel result.1 result.2 fd base len (written + n) copied.1 in
        if not (ltb written len)
        then (some written, t, s)
        else if not copied.0
        then (none, t, s)
        else elim result.0 [
          | none ↦ (none, result.1, result.2)
          | some r ↦ if not (r == n) then (none, result.1, result.2) else next
        ]

    -- The result, what was printed, and the state after.
    pub write : FdTable → S → ℕ → ℕ → ℕ → Option ℕ × List ℕ × FdTable × S
    write t s fd base len =
        let printed = write_buffer base len in
        let (result, t', s') = write_chunks len t s fd base len 0 (replicate write_chunk_size 0) in
        if fd_is_tty t (int_of fd)
        then (printed.0, printed.1, t, s)
        else if not (validate_range m cr3 base len false)
        then (none, [], t, s)
        else (result, [], t', s')

    pub open_file : FdTable → S → ℕ → ℕ → Option ℕ × FdTable × S
    open_file t s path flags = elim (path_of m cr3 path) [
      | none ↦ (none, t, s)
      | some p ↦ Fd.open_file ops t s p flags
    ]

    -- The end of `syscall_read`: the bytes read are copied to user space.
    pub give_bytes : ℕ → Option (ℕ × List ℕ) → Option ℕ × Memory
    give_bytes base got = elim got [
      | none ↦ (none, m)
      | some (n, bytes) ↦
          let (ok, m') = copy_to_user cr3 base n bytes m in ((if ok then some n else none), m')
    ]

    -- The result, whether the call would block, and the state after.
    pub read : FdTable → Input → S → ℕ → ℕ → ℕ → (Option ℕ × Bool) × FdTable × Input × Memory
    read t input s fd base len =
        let to_read = min_u64 len chunk_size in
        let empty : List ℕ = replicate chunk_size 0 in
        let (chars, input') = Input.read to_read input in
        let typed = give_bytes base (some (length chars, chars ++ drop (length chars) empty)) in
        let (got, t') = Fd.read ops t s (int_of fd) empty to_read in
        let given = give_bytes base got in
        if not (validate_range m cr3 base to_read true)
        then ((none, false), t, input, m)
        else if fd_is_tty t (int_of fd)
        then (if length chars == 0 && ltb 0 to_read
            then ((some 0, true), t, input', m)
            else ((typed.0, false), t, input', typed.1))
        else ((given.0, false), t', input, given.1)

pub close : FdTable → ℕ → Option ℕ × FdTable
close t fd = let (ok, t') = Fd.close t (int_of fd) in ((if ok then some 0 else none), t')

pub lseek : {S : Type 0} → VfsOps S → FdTable → S → ℕ → ℕ → ℕ → ℕ × FdTable
lseek ops t s fd offset whence = Fd.seek ops t s (int_of fd) (signed_of (2 ^ 63) offset) whence
