-- ===== src/Syscall.antt =====
-- kernel/syscall.c: the calls that read and write files by their paths. A call takes the memory and the
-- address space of the task, the addresses that it passes and the state `S` of the virtual file system.
-- `none` is (uint64_t)-1. The kernel's buffers on the stack start as zeros here.
pub mod Writing
pub mod Mounted
pub mod Descriptors
pub mod Sectors
mod Tests
use tang_ping_os.Prelude.{
  ℕ, zero, suc, ◌+◌, ◌-◌, Option, none, some, Bool, true, false, not, List, [], ◌∷◌, Text, Memory,
  replicate, ltb, ◌==◌, if◌then◌else◌, add64,
}
use tang_ping_os.Usercopy.{
  min_u64, validate_range, copy_from_user, copy_to_user, copy_string_from_user,
}

-- `SYSCALL_PATH_MAX`
abbrev pub path_max : ℕ
path_max = 128

-- `SYSCALL_READ_CHUNK_SIZE`
abbrev pub chunk_size : ℕ
chunk_size = 512

-- The functions of the virtual file system that the calls use.
pub record Files (S : Type 0) : Type 0 where
  pub read_file : S → Text → ℕ → List ℕ → ℕ → Option (ℕ × List ℕ)
  pub write_file : S → Text → ℕ → List ℕ → ℕ → Option ℕ × S
  pub unlink_file : S → Text → Bool × S

-- The string in a buffer.
pub text_in : List ℕ → Text
text_in [] = []
text_in (c ∷ s) = if c == 0 then [] else c ∷ text_in s

-- The path that a call passes, copied to a buffer of the kernel.
pub path_of : Memory → ℕ → ℕ → Option Text
path_of m cr3 path =
    let (ok, buffer) = copy_string_from_user m cr3 path (replicate path_max 0) path_max in
    if ok then some (text_in buffer) else none

module _ {S : Type 0} (files : Files S) (m : Memory) (cr3 : ℕ) where
  -- The loop of `syscall_write_file`. A round writes a byte at least, so `len` is enough fuel.
  pub write_chunks : ℕ → S → Text → ℕ → ℕ → ℕ → ℕ → List ℕ → Option ℕ × S
  write_chunks zero s path offset base len written buffer = (some written, s)
  write_chunks (suc fuel) s path offset base len written buffer =
      let n = min_u64 chunk_size (len - written) in
      let copied = copy_from_user m cr3 (add64 base written) n buffer in
      let result = files.write_file s path (add64 offset written) copied.1 n in
      let next = write_chunks fuel result.1 path offset base len (written + n) copied.1 in
      if not (ltb written len)
      then (some written, s)
      else if not copied.0
      then (none, s)
      else elim result.0 [
        | none ↦ (none, result.1)
        | some r ↦ if not (r == n) then (none, result.1) else next
      ]

  pub write_file : S → ℕ → ℕ → ℕ → ℕ → Option ℕ × S
  write_file s path offset base len = elim (path_of m cr3 path) [
    | none ↦ (none, s)
    | some p ↦
        if not (validate_range m cr3 base len false)
        then (none, s)
        else write_chunks len s p offset base len 0 (replicate chunk_size 0)
  ]

  -- The result, and the memory after.
  pub read_file : S → ℕ → ℕ → ℕ → ℕ → Option ℕ × Memory
  read_file s path offset base len =
      let to_read = min_u64 len chunk_size in
      elim (path_of m cr3 path) [
        | none ↦ (none, m)
        | some p ↦
            if not (validate_range m cr3 base to_read true)
            then (none, m)
            else elim (files.read_file s p offset (replicate chunk_size 0) to_read) [
              | none ↦ (none, m)
              | some (n, bytes) ↦
                  let (ok, m') = copy_to_user cr3 base n bytes m in
                  ((if ok then some n else none), m')
            ]
      ]

  -- Whether the file was removed.
  pub unlink : S → ℕ → Bool × S
  unlink s path = elim (path_of m cr3 path) [ none ↦ (false, s) | some p ↦ files.unlink_file s p ]
