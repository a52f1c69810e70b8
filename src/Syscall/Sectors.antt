-- ===== src/Syscall/Sectors.antt =====
-- kernel/syscall.c: the calls on the sectors of block devices.
use tang_ping_os.Prelude.{
  ℕ, zero, suc, ◌+◌, ◌*◌, Option, none, some, Bool, true, false, not, ◌||◌, List, Memory, replicate,
  ltb, ◌==◌, if◌then◌else◌, add64,
}
use tang_ping_os.Block
use tang_ping_os.Block.{Blocks, Drivers, block_size}
use tang_ping_os.Usercopy.{validate_range, copy_from_user, copy_to_user}

-- `SYSCALL_BLOCK_MAX_COUNT`
abbrev pub max_count : ℕ
max_count = 8

module _ {D : Type 0} (drivers : Drivers D) (cr3 index lba base : ℕ) where
  -- The rounds of the loop of `syscall_block_read` that are left, from the sector `i` on.
  pub read_sectors : ℕ → Blocks D → Memory → ℕ → Bool × Memory
  read_sectors zero s m i = (true, m)
  read_sectors (suc left) s m i = elim (Block.read drivers s index (add64 lba i) 1) [
    | none ↦ (false, m)
    | some sector ↦
        let (ok, m') = copy_to_user cr3 (add64 base (i * block_size)) block_size sector m in
        let next = read_sectors left s m' (i + 1) in if not ok then (false, m') else next
  ]

  pub block_read : Blocks D → Memory → ℕ → Option ℕ × Memory
  block_read s m count =
      let (ok, m') = read_sectors count s m 0 in
      if count == 0 || ltb max_count count
      then (none, m)
      else if not (validate_range m cr3 base (count * block_size) true)
      then (none, m)
      else ((if ok then some count else none), m')

  -- The rounds of the loop of `syscall_block_write` that are left.
  pub write_sectors : ℕ → Blocks D → Memory → ℕ → List ℕ → Bool × Blocks D
  write_sectors zero s m i sector = (true, s)
  write_sectors (suc left) s m i sector =
      let copied = copy_from_user m cr3 (add64 base (i * block_size)) block_size sector in
      if not copied.0
      then (false, s)
      else elim (Block.write drivers s index (add64 lba i) 1 copied.1) [
        | none ↦ (false, s)
        | some s' ↦ write_sectors left s' m (i + 1) copied.1
      ]

  pub block_write : Blocks D → Memory → ℕ → Option ℕ × Blocks D
  block_write s m count =
      let (ok, s') = write_sectors count s m 0 (replicate block_size 0) in
      if count == 0 || ltb max_count count
      then (none, s)
      else if not (validate_range m cr3 base (count * block_size) false)
      then (none, s)
      else ((if ok then some count else none), s')
