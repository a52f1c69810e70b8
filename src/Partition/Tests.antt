-- ===== src/Partition/Tests.antt =====
-- The table of devices as `block_init` leaves it, and the theorem on it.
use tang_ping_os.Prelude.{ℕ, refl, none, []}
use tang_ping_os.Block.{Blocks, Drivers}
use tang_ping_os.Block
use tang_ping_os.Block.Range.{IsValid}
use tang_ping_os.Block.Register.{init-IsValid}
use tang_ping_os.Partition.{Partitions, partition_init, partition_scan_device}
use tang_ping_os.Partition.Contained.{Extends, partition_init-IsValid}

abbrev no_drivers : Drivers ℕ
no_drivers = record {
  disk_read = λ k disk lba count. none;
  disk_write = λ k disk lba count buffer. none;
}

abbrev empty : Blocks ℕ
empty = record { devices = []; ramdisk_bytes = []; disks = 0 }

abbrev started : Partitions ℕ
started = record { blocks = Block.init empty; partition_count = 0 }

partition_init-IsValid_example :
    (let s' = partition_init no_drivers started in
      IsValid s'.blocks × Extends started.blocks s'.blocks)
    × ((index : ℕ)
        → let s' = partition_scan_device no_drivers started index in
          IsValid s'.blocks × Extends started.blocks s'.blocks)
partition_init-IsValid_example = partition_init-IsValid no_drivers started (init-IsValid empty refl)
