-- ===== src/Block.antt =====
-- kernel/block.c and the device callbacks of kernel/partition.c: the table of block devices.
-- A device's `read` and `write` pointers are told apart by `Driver`; a driver of another file
-- is `other`, whose operations are parameters. `none` is the result -1. A buffer is the list of
-- the bytes that are read or written; the null pointers that the code tests for are left out, and
-- what the log prints is too.
pub mod Range
pub mod Register
pub mod Ramdisk
mod Tests
use mathlib.Core.Option
use tang_ping_os.Prelude.{
  ℕ, zero, suc, ◌+◌, ◌-◌, ◌*◌, ◌%◌, Option, none, some, Bool, true, false, not, ◌&&◌, ◌||◌, List,
  [], ◌∷◌, ◌++◌, Text, codes, chars_equal, copy_limited, length, get_elem?, get_or, set, take, drop,
  replicate, ltb, leb, ◌==◌, if◌then◌else◌, add64, copy_bytes,
}

abbrev pub block_size : ℕ
block_size = 512

abbrev pub ramdisk_blocks : ℕ
ramdisk_blocks = 64

abbrev pub max_devices : ℕ
max_devices = 16

abbrev pub device_name_max : ℕ
device_name_max = 32

-- Whose `read` and `write` a device has. A partition has the context of partition.c.
pub data Driver : Type 0 where
  ramdisk : Driver
  partition : (parent start_lba : ℕ) → Driver
  other : ℕ → Driver

-- `struct block_device`; `has_read` and `has_write` tell whether the pointers are set.
pub record Device : Type 0 where
  pub name : Text
  pub block_size : ℕ
  pub block_count : ℕ
  pub writable : Bool
  pub has_read : Bool
  pub has_write : Bool
  pub driver : Driver

-- `struct block_device_info`
pub record DeviceInfo : Type 0 where
  pub name : Text
  pub block_size : ℕ
  pub block_count : ℕ
  pub writable : Bool

-- The static variables of block.c, and the disks `D` behind the drivers of other files.
pub record Blocks (D : Type 0) : Type 0 where
  pub devices : List Device
  pub ramdisk_bytes : List ℕ
  pub disks : D

-- The drivers of other files, by the number that `other` gives.
pub record Drivers (D : Type 0) : Type 0 where
  pub disk_read : ℕ → D → ℕ → ℕ → Option (List ℕ)
  pub disk_write : ℕ → D → ℕ → ℕ → List ℕ → Option D

abbrev pub no_device : Device
no_device = record {
  name = [];
  block_size = 0;
  block_count = 0;
  writable = false;
  has_read = false;
  has_write = false;
  driver = ramdisk;
}

-- `block_range_valid`
pub range_valid : Device → ℕ → ℕ → Bool
range_valid d lba count =
    if count == 0 || leb d.block_count lba then false else not (ltb (d.block_count - lba) count)

-- `ramdisk_read` and `ramdisk_write` on the bytes of the disk.
pub ramdisk_read : Device → List ℕ → ℕ → ℕ → Option (List ℕ)
ramdisk_read d bytes lba count =
    if not (range_valid d lba count)
    then none
    else some (
        copy_bytes (count * block_size) (replicate (count * block_size) 0) 0 bytes
          (lba * block_size))

pub ramdisk_write : Device → List ℕ → ℕ → ℕ → List ℕ → Option (List ℕ)
ramdisk_write d bytes lba count buffer =
    if not (range_valid d lba count)
    then none
    else some (copy_bytes (count * block_size) bytes (lba * block_size) buffer 0)

abbrev pub ramdisk_device : Device
ramdisk_device = record {
  name = codes "ramblk0";
  block_size = block_size;
  block_count = ramdisk_blocks;
  writable = true;
  has_read = true;
  has_write = true;
  driver = ramdisk;
}

-- The loop of `block_find_by_name` over the devices from index `i` on.
pub find_from : ℕ → List Device → Text → Option ℕ
find_from i [] name = none
find_from i (d ∷ ds) name =
    let rest = find_from (i + 1) ds name in if chars_equal d.name name then some i else rest

module _ {D : Type 0} where
  -- `block_register`; the device's index is the count before.
  pub register : Blocks D → Device → Option (Blocks D)
  register s d =
      if d.block_size == 0
        || d.block_count == 0
        || not d.has_read
        || leb max_devices (length s.devices)
      then none
      else some (record s { devices = s.devices ++ (d ∷ []) })

  pub device_count : Blocks D → ℕ
  device_count s = length s.devices

  -- `block_get_info`
  pub get_info : Blocks D → ℕ → Option DeviceInfo
  get_info s index =
      Option.map
        (λ (d : Device). record {
          name = copy_limited device_name_max d.name;
          block_size = d.block_size;
          block_count = d.block_count;
          writable = d.writable;
        })
        (get_elem? s.devices index)

  pub find_by_name : Blocks D → Text → Option ℕ
  find_by_name s name = find_from 0 s.devices name

  module _ (drivers : Drivers D) where
    -- `block_read`, which for a partition calls itself on the parent. A partition is registered
    -- after its parent, so the number of devices is enough fuel.
    pub read_at : ℕ → Blocks D → ℕ → ℕ → ℕ → Option (List ℕ)
    read_at zero s index lba count = none
    read_at (suc fuel) s index lba count = elim (get_elem? s.devices index) [
      | none ↦ none
      | some d ↦ if not (range_valid d lba count) then none else elim d.driver [
        | ramdisk ↦ ramdisk_read d s.ramdisk_bytes lba count
        | partition parent start ↦ read_at fuel s parent (add64 start lba) count
        | other k ↦ drivers.disk_read k s.disks lba count
      ]
    ]

    pub read : Blocks D → ℕ → ℕ → ℕ → Option (List ℕ)
    read s index lba count = read_at (length s.devices) s index lba count

    pub write_at : ℕ → Blocks D → ℕ → ℕ → ℕ → List ℕ → Option (Blocks D)
    write_at zero s index lba count buffer = none
    write_at (suc fuel) s index lba count buffer = elim (get_elem? s.devices index) [
      | none ↦ none
      | some d ↦
          if not d.writable || not d.has_write || not (range_valid d lba count)
          then none
          else elim d.driver [
            | ramdisk ↦
                Option.map (λ bytes. record s { ramdisk_bytes = bytes })
                  (ramdisk_write d s.ramdisk_bytes lba count buffer)
            | partition parent start ↦ write_at fuel s parent (add64 start lba) count buffer
            | other k ↦
                Option.map (λ disks'. record s { disks = disks' })
                  (drivers.disk_write k s.disks lba count buffer)
          ]
    ]

    pub write : Blocks D → ℕ → ℕ → ℕ → List ℕ → Option (Blocks D)
    write s index lba count buffer = write_at (length s.devices) s index lba count buffer

-- The loop of `block_init` over the sectors from `lba` on.
pub stamp_from : ℕ → ℕ → List ℕ → List ℕ
stamp_from zero lba bytes = bytes
stamp_from (suc left) lba bytes =
    stamp_from left (lba + 1)
      (copy_bytes 5 bytes (lba * block_size) (b'T' ∷ b'P' ∷ b'O' ∷ b'S' ∷ lba % 256 ∷ []) 0)

pub init_bytes : List ℕ
init_bytes =
    let label = codes "TangPingOS ram block device" ++ (10 ∷ []) in
    stamp_from (ramdisk_blocks - 1) 1
      (copy_bytes (length label) (replicate (ramdisk_blocks * block_size) 0) 0 label 0)

-- `block_init`; a failure to register the device is only logged.
pub init : {D : Type 0} → Blocks D → Blocks D
init s =
    let s' = record s { ramdisk_bytes = init_bytes } in
    elim (register s' ramdisk_device) [ none ↦ s' | some s'' ↦ s'' ]
