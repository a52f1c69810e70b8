-- ===== src/Partition.antt =====
-- kernel/partition.c: the partitions of an MBR become block devices of their own.
pub mod Contained
mod Tests
use tang_ping_os.Prelude.{
  ℕ, zero, suc, ◌+◌, ◌-◌, ◌*◌, ◌%◌, Option, none, some, Bool, true, false, not, ◌&&◌, ◌||◌, List,
  [], ◌∷◌, ◌++◌, Text, copy_limited, length, get_or, ltb, leb, ◌==◌, if◌then◌else◌, add64,
}
use tang_ping_os.Block.{
  Driver, Device, DeviceInfo, Blocks, Drivers, register, get_info, device_count,
}
use tang_ping_os.Block

abbrev pub signature_offset : ℕ
signature_offset = 510

abbrev pub table_offset : ℕ
table_offset = 446

abbrev pub entry_size : ℕ
entry_size = 16

abbrev pub primary_partitions : ℕ
primary_partitions = 4

abbrev pub max_partitions : ℕ
max_partitions = 16

-- A `uint32_t` from four bytes, the lowest first.
pub read_le32 : List ℕ → ℕ → ℕ
read_le32 p at =
    get_or p at 0
    + get_or p (at + 1) 0 * 256
    + get_or p (at + 2) 0 * 65536
    + get_or p (at + 3) 0 * 16777216

-- The parent's name, cut to fit, and then `p` and the number if there is room for both.
pub partition_name : Text → ℕ → Text
partition_name parent number =
    let copied = copy_limited Block.device_name_max parent in
    if leb Block.device_name_max (length copied + 2)
    then copied
    else copied ++ (b'p' ∷ (b'0' + number) % 256 ∷ [])

-- The static variables of partition.c beside the table of devices.
pub record Partitions (D : Type 0) : Type 0 where
  pub blocks : Blocks D
  pub partition_count : ℕ

-- The fields of one entry of the partition table.
pub record Entry : Type 0 where
  pub number : ℕ
  pub type : ℕ
  pub start_lba : ℕ
  pub sector_count : ℕ

pub partition_device : ℕ → DeviceInfo → Entry → Device
partition_device parent_index parent e = record {
  name = partition_name parent.name e.number;
  block_size = parent.block_size;
  block_count = e.sector_count;
  writable = parent.writable;
  has_read = true;
  has_write = parent.writable;
  driver = Driver.partition parent_index e.start_lba;
}

-- Whether `register_mbr_partition` goes on to register the entry.
pub accepts : DeviceInfo → ℕ → Entry → Bool
accepts parent partition_count e =
    if leb max_partitions partition_count || e.type == 0 || e.sector_count == 0
    then false
    else not (
        leb parent.block_count e.start_lba || ltb (parent.block_count - e.start_lba) e.sector_count)

-- The entry `i` of the table in the sector.
pub entry_at : List ℕ → ℕ → Entry
entry_at sector i =
    let at = table_offset + i * entry_size in
    record {
      number = i + 1;
      type = get_or sector (at + 4) 0;
      start_lba = read_le32 sector (at + 8);
      sector_count = read_le32 sector (at + 12);
    }

module _ {D : Type 0} where
  pub register_mbr_partition : Partitions D → ℕ → DeviceInfo → Entry → Partitions D
  register_mbr_partition s parent_index parent e =
      if not (accepts parent s.partition_count e)
      then s
      else elim (register s.blocks (partition_device parent_index parent e)) [
        | none ↦ s
        | some blocks' ↦ record { blocks = blocks'; partition_count = s.partition_count + 1 }
      ]

  -- The loop of `scan_mbr` over the entries from `i` on, of which `left` are left.
  pub scan_entries : ℕ → Partitions D → ℕ → DeviceInfo → List ℕ → ℕ → Partitions D
  scan_entries zero s parent_index parent sector i = s
  scan_entries (suc left) s parent_index parent sector i =
      scan_entries left (register_mbr_partition s parent_index parent (entry_at sector i))
        parent_index parent sector (i + 1)

  module _ (drivers : Drivers D) where
    pub scan_mbr : Partitions D → ℕ → Partitions D
    scan_mbr s parent_index = elim (get_info s.blocks parent_index) [
      | none ↦ s
      | some parent ↦
          if not (parent.block_size == 512)
          then s
          else elim (Block.read drivers s.blocks parent_index 0 1) [
            | none ↦ s
            | some sector ↦
                if not (get_or sector signature_offset 0 == 0x55)
                  || not (get_or sector (signature_offset + 1) 0 == 0xaa)
                then s
                else scan_entries primary_partitions s parent_index parent sector 0
          ]
    ]

    -- The loop of `partition_init` over the devices from `i` on, of which `left` are left.
    pub scan_devices : ℕ → Partitions D → ℕ → Partitions D
    scan_devices zero s i = s
    scan_devices (suc left) s i = scan_devices left (scan_mbr s i) (i + 1)

    pub partition_init : Partitions D → Partitions D
    partition_init s = scan_devices (device_count s.blocks) s 0

    pub partition_scan_device : Partitions D → ℕ → Partitions D
    partition_scan_device s index = scan_mbr s index
