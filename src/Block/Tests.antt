-- ===== src/Block/Tests.antt =====
-- A disk of 8 blocks with a partition of it, and the theorems on them.
use mathlib.Core.Option
use tang_ping_os.Prelude.{
  ℕ, ◌+◌, ◌*◌, ◌≤◌, ◌<◌, ◌≡◌, refl, Option, none, some, true, ◌&&◌, List, [], ◌∷◌, codes,
  length-replicate, get_elem?, replicate, ◌==◌, if◌then◌else◌, arith, zero, suc, u64_mod, sym, ap,
  ◌∙◌,
}
use tang_ping_os.Block.{
  Device, Driver, Blocks, Drivers, block_size, range_valid, read, write, write_at,
}
use tang_ping_os.Block.Range.{Inside, IsValid, partition_io_lem}
use tang_ping_os.Block.Ramdisk.{ReadsBack, write-read}

-- A disk that keeps a block for each range that was written.
abbrev Disk : Type 0
Disk = ℕ → ℕ → List ℕ

abbrev drivers : Drivers Disk
drivers = record {
  disk_read = λ k disk lba count. some (disk lba count);
  disk_write =
      λ k disk lba count buffer. some (λ l c. if l == lba && c == count then buffer else disk l c);
}

drivers-ReadsBack : ReadsBack drivers
drivers-ReadsBack k lba count disk disk' buffer e =
    sym (ap (λ (o : Option Disk). Option.map (λ (d : Disk). d lba count) o) e) ∙ at_range
  where
    at_range : some (if lba == lba && count == count then buffer else disk lba count) ≡ some buffer
    at_range = ground arith

abbrev disk : Device
disk = record {
  name = codes "disk0";
  block_size = block_size;
  block_count = 8;
  writable = true;
  has_read = true;
  has_write = true;
  driver = Driver.other 0;
}

abbrev part : Device
part = record disk { name = codes "disk0p1"; block_count = 4; driver = Driver.partition 0 2 }

abbrev two_devices : Blocks Disk
two_devices = record {
  devices = disk ∷ part ∷ [];
  ramdisk_bytes = [];
  disks = λ l c. replicate (c * block_size) 0;
}

two_devices-IsValid : IsValid two_devices
two_devices-IsValid = record { slots = omega arith; counts = counts; ram = ram; parts = parts }
  where
    counts :
        (i : ℕ) (d : Device) → get_elem? two_devices.devices i ≡ some d → d.block_count < u64_mod
    counts zero d e = ground arith
    counts (suc zero) d e = ground arith
    counts (suc (suc i)) d e = cc

    ram :
        (i : ℕ) (d : Device)
        → get_elem? two_devices.devices i ≡ some d
        → d.driver ≡ Driver.ramdisk
        → d.block_count * block_size ≤ 0
    ram zero d e r = ground arith
    ram (suc zero) d e r = ground arith
    ram (suc (suc i)) d e r = cc

    parts :
        (i parent start : ℕ) (d : Device)
        → get_elem? two_devices.devices i ≡ some d
        → d.driver ≡ Driver.partition parent start
        → Inside two_devices.devices i d parent start
    parts zero parent start d e p = ground arith
    parts (suc zero) parent start d e p =
        let same : part ≡ d = ground arith in
        let p' : part.driver ≡ Driver.partition parent start =
          ap (λ (x : Device). x.driver) same ∙ p in
        let at : 0 ≡ parent = ground arith in
        let from : 2 ≡ start = ground arith in
        rw (← at, ← from, ← same)
          (record {
            before = omega arith;
            device = disk;
            there = refl;
            fits = omega arith;
            sizes = refl;
            writes = refl;
          })
    parts (suc (suc i)) parent start d e p = cc

abbrev sector : List ℕ
sector = replicate block_size 9

partition_io_lem_example :
    (read drivers two_devices 1 3 1
      ≡ (if range_valid part 3 1 then read drivers two_devices 0 (2 + 3) 1 else none))
    × (write drivers two_devices 1 3 1 sector ≡ (
        if part.writable && part.has_write && range_valid part 3 1
        then write drivers two_devices 0 (2 + 3) 1 sector
        else none))
    × (range_valid part 3 1 ≡ true
        → (p : Device) × (get_elem? two_devices.devices 0 ≡ some p)
          × (range_valid p (2 + 3) 1 ≡ true))
partition_io_lem_example =
    partition_io_lem drivers two_devices two_devices-IsValid 1 0 2 part refl refl 3 1 sector

abbrev written : Blocks Disk
written = record two_devices {
  disks = λ l c. if l == 5 && c == 1 then sector else replicate (c * block_size) 0;
}

write-written : write drivers two_devices 1 3 1 sector ≡ some written
unfolding write write_at range_valid
write-written = refl

write-read_example :
    (read drivers written 1 3 1 ≡ some sector) × (written.devices ≡ two_devices.devices)
write-read_example =
    write-read drivers two_devices written 1 3 1 sector drivers-ReadsBack two_devices-IsValid
      (length-replicate {A = ℕ} block_size 9) write-written
