-- ===== src/Partition/Contained.antt =====
-- Every partition that is registered lies within its parent.
use tang_ping_os.Prelude.{
  ℕ, zero, suc, ◌+◌, ◌≤◌, ◌<◌, ◌≡◌, ◌⊎◌, inl, inr, some, true, not, ◌||◌, List, get_elem?,
  lt-length_of_some, get_or, ◌==◌, Bool-cases, Option-cases, arith,
}
use tang_ping_os.Block.{
  Driver, Device, DeviceInfo, Blocks, Drivers, register, get_info, device_count, block_size,
  max_devices, range_valid,
}
use tang_ping_os.Block
use tang_ping_os.Block.Range.{IsValid}
use tang_ping_os.Block.Register.{Fits, register-IsValid, get_info_lem, get_elem?-append_old}
use tang_ping_os.Partition.{
  Partitions, Entry, accepts, partition_device, register_mbr_partition, entry_at, scan_entries,
  scan_mbr, scan_devices, partition_init, partition_scan_device, primary_partitions,
  signature_offset,
}

accepts_lem :
    (parent : DeviceInfo) (n : ℕ) (e : Entry)
    → accepts parent n e ≡ true
    → (0 < e.sector_count) × (e.start_lba + e.sector_count ≤ parent.block_count)
unfolding accepts
accepts_lem parent n e h = (ground arith, ground arith)

-- The devices of `s` are still there in `s'`, at their indices.
abbrev pub Extends : {D : Type 0} → Blocks D → Blocks D → Type 0
Extends s s' =
    (i : ℕ) (d : Device) → get_elem? s.devices i ≡ some d → get_elem? s'.devices i ≡ some d

module _ {D : Type 0} where
  -- What `block_get_info` has told about a device.
  record Describes (s : Blocks D) (index : ℕ) (info : DeviceInfo) : Type 0 where
    device : Device
    there : get_elem? s.devices index ≡ some device
    count : info.block_count ≡ device.block_count
    size : info.block_size ≡ device.block_size
    writes : info.writable ≡ device.writable

  Describes-later :
      (s s' : Blocks D) (index : ℕ) (info : DeviceInfo)
      → Extends s s'
      → Describes s index info
      → Describes s' index info
  Describes-later s s' index info later p = record {
    device = p.device;
    there = later index p.device p.there;
    count = p.count;
    size = p.size;
    writes = p.writes;
  }

  partition_device-Fits :
      (s : Blocks D) (index n : ℕ) (info : DeviceInfo) (e : Entry)
      → IsValid s
      → Describes s index info
      → accepts info n e ≡ true
      → Fits s (partition_device index info e)
  unfolding partition_device
  partition_device-Fits s index n info e v p ok =
      let (some_sectors, inside) = accepts_lem info n e ok in
      let bound = v.counts index p.device p.there in
      let count = p.count in
      record {
        count = omega arith;
        ram = λ r. ground arith;
        part = λ parent start q.
            let at : index ≡ parent = ground arith in
            let from : e.start_lba ≡ start = ground arith in
            rw (← at, ← from)
              (record {
                before = lt-length_of_some s.devices index p.there;
                device = p.device;
                there = p.there;
                fits = omega arith;
                sizes = p.size;
                writes = p.writes;
              });
      }

  register_mbr_partition-IsValid :
      (s : Partitions D) (index : ℕ) (info : DeviceInfo) (e : Entry)
      → IsValid s.blocks
      → Describes s.blocks index info
      → let s' = register_mbr_partition s index info e in
        IsValid s'.blocks × Extends s.blocks s'.blocks
  unfolding register_mbr_partition
  register_mbr_partition-IsValid s index info e v p =
      elim (Bool-cases (accepts info s.partition_count e)) [
        | inr bad ↦
            let stays : register_mbr_partition s index info e ≡ s = ground arith in
            rw stays (v, λ i d h. h)
        | inl ok ↦ elim (Option-cases (register s.blocks (partition_device index info e))) [
          | inl full ↦
              let stays : register_mbr_partition s index info e ≡ s = ground arith in
              rw stays (v, λ i d h. h)
          | inr (blocks', added) ↦
              let fits = partition_device-Fits s.blocks index s.partition_count info e v p ok in
              let (v', same) =
                register-IsValid s.blocks blocks' (partition_device index info e) v fits added in
              let next : (register_mbr_partition s index info e).blocks ≡ blocks' = ground arith in
              rw next (
                v',
                λ i d h.
                    rw same
                      (get_elem?-append_old s.blocks.devices (partition_device index info e) d i h),
              )
        ]
      ]

  scan_entries-IsValid :
      (left : ℕ) (s : Partitions D) (index : ℕ) (info : DeviceInfo) (sector : List ℕ) (i : ℕ)
      → IsValid s.blocks
      → Describes s.blocks index info
      → let s' = scan_entries left s index info sector i in
        IsValid s'.blocks × Extends s.blocks s'.blocks
  unfolding scan_entries
  scan_entries-IsValid zero s index info sector i v p = (v, λ j d h. h)
  scan_entries-IsValid (suc left) s index info sector i v p =
      let s1 : Partitions D = register_mbr_partition s index info (entry_at sector i) in
      let (v1, later) = register_mbr_partition-IsValid s index info (entry_at sector i) v p in
      let (v2, later') =
        scan_entries-IsValid left s1 index info sector (i + 1) v1
          (Describes-later s.blocks s1.blocks index info later p) in
      (v2, λ j d h. later' j d (later j d h))

  module _ (drivers : Drivers D) where
    -- A scan changes nothing, or goes through the entries of a sector of the device.
    scan_mbr-cases :
        (s : Partitions D) (index : ℕ)
        → (scan_mbr drivers s index ≡ s)
          ⊎ ((info : DeviceInfo) × (sector : List ℕ) × (get_info s.blocks index ≡ some info)
              × (scan_mbr drivers s index ≡ scan_entries primary_partitions s index info sector 0))
    unfolding scan_mbr
    scan_mbr-cases s index = elim (Option-cases (get_info s.blocks index)) [
      | inl gone ↦ inl (ground arith)
      | inr (info, here) ↦ elim (Bool-cases (info.block_size == 512)) [
        | inr other ↦ inl (ground arith)
        | inl fits ↦ elim (Option-cases (Block.read drivers s.blocks index 0 1)) [
          | inl failed ↦ inl (ground arith)
          | inr (sector, got) ↦
              elim (Bool-cases (
                not (get_or sector signature_offset 0 == 0x55)
                || not (get_or sector (signature_offset + 1) 0 == 0xaa))) [
                  | inl unsigned ↦ inl (ground arith)
                  | inr signed ↦ inr (info, sector, here, ground arith)
                ]
        ]
      ]
    ]

    scan_mbr-IsValid :
        (s : Partitions D) (index : ℕ)
        → IsValid s.blocks
        → let s' = scan_mbr drivers s index in IsValid s'.blocks × Extends s.blocks s'.blocks
    scan_mbr-IsValid s index v = elim (scan_mbr-cases s index) [
      | inl stays ↦ rw stays (v, λ i d h. h)
      | inr (info, sector, here, scans) ↦
          let (d, there, count, size, writes) = get_info_lem s.blocks index info here in
          rw scans (
            scan_entries-IsValid primary_partitions s index info sector 0 v
              (record { device = d; there = there; count = count; size = size; writes = writes }))
    ]

    scan_devices-IsValid :
        (left : ℕ) (s : Partitions D) (i : ℕ)
        → IsValid s.blocks
        → let s' = scan_devices drivers left s i in IsValid s'.blocks × Extends s.blocks s'.blocks
    unfolding scan_devices
    scan_devices-IsValid zero s i v = (v, λ j d h. h)
    scan_devices-IsValid (suc left) s i v =
        let (v1, later) = scan_mbr-IsValid s i v in
        let (v2, later') = scan_devices-IsValid left (scan_mbr drivers s i) (i + 1) v1 in
        (v2, λ j d h. later' j d (later j d h))

    -- From a valid table of devices, whatever the sectors that are read hold: `partition_init`
    -- and `partition_scan_device` leave a valid table, in which every partition lies within its
    -- parent, which has a smaller index, and which holds at most 16 devices. The devices that
    -- were there keep their indices and are unchanged.
    pub partition_init-IsValid :
        (s : Partitions D)
        → IsValid s.blocks
        → (let s' = partition_init drivers s in IsValid s'.blocks × Extends s.blocks s'.blocks)
          × ((index : ℕ)
              → let s' = partition_scan_device drivers s index in
                IsValid s'.blocks × Extends s.blocks s'.blocks)
    unfolding partition_init partition_scan_device
    partition_init-IsValid s v =
        (scan_devices-IsValid (device_count s.blocks) s 0 v, λ index. scan_mbr-IsValid s index v)
