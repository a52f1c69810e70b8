-- ===== src/Block/Ramdisk.antt =====
-- A block that was written is read back, through partitions and drivers.
use tang_ping_os.Prelude.{
  ℕ, zero, suc, ◌+◌, ◌*◌, ◌≤◌, ◌≡◌, refl, ap, inl, inr, some, ◌&&◌, List, length, get_elem?,
  replicate, length-replicate, Bool-cases, Option-cases, arith, add64, copy_bytes,
  length-copy_bytes, get_or-copy_bytes, list_ext, get_or_past,
}
use tang_ping_os.Block.{
  Device, Blocks, Drivers, block_size, range_valid, ramdisk_read, ramdisk_write, read_at, read,
  write_at, write,
}
use tang_ping_os.Block.Range.{range_valid_iff, Driver-cases, IsValid}

-- A driver of another file reads back what it wrote.
abbrev pub ReadsBack : {D : Type 0} → Drivers D → Type 0
ReadsBack {D} drivers =
    (k lba count : ℕ) (disks disks' : D) (buffer : List ℕ)
    → drivers.disk_write k disks lba count buffer ≡ some disks'
    → drivers.disk_read k disks' lba count ≡ some buffer

-- What the RAM disk keeps.
ramdisk_read_back :
    (d : Device) (bytes bytes' : List ℕ) (lba count : ℕ) (buffer : List ℕ)
    → d.block_count * block_size ≤ length bytes
    → length buffer ≡ count * block_size
    → ramdisk_write d bytes lba count buffer ≡ some bytes'
    → ramdisk_read d bytes' lba count ≡ some buffer
unfolding ramdisk_write ramdisk_read
ramdisk_read_back d bytes bytes' lba count buffer fits size e =
    elim (Bool-cases (range_valid d lba count)) [
      | inr bad ↦ ground arith
      | inl ok ↦
          let n : ℕ = count * block_size in
          let at : ℕ = lba * block_size in
          let kept : copy_bytes n bytes at buffer 0 ≡ bytes' = ground arith in
          let (pos, le) = (range_valid_iff d lba count).0 ok in
          rw (ok, ← kept)
            (ap some (
              list_ext 0 (copy_bytes n (replicate n 0) 0 (copy_bytes n bytes at buffer 0) at) buffer
                (omega (
                  arith,
                  length-copy_bytes n (replicate n 0) 0 (copy_bytes n bytes at buffer 0) at,
                  length-replicate {A = ℕ} n 0,
                ))
                λ i. ground (
                  arith,
                  get_or-copy_bytes n (replicate n 0) 0 (copy_bytes n bytes at buffer 0) at i,
                  length-replicate {A = ℕ} n 0,
                  get_or-copy_bytes n bytes at buffer 0 (at + i),
                  get_or_past buffer i 0,
                  get_or_past (replicate {A = ℕ} n 0) i 0,
                )))
    ]

-- What is written is read back, whichever device it is written to.
write_at-read_at :
    {D : Type 0} (drivers : Drivers D) (back : ReadsBack drivers) (fuel : ℕ) (s s' : Blocks D)
    → (i lba count : ℕ) (buffer : List ℕ) → IsValid s
    → length buffer ≡ count * block_size
    → write_at drivers fuel s i lba count buffer ≡ some s'
    → (read_at drivers fuel s' i lba count ≡ some buffer) × (s'.devices ≡ s.devices)
unfolding write_at read_at
write_at-read_at drivers back zero s s' i lba count buffer v size e = ground arith
write_at-read_at {D = D} drivers back (suc fuel) s s' i lba count buffer v size e =
    elim (Option-cases (get_elem? s.devices i)) [
      | inl gone ↦ ground arith
      | inr (d, here) ↦ elim (Bool-cases (d.writable && d.has_write && range_valid d lba count)) [
        | inr refused ↦ ground arith
        | inl allowed ↦ elim (Driver-cases d.driver) [
          | inl r ↦ elim (Option-cases (ramdisk_write d s.ramdisk_bytes lba count buffer)) [
            | inl bad ↦ ground arith
            | inr (bytes, w) ↦
                let back' =
                  ramdisk_read_back d s.ramdisk_bytes bytes lba count buffer (v.ram i d here r) size
                    w in
                let next : Blocks D = record s { ramdisk_bytes = bytes } in
                let put : next ≡ s' = ground arith in
                let got : read_at drivers (suc fuel) next i lba count ≡ some buffer =
                  ground arith in
                rw (← put) (got, refl)
          ]
          | inr (inr (k, o)) ↦ elim (Option-cases (drivers.disk_write k s.disks lba count buffer)) [
            | inl bad ↦ ground arith
            | inr (disks, w) ↦
                let back' = back k lba count s.disks disks buffer w in
                let next : Blocks D = record s { disks = disks } in
                let put : next ≡ s' = ground arith in
                let got : read_at drivers (suc fuel) next i lba count ≡ some buffer =
                  ground arith in
                rw (← put) (got, refl)
          ]
          | inr (inl (parent, start, p)) ↦
              let deeper : write_at drivers fuel s parent (add64 start lba) count buffer ≡ some s' =
                ground arith in
              let (got, same) =
                write_at-read_at drivers back fuel s s' parent (add64 start lba) count buffer v size
                  deeper in
              let here' : get_elem? s'.devices i ≡ some d = rw same here in (ground arith, same)
        ]
      ]
    ]

-- In a valid table of devices, with drivers that read back what they wrote and a buffer of as
-- many blocks as are written: after a `block_write` that succeeded, to the RAM disk, a driver, or
-- a partition at any depth, a `block_read` of the same range succeeds and returns what was
-- written; the table of devices is unchanged.
pub write-read :
    {D : Type 0} (drivers : Drivers D) (s s' : Blocks D) (i lba count : ℕ) (buffer : List ℕ)
    → ReadsBack drivers
    → IsValid s
    → length buffer ≡ count * block_size
    → write drivers s i lba count buffer ≡ some s'
    → (read drivers s' i lba count ≡ some buffer) × (s'.devices ≡ s.devices)
unfolding write read
write-read {D = D} drivers s s' i lba count buffer back v size e =
    let (got, same) =
      write_at-read_at drivers back (length s.devices) s s' i lba count buffer v size e in
    (rw (ap (λ (ds : List Device). length ds) same) got, same)
