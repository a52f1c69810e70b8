-- ===== src/Block/Range.antt =====
-- Block ranges: what `block_range_valid` accepts, and how a partition's ranges lie in its parent.
use tang_ping_os.Prelude.{
  ℕ, zero, suc, ◌+◌, ◌*◌, ◌≤◌, ◌<◌, ◌≡◌, refl, ◌∙◌, ◌↔◌, ◌⊎◌, inl, inr, none, some, true, ◌&&◌,
  List, length, get_elem?, lt-length_of_some, if◌then◌else◌, Option-cases, arith, add64, u64_mod,
}
use tang_ping_os.Block.{
  Device, Driver, Blocks, Drivers, block_size, max_devices, range_valid, read_at, read, write_at,
  write,
}

-- `block_range_valid` accepts exactly the ranges of at least one block that end within the device.
pub range_valid_iff :
    (d : Device) (lba count : ℕ)
    → (range_valid d lba count ≡ true) ↔ ((0 < count) × (lba + count ≤ d.block_count))
unfolding range_valid
range_valid_iff d lba count = (λ h. (ground arith, ground arith), λ h. ground (arith, h.0, h.1))

-- A partition lies in its parent, which was registered before it.
pub record Inside (devices : List Device) (i : ℕ) (d : Device) (parent start : ℕ) : Type 0 where
  pub before : parent < i
  pub device : Device
  pub there : get_elem? devices parent ≡ some device
  pub fits : start + d.block_count ≤ device.block_count
  pub sizes : d.block_size ≡ device.block_size
  pub writes : d.writable ≡ device.writable

pub record IsValid {D : Type 0} (s : Blocks D) : Type 0 where
  pub slots : length s.devices ≤ max_devices
  pub counts : (i : ℕ) (d : Device) → get_elem? s.devices i ≡ some d → d.block_count < u64_mod
  pub ram :
      (i : ℕ) (d : Device)
      → get_elem? s.devices i ≡ some d
      → d.driver ≡ Driver.ramdisk
      → d.block_count * block_size ≤ length s.ramdisk_bytes
  pub parts :
      (i parent start : ℕ) (d : Device)
      → get_elem? s.devices i ≡ some d
      → d.driver ≡ Driver.partition parent start
      → Inside s.devices i d parent start

pub Driver-cases :
    (x : Driver)
    → (x ≡ Driver.ramdisk)
      ⊎ (((parent : ℕ) × (start : ℕ) × (x ≡ Driver.partition parent start))
          ⊎ ((k : ℕ) × (x ≡ Driver.other k)))
Driver-cases Driver.ramdisk = inl refl
Driver-cases (Driver.partition parent start) = inr (inl (parent, start, refl))
Driver-cases (Driver.other k) = inr (inr (k, refl))

module _ {D : Type 0} (drivers : Drivers D) (s : Blocks D) (v : IsValid s) where
  -- More fuel than the index of the device makes no difference.
  read_at_fuel :
      (fuel fuel' i lba count : ℕ)
      → i < fuel
      → i < fuel'
      → read_at drivers fuel s i lba count ≡ read_at drivers fuel' s i lba count
  unfolding read_at
  read_at_fuel zero fuel' i lba count h h' = absurd (omega arith)
  read_at_fuel (suc fuel) zero i lba count h h' = absurd (omega arith)
  read_at_fuel (suc fuel) (suc fuel') i lba count h h' =
      elim (Option-cases (get_elem? s.devices i)) [
        | inl e ↦ ground arith
        | inr (d, e) ↦ elim (Driver-cases d.driver) [
          | inl r ↦ ground arith
          | inr (inr (k, o)) ↦ ground arith
          | inr (inl (parent, start, p)) ↦
              let inside = v.parts i parent start d e p in
              let earlier = inside.before in
              ground (
                arith,
                read_at_fuel fuel fuel' parent (add64 start lba) count (omega arith) (omega arith),
              )
        ]
      ]

  write_at_fuel :
      (fuel fuel' i lba count : ℕ) (buffer : List ℕ)
      → i < fuel
      → i < fuel'
      → write_at drivers fuel s i lba count buffer ≡ write_at drivers fuel' s i lba count buffer
  unfolding write_at
  write_at_fuel zero fuel' i lba count buffer h h' = absurd (omega arith)
  write_at_fuel (suc fuel) zero i lba count buffer h h' = absurd (omega arith)
  write_at_fuel (suc fuel) (suc fuel') i lba count buffer h h' =
      elim (Option-cases (get_elem? s.devices i)) [
        | inl e ↦ ground arith
        | inr (d, e) ↦ elim (Driver-cases d.driver) [
          | inl r ↦ ground arith
          | inr (inr (k, o)) ↦ ground arith
          | inr (inl (parent, start, p)) ↦
              let inside = v.parts i parent start d e p in
              let earlier = inside.before in
              ground (
                arith,
                write_at_fuel fuel fuel' parent (add64 start lba) count buffer (omega arith)
                    (omega arith),
              )
        ]
      ]

  -- One call of `block_read` or `block_write` on a partition.
  read_at_step :
      (fuel i parent start : ℕ) (d : Device) (lba count : ℕ)
      → get_elem? s.devices i ≡ some d
      → d.driver ≡ Driver.partition parent start
      → read_at drivers (suc fuel) s i lba count ≡ (
          if range_valid d lba count
          then read_at drivers fuel s parent (add64 start lba) count
          else none)
  unfolding read_at
  read_at_step fuel i parent start d lba count e p = ground arith

  write_at_step :
      (fuel i parent start : ℕ) (d : Device) (lba count : ℕ) (buffer : List ℕ)
      → get_elem? s.devices i ≡ some d
      → d.driver ≡ Driver.partition parent start
      → write_at drivers (suc fuel) s i lba count buffer ≡ (
          if d.writable && d.has_write && range_valid d lba count
          then write_at drivers fuel s parent (add64 start lba) count buffer
          else none)
  unfolding write_at
  write_at_step fuel i parent start d lba count buffer e p = ground arith

  module _ (i parent start : ℕ) (d : Device) where
    in_parent :
        get_elem? s.devices i ≡ some d
        → d.driver ≡ Driver.partition parent start
        → (lba count : ℕ) → range_valid d lba count ≡ true
        → (add64 start lba ≡ start + lba)
          × ((p : Device) × (get_elem? s.devices parent ≡ some p)
              × (range_valid p (start + lba) count ≡ true))
    in_parent e p lba count h =
        let inside = v.parts i parent start d e p in
        let outer = inside.device in
        let (pos, le) = (range_valid_iff d lba count).0 h in
        let fits = inside.fits in
        let bound = v.counts parent outer inside.there in
        (
          omega arith,
          (outer, inside.there, (range_valid_iff outer (start + lba) count).1 (pos, omega arith)),
        )

    -- In a valid table of devices, a partition is read and written at its start in the parent: a
    -- range that fits in the partition is the parent's range from `start + lba` on, with no wrap
    -- around and in the parent's bounds. A range that does not fit gives -1, and so does a write
    -- to a partition that is not writable or has no write callback.
    pub partition_io_lem :
        get_elem? s.devices i ≡ some d
        → d.driver ≡ Driver.partition parent start
        → (lba count : ℕ) (buffer : List ℕ)
        → (read drivers s i lba count
            ≡ (if range_valid d lba count then read drivers s parent (start + lba) count else none))
          × (write drivers s i lba count buffer ≡ (
              if d.writable && d.has_write && range_valid d lba count
              then write drivers s parent (start + lba) count buffer
              else none))
          × (range_valid d lba count ≡ true
              → (p : Device) × (get_elem? s.devices parent ≡ some p)
                × (range_valid p (start + lba) count ≡ true))
    unfolding read write
    partition_io_lem e p lba count buffer =
        let n : ℕ = length s.devices in
        let lt = lt-length_of_some s.devices i e in
        let same = in_parent e p lba count in
        (
          read_at_fuel n (suc n) i lba count lt (omega arith)
              ∙ read_at_step n i parent start d lba count e p
              ∙ ground (arith, same),
          write_at_fuel n (suc n) i lba count buffer lt (omega arith)
              ∙ write_at_step n i parent start d lba count buffer e p
              ∙ ground (arith, same),
          λ h. (same h).1,
        )
