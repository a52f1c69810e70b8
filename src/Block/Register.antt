-- ===== src/Block/Register.antt =====
-- Registering a device keeps the table valid.
use tang_ping_os.Prelude.{
  ℕ, zero, suc, ◌+◌, ◌-◌, ◌*◌, ◌%◌, ◌≤◌, ◌<◌, ◌≡◌, refl, ◌⊎◌, inl, inr, some, List, [], ◌∷◌, ◌++◌,
  length, length-append, get_elem?, lt-length_of_some, ◌==◌, if◌then◌else◌, Bool-cases,
  Option-cases, arith, u64_mod, codes, replicate, length-replicate, copy_bytes, length-copy_bytes,
}
use tang_ping_os.Block.{
  Driver, Device, DeviceInfo, Blocks, register, get_info, block_size, ramdisk_blocks,
  ramdisk_device, stamp_from, init_bytes, init,
}
use tang_ping_os.Block.Range.{IsValid, Inside}

get_elem?-append :
    (ds : List Device) (d : Device) (i : ℕ)
    → get_elem? (ds ++ (d ∷ [])) i ≡ (if i == length ds then some d else get_elem? ds i)
get_elem?-append [] d zero = refl
get_elem?-append [] d (suc i) = ground arith
get_elem?-append (x ∷ ds) d zero = ground arith
get_elem?-append (x ∷ ds) d (suc i) = ground (arith, get_elem?-append ds d i)

-- The devices that were there stay where they are.
pub get_elem?-append_old :
    (ds : List Device) (d x : Device) (i : ℕ)
    → get_elem? ds i ≡ some x
    → get_elem? (ds ++ (d ∷ [])) i ≡ some x
get_elem?-append_old ds d x i e =
    let lt = lt-length_of_some ds i e in ground (arith, get_elem?-append ds d i)

new_or_old :
    (ds : List Device) (d x : Device) (i : ℕ)
    → get_elem? (ds ++ (d ∷ [])) i ≡ some x
    → ((i ≡ length ds) × (d ≡ x)) ⊎ (get_elem? ds i ≡ some x)
new_or_old ds d x i e = elim (Bool-cases (i == length ds)) [
  | inl at ↦ inl (ground arith, ground (arith, get_elem?-append ds d i))
  | inr before ↦ inr (ground (arith, get_elem?-append ds d i))
]

Inside-append :
    (ds : List Device) (new : Device) (i : ℕ) (d : Device) (parent start : ℕ)
    → Inside ds i d parent start
    → Inside (ds ++ (new ∷ [])) i d parent start
Inside-append ds new i d parent start p = record {
  before = p.before;
  device = p.device;
  there = get_elem?-append_old ds new p.device parent p.there;
  fits = p.fits;
  sizes = p.sizes;
  writes = p.writes;
}

module _ {D : Type 0} where
  -- A device that may be registered beside those there are.
  pub record Fits (s : Blocks D) (d : Device) : Type 0 where
    pub count : d.block_count < u64_mod
    pub ram : d.driver ≡ Driver.ramdisk → d.block_count * block_size ≤ length s.ramdisk_bytes
    pub part :
        (parent start : ℕ)
        → d.driver ≡ Driver.partition parent start
        → Inside s.devices (length s.devices) d parent start

  pub register-IsValid :
      (s s' : Blocks D) (d : Device)
      → IsValid s
      → Fits s d
      → register s d ≡ some s'
      → IsValid s' × (s' ≡ record s { devices = s.devices ++ (d ∷ []) })
  unfolding register
  register-IsValid s s' d v f e =
      let next : Blocks D = record s { devices = s.devices ++ (d ∷ []) } in
      let put : next ≡ s' = ground arith in
      rw (← put) (
        record {
          slots = ground (arith, length-append s.devices (d ∷ []));
          counts = λ i x h. elim (new_or_old s.devices d x i h) [
            | inl (at, same) ↦ rw (← same) f.count
            | inr old ↦ v.counts i x old
          ];
          ram = λ i x h r. elim (new_or_old s.devices d x i h) [
            | inl (at, same) ↦
                let r' : d.driver ≡ Driver.ramdisk = rw same r in rw (← same) (f.ram r')
            | inr old ↦ v.ram i x old r
          ];
          parts = λ i parent start x h p. elim (new_or_old s.devices d x i h) [
            | inl (at, same) ↦
                let p' : d.driver ≡ Driver.partition parent start = rw same p in
                rw (at, ← same)
                  (Inside-append s.devices d (length s.devices) d parent start
                    (f.part parent start p'))
            | inr old ↦ Inside-append s.devices d i x parent start (v.parts i parent start x old p)
          ];
        },
        refl,
      )

  -- What `block_get_info` tells of a device is true of it.
  pub get_info_lem :
      (s : Blocks D) (i : ℕ) (info : DeviceInfo)
      → get_info s i ≡ some info
      → (d : Device) × (get_elem? s.devices i ≡ some d)
        × (info.block_count ≡ d.block_count)
        × (info.block_size ≡ d.block_size)
        × (info.writable ≡ d.writable)
  unfolding get_info
  get_info_lem s i info e = elim (Option-cases (get_elem? s.devices i)) [
    | inl gone ↦ ground arith
    | inr (d, here) ↦ (d, here, ground arith, ground arith, ground arith)
  ]

length-stamp_from :
    (left lba : ℕ) (bytes : List ℕ) → length (stamp_from left lba bytes) ≡ length bytes
unfolding stamp_from
length-stamp_from zero lba bytes = refl
length-stamp_from (suc left) lba bytes =
    let stamp : List ℕ = b'T' ∷ b'P' ∷ b'O' ∷ b'S' ∷ lba % 256 ∷ [] in
    omega (
      arith,
      length-stamp_from left (lba + 1) (copy_bytes 5 bytes (lba * block_size) stamp 0),
      length-copy_bytes 5 bytes (lba * block_size) stamp 0,
    )

length-init_bytes : length init_bytes ≡ ramdisk_blocks * block_size
unfolding init_bytes
length-init_bytes =
    let label : List ℕ = codes "TangPingOS ram block device" ++ (10 ∷ []) in
    let bytes : List ℕ = replicate (ramdisk_blocks * block_size) 0 in
    omega (
      arith,
      length-stamp_from (ramdisk_blocks - 1) 1 (copy_bytes (length label) bytes 0 label 0),
      length-copy_bytes (length label) bytes 0 label 0,
      length-replicate {A = ℕ} (ramdisk_blocks * block_size) 0,
    )

-- `block_init` of an empty table leaves a valid one.
pub init-IsValid : {D : Type 0} (s : Blocks D) → s.devices ≡ [] → IsValid (init s)
unfolding init
init-IsValid {D = D} s e = elim (Option-cases (register start ramdisk_device)) [
  | inl full ↦ rw (init, full) start-IsValid
  | inr (s', added) ↦
      rw (init, added) (register-IsValid start s' ramdisk_device start-IsValid fits added).0
]
  where
    start : Blocks D
    start = record s { ramdisk_bytes = init_bytes }

    start-IsValid : IsValid start
    start-IsValid = record {
      slots = rw e (omega arith);
      counts = λ i d h. let h' : get_elem? [] i ≡ some d = rw e at h in cc;
      ram = λ i d h. let h' : get_elem? [] i ≡ some d = rw e at h in cc;
      parts = λ i parent first d h. let h' : get_elem? [] i ≡ some d = rw e at h in cc;
    }

    fits : Fits start ramdisk_device
    fits = record {
      count = omega arith;
      ram = λ r. omega (arith, length-init_bytes);
      part = λ parent first p. ground arith;
    }
