-- ===== src/Ramfs/Update.antt =====
-- What writing and truncating do to the bytes of one file.
use tang_ping_os.Prelude.{
  ℕ, ◌+◌, ◌-◌, ◌≤◌, ◌≡◌, ◌&&◌, List, ◌++◌, length, get_or, take, drop, replicate, ltb, leb,
  if◌then◌else◌, arith, zero_bytes, length-copy_bytes, length-zero_bytes, get_or-copy_bytes,
  get_or-zero_bytes, length-append, length-take, length-drop, length-replicate, get_or-append,
  get_or-take, get_or-drop, get_or-replicate, get_or_past, list_ext,
}
use tang_ping_os.Ramfs.{File, write_at, resize, file_max_size}
use tang_ping_os.Ramfs.View.{contents}

-- The array of a file has its declared size, and the file does not reach past it.
abbrev pub FileOk : File → Type 0
FileOk f = (length f.bytes ≡ file_max_size) × (f.size ≤ file_max_size)

-- `old` with `bytes` put at `offset`, the gap before them filled with zeros.
abbrev pub overwrite : List ℕ → ℕ → List ℕ → List ℕ
overwrite old offset bytes =
    take offset (old ++ replicate (offset - length old) 0)
    ++ (bytes ++ drop (offset + length bytes) old)

-- `old` cut down to `n` bytes, or filled up to them with zeros.
abbrev pub resized : List ℕ → ℕ → List ℕ
resized old n = take n (old ++ replicate (n - length old) 0)

pub length-contents : (f : File) → FileOk f → length (contents f) ≡ f.size
length-contents f ok = omega (arith, length-take f.size f.bytes)

pub length-overwrite :
    (old : List ℕ) (offset : ℕ) (bytes : List ℕ)
    → length (overwrite old offset bytes)
      ≡ (if ltb (length old) (offset + length bytes) then offset + length bytes else length old)
length-overwrite old offset bytes = ground (
  arith,
  length-append (take offset (old ++ replicate (offset - length old) 0))
      (bytes ++ drop (offset + length bytes) old),
  length-append bytes (drop (offset + length bytes) old),
  length-take offset (old ++ replicate (offset - length old) 0),
  length-append old (replicate (offset - length old) 0),
  length-replicate {A = ℕ} (offset - length old) 0,
  length-drop (offset + length bytes) old,
)

pub get_or-overwrite :
    (old : List ℕ) (offset : ℕ) (bytes : List ℕ) (i : ℕ)
    → get_or (overwrite old offset bytes) i 0 ≡ (
        if leb offset i && ltb i (offset + length bytes)
        then get_or bytes (i - offset) 0
        else get_or old i 0)
get_or-overwrite old offset bytes i = ground (
  arith,
  get_or-append (take offset (old ++ replicate (offset - length old) 0))
      (bytes ++ drop (offset + length bytes) old) i 0,
  get_or-append bytes (drop (offset + length bytes) old) (i - offset) 0,
  length-take offset (old ++ replicate (offset - length old) 0),
  length-append old (replicate (offset - length old) 0),
  length-replicate {A = ℕ} (offset - length old) 0,
  get_or-take offset (old ++ replicate (offset - length old) 0) i 0,
  get_or-append old (replicate (offset - length old) 0) i 0,
  get_or-replicate {A = ℕ} (offset - length old) (i - length old) 0,
  get_or_past old i 0,
  get_or-drop (offset + length bytes) old (i - offset - length bytes) 0,
)

length-resized : (old : List ℕ) (n : ℕ) → length (resized old n) ≡ n
length-resized old n = omega (
  arith,
  length-take n (old ++ replicate (n - length old) 0),
  length-append old (replicate (n - length old) 0),
  length-replicate {A = ℕ} (n - length old) 0,
)

get_or-resized :
    (old : List ℕ) (n i : ℕ) → get_or (resized old n) i 0 ≡ (if ltb i n then get_or old i 0 else 0)
get_or-resized old n i = ground (
  arith,
  get_or-take n (old ++ replicate (n - length old) 0) i 0,
  get_or-append old (replicate (n - length old) 0) i 0,
  get_or-replicate {A = ℕ} (n - length old) (i - length old) 0,
  get_or_past old i 0,
)

module _ (f : File) (ok : FileOk f) where
  pub write_at-FileOk :
      (offset : ℕ) (buffer : List ℕ) (n : ℕ)
      → offset + n ≤ file_max_size
      → FileOk (write_at offset buffer n f)
  unfolding write_at
  write_at-FileOk offset buffer n h = ground (
    arith,
    length-copy_bytes n (zero_bytes (offset - f.size) f.bytes f.size) offset buffer 0,
    length-copy_bytes n f.bytes offset buffer 0,
    length-zero_bytes (offset - f.size) f.bytes f.size,
  )

  -- The bytes of a file after `ramfs_write` has copied into it.
  pub write_at-contents :
      (offset : ℕ) (buffer : List ℕ) (n : ℕ)
      → offset + n ≤ file_max_size
      → n ≤ length buffer
      → contents (write_at offset buffer n f) ≡ overwrite (contents f) offset (take n buffer)
  unfolding write_at
  write_at-contents offset buffer n h k =
      list_ext 0 (contents (write_at offset buffer n f))
        (overwrite (contents f) offset (take n buffer))
        (ground (
          arith,
          length-contents (write_at offset buffer n f),
          write_at-FileOk offset buffer n,
          length-contents f ok,
          length-overwrite (contents f) offset (take n buffer),
          length-take n buffer,
        ))
        λ i. ground (
          arith,
          get_or-overwrite (contents f) offset (take n buffer) i,
          length-take n buffer,
          get_or-take f.size f.bytes i 0,
          get_or-take n buffer (i - offset) 0,
          get_or-take (write_at offset buffer n f).size (write_at offset buffer n f).bytes i 0,
          get_or-copy_bytes n (zero_bytes (offset - f.size) f.bytes f.size) offset buffer 0 i,
          get_or-copy_bytes n f.bytes offset buffer 0 i,
          get_or-zero_bytes (offset - f.size) f.bytes f.size i,
          length-zero_bytes (offset - f.size) f.bytes f.size,
        )

  pub resize-FileOk : (n : ℕ) → n ≤ file_max_size → FileOk (resize n f)
  unfolding resize
  resize-FileOk n h = ground (arith, length-zero_bytes (n - f.size) f.bytes f.size)

  pub resize-contents : (n : ℕ) → n ≤ file_max_size → contents (resize n f) ≡ resized (contents f) n
  unfolding resize
  resize-contents n h =
      list_ext 0 (contents (resize n f)) (resized (contents f) n)
        (ground
          (arith, length-contents (resize n f), resize-FileOk n, length-resized (contents f) n))
        λ i. ground (
          arith,
          get_or-resized (contents f) n i,
          get_or-take f.size f.bytes i 0,
          get_or-take n (resize n f).bytes i 0,
          get_or-zero_bytes (n - f.size) f.bytes f.size i,
        )
