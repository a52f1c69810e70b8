-- ===== src/Syscall/Mounted.antt =====
-- `syscall_write_file` on the virtual file system with the table of files of Ramfs mounted.
use tang_ping_os.Prelude.{
  ℕ, ◌+◌, ◌-◌, ◌^◌, ◌≤◌, ◌<◌, ◌≡◌, refl, sym, ap, ◌∙◌, inl, inr, Option, none, some, true, false,
  ◌&&◌, ◌||◌, List, ◌∷◌, ◌++◌, Text, Memory, chars_equal, chars_equal_refl, length, length-append,
  get_or-append, list_ext, take, ltb, if◌then◌else◌, is_some, arith, Bool-cases,
}
use tang_ping_os.Usercopy.{validate_range}
use tang_ping_os.Usercopy.Reading.{user_bytes, length-user_bytes, user_bytes-append}
use tang_ping_os.Ramfs
use tang_ping_os.Ramfs.{path_valid, file_max_size}
use tang_ping_os.Ramfs.View.{view, has_room}
use tang_ping_os.Ramfs.Update.{overwrite, length-overwrite, get_or-overwrite}
use tang_ping_os.Ramfs.Inv.{IsValid}
use tang_ping_os.Ramfs.Slot.{or_empty}
use tang_ping_os.Ramfs.Spec.{accepts_write, write_refines}
use tang_ping_os.Ramfs.Mount.{mount, AllPass, write_file-mount}
use tang_ping_os.Vfs
use tang_ping_os.Vfs.{Filesystem}
use tang_ping_os.Syscall.{Files, path_of, write_file}
use tang_ping_os.Syscall.Writing.{write_file_accepted}

-- The functions of the virtual file system that the calls use.
abbrev pub vfs_files : {S : Type 0} → List (Filesystem S) → Files S
vfs_files mounts = record {
  read_file = λ s path offset buffer len.
      let (r, buffer') = Vfs.read_file mounts s path offset buffer len in
      elim r [ none ↦ none | some n ↦ some (n, buffer') ];
  write_file = λ s path offset buffer len. Vfs.write_file mounts s path offset buffer len;
  unlink_file = λ s path. Vfs.unlink_file mounts s path;
}

-- Two writes side by side are one.
overwrite-append :
    (old a b : List ℕ) (offset : ℕ)
    → overwrite (overwrite old offset a) (offset + length a) b ≡ overwrite old offset (a ++ b)
overwrite-append old a b offset =
    list_ext 0 (overwrite (overwrite old offset a) (offset + length a) b)
      (overwrite old offset (a ++ b))
      (ground (
        arith,
        length-overwrite (overwrite old offset a) (offset + length a) b,
        length-overwrite old offset a,
        length-overwrite old offset (a ++ b),
        length-append a b,
      ))
      λ i. ground (
        arith,
        get_or-overwrite (overwrite old offset a) (offset + length a) b i,
        get_or-overwrite old offset a i,
        get_or-overwrite old offset (a ++ b) i,
        length-append a b,
        get_or-append a b (i - offset) 0,
      )

module _ (before after : List (Filesystem Ramfs.Files)) (fs : Ramfs.Files) (path : Text)
    (m : Memory) (cr3 offset base len : ℕ) where
  -- What the table shows when the first `w` bytes are written.
  record Wrote (w : ℕ) (s : Ramfs.Files) : Type 0 where
    valid : IsValid s
    room : (is_some (view s path) || has_room s) ≡ true
    shown :
        (q : Text)
        → view s q ≡ (
            if ltb 0 w && chars_equal path q
            then some (overwrite (or_empty (view fs path)) offset (user_bytes m cr3 base w))
            else view fs q)

  -- The bytes that the file has after a chunk.
  next_bytes :
      (s : Ramfs.Files) (w n : ℕ)
      → Wrote w s
      → overwrite (or_empty (view s path)) (offset + w) (user_bytes m cr3 (base + w) n)
        ≡ overwrite (or_empty (view fs path)) offset (user_bytes m cr3 base (w + n))
  next_bytes s w n wrote = elim (Bool-cases (ltb 0 w)) [
    | inr start ↦
        let none_yet : w ≡ 0 = ground arith in
        let same : view s path ≡ view fs path = ground (arith, wrote.shown path) in
        let at : offset + w ≡ offset = omega arith in
        let from : base + w ≡ base = omega arith in
        let all : w + n ≡ n = omega arith in rw (same, at, from, all) refl
    | inl later ↦
        let shown : view s path
            ≡ some (overwrite (or_empty (view fs path)) offset (user_bytes m cr3 base w)) =
          ground (arith, wrote.shown path, chars_equal_refl path) in
        ap
          (λ (o : Option (List ℕ)).
            overwrite (or_empty o) (offset + w) (user_bytes m cr3 (base + w) n))
          shown
        ∙ ap
            (λ (k : ℕ).
              overwrite (overwrite (or_empty (view fs path)) offset (user_bytes m cr3 base w))
                (offset + k) (user_bytes m cr3 (base + w) n))
            (sym (length-user_bytes m cr3 base w))
        ∙ overwrite-append (or_empty (view fs path)) (user_bytes m cr3 base w)
            (user_bytes m cr3 (base + w) n) offset
        ∙ ap (λ (bytes : List ℕ). overwrite (or_empty (view fs path)) offset bytes)
            (user_bytes-append m cr3 base w n)
  ]

  -- The table takes each chunk.
  Wrote-takes :
      AllPass path before
      → path_valid path ≡ true
      → offset + len ≤ file_max_size
      → (s : Ramfs.Files) (w n : ℕ) (buffer : List ℕ) → Wrote w s
      → 0 < n
      → w + n ≤ len
      → n ≤ length buffer
      → take n buffer ≡ user_bytes m cr3 (base + w) n
      → (s' : Ramfs.Files) × (Vfs.write_file
            (before ++ (mount ∷ after))
            s
            path
            (offset + w)
            buffer
            n
          ≡ (some n, s'))
        × Wrote (w + n) s'
  Wrote-takes pass good fits s w n buffer wrote pos within large bytes =
      let (done, shown, valid) = write_refines s wrote.valid path (offset + w) buffer n large in
      let room = wrote.room in
      let accepted : accepts_write s path (offset + w) n ≡ true = ground arith in
      let s' : Ramfs.Files = (Ramfs.write s path (offset + w) buffer n).1 in
      let now : (Ramfs.write s path (offset + w) buffer n).0 ≡ some n = done ∙ rw accepted refl in
      let put : overwrite (or_empty (view s path)) (offset + w) (take n buffer)
          ≡ overwrite (or_empty (view fs path)) offset (user_bytes m cr3 base (w + n)) =
        ap (λ (b : List ℕ). overwrite (or_empty (view s path)) (offset + w) b) bytes
        ∙ next_bytes s w n wrote in
      (
        s',
        write_file-mount before after s s' path (offset + w) buffer n n pass good
            (ap (λ (r : Option ℕ). (r, s')) now),
        record {
          valid = valid;
          room = ground (arith, shown path, chars_equal_refl path);
          shown = λ q. ground (arith, shown q, wrote.shown q, put);
        },
      )

  -- On the virtual file system where the table of Ramfs is mounted at the root, no file system before
  -- it takes a write to the path, and the table is valid: when user space passes a path that is valid
  -- for the table, of a file that exists or for which there is room, and a range of at least one byte
  -- that is not at the null pointer, that it may read, and that ends in the file's 1024 bytes,
  -- `syscall_write_file` returns the length of the range. The path then shows its old bytes with those
  -- of user space over them and zeros in a gap, as after a single write, although they are written in
  -- chunks of at most 512; every other path shows what it did, and the table stays valid.
  pub write_file-overwrite :
      (path_at : ℕ)
      → IsValid fs
      → AllPass path before
      → accepts_write fs path offset len ≡ true
      → path_of m cr3 path_at ≡ some path
      → validate_range m cr3 base len false ≡ true
      → 0 < base
      → base < 2 ^ 64
      → 0 < len
      → (fs' : Ramfs.Files) × (write_file
            (vfs_files (before ++ (mount ∷ after)))
            m
            cr3
            fs
            path_at
            offset
            base
            len
          ≡ (some len, fs'))
        × ((q : Text)
            → view fs' q ≡ (
                if chars_equal path q
                then some (overwrite (or_empty (view fs path)) offset (user_bytes m cr3 base len))
                else view fs q))
        × IsValid fs'
  write_file-overwrite path_at v pass accepted e readable pos low nonempty =
      let (fs', done, wrote) =
        write_file_accepted (vfs_files (before ++ (mount ∷ after))) m cr3 offset base len path Wrote
          (Wrote-takes pass (ground arith) (ground arith)) fs path_at e readable pos low
          (ground arith) (record { valid = v; room = ground arith; shown = λ q. ground arith }) in
      (fs', done, λ q. ground (arith, wrote.shown q), wrote.valid)
