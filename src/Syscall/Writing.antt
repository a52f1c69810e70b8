-- ===== src/Syscall/Writing.antt =====
-- The loop that writes a file from user memory in chunks.
use mathlib.Core.Path.{ap₂}
use tang_ping_os.Prelude.{
  ℕ, zero, suc, ◌+◌, ◌-◌, ◌^◌, ◌≤◌, ◌<◌, ◌≡◌, refl, ap, ◌∙◌, inl, inr, Option, some, Bool, true,
  false, List, [], ◌∷◌, ◌++◌, Text, Memory, replicate, length-replicate, length, length-append,
  length-drop, take, drop, ltb, ◌==◌, add64, arith, Bool-cases, ltb→lt,
}
use tang_ping_os.Usercopy.{min_u64, validate_range, copy_from_user}
use tang_ping_os.Usercopy.Range.{min_u64_lem, Accessible, validate_range_iff}
use tang_ping_os.Usercopy.Reading.{accepts, user_bytes, length-user_bytes, copy_from_user_lem}
use tang_ping_os.Syscall.{Files, chunk_size, path_of, write_chunks, write_file}

take-append : (n : ℕ) (xs ys : List ℕ) → length xs ≡ n → take n (xs ++ ys) ≡ xs
take-append zero [] ys e = refl
take-append zero (x ∷ xs) ys e = absurd (omega arith)
take-append (suc n) [] ys e = absurd (omega arith)
take-append (suc n) (x ∷ xs) ys e = ap (λ (r : List ℕ). x ∷ r) (take-append n xs ys (omega arith))

-- The bytes of a round.
chunk_copied :
    (m : Memory) (cr3 base len written n : ℕ) (buffer : List ℕ)
    → Accessible m cr3 base len false
    → 0 < base
    → base + written < 2 ^ 64
    → 0 < n
    → written + n ≤ len
    → n ≤ length buffer
    → len < 2 ^ 64
    → copy_from_user m cr3 (base + written) n buffer
      ≡ (true, user_bytes m cr3 (base + written) n ++ drop n buffer)
chunk_copied m cr3 base len written n buffer (top, all) pos low some_left fits room small =
    let part : Accessible m cr3 (base + written) n false = (
      omega (arith, top),
      λ i ge lt.
          let at : base + written + i ≡ base + (written + i) = omega arith in
          rw at (all (written + i) (omega arith) (omega arith)),
    ) in
    let valid = (validate_range_iff m cr3 (base + written) n false low (omega arith)).1 part in
    let accepted : accepts m cr3 (base + written) n ≡ true = ground (arith, valid) in
    elim (copy_from_user_lem m cr3 (base + written) n buffer low (omega arith) room) [
      | inl (ok, copied) ↦ copied
      | inr (refused, failed, rest) ↦ absurd (ground arith)
    ]

-- A file system where `Wrote w s` says that the first `w` bytes are written in the state `s`, and
-- which takes each chunk of the bytes that follow.
module _ {S : Type 0} (files : Files S) (m : Memory) (cr3 offset base len : ℕ) (path : Text)
    (Wrote : ℕ → S → Type 0)
    (takes : (s : S) (w n : ℕ) (buffer : List ℕ)
      → Wrote w s
      → 0 < n
      → w + n ≤ len
      → n ≤ length buffer
      → take n buffer ≡ user_bytes m cr3 (base + w) n
      → (s' : S) × (files.write_file s path (offset + w) buffer n ≡ (some n, s'))
        × Wrote (w + n) s') where
  -- One round.
  write_chunks_step :
      (s s' : S) (fuel written : ℕ) (buffer out : List ℕ)
      → ltb written len ≡ true
      → copy_from_user m cr3 (add64 base written) (min_u64 chunk_size (len - written)) buffer
        ≡ (true, out)
      → files.write_file s path (add64 offset written) out (min_u64 chunk_size (len - written))
        ≡ (some (min_u64 chunk_size (len - written)), s')
      → write_chunks files m cr3 (suc fuel) s path offset base len written buffer
        ≡ write_chunks files m cr3 fuel s' path offset base len
            (written + min_u64 chunk_size (len - written))
            out
  unfolding write_chunks
  write_chunks_step s s' fuel written buffer out more copied wrote =
      let n : ℕ = min_u64 chunk_size (len - written) in
      let same : (n == n) ≡ true = ground arith in
      let out_eq = ap (λ (r : Bool × List ℕ). r.1) copied in
      let state_eq =
        ap (λ (b : List ℕ). (files.write_file s path (add64 offset written) b n).1) out_eq
        ∙ ap (λ (r : Option ℕ × S). r.1) wrote in
      rw (more, copied, wrote, same)
        (ap₂
          (λ (t : S) (b : List ℕ).
            write_chunks files m cr3 fuel t path offset base len (written + n) b)
          state_eq out_eq)

  pub write_chunks_lem :
      (s : S) (fuel written : ℕ) (buffer : List ℕ)
      → Accessible m cr3 base len false
      → 0 < base
      → len < 2 ^ 64
      → offset + len < 2 ^ 64
      → Wrote written s
      → written ≤ len
      → len ≤ written + fuel
      → chunk_size ≤ length buffer
      → (s' : S) × (write_chunks files m cr3 fuel s path offset base len written buffer
          ≡ (some len, s'))
        × Wrote len s'
  unfolding write_chunks
  write_chunks_lem s zero written buffer a pos small fits wrote le enough room =
      let all : written ≡ len = omega arith in (s, rw all refl, rw (← all) wrote)
  write_chunks_lem s (suc fuel) written buffer a pos small fits wrote le enough room =
      elim (Bool-cases (ltb written len)) [
        | inr end ↦
            let all : written ≡ len = ground arith in (s, rw (end, all) refl, rw (← all) wrote)
        | inl more ↦
            let n : ℕ = min_u64 chunk_size (len - written) in
            let (short, within, positive) = min_u64_lem chunk_size (len - written) in
            let some_left = positive (omega arith) (ground arith) in
            let seen = user_bytes m cr3 (base + written) n in
            let out : List ℕ = seen ++ drop n buffer in
            let low : base + written < 2 ^ 64 = omega (arith, a.0, ltb→lt written len more) in
            let here : add64 base written ≡ base + written = omega arith in
            let there : add64 offset written ≡ offset + written = omega arith in
            let copied =
              chunk_copied m cr3 base len written n buffer a pos low some_left (omega arith)
                (omega arith) small in
            let size : length out ≡ length buffer = omega (
              arith,
              length-append seen (drop n buffer),
              length-user_bytes m cr3 (base + written) n,
              length-drop n buffer,
            ) in
            let (s', taken, wrote') =
              takes s written n out wrote some_left (omega arith) (omega arith)
                (take-append n seen (drop n buffer) (length-user_bytes m cr3 (base + written) n)) in
            let (s'', rest, done) =
              write_chunks_lem s' fuel (written + n) out a pos small fits wrote' (omega arith)
                (omega arith) (omega arith) in
            (
              s'',
              write_chunks_step s s' fuel written buffer out more
                    (ap (λ (x : ℕ). copy_from_user m cr3 x n buffer) here ∙ copied)
                    (ap (λ (x : ℕ). files.write_file s path x out n) there ∙ taken)
                  ∙ rest,
              done,
            )
      ]

  write_file-write_chunks :
      (s : S) (path_at : ℕ)
      → path_of m cr3 path_at ≡ some path
      → validate_range m cr3 base len false ≡ true
      → write_file files m cr3 s path_at offset base len
        ≡ write_chunks files m cr3 len s path offset base len 0 (replicate chunk_size 0)
  unfolding write_file
  write_file-write_chunks s path_at e valid = rw (write_file, e, valid) refl

  -- `syscall_write_file` once its arguments are accepted.
  pub write_file_accepted :
      (s : S) (path_at : ℕ)
      → path_of m cr3 path_at ≡ some path
      → validate_range m cr3 base len false ≡ true
      → 0 < base
      → base < 2 ^ 64
      → offset + len < 2 ^ 64
      → Wrote 0 s
      → (s' : S) × (write_file files m cr3 s path_at offset base len ≡ (some len, s'))
        × Wrote len s'
  write_file_accepted s path_at e valid pos low fits wrote =
      let small : len < 2 ^ 64 = omega arith in
      let a = (validate_range_iff m cr3 base len false low small).0 valid in
      let (s', done, all) =
        write_chunks_lem s len 0 (replicate chunk_size 0) a pos small fits wrote (omega arith)
          (omega arith) (omega (arith, length-replicate {A = ℕ} chunk_size 0)) in
      (s', write_file-write_chunks s path_at e valid ∙ done, all)
