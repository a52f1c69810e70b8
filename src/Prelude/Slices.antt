-- ===== src/Prelude/Slices.antt =====
-- What a copy out of an array leaves in a buffer.
use Prim.Native.Nat.{ℕ, ◌+◌, ◌-◌, ◌≤◌, min}
use mathlib.Core.Path.{◌≡◌, ap₂}
use mathlib.Core.List.{List, ◌++◌}
use native.Mathlib.Omega.{arith}
use tang_ping_os.Prelude.Lists.{
  length, length-take, length-append, length-drop, get_or-take, get_or-drop, get_or-append, take,
  drop, list_ext,
}
use tang_ping_os.Prelude.Words.{copy_bytes, length-copy_bytes, get_or-copy_bytes}

-- What is left of a buffer when the bytes of a file from `offset` on, up to `n`, are copied to
-- its start: the number copied, and the buffer.
abbrev pub read_result : List ℕ → ℕ → List ℕ → ℕ → ℕ × List ℕ
read_result bytes offset buffer n =
    let got = take n (drop offset bytes) in (length got, got ++ drop (length got) buffer)

-- The bytes of a file stand in `src` from `start` on.
module _ (src : List ℕ) (start size : ℕ) where
  abbrev bytes : List ℕ
  bytes = take size (drop start src)

  pub copy_bytes-read_result :
      (offset : ℕ) (buffer : List ℕ) (n k : ℕ)
      → start + size ≤ length src
      → n ≤ length buffer
      → k ≡ min n (size - offset)
      → (k, copy_bytes k buffer 0 src (start + offset)) ≡ read_result bytes offset buffer n
  copy_bytes-read_result offset buffer n k inside h e =
      ap₂ (λ a b. (a, b)) size_eq
        (list_ext 0 (copy_bytes k buffer 0 src (start + offset)) (got ++ drop (length got) buffer)
          (omega (
            arith,
            size_eq,
            length-copy_bytes k buffer 0 src (start + offset),
            length-append got (drop (length got) buffer),
            length-drop (length got) buffer,
          ))
          λ i. ground (
            arith,
            size_eq,
            get_or-copy_bytes k buffer 0 src (start + offset) i,
            get_or-append got (drop (length got) buffer) i 0,
            get_or-drop (length got) buffer (i - length got) 0,
            get_or-take n (drop offset bytes) i 0,
            get_or-drop offset bytes i 0,
            get_or-take size (drop start src) (offset + i) 0,
            get_or-drop start src (offset + i) 0,
          ))
    where
      got : List ℕ
      got = take n (drop offset bytes)

      size_eq : k ≡ length (take n (drop offset bytes))
      size_eq = omega (
        arith,
        length-take n (drop offset bytes),
        length-drop offset bytes,
        length-take size (drop start src),
        length-drop start src,
      )
