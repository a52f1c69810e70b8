-- ===== src/Input.antt =====
-- kernel/input.c: the keyboard's ring buffer, filled by the interrupt handler and drained by reads.
pub mod Queue
mod Tests
use tang_ping_os.Prelude.{
  ℕ, zero, suc, ◌+◌, ◌%◌, List, [], ◌∷◌, get_or, set, ◌==◌, if◌then◌else◌, add64,
}

abbrev pub buffer_size : ℕ
buffer_size = 256

-- `input_buffer`, `input_read_pos` and `input_write_pos`.
pub record Input : Type 0 where
  pub buffer : List ℕ
  pub read_pos : ℕ
  pub write_pos : ℕ

-- A key that finds the buffer full is dropped.
pub push_key : Input → ℕ → Input
push_key s c =
    let next = add64 s.write_pos 1 % buffer_size in
    if next == s.read_pos
    then s
    else record s { buffer = set s.buffer s.write_pos c; write_pos = next }

-- The rounds of the loop of `input_read`, of which `len - count` are left. The list holds the
-- characters stored in the caller's buffer, in order; its length is the count that is returned.
pub read : ℕ → Input → List ℕ × Input
read zero s = ([], s)
read (suc left) s =
    let (rest, s') = read left (record s { read_pos = add64 s.read_pos 1 % buffer_size }) in
    if s.read_pos == s.write_pos then ([], s) else (get_or s.buffer s.read_pos 0 ∷ rest, s')
