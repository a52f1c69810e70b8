-- ===== src/Prelude/Physical.antt =====
-- Physical memory as a function from addresses to bytes, and its little-endian words.
use Prim.Native.Nat.{ℕ, zero, suc, ◌+◌, ◌-◌, ◌*◌, ◌/◌, ◌%◌, ◌^◌, ◌≤◌, ◌<◌}
use mathlib.Core.Path.{◌≡◌, refl, ◌∙◌}
use mathlib.Core.Bool.{true, ◌||◌}
use native.Mathlib.Omega.{arith}
use tang_ping_os.Prelude.Tests.{ltb, leb, ◌==◌, if◌then◌else◌}
use tang_ping_os.Prelude.Words.{has_bit}

abbrev pub Memory : Type 0
Memory = ℕ → ℕ

abbrev pub store_byte : Memory → ℕ → ℕ → Memory
store_byte m at v a = if a == at then v else m a

-- A word of `n` bytes.
unfoldable pub read_le : ℕ → Memory → ℕ → ℕ
read_le zero m at = 0
read_le (suc n) m at = m at + 256 * read_le n m (at + 1)

unfoldable pub write_le : ℕ → Memory → ℕ → ℕ → Memory
write_le zero m at v = m
write_le (suc n) m at v = write_le n (store_byte m at (v % 256)) (at + 1) (v / 256)

-- table[index], for a table of `uint64_t` at the address `at`
abbrev pub read64 : Memory → ℕ → ℕ
read64 m at = read_le 8 m at

abbrev pub write64 : Memory → ℕ → ℕ → Memory
write64 m at v = write_le 8 m at v

-- a | b on words of `w` bits
unfoldable pub or_bits : ℕ → ℕ → ℕ → ℕ
or_bits zero a b = 0
or_bits (suc w) a b =
    let rest = or_bits w (a / 2) (b / 2) in (if a % 2 == 1 || b % 2 == 1 then 1 else 0) + 2 * rest

abbrev pub or64 : ℕ → ℕ → ℕ
or64 a b = or_bits 64 a b

-- x & ~(1 << k)
abbrev pub clear_bit : ℕ → ℕ → ℕ
clear_bit x k = if has_bit x k then x - 2 ^ k else x

pub write_le-outside :
    (n : ℕ) (m : Memory) (at v a : ℕ)
    → (ltb a at || leb (at + n) a) ≡ true
    → write_le n m at v a ≡ m a
unfolding write_le
write_le-outside zero m at v a h = refl
write_le-outside (suc n) m at v a h =
    ground (arith, write_le-outside n (store_byte m at (v % 256)) (at + 1) (v / 256) a)

pub read_le-ext :
    (n : ℕ) (m m' : Memory) (at : ℕ)
    → ((a : ℕ) → at ≤ a → a < at + n → m a ≡ m' a)
    → read_le n m at ≡ read_le n m' at
unfolding read_le
read_le-ext zero m m' at h = refl
read_le-ext (suc n) m m' at h = ground (
  arith,
  h at (omega arith) (omega arith),
  read_le-ext n m m' (at + 1) (λ a l u. h a (omega arith) (omega arith)),
)

-- A word beside the one written reads what it did.
pub read_le-write_le_apart :
    (n k : ℕ) (m : Memory) (at b v : ℕ)
    → (leb (b + k) at || leb (at + n) b) ≡ true
    → read_le k (write_le n m at v) b ≡ read_le k m b
read_le-write_le_apart n k m at b v h =
    read_le-ext k (write_le n m at v) m b (λ a l u. write_le-outside n m at v a (ground arith))

-- The bits of a word that `n` bytes hold.
abbrev pub low_bytes : ℕ → ℕ → ℕ
low_bytes zero v = 0
low_bytes (suc n) v = let rest = low_bytes n (v / 256) in v % 256 + 256 * rest

pub read_le-write_le :
    (n : ℕ) (m : Memory) (at v : ℕ) → read_le n (write_le n m at v) at ≡ low_bytes n v
unfolding read_le write_le
read_le-write_le zero m at v = refl
read_le-write_le (suc n) m at v = ground (
  arith,
  write_le-outside n (store_byte m at (v % 256)) (at + 1) (v / 256) at (ground arith),
  read_le-write_le n (store_byte m at (v % 256)) (at + 1) (v / 256),
)

low_bytes-lt : (v : ℕ) → v < 2 ^ 64 → low_bytes 8 v ≡ v
low_bytes-lt v h = omega arith

pub read64-write64 : (m : Memory) (at v : ℕ) → v < 2 ^ 64 → read64 (write64 m at v) at ≡ v
read64-write64 m at v h = read_le-write_le 8 m at v ∙ low_bytes-lt v h
