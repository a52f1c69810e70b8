-- ===== src/Prelude/Words.antt =====
-- 64-bit words and byte copies.
use Prim.Native.Nat.{ℕ, zero, suc, ◌+◌, ◌-◌, ◌%◌, ◌/◌, ◌^◌, ◌≤◌}
use mathlib.Core.Path.{◌≡◌, refl}
use mathlib.Core.Bool.{Bool, ◌&&◌}
use mathlib.Core.List.{List}
use native.Mathlib.Omega.{arith}
use tang_ping_os.Prelude.Tests.{ltb, leb, ◌==◌, if◌then◌else◌}
use tang_ping_os.Prelude.Lists.{length, get_or, set, length-set, get_or-set}

abbrev pub u64_mod : ℕ
u64_mod = 2 ^ 64

-- `uint64_t` addition and subtraction.
abbrev pub add64 : ℕ → ℕ → ℕ
add64 a b = (a + b) % u64_mod

abbrev pub sub64 : ℕ → ℕ → ℕ
sub64 a b = (a + u64_mod - b % u64_mod) % u64_mod

-- (x & (1 << k)) != 0
abbrev pub has_bit : ℕ → ℕ → Bool
has_bit x k = x / 2 ^ k % 2 == 1

-- for (i = 0; i < n; i++) dst[at + i] = src[from + i]
unfoldable pub copy_bytes : ℕ → List ℕ → ℕ → List ℕ → ℕ → List ℕ
copy_bytes zero dst at src from = dst
copy_bytes (suc n) dst at src from =
    copy_bytes n (set dst at (get_or src from 0)) (at + 1) src (from + 1)

-- for (i = 0; i < n; i++) dst[at + i] = 0
unfoldable pub zero_bytes : ℕ → List ℕ → ℕ → List ℕ
zero_bytes zero dst at = dst
zero_bytes (suc n) dst at = zero_bytes n (set dst at 0) (at + 1)

pub length-copy_bytes :
    (n : ℕ) (dst : List ℕ) (at : ℕ) (src : List ℕ) (from : ℕ)
    → length (copy_bytes n dst at src from) ≡ length dst
unfolding copy_bytes
length-copy_bytes zero dst at src from = refl
length-copy_bytes (suc n) dst at src from = omega (
  arith,
  length-copy_bytes n (set dst at (get_or src from 0)) (at + 1) src (from + 1),
  length-set dst at (get_or src from 0),
)

pub length-zero_bytes : (n : ℕ) (dst : List ℕ) (at : ℕ) → length (zero_bytes n dst at) ≡ length dst
unfolding zero_bytes
length-zero_bytes zero dst at = refl
length-zero_bytes (suc n) dst at =
    omega (arith, length-zero_bytes n (set dst at 0) (at + 1), length-set dst at 0)

-- A copy that stays in the array changes the bytes of its range and no other.
pub get_or-copy_bytes :
    (n : ℕ) (dst : List ℕ) (at : ℕ) (src : List ℕ) (from i : ℕ)
    → at + n ≤ length dst
    → get_or (copy_bytes n dst at src from) i 0
      ≡ (if leb at i && ltb i (at + n) then get_or src (from + (i - at)) 0 else get_or dst i 0)
unfolding copy_bytes
get_or-copy_bytes zero dst at src from i h = ground arith
get_or-copy_bytes (suc n) dst at src from i h = ground (
  arith,
  get_or-copy_bytes n (set dst at (get_or src from 0)) (at + 1) src (from + 1) i,
  length-set dst at (get_or src from 0),
  get_or-set dst at i (get_or src from 0) 0,
)

pub get_or-zero_bytes :
    (n : ℕ) (dst : List ℕ) (at i : ℕ)
    → at + n ≤ length dst
    → get_or (zero_bytes n dst at) i 0 ≡ (if leb at i && ltb i (at + n) then 0 else get_or dst i 0)
unfolding zero_bytes
get_or-zero_bytes zero dst at i h = ground arith
get_or-zero_bytes (suc n) dst at i h = ground (
  arith,
  get_or-zero_bytes n (set dst at 0) (at + 1) i,
  length-set dst at 0,
  get_or-set dst at i 0 0,
)
